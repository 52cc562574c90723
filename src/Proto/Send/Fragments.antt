-- ===== src/Proto/Send/Fragments.antt =====
-- A message that is cut into packets comes out whole where its packets are delivered.
use in5020_assignment.Prelude.{
  ℕ, suc, ◌+◌, ◌≤◌, ◌<◌, ◌≡◌, inl, inr, refl, pos, negsuc, pos_part, neg_part, ltb_ℤ, eqb_ℤ, true,
  false, ◌==◌, ◌&&◌, if◌then◌else◌, Bool-cases, List, [], ◌∷◌, ◌++◌, append_assoc, length,
  length-snoc, snoc, arith, some, ok, update_self, update_ne, sym, subst, ◌∙◌, ap, ap₂, ==_iff,
}
use in5020_assignment.Wire.{is_safe, is_reliable}
use in5020_assignment.Proto.{
  Proto, Slot, deliver_message, entry, slot_at, max_packets, set_exist, max_procs_ring,
}
use in5020_assignment.Proto.Deliver.{
  chain, started, abs_index, up_index, is_single, deliver_packet, agreed_loop,
}
use in5020_assignment.Proto.Deliver.Window.{entry-ne}
use in5020_assignment.Proto.Send.{fragment_index}

-- Cell `c` holds, undelivered, fragment `k` of a message of `total` elements: its body, in a packet of
-- type `type`, as far as delivery reads it, from the daemon at index `q`.
pub record IsFragment (q type total k : ℕ) (body : List ℕ) (c : Slot) : Type 0 where
  pub exist : c.exist ≡ 1
  pub proc_index : c.proc_index ≡ some q
  pub reliable : is_reliable c.packet.head.type ≡ is_reliable type
  pub safe : is_safe c.packet.head.type ≡ is_safe type
  pub index : c.packet.head.packet_index ≡ fragment_index k total
  pub same_body : c.packet.body ≡ body

-- The cells from number `i` on hold the fragments from `k` on, with the bodies of the list.
abbrev pub Fragments : ℕ → ℕ → ℕ → ℕ → ℕ → List (List ℕ) → Proto → Type 0
Fragments q type total k i [] s = Unit
Fragments q type total k i (b ∷ bs) s =
    IsFragment q type total k b (slot_at s i) × Fragments q type total (k + 1) (i + 1) bs s

-- The index that `Deliver_packet` checks is one more than the fragment's number.
fragment_index_abs :
    (k total : ℕ)
    → k < total
    → (pos_part (fragment_index k total) + neg_part (fragment_index k total) ≡ k + 1)
      × (ltb_ℤ (fragment_index k total) (pos 0) ≡ (k + 1 == total))
fragment_index_abs k total h = ground arith

-- the state after fragment `k`, with the message so far
record Chained (q k total i : ℕ) (mess : List (List ℕ)) (s t : Proto) : Type 0 where
  packets : t.packets ≡ (set_exist (entry i) 2 s).packets
  last_delivered : t.last_delivered ≡ s.last_delivered
  more : k + 1 < total → (started (t.up_queue q) ≡ mess) × (t.effects ≡ s.effects)
  whole :
      k + 1 ≡ total → (started (t.up_queue q) ≡ []) × (t.effects ≡ deliver_message mess ∷ s.effects)

chain-Chained :
    (q type total k i : ℕ) (body : List ℕ) (prefix : List (List ℕ)) (s : Proto)
    → k < total
    → IsFragment q type total k body (slot_at s i)
    → started (s.up_queue q) ≡ prefix
    → Chained q k total i (snoc prefix body) s (chain (entry i) q s)
unfolding chain
chain-Chained q type total k i body prefix s h f e = elim (Bool-cases (k + 1 == total)) [
  | inl last ↦ rw (test ∙ last) (record {
    packets = refl;
    last_delivered = refl;
    more = λ x. absurd (ground arith);
    whole = λ x.
        (ap started (update_self s.up_queue q _), ap (λ m. deliver_message m ∷ s.effects) mess);
  })
  | inr not_last ↦ rw (test ∙ not_last) (record {
    packets = refl;
    last_delivered = refl;
    more = λ x. (ap started (update_self s.up_queue q _) ∙ mess, refl);
    whole = λ x. absurd (ground arith);
  })
]
  where
    test : ltb_ℤ (slot_at s i).packet.head.packet_index (pos 0) ≡ (k + 1 == total)
    test = ap (λ z. ltb_ℤ z (pos 0)) f.index ∙ (fragment_index_abs k total h).1

    mess : snoc (started (s.up_queue q)) (slot_at s i).packet.body ≡ snoc prefix body
    mess = ap₂ snoc e f.same_body

-- A fragment of an agreed message goes through `Deliver_packet` in its turn.
deliver_fragment :
    (q type total k i : ℕ) (body : List ℕ) (prefix : List (List ℕ)) (s : Proto)
    → k < total
    → length prefix ≡ k
    → is_reliable type ≡ false
    → IsFragment q type total k body (slot_at s i)
    → started (s.up_queue q) ≡ prefix
    → (t : Proto) × (deliver_packet (entry i) s ≡ ok t) × Chained q k total i (snoc prefix body) s t
unfolding deliver_packet
deliver_fragment q type total k i body prefix s h len plain f e =
    let c = slot_at s i in
    let not_single : is_single c.packet.head ≡ false =
      ap (λ b. b && eqb_ℤ c.packet.head.packet_index (negsuc 0)) f.reliable
      ∙ ap (λ b. b && eqb_ℤ c.packet.head.packet_index (negsuc 0)) plain in
    let up : up_index c ≡ some q =
      ap (λ b. if b then some max_procs_ring else c.proc_index) not_single ∙ f.proc_index in
    let abs_eq : abs_index c.packet.head ≡ k + 1 =
      ap (λ z. pos_part z + neg_part z) f.index ∙ (fragment_index_abs k total h).0 in
    let turn : (length (started (s.up_queue q)) + 1 == abs_index c.packet.head) ≡ true =
      (==_iff _ _).1 (ap (λ l. length l + 1) e ∙ ap (λ n. n + 1) len ∙ sym abs_eq) in
    (
      chain (entry i) q s,
      rw (up, deliver_packet, turn),
      chain-Chained q type total k i body prefix s h f e,
    )

-- The later fragments are in other cells.
Fragments-later :
    (q type total k i m : ℕ) (bs : List (List ℕ)) (s t : Proto)
    → i < m
    → m + length bs ≤ i + max_packets
    → t.packets ≡ (set_exist (entry i) 2 s).packets
    → Fragments q type total k m bs s
    → Fragments q type total k m bs t
Fragments-later q type total k i m [] s t h room p f = tt
Fragments-later q type total k i m (b ∷ bs) s t h room p f = (
  subst (IsFragment q type total k b)
      (sym (
        ap (λ (g : ℕ → Slot). g (entry m)) p
        ∙ update_ne s.packets (entry i) (entry m) _ (entry-ne i m h (omega arith))))
      f.0,
  Fragments-later q type total (k + 1) i (m + 1) bs s t (omega arith) (omega arith) p f.1,
)

-- Only the cells matter.
pub Fragments_of_packets :
    (q type total k i : ℕ) (bs : List (List ℕ)) (s t : Proto)
    → t.packets ≡ s.packets
    → Fragments q type total k i bs s
    → Fragments q type total k i bs t
Fragments_of_packets q type total k i [] s t p f = tt
Fragments_of_packets q type total k i (b ∷ bs) s t p f = (
  subst (IsFragment q type total k b) (sym (ap (λ (g : ℕ → Slot). g (entry i)) p)) f.0,
  Fragments_of_packets q type total (k + 1) (i + 1) bs s t p f.1,
)

agreed_fragment :
    (n q type total k i : ℕ) (body : List ℕ) (s t u : Proto)
    → is_safe type ≡ false
    → IsFragment q type total k body (slot_at s i)
    → deliver_packet (entry i) s ≡ ok t
    → agreed_loop n (i + 1) (record t { last_delivered = t.last_delivered + 1 }) ≡ ok u
    → agreed_loop (suc n) i s ≡ ok u
unfolding agreed_loop
agreed_fragment n q type total k i body s t u plain f d r =
    let one : ((slot_at s i).exist == 1) ≡ true = (==_iff _ _).1 f.exist in
    let unsafe : is_safe (slot_at s i).packet.head.type ≡ false = f.safe ∙ plain in
    rw (one, unsafe, d) r

agreed_loop_nil : (i : ℕ) (s : Proto) → agreed_loop 0 i s ≡ ok s
unfolding agreed_loop
agreed_loop_nil i s = refl

-- Where the cells from number `i` on hold the fragments of a message from number `k` on, at most as
-- many as the array has cells, and the up queue of its daemon holds the part before, agreed
-- delivery of these packets does not fault: it delivers the whole message, once, leaves the up
-- queue empty, and counts each packet as delivered. The message's type is neither SAFE nor
-- RELIABLE.
pub agreed_loop-reassembles :
    (bs : List (List ℕ)) (q type total k i : ℕ) (prefix : List (List ℕ)) (s : Proto)
    → is_safe type ≡ false
    → is_reliable type ≡ false
    → length prefix ≡ k
    → k + length bs ≡ total
    → 0 < length bs
    → length bs ≤ max_packets
    → started (s.up_queue q) ≡ prefix
    → Fragments q type total k i bs s
    → (t : Proto) × (agreed_loop (length bs) i s ≡ ok t)
      × (t.effects ≡ deliver_message (prefix ++ bs) ∷ s.effects)
      × (started (t.up_queue q) ≡ [])
      × (t.last_delivered ≡ s.last_delivered + length bs)
agreed_loop-reassembles [] q type total k i prefix s plain1 plain2 len sum some_left room e f =
    absurd (omega arith)
agreed_loop-reassembles (b ∷ []) q type total k i prefix s plain1 plain2 len sum some_left room e
      f =
    let (t, d, c) = deliver_fragment q type total k i b prefix s (omega arith) len plain2 f.0 e in
    let w = c.whole (omega arith) in
    (
      record t { last_delivered = t.last_delivered + 1 },
      agreed_fragment 0 q type total k i b s t _ plain1 f.0 d (agreed_loop_nil (i + 1) _),
      w.1,
      w.0,
      ap (λ n. n + 1) c.last_delivered,
    )
agreed_loop-reassembles (b ∷ c ∷ bs) q type total k i prefix s plain1 plain2 len sum some_left room
      e f =
    let (t, d, h) = deliver_fragment q type total k i b prefix s (omega arith) len plain2 f.0 e in
    let m = h.more (omega arith) in
    let t' = record t { last_delivered = t.last_delivered + 1 } in
    let (u, r, eff, up, ld) =
      agreed_loop-reassembles (c ∷ bs) q type total (k + 1) (i + 1) (snoc prefix b) t' plain1 plain2
        (omega (arith, length-snoc prefix b, len)) (omega arith) (omega arith) (omega arith) m.0
        (Fragments-later q type total (k + 1) i (i + 1) (c ∷ bs) s t' (omega arith) (omega arith)
          h.packets f.1) in
    (
      u,
      agreed_fragment (suc (length bs)) q type total k i b s t u plain1 f.0 d r,
      eff ∙ ap₂ (λ l es. deliver_message l ∷ es) (append_assoc prefix (b ∷ []) (c ∷ bs)) m.1,
      up,
      omega (arith, ld, h.last_delivered),
    )
