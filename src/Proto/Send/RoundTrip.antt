-- ===== src/Proto/Send/RoundTrip.antt =====
-- A daemon's own message, from the down queue to its delivery.
use in5020_assignment.Prelude.{
  ℕ, zero, suc, ◌+◌, ◌-◌, ◌≤◌, ◌<◌, ◌≡◌, ◌≢◌, refl, Bool, true, false, ltb, List, [], ◌∷◌, ◌++◌,
  append_assoc, length, length-append, length-snoc, snoc, arith, some, get_elem?, ok, update_self,
  update_ne, sym, subst, ◌∙◌, ap, ap₂, lt→ltb, ltb→lt, if_same, Bool-cases, inl, inr, subst₂,
}
use in5020_assignment.Wire.{is_safe, is_reliable}
use in5020_assignment.Net.{flush_bcast}
use in5020_assignment.Proto.{
  Proto, Slot, DownLink, DownQueue, deliver_message, entry, slot_at, max_packets,
}
use in5020_assignment.Proto.Deliver.{started, agreed_loop}
use in5020_assignment.Proto.Deliver.Window.{entry-ne}
use in5020_assignment.Proto.Send.{
  fragment_index, count_sent, send_loop, send_new_packets, waiting, total_elements,
}
use in5020_assignment.Proto.Send.Round.{Free, Sent, fragment_of, popped, send_fragment_total}
use in5020_assignment.Proto.Send.Total.{send_loop_open}
use in5020_assignment.Proto.Send.Fragments.{
  IsFragment, Fragments, Fragments_of_packets, agreed_loop-reassembles,
}

get_elem?-append :
    (pre : List (List ℕ)) (b : List ℕ) (bs : List (List ℕ))
    → get_elem? (pre ++ (b ∷ bs)) (length pre) ≡ some b
get_elem?-append [] b bs = refl
get_elem?-append (p ∷ pre) b bs = get_elem?-append pre b bs

-- what the loop has done with the last `n` elements of a message, numbered from `k` on
record Emitted (q : ℕ) (d : DownLink) (k n : ℕ) (bs : List (List ℕ)) (s t : Proto) : Type 0 where
  fragments : Fragments q d.type (length d.mess) k (s.highest_seq + 1) bs t
  others :
      (j : ℕ)
      → ((i : ℕ) → s.highest_seq < i → i ≤ s.highest_seq + n → j ≢ entry i)
      → t.packets j ≡ s.packets j
  links : t.down_queue.links ≡ []
  highest_seq : t.highest_seq ≡ s.highest_seq + n
  up_queue : t.up_queue ≡ s.up_queue
  last_delivered : t.last_delivered ≡ s.last_delivered

-- the cell of the fragment just sent
Sent-IsFragment :
    (q k : ℕ) (d : DownLink) (b : List ℕ) (s t : Proto)
    → s.my_index ≡ some q
    → s.down_queue.cur_element ≡ k
    → Sent s t (fragment_of s d b)
    → IsFragment q d.type (length d.mess) k b (slot_at t (s.highest_seq + 1))
unfolding fragment_of
Sent-IsFragment q k d b s t mine cur st =
    let at : slot_at t (s.highest_seq + 1) ≡ _ =
      ap (λ (f : ℕ → Slot). f (entry (s.highest_seq + 1))) st.packets
      ∙ update_self s.packets (entry (s.highest_seq + 1))
          (record { packet = st.packet; exist = 1; proc_index = s.my_index }) in
    record {
      exist = ap (λ (c : Slot). c.exist) at;
      proc_index = ap (λ (c : Slot). c.proc_index) at ∙ mine;
      reliable = ap (λ (c : Slot). is_reliable c.packet.head.type) at ∙ st.as_written.reliable;
      safe = ap (λ (c : Slot). is_safe c.packet.head.type) at ∙ st.as_written.safe;
      index =
          ap (λ (c : Slot). c.packet.head.packet_index) at
          ∙ st.as_written.index
          ∙ ap (λ n. fragment_index n (length d.mess)) cur;
      same_body = ap (λ (c : Slot). c.packet.body) at ∙ st.as_written.same_body;
    }

send_loop_done :
    (f allowed n : ℕ) (s : Proto)
    → s.down_queue.links ≡ []
    → send_loop (suc f) allowed n s ≡ ok (s, n)
send_loop_done f allowed n s e =
    send_loop_open f allowed n s [] e ∙ if_same (ltb n allowed) (ok (s, n))

popped_more :
    (d : DownLink) (cur : ℕ)
    → cur + 1 < length d.mess
    → popped d [] cur ≡ record { links = d ∷ []; cur_element = cur + 1 }
unfolding popped
popped_more d cur h = rw (lt→ltb _ _ h)

popped_last : (d : DownLink) (cur : ℕ) → cur + 1 ≡ length d.mess → (popped d [] cur).links ≡ []
unfolding popped
popped_last d cur h = elim (Bool-cases (ltb (cur + 1) (length d.mess))) [
  | inl x ↦ absurd (omega (arith, ltb→lt _ _ x))
  | inr x ↦ rw x
]

module _ (q k : ℕ) (d : DownLink) (b : List ℕ) {s u : Proto} (mine : s.my_index ≡ some q)
    (cur : s.down_queue.cur_element ≡ k) (st : Sent s u (fragment_of s d b)) where
  Emitted-one : u.down_queue.links ≡ [] → Emitted q d k 1 (b ∷ []) s u
  Emitted-one none_left = record {
    fragments = (Sent-IsFragment q k d b s u mine cur st, tt);
    others = λ j out.
        ap (λ (f : ℕ → Slot). f j) st.packets
        ∙ update_ne s.packets (entry (s.highest_seq + 1)) j _
            (out (s.highest_seq + 1) (omega arith) (omega arith));
    links = none_left;
    highest_seq = st.highest_seq;
    up_queue = st.up_queue;
    last_delivered = st.last_delivered;
  }

  Emitted-cons :
      (n : ℕ) (bs : List (List ℕ)) (t : Proto)
      → n < max_packets
      → Emitted q d (k + 1) n bs u t
      → Emitted q d k (suc n) (b ∷ bs) s t
  Emitted-cons n bs t small r = record {
    fragments = (
      subst (IsFragment q d.type (length d.mess) k b)
          (sym (
            r.others (entry (s.highest_seq + 1)) (λ i x y e.
              entry-ne (s.highest_seq + 1) i (omega (arith, st.highest_seq))
                (omega (arith, st.highest_seq)) (sym e))))
          (Sent-IsFragment q k d b s u mine cur st),
      subst (λ h. Fragments q d.type (length d.mess) (k + 1) (h + 1) bs t) st.highest_seq
          r.fragments,
    );
    others = λ j out.
        r.others j (λ i x y. out i (omega (arith, st.highest_seq)) (omega (arith, st.highest_seq)))
        ∙ ap (λ (f : ℕ → Slot). f j) st.packets
        ∙ update_ne s.packets (entry (s.highest_seq + 1)) j _
            (out (s.highest_seq + 1) (omega arith) (omega arith));
    links = r.links;
    highest_seq = omega (arith, r.highest_seq, st.highest_seq);
    up_queue = r.up_queue ∙ st.up_queue;
    last_delivered = r.last_delivered ∙ st.last_delivered;
  }

  sent-Free : (n : ℕ) → suc n ≤ max_packets → Free (suc n) s → Free n u
  sent-Free n small free j x y =
      ap (λ (f : ℕ → Slot). (f (entry j)).exist) st.packets
      ∙ ap (λ (c : Slot). c.exist)
          (update_ne s.packets (entry (s.highest_seq + 1)) (entry j) _ (
            entry-ne (s.highest_seq + 1) j (omega (arith, st.highest_seq))
              (omega (arith, st.highest_seq))))
      ∙ free j (omega (arith, st.highest_seq)) (omega (arith, st.highest_seq))

count_sent_le : (sent : Bool) (n : ℕ) → count_sent sent n ≤ n + 1
count_sent_le true n = omega arith
count_sent_le false n = omega arith

send_loop-Emitted :
    (bs : List (List ℕ)) (f allowed n q : ℕ) (d : DownLink) (pre : List (List ℕ)) (s : Proto)
    → s.down_queue.links ≡ d ∷ []
    → d.mess ≡ pre ++ bs
    → s.down_queue.cur_element ≡ length pre
    → 0 < length bs
    → length bs < f
    → n + length bs ≤ allowed
    → s.my_index ≡ some q
    → length bs ≤ max_packets
    → Free (length bs) s
    → (t : Proto) × (m : ℕ) × (send_loop f allowed n s ≡ ok (t, m))
      × Emitted q d (length pre) (length bs) bs s t
send_loop-Emitted [] f allowed n q d pre s e split cur some_left fuel may mine small free =
    absurd (omega arith)
send_loop-Emitted (b ∷ bs) zero allowed n q d pre s e split cur some_left fuel may mine small free =
    absurd (omega arith)
send_loop-Emitted (b ∷ []) (suc zero) allowed n q d pre s e split cur some_left fuel may mine small
      free =
    absurd (omega arith)
send_loop-Emitted (b ∷ []) (suc (suc f)) allowed n q d pre s e split cur some_left fuel may mine
      small free =
    let at : get_elem? d.mess s.down_queue.cur_element ≡ some b =
      ap₂ get_elem? split cur ∙ get_elem?-append pre b [] in
    let (u, sent, sends, st, w) =
      send_fragment_total d [] s b at (free (s.highest_seq + 1) (omega arith) (omega arith)) in
    let full : s.down_queue.cur_element + 1 ≡ length d.mess =
      omega (arith, cur, ap length split, length-append pre (b ∷ [])) in
    let none_left : u.down_queue.links ≡ [] =
      ap (λ (r : DownQueue). r.links) w ∙ popped_last d s.down_queue.cur_element full in
    (
      u,
      count_sent sent n,
      send_loop_open (suc f) allowed n s (d ∷ []) e
          ∙ rw (lt→ltb n allowed (omega arith), sends)
              (send_loop_done f allowed (count_sent sent n) u none_left),
      Emitted-one q (length pre) d b mine cur st none_left,
    )
send_loop-Emitted (b ∷ c ∷ bs) (suc f) allowed n q d pre s e split cur some_left fuel may mine small
      free =
    let at : get_elem? d.mess s.down_queue.cur_element ≡ some b =
      ap₂ get_elem? split cur ∙ get_elem?-append pre b (c ∷ bs) in
    let (u, sent, sends, st, w) =
      send_fragment_total d [] s b at (free (s.highest_seq + 1) (omega arith) (omega arith)) in
    let go_on : s.down_queue.cur_element + 1 < length d.mess =
      omega (arith, cur, ap length split, length-append pre (b ∷ c ∷ bs)) in
    let now = w ∙ popped_more d s.down_queue.cur_element go_on in
    let (t, m, runs, r) =
      send_loop-Emitted (c ∷ bs) f allowed (count_sent sent n) q d (snoc pre b) u
        (ap (λ (r : DownQueue). r.links) now) (split ∙ sym (append_assoc pre (b ∷ []) (c ∷ bs)))
        (ap (λ (r : DownQueue). r.cur_element) now ∙ omega (arith, cur, length-snoc pre b))
        (omega arith) (omega arith) (omega (arith, count_sent_le sent n)) (st.my_index ∙ mine)
        (omega arith)
        (sent-Free q (length pre) d b mine cur st (suc (length bs)) (omega arith) free) in
    (
      t,
      m,
      send_loop_open f allowed n s (d ∷ []) e ∙ rw (lt→ltb n allowed (omega arith), sends) runs,
      Emitted-cons q (length pre) d b mine cur st (suc (length bs)) (c ∷ bs) t (omega arith)
          (subst (λ k. Emitted q d k (suc (length bs)) (c ∷ bs) u t) (length-snoc pre b) r),
    )

-- A message of this daemon that is alone in the down queue, neither SAFE nor RELIABLE, comes back
-- whole: `Send_new_packets` cuts it into packets with the next sequence numbers and empties the down
-- queue, and agreed delivery of these packets delivers exactly the message's elements, in order, as
-- one message. The conditions are that the cells of the numbers are free and distinct, that as many
-- sends are allowed, and that no message of this daemon is half delivered.
pub send_deliver_round_trip :
    (d : DownLink) (num_allowed q : ℕ) (s : Proto)
    → s.down_queue.links ≡ d ∷ []
    → s.down_queue.cur_element ≡ 0
    → s.my_index ≡ some q
    → 0 < length d.mess
    → length d.mess ≤ max_packets
    → length d.mess ≤ num_allowed
    → Free (length d.mess) s
    → started (s.up_queue q) ≡ []
    → is_safe d.type ≡ false
    → is_reliable d.type ≡ false
    → (t u : Proto) × (n : ℕ) × (send_new_packets num_allowed s ≡ ok (t, n))
      × (t.down_queue.links ≡ [])
      × (t.highest_seq ≡ s.highest_seq + length d.mess)
      × (agreed_loop (length d.mess) (s.highest_seq + 1) t ≡ ok u)
      × (u.effects ≡ deliver_message d.mess ∷ t.effects)
unfolding send_new_packets
send_deliver_round_trip d num_allowed q s e cur mine some_left small may free idle plain1 plain2 =
    let enough : length d.mess < waiting s.down_queue + 1 =
      subst₂ (λ l c. length d.mess < total_elements l - c + 1) (sym e) (sym cur) (omega arith) in
    let (t, n, runs, r) =
      send_loop-Emitted d.mess (waiting s.down_queue + 1) num_allowed 0 q d [] s e refl cur
        some_left enough (omega arith) mine small free in
    let t' = record t { net = (flush_bcast t.net).0 } in
    let (u, loop, eff, up, ld) =
      agreed_loop-reassembles d.mess q d.type (length d.mess) 0 (s.highest_seq + 1) [] t' plain1
        plain2 refl (omega arith) some_left small (ap (λ f. started (f q)) r.up_queue ∙ idle)
        (Fragments_of_packets q d.type (length d.mess) 0 (s.highest_seq + 1) d.mess t t' refl
          r.fragments) in
    (t', u, count_sent (flush_bcast t.net).1 n, rw runs, r.links, r.highest_seq, loop, eff)
