-- ===== src/Proto/Token/Answers.antt =====
-- What answering the retransmission requests on the token leaves there, and in the state.
use in5020_assignment.Prelude.{
  ℕ, ◌+◌, ◌≡◌, refl, Bool, true, false, not, ◌==◌, ltb, if◌then◌else◌, Bool-cases, Option-cases,
  ◌||◌, inl, inr, List, update, update_self, update_ne, ==_iff, arith, [], ◌∷◌, ◌++◌, append_assoc,
  append-nil, snoc, ok, >>=-eq-ok, exit-ne-ok, ok-inj, sym, subst, ◌∙◌,
}
use in5020_assignment.Wire.{RingRtr, MembershipId, memb_is_equal}
use in5020_assignment.Proto.{Proto, Slot, entry, slot_at, put_slot}
use in5020_assignment.Net.{Net, stamped, written, is_full}
use in5020_assignment.Proto.Deliver.Window.{Steady, Steady-refl, Steady-trans}
use in5020_assignment.Proto.Retrans.{
  Answer, answer_seqs, answer_blocks, answer_retrans, retransmit, sent_packet, missing_too,
}

-- the blocks of other rings, in order
abbrev pub foreign : MembershipId → List RingRtr → List RingRtr
foreign m [] = []
foreign m (r ∷ rs) = let rest = foreign m rs in if memb_is_equal r.memb_id m then rest else r ∷ rest

-- A cell as it was, but for what the network writes into its packet's header at a send: the type, the
-- transmitter and the configuration's hash.
pub record Resent (c d : Slot) : Type 0 where
  pub exist : d.exist ≡ c.exist
  pub proc_index : d.proc_index ≡ c.proc_index
  pub same_body : d.packet.body ≡ c.packet.body
  pub proc_id : d.packet.head.proc_id ≡ c.packet.head.proc_id
  pub memb_id : d.packet.head.memb_id ≡ c.packet.head.memb_id
  pub seq : d.packet.head.seq ≡ c.packet.head.seq
  pub fifo_seq : d.packet.head.fifo_seq ≡ c.packet.head.fifo_seq
  pub packet_index : d.packet.head.packet_index ≡ c.packet.head.packet_index
  pub data_len : d.packet.head.data_len ≡ c.packet.head.data_len

Resent-refl : (c : Slot) → Resent c c
Resent-refl c = record {
  exist = refl;
  proc_index = refl;
  same_body = refl;
  proc_id = refl;
  memb_id = refl;
  seq = refl;
  fifo_seq = refl;
  packet_index = refl;
  data_len = refl;
}

Resent-trans : {c d e : Slot} → Resent c d → Resent d e → Resent c e
Resent-trans x y = record {
  exist = y.exist ∙ x.exist;
  proc_index = y.proc_index ∙ x.proc_index;
  same_body = y.same_body ∙ x.same_body;
  proc_id = y.proc_id ∙ x.proc_id;
  memb_id = y.memb_id ∙ x.memb_id;
  seq = y.seq ∙ x.seq;
  fifo_seq = y.fifo_seq ∙ x.fifo_seq;
  packet_index = y.packet_index ∙ x.packet_index;
  data_len = y.data_len ∙ x.data_len;
}

stamped-Resent :
    (me hash : ℕ) (c : Slot) → Resent c (record c { packet = stamped me hash c.packet })
stamped-Resent me hash c = record {
  exist = refl;
  proc_index = refl;
  same_body = refl;
  proc_id = refl;
  memb_id = refl;
  seq = refl;
  fifo_seq = refl;
  packet_index = refl;
  data_len = refl;
}

sent_packet-Resent :
    (r : RingRtr) (c : Slot) (s : Proto) → Resent c (record c { packet = sent_packet r c.packet s })
unfolding sent_packet written
sent_packet-Resent r c s = elim (Option-cases r.proc_id) [
  | inr (id, one) ↦ rw (sent_packet, one) (stamped-Resent s.my.id s.cn.hash_code c)
  | inl all ↦ elim (Option-cases r.seg_index) [
    | inr (seg, one) ↦ rw (sent_packet, all, one) (stamped-Resent s.my.id s.cn.hash_code c)
    | inl wide ↦ elim (Bool-cases (s.net.queued_bytes == 0 || is_full c.packet s.net)) [
      | inl first ↦
          rw (sent_packet, all, wide, written, first) (stamped-Resent s.my.id s.cn.hash_code c)
      | inr later ↦ rw (sent_packet, all, wide, written, later) (Resent-refl c)
    ]
  ]
]

-- every cell of the one state and of the other
abbrev pub AllResent : Proto → Proto → Type 0
AllResent s t = (i : ℕ) → Resent (s.packets i) (t.packets i)

put_back-Resent :
    (k : ℕ) (c : Slot) (s : Proto) (n : Net)
    → Resent (s.packets k) c
    → AllResent s (put_slot k c (record s { net = n }))
put_back-Resent k c s n x i = elim (Bool-cases (i == k)) [
  | inl e ↦
      let same : i ≡ k = (==_iff i k).0 e in
      subst (λ j. Resent (s.packets j) (update s.packets k c j)) (sym same)
        (subst (Resent (s.packets k)) (sym (update_self s.packets k c)) x)
  | inr e ↦
      subst (Resent (s.packets i)) (sym (update_ne s.packets k i c (ground (arith, e))))
        (Resent-refl (s.packets i))
]

-- what answering leaves alone
record Answered (s t : Proto) (a b : Answer) : Type 0 where
  steady : Steady s t
  same_packets : AllResent s t
  same_effects : t.effects ≡ s.effects
  same_kept : b.kept ≡ a.kept

Answered-refl : (s : Proto) (a : Answer) → Answered s s a a
Answered-refl s a = record {
  steady = Steady-refl s;
  same_packets = λ i. Resent-refl (s.packets i);
  same_effects = refl;
  same_kept = refl;
}

Answered-trans :
    (s t u : Proto) (a b c : Answer) → Answered s t a b → Answered t u b c → Answered s u a c
Answered-trans s t u a b c x y = record {
  steady = Steady-trans x.steady y.steady;
  same_packets = λ i. Resent-trans (x.same_packets i) (y.same_packets i);
  same_effects = y.same_effects ∙ x.same_effects;
  same_kept = y.same_kept ∙ x.same_kept;
}

count-kept :
    {xs : List RingRtr} (a : Answer) (sent : Bool)
    → a.kept ≡ xs
    → (if sent then record a { num_retrans = a.num_retrans + 1 } else a).kept ≡ xs
count-kept a true h = h
count-kept a false h = h

-- the state after a packet is sent again
abbrev resent : RingRtr → ℕ → Proto → Proto
resent r q s =
    let c = slot_at s q in
    put_slot (entry q) (record c { packet = sent_packet r c.packet s })
      (record s { net = (retransmit r c.packet s).0 })

-- where the walk goes on, whichever way the request went
next_Answered :
    (r : RingRtr) (q : ℕ) (s : Proto) (a : Answer)
    → let reply = retransmit r (slot_at s q).packet s in
      Answered s
        (resent r q s)
        a
        (if reply.1 then record a { num_retrans = a.num_retrans + 1 } else a)
next_Answered r q s a = record {
  steady = record {
    window = record {
      my_aru = refl;
      aru = refl;
      highest_seq = refl;
      last_discarded = refl;
      memb = refl;
    };
    last_token = refl;
    down_queue = refl;
  };
  same_packets =
      put_back-Resent (entry q) _ s (retransmit r (slot_at s q).packet s).0
        (sent_packet-Resent r (slot_at s q) s);
  same_effects = refl;
  same_kept = count-kept a (retransmit r (slot_at s q).packet s).1 refl;
}

answer_seqs-Answered :
    (r : RingRtr) (qs : List ℕ) (s t : Proto) (a b : Answer)
    → answer_seqs r qs s a ≡ ok (t, b)
    → Answered s t a b
unfolding answer_seqs
answer_seqs-Answered r [] s t a b h =
    subst (λ (z : Proto × Answer). Answered s z.0 a z.1) (ok-inj h) (Answered-refl s a)
answer_seqs-Answered r (q ∷ qs) s t a b h =
    let reply = retransmit r (slot_at s q).packet s in
    let s1 = resent r q s in
    let a1 = if reply.1 then record a { num_retrans = a.num_retrans + 1 } else a in
    elim (Bool-cases (ltb q s.aru)) [
      | inl low ↦ absurd (exit-ne-ok (rw low at h))
      | inr high ↦ elim (Bool-cases (not ((slot_at s q).exist == 0))) [
        | inl there ↦
            Answered-trans s s1 t a a1 b (next_Answered r q s a)
              (answer_seqs-Answered r qs s1 t a1 b (rw (high, there) at h))
        | inr gone ↦
            let next = answer_seqs-Answered r qs s t (missing_too r s a) b (rw (high, gone) at h) in
            record {
              steady = next.steady;
              same_packets = next.same_packets;
              same_effects = next.same_effects;
              same_kept = next.same_kept;
            }
      ]
    ]

answer_blocks-kept :
    (rs : List RingRtr) (s t : Proto) (a b : Answer)
    → answer_blocks rs s a ≡ ok (t, b)
    → Steady s t
      × AllResent s t
      × (t.effects ≡ s.effects)
      × (b.kept ≡ a.kept ++ foreign s.memb.membership_id rs)
unfolding answer_blocks
answer_blocks-kept [] s t a b h =
    subst
      (λ (z : Proto × Answer).
        Steady s z.0 × AllResent s z.0 × (z.0.effects ≡ s.effects) × (z.1.kept ≡ a.kept ++ []))
      (ok-inj h) (Steady-refl s, (λ i. Resent-refl (s.packets i)), refl, sym (append-nil a.kept))
answer_blocks-kept (r ∷ rs) s t a b h =
    elim (Bool-cases (memb_is_equal r.memb_id s.memb.membership_id)) [
      | inl ours ↦
          let (u, served, rest) = >>=-eq-ok _ _ (rw ours at h) in
          let q = answer_seqs-Answered r r.seqs s u.0 a u.1 served in
          let w = answer_blocks-kept rs u.0 t u.1 b rest in
          (
            Steady-trans q.steady w.0,
            λ i. Resent-trans (q.same_packets i) (w.1 i),
            w.2 ∙ q.same_effects,
            rw (w.3, q.same_kept, q.steady.window.memb, ours) refl,
          )
      | inr others ↦
          let w =
            answer_blocks-kept rs s t (record a { kept = snoc a.kept r }) b (rw others at h) in
          (
            w.0,
            w.1,
            w.2,
            rw others (w.3 ∙ append_assoc a.kept (r ∷ []) (foreign s.memb.membership_id rs)),
          )
    ]

-- The network is not part of it.
pub net-Steady : {s t : Proto} (n : Net) → Steady s t → Steady s (record t { net = n })
net-Steady n x = record {
  window = record {
    my_aru = x.window.my_aru;
    aru = x.window.aru;
    highest_seq = x.window.highest_seq;
    last_discarded = x.window.last_discarded;
    memb = x.window.memb;
  };
  last_token = x.last_token;
  down_queue = x.down_queue;
}

-- The answers to the requests on the token take from it exactly the blocks of this daemon's ring;
-- those of other rings stay on it, in their order. Answering leaves every packet in its cell, and of its
-- header changes only what the network writes at a send: the type, the transmitter and the
-- configuration's hash. It changes no counter of the window, nor the membership, the last token or the down queue, and calls no other component than the network.
pub answer_retrans-kept :
    (rtrs : List RingRtr) (s t : Proto) (b : Answer)
    → answer_retrans rtrs s ≡ ok (t, b)
    → (b.kept ≡ foreign s.memb.membership_id rtrs)
      × AllResent s t
      × Steady s t
      × (t.effects ≡ s.effects)
unfolding answer_retrans
answer_retrans-kept rtrs s t b h =
    let (u, went, rest) = >>=-eq-ok _ _ h in
    let w = answer_blocks-kept rtrs s u.0 _ u.1 went in
    subst
      (λ (z : Proto × Answer).
        (z.1.kept ≡ foreign s.memb.membership_id rtrs)
        × AllResent s z.0
        × Steady s z.0
        × (z.0.effects ≡ s.effects))
      (ok-inj rest) (count-kept u.1 _ w.3, w.1, net-Steady _ w.0, w.2)
