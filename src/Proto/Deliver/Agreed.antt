-- ===== src/Proto/Deliver/Agreed.antt =====
-- Agreed delivery goes through the packets in order and stops at the first that is not ready.
use in5020_assignment.Prelude.{
  ℕ, zero, suc, ◌+◌, ◌-◌, ◌≤◌, ◌<◌, ◌≡◌, ◌≢◌, ◌⊎◌, inl, inr, refl, true, false, ◌==◌, leb,
  Bool-cases, arith, ok, >>=-eq-ok, update_self, update_ne, sym, subst, ◌∙◌, ap, ==_iff, exit-ne-ok,
  ok-inj, lt_or_eq, leb→le,
}
use in5020_assignment.Wire.{is_safe}
use in5020_assignment.Proto.{Proto, Slot, entry, slot_at, max_packets, in_evs}
use in5020_assignment.Proto.Deliver.Window.{
  SameWindow, Delivered, deliver_packet-Delivered, Same-refl, Same-trans, entry-ne,
}
use in5020_assignment.Proto.Deliver.{deliver_packet, agreed_loop, deliver_agreed_packets}

-- the cell of `i` may be passed by agreed delivery
abbrev pub Ready : Slot → Type 0
Ready c = (c.exist ≡ 2) ⊎ ((c.exist ≡ 1) × (is_safe c.packet.head.type ≡ false))

-- the cell of `i` holds agreed delivery up
abbrev pub Held : Slot → Type 0
Held c = (c.exist ≡ 1) × (is_safe c.packet.head.type ≡ true)

-- one round of the loop that goes on
record Stepped (i : ℕ) (s t : Proto) : Type 0 where
  window : SameWindow s t
  last_delivered : t.last_delivered ≡ s.last_delivered + 1
  ready : Ready (slot_at s i)
  marked : (slot_at t i).exist ≡ 2
  others : (k : ℕ) → k ≢ entry i → t.packets k ≡ s.packets k

Stepped-of_Delivered :
    (i : ℕ) (s t : Proto)
    → Ready (slot_at s i)
    → Delivered (entry i) s t
    → Stepped i s (record t { last_delivered = t.last_delivered + 1 })
Stepped-of_Delivered i s t r d = record {
  window = record {
    my_aru = d.window.my_aru;
    aru = d.window.aru;
    highest_seq = d.window.highest_seq;
    last_discarded = d.window.last_discarded;
    memb = d.window.memb;
  };
  last_delivered = ap (λ n. n + 1) d.last_delivered;
  ready = r;
  marked =
      ap (λ (f : ℕ → Slot). (f (entry i)).exist) d.packets
      ∙ ap (λ (c : Slot). c.exist) (update_self s.packets (entry i) _);
  others = λ k ne. ap (λ (f : ℕ → Slot). f k) d.packets ∙ update_ne s.packets (entry i) k _ ne;
}

agreed_step :
    (n i : ℕ) (s t : Proto)
    → agreed_loop (suc n) i s ≡ ok t
    → ((t ≡ s) × Held (slot_at s i))
      ⊎ ((u : Proto) × Stepped i s u × (agreed_loop n (i + 1) u ≡ ok t))
unfolding agreed_loop
agreed_step n i s t e = elim (Bool-cases ((slot_at s i).exist == 1)) [
  | inl one ↦ elim (Bool-cases (is_safe (slot_at s i).packet.head.type)) [
    | inl safe ↦ inl (ok-inj (sym (rw (one, safe) at e)), ((==_iff _ _).0 one, safe))
    | inr unsafe ↦
        let (u, d, r) = >>=-eq-ok (deliver_packet (entry i) s) _ (rw (one, unsafe) at e) in
        inr (
          record u { last_delivered = u.last_delivered + 1 },
          Stepped-of_Delivered i s u (inr ((==_iff _ _).0 one, unsafe))
              (deliver_packet-Delivered (entry i) s u d),
          r,
        )
  ]
  | inr not_one ↦ elim (Bool-cases ((slot_at s i).exist == 2)) [
    | inl two ↦ inr (
      record s { last_delivered = s.last_delivered + 1 },
      record {
        window = record {
          my_aru = refl;
          aru = refl;
          highest_seq = refl;
          last_discarded = refl;
          memb = refl;
        };
        last_delivered = refl;
        ready = inl ((==_iff _ _).0 two);
        marked = (==_iff _ _).0 two;
        others = λ k ne. refl;
      },
      rw (not_one, two) at e,
    )
    | inr none_of ↦ absurd (exit-ne-ok (rw (not_one, none_of) at e))
  ]
]

-- what `n` rounds from `s` have done
pub record InSequence (n : ℕ) (s t : Proto) : Type 0 where
  pub window : SameWindow s t
  pub forward : s.last_delivered ≤ t.last_delivered
  pub within : t.last_delivered ≤ s.last_delivered + n
  pub ready : (j : ℕ) → s.last_delivered < j → j ≤ t.last_delivered → Ready (slot_at s j)
  pub marked : (j : ℕ) → s.last_delivered < j → j ≤ t.last_delivered → (slot_at t j).exist ≡ 2
  pub others :
      (k : ℕ)
      → ((j : ℕ) → s.last_delivered < j → j ≤ t.last_delivered → k ≢ entry j)
      → t.packets k ≡ s.packets k
  pub stopped : (t.last_delivered ≡ s.last_delivered + n) ⊎ Held (slot_at s (t.last_delivered + 1))

InSequence-refl :
    (n : ℕ) (s : Proto) → (0 ≡ n) ⊎ Held (slot_at s (s.last_delivered + 1)) → InSequence n s s
InSequence-refl n s stop = record {
  window = Same-refl s;
  forward = omega arith;
  within = omega arith;
  ready = λ j a b. absurd (omega arith);
  marked = λ j a b. absurd (omega arith);
  others = λ k out. refl;
  stopped = elim stop [ inl e ↦ inl (omega arith) | inr h ↦ inr h ];
}

module _ (n i : ℕ) {s u t : Proto} (small : suc n ≤ max_packets) (here : i ≡ s.last_delivered + 1)
    (st : Stepped i s u) (rest : InSequence n u t) where
  -- Cells of later numbers are other cells.
  later-slot :
      (j : ℕ) → s.last_delivered + 1 < j → j ≤ s.last_delivered + suc n → slot_at u j ≡ slot_at s j
  later-slot j a b = st.others (entry j) (entry-ne i j (omega arith) (omega arith))

  InSequence-cons-Ready :
      (j : ℕ) → s.last_delivered < j → j ≤ t.last_delivered → Ready (slot_at s j)
  InSequence-cons-Ready j a b = elim (lt_or_eq (s.last_delivered + 1) j (omega arith)) [
    | inl less ↦
        subst Ready (later-slot j less (omega (arith, rest.within, st.last_delivered)))
          (rest.ready j (omega (arith, st.last_delivered)) b)
    | inr same ↦ subst (λ k. Ready (slot_at s k)) (here ∙ same) st.ready
  ]

  InSequence-cons-stopped :
      (t.last_delivered ≡ s.last_delivered + suc n) ⊎ Held (slot_at s (t.last_delivered + 1))
  InSequence-cons-stopped = elim rest.stopped [
    | inl e ↦ inl (omega (arith, e, st.last_delivered))
    | inr h ↦
        elim (lt_or_eq t.last_delivered (s.last_delivered + suc n)
          (omega (arith, rest.within, st.last_delivered))) [
            | inl less ↦ inr (
                subst Held
                  (later-slot (t.last_delivered + 1)
                    (omega (arith, rest.forward, st.last_delivered)) (omega arith))
                  h)
            | inr same ↦ inl same
          ]
  ]

  InSequence-cons-others :
      (k : ℕ)
      → ((j : ℕ) → s.last_delivered < j → j ≤ t.last_delivered → k ≢ entry j)
      → t.packets k ≡ s.packets k
  InSequence-cons-others k out =
      rest.others k (λ j a b. out j (omega (arith, st.last_delivered)) b)
      ∙ st.others k (out i (omega arith) (omega (arith, rest.forward, st.last_delivered)))

  -- A cell that was marked stays so while the later ones are.
  InSequence-cons-marked :
      (j : ℕ) → s.last_delivered < j → j ≤ t.last_delivered → (slot_at t j).exist ≡ 2
  InSequence-cons-marked j a b = elim (lt_or_eq (s.last_delivered + 1) j (omega arith)) [
    | inl less ↦ rest.marked j (omega (arith, st.last_delivered)) b
    | inr same ↦
        subst (λ k. (slot_at t k).exist ≡ 2) (here ∙ same)
          (ap (λ (c : Slot). c.exist)
              (rest.others (entry i) (λ m x y e.
                entry-ne i m (omega (arith, st.last_delivered))
                  (omega (arith, rest.within, st.last_delivered)) (sym e)))
            ∙ st.marked)
  ]

  InSequence-cons : InSequence (suc n) s t
  InSequence-cons = record {
    window = Same-trans st.window rest.window;
    forward = omega (arith, rest.forward, st.last_delivered);
    within = omega (arith, rest.within, st.last_delivered);
    ready = InSequence-cons-Ready;
    marked = InSequence-cons-marked;
    others = InSequence-cons-others;
    stopped = InSequence-cons-stopped;
  }

agreed_loop_zero : (i : ℕ) (s t : Proto) → agreed_loop 0 i s ≡ ok t → ok s ≡ ok t
unfolding agreed_loop
agreed_loop_zero i s t h = h

agreed_loop-InSequence :
    (n i : ℕ) (s t : Proto)
    → n ≤ max_packets
    → i ≡ s.last_delivered + 1
    → agreed_loop n i s ≡ ok t
    → InSequence n s t
agreed_loop-InSequence zero i s t small e h =
    subst (InSequence 0 s) (ok-inj (agreed_loop_zero i s t h)) (InSequence-refl 0 s (inl refl))
agreed_loop-InSequence (suc n) i s t small e h = elim (agreed_step n i s t h) [
  | inl (p, held) ↦
      subst (InSequence (suc n) s) (sym p)
        (InSequence-refl (suc n) s (inr (subst (λ k. Held (slot_at s k)) e held)))
  | inr (u, st, r) ↦
      InSequence-cons n i small e st
        (agreed_loop-InSequence n (i + 1) u t (omega arith) (omega (arith, e, st.last_delivered)) r)
]

-- Where it goes through outside EVS, `Deliver_agreed_packets` has passed, in order, only packets
-- that were there and not SAFE or were delivered already, has marked each of them and touched no
-- other cell nor a counter of the window, and stands at `My_aru` or in front of a SAFE packet. The
-- conditions are that `Last_delivered` is not past `My_aru` and that the packets up to `My_aru` fit
-- the array.
pub deliver_agreed-InSequence :
    (s t : Proto)
    → in_evs s ≡ false
    → s.last_delivered ≤ s.my_aru
    → s.my_aru ≤ s.last_delivered + max_packets
    → deliver_agreed_packets s ≡ ok t
    → InSequence (s.my_aru - s.last_delivered) s t
unfolding deliver_agreed_packets
deliver_agreed-InSequence s t calm order room h =
    elim (Bool-cases (leb s.my_aru s.last_delivered)) [
      | inl none_left ↦
          subst (InSequence _ s) (ok-inj (rw none_left at h))
            (InSequence-refl _ s (inl (omega (arith, leb→le s.my_aru s.last_delivered none_left))))
      | inr some_left ↦
          agreed_loop-InSequence (s.my_aru - s.last_delivered) (s.last_delivered + 1) s t
            (omega arith) refl (rw (some_left, calm) at h)
    ]
