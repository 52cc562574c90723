-- ===== src/Proto/Receive/Window.antt =====
-- The window of packets: what holds of it while packets come in, in whatever order they do.
use in5020_assignment.Prelude.{
  ℕ, zero, suc, ◌+◌, ◌-◌, ◌≤◌, ◌<◌, ◌≡◌, ◌≢◌, ◌⊎◌, inl, inr, refl, ◌==◌, leb, ltb, Bool-cases,
  arith, update_self, update_ne, sym, subst, ◌∙◌, ap, ==_iff, some, lt_or_eq,
}
use in5020_assignment.Net.{Packet}
use in5020_assignment.Proto.{Proto, Slot, entry, slot_at, max_packets}
use in5020_assignment.Proto.Deliver.Window.{entry-ne}
use in5020_assignment.Proto.Deliver.Cells.{SameCells}
use in5020_assignment.Proto.Receive.{advance, insert}

-- `My_aru` is exact: every packet past `Last_discarded` up to it is there, and the next one is missing unless
-- there is none; and the cells past `Highest_seq`, up to one turn of the array past `Last_discarded`,
-- are free.
pub record InOrder (s : Proto) : Type 0 where
  pub discarded : s.last_discarded ≤ s.aru
  pub stable : s.aru ≤ s.my_aru
  pub highest : s.my_aru ≤ s.highest_seq
  pub there : (q : ℕ) → s.last_discarded < q → q ≤ s.my_aru → (slot_at s q).exist ≢ 0
  pub exact : (s.my_aru ≡ s.highest_seq) ⊎ ((slot_at s (s.my_aru + 1)).exist ≡ 0)
  pub free :
      (q : ℕ) → s.highest_seq < q → q ≤ s.last_discarded + max_packets → (slot_at s q).exist ≡ 0

-- Delivery keeps it.
pub InOrder-of_SameCells : {s t : Proto} → SameCells s t → InOrder s → InOrder t
InOrder-of_SameCells {s} {t} c w =
    let same = c.window in
    record {
      discarded = omega (arith, same.aru, same.last_discarded, w.discarded);
      stable = omega (arith, same.aru, same.my_aru, w.stable);
      highest = omega (arith, same.my_aru, same.highest_seq, w.highest);
      there = λ q a b.
          c.full (entry q)
            (w.there q (omega (arith, same.last_discarded)) (omega (arith, same.my_aru)));
      exact = elim w.exact [
        | inl e ↦ inl (omega (arith, e, same.my_aru, same.highest_seq))
        | inr e ↦ inr (
            subst (λ m. (slot_at t (m + 1)).exist ≡ 0) (sym same.my_aru)
              (c.empty (entry (s.my_aru + 1)) e))
      ];
      free = λ q a b.
          c.empty (entry q)
            (w.free q (omega (arith, same.highest_seq)) (omega (arith, same.last_discarded)));
    }

-- What `advance` does: only `My_aru` moves, over packets that are there, and stops at the end or in
-- front of one that is missing.
pub record Advanced (n : ℕ) (s t : Proto) : Type 0 where
  pub only : t ≡ record s { my_aru = t.my_aru }
  pub forward : s.my_aru ≤ t.my_aru
  pub within : t.my_aru ≤ s.my_aru + n
  pub passed : (q : ℕ) → s.my_aru < q → q ≤ t.my_aru → (slot_at s q).exist ≢ 0
  pub stopped : (t.my_aru ≡ s.my_aru + n) ⊎ ((slot_at s (t.my_aru + 1)).exist ≡ 0)

pub advance-Advanced : (n i : ℕ) (s : Proto) → i ≡ s.my_aru + 1 → Advanced n s (advance n i s)
unfolding advance
advance-Advanced zero i s e = record {
  only = refl;
  forward = omega arith;
  within = omega arith;
  passed = λ q a b. absurd (omega arith);
  stopped = inl (omega arith);
}
advance-Advanced (suc n) i s e = elim (Bool-cases ((slot_at s i).exist == 0)) [
  | inl gone ↦ rw gone (record {
    only = refl;
    forward = omega arith;
    within = omega arith;
    passed = λ q a b. absurd (omega arith);
    stopped = inr (subst (λ k. (slot_at s k).exist ≡ 0) e ((==_iff _ _).0 gone));
  })
  | inr here ↦
      let r = advance-Advanced n (i + 1) (record s { my_aru = s.my_aru + 1 }) (omega (arith, e)) in
      rw here (record {
        only = r.only;
        forward = omega (arith, r.forward);
        within = omega (arith, r.within);
        passed = λ q a b. elim (lt_or_eq (s.my_aru + 1) q (omega arith)) [
          | inl less ↦ r.passed q less b
          | inr same ↦ subst (λ k. (slot_at s k).exist ≢ 0) (e ∙ same) (λ z. ground arith)
        ];
        stopped = elim r.stopped [ inl x ↦ inl (omega (arith, x)) | inr x ↦ inr x ];
      })
]

-- a packet of number `n` put in its cell
pub record Inserted (n : ℕ) (s t : Proto) : Type 0 where
  pub my_aru : t.my_aru ≡ s.my_aru
  pub aru : t.aru ≡ s.aru
  pub last_discarded : t.last_discarded ≡ s.last_discarded
  pub raised : s.highest_seq ≤ t.highest_seq
  pub reaches : n ≤ t.highest_seq
  pub least : (t.highest_seq ≡ s.highest_seq) ⊎ (t.highest_seq ≡ n)
  pub cell : (slot_at t n).exist ≡ 1
  pub others : (k : ℕ) → k ≢ entry n → t.packets k ≡ s.packets k

pub insert-Inserted :
    (p : Packet) (index : ℕ) (s : Proto) → Inserted p.head.seq s (insert p index s)
unfolding insert
insert-Inserted p index s =
    let c : Slot = record { packet = p; exist = 1; proc_index = some index } in
    elim (Bool-cases (ltb s.highest_seq p.head.seq)) [
      | inl up ↦ rw up (record {
        my_aru = refl;
        aru = refl;
        last_discarded = refl;
        raised = ground arith;
        reaches = omega arith;
        least = inr refl;
        cell = ap (λ (c : Slot). c.exist) (update_self s.packets (entry p.head.seq) c);
        others = λ k ne. update_ne s.packets (entry p.head.seq) k c ne;
      })
      | inr low ↦ rw low (record {
        my_aru = refl;
        aru = refl;
        last_discarded = refl;
        raised = omega arith;
        reaches = ground arith;
        least = inl refl;
        cell = ap (λ (c : Slot). c.exist) (update_self s.packets (entry p.head.seq) c);
        others = λ k ne. update_ne s.packets (entry p.head.seq) k c ne;
      })
    ]

module _ (n : ℕ) (s u : Proto) (w : InOrder s) (v : Inserted n s u) where
  still_there : (q : ℕ) → (slot_at s q).exist ≢ 0 → (slot_at u q).exist ≢ 0
  still_there q h = elim (Bool-cases (entry q == entry n)) [
    | inl same ↦ λ z.
        omega (arith, z, subst (λ k. (u.packets k).exist ≡ 1) (sym ((==_iff _ _).0 same)) v.cell)
    | inr other ↦ λ z. h (sym (ap (λ (c : Slot). c.exist) (v.others (entry q) (ground arith))) ∙ z)
  ]

  still_free : (q : ℕ) → entry q ≢ entry n → (slot_at s q).exist ≡ 0 → (slot_at u q).exist ≡ 0
  still_free q ne h = ap (λ (c : Slot). c.exist) (v.others (entry q) ne) ∙ h

  free_after :
      s.last_discarded < n
      → (q : ℕ) → u.highest_seq < q
      → q ≤ u.last_discarded + max_packets
      → (slot_at u q).exist ≡ 0
  free_after low q a b =
      still_free q (entry-ne n q (omega (arith, v.reaches)) (omega (arith, v.last_discarded)))
        (w.free q (omega (arith, v.raised)) (omega (arith, v.last_discarded)))

  -- A packet further on leaves `My_aru` where it is.
  pub InOrder-gap : s.my_aru + 1 < n → n ≤ s.last_discarded + max_packets → InOrder u
  InOrder-gap far near = record {
    discarded = omega (arith, v.aru, v.last_discarded, w.discarded);
    stable = omega (arith, v.aru, v.my_aru, w.stable);
    highest = omega (arith, v.my_aru, v.raised, w.highest);
    there = λ q a b.
        still_there q (w.there q (omega (arith, v.last_discarded)) (omega (arith, v.my_aru)));
    exact = inr (
        subst (λ m. (slot_at u (m + 1)).exist ≡ 0) (sym v.my_aru)
          (still_free (s.my_aru + 1)
            (λ e. entry-ne (s.my_aru + 1) n far (omega (arith, w.discarded, w.stable)) (sym e))
            (elim w.exact [
              | inl end ↦ w.free (s.my_aru + 1) (omega (arith, end)) (omega arith)
              | inr gone ↦ gone
            ])));
    free = free_after (omega (arith, w.discarded, w.stable));
  }

  -- The packet that was missing moves `My_aru` on.
  pub InOrder-fill :
      (t : Proto) → n ≡ s.my_aru + 1 → Advanced (u.highest_seq + 1 - n) u t → InOrder t
  InOrder-fill t next d = subst InOrder (sym d.only) (record {
    discarded = omega (arith, v.aru, v.last_discarded, w.discarded);
    stable = omega (arith, v.aru, v.my_aru, w.stable, d.forward);
    highest = omega (arith, v.my_aru, d.within, v.reaches, next);
    there = λ q a b. elim (Bool-cases (leb q u.my_aru)) [
      | inl old ↦
          still_there q (w.there q (omega (arith, v.last_discarded)) (ground (arith, v.my_aru)))
      | inr new ↦ d.passed q (ground arith) b
    ];
    exact = elim d.stopped [
      | inl e ↦ inl (omega (arith, e, v.my_aru, v.reaches, next))
      | inr e ↦ inr e
    ];
    free = free_after (omega (arith, w.discarded, w.stable, next));
  })
