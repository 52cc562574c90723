-- ===== src/Formation/Members/Smallest.antt =====
-- What `Smallest_member` of daemon/membership.c finds.
use in5020_assignment.Prelude.{
  ℕ, suc, ◌+◌, ◌<◌, ◌≡◌, refl, Bool-cases, ◌⊎◌, inl, inr, some, List, [], ◌∷◌, All, arith, length,
  get_or, ok,
}
use in5020_assignment.Conf.{Proc, proc_by_id}
use in5020_assignment.Formation.Members.{comes_before, smallest_from, smallest_member}
use in5020_assignment.Formation.Members.Order.{
  Known, Known-some, InOrder, InOrder_refl, InOrder_trans, comes_before-InOrder,
}

module _ (procs : List Proc) where
  -- What the search returns: the best so far or a member of the rest, that comes after neither.
  record Found (best : ℕ × ℕ) (i : ℕ) (ids : List ℕ) (r : ℕ × ℕ) : Type 0 where
    low : InOrder procs r.0 best.0
    below : All (InOrder procs r.0) ids
    where_ : (r ≡ best) ⊎ ((j : ℕ) × (j < length ids) × (r.1 ≡ i + j) × (get_or ids j 0 ≡ r.0))

  smallest_from-Found :
      (best : ℕ × ℕ) (k i : ℕ) (p : Proc) (ids : List ℕ)
      → proc_by_id procs best.0 ≡ some (k, p)
      → All (Known procs) ids
      → (r : ℕ × ℕ) × (smallest_from procs best p i ids ≡ ok r) × Found best i ids r
  unfolding smallest_from
  smallest_from-Found best k i p [] h a =
      (best, refl, record { low = InOrder_refl procs _; below = tt; where_ = inl refl })
  smallest_from-Found best k i p (id ∷ ids) h (known, a) =
      let (l, q, e) = Known-some procs id known in
      let order = comes_before-InOrder procs id best.0 l k q p e h in
      elim (Bool-cases (comes_before q p)) [
        | inl first ↦
            let (r, run, f) = smallest_from-Found (id, i) l (i + 1) q ids e a in
            (
              r,
              rw (smallest_from, e, first) run,
              record {
                low = InOrder_trans procs _ _ _ f.low (order.0 first);
                below = (f.low, f.below);
                where_ = elim f.where_ [
                  | inl same ↦ inr (0, omega arith, rw same (omega arith), rw same refl)
                  | inr (j, lt, at_, val) ↦ inr (suc j, omega arith, omega arith, val)
                ];
              },
            )
        | inr later ↦
            let (r, run, f) = smallest_from-Found best k (i + 1) p ids h a in
            (
              r,
              rw (smallest_from, e, later) run,
              record {
                low = f.low;
                below = (InOrder_trans procs _ _ _ f.low (order.1 later), f.below);
                where_ = elim f.where_ [
                  | inl same ↦ inl same
                  | inr (j, lt, at_, val) ↦ inr (suc j, omega arith, omega arith, val)
                ];
              },
            )
      ]

  -- `Smallest_member` of a set of configured daemons returns one of them, with its index, that comes
  -- after none.
  pub smallest_member-finds :
      (id : ℕ) (ids : List ℕ)
      → All (Known procs) (id ∷ ids)
      → (r : ℕ × ℕ) × (smallest_member procs (id ∷ ids) ≡ ok r)
        × (r.1 < length (id ∷ ids))
        × (get_or (id ∷ ids) r.1 0 ≡ r.0)
        × All (InOrder procs r.0) (id ∷ ids)
  unfolding smallest_member
  smallest_member-finds id ids (known, a) =
      let (l, q, e) = Known-some procs id known in
      let (r, run, f) = smallest_from-Found (id, 0) l 1 q ids e a in
      (r, rw (smallest_member, e) run, (index r f).0, (index r f).1, (f.low, f.below))
    where
      index :
          (r : ℕ × ℕ)
          → Found (id, 0) 1 ids r
          → (r.1 < length (id ∷ ids)) × (get_or (id ∷ ids) r.1 0 ≡ r.0)
      index r f = elim f.where_ [
        | inl same ↦ rw same (omega arith, refl)
        | inr (j, lt, at_, val) ↦ let e : r.1 ≡ suc j = omega arith in rw e (omega arith, val)
      ]
