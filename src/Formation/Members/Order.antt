-- ===== src/Formation/Members/Order.antt =====
-- The order in which the membership algorithm takes the daemons: by segment, then by place in the
-- segment.
use native.Mathlib.Bridge.{le_prop}
use mathlib.Core.HLevel.{×_prop, →_prop}
use in5020_assignment.Prelude.{
  ℕ, ◌≤◌, ◌≡◌, ◌≢◌, refl, true, false, Option-cases, inl, inr, some, none, List, arith,
}
use in5020_assignment.Conf.{Proc, proc_by_id}
use in5020_assignment.Formation.Members.{comes_before}

module _ (procs : List Proc) where
  -- the daemon of an identifier is configured
  abbrev pub Known : ℕ → Type 0
  Known id = proc_by_id procs id ≢ none

  pub Known-some : (id : ℕ) → Known id → (k : ℕ) × (p : Proc) × (proc_by_id procs id ≡ some (k, p))
  Known-some id h = elim (Option-cases (proc_by_id procs id)) [
    | inl gone ↦ absurd (h gone)
    | inr ((k, p), e) ↦ (k, p, e)
  ]

  -- segment and place of a daemon
  unfoldable pub place_of : ℕ → ℕ × ℕ
  place_of id = elim (proc_by_id procs id) [
    | some (k, p) ↦ (p.seg_index, p.index_in_seg)
    | none ↦ (0, 0)
  ]

  -- `a` does not come after `b`
  unfoldable pub InOrder : ℕ → ℕ → Type 0
  InOrder a b =
      ((place_of a).0 ≤ (place_of b).0)
      × ((place_of a).0 ≡ (place_of b).0 → (place_of a).1 ≤ (place_of b).1)

  pub InOrder-prop : (a b : ℕ) → IsProp (InOrder a b)
  unfolding InOrder
  InOrder-prop a b = ×_prop le_prop (→_prop le_prop)

  pub InOrder_refl : (a : ℕ) → InOrder a a
  unfolding InOrder
  InOrder_refl a = (omega arith, λ e. omega arith)

  pub InOrder_trans : (a b c : ℕ) → InOrder a b → InOrder b c → InOrder a c
  unfolding InOrder
  InOrder_trans a b c h k = ground arith

  pub InOrder_antisymm :
      (a b : ℕ)
      → InOrder a b
      → InOrder b a
      → ((place_of a).0 ≡ (place_of b).0) × ((place_of a).1 ≡ (place_of b).1)
  unfolding InOrder
  InOrder_antisymm a b h k = ground arith

  place_of-Known :
      (a k : ℕ) (p : Proc)
      → proc_by_id procs a ≡ some (k, p)
      → place_of a ≡ (p.seg_index, p.index_in_seg)
  unfolding place_of
  place_of-Known a k p h = rw (place_of, h) refl

  pub comes_before-InOrder :
      (a b k l : ℕ) (p q : Proc)
      → proc_by_id procs a ≡ some (k, p)
      → proc_by_id procs b ≡ some (l, q)
      → (comes_before p q ≡ true → InOrder a b) × (comes_before p q ≡ false → InOrder b a)
  unfolding InOrder
  comes_before-InOrder a b k l p q ha hb =
      rw (InOrder, place_of-Known a k p ha, place_of-Known b l q hb) (ground arith)
