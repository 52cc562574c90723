-- ===== src/Formation/Cells.antt =====
-- How `Sort_members` and `Sort_reps` of daemon/membership.c take an element out of an array: the last
-- one is put in its place.
use in5020_assignment.Prelude.{
  ℕ, zero, suc, ◌-◌, ◌<◌, ◌≤◌, ◌≡◌, refl, List, [], ◌∷◌, length, length-set, get_or, set, take, All,
  arith, ap, subst, sym,
}
use native.Mathlib.Numerals.{unary_clauses}
use mathlib.Core.List.Perm
use mathlib.Core.Logic.Or
use mathlib.Core.List.{Perm, Mem, mem-cons, mem-cons_self, mem-cons_of_mem, not-mem-nil}

module _ {ℓ} {A : Type ℓ} where
  -- The cells after `num--; cells[ index ] = cells[ num ]`; `d` stands for what no cell holds.
  unfoldable pub take_out : A → ℕ → List A → List A
  take_out d index cells =
      take (length cells - 1) (set cells index (get_or cells (length cells - 1) d))

  -- the last element in front of the others
  last_first :
      (d y : A) (ys : List A)
      → Perm (y ∷ ys) (get_or (y ∷ ys) (length ys) d ∷ take (length ys) (y ∷ ys))
  last_first d y [] = Perm.rfl
  last_first d y (z ∷ zs) = Perm.trans (Perm.cons y (last_first d z zs)) (Perm.swap _ y _)

  -- What is taken out and what is left make up the cells.
  pub take_out-perm :
      (d : A) (index : ℕ) (cells : List A)
      → index < length cells
      → Perm cells (get_or cells index d ∷ take_out d index cells)
  unfolding take_out
  take_out-perm d index [] h = absurd (omega arith)
  take_out-perm d zero (x ∷ []) h = Perm.rfl
  take_out-perm d (suc i) (x ∷ []) h = absurd (omega arith)
  take_out-perm d zero (x ∷ y ∷ ys) h = simp unary_clauses (Perm.cons x (last_first d y ys))
  take_out-perm d (suc i) (x ∷ y ∷ ys) h =
      let rest = simp unary_clauses at (take_out-perm d i (y ∷ ys) (omega arith)) in
      simp unary_clauses (Perm.trans (Perm.cons x rest) (Perm.swap _ x _))

  length-take_all : (n : ℕ) (xs : List A) → n ≤ length xs → length (take n xs) ≡ n
  length-take_all zero xs h = refl
  length-take_all (suc n) [] h = absurd (omega arith)
  length-take_all (suc n) (x ∷ xs) h = ap suc (length-take_all n xs (omega arith))

  pub length-take_out :
      (d : A) (index : ℕ) (cells : List A) → length (take_out d index cells) ≡ length cells - 1
  unfolding take_out
  length-take_out d index cells =
      let same = length-set cells index (get_or cells (length cells - 1) d) in
      length-take_all _ _ (omega (arith, same))

  module _ {κ} (P : A → Type κ) where
    pub All-of_Mem : (xs : List A) → ((x : A) → Mem x xs → P x) → All P xs
    All-of_Mem [] h = tt
    All-of_Mem (x ∷ xs) h = (h x mem-cons_self, All-of_Mem xs (λ y m. h y (mem-cons_of_mem x m)))

    pub Mem-of_All : ((x : A) → IsProp (P x)) → (xs : List A) → All P xs → (x : A) → Mem x xs → P x
    Mem-of_All p [] a x m = absurd (not-mem-nil m)
    Mem-of_All p (y ∷ ys) a x m =
        Or.elim (p x) (mem-cons.0 m) (λ e. subst P (sym e) a.0) (Mem-of_All p ys a.1 x)

    -- What holds of all the elements holds of them in any order.
    pub All-perm : ((x : A) → IsProp (P x)) → {xs ys : List A} → Perm ys xs → All P xs → All P ys
    All-perm p {xs} {ys} q a = All-of_Mem ys (λ x m. Mem-of_All p xs a x ((Perm.mem_iff q).0 m))
