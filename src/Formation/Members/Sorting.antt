-- ===== src/Formation/Members/Sorting.antt =====
-- What `Sort_members` of daemon/membership.c returns.
use mathlib.Core.HLevel.{→_prop, ⊥_prop}
use mathlib.Core.Logic.Or
use mathlib.Core.List.{Mem, Perm, Pairwise, mem-cons, mem-cons_self, mem-cons_of_mem}
use mathlib.Core.List.Perm
use mathlib.Core.List.Pairwise
use in5020_assignment.Prelude.{
  ℕ, zero, suc, ◌≡◌, refl, ap₂, subst, sym, ok, List, [], ◌∷◌, All, arith, length, get_or,
}
use in5020_assignment.Conf.{Proc}
use in5020_assignment.Memb.{MembersInfo}
use in5020_assignment.Formation.Cells.{
  take_out, take_out-perm, length-take_out, All-perm, Mem-of_All,
}
use in5020_assignment.Formation.Members.{sort_loop, sort_members}
use in5020_assignment.Formation.Members.Order.{
  Known, InOrder, InOrder-prop, InOrder_refl, InOrder_antisymm, place_of,
}
use in5020_assignment.Formation.Members.Smallest.{smallest_member-finds}

module _ (procs : List Proc) where
  -- a list in the order of the configuration
  abbrev pub IsSorted : List ℕ → Type 0
  IsSorted = Pairwise (InOrder procs)

  Known-prop : (id : ℕ) → IsProp (Known procs id)
  Known-prop id = →_prop ⊥_prop

  sort_loop-sorts :
      (n : ℕ) (temp : List ℕ)
      → length temp ≡ n
      → All (Known procs) temp
      → (r : List ℕ) × (sort_loop procs n temp ≡ ok r) × IsSorted r × Perm r temp
  unfolding sort_loop
  sort_loop-sorts zero [] h a = ([], refl, Pairwise.nil, Perm.rfl)
  sort_loop-sorts zero (id ∷ ids) h a = absurd (omega arith)
  sort_loop-sorts (suc n) [] h a = absurd (omega arith)
  sort_loop-sorts (suc n) (id ∷ ids) h a =
      let temp = id ∷ ids in
      let (best, run, lt, val, below) = smallest_member-finds procs id ids a in
      let taken = take_out-perm 0 best.1 temp lt in
      let whole = Perm.symm taken in
      let known = (All-perm (Known procs) Known-prop whole a).1 in
      let (r, more, sorted, perm) =
        sort_loop-sorts n (take_out 0 best.1 temp) (omega (arith, length-take_out 0 best.1 temp))
          known in
      let all = Perm.trans (Perm.cons (get_or temp best.1 0) perm) whole in
      (
        get_or temp best.1 0 ∷ r,
        rw (sort_loop, run, more) refl,
        Pairwise.cons
            (λ x m.
              let low = (All-perm (InOrder procs best.0) (InOrder-prop procs best.0) all below).1 in
              subst (λ z. InOrder procs z x) (sym val)
                (Mem-of_All (InOrder procs best.0) (InOrder-prop procs best.0) r low x m))
            sorted,
        all,
      )

  -- `Sort_members` of a set of configured daemons returns, and what it returns is a rearrangement of
  -- the set in the order of the configuration, with the pending count as it was.
  pub sort_members-sorts :
      (m : MembersInfo)
      → All (Known procs) m.members
      → (r : MembersInfo) × (sort_members procs m ≡ ok r)
        × IsSorted r.members
        × Perm r.members m.members
        × (r.num_pending ≡ m.num_pending)
  unfolding sort_members
  sort_members-sorts m a =
      let (r, run, sorted, perm) = sort_loop-sorts (length m.members) m.members refl a in
      (record m { members = r }, rw (sort_members, run) refl, sorted, perm, refl)

  -- No two members of a list have one place in the configuration.
  abbrev pub Placed : List ℕ → Type 0
  Placed xs = (a b : ℕ) → Mem a xs → Mem b xs → place_of procs a ≡ place_of procs b → a ≡ b

  head_low : {a : ℕ} {l : List ℕ} → IsSorted (a ∷ l) → (x : ℕ) → Mem x (a ∷ l) → InOrder procs a x
  head_low {a} (Pairwise.cons h s) x m =
      Or.elim (InOrder-prop procs a x) (mem-cons.0 m)
        (λ e. subst (InOrder procs a) (sym e) (InOrder_refl procs a)) (h x)

  -- A set has one arrangement in the order of the configuration.
  IsSorted-unique : (l r : List ℕ) → IsSorted l → IsSorted r → Perm l r → Placed l → l ≡ r
  IsSorted-unique [] r sl sr p d = Perm.nil-eq p
  IsSorted-unique (a ∷ l) [] sl sr p d = Perm.eq-nil p
  IsSorted-unique (a ∷ l) (b ∷ r) sl sr p d =
      let b_in = (Perm.mem_iff p).1 mem-cons_self in
      let ab = head_low sl b b_in in
      let ba = head_low sr a ((Perm.mem_iff p).0 mem-cons_self) in
      let (segs, places) = InOrder_antisymm procs a b ab ba in
      let heads = d a b mem-cons_self b_in (ap₂ (λ (i j : ℕ). (i, j)) segs places) in
      let tails = Perm.cons_inv (Perm.trans p (Perm.symm (Perm.cons' heads Perm.rfl))) in
      ap₂ ◌∷◌ heads (
        IsSorted-unique l r (Pairwise.of_cons sl) (Pairwise.of_cons sr) tails
          (λ x y m n. d x y (mem-cons_of_mem a m) (mem-cons_of_mem a n)))

  -- `Sort_members` does not depend on the order in which the members were collected: two sets that
  -- are rearrangements of each other, of configured daemons with different places, are sorted into
  -- one list.
  pub sort_members-agree :
      (m n : MembersInfo)
      → All (Known procs) m.members
      → Placed m.members
      → Perm m.members n.members
      → (r : MembersInfo) × (q : MembersInfo) × (sort_members procs m ≡ ok r)
        × (sort_members procs n ≡ ok q)
        × (r.members ≡ q.members)
  sort_members-agree m n a d p =
      let (r, run, sorted, perm, _) = sort_members-sorts m a in
      let known = All-perm (Known procs) Known-prop (Perm.symm p) a in
      let (q, run', sorted', perm', _) = sort_members-sorts n known in
      let same = Perm.trans perm (Perm.trans p (Perm.symm perm')) in
      let placed : Placed r.members =
        λ x y i j. d x y ((Perm.mem_iff perm).0 i) ((Perm.mem_iff perm).0 j) in
      (r, q, run, run', IsSorted-unique r.members q.members sorted sorted' same placed)
