-- ===== src/Formation/Members.antt =====
-- daemon/membership.c: the set of members that a daemon collects: `Insert_member`,
-- `Smallest_member` and `Sort_members`.
pub mod Order
pub mod Smallest
pub mod Sorting
use in5020_assignment.Prelude.{
  ℕ, zero, suc, ◌+◌, Bool, true, false, ◌==◌, ◌&&◌, ◌||◌, ltb, if◌then◌else◌, some, none, List, [],
  ◌∷◌, length, get_or, snoc, Faultable, ok, exit, ◌>>=◌,
}
use in5020_assignment.Conf.{Proc, proc_by_id}
use in5020_assignment.Memb.{MembersInfo, contains_id}
use in5020_assignment.Proto.{max_procs_ring}
use in5020_assignment.Formation.Cells.{take_out}

-- `Insert_member`; the flag is the return of 1. A full set ignores the member.
unfoldable pub insert_member : MembersInfo → ℕ → MembersInfo × Bool
insert_member m proc_id =
    if contains_id m.members proc_id
    then (m, false)
    else if length m.members == max_procs_ring
    then (m, false)
    else (record m { members = snoc m.members proc_id }, true)

-- the test by which `Smallest_member` moves on to the daemon `p`
abbrev pub comes_before : Proc → Proc → Bool
comes_before p q =
    ltb p.seg_index q.seg_index || (p.seg_index == q.seg_index && ltb p.index_in_seg q.index_in_seg)

-- The loop of `Smallest_member` from index `i` on; `best` is the member at `current` and `current`,
-- `curr_proc` its daemon.
unfoldable pub smallest_from : List Proc → ℕ × ℕ → Proc → ℕ → List ℕ → Faultable (ℕ × ℕ)
smallest_from procs best curr_proc i [] = ok best
smallest_from procs best curr_proc i (id ∷ ids) = elim (proc_by_id procs id) [
  | some (k, p) ↦
      let moved = smallest_from procs (id, i) p (i + 1) ids in
      let kept = smallest_from procs best curr_proc (i + 1) ids in
      if comes_before p curr_proc then moved else kept
  | none ↦ exit
]

-- `Smallest_member`: the member and its index. Cell 0 of an empty set, which no caller passes, is
-- a fault here.
unfoldable pub smallest_member : List Proc → List ℕ → Faultable (ℕ × ℕ)
smallest_member procs [] = exit
smallest_member procs (id ∷ ids) = elim (proc_by_id procs id) [
  | some (k, p) ↦ smallest_from procs (id, 0) p 1 ids
  | none ↦ exit
]

-- The loop of `Sort_members` with `n` rounds to go, over `temp_members`.
unfoldable pub sort_loop : List Proc → ℕ → List ℕ → Faultable (List ℕ)
sort_loop procs zero temp = ok []
sort_loop procs (suc n) temp = do
  best ← smallest_member procs temp
  rest ← sort_loop procs n (take_out 0 best.1 temp)
  ok (get_or temp best.1 0 ∷ rest)

-- `Sort_members`
unfoldable pub sort_members : List Proc → MembersInfo → Faultable MembersInfo
sort_members procs m =
    sort_loop procs (length m.members) m.members >>= λ sorted. ok (record m { members = sorted })
