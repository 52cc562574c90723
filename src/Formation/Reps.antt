-- ===== src/Formation/Reps.antt =====
-- daemon/membership.c: the representatives of segments and rings that a daemon collects:
-- `Insert_rep`, `Smallest_rep` and `Sort_reps`.
pub mod Separate
pub mod Insert
use in5020_assignment.Prelude.{
  ℕ, zero, suc, ◌+◌, Bool, true, false, ◌==◌, ◌&&◌, ◌||◌, ltb, if◌then◌else◌, some, none, List, [],
  ◌∷◌, length, get_or, snoc, Faultable, ok, exit, ◌>>=◌,
}
use in5020_assignment.Conf.{Proc, proc_by_id}
use in5020_assignment.Formation.{Rep, RepsInfo, potential_rep, seg_rep, ring_rep, max_reps}
use in5020_assignment.Formation.Cells.{take_out}

-- How the loop of `Insert_rep` over the representatives ends: with a return of 1 and the list it
-- leaves, with a return of 0, or at the end of the list.
pub data Scan : Type 0 where
  changed : List Rep → Scan
  present : Scan
  absent : Scan

abbrev pub keep : Rep → Scan → Scan
keep x (changed ys) = changed (x ∷ ys)
keep x present = present
keep x absent = absent

-- the loop for a potential representative
unfoldable pub scan_potential : Proc → List Rep → Scan
scan_potential p [] = absent
scan_potential p (x ∷ xs) =
    let rest = scan_potential p xs in if x.seg_index == p.seg_index then present else keep x rest

-- the loop for a segment's representative
unfoldable pub scan_seg : Proc → List Rep → Scan
scan_seg p [] = absent
scan_seg p (x ∷ xs) =
    let rest = keep x (scan_seg p xs) in
    if x.seg_index == p.seg_index
    then (if x.type == potential_rep
        then changed (record x { type = seg_rep; proc_id = p.id } ∷ xs)
        else if x.type == seg_rep
        then (if x.proc_id == p.id then present else rest)
        else if x.type == ring_rep && x.proc_id == p.id
        then changed (record x { type = seg_rep } ∷ xs)
        else rest)
    else rest

-- the loop for a ring's representative
unfoldable pub scan_ring : Proc → List Rep → Scan
scan_ring p [] = absent
scan_ring p (x ∷ xs) =
    let rest = keep x (scan_ring p xs) in
    if x.seg_index == p.seg_index
    then (if x.type == potential_rep
        then changed (record x { type = ring_rep; proc_id = p.id } ∷ xs)
        else if x.type == seg_rep
        then (if x.proc_id == p.id then changed (record x { type = ring_rep } ∷ xs) else rest)
        else if x.type == ring_rep && x.proc_id == p.id
        then present
        else rest)
    else rest

-- the end of `Insert_rep`; a full list ignores the representative.
unfoldable pub add_rep : RepsInfo → Rep → RepsInfo × Bool
add_rep r rep =
    if length r.reps == max_reps then (r, false) else (record r { reps = snoc r.reps rep }, true)

unfoldable pub conclude : RepsInfo → Rep → Scan → RepsInfo × Bool
conclude r rep (changed ys) = (record r { reps = ys }, true)
conclude r rep present = (r, false)
conclude r rep absent = add_rep r rep

-- `Insert_rep`; the flag is the return of 1.
unfoldable pub insert_rep : List Proc → RepsInfo → Rep → Faultable (RepsInfo × Bool)
insert_rep procs r rep = elim (proc_by_id procs rep.proc_id) [
  | some (k, p) ↦
      if rep.type == potential_rep
      then ok (conclude r rep (scan_potential p r.reps))
      else if rep.type == seg_rep
      then ok (conclude r rep (scan_seg p r.reps))
      else if rep.type == ring_rep
      then ok (conclude r rep (scan_ring p r.reps))
      else exit
  | none ↦ exit
]

-- the test by which `Smallest_rep` moves on to `x` from a ring's representative of its segment
unfoldable pub earlier_in_seg : List Proc → Rep → Rep → Faultable Bool
earlier_in_seg procs x current = elim (proc_by_id procs current.proc_id) [
  | some (k, curr_p) ↦ elim (proc_by_id procs x.proc_id) [
    | some (l, i_p) ↦ ok (ltb i_p.index_in_seg curr_p.index_in_seg)
    | none ↦ exit
  ]
  | none ↦ exit
]

-- The body of the loop of `Smallest_rep`: whether it moves on to `x`. `Insert_rep` takes no unknown
-- daemon; that the code reads an unset `proc` for one is a fault here.
unfoldable pub moves_on : List Proc → Rep → Rep → Faultable Bool
moves_on procs x current =
    if current.type == seg_rep
    then ok (x.type == seg_rep && ltb x.seg_index current.seg_index)
    else if current.type == ring_rep
    then (if x.type == ring_rep
        then (if ltb x.seg_index current.seg_index
            then ok true
            else if x.seg_index == current.seg_index
            then earlier_in_seg procs x current
            else ok false)
        else ok (x.type == seg_rep))
    else exit

unfoldable pub smallest_rep_from : List Proc → Rep × ℕ → ℕ → List Rep → Faultable (Rep × ℕ)
smallest_rep_from procs best i [] = ok best
smallest_rep_from procs best i (x ∷ xs) =
    let moved = smallest_rep_from procs (x, i) (i + 1) xs in
    let kept = smallest_rep_from procs best (i + 1) xs in
    moves_on procs x best.0 >>= λ b. if b then moved else kept

-- `Smallest_rep`: the representative, whose `proc_id` the code returns, and its index. Cell 0 of an
-- empty list, which no caller passes, is a fault here.
unfoldable pub smallest_rep : List Proc → List Rep → Faultable (Rep × ℕ)
smallest_rep procs [] = exit
smallest_rep procs (x ∷ xs) = smallest_rep_from procs (x, 0) 1 xs

-- The loop of `Sort_reps` with `n` rounds to go, over `temp_reps`.
unfoldable pub sort_reps_loop : List Proc → ℕ → List Rep → Faultable (List Rep)
sort_reps_loop procs zero temp = ok []
sort_reps_loop procs (suc n) temp = do
  best ← smallest_rep procs temp
  rest ← sort_reps_loop procs n (take_out best.0 best.1 temp)
  ok (get_or temp best.1 best.0 ∷ rest)

-- `Sort_reps`
unfoldable pub sort_reps : List Proc → RepsInfo → Faultable RepsInfo
sort_reps procs r =
    sort_reps_loop procs (length r.reps) r.reps >>= λ sorted. ok (record r { reps = sorted })
