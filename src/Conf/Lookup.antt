-- ===== src/Conf/Lookup.antt =====
-- The searches of daemon/configuration.c: what an index or its absence means.
use in5020_assignment.Prelude.{
  ℕ, suc, ◌+◌, ◌-◌, ◌≤◌, ◌≡◌, ◌≢◌, ◌⊎◌, refl, true, false, Option, none, some, List, [], ◌∷◌,
  get_elem?, arith, Bool-cases, inl, inr, All, length, snoc, take, length-snoc, subst, Option-cases,
}
use in5020_assignment.Conf.{
  Proc, Segment, has_ip, find_proc, proc_by_id, find_in_seg, id_in_seg, append_id_to_seg,
}

-- no daemon of the list has an interface at `id`
abbrev pub Unknown : ℕ → List Proc → Type 0
Unknown id = All λ p. has_ip id p.ifc ≡ false

-- what a search from index `k` on says of the list
abbrev FoundFrom : ℕ → List Proc → ℕ → Option (ℕ × Proc) → Type 0
FoundFrom id ps k none = Unknown id ps
FoundFrom id ps k (some (i, p)) =
    (k ≤ i)
    × (get_elem? ps (i - k) ≡ some p)
    × (has_ip id p.ifc ≡ true)
    × Unknown id (take (i - k) ps)

-- what `Conf_proc_by_id` says of the array
abbrev pub Found : ℕ → List Proc → Option (ℕ × Proc) → Type 0
Found id ps none = Unknown id ps
Found id ps (some (i, p)) =
    (get_elem? ps i ≡ some p) × (has_ip id p.ifc ≡ true) × Unknown id (take i ps)

FoundFrom-cons :
    (id k : ℕ) (p : Proc) (ps : List Proc) (r : Option (ℕ × Proc))
    → has_ip id p.ifc ≡ false
    → FoundFrom id ps (k + 1) r
    → FoundFrom id (p ∷ ps) k r
FoundFrom-cons id k p ps none e f = (e, f)
FoundFrom-cons id k p ps (some (i, q)) e f =
    let step : i - k ≡ suc (i - (k + 1)) = omega (arith, f.0) in
    (omega (arith, f.0), rw step f.1, f.2, rw step (e, f.3))

find_proc-FoundFrom : (id : ℕ) (ps : List Proc) (k : ℕ) → FoundFrom id ps k (find_proc id ps k)
unfolding find_proc
find_proc-FoundFrom id [] k = tt
find_proc-FoundFrom id (p ∷ ps) k = elim (Bool-cases (has_ip id p.ifc)) [
  | inl e ↦ let here : k - k ≡ 0 = omega arith in rw e (omega arith, rw here, e, rw here tt)
  | inr e ↦ rw e (FoundFrom-cons id k p ps _ e (find_proc-FoundFrom id ps (k + 1)))
]

Found-of_FoundFrom :
    (id : ℕ) (ps : List Proc) (r : Option (ℕ × Proc)) → FoundFrom id ps 0 r → Found id ps r
Found-of_FoundFrom id ps none f = f
Found-of_FoundFrom id ps (some (i, p)) f =
    let e : i - 0 ≡ i = omega arith in (rw e at f.1, f.2, rw e at f.3)

-- `Conf_proc_by_id` returns the first daemon of the array that has an interface at the address,
-- with its index, and -1 only if no daemon has one.
pub proc_by_id-Found : (procs : List Proc) (id : ℕ) → Found id procs (proc_by_id procs id)
unfolding proc_by_id
proc_by_id-Found procs id = Found-of_FoundFrom id procs _ (find_proc-FoundFrom id procs 0)

find_in_seg-snoc :
    (id : ℕ) (ps : List Proc) (p : Proc) (k : ℕ)
    → has_ip id p.ifc ≡ true
    → find_in_seg id (snoc ps p) k ≢ none
unfolding find_in_seg
find_in_seg-snoc id [] p k h = rw h (λ e. cc)
find_in_seg-snoc id (q ∷ ps) p k h = ground (arith, find_in_seg-snoc id ps p (k + 1) h)

proc_by_id-has_ip :
    (procs : List Proc) (id i : ℕ) (p : Proc)
    → proc_by_id procs id ≡ some (i, p)
    → has_ip id p.ifc ≡ true
proc_by_id-has_ip procs id i p e = (subst (Found id procs) e (proc_by_id-Found procs id)).1

-- `Conf_append_id_to_seg` finds the daemon and puts it at the end of the segment, where
-- `Conf_id_in_seg` then finds the address; or it fails, the address belongs to no configured
-- daemon, and the segment is unchanged.
pub append_id_to_seg_cases :
    (procs : List Proc) (seg : Segment) (id : ℕ)
    → let (seg', done) = append_id_to_seg procs seg id in
      ((done ≡ true)
        × (id_in_seg seg' id ≢ none)
        × (length seg'.procs ≡ length seg.procs + 1)
        × (seg'.port ≡ seg.port)
        × (seg'.bcast_address ≡ seg.bcast_address))
      ⊎ ((done ≡ false) × (seg' ≡ seg) × Unknown id procs)
unfolding append_id_to_seg id_in_seg
append_id_to_seg_cases procs seg id = elim (Option-cases (proc_by_id procs id)) [
  | inl e ↦
      rw (e, append_id_to_seg)
        (inr (refl, refl, subst (Found id procs) e (proc_by_id-Found procs id)))
  | inr ((i, p), e) ↦
      rw (e, append_id_to_seg)
        (inl (
          refl,
          find_in_seg-snoc id seg.procs p 0 (proc_by_id-has_ip procs id i p e),
          length-snoc seg.procs p,
          refl,
          refl,
        ))
]
