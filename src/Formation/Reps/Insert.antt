-- ===== src/Formation/Reps/Insert.antt =====
-- `Insert_rep` of daemon/membership.c keeps a list of representatives well formed.
use in5020_assignment.Prelude.{
  ℕ, ◌≤◌, ◌≡◌, ◌≢◌, refl, true, ◌==◌, Bool, Bool-cases, inl, inr, some, List, [], ◌∷◌, All, arith,
  length, length-snoc, snoc, ok,
}
use in5020_assignment.Conf.{Proc, proc_by_id}
use in5020_assignment.Formation.{Rep, RepsInfo, potential_rep, seg_rep, ring_rep, max_reps}
use in5020_assignment.Formation.Members.Order.{Known, Known-some}
use in5020_assignment.Formation.Reps.{
  Scan, changed, present, absent, scan_potential, scan_seg, scan_ring, add_rep, conclude,
  insert_rep,
}
use in5020_assignment.Formation.Reps.Separate.{
  Apart, Separate, Typed, Outcome, OneRenewed-Separate, All-map, Elsewhere, Other,
  scan_potential-Outcome, scan_seg-Outcome, scan_ring-Outcome,
}

-- What `Insert_rep` keeps of a list of representatives: the known types, two of one segment neither
-- potential nor the same daemon, and no more than MAX_REPS.
pub record WellFormed (r : RepsInfo) : Type 0 where
  pub types : Typed r.reps
  pub separate : Separate r.reps
  pub room : length r.reps ≤ max_reps

-- A representative is named by its daemon's main address, with that daemon's segment.
abbrev pub Genuine : List Proc → Rep → Type 0
Genuine procs rep =
    (k : ℕ) (p : Proc)
    → proc_by_id procs rep.proc_id ≡ some (k, p)
    → (p.id ≡ rep.proc_id) × (p.seg_index ≡ rep.seg_index)

All-snoc : (P : Rep → Type 0) (xs : List Rep) (y : Rep) → All P xs → P y → All P (snoc xs y)
All-snoc P [] y a h = (h, tt)
All-snoc P (x ∷ xs) y (a, b) h = (a, All-snoc P xs y b h)

snoc-Separate :
    (xs : List Rep) (y : Rep) → Separate xs → All (λ x. Apart x y) xs → Separate (snoc xs y)
snoc-Separate [] y s a = (tt, tt)
snoc-Separate (x ∷ xs) y (b, s) (a, c) = (All-snoc (Apart x) xs y b a, snoc-Separate xs y s c)

module _ (r : RepsInfo) (rep : Rep) (w : WellFormed r) (typed : rep.type ≤ 2) where
  conclude-WellFormed :
      (C : Rep → Type 0) (sc : Scan)
      → Outcome C r.reps sc
      → ((x : Rep) → C x → Apart x rep)
      → WellFormed (conclude r rep sc).0
  unfolding conclude add_rep
  conclude-WellFormed C (changed ys) o f =
      let (s, t, len) = OneRenewed-Separate o w.separate w.types in
      record { types = t; separate = s; room = omega (arith, len, w.room) }
  conclude-WellFormed C present o f = w
  conclude-WellFormed C absent o f = elim (Bool-cases (length r.reps == max_reps)) [
    | inl full ↦ rw (conclude, add_rep, full) w
    | inr space ↦
        rw (conclude, add_rep, space)
          record {
            types = All-snoc _ r.reps rep w.types typed;
            separate = snoc-Separate r.reps rep w.separate (All-map f r.reps o);
            room = ground (arith, length-snoc r.reps rep, w.room);
          }
  ]

-- `Insert_rep` of a representative that is named by a configured daemon's main address, carries that
-- daemon's segment and is of one of the three types returns and keeps the list well formed: at most MAX_REPS representatives of known types, and two of them that are of
-- one segment are different daemons and neither is a potential representative.
pub insert_rep-WellFormed :
    (procs : List Proc) (r : RepsInfo) (rep : Rep)
    → WellFormed r
    → Known procs rep.proc_id
    → Genuine procs rep
    → rep.type ≤ 2
    → (t : RepsInfo) × (b : Bool) × (insert_rep procs r rep ≡ ok (t, b)) × WellFormed t
unfolding insert_rep Elsewhere Other
insert_rep-WellFormed procs r rep w known genuine typed =
    let (k, p, e) = Known-some procs rep.proc_id known in
    let (id, seg) = genuine k p e in
    let other : rep.type ≢ potential_rep → (x : Rep) → Other p x → Apart x rep = λ firm x c same.
      let (t, d) = c (omega (arith, same, seg)) in
      (t, firm, λ (z : x.proc_id ≡ rep.proc_id). d (omega (arith, z, id))) in
    elim (Bool-cases (rep.type == potential_rep)) [
      | inl pot ↦
          let sc = scan_potential p r.reps in
          let far : (x : Rep) → Elsewhere p x → Apart x rep =
            λ x c same. absurd (c (omega (arith, same, seg))) in
          (
            (conclude r rep sc).0,
            (conclude r rep sc).1,
            rw (insert_rep, e, pot) refl,
            conclude-WellFormed r rep w typed (Elsewhere p) sc (scan_potential-Outcome p r.reps)
                far,
          )
      | inr firm ↦ elim (Bool-cases (rep.type == seg_rep)) [
        | inl is_seg ↦
            let sc = scan_seg p r.reps in
            (
              (conclude r rep sc).0,
              (conclude r rep sc).1,
              rw (insert_rep, e, firm, is_seg) refl,
              conclude-WellFormed r rep w typed (Other p) sc (scan_seg-Outcome p r.reps w.types)
                  (other λ z. ground arith),
            )
        | inr no_seg ↦
            let sc = scan_ring p r.reps in
            let is_ring : (rep.type == ring_rep) ≡ true = ground arith in
            (
              (conclude r rep sc).0,
              (conclude r rep sc).1,
              rw (insert_rep, e, firm, no_seg, is_ring) refl,
              conclude-WellFormed r rep w typed (Other p) sc (scan_ring-Outcome p r.reps w.types)
                  (other λ z. ground arith),
            )
      ]
    ]
