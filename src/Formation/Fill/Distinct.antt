-- ===== src/Formation/Fill/Distinct.antt =====
-- The members in a form1 token in the first part of `Fill_form1` of daemon/membership.c.
use in5020_assignment.Prelude.{
  ℕ, ◌≡◌, refl, Bool, Bool-cases, true, false, ◌==◌, ==_iff, ◌||◌, ◌&&◌, not, if-cases, if-split,
  Option-cases, some, some-inj, none-ne-some, inl, inr, ◌⊎◌, List, [], ◌∷◌, ◌++◌, List-cases,
  append-nil, append_assoc, get_elem?, ok, >>=-eq-ok, exit-ne-ok, ok-inj, subst, sym, ◌∙◌, ap,
  arith,
}
use in5020_assignment.Memb.{MembState, contains_id, op, seg, represented, gather, form, evs}
use in5020_assignment.Formation.{Rep, seg_rep, ring_rep}
use in5020_assignment.Formation.State.{Formation, FormMembers, my, memb}
use in5020_assignment.Formation.Form.{all_ids, rep_ids}
use in5020_assignment.Formation.Fill.{
  Roll, take_turn, still_mine, kept_mine, bring, brought, bring_mine, enter,
}

abbrev Distinct : List ℕ → Type 0
Distinct [] = Unit
Distinct (k ∷ ks) = (contains_id ks k ≡ false) × Distinct ks

-- all the daemons of a form token, those that it has been to first
abbrev all_of : FormMembers → List ℕ
all_of m = m.members ++ m.pending

contains_id-append :
    (xs ys : List ℕ) (k : ℕ) → contains_id (xs ++ ys) k ≡ (contains_id xs k || contains_id ys k)
unfolding contains_id
contains_id-append [] ys k = refl
contains_id-append (x ∷ xs) ys k = ground (arith, contains_id-append xs ys k)

same_id : (ks : List ℕ) (a b : ℕ) → (a == b) ≡ true → contains_id ks b ≡ contains_id ks a
same_id ks a b h = ap (contains_id ks) (sym ((==_iff a b).0 h))

append-Distinct :
    (xs ys : List ℕ)
    → Distinct xs
    → Distinct ys
    → ((k : ℕ) → contains_id xs k ≡ true → contains_id ys k ≡ false)
    → Distinct (xs ++ ys)
unfolding contains_id
append-Distinct [] ys a b c = b
append-Distinct (x ∷ xs) ys (here, a) b c =
    let lacks : contains_id ys x ≡ false = c x (ground arith) in
    (
      contains_id-append xs ys x ∙ ground (arith, here, lacks),
      append-Distinct xs ys a b (λ k h. c k (ground (arith, h))),
    )

or-false_left : (a b : Bool) → (a || b) ≡ false → a ≡ false
or-false_left false b h = refl
or-false_left true b h = h

or-false_right : (a b : Bool) → (a || b) ≡ false → b ≡ false
or-false_right false b h = h
or-false_right true b h = ground (arith, h)

-- A daemon that stays is not the daemon `k`, which is among the members or was not there before.
module _ (ms : List ℕ) (x k : ℕ) (rest : Bool) where
  stays-is_other :
      contains_id ms x ≡ false
      → ((x == k) || rest) ≡ false ⊎ contains_id ms k ≡ true
      → (x == k) ≡ false
  stays-is_other stays (inl lacks) = or-false_left _ _ lacks
  stays-is_other stays (inr has) = elim (Bool-cases (x == k)) [
    | inl e ↦ ground (arith, sym has ∙ same_id ms x k e ∙ stays)
    | inr e ↦ e
  ]

module _ (me : ℕ) (ms reps own : List ℕ) where
  abbrev leaves : ℕ → Bool
  leaves k = contains_id ms k || ((contains_id reps k || contains_id own k) && not (k == me))

  still_mine-lacks :
      (ks : List ℕ) (k : ℕ)
      → (contains_id ks k ≡ false) ⊎ (contains_id ms k ≡ true)
      → contains_id (still_mine me ms reps own ks) k ≡ false
  unfolding still_mine contains_id
  still_mine-lacks [] k h = refl
  still_mine-lacks (x ∷ xs) k h =
      let tail : (contains_id xs k ≡ false) ⊎ (contains_id ms k ≡ true) = elim h [
        | inl lacks ↦ inl (or-false_right _ _ lacks)
        | inr has ↦ inr has
      ] in
      let rest = still_mine-lacks xs k tail in
      elim (Bool-cases (leaves x)) [
        | inl out ↦ rw (out) rest
        | inr stays ↦
            rw (stays, stays-is_other ms x k (contains_id xs k) (or-false_left _ _ stays) h) rest
      ]

  still_mine-Distinct : (ks : List ℕ) → Distinct ks → Distinct (still_mine me ms reps own ks)
  unfolding still_mine
  still_mine-Distinct [] d = tt
  still_mine-Distinct (k ∷ ks) (here, d) =
      let rest = still_mine-Distinct ks d in
      elim (Bool-cases (leaves k)) [
        | inl out ↦ rw (out) rest
        | inr stays ↦ rw (stays) (still_mine-lacks ks k (inl here), rest)
      ]

take_turn-Distinct :
    (me : ℕ) (m m2 : FormMembers)
    → take_turn me m ≡ some m2
    → Distinct (all_of m)
    → Distinct (all_of m2)
unfolding take_turn
take_turn-Distinct me m m2 h d = elim (List-cases m.pending) [
  | inl p ↦ absurd (none-ne-some (rw (take_turn, p) at h))
  | inr (next, later, p) ↦ elim (if-split (next == me) (rw (take_turn, p) at h)) [
    | inr other ↦ absurd (none-ne-some other)
    | inl mine ↦
        subst (λ (z : FormMembers). Distinct (all_of z)) (some-inj mine)
          (subst Distinct
            (ap (λ (z : List ℕ). m.members ++ z) p ∙ sym (append_assoc m.members (next ∷ []) later))
            d)
  ]
]

bring-Distinct :
    (ids : List ℕ) (m m2 : FormMembers)
    → bring ids m ≡ ok m2
    → Distinct (m.members ++ ids)
    → Distinct (all_of m2)
unfolding bring
bring-Distinct [] m m2 h d = absurd (exit-ne-ok h)
bring-Distinct (x ∷ xs) m m2 h d =
    subst (λ (z : FormMembers). Distinct (all_of z)) (ok-inj h)
      (subst Distinct (sym (append_assoc m.members (x ∷ []) xs)) d)

-- What the daemon brings is not in the token yet.
module _ (roll : Roll) (s : Formation) where
  kept_mine-Distinct :
      Distinct roll.members.members
      → Distinct s.f_members.members
      → Distinct (roll.members.members ++ kept_mine roll s)
  kept_mine-Distinct d e =
      append-Distinct roll.members.members (kept_mine roll s) d
        (still_mine-Distinct (my s).id roll.members.members (rep_ids roll.reps.reps)
          (rep_ids s.f_reps.reps) s.f_members.members e)
        (λ k h.
          still_mine-lacks (my s).id roll.members.members (rep_ids roll.reps.reps)
            (rep_ids s.f_reps.reps) s.f_members.members k (inr h))

  abbrev pub ring_ids : List ℕ
  ring_ids = all_ids (memb s).membership.segments

  brought-Distinct :
      (x : Rep) (m : FormMembers)
      → Distinct roll.members.members
      → Distinct s.f_members.members
      → (x.type ≡ ring_rep → Distinct (roll.members.members ++ ring_ids))
      → brought x roll s ≡ ok m
      → Distinct (all_of m)
  unfolding brought
  brought-Distinct x m d e r h = elim (if-split (x.type == seg_rep) h) [
    | inl one ↦ bring-Distinct (kept_mine roll s) roll.members m one (kept_mine-Distinct d e)
    | inr h1 ↦ elim (if-cases (x.type == ring_rep) h1) [
      | inl (is, whole) ↦
          bring-Distinct ring_ids roll.members m whole (r ((==_iff x.type ring_rep).0 is))
      | inr (_, none_of) ↦ absurd (exit-ne-ok none_of)
    ]
  ]

-- No daemon is twice in the token, and none is twice among the members that this daemon holds.
abbrev pub Apart : Roll × Formation → Type 0
Apart out = Distinct (all_of out.0.members) × Distinct out.1.f_members.members

module _ (roll : Roll) (s : Formation) {out : Roll × Formation} where
  bring_mine-Apart :
      (x : Rep)
      → Distinct roll.members.members
      → Distinct s.f_members.members
      → (x.type ≡ ring_rep → Distinct (roll.members.members ++ ring_ids roll s))
      → bring_mine x roll s ≡ ok out
      → Apart out
  unfolding bring_mine
  bring_mine-Apart x d e r h =
      let (m, run, done) = >>=-eq-ok (brought x roll s) _ h in
      subst Apart (ok-inj done) (
        brought-Distinct roll s x m d e r run,
        still_mine-Distinct (my s).id roll.members.members (rep_ids roll.reps.reps)
            (rep_ids s.f_reps.reps) s.f_members.members e,
      )

  turn-Apart :
      (m : FormMembers)
      → take_turn (my s).id roll.members ≡ some m
      → Apart (roll, s)
      → some (record roll { members = m }, s) ≡ some out
      → Apart out
  turn-Apart m t a h =
      subst Apart (some-inj h) (take_turn-Distinct (my s).id roll.members m t a.0, a.1)

  enter-from :
      (st : MembState)
      → (memb s).state ≡ st
      → Apart (roll, s)
      → ((x : Rep)
          → get_elem? roll.reps.reps roll.reps.rep_index ≡ some x
          → x.type ≡ ring_rep
          → Distinct (roll.members.members ++ ring_ids roll s))
      → enter roll s ≡ ok (some out)
      → Apart out
  unfolding enter
  enter-from op o a r h = elim (Option-cases (take_turn (my s).id roll.members)) [
    | inl no_turn ↦ absurd (none-ne-some (ok-inj (rw (enter, o, no_turn) at h)))
    | inr (m, turn) ↦ turn-Apart m turn a (ok-inj (rw (enter, o, turn) at h))
  ]
  enter-from represented o a r h = elim (Option-cases (take_turn (my s).id roll.members)) [
    | inl no_turn ↦ absurd (none-ne-some (ok-inj (rw (enter, o, no_turn) at h)))
    | inr (m, turn) ↦ turn-Apart m turn a (ok-inj (rw (enter, o, turn) at h))
  ]
  enter-from gather o a r h = elim (List-cases roll.members.pending) [
    | inr (next, later, p) ↦ absurd (none-ne-some (ok-inj (rw (enter, o, p) at h)))
    | inl p ↦ elim (Option-cases (get_elem? roll.reps.reps roll.reps.rep_index)) [
      | inl nobody ↦ absurd (none-ne-some (ok-inj (rw (enter, o, p, nobody) at h)))
      | inr (x, found) ↦ elim (if-split (x.proc_id == (my s).id) (rw (enter, o, p, found) at h)) [
        | inr other ↦ absurd (none-ne-some (ok-inj other))
        | inl mine ↦
            let (o2, run, done) = >>=-eq-ok (bring_mine x roll s) _ mine in
            let met : Distinct roll.members.members =
              subst Distinct
                (ap (λ (z : List ℕ). roll.members.members ++ z) p ∙ append-nil roll.members.members)
                a.0 in
            bring_mine-Apart x met a.1 (r x found) (
              subst (λ (z : Roll × Formation). bring_mine x roll s ≡ ok z) (some-inj (ok-inj done))
                run)
      ]
    ]
  ]
  enter-from seg o a r h = absurd (exit-ne-ok (rw (enter, o) at h))
  enter-from form o a r h = absurd (exit-ne-ok (rw (enter, o) at h))
  enter-from evs o a r h = absurd (exit-ne-ok (rw (enter, o) at h))

-- The first part of `Fill_form1`, by which the daemon moves from the pending to the members of a form1
-- token or brings its own, before it comes to the token's rings: when no daemon is twice among the
-- token's members and pending members nor twice among the members that this daemon holds, then the
-- same is so after that part, in every state in which it goes on. For a daemon that enters as a
-- whole ring the code leaves nothing out, and the condition is that its ring and the token's members
-- have no daemon twice between them.
pub enter-Apart :
    (roll : Roll) (s : Formation) {out : Roll × Formation}
    → Apart (roll, s)
    → ((x : Rep)
        → get_elem? roll.reps.reps roll.reps.rep_index ≡ some x
        → x.type ≡ ring_rep
        → Distinct (roll.members.members ++ ring_ids roll s))
    → enter roll s ≡ ok (some out)
    → Apart out
enter-Apart roll s a r h = enter-from roll s (memb s).state refl a r h
