-- ===== src/Formation/Loss.antt =====
-- When `Memb_token_loss` of daemon/membership.c returns, and when it ends the daemon.
use in5020_assignment.Prelude.{
  ℕ, zero, suc, ◌+◌, ◌≤◌, ◌<◌, ◌≡◌, ◌≢◌, refl, Bool, Bool-cases, true, false, ◌==◌, inl, inr, List,
  [], ◌∷◌, All, length, arith, ok, exit, if◌then◌else◌, subst, sym, ap,
}
use in5020_assignment.Conf.{Proc, Configuration}
use in5020_assignment.Memb.{Memb, MembState, op, seg, represented, gather, form, evs}
use in5020_assignment.Proto.{Proto}
use in5020_assignment.Proto.Backoff.{backoff_membership, backoff_membership-Around, Around}
use in5020_assignment.Formation.{Rep, RepsInfo, potential_rep, seg_rep, ring_rep}
use in5020_assignment.Formation.Members.Order.{Known, Known-some}
use in5020_assignment.Formation.Reps.{insert_rep, conclude, scan_potential, scan_seg, scan_ring}
use in5020_assignment.Formation.Sound.{on_loss-rest}
use in5020_assignment.Formation.State.{Formation, my, memb}
use in5020_assignment.Formation.Moves.{
  insert_reps, first_in_seg, insert_firsts, type_left, new_potentials, rest_of, on_loss,
  before_loss, shift_to_seg, after_loss, token_loss, commit_me,
}

-- A representative that `Insert_rep` does not stop at.
abbrev pub Insertable : List Proc → Rep → Type 0
Insertable procs x = Known procs x.proc_id × (x.type ≤ 2)

-- Each of the other segments, `n` from `i` on, has a daemon that stands for it and is configured.
unfoldable pub Firsts : List Proc → Configuration → Configuration → ℕ → ℕ → ℕ → Type 0
Firsts procs cn config mine n i =
    (j : ℕ)
    → i ≤ j
    → j < i + n
    → j ≢ mine
    → (id : ℕ) × (first_in_seg cn config j ≡ ok id) × Known procs id

insert_rep_total :
    (procs : List Proc) (r : RepsInfo) (x : Rep)
    → Insertable procs x
    → (out : RepsInfo × Bool) × (insert_rep procs r x ≡ ok out)
unfolding insert_rep
insert_rep_total procs r x (known, low) =
    let (k, p, e) = Known-some procs x.proc_id known in
    elim (Bool-cases (x.type == potential_rep)) [
      | inl a ↦ (conclude r x (scan_potential p r.reps), rw (insert_rep, e, a) refl)
      | inr a ↦ elim (Bool-cases (x.type == seg_rep)) [
        | inl b ↦ (conclude r x (scan_seg p r.reps), rw (insert_rep, e, a, b) refl)
        | inr b ↦
            let c : (x.type == ring_rep) ≡ true = ground arith in
            (conclude r x (scan_ring p r.reps), rw (insert_rep, e, a, b, c) refl)
      ]
    ]

insert_reps_total :
    (procs : List Proc) (xs : List Rep) (r : RepsInfo)
    → All (Insertable procs) xs
    → (out : RepsInfo) × (insert_reps procs xs r ≡ ok out)
unfolding insert_reps
insert_reps_total procs [] r a = (r, refl)
insert_reps_total procs (x ∷ xs) r (h, a) =
    let (one, e) = insert_rep_total procs r x h in
    let (out, f) = insert_reps_total procs xs one.0 a in (out, rw (insert_reps, e) f)

type_left_low :
    (procs : List Proc) (type : ℕ) (xs : List Rep)
    → type ≤ 2
    → All (Insertable procs) xs
    → type_left type xs ≤ 2
unfolding type_left
type_left_low procs type [] low a = low
type_left_low procs type (x ∷ xs) low (h, a) = type_left_low procs x.type xs h.1 a

insert_firsts_total :
    (procs : List Proc) (cn config : Configuration) (type mine n i : ℕ) (r : RepsInfo)
    → type ≤ 2
    → Firsts procs cn config mine n i
    → (out : RepsInfo) × (insert_firsts procs cn config type mine n i r ≡ ok out)
unfolding insert_firsts Firsts
insert_firsts_total procs cn config type mine zero i r low f = (r, refl)
insert_firsts_total procs cn config type mine (suc n) i r low f =
    let later : Firsts procs cn config mine n (i + 1) =
      λ j a b c. f j (omega arith) (omega arith) c in
    elim (Bool-cases (i == mine)) [
      | inl own ↦
          let (out, e) = insert_firsts_total procs cn config type mine n (i + 1) r low later in
          (out, rw (insert_firsts, own) e)
      | inr other ↦
          let (id, first, known) = f i (omega arith) (omega arith) (λ e. ground arith) in
          let x : Rep = record { proc_id = id; type = type; seg_index = i } in
          let (one, e) = insert_rep_total procs r x (known, low) in
          let (out, g) = insert_firsts_total procs cn config type mine n (i + 1) one.0 low later in
          (out, rw (insert_firsts, other, first, e) g)
    ]

new_potentials_total :
    (config : Configuration) (first : List Rep) (s : Formation)
    → All (Insertable s.proto.procs) first
    → Firsts s.proto.procs s.proto.cn config (my s).seg_index (length s.proto.cn.segments) 0
    → (t : Formation) × (new_potentials config first s ≡ ok t)
unfolding new_potentials
new_potentials_total config first s a f =
    let (r, e) = insert_reps_total s.proto.procs first (record s.potential_reps { reps = [] }) a in
    let low = type_left_low s.proto.procs potential_rep first (omega arith) a in
    let (q, g) =
      insert_firsts_total s.proto.procs s.proto.cn config (type_left potential_rep first)
        (my s).seg_index (length s.proto.cn.segments) 0 r low f in
    (record s { potential_reps = q }, rw (new_potentials, e, g) refl)

-- Whether there is a token to lose.
abbrev pub losable : MembState → Bool → Bool
losable op live = true
losable seg live = false
losable represented live = false
losable gather live = live
losable form live = true
losable evs live = true

if_true {ℓ} :
    {A : Type ℓ} (b : Bool) (y : A) {x z : A} → b ≡ true → x ≡ z → (if b then x else y) ≡ z
if_true true y h e = e
if_true false y h e = cc

if_false {ℓ} : {A : Type ℓ} (b : Bool) (x : A) {y : A} → b ≡ false → (if b then x else y) ≡ y
if_false true x h = cc
if_false false x h = refl

-- What `Memb_token_loss` needs to name new representatives: those that were gathered, and a configured
-- daemon of each other segment in the membership it had, and in the one that it was forming.
pub record Equipped (s : Formation) : Type 0 where
  pub gathered : All (Insertable s.proto.procs) (rest_of s.f_reps.reps)
  pub here :
      Firsts s.proto.procs s.proto.cn
        (memb s).membership
        (my s).seg_index
        (length s.proto.cn.segments)
        0
  pub ahead :
      Firsts s.proto.procs s.proto.cn
        (memb s).future_membership
        (my s).seg_index
        (length s.proto.cn.segments)
        0

-- The daemon alone, in search of the others.
pub record Lost (s t : Formation) : Type 0 where
  pub state : (memb t).state ≡ seg
  pub live : (memb t).token_alive ≡ false
  pub members : t.f_members ≡ record { members = (my s).id ∷ []; num_pending = 0 }

Firsts-along :
    (f : Memb → Configuration) {p q : Proto}
    → Around p q
    → Firsts p.procs p.cn (f p.memb) p.my.seg_index (length p.cn.segments) 0
    → Firsts q.procs q.cn (f q.memb) q.my.seg_index (length q.cn.segments) 0
Firsts-along f {p} {q} a h =
    let one =
      subst (λ z. Firsts z p.cn (f p.memb) p.my.seg_index (length p.cn.segments) 0) (sym a.procs)
        h in
    let two =
      subst
        (λ (z : Configuration). Firsts q.procs z (f p.memb) p.my.seg_index (length z.segments) 0)
        (sym a.cn) one in
    let three =
      subst (λ z. Firsts q.procs q.cn (f z) p.my.seg_index (length q.cn.segments) 0) (sym a.memb)
        two in
    subst (λ (z : Proc). Firsts q.procs q.cn (f q.memb) z.seg_index (length q.cn.segments) 0)
      (sym a.my) three

on_loss_total :
    (st : MembState) (s : Formation)
    → losable st (memb s).token_alive ≡ true
    → Equipped s
    → (t : Formation) × (on_loss st s ≡ ok t)
unfolding on_loss
on_loss_total op s h q = new_potentials_total (memb s).membership [] (commit_me s) tt q.here
on_loss_total seg s h q = cc
on_loss_total represented s h q = cc
on_loss_total gather s h q =
    let (t, run) =
      new_potentials_total (memb s).membership (rest_of s.f_reps.reps) (commit_me s) q.gathered
        q.here in
    (t, if_true (memb s).token_alive exit h run)
on_loss_total form s h q = (s, refl)
on_loss_total evs s h q =
    let s1 : Formation = record s { proto = backoff_membership s.proto } in
    new_potentials_total (memb s1).future_membership [] s1 tt
      (Firsts-along (λ (m : Memb). m.future_membership) (backoff_membership-Around s.proto) q.ahead)

on_loss_exit :
    (st : MembState) (s : Formation) → losable st (memb s).token_alive ≡ false → on_loss st s ≡ exit
unfolding on_loss
on_loss_exit op s h = cc
on_loss_exit seg s h = refl
on_loss_exit represented s h = refl
on_loss_exit gather s h = if_false (memb s).token_alive _ h
on_loss_exit form s h = cc
on_loss_exit evs s h = cc

-- `Memb_token_loss`, for a daemon that has the representatives at hand, returns where there is a
-- token to lose, which is in OP, FORM and EVS, and in GATHER while the token is alive: the daemon is
-- then in SEG, without a token, and the only one in its set of members. In SEG, in REPRESENTED and in
-- GATHER without a token it ends the daemon.
pub token_loss_outcome :
    (s : Formation)
    → Equipped s
    → (losable (memb s).state (memb s).token_alive ≡ true
        → (t : Formation) × (token_loss s ≡ ok t) × Lost s t)
      × (losable (memb s).state (memb s).token_alive ≡ false → token_loss s ≡ exit)
unfolding token_loss before_loss after_loss shift_to_seg
token_loss_outcome s q = (
  λ h.
      let (s1, run) = on_loss_total (memb s).state s h q in
      (
        after_loss s1,
        rw (token_loss, before_loss, run) refl,
        record {
          state = refl;
          live = refl;
          members =
              ap (λ (z : Proc). record { members = z.id ∷ []; num_pending = 0 })
                (on_loss-rest (memb s).state s run).1;
        },
      ),
  λ h. rw (token_loss, before_loss, on_loss_exit (memb s).state s h) refl,
)
