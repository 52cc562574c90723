-- ===== src/Formation/Sound/Tokens.antt =====
-- Form tokens keep the timed calls right for the state.
use in5020_assignment.Prelude.{
  ◌≡◌, refl, ◌==◌, if-split, Option-cases, some-inj, none-ne-some, some, ◌⊎◌, inl, inr, List, [],
  List-cases, get_elem?, ok, >>=-eq-ok, exit-ne-ok, ok-inj, subst, sym, ◌∙◌, ap,
}
use in5020_assignment.Events.Clock.{SpTime}
use in5020_assignment.Wire.{TokenHeader}
use in5020_assignment.Conf.{leader}
use in5020_assignment.Memb.{MembState, op, seg, represented, gather, form, evs}
use in5020_assignment.Formation.{Rep, RepsInfo}
use in5020_assignment.Formation.State.{Formation, Timers, FormMembers, RingInfo, form1, my, memb}
use in5020_assignment.Formation.Members.{sort_members}
use in5020_assignment.Formation.Form.{failure_potentials, insert_failure, shift_to_form}
use in5020_assignment.Formation.Fill.{
  Roll, take_turn, enter, bring_mine, brought, enter_ring, pass_form, stop_gathering, fill_on,
  fill_form1,
}
use in5020_assignment.Formation.Handlers.{handle_token}
use in5020_assignment.Formation.Sound.{Off, Fits, Sound, Sound-of_Fits}

pub shift_to_form-Sound :
    (s : Formation)
    → Off s.timers.gather_or_represented
    → Off s.timers.scast_alive
    → Off s.timers.shift_to_seg
    → Off s.timers.form_or_fail
    → Sound (shift_to_form s)
unfolding shift_to_form
shift_to_form-Sound s g a h f = (
  refl,
  refl,
  record {
    gather_or_represented = g;
    shift_to_seg = h;
    send_join = refl;
    form_or_fail = f;
    scast_alive = a;
  },
)

pub failure_potentials-timers :
    (reps : List Rep) (s : Formation) {t : Formation}
    → failure_potentials reps s ≡ ok t
    → t.timers ≡ s.timers
unfolding failure_potentials
failure_potentials-timers reps s h =
    let (r, _, done) =
      >>=-eq-ok
        (insert_failure s.proto.procs (my s).seg_index reps (record s.potential_reps { reps = [] }))
        _ h in
    subst (λ (z : Formation). z.timers ≡ s.timers) (ok-inj done) refl

pass_form-timers :
    (head : TokenHeader) (roll : Roll) (gs : List RingInfo) (s : Formation) {t : Formation}
    → pass_form head roll gs s ≡ ok t
    → t.timers ≡ s.timers
unfolding pass_form
pass_form-timers head roll gs s {t} h = elim (List-cases roll.members.pending) [
  | inr (next, later, e) ↦
      subst (λ (z : Formation). z.timers ≡ s.timers) (ok-inj (rw (pass_form, e) at h)) refl
  | inl e ↦ elim (Option-cases (get_elem? roll.reps.reps roll.reps.rep_index)) [
    | inr (x, f) ↦
        subst (λ (z : Formation). z.timers ≡ s.timers) (ok-inj (rw (pass_form, e, f) at h)) refl
    | inl f ↦
        let (m, _, more) =
          >>=-eq-ok
            (sort_members s.proto.procs
              (record { members = roll.members.members; num_pending = 0 }))
            _ (rw (pass_form, e, f) at h) in
        elim (List-cases m.members) [
          | inl none_ ↦ absurd (exit-ne-ok (rw none_ at more))
          | inr (first, later, g) ↦
              subst (λ (z : Formation). z.timers ≡ s.timers) (ok-inj (rw g at more)) refl
        ]
  ]
]

fill_on-Sound :
    (head : TokenHeader) (roll : Roll) (gs : List RingInfo) (s : Formation) {t : Formation}
    → Off s.timers.gather_or_represented
    → Off s.timers.scast_alive
    → fill_on head roll gs s ≡ ok t
    → Sound t
unfolding fill_on
fill_on-Sound head roll gs s g a h =
    let (s1, one, h1) = >>=-eq-ok (failure_potentials roll.reps.reps s) _ h in
    let (entered, _, h2) = >>=-eq-ok (enter_ring roll gs s1) _ h1 in
    let (s2, two, done) =
      >>=-eq-ok (pass_form head (record roll { members = entered.0 }) entered.1 s1) _ h2 in
    let same =
      pass_form-timers head (record roll { members = entered.0 }) entered.1 s1 two
      ∙ failure_potentials-timers roll.reps.reps s one in
    subst Sound (ok-inj done) (
      shift_to_form-Sound (stop_gathering s2)
        (subst (λ (z : Timers). Off z.gather_or_represented) (sym same) g)
        (subst (λ (z : Timers). Off z.scast_alive) (sym same) a) refl refl)

-- The daemon's turn in OP and REPRESENTED.
turn-timers :
    (st : MembState) (roll : Roll) (s : Formation) {out : Roll × Formation}
    → (st ≡ op) ⊎ (st ≡ represented)
    → (memb s).state ≡ st
    → enter roll s ≡ ok (some out)
    → out.1.timers ≡ s.timers
unfolding enter
turn-timers st roll s (inl o) e h = elim (Option-cases (take_turn (my s).id roll.members)) [
  | inl no_turn ↦ let z = ok-inj (rw (enter, e, o, no_turn) at h) in absurd (none-ne-some z)
  | inr (m, turn) ↦
      subst (λ (z : Roll × Formation). z.1.timers ≡ s.timers)
        (some-inj (ok-inj (rw (enter, e, o, turn) at h))) refl
]
turn-timers st roll s (inr o) e h = elim (Option-cases (take_turn (my s).id roll.members)) [
  | inl no_turn ↦ let z = ok-inj (rw (enter, e, o, no_turn) at h) in absurd (none-ne-some z)
  | inr (m, turn) ↦
      subst (λ (z : Roll × Formation). z.1.timers ≡ s.timers)
        (some-inj (ok-inj (rw (enter, e, o, turn) at h))) refl
]

bring_mine-timers :
    (x : Rep) (roll : Roll) (s : Formation) {out : Roll × Formation}
    → bring_mine x roll s ≡ ok out
    → out.1.timers ≡ s.timers
unfolding bring_mine
bring_mine-timers x roll s h =
    let (m, _, done) = >>=-eq-ok (brought x roll s) _ h in
    subst (λ (z : Roll × Formation). z.1.timers ≡ s.timers) (ok-inj done) refl

gather-timers :
    (roll : Roll) (s : Formation) {out : Roll × Formation}
    → (memb s).state ≡ gather
    → enter roll s ≡ ok (some out)
    → out.1.timers ≡ s.timers
unfolding enter
gather-timers roll s e h = elim (List-cases roll.members.pending) [
  | inr (next, later, p) ↦ absurd (none-ne-some (ok-inj (rw (enter, e, p) at h)))
  | inl p ↦ elim (Option-cases (get_elem? roll.reps.reps roll.reps.rep_index)) [
    | inl nobody ↦ absurd (none-ne-some (ok-inj (rw (enter, e, p, nobody) at h)))
    | inr (x, found) ↦ elim (if-split (x.proc_id == (my s).id) (rw (enter, e, p, found) at h)) [
      | inr other ↦ absurd (none-ne-some (ok-inj other))
      | inl mine ↦
          let (out, run, done) = >>=-eq-ok (bring_mine x roll s) _ mine in
          subst (λ (z : Roll × Formation). z.1.timers ≡ s.timers) (some-inj (ok-inj done))
            (bring_mine-timers x roll s run)
    ]
  ]
]

module _ (head : TokenHeader) (m : FormMembers) (r : RepsInfo) (gs : List RingInfo) where
  fill_form1-Sound :
      (s : Formation) {t : Formation}
      → Off s.timers.gather_or_represented
      → Off s.timers.scast_alive
      → Sound s
      → ((out : Roll × Formation)
          → enter (record { members = m; reps = r }) s ≡ ok (some out)
          → out.1.timers ≡ s.timers)
      → fill_form1 head m r gs s ≡ ok t
      → Sound t
  unfolding fill_form1
  fill_form1-Sound s g a w same h =
      let (entered, one, h1) = >>=-eq-ok (enter (record { members = m; reps = r }) s) _ h in
      elim (Option-cases entered) [
        | inl no_turn ↦ subst Sound (ok-inj (rw no_turn at h1)) w
        | inr (out, turn) ↦
            let kept = same out (one ∙ ap ok turn) in
            fill_on-Sound _ out.0 gs out.1
              (subst (λ (z : Timers). Off z.gather_or_represented) (sym kept) g)
              (subst (λ (z : Timers). Off z.scast_alive) (sym kept) a) (rw turn at h1)
      ]

  pub handle_form1-Sound :
      (st : MembState) (now : SpTime) (s : Formation) {t : Formation}
      → (memb s).state ≡ st
      → Fits st (memb s).token_alive s.timers
      → handle_token now (form1 head m r gs) s ≡ ok t
      → Sound t
  unfolding handle_token
  handle_form1-Sound op now s e f h =
      let (l, _, h1) = >>=-eq-ok (leader (memb s).membership) _ (rw (handle_token, e) at h) in
      let w = Sound-of_Fits op s e f in
      elim (if-split (l == (my s).id) h1) [
        | inl lead ↦ subst Sound (ok-inj lead) w
        | inr other ↦
            fill_form1-Sound s f.2.gather_or_represented f.2.scast_alive w
              (λ out. turn-timers op (record { members = m; reps = r }) s (inl refl) e) other
      ]
  handle_form1-Sound seg now s e f h =
      subst Sound (ok-inj (rw (handle_token, e) at h)) (Sound-of_Fits seg s e f)
  handle_form1-Sound represented now s e f h =
      fill_form1-Sound s f.3 f.6 (Sound-of_Fits represented s e f)
        (λ out. turn-timers represented (record { members = m; reps = r }) s (inr refl) e)
        (rw (handle_token, e) at h)
  handle_form1-Sound gather now s e f h =
      fill_form1-Sound s f.3 f.5 (Sound-of_Fits gather s e f)
        (λ out. gather-timers (record { members = m; reps = r }) s e) (rw (handle_token, e) at h)
  handle_form1-Sound form now s e f h =
      subst Sound (ok-inj (rw (handle_token, e) at h)) (Sound-of_Fits form s e f)
  handle_form1-Sound evs now s e f h =
      subst Sound (ok-inj (rw (handle_token, e) at h)) (Sound-of_Fits evs s e f)
