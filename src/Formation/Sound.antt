-- ===== src/Formation/Sound.antt =====
-- Which timed calls of daemon/membership.c are queued in which state, and that the moves keep it.
pub mod Messages
pub mod Search
pub mod Tokens
pub mod Reading
pub mod Calls
pub mod Runs
use in5020_assignment.Prelude.{
  ℕ, ◌≡◌, refl, Bool, true, false, Bool-cases, ◌==◌, ◌&&◌, ◌||◌, if-split, Option, none, some, ◌⊎◌,
  inl, inr, List, [], length, Faultable, ok, exit, ◌>>=◌, >>=-eq-ok, exit-ne-ok, ok-inj, subst, sym,
  ◌∙◌, arith,
}
use in5020_assignment.Events.Clock.{SpTime}
use in5020_assignment.Conf.{Configuration}
use in5020_assignment.Memb.{MembState, op, seg, represented, gather, form, evs}
use in5020_assignment.Proto.Backoff.{backoff_membership-Around}
use in5020_assignment.Formation.{Rep, potential_rep}
use in5020_assignment.Formation.State.{Formation, Timers, my, memb}
use in5020_assignment.Formation.Moves.{
  shift_to_seg, on_loss, before_loss, after_loss, token_loss, new_potentials, shift_to_gather,
  shift_to_represented, scast_alive, gather_or_represented, send_join, ucast_reps, insert_reps,
  insert_firsts, type_left,
}

abbrev pub is_queued : Option SpTime → Bool
is_queued none = false
is_queued (some d) = true

abbrev pub On : Option SpTime → Type 0
On o = is_queued o ≡ true

abbrev pub Off : Option SpTime → Type 0
Off o = is_queued o ≡ false

-- What of the calls of the search for a ring is queued: none in a ring.
pub record Quiet (t : Timers) : Type 0 where
  pub gather_or_represented : Off t.gather_or_represented
  pub shift_to_seg : Off t.shift_to_seg
  pub send_join : Off t.send_join
  pub form_or_fail : Off t.form_or_fail
  pub scast_alive : Off t.scast_alive

-- What is queued in a state, with or without a live token: always a call that leads on, and never the
-- loss of a token where there is none to lose.
abbrev pub Fits : MembState → Bool → Timers → Type 0
Fits op live t = (live ≡ true) × On t.token_loss × Quiet t
Fits evs live t = (live ≡ true) × On t.token_loss × Quiet t
Fits form live t = (live ≡ false) × On t.token_loss × Quiet t
Fits seg live t =
    (live ≡ false)
    × Off t.token_loss
    × On t.gather_or_represented
    × Off t.shift_to_seg
    × Off t.send_join
    × Off t.form_or_fail
Fits represented live t =
    (live ≡ false)
    × Off t.token_loss
    × On t.shift_to_seg
    × Off t.gather_or_represented
    × Off t.send_join
    × Off t.form_or_fail
    × Off t.scast_alive
Fits gather live t =
    (is_queued t.token_loss ≡ live)
    × On t.form_or_fail
    × On t.send_join
    × Off t.gather_or_represented
    × Off t.shift_to_seg
    × Off t.scast_alive

abbrev pub Sound : Formation → Type 0
Sound s = Fits (memb s).state (memb s).token_alive s.timers

pub Sound-of_Fits :
    (st : MembState) (s : Formation)
    → (memb s).state ≡ st
    → Fits st (memb s).token_alive s.timers
    → Sound s
Sound-of_Fits st s e f = subst (λ z. Fits z (memb s).token_alive s.timers) (sym e) f

-- Outside REPRESENTED the fall back to SEG is not queued.
pub Sound-shift :
    (st : MembState) (live : Bool) (t : Timers)
    → Fits st live t
    → (st ≡ represented) ⊎ Off t.shift_to_seg
Sound-shift op live t (_, _, q) = inr q.shift_to_seg
Sound-shift evs live t (_, _, q) = inr q.shift_to_seg
Sound-shift form live t (_, _, q) = inr q.shift_to_seg
Sound-shift seg live t h = inr h.3
Sound-shift represented live t h = inl refl
Sound-shift gather live t h = inr h.4

-- New potential representatives change nothing else.
new_potentials-rest :
    (config : Configuration) (first : List Rep) (s : Formation) {t : Formation}
    → new_potentials config first s ≡ ok t
    → (t.timers ≡ s.timers) × ((my t) ≡ (my s)) × ((memb t) ≡ (memb s))
unfolding new_potentials
new_potentials-rest config first s h =
    let procs = s.proto.procs in
    let cn = s.proto.cn in
    let (r, _, more) =
      >>=-eq-ok (insert_reps procs first (record s.potential_reps { reps = [] })) _ h in
    let (q, _, done) =
      >>=-eq-ok
        (insert_firsts procs cn config (type_left potential_rep first) (my s).seg_index
          (length cn.segments) 0 r)
        _ more in
    subst (λ (z : Formation). (z.timers ≡ s.timers) × ((my z) ≡ (my s)) × ((memb z) ≡ (memb s)))
      (ok-inj done) (refl, refl, refl)

pub on_loss-rest :
    (st : MembState) (s : Formation) {t : Formation}
    → on_loss st s ≡ ok t
    → (t.timers ≡ s.timers) × ((my t) ≡ (my s))
unfolding on_loss
on_loss-rest op s h = let r = new_potentials-rest _ _ _ h in (r.0, r.1)
on_loss-rest seg s h = absurd (exit-ne-ok h)
on_loss-rest represented s h = absurd (exit-ne-ok h)
on_loss-rest gather s h = elim (if-split (memb s).token_alive h) [
  | inl gathered ↦ let r = new_potentials-rest _ _ _ gathered in (r.0, r.1)
  | inr dead ↦ absurd (exit-ne-ok dead)
]
on_loss-rest form s h =
    subst (λ (z : Formation). (z.timers ≡ s.timers) × ((my z) ≡ (my s))) (ok-inj h) (refl, refl)
on_loss-rest evs s h =
    let r = new_potentials-rest _ _ _ h in (r.0, r.1 ∙ (backoff_membership-Around s.proto).my)

-- The loss of the token leads to SEG.
pub token_loss-Sound :
    (s : Formation) {t : Formation} → Off s.timers.shift_to_seg → token_loss s ≡ ok t → Sound t
unfolding token_loss before_loss after_loss shift_to_seg
token_loss-Sound s off h =
    let (s1, run, done) = >>=-eq-ok (before_loss s) _ h in
    let same = (on_loss-rest (memb s).state s run).0 in
    let off1 = subst (λ (z : Timers). Off z.shift_to_seg) (sym same) off in
    subst Sound (ok-inj done) (refl, refl, refl, off1, refl, refl)

module _ (s : Formation) where
  pub shift_to_gather-Sound :
      is_queued s.timers.token_loss ≡ (memb s).token_alive
      → Off s.timers.gather_or_represented
      → Off s.timers.shift_to_seg
      → Sound (shift_to_gather s)
  unfolding shift_to_gather
  shift_to_gather-Sound h g f = (h, refl, refl, g, f, refl)

  pub shift_to_represented-Sound :
      (memb s).token_alive ≡ false
      → Off s.timers.token_loss
      → Off s.timers.send_join
      → Off s.timers.form_or_fail
      → Sound (shift_to_represented s)
  unfolding shift_to_represented
  shift_to_represented-Sound dead l j f = (dead, l, refl, refl, j, f, refl)

-- Two states with the same state, life of the token and timers.
pub record Alike (s t : Formation) : Type 0 where
  pub state : (memb t).state ≡ (memb s).state
  pub live : (memb t).token_alive ≡ (memb s).token_alive
  pub timers : t.timers ≡ s.timers

pub Alike-Sound : {s t : Formation} → Alike s t → Sound s → Sound t
Alike-Sound {s} {t} a w =
    subst (λ z. Fits z (memb t).token_alive t.timers) (sym a.state)
      (subst (λ z. Fits (memb s).state z t.timers) (sym a.live)
        (subst (Fits (memb s).state (memb s).token_alive) (sym a.timers) w))
