-- ===== src/Formation/Sound/Runs.antt =====
-- What holds in every state that a daemon reaches from `Memb_init` of daemon/membership.c.
use in5020_assignment.Prelude.{
  ◌≡◌, Bool, Bool-cases, true, ◌==◌, none, some, inl, inr, List-cases, Option, ok, >>=-eq-ok,
  exit-ne-ok, ok-inj, subst, sym, ◌∙◌, ap,
}
use in5020_assignment.Events.Clock.{SpTime}
use in5020_assignment.Conf.{leader}
use in5020_assignment.Memb.{MembState, op, seg, represented, gather, form, evs, regular}
use in5020_assignment.Formation.State.{Formation, Timers, my, memb}
use in5020_assignment.Formation.Steps.{
  memb_regular, memb_init, subnet, is_wide, first_state, Step, message, form_token, due, protocol,
  installed, given_up, Reached, start, next,
}
use in5020_assignment.Formation.Sound.{On, Fits, Sound, Quiet, is_queued, token_loss-Sound}
use in5020_assignment.Formation.Sound.Messages.{handle_message-Sound}
use in5020_assignment.Formation.Sound.Reading.{handle_token-Sound}
use in5020_assignment.Formation.Sound.Calls.{fire-Sound}

-- The new time of the token's loss, and the other two calls of the protocol.
module _ (t : Timers) (loss hurry lookup : Option SpTime) where
  renewed : Timers
  renewed = record t { token_loss = loss; token_hurry = hurry; lookup_new_members = lookup }

  Quiet-renewed : Quiet t → Quiet renewed
  unfolding renewed
  Quiet-renewed q = record {
    gather_or_represented = q.gather_or_represented;
    shift_to_seg = q.shift_to_seg;
    send_join = q.send_join;
    form_or_fail = q.form_or_fail;
    scast_alive = q.scast_alive;
  }

  Fits-renewed :
      (st : MembState) (live : Bool)
      → is_queued loss ≡ is_queued t.token_loss
      → Fits st live t
      → Fits st live renewed
  unfolding renewed
  Fits-renewed op live e f = (f.0, e ∙ f.1, Quiet-renewed f.2)
  Fits-renewed form live e f = (f.0, e ∙ f.1, Quiet-renewed f.2)
  Fits-renewed evs live e f = (f.0, e ∙ f.1, Quiet-renewed f.2)
  Fits-renewed seg live e f = (f.0, e ∙ f.1, f.2, f.3, f.4, f.5)
  Fits-renewed represented live e f = (f.0, e ∙ f.1, f.2, f.3, f.4, f.5, f.6)
  Fits-renewed gather live e f = (e ∙ f.0, f.1, f.2, f.3, f.4, f.5)

-- While the token lives its loss is queued.
live-On :
    (st : MembState) (live : Bool) (t : Timers) → Fits st live t → live ≡ true → On t.token_loss
live-On op live t f h = f.1
live-On form live t f h = f.1
live-On evs live t f h = f.1
live-On gather live t f h = f.0 ∙ h
live-On seg live t f h = absurd cc
live-On represented live t f h = absurd cc

memb_regular-Sound :
    (s : Formation) {t : Formation}
    → (memb s).state ≡ evs
    → Fits evs (memb s).token_alive s.timers
    → memb_regular s ≡ ok t
    → Sound t
unfolding memb_regular regular
memb_regular-Sound s e f h =
    let (l, _, done) = >>=-eq-ok (leader (memb s).future_membership) _ h in
    let q : Quiet (record s.timers { lookup_new_members = some s.timeouts.lookup }) = record {
      gather_or_represented = f.2.gather_or_represented;
      shift_to_seg = f.2.shift_to_seg;
      send_join = f.2.send_join;
      form_or_fail = f.2.form_or_fail;
      scast_alive = f.2.scast_alive;
    } in
    elim (Bool-cases (l == (my s).id)) [
      | inl lead ↦ subst Sound (ok-inj (rw lead at done)) (f.0, f.1, q)
      | inr other ↦ subst Sound (ok-inj (rw other at done)) (f.0, f.1, f.2)
    ]

memb_init-Sound :
    (s : Formation) {t : Formation} → s.timers.shift_to_seg ≡ none → memb_init s ≡ ok t → Sound t
unfolding memb_init first_state
memb_init-Sound s off h = elim (List-cases s.proto.cn.segments) [
  | inl nobody ↦ absurd (exit-ne-ok (rw (memb_init, nobody) at h))
  | inr (c, cs, e) ↦
      let (reference, _, h1) = >>=-eq-ok (subnet c) _ (rw (memb_init, e) at h) in
      let (wide, _, lost) = >>=-eq-ok (is_wide reference cs) _ h1 in
      token_loss-Sound (first_state wide s) (ap is_queued off) lost
]

in_evs-Fits :
    (s : Formation) → (memb s).state ≡ evs → Sound s → Fits evs (memb s).token_alive s.timers
in_evs-Fits s e w = subst (λ z. Fits z (memb s).token_alive s.timers) e w

Step-Sound : {s t : Formation} → Step s t → Sound s → Sound t
unfolding renewed
Step-Sound {s} (message p first reps h) w = handle_message-Sound p first reps s w h
Step-Sound {s} (form_token now tok h) w = handle_token-Sound now tok s w h
Step-Sound {s} (due c blank q h) w = fire-Sound c blank s w q h
Step-Sound {s} (protocol p loss hurry lookup b) w =
    let st = (memb s).state in
    let live = (memb s).token_alive in
    let same : is_queued loss ≡ is_queued s.timers.token_loss = elim b.renewed [
      | inl kept ↦ ap is_queued kept
      | inr (lives, on) ↦ on ∙ sym (live-On st live s.timers w lives)
    ] in
    let f = Fits-renewed s.timers loss hurry lookup st live same w in
    let t = renewed s.timers loss hurry lookup in
    subst (λ z. Fits z p.memb.token_alive t) (sym b.state) (subst (λ z. Fits st z t) (sym b.live) f)
Step-Sound {s} (installed e h) w = memb_regular-Sound s e (in_evs-Fits s e w) h
Step-Sound {s} (given_up e h) w = token_loss-Sound s (in_evs-Fits s e w).2.shift_to_seg h

-- In every state that a daemon reaches from `Memb_init` while no packet asks it to reload its
-- configuration, whatever membership packets, foreign packets and form tokens come and in whatever
-- order its timed calls fall due, the queue of timed calls fits the state. In OP, FORM and
-- EVS the loss of the token is queued and no call of the search for a ring. In SEG it is
-- `Gather_or_represented`, in REPRESENTED `Shift_to_seg`, in GATHER `Send_join` and `Form_or_fail`
-- that lead on, and there the loss of the token is queued just if the token is alive, which it is in
-- OP and EVS and is not in SEG, REPRESENTED and FORM. So no state waits for nothing, and
-- `Memb_token_loss` is not due in a state in which it ends the daemon.
pub Reached-Sound : {s t : Formation} → Reached s t → Sound t
Reached-Sound {s} (start off h) = memb_init-Sound s off h
Reached-Sound (next r st) = Step-Sound st (Reached-Sound r)
