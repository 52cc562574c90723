-- ===== src/Formation/Sound/Calls.antt =====
-- The timed calls keep what is queued right for the state.
use in5020_assignment.Prelude.{
  ℕ, ◌≡◌, refl, Bool, Bool-cases, true, false, ◌==◌, ◌&&◌, if-split, if-cases, if◌then◌else◌,
  Option-cases, List-cases, get_elem?, ◌+◌, none, some, inl, inr, List, [], ◌∷◌, length, ok,
  >>=-eq-ok, exit-ne-ok, ok-inj, subst, sym, ◌∙◌,
}
use in5020_assignment.Events.Clock.{SpTime}
use in5020_assignment.Wire.{TokenHeader}
use in5020_assignment.Memb.{MembState, op, seg, represented, gather, form, evs}
use in5020_assignment.Formation.{Rep}
use in5020_assignment.Formation.State.{
  MembPacket, scast, ucast, send, Formation, Timers, RingInfo, my, memb, only_me,
}
use in5020_assignment.Formation.Members.{smallest_member}
use in5020_assignment.Formation.Reps.{smallest_rep, sort_reps}
use in5020_assignment.Formation.Moves.{
  gather_or_represented, scast_alive, send_join, ucast_reps, join_packet, shift_to_seg, token_loss,
  insert_reps, rest_of,
}
use in5020_assignment.Formation.Form.{form1_type, failure_potentials}
use in5020_assignment.Formation.Create.{
  form_members, new_ring, send_form1, create_form1, back_to_op, gather_again, form_or_fail,
}
use in5020_assignment.Formation.Steps.{
  Call, alive_due, represent_due, seg_due, join_due, form_due, loss_due, lookup_due, queued,
  unqueue, call, fire,
}
use in5020_assignment.Formation.Sound.{
  On, Off, Fits, Sound, Quiet, is_queued, Sound-of_Fits, token_loss-Sound, shift_to_gather-Sound,
  shift_to_represented-Sound, Alike,
}
use in5020_assignment.Formation.Sound.Search.{lookup_new_members-Sound}
use in5020_assignment.Formation.Sound.Tokens.{shift_to_form-Sound, failure_potentials-timers}

clash {ℓ} : {A : Type ℓ} {b : Bool} → b ≡ true → b ≡ false → A
clash h k = absurd cc

and_true : (a b : Bool) → (a && b) ≡ true → a ≡ true
and_true true b h = refl
and_true false b h = cc

quiet : (t : Timers) → Quiet t → Quiet (record t { lookup_new_members = none })
quiet t q = record {
  gather_or_represented = q.gather_or_represented;
  shift_to_seg = q.shift_to_seg;
  send_join = q.send_join;
  form_or_fail = q.form_or_fail;
  scast_alive = q.scast_alive;
}

abbrev without : Call → Formation → Formation
without c s = record s { timers = unqueue c s.timers }

alive_due-Sound :
    (st : MembState) (s : Formation)
    → (memb s).state ≡ st
    → Fits st (memb s).token_alive s.timers
    → On s.timers.scast_alive
    → Sound (scast_alive 0 (without alive_due s))
unfolding scast_alive
alive_due-Sound seg s e f h = Sound-of_Fits seg (scast_alive 0 (without alive_due s)) e f
alive_due-Sound op s e f h = clash h f.2.scast_alive
alive_due-Sound form s e f h = clash h f.2.scast_alive
alive_due-Sound evs s e f h = clash h f.2.scast_alive
alive_due-Sound represented s e f h = clash h f.6
alive_due-Sound gather s e f h = clash h f.5

represent_due-Sound :
    (st : MembState) (s : Formation) {t : Formation}
    → Fits st (memb s).token_alive s.timers
    → On s.timers.gather_or_represented
    → gather_or_represented (without represent_due s) ≡ ok t
    → Sound t
unfolding gather_or_represented
represent_due-Sound seg s f h run =
    let s1 : Formation = record (without represent_due s) { my_seg_rep = none } in
    let (best, _, done) = >>=-eq-ok (smallest_member s.proto.procs s.f_members.members) _ run in
    elim (Bool-cases (best.0 == (my s).id)) [
      | inl mine ↦
          subst Sound (ok-inj (rw mine at done)) (shift_to_gather-Sound s1 (f.1 ∙ sym f.0) refl f.3)
      | inr other ↦
          subst Sound (ok-inj (rw other at done)) (shift_to_represented-Sound s1 f.0 f.1 f.4 f.5)
    ]
represent_due-Sound op s f h run = clash h f.2.gather_or_represented
represent_due-Sound form s f h run = clash h f.2.gather_or_represented
represent_due-Sound evs s f h run = clash h f.2.gather_or_represented
represent_due-Sound represented s f h run = clash h f.3
represent_due-Sound gather s f h run = clash h f.3

seg_due-Sound :
    (st : MembState) (s : Formation)
    → Fits st (memb s).token_alive s.timers
    → On s.timers.shift_to_seg
    → Sound (shift_to_seg (without seg_due s))
unfolding shift_to_seg
seg_due-Sound represented s f h = (f.0, f.1, refl, refl, f.4, f.5)
seg_due-Sound op s f h = clash h f.2.shift_to_seg
seg_due-Sound form s f h = clash h f.2.shift_to_seg
seg_due-Sound evs s f h = clash h f.2.shift_to_seg
seg_due-Sound seg s f h = clash h f.3
seg_due-Sound gather s f h = clash h f.4

ucast_reps-Alike : (p : MembPacket) (xs : List Rep) (s : Formation) → Alike s (ucast_reps p xs s)
unfolding ucast_reps
ucast_reps-Alike p [] s = record { state = refl; live = refl; timers = refl }
ucast_reps-Alike p (x ∷ xs) s =
    let a = ucast_reps-Alike p xs (send (ucast x.proc_id p) s) in
    record { state = a.state; live = a.live; timers = a.timers }

join_here-Alike :
    (b : Bool) (s : Formation) (p : MembPacket)
    → Alike s (if b then s else send (scast (my s).seg_index p) s)
join_here-Alike true s p = record { state = refl; live = refl; timers = refl }
join_here-Alike false s p = record { state = refl; live = refl; timers = refl }

-- What GATHER asks of the calls but the next join.
Joining : Bool → Timers → Type 0
Joining live t =
    (is_queued t.token_loss ≡ live)
    × On t.form_or_fail
    × Off t.gather_or_represented
    × Off t.shift_to_seg
    × Off t.scast_alive

rejoin-Sound :
    (s t : Formation) (delay : SpTime)
    → (memb s).state ≡ gather
    → Joining (memb s).token_alive s.timers
    → Alike s t
    → Sound (record t { timers = record t.timers { send_join = some delay } })
unfolding Joining
rejoin-Sound s t delay e j a =
    let k =
      subst (λ z. Joining z t.timers) (sym a.live)
        (subst (Joining (memb s).token_alive) (sym a.timers) j) in
    Sound-of_Fits gather (record t { timers = record t.timers { send_join = some delay } })
      (a.state ∙ e) (k.0, k.1, refl, k.2, k.3, k.4)

join_due-Sound :
    (st : MembState) (s : Formation)
    → (memb s).state ≡ st
    → Fits st (memb s).token_alive s.timers
    → On s.timers.send_join
    → Sound (send_join (without join_due s))
unfolding send_join Joining
join_due-Sound gather s e f h =
    let s0 = without join_due s in
    let p = join_packet s0 in
    let s1 : Formation =
      if (memb s0).token_alive then s0 else send (scast (my s0).seg_index p) s0 in
    let a = ucast_reps-Alike p s0.potential_reps.reps s1 in
    let first : Alike s0 s1 = join_here-Alike (memb s0).token_alive s0 p in
    rejoin-Sound s0 (ucast_reps p s0.potential_reps.reps s1) s.timeouts.join e
      (f.0, f.1, f.3, f.4, f.5)
      (record {
        state = a.state ∙ first.state;
        live = a.live ∙ first.live;
        timers = a.timers ∙ first.timers;
      })
join_due-Sound op s e f h = clash h f.2.send_join
join_due-Sound form s e f h = clash h f.2.send_join
join_due-Sound evs s e f h = clash h f.2.send_join
join_due-Sound seg s e f h = clash h f.4
join_due-Sound represented s e f h = clash h f.4

send_form1-timers :
    (head : TokenHeader) (first : ℕ) (later : List ℕ) (g : RingInfo) (s : Formation)
    → (send_form1 head first later g s).timers ≡ s.timers
unfolding send_form1
send_form1-timers head first (n ∷ ns) g s = refl
send_form1-timers head first [] g s =
    elim (Option-cases (get_elem? s.f_reps.reps s.f_reps.rep_index)) [
      | inl alone ↦ rw (send_form1, alone) refl
      | inr (x, more) ↦ rw (send_form1, more) refl
    ]

create_form1-Sound :
    (blank : TokenHeader) (s : Formation) {t : Formation}
    → Off s.timers.gather_or_represented
    → Off s.timers.scast_alive
    → Off s.timers.shift_to_seg
    → Off s.timers.form_or_fail
    → create_form1 blank s ≡ ok t
    → Sound t
unfolding create_form1
create_form1-Sound blank s g a h f run = elim (List-cases (form_members s)) [
  | inl nobody ↦ absurd (exit-ne-ok (rw (create_form1, nobody) at run))
  | inr (first, later, e) ↦
      let (sorted, _, h1) =
        >>=-eq-ok (sort_reps s.proto.procs s.f_reps) _ (rw (create_form1, e) at run) in
      let s0 : Formation = record s {
        f_members = record { members = first ∷ []; num_pending = length later };
        f_reps = record sorted { rep_index = 1 };
      } in
      let (s1, two, done) = >>=-eq-ok (failure_potentials sorted.reps s0) _ h1 in
      let head : TokenHeader = record blank {
        seq = s.proto.highest_seq + 3333;
        proc_id = (my s).id;
        type = form1_type;
      } in
      let s2 = send_form1 head first later (new_ring s1) s1 in
      let same =
        send_form1-timers head first later (new_ring s1) s1
        ∙ failure_potentials-timers sorted.reps s0 two in
      subst Sound (ok-inj done) (
        shift_to_form-Sound s2 (subst (λ (z : Timers). Off z.gather_or_represented) (sym same) g)
          (subst (λ (z : Timers). Off z.scast_alive) (sym same) a)
          (subst (λ (z : Timers). Off z.shift_to_seg) (sym same) h)
          (subst (λ (z : Timers). Off z.form_or_fail) (sym same) f))
]

back_to_op-Sound :
    (s : Formation)
    → (memb s).token_alive ≡ true
    → On s.timers.token_loss
    → Off s.timers.gather_or_represented
    → Off s.timers.shift_to_seg
    → Off s.timers.form_or_fail
    → Off s.timers.scast_alive
    → Sound (back_to_op s)
unfolding back_to_op
back_to_op-Sound s live l g h f a = (
  live,
  l,
  record {
    gather_or_represented = g;
    shift_to_seg = h;
    send_join = refl;
    form_or_fail = f;
    scast_alive = a;
  },
)

gather_again-Sound :
    (s : Formation) {t : Formation}
    → is_queued s.timers.token_loss ≡ (memb s).token_alive
    → Off s.timers.gather_or_represented
    → Off s.timers.shift_to_seg
    → gather_again s ≡ ok t
    → Sound t
unfolding gather_again
gather_again-Sound s l g h run =
    let (r, _, done) =
      >>=-eq-ok
        (insert_reps s.proto.procs (rest_of s.f_reps.reps) (record s.potential_reps { reps = [] }))
        _ run in
    subst Sound (ok-inj done)
      (shift_to_gather-Sound (record s { f_members = only_me s; potential_reps = r }) l g h)

form_due-Sound :
    (st : MembState) (blank : TokenHeader) (s : Formation) {t : Formation}
    → Fits st (memb s).token_alive s.timers
    → On s.timers.form_or_fail
    → form_or_fail blank (without form_due s) ≡ ok t
    → Sound t
unfolding form_or_fail
form_due-Sound gather blank s f h run =
    let s0 = without form_due s in
    let (best, _, h1) = >>=-eq-ok (smallest_rep s.proto.procs s.f_reps.reps) _ run in
    let live = (memb s).token_alive in
    elim (if-split (best.0.proc_id == (my s).id) h1) [
      | inl mine ↦ elim (if-cases (live && length s.f_reps.reps == 1) mine) [
        | inr (_, forms) ↦ create_form1-Sound blank s0 f.3 f.5 f.4 refl forms
        | inl (alone, back) ↦
            let lives = and_true live (length s.f_reps.reps == 1) alone in
            subst Sound (ok-inj back) (back_to_op-Sound s0 lives (f.0 ∙ lives) f.3 f.4 refl f.5)
      ]
      | inr other ↦ elim (if-cases live other) [
        | inl (lives, back) ↦
            subst Sound (ok-inj back) (back_to_op-Sound s0 lives (f.0 ∙ lives) f.3 f.4 refl f.5)
        | inr (_, again) ↦ gather_again-Sound s0 f.0 f.3 f.4 again
      ]
    ]
form_due-Sound op blank s f h run = clash h f.2.form_or_fail
form_due-Sound form blank s f h run = clash h f.2.form_or_fail
form_due-Sound evs blank s f h run = clash h f.2.form_or_fail
form_due-Sound seg blank s f h run = clash h f.5
form_due-Sound represented blank s f h run = clash h f.5

loss_due-Sound :
    (st : MembState) (s : Formation) {t : Formation}
    → Fits st (memb s).token_alive s.timers
    → On s.timers.token_loss
    → token_loss (without loss_due s) ≡ ok t
    → Sound t
loss_due-Sound op s f h run = token_loss-Sound (without loss_due s) f.2.shift_to_seg run
loss_due-Sound form s f h run = token_loss-Sound (without loss_due s) f.2.shift_to_seg run
loss_due-Sound evs s f h run = token_loss-Sound (without loss_due s) f.2.shift_to_seg run
loss_due-Sound gather s f h run = token_loss-Sound (without loss_due s) f.4 run
loss_due-Sound seg s f h run = clash h f.1
loss_due-Sound represented s f h run = clash h f.1

-- That the search for others is taken out of the queue changes nothing here.
lookup_due-Fits :
    (st : MembState) (live : Bool) (t : Timers)
    → Fits st live t
    → Fits st live (record t { lookup_new_members = none })
lookup_due-Fits op live t f = (f.0, f.1, quiet t f.2)
lookup_due-Fits form live t f = (f.0, f.1, quiet t f.2)
lookup_due-Fits evs live t f = (f.0, f.1, quiet t f.2)
lookup_due-Fits seg live t f = f
lookup_due-Fits represented live t f = f
lookup_due-Fits gather live t f = f

-- Every timed call that falls due.
pub fire-Sound :
    (c : Call) (blank : TokenHeader) (s : Formation) {t : Formation}
    → Sound s
    → On (queued c s.timers)
    → fire c blank s ≡ ok t
    → Sound t
unfolding fire call
fire-Sound alive_due blank s w h run =
    subst Sound (ok-inj run) (alive_due-Sound (memb s).state s refl w h)
fire-Sound represent_due blank s w h run = represent_due-Sound (memb s).state s w h run
fire-Sound seg_due blank s w h run = subst Sound (ok-inj run) (seg_due-Sound (memb s).state s w h)
fire-Sound join_due blank s w h run =
    subst Sound (ok-inj run) (join_due-Sound (memb s).state s refl w h)
fire-Sound form_due blank s w h run = form_due-Sound (memb s).state blank s w h run
fire-Sound loss_due blank s w h run = loss_due-Sound (memb s).state s w h run
fire-Sound lookup_due blank s w h run = subst Sound (ok-inj run) (
    lookup_new_members-Sound (memb s).state (without lookup_due s) refl
      (lookup_due-Fits (memb s).state (memb s).token_alive s.timers w))
