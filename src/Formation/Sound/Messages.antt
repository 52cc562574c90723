-- ===== src/Formation/Sound/Messages.antt =====
-- Membership packets keep the timed calls right for the state.
use in5020_assignment.Prelude.{
  ℕ, ◌≡◌, refl, Bool, false, Bool-cases, ◌==◌, not, ltb, if-split, some, inl, inr, length, ok,
  >>=-eq-ok, exit-ne-ok, ok-inj, subst, sym, ◌∙◌, Option-cases, if◌then◌else◌,
}
use in5020_assignment.Conf.{leader, seg_leader}
use in5020_assignment.Memb.{MembState, op, seg, represented, gather, form, evs}
use in5020_assignment.Net.{Packet}
use in5020_assignment.Formation.{Rep, RepsInfo}
use in5020_assignment.Formation.State.{Formation, my, memb}
use in5020_assignment.Formation.Moves.{token_loss, shift_to_represented, scast_alive, insert_reps}
use in5020_assignment.Formation.Handlers.{
  take_member, lose_and_take, again_represented, handle_alive, join_in_op, from_my_rep,
  refer_to_rep, join_in_gather, handle_join, handle_message, in_conf, is_alive, is_join, is_refer,
}
use in5020_assignment.Wire.{is_regular}
use in5020_assignment.Formation.Sound.Search.{handle_foreign-Sound, handle_refer-Sound}
use in5020_assignment.Formation.Reps.{insert_rep, smallest_rep}
use in5020_assignment.Formation.Sound.{
  Off, Fits, Sound, token_loss-Sound, shift_to_gather-Sound, shift_to_represented-Sound, Alike,
  Alike-Sound, Sound-of_Fits,
}

lose_and_take-Sound :
    (id : ℕ) (s : Formation) {t : Formation}
    → Off s.timers.shift_to_seg
    → lose_and_take id s ≡ ok t
    → Sound t
unfolding lose_and_take take_member
lose_and_take-Sound id s off h =
    let (t, run, done) = >>=-eq-ok (token_loss s) _ h in
    subst Sound (ok-inj done) (token_loss-Sound s off run)

-- A handler's branch that leaves the state, or lets the token be lost.
lose_or_stay-Sound :
    (b : Bool) (id : ℕ) (s : Formation) {t : Formation}
    → Off s.timers.shift_to_seg
    → Sound s
    → (if b then lose_and_take id s else ok s) ≡ ok t
    → Sound t
lose_or_stay-Sound b id s off w h = elim (if-split b h) [
  | inl lost ↦ lose_and_take-Sound id s off lost
  | inr stays ↦ subst Sound (ok-inj stays) w
]

handle_alive-Sound :
    (st : MembState) (id : ℕ) (s : Formation) {t : Formation}
    → (memb s).state ≡ st
    → Fits st (memb s).token_alive s.timers
    → handle_alive id s ≡ ok t
    → Sound t
unfolding handle_alive take_member
handle_alive-Sound op id s e f h =
    let w = Sound-of_Fits op s e f in
    lose_or_stay-Sound _ id s f.2.shift_to_seg w (rw (handle_alive, e) at h)
handle_alive-Sound seg id s e f h =
    let w = Sound-of_Fits seg s e f in subst Sound (ok-inj (rw (handle_alive, e) at h)) w
handle_alive-Sound represented id s e f h =
    subst Sound (ok-inj (rw (handle_alive, e) at h))
      (Sound-of_Fits represented (again_represented s) e (f.0, f.1, refl, f.3, f.4, f.5, f.6))
handle_alive-Sound gather id s e f h =
    let w = Sound-of_Fits gather s e f in
    elim (if-split (not (memb s).token_alive) (rw (handle_alive, e) at h)) [
      | inl dead ↦ subst Sound (ok-inj dead) w
      | inr live ↦ lose_or_stay-Sound _ id s f.4 w live
    ]
handle_alive-Sound form id s e f h =
    let w = Sound-of_Fits form s e f in subst Sound (ok-inj (rw (handle_alive, e) at h)) w
handle_alive-Sound evs id s e f h =
    let w = Sound-of_Fits evs s e f in
    lose_or_stay-Sound _ id s f.2.shift_to_seg w (rw (handle_alive, e) at h)

-- A segment's representative that answers in SEG.
scast_alive-Alike : (code : ℕ) (s : Formation) → (code == 0) ≡ false → Alike s (scast_alive code s)
unfolding scast_alive
scast_alive-Alike code s h = rw (scast_alive, h) record { state = refl; live = refl; timers = refl }

refer_to_rep-Sound : (id : ℕ) (s : Formation) → Sound s → Sound (refer_to_rep id s)
refer_to_rep-Sound id s w = elim (Option-cases s.my_seg_rep) [
  | inl none_ ↦ rw none_ w
  | inr (r, e) ↦ rw e w
]

join_in_op-Sound :
    (id : ℕ) (first : Rep) (s : Formation) {t : Formation}
    → (memb s).state ≡ op
    → Fits op (memb s).token_alive s.timers
    → join_in_op id first s ≡ ok t
    → Sound t
unfolding join_in_op
join_in_op-Sound id first s e f h =
    let w = Sound-of_Fits op s e f in
    let (l, _, h1) = >>=-eq-ok (leader (memb s).membership) _ h in
    elim (if-split (l == (my s).id) h1) [
      | inl lead ↦
          subst Sound (ok-inj lead)
            (shift_to_gather-Sound _ (f.1 ∙ sym f.0) f.2.gather_or_represented f.2.shift_to_seg)
      | inr not_lead ↦ elim (if-split (first.seg_index == (my s).seg_index) not_lead) [
        | inr answered ↦ subst Sound (ok-inj answered) w
        | inl same ↦
            let (sl, _, h2) = >>=-eq-ok (seg_leader (memb s).membership (my s).seg_index) _ same in
            elim (Bool-cases (sl == (my s).id)) [
              | inl lead ↦ subst Sound (ok-inj (rw lead at h2)) w
              | inr other ↦ subst Sound (ok-inj (rw other at h2)) w
            ]
      ]
    ]

join_in_gather-Sound :
    (first : Rep) (reps : RepsInfo) (s : Formation) {t : Formation}
    → (memb s).state ≡ gather
    → Fits gather (memb s).token_alive s.timers
    → join_in_gather first reps s ≡ ok t
    → Sound t
unfolding join_in_gather
join_in_gather-Sound first reps s e f h =
    let (mine, _, h1) = >>=-eq-ok (insert_rep s.proto.procs s.f_reps first) _ h in
    let (potential, _, h2) =
      >>=-eq-ok (insert_reps s.proto.procs reps.reps s.potential_reps) _ h1 in
    let (best, _, h3) = >>=-eq-ok (smallest_rep s.proto.procs mine.0.reps) _ h2 in
    let s1 : Formation = record s { f_reps = mine.0; potential_reps = potential } in
    elim (Bool-cases (best.0.proc_id == first.proc_id)) [
      | inl smallest ↦ subst Sound (ok-inj (rw smallest at h3)) (
          Sound-of_Fits gather
            (record s1 { timers = record s1.timers { form_or_fail = some s.timeouts.gather } }) e
            (f.0, refl, f.2, f.3, f.4, f.5))
      | inr other ↦ subst Sound (ok-inj (rw other at h3)) (Sound-of_Fits gather s1 e f)
    ]

handle_join-Sound :
    (st : MembState) (id : ℕ) (first : Rep) (reps : RepsInfo) (s : Formation) {t : Formation}
    → (memb s).state ≡ st
    → Fits st (memb s).token_alive s.timers
    → handle_join id first reps s ≡ ok t
    → Sound t
unfolding handle_join
handle_join-Sound op id first reps s e f h =
    elim (if-split (in_conf (memb s).membership id) (rw (handle_join, e) at h)) [
      | inr other ↦ join_in_op-Sound id first s e f other
      | inl member ↦ elim (if-split (ltb 1 (length s.proto.cn.segments)) member) [
        | inl lost ↦ token_loss-Sound s f.2.shift_to_seg lost
        | inr stays ↦ subst Sound (ok-inj stays) (Sound-of_Fits op s e f)
      ]
    ]
handle_join-Sound seg id first reps s e f h =
    let (it, _, done) = >>=-eq-ok (from_my_rep id first s) _ (rw (handle_join, e) at h) in
    let s1 : Formation = record s { my_seg_rep = some id } in
    elim (Bool-cases it) [
      | inl mine ↦ subst Sound (ok-inj (rw mine at done)) (
          Alike-Sound (scast_alive-Alike 1 (shift_to_represented s1) refl)
            (shift_to_represented-Sound s1 f.0 f.1 f.4 f.5))
      | inr other ↦ subst Sound (ok-inj (rw other at done)) (Sound-of_Fits seg s e f)
    ]
handle_join-Sound represented id first reps s e f h =
    let (it, _, done) = >>=-eq-ok (from_my_rep id first s) _ (rw (handle_join, e) at h) in
    let s1 : Formation = again_represented (record s { my_seg_rep = some id }) in
    elim (Bool-cases it) [
      | inl mine ↦ subst Sound (ok-inj (rw mine at done)) (
          Alike-Sound (scast_alive-Alike 1 s1 refl)
            (Sound-of_Fits represented s1 e (f.0, f.1, refl, f.3, f.4, f.5, f.6)))
      | inr other ↦
          subst Sound (ok-inj (rw other at done))
            (refer_to_rep-Sound id s (Sound-of_Fits represented s e f))
    ]
handle_join-Sound gather id first reps s e f h =
    join_in_gather-Sound first reps s e f (rw (handle_join, e) at h)
handle_join-Sound form id first reps s e f h =
    subst Sound (ok-inj (rw (handle_join, e) at h)) (Sound-of_Fits form s e f)
handle_join-Sound evs id first reps s e f h =
    lose_or_stay-Sound _ id s f.2.shift_to_seg (Sound-of_Fits evs s e f) (rw (handle_join, e) at h)

-- `Memb_handle_message` keeps the timed calls right for the state.
pub handle_message-Sound :
    (p : Packet) (first : Rep) (reps : RepsInfo) (s : Formation) {t : Formation}
    → Sound s
    → handle_message p first reps s ≡ ok t
    → Sound t
unfolding handle_message
handle_message-Sound p first reps s w h =
    let st = (memb s).state in
    elim (if-split (is_alive p.head.type) h) [
      | inl alive ↦ handle_alive-Sound st p.head.proc_id s refl w alive
      | inr h1 ↦ elim (if-split (is_join p.head.type) h1) [
        | inl joins ↦ handle_join-Sound st p.head.proc_id first reps s refl w joins
        | inr h2 ↦ elim (if-split (is_refer p.head.type) h2) [
          | inl refers ↦
              handle_refer-Sound st p.head.memb_id.proc_id p.head.memb_id.time s refl w refers
          | inr h3 ↦ elim (if-split (is_regular p.head.type) h3) [
            | inl foreign ↦ handle_foreign-Sound st p s refl w foreign
            | inr unknown ↦ absurd (exit-ne-ok unknown)
          ]
        ]
      ]
    ]
