-- ===== src/Formation/Sound/Reading.antt =====
-- The form2 token keeps the timed calls right for the state.
use in5020_assignment.Prelude.{
  ℕ, ℤ, ◌≡◌, refl, Bool-cases, ◌==◌, Option-cases, inl, inr, List, ◌++◌, ok, >>=-eq-ok, exit-ne-ok,
  ok-inj, subst, sym, ◌∙◌,
}
use in5020_assignment.Events.Clock.{SpTime}
use in5020_assignment.Wire.{TokenHeader, MembershipId}
use in5020_assignment.Conf.{last}
use in5020_assignment.Memb.{MembState, op, seg, represented, gather, form, evs}
use in5020_assignment.Net.Route.{set_membership}
use in5020_assignment.Formation.State.{
  Formation, FormMembers, FormToken, RingInfo, form1, form2, my, memb, emptied_all,
}
use in5020_assignment.Formation.Fill.{take_turn, ring_of}
use in5020_assignment.Formation.Read.{
  name_membership, add_members, install_future, install_ring, take_ring, send_form2, set_trans_time,
  shift_to_evs, read_on, read_form2,
}
use in5020_assignment.Formation.Handlers.{handle_token}
use in5020_assignment.Formation.Sound.{Fits, Sound, Quiet, Sound-of_Fits}
use in5020_assignment.Formation.Sound.Tokens.{handle_form1-Sound}

module _ (m : FormMembers) (head : TokenHeader) (id : MembershipId) where
  install_future-timers :
      (s : Formation) {t : Formation} → install_future m id head s ≡ ok t → t.timers ≡ s.timers
  unfolding install_future
  install_future-timers s h =
      let (segs, _, h1) =
        >>=-eq-ok
          (add_members s.proto.procs (m.members ++ m.pending) (emptied_all s.proto.cn.segments)) _
          h in
      let (routed, _, done) =
        >>=-eq-ok (set_membership (my s) (record s.proto.cn { segments = segs }) s.proto.net) _
          h1 in
      subst (λ (z : Formation). z.timers ≡ s.timers) (ok-inj done) refl

  send_form2-timers :
      (gs : List RingInfo) (s : Formation) {t : Formation}
      → send_form2 head m id gs s ≡ ok t
      → t.timers ≡ s.timers
  unfolding send_form2
  send_form2-timers gs s h =
      let (end_, _, done) = >>=-eq-ok (last (memb s).future_membership) _ h in
      elim (Bool-cases (end_ == (my s).id)) [
        | inl mine ↦ subst (λ (z : Formation). z.timers ≡ s.timers) (ok-inj (rw mine at done)) refl
        | inr other ↦
            subst (λ (z : Formation). z.timers ≡ s.timers) (ok-inj (rw other at done)) refl
      ]

install_ring-timers :
    (now : SpTime) (g : RingInfo) (memb_time used : ℤ) (s : Formation) {out : ℕ × Formation}
    → install_ring now g memb_time used s ≡ ok out
    → out.1.timers ≡ s.timers
unfolding install_ring
install_ring-timers now g memb_time used s h =
    let (p, _, done) = >>=-eq-ok (take_ring g s) _ h in
    subst (λ (z : ℕ × Formation). z.1.timers ≡ s.timers) (ok-inj done) refl

module _ (now : SpTime) (head : TokenHeader) (m : FormMembers) (id : MembershipId)
    (gs : List RingInfo) where
  read_on-Sound :
      (s : Formation) {t : Formation} → Quiet s.timers → read_on now head m id gs s ≡ ok t → Sound t
  unfolding read_on shift_to_evs
  read_on-Sound s q h =
      let n = name_membership now m id s in
      let mine = (memb s).membership_id in
      let (s1, one, h1) = >>=-eq-ok (install_future m n.0 head s) _ h in
      elim (Option-cases (ring_of mine gs)) [
        | inl lost ↦ absurd (exit-ne-ok (rw lost at h1))
        | inr (g, found) ↦
            let (out, two, h2) = >>=-eq-ok (install_ring now g n.1 n.2 s1) _ (rw found at h1) in
            let (s3, three, done) =
              >>=-eq-ok (send_form2 head m n.0 (set_trans_time mine out.0 gs) out.1) _ h2 in
            let same =
              send_form2-timers m head n.0 (set_trans_time mine out.0 gs) out.1 three
              ∙ (install_ring-timers now g n.1 n.2 s1 two
                  ∙ install_future-timers m head n.0 s one) in
            let q3 = subst Quiet (sym same) q in
            subst Sound (ok-inj done) (
              refl,
              refl,
              record {
                gather_or_represented = q3.gather_or_represented;
                shift_to_seg = q3.shift_to_seg;
                send_join = q3.send_join;
                form_or_fail = q3.form_or_fail;
                scast_alive = q3.scast_alive;
              },
            )
      ]

module _ (now : SpTime) (head : TokenHeader) (m : FormMembers) (id : MembershipId)
    (gs : List RingInfo) where
  handle_form2-Sound :
      (st : MembState) (s : Formation) {t : Formation}
      → (memb s).state ≡ st
      → Fits st (memb s).token_alive s.timers
      → handle_token now (form2 head m id gs) s ≡ ok t
      → Sound t
  unfolding handle_token read_form2
  handle_form2-Sound form s e f h = elim (Option-cases (take_turn (my s).id m)) [
    | inl no_turn ↦
        subst Sound (ok-inj (rw (handle_token, e, read_form2, no_turn) at h))
          (Sound-of_Fits form s e f)
    | inr (m1, turn) ↦
        read_on-Sound now (record head { proc_id = (my s).id }) m1 id gs s f.2
          (rw (handle_token, e, read_form2, turn) at h)
  ]
  handle_form2-Sound op s e f h =
      subst Sound (ok-inj (rw (handle_token, e) at h)) (Sound-of_Fits op s e f)
  handle_form2-Sound seg s e f h =
      subst Sound (ok-inj (rw (handle_token, e) at h)) (Sound-of_Fits seg s e f)
  handle_form2-Sound represented s e f h =
      subst Sound (ok-inj (rw (handle_token, e) at h)) (Sound-of_Fits represented s e f)
  handle_form2-Sound gather s e f h =
      subst Sound (ok-inj (rw (handle_token, e) at h)) (Sound-of_Fits gather s e f)
  handle_form2-Sound evs s e f h =
      subst Sound (ok-inj (rw (handle_token, e) at h)) (Sound-of_Fits evs s e f)

pub handle_token-Sound :
    (now : SpTime) (tok : FormToken) (s : Formation) {t : Formation}
    → Sound s
    → handle_token now tok s ≡ ok t
    → Sound t
handle_token-Sound now (form1 head m r gs) s w h =
    handle_form1-Sound head m r gs (memb s).state now s refl w h
handle_token-Sound now (form2 head m id gs) s w h =
    handle_form2-Sound now head m id gs (memb s).state s refl w h
