-- ===== src/Formation/Sound/Search.antt =====
-- The search for other daemons, in OP, keeps the timed calls right for the state.
use in5020_assignment.Prelude.{
  ℕ, ◌+◌, ◌≡◌, refl, Bool-cases, ◌==◌, ◌&&◌, not, if-split, Option-cases, inl, inr, List, [], ◌∷◌,
  length, ok, >>=-eq-ok, ok-inj, subst, sym, ◌∙◌, ◌%◌, ◌^◌, if◌then◌else◌,
}
use in5020_assignment.Conf.{Proc, Segment, id_in_conf, leader, seg_leader, proc_by_id}
use in5020_assignment.Memb.{MembState, op, seg, represented, gather, form, evs}
use in5020_assignment.Net.{Packet}
use in5020_assignment.Formation.{Rep, ring_rep}
use in5020_assignment.Formation.State.{Formation, MembPacket, ucast, scast, send, my, memb}
use in5020_assignment.Formation.Moves.{
  join_packet, my_rep, shift_to_gather, probe, probe_procs, probe_segments, lookup_new_members,
}
use in5020_assignment.Formation.Handlers.{foreign_in_op, handle_foreign, handle_refer}
use in5020_assignment.Formation.Reps.{insert_rep}
use in5020_assignment.Formation.Sound.{Fits, Sound, shift_to_gather-Sound, Alike, Sound-of_Fits}

Alike-trans : {s t u : Formation} → Alike s t → Alike t u → Alike s u
Alike-trans a b = record {
  state = b.state ∙ a.state;
  live = b.live ∙ a.live;
  timers = b.timers ∙ a.timers;
}

probe_procs-Alike :
    (p : MembPacket) (qs : List Proc) (n : ℕ) (s : Formation) → Alike s (probe_procs p qs (n, s)).1
unfolding probe_procs
probe_procs-Alike p [] n s = record { state = refl; live = refl; timers = refl }
probe_procs-Alike p (q ∷ qs) n s = elim (Option-cases (id_in_conf (memb s).reg_membership q.id)) [
  | inl missed ↦
      let a = probe_procs-Alike p qs (n + 1) (send (ucast q.id p) s) in
      rw (probe_procs, missed) record { state = a.state; live = a.live; timers = a.timers }
  | inr (i, member) ↦ rw (probe_procs, member) (probe_procs-Alike p qs n s)
]

probe_segments-Alike :
    (p : MembPacket) (cs : List Segment) (acc : ℕ × Formation)
    → Alike acc.1 (probe_segments p cs acc).1
unfolding probe_segments
probe_segments-Alike p [] acc = record { state = refl; live = refl; timers = refl }
probe_segments-Alike p (c ∷ cs) acc =
    Alike-trans (probe_procs-Alike p c.procs acc.0 acc.1)
      (probe_segments-Alike p cs (probe_procs p c.procs acc))

-- Where the search found daemons to ask, the daemon gathers.
probed-Sound :
    (n : ℕ) (s t : Formation)
    → (memb s).state ≡ op
    → Fits op (memb s).token_alive s.timers
    → Alike s t
    → Sound (if n == 0 then t else shift_to_gather t)
probed-Sound n s t e f a =
    let g =
      subst (λ z. Fits op z t.timers) (sym a.live)
        (subst (Fits op (memb s).token_alive) (sym a.timers) f) in
    elim (Bool-cases (n == 0)) [
      | inl nobody ↦ rw nobody (Sound-of_Fits op t (a.state ∙ e) g)
      | inr found ↦
          rw found
            (shift_to_gather-Sound t (g.1 ∙ sym g.0) g.2.gather_or_represented g.2.shift_to_seg)
    ]

probe-Sound :
    (s : Formation) → (memb s).state ≡ op → Fits op (memb s).token_alive s.timers → Sound (probe s)
unfolding probe
probe-Sound s e f =
    let s1 : Formation = record s {
      potential_reps = record s.potential_reps { reps = [] };
      f_reps = record s.f_reps { reps = my_rep ring_rep s ∷ [] };
      f_members = record { members = []; num_pending = 0 };
    } in
    let p = join_packet s1 in
    elim (Bool-cases (length s.proto.cn.segments == 1)) [
      | inl single ↦
          rw (probe, single)
            (probed-Sound 1 s (send (scast (my s).seg_index p) s1) e f
              (record { state = refl; live = refl; timers = refl }))
      | inr several ↦
          let out = probe_segments p s.proto.cn.segments (0, s1) in
          let a = probe_segments-Alike p s.proto.cn.segments (0, s1) in
          rw (probe, several)
            (probed-Sound out.0 s out.1 e f
              (record { state = a.state; live = a.live; timers = a.timers }))
    ]

pub lookup_new_members-Sound :
    (st : MembState) (s : Formation)
    → (memb s).state ≡ st
    → Fits st (memb s).token_alive s.timers
    → Sound (lookup_new_members s)
unfolding lookup_new_members
lookup_new_members-Sound op s e f = rw (lookup_new_members, e) (probe-Sound s e f)
lookup_new_members-Sound seg s e f = rw (lookup_new_members, e) (Sound-of_Fits seg s e f)
lookup_new_members-Sound represented s e f =
    rw (lookup_new_members, e) (Sound-of_Fits represented s e f)
lookup_new_members-Sound gather s e f = rw (lookup_new_members, e) (Sound-of_Fits gather s e f)
lookup_new_members-Sound form s e f = rw (lookup_new_members, e) (Sound-of_Fits form s e f)
lookup_new_members-Sound evs s e f = rw (lookup_new_members, e) (Sound-of_Fits evs s e f)

foreign_in_op-Sound :
    (p : Packet) (s : Formation) {t : Formation}
    → (memb s).state ≡ op
    → Fits op (memb s).token_alive s.timers
    → foreign_in_op p s ≡ ok t
    → Sound t
unfolding foreign_in_op
foreign_in_op-Sound p s e f h =
    let w = Sound-of_Fits op s e f in
    let m = (memb s).membership in
    let (l, _, h1) = >>=-eq-ok (leader m) _ h in
    elim (if-split (l == (my s).id) h1) [
      | inl lead ↦ subst Sound (ok-inj lead) (lookup_new_members-Sound op s e f)
      | inr other ↦
          let (sl, _, h2) = >>=-eq-ok (seg_leader m (my s).seg_index) _ other in
          elim (Bool-cases (sl == (my s).id && not (memb s).foreign_found)) [
            | inl tells ↦ subst Sound (ok-inj (rw tells at h2)) w
            | inr quiet ↦ subst Sound (ok-inj (rw quiet at h2)) w
          ]
    ]

pub handle_foreign-Sound :
    (st : MembState) (p : Packet) (s : Formation) {t : Formation}
    → (memb s).state ≡ st
    → Fits st (memb s).token_alive s.timers
    → handle_foreign p s ≡ ok t
    → Sound t
unfolding handle_foreign
handle_foreign-Sound op p s e f h = elim (Option-cases (proc_by_id s.proto.procs p.head.proc_id)) [
  | inl unknown ↦
      subst Sound (ok-inj (rw (handle_foreign, e, unknown) at h)) (Sound-of_Fits op s e f)
  | inr (kq, known) ↦ foreign_in_op-Sound p s e f (rw (handle_foreign, e, known) at h)
]
handle_foreign-Sound seg p s e f h =
    subst Sound (ok-inj (rw (handle_foreign, e) at h)) (Sound-of_Fits seg s e f)
handle_foreign-Sound represented p s e f h =
    subst Sound (ok-inj (rw (handle_foreign, e) at h)) (Sound-of_Fits represented s e f)
handle_foreign-Sound gather p s e f h =
    subst Sound (ok-inj (rw (handle_foreign, e) at h)) (Sound-of_Fits gather s e f)
handle_foreign-Sound form p s e f h =
    subst Sound (ok-inj (rw (handle_foreign, e) at h)) (Sound-of_Fits form s e f)
handle_foreign-Sound evs p s e f h =
    subst Sound (ok-inj (rw (handle_foreign, e) at h)) (Sound-of_Fits evs s e f)

pub handle_refer-Sound :
    (st : MembState) (id time : ℕ) (s : Formation) {t : Formation}
    → (memb s).state ≡ st
    → Fits st (memb s).token_alive s.timers
    → handle_refer id time s ≡ ok t
    → Sound t
unfolding handle_refer
handle_refer-Sound gather id time s e f h = elim (Option-cases (proc_by_id s.proto.procs id)) [
  | inl unknown ↦
      subst Sound (ok-inj (rw (handle_refer, e, unknown) at h)) (Sound-of_Fits gather s e f)
  | inr ((k, p), known) ↦
      let rep : Rep = record { proc_id = p.id; type = time % 2 ^ 16; seg_index = p.seg_index } in
      let (out, _, done) =
        >>=-eq-ok (insert_rep s.proto.procs s.potential_reps rep) _
          (rw (handle_refer, e, known) at h) in
      subst Sound (ok-inj done) (Sound-of_Fits gather (record s { potential_reps = out.0 }) e f)
]
handle_refer-Sound op id time s e f h =
    subst Sound (ok-inj (rw (handle_refer, e) at h)) (Sound-of_Fits op s e f)
handle_refer-Sound seg id time s e f h =
    subst Sound (ok-inj (rw (handle_refer, e) at h)) (Sound-of_Fits seg s e f)
handle_refer-Sound represented id time s e f h =
    subst Sound (ok-inj (rw (handle_refer, e) at h)) (Sound-of_Fits represented s e f)
handle_refer-Sound form id time s e f h =
    subst Sound (ok-inj (rw (handle_refer, e) at h)) (Sound-of_Fits form s e f)
handle_refer-Sound evs id time s e f h =
    subst Sound (ok-inj (rw (handle_refer, e) at h)) (Sound-of_Fits evs s e f)
