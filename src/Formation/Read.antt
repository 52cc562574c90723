-- ===== src/Formation/Read.antt =====
-- daemon/membership.c: `Read_form2`, by which a daemon takes the new membership and the state of its
-- old ring from a form2 token.
use in5020_assignment.Prelude.{
  ℕ, ℤ, pos, negsuc, zero, suc, ◌-◌, ◌%◌, ◌^◌, ◌+ℤ◌, ltb_ℤ, eqb_ℤ, true, ◌==◌, ltb, if◌then◌else◌,
  none, some, List, [], ◌∷◌, ◌++◌, length, Faultable, ok, exit, ◌>>=◌,
}
use in5020_assignment.Events.Clock.{SpTime}
use in5020_assignment.Wire.{TokenHeader, MembershipId, memb_is_equal}
use in5020_assignment.Conf.{Proc, Segment, proc_by_id, append_id_to_seg, last}
use in5020_assignment.Memb.{evs}
use in5020_assignment.Net.Route.{set_membership}
use in5020_assignment.Proto.{Proto, entry, set_exist}
use in5020_assignment.Proto.Flow.{fc_new_configuration}
use in5020_assignment.Proto.Discard.{discard_packets}
use in5020_assignment.Formation.State.{
  Formation, RingInfo, FormMembers, form2, form2_on, first_token, my, memb, send, emptied_all,
}
use in5020_assignment.Formation.Fill.{take_turn, ring_of}

-- The pattern of an `int32`, and its value.
abbrev pub bits32 : ℤ → ℕ
bits32 (pos n) = n % 2 ^ 32
bits32 (negsuc n) = 2 ^ 32 - 1 - n % 2 ^ 32

abbrev pub value32 : ℕ → ℤ
value32 m = if ltb (m % 2 ^ 32) (2 ^ 31) then pos (m % 2 ^ 32) else negsuc (2 ^ 32 - 1 - m % 2 ^ 32)

abbrev pub to_int32 : ℤ → ℤ
to_int32 z = value32 (bits32 z)

-- A time that was not used before: the clock's, or one past the last one used.
unfoldable pub fresh_time : SpTime → ℤ → ℤ
fresh_time now last_time_used =
    let memb_time = to_int32 now.sec in
    if ltb_ℤ last_time_used memb_time then memb_time else to_int32 (last_time_used +ℤ pos 1)

-- Puts the daemon of an identifier to its segment.
unfoldable pub add_member : List Proc → ℕ → List Segment → Faultable (List Segment)
add_member procs id segs = elim (proc_by_id procs id) [
  | some (k, p) ↦ put p.seg_index p.id segs
  | none ↦ exit
]
  where
    put : ℕ → ℕ → List Segment → Faultable (List Segment)
    put k id [] = exit
    put zero id (c ∷ cs) =
        let added = append_id_to_seg procs c id in if added.1 then ok (added.0 ∷ cs) else exit
    put (suc k) id (c ∷ cs) = put k id cs >>= λ rest. ok (c ∷ rest)

-- the loop that builds the future membership
unfoldable pub add_members : List Proc → List ℕ → List Segment → Faultable (List Segment)
add_members procs [] segs = ok segs
add_members procs (id ∷ ids) segs = add_member procs id segs >>= λ more. add_members procs ids more

-- The loop that puts a dummy for each hole of the old ring.
unfoldable pub put_dummies : List ℕ → Proto → Faultable Proto
put_dummies [] p = ok p
put_dummies (i ∷ is) p =
    let rest = put_dummies is (set_exist (entry i) 3 p) in
    if (p.packets (entry i)).exist == 0 then rest else exit

-- The ring's entry in the token once its transitional time is set: every entry of the ring that is
-- the last one of it.
unfoldable pub set_trans_time : MembershipId → ℕ → List RingInfo → List RingInfo
set_trans_time id t [] = []
set_trans_time id t (g ∷ gs) =
    let rest = g ∷ set_trans_time id t gs in
    let here = record g { trans_time = t } ∷ gs in
    elim (ring_of id gs) [
      | some h ↦ rest
      | none ↦ if memb_is_equal g.memb_id id then here else rest
    ]

-- The identifier that the first member gives the membership, and what the times are then:
-- `memb_time` (0 for a daemon that is not the first) and `Last_time_used`.
unfoldable pub name_membership :
    SpTime → FormMembers → MembershipId → Formation → MembershipId × ℤ × ℤ
name_membership now m id s =
    let memb_time = fresh_time now s.last_time_used in
    let next = to_int32 (memb_time +ℤ pos 1) in
    if length m.members == 1
    then (record { proc_id = (my s).id; time = bits32 next }, memb_time, next)
    else (id, pos 0, s.last_time_used)

-- The transitional time of the ring, set if nobody of the ring did: then also `Last_time_used`.
unfoldable pub trans_times : SpTime → ℕ → ℤ → ℤ → ℕ × ℤ
trans_times now trans_time memb_time last_time_used =
    let t = fresh_time now last_time_used in
    if trans_time == 0
    then (if eqb_ℤ memb_time (pos 0) then (bits32 t, t) else (bits32 memb_time, last_time_used))
    else (trans_time, last_time_used)

-- The state of the old ring taken over, up to the dummies.
unfoldable pub take_ring : RingInfo → Formation → Faultable Proto
take_ring g s =
    let p = record s.proto { highest_seq = g.highest_seq; aru = g.aru } in
    discard_packets s.timeouts.lookup p >>= λ p1. put_dummies g.holes p1

-- The token goes on round the future ring, or, from its last daemon, as the first regular token.
unfoldable pub send_form2 :
    TokenHeader → FormMembers → MembershipId → List RingInfo → Formation → Faultable Formation
send_form2 head m id gs s =
    let tok = form2 head m id gs in
    let first = record head {
      type = 0;
      seq = 0;
      aru = s.proto.last_seq;
      flow_control = pos 0;
      rtr_len = 0;
    } in
    let on = send (form2_on tok) (send (form2_on tok) s) in
    let start = send (first_token first) s in
    last (memb s).future_membership >>= λ end_. ok (
      if end_ == (my s).id
      then record start { proto = record start.proto { token_rounds = 1 } }
      else record on { proto = record on.proto { token_rounds = 0 } })

-- the end of `Read_form2`
unfoldable pub shift_to_evs : Formation → Formation
shift_to_evs s = record s {
  proto = record s.proto {
    memb = record (memb s) { state = evs; token_alive = true };
    last_token = record s.proto.last_token { type = 0; seq = 0; aru = 0 };
  };
  timers = record s.timers { token_loss = some s.proto.token_timeout };
}

-- The future membership, which the network and the flow control are told.
unfoldable pub install_future :
    FormMembers → MembershipId → TokenHeader → Formation → Faultable Formation
install_future m id head s = do
  segs ← add_members s.proto.procs (m.members ++ m.pending) (emptied_all s.proto.cn.segments)
  let future = record s.proto.cn { segments = segs } in
      do
        routed ← set_membership (my s) future s.proto.net
        let p = fc_new_configuration (record s.proto { net = routed.0; last_seq = head.seq }) in
            ok (record s {
              route = routed.1;
              proto = record p {
                memb = record p.memb { future_membership = future; future_membership_id = id };
              };
            })

-- What the ring's entry sets: the window, the commit set and the transitional time.
unfoldable pub install_ring : SpTime → RingInfo → ℤ → ℤ → Formation → Faultable (ℕ × Formation)
install_ring now g memb_time last_time_used s =
    let times = trans_times now g.trans_time memb_time last_time_used in
    take_ring g s >>= λ p. ok (
      times.0,
      record s {
        last_time_used = times.1;
        proto = record p {
          memb = record p.memb {
            future_commit_set = record { members = g.commit; num_pending = g.num_trans };
            f_trans_memb_time = times.0;
          };
        };
      },
    )

-- `Read_form2` once the token is for this daemon, at the time `now`
unfoldable pub read_on :
    SpTime
    → TokenHeader
    → FormMembers
    → MembershipId
    → List RingInfo
    → Formation
    → Faultable Formation
read_on now head m id gs s =
    let mine = (memb s).membership_id in
    let (new_id, memb_time, used) = name_membership now m id s in
    do
      s1 ← install_future m new_id head s
      g ← elim (ring_of mine gs) as (λ z. Faultable RingInfo) [ some h ↦ ok h | none ↦ exit ]
      out ← install_ring now g memb_time used s1
      s3 ← send_form2 head m new_id (set_trans_time mine out.0 gs) out.1
      ok (shift_to_evs s3)

-- `Read_form2`, of a token in this machine's byte order
unfoldable pub read_form2 :
    SpTime
    → TokenHeader
    → FormMembers
    → MembershipId
    → List RingInfo
    → Formation
    → Faultable Formation
read_form2 now head m id gs s = elim (take_turn (my s).id m) [
  | some m1 ↦ read_on now (record head { proc_id = (my s).id }) m1 id gs s
  | none ↦ ok s
]
