-- ===== src/Formation/Handlers.antt =====
-- daemon/membership.c: what a daemon does with a membership packet or a form token, in each state.
use in5020_assignment.Prelude.{
  ℕ, ◌%◌, ◌^◌, Bool, true, false, ◌==◌, ◌&&◌, not, ltb, if◌then◌else◌, none, some, [], ◌∷◌, length,
  Faultable, ok, exit, ◌>>=◌,
}
use in5020_assignment.Events.Clock.{SpTime}
use in5020_assignment.Wire.{has_field, is_regular}
use in5020_assignment.Conf.{Configuration, proc_by_id, id_in_conf, leader, seg_leader}
use in5020_assignment.Memb.{op, seg, represented, gather, form, evs}
use in5020_assignment.Net.{Packet}
use in5020_assignment.Formation.{Rep, RepsInfo, seg_rep, ring_rep}
use in5020_assignment.Formation.State.{
  Formation, FormToken, form1, form2, ucast, refer, passed_on, my, memb, with_memb, send,
}
use in5020_assignment.Formation.Members.{insert_member}
use in5020_assignment.Formation.Reps.{insert_rep, smallest_rep}
use in5020_assignment.Formation.Moves.{
  token_loss, shift_to_gather, shift_to_represented, scast_alive, lookup_new_members, insert_reps,
}
use in5020_assignment.Formation.Fill.{fill_form1}
use in5020_assignment.Formation.Read.{read_form2}

abbrev pub in_conf : Configuration → ℕ → Bool
in_conf config id = elim (id_in_conf config id) [ some i ↦ true | none ↦ false ]

-- `Insert_member` on `F_members`
unfoldable pub take_member : ℕ → Formation → Formation
take_member id s = record s { f_members = (insert_member s.f_members id).0 }

unfoldable pub lose_and_take : ℕ → Formation → Faultable Formation
lose_and_take id s = token_loss s >>= λ t. ok (take_member id t)

abbrev pub again_represented : Formation → Formation
again_represented s = record s { timers = record s.timers { shift_to_seg = some s.timeouts.rep } }

-- `Memb_handle_alive`, of a packet from `id`
unfoldable pub handle_alive : ℕ → Formation → Faultable Formation
handle_alive id s = elim (memb s).state [
  | op ↦ if in_conf (memb s).membership id then lose_and_take id s else ok s
  | seg ↦ ok (take_member id s)
  | represented ↦ ok (again_represented s)
  | gather ↦
      if not (memb s).token_alive
      then ok (take_member id s)
      else if in_conf (memb s).membership id
      then lose_and_take id s
      else ok s
  | form ↦ ok s
  | evs ↦ if in_conf (memb s).future_membership id then lose_and_take id s else ok s
]

-- A join packet in OP from a daemon of another ring.
unfoldable pub join_in_op : ℕ → Rep → Formation → Faultable Formation
join_in_op id first s =
    let m = (memb s).membership in
    let answer = λ (l : ℕ). send (ucast id (refer l ring_rep)) s in
    let gathering = shift_to_gather (record s {
      potential_reps = record s.potential_reps { reps = first ∷ [] };
      f_members = record { members = []; num_pending = 0 };
    }) in
    leader m >>= λ l.
    if l == (my s).id
    then ok gathering
    else if first.seg_index == (my s).seg_index
    then (seg_leader m (my s).seg_index >>= λ sl. ok (if sl == (my s).id then answer l else s))
    else ok (answer l)

-- A join packet in SEG and REPRESENTED: whether it comes from the representative of one's segment. For
-- an unknown sender, of whom the code reads an unset `proc`, it is a fault here.
unfoldable pub from_my_rep : ℕ → Rep → Formation → Faultable Bool
from_my_rep id first s = elim (proc_by_id s.proto.procs id) [
  | some (k, p) ↦ ok ((my s).seg_index == p.seg_index && first.type == seg_rep)
  | none ↦ exit
]

abbrev pub refer_to_rep : ℕ → Formation → Formation
refer_to_rep id s = elim s.my_seg_rep [ some r ↦ send (ucast id (refer r seg_rep)) s | none ↦ s ]

-- A join packet in GATHER.
unfoldable pub join_in_gather : Rep → RepsInfo → Formation → Faultable Formation
join_in_gather first reps s = do
  mine ← insert_rep s.proto.procs s.f_reps first
  potential ← insert_reps s.proto.procs reps.reps s.potential_reps
  best ← smallest_rep s.proto.procs mine.0.reps
  let s1 = record s { f_reps = mine.0; potential_reps = potential } in
      ok (
        if best.0.proc_id == first.proc_id
        then record s1 { timers = record s1.timers { form_or_fail = some s.timeouts.gather } }
        else s1)

-- `Memb_handle_join`, of a packet from `id` in this machine's byte order; `first` is what stands in
-- `reps[ 0 ]`, whatever the count of the representatives is.
unfoldable pub handle_join : ℕ → Rep → RepsInfo → Formation → Faultable Formation
handle_join id first reps s = elim (memb s).state [
  | op ↦
      if in_conf (memb s).membership id
      then (if ltb 1 (length s.proto.cn.segments) then token_loss s else ok s)
      else join_in_op id first s
  | seg ↦ from_my_rep id first s >>= λ it.
      ok
        (if it then scast_alive 1 (shift_to_represented (record s { my_seg_rep = some id })) else s)
  | represented ↦ from_my_rep id first s >>= λ it. ok (
      if it
      then scast_alive 1 (again_represented (record s { my_seg_rep = some id }))
      else refer_to_rep id s)
  | gather ↦ join_in_gather first reps s
  | form ↦ ok s
  | evs ↦ if in_conf (memb s).future_membership id then lose_and_take id s else ok s
]

-- `Memb_handle_refer`, of a packet with the `memb_id` `(rep_id, time)`; an `int16` takes its low half.
unfoldable pub handle_refer : ℕ → ℕ → Formation → Faultable Formation
handle_refer rep_id time s = elim (memb s).state [
  | gather ↦ elim (proc_by_id s.proto.procs rep_id) [
    | some (k, p) ↦
        insert_rep s.proto.procs s.potential_reps
          (record { proc_id = p.id; type = time % 2 ^ 16; seg_index = p.seg_index })
        >>= λ out. ok (record s { potential_reps = out.0 })
    | none ↦ ok s
  ]
  | op ↦ ok s
  | seg ↦ ok s
  | represented ↦ ok s
  | form ↦ ok s
  | evs ↦ ok s
]

-- A foreign message in OP: the ring's leader looks for the others, a segment's leader tells it.
unfoldable pub foreign_in_op : Packet → Formation → Faultable Formation
foreign_in_op p s =
    let m = (memb s).membership in
    let found = with_memb (record (memb s) { foreign_found = true }) s in
    let tell = λ (l : ℕ). send (ucast l (passed_on p)) (send (ucast l (passed_on p)) found) in
    leader m >>= λ l.
    if l == (my s).id
    then ok (lookup_new_members s)
    else seg_leader m (my s).seg_index >>= λ sl.
        ok (if sl == (my s).id && not (memb s).foreign_found then tell l else s)

-- `Memb_handle_foreign`
unfoldable pub handle_foreign : Packet → Formation → Faultable Formation
handle_foreign p s = elim (memb s).state [
  | op ↦ elim (proc_by_id s.proto.procs p.head.proc_id) [
    | some (k, q) ↦ foreign_in_op p s
    | none ↦ ok s
  ]
  | seg ↦ ok s
  | represented ↦ ok s
  | gather ↦ ok s
  | form ↦ ok s
  | evs ↦ ok s
]

abbrev pub is_alive : ℕ → Bool
is_alive = has_field 8 1

abbrev pub is_join : ℕ → Bool
is_join = has_field 9 1

abbrev pub is_refer : ℕ → Bool
is_refer = has_field 10 1

-- `Memb_handle_message`, with what a join packet brings
unfoldable pub handle_message : Packet → Rep → RepsInfo → Formation → Faultable Formation
handle_message p first reps s =
    let h = p.head in
    if is_alive h.type
    then handle_alive h.proc_id s
    else if is_join h.type
    then handle_join h.proc_id first reps s
    else if is_refer h.type
    then handle_refer h.memb_id.proc_id h.memb_id.time s
    else if is_regular h.type
    then handle_foreign p s
    else exit

-- `Memb_handle_form1` and `Memb_handle_form2`, by the token's type, as `Memb_handle_token` tells
-- them apart
unfoldable pub handle_token : SpTime → FormToken → Formation → Faultable Formation
handle_token now (form1 head m r gs) s = elim (memb s).state [
  | op ↦
      let fill = fill_form1 head m r gs s in
      leader (memb s).membership >>= λ l. if l == (my s).id then ok s else fill
  | seg ↦ ok s
  | represented ↦ fill_form1 head m r gs s
  | gather ↦ fill_form1 head m r gs s
  | form ↦ ok s
  | evs ↦ ok s
]
handle_token now (form2 head m id gs) s = elim (memb s).state [
  | form ↦ read_form2 now head m id gs s
  | op ↦ ok s
  | seg ↦ ok s
  | represented ↦ ok s
  | gather ↦ ok s
  | evs ↦ ok s
]
