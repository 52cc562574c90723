-- ===== src/Formation/Create.antt =====
-- daemon/membership.c: `Create_form1` and `Form_or_fail`.
use in5020_assignment.Prelude.{
  ℕ, ◌+◌, ◌==◌, ◌&&◌, not, if◌then◌else◌, none, some, List, [], ◌∷◌, length, get_elem?, Faultable,
  ok, exit, ◌>>=◌,
}
use in5020_assignment.Wire.{TokenHeader}
use in5020_assignment.Memb.{contains_id, op}
use in5020_assignment.Formation.{ring_rep}
use in5020_assignment.Formation.State.{
  Formation, RingInfo, FormMembers, ucast_token, my, memb, set_state, send, only_me,
}
use in5020_assignment.Formation.Reps.{smallest_rep, sort_reps}
use in5020_assignment.Formation.Moves.{insert_reps, rest_of, shift_to_gather}
use in5020_assignment.Formation.Form.{
  form1_type, holes_after, my_commit, rep_ids, all_ids, failure_potentials, form1_token,
  form2_token, ucast_twice, shift_to_form,
}

-- The loop that leaves out the members of `F_members` that are in `reps` too, but for `me`.
unfoldable pub not_reps : ℕ → List ℕ → List ℕ → List ℕ
not_reps me reps [] = []
not_reps me reps (k ∷ ks) =
    let rest = not_reps me reps ks in if contains_id reps k && not (k == me) then rest else k ∷ rest

-- `F_members` of the new token: a ring's leader brings the whole ring.
unfoldable pub form_members : Formation → List ℕ
form_members s =
    let ids : List ℕ = elim s.f_reps.reps [
      | x ∷ xs ↦
          if x.type == ring_rep then all_ids (memb s).membership.segments else s.f_members.members
      | [] ↦ s.f_members.members
    ] in
    not_reps (my s).id (rep_ids s.f_reps.reps) ids

abbrev pub new_ring : Formation → RingInfo
new_ring s = record {
  memb_id = (memb s).membership_id;
  trans_time = 0;
  aru = s.proto.aru;
  highest_seq = s.proto.highest_seq;
  holes = holes_after s.proto s.proto.my_aru;
  commit = my_commit s;
  num_trans = 1;
}

-- To whom `Create_form1` sends: the next pending member, the next representative, or itself, with a
-- form2 token, if it is alone.
unfoldable pub send_form1 : TokenHeader → ℕ → List ℕ → RingInfo → Formation → Formation
send_form1 head first (next ∷ later) g s =
    let m : FormMembers = record { members = first ∷ []; pending = next ∷ later } in
    ucast_twice next (form1_token head m s.f_reps (g ∷ [])) s
send_form1 head first [] g s = elim (get_elem? s.f_reps.reps s.f_reps.rep_index) [
  | some x ↦
      let m : FormMembers = record { members = first ∷ []; pending = [] } in
      ucast_twice x.proc_id (form1_token head m s.f_reps (g ∷ [])) s
  | none ↦
      let m : FormMembers = record { members = []; pending = first ∷ [] } in
      let tok = form2_token head m s.f_reps (g ∷ []) in
      let s1 = record s { f_members = record { members = []; num_pending = 1 } } in
      send (ucast_token (my s).id tok) s1
]

-- `Create_form1`; `blank` is what the token's header holds before it is set. `F_members` has the
-- daemon itself in it; that it has nobody, where the code counts -1 pending members, is a fault here.
unfoldable pub create_form1 : TokenHeader → Formation → Faultable Formation
create_form1 blank s = elim (form_members s) [
  | first ∷ later ↦ do
    sorted ← sort_reps s.proto.procs s.f_reps
    s1 ← failure_potentials sorted.reps (record s {
      f_members = record { members = first ∷ []; num_pending = length later };
      f_reps = record sorted { rep_index = 1 };
    })
    let head = record blank {
      seq = s.proto.highest_seq + 3333;
      proc_id = (my s).id;
      type = form1_type;
    } in
        ok (shift_to_form (send_form1 head first later (new_ring s1) s1))
  | [] ↦ exit
]

-- back to OP, with the ring it has
unfoldable pub back_to_op : Formation → Formation
back_to_op s = record (set_state op s) {
  timers = record s.timers { send_join = none; lookup_new_members = some s.timeouts.lookup };
}

-- The last branch of `Form_or_fail`: gathering again.
unfoldable pub gather_again : Formation → Faultable Formation
gather_again s =
    insert_reps s.proto.procs (rest_of s.f_reps.reps) (record s.potential_reps { reps = [] })
    >>= λ r. ok (shift_to_gather (record s { f_members = only_me s; potential_reps = r }))

-- `Form_or_fail`
unfoldable pub form_or_fail : TokenHeader → Formation → Faultable Formation
form_or_fail blank s =
    let alive = (memb s).token_alive in
    smallest_rep s.proto.procs s.f_reps.reps >>= λ best.
    if best.0.proc_id == (my s).id
    then (if alive && length s.f_reps.reps == 1 then ok (back_to_op s) else create_form1 blank s)
    else if alive
    then ok (back_to_op s)
    else gather_again s
