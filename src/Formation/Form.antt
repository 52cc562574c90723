-- ===== src/Formation/Form.antt =====
-- daemon/membership.c: what `Create_form1` and `Fill_form1` share: the holes, the commit set, the
-- potential representatives in case of failure, the length of the token and the change to FORM.
use in5020_assignment.Prelude.{
  ℕ, zero, suc, ◌+◌, ◌-◌, ◌*◌, ◌^◌, Bool, false, ◌==◌, not, if◌then◌else◌, none, some, List, [],
  ◌∷◌, ◌++◌, length, Faultable, ok, ◌>>=◌,
}
use in5020_assignment.Wire.{MembershipId, TokenHeader}
use in5020_assignment.Conf.{Proc, Segment}
use in5020_assignment.Memb.{form}
use in5020_assignment.Proto.{Proto, slot_at}
use in5020_assignment.Formation.{Rep, RepsInfo, potential_rep}
use in5020_assignment.Formation.State.{
  Formation, RingInfo, FormMembers, FormToken, form1, form2, ucast_token, my, memb, with_memb, send,
}
use in5020_assignment.Formation.Reps.{insert_rep}

abbrev pub form1_type : ℕ
form1_type = 2 ^ 12

abbrev pub form2_type : ℕ
form2_type = 2 ^ 13

-- MAX_FORM_REPS
abbrev pub max_form_reps : ℕ
max_form_reps = 20

-- `sizeof( members_info )`, `sizeof( reps_info )`, `sizeof( membership_id )` and the bytes of a
-- `rg_info_buf`
abbrev pub members_info_size : ℕ
members_info_size = 516

abbrev pub reps_info_size : ℕ
reps_info_size = 204

abbrev pub membership_id_size : ℕ
membership_id_size = 8

abbrev pub rings_bytes_from : List RingInfo → ℕ
rings_bytes_from [] = 0
rings_bytes_from (g ∷ gs) = 28 + (length g.holes + length g.commit) * 4 + rings_bytes_from gs

abbrev pub rings_bytes : List RingInfo → ℕ
rings_bytes gs = 4 + rings_bytes_from gs

-- `Packets[ index & PACKET_MASK ].exist`
abbrev pub has_packet : Proto → ℕ → Bool
has_packet p index = not ((slot_at p index).exist == 0)

-- The loop over `n` sequence numbers from `index` on that collects those with no packet.
unfoldable pub holes_from : Proto → ℕ → ℕ → List ℕ
holes_from p zero index = []
holes_from p (suc n) index =
    let rest = holes_from p n (index + 1) in if has_packet p index then rest else index ∷ rest

-- the holes after `low` and up to `Highest_seq`
abbrev pub holes_after : Proto → ℕ → List ℕ
holes_after p low = holes_from p (p.highest_seq - low) (low + 1)

-- the members of a set other than `id`
unfoldable pub others_than : ℕ → List ℕ → List ℕ
others_than id [] = []
others_than id (k ∷ ks) = if k == id then others_than id ks else k ∷ others_than id ks

-- the commit set with the daemon itself first
abbrev pub my_commit : Formation → List ℕ
my_commit s = (my s).id ∷ others_than (my s).id (memb s).commit_set.members

abbrev pub rep_ids : List Rep → List ℕ
rep_ids [] = []
rep_ids (x ∷ xs) = x.proc_id ∷ rep_ids xs

abbrev pub proc_ids : List Proc → List ℕ
proc_ids [] = []
proc_ids (p ∷ ps) = p.id ∷ proc_ids ps

-- the members of a configuration, segment by segment
abbrev pub all_ids : List Segment → List ℕ
all_ids [] = []
all_ids (c ∷ cs) = proc_ids c.procs ++ all_ids cs

-- The loop that makes the representatives of other segments potential ones.
unfoldable pub insert_failure : List Proc → ℕ → List Rep → RepsInfo → Faultable RepsInfo
insert_failure procs mine [] r = ok r
insert_failure procs mine (x ∷ xs) r =
    let skip = insert_failure procs mine xs r in
    if x.seg_index == mine
    then skip
    else insert_rep procs r (record x { type = potential_rep }) >>= λ out.
        insert_failure procs mine xs out.0

-- `Potential_reps` in case of failure
unfoldable pub failure_potentials : List Rep → Formation → Faultable Formation
failure_potentials reps s =
    insert_failure s.proto.procs (my s).seg_index reps (record s.potential_reps { reps = [] })
    >>= λ r. ok (record s { potential_reps = r })

-- What stands in the first bytes of a `reps_info`, read as a `membership_id`: two counts and the
-- first representative. The first member of a form2 token overwrites it.
unfoldable pub read_as_id : RepsInfo → MembershipId
read_as_id r = record {
  proc_id = length r.reps + r.rep_index * 2 ^ 16;
  time = elim r.reps [ x ∷ xs ↦ x.proc_id | [] ↦ 0 ];
}

abbrev pub form1_token : TokenHeader → FormMembers → RepsInfo → List RingInfo → FormToken
form1_token head m r gs =
    form1 (record head { rtr_len = members_info_size + reps_info_size + rings_bytes gs }) m r gs

abbrev pub form2_token : TokenHeader → FormMembers → RepsInfo → List RingInfo → FormToken
form2_token head m r gs =
    form2
      (record head {
        type = form2_type;
        rtr_len = members_info_size + membership_id_size + rings_bytes gs;
      })
      m (read_as_id r) gs

-- the two calls of `Net_ucast_token` with one token
abbrev pub ucast_twice : ℕ → FormToken → Formation → Formation
ucast_twice id tok s = send (ucast_token id tok) (send (ucast_token id tok) s)

-- The end of both: the timers, and the state FORM.
unfoldable pub shift_to_form : Formation → Formation
shift_to_form s = record (with_memb (record (memb s) { state = form; token_alive = false }) s) {
  timers = record s.timers {
    send_join = none;
    token_loss = some s.timeouts.form;
    token_hurry = none;
  };
}
