-- ===== src/Formation/Moves.antt =====
-- daemon/membership.c: the moves between the states of the membership algorithm, which timers set
-- off: `Shift_to_seg`, `Gather_or_represented`, `Shift_to_gather`, `Shift_to_represented`,
-- `Scast_alive`, `Send_join`, `Memb_lookup_new_members` and `Memb_token_loss`.
use in5020_assignment.Prelude.{
  ℕ, zero, suc, ◌+◌, false, ◌==◌, if◌then◌else◌, none, some, List, [], ◌∷◌, length, get_elem?,
  Faultable, ok, exit, ◌>>=◌,
}
use in5020_assignment.Conf.{Proc, Segment, Configuration, seg_leader, id_in_conf}
use in5020_assignment.Memb.{MembState, op, seg, represented, gather, form, evs}
use in5020_assignment.Proto.Backoff.{backoff_membership}
use in5020_assignment.Formation.{Rep, RepsInfo, potential_rep, seg_rep, ring_rep}
use in5020_assignment.Formation.State.{
  Formation, scast, ucast, alive, join, MembPacket, my, memb, with_memb, set_state, send, only_me,
  members_bytes, reps_bytes, alone,
}
use in5020_assignment.Proto.Discard.{zero_timeout}
use in5020_assignment.Formation.Members.{smallest_member}
use in5020_assignment.Formation.Reps.{insert_rep}

-- `Shift_to_seg`
unfoldable pub shift_to_seg : Formation → Formation
shift_to_seg s = record (set_state seg s) {
  f_members = only_me s;
  timers = record s.timers {
    scast_alive = some zero_timeout;
    gather_or_represented = some s.timeouts.seg;
  };
}

abbrev pub my_rep : ℕ → Formation → Rep
my_rep type s = record { proc_id = (my s).id; type = type; seg_index = (my s).seg_index }

-- `Shift_to_gather`
unfoldable pub shift_to_gather : Formation → Formation
shift_to_gather s = record (set_state gather s) {
  f_reps = record s.f_reps {
    reps = my_rep (if (memb s).token_alive then ring_rep else seg_rep) s ∷ [];
  };
  timers = record s.timers {
    scast_alive = none;
    lookup_new_members = none;
    send_join = some zero_timeout;
    form_or_fail = some s.timeouts.gather;
  };
}

-- `Shift_to_represented`
unfoldable pub shift_to_represented : Formation → Formation
shift_to_represented s = record (set_state represented s) {
  timers = record s.timers {
    scast_alive = none;
    gather_or_represented = none;
    shift_to_seg = some s.timeouts.rep;
  };
}

-- `Gather_or_represented`
unfoldable pub gather_or_represented : Formation → Faultable Formation
gather_or_represented s =
    let s1 = record s { my_seg_rep = none } in
    smallest_member s.proto.procs s.f_members.members >>= λ best.
    ok (if best.0 == (my s).id then shift_to_gather s1 else shift_to_represented s1)

-- `Scast_alive`; the timer passes code 0.
unfoldable pub scast_alive : ℕ → Formation → Formation
scast_alive code s =
    let s1 = send (scast (my s).seg_index (alive (members_bytes s.f_members) s.f_members)) s in
    if code == 0
    then record s1 { timers = record s1.timers { scast_alive = some s.timeouts.alive } }
    else s1

-- the join packet with the sets as they are
abbrev pub join_packet : Formation → MembPacket
join_packet s = join (members_bytes s.f_members + reps_bytes s.f_reps) s.f_members s.f_reps

unfoldable pub ucast_reps : MembPacket → List Rep → Formation → Formation
ucast_reps p [] s = s
ucast_reps p (x ∷ xs) s = ucast_reps p xs (send (ucast x.proc_id p) s)

-- `Send_join`
unfoldable pub send_join : Formation → Formation
send_join s =
    let p = join_packet s in
    let s1 = if (memb s).token_alive then s else send (scast (my s).seg_index p) s in
    let s2 = ucast_reps p s.potential_reps.reps s1 in
    record s2 { timers = record s2.timers { send_join = some s.timeouts.join } }

-- The loop of `Memb_lookup_new_members` over a segment: a packet to each daemon that is not in
-- `Reg_membership`, and how many there were.
unfoldable pub probe_procs : MembPacket → List Proc → ℕ × Formation → ℕ × Formation
probe_procs p [] (n, s) = (n, s)
probe_procs p (q ∷ qs) (n, s) =
    let missed = probe_procs p qs (n + 1, send (ucast q.id p) s) in
    let member = probe_procs p qs (n, s) in
    elim (id_in_conf (memb s).reg_membership q.id) [ some i ↦ member | none ↦ missed ]

unfoldable pub probe_segments : MembPacket → List Segment → ℕ × Formation → ℕ × Formation
probe_segments p [] acc = acc
probe_segments p (c ∷ cs) acc = probe_segments p cs (probe_procs p c.procs acc)

-- `Memb_lookup_new_members` in OP
unfoldable pub probe : Formation → Formation
probe s =
    let s1 = record s {
      potential_reps = record s.potential_reps { reps = [] };
      f_reps = record s.f_reps { reps = my_rep ring_rep s ∷ [] };
      f_members = record { members = []; num_pending = 0 };
    } in
    let p = join_packet s1 in
    let found =
      if length s.proto.cn.segments == 1
      then (1, send (scast (my s).seg_index p) s1)
      else probe_segments p s.proto.cn.segments (0, s1) in
    if found.0 == 0 then found.1 else shift_to_gather found.1

-- `Memb_lookup_new_members`
unfoldable pub lookup_new_members : Formation → Formation
lookup_new_members s = elim (memb s).state [
  | op ↦ probe s
  | seg ↦ s
  | represented ↦ s
  | gather ↦ s
  | form ↦ s
  | evs ↦ s
]

unfoldable pub insert_reps : List Proc → List Rep → RepsInfo → Faultable RepsInfo
insert_reps procs [] r = ok r
insert_reps procs (x ∷ xs) r = insert_rep procs r x >>= λ out. insert_reps procs xs out.0

-- The daemon that stands for segment `i`: the first of the membership, else of the configuration.
unfoldable pub first_in_seg : Configuration → Configuration → ℕ → Faultable ℕ
first_in_seg cn config i = elim (get_elem? config.segments i) [
  | some c ↦ elim c.procs [ p ∷ ps ↦ ok p.id | [] ↦ seg_leader cn i ]
  | none ↦ seg_leader cn i
]

-- The loop that inserts a representative of type `type` of each other segment, `n` segments from `i`
-- on.
unfoldable pub insert_firsts :
    List Proc → Configuration → Configuration → ℕ → ℕ → ℕ → ℕ → RepsInfo → Faultable RepsInfo
insert_firsts procs cn config type mine zero i r = ok r
insert_firsts procs cn config type mine (suc n) i r =
    let skip = insert_firsts procs cn config type mine n (i + 1) r in
    let rep : ℕ → Rep = λ id. record { proc_id = id; type = type; seg_index = i } in
    if i == mine
    then skip
    else first_in_seg cn config i >>= λ id. insert_rep procs r (rep id) >>= λ out.
        insert_firsts procs cn config type mine n (i + 1) out.0

-- The type that the loop over `F_reps` leaves in `temp_rep`: that of the last one, if there is one.
unfoldable pub type_left : ℕ → List Rep → ℕ
type_left type [] = type
type_left type (x ∷ xs) = type_left x.type xs

-- `Potential_reps` from the gathered representatives `first` and then from the segments of `config`,
-- with the type that is then in `temp_rep`.
unfoldable pub new_potentials : Configuration → List Rep → Formation → Faultable Formation
new_potentials config first s =
    let cn = s.proto.cn in
    insert_reps s.proto.procs first (record s.potential_reps { reps = [] }) >>= λ r.
    let type = type_left potential_rep first in
    insert_firsts s.proto.procs cn config type (my s).seg_index (length cn.segments) 0 r >>= λ q.
    ok (record s { potential_reps = q })

-- the commit set as the daemon alone
abbrev pub commit_me : Formation → Formation
commit_me s =
    let m = memb s in
    with_memb (record m { commit_set = record m.commit_set { members = (my s).id ∷ [] } }) s

abbrev pub rest_of : List Rep → List Rep
rest_of [] = []
rest_of (x ∷ xs) = xs

-- The `switch` of `Memb_token_loss`.
unfoldable pub on_loss : MembState → Formation → Faultable Formation
on_loss op s = new_potentials (memb s).membership [] (commit_me s)
on_loss seg s = exit
on_loss represented s = exit
on_loss gather s =
    let gathered = new_potentials (memb s).membership (rest_of s.f_reps.reps) (commit_me s) in
    if (memb s).token_alive then gathered else exit
on_loss form s = ok s
on_loss evs s =
    let s1 = record s { proto = backoff_membership s.proto } in
    new_potentials (memb s1).future_membership [] s1

unfoldable pub before_loss : Formation → Faultable Formation
before_loss s = on_loss (memb s).state s

-- `Memb_token_loss` after its `switch`
unfoldable pub after_loss : Formation → Formation
after_loss s =
    let s1 = shift_to_seg s in
    let m = memb s1 in
    record s1 {
      proto = record s1.proto {
        memb = record m { token_alive = false; membership = alone s1 };
        last_token = record s1.proto.last_token { type = 0; seq = 0; aru = 0 };
      };
      timers = record s1.timers {
        token_loss = none;
        send_join = none;
        form_or_fail = none;
        token_hurry = none;
        lookup_new_members = none;
      };
    }

-- `Memb_token_loss`
unfoldable pub token_loss : Formation → Faultable Formation
token_loss s = before_loss s >>= λ s1. ok (after_loss s1)
