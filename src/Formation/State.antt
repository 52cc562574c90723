-- ===== src/Formation/State.antt =====
-- The variables of daemon/membership.c over those of the protocol, its timed calls and what it sends.
use in5020_assignment.Prelude.{
  ℕ, ℤ, ◌+◌, ◌*◌, Option, none, some, List, [], ◌∷◌, length, get_elem?, set,
}
use in5020_assignment.Events.Clock.{SpTime}
use in5020_assignment.Wire.{MembershipId, TokenHeader}
use in5020_assignment.Conf.{Proc, Segment, Configuration, append_id_to_seg}
use in5020_assignment.Memb.{Memb, MembState, MembersInfo}
use in5020_assignment.Net.{Packet}
use in5020_assignment.Net.Route.{Route}
use in5020_assignment.Proto.{Proto}
use in5020_assignment.Formation.{RepsInfo}

-- The timeouts that `Memb_init` sets; `Token_timeout` and `Hurry_timeout` stand with the protocol.
pub record Timeouts : Type 0 where
  pub alive : SpTime
  pub join : SpTime
  pub rep : SpTime
  pub seg : SpTime
  pub gather : SpTime
  pub form : SpTime
  pub lookup : SpTime

-- Of each timed call whether it is queued, and with which delay. `E_queue` replaces a call that is
-- queued already, `E_dequeue` takes one out.
pub record Timers : Type 0 where
  pub scast_alive : Option SpTime
  pub gather_or_represented : Option SpTime
  pub shift_to_seg : Option SpTime
  pub send_join : Option SpTime
  pub form_or_fail : Option SpTime
  pub token_loss : Option SpTime
  pub token_hurry : Option SpTime
  pub lookup_new_members : Option SpTime

-- The membership packets that a daemon sends, with their `data_len` where it has a body.
pub data MembPacket : Type 0 where
  alive : ℕ → MembersInfo → MembPacket
  join : ℕ → MembersInfo → RepsInfo → MembPacket
  refer : ℕ → ℕ → MembPacket  -- `memb_id`: the representative, and its type
  passed_on : Packet → MembPacket

-- The `members_info` of a form token: the cells up to `num_members`, and the `num_pending` after them.
pub record FormMembers : Type 0 where
  pub members : List ℕ
  pub pending : List ℕ

-- `ring_info` with the holes and the commit set that follow it, whose lengths are `num_holes` and
-- `num_commit`.
pub record RingInfo : Type 0 where
  pub memb_id : MembershipId
  pub trans_time : ℕ
  pub aru : ℕ
  pub highest_seq : ℕ
  pub holes : List ℕ
  pub commit : List ℕ
  pub num_trans : ℕ

-- A form token by its elements. The third one is a `reps_info` in a form1 token, and a
-- `membership_id` in a form2 token.
pub data FormToken : Type 0 where
  form1 : TokenHeader → FormMembers → RepsInfo → List RingInfo → FormToken
  form2 : TokenHeader → FormMembers → MembershipId → List RingInfo → FormToken

-- The calls of `Net_scast` with a segment, of `Net_ucast` and `Net_ucast_token` with a daemon, and of
-- `Net_send_token`.
pub data Sent : Type 0 where
  scast : ℕ → MembPacket → Sent
  ucast : ℕ → MembPacket → Sent
  ucast_token : ℕ → FormToken → Sent
  form2_on : FormToken → Sent
  first_token : TokenHeader → Sent

pub record Formation : Type 0 where
  pub proto : Proto
  pub my_seg_rep : Option ℕ  -- `none` for -1
  pub f_members : MembersInfo
  pub f_reps : RepsInfo
  pub potential_reps : RepsInfo
  pub timeouts : Timeouts
  pub timers : Timers
  pub last_time_used : ℤ
  pub route : Route
  pub sent : List Sent  -- newest first

abbrev pub my : Formation → Proc
my s = s.proto.my

abbrev pub memb : Formation → Memb
memb s = s.proto.memb

abbrev pub with_memb : Memb → Formation → Formation
with_memb m s = record s { proto = record s.proto { memb = m } }

abbrev pub set_state : MembState → Formation → Formation
set_state st s = with_memb (record (memb s) { state = st }) s

abbrev pub send : Sent → Formation → Formation
send x s = record s { sent = x ∷ s.sent }

-- `F_members` as the daemon alone
abbrev pub only_me : Formation → MembersInfo
only_me s = record { members = (my s).id ∷ []; num_pending = 0 }

-- The bytes of a `members_info` up to its last member, and of a `reps_info` likewise.
abbrev pub members_bytes : MembersInfo → ℕ
members_bytes m = 2 * 2 + length m.members * 4

abbrev pub reps_bytes : RepsInfo → ℕ
reps_bytes r = 2 * 2 + length r.reps * 8

abbrev pub emptied_all : List Segment → List Segment
emptied_all [] = []
emptied_all (c ∷ cs) = record c { procs = [] } ∷ emptied_all cs

-- the segments with the daemon `id` put to segment `k`
unfoldable pub put_in_seg : List Proc → ℕ → ℕ → List Segment → List Segment
put_in_seg procs k id segments = elim (get_elem? segments k) [
  | some c ↦ set segments k (append_id_to_seg procs c id).0
  | none ↦ segments
]

-- The loop that empties the segments of `Membership`, and the daemon's own identifier put back.
unfoldable pub alone : Formation → Configuration
alone s =
    let c = (memb s).membership in
    record c {
      segments = put_in_seg s.proto.procs (my s).seg_index (my s).id (emptied_all c.segments);
    }
