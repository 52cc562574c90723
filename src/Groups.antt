-- ===== src/Groups.antt =====
-- daemon/groups.c and daemon/sess_body.h: the groups, their members, and the lookups in them.
pub mod Names
pub mod Sets
pub mod Join
pub mod Leave
pub mod Counts
pub mod Elements
pub mod Departures
pub mod Runs
pub mod Synced
use in5020_assignment.Prelude.{ℕ, ◌-◌, ◌^◌, Bool, Option, List, Faultable, exit}
use in5020_assignment.Wire.{MembershipId}
use in5020_assignment.Conf.{Proc, Configuration}

-- `Gstate`
pub data GroupState : Type 0 where
  gop gtrans ggather ggt : GroupState

-- `daemon_members`; of a `member` there is only its name.
pub record DaemonMembers : Type 0 where
  pub proc_id : ℕ
  pub memb_id : MembershipId
  pub members_list : List (List ℕ)

-- `group`, with the two parts of its `grp_id`. The mask is empty for this protocol version.
pub record Group : Type 0 where
  pub name : List ℕ
  pub memb_id : MembershipId
  pub index : ℕ
  pub changed : Bool
  pub num_members : ℕ
  pub daemons_list : List DaemonMembers
  pub mboxes : List ℕ

-- The calls of `G_send_lightweight_memb`, `G_send_heavyweight_join`, `G_send_trans_memb` and
-- `G_send_self_leave`, with the group as it then is. No joiner is `NULL`, no mailbox -1.
pub data Notice : Type 0 where
  lightweight : Group → ℕ → List ℕ → Notice
  heavyweight : Group → Option (List ℕ) → Option ℕ → Notice
  transitional : Group → Notice
  self_leave : Group → List ℕ → Notice

-- `session`, as far as the groups read it.
pub record Session : Type 0 where
  pub name : List ℕ
  pub mbox : ℕ

-- The static variables, with those of daemon/sess_body.h that the handlers read: `My`, and the
-- sessions in the order of `sort_next`. `notices` has the newest call first.
pub record Groups : Type 0 where
  pub gstate : GroupState
  pub groups_list : List Group
  pub reg_memb_id : MembershipId
  pub trans_memb : Configuration
  pub trans_memb_id : MembershipId
  pub my : Proc
  pub procs : List Proc
  pub sessions : List Session
  pub notices : List Notice

-- `CAUSED_BY_JOIN`, `CAUSED_BY_LEAVE` and `CAUSED_BY_DISCONNECT`
abbrev pub caused_by_join : ℕ
caused_by_join = 256

abbrev pub caused_by_leave : ℕ
caused_by_leave = 512

abbrev pub caused_by_disconnect : ℕ
caused_by_disconnect = 1024

-- A `proc_id` of -1, as a pattern of 32 bits.
abbrev pub unknown_memb_id : MembershipId
unknown_memb_id = record { proc_id = 2 ^ 32 - 1; time = 2 ^ 32 - 1 }

-- The switch on `Gstate` of `G_handle_join`, `G_handle_leave` and `G_handle_kill`.
abbrev pub served : GroupState → Faultable Groups → Faultable Groups
served gop work = work
served gtrans work = work
served ggather work = exit
served ggt work = exit
