-- ===== src/Proto.antt =====
-- daemon/prot_body.h and the state of daemon/protocol.c and daemon/flow_control.c: one daemon's view
-- of the ring. The operations stand in the child modules.
pub mod Flow
pub mod Deliver
pub mod Discard
pub mod Down
pub mod Hurry
pub mod Receive
pub mod Send
pub mod Retrans
pub mod Token
pub mod Steps
pub mod Backoff
use in5020_assignment.Prelude.{
  ℕ, zero, suc, ◌+◌, ◌-◌, ◌*◌, ◌%◌, ◌^◌, ℤ, pos, negsuc, pos_part, neg_part, Bool, true, false,
  ◌==◌, ◌&&◌, ◌||◌, not, leb, if◌then◌else◌, List, [], ◌∷◌, length, Option, none, some, Faultable,
  ok, exit, ◌>>=◌, update,
}
use in5020_assignment.Wire.{PacketHeader, TokenHeader, MembershipId, get_retrans, is_reliable}
use in5020_assignment.Conf.{Proc, Configuration, leader}
use in5020_assignment.Memb.{Memb, MembState, is_evs, is_op, is_gather, active}
use in5020_assignment.Net.{Net, Packet}
use in5020_assignment.Events.Clock.{SpTime}

-- The constants of daemon/spread_params.h.
abbrev pub max_packets : ℕ
max_packets = 8192

abbrev pub max_seq_gap : ℕ
max_seq_gap = 1600

abbrev pub max_procs_ring : ℕ
max_procs_ring = 128

abbrev pub water_mark : ℕ
water_mark = 500

abbrev pub max_evs_rounds : ℕ
max_evs_rounds = 500

-- `i & PACKET_MASK`
abbrev pub entry : ℕ → ℕ
entry i = i % max_packets

-- `packet_info`. `exist` is 0 for an empty cell, 1 for a packet, 2 for one that was delivered, 3 for
-- a dummy that the membership algorithm puts in. `proc_index` is `none` for -1.
pub record Slot : Type 0 where
  pub packet : Packet
  pub exist : ℕ
  pub proc_index : Option ℕ

-- `up_queue`: the message that is being put together from one daemon's packets
pub record UpQueue : Type 0 where
  pub exist : Bool
  pub mess : List (List ℕ)

-- `down_link` and `down_queue`; `num_mess` is the length.
pub record DownLink : Type 0 where
  pub type : ℕ
  pub mess : List (List ℕ)

pub record DownQueue : Type 0 where
  pub links : List DownLink
  pub cur_element : ℕ

-- the timed calls that the protocol queues
pub data Timer : Type 0 where
  token_loss token_hurry lookup_new_members : Timer

-- What the protocol asks of the other components, in the order of the calls.
pub data Effect : Type 0 where
  deliver_message : List (List ℕ) → Effect
  deliver_trans_memb : Configuration → MembershipId → Effect
  deliver_reg_memb : Configuration → MembershipId → Effect
  set_timer : Timer → SpTime → Effect
  block_users unblock_users : Effect
  memb_token_loss : Effect
  status_message : Packet → Effect
  reload : Effect
  clear_partition : Effect

pub record Proto : Type 0 where
  pub my : Proc
  pub my_index : Option ℕ
  pub procs : List Proc
  pub cn : Configuration
  pub dangerous_monitor : Bool
  pub reload_state : Bool
  pub gstate : ℕ
  pub memb : Memb
  pub net : Net
  pub packets : ℕ → Slot
  pub up_queue : ℕ → UpQueue
  pub down_queue : DownQueue
  pub aru : ℕ
  pub my_aru : ℕ
  pub set_aru : ℤ
  pub highest_seq : ℕ
  pub highest_fifo_seq : ℕ
  pub last_discarded : ℕ
  pub last_delivered : ℕ
  pub last_seq : ℕ
  pub token_rounds : ℕ
  pub token_counter : ℕ
  pub last_token : TokenHeader
  pub last_num_retrans : ℕ
  pub last_num_sent : ℕ
  pub window : ℤ
  pub personal_window : ℤ
  pub token_timeout : SpTime
  pub hurry_timeout : SpTime
  pub wide_network : Bool
  pub effects : List Effect  -- newest first

-- `Memb_handle_message` and `Memb_handle_token`, which the handlers of the protocol end with a call of,
-- and which change its state: a handler takes them as an argument. Formation.Handlers has what they do.
pub record Membership : Type 0 where
  pub handle_message : Packet → Proto → Faultable Proto
  pub handle_form_token : TokenHeader → Proto → Faultable Proto

abbrev pub emit : Effect → Proto → Proto
emit e s = record s { effects = e ∷ s.effects }

abbrev pub slot_at : Proto → ℕ → Slot
slot_at s i = s.packets (entry i)

abbrev pub put_slot : ℕ → Slot → Proto → Proto
put_slot k v s = record s { packets = update s.packets k v }

abbrev pub set_exist : ℕ → ℕ → Proto → Proto
set_exist k e s = put_slot k (record (s.packets k) { exist = e }) s

abbrev pub in_evs : Proto → Bool
in_evs s = is_evs s.memb.state

-- `Conf_leader( Memb_active_ptr() ) == My.id`
unfoldable pub am_leader : Proto → Faultable Bool
am_leader s = leader (active s.memb) >>= λ id. ok (id == s.my.id)

-- `Is_token_hold` and `To_hold_token`, which are the same test
unfoldable pub is_token_hold : Proto → Bool
is_token_hold s =
    (is_op s.memb.state || (is_gather s.memb.state && s.memb.token_alive))
    && (leb (get_retrans s.last_token.type) 1
        && (s.aru == s.highest_seq && not (leb s.token_counter 1)))
