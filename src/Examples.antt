-- ===== src/Examples.antt =====
-- Concrete states of a daemon on a ring of two, on which the definitions are run.
pub mod Packets
pub mod Tokens
pub mod Queues
pub mod Runs
pub mod Tables
pub mod Formations
pub mod GroupRuns
use in5020_assignment.Prelude.{
  ℕ, ◌-◌, ℤ, ◌==◌, pos, negsuc, true, false, if◌then◌else◌, List, [], ◌∷◌, none, some, Faultable,
  ok, exit,
}
use in5020_assignment.Wire.{PacketHeader, TokenHeader, MembershipId}
use in5020_assignment.Conf.{Proc, Segment, Configuration, Interface}
use in5020_assignment.Memb.{Memb, MembersInfo, MembState, op}
use in5020_assignment.Net.{Net, Packet}
use in5020_assignment.Events.Clock.{SpTime}
use in5020_assignment.Proto.{Proto, Membership, Slot, UpQueue, DownLink, DownQueue}

abbrev pub daemon : ℕ → Proc
daemon id = record {
  name = id ∷ [];
  port = 4803;
  seg_index = 0;
  index_in_seg = id - 1;
  id = id;
  ifc = record { ip = id; port = 4803; type = 0 } ∷ [];
}

abbrev pub segment_of_two : Segment
segment_of_two = record { bcast_address = 255; port = 4803; procs = daemon 1 ∷ daemon 2 ∷ [] }

abbrev pub ring : Configuration
ring = record { hash_code = 7; segments = segment_of_two ∷ [] }

abbrev pub ring_id : MembershipId
ring_id = record { proc_id = 1; time = 40 }

abbrev pub nobody : MembersInfo
nobody = record { members = []; num_pending = 0 }

abbrev pub members : Memb
members = record {
  state = op;
  token_alive = true;
  membership = ring;
  membership_id = ring_id;
  future_membership = ring;
  future_membership_id = ring_id;
  trans_memb_id = ring_id;
  f_trans_memb_time = 0;
  commit_set = nobody;
  future_commit_set = nobody;
  transitional = false;
  trans_membership = ring;
  commit_membership = ring;
  reg_membership = ring;
  foreign_found = false;
}

abbrev pub network : Net
network = record {
  bcast_needed = true;
  bcast = (255, 4803);
  send_to = [];
  membership = ring;
  queued = [];
  queued_bytes = 0;
  num_elements = 0;
  replies = true ∷ true ∷ true ∷ true ∷ [];
  sent = [];
}

-- A packet of daemon 2: a regular type, with bit 2 for FIFO.
abbrev pub packet : ℕ → ℤ → ℕ → Packet
packet seq index byte = record {
  head = record {
    type = 4;
    transmiter_id = 2;
    proc_id = 2;
    memb_id = ring_id;
    seq = seq;
    fifo_seq = seq;
    packet_index = index;
    data_len = 1;
    conf_hash = 7;
  };
  body = byte ∷ [];
}

abbrev pub slot : ℕ → Packet → Slot
slot e p = record { packet = p; exist = e; proc_index = some 1 }

abbrev pub no_packets : ℕ → Slot
no_packets k = slot 0 (packet 0 (pos 0) 0)

abbrev pub last_token : TokenHeader
last_token = record {
  type = 0;
  transmiter_id = 2;
  seq = 0;
  proc_id = 2;
  aru = 0;
  aru_last_id = 0;
  flow_control = pos 0;
  rtr_len = 0;
  conf_hash = 7;
}

-- Daemon 1 on a ring on which nothing was sent.
abbrev pub start : Proto
start = record {
  my = daemon 1;
  my_index = some 0;
  procs = daemon 1 ∷ daemon 2 ∷ [];
  cn = ring;
  dangerous_monitor = false;
  reload_state = false;
  gstate = 1;
  memb = members;
  net = network;
  packets = no_packets;
  up_queue = λ q. record { exist = false; mess = [] };
  down_queue = record { links = []; cur_element = 0 };
  aru = 0;
  my_aru = 0;
  set_aru = negsuc 0;
  highest_seq = 0;
  highest_fifo_seq = 0;
  last_discarded = 0;
  last_delivered = 0;
  last_seq = 0;
  token_rounds = 0;
  token_counter = 0;
  last_token = last_token;
  last_num_retrans = 0;
  last_num_sent = 0;
  window = pos 60;
  personal_window = pos 15;
  token_timeout = record { sec = pos 5; usec = pos 0 };
  hurry_timeout = record { sec = pos 2; usec = pos 0 };
  wide_network = false;
  effects = [];
}

-- Daemon 1 with a message of two fragments to send.
abbrev pub sending : Proto
sending = record start {
  down_queue = record {
    links = record { type = 4; mess = (10 ∷ []) ∷ (11 ∷ []) ∷ [] } ∷ [];
    cur_element = 0;
  };
}

-- Daemon 1 with the packets 1 and 2 of daemon 2, whole messages, in cells that have `exist = e`.
abbrev pub holding : ℕ → Proto
holding e = record start {
  packets = λ k.
      if k == 1
      then slot e (packet 1 (negsuc 0) 10)
      else if k == 2
      then slot e (packet 2 (negsuc 0) 11)
      else no_packets k;
  my_aru = 2;
  highest_seq = 2;
}

-- the state of a run that goes through
abbrev pub result : Faultable Proto → Proto
result (ok t) = t
result exit = start

-- a membership algorithm that leaves the protocol alone
abbrev pub idle : Membership
idle = record { handle_message = λ p s. ok s; handle_form_token = λ t s. ok s }
