-- ===== src/Net.antt =====
-- daemon/network.c: packing packets into datagrams, and sending them. What `DL_send` returns is
-- an input, `replies`: whether the next calls succeed.
pub mod Packing
pub mod Route
use in5020_assignment.Prelude.{
  ℕ, suc, zero, ◌+◌, ◌-◌, ◌*◌, ◌%◌, Bool, true, false, ◌&&◌, ◌||◌, not, ltb, leb, ◌==◌,
  if◌then◌else◌, Option, none, some, List, [], ◌∷◌, ◌++◌, length, snoc, get_elem?, is_empty,
}
use in5020_assignment.Wire.{PacketHeader, TokenHeader, RingRtr, set_endian, set_routed}
use in5020_assignment.Conf.{Proc, Configuration, proc_by_id, Segment}

-- MAX_PACKET_SIZE, and ARCH_SCATTER_SIZE where MSG_MAXIOVLEN is not defined
abbrev pub max_packet_size : ℕ
max_packet_size = 1472

abbrev pub scatter_size : ℕ
scatter_size = 1024

-- `sizeof( packet_header )`
abbrev pub header_size : ℕ
header_size = 36

-- A packet as the scatter of its header and of its body, which is `data_len` bytes.
pub record Packet : Type 0 where
  pub head : PacketHeader
  pub body : List ℕ

abbrev pub packet_bytes : Packet → ℕ
packet_bytes p = header_size + length p.body

-- What a sending function writes into the header of a packet, as daemon `me` with the configuration of
-- hash code `hash`; and ROUTED_TYPE in the first header of a datagram, which is cleared again after
-- the sends.
abbrev pub stamped : ℕ → ℕ → Packet → Packet
stamped me hash p = record p {
  head = record p.head { type = set_endian p.head.type; conf_hash = hash; transmiter_id = me };
}

abbrev pub route_first : List Packet → List Packet
route_first [] = []
route_first (p ∷ ps) = record p { head = record p.head { type = set_routed p.head.type } } ∷ ps

-- an address with a port
abbrev pub Address : Type 0
Address = ℕ × ℕ

-- what `DL_send` is called with
pub data Datagram : Type 0 where
  packed : Address → List Packet → Datagram
  token : TokenHeader → List RingRtr → Datagram

pub record Net : Type 0 where
  pub bcast_needed : Bool
  pub bcast : Address
  pub send_to : List Address  -- the first `Num_send_needed` of `Send_address` and `Send_ports`
  pub membership : Configuration
  pub queued : List Packet  -- the packets of `Queue_scat`
  pub queued_bytes : ℕ
  pub num_elements : ℕ  -- of `Queue_scat`, padding included
  pub replies : List Bool  -- of the coming calls of `DL_send`: whether it returns more than 0
  pub sent : List Datagram  -- newest first

-- One call of `DL_send`, and whether its result is positive.
unfoldable pub dl_send : Datagram → Net → Net × Bool
dl_send d n = elim n.replies [
  | r ∷ rs ↦ (record n { sent = d ∷ n.sent; replies = rs }, r)
  | [] ↦ (record n { sent = d ∷ n.sent }, false)
]

-- The loop over `Send_address`; the result is the last call's.
unfoldable pub send_each : List Address → List Packet → Net → Bool → Net × Bool
send_each [] ps n ret = (n, ret)
send_each (a ∷ as') ps n ret = let (n', r) = dl_send (packed a ps) n in send_each as' ps n' r

-- Sends to the other segments, then to one's own; with nowhere to send it counts as sent.
unfoldable pub send_all : List Packet → Net → Net × Bool
send_all ps n =
    let (n1, r1) = send_each n.send_to (route_first ps) n false in
    let (n2, r2) = dl_send (packed n1.bcast ps) n1 in
    if n.bcast_needed then (n2, r2) else (n1, r1 || is_empty n.send_to)

-- `Net_bcast`
unfoldable pub bcast : ℕ → ℕ → Packet → Net → Net × Bool
unfolding send_all
bcast me hash p n = send_all (stamped me hash p ∷ []) n

-- `Net_flush_bcast`
unfoldable pub flush_bcast : Net → Net × Bool
flush_bcast n =
    if n.queued_bytes == 0
    then (n, false)
    else (let (n', r) = send_all n.queued n in
        (record n' { queued = []; queued_bytes = 0; num_elements = 0 }, r))

-- the bytes that align the next packet to 4, and whether they take a scatter element
abbrev pub align_bytes : ℕ → ℕ
align_bytes queued_bytes = (4 - queued_bytes % 4) % 4

abbrev pub align_num_scatter : ℕ → ℕ
align_num_scatter queued_bytes = if queued_bytes % 4 == 0 then 0 else 1

-- the scatter of `num` elements with `align` bytes of padding and the packet's two elements put to it
abbrev pub append_packet : Packet → ℕ → ℕ → Net → Net
append_packet p align align_num n = record n {
  queued = snoc n.queued p;
  queued_bytes = n.queued_bytes + align + packet_bytes p;
  num_elements = n.num_elements + align_num + 2;
}

-- The datagram has no room for the packet.
abbrev pub is_full : Packet → Net → Bool
is_full p n =
    ltb max_packet_size (n.queued_bytes + packet_bytes p + align_bytes n.queued_bytes)
    || ltb scatter_size (n.num_elements + 2 + align_num_scatter n.queued_bytes)

-- The packet as `Net_queue_bcast` leaves it: the first one of a datagram has its header written.
unfoldable pub written : ℕ → ℕ → Packet → Net → Packet
written me hash p n = if n.queued_bytes == 0 || is_full p n then stamped me hash p else p

-- `Net_queue_bcast`
unfoldable pub queue_bcast : ℕ → ℕ → Packet → Net → Net × Bool
queue_bcast me hash p n =
    let p' = written me hash p n in
    let align = align_bytes n.queued_bytes in
    let align_num = align_num_scatter n.queued_bytes in
    if is_full p n
    then (let (n', r) = flush_bcast n in (append_packet p' 0 0 n', r))
    else (append_packet p' align align_num n, false)

-- `Net_scast`; the packet counts as sent where no send is needed.
unfoldable pub scast : ℕ → ℕ → ℕ → ℕ → Packet → Net → Net × Bool
scast me hash my_seg_index seg_index p n =
    let p' = stamped me hash p in
    if seg_index == my_seg_index
    then (if n.bcast_needed then dl_send (packed n.bcast (p' ∷ [])) n else (n, true))
    else (elim (get_elem? n.membership.segments seg_index) [
      | some seg ↦ elim seg.procs [
        | q ∷ qs ↦ dl_send (packed (q.id, seg.port) (route_first (p' ∷ []))) n
        | [] ↦ (n, true)
      ]
      | none ↦ (n, true)
    ])

-- `Net_ucast`
unfoldable pub ucast : ℕ → ℕ → List Proc → ℕ → Packet → Net → Net × Bool
ucast me hash procs proc_id p n = elim (proc_by_id procs proc_id) [
  | some (i, q) ↦ dl_send (packed (proc_id, q.port) (stamped me hash p ∷ [])) n
  | none ↦ (n, false)
]

-- `Net_send_token`. The check that a token fits a packet, which ends the daemon, is left out.
unfoldable pub send_token : ℕ → ℕ → TokenHeader → List RingRtr → Net → Net
unfolding dl_send
send_token me hash t rtrs n =
    let stamped_token = record t {
      type = set_endian t.type;
      conf_hash = hash;
      transmiter_id = me;
    } in
    (dl_send (token stamped_token rtrs) n).0
