-- ===== src/Proto/Deliver.antt =====
-- daemon/protocol.c: `Deliver_packet`, `Deliver_reliable_packets` and `Deliver_agreed_packets`.
-- A body is a value here, so the copy that `Deliver_packet` makes of it on request changes nothing.
pub mod Window
pub mod Agreed
pub mod Cells
use in5020_assignment.Prelude.{
  ℕ, zero, suc, ◌+◌, ◌-◌, ℤ, negsuc, pos, pos_part, neg_part, ◌+ℤ◌, ltb_ℤ, eqb_ℤ, Bool, true, false,
  not, ◌==◌, ◌&&◌, leb, ltb, if◌then◌else◌, List, [], ◌∷◌, length, snoc, Option, none, some,
  Faultable, ok, exit, ◌>>=◌, update,
}
use in5020_assignment.Wire.{PacketHeader, is_reliable, is_safe}
use in5020_assignment.Proto.{
  Proto, Slot, UpQueue, deliver_message, emit, entry, slot_at, set_exist, in_evs, max_procs_ring,
}

-- a message of one packet that asks for no order
abbrev pub is_single : PacketHeader → Bool
is_single h = is_reliable h.type && eqb_ℤ h.packet_index (negsuc 0)

-- `index` of `Deliver_packet`: the absolute value of the packet's index
abbrev pub abs_index : PacketHeader → ℕ
abs_index h = pos_part h.packet_index + neg_part h.packet_index

-- The message of up queue `q` so far; one that does not exist is created empty.
abbrev pub started : UpQueue → List (List ℕ)
started u = if u.exist then u.mess else []

-- The up queue of a packet: a single reliable packet has one of its own.
abbrev pub up_index : Slot → Option ℕ
up_index c = if is_single c.packet.head then some max_procs_ring else c.proc_index

-- the packet in cell `k` chained to the message of up queue `q`
unfoldable pub chain : ℕ → ℕ → Proto → Proto
chain k q s =
    let c = s.packets k in
    let mess = snoc (started (s.up_queue q)) c.packet.body in
    let s1 = set_exist k 2 s in
    if ltb_ℤ c.packet.head.packet_index (pos 0)
    then emit (deliver_message mess)
        (record s1 { up_queue = update s1.up_queue q (record { exist = false; mess = mess }) })
    else record s1 { up_queue = update s1.up_queue q (record { exist = true; mess = mess }) }

-- `Deliver_packet`
unfoldable pub deliver_packet : ℕ → Proto → Faultable Proto
deliver_packet k s =
    let c = s.packets k in
    elim (up_index c) [
      | none ↦ exit
      | some q ↦
          if length (started (s.up_queue q)) + 1 == abs_index c.packet.head
          then ok (chain k q s)
          else exit
    ]

-- The loop of `Deliver_reliable_packets`, over `n` packets from `i` on.
unfoldable pub reliable_loop : ℕ → ℕ → Proto → Faultable Proto
reliable_loop zero i s = ok s
reliable_loop (suc n) i s =
    let rest = reliable_loop n (i + 1) in
    let c = slot_at s i in
    if c.exist == 1 && is_single c.packet.head then deliver_packet (entry i) s >>= rest else rest s

-- `Deliver_reliable_packets`, of the `num_packets` from `start_seq` on.
unfoldable pub deliver_reliable_packets : ℤ → ℕ → Proto → Faultable Proto
deliver_reliable_packets start_seq num_packets s =
    let past = pos_part (start_seq +ℤ pos num_packets) in
    let first =
      if ltb_ℤ (pos s.last_delivered) start_seq then pos_part start_seq else s.last_delivered + 1 in
    if in_evs s then ok s else reliable_loop (past - first) first s

-- The loop of `Deliver_agreed_packets`, over `n` packets from `i` on.
unfoldable pub agreed_loop : ℕ → ℕ → Proto → Faultable Proto
agreed_loop zero i s = ok s
agreed_loop (suc n) i s =
    let rest =
      λ (t : Proto). agreed_loop n (i + 1) (record t { last_delivered = t.last_delivered + 1 }) in
    let c = slot_at s i in
    if c.exist == 1
    then (if is_safe c.packet.head.type then ok s else deliver_packet (entry i) s >>= rest)
    else if c.exist == 2
    then rest s
    else exit

-- `Deliver_agreed_packets`
unfoldable pub deliver_agreed_packets : Proto → Faultable Proto
deliver_agreed_packets s =
    if leb s.my_aru s.last_delivered
    then ok s
    else if in_evs s
    then ok s
    else agreed_loop (s.my_aru - s.last_delivered) (s.last_delivered + 1) s
