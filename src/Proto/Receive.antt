-- ===== src/Proto/Receive.antt =====
-- daemon/protocol.c: `Prot_handle_bcast`, what a daemon does with a datagram of packets.
-- The datagram is given as its packets: each header with its `data_len` bytes, padding left out.
pub mod Window
pub mod InOrder
pub mod Bcast
use in5020_assignment.Prelude.{
  ℕ, pos, zero, suc, ◌+◌, ◌-◌, Bool, true, false, not, ◌==◌, ◌&&◌, ◌||◌, leb, ltb, if◌then◌else◌,
  List, [], ◌∷◌, Option, none, some, Faultable, ok, exit, ◌>>=◌,
}
use in5020_assignment.Wire.{
  is_status, is_fc, is_conf_reload, is_membership, is_hurry, is_regular, memb_is_equal,
}
use in5020_assignment.Conf.{proc_by_id}
use in5020_assignment.Net.{Packet}
use in5020_assignment.Proto.{
  Proto, Slot, emit, status_message, reload, Membership, set_timer, token_loss, token_hurry, entry,
  slot_at, put_slot, am_leader,
}
use in5020_assignment.Proto.Flow.{fc_handle_message}
use in5020_assignment.Proto.Hurry.{handle_hurry}
use in5020_assignment.Proto.Deliver.{deliver_agreed_packets, deliver_reliable_packets}

-- `My_aru` moves over `n` packets from `i` on, up to the first that is missing.
unfoldable pub advance : ℕ → ℕ → Proto → Proto
advance zero i s = s
advance (suc n) i s =
    let rest = advance n (i + 1) (record s { my_aru = s.my_aru + 1 }) in
    if (slot_at s i).exist == 0 then s else rest

-- A new packet of a known daemon in its cell, and `Highest_seq` raised to it.
unfoldable pub insert : Packet → ℕ → Proto → Proto
insert p index s =
    let s1 =
      put_slot (entry p.head.seq) (record { packet = p; exist = 1; proc_index = some index }) s in
    if ltb s.highest_seq p.head.seq then record s1 { highest_seq = p.head.seq } else s1

-- What a new packet makes deliverable.
unfoldable pub after_insert : ℕ → Proto → Faultable Proto
after_insert seq s =
    if seq == s.my_aru + 1
    then deliver_agreed_packets (advance (s.highest_seq + 1 - seq) seq s)
    else deliver_reliable_packets (pos seq) 1 s

-- The body of the loop over the packets of a datagram.
unfoldable pub take_packet : Packet → Proto → Faultable Proto
take_packet p s =
    let c = slot_at s p.head.seq in
    if leb p.head.seq s.aru
    then ok s
    else if not (c.exist == 0)
    then ok s
    else (elim (proc_by_id s.procs p.head.proc_id) [
      | none ↦ ok (put_slot (entry p.head.seq) (record c { proc_index = none }) s)
      | some (index, q) ↦ after_insert p.head.seq (insert p index s)
    ])

unfoldable pub take_packets : List Packet → Proto → Faultable Proto
take_packets [] s = ok s
take_packets (p ∷ ps) s = take_packet p s >>= take_packets ps

-- A regular packet of this membership shows that the token is alive.
unfoldable pub renew_timers : Proto → Faultable Proto
renew_timers s =
    if s.memb.token_alive
    then (am_leader s >>= λ lead.
        let s1 = emit (set_timer token_loss s.token_timeout) s in
        ok (if lead then emit (set_timer token_hurry s.hurry_timeout) s1 else s1))
    else ok s

-- A datagram that `Prot_handle_bcast` hands to `Memb_handle_message`, by its first packet: one of the
-- membership algorithm, or one of another membership.
abbrev pub is_handed_on : Packet → Proto → Bool
is_handed_on p s =
    is_membership p.head.type
    || (not (is_hurry p.head.type)
        && (is_regular p.head.type && not (memb_is_equal s.memb.membership_id p.head.memb_id)))

-- `Prot_handle_bcast`, on what `Net_recv` returned; `[]` is its failure.
unfoldable pub prot_handle_bcast : Membership → List Packet → Proto → Faultable Proto
prot_handle_bcast m [] s = ok s
prot_handle_bcast m (p ∷ ps) s =
    if is_status p.head.type
    then ok (emit (status_message p) s)
    else if is_fc p.head.type
    then ok (fc_handle_message p s)
    else if is_conf_reload p.head.type
    then ok (emit reload s)
    else if is_membership p.head.type
    then m.handle_message p s
    else if is_hurry p.head.type
    then handle_hurry p.head.proc_id s
    else if not (is_regular p.head.type)
    then ok s
    else if not (memb_is_equal s.memb.membership_id p.head.memb_id)
    then m.handle_message p s
    else renew_timers s >>= take_packets (p ∷ ps)
