-- ===== src/Examples/Runs.antt =====
-- A run of daemon 1, which leads the ring: it takes a message of two fragments, and sends it on a
-- visit of the token.
use in5020_assignment.Prelude.{◌≡◌, ◌≤◌, refl, pos, [], ok, arith, ◌+ℤ◌, ◌-ℤ◌}
use in5020_assignment.Conf.{leader}
use in5020_assignment.Net.{
  queue_bcast, flush_bcast, send_all, send_each, dl_send, send_token, written,
}
use in5020_assignment.Events.Clock.{SpTime}
use in5020_assignment.Proto.{Proto, am_leader, is_token_hold}
use in5020_assignment.Proto.Down.{prot_new_message, enqueue_message}
use in5020_assignment.Proto.Flow.{fc_allowed}
use in5020_assignment.Proto.Retrans.{answer_retrans, answer_blocks}
use in5020_assignment.Proto.Send.{
  send_new_packets, send_loop, send_fragment, send_packet, pop_fragment,
}
use in5020_assignment.Proto.Deliver.{
  agreed_loop, deliver_agreed_packets, reliable_loop, deliver_packet, chain,
  deliver_reliable_packets,
}
use in5020_assignment.Proto.Discard.{discard_packets, discard_stable, stable_loop}
use in5020_assignment.Proto.Receive.{advance}
use in5020_assignment.Proto.Receive.Window.{InOrder}
use in5020_assignment.Proto.Token.{
  prot_handle_token, visit, screen, add_requests, commit_if_complete, next_aru, send_on, next_token,
  pass_token, deliver_after, settle,
}
use in5020_assignment.Proto.Token.Visit.{prot_handle_token-InOrder}
use in5020_assignment.Proto.Steps.{rest, next, token_in, new_message, Ordered, Runs-Ordered, Timely}
use in5020_assignment.Examples.{idle, start, last_token, result}
use in5020_assignment.Examples.Packets.{start-InOrder, two_fragments}

abbrev lookup_timeout : SpTime
lookup_timeout = record { sec = pos 30; usec = pos 0 }

abbrev queued : Proto
unfolding prot_new_message enqueue_message is_token_hold
queued = result (prot_new_message two_fragments start)

queued_run : prot_new_message two_fragments start ≡ ok queued
unfolding queued prot_new_message enqueue_message is_token_hold
queued_run = refl

abbrev visited : Proto
unfolding prot_handle_token queued am_leader leader screen visit answer_retrans answer_blocks
    send_new_packets send_loop fc_allowed ◌-ℤ◌ ◌+ℤ◌ send_fragment send_packet pop_fragment
    queue_bcast flush_bcast send_all send_each dl_send send_token written settle advance
    add_requests commit_if_complete next_aru next_token pass_token send_on is_token_hold
    deliver_after discard_packets discard_stable stable_loop deliver_agreed_packets agreed_loop
    deliver_packet chain deliver_reliable_packets reliable_loop prot_new_message enqueue_message
visited = result (prot_handle_token idle lookup_timeout 32 last_token [] queued)

visited_run : prot_handle_token idle lookup_timeout 32 last_token [] queued ≡ ok visited
unfolding prot_handle_token queued visited am_leader leader screen visit answer_retrans
    answer_blocks send_new_packets send_loop fc_allowed ◌-ℤ◌ ◌+ℤ◌ send_fragment send_packet
    pop_fragment queue_bcast flush_bcast send_all send_each dl_send send_token written settle
    advance add_requests commit_if_complete next_aru next_token pass_token send_on is_token_hold
    deliver_after discard_packets discard_stable stable_loop deliver_agreed_packets agreed_loop
    deliver_packet chain deliver_reliable_packets reliable_loop prot_new_message enqueue_message
visited_run = refl

visited_both : visited.my_aru ≡ 2
unfolding prot_handle_token queued visited am_leader leader screen visit answer_retrans
    answer_blocks send_new_packets send_loop fc_allowed ◌-ℤ◌ ◌+ℤ◌ send_fragment send_packet
    pop_fragment queue_bcast flush_bcast send_all send_each dl_send send_token written settle
    advance add_requests commit_if_complete next_aru next_token pass_token send_on is_token_hold
    deliver_after discard_packets discard_stable stable_loop deliver_agreed_packets agreed_loop
    deliver_packet chain deliver_reliable_packets reliable_loop prot_new_message enqueue_message
visited_both = refl

queued-Timely : Timely last_token queued
unfolding queued prot_new_message enqueue_message is_token_hold
queued-Timely = record {
  ring = refl;
  calm = refl;
  aru = omega arith;
  last = omega arith;
  mine = omega arith;
  seq = omega arith;
}

queued-InOrder : InOrder queued
queued-InOrder =
    (Runs-Ordered start-InOrder (next (new_message two_fragments queued_run) rest)).in_order

prot_handle_token-InOrder_example :
    InOrder visited
    × (queued.my_aru ≤ visited.my_aru)
    × (queued.last_discarded ≤ visited.last_discarded)
prot_handle_token-InOrder_example =
    prot_handle_token-InOrder idle lookup_timeout 32 last_token [] queued visited queued-Timely.ring
      queued-Timely.calm queued-InOrder queued-Timely.aru queued-Timely.last queued-Timely.mine
      queued-Timely.seq visited_run

Runs-Ordered_example : Ordered start visited
Runs-Ordered_example = Runs-Ordered start-InOrder (
    next (new_message two_fragments queued_run)
      (next (token_in idle lookup_timeout 32 last_token [] queued-Timely visited_run) rest))
