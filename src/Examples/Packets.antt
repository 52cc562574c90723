-- ===== src/Examples/Packets.antt =====
-- Sending, receiving, delivering and discarding on concrete states.
use in5020_assignment.Prelude.{
  ℕ, ◌==◌, if◌then◌else◌, ◌≡◌, ◌<◌, ◌≤◌, ◌⊎◌, refl, pos, negsuc, [], ◌∷◌, ok, arith, inl, ◌+◌, ◌+ℤ◌,
}
use in5020_assignment.Proto.{Proto, DownLink, am_leader, deliver_message, slot_at}
use in5020_assignment.Proto.Send.{send_new_packets, waiting}
use in5020_assignment.Proto.Send.Total.{send_new_packets_total}
use in5020_assignment.Proto.Send.Fragments.{agreed_loop-reassembles}
use in5020_assignment.Proto.Backoff.{backoff_membership, backoff_membership-my_aru}
use in5020_assignment.Proto.Send.RoundTrip.{send_deliver_round_trip}
use in5020_assignment.Proto.Deliver.{
  agreed_loop, deliver_agreed_packets, reliable_loop, started, deliver_packet, chain,
  deliver_reliable_packets,
}
use in5020_assignment.Proto.Deliver.Agreed.{InSequence, deliver_agreed-InSequence}
use in5020_assignment.Proto.Discard.{discard_stable, stable_loop}
use in5020_assignment.Proto.Discard.Stable.{Gone, discard_stable-Gone, discard_stable_total}
use in5020_assignment.Proto.Receive.{
  prot_handle_bcast, renew_timers, take_packets, take_packet, insert, after_insert, advance,
}
use in5020_assignment.Wire.{memb_is_equal}
use in5020_assignment.Conf.{leader, proc_by_id, find_proc, has_ip}
use in5020_assignment.Proto.Receive.Window.{InOrder}
use in5020_assignment.Proto.Receive.InOrder.{Taken}
use in5020_assignment.Proto.Receive.Bcast.{prot_handle_bcast-InOrder}
use in5020_assignment.Examples.{idle, start, sending, holding, packet, slot, no_packets, result}

abbrev pub two_fragments : DownLink
two_fragments = record { type = 4; mess = (10 ∷ []) ∷ (11 ∷ []) ∷ [] }

send_deliver_round_trip_example :
    (t u : Proto) × (n : ℕ) × (send_new_packets 5 sending ≡ ok (t, n))
    × (t.down_queue.links ≡ [])
    × (t.highest_seq ≡ 0 + 2)
    × (agreed_loop 2 1 t ≡ ok u)
    × (u.effects ≡ deliver_message ((10 ∷ []) ∷ (11 ∷ []) ∷ []) ∷ t.effects)
send_deliver_round_trip_example =
    send_deliver_round_trip two_fragments 5 0 sending refl refl refl (omega arith) (omega arith)
      (omega arith) (λ j a b. refl) refl refl refl

send_new_packets_total_example :
    (t : Proto) × (n : ℕ) × (send_new_packets 1 sending ≡ ok (t, n))
    × (t.highest_seq + waiting t.down_queue ≡ 0 + 2)
    × (n ≤ 2)
    × ((1 ≤ n) ⊎ (t.down_queue.links ≡ []))
send_new_packets_total_example =
    send_new_packets_total 1 sending (omega arith, tt) (omega arith) (λ j a b. refl)

-- Both messages of `holding` are delivered.
abbrev delivered : Proto
unfolding deliver_agreed_packets agreed_loop deliver_packet chain
delivered = result (deliver_agreed_packets (holding 1))

delivered_run : deliver_agreed_packets (holding 1) ≡ ok delivered
unfolding deliver_agreed_packets agreed_loop deliver_packet chain
delivered_run = refl

deliver_agreed-InSequence_example : InSequence 2 (holding 1) delivered
deliver_agreed-InSequence_example =
    deliver_agreed-InSequence (holding 1) delivered refl (omega arith) (omega arith) delivered_run

-- Both were delivered, and the ring has them.
abbrev stable : Proto
stable = record (holding 2) { aru = 2; last_delivered = 2 }

abbrev discarded : Proto
unfolding discard_stable stable_loop
discarded = result (discard_stable stable)

discarded_run : discard_stable stable ≡ ok discarded
unfolding discard_stable stable_loop
discarded_run = refl

discard_stable-Gone_example : Gone stable discarded
discard_stable-Gone_example =
    discard_stable-Gone stable discarded (omega arith) (omega arith) discarded_run

discard_stable_total_example :
    (t : Proto) × (discard_stable stable ≡ ok t) × (t.effects ≡ []) × (t.up_queue ≡ start.up_queue)
discard_stable_total_example = discard_stable_total stable (omega arith) (omega arith) both
  where
    both : (j : ℕ) → 0 < j → j ≤ 2 → (slot_at stable j).exist ≡ 2
    both j a b = ground arith

-- The start is in order.
pub start-InOrder : InOrder start
start-InOrder = record {
  discarded = omega arith;
  stable = omega arith;
  highest = omega arith;
  there = λ q a b. absurd (omega arith);
  exact = inl refl;
  free = λ q a b. refl;
}

-- Packet 2 comes before packet 1.
abbrev received : Proto
unfolding prot_handle_bcast renew_timers take_packets take_packet insert after_insert advance
    am_leader leader memb_is_equal proc_by_id find_proc has_ip deliver_agreed_packets agreed_loop
    deliver_packet chain deliver_reliable_packets reliable_loop ◌+ℤ◌
received =
    result (prot_handle_bcast idle (packet 2 (negsuc 0) 11 ∷ packet 1 (negsuc 0) 10 ∷ []) start)

received_run :
    prot_handle_bcast idle (packet 2 (negsuc 0) 11 ∷ packet 1 (negsuc 0) 10 ∷ []) start
    ≡ ok received
unfolding prot_handle_bcast renew_timers take_packets take_packet insert after_insert advance
    am_leader leader memb_is_equal proc_by_id find_proc has_ip deliver_agreed_packets agreed_loop
    deliver_packet chain deliver_reliable_packets reliable_loop ◌+ℤ◌
received_run = refl

received_both : received.my_aru ≡ 2
unfolding received ◌+ℤ◌
received_both = refl

prot_handle_bcast-InOrder_example : Taken start received
unfolding memb_is_equal
prot_handle_bcast-InOrder_example =
    prot_handle_bcast-InOrder idle (packet 2 (negsuc 0) 11 ∷ packet 1 (negsuc 0) 10 ∷ []) start
      received start-InOrder refl (omega arith, (omega arith, tt)) received_run

-- A message of two fragments in the cells 1 and 2.
abbrev fragments : Proto
fragments = record (holding 1) {
  packets = λ k.
      if k == 1
      then slot 1 (packet 1 (pos 1) 10)
      else if k == 2
      then slot 1 (packet 2 (negsuc 1) 11)
      else no_packets k;
}

agreed_loop-reassembles_example :
    (t : Proto) × (agreed_loop 2 1 fragments ≡ ok t)
    × (t.effects ≡ deliver_message ((10 ∷ []) ∷ (11 ∷ []) ∷ []) ∷ [])
    × (started (t.up_queue 1) ≡ [])
    × (t.last_delivered ≡ 0 + 2)
agreed_loop-reassembles_example =
    agreed_loop-reassembles ((10 ∷ []) ∷ (11 ∷ []) ∷ []) 1 4 2 0 1 [] fragments refl refl refl refl
      (omega arith) (omega arith) refl
      (
        record {
          exist = refl;
          proc_index = refl;
          reliable = refl;
          safe = refl;
          index = refl;
          same_body = refl;
        },
        (
          record {
            exist = refl;
            proc_index = refl;
            reliable = refl;
            safe = refl;
            index = refl;
            same_body = refl;
          },
          tt,
        ),
      )

-- Packet 1 is missing and packet 2 is there.
abbrev hole : Proto
hole = record start {
  packets = λ k. if k == 2 then slot 1 (packet 2 (negsuc 0) 11) else no_packets k;
  highest_seq = 2;
}

backoff_membership-my_aru_example :
    ((backoff_membership hole).my_aru ≡ 2) × ((backoff_membership hole).aru ≡ 0)
backoff_membership-my_aru_example =
    backoff_membership-my_aru hole (omega arith) (λ z. omega (arith, z))
