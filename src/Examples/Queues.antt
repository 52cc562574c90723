-- ===== src/Examples/Queues.antt =====
-- The queue of timed events, the packing of datagrams, and the byte swaps, on concrete values.
use in5020_assignment.Prelude.{
  ℕ, ◌≡◌, ◌≢◌, ◌≤◌, ◌↔◌, refl, pos, negsuc, List, [], ◌∷◌, ◌++◌, arith, ◌+◌, if◌then◌else◌,
}
use in5020_assignment.Wire.{flip_pack}
use in5020_assignment.Wire.Flip.{flip_pack-flip_pack}
use in5020_assignment.Conf.{proc_by_id}
use in5020_assignment.Conf.Lookup.{Found, proc_by_id-Found}
use in5020_assignment.Net.{queue_bcast, written}
use in5020_assignment.Net.Packing.{Fits, on_wire, queue_bcast-Fits, queue_bcast-carries}
use in5020_assignment.Events.Clock.{SpTime, IsNormal, add_time, compare_time, add_time-IsNormal}
use in5020_assignment.Events.Timers.{TimeEvent, queue, dequeue, same_call}
use in5020_assignment.Events.Timers.Order.{Sorted, queue-Sorted}
use in5020_assignment.Events.Timers.Keys.{count_calls, others, queue-replaces, dequeue-removes}
use in5020_assignment.Examples.{network, packet, daemon}

abbrev time : ℕ → ℕ → SpTime
time sec usec = record { sec = pos sec; usec = pos usec }

early_IsNormal : IsNormal (time 3 600000)
early_IsNormal = record { nonneg = refl; below = omega arith }

late_IsNormal : IsNormal (time 9 400000)
late_IsNormal = record { nonneg = refl; below = omega arith }

-- 600000 and 400000 microseconds sum to one second exactly.
add_time-IsNormal_example :
    IsNormal (add_time (time 3 600000) (time 9 400000)) ↔ (600000 + 400000 ≢ 1000000)
add_time-IsNormal_example =
    add_time-IsNormal (time 3 600000) (time 9 400000) early_IsNormal late_IsNormal

-- Two events of different calls.
abbrev event : ℕ → ℕ → TimeEvent
event sec code = record { t = time sec 0; func = 1; code = code; arg = 0 }

abbrev events : List TimeEvent
events = event 3 1 ∷ event 5 2 ∷ []

events-Sorted : Sorted events
unfolding compare_time
events-Sorted = ground arith

queue-Sorted_example : Sorted (queue (time 2 0) 1 2 0 (time 2 0) events)
queue-Sorted_example = queue-Sorted (time 2 0) 1 2 0 (time 2 0) events events-Sorted

-- Each call is queued once.
once : (count_calls 1 2 0 events ≤ 1) × (count_calls 1 1 0 events ≤ 1)
unfolding same_call
once = (omega arith, omega arith)

queue-replaces_example :
    (count_calls 1 2 0 (queue (time 2 0) 1 2 0 (time 2 0) events) ≡ 1)
    × (others 1 2 0 (queue (time 2 0) 1 2 0 (time 2 0) events) ≡ others 1 2 0 events)
queue-replaces_example = queue-replaces (time 2 0) 1 2 0 (time 2 0) events once.0

dequeue-removes_example :
    let (q', found) = dequeue 1 1 0 events in
    (count_calls 1 1 0 q' ≡ 0)
    × (count_calls 1 1 0 events ≡ (if found then 1 else 0))
    × (others 1 1 0 q' ≡ others 1 1 0 events)
dequeue-removes_example = dequeue-removes 1 1 0 events once.1

network-Fits : Fits network
network-Fits = record {
  counted = refl;
  elements_counted = refl;
  bytes = omega arith;
  elements = omega arith;
}

queue_bcast-Fits_example : Fits (queue_bcast 1 7 (packet 1 (negsuc 0) 10) network).0
queue_bcast-Fits_example =
    queue_bcast-Fits 1 7 (packet 1 (negsuc 0) 10) network (omega arith) network-Fits

queue_bcast-carries_example :
    let n = (queue_bcast 1 7 (packet 1 (negsuc 0) 10) network).0 in
    on_wire n.sent ++ n.queued ≡ written 1 7 (packet 1 (negsuc 0) 10) network ∷ []
queue_bcast-carries_example =
    queue_bcast-carries 1 7 (packet 1 (negsuc 0) 10) network network-Fits refl refl

flip_pack-flip_pack_example : let h = (packet 300 (negsuc 2) 10).head in flip_pack (flip_pack h) ≡ h
flip_pack-flip_pack_example = flip_pack-flip_pack (packet 300 (negsuc 2) 10).head (record {
  type = omega arith;
  transmiter_id = omega arith;
  proc_id = omega arith;
  memb_proc_id = omega arith;
  memb_time = omega arith;
  seq = omega arith;
  fifo_seq = omega arith;
  packet_index = omega arith;
  packet_index_neg = omega arith;
  data_len = omega arith;
  conf_hash = omega arith;
})

proc_by_id-Found_example :
    Found 2 (daemon 1 ∷ daemon 2 ∷ []) (proc_by_id (daemon 1 ∷ daemon 2 ∷ []) 2)
proc_by_id-Found_example = proc_by_id-Found (daemon 1 ∷ daemon 2 ∷ []) 2
