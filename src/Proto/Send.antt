-- ===== src/Proto/Send.antt =====
-- daemon/protocol.c: `Send_new_packets`, which cuts the messages of the down queue into packets.
pub mod Round
pub mod Total
pub mod Fragments
pub mod RoundTrip
use in5020_assignment.Prelude.{
  ℕ, zero, suc, ◌+◌, ◌-◌, ℤ, pos, negsuc, Bool, true, false, not, ◌==◌, ltb, if◌then◌else◌, List,
  [], ◌∷◌, length, get_elem?, Option, none, some, Faultable, ok, exit, ◌>>=◌,
}
use in5020_assignment.Wire.{PacketHeader}
use in5020_assignment.Net.{Net, Packet, queue_bcast, written, flush_bcast}
use in5020_assignment.Proto.{
  Proto, Slot, DownLink, DownQueue, emit, unblock_users, water_mark, entry, slot_at, put_slot,
}

-- The header of the next packet: of type `type`, with fragment number `index` and `len` bytes.
abbrev pub next_header : Proto → ℕ → ℤ → ℕ → PacketHeader
next_header s type index len = record {
  type = type;
  transmiter_id = 0;
  proc_id = s.my.id;
  memb_id = s.memb.membership_id;
  seq = s.highest_seq + 1;
  fifo_seq = s.highest_fifo_seq + 1;
  packet_index = index;
  data_len = len;
  conf_hash = 0;
}

-- A fragment's number, negated for the last of its message's `num`.
abbrev pub fragment_index : ℕ → ℕ → ℤ
fragment_index cur num = if ltb (cur + 1) num then pos (cur + 1) else negsuc (num - 1)

-- The down queue after one more fragment of its first message.
unfoldable pub pop_fragment : DownLink → List DownLink → ℕ → Proto → Proto
pop_fragment d ds cur s =
    if ltb (cur + 1) (length d.mess)
    then record s { down_queue = record { links = d ∷ ds; cur_element = cur + 1 } }
    else (let s1 = record s { down_queue = record { links = ds; cur_element = 0 } } in
        if ltb (length ds) water_mark then emit unblock_users s1 else s1)

-- The packet in its cell, with the next sequence numbers taken.
abbrev pub stored : Packet → Net → Proto → Proto
stored p net' s =
    put_slot (entry p.head.seq) (record { packet = p; exist = 1; proc_index = s.my_index })
      (record s {
        highest_seq = s.highest_seq + 1;
        highest_fifo_seq = s.highest_fifo_seq + 1;
        net = net';
      })

-- The packet is queued for sending and put in its cell, which has to be free.
unfoldable pub send_packet : Packet → Proto → Faultable (Proto × Bool)
send_packet p s =
    let q = queue_bcast s.my.id s.cn.hash_code p s.net in
    let p' = written s.my.id s.cn.hash_code p s.net in
    if (slot_at s p.head.seq).exist == 0 then ok (stored p' q.0 s, q.1) else exit

-- One round of the loop: the fragment `cur_element` of the first message.
unfoldable pub send_fragment : DownLink → List DownLink → Proto → Faultable (Proto × Bool)
send_fragment d ds s =
    let cur = s.down_queue.cur_element in
    elim (get_elem? d.mess cur) [
      | none ↦ exit
      | some body ↦
          send_packet
            (record {
              head = next_header s d.type (fragment_index cur (length d.mess)) (length body);
              body = body;
            })
            (pop_fragment d ds cur s)
    ]

-- The body of the `while` loop, with what follows it; an empty down queue ends the loop.
abbrev pub send_round :
    (Proto × Bool → Faultable (Proto × ℕ)) → ℕ → Proto → List DownLink → Faultable (Proto × ℕ)
send_round again num_sent s [] = ok (s, num_sent)
send_round again num_sent s (d ∷ ds) = send_fragment d ds s >>= again

abbrev pub count_sent : Bool → ℕ → ℕ
count_sent sent n = if sent then n + 1 else n

-- The `while` loop. A round sends one fragment, so the fragments that wait are fuel enough; with no
-- fuel it is given up as a fault.
unfoldable pub send_loop : ℕ → ℕ → ℕ → Proto → Faultable (Proto × ℕ)
send_loop zero allowed num_sent s = exit
send_loop (suc f) allowed num_sent s =
    let again = λ (r : Proto × Bool). send_loop f allowed (count_sent r.1 num_sent) r.0 in
    if ltb num_sent allowed
    then send_round again num_sent s s.down_queue.links
    else ok (s, num_sent)

abbrev pub total_elements : List DownLink → ℕ
total_elements [] = 0
total_elements (d ∷ ds) = length d.mess + total_elements ds

-- the fragments that wait
abbrev pub waiting : DownQueue → ℕ
waiting q = total_elements q.links - q.cur_element

-- `Send_new_packets`, with the number of sends that it counts
unfoldable pub send_new_packets : ℕ → Proto → Faultable (Proto × ℕ)
send_new_packets num_allowed s = send_loop (waiting s.down_queue + 1) num_allowed 0 s >>= λ r.
    let (net', flushed) = flush_bcast r.0.net in
    ok (record (r.0) { net = net' }, count_sent flushed r.1)
