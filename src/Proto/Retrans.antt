-- ===== src/Proto/Retrans.antt =====
-- daemon/protocol.c: `Answer_retrans`, which serves the retransmission requests on the token.
-- The request area is a list of `ring_rtr` blocks; `rtr_len` is its size in bytes.
use in5020_assignment.Prelude.{
  ℕ, ◌+◌, ◌*◌, Bool, false, not, ◌==◌, ltb, if◌then◌else◌, List, [], ◌∷◌, length, snoc, Option,
  none, some, Faultable, ok, exit, ◌>>=◌,
}
use in5020_assignment.Wire.{RingRtr, memb_is_equal}
use in5020_assignment.Net.{Packet, ucast, scast, queue_bcast, flush_bcast, stamped, written, Net}
use in5020_assignment.Proto.{Proto, entry, slot_at, put_slot}

-- `sizeof( ring_rtr )` and `sizeof( int32 )`
abbrev pub rtr_header_size : ℕ
rtr_header_size = 16

abbrev pub rtr_bytes : List RingRtr → ℕ
rtr_bytes [] = 0
rtr_bytes (r ∷ rs) = rtr_header_size + 4 * length r.seqs + rtr_bytes rs

-- what the two loops carry: the blocks kept, `num_retrans`, and whom to ask for what is missing
pub record Answer : Type 0 where
  pub kept : List RingRtr
  pub num_retrans : ℕ
  pub proc_id : Option ℕ
  pub seg_index : Option ℕ

-- To one daemon if the request came from one, else to one segment, else to all.
unfoldable pub retransmit : RingRtr → Packet → Proto → Net × Bool
retransmit r p s = elim r.proc_id [
  | some id ↦ ucast s.my.id s.cn.hash_code s.procs id p s.net
  | none ↦ elim r.seg_index [
    | some seg ↦ scast s.my.id s.cn.hash_code s.my.seg_index seg p s.net
    | none ↦ queue_bcast s.my.id s.cn.hash_code p s.net
  ]
]

-- The stored packet after that: its header is the one that the network writes.
unfoldable pub sent_packet : RingRtr → Packet → Proto → Packet
sent_packet r p s = elim r.proc_id [
  | some id ↦ stamped s.my.id s.cn.hash_code p
  | none ↦ elim r.seg_index [
    | some seg ↦ stamped s.my.id s.cn.hash_code p
    | none ↦ written s.my.id s.cn.hash_code p s.net
  ]
]

abbrev pub is_my_segment : Option ℕ → ℕ → Bool
is_my_segment none k = false
is_my_segment (some j) k = j == k

-- A request for a packet that this daemon lacks too: the next request names no daemon, and no
-- segment unless it came from this one.
abbrev pub missing_too : RingRtr → Proto → Answer → Answer
missing_too r s a = record a {
  proc_id = none;
  seg_index = if is_my_segment r.seg_index s.my.seg_index then a.seg_index else none;
}

unfoldable pub answer_seqs : RingRtr → List ℕ → Proto → Answer → Faultable (Proto × Answer)
answer_seqs r [] s a = ok (s, a)
answer_seqs r (q ∷ qs) s a =
    let c = slot_at s q in
    let reply = retransmit r c.packet s in
    let found =
      answer_seqs r qs
        (put_slot (entry q) (record c { packet = sent_packet r c.packet s })
          (record s { net = reply.0 }))
        (if reply.1 then record a { num_retrans = a.num_retrans + 1 } else a) in
    let lacking = answer_seqs r qs s (missing_too r s a) in
    if ltb q s.aru then exit else if not (c.exist == 0) then found else lacking

-- The `while` loop over the blocks: those of this ring are served, the others copied.
unfoldable pub answer_blocks : List RingRtr → Proto → Answer → Faultable (Proto × Answer)
answer_blocks [] s a = ok (s, a)
answer_blocks (r ∷ rs) s a =
    let served = answer_seqs r r.seqs s a >>= λ t. answer_blocks rs t.0 t.1 in
    let copied = answer_blocks rs s (record a { kept = snoc a.kept r }) in
    if memb_is_equal r.memb_id s.memb.membership_id then served else copied

-- `Answer_retrans`
unfoldable pub answer_retrans : List RingRtr → Proto → Faultable (Proto × Answer)
answer_retrans rtrs s =
    answer_blocks rtrs s (record {
      kept = [];
      num_retrans = 0;
      proc_id = some s.my.id;
      seg_index = some s.my.seg_index;
    })
    >>= λ t.
        let (net', flushed) = flush_bcast t.0.net in
        ok (
          record (t.0) { net = net' },
          if flushed then record (t.1) { num_retrans = t.1.num_retrans + 1 } else t.1,
        )
