-- ===== src/Net/Packing.antt =====
-- The datagram that network.c packs stays within its limits, and loses no packet.
use in5020_assignment.Prelude.{
  ℕ, ◌+◌, ◌≤◌, ◌≡◌, refl, sym, ap, ◌∙◌, true, false, ltb, ◌||◌, ◌==◌, Bool-cases, inl, inr, List,
  [], ◌∷◌, ◌++◌, arith, snoc, append-nil, append_assoc,
}
use in5020_assignment.Net.{
  Net, Packet, packet_bytes, max_packet_size, scatter_size, flush_bcast, queue_bcast, send_all,
  align_bytes, align_num_scatter, append_packet, is_full, written, dl_send, send_each, Datagram,
  packed, token,
}

-- the bytes of a datagram of `b` bytes with packets put to it, each aligned to 4
abbrev pub laid : ℕ → List Packet → ℕ
laid b [] = b
laid b (p ∷ ps) = laid (b + align_bytes b + packet_bytes p) ps

-- the scatter elements of the same, of which `k` are there: two for a packet, one for its padding
abbrev pub elements_of : ℕ → ℕ → List Packet → ℕ
elements_of b k [] = k
elements_of b k (p ∷ ps) =
    elements_of (b + align_bytes b + packet_bytes p) (k + align_num_scatter b + 2) ps

laid-snoc :
    (b : ℕ) (ps : List Packet) (p : Packet)
    → laid b (snoc ps p) ≡ laid b ps + align_bytes (laid b ps) + packet_bytes p
laid-snoc b [] p = refl
laid-snoc b (q ∷ ps) p = laid-snoc (b + align_bytes b + packet_bytes q) ps p

elements_of-snoc :
    (b k : ℕ) (ps : List Packet) (p : Packet)
    → elements_of b k (snoc ps p) ≡ elements_of b k ps + align_num_scatter (laid b ps) + 2
elements_of-snoc b k [] p = refl
elements_of-snoc b k (q ∷ ps) p =
    elements_of-snoc (b + align_bytes b + packet_bytes q) (k + align_num_scatter b + 2) ps p

-- A datagram that holds a packet is not empty.
laid_grows : (b : ℕ) (ps : List Packet) → b ≤ laid b ps
laid_grows b [] = omega arith
laid_grows b (p ∷ ps) = omega (arith, laid_grows (b + align_bytes b + packet_bytes p) ps)

-- The counters are those of the packets that are queued, and within the limits.
pub record Fits (n : Net) : Type 0 where
  pub counted : n.queued_bytes ≡ laid 0 n.queued
  pub elements_counted : n.num_elements ≡ elements_of 0 0 n.queued
  pub bytes : n.queued_bytes ≤ max_packet_size
  pub elements : n.num_elements ≤ scatter_size

none_queued : (ps : List Packet) → laid 0 ps ≡ 0 → ps ≡ []
none_queued [] h = refl
none_queued (p ∷ ps) h =
    absurd (omega (arith, h, laid_grows (0 + align_bytes 0 + packet_bytes p) ps))

Fits-empty : (n : Net) → Fits n → n.queued_bytes ≡ 0 → (n.queued ≡ []) × (n.num_elements ≡ 0)
Fits-empty n f h =
    let gone = none_queued n.queued (sym f.counted ∙ h) in
    (gone, f.elements_counted ∙ ap (elements_of 0 0) gone)

-- One packet fits a datagram by itself.
abbrev pub IsSmall : Packet → Type 0
IsSmall p = packet_bytes p ≤ max_packet_size

-- `Net_flush_bcast` leaves nothing queued.
pub flush_bcast-empty :
    (n : Net)
    → Fits n
    → let n' = (flush_bcast n).0 in (n'.queued ≡ []) × (n'.queued_bytes ≡ 0) × (n'.num_elements ≡ 0)
unfolding flush_bcast
flush_bcast-empty n f = ground (arith, Fits-empty n f)

written_bytes :
    (me hash : ℕ) (p : Packet) (n : Net) → packet_bytes (written me hash p n) ≡ packet_bytes p
unfolding written
written_bytes me hash p n = elim (Bool-cases (n.queued_bytes == 0 || is_full p n)) [
  | inl first ↦ rw (first) refl
  | inr later ↦ rw (later) refl
]

bytes_room :
    (n : Net) (size : ℕ)
    → (ltb max_packet_size (n.queued_bytes + size + align_bytes n.queued_bytes)
        || ltb scatter_size (n.num_elements + 2 + align_num_scatter n.queued_bytes))
      ≡ false
    → n.queued_bytes + size + align_bytes n.queued_bytes ≤ max_packet_size
bytes_room n size h = ground (arith, h)

append_packet-Fits :
    (p : Packet) (n : Net)
    → Fits n
    → n.queued_bytes + packet_bytes p + align_bytes n.queued_bytes ≤ max_packet_size
    → n.num_elements + 2 + align_num_scatter n.queued_bytes ≤ scatter_size
    → Fits (append_packet p (align_bytes n.queued_bytes) (align_num_scatter n.queued_bytes) n)
append_packet-Fits p n f room places = record {
  counted = rw (laid-snoc 0 n.queued p, sym f.counted) refl;
  elements_counted =
      rw (elements_of-snoc 0 0 n.queued p, sym f.elements_counted, sym f.counted) refl;
  bytes = omega (arith, room);
  elements = omega (arith, places);
}

-- When the counters of bytes and of scatter elements are those of the packets that are queued, padding
-- included, `Net_queue_bcast` keeps them so, and keeps the queued datagram within MAX_PACKET_SIZE
-- bytes and ARCH_SCATTER_SIZE scatter elements, whatever packet it is given that fits a datagram by
-- itself.
pub queue_bcast-Fits :
    (me hash : ℕ) (p : Packet) (n : Net) → IsSmall p → Fits n → Fits (queue_bcast me hash p n).0
unfolding queue_bcast
queue_bcast-Fits me hash p n s f =
    let same = written_bytes me hash p n in
    elim (Bool-cases (is_full p n)) [
      | inl full ↦ rw (full) (
          alone (written me hash p n) (flush_bcast n).0 (flush_bcast-empty n f)
            (omega (arith, same, s)))
      | inr room ↦ rw (room) (
          append_packet-Fits (written me hash p n) n f
            (let h = bytes_room n (packet_bytes p) room in omega (arith, same, h))
            (ground (arith, room)))
    ]
  where
    alone :
        (p : Packet) (n : Net)
        → (n.queued ≡ []) × (n.queued_bytes ≡ 0) × (n.num_elements ≡ 0)
        → IsSmall p
        → Fits (append_packet p 0 0 n)
    alone p n e s = record {
      counted = rw (e.0) omega (arith, e.1);
      elements_counted = rw (e.0) omega (arith, e.2);
      bytes = omega (arith, e.1, s);
      elements = omega (arith, e.2);
    }

-- the packets of the datagrams sent, oldest first
abbrev pub on_wire : List Datagram → List Packet
on_wire [] = []
on_wire (packed a ps ∷ ds) = on_wire ds ++ ps
on_wire (token t rtrs ∷ ds) = on_wire ds

flush_bcast-carries :
    (n : Net)
    → Fits n
    → n.bcast_needed ≡ true
    → n.send_to ≡ []
    → on_wire (flush_bcast n).0.sent ≡ on_wire n.sent ++ n.queued
unfolding flush_bcast send_all send_each dl_send
flush_bcast-carries n f b s = ground (arith, append-nil (on_wire n.sent), Fits-empty n f)

-- In a one-segment network, from a queued datagram within its limits, what is sent and queued is every packet given to `Net_queue_bcast`, once
-- and in order: the new one comes last, with its header written if it is the first of a datagram.
pub queue_bcast-carries :
    (me hash : ℕ) (p : Packet) (n : Net)
    → Fits n
    → n.bcast_needed ≡ true
    → n.send_to ≡ []
    → let n' = (queue_bcast me hash p n).0 in
      on_wire n'.sent ++ n'.queued ≡ snoc (on_wire n.sent ++ n.queued) (written me hash p n)
unfolding queue_bcast
queue_bcast-carries me hash p n f b s = ground (
  arith,
  flush_bcast-carries n f b s,
  flush_bcast-empty n f,
  append_assoc (on_wire n.sent) n.queued (written me hash p n ∷ []),
)
