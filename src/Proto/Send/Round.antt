-- ===== src/Proto/Send/Round.antt =====
-- One round of `Send_new_packets`: a fragment takes the next sequence number and its cell.
use in5020_assignment.Prelude.{
  ℕ, ◌+◌, ◌/◌, ◌%◌, ◌^◌, not, ◌||◌, arith, ◌≤◌, ◌<◌, ◌≡◌, inl, inr, refl, Bool, true, ◌==◌, ltb,
  if◌then◌else◌, Bool-cases, List, [], ◌∷◌, length, All, some, get_elem?, ok, update, sym, ◌∙◌, ap,
  ==_iff, ap₂,
}
use in5020_assignment.Wire.{is_safe, is_reliable, set_endian}
use in5020_assignment.Net.{Packet, Net, queue_bcast, written, is_full}
use in5020_assignment.Proto.{Proto, Slot, DownLink, DownQueue, entry, slot_at, water_mark}
use in5020_assignment.Proto.Send.{
  next_header, fragment_index, pop_fragment, stored, send_packet, send_fragment,
}

abbrev pub ProperLinks : List DownLink → ℕ → Type 0
ProperLinks [] cur = cur ≡ 0
ProperLinks (d ∷ ds) cur = (cur < length d.mess) × All (λ (e : DownLink). 0 < length e.mess) ds

-- Every message has an element, and `cur_element` is one of the first message's.
abbrev pub Proper : DownQueue → Type 0
Proper q = ProperLinks q.links q.cur_element

-- The cells of the next `n` sequence numbers are free.
abbrev pub Free : ℕ → Proto → Type 0
Free n s = (j : ℕ) → s.highest_seq < j → j ≤ s.highest_seq + n → (slot_at s j).exist ≡ 0

-- A packet as it was given, but for what the network writes into its header.
pub record AsWritten (p w : Packet) : Type 0 where
  pub seq : w.head.seq ≡ p.head.seq
  pub index : w.head.packet_index ≡ p.head.packet_index
  pub same_body : w.body ≡ p.body
  pub reliable : is_reliable w.head.type ≡ is_reliable p.head.type
  pub safe : is_safe w.head.type ≡ is_safe p.head.type

endian_bits :
    (t : ℕ)
    → (set_endian t / 2 ^ 1 % 2 ≡ t / 2 ^ 1 % 2) × (set_endian t / 2 ^ 4 % 2 ≡ t / 2 ^ 4 % 2)
endian_bits t = (omega arith, omega arith)

pub written-AsWritten : (me hash : ℕ) (p : Packet) (n : Net) → AsWritten p (written me hash p n)
unfolding written
written-AsWritten me hash p n = elim (Bool-cases (n.queued_bytes == 0 || is_full p n)) [
  | inr later ↦
      rw (later)
        (record { seq = refl; index = refl; same_body = refl; reliable = refl; safe = refl })
  | inl first ↦
      let (one, four) = endian_bits p.head.type in
      rw (first) (record {
        seq = refl;
        index = refl;
        same_body = refl;
        reliable = ap (λ k. not (k == 0)) one;
        safe = ap (λ k. not (k == 0)) four;
      })
]

-- what one fragment sent changes
pub record Sent (s t : Proto) (p : Packet) : Type 0 where
  pub highest_seq : t.highest_seq ≡ s.highest_seq + 1
  pub packet : Packet
  pub as_written : AsWritten p packet
  pub packets :
      t.packets
      ≡ update s.packets
          (entry (s.highest_seq + 1))
          (record { packet = packet; exist = 1; proc_index = s.my_index })
  pub my_index : t.my_index ≡ s.my_index
  pub up_queue : t.up_queue ≡ s.up_queue
  pub last_delivered : t.last_delivered ≡ s.last_delivered

unfoldable pub fragment_of : Proto → DownLink → List ℕ → Packet
fragment_of s d body = record {
  head =
      next_header s d.type (fragment_index s.down_queue.cur_element (length d.mess)) (length body);
  body = body;
}

-- the down queue that `pop_fragment` leaves
unfoldable pub popped : DownLink → List DownLink → ℕ → DownQueue
popped d ds cur =
    if ltb (cur + 1) (length d.mess)
    then record { links = d ∷ ds; cur_element = cur + 1 }
    else record { links = ds; cur_element = 0 }

pop_fragment_queue :
    (d : DownLink) (ds : List DownLink) (cur : ℕ) (s : Proto)
    → (pop_fragment d ds cur s).down_queue ≡ popped d ds cur
unfolding pop_fragment popped
pop_fragment_queue d ds cur s = elim (Bool-cases (ltb (cur + 1) (length d.mess))) [
  | inl more ↦ rw more
  | inr last ↦ elim (Bool-cases (ltb (length ds) water_mark)) [
    | inl low ↦ rw (last, low)
    | inr high ↦ rw (last, high)
  ]
]

-- What of the state the rest of a round uses, unchanged by the queue's step.
record SameCells (s t : Proto) : Type 0 where
  packets : t.packets ≡ s.packets
  highest_seq : t.highest_seq ≡ s.highest_seq
  my_index : t.my_index ≡ s.my_index
  up_queue : t.up_queue ≡ s.up_queue
  last_delivered : t.last_delivered ≡ s.last_delivered

pop_fragment-SameCells :
    (d : DownLink) (ds : List DownLink) (cur : ℕ) (s : Proto)
    → SameCells s (pop_fragment d ds cur s)
unfolding pop_fragment
pop_fragment-SameCells d ds cur s = elim (Bool-cases (ltb (cur + 1) (length d.mess))) [
  | inl more ↦ rw more (record {
    packets = refl;
    highest_seq = refl;
    my_index = refl;
    up_queue = refl;
    last_delivered = refl;
  })
  | inr last ↦ elim (Bool-cases (ltb (length ds) water_mark)) [
    | inl low ↦
        rw (last, low)
          (record {
            packets = refl;
            highest_seq = refl;
            my_index = refl;
            up_queue = refl;
            last_delivered = refl;
          })
    | inr high ↦
        rw (last, high)
          (record {
            packets = refl;
            highest_seq = refl;
            my_index = refl;
            up_queue = refl;
            last_delivered = refl;
          })
  ]
]

-- A packet for the next sequence number goes into its free cell.
send_packet_total :
    (p : Packet) (s : Proto)
    → p.head.seq ≡ s.highest_seq + 1
    → (slot_at s (s.highest_seq + 1)).exist ≡ 0
    → (t : Proto) × (sent : Bool) × (send_packet p s ≡ ok (t, sent))
      × Sent s t p
      × (t.down_queue ≡ s.down_queue)
unfolding send_packet
send_packet_total p s e free =
    let there : ((slot_at s p.head.seq).exist == 0) ≡ true =
      (==_iff _ _).1 (ap (λ k. (slot_at s k).exist) e ∙ free) in
    let w = written s.my.id s.cn.hash_code p s.net in
    let as_written = written-AsWritten s.my.id s.cn.hash_code p s.net in
    (
      stored w (queue_bcast s.my.id s.cn.hash_code p s.net).0 s,
      (queue_bcast s.my.id s.cn.hash_code p s.net).1,
      rw there,
      record {
        highest_seq = refl;
        packet = w;
        as_written = as_written;
        packets =
            ap
              (λ k.
                update s.packets (entry k)
                  (record { packet = w; exist = 1; proc_index = s.my_index }))
              (as_written.seq ∙ e);
        my_index = refl;
        up_queue = refl;
        last_delivered = refl;
      },
      refl,
    )

-- One round sends the next fragment of the first message, if its cell is free.
pub send_fragment_total :
    (d : DownLink) (ds : List DownLink) (s : Proto) (body : List ℕ)
    → get_elem? d.mess s.down_queue.cur_element ≡ some body
    → (slot_at s (s.highest_seq + 1)).exist ≡ 0
    → (t : Proto) × (sent : Bool) × (send_fragment d ds s ≡ ok (t, sent))
      × Sent s t (fragment_of s d body)
      × (t.down_queue ≡ popped d ds s.down_queue.cur_element)
unfolding send_fragment fragment_of
send_fragment_total d ds s body at free =
    let cur = s.down_queue.cur_element in
    let s1 = pop_fragment d ds cur s in
    let same = pop_fragment-SameCells d ds cur s in
    let (t, sent, e, st, q) =
      send_packet_total (fragment_of s d body) s1 (ap (λ n. n + 1) (sym same.highest_seq)) (
        ap₂ (λ (f : ℕ → Slot) k. (f (entry (k + 1))).exist) same.packets same.highest_seq ∙ free) in
    (
      t,
      sent,
      rw (at, send_fragment) e,
      record {
        highest_seq = st.highest_seq ∙ ap (λ n. n + 1) same.highest_seq;
        packet = st.packet;
        as_written = st.as_written;
        packets = st.packets ∙ (λ i.
            update (same.packets i) (entry (same.highest_seq i + 1))
              (record { packet = st.packet; exist = 1; proc_index = same.my_index i }));
        my_index = st.my_index ∙ same.my_index;
        up_queue = st.up_queue ∙ same.up_queue;
        last_delivered = st.last_delivered ∙ same.last_delivered;
      },
      q ∙ pop_fragment_queue d ds cur s,
    )
