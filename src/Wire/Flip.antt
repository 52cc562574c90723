-- ===== src/Wire/Flip.antt =====
-- The byte swaps of daemon/arch.h and daemon/network.c undo themselves.
use in5020_assignment.Prelude.{
  ℕ, ℤ, pos, negsuc, pos_part, neg_part, ◌%◌, ◌^◌, ◌<◌, ◌≤◌, ◌≡◌, arith, ap, ◌∙◌,
}
use in5020_assignment.Wire.{
  PacketHeader, TokenHeader, flip_int16, flip_int32, bits16, value16, flip_pack, flip_token,
  get_arq, set_arq, get_retrans, set_retrans,
}

pub flip_int16-flip_int16 : (x : ℕ) → x < 2 ^ 16 → flip_int16 (flip_int16 x) ≡ x
unfolding flip_int16
flip_int16-flip_int16 x h = omega arith

pub flip_int32-flip_int32 : (x : ℕ) → x < 2 ^ 32 → flip_int32 (flip_int32 x) ≡ x
unfolding flip_int32
flip_int32-flip_int32 x h = omega arith

flip_int16-lt : (x : ℕ) → flip_int16 x < 2 ^ 16
unfolding flip_int16
flip_int16-lt x = omega arith

bits16-value16 : (m : ℕ) → m < 2 ^ 16 → bits16 (value16 m) ≡ m
bits16-value16 m h = ground arith

value16-bits16 : (z : ℤ) → pos_part z < 2 ^ 15 → neg_part z ≤ 2 ^ 15 → value16 (bits16 z) ≡ z
value16-bits16 (pos n) h k = ground arith
value16-bits16 (negsuc n) h k = ground arith

flip_signed :
    (z : ℤ)
    → pos_part z < 2 ^ 15
    → neg_part z ≤ 2 ^ 15
    → value16 (flip_int16 (bits16 (value16 (flip_int16 (bits16 z))))) ≡ z
flip_signed z h k =
    ap (λ m. value16 (flip_int16 m))
      (bits16-value16 (flip_int16 (bits16 z)) (flip_int16-lt (bits16 z)))
    ∙ ap value16 (flip_int16-flip_int16 (bits16 z) (bits16-lt z))
    ∙ value16-bits16 z h k
  where
    bits16-lt : (z : ℤ) → bits16 z < 2 ^ 16
    bits16-lt (pos n) = omega arith
    bits16-lt (negsuc n) = omega arith

-- every field of a packet header is in the range of its C type
pub record FitsPacket (p : PacketHeader) : Type 0 where
  pub type : p.type < 2 ^ 32
  pub transmiter_id : p.transmiter_id < 2 ^ 32
  pub proc_id : p.proc_id < 2 ^ 32
  pub memb_proc_id : p.memb_id.proc_id < 2 ^ 32
  pub memb_time : p.memb_id.time < 2 ^ 32
  pub seq : p.seq < 2 ^ 32
  pub fifo_seq : p.fifo_seq < 2 ^ 32
  pub packet_index : pos_part p.packet_index < 2 ^ 15
  pub packet_index_neg : neg_part p.packet_index ≤ 2 ^ 15
  pub data_len : p.data_len < 2 ^ 16
  pub conf_hash : p.conf_hash < 2 ^ 32

pub record FitsToken (t : TokenHeader) : Type 0 where
  pub type : t.type < 2 ^ 32
  pub transmiter_id : t.transmiter_id < 2 ^ 32
  pub seq : t.seq < 2 ^ 32
  pub proc_id : t.proc_id < 2 ^ 32
  pub aru : t.aru < 2 ^ 32
  pub aru_last_id : t.aru_last_id < 2 ^ 32
  pub flow_control : pos_part t.flow_control < 2 ^ 15
  pub flow_control_neg : neg_part t.flow_control ≤ 2 ^ 15
  pub rtr_len : t.rtr_len < 2 ^ 16
  pub conf_hash : t.conf_hash < 2 ^ 32

-- Swapping a packet header's bytes twice gives the header back, if each field is in the range of its C
-- type.
pub flip_pack-flip_pack : (p : PacketHeader) → FitsPacket p → flip_pack (flip_pack p) ≡ p
unfolding flip_pack
flip_pack-flip_pack p f = λ i. record {
  type = flip_int32-flip_int32 p.type f.type i;
  transmiter_id = flip_int32-flip_int32 p.transmiter_id f.transmiter_id i;
  proc_id = flip_int32-flip_int32 p.proc_id f.proc_id i;
  memb_id = record {
    proc_id = flip_int32-flip_int32 p.memb_id.proc_id f.memb_proc_id i;
    time = flip_int32-flip_int32 p.memb_id.time f.memb_time i;
  };
  seq = flip_int32-flip_int32 p.seq f.seq i;
  fifo_seq = flip_int32-flip_int32 p.fifo_seq f.fifo_seq i;
  packet_index = flip_signed p.packet_index f.packet_index f.packet_index_neg i;
  data_len = flip_int16-flip_int16 p.data_len f.data_len i;
  conf_hash = flip_int32-flip_int32 p.conf_hash f.conf_hash i;
}

-- Swapping a token header's bytes twice gives the header back, if each field is in the range of its C
-- type.
pub flip_token-flip_token : (t : TokenHeader) → FitsToken t → flip_token (flip_token t) ≡ t
unfolding flip_token
flip_token-flip_token t f = λ i. record {
  type = flip_int32-flip_int32 t.type f.type i;
  transmiter_id = flip_int32-flip_int32 t.transmiter_id f.transmiter_id i;
  seq = flip_int32-flip_int32 t.seq f.seq i;
  proc_id = flip_int32-flip_int32 t.proc_id f.proc_id i;
  aru = flip_int32-flip_int32 t.aru f.aru i;
  aru_last_id = flip_int32-flip_int32 t.aru_last_id f.aru_last_id i;
  flow_control = flip_signed t.flow_control f.flow_control f.flow_control_neg i;
  rtr_len = flip_int16-flip_int16 t.rtr_len f.rtr_len i;
  conf_hash = flip_int32-flip_int32 t.conf_hash f.conf_hash i;
}

-- Writing the ARQ number into a type word stores it modulo 16 and leaves the retransmission count, and
-- conversely.
pub arq_retrans_fields :
    (t v : ℕ)
    → (get_arq (set_arq t v) ≡ v % 16)
      × (get_retrans (set_arq t v) ≡ get_retrans t)
      × (get_retrans (set_retrans t v) ≡ v % 16)
      × (get_arq (set_retrans t v) ≡ get_arq t)
arq_retrans_fields t v = omega arith
