-- ===== src/Wire.antt =====
-- daemon/net_types.h and the endianness macros of daemon/arch.h: the bit fields of a packet's or a
-- token's type word, and the byte swaps. A type word is its 32-bit pattern.
pub mod Flip
use in5020_assignment.Prelude.{
  ℕ, ℤ, pos, negsuc, ◌+◌, ◌-◌, ◌*◌, ◌/◌, ◌%◌, ◌^◌, Bool, not, ◌&&◌, ltb, ◌==◌, if◌then◌else◌, List,
  Option,
}

-- `type & mask` for the mask of the `w` bits from bit `k` on
abbrev pub field : ℕ → ℕ → ℕ → ℕ
field k w t = t / 2 ^ k % 2 ^ w

abbrev pub has_field : ℕ → ℕ → ℕ → Bool
has_field k w t = not (field k w t == 0)

-- `(type & ~mask) | ((val << k) & mask)` for the same mask
abbrev pub set_field : ℕ → ℕ → ℕ → ℕ → ℕ
set_field k w t v = t / 2 ^ (k + w) * 2 ^ (k + w) + v % 2 ^ w * 2 ^ k + t % 2 ^ k

abbrev pub is_reliable : ℕ → Bool
is_reliable = has_field 1 1

abbrev pub is_safe : ℕ → Bool
is_safe = has_field 4 1

abbrev pub is_regular : ℕ → Bool
is_regular = has_field 0 5

abbrev pub is_hurry : ℕ → Bool
is_hurry = has_field 6 1

abbrev pub is_membership : ℕ → Bool
is_membership = has_field 8 3

abbrev pub is_form : ℕ → Bool
is_form = has_field 12 2

abbrev pub is_status : ℕ → Bool
is_status = has_field 24 1

abbrev pub is_fc : ℕ → Bool
is_fc = has_field 26 1

abbrev pub is_conf_reload : ℕ → Bool
is_conf_reload = has_field 27 1

abbrev pub get_arq : ℕ → ℕ
get_arq = field 16 4

abbrev pub set_arq : ℕ → ℕ → ℕ
set_arq = set_field 16 4

abbrev pub get_retrans : ℕ → ℕ
get_retrans = field 20 4

abbrev pub set_retrans : ℕ → ℕ → ℕ
set_retrans = set_field 20 4

-- `Set_endian` on a little-endian machine, and `Set_routed`
abbrev pub set_endian : ℕ → ℕ
set_endian t = set_field 31 1 (set_field 7 1 t 1) 1

abbrev pub set_routed : ℕ → ℕ
set_routed t = set_field 5 1 t 1

-- `Same_endian`: bits 7 and 31 of the type word, on a little-endian machine, whose
-- ARCH_ENDIAN is 0x80000080.
abbrev pub same_endian : ℕ → Bool
same_endian t = field 7 1 t == 1 && field 31 1 t == 1

-- `Flip_int16` and `Flip_int32`, on bit patterns
unfoldable pub flip_int16 : ℕ → ℕ
flip_int16 x = x / 2 ^ 8 % 2 ^ 8 + x % 2 ^ 8 * 2 ^ 8

unfoldable pub flip_int32 : ℕ → ℕ
flip_int32 x =
    x / 2 ^ 24 % 2 ^ 8
    + x / 2 ^ 16 % 2 ^ 8 * 2 ^ 8
    + x / 2 ^ 8 % 2 ^ 8 * 2 ^ 16
    + x % 2 ^ 8 * 2 ^ 24

-- The pattern of an `int16`, and the value of a pattern.
abbrev pub bits16 : ℤ → ℕ
bits16 (pos n) = n % 2 ^ 16
bits16 (negsuc n) = 2 ^ 16 - 1 - n % 2 ^ 16

abbrev pub value16 : ℕ → ℤ
value16 m = if ltb (m % 2 ^ 16) (2 ^ 15) then pos (m % 2 ^ 16) else negsuc (2 ^ 16 - 1 - m % 2 ^ 16)

-- Conversion of an `int` to an `int16`.
abbrev pub to_int16 : ℤ → ℤ
to_int16 z = value16 (bits16 z)

pub record MembershipId : Type 0 where
  pub proc_id : ℕ
  pub time : ℕ

-- `packet_header`. Only `packet_index` takes negative values; the others are bit patterns.
pub record PacketHeader : Type 0 where
  pub type : ℕ
  pub transmiter_id : ℕ
  pub proc_id : ℕ
  pub memb_id : MembershipId
  pub seq : ℕ
  pub fifo_seq : ℕ
  pub packet_index : ℤ
  pub data_len : ℕ
  pub conf_hash : ℕ

-- `token_header`. Only `flow_control` takes negative values.
pub record TokenHeader : Type 0 where
  pub type : ℕ
  pub transmiter_id : ℕ
  pub seq : ℕ
  pub proc_id : ℕ
  pub aru : ℕ
  pub aru_last_id : ℕ
  pub flow_control : ℤ
  pub rtr_len : ℕ
  pub conf_hash : ℕ

-- `ring_rtr` with the sequence numbers that follow it, of which `num_seq` is the number. `none` stands
-- for the -1 of `proc_id` and of `seg_index`.
pub record RingRtr : Type 0 where
  pub memb_id : MembershipId
  pub proc_id : Option ℕ
  pub seg_index : Option ℕ
  pub seqs : List ℕ

unfoldable pub flip_pack : PacketHeader → PacketHeader
flip_pack p = record {
  type = flip_int32 p.type;
  transmiter_id = flip_int32 p.transmiter_id;
  proc_id = flip_int32 p.proc_id;
  memb_id = record { proc_id = flip_int32 p.memb_id.proc_id; time = flip_int32 p.memb_id.time };
  seq = flip_int32 p.seq;
  fifo_seq = flip_int32 p.fifo_seq;
  packet_index = value16 (flip_int16 (bits16 p.packet_index));
  data_len = flip_int16 p.data_len;
  conf_hash = flip_int32 p.conf_hash;
}

unfoldable pub flip_token : TokenHeader → TokenHeader
flip_token t = record {
  type = flip_int32 t.type;
  transmiter_id = flip_int32 t.transmiter_id;
  seq = flip_int32 t.seq;
  proc_id = flip_int32 t.proc_id;
  aru = flip_int32 t.aru;
  aru_last_id = flip_int32 t.aru_last_id;
  flow_control = value16 (flip_int16 (bits16 t.flow_control));
  rtr_len = flip_int16 t.rtr_len;
  conf_hash = flip_int32 t.conf_hash;
}

-- `Memb_is_equal`
unfoldable pub memb_is_equal : MembershipId → MembershipId → Bool
memb_is_equal a b = a.proc_id == b.proc_id && a.time == b.time
