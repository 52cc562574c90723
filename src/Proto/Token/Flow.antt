-- ===== src/Proto/Token/Flow.antt =====
-- The token's flow control is the sum of what the daemons of the ring sent on their last visits.
use in5020_assignment.Prelude.{
  ℕ, ◌+◌, ◌^◌, ◌<◌, ◌≡◌, pos, ◌+ℤ◌, ◌-ℤ◌, +ℤ_parts, -ℤ_parts, eq_of_parts, arith, ◌∙◌, ap,
}
use in5020_assignment.Wire.{to_int16}
use in5020_assignment.Proto.{Proto}
use in5020_assignment.Proto.Token.{next_flow}

to_int16_small : (n : ℕ) → n < 2 ^ 15 → to_int16 (pos n) ≡ pos n
to_int16_small n h = ground arith

-- A visit takes this daemon's last share out of the token's flow control and puts its new one in: from
-- the sum of the other shares and its last it becomes the sum of the others and the new. The condition
-- is that the sum fits the `int16`.
pub next_flow-share :
    (others : ℕ) (s : Proto) (num_retrans num_sent : ℕ)
    → others + num_retrans + num_sent < 2 ^ 15
    → next_flow (pos (others + s.last_num_retrans + s.last_num_sent)) s num_retrans num_sent
      ≡ pos (others + num_retrans + num_sent)
next_flow-share others s r n h =
    ap to_int16 (sum others s.last_num_retrans s.last_num_sent r n)
    ∙ to_int16_small (others + r + n) h
  where
    sum : (o a b r n : ℕ) → pos (o + a + b) -ℤ pos a -ℤ pos b +ℤ pos r +ℤ pos n ≡ pos (o + r + n)
    sum o a b r n = eq_of_parts _ _ (
        omega (
          arith,
          -ℤ_parts (pos (o + a + b)) (pos a),
          -ℤ_parts (pos (o + a + b) -ℤ pos a) (pos b),
          +ℤ_parts (pos (o + a + b) -ℤ pos a -ℤ pos b) (pos r),
          +ℤ_parts (pos (o + a + b) -ℤ pos a -ℤ pos b +ℤ pos r) (pos n),
        ))
