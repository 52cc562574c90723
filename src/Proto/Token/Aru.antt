-- ===== src/Proto/Token/Aru.antt =====
-- The aru that a daemon writes on the token, and what it takes for stable.
use in5020_assignment.Prelude.{
  ℕ, ◌≤◌, ◌≡◌, inl, inr, refl, ℤ, pos, Bool, true, false, ◌==◌, ltb, Bool-cases, List, arith, ◌||◌,
  eqb_ℤ, ltb_false→le, ltb→lt,
}
use in5020_assignment.Wire.{TokenHeader, RingRtr}
use in5020_assignment.Proto.{Proto}
use in5020_assignment.Proto.Token.{next_aru, next_token, pass_token, stable_aru}

pub next_aru-le : (t : TokenHeader) (s : Proto) → (next_aru t s).0.aru ≤ s.my_aru
unfolding next_aru
next_aru-le t s =
    elim (Bool-cases
      (eqb_ℤ (pos t.aru) s.set_aru || (t.aru_last_id == s.my.id || t.aru == t.seq))) [
        | inl mine ↦ rw mine (omega arith)
        | inr others ↦ elim (Bool-cases (ltb s.my_aru t.aru)) [
          | inl low ↦ rw (others, low) (omega arith)
          | inr high ↦ rw (others, high) (omega (arith, ltb_false→le s.my_aru t.aru high))
        ]
      ]

stable_aru-min :
    (t last : TokenHeader) → (stable_aru t last ≤ t.aru) × (stable_aru t last ≤ last.aru)
stable_aru-min t last = elim (Bool-cases (ltb last.aru t.aru)) [
  | inl low ↦ rw low (omega (arith, ltb→lt last.aru t.aru low), omega arith)
  | inr high ↦ rw high (omega arith, ltb_false→le last.aru t.aru high)
]

-- The token leaves a daemon with an aru that the daemon has reached. What the daemon then takes for
-- stable, `Aru`, is no more than this and no more than the aru of the token on its last visit, so it
-- never passes `My_aru`; the other marks of the window stay.
pub pass_token-aru :
    (lead : Bool) (len : ℕ) (flow set_aru : ℤ) (t : TokenHeader) (rtrs : List RingRtr) (s : Proto)
    → let t' = (next_token lead len flow t s).0 in
      let u = pass_token lead t' set_aru rtrs s in
      (u.last_token.aru ≤ u.my_aru)
      × (u.aru ≤ u.my_aru)
      × (u.aru ≤ s.last_token.aru)
      × (u.my_aru ≡ s.my_aru)
      × (u.highest_seq ≡ s.highest_seq)
unfolding pass_token next_token
pass_token-aru true len flow set_aru t rtrs s =
    let least = stable_aru-min (next_aru t s).0 s.last_token in
    (next_aru-le t s, omega (arith, least.0, next_aru-le t s), least.1, refl, refl)
pass_token-aru false len flow set_aru t rtrs s =
    let least = stable_aru-min (next_aru t s).0 s.last_token in
    (next_aru-le t s, omega (arith, least.0, next_aru-le t s), least.1, refl, refl)
