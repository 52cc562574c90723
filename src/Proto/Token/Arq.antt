-- ===== src/Proto/Token/Arq.antt =====
-- The ARQ number of the token: each daemon accepts each pass of the token once.
use in5020_assignment.Prelude.{
  ℕ, ◌+◌, ◌%◌, ◌≡◌, ◌≢◌, ◌<◌, ◌↔◌, refl, Bool, true, false, ◌==◌, leb, if◌then◌else◌, arith, sym,
  ◌∙◌, ap, ap₂,
}
use in5020_assignment.Wire.{get_arq, get_retrans}
use in5020_assignment.Proto.Token.{Verdict, accept, swallow, resend, screen, stamp}

arq-stamp : (t : ℕ) → get_arq (stamp true t) ≡ (get_arq t + 1) % 16
arq-stamp t = omega arith

retrans-stamp : (t : ℕ) → get_retrans (stamp true t) ≡ 0
retrans-stamp t = omega arith

arq_lt : (t : ℕ) → get_arq t < 16
arq_lt t = omega arith

-- The verdict on two ARQ numbers and two counts.
abbrev verdict : Bool → ℕ → ℕ → ℕ → ℕ → Verdict
verdict true a b r q = if a == b then accept else swallow
verdict false a b r q =
    if a == b
    then (if leb r q then swallow else resend r)
    else if a == (b + 1) % 16
    then accept
    else swallow

screen-verdict :
    (lead : Bool) (t last : ℕ)
    → screen lead t last
      ≡ verdict lead (get_arq t) (get_arq last) (get_retrans t) (get_retrans last)
unfolding screen
screen-verdict true t last = refl
screen-verdict false t last = refl

verdict_once : (a b r q q' : ℕ) → a < 16 → verdict true a ((a + 1) % 16) r q ≢ accept
verdict_once a b r q q' h = ground arith

-- A token that a daemon accepted, and whose type it remembers as it sent it on, is not accepted a
-- second time.
pub screen-accepts_once :
    (lead : Bool) (t last : ℕ) → screen lead t last ≡ accept → screen lead t (stamp lead t) ≢ accept
screen-accepts_once true t last h e =
    verdict_once (get_arq t) 0 (get_retrans t) (get_retrans (stamp true t)) 0 (arq_lt t) (
      ap (λ b. verdict true (get_arq t) b (get_retrans t) (get_retrans (stamp true t)))
        (sym (arq-stamp t))
      ∙ sym (screen-verdict true t (stamp true t))
      ∙ e)
screen-accepts_once false t last h e =
    again (get_arq t) (get_retrans t) (sym (screen-verdict false t t) ∙ e)
  where
    again : (a r : ℕ) → verdict false a a r r ≢ accept
    again a r = λ x. ground arith

-- The token that the leader stamps is accepted by every other daemon that remembers the pass before,
-- and by the leader when it comes back.
pub screen-accepts_round :
    (t other : ℕ)
    → get_arq other ≡ get_arq t
    → (screen false (stamp true t) other ≡ accept)
      × (screen true (stamp true t) (stamp true t) ≡ accept)
screen-accepts_round t other e = (
  screen-verdict false (stamp true t) other
      ∙ ap₂ (λ a b. verdict false a b (get_retrans (stamp true t)) (get_retrans other))
          (arq-stamp t) e
      ∙ next (get_arq t) (get_retrans (stamp true t)) (get_retrans other) (arq_lt t),
  screen-verdict true (stamp true t) (stamp true t)
      ∙ same (get_arq (stamp true t)) (get_retrans (stamp true t)),
)
  where
    next : (a r q : ℕ) → a < 16 → verdict false ((a + 1) % 16) a r q ≡ accept
    next a r q h = ground arith

    same : (a r : ℕ) → verdict true a a r r ≡ accept
    same a r = ground arith

-- A daemon that is not the leader sends its last token again exactly for a token of the same pass that
-- asks for more retransmissions than it knows of.
pub screen-resends :
    (t last n : ℕ)
    → (screen false t last ≡ resend n)
      ↔ (get_arq t ≡ get_arq last) × (get_retrans last < get_retrans t) × (n ≡ get_retrans t)
screen-resends t last n = (
  λ e.
      there (get_arq t) (get_arq last) (get_retrans t) (get_retrans last)
        (sym (screen-verdict false t last) ∙ e),
  λ h.
      screen-verdict false t last
      ∙ back (get_arq t) (get_arq last) (get_retrans t) (get_retrans last) h.0 h.1 h.2,
)
  where
    there : (a b r q : ℕ) → verdict false a b r q ≡ resend n → (a ≡ b) × (q < r) × (n ≡ r)
    there a b r q e = ground arith

    back : (a b r q : ℕ) → a ≡ b → q < r → n ≡ r → verdict false a b r q ≡ resend n
    back a b r q e h k = ground arith
