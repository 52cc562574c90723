-- ===== src/Events/Timers/Order.antt =====
-- The timed events stay in the order of their times.
use in5020_assignment.Prelude.{
  ℕ, ◌≡◌, ◌≢◌, refl, Bool, true, false, Bool-cases, List, [], ◌∷◌, All, arith, inl, inr, ◌⊎◌,
}
use in5020_assignment.Events.Clock.{
  SpTime, compare_time, Comparison, before, after, same, NotAfter, NotAfter-trans,
  NotAfter-of_before,
}
use in5020_assignment.Events.Timers.{TimeEvent, similar, is_before, place, link_rest, link, queue}

abbrev pub Sorted : List TimeEvent → Type 0
Sorted [] = Unit
Sorted (x ∷ xs) = All (λ y. NotAfter x.t y.t) xs × Sorted xs

before_cases :
    (c : Comparison)
    → ((is_before c ≡ true) × (c ≡ before)) ⊎ ((is_before c ≡ false) × (c ≢ before))
before_cases before = inl (refl, refl)
before_cases after = inr (refl, λ e. cc)
before_cases same = inr (refl, λ e. cc)

module _ (P : TimeEvent → Type 0) (e : TimeEvent) where
  place-All :
      (inserted deleted : Bool) (ps : List TimeEvent)
      → (inserted ≡ false → P e)
      → All P ps
      → All P (place e inserted deleted ps)
  unfolding place
  place-All true deleted [] h a = tt
  place-All false deleted [] h a = (h refl, tt)
  place-All true true (p ∷ ps) h a = a
  place-All true false (p ∷ ps) h a = elim (Bool-cases (similar e p)) [
    | inl s ↦ rw s (place-All true true ps h a.1)
    | inr d ↦ rw d (a.0, place-All true false ps h a.1)
  ]
  place-All false deleted (p ∷ ps) h a = elim (Bool-cases (similar e p)) [
    | inl s ↦ rw s (place-All false true ps h a.1)
    | inr d ↦ elim (Bool-cases (is_before (compare_time e.t p.t))) [
      | inl b ↦ rw (d, b) (h refl, (a.0, place-All true deleted ps (λ x. h refl) a.1))
      | inr n ↦ rw (d, n) (a.0, place-All false deleted ps h a.1)
    ]
  ]

weaken :
    (x y : SpTime) (ps : List TimeEvent)
    → NotAfter x y
    → All (λ p. NotAfter y p.t) ps
    → All (λ p. NotAfter x p.t) ps
weaken x y [] h a = tt
weaken x y (p ∷ ps) h a = (NotAfter-trans x y p.t h a.0, weaken x y ps h a.1)

module _ (e : TimeEvent) where
  place-Sorted :
      (inserted deleted : Bool) (ps : List TimeEvent)
      → Sorted ps
      → Sorted (place e inserted deleted ps)
  unfolding place
  place-Sorted true deleted [] a = tt
  place-Sorted false deleted [] a = (tt, tt)
  place-Sorted true true (p ∷ ps) a = a
  place-Sorted true false (p ∷ ps) a = elim (Bool-cases (similar e p)) [
    | inl s ↦ rw s (place-Sorted true true ps a.1)
    | inr d ↦ rw d (
      place-All (λ q. NotAfter p.t q.t) e true false ps (λ x. absurd (ground arith)) a.0,
      place-Sorted true false ps a.1,
    )
  ]
  place-Sorted false deleted (p ∷ ps) a = elim (Bool-cases (similar e p)) [
    | inl s ↦ rw s (place-Sorted false true ps a.1)
    | inr d ↦ elim (before_cases (compare_time e.t p.t)) [
      | inl (b, c) ↦
          let lo = NotAfter-of_before e.t p.t c in
          rw (d, b)
            (
              (
                lo,
                place-All (λ q. NotAfter e.t q.t) e true deleted ps (λ x. absurd (ground arith))
                    (weaken e.t p.t ps lo a.0),
              ),
              (
                place-All (λ q. NotAfter p.t q.t) e true deleted ps (λ x. absurd (ground arith))
                    a.0,
                place-Sorted true deleted ps a.1,
              ),
            )
      | inr (n, c) ↦
          rw (d, n)
            (
              place-All (λ q. NotAfter p.t q.t) e false deleted ps (λ x. c) a.0,
              place-Sorted false deleted ps a.1,
            )
    ]
  ]

  link_rest-Sorted :
      (deleted : Bool) (q : List TimeEvent) → Sorted q → Sorted (link_rest e deleted q)
  unfolding link_rest
  link_rest-Sorted deleted [] a = (tt, tt)
  link_rest-Sorted deleted (h ∷ r) a = elim (before_cases (compare_time e.t h.t)) [
    | inl (b, c) ↦
        let lo = NotAfter-of_before e.t h.t c in
        rw b (
          place-All (λ q. NotAfter e.t q.t) e true deleted (h ∷ r) (λ x. absurd (ground arith))
              (lo, weaken e.t h.t r lo a.0),
          place-Sorted true deleted (h ∷ r) a,
        )
    | inr (n, c) ↦ rw n (
      place-All (λ q. NotAfter h.t q.t) e false deleted r (λ x. c) a.0,
      place-Sorted false deleted r a.1,
    )
  ]

  pub link-Sorted : (q : List TimeEvent) → Sorted q → Sorted (link e q)
  unfolding link
  link-Sorted [] a = link_rest-Sorted false [] tt
  link-Sorted (h ∷ r) a = elim (Bool-cases (similar e h)) [
    | inl s ↦ rw s (link_rest-Sorted true r a.1)
    | inr d ↦ rw d (link_rest-Sorted false (h ∷ r) a)
  ]

-- Queueing an event keeps a queue that is in the order of the times in that order.
pub queue-Sorted :
    (now : SpTime) (func code arg : ℕ) (delta_time : SpTime) (q : List TimeEvent)
    → Sorted q
    → Sorted (queue now func code arg delta_time q)
unfolding queue
queue-Sorted now func code arg delta_time q a = link-Sorted _ q a
