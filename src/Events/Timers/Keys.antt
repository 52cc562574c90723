-- ===== src/Events/Timers/Keys.antt =====
-- An event in the queue is known by its handler, code and data: at most one is there for each.
use in5020_assignment.Prelude.{
  ℕ, ◌+◌, ◌≤◌, ◌≡◌, refl, Bool, true, false, List, [], ◌∷◌, arith, if◌then◌else◌,
}
use in5020_assignment.Events.Clock.{SpTime}
use in5020_assignment.Events.Timers.{
  TimeEvent, same_call, similar, place, link_rest, link, queue, dequeue,
}

-- how many events of the queue have the handler, code and data
abbrev pub count_calls : ℕ → ℕ → ℕ → List TimeEvent → ℕ
count_calls func code arg [] = 0
count_calls func code arg (e ∷ es) =
    (if same_call func code arg e then 1 else 0) + count_calls func code arg es

-- the other events, in order
abbrev pub others : ℕ → ℕ → ℕ → List TimeEvent → List TimeEvent
others func code arg [] = []
others func code arg (e ∷ es) =
    let rest = others func code arg es in if same_call func code arg e then rest else e ∷ rest

same_call_self : (e : TimeEvent) → similar e e ≡ true
unfolding same_call
same_call_self e = ground arith

module _ (e : TimeEvent) where
  place-others :
      (inserted deleted : Bool) (ps : List TimeEvent)
      → others e.func e.code e.arg (place e inserted deleted ps) ≡ others e.func e.code e.arg ps
  unfolding place
  place-others true deleted [] = refl
  place-others false deleted [] = rw (same_call_self e)
  place-others true true (p ∷ ps) = refl
  place-others true false (p ∷ ps) =
      ground (arith, place-others true true ps, place-others true false ps)
  place-others false deleted (p ∷ ps) = ground (
    arith,
    same_call_self e,
    place-others false true ps,
    place-others true deleted ps,
    place-others false deleted ps,
  )

  place-count :
      (inserted deleted : Bool) (ps : List TimeEvent)
      → (deleted ≡ true → count_calls e.func e.code e.arg ps ≡ 0)
      → count_calls e.func e.code e.arg ps ≤ 1
      → count_calls e.func e.code e.arg (place e inserted deleted ps) ≡ (if inserted then 0 else 1)
  unfolding place
  place-count true deleted [] h k = refl
  place-count false deleted [] h k = rw (same_call_self e)
  place-count true true (p ∷ ps) h k = h refl
  place-count true false (p ∷ ps) h k =
      ground (arith, place-count true true ps, place-count true false ps)
  place-count false deleted (p ∷ ps) h k = ground (
    arith,
    same_call_self e,
    place-count false true ps,
    place-count true deleted ps,
    place-count false deleted ps,
  )

  link-others :
      (q : List TimeEvent) → others e.func e.code e.arg (link e q) ≡ others e.func e.code e.arg q
  unfolding link link_rest
  link-others [] = rw (same_call_self e)
  link-others (h ∷ []) =
      ground
        (arith, same_call_self e, place-others true false (h ∷ []), place-others false false [])
  link-others (h ∷ g ∷ r) = ground (
    arith,
    same_call_self e,
    place-others true true (g ∷ r),
    place-others false true r,
    place-others true false (h ∷ g ∷ r),
    place-others false false (g ∷ r),
  )

  link-count :
      (q : List TimeEvent)
      → count_calls e.func e.code e.arg q ≤ 1
      → count_calls e.func e.code e.arg (link e q) ≡ 1
  unfolding link link_rest
  link-count [] k = rw (same_call_self e)
  link-count (h ∷ []) k =
      ground (arith, same_call_self e, place-count true false (h ∷ []), place-count false false [])
  link-count (h ∷ g ∷ r) k = ground (
    arith,
    same_call_self e,
    place-count true true (g ∷ r),
    place-count false true r,
    place-count true false (h ∷ g ∷ r),
    place-count false false (g ∷ r),
  )

-- Where at most one event has the handler, code and data, exactly one has after `E_queue`, and all
-- other events are left in their order.
pub queue-replaces :
    (now : SpTime) (func code arg : ℕ) (delta_time : SpTime) (q : List TimeEvent)
    → count_calls func code arg q ≤ 1
    → (count_calls func code arg (queue now func code arg delta_time q) ≡ 1)
      × (others func code arg (queue now func code arg delta_time q) ≡ others func code arg q)
unfolding queue
queue-replaces now func code arg delta_time q h = (link-count _ q h, link-others _ q)

-- After `E_dequeue` no event has the handler, code and data, where at most one had; its result says
-- whether one had, and all other events are left in their order.
pub dequeue-removes :
    (func code arg : ℕ) (q : List TimeEvent)
    → count_calls func code arg q ≤ 1
    → let (q', found) = dequeue func code arg q in
      (count_calls func code arg q' ≡ 0)
      × (count_calls func code arg q ≡ (if found then 1 else 0))
      × (others func code arg q' ≡ others func code arg q)
unfolding dequeue
dequeue-removes func code arg [] h = (refl, refl, refl)
dequeue-removes func code arg (e ∷ es) h = ground (arith, dequeue-removes func code arg es)
