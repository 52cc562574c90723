-- ===== src/Events/Descriptors/Counts.antt =====
-- How each change of a queue of descriptors keeps the number of its active events.
use in5020_assignment.Prelude.{
  ℕ, zero, suc, ◌+◌, ◌≡◌, refl, Bool, true, false, not, if◌then◌else◌, Bool-cases, Option-cases,
  inl, inr, List, [], ◌∷◌, set, snoc, get_elem?, Option, none, some, arith, All, subst,
}
use in5020_assignment.Events.Descriptors.{
  FdEvent, FdQueue, is_event, replace_event, close_gap, last_first, drop_event, mark_event,
  detach_from, deactivate_in, activate_in, in_queues,
}

abbrev pub count_active : List FdEvent → ℕ
count_active [] = 0
count_active (e ∷ es) = (if e.active then 1 else 0) + count_active es

-- the count that a queue keeps is that of its events
abbrev pub IsCounted : FdQueue → Type 0
IsCounted q = q.num_active ≡ count_active q.events

pub count_active-snoc :
    (es : List FdEvent) (e : FdEvent)
    → count_active (snoc es e) ≡ count_active es + (if e.active then 1 else 0)
count_active-snoc [] e = omega arith
count_active-snoc (x ∷ es) e = omega (arith, count_active-snoc es e)

count_active-last_first :
    (x : FdEvent) (xs : List FdEvent)
    → count_active (last_first x xs) ≡ (if x.active then 1 else 0) + count_active xs
count_active-last_first x [] = refl
count_active-last_first x (y ∷ ys) = ground (arith, count_active-last_first y ys)

count_active-close_gap : (xs : List FdEvent) → count_active (close_gap xs) ≡ count_active xs
count_active-close_gap [] = refl
count_active-close_gap (x ∷ xs) = count_active-last_first x xs

-- what an operation on the events of a queue says of their count, with `b` for the new event
abbrev pub Balanced : List FdEvent → ℕ → Option (List FdEvent × Bool) → Type 0
Balanced xs b none = Unit
Balanced xs b (some (es, was)) = count_active es + (if was then 1 else 0) ≡ count_active xs + b

Balanced-cons :
    (x : FdEvent) (xs : List FdEvent) (b : ℕ) (o : Option (List FdEvent × Bool))
    → Balanced xs b o
    → Balanced (x ∷ xs) b (elim o [ some r ↦ some (x ∷ r.0, r.1) | none ↦ none ])
Balanced-cons x xs b none h = tt
Balanced-cons x xs b (some (es, was)) h = omega (arith, h)

pub replace_event-Balanced :
    (e : FdEvent) (xs : List FdEvent) → e.active ≡ true → Balanced xs 1 (replace_event e xs)
unfolding replace_event
replace_event-Balanced e [] h = tt
replace_event-Balanced e (x ∷ xs) h = elim (Bool-cases (is_event e.fd e.fd_type x)) [
  | inl here ↦ rw (here, h) (omega arith)
  | inr there ↦ rw there (Balanced-cons x xs 1 (replace_event e xs) (replace_event-Balanced e xs h))
]

drop_event-Balanced :
    (fd fd_type : ℕ) (xs : List FdEvent) → Balanced xs 0 (drop_event fd fd_type xs)
unfolding drop_event
drop_event-Balanced fd fd_type [] = tt
drop_event-Balanced fd fd_type (x ∷ xs) = elim (Bool-cases (is_event fd fd_type x)) [
  | inl here ↦ rw here (omega (arith, count_active-close_gap xs))
  | inr there ↦
      rw there (Balanced-cons x xs 0 (drop_event fd fd_type xs) (drop_event-Balanced fd fd_type xs))
]

mark_event-Balanced :
    (fd fd_type : ℕ) (b : Bool) (xs : List FdEvent)
    → Balanced xs (if b then 1 else 0) (mark_event fd fd_type b xs)
unfolding mark_event
mark_event-Balanced fd fd_type b [] = tt
mark_event-Balanced fd fd_type b (x ∷ xs) = elim (Bool-cases (is_event fd fd_type x)) [
  | inl here ↦ rw here (omega arith)
  | inr there ↦ rw there (
      Balanced-cons x xs (if b then 1 else 0) (mark_event fd fd_type b xs)
        (mark_event-Balanced fd fd_type b xs))
]

pub detach_from-IsCounted :
    (fd fd_type : ℕ) (q : FdQueue) → IsCounted q → IsCounted (detach_from fd fd_type q).0
unfolding detach_from
detach_from-IsCounted fd fd_type q h = elim (Option-cases (drop_event fd fd_type q.events)) [
  | inl out ↦ rw (detach_from, out) h
  | inr (r, e) ↦
      let b = subst (Balanced q.events 0) e (drop_event-Balanced fd fd_type q.events) in
      rw (detach_from, e)
        (elim (Bool-cases r.1) [
          | inl was ↦ rw was (omega (arith, rw was at b, h))
          | inr not ↦ rw not (omega (arith, rw not at b, h))
        ])
]

pub deactivate_in-IsCounted :
    (fd fd_type : ℕ) (q : FdQueue) → IsCounted q → IsCounted (deactivate_in fd fd_type q).0
unfolding deactivate_in
deactivate_in-IsCounted fd fd_type q h =
    elim (Option-cases (mark_event fd fd_type false q.events)) [
      | inl out ↦ rw (deactivate_in, out) h
      | inr (r, e) ↦
          let b = subst (Balanced q.events 0) e (mark_event-Balanced fd fd_type false q.events) in
          rw (deactivate_in, e)
            (elim (Bool-cases r.1) [
              | inl was ↦ rw was (omega (arith, rw was at b, h))
              | inr not ↦ rw not (omega (arith, rw not at b, h))
            ])
    ]

pub activate_in-IsCounted :
    (fd fd_type : ℕ) (q : FdQueue) → IsCounted q → IsCounted (activate_in fd fd_type q).0
unfolding activate_in
activate_in-IsCounted fd fd_type q h = elim (Option-cases (mark_event fd fd_type true q.events)) [
  | inl out ↦ rw (activate_in, out) h
  | inr (r, e) ↦
      let b = subst (Balanced q.events 1) e (mark_event-Balanced fd fd_type true q.events) in
      rw (activate_in, e)
        (elim (Bool-cases r.1) [
          | inl was ↦ rw was (omega (arith, rw was at b, h))
          | inr not ↦ rw not (omega (arith, rw not at b, h))
        ])
]

pub in_queues-All :
    (P : FdQueue → Type 0) (f : FdQueue → FdQueue × Bool) (qs : List FdQueue)
    → ((q : FdQueue) → P q → P (f q).0)
    → All P qs
    → All P (in_queues f qs).0
unfolding in_queues
in_queues-All P f [] step a = tt
in_queues-All P f (q ∷ qs) step a = (step q a.0, in_queues-All P f qs step a.1)

pub set-All :
    (P : FdQueue → Type 0) (qs : List FdQueue) (k : ℕ) (q : FdQueue)
    → P q
    → All P qs
    → All P (set qs k q)
set-All P [] k q h a = tt
set-All P (x ∷ qs) zero q h a = (h, a.1)
set-All P (x ∷ qs) (suc k) q h a = (a.0, set-All P qs k q h a.1)

pub get_elem?-All :
    (P : FdQueue → Type 0) (qs : List FdQueue) (k : ℕ) (q : FdQueue)
    → get_elem? qs k ≡ some q
    → All P qs
    → P q
get_elem?-All P [] k q e a = cc
get_elem?-All P (x ∷ qs) zero q e a = subst P (some-inj e) a.0
  where
    some-inj : {x y : FdQueue} → some x ≡ some y → x ≡ y
    some-inj h = cc
get_elem?-All P (x ∷ qs) (suc k) q e a = get_elem?-All P qs k q e a.1
