-- ===== src/Events/Descriptors/Calls.antt =====
-- The number of active events that each queue of descriptors keeps is right after every call.
use in5020_assignment.Prelude.{
  ℕ, ◌+◌, ◌≡◌, refl, ℤ, negsuc, Bool, true, false, not, ◌==◌, ◌||◌, ltb, leb, if◌then◌else◌,
  if-split, Option-cases, inl, inr, [], ◌∷◌, length, snoc, get_elem?, Faultable, ok, exit-ne-ok,
  ok-inj, arith, All, subst, ap,
}
use in5020_assignment.Events.Descriptors.{
  FdEvent, FdQueue, Fds, replace_event, add_event, attach_fd, detach_from, deactivate_in,
  activate_in, in_queues, detach_fd, deactivate_fd, activate_fd, with_mask, any_from, num_fdtypes,
  num_priority, in_masks, max_fd_events, fd_setsize,
}
use in5020_assignment.Events.Descriptors.Counts.{
  count_active, IsCounted, Balanced, count_active-snoc, replace_event-Balanced,
  detach_from-IsCounted, deactivate_in-IsCounted, activate_in-IsCounted, in_queues-All, set-All,
  get_elem?-All,
}

with_mask-queues :
    (fd fd_type : ℕ) (b : Bool) (s t : Fds) (r : ℤ)
    → with_mask fd fd_type b s ≡ ok (t, r)
    → s.queues ≡ t.queues
with_mask-queues fd fd_type b s t r h = elim (if-split (in_masks fd fd_type) h) [
  | inl fits ↦ ap (λ (z : Fds × ℤ). z.0.queues) (ok-inj fits)
  | inr past ↦ absurd (exit-ne-ok past)
]

counts_one : (e : FdEvent) → e.active ≡ true → count_active (e ∷ []) ≡ 1
counts_one e on = ground arith

-- every queue keeps the right count
abbrev pub Counted : Fds → Type 0
Counted s = All IsCounted s.queues

unchanged :
    (s t : Fds) (r k : ℤ)
    → Counted s
    → ◌≡◌ {A = Faultable (Fds × ℤ)} (ok (s, k)) (ok (t, r))
    → Counted t
unchanged s t r k a h = subst (λ (z : Fds × ℤ). Counted z.0) (ok-inj h) a

add_event-Counted :
    (e : FdEvent) (priority : ℕ) (q : FdQueue) (s t : Fds) (r : ℤ)
    → e.active ≡ true
    → IsCounted q
    → Counted s
    → add_event e priority q s ≡ ok (t, r)
    → Counted t
unfolding add_event
add_event-Counted e priority q s t r on h a run =
    let q1 : FdQueue = record { events = snoc q.events e; num_active = q.num_active + 1 } in
    let counted : IsCounted q1 = omega (arith, h, count_active-snoc q.events e, counts_one e on) in
    let grown = set-All IsCounted s.queues priority q1 counted a in
    elim (if-split (length q.events == max_fd_events) run) [
      | inl full ↦ unchanged s t r _ a full
      | inr room ↦ elim (if-split (not (leb s.active_priority priority)) room) [
        | inl quiet ↦ subst (λ (z : Fds × ℤ). Counted z.0) (ok-inj quiet) grown
        | inr waits ↦ elim (if-split (in_masks e.fd e.fd_type) waits) [
          | inl fits ↦ subst (λ (z : Fds × ℤ). Counted z.0) (ok-inj fits) grown
          | inr past ↦ absurd (exit-ne-ok past)
        ]
      ]
    ]

attach_fd-Counted :
    (fd fd_type func code arg priority : ℕ) (s t : Fds) (r : ℤ)
    → Counted s
    → attach_fd fd fd_type func code arg priority s ≡ ok (t, r)
    → Counted t
unfolding attach_fd
attach_fd-Counted fd fd_type func code arg priority s t r a run =
    let e : FdEvent = record {
      fd = fd;
      fd_type = fd_type;
      func = func;
      code = code;
      arg = arg;
      active = true;
    } in
    elim (if-split (ltb num_priority priority || (ltb num_fdtypes fd_type || ltb fd_setsize fd))
      run) [
        | inl refused ↦ unchanged s t r _ a refused
        | inr taken ↦ elim (Option-cases (get_elem? s.queues priority)) [
          | inl past ↦ absurd (exit-ne-ok (rw past at taken))
          | inr (q, there) ↦
              let h = get_elem?-All IsCounted s.queues priority q there a in
              elim (Option-cases (replace_event e q.events)) [
                | inl fresh ↦
                    add_event-Counted e priority q s t r refl h a (rw (there, fresh) at taken)
                | inr (p, found) ↦
                    let b =
                      subst (Balanced q.events 1) found (replace_event-Balanced e q.events refl) in
                    let q1 : FdQueue = record {
                      events = p.0;
                      num_active = if p.1 then q.num_active else q.num_active + 1;
                    } in
                    let counted : IsCounted q1 = ground (arith, b, h) in
                    subst (λ (z : Fds × ℤ). Counted z.0) (ok-inj (rw (there, found) at taken))
                      (set-All IsCounted s.queues priority q1 counted a)
              ]
        ]
      ]

-- what `E_detach_fd` and its like do once the queues are walked
changed-Counted :
    (fd fd_type : ℕ) (b refused found : Bool) (s s1 t : Fds) (r : ℤ)
    → Counted s
    → Counted s1
    → (if refused
        then ok (s, negsuc 0)
        else if found
        then with_mask fd fd_type b s1
        else ok (s, negsuc 0))
      ≡ ok (t, r)
    → Counted t
changed-Counted fd fd_type b refused found s s1 t r a a1 run = elim (if-split refused run) [
  | inl stays ↦ unchanged s t r _ a stays
  | inr goes ↦ elim (if-split found goes) [
    | inl there ↦ subst (All IsCounted) (with_mask-queues fd fd_type b s1 t r there) a1
    | inr out ↦ unchanged s t r _ a out
  ]
]

-- one of the calls that change the tables
pub data FdCall : Fds → Fds → Type 0 where
  attach :
      {s t : Fds} (fd fd_type func code arg priority : ℕ) (r : ℤ)
      → attach_fd fd fd_type func code arg priority s ≡ ok (t, r)
      → FdCall s t
  detach : {s t : Fds} (fd fd_type : ℕ) (r : ℤ) → detach_fd fd fd_type s ≡ ok (t, r) → FdCall s t
  deactivate :
      {s t : Fds} (fd fd_type : ℕ) (r : ℤ) → deactivate_fd fd fd_type s ≡ ok (t, r) → FdCall s t
  activate :
      {s t : Fds} (fd fd_type : ℕ) (r : ℤ) → activate_fd fd fd_type s ≡ ok (t, r) → FdCall s t

-- Attaching, detaching, deactivating and activating a descriptor keep each queue's number of active
-- events equal to the number of events in it that are active.
pub FdCall-Counted : {s t : Fds} → Counted s → FdCall s t → Counted t
unfolding detach_fd deactivate_fd activate_fd
FdCall-Counted {s} {t} a (attach fd fd_type func code arg priority r run) =
    attach_fd-Counted fd fd_type func code arg priority s t r a run
FdCall-Counted {s} {t} a (detach fd fd_type r run) =
    changed-Counted fd fd_type false _ _ s
      (record s { queues = (in_queues (detach_from fd fd_type) s.queues).0 }) t r a
      (in_queues-All IsCounted (detach_from fd fd_type) s.queues (detach_from-IsCounted fd fd_type)
        a)
      run
FdCall-Counted {s} {t} a (deactivate fd fd_type r run) =
    changed-Counted fd fd_type false _ _ s
      (record s { queues = (in_queues (deactivate_in fd fd_type) s.queues).0 }) t r a
      (in_queues-All IsCounted (deactivate_in fd fd_type) s.queues
        (deactivate_in-IsCounted fd fd_type) a)
      run
FdCall-Counted {s} {t} a (activate fd fd_type r run) =
    let walked = in_queues (activate_in fd fd_type) s.queues in
    let s1 : Fds = record s { queues = walked.0 } in
    let grown =
      in_queues-All IsCounted (activate_in fd fd_type) s.queues (activate_in-IsCounted fd fd_type)
        a in
    elim (if-split (ltb num_fdtypes fd_type) run) [
      | inl stays ↦ unchanged s t r _ a stays
      | inr goes ↦ elim (if-split (any_from s.active_priority walked.1) goes) [
        | inl waits ↦ subst (All IsCounted) (with_mask-queues fd fd_type true s1 t r waits) grown
        | inr below ↦ elim (if-split (any_from 0 walked.1) below) [
          | inl there ↦ subst (λ (z : Fds × ℤ). Counted z.0) (ok-inj there) grown
          | inr out ↦ unchanged s t r _ a out
        ]
      ]
    ]
