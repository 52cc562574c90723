-- ===== src/Events/Descriptors.antt =====
-- daemon/events.c: the tables of file descriptors, by which `E_handle_events` knows what to wait for.
-- Arguments are not negative; a negative one is refused like one that is too large.
pub mod Counts
pub mod Calls
pub mod Mask
use in5020_assignment.Prelude.{
  ℕ, zero, suc, ◌+◌, ◌-◌, ◌≤◌, ◌≡◌, ℤ, pos, negsuc, Bool, true, false, not, ◌==◌, ◌&&◌, ◌||◌, ltb,
  leb, if◌then◌else◌, List, [], ◌∷◌, length, set, snoc, get_elem?, Option, none, some, Faultable,
  ok, exit, ◌>>=◌,
}

-- `fd_event`; a handler and its data pointer are known by their addresses.
pub record FdEvent : Type 0 where
  pub fd : ℕ
  pub fd_type : ℕ
  pub func : ℕ
  pub code : ℕ
  pub arg : ℕ
  pub active : Bool

-- `fd_queue`; `num_fds` is the length.
pub record FdQueue : Type 0 where
  pub events : List FdEvent
  pub num_active : ℕ

-- `Fd_queue`, `Active_priority` and `Fd_mask`, a set of descriptors for each type
pub record Fds : Type 0 where
  pub queues : List FdQueue
  pub active_priority : ℕ
  pub mask : ℕ → ℕ → Bool

abbrev pub num_priority : ℕ
num_priority = 3

abbrev pub num_fdtypes : ℕ
num_fdtypes = 3

abbrev pub max_fd_events : ℕ
max_fd_events = 2000

abbrev pub fd_setsize : ℕ
fd_setsize = 1024

abbrev pub is_event : ℕ → ℕ → FdEvent → Bool
is_event fd fd_type e = e.fd == fd && e.fd_type == fd_type

-- `FD_SET` and `FD_CLR`
abbrev pub set_mask : ℕ → ℕ → Bool → (ℕ → ℕ → Bool) → ℕ → ℕ → Bool
set_mask fd fd_type b m t f = if t == fd_type && f == fd then b else m t f

-- A descriptor and a type that the masks have a bit for. The tests of the calls let one more of each
-- through, and a bit past the masks is a fault here.
abbrev pub in_masks : ℕ → ℕ → Bool
in_masks fd fd_type = ltb fd_type num_fdtypes && ltb fd fd_setsize

-- The first event of the same descriptor and type put in place of by `e`, and whether it was active.
unfoldable pub replace_event : FdEvent → List FdEvent → Option (List FdEvent × Bool)
replace_event e [] = none
replace_event e (x ∷ xs) =
    let later = replace_event e xs in
    if is_event e.fd e.fd_type x
    then some (e ∷ xs, x.active)
    else elim later [ some r ↦ some (x ∷ r.0, r.1) | none ↦ none ]

-- the new event behind the others, and its bit set if it is to be waited for
unfoldable pub add_event : FdEvent → ℕ → FdQueue → Fds → Faultable (Fds × ℤ)
add_event e priority q s =
    let s1 = record s {
      queues =
          set s.queues priority
            (record { events = snoc q.events e; num_active = q.num_active + 1 });
    } in
    if length q.events == max_fd_events
    then ok (s, negsuc 0)
    else if not (leb s.active_priority priority)
    then ok (s1, pos 0)
    else if in_masks e.fd e.fd_type
    then ok (record s1 { mask = set_mask e.fd e.fd_type true s1.mask }, pos 0)
    else exit

-- `E_attach_fd`. The tests let one priority through that is past the queues, which is a fault here.
unfoldable pub attach_fd : ℕ → ℕ → ℕ → ℕ → ℕ → ℕ → Fds → Faultable (Fds × ℤ)
attach_fd fd fd_type func code arg priority s =
    let e : FdEvent = record {
      fd = fd;
      fd_type = fd_type;
      func = func;
      code = code;
      arg = arg;
      active = true;
    } in
    if ltb num_priority priority || (ltb num_fdtypes fd_type || ltb fd_setsize fd)
    then ok (s, negsuc 0)
    else (elim (get_elem? s.queues priority) [
      | none ↦ exit
      | some q ↦ elim (replace_event e q.events) [
        | some (events, was_active) ↦ ok (
          record s {
            queues = set s.queues priority (record {
              events = events;
              num_active = if was_active then q.num_active else q.num_active + 1;
            });
          },
          pos 1,
        )
        | none ↦ add_event e priority q s
      ]
    ])

-- the last element put in front of the others
abbrev pub last_first : FdEvent → List FdEvent → List FdEvent
last_first x [] = x ∷ []
last_first x (y ∷ ys) = elim (last_first y ys) [ [] ↦ x ∷ [] | z ∷ zs ↦ z ∷ x ∷ zs ]

-- An event taken out: the last one of the queue takes its place.
abbrev pub close_gap : List FdEvent → List FdEvent
close_gap [] = []
close_gap (x ∷ xs) = last_first x xs

-- What `E_detach_fd`, `E_deactivate_fd` and `E_activate_fd` do to a queue: nothing if the event is not
-- in it.
unfoldable pub drop_event : ℕ → ℕ → List FdEvent → Option (List FdEvent × Bool)
drop_event fd fd_type [] = none
drop_event fd fd_type (x ∷ xs) =
    let later = drop_event fd fd_type xs in
    if is_event fd fd_type x
    then some (close_gap xs, x.active)
    else elim later [ some r ↦ some (x ∷ r.0, r.1) | none ↦ none ]

unfoldable pub mark_event : ℕ → ℕ → Bool → List FdEvent → Option (List FdEvent × Bool)
mark_event fd fd_type b [] = none
mark_event fd fd_type b (x ∷ xs) =
    let later = mark_event fd fd_type b xs in
    if is_event fd fd_type x
    then some (record x { active = b } ∷ xs, x.active)
    else elim later [ some r ↦ some (x ∷ r.0, r.1) | none ↦ none ]

unfoldable pub detach_from : ℕ → ℕ → FdQueue → FdQueue × Bool
detach_from fd fd_type q = elim (drop_event fd fd_type q.events) [
  | some (events, was) ↦ (
    record { events = events; num_active = if was then q.num_active - 1 else q.num_active },
    true,
  )
  | none ↦ (q, false)
]

unfoldable pub deactivate_in : ℕ → ℕ → FdQueue → FdQueue × Bool
deactivate_in fd fd_type q = elim (mark_event fd fd_type false q.events) [
  | some (events, was) ↦ (
    record { events = events; num_active = if was then q.num_active - 1 else q.num_active },
    true,
  )
  | none ↦ (q, false)
]

unfoldable pub activate_in : ℕ → ℕ → FdQueue → FdQueue × Bool
activate_in fd fd_type q = elim (mark_event fd fd_type true q.events) [
  | some (events, was) ↦ (
    record { events = events; num_active = if was then q.num_active else q.num_active + 1 },
    true,
  )
  | none ↦ (q, false)
]

-- The loop over the priorities; the flags say in which queues the event was.
unfoldable pub in_queues : (FdQueue → FdQueue × Bool) → List FdQueue → List FdQueue × List Bool
in_queues f [] = ([], [])
in_queues f (q ∷ qs) = ((f q).0 ∷ (in_queues f qs).0, (f q).1 ∷ (in_queues f qs).1)

-- whether some flag from index `k` on is set
abbrev pub any_from : ℕ → List Bool → Bool
any_from k [] = false
any_from zero (b ∷ bs) = b || any_from zero bs
any_from (suc k) (b ∷ bs) = any_from k bs

-- The bit of an event that was found.
abbrev pub with_mask : ℕ → ℕ → Bool → Fds → Faultable (Fds × ℤ)
with_mask fd fd_type b s =
    if in_masks fd fd_type
    then ok (record s { mask = set_mask fd fd_type b s.mask }, pos 0)
    else exit

-- `E_detach_fd`
unfoldable pub detach_fd : ℕ → ℕ → Fds → Faultable (Fds × ℤ)
detach_fd fd fd_type s =
    let r = in_queues (detach_from fd fd_type) s.queues in
    if ltb num_fdtypes fd_type
    then ok (s, negsuc 0)
    else if any_from 0 r.1
    then with_mask fd fd_type false (record s { queues = r.0 })
    else ok (s, negsuc 0)

-- `E_deactivate_fd`
unfoldable pub deactivate_fd : ℕ → ℕ → Fds → Faultable (Fds × ℤ)
deactivate_fd fd fd_type s =
    let r = in_queues (deactivate_in fd fd_type) s.queues in
    if ltb num_fdtypes fd_type
    then ok (s, negsuc 0)
    else if any_from 0 r.1
    then with_mask fd fd_type false (record s { queues = r.0 })
    else ok (s, negsuc 0)

-- `E_activate_fd`
unfoldable pub activate_fd : ℕ → ℕ → Fds → Faultable (Fds × ℤ)
activate_fd fd fd_type s =
    let r = in_queues (activate_in fd fd_type) s.queues in
    let s1 = record s { queues = r.0 } in
    if ltb num_fdtypes fd_type
    then ok (s, negsuc 0)
    else if any_from s.active_priority r.1
    then with_mask fd fd_type true s1
    else if any_from 0 r.1
    then ok (s1, pos 0)
    else ok (s, negsuc 0)

-- The bits of the active events of one queue, and of the queues from priority `k` on.
unfoldable pub set_active : List FdEvent → (ℕ → ℕ → Bool) → Faultable (ℕ → ℕ → Bool)
set_active [] m = ok m
set_active (e ∷ es) m =
    let marked = set_active es (set_mask e.fd e.fd_type true m) in
    let skipped = set_active es m in
    if e.active then if in_masks e.fd e.fd_type then marked else exit else skipped

unfoldable pub set_from : ℕ → List FdQueue → (ℕ → ℕ → Bool) → Faultable (ℕ → ℕ → Bool)
set_from k [] m = ok m
set_from zero (q ∷ qs) m = set_active q.events m >>= set_from zero qs
set_from (suc k) (q ∷ qs) m = set_from k qs m

-- `E_set_active_threshold`
unfoldable pub set_active_threshold : ℕ → Fds → Faultable (Fds × ℤ)
set_active_threshold priority s =
    if ltb num_priority priority
    then ok (s, negsuc 0)
    else if priority == s.active_priority
    then ok (s, pos priority)
    else (set_from priority s.queues (λ t f. false) >>= λ m.
        ok (record s { active_priority = priority; mask = m }, pos priority))
