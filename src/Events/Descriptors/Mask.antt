-- ===== src/Events/Descriptors/Mask.antt =====
-- What the mask of descriptors holds: the mask that `E_set_active_threshold` builds, and the one that
-- `E_attach_fd` leaves.
use in5020_assignment.Prelude.{
  ℕ, zero, suc, ◌≤◌, ◌≡◌, ◌≢◌, refl, ℤ, pos, eqb_ℤ, length, if-split, Option-cases, exit-ne-ok,
  ok-inj, subst, Bool, true, false, ◌==◌, ◌&&◌, ◌||◌, ltb, leb, if◌then◌else◌, Bool-cases, inl, inr,
  List, [], ◌∷◌, get_elem?, ok, arith, ◌∙◌, All,
}
use in5020_assignment.Events.Descriptors.{
  FdEvent, FdQueue, Fds, is_event, set_mask, set_active, set_from, set_active_threshold,
  replace_event, add_event, attach_fd, max_fd_events, num_priority, in_masks, num_fdtypes,
  fd_setsize,
}

-- an active event of the descriptor and type in a queue, and in those from priority `k` on
abbrev pub has_active : ℕ → ℕ → List FdEvent → Bool
has_active fd fd_type [] = false
has_active fd fd_type (e ∷ es) = (e.active && is_event fd fd_type e) || has_active fd fd_type es

abbrev pub waited_for : ℕ → ℕ → ℕ → List FdQueue → Bool
waited_for fd fd_type k [] = false
waited_for fd fd_type zero (q ∷ qs) =
    has_active fd fd_type q.events || waited_for fd fd_type zero qs
waited_for fd fd_type (suc k) (q ∷ qs) = waited_for fd fd_type k qs

-- an event that the masks have a bit for
abbrev pub InMasks : FdEvent → Type 0
InMasks e = in_masks e.fd e.fd_type ≡ true

set_active-has_active :
    (es : List FdEvent) (m : ℕ → ℕ → Bool)
    → All InMasks es
    → (m2 : ℕ → ℕ → Bool) × (set_active es m ≡ ok m2)
      × ((fd fd_type : ℕ) → m2 fd_type fd ≡ (has_active fd fd_type es || m fd_type fd))
unfolding set_active
set_active-has_active [] m a = (m, refl, λ fd fd_type. refl)
set_active-has_active (e ∷ es) m (fits, a) = elim (Bool-cases e.active) [
  | inl on ↦
      let (m2, run, bits) = set_active-has_active es (set_mask e.fd e.fd_type true m) a in
      (m2, rw (on, fits) run, λ fd fd_type. ground (arith, bits fd fd_type, on))
  | inr off ↦
      let (m2, run, bits) = set_active-has_active es m a in
      (m2, rw (off) run, λ fd fd_type. ground (arith, bits fd fd_type, off))
]

abbrev pub AllInMasks : List FdQueue → Type 0
AllInMasks = All λ (q : FdQueue). All InMasks q.events

set_from-waited_for :
    (k : ℕ) (qs : List FdQueue) (m : ℕ → ℕ → Bool)
    → AllInMasks qs
    → (m2 : ℕ → ℕ → Bool) × (set_from k qs m ≡ ok m2)
      × ((fd fd_type : ℕ) → m2 fd_type fd ≡ (waited_for fd fd_type k qs || m fd_type fd))
unfolding set_from
set_from-waited_for zero [] m a = (m, refl, λ fd fd_type. refl)
set_from-waited_for (suc k) [] m a = (m, refl, λ fd fd_type. refl)
set_from-waited_for zero (q ∷ qs) m (here, a) =
    let (m1, run1, bits1) = set_active-has_active q.events m here in
    let (m2, run2, bits2) = set_from-waited_for zero qs m1 a in
    (m2, rw (run1) run2, λ fd fd_type. ground (arith, bits1 fd fd_type, bits2 fd fd_type))
set_from-waited_for (suc k) (q ∷ qs) m (here, a) = set_from-waited_for k qs m a

-- When every event in the queues is of a type and a descriptor that the masks have a bit for, a
-- changed threshold sets no bit past the masks, leaves in the mask of each type exactly the
-- descriptors of active events whose priority is at least the new one, and the queues as they were,
-- and is returned. The new threshold is at most the number of priorities and not the old one.
pub set_active_threshold-mask :
    (priority : ℕ) (s : Fds)
    → priority ≤ num_priority
    → priority ≢ s.active_priority
    → AllInMasks s.queues
    → (t : Fds) × (set_active_threshold priority s ≡ ok (t, pos priority))
      × ((fd fd_type : ℕ) → t.mask fd_type fd ≡ waited_for fd fd_type priority s.queues)
      × (t.active_priority ≡ priority)
      × (t.queues ≡ s.queues)
unfolding set_active_threshold
set_active_threshold-mask priority s low other a =
    let over : ltb num_priority priority ≡ false = ground arith in
    let changes : (priority == s.active_priority) ≡ false = ground arith in
    let (m, run, bits) = set_from-waited_for priority s.queues (λ t f. false) a in
    (
      record s { active_priority = priority; mask = m },
      rw (over, changes, run) refl,
      λ fd fd_type. bits fd fd_type ∙ or_false _,
      refl,
      refl,
    )
  where
    or_false : (b : Bool) → (b || false) ≡ b
    or_false true = refl
    or_false false = refl

-- the mask that a call of result `r` leaves
abbrev pub mask_after : ℕ → ℕ → ℕ → Fds → ℤ → ℕ → ℕ → Bool
mask_after fd fd_type priority s r =
    if eqb_ℤ r (pos 0) && leb s.active_priority priority
    then set_mask fd fd_type true s.mask
    else s.mask

MaskAfter : ℕ → ℕ → ℕ → Fds → Fds × ℤ → Type 0
MaskAfter fd fd_type priority s z = z.0.mask ≡ mask_after fd fd_type priority s z.1

add_event-mask :
    (e : FdEvent) (priority : ℕ) (q : FdQueue) (s t : Fds) (r : ℤ)
    → add_event e priority q s ≡ ok (t, r)
    → t.mask ≡ mask_after e.fd e.fd_type priority s r
unfolding add_event MaskAfter
add_event-mask e priority q s t r run = elim (if-split (length q.events == max_fd_events) run) [
  | inl full ↦ subst (MaskAfter e.fd e.fd_type priority s) (ok-inj full) refl
  | inr room ↦ elim (Bool-cases (leb s.active_priority priority)) [
    | inr quiet ↦
        subst (MaskAfter e.fd e.fd_type priority s) (ok-inj (rw quiet at room)) (rw quiet refl)
    | inl waits ↦ elim (if-split (in_masks e.fd e.fd_type) (rw waits at room)) [
      | inl fits ↦ subst (MaskAfter e.fd e.fd_type priority s) (ok-inj fits) (rw waits refl)
      | inr past ↦ absurd (exit-ne-ok past)
    ]
  ]
]

-- Where attaching goes through, which excludes a bit past the masks, it sets the bit of the descriptor
-- and type exactly where the call returns 0 and the priority is waited for, and changes no other bit: where the event is there already, and the call
-- makes it active and returns 1, the mask stays as it is, also if the event was not active before.
pub attach_fd-mask :
    (fd fd_type func code arg priority : ℕ) (s t : Fds) (r : ℤ)
    → attach_fd fd fd_type func code arg priority s ≡ ok (t, r)
    → t.mask ≡ mask_after fd fd_type priority s r
unfolding attach_fd MaskAfter
attach_fd-mask fd fd_type func code arg priority s t r run =
    let e : FdEvent = record {
      fd = fd;
      fd_type = fd_type;
      func = func;
      code = code;
      arg = arg;
      active = true;
    } in
    elim (if-split (ltb num_priority priority || (ltb num_fdtypes fd_type || ltb fd_setsize fd))
      run) [
        | inl refused ↦ subst (MaskAfter fd fd_type priority s) (ok-inj refused) refl
        | inr taken ↦ elim (Option-cases (get_elem? s.queues priority)) [
          | inl past ↦ absurd (exit-ne-ok (rw past at taken))
          | inr (q, there) ↦ elim (Option-cases (replace_event e q.events)) [
            | inl fresh ↦ add_event-mask e priority q s t r (rw (there, fresh) at taken)
            | inr (p, found) ↦
                subst (MaskAfter fd fd_type priority s) (ok-inj (rw (there, found) at taken)) refl
          ]
        ]
      ]
