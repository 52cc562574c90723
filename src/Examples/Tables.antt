-- ===== src/Examples/Tables.antt =====
-- The tables of file descriptors on concrete values.
use in5020_assignment.Prelude.{
  ℕ, ◌≡◌, refl, ℤ, pos, Bool, false, [], ◌∷◌, Faultable, ok, exit, arith,
}
use in5020_assignment.Events.Descriptors.{
  FdEvent, Fds, attach_fd, replace_event, add_event, set_active_threshold,
}
use in5020_assignment.Events.Descriptors.Calls.{Counted, FdCall-Counted, attach}
use in5020_assignment.Events.Descriptors.Mask.{
  waited_for, set_active_threshold-mask, attach_fd-mask, mask_after,
}

-- descriptor 7, for reading
abbrev event : Bool → FdEvent
event b = record { fd = 7; fd_type = 0; func = 1; code = 0; arg = 0; active = b }

-- It is in the queue of priority 1, and not active.
abbrev tables : Fds
tables = record {
  queues =
      record { events = []; num_active = 0 }
      ∷ record { events = event false ∷ []; num_active = 0 }
      ∷ record { events = []; num_active = 0 }
      ∷ [];
  active_priority = 0;
  mask = λ t f. false;
}

abbrev tables_of : Faultable (Fds × ℤ) → Fds
tables_of (ok r) = r.0
tables_of exit = tables

abbrev attached : Fds
unfolding attach_fd replace_event
attached = tables_of (attach_fd 7 0 1 0 0 1 tables)

attached_run : attach_fd 7 0 1 0 0 1 tables ≡ ok (attached, pos 1)
unfolding attached attach_fd replace_event
attached_run = refl

FdCall-Counted_example : Counted attached
FdCall-Counted_example =
    FdCall-Counted {s = tables} (refl, (refl, (refl, tt))) (attach 7 0 1 0 0 1 (pos 1) attached_run)

set_active_threshold-mask_example :
    (t : Fds) × (set_active_threshold 1 tables ≡ ok (t, pos 1))
    × ((fd fd_type : ℕ) → t.mask fd_type fd ≡ waited_for fd fd_type 1 tables.queues)
    × (t.active_priority ≡ 1)
    × (t.queues ≡ tables.queues)
set_active_threshold-mask_example =
    set_active_threshold-mask 1 tables (omega arith) (λ e. omega (arith, e))
      (tt, ((refl, tt), (tt, tt)))

-- With descriptor 1024, which the tests let through, a bit past the mask is set.
past_the_mask : attach_fd 1024 0 1 0 0 1 tables ≡ exit
unfolding attach_fd replace_event add_event
past_the_mask = refl

-- The event has become active, and its bit is not set.
attach_fd-mask_example : attached.mask ≡ mask_after 7 0 1 tables (pos 1)
attach_fd-mask_example = attach_fd-mask 7 0 1 0 0 1 tables attached (pos 1) attached_run
