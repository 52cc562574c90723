-- ===== src/Events.antt =====
-- daemon/events.c: times, the queue of timed events and the tables of descriptors.
pub mod Clock
pub mod Timers
pub mod Descriptors
