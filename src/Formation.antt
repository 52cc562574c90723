-- ===== src/Formation.antt =====
-- The membership algorithm of daemon/membership.c: how a daemon that lost the token finds the others
-- and forms a ring with them. Here stand the state and what the parts share; the parts are the child
-- modules.
pub mod Cells
pub mod Members
pub mod Reps
pub mod State
pub mod Moves
pub mod Form
pub mod Create
pub mod Fill
pub mod Read
pub mod Handlers
pub mod Sound
pub mod Steps
pub mod Loss
use in5020_assignment.Prelude.{ℕ, List}

-- The types of a representative.
abbrev pub potential_rep : ℕ
potential_rep = 0

abbrev pub seg_rep : ℕ
seg_rep = 1

abbrev pub ring_rep : ℕ
ring_rep = 2

abbrev pub max_reps : ℕ
max_reps = 25

-- `rep_info`
pub record Rep : Type 0 where
  pub proc_id : ℕ
  pub type : ℕ
  pub seg_index : ℕ

-- `reps_info`; `reps` is the first `num_reps` cells.
pub record RepsInfo : Type 0 where
  pub reps : List Rep
  pub rep_index : ℕ
