-- ===== src/Conf.antt =====
-- daemon/configuration.c: the static configuration of daemons and segments, and the queries on the
-- memberships that are drawn from it. `num_procs`, `num_if` and `num_segments` are list lengths.
pub mod Lookup
use in5020_assignment.Prelude.{
  ℕ, zero, suc, ◌+◌, ◌-◌, ◌*◌, ◌/◌, ◌%◌, ◌^◌, Bool, true, false, ◌==◌, ltb, leb, if◌then◌else◌,
  Option, none, some, List, [], ◌∷◌, length, get_elem?, snoc, Faultable, ok, exit, ◌&&◌, ◌||◌,
}

-- `struct spread_if_info`
pub record Interface : Type 0 where
  pub ip : ℕ
  pub port : ℕ
  pub type : ℕ

-- `proc`; a name is its bytes up to the null.
pub record Proc : Type 0 where
  pub name : List ℕ
  pub port : ℕ
  pub seg_index : ℕ
  pub index_in_seg : ℕ
  pub id : ℕ
  pub ifc : List Interface

-- `segment`; the entries of `procs` point to configured daemons, which never change in place.
pub record Segment : Type 0 where
  pub bcast_address : ℕ
  pub port : ℕ
  pub procs : List Proc

pub record Configuration : Type 0 where
  pub hash_code : ℕ
  pub segments : List Segment

-- some interface of the list has the address
unfoldable pub has_ip : ℕ → List Interface → Bool
has_ip id [] = false
has_ip id (i ∷ is) = i.ip == id || has_ip id is

-- The first daemon from index `i` on with an interface at `id`, and its index.
unfoldable pub find_proc : ℕ → List Proc → ℕ → Option (ℕ × Proc)
find_proc id [] i = none
find_proc id (p ∷ ps) i = if has_ip id p.ifc then some (i, p) else find_proc id ps (i + 1)

-- `Conf_proc_by_id`, over the array `Config_procs`; `none` is -1.
unfoldable pub proc_by_id : List Proc → ℕ → Option (ℕ × Proc)
unfolding find_proc
proc_by_id procs id = find_proc id procs 0

-- `strcmp` for equality
unfoldable pub same_name : List ℕ → List ℕ → Bool
same_name [] [] = true
same_name [] (y ∷ ys) = false
same_name (x ∷ xs) [] = false
same_name (x ∷ xs) (y ∷ ys) = x == y && same_name xs ys

unfoldable pub find_name : List ℕ → List Proc → ℕ → Option (ℕ × Proc)
unfolding same_name
find_name name [] i = none
find_name name (p ∷ ps) i = if same_name p.name name then some (i, p) else find_name name ps (i + 1)

-- `Conf_proc_by_name`
unfoldable pub proc_by_name : List Proc → List ℕ → Option (ℕ × Proc)
unfolding find_name
proc_by_name procs name = find_name name procs 0

unfoldable pub find_in_seg : ℕ → List Proc → ℕ → Option ℕ
find_in_seg id [] j = none
find_in_seg id (p ∷ ps) j = if has_ip id p.ifc then some j else find_in_seg id ps (j + 1)

-- `Conf_id_in_seg`
unfoldable pub id_in_seg : Segment → ℕ → Option ℕ
unfolding find_in_seg
id_in_seg seg id = find_in_seg id seg.procs 0

-- `Conf_append_id_to_seg`; the flag is the return of 0.
unfoldable pub append_id_to_seg : List Proc → Segment → ℕ → Segment × Bool
append_id_to_seg procs seg id = elim (proc_by_id procs id) [
  | some (i, p) ↦ (record seg { procs = snoc seg.procs p }, true)
  | none ↦ (seg, false)
]

unfoldable pub find_segment : ℕ → List Segment → ℕ → Option ℕ
find_segment id [] i = none
find_segment id (s ∷ ss) i =
    let rest = find_segment id ss (i + 1) in elim (id_in_seg s id) [ some j ↦ some i | none ↦ rest ]

-- `Conf_id_in_conf`
unfoldable pub id_in_conf : Configuration → ℕ → Option ℕ
unfolding find_segment
id_in_conf config id = find_segment id config.segments 0

abbrev pub count_procs : List Segment → ℕ
count_procs [] = 0
count_procs (s ∷ ss) = length s.procs + count_procs ss

-- `Conf_num_procs`
unfoldable pub num_procs : Configuration → ℕ
num_procs config = count_procs config.segments

-- `Conf_num_segments`
abbrev pub num_segments : Configuration → ℕ
num_segments config = length config.segments

abbrev pub first_leader : List Segment → Faultable ℕ
first_leader [] = exit
first_leader (s ∷ ss) = elim s.procs [ p ∷ ps ↦ ok p.id | [] ↦ first_leader ss ]

-- `Conf_leader`: the first daemon of the first segment that has one.
unfoldable pub leader : Configuration → Faultable ℕ
leader config = first_leader config.segments

-- The daemon at the end of a list of daemons.
abbrev pub last_proc : List Proc → Option Proc
last_proc [] = none
last_proc (p ∷ ps) = elim (last_proc ps) [ some q ↦ some q | none ↦ some p ]

-- `Conf_last`'s loop goes down from the last segment: a later segment with daemons wins.
abbrev pub last_of : List Segment → Faultable ℕ
last_of [] = exit
last_of (s ∷ ss) = elim (last_of ss) [
  | ok id ↦ ok id
  | exit ↦ elim (last_proc s.procs) [ some p ↦ ok p.id | none ↦ exit ]
]

-- `Conf_last`: the last daemon of the last segment that has one.
unfoldable pub last : Configuration → Faultable ℕ
last config = last_of config.segments

-- `Conf_seg_leader`. An index past the segments is outside the array, and is a fault here.
unfoldable pub seg_leader : Configuration → ℕ → Faultable ℕ
seg_leader config k = elim (get_elem? config.segments k) [
  | some s ↦ elim s.procs [ p ∷ ps ↦ ok p.id | [] ↦ exit ]
  | none ↦ exit
]

-- `Conf_seg_last`
unfoldable pub seg_last : Configuration → ℕ → Faultable ℕ
seg_last config k = elim (get_elem? config.segments k) [
  | some s ↦ elim (last_proc s.procs) [ some p ↦ ok p.id | none ↦ exit ]
  | none ↦ exit
]

-- The four numbers that `Conf_id_to_str` prints.
unfoldable pub id_to_str : ℕ → ℕ × ℕ × ℕ × ℕ
id_to_str id = (id / 2 ^ 24 % 2 ^ 8, id / 2 ^ 16 % 2 ^ 8, id / 2 ^ 8 % 2 ^ 8, id % 2 ^ 8)
