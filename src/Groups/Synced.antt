-- ===== src/Groups/Synced.antt =====
-- daemon/groups.c: the synced set (`G_add_to_synced_set`, `G_update_synced_set_status`) and what a
-- change of the daemons' membership does to the daemons of a group
-- (`G_eliminate_partitioned_daemons_status`, `G_check_if_changed_by_cascade`,
-- `G_update_daemon_memb_ids`).
pub mod Merge
use in5020_assignment.Prelude.{
  ℕ, Bool, true, false, ◌==◌, ◌||◌, not, ltb, if◌then◌else◌, Option, none, some, List, [], ◌∷◌,
  length, is_empty, Faultable, ok, exit, ◌>>=◌,
}
use in5020_assignment.Conf.{Proc, Configuration, proc_by_id, id_in_conf}
use in5020_assignment.Groups.{GroupState, gop, gtrans, ggather, ggt, DaemonMembers, Group, Groups}
use in5020_assignment.Groups.Sets.{get_group, remove_daemon}
use in5020_assignment.Groups.Join.{is_partitioned}

-- The place of a daemon in the configuration, which it has to be in.
unfoldable pub conf_index : List Proc → ℕ → Faultable ℕ
conf_index procs id = elim (proc_by_id procs id) [ none ↦ exit | some found ↦ ok found.0 ]

-- One set at its end: the rest of the other.
unfoldable pub take_over : List Proc → List ℕ → Faultable (List ℕ)
take_over procs [] = ok []
take_over procs (x ∷ xs) = conf_index procs x >>= λ i. take_over procs xs >>= λ rest. ok (x ∷ rest)

-- `G_add_to_synced_set`: the two sets are merged, in the order of the configuration. That they have
-- a daemon in common is fatal.
unfoldable pub add_to_synced_set : List Proc → List ℕ → List ℕ → Faultable (List ℕ)
add_to_synced_set procs [] ys = take_over procs ys
add_to_synced_set procs (x ∷ xs) [] = take_over procs (x ∷ xs)
add_to_synced_set procs (x ∷ xs) (y ∷ ys) =
    let left = add_to_synced_set procs xs (y ∷ ys) >>= λ rest. ok (x ∷ rest) in
    let right = add_to_synced_set procs (x ∷ xs) ys >>= λ rest. ok (y ∷ rest) in
    conf_index procs x >>= λ i.
    conf_index procs y >>= λ j. if ltb i j then left else if ltb j i then right else exit

unfoldable pub in_conf : Configuration → ℕ → Bool
in_conf memb id = elim (id_in_conf memb id) [ some i ↦ true | none ↦ false ]

unfoldable pub keep_in_conf : Configuration → List ℕ → List ℕ
keep_in_conf memb [] = []
keep_in_conf memb (id ∷ ids) =
    let rest = keep_in_conf memb ids in if in_conf memb id then id ∷ rest else rest

-- `G_update_synced_set_status`: the set, and whether it lost members.
unfoldable pub update_synced_set : List ℕ → Configuration → List ℕ × Bool
update_synced_set ids memb =
    let kept = keep_in_conf memb ids in (kept, not (length kept == length ids))

-- The test of `G_eliminate_partitioned_daemons_status`
unfoldable pub is_lost : Groups → DaemonMembers → Bool
is_lost s d = elim s.gstate [
  | ggt ↦ not (in_conf s.trans_memb d.proc_id)
  | gop ↦ is_partitioned d
  | gtrans ↦ is_partitioned d
  | ggather ↦ is_partitioned d
]

unfoldable pub remove_lost : Groups → List DaemonMembers → Group × Bool → Group × Bool
remove_lost s [] out = out
remove_lost s (d ∷ ds) out =
    remove_lost s ds (if is_lost s d then (remove_daemon out.0 d, true) else out)

-- `G_eliminate_partitioned_daemons_status`: the group, and whether it lost daemons.
unfoldable pub eliminate_partitioned_daemons : Groups → Group → Group × Bool
eliminate_partitioned_daemons s g = remove_lost s g.daemons_list (g, false)

-- `G_check_if_changed_by_cascade`
unfoldable pub changed_by_cascade : Groups → List DaemonMembers → Bool
changed_by_cascade s [] = false
changed_by_cascade s (d ∷ ds) = not (in_conf s.trans_memb d.proc_id) || changed_by_cascade s ds

unfoldable pub update_memb_ids : Group → List DaemonMembers → List DaemonMembers
update_memb_ids g [] = []
update_memb_ids g (d ∷ ds) =
    let rest = update_memb_ids g ds in
    if is_partitioned d then d ∷ rest else record d { memb_id = g.memb_id } ∷ rest

-- `G_update_daemon_memb_ids`
unfoldable pub update_daemon_memb_ids : Group → Group
update_daemon_memb_ids g = record g { daemons_list = update_memb_ids g g.daemons_list }

-- `G_get_num_local`
unfoldable pub get_num_local : List ℕ → Groups → ℕ
get_num_local name s = elim (get_group name s.groups_list) [ none ↦ 0 | some g ↦ length g.mboxes ]
