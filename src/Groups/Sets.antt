-- ===== src/Groups/Sets.antt =====
-- daemon/groups.c: the ordered lists of groups, daemons and members (`G_get_group`, `G_get_daemon`,
-- `G_get_member`), and what is taken out of them (`G_remove_daemon`, `G_remove_group`,
-- `G_remove_mailbox`).
use in5020_assignment.Prelude.{
  ℕ, ◌+◌, ◌-◌, Bool, true, false, ◌==◌, ◌||◌, ltb, if◌then◌else◌, Option, none, some, List, [], ◌∷◌,
  length, take, set, get_or, is_empty, Faultable, ok, exit,
}
use in5020_assignment.Conf.{Proc, same_name, proc_by_id}
use in5020_assignment.Groups.{Group, DaemonMembers}
use in5020_assignment.Groups.Names.{name_before}

unfoldable pub get_group : List ℕ → List Group → Option Group
get_group name [] = none
get_group name (g ∷ gs) = if same_name g.name name then some g else get_group name gs

unfoldable pub get_daemon : ℕ → List DaemonMembers → Option DaemonMembers
get_daemon id [] = none
get_daemon id (d ∷ ds) = if d.proc_id == id then some d else get_daemon id ds

unfoldable pub has_member : List ℕ → List (List ℕ) → Bool
has_member name [] = false
has_member name (m ∷ ms) = same_name m name || has_member name ms

-- A new element is put before the first one that is not before it.
unfoldable pub put_member : List ℕ → List (List ℕ) → List (List ℕ)
put_member name [] = name ∷ []
put_member name (m ∷ ms) = if name_before m name then m ∷ put_member name ms else name ∷ m ∷ ms

-- `G_compare_proc_ids_by_conf`, whose asserts do not fail for daemons of the configuration
unfoldable pub daemon_before : List Proc → ℕ → ℕ → Bool
daemon_before procs a b = elim (proc_by_id procs a) [
  | none ↦ true
  | some x ↦ elim (proc_by_id procs b) [ none ↦ false | some y ↦ ltb x.0 y.0 ]
]

unfoldable pub put_daemon : List Proc → DaemonMembers → List DaemonMembers → List DaemonMembers
put_daemon procs d [] = d ∷ []
put_daemon procs d (e ∷ es) =
    if daemon_before procs e.proc_id d.proc_id then e ∷ put_daemon procs d es else d ∷ e ∷ es

unfoldable pub put_group : Group → List Group → List Group
put_group g [] = g ∷ []
put_group g (h ∷ hs) = if name_before h.name g.name then h ∷ put_group g hs else g ∷ h ∷ hs

-- A change in place of the element that a search finds.
unfoldable pub set_daemon : DaemonMembers → List DaemonMembers → List DaemonMembers
set_daemon d [] = []
set_daemon d (e ∷ es) = if e.proc_id == d.proc_id then d ∷ es else e ∷ set_daemon d es

unfoldable pub set_group : Group → List Group → List Group
set_group g [] = []
set_group g (h ∷ hs) = if same_name h.name g.name then g ∷ hs else h ∷ set_group g hs

-- `stdskl_erase` of what a search finds
unfoldable pub erase_member : List ℕ → List (List ℕ) → List (List ℕ)
erase_member name [] = []
erase_member name (m ∷ ms) = if same_name m name then ms else m ∷ erase_member name ms

unfoldable pub erase_daemon : ℕ → List DaemonMembers → List DaemonMembers
erase_daemon id [] = []
erase_daemon id (d ∷ ds) = if d.proc_id == id then ds else d ∷ erase_daemon id ds

unfoldable pub erase_group : List ℕ → List Group → List Group
erase_group name [] = []
erase_group name (g ∷ gs) = if same_name g.name name then gs else g ∷ erase_group name gs

-- `G_remove_daemon`
unfoldable pub remove_daemon : Group → DaemonMembers → Group
remove_daemon g d = record g {
  daemons_list = erase_daemon d.proc_id g.daemons_list;
  num_members = g.num_members - length d.members_list;
}

-- `G_remove_group`, with its asserts
unfoldable pub remove_group : Group → List Group → Faultable (List Group)
remove_group g gs =
    if is_empty g.daemons_list
    then if is_empty g.mboxes then ok (erase_group g.name gs) else exit
    else exit

unfoldable pub position : ℕ → List ℕ → Option ℕ
position m [] = none
position m (x ∷ xs) =
    if x == m then some 0 else elim (position m xs) [ some i ↦ some (i + 1) | none ↦ none ]

-- `G_remove_mailbox`: the last entry overwrites the one that goes.
unfoldable pub remove_mailbox : Group → ℕ → Faultable Group
remove_mailbox g m = elim (position m g.mboxes) [
  | none ↦ exit
  | some i ↦
      let end_ = length g.mboxes - 1 in
      ok (record g { mboxes = take end_ (set g.mboxes i (get_or g.mboxes end_ 0)) })
]
