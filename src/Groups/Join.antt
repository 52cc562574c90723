-- ===== src/Groups/Join.antt =====
-- `G_handle_join` of daemon/groups.c
use in5020_assignment.Prelude.{
  ℕ, ◌+◌, Bool, true, false, ◌==◌, ◌||◌, if◌then◌else◌, Option, none, some, List, [], ◌∷◌, ◌++◌,
  snoc, is_empty, Faultable, ok, exit, ◌>>=◌,
}
use in5020_assignment.Conf.{proc_by_name, id_in_conf}
use in5020_assignment.Groups.{
  GroupState, gop, gtrans, ggather, ggt, DaemonMembers, Group, Groups, Notice, lightweight,
  heavyweight, transitional, served, unknown_memb_id, caused_by_join,
}
use in5020_assignment.Groups.Names.{private_to_names, get_session}
use in5020_assignment.Groups.Sets.{
  get_group, get_daemon, has_member, put_member, put_daemon, put_group, set_daemon, set_group,
}

-- `Is_partitioned_daemon`
abbrev pub is_partitioned : DaemonMembers → Bool
is_partitioned d = d.memb_id.proc_id == unknown_memb_id.proc_id

abbrev pub is_gop : GroupState → Bool
is_gop gop = true
is_gop gtrans = false
is_gop ggather = false
is_gop ggt = false

unfoldable pub new_group : List ℕ → Groups → Group
new_group name s = record {
  name = name;
  memb_id = if is_gop s.gstate then s.reg_memb_id else s.trans_memb_id;
  index = 0;
  changed = false;
  num_members = 0;
  daemons_list = [];
  mboxes = [];
}

-- The group, put on the list when it is a new one.
unfoldable pub open_group : List ℕ → Groups → Group × List Group
open_group name s = elim (get_group name s.groups_list) [
  | some g ↦ (g, s.groups_list)
  | none ↦ let g = new_group name s in (g, put_group g s.groups_list)
]

unfoldable pub is_established : Groups → ℕ → Bool
is_established s id =
    is_gop s.gstate || elim (id_in_conf s.trans_memb id) [ some i ↦ true | none ↦ false ]

-- The daemon of a group, put on its list when it is a new one.
unfoldable pub open_daemon : ℕ → Groups → Group → DaemonMembers × Group
open_daemon id s g = elim (get_daemon id g.daemons_list) [
  | some d ↦ (d, g)
  | none ↦
      let d : DaemonMembers = record {
        proc_id = id;
        memb_id = if is_established s id then g.memb_id else unknown_memb_id;
        members_list = [];
      } in
      (d, record g { daemons_list = put_daemon s.procs d g.daemons_list })
]

-- The new member of the daemon, and the counters.
unfoldable pub add_member : List ℕ → DaemonMembers → Group → Group
add_member name d g = record g {
  daemons_list =
      set_daemon (record d { members_list = put_member name d.members_list }) g.daemons_list;
  num_members = g.num_members + 1;
  index = g.index + 1;
  changed = g.changed || is_partitioned d;
}

-- The mailbox of a local member, with the group it is put in.
unfoldable pub add_mailbox : List ℕ → DaemonMembers → Groups → Group → Faultable (Option ℕ × Group)
add_mailbox private_name d s g =
    if d.proc_id == s.my.id
    then elim (get_session private_name s.sessions) [
      | some ses ↦ ok (some ses.mbox, record g { mboxes = snoc g.mboxes ses.mbox })
      | none ↦ exit
    ]
    else ok (none, g)

unfoldable pub tell_join : List ℕ → Option ℕ → Group → List Notice
tell_join name mbox g =
    if is_empty g.mboxes
    then []
    else if g.changed
    then transitional g ∷ heavyweight g (some name) mbox ∷ []
    else lightweight g caused_by_join name ∷ []

-- The handler after the daemon's name is found to be that of `id`.
unfoldable pub join_at : List ℕ → List ℕ → List ℕ → ℕ → Groups → Faultable Groups
join_at whole private_name group_name id s =
    let opened = open_group group_name s in
    let entry = open_daemon id s opened.0 in
    if has_member whole entry.0.members_list
    then ok (record s { groups_list = set_group entry.1 opened.1 })
    else (add_mailbox private_name entry.0 s (add_member whole entry.0 entry.1) >>= λ boxed.
        ok (record s {
          groups_list = set_group boxed.1 opened.1;
          notices = tell_join whole boxed.0 boxed.1 ++ s.notices;
        }))

-- A private name that is not legal leaves the daemon's name unset, which is a fault here.
unfoldable pub join_in : List ℕ → List ℕ → Groups → Faultable Groups
join_in whole group_name s = elim (private_to_names whole) [
  | none ↦ exit
  | some names ↦ elim (proc_by_name s.procs names.1) [
    | none ↦ ok s
    | some new_p ↦ join_at whole names.0 group_name new_p.1.id s
  ]
]

unfoldable pub handle_join_group : List ℕ → List ℕ → Groups → Faultable Groups
handle_join_group whole group_name s = served s.gstate (join_in whole group_name s)
