-- ===== src/Groups/Leave.antt =====
-- `G_handle_leave` and `G_handle_kill` of daemon/groups.c
use in5020_assignment.Prelude.{
  ℕ, ◌+◌, ◌-◌, ◌==◌, if◌then◌else◌, Option, none, some, List, [], ◌∷◌, ◌++◌, is_empty, Faultable,
  ok, exit, ◌>>=◌,
}
use in5020_assignment.Conf.{proc_by_name}
use in5020_assignment.Groups.{
  DaemonMembers, Group, Groups, Session, Notice, lightweight, heavyweight, transitional, served,
  self_leave, caused_by_leave, caused_by_disconnect,
}
use in5020_assignment.Groups.Names.{private_to_names, get_session}
use in5020_assignment.Groups.Sets.{
  get_group, get_daemon, has_member, erase_member, set_daemon, set_group, remove_daemon,
  remove_group, remove_mailbox,
}

-- The member is taken out, and a daemon without members too.
unfoldable pub extract_member : List ℕ → DaemonMembers → Group → Group
extract_member name d g =
    let left : DaemonMembers = record d { members_list = erase_member name d.members_list } in
    let less : Group = record g {
      daemons_list = set_daemon left g.daemons_list;
      num_members = g.num_members - 1;
    } in
    if is_empty left.members_list then remove_daemon less left else less

unfoldable pub tell_leave : ℕ → List ℕ → Group → List Notice
tell_leave caused name g =
    if is_empty g.mboxes
    then []
    else if g.changed
    then transitional g ∷ heavyweight g none none ∷ []
    else lightweight g caused name ∷ []

-- What follows when the mailbox is out of the group: a group without members goes, another one has
-- its index raised and its local members told.
unfoldable pub leave_group : ℕ → List ℕ → DaemonMembers → Group → Groups → Faultable Groups
leave_group caused name d g s =
    let less = extract_member name d g in
    let next : Group = record less { index = less.index + 1 } in
    if less.num_members == 0
    then (remove_group less s.groups_list >>= λ gs. ok (record s { groups_list = gs }))
    else ok (record s {
      groups_list = set_group next s.groups_list;
      notices = tell_leave caused name next ++ s.notices;
    })

-- The local member is told that it leaves.
unfoldable pub leave_local : List ℕ → List ℕ → DaemonMembers → Group → Groups → Faultable Groups
leave_local whole private_name d g s = elim (get_session private_name s.sessions) [
  | none ↦ exit
  | some ses ↦ remove_mailbox g ses.mbox >>= λ unboxed.
      leave_group caused_by_leave whole d unboxed
        (record s { notices = self_leave g ses.name ∷ s.notices })
]

unfoldable pub leave_at : List ℕ → List ℕ → List ℕ → ℕ → Groups → Faultable Groups
leave_at whole private_name group_name id s = elim (get_group group_name s.groups_list) [
  | none ↦ ok s
  | some g ↦ elim (get_daemon id g.daemons_list) [
    | none ↦ ok s
    | some d ↦
        if has_member whole d.members_list
        then if id == s.my.id
          then leave_local whole private_name d g s
          else leave_group caused_by_leave whole d g s
        else ok s
  ]
]

-- A private name that is not legal leaves the daemon's name unset, which is a fault here.
unfoldable pub leave_in : List ℕ → List ℕ → Groups → Faultable Groups
leave_in whole group_name s = elim (private_to_names whole) [
  | none ↦ exit
  | some names ↦ elim (proc_by_name s.procs names.1) [
    | none ↦ ok s
    | some p ↦ leave_at whole names.0 group_name p.1.id s
  ]
]

unfoldable pub handle_leave_group : List ℕ → List ℕ → Groups → Faultable Groups
handle_leave_group whole group_name s = served s.gstate (leave_in whole group_name s)

-- The mailbox of the killed session; that there is no session, where the code reads before the array
-- `Sessions`, is a fault here.
unfoldable pub kill_mailbox : Option Session → ℕ → Group → Groups → Faultable Group
kill_mailbox ses id g s =
    if id == s.my.id then elim ses [ none ↦ exit | some x ↦ remove_mailbox g x.mbox ] else ok g

-- The body of the loop over the groups.
unfoldable pub kill_in : List ℕ → Option Session → ℕ → Group → Groups → Faultable Groups
kill_in whole ses id g s = elim (get_daemon id g.daemons_list) [
  | none ↦ ok s
  | some d ↦
      if has_member whole d.members_list
      then (kill_mailbox ses id g s >>= λ unboxed.
          leave_group caused_by_disconnect whole d unboxed s)
      else ok s
]

unfoldable pub kill_all : List ℕ → Option Session → ℕ → List Group → Groups → Faultable Groups
kill_all whole ses id [] s = ok s
kill_all whole ses id (g ∷ gs) s = kill_in whole ses id g s >>= λ t. kill_all whole ses id gs t

unfoldable pub kill_from : List ℕ → Groups → Faultable Groups
kill_from whole s = elim (private_to_names whole) [
  | none ↦ exit
  | some names ↦ elim (proc_by_name s.procs names.1) [
    | none ↦ ok s
    | some p ↦ kill_all whole (get_session names.0 s.sessions) p.1.id s.groups_list s
  ]
]

unfoldable pub handle_kill : List ℕ → Groups → Faultable Groups
handle_kill whole s = served s.gstate (kill_from whole s)
