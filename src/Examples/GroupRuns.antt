-- ===== src/Examples/GroupRuns.antt =====
-- Client u of daemon a and client v of daemon b join group g, and then u leaves it.
use in5020_assignment.Prelude.{
  ℕ, ◌≡◌, refl, List, [], ◌∷◌, Faultable, ok, ok-inj, exit, arith, ◌≢◌, ◌↔◌, All, some, false,
}
use in5020_assignment.Conf.{Proc, proc_by_id, find_proc, find_name, has_ip, proc_by_name, same_name}
use in5020_assignment.Groups.{Groups, gop}
use in5020_assignment.Groups.Names.{
  private_to_names, cut_at_sharp, all_legal, name_before, get_session,
}
use in5020_assignment.Groups.Names.Spelling.{spelled, Allowed, private_to_names_iff}
use in5020_assignment.Groups.Sets.{
  get_group, get_daemon, has_member, put_member, put_daemon, put_group, set_daemon, set_group,
  erase_member, erase_daemon, erase_group, remove_daemon, remove_group, remove_mailbox, position,
  daemon_before,
}
use in5020_assignment.Groups.Join.{
  new_group, open_group, is_established, open_daemon, add_member, add_mailbox, tell_join, join_at,
  join_in, handle_join_group,
}
use in5020_assignment.Groups.Leave.{
  extract_member, tell_leave, leave_group, leave_local, leave_at, leave_in, handle_leave_group,
  kill_mailbox, kill_in, kill_all, kill_from, handle_kill,
}
use in5020_assignment.Groups.Counts.{Tallied}
use in5020_assignment.Groups.Runs.{Grown-Tallied, no_groups, joins, leaves}
use in5020_assignment.Groups.Synced.{conf_index}
use in5020_assignment.Groups.Synced.Merge.{Merged, add_to_synced_set-merges}
use in5020_assignment.Examples.{daemon, ring}

abbrev daemon_a : Proc
daemon_a = record (daemon 1) { name = 97 ∷ [] }

abbrev daemon_b : Proc
daemon_b = record (daemon 2) { name = 98 ∷ [] }

abbrev client_u : List ℕ
client_u = 35 ∷ 117 ∷ 35 ∷ 97 ∷ []

abbrev client_v : List ℕ
client_v = 35 ∷ 118 ∷ 35 ∷ 98 ∷ []

abbrev group_g : List ℕ
group_g = 103 ∷ []

abbrev alone_in : Groups
alone_in = record {
  gstate = gop;
  groups_list = [];
  reg_memb_id = record { proc_id = 1; time = 5 };
  trans_memb = ring;
  trans_memb_id = record { proc_id = 1; time = 4 };
  my = daemon_a;
  procs = daemon_a ∷ daemon_b ∷ [];
  sessions = record { name = 117 ∷ []; mbox = 9 } ∷ [];
  notices = [];
}

abbrev outcome : Faultable Groups → Groups
outcome (ok t) = t
outcome exit = alone_in

abbrev after_u : Groups
unfolding handle_join_group join_in private_to_names cut_at_sharp all_legal proc_by_name find_name
    same_name join_at open_group get_group new_group put_group open_daemon get_daemon is_established
    put_daemon has_member add_member set_daemon put_member add_mailbox get_session tell_join
    set_group name_before daemon_before proc_by_id find_proc has_ip
after_u = outcome (handle_join_group client_u group_g alone_in)

u_joins : handle_join_group client_u group_g alone_in ≡ ok after_u
unfolding handle_join_group join_in private_to_names cut_at_sharp all_legal proc_by_name find_name
    same_name join_at open_group get_group new_group put_group open_daemon get_daemon is_established
    put_daemon has_member add_member set_daemon put_member add_mailbox get_session tell_join
    set_group name_before daemon_before proc_by_id find_proc has_ip
u_joins = refl

abbrev after_v : Groups
unfolding handle_join_group join_in private_to_names cut_at_sharp all_legal proc_by_name find_name
    same_name join_at open_group get_group new_group put_group open_daemon get_daemon is_established
    put_daemon has_member add_member set_daemon put_member add_mailbox get_session tell_join
    set_group name_before daemon_before proc_by_id find_proc has_ip
after_v = outcome (handle_join_group client_v group_g after_u)

v_joins : handle_join_group client_v group_g after_u ≡ ok after_v
unfolding handle_join_group join_in private_to_names cut_at_sharp all_legal proc_by_name find_name
    same_name join_at open_group get_group new_group put_group open_daemon get_daemon is_established
    put_daemon has_member add_member set_daemon put_member add_mailbox get_session tell_join
    set_group name_before daemon_before proc_by_id find_proc has_ip
v_joins = refl

abbrev without_u : Groups
unfolding handle_join_group join_in private_to_names cut_at_sharp all_legal proc_by_name find_name
    same_name join_at open_group get_group new_group put_group open_daemon get_daemon is_established
    put_daemon has_member add_member set_daemon put_member add_mailbox get_session tell_join
    set_group name_before daemon_before proc_by_id find_proc has_ip handle_leave_group leave_in
    leave_at leave_local remove_mailbox position leave_group extract_member erase_member
    remove_daemon erase_daemon remove_group erase_group tell_leave
without_u = outcome (handle_leave_group client_u group_g after_v)

u_leaves : handle_leave_group client_u group_g after_v ≡ ok without_u
unfolding handle_join_group join_in private_to_names cut_at_sharp all_legal proc_by_name find_name
    same_name join_at open_group get_group new_group put_group open_daemon get_daemon is_established
    put_daemon has_member add_member set_daemon put_member add_mailbox get_session tell_join
    set_group name_before daemon_before proc_by_id find_proc has_ip handle_leave_group leave_in
    leave_at leave_local remove_mailbox position leave_group extract_member erase_member
    remove_daemon erase_daemon remove_group erase_group tell_leave
u_leaves = refl

-- The members that are left, and that u is told.
u_has_left :
    (get_group group_g without_u.groups_list
      ≡ some (record {
        name = group_g;
        memb_id = record { proc_id = 1; time = 5 };
        index = 3;
        changed = false;
        num_members = 1;
        daemons_list =
            record {
              proc_id = 2;
              memb_id = record { proc_id = 1; time = 5 };
              members_list = client_v ∷ [];
            }
            ∷ [];
        mboxes = [];
      }))
unfolding handle_join_group join_in private_to_names cut_at_sharp all_legal proc_by_name find_name
    same_name join_at open_group get_group new_group put_group open_daemon get_daemon is_established
    put_daemon has_member add_member set_daemon put_member add_mailbox get_session tell_join
    set_group name_before daemon_before proc_by_id find_proc has_ip handle_leave_group leave_in
    leave_at leave_local remove_mailbox position leave_group extract_member erase_member
    remove_daemon erase_daemon remove_group erase_group tell_leave
u_has_left = refl

v_is_killed : handle_kill client_v without_u ≡ ok (record without_u { groups_list = [] })
unfolding handle_join_group join_in private_to_names cut_at_sharp all_legal proc_by_name find_name
    same_name join_at open_group get_group new_group put_group open_daemon get_daemon is_established
    put_daemon has_member add_member set_daemon put_member add_mailbox get_session tell_join
    set_group name_before daemon_before proc_by_id find_proc has_ip handle_leave_group leave_in
    leave_at leave_local remove_mailbox position leave_group extract_member erase_member
    remove_daemon erase_daemon remove_group erase_group tell_leave handle_kill kill_from kill_all
    kill_in kill_mailbox
v_is_killed = refl

Grown-Tallied_example : All Tallied without_u.groups_list
Grown-Tallied_example = Grown-Tallied without_u (
    leaves client_u group_g
      (joins client_v group_g (joins {s = alone_in} client_u group_g (no_groups refl) u_joins)
        v_joins)
      u_leaves)

private_to_names_iff_example :
    (private_to_names client_u ≡ some (117 ∷ [], 97 ∷ []))
    ↔ ((client_u ≡ spelled (117 ∷ []) (97 ∷ [])) × Allowed (117 ∷ []) (97 ∷ []))
private_to_names_iff_example = private_to_names_iff client_u (117 ∷ []) (97 ∷ [])

different : (i j : ℕ) → i ≢ j → ok i ≡ ok j → ⊥
different i j d e = d (ok-inj e)

abbrev three : List Proc
three = daemon 1 ∷ daemon 2 ∷ daemon 3 ∷ []

-- Daemons 1 and 3 are synced with daemon 2.
add_to_synced_set-merges_example : Merged three (1 ∷ 3 ∷ []) (2 ∷ [])
unfolding conf_index proc_by_id find_proc has_ip
add_to_synced_set-merges_example =
    add_to_synced_set-merges three (1 ∷ 3 ∷ []) (2 ∷ [])
      (0, refl, ((2, refl, omega arith), tt), (2, refl, tt, tt)) (1, refl, tt, tt)
      (
        ((λ e. absurd (different 0 1 (omega arith) e)), tt),
        (((λ e. absurd (different 2 1 (omega arith) e)), tt), tt),
      )
