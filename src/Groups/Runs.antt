-- ===== src/Groups/Runs.antt =====
-- Runs of `G_handle_join`, `G_handle_leave` and `G_handle_kill` of daemon/groups.c from a daemon
-- without groups on.
use in5020_assignment.Prelude.{
  ℕ, ◌≡◌, sym, subst, Option, Option-cases, inl, inr, List, [], ◌∷◌, All, ok, >>=-eq-ok, exit-ne-ok,
  ok-inj,
}
use in5020_assignment.Conf.{proc_by_name}
use in5020_assignment.Groups.{Group, Groups, Session}
use in5020_assignment.Groups.Names.{private_to_names, get_session}
use in5020_assignment.Groups.Join.{handle_join_group}
use in5020_assignment.Groups.Leave.{
  leave_in, handle_leave_group, kill_in, kill_all, kill_from, handle_kill,
}
use in5020_assignment.Groups.Counts.{Tallied, served-ok, join-Tallied}
use in5020_assignment.Groups.Departures.{leave_at-Tallied, kill_in-Tallied}

kill_all-Tallied :
    (whole : List ℕ) (ses : Option Session) (id : ℕ) (gs : List Group) (s : Groups) {t : Groups}
    → All Tallied gs
    → All Tallied s.groups_list
    → kill_all whole ses id gs s ≡ ok t
    → All Tallied t.groups_list
unfolding kill_all
kill_all-Tallied whole ses id [] s ags a h =
    subst (λ (z : Groups). All Tallied z.groups_list) (ok-inj h) a
kill_all-Tallied whole ses id (g ∷ gs) s (tg, ags) a h =
    let (mid, run, rest) = >>=-eq-ok (kill_in whole ses id g s) _ h in
    kill_all-Tallied whole ses id gs mid ags (kill_in-Tallied whole s a ses id g tg run) rest

module _ (whole : List ℕ) (s : Groups) {t : Groups} (a : All Tallied s.groups_list) where
  unchanged : s ≡ t → All Tallied t.groups_list
  unchanged e = subst (λ (z : Groups). All Tallied z.groups_list) e a

  kill-Tallied : handle_kill whole s ≡ ok t → All Tallied t.groups_list
  unfolding handle_kill kill_from
  kill-Tallied h =
      let run = served-ok s.gstate (kill_from whole s) h in
      elim (Option-cases (private_to_names whole)) [
        | inl illegal ↦ absurd (exit-ne-ok (rw (kill_from, illegal) at run))
        | inr (names, legal) ↦ elim (Option-cases (proc_by_name s.procs names.1)) [
          | inl nobody ↦ unchanged (ok-inj (rw (kill_from, legal, nobody) at run))
          | inr (p, found) ↦
              kill_all-Tallied whole (get_session names.0 s.sessions) p.1.id s.groups_list s a a
                (rw (kill_from, legal, found) at run)
        ]
      ]

  leave-Tallied :
      (group_name : List ℕ)
      → handle_leave_group whole group_name s ≡ ok t
      → All Tallied t.groups_list
  unfolding handle_leave_group leave_in
  leave-Tallied group_name h =
      let run = served-ok s.gstate (leave_in whole group_name s) h in
      elim (Option-cases (private_to_names whole)) [
        | inl illegal ↦ absurd (exit-ne-ok (rw (leave_in, illegal) at run))
        | inr (names, legal) ↦ elim (Option-cases (proc_by_name s.procs names.1)) [
          | inl nobody ↦ unchanged (ok-inj (rw (leave_in, legal, nobody) at run))
          | inr (p, found) ↦
              leave_at-Tallied whole s a names.0 group_name p.1.id
                (rw (leave_in, legal, found) at run)
        ]
      ]

-- The states that the three handlers lead to. `between` is what happens that leaves the groups as
-- they are: sessions come and go, and `Gstate` and the memberships change.
pub data Grown : Groups → Type 0 where
  no_groups : {s : Groups} → s.groups_list ≡ [] → Grown s
  joins :
      {s t : Groups} (whole name : List ℕ)
      → Grown s
      → handle_join_group whole name s ≡ ok t
      → Grown t
  leaves :
      {s t : Groups} (whole name : List ℕ)
      → Grown s
      → handle_leave_group whole name s ≡ ok t
      → Grown t
  is_killed : {s t : Groups} (whole : List ℕ) → Grown s → handle_kill whole s ≡ ok t → Grown t
  between : {s t : Groups} → Grown s → t.groups_list ≡ s.groups_list → Grown t

-- In every state that joins, leaves and kills lead to from a daemon without groups, with any change
-- between them that leaves the groups alone, no group is without members, no group has a daemon
-- without members, and `num_members` of a group is the sum of the members over its daemons.
pub Grown-Tallied : (s : Groups) → Grown s → All Tallied s.groups_list
Grown-Tallied s (no_groups e) = subst (All Tallied) (sym e) tt
Grown-Tallied s (joins {s = s0} whole name g h) = join-Tallied whole name s0 (Grown-Tallied s0 g) h
Grown-Tallied s (leaves {s = s0} whole name g h) =
    leave-Tallied whole s0 (Grown-Tallied s0 g) name h
Grown-Tallied s (is_killed {s = s0} whole g h) = kill-Tallied whole s0 (Grown-Tallied s0 g) h
Grown-Tallied s (between {s = s0} g e) = subst (All Tallied) (sym e) (Grown-Tallied s0 g)
