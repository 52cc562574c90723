-- ===== src/Groups/Counts.antt =====
-- The counters of the groups: `num_members` "sums over all daemons in DaemonsList", as
-- daemon/sess_body.h says.
use in5020_assignment.Prelude.{
  ℕ, ◌<◌, ◌≡◌, refl, sym, ap, ◌∙◌, subst, true, false, ◌==◌, if-cases, if-split, Option,
  Option-cases, none, some, none-ne-some, inl, inr, List, [], length, All, arith, Faultable, ok,
  >>=-eq-ok, exit-ne-ok, ok-inj,
}
use in5020_assignment.Conf.{Proc, proc_by_name}
use in5020_assignment.Groups.{
  GroupState, gop, gtrans, ggather, ggt, DaemonMembers, Group, Groups, served,
}
use in5020_assignment.Groups.Names.{private_to_names, get_session}
use in5020_assignment.Groups.Sets.{
  get_group, get_daemon, has_member, put_member, put_daemon, set_group,
}
use in5020_assignment.Groups.Join.{
  new_group, open_group, open_daemon, add_member, add_mailbox, join_at, join_in, handle_join_group,
}
use in5020_assignment.Groups.Elements.{
  member_count, get_group-All, set_group-All, put_group-All, set_group-put_group, length-put_member,
  get_daemon-id, set_daemon-All, put_daemon-All, set_daemon-put_daemon, member_count-put_daemon,
  member_count-set_daemon,
}

abbrev pub Peopled : DaemonMembers → Type 0
Peopled d = 0 < length d.members_list

-- No group is empty, none has a daemon without members, and the number of members is their sum.
pub record Tallied (g : Group) : Type 0 where
  pub some_member : 0 < g.num_members
  pub sum : g.num_members ≡ member_count g.daemons_list
  pub peopled : All Peopled g.daemons_list

-- What a group has while a member joins.
pub record Summed (g : Group) : Type 0 where
  pub sum : g.num_members ≡ member_count g.daemons_list
  pub peopled : All Peopled g.daemons_list

Summed-of_Tallied : (g : Group) → Tallied g → Summed g
Summed-of_Tallied g t = record { sum = t.sum; peopled = t.peopled }

module _ (whole : List ℕ) where
  -- The daemon of a group gets one more member.
  add_member-old :
      (d : DaemonMembers) (g : Group)
      → get_daemon d.proc_id g.daemons_list ≡ some d
      → g.num_members ≡ member_count g.daemons_list
      → All Peopled g.daemons_list
      → Tallied (add_member whole d g)
  unfolding add_member
  add_member-old d g found sum all =
      let new : DaemonMembers = record d { members_list = put_member whole d.members_list } in
      let more = length-put_member whole d.members_list in
      let count = member_count-set_daemon new d g.daemons_list found in
      record {
        some_member = omega arith;
        sum = omega (arith, sum, count, more);
        peopled = set_daemon-All Peopled new g.daemons_list (omega (arith, more)) all;
      }

  -- A daemon that is put in the group gets its first member.
  add_member-new :
      (procs : List Proc) (d : DaemonMembers) (g : Group)
      → get_daemon d.proc_id g.daemons_list ≡ none
      → d.members_list ≡ []
      → g.num_members ≡ member_count g.daemons_list
      → All Peopled g.daemons_list
      → Tallied (add_member whole d (record g { daemons_list = put_daemon procs d g.daemons_list }))
  unfolding add_member
  add_member-new procs d g missing nobody sum all =
      let new : DaemonMembers = record d { members_list = put_member whole d.members_list } in
      let more = length-put_member whole d.members_list in
      let empty = ap (λ (z : List (List ℕ)). length z) nobody in
      let place = set_daemon-put_daemon procs new d g.daemons_list refl missing in
      let count = member_count-put_daemon procs new g.daemons_list in
      record {
        some_member = omega arith;
        sum = omega (arith, sum, ap member_count place, count, more, empty);
        peopled =
            subst (All Peopled) (sym place)
              (put_daemon-All Peopled procs new g.daemons_list (omega (arith, more)) all);
      }

  enlist-Tallied :
      (id : ℕ) (s : Groups) (g : Group)
      → Summed g
      → Tallied (add_member whole (open_daemon id s g).0 (open_daemon id s g).1)
  unfolding open_daemon
  enlist-Tallied id s g t = elim (Option-cases (get_daemon id g.daemons_list)) [
    | inr (d, found) ↦
        rw (open_daemon, found)
          (add_member-old d g
            (subst (λ z. get_daemon z g.daemons_list ≡ some d)
              (sym (get_daemon-id id g.daemons_list d found)) found)
            t.sum t.peopled)
    | inl missing ↦
        rw (open_daemon, missing) (add_member-new s.procs _ g missing refl t.sum t.peopled)
  ]

add_member-name :
    (whole : List ℕ) (d : DaemonMembers) (g : Group) → (add_member whole d g).name ≡ g.name
unfolding add_member
add_member-name whole d g = refl

open_daemon-name : (id : ℕ) (s : Groups) (g : Group) → (open_daemon id s g).1.name ≡ g.name
unfolding open_daemon
open_daemon-name id s g = elim (Option-cases (get_daemon id g.daemons_list)) [
  | inr (d, found) ↦ rw (open_daemon, found) refl
  | inl missing ↦ rw (open_daemon, missing) refl
]

open_group-Summed :
    (name : List ℕ) (s : Groups) → All Tallied s.groups_list → Summed (open_group name s).0
unfolding open_group new_group
open_group-Summed name s a = elim (Option-cases (get_group name s.groups_list)) [
  | inr (g, found) ↦
      rw (open_group, found)
        (Summed-of_Tallied g (get_group-All Tallied name s.groups_list g a found))
  | inl missing ↦ rw (open_group, missing) (record { sum = refl; peopled = tt })
]

-- A group that has a daemon is not a new one.
open_group-Tallied :
    (name : List ℕ) (s : Groups) (id : ℕ) (d : DaemonMembers)
    → All Tallied s.groups_list
    → get_daemon id (open_group name s).0.daemons_list ≡ some d
    → Tallied (open_group name s).0
unfolding open_group new_group get_daemon
open_group-Tallied name s id d a h = elim (Option-cases (get_group name s.groups_list)) [
  | inr (g, found) ↦ rw (open_group, found) (get_group-All Tallied name s.groups_list g a found)
  | inl missing ↦ absurd (none-ne-some (rw (open_group, missing) at h))
]

-- The group goes back to where it was, or to where it was put.
settle-Tallied :
    (name : List ℕ) (s : Groups) (h : Group)
    → All Tallied s.groups_list
    → Tallied h
    → h.name ≡ (open_group name s).0.name
    → All Tallied (set_group h (open_group name s).1)
unfolding open_group new_group
settle-Tallied name s h a t e = elim (Option-cases (get_group name s.groups_list)) [
  | inr (g, found) ↦ rw (open_group, found) (set_group-All Tallied h s.groups_list t a)
  | inl missing ↦
      let same : h.name ≡ name = rw (open_group, missing) at e in
      let place =
        set_group-put_group h (new_group name s) s.groups_list (sym same)
          (subst (λ z. get_group z s.groups_list ≡ none) (sym same) missing) in
      rw (open_group, missing)
        (subst (All Tallied) (sym place) (put_group-All Tallied h s.groups_list t a))
]

add_mailbox-Tallied :
    (p : List ℕ) (d : DaemonMembers) (s : Groups) (g : Group) {out : Option ℕ × Group}
    → Tallied g
    → add_mailbox p d s g ≡ ok out
    → Tallied out.1 × (out.1.name ≡ g.name)
unfolding add_mailbox
add_mailbox-Tallied p d s g t h =
    let Good : Option ℕ × Group → Type 0 = λ z. Tallied z.1 × (z.1.name ≡ g.name) in
    elim (if-split (d.proc_id == s.my.id) h) [
      | inr other ↦ subst Good (ok-inj other) (t, refl)
      | inl mine ↦ elim (Option-cases (get_session p s.sessions)) [
        | inl nobody ↦ absurd (exit-ne-ok (rw (nobody) at mine))
        | inr (ses, found) ↦
            subst Good (ok-inj (rw (found) at mine))
              (record { some_member = t.some_member; sum = t.sum; peopled = t.peopled }, refl)
      ]
    ]

module _ (whole private_name group_name : List ℕ) (id : ℕ) (s : Groups) where
  abbrev opened : Group × List Group
  opened = open_group group_name s

  abbrev entry : DaemonMembers × Group
  entry = open_daemon id s opened.0

  -- Who is a member already is one of a daemon that was there.
  known_member-Tallied :
      All Tallied s.groups_list
      → has_member whole entry.0.members_list ≡ true
      → All Tallied (set_group entry.1 opened.1)
  unfolding open_daemon has_member
  known_member-Tallied a h = elim (Option-cases (get_daemon id opened.0.daemons_list)) [
    | inr (d, found) ↦
        rw (open_daemon, found)
          (settle-Tallied group_name s opened.0 a (open_group-Tallied group_name s id d a found)
            refl)
    | inl missing ↦
        let none_yet : false ≡ true = rw (open_daemon, missing, has_member) at h in
        ground (arith, none_yet)
  ]

  join_at-Tallied :
      {t : Groups}
      → All Tallied s.groups_list
      → join_at whole private_name group_name id s ≡ ok t
      → All Tallied t.groups_list
  unfolding join_at
  join_at-Tallied a h = elim (if-cases (has_member whole entry.0.members_list) h) [
    | inl (known_one, done) ↦
        subst (λ (z : Groups). All Tallied z.groups_list) (ok-inj done)
          (known_member-Tallied a known_one)
    | inr (_, h1) ↦
        let grown = add_member whole entry.0 entry.1 in
        let (boxed, run, done) = >>=-eq-ok (add_mailbox private_name entry.0 s grown) _ h1 in
        let first = enlist-Tallied whole id s opened.0 (open_group-Summed group_name s a) in
        let (t, same) = add_mailbox-Tallied private_name entry.0 s grown first run in
        subst (λ (z : Groups). All Tallied z.groups_list) (ok-inj done)
          (settle-Tallied group_name s boxed.1 a t
            (same ∙ add_member-name whole entry.0 entry.1 ∙ open_daemon-name id s opened.0))
  ]

pub served-ok :
    (g : GroupState) (work : Faultable Groups) {t : Groups} → served g work ≡ ok t → work ≡ ok t
served-ok gop work h = h
served-ok gtrans work h = h
served-ok ggather work h = absurd (exit-ne-ok h)
served-ok ggt work h = absurd (exit-ne-ok h)

module _ (whole group_name : List ℕ) (s : Groups) {t : Groups} where
  join_in-Tallied :
      All Tallied s.groups_list → join_in whole group_name s ≡ ok t → All Tallied t.groups_list
  unfolding join_in
  join_in-Tallied a h = elim (Option-cases (private_to_names whole)) [
    | inl illegal ↦ absurd (exit-ne-ok (rw (join_in, illegal) at h))
    | inr (names, legal) ↦ elim (Option-cases (proc_by_name s.procs names.1)) [
      | inl unknown_name ↦
          subst (λ (z : Groups). All Tallied z.groups_list)
            (ok-inj (rw (join_in, legal, unknown_name) at h)) a
      | inr (p, found) ↦
          join_at-Tallied whole names.0 group_name p.1.id s a (rw (join_in, legal, found) at h)
    ]
  ]

  pub join-Tallied :
      All Tallied s.groups_list
      → handle_join_group whole group_name s ≡ ok t
      → All Tallied t.groups_list
  unfolding handle_join_group
  join-Tallied a h = join_in-Tallied a (served-ok s.gstate _ h)
