-- ===== src/Groups/Departures.antt =====
-- The counters of a group that a member leaves.
use in5020_assignment.Prelude.{
  ℕ, ◌+◌, ◌<◌, ◌≡◌, refl, sym, ap, subst, subst₂, Bool-cases, true, false, ◌==◌, if-cases, if-split,
  Option, Option-cases, some, inl, inr, List, [], ◌∷◌, length, is_empty, All, arith, ok, >>=-eq-ok,
  exit-ne-ok, ok-inj,
}
use in5020_assignment.Groups.{DaemonMembers, Group, Groups, Session}
use in5020_assignment.Groups.Names.{get_session}
use in5020_assignment.Groups.Sets.{
  get_group, get_daemon, has_member, erase_member, remove_daemon, remove_group, remove_mailbox,
  position,
}
use in5020_assignment.Groups.Leave.{
  extract_member, leave_group, leave_local, leave_at, kill_mailbox, kill_in,
}
use in5020_assignment.Groups.Counts.{Peopled, Tallied, Summed}
use in5020_assignment.Groups.Elements.{
  member_count, get_group-All, set_group-All, erase_group-All, length-erase_member, get_daemon-id,
  set_daemon-All, erase_daemon-All, erase_daemon-set_daemon, member_count-set_daemon,
  member_count-erase_daemon,
}

remove_mailbox-Tallied :
    (g : Group) (m : ℕ) {h : Group}
    → remove_mailbox g m ≡ ok h
    → Tallied g
    → Tallied h × (h.daemons_list ≡ g.daemons_list)
unfolding remove_mailbox
remove_mailbox-Tallied g m h t =
    let Good : Group → Type 0 = λ z. Tallied z × (z.daemons_list ≡ g.daemons_list) in
    elim (Option-cases (position m g.mboxes)) [
      | inl missing ↦ absurd (exit-ne-ok (rw (remove_mailbox, missing) at h))
      | inr (i, found) ↦
          subst Good (ok-inj (rw (remove_mailbox, found) at h))
            (record { some_member = t.some_member; sum = t.sum; peopled = t.peopled }, refl)
    ]

remove_group-Tallied :
    (less : Group) (gs : List Group) {out : List Group}
    → remove_group less gs ≡ ok out
    → All Tallied gs
    → All Tallied out
unfolding remove_group
remove_group-Tallied less gs h a = elim (if-split (is_empty less.daemons_list) h) [
  | inr kept ↦ absurd (exit-ne-ok kept)
  | inl h1 ↦ elim (if-split (is_empty less.mboxes) h1) [
    | inr kept ↦ absurd (exit-ne-ok kept)
    | inl done ↦ subst (All Tallied) (ok-inj done) (erase_group-All Tallied less.name gs a)
  ]
]

empty-length : (xs : List (List ℕ)) → is_empty xs ≡ true → length xs ≡ 0
empty-length [] h = refl
empty-length (x ∷ xs) h = ground (arith, h)

some-length : (xs : List (List ℕ)) → is_empty xs ≡ false → 0 < length xs
some-length [] h = ground (arith, h)
some-length (x ∷ xs) h = omega arith

own_daemon :
    (id : ℕ) (d : DaemonMembers) (g h : Group)
    → get_daemon id g.daemons_list ≡ some d
    → h.daemons_list ≡ g.daemons_list
    → get_daemon d.proc_id h.daemons_list ≡ some d
own_daemon id d g h found e =
    subst₂ (λ x y. get_daemon x y ≡ some d) (sym (get_daemon-id id g.daemons_list d found)) (sym e)
      found

module _ (whole : List ℕ) where
  extract_member-Summed :
      (d : DaemonMembers) (g : Group)
      → get_daemon d.proc_id g.daemons_list ≡ some d
      → has_member whole d.members_list ≡ true
      → Tallied g
      → Summed (extract_member whole d g)
  unfolding extract_member remove_daemon
  extract_member-Summed d g found here t =
      let left : DaemonMembers = record d { members_list = erase_member whole d.members_list } in
      let less = length-erase_member whole d.members_list here in
      let count = member_count-set_daemon left d g.daemons_list found in
      elim (Bool-cases (is_empty left.members_list)) [
        | inl last_one ↦
            let gone = member_count-erase_daemon d.proc_id d g.daemons_list found in
            let same = erase_daemon-set_daemon left g.daemons_list in
            let zero_left = empty-length left.members_list last_one in
            rw (last_one) (record {
              sum = omega (arith, t.sum, less, gone, ap member_count same, zero_left);
              peopled =
                  subst (All Peopled) (sym same)
                    (erase_daemon-All Peopled d.proc_id g.daemons_list t.peopled);
            })
        | inr more ↦ rw (more) (record {
          sum = omega (arith, t.sum, less, count);
          peopled =
              set_daemon-All Peopled left g.daemons_list (some-length left.members_list more)
                t.peopled;
        })
      ]

  leave_group-Tallied :
      (caused : ℕ) (d : DaemonMembers) (g : Group) (s : Groups) {t : Groups}
      → get_daemon d.proc_id g.daemons_list ≡ some d
      → has_member whole d.members_list ≡ true
      → Tallied g
      → All Tallied s.groups_list
      → leave_group caused whole d g s ≡ ok t
      → All Tallied t.groups_list
  unfolding leave_group remove_group
  leave_group-Tallied caused d g s found here tg a h =
      let less = extract_member whole d g in
      let next : Group = record less { index = less.index + 1 } in
      let s1 = extract_member-Summed d g found here tg in
      elim (if-cases (less.num_members == 0) h) [
        | inl (_, last_one) ↦
            let (gs, run, done) = >>=-eq-ok (remove_group less s.groups_list) _ last_one in
            subst (λ (z : Groups). All Tallied z.groups_list) (ok-inj done)
              (remove_group-Tallied less s.groups_list run a)
        | inr (some_left, more) ↦
            subst (λ (z : Groups). All Tallied z.groups_list) (ok-inj more)
              (set_group-All Tallied next s.groups_list
                (record {
                  some_member = ground (arith, some_left);
                  sum = s1.sum;
                  peopled = s1.peopled;
                })
                a)
      ]

  module _ (s : Groups) {t : Groups} (a : All Tallied s.groups_list) where
    unboxed-Tallied :
        (caused m id : ℕ) (d : DaemonMembers) (g h : Group) (z : Groups)
        → z.groups_list ≡ s.groups_list
        → get_daemon id g.daemons_list ≡ some d
        → has_member whole d.members_list ≡ true
        → Tallied g
        → remove_mailbox g m ≡ ok h
        → leave_group caused whole d h z ≡ ok t
        → All Tallied t.groups_list
    unboxed-Tallied caused m id d g h z same found here tg run left =
        let (th, daemons) = remove_mailbox-Tallied g m run tg in
        leave_group-Tallied caused d h z (own_daemon id d g h found daemons) here th
          (subst (All Tallied) (sym same) a) left

    pub leave_at-Tallied :
        (private_name group_name : List ℕ) (id : ℕ)
        → leave_at whole private_name group_name id s ≡ ok t
        → All Tallied t.groups_list
    unfolding leave_at leave_local
    leave_at-Tallied private_name group_name id h =
        elim (Option-cases (get_group group_name s.groups_list)) [
          | inl no_group ↦ unchanged (ok-inj (rw (leave_at, no_group) at h))
          | inr (g, of_name) ↦ elim (Option-cases (get_daemon id g.daemons_list)) [
            | inl no_daemon ↦ unchanged (ok-inj (rw (leave_at, of_name, no_daemon) at h))
            | inr (d, found) ↦
                let tg = get_group-All Tallied group_name s.groups_list g a of_name in
                elim (if-cases (has_member whole d.members_list)
                  (rw (leave_at, of_name, found) at h)) [
                    | inr (_, done) ↦ unchanged (ok-inj done)
                    | inl (here, h1) ↦ elim (if-split (id == s.my.id) h1) [
                      | inr remote ↦
                          leave_group-Tallied _ d g s (own_daemon id d g g found refl) here tg a
                            remote
                      | inl own ↦ elim (Option-cases (get_session private_name s.sessions)) [
                        | inl nobody ↦ absurd (exit-ne-ok (rw (leave_local, nobody) at own))
                        | inr (ses, there) ↦
                            let (g1, run, left) =
                              >>=-eq-ok (remove_mailbox g ses.mbox) _
                                (rw (leave_local, there) at own) in
                            unboxed-Tallied _ ses.mbox id d g g1 _ refl found here tg run left
                      ]
                    ]
                  ]
          ]
        ]
      where
        unchanged : s ≡ t → All Tallied t.groups_list
        unchanged e = subst (λ (z : Groups). All Tallied z.groups_list) e a

    pub kill_in-Tallied :
        (ses : Option Session) (id : ℕ) (g : Group)
        → Tallied g
        → kill_in whole ses id g s ≡ ok t
        → All Tallied t.groups_list
    unfolding kill_in kill_mailbox
    kill_in-Tallied ses id g tg h = elim (Option-cases (get_daemon id g.daemons_list)) [
      | inl no_daemon ↦
          subst (λ (z : Groups). All Tallied z.groups_list) (ok-inj (rw (kill_in, no_daemon) at h))
            a
      | inr (d, found) ↦
          elim (if-cases (has_member whole d.members_list) (rw (kill_in, found) at h)) [
            | inr (_, done) ↦ subst (λ (z : Groups). All Tallied z.groups_list) (ok-inj done) a
            | inl (here, h1) ↦
                let (g1, run, left) = >>=-eq-ok (kill_mailbox ses id g s) _ h1 in
                elim (if-split (id == s.my.id) run) [
                  | inr remote ↦
                      leave_group-Tallied _ d g1 s
                        (own_daemon id d g g1 found
                          (ap (λ (z : Group). z.daemons_list) (sym (ok-inj remote))))
                        here (subst Tallied (ok-inj remote) tg) a left
                  | inl own ↦ elim (Option-cases ses) [
                    | inl nobody ↦ absurd (exit-ne-ok (rw nobody at own))
                    | inr (x, there) ↦
                        unboxed-Tallied _ x.mbox id d g g1 s refl found here tg (rw there at own)
                          left
                  ]
                ]
          ]
    ]
