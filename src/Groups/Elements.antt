-- ===== src/Groups/Elements.antt =====
-- What becomes of all the elements of the ordered lists of daemon/groups.c, and of their number.
use in5020_assignment.Prelude.{
  ℕ, ◌+◌, ◌≡◌, refl, sym, ap, subst, Bool-cases, true, ◌==◌, ==_iff, if-cases, if-split, none, some,
  some-inj, none-ne-some, inl, inr, List, [], ◌∷◌, length, All, arith,
}
use in5020_assignment.Conf.{Proc, same_name}
use in5020_assignment.Groups.{DaemonMembers, Group}
use in5020_assignment.Groups.Names.{name_before}
use in5020_assignment.Groups.Sets.{
  get_group, get_daemon, has_member, put_member, put_daemon, put_group, set_daemon, set_group,
  erase_member, erase_daemon, erase_group, daemon_before,
}

id_refl : (n : ℕ) → (n == n) ≡ true
id_refl n = (==_iff n n).1 refl

same_name_refl : (n : List ℕ) → same_name n n ≡ true
unfolding same_name
same_name_refl [] = refl
same_name_refl (x ∷ xs) = rw (id_refl x, same_name_refl xs) refl

module _ (P : Group → Type 0) where
  pub get_group-All :
      (name : List ℕ) (gs : List Group) (g : Group) → All P gs → get_group name gs ≡ some g → P g
  unfolding get_group
  get_group-All name [] g a h = absurd (none-ne-some h)
  get_group-All name (x ∷ xs) g (px, a) h = elim (if-split (same_name x.name name) h) [
    | inl here ↦ subst P (some-inj here) px
    | inr later ↦ get_group-All name xs g a later
  ]

  pub set_group-All : (g : Group) (gs : List Group) → P g → All P gs → All P (set_group g gs)
  unfolding set_group
  set_group-All g [] p a = tt
  set_group-All g (x ∷ xs) p (px, a) = elim (Bool-cases (same_name x.name g.name)) [
    | inl e ↦ rw (e) (p, a)
    | inr e ↦ rw (e) (px, set_group-All g xs p a)
  ]

  pub put_group-All : (g : Group) (gs : List Group) → P g → All P gs → All P (put_group g gs)
  unfolding put_group
  put_group-All g [] p a = (p, tt)
  put_group-All g (x ∷ xs) p (px, a) = elim (Bool-cases (name_before x.name g.name)) [
    | inl e ↦ rw (e) (px, put_group-All g xs p a)
    | inr e ↦ rw (e) (p, (px, a))
  ]

  pub erase_group-All : (name : List ℕ) (gs : List Group) → All P gs → All P (erase_group name gs)
  unfolding erase_group
  erase_group-All name [] a = tt
  erase_group-All name (x ∷ xs) (px, a) = elim (Bool-cases (same_name x.name name)) [
    | inl e ↦ rw (e) a
    | inr e ↦ rw (e) (px, erase_group-All name xs a)
  ]

-- A group that is put on the list and then changed is as if it was put there as it is then.
pub set_group-put_group :
    (new old : Group) (gs : List Group)
    → old.name ≡ new.name
    → get_group new.name gs ≡ none
    → set_group new (put_group old gs) ≡ put_group new gs
unfolding set_group put_group get_group
set_group-put_group new old [] e h = rw (e, same_name_refl new.name) refl
set_group-put_group new old (x ∷ xs) e h = elim (if-cases (same_name x.name new.name) h) [
  | inl (_, here) ↦ absurd (none-ne-some (sym here))
  | inr (differs, later) ↦
      let rest = set_group-put_group new old xs e later in
      elim (Bool-cases (name_before x.name new.name)) [
        | inl before ↦ rw (e, before, differs) (ap (λ (z : List Group). x ∷ z) rest)
        | inr after ↦ rw (e, after, same_name_refl new.name) refl
      ]
]

abbrev pub member_count : List DaemonMembers → ℕ
member_count [] = 0
member_count (d ∷ ds) = length d.members_list + member_count ds

pub length-put_member : (n : List ℕ) (ms : List (List ℕ)) → length (put_member n ms) ≡ length ms + 1
unfolding put_member
length-put_member n [] = refl
length-put_member n (m ∷ ms) = elim (Bool-cases (name_before m n)) [
  | inl e ↦ rw (e) omega (arith, length-put_member n ms)
  | inr e ↦ rw (e) omega arith
]

pub length-erase_member :
    (n : List ℕ) (ms : List (List ℕ))
    → has_member n ms ≡ true
    → length (erase_member n ms) + 1 ≡ length ms
unfolding erase_member has_member
length-erase_member n [] h = ground (arith, h)
length-erase_member n (m ∷ ms) h = elim (Bool-cases (same_name m n)) [
  | inl e ↦ rw (e) omega arith
  | inr e ↦ rw (e) omega (arith, length-erase_member n ms (rw (e) at h))
]

pub get_daemon-id :
    (id : ℕ) (ds : List DaemonMembers) (d : DaemonMembers)
    → get_daemon id ds ≡ some d
    → d.proc_id ≡ id
unfolding get_daemon
get_daemon-id id [] d h = absurd (none-ne-some h)
get_daemon-id id (x ∷ xs) d h = elim (if-cases (x.proc_id == id) h) [
  | inl (same, here) ↦
      subst (λ (z : DaemonMembers). z.proc_id ≡ id) (some-inj here) ((==_iff x.proc_id id).0 same)
  | inr (_, later) ↦ get_daemon-id id xs d later
]

module _ (P : DaemonMembers → Type 0) where
  pub set_daemon-All :
      (d : DaemonMembers) (ds : List DaemonMembers) → P d → All P ds → All P (set_daemon d ds)
  unfolding set_daemon
  set_daemon-All d [] p a = tt
  set_daemon-All d (x ∷ xs) p (px, a) = elim (Bool-cases (x.proc_id == d.proc_id)) [
    | inl e ↦ rw (e) (p, a)
    | inr e ↦ rw (e) (px, set_daemon-All d xs p a)
  ]

  pub put_daemon-All :
      (procs : List Proc) (d : DaemonMembers) (ds : List DaemonMembers)
      → P d
      → All P ds
      → All P (put_daemon procs d ds)
  unfolding put_daemon
  put_daemon-All procs d [] p a = (p, tt)
  put_daemon-All procs d (x ∷ xs) p (px, a) =
      elim (Bool-cases (daemon_before procs x.proc_id d.proc_id)) [
        | inl e ↦ rw (e) (px, put_daemon-All procs d xs p a)
        | inr e ↦ rw (e) (p, (px, a))
      ]

  pub erase_daemon-All : (id : ℕ) (ds : List DaemonMembers) → All P ds → All P (erase_daemon id ds)
  unfolding erase_daemon
  erase_daemon-All id [] a = tt
  erase_daemon-All id (x ∷ xs) (px, a) = elim (Bool-cases (x.proc_id == id)) [
    | inl e ↦ rw (e) a
    | inr e ↦ rw (e) (px, erase_daemon-All id xs a)
  ]

pub set_daemon-put_daemon :
    (procs : List Proc) (new old : DaemonMembers) (ds : List DaemonMembers)
    → old.proc_id ≡ new.proc_id
    → get_daemon new.proc_id ds ≡ none
    → set_daemon new (put_daemon procs old ds) ≡ put_daemon procs new ds
unfolding set_daemon put_daemon get_daemon
set_daemon-put_daemon procs new old [] e h = rw (e, id_refl new.proc_id) refl
set_daemon-put_daemon procs new old (x ∷ xs) e h = elim (if-cases (x.proc_id == new.proc_id) h) [
  | inl (_, here) ↦ absurd (none-ne-some (sym here))
  | inr (differs, later) ↦
      let rest = set_daemon-put_daemon procs new old xs e later in
      elim (Bool-cases (daemon_before procs x.proc_id new.proc_id)) [
        | inl before ↦ rw (e, before, differs) (ap (λ (z : List DaemonMembers). x ∷ z) rest)
        | inr after ↦ rw (e, after, id_refl new.proc_id) refl
      ]
]

pub erase_daemon-set_daemon :
    (d : DaemonMembers) (ds : List DaemonMembers)
    → erase_daemon d.proc_id (set_daemon d ds) ≡ erase_daemon d.proc_id ds
unfolding erase_daemon set_daemon
erase_daemon-set_daemon d [] = refl
erase_daemon-set_daemon d (x ∷ xs) = elim (Bool-cases (x.proc_id == d.proc_id)) [
  | inl e ↦ rw (e, id_refl d.proc_id) refl
  | inr e ↦ rw (e, e) (ap (λ (z : List DaemonMembers). x ∷ z) (erase_daemon-set_daemon d xs))
]

pub member_count-put_daemon :
    (procs : List Proc) (d : DaemonMembers) (ds : List DaemonMembers)
    → member_count (put_daemon procs d ds) ≡ length d.members_list + member_count ds
unfolding put_daemon
member_count-put_daemon procs d [] = refl
member_count-put_daemon procs d (x ∷ xs) =
    elim (Bool-cases (daemon_before procs x.proc_id d.proc_id)) [
      | inl e ↦ rw (e) omega (arith, member_count-put_daemon procs d xs)
      | inr e ↦ rw (e) refl
    ]

pub member_count-set_daemon :
    (d old : DaemonMembers) (ds : List DaemonMembers)
    → get_daemon d.proc_id ds ≡ some old
    → member_count (set_daemon d ds) + length old.members_list
      ≡ member_count ds + length d.members_list
unfolding set_daemon get_daemon
member_count-set_daemon d old [] h = absurd (none-ne-some h)
member_count-set_daemon d old (x ∷ xs) h = elim (if-cases (x.proc_id == d.proc_id) h) [
  | inl (e, here) ↦
      let same = ap (λ (z : DaemonMembers). length z.members_list) (some-inj here) in
      rw (e) omega (arith, same)
  | inr (e, later) ↦ rw (e) omega (arith, member_count-set_daemon d old xs later)
]

pub member_count-erase_daemon :
    (id : ℕ) (old : DaemonMembers) (ds : List DaemonMembers)
    → get_daemon id ds ≡ some old
    → member_count (erase_daemon id ds) + length old.members_list ≡ member_count ds
unfolding erase_daemon get_daemon
member_count-erase_daemon id old [] h = absurd (none-ne-some h)
member_count-erase_daemon id old (x ∷ xs) h = elim (if-cases (x.proc_id == id) h) [
  | inl (e, here) ↦
      let same = ap (λ (z : DaemonMembers). length z.members_list) (some-inj here) in
      rw (e) omega (arith, same)
  | inr (e, later) ↦ rw (e) omega (arith, member_count-erase_daemon id old xs later)
]
