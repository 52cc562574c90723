-- ===== src/Formation/Fill.antt =====
-- daemon/membership.c: `Fill_form1`, by which a daemon writes itself, its members and its old ring
-- into a form1 token that it is given.
pub mod Distinct
use in5020_assignment.Prelude.{
  ℕ, zero, suc, ◌+◌, ◌==◌, ◌&&◌, ◌||◌, not, ltb, if◌then◌else◌, Option, none, some, List, [], ◌∷◌,
  ◌++◌, snoc, length, get_elem?, take, Faultable, ok, exit, ◌>>=◌,
}
use in5020_assignment.Wire.{TokenHeader, MembershipId, memb_is_equal}
use in5020_assignment.Memb.{MembersInfo, contains_id, op, seg, represented, gather, form, evs}
use in5020_assignment.Proto.{Proto}
use in5020_assignment.Formation.{Rep, RepsInfo, seg_rep, ring_rep}
use in5020_assignment.Formation.State.{Formation, RingInfo, FormMembers, my, memb}
use in5020_assignment.Formation.Members.{insert_member, sort_members}
use in5020_assignment.Formation.Form.{
  max_form_reps, has_packet, holes_after, my_commit, rep_ids, all_ids, failure_potentials,
  form1_token, form2_token, ucast_twice, shift_to_form,
}

-- The members and the representatives of a form1 token.
pub record Roll : Type 0 where
  pub members : FormMembers
  pub reps : RepsInfo

-- The validity check in OP and REPRESENTED: the daemon is the next one that is pending.
unfoldable pub take_turn : ℕ → FormMembers → Option FormMembers
take_turn me m = elim m.pending [
  | next ∷ later ↦
      if next == me then some (record { members = snoc m.members next; pending = later }) else none
  | [] ↦ none
]

-- The loop over `F_members`: left out are the members of the token, and, but for `me`, its
-- representatives and one's own.
unfoldable pub still_mine : ℕ → List ℕ → List ℕ → List ℕ → List ℕ → List ℕ
still_mine me members reps own [] = []
still_mine me members reps own (k ∷ ks) =
    let rest = still_mine me members reps own ks in
    if contains_id members k || ((contains_id reps k || contains_id own k) && not (k == me))
    then rest
    else k ∷ rest

-- The daemons that a representative brings, of which the first one is itself: put after the members.
-- That there are none, where the code counts -1 pending members, is a fault here.
unfoldable pub bring : List ℕ → FormMembers → Faultable FormMembers
bring [] m = exit
bring (first ∷ later) m = ok (record { members = snoc m.members first; pending = later })

abbrev pub with_members : List ℕ → Formation → Formation
with_members ids s = record s { f_members = record s.f_members { members = ids } }

-- What stays of `F_members` in GATHER.
abbrev pub kept_mine : Roll → Formation → List ℕ
kept_mine roll s =
    still_mine (my s).id roll.members.members (rep_ids roll.reps.reps) (rep_ids s.f_reps.reps)
      s.f_members.members

-- The members that the daemon brings in GATHER, by the type of its own entry.
unfoldable pub brought : Rep → Roll → Formation → Faultable FormMembers
brought x roll s =
    let ring = bring (all_ids (memb s).membership.segments) roll.members in
    if x.type == seg_rep
    then bring (kept_mine roll s) roll.members
    else if x.type == ring_rep
    then ring
    else exit

-- The update of members and representatives in GATHER.
unfoldable pub bring_mine : Rep → Roll → Formation → Faultable (Roll × Formation)
bring_mine x roll s =
    let next = record roll.reps { rep_index = roll.reps.rep_index + 1 } in
    let s1 = with_members (kept_mine roll s) s in
    brought x roll s >>= λ m. ok (record { members = m; reps = next }, s1)

-- The update of members and representatives, by the state. `none` is the return of a token that is
-- not for this daemon. A `rep_index` past the last representative names no daemon.
unfoldable pub enter : Roll → Formation → Faultable (Option (Roll × Formation))
enter roll s = elim (memb s).state [
  | op ↦ ok (turn (take_turn (my s).id roll.members))
  | represented ↦ ok (turn (take_turn (my s).id roll.members))
  | gather ↦ elim roll.members.pending [
    | [] ↦ elim (get_elem? roll.reps.reps roll.reps.rep_index) [
      | some x ↦
          if x.proc_id == (my s).id then (bring_mine x roll s >>= λ out. ok (some out)) else ok none
      | none ↦ ok none
    ]
    | next ∷ later ↦ ok none
  ]
  | seg ↦ exit
  | form ↦ exit
  | evs ↦ exit
]
  where
    turn : Option FormMembers → Option (Roll × Formation)
    turn (some m) = some (record roll { members = m }, s)
    turn none = none

-- The loop over the rings of the token: those of other memberships, and the last one of `id`.
unfoldable pub other_rings : MembershipId → List RingInfo → List RingInfo
other_rings id [] = []
other_rings id (g ∷ gs) =
    let rest = other_rings id gs in if memb_is_equal g.memb_id id then rest else g ∷ rest

unfoldable pub ring_of : MembershipId → List RingInfo → Option RingInfo
ring_of id [] = none
ring_of id (g ∷ gs) = elim (ring_of id gs) [
  | some h ↦ some h
  | none ↦ if memb_is_equal g.memb_id id then some g else none
]

-- The holes of the token's ring that are holes here too.
unfoldable pub still_holes : Proto → List ℕ → List ℕ
still_holes p [] = []
still_holes p (i ∷ is) = let rest = still_holes p is in if has_packet p i then rest else i ∷ rest

unfoldable pub insert_members : List ℕ → MembersInfo → MembersInfo
insert_members [] m = m
insert_members (k ∷ ks) m = insert_members ks (insert_member m k).0

abbrev pub skip : ℕ → List ℕ → List ℕ
skip zero xs = xs
skip (suc n) [] = []
skip (suc n) (x ∷ xs) = skip n xs

abbrev pub larger : ℕ → ℕ → ℕ
larger a b = if ltb b a then a else b

-- The ring's entry brought up to date: what every daemon of it that the token met is missing, and
-- who takes part in the transition and in the commit.
unfoldable pub update_ring : RingInfo → Formation → Faultable RingInfo
update_ring g s =
    let p = s.proto in
    let empty : MembersInfo = record { members = []; num_pending = 0 } in
    let trans = (insert_member (insert_members (take g.num_trans g.commit) empty) (my s).id).0 in
    let rest = insert_members (skip g.num_trans g.commit) trans in
    let all = insert_members (memb s).commit_set.members rest in
    let late = if ltb g.highest_seq p.highest_seq then holes_after p g.highest_seq else [] in
    if length trans.members == g.num_trans + 1
    then ok (record {
      memb_id = (memb s).membership_id;
      trans_time = 0;
      aru = larger g.aru p.aru;
      highest_seq = larger g.highest_seq p.highest_seq;
      holes = still_holes p g.holes ++ late;
      commit = all.members;
      num_trans = g.num_trans + 1;
    })
    else exit

-- The entry of a ring that the token does not have.
abbrev pub first_entry : Formation → RingInfo
first_entry s = record {
  memb_id = (memb s).membership_id;
  trans_time = 0;
  aru = s.proto.aru;
  highest_seq = s.proto.highest_seq;
  holes = holes_after s.proto s.proto.last_discarded;
  commit = my_commit s;
  num_trans = 1;
}

-- The first `me` of the list taken out.
unfoldable pub leave : ℕ → List ℕ → List ℕ
leave me [] = []
leave me (k ∷ ks) = if k == me then ks else k ∷ leave me ks

-- The rings of the new token. With MAX_FORM_REPS others there is no room for one more, and the daemon
-- takes itself, which `enter` put there, out of the members.
unfoldable pub enter_ring :
    Roll → List RingInfo → Formation → Faultable (FormMembers × List RingInfo)
enter_ring roll gs s =
    let id = (memb s).membership_id in
    let others = other_rings id gs in
    let m = roll.members in
    elim (ring_of id gs) [
      | some g ↦ update_ring g s >>= λ h. ok (m, snoc others h)
      | none ↦
          if ltb max_form_reps (length others + 1)
          then ok (record m { members = leave (my s).id m.members }, others)
          else ok (m, snoc others (first_entry s))
    ]

-- To whom `Fill_form1` sends: the next pending member, the next representative, or, when the token
-- has been everywhere, as a form2 token to the first of the sorted members.
unfoldable pub pass_form : TokenHeader → Roll → List RingInfo → Formation → Faultable Formation
pass_form head roll gs s = elim roll.members.pending [
  | next ∷ later ↦ ok (ucast_twice next (form1_token head roll.members roll.reps gs) s)
  | [] ↦ elim (get_elem? roll.reps.reps roll.reps.rep_index) [
    | some x ↦ ok (ucast_twice x.proc_id (form1_token head roll.members roll.reps gs) s)
    | none ↦
        sort_members s.proto.procs (record { members = roll.members.members; num_pending = 0 })
        >>= λ sorted. to_first sorted.members
  ]
]
  where
    to_first : List ℕ → Faultable Formation
    to_first [] = exit
    to_first (first ∷ later) =
        let m : FormMembers = record { members = []; pending = first ∷ later } in
        ok (ucast_twice first (form2_token head m roll.reps gs) s)

-- the timers that `Fill_form1` takes out besides
abbrev pub stop_gathering : Formation → Formation
stop_gathering s = record s {
  timers = record s.timers { form_or_fail = none; shift_to_seg = none };
}

-- The rest of `Fill_form1` once the token is for this daemon.
unfoldable pub fill_on : TokenHeader → Roll → List RingInfo → Formation → Faultable Formation
fill_on head roll gs s = do
  s1 ← failure_potentials roll.reps.reps s
  entered ← enter_ring roll gs s1
  s2 ← pass_form head (record roll { members = entered.0 }) entered.1 s1
  ok (shift_to_form (stop_gathering s2))

-- `Fill_form1`, of a token in this machine's byte order
unfoldable pub fill_form1 :
    TokenHeader → FormMembers → RepsInfo → List RingInfo → Formation → Faultable Formation
fill_form1 head m r gs s =
    let head1 = record head {
      proc_id = (my s).id;
      seq = larger (s.proto.highest_seq + 3333) head.seq;
    } in
    enter (record { members = m; reps = r }) s >>= λ entered. elim entered [
      | some (roll, s1) ↦ fill_on head1 roll gs s1
      | none ↦ ok s
    ]
