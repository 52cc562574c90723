-- ===== src/Examples/Formations.antt =====
-- Daemon 1 of three, in two segments, loses its token and gathers the others.
use native.Mathlib.Nat.{ℕ_set}
use mathlib.Core.Logic.Or
use mathlib.Core.List.{Mem, mem-cons, not-mem-nil}
use mathlib.Core.List.Perm
use in5020_assignment.Prelude.{
  ℕ, ◌≡◌, refl, subst, subst₂, sym, ◌∙◌, ap, some-inj, negsuc, true, false, none, some, List, [],
  ◌∷◌, Faultable, ok, exit, arith, Bool,
}
use in5020_assignment.Conf.{
  Proc, Configuration, proc_by_id, find_proc, has_ip, append_id_to_seg, seg_leader, id_in_seg,
  find_in_seg,
}
use in5020_assignment.Memb.{MembersInfo, gather, contains_id}
use in5020_assignment.Net.{Net}
use in5020_assignment.Net.Route.{Route, set_membership}
use in5020_assignment.Net.Route.Ring.{ring, next_in, place_in}
use in5020_assignment.Net.Route.Next.{set_membership-next}
use in5020_assignment.Formation.{Rep, RepsInfo}
use in5020_assignment.Formation.State.{Formation, Timers, put_in_seg, alone, memb}
use in5020_assignment.Formation.Cells.{take_out}
use in5020_assignment.Formation.Members.{smallest_member, smallest_from, sort_members, sort_loop}
use in5020_assignment.Formation.Members.Order.{Known, place_of}
use in5020_assignment.Formation.Members.Sorting.{sort_members-agree, Placed}
use in5020_assignment.Formation.Moves.{
  gather_or_represented, shift_to_gather, shift_to_seg, token_loss, before_loss, after_loss,
  on_loss, new_potentials, insert_reps, insert_firsts, type_left, first_in_seg,
}
use in5020_assignment.Formation.Reps.{insert_rep, conclude, scan_potential, scan_seg, add_rep}
use in5020_assignment.Formation.Reps.Insert.{insert_rep-WellFormed, WellFormed, Genuine}
use in5020_assignment.Formation.Steps.{
  fire, call, represent_due, timeouts_of, memb_init, first_state, is_wide, subnet, start, next, due,
}
use in5020_assignment.Formation.Sound.{Sound}
use in5020_assignment.Formation.Sound.Runs.{Reached-Sound}
use in5020_assignment.Formation.Fill.{Roll, enter, bring_mine, brought, bring, still_mine}
use in5020_assignment.Formation.Fill.Distinct.{Apart, enter-Apart}
use in5020_assignment.Formation.Loss.{token_loss_outcome, Firsts, Lost, losable}
use in5020_assignment.Examples
use in5020_assignment.Examples.{daemon, segment_of_two, nobody, network, last_token}

abbrev daemon3 : Proc
daemon3 = record (daemon 3) { seg_index = 1; index_in_seg = 0 }

abbrev all_procs : List Proc
all_procs = daemon 1 ∷ daemon 2 ∷ daemon3 ∷ []

abbrev two_segments : Configuration
two_segments = record {
  hash_code = 7;
  segments =
      segment_of_two ∷ record { bcast_address = 254; port = 4900; procs = daemon3 ∷ [] } ∷ [];
}

abbrev no_reps : RepsInfo
no_reps = record { reps = []; rep_index = 0 }

abbrev no_timers : Timers
no_timers = record {
  scast_alive = none;
  gather_or_represented = none;
  shift_to_seg = none;
  send_join = none;
  form_or_fail = none;
  token_loss = none;
  token_hurry = none;
  lookup_new_members = none;
}

abbrev fresh : Formation
fresh = record {
  proto = record Examples.start { procs = all_procs; cn = two_segments };
  my_seg_rep = none;
  f_members = nobody;
  f_reps = no_reps;
  potential_reps = no_reps;
  timeouts = timeouts_of false false;
  timers = no_timers;
  last_time_used = negsuc 0;
  route = record { segment_leader = true; token_to = (2, 4804) };
  sent = [];
}

abbrev outcome : Faultable Formation → Formation
outcome (ok t) = t
outcome exit = fresh

abbrev begun : Formation
unfolding memb_init first_state is_wide subnet put_in_seg append_id_to_seg proc_by_id find_proc
    has_ip token_loss before_loss on_loss new_potentials insert_reps insert_firsts type_left
    first_in_seg insert_rep conclude scan_potential add_rep after_loss shift_to_seg alone seg_leader
begun = outcome (memb_init fresh)

begun_run : memb_init fresh ≡ ok begun
unfolding begun memb_init first_state is_wide subnet put_in_seg append_id_to_seg proc_by_id
    find_proc has_ip token_loss before_loss on_loss new_potentials insert_reps insert_firsts
    type_left first_in_seg insert_rep conclude scan_potential add_rep after_loss shift_to_seg alone
    seg_leader
begun_run = refl

abbrev gathered : Formation
unfolding begun fire call gather_or_represented shift_to_gather smallest_member smallest_from
    proc_by_id find_proc has_ip memb_init first_state is_wide subnet put_in_seg append_id_to_seg
    token_loss before_loss on_loss new_potentials insert_reps insert_firsts type_left first_in_seg
    insert_rep conclude scan_potential add_rep after_loss shift_to_seg alone seg_leader
gathered = outcome (fire represent_due last_token begun)

gathered_run : fire represent_due last_token begun ≡ ok gathered
unfolding begun gathered fire call gather_or_represented shift_to_gather smallest_member
    smallest_from proc_by_id find_proc has_ip memb_init first_state is_wide subnet put_in_seg
    append_id_to_seg token_loss before_loss on_loss new_potentials insert_reps insert_firsts
    type_left first_in_seg insert_rep conclude scan_potential add_rep after_loss shift_to_seg alone
    seg_leader
gathered_run = refl

begun_queue : begun.timers.gather_or_represented ≡ some (timeouts_of false false).seg
unfolding begun memb_init first_state is_wide subnet put_in_seg append_id_to_seg proc_by_id
    find_proc has_ip token_loss before_loss on_loss new_potentials insert_reps insert_firsts
    type_left first_in_seg insert_rep conclude scan_potential add_rep after_loss shift_to_seg alone
    seg_leader
begun_queue = refl

Reached-Sound_example : Sound gathered
unfolding begun memb_init first_state is_wide subnet put_in_seg append_id_to_seg proc_by_id
    find_proc has_ip token_loss before_loss on_loss new_potentials insert_reps insert_firsts
    type_left first_in_seg insert_rep conclude scan_potential add_rep after_loss shift_to_seg alone
    seg_leader
Reached-Sound_example =
    Reached-Sound {s = fresh} {t = gathered}
      (next (start refl begun_run) (due represent_due last_token refl gathered_run))

-- In the ring 1, 2, 3 daemon 2 passes the token to daemon 3 in the other segment.
set_membership-next_example :
    (out : Net × Route) × (set_membership (daemon 2) two_segments network ≡ ok out)
    × (next_in (ring two_segments.segments) (place_in two_segments.segments 0 1)
        ≡ some out.1.token_to)
    × (out.0.membership ≡ two_segments)
unfolding id_in_seg find_in_seg has_ip
set_membership-next_example =
    set_membership-next (daemon 2) two_segments network segment_of_two 1 refl refl

token_of_2 :
    next_in (ring two_segments.segments) (place_in two_segments.segments 0 1) ≡ some (3, 4901)
unfolding next_in place_in
token_of_2 = refl

abbrev some_members : MembersInfo
some_members = record { members = 3 ∷ 1 ∷ []; num_pending = 0 }

abbrev same_members : MembersInfo
same_members = record { members = 1 ∷ 3 ∷ []; num_pending = 0 }

sorted_run : sort_members all_procs some_members ≡ ok same_members
unfolding sort_members sort_loop smallest_member smallest_from take_out proc_by_id find_proc has_ip
sorted_run = refl

members-Known : Known all_procs 3 × Known all_procs 1
unfolding proc_by_id find_proc has_ip
members-Known = (λ e. cc, λ e. cc)

abbrev candidate : Rep
candidate = record { proc_id = 3; type = 1; seg_index = 1 }

abbrev expected : RepsInfo
expected = record { reps = record { proc_id = 3; type = 0; seg_index = 1 } ∷ []; rep_index = 0 }

-- A segment's representative takes the place of a potential one.
inserted_run :
    insert_rep all_procs expected candidate ≡ ok (record expected { reps = candidate ∷ [] }, true)
unfolding insert_rep conclude scan_seg proc_by_id find_proc has_ip
inserted_run = refl

candidate-Genuine : Genuine all_procs candidate
unfolding proc_by_id find_proc has_ip
candidate-Genuine k p e =
    subst (λ (z : ℕ × Proc). (z.1.id ≡ 3) × (z.1.seg_index ≡ 1)) (some-inj e) (refl, refl)

insert_rep-WellFormed_example :
    (t : RepsInfo) × (b : Bool) × (insert_rep all_procs expected candidate ≡ ok (t, b))
    × WellFormed t
insert_rep-WellFormed_example =
    insert_rep-WellFormed all_procs expected candidate
      (record { types = (omega arith, tt); separate = (tt, tt); room = omega arith })
      members-Known.0 candidate-Genuine (omega arith)

only_one : (b : ℕ) → Mem b (1 ∷ []) → b ≡ 1
only_one b m = Or.elim (ℕ_set b 1) (mem-cons.0 m) (λ e. e) (λ n. absurd (not-mem-nil n))

different_places : place_of all_procs 3 ≡ place_of all_procs 1 → ⊥
unfolding place_of proc_by_id find_proc has_ip
different_places e = let z = ap (λ (q : ℕ × ℕ). q.0) e in absurd (omega (arith, z))

members-Placed : Placed all_procs (3 ∷ 1 ∷ [])
members-Placed a b ma mb e =
    Or.elim (ℕ_set a b) (mem-cons.0 ma)
      (λ a3.
        Or.elim (ℕ_set a b) (mem-cons.0 mb) (λ b3. a3 ∙ sym b3)
          (λ m. absurd (
            different_places
              (subst₂ (λ x y. place_of all_procs x ≡ place_of all_procs y) a3 (only_one b m) e))))
      (λ n.
        Or.elim (ℕ_set a b) (mem-cons.0 mb)
          (λ b3. absurd (
            different_places (
              subst₂ (λ x y. place_of all_procs x ≡ place_of all_procs y) b3 (only_one a n)
                (sym e))))
          (λ m. only_one a n ∙ sym (only_one b m)))

sort_members-agree_example :
    (r : MembersInfo) × (q : MembersInfo) × (sort_members all_procs some_members ≡ ok r)
    × (sort_members all_procs same_members ≡ ok q)
    × (r.members ≡ q.members)
sort_members-agree_example =
    sort_members-agree all_procs some_members same_members (members-Known.0, (members-Known.1, tt))
      members-Placed (Perm.swap 1 3 [])

first_of_1 : first_in_seg two_segments Examples.ring 1 ≡ ok 3
unfolding first_in_seg seg_leader
first_of_1 = refl

segments-Firsts : Firsts all_procs two_segments Examples.ring 0 2 0
unfolding Firsts
segments-Firsts j a b c =
    let one : j ≡ 1 = omega (arith, λ (z : j ≡ 0). c z) in
    (
      3,
      subst (λ z. first_in_seg two_segments Examples.ring z ≡ ok 3) (sym one) first_of_1,
      members-Known.0,
    )

token_loss_outcome_example :
    (losable (memb fresh).state (memb fresh).token_alive ≡ true
      → (t : Formation) × (token_loss fresh ≡ ok t) × Lost fresh t)
    × (losable (memb fresh).state (memb fresh).token_alive ≡ false → token_loss fresh ≡ exit)
token_loss_outcome_example =
    token_loss_outcome fresh
      (record { gathered = tt; here = segments-Firsts; ahead = segments-Firsts })

-- Daemon 1 enters the token of daemon 3 with daemon 2, the other member of its segment.
abbrev gathering : Formation
gathering = record fresh {
  proto = record fresh.proto { memb = record fresh.proto.memb { state = gather } };
  f_members = record nobody { members = 3 ∷ 1 ∷ 2 ∷ [] };
}

abbrev from_3 : Roll
from_3 = record {
  members = record { members = 3 ∷ []; pending = [] };
  reps = record {
    reps = candidate ∷ record candidate { proc_id = 1; seg_index = 0 } ∷ [];
    rep_index = 1;
  };
}

abbrev entered_1 : Roll × Formation
entered_1 = (
  record {
    members = record { members = 3 ∷ 1 ∷ []; pending = 2 ∷ [] };
    reps = record from_3.reps { rep_index = 2 };
  },
  record gathering { f_members = record gathering.f_members { members = 1 ∷ 2 ∷ [] } },
)

entered_run : enter from_3 gathering ≡ ok (some entered_1)
unfolding enter bring_mine brought bring still_mine contains_id
entered_run = refl

enter-Apart_example : Apart entered_1
unfolding contains_id
enter-Apart_example =
    enter-Apart from_3 gathering {out = entered_1} ((refl, tt), (refl, (refl, (refl, tt))))
      (λ x found r. absurd (omega (arith, r, ap (λ (z : Rep). z.type) (some-inj found))))
      entered_run
