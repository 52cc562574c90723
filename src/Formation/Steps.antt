-- ===== src/Formation/Steps.antt =====
-- daemon/membership.c as a system of steps: from `Memb_init` on, a daemon takes membership packets
-- and form tokens, its timed calls fall due in any order, and the protocol goes on in between.
use in5020_assignment.Prelude.{
  ℕ, pos, negsuc, ◌-◌, ◌*◌, ◌/◌, ◌^◌, ◌≡◌, Bool, true, false, ◌==◌, if◌then◌else◌, Option, none,
  some, ◌⊎◌, List, [], ◌∷◌, length, Faultable, ok, exit, ◌>>=◌,
}
use in5020_assignment.Events.Clock.{SpTime}
use in5020_assignment.Wire.{TokenHeader}
use in5020_assignment.Conf.{Segment, leader}
use in5020_assignment.Memb.{op, evs, regular}
use in5020_assignment.Net.{Packet}
use in5020_assignment.Proto.{Proto}
use in5020_assignment.Formation.{Rep, RepsInfo}
use in5020_assignment.Formation.State.{
  Formation, FormToken, Timers, Timeouts, my, memb, with_memb, emptied_all, put_in_seg,
}
use in5020_assignment.Formation.Moves.{
  shift_to_seg, gather_or_represented, scast_alive, send_join, lookup_new_members, token_loss,
}
use in5020_assignment.Formation.Create.{form_or_fail}
use in5020_assignment.Formation.Handlers.{handle_message, handle_token}
use in5020_assignment.Formation.Sound.{On}

-- the timed calls
pub data Call : Type 0 where
  alive_due represent_due seg_due join_due form_due loss_due lookup_due : Call

abbrev pub queued : Call → Timers → Option SpTime
queued alive_due t = t.scast_alive
queued represent_due t = t.gather_or_represented
queued seg_due t = t.shift_to_seg
queued join_due t = t.send_join
queued form_due t = t.form_or_fail
queued loss_due t = t.token_loss
queued lookup_due t = t.lookup_new_members

-- A call that falls due is taken out of the queue first.
abbrev pub unqueue : Call → Timers → Timers
unqueue alive_due t = record t { scast_alive = none }
unqueue represent_due t = record t { gather_or_represented = none }
unqueue seg_due t = record t { shift_to_seg = none }
unqueue join_due t = record t { send_join = none }
unqueue form_due t = record t { form_or_fail = none }
unqueue loss_due t = record t { token_loss = none }
unqueue lookup_due t = record t { lookup_new_members = none }

-- `blank` is what the header of a new token holds before it is set.
unfoldable pub call : Call → TokenHeader → Formation → Faultable Formation
call alive_due blank s = ok (scast_alive 0 s)
call represent_due blank s = gather_or_represented s
call seg_due blank s = ok (shift_to_seg s)
call join_due blank s = ok (send_join s)
call form_due blank s = form_or_fail blank s
call loss_due blank s = token_loss s
call lookup_due blank s = ok (lookup_new_members s)

unfoldable pub fire : Call → TokenHeader → Formation → Faultable Formation
fire c blank s = call c blank (record s { timers = unqueue c s.timers })

-- `Memb_regular`
unfoldable pub memb_regular : Formation → Faultable Formation
memb_regular s =
    let s1 = with_memb (regular (memb s)) s in
    let looking = record s1 {
      timers = record s1.timers { lookup_new_members = some s.timeouts.lookup };
    } in
    leader (memb s1).membership >>= λ l. ok (if l == (my s).id then looking else s1)

-- The first daemon's network, of a segment: `id & 0xffff0000`. A segment of the configuration that has
-- no daemon is a fault here.
unfoldable pub subnet : Segment → Faultable ℕ
subnet c = elim c.procs [ p ∷ ps ↦ ok (p.id / 2 ^ 16 * 2 ^ 16) | [] ↦ exit ]

-- The loop over the segments after the first: whether one is of another network.
unfoldable pub is_wide : ℕ → List Segment → Faultable Bool
is_wide reference [] = ok false
is_wide reference (c ∷ cs) =
    let rest = is_wide reference cs in
    subnet c >>= λ current. if current == reference then rest else ok true

abbrev pub seconds : ℕ → SpTime
seconds n = record { sec = pos n; usec = pos 0 }

abbrev pub timeouts_of : Bool → Bool → Timeouts
timeouts_of wide single = record {
  alive = seconds 1;
  join = seconds 1;
  rep = if wide then seconds 5 else record { sec = pos 2; usec = pos 500000 };
  seg = seconds 2;
  gather = if wide then seconds 10 else seconds 5;
  form = if wide then seconds 10 else seconds 5;
  lookup = if single then seconds 300 else if wide then seconds 90 else seconds 60;
}

-- The variables that `Memb_init` sets.
unfoldable pub first_state : Bool → Formation → Formation
first_state wide s =
    let cn = s.proto.cn in
    let single = length cn.segments == 1 in
    let m = memb s in
    let membership = record cn {
      segments = put_in_seg s.proto.procs (my s).seg_index (my s).id (emptied_all cn.segments);
    } in
    record s {
      proto = record s.proto {
        wide_network = wide;
        token_timeout = if wide then seconds 20 else seconds 5;
        hurry_timeout = if wide then seconds 6 else seconds 2;
        memb = record m {
          state = op;
          membership = membership;
          membership_id = record { proc_id = (my s).id; time = 2 ^ 32 - 1 };
          transitional = false;
          reg_membership = membership;
        };
      };
      timeouts = timeouts_of wide single;
      last_time_used = negsuc 0;
    }

-- `Memb_init`
unfoldable pub memb_init : Formation → Faultable Formation
memb_init s = elim s.proto.cn.segments [
  | c ∷ cs ↦ do reference ← subnet c; wide ← is_wide reference cs; token_loss (first_state wide s)
  | [] ↦ exit
]

-- What the protocol may do between while no configuration is reloaded: everything but a change of the
-- state or of the life of the token. It queues the loss of the token anew only while the token lives.
-- `Prot_handle_conf_reload`, which queues it in any state, is left out.
pub record Between (s : Formation) (p : Proto) (loss : Option SpTime) : Type 0 where
  pub state : p.memb.state ≡ (memb s).state
  pub live : p.memb.token_alive ≡ (memb s).token_alive
  pub renewed : (loss ≡ s.timers.token_loss) ⊎ (((memb s).token_alive ≡ true) × On loss)

pub data Step : Formation → Formation → Type 0 where
  message :
      {s t : Formation} (p : Packet) (first : Rep) (reps : RepsInfo)
      → handle_message p first reps s ≡ ok t
      → Step s t
  form_token :
      {s t : Formation} (now : SpTime) (tok : FormToken) → handle_token now tok s ≡ ok t → Step s t
  due :
      {s t : Formation} (c : Call) (blank : TokenHeader)
      → On (queued c s.timers)
      → fire c blank s ≡ ok t
      → Step s t
  protocol :
      {s : Formation} (p : Proto) (loss hurry lookup : Option SpTime)
      → Between s p loss
      → Step s (record s {
        proto = p;
        timers = record s.timers {
          token_loss = loss;
          token_hurry = hurry;
          lookup_new_members = lookup;
        };
      })
  installed : {s t : Formation} → (memb s).state ≡ evs → memb_regular s ≡ ok t → Step s t
  -- the protocol gives a membership up after too many rounds
  given_up : {s t : Formation} → (memb s).state ≡ evs → token_loss s ≡ ok t → Step s t

-- What a daemon may come to from `Memb_init`, before which no fall back to SEG is queued.
pub data Reached (s : Formation) : Formation → Type 0 where
  start : {t : Formation} → s.timers.shift_to_seg ≡ none → memb_init s ≡ ok t → Reached s t
  next : {t u : Formation} → Reached s t → Step t u → Reached s u
