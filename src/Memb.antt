-- ===== src/Memb.antt =====
-- The part of daemon/membership.c that the protocol reads and calls: the state of the membership
-- algorithm, and the steps by which a new membership is committed and installed.
use in5020_assignment.Prelude.{
  ℕ, Bool, true, false, ◌==◌, ◌||◌, if◌then◌else◌, List, [], ◌∷◌, Faultable, ok, exit, ◌>>=◌, take,
}
use in5020_assignment.Wire.{MembershipId}
use in5020_assignment.Conf.{Proc, Segment, Configuration, leader, append_id_to_seg}

pub data MembState : Type 0 where
  op seg represented gather form evs : MembState

abbrev pub is_evs : MembState → Bool
is_evs evs = true
is_evs _ = false

abbrev pub is_op : MembState → Bool
is_op op = true
is_op _ = false

abbrev pub is_gather : MembState → Bool
is_gather gather = true
is_gather _ = false

-- `members_info`
pub record MembersInfo : Type 0 where
  pub members : List ℕ  -- the first `num_members`
  pub num_pending : ℕ

pub record Memb : Type 0 where
  pub state : MembState
  pub token_alive : Bool
  pub membership : Configuration
  pub membership_id : MembershipId
  pub future_membership : Configuration
  pub future_membership_id : MembershipId
  pub trans_memb_id : MembershipId
  pub f_trans_memb_time : ℕ
  pub commit_set : MembersInfo
  pub future_commit_set : MembersInfo
  pub transitional : Bool
  pub trans_membership : Configuration
  pub commit_membership : Configuration
  pub reg_membership : Configuration
  pub foreign_found : Bool

-- `Memb_active_ptr`
abbrev pub active : Memb → Configuration
active m = if is_evs m.state then m.future_membership else m.membership

-- `Memb_commit`
unfoldable pub commit : Memb → Memb
commit m = record m { commit_set = m.future_commit_set }

unfoldable pub contains_id : List ℕ → ℕ → Bool
contains_id [] id = false
contains_id (k ∷ ks) id = k == id || contains_id ks id

-- The loop over a segment's configured daemons: those of the set are appended.
unfoldable pub pick : List Proc → List ℕ → List Proc → Segment → Faultable Segment
pick procs chosen [] out = ok out
pick procs chosen (p ∷ ps) out =
    let added = append_id_to_seg procs out p.id in
    let grown = if added.1 then pick procs chosen ps added.0 else exit in
    let skipped = pick procs chosen ps out in if contains_id chosen p.id then grown else skipped

-- The segment with `num_procs = 0`; what else it holds stays.
abbrev pub emptied : List Segment → Segment → Segment
emptied [] c = record c { procs = [] }
emptied (o ∷ os) c = record o { procs = [] }

abbrev pub next_of : List Segment → List Segment
next_of [] = []
next_of (o ∷ os) = os

-- The loop over the segments of the configuration, which rebuilds the segments `old`.
unfoldable pub pick_all :
    List Proc → List ℕ → List Segment → List Segment → Faultable (List Segment)
pick_all procs chosen [] old = ok []
pick_all procs chosen (c ∷ cs) old =
    let others = pick_all procs chosen cs (next_of old) in
    pick procs chosen c.procs (emptied old c) >>= λ first. others >>= λ later. ok (first ∷ later)

-- `Memb_transitional`: the transitional membership is the pending part of the commit set, and the
-- committed membership all of it, in the order of the configuration `cn`.
unfoldable pub transitional : List Proc → Configuration → Memb → Faultable Memb
transitional procs cn m = do
  trans ←
      pick_all procs (take m.commit_set.num_pending m.commit_set.members) cn.segments
        m.trans_membership.segments
  id ← leader (record m.trans_membership { segments = trans })
  committed ← pick_all procs m.commit_set.members cn.segments m.commit_membership.segments
  ok (record m {
    transitional = true;
    trans_membership = record m.trans_membership { segments = trans };
    trans_memb_id = record { proc_id = id; time = m.f_trans_memb_time };
    commit_membership = record m.commit_membership { segments = committed };
  })

-- `Memb_regular`, less its timer
unfoldable pub regular : Memb → Memb
regular m = record m {
  transitional = false;
  state = op;
  membership = m.future_membership;
  membership_id = m.future_membership_id;
  reg_membership = m.future_membership;
  foreign_found = false;
}
