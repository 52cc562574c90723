-- ===== src/Examples/Tokens.antt =====
-- Visits of the token on concrete states.
use in5020_assignment.Prelude.{
  ◌≡◌, ◌≢◌, ◌⊎◌, ◌≤◌, refl, pos, ◌≤ℤ◌, ◌+ℤ◌, true, false, List, [], ◌∷◌, none, some, Faultable, ok,
  exit, arith, All, snoc,
}
use in5020_assignment.Wire.{RingRtr, TokenHeader, set_arq, set_retrans}
use in5020_assignment.Proto.{Proto}
use in5020_assignment.Proto.Flow.{fc_allowed, fc_allowed_bounds}
use in5020_assignment.Proto.Deliver.Window.{Steady}
use in5020_assignment.Proto.Retrans.{
  Answer, answer_retrans, rtr_bytes, answer_blocks, answer_seqs, retransmit, sent_packet,
}
use in5020_assignment.Wire.{memb_is_equal}
use in5020_assignment.Net.{ucast, dl_send, flush_bcast}
use in5020_assignment.Conf.{proc_by_id, find_proc, has_ip}
use in5020_assignment.Proto.Token.{
  screen, stamp, accept, next_flow, next_token, pass_token, add_requests, token_body_size,
}
use in5020_assignment.Proto.Token.Arq.{screen-accepts_once, screen-accepts_round}
use in5020_assignment.Proto.Token.Flow.{next_flow-share}
use in5020_assignment.Proto.Token.Aru.{pass_token-aru}
use in5020_assignment.Proto.Token.Requests.{add_requests-fit, add_requests-Wanted, Wanted}
use in5020_assignment.Proto.Token.Answers.{answer_retrans-kept, AllResent, foreign}
use in5020_assignment.Examples.{daemon, start, holding, last_token, ring_id}

-- A pass after the last.
next_screened : screen false (set_arq 0 3) (set_arq 0 2) ≡ accept
unfolding screen
next_screened = refl

screen-accepts_once_example : screen false (set_arq 0 3) (stamp false (set_arq 0 3)) ≢ accept
screen-accepts_once_example = screen-accepts_once false (set_arq 0 3) (set_arq 0 2) next_screened

screen-accepts_round_example :
    (screen false (stamp true (set_arq 0 15)) (set_arq 5 15) ≡ accept)
    × (screen true (stamp true (set_arq 0 15)) (stamp true (set_arq 0 15)) ≡ accept)
screen-accepts_round_example = screen-accepts_round (set_arq 0 15) (set_arq 5 15) refl

-- Daemon 2 gets a token of the pass it saw last, sent for the second time.
abbrev second_daemon : Proto
second_daemon = record start { my = daemon 2 }

abbrev asking : TokenHeader
asking = record last_token { type = set_retrans last_token.type 2 }

fc_allowed_bounds_example :
    (pos 0 ≤ℤ fc_allowed (pos 20) start)
    × (fc_allowed (pos 20) start ≤ℤ pos 60)
    × (fc_allowed (pos 20) start ≤ℤ pos 15)
    × ((fc_allowed (pos 20) start ≡ pos 0)
        ⊎ (fc_allowed (pos 20) start +ℤ pos 20 ≤ℤ pos 60 +ℤ pos 15))
fc_allowed_bounds_example = fc_allowed_bounds (pos 20) start (omega arith) (omega arith)

next_flow-share_example :
    next_flow (pos 12) (record start { last_num_retrans = 1; last_num_sent = 4 }) 2 3 ≡ pos 12
next_flow-share_example =
    next_flow-share 7 (record start { last_num_retrans = 1; last_num_sent = 4 }) 2 3 (omega arith)

-- The leader's visit with packets 1 and 2.
pass_token-aru_example :
    let t' = (next_token true 0 (pos 0) last_token (holding 1)).0 in
    let u = pass_token true t' (pos 2) [] (holding 1) in
    (u.last_token.aru ≤ u.my_aru)
    × (u.aru ≤ u.my_aru)
    × (u.aru ≤ 0)
    × (u.my_aru ≡ 2)
    × (u.highest_seq ≡ 2)
pass_token-aru_example = pass_token-aru true 0 (pos 0) (pos 2) last_token [] (holding 1)

-- Packet 3 was sent, and packets 1 to 3 are missing here.
abbrev behind : Proto
behind = record start { highest_seq = 3 }

abbrev nothing_kept : Answer
nothing_kept = record { kept = []; num_retrans = 0; proc_id = none; seg_index = some 0 }

add_requests-fit_example : rtr_bytes (add_requests nothing_kept behind) ≤ token_body_size
add_requests-fit_example = add_requests-fit nothing_kept behind (omega arith)

add_requests-Wanted_example :
    (add_requests nothing_kept behind ≡ [])
    ⊎ ((r : RingRtr) × (add_requests nothing_kept behind ≡ snoc [] r)
        × (r.memb_id ≡ ring_id)
        × All (Wanted behind) r.seqs)
add_requests-Wanted_example = add_requests-Wanted nothing_kept behind

-- A request of this ring for packet 1, and one of another ring.
abbrev requests : List RingRtr
requests =
    record { memb_id = ring_id; proc_id = some 2; seg_index = some 0; seqs = 1 ∷ [] }
    ∷ record {
      memb_id = record { proc_id = 9; time = 9 };
      proc_id = none;
      seg_index = none;
      seqs = 5 ∷ 6 ∷ [];
    }
    ∷ []

-- what is left where answering goes through
abbrev answers : Faultable (Proto × Answer) → Proto × Answer
answers (ok r) = r
answers exit = (start, nothing_kept)

abbrev answered : Proto × Answer
unfolding answer_retrans answer_blocks answer_seqs retransmit sent_packet memb_is_equal ucast
    proc_by_id find_proc has_ip dl_send flush_bcast
answered = answers (answer_retrans requests (holding 1))

answered_run : answer_retrans requests (holding 1) ≡ ok (answered.0, answered.1)
unfolding answered answer_retrans answer_blocks answer_seqs retransmit sent_packet memb_is_equal
    ucast proc_by_id find_proc has_ip dl_send flush_bcast
answered_run = refl

answer_retrans-kept_example :
    (answered.1.kept ≡ foreign ring_id requests)
    × AllResent (holding 1) answered.0
    × Steady (holding 1) answered.0
    × (answered.0.effects ≡ [])
answer_retrans-kept_example =
    answer_retrans-kept requests (holding 1) answered.0 answered.1 answered_run

-- One packet was sent for the two requests.
answered_once : answered.1.num_retrans ≡ 1
unfolding answered
answered_once = refl
