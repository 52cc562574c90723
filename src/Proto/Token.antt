-- ===== src/Proto/Token.antt =====
-- daemon/protocol.c: `Prot_handle_token`, one visit of the token.
pub mod Arq
pub mod Again
pub mod Aru
pub mod Flow
pub mod Requests
pub mod Answers
pub mod Window
pub mod Discarded
pub mod Visit
pub mod Sent
use in5020_assignment.Prelude.{
  ℕ, zero, suc, ◌+◌, ◌-◌, ◌*◌, ◌/◌, ◌%◌, ◌^◌, ℤ, pos, negsuc, pos_part, ◌+ℤ◌, ◌-ℤ◌, eqb_ℤ, Bool,
  true, false, not, ◌==◌, ◌&&◌, ◌||◌, leb, ltb, if◌then◌else◌, List, [], ◌∷◌, ◌++◌, length, snoc,
  Option, none, some, Faultable, ok, exit, ◌>>=◌,
}
use in5020_assignment.Wire.{
  TokenHeader, RingRtr, get_arq, set_arq, get_retrans, set_retrans, is_form, to_int16,
}
use in5020_assignment.Memb.{commit, is_evs}
use in5020_assignment.Net.{Net, send_token}
use in5020_assignment.Events.Clock.{SpTime}
use in5020_assignment.Proto.Flow.{fc_allowed}
use in5020_assignment.Proto.Hurry.{prot_token_hurry}
use in5020_assignment.Proto.Receive.{advance}
use in5020_assignment.Proto.Retrans.{Answer, answer_retrans, rtr_bytes, rtr_header_size}
use in5020_assignment.Proto.Send.{send_new_packets}
use in5020_assignment.Proto.Discard.{discard_packets}
use in5020_assignment.Proto.Deliver.{deliver_agreed_packets, deliver_reliable_packets}
use in5020_assignment.Proto.{
  Proto, emit, set_timer, token_loss, token_hurry, Membership, memb_token_loss, slot_at, in_evs,
  am_leader, is_token_hold, max_evs_rounds,
}

-- `sizeof( token_header )` and `sizeof( token_body )`
abbrev pub token_header_size : ℕ
token_header_size = 32

abbrev pub token_body_size : ℕ
token_body_size = 1472 - 32

-- What the ARQ number and the retransmission count of a token's type say, by those of the last token.
pub data Verdict : Type 0 where
  accept swallow : Verdict
  resend : ℕ → Verdict

unfoldable pub screen : Bool → ℕ → ℕ → Verdict
screen lead type last_type =
    if lead
    then (if get_arq type == get_arq last_type then accept else swallow)
    else if get_arq type == get_arq last_type
    then (if leb (get_retrans type) (get_retrans last_type)
        then swallow
        else resend (get_retrans type))
    else if get_arq type == (get_arq last_type + 1) % 16
    then accept
    else swallow

-- `retrans_allowed` with the request area at `new_ptr`: the difference is a `size_t`, of 64 bits
-- here, and wraps; its quotient is cut to an `int`, of which a negative one allows nothing and is 0
-- here.
unfoldable pub retrans_allowed : ℕ → ℕ
retrans_allowed new_ptr =
    let bytes = (token_body_size + 2 ^ 64 - new_ptr - rtr_header_size) % 2 ^ 64 in
    let count = bytes / 4 % 2 ^ 32 in if ltb count (2 ^ 31) then count else 0

-- The numbers from `i` on, `n` of them at most `budget`, of packets that are missing.
unfoldable pub missing : ℕ → ℕ → ℕ → Proto → List ℕ
missing zero budget i s = []
missing (suc n) zero i s = []
missing (suc n) (suc b) i s =
    let rest = missing n b (i + 1) s in if (slot_at s i).exist == 0 then i ∷ rest else rest

-- This daemon's requests behind the blocks kept, if two of them fit.
unfoldable pub add_requests : Answer → Proto → List RingRtr
add_requests a s =
    let room = retrans_allowed (rtr_bytes a.kept) in
    if ltb s.my_aru s.highest_seq && not (leb room 1)
    then snoc a.kept (record {
      memb_id = s.memb.membership_id;
      proc_id = a.proc_id;
      seg_index = a.seg_index;
      seqs = missing (s.highest_seq - s.my_aru) room (s.my_aru + 1) s;
    })
    else a.kept

-- In EVS a daemon that has every packet commits, and its own aru is that of the old ring's end.
unfoldable pub commit_if_complete : Proto → Proto
commit_if_complete s =
    if in_evs s && s.my_aru == s.highest_seq
    then record s { my_aru = s.last_seq; memb = commit s.memb }
    else s

-- `Token->aru` and `Token->aru_last_id`, with `Set_aru`.
unfoldable pub next_aru : TokenHeader → Proto → TokenHeader × ℤ
next_aru t s =
    let mine = record t { aru = s.my_aru; aru_last_id = s.my.id } in
    if eqb_ℤ (pos t.aru) s.set_aru || (t.aru_last_id == s.my.id || t.aru == t.seq)
    then (mine, if ltb s.my_aru s.highest_seq then pos s.my_aru else negsuc 0)
    else if ltb s.my_aru t.aru
    then (mine, pos s.my_aru)
    else (t, negsuc 0)

-- `Token->flow_control`, an `int16`: this daemon's last share out, its new one in.
abbrev pub next_flow : ℤ → Proto → ℕ → ℕ → ℤ
next_flow fc s num_retrans num_sent =
    to_int16
      (fc -ℤ pos s.last_num_retrans -ℤ pos s.last_num_sent +ℤ pos num_retrans +ℤ pos num_sent)

-- The leader gives the token the next ARQ number.
abbrev pub stamp : Bool → ℕ → ℕ
stamp lead type = if lead then set_retrans (set_arq type ((get_arq type + 1) % 16)) 0 else type

-- `Net_send_token`, three times where the token was in trouble
unfoldable pub send_on : ℕ → ℕ → TokenHeader → List RingRtr → Net → Net
send_on me hash t rtrs n =
    let once = send_token me hash t rtrs n in
    if leb (get_retrans t.type) 1
    then once
    else send_token me hash t rtrs (send_token me hash t rtrs once)

-- The header that is sent on, and `Set_aru`, from the state after sending and requesting.
unfoldable pub next_token : Bool → ℕ → ℤ → TokenHeader → Proto → TokenHeader × ℤ
next_token lead rtr_len flow t s =
    let (u, set_aru) = next_aru t s in
    (
      record u {
        type = stamp lead t.type;
        proc_id = s.my.id;
        seq = if in_evs s then t.seq else s.highest_seq;
        flow_control = flow;
        rtr_len = rtr_len;
      },
      set_aru,
    )

-- The timers of a visit: the leader's hurry, and the loss of the token.
abbrev pub visit_timers : Bool → Proto → Proto
visit_timers lead s =
    emit (set_timer token_loss s.token_timeout)
      (if lead then emit (set_timer token_hurry s.hurry_timeout) s else s)

-- The smaller of the token's aru and of the last token's: what every daemon had one round ago.
abbrev pub stable_aru : TokenHeader → TokenHeader → ℕ
stable_aru t last = if ltb last.aru t.aru then last.aru else t.aru

-- The token sent on or held, and the state that remembers it.
unfoldable pub pass_token : Bool → TokenHeader → ℤ → List RingRtr → Proto → Proto
pass_token lead t set_aru rtrs s =
    let held = lead && is_token_hold s in
    let s1 = visit_timers lead (record s {
      net = if held then s.net else send_on s.my.id s.cn.hash_code t rtrs s.net;
      token_rounds = s.token_rounds + 1;
      set_aru = set_aru;
    }) in
    let aru' = stable_aru t s.last_token in
    record s1 {
      aru = aru';
      token_counter = if s1.highest_seq == aru' then s1.token_counter + 1 else 0;
      last_token = t;
    }

-- Delivery after a visit on which `num_sent` sends were made, and the way out of an endless EVS.
unfoldable pub deliver_after : SpTime → ℕ → Proto → Faultable Proto
deliver_after lookup_timeout num_sent s = discard_packets lookup_timeout s >>= λ s1.
    deliver_agreed_packets s1 >>= λ s2.
    deliver_reliable_packets (pos (s2.highest_seq + 1) -ℤ pos num_sent) num_sent s2 >>= λ s3.
    ok (if in_evs s3 && ltb max_evs_rounds s3.token_rounds then emit memb_token_loss s3 else s3)

-- The state at the start of a visit: the token tells how far the ring has come.
abbrev pub note_seq : TokenHeader → Proto → Proto
note_seq t s = if ltb s.highest_seq t.seq then record s { highest_seq = t.seq } else s

-- The state after sending: the shares of the flow control, and this daemon's own aru.
unfoldable pub settle : ℕ → ℕ → Proto → Proto
settle num_retrans num_sent s =
    let s1 = record s { last_num_retrans = num_retrans; last_num_sent = num_sent } in
    advance (s1.highest_seq - s1.my_aru) (s1.my_aru + 1) s1

-- A visit of an accepted token.
unfoldable pub visit : SpTime → Bool → TokenHeader → List RingRtr → Proto → Faultable Proto
visit lookup_timeout lead t rtrs s = answer_retrans rtrs (note_seq t s) >>= λ r.
    send_new_packets (pos_part (fc_allowed t.flow_control (r.0))) (r.0) >>= λ q.
    let flow = next_flow t.flow_control (q.0) (r.1).num_retrans q.1 in
    let s1 = settle (r.1).num_retrans q.1 (q.0) in
    let requests = add_requests (r.1) s1 in
    let s2 = commit_if_complete s1 in
    let (t', set_aru) = next_token lead (rtr_bytes requests) flow t s2 in
    deliver_after lookup_timeout q.1 (pass_token lead t' set_aru requests s2)

-- `Prot_handle_token`, on the `received` bytes of a token of this machine's byte order, or on 0 where
-- `Net_recv_token` dropped it.
unfoldable pub prot_handle_token :
    Membership → SpTime → ℕ → TokenHeader → List RingRtr → Proto → Faultable Proto
prot_handle_token m lookup_timeout received t rtrs s =
    if received == 0
    then ok s
    else if is_form t.type
    then m.handle_form_token t s
    else if not s.memb.token_alive
    then ok s
    else if not (received == token_header_size + t.rtr_len)
    then ok s
    else (am_leader s >>= λ lead. elim (screen lead t.type s.last_token.type) [
      | accept ↦ visit lookup_timeout lead t rtrs s
      | swallow ↦ ok s
      | resend n ↦
          prot_token_hurry (record s {
            last_token = record s.last_token { type = set_retrans s.last_token.type n };
          })
    ])
