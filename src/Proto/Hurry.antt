-- ===== src/Proto/Hurry.antt =====
-- daemon/protocol.c: `Prot_token_hurry` and `Handle_hurry`, which put a held or a lost token on its
-- way again.
use in5020_assignment.Prelude.{
  ℕ, zero, suc, ◌+◌, Bool, false, ◌==◌, ◌&&◌, leb, if◌then◌else◌, [], Faultable, ok, ◌>>=◌,
}
use in5020_assignment.Wire.{TokenHeader, get_retrans, set_retrans}
use in5020_assignment.Conf.{id_in_conf, seg_last}
use in5020_assignment.Memb.{active}
use in5020_assignment.Net.{Net, send_token}
use in5020_assignment.Proto.Flow.{is_some}
use in5020_assignment.Proto.{Proto, emit, set_timer, token_hurry, am_leader, is_token_hold}

-- `n` calls of `Net_send_token` with the header alone
unfoldable pub send_header : ℕ → ℕ → ℕ → TokenHeader → Net → Net
send_header me hash zero t n = n
send_header me hash (suc k) t n = send_header me hash k t (send_token me hash t [] n)

-- On a wide network the last daemon of its segment sends to the next segment again.
unfoldable pub sends_twice : Proto → Faultable Bool
sends_twice s =
    if s.wide_network
    then (seg_last (active s.memb) s.my.seg_index >>= λ id. ok (id == s.my.id))
    else ok false

-- the token that is sent again: without requests, and counted by the leader
abbrev pub hurried : Bool → TokenHeader → TokenHeader
hurried lead t =
    if lead
    then record t { rtr_len = 0; type = set_retrans t.type (get_retrans t.type + 1) }
    else record t { rtr_len = 0 }

abbrev pub sends : Bool → TokenHeader → ℕ
sends twice t = 1 + (if twice then 1 else 0) + (if leb (get_retrans t.type) 1 then 0 else 2)

-- `Prot_token_hurry`
unfoldable pub prot_token_hurry : Proto → Faultable Proto
prot_token_hurry s = am_leader s >>= λ lead. sends_twice s >>= λ twice.
    let t = hurried lead s.last_token in
    let s1 = record s {
      last_token = t;
      net = send_header s.my.id s.cn.hash_code (sends twice t) t s.net;
    } in
    ok (if lead then emit (set_timer token_hurry s.hurry_timeout) s1 else s1)

-- `Handle_hurry`
unfoldable pub handle_hurry : ℕ → Proto → Faultable Proto
handle_hurry proc_id s = am_leader s >>= λ lead.
    if lead && (is_token_hold s && is_some (id_in_conf (active s.memb) proc_id))
    then prot_token_hurry s
    else ok s
