-- ===== src/Proto/Down.antt =====
-- daemon/protocol.c: `Prot_new_message`, which takes a message from the sessions.
use in5020_assignment.Prelude.{
  ◌^◌, pos, ◌==◌, ◌&&◌, ltb, if◌then◌else◌, [], length, snoc, Faultable, ok, ◌>>=◌,
}
use in5020_assignment.Conf.{leader}
use in5020_assignment.Memb.{active}
use in5020_assignment.Net.{Packet, ucast}
use in5020_assignment.Proto.{Proto, DownLink, emit, block_users, water_mark, is_token_hold}
use in5020_assignment.Proto.Hurry.{handle_hurry}

-- `Hurry_pack`: a header of HURRY_TYPE from this daemon
unfoldable pub hurry_pack : Proto → Packet
hurry_pack s = record {
  head = record {
    type = 2 ^ 6;
    transmiter_id = s.my.id;
    proc_id = s.my.id;
    memb_id = record { proc_id = 0; time = 0 };
    seq = 0;
    fifo_seq = 0;
    packet_index = pos 0;
    data_len = 0;
    conf_hash = s.cn.hash_code;
  };
  body = [];
}

-- the message at the end of the down queue, and the users blocked at the water mark
unfoldable pub enqueue_message : DownLink → Proto → Proto
enqueue_message d s =
    let links = snoc s.down_queue.links d in
    let s1 = record s { down_queue = record s.down_queue { links = links } } in
    if ltb (length links) water_mark then s1 else emit block_users s1

-- `Prot_new_message`: the first message of a queue hurries a held token.
unfoldable pub prot_new_message : DownLink → Proto → Faultable Proto
prot_new_message d s =
    let s1 = enqueue_message d s in
    if length s1.down_queue.links == 1 && is_token_hold s1
    then (leader (active s1.memb) >>= λ leader_id.
        if leader_id == s1.my.id
        then handle_hurry s1.my.id s1
        else ok (record s1 {
          net = (ucast s1.my.id s1.cn.hash_code s1.procs leader_id (hurry_pack s1) s1.net).0;
        }))
    else ok s1
