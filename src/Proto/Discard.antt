-- ===== src/Proto/Discard.antt =====
-- daemon/protocol.c: `Discard_packets`, which delivers and drops what every daemon has, and in EVS
-- ends one membership and starts the next.
pub mod Stable
use in5020_assignment.Prelude.{
  ℕ, zero, suc, ◌+◌, ◌-◌, negsuc, pos, Bool, true, false, not, ◌==◌, ◌&&◌, ◌||◌, leb, ltb,
  if◌then◌else◌, List, [], ◌∷◌, Option, none, some, is_empty, Faultable, ok, exit, ◌>>=◌,
}
use in5020_assignment.Wire.{is_safe, TokenHeader}
use in5020_assignment.Conf.{id_in_conf, num_procs, leader}
use in5020_assignment.Memb.{Memb, transitional, regular}
use in5020_assignment.Events.Clock.{SpTime}
use in5020_assignment.Proto.Flow.{is_some}
use in5020_assignment.Proto.Deliver.{deliver_packet}
use in5020_assignment.Proto.{
  Proto, Slot, UpQueue, DownQueue, Effect, emit, deliver_trans_memb, deliver_reg_memb,
  clear_partition, set_timer, lookup_new_members, entry, slot_at, set_exist, in_evs, max_procs_ring,
}

-- The packet of cell `k` delivered if it was not yet.
abbrev pub deliver_once : ℕ → Proto → Faultable Proto
deliver_once k s = if (s.packets k).exist == 1 then deliver_packet k s else ok s

-- The loop outside EVS, over `n` packets from `i` on.
unfoldable pub stable_loop : ℕ → ℕ → Proto → Faultable Proto
stable_loop zero i s = ok s
stable_loop (suc n) i s =
    let rest = λ (t : Proto). stable_loop n (i + 1) (set_exist (entry i) 0 t) in
    if (slot_at s i).exist == 0 then exit else deliver_once (entry i) s >>= rest

abbrev pub max_of : ℕ → ℕ → ℕ
max_of a b = if ltb a b then b else a

-- The branch outside EVS.
unfoldable pub discard_stable : Proto → Faultable Proto
discard_stable s = stable_loop (s.aru - s.last_discarded) (s.last_discarded + 1) s >>= λ t.
    ok (record t { last_discarded = t.aru; last_delivered = max_of t.last_delivered t.aru })

-- In EVS, before the transitional signal: up to the first hole or SAFE packet.
unfoldable pub before_trans : ℕ → ℕ → Proto → Faultable Proto
before_trans zero i s = ok s
before_trans (suc n) i s =
    let rest = λ (t : Proto).
      before_trans n (i + 1) (record (set_exist (entry i) 0 t) { last_discarded = i }) in
    let c = slot_at s i in
    if c.exist == 0
    then exit
    else if c.exist == 3 || is_safe c.packet.head.type
    then ok s
    else deliver_once (entry i) s >>= rest

-- After it: past a hole only packets of the committed membership are delivered.
unfoldable pub after_trans : ℕ → ℕ → Bool → Proto → Faultable Proto
after_trans zero i found_hole s = ok s
after_trans (suc n) i found_hole s =
    let rest = λ (hole : Bool) (t : Proto). after_trans n (i + 1) hole (set_exist (entry i) 0 t) in
    let c = slot_at s i in
    if c.exist == 0
    then exit
    else if c.exist == 3
    then rest true s
    else if not found_hole || is_some (id_in_conf s.memb.commit_membership c.packet.head.proc_id)
    then deliver_once (entry i) s >>= rest found_hole
    else rest found_hole s

-- Messages that are not complete are dropped; this daemon's own start again from the down queue.
abbrev pub reset_queues : Proto → Proto
reset_queues s = record s {
  down_queue =
      if is_empty s.down_queue.links then s.down_queue else record s.down_queue { cur_element = 0 };
  up_queue =
      λ k. let u = s.up_queue k in if ltb k max_procs_ring then record u { exist = false } else u;
}

abbrev pub zero_timeout : SpTime
zero_timeout = record { sec = pos 0; usec = pos 0 }

-- `Memb_regular` with its timer, which only the leader sets.
unfoldable pub install_regular : SpTime → Proto → Faultable Proto
install_regular lookup_timeout s =
    let s1 = record s { memb = regular s.memb } in
    leader s1.memb.membership >>= λ id.
    ok (if id == s1.my.id then emit (set_timer lookup_new_members lookup_timeout) s1 else s1)

-- A daemon that reloads its configuration has to be alone; it looks for the others again.
unfoldable pub end_reload : Proto → Faultable Proto
end_reload s =
    if s.reload_state
    then (if not (s.gstate == 1) || not (num_procs s.memb.reg_membership == 1)
        then exit
        else ok
            (record (emit (set_timer lookup_new_members zero_timeout) (emit clear_partition s)) {
              reload_state = false;
            }))
    else ok s

-- The variables of the next membership.
abbrev pub fresh_counters : Proto → Proto
fresh_counters s = record s {
  last_token = record s.last_token { aru = 0 };
  highest_seq = 0;
  highest_fifo_seq = 0;
  my_aru = 0;
  aru = 0;
  set_aru = negsuc 0;
  last_discarded = 0;
  last_delivered = 0;
  token_counter = 0;
}

-- The branch in EVS, once `Aru` is `Last_seq`.
unfoldable pub discard_evs : SpTime → Proto → Faultable Proto
discard_evs lookup_timeout s =
    before_trans (s.highest_seq - s.last_discarded) (s.last_discarded + 1) s >>= λ s1.
    transitional s1.procs s1.cn s1.memb >>= λ memb'.
    let s2 =
      emit (deliver_trans_memb memb'.trans_membership memb'.trans_memb_id)
        (record s1 { memb = memb' }) in
    after_trans (s2.highest_seq - s2.last_discarded) (s2.last_discarded + 1) false s2 >>= λ s3.
    install_regular lookup_timeout (reset_queues s3) >>= λ s4.
    end_reload (emit (deliver_reg_memb s4.memb.reg_membership s4.memb.membership_id) s4) >>= λ s5.
    ok (fresh_counters s5)

-- `Discard_packets`; the timeout is that of `Memb_regular`.
unfoldable pub discard_packets : SpTime → Proto → Faultable Proto
discard_packets lookup_timeout s =
    if leb s.aru s.last_discarded
    then ok s
    else if in_evs s
    then (if s.aru == s.last_seq then discard_evs lookup_timeout s else ok s)
    else discard_stable s
