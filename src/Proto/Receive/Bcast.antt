-- ===== src/Proto/Receive/Bcast.antt =====
-- `Prot_handle_bcast` as a whole: what each kind of datagram does to the window of packets.
use in5020_assignment.Prelude.{
  ℕ, ◌+◌, ◌≤◌, ◌≡◌, refl, Bool, true, false, not, ◌&&◌, ◌==◌, if◌then◌else◌, Bool-cases, inl, inr,
  ok, >>=-eq-ok, subst, sym, ok-inj, if-split, if-cases, arith, ◌||◌, Option-cases, List, [], ◌∷◌,
  All,
}
use in5020_assignment.Wire.{
  is_status, is_fc, is_conf_reload, is_membership, is_hurry, is_regular, memb_is_equal,
}
use in5020_assignment.Memb.{active}
use in5020_assignment.Conf.{id_in_conf, proc_by_id}
use in5020_assignment.Net.{Packet}
use in5020_assignment.Proto.{
  Proto, Effect, emit, max_packets, am_leader, is_token_hold, set_timer, token_loss, token_hurry,
  status_message, reload, Membership,
}
use in5020_assignment.Proto.Flow.{fc_handle_message, is_some, monitor_id}
use in5020_assignment.Proto.Hurry.{
  handle_hurry, prot_token_hurry, sends_twice, hurried, send_header, sends,
}
use in5020_assignment.Proto.Deliver.Cells.{SameCells, SameCells-refl, SameCells-trans}
use in5020_assignment.Proto.Receive.Window.{InOrder}
use in5020_assignment.Proto.Receive.InOrder.{
  Taken, Taken-of_SameCells, Taken-trans, take_packets-InOrder,
}
use in5020_assignment.Proto.Receive.{prot_handle_bcast, renew_timers, is_handed_on}

pub emit-SameCells : (e : Effect) (s : Proto) → SameCells s (emit e s)
emit-SameCells e s = record {
  window = record {
    my_aru = refl;
    aru = refl;
    highest_seq = refl;
    last_discarded = refl;
    memb = refl;
  };
  empty = λ k h. h;
  full = λ k h. h;
}

-- The call of a timer, if the leader makes it.
timer-SameCells :
    (lead : Bool) (e : Effect) (s : Proto) → SameCells s (if lead then emit e s else s)
timer-SameCells true e s = emit-SameCells e s
timer-SameCells false e s = SameCells-refl s

fc_handle_message-SameCells : (p : Packet) (s : Proto) → SameCells s (fc_handle_message p s)
unfolding fc_handle_message
fc_handle_message-SameCells p s = elim (Bool-cases (not s.dangerous_monitor)) [
  | inl off ↦ rw off (SameCells-refl s)
  | inr on ↦
      elim (Bool-cases
        (not (p.head.memb_id.proc_id == monitor_id && is_some (id_in_conf s.cn p.head.proc_id)))) [
          | inl other ↦ rw (on, other) (SameCells-refl s)
          | inr own ↦ elim (Option-cases (proc_by_id s.procs s.my.id)) [
            | inl out ↦ rw (on, own, out) (SameCells-refl s)
            | inr (found, there) ↦
                rw (on, own, there)
                  (record {
                    window = record {
                      my_aru = refl;
                      aru = refl;
                      highest_seq = refl;
                      last_discarded = refl;
                      memb = refl;
                    };
                    empty = λ k h. h;
                    full = λ k h. h;
                  })
          ]
        ]
]

pub prot_token_hurry-SameCells : (s t : Proto) → prot_token_hurry s ≡ ok t → SameCells s t
unfolding prot_token_hurry
prot_token_hurry-SameCells s t h =
    let (lead, one, r) = >>=-eq-ok (am_leader s) _ h in
    let (twice, two, q) = >>=-eq-ok (sends_twice s) _ r in
    let tok = hurried lead s.last_token in
    let s1 = record s {
      last_token = tok;
      net = send_header s.my.id s.cn.hash_code (sends twice tok) tok s.net;
    } in
    subst (SameCells s) (ok-inj q) (
      SameCells-trans
        (record {
          window = record {
            my_aru = refl;
            aru = refl;
            highest_seq = refl;
            last_discarded = refl;
            memb = refl;
          };
          empty = λ k h. h;
          full = λ k h. h;
        })
        (timer-SameCells lead (set_timer token_hurry s.hurry_timeout) s1))

pub handle_hurry-SameCells : (id : ℕ) (s t : Proto) → handle_hurry id s ≡ ok t → SameCells s t
unfolding handle_hurry
handle_hurry-SameCells id s t h =
    let (lead, one, r) = >>=-eq-ok (am_leader s) _ h in
    elim (Bool-cases (lead && (is_token_hold s && is_some (id_in_conf (active s.memb) id)))) [
      | inl sends ↦ prot_token_hurry-SameCells s t (rw sends at r)
      | inr quiet ↦ subst (SameCells s) (ok-inj (rw quiet at r)) (SameCells-refl s)
    ]

renew_timers-SameCells : (s t : Proto) → renew_timers s ≡ ok t → SameCells s t
unfolding renew_timers
renew_timers-SameCells s t h = elim (if-split s.memb.token_alive h) [
  | inl alive ↦
      let (lead, one, r) = >>=-eq-ok (am_leader s) _ alive in
      subst (SameCells s) (ok-inj r) (
        SameCells-trans (emit-SameCells (set_timer token_loss s.token_timeout) s) (
          timer-SameCells lead (set_timer token_hurry s.hurry_timeout)
            (emit (set_timer token_loss s.token_timeout) s)))
  | inr lost ↦ subst (SameCells s) (ok-inj lost) (SameCells-refl s)
]

not_memb : (a b : Bool) → (a || b) ≡ false → a ≡ true → ⊥
not_memb a b h e = ground (arith, h, e)

not_foreign :
    (a b c d : Bool) → (a || (not b && (c && d))) ≡ false → b ≡ false → not c ≡ false → d ≡ true → ⊥
not_foreign a b c d h x y z = ground (arith, h, x, y, z)

-- The first packet, which decides, is not for the membership algorithm.
abbrev pub NotHandedOn : List Packet → Proto → Type 0
NotHandedOn [] s = Unit
NotHandedOn (p ∷ ps) s = is_handed_on p s ≡ false

-- Whatever datagram comes in that is not handed to the membership algorithm, a window in order stays so,
-- `My_aru` does not go back, and `Aru` and `Last_discarded` stay; if the packets' numbers lie within
-- one turn of the array past `Last_discarded`. Handed to that algorithm is a datagram whose first
-- packet is one of its own, or a regular one of another membership.
pub prot_handle_bcast-InOrder :
    (m : Membership) (ps : List Packet) (s t : Proto)
    → InOrder s
    → NotHandedOn ps s
    → All (λ (p : Packet). p.head.seq ≤ s.last_discarded + max_packets) ps
    → prot_handle_bcast m ps s ≡ ok t
    → Taken s t
unfolding prot_handle_bcast
prot_handle_bcast-InOrder m [] s t w mine near h =
    Taken-of_SameCells w (subst (SameCells s) (ok-inj h) (SameCells-refl s))
prot_handle_bcast-InOrder m (p ∷ ps) s t w mine near h =
    let same : SameCells s t → Taken s t = Taken-of_SameCells w in
    elim (if-split (is_status p.head.type) h) [
      | inl status ↦
          same (subst (SameCells s) (ok-inj status) (emit-SameCells (status_message p) s))
      | inr h1 ↦ elim (if-split (is_fc p.head.type) h1) [
        | inl fc ↦ same (subst (SameCells s) (ok-inj fc) (fc_handle_message-SameCells p s))
        | inr h2 ↦ elim (if-split (is_conf_reload p.head.type) h2) [
          | inl conf ↦ same (subst (SameCells s) (ok-inj conf) (emit-SameCells reload s))
          | inr h3 ↦ elim (if-cases (is_membership p.head.type) h3) [
            | inl (memb, _) ↦ absurd (not_memb _ _ mine memb)
            | inr (_, h4) ↦ elim (if-cases (is_hurry p.head.type) h4) [
              | inl (_, hurry) ↦ same (handle_hurry-SameCells p.head.proc_id s t hurry)
              | inr (calm, h5) ↦ elim (if-cases (not (is_regular p.head.type)) h5) [
                | inl (_, odd) ↦ same (subst (SameCells s) (ok-inj odd) (SameCells-refl s))
                | inr (regular, h6) ↦
                    elim (if-cases (not (memb_is_equal s.memb.membership_id p.head.memb_id)) h6) [
                      | inl (foreign, _) ↦ absurd (not_foreign _ _ _ _ mine calm regular foreign)
                      | inr (_, h7) ↦
                          let (u, renewed, rest) = >>=-eq-ok (renew_timers s) _ h7 in
                          let a = Taken-of_SameCells w (renew_timers-SameCells s u renewed) in
                          Taken-trans a (
                            take_packets-InOrder (p ∷ ps) u t a.in_order
                              (subst
                                (λ m. All (λ (q : Packet). q.head.seq ≤ m + max_packets) (p ∷ ps))
                                (sym a.last_discarded) near)
                              rest)
                    ]
              ]
            ]
          ]
        ]
      ]
    ]
