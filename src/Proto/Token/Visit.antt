-- ===== src/Proto/Token/Visit.antt =====
-- `Prot_handle_token` keeps the window of packets in order.
use in5020_assignment.Prelude.{
  ℕ, ◌+◌, ◌-◌, ◌≤◌, ◌≡◌, ◌⊎◌, inl, inr, refl, ℤ, Bool, false, not, ◌==◌, ltb, if-split, if-cases,
  Bool-cases, List, arith, ok, >>=-eq-ok, ok-inj, sym, subst, ◌∙◌, ap,
}
use in5020_assignment.Wire.{TokenHeader, RingRtr, is_form, set_retrans}
use in5020_assignment.Events.Clock.{SpTime}
use in5020_assignment.Memb.{Memb, is_evs}
use in5020_assignment.Proto.{Proto, DownQueue, entry, max_packets, in_evs, Membership, am_leader}
use in5020_assignment.Proto.Retrans.{answer_retrans}
use in5020_assignment.Proto.Send.{send_new_packets, waiting}
use in5020_assignment.Proto.Deliver.Window.{Steady}
use in5020_assignment.Proto.Deliver.Cells.{SameCells, SameCells-refl, SameCells-trans}
use in5020_assignment.Proto.Hurry.{prot_token_hurry}
use in5020_assignment.Proto.Receive.Bcast.{prot_token_hurry-SameCells}
use in5020_assignment.Proto.Receive.Window.{InOrder, InOrder-of_SameCells, advance-Advanced}
use in5020_assignment.Proto.Token.Answers.{answer_retrans-kept, AllResent}
use in5020_assignment.Proto.Token.Sent.{Loose, Loose-rebuild, Extended, send_new_packets-Extended}
use in5020_assignment.Proto.Token.{
  next_token, pass_token, settle, commit_if_complete, note_seq, deliver_after, visit,
  prot_handle_token, screen, Verdict, accept, swallow, resend, token_header_size,
}
use in5020_assignment.Proto.Token.Window.{note_seq-Loose, settle-InOrder, pass_token-Onward}
use in5020_assignment.Proto.Token.Discarded.{deliver_after-Onward}

-- the state that a visit has come to when its packets are sent
record Underway (t : TokenHeader) (s : Proto) : Type 0 where
  calm : in_evs s ≡ false
  loose : Loose s
  discarded : s.last_discarded ≤ s.aru
  stable : s.aru ≤ s.my_aru
  token : s.last_discarded ≤ t.aru
  last : s.last_discarded ≤ s.last_token.aru
  room : s.highest_seq ≤ s.last_discarded + max_packets

commit_calm : (s : Proto) → in_evs s ≡ false → commit_if_complete s ≡ s
unfolding commit_if_complete
commit_calm s calm = rw calm refl

settle_fields :
    (num_retrans num_sent : ℕ) (s : Proto)
    → let u = settle num_retrans num_sent s in
      (s.my_aru ≤ u.my_aru)
      × (u.highest_seq ≡ s.highest_seq)
      × (u.last_discarded ≡ s.last_discarded)
      × (u.memb ≡ s.memb)
      × (u.last_token ≡ s.last_token)
unfolding settle
settle_fields num_retrans num_sent s =
    let s1 : Proto = record s { last_num_retrans = num_retrans; last_num_sent = num_sent } in
    let d = advance-Advanced (s.highest_seq - s.my_aru) (s.my_aru + 1) s1 refl in
    (
      d.forward,
      ap (λ (z : Proto). z.highest_seq) d.only,
      ap (λ (z : Proto). z.last_discarded) d.only,
      ap (λ (z : Proto). z.memb) d.only,
      ap (λ (z : Proto). z.last_token) d.only,
    )

-- The rest of the visit, from there.
finish-InOrder :
    (lookup_timeout : SpTime) (lead : Bool) (num_retrans num_sent len : ℕ) (flow set_aru : ℤ)
    (t : TokenHeader) (rtrs : List RingRtr) (s u : Proto)
    → Underway t s
    → let s2 = commit_if_complete (settle num_retrans num_sent s) in
      deliver_after lookup_timeout num_sent
          (pass_token lead (next_token lead len flow t s2).0 set_aru rtrs s2)
        ≡ ok u
      → InOrder u × (s.my_aru ≤ u.my_aru) × (s.last_discarded ≤ u.last_discarded)
finish-InOrder lookup_timeout lead num_retrans num_sent len flow set_aru t rtrs s u v h =
    let s1 = settle num_retrans num_sent s in
    let (m, hi, ld, mb, lt) = settle_fields num_retrans num_sent s in
    let calm1 : in_evs s1 ≡ false = ap (λ (x : Memb). is_evs x.state) mb ∙ v.calm in
    let w = settle-InOrder num_retrans num_sent s v.loose v.discarded v.stable in
    let a = pass_token-Onward lead len flow set_aru t rtrs s1 w (omega (arith, ld, v.token)) (
      subst (λ (x : TokenHeader). s1.last_discarded ≤ x.aru) (sym lt)
        (omega (arith, ld, v.last))) in
    let p = pass_token lead (next_token lead len flow t s1).0 set_aru rtrs s1 in
    let b =
      deliver_after-Onward lookup_timeout num_sent p u
        (ap (λ (x : Memb). is_evs x.state) a.memb ∙ calm1) a.in_order
        (omega (arith, a.highest_seq, a.forward, hi, ld, v.room))
        (subst
          (λ (x : Proto).
            deliver_after lookup_timeout num_sent
              (pass_token lead (next_token lead len flow t x).0 set_aru rtrs x)
            ≡ ok u)
          (commit_calm s1 calm1) h) in
    (b.in_order, omega (arith, b.my_aru, a.my_aru, m), omega (arith, b.forward, a.forward, ld))

note_seq_fields :
    (t : TokenHeader) (s : Proto)
    → let n = note_seq t s in
      (n.my_aru ≡ s.my_aru)
      × (n.aru ≡ s.aru)
      × (n.last_discarded ≡ s.last_discarded)
      × (n.memb ≡ s.memb)
      × (n.last_token ≡ s.last_token)
      × (n.down_queue ≡ s.down_queue)
      × ((n.highest_seq ≡ s.highest_seq) ⊎ (n.highest_seq ≡ t.seq))
note_seq_fields t s = elim (Bool-cases (ltb s.highest_seq t.seq)) [
  | inl up ↦ rw up (refl, refl, refl, refl, refl, refl, inr refl)
  | inr low ↦ rw low (refl, refl, refl, refl, refl, refl, inl refl)
]

-- Where a visit is when it has answered and sent.
sent-Underway :
    (t : TokenHeader) (s r q : Proto)
    → in_evs s ≡ false
    → InOrder s
    → s.last_discarded ≤ t.aru
    → s.last_discarded ≤ s.last_token.aru
    → q.highest_seq ≤ s.last_discarded + max_packets
    → Steady (note_seq t s) r
    → AllResent (note_seq t s) r
    → Extended r q
    → Underway t q × (q.my_aru ≡ s.my_aru) × (q.last_discarded ≡ s.last_discarded)
sent-Underway t s r q calm w a b room x same e =
    let f = note_seq_fields t s in
    let m : q.my_aru ≡ s.my_aru = e.my_aru ∙ x.window.my_aru ∙ f.0 in
    let ar : q.aru ≡ s.aru = e.aru ∙ x.window.aru ∙ f.1 in
    let ld : q.last_discarded ≡ s.last_discarded =
      e.last_discarded ∙ x.window.last_discarded ∙ f.2 in
    (
      record {
        calm = ap (λ (z : Memb). is_evs z.state) (e.memb ∙ x.window.memb ∙ f.3) ∙ calm;
        loose = e.loose (
            Loose-rebuild x.window.my_aru x.window.last_discarded
              (omega (arith, x.window.highest_seq)) (λ k. (same (entry k)).exist)
              (note_seq-Loose t s w));
        discarded = omega (arith, ar, ld, w.discarded);
        stable = omega (arith, ar, m, w.stable);
        token = omega (arith, ld, a);
        last =
            subst (λ (z : TokenHeader). q.last_discarded ≤ z.aru)
              (sym (e.last_token ∙ x.last_token ∙ f.4)) (omega (arith, ld, b));
        room = omega (arith, ld, room);
      },
      m,
      ld,
    )

sent_fits :
    (t : TokenHeader) (s r q : Proto)
    → s.highest_seq + waiting s.down_queue ≤ s.last_discarded + max_packets
    → t.seq + waiting s.down_queue ≤ s.last_discarded + max_packets
    → Steady (note_seq t s) r
    → q.highest_seq ≤ r.highest_seq + waiting r.down_queue
    → q.highest_seq ≤ s.last_discarded + max_packets
sent_fits t s r q room1 room2 x e =
    let f = note_seq_fields t s in
    let at_most =
      subst (λ (z : DownQueue). q.highest_seq ≤ r.highest_seq + waiting z) (x.down_queue ∙ f.5) e in
    elim f.6 [
      | inl old ↦ omega (arith, at_most, old, x.window.highest_seq, room1)
      | inr new ↦ omega (arith, at_most, new, x.window.highest_seq, room2)
    ]

-- A visit of the token outside EVS that goes through keeps the window in order: it moves `My_aru` and
-- `Last_discarded` forward only, and `My_aru` is exact again. The conditions are that neither the aru
-- on the token nor that of the last token is below what was discarded, and that the numbers in use
-- (`Highest_seq`, and the token's), with one more for each fragment that waits, lie within one turn of
-- the array past what was discarded.
pub visit-InOrder :
    (lookup_timeout : SpTime) (lead : Bool) (t : TokenHeader) (rtrs : List RingRtr) (s u : Proto)
    → in_evs s ≡ false
    → InOrder s
    → s.last_discarded ≤ t.aru
    → s.last_discarded ≤ s.last_token.aru
    → s.highest_seq + waiting s.down_queue ≤ s.last_discarded + max_packets
    → t.seq + waiting s.down_queue ≤ s.last_discarded + max_packets
    → visit lookup_timeout lead t rtrs s ≡ ok u
    → InOrder u × (s.my_aru ≤ u.my_aru) × (s.last_discarded ≤ u.last_discarded)
unfolding visit
visit-InOrder lookup_timeout lead t rtrs s u calm w a b room1 room2 h =
    let (r, answered, h1) = >>=-eq-ok (answer_retrans rtrs (note_seq t s)) _ h in
    let (q, sent, h2) = >>=-eq-ok (send_new_packets _ r.0) _ h1 in
    let (kept, same, x, quiet) = answer_retrans-kept rtrs (note_seq t s) r.0 r.1 answered in
    let e = send_new_packets-Extended _ r.0 q.0 q.1 sent in
    let fits = sent_fits t s r.0 q.0 room1 room2 x e.1 in
    let (v, m, ld) = sent-Underway t s r.0 q.0 calm w a b fits x same e.0 in
    let (i, my, di) = finish-InOrder lookup_timeout lead _ q.1 _ _ _ t _ q.0 u v h2 in
    (i, omega (arith, my, m), omega (arith, di, ld))

kept :
    (s u : Proto)
    → InOrder s
    → SameCells s u
    → InOrder u × (s.my_aru ≤ u.my_aru) × (s.last_discarded ≤ u.last_discarded)
kept s u w c = (
  InOrder-of_SameCells c w,
  omega (arith, c.window.my_aru),
  omega (arith, c.window.last_discarded),
)

-- A token sent again is the last one, with its retransmission count.
resend-SameCells :
    (n : ℕ) (s : Proto)
    → SameCells s
        (record s { last_token = record s.last_token { type = set_retrans s.last_token.type n } })
resend-SameCells n s = record {
  window = record {
    my_aru = refl;
    aru = refl;
    highest_seq = refl;
    last_discarded = refl;
    memb = refl;
  };
  empty = λ k h. h;
  full = λ k h. h;
}

-- what follows the verdict on a token
judged :
    (lookup_timeout : SpTime) (lead : Bool) (v : Verdict) (t : TokenHeader) (rtrs : List RingRtr)
    (s u : Proto)
    → InOrder s
    → (elim v [
      | accept ↦ visit lookup_timeout lead t rtrs s
      | swallow ↦ ok s
      | resend n ↦
          prot_token_hurry (record s {
            last_token = record s.last_token { type = set_retrans s.last_token.type n };
          })
    ])
      ≡ ok u
    → (visit lookup_timeout lead t rtrs s ≡ ok u
        → InOrder u × (s.my_aru ≤ u.my_aru) × (s.last_discarded ≤ u.last_discarded))
    → InOrder u × (s.my_aru ≤ u.my_aru) × (s.last_discarded ≤ u.last_discarded)
judged lookup_timeout lead accept t rtrs s u w h visited = visited h
judged lookup_timeout lead swallow t rtrs s u w h visited =
    kept s u w (subst (SameCells s) (ok-inj h) (SameCells-refl s))
judged lookup_timeout lead (resend n) t rtrs s u w h visited =
    kept s u w (SameCells-trans (resend-SameCells n s) (prot_token_hurry-SameCells _ u h))

-- Any token but a form token, outside EVS, whether it is accepted, swallowed or makes the daemon send its last token
-- again, keeps the window in order where the handler goes through, and moves `My_aru` and
-- `Last_discarded` forward only. The conditions are that neither the aru on the token nor that of
-- the last token is below what was discarded, and that the numbers in use (`Highest_seq`, and the
-- token's), with one more for each fragment that waits, lie within one turn of the array past what
-- was discarded.
pub prot_handle_token-InOrder :
    (m : Membership) (lookup_timeout : SpTime) (received : ℕ) (t : TokenHeader)
    (rtrs : List RingRtr) (s u : Proto)
    → is_form t.type ≡ false
    → in_evs s ≡ false
    → InOrder s
    → s.last_discarded ≤ t.aru
    → s.last_discarded ≤ s.last_token.aru
    → s.highest_seq + waiting s.down_queue ≤ s.last_discarded + max_packets
    → t.seq + waiting s.down_queue ≤ s.last_discarded + max_packets
    → prot_handle_token m lookup_timeout received t rtrs s ≡ ok u
    → InOrder u × (s.my_aru ≤ u.my_aru) × (s.last_discarded ≤ u.last_discarded)
unfolding prot_handle_token
prot_handle_token-InOrder m lookup_timeout received t rtrs s u ring calm w a b room1 room2 h =
    let same = kept s u w in
    elim (if-split (received == 0) h) [
      | inl dropped ↦ same (subst (SameCells s) (ok-inj dropped) (SameCells-refl s))
      | inr h1 ↦ elim (if-cases (is_form t.type) h1) [
        | inl (form, _) ↦ absurd (ground (arith, form, ring))
        | inr (_, h2) ↦ elim (if-split (not s.memb.token_alive) h2) [
          | inl veto ↦ same (subst (SameCells s) (ok-inj veto) (SameCells-refl s))
          | inr h3 ↦ elim (if-split (not (received == token_header_size + t.rtr_len)) h3) [
            | inl short ↦ same (subst (SameCells s) (ok-inj short) (SameCells-refl s))
            | inr h4 ↦
                let (lead, one, h5) = >>=-eq-ok (am_leader s) _ h4 in
                judged lookup_timeout lead (screen lead t.type s.last_token.type) t rtrs s u w h5
                  (visit-InOrder lookup_timeout lead t rtrs s u calm w a b room1 room2)
          ]
        ]
      ]
    ]
