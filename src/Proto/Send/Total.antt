-- ===== src/Proto/Send/Total.antt =====
-- `Send_new_packets` ends, and stops only when it has sent what it may or nothing waits.
use in5020_assignment.Prelude.{
  ℕ, zero, suc, ◌+◌, ◌-◌, ◌≤◌, ◌<◌, ◌≡◌, ◌⊎◌, inl, inr, refl, Bool, true, false, ltb, if◌then◌else◌,
  Bool-cases, List, [], ◌∷◌, length, All, arith, get_elem?-some, ok, update_ne, sym, subst, ◌∙◌, ap,
  ltb→lt, ltb_false→le, if_same,
}
use in5020_assignment.Net.{Packet, flush_bcast}
use in5020_assignment.Proto.{Proto, Slot, DownLink, entry, max_packets}
use in5020_assignment.Proto.Deliver.Window.{entry-ne}
use in5020_assignment.Proto.Send.{
  send_round, count_sent, send_loop, send_new_packets, total_elements, waiting,
}
use in5020_assignment.Proto.Send.Round.{
  ProperLinks, Proper, Free, Sent, popped, send_fragment_total,
}

total_elements-pos :
    (ds : List DownLink) → All (λ (e : DownLink). 0 < length e.mess) ds → ProperLinks ds 0
total_elements-pos [] a = refl
total_elements-pos (d ∷ ds) a = a

-- A fragment sent leaves one fewer.
popped-waiting :
    (d : DownLink) (ds : List DownLink) (cur : ℕ)
    → ProperLinks (d ∷ ds) cur
    → Proper (popped d ds cur)
      × (waiting (popped d ds cur) + 1 ≡ length d.mess + total_elements ds - cur)
unfolding popped
popped-waiting d ds cur a = elim (Bool-cases (ltb (cur + 1) (length d.mess))) [
  | inl more ↦ rw more ((ltb→lt _ _ more, a.1), omega (arith, ltb→lt _ _ more))
  | inr last ↦ rw last (total_elements-pos ds a.1, omega (arith, ltb_false→le _ _ last, a.0))
]

-- what a run of the loop has done when it stops
pub record Ran (allowed num_sent : ℕ) (s t : Proto) (n : ℕ) : Type 0 where
  pub proper : Proper t.down_queue
  pub numbered : t.highest_seq + waiting t.down_queue ≡ s.highest_seq + waiting s.down_queue
  pub counted : num_sent ≤ n
  pub bounded : (n ≤ allowed) ⊎ (n ≡ num_sent)
  pub finished : (allowed ≤ n) ⊎ (t.down_queue.links ≡ [])

pub send_loop_open :
    (f allowed n : ℕ) (s : Proto) (links : List DownLink)
    → s.down_queue.links ≡ links
    → send_loop (suc f) allowed n s ≡ (
        if ltb n allowed
        then send_round (λ r. send_loop f allowed (count_sent r.1 n) r.0) n s links
        else ok (s, n))
unfolding send_loop
send_loop_open f allowed n s links e = λ i.
    if ltb n allowed
    then send_round (λ r. send_loop f allowed (count_sent r.1 n) r.0) n s (e i)
    else ok (s, n)

Ran-refl :
    (allowed n : ℕ) (s : Proto)
    → Proper s.down_queue
    → (allowed ≤ n) ⊎ (s.down_queue.links ≡ [])
    → Ran allowed n s s n
Ran-refl allowed n s a stop = record {
  proper = a;
  numbered = refl;
  counted = omega arith;
  bounded = inr refl;
  finished = stop;
}

count_sent_bounds :
    (sent : Bool) (n allowed : ℕ)
    → n < allowed
    → (n ≤ count_sent sent n) × (count_sent sent n ≤ allowed)
count_sent_bounds true n allowed h = omega arith
count_sent_bounds false n allowed h = omega arith

module _ (allowed n : ℕ) (d : DownLink) (ds : List DownLink) {s u : Proto} {p : Packet}
    (sent : Bool) (may : n < allowed) (e : s.down_queue.links ≡ d ∷ ds)
    (proper : ProperLinks (d ∷ ds) s.down_queue.cur_element) (st : Sent s u p)
    (q : u.down_queue ≡ popped d ds s.down_queue.cur_element) where
  step_waiting : waiting u.down_queue + 1 ≡ waiting s.down_queue
  step_waiting =
      ap (λ r. waiting r + 1) q
      ∙ (popped-waiting d ds s.down_queue.cur_element proper).1
      ∙ ap (λ l. total_elements l - s.down_queue.cur_element) (sym e)

  step-Proper : Proper u.down_queue
  step-Proper = subst Proper (sym q) (popped-waiting d ds s.down_queue.cur_element proper).0

  step-Free :
      waiting s.down_queue ≤ max_packets
      → Free (waiting s.down_queue) s
      → Free (waiting u.down_queue) u
  step-Free small free j a b =
      ap (λ (f : ℕ → Slot). (f (entry j)).exist) st.packets
      ∙ ap (λ (c : Slot). c.exist)
          (update_ne s.packets (entry (s.highest_seq + 1)) (entry j) _ (
            entry-ne (s.highest_seq + 1) j (omega (arith, st.highest_seq))
              (omega (arith, step_waiting, st.highest_seq))))
      ∙ free j (omega (arith, st.highest_seq)) (omega (arith, step_waiting, st.highest_seq))

  step-Ran : (t : Proto) (m : ℕ) → Ran allowed (count_sent sent n) u t m → Ran allowed n s t m
  step-Ran t m r = record {
    proper = r.proper;
    numbered = omega (arith, r.numbered, step_waiting, st.highest_seq);
    counted = omega (arith, r.counted, count_sent_bounds sent n allowed may);
    bounded = elim r.bounded [
      | inl x ↦ inl x
      | inr x ↦ inl (omega (arith, x, count_sent_bounds sent n allowed may))
    ];
    finished = r.finished;
  }

send_loop_total :
    (f allowed num_sent : ℕ) (s : Proto) (links : List DownLink)
    → s.down_queue.links ≡ links
    → waiting s.down_queue < f
    → waiting s.down_queue ≤ max_packets
    → ProperLinks links s.down_queue.cur_element
    → Free (waiting s.down_queue) s
    → (t : Proto) × (n : ℕ) × (send_loop f allowed num_sent s ≡ ok (t, n))
      × Ran allowed num_sent s t n
send_loop_total zero allowed num_sent s links e fuel small a free = absurd (omega arith)
send_loop_total (suc f) allowed num_sent s [] e fuel small a free = (
  s,
  num_sent,
  send_loop_open f allowed num_sent s [] e ∙ if_same (ltb num_sent allowed) (ok (s, num_sent)),
  Ran-refl allowed num_sent s (subst (λ l. ProperLinks l s.down_queue.cur_element) (sym e) a)
      (inr e),
)
send_loop_total (suc f) allowed num_sent s (d ∷ ds) e fuel small a free =
    elim (Bool-cases (ltb num_sent allowed)) [
      | inr full ↦ (
        s,
        num_sent,
        send_loop_open f allowed num_sent s (d ∷ ds) e ∙ rw full,
        Ran-refl allowed num_sent s (subst (λ l. ProperLinks l s.down_queue.cur_element) (sym e) a)
            (inl (ltb_false→le _ _ full)),
      )
      | inl may ↦
          let (body, at) = get_elem?-some d.mess s.down_queue.cur_element a.0 in
          let some_wait : 0 < waiting s.down_queue =
            subst (λ l. 0 < total_elements l - s.down_queue.cur_element) (sym e)
              (omega (arith, a.0)) in
          let (u, sent, sends, st, q) =
            send_fragment_total d ds s body at
              (free (s.highest_seq + 1) (omega arith) (omega arith)) in
          let fewer = step_waiting allowed num_sent d ds sent (ltb→lt _ _ may) e a st q in
          let proper = step-Proper allowed num_sent d ds sent (ltb→lt _ _ may) e a st q in
          let (t, m, runs, ran) =
            send_loop_total f allowed (count_sent sent num_sent) u u.down_queue.links refl
              (omega (arith, fewer)) (omega (arith, fewer)) proper
              (step-Free allowed num_sent d ds sent (ltb→lt _ _ may) e a st q small free) in
          (
            t,
            m,
            send_loop_open f allowed num_sent s (d ∷ ds) e ∙ rw (may, sends) runs,
            step-Ran allowed num_sent d ds sent (ltb→lt _ _ may) e a st q t m ran,
          )
    ]

-- `Send_new_packets` goes through where every queued message has an element and the cells of the next
-- sequence numbers, as many as there are fragments, are free and distinct. Each fragment sent takes
-- one sequence number, and the loop stops only with `num_allowed` sends counted or nothing waiting;
-- it counts at most one more, the last flush.
pub send_new_packets_total :
    (num_allowed : ℕ) (s : Proto)
    → Proper s.down_queue
    → waiting s.down_queue ≤ max_packets
    → Free (waiting s.down_queue) s
    → (t : Proto) × (n : ℕ) × (send_new_packets num_allowed s ≡ ok (t, n))
      × (t.highest_seq + waiting t.down_queue ≡ s.highest_seq + waiting s.down_queue)
      × (n ≤ num_allowed + 1)
      × ((num_allowed ≤ n) ⊎ (t.down_queue.links ≡ []))
unfolding send_new_packets
send_new_packets_total num_allowed s proper small free =
    let (t, n, e, r) =
      send_loop_total (waiting s.down_queue + 1) num_allowed 0 s s.down_queue.links refl
        (omega arith) small proper free in
    let last = (flush_bcast t.net).1 in
    (
      record t { net = (flush_bcast t.net).0 },
      count_sent last n,
      rw e,
      r.numbered,
      at_most last n (elim r.bounded [ inl x ↦ x | inr x ↦ omega (arith, x) ]),
      elim r.finished [ inl x ↦ inl (at_least last n x) | inr x ↦ inr x ],
    )
  where
    at_most : (b : Bool) (n : ℕ) → n ≤ num_allowed → count_sent b n ≤ num_allowed + 1
    at_most true n h = omega arith
    at_most false n h = omega arith

    at_least : (b : Bool) (n : ℕ) → num_allowed ≤ n → num_allowed ≤ count_sent b n
    at_least true n h = omega arith
    at_least false n h = omega arith
