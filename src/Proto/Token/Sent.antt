-- ===== src/Proto/Token/Sent.antt =====
-- What the packets that a daemon sends on a visit do to the window.
use in5020_assignment.Prelude.{
  ℕ, zero, suc, ◌+◌, ◌≤◌, ◌<◌, ◌≡◌, ◌≢◌, inl, inr, refl, Bool, ◌==◌, ltb, if-split, Bool-cases,
  Option-cases, List, [], ◌∷◌, length, get_elem?, arith, Faultable, ok, >>=-eq-ok, exit-ne-ok,
  ok-inj, update, update_self, update_ne, sym, subst, ◌∙◌, ap, ==_iff,
}
use in5020_assignment.Net.{Net, Packet, queue_bcast, written}
use in5020_assignment.Proto.{Proto, Slot, DownLink, entry, slot_at, max_packets, water_mark}
use in5020_assignment.Proto.Deliver.Window.{entry-ne}
use in5020_assignment.Proto.Send.Round.{written-AsWritten}
use in5020_assignment.Proto.Send.{
  pop_fragment, stored, send_packet, send_fragment, send_loop, count_sent, send_round,
  send_new_packets, waiting,
}

-- The window while packets are sent: every packet past `Last_discarded` up to `My_aru` is there, and
-- the cells past `Highest_seq` are free.
pub record Loose (s : Proto) : Type 0 where
  pub discarded : s.last_discarded ≤ s.my_aru
  pub highest : s.my_aru ≤ s.highest_seq
  pub there : (q : ℕ) → s.last_discarded < q → q ≤ s.my_aru → (slot_at s q).exist ≢ 0
  pub free :
      (q : ℕ) → s.highest_seq < q → q ≤ s.last_discarded + max_packets → (slot_at s q).exist ≡ 0

pub record Extended (s t : Proto) : Type 0 where
  pub my_aru : t.my_aru ≡ s.my_aru
  pub aru : t.aru ≡ s.aru
  pub last_discarded : t.last_discarded ≡ s.last_discarded
  pub memb : t.memb ≡ s.memb
  pub last_token : t.last_token ≡ s.last_token
  pub raised : s.highest_seq ≤ t.highest_seq
  pub loose : Loose s → Loose t

Extended-refl : (s : Proto) → Extended s s
Extended-refl s = record {
  my_aru = refl;
  aru = refl;
  last_discarded = refl;
  memb = refl;
  last_token = refl;
  raised = omega arith;
  loose = λ w. w;
}

Extended-trans : {s t u : Proto} → Extended s t → Extended t u → Extended s u
Extended-trans a b = record {
  my_aru = b.my_aru ∙ a.my_aru;
  aru = b.aru ∙ a.aru;
  last_discarded = b.last_discarded ∙ a.last_discarded;
  memb = b.memb ∙ a.memb;
  last_token = b.last_token ∙ a.last_token;
  raised = omega (arith, a.raised, b.raised);
  loose = λ w. b.loose (a.loose w);
}

pub Loose-rebuild :
    {s t : Proto}
    → t.my_aru ≡ s.my_aru
    → t.last_discarded ≡ s.last_discarded
    → s.highest_seq ≤ t.highest_seq
    → ((q : ℕ) → (slot_at t q).exist ≡ (slot_at s q).exist)
    → Loose s
    → Loose t
Loose-rebuild {s} {t} m d h p w = record {
  discarded = omega (arith, m, d, w.discarded);
  highest = omega (arith, m, h, w.highest);
  there = λ q a b z. w.there q (omega (arith, d)) (omega (arith, m)) (sym (p q) ∙ z);
  free = λ q a b. p q ∙ w.free q (omega (arith, h)) (omega (arith, d));
}

pop_fragment-Extended :
    (d : DownLink) (ds : List DownLink) (cur : ℕ) (s : Proto)
    → Extended s (pop_fragment d ds cur s) × ((pop_fragment d ds cur s).highest_seq ≡ s.highest_seq)
unfolding pop_fragment
pop_fragment-Extended d ds cur s = elim (Bool-cases (ltb (cur + 1) (length d.mess))) [
  | inl more ↦ rw more (same refl refl refl refl refl (omega arith) refl, refl)
  | inr last ↦ elim (Bool-cases (ltb (length ds) water_mark)) [
    | inl low ↦ rw (last, low) (same refl refl refl refl refl (omega arith) refl, refl)
    | inr high ↦ rw (last, high) (same refl refl refl refl refl (omega arith) refl, refl)
  ]
]
  where
    same :
        {t : Proto}
        → t.my_aru ≡ s.my_aru
        → t.aru ≡ s.aru
        → t.last_discarded ≡ s.last_discarded
        → t.memb ≡ s.memb
        → t.last_token ≡ s.last_token
        → s.highest_seq ≤ t.highest_seq
        → t.packets ≡ s.packets
        → Extended s t
    same a b c d e f g = record {
      my_aru = a;
      aru = b;
      last_discarded = c;
      memb = d;
      last_token = e;
      raised = f;
      loose = Loose-rebuild a c f (λ q. ap (λ (x : ℕ → Slot). (x (entry q)).exist) g);
    }

-- The next number's cell is taken.
stored-Loose :
    (p : Packet) (net' : Net) (s : Proto)
    → p.head.seq ≡ s.highest_seq + 1
    → Loose s
    → Loose (stored p net' s)
stored-Loose p net' s e w =
    let k = entry p.head.seq in
    let c : Slot = record { packet = p; exist = 1; proc_index = s.my_index } in
    record {
      discarded = w.discarded;
      highest = omega (arith, w.highest);
      there = λ q a b z. elim (Bool-cases (entry q == k)) [
        | inl here ↦ omega (
          arith,
          z,
          subst (λ m. (update s.packets k c m).exist ≡ 1) (sym ((==_iff _ _).0 here))
              (ap (λ (x : Slot). x.exist) (update_self s.packets k c)),
        )
        | inr other ↦ w.there q a b (
            sym (ap (λ (x : Slot). x.exist) (update_ne s.packets k (entry q) c (ground arith))) ∙ z)
      ];
      free = λ q a b.
          ap (λ (x : Slot). x.exist)
            (update_ne s.packets k (entry q) c
              (entry-ne p.head.seq q (omega (arith, e)) (omega (arith, e, w.discarded, w.highest))))
          ∙ w.free q (omega arith) b;
    }

send_packet-Extended :
    (p : Packet) (s t : Proto) (b : Bool)
    → p.head.seq ≡ s.highest_seq + 1
    → send_packet p s ≡ ok (t, b)
    → Extended s t × (t.highest_seq ≡ s.highest_seq + 1)
unfolding send_packet
send_packet-Extended p s t b e h = elim (if-split ((slot_at s p.head.seq).exist == 0) h) [
  | inl done ↦
      subst (λ (z : Proto × Bool). Extended s z.0 × (z.0.highest_seq ≡ s.highest_seq + 1))
        (ok-inj done)
        (
          record {
            my_aru = refl;
            aru = refl;
            last_discarded = refl;
            memb = refl;
            last_token = refl;
            raised = omega arith;
            loose =
                stored-Loose (written s.my.id s.cn.hash_code p s.net)
                  (queue_bcast s.my.id s.cn.hash_code p s.net).0 s
                  ((written-AsWritten s.my.id s.cn.hash_code p s.net).seq ∙ e);
          },
          refl,
        )
  | inr taken ↦ absurd (exit-ne-ok taken)
]

send_fragment-Extended :
    (d : DownLink) (ds : List DownLink) (s t : Proto) (b : Bool)
    → send_fragment d ds s ≡ ok (t, b)
    → Extended s t × (t.highest_seq ≡ s.highest_seq + 1)
unfolding send_fragment
send_fragment-Extended d ds s t b h =
    elim (Option-cases (get_elem? d.mess s.down_queue.cur_element)) [
      | inl out ↦ absurd (exit-ne-ok (rw (send_fragment, out) at h))
      | inr (body, found) ↦
          let popped = pop_fragment-Extended d ds s.down_queue.cur_element s in
          let put =
            send_packet-Extended _ _ t b (omega (arith, popped.1))
              (rw (send_fragment, found) at h) in
          (Extended-trans popped.0 put.0, omega (arith, popped.1, put.1))
    ]

send_round-Extended :
    (again : Proto × Bool → Faultable (Proto × ℕ)) (f n : ℕ) (s : Proto) (links : List DownLink)
    (t : Proto) (m : ℕ)
    → ((r : Proto × Bool)
        → again r ≡ ok (t, m)
        → Extended r.0 t × (t.highest_seq < r.0.highest_seq + f))
    → send_round again n s links ≡ ok (t, m)
    → Extended s t × (t.highest_seq < s.highest_seq + suc f)
send_round-Extended again f n s [] t m rest h =
    subst (λ (z : Proto × ℕ). Extended s z.0 × (z.0.highest_seq < s.highest_seq + suc f)) (ok-inj h)
      (Extended-refl s, omega arith)
send_round-Extended again f n s (d ∷ ds) t m rest h =
    let (r, one, more) = >>=-eq-ok (send_fragment d ds s) again h in
    let put = send_fragment-Extended d ds s r.0 r.1 one in
    let later = rest r more in (Extended-trans put.0 later.0, omega (arith, put.1, later.1))

send_loop-Extended :
    (f allowed n : ℕ) (s t : Proto) (m : ℕ)
    → send_loop f allowed n s ≡ ok (t, m)
    → Extended s t × (t.highest_seq < s.highest_seq + f)
unfolding send_loop
send_loop-Extended zero allowed n s t m h = absurd (exit-ne-ok h)
send_loop-Extended (suc f) allowed n s t m h = elim (if-split (ltb n allowed) h) [
  | inl goes ↦
      send_round-Extended _ f n s s.down_queue.links t m
        (λ r. send_loop-Extended f allowed (count_sent r.1 n) r.0 t m) goes
  | inr stops ↦
      subst (λ (z : Proto × ℕ). Extended s z.0 × (z.0.highest_seq < s.highest_seq + suc f))
        (ok-inj stops) (Extended-refl s, omega arith)
]

net-Extended : {s t : Proto} (n : Net) → Extended s t → Extended s (record t { net = n })
net-Extended n x = record {
  my_aru = x.my_aru;
  aru = x.aru;
  last_discarded = x.last_discarded;
  memb = x.memb;
  last_token = x.last_token;
  raised = x.raised;
  loose = λ w. Loose-rebuild refl refl (omega arith) (λ q. refl) (x.loose w);
}

pub send_new_packets-Extended :
    (allowed : ℕ) (s t : Proto) (m : ℕ)
    → send_new_packets allowed s ≡ ok (t, m)
    → Extended s t × (t.highest_seq ≤ s.highest_seq + waiting s.down_queue)
unfolding send_new_packets
send_new_packets-Extended allowed s t m h =
    let f = waiting s.down_queue + 1 in
    let (r, sent, rest) = >>=-eq-ok (send_loop f allowed 0 s) _ h in
    let x = send_loop-Extended f allowed 0 s r.0 r.1 sent in
    subst
      (λ (z : Proto × ℕ). Extended s z.0 × (z.0.highest_seq ≤ s.highest_seq + waiting s.down_queue))
      (ok-inj rest) (net-Extended _ x.0, omega (arith, x.1))
