-- ===== src/Proto/Deliver/Cells.antt =====
-- Delivery marks packets and neither makes one nor takes one away: an empty cell stays empty, an
-- occupied one stays occupied, and the counters of the window stay.
use in5020_assignment.Prelude.{
  ℕ, zero, suc, ◌+◌, ◌≡◌, ◌≢◌, inl, inr, true, ◌==◌, leb, Bool-cases, arith, ok, >>=-eq-ok, update,
  update_self, update_ne, ℤ, sym, subst, ◌∙◌, ap, ==_iff, exit-ne-ok, ok-inj, ◌&&◌,
}
use in5020_assignment.Wire.{is_safe}
use in5020_assignment.Proto.{Proto, Slot, entry, slot_at, in_evs}
use in5020_assignment.Proto.Deliver.Window.{
  SameWindow, Delivered, deliver_packet-Delivered, Same-refl, Same-trans,
}
use in5020_assignment.Proto.Deliver.{
  deliver_packet, agreed_loop, deliver_agreed_packets, reliable_loop, deliver_reliable_packets,
  is_single,
}

pub record SameCells (s t : Proto) : Type 0 where
  pub window : SameWindow s t
  pub empty : (k : ℕ) → (s.packets k).exist ≡ 0 → (t.packets k).exist ≡ 0
  pub full : (k : ℕ) → (s.packets k).exist ≢ 0 → (t.packets k).exist ≢ 0

pub SameCells-refl : (s : Proto) → SameCells s s
SameCells-refl s = record { window = Same-refl s; empty = λ k h. h; full = λ k h. h }

pub SameCells-trans : {s t u : Proto} → SameCells s t → SameCells t u → SameCells s u
SameCells-trans a b = record {
  window = Same-trans a.window b.window;
  empty = λ k h. b.empty k (a.empty k h);
  full = λ k h. b.full k (a.full k h);
}

at_cell : {s t : Proto} (k j : ℕ) → Delivered k s t → j ≡ k → (t.packets j).exist ≡ 2
at_cell {s} k j d e =
    ap (λ (f : ℕ → Slot). (f j).exist) d.packets
    ∙ subst (λ m. (update s.packets k (record (s.packets k) { exist = 2 }) m).exist ≡ 2) (sym e)
        (ap (λ (c : Slot). c.exist) (update_self s.packets k _))

off_cell : {s t : Proto} (k j : ℕ) → Delivered k s t → j ≢ k → t.packets j ≡ s.packets j
off_cell {s} k j d ne = ap (λ (f : ℕ → Slot). f j) d.packets ∙ update_ne s.packets k j _ ne

Delivered-SameCells :
    {s t : Proto} (k : ℕ) → (s.packets k).exist ≢ 0 → Delivered k s t → SameCells s t
Delivered-SameCells {s} {t} k there d = record {
  window = d.window;
  empty = λ j h. elim (Bool-cases (j == k)) [
    | inl e ↦ absurd (there (subst (λ m. (s.packets m).exist ≡ 0) ((==_iff _ _).0 e) h))
    | inr ne ↦ ap (λ (c : Slot). c.exist) (off_cell k j d (ground arith)) ∙ h
  ];
  full = λ j h. elim (Bool-cases (j == k)) [
    | inl e ↦ λ z. omega (arith, at_cell k j d ((==_iff _ _).0 e), z)
    | inr ne ↦ λ z. h (sym (ap (λ (c : Slot). c.exist) (off_cell k j d (ground arith))) ∙ z)
  ];
}

-- a cell that holds a packet that was not delivered
occupied : (c : Slot) → (c.exist == 1) ≡ true → c.exist ≢ 0
occupied c h z = ground arith

reliable_loop-SameCells : (n i : ℕ) (s t : Proto) → reliable_loop n i s ≡ ok t → SameCells s t
unfolding reliable_loop
reliable_loop-SameCells zero i s t h = subst (SameCells s) (ok-inj h) (SameCells-refl s)
reliable_loop-SameCells (suc n) i s t h =
    elim (Bool-cases ((slot_at s i).exist == 1 && is_single (slot_at s i).packet.head)) [
      | inl takes ↦
          let (u, d, r) = >>=-eq-ok (deliver_packet (entry i) s) _ (rw takes at h) in
          SameCells-trans
            (Delivered-SameCells (entry i) (occupied (slot_at s i) (ground arith))
              (deliver_packet-Delivered (entry i) s u d))
            (reliable_loop-SameCells n (i + 1) u t r)
      | inr passes ↦ reliable_loop-SameCells n (i + 1) s t (rw passes at h)
    ]

pub deliver_reliable-SameCells :
    (start_seq : ℤ) (n : ℕ) (s t : Proto)
    → deliver_reliable_packets start_seq n s ≡ ok t
    → SameCells s t
unfolding deliver_reliable_packets
deliver_reliable-SameCells start_seq n s t h = elim (Bool-cases (in_evs s)) [
  | inl evs ↦ subst (SameCells s) (ok-inj (rw evs at h)) (SameCells-refl s)
  | inr calm ↦ reliable_loop-SameCells _ _ s t (rw calm at h)
]

-- A round of the loop that counts a delivered packet.
count-SameCells :
    (s t : Proto) → SameCells (record s { last_delivered = s.last_delivered + 1 }) t → SameCells s t
count-SameCells s t c = record {
  window = record {
    my_aru = c.window.my_aru;
    aru = c.window.aru;
    highest_seq = c.window.highest_seq;
    last_discarded = c.window.last_discarded;
    memb = c.window.memb;
  };
  empty = c.empty;
  full = c.full;
}

agreed_loop-SameCells : (n i : ℕ) (s t : Proto) → agreed_loop n i s ≡ ok t → SameCells s t
unfolding agreed_loop
agreed_loop-SameCells zero i s t h = subst (SameCells s) (ok-inj h) (SameCells-refl s)
agreed_loop-SameCells (suc n) i s t h = elim (Bool-cases ((slot_at s i).exist == 1)) [
  | inl one ↦ elim (Bool-cases (is_safe (slot_at s i).packet.head.type)) [
    | inl safe ↦ subst (SameCells s) (ok-inj (rw (one, safe) at h)) (SameCells-refl s)
    | inr unsafe ↦
        let (u, d, r) = >>=-eq-ok (deliver_packet (entry i) s) _ (rw (one, unsafe) at h) in
        SameCells-trans
          (Delivered-SameCells (entry i) (occupied (slot_at s i) one)
            (deliver_packet-Delivered (entry i) s u d))
          (count-SameCells u t (agreed_loop-SameCells n (i + 1) _ t r))
  ]
  | inr other ↦ elim (Bool-cases ((slot_at s i).exist == 2)) [
    | inl two ↦ count-SameCells s t (agreed_loop-SameCells n (i + 1) _ t (rw (other, two) at h))
    | inr empty ↦ absurd (exit-ne-ok (rw (other, empty) at h))
  ]
]

pub deliver_agreed-SameCells : (s t : Proto) → deliver_agreed_packets s ≡ ok t → SameCells s t
unfolding deliver_agreed_packets
deliver_agreed-SameCells s t h = elim (Bool-cases (leb s.my_aru s.last_delivered)) [
  | inl none_left ↦ subst (SameCells s) (ok-inj (rw none_left at h)) (SameCells-refl s)
  | inr some_left ↦ elim (Bool-cases (in_evs s)) [
    | inl evs ↦ subst (SameCells s) (ok-inj (rw (some_left, evs) at h)) (SameCells-refl s)
    | inr calm ↦ agreed_loop-SameCells _ _ s t (rw (some_left, calm) at h)
  ]
]
