-- ===== src/Proto/Discard/Stable.antt =====
-- Outside EVS `Discard_packets` frees the cells of the packets that every daemon has.
use in5020_assignment.Prelude.{
  ℕ, zero, suc, ◌+◌, ◌-◌, ◌≤◌, ◌<◌, ◌≡◌, ◌≢◌, inl, inr, refl, ◌==◌, Bool-cases, arith, ok,
  >>=-eq-ok, exit-ne-ok, ok-inj, lt_or_eq, update_self, update_ne, sym, subst, ◌∙◌, ap, ap₂,
}
use in5020_assignment.Proto.{Proto, Slot, entry, slot_at, set_exist, max_packets}
use in5020_assignment.Proto.Deliver.Window.{
  SameWindow, deliver_packet-Delivered, Same-refl, Same-trans, entry-ne,
}
use in5020_assignment.Proto.Discard.{deliver_once, stable_loop, discard_stable, max_of}

-- one round: the packet was there, and its cell is free
record Cleared (i : ℕ) (s t : Proto) : Type 0 where
  window : SameWindow s t
  last_delivered : t.last_delivered ≡ s.last_delivered
  present : (slot_at s i).exist ≢ 0
  free : (slot_at t i).exist ≡ 0
  others : (k : ℕ) → k ≢ entry i → t.packets k ≡ s.packets k

-- a state that differs from `s` only in the cell `k`, if at all
record OnlyCell (k : ℕ) (s t : Proto) : Type 0 where
  window : SameWindow s t
  last_delivered : t.last_delivered ≡ s.last_delivered
  others : (j : ℕ) → j ≢ k → t.packets j ≡ s.packets j

deliver_once-OnlyCell : (k : ℕ) (s t : Proto) → deliver_once k s ≡ ok t → OnlyCell k s t
deliver_once-OnlyCell k s t e = elim (Bool-cases ((s.packets k).exist == 1)) [
  | inl one ↦
      let d = deliver_packet-Delivered k s t (rw one at e) in
      record {
        window = d.window;
        last_delivered = d.last_delivered;
        others = λ j ne. ap (λ (f : ℕ → Slot). f j) d.packets ∙ update_ne s.packets k j _ ne;
      }
  | inr other ↦
      subst (OnlyCell k s) (ok-inj (rw other at e))
        (record { window = Same-refl s; last_delivered = refl; others = λ j ne. refl })
]

Cleared-of_OnlyCell :
    (i : ℕ) (s t : Proto)
    → (slot_at s i).exist ≢ 0
    → OnlyCell (entry i) s t
    → Cleared i s (set_exist (entry i) 0 t)
Cleared-of_OnlyCell i s t there o = record {
  window = record {
    my_aru = o.window.my_aru;
    aru = o.window.aru;
    highest_seq = o.window.highest_seq;
    last_discarded = o.window.last_discarded;
    memb = o.window.memb;
  };
  last_delivered = o.last_delivered;
  present = there;
  free = ap (λ (c : Slot). c.exist) (update_self t.packets (entry i) _);
  others = λ k ne. update_ne t.packets (entry i) k _ ne ∙ o.others k ne;
}

stable_step :
    (n i : ℕ) (s t : Proto)
    → stable_loop (suc n) i s ≡ ok t
    → (u : Proto) × Cleared i s u × (stable_loop n (i + 1) u ≡ ok t)
unfolding stable_loop
stable_step n i s t e = elim (Bool-cases ((slot_at s i).exist == 0)) [
  | inl none_there ↦ absurd (exit-ne-ok (rw none_there at e))
  | inr there ↦
      let (u, d, r) = >>=-eq-ok (deliver_once (entry i) s) _ (rw there at e) in
      (
        set_exist (entry i) 0 u,
        Cleared-of_OnlyCell i s u (λ z. ground arith) (deliver_once-OnlyCell (entry i) s u d),
        r,
      )
]

-- what `n` rounds from the packet `i` on have done
pub record Freed (n i : ℕ) (s t : Proto) : Type 0 where
  pub window : SameWindow s t
  pub last_delivered : t.last_delivered ≡ s.last_delivered
  pub present : (j : ℕ) → i ≤ j → j < i + n → (slot_at s j).exist ≢ 0
  pub free : (j : ℕ) → i ≤ j → j < i + n → (slot_at t j).exist ≡ 0
  pub others : (k : ℕ) → ((j : ℕ) → i ≤ j → j < i + n → k ≢ entry j) → t.packets k ≡ s.packets k

module _ (n i : ℕ) {s u t : Proto} (small : suc n ≤ max_packets) (st : Cleared i s u)
    (rest : Freed n (i + 1) u t) where
  Freed-cons : Freed (suc n) i s t
  Freed-cons = record {
    window = Same-trans st.window rest.window;
    last_delivered = rest.last_delivered ∙ st.last_delivered;
    present = λ j a b. elim (lt_or_eq i j a) [
      | inl less ↦ λ z.
          rest.present j (omega arith) (omega arith)
            (ap (λ (c : Slot). c.exist) (st.others (entry j) (entry-ne i j less (omega arith))) ∙ z)
      | inr same ↦ subst (λ k. (slot_at s k).exist ≢ 0) same st.present
    ];
    free = λ j a b. elim (lt_or_eq i j a) [
      | inl less ↦ rest.free j (omega arith) (omega arith)
      | inr same ↦
          subst (λ k. (slot_at t k).exist ≡ 0) same
            (ap (λ (c : Slot). c.exist)
                (rest.others (entry i)
                  (λ m x y e. entry-ne i m (omega arith) (omega arith) (sym e)))
              ∙ st.free)
    ];
    others = λ k out.
        rest.others k (λ j a b. out j (omega arith) (omega arith))
        ∙ st.others k (out i (omega arith) (omega arith));
  }

stable_loop_zero : (i : ℕ) (s t : Proto) → stable_loop 0 i s ≡ ok t → ok s ≡ ok t
unfolding stable_loop
stable_loop_zero i s t h = h

stable_loop-Freed :
    (n i : ℕ) (s t : Proto) → n ≤ max_packets → stable_loop n i s ≡ ok t → Freed n i s t
stable_loop-Freed zero i s t small h =
    subst (Freed 0 i s) (ok-inj (stable_loop_zero i s t h)) (record {
      window = Same-refl s;
      last_delivered = refl;
      present = λ j a b. absurd (omega arith);
      free = λ j a b. absurd (omega arith);
      others = λ k out. refl;
    })
stable_loop-Freed (suc n) i s t small h =
    let (u, st, r) = stable_step n i s t h in
    Freed-cons n i small st (stable_loop-Freed n (i + 1) u t (omega arith) r)

-- The packets up to `Aru` are gone: they were there, their cells are free, and no other cell changed.
pub record Gone (s t : Proto) : Type 0 where
  pub last_discarded : t.last_discarded ≡ s.aru
  pub last_delivered : t.last_delivered ≡ max_of s.last_delivered s.aru
  pub window :
      (t.my_aru ≡ s.my_aru) × (t.highest_seq ≡ s.highest_seq) × (t.aru ≡ s.aru) × (t.memb ≡ s.memb)
  pub present : (j : ℕ) → s.last_discarded < j → j ≤ s.aru → (slot_at s j).exist ≢ 0
  pub free : (j : ℕ) → s.last_discarded < j → j ≤ s.aru → (slot_at t j).exist ≡ 0
  pub others :
      (k : ℕ)
      → ((j : ℕ) → s.last_discarded < j → j ≤ s.aru → k ≢ entry j)
      → t.packets k ≡ s.packets k

-- `Discard_packets` outside EVS, where it goes through, `Last_discarded` is not past `Aru`, and the
-- packets up to `Aru` fit the array: each of them past `Last_discarded` was there, its cell is
-- free, all other cells are as they were, `Last_discarded` is `Aru`, `Last_delivered` is the larger
-- of what it was and `Aru`, and `Aru`, `My_aru`, `Highest_seq` and the membership stay.
pub discard_stable-Gone :
    (s t : Proto)
    → s.last_discarded ≤ s.aru
    → s.aru ≤ s.last_discarded + max_packets
    → discard_stable s ≡ ok t
    → Gone s t
unfolding discard_stable
discard_stable-Gone s t order room h =
    let (u, d, r) =
      >>=-eq-ok (stable_loop (s.aru - s.last_discarded) (s.last_discarded + 1) s) _ h in
    let f =
      stable_loop-Freed (s.aru - s.last_discarded) (s.last_discarded + 1) s u (omega arith) d in
    subst (Gone s) (ok-inj r) (record {
      last_discarded = f.window.aru;
      window = (f.window.my_aru, f.window.highest_seq, f.window.aru, f.window.memb);
      last_delivered = ap₂ max_of f.last_delivered f.window.aru;
      present = λ j a b. f.present j (omega arith) (omega arith);
      free = λ j a b. f.free j (omega arith) (omega arith);
      others = λ k out. f.others k (λ j a b. out j (omega arith) (omega arith));
    })

stable_loop_total :
    (n i : ℕ) (s : Proto)
    → n ≤ max_packets
    → ((j : ℕ) → i ≤ j → j < i + n → (slot_at s j).exist ≡ 2)
    → (t : Proto) × (stable_loop n i s ≡ ok t) × (t.effects ≡ s.effects) × (t.up_queue ≡ s.up_queue)
unfolding stable_loop
stable_loop_total zero i s small h = (s, refl, refl, refl)
stable_loop_total (suc n) i s small h =
    let here = h i (omega arith) (omega arith) in
    let (t, e, f, u) = stable_loop_total n (i + 1) (set_exist (entry i) 0 s) (omega arith) (λ j a b.
      ap (λ (c : Slot). c.exist)
        (update_ne s.packets (entry i) (entry j) _ (entry-ne i j (omega arith) (omega arith)))
      ∙ h j (omega arith) (omega arith)) in
    (t, rw here e, f, u)

-- If every packet past `Last_discarded` up to `Aru` was delivered already, and these fit the array,
-- discarding does not fault, delivers nothing again, and asks nothing of another component.
pub discard_stable_total :
    (s : Proto)
    → s.last_discarded ≤ s.aru
    → s.aru ≤ s.last_discarded + max_packets
    → ((j : ℕ) → s.last_discarded < j → j ≤ s.aru → (slot_at s j).exist ≡ 2)
    → (t : Proto) × (discard_stable s ≡ ok t) × (t.effects ≡ s.effects) × (t.up_queue ≡ s.up_queue)
unfolding discard_stable
discard_stable_total s order room h =
    let (t, e, f, u) =
      stable_loop_total (s.aru - s.last_discarded) (s.last_discarded + 1) s (omega arith)
        (λ j a b. h j (omega arith) (omega arith)) in
    (
      record t { last_discarded = t.aru; last_delivered = max_of t.last_delivered t.aru },
      rw e,
      f,
      u,
    )
