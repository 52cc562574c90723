-- ===== src/Proto/Receive/InOrder.antt =====
-- `Prot_handle_bcast` keeps the window of packets in order.
use in5020_assignment.Prelude.{
  ℕ, ◌+◌, ◌-◌, ◌≤◌, ◌<◌, ◌≡◌, inl, inr, refl, not, ◌==◌, leb, ltb, Bool-cases, arith, ok, >>=-eq-ok,
  pos, sym, subst, ◌∙◌, ap, ==_iff, ok-inj, List, [], ◌∷◌, All, none, Option-cases, update,
  update_self, update_ne,
}
use in5020_assignment.Net.{Packet}
use in5020_assignment.Conf.{proc_by_id}
use in5020_assignment.Proto.{Proto, Slot, entry, slot_at, put_slot, max_packets}
use in5020_assignment.Proto.Deliver.Cells.{
  SameCells, deliver_agreed-SameCells, deliver_reliable-SameCells,
}
use in5020_assignment.Proto.Receive.Window.{
  InOrder, InOrder-of_SameCells, advance-Advanced, insert-Inserted, InOrder-gap, InOrder-fill,
}
use in5020_assignment.Proto.Receive.{insert, after_insert, take_packet, take_packets}

-- the window after packets, by the window before
pub record Taken (s t : Proto) : Type 0 where
  pub in_order : InOrder t
  pub forward : s.my_aru ≤ t.my_aru
  pub last_discarded : t.last_discarded ≡ s.last_discarded
  pub aru : t.aru ≡ s.aru

pub Taken-refl : {s : Proto} → InOrder s → Taken s s
Taken-refl w = record { in_order = w; forward = omega arith; last_discarded = refl; aru = refl }

pub Taken-of_SameCells : {s t : Proto} → InOrder s → SameCells s t → Taken s t
Taken-of_SameCells w c = record {
  in_order = InOrder-of_SameCells c w;
  forward = omega (arith, c.window.my_aru);
  last_discarded = c.window.last_discarded;
  aru = c.window.aru;
}

pub Taken-trans : {s t u : Proto} → Taken s t → Taken t u → Taken s u
Taken-trans a b = record {
  in_order = b.in_order;
  forward = omega (arith, a.forward, b.forward);
  last_discarded = b.last_discarded ∙ a.last_discarded;
  aru = b.aru ∙ a.aru;
}

-- A packet of number `n`, new to the window, on a state in order.
after_insert-InOrder :
    (p : Packet) (index : ℕ) (s t : Proto)
    → InOrder s
    → s.aru < p.head.seq
    → p.head.seq ≤ s.last_discarded + max_packets
    → (slot_at s p.head.seq).exist ≡ 0
    → after_insert p.head.seq (insert p index s) ≡ ok t
    → Taken s t
unfolding after_insert
after_insert-InOrder p index s t w low near gone h =
    let n = p.head.seq in
    let u = insert p index s in
    let v = insert-Inserted p index s in
    let past : s.my_aru < n = elim (Bool-cases (ltb s.my_aru n)) [
      | inl x ↦ ground arith
      | inr x ↦ absurd (w.there n (omega (arith, w.discarded)) (ground arith) gone)
    ] in
    elim (Bool-cases (n == u.my_aru + 1)) [
      | inl next ↦
          let d = advance-Advanced (u.highest_seq + 1 - n) n u ((==_iff _ _).0 next) in
          let c = deliver_agreed-SameCells _ t (rw next at h) in
          record {
            in_order =
                InOrder-of_SameCells c
                  (InOrder-fill n s u w v _ (omega (arith, (==_iff _ _).0 next, v.my_aru)) d);
            forward = omega (arith, c.window.my_aru, d.forward, v.my_aru);
            last_discarded =
                c.window.last_discarded
                ∙ ap (λ (z : Proto). z.last_discarded) d.only
                ∙ v.last_discarded;
            aru = c.window.aru ∙ ap (λ (z : Proto). z.aru) d.only ∙ v.aru;
          }
      | inr ahead ↦
          let c = deliver_reliable-SameCells (pos n) 1 u t (rw ahead at h) in
          record {
            in_order =
                InOrder-of_SameCells c (InOrder-gap n s u w v (ground (arith, v.my_aru)) near);
            forward = omega (arith, c.window.my_aru, v.my_aru);
            last_discarded = c.window.last_discarded ∙ v.last_discarded;
            aru = c.window.aru ∙ v.aru;
          }
    ]

-- An empty cell whose daemon is not known is only marked.
mark-SameCells :
    (n : ℕ) (s : Proto)
    → SameCells s (put_slot (entry n) (record (slot_at s n) { proc_index = none }) s)
mark-SameCells n s =
    let c : Slot = record (slot_at s n) { proc_index = none } in
    let same : (k : ℕ) → (update s.packets (entry n) c k).exist ≡ (s.packets k).exist = λ k.
      elim (Bool-cases (k == entry n)) [
        | inl here ↦
            subst (λ m. (update s.packets (entry n) c m).exist ≡ (s.packets m).exist)
              (sym ((==_iff _ _).0 here))
              (ap (λ (c : Slot). c.exist) (update_self s.packets (entry n) c))
        | inr there ↦ ap (λ (c : Slot). c.exist) (update_ne s.packets (entry n) k c (ground arith))
      ] in
    record {
      window = record {
        my_aru = refl;
        aru = refl;
        highest_seq = refl;
        last_discarded = refl;
        memb = refl;
      };
      empty = λ k h. same k ∙ h;
      full = λ k h z. h (sym (same k) ∙ z);
    }

take_packet-Taken :
    (p : Packet) (s t : Proto)
    → InOrder s
    → p.head.seq ≤ s.last_discarded + max_packets
    → take_packet p s ≡ ok t
    → Taken s t
unfolding take_packet
take_packet-Taken p s t w near h = elim (Bool-cases (leb p.head.seq s.aru)) [
  | inl old ↦ subst (Taken s) (ok-inj (rw old at h)) (Taken-refl w)
  | inr new ↦ elim (Bool-cases (not ((slot_at s p.head.seq).exist == 0))) [
    | inl again ↦ subst (Taken s) (ok-inj (rw (new, again) at h)) (Taken-refl w)
    | inr first ↦ elim (Option-cases (proc_by_id s.procs p.head.proc_id)) [
      | inl unknown ↦
          subst (Taken s) (ok-inj (rw (new, first, unknown) at h))
            (Taken-of_SameCells w (mark-SameCells p.head.seq s))
      | inr ((index, q), known) ↦
          after_insert-InOrder p index s t w (ground arith) near (ground arith)
            (rw (new, first, known) at h)
    ]
  ]
]

-- Packets of a datagram, taken in one after another: if each number lies within one turn of the array
-- past `Last_discarded`, a window in order stays so. `My_aru` never goes back, and `Aru` and
-- `Last_discarded` do not move.
pub take_packets-InOrder :
    (ps : List Packet) (s t : Proto)
    → InOrder s
    → All (λ (p : Packet). p.head.seq ≤ s.last_discarded + max_packets) ps
    → take_packets ps s ≡ ok t
    → Taken s t
unfolding take_packets
take_packets-InOrder [] s t w near h = subst (Taken s) (ok-inj h) (Taken-refl w)
take_packets-InOrder (p ∷ ps) s t w near h =
    let (u, one, rest) = >>=-eq-ok (take_packet p s) _ h in
    let a = take_packet-Taken p s u w near.0 one in
    Taken-trans a (
      take_packets-InOrder ps u t a.in_order
        (subst (λ m. All (λ (p : Packet). p.head.seq ≤ m + max_packets) ps) (sym a.last_discarded)
          near.1)
        rest)
