-- ===== src/Proto/Token/Discarded.antt =====
-- What the discarding and delivering after a visit do to the window of packets.
use in5020_assignment.Prelude.{
  ℕ, ◌+◌, ◌-◌, ◌≤◌, ◌<◌, ◌≡◌, inl, inr, false, leb, ltb, if-split, Bool-cases, arith, ok, >>=-eq-ok,
  ok-inj, sym, subst, ◌∙◌, ap,
}
use in5020_assignment.Events.Clock.{SpTime}
use in5020_assignment.Memb.{Memb, is_evs}
use in5020_assignment.Proto.{Proto, Slot, entry, slot_at, max_packets, in_evs}
use in5020_assignment.Proto.Discard.{discard_packets}
use in5020_assignment.Proto.Discard.Stable.{Gone, discard_stable-Gone}
use in5020_assignment.Proto.Deliver.{deliver_agreed_packets, deliver_reliable_packets}
use in5020_assignment.Proto.Deliver.Window.{entry-ne}
use in5020_assignment.Proto.Deliver.Cells.{deliver_agreed-SameCells, deliver_reliable-SameCells}
use in5020_assignment.Proto.Receive.Window.{InOrder}
use in5020_assignment.Proto.Token.{deliver_after}
use in5020_assignment.Proto.Token.Window.{Onward, Onward-refl, Onward-trans, Onward-of_SameCells}

-- Discarding moves the window over the cells that it frees.
discard_stable-Onward :
    (s t : Proto)
    → InOrder s
    → s.highest_seq ≤ s.last_discarded + max_packets
    → Gone s t
    → Onward s t
discard_stable-Onward s t w room g =
    let (m, h, a, b) = g.window in
    let kept : (q : ℕ)
        → s.aru < q
        → q ≤ s.last_discarded + max_packets
        → t.packets (entry q) ≡ s.packets (entry q) =
      λ q x y. g.others (entry q) (λ j u v. entry-ne j q (omega arith) (omega arith)) in
    record {
      in_order = record {
        discarded = omega (arith, g.last_discarded, a);
        stable = omega (arith, a, m, w.stable);
        highest = omega (arith, m, h, w.highest);
        there = λ q x y z.
            w.there q (omega (arith, g.last_discarded, w.discarded)) (omega (arith, m)) (
              sym (
                ap (λ (c : Slot). c.exist)
                  (kept q (omega (arith, g.last_discarded)) (omega (arith, m, w.highest, room))))
              ∙ z);
        exact = elim w.exact [
          | inl end ↦ inl (omega (arith, end, m, h))
          | inr gone ↦ elim (Bool-cases (ltb s.my_aru s.highest_seq)) [
            | inl less ↦ inr (
                subst (λ k. (slot_at t (k + 1)).exist ≡ 0) (sym m)
                  (ap (λ (c : Slot). c.exist)
                      (kept (s.my_aru + 1) (omega (arith, w.stable)) (ground (arith, room)))
                    ∙ gone))
            | inr all ↦ inl (ground (arith, m, h, w.highest))
          ]
        ];
        free = λ q x y. elim (Bool-cases (leb q (s.last_discarded + max_packets))) [
          | inl near ↦
              ap (λ (c : Slot). c.exist)
                (kept q (omega (arith, h, w.stable, w.highest)) (ground arith))
              ∙ w.free q (omega (arith, h)) (ground arith)
          | inr far ↦
              let back : entry (q - max_packets) ≡ entry q = ground arith in
              subst (λ k. (t.packets k).exist ≡ 0) back
                (g.free (q - max_packets) (ground arith) (omega (arith, g.last_discarded)))
        ];
      };
      my_aru = m;
      highest_seq = h;
      forward = omega (arith, g.last_discarded, w.discarded);
      memb = b;
    }

discard_packets-Onward :
    (lookup_timeout : SpTime) (s t : Proto)
    → in_evs s ≡ false
    → InOrder s
    → s.highest_seq ≤ s.last_discarded + max_packets
    → discard_packets lookup_timeout s ≡ ok t
    → Onward s t
unfolding discard_packets
discard_packets-Onward lookup_timeout s t calm w room h =
    elim (if-split (leb s.aru s.last_discarded) h) [
      | inl none_new ↦ subst (Onward s) (ok-inj none_new) (Onward-refl w)
      | inr some_new ↦ discard_stable-Onward s t w room (
          discard_stable-Gone s t w.discarded (omega (arith, w.stable, w.highest))
            (rw calm at some_new))
    ]

pub deliver_after-Onward :
    (lookup_timeout : SpTime) (n : ℕ) (s t : Proto)
    → in_evs s ≡ false
    → InOrder s
    → s.highest_seq ≤ s.last_discarded + max_packets
    → deliver_after lookup_timeout n s ≡ ok t
    → Onward s t
unfolding deliver_after
deliver_after-Onward lookup_timeout n s t calm w room h =
    let (s1, one, h1) = >>=-eq-ok (discard_packets lookup_timeout s) _ h in
    let (s2, two, h2) = >>=-eq-ok (deliver_agreed_packets s1) _ h1 in
    let (s3, three, h3) = >>=-eq-ok (deliver_reliable_packets _ n s2) _ h2 in
    let a = discard_packets-Onward lookup_timeout s s1 calm w room one in
    let b = Onward-of_SameCells a.in_order (deliver_agreed-SameCells s1 s2 two) in
    let c = Onward-of_SameCells b.in_order (deliver_reliable-SameCells _ n s2 s3 three) in
    let all = Onward-trans a (Onward-trans b c) in
    let still_calm : in_evs s3 ≡ false = ap (λ (m : Memb). is_evs m.state) all.memb ∙ calm in
    subst (Onward s) (ok-inj (rw still_calm at h3)) all
