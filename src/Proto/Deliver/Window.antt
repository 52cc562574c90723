-- ===== src/Proto/Deliver/Window.antt =====
-- What one delivery changes: its cell, the up queue and the calls; no counter and no other cell.
use in5020_assignment.Prelude.{
  ℕ, ◌+◌, ◌<◌, ◌≡◌, ◌≢◌, ◌⊎◌, inl, inr, refl, ◌==◌, Bool-cases, arith, ok, exit, length, pos, ltb_ℤ,
  Option-cases, sym, subst, ◌∙◌, exit-ne-ok, ok-inj,
}
use in5020_assignment.Proto.{Proto, entry, set_exist, max_packets}
use in5020_assignment.Proto.Deliver.{chain, up_index, started, abs_index, deliver_packet}

-- what a delivery leaves alone
pub record SameWindow (s t : Proto) : Type 0 where
  pub my_aru : t.my_aru ≡ s.my_aru
  pub aru : t.aru ≡ s.aru
  pub highest_seq : t.highest_seq ≡ s.highest_seq
  pub last_discarded : t.last_discarded ≡ s.last_discarded
  pub memb : t.memb ≡ s.memb

pub record Delivered (k : ℕ) (s t : Proto) : Type 0 where
  pub window : SameWindow s t
  pub last_delivered : t.last_delivered ≡ s.last_delivered
  pub packets : t.packets ≡ (set_exist k 2 s).packets

chain-Delivered : (k q : ℕ) (s : Proto) → Delivered k s (chain k q s)
unfolding chain
chain-Delivered k q s = elim (Bool-cases (ltb_ℤ (s.packets k).packet.head.packet_index (pos 0))) [
  | inl e ↦ rw e (record {
    window = record {
      my_aru = refl;
      aru = refl;
      highest_seq = refl;
      last_discarded = refl;
      memb = refl;
    };
    last_delivered = refl;
    packets = refl;
  })
  | inr e ↦ rw e (record {
    window = record {
      my_aru = refl;
      aru = refl;
      highest_seq = refl;
      last_discarded = refl;
      memb = refl;
    };
    last_delivered = refl;
    packets = refl;
  })
]

pub deliver_packet_cases :
    (k : ℕ) (s : Proto)
    → (deliver_packet k s ≡ exit) ⊎ ((q : ℕ) × (deliver_packet k s ≡ ok (chain k q s)))
unfolding deliver_packet
deliver_packet_cases k s = elim (Option-cases (up_index (s.packets k))) [
  | inl n ↦ inl (rw (n, deliver_packet))
  | inr (q, h) ↦
      elim (Bool-cases
        (length (started (s.up_queue q)) + 1 == abs_index (s.packets k).packet.head)) [
          | inl e ↦ inr (q, rw (h, deliver_packet, e))
          | inr e ↦ inl (rw (h, deliver_packet, e))
        ]
]

-- A delivery that goes through marks its cell, and touches no counter and no other cell.
pub deliver_packet-Delivered : (k : ℕ) (s t : Proto) → deliver_packet k s ≡ ok t → Delivered k s t
deliver_packet-Delivered k s t e = elim (deliver_packet_cases k s) [
  | inl x ↦ absurd (exit-ne-ok (sym x ∙ e))
  | inr (q, c) ↦ subst (Delivered k s) (ok-inj (sym c ∙ e)) (chain-Delivered k q s)
]

pub Same-refl : (s : Proto) → SameWindow s s
Same-refl s = record {
  my_aru = refl;
  aru = refl;
  highest_seq = refl;
  last_discarded = refl;
  memb = refl;
}

pub Same-trans : {s t u : Proto} → SameWindow s t → SameWindow t u → SameWindow s u
Same-trans a b = record {
  my_aru = b.my_aru ∙ a.my_aru;
  aru = b.aru ∙ a.aru;
  highest_seq = b.highest_seq ∙ a.highest_seq;
  last_discarded = b.last_discarded ∙ a.last_discarded;
  memb = b.memb ∙ a.memb;
}

-- what answering requests and sending leave alone
pub record Steady (s t : Proto) : Type 0 where
  pub window : SameWindow s t
  pub last_token : t.last_token ≡ s.last_token
  pub down_queue : t.down_queue ≡ s.down_queue

pub Steady-refl : (s : Proto) → Steady s s
Steady-refl s = record { window = Same-refl s; last_token = refl; down_queue = refl }

pub Steady-trans : {s t u : Proto} → Steady s t → Steady t u → Steady s u
Steady-trans a b = record {
  window = Same-trans a.window b.window;
  last_token = b.last_token ∙ a.last_token;
  down_queue = b.down_queue ∙ a.down_queue;
}

-- Cells less than a whole turn apart are different.
pub entry-ne : (i j : ℕ) → i < j → j < i + max_packets → entry j ≢ entry i
entry-ne i j h k = omega arith
