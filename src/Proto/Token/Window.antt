-- ===== src/Proto/Token/Window.antt =====
-- What the steps of a visit of the token do to the window of packets.
use in5020_assignment.Prelude.{
  ℕ, ◌+◌, ◌-◌, ◌≤◌, ◌≡◌, inl, inr, refl, ℤ, Bool, true, false, leb, ltb, Bool-cases, List, arith,
  sym, subst, ◌∙◌, ap,
}
use in5020_assignment.Wire.{TokenHeader, RingRtr}
use in5020_assignment.Proto.{Proto, Slot, entry, slot_at}
use in5020_assignment.Proto.Deliver.Cells.{SameCells}
use in5020_assignment.Proto.Receive.{advance}
use in5020_assignment.Proto.Receive.Window.{InOrder, InOrder-of_SameCells, advance-Advanced}
use in5020_assignment.Proto.Token.Aru.{pass_token-aru}
use in5020_assignment.Proto.Token.Sent.{Loose, Loose-rebuild}
use in5020_assignment.Proto.Token.{next_aru, next_token, pass_token, stable_aru, settle, note_seq}

-- The end of the ring that the token tells of keeps the window.
pub note_seq-Loose : (t : TokenHeader) (s : Proto) → InOrder s → Loose (note_seq t s)
note_seq-Loose t s w = elim (Bool-cases (ltb s.highest_seq t.seq)) [
  | inl up ↦ rw up (Loose-rebuild refl refl (ground arith) (λ q. refl) here)
  | inr low ↦ rw low here
]
  where
    here : Loose s
    here = record {
      discarded = omega (arith, w.discarded, w.stable);
      highest = w.highest;
      there = w.there;
      free = w.free;
    }

-- After `settle` the aru of this daemon is exact.
pub settle-InOrder :
    (num_retrans num_sent : ℕ) (s : Proto)
    → Loose s
    → s.last_discarded ≤ s.aru
    → s.aru ≤ s.my_aru
    → InOrder (settle num_retrans num_sent s)
unfolding settle
settle-InOrder num_retrans num_sent s w low high =
    let s1 : Proto = record s { last_num_retrans = num_retrans; last_num_sent = num_sent } in
    let n = s.highest_seq - s.my_aru in
    let t = advance n (s.my_aru + 1) s1 in
    let d = advance-Advanced n (s.my_aru + 1) s1 refl in
    subst InOrder (sym d.only) (record {
      discarded = low;
      stable = omega (arith, d.forward);
      highest = omega (arith, d.within, w.highest);
      there = λ q a b. elim (Bool-cases (leb q s.my_aru)) [
        | inl old ↦ w.there q a (ground arith)
        | inr new ↦ d.passed q (ground arith) b
      ];
      exact = elim d.stopped [ inl e ↦ inl (omega (arith, e, w.highest)) | inr gone ↦ inr gone ];
      free = w.free;
    })

-- what the last steps of a visit make of a state in order
pub record Onward (s t : Proto) : Type 0 where
  pub in_order : InOrder t
  pub my_aru : t.my_aru ≡ s.my_aru
  pub highest_seq : t.highest_seq ≡ s.highest_seq
  pub forward : s.last_discarded ≤ t.last_discarded
  pub memb : t.memb ≡ s.memb

pub Onward-refl : {s : Proto} → InOrder s → Onward s s
Onward-refl w = record {
  in_order = w;
  my_aru = refl;
  highest_seq = refl;
  forward = omega arith;
  memb = refl;
}

pub Onward-trans : {s t u : Proto} → Onward s t → Onward t u → Onward s u
Onward-trans a b = record {
  in_order = b.in_order;
  my_aru = b.my_aru ∙ a.my_aru;
  highest_seq = b.highest_seq ∙ a.highest_seq;
  forward = omega (arith, a.forward, b.forward);
  memb = b.memb ∙ a.memb;
}

pub Onward-of_SameCells : {s t : Proto} → InOrder s → SameCells s t → Onward s t
Onward-of_SameCells w c = record {
  in_order = InOrder-of_SameCells c w;
  my_aru = c.window.my_aru;
  highest_seq = c.window.highest_seq;
  forward = omega (arith, c.window.last_discarded);
  memb = c.window.memb;
}

-- `Aru` is not below what was discarded, if neither aru of the token was.
aru_kept :
    (t : TokenHeader) (s : Proto)
    → s.last_discarded ≤ s.my_aru
    → s.last_discarded ≤ t.aru
    → s.last_discarded ≤ s.last_token.aru
    → s.last_discarded ≤ stable_aru (next_aru t s).0 s.last_token
unfolding next_aru
aru_kept t s a b c = ground arith

pass_token_fields :
    (lead : Bool) (t : TokenHeader) (set_aru : ℤ) (rtrs : List RingRtr) (s : Proto)
    → let u = pass_token lead t set_aru rtrs s in
      (u.packets ≡ s.packets)
      × (u.last_discarded ≡ s.last_discarded)
      × (u.memb ≡ s.memb)
      × (u.aru ≡ stable_aru t s.last_token)
unfolding pass_token
pass_token_fields true t set_aru rtrs s = (refl, refl, refl, refl)
pass_token_fields false t set_aru rtrs s = (refl, refl, refl, refl)

pub pass_token-Onward :
    (lead : Bool) (len : ℕ) (flow set_aru : ℤ) (t : TokenHeader) (rtrs : List RingRtr) (s : Proto)
    → InOrder s
    → s.last_discarded ≤ t.aru
    → s.last_discarded ≤ s.last_token.aru
    → Onward s (pass_token lead (next_token lead len flow t s).0 set_aru rtrs s)
unfolding next_token
pass_token-Onward lead len flow set_aru t rtrs s w a b =
    let t' = (next_token lead len flow t s).0 in
    let u = pass_token lead t' set_aru rtrs s in
    let f = pass_token_fields lead t' set_aru rtrs s in
    let (c, d, e, m, h) = pass_token-aru lead len flow set_aru t rtrs s in
    record {
      in_order = record {
        discarded =
            omega (arith, f.1, f.3, aru_kept t s (omega (arith, w.discarded, w.stable)) a b);
        stable = d;
        highest = omega (arith, m, h, w.highest);
        there = λ q x y z.
            w.there q (omega (arith, f.1)) (omega (arith, m))
              (sym (ap (λ (g : ℕ → Slot). (g (entry q)).exist) f.0) ∙ z);
        exact = elim w.exact [
          | inl end ↦ inl (omega (arith, end, m, h))
          | inr gone ↦ inr (
              ap (λ (g : ℕ → Slot). (g (entry (u.my_aru + 1))).exist) f.0
              ∙ subst (λ k. (slot_at s (k + 1)).exist ≡ 0) (sym m) gone)
        ];
        free = λ q x y.
            ap (λ (g : ℕ → Slot). (g (entry q)).exist) f.0
            ∙ w.free q (omega (arith, h)) (omega (arith, f.1));
      };
      my_aru = m;
      highest_seq = h;
      forward = omega (arith, f.1);
      memb = f.2;
    }
