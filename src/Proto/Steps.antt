-- ===== src/Proto/Steps.antt =====
-- A daemon between two calls of the membership algorithm, outside EVS, as a system of steps: each is a
-- run of one of the handlers that daemon/protocol.c attaches to its channels and timers, or of the
-- call by which a session gives it a message. What the membership algorithm does is not among them.
use in5020_assignment.Prelude.{
  ℕ, ◌+◌, ◌≤◌, ◌≡◌, refl, false, ◌==◌, ◌&&◌, ltb, length, snoc, if-split, List, All, arith, inl,
  inr, ok, >>=-eq-ok, ok-inj, subst, Bool-cases,
}
use in5020_assignment.Wire.{TokenHeader, RingRtr, is_form}
use in5020_assignment.Events.Clock.{SpTime}
use in5020_assignment.Conf.{leader}
use in5020_assignment.Memb.{active}
use in5020_assignment.Net.{Packet}
use in5020_assignment.Proto.{
  Proto, Membership, DownLink, max_packets, in_evs, water_mark, is_token_hold,
}
use in5020_assignment.Proto.Send.{waiting}
use in5020_assignment.Proto.Hurry.{prot_token_hurry}
use in5020_assignment.Proto.Down.{prot_new_message, enqueue_message}
use in5020_assignment.Proto.Deliver.Cells.{SameCells, SameCells-refl, SameCells-trans}
use in5020_assignment.Proto.Receive.{prot_handle_bcast}
use in5020_assignment.Proto.Receive.Window.{InOrder, InOrder-of_SameCells}
use in5020_assignment.Proto.Receive.Bcast.{
  NotHandedOn, prot_handle_bcast-InOrder, prot_token_hurry-SameCells, handle_hurry-SameCells,
}
use in5020_assignment.Proto.Token.{prot_handle_token}
use in5020_assignment.Proto.Token.Visit.{prot_handle_token-InOrder}

-- The numbers of a datagram lie within one turn of the array past what was discarded.
abbrev pub Near : Proto → List Packet → Type 0
Near s = All λ (p : Packet). p.head.seq ≤ s.last_discarded + max_packets

-- What a token is assumed to be to a daemon: one of the ring, of an aru that is not below what it discarded, and of a
-- number that, with the fragments that wait, lies within one turn of the array.
pub record Timely (t : TokenHeader) (s : Proto) : Type 0 where
  pub ring : is_form t.type ≡ false
  pub calm : in_evs s ≡ false
  pub aru : s.last_discarded ≤ t.aru
  pub last : s.last_discarded ≤ s.last_token.aru
  pub mine : s.highest_seq + waiting s.down_queue ≤ s.last_discarded + max_packets
  pub seq : t.seq + waiting s.down_queue ≤ s.last_discarded + max_packets

pub data Step : Proto → Proto → Type 0 where
  datagram :
      {s t : Proto} (m : Membership) (ps : List Packet)
      → NotHandedOn ps s
      → Near s ps
      → prot_handle_bcast m ps s ≡ ok t
      → Step s t
  token_in :
      {s t : Proto} (m : Membership) (lookup_timeout : SpTime) (received : ℕ) (tok : TokenHeader)
      (rtrs : List RingRtr)
      → Timely tok s
      → prot_handle_token m lookup_timeout received tok rtrs s ≡ ok t
      → Step s t
  hurry_timer : {s t : Proto} → prot_token_hurry s ≡ ok t → Step s t
  new_message : {s t : Proto} (d : DownLink) → prot_new_message d s ≡ ok t → Step s t

pub data Runs : Proto → Proto → Type 0 where
  rest : {s : Proto} → Runs s s
  next : {s t u : Proto} → Step s t → Runs t u → Runs s u

-- what a run keeps
pub record Ordered (s t : Proto) : Type 0 where
  pub in_order : InOrder t
  pub my_aru : s.my_aru ≤ t.my_aru
  pub last_discarded : s.last_discarded ≤ t.last_discarded

Ordered-of_SameCells : {s t : Proto} → InOrder s → SameCells s t → Ordered s t
Ordered-of_SameCells w c = record {
  in_order = InOrder-of_SameCells c w;
  my_aru = omega (arith, c.window.my_aru);
  last_discarded = omega (arith, c.window.last_discarded);
}

enqueue_message-SameCells : (d : DownLink) (s : Proto) → SameCells s (enqueue_message d s)
unfolding enqueue_message
enqueue_message-SameCells d s =
    elim (Bool-cases (ltb (length (snoc s.down_queue.links d)) water_mark)) [
      | inl low ↦ rw low same
      | inr high ↦ rw high (record {
        window = record {
          my_aru = refl;
          aru = refl;
          highest_seq = refl;
          last_discarded = refl;
          memb = refl;
        };
        empty = λ k h. h;
        full = λ k h. h;
      })
    ]
  where
    same :
        SameCells s
          (record s { down_queue = record s.down_queue { links = snoc s.down_queue.links d } })
    same = record {
      window = record {
        my_aru = refl;
        aru = refl;
        highest_seq = refl;
        last_discarded = refl;
        memb = refl;
      };
      empty = λ k h. h;
      full = λ k h. h;
    }

prot_new_message-SameCells :
    (d : DownLink) (s t : Proto) → prot_new_message d s ≡ ok t → SameCells s t
unfolding prot_new_message
prot_new_message-SameCells d s t h =
    let s1 = enqueue_message d s in
    SameCells-trans (enqueue_message-SameCells d s)
      (elim (if-split (length s1.down_queue.links == 1 && is_token_hold s1) h) [
        | inr quiet ↦ subst (SameCells s1) (ok-inj quiet) (SameCells-refl s1)
        | inl hurries ↦
            let (id, one, h1) = >>=-eq-ok (leader (active s1.memb)) _ hurries in
            elim (if-split (id == s1.my.id) h1) [
              | inl mine ↦ handle_hurry-SameCells s1.my.id s1 t mine
              | inr other ↦ subst (SameCells s1) (ok-inj other) (record {
                window = record {
                  my_aru = refl;
                  aru = refl;
                  highest_seq = refl;
                  last_discarded = refl;
                  memb = refl;
                };
                empty = λ k e. e;
                full = λ k e. e;
              })
            ]
      ])

Step-Ordered : {s t : Proto} → InOrder s → Step s t → Ordered s t
Step-Ordered {s} {t} w (datagram m ps mine near h) =
    let a = prot_handle_bcast-InOrder m ps s t w mine near h in
    record {
      in_order = a.in_order;
      my_aru = a.forward;
      last_discarded = omega (arith, a.last_discarded);
    }
Step-Ordered {s} {t} w (token_in memb lookup_timeout received tok rtrs c h) =
    let (i, m, l) =
      prot_handle_token-InOrder memb lookup_timeout received tok rtrs s t c.ring c.calm w c.aru
        c.last c.mine c.seq h in
    record { in_order = i; my_aru = m; last_discarded = l }
Step-Ordered {s} {t} w (hurry_timer h) = Ordered-of_SameCells w (prot_token_hurry-SameCells s t h)
Step-Ordered {s} {t} w (new_message d h) =
    Ordered-of_SameCells w (prot_new_message-SameCells d s t h)

-- However datagrams, tokens, hurry timers and new messages follow one another while none is handed to
-- the membership algorithm, a window that was in order is in order after them, and `My_aru` and `Last_discarded` have not gone back. The
-- conditions are that the numbers of each datagram lie within one turn of the array past what was
-- discarded, that no datagram is one of the membership algorithm or of another membership, and that each token is timely: it is no form token, it comes outside EVS, neither its aru nor that of the
-- last token is below what was discarded, and the numbers in use, with one more for each fragment
-- that waits, lie within that turn.
pub Runs-Ordered : {s t : Proto} → InOrder s → Runs s t → Ordered s t
Runs-Ordered w rest = record { in_order = w; my_aru = omega arith; last_discarded = omega arith }
Runs-Ordered w (next step more) =
    let a = Step-Ordered w step in
    let b = Runs-Ordered a.in_order more in
    record {
      in_order = b.in_order;
      my_aru = omega (arith, a.my_aru, b.my_aru);
      last_discarded = omega (arith, a.last_discarded, b.last_discarded);
    }
