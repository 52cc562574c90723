-- ===== src/Proto/Token/Requests.antt =====
-- The retransmission requests that a daemon puts on the token.
use in5020_assignment.Prelude.{
  ℕ, zero, suc, ◌+◌, ◌-◌, ◌*◌, ◌≤◌, ◌<◌, ◌≡◌, refl, not, ◌&&◌, ◌==◌, leb, ltb, Bool-cases, inl, inr,
  ◌⊎◌, List, [], ◌∷◌, length, snoc, All, arith, ==_iff,
}
use in5020_assignment.Wire.{RingRtr}
use in5020_assignment.Proto.{Proto, slot_at}
use in5020_assignment.Proto.Retrans.{Answer, rtr_bytes, rtr_header_size}
use in5020_assignment.Proto.Token.{missing, add_requests, token_body_size, retrans_allowed}

length-missing : (n budget i : ℕ) (s : Proto) → length (missing n budget i s) ≤ budget
unfolding missing
length-missing zero budget i s = omega arith
length-missing (suc n) zero i s = omega arith
length-missing (suc n) (suc b) i s = elim (Bool-cases ((slot_at s i).exist == 0)) [
  | inl x ↦ rw x (omega (arith, length-missing n b (i + 1) s))
  | inr x ↦ rw x (omega (arith, length-missing n b (i + 1) s))
]

-- a request for a packet that is not there, of the `n` from `i` on
abbrev pub Lacks : ℕ → ℕ → Proto → ℕ → Type 0
Lacks n i s q = (i ≤ q) × (q < i + n) × ((slot_at s q).exist ≡ 0)

Lacks-later :
    (n i : ℕ) (s : Proto) (qs : List ℕ) → All (Lacks n (i + 1) s) qs → All (Lacks (suc n) i s) qs
Lacks-later n i s [] a = tt
Lacks-later n i s (q ∷ qs) a = ((omega arith, omega arith, a.0.2), Lacks-later n i s qs a.1)

missing-Lacks : (n budget i : ℕ) (s : Proto) → All (Lacks n i s) (missing n budget i s)
unfolding missing
missing-Lacks zero budget i s = tt
missing-Lacks (suc n) zero i s = tt
missing-Lacks (suc n) (suc b) i s = elim (Bool-cases ((slot_at s i).exist == 0)) [
  | inl x ↦ rw x (
    (omega arith, omega arith, (==_iff _ _).0 x),
    Lacks-later n i s (missing n b (i + 1) s) (missing-Lacks n b (i + 1) s),
  )
  | inr x ↦ rw x (Lacks-later n i s (missing n b (i + 1) s) (missing-Lacks n b (i + 1) s))
]

rtr_bytes-snoc :
    (rs : List RingRtr) (r : RingRtr)
    → rtr_bytes (snoc rs r) ≡ rtr_bytes rs + (rtr_header_size + 4 * length r.seqs)
rtr_bytes-snoc [] r = omega arith
rtr_bytes-snoc (x ∷ rs) r = omega (arith, rtr_bytes-snoc rs r)

-- What is allowed fits behind the area, also where the difference wraps.
retrans_allowed_fits :
    (new_ptr : ℕ)
    → new_ptr ≤ token_body_size
    → 1 < retrans_allowed new_ptr
    → new_ptr + (rtr_header_size + 4 * retrans_allowed new_ptr) ≤ token_body_size
unfolding retrans_allowed
retrans_allowed_fits new_ptr h some_room = ground (arith, h, some_room)

-- With this daemon's requests added, the request area still fits the token's body, if the blocks
-- kept do: also where these leave less than the 16 bytes of a block, so that the unsigned
-- difference of the code wraps. `size_t` has 64 bits.
pub add_requests-fit :
    (a : Answer) (s : Proto)
    → rtr_bytes a.kept ≤ token_body_size
    → rtr_bytes (add_requests a s) ≤ token_body_size
unfolding add_requests
add_requests-fit a s h =
    let room = retrans_allowed (rtr_bytes a.kept) in
    elim (Bool-cases (ltb s.my_aru s.highest_seq && not (leb room 1))) [
      | inl asks ↦
          let some_room : 1 < room = ground (arith, asks) in
          rw asks (
            omega (
              arith,
              retrans_allowed_fits (rtr_bytes a.kept) h some_room,
              rtr_bytes-snoc a.kept (record {
                memb_id = s.memb.membership_id;
                proc_id = a.proc_id;
                seg_index = a.seg_index;
                seqs = missing (s.highest_seq - s.my_aru) room (s.my_aru + 1) s;
              }),
              length-missing (s.highest_seq - s.my_aru) room (s.my_aru + 1) s,
            ))
      | inr quiet ↦ rw quiet h
    ]

-- What a daemon requests: a packet beyond its aru and up to the highest number known, whose cell is
-- empty.
abbrev pub Wanted : Proto → ℕ → Type 0
Wanted s q = (s.my_aru < q) × (q ≤ s.highest_seq) × ((slot_at s q).exist ≡ 0)

Wanted-Lacks :
    (s : Proto) (qs : List ℕ)
    → s.my_aru < s.highest_seq
    → All (Lacks (s.highest_seq - s.my_aru) (s.my_aru + 1) s) qs
    → All (Wanted s) qs
Wanted-Lacks s [] h a = tt
Wanted-Lacks s (q ∷ qs) h a = ((omega arith, omega arith, a.0.2), Wanted-Lacks s qs h a.1)

-- Requesting either leaves the blocks kept as they are, or puts one block of this daemon's ring behind
-- them, in which every number is of a packet that the daemon wants: beyond its aru, at most the highest
-- number known, and missing from its cell.
pub add_requests-Wanted :
    (a : Answer) (s : Proto)
    → (add_requests a s ≡ a.kept)
      ⊎ ((r : RingRtr) × (add_requests a s ≡ snoc a.kept r)
          × (r.memb_id ≡ s.memb.membership_id)
          × All (Wanted s) r.seqs)
unfolding add_requests
add_requests-Wanted a s =
    let room = retrans_allowed (rtr_bytes a.kept) in
    let asked = missing (s.highest_seq - s.my_aru) room (s.my_aru + 1) s in
    elim (Bool-cases (ltb s.my_aru s.highest_seq && not (leb room 1))) [
      | inl asks ↦ inr (
        record {
          memb_id = s.memb.membership_id;
          proc_id = a.proc_id;
          seg_index = a.seg_index;
          seqs = asked;
        },
        rw asks refl,
        refl,
        Wanted-Lacks s asked (ground arith)
            (missing-Lacks (s.highest_seq - s.my_aru) room (s.my_aru + 1) s),
      )
      | inr quiet ↦ inl (rw quiet refl)
    ]
