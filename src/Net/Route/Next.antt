-- ===== src/Net/Route/Next.antt =====
-- `Net_set_membership` of daemon/network.c passes the token along the ring.
use in5020_assignment.Prelude.{
  ℕ, zero, suc, ◌+◌, ◌-◌, ◌<◌, ◌≡◌, refl, ap, ap₂, sym, ◌∙◌, true, false, Bool-cases, ◌==◌, ltb,
  Option, none, some, inl, inr, List, [], ◌∷◌, ◌++◌, length, length-append, get_elem?,
  get_elem?-later, get_elem?-front, get_elem?-some, arith, ok,
}
use in5020_assignment.Conf.{Proc, Segment, Configuration, id_in_seg, find_in_seg, has_ip}
use in5020_assignment.Net.{Net, Address}
use in5020_assignment.Net.Route.{
  Route, send_list, next_index, token_port, address_at, proc_at, token_address, set_membership,
}
use in5020_assignment.Net.Route.Ring.{
  seg_ring, ring, next_in, place_in, heads, get_elem?-Split, send_list-split, next_index-split,
  ring-append, length-seg_ring, place_in-split, ring-heads,
}

find_in_seg-bound :
    (id : ℕ) (ps : List Proc) (i j : ℕ) → find_in_seg id ps i ≡ some j → j < i + length ps
unfolding find_in_seg
find_in_seg-bound id [] i j h = cc
find_in_seg-bound id (p ∷ ps) i j h = elim (Bool-cases (has_ip id p.ifc)) [
  | inl it ↦
      let e : some i ≡ some j = rw (find_in_seg, it) at h in
      let same : i ≡ j = cc in omega (arith, same)
  | inr other ↦ omega (arith, find_in_seg-bound id ps (i + 1) j (rw (find_in_seg, other) at h))
]

seg_ring-at :
    (port : ℕ) (ps : List Proc) (j : ℕ) (p : Proc)
    → get_elem? ps j ≡ some p
    → get_elem? (seg_ring port ps) j ≡ some (p.id, port + 1)
seg_ring-at port [] j p h = cc
seg_ring-at port (q ∷ ps) zero p h =
    ap (λ (o : Option Proc). elim o [ some z ↦ some (z.id, port + 1) | none ↦ none ]) h
seg_ring-at port (q ∷ ps) (suc j) p h = seg_ring-at port ps j p h

next_in-some :
    (xs : List Address) (i : ℕ) (a : Address)
    → get_elem? xs (i + 1) ≡ some a
    → next_in xs i ≡ some a
unfolding next_in
next_in-some xs i a h = rw (next_in, h) refl

next_in-wrap :
    (xs : List Address) (i : ℕ) (a : Address)
    → get_elem? xs (i + 1) ≡ none
    → get_elem? xs 0 ≡ some a
    → next_in xs i ≡ some a
unfolding next_in
next_in-wrap xs i a h k = rw (next_in, h) k

module _ (c : Segment) (j : ℕ) (before after : List Segment) (low : j < length c.procs) where
  whole : List Address
  whole = ring before ++ (seg_ring c.port c.procs ++ ring after)

  sends : List Address
  sends = heads before ++ heads after

  -- The token's address as a place of the ring.
  Passes : Type 0
  Passes =
      (a : Address) × (token_address c j sends (length (heads before)) ≡ ok a)
      × (next_in whole (length (ring before) + j) ≡ some a)

  -- the place after, within or past the segment
  later_place :
      (k : ℕ)
      → length (ring before) + j + 1 ≡ length (ring before) + k
      → get_elem? whole (length (ring before) + j + 1)
        ≡ get_elem? (seg_ring c.port c.procs ++ ring after) k
  unfolding whole
  later_place k e = get_elem?-later (ring before) _ _ k e

  inside : ltb j (length c.procs - 1) ≡ true → Passes
  unfolding Passes token_address
  inside h =
      let (p, e) = get_elem?-some c.procs (j + 1) (ground arith) in
      let at_ = seg_ring-at c.port c.procs (j + 1) p e in
      let bound : j + 1 < length (seg_ring c.port c.procs) =
        ground (arith, length-seg_ring c.port c.procs) in
      (
        (p.id, c.port + 1),
        rw (token_address, h, proc_at, e) refl,
        next_in-some whole _ _ (
            later_place (j + 1) (omega arith)
            ∙ (get_elem?-front (seg_ring c.port c.procs) (ring after) (j + 1) bound ∙ at_)),
      )

  -- the last of its segment: what comes after is the rest of the ring
  past_seg :
      ltb j (length c.procs - 1) ≡ false
      → get_elem? whole (length (ring before) + j + 1) ≡ get_elem? (ring after) 0
  past_seg h =
      let n = length-seg_ring c.port c.procs in
      later_place (length c.procs) (ground arith)
      ∙ get_elem?-later (seg_ring c.port c.procs) (ring after) (length c.procs) 0 (omega (arith, n))

  to_later :
      ltb j (length c.procs - 1) ≡ false
      → (a : Address) (as' more : List Address) → heads after ≡ a ∷ as'
      → ring after ≡ token_port a ∷ more
      → Passes
  unfolding Passes token_address sends
  to_later h a as' more e r =
      let n = length-append (heads before) (heads after) in
      let len = ap length e in
      let some_sends : (length sends == 0) ≡ false = ground (arith, n, len) in
      let not_last : (length sends == length (heads before)) ≡ false = ground (arith, n, len) in
      let at_ =
        get_elem?-later (heads before) (heads after) (length (heads before)) 0 (omega arith)
        ∙ ap (λ z. get_elem? z 0) e in
      (
        token_port a,
        rw (token_address, h, some_sends, not_last, address_at, at_) refl,
        next_in-some whole _ _ (past_seg h ∙ ap (λ z. get_elem? z 0) r),
      )

  to_first : ltb j (length c.procs - 1) ≡ false → heads after ≡ [] → ring after ≡ [] → Passes
  unfolding Passes token_address sends whole
  to_first h e r =
      let gone = past_seg h ∙ ap (λ z. get_elem? z 0) r in
      let n = length-append (heads before) (heads after) in
      let len = ap length e in
      elim (ring-heads before) [
        | inl (hb, rb) ↦
            let (p, f) = get_elem?-some c.procs 0 (omega arith) in
            let none_sent : (length sends == 0) ≡ true = ground (arith, n, len, ap length hb) in
            let front =
              get_elem?-front (seg_ring c.port c.procs) (ring after) 0
                (omega (arith, length-seg_ring c.port c.procs)) in
            let start =
              ap (λ z. get_elem? (z ++ (seg_ring c.port c.procs ++ ring after)) 0) rb
              ∙ (front ∙ seg_ring-at c.port c.procs 0 p f) in
            (
              (p.id, c.port + 1),
              rw (token_address, h, none_sent, proc_at, f) refl,
              next_in-wrap whole _ _ gone start,
            )
        | inr (a, as', more, hb, rb) ↦
            let some_sends : (length sends == 0) ≡ false = ground (arith, n, ap length hb) in
            let is_last : (length sends == length (heads before)) ≡ true = ground (arith, n, len) in
            let at_ = ap (λ z. get_elem? (z ++ heads after) 0) hb in
            let start = ap (λ z. get_elem? (z ++ (seg_ring c.port c.procs ++ ring after)) 0) rb in
            (
              token_port a,
              rw (token_address, h, some_sends, is_last, address_at, at_) refl,
              next_in-wrap whole _ _ gone start,
            )
      ]

  token_address-next : Passes
  token_address-next = elim (Bool-cases (ltb j (length c.procs - 1))) [
    | inl h ↦ inside h
    | inr h ↦ elim (ring-heads after) [
      | inl (e, r) ↦ to_first h e r
      | inr (a, as', more, e, r) ↦ to_later h a as' more e r
    ]
  ]

-- What the code finds, put together.
set_membership-found :
    (my : Proc) (memb : Configuration) (n : Net) (c : Segment) (j : ℕ)
    → get_elem? memb.segments my.seg_index ≡ some c
    → id_in_seg c my.id ≡ some j
    → (sent : List Address) (next : ℕ) (a : Address) → send_list my.seg_index 0 memb.segments ≡ sent
    → next_index my.seg_index 0 0 memb.segments ≡ some next
    → token_address c j sent next ≡ ok a
    → set_membership my memb n
      ≡ ok (
        record n { membership = memb; send_to = sent },
        record { segment_leader = j == 0; token_to = a },
      )
unfolding set_membership
set_membership-found my memb n c j h k sent next a es en et =
    rw (set_membership, h, k, en, es, et, es) refl

-- `Net_set_membership`, for a membership in whose segment `My.seg_index` the daemon stands at place
-- `j`, returns, and passes the token to the daemon that comes next in the ring of the membership:
-- the next one of the segment, else the first of the next segment that has a daemon, and from the
-- end of the ring to its beginning.
pub set_membership-next :
    (my : Proc) (memb : Configuration) (n : Net) (c : Segment) (j : ℕ)
    → get_elem? memb.segments my.seg_index ≡ some c
    → id_in_seg c my.id ≡ some j
    → (out : Net × Route) × (set_membership my memb n ≡ ok out)
      × (next_in (ring memb.segments) (place_in memb.segments my.seg_index j) ≡ some out.1.token_to)
      × (out.0.membership ≡ memb)
unfolding set_membership id_in_seg Passes whole sends
set_membership-next my memb n c j h k =
    let s = get_elem?-Split memb.segments my.seg_index c h in
    let low = find_in_seg-bound my.id c.procs 0 j k in
    let (a, e, nx) = token_address-next c j s.earlier s.later (omega arith) in
    let here : length s.earlier + 0 ≡ my.seg_index = omega (arith, s.place) in
    let list = send_list-split my.seg_index 0 s.earlier s.later c here in
    let index = next_index-split my.seg_index 0 0 s.earlier s.later c here in
    let seg = my.seg_index in
    let sent = ap (send_list seg 0) s.whole ∙ list in
    let at_ : next_index seg 0 0 memb.segments ≡ some (length (heads s.earlier)) =
      ap (next_index seg 0 0) s.whole ∙ (index ∙ ap some (omega arith)) in
    let around = ap ring s.whole ∙ ring-append s.earlier (c ∷ s.later) in
    let place =
      ap (λ z. place_in z seg j) s.whole
      ∙ (ap (λ z. place_in (s.earlier ++ (c ∷ s.later)) z j) (sym s.place)
          ∙ place_in-split s.earlier s.later c j) in
    let n1 : Net = record n { membership = memb; send_to = heads s.earlier ++ heads s.later } in
    (
      (n1, record { segment_leader = j == 0; token_to = a }),
      set_membership-found my memb n c j h k _ _ a sent at_ e,
      ap₂ next_in around place ∙ nx,
      refl,
    )
