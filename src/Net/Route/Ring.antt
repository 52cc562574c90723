-- ===== src/Net/Route/Ring.antt =====
-- The ring of a membership: its daemons, segment by segment, and that the token goes along it.
use in5020_assignment.Prelude.{
  ℕ, zero, suc, ◌+◌, ◌<◌, ◌≡◌, refl, ap, sym, ◌∙◌, true, false, ◌==◌, Option, none, some, some-inj,
  ◌⊎◌, inl, inr, List, [], ◌∷◌, ◌++◌, length, length-append, append_assoc, get_elem?, List-cases,
  arith,
}
use in5020_assignment.Conf.{Proc, Segment}
use in5020_assignment.Net.{Address}
use in5020_assignment.Net.Route.{put_first, count_first, send_list, next_index, token_port}

-- the daemons of a segment, by their token channels
abbrev pub seg_ring : ℕ → List Proc → List Address
seg_ring port [] = []
seg_ring port (p ∷ ps) = (p.id, port + 1) ∷ seg_ring port ps

-- The ring that a membership stands for.
abbrev pub ring : List Segment → List Address
ring [] = []
ring (c ∷ cs) = seg_ring c.port c.procs ++ ring cs

-- What comes after place `i` of a ring, where the first comes after the last.
unfoldable pub next_in : List Address → ℕ → Option Address
next_in as' i = elim (get_elem? as' (i + 1)) [ some a ↦ some a | none ↦ get_elem? as' 0 ]

-- the place in the ring of place `j` of segment `k`
unfoldable pub place_in : List Segment → ℕ → ℕ → ℕ
place_in [] k j = j
place_in (c ∷ cs) zero j = j
place_in (c ∷ cs) (suc k) j = length c.procs + place_in cs k j

-- the addresses that `send_list` takes of segments that are not the daemon's own
unfoldable pub heads : List Segment → List Address
heads [] = []
heads (c ∷ cs) = put_first c.port c.procs (heads cs)

-- A segment of a membership, with those before it and those after it.
pub record Split (segs : List Segment) (k : ℕ) (c : Segment) : Type 0 where
  pub earlier : List Segment
  pub later : List Segment
  pub whole : segs ≡ earlier ++ (c ∷ later)
  pub place : length earlier ≡ k

pub get_elem?-Split :
    (segs : List Segment) (k : ℕ) (c : Segment) → get_elem? segs k ≡ some c → Split segs k c
get_elem?-Split [] k c h = cc
get_elem?-Split (x ∷ xs) zero c h = record {
  earlier = [];
  later = xs;
  whole = ap (λ z. z ∷ xs) (some-inj h);
  place = refl;
}
get_elem?-Split (x ∷ xs) (suc k) c h =
    let s = get_elem?-Split xs k c h in
    record {
      earlier = x ∷ s.earlier;
      later = s.later;
      whole = ap (◌∷◌ x) s.whole;
      place = ap suc s.place;
    }

-- Past the daemon's own segment the loop takes all heads.
send_list-later : (mine i : ℕ) (cs : List Segment) → mine < i → send_list mine i cs ≡ heads cs
unfolding send_list heads
send_list-later mine i [] h = refl
send_list-later mine i (c ∷ cs) h =
    let other : (i == mine) ≡ false = ground arith in
    rw (send_list, other, send_list-later mine (i + 1) cs (omega arith)) refl

pub put_first-append :
    (port : ℕ) (ps : List Proc) (xs ys : List Address)
    → put_first port ps (xs ++ ys) ≡ put_first port ps xs ++ ys
unfolding put_first
put_first-append port [] xs ys = refl
put_first-append port (p ∷ ps) xs ys = refl

pub send_list-split :
    (mine i : ℕ) (before after : List Segment) (c : Segment)
    → length before + i ≡ mine
    → send_list mine i (before ++ (c ∷ after)) ≡ heads before ++ heads after
unfolding send_list heads
send_list-split mine i [] after c h =
    let own : (i == mine) ≡ true = ground arith in
    rw (send_list, own) (send_list-later mine (i + 1) after (omega arith))
send_list-split mine i (b ∷ bs) after c h =
    let other : (i == mine) ≡ false = ground arith in
    rw (send_list, other, send_list-split mine (i + 1) bs after c (omega arith))
      (put_first-append b.port b.procs (heads bs) (heads after))

count_first-length :
    (port : ℕ) (ps : List Proc) (xs : List Address) (count : ℕ)
    → count_first ps count + length xs ≡ count + length (put_first port ps xs)
unfolding count_first put_first
count_first-length port [] xs count = refl
count_first-length port (p ∷ ps) xs count = omega arith

pub next_index-split :
    (mine i count : ℕ) (before after : List Segment) (c : Segment)
    → length before + i ≡ mine
    → next_index mine i count (before ++ (c ∷ after)) ≡ some (count + length (heads before))
unfolding next_index heads
next_index-split mine i count [] after c h =
    let own : (i == mine) ≡ true = ground arith in rw (next_index, own) (ap some (omega arith))
next_index-split mine i count (b ∷ bs) after c h =
    let other : (i == mine) ≡ false = ground arith in
    let rest = next_index-split mine (i + 1) (count_first b.procs count) bs after c (omega arith) in
    rw (next_index, other) (rest ∙ ap some (count_first-length b.port b.procs (heads bs) count))

pub ring-append : (xs ys : List Segment) → ring (xs ++ ys) ≡ ring xs ++ ring ys
ring-append [] ys = refl
ring-append (x ∷ xs) ys =
    ap (λ z. seg_ring x.port x.procs ++ z) (ring-append xs ys)
    ∙ sym (append_assoc (seg_ring x.port x.procs) (ring xs) (ring ys))

pub length-seg_ring : (port : ℕ) (ps : List Proc) → length (seg_ring port ps) ≡ length ps
length-seg_ring port [] = refl
length-seg_ring port (p ∷ ps) = ap suc (length-seg_ring port ps)

pub place_in-split :
    (before after : List Segment) (c : Segment) (j : ℕ)
    → place_in (before ++ (c ∷ after)) (length before) j ≡ length (ring before) + j
unfolding place_in
place_in-split [] after c j = omega arith
place_in-split (b ∷ bs) after c j = omega (
  arith,
  place_in-split bs after c j,
  length-append (seg_ring b.port b.procs) (ring bs),
  length-seg_ring b.port b.procs,
)

-- A ring begins with the first of its heads.
pub ring-heads :
    (cs : List Segment)
    → ((heads cs ≡ []) × (ring cs ≡ []))
      ⊎ ((a : Address) × (as' : List Address) × (more : List Address) × (heads cs ≡ a ∷ as')
          × (ring cs ≡ token_port a ∷ more))
unfolding heads put_first
ring-heads [] = inl (refl, refl)
ring-heads (c ∷ cs) = elim (List-cases c.procs) [
  | inl e ↦ rw (heads, ring, e, put_first) (ring-heads cs)
  | inr (p, ps, e) ↦ rw (heads, ring, e, put_first) (inr ((p.id, c.port), heads cs, _, refl, refl))
]
