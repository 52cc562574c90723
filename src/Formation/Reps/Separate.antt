-- ===== src/Formation/Reps/Separate.antt =====
-- What a list of representatives is at any time, and that `Insert_rep` of daemon/membership.c keeps
-- it: what its comments take for known.
use in5020_assignment.Prelude.{
  ℕ, ◌≤◌, ◌≡◌, ◌≢◌, refl, true, ◌==◌, Bool-cases, ◌⊎◌, inl, inr, List, [], ◌∷◌, All, arith, length,
}
use in5020_assignment.Conf.{Proc}
use in5020_assignment.Formation.{Rep, potential_rep, seg_rep, ring_rep}
use in5020_assignment.Formation.Reps.{
  Scan, changed, present, absent, keep, scan_potential, scan_seg, scan_ring,
}

-- Two representatives of one segment: neither is potential, and they are different daemons.
abbrev pub Apart : Rep → Rep → Type 0
Apart x y =
    x.seg_index ≡ y.seg_index
    → (x.type ≢ potential_rep) × (y.type ≢ potential_rep) × (x.proc_id ≢ y.proc_id)

abbrev pub Separate : List Rep → Type 0
Separate [] = Unit
Separate (x ∷ xs) = All (Apart x) xs × Separate xs

abbrev pub Typed : List Rep → Type 0
Typed = All λ (x : Rep). x.type ≤ 2

-- What changes in a representative that `Insert_rep` overwrites.
pub record Renewed (x y : Rep) : Type 0 where
  pub seg : y.seg_index ≡ x.seg_index
  pub type : y.type ≢ potential_rep
  pub bound : y.type ≤ 2
  pub id : (x.type ≡ potential_rep) ⊎ (y.proc_id ≡ x.proc_id)

pub data OneRenewed : List Rep → List Rep → Type 0 where
  here : {x y : Rep} {xs : List Rep} → Renewed x y → OneRenewed (x ∷ xs) (y ∷ xs)
  there : {x : Rep} {xs ys : List Rep} → OneRenewed xs ys → OneRenewed (x ∷ xs) (x ∷ ys)

Renewed-left : (x y z : Rep) → Renewed x y → Apart x z → Apart y z
Renewed-left x y z r a = λ e. elim r.id [
  | inl was ↦ absurd ((a (omega (arith, r.seg))).0 was)
  | inr same ↦
      let (_, other, diff) = a (omega (arith, r.seg)) in
      (r.type, other, λ (same_id : y.proc_id ≡ z.proc_id). diff (omega (arith, same)))
]

Renewed-right : (x y z : Rep) → Renewed x y → Apart z x → Apart z y
Renewed-right x y z r a = λ e. elim r.id [
  | inl was ↦ absurd ((a (omega (arith, r.seg))).1 was)
  | inr same ↦
      let (other, _, diff) = a (omega (arith, r.seg)) in
      (other, r.type, λ (same_id : z.proc_id ≡ y.proc_id). diff (omega (arith, same)))
]

OneRenewed-below :
    (z : Rep) {xs ys : List Rep} → OneRenewed xs ys → All (Apart z) xs → All (Apart z) ys
OneRenewed-below z (here {x} {y} r) (a, b) = (Renewed-right x y z r a, b)
OneRenewed-below z (there o) (a, b) = (a, OneRenewed-below z o b)

Renewed-above : (x y : Rep) (zs : List Rep) → Renewed x y → All (Apart x) zs → All (Apart y) zs
Renewed-above x y [] r a = tt
Renewed-above x y (z ∷ zs) r (a, b) = (Renewed-left x y z r a, Renewed-above x y zs r b)

pub OneRenewed-Separate :
    {xs ys : List Rep}
    → OneRenewed xs ys
    → Separate xs
    → Typed xs
    → Separate ys × Typed ys × (length ys ≡ length xs)
OneRenewed-Separate (here {x} {y} {xs} r) (a, s) (t, ts) =
    ((Renewed-above x y xs r a, s), (r.bound, ts), refl)
OneRenewed-Separate (there {x} o) (a, s) (t, ts) =
    let (s', ts', len) = OneRenewed-Separate o s ts in
    ((OneRenewed-below x o a, s'), (t, ts'), omega (arith, len))

-- How a loop of `Insert_rep` may end, where `C` holds of a representative it goes past.
abbrev pub Outcome : (Rep → Type 0) → List Rep → Scan → Type 0
Outcome C xs (changed ys) = OneRenewed xs ys
Outcome C xs present = Unit
Outcome C xs absent = All C xs

keep-Outcome :
    (C : Rep → Type 0) (x : Rep) (xs : List Rep) (sc : Scan)
    → C x
    → Outcome C xs sc
    → Outcome C (x ∷ xs) (keep x sc)
keep-Outcome C x xs (changed ys) c o = there o
keep-Outcome C x xs present c o = tt
keep-Outcome C x xs absent c o = (c, o)

pub All-map : {C D : Rep → Type 0} → ((x : Rep) → C x → D x) → (xs : List Rep) → All C xs → All D xs
All-map f [] a = tt
All-map f (x ∷ xs) (a, b) = (f x a, All-map f xs b)

-- a representative whose type alone is overwritten
turned :
    (type : ℕ) (x : Rep) → type ≢ potential_rep → type ≤ 2 → Renewed x (record x { type = type })
turned type x firm low = record { seg = refl; type = firm; bound = low; id = inr refl }

module _ (p : Proc) where
  -- not of the segment of `p`
  unfoldable pub Elsewhere : Rep → Type 0
  Elsewhere x = x.seg_index ≢ p.seg_index

  -- if of the segment of `p`, then neither potential nor `p`
  unfoldable pub Other : Rep → Type 0
  Other x = x.seg_index ≡ p.seg_index → (x.type ≢ potential_rep) × (x.proc_id ≢ p.id)

  pub scan_potential-Outcome : (xs : List Rep) → Outcome Elsewhere xs (scan_potential p xs)
  unfolding scan_potential Elsewhere
  scan_potential-Outcome [] = tt
  scan_potential-Outcome (x ∷ xs) = elim (Bool-cases (x.seg_index == p.seg_index)) [
    | inl same ↦ rw same tt
    | inr other ↦ rw other (
        keep-Outcome Elsewhere x xs _ (λ (e : x.seg_index ≡ p.seg_index). ground arith)
          (scan_potential-Outcome xs))
  ]

  pub scan_seg-Outcome : (xs : List Rep) → Typed xs → Outcome Other xs (scan_seg p xs)
  unfolding scan_seg Other
  scan_seg-Outcome [] t = tt
  scan_seg-Outcome (x ∷ xs) (t, ts) =
      let past =
        λ (c : Other x). keep-Outcome Other x xs (scan_seg p xs) c (scan_seg-Outcome xs ts) in
      elim (Bool-cases (x.seg_index == p.seg_index)) [
        | inr other ↦ rw (scan_seg, other) (past λ e. absurd (ground arith))
        | inl same ↦ elim (Bool-cases (x.type == potential_rep)) [
          | inl was ↦
              rw (scan_seg, same, was)
                (here (record {
                  seg = refl;
                  type = λ e. omega arith;
                  bound = omega arith;
                  id = inl (ground arith);
                }))
          | inr firm ↦ elim (Bool-cases (x.type == seg_rep)) [
            | inl seg ↦ elim (Bool-cases (x.proc_id == p.id)) [
              | inl it ↦ rw (scan_seg, same, firm, seg, it) tt
              | inr not_it ↦
                  rw (scan_seg, same, firm, seg, not_it)
                    (past λ e. (λ z. ground arith, λ z. ground arith))
            ]
            | inr no_seg ↦
                let ring : (x.type == ring_rep) ≡ true = ground arith in
                elim (Bool-cases (x.proc_id == p.id)) [
                  | inl it ↦
                      rw (scan_seg, same, firm, no_seg, ring, it)
                        (here (turned seg_rep x (λ e. omega arith) (omega arith)))
                  | inr not_it ↦
                      rw (scan_seg, same, firm, no_seg, ring, not_it)
                        (past λ e. (λ z. ground arith, λ z. ground arith))
                ]
          ]
        ]
      ]

  pub scan_ring-Outcome : (xs : List Rep) → Typed xs → Outcome Other xs (scan_ring p xs)
  unfolding scan_ring Other
  scan_ring-Outcome [] t = tt
  scan_ring-Outcome (x ∷ xs) (t, ts) =
      let past =
        λ (c : Other x). keep-Outcome Other x xs (scan_ring p xs) c (scan_ring-Outcome xs ts) in
      elim (Bool-cases (x.seg_index == p.seg_index)) [
        | inr other ↦ rw (scan_ring, other) (past λ e. absurd (ground arith))
        | inl same ↦ elim (Bool-cases (x.type == potential_rep)) [
          | inl was ↦
              rw (scan_ring, same, was)
                (here (record {
                  seg = refl;
                  type = λ e. omega arith;
                  bound = omega arith;
                  id = inl (ground arith);
                }))
          | inr firm ↦ elim (Bool-cases (x.proc_id == p.id)) [
            | inr not_it ↦ elim (Bool-cases (x.type == seg_rep)) [
              | inl seg ↦
                  rw (scan_ring, same, firm, seg, not_it)
                    (past λ e. (λ z. ground arith, λ z. ground arith))
              | inr no_seg ↦
                  let ring : (x.type == ring_rep) ≡ true = ground arith in
                  rw (scan_ring, same, firm, no_seg, ring, not_it)
                    (past λ e. (λ z. ground arith, λ z. ground arith))
            ]
            | inl it ↦ elim (Bool-cases (x.type == seg_rep)) [
              | inl seg ↦
                  rw (scan_ring, same, firm, seg, it)
                    (here (turned ring_rep x (λ e. omega arith) (omega arith)))
              | inr no_seg ↦
                  let ring : (x.type == ring_rep) ≡ true = ground arith in
                  rw (scan_ring, same, firm, no_seg, ring, it) tt
            ]
          ]
        ]
      ]
