-- ===== src/Groups/Synced/Merge.antt =====
-- `G_add_to_synced_set` of daemon/groups.c merges two sets that are in the order of the configuration.
use in5020_assignment.Prelude.{
  ℕ, ◌<◌, ◌≡◌, ◌≢◌, refl, ap, sym, ◌∙◌, Bool-cases, ltb, inl, inr, List, [], ◌∷◌, All, ok, arith,
}
use in5020_assignment.Conf.{Proc}
use in5020_assignment.Groups.Synced.{conf_index, take_over, add_to_synced_set}

module _ (procs : List Proc) where
  -- A daemon of the configuration that comes after place `i`.
  abbrev pub After : ℕ → ℕ → Type 0
  After i y = (j : ℕ) × (conf_index procs y ≡ ok j) × (i < j)

  -- Daemons of the configuration in its order.
  abbrev pub Rising : List ℕ → Type 0
  Rising [] = Unit
  Rising (x ∷ xs) = (i : ℕ) × (conf_index procs x ≡ ok i) × All (After i) xs × Rising xs

  -- No daemon of the one list has the place of one of the other.
  abbrev pub Differ : List ℕ → List ℕ → Type 0
  Differ xs ys = All (λ x. All (λ y. conf_index procs x ≢ conf_index procs y) ys) xs

  After-later : (i j : ℕ) (ys : List ℕ) → i < j → All (After j) ys → All (After i) ys
  After-later i j [] h a = tt
  After-later i j (y ∷ ys) h ((k, e, l), a) = ((k, e, omega (arith, h, l)), After-later i j ys h a)

  take_over-ok : (xs : List ℕ) → Rising xs → take_over procs xs ≡ ok xs
  unfolding take_over
  take_over-ok [] r = refl
  take_over-ok (x ∷ xs) (i, e, a, r) = rw (take_over, e, take_over-ok xs r) refl

  Differ-tail : (xs : List ℕ) (y : ℕ) (ys : List ℕ) → Differ xs (y ∷ ys) → Differ xs ys
  Differ-tail [] y ys d = tt
  Differ-tail (x ∷ xs) y ys ((_, here), d) = (here, Differ-tail xs y ys d)

  abbrev pub Merged : List ℕ → List ℕ → Type 1
  Merged xs ys =
      (zs : List ℕ) × (add_to_synced_set procs xs ys ≡ ok zs)
      × Rising zs
      × ((P : ℕ → Type 0) → All P xs → All P ys → All P zs)
      × ((P : ℕ → Type 0) → All P zs → All P xs × All P ys)

  -- When two sets stand in the order of the configuration and no daemon of the one has the place of
  -- one of the other, `G_add_to_synced_set` does not end the daemon: it leaves a set in that order,
  -- and it has just the daemons of the two: what holds of all of theirs holds of all of its own, and the
  -- other way round.
  pub add_to_synced_set-merges :
      (xs ys : List ℕ) → Rising xs → Rising ys → Differ xs ys → Merged xs ys
  unfolding add_to_synced_set
  add_to_synced_set-merges [] ys rx ry d = (ys, take_over-ok ys ry, ry, λ P a b. b, λ P c. (tt, c))
  add_to_synced_set-merges (x ∷ xs) [] rx ry d =
      (x ∷ xs, take_over-ok (x ∷ xs) rx, rx, λ P a b. a, λ P c. (c, tt))
  add_to_synced_set-merges (x ∷ xs) (y ∷ ys) (i, ei, ax, rx) (j, ej, ay, ry) ((differs, dx), d) =
      let (zl, el, rl, al, bl) = add_to_synced_set-merges xs (y ∷ ys) rx (j, ej, ay, ry) d in
      let (zr, er, rr, ar, br) =
        add_to_synced_set-merges (x ∷ xs) ys (i, ei, ax, rx) ry (dx, Differ-tail xs y ys d) in
      elim (Bool-cases (ltb i j)) [
        | inl less ↦
            let h : i < j = ground (arith, less) in
            (
              x ∷ zl,
              rw (ei, ej, less, el) refl,
              (i, ei, al (After i) ax ((j, ej, h), After-later i j ys h ay), rl),
              λ P a b. (a.0, al P a.1 b),
              λ P c. let parts = bl P c.1 in ((c.0, parts.0), parts.1),
            )
        | inr no_less ↦ elim (Bool-cases (ltb j i)) [
          | inl more ↦
              let h : j < i = ground (arith, more) in
              (
                y ∷ zr,
                rw (ei, ej, no_less, more, er) refl,
                (j, ej, ar (After j) ((i, ei, h), After-later j i xs h ax) ay, rr),
                λ P a b. (b.0, ar P a b.1),
                λ P c. let parts = br P c.1 in (parts.0, (c.0, parts.1)),
              )
          | inr no_more ↦
              let same : i ≡ j = ground (arith, no_less, no_more) in
              absurd (differs (ei ∙ ap ok same ∙ sym ej))
        ]
      ]
