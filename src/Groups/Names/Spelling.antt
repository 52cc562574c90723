-- ===== src/Groups/Names/Spelling.antt =====
-- How `G_private_to_names` of daemon/groups.c spells a private group name.
use in5020_assignment.Prelude.{
  ℕ, ◌+◌, ◌<◌, ◌≤◌, ◌≡◌, refl, sym, ap, ◌∙◌, subst, Bool, true, false, ◌==◌, ==_iff, ◌&&◌, ltb,
  if-cases, Option-cases, some, some-inj, none-ne-some, inl, inr, List, [], ◌∷◌, ◌++◌, length,
  arith, ◌↔◌,
}
use in5020_assignment.Groups.Names.{
  sharp, cut_at_sharp, all_legal, private_to_names, max_private_name, max_proc_name,
}

-- `#`, the client's name, `#`, the daemon's name
abbrev pub spelled : List ℕ → List ℕ → List ℕ
spelled p q = sharp ∷ p ++ (sharp ∷ q)

-- The names that are allowed: of 1 to 10 and of 1 to 19 characters from `$` to `~`.
pub record Allowed (p q : List ℕ) : Type 0 where
  pub some_client : 0 < length p
  pub client_fits : length p ≤ 10
  pub some_daemon : 0 < length q
  pub daemon_fits : length q ≤ 19
  pub client_chars : all_legal p ≡ true
  pub daemon_chars : all_legal q ≡ true

cut_at_sharp-spelled :
    (p q : List ℕ) → all_legal p ≡ true → cut_at_sharp (p ++ (sharp ∷ q)) ≡ some (p, q)
unfolding cut_at_sharp all_legal
cut_at_sharp-spelled [] q h = refl
cut_at_sharp-spelled (c ∷ cs) q h =
    let later : all_legal cs ≡ true = ground (arith, h) in
    let differs : (c == sharp) ≡ false = ground (arith, h) in
    rw (differs, cut_at_sharp-spelled cs q later) refl

cut_at_sharp-parts :
    (w : List ℕ) (parts : List ℕ × List ℕ)
    → cut_at_sharp w ≡ some parts
    → w ≡ parts.0 ++ (sharp ∷ parts.1)
unfolding cut_at_sharp
cut_at_sharp-parts [] parts h = absurd (none-ne-some h)
cut_at_sharp-parts (c ∷ cs) parts h = elim (if-cases (c == sharp) h) [
  | inl (is, here) ↦
      subst (λ (z : List ℕ × List ℕ). c ∷ cs ≡ z.0 ++ (sharp ∷ z.1)) (some-inj here)
        (ap (λ z. z ∷ cs) ((==_iff c sharp).0 is))
  | inr (_, later) ↦ elim (Option-cases (cut_at_sharp cs)) [
    | inl nothing ↦ absurd (none-ne-some (rw nothing at later))
    | inr (rest, found) ↦
        subst (λ (z : List ℕ × List ℕ). c ∷ cs ≡ z.0 ++ (sharp ∷ z.1))
          (some-inj (rw found at later)) (ap (λ z. c ∷ z) (cut_at_sharp-parts cs rest found))
  ]
]

-- The condition of the code, with the first character `c`.
abbrev is_allowed : ℕ → List ℕ → List ℕ → Bool
is_allowed c p q =
    c == sharp
    && ltb (length p) (max_private_name + 1)
    && ltb 0 (length p)
    && ltb (length q) max_proc_name
    && ltb 0 (length q)
    && all_legal p
    && all_legal q

is_allowed-Allowed :
    (c : ℕ) (p q : List ℕ) → is_allowed c p q ≡ true → ((c == sharp) ≡ true) × Allowed p q
is_allowed-Allowed c p q h = (
  ground (arith, h),
  record {
    some_client = ground (arith, h);
    client_fits = ground (arith, h);
    some_daemon = ground (arith, h);
    daemon_fits = ground (arith, h);
    client_chars = ground (arith, h);
    daemon_chars = ground (arith, h);
  },
)

Allowed-is_allowed : (p q : List ℕ) → Allowed p q → is_allowed sharp p q ≡ true
Allowed-is_allowed p q a = ground (
  arith, a.some_client, a.client_fits, a.some_daemon, a.daemon_fits, a.client_chars, a.daemon_chars,
)

private_to_names-spells :
    (w p q : List ℕ) → private_to_names w ≡ some (p, q) → (w ≡ spelled p q) × Allowed p q
unfolding private_to_names
private_to_names-spells [] p q h = absurd (none-ne-some h)
private_to_names-spells (c ∷ cs) p q h = elim (Option-cases (cut_at_sharp cs)) [
  | inl nothing ↦ absurd (none-ne-some (rw (private_to_names, nothing) at h))
  | inr (parts, found) ↦
      elim (if-cases (is_allowed c parts.0 parts.1) (rw (private_to_names, found) at h)) [
        | inr (_, refused) ↦ absurd (none-ne-some refused)
        | inl (fits, done) ↦
            let (first, a) = is_allowed-Allowed c parts.0 parts.1 fits in
            subst (λ (z : List ℕ × List ℕ). (c ∷ cs ≡ spelled z.0 z.1) × Allowed z.0 z.1)
              (some-inj done)
              (
                ap (λ z. z ∷ cs) ((==_iff c sharp).0 first)
                    ∙ ap (λ (z : List ℕ). sharp ∷ z) (cut_at_sharp-parts cs parts found),
                a,
              )
      ]
]

private_to_names-spelled :
    (p q : List ℕ) → Allowed p q → private_to_names (spelled p q) ≡ some (p, q)
unfolding private_to_names
private_to_names-spelled p q a =
    rw (private_to_names, cut_at_sharp-spelled p q a.client_chars, Allowed-is_allowed p q a) refl

-- `G_private_to_names` splits a name into a client and a daemon just if it is `#`, the client, `#`
-- and the daemon, and these are of 1 to 10 and of 1 to 19 characters, all of them from `$` to `~`.
pub private_to_names_iff :
    (w p q : List ℕ) → (private_to_names w ≡ some (p, q)) ↔ ((w ≡ spelled p q) × Allowed p q)
private_to_names_iff w p q = (
  private_to_names-spells w p q,
  λ (e, a).
      subst (λ (z : List ℕ). private_to_names z ≡ some (p, q)) (sym e)
        (private_to_names-spelled p q a),
)
