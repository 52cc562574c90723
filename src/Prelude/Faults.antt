-- ===== src/Prelude/Faults.antt =====
-- A computation that may end the daemon: `Alarm( EXIT, … )` and a failed `assert`.
use mathlib.Core.Path.{◌≡◌, refl}

pub data Faultable {ℓ} (A : Type ℓ) : Type ℓ where
  exit : Faultable A
  ok : A → Faultable A

module _ {ℓ κ} {A : Type ℓ} {B : Type κ} where
  infixl 5 ◌>>=◌
  abbrev pub ◌>>=◌ : Faultable A → (A → Faultable B) → Faultable B
  exit >>= next = exit
  ok x >>= next = next x

  -- Inversion of a chain that went through.
  pub >>=-eq-ok :
      (m : Faultable A) (next : A → Faultable B) {b : B}
      → (m >>= next) ≡ ok b
      → (a : A) × (m ≡ ok a) × (next a ≡ ok b)
  >>=-eq-ok exit next h = cc
  >>=-eq-ok (ok a) next h = (a, refl, h)

module _ {ℓ} {A : Type ℓ} {a : A} where
  pub exit-ne-ok : exit ≡ ok a → ⊥
  exit-ne-ok e = cc

  pub ok-inj : {b : A} → ok a ≡ ok b → a ≡ b
  ok-inj e = cc
