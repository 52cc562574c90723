-- ===== src/Proto/Token/Again.antt =====
-- What `Prot_handle_token` does with a token that asks for the last one again.
use in5020_assignment.Prelude.{ℕ, zero, suc, ◌≡◌, refl, Bool, true, if◌then◌else◌, List, [], ◌∷◌}
use in5020_assignment.Wire.{TokenHeader, set_endian}
use in5020_assignment.Net.{Net, Datagram}
use in5020_assignment.Proto.{Proto}

abbrev pub copies : ℕ → Datagram → List Datagram
copies zero d = []
copies (suc k) d = d ∷ copies k d

-- A token header as daemon `me` puts it on the wire.
abbrev pub as_sent : ℕ → ℕ → TokenHeader → TokenHeader
as_sent me hash t = record t { type = set_endian t.type; conf_hash = hash; transmiter_id = me }

if_true {ℓ} : {A : Type ℓ} (b : Bool) (x y : A) → b ≡ true → (if b then x else y) ≡ x
if_true b x y h = rw (h) refl
