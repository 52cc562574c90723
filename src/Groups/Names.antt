-- ===== src/Groups/Names.antt =====
-- `G_private_to_names` of daemon/groups.c, `Sess_get_session` of daemon/session.c, and `strcmp`.
pub mod Spelling
use in5020_assignment.Prelude.{
  ℕ, ◌+◌, Bool, true, false, ◌==◌, ◌||◌, ◌&&◌, ltb, if◌then◌else◌, Option, none, some, List, [],
  ◌∷◌, length,
}
use in5020_assignment.Conf.{same_name}
use in5020_assignment.Groups.{Session}

abbrev pub max_private_name : ℕ
max_private_name = 10

abbrev pub max_proc_name : ℕ
max_proc_name = 20

-- The character `#` is 35, and `~` is 126.
abbrev pub sharp : ℕ
sharp = 35

-- `strcmp( a, b ) < 0`
unfoldable pub name_before : List ℕ → List ℕ → Bool
name_before [] [] = false
name_before [] (y ∷ ys) = true
name_before (x ∷ xs) [] = false
name_before (x ∷ xs) (y ∷ ys) = ltb x y || (x == y && name_before xs ys)

-- What is before the first `#` and what is after it.
unfoldable pub cut_at_sharp : List ℕ → Option (List ℕ × List ℕ)
cut_at_sharp [] = none
cut_at_sharp (c ∷ cs) =
    if c == sharp
    then some ([], cs)
    else elim (cut_at_sharp cs) [ some parts ↦ some (c ∷ parts.0, parts.1) | none ↦ none ]

-- The loops that look for characters up to `#` or past `~`.
unfoldable pub all_legal : List ℕ → Bool
all_legal [] = true
all_legal (c ∷ cs) = ltb sharp c && ltb c 127 && all_legal cs

-- `none` is `ILLEGAL_GROUP`.
unfoldable pub private_to_names : List ℕ → Option (List ℕ × List ℕ)
private_to_names [] = none
private_to_names (c ∷ cs) = elim (cut_at_sharp cs) [
  | none ↦ none
  | some parts ↦
      if c == sharp
        && ltb (length parts.0) (max_private_name + 1)
        && ltb 0 (length parts.0)
        && ltb (length parts.1) max_proc_name
        && ltb 0 (length parts.1)
        && all_legal parts.0
        && all_legal parts.1
      then some parts
      else none
]

-- The search ends at the first session with a later name.
unfoldable pub get_session : List ℕ → List Session → Option Session
get_session name [] = none
get_session name (s ∷ ss) =
    if same_name s.name name
    then some s
    else if name_before s.name name
    then get_session name ss
    else none
