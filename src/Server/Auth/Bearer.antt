-- ===== src/Server/Auth/Bearer.antt =====
-- The bearer token of a request: extractBearer of internal/server/auth.go. Texts are lists of code points.
use fleetsweeper.Common.{
  ℕ, ◌+◌, Bool, ◌&&◌, ◌||◌, List, [], ◌∷◌, Option, none, some, if◌then◌else◌, leb, eqb, string_eq,
  list_eq, nat_eq,
}

abbrev pub Text : Type 0
Text = List ℕ

-- `unicode.IsSpace`
unfoldable pub is_space : ℕ → Bool
is_space c =
    (leb 9 c && leb c 13)
    || eqb c 32
    || eqb c 0x85
    || eqb c 0xA0
    || eqb c 0x1680
    || (leb 0x2000 c && leb c 0x200A)
    || eqb c 0x2028
    || eqb c 0x2029
    || eqb c 0x202F
    || eqb c 0x205F
    || eqb c 0x3000

unfoldable pub trim_left : Text → Text
unfolding is_space
trim_left [] = []
trim_left (c ∷ cs) = let rest = trim_left cs in if is_space c then rest else c ∷ cs

-- Spaces at the end go too.
unfoldable pub trim_right : Text → Text
unfolding is_space
trim_right [] = []
trim_right (c ∷ cs) =
    let rest = trim_right cs in
    elim rest [ [] ↦ if is_space c then [] else c ∷ [] | r ∷ rs ↦ c ∷ r ∷ rs ]

unfoldable pub trim_space : Text → Text
unfolding trim_left trim_right
trim_space t = trim_right (trim_left t)

-- ASCII letters compare without case; no other character folds to a letter of "Bearer ".
unfoldable pub to_lower : ℕ → ℕ
to_lower c = if leb b'A' c && leb c b'Z' then c + 32 else c

abbrev pub bearer : Text
bearer = b'b' ∷ b'e' ∷ b'a' ∷ b'r' ∷ b'e' ∷ b'r' ∷ b' ' ∷ []

-- What follows a prefix, matched without case; `none` if it does not match.
unfoldable pub after_prefix : Text → Text → Option Text
unfolding to_lower
after_prefix [] t = some t
after_prefix (p ∷ ps) [] = none
after_prefix (p ∷ ps) (c ∷ cs) =
    let rest = after_prefix ps cs in if eqb p (to_lower c) then rest else none

-- The raw token, empty when the header is missing or malformed.
unfoldable pub extract_bearer : Text → Text
unfolding after_prefix trim_space
extract_bearer header = elim (after_prefix bearer header) [
  | none ↦ []
  | some rest ↦ trim_space rest
]
