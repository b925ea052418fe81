-- ===== src/Names.antt =====
-- Names for Kubernetes objects: SanitizeName of internal/util/text.go. Texts are lists of code points; after
-- the first step all of them are ASCII, so that they are bytes too.
pub mod Safe
pub mod Clean
pub mod Kept
pub mod Truncation
pub mod Examples
use fleetsweeper.Common.{
  ℕ, zero, suc, ◌+◌, Bool, true, false, ◌&&◌, ◌||◌, List, [], ◌∷◌, if◌then◌else◌, ltb, leb, eqb,
  length,
}

abbrev pub Text : Type 0
Text = List ℕ

-- `strings.ToLower`, as far as its results can be ASCII: beside the capitals the Kelvin sign gives "k" and
-- the dotted capital I gives "i".
unfoldable pub lower : ℕ → ℕ
lower c =
    if leb b'A' c && leb c b'Z'
    then c + 32
    else if eqb c 0x212A
    then b'k'
    else if eqb c 0x130
    then b'i'
    else c

abbrev pub to_lower : Text → Text
to_lower [] = []
to_lower (c ∷ cs) = lower c ∷ to_lower cs

-- `[a-z0-9.-]`
unfoldable pub is_name_char : ℕ → Bool
is_name_char c =
    (leb b'a' c && leb c b'z') || (leb b'0' c && leb c b'9') || eqb c b'.' || eqb c b'-'

-- Each run of other characters becomes a dash. `within` says that the run has one.
unfoldable pub dash_invalid : Bool → Text → Text
unfolding is_name_char
dash_invalid within [] = []
dash_invalid within (c ∷ cs) =
    let after = dash_invalid false cs in
    let more = dash_invalid true cs in
    if is_name_char c then c ∷ after else if within then more else b'-' ∷ more

-- Each run of dashes becomes one. `within` says that the run has it.
unfoldable pub collapse_dashes : Bool → Text → Text
collapse_dashes within [] = []
collapse_dashes within (c ∷ cs) =
    let after = collapse_dashes false cs in
    let more = collapse_dashes true cs in
    if eqb c b'-' then (if within then more else c ∷ more) else c ∷ after

-- A dash or a dot.
abbrev pub is_edge : ℕ → Bool
is_edge c = eqb c b'-' || eqb c b'.'

unfoldable pub trim_left : Text → Text
trim_left [] = []
trim_left (c ∷ cs) = let rest = trim_left cs in if is_edge c then rest else c ∷ cs

abbrev pub keep_or_drop : ℕ → Text → Text
keep_or_drop c [] = if is_edge c then [] else c ∷ []
keep_or_drop c (r ∷ rs) = c ∷ r ∷ rs

unfoldable pub trim_right : Text → Text
trim_right [] = []
trim_right (c ∷ cs) = keep_or_drop c (trim_right cs)

unfoldable pub take : ℕ → Text → Text
take zero t = []
take (suc n) [] = []
take (suc n) (c ∷ cs) = c ∷ take n cs

abbrev pub max_name_len : ℕ
max_name_len = 253

abbrev pub unnamed : Text
unnamed = b'u' ∷ b'n' ∷ b'n' ∷ b'a' ∷ b'm' ∷ b'e' ∷ b'd' ∷ []

abbrev pub or_unnamed : Text → Text
or_unnamed [] = unnamed
or_unnamed (c ∷ cs) = c ∷ cs

abbrev pub capped : Text → Text
capped t = if ltb max_name_len (length t) then trim_right (take max_name_len t) else t

unfoldable pub sanitize_name : Text → Text
sanitize_name name =
    or_unnamed
      (capped (trim_right (trim_left (collapse_dashes false (dash_invalid false (to_lower name))))))
