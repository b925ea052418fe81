-- ===== src/Seal.antt =====
-- The seal of an export bundle: internal/seal/seal.go, and Bundle and VerifyBundle of
-- internal/seal/bundle.go.
-- Files, names, keys and signatures are lists of bytes. SHA-256 and HMAC-SHA256 are the parameters `sha256`
-- and `hmac`. A map's entries are visited in the order they are held.
pub mod Manifest
pub mod Bundle
pub mod Tamper
pub mod Hex
pub mod Signature
pub mod Lines
pub mod Order
pub mod Roundtrip
pub mod Sealing
pub mod Examples
use fleetsweeper.Common.{
  ℕ, ◌+◌, ◌-◌, ◌*◌, ◌/◌, ◌%◌, ◌≡◌, Bool, true, false, not, ◌&&◌, ◌||◌, List, [], ◌∷◌, ◌++◌, Option,
  none, some, if◌then◌else◌, ltb, leb, eqb, ◌==◌, nat_eq, list_eq, length, contains, filter,
}
use fleetsweeper.Common.Map.{Map, lookup, insert}

abbrev pub Bytes : Type 0
Bytes = List ℕ

abbrev pub Files : Type 0
Files = Map Bytes Bytes

-- A listed file that is gone or changed, or a file that is not listed.
pub data Problem : Type 0 where
  missing altered unlisted : Bytes → Problem

pub data SealError : Type 0 where
  missing_key malformed mismatch manifest unsealed : SealError
  contents : List Problem → SealError

pub data Result (A : Type 0) : Type 0 where
  ok : A → Result A
  err : SealError → Result A

-- "sha256="
abbrev pub prefix : Bytes
prefix = b's' ∷ b'h' ∷ b'a' ∷ b'2' ∷ b'5' ∷ b'6' ∷ b'=' ∷ []

abbrev pub manifest_file : Bytes
manifest_file = b'M' ∷ b'A' ∷ b'N' ∷ b'I' ∷ b'F' ∷ b'E' ∷ b'S' ∷ b'T' ∷ []

-- "MANIFEST.sig"
abbrev pub file_name : Bytes
file_name = manifest_file ++ b'.' ∷ b's' ∷ b'i' ∷ b'g' ∷ []

-- Lowercase hexadecimal digits.
unfoldable pub hex_digit : ℕ → ℕ
hex_digit n = if ltb n 10 then 48 + n else 87 + n

unfoldable pub hex_encode : Bytes → Bytes
hex_encode [] = []
hex_encode (b ∷ bs) = hex_digit (b / 16) ∷ hex_digit (b % 16) ∷ hex_encode bs

unfoldable pub hex_value : ℕ → Option ℕ
hex_value c =
    if leb 48 c && leb c 57
    then some (c - 48)
    else if leb 97 c && leb c 102
    then some (c - 87)
    else if leb 65 c && leb c 70
    then some (c - 55)
    else none

abbrev combine : Option ℕ → Option ℕ → Option Bytes → Option Bytes
combine (some h) (some l) (some bs) = some ((h * 16 + l) ∷ bs)
combine h l rest = none

unfoldable pub hex_decode : Bytes → Option Bytes
hex_decode [] = some []
hex_decode (c ∷ []) = none
hex_decode (c ∷ d ∷ rest) = combine (hex_value c) (hex_value d) (hex_decode rest)

-- The bytes of the space character that a text starts with, 0 if it starts with none. Outside ASCII,
-- these are the UTF-8 texts of U+0085, U+00A0, U+1680, U+2000 to U+200A, U+2028, U+2029, U+202F, U+205F
-- and U+3000.
unfoldable pub space_width : Bytes → ℕ
space_width [] = 0
space_width (c ∷ []) = if (leb 9 c && leb c 13) || eqb c 32 then 1 else 0
space_width (c ∷ d ∷ rest) =
    if (leb 9 c && leb c 13) || eqb c 32
    then 1
    else if eqb c 0xC2 && (eqb d 0x85 || eqb d 0xA0)
    then 2
    else elim rest [
      | [] ↦ 0
      | e ∷ es ↦
          if (eqb c 0xE1 && eqb d 0x9A && eqb e 0x80)
            || (eqb c 0xE2
                && eqb d 0x80
                && ((leb 0x80 e && leb e 0x8A) || eqb e 0xA8 || eqb e 0xA9 || eqb e 0xAF))
            || (eqb c 0xE2 && eqb d 0x81 && eqb e 0x9F)
            || (eqb c 0xE3 && eqb d 0x80 && eqb e 0x80)
          then 3
          else 0
    ]

-- The bytes of the space character that a reversed text ends with.
unfoldable pub space_width_back : Bytes → ℕ
unfolding space_width
space_width_back [] = 0
space_width_back (c ∷ []) = space_width (c ∷ [])
space_width_back (c ∷ d ∷ []) =
    if eqb (space_width (c ∷ [])) 1 then 1 else if eqb (space_width (d ∷ c ∷ [])) 2 then 2 else 0
space_width_back (c ∷ d ∷ e ∷ rest) =
    if eqb (space_width (c ∷ [])) 1
    then 1
    else if eqb (space_width (d ∷ c ∷ [])) 2
    then 2
    else if eqb (space_width (e ∷ d ∷ c ∷ [])) 3
    then 3
    else 0

-- `skip` bytes are left of a space character that is being dropped.
unfoldable pub trim_front : (Bytes → ℕ) → ℕ → Bytes → Bytes
trim_front width skip [] = []
trim_front width skip (c ∷ cs) =
    let after = trim_front width (width (c ∷ cs) - 1) cs in
    let within = trim_front width (skip - 1) cs in
    if ltb 0 skip then within else if ltb 0 (width (c ∷ cs)) then after else c ∷ cs

unfoldable pub reverse : Bytes → Bytes
reverse [] = []
reverse (c ∷ cs) = reverse cs ++ c ∷ []

unfoldable pub trim_space : Bytes → Bytes
unfolding trim_front reverse space_width space_width_back
trim_space t = reverse (trim_front space_width_back 0 (reverse (trim_front space_width 0 t)))

unfoldable pub strip_prefix : Bytes → Bytes → Option Bytes
strip_prefix [] t = some t
strip_prefix (p ∷ ps) [] = none
strip_prefix (p ∷ ps) (c ∷ cs) = let rest = strip_prefix ps cs in if eqb p c then rest else none

abbrev sized : Option Bytes → Option Bytes
sized none = none
sized (some raw) = if eqb (length raw) 32 then some raw else none

unfoldable pub decode_signature : Bytes → Option Bytes
unfolding hex_decode strip_prefix trim_space
decode_signature signature = elim (strip_prefix prefix (trim_space signature)) [
  | none ↦ none
  | some digits ↦ sized (hex_decode digits)
]

module _ (hmac : Bytes → Bytes → Bytes) where
  unfoldable pub sign : Bytes → Bytes → Result Bytes
  unfolding hex_encode
  sign body key = if key == [] then err missing_key else ok (prefix ++ hex_encode (hmac key body))

  unfoldable pub verify : Bytes → Bytes → Bytes → Result Unit
  verify body signature key =
      if key == [] then err missing_key else elim (decode_signature signature) [
        | none ↦ err malformed
        | some provided ↦ if hmac key body == provided then ok tt else err mismatch
      ]
