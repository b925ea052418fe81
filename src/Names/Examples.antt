-- ===== src/Names/Examples.antt =====
-- Sanitized names, and what is proved of them at concrete names.
use fleetsweeper.Common.Integers.{pos}
use fleetsweeper.Names.{take}
use fleetsweeper.Names.Truncation.{truncate, ellipsis}
use fleetsweeper.Common.{◌≡◌, refl, [], ◌∷◌, arith}
use fleetsweeper.Names.{
  Text, lower, is_name_char, dash_invalid, collapse_dashes, trim_left, trim_right, sanitize_name,
}
use fleetsweeper.Names.Safe.{IsClean}
use fleetsweeper.Names.Clean.{sanitize_name-IsClean}

-- "_Ab--C!"
abbrev raw : Text
raw = b'_' ∷ b'A' ∷ b'b' ∷ b'-' ∷ b'-' ∷ b'C' ∷ b'!' ∷ []

raw_sanitized : sanitize_name raw ≡ b'a' ∷ b'b' ∷ b'-' ∷ b'c' ∷ []
unfolding sanitize_name lower is_name_char dash_invalid collapse_dashes trim_left trim_right
raw_sanitized = refl

sanitize_name-IsClean_example : IsClean (sanitize_name raw)
sanitize_name-IsClean_example = sanitize_name-IsClean raw

-- "a..b"
abbrev two_dots : Text
two_dots = b'a' ∷ b'.' ∷ b'.' ∷ b'b' ∷ []

two_dots-IsClean : IsClean two_dots
unfolding is_name_char
two_dots-IsClean = record {
  chars = ground arith;
  dashes = ground arith;
  starts = refl;
  ends = refl;
  short = omega arith;
  some_char = omega arith;
}

cut_short : truncate (b'a' ∷ b'b' ∷ 0x2713 ∷ b'c' ∷ []) (pos 3) ≡ b'a' ∷ b'b' ∷ 0x2713 ∷ ellipsis
unfolding truncate take
cut_short = refl

-- The bytes are more than three, the characters are not.
not_cut : truncate (b'a' ∷ b'b' ∷ 0x2713 ∷ []) (pos 3) ≡ b'a' ∷ b'b' ∷ 0x2713 ∷ []
unfolding truncate take
not_cut = refl
