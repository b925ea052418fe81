-- ===== src/Names/Truncation.antt =====
-- Cut texts: Truncate of internal/util/text.go.
use fleetsweeper.Common.{
  ℕ, zero, suc, ◌+◌, ◌≤◌, ◌≡◌, refl, ◌&&◌, [], ◌∷◌, ◌++◌, arith, if◌then◌else◌, ltb, leb, length,
}
use fleetsweeper.Common.Integers.{ℤ, pos, negsuc, at_least, positive_part}
use fleetsweeper.Names.{Text, take}

-- The bytes of a code point in UTF-8.
unfoldable pub rune_len : ℕ → ℕ
rune_len c = if ltb c 0x80 then 1 else if ltb c 0x800 then 2 else if ltb c 0x10000 then 3 else 4

-- `len(s)`
unfoldable pub byte_len : Text → ℕ
unfolding rune_len
byte_len [] = 0
byte_len (c ∷ cs) = rune_len c + byte_len cs

abbrev pub ellipsis : Text
ellipsis = b'.' ∷ b'.' ∷ b'.' ∷ []

-- `Truncate` to a length above zero.
unfoldable pub cut_to : Text → ℕ → Text
unfolding byte_len
cut_to s n = if leb (byte_len s) n then s else if leb (length s) n then s else take n s ++ ellipsis

unfoldable pub truncate : Text → ℤ → Text
unfolding cut_to
truncate s (negsuc n) = s
truncate s (pos zero) = s
truncate s (pos (suc n)) = cut_to s (suc n)

abbrev pub plural : ℤ → Text
plural (pos (suc zero)) = []
plural n = b's' ∷ []

length-byte_len : (s : Text) → length s ≤ byte_len s
unfolding byte_len
length-byte_len [] = omega arith
length-byte_len (c ∷ cs) = ground (arith, length-byte_len cs)

-- The count of the bytes only saves a count of the characters.
cut_to_lem :
    (s : Text) (n : ℕ) → cut_to s n ≡ (if leb (length s) n then s else take n s ++ ellipsis)
unfolding cut_to
cut_to_lem s n = ground (arith, length-byte_len s)

-- A text is cut to its first n characters exactly when n is above zero and it has more of them; that the code
-- looks at the bytes first changes nothing.
pub truncate_lem :
    (s : Text) (n : ℤ)
    → truncate s n ≡ (
        if at_least 1 n && ltb (positive_part n) (length s)
        then take (positive_part n) s ++ ellipsis
        else s)
unfolding truncate
truncate_lem s (negsuc n) = refl
truncate_lem s (pos zero) = refl
truncate_lem s (pos (suc n)) = ground (arith, cut_to_lem s (suc n))
