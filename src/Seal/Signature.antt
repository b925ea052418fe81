-- ===== src/Seal/Signature.antt =====
-- The signature that `Sign` writes is the one that `Verify` accepts.
use fleetsweeper.Common.{
  ℕ, ◌≡◌, refl, ap, ◌∙◌, false, [], ◌∷◌, ◌++◌, some, eqb, nat_eq, list_eq, length, arith, All,
  All-append,
}
use fleetsweeper.Seal.{
  Bytes, prefix, hex_encode, space_width, space_width_back, trim_front, reverse, strip_prefix,
  trim_space, decode_signature,
}
use fleetsweeper.Seal.Hex.{IsByte, IsVisible, hex_decode-hex_encode, hex_encode-IsVisible}

reverse-append : (xs : Bytes) (c : ℕ) → reverse (xs ++ c ∷ []) ≡ c ∷ reverse xs
unfolding reverse
reverse-append [] c = refl
reverse-append (x ∷ xs) c = rw (reverse-append xs c) refl

reverse-reverse : (xs : Bytes) → reverse (reverse xs) ≡ xs
unfolding reverse
reverse-reverse [] = refl
reverse-reverse (x ∷ xs) = reverse-append (reverse xs) x ∙ ap (λ t. x ∷ t) (reverse-reverse xs)

reverse-IsVisible : (xs : Bytes) → All IsVisible xs → All IsVisible (reverse xs)
unfolding reverse
reverse-IsVisible [] h = tt
reverse-IsVisible (x ∷ xs) h =
    All-append IsVisible (reverse xs) (x ∷ []) (reverse-IsVisible xs h.1) (h.0, tt)

-- A text that ends with a visible character ends with no space.
ends_no_one : (c : ℕ) → IsVisible c → space_width (c ∷ []) ≡ 0
unfolding space_width
ends_no_one c h = ground arith

ends_no_two : (d c : ℕ) → IsVisible c → eqb (space_width (d ∷ c ∷ [])) 2 ≡ false
unfolding space_width
ends_no_two d c h = ground arith

ends_no_three : (e d c : ℕ) → IsVisible c → eqb (space_width (e ∷ d ∷ c ∷ [])) 3 ≡ false
unfolding space_width
ends_no_three e d c h = ground arith

visible_end : (c : ℕ) (cs : Bytes) → IsVisible c → space_width_back (c ∷ cs) ≡ 0
unfolding space_width_back
visible_end c [] h = ends_no_one c h
visible_end c (d ∷ []) h = rw (ends_no_one c h, ends_no_two d c h) refl
visible_end c (d ∷ e ∷ rest) h = rw (ends_no_one c h, ends_no_two d c h, ends_no_three e d c h) refl

trim_back : (r : Bytes) → All IsVisible r → trim_front space_width_back 0 r ≡ r
unfolding trim_front
trim_back [] h = refl
trim_back (c ∷ cs) h = ground (arith, visible_end c cs h.0)

newline_end : (r : Bytes) → space_width_back (b'\n' ∷ r) ≡ 1
unfolding space_width_back space_width
newline_end [] = refl
newline_end (d ∷ []) = refl
newline_end (d ∷ e ∷ rest) = refl

kept_front :
    (rest : Bytes)
    → trim_front space_width 0 (prefix ++ rest ++ b'\n' ∷ []) ≡ (prefix ++ rest) ++ b'\n' ∷ []
unfolding trim_front space_width
kept_front rest = refl

drop_newline : (r : Bytes) → All IsVisible r → trim_front space_width_back 0 (b'\n' ∷ r) ≡ r
unfolding trim_front
drop_newline r v = ground (arith, newline_end r, trim_back r v)

prefix-IsVisible : All IsVisible prefix
prefix-IsVisible = ground arith

-- The newline after a signature goes, and nothing else.
trim_space-newline :
    (rest : Bytes)
    → All IsVisible (prefix ++ rest)
    → trim_space (prefix ++ rest ++ b'\n' ∷ []) ≡ prefix ++ rest
unfolding trim_space
trim_space-newline rest h =
    let t : Bytes = prefix ++ rest in
    ap (λ x. reverse (trim_front space_width_back 0 (reverse x))) (kept_front rest)
    ∙ ap (λ x. reverse (trim_front space_width_back 0 x)) (reverse-append t b'\n')
    ∙ ap reverse (drop_newline (reverse t) (reverse-IsVisible t h))
    ∙ reverse-reverse t

pub strip_prefix-append : (ps t : Bytes) → strip_prefix ps (ps ++ t) ≡ some t
unfolding strip_prefix
strip_prefix-append [] t = refl
strip_prefix-append (p ∷ ps) t = ground (arith, strip_prefix-append ps t)

-- A key and what Go's HMAC-SHA256 makes with it: 32 bytes.
pub record IsMac (mac : Bytes) : Type 0 where
  pub bytes : All IsByte mac
  pub width : length mac ≡ 32

pub decode_signature-sign :
    (mac : Bytes) → IsMac mac → decode_signature (prefix ++ hex_encode mac ++ b'\n' ∷ []) ≡ some mac
unfolding decode_signature
decode_signature-sign mac h =
    let visible : All IsVisible (prefix ++ hex_encode mac) =
      All-append IsVisible prefix (hex_encode mac) prefix-IsVisible
        (hex_encode-IsVisible mac h.bytes) in
    ground (
      arith,
      trim_space-newline (hex_encode mac) visible,
      strip_prefix-append prefix (hex_encode mac),
      hex_decode-hex_encode mac h.bytes,
      h.width,
    )
