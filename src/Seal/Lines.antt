-- ===== src/Seal/Lines.antt =====
-- The lines of a manifest, and what `CheckManifest` reads back from each.
use fleetsweeper.Common.{
  ℕ, ◌+◌, ◌<◌, ◌≡◌, refl, ap, ◌∙◌, false, List, [], ◌∷◌, ◌++◌, some, eqb, nat_eq, list_eq, list_beq,
  length, length-append, arith, All, map,
}
use fleetsweeper.Common.Map.{lookup}
use fleetsweeper.Seal.{Bytes, Files}
use fleetsweeper.Seal.Manifest.{
  split_lines, drop_cr, cut, parse_line, max_token_size, digest, body_or_empty, manifest_line,
  manifest_lines,
}
use fleetsweeper.Seal.Hex.{IsVisible, length-hex_encode, hex_encode-IsVisible}
use fleetsweeper.Seal.Signature.{IsMac}

abbrev pub HasNo : ℕ → Bytes → Type 0
HasNo b xs = All (λ c. eqb c b ≡ false) xs

-- The text has a last byte, and it is no carriage return.
abbrev pub EndsPlain : Bytes → Type 0
EndsPlain [] = ⊥
EndsPlain (c ∷ []) = eqb c b'\r' ≡ false
EndsPlain (c ∷ d ∷ cs) = EndsPlain (d ∷ cs)

-- A name that a manifest can hold.
pub record IsStorable (name : Bytes) : Type 0 where
  pub one_line : HasNo b'\n' name
  pub ends : EndsPlain name
  pub short : length name + 66 < max_token_size

pub split_lines-append :
    (line rest : Bytes)
    → HasNo b'\n' line
    → split_lines (line ++ b'\n' ∷ rest) ≡ line ∷ split_lines rest
unfolding split_lines
split_lines-append [] rest h = refl
split_lines-append (c ∷ cs) rest h = ground (arith, h.0, split_lines-append cs rest h.1)

cut-append :
    (sum name : Bytes) → HasNo b' ' sum → cut (sum ++ b' ' ∷ b' ' ∷ name) ≡ some (sum, name)
unfolding cut
cut-append [] name h = refl
cut-append (c ∷ cs) name h = ground (arith, h.0, cut-append cs name h.1)

drop_cr-EndsPlain : (t : Bytes) → EndsPlain t → drop_cr t ≡ t
unfolding drop_cr
drop_cr-EndsPlain [] h = absurd h
drop_cr-EndsPlain (c ∷ []) h = ground arith
drop_cr-EndsPlain (c ∷ d ∷ cs) h = ap (λ t. c ∷ t) (drop_cr-EndsPlain (d ∷ cs) h)

EndsPlain-cons : (c : ℕ) (t : Bytes) → EndsPlain t → EndsPlain (c ∷ t)
EndsPlain-cons c [] h = absurd h
EndsPlain-cons c (d ∷ cs) h = h

EndsPlain-append : (xs t : Bytes) → EndsPlain t → EndsPlain (xs ++ t)
EndsPlain-append [] t h = h
EndsPlain-append (x ∷ xs) t h = EndsPlain-cons x (xs ++ t) (EndsPlain-append xs t h)

EndsPlain-nonempty : (t : Bytes) → EndsPlain t → list_beq t [] ≡ false
unfolding list_beq
EndsPlain-nonempty [] h = absurd h
EndsPlain-nonempty (c ∷ cs) h = refl

visible-HasNo : (b : ℕ) (xs : Bytes) → b < 48 → All IsVisible xs → HasNo b xs
visible-HasNo b [] l h = tt
visible-HasNo b (x ∷ xs) l h = (ground (arith, h.0), visible-HasNo b xs l h.1)

HasNo-append : (b : ℕ) (xs ys : Bytes) → HasNo b xs → HasNo b ys → HasNo b (xs ++ ys)
HasNo-append b [] ys h k = k
HasNo-append b (x ∷ xs) ys h k = (h.0, HasNo-append b xs ys h.1 k)

newline_after : (ys rest : Bytes) → (ys ++ b'\n' ∷ []) ++ rest ≡ ys ++ b'\n' ∷ rest
newline_after [] rest = refl
newline_after (y ∷ ys) rest = ap (λ t. y ∷ t) (newline_after ys rest)

newline_last : (xs ys rest : Bytes) → (xs ++ ys ++ b'\n' ∷ []) ++ rest ≡ (xs ++ ys) ++ b'\n' ∷ rest
newline_last [] ys rest = newline_after ys rest
newline_last (x ∷ xs) ys rest = ap (λ t. x ∷ t) (newline_last xs ys rest)

module _ (sum name : Bytes) (visible : All IsVisible sum) (sized : length sum ≡ 64)
    (storable : IsStorable name) where
  abbrev entry : Bytes
  entry = sum ++ b' ' ∷ b' ' ∷ name

  pub entry-HasNo : HasNo b'\n' (sum ++ b' ' ∷ b' ' ∷ name)
  entry-HasNo =
      HasNo-append b'\n' sum (b' ' ∷ b' ' ∷ name) (visible-HasNo b'\n' sum (omega arith) visible)
        (refl, (refl, storable.one_line))

  pub parse_line-entry : parse_line (sum ++ b' ' ∷ b' ' ∷ name) ≡ some (name, sum)
  unfolding parse_line
  parse_line-entry = ground (
    arith,
    length-append sum (b' ' ∷ b' ' ∷ name),
    storable.short,
    sized,
    drop_cr-EndsPlain entry (
        EndsPlain-append sum (b' ' ∷ b' ' ∷ name)
          (EndsPlain-append (b' ' ∷ b' ' ∷ []) name storable.ends)),
    cut-append sum name (visible-HasNo b' ' sum (omega arith) visible),
    EndsPlain-nonempty name storable.ends,
  )

module _ (sha256 : Bytes → Bytes) (mac : (body : Bytes) → IsMac (sha256 body)) (files : Files) where
  abbrev pub digest_of : Bytes → Bytes
  digest_of name = digest sha256 (body_or_empty (lookup name files))

  abbrev pub line_of : Bytes → Bytes
  line_of name = digest_of name ++ b' ' ∷ b' ' ∷ name

  pub parse_line-line_of :
      (name : Bytes) → IsStorable name → parse_line (line_of name) ≡ some (name, digest_of name)
  parse_line-line_of name h =
      let d = mac (body_or_empty (lookup name files)) in
      parse_line-entry (digest_of name) name
        (hex_encode-IsVisible (sha256 (body_or_empty (lookup name files))) d.bytes)
        (ground (arith, length-hex_encode (sha256 (body_or_empty (lookup name files))), d.width)) h

  pub split_lines-manifest_lines :
      (ns : List Bytes)
      → All IsStorable ns
      → split_lines (manifest_lines sha256 files ns) ≡ map line_of ns
  unfolding manifest_line split_lines
  split_lines-manifest_lines [] h = refl
  split_lines-manifest_lines (n ∷ ns) h =
      let d = mac (body_or_empty (lookup n files)) in
      ap split_lines (newline_last (digest_of n) (b' ' ∷ b' ' ∷ n) (manifest_lines sha256 files ns))
      ∙ split_lines-append (line_of n) (manifest_lines sha256 files ns) (
          entry-HasNo (digest_of n) n
            (hex_encode-IsVisible (sha256 (body_or_empty (lookup n files))) d.bytes)
            (ground (arith, length-hex_encode (sha256 (body_or_empty (lookup n files))), d.width))
            h.0)
      ∙ ap (λ ls. line_of n ∷ ls) (split_lines-manifest_lines ns h.1)
