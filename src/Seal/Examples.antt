-- ===== src/Seal/Examples.antt =====
-- Sealed bundles, and the seal's theorems at concrete files.
use fleetsweeper.Common.{
  ◌%◌, ◌≡◌, refl, sym, [], ◌∷◌, ◌++◌, Option, some, ◌==◌, nat_eq, list_eq, list_beq, if◌then◌else◌,
  list_beq_iff, All, arith,
}
use fleetsweeper.Common.Map.{lookup, insert, Fresh, Unique}
use fleetsweeper.Seal.{
  Bytes, Files, Result, ok, err, contents, altered, manifest_file, file_name, hex_digit, hex_value,
  hex_encode, hex_decode, strip_prefix, reverse, trim_front, space_width, space_width_back,
  trim_space, decode_signature, sign, verify,
}
use fleetsweeper.Seal.Manifest.{
  names_of, bytes_le, insert_name, sort_names, split_lines, drop_cr, cut, parse_line, list_names,
  unlisted_files, manifest_line, manifest_of, wrong_files, check_manifest,
}
use fleetsweeper.Seal.Bundle.{bundle, verify_bundle}
use fleetsweeper.Seal.Tamper.{verify_bundle-same}
use fleetsweeper.Seal.Signature.{IsMac}
use fleetsweeper.Seal.Lines.{IsStorable}
use fleetsweeper.Seal.Sealing.{verify_bundle-bundle}

-- A hash that keeps one byte.
abbrev thirty_one : Bytes
thirty_one =
    0 ∷ 0 ∷ 0 ∷ 0 ∷ 0 ∷ 0 ∷ 0 ∷ 0 ∷ 0 ∷ 0 ∷ 0 ∷ 0 ∷ 0 ∷ 0 ∷ 0 ∷ 0 ∷ 0 ∷ 0 ∷ 0 ∷ 0 ∷ 0 ∷ 0 ∷ 0 ∷ 0
    ∷ 0 ∷ 0 ∷ 0 ∷ 0 ∷ 0 ∷ 0 ∷ 0 ∷ []

abbrev short_hash : Bytes → Bytes
short_hash [] = 0 ∷ thirty_one
short_hash (b ∷ bs) = b % 256 ∷ thirty_one

abbrev short_hmac : Bytes → Bytes → Bytes
short_hmac key m = short_hash m

short_hash-IsMac : (body : Bytes) → IsMac (short_hash body)
short_hash-IsMac [] = record { bytes = ground arith; width = refl }
short_hash-IsMac (b ∷ bs) = record { bytes = ground arith; width = refl }

abbrev key : Bytes
key = b'k' ∷ []

abbrev two_files : Files
two_files = (b'r' ∷ [], b'1' ∷ []) ∷ (b'h' ∷ [], b'2' ∷ b'3' ∷ []) ∷ []

two_files-IsStorable : All IsStorable (names_of two_files)
unfolding names_of list_beq
two_files-IsStorable = (
  record { one_line = ground arith; ends = refl; short = omega arith },
  (record { one_line = ground arith; ends = refl; short = omega arith }, tt),
)

verify_bundle-bundle_example :
    (sig : Bytes) × ((sealed : Files) × ((bundle short_hash short_hmac two_files key
          ≡ ok (sig, sealed))
        × (verify_bundle short_hash short_hmac sealed key ≡ ok tt)))
unfolding list_beq
verify_bundle-bundle_example =
    verify_bundle-bundle short_hash short_hmac short_hash-IsMac (λ k m. short_hash-IsMac m)
      two_files key (λ e. ground arith) ((refl, tt), (tt, tt)) two_files-IsStorable

abbrev files_of : Result (Bytes × Files) → Files
files_of (ok (sig, sealed)) = sealed
files_of (err e) = []

abbrev sealed_files : Files
sealed_files = files_of (bundle short_hash short_hmac two_files key)

-- The same files in another order.
abbrev moved : Files → Files
moved [] = []
moved (f ∷ fs) = fs ++ f ∷ []

-- An archive whose entries stand in another order verifies too.
moved_verifies : verify_bundle short_hash short_hmac (moved sealed_files) key ≡ ok tt
unfolding bundle sign verify_bundle verify check_manifest manifest_of manifest_line names_of
    bytes_le insert_name sort_names split_lines drop_cr cut parse_line list_names unlisted_files
    wrong_files hex_digit hex_value hex_encode hex_decode strip_prefix reverse trim_front
    space_width space_width_back trim_space decode_signature lookup insert list_beq
moved_verifies = refl

sealed_verifies : verify_bundle short_hash short_hmac sealed_files key ≡ ok tt
unfolding bundle sign verify_bundle verify check_manifest manifest_of manifest_line names_of
    bytes_le insert_name sort_names split_lines drop_cr cut parse_line list_names unlisted_files
    wrong_files hex_digit hex_value hex_encode hex_decode strip_prefix reverse trim_front
    space_width space_width_back trim_space decode_signature lookup insert list_beq
sealed_verifies = refl

-- A changed file is named.
altered_file :
    verify_bundle short_hash short_hmac (insert (b'h' ∷ []) (b'3' ∷ []) sealed_files) key
    ≡ err (contents (altered (b'h' ∷ []) ∷ []))
unfolding bundle sign verify_bundle verify check_manifest manifest_of manifest_line names_of
    bytes_le insert_name sort_names split_lines drop_cr cut parse_line list_names unlisted_files
    wrong_files hex_digit hex_value hex_encode hex_decode strip_prefix reverse trim_front
    space_width space_width_back trim_space decode_signature lookup insert list_beq
altered_file = refl

lookup-last :
    (n j body : Bytes) (fs : Files)
    → Fresh j fs
    → lookup n (fs ++ (j, body) ∷ []) ≡ (if j == n then some body else lookup n fs)
unfolding lookup
lookup-last n j body [] f = refl
lookup-last n j body ((i, b) ∷ fs) f =
    ground (
      arith,
      lookup-last n j body fs f.1,
      list_beq_iff j n,
      list_beq_iff i j,
      list_beq_iff i n,
      f.0,
    )

lookup-moved : (n : Bytes) (files : Files) → Unique files → lookup n (moved files) ≡ lookup n files
unfolding lookup
lookup-moved n [] u = refl
lookup-moved n ((j, body) ∷ fs) u = lookup-last n j body fs u.0

sealed_files-Unique : Unique sealed_files
unfolding bundle sign manifest_of manifest_line names_of bytes_le insert_name sort_names hex_digit
    hex_encode lookup insert list_beq
sealed_files-Unique = ((refl, (refl, (refl, tt))), ((refl, (refl, tt)), ((refl, tt), (tt, tt))))

one_value : {o o' : Option Bytes} (x y : Bytes) → o ≡ o' → o ≡ some x → o' ≡ some y → x ≡ y
one_value x y e a b = ground arith

verify_bundle-same_example :
    lookup (b'h' ∷ []) sealed_files ≡ lookup (b'h' ∷ []) (moved sealed_files)
unfolding list_beq
verify_bundle-same_example =
    verify_bundle-same short_hash short_hmac sealed_files (moved sealed_files) key (b'h' ∷ [])
      (λ m m' a b c.
        one_value m m' (sym (lookup-moved manifest_file sealed_files sealed_files-Unique)) a b)
      (λ n x y a b c. one_value x y (sym (lookup-moved n sealed_files sealed_files-Unique)) a b)
      sealed_verifies moved_verifies (sym (lookup-moved file_name sealed_files sealed_files-Unique))
      refl
