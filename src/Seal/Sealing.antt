-- ===== src/Seal/Sealing.antt =====
-- `VerifyBundle` accepts what `Bundle` returns.
use fleetsweeper.Common.{
  ◌≡◌, ◌≢◌, refl, sym, ap, subst, ◌∙◌, true, false, List, [], ◌∷◌, ◌++◌, Option, none, some, nat_eq,
  list_eq, list_beq, list_beq_iff, contains, arith, All, map,
}
use fleetsweeper.Common.Map.{lookup, insert, Unique, lookup-insert}
use fleetsweeper.Seal.{Bytes, Files, ok, prefix, manifest_file, file_name, hex_encode, sign, verify}
use fleetsweeper.Seal.Manifest.{
  is_reserved, names_of, sort_names, split_lines, list_names, body_or_empty, manifest_of,
  wrong_files, unlisted_files, check_manifest,
}
use fleetsweeper.Seal.Bundle.{bundle, verify_bundle}
use fleetsweeper.Seal.Signature.{IsMac, decode_signature-sign}
use fleetsweeper.Seal.Lines.{IsStorable, line_of, split_lines-manifest_lines}
use fleetsweeper.Seal.Order.{
  contains-sort_names, All-sort_names, sort_names-Distinct, names_of-Distinct, names_of-insert,
}
use fleetsweeper.Seal.Roundtrip.{is_held, Reads, read_lines, unlisted-none}

All-of_contains :
    (P : Bytes → Type 0) (ns : List Bytes) → ((n : Bytes) → contains ns n ≡ true → P n) → All P ns
All-of_contains P [] h = tt
All-of_contains P (n ∷ ns) h =
    (h n (ground (arith, list_beq_iff n n)), All-of_contains P ns (λ m c. h m (ground (arith, c))))

contains_file :
    (n : Bytes) (files : Files)
    → contains (names_of files) n ≡ true
    → (is_reserved n ≡ false) × (is_held (lookup n files) ≡ true)
unfolding names_of lookup
contains_file n [] c = ground arith
contains_file n ((j, body) ∷ files) c = ground (arith, contains_file n files, list_beq_iff j n, c)

held_body : (o : Option Bytes) → is_held o ≡ true → o ≡ some (body_or_empty o)
held_body none h = ground arith
held_body (some x) h = refl

-- The files of a bundle with a manifest and a signature of any text.
module _ (files : Files) (m sig : Bytes) where
  abbrev with_seal : Files
  with_seal = insert file_name sig (insert manifest_file m files)

  lookup-with_seal : (n : Bytes) → is_reserved n ≡ false → lookup n with_seal ≡ lookup n files
  lookup-with_seal n r = ground (
    arith,
    lookup-insert file_name n sig (insert manifest_file m files),
    lookup-insert manifest_file n m files,
    list_beq_iff file_name n,
    list_beq_iff manifest_file n,
    list_beq_iff n file_name,
    list_beq_iff n manifest_file,
  )

  manifest_found : lookup manifest_file with_seal ≡ some m
  unfolding list_beq
  manifest_found =
      lookup-insert file_name manifest_file sig (insert manifest_file m files)
      ∙ lookup-insert manifest_file manifest_file m files

  signature_found : lookup file_name with_seal ≡ some sig
  unfolding list_beq
  signature_found = lookup-insert file_name file_name sig (insert manifest_file m files)

  names_of-with_seal : names_of with_seal ≡ names_of files
  unfolding list_beq
  names_of-with_seal =
      names_of-insert file_name sig (insert manifest_file m files) refl
      ∙ names_of-insert manifest_file m files refl

module _ (sha256 : Bytes → Bytes) (hashes : (body : Bytes) → IsMac (sha256 body)) where
  abbrev listed_names : Files → List Bytes
  listed_names files = sort_names (names_of files)

  Reads-seal :
      (files : Files) (m sig : Bytes)
      → Unique files
      → All IsStorable (names_of files)
      → Reads sha256 hashes files (with_seal files m sig) (listed_names files) []
  unfolding lookup wrong_files
  Reads-seal files m sig u st =
      let here : Bytes → Type 0 =
        λ n. lookup n (with_seal files m sig) ≡ some (body_or_empty (lookup n files)) in
      let present = All-of_contains here (names_of files) (λ n c.
        lookup-with_seal files m sig n (contains_file n files c).0
        ∙ held_body (lookup n files) (contains_file n files c).1) in
      read_lines sha256 hashes files (with_seal files m sig) (listed_names files) []
        (All-sort_names IsStorable (names_of files) st)
        (All-sort_names here (names_of files) present)
        (sort_names-Distinct (names_of files) (names_of-Distinct files u))
        (All-of_contains (λ n. lookup n [] ≡ none) (listed_names files) (λ n c. refl)) refl

  complete_seal :
      (files : Files) (m sig : Bytes)
      (reads : Reads sha256 hashes files (with_seal files m sig) (listed_names files) [])
      → unlisted_files reads.listed (with_seal files m sig) ≡ []
  complete_seal files m sig reads = unlisted-none reads.listed (with_seal files m sig) (
      subst (All (λ n. is_held (lookup n reads.listed) ≡ true))
        (sym (names_of-with_seal files m sig))
        (All-of_contains (λ n. is_held (lookup n reads.listed) ≡ true) (names_of files)
          (λ n c. reads.covers n (ground (arith, contains-sort_names n (names_of files), c)))))

  checked :
      (m : Bytes) (target listed : Files)
      → list_names (split_lines m) [] ≡ some listed
      → wrong_files sha256 listed target ≡ []
      → unlisted_files listed target ≡ []
      → check_manifest sha256 m target ≡ ok tt
  unfolding check_manifest
  checked m target listed p w c = rw (p, check_manifest) (rw (w, c) refl)

  manifest_of_lines :
      (files : Files)
      → All IsStorable (names_of files)
      → split_lines (manifest_of sha256 files)
        ≡ map (line_of sha256 hashes files) (listed_names files)
  unfolding manifest_of
  manifest_of_lines files st =
      split_lines-manifest_lines sha256 hashes files (listed_names files)
        (All-sort_names IsStorable (names_of files) st)

  pub check_manifest-manifest_of :
      (files : Files) (sig : Bytes)
      → Unique files
      → All IsStorable (names_of files)
      → check_manifest sha256
          (manifest_of sha256 files)
          (insert file_name sig (insert manifest_file (manifest_of sha256 files) files))
        ≡ ok tt
  check_manifest-manifest_of files sig u st =
      let reads = Reads-seal files (manifest_of sha256 files) sig u st in
      checked (manifest_of sha256 files) (with_seal files (manifest_of sha256 files) sig)
        reads.listed (ap (λ ls. list_names ls []) (manifest_of_lines files st) ∙ reads.parsed)
        reads.right (complete_seal files (manifest_of sha256 files) sig reads)

module _ (sha256 : Bytes → Bytes) (hmac : Bytes → Bytes → Bytes)
    (hashes : (body : Bytes) → IsMac (sha256 body))
    (macs : (key m : Bytes) → IsMac (hmac key m)) where
  abbrev seal_text : Bytes → Bytes → Bytes
  seal_text key m = prefix ++ hex_encode (hmac key m) ++ b'\n' ∷ []

  bundle_result :
      (files : Files) (key : Bytes)
      → key ≢ []
      → bundle sha256 hmac files key
        ≡ ok (
          prefix ++ hex_encode (hmac key (manifest_of sha256 files)),
          with_seal files (manifest_of sha256 files) (seal_text key (manifest_of sha256 files)),
        )
  unfolding bundle sign
  bundle_result files key k = ground (arith, list_beq_iff key [])

  verify-seal : (m key : Bytes) → key ≢ [] → verify hmac m (seal_text key m) key ≡ ok tt
  unfolding verify
  verify-seal m key k = ground (
    arith,
    list_beq_iff key [],
    decode_signature-sign (hmac key m) (macs key m),
    list_beq_iff (hmac key m) (hmac key m),
  )

  verified :
      (files : Files) (key : Bytes)
      → key ≢ []
      → Unique files
      → All IsStorable (names_of files)
      → verify_bundle sha256 hmac
          (with_seal files (manifest_of sha256 files) (seal_text key (manifest_of sha256 files)))
          key
        ≡ ok tt
  unfolding verify_bundle
  verified files key k u st =
      let m = manifest_of sha256 files in
      ground (
        arith,
        manifest_found files m (seal_text key m),
        signature_found files m (seal_text key m),
        verify-seal m key k,
        check_manifest-manifest_of sha256 hashes files (seal_text key m) u st,
      )

  -- `Bundle` seals files under a key that is not empty, and what it returns verifies under that key, where
  -- no name is given twice, each name that the manifest lists is not empty, has no line feed, does not end
  -- with a carriage return and fits the scanner's buffer, and SHA-256 and HMAC give 32 bytes.
  pub verify_bundle-bundle :
      (files : Files) (key : Bytes)
      → key ≢ []
      → Unique files
      → All IsStorable (names_of files)
      → (sig : Bytes) × ((sealed : Files) × ((bundle sha256 hmac files key ≡ ok (sig, sealed))
            × (verify_bundle sha256 hmac sealed key ≡ ok tt)))
  verify_bundle-bundle files key k u st =
      let m = manifest_of sha256 files in
      (
        prefix ++ hex_encode (hmac key m),
        (
          with_seal files m (seal_text key m),
          (bundle_result files key k, verified files key k u st),
        ),
      )
