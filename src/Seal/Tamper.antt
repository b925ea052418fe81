-- ===== src/Seal/Tamper.antt =====
-- What a bundle that verifies is worth: its files are those that were sealed.
use fleetsweeper.Common.{
  ◌≡◌, inl, inr, refl, sym, ap, subst, ◌∙◌, Bool, true, false, List, [], ◌∷◌, ◌++◌, Option, none,
  some, ◌==◌, nat_eq, list_eq, list_beq_iff, arith, Option-cases,
}
use fleetsweeper.Common.Map.{lookup}
use fleetsweeper.Seal.{
  Bytes, Files, Problem, ok, manifest_file, file_name, decode_signature, verify,
}
use fleetsweeper.Seal.Manifest.{
  is_reserved, split_lines, list_names, digest, wrong_files, unlisted_files, report, check_manifest,
}
use fleetsweeper.Seal.Bundle.{verify_entries, verify_bundle}

no_problems : (xs ys : List Problem) → report (xs ++ ys) ≡ ok tt → (xs ≡ []) × (ys ≡ [])
no_problems [] [] e = (refl, refl)
no_problems [] (y ∷ ys) e = ground arith
no_problems (x ∷ xs) ys e = ground arith

unlisted_nowhere :
    (name : Bytes) (listed files : Files)
    → is_reserved name ≡ false
    → unlisted_files listed files ≡ []
    → lookup name listed ≡ none
    → lookup name files ≡ none
unfolding unlisted_files lookup
unlisted_nowhere name listed [] r h n = refl
unlisted_nowhere name listed ((j, body) ∷ files) r h n =
    ground (arith, list_beq_iff j name, unlisted_nowhere name listed files r, n, h)

module _ (sha256 : Bytes → Bytes) where
  -- A file that a digest is the digest of.
  abbrev agrees : Option Bytes → Bytes → Bool
  agrees none want = false
  agrees (some body) want = digest sha256 body == want

  listed-agrees :
      (name want : Bytes) (listed files : Files)
      → wrong_files sha256 listed files ≡ []
      → lookup name listed ≡ some want
      → agrees (lookup name files) want ≡ true
  unfolding wrong_files lookup
  listed-agrees name want [] files h l = ground arith
  listed-agrees name want ((j, sum) ∷ listed) files h l =
      ground (arith, list_beq_iff j name, listed-agrees name want listed files, h, l)

  -- What an accepted manifest lists of the files.
  pub record Lists (m : Bytes) (files : Files) : Type 0 where
    pub listed : Files
    pub parsed : list_names (split_lines m) [] ≡ some listed
    pub right : wrong_files sha256 listed files ≡ []
    pub complete : unlisted_files listed files ≡ []

  check_manifest-Lists :
      (m : Bytes) (files : Files) → check_manifest sha256 m files ≡ ok tt → Lists m files
  unfolding check_manifest
  check_manifest-Lists m files e = elim (Option-cases (list_names (split_lines m) [])) [
    | inl n ↦ absurd (ground (arith, n, e))
    | inr (listed, p) ↦
        let clean =
          no_problems (wrong_files sha256 listed files) (unlisted_files listed files)
            (ground (arith, p, e)) in
        record { listed = listed; parsed = p; right = clean.0; complete = clean.1 }
  ]

  -- No two different files of one name have one digest.
  abbrev pub NoCollision : Files → Files → Type 0
  NoCollision files files' =
      (name body body' : Bytes)
      → lookup name files ≡ some body
      → lookup name files' ≡ some body'
      → digest sha256 body ≡ digest sha256 body'
      → body ≡ body'

  same_listed :
      (name want : Bytes) (files files' : Files)
      → NoCollision files files'
      → agrees (lookup name files) want ≡ true
      → agrees (lookup name files') want ≡ true
      → lookup name files ≡ lookup name files'
  same_listed name want files files' free a a' = elim (Option-cases (lookup name files)) [
    | inl e ↦ absurd (ground (arith, e, a))
    | inr (body, e) ↦ elim (Option-cases (lookup name files')) [
      | inl e' ↦ absurd (ground (arith, e', a'))
      | inr (body', e') ↦
          let d : digest sha256 body ≡ want =
            (list_beq_iff (digest sha256 body) want).0 (ground (arith, e, a)) in
          let d' : digest sha256 body' ≡ want =
            (list_beq_iff (digest sha256 body') want).0 (ground (arith, e', a')) in
          e ∙ ap some (free name body body' e e' (d ∙ sym d')) ∙ sym e'
    ]
  ]

  pub check_manifest-same :
      (m name : Bytes) (files files' : Files)
      → NoCollision files files'
      → is_reserved name ≡ false
      → Lists m files
      → Lists m files'
      → lookup name files ≡ lookup name files'
  check_manifest-same m name files files' free r a b =
      let same : a.listed ≡ b.listed = ground (arith, a.parsed, b.parsed) in
      elim (Option-cases (lookup name a.listed)) [
        | inl n ↦
            unlisted_nowhere name a.listed files r a.complete n
            ∙ sym (
                unlisted_nowhere name b.listed files' r b.complete
                  (sym (ap (lookup name) same) ∙ n))
        | inr (want, l) ↦
            same_listed name want files files' free
              (listed-agrees name want a.listed files a.right l)
              (listed-agrees name want b.listed files' b.right (sym (ap (lookup name) same) ∙ l))
      ]

module _ (sha256 : Bytes → Bytes) (hmac : Bytes → Bytes → Bytes) where
  -- What an accepted bundle holds.
  pub record Sealed (files : Files) (key : Bytes) : Type 0 where
    pub m : Bytes
    pub sig : Bytes
    pub mac : Bytes
    pub has_manifest : lookup manifest_file files ≡ some m
    pub has_signature : lookup file_name files ≡ some sig
    pub decoded : decode_signature sig ≡ some mac
    pub signed : hmac key m ≡ mac
    pub lists : Lists sha256 m files

  verify_mac :
      (m sig key : Bytes)
      → verify hmac m sig key ≡ ok tt
      → (mac : Bytes) × ((decode_signature sig ≡ some mac) × (hmac key m ≡ mac))
  unfolding verify
  verify_mac m sig key e = elim (Option-cases (decode_signature sig)) [
    | inl n ↦ absurd (ground (arith, n, e))
    | inr (mac, d) ↦ (mac, (d, (list_beq_iff (hmac key m) mac).0 (ground (arith, d, e))))
  ]

  verify_cases :
      (m sig : Bytes) (files : Files) (key : Bytes)
      → verify_entries sha256 hmac (some m) (some sig) files key ≡ ok tt
      → (verify hmac m sig key ≡ ok tt) × (check_manifest sha256 m files ≡ ok tt)
  verify_cases m sig files key e = ground arith

  verify_bundle-Sealed :
      (files : Files) (key : Bytes) → verify_bundle sha256 hmac files key ≡ ok tt → Sealed files key
  unfolding verify_bundle
  verify_bundle-Sealed files key e = elim (Option-cases (lookup manifest_file files)) [
    | inl n ↦ absurd (ground (arith, n, e))
    | inr (m, hm) ↦ elim (Option-cases (lookup file_name files)) [
      | inl n ↦ absurd (ground (arith, hm, n, e))
      | inr (sig, hs) ↦
          let both = verify_cases m sig files key (ground (arith, hm, hs, e)) in
          let (mac, (d, s)) = verify_mac m sig key both.0 in
          record {
            m = m;
            sig = sig;
            mac = mac;
            has_manifest = hm;
            has_signature = hs;
            decoded = d;
            signed = s;
            lists = check_manifest-Lists sha256 m files both.1;
          }
    ]
  ]

  -- No two different manifests of two bundles have one signature.
  abbrev pub NoForgery : Files → Files → Bytes → Type 0
  NoForgery files files' key =
      (m m' : Bytes)
      → lookup manifest_file files ≡ some m
      → lookup manifest_file files' ≡ some m'
      → hmac key m ≡ hmac key m'
      → m ≡ m'

  one_manifest :
      (files files' : Files) (key : Bytes) (a : Sealed files key) (b : Sealed files' key)
      → NoForgery files files' key
      → lookup file_name files ≡ lookup file_name files'
      → a.m ≡ b.m
  one_manifest files files' key a b free e = free a.m b.m a.has_manifest b.has_manifest (
      ground (arith, a.signed, b.signed, a.decoded, b.decoded, a.has_signature, b.has_signature, e))

  -- Two bundles that verify under one key and carry one signature hold the same files, none more and none
  -- less, but for the manifest and the signature themselves, where no two manifests share a signature and
  -- no two files of one name share a digest.
  pub verify_bundle-same :
      (files files' : Files) (key name : Bytes)
      → NoForgery files files' key
      → NoCollision sha256 files files'
      → verify_bundle sha256 hmac files key ≡ ok tt
      → verify_bundle sha256 hmac files' key ≡ ok tt
      → lookup file_name files ≡ lookup file_name files'
      → is_reserved name ≡ false
      → lookup name files ≡ lookup name files'
  verify_bundle-same files files' key name one free v v' e r =
      let a = verify_bundle-Sealed files key v in
      let b = verify_bundle-Sealed files' key v' in
      check_manifest-same sha256 b.m name files files' free r
        (subst (λ m. Lists sha256 m files) (one_manifest files files' key a b one e) a.lists)
        b.lists
