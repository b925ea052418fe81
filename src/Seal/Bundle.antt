-- ===== src/Seal/Bundle.antt =====
-- `Bundle` and `VerifyBundle` of internal/seal/bundle.go.
use fleetsweeper.Common.{[], ◌∷◌, ◌++◌, Option, some, nat_eq, list_eq}
use fleetsweeper.Common.Map.{lookup, insert}
use fleetsweeper.Seal.{
  Bytes, Files, Result, ok, err, unsealed, manifest_file, file_name, sign, verify,
}
use fleetsweeper.Seal.Manifest.{manifest_of, check_manifest}

module _ (sha256 : Bytes → Bytes) (hmac : Bytes → Bytes → Bytes) where
  -- The files with their manifest and its signature.
  unfoldable pub bundle : Files → Bytes → Result (Bytes × Files)
  bundle files key = elim (sign hmac (manifest_of sha256 files) key) [
    | err e ↦ err e
    | ok sig ↦ ok (
      sig,
      insert file_name (sig ++ b'\n' ∷ []) (insert manifest_file (manifest_of sha256 files) files),
    )
  ]

  abbrev then_contents : Bytes → Files → Result Unit → Result Unit
  then_contents m files (err e) = err e
  then_contents m files (ok u) = check_manifest sha256 m files

  abbrev pub verify_entries : Option Bytes → Option Bytes → Files → Bytes → Result Unit
  verify_entries (some m) (some sig) files key = then_contents m files (verify hmac m sig key)
  verify_entries m sig files key = err unsealed

  unfoldable pub verify_bundle : Files → Bytes → Result Unit
  verify_bundle files key =
      verify_entries (lookup manifest_file files) (lookup file_name files) files key
