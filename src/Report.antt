-- ===== src/Report.antt =====
-- Findings, with the severities of internal/util/text.go and the fingerprints of
-- internal/util/fingerprint.go. SHA-256 is the parameter `sha256`. Of a finding stand here the fields that
-- the modelled code reads.
pub mod Persistence
pub mod Counts
pub mod Recurrence
pub mod Window
pub mod Coverage
pub mod Scores
pub mod Examples
use Prim.Native.String.{◌++◌ as append}
use fleetsweeper.Common.{ℕ, Bool, List, String, if◌then◌else◌, leb, ◌==◌, string_eq}

pub record ClusterMark : Type 0 where
  pub cluster : String
  pub severity : String

pub record Finding : Type 0 where
  pub severity : String
  pub cluster : String
  pub scanner : String
  pub rule : String
  pub title : String
  -- the clusters that a finding about the fleet holds responsible
  pub marks : List ClusterMark

-- An unknown severity ranks 0.
unfoldable pub severity_rank : String → ℕ
severity_rank s =
    if s == "critical" then 3 else if s == "warning" then 2 else if s == "info" then 1 else 0

unfoldable pub severity_at_least : String → String → Bool
severity_at_least got want = leb (severity_rank want) (severity_rank got)

module _ (sha256 : String → String) where
  unfoldable pub fingerprint : String → String → String → String
  fingerprint cluster scanner rule =
      sha256 (append cluster (append "\0" (append scanner (append "\0" rule))))

  unfoldable pub finding_fingerprint : Finding → String
  finding_fingerprint f = fingerprint f.cluster f.scanner f.rule
