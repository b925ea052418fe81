-- ===== src/Report/Examples.antt =====
-- A window of three scans, and what is proved of it.
use fleetsweeper.Common.{ℕ, ◌≡◌, refl, Bool, false, List, [], ◌∷◌, String, All, map, string_eq}
use fleetsweeper.Common.Map.{lookup, insert}
use fleetsweeper.Report.{Finding, fingerprint, finding_fingerprint, severity_rank}
use fleetsweeper.Report.Persistence.{
  FindingPersistence, persistence_class, note_finding, note_scan, note_series, has_print,
  streak_from, recent_streak, comes_before, insert_sorted, sort_stable, entries,
  compute_persistence,
}
use fleetsweeper.Report.Window.{Counted, compute_persistence-Counted}

abbrev privileged : Finding
privileged = record {
  severity = "critical";
  cluster = "east";
  scanner = "workload-security";
  rule = "privileged";
  title = "2 privileged pods";
  marks = [];
}

abbrev stale : Finding
stale = record {
  severity = "warning";
  cluster = "west";
  scanner = "nodes";
  rule = "stale";
  title = "1 stale node";
  marks = [];
}

abbrev same : String → String
same s = s

-- Oldest first; the middle scan has one finding twice.
abbrev window : List (List Finding)
window = (privileged ∷ []) ∷ (privileged ∷ privileged ∷ stale ∷ []) ∷ (privileged ∷ []) ∷ []

abbrev nobody : String → Bool
nobody fp = false

abbrev summary : FindingPersistence → String × (ℕ × (ℕ × String))
summary p = (p.title, (p.present, (p.streak, p.class)))

three_scans :
    map summary (compute_persistence same window nobody)
    ≡ ("2 privileged pods", (3, (3, "chronic"))) ∷ ("1 stale node", (1, (0, "intermittent"))) ∷ []
unfolding persistence_class note_finding note_scan note_series has_print streak_from recent_streak
    comes_before insert_sorted sort_stable entries compute_persistence lookup insert fingerprint
    finding_fingerprint severity_rank
three_scans = refl

compute_persistence-Counted_example :
    All (Counted same window) (compute_persistence same window nobody)
compute_persistence-Counted_example = compute_persistence-Counted same window nobody
