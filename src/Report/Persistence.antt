-- ===== src/Report/Persistence.antt =====
-- How often a finding recurs over a window of scans: internal/report/persistence.go.
-- A fraction of present by total stands as these two numbers, and 0.7 and 0.3 as seven and three tenths of
-- the total: the program's float64 compares the same way, since fractions of fewer than 2^49 scans lie
-- farther apart than it rounds.
use Prim.Native.Nat.{Ordering}
use Prim.Native.String.{compare}
use fleetsweeper.Common.{
  ℕ, ◌+◌, ◌*◌, Bool, true, false, not, ◌||◌, List, [], ◌∷◌, ◌++◌, none, some, String, if◌then◌else◌,
  ltb, leb, eqb, ◌==◌, string_eq, length, contains,
}
use fleetsweeper.Common.Map.{Map, lookup, insert}
use fleetsweeper.Report.{Finding, severity_rank, finding_fingerprint}

abbrev pub reverse {ℓ} : {A : Type ℓ} → List A → List A
reverse [] = []
reverse (x ∷ xs) = reverse xs ++ x ∷ []

-- What is gathered of one finding.
pub record Agg : Type 0 where
  pub cluster : String
  pub scanner : String
  pub rule : String
  pub title : String
  pub severity : String
  pub present : ℕ

pub record Seen : Type 0 where
  pub seen : Map String Agg
  pub order : List String

pub record FindingPersistence : Type 0 where
  pub fingerprint : String
  pub cluster : String
  pub scanner : String
  pub rule : String
  pub title : String
  pub severity : String
  pub present : ℕ
  pub total : ℕ
  pub streak : ℕ
  pub class : String
  pub acked : Bool

unfoldable pub persistence_class : ℕ → ℕ → String
persistence_class present total =
    if leb (7 * total) (10 * present)
    then "chronic"
    else if leb (10 * present) (3 * total)
    then "transient"
    else "intermittent"

abbrev pub first_seen : Finding → Agg
first_seen f = record {
  cluster = f.cluster;
  scanner = f.scanner;
  rule = f.rule;
  title = "";
  severity = "";
  present = 0;
}

abbrev pub counted : Finding → Agg → Agg
counted f a = record a { present = a.present + 1; severity = f.severity; title = f.title }

unfoldable pub note_finding : String → Finding → Seen → Seen
note_finding fp f s = elim (lookup fp s.seen) [
  | none ↦ record { seen = insert fp (counted f (first_seen f)) s.seen; order = s.order ++ fp ∷ [] }
  | some a ↦ record s { seen = insert fp (counted f a) s.seen }
]

-- Most persistent first, then by severity, cluster and title.
abbrev string_lt : String → String → Bool
string_lt s t = elim (compare s t) [ Ordering.lt ↦ true | _ ↦ false ]

unfoldable pub comes_before : FindingPersistence → FindingPersistence → Bool
comes_before a b =
    if not (eqb a.present b.present)
    then ltb b.present a.present
    else if not (eqb (severity_rank a.severity) (severity_rank b.severity))
    then ltb (severity_rank b.severity) (severity_rank a.severity)
    else if not (a.cluster == b.cluster)
    then string_lt a.cluster b.cluster
    else string_lt a.title b.title

-- A stable sort: an entry passes those that come before it.
unfoldable pub insert_sorted :
    FindingPersistence → List FindingPersistence → List FindingPersistence
insert_sorted a [] = a ∷ []
insert_sorted a (b ∷ bs) =
    let rest = insert_sorted a bs in if comes_before b a then b ∷ rest else a ∷ b ∷ bs

unfoldable pub sort_stable : List FindingPersistence → List FindingPersistence
unfolding insert_sorted
sort_stable [] = []
sort_stable (a ∷ bs) = insert_sorted a (sort_stable bs)

module _ (sha256 : String → String) where
  abbrev pub print_of : Finding → String
  print_of f = finding_fingerprint sha256 f

  -- One scan: a finding repeated in it counts once.
  unfoldable pub note_scan : List String → List Finding → Seen → Seen
  note_scan in_scan [] s = s
  note_scan in_scan (f ∷ fs) s =
      let again = note_scan in_scan fs s in
      let next = note_scan (print_of f ∷ in_scan) fs (note_finding (print_of f) f s) in
      if contains in_scan (print_of f) then again else next

  unfoldable pub note_series : List (List Finding) → Seen → Seen
  note_series [] s = s
  note_series (scan ∷ scans) s = note_series scans (note_scan [] scan s)

  unfoldable pub has_print : List Finding → String → Bool
  has_print [] fp = false
  has_print (f ∷ fs) fp = print_of f == fp || has_print fs fp

  -- The scans from the newest on that have the finding, of a series newest first.
  unfoldable pub streak_from : List (List Finding) → String → ℕ
  streak_from [] fp = 0
  streak_from (scan ∷ older) fp = if has_print scan fp then streak_from older fp + 1 else 0

  unfoldable pub recent_streak : List (List Finding) → String → ℕ
  recent_streak series fp = streak_from (reverse series) fp

  abbrev pub entry_of : List (List Finding) → (String → Bool) → String → Agg → FindingPersistence
  entry_of series acked fp a = record {
    fingerprint = fp;
    cluster = a.cluster;
    scanner = a.scanner;
    rule = a.rule;
    title = a.title;
    severity = a.severity;
    present = a.present;
    total = length series;
    streak = recent_streak series fp;
    class = persistence_class a.present (length series);
    acked = acked fp;
  }

  -- `a := seen[fp]`: every key in `order` is held, so the missing one never comes up.
  unfoldable pub entries :
      List (List Finding) → (String → Bool) → Map String Agg → List String → List FindingPersistence
  entries series acked seen [] = []
  entries series acked seen (fp ∷ fps) =
      let rest = entries series acked seen fps in
      elim (lookup fp seen) [ none ↦ rest | some a ↦ entry_of series acked fp a ∷ rest ]

  unfoldable pub compute_persistence :
      List (List Finding) → (String → Bool) → List FindingPersistence
  compute_persistence [] acked = []
  compute_persistence (scan ∷ scans) acked =
      let s = note_series (scan ∷ scans) (record { seen = []; order = [] }) in
      sort_stable (entries (scan ∷ scans) acked s.seen s.order)
