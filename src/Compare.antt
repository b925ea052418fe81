-- ===== src/Compare.antt =====
-- The difference of two reports: internal/compare/compare.go.
-- SHA-256 is the section's parameter. Go walks its maps in any order; here the walk follows the order in which
-- keys came in, and the sorts that follow fix the order but for findings that FindingOrder does not tell apart.
pub mod Classified
pub mod Examples
use Prim.Native.Nat.{Ordering}
use Prim.Native.String.{compare}
use fleetsweeper.Common.{
  ℕ, Bool, true, false, not, ◌&&◌, ◌||◌, List, [], ◌∷◌, Option, none, some, String, if◌then◌else◌,
  ltb, ◌==◌, string_eq, is_some, contains, filter,
}
use fleetsweeper.Common.Map.{Map, lookup, insert}
use fleetsweeper.Report.{Finding, severity_rank, finding_fingerprint}
use fleetsweeper.Scanner.TopN.{sort_stable_onto}

-- A finding with the missing members of its norm, if that is a set, and the fields that it affects.
pub record Compared : Type 0 where
  pub finding : Finding
  pub missing : Option (List String)
  pub affected : List String

-- Of a report, what a difference reads.
pub record Side : Type 0 where
  pub score : ℕ
  pub grade : String
  pub graded : Bool
  pub findings : List Compared
  pub cluster_healths : List (String × String)
  pub critical_count : ℕ
  pub warning_count : ℕ

pub record SetDrift : Type 0 where
  pub cluster : String
  pub scanner : String
  pub field : String
  pub newly_missing : List String
  pub restored : List String

pub record ClusterStatusChange : Type 0 where
  pub cluster : String
  pub before : String
  pub after : String

pub record ScanDiff : Type 0 where
  pub score_before : ℕ
  pub score_after : ℕ
  pub grade_before : String
  pub grade_after : String
  pub graded_before : Bool
  pub graded_after : Bool
  pub new : List Compared
  pub resolved : List Compared
  pub persisted : List Compared
  pub set_drift : List SetDrift
  pub cluster_status_changes : List ClusterStatusChange
  pub added_clusters : List String
  pub removed_clusters : List String
  pub critical_before : ℕ
  pub critical_after : ℕ
  pub warning_before : ℕ
  pub warning_after : ℕ

-- A missing report is an empty fleet.
abbrev pub empty_side : Side
empty_side = record {
  score = 0;
  grade = "";
  graded = false;
  findings = [];
  cluster_healths = [];
  critical_count = 0;
  warning_count = 0;
}

abbrev pub side_of : Option Side → Side
side_of none = empty_side
side_of (some s) = s

unfoldable pub string_before : String → String → Bool
string_before a b = elim (compare a b) [ Ordering.lt ↦ true | _ ↦ false ]

unfoldable pub finding_before : Compared → Compared → Bool
unfolding string_before
finding_before x y =
    let a = x.finding in
    let b = y.finding in
    if ltb (severity_rank b.severity) (severity_rank a.severity)
    then true
    else if ltb (severity_rank a.severity) (severity_rank b.severity)
    then false
    else if not (a.cluster == b.cluster)
    then string_before a.cluster b.cluster
    else if not (a.title == b.title)
    then string_before a.title b.title
    else string_before a.rule b.rule

unfoldable pub sort_findings : List Compared → List Compared
unfolding finding_before sort_stable_onto
sort_findings fs = sort_stable_onto finding_before fs []

unfoldable pub sort_strings : List String → List String
unfolding string_before sort_stable_onto
sort_strings xs = sort_stable_onto string_before xs []

unfoldable pub drift_before : SetDrift → SetDrift → Bool
unfolding string_before
drift_before a b =
    if not (a.cluster == b.cluster)
    then string_before a.cluster b.cluster
    else if not (a.scanner == b.scanner)
    then string_before a.scanner b.scanner
    else string_before a.field b.field

abbrev pub first_or_empty : List String → String
first_or_empty [] = ""
first_or_empty (x ∷ xs) = x

abbrev pub without : List String → List String → List String
without gone xs = filter (λ x. not (contains gone x)) xs

abbrev pub any_left : List String → List String → Bool
any_left [] [] = false
any_left xs ys = true

-- None when a side has no set norm or the missing members did not change.
unfoldable pub set_drift_of : Compared → Compared → Option SetDrift
unfolding sort_strings
set_drift_of a b = elim a.missing [
  | none ↦ none
  | some before ↦ elim b.missing [
    | none ↦ none
    | some after ↦
        let newly = sort_strings (without before after) in
        let restored = sort_strings (without after before) in
        if any_left newly restored
        then some (record {
          cluster = b.finding.cluster;
          scanner = b.finding.scanner;
          field = first_or_empty b.affected;
          newly_missing = newly;
          restored = restored;
        })
        else none
  ]
]

module _ (sha256 : String → String) where
  abbrev pub key_of : Compared → String
  key_of f = finding_fingerprint sha256 f.finding

  -- A later finding takes the place of an earlier one with its fingerprint.
  unfoldable pub index : List Compared → Map String Compared → Map String Compared
  index [] m = m
  index (f ∷ fs) m = index fs (insert (key_of f) f m)

-- The entries whose key the other side has, or has not.
unfoldable pub entries_where : Bool → Map String Compared → Map String Compared → List Compared
entries_where held other [] = []
entries_where held other ((k, f) ∷ more) =
    let rest = entries_where held other more in
    if is_some (lookup k other)
    then (if held then f ∷ rest else rest)
    else (if held then rest else f ∷ rest)

unfoldable pub drifts : Map String Compared → Map String Compared → List SetDrift
unfolding set_drift_of
drifts before [] = []
drifts before ((k, f) ∷ more) =
    let rest = drifts before more in
    elim (lookup k before) [
      | none ↦ rest
      | some prev ↦ elim (set_drift_of prev f) [ none ↦ rest | some d ↦ d ∷ rest ]
    ]

unfoldable pub index_health : List (String × String) → Map String String → Map String String
index_health [] m = m
index_health ((name, status) ∷ hs) m = index_health hs (insert name status m)

unfoldable pub names_missing : Map String String → Map String String → List String
names_missing other [] = []
names_missing other ((name, status) ∷ more) =
    let rest = names_missing other more in if is_some (lookup name other) then rest else name ∷ rest

unfoldable pub status_changes : Map String String → Map String String → List ClusterStatusChange
status_changes before [] = []
status_changes before ((name, after) ∷ more) =
    let rest = status_changes before more in
    elim (lookup name before) [
      | none ↦ rest
      | some was ↦
          if was == after
          then rest
          else record { cluster = name; before = was; after = after } ∷ rest
    ]

-- The change set from an older report to a newer one, without the drift ledger of the report package.
unfoldable pub diff : (String → String) → Option Side → Option Side → ScanDiff
unfolding index entries_where drifts drift_before index_health names_missing status_changes
    sort_findings sort_strings sort_stable_onto
diff sha256 older newer =
    let a = side_of older in
    let b = side_of newer in
    let a_index = index sha256 a.findings [] in
    let b_index = index sha256 b.findings [] in
    let a_health = index_health a.cluster_healths [] in
    let b_health = index_health b.cluster_healths [] in
    record {
      score_before = a.score;
      score_after = b.score;
      grade_before = a.grade;
      grade_after = b.grade;
      graded_before = a.graded;
      graded_after = b.graded;
      new = sort_findings (entries_where false a_index b_index);
      resolved = sort_findings (entries_where false b_index a_index);
      persisted = sort_findings (entries_where true a_index b_index);
      set_drift = sort_stable_onto drift_before (drifts a_index b_index) [];
      cluster_status_changes =
          sort_stable_onto (λ x y. string_before x.cluster y.cluster)
            (status_changes a_health b_health) [];
      added_clusters = sort_strings (names_missing a_health b_health);
      removed_clusters = sort_strings (names_missing b_health a_health);
      critical_before = a.critical_count;
      critical_after = b.critical_count;
      warning_before = a.warning_count;
      warning_after = b.warning_count;
    }

-- Both sides were graded, so that their scores compare.
unfoldable pub score_comparable : ScanDiff → Bool
score_comparable d = d.graded_before && d.graded_after

-- The text of one side: the score with its grade, or none for "not graded".
unfoldable pub score_cell : ℕ → String → Bool → Option (ℕ × String)
score_cell score grade graded = if graded then some (score, grade) else none

unfoldable pub ungraded_note : ScanDiff → String
ungraded_note d =
    if not d.graded_before && not d.graded_after
    then "neither scan graded"
    else if not d.graded_before
    then "before not graded"
    else "after not graded"
