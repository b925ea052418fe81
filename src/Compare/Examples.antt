-- ===== src/Compare/Examples.antt =====
-- A difference of two reports.
use fleetsweeper.Common.{
  ℕ, ◌≡◌, refl, Bool, true, false, not, ◌&&◌, List, [], ◌∷◌, Option, none, some, String, map,
}
use fleetsweeper.Report.{Finding}
use fleetsweeper.Compare.{Compared, Side, empty_side, diff}
use fleetsweeper.Compare.Classified.{has, diff-Classified}

abbrev same : String → String
same s = s

abbrev of_rule : String → List String → Compared
of_rule rule missing = record {
  finding = record {
    severity = "warning";
    cluster = "east";
    scanner = "crds";
    rule = rule;
    title = rule;
    marks = [];
  };
  missing = some missing;
  affected = "crd_names" ∷ [];
}

abbrev older : Side
older = record empty_side { findings = of_rule "a" ("x" ∷ []) ∷ of_rule "b" [] ∷ [] }

abbrev newer : Side
newer = record empty_side { findings = of_rule "c" [] ∷ of_rule "a" ("y" ∷ []) ∷ [] }

tells_apart :
    map (λ (f : Compared). f.finding.rule) (diff same (some older) (some newer)).new ≡ "c" ∷ []
unfolding diff fleetsweeper.Common.Map.insert fleetsweeper.Report.finding_fingerprint
    fleetsweeper.Report.fingerprint fleetsweeper.Common.Map.lookup
tells_apart = refl

diff-Classified_example :
    let d = diff same (some older) (some newer) in
    let before = has same "east\0crds\0a" older.findings in
    let after = has same "east\0crds\0a" newer.findings in
    (has same "east\0crds\0a" d.new ≡ (after && not before))
    × (has same "east\0crds\0a" d.resolved ≡ (before && not after))
    × (has same "east\0crds\0a" d.persisted ≡ (after && before))
diff-Classified_example = diff-Classified same (some older) (some newer) "east\0crds\0a"
