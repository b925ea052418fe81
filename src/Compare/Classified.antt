-- ===== src/Compare/Classified.antt =====
-- Every finding of two reports is new, resolved or persisted, by its fingerprint.
use fleetsweeper.Common.{
  ◌≡◌, Bool, true, false, not, ◌&&◌, ◌||◌, List, [], ◌∷◌, Option, String, if◌then◌else◌, ◌==◌,
  string_eq, is_some, arith, eq_iff, refl, All, sym, Bool-cases, inl, inr,
}
use fleetsweeper.Common.Map.{Map, lookup, insert, lookup-insert}
use fleetsweeper.Scanner.TopN.{insert_stable, sort_stable_onto}
use fleetsweeper.Compare.{
  Compared, Side, side_of, key_of, index, entries_where, sort_findings, finding_before, diff,
}

module _ (sha256 : String → String) where
  -- Does one of the findings have the fingerprint?
  unfoldable pub has : String → List Compared → Bool
  has k [] = false
  has k (f ∷ fs) = key_of sha256 f == k || has k fs

  -- Entries stand under their own fingerprints.
  abbrev Keyed : Map String Compared → Type 0
  Keyed m = All (λ e. key_of sha256 e.1 ≡ e.0) m

  Keyed-insert :
      (f : Compared) (m : Map String Compared) → Keyed m → Keyed (insert (key_of sha256 f) f m)
  unfolding insert
  Keyed-insert f [] h = (refl, tt)
  Keyed-insert f ((j, g) ∷ m) h = elim (Bool-cases (j == key_of sha256 f)) [
    | inl same ↦ rw same (sym ((eq_iff j (key_of sha256 f)).0 same), h.1)
    | inr other ↦ rw other (h.0, Keyed-insert f m h.1)
  ]

  index-Keyed : (fs : List Compared) (m : Map String Compared) → Keyed m → Keyed (index sha256 fs m)
  unfolding index
  index-Keyed [] m h = h
  index-Keyed (f ∷ fs) m h = index-Keyed fs (insert (key_of sha256 f) f m) (Keyed-insert f m h)

  lookup-index :
      (k : String) (fs : List Compared) (m : Map String Compared)
      → is_some (lookup k (index sha256 fs m)) ≡ (has k fs || is_some (lookup k m))
  unfolding index has
  lookup-index k [] m = refl
  lookup-index k (f ∷ fs) m = ground (
    arith,
    lookup-index k fs (insert (key_of sha256 f) f m),
    lookup-insert (key_of sha256 f) k f m,
  )

  has-entries_where :
      (k : String) (held : Bool) (other m : Map String Compared)
      → Keyed m
      → has k (entries_where held other m) ≡ (
          is_some (lookup k m)
          && (if held then is_some (lookup k other) else not (is_some (lookup k other))))
  unfolding entries_where has lookup
  has-entries_where k held other [] h = refl
  has-entries_where k held other ((j, f) ∷ m) h =
      ground
        (arith, has-entries_where k held other m h.1, h.0, eq_iff j k, eq_iff (key_of sha256 f) k)

  has-insert_stable :
      (k : String) (before : Compared → Compared → Bool) (x : Compared) (ys : List Compared)
      → has k (insert_stable before x ys) ≡ (key_of sha256 x == k || has k ys)
  unfolding insert_stable has
  has-insert_stable k before x [] = refl
  has-insert_stable k before x (y ∷ ys) = ground (arith, has-insert_stable k before x ys)

  has-sort_stable_onto :
      (k : String) (before : Compared → Compared → Bool) (xs sorted : List Compared)
      → has k (sort_stable_onto before xs sorted) ≡ (has k xs || has k sorted)
  unfolding sort_stable_onto has
  has-sort_stable_onto k before [] sorted = refl
  has-sort_stable_onto k before (x ∷ xs) sorted = ground (
    arith,
    has-sort_stable_onto k before xs (insert_stable before x sorted),
    has-insert_stable k before x sorted,
  )

  -- The sorted part of one side that the other holds, or does not.
  has-part :
      (k : String) (held : Bool) (other fs : List Compared)
      → has k (sort_findings (entries_where held (index sha256 other []) (index sha256 fs [])))
        ≡ (has k fs && (if held then has k other else not (has k other)))
  unfolding sort_findings has lookup
  has-part k held other fs = ground (
    arith,
    has-sort_stable_onto k finding_before
        (entries_where held (index sha256 other []) (index sha256 fs [])) [],
    has-entries_where k held (index sha256 other []) (index sha256 fs []) (index-Keyed fs [] tt),
    lookup-index k fs [],
    lookup-index k other [],
  )

  -- Of two reports, either of which may be missing: a fingerprint is among the new findings exactly when the
  -- newer report has it and the older does not, among the resolved ones exactly when the older has it and the
  -- newer does not, and among the persisted ones exactly when both have it.
  pub diff-Classified :
      (older newer : Option Side) (k : String)
      → let d = diff sha256 older newer in
        let before = has k (side_of older).findings in
        let after = has k (side_of newer).findings in
        (has k d.new ≡ (after && not before))
        × (has k d.resolved ≡ (before && not after))
        × (has k d.persisted ≡ (after && before))
  unfolding diff
  diff-Classified older newer k =
      let a = (side_of older).findings in
      let b = (side_of newer).findings in
      (has-part k false a b, has-part k false b a, has-part k true a b)
