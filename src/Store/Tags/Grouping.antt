-- ===== src/Store/Tags/Grouping.antt =====
-- What the grouped and the single read of the tags say of a cluster's tag.
use fleetsweeper.Common.{
  is_some, ◌≡◌, Bool, false, ◌||◌, [], ◌∷◌, Option, none, some, String, if◌then◌else◌, ◌==◌,
  string_eq, pair_eq, arith, eq_iff, refl,
}
use fleetsweeper.Common.Map.{
  Map, lookup, insert, Unique, lookup-insert, Fresh-lookup, Unique-insert,
}
use fleetsweeper.Store.Tags.{TagTable, collect_tags, group_tags, tags_or_none}

-- The value that the table has for a cluster's key.
unfoldable pub tag_value : String → String → TagTable → Option String
tag_value cluster key t = elim (lookup (cluster, key) t) [ none ↦ none | some row ↦ some row.value ]

-- Has the cluster any tag?
unfoldable pub has_tags : String → TagTable → Bool
has_tags cluster [] = false
has_tags cluster (((c, k), row) ∷ rows) = c == cluster || has_tags cluster rows

abbrev pub or_else {ℓ} : {A : Type ℓ} → Option A → Option A → Option A
or_else (some a) o = some a
or_else none o = o

collect_tags-tag_value :
    (cluster key : String) (t : TagTable) (out : Map String String)
    → Unique t
    → lookup key (collect_tags cluster t out) ≡ or_else (tag_value cluster key t) (lookup key out)
unfolding collect_tags tag_value lookup
collect_tags-tag_value cluster key [] out u = refl
collect_tags-tag_value cluster key (((c, k), row) ∷ rows) out u =
    let out' = if c == cluster then insert k row.value out else out in
    ground (
      arith,
      collect_tags-tag_value cluster key rows out' u.1,
      lookup-insert k key row.value out,
      eq_iff c cluster,
      eq_iff k key,
      Fresh-lookup (c, k) rows u.0,
    )

abbrev pub grouped : String → String → Map String (Map String String) → Option String
grouped cluster key out = lookup key (tags_or_none (lookup cluster out))

pub group_tags-tag_value :
    (cluster key : String) (t : TagTable) (out : Map String (Map String String))
    → Unique t
    → grouped cluster key (group_tags t out)
      ≡ or_else (tag_value cluster key t) (grouped cluster key out)
unfolding group_tags tag_value lookup
group_tags-tag_value cluster key [] out u = refl
group_tags-tag_value cluster key (((c, k), row) ∷ rows) out u =
    let tags = insert k row.value (tags_or_none (lookup c out)) in
    ground (
      arith,
      group_tags-tag_value cluster key rows (insert c tags out) u.1,
      lookup-insert c cluster tags out,
      lookup-insert k key row.value (tags_or_none (lookup c out)),
      eq_iff c cluster,
      eq_iff k key,
      Fresh-lookup (c, k) rows u.0,
    )

pub group_tags-has_tags :
    (cluster : String) (t : TagTable) (out : Map String (Map String String))
    → is_some (lookup cluster (group_tags t out))
      ≡ (has_tags cluster t || is_some (lookup cluster out))
unfolding group_tags has_tags
group_tags-has_tags cluster [] out = refl
group_tags-has_tags cluster (((c, k), row) ∷ rows) out =
    let tags = insert k row.value (tags_or_none (lookup c out)) in
    ground (
      arith,
      group_tags-has_tags cluster rows (insert c tags out),
      lookup-insert c cluster tags out,
    )

pub group_tags-Unique :
    (t : TagTable) (out : Map String (Map String String)) → Unique out → Unique (group_tags t out)
unfolding group_tags
group_tags-Unique [] out u = u
group_tags-Unique (((c, k), row) ∷ rows) out u =
    let tags = insert k row.value (tags_or_none (lookup c out)) in
    group_tags-Unique rows (insert c tags out) (Unique-insert c tags out u)
