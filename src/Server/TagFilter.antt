-- ===== src/Server/TagFilter.antt =====
-- The cluster filter of `?tag=` parameters: internal/server/tag_filter.go.
pub mod Matching
pub mod Examples
use text.Mathlib.Text.{find?}
use Prim.Native.String.{len, slice}
use fleetsweeper.Common.{
  is_some, ◌+◌, Bool, true, false, ◌&&◌, List, [], ◌∷◌, Option, none, some, String, if◌then◌else◌,
  ◌==◌, string_eq,
}
use fleetsweeper.Common.Map.{Map, lookup, insert, keep}
use fleetsweeper.Store.Sql.{Sql, pure, ◌>>=◌}
use fleetsweeper.Store.Tags.{TagTable, list_cluster_tags}

-- `strings.Cut(t, "=")`, and none where the loop passes over the parameter.
unfoldable pub parse_want : String → Option (String × String)
parse_want t = elim (find? t "=") [
  | none ↦ none
  | some i ↦ let k = slice t 0 i in if k == "" then none else some (k, slice t (i + 1) (len t))
]

unfoldable pub parse_wants : List String → Map String String → Map String String
unfolding parse_want
parse_wants [] wants = wants
parse_wants (t ∷ ts) wants = elim (parse_want t) [
  | none ↦ parse_wants ts wants
  | some (k, v) ↦ parse_wants ts (insert k v wants)
]

-- What reading a Go map of strings gives for a key that it lacks.
abbrev pub value_or_empty : Option String → String
value_or_empty none = ""
value_or_empty (some v) = v

unfoldable pub carries : Map String String → Map String String → Bool
carries [] tags = true
carries ((k, v) ∷ wants) tags = (value_or_empty (lookup k tags) == v) && carries wants tags

-- The predicate from the wanted tags. Without any the table is not read.
unfoldable pub filter_by : Map String String → Sql TagTable (String → Bool)
unfolding ◌>>=◌ list_cluster_tags
filter_by [] = pure (λ cluster. true)
filter_by (w ∷ ws) = list_cluster_tags >>= λ everything.
    let allowed = keep (λ cluster tags. carries (w ∷ ws) tags) everything in
    pure (λ cluster. is_some (lookup cluster allowed))

unfoldable pub parse_tag_filter : List String → Sql TagTable (String → Bool)
unfolding parse_wants filter_by
parse_tag_filter raw = filter_by (parse_wants raw [])
