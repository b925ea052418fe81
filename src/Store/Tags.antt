-- ===== src/Store/Tags.antt =====
-- The table of cluster tags: internal/store/tags.go.
pub mod Grouping
use fleetsweeper.Common.{
  Bool, ◌||◌, List, [], ◌∷◌, Option, none, some, String, if◌then◌else◌, ◌==◌, string_eq, pair_eq,
}
use fleetsweeper.Common.Map.{Map, lookup, insert, remove}
use fleetsweeper.Store.Time.{Time}
use fleetsweeper.Store.Sql.{Sql, fail, query, exec, err_store, err_query}

-- The columns beside the key, which is a cluster and a tag's key.
pub record TagRow : Type 0 where
  pub value : String
  pub updated_at : Time

abbrev pub TagTable : Type 0
TagTable = Map (String × String) TagRow

unfoldable pub set_cluster_tag : Time → String → String → String → Sql TagTable Unit
unfolding exec
set_cluster_tag now cluster key value =
    if cluster == "" || key == ""
    then fail err_store
    else exec (insert (cluster, key) (record { value = value; updated_at = now }))

unfoldable pub delete_cluster_tag : String → String → Sql TagTable Unit
unfolding exec
delete_cluster_tag cluster key = exec (remove (cluster, key))

-- The rows of one cluster, into a map from key to value.
unfoldable pub collect_tags : String → TagTable → Map String String → Map String String
collect_tags cluster [] out = out
collect_tags cluster (((c, k), row) ∷ rows) out =
    collect_tags cluster rows (if c == cluster then insert k row.value out else out)

unfoldable pub get_cluster_tags : String → Sql TagTable (Map String String)
unfolding query collect_tags
get_cluster_tags cluster = query err_query (λ t. collect_tags cluster t [])

abbrev pub tags_or_none : Option (Map String String) → Map String String
tags_or_none none = []
tags_or_none (some tags) = tags

unfoldable pub group_tags :
    TagTable → Map String (Map String String) → Map String (Map String String)
group_tags [] out = out
group_tags (((c, k), row) ∷ rows) out =
    group_tags rows (insert c (insert k row.value (tags_or_none (lookup c out))) out)

unfoldable pub list_cluster_tags : Sql TagTable (Map String (Map String String))
unfolding query group_tags
list_cluster_tags = query err_query (λ t. group_tags t [])
