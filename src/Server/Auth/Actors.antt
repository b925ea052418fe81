-- ===== src/Server/Auth/Actors.antt =====
-- The actor of a request and the clusters that it may act on: `Actor` of internal/server/auth.go.
use text.Mathlib.Text.{starts_with}
use Prim.Native.String.{len, slice}
use fleetsweeper.Common.{
  Bool, false, ◌&&◌, ◌||◌, List, [], ◌∷◌, String, if◌then◌else◌, ◌==◌, string_eq, contains, Option,
  none, some,
}
use fleetsweeper.Store.ApiKeys.{scope_wildcard, role_admin}

pub record Actor : Type 0 where
  pub id : String
  pub name : String
  pub role : String
  pub cluster_scope : List String

unfoldable pub has_wildcard_scope : Actor → Bool
has_wildcard_scope a = contains a.cluster_scope scope_wildcard

unfoldable pub can_manage_groups : Actor → Bool
can_manage_groups a = a.role == role_admin

-- `strings.TrimPrefix(entry, "group:")` of an entry with the prefix.
abbrev pub group_name : String → String
group_name entry = slice entry 6 (len entry)

-- One entry of the scope against a cluster. A missing lookup is `none`.
unfoldable pub entry_allows : String → Option (String → List String) → String → Bool
entry_allows cluster none entry = entry == cluster
entry_allows cluster (some members) entry =
    entry == cluster
    || (starts_with entry "group:" && contains (members (group_name entry)) cluster)

unfoldable pub any_entry_allows : String → Option (String → List String) → List String → Bool
unfolding entry_allows
any_entry_allows cluster lookup [] = false
any_entry_allows cluster lookup (entry ∷ rest) =
    entry_allows cluster lookup entry || any_entry_allows cluster lookup rest

unfoldable pub allows_cluster : Actor → String → Option (String → List String) → Bool
unfolding has_wildcard_scope any_entry_allows
allows_cluster a cluster lookup =
    has_wildcard_scope a || any_entry_allows cluster lookup a.cluster_scope

unfoldable pub allowed_of : Actor → List String → Option (String → List String) → List String
unfolding allows_cluster
allowed_of a [] lookup = []
allowed_of a (c ∷ cs) lookup =
    let rest = allowed_of a cs lookup in if allows_cluster a c lookup then c ∷ rest else rest

unfoldable pub filter_clusters : Actor → List String → Option (String → List String) → List String
unfolding has_wildcard_scope allowed_of
filter_clusters a clusters lookup =
    if has_wildcard_scope a then clusters else allowed_of a clusters lookup
