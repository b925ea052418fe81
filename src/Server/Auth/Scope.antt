-- ===== src/Server/Auth/Scope.antt =====
-- Cluster scopes: `AllowsCluster` and `FilterClusters` of internal/server/auth.go.
use Prim.Native.String.{◌++◌ as append}
use text.Mathlib.Text.{starts_with}
use text.Mathlib.TextEquality.{starts_with_iff}
use text.Mathlib.TextPositions.{slice-append_right, starts_with-append, len-append}
use fleetsweeper.Common.{
  ◌≡◌, ◌⊎◌, ◌↔◌, refl, sym, ap, ◌∙◌, Bool, true, false, ◌||◌, inl, inr, List, [], ◌∷◌, Option, none,
  some, String, contains, ◌==◌, string_eq, arith, eq_iff, Bool-cases, filter, AnyOf,
}
use fleetsweeper.Store.ApiKeys.{scope_wildcard}
use fleetsweeper.Server.Auth.Actors.{
  Actor, group_name, has_wildcard_scope, entry_allows, any_entry_allows, allows_cluster, allowed_of,
  filter_clusters,
}

abbrev pub Members : Type 0
Members = Option (String → List String)

-- An entry of a scope grants a cluster: it is the wildcard, the cluster, or "group:" and the name of a
-- group that has the cluster among its members now.
abbrev pub Grants : String → Members → String → Type 0
Grants cluster none entry = (entry ≡ scope_wildcard) ⊎ (entry ≡ cluster)
Grants cluster (some members) entry =
    (entry ≡ scope_wildcard)
    ⊎ (entry ≡ cluster)
    ⊎ (name : String) × (entry ≡ append "group:" name) × AnyOf (λ m. m ≡ cluster) (members name)

contains_sound : (xs : List String) (a : String) → contains xs a ≡ true → AnyOf (λ x. x ≡ a) xs
contains_sound [] a h = cc
contains_sound (x ∷ xs) a h = elim (Bool-cases (x == a)) [
  | inl t ↦ inl ((eq_iff x a).0 t)
  | inr t ↦ inr (contains_sound xs a (ground arith))
]

contains_complete : (xs : List String) (a : String) → AnyOf (λ x. x ≡ a) xs → contains xs a ≡ true
contains_complete [] a h = absurd h
contains_complete (x ∷ xs) a (inl e) = ground (arith, eq_iff x a)
contains_complete (x ∷ xs) a (inr h) = ground (arith, contains_complete xs a h)

module _ (cluster : String) (members : Members) where
  abbrev entry_grants : String → Bool
  entry_grants entry = entry == scope_wildcard || entry_allows cluster members entry

  any_grants : List String → Bool
  any_grants [] = false
  any_grants (x ∷ xs) = entry_grants x || any_grants xs

  any_grants_lem :
      (xs : List String)
      → (contains xs scope_wildcard || any_entry_allows cluster members xs) ≡ any_grants xs
  unfolding any_entry_allows any_grants
  any_grants_lem [] = refl
  any_grants_lem (x ∷ xs) = ground (arith, any_grants_lem xs)

group_name-group : (name : String) → group_name (append "group:" name) ≡ name
group_name-group name = rw (len-append "group:" name) (slice-append_right "group:" name)

group_of_entry :
    (entry : String)
    → starts_with entry "group:" ≡ true
    → entry ≡ append "group:" (group_name entry)
group_of_entry entry h =
    let named = (starts_with_iff entry "group:").0 h in
    sym named.1 ∙ ap (append "group:") (sym (group_name-group named.0) ∙ ap group_name named.1)

entry_sound :
    (cluster : String) (members : Members) (entry : String)
    → entry_grants cluster members entry ≡ true
    → Grants cluster members entry
unfolding entry_allows
entry_sound cluster none entry h = ground (arith, eq_iff entry scope_wildcard, eq_iff entry cluster)
entry_sound cluster (some members) entry h = elim (Bool-cases (entry == scope_wildcard)) [
  | inl t ↦ inl ((eq_iff entry scope_wildcard).0 t)
  | inr wild ↦ elim (Bool-cases (entry == cluster)) [
    | inl t ↦ inr (inl ((eq_iff entry cluster).0 t))
    | inr named ↦ inr (
        inr (
          group_name entry,
          group_of_entry entry (ground arith),
          contains_sound (members (group_name entry)) cluster (ground arith),
        ))
  ]
]

entry_complete :
    (cluster : String) (members : Members) (entry : String)
    → Grants cluster members entry
    → entry_grants cluster members entry ≡ true
unfolding entry_allows
entry_complete cluster none entry h =
    ground (arith, eq_iff entry scope_wildcard, eq_iff entry cluster)
entry_complete cluster (some members) entry (inl e) = ground (arith, eq_iff entry scope_wildcard)
entry_complete cluster (some members) entry (inr (inl e)) = ground (arith, eq_iff entry cluster)
entry_complete cluster (some members) entry (inr (inr (name, e, m))) =
    let starts = ap (λ s. starts_with s "group:") e ∙ starts_with-append "group:" name in
    let same = ap group_name e ∙ group_name-group name in
    ground (arith, starts, ap members same, contains_complete (members name) cluster m)

any_sound :
    (c : String) (m : Members) (xs : List String) → any_grants c m xs ≡ true → AnyOf (Grants c m) xs
unfolding any_grants
any_sound c m [] h = cc
any_sound c m (x ∷ xs) h = elim (Bool-cases (entry_grants c m x)) [
  | inl t ↦ inl (entry_sound c m x t)
  | inr t ↦ inr (any_sound c m xs (ground arith))
]

any_complete :
    (c : String) (m : Members) (xs : List String) → AnyOf (Grants c m) xs → any_grants c m xs ≡ true
unfolding any_grants
any_complete c m [] h = absurd h
any_complete c m (x ∷ xs) (inl g) = ground (arith, entry_complete c m x g)
any_complete c m (x ∷ xs) (inr h) = ground (arith, any_complete c m xs h)

-- `AllowsCluster` is true exactly when some entry of the actor's scope grants the cluster: it is the
-- wildcard, the cluster's name, or, where groups can be looked up, "group:" and the name of a group that
-- has the cluster as a member now.
pub allows_cluster-Grants :
    (a : Actor) (cluster : String) (members : Members)
    → (allows_cluster a cluster members ≡ true) ↔ AnyOf (Grants cluster members) a.cluster_scope
unfolding allows_cluster
allows_cluster-Grants a cluster members = (
  λ h.
      any_sound cluster members a.cluster_scope
        (rw (any_grants_lem cluster members a.cluster_scope) at h),
  λ g.
      any_grants_lem cluster members a.cluster_scope
      ∙ any_complete cluster members a.cluster_scope g,
)

allowed_of-filter :
    (a : Actor) (clusters : List String) (members : Members)
    → allowed_of a clusters members ≡ filter (λ c. allows_cluster a c members) clusters
unfolding allowed_of
allowed_of-filter a [] members = refl
allowed_of-filter a (c ∷ cs) members = ground (arith, allowed_of-filter a cs members)

filter_all :
    (a : Actor) (clusters : List String) (members : Members)
    → has_wildcard_scope a ≡ true
    → filter (λ c. allows_cluster a c members) clusters ≡ clusters
unfolding allows_cluster
filter_all a [] members h = refl
filter_all a (c ∷ cs) members h = ground (arith, filter_all a cs members h)

filter_clusters_cases :
    (a : Actor) (clusters : List String) (members : Members)
    → (has_wildcard_scope a ≡ true) × (filter_clusters a clusters members ≡ clusters)
      ⊎ (filter_clusters a clusters members ≡ allowed_of a clusters members)
unfolding filter_clusters
filter_clusters_cases a clusters members = ground arith

-- `FilterClusters` keeps, in their order, exactly the clusters that `AllowsCluster` is true of, whether
-- or not it takes the wildcard's way out.
pub filter_clusters-filter :
    (a : Actor) (clusters : List String) (members : Members)
    → filter_clusters a clusters members ≡ filter (λ c. allows_cluster a c members) clusters
filter_clusters-filter a clusters members = elim (filter_clusters_cases a clusters members) [
  | inl (wild, e) ↦ e ∙ sym (filter_all a clusters members wild)
  | inr e ↦ e ∙ allowed_of-filter a clusters members
]
