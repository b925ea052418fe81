-- ===== src/Server/TagFilter/Matching.antt =====
-- Which clusters a tag filter lets through.
use fleetsweeper.Common.{
  is_some, ◌≡◌, ◌↔◌, Bool, true, List, [], ◌∷◌, some, String, string_eq, pair_eq, arith, eq_iff,
  refl, Option-cases, inl, inr, All,
}
use fleetsweeper.Common.Map.{Map, lookup, keep, Unique, lookup-keep}
use fleetsweeper.Store.Sql.{Result, ok, Conn, ◌>>=◌}
use fleetsweeper.Store.Tags.{TagTable, group_tags, list_cluster_tags}
use fleetsweeper.Store.Tags.Grouping.{
  tag_value, has_tags, group_tags-tag_value, group_tags-has_tags, group_tags-Unique,
}
use fleetsweeper.Server.TagFilter.{
  parse_wants, parse_tag_filter, filter_by, carries, value_or_empty,
}

-- The cluster has the wanted value for every wanted key, a tag that it lacks counting as empty.
abbrev pub Carries : String → TagTable → Map String String → Type 0
Carries cluster t wants = All (λ w. value_or_empty (tag_value cluster w.0 t) ≡ w.1) wants

-- Without wanted tags every cluster matches; with some, a cluster that has no tag at all never does.
abbrev pub Matches : Map String String → String → TagTable → Type 0
Matches [] cluster t = Unit
Matches (w ∷ ws) cluster t = (has_tags cluster t ≡ true) × Carries cluster t (w ∷ ws)

module _ (t : TagTable) (u : Unique t) (cluster : String) where
  carries-Carries :
      (wants : Map String String) (tags : Map String String)
      → lookup cluster (group_tags t []) ≡ some tags
      → (carries wants tags ≡ true) ↔ Carries cluster t wants
  unfolding carries lookup
  carries-Carries [] tags e = ground arith
  carries-Carries ((k, v) ∷ wants) tags e =
      let same : lookup k tags ≡ tag_value cluster k t =
        ground (arith, rw e at (group_tags-tag_value cluster k t [] u)) in
      ground (arith, same, eq_iff (value_or_empty (lookup k tags)) v, carries-Carries wants tags e)

  allows : Map String String → Bool
  allows wants = is_some (lookup cluster (keep (λ c tags. carries wants tags) (group_tags t [])))

  allows-Matches :
      (wants : Map String String)
      → (allows wants ≡ true) ↔ ((has_tags cluster t ≡ true) × Carries cluster t wants)
  unfolding allows lookup
  allows-Matches wants =
      let all = group_tags t [] in
      let kept =
        lookup-keep (λ c tags. carries wants tags) cluster all (group_tags-Unique t [] tt) in
      let known = group_tags-has_tags cluster t [] in
      elim (Option-cases (lookup cluster all)) [
        | inl e ↦ ground (arith, rw e at kept, rw e at known)
        | inr (tags, e) ↦ ground (arith, rw e at kept, rw e at known, carries-Carries wants tags e)
      ]

-- What a filter is to do on a table.
abbrev pub Filters : Map String String → TagTable → Result (String → Bool) × Conn TagTable → Type 0
Filters wants t answer =
    (pred : String → Bool) × (answer ≡ (ok pred, record { table = t; faults = [] }))
    × ((cluster : String) → (pred cluster ≡ true) ↔ Matches wants cluster t)

filter_by-Filters :
    (wants : Map String String) (t : TagTable)
    → Unique t
    → Filters wants t (filter_by wants (record { table = t; faults = [] }))
unfolding filter_by ◌>>=◌ list_cluster_tags allows
filter_by-Filters [] t u = (λ cluster. true, refl, λ cluster. ground arith)
filter_by-Filters (w ∷ ws) t u =
    (λ cluster. allows t u cluster (w ∷ ws), refl, λ cluster. allows-Matches t u cluster (w ∷ ws))

-- From a table in which a cluster has one value for a key, and while the database answers, the filter of a
-- request lets through exactly the clusters that match its wanted tags: every cluster if no wanted tag can be
-- read from the request, otherwise a cluster that has some tag and whose value for each wanted key is the wanted
-- one, the value of a key that it lacks being the empty text.
pub parse_tag_filter-Matches :
    (raw : List String) (t : TagTable)
    → Unique t
    → Filters (parse_wants raw []) t (parse_tag_filter raw (record { table = t; faults = [] }))
unfolding parse_tag_filter
parse_tag_filter-Matches raw t u = filter_by-Filters (parse_wants raw []) t u
