-- ===== src/Server/TagFilter/Examples.antt =====
-- Runs of the tag filter.
use fleetsweeper.Common.{
  ◌≡◌, refl, Bool, true, false, List, [], ◌∷◌, String, string_eq, pair_eq, ◌+◌, Option, none, some,
}
use fleetsweeper.Common.Map.{Map, Unique, lookup}
use fleetsweeper.Store.Tags.{TagTable, TagRow}
use fleetsweeper.Server.TagFilter.{parse_want, parse_wants, parse_tag_filter}
use fleetsweeper.Server.TagFilter.Matching.{Filters, Matches, parse_tag_filter-Matches}

abbrev row : String → TagRow
row value = record { value = value; updated_at = 7 }

abbrev tagged : TagTable
tagged =
    (("prod", "env"), row "prod")
    ∷ (("prod", "owner"), row "team-a")
    ∷ (("edge", "env"), row "prod")
    ∷ []

cuts_want : parse_want "env=prod=1" ≡ some ("env", "prod=1")
unfolding parse_want
cuts_want = refl

parse_tag_filter-Matches_example :
    Filters (parse_wants ("env=prod" ∷ "owner=" ∷ "junk" ∷ []) []) tagged (
      parse_tag_filter
        ("env=prod" ∷ "owner=" ∷ "junk" ∷ [])
        (record { table = tagged; faults = [] }))
parse_tag_filter-Matches_example =
    parse_tag_filter-Matches ("env=prod" ∷ "owner=" ∷ "junk" ∷ []) tagged
      ((refl, (refl, tt)), ((refl, tt), (tt, tt)))

-- A cluster without the tag matches a wanted tag with an empty value.
missing_is_empty : Matches (parse_wants ("owner=" ∷ []) []) "edge" tagged
unfolding parse_wants parse_want fleetsweeper.Common.Map.insert
    fleetsweeper.Store.Tags.Grouping.has_tags fleetsweeper.Store.Tags.Grouping.tag_value lookup
missing_is_empty = (refl, (refl, tt))
