-- ===== src/Server/TagHandlers/Examples.antt =====
-- Runs of the tag handlers.
use fleetsweeper.Common.{◌≡◌, refl, List, [], ◌∷◌, Option, some, String, string_eq, pair_eq}
use fleetsweeper.Common.Map.{lookup, insert, keep}
use fleetsweeper.Store.Sql.{Conn}
use fleetsweeper.Store.Tags.{TagTable}
use fleetsweeper.Server.Auth.Actors.{Actor}
use fleetsweeper.Server.TagHandlers.{
  value, status, all_tags, permits, handle_set_cluster_tag, handle_list_all_tags,
}
use fleetsweeper.Server.TagHandlers.Scoped.{sets, deletes, lists_all, tags_after, tags_after-row}

abbrev east_operator : Option Actor
east_operator =
    some (record { id = "k1"; name = "east-ops"; role = "operator"; cluster_scope = "east" ∷ [] })

abbrev no_groups : String → List String
no_groups name = []

abbrev tagged_clusters : Conn TagTable
tagged_clusters = record {
  table =
      (("east", "env"), record { value = "prod"; updated_at = 3 })
      ∷ (("west", "env"), record { value = "dev"; updated_at = 4 })
      ∷ [];
  faults = [];
}

shown_to_east :
    (handle_list_all_tags east_operator no_groups tagged_clusters).0
    ≡ all_tags (("east", ("env", "prod") ∷ []) ∷ [])
unfolding handle_list_all_tags keep insert lookup
shown_to_east = refl

west_is_refused :
    (handle_set_cluster_tag east_operator no_groups 9 "west" "env" (value "qa") tagged_clusters).0
    ≡ status 403
unfolding handle_set_cluster_tag
west_is_refused = refl

tags_after-row_example :
    lookup
      ("west", "env")
      (tags_after east_operator no_groups 9
        (deletes "west" "env" ∷ sets "east" "env" (value "qa") ∷ lists_all ∷ [])
        tagged_clusters).table
    ≡ lookup ("west", "env") tagged_clusters.table
unfolding permits
tags_after-row_example =
    tags_after-row east_operator no_groups 9 "west" "env" refl
      (deletes "west" "env" ∷ sets "east" "env" (value "qa") ∷ lists_all ∷ []) tagged_clusters
