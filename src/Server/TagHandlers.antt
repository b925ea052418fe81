-- ===== src/Server/TagHandlers.antt =====
-- The handlers of cluster tags: internal/server/tags_handler.go.
-- A request brings its actor, if any, and what its body decodes to; `members` is the group lookup.
pub mod Scoped
pub mod Examples
use fleetsweeper.Common.{
  ℕ, Bool, true, not, ◌||◌, List, Option, none, some, String, if◌then◌else◌, ◌==◌, string_eq,
}
use fleetsweeper.Common.Map.{Map, keep}
use fleetsweeper.Store.Time.{Time}
use fleetsweeper.Store.Sql.{Result, ok, err, Conn}
use fleetsweeper.Store.Tags.{
  TagTable, set_cluster_tag, delete_cluster_tag, get_cluster_tags, list_cluster_tags,
}
use fleetsweeper.Server.Auth.Actors.{Actor, allows_cluster}

-- A body that does not decode has been answered with the status that it carries.
pub data TagBody : Type 0 where
  undecodable : ℕ → TagBody
  value : String → TagBody

pub data TagReply : Type 0 where
  status : ℕ → TagReply
  tag : String → String → TagReply
  tags : Map String String → TagReply
  all_tags : Map String (Map String String) → TagReply

abbrev pub tag_set : String → String → Result (Unit {0}) × Conn TagTable → TagReply × Conn TagTable
tag_set key v (ok done, c) = (tag key v, c)
tag_set key v (err e, c) = (status 500, c)

abbrev pub tag_deleted : Result (Unit {0}) × Conn TagTable → TagReply × Conn TagTable
tag_deleted (ok done, c) = (status 204, c)
tag_deleted (err e, c) = (status 500, c)

abbrev pub tags_read : Result (Map String String) × Conn TagTable → TagReply × Conn TagTable
tags_read (ok found, c) = (tags found, c)
tags_read (err e, c) = (status 500, c)

module _ (actor : Option Actor) (members : String → List String) where
  -- A request without an actor may act on any cluster.
  unfoldable pub permits : String → Bool
  unfolding allows_cluster
  permits cluster = elim actor [ none ↦ true | some a ↦ allows_cluster a cluster (some members) ]

  -- After the checks.
  unfoldable pub put_tag :
      Time → String → String → TagBody → Conn TagTable → TagReply × Conn TagTable
  unfolding set_cluster_tag
  put_tag now cluster key (undecodable code) c = (status code, c)
  put_tag now cluster key (value v) c = tag_set key v (set_cluster_tag now cluster key v c)

  unfoldable pub handle_set_cluster_tag :
      Time → String → String → TagBody → Conn TagTable → TagReply × Conn TagTable
  unfolding permits put_tag
  handle_set_cluster_tag now cluster key body c =
      if cluster == "" || key == ""
      then (status 400, c)
      else if not (permits cluster)
      then (status 403, c)
      else put_tag now cluster key body c

  unfoldable pub handle_delete_cluster_tag :
      String → String → Conn TagTable → TagReply × Conn TagTable
  unfolding permits delete_cluster_tag
  handle_delete_cluster_tag cluster key c =
      if cluster == "" || key == ""
      then (status 400, c)
      else if not (permits cluster)
      then (status 403, c)
      else tag_deleted (delete_cluster_tag cluster key c)

  unfoldable pub handle_list_cluster_tags : String → Conn TagTable → TagReply × Conn TagTable
  unfolding permits get_cluster_tags
  handle_list_cluster_tags cluster c =
      if cluster == ""
      then (status 400, c)
      else if not (permits cluster)
      then (status 403, c)
      else tags_read (get_cluster_tags cluster c)

  -- The tags that the actor is shown.
  abbrev pub tags_listed :
      Result (Map String (Map String String)) × Conn TagTable → TagReply × Conn TagTable
  tags_listed (ok found, c) = (all_tags (keep (λ cluster m. permits cluster) found), c)
  tags_listed (err e, c) = (status 500, c)

  unfoldable pub handle_list_all_tags : Conn TagTable → TagReply × Conn TagTable
  unfolding permits list_cluster_tags
  handle_list_all_tags c = tags_listed (list_cluster_tags c)
