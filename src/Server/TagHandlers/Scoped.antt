-- ===== src/Server/TagHandlers/Scoped.antt =====
-- No tag is written, removed or shown outside an actor's scope.
use fleetsweeper.Common.{
  ◌≡◌, ◌||◌, refl, Bool, true, false, List, [], ◌∷◌, Option, String, ◌==◌, string_eq, pair_eq,
  arith, Bool-cases, sym, ap, ◌∙◌, inl, inr, eq_iff,
}
use fleetsweeper.Common.Map.{Map, lookup, insert, remove, lookup-insert, lookup-remove}
use fleetsweeper.Store.Time.{Time}
use fleetsweeper.Store.Sql.{Result, ok, err, Conn, StoreError, err_query, exec, statement, query}
use fleetsweeper.Store.Tags.{
  collect_tags, group_tags, TagRow, TagTable, set_cluster_tag, delete_cluster_tag, get_cluster_tags,
  list_cluster_tags,
}
use fleetsweeper.Server.Auth.Actors.{Actor}
use fleetsweeper.Server.TagHandlers.{
  TagBody, undecodable, value, TagReply, permits, put_tag, tag_set, tag_deleted, tags_read,
  tags_listed, handle_set_cluster_tag, handle_delete_cluster_tag, handle_list_cluster_tags,
  handle_list_all_tags,
}

-- The requests about tags.
pub data TagCall : Type 0 where
  sets : String → String → TagBody → TagCall
  deletes : String → String → TagCall
  lists : String → TagCall
  lists_all : TagCall

module _ (actor : Option Actor) (members : String → List String) (now : Time) where
  abbrev pub answer : TagCall → Conn TagTable → TagReply × Conn TagTable
  answer (sets cluster key body) c = handle_set_cluster_tag actor members now cluster key body c
  answer (deletes cluster key) c = handle_delete_cluster_tag actor members cluster key c
  answer (lists cluster) c = handle_list_cluster_tags actor members cluster c
  answer lists_all c = handle_list_all_tags actor members c

  -- Requests one after another.
  abbrev pub tags_after : List TagCall → Conn TagTable → Conn TagTable
  tags_after [] c = c
  tags_after (call ∷ calls) c = tags_after calls (answer call c).1

exec_row :
    {V : Type 0} (row : TagTable → V) (f : TagTable → TagTable) (t : TagTable) (fs : List Bool)
    → row (f t) ≡ row t
    → row (exec f (record { table = t; faults = fs })).1.table ≡ row t
unfolding exec statement
exec_row row f t [] h = h
exec_row row f t (true ∷ fs) h = refl
exec_row row f t (false ∷ fs) h = h

query_table :
    {A : Type 0} (e : StoreError) (f : TagTable → A) (t : TagTable) (fs : List Bool)
    → (query e f (record { table = t; faults = fs })).1.table ≡ t
unfolding query statement
query_table e f t [] = refl
query_table e f t (true ∷ fs) = refl
query_table e f t (false ∷ fs) = refl

-- The reply changes nothing of what the store left.
tag_set-table : (key v : String) (p : Result (Unit {0}) × Conn TagTable) → (tag_set key v p).1 ≡ p.1
tag_set-table key v (ok done, c) = refl
tag_set-table key v (err e, c) = refl

tag_deleted-table : (p : Result (Unit {0}) × Conn TagTable) → (tag_deleted p).1 ≡ p.1
tag_deleted-table (ok done, c) = refl
tag_deleted-table (err e, c) = refl

tags_read-table : (p : Result (Map String String) × Conn TagTable) → (tags_read p).1 ≡ p.1
tags_read-table (ok found, c) = refl
tags_read-table (err e, c) = refl

tags_listed-table :
    (actor : Option Actor) (members : String → List String)
    (p : Result (Map String (Map String String)) × Conn TagTable)
    → (tags_listed actor members p).1 ≡ p.1
tags_listed-table actor members (ok found, c) = refl
tags_listed-table actor members (err e, c) = refl

module _ (actor : Option Actor) (members : String → List String) (now : Time) (cluster key : String)
    (outside : permits actor members cluster ≡ false) where
  abbrev row : TagTable → Option TagRow
  row t = lookup (cluster, key) t

  -- A cluster that the actor may act on is another.
  other_key :
      (d k : String)
      → permits actor members d ≡ true
      → ◌==◌ {K = String × String} (d, k) (cluster, key) ≡ false
  other_key d k h = elim (Bool-cases (d == cluster)) [
    | inl e ↦
        let never : true ≡ false =
          sym h ∙ ap (permits actor members) ((eq_iff d cluster).0 e) ∙ outside in
        cc
    | inr e ↦ ground (arith, e)
  ]

  set_cluster_tag-row :
      (d k v : String) (c : Conn TagTable)
      → permits actor members d ≡ true
      → row (set_cluster_tag now d k v c).1.table ≡ row c.table
  unfolding set_cluster_tag
  set_cluster_tag-row d k v c h = elim (Bool-cases (d == "" || (k == ""))) [
    | inl e ↦ rw (set_cluster_tag, e) refl
    | inr e ↦
        let x : TagRow = record { value = v; updated_at = now } in
        rw (set_cluster_tag, e)
          (exec_row row (insert (d, k) x) c.table c.faults
            (rw (lookup-insert (d, k) (cluster, key) x c.table, other_key d k h) refl))
  ]

  put_tag-row :
      (d k : String) (body : TagBody) (c : Conn TagTable)
      → permits actor members d ≡ true
      → row (put_tag actor members now d k body c).1.table ≡ row c.table
  unfolding put_tag
  put_tag-row d k (undecodable code) c h = refl
  put_tag-row d k (value v) c h =
      ap (λ x. row x.table) (tag_set-table k v (set_cluster_tag now d k v c))
      ∙ set_cluster_tag-row d k v c h

  deleted-row :
      (d k : String) (c : Conn TagTable)
      → permits actor members d ≡ true
      → row (tag_deleted (delete_cluster_tag d k c)).1.table ≡ row c.table
  unfolding delete_cluster_tag
  deleted-row d k c h =
      ap (λ x. row x.table) (tag_deleted-table (delete_cluster_tag d k c))
      ∙ exec_row row (remove (d, k)) c.table c.faults
          (rw (lookup-remove (d, k) (cluster, key) c.table, other_key d k h) refl)

  read-row :
      (d : String) (c : Conn TagTable)
      → row (tags_read (get_cluster_tags d c)).1.table ≡ row c.table
  unfolding get_cluster_tags
  read-row d c =
      ap (λ x. row x.table) (tags_read-table (get_cluster_tags d c))
      ∙ ap row (query_table err_query (λ t. collect_tags d t []) c.table c.faults)

  all_read-row :
      (c : Conn TagTable)
      → row (tags_listed actor members (list_cluster_tags c)).1.table ≡ row c.table
  unfolding list_cluster_tags
  all_read-row c =
      ap (λ x. row x.table) (tags_listed-table actor members (list_cluster_tags c))
      ∙ ap row (query_table err_query (λ t. group_tags t []) c.table c.faults)

  answer-row :
      (call : TagCall) (c : Conn TagTable)
      → row (answer actor members now call c).1.table ≡ row c.table
  unfolding handle_set_cluster_tag handle_delete_cluster_tag handle_list_cluster_tags
      handle_list_all_tags
  answer-row (sets d k body) c = elim (Bool-cases (d == "" || (k == ""))) [
    | inl e ↦ rw e refl
    | inr e ↦ elim (Bool-cases (permits actor members d)) [
      | inl p ↦ rw (p, e) (put_tag-row d k body c p)
      | inr p ↦ rw (p, e) refl
    ]
  ]
  answer-row (deletes d k) c = elim (Bool-cases (d == "" || (k == ""))) [
    | inl e ↦ rw e refl
    | inr e ↦ elim (Bool-cases (permits actor members d)) [
      | inl p ↦ rw (p, e) (deleted-row d k c p)
      | inr p ↦ rw (p, e) refl
    ]
  ]
  answer-row (lists d) c = elim (Bool-cases (d == "")) [
    | inl e ↦ rw e refl
    | inr e ↦ elim (Bool-cases (permits actor members d)) [
      | inl p ↦ rw (p, e) (read-row d c)
      | inr p ↦ rw (p, e) refl
    ]
  ]
  answer-row lists_all c = all_read-row c

  -- Whatever an actor asks of the tags, and whatever the database refuses, every tag of a cluster that the
  -- actor may not act on is left as it was, its value and its time of change.
  pub tags_after-row :
      (calls : List TagCall) (c : Conn TagTable)
      → lookup (cluster, key) (tags_after actor members now calls c).table
        ≡ lookup (cluster, key) c.table
  tags_after-row [] c = refl
  tags_after-row (call ∷ calls) c =
      tags_after-row calls (answer actor members now call c).1 ∙ answer-row call c
