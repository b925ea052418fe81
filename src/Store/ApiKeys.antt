-- ===== src/Store/ApiKeys.antt =====
-- Persisted API keys: internal/store/apikeys.go. The `cluster_scope` column holds the JSON of a list of
-- texts, which is read back as it was written: the list stands for its text.
pub mod Revoke
pub mod Unique
pub mod Saved
pub mod Examples
use fleetsweeper.Common.{
  ℕ, ◌≡◌, Bool, true, false, not, ◌&&◌, ◌||◌, List, [], ◌∷◌, ◌++◌, Option, none, some, String,
  if◌then◌else◌, leb, ◌==◌, string_eq,
}
use fleetsweeper.Common.Map.{Map, lookup}
use fleetsweeper.Store.Time.{Time, format, parse, format_null, parse_null, is_zero}
use fleetsweeper.Store.Sql.{
  Sql, Conn, pure, fail, statement, query, exec, ◌>>=◌, ◌>>◌, err_store, err_query, err_not_found,
  err_invalid, err_duplicate,
}

pub record ApiKeyRecord : Type 0 where
  pub id : String
  pub token_hash : String
  pub name : String
  pub role : String
  pub cluster_scope : List String
  pub created_at : Time
  pub expires_at : Time
  pub last_used_at : Time
  pub revoked_at : Time
  pub created_by : String

-- The columns of `api_keys` other than its primary key, the id. `token_hash` is UNIQUE.
pub record KeyRow : Type 0 where
  pub token_hash : String
  pub name : String
  pub role : String
  pub cluster_scope : List String
  pub created_at : ℕ
  pub expires_at : Option ℕ
  pub last_used_at : Option ℕ
  pub revoked_at : Option ℕ
  pub created_by : String

abbrev pub KeyTable : Type 0
KeyTable = Map String KeyRow

abbrev pub role_admin : String
role_admin = "admin"

abbrev pub role_operator : String
role_operator = "operator"

abbrev pub role_viewer : String
role_viewer = "viewer"

abbrev pub scope_wildcard : String
scope_wildcard = "*"

unfoldable pub valid_role : String → Bool
valid_role r = r == role_admin || r == role_operator || r == role_viewer

-- An empty scope becomes the wildcard, and a missing creation time the present.
abbrev pub scope_or_wildcard : List String → List String
scope_or_wildcard [] = scope_wildcard ∷ []
scope_or_wildcard (c ∷ cs) = c ∷ cs

unfoldable pub key_row : Time → ApiKeyRecord → KeyRow
unfolding format format_null is_zero
key_row now r = record {
  token_hash = r.token_hash;
  name = r.name;
  role = r.role;
  cluster_scope = scope_or_wildcard r.cluster_scope;
  created_at = format (if is_zero r.created_at then now else r.created_at);
  expires_at = format_null r.expires_at;
  last_used_at = format_null r.last_used_at;
  revoked_at = format_null r.revoked_at;
  created_by = r.created_by;
}

-- `scanAPIKeyRow` and `finishAPIKey`.
unfoldable pub finish_api_key : String → KeyRow → ApiKeyRecord
unfolding parse parse_null
finish_api_key id row = record {
  id = id;
  token_hash = row.token_hash;
  name = row.name;
  role = row.role;
  cluster_scope = row.cluster_scope;
  created_at = parse row.created_at;
  expires_at = parse_null row.expires_at;
  last_used_at = parse_null row.last_used_at;
  revoked_at = parse_null row.revoked_at;
  created_by = row.created_by;
}

-- `WHERE token_hash = ?`
unfoldable pub find_hash : String → KeyTable → Option (String × KeyRow)
find_hash hash [] = none
find_hash hash ((id, row) ∷ rest) =
    if row.token_hash == hash then some (id, row) else find_hash hash rest

-- The primary key or the unique column is taken.
unfoldable pub collides : String → String → KeyTable → Bool
collides id hash [] = false
collides id hash ((j, row) ∷ rest) = j == id || row.token_hash == hash || collides id hash rest

insert_row : String → KeyRow → KeyTable → Bool × KeyTable
unfolding collides
insert_row id row t =
    if collides id row.token_hash t then (false, t) else (true, t ++ (id, row) ∷ [])

unless_duplicate : Bool → Sql KeyTable Unit
unless_duplicate true = pure tt
unless_duplicate false = fail err_duplicate

unfoldable pub save_api_key : Time → ApiKeyRecord → Sql KeyTable Unit
unfolding valid_role key_row insert_row unless_duplicate statement ◌>>=◌
save_api_key now r =
    if r.id == "" || r.token_hash == ""
    then fail err_invalid
    else if not (valid_role r.role)
    then fail err_invalid
    else do
      inserted ← statement err_store (insert_row r.id (key_row now r))
      unless_duplicate inserted

found_key : Option (String × KeyRow) → Sql KeyTable ApiKeyRecord
unfolding finish_api_key
found_key none = fail err_not_found
found_key (some (id, row)) = pure (finish_api_key id row)

unfoldable pub get_api_key_by_hash : String → Sql KeyTable ApiKeyRecord
unfolding query find_hash found_key ◌>>=◌
get_api_key_by_hash hash = do found ← query err_query (find_hash hash); found_key found

with_id : String → Option KeyRow → Option (String × KeyRow)
with_id id none = none
with_id id (some row) = some (id, row)

unfoldable pub get_api_key : String → Sql KeyTable ApiKeyRecord
unfolding query found_key with_id ◌>>=◌
get_api_key id = do found ← query err_query (λ t. with_id id (lookup id t)); found_key found

-- `ORDER BY created_at DESC`
unfoldable pub insert_newest : ApiKeyRecord → List ApiKeyRecord → List ApiKeyRecord
insert_newest r [] = r ∷ []
insert_newest r (s ∷ rest) =
    if leb s.created_at r.created_at then r ∷ s ∷ rest else s ∷ insert_newest r rest

unfoldable pub newest_first : KeyTable → List ApiKeyRecord
unfolding insert_newest finish_api_key
newest_first [] = []
newest_first ((id, row) ∷ rest) = insert_newest (finish_api_key id row) (newest_first rest)

unfoldable pub list_api_keys : Sql KeyTable (List ApiKeyRecord)
unfolding query newest_first
list_api_keys = query err_query newest_first

-- `WHERE id = ? AND revoked_at IS NULL`
unfoldable pub is_unmarked : String → String → KeyRow → Bool
is_unmarked id j row = (j == id) && elim row.revoked_at [ none ↦ true | some _ ↦ false ]

-- `UPDATE api_keys SET revoked_at = ?`
unfoldable pub mark_row : ℕ → String → String → KeyRow → KeyRow
unfolding is_unmarked
mark_row at id j row = if is_unmarked id j row then record row { revoked_at = some at } else row

-- The update, and whether a row changed.
unfoldable pub mark_revoked : ℕ → String → KeyTable → Bool × KeyTable
unfolding mark_row is_unmarked
mark_revoked at id [] = (false, [])
mark_revoked at id ((j, row) ∷ rest) =
    let (changed, rest') = mark_revoked at id rest in
    (is_unmarked id j row || changed, (j, mark_row at id j row) ∷ rest')

unless_missing : Bool → Sql KeyTable Unit
unless_missing true = pure tt
unless_missing false = fail err_not_found

unfoldable pub revoke_api_key : Time → String → Sql KeyTable Unit
unfolding format mark_revoked unless_missing statement ◌>>=◌
revoke_api_key now id = do
  changed ← statement err_store (mark_revoked (format now) id)
  unless_missing changed

-- `UPDATE api_keys SET last_used_at = ? WHERE id = ?`
unfoldable pub mark_used : ℕ → String → KeyTable → KeyTable
mark_used at id [] = []
mark_used at id ((j, row) ∷ rest) =
    (j, (if j == id then record row { last_used_at = some at } else row)) ∷ mark_used at id rest

unfoldable pub touch_api_key : String → Time → Sql KeyTable Unit
unfolding format mark_used exec
touch_api_key id at = exec (mark_used (format at) id)
