-- ===== src/Store/ApiKeys/Saved.antt =====
-- Which saves are refused, and what is read back of the others.
use fleetsweeper.Common.{
  ◌≡◌, ◌≢◌, refl, true, false, [], ◌∷◌, ◌++◌, none, some, String, string_eq, arith, eq_iff,
}
use fleetsweeper.Store.Time.{Time}
use fleetsweeper.Store.Sql.{ok, err, Conn, Healthy, err_duplicate}
use fleetsweeper.Store.ApiKeys.{
  ApiKeyRecord, KeyRow, KeyTable, find_hash, collides, key_row, valid_role, finish_api_key,
  save_api_key, get_api_key_by_hash,
}
use fleetsweeper.Store.ApiKeys.Revoke.{find_hash-append}

module _ (id : String) (row : KeyRow) where
  find_hash-free :
      (t : KeyTable) → collides id row.token_hash t ≡ false → find_hash row.token_hash t ≡ none
  unfolding collides find_hash
  find_hash-free [] c = refl
  find_hash-free ((j, r) ∷ rest) c = ground (arith, find_hash-free rest)

-- A record that may be stored.
pub record IsValid (r : ApiKeyRecord) : Type 0 where
  pub named : r.id ≢ ""
  pub hashed : r.token_hash ≢ ""
  pub ranked : valid_role r.role ≡ true

module _ (now : Time) (r : ApiKeyRecord) (c : Conn KeyTable) (healthy : Healthy c) where
  -- A valid record whose id or token hash is taken is refused as a duplicate, and the table stays.
  pub save_api_key-collides :
      IsValid r
      → collides r.id r.token_hash c.table ≡ true
      → ((save_api_key now r c).0 ≡ err err_duplicate) × ((save_api_key now r c).1.table ≡ c.table)
  unfolding save_api_key
  save_api_key-collides v h = ground (arith, eq_iff r.id "", eq_iff r.token_hash "")

  saved_conn :
      IsValid r
      → collides r.id r.token_hash c.table ≡ false
      → (save_api_key now r c).1
        ≡ record { table = c.table ++ (r.id, key_row now r) ∷ []; faults = [] }
  unfolding save_api_key
  saved_conn v h = ground (arith, eq_iff r.id "", eq_iff r.token_hash "")

  found_last :
      collides r.id r.token_hash c.table ≡ false
      → find_hash r.token_hash (c.table ++ (r.id, key_row now r) ∷ []) ≡ some (r.id, key_row now r)
  unfolding find_hash key_row
  found_last h = ground (
    arith,
    find_hash-append r.token_hash c.table ((r.id, key_row now r) ∷ []),
    find_hash-free r.id (key_row now r) c.table h,
    eq_iff r.token_hash r.token_hash,
  )

  -- A valid record whose id and token hash are free is stored, and a lookup of its hash finds it.
  pub get_api_key_by_hash-save :
      IsValid r
      → collides r.id r.token_hash c.table ≡ false
      → (get_api_key_by_hash r.token_hash (save_api_key now r c).1).0
        ≡ ok (finish_api_key r.id (key_row now r))
  unfolding get_api_key_by_hash
  get_api_key_by_hash-save v h = rw (saved_conn v h) (ground (arith, found_last h))
