-- ===== src/Store/ApiKeys/Revoke.antt =====
-- What the statements on `api_keys` do to the key that a token's hash selects.
use fleetsweeper.Common.{
  ℕ, zero, suc, ◌-◌, ◌<◌, ◌≡◌, ◌≢◌, refl, Bool, true, false, inl, inr, ◌||◌, ◌&&◌, List, [], ◌∷◌,
  ◌++◌, Option, none, some, String, ◌==◌, string_eq, arith, eq_iff, Option-cases,
}
use fleetsweeper.Common.Map.{Fresh, Unique}
use fleetsweeper.Store.Time.{Time, format, parse_null}
use fleetsweeper.Store.Sql.{ok, err, Conn, Healthy, err_not_found}
use fleetsweeper.Store.ApiKeys.{
  ApiKeyRecord, KeyRow, KeyTable, find_hash, key_row, save_api_key, mark_revoked, revoke_api_key,
  mark_used, touch_api_key, get_api_key_by_hash,
}

-- The column holds a time after the first second that `time.Time` can hold.
abbrev pub is_set : Option ℕ → Bool
is_set none = false
is_set (some zero) = false
is_set (some (suc s)) = true

abbrev pub is_revoked : Option (String × KeyRow) → Bool
is_revoked none = false
is_revoked (some (id, row)) = is_set row.revoked_at

abbrev pub has_id : String → Option (String × KeyRow) → Bool
has_id id none = false
has_id id (some (j, row)) = (j == id) && elim row.revoked_at [ none ↦ true | some _ ↦ false ]

abbrev pub found_first :
    Option (String × KeyRow) → Option (String × KeyRow) → Option (String × KeyRow)
found_first none o = o
found_first (some x) o = some x

-- A row that is added hides none.
pub find_hash-append :
    (hash : String) (t u : KeyTable)
    → find_hash hash (t ++ u) ≡ found_first (find_hash hash t) (find_hash hash u)
unfolding find_hash
find_hash-append hash [] u = refl
find_hash-append hash ((j, row) ∷ rest) u = ground (arith, find_hash-append hash rest u)

is_revoked-mark_used :
    (hash id : String) (at : ℕ) (t : KeyTable)
    → is_revoked (find_hash hash (mark_used at id t)) ≡ is_revoked (find_hash hash t)
unfolding find_hash mark_used
is_revoked-mark_used hash id at [] = refl
is_revoked-mark_used hash id at ((j, row) ∷ rest) =
    ground (arith, is_revoked-mark_used hash id at rest)

-- A key is revoked after the update if it was, or if it has the id and was not marked yet.
is_revoked-mark_revoked :
    (hash id : String) (s : ℕ) (t : KeyTable)
    → is_revoked (find_hash hash (mark_revoked (suc s) id t).1)
      ≡ (is_revoked (find_hash hash t) || has_id id (find_hash hash t))
unfolding find_hash mark_revoked
is_revoked-mark_revoked hash id s [] = refl
is_revoked-mark_revoked hash id s ((j, row) ∷ rest) =
    ground (arith, is_revoked-mark_revoked hash id s rest)

Fresh-find_hash :
    (hash id : String) (row : KeyRow) (t : KeyTable)
    → Fresh id t
    → find_hash hash t ≢ some (id, row)
unfolding find_hash
Fresh-find_hash hash id row [] f e = ground arith
Fresh-find_hash hash id row ((j, r) ∷ rest) f e =
    ground (arith, Fresh-find_hash hash id row rest f.1, eq_iff j id)

Fresh-mark_revoked :
    (id : String) (at : ℕ) (t : KeyTable) → Fresh id t → (mark_revoked at id t).0 ≡ false
unfolding mark_revoked
Fresh-mark_revoked id at [] f = refl
Fresh-mark_revoked id at ((j, r) ∷ rest) f = ground (arith, Fresh-mark_revoked id at rest f.1)

-- The update reports a change only if the key with the id was not marked.
unmarked_of_changed :
    (hash id : String) (at : ℕ) (row : KeyRow) (t : KeyTable)
    → Unique t
    → find_hash hash t ≡ some (id, row)
    → (mark_revoked at id t).0 ≡ true
    → row.revoked_at ≡ none
unfolding find_hash mark_revoked
unmarked_of_changed hash id at row [] u e h = ground arith
unmarked_of_changed hash id at row ((j, r) ∷ rest) u e h = ground (
  arith,
  eq_iff j id,
  Fresh-mark_revoked j at rest u.0,
  Fresh-find_hash hash j row rest u.0,
  unmarked_of_changed hash id at row rest u.1,
)

still_revoked :
    (hash id : String) (at : ℕ) (t : KeyTable)
    → is_revoked (find_hash hash t) ≡ true
    → is_revoked (find_hash hash (mark_revoked at id t).1) ≡ true
unfolding find_hash mark_revoked
still_revoked hash id at [] h = ground arith
still_revoked hash id at ((j, row) ∷ rest) h = ground (arith, still_revoked hash id at rest)

-- A write to `api_keys` by the admin handlers, the CLI or the last-used update.
pub data KeyCall : Type 0 where
  saves : Time → ApiKeyRecord → KeyCall
  revokes : Time → String → KeyCall
  touches : String → Time → KeyCall

unfoldable pub key_step : KeyCall → Conn KeyTable → Conn KeyTable
key_step (saves now r) c = (save_api_key now r c).1
key_step (revokes now id) c = (revoke_api_key now id c).1
key_step (touches id at) c = (touch_api_key id at c).1

unfoldable pub key_run : List KeyCall → Conn KeyTable → Conn KeyTable
key_run [] c = c
key_run (k ∷ ks) c = key_run ks (key_step k c)

abbrev pub Revoked : String → Conn KeyTable → Type 0
Revoked hash c = is_revoked (find_hash hash c.table) ≡ true

key_step-Revoked :
    (hash : String) (k : KeyCall) (c : Conn KeyTable) → Revoked hash c → Revoked hash (key_step k c)
unfolding key_step
key_step-Revoked hash (saves now r) c h =
    unfold save_api_key in
    ground (arith, find_hash-append hash c.table ((r.id, key_row now r) ∷ []))
key_step-Revoked hash (revokes now id) c h =
    unfold revoke_api_key in ground (arith, still_revoked hash id (format now) c.table)
key_step-Revoked hash (touches id at) c h =
    unfold touch_api_key in ground (arith, is_revoked-mark_used hash id (format at) c.table)

-- No history of writes, failing or not, takes a revocation back.
pub key_run-Revoked :
    (hash : String) (ks : List KeyCall) (c : Conn KeyTable)
    → Revoked hash c
    → Revoked hash (key_run ks c)
unfolding key_run
key_run-Revoked hash [] c h = h
key_run-Revoked hash (k ∷ ks) c h =
    key_run-Revoked hash ks (key_step k c) (key_step-Revoked hash k c h)

-- `RevokeAPIKey` that returns no error has revoked the key with the id, for the tokens of its hash.
pub revoke_api_key-Revoked :
    (now : Time) (hash id : String) (row : KeyRow) (c : Conn KeyTable)
    → 0 < format now
    → Unique c.table
    → find_hash hash c.table ≡ some (id, row)
    → (revoke_api_key now id c).0 ≡ ok tt
    → Revoked hash (revoke_api_key now id c).1
unfolding revoke_api_key
revoke_api_key-Revoked now hash id row c later u e h = ground (
  arith,
  is_revoked-mark_revoked hash id (format now - 1) c.table,
  unmarked_of_changed hash id (format now) row c.table u e,
  eq_iff id id,
)

mark_again :
    (id : String) (at at' : ℕ) (t : KeyTable)
    → (mark_revoked at' id (mark_revoked at id t).1).0 ≡ false
unfolding mark_revoked
mark_again id at at' [] = refl
mark_again id at at' ((j, row) ∷ rest) = ground (arith, mark_again id at at' rest)

-- Once `RevokeAPIKey` has returned no error for an id, it returns `ErrNotFound` for that id whenever
-- the database answers: the second revocation of a key is an error.
pub revoke_again :
    (now later : Time) (id : String) (c : Conn KeyTable)
    → (revoke_api_key now id c).0 ≡ ok tt
    → Healthy (revoke_api_key now id c).1
    → (revoke_api_key later id (revoke_api_key now id c).1).0 ≡ err err_not_found
unfolding revoke_api_key
revoke_again now later id c h healthy =
    ground (arith, mark_again id (format now) (format later) c.table)

set_nonzero : (o : Option ℕ) → is_set o ≡ true → parse_null o ≢ 0
unfolding parse_null
set_nonzero none h e = cc
set_nonzero (some zero) h e = cc
set_nonzero (some (suc s)) h e = absurd (omega (arith, e))

-- A revoked key is read back with its time of revocation.
pub get_api_key_by_hash-Revoked :
    (hash : String) (c : Conn KeyTable) (k : ApiKeyRecord)
    → (get_api_key_by_hash hash c).0 ≡ ok k
    → Revoked hash c
    → k.revoked_at ≢ 0
unfolding get_api_key_by_hash
get_api_key_by_hash-Revoked hash c k h t e = elim (Option-cases (find_hash hash c.table)) [
  | inl missing ↦ ground arith
  | inr (found, there) ↦ ground (arith, set_nonzero found.1.revoked_at)
]
