-- ===== src/Store/ApiKeys/Unique.antt =====
-- Ids and hashes of the key table stay unique, whatever is written to it.
use fleetsweeper.Common.{
  ℕ, ◌≡◌, ◌⊎◌, sym, subst, false, inl, inr, List, [], ◌∷◌, ◌++◌, some, String, if◌then◌else◌, ◌==◌,
  string_eq, arith, eq_iff, Bool-cases,
}
use fleetsweeper.Common.Map.{Fresh, Unique}
use fleetsweeper.Store.Time.{Time, format}
use fleetsweeper.Store.Sql.{Conn}
use fleetsweeper.Store.ApiKeys.{
  ApiKeyRecord, KeyRow, KeyTable, collides, insert_row, key_row, save_api_key, mark_row,
  mark_revoked, revoke_api_key, mark_used, touch_api_key,
}
use fleetsweeper.Store.ApiKeys.Revoke.{KeyCall, saves, revokes, touches, key_step, key_run}

-- No row has the hash.
abbrev pub NoHash : String → KeyTable → Type 0
NoHash hash [] = Unit
NoHash hash ((j, row) ∷ rest) = (row.token_hash == hash ≡ false) × NoHash hash rest

abbrev pub UniqueHashes : KeyTable → Type 0
UniqueHashes [] = Unit
UniqueHashes ((j, row) ∷ rest) = NoHash row.token_hash rest × UniqueHashes rest

pub record AreUnique (t : KeyTable) : Type 0 where
  pub ids : Unique t
  pub hashes : UniqueHashes t

module _ (id : String) (row : KeyRow) where
  Fresh-snoc :
      (i : String) (t : KeyTable) → id == i ≡ false → Fresh i t → Fresh i (t ++ (id, row) ∷ [])
  Fresh-snoc i [] n f = (n, tt)
  Fresh-snoc i ((j, r) ∷ rest) n f = (f.0, Fresh-snoc i rest n f.1)

  NoHash-snoc :
      (h : String) (t : KeyTable)
      → row.token_hash == h ≡ false
      → NoHash h t
      → NoHash h (t ++ (id, row) ∷ [])
  NoHash-snoc h [] n f = (n, tt)
  NoHash-snoc h ((j, r) ∷ rest) n f = (f.0, NoHash-snoc h rest n f.1)

  -- A row that collides with none goes to the end.
  Unique-snoc :
      (t : KeyTable)
      → collides id row.token_hash t ≡ false
      → Unique t
      → Unique (t ++ (id, row) ∷ [])
  unfolding collides
  Unique-snoc [] c u = (tt, tt)
  Unique-snoc ((j, r) ∷ rest) c u = (
    Fresh-snoc j rest (ground (arith, eq_iff j id, eq_iff id j)) u.0,
    Unique-snoc rest (ground arith) u.1,
  )

  UniqueHashes-snoc :
      (t : KeyTable)
      → collides id row.token_hash t ≡ false
      → UniqueHashes t
      → UniqueHashes (t ++ (id, row) ∷ [])
  unfolding collides
  UniqueHashes-snoc [] c u = (tt, tt)
  UniqueHashes-snoc ((j, r) ∷ rest) c u = (
    NoHash-snoc r.token_hash rest
        (ground (arith, eq_iff r.token_hash row.token_hash, eq_iff row.token_hash r.token_hash))
        u.0,
    UniqueHashes-snoc rest (ground arith) u.1,
  )

-- The updates change neither ids nor hashes.
module _ (id : String) (at : ℕ) where
  token_hash-mark_row :
      (j : String) (row : KeyRow) → (mark_row at id j row).token_hash ≡ row.token_hash
  unfolding mark_row
  token_hash-mark_row j row = ground arith

  Fresh-mark_revoked : (i : String) (t : KeyTable) → Fresh i t → Fresh i (mark_revoked at id t).1
  unfolding mark_revoked
  Fresh-mark_revoked i [] f = tt
  Fresh-mark_revoked i ((j, r) ∷ rest) f = (f.0, Fresh-mark_revoked i rest f.1)

  NoHash-mark_revoked : (h : String) (t : KeyTable) → NoHash h t → NoHash h (mark_revoked at id t).1
  unfolding mark_revoked
  NoHash-mark_revoked h [] f = tt
  NoHash-mark_revoked h ((j, r) ∷ rest) f =
      (ground (arith, token_hash-mark_row j r), NoHash-mark_revoked h rest f.1)

  mark_revoked-AreUnique : (t : KeyTable) → AreUnique t → AreUnique (mark_revoked at id t).1
  unfolding mark_revoked
  mark_revoked-AreUnique [] u = u
  mark_revoked-AreUnique ((j, r) ∷ rest) u =
      let tail = mark_revoked-AreUnique rest (record { ids = u.ids.1; hashes = u.hashes.1 }) in
      record {
        ids = (Fresh-mark_revoked j rest u.ids.0, tail.ids);
        hashes = (
          subst (λ h. NoHash h (mark_revoked at id rest).1) (sym (token_hash-mark_row j r))
              (NoHash-mark_revoked r.token_hash rest u.hashes.0),
          tail.hashes,
        );
      }

  token_hash-touched :
      (j : String) (row : KeyRow)
      → (if j == id then record row { last_used_at = some at } else row).token_hash ≡ row.token_hash
  token_hash-touched j row = ground arith

  Fresh-mark_used : (i : String) (t : KeyTable) → Fresh i t → Fresh i (mark_used at id t)
  unfolding mark_used
  Fresh-mark_used i [] f = tt
  Fresh-mark_used i ((j, r) ∷ rest) f = (f.0, Fresh-mark_used i rest f.1)

  NoHash-mark_used : (h : String) (t : KeyTable) → NoHash h t → NoHash h (mark_used at id t)
  unfolding mark_used
  NoHash-mark_used h [] f = tt
  NoHash-mark_used h ((j, r) ∷ rest) f =
      (ground (arith, token_hash-touched j r), NoHash-mark_used h rest f.1)

  mark_used-AreUnique : (t : KeyTable) → AreUnique t → AreUnique (mark_used at id t)
  unfolding mark_used
  mark_used-AreUnique [] u = u
  mark_used-AreUnique ((j, r) ∷ rest) u =
      let tail = mark_used-AreUnique rest (record { ids = u.ids.1; hashes = u.hashes.1 }) in
      record {
        ids = (Fresh-mark_used j rest u.ids.0, tail.ids);
        hashes = (
          subst (λ h. NoHash h (mark_used at id rest)) (sym (token_hash-touched j r))
              (NoHash-mark_used r.token_hash rest u.hashes.0),
          tail.hashes,
        );
      }

insert_row-AreUnique :
    (id : String) (row : KeyRow) (t : KeyTable) → AreUnique t → AreUnique (insert_row id row t).1
unfolding insert_row
insert_row-AreUnique id row t u = elim (Bool-cases (collides id row.token_hash t)) [
  | inl c ↦ rw c u
  | inr c ↦ rw c (record {
    ids = Unique-snoc id row t c u.ids;
    hashes = UniqueHashes-snoc id row t c u.hashes;
  })
]

save_cases :
    (now : Time) (r : ApiKeyRecord) (c : Conn KeyTable)
    → ((save_api_key now r c).1.table ≡ c.table)
      ⊎ (collides r.id (key_row now r).token_hash c.table ≡ false)
        × ((save_api_key now r c).1.table ≡ c.table ++ (r.id, key_row now r) ∷ [])
unfolding save_api_key
save_cases now r c = ground arith

revoke_cases :
    (now : Time) (id : String) (c : Conn KeyTable)
    → ((revoke_api_key now id c).1.table ≡ c.table)
      ⊎ ((revoke_api_key now id c).1.table ≡ (mark_revoked (format now) id c.table).1)
unfolding revoke_api_key
revoke_cases now id c = ground arith

touch_cases :
    (at : Time) (id : String) (c : Conn KeyTable)
    → ((touch_api_key id at c).1.table ≡ c.table)
      ⊎ ((touch_api_key id at c).1.table ≡ mark_used (format at) id c.table)
unfolding touch_api_key
touch_cases at id c = ground arith

key_step-AreUnique :
    (k : KeyCall) (c : Conn KeyTable) → AreUnique c.table → AreUnique (key_step k c).table
unfolding key_step
key_step-AreUnique (saves now r) c u = elim (save_cases now r c) [
  | inl e ↦ rw e u
  | inr (free, e) ↦ rw e (record {
    ids = Unique-snoc r.id (key_row now r) c.table free u.ids;
    hashes = UniqueHashes-snoc r.id (key_row now r) c.table free u.hashes;
  })
]
key_step-AreUnique (revokes now id) c u = elim (revoke_cases now id c) [
  | inl e ↦ rw e u
  | inr e ↦ rw e (mark_revoked-AreUnique id (format now) c.table u)
]
key_step-AreUnique (touches id at) c u = elim (touch_cases at id c) [
  | inl e ↦ rw e u
  | inr e ↦ rw e (mark_used-AreUnique id (format at) c.table u)
]

-- No history of saves, revocations and last-used updates, failing or not, gives two rows one id or one
-- token hash.
pub key_run-AreUnique :
    (ks : List KeyCall) (c : Conn KeyTable) → AreUnique c.table → AreUnique (key_run ks c).table
unfolding key_run
key_run-AreUnique [] c u = u
key_run-AreUnique (k ∷ ks) c u = key_run-AreUnique ks (key_step k c) (key_step-AreUnique k c u)
