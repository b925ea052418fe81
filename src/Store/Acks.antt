-- ===== src/Store/Acks.antt =====
-- Finding acknowledgements: internal/store/acks.go.
pub mod View
pub mod History
pub mod Snooze
pub mod Listing
pub mod Examples
use fleetsweeper.Common.{
  ℕ, ◌≡◌, Bool, true, false, not, ◌&&◌, List, [], ◌∷◌, Option, none, some, String, if◌then◌else◌,
  leb, ltb, ◌==◌, map, string_eq,
}
use fleetsweeper.Common.Map.{Map, lookup, insert, remove, keep}
use fleetsweeper.Store.Time.{Time, format, parse, format_null, parse_null, is_zero}
use fleetsweeper.Store.Sql.{
  Result, ok, err, Sql, Conn, pure, fail, query, exec, ◌>>=◌, ◌>>◌, err_store, err_query,
  err_not_found, err_invalid,
}

pub record AckRecord : Type 0 where
  pub fingerprint : String
  pub cluster : String
  pub scanner : String
  pub title : String
  pub ack_by : String
  pub reason : String
  pub snooze_until : Time
  pub created_at : Time

-- The columns of `finding_acks` other than its primary key, the fingerprint.
pub record AckRow : Type 0 where
  pub cluster : String
  pub scanner : String
  pub title : String
  pub ack_by : String
  pub reason : String
  pub snooze_until : Option ℕ
  pub created_at : ℕ

abbrev pub AckTable : Type 0
AckTable = Map String AckRow

-- The columns that `SaveAck` binds.
unfoldable pub ack_row : AckRecord → AckRow
unfolding format format_null
ack_row r = record {
  cluster = r.cluster;
  scanner = r.scanner;
  title = r.title;
  ack_by = r.ack_by;
  reason = r.reason;
  snooze_until = format_null r.snooze_until;
  created_at = format r.created_at;
}

unfoldable pub scan_ack_row : String → AckRow → AckRecord
unfolding parse parse_null
scan_ack_row fingerprint row = record {
  fingerprint = fingerprint;
  cluster = row.cluster;
  scanner = row.scanner;
  title = row.title;
  ack_by = row.ack_by;
  reason = row.reason;
  snooze_until = parse_null row.snooze_until;
  created_at = parse row.created_at;
}

unfoldable pub with_created_at : Time → AckRecord → AckRecord
unfolding is_zero
with_created_at now r = if is_zero r.created_at then record r { created_at = now } else r

unfoldable pub save_ack : Time → AckRecord → Sql AckTable Unit
unfolding with_created_at ack_row exec
save_ack now r =
    if r.fingerprint == ""
    then fail err_invalid
    else exec (insert r.fingerprint (ack_row (with_created_at now r)))

unfoldable pub delete_ack : String → Sql AckTable Unit
unfolding exec
delete_ack fingerprint = exec (remove fingerprint)

-- `snooze_until IS NOT NULL AND snooze_until < ?` is false of the rows that stay.
unfoldable pub is_live : ℕ → String → AckRow → Bool
is_live now fingerprint row = elim row.snooze_until [ none ↦ true | some t ↦ not (ltb t now) ]

unfoldable pub prune_expired_acks : Time → Sql AckTable Unit
unfolding is_live format exec
prune_expired_acks now = exec (keep (is_live (format now)))

unfoldable pub or_not_found : String → Option AckRow → Sql AckTable AckRecord
unfolding scan_ack_row
or_not_found fingerprint none = fail err_not_found
or_not_found fingerprint (some row) = pure (scan_ack_row fingerprint row)

unfoldable pub get_ack : Time → String → Sql AckTable AckRecord
unfolding prune_expired_acks query or_not_found ◌>>=◌
get_ack now fingerprint = do
  prune_expired_acks now
  found ← query err_query (lookup fingerprint)
  or_not_found fingerprint found

-- Insertion keeps later entries before earlier ones: `ORDER BY created_at DESC`.
unfoldable pub insert_newest : AckRecord → List AckRecord → List AckRecord
insert_newest r [] = r ∷ []
insert_newest r (s ∷ rest) =
    if leb s.created_at r.created_at then r ∷ s ∷ rest else s ∷ insert_newest r rest

unfoldable pub newest_first : AckTable → List AckRecord
unfolding insert_newest scan_ack_row
newest_first [] = []
newest_first ((fingerprint, row) ∷ rest) =
    insert_newest (scan_ack_row fingerprint row) (newest_first rest)

unfoldable pub list_acks : Time → Sql AckTable (List AckRecord)
unfolding prune_expired_acks query newest_first ◌>>=◌
list_acks now = do prune_expired_acks now; query err_store newest_first

unfoldable pub is_acked : Time → String → Sql AckTable Bool
unfolding prune_expired_acks query ◌>>=◌
is_acked now fingerprint = do
  prune_expired_acks now
  query err_store (λ t. elim (lookup fingerprint t) [ none ↦ false | some _ ↦ true ])
