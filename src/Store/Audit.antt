-- ===== src/Store/Audit.antt =====
-- The audit log: internal/store/audit.go.
-- The layout sortableTime keeps nanoseconds, so a column holds the instant itself.
pub mod Listed
pub mod Examples
use fleetsweeper.Common.{
  ℕ, zero, suc, ◌+◌, ◌-◌, Bool, true, false, not, ◌&&◌, ◌||◌, List, [], ◌∷◌, Option, none, some,
  String, if◌then◌else◌, ltb, leb, eqb, ◌==◌, string_eq, filter, length, map,
}
use fleetsweeper.Common.Integers.{ℤ, pos, negsuc}
use fleetsweeper.Common.Map.{Map, lookup}
use fleetsweeper.Store.Time.{Time, is_zero}
use fleetsweeper.Store.Sql.{Sql, fail, statement, query, pure, ◌>>=◌, err_store, err_query}
use fleetsweeper.Store.Listing.{page_of}

pub record AuditEntry : Type 0 where
  pub id : String
  pub timestamp : Time
  pub actor_id : String
  pub actor_name : String
  pub actor_role : String
  pub method : String
  pub path : String
  pub status : ℕ
  pub remote_addr : String
  pub user_agent : String
  pub duration_ms : ℕ
  pub error : String

-- A row, whose text columns for the actor, the client and the error may be NULL.
pub record AuditRow : Type 0 where
  pub id : String
  pub timestamp : Time
  pub actor_id : Option String
  pub actor_name : Option String
  pub actor_role : Option String
  pub method : String
  pub path : String
  pub status : ℕ
  pub remote_addr : Option String
  pub user_agent : Option String
  pub duration_ms : ℕ
  pub error : Option String

abbrev pub AuditTable : Type 0
AuditTable = List AuditRow

pub record AuditListOptions : Type 0 where
  pub limit : ℤ
  pub since : Time
  pub actor_id : String
  pub min_status : ℤ

unfoldable pub nullable : String → Option String
nullable s = if s == "" then none else some s

-- `sql.NullString.String`
abbrev pub null_text : Option String → String
null_text none = ""
null_text (some s) = s

unfoldable pub audit_row : AuditEntry → AuditRow
unfolding nullable
audit_row e = record {
  id = e.id;
  timestamp = e.timestamp;
  actor_id = nullable e.actor_id;
  actor_name = nullable e.actor_name;
  actor_role = nullable e.actor_role;
  method = e.method;
  path = e.path;
  status = e.status;
  remote_addr = nullable e.remote_addr;
  user_agent = nullable e.user_agent;
  duration_ms = e.duration_ms;
  error = nullable e.error;
}

unfoldable pub scan_audit_row : AuditRow → AuditEntry
scan_audit_row r = record {
  id = r.id;
  timestamp = r.timestamp;
  actor_id = null_text r.actor_id;
  actor_name = null_text r.actor_name;
  actor_role = null_text r.actor_role;
  method = r.method;
  path = r.path;
  status = r.status;
  remote_addr = null_text r.remote_addr;
  user_agent = null_text r.user_agent;
  duration_ms = r.duration_ms;
  error = null_text r.error;
}

-- An unset id takes a generated one and an unset instant takes now.
unfoldable pub with_defaults : String → Time → AuditEntry → AuditEntry
unfolding is_zero
with_defaults fresh now e = record e {
  id = if e.id == "" then fresh else e.id;
  timestamp = if is_zero e.timestamp then now else e.timestamp;
}

abbrev pub has_id : String → AuditTable → Bool
has_id id [] = false
has_id id (r ∷ rs) = r.id == id || has_id id rs

abbrev pub added : Bool → Sql AuditTable Unit
added true = pure tt
added false = fail err_store

-- The id is the primary key: an insert of an id that the table has fails.
unfoldable pub save_audit_entry : String → Time → AuditEntry → Sql AuditTable Unit
unfolding with_defaults audit_row statement ◌>>=◌
save_audit_entry fresh now e =
    let row = audit_row (with_defaults fresh now e) in
    statement err_store (λ t. if has_id row.id t then (false, t) else (true, row ∷ t)) >>= added

unfoldable pub is_older : Time → AuditRow → Bool
is_older cutoff r = ltb r.timestamp cutoff

-- The rows removed are counted.
unfoldable pub prune_audit_entries : Time → Sql AuditTable ℕ
unfolding is_older statement
prune_audit_entries cutoff =
    statement err_store
      (λ t. (length (filter (is_older cutoff) t), filter (λ r. not (is_older cutoff r)) t))

unfoldable pub limit_of_listing : ℕ → ℤ → ℕ
limit_of_listing d (pos zero) = d
limit_of_listing d (pos (suc n)) = suc n
limit_of_listing d (negsuc n) = d

-- The WHERE clause. A NULL column equals nothing.
unfoldable pub audit_matches : AuditListOptions → AuditRow → Bool
unfolding is_zero
audit_matches o r =
    (is_zero o.since || ltb o.since r.timestamp)
    && (o.actor_id == "" || elim r.actor_id [ none ↦ false | some a ↦ a == o.actor_id ])
    && elim o.min_status [ pos n ↦ leb n r.status | negsuc n ↦ true ]

unfoldable pub list_audit_entries : AuditListOptions → Sql AuditTable (List AuditEntry)
unfolding query audit_matches scan_audit_row limit_of_listing
list_audit_entries o = query err_query (λ t.
    map scan_audit_row
      (page_of (λ r. r.timestamp) (limit_of_listing 100 o.limit) (filter (audit_matches o) t)))
