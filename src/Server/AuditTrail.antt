-- ===== src/Server/AuditTrail.antt =====
-- The audit of requests that change state: internal/server/audit_middleware.go.
-- What the wrapped handler does to its response is the list of its calls on the writer; bodies are bytes.
pub mod Captured
pub mod Recorded
pub mod Examples
use fleetsweeper.Common.{
  ℕ, suc, ◌+◌, ◌-◌, Bool, not, List, [], ◌∷◌, ◌++◌, Option, none, some, String, if◌then◌else◌, ltb,
  leb, eqb, ◌==◌, length, min,
}
use fleetsweeper.Store.Time.{Time}
use fleetsweeper.Store.Sql.{Conn}
use fleetsweeper.Store.Listing.{take}
use fleetsweeper.Store.Audit.{AuditEntry, AuditTable, save_audit_entry}
use fleetsweeper.Server.Auth.{Request, mutates}
use fleetsweeper.Server.Auth.Actors.{Actor}
use fleetsweeper.Server.Auth.Bearer.{Text}
use fleetsweeper.Server.AlertHandlers.{strip_prefix}

abbrev pub audit_body_cap : ℕ
audit_body_cap = 512

pub record AuditWriter : Type 0 where
  pub status : ℕ
  pub body : Text

-- A call on the writer, which also goes on to the response.
pub data WriterCall : Type 0 where
  write_header : ℕ → WriterCall
  write : Text → WriterCall

unfoldable pub write_body : Text → AuditWriter → AuditWriter
write_body p w =
    if ltb (length w.body) audit_body_cap
    then record w { body = w.body ++ take (min (audit_body_cap - length w.body) (length p)) p }
    else w

unfoldable pub capture : List WriterCall → AuditWriter → AuditWriter
unfolding write_body
capture [] w = w
capture (write_header code ∷ more) w = capture more (record w { status = code })
capture (write p ∷ more) w = capture more (write_body p w)

-- `"error":"`
abbrev pub needle : Text
needle = b'"' ∷ b'e' ∷ b'r' ∷ b'r' ∷ b'o' ∷ b'r' ∷ b'"' ∷ b':' ∷ b'"' ∷ []

-- What follows the first occurrence of a text: `bytes.Cut`.
unfoldable pub after_first : Text → Text → Option Text
unfolding strip_prefix
after_first n [] = none
after_first n (c ∷ cs) =
    let later = after_first n cs in
    elim (strip_prefix n (c ∷ cs)) [ none ↦ later | some rest ↦ some rest ]

abbrev pub one_later : Option ℕ → Option ℕ
one_later none = none
one_later (some i) = some (suc i)

-- `bytes.IndexByte(rest, '"')`
unfoldable pub index_quote : Text → Option ℕ
index_quote [] = none
index_quote (c ∷ cs) = let later = index_quote cs in if eqb c b'"' then some 0 else one_later later

unfoldable pub excerpt : Text → Text
unfolding index_quote
excerpt rest = elim (index_quote rest) [
  | none ↦ if ltb 200 (length rest) then take 200 rest else rest
  | some end ↦ take (if ltb 200 end then 200 else end) rest
]

unfoldable pub extract_error_message : Text → Text
unfolding after_first excerpt
extract_error_message body = elim (after_first needle body) [ none ↦ [] | some rest ↦ excerpt rest ]

-- What a request brings besides what the authentication reads.
pub record Client : Type 0 where
  pub method : String
  pub remote_addr : String
  pub user_agent : String

module _ (text : Text → String) where
  unfoldable pub audit_entry : Time → ℕ → Request → Client → Actor → AuditWriter → AuditEntry
  unfolding extract_error_message
  audit_entry start took r client actor captured = record {
    id = "";
    timestamp = start;
    actor_id = actor.id;
    actor_name = actor.name;
    actor_role = actor.role;
    method = client.method;
    path = r.path;
    status = captured.status;
    remote_addr = client.remote_addr;
    user_agent = client.user_agent;
    duration_ms = took;
    error = if leb 400 captured.status then text (extract_error_message captured.body) else "";
  }

  -- The table after a request: its start, its milliseconds and what the handler did to the response; `fresh`
  -- is the id that the store generates.
  unfoldable pub audit_middleware :
      String
      → Time
      → ℕ
      → Request
      → Client
      → Actor
      → List WriterCall
      → Conn AuditTable
      → Conn AuditTable
  unfolding mutates capture audit_entry save_audit_entry
  audit_middleware fresh start took r client actor calls c =
      if not (mutates r)
      then c
      else (save_audit_entry fresh start
          (audit_entry start took r client actor
            (capture calls (record { status = 200; body = [] })))
          c).1
