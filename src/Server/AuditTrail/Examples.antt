-- ===== src/Server/AuditTrail/Examples.antt =====
-- A refused request in the audit log.
use fleetsweeper.Common.{
  ◌≡◌, refl, List, [], ◌∷◌, ◌++◌, none, String, string_eq, list_eq, nat_eq, ◌==◌, if◌then◌else◌,
}
use fleetsweeper.Store.Sql.{Conn}
use fleetsweeper.Store.Audit.{AuditTable, audit_row}
use fleetsweeper.Server.Auth.{Request, post, mutates}
use fleetsweeper.Server.Auth.Actors.{Actor}
use fleetsweeper.Server.Auth.Bearer.{Text}
use fleetsweeper.Server.AuditTrail.{
  WriterCall, write_header, write, Client, needle, extract_error_message, audit_middleware,
}
use fleetsweeper.Server.AuditTrail.Recorded.{entry_for, audit_middleware-entry_for}

abbrev refusal : Text
refusal = b'{' ∷ needle ++ (b'n' ∷ b'o' ∷ b'"' ∷ b'}' ∷ [])

message : extract_error_message refusal ≡ b'n' ∷ b'o' ∷ []
unfolding extract_error_message
message = refl

abbrev as_text : Text → String
as_text t = if t == (b'n' ∷ b'o' ∷ []) then "no" else "?"

abbrev create_group : Request
create_group = record { method = post; path = "/groups"; authorization = []; session = none }

abbrev browser : Client
browser = record { method = "POST"; remote_addr = "10.0.0.7"; user_agent = "curl" }

abbrev kim : Actor
kim = record { id = "k1"; name = "kim"; role = "operator"; cluster_scope = "*" ∷ [] }

abbrev calls : List WriterCall
calls = write_header 403 ∷ write refusal ∷ []

abbrev no_entries : Conn AuditTable
no_entries = record { table = []; faults = [] }

audit_middleware-entry_for_example :
    (audit_middleware as_text "a1" 7 3 create_group browser kim calls no_entries).table ≡ (
      if mutates create_group
      then audit_row (entry_for as_text "a1" 7 3 create_group browser kim calls) ∷ []
      else [])
audit_middleware-entry_for_example =
    audit_middleware-entry_for as_text "a1" 7 3 create_group browser kim calls no_entries refl refl
