-- ===== src/Server/AuditTrail/Recorded.antt =====
-- The entry that a request leaves in the audit log.
use fleetsweeper.Common.{
  ℕ, ◌≡◌, refl, sym, subst, ap, ◌∙◌, false, List, [], ◌∷◌, Option, none, some, String,
  if◌then◌else◌, leb, Bool-cases, Option-cases, inl, inr,
}
use fleetsweeper.Store.Time.{Time, is_zero}
use fleetsweeper.Store.Sql.{Conn, Healthy, statement, ◌>>=◌}
use fleetsweeper.Store.Listing.{take}
use fleetsweeper.Store.Audit.{
  AuditEntry, AuditTable, audit_row, has_id, save_audit_entry, with_defaults,
}
use fleetsweeper.Server.Auth.{Request, mutates}
use fleetsweeper.Server.Auth.Actors.{Actor}
use fleetsweeper.Server.Auth.Bearer.{Text}
use fleetsweeper.Server.AuditTrail.{
  audit_body_cap, WriterCall, Client, after_first, needle, extract_error_message, capture,
  audit_entry, audit_middleware,
}
use fleetsweeper.Server.AuditTrail.Captured.{
  last_status, written, before_quote, capture_lem, excerpt_lem,
}

-- The message of an error in the first bytes of a body: up to 200 bytes before the quote that ends it.
abbrev pub message_in : Option Text → Text
message_in none = []
message_in (some rest) = take 200 (before_quote rest)

extract_error_message_lem :
    (body : Text) → extract_error_message body ≡ message_in (after_first needle body)
unfolding extract_error_message
extract_error_message_lem body = elim (Option-cases (after_first needle body)) [
  | inl e ↦ rw (extract_error_message, e) refl
  | inr (rest, e) ↦ rw (extract_error_message, e) (excerpt_lem rest)
]

-- An insert under a free id.
saved_entry :
    (fresh : String) (now : Time) (e : AuditEntry) (c : Conn AuditTable)
    → Healthy c
    → has_id (with_defaults fresh now e).id c.table ≡ false
    → (save_audit_entry fresh now e c).1.table ≡ audit_row (with_defaults fresh now e) ∷ c.table
unfolding save_audit_entry statement ◌>>=◌ audit_row
saved_entry fresh now e c healthy free = rw (healthy, free) refl

module _ (text : Text → String) (fresh : String) (start : Time) (took : ℕ) (r : Request)
    (client : Client) (actor : Actor) (calls : List WriterCall) where
  -- What the log should say of a request.
  abbrev pub entry_for : AuditEntry
  entry_for = record {
    id = fresh;
    timestamp = start;
    actor_id = actor.id;
    actor_name = actor.name;
    actor_role = actor.role;
    method = client.method;
    path = r.path;
    status = last_status 200 calls;
    remote_addr = client.remote_addr;
    user_agent = client.user_agent;
    duration_ms = took;
    error =
        if leb 400 (last_status 200 calls)
        then text (message_in (after_first needle (take audit_body_cap (written calls))))
        else "";
  }

  entry_lem :
      with_defaults fresh start (
        audit_entry text start took r client actor
          (capture calls (record { status = 200; body = [] })))
      ≡ entry_for
  unfolding with_defaults audit_entry is_zero
  entry_lem =
      rw (capture_lem calls, extract_error_message_lem (take audit_body_cap (written calls)))
        (elim (Bool-cases (is_zero start)) [ inl z ↦ rw z refl | inr z ↦ rw z refl ])

  -- A request that changes state leaves one entry on a log whose database answers and has no entry of the id that
  -- the store generates: with the actor, the last status the handler wrote, 200 if none, and, from status 400 on,
  -- the message found in the first 512 bytes of the body, cut to 200. Any other request leaves none.
  pub audit_middleware-entry_for :
      (c : Conn AuditTable)
      → Healthy c
      → has_id fresh c.table ≡ false
      → (audit_middleware text fresh start took r client actor calls c).table
        ≡ (if mutates r then audit_row entry_for ∷ c.table else c.table)
  unfolding audit_middleware
  audit_middleware-entry_for c healthy free = elim (Bool-cases (mutates r)) [
    | inl e ↦
        let free_id : has_id
              (with_defaults fresh start (
                audit_entry text start took r client actor
                  (capture calls (record { status = 200; body = [] })))).id
              c.table
            ≡ false =
          subst (λ x. has_id x.id c.table ≡ false) (sym entry_lem) free in
        rw e (
          saved_entry fresh start
            (audit_entry text start took r client actor
              (capture calls (record { status = 200; body = [] })))
            c healthy free_id
          ∙ ap (λ x. audit_row x ∷ c.table) entry_lem)
    | inr e ↦ rw e refl
  ]
