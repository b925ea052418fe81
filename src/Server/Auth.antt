-- ===== src/Server/Auth.antt =====
-- Who performs a request and what it may do: internal/server/auth.go.
-- Headers and tokens are lists of code points. SHA-256 is the section's parameter `hash_token`; a request
-- brings the payload of its session cookie if the cookie's signature verifies.
pub mod Scope
pub mod Actors
pub mod Bearer
pub mod Gate
pub mod Origin
pub mod Revocation
pub mod Anonymous
pub mod Examples
use text.Mathlib.Text.{starts_with}
use Prim.Native.String.{◌++◌ as append}
use fleetsweeper.Common.{
  ℕ, zero, suc, ◌+◌, ◌-◌, ◌≡◌, Bool, true, false, not, ◌&&◌, ◌||◌, List, [], ◌∷◌, Option, none,
  some, String, if◌then◌else◌, ltb, leb, eqb, ◌==◌, string_eq, list_eq, nat_eq, length,
}
use fleetsweeper.Common.Map.{Map, lookup, insert}
use fleetsweeper.Store.Time.{Time, second, format, is_zero}
use fleetsweeper.Store.Sql.{Result, ok, err, Conn, StoreError, err_not_found}
use fleetsweeper.Store.ApiKeys.{
  ApiKeyRecord, KeyTable, role_admin, role_operator, role_viewer, scope_wildcard, valid_role,
  get_api_key_by_hash, list_api_keys,
}
use fleetsweeper.Server.Auth.Actors.{Actor}
use fleetsweeper.Server.Auth.Bearer.{Text, extract_bearer}

pub record SessionPayload : Type 0 where
  pub subject : String
  pub role : String
  pub expires_at : ℕ

-- Seconds from Go's zero time to the Unix epoch.
abbrev pub unix_epoch : ℕ
unix_epoch = 62_135_596_800

-- The end of `decodeSession`, once signature and payload are read.
unfoldable pub session_expired : Time → SessionPayload → Bool
unfolding format
session_expired now p = ltb 0 p.expires_at && leb p.expires_at (format now - unix_epoch)

pub data Method : Type 0 where
  get head options post put delete other : Method

pub record Request : Type 0 where
  pub method : Method
  pub path : String
  pub authorization : Text
  pub session : Option SessionPayload

pub record Server : Type 0 where
  pub insecure : Bool
  pub auth_token : Text
  pub oidc : Bool
  pub keys_seen : Bool
  pub key_checked_at : Time
  pub key_touches : Map String Time

-- The server, its key table, and the last-used writes that wait in the background.
pub record World : Type 0 where
  pub server : Server
  pub keys : Conn KeyTable
  pub touches : List (String × Time)

pub data AuthError : Type 0 where
  missing_credential invalid_token unavailable token_revoked token_expired : AuthError

unfoldable pub requires_write : Method → Bool
requires_write get = false
requires_write head = false
requires_write options = false
requires_write m = true

abbrev pub is_post : Method → Bool
is_post post = true
is_post m = false

-- A write method, but for the read-only POST.
unfoldable pub mutates : Request → Bool
unfolding requires_write
mutates r = requires_write r.method && not (is_post r.method && (r.path == "/whatif"))

unfoldable pub path_is_admin : String → Bool
path_is_admin path = starts_with path "/admin/"

unfoldable pub path_is_webhook : String → Bool
path_is_webhook path = starts_with path "/webhooks/"

unfoldable pub role_allows_write : String → Bool
role_allows_write role = role == role_admin || role == role_operator

abbrev pub key_recheck_interval : ℕ
key_recheck_interval = 10_000_000_000

abbrev pub key_touch_interval : ℕ
key_touch_interval = 60_000_000_000

-- What a look at the key table says, and what is remembered of it.
unfoldable pub note_keys : Time → Result (List ApiKeyRecord) → Server → Bool × Server
note_keys now (err e) s = (true, s)
note_keys now (ok []) s = (false, record s { key_checked_at = now })
note_keys now (ok (k ∷ ks)) s = (true, record s { keys_seen = true })

unfoldable pub holds_credential : Time → World → Bool × World
unfolding note_keys is_zero
holds_credential now w =
    let s = w.server in
    if not (s.auth_token == []) || s.oidc || s.keys_seen
    then (true, w)
    else if not (is_zero s.key_checked_at) && ltb (now - s.key_checked_at) key_recheck_interval
    then (false, w)
    else let (keys, conn) = list_api_keys w.keys in
      let (held, s') = note_keys now keys s in (held, record w { server = s'; keys = conn })

-- A background write at most once a minute for a key.
unfoldable pub touch_key : Time → String → World → World
touch_key now id w =
    let due : Bool = elim (lookup id w.server.key_touches) [
      | none ↦ true
      | some last ↦ not (ltb (now - last) key_touch_interval)
    ] in
    if due
    then record w {
      server = record w.server { key_touches = insert id now w.server.key_touches };
      touches = (id, now) ∷ w.touches;
    }
    else w

unfoldable pub session_actor : SessionPayload → Actor
unfolding valid_role
session_actor p = record {
  id = append "oidc:" p.subject;
  name = if p.subject == "" then "oidc-session" else p.subject;
  role = if valid_role p.role then p.role else role_viewer;
  cluster_scope = scope_wildcard ∷ [];
}

unfoldable pub actor_from_session_cookie : Time → Server → Option SessionPayload → Option Actor
actor_from_session_cookie now s none = none
actor_from_session_cookie now s (some p) =
    if s.oidc && not (session_expired now p) then some (session_actor p) else none

abbrev pub insecure_actor : Actor
insecure_actor = record {
  id = "anonymous";
  name = "insecure-mode";
  role = role_admin;
  cluster_scope = scope_wildcard ∷ [];
}

abbrev pub bootstrap_actor : Actor
bootstrap_actor = record {
  id = "bootstrap";
  name = "bootstrap-token";
  role = role_admin;
  cluster_scope = scope_wildcard ∷ [];
}

abbrev pub anonymous_actor : Actor
anonymous_actor = record { id = ""; name = ""; role = role_viewer; cluster_scope = [] }

abbrev pub key_actor : ApiKeyRecord → Actor
key_actor r = record { id = r.id; name = r.name; role = r.role; cluster_scope = r.cluster_scope }

pub data Resolved : Type 0 where
  actor : Actor → Resolved
  refused : AuthError → Resolved

-- What the key row of a presented token gives.
unfoldable pub judge_key : Time → Result ApiKeyRecord → World → Resolved × World
unfolding touch_key is_zero
judge_key now (err err_not_found) w = (refused invalid_token, w)
judge_key now (err e) w = (refused unavailable, w)
judge_key now (ok r) w =
    if not (is_zero r.revoked_at)
    then (refused token_revoked, w)
    else if not (is_zero r.expires_at) && ltb r.expires_at now
    then (refused token_expired, w)
    else (actor (key_actor r), touch_key now r.id w)

-- A request with no bearer token.
unfoldable pub resolve_bare : Time → Option SessionPayload → World → Resolved × World
resolve_bare now session w = elim (actor_from_session_cookie now w.server session) [
  | some a ↦ (actor a, w)
  | none ↦
      let (held, w') = holds_credential now w in
      (if held then refused missing_credential else actor anonymous_actor, w')
]

module _ (hash_token : Text → String) where
  unfoldable pub resolve_actor : Time → Request → World → Resolved × World
  resolve_actor now r w =
      if w.server.insecure
      then (actor insecure_actor, w)
      else let raw = extract_bearer r.authorization in
        if raw == []
        then resolve_bare now r.session w
        else if not (w.server.auth_token == []) && (raw == w.server.auth_token)
        then (actor bootstrap_actor, w)
        else let (found, conn) = get_api_key_by_hash (hash_token raw) w.keys in
          judge_key now found (record w { keys = conn })
