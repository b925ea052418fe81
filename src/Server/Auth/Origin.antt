-- ===== src/Server/Auth/Origin.antt =====
-- Where a resolved actor comes from: `resolveActor` of internal/server/auth.go.
use fleetsweeper.Common.{
  ◌≤◌, ◌≡◌, ◌≢◌, ◌⊎◌, refl, true, false, inl, inr, [], Option, none, some, String, ◌==◌, string_eq,
  list_eq, nat_eq, arith, list_beq_iff, Bool-cases,
}
use fleetsweeper.Store.Time.{Time}
use fleetsweeper.Store.Sql.{Result, ok, err, StoreError, err_not_found}
use fleetsweeper.Store.ApiKeys.{ApiKeyRecord, get_api_key_by_hash}
use fleetsweeper.Server.Auth.Actors.{Actor}
use fleetsweeper.Server.Auth.{
  Request, Server, World, actor, holds_credential, resolve_actor, resolve_bare, judge_key,
  session_actor, session_expired, actor_from_session_cookie, SessionPayload, insecure_actor,
  bootstrap_actor, anonymous_actor, key_actor,
}
use fleetsweeper.Server.Auth.Bearer.{Text, extract_bearer}

-- A key that may be used at an instant.
pub record IsLive (now : Time) (k : ApiKeyRecord) : Type 0 where
  pub unrevoked : k.revoked_at ≡ 0
  pub unexpired : (k.expires_at ≡ 0) ⊎ (now ≤ k.expires_at)

judge_key-err :
    (now : Time) (e : StoreError) (u : World) (a : Actor) → (judge_key now (err e) u).0 ≢ actor a
unfolding judge_key
judge_key-err now err_not_found u a h = cc
judge_key-err now _ u a h = cc

judge_key-IsLive :
    (now : Time) (found : Result ApiKeyRecord) (u : World) (a : Actor)
    → (judge_key now found u).0 ≡ actor a
    → (k : ApiKeyRecord) × (found ≡ ok k) × IsLive now k × (a ≡ key_actor k)
judge_key-IsLive now (err e) u a h = absurd (judge_key-err now e u a h)
judge_key-IsLive now (ok k) u a h =
    unfold judge_key in
    (k, refl, record { unrevoked = ground arith; unexpired = ground arith }, ground arith)

session-live :
    (now : Time) (s : Server) (session : Option SessionPayload) (a : Actor)
    → actor_from_session_cookie now s session ≡ some a
    → (p : SessionPayload) × (session ≡ some p)
      × (s.oidc ≡ true)
      × (session_expired now p ≡ false)
      × (a ≡ session_actor p)
unfolding actor_from_session_cookie
session-live now s none a h = ground arith
session-live now s (some p) a h = (p, refl, ground arith, ground arith, ground arith)

bare_cases :
    (now : Time) (session : Option SessionPayload) (w : World) (a : Actor)
    → (resolve_bare now session w).0 ≡ actor a
    → (actor_from_session_cookie now w.server session ≡ some a)
      ⊎ (((holds_credential now w).0 ≡ false) × (a ≡ anonymous_actor))
unfolding resolve_bare
bare_cases now session w a h = ground arith

module _ (hash_token : Text → String) (now : Time) (r : Request) (w : World) where
  abbrev raw : Text
  raw = extract_bearer r.authorization

  -- The ways to be somebody.
  pub data Origin (a : Actor) : Type 0 where
    by_flag : w.server.insecure ≡ true → a ≡ insecure_actor → Origin a
    by_bootstrap : raw ≢ [] → raw ≡ w.server.auth_token → a ≡ bootstrap_actor → Origin a
    by_key :
        (k : ApiKeyRecord)
        → raw ≢ []
        → (get_api_key_by_hash (hash_token raw) w.keys).0 ≡ ok k
        → IsLive now k
        → a ≡ key_actor k
        → Origin a
    by_session :
        (p : SessionPayload)
        → raw ≡ []
        → w.server.oidc ≡ true
        → r.session ≡ some p
        → session_expired now p ≡ false
        → a ≡ session_actor p
        → Origin a
    by_default : raw ≡ [] → (holds_credential now w).0 ≡ false → a ≡ anonymous_actor → Origin a

  by_token :
      (a : Actor)
      → w.server.insecure ≡ false
      → raw ≢ []
      → (resolve_actor hash_token now r w).0 ≡ actor a
      → (raw ≡ w.server.auth_token) × (a ≡ bootstrap_actor)
        ⊎ ((judge_key now
              (get_api_key_by_hash (hash_token raw) w.keys).0
              (record w { keys = (get_api_key_by_hash (hash_token raw) w.keys).1 })).0
            ≡ actor a)
  unfolding resolve_actor
  by_token a secure given h =
      ground (arith, list_beq_iff raw [], list_beq_iff raw w.server.auth_token)

  no_token :
      w.server.insecure ≡ false
      → raw ≡ []
      → (resolve_actor hash_token now r w).0 ≡ (resolve_bare now r.session w).0
  unfolding resolve_actor
  no_token secure none_given = ground (arith, list_beq_iff raw [])

  from_flag :
      (a : Actor)
      → w.server.insecure ≡ true
      → (resolve_actor hash_token now r w).0 ≡ actor a
      → a ≡ insecure_actor
  unfolding resolve_actor
  from_flag a open_to_all h = ground arith

  -- Whoever a request resolves to: the server runs insecure, or the request brings the bootstrap token,
  -- the token of a key that is stored, not revoked and not expired, or a session that has not run out, or
  -- it brings nothing and the server found that it holds no credential.
  pub resolve_actor-Origin : (a : Actor) → (resolve_actor hash_token now r w).0 ≡ actor a → Origin a
  resolve_actor-Origin a h = elim (Bool-cases w.server.insecure) [
    | inl open_to_all ↦ by_flag open_to_all (from_flag a open_to_all h)
    | inr secure ↦ elim (Bool-cases (raw == [])) [
      | inl empty ↦
          let none_given : raw ≡ [] = (list_beq_iff raw []).0 empty in
          elim (bare_cases now r.session w a (rw (no_token secure none_given) at h)) [
            | inl s ↦
                let (p, brought, configured, lasting, same) =
                  session-live now w.server r.session a s in
                by_session p none_given configured brought lasting same
            | inr (held, same) ↦ by_default none_given held same
          ]
      | inr full ↦
          let given : raw ≢ [] = λ e. cc ((list_beq_iff raw []).1 e) in
          elim (by_token a secure given h) [
            | inl (equal, same) ↦ by_bootstrap given equal same
            | inr judged ↦
                let (k, stored, live, same) = judge_key-IsLive now _ _ a judged in
                by_key k given stored live same
          ]
    ]
  ]
