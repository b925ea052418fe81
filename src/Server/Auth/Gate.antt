-- ===== src/Server/Auth/Gate.antt =====
-- `authMiddleware` of internal/server/auth.go, and what a request that passes it may rely on.
use fleetsweeper.Common.{
  ℕ, ◌≡◌, ◌≢◌, ◌⊎◌, true, not, ◌&&◌, ◌||◌, Option, none, some, String, if◌then◌else◌, ◌==◌,
  string_eq, list_eq, arith, eq_iff,
}
use fleetsweeper.Store.Time.{Time}
use fleetsweeper.Store.ApiKeys.{role_admin, role_operator}
use fleetsweeper.Server.Auth.Actors.{Actor}
use fleetsweeper.Server.Auth.{
  Request, World, Resolved, actor, refused, mutates, path_is_admin, path_is_webhook,
  role_allows_write, resolve_actor,
}
use fleetsweeper.Server.Auth.Bearer.{Text}

-- The next handler runs, with an actor but on the webhook paths, or an HTTP status answers.
pub data Outcome : Type 0 where
  served : Option Actor → Outcome
  denied : ℕ → Outcome

unfoldable pub check_admin : Request → Actor → Outcome
check_admin r a =
    if path_is_admin r.path && (a.id == "" || not (a.role == role_admin))
    then denied 403
    else served (some a)

unfoldable pub check : Request → Resolved → Outcome
unfolding check_admin role_allows_write
check r (refused e) = denied 401
check r (actor a) =
    if mutates r && a.id == ""
    then denied 401
    else if mutates r && not (role_allows_write a.role) && not (path_is_admin r.path)
    then denied 403
    else check_admin r a

module _ (hash_token : Text → String) where
  unfoldable pub auth_middleware : Time → Request → World → Outcome × World
  unfolding check
  auth_middleware now r w =
      if path_is_webhook r.path
      then (served none, w)
      else let (resolved, w') = resolve_actor hash_token now r w in (check r resolved, w')

-- What the role and the identity of an actor let through.
pub record MayPass (r : Request) (a : Actor) : Type 0 where
  pub identified : mutates r ≡ true → a.id ≢ ""
  pub writer : mutates r ≡ true → (a.role ≡ role_admin) ⊎ (a.role ≡ role_operator)
  pub admin : path_is_admin r.path ≡ true → (a.role ≡ role_admin) × (a.id ≢ "")

actor_of_served :
    (r : Request) (s : Resolved) (a : Actor) → check r s ≡ served (some a) → s ≡ actor a
unfolding check
actor_of_served r (refused e) a h = ground arith
actor_of_served r (actor b) a h = ground arith

module _ (r : Request) (a : Actor) (h : check r (actor a) ≡ served (some a)) where
  check_identified : mutates r ≡ true → a.id ≢ ""
  unfolding check
  check_identified m e = ground (arith, eq_iff a.id "")

  check_admin_only : path_is_admin r.path ≡ true → (a.role ≡ role_admin) × (a.id ≢ "")
  unfolding check
  check_admin_only m =
      (ground (arith, eq_iff a.role role_admin), λ e. ground (arith, eq_iff a.id ""))

  check_writer : mutates r ≡ true → (a.role ≡ role_admin) ⊎ (a.role ≡ role_operator)
  unfolding check
  check_writer m = ground (arith, eq_iff a.role role_admin, eq_iff a.role role_operator)

  check-MayPass : MayPass r a
  check-MayPass = record {
    identified = check_identified;
    writer = check_writer;
    admin = check_admin_only;
  }

module _ (hash_token : Text → String) (now : Time) (r : Request) (w : World) where
  check_of_served :
      (a : Actor)
      → (auth_middleware hash_token now r w).0 ≡ served (some a)
      → check r (resolve_actor hash_token now r w).0 ≡ served (some a)
  unfolding auth_middleware
  check_of_served a h = ground arith

  -- A request that reaches the handlers off the webhook paths is the resolved actor's: it changes state
  -- only for an identified administrator or operator, and is under /admin/ only for an administrator.
  pub auth_middleware-MayPass :
      (a : Actor)
      → (auth_middleware hash_token now r w).0 ≡ served (some a)
      → MayPass r a × ((resolve_actor hash_token now r w).0 ≡ actor a)
  auth_middleware-MayPass a h =
      let c = check_of_served a h in
      let e = actor_of_served r (resolve_actor hash_token now r w).0 a c in
      (check-MayPass r a (rw e at c), e)

  -- The handlers see a request with no actor on the webhook paths only.
  pub auth_middleware-webhook :
      (auth_middleware hash_token now r w).0 ≡ served none → path_is_webhook r.path ≡ true
  unfolding auth_middleware check
  auth_middleware-webhook h = ground arith
