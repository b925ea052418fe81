-- ===== src/Server/RateLimit/Budget.antt =====
-- How many requests of one client and class get through, whatever the others do.
use fleetsweeper.Common.{
  ℕ, ◌+◌, ◌-◌, ◌*◌, ◌≤◌, ◌<◌, ◌≡◌, ◌≢◌, ◌⊎◌, ap, Bool, true, false, inl, inr, Option, some, String,
  List, [], ◌∷◌, if◌then◌else◌, string_eq, arith, eq_iff, ◌==◌, Bool-cases,
}
use fleetsweeper.Common.Map.{lookup, Unique, lookup-insert, Unique-insert}
use fleetsweeper.Store.Time.{Time}
use fleetsweeper.Server.RateLimit.{
  token, TokenBucket, RateLimiter, limit_of, bucket_key, sweep, take_token, allow,
}
use fleetsweeper.Server.RateLimit.Credit.{
  credit, credit-le, credit_later, Fits, take_token-Fits, credit-take_token, bucket_key-inj,
  sweep-Unique, sweep-Fits, credit-sweep,
}

pub record Request : Type 0 where
  pub at : Time
  pub key : String
  pub write : Bool

abbrev serve : Request → RateLimiter → RateLimiter
serve q r = (allow q.at q.key q.write r).1

abbrev granted : Request → RateLimiter → Bool
granted q r = (allow q.at q.key q.write r).0.1

-- The limiter keeps its budgets, one bucket at most for a key, and the bucket within its budget.
pub record Inv (key : String) (write : Bool) (limit : ℕ) (r : RateLimiter) : Type 0 where
  pub budget : limit_of write r ≡ limit
  pub unique : Unique r.buckets
  pub fits : Fits limit (lookup (bucket_key key write) r.buckets)

allow_self :
    (q : Request) (r : RateLimiter)
    → 0 < limit_of q.write r
    → (lookup (bucket_key q.key q.write) (serve q r).buckets
        ≡ some
            (take_token q.at
              (limit_of q.write r)
              (lookup (bucket_key q.key q.write) (sweep q.at r).buckets)).0)
      × (granted q r
          ≡ (take_token q.at
              (limit_of q.write r)
              (lookup (bucket_key q.key q.write) (sweep q.at r).buckets)).1)
unfolding allow
allow_self q r pos = ground (
  arith,
  eq_iff (bucket_key q.key q.write) (bucket_key q.key q.write),
  lookup-insert (bucket_key q.key q.write) (bucket_key q.key q.write)
      (take_token q.at (limit_of q.write r)
        (lookup (bucket_key q.key q.write) (sweep q.at r).buckets)).0
      (sweep q.at r).buckets,
)

module _ (key : String) (write : Bool) (limit : ℕ) where
  abbrev bucket : RateLimiter → Option TokenBucket
  bucket r = lookup (bucket_key key write) r.buckets

  -- What the request costs the client that is watched.
  abbrev cost : Request → RateLimiter → ℕ
  cost q r =
      if bucket_key q.key q.write == bucket_key key write
      then (if granted q r then token else 0)
      else 0

  limit_of-sweep :
      (now : Time) (w : Bool) (r : RateLimiter) → limit_of w (sweep now r) ≡ limit_of w r
  unfolding sweep
  limit_of-sweep now true r = ground arith
  limit_of-sweep now false r = ground arith

  module _ (q : Request) (r : RateLimiter) where
    abbrev swept : Option TokenBucket
    swept = bucket (sweep q.at r)

    -- A request of another client, or of the other class.
    bucket-serve_ne :
        bucket_key q.key q.write ≢ bucket_key key write
        → (bucket (serve q r) ≡ bucket r) ⊎ (bucket (serve q r) ≡ swept)
    unfolding allow
    bucket-serve_ne ne = ground (
      arith,
      eq_iff (bucket_key q.key q.write) (bucket_key key write),
      lookup-insert (bucket_key q.key q.write) (bucket_key key write)
          (take_token q.at (limit_of q.write r)
            (lookup (bucket_key q.key q.write) (sweep q.at r).buckets)).0
          (sweep q.at r).buckets,
    )

    bucket-serve_self :
        0 < limit
        → limit_of q.write r ≡ limit
        → bucket_key q.key q.write ≡ bucket_key key write
        → (bucket (serve q r) ≡ some (take_token q.at limit swept).0)
          × (granted q r ≡ (take_token q.at limit swept).1)
    bucket-serve_self pos budget same = rw (budget, same) at (allow_self q r (rw budget pos))

    -- The client that is watched is served, or another one is.
    serve_cases :
        (bucket_key q.key q.write ≡ bucket_key key write)
        ⊎ (bucket_key q.key q.write ≢ bucket_key key write)
    serve_cases = elim (Bool-cases (bucket_key q.key q.write == bucket_key key write)) [
      | inl t ↦ inl ((eq_iff _ _).0 t)
      | inr t ↦ inr (λ e. cc ((eq_iff _ _).1 e))
    ]

    module _ (pos : 0 < limit) (v : Inv key write limit r) where
      budget_of_same : bucket_key q.key q.write ≡ bucket_key key write → limit_of q.write r ≡ limit
      budget_of_same same = rw (bucket_key-inj q.key key q.write write same).1 v.budget

      swept-Fits : Fits limit swept
      swept-Fits = sweep-Fits q.at r v.unique limit (bucket_key key write) v.fits

      serve-Fits : Fits limit (bucket (serve q r))
      serve-Fits = elim serve_cases [
        | inl same ↦
            rw (bucket-serve_self pos (budget_of_same same) same).0
              (take_token-Fits q.at limit swept swept-Fits)
        | inr ne ↦ elim (bucket-serve_ne ne) [ inl e ↦ rw e v.fits | inr e ↦ rw e swept-Fits ]
      ]

      credit-serve :
          credit q.at limit (bucket (serve q r)) + cost q r ≤ credit q.at limit (bucket r)
      credit-serve = elim serve_cases [
        | inl same ↦ ground (
          arith,
          (bucket-serve_self pos (budget_of_same same) same).0,
          (bucket-serve_self pos (budget_of_same same) same).1,
          credit-take_token q.at limit swept swept-Fits,
          credit-sweep q.at r v.unique q.at limit (bucket_key key write) (omega arith),
          eq_iff (bucket_key q.key q.write) (bucket_key key write),
        )
        | inr ne ↦ ground (
          arith,
          bucket-serve_ne ne,
          credit-sweep q.at r v.unique q.at limit (bucket_key key write) (omega arith),
          eq_iff (bucket_key q.key q.write) (bucket_key key write),
        )
      ]

      serve-Unique : Unique (serve q r).buckets
      unfolding allow
      serve-Unique = ground (
        arith,
        v.unique,
        Unique-insert (bucket_key q.key q.write)
            (take_token q.at (limit_of q.write r)
              (lookup (bucket_key q.key q.write) (sweep q.at r).buckets)).0
            (sweep q.at r).buckets (sweep-Unique q.at r v.unique),
      )

      limit_of-serve : limit_of write (serve q r) ≡ limit
      limit_of-serve = by_class write v.budget
        where
          by_class : (w : Bool) → limit_of w r ≡ limit → limit_of w (serve q r) ≡ limit
          by_class true e = unfold allow sweep in ground arith
          by_class false e = unfold allow sweep in ground arith

      pub serve-Inv : Inv key write limit (serve q r)
      serve-Inv = record { budget = limit_of-serve; unique = serve-Unique; fits = serve-Fits }

-- The limiter after some requests.
abbrev pub after : List Request → RateLimiter → RateLimiter
after [] r = r
after (q ∷ rest) r = after rest (serve q r)

-- The requests of a client and class that get through.
abbrev pub passed : String → Bool → List Request → RateLimiter → ℕ
passed key write [] r = 0
passed key write (q ∷ rest) r =
    (if bucket_key q.key q.write == bucket_key key write then (if granted q r then 1 else 0) else 0)
    + passed key write rest (serve q r)

-- The clock does not go back from one request to the next.
abbrev pub InOrder : Time → List Request → Type 0
InOrder start [] = Unit
InOrder start (q ∷ rest) = (start ≤ q.at) × InOrder q.at rest

abbrev pub last_at : Time → List Request → Time
last_at start [] = start
last_at start (q ∷ rest) = last_at q.at rest

last_at-ge : (start : Time) (qs : List Request) → InOrder start qs → start ≤ last_at start qs
last_at-ge start [] h = omega arith
last_at-ge start (q ∷ rest) h = omega (arith, last_at-ge q.at rest h.1)

module _ (key : String) (write : Bool) (limit : ℕ) (pos : 0 < limit) where
  passed-credit :
      (start : Time) (qs : List Request) (r : RateLimiter)
      → InOrder start qs
      → Inv key write limit r
      → passed key write qs r * token
        ≤ credit start limit (lookup (bucket_key key write) r.buckets)
          + (last_at start qs - start) * limit
  passed-credit start [] r h v = omega arith
  passed-credit start (q ∷ rest) r h v = ground (
    arith,
    passed-credit q.at rest (serve q r) h.1 (serve-Inv key write limit q r pos v),
    credit-serve key write limit q r pos v,
    credit_later start q.at limit (lookup (bucket_key key write) r.buckets) h.0,
    split_time,
  )
    where
      split_time :
          (last_at q.at rest - start) * limit
          ≡ (q.at - start) * limit + (last_at q.at rest - q.at) * limit
      split_time =
          let parts : last_at q.at rest - start ≡ (q.at - start) + (last_at q.at rest - q.at) =
            omega (arith, last_at-ge q.at rest h.1, h.0) in
          omega (arith, ap (λ (t : ℕ). t * limit) parts)

  -- From any state whose bucket is within its budget, and whatever other clients send: the requests
  -- of one client and class that get through in a stretch of time number at most its budget of one
  -- minute and its budget for that time.
  pub passed_bound :
      (start : Time) (qs : List Request) (r : RateLimiter)
      → InOrder start qs
      → Inv key write limit r
      → passed key write qs r * token ≤ (token + (last_at start qs - start)) * limit
  passed_bound start qs r h v = omega (
    arith,
    passed-credit start qs r h v,
    credit-le start limit (lookup (bucket_key key write) r.buckets),
  )
