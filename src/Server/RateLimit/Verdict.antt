-- ===== src/Server/RateLimit/Verdict.antt =====
-- The verdict of `allow` as a function of the client's tokens alone.
use fleetsweeper.Common.{
  ℕ, ◌-◌, ◌<◌, ◌≡◌, refl, Bool, true, false, Option, none, some, String, if◌then◌else◌, ltb,
  string_eq, arith,
}
use fleetsweeper.Common.Map.{lookup, Unique}
use fleetsweeper.Store.Time.{Time}
use fleetsweeper.Server.RateLimit.{
  token, TokenBucket, RateLimiter, Verdict, limit_of, bucket_key, sweep, take_token, allow,
}
use fleetsweeper.Server.RateLimit.Credit.{credit, Fits, sweep-Fits, credit-sweep}

abbrev pub verdict_of : ℕ → Verdict
verdict_of tokens = if ltb tokens token then (some tokens, false) else (some (tokens - token), true)

verdict-take_token :
    (now : Time) (limit : ℕ) (o : Option TokenBucket)
    → Fits limit o
    → (some (take_token now limit o).0.tokens, (take_token now limit o).1)
      ≡ verdict_of (credit now limit o)
unfolding credit take_token
verdict-take_token now limit none h = ground arith
verdict-take_token now limit (some b) h = ground arith

verdict-allow :
    (now : Time) (key : String) (write : Bool) (r : RateLimiter)
    → 0 < limit_of write r
    → (allow now key write r).0 ≡ (
        let b =
          take_token now (limit_of write r) (lookup (bucket_key key write) (sweep now r).buckets) in
        (some b.0.tokens, b.1))
unfolding allow
verdict-allow now key write r pos = ground arith

-- A limited request is let through exactly when the client has a token left, counting what its bucket
-- has regained and a full bucket for a client that was never seen or was forgotten; the tokens
-- reported are those that are left after it.
pub allow-credit :
    (now : Time) (key : String) (write : Bool) (r : RateLimiter)
    → 0 < limit_of write r
    → Unique r.buckets
    → Fits (limit_of write r) (lookup (bucket_key key write) r.buckets)
    → (allow now key write r).0
      ≡ verdict_of (credit now (limit_of write r) (lookup (bucket_key key write) r.buckets))
allow-credit now key write r pos u fits = rw (verdict-allow now key write r pos) (
    rw
      (verdict-take_token now (limit_of write r)
        (lookup (bucket_key key write) (sweep now r).buckets)
        (sweep-Fits now r u (limit_of write r) (bucket_key key write) fits))
      (rw (credit-sweep now r u now (limit_of write r) (bucket_key key write) (omega arith)) refl))
