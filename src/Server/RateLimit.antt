-- ===== src/Server/RateLimit.antt =====
-- The token-bucket rate limiter: internal/server/ratelimit.go.
-- Tokens are counted in sixty-billionths, so that a nanosecond at one request a minute refills one
-- of them and the arithmetic is exact; the program's float64 rounds it. A budget that is not
-- positive is 0 here.
pub mod Credit
pub mod Budget
pub mod Verdict
pub mod Examples
use Prim.Native.String.{◌++◌ as append}
use fleetsweeper.Common.{
  [], ℕ, zero, suc, ◌+◌, ◌-◌, ◌*◌, ◌≤◌, ◌≡◌, Bool, true, false, not, Option, none, some, String,
  if◌then◌else◌, min, ltb, leb, eqb, string_eq, length,
}
use fleetsweeper.Common.Map.{Map, lookup, insert, keep}
use fleetsweeper.Store.Time.{Time, second}

-- One token.
abbrev pub token : ℕ
token = 60_000_000_000

abbrev pub bucket_idle_ttl : ℕ
bucket_idle_ttl = 600_000_000_000

abbrev pub bucket_sweep_interval : ℕ
bucket_sweep_interval = 60_000_000_000

pub record TokenBucket : Type 0 where
  pub tokens : ℕ
  pub last_refill : Time

pub record RateLimiter : Type 0 where
  pub buckets : Map String TokenBucket
  pub last_sweep : Time
  pub read_rpm : ℕ
  pub write_rpm : ℕ

unfoldable pub new_rate_limiter : ℕ → ℕ → RateLimiter
new_rate_limiter read_rpm write_rpm = record {
  buckets = [];
  last_sweep = 0;
  read_rpm = read_rpm;
  write_rpm = write_rpm;
}

-- The budget of a request class, and the class's mark in the bucket key.
abbrev pub limit_of : Bool → RateLimiter → ℕ
limit_of true r = r.write_rpm
limit_of false r = r.read_rpm

abbrev pub class_of : Bool → String
class_of true = "|w"
class_of false = "|r"

unfoldable pub bucket_key : String → Bool → String
bucket_key key write = append key (class_of write)

-- A clock that has not moved on gives no tokens and leaves the refill time.
unfoldable pub refill : Time → ℕ → TokenBucket → TokenBucket
refill now limit b =
    if ltb b.last_refill now
    then record {
      tokens = min (b.tokens + (now - b.last_refill) * limit) (limit * token);
      last_refill = now;
    }
    else b

unfoldable pub is_kept : Time → String → TokenBucket → Bool
is_kept now key b = leb (now - b.last_refill) bucket_idle_ttl

unfoldable pub sweep : Time → RateLimiter → RateLimiter
unfolding is_kept
sweep now r =
    if ltb (now - r.last_sweep) bucket_sweep_interval
    then r
    else record r { buckets = keep (is_kept now) r.buckets; last_sweep = now }

-- The bucket of a key, full if there is none.
unfoldable pub bucket_or_full : Time → ℕ → Option TokenBucket → TokenBucket
bucket_or_full now limit none = record { tokens = limit * token; last_refill = now }
bucket_or_full now limit (some b) = b

-- What is left in a bucket, and whether the request proceeds.
unfoldable pub draw : TokenBucket → TokenBucket × Bool
draw b = if ltb b.tokens token then (b, false) else (record b { tokens = b.tokens - token }, true)

unfoldable pub take_token : Time → ℕ → Option TokenBucket → TokenBucket × Bool
unfolding bucket_or_full refill draw
take_token now limit o = draw (refill now limit (bucket_or_full now limit o))

abbrev pub Verdict : Type 0
Verdict = Option ℕ × Bool

-- `none` for the remaining tokens stands for the -1 of a class without a limit.
unfoldable pub allow : Time → String → Bool → RateLimiter → Verdict × RateLimiter
unfolding take_token sweep bucket_key
allow now key write r =
    let limit = limit_of write r in
    if eqb limit 0
    then ((none, true), r)
    else let r' = sweep now r in
      let k = bucket_key key write in
      let (b, ok) = take_token now limit (lookup k r'.buckets) in
      ((some b.tokens, ok), record r' { buckets = insert k b r'.buckets })

unfoldable pub size : RateLimiter → ℕ
size r = length r.buckets
