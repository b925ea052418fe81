-- ===== src/Server/RateLimit/Credit.antt =====
-- The tokens that a key may draw at an instant, and what each step of the limiter does to them.
use text.Mathlib.TextLemmas.{append_inj, append_cancel_right, length-append}
use Prim.Native.String.{◌++◌ as append, count}
use fleetsweeper.Common.{
  ℕ, ◌+◌, ◌-◌, ◌*◌, ◌≤◌, ◌≡◌, ◌≢◌, refl, sym, ap, Bool, true, false, Option, none, some, String,
  if◌then◌else◌, min, string_eq, arith, eq_iff,
}
use fleetsweeper.Common.Map.{lookup, keep_value, Unique, lookup-keep, Unique-keep}
use fleetsweeper.Store.Time.{Time}
use fleetsweeper.Server.RateLimit.{
  token, TokenBucket, RateLimiter, bucket_idle_ttl, bucket_key, is_kept, sweep, take_token,
}

mul_mono : (a b l : ℕ) → a ≤ b → a * l ≤ b * l
mul_mono a b l h = grind arith

-- A key without a bucket may draw a full one.
unfoldable pub credit : Time → ℕ → Option TokenBucket → ℕ
credit now limit none = limit * token
credit now limit (some b) = min (b.tokens + (now - b.last_refill) * limit) (limit * token)

pub credit-le :
    (now : Time) (limit : ℕ) (o : Option TokenBucket) → credit now limit o ≤ limit * token
unfolding credit
credit-le now limit none = omega arith
credit-le now limit (some b) = omega arith

-- An idle bucket that the sweep drops would have been full again.
credit-keep_value :
    (now later : Time) (limit : ℕ) (k : String) (o : Option TokenBucket)
    → now ≤ later
    → credit later limit (keep_value (is_kept now) k o) ≡ credit later limit o
unfolding credit is_kept
credit-keep_value now later limit k none h = refl
credit-keep_value now later limit k (some b) h =
    ground (arith, mul_mono bucket_idle_ttl (later - b.last_refill) limit)

-- Between two instants a key gains at most its budget for the time between them.
pub credit_later :
    (now later : Time) (limit : ℕ) (o : Option TokenBucket)
    → now ≤ later
    → credit later limit o ≤ credit now limit o + (later - now) * limit
unfolding credit
credit_later now later limit none h = omega arith
credit_later now later limit (some b) h = omega (
  arith,
  mul_mono (later - b.last_refill) ((now - b.last_refill) + (later - now)) limit (omega arith),
)

-- A bucket holds at most a minute of its budget.
abbrev pub Fits : ℕ → Option TokenBucket → Type 0
Fits limit none = Unit
Fits limit (some b) = b.tokens ≤ limit * token

pub take_token-Fits :
    (now : Time) (limit : ℕ) (o : Option TokenBucket)
    → Fits limit o
    → Fits limit (some (take_token now limit o).0)
unfolding take_token
take_token-Fits now limit none h = ground arith
take_token-Fits now limit (some b) h = ground arith

-- A draw that is granted costs one token and one that is refused costs none.
pub credit-take_token :
    (now : Time) (limit : ℕ) (o : Option TokenBucket)
    → Fits limit o
    → credit now limit (some (take_token now limit o).0)
        + (if (take_token now limit o).1 then token else 0)
      ≤ credit now limit o
unfolding credit take_token
credit-take_token now limit none h = ground arith
credit-take_token now limit (some b) h = ground arith

classes_differ : (k j : String) → append k "|w" ≢ append j "|r"
classes_differ k j e = ground (
  arith,
  eq_iff "|w" "|r",
  (append_inj e (omega (arith, ap count e, length-append k "|w", length-append j "|r"))).1,
)

-- Two clients, or two classes of one client, have different buckets.
pub bucket_key-inj :
    (k j : String) (v w : Bool) → bucket_key k v ≡ bucket_key j w → (k ≡ j) × (v ≡ w)
unfolding bucket_key
bucket_key-inj k j true true e = (append_cancel_right k j "|w" e, refl)
bucket_key-inj k j true false e = absurd (classes_differ k j e)
bucket_key-inj k j false true e = absurd (classes_differ j k (sym e))
bucket_key-inj k j false false e = (append_cancel_right k j "|r" e, refl)

module _ (now : Time) (r : RateLimiter) (u : Unique r.buckets) where
  pub sweep-Unique : Unique (sweep now r).buckets
  unfolding sweep
  sweep-Unique = ground (arith, Unique-keep (is_kept now) r.buckets u)

  pub sweep-Fits :
      (limit : ℕ) (k : String)
      → Fits limit (lookup k r.buckets)
      → Fits limit (lookup k (sweep now r).buckets)
  unfolding sweep
  sweep-Fits limit k h = ground (arith, lookup-keep (is_kept now) k r.buckets u)

  -- The sweep changes no key's tokens, now or later.
  pub credit-sweep :
      (later : Time) (limit : ℕ) (k : String)
      → now ≤ later
      → credit later limit (lookup k (sweep now r).buckets)
        ≡ credit later limit (lookup k r.buckets)
  unfolding sweep
  credit-sweep later limit k h = ground (
    arith,
    lookup-keep (is_kept now) k r.buckets u,
    credit-keep_value now later limit k (lookup k r.buckets) h,
  )
