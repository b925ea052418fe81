-- ===== src/Server/RateLimit/Examples.antt =====
-- Runs of the rate limiter, and its theorems at concrete requests.
use fleetsweeper.Common.{
  ℕ, ◌+◌, ◌-◌, ◌*◌, ◌≤◌, ◌≡◌, refl, true, false, List, [], ◌∷◌, none, String, arith, string_eq,
}
use fleetsweeper.Common.Map.{lookup, insert, keep}
use fleetsweeper.Server.RateLimit.{token, RateLimiter, bucket_key, allow, size}
use fleetsweeper.Server.RateLimit.Credit.{credit}
use fleetsweeper.Server.RateLimit.Budget.{Request, Inv, passed, after, last_at, passed_bound}
use fleetsweeper.Server.RateLimit.Verdict.{verdict_of, allow-credit}

-- Two writes a minute.
abbrev limiter : RateLimiter
limiter = record { buckets = []; last_sweep = 0; read_rpm = 0; write_rpm = 2 }

abbrev write_at : ℕ → String → Request
write_at at key = record { at = at; key = key; write = true }

abbrev burst : List Request
burst =
    write_at 1 "addr:a"
    ∷ write_at 2 "addr:a"
    ∷ write_at 3 "addr:a"
    ∷ write_at 4 "addr:b"
    ∷ write_at 30_000_000_001 "addr:a"
    ∷ []

-- The third write of the burst is refused; half a minute later there is one token again.
third_write_refused : passed "addr:a" true burst limiter ≡ 3
unfolding allow lookup insert keep bucket_key
third_write_refused = refl

two_buckets : size (after burst limiter) ≡ 2
unfolding allow size insert
two_buckets = refl

reads_unlimited : (allow 5 "addr:a" false limiter).0 ≡ (none, true)
unfolding allow
reads_unlimited = refl

limiter-Inv : Inv "addr:a" true 2 limiter
unfolding lookup
limiter-Inv = record { budget = refl; unique = tt; fits = tt }

passed_bound_example :
    passed "addr:a" true burst limiter * token ≤ (token + (last_at 1 burst - 1)) * 2
passed_bound_example =
    passed_bound "addr:a" true 2 (omega arith) 1 burst limiter (omega arith) limiter-Inv

allow-credit_example :
    (allow 5 "addr:a" true limiter).0
    ≡ verdict_of (credit 5 2 (lookup (bucket_key "addr:a" true) []))
unfolding lookup
allow-credit_example = allow-credit 5 "addr:a" true limiter (omega arith) tt tt
