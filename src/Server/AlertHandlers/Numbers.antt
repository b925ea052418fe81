-- ===== src/Server/AlertHandlers/Numbers.antt =====
-- The limit of a listing.
use Prim.Native.Nat.{min}
use fleetsweeper.Common.{
  ℕ, ◌≡◌, ◌≤◌, ◌+◌, ◌-◌, ◌*◌, [], ◌∷◌, none, some, arith, Bool-cases, inl, inr, if◌then◌else◌, eqb,
  ltb, All,
}
use fleetsweeper.Server.Auth.Bearer.{Text}
use fleetsweeper.Server.AlertHandlers.{parse_digits, parse_positive_int}

-- The number that digits are of, after others.
abbrev value_after : ℕ → Text → ℕ
value_after n [] = n
value_after n (c ∷ cs) = value_after (n * 10 + (c - b'0')) cs

abbrev pub value : Text → ℕ
value t = value_after 0 t

abbrev pub IsDigit : ℕ → Type 0
IsDigit c = (b'0' ≤ c) × (c ≤ b'9')

value_after_grows : (n : ℕ) (cs : Text) → n ≤ value_after n cs
value_after_grows n [] = omega arith
value_after_grows n (c ∷ cs) = omega (arith, value_after_grows (n * 10 + (c - b'0')) cs)

parse_digits-value :
    (ceiling n : ℕ) (cs : Text)
    → n ≤ ceiling
    → All IsDigit cs
    → parse_digits ceiling n cs
      ≡ (if eqb (value_after n cs) 0 then none else some (min (value_after n cs) ceiling))
unfolding parse_digits
parse_digits-value ceiling n [] h d = ground (arith, h)
parse_digits-value ceiling n (c ∷ cs) h d =
    let m = n * 10 + (c - b'0') in
    let grows = value_after_grows m cs in
    elim (Bool-cases (ltb ceiling m)) [
      | inl over ↦ ground (arith, d.0, grows, over)
      | inr within ↦
          ground (arith, d.0, parse_digits-value ceiling m cs (ground (arith, within)) d.1)
    ]

-- Digits are read as their number, cut to the ceiling, and not read if the number is zero.
pub parse_positive_int-value :
    (s : Text) (ceiling : ℕ)
    → All IsDigit s
    → parse_positive_int s ceiling
      ≡ (if eqb (value s) 0 then none else some (min (value s) ceiling))
unfolding parse_positive_int
parse_positive_int-value s ceiling d = parse_digits-value ceiling 0 s (omega arith) d
