-- ===== src/Names/Clean.antt =====
-- `SanitizeName` as a whole.
use fleetsweeper.Common.{
  ℕ, zero, suc, ◌≤◌, ◌≡◌, refl, false, ◌&&◌, [], ◌∷◌, ltb, eqb, length, arith, Bool-cases, inl, inr,
}
use fleetsweeper.Names.{
  Text, to_lower, is_name_char, dash_invalid, collapse_dashes, trim_left, trim_right, take,
  max_name_len, unnamed, or_unnamed, capped, sanitize_name,
}
use fleetsweeper.Names.Safe.{
  starts_with_dash, StartsWell, EndsWell, IsClean, Trimmable, dash_invalid-AllNameChars,
  collapse_dashes-AllNameChars, collapse_dashes-NoDoubleDash, trim_left-Trimmable,
  trim_left-StartsWell, trim_right-Trimmable, trim_right-EndsWell, trim_right-StartsWell,
  length-trim_right,
}

starts_with_dash-take :
    (n : ℕ) (t : Text) → starts_with_dash t ≡ false → starts_with_dash (take n t) ≡ false
unfolding take
starts_with_dash-take zero t h = refl
starts_with_dash-take (suc n) [] h = refl
starts_with_dash-take (suc n) (c ∷ cs) h = h

dash_before-take :
    (n c : ℕ) (t : Text)
    → eqb c b'-' && starts_with_dash t ≡ false
    → eqb c b'-' && starts_with_dash (take n t) ≡ false
dash_before-take n c t h = ground (arith, h, starts_with_dash-take n t)

take-Trimmable : (n : ℕ) (t : Text) → Trimmable t → Trimmable (take n t)
unfolding take
take-Trimmable zero t h = record { chars = tt; dashes = tt }
take-Trimmable (suc n) [] h = h
take-Trimmable (suc n) (c ∷ cs) h =
    let rest = take-Trimmable n cs (record { chars = h.chars.1; dashes = h.dashes.1 }) in
    record {
      chars = (h.chars.0, rest.chars);
      dashes = (dash_before-take n c cs h.dashes.0, rest.dashes);
    }

take-StartsWell : (n : ℕ) (t : Text) → StartsWell t → StartsWell (take n t)
unfolding take
take-StartsWell zero t h = tt
take-StartsWell (suc n) [] h = tt
take-StartsWell (suc n) (c ∷ cs) h = h

length-take : (n : ℕ) (t : Text) → length (take n t) ≤ n
unfolding take
length-take zero t = omega arith
length-take (suc n) [] = omega arith
length-take (suc n) (c ∷ cs) = omega (arith, length-take n cs)

-- A name before the last step, which may be empty.
record IsTrimmed (t : Text) : Type 0 where
  body : Trimmable t
  starts : StartsWell t
  ends : EndsWell t

trim_right-IsTrimmed : (t : Text) → Trimmable t → StartsWell t → IsTrimmed (trim_right t)
trim_right-IsTrimmed t h s = record {
  body = trim_right-Trimmable t h;
  starts = trim_right-StartsWell t s;
  ends = trim_right-EndsWell t;
}

capped-IsTrimmed : (t : Text) → IsTrimmed t → IsTrimmed (capped t)
capped-IsTrimmed t h = elim (Bool-cases (ltb max_name_len (length t))) [
  | inl e ↦ rw e (
      trim_right-IsTrimmed (take max_name_len t) (take-Trimmable max_name_len t h.body)
        (take-StartsWell max_name_len t h.starts))
  | inr e ↦ rw e h
]

length-capped : (t : Text) → length (capped t) ≤ max_name_len
length-capped t =
    ground (arith, length-trim_right (take max_name_len t), length-take max_name_len t)

unnamed-IsClean : IsClean unnamed
unfolding is_name_char
unnamed-IsClean = record {
  chars = ground arith;
  dashes = ground arith;
  starts = refl;
  ends = refl;
  short = omega arith;
  some_char = omega arith;
}

or_unnamed-IsClean : (t : Text) → IsTrimmed t → length t ≤ max_name_len → IsClean (or_unnamed t)
or_unnamed-IsClean [] h l = unnamed-IsClean
or_unnamed-IsClean (c ∷ cs) h l = record {
  chars = h.body.chars;
  dashes = h.body.dashes;
  starts = h.starts;
  ends = h.ends;
  short = l;
  some_char = omega arith;
}

-- Any name is made into one of 1 to 253 of the characters a-z, 0-9, dot and dash, that begins and ends with a
-- letter or a digit and has no two dashes in a row.
pub sanitize_name-IsClean : (name : Text) → IsClean (sanitize_name name)
unfolding sanitize_name
sanitize_name-IsClean name =
    let dashed = dash_invalid false (to_lower name) in
    let collapsed = collapse_dashes false dashed in
    let whole : Trimmable collapsed = record {
      chars =
          collapse_dashes-AllNameChars false dashed
            (dash_invalid-AllNameChars false (to_lower name));
      dashes = collapse_dashes-NoDoubleDash false dashed;
    } in
    let trimmed =
      trim_right-IsTrimmed (trim_left collapsed) (trim_left-Trimmable collapsed whole)
        (trim_left-StartsWell collapsed) in
    or_unnamed-IsClean (capped (trim_right (trim_left collapsed)))
      (capped-IsTrimmed (trim_right (trim_left collapsed)) trimmed)
      (length-capped (trim_right (trim_left collapsed)))
