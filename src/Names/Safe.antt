-- ===== src/Names/Safe.antt =====
-- What a sanitized name looks like, and which names are left as they are.
use fleetsweeper.Common.{
  ℕ, ◌+◌, ◌≤◌, ◌<◌, ◌≡◌, refl, Bool, true, false, ◌&&◌, [], ◌∷◌, if◌then◌else◌, eqb, length, All,
  arith, Bool-cases, inl, inr,
}
use fleetsweeper.Names.{
  Text, is_name_char, dash_invalid, collapse_dashes, is_edge, keep_or_drop, trim_left, trim_right,
  max_name_len,
}

abbrev pub AllNameChars : Text → Type 0
AllNameChars t = All (λ c. is_name_char c ≡ true) t

abbrev pub starts_with_dash : Text → Bool
starts_with_dash [] = false
starts_with_dash (c ∷ cs) = eqb c b'-'

-- No dash follows a dash.
abbrev pub NoDoubleDash : Text → Type 0
NoDoubleDash [] = Unit
NoDoubleDash (c ∷ cs) = (eqb c b'-' && starts_with_dash cs ≡ false) × NoDoubleDash cs

-- The first character is a letter or a digit, or there is none.
abbrev pub StartsWell : Text → Type 0
StartsWell [] = Unit
StartsWell (c ∷ cs) = is_edge c ≡ false

abbrev pub EndsWell : Text → Type 0
EndsWell [] = Unit
EndsWell (c ∷ []) = is_edge c ≡ false
EndsWell (c ∷ d ∷ cs) = EndsWell (d ∷ cs)

pub record IsClean (t : Text) : Type 0 where
  pub chars : AllNameChars t
  pub dashes : NoDoubleDash t
  pub starts : StartsWell t
  pub ends : EndsWell t
  pub short : length t ≤ max_name_len
  pub some_char : 0 < length t

dash_or_more : (b : Bool) (t : Text) → AllNameChars t → AllNameChars (if b then t else b'-' ∷ t)
unfolding is_name_char
dash_or_more true t h = h
dash_or_more false t h = (refl, h)

pub dash_invalid-AllNameChars : (b : Bool) (t : Text) → AllNameChars (dash_invalid b t)
unfolding dash_invalid
dash_invalid-AllNameChars b [] = tt
dash_invalid-AllNameChars b (c ∷ cs) = elim (Bool-cases (is_name_char c)) [
  | inl e ↦ rw e (e, dash_invalid-AllNameChars false cs)
  | inr e ↦ rw e (dash_or_more b (dash_invalid true cs) (dash_invalid-AllNameChars true cs))
]

pub collapse_dashes-AllNameChars :
    (b : Bool) (t : Text) → AllNameChars t → AllNameChars (collapse_dashes b t)
unfolding collapse_dashes
collapse_dashes-AllNameChars b [] h = tt
collapse_dashes-AllNameChars true (c ∷ cs) h = elim (Bool-cases (eqb c b'-')) [
  | inl e ↦ rw e (collapse_dashes-AllNameChars true cs h.1)
  | inr e ↦ rw e (h.0, collapse_dashes-AllNameChars false cs h.1)
]
collapse_dashes-AllNameChars false (c ∷ cs) h = elim (Bool-cases (eqb c b'-')) [
  | inl e ↦ rw e (h.0, collapse_dashes-AllNameChars true cs h.1)
  | inr e ↦ rw e (h.0, collapse_dashes-AllNameChars false cs h.1)
]

-- After a dash no dash comes first.
collapse_dashes-after : (t : Text) → starts_with_dash (collapse_dashes true t) ≡ false
unfolding collapse_dashes
collapse_dashes-after [] = refl
collapse_dashes-after (c ∷ cs) = ground (arith, collapse_dashes-after cs)

pub collapse_dashes-NoDoubleDash : (b : Bool) (t : Text) → NoDoubleDash (collapse_dashes b t)
unfolding collapse_dashes
collapse_dashes-NoDoubleDash b [] = tt
collapse_dashes-NoDoubleDash true (c ∷ cs) = elim (Bool-cases (eqb c b'-')) [
  | inl e ↦ rw e (collapse_dashes-NoDoubleDash true cs)
  | inr e ↦ rw e (ground (arith, e), collapse_dashes-NoDoubleDash false cs)
]
collapse_dashes-NoDoubleDash false (c ∷ cs) = elim (Bool-cases (eqb c b'-')) [
  | inl e ↦ rw e (ground (arith, collapse_dashes-after cs), collapse_dashes-NoDoubleDash true cs)
  | inr e ↦ rw e (ground (arith, e), collapse_dashes-NoDoubleDash false cs)
]

-- What a cut at either end keeps.
pub record Trimmable (t : Text) : Type 0 where
  pub chars : AllNameChars t
  pub dashes : NoDoubleDash t

pub trim_left-Trimmable : (t : Text) → Trimmable t → Trimmable (trim_left t)
unfolding trim_left
trim_left-Trimmable [] h = h
trim_left-Trimmable (c ∷ cs) h = elim (Bool-cases (is_edge c)) [
  | inl e ↦ rw e (trim_left-Trimmable cs (record { chars = h.chars.1; dashes = h.dashes.1 }))
  | inr e ↦ rw e h
]

pub trim_left-StartsWell : (t : Text) → StartsWell (trim_left t)
unfolding trim_left
trim_left-StartsWell [] = tt
trim_left-StartsWell (c ∷ cs) = elim (Bool-cases (is_edge c)) [
  | inl e ↦ rw e (trim_left-StartsWell cs)
  | inr e ↦ rw e e
]

-- The right end: what stays is a beginning of the text.
starts_with_dash-keep_or_drop :
    (c : ℕ) (t : Text) → eqb c b'-' ≡ false → starts_with_dash (keep_or_drop c t) ≡ false
starts_with_dash-keep_or_drop c [] h = ground (arith, h)
starts_with_dash-keep_or_drop c (r ∷ rs) h = h

starts_with_dash-trim_right :
    (t : Text) → starts_with_dash t ≡ false → starts_with_dash (trim_right t) ≡ false
unfolding trim_right
starts_with_dash-trim_right [] h = refl
starts_with_dash-trim_right (c ∷ cs) h = starts_with_dash-keep_or_drop c (trim_right cs) h

keep_or_drop-Trimmable :
    (c : ℕ) (t : Text)
    → is_name_char c ≡ true
    → eqb c b'-' && starts_with_dash t ≡ false
    → Trimmable t
    → Trimmable (keep_or_drop c t)
keep_or_drop-Trimmable c [] n d h = elim (Bool-cases (is_edge c)) [
  | inl e ↦ rw e h
  | inr e ↦ rw e (record { chars = (n, tt); dashes = (d, tt) })
]
keep_or_drop-Trimmable c (r ∷ rs) n d h = record { chars = (n, h.chars); dashes = (d, h.dashes) }

dash_before-trim_right :
    (c : ℕ) (t : Text)
    → eqb c b'-' && starts_with_dash t ≡ false
    → eqb c b'-' && starts_with_dash (trim_right t) ≡ false
dash_before-trim_right c t h = ground (arith, h, starts_with_dash-trim_right t)

pub trim_right-Trimmable : (t : Text) → Trimmable t → Trimmable (trim_right t)
unfolding trim_right
trim_right-Trimmable [] h = h
trim_right-Trimmable (c ∷ cs) h =
    keep_or_drop-Trimmable c (trim_right cs) h.chars.0 (dash_before-trim_right c cs h.dashes.0)
      (trim_right-Trimmable cs (record { chars = h.chars.1; dashes = h.dashes.1 }))

keep_or_drop-EndsWell : (c : ℕ) (t : Text) → EndsWell t → EndsWell (keep_or_drop c t)
keep_or_drop-EndsWell c [] h = elim (Bool-cases (is_edge c)) [ inl e ↦ rw e tt | inr e ↦ rw e e ]
keep_or_drop-EndsWell c (r ∷ rs) h = h

pub trim_right-EndsWell : (t : Text) → EndsWell (trim_right t)
unfolding trim_right
trim_right-EndsWell [] = tt
trim_right-EndsWell (c ∷ cs) = keep_or_drop-EndsWell c (trim_right cs) (trim_right-EndsWell cs)

keep_or_drop-StartsWell : (c : ℕ) (t : Text) → is_edge c ≡ false → StartsWell (keep_or_drop c t)
keep_or_drop-StartsWell c [] h = rw h h
keep_or_drop-StartsWell c (r ∷ rs) h = h

pub trim_right-StartsWell : (t : Text) → StartsWell t → StartsWell (trim_right t)
unfolding trim_right
trim_right-StartsWell [] h = tt
trim_right-StartsWell (c ∷ cs) h = keep_or_drop-StartsWell c (trim_right cs) h

length-keep_or_drop : (c : ℕ) (t : Text) → length (keep_or_drop c t) ≤ length t + 1
length-keep_or_drop c [] = ground arith
length-keep_or_drop c (r ∷ rs) = omega arith

pub length-trim_right : (t : Text) → length (trim_right t) ≤ length t
unfolding trim_right
length-trim_right [] = omega arith
length-trim_right (c ∷ cs) =
    omega (arith, length-keep_or_drop c (trim_right cs), length-trim_right cs)
