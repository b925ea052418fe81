-- ===== src/Names/Kept.antt =====
-- The names that `SanitizeName` leaves as they are.
use fleetsweeper.Common.{
  ℕ, ◌≤◌, ◌<◌, ◌≡◌, refl, ap, ◌∙◌, Bool, true, false, ◌&&◌, [], ◌∷◌, length, arith,
}
use fleetsweeper.Names.{
  Text, to_lower, lower, is_name_char, dash_invalid, collapse_dashes, keep_or_drop, trim_left,
  trim_right, max_name_len, or_unnamed, capped, sanitize_name,
}
use fleetsweeper.Names.Safe.{
  AllNameChars, starts_with_dash, NoDoubleDash, StartsWell, EndsWell, IsClean,
}

lower_kept : (c : ℕ) → is_name_char c ≡ true → lower c ≡ c
unfolding is_name_char lower
lower_kept c h = ground (arith, h)

to_lower_kept : (t : Text) → AllNameChars t → to_lower t ≡ t
to_lower_kept [] h = refl
to_lower_kept (c ∷ cs) h = ground (arith, lower_kept c h.0, to_lower_kept cs h.1)

dash_invalid_kept : (b : Bool) (t : Text) → AllNameChars t → dash_invalid b t ≡ t
unfolding dash_invalid
dash_invalid_kept b [] h = refl
dash_invalid_kept b (c ∷ cs) h = ground (arith, h.0, dash_invalid_kept false cs h.1)

collapse_dashes_kept :
    (b : Bool) (t : Text)
    → b && starts_with_dash t ≡ false
    → NoDoubleDash t
    → collapse_dashes b t ≡ t
unfolding collapse_dashes
collapse_dashes_kept b [] s h = refl
collapse_dashes_kept b (c ∷ cs) s h =
    let after : starts_with_dash cs ≡ false → collapse_dashes true cs ≡ cs =
      λ e. collapse_dashes_kept true cs e h.1 in
    ground (arith, s, h.0, collapse_dashes_kept false cs refl h.1, after)

trim_left_kept : (t : Text) → StartsWell t → trim_left t ≡ t
unfolding trim_left
trim_left_kept [] h = refl
trim_left_kept (c ∷ cs) h = ground (arith, h)

trim_right_kept : (t : Text) → EndsWell t → trim_right t ≡ t
unfolding trim_right
trim_right_kept [] h = refl
trim_right_kept (c ∷ []) h = ground (arith, h)
trim_right_kept (c ∷ d ∷ cs) h = ap (keep_or_drop c) (trim_right_kept (d ∷ cs) h)

capped_kept : (t : Text) → length t ≤ max_name_len → capped t ≡ t
capped_kept t h = ground (arith, h)

or_unnamed_kept : (t : Text) → 0 < length t → or_unnamed t ≡ t
or_unnamed_kept [] h = ground (arith, h)
or_unnamed_kept (c ∷ cs) h = refl

-- A name that is clean already is not changed, its dots in a row and its dots beside dashes included.
pub sanitize_name_kept : (t : Text) → IsClean t → sanitize_name t ≡ t
unfolding sanitize_name
sanitize_name_kept t h =
    ap (λ x. or_unnamed (capped (trim_right (trim_left (collapse_dashes false x)))))
      (ap (dash_invalid false) (to_lower_kept t h.chars) ∙ dash_invalid_kept false t h.chars)
    ∙ ap (λ x. or_unnamed (capped (trim_right (trim_left x))))
        (collapse_dashes_kept false t refl h.dashes)
    ∙ ap (λ x. or_unnamed (capped (trim_right x))) (trim_left_kept t h.starts)
    ∙ ap (λ x. or_unnamed (capped x)) (trim_right_kept t h.ends)
    ∙ ap or_unnamed (capped_kept t h.short)
    ∙ or_unnamed_kept t h.some_char
