-- ===== src/Scanner/TopN.antt =====
-- The first of a stable sort: internal/scanner/topn.go.
use fleetsweeper.Common.{
  ℕ, zero, suc, ◌+◌, min, ◌≡◌, refl, ◌∙◌, Bool, List, [], ◌∷◌, if◌then◌else◌, length, arith,
}

module _ {T : Type 0} (before : T → T → Bool) where
  -- `before a b` is a negative `cmp(a, b)`. An item goes after those that it does not come before.
  unfoldable pub insert_stable : T → List T → List T
  insert_stable x [] = x ∷ []
  insert_stable x (y ∷ ys) =
      let rest = insert_stable x ys in if before x y then x ∷ y ∷ ys else y ∷ rest

  unfoldable pub sort_stable_onto : List T → List T → List T
  unfolding insert_stable
  sort_stable_onto [] sorted = sorted
  sort_stable_onto (x ∷ xs) sorted = sort_stable_onto xs (insert_stable x sorted)

abbrev pub first_n : {T : Type 0} → ℕ → List T → List T
first_n zero xs = []
first_n (suc n) [] = []
first_n (suc n) (x ∷ xs) = x ∷ first_n n xs

unfoldable pub top_n : {T : Type 0} → List T → ℕ → (T → T → Bool) → List T
unfolding sort_stable_onto
top_n items n before = first_n n (sort_stable_onto before items [])

length-insert_stable :
    {T : Type 0} (before : T → T → Bool) (x : T) (ys : List T)
    → length (insert_stable before x ys) ≡ suc (length ys)
unfolding insert_stable
length-insert_stable before x [] = refl
length-insert_stable before x (y ∷ ys) = ground (arith, length-insert_stable before x ys)

length-sort_stable_onto :
    {T : Type 0} (before : T → T → Bool) (xs sorted : List T)
    → length (sort_stable_onto before xs sorted) ≡ length xs + length sorted
unfolding sort_stable_onto
length-sort_stable_onto before [] sorted = omega arith
length-sort_stable_onto before (x ∷ xs) sorted = omega (
  arith,
  length-sort_stable_onto before xs (insert_stable before x sorted),
  length-insert_stable before x sorted,
)

length-first_n : {T : Type 0} (n : ℕ) (xs : List T) → length (first_n n xs) ≡ min n (length xs)
length-first_n zero xs = omega arith
length-first_n (suc n) [] = omega arith
length-first_n (suc n) (x ∷ xs) = omega (arith, length-first_n n xs)

-- No item is lost but for those over the cap.
length-top_n :
    {T : Type 0} (items : List T) (n : ℕ) (before : T → T → Bool)
    → length (top_n items n before) ≡ min n (length items)
unfolding top_n
length-top_n items n before =
    let sorted = sort_stable_onto before items [] in
    length-first_n n sorted ∙ omega (arith, length-sort_stable_onto before items [])
