-- ===== src/Store/Listing/Pages.antt =====
-- The rows of a page and the rows that it leaves out.
use mathlib.Core.List.{Perm, perm_middle}
use mathlib.Core.List.Perm
use fleetsweeper.Common.{
  ℕ, zero, suc, ◌≤◌, ◌≡◌, Bool, not, List, [], ◌∷◌, ◌++◌, leb, All, refl, ap, Bool-cases, inl, inr,
  filter, map, length,
}
use fleetsweeper.Store.Time.{Time}
use fleetsweeper.Store.Listing.{
  insert_by_time, newest, NoneNewer, NewestFirst, take, page_of, newest-NewestFirst, All-newest,
  length-newest,
}

abbrev pub drop {ℓ} : {A : Type ℓ} → ℕ → List A → List A
drop zero xs = xs
drop (suc n) [] = []
drop (suc n) (x ∷ xs) = drop n xs

take-drop {ℓ} : {A : Type ℓ} (n : ℕ) (xs : List A) → take n xs ++ drop n xs ≡ xs
take-drop zero xs = refl
take-drop (suc n) [] = refl
take-drop (suc n) (x ∷ xs) = ap (λ ys. x ∷ ys) (take-drop n xs)

-- The entries that a test passes, and the others.
pub filter-perm {ℓ} :
    {A : Type ℓ} (p : A → Bool) (xs : List A) → Perm (filter p xs ++ filter (λ x. not (p x)) xs) xs
filter-perm p [] = Perm.nil
filter-perm p (x ∷ xs) = elim (Bool-cases (p x)) [
  | inl e ↦ rw e (Perm.cons x (filter-perm p xs))
  | inr e ↦ rw e (
      Perm.trans (perm_middle (filter p xs) (filter (λ x. not (p x)) xs))
        (Perm.cons x (filter-perm p xs)))
]

module _ {A : Type 0} (time : A → Time) where
  insert_by_time-perm : (x : A) (ys : List A) → Perm (insert_by_time time x ys) (x ∷ ys)
  unfolding insert_by_time
  insert_by_time-perm x [] = Perm.refl (x ∷ [])
  insert_by_time-perm x (y ∷ ys) = elim (Bool-cases (leb (time y) (time x))) [
    | inl e ↦ rw e (Perm.refl (x ∷ y ∷ ys))
    | inr e ↦ rw e (Perm.trans (Perm.cons y (insert_by_time-perm x ys)) (Perm.swap x y ys))
  ]

  newest-perm : (xs : List A) → Perm (newest time xs) xs
  unfolding newest
  newest-perm [] = Perm.nil
  newest-perm (x ∷ xs) =
      Perm.trans (insert_by_time-perm x (newest time xs)) (Perm.cons x (newest-perm xs))

  -- The rows that a page leaves out.
  abbrev pub past_page : ℕ → List A → List A
  past_page n xs = drop n (newest time xs)

  pub page_of-perm : (n : ℕ) (xs : List A) → Perm (page_of time n xs ++ past_page n xs) xs
  page_of-perm n xs = rw (take-drop n (newest time xs)) (newest-perm xs)

  -- No row of the second list is newer than one of the first.
  abbrev pub Older : List A → List A → Type 0
  Older shown = All (λ l. All (λ e. time l ≤ time e) shown)

  Older-cons :
      (x : A) (shown left : List A)
      → NoneNewer time (time x) left
      → Older shown left
      → Older (x ∷ shown) left
  Older-cons x shown [] h k = tt
  Older-cons x shown (l ∷ left) h k = ((h.0, k.0), Older-cons x shown left h.1 k.1)

  drop-NoneNewer :
      (t : Time) (n : ℕ) (xs : List A) → NoneNewer time t xs → NoneNewer time t (drop n xs)
  drop-NoneNewer t zero xs h = h
  drop-NoneNewer t (suc n) [] h = tt
  drop-NoneNewer t (suc n) (x ∷ xs) h = drop-NoneNewer t n xs h.1

  Older-none : (left : List A) → Older [] left
  Older-none [] = tt
  Older-none (l ∷ left) = (tt, Older-none left)

  take-Older : (n : ℕ) (xs : List A) → NewestFirst time xs → Older (take n xs) (drop n xs)
  take-Older zero xs s = Older-none xs
  take-Older (suc n) [] s = tt
  take-Older (suc n) (x ∷ xs) s =
      Older-cons x (take n xs) (drop n xs) (drop-NoneNewer (time x) n xs s.0) (take-Older n xs s.1)

  pub page_of-Older : (n : ℕ) (xs : List A) → Older (page_of time n xs) (past_page n xs)
  page_of-Older n xs = take-Older n (newest time xs) (newest-NewestFirst time xs)

  All-both : (P : A → Type 0) (n : ℕ) (xs : List A) → All P xs → All P (take n xs ++ drop n xs)
  All-both P n xs a = rw (take-drop n xs) a

  pub All-page_split :
      (P : A → Type 0) (n : ℕ) (xs : List A)
      → All P xs
      → All P (page_of time n xs ++ past_page n xs)
  All-page_split P n xs a = All-both P n (newest time xs) (All-newest time P xs a)

  pub length-page_split :
      (n : ℕ) (xs : List A) → length (page_of time n xs ++ past_page n xs) ≡ length xs
  length-page_split n xs = rw (take-drop n (newest time xs)) (length-newest time xs)

module _ {A B : Type 0} (f : A → B) (time : A → Time) (time' : B → Time)
    (same : (x : A) → time' (f x) ≡ time x) where
  older_all :
      (t : A) (shown : List A)
      → All (λ e. time t ≤ time e) shown
      → All (λ e. time' (f t) ≤ time' e) (map f shown)
  older_all t [] a = tt
  older_all t (x ∷ shown) a = (rw (same t, same x) a.0, older_all t shown a.1)

  pub Older-map :
      (shown left : List A) → Older time shown left → Older time' (map f shown) (map f left)
  Older-map shown [] a = tt
  Older-map shown (l ∷ left) a = (older_all l shown a.0, Older-map shown left a.1)
