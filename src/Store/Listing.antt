-- ===== src/Store/Listing.antt =====
-- `ORDER BY <time> DESC LIMIT ?` over rows, as the listings of internal/store/audit.go and alerts.go use it.
pub mod Pages
use fleetsweeper.Common.{
  ℕ, zero, suc, ◌≤◌, ◌≡◌, min, Bool, true, List, [], ◌∷◌, if◌then◌else◌, leb, length, All, arith,
  refl, Bool-cases, inl, inr, map, filter,
}
use fleetsweeper.Store.Time.{Time}

module _ {ℓ} {A : Type ℓ} (time : A → Time) where
  -- Later rows come first; of two rows of one time either may.
  unfoldable pub insert_by_time : A → List A → List A
  insert_by_time x [] = x ∷ []
  insert_by_time x (y ∷ ys) =
      let rest = insert_by_time x ys in if leb (time y) (time x) then x ∷ y ∷ ys else y ∷ rest

  unfoldable pub newest : List A → List A
  unfolding insert_by_time
  newest [] = []
  newest (x ∷ xs) = insert_by_time x (newest xs)

  abbrev pub NoneNewer : Time → List A → Type 0
  NoneNewer t [] = Unit
  NoneNewer t (x ∷ xs) = (time x ≤ t) × NoneNewer t xs

  abbrev pub NewestFirst : List A → Type 0
  NewestFirst [] = Unit
  NewestFirst (x ∷ xs) = NoneNewer (time x) xs × NewestFirst xs

abbrev pub take {ℓ} : {A : Type ℓ} → ℕ → List A → List A
take zero xs = []
take (suc n) [] = []
take (suc n) (x ∷ xs) = x ∷ take n xs

-- The rows of a listing.
abbrev pub page_of {ℓ} : {A : Type ℓ} → (A → Time) → ℕ → List A → List A
page_of time limit xs = take limit (newest time xs)

module _ {ℓ} {A : Type ℓ} (time : A → Time) where
  NoneNewer-trans : (t u : Time) (xs : List A) → t ≤ u → NoneNewer time t xs → NoneNewer time u xs
  NoneNewer-trans t u [] h n = tt
  NoneNewer-trans t u (x ∷ xs) h n = (omega (arith, h, n.0), NoneNewer-trans t u xs h n.1)

  NoneNewer-insert :
      (t : Time) (x : A) (ys : List A)
      → time x ≤ t
      → NoneNewer time t ys
      → NoneNewer time t (insert_by_time time x ys)
  unfolding insert_by_time
  NoneNewer-insert t x [] h n = (h, tt)
  NoneNewer-insert t x (y ∷ ys) h n = elim (Bool-cases (leb (time y) (time x))) [
    | inl e ↦ rw e (h, n)
    | inr e ↦ rw e (n.0, NoneNewer-insert t x ys h n.1)
  ]

  insert_by_time-NewestFirst :
      (x : A) (ys : List A) → NewestFirst time ys → NewestFirst time (insert_by_time time x ys)
  unfolding insert_by_time
  insert_by_time-NewestFirst x [] s = (tt, tt)
  insert_by_time-NewestFirst x (y ∷ ys) s = elim (Bool-cases (leb (time y) (time x))) [
    | inl e ↦
        let le : time y ≤ time x = ground (arith, e) in
        rw e ((le, NoneNewer-trans (time y) (time x) ys le s.0), s)
    | inr e ↦ rw e (
      NoneNewer-insert (time y) x ys (ground (arith, e)) s.0,
      insert_by_time-NewestFirst x ys s.1,
    )
  ]

  newest-NewestFirst : (xs : List A) → NewestFirst time (newest time xs)
  unfolding newest
  newest-NewestFirst [] = tt
  newest-NewestFirst (x ∷ xs) =
      insert_by_time-NewestFirst x (newest time xs) (newest-NewestFirst xs)

  take-NoneNewer :
      (t : Time) (n : ℕ) (xs : List A) → NoneNewer time t xs → NoneNewer time t (take n xs)
  take-NoneNewer t zero xs h = tt
  take-NoneNewer t (suc n) [] h = tt
  take-NoneNewer t (suc n) (x ∷ xs) h = (h.0, take-NoneNewer t n xs h.1)

  take-NewestFirst : (n : ℕ) (xs : List A) → NewestFirst time xs → NewestFirst time (take n xs)
  take-NewestFirst zero xs s = tt
  take-NewestFirst (suc n) [] s = tt
  take-NewestFirst (suc n) (x ∷ xs) s =
      (take-NoneNewer (time x) n xs s.0, take-NewestFirst n xs s.1)

  pub page_of-NewestFirst : (n : ℕ) (xs : List A) → NewestFirst time (page_of time n xs)
  page_of-NewestFirst n xs = take-NewestFirst n (newest time xs) (newest-NewestFirst xs)

  length-insert_by_time :
      (x : A) (ys : List A) → length (insert_by_time time x ys) ≡ suc (length ys)
  unfolding insert_by_time
  length-insert_by_time x [] = refl
  length-insert_by_time x (y ∷ ys) = ground (arith, length-insert_by_time x ys)

  pub length-newest : (xs : List A) → length (newest time xs) ≡ length xs
  unfolding newest
  length-newest [] = refl
  length-newest (x ∷ xs) = omega (arith, length-insert_by_time x (newest time xs), length-newest xs)

  length-take : (n : ℕ) (xs : List A) → length (take n xs) ≡ min n (length xs)
  length-take zero xs = omega arith
  length-take (suc n) [] = omega arith
  length-take (suc n) (x ∷ xs) = omega (arith, length-take n xs)

  pub length-page_of : (n : ℕ) (xs : List A) → length (page_of time n xs) ≡ min n (length xs)
  length-page_of n xs = omega (arith, length-take n (newest time xs), length-newest xs)

  All-insert_by_time :
      (P : A → Type 0) (x : A) (ys : List A) → P x → All P ys → All P (insert_by_time time x ys)
  unfolding insert_by_time
  All-insert_by_time P x [] p a = (p, tt)
  All-insert_by_time P x (y ∷ ys) p a = elim (Bool-cases (leb (time y) (time x))) [
    | inl e ↦ rw e (p, a)
    | inr e ↦ rw e (a.0, All-insert_by_time P x ys p a.1)
  ]

  pub All-newest : (P : A → Type 0) (xs : List A) → All P xs → All P (newest time xs)
  unfolding newest
  All-newest P [] a = tt
  All-newest P (x ∷ xs) a = All-insert_by_time P x (newest time xs) a.0 (All-newest P xs a.1)

  All-take : (P : A → Type 0) (n : ℕ) (xs : List A) → All P xs → All P (take n xs)
  All-take P zero xs a = tt
  All-take P (suc n) [] a = tt
  All-take P (suc n) (x ∷ xs) a = (a.0, All-take P n xs a.1)

  pub All-page_of : (P : A → Type 0) (n : ℕ) (xs : List A) → All P xs → All P (page_of time n xs)
  All-page_of P n xs a = All-take P n (newest time xs) (All-newest P xs a)

-- Rows are read one by one.
module _ {ℓ κ} {A : Type ℓ} {B : Type κ} (f : A → B) (time : A → Time) (time' : B → Time)
    (same : (x : A) → time' (f x) ≡ time x) where
  NoneNewer-map : (t : Time) (xs : List A) → NoneNewer time t xs → NoneNewer time' t (map f xs)
  NoneNewer-map t [] h = tt
  NoneNewer-map t (x ∷ xs) h = (omega (arith, same x, h.0), NoneNewer-map t xs h.1)

  pub NewestFirst-map : (xs : List A) → NewestFirst time xs → NewestFirst time' (map f xs)
  NewestFirst-map [] s = tt
  NewestFirst-map (x ∷ xs) s = (rw (same x) (NoneNewer-map (time x) xs s.0), NewestFirst-map xs s.1)

pub length-map {ℓ κ} :
    {A : Type ℓ} {B : Type κ} (f : A → B) (xs : List A) → length (map f xs) ≡ length xs
length-map f [] = refl
length-map f (x ∷ xs) = omega (arith, length-map f xs)

pub All-map {ℓ κ} :
    {A : Type ℓ} {B : Type κ} (f : A → B) (P : A → Type 0) (Q : B → Type 0) (xs : List A)
    → ((x : A) → P x → Q (f x))
    → All P xs
    → All Q (map f xs)
All-map f P Q [] h a = tt
All-map f P Q (x ∷ xs) h a = (h x a.0, All-map f P Q xs h a.1)

pub All-filter {ℓ} : {A : Type ℓ} (p : A → Bool) (xs : List A) → All (λ x. p x ≡ true) (filter p xs)
All-filter p [] = tt
All-filter p (x ∷ xs) = elim (Bool-cases (p x)) [
  | inl e ↦ rw e (e, All-filter p xs)
  | inr e ↦ rw e (All-filter p xs)
]
