-- ===== src/Common/Map.antt =====
-- Go maps and keyed SQL tables as association lists. A write to a held key stays in its place.
use fleetsweeper.Common.Tests.{Eq, ◌==◌, if◌then◌else◌, Bool-cases}
use mathlib.Core.Path.{◌≡◌, refl}
use mathlib.Core.Logic.{inl, inr}
use mathlib.Core.Bool.{Bool, false}
use mathlib.Core.Option.{Option, none, some}
use mathlib.Core.List.{List, [], ◌∷◌}
use native.Mathlib.Omega.{arith}

abbrev pub Map {ℓ κ} : Type ℓ → Type κ → Type (ℓ ⊔ κ)
Map K V = List (K × V)

module _ {ℓ κ} {K : Type ℓ} {V : Type κ} ⦃e : Eq K⦄ where
  -- What a Go map read with the comma-ok form gives.
  unfoldable pub lookup : K → Map K V → Option V
  lookup k [] = none
  lookup k ((j, x) ∷ rest) = let below = lookup k rest in if j == k then some x else below

  unfoldable pub insert : K → V → Map K V → Map K V
  insert k x [] = (k, x) ∷ []
  insert k x ((j, y) ∷ rest) = if j == k then (j, x) ∷ rest else (j, y) ∷ insert k x rest

  -- The entries that pass a test.
  unfoldable pub keep : (K → V → Bool) → Map K V → Map K V
  keep p [] = []
  keep p ((j, x) ∷ rest) = let kept = keep p rest in if p j x then (j, x) ∷ kept else kept

  unfoldable pub remove : K → Map K V → Map K V
  remove k [] = []
  remove k ((j, x) ∷ rest) = let left = remove k rest in if j == k then left else (j, x) ∷ left

  -- No entry has the key.
  abbrev pub Fresh : K → Map K V → Type 0
  Fresh k [] = Unit
  Fresh k ((j, x) ∷ rest) = (j == k ≡ false) × Fresh k rest

  -- No two entries have one key.
  abbrev pub Unique : Map K V → Type 0
  Unique [] = Unit
  Unique ((j, x) ∷ rest) = Fresh j rest × Unique rest

  abbrev pub keep_value : (K → V → Bool) → K → Option V → Option V
  keep_value p k none = none
  keep_value p k (some x) = if p k x then some x else none

module _ {ℓ κ} {K : Type ℓ} {V : Type κ} ⦃e : Eq K⦄ where
  pub lookup-insert :
      (k j : K) (x : V) (rest : Map K V)
      → lookup j (insert k x rest) ≡ (if k == j then some x else lookup j rest)
  unfolding lookup insert
  lookup-insert k j x [] = ground arith
  lookup-insert k j x ((i, y) ∷ rest) =
      ground (arith, lookup-insert k j x rest, e.beq_iff i j, e.beq_iff k j, e.beq_iff i k)

  pub lookup-remove :
      (k j : K) (rest : Map K V)
      → lookup j (remove k rest) ≡ (if k == j then none else lookup j rest)
  unfolding lookup remove
  lookup-remove k j [] = ground arith
  lookup-remove k j ((i, y) ∷ rest) =
      ground (arith, e.beq_iff k j, e.beq_iff i k, e.beq_iff i j, lookup-remove k j rest)

  pub Fresh-lookup : (k : K) (rest : Map K V) → Fresh k rest → lookup k rest ≡ none
  unfolding lookup
  Fresh-lookup k [] h = refl
  Fresh-lookup k ((j, x) ∷ rest) h = ground (arith, Fresh-lookup k rest h.1)

  pub Fresh-keep :
      (p : K → V → Bool) (k : K) (rest : Map K V) → Fresh k rest → Fresh k (keep p rest)
  unfolding keep
  Fresh-keep p k [] h = tt
  Fresh-keep p k ((j, x) ∷ rest) h = elim (Bool-cases (p j x)) [
    | inl t ↦ rw t (h.0, Fresh-keep p k rest h.1)
    | inr t ↦ rw t (Fresh-keep p k rest h.1)
  ]

  pub Unique-keep : (p : K → V → Bool) (rest : Map K V) → Unique rest → Unique (keep p rest)
  unfolding keep
  Unique-keep p [] h = tt
  Unique-keep p ((j, x) ∷ rest) h = elim (Bool-cases (p j x)) [
    | inl t ↦ rw t (Fresh-keep p j rest h.0, Unique-keep p rest h.1)
    | inr t ↦ rw t (Unique-keep p rest h.1)
  ]

  -- A test on the entries is a test on what a lookup finds.
  pub lookup-keep :
      (p : K → V → Bool) (k : K) (rest : Map K V)
      → Unique rest
      → lookup k (keep p rest) ≡ keep_value p k (lookup k rest)
  unfolding lookup keep
  lookup-keep p k [] h = refl
  lookup-keep p k ((j, x) ∷ rest) h = ground (
    arith,
    e.beq_iff j k,
    lookup-keep p k rest h.1,
    Fresh-lookup j rest h.0,
    Fresh-lookup j (keep p rest) (Fresh-keep p j rest h.0),
  )

  Fresh-insert :
      (i k : K) (x : V) (rest : Map K V)
      → (k == i) ≡ false
      → Fresh i rest
      → Fresh i (insert k x rest)
  unfolding insert
  Fresh-insert i k x [] h f = (h, tt)
  Fresh-insert i k x ((j, y) ∷ rest) h f = elim (Bool-cases (j == k)) [
    | inl t ↦ rw t f
    | inr t ↦ rw t (f.0, Fresh-insert i k x rest h f.1)
  ]

  pub Unique-insert : (k : K) (x : V) (rest : Map K V) → Unique rest → Unique (insert k x rest)
  unfolding insert
  Unique-insert k x [] h = (tt, tt)
  Unique-insert k x ((j, y) ∷ rest) h = elim (Bool-cases (j == k)) [
    | inl t ↦ rw t h
    | inr t ↦ rw t (
      Fresh-insert j k x rest (ground (arith, e.beq_iff j k, e.beq_iff k j)) h.0,
      Unique-insert k x rest h.1,
    )
  ]

  Fresh-remove : (i k : K) (rest : Map K V) → Fresh i rest → Fresh i (remove k rest)
  unfolding remove
  Fresh-remove i k [] f = tt
  Fresh-remove i k ((j, y) ∷ rest) f = elim (Bool-cases (j == k)) [
    | inl t ↦ rw t (Fresh-remove i k rest f.1)
    | inr t ↦ rw t (f.0, Fresh-remove i k rest f.1)
  ]

  pub Unique-remove : (k : K) (rest : Map K V) → Unique rest → Unique (remove k rest)
  unfolding remove
  Unique-remove k [] h = tt
  Unique-remove k ((j, y) ∷ rest) h = elim (Bool-cases (j == k)) [
    | inl t ↦ rw t (Unique-remove k rest h.1)
    | inr t ↦ rw t (Fresh-remove j k rest h.0, Unique-remove k rest h.1)
  ]
