-- ===== src/Store/Sql.antt =====
-- Statements on one table, which the database may refuse: the driver calls of
-- internal/store/sqlstore.go (`exec`, `query`, `queryRow`) and the errors of internal/store/errors.go.
use fleetsweeper.Common.{◌≡◌, Bool, true, false, List, [], ◌∷◌}

-- A wrapped error is known by the sentinel that it wraps.
pub data StoreError : Type 0 where
  err_store err_not_found err_query err_duplicate err_invalid : StoreError

pub data Result {ℓ} (A : Type ℓ) : Type ℓ where
  ok : A → Result A
  err : StoreError → Result A

-- A table and what the database will do with the next statements: true is a statement that fails.
-- Past the end of the list statements succeed.
pub record Conn {ℓ} (T : Type ℓ) : Type ℓ where
  pub table : T
  pub faults : List Bool

abbrev pub Sql {ℓ} : Type ℓ → Type ℓ → Type ℓ
Sql T A = Conn T → Result A × Conn T

module _ {ℓ} {T A : Type ℓ} where
  abbrev pub pure : A → Sql T A
  pure a c = (ok a, c)

  abbrev pub fail : StoreError → Sql T A
  fail e c = (err e, c)

  abbrev attempt : StoreError → (T → A × T) → T → List Bool → Result A × Conn T
  attempt e f t [] = let (a, t') = f t in (ok a, record { table = t'; faults = [] })
  attempt e f t (true ∷ fs) = (err e, record { table = t; faults = fs })
  attempt e f t (false ∷ fs) = let (a, t') = f t in (ok a, record { table = t'; faults = fs })

  -- One statement. A refused statement changes nothing and gives the caller's error.
  unfoldable pub statement : StoreError → (T → A × T) → Sql T A
  statement e f c = attempt e f c.table c.faults

  -- A read.
  unfoldable pub query : StoreError → (T → A) → Sql T A
  unfolding statement
  query e f = statement e (λ t. (f t, t))

module _ {ℓ} {T A B : Type ℓ} where
  abbrev pub continue : Result A → (A → Sql T B) → Sql T B
  continue (ok a) f c = f a c
  continue (err e) f c = (err e, c)

  infixl 10 ◌>>=◌ ◌>>◌
  unfoldable pub ◌>>=◌ : Sql T A → (A → Sql T B) → Sql T B
  ◌>>=◌ m f c = let (r, c') = m c in continue r f c'

  abbrev pub ◌>>◌ : Sql T A → Sql T B → Sql T B
  m >> n = m >>= λ _. n

-- No statement will fail.
abbrev pub Healthy {ℓ} : {T : Type ℓ} → Conn T → Type 0
Healthy c = c.faults ≡ []

module _ {ℓ} {T : Type ℓ} where
  -- A write.
  unfoldable pub exec : (T → T) → Sql T (Unit {ℓ})
  unfolding statement
  exec f = statement err_store (λ t. (tt, f t))
