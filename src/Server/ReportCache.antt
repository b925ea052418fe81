-- ===== src/Server/ReportCache.antt =====
-- Reports rebuilt from stored scans: internal/server/report_cache.go.
-- `build` stands for `report.Build` of a scan's results; the mutex makes a look and a store one step each.
pub mod Eviction
pub mod Requests
pub mod Keys
pub mod Examples
use fleetsweeper.Common.{
  ℕ, ◌≡◌, Bool, true, false, List, [], ◌∷◌, ◌++◌, Option, none, some, String, if◌then◌else◌, ltb,
  ◌==◌, string_eq, length,
}
use fleetsweeper.Common.Map.{Map, lookup, insert, remove}

-- Two series windows of the widest history.
abbrev pub report_cache_size : ℕ
report_cache_size = 100

-- Keys stand oldest first in `order`.
pub record Cache {ℓ} (R : Type ℓ) : Type ℓ where
  pub entries : Map String R
  pub order : List String

module _ {ℓ} {R : Type ℓ} where
  -- The oldest keys go while there are too many.
  unfoldable pub evict : Map String R → List String → Cache R
  evict entries [] = record { entries = entries; order = [] }
  evict entries (k ∷ ks) =
      let rest = evict (remove k entries) ks in
      if ltb report_cache_size (length (k ∷ ks))
      then rest
      else record { entries = entries; order = k ∷ ks }

  -- The second step, after the build: the report goes in unless another request was first.
  unfoldable pub store : String → R → Cache R → Cache R
  store key r c = elim (lookup key c.entries) [
    | some held ↦ c
    | none ↦ evict (insert key r c.entries) (c.order ++ key ∷ [])
  ]

  -- What the second step returns; a Go map gives nil for a missing key.
  abbrev pub settle : String → R → Cache R → Option R × Cache R
  settle key r c = let c' = store key r c in (lookup key c'.entries, c')

  -- A request that no other one comes between.
  unfoldable pub get : String → R → Cache R → Option R × Cache R
  get key built c = elim (lookup key c.entries) [ some r ↦ (some r, c) | none ↦ settle key built c ]
