-- ===== src/Server/ReportCache/Requests.antt =====
-- The report cache under requests from many goroutines.
use fleetsweeper.Common.{
  suc, true, ap, ◌∙◌, ◌≤◌, ◌≡◌, refl, List, [], ◌∷◌, ◌++◌, none, some, String, length, arith, ltb,
  if◌then◌else◌, string_eq, Option-cases, inl, inr,
}
use fleetsweeper.Common.Map.{Map, lookup}
use fleetsweeper.Server.ReportCache.{Cache, report_cache_size, store, get}
use fleetsweeper.Server.ReportCache.Eviction.{
  IsValid, Stored, held, added, replaced, store-Stored, Stored-IsValid, AllBuilt, Stored-AllBuilt,
  or_built, get-or_built, keys,
}

-- A cache that is full loses its oldest key, and no other, to a new one.
abbrev pub order_after : List String → String → List String
order_after [] key = key ∷ []
order_after (k ∷ ks) key =
    if ltb (length (k ∷ ks)) report_cache_size then (k ∷ ks) ++ key ∷ [] else ks ++ key ∷ []

order_of_added :
    (order : List String) (key : String)
    → length order ≤ report_cache_size
    → ltb (length order) report_cache_size ≡ true
    → order ++ key ∷ [] ≡ order_after order key
order_of_added [] key h l = refl
order_of_added (k ∷ ks) key h l = ground (arith, l)

module _ {ℓ} {R : Type ℓ} where
  abbrev pub empty_cache : Cache R
  empty_cache = record { entries = []; order = [] }

  pub empty_cache-IsValid : IsValid empty_cache
  empty_cache-IsValid = record { listed = refl; unique = tt; bounded = omega arith }

  length-keys : (m : Map String R) → length (keys m) ≡ length m
  length-keys [] = refl
  length-keys ((k, x) ∷ m) = ap suc (length-keys m)

  size_bounded : (c : Cache R) → IsValid c → length c.entries ≤ report_cache_size
  size_bounded c v = omega (arith, length-keys c.entries, ap length v.listed, v.bounded)

  order_of_Stored :
      (key : String) (r : R) (c c' : Cache R)
      → lookup key c.entries ≡ none
      → Stored key r c c'
      → c'.order ≡ order_after c.order key
  order_of_Stored key r c c' n (held x e i) = ground (arith, e, n)
  order_of_Stored key r c c' n (added m room i) =
      rw i (order_of_added c.order key (omega (arith, room)) (ground (arith, room)))
  order_of_Stored key r c c' n (replaced m k ks o full i) = rw (i, o) (ground (arith, full))

  -- Storing a report under a new key puts the key last, and takes the oldest key away when a hundred are
  -- held, and no other.
  pub order-store :
      (key : String) (r : R) (c : Cache R)
      → IsValid c
      → lookup key c.entries ≡ none
      → (store key r c).order ≡ order_after c.order key
  order-store key r c v n = order_of_Stored key r c (store key r c) n (store-Stored key r c v)

module _ {ℓ} {R : Type ℓ} (build : String → R) where
  -- The stores of any requests, in the order in which they took the lock.
  unfoldable pub run : List String → Cache R → Cache R
  run [] c = c
  run (k ∷ ks) c = run ks (store k (build k) c)

  run-IsValid : (ks : List String) (c : Cache R) → IsValid c → IsValid (run ks c)
  unfolding run
  run-IsValid [] c v = v
  run-IsValid (k ∷ ks) c v =
      run-IsValid ks (store k (build k) c)
        (Stored-IsValid k (build k) c (store k (build k) c) v (store-Stored k (build k) c v))

  run-AllBuilt :
      (ks : List String) (c : Cache R) → IsValid c → AllBuilt build c → AllBuilt build (run ks c)
  unfolding run
  run-AllBuilt [] c v h = h
  run-AllBuilt (k ∷ ks) c v h =
      let s = store-Stored k (build k) c v in
      run-AllBuilt ks (store k (build k) c) (Stored-IsValid k (build k) c (store k (build k) c) v s)
        (Stored-AllBuilt build k c (store k (build k) c) s h)

  empty_cache-AllBuilt : AllBuilt build empty_cache
  unfolding lookup
  empty_cache-AllBuilt k x e = ground (arith, e)

  -- Whatever requests have stored, in any order, the cache holds at most a hundred reports, and where a key
  -- determines the report that is built for it, a request gets that report.
  pub run-get :
      (ks : List String) (key : String)
      → (length (run ks empty_cache).entries ≤ report_cache_size)
        × ((get key (build key) (run ks empty_cache)).0 ≡ some (build key))
  run-get ks key =
      let c = run ks empty_cache in
      let v = run-IsValid ks empty_cache empty_cache-IsValid in
      let built = run-AllBuilt ks empty_cache empty_cache-IsValid empty_cache-AllBuilt in
      (
        size_bounded c v,
        elim (Option-cases (lookup key c.entries)) [
          | inl n ↦ get-or_built key (build key) c v ∙ ap (or_built (build key)) n
          | inr (x, l) ↦
              get-or_built key (build key) c v
              ∙ ap (or_built (build key)) l
              ∙ ap some (built key x l)
        ],
      )
