-- ===== src/Server/ReportCache/Eviction.antt =====
-- What the cache holds after any requests, in whatever order their steps come.
use fleetsweeper.Common.{
  ◌+◌, ◌≤◌, ◌<◌, ◌≡◌, refl, ap, ◌∙◌, false, List, [], ◌∷◌, ◌++◌, Option, none, some, String, ◌⊎◌,
  ◌==◌, string_eq, length, length-append, arith, eq_iff, inl, inr, Option-cases,
}
use fleetsweeper.Common.Map.{
  Map, lookup, insert, remove, Unique, Fresh, Unique-insert, Unique-remove, lookup-insert,
  lookup-remove,
}
use fleetsweeper.Server.ReportCache.{Cache, report_cache_size, evict, store, get}

module _ {ℓ} {R : Type ℓ} where
  abbrev pub keys : Map String R → List String
  keys [] = []
  keys ((k, r) ∷ m) = k ∷ keys m

  -- The order lists the entries' keys, each once, and there are no more of them than fit.
  pub record IsValid (c : Cache R) : Type ℓ where
    pub listed : keys c.entries ≡ c.order
    pub unique : Unique c.entries
    pub bounded : length c.order ≤ report_cache_size

  keys-insert :
      (k : String) (r : R) (m : Map String R)
      → lookup k m ≡ none
      → keys (insert k r m) ≡ keys m ++ k ∷ []
  unfolding lookup insert
  keys-insert k r [] n = refl
  keys-insert k r ((j, x) ∷ m) n = ground (arith, keys-insert k r m, n)

  remove-Fresh : (k : String) (m : Map String R) → Fresh k m → remove k m ≡ m
  unfolding remove
  remove-Fresh k [] f = refl
  remove-Fresh k ((j, x) ∷ m) f = ground (arith, f.0, remove-Fresh k m f.1)

  -- Nothing goes while the keys fit.
  evict_none :
      (entries : Map String R) (ks : List String)
      → length ks ≤ report_cache_size
      → evict entries ks ≡ record { entries = entries; order = ks }
  unfolding evict
  evict_none entries [] h = refl
  evict_none entries (k ∷ ks) h = ground arith

  evict_one :
      (entries : Map String R) (k : String) (ks : List String)
      → length ks ≡ report_cache_size
      → evict entries (k ∷ ks) ≡ record { entries = remove k entries; order = ks }
  unfolding evict
  evict_one entries k ks h = ground (arith, evict_none (remove k entries) ks)

  -- The ways a store goes: another request was first, there is room, or the oldest entry makes room.
  pub data Stored (key : String) (r : R) (c c' : Cache R) : Type ℓ where
    held : (x : R) → lookup key c.entries ≡ some x → c' ≡ c → Stored key r c c'
    added :
        lookup key c.entries ≡ none
        → length c.order < report_cache_size
        → c' ≡ record { entries = insert key r c.entries; order = c.order ++ key ∷ [] }
        → Stored key r c c'
    replaced :
        lookup key c.entries ≡ none
        → (k : String) → (ks : List String) → c.order ≡ k ∷ ks
        → length ks + 1 ≡ report_cache_size
        → c' ≡ record { entries = remove k (insert key r c.entries); order = ks ++ key ∷ [] }
        → Stored key r c c'

  evict_full :
      (key k : String) (ks : List String) (entries : Map String R)
      → length ks + 1 ≡ report_cache_size
      → evict entries ((k ∷ ks) ++ key ∷ [])
        ≡ record { entries = remove k entries; order = ks ++ key ∷ [] }
  evict_full key k ks entries h =
      evict_one entries k (ks ++ key ∷ []) (omega (arith, length-append ks (key ∷ []), h))

  Stored-fresh :
      (key : String) (r : R) (entries : Map String R) (order : List String)
      → lookup key entries ≡ none
      → length order ≤ report_cache_size
      → Stored key r
          (record { entries = entries; order = order })
          (evict (insert key r entries) (order ++ key ∷ []))
  Stored-fresh key r entries [] n h =
      added n (omega arith) (evict_none (insert key r entries) (key ∷ []) (omega arith))
  Stored-fresh key r entries (k ∷ ks) n h = elim (room ks (omega (arith, h))) [
    | inl full ↦ replaced n k ks refl full (evict_full key k ks (insert key r entries) full)
    | inr free ↦ added n (omega (arith, free)) (
        evict_none (insert key r entries) ((k ∷ ks) ++ key ∷ [])
          (omega (arith, length-append ks (key ∷ []), free)))
  ]
    where
      room :
          (ks : List String)
          → length ks + 1 ≤ report_cache_size
          → (length ks + 1 ≡ report_cache_size) ⊎ (length ks + 1 < report_cache_size)
      room ks h = ground (arith, h)

  pub store-Stored :
      (key : String) (r : R) (c : Cache R) → IsValid c → Stored key r c (store key r c)
  unfolding store
  store-Stored key r c v = elim (Option-cases (lookup key c.entries)) [
    | inr (x, e) ↦ held x e (ground (arith, e))
    | inl n ↦ rw (n, store) (Stored-fresh key r c.entries c.order n v.bounded)
  ]

  keys-remove_first :
      (k : String) (m : Map String R) (ks : List String)
      → Unique m
      → keys m ≡ k ∷ ks
      → keys (remove k m) ≡ ks
  unfolding remove
  keys-remove_first k [] ks u e = ground arith
  keys-remove_first k ((j, x) ∷ m) ks u e = ground (arith, e, eq_iff j k, remove-Fresh j m u.0)

  pub Stored-IsValid :
      (key : String) (r : R) (c c' : Cache R) → IsValid c → Stored key r c c' → IsValid c'
  Stored-IsValid key r c c' v (held x e i) = rw i v
  Stored-IsValid key r c c' v (added n room i) = rw i (record {
    listed = keys-insert key r c.entries n ∙ ap (λ o. o ++ key ∷ []) v.listed;
    unique = Unique-insert key r c.entries v.unique;
    bounded = omega (arith, length-append c.order (key ∷ []), room);
  })
  Stored-IsValid key r c c' v (replaced n k ks o full i) = rw i (record {
    listed =
        keys-remove_first k (insert key r c.entries) (ks ++ key ∷ [])
          (Unique-insert key r c.entries v.unique)
          (keys-insert key r c.entries n ∙ ap (λ o. o ++ key ∷ []) (v.listed ∙ o));
    unique = Unique-remove k (insert key r c.entries) (Unique-insert key r c.entries v.unique);
    bounded = omega (arith, length-append ks (key ∷ []), full);
  })

  -- The oldest key is another one.
  first_differs :
      (key k : String) (ks : List String) (m : Map String R)
      → lookup key m ≡ none
      → keys m ≡ k ∷ ks
      → k == key ≡ false
  unfolding lookup
  first_differs key k ks [] n e = ground arith
  first_differs key k ks ((j, x) ∷ m) n e = ground (arith, eq_iff j k, n, e)

  abbrev pub or_built : R → Option R → Option R
  or_built r none = some r
  or_built r (some x) = some x

  settled :
      (key : String) (r : R) (c c' : Cache R)
      → IsValid c
      → Stored key r c c'
      → lookup key c'.entries ≡ or_built r (lookup key c.entries)
  settled key r c c' v (held x e i) = rw i (ground (arith, e))
  settled key r c c' v (added n room i) =
      rw i (ground (arith, n, lookup-insert key key r c.entries, eq_iff key key))
  settled key r c c' v (replaced n k ks o full i) = rw i (
      ground (
        arith,
        n,
        lookup-remove k key (insert key r c.entries),
        lookup-insert key key r c.entries,
        eq_iff key key,
        first_differs key k ks c.entries n (v.listed ∙ o),
      ))

  -- A request is never answered with nil: it gets the report that is held, and its own if none is.
  pub get-or_built :
      (key : String) (r : R) (c : Cache R)
      → IsValid c
      → (get key r c).0 ≡ or_built r (lookup key c.entries)
  unfolding get
  get-or_built key r c v =
      ground (arith, settled key r c (store key r c) v (store-Stored key r c v))

  -- Every entry is what its key builds.
  abbrev pub AllBuilt : (String → R) → Cache R → Type ℓ
  AllBuilt build c = (k : String) → (x : R) → lookup k c.entries ≡ some x → x ≡ build k

  pub Stored-AllBuilt :
      (build : String → R) (key : String) (c c' : Cache R)
      → Stored key (build key) c c'
      → AllBuilt build c
      → AllBuilt build c'
  Stored-AllBuilt build key c c' (held x e i) h = rw i h
  Stored-AllBuilt build key c c' (added n room i) h =
      rw i
        (λ k x l. ground (arith, l, lookup-insert key k (build key) c.entries, eq_iff key k, h k x))
  Stored-AllBuilt build key c c' (replaced n j ks o full i) h = rw i (λ k x l. ground (
    arith,
    l,
    lookup-remove j k (insert key (build key) c.entries),
    lookup-insert key k (build key) c.entries,
    eq_iff key k,
    h k x,
  ))
