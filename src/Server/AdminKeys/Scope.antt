-- ===== src/Server/AdminKeys/Scope.antt =====
-- What a key may act on, by the scope that its request asked for.
use fleetsweeper.Common.{
  sym, subst, none, some, ◌&&◌, ◌≡◌, ◌≢◌, refl, Bool, true, false, ◌||◌, List, [], ◌∷◌, Option,
  String, ◌==◌, string_eq, contains, arith, eq_iff, Bool-cases, inl, inr,
}
use fleetsweeper.Store.ApiKeys.{scope_wildcard, scope_or_wildcard}
use fleetsweeper.Server.Auth.Actors.{
  Actor, has_wildcard_scope, entry_allows, any_entry_allows, allows_cluster,
}
use fleetsweeper.Server.AdminKeys.{first_entries, normalize_scope}

-- Some entry passes a test.
any_passes : (String → Bool) → List String → Bool
any_passes p [] = false
any_passes p (e ∷ es) = p e || any_passes p es

module _ (p : String → Bool) (blank : p "" ≡ false) where
  any_passes-contains :
      (seen : List String) (e : String)
      → contains seen e ≡ true
      → p e ≡ true
      → any_passes p seen ≡ true
  unfolding any_passes
  any_passes-contains [] e h q = cc
  any_passes-contains (s ∷ seen) e h q = elim (Bool-cases (s == e)) [
    | inl t ↦ let same : s ≡ e = (eq_iff s e).0 t in rw same (ground (arith, q))
    | inr t ↦ ground (arith, any_passes-contains seen e (ground arith) q)
  ]

  -- Leaving out repeats and blanks changes no answer.
  any_passes-first_entries :
      (seen es : List String)
      → (any_passes p seen || any_passes p (first_entries seen es))
        ≡ (any_passes p seen || any_passes p es)
  unfolding any_passes first_entries
  any_passes-first_entries seen [] = refl
  any_passes-first_entries seen (e ∷ es) = elim (Bool-cases (e == "")) [
    | inl t ↦
        let nothing : p e ≡ false = subst (λ x. p x ≡ false) (sym ((eq_iff e "").0 t)) blank in
        ground (arith, t, nothing, any_passes-first_entries seen es)
    | inr t ↦ elim (Bool-cases (contains seen e)) [
      | inl known ↦ elim (Bool-cases (p e)) [
        | inl passed ↦ ground (arith, t, known, passed, any_passes-contains seen e known passed)
        | inr failed ↦ ground (arith, t, known, failed, any_passes-first_entries seen es)
      ]
      | inr new ↦ ground (arith, t, new, any_passes-first_entries (e ∷ seen) es)
    ]
  ]

  any_passes_first : (es : List String) → any_passes p (first_entries [] es) ≡ any_passes p es
  unfolding any_passes
  any_passes_first es = any_passes-first_entries [] es

contains_lem : (es : List String) (a : String) → contains es a ≡ any_passes (λ e. e == a) es
unfolding any_passes
contains_lem [] a = refl
contains_lem (e ∷ es) a = ground (arith, contains_lem es a)

any_entry_allows_lem :
    (c : String) (m : Option (String → List String)) (es : List String)
    → any_entry_allows c m es ≡ any_passes (entry_allows c m) es
unfolding any_passes any_entry_allows
any_entry_allows_lem c m [] = refl
any_entry_allows_lem c m (e ∷ es) = ground (arith, any_entry_allows_lem c m es)

-- Every entry of a scope is the empty text.
abbrev pub all_blank : List String → Bool
all_blank [] = true
all_blank (e ∷ es) = e == "" && all_blank es

blank-first_entries : (es : List String) → all_blank es ≡ true → first_entries [] es ≡ []
unfolding first_entries
blank-first_entries [] h = refl
blank-first_entries (e ∷ es) h = ground (arith, blank-first_entries es)

-- A scope with an entry is kept.
kept_scope :
    (es : List String)
    → all_blank es ≡ false
    → scope_or_wildcard (first_entries [] es) ≡ first_entries [] es
unfolding first_entries
kept_scope [] h = cc
kept_scope (e ∷ es) h = elim (Bool-cases (e == "")) [
  | inl t ↦ rw t (kept_scope es (ground arith))
  | inr t ↦ rw t refl
]

blank_entry :
    (c : String) (m : Option (String → List String)) → c ≢ "" → entry_allows c m "" ≡ false
unfolding entry_allows
blank_entry c none h = ground (arith, eq_iff "" c)
blank_entry c (some members) h = ground (arith, eq_iff "" c)

allows_first :
    (a : Actor) (es : List String) (c : String) (m : Option (String → List String))
    → c ≢ ""
    → allows_cluster (record a { cluster_scope = first_entries [] es }) c m
      ≡ allows_cluster (record a { cluster_scope = es }) c m
unfolding allows_cluster has_wildcard_scope
allows_first a es c m h =
    rw
      (
        contains_lem (first_entries [] es) scope_wildcard,
        contains_lem es scope_wildcard,
        any_entry_allows_lem c m (first_entries [] es),
        any_entry_allows_lem c m es,
        any_passes_first (λ e. e == scope_wildcard) refl es,
        any_passes_first (entry_allows c m) (blank_entry c m h) es,
      )
      refl

-- A key made for a scope may act on a cluster exactly when some entry of that scope allows it, or the scope
-- has no entry but blank ones.
pub allows_cluster-normalize_scope :
    (a : Actor) (es : List String) (c : String) (m : Option (String → List String))
    → c ≢ ""
    → allows_cluster (record a { cluster_scope = normalize_scope es }) c m
      ≡ (all_blank es || allows_cluster (record a { cluster_scope = es }) c m)
unfolding allows_cluster has_wildcard_scope normalize_scope
allows_cluster-normalize_scope a es c m h = elim (Bool-cases (all_blank es)) [
  | inl blank ↦ rw (blank-first_entries es blank, blank) refl
  | inr some_entry ↦ rw (kept_scope es some_entry, some_entry) (allows_first a es c m h)
]
