-- ===== src/Webhooks/Config.antt =====
-- What `compile` of internal/webhooks/webhooks.go accepts, and the filters of a subscriber that it has
-- compiled.
use fleetsweeper.Common.{
  ◌≡◌, ◌≢◌, refl, Bool, true, false, ◌&&◌, List, [], ◌∷◌, Option, none, some, String, if◌then◌else◌,
  ◌==◌, string_eq, arith, eq_iff, All, inl, inr, ◌⊎◌, sym, subst,
}
use fleetsweeper.Webhooks.{Finding, Subscriber, severity_at_least, matches}

pub data ConfigError : Type 0 where
  url_required : String → ConfigError
  bad_scanner_regex bad_cluster_regex bad_body_template : String → String → ConfigError

pub data Compiled (A : Type 0) : Type 0 where
  compiled : A → Compiled A
  invalid : ConfigError → Compiled A

Compiled-cases :
    {A : Type 0} (c : Compiled A)
    → ((a : A) × (c ≡ compiled a)) ⊎ ((e : ConfigError) × (c ≡ invalid e))
Compiled-cases (compiled a) = inl (a, refl)
Compiled-cases (invalid e) = inr (e, refl)

module _ (compile_regex : String → Option (String → Bool))
    (parse_template : String → Option (Finding → Option String)) where
  abbrev compile_template : Subscriber → Compiled Subscriber
  compile_template s =
      if s.body_template == "" then compiled s else elim (parse_template s.body_template) [
        | none ↦ invalid (bad_body_template s.name s.body_template)
        | some t ↦ compiled (record s { tmpl = some t })
      ]

  abbrev compile_cluster : Subscriber → Compiled Subscriber
  compile_cluster s =
      if s.cluster_regex == "" then compile_template s else elim (compile_regex s.cluster_regex) [
        | none ↦ invalid (bad_cluster_regex s.name s.cluster_regex)
        | some re ↦ compile_template (record s { cluster_re = some re })
      ]

  abbrev compile_scanner : Subscriber → Compiled Subscriber
  compile_scanner s =
      if s.scanner_regex == "" then compile_cluster s else elim (compile_regex s.scanner_regex) [
        | none ↦ invalid (bad_scanner_regex s.name s.scanner_regex)
        | some re ↦ compile_cluster (record s { scanner_re = some re })
      ]

  -- One turn of the loop.
  unfoldable pub compile_subscriber : Subscriber → Compiled Subscriber
  compile_subscriber s =
      if s.url == ""
      then invalid (url_required s.name)
      else compile_scanner (record s {
        min_severity = if s.min_severity == "" then "info" else s.min_severity;
        content_type = if s.content_type == "" then "application/json" else s.content_type;
      })

  abbrev prepend : Subscriber → Compiled (List Subscriber) → Compiled (List Subscriber)
  prepend s (invalid e) = invalid e
  prepend s (compiled ss) = compiled (s ∷ ss)

  -- The first subscriber that does not compile ends the loop.
  unfoldable pub compile : List Subscriber → Compiled (List Subscriber)
  compile [] = compiled []
  compile (s ∷ ss) =
      let rest = compile ss in
      elim (compile_subscriber s) [ invalid e ↦ invalid e | compiled s' ↦ prepend s' rest ]

-- A subscriber as the YAML file gives it: nothing is compiled yet.
pub record IsRaw (s : Subscriber) : Type 0 where
  pub no_scanner : s.scanner_re ≡ none
  pub no_cluster : s.cluster_re ≡ none
  pub no_template : s.tmpl ≡ none

module _ (compile_regex : String → Option (String → Bool)) where
  abbrev pub pattern_passes : String → String → Bool
  pattern_passes p x =
      if p == "" then true else elim (compile_regex p) [ none ↦ false | some re ↦ re x ]

  -- What the filters of the YAML file say of a finding.
  abbrev pub admits : Subscriber → Finding → Bool
  admits s f =
      severity_at_least f.severity (if s.min_severity == "" then "info" else s.min_severity)
      && (pattern_passes s.scanner_regex f.scanner && pattern_passes s.cluster_regex f.cluster)

  pub record Compiles (s s' : Subscriber) : Type 0 where
    pub same_name : s'.name ≡ s.name
    pub same_url : s'.url ≡ s.url
    pub addressed : s.url ≢ ""
    pub filters : (f : Finding) → matches s' f ≡ admits s f

  -- Each subscriber and what it was compiled to, in their order.
  abbrev pub AllCompile : List Subscriber → List Subscriber → Type 0
  AllCompile [] [] = Unit
  AllCompile [] (t ∷ ts) = ⊥
  AllCompile (s ∷ ss) [] = ⊥
  AllCompile (s ∷ ss) (t ∷ ts) = Compiles s t × AllCompile ss ts

module _ (compile_regex : String → Option (String → Bool))
    (parse_template : String → Option (Finding → Option String)) where
  abbrev one : Subscriber → Compiled Subscriber
  one s = compile_subscriber compile_regex parse_template s

  compiled_name : (s s' : Subscriber) → one s ≡ compiled s' → s'.name ≡ s.name
  unfolding compile_subscriber
  compiled_name s s' e = ground arith

  compiled_url : (s s' : Subscriber) → one s ≡ compiled s' → (s'.url ≡ s.url) × (s.url ≢ "")
  unfolding compile_subscriber
  compiled_url s s' e = ground (arith, eq_iff s.url "")

  compiled_filters :
      (s s' : Subscriber) (f : Finding)
      → IsRaw s
      → one s ≡ compiled s'
      → matches s' f ≡ admits compile_regex s f
  unfolding compile_subscriber matches
  compiled_filters s s' f raw e = ground (arith, raw.no_scanner, raw.no_cluster)

  compile_subscriber-Compiles :
      (s s' : Subscriber) → IsRaw s → one s ≡ compiled s' → Compiles compile_regex s s'
  compile_subscriber-Compiles s s' raw e = record {
    same_name = compiled_name s s' e;
    same_url = (compiled_url s s' e).0;
    addressed = (compiled_url s s' e).1;
    filters = λ f. compiled_filters s s' f raw e;
  }

  compile_cons :
      (s : Subscriber) (ss ts : List Subscriber)
      → compile compile_regex parse_template (s ∷ ss) ≡ compiled ts
      → (t : Subscriber) × ((us : List Subscriber) × ((ts ≡ t ∷ us)
            × ((one s ≡ compiled t) × (compile compile_regex parse_template ss ≡ compiled us))))
  unfolding compile
  compile_cons s ss ts e = elim (Compiled-cases (one s)) [
    | inr (x, f) ↦ absurd (ground (arith, f, e))
    | inl (t, f) ↦ elim (Compiled-cases (compile compile_regex parse_template ss)) [
      | inr (x, g) ↦ absurd (ground (arith, f, g, e))
      | inl (us, g) ↦ (t, (us, (ground (arith, f, g, e), (f, g))))
    ]
  ]

  -- A config that compiles has an address for every subscriber, and each subscriber's compiled filters
  -- take exactly the findings that its severity and its two patterns admit, where an empty severity is
  -- "info" and an empty pattern admits everything.
  pub compile-AllCompile :
      (ss ts : List Subscriber)
      → All IsRaw ss
      → compile compile_regex parse_template ss ≡ compiled ts
      → AllCompile compile_regex ss ts
  compile-AllCompile [] [] raw e = tt
  compile-AllCompile [] (t ∷ ts) raw e = unfold compile in ground (arith, e)
  compile-AllCompile (s ∷ ss) ts raw e =
      let (t, (us, (i, (f, g)))) = compile_cons s ss ts e in
      subst (AllCompile compile_regex (s ∷ ss)) (sym i)
        (compile_subscriber-Compiles s t raw.0 f, compile-AllCompile ss us raw.1 g)
