-- ===== src/Server/ReportCache/Keys.antt =====
-- The keys of cached reports: `optionsKey` of internal/server/report_cache.go.
-- The threshold comes as the text that `%g` prints of it.
use Prim.Native.Nat.{Ordering}
use Prim.Native.String.{compare, ◌++◌ as append}
use text.Mathlib.TextLemmas.{append_assoc}
use fleetsweeper.Common.{
  ◌≡◌, refl, sym, ap, ◌∙◌, Bool, true, false, List, [], ◌∷◌, String, if◌then◌else◌, map, Option,
  some, inl, inr, arith, Option-cases, string_eq,
}
use fleetsweeper.Common.Map.{Map, lookup}
use fleetsweeper.Server.ReportCache.{Cache, get}

pub record BuildOptions : Type 0 where
  pub outlier_threshold : String
  pub groups : Map String (List String)
  pub cluster_tags : Map String String

abbrev pub string_le : String → String → Bool
string_le s t = elim (compare s t) [ Ordering.gt ↦ false | _ ↦ true ]

unfoldable pub insert_string : String → List String → List String
insert_string s [] = s ∷ []
insert_string s (t ∷ ts) =
    let rest = insert_string s ts in if string_le s t then s ∷ t ∷ ts else t ∷ rest

unfoldable pub sort_strings : List String → List String
unfolding insert_string
sort_strings [] = []
sort_strings (s ∷ ss) = insert_string s (sort_strings ss)

-- `strings.Join`
unfoldable pub join : String → List String → String
join separator [] = ""
join separator (s ∷ []) = s
join separator (s ∷ t ∷ ts) = append s (append separator (join separator (t ∷ ts)))

abbrev pub tag_text : String × String → String
tag_text (c, t) = append c (append "=" t)

abbrev pub group_text : String × List String → String
group_text (g, members) = append g (append "=" (join "+" (sort_strings members)))

unfoldable pub options_key : BuildOptions → String
unfolding sort_strings join
options_key opts = append "t=" (
    append opts.outlier_threshold (
      append ";" (
        append (join "," (sort_strings (map tag_text opts.cluster_tags)))
          (append ";" (join "," (sort_strings (map group_text opts.groups)))))))

abbrev pub tagged : BuildOptions → Map String String → BuildOptions
tagged opts tags = record opts { cluster_tags = tags }

two_tags_text :
    (a x b y : String)
    → string_le (tag_text (a, x)) (tag_text (b, y)) ≡ true
    → join ","
        (sort_strings (map tag_text ((a, append x (append "," (append b (append "=" y)))) ∷ [])))
      ≡ join "," (sort_strings (map tag_text ((a, x) ∷ (b, y) ∷ [])))
unfolding join sort_strings insert_string
two_tags_text a x b y h =
    let rest = append "," (tag_text (b, y)) in
    rw h (sym (append_assoc a (append "=" x) rest ∙ ap (append a) (append_assoc "=" x rest)))

options_key_same :
    (opts : BuildOptions) (a x b y : String)
    → string_le (tag_text (a, x)) (tag_text (b, y)) ≡ true
    → options_key (tagged opts ((a, append x (append "," (append b (append "=" y)))) ∷ []))
      ≡ options_key (tagged opts ((a, x) ∷ (b, y) ∷ []))
unfolding options_key
options_key_same opts a x b y h = rw (two_tags_text a x b y h) refl

module _ {ℓ} {R : Type ℓ} (build : BuildOptions → R) where
  -- `get` from the scan and the options. `build` stands for `report.Build` of the scan's clusters and results.
  abbrev pub get_report : String → BuildOptions → Cache R → Option R × Cache R
  get_report scan_id opts c = get (append scan_id (append "\0" (options_key opts))) (build opts) c

  get_held :
      (key : String) (b r : R) (c : Cache R)
      → lookup key c.entries ≡ some r
      → get key b c ≡ (some r, c)
  unfolding get
  get_held key b r c e = ground arith

  get_leaves :
      (key : String) (b r : R) (c : Cache R)
      → (get key b c).0 ≡ some r
      → lookup key (get key b c).1.entries ≡ some r
  unfolding get
  get_leaves key b r c e = elim (Option-cases (lookup key c.entries)) [
    | inl n ↦ rw (n, get) (rw (n, get) at e)
    | inr (held, h) ↦ rw (h, get) (h ∙ (rw (h, get) at e))
  ]

  -- Where the first of two tags sorts before the second, the report that a request for a scan got with one
  -- cluster tagged, by a text with a comma that spells both, is what the next request for that scan gets
  -- with the two clusters tagged, and the cache stays as it is.
  pub get_report-collides :
      (scan_id : String) (opts : BuildOptions) (a x b y : String) (r : R) (c : Cache R)
      → string_le (tag_text (a, x)) (tag_text (b, y)) ≡ true
      → (get_report scan_id
          (tagged opts ((a, append x (append "," (append b (append "=" y)))) ∷ []))
          c).0
        ≡ some r
      → let c' =
          (get_report scan_id
            (tagged opts ((a, append x (append "," (append b (append "=" y)))) ∷ []))
            c).1 in
        get_report scan_id (tagged opts ((a, x) ∷ (b, y) ∷ [])) c' ≡ (some r, c')
  get_report-collides scan_id opts a x b y r c h got =
      let one = tagged opts ((a, append x (append "," (append b (append "=" y)))) ∷ []) in
      let two = tagged opts ((a, x) ∷ (b, y) ∷ []) in
      let key = append scan_id (append "\0" (options_key one)) in
      let key_of_two = append scan_id (append "\0" (options_key two)) in
      let same : key ≡ key_of_two =
        ap (λ t. append scan_id (append "\0" t)) (options_key_same opts a x b y h) in
      let c' = (get key (build one) c).1 in
      get_held key_of_two (build two) r c'
        (ap (λ k. lookup k c'.entries) (sym same) ∙ get_leaves key (build one) r c got)
