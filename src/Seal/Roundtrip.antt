-- ===== src/Seal/Roundtrip.antt =====
-- A bundle that was sealed verifies.
use fleetsweeper.Common.{
  ◌≡◌, refl, Bool, true, false, ◌||◌, List, [], ◌∷◌, Option, none, some, nat_eq, list_eq,
  list_beq_iff, contains, arith, All, map, Bool-cases, inl, inr,
}
use fleetsweeper.Common.Map.{lookup, insert, lookup-insert}
use fleetsweeper.Seal.{Bytes, Files}
use fleetsweeper.Seal.Manifest.{
  is_reserved, names_of, list_names, digest, body_or_empty, wrong_files, unlisted_files,
}
use fleetsweeper.Seal.Signature.{IsMac}
use fleetsweeper.Seal.Lines.{IsStorable, digest_of, line_of, parse_line-line_of}
use fleetsweeper.Seal.Order.{Distinct}

abbrev pub is_held : Option Bytes → Bool
is_held none = false
is_held (some x) = true

abbrev AllFree : Files → List Bytes → Type 0
AllFree listed ns = All (λ n. lookup n listed ≡ none) ns

free_after :
    (n sum : Bytes) (listed : Files) (ns : List Bytes)
    → contains ns n ≡ false
    → AllFree listed ns
    → AllFree (insert n sum listed) ns
free_after n sum listed [] c h = tt
free_after n sum listed (m ∷ ms) c h = (
  ground (arith, lookup-insert n m sum listed, list_beq_iff n m, list_beq_iff m n, h.0, c),
  free_after n sum listed ms (ground arith) h.1,
)

module _ (sha256 : Bytes → Bytes) where
  wrong_files-insert :
      (n body : Bytes) (listed files : Files)
      → lookup n files ≡ some body
      → wrong_files sha256 listed files ≡ []
      → wrong_files sha256 (insert n (digest sha256 body) listed) files ≡ []
  unfolding wrong_files insert
  wrong_files-insert n body [] files l h =
      ground (arith, l, list_beq_iff (digest sha256 body) (digest sha256 body))
  wrong_files-insert n body ((j, want) ∷ listed) files l h = ground (
    arith,
    l,
    h,
    list_beq_iff j n,
    list_beq_iff (digest sha256 body) (digest sha256 body),
    wrong_files-insert n body listed files l,
  )

pub unlisted-none :
    (listed files : Files)
    → All (λ n. is_held (lookup n listed) ≡ true) (names_of files)
    → unlisted_files listed files ≡ []
unfolding unlisted_files names_of
unlisted-none listed [] h = refl
unlisted-none listed ((j, body) ∷ files) h = elim (Bool-cases (is_reserved j)) [
  | inl e ↦
      let tail : All (λ n. is_held (lookup n listed) ≡ true) (names_of files) = rw e at h in
      ground (arith, e, unlisted-none listed files tail)
  | inr e ↦
      let both : All (λ n. is_held (lookup n listed) ≡ true) (j ∷ names_of files) = rw e at h in
      ground (arith, e, both.0, unlisted-none listed files both.1)
]

module _ (sha256 : Bytes → Bytes) (hashes : (body : Bytes) → IsMac (sha256 body))
    (files target : Files) where
  abbrev line : Bytes → Bytes
  line n = line_of sha256 hashes files n

  -- The name's body stands in the files that are checked.
  abbrev Present : Bytes → Type 0
  Present n = lookup n target ≡ some (body_or_empty (lookup n files))

  -- The manifest's lines are read, what they list is right, and they list every name.
  pub record Reads (ns : List Bytes) (before : Files) : Type 0 where
    pub listed : Files
    pub parsed : list_names (map line ns) before ≡ some listed
    pub right : wrong_files sha256 listed target ≡ []
    pub covers :
        (n : Bytes)
        → contains ns n || is_held (lookup n before) ≡ true
        → is_held (lookup n listed) ≡ true

  pub read_lines :
      (ns : List Bytes) (before : Files)
      → All IsStorable ns
      → All Present ns
      → Distinct ns
      → AllFree before ns
      → wrong_files sha256 before target ≡ []
      → Reads ns before
  unfolding list_names
  read_lines [] before st p d f w = record {
    listed = before;
    parsed = refl;
    right = w;
    covers = λ n h. h;
  }
  read_lines (n ∷ ns) before st p d f w =
      let sum = digest_of sha256 hashes files n in
      let rest =
        read_lines ns (insert n sum before) st.1 p.1 d.1 (free_after n sum before ns d.0 f.1)
          (wrong_files-insert sha256 n (body_or_empty (lookup n files)) before target p.0 w) in
      record {
        listed = rest.listed;
        parsed = ground (arith, parse_line-line_of sha256 hashes files n st.0, f.0, rest.parsed);
        right = rest.right;
        covers = λ x h.
            rest.covers x (ground (arith, lookup-insert n x sum before, list_beq_iff n x, h));
      }
