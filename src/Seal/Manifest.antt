-- ===== src/Seal/Manifest.antt =====
-- `Manifest` and `CheckManifest` of internal/seal/seal.go.
use fleetsweeper.Common.{
  ℕ, Bool, true, false, not, ◌&&◌, ◌||◌, List, [], ◌∷◌, ◌++◌, Option, none, some, if◌then◌else◌,
  ltb, leb, eqb, ◌==◌, nat_eq, list_eq, length,
}
use fleetsweeper.Common.Map.{lookup, insert}
use fleetsweeper.Seal.{
  Bytes, Files, Problem, missing, altered, unlisted, Result, ok, err, manifest, contents,
  manifest_file, file_name, hex_encode,
}

-- The entries that the manifest leaves out.
abbrev pub is_reserved : Bytes → Bool
is_reserved name = name == manifest_file || name == file_name

unfoldable pub names_of : Files → List Bytes
names_of [] = []
names_of ((name, body) ∷ files) =
    let rest = names_of files in if is_reserved name then rest else name ∷ rest

-- Byte order.
unfoldable pub bytes_le : Bytes → Bytes → Bool
bytes_le [] ys = true
bytes_le (x ∷ xs) [] = false
bytes_le (x ∷ xs) (y ∷ ys) = ltb x y || (eqb x y && bytes_le xs ys)

unfoldable pub insert_name : Bytes → List Bytes → List Bytes
insert_name n [] = n ∷ []
insert_name n (m ∷ ms) =
    let rest = insert_name n ms in if bytes_le n m then n ∷ m ∷ ms else m ∷ rest

unfoldable pub sort_names : List Bytes → List Bytes
sort_names [] = []
sort_names (n ∷ ns) = insert_name n (sort_names ns)

abbrev pub body_or_empty : Option Bytes → Bytes
body_or_empty none = []
body_or_empty (some body) = body

-- `bufio.Scanner`'s lines: the last needs no newline, and one carriage return at an end goes.
abbrev pub push : ℕ → List Bytes → List Bytes
push c [] = (c ∷ []) ∷ []
push c (l ∷ ls) = (c ∷ l) ∷ ls

unfoldable pub split_lines : Bytes → List Bytes
split_lines [] = []
split_lines (c ∷ cs) = let rest = split_lines cs in if eqb c b'\n' then [] ∷ rest else push c rest

unfoldable pub drop_cr : Bytes → Bytes
drop_cr [] = []
drop_cr (c ∷ []) = if eqb c b'\r' then [] else c ∷ []
drop_cr (c ∷ d ∷ cs) = c ∷ drop_cr (d ∷ cs)

abbrev pub starts_with_space : Bytes → Bool
starts_with_space [] = false
starts_with_space (c ∷ cs) = eqb c b' '

abbrev pub drop_one : Bytes → Bytes
drop_one [] = []
drop_one (c ∷ cs) = cs

abbrev pub before : ℕ → Option (Bytes × Bytes) → Option (Bytes × Bytes)
before c none = none
before c (some (l, r)) = some (c ∷ l, r)

-- What stands before and after the first two spaces in a row.
unfoldable pub cut : Bytes → Option (Bytes × Bytes)
cut [] = none
cut (c ∷ cs) =
    let rest = cut cs in
    if eqb c b' ' && starts_with_space cs then some ([], drop_one cs) else before c rest

-- The scanner's buffer.
abbrev pub max_token_size : ℕ
max_token_size = 65_536

-- A line's name and digest.
unfoldable pub parse_line : Bytes → Option (Bytes × Bytes)
unfolding cut drop_cr
parse_line line = if leb max_token_size (length line) then none else elim (cut (drop_cr line)) [
  | none ↦ none
  | some (sum, name) ↦ if name == [] || not (eqb (length sum) 64) then none else some (name, sum)
]

unfoldable pub list_names : List Bytes → Files → Option Files
list_names [] listed = some listed
list_names (line ∷ lines) listed = elim (parse_line line) [
  | none ↦ none
  | some (name, sum) ↦ elim (lookup name listed) [
    | some dup ↦ none
    | none ↦ list_names lines (insert name sum listed)
  ]
]

unfoldable pub unlisted_files : Files → Files → List Problem
unlisted_files listed [] = []
unlisted_files listed ((name, body) ∷ files) =
    let rest = unlisted_files listed files in
    elim (lookup name listed) [
      | some sum ↦ rest
      | none ↦ if is_reserved name then rest else unlisted name ∷ rest
    ]

abbrev pub report : List Problem → Result Unit
report [] = ok tt
report (p ∷ ps) = err (contents (p ∷ ps))

module _ (sha256 : Bytes → Bytes) where
  abbrev pub digest : Bytes → Bytes
  digest body = hex_encode (sha256 body)

  unfoldable pub manifest_line : Files → Bytes → Bytes
  manifest_line files name =
      digest (body_or_empty (lookup name files)) ++ b' ' ∷ b' ' ∷ name ++ b'\n' ∷ []

  abbrev pub manifest_lines : Files → List Bytes → Bytes
  manifest_lines files [] = []
  manifest_lines files (n ∷ ns) = manifest_line files n ++ manifest_lines files ns

  unfoldable pub manifest_of : Files → Bytes
  manifest_of files = manifest_lines files (sort_names (names_of files))

  unfoldable pub wrong_files : Files → Files → List Problem
  wrong_files [] files = []
  wrong_files ((name, want) ∷ listed) files =
      let rest = wrong_files listed files in
      elim (lookup name files) [
        | none ↦ missing name ∷ rest
        | some body ↦ if digest body == want then rest else altered name ∷ rest
      ]

  unfoldable pub check_manifest : Bytes → Files → Result Unit
  check_manifest m files = elim (list_names (split_lines m) []) [
    | none ↦ err manifest
    | some listed ↦ report (wrong_files listed files ++ unlisted_files listed files)
  ]
