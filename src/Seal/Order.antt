-- ===== src/Seal/Order.antt =====
-- The names that a manifest lists: sorting them neither adds nor loses any.
use fleetsweeper.Common.{
  ◌≡◌, refl, ◌∙◌, true, false, ◌||◌, List, [], ◌∷◌, ◌==◌, nat_eq, list_eq, list_beq_iff, contains,
  arith, All, Bool-cases, inl, inr,
}
use fleetsweeper.Common.Map.{insert, Fresh, Unique}
use fleetsweeper.Seal.{Bytes, Files}
use fleetsweeper.Seal.Manifest.{is_reserved, names_of, bytes_le, insert_name, sort_names}

abbrev pub Distinct : List Bytes → Type 0
Distinct [] = Unit
Distinct (n ∷ ns) = (contains ns n ≡ false) × Distinct ns

contains-insert_name :
    (n m : Bytes) (ns : List Bytes) → contains (insert_name n ns) m ≡ n == m || contains ns m
unfolding insert_name
contains-insert_name n m [] = refl
contains-insert_name n m (k ∷ ns) = ground (arith, contains-insert_name n m ns)

pub contains-sort_names : (m : Bytes) (ns : List Bytes) → contains (sort_names ns) m ≡ contains ns m
unfolding sort_names
contains-sort_names m [] = refl
contains-sort_names m (n ∷ ns) =
    ground (arith, contains-insert_name n m (sort_names ns), contains-sort_names m ns)

module _ (P : Bytes → Type 0) where
  All-insert_name : (n : Bytes) (ns : List Bytes) → P n → All P ns → All P (insert_name n ns)
  unfolding insert_name
  All-insert_name n [] p h = (p, tt)
  All-insert_name n (m ∷ ms) p h = elim (Bool-cases (bytes_le n m)) [
    | inl e ↦ rw e (p, h)
    | inr e ↦ rw e (h.0, All-insert_name n ms p h.1)
  ]

  pub All-sort_names : (ns : List Bytes) → All P ns → All P (sort_names ns)
  unfolding sort_names
  All-sort_names [] h = tt
  All-sort_names (n ∷ ns) h = All-insert_name n (sort_names ns) h.0 (All-sort_names ns h.1)

insert_name-Distinct :
    (n : Bytes) (ns : List Bytes)
    → contains ns n ≡ false
    → Distinct ns
    → Distinct (insert_name n ns)
unfolding insert_name
insert_name-Distinct n [] c d = (refl, tt)
insert_name-Distinct n (m ∷ ms) c d = elim (Bool-cases (bytes_le n m)) [
  | inl e ↦ rw e (c, d)
  | inr e ↦ rw e (
    ground (arith, contains-insert_name n m ms, list_beq_iff n m, list_beq_iff m n, d.0, c),
    insert_name-Distinct n ms (ground arith) d.1,
  )
]

pub sort_names-Distinct : (ns : List Bytes) → Distinct ns → Distinct (sort_names ns)
unfolding sort_names
sort_names-Distinct [] d = tt
sort_names-Distinct (n ∷ ns) d =
    insert_name-Distinct n (sort_names ns) (contains-sort_names n ns ∙ d.0)
      (sort_names-Distinct ns d.1)

-- What stands in the files under a name that is listed.
Fresh-name : (n : Bytes) (files : Files) → Fresh n files → contains (names_of files) n ≡ false
unfolding names_of
Fresh-name n [] f = refl
Fresh-name n ((j, body) ∷ files) f = ground (arith, f.0, Fresh-name n files f.1)

pub names_of-Distinct : (files : Files) → Unique files → Distinct (names_of files)
unfolding names_of
names_of-Distinct [] u = tt
names_of-Distinct ((j, body) ∷ files) u = elim (Bool-cases (is_reserved j)) [
  | inl e ↦ rw e (names_of-Distinct files u.1)
  | inr e ↦ rw e (Fresh-name j files u.0, names_of-Distinct files u.1)
]

pub names_of-insert :
    (n body : Bytes) (files : Files)
    → is_reserved n ≡ true
    → names_of (insert n body files) ≡ names_of files
unfolding names_of insert
names_of-insert n body [] r = ground arith
names_of-insert n body ((j, b) ∷ files) r =
    ground (arith, names_of-insert n body files r, list_beq_iff j n)
