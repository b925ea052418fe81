-- ===== src/Store/Acks/Listing.antt =====
-- `ListAcks`: which acks it returns, and in which order.
use fleetsweeper.Common.{
  ℕ, ◌≤◌, ◌≡◌, ◌≢◌, refl, sym, ◌∙◌, ap, Bool, true, false, inl, inr, List, [], ◌∷◌, Option, none,
  some, String, if◌then◌else◌, arith, eq_iff, string_eq, leb, ◌==◌, All, Bool-cases,
}
use fleetsweeper.Common.Map.{
  Map, lookup, keep, Fresh, Unique, Fresh-lookup, lookup-keep, Unique-keep,
}
use fleetsweeper.Store.Time.{Time, format}
use fleetsweeper.Store.Sql.{ok, Conn, Healthy}
use fleetsweeper.Store.Acks.{
  AckRecord, AckRow, AckTable, scan_ack_row, is_live, insert_newest, newest_first, list_acks,
}
use fleetsweeper.Store.Acks.View.{visible, view}

-- The entry of a listing for a fingerprint.
unfoldable pub entry : String → List AckRecord → Option AckRecord
entry k [] = none
entry k (r ∷ rest) = if r.fingerprint == k then some r else entry k rest

abbrev pub NewestFirst : List AckRecord → Type 0
NewestFirst [] = Unit
NewestFirst (r ∷ rest) = All (λ s. s.created_at ≤ r.created_at) rest × NewestFirst rest

All-insert_newest :
    (n : ℕ) (r : AckRecord) (l : List AckRecord)
    → r.created_at ≤ n
    → All (λ s. s.created_at ≤ n) l
    → All (λ s. s.created_at ≤ n) (insert_newest r l)
unfolding insert_newest
All-insert_newest n r [] h a = (h, tt)
All-insert_newest n r (s ∷ rest) h a = elim (Bool-cases (leb s.created_at r.created_at)) [
  | inl t ↦ rw t (h, a)
  | inr t ↦ rw t (a.0, All-insert_newest n r rest h a.1)
]

All-le :
    (m n : ℕ) (l : List AckRecord)
    → m ≤ n
    → All (λ s. s.created_at ≤ m) l
    → All (λ s. s.created_at ≤ n) l
All-le m n [] h a = tt
All-le m n (s ∷ rest) h a = (omega (arith, a.0), All-le m n rest h a.1)

insert_newest-NewestFirst :
    (r : AckRecord) (l : List AckRecord) → NewestFirst l → NewestFirst (insert_newest r l)
unfolding insert_newest
insert_newest-NewestFirst r [] h = (tt, tt)
insert_newest-NewestFirst r (s ∷ rest) h = elim (Bool-cases (leb s.created_at r.created_at)) [
  | inl t ↦
      let older : s.created_at ≤ r.created_at = ground arith in
      rw t ((older, All-le s.created_at r.created_at rest older h.0), h)
  | inr t ↦ rw t (
    All-insert_newest s.created_at r rest (ground arith) h.0,
    insert_newest-NewestFirst r rest h.1,
  )
]

newest_first-NewestFirst : (t : AckTable) → NewestFirst (newest_first t)
unfolding newest_first
newest_first-NewestFirst [] = tt
newest_first-NewestFirst ((k, row) ∷ rest) =
    insert_newest-NewestFirst (scan_ack_row k row) (newest_first rest)
      (newest_first-NewestFirst rest)

entry-insert_newest :
    (k : String) (r : AckRecord) (l : List AckRecord)
    → entry r.fingerprint l ≡ none
    → entry k (insert_newest r l) ≡ (if r.fingerprint == k then some r else entry k l)
unfolding entry insert_newest
entry-insert_newest k r [] h = refl
entry-insert_newest k r (s ∷ rest) h = ground (
  arith,
  eq_iff r.fingerprint k,
  eq_iff s.fingerprint k,
  eq_iff s.fingerprint r.fingerprint,
  entry-insert_newest k r rest,
)

-- No fingerprint is listed twice.
abbrev pub Once : List AckRecord → Type 0
Once [] = Unit
Once (r ∷ rest) = (entry r.fingerprint rest ≡ none) × Once rest

insert_newest-Once :
    (r : AckRecord) (l : List AckRecord)
    → entry r.fingerprint l ≡ none
    → Once l
    → Once (insert_newest r l)
unfolding insert_newest entry
insert_newest-Once r [] h o = (refl, tt)
insert_newest-Once r (s ∷ rest) h o =
    let differ : (r.fingerprint == s.fingerprint) ≡ false =
      ground (arith, h, eq_iff s.fingerprint r.fingerprint, eq_iff r.fingerprint s.fingerprint) in
    let later : entry r.fingerprint rest ≡ none = ground (arith, h) in
    elim (Bool-cases (leb s.created_at r.created_at)) [
      | inl t ↦ rw t (h, o)
      | inr t ↦ rw t (
        entry-insert_newest s.fingerprint r rest later ∙ rw differ o.0,
        insert_newest-Once r rest later o.1,
      )
    ]

abbrev scanned : String → Option AckRow → Option AckRecord
scanned k none = none
scanned k (some row) = some (scan_ack_row k row)

entry-newest_first :
    (k : String) (t : AckTable) → Unique t → entry k (newest_first t) ≡ scanned k (lookup k t)
unfolding newest_first lookup entry scan_ack_row
entry-newest_first k [] u = refl
entry-newest_first k ((j, row) ∷ rest) u = ground (
  arith,
  eq_iff j k,
  entry-insert_newest k (scan_ack_row j row) (newest_first rest),
  entry-newest_first j rest u.1,
  entry-newest_first k rest u.1,
  Fresh-lookup j rest u.0,
)

newest_first-Once : (t : AckTable) → Unique t → Once (newest_first t)
unfolding newest_first scan_ack_row
newest_first-Once [] u = tt
newest_first-Once ((j, row) ∷ rest) u =
    insert_newest-Once (scan_ack_row j row) (newest_first rest)
      (entry-newest_first j rest u.1 ∙ ap (scanned j) (Fresh-lookup j rest u.0))
      (newest_first-Once rest u.1)

entry_visible :
    (now : Time) (k : String) (o : Option AckRow)
    → scanned k (fleetsweeper.Common.Map.keep_value (is_live (format now)) k o) ≡ visible now k o
unfolding visible
entry_visible now k none = refl
entry_visible now k (some row) = ground arith

module _ (now : Time) (c : Conn AckTable) (healthy : Healthy c) (u : Unique c.table) where
  -- On a database that does not fail, `ListAcks` returns, newest first and none twice, the acks that cover a
  -- finding now and no other: its one entry for a fingerprint is the one that `GetAck` would return, and it
  -- has none where `GetAck` finds none.
  pub list_acks-view :
      (l : List AckRecord) × ((list_acks now c).0 ≡ ok l)
      × NewestFirst l
      × Once l
      × ((k : String) → entry k l ≡ view now c.table k)
  unfolding list_acks view
  list_acks-view = (
    newest_first live,
    simp healthy,
    newest_first-NewestFirst live,
    newest_first-Once live (Unique-keep (is_live (format now)) c.table u),
    λ k.
        entry-newest_first k live (Unique-keep (is_live (format now)) c.table u)
        ∙ ap (scanned k) (lookup-keep (is_live (format now)) k c.table u)
        ∙ entry_visible now k (lookup k c.table),
  )
    where
      live : AckTable
      live = keep (is_live (format now)) c.table
