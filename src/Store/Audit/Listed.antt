-- ===== src/Store/Audit/Listed.antt =====
-- What a listing of the audit log shows.
use mathlib.Core.List.{Perm, map-append}
use mathlib.Core.List.Perm
use fleetsweeper.Common.{
  ℕ, ◌≤◌, ◌<◌, ◌≡◌, ◌⊎◌, inl, inr, min, true, List, [], String, leb, string_eq, filter, length, map,
  All, arith, eq_iff, refl, sym, Option-cases, not, ◌++◌,
}
use fleetsweeper.Common.Integers.{ℤ, pos, negsuc, positive_part}
use fleetsweeper.Store.Time.{Time, is_zero}
use fleetsweeper.Store.Sql.{ok, statement, query}
use fleetsweeper.Store.Listing.{
  page_of, NewestFirst, page_of-NewestFirst, length-page_of, NewestFirst-map, length-map, All-map,
  All-filter,
}
use fleetsweeper.Store.Listing.Pages.{
  past_page, filter-perm, page_of-perm, Older, page_of-Older, Older-map, All-page_split,
  length-page_split,
}
use fleetsweeper.Store.Audit.{
  AuditEntry, AuditRow, AuditTable, AuditListOptions, audit_row, scan_audit_row, nullable,
  null_text, audit_matches, limit_of_listing, list_audit_entries,
}

-- An entry that the options ask for.
abbrev pub Asked : AuditListOptions → AuditEntry → Type 0
Asked o e =
    ((o.since ≡ 0) ⊎ (o.since < e.timestamp))
    × ((o.actor_id ≡ "") ⊎ (e.actor_id ≡ o.actor_id))
    × (positive_part o.min_status ≤ e.status)

Status-matches :
    (z : ℤ) (n : ℕ) → elim z [ pos m ↦ leb m n | negsuc m ↦ true ] ≡ true → positive_part z ≤ n
Status-matches (pos m) n h = ground (arith, h)
Status-matches (negsuc m) n h = omega arith

audit_matches-Asked :
    (o : AuditListOptions) (r : AuditRow) → audit_matches o r ≡ true → Asked o (scan_audit_row r)
unfolding audit_matches is_zero scan_audit_row
audit_matches-Asked o r h = elim (Option-cases r.actor_id) [
  | inl e ↦ ground (arith, rw e at h, eq_iff o.actor_id "", Status-matches o.min_status r.status)
  | inr (a, e) ↦ ground (
    arith,
    e,
    rw e at h,
    eq_iff o.actor_id "",
    eq_iff a o.actor_id,
    Status-matches o.min_status r.status,
  )
]

Status-complete :
    (z : ℤ) (n : ℕ) → positive_part z ≤ n → elim z [ pos m ↦ leb m n | negsuc m ↦ true ] ≡ true
Status-complete (pos m) n h = ground (arith, h)
Status-complete (negsuc m) n h = refl

Asked-audit_matches :
    (o : AuditListOptions) (r : AuditRow) → Asked o (scan_audit_row r) → audit_matches o r ≡ true
unfolding audit_matches is_zero scan_audit_row
Asked-audit_matches o r h = elim (Option-cases r.actor_id) [
  | inl e ↦ ground (arith, e, eq_iff o.actor_id "", Status-complete o.min_status r.status h.2)
  | inr (a, e) ↦ ground (
    arith,
    e,
    eq_iff o.actor_id "",
    eq_iff a o.actor_id,
    Status-complete o.min_status r.status h.2,
  )
]

unmatched_of_not :
    (o : AuditListOptions) (r : AuditRow)
    → not (audit_matches o r) ≡ true
    → ¬ (audit_matches o r ≡ true)
unmatched_of_not o r h e = ground (arith, h, e)

-- What a listing of a table is to be: with what it leaves out, the entries that the options ask for,
-- and as many of these as the limit lets in, the newest ones, newest first.
pub record Listed (o : AuditListOptions) (t : AuditTable) (es : List AuditEntry) : Type 0 where
  pub left : List AuditEntry
  pub others : List AuditEntry
  pub from_table : Perm ((es ++ left) ++ others) (map scan_audit_row t)
  pub asked : All (Asked o) (es ++ left)
  pub unasked : All (λ e. ¬ (Asked o e)) others
  pub newest_first : NewestFirst (λ e. e.timestamp) es
  pub left_older : Older (λ e. e.timestamp) es left
  pub full : length es ≡ min (limit_of_listing 100 o.limit) (length (es ++ left))

rows_of_table :
    (o : AuditListOptions) (t : AuditTable) (limit : ℕ)
    → let time : AuditRow → Time = λ r. r.timestamp in
      let rows = filter (audit_matches o) t in
      Perm
        ((map scan_audit_row (page_of time limit rows)
            ++ map scan_audit_row (past_page time limit rows))
          ++ map scan_audit_row (filter (λ r. not (audit_matches o r)) t))
        (map scan_audit_row t)
rows_of_table o t limit =
    let time : AuditRow → Time = λ r. r.timestamp in
    let rows = filter (audit_matches o) t in
    let unmatched = filter (λ r. not (audit_matches o r)) t in
    rw
      (
        sym (map-append scan_audit_row (page_of time limit rows) (past_page time limit rows)),
        sym (
            map-append scan_audit_row (page_of time limit rows ++ past_page time limit rows)
              unmatched),
      )
      (Perm.map scan_audit_row (
        Perm.trans (Perm.append_right unmatched (page_of-perm time limit rows))
          (filter-perm (audit_matches o) t)))

asked_of_rows :
    (o : AuditListOptions) (t : AuditTable) (limit : ℕ)
    → let time : AuditRow → Time = λ r. r.timestamp in
      let rows = filter (audit_matches o) t in
      All (Asked o) (
        map scan_audit_row (page_of time limit rows)
        ++ map scan_audit_row (past_page time limit rows))
asked_of_rows o t limit =
    let time : AuditRow → Time = λ r. r.timestamp in
    let rows = filter (audit_matches o) t in
    rw (sym (map-append scan_audit_row (page_of time limit rows) (past_page time limit rows))) (
      All-map scan_audit_row (λ r. audit_matches o r ≡ true) (Asked o) _
        (λ r h. audit_matches-Asked o r h)
        (All-page_split time (λ r. audit_matches o r ≡ true) limit rows
          (All-filter (audit_matches o) t)))

shown_length :
    (o : AuditListOptions) (t : AuditTable) (limit : ℕ)
    → let time : AuditRow → Time = λ r. r.timestamp in
      let rows = filter (audit_matches o) t in
      length (map scan_audit_row (page_of time limit rows))
      ≡ min limit (
          length (
            map scan_audit_row (page_of time limit rows)
            ++ map scan_audit_row (past_page time limit rows)))
shown_length o t limit =
    let time : AuditRow → Time = λ r. r.timestamp in
    let rows = filter (audit_matches o) t in
    let shown = page_of time limit rows in
    let unshown = past_page time limit rows in
    rw
      (
        sym (map-append scan_audit_row shown unshown),
        length-map scan_audit_row (shown ++ unshown),
        length-map scan_audit_row shown,
        length-page_split time limit rows,
      )
      (length-page_of time limit rows)

-- While the database answers, a listing of the audit log has, newest first, the newest of the entries in
-- the table that the options ask for, each of them once: as many as there are, up to the limit, which is
-- 100 unless the options set one above zero. No entry that is asked for and left out is newer than one
-- that is shown.
pub list_audit_entries-Listed :
    (o : AuditListOptions) (t : AuditTable)
    → (es : List AuditEntry) × (list_audit_entries o (record { table = t; faults = [] })
        ≡ (ok es, record { table = t; faults = [] }))
      × Listed o t es
unfolding list_audit_entries query statement scan_audit_row
list_audit_entries-Listed o t =
    let limit = limit_of_listing 100 o.limit in
    let rows = filter (audit_matches o) t in
    let time : AuditRow → Time = λ r. r.timestamp in
    let at : AuditEntry → Time = λ e. e.timestamp in
    let shown = page_of time limit rows in
    let unshown = past_page time limit rows in
    (
      map scan_audit_row shown,
      refl,
      record {
        left = map scan_audit_row unshown;
        others = map scan_audit_row (filter (λ r. not (audit_matches o r)) t);
        from_table = rows_of_table o t limit;
        asked = asked_of_rows o t limit;
        unasked =
            All-map scan_audit_row (λ r. not (audit_matches o r) ≡ true) (λ e. ¬ (Asked o e)) _
              (λ r h a. absurd (unmatched_of_not o r h (Asked-audit_matches o r a)))
              (All-filter (λ r. not (audit_matches o r)) t);
        newest_first =
            NewestFirst-map scan_audit_row time at (λ r. refl) shown
              (page_of-NewestFirst time limit rows);
        left_older =
            Older-map scan_audit_row time at (λ r. refl) shown unshown
              (page_of-Older time limit rows);
        full = shown_length o t limit;
      },
    )

pub null_text-nullable : (s : String) → null_text (nullable s) ≡ s
unfolding nullable
null_text-nullable s = ground (arith, eq_iff s "")

-- A row is read back as the entry that was written.
scan_audit_row-audit_row : (e : AuditEntry) → scan_audit_row (audit_row e) ≡ e
unfolding scan_audit_row audit_row
scan_audit_row-audit_row e =
    rw
      (
        null_text-nullable e.actor_id,
        null_text-nullable e.actor_name,
        null_text-nullable e.actor_role,
        null_text-nullable e.remote_addr,
        null_text-nullable e.user_agent,
        null_text-nullable e.error,
      )
      refl
