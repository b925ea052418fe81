-- ===== src/Server/AckHandlers/Deletion.antt =====
-- A delete leaves the acknowledgements that are outside an actor's scope.
use fleetsweeper.Common.{
  ◌≡◌, inl, inr, Bool, true, false, List, [], ◌∷◌, some, String, ◌==◌, string_eq, arith, eq_iff,
  refl, sym, ◌∙◌, ap, subst, Bool-cases, Option-cases,
}
use fleetsweeper.Common.Map.{lookup, remove, keep, Unique, lookup-remove, lookup-keep}
use fleetsweeper.Store.Time.{Time, format}
use fleetsweeper.Store.Sql.{
  Result, ok, err, Conn, err_not_found, err_store, err_query, err_duplicate, err_invalid, exec,
  statement, query, ◌>>=◌,
}
use fleetsweeper.Store.Acks.{
  AckRecord, AckRow, AckTable, get_ack, delete_ack, is_live, prune_expired_acks, scan_ack_row,
  or_not_found,
}
use fleetsweeper.Store.Acks.View.{view, visible, view-keep}
use fleetsweeper.Server.Auth.Actors.{Actor}
use fleetsweeper.Server.AckHandlers.{allows_ack_cluster, delete_found, handle_delete_ack, deleted}
use fleetsweeper.Server.AckHandlers.Scoped.{Allowed, Ran, exec-Ran}

-- A table shows what another showed.
abbrev Same : Time → AckTable → AckTable → Type 0
Same now t t' = (k : String) → view now t' k ≡ view now t k

module _ (now : Time) (fp : String) (t : AckTable) (u : Unique t) where
  -- What a read of an ack gives is what the table shows.
  abbrev Got : Result AckRecord × Conn AckTable → Type 0
  Got (ok r, c) = (view now t fp ≡ some r) × Same now t c.table
  Got (err e, c) = Same now t c.table

  pruned : AckTable
  pruned = keep (is_live (format now)) t

  Same-pruned : Same now t pruned
  unfolding pruned
  Same-pruned k = view-keep now now t k (omega arith) u

  -- A row that the pruning left is shown.
  shown-pruned :
      (row : AckRow) → lookup fp pruned ≡ some row → view now pruned fp ≡ some (scan_ack_row fp row)
  unfolding pruned view visible
  shown-pruned row e =
      ground (arith, e, lookup-keep (is_live (format now)) fp t u, Option-cases (lookup fp t))

  or_not_found-Got :
      (fs : List Bool)
      → Got (or_not_found fp (lookup fp pruned) (record { table = pruned; faults = fs }))
  unfolding or_not_found
  or_not_found-Got fs = elim (Option-cases (lookup fp pruned)) [
    | inl e ↦ rw e Same-pruned
    | inr (row, e) ↦ rw e (sym (Same-pruned fp) ∙ shown-pruned row e, Same-pruned)
  ]

  get_ack-Got : (fs : List Bool) → Got (get_ack now fp (record { table = t; faults = fs }))
  unfolding get_ack prune_expired_acks exec query statement ◌>>=◌ pruned
  get_ack-Got [] = or_not_found-Got []
  get_ack-Got (true ∷ fs) = λ k. refl
  get_ack-Got (false ∷ []) = or_not_found-Got []
  get_ack-Got (false ∷ true ∷ fs) = Same-pruned
  get_ack-Got (false ∷ false ∷ fs) = or_not_found-Got fs

view-remove :
    (now : Time) (fp k : String) (t : AckTable)
    → (fp == k) ≡ false
    → view now (remove fp t) k ≡ view now t k
unfolding view
view-remove now fp k t h = ground (arith, lookup-remove fp k t, h)

module _ (actor : Actor) (members : String → List String) (now : Time) where
  -- The acks out of scope are still shown.
  abbrev pub Spared : AckTable → AckTable → Type 0
  Spared t t' =
      (k : String)
      → (r : AckRecord) → view now t k ≡ some r
      → allows_ack_cluster actor members r.cluster ≡ false
      → view now t' k ≡ some r

  Same-Spared : (t t' : AckTable) → Same now t t' → Spared t t'
  Same-Spared t t' s k r e out = s k ∙ e

  removed-Spared :
      (fp : String) (t t' : AckTable) (r0 : AckRecord)
      → view now t fp ≡ some r0
      → Same now t t'
      → Allowed actor members r0.cluster
      → Spared t (remove fp t')
  removed-Spared fp t t' r0 e s a k r e' out = elim (Bool-cases (fp == k)) [
    | inl same ↦
        let both : some r0 ≡ some r = sym e ∙ ap (view now t) ((eq_iff fp k).0 same) ∙ e' in
        let one : r0 ≡ r = ground (arith, both) in
        let clash : true ≡ false =
          sym a ∙ ap (λ x. allows_ack_cluster actor members x.cluster) one ∙ out in
        ground (arith, clash)
    | inr other ↦ view-remove now fp k t' other ∙ s k ∙ e'
  ]

  Ran-Spared :
      (fp : String) (t t' : AckTable) (done : Result (Unit {0}) × Conn AckTable)
      → Spared t (remove fp t')
      → Spared t t'
      → Ran (remove fp) t' done
      → Spared t (deleted actor members now done).1.table
  Ran-Spared fp t t' (ok x, c) gone kept h = subst (Spared t) (sym h) gone
  Ran-Spared fp t t' (err e, c) gone kept h = subst (Spared t) (sym h) kept

  delete_found-Spared :
      (fp : String) (t : AckTable) (u : Unique t) (found : Result AckRecord) (c : Conn AckTable)
      → Got now fp t u (found, c)
      → Spared t (delete_found actor members now fp found c).1.table
  unfolding delete_found delete_ack
  delete_found-Spared fp t u (ok r) c g =
      elim (Bool-cases (allows_ack_cluster actor members r.cluster)) [
        | inl a ↦
            rw (delete_found, a)
              (Ran-Spared fp t c.table (delete_ack fp c) (removed-Spared fp t c.table r g.0 g.1 a)
                (Same-Spared t c.table g.1) (exec-Ran (remove fp) c.table c.faults))
        | inr a ↦ rw (delete_found, a) (Same-Spared t c.table g.1)
      ]
  delete_found-Spared fp t u (err err_store) c g = Same-Spared t c.table g
  delete_found-Spared fp t u (err err_not_found) c g = Same-Spared t c.table g
  delete_found-Spared fp t u (err err_query) c g = Same-Spared t c.table g
  delete_found-Spared fp t u (err err_duplicate) c g = Same-Spared t c.table g
  delete_found-Spared fp t u (err err_invalid) c g = Same-Spared t c.table g

  -- Whatever fingerprint a request deletes, and whatever the database does, every acknowledgement in force whose
  -- cluster the actor may not act on is in force after it.
  pub handle_delete_ack-Spared :
      (fp : String) (c : Conn AckTable)
      → Unique c.table
      → Spared c.table (handle_delete_ack actor members now fp c).1.table
  unfolding handle_delete_ack
  handle_delete_ack-Spared fp c u = elim (Bool-cases (fp == "")) [
    | inl z ↦ rw (handle_delete_ack, z) (Same-Spared c.table c.table (λ k. refl))
    | inr z ↦
        let out = get_ack now fp c in
        rw (handle_delete_ack, z)
          (delete_found-Spared fp c.table u out.0 out.1 (get_ack-Got now fp c.table u c.faults))
  ]
