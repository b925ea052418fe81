-- ===== src/Server/AckHandlers/Scoped.antt =====
-- No acknowledgement is written or removed outside an actor's scope.
use fleetsweeper.Common.{
  ◌≡◌, inl, inr, Bool, true, false, List, [], ◌∷◌, String, ◌==◌, string_eq, refl, sym, subst,
  Bool-cases,
}
use fleetsweeper.Common.Map.{Map, insert}
use fleetsweeper.Report.{Finding}
use fleetsweeper.Store.Time.{Time, is_zero}
use fleetsweeper.Store.Sql.{Result, ok, err, Conn, exec, statement}
use fleetsweeper.Store.Acks.{AckRecord, AckTable, ack_row, save_ack, with_created_at}
use fleetsweeper.Server.Auth.Actors.{Actor}
use fleetsweeper.Server.AckHandlers.{
  Body, no_body, undecodable, decoded, AckRequest, no_request, Snooze, permanent, unreadable, until,
  Reply, status, created, listing, allows_ack_cluster, fill_ack, saved, store_ack, reply_save_ack,
  base_ack, current_finding, guarded, handle_create_ack, store_error_status,
}

-- A write was made, or refused without a trace.
abbrev pub Ran : {T : Type 0} → (T → T) → T → Result (Unit {0}) × Conn T → Type 0
Ran f t (ok done, c) = c.table ≡ f t
Ran f t (err e, c) = c.table ≡ t

pub exec-Ran :
    {T : Type 0} (f : T → T) (t : T) (fs : List Bool)
    → Ran f t (exec f (record { table = t; faults = fs }))
unfolding exec statement
exec-Ran f t [] = refl
exec-Ran f t (true ∷ fs) = refl
exec-Ran f t (false ∷ fs) = refl

ack_row-with_created_at :
    (now : Time) (r : AckRecord) → r.created_at ≡ now → ack_row (with_created_at now r) ≡ ack_row r
unfolding with_created_at is_zero ack_row
ack_row-with_created_at now r e = elim (Bool-cases (is_zero r.created_at)) [
  | inl z ↦ rw (with_created_at, z, e) refl
  | inr z ↦ rw (with_created_at, z) refl
]

save_ack-Ran :
    (now : Time) (r : AckRecord) (c : Conn AckTable)
    → r.created_at ≡ now
    → Ran (insert r.fingerprint (ack_row r)) c.table (save_ack now r c)
unfolding save_ack
save_ack-Ran now r c e = elim (Bool-cases (r.fingerprint == "")) [
  | inl z ↦ rw (save_ack, z) refl
  | inr z ↦
      rw (save_ack, z, ack_row-with_created_at now r e)
        (exec-Ran (insert r.fingerprint (ack_row r)) c.table c.faults)
]

-- The write of an ack that stands for a base, or none.
abbrev Written : AckRecord → AckTable → Reply × Conn AckTable → Type 0
Written base t (created r, c) =
    (r.fingerprint ≡ base.fingerprint)
    × (r.cluster ≡ base.cluster)
    × (c.table ≡ insert r.fingerprint (ack_row r) t)
Written base t (status n, c) = c.table ≡ t
Written base t (listing rs, c) = c.table ≡ t

saved-Written :
    (base r : AckRecord) (t : AckTable) (done : Result (Unit {0}) × Conn AckTable)
    → r.fingerprint ≡ base.fingerprint
    → r.cluster ≡ base.cluster
    → Ran (insert r.fingerprint (ack_row r)) t done
    → Written base t (saved r done)
saved-Written base r t (ok done, c) f k h = (f, k, h)
saved-Written base r t (err e, c) f k h = h

store_ack-Written :
    (now : Time) (req : AckRequest) (base : AckRecord) (c : Conn AckTable)
    → Written base c.table (store_ack now req base c)
unfolding store_ack fill_ack
store_ack-Written now req base c = cases req.snooze_until refl
  where
    cases : (s : Snooze) → req.snooze_until ≡ s → Written base c.table (store_ack now req base c)
    cases permanent e =
        let r = record base { ack_by = req.ack_by; reason = req.reason; created_at = now } in
        rw (store_ack, fill_ack, e)
          (saved-Written base r c.table (save_ack now r c) refl refl (save_ack-Ran now r c refl))
    cases unreadable e = rw (store_ack, fill_ack, e) refl
    cases (until t) e =
        let r = record base {
          ack_by = req.ack_by;
          reason = req.reason;
          created_at = now;
          snooze_until = t;
        } in
        rw (store_ack, fill_ack, e)
          (saved-Written base r c.table (save_ack now r c) refl refl (save_ack-Ran now r c refl))

reply_save_ack-Written :
    (now : Time) (body : Body) (base : AckRecord) (c : Conn AckTable)
    → Written base c.table (reply_save_ack now body base c)
unfolding reply_save_ack
reply_save_ack-Written now no_body base c = store_ack-Written now no_request base c
reply_save_ack-Written now (undecodable code) base c = refl
reply_save_ack-Written now (decoded req) base c = store_ack-Written now req base c

module _ (actor : Actor) (members : String → List String) where
  abbrev pub Allowed : String → Type 0
  Allowed cluster = allows_ack_cluster actor members cluster ≡ true

  -- What a handler may do to the table: write an ack of which P holds and whose cluster the actor may act on,
  -- or nothing.
  abbrev pub Covered : (AckRecord → Type 0) → AckTable → Reply × Conn AckTable → Type 0
  Covered P t (created r, c) =
      P r × Allowed r.cluster × (c.table ≡ insert r.fingerprint (ack_row r) t)
  Covered P t (status n, c) = c.table ≡ t
  Covered P t (listing rs, c) = c.table ≡ t

  Written-Covered :
      (base : AckRecord) (P : AckRecord → Type 0) (t : AckTable) (out : Reply × Conn AckTable)
      → Allowed base.cluster
      → ((r : AckRecord) → r.fingerprint ≡ base.fingerprint → r.cluster ≡ base.cluster → P r)
      → Written base t out
      → Covered P t out
  Written-Covered base P t (created r, c) a p w =
      (p r w.0 w.1, subst (λ cluster. Allowed cluster) (sym w.1) a, w.2)
  Written-Covered base P t (status n, c) a p w = w
  Written-Covered base P t (listing rs, c) a p w = w

  guarded-Covered :
      (now : Time) (body : Body) (base : AckRecord) (P : AckRecord → Type 0) (c : Conn AckTable)
      → ((r : AckRecord) → r.fingerprint ≡ base.fingerprint → r.cluster ≡ base.cluster → P r)
      → Covered P c.table (guarded actor members now body base c)
  unfolding guarded
  guarded-Covered now body base P c p =
      elim (Bool-cases (allows_ack_cluster actor members base.cluster)) [
        | inl a ↦
            rw (guarded, a)
              (Written-Covered base P c.table (reply_save_ack now body base c) a p
                (reply_save_ack-Written now body base c))
        | inr a ↦ rw (guarded, a) refl
      ]

  -- The ack is of a finding of the report.
  abbrev pub OfFinding : Result (Map String Finding) → String → AckRecord → Type 0
  OfFinding report fp r =
      (r.fingerprint ≡ fp)
      × ((f : Finding) × (current_finding report fp ≡ ok f) × (r.cluster ≡ f.cluster))

  -- Whatever a request to acknowledge a finding carries, and whatever the database does, the table of acks stays
  -- as it is unless the reply is 201, and then the written ack is for the request's fingerprint and has the
  -- cluster of the latest report's finding with that fingerprint, in which the actor may act.
  pub handle_create_ack-Covered :
      (now : Time) (report : Result (Map String Finding)) (fp : String) (body : Body)
      (c : Conn AckTable)
      → Covered (OfFinding report fp) c.table (handle_create_ack actor members now report fp body c)
  unfolding handle_create_ack
  handle_create_ack-Covered now report fp body c = elim (Bool-cases (fp == "")) [
    | inl z ↦ rw (handle_create_ack, z) refl
    | inr z ↦ rw (handle_create_ack, z) (cases (current_finding report fp) refl)
  ]
    where
      cases :
          (found : Result Finding)
          → current_finding report fp ≡ found
          → Covered (OfFinding report fp) c.table (elim found [
            | err e ↦ (status (store_error_status e), c)
            | ok f ↦ guarded actor members now body (base_ack fp f.cluster f.scanner f.title) c
          ])
      cases (err e) same = refl
      cases (ok f) same =
          guarded-Covered now body (base_ack fp f.cluster f.scanner f.title) (OfFinding report fp) c
            (λ r print cluster. (print, (f, same, cluster)))
