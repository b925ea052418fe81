-- ===== src/Server/AlertHandlers/Visible.antt =====
-- Whose alerts a listing shows.
use fleetsweeper.Common.{
  ◌≡◌, ◌≢◌, ◌⊎◌, Bool, true, List, [], ◌∷◌, some, String, arith, Bool-cases, inl, inr, ◌==◌,
  string_eq, eq_iff, All, map, filter,
}
use fleetsweeper.Store.Time.{Time}
use fleetsweeper.Store.Sql.{Result, ok, err, Conn}
use fleetsweeper.Store.ApiKeys.{role_admin, role_operator}
use fleetsweeper.Store.Alerts.{AlertRecord, AlertTable, list_alerts}
use fleetsweeper.Store.Tags.{TagTable}
use fleetsweeper.Server.Auth.Actors.{Actor, allows_cluster}
use fleetsweeper.Server.TagFilter.{parse_tag_filter}
use fleetsweeper.Server.AlertHandlers.{
  sees, filter_alerts_by_actor, filtered, filter_by_tags, passes_tags, AlertQuery, AlertStores,
  AlertsReply, failure, alerts_listed, handle_list_alerts, alerts_found, options_of,
}

-- An alert of the cluster is the actor's to see: an administrator's, an operator's if it names no cluster, or
-- one of a cluster in its scope.
abbrev pub Visible : (String → List String) → Actor → String → Type 0
Visible members a cluster =
    (a.role ≡ role_admin)
    ⊎ (cluster ≡ "") × (a.role ≡ role_operator)
    ⊎ (cluster ≢ "") × (allows_cluster a cluster (some members) ≡ true)

All-filter :
    {A : Type 0} (P : A → Type 0) (p : A → Bool) (xs : List A)
    → ((x : A) → p x ≡ true → P x)
    → All P (filter p xs)
All-filter P p [] h = tt
All-filter P p (x ∷ xs) h = elim (Bool-cases (p x)) [
  | inl t ↦ rw t (h x t, All-filter P p xs h)
  | inr f ↦ rw f (All-filter P p xs h)
]

All-kept :
    {A : Type 0} (P : A → Type 0) (p : A → Bool) (xs : List A) → All P xs → All P (filter p xs)
All-kept P p [] h = tt
All-kept P p (x ∷ xs) h = elim (Bool-cases (p x)) [
  | inl t ↦ rw t (h.0, All-kept P p xs h.1)
  | inr f ↦ rw f (All-kept P p xs h.1)
]

All-map :
    {A B : Type 0} (P : B → Type 0) (f : A → B) (xs : List A)
    → All (λ x. P (f x)) xs
    → All P (map f xs)
All-map P f [] h = tt
All-map P f (x ∷ xs) h = (h.0, All-map P f xs h.1)

for_each : {A : Type 0} (P : A → Type 0) (xs : List A) → ((x : A) → P x) → All P xs
for_each P [] h = tt
for_each P (x ∷ xs) h = (h x, for_each P xs h)

module _ (members : String → List String) (a : Actor) where
  abbrev Shown : AlertRecord → Type 0
  Shown r = Visible members a r.cluster

  sees-Visible : (cluster : String) → sees members a cluster ≡ true → Visible members a cluster
  sees-Visible cluster h = elim (Bool-cases (cluster == "")) [
    | inl e ↦ inr (inl ((eq_iff cluster "").0 e, ground (arith, h, e, eq_iff a.role role_operator)))
    | inr e ↦ inr (inr (ground (arith, e, eq_iff cluster ""), ground (arith, h, e)))
  ]

  filter_alerts_by_actor-Shown :
      (rs : List AlertRecord) → All Shown (filter_alerts_by_actor members (some a) rs)
  unfolding filter_alerts_by_actor
  filter_alerts_by_actor-Shown rs = elim (Bool-cases (a.role == role_admin)) [
    | inl e ↦ rw e (for_each Shown rs (λ r. inl ((eq_iff a.role role_admin).0 e)))
    | inr e ↦
        rw e (All-filter Shown (λ r. sees members a r.cluster) rs (λ r h. sees-Visible r.cluster h))
  ]

  filtered-Shown :
      (rs : List AlertRecord) (p : Result (String → Bool) × Conn TagTable)
      → All Shown rs
      → All Shown (filtered rs p).0
  filtered-Shown rs (ok allows, c) h = All-kept Shown (passes_tags allows) rs h
  filtered-Shown rs (err e, c) h = h

  filter_by_tags-Shown :
      (tags : List String) (rs : List AlertRecord) (c : Conn TagTable)
      → All Shown rs
      → All Shown (filter_by_tags tags rs c).0
  unfolding filter_by_tags
  filter_by_tags-Shown [] rs c h = h
  filter_by_tags-Shown (t ∷ ts) rs c h = filtered-Shown rs (parse_tag_filter (t ∷ ts) c) h

  -- Every alert of a reply is the actor's to see.
  abbrev pub AllShown : AlertsReply → Type 0
  AllShown (failure n) = Unit
  AllShown (alerts_listed views n) = All (λ v. Visible members a v.alert.cluster) views

  alerts_found-AllShown :
      (now : Time) (q : AlertQuery) (s : AlertStores)
      (p : Result (List AlertRecord) × Conn AlertTable)
      → AllShown (alerts_found members now (some a) q s p).0
  unfolding alerts_found
  alerts_found-AllShown now q s (err e, alerts) = tt
  alerts_found-AllShown now q s (ok rs, alerts) =
      All-map (λ v. Visible members a v.alert.cluster) _ _
        (filter_by_tags-Shown q.tags _ s.tags (filter_alerts_by_actor-Shown rs))

  -- Whatever the query asks for and whatever the database refuses, a listing shows an actor only alerts of the
  -- clusters in its scope and, if it is an operator, those of no cluster; an administrator is shown any.
  pub handle_list_alerts-AllShown :
      (now : Time) (q : AlertQuery) (s : AlertStores)
      → AllShown (handle_list_alerts members now (some a) q s).0
  unfolding handle_list_alerts
  handle_list_alerts-AllShown now q s =
      alerts_found-AllShown now q s (list_alerts (options_of q) s.alerts)
