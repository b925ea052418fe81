-- ===== src/Server/AlertHandlers/Bearer.antt =====
-- Who may deliver alerts.
use fleetsweeper.Common.{
  ◌≡◌, ◌≢◌, ◌⊎◌, refl, ap, ◌∙◌, true, false, [], ◌∷◌, ◌++◌, none, some, arith, Bool-cases,
  Option-cases, inl, inr, ◌==◌, list_eq, nat_eq, list_beq_iff, list_beq, eqb,
}
use fleetsweeper.Store.Time.{Time}
use fleetsweeper.Store.Sql.{Conn}
use fleetsweeper.Store.Alerts.{AlertTable}
use fleetsweeper.Server.Auth.Bearer.{Text}
use fleetsweeper.Server.AlertHandlers.{
  AlertBody, WebhookReply, status, accepted, strip_prefix, bearer_prefix, verify_bearer,
  handle_alert_manager_webhook,
}

strip_prefix-append :
    (prefix t rest : Text) → strip_prefix prefix t ≡ some rest → t ≡ prefix ++ rest
unfolding strip_prefix
strip_prefix-append [] t rest h = cc
strip_prefix-append (p ∷ ps) [] rest h = cc
strip_prefix-append (p ∷ ps) (c ∷ cs) rest h = elim (Bool-cases (eqb p c)) [
  | inl t ↦
      let same : c ≡ p = ground (arith, t) in
      let tail : cs ≡ ps ++ rest = strip_prefix-append ps cs rest (rw t at h) in
      rw (same, tail) refl
  | inr f ↦ let never : none ≡ some rest = rw f at h in cc
]

-- The header is the word Bearer, a space and the secret.
verified :
    (header want : Text)
    → verify_bearer header want ≡ true
    → (want ≢ []) × (header ≡ bearer_prefix ++ want)
unfolding verify_bearer list_beq
verified header want h = elim (Bool-cases (want == [])) [
  | inl e ↦ let never : false ≡ true = rw e at h in cc
  | inr e ↦
      let given : want ≢ [] = ground (arith, e, list_beq_iff want []) in
      elim (Option-cases (strip_prefix bearer_prefix header)) [
        | inl n ↦ let never : false ≡ true = rw (e, n) at h in cc
        | inr (got, s) ↦
            let same : got ≡ want = ground (arith, (rw (e, s) at h), list_beq_iff got want) in
            (
              given,
              strip_prefix-append bearer_prefix header got s ∙ ap (λ x. bearer_prefix ++ x) same,
            )
      ]
]

-- A refusal.
abbrev pub Refused : AlertTable → WebhookReply × Conn AlertTable → Type 0
Refused t (status n, c) = c.table ≡ t
Refused t (accepted came n events receiver state, c) = ⊥

-- A delivery that is accepted, or changes the table of alerts, brings the word Bearer, a space and the
-- secret of the webhooks, which is not empty.
pub handle_alert_manager_webhook-Refused :
    (secret header : Text) (now : Time) (body : AlertBody) (c : Conn AlertTable)
    → Refused c.table (handle_alert_manager_webhook secret header now body c)
      ⊎ (secret ≢ []) × (header ≡ bearer_prefix ++ secret)
unfolding handle_alert_manager_webhook
handle_alert_manager_webhook-Refused secret header now body c = elim (Bool-cases (secret == [])) [
  | inl e ↦ inl (rw e refl)
  | inr e ↦ elim (Bool-cases (verify_bearer header secret)) [
    | inl v ↦ inr (verified header secret v)
    | inr v ↦ inl (rw (v, e) refl)
  ]
]
