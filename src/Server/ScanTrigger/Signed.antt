-- ===== src/Server/ScanTrigger/Signed.antt =====
-- What it takes to start a scan by a webhook.
use fleetsweeper.Common.{
  eqb, ◌++◌, ◌∙◌, ◌≡◌, ◌≢◌, ◌⊎◌, ap, sym, eq_iff, refl, Bool, true, false, List, [], ◌∷◌, Option,
  none, some, String, ◌==◌, string_eq, list_eq, nat_eq, list_beq_iff, arith, Bool-cases,
  Option-cases, inl, inr,
}
use fleetsweeper.Store.Sql.{
  Result, ok, err, err_store, err_not_found, err_query, err_duplicate, err_invalid,
}
use fleetsweeper.Seal.{Bytes, prefix, strip_prefix, hex_decode}
use fleetsweeper.Seal.Hex.{hex_decode-hex_encode}
use fleetsweeper.Seal.Signature.{IsMac}
use fleetsweeper.Server.ScanTrigger.{
  TriggerScanRequest, no_selection, Contexts, contexts, group_missing, no_contexts, resolve_failed,
  Scans, start_background_scan, TriggerReply, status, running, started_reply,
  verify_webhook_signature, sign_webhook_body, start_in, group_contexts, resolve_contexts,
  request_in, trigger_scan, verified_trigger, handle_webhook_scan_trigger,
}

strip_prefix_sound : (ps t rest : Bytes) → strip_prefix ps t ≡ some rest → t ≡ ps ++ rest
unfolding strip_prefix
strip_prefix_sound [] t rest h = cc
strip_prefix_sound (p ∷ ps) [] rest h = cc
strip_prefix_sound (p ∷ ps) (c ∷ cs) rest h = elim (Bool-cases (eqb p c)) [
  | inl t ↦
      let same : c ≡ p = ground (arith, t) in
      let tail : cs ≡ ps ++ rest = strip_prefix_sound ps cs rest (rw t at h) in rw (same, tail) refl
  | inr f ↦ let never : none ≡ some rest = rw f at h in cc
]

-- The signature that `signWebhookBody` makes is accepted for its body and secret.
pub verify_webhook_signature-sign_webhook_body :
    (hmac : Bytes → Bytes → Bytes) (secret body : Bytes)
    → IsMac (hmac secret body)
    → verify_webhook_signature hmac secret (sign_webhook_body hmac secret body) body ≡ true
unfolding verify_webhook_signature sign_webhook_body strip_prefix
verify_webhook_signature-sign_webhook_body hmac secret body mac =
    rw (verify_webhook_signature, hex_decode-hex_encode (hmac secret body) mac.bytes)
      ((list_beq_iff (hmac secret body) (hmac secret body)).1 refl)

-- A scan of selected contexts begins, where none ran.
pub record Begun (selected : List String) (id : String) (s : Scans) (i : String) (s' : Scans)
    : Type 0 where
  pub named : i ≡ id
  pub idle : s.busy ≡ false
  pub some_context : selected ≢ []
  pub left : s' ≡ record { busy = true; started = (id, selected) ∷ s.started }

-- A reply that says a scan runs is as P says, and any other changes nothing.
abbrev pub Only : Scans → (String → Scans → Type 0) → TriggerReply × Scans → Type 0
Only s P (status n, s') = s' ≡ s
Only s P (running i, s') = P i s'

Only-map :
    (s : Scans) (P Q : String → Scans → Type 0) (p : TriggerReply × Scans)
    → ((i : String) → (s' : Scans) → P i s' → Q i s')
    → Only s P p
    → Only s Q p
Only-map s P Q (status n, s') f h = h
Only-map s P Q (running i, s') f h = f i s' h

start-Begun :
    (id c : String) (cs : List String) (s : Scans)
    → Only s (Begun (c ∷ cs) id s) (started_reply (start_background_scan id (c ∷ cs) s))
unfolding start_background_scan
start-Begun id c cs s = elim (Bool-cases s.busy) [
  | inl e ↦ rw e refl
  | inr e ↦ rw e (record { named = refl; idle = refl; some_context = λ h. cc; left = refl })
]

module _ (groups : String → Result (List String)) (kubeconfig : List String → Contexts)
    (demo : Bool) (demo_names : List String) where
  -- What a request selects: its group's clusters; in demo mode, if it names nothing, the demo fleet; else what
  -- the kubeconfig has for the contexts that it names.
  pub data Selects (req : TriggerScanRequest) (cs : List String) : Type 0 where
    by_group : req.group ≢ "" → groups req.group ≡ ok cs → Selects req cs
    by_demo : demo ≡ true → req.group ≡ "" → req.contexts ≡ [] → demo_names ≡ cs → Selects req cs
    by_names :
        req.group ≡ ""
        → (demo ≡ false) ⊎ (req.contexts ≢ [])
        → kubeconfig req.contexts ≡ contexts cs
        → Selects req cs

  group_contexts-ok :
      (r : Result (List String)) (cs : List String) → group_contexts r ≡ contexts cs → r ≡ ok cs
  group_contexts-ok (ok xs) cs h = cc
  group_contexts-ok (err err_store) cs h = cc
  group_contexts-ok (err err_not_found) cs h = cc
  group_contexts-ok (err err_query) cs h = cc
  group_contexts-ok (err err_duplicate) cs h = cc
  group_contexts-ok (err err_invalid) cs h = cc

  resolve_contexts-Selects :
      (req : TriggerScanRequest) (cs : List String)
      → resolve_contexts groups kubeconfig demo demo_names req ≡ contexts cs
      → Selects req cs
  unfolding resolve_contexts
  resolve_contexts-Selects req cs h = elim (Bool-cases (req.group == "")) [
    | inr e ↦
        by_group (ground (arith, e, eq_iff req.group ""))
          (group_contexts-ok (groups req.group) cs (ground (arith, h, e)))
    | inl e ↦
        let none_named : req.group ≡ "" = (eq_iff req.group "").0 e in
        elim (Bool-cases demo) [
          | inr d ↦ by_names none_named (inl d) (ground (arith, h, e, d))
          | inl d ↦ elim (Bool-cases (req.contexts == [])) [
            | inl n ↦
                let shown : contexts demo_names ≡ contexts cs = ground (arith, h, e, d, n) in
                by_demo d none_named ((list_beq_iff req.contexts []).0 n) cc
            | inr n ↦
                by_names none_named (inr (ground (arith, n, list_beq_iff req.contexts [])))
                  (ground (arith, h, e, d, n))
          ]
        ]
  ]

  start_in-Begun :
      (id : String) (found : Contexts) (s : Scans)
      → Only s
          (λ i s'. (cs : List String) × ((found ≡ contexts cs) × Begun cs id s i s'))
          (start_in groups kubeconfig demo demo_names id found s)
  unfolding start_in
  start_in-Begun id group_missing s = refl
  start_in-Begun id no_contexts s = refl
  start_in-Begun id resolve_failed s = refl
  start_in-Begun id (contexts []) s = refl
  start_in-Begun id (contexts (c ∷ cs)) s =
      Only-map s (Begun (c ∷ cs) id s) _ _ (λ i s' h. (c ∷ cs, (refl, h))) (start-Begun id c cs s)

  module _ (hmac : Bytes → Bytes → Bytes) (decode : Bytes → Option TriggerScanRequest) where
    -- The request of a body: an empty one names nothing.
    abbrev pub Asks : Bytes → TriggerScanRequest → Type 0
    Asks [] req = req ≡ no_selection
    Asks (b ∷ bs) req = decode (b ∷ bs) ≡ some req

    request_in-Asks :
        (body : Bytes) (req : TriggerScanRequest)
        → request_in groups kubeconfig demo demo_names hmac decode body ≡ some req
        → Asks body req
    request_in-Asks [] req h = cc
    request_in-Asks (b ∷ bs) req h = h

    -- A scan runs of what the body's request selects.
    pub record Triggered (body : Bytes) (id : String) (s : Scans) (i : String) (s' : Scans)
        : Type 0 where
      pub req : TriggerScanRequest
      pub asks : Asks body req
      pub selected : List String
      pub selects : Selects req selected
      pub begun : Begun selected id s i s'

    trigger_scan-Triggered :
        (id : String) (body : Bytes) (s : Scans)
        → Only s
            (Triggered body id s)
            (trigger_scan groups kubeconfig demo demo_names hmac decode id body s)
    unfolding trigger_scan
    trigger_scan-Triggered id body s =
        elim (Option-cases (request_in groups kubeconfig demo demo_names hmac decode body)) [
          | inl e ↦ rw (trigger_scan, e) refl
          | inr (req, e) ↦
              rw (trigger_scan, e)
                (Only-map s _ (Triggered body id s) _
                  (λ i s' h. record {
                    req = req;
                    asks = request_in-Asks body req e;
                    selected = h.0;
                    selects = resolve_contexts-Selects req h.0 h.1.0;
                    begun = h.1.1;
                  })
                  (start_in-Begun id (resolve_contexts groups kubeconfig demo demo_names req) s))
        ]

    -- The header is `sha256=` and the hexadecimal of the body's HMAC.
    pub record SignatureOf (secret header body : Bytes) : Type 0 where
      pub digits : Bytes
      pub prefixed : header ≡ prefix ++ digits
      pub decoded : hex_decode digits ≡ some (hmac secret body)

    verify_webhook_signature-SignatureOf :
        (secret header body : Bytes)
        → verify_webhook_signature hmac secret header body ≡ true
        → SignatureOf secret header body
    unfolding verify_webhook_signature
    verify_webhook_signature-SignatureOf secret header body h =
        elim (Option-cases (strip_prefix prefix header)) [
          | inl e ↦ let never : false ≡ true = rw (verify_webhook_signature, e) at h in cc
          | inr (digits, e) ↦ elim (Option-cases (hex_decode digits)) [
            | inl f ↦ let never : false ≡ true = rw (verify_webhook_signature, e, f) at h in cc
            | inr (mac, f) ↦
                let same : hmac secret body ≡ mac =
                  (list_beq_iff (hmac secret body) mac).0
                    (rw (verify_webhook_signature, e, f) at h) in
                record {
                  digits = digits;
                  prefixed = strip_prefix_sound prefix header digits e;
                  decoded = f ∙ ap some (sym same);
                }
          ]
        ]

    module _ (secret header : Bytes) (id : String) (s : Scans) where
      pub record SignedScan (body : Option Bytes) (i : String) (s' : Scans) : Type 0 where
        pub some_secret : secret ≢ []
        pub bytes : Bytes
        pub read : body ≡ some bytes
        pub signed : SignatureOf secret header bytes
        pub triggered : Triggered bytes id s i s'

      -- A webhook starts a scan only if a secret is configured, its header is `sha256=` and the hexadecimal of the
      -- body's HMAC under it, no scan runs and the body's request selects some context; then one scan runs, of
      -- what is selected: the group's clusters, in demo mode the demo fleet if nothing is named, and otherwise
      -- what the kubeconfig has for the named contexts. Else nothing changes.
      pub handle_webhook_scan_trigger-SignedScan :
          (body : Option Bytes)
          → Only s (SignedScan body) (
              handle_webhook_scan_trigger groups kubeconfig demo demo_names hmac decode secret
                header id body s)
      unfolding handle_webhook_scan_trigger verified_trigger
      handle_webhook_scan_trigger-SignedScan none = elim (Bool-cases (secret == [])) [
        | inl e ↦ rw e refl
        | inr e ↦ rw e refl
      ]
      handle_webhook_scan_trigger-SignedScan (some bytes) = elim (Bool-cases (secret == [])) [
        | inl e ↦ rw e refl
        | inr e ↦ elim (Bool-cases (verify_webhook_signature hmac secret header bytes)) [
          | inl v ↦
              rw (v, e)
                (Only-map s (Triggered bytes id s) (SignedScan (some bytes)) _
                  (λ i s' h. record {
                    some_secret = ground (arith, e, list_beq_iff secret []);
                    bytes = bytes;
                    read = refl;
                    signed = verify_webhook_signature-SignatureOf secret header bytes v;
                    triggered = h;
                  })
                  (trigger_scan-Triggered id bytes s))
          | inr v ↦ rw (v, e) refl
        ]
      ]
