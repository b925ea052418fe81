-- ===== src/Webhooks/Attempts.antt =====
-- What a dispatch sends to which subscriber: Dispatch and send of internal/webhooks.
use fleetsweeper.Common.{
  ◌<◌, ◌≡◌, ◌↔◌, refl, inl, inr, Bool, true, false, List, [], ◌∷◌, Option, none, some, String,
  if◌then◌else◌, string_eq, arith, AnyOf, Bool-cases, Option-cases,
}
use fleetsweeper.Common.Map.{Map, lookup, insert, remove}
use fleetsweeper.Store.Time.{Time}
use fleetsweeper.Webhooks.{
  Finding, Subscriber, Response, status, failed, Post, Attempt, Dispatcher, matches, is_accepted,
  next_answer, map_values, dedup_key, render_body, send, offer, offer_all, offer_to_all,
}
use fleetsweeper.Webhooks.Exchange.{Exchange, Exchange-none, Exchange-then, Exchange-weaken}

module _ (sha256 : String → String) (marshal : Finding → String) (expand_env : String → String)
    (now : Time) where
  -- A text is the body of a finding for a subscriber: its JSON, or the expanded text of the template.
  abbrev pub IsBody : Option (Finding → Option String) → Finding → String → Type 0
  IsBody none f body = body ≡ marshal f
  IsBody (some execute) f body =
      (text : String) × (execute f ≡ some text) × (body ≡ expand_env text)

  -- The template of a subscriber fails on a finding.
  abbrev pub Unrendered : Option (Finding → Option String) → Finding → Type 0
  Unrendered none f = ⊥
  Unrendered (some execute) f = execute f ≡ none

  abbrev pub Delivers : Response → Type 0
  Delivers failed = ⊥
  Delivers (status n) = n < 300

  abbrev pub request_to : Subscriber → String → Post
  request_to s body = record {
    url = s.url;
    content_type = s.content_type;
    headers = map_values expand_env s.headers;
    body = body;
  }

  -- What an attempt at a subscriber and a finding is: a request to the subscriber's address that is
  -- accepted exactly when the answer's status is below 300, or nothing, where the template fails.
  pub data Told (s : Subscriber) (f : Finding) (a : Attempt) : Type 0 where
    unrendered :
        Unrendered s.tmpl f → a.post ≡ none → a.answer ≡ none → a.accepted ≡ false → Told s f a
    posted :
        (body : String) (r : Response)
        → IsBody s.tmpl f body
        → a.post ≡ some (request_to s body)
        → a.answer ≡ some r
        → (a.accepted ≡ true) ↔ Delivers r
        → Told s f a

  pub record AttemptAt (s : Subscriber) (f : Finding) (a : Attempt) : Type 0 where
    pub wanted : matches s f ≡ true
    pub key : a.key ≡ dedup_key sha256 s.name f
    pub at : a.at ≡ now
    pub told : Told s f a

  accepted-Delivers : (rs : List Response) → (is_accepted rs ≡ true) ↔ Delivers (next_answer rs)
  unfolding is_accepted
  accepted-Delivers [] = (λ e. omega arith, λ h. refl)
  accepted-Delivers (failed ∷ rs) = (λ e. cc, λ h. absurd h)
  accepted-Delivers (status n ∷ rs) = (λ e. ground arith, λ h. ground arith)

  render_body-IsBody :
      (s : Subscriber) (f : Finding) (body : String)
      → render_body marshal expand_env s f ≡ some body
      → IsBody s.tmpl f body
  unfolding render_body
  render_body-IsBody s f body e = elim (Option-cases s.tmpl) [
    | inl t ↦ let made : some (marshal f) ≡ some body = rw (t, render_body) at e in rw t cc
    | inr (execute, t) ↦ elim (Option-cases (execute f)) [
      | inl u ↦ let failed : none ≡ some body = rw (t, u, render_body) at e in cc
      | inr (text, u) ↦
          let made : some (expand_env text) ≡ some body = rw (t, u, render_body) at e in
          rw t (text, u, cc)
    ]
  ]

  render_body-Unrendered :
      (s : Subscriber) (f : Finding)
      → render_body marshal expand_env s f ≡ none
      → Unrendered s.tmpl f
  unfolding render_body
  render_body-Unrendered s f e = elim (Option-cases s.tmpl) [
    | inl t ↦ let made : some (marshal f) ≡ none = rw (t, render_body) at e in cc
    | inr (execute, t) ↦ elim (Option-cases (execute f)) [
      | inl u ↦ rw t u
      | inr (text, u) ↦ let made : some (expand_env text) ≡ none = rw (t, u, render_body) at e in cc
    ]
  ]

  -- The attempt that a send adds.
  pub send-Exchange :
      (s : Subscriber) (f : Finding) (d : Dispatcher)
      → matches s f ≡ true
      → Exchange (AttemptAt s f) d (send marshal expand_env now (dedup_key sha256 s.name f) s f d).1
  unfolding send
  send-Exchange s f d m = elim (Option-cases (render_body marshal expand_env s f)) [
    | inl e ↦
        rw (e, send)
          (record {
            new = _ ∷ [];
            log = refl;
            answers = refl;
            each = (
              record {
                wanted = m;
                key = refl;
                at = refl;
                told = unrendered (render_body-Unrendered s f e) refl refl refl;
              },
              tt,
            );
            answered = (λ r h. cc, tt);
          })
    | inr (body, e) ↦
        rw (e, send)
          (record {
            new = _ ∷ [];
            log = refl;
            answers = refl;
            each = (
              record {
                wanted = m;
                key = refl;
                at = refl;
                told =
                    posted body (next_answer d.responses) (render_body-IsBody s f body e) refl refl
                      (accepted-Delivers d.responses);
              },
              tt,
            );
            answered = (λ r h. cc, tt);
          })
  ]

  after_claim :
      (P : Attempt → Type 0) (d d' : Dispatcher) (m : Map String Time) (key : String) (b : Bool)
      → Exchange P (record d { notified = m }) d'
      → Exchange P d (if b then d' else record d' { notified = remove key d'.notified })
  after_claim P d d' m key true x = record {
    new = x.new;
    log = x.log;
    answers = x.answers;
    each = x.each;
    answered = x.answered;
  }
  after_claim P d d' m key false x = record {
    new = x.new;
    log = x.log;
    answers = x.answers;
    each = x.each;
    answered = x.answered;
  }

  offer-Exchange :
      (s : Subscriber) (f : Finding) (d : Dispatcher)
      → Exchange (AttemptAt s f) d (offer sha256 marshal expand_env now s f d)
  unfolding offer
  offer-Exchange s f d =
      let key = dedup_key sha256 s.name f in
      let claimed = record d { notified = insert key now d.notified } in
      elim (Bool-cases (matches s f)) [
        | inr e ↦ rw (e, offer) (Exchange-none (AttemptAt s f) d)
        | inl m ↦ elim (Option-cases (lookup key d.notified)) [
          | inr (t, e) ↦ rw (m, e, offer) (Exchange-none (AttemptAt s f) d)
          | inl e ↦
              rw (m, e, offer)
                (after_claim (AttemptAt s f) d _ (insert key now d.notified) key _
                  (send-Exchange s f claimed m))
        ]
      ]

  -- An attempt at one of the subscribers and one of the findings.
  abbrev pub OneOf : List Subscriber → List Finding → Attempt → Type 0
  OneOf ss fs a = AnyOf (λ s. AnyOf (λ f. AttemptAt s f a) fs) ss

  offer_all-Exchange :
      (s : Subscriber) (fs : List Finding) (d : Dispatcher)
      → Exchange
          (λ a. AnyOf (λ f. AttemptAt s f a) fs)
          d
          (offer_all sha256 marshal expand_env now s fs d)
  unfolding offer_all
  offer_all-Exchange s [] d = Exchange-none _ d
  offer_all-Exchange s (f ∷ fs) d =
      let d' = offer sha256 marshal expand_env now s f d in
      let P : Attempt → Type 0 = λ a. AnyOf (λ g. AttemptAt s g a) (f ∷ fs) in
      let e = offer_all sha256 marshal expand_env now s fs d' in
      Exchange-then P d d' e
        (Exchange-weaken (AttemptAt s f) P d d' (λ a x. inl x) (offer-Exchange s f d))
        (Exchange-weaken (λ a. AnyOf (λ g. AttemptAt s g a) fs) P d' e (λ a x. inr x)
          (offer_all-Exchange s fs d'))

  pub offer_to_all-Exchange :
      (ss : List Subscriber) (fs : List Finding) (d : Dispatcher)
      → Exchange (OneOf ss fs) d (offer_to_all sha256 marshal expand_env now ss fs d)
  unfolding offer_to_all
  offer_to_all-Exchange [] fs d = Exchange-none _ d
  offer_to_all-Exchange (s ∷ ss) fs d =
      let d' = offer_all sha256 marshal expand_env now s fs d in
      let P = OneOf (s ∷ ss) fs in
      let e = offer_to_all sha256 marshal expand_env now ss fs d' in
      Exchange-then P d d' e
        (Exchange-weaken (λ a. AnyOf (λ g. AttemptAt s g a) fs) P d d' (λ a x. inl x)
          (offer_all-Exchange s fs d))
        (Exchange-weaken (OneOf ss fs) P d' e (λ a x. inr x) (offer_to_all-Exchange ss fs d'))
