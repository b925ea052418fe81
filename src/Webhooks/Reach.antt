-- ===== src/Webhooks/Reach.antt =====
-- Every finding that matches reaches its subscriber, and what two subscribers of one name miss.
use fleetsweeper.Common.{
  ◌+◌, ◌≤◌, ◌≡◌, Bool, true, false, ◌||◌, ◌&&◌, List, [], ◌∷◌, none, some, String, if◌then◌else◌,
  leb, eqb, ◌==◌, string_eq, arith, eq_iff, All, sym, ap, ◌∙◌,
}
use fleetsweeper.Common.Map.{lookup, insert, lookup-insert}
use fleetsweeper.Store.Time.{Time}
use fleetsweeper.Webhooks.{
  Finding, Subscriber, Attempt, Dispatcher, dedup_ttl, matches, gc_expired, dedup_key, send, offer,
  offer_all, offer_to_all, dispatch,
}
use fleetsweeper.Webhooks.Delivery.{
  delivered_at, IsValid, Sent, sent, send-Sent, Offered, unmatched, known, tried, offer-Offered,
}
use fleetsweeper.Webhooks.Exchange.{Exchange, Exchange-none}
use fleetsweeper.Webhooks.Attempts.{OneOf, offer_to_all-Exchange}
use fleetsweeper.Webhooks.Spacing.{Holds, Offered-Holds, offer_all-Holds, gc_expired-Holds}

-- The log has a send of the key that was accepted in the last six hours, or one that failed now.
abbrev pub settled : Time → String → List Attempt → Bool
settled now k [] = false
settled now k (a ∷ log) =
    (a.key == k && (if a.accepted then leb now (a.at + dedup_ttl) else eqb a.at now))
    || settled now k log

delivered-settled :
    (now : Time) (k : String) (t : Time) (log : List Attempt)
    → now ≤ t + dedup_ttl
    → delivered_at k t log ≡ true
    → settled now k log ≡ true
delivered-settled now k t [] h e = ground arith
delivered-settled now k t (a ∷ log) h e = ground (arith, delivered-settled now k t log h)

module _ (sha256 : String → String) where
  Offered-settled :
      (now : Time) (s : Subscriber) (f : Finding) (d d' : Dispatcher)
      → Holds now d
      → Offered sha256 now s f d d'
      → matches s f ≡ true
      → settled now (dedup_key sha256 s.name f) d'.log ≡ true
  Offered-settled now s f d d' h (unmatched e i) m = ground arith
  Offered-settled now s f d d' h (known t e i) m = rw i (
      delivered-settled now (dedup_key sha256 s.name f) t d.log
        (h.in_time (dedup_key sha256 s.name f) t e)
        (h.valid.backed (dedup_key sha256 s.name f) t e))
  Offered-settled now s f d d' h (tried a n k t l i) m =
      rw l (ground (arith, k, t, eq_iff a.key (dedup_key sha256 s.name f)))

  -- What is settled stays so: the log only grows.
  Offered-grows :
      (now : Time) (s : Subscriber) (f : Finding) (d d' : Dispatcher) (k : String)
      → Offered sha256 now s f d d'
      → settled now k d.log ≡ true
      → settled now k d'.log ≡ true
  Offered-grows now s f d d' k (unmatched e i) h = rw i h
  Offered-grows now s f d d' k (known t e i) h = rw i h
  Offered-grows now s f d d' k (tried a n key t l i) h = rw l (ground arith)

module _ (sha256 : String → String) (marshal : Finding → String) (expand_env : String → String)
    (now : Time) where
  offer_all_keeps :
      (k : String) (s : Subscriber) (fs : List Finding) (d : Dispatcher)
      → settled now k d.log ≡ true
      → settled now k (offer_all sha256 marshal expand_env now s fs d).log ≡ true
  unfolding offer_all
  offer_all_keeps k s [] d h = h
  offer_all_keeps k s (f ∷ fs) d h =
      let d' = offer sha256 marshal expand_env now s f d in
      offer_all_keeps k s fs d'
        (Offered-grows sha256 now s f d d' k (offer-Offered sha256 marshal expand_env now s f d) h)

  offer_to_all_keeps :
      (k : String) (ss : List Subscriber) (fs : List Finding) (d : Dispatcher)
      → settled now k d.log ≡ true
      → settled now k (offer_to_all sha256 marshal expand_env now ss fs d).log ≡ true
  unfolding offer_to_all
  offer_to_all_keeps k [] fs d h = h
  offer_to_all_keeps k (s ∷ ss) fs d h =
      offer_to_all_keeps k ss fs (offer_all sha256 marshal expand_env now s fs d)
        (offer_all_keeps k s fs d h)

  -- What every matching finding of a subscriber comes to.
  abbrev pub AllSettled : List Attempt → List Finding → Subscriber → Type 0
  AllSettled log fs s =
      All (λ f. matches s f ≡ true → settled now (dedup_key sha256 s.name f) log ≡ true) fs

  All-findings :
      {P Q : Finding → Type 0}
      → ((f : Finding) → P f → Q f)
      → (fs : List Finding) → All P fs
      → All Q fs
  All-findings g [] h = tt
  All-findings g (f ∷ fs) h = (g f h.0, All-findings g fs h.1)

  offer_all-settled :
      (s : Subscriber) (fs : List Finding) (d : Dispatcher)
      → Holds now d
      → AllSettled (offer_all sha256 marshal expand_env now s fs d).log fs s
  unfolding offer_all
  offer_all-settled s [] d h = tt
  offer_all-settled s (f ∷ fs) d h =
      let d' = offer sha256 marshal expand_env now s f d in
      let o = offer-Offered sha256 marshal expand_env now s f d in
      (
        λ m.
            offer_all_keeps (dedup_key sha256 s.name f) s fs d'
              (Offered-settled sha256 now s f d d' h o m),
        offer_all-settled s fs d' (Offered-Holds sha256 marshal expand_env now s f d d' o h),
      )

  offer_to_all-settled :
      (ss : List Subscriber) (fs : List Finding) (d : Dispatcher)
      → Holds now d
      → All (AllSettled (offer_to_all sha256 marshal expand_env now ss fs d).log fs) ss
  unfolding offer_to_all
  offer_to_all-settled [] fs d h = tt
  offer_to_all-settled (s ∷ ss) fs d h =
      let d' = offer_all sha256 marshal expand_env now s fs d in
      (
        All-findings (λ f g m. offer_to_all_keeps (dedup_key sha256 s.name f) ss fs d' (g m)) fs
            (offer_all-settled s fs d h),
        offer_to_all-settled ss fs d' (offer_all-Holds sha256 marshal expand_env now s fs d h),
      )

  after_gc :
      (ss : List Subscriber) (fs : List Finding) (d : Dispatcher)
      → Exchange
          (OneOf sha256 marshal expand_env now ss fs)
          d
          (offer_to_all sha256 marshal expand_env now ss fs (gc_expired now d))
  unfolding gc_expired
  after_gc ss fs d =
      let x = offer_to_all-Exchange sha256 marshal expand_env now ss fs (gc_expired now d) in
      record { new = x.new; log = x.log; answers = x.answers; each = x.each; answered = x.answered }

  -- After a dispatch by a dispatcher in a valid state, every finding that passes a subscriber's filters
  -- has under the subscriber's name a send that was accepted within six hours, or one that this dispatch
  -- tried and that failed. What the dispatch adds to the log is about a subscriber and a finding that
  -- passes its filters, each entry with their key: nothing sent and not accepted, where the template
  -- fails, or else a request to the subscriber's address with its content type, its headers and the
  -- rendered body, which got the receivers' next answer and counts as accepted exactly when that is a
  -- status below 300.
  pub dispatch-AllSettled :
      (earlier : Time) (ss : List Subscriber) (fs : List Finding) (d : Dispatcher)
      → earlier ≤ now
      → IsValid earlier d
      → let d' = dispatch sha256 marshal expand_env now (some ss) fs d in
        All (AllSettled d'.log fs) ss × Exchange (OneOf sha256 marshal expand_env now ss fs) d d'
  unfolding dispatch
  dispatch-AllSettled earlier [] fs d h v =
      (tt, Exchange-none (OneOf sha256 marshal expand_env now [] fs) d)
  dispatch-AllSettled earlier (s ∷ ss) fs d h v = (
    offer_to_all-settled (s ∷ ss) fs (gc_expired now d) (gc_expired-Holds earlier now d h v),
    after_gc (s ∷ ss) fs d,
  )

  offer_known :
      (s : Subscriber) (f : Finding) (d : Dispatcher) (t : Time)
      → lookup (dedup_key sha256 s.name f) d.notified ≡ some t
      → offer sha256 marshal expand_env now s f d ≡ d
  unfolding offer
  offer_known s f d t e = ground arith

  notified_of_Sent :
      (at : Time) (key : String) (d : Dispatcher) (b : Bool) (d' : Dispatcher)
      → Sent at key d b d'
      → d'.notified ≡ d.notified
  notified_of_Sent at key d b d' (sent a k t c l m) = m

  offer_accepted :
      (s : Subscriber) (f : Finding) (d : Dispatcher)
      → matches s f ≡ true
      → lookup (dedup_key sha256 s.name f) d.notified ≡ none
      → (send marshal expand_env now
          (dedup_key sha256 s.name f)
          s
          f
          (record d { notified = insert (dedup_key sha256 s.name f) now d.notified })).0
        ≡ true
      → lookup (dedup_key sha256 s.name f) (offer sha256 marshal expand_env now s f d).notified
        ≡ some now
  unfolding offer
  offer_accepted s f d m n a =
      let key = dedup_key sha256 s.name f in
      let claimed = record d { notified = insert key now d.notified } in
      ground (
        arith,
        notified_of_Sent now key claimed _ _ (send-Sent marshal expand_env now key s f claimed),
        lookup-insert key key now d.notified,
        eq_iff key key,
      )

  -- A finding that one subscriber has just accepted is not offered to another subscriber of the same
  -- name, whatever its address and its filters: their memories are one.
  pub offer_same_name :
      (s other : Subscriber) (f : Finding) (d : Dispatcher)
      → s.name ≡ other.name
      → matches s f ≡ true
      → lookup (dedup_key sha256 s.name f) d.notified ≡ none
      → (send marshal expand_env now
          (dedup_key sha256 s.name f)
          s
          f
          (record d { notified = insert (dedup_key sha256 s.name f) now d.notified })).0
        ≡ true
      → offer sha256 marshal expand_env now other f (offer sha256 marshal expand_env now s f d)
        ≡ offer sha256 marshal expand_env now s f d
  offer_same_name s other f d e m n a =
      offer_known other f (offer sha256 marshal expand_env now s f d) now (
        ap (λ x. lookup (dedup_key sha256 x f) (offer sha256 marshal expand_env now s f d).notified)
          (sym e)
        ∙ offer_accepted s f d m n a)
