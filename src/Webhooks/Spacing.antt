-- ===== src/Webhooks/Spacing.antt =====
-- No receiver is asked twice within six hours about a finding that it has accepted.
use fleetsweeper.Common.{
  ◌+◌, ◌≤◌, ◌≡◌, Bool, true, false, ap, ◌∙◌, ◌&&◌, List, [], ◌∷◌, Option, none, some, String,
  if◌then◌else◌, ◌==◌, string_eq, arith, eq_iff, All, sym, subst,
}
use fleetsweeper.Common.Map.{
  Map, lookup, insert, remove, Unique, lookup-insert, lookup-remove, Unique-insert, Unique-remove,
}
use fleetsweeper.Store.Time.{Time}
use fleetsweeper.Webhooks.{
  Finding, Subscriber, Response, Attempt, Dispatcher, new_dispatcher, dedup_ttl, gc_expired, offer,
  offer_all, offer_to_all, dispatch,
}
use fleetsweeper.Webhooks.Delivery.{
  remembered, delivered_at, Apart, Spaced, IsValid, InTime, All-map, gc_expired-IsValid,
  gc_expired-InTime, Offered, unmatched, known, tried, offer-Offered,
}

-- The memory after an attempt at a key that was free.
abbrev remember : Bool → String → Time → Map String Time → Map String Time
remember b k now m = if b then insert k now m else remove k (insert k now m)

Unique-remember :
    (b : Bool) (k : String) (now : Time) (m : Map String Time)
    → Unique m
    → Unique (remember b k now m)
Unique-remember true k now m u = Unique-insert k now m u
Unique-remember false k now m u = Unique-remove k (insert k now m) (Unique-insert k now m u)

lookup-remember :
    (b : Bool) (k j : String) (now : Time) (m : Map String Time)
    → lookup k m ≡ none
    → lookup j (remember b k now m) ≡ (if b && (k == j) then some now else lookup j m)
lookup-remember true k j now m n = lookup-insert k j now m
lookup-remember false k j now m n =
    ground (arith, lookup-remove k j (insert k now m), lookup-insert k j now m, eq_iff k j)

module _ (a : Attempt) (m : Map String Time) (free : lookup a.key m ≡ none) where
  Apart-if_kept : (e : Attempt) → remembered a.at m e ≡ true → Apart a e
  Apart-if_kept e r c k = ground (arith, free)

  remembered-remember :
      (e : Attempt)
      → remembered a.at m e ≡ true
      → remembered a.at (remember a.accepted a.key a.at m) e ≡ true
  remembered-remember e r =
      ground (arith, lookup-remember a.accepted a.key e.key a.at m free, eq_iff a.key e.key)

  remembered_itself : remembered a.at (remember a.accepted a.key a.at m) a ≡ true
  remembered_itself =
      ground (arith, lookup-remember a.accepted a.key a.key a.at m free, eq_iff a.key a.key)

  backed-remember :
      (log : List Attempt)
      → ((k : String) → (t : Time) → lookup k m ≡ some t → delivered_at k t log ≡ true)
      → (k : String) → (t : Time) → lookup k (remember a.accepted a.key a.at m) ≡ some t
      → delivered_at k t (a ∷ log) ≡ true
  backed-remember log h k t e =
      ground (arith, lookup-remember a.accepted a.key k a.at m free, eq_iff a.key k, h k t)

  in_time-remember :
      ((k : String) → (t : Time) → lookup k m ≡ some t → a.at ≤ t + dedup_ttl)
      → (k : String) → (t : Time) → lookup k (remember a.accepted a.key a.at m) ≡ some t
      → a.at ≤ t + dedup_ttl
  in_time-remember h k t e =
      ground (arith, lookup-remember a.accepted a.key k a.at m free, eq_iff a.key k, h k t)

-- What the offers of one dispatch keep.
pub record Holds (now : Time) (d : Dispatcher) : Type 0 where
  pub valid : IsValid now d
  pub in_time : InTime now d

tried-Holds :
    (a : Attempt) (d d' : Dispatcher)
    → lookup a.key d.notified ≡ none
    → d'.log ≡ a ∷ d.log
    → d'.notified ≡ remember a.accepted a.key a.at d.notified
    → Holds a.at d
    → Holds a.at d'
tried-Holds a d d' n l m h =
    let m0 = d.notified in
    record {
      valid = record {
        unique = rw m (Unique-remember a.accepted a.key a.at m0 h.valid.unique);
        spaced = rw l (All-map (Apart-if_kept a m0 n) d.log h.valid.kept, h.valid.spaced);
        kept = rw l (
            subst (λ x. All (λ e. remembered a.at x e ≡ true) (a ∷ d.log)) (sym m)
              (remembered_itself a m0 n, All-map (remembered-remember a m0 n) d.log h.valid.kept));
        backed = λ k t e.
            rw l (backed-remember a m0 n d.log h.valid.backed k t (sym (ap (lookup k) m) ∙ e));
      };
      in_time = λ k t e. in_time-remember a m0 n h.in_time k t (sym (ap (lookup k) m) ∙ e);
    }

module _ (sha256 : String → String) (marshal : Finding → String)
    (expand_env : String → String) where
  pub Offered-Holds :
      (now : Time) (s : Subscriber) (f : Finding) (d d' : Dispatcher)
      → Offered sha256 now s f d d'
      → Holds now d
      → Holds now d'
  Offered-Holds now s f d d' (unmatched e i) h = rw i h
  Offered-Holds now s f d d' (known t e i) h = rw i h
  Offered-Holds now s f d d' (tried a n k t l m) h =
      subst (λ x. Holds x d') t
        (tried-Holds a d d' (ap (λ x. lookup x d.notified) k ∙ n) l (ground (arith, m, t))
          (subst (λ x. Holds x d) (sym t) h))

  pub offer_all-Holds :
      (now : Time) (s : Subscriber) (fs : List Finding) (d : Dispatcher)
      → Holds now d
      → Holds now (offer_all sha256 marshal expand_env now s fs d)
  unfolding offer_all
  offer_all-Holds now s [] d h = h
  offer_all-Holds now s (f ∷ fs) d h =
      offer_all-Holds now s fs (offer sha256 marshal expand_env now s f d) (
        Offered-Holds now s f d (offer sha256 marshal expand_env now s f d)
          (offer-Offered sha256 marshal expand_env now s f d) h)

  pub offer_to_all-Holds :
      (now : Time) (ss : List Subscriber) (fs : List Finding) (d : Dispatcher)
      → Holds now d
      → Holds now (offer_to_all sha256 marshal expand_env now ss fs d)
  unfolding offer_to_all
  offer_to_all-Holds now [] fs d h = h
  offer_to_all-Holds now (s ∷ ss) fs d h =
      offer_to_all-Holds now ss fs (offer_all sha256 marshal expand_env now s fs d)
        (offer_all-Holds now s fs d h)

pub gc_expired-Holds :
    (now later : Time) (d : Dispatcher)
    → now ≤ later
    → IsValid now d
    → Holds later (gc_expired later d)
gc_expired-Holds now later d h v = record {
  valid = gc_expired-IsValid now later d h v;
  in_time = gc_expired-InTime later d v.unique;
}

pub later-IsValid :
    (now later : Time) (d : Dispatcher) → now ≤ later → IsValid now d → IsValid later d
later-IsValid now later d h v = record {
  unique = v.unique;
  spaced = v.spaced;
  kept = All-map (λ a r. ground (arith, r)) d.log v.kept;
  backed = v.backed;
}

pub new_dispatcher-IsValid : (responses : List Response) → IsValid 0 (new_dispatcher responses)
unfolding lookup
new_dispatcher-IsValid responses = record {
  unique = tt;
  spaced = tt;
  kept = tt;
  backed = λ k t e. ground (arith, e);
}

-- The scans of a server, one after the other, each with its subscribers and findings.
pub record Scan : Type 0 where
  pub at : Time
  pub config : Option (List Subscriber)
  pub findings : List Finding

-- The clock does not go back.
abbrev pub Ascending : Time → List Scan → Type 0
Ascending now [] = Unit
Ascending now (s ∷ ss) = (now ≤ s.at) × Ascending s.at ss

module _ (sha256 : String → String) (marshal : Finding → String)
    (expand_env : String → String) where
  unfoldable pub run : List Scan → Dispatcher → Dispatcher
  run [] d = d
  run (s ∷ ss) d = run ss (dispatch sha256 marshal expand_env s.at s.config s.findings d)

  pub dispatch-IsValid :
      (now later : Time) (config : Option (List Subscriber)) (fs : List Finding) (d : Dispatcher)
      → now ≤ later
      → IsValid now d
      → IsValid later (dispatch sha256 marshal expand_env later config fs d)
  unfolding dispatch
  dispatch-IsValid now later none fs d h v = later-IsValid now later d h v
  dispatch-IsValid now later (some []) fs d h v = later-IsValid now later d h v
  dispatch-IsValid now later (some (s ∷ ss)) fs d h v =
      (offer_to_all-Holds sha256 marshal expand_env later (s ∷ ss) fs (gc_expired later d)
        (gc_expired-Holds now later d h v)).valid

  run-Spaced :
      (now : Time) (scans : List Scan) (d : Dispatcher)
      → Ascending now scans
      → IsValid now d
      → Spaced (run scans d).log
  unfolding run
  run-Spaced now [] d h v = v.spaced
  run-Spaced now (s ∷ ss) d h v =
      run-Spaced s.at ss (dispatch sha256 marshal expand_env s.at s.config s.findings d) h.1
        (dispatch-IsValid now s.at s.config s.findings d h.0 v)

  -- Over any sequence of scans by a clock that does not go back, with any subscribers and whatever the
  -- receivers answer, a subscriber that has accepted a finding is not sent it again, in a request or a
  -- failed attempt at one, until more than six hours have passed.
  pub run_from_start-Spaced :
      (responses : List Response) (scans : List Scan)
      → Ascending 0 scans
      → Spaced (run scans (new_dispatcher responses)).log
  run_from_start-Spaced responses scans h =
      run-Spaced 0 scans (new_dispatcher responses) h (new_dispatcher-IsValid responses)
