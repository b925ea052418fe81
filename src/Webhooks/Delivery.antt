-- ===== src/Webhooks/Delivery.antt =====
-- What the dispatcher delivers over any sequence of scans, whatever the receivers answer.
use fleetsweeper.Common.{
  ◌+◌, ◌≤◌, ◌<◌, ◌≡◌, refl, inl, inr, Bool, true, false, not, ◌&&◌, ◌||◌, List, [], ◌∷◌, none, some,
  String, if◌then◌else◌, ltb, leb, eqb, ◌==◌, string_eq, arith, All, Bool-cases, Option-cases,
}
use fleetsweeper.Common.Map.{Map, lookup, insert, keep, remove, Unique, lookup-keep, Unique-keep}
use fleetsweeper.Store.Time.{Time}
use fleetsweeper.Webhooks.{
  Finding, Subscriber, Attempt, Dispatcher, dedup_ttl, matches, is_recent, gc_expired, dedup_key,
  render_body, send, offer,
}

-- The key of an accepted send is remembered until its six hours are over.
abbrev pub remembered : Time → Map String Time → Attempt → Bool
remembered now m a =
    not a.accepted
    || ltb (a.at + dedup_ttl) now
    || elim (lookup a.key m) [ none ↦ false | some t ↦ leb a.at t ]

-- An accepted send of a key.
abbrev pub delivered_at : String → Time → List Attempt → Bool
delivered_at k t [] = false
delivered_at k t (a ∷ log) = (a.key == k && eqb a.at t && a.accepted) || delivered_at k t log

-- No later attempt has the key of an accepted send less than six hours old.
abbrev pub Apart : Attempt → Attempt → Type 0
Apart later earlier =
    earlier.accepted ≡ true → earlier.key ≡ later.key → earlier.at + dedup_ttl < later.at

abbrev pub Spaced : List Attempt → Type 0
Spaced [] = Unit
Spaced (a ∷ log) = All (Apart a) log × Spaced log

-- What holds of a dispatcher between two sends.
pub record IsValid (now : Time) (d : Dispatcher) : Type 0 where
  pub unique : Unique d.notified
  pub spaced : Spaced d.log
  pub kept : All (λ a. remembered now d.notified a ≡ true) d.log
  pub backed :
      (k : String) → (t : Time) → lookup k d.notified ≡ some t → delivered_at k t d.log ≡ true

-- Every entry left is less than six hours old.
abbrev pub InTime : Time → Dispatcher → Type 0
InTime now d = (k : String) → (t : Time) → lookup k d.notified ≡ some t → now ≤ t + dedup_ttl

pub All-map :
    {P Q : Attempt → Type 0}
    → ((a : Attempt) → P a → Q a)
    → (log : List Attempt) → All P log
    → All Q log
All-map f [] h = tt
All-map f (a ∷ log) h = (f a h.0, All-map f log h.1)

remembered_later :
    (now later : Time) (m : Map String Time) (a : Attempt)
    → now ≤ later
    → Unique m
    → remembered now m a ≡ true
    → remembered later (keep (is_recent later) m) a ≡ true
unfolding is_recent
remembered_later now later m a h u r = ground (arith, lookup-keep (is_recent later) a.key m u)

recent_entry :
    (now : Time) (k : String) (t : Time) (m : Map String Time)
    → Unique m
    → lookup k (keep (is_recent now) m) ≡ some t
    → (lookup k m ≡ some t) × (now ≤ t + dedup_ttl)
unfolding is_recent
recent_entry now k t m u h = ground (arith, lookup-keep (is_recent now) k m u)

pub gc_expired-IsValid :
    (now later : Time) (d : Dispatcher)
    → now ≤ later
    → IsValid now d
    → IsValid later (gc_expired later d)
unfolding gc_expired
gc_expired-IsValid now later d h v = record {
  unique = Unique-keep (is_recent later) d.notified v.unique;
  spaced = v.spaced;
  kept = All-map (λ a r. remembered_later now later d.notified a h v.unique r) d.log v.kept;
  backed = λ k t e. v.backed k t (recent_entry later k t d.notified v.unique e).0;
}

pub gc_expired-InTime :
    (now : Time) (d : Dispatcher) → Unique d.notified → InTime now (gc_expired now d)
unfolding gc_expired
gc_expired-InTime now d u k t e = (recent_entry now k t d.notified u e).1

-- The attempt that a send adds to the log.
pub data Sent (now : Time) (key : String) (d : Dispatcher) (b : Bool) (d' : Dispatcher)
    : Type 0 where
  sent :
      (a : Attempt)
      → a.key ≡ key
      → a.at ≡ now
      → a.accepted ≡ b
      → d'.log ≡ a ∷ d.log
      → d'.notified ≡ d.notified
      → Sent now key d b d'

module _ (marshal : Finding → String) (expand_env : String → String) where
  pub send-Sent :
      (now : Time) (key : String) (s : Subscriber) (f : Finding) (d : Dispatcher)
      → Sent now key d
          (send marshal expand_env now key s f d).0
          (send marshal expand_env now key s f d).1
  unfolding send
  send-Sent now key s f d = elim (Option-cases (render_body marshal expand_env s f)) [
    | inl e ↦ rw (e, send) (sent _ refl refl refl refl refl)
    | inr (body, e) ↦ rw (e, send) (sent _ refl refl refl refl refl)
  ]

module _ (sha256 : String → String) where
  -- The ways an offer of a finding to a subscriber goes.
  pub data Offered (now : Time) (s : Subscriber) (f : Finding) (d d' : Dispatcher) : Type 0 where
    unmatched : matches s f ≡ false → d' ≡ d → Offered now s f d d'
    known :
        (t : Time)
        → lookup (dedup_key sha256 s.name f) d.notified ≡ some t
        → d' ≡ d
        → Offered now s f d d'
    tried :
        (a : Attempt)
        → lookup (dedup_key sha256 s.name f) d.notified ≡ none
        → a.key ≡ dedup_key sha256 s.name f
        → a.at ≡ now
        → d'.log ≡ a ∷ d.log
        → d'.notified ≡ (
            if a.accepted
            then insert a.key now d.notified
            else remove a.key (insert a.key now d.notified))
        → Offered now s f d d'

  after_send :
      (now : Time) (s : Subscriber) (f : Finding) (d : Dispatcher) (b : Bool) (d' : Dispatcher)
      → lookup (dedup_key sha256 s.name f) d.notified ≡ none
      → Sent now
          (dedup_key sha256 s.name f)
          (record d { notified = insert (dedup_key sha256 s.name f) now d.notified })
          b
          d'
      → Offered now s f d (
          if b then d' else record d' { notified = remove (dedup_key sha256 s.name f) d'.notified })
  after_send now s f d b d' n (sent a k t c l m) = tried a n k t (ground arith) (ground arith)

module _ (sha256 : String → String) (marshal : Finding → String)
    (expand_env : String → String) where
  pub offer-Offered :
      (now : Time) (s : Subscriber) (f : Finding) (d : Dispatcher)
      → Offered sha256 now s f d (offer sha256 marshal expand_env now s f d)
  unfolding offer
  offer-Offered now s f d = elim (Bool-cases (matches s f)) [
    | inr e ↦ unmatched e (ground arith)
    | inl e ↦ elim (Option-cases (lookup (dedup_key sha256 s.name f) d.notified)) [
      | inr (t, l) ↦ known t l (ground arith)
      | inl l ↦
          rw (e, l, offer)
            (after_send sha256 now s f d _ _ l (
              send-Sent marshal expand_env now (dedup_key sha256 s.name f) s f
                (record d { notified = insert (dedup_key sha256 s.name f) now d.notified })))
    ]
  ]
