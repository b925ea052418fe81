-- ===== src/Server/Events.antt =====
-- The event bus: eventBus of internal/server/events.go.
-- Each call is one step, since the calls of the program hold the mutex while they touch the streams. A
-- channel also remembers what its consumer has taken from it. Its buffer holds at least one event, as every
-- subscription of the program asks for.
pub mod Delivery
pub mod Fanout
pub mod Examples
use fleetsweeper.Common.{
  ℕ, ◌+◌, ◌≡◌, Bool, true, false, List, [], ◌∷◌, ◌++◌, Option, none, some, if◌then◌else◌, ltb, ◌==◌,
  nat_eq, length,
}
use fleetsweeper.Common.Map.{Map, lookup, insert, remove}

pub record Channel {ℓ} (E : Type ℓ) : Type ℓ where
  pub buffer : ℕ
  pub queue : List E
  pub taken : List E

pub record EventBus {ℓ} (E : Type ℓ) : Type ℓ where
  pub next_id : ℕ
  pub streams : Map ℕ (Channel E)

module _ {ℓ} {E : Type ℓ} where
  abbrev pub new_event_bus : EventBus E
  new_event_bus = record { next_id = 0; streams = [] }

  abbrev pub make_channel : ℕ → Channel E
  make_channel buffer = record { buffer = buffer; queue = []; taken = [] }

  -- A send that does not block: a full buffer drops the event.
  unfoldable pub send_or_drop : E → Channel E → Channel E
  send_or_drop e ch =
      if ltb (length ch.queue) ch.buffer then record ch { queue = ch.queue ++ e ∷ [] } else ch

  -- The consumer's receive; an empty channel makes it wait.
  unfoldable pub receive_one : Channel E → Channel E
  receive_one ch = elim ch.queue [
    | [] ↦ ch
    | e ∷ es ↦ record ch { queue = es; taken = ch.taken ++ e ∷ [] }
  ]

  -- Returns the id that the unsubscribe function closes over.
  unfoldable pub subscribe : ℕ → EventBus E → ℕ × EventBus E
  subscribe buffer b =
      let id = b.next_id + 1 in
      (id, record { next_id = id; streams = insert id (make_channel buffer) b.streams })

  unfoldable pub unsubscribe : ℕ → EventBus E → EventBus E
  unsubscribe id b = record b { streams = remove id b.streams }

  unfoldable pub send_to_all : E → Map ℕ (Channel E) → Map ℕ (Channel E)
  send_to_all e [] = []
  send_to_all e ((id, ch) ∷ m) = (id, send_or_drop e ch) ∷ send_to_all e m

  unfoldable pub publish : E → EventBus E → EventBus E
  publish e b = record b { streams = send_to_all e b.streams }

  unfoldable pub receive_at : ℕ → Map ℕ (Channel E) → Map ℕ (Channel E)
  receive_at id [] = []
  receive_at id ((j, ch) ∷ m) =
      if j == id then (j, receive_one ch) ∷ m else (j, ch) ∷ receive_at id m

  unfoldable pub receive : ℕ → EventBus E → EventBus E
  receive id b = record b { streams = receive_at id b.streams }
