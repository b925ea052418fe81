-- ===== src/Server/Events/Delivery.antt =====
-- What one subscriber of the event bus gets, whatever the others do.
use fleetsweeper.Common.{
  ℕ, ◌+◌, ◌≤◌, ◌<◌, ◌≡◌, ◌≢◌, refl, List, [], ◌∷◌, ◌++◌, some, if◌then◌else◌, ◌==◌, nat_eq, length,
  arith, append_assoc,
}
use fleetsweeper.Common.Map.{Map, lookup, lookup-insert, lookup-remove}
use fleetsweeper.Server.Events.{
  Channel, EventBus, make_channel, send_or_drop, receive_one, subscribe, unsubscribe, send_to_all,
  publish, receive_at, receive,
}

-- A call on the bus by any goroutine.
pub data Action {ℓ} (E : Type ℓ) : Type ℓ where
  subscribes : ℕ → Action E
  unsubscribes : ℕ → Action E
  publishes : E → Action E
  receives : ℕ → Action E

module _ {ℓ} {E : Type ℓ} where
  unfoldable pub act : Action E → EventBus E → EventBus E
  act (subscribes buffer) b = (subscribe buffer b).1
  act (unsubscribes id) b = unsubscribe id b
  act (publishes e) b = publish e b
  act (receives id) b = receive id b

  unfoldable pub act_all : List (Action E) → EventBus E → EventBus E
  act_all [] b = b
  act_all (x ∷ xs) b = act_all xs (act x b)

  -- The events of a history, in the order in which they were published.
  abbrev pub published : List (Action E) → List E
  published [] = []
  published (subscribes buffer ∷ xs) = published xs
  published (unsubscribes id ∷ xs) = published xs
  published (publishes e ∷ xs) = e ∷ published xs
  published (receives id ∷ xs) = published xs

  -- No call of the history ends the subscription.
  abbrev pub Stays : ℕ → List (Action E) → Type 0
  Stays id [] = Unit
  Stays id (unsubscribes j ∷ xs) = (j ≢ id) × Stays id xs
  Stays id (subscribes buffer ∷ xs) = Stays id xs
  Stays id (publishes e ∷ xs) = Stays id xs
  Stays id (receives j ∷ xs) = Stays id xs

  -- A channel's own part in a call.
  abbrev pub own : ℕ → Action E → Channel E → Channel E
  own id (subscribes buffer) ch = ch
  own id (unsubscribes j) ch = ch
  own id (publishes e) ch = send_or_drop e ch
  own id (receives j) ch = if j == id then receive_one ch else ch

  lookup-send_to_all :
      (id : ℕ) (e : E) (m : Map ℕ (Channel E)) (ch : Channel E)
      → lookup id m ≡ some ch
      → lookup id (send_to_all e m) ≡ some (send_or_drop e ch)
  unfolding lookup send_to_all
  lookup-send_to_all id e [] ch h = ground arith
  lookup-send_to_all id e ((j, x) ∷ m) ch h = ground (arith, lookup-send_to_all id e m ch, h)

  lookup-receive_at :
      (id j : ℕ) (m : Map ℕ (Channel E)) (ch : Channel E)
      → lookup id m ≡ some ch
      → lookup id (receive_at j m) ≡ some (if j == id then receive_one ch else ch)
  unfolding lookup receive_at
  lookup-receive_at id j [] ch h = ground arith
  lookup-receive_at id j ((i, x) ∷ m) ch h = ground (arith, lookup-receive_at id j m ch, h)

  -- A subscriber that the bus knows: its id was given out, and it has not left.
  pub record Subscribed (id : ℕ) (b : EventBus E) (ch : Channel E) : Type ℓ where
    pub given : id ≤ b.next_id
    pub found : lookup id b.streams ≡ some ch

  -- A call is to a subscriber what it is to its channel alone.
  pub act-Subscribed :
      (id : ℕ) (x : Action E) (b : EventBus E) (ch : Channel E)
      → Stays id (x ∷ [])
      → Subscribed id b ch
      → Subscribed id (act x b) (own id x ch)
  unfolding act subscribe unsubscribe publish receive
  act-Subscribed id (subscribes buffer) b ch st s = record {
    given = omega (arith, s.given);
    found =
        ground (
          arith,
          s.given,
          s.found,
          lookup-insert (b.next_id + 1) id (make_channel buffer) b.streams,
        );
  }
  act-Subscribed id (unsubscribes j) b ch st s = record {
    given = s.given;
    found = ground (arith, st.0, s.found, lookup-remove j id b.streams);
  }
  act-Subscribed id (publishes e) b ch st s = record {
    given = s.given;
    found = lookup-send_to_all id e b.streams ch s.found;
  }
  act-Subscribed id (receives j) b ch st s = record {
    given = s.given;
    found = lookup-receive_at id j b.streams ch s.found;
  }

  abbrev pub seen : Channel E → List E
  seen ch = ch.taken ++ ch.queue

  pub seen-send :
      (e : E) (ch : Channel E)
      → length ch.queue < ch.buffer
      → seen (send_or_drop e ch) ≡ seen ch ++ e ∷ []
  unfolding send_or_drop
  seen-send e ch h = ground (arith, h, append_assoc ch.taken ch.queue (e ∷ []))

  pub seen-drop : (e : E) (ch : Channel E) → ch.buffer ≤ length ch.queue → send_or_drop e ch ≡ ch
  unfolding send_or_drop
  seen-drop e ch h = ground (arith, h)

  pub seen-receive_one : (ch : Channel E) → seen (receive_one ch) ≡ seen ch
  unfolding receive_one
  seen-receive_one ch = go ch.buffer ch.queue ch.taken
    where
      go :
          (n : ℕ) (q t : List E)
          → seen (receive_one (record { buffer = n; queue = q; taken = t })) ≡ t ++ q
      go n [] t = refl
      go n (e ∷ es) t = append_assoc t (e ∷ []) es

  pub length-receive_one :
      (ch : Channel E)
      → (length (receive_one ch).queue ≤ length ch.queue) × ((receive_one ch).buffer ≡ ch.buffer)
  unfolding receive_one
  length-receive_one ch = ground arith
