-- ===== src/Server/Events/Fanout.antt =====
-- Order and loss on the event bus, under any interleaving of its callers.
use fleetsweeper.Common.{
  ℕ, ◌+◌, ◌≤◌, ◌<◌, ◌≡◌, ◌⊎◌, refl, sym, ap, ◌∙◌, List, [], ◌∷◌, ◌++◌, ◌==◌, nat_eq, length,
  length-append, arith, append_assoc, append-nil, inl, inr, Bool-cases,
}
use fleetsweeper.Server.Events.{Channel, EventBus, send_or_drop}
use fleetsweeper.Server.Events.Delivery.{
  Action, subscribes, unsubscribes, publishes, receives, act, act_all, published, Stays, own,
  Subscribed, act-Subscribed, seen, seen-send, seen-drop, seen-receive_one, length-receive_one,
}

-- The first list's entries stand in the second, in its order.
pub data Among {ℓ} {E : Type ℓ} : List E → List E → Type ℓ where
  done : Among [] []
  keeps : {e : E} {xs ys : List E} → Among xs ys → Among (e ∷ xs) (e ∷ ys)
  skips : {e : E} {xs ys : List E} → Among xs ys → Among xs (e ∷ ys)

module _ {ℓ} {E : Type ℓ} where
  -- What a history has brought a subscriber: in its hands or still in its buffer.
  pub record Brought (id : ℕ) (xs : List (Action E)) (b : EventBus E) (ch : Channel E)
      (events : List E) : Type ℓ where
    pub channel : Channel E
    pub reached : Subscribed id (act_all xs b) channel
    pub all : seen channel ≡ seen ch ++ events

  -- Room for what is still to be published.
  abbrev Room : List (Action E) → Channel E → Type 0
  Room xs ch = length ch.queue + length (published xs) ≤ ch.buffer

  seen-own_receive : (id j : ℕ) (ch : Channel E) → seen (own id (receives j) ch) ≡ seen ch
  seen-own_receive id j ch = elim (Bool-cases (j == id)) [
    | inl e ↦ rw e (seen-receive_one ch)
    | inr e ↦ rw e refl
  ]

  own_receive_shrinks :
      (id j : ℕ) (ch : Channel E)
      → (length (own id (receives j) ch).queue ≤ length ch.queue)
        × ((own id (receives j) ch).buffer ≡ ch.buffer)
  own_receive_shrinks id j ch = ground (arith, length-receive_one ch)

  send_grows :
      (e : E) (ch : Channel E)
      → length ch.queue < ch.buffer
      → (length (send_or_drop e ch).queue ≡ length ch.queue + 1)
        × ((send_or_drop e ch).buffer ≡ ch.buffer)
  unfolding send_or_drop
  send_grows e ch h = ground (arith, length-append ch.queue (e ∷ []), h)

  -- A subscriber that stays gets every event, once and in the order of publication, while the events
  -- published are no more than the free places of its buffer, whoever else subscribes, leaves, reads or
  -- does not.
  pub act_all-Brought :
      (id : ℕ) (xs : List (Action E)) (b : EventBus E) (ch : Channel E)
      → Subscribed id b ch
      → Stays id xs
      → length ch.queue + length (published xs) ≤ ch.buffer
      → Brought id xs b ch (published xs)
  unfolding act_all
  act_all-Brought id [] b ch s st room = record {
    channel = ch;
    reached = s;
    all = sym (append-nil (seen ch));
  }
  act_all-Brought id (subscribes buffer ∷ xs) b ch s st room =
      let rest =
        act_all-Brought id xs (act (subscribes buffer) b) ch
          (act-Subscribed id (subscribes buffer) b ch tt s) st room in
      record { channel = rest.channel; reached = rest.reached; all = rest.all }
  act_all-Brought id (unsubscribes j ∷ xs) b ch s st room =
      let rest =
        act_all-Brought id xs (act (unsubscribes j) b) ch
          (act-Subscribed id (unsubscribes j) b ch (st.0, tt) s) st.1 room in
      record { channel = rest.channel; reached = rest.reached; all = rest.all }
  act_all-Brought id (publishes e ∷ xs) b ch s st room =
      let grown = send_grows e ch (omega (arith, room)) in
      let rest =
        act_all-Brought id xs (act (publishes e) b) (send_or_drop e ch)
          (act-Subscribed id (publishes e) b ch tt s) st (omega (arith, room, grown.0, grown.1)) in
      record {
        channel = rest.channel;
        reached = rest.reached;
        all =
            rest.all
            ∙ ap (λ l. l ++ published xs) (seen-send e ch (omega (arith, room)))
            ∙ append_assoc (seen ch) (e ∷ []) (published xs);
      }
  act_all-Brought id (receives j ∷ xs) b ch s st room =
      let less = own_receive_shrinks id j ch in
      let rest =
        act_all-Brought id xs (act (receives j) b) (own id (receives j) ch)
          (act-Subscribed id (receives j) b ch tt s) st (omega (arith, room, less.0, less.1)) in
      record {
        channel = rest.channel;
        reached = rest.reached;
        all = rest.all ∙ ap (λ l. l ++ published xs) (seen-own_receive id j ch);
      }

  pub record BroughtInOrder (id : ℕ) (xs : List (Action E)) (b : EventBus E) (ch : Channel E)
      : Type ℓ where
    pub events : List E
    pub brought : Brought id xs b ch events
    pub among : Among events (published xs)

  after_drop :
      (id : ℕ) (e : E) (xs : List (Action E)) (b : EventBus E) (ch : Channel E)
      → send_or_drop e ch ≡ ch
      → BroughtInOrder id xs (act (publishes e) b) (send_or_drop e ch)
      → BroughtInOrder id (publishes e ∷ xs) b ch
  unfolding act_all
  after_drop id e xs b ch same rest = record {
    events = rest.events;
    brought = record {
      channel = rest.brought.channel;
      reached = rest.brought.reached;
      all = rest.brought.all ∙ ap (λ c. seen c ++ rest.events) same;
    };
    among = skips rest.among;
  }

  after_send :
      (id : ℕ) (e : E) (xs : List (Action E)) (b : EventBus E) (ch : Channel E)
      → length ch.queue < ch.buffer
      → BroughtInOrder id xs (act (publishes e) b) (send_or_drop e ch)
      → BroughtInOrder id (publishes e ∷ xs) b ch
  unfolding act_all
  after_send id e xs b ch room rest = record {
    events = e ∷ rest.events;
    brought = record {
      channel = rest.brought.channel;
      reached = rest.brought.reached;
      all =
          rest.brought.all
          ∙ ap (λ l. l ++ rest.events) (seen-send e ch room)
          ∙ append_assoc (seen ch) (e ∷ []) rest.events;
    };
    among = keeps rest.among;
  }

  room_or_full : (ch : Channel E) → (length ch.queue < ch.buffer) ⊎ (ch.buffer ≤ length ch.queue)
  room_or_full ch = ground arith

  -- Over any history, what a subscriber that stays has taken or may still take is what it had, followed by
  -- published events in the order of their publication, each at most once.
  pub act_all-BroughtInOrder :
      (id : ℕ) (xs : List (Action E)) (b : EventBus E) (ch : Channel E)
      → Subscribed id b ch
      → Stays id xs
      → BroughtInOrder id xs b ch
  unfolding act_all
  act_all-BroughtInOrder id [] b ch s st = record {
    events = [];
    brought = record { channel = ch; reached = s; all = sym (append-nil (seen ch)) };
    among = done;
  }
  act_all-BroughtInOrder id (subscribes buffer ∷ xs) b ch s st =
      let rest =
        act_all-BroughtInOrder id xs (act (subscribes buffer) b) ch
          (act-Subscribed id (subscribes buffer) b ch tt s) st in
      record {
        events = rest.events;
        brought = record {
          channel = rest.brought.channel;
          reached = rest.brought.reached;
          all = rest.brought.all;
        };
        among = rest.among;
      }
  act_all-BroughtInOrder id (unsubscribes j ∷ xs) b ch s st =
      let rest =
        act_all-BroughtInOrder id xs (act (unsubscribes j) b) ch
          (act-Subscribed id (unsubscribes j) b ch (st.0, tt) s) st.1 in
      record {
        events = rest.events;
        brought = record {
          channel = rest.brought.channel;
          reached = rest.brought.reached;
          all = rest.brought.all;
        };
        among = rest.among;
      }
  act_all-BroughtInOrder id (publishes e ∷ xs) b ch s st =
      let rest =
        act_all-BroughtInOrder id xs (act (publishes e) b) (send_or_drop e ch)
          (act-Subscribed id (publishes e) b ch tt s) st in
      elim (room_or_full ch) [
        | inl room ↦ after_send id e xs b ch room rest
        | inr full ↦ after_drop id e xs b ch (seen-drop e ch full) rest
      ]
  act_all-BroughtInOrder id (receives j ∷ xs) b ch s st =
      let rest =
        act_all-BroughtInOrder id xs (act (receives j) b) (own id (receives j) ch)
          (act-Subscribed id (receives j) b ch tt s) st in
      record {
        events = rest.events;
        brought = record {
          channel = rest.brought.channel;
          reached = rest.brought.reached;
          all = rest.brought.all ∙ ap (λ l. l ++ rest.events) (seen-own_receive id j ch);
        };
        among = rest.among;
      }
