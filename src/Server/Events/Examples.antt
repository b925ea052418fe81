-- ===== src/Server/Events/Examples.antt =====
-- A run of the event bus, and its theorems at that run.
use fleetsweeper.Common.{◌≡◌, refl, List, [], ◌∷◌, some, String, arith, nat_eq}
use fleetsweeper.Common.Map.{lookup, insert, remove}
use fleetsweeper.Server.Events.{
  EventBus, new_event_bus, make_channel, subscribe, unsubscribe, send_or_drop, receive_one,
  send_to_all, publish, receive_at, receive,
}
use fleetsweeper.Server.Events.Delivery.{
  Action, subscribes, unsubscribes, publishes, receives, act, act_all, Subscribed,
}
use fleetsweeper.Server.Events.Fanout.{
  Brought, BroughtInOrder, act_all-Brought, act_all-BroughtInOrder,
}

-- One subscriber with room for two events.
abbrev one_client : EventBus String
one_client = (subscribe 2 new_event_bus).1

-- Another comes, reads nothing and goes; the first reads one of three events, and drops the last.
abbrev busy : List (Action String)
busy =
    subscribes 1
    ∷ publishes "scan.complete"
    ∷ publishes "key.revoked"
    ∷ publishes "alert.received"
    ∷ receives 1
    ∷ unsubscribes 2
    ∷ []

after_busy :
    lookup 1 (act_all busy one_client).streams
    ≡ some (record { buffer = 2; queue = "key.revoked" ∷ []; taken = "scan.complete" ∷ [] })
unfolding act_all act subscribe unsubscribe send_or_drop receive_one send_to_all publish receive_at
    receive lookup insert remove
after_busy = refl

one_client-Subscribed : Subscribed 1 one_client (make_channel 2)
unfolding subscribe lookup insert
one_client-Subscribed = record { given = omega arith; found = refl }

act_all-BroughtInOrder_example : BroughtInOrder 1 busy one_client (make_channel 2)
act_all-BroughtInOrder_example =
    act_all-BroughtInOrder 1 busy one_client (make_channel 2) one_client-Subscribed
      ((λ e. ground arith), tt)

abbrev calm : List (Action String)
calm = subscribes 1 ∷ publishes "scan.complete" ∷ receives 1 ∷ publishes "key.revoked" ∷ []

act_all-Brought_example :
    Brought 1 calm one_client (make_channel 2) ("scan.complete" ∷ "key.revoked" ∷ [])
act_all-Brought_example =
    act_all-Brought 1 calm one_client (make_channel 2) one_client-Subscribed tt (omega arith)
