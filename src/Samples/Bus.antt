-- ===== src/Samples/Bus.antt =====
-- The event bus at concrete inputs.
use sonarr.Common.{ℕ, Text, codes, text_eq, pos, List, [], ◌∷◌, ◌++◌, none, some, ◌≡◌, refl, arith}
use sonarr.Common.Sort.{slice_stable}
use sonarr.Events.{
  Handler, World, register, sync_handler, ordered_handler, async_handler, capacity, run_sync,
  run_async, publish,
}
use sonarr.Events.Registration.{register_all, registered, IsArrangement, registered_correct}
use sonarr.Events.Delivery.{IsDelivered, publish-IsDelivered}
use sonarr.Events.Pool.{InPool, publish-InPool}

-- Handlers that note a number, the event's added, and may fail.
abbrev BusHandler : Type 0
BusHandler = Handler (List ℕ) ℕ ℕ

abbrev BusWorld : Type 0
BusWorld = World (List ℕ) ℕ ℕ

abbrev history_handler : BusHandler
history_handler = sync_handler (λ e s. (s ++ 1 ∷ [], none))

abbrev statistics_handler : BusHandler
statistics_handler = ordered_handler (pos 10) (λ e s. (s ++ 2 ∷ [], none))

abbrev failing_handler : BusHandler
failing_handler = sync_handler (λ e s. (s ++ 3 ∷ [], some e))

abbrev notifier : BusHandler
notifier = async_handler (λ e s. s ++ 4 ∷ [])

abbrev registrations : List (Text × BusHandler)
registrations =
    (codes "added", history_handler)
    ∷ (codes "added", notifier)
    ∷ (codes "added", statistics_handler)
    ∷ (codes "deleted", failing_handler)
    ∷ (codes "added", notifier)
    ∷ []

abbrev idle : BusWorld
idle = record { state = []; in_flight = []; ran = [] }

order_sample :
    register_all registrations (λ _. []) (codes "added")
    ≡ notifier ∷ notifier ∷ statistics_handler ∷ history_handler ∷ []
unfolding register_all register text_eq slice_stable sync_handler ordered_handler async_handler
order_sample = refl

registered_correct_example :
    IsArrangement
      (register_all registrations (λ _. []) (codes "added"))
      (registered (codes "added") registrations)
registered_correct_example = registered_correct (codes "added") registrations

abbrev added_handlers : List BusHandler
added_handlers = notifier ∷ notifier ∷ statistics_handler ∷ history_handler ∷ []

-- One slot: the first notifier takes it, the second runs inline.
publish_sample : (publish (capacity (pos 1)) [] [] added_handlers 9 idle).0.state ≡ 2 ∷ 1 ∷ 4 ∷ []
unfolding publish run_sync run_async capacity sync_handler ordered_handler async_handler
publish_sample = refl

publish-IsDelivered_example :
    IsDelivered
      (λ t. t.handler.async)
      added_handlers
      9
      idle
      (publish 1 [] ((0 ∷ []) ∷ []) added_handlers 9 idle).0
      (publish 1 [] ((0 ∷ []) ∷ []) added_handlers 9 idle).1
publish-IsDelivered_example =
    publish-IsDelivered (λ t. t.handler.async) 1 [] ((0 ∷ []) ∷ []) added_handlers 9 idle

publish-InPool_example : InPool 1 (publish 1 [] [] added_handlers 9 idle).0
publish-InPool_example = publish-InPool 1 [] [] added_handlers 9 idle (omega arith)
