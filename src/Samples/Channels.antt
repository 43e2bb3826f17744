-- ===== src/Samples/Channels.antt =====
-- The realtime broker at concrete inputs.
use sonarr.Common.{ℕ, ◌≤◌, All, Text, text_eq, true, List, [], ◌∷◌, ◌≡◌, refl, length}
use sonarr.Realtime.{
  Message, new_broker, msg_series, msg_command, subscribe, unsubscribe, delete_client, close_client,
  receive, drop_first, skips, offer, offer_all, broadcast, series_added, command_failed, label,
  message_for,
}
use sonarr.Realtime.Spec
use sonarr.Realtime.Spec.{IsWalk, Call, spec_new, spec_run}
use sonarr.Realtime.Refinement.{Shows, run_refines}
use sonarr.Realtime.Interleaving
use sonarr.Realtime.Interleaving.{Action, idle}
use sonarr.Realtime.Interleaving.Filters.{joined}
use sonarr.Realtime.Interleaving.Service.{Wanted, run-IsServed}

abbrev added : Message (Text × ℕ)
added = message_for series_added 7

abbrev failed : Message (Text × ℕ)
failed = message_for command_failed 8

-- Two clients, the second for commands only, with room for one message each.
abbrev calls : List (Call (Text × ℕ))
calls =
    Call.join []
    ∷ Call.join (msg_command ∷ [])
    ∷ Call.tell 0 added
    ∷ Call.tell 1 failed
    ∷ Call.take 0
    ∷ Call.leave 0
    ∷ Call.tell 2 failed
    ∷ []

abbrev as_listed : ℕ → List ℕ → List ℕ
as_listed k is = is

as_listed-IsWalk : IsWalk as_listed
as_listed-IsWalk = record { same = λ k is j. refl; once = λ k is h. h }

run_refines_example : Shows (Spec.run 1 as_listed calls new_broker) (spec_run 1 calls spec_new)
run_refines_example = run_refines 1 as_listed as_listed-IsWalk calls

-- The first client has taken the first message and left; the second keeps the one it has room for.
told_sample :
    (length ((Spec.run 1 as_listed calls new_broker).client 0).buffer ≡ 0)
    × (((Spec.run 1 as_listed calls new_broker).client 1).buffer ≡ failed ∷ [])
unfolding new_broker Spec.run Spec.call subscribe unsubscribe delete_client close_client receive
    drop_first broadcast offer_all offer skips message_for label msg_series msg_command text_eq
told_sample = (refl, refl)

-- A client leaves while a broadcast has it before it.
abbrev raced : List (Action (Text × ℕ))
raced =
    Action.join []
    ∷ Action.begin 5 (λ is. is) added
    ∷ Action.remove 0
    ∷ Action.close 0
    ∷ Action.visit 5
    ∷ []

race_sample : (Interleaving.run 1 raced idle).broker.panicked ≡ true
unfolding new_broker Interleaving.run Interleaving.step subscribe delete_client close_client offer
    skips
race_sample = refl

-- The second client wants commands only.
abbrev filtered : List (Action (Text × ℕ))
filtered =
    Action.join []
    ∷ Action.join (msg_command ∷ [])
    ∷ Action.begin 5 (λ is. is) failed
    ∷ Action.begin 6 (λ is. is) added
    ∷ Action.visit 6
    ∷ Action.visit 5
    ∷ []

run-IsServed_example :
    (length ((Interleaving.run 1 filtered idle).broker.client 1).buffer ≤ 1)
    × All
        (λ m. Wanted (msg_command ∷ []) m.name)
        ((Interleaving.run 1 filtered idle).broker.client 1).buffer
unfolding joined
run-IsServed_example = run-IsServed 1 filtered 1 (msg_command ∷ []) refl
