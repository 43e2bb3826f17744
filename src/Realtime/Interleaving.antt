-- ===== src/Realtime/Interleaving.antt =====
-- internal/realtime/broker.go: Broadcast holds the lock only for its snapshot and Unsubscribe only for
-- the map, so that the rounds of several Broadcasts, the halves of Unsubscribe and the other calls
-- interleave. A goroutine that broadcasts is a number, its job what is left of its snapshot.
pub mod Filters
pub mod Service
use sonarr.Common.{
  ℕ, suc, ◌≤◌, ◌<◌, ltb, ltb→lt, ◌==◌, ==_iff, Text, Bool, true, false, not, List, [], ◌∷◌, ◌++◌,
  Option, none, some, ◌≡◌, refl, sym, ap, arith, inl, inr, Bool-cases, if◌then◌else◌, length,
  length-append, any, All,
}
use sonarr.Realtime.{
  Message, Client, Broker, skips, filter_of, fresh, set_client, new_broker, subscribe,
  delete_client, close_client, drop_first, receive, send, offer,
}

pub record Job (Body : Type 0) : Type 0 where
  pub message : Message Body
  pub pending : List ℕ

pub record World (Body : Type 0) : Type 0 where
  pub broker : Broker Body
  pub job : ℕ → Option (Job Body)

pub data Action (Body : Type 0) : Type 0 where
  join : List Text → Action Body
  remove : ℕ → Action Body
  close : ℕ → Action Body
  begin : ℕ → (List ℕ → List ℕ) → Message Body → Action Body
  visit : ℕ → Action Body
  take : ℕ → Action Body

module _ {Body : Type 0} (buf_size : ℕ) where
  abbrev set_job : ℕ → Option (Job Body) → World Body → World Body
  set_job t o w = record w { job = λ u. if u == t then o else w.job u }

  -- A goroutine that is idle takes its snapshot.
  snapshot : ℕ → List ℕ → Message Body → Option (Job Body) → World Body → World Body
  snapshot t is msg none w = set_job t (some (record { message = msg; pending = is })) w
  snapshot t is msg (some j) w = w

  -- The outcome of one round: a panic ends the loop.
  visited : ℕ → ℕ → Message Body → List ℕ → Option (Client Body) → World Body → World Body
  visited t i msg is none w =
      set_job t none (record w { broker = record w.broker { panicked = true } })
  visited t i msg is (some c) w =
      set_job t (some (record { message = msg; pending = is }))
        (record w { broker = record w.broker { client = set_client i c w.broker.client } })

  round : ℕ → Message Body → List ℕ → World Body → World Body
  unfolding visited
  round t msg [] w = set_job t none w
  round t msg (i ∷ is) w = visited t i msg is (offer buf_size msg (w.broker.client i)) w

  next_round : ℕ → Option (Job Body) → World Body → World Body
  unfolding round
  next_round t none w = w
  next_round t (some j) w = round t j.message j.pending w

  unfoldable pub step : Action Body → World Body → World Body
  unfolding subscribe delete_client close_client receive snapshot next_round
  step (join fs) w = record w { broker = subscribe fs w.broker }
  step (remove i) w = record w { broker = delete_client i w.broker }
  step (close i) w = record w { broker = close_client i w.broker }
  step (begin t walk msg) w = snapshot t (walk w.broker.clients) msg (w.job t) w
  step (visit t) w = next_round t (w.job t) w
  step (take i) w = record w { broker = receive i w.broker }

  unfoldable pub run : List (Action Body) → World Body → World Body
  unfolding step
  run [] w = w
  run (a ∷ acts) w = run acts (step a w)

abbrev pub idle : {Body : Type 0} → World Body
unfolding new_broker
idle = record { broker = new_broker; job = λ _. none }
