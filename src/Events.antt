-- ===== src/Events.antt =====
-- internal/events: events.go and subscribe.go. Handlers act on a shared state; `reflect.Type` is a
-- text. Goroutines of the pool are the tasks in flight, and a schedule tells which of them finish
-- before each handler. The handlers that have run are logged, the oldest first.
pub mod Registration
pub mod Delivery
pub mod Pool
use sonarr.Common.{
  ℕ, zero, suc, Text, text_eq, ℤ, pos, leb_ℤ, ltb_ℤ, ltb, Bool, true, false, List, [], ◌∷◌, ◌++◌,
  Option, none, some, if◌then◌else◌, length, pos_part,
}
use sonarr.Common.Sort.{slice_stable}

-- `handlerEntry`.
pub record Handler (State Event Error : Type 0) : Type 0 where
  pub order : ℤ
  pub async : Bool
  pub fn : Event → State → State × Option Error

pub record Task (State Event Error : Type 0) : Type 0 where
  pub handler : Handler State Event Error
  pub event : Event

pub record World (State Event Error : Type 0) : Type 0 where
  pub state : State
  pub in_flight : List (Task State Event Error)
  pub ran : List (Task State Event Error)

-- The capacity of the pool that `NewBus` makes.
unfoldable pub capacity : ℤ → ℕ
capacity max_async = if leb_ℤ max_async (pos 0) then 16 else pos_part max_async

put_back : {A : Type 0} → A → Option (A × List A) → Option (A × List A)
put_back y none = none
put_back y (some (x, rest)) = some (x, y ∷ rest)

-- The element at a position, and the others.
take_at : {A : Type 0} → ℕ → List A → Option (A × List A)
unfolding put_back
take_at i [] = none
take_at zero (x ∷ xs) = some (x, xs)
take_at (suc i) (x ∷ xs) = put_back x (take_at i xs)

next : List (List ℕ) → List ℕ
next [] = []
next (is ∷ schedule) = is

later : List (List ℕ) → List (List ℕ)
later [] = []
later (is ∷ schedule) = schedule

first_error : {E : Type 0} → Option E → Option E → Option E
first_error none err = err
first_error (some e) err = some e

module _ {State Event Error : Type 0} where
  -- `register`: append, then sort by order.
  unfoldable pub register :
      Text
      → Handler State Event Error
      → (Text → List (Handler State Event Error))
      → Text
      → List (Handler State Event Error)
  register type h handlers t =
      if text_eq t type
      then slice_stable (λ a b. ltb_ℤ a.order b.order) (handlers t ++ h ∷ [])
      else handlers t

  -- SubscribeSync, SubscribeOrdered and SubscribeAsync.
  unfoldable pub sync_handler : (Event → State → State × Option Error) → Handler State Event Error
  sync_handler fn = record { order = pos 100; async = false; fn = fn }

  unfoldable pub ordered_handler :
      ℤ → (Event → State → State × Option Error) → Handler State Event Error
  ordered_handler order fn = record { order = order; async = false; fn = fn }

  unfoldable pub async_handler : (Event → State → State) → Handler State Event Error
  async_handler fn = record { order = pos 0; async = true; fn = λ e s. (fn e s, none) }

  -- A handler's call: the new world and its error.
  call : Task State Event Error → World State Event Error → World State Event Error × Option Error
  call t w =
      let (s, err) = t.handler.fn t.event w.state in
      (record w { state = s; ran = w.ran ++ t ∷ [] }, err)

  finish_found :
      Option (Task State Event Error × List (Task State Event Error))
      → World State Event Error
      → World State Event Error
  unfolding call
  finish_found none w = w
  finish_found (some (t, rest)) w = (call t (record w { in_flight = rest })).0

  -- The goroutine at a position runs and frees its slot; then the others of the schedule.
  settle : List ℕ → World State Event Error → World State Event Error
  unfolding finish_found take_at
  settle [] w = w
  settle (i ∷ is) w = settle is (finish_found (take_at i w.in_flight) w)

  -- The loop over the synchronous handlers.
  unfoldable pub run_sync :
      List (List ℕ)
      → List (Handler State Event Error)
      → Event
      → Option Error
      → World State Event Error
      → World State Event Error × Option Error
  unfolding settle next later first_error call
  run_sync schedule [] e first w = (w, first)
  run_sync schedule (h ∷ hs) e first w =
      let (w', err) = call (record { handler = h; event = e }) (settle (next schedule) w) in
      let skipped = run_sync schedule hs e first w in
      let rest = run_sync (later schedule) hs e (first_error first err) w' in
      if h.async then skipped else rest

  -- A task takes a free slot of the pool, or runs inline.
  start : ℕ → Task State Event Error → World State Event Error → World State Event Error
  unfolding call
  start size t w =
      if ltb (length w.in_flight) size
      then record w { in_flight = w.in_flight ++ t ∷ [] }
      else (call t w).0

  -- The loop over the asynchronous handlers.
  unfoldable pub run_async :
      ℕ
      → List (List ℕ)
      → List (Handler State Event Error)
      → Event
      → World State Event Error
      → World State Event Error
  unfolding settle next later start
  run_async size schedule [] e w = w
  run_async size schedule (h ∷ hs) e w =
      let skipped = run_async size schedule hs e w in
      let rest =
        run_async size (later schedule) hs e
          (start size (record { handler = h; event = e }) (settle (next schedule) w)) in
      if h.async then rest else skipped

  after_sync :
      ℕ
      → List (List ℕ)
      → List (Handler State Event Error)
      → Event
      → World State Event Error × Option Error
      → World State Event Error × Option Error
  unfolding run_async
  after_sync size schedule hs e (w, some err) = (w, some err)
  after_sync size schedule hs e (w, none) = (run_async size schedule hs e w, none)

  unfoldable pub publish :
      ℕ
      → List (List ℕ)
      → List (List ℕ)
      → List (Handler State Event Error)
      → Event
      → World State Event Error
      → World State Event Error × Option Error
  unfolding run_sync after_sync
  publish size sync_schedule async_schedule hs e w =
      after_sync size async_schedule hs e (run_sync sync_schedule hs e none w)
