-- ===== src/Events/Pool.antt =====
-- The bound on the goroutines of the pool.
use sonarr.Common.{
  ℕ, zero, suc, ◌≤◌, List, [], ◌∷◌, Option, none, some, ◌≡◌, refl, arith, length, length-append,
  ltb, ltb→lt, Bool-cases, inl, inr,
}
use sonarr.Events.{
  Handler, Task, World, call, put_back, take_at, finish_found, settle, next, later, run_sync, start,
  run_async, after_sync, publish,
}

-- Taking an element out leaves one less.
abbrev IsShorter : {A : Type 0} → List A → Option (A × List A) → Type 0
IsShorter xs none = Unit
IsShorter xs (some (x, rest)) = length xs ≡ suc (length rest)

put_back-IsShorter :
    {A : Type 0} (y : A) (xs : List A) (o : Option (A × List A))
    → IsShorter xs o
    → IsShorter (y ∷ xs) (put_back y o)
unfolding put_back
put_back-IsShorter y xs none h = tt
put_back-IsShorter y xs (some (x, rest)) h = omega arith

take_at-IsShorter : {A : Type 0} (i : ℕ) (xs : List A) → IsShorter xs (take_at i xs)
unfolding take_at
take_at-IsShorter i [] = tt
take_at-IsShorter zero (y ∷ xs) = refl
take_at-IsShorter (suc i) (y ∷ xs) = put_back-IsShorter y xs (take_at i xs) (take_at-IsShorter i xs)

module _ {State Event Error : Type 0} (size : ℕ) where
  -- No more tasks are in flight than the pool has slots.
  abbrev pub InPool : World State Event Error → Type 0
  InPool w = length w.in_flight ≤ size

  finish_found-InPool :
      (o : Option (Task State Event Error × List (Task State Event Error)))
      (w : World State Event Error)
      → IsShorter w.in_flight o
      → InPool w
      → InPool (finish_found o w)
  unfolding finish_found call
  finish_found-InPool none w s h = h
  finish_found-InPool (some (t, rest)) w s h = omega arith

  settle-InPool : (is : List ℕ) (w : World State Event Error) → InPool w → InPool (settle is w)
  unfolding settle
  settle-InPool [] w h = h
  settle-InPool (i ∷ is) w h =
      settle-InPool is _
        (finish_found-InPool (take_at i w.in_flight) w (take_at-IsShorter i w.in_flight) h)

  start-InPool :
      (t : Task State Event Error) (w : World State Event Error)
      → InPool w
      → InPool (start size t w)
  unfolding start call
  start-InPool t w h = elim (Bool-cases (ltb (length w.in_flight) size)) [
    | inl e ↦
        simp e
          (omega (arith, length-append w.in_flight (t ∷ []), ltb→lt (length w.in_flight) size e))
    | inr e ↦ simp e h
  ]

  run_sync-InPool :
      (schedule : List (List ℕ)) (hs : List (Handler State Event Error)) (e : Event)
      (first : Option Error) (w : World State Event Error)
      → InPool w
      → InPool (run_sync schedule hs e first w).0
  unfolding run_sync call
  run_sync-InPool schedule [] e first w h = h
  run_sync-InPool schedule (x ∷ hs) e first w h = elim (Bool-cases x.async) [
    | inl a ↦ simp a (run_sync-InPool schedule hs e first w h)
    | inr a ↦ simp a (run_sync-InPool (later schedule) hs e _ _ (settle-InPool (next schedule) w h))
  ]

  run_async-InPool :
      (schedule : List (List ℕ)) (hs : List (Handler State Event Error)) (e : Event)
      (w : World State Event Error)
      → InPool w
      → InPool (run_async size schedule hs e w)
  unfolding run_async
  run_async-InPool schedule [] e w h = h
  run_async-InPool schedule (x ∷ hs) e w h = elim (Bool-cases x.async) [
    | inl a ↦ simp a (
        run_async-InPool (later schedule) hs e _
          (start-InPool (record { handler = x; event = e }) _ (settle-InPool (next schedule) w h)))
    | inr a ↦ simp a (run_async-InPool schedule hs e w h)
  ]

  after_sync-InPool :
      (schedule : List (List ℕ)) (hs : List (Handler State Event Error)) (e : Event)
      (v : World State Event Error) (err : Option Error)
      → InPool v
      → InPool (after_sync size schedule hs e (v, err)).0
  unfolding after_sync
  after_sync-InPool schedule hs e v (some x) h = h
  after_sync-InPool schedule hs e v none h = run_async-InPool schedule hs e v h

  -- A publication never has more handlers in flight than the pool has slots.
  pub publish-InPool :
      (sync_schedule async_schedule : List (List ℕ)) (hs : List (Handler State Event Error))
      (e : Event) (w : World State Event Error)
      → InPool w
      → InPool (publish size sync_schedule async_schedule hs e w).0
  unfolding publish
  publish-InPool sync_schedule async_schedule hs e w h =
      after_sync-InPool async_schedule hs e _ _ (run_sync-InPool sync_schedule hs e none w h)
