-- ===== src/Events/Delivery.antt =====
-- What a publication delivers: which handlers run or are in flight, and how many at a time.
use sonarr.Common.{
  ℕ, zero, suc, ◌+◌, Bool, true, false, not, List, [], ◌∷◌, ◌++◌, Option, none, some, ◌≡◌, refl,
  arith, length, ltb, if◌then◌else◌, Bool-cases, inl, inr, ◌∙◌,
}
use sonarr.Events.{
  Handler, Task, World, call, put_back, take_at, finish_found, settle, next, later, first_error,
  run_sync, start, run_async, after_sync, publish,
}

unfoldable pub count : {A : Type 0} → (A → Bool) → List A → ℕ
count p [] = 0
count p (x ∷ xs) = let rest = count p xs in if p x then suc rest else rest

count-append :
    {A : Type 0} (p : A → Bool) (xs ys : List A) → count p (xs ++ ys) ≡ count p xs + count p ys
unfolding count
count-append p [] ys = omega arith
count-append p (x ∷ xs) ys = ground (arith, count-append p xs ys)

-- What taking an element out of a list finds.
abbrev Took : {A : Type 0} → (A → Bool) → List A → Option (A × List A) → Type 0
Took p xs none = Unit
Took p xs (some (x, rest)) = count p xs ≡ count p (x ∷ rest)

put_back-Took :
    {A : Type 0} (p : A → Bool) (y : A) (xs : List A) (o : Option (A × List A))
    → Took p xs o
    → Took p (y ∷ xs) (put_back y o)
unfolding put_back count
put_back-Took p y xs none h = tt
put_back-Took p y xs (some (x, rest)) h = ground arith

take_at-Took : {A : Type 0} (p : A → Bool) (i : ℕ) (xs : List A) → Took p xs (take_at i xs)
unfolding take_at
take_at-Took p i [] = tt
take_at-Took p zero (y ∷ xs) = refl
take_at-Took p (suc i) (y ∷ xs) = put_back-Took p y xs (take_at i xs) (take_at-Took p i xs)

module _ {State Event Error : Type 0} where
  -- The tasks of the handlers of one kind.
  unfoldable pub tasks_of :
      Bool → List (Handler State Event Error) → Event → List (Task State Event Error)
  tasks_of async [] e = []
  tasks_of async (h ∷ hs) e =
      let rest = tasks_of async hs e in
      if (if h.async then async else not async)
      then record { handler = h; event = e } ∷ rest
      else rest

  module _ (p : Task State Event Error → Bool) where
    -- How many tasks have run or are in flight.
    abbrev pub total : World State Event Error → ℕ
    total w = count p w.ran + count p w.in_flight

    call-total :
        (t : Task State Event Error) (w : World State Event Error)
        → total (call t w).0 ≡ total w + count p (t ∷ [])
    unfolding call
    call-total t w = omega (arith, count-append p w.ran (t ∷ []))

    finish_found-total :
        (o : Option (Task State Event Error × List (Task State Event Error)))
        (w : World State Event Error)
        → Took p w.in_flight o
        → total (finish_found o w) ≡ total w
    unfolding finish_found count
    finish_found-total none w h = refl
    finish_found-total (some (t, rest)) w h =
        ground (arith, call-total t (record w { in_flight = rest }))

    settle-total : (is : List ℕ) (w : World State Event Error) → total (settle is w) ≡ total w
    unfolding settle
    settle-total [] w = refl
    settle-total (i ∷ is) w =
        let v = finish_found (take_at i w.in_flight) w in
        settle-total is v
        ∙ finish_found-total (take_at i w.in_flight) w (take_at-Took p i w.in_flight)

    start-total :
        (size : ℕ) (t : Task State Event Error) (w : World State Event Error)
        → total (start size t w) ≡ total w + count p (t ∷ [])
    unfolding start
    start-total size t w = elim (Bool-cases (ltb (length w.in_flight) size)) [
      | inl e ↦ rw e (omega (arith, count-append p w.in_flight (t ∷ [])))
      | inr e ↦ rw e (call-total t w)
    ]

    run_sync-total :
        (schedule : List (List ℕ)) (hs : List (Handler State Event Error)) (e : Event)
        (first : Option Error) (w : World State Event Error)
        → total (run_sync schedule hs e first w).0 ≡ total w + count p (tasks_of false hs e)
    unfolding run_sync tasks_of count call
    run_sync-total schedule [] e first w = omega arith
    run_sync-total schedule (h ∷ hs) e first w =
        let v = settle (next schedule) w in
        elim (Bool-cases h.async) [
          | inl a ↦ simp a (run_sync-total schedule hs e first w)
          | inr a ↦ simp a (
              ground (
                arith,
                run_sync-total (later schedule) hs e (first_error first (h.fn e v.state).1)
                    (call (record { handler = h; event = e }) v).0,
                call-total (record { handler = h; event = e }) v,
                settle-total (next schedule) w,
              ))
        ]

    run_async-total :
        (size : ℕ) (schedule : List (List ℕ)) (hs : List (Handler State Event Error)) (e : Event)
        (w : World State Event Error)
        → total (run_async size schedule hs e w) ≡ total w + count p (tasks_of true hs e)
    unfolding run_async tasks_of count call start
    run_async-total size schedule [] e w = omega arith
    run_async-total size schedule (h ∷ hs) e w =
        let v = settle (next schedule) w in
        elim (Bool-cases h.async) [
          | inl a ↦ simp a (
              ground (
                arith,
                run_async-total size (later schedule) hs e
                    (start size (record { handler = h; event = e }) v),
                start-total size (record { handler = h; event = e }) v,
                settle-total (next schedule) w,
              ))
          | inr a ↦ simp a (run_async-total size schedule hs e w)
        ]

    -- What is delivered with each result.
    abbrev pub IsDelivered :
        List (Handler State Event Error)
        → Event
        → World State Event Error
        → World State Event Error
        → Option Error
        → Type 0
    IsDelivered hs e w w' none =
        total w' ≡ total w + count p (tasks_of false hs e) + count p (tasks_of true hs e)
    IsDelivered hs e w w' (some x) = total w' ≡ total w + count p (tasks_of false hs e)

    after_sync-IsDelivered :
        (size : ℕ) (schedule : List (List ℕ)) (hs : List (Handler State Event Error)) (e : Event)
        (w v : World State Event Error) (err : Option Error)
        → total v ≡ total w + count p (tasks_of false hs e)
        → IsDelivered hs e w
            (after_sync size schedule hs e (v, err)).0
            (after_sync size schedule hs e (v, err)).1
    unfolding after_sync
    after_sync-IsDelivered size schedule hs e w v (some x) h = h
    after_sync-IsDelivered size schedule hs e w v none h =
        omega (arith, run_async-total size schedule hs e v)

    -- A publication without an error adds every handler of the event once to those that have run or
    -- are in flight, whichever goroutines finish meanwhile; one with an error adds every
    -- synchronous handler once and no other.
    pub publish-IsDelivered :
        (size : ℕ) (sync_schedule async_schedule : List (List ℕ))
        (hs : List (Handler State Event Error)) (e : Event) (w : World State Event Error)
        → IsDelivered hs e w
            (publish size sync_schedule async_schedule hs e w).0
            (publish size sync_schedule async_schedule hs e w).1
    unfolding publish
    publish-IsDelivered size sync_schedule async_schedule hs e w =
        after_sync-IsDelivered size async_schedule hs e w _ _
          (run_sync-total sync_schedule hs e none w)
