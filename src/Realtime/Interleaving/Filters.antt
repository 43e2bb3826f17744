-- ===== src/Realtime/Interleaving/Filters.antt =====
-- Which filter a client has, however the calls interleave: the one that it joined with.
use sonarr.Common.{
  ℕ, zero, suc, ◌<◌, ◌+◌, ltb, ◌==◌, ==_iff, Text, true, List, [], ◌∷◌, subst, Option, none, some,
  ◌≡◌, arith, inl, inr, refl, ◌∙◌, ap, sym, Bool-cases, length,
}
use mathlib.Core.Option.{some-injective}
use sonarr.Realtime.{
  Message, Client, Broker, skips, filter_of, set_client, new_broker, subscribe, delete_client,
  close_client, drop_first, receive, send, offer,
}
use sonarr.Realtime.Interleaving.{
  Job, World, Action, join, remove, close, begin, visit, take, snapshot, visited, round, next_round,
  step, run, idle,
}

-- The names that the client with a number gave when it joined: it is the client of that many joins
-- before it.
unfoldable pub joined : {Body : Type 0} → ℕ → List (Action Body) → Option (List Text)
joined i [] = none
joined i (join fs ∷ acts) = elim i [ zero ↦ some fs | suc j ↦ joined j acts ]
joined i (a ∷ acts) = joined i acts

module _ {Body : Type 0} (buf_size : ℕ) where
  -- No client has joined in between, and no filter has changed.
  abbrev SameFilters : Broker Body → Broker Body → Type 0
  SameFilters b b' = (b'.next ≡ b.next) × ((i : ℕ) → (b'.client i).filter ≡ (b.client i).filter)

  set_client-filter :
      (j : ℕ) (c : Client Body) (f : ℕ → Client Body)
      → c.filter ≡ (f j).filter
      → (i : ℕ) → (set_client j c f i).filter ≡ (f i).filter
  set_client-filter j c f h i = elim (Bool-cases (i == j)) [
    | inl e ↦ simp e (h ∙ ap (λ k. (f k).filter) (sym ((==_iff i j).0 e)))
    | inr e ↦ simp e refl
  ]

  abbrev KeepsFilter : Client Body → Option (Client Body) → Type 0
  KeepsFilter c none = Unit
  KeepsFilter c (some c') = c'.filter ≡ c.filter

  offer-KeepsFilter : (msg : Message Body) (c : Client Body) → KeepsFilter c (offer buf_size msg c)
  unfolding offer send
  offer-KeepsFilter msg c = elim (Bool-cases (skips c.filter msg.name)) [
    | inl e ↦ simp e refl
    | inr e ↦ elim (Bool-cases c.closed) [
      | inl f ↦ simp (e, f) tt
      | inr f ↦ elim (Bool-cases (ltb (length c.buffer) buf_size)) [
        | inl g ↦ simp (e, f, g) refl
        | inr g ↦ simp (e, f, g) refl
      ]
    ]
  ]

  visited-SameFilters :
      (t i : ℕ) (msg : Message Body) (is : List ℕ) (o : Option (Client Body)) (w : World Body)
      → KeepsFilter (w.broker.client i) o
      → SameFilters w.broker (visited buf_size t i msg is o w).broker
  unfolding visited
  visited-SameFilters t i msg is none w h = (refl, λ k. refl)
  visited-SameFilters t i msg is (some c) w h = (refl, set_client-filter i c w.broker.client h)

  round-SameFilters :
      (t : ℕ) (msg : Message Body) (is : List ℕ) (w : World Body)
      → SameFilters w.broker (round buf_size t msg is w).broker
  unfolding round
  round-SameFilters t msg [] w = (refl, λ k. refl)
  round-SameFilters t msg (i ∷ is) w =
      visited-SameFilters t i msg is _ w (offer-KeepsFilter msg (w.broker.client i))

  next_round-SameFilters :
      (t : ℕ) (o : Option (Job Body)) (w : World Body)
      → SameFilters w.broker (next_round buf_size t o w).broker
  unfolding next_round
  next_round-SameFilters t none w = (refl, λ k. refl)
  next_round-SameFilters t (some j) w = round-SameFilters t j.message j.pending w

  snapshot-SameFilters :
      (t : ℕ) (is : List ℕ) (msg : Message Body) (o : Option (Job Body)) (w : World Body)
      → SameFilters w.broker (snapshot buf_size t is msg o w).broker
  unfolding snapshot
  snapshot-SameFilters t is msg none w = (refl, λ k. refl)
  snapshot-SameFilters t is msg (some j) w = (refl, λ k. refl)

  close-SameFilters : (i : ℕ) (b : Broker Body) → SameFilters b (close_client i b)
  unfolding close_client
  close-SameFilters i b = elim (Bool-cases (b.client i).closed) [
    | inl e ↦ simp e (refl, λ k. refl)
    | inr e ↦
        simp e (refl, set_client-filter i (record (b.client i) { closed = true }) b.client refl)
  ]

  receive-SameFilters : (i : ℕ) (b : Broker Body) → SameFilters b (receive i b)
  unfolding receive
  receive-SameFilters i b = (
    refl,
    set_client-filter i (record (b.client i) { buffer = drop_first (b.client i).buffer }) b.client
        refl,
  )

  -- A client that joins changes no other's filter.
  subscribe-others :
      (fs : List Text) (b : Broker Body) (i : ℕ)
      → i < b.next
      → ((subscribe fs b).client i).filter ≡ (b.client i).filter
  unfolding subscribe
  subscribe-others fs b i h = ground arith

  subscribe-own :
      (fs : List Text) (b : Broker Body) → ((subscribe fs b).client b.next).filter ≡ filter_of fs
  unfolding subscribe
  subscribe-own fs b = ground arith

  -- An action registers at most one client and keeps the filters of those that have joined.
  step-keeps_filter :
      (a : Action Body) (w : World Body) (i : ℕ)
      → i < w.broker.next
      → (i < (step buf_size a w).broker.next)
        × (((step buf_size a w).broker.client i).filter ≡ (w.broker.client i).filter)
  unfolding step delete_client subscribe
  step-keeps_filter (join fs) w i h = (omega arith, subscribe-others fs w.broker i h)
  step-keeps_filter (remove j) w i h = (h, refl)
  step-keeps_filter (close j) w i h = let s = close-SameFilters j w.broker in (rw s.0 h, s.1 i)
  step-keeps_filter (begin t walk msg) w i h =
      let s = snapshot-SameFilters t (walk w.broker.clients) msg (w.job t) w in (rw s.0 h, s.1 i)
  step-keeps_filter (visit t) w i h =
      let s = next_round-SameFilters t (w.job t) w in (rw s.0 h, s.1 i)
  step-keeps_filter (take j) w i h = let s = receive-SameFilters j w.broker in (rw s.0 h, s.1 i)

  -- A client that has joined keeps its filter.
  run-keeps_filter :
      (acts : List (Action Body)) (w : World Body) (i : ℕ)
      → i < w.broker.next
      → ((run buf_size acts w).broker.client i).filter ≡ (w.broker.client i).filter
  unfolding run
  run-keeps_filter [] w i h = refl
  run-keeps_filter (a ∷ acts) w i h =
      let (h', e) = step-keeps_filter a w i h in run-keeps_filter acts (step buf_size a w) i h' ∙ e

  renumbered :
      (m n k : ℕ) (f : ℕ → Client Body) (o : Option (List Text))
      → m ≡ n
      → (f (m + k)).filter ≡ o
      → (f (n + k)).filter ≡ o
  renumbered m n k f o e h = subst (λ x. (f (x + k)).filter ≡ o) e h

  -- A client has the filter of the names that it joined with.
  run-joined :
      (acts : List (Action Body)) (w : World Body) (k : ℕ) (fs : List Text)
      → joined k acts ≡ some fs
      → ((run buf_size acts w).broker.client (w.broker.next + k)).filter ≡ filter_of fs
  unfolding run step joined subscribe delete_client
  run-joined [] w k fs h = cc
  run-joined (join gs ∷ acts) w zero fs h =
      let e : w.broker.next + 0 ≡ w.broker.next = omega arith in
      let k = run-keeps_filter acts (step buf_size (join gs) w) w.broker.next (omega arith) in
      rw e (k ∙ subscribe-own gs w.broker ∙ ap filter_of (some-injective gs fs h))
  run-joined (join gs ∷ acts) w (suc k) fs h =
      let e : w.broker.next + suc k ≡ suc w.broker.next + k = omega arith in
      rw e (run-joined acts (step buf_size (join gs) w) k fs h)
  run-joined (remove j ∷ acts) w k fs h = run-joined acts (step buf_size (remove j) w) k fs h
  run-joined (close j ∷ acts) w k fs h =
      renumbered _ _ k (λ i. (run buf_size acts (step buf_size (close j) w)).broker.client i) _
        (close-SameFilters j w.broker).0 (run-joined acts (step buf_size (close j) w) k fs h)
  run-joined (begin t walk msg ∷ acts) w k fs h =
      renumbered _ _ k
        (λ i. (run buf_size acts (step buf_size (begin t walk msg) w)).broker.client i) _
        (snapshot-SameFilters t (walk w.broker.clients) msg (w.job t) w).0
        (run-joined acts (step buf_size (begin t walk msg) w) k fs h)
  run-joined (visit t ∷ acts) w k fs h =
      renumbered _ _ k (λ i. (run buf_size acts (step buf_size (visit t) w)).broker.client i) _
        (next_round-SameFilters t (w.job t) w).0
        (run-joined acts (step buf_size (visit t) w) k fs h)
  run-joined (take j ∷ acts) w k fs h =
      renumbered _ _ k (λ i. (run buf_size acts (step buf_size (take j) w)).broker.client i) _
        (receive-SameFilters j w.broker).0 (run-joined acts (step buf_size (take j) w) k fs h)

  -- From the start, client `i` is the one of the join after `i` others.
  pub idle-joined :
      (acts : List (Action Body)) (i : ℕ) (fs : List Text)
      → joined i acts ≡ some fs
      → ((run buf_size acts idle).broker.client i).filter ≡ filter_of fs
  unfolding new_broker
  idle-joined acts i fs h =
      let e : i ≡ 0 + i = omega arith in
      subst (λ k. ((run buf_size acts idle).broker.client k).filter ≡ filter_of fs) (sym e)
        (run-joined acts idle i fs h)
