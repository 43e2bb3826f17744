-- ===== src/Realtime/Interleaving/Service.antt =====
-- What a client's channel holds, however the calls interleave.
use sonarr.Common.{
  ℕ, ◌≤◌, ltb, ltb→lt, ◌==◌, Text, true, false, List, [], ◌∷◌, ◌++◌, Option, none, some, ◌≡◌, arith,
  inl, inr, Bool-cases, length, length-append, All, In, any, text_eq, text_eq_iff, refl, ◌⊎◌,
}
use sonarr.Realtime.{
  Message, Client, Broker, skips, filter_of, set_client, new_broker, subscribe, delete_client,
  close_client, drop_first, receive, send, offer,
}
use sonarr.Realtime.Interleaving.Filters.{joined, idle-joined}
use sonarr.Realtime.Interleaving.{
  Job, World, Action, join, remove, close, begin, visit, take, snapshot, visited, round, next_round,
  step, run, idle,
}

any-In : (name : Text) (names : List Text) → any (text_eq name) names ≡ true → In name names
any-In name [] h = cc
any-In name (n ∷ names) h = elim (Bool-cases (text_eq name n)) [
  | inl e ↦ inl ((text_eq_iff name n).0 e)
  | inr e ↦ inr (any-In name names (ground arith))
]

-- The names that a client gave when it joined let a message's name through.
abbrev pub Wanted : List Text → Text → Type 0
Wanted fs name = (fs ≡ []) ⊎ In name fs

skips-Wanted : (fs : List Text) (name : Text) → skips (filter_of fs) name ≡ false → Wanted fs name
unfolding skips filter_of
skips-Wanted [] name h = inl refl
skips-Wanted (f ∷ fs) name h = inr (any-In name (f ∷ fs) (ground arith))

module _ {Body : Type 0} (buf_size : ℕ) where
  -- A client holds at most `buf_size` messages, each of which its filter lets through.
  abbrev IsServed : Client Body → Type 0
  IsServed c = (length c.buffer ≤ buf_size) × All (λ m. skips c.filter m.name ≡ false) c.buffer

  append-All :
      (P : Message Body → Type 0) (xs : List (Message Body)) (m : Message Body)
      → All P xs
      → P m
      → All P (xs ++ m ∷ [])
  append-All P [] m h k = (k, tt)
  append-All P (x ∷ xs) m h k = (h.0, append-All P xs m h.1 k)

  abbrev SomeServed : Option (Client Body) → Type 0
  SomeServed none = Unit
  SomeServed (some c) = IsServed c

  offer-SomeServed :
      (msg : Message Body) (c : Client Body) → IsServed c → SomeServed (offer buf_size msg c)
  unfolding offer send
  offer-SomeServed msg c h = elim (Bool-cases (skips c.filter msg.name)) [
    | inl e ↦ simp e h
    | inr e ↦ elim (Bool-cases c.closed) [
      | inl f ↦ simp (e, f) tt
      | inr f ↦ elim (Bool-cases (ltb (length c.buffer) buf_size)) [
        | inl g ↦
            simp (e, f, g)
              (
                omega
                    (arith, length-append c.buffer (msg ∷ []), ltb→lt (length c.buffer) buf_size g),
                append-All (λ m. skips c.filter m.name ≡ false) c.buffer msg h.1 e,
              )
        | inr g ↦ simp (e, f, g) h
      ]
    ]
  ]

  abbrev Served : Broker Body → Type 0
  Served b = (i : ℕ) → IsServed (b.client i)

  set-Served :
      (i : ℕ) (c : Client Body) (f : ℕ → Client Body)
      → IsServed c
      → ((j : ℕ) → IsServed (f j))
      → (j : ℕ) → IsServed (set_client i c f j)
  set-Served i c f h k j = elim (Bool-cases (j == i)) [ inl e ↦ simp e h | inr e ↦ simp e (k j) ]

  drop_first-IsServed :
      (f : Option (List Text)) (ms : List (Message Body))
      → (length ms ≤ buf_size) × All (λ m. skips f m.name ≡ false) ms
      → (length (drop_first ms) ≤ buf_size) × All (λ m. skips f m.name ≡ false) (drop_first ms)
  unfolding drop_first
  drop_first-IsServed f [] h = h
  drop_first-IsServed f (m ∷ ms) h = (omega arith, h.1.1)

  visited-Served :
      (t i : ℕ) (msg : Message Body) (is : List ℕ) (o : Option (Client Body)) (w : World Body)
      → SomeServed o
      → Served w.broker
      → Served (visited buf_size t i msg is o w).broker
  unfolding visited
  visited-Served t i msg is none w h k = k
  visited-Served t i msg is (some c) w h k = set-Served i c w.broker.client h k

  round-Served :
      (t : ℕ) (msg : Message Body) (is : List ℕ) (w : World Body)
      → Served w.broker
      → Served (round buf_size t msg is w).broker
  unfolding round
  round-Served t msg [] w k = k
  round-Served t msg (i ∷ is) w k =
      visited-Served t i msg is _ w (offer-SomeServed msg (w.broker.client i) (k i)) k

  next_round-Served :
      (t : ℕ) (o : Option (Job Body)) (w : World Body)
      → Served w.broker
      → Served (next_round buf_size t o w).broker
  unfolding next_round
  next_round-Served t none w k = k
  next_round-Served t (some j) w k = round-Served t j.message j.pending w k

  snapshot-Served :
      (t : ℕ) (is : List ℕ) (msg : Message Body) (o : Option (Job Body)) (w : World Body)
      → Served w.broker
      → Served (snapshot buf_size t is msg o w).broker
  unfolding snapshot
  snapshot-Served t is msg none w k = k
  snapshot-Served t is msg (some j) w k = k

  close-Served : (i : ℕ) (b : Broker Body) → Served b → Served (close_client i b)
  unfolding close_client
  close-Served i b k = elim (Bool-cases (b.client i).closed) [
    | inl e ↦ simp e k
    | inr e ↦ simp e (set-Served i (record (b.client i) { closed = true }) b.client (k i) k)
  ]

  step-Served :
      (a : Action Body) (w : World Body) → Served w.broker → Served (step buf_size a w).broker
  unfolding step subscribe delete_client receive
  step-Served (join fs) w k =
      set-Served w.broker.next (record { buffer = []; filter = filter_of fs; closed = false })
        w.broker.client (omega arith, tt) k
  step-Served (remove i) w k = k
  step-Served (close i) w k = close-Served i w.broker k
  step-Served (begin t walk msg) w k = snapshot-Served t (walk w.broker.clients) msg (w.job t) w k
  step-Served (visit t) w k = next_round-Served t (w.job t) w k
  step-Served (take i) w k =
      set-Served i (record (w.broker.client i) { buffer = drop_first (w.broker.client i).buffer })
        w.broker.client
        (drop_first-IsServed (w.broker.client i).filter (w.broker.client i).buffer (k i)) k

  run-Served :
      (acts : List (Action Body)) (w : World Body)
      → Served w.broker
      → Served (run buf_size acts w).broker
  unfolding run
  run-Served [] w k = k
  run-Served (a ∷ acts) w k = run-Served acts (step buf_size a w) (step-Served a w k)

  All-Wanted :
      (fs : List Text) (ms : List (Message Body))
      → All (λ m. skips (filter_of fs) m.name ≡ false) ms
      → All (λ m. Wanted fs m.name) ms
  All-Wanted fs [] h = tt
  All-Wanted fs (m ∷ ms) h = (skips-Wanted fs m.name h.0, All-Wanted fs ms h.1)

  -- However the rounds of the broadcasts and the other calls interleave, a client never holds more
  -- messages than its channel has room for, and each of them has one of the names that the client
  -- gave when it joined, if it gave any.
  pub run-IsServed :
      (acts : List (Action Body)) (i : ℕ) (fs : List Text)
      → joined i acts ≡ some fs
      → (length ((run buf_size acts idle).broker.client i).buffer ≤ buf_size)
        × All (λ m. Wanted fs m.name) ((run buf_size acts idle).broker.client i).buffer
  unfolding new_broker
  run-IsServed acts i fs j =
      let (room, served) = run-Served acts idle (λ k. (omega arith, tt)) i in
      let kept = idle-joined buf_size acts i fs j in (room, All-Wanted fs _ (rw (← kept) served))
