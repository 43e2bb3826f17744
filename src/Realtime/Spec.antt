-- ===== src/Realtime/Spec.antt =====
-- internal/realtime/broker.go: the histories of calls of the broker, and what they shall show:
-- clients that are live or not, each with a bounded queue.
use sonarr.Common.{
  text_eq, Option, none, some, ℕ, suc, ltb, ◌==◌, Text, Bool, true, false, not, ◌&&◌, ◌||◌, List,
  [], ◌∷◌, ◌++◌, ◌≡◌, arith, if◌then◌else◌, length, any, select,
}
use sonarr.Realtime.{
  Message, Client, Broker, filter_of, fresh, set_client, subscribe, unsubscribe, drop_first,
  receive, broadcast,
}

pub data Call (Body : Type 0) : Type 0 where
  join : List Text → Call Body
  leave : ℕ → Call Body
  tell : ℕ → Message Body → Call Body
  take : ℕ → Call Body

-- Which ids a snapshot holds, and that it holds none twice.
abbrev pub has : List ℕ → ℕ → Bool
has is j = any (λ i. i == j) is

abbrev pub distinct : List ℕ → Bool
distinct [] = true
distinct (i ∷ is) = not (has is i) && distinct is

-- The ids other than one.
abbrev pub others : ℕ → List ℕ → List ℕ
others i = select (λ j. not (j == i))

pub has-others : (i : ℕ) (is : List ℕ) (j : ℕ) → has (others i is) j ≡ (not (j == i) && has is j)
has-others i [] j = ground arith
has-others i (x ∷ is) j = ground (arith, has-others i is j)

-- Each seed gives an order in which the map may be walked.
pub record IsWalk (walk : ℕ → List ℕ → List ℕ) : Type 0 where
  pub same : (k : ℕ) (is : List ℕ) (j : ℕ) → has (walk k is) j ≡ has is j
  pub once : (k : ℕ) (is : List ℕ) → distinct is ≡ true → distinct (walk k is) ≡ true

-- The specification's state: a client is live from when it joins until it leaves.
pub record Spec (Body : Type 0) : Type 0 where
  pub next : ℕ
  pub client : ℕ → Client Body
  pub live : ℕ → Bool
  pub panicked : Bool

abbrev pub spec_new : {Body : Type 0} → Spec Body
spec_new = record { next = 0; client = λ _. fresh; live = λ _. false; panicked = false }

-- A client without a filter wants every message, another one those of the names it gave.
abbrev pub wants : Option (List Text) → Text → Bool
wants none name = true
wants (some names) name = any (text_eq name) names

module _ {Body : Type 0} (buf_size : ℕ) where
  -- A client keeps a message that its filter lets through while its queue has room.
  unfoldable pub keep : Message Body → Client Body → Client Body
  keep msg c =
      if wants c.filter msg.name && ltb (length c.buffer) buf_size
      then record c { buffer = c.buffer ++ msg ∷ [] }
      else c

  unfoldable pub spec_call : Call Body → Spec Body → Spec Body
  unfolding keep filter_of drop_first
  spec_call (join fs) t = record t {
    next = suc t.next;
    client =
        set_client t.next (record { buffer = []; filter = filter_of fs; closed = false }) t.client;
    live = λ j. t.next == j || t.live j;
  }
  spec_call (leave i) t = record t {
    client = set_client i (record (t.client i) { closed = true }) t.client;
    live = λ j. not (j == i) && t.live j;
    panicked = t.panicked || (t.client i).closed;
  }
  spec_call (tell k msg) t = record t {
    client = λ j. if t.live j then keep msg (t.client j) else t.client j;
  }
  spec_call (take i) t = record t {
    client =
        set_client i (record (t.client i) { buffer = drop_first (t.client i).buffer }) t.client;
  }

  unfoldable pub spec_run : List (Call Body) → Spec Body → Spec Body
  unfolding spec_call
  spec_run [] t = t
  spec_run (c ∷ cs) t = spec_run cs (spec_call c t)

  module _ (walk : ℕ → List ℕ → List ℕ) where
    unfoldable pub call : Call Body → Broker Body → Broker Body
    unfolding subscribe unsubscribe broadcast receive
    call (join fs) b = subscribe fs b
    call (leave i) b = unsubscribe i b
    call (tell k msg) b = broadcast buf_size (walk k) msg b
    call (take i) b = receive i b

    unfoldable pub run : List (Call Body) → Broker Body → Broker Body
    unfolding call
    run [] b = b
    run (c ∷ cs) b = run cs (call c b)
