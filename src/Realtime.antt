-- ===== src/Realtime.antt =====
-- internal/realtime/broker.go. A client is the number under which Subscribe hands it out, and its
-- channel is the list of the messages that it holds. A message's body is a type of the caller's. A
-- call that panics sets a flag; what the process does then is not modelled.
pub mod Spec
pub mod Refinement
pub mod Interleaving
use sonarr.Common.{
  ℕ, suc, ◌+◌, ltb, ◌==◌, Text, codes, text_eq, Bool, true, false, not, List, [], ◌∷◌, ◌++◌, Option,
  none, some, if◌then◌else◌, length, any, select,
}

-- The message types.
unfoldable pub msg_series : Text
msg_series = codes "series"

unfoldable pub msg_episode : Text
msg_episode = codes "episode"

unfoldable pub msg_episode_file : Text
msg_episode_file = codes "episodefile"

unfoldable pub msg_command : Text
msg_command = codes "command"

pub record Message (Body : Type 0) : Type 0 where
  pub name : Text
  pub body : Body

pub record Client (Body : Type 0) : Type 0 where
  pub buffer : List (Message Body)
  pub filter : Option (List Text)
  pub closed : Bool

pub record Broker (Body : Type 0) : Type 0 where
  pub next : ℕ
  pub client : ℕ → Client Body
  pub clients : List ℕ
  pub panicked : Bool

-- `filter != nil && !filter[name]`.
unfoldable pub skips : Option (List Text) → Text → Bool
skips none name = false
skips (some names) name = not (any (text_eq name) names)

-- The filter that Subscribe keeps.
pub filter_of : List Text → Option (List Text)
filter_of [] = none
filter_of (f ∷ fs) = some (f ∷ fs)

module _ {Body : Type 0} where
  abbrev pub fresh : Client Body
  fresh = record { buffer = []; filter = none; closed = false }

  abbrev pub set_client : ℕ → Client Body → (ℕ → Client Body) → ℕ → Client Body
  set_client i c f j = if j == i then c else f j

  unfoldable pub new_broker : Broker Body
  new_broker = record { next = 0; client = λ _. fresh; clients = []; panicked = false }

  unfoldable pub subscribe : List Text → Broker Body → Broker Body
  unfolding filter_of
  subscribe fs b = record b {
    next = suc b.next;
    client =
        set_client b.next (record { buffer = []; filter = filter_of fs; closed = false }) b.client;
    clients = b.next ∷ b.clients;
  }

  -- The first half of Unsubscribe, under the lock.
  unfoldable pub delete_client : ℕ → Broker Body → Broker Body
  delete_client i b = record b { clients = select (λ j. not (j == i)) b.clients }

  -- `close(c.ch)`: a channel that is closed twice panics.
  unfoldable pub close_client : ℕ → Broker Body → Broker Body
  close_client i b =
      if (b.client i).closed
      then record b { panicked = true }
      else record b { client = set_client i (record (b.client i) { closed = true }) b.client }

  unfoldable pub unsubscribe : ℕ → Broker Body → Broker Body
  unfolding delete_client close_client
  unsubscribe i b = close_client i (delete_client i b)

  -- The transport handler of a client takes the oldest message.
  unfoldable pub drop_first : List (Message Body) → List (Message Body)
  drop_first [] = []
  drop_first (m ∷ ms) = ms

  unfoldable pub receive : ℕ → Broker Body → Broker Body
  unfolding drop_first
  receive i b = record b {
    client =
        set_client i (record (b.client i) { buffer = drop_first (b.client i).buffer }) b.client;
  }

module _ {Body : Type 0} (buf_size : ℕ) where
  -- The select: a closed channel panics, a full one drops the message.
  send : Message Body → Client Body → Option (Client Body)
  send msg c =
      if c.closed
      then none
      else if ltb (length c.buffer) buf_size
      then some (record c { buffer = c.buffer ++ msg ∷ [] })
      else some c

  -- One round of Broadcast's loop; `none` for a panic.
  unfoldable pub offer : Message Body → Client Body → Option (Client Body)
  unfolding send skips
  offer msg c = if skips c.filter msg.name then some c else send msg c

  -- Broadcast's loop over the snapshot.
  unfoldable pub offer_all : Message Body → List ℕ → Broker Body → Broker Body
  offer_all msg [] b = b
  offer_all msg (i ∷ is) b = elim (offer msg (b.client i)) [
    | none ↦ record b { panicked = true }
    | some c ↦ offer_all msg is (record b { client = set_client i c b.client })
  ]

  -- Broadcast, given the order in which Go walks the map of clients.
  unfoldable pub broadcast : (List ℕ → List ℕ) → Message Body → Broker Body → Broker Body
  unfolding offer_all
  broadcast walk msg b = offer_all msg (walk b.clients) b

-- The domain events that SubscribeToEvents listens to.
pub data DomainEvent : Type 0 where
  series_added : DomainEvent
  series_updated : DomainEvent
  series_deleted : DomainEvent
  episode_added : DomainEvent
  episode_updated : DomainEvent
  episode_deleted : DomainEvent
  episode_file_added : DomainEvent
  episode_file_deleted : DomainEvent
  command_started : DomainEvent
  command_completed : DomainEvent
  command_failed : DomainEvent

-- The name and the action of the message that an event's handler broadcasts.
unfoldable pub label : DomainEvent → Text × Text
unfolding msg_series msg_episode msg_episode_file msg_command
label series_added = (msg_series, codes "updated")
label series_updated = (msg_series, codes "updated")
label series_deleted = (msg_series, codes "deleted")
label episode_added = (msg_episode, codes "updated")
label episode_updated = (msg_episode, codes "updated")
label episode_deleted = (msg_episode, codes "deleted")
label episode_file_added = (msg_episode_file, codes "updated")
label episode_file_deleted = (msg_episode_file, codes "deleted")
label command_started = (msg_command, codes "updated")
label command_completed = (msg_command, codes "updated")
label command_failed = (msg_command, codes "failed")

-- The body: the action and the event itself.
unfoldable pub message_for : {Event : Type 0} → DomainEvent → Event → Message (Text × Event)
unfolding label
message_for kind e = let (name, action) = label kind in record { name = name; body = (action, e) }
