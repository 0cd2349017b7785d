-- ===== src/Broker.antt =====
-- api/broker.py, `SpanBroker`: live spans go from the receiver to the subscribers of a run, each of
-- which has a bounded queue. A subscriber is an object that its channel and its own generator share,
-- so the subscribers stand in a store, and a channel has their numbers. The calls run one after the
-- other on the event loop; what schedules them there is not modelled.
pub mod Delivery
use selfevals.Prelude.{
  ℕ, ◌+◌, ◌==◌, String, str_eq, Bool, true, false, ◌&&◌, not, Option, none, some, List, [], ◌∷◌,
  ◌++◌, map, select, length, ltb, if◌then◌else◌,
}

-- what a queue holds: a span, or `_Closed`
pub data Event : Type 0 where
  span : (payload : String) → Event
  closed : (final_state : String) → Event

pub record Subscriber : Type 0 where
  pub queue : List Event
  pub is_closed : Bool

pub record Channel : Type 0 where
  pub subscribers : List ℕ
  pub is_closed : Bool
  pub final_state : Option String

abbrev pub Key : Type 0
Key = String × String

abbrev pub same_key : Key → Key → Bool
same_key a b = str_eq a.0 b.0 && str_eq a.1 b.1

pub record SpanBroker : Type 0 where
  pub channels : List (Key × Channel)
  pub store : List (ℕ × Subscriber)

abbrev pub queue_maxsize : ℕ
queue_maxsize = 256

unfoldable pub find_channel : Key → List (Key × Channel) → Option Channel
find_channel key [] = none
find_channel key ((k, c) ∷ rest) = if same_key k key then some c else find_channel key rest

unfoldable pub set_channel : Key → Channel → List (Key × Channel) → List (Key × Channel)
set_channel key channel [] = (key, channel) ∷ []
set_channel key channel ((k, c) ∷ rest) =
    if same_key k key then (k, channel) ∷ rest else (k, c) ∷ set_channel key channel rest

unfoldable pub pop_channel : Key → List (Key × Channel) → List (Key × Channel)
pop_channel key = select (λ (k, c). not (same_key k key))

unfoldable pub find_sub : ℕ → List (ℕ × Subscriber) → Option Subscriber
find_sub id [] = none
find_sub id ((k, s) ∷ rest) = if k == id then some s else find_sub id rest

-- the object of a number is changed
unfoldable pub change_sub :
    ℕ → (Subscriber → Subscriber) → List (ℕ × Subscriber) → List (ℕ × Subscriber)
change_sub id change [] = []
change_sub id change ((k, s) ∷ rest) =
    if k == id then (k, change s) ∷ rest else (k, s) ∷ change_sub id change rest

-- a loop over the subscribers of a channel
unfoldable pub change_all :
    (Subscriber → Subscriber) → List ℕ → List (ℕ × Subscriber) → List (ℕ × Subscriber)
unfolding change_sub
change_all change [] store = store
change_all change (id ∷ ids) store = change_all change ids (change_sub id change store)

-- `put_nowait`; `none` is QueueFull
unfoldable pub put_nowait : Event → Subscriber → Option Subscriber
put_nowait e s =
    if ltb (length s.queue) queue_maxsize
    then some (record s { queue = s.queue ++ (e ∷ []) })
    else none

-- `with suppress(QueueFull)`
abbrev pub or_same : Subscriber → Option Subscriber → Subscriber
or_same s none = s
or_same s (some changed) = changed

unfoldable pub put_suppressed : Event → Subscriber → Subscriber
unfolding put_nowait
put_suppressed e s = or_same s (put_nowait e s)

abbrev pub or_disconnect : Subscriber → Option Subscriber → Subscriber
or_disconnect s none = put_suppressed (closed "disconnected") (record s { is_closed = true })
or_disconnect s (some changed) = changed

-- the body of the loop of `_publish_sync`
unfoldable pub offer : String → Subscriber → Subscriber
unfolding put_nowait put_suppressed
offer payload s = or_disconnect s (put_nowait (span payload) s)

abbrev pub fresh : Channel
fresh = record { subscribers = []; is_closed = false; final_state = none }

abbrev pub or_fresh : Option Channel → Channel
or_fresh none = fresh
or_fresh (some channel) = channel

-- `_mark_active_sync`
unfoldable pub mark_active : Key → SpanBroker → SpanBroker
unfolding find_channel set_channel
mark_active key b = record b {
  channels = set_channel key (or_fresh (find_channel key b.channels)) b.channels;
}

-- the first part of `subscribe`; the subscriber's number is new
unfoldable pub attach : Key → ℕ → SpanBroker → SpanBroker
unfolding find_channel set_channel
attach key id b =
    let channel = or_fresh (find_channel key b.channels) in
    record {
      channels =
          set_channel key (record channel { subscribers = channel.subscribers ++ (id ∷ []) })
            b.channels;
      store = (id, record { queue = []; is_closed = false }) ∷ b.store;
    }

abbrev pub or_completed : Option String → String
or_completed none = "completed"
or_completed (some state) = if str_eq state "" then "completed" else state

-- what `subscribe` yields at once, and then returns: the close of a channel that is closed already
unfoldable pub closed_already : Option Channel → Option Event
closed_already none = none
closed_already (some channel) =
    if channel.is_closed then some (closed (or_completed channel.final_state)) else none

abbrev pub tail_of : List Event → List Event
tail_of [] = []
tail_of (e ∷ es) = es

-- `queue.get` of a subscriber: its first event, if there is one, and the queue without it
unfoldable pub receive : ℕ → SpanBroker → SpanBroker
unfolding change_sub
receive id b = record b {
  store = change_sub id (λ s. record s { queue = tail_of s.queue }) b.store;
}

abbrev pub is_live : List (ℕ × Subscriber) → ℕ → Bool
is_live store id = elim (find_sub id store) [ none ↦ true | some s ↦ not s.is_closed ]

unfoldable pub detach_from :
    Key → Option Channel → List (Key × Channel) → List (ℕ × Subscriber) → List (Key × Channel)
unfolding find_sub set_channel pop_channel
detach_from key none channels store = channels
detach_from key (some channel) channels store =
    let left = select (is_live store) channel.subscribers in
    if length left == 0 && channel.is_closed
    then pop_channel key channels
    else set_channel key (record channel { subscribers = left }) channels

-- the `finally` of `subscribe`
unfoldable pub detach : Key → ℕ → SpanBroker → SpanBroker
unfolding find_channel detach_from change_sub
detach key id b =
    let store = change_sub id (λ s. record s { is_closed = true }) b.store in
    record {
      channels = detach_from key (find_channel key b.channels) b.channels store;
      store = store;
    }

unfoldable pub publish_on : String → Option Channel → List (ℕ × Subscriber) → List (ℕ × Subscriber)
unfolding offer change_all
publish_on payload none store = store
publish_on payload (some channel) store =
    if channel.is_closed then store else change_all (offer payload) channel.subscribers store

-- `_publish_sync`
unfoldable pub publish : Key → String → SpanBroker → SpanBroker
unfolding publish_on find_channel
publish key payload b = record b {
  store = publish_on payload (find_channel key b.channels) b.store;
}

unfoldable pub close_on : Key → String → Option Channel → SpanBroker → SpanBroker
unfolding set_channel change_all put_suppressed
close_on key final none b = record b {
  channels =
      set_channel key (record fresh { is_closed = true; final_state = some final }) b.channels;
}
close_on key final (some channel) b = record {
  channels =
      set_channel key (record channel { is_closed = true; final_state = some final }) b.channels;
  store = change_all (put_suppressed (closed final)) channel.subscribers b.store;
}

-- `_close_sync`
unfoldable pub close_run : Key → String → SpanBroker → SpanBroker
unfolding close_on find_channel
close_run key final b = close_on key final (find_channel key b.channels) b
