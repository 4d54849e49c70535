-- ===== src/Wispist/Hub.antt =====
-- wispist/hub.go: the change hub. A subscription's channel outlives its entry in the hub, so the
-- channels stand in a table of their own, by the subscription's id. `none` is what cannot go on: a
-- close of a closed channel, a send on one (both panic), or a send or a receive that blocks. The
-- mutex makes each call one step for the other calls. A reader does not take it: `reset`, which
-- empties channels that are being read, says which event a reader takes before it.
pub mod Channels
pub mod Publishing
pub mod Sound
pub mod Calls
pub mod Runs
use wispdeck.Prelude.{
  ℕ, ◌+◌, Bool, true, false, not, ◌==◌, Text, List, [], ◌∷◌, ◌++◌, Option, none, some, length, leb,
  if◌then◌else◌, text_comparable, ℕ_comparable, Assoc, lookup, insert, delete, exists, drop,
}
use wispdeck.Wispist.Types.{Change}

pub data HubEvent : Type 0 where
  event_change : Change → HubEvent
  event_reset : Text → HubEvent

pub record Channel : Type 0 where
  pub queue : List HubEvent
  pub closed : Bool

-- `by_namespace` holds the collections of each subscription.
pub record ChangeHub : Type 0 where
  pub next_id : ℕ
  pub by_namespace : Assoc Text (Assoc ℕ (List Text))
  pub queue_size : ℕ
  pub channels : Assoc ℕ Channel

unfoldable pub new_change_hub : ℕ → ChangeHub
new_change_hub queue_size = record {
  next_id = 0;
  by_namespace = [];
  queue_size = queue_size;
  channels = [];
}

-- `h.byNamespace[namespace]`; nil reads as an empty map.
abbrev pub subscriptions : Text → ChangeHub → Assoc ℕ (List Text)
subscriptions namespace h = elim (lookup namespace h.by_namespace) [
  | none ↦ []
  | some values ↦ values
]

-- `subscribe`, with the id of the subscription, which stands for the channel and for the function
-- that it returns.
unfoldable pub subscribe : Text → List Text → ChangeHub → ChangeHub × ℕ
subscribe namespace collections h =
    let id = h.next_id + 1 in
    (
      record h {
        next_id = id;
        by_namespace =
            insert namespace (insert id collections (subscriptions namespace h)) h.by_namespace;
        channels = insert id (record { queue = []; closed = false }) h.channels;
      },
      id,
    )

unfoldable pub close : Channel → Option Channel
close channel = if channel.closed then none else some (record channel { closed = true })

-- `close(value.events)`
unfoldable pub close_events : ℕ → Assoc ℕ Channel → Option (Assoc ℕ Channel)
unfolding close
close_events id channels = elim (lookup id channels) [
  | none ↦ none
  | some channel ↦ elim (close channel) [
    | none ↦ none
    | some closed ↦ some (insert id closed channels)
  ]
]

-- The namespace's entry after a call, without an empty one.
unfoldable pub put_values :
    Text → Assoc ℕ (List Text) → Assoc Text (Assoc ℕ (List Text)) → Assoc Text (Assoc ℕ (List Text))
put_values namespace [] spaces = delete namespace spaces
put_values namespace (value ∷ values) spaces = insert namespace (value ∷ values) spaces

-- `unsubscribe`
unfoldable pub unsubscribe : Text → ℕ → ChangeHub → Option ChangeHub
unsubscribe namespace id h =
    let values = subscriptions namespace h in
    elim (lookup id values) [
      | none ↦ some h
      | some collections ↦ elim (close_events id h.channels) [
        | none ↦ none
        | some channels ↦ some (record h {
          by_namespace = put_values namespace (delete id values) h.by_namespace;
          channels = channels;
        })
      ]
    ]

-- The `select` of `publish`: a full channel is closed, and `false` says that its entry goes.
unfoldable pub offer : ℕ → HubEvent → Channel → Option (Channel × Bool)
unfolding close
offer size event channel =
    if channel.closed
    then none
    else if leb size (length channel.queue)
    then elim (close channel) [ none ↦ none | some closed ↦ some (closed, false) ]
    else some (record channel { queue = channel.queue ++ event ∷ [] }, true)

-- The range of `publish` over the subscriptions.
unfoldable pub publish_all :
    ℕ
    → Change
    → Assoc ℕ (List Text)
    → Assoc ℕ (List Text) × Assoc ℕ Channel
    → Option (Assoc ℕ (List Text) × Assoc ℕ Channel)
publish_all size change [] state = some state
publish_all size change ((id, collections) ∷ rest) (values, channels) =
    if not (exists (λ c. c == change.collection) collections)
    then publish_all size change rest (values, channels)
    else elim (lookup id channels) [
      | none ↦ none
      | some channel ↦ elim (offer size (event_change change) channel) [
        | none ↦ none
        | some (channel', keeps) ↦
            publish_all size change rest
              (if keeps then values else delete id values, insert id channel' channels)
      ]
    ]

-- `publish`
unfoldable pub publish : Text → Change → ChangeHub → Option ChangeHub
publish namespace change h =
    let values = subscriptions namespace h in
    elim (publish_all h.queue_size change values (values, h.channels)) [
      | none ↦ none
      | some (values', channels) ↦ some (record h {
        by_namespace = put_values namespace values' h.by_namespace;
        channels = channels;
      })
    ]

-- Who takes the oldest event of a channel that `reset` drains: `reset` itself, a reader before the
-- test of the loop, or a reader after it.
pub data Taker : Type 0 where
  by_reset by_reader after_test : Taker

-- `for len(value.events) > 0 { <-value.events }`, where `tested` says whether the test of the loop has
-- found an event that is still to be received. A receive from an empty channel blocks.
unfoldable pub drain : Bool → List Taker → List HubEvent → Option (List HubEvent)
drain false takers [] = some []
drain true takers [] = none
drain tested [] (event ∷ rest) = drain false [] rest
drain tested (by_reset ∷ takers) (event ∷ rest) = drain false takers rest
drain tested (by_reader ∷ takers) (event ∷ rest) = drain tested takers rest
drain tested (after_test ∷ takers) (event ∷ rest) = drain true takers rest

-- The body of `reset` for one channel: drain it, send the reset, close it.
unfoldable pub reset_channel : ℕ → Text → List Taker → Channel → Option Channel
unfolding close
reset_channel size reason takers channel =
    if channel.closed then none else elim (drain false takers channel.queue) [
      | none ↦ none
      | some queue ↦
          if leb size (length queue)
          then none
          else close (record channel { queue = queue ++ event_reset reason ∷ [] })
    ]

unfoldable pub reset_all :
    ℕ → Text → (ℕ → List Taker) → Assoc ℕ (List Text) → Assoc ℕ Channel → Option (Assoc ℕ Channel)
reset_all size reason takers [] channels = some channels
reset_all size reason takers ((id, collections) ∷ rest) channels = elim (lookup id channels) [
  | none ↦ none
  | some channel ↦ elim (reset_channel size reason (takers id) channel) [
    | none ↦ none
    | some channel' ↦ reset_all size reason takers rest (insert id channel' channels)
  ]
]

-- `reset`, with the takers of each subscription's events.
unfoldable pub reset : Text → Text → (ℕ → List Taker) → ChangeHub → Option ChangeHub
reset namespace reason takers h =
    elim (reset_all h.queue_size reason takers (subscriptions namespace h) h.channels) [
      | none ↦ none
      | some channels ↦
          some (record h { by_namespace = delete namespace h.by_namespace; channels = channels })
    ]

-- A reader takes the oldest event, if there is one, off its channel.
unfoldable pub received : ℕ → Assoc ℕ Channel → Assoc ℕ Channel
received id channels = elim (lookup id channels) [
  | none ↦ channels
  | some channel ↦ insert id (record channel { queue = drop 1 channel.queue }) channels
]

unfoldable pub receive : ℕ → ChangeHub → ChangeHub
receive id h = record h { channels = received id h.channels }
