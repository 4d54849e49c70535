-- ===== src/Wispist/Hub/Channels.antt =====
-- wispist/hub.go: the ranges of `publish` and `reset` over the channels of one namespace.
use wispdeck.Prelude.{
  ℕ, ◌≤◌, ◌≡◌, inl, inr, refl, arith, Bool, true, false, not, Text, List, [], ◌∷◌, Option, none,
  some, ℕ_comparable, text_comparable, Assoc, lookup, insert, delete, is_some, lookup-insert,
  lookup-delete, Option-cases, nat_beq_iff,
}
use wispdeck.Wispist.Hub.{
  HubEvent, event_reset, Channel, close, Taker, by_reset, by_reader, after_test, drain,
  reset_channel, reset_all,
}

abbrev pub Subscriptions : Type 0
Subscriptions = Assoc ℕ (List Text)

-- No id stands twice.
unfoldable pub IsUnique : Subscriptions → Type 0
IsUnique [] = Unit {0}
IsUnique ((id, collections) ∷ rest) = (lookup id rest ≡ none) × IsUnique rest

has-delete :
    (id j : ℕ) (values : Subscriptions)
    → lookup j values ≡ none
    → lookup j (delete id values) ≡ none
has-delete id j values absent = ground (arith, lookup-delete id j values)

pub IsUnique-delete :
    (id : ℕ) (values : Subscriptions) → IsUnique values → IsUnique (delete id values)
unfolding IsUnique delete
IsUnique-delete id [] unique = unique
IsUnique-delete id ((j, collections) ∷ rest) (fresh, unique) =
    ground (arith, IsUnique-delete id rest unique, has-delete id j rest fresh)

pub IsUnique-insert :
    (id : ℕ) (collections : List Text) (values : Subscriptions)
    → IsUnique values
    → IsUnique (insert id collections values)
unfolding IsUnique insert lookup
IsUnique-insert id collections [] unique = ground arith
IsUnique-insert id collections ((j, others) ∷ rest) (fresh, unique) = ground (
  arith,
  IsUnique-insert id collections rest unique,
  lookup-insert id j collections rest,
  fresh,
  unique,
  nat_beq_iff j id,
  nat_beq_iff id j,
)

abbrev pub is_open : Option Channel → Bool
is_open none = false
is_open (some channel) = not channel.closed

abbrev pub has : ℕ → Subscriptions → Bool
has id values = is_some (lookup id values)

-- Every subscription of the list has an open channel.
abbrev pub IsOpen : Subscriptions → Assoc ℕ Channel → Type 0
IsOpen values channels = (id : ℕ) → has id values ≡ true → is_open (lookup id channels) ≡ true

abbrev pub reset_to : Text → Channel
reset_to reason = record { queue = event_reset reason ∷ []; closed = true }

-- What `reset_all` does to the channels.
pub record ResetDone (reason : Text) (values : Subscriptions) (old new : Assoc ℕ Channel)
    : Type 0 where
  pub ended : (id : ℕ) → has id values ≡ true → lookup id new ≡ some (reset_to reason)
  pub kept : (id : ℕ) → has id values ≡ false → lookup id new ≡ lookup id old

-- A drain that does not block leaves the channel empty.
drain-empty :
    (tested : Bool) (takers : List Taker) (queue : List HubEvent) {left : List HubEvent}
    → drain tested takers queue ≡ some left
    → left ≡ []
unfolding drain
drain-empty false takers [] e = ground arith
drain-empty true takers [] e = ground arith
drain-empty tested [] (event ∷ rest) e = drain-empty false [] rest e
drain-empty tested (by_reset ∷ takers) (event ∷ rest) e = drain-empty false takers rest e
drain-empty tested (by_reader ∷ takers) (event ∷ rest) e = drain-empty tested takers rest e
drain-empty tested (after_test ∷ takers) (event ∷ rest) e = drain-empty true takers rest e

-- The drain of a channel does not block.
abbrev pub is_drained : List Taker → Option Channel → Bool
is_drained takers none = false
is_drained takers (some channel) = is_some (drain false takers channel.queue)

-- No drain of the channels of a list blocks.
abbrev pub Drains : (ℕ → List Taker) → Subscriptions → Assoc ℕ Channel → Type 0
Drains takers values channels =
    (id : ℕ) → has id values ≡ true → is_drained (takers id) (lookup id channels) ≡ true

reset_channel-open :
    (size : ℕ) (reason : Text) (takers : List Taker) (channel : Channel)
    → 1 ≤ size
    → channel.closed ≡ false
    → is_drained takers (some channel) ≡ true
    → reset_channel size reason takers channel ≡ some (reset_to reason)
unfolding reset_channel close
reset_channel-open size reason takers channel sized opened drained =
    elim (Option-cases (drain false takers channel.queue)) [
      | inl blocks ↦ ground (arith, blocks)
      | inr (left, drains) ↦ ground (arith, drains, drain-empty false takers channel.queue drains)
    ]

reset_channel-blocks :
    (size : ℕ) (reason : Text) (takers : List Taker) (channel : Channel)
    → is_drained takers (some channel) ≡ false
    → reset_channel size reason takers channel ≡ none
unfolding reset_channel
reset_channel-blocks size reason takers channel blocked =
    ground (arith, Option-cases (drain false takers channel.queue))

pub IsOpen-tail :
    (id : ℕ) (collections : List Text) (rest : Subscriptions) (channels : Assoc ℕ Channel)
    (channel : Channel)
    → lookup id rest ≡ none
    → IsOpen ((id, collections) ∷ rest) channels
    → IsOpen rest (insert id channel channels)
unfolding lookup
IsOpen-tail id collections rest channels channel fresh opened j listed =
    ground (arith, opened j, lookup-insert id j channel channels, nat_beq_iff id j)

Drains-tail :
    (takers : ℕ → List Taker) (id : ℕ) (collections : List Text) (rest : Subscriptions)
    (channels : Assoc ℕ Channel) (channel : Channel)
    → lookup id rest ≡ none
    → Drains takers ((id, collections) ∷ rest) channels
    → Drains takers rest (insert id channel channels)
unfolding lookup
Drains-tail takers id collections rest channels channel fresh drained j listed =
    ground (arith, drained j, lookup-insert id j channel channels, nat_beq_iff id j)

pub reset_all-ResetDone :
    (size : ℕ) (reason : Text) (takers : ℕ → List Taker) (values : Subscriptions)
    (channels : Assoc ℕ Channel)
    → 1 ≤ size
    → IsUnique values
    → IsOpen values channels
    → Drains takers values channels
    → (new : Assoc ℕ Channel) × (reset_all size reason takers values channels ≡ some new)
      × ResetDone reason values channels new
unfolding reset_all IsUnique lookup
reset_all-ResetDone size reason takers [] channels sized unique opened drained =
    (channels, refl, record { ended = λ id listed. ground arith; kept = λ id free. refl })
reset_all-ResetDone size reason takers ((id, collections) ∷ rest) channels sized (fresh, unique)
      opened drained =
    elim (Option-cases (lookup id channels)) [
      | inl absent ↦ ground (arith, opened id, nat_beq_iff id id, absent)
      | inr (channel, found) ↦
          let (new, done, state) =
            reset_all-ResetDone size reason takers rest (insert id (reset_to reason) channels) sized
              unique (IsOpen-tail id collections rest channels (reset_to reason) fresh opened)
              (Drains-tail takers id collections rest channels (reset_to reason) fresh drained) in
          let one =
            reset_channel-open size reason (takers id) channel sized
              (ground (arith, opened id, nat_beq_iff id id, found))
              (ground (arith, drained id, nat_beq_iff id id, found)) in
          (
            new,
            ground (arith, found, one, done),
            record {
              ended = λ j listed. ground (
                arith,
                state.ended j,
                state.kept j,
                fresh,
                lookup-insert id j (reset_to reason) channels,
                nat_beq_iff id j,
              );
              kept = λ j free. ground (
                arith,
                state.ended j,
                state.kept j,
                fresh,
                lookup-insert id j (reset_to reason) channels,
                nat_beq_iff id j,
              );
            },
          )
    ]

-- A drain that blocks ends the range.
pub reset_all-blocks :
    (size : ℕ) (reason : Text) (takers : ℕ → List Taker) (id : ℕ) (values : Subscriptions)
    (channels : Assoc ℕ Channel)
    → IsUnique values
    → has id values ≡ true
    → is_drained (takers id) (lookup id channels) ≡ false
    → reset_all size reason takers values channels ≡ none
unfolding reset_all IsUnique lookup
reset_all-blocks size reason takers id [] channels unique listed blocked = ground arith
reset_all-blocks size reason takers id ((j, collections) ∷ rest) channels (fresh, unique) listed
      blocked =
    elim (Option-cases (lookup j channels)) [
      | inl absent ↦ ground (arith, absent)
      | inr (channel, found) ↦ elim (Option-cases (reset_channel size reason (takers j) channel)) [
        | inl ends ↦ ground (arith, found, ends)
        | inr (channel', goes) ↦
            let later =
              reset_all-blocks size reason takers id rest (insert j channel' channels) unique in
            ground (
              arith,
              found,
              goes,
              later,
              reset_channel-blocks size reason (takers j) channel,
              lookup-insert j id channel' channels,
              nat_beq_iff j id,
            )
      ]
    ]
