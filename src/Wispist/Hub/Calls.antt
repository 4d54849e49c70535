-- ===== src/Wispist/Hub/Calls.antt =====
-- wispist/hub.go: each call of the hub goes through and keeps the invariant.
use wispdeck.Prelude.{
  ℕ, ◌+◌, ◌≤◌, ◌≡◌, ◌≢◌, map, Bool, none, ◌⊎◌, inl, inr, refl, ◌∙◌, drop, arith, true, false, ◌==◌,
  Text, text_eq_iff, List, [], ◌∷◌, Option, some, length, if◌then◌else◌, ℕ_comparable,
  text_comparable, Assoc, lookup, insert, delete, lookup-insert, lookup-delete, Option-cases,
  Bool-cases, nat_beq_iff,
}
use Prim.{tt}
use wispdeck.Wispist.Types.{Change}
use wispdeck.Wispist.Hub.{
  HubEvent, Channel, ChangeHub, Taker, after_test, drain, subscriptions, subscribe, close,
  close_events, put_values, unsubscribe, publish, reset, received, receive,
}
use wispdeck.Wispist.Hub.Channels.{
  IsUnique, IsUnique-delete, IsUnique-insert, is_open, has, Drains, reset_all-ResetDone,
  reset_all-blocks,
}
use wispdeck.Wispist.Hub.Publishing.{fits, Published, publish_all-Published}
use wispdeck.Wispist.Hub.Sound.{IsSound, updated, IsShrunk, updated-IsSound}

-- The call goes through, and leaves a sound hub.
unfoldable pub Passes : Option ChangeHub → Type 0
Passes result = (h : ChangeHub) × (result ≡ some h) × IsSound h

pub publish-Passes :
    (namespace : Text) (change : Change) (h : ChangeHub)
    → IsSound h
    → Passes (publish namespace change h)
unfolding Passes publish Published
publish-Passes namespace change h sound =
    let values = subscriptions namespace h in
    let (left, new, run, done) =
      publish_all-Published h.queue_size change values values h.channels (sound.unique namespace)
        (sound.opened namespace) in
    let shrunk : IsShrunk h namespace left new = record {
      fewer = done.fewer;
      unique = done.unique (sound.unique namespace);
      stays = λ id listed. done.stays id listed (sound.opened namespace id (done.fewer id listed));
      kept = done.kept;
      bounded = λ id. done.bounded id (sound.bounded id);
    } in
    (
      updated namespace left new h,
      ground (arith, run),
      updated-IsSound h namespace left new sound shrunk,
    )

has-nil : (id : ℕ) → has id [] ≡ false
unfolding lookup
has-nil id = refl

IsUnique-nil : IsUnique []
unfolding IsUnique
IsUnique-nil = tt

pub reset-Passes :
    (namespace reason : Text) (takers : ℕ → List Taker) (h : ChangeHub)
    → IsSound h
    → Drains takers (subscriptions namespace h) h.channels
    → Passes (reset namespace reason takers h)
unfolding Passes reset put_values
reset-Passes namespace reason takers h sound drained =
    let values = subscriptions namespace h in
    let (new, run, done) =
      reset_all-ResetDone h.queue_size reason takers values h.channels sound.sized
        (sound.unique namespace) (sound.opened namespace) drained in
    let shrunk : IsShrunk h namespace [] new = record {
      fewer = λ id listed. ground (arith, has-nil id);
      unique = IsUnique-nil;
      stays = λ id listed. ground (arith, has-nil id);
      kept = done.kept;
      bounded = λ id. ground (
        arith,
        done.ended id,
        done.kept id,
        sound.bounded id,
        sound.sized,
        Bool-cases (has id values),
      );
    } in
    (
      updated namespace [] new h,
      ground (arith, run),
      updated-IsSound h namespace [] new sound shrunk,
    )

drain-after_test :
    (tested : Bool) (queue : List HubEvent)
    → (tested ≡ true) ⊎ (queue ≢ [])
    → drain tested (map (λ event. after_test) queue) queue ≡ none
unfolding drain
drain-after_test true [] left = refl
drain-after_test false [] left = absurd (ground arith)
drain-after_test tested (event ∷ rest) left = drain-after_test true rest (inl refl)

-- In a sound hub, `reset` blocks, and with it the mutex that it holds, where a subscription of the
-- namespace has events and readers take each of them after the test of the loop.
pub reset_blocks :
    (namespace reason : Text) (takers : ℕ → List Taker) (h : ChangeHub) (id : ℕ) (channel : Channel)
    → IsSound h
    → has id (subscriptions namespace h) ≡ true
    → lookup id h.channels ≡ some channel
    → channel.queue ≢ []
    → takers id ≡ map (λ event. after_test) channel.queue
    → reset namespace reason takers h ≡ none
unfolding reset
reset_blocks namespace reason takers h id channel sound listed found full races =
    let blocks = drain-after_test false channel.queue (inr full) in
    let ends =
      reset_all-blocks h.queue_size reason takers id (subscriptions namespace h) h.channels
        (sound.unique namespace) listed (rw found (rw races (rw blocks refl))) in
    ground (arith, ends)

close_events-some :
    (id : ℕ) (channels : Assoc ℕ Channel)
    → is_open (lookup id channels) ≡ true
    → (channel : Channel) × (lookup id channels ≡ some channel)
      × (close_events id channels ≡ some (insert id (record channel { closed = true }) channels))
unfolding close_events close
close_events-some id channels opened = elim (Option-cases (lookup id channels)) [
  | inl absent ↦ ground (arith, absent)
  | inr (channel, found) ↦ (channel, found, ground (arith, found))
]

pub unsubscribe-Passes :
    (namespace : Text) (id : ℕ) (h : ChangeHub) → IsSound h → Passes (unsubscribe namespace id h)
unfolding Passes unsubscribe
unsubscribe-Passes namespace id h sound =
    let values = subscriptions namespace h in
    elim (Option-cases (lookup id values)) [
      | inl absent ↦ (h, ground (arith, absent), sound)
      | inr (collections, listed) ↦
          let (channel, found, closes) =
            close_events-some id h.channels (sound.opened namespace id (ground (arith, listed))) in
          let closed = record channel { closed = true } in
          let left = delete id values in
          let new = insert id closed h.channels in
          let shrunk : IsShrunk h namespace left new = record {
            fewer = λ j there. ground (arith, lookup-delete id j values);
            unique = IsUnique-delete id values (sound.unique namespace);
            stays = λ j there. ground (
              arith,
              sound.opened namespace j,
              lookup-delete id j values,
              lookup-insert id j closed h.channels,
              nat_beq_iff id j,
            );
            kept = λ j free.
                ground (arith, listed, lookup-insert id j closed h.channels, nat_beq_iff id j);
            bounded = λ j. ground (
              arith,
              sound.bounded j,
              found,
              lookup-insert id j closed h.channels,
              nat_beq_iff id j,
            );
          } in
          (
            updated namespace left new h,
            ground (arith, listed, closes),
            updated-IsSound h namespace left new sound shrunk,
          )
    ]

subscribe-subscriptions :
    (namespace other : Text) (collections : List Text) (h : ChangeHub)
    → subscriptions other (subscribe namespace collections h).0 ≡ (
        if namespace == other
        then insert (h.next_id + 1) collections (subscriptions namespace h)
        else subscriptions other h)
unfolding subscribe
subscribe-subscriptions namespace other collections h = ground (
  arith,
  lookup-insert namespace other (insert (h.next_id + 1) collections (subscriptions namespace h))
      h.by_namespace,
)

-- An id of the hub after `subscribe` is the new one or was there before.
subscribe-has :
    (namespace other : Text) (collections : List Text) (h : ChangeHub) (id : ℕ)
    → has id (subscriptions other (subscribe namespace collections h).0) ≡ true
    → ((id ≡ h.next_id + 1) × (namespace ≡ other)) ⊎ (has id (subscriptions other h) ≡ true)
subscribe-has namespace other collections h id listed = ground (
  arith,
  subscribe-subscriptions namespace other collections h,
  lookup-insert (h.next_id + 1) id collections (subscriptions namespace h),
  nat_beq_iff (h.next_id + 1) id,
  text_eq_iff namespace other,
)

pub subscribe-IsSound :
    (namespace : Text) (collections : List Text) (h : ChangeHub)
    → IsSound h
    → IsSound (subscribe namespace collections h).0
unfolding subscribe
subscribe-IsSound namespace collections h sound =
    let id = h.next_id + 1 in
    let fresh : Channel = record { queue = []; closed = false } in
    record {
      unique = λ other. ground (
        arith,
        subscribe-subscriptions namespace other collections h,
        IsUnique-insert id collections (subscriptions namespace h) (sound.unique namespace),
        sound.unique other,
      );
      opened = λ other j listed. ground (
        arith,
        subscribe-has namespace other collections h j listed,
        sound.opened other j,
        lookup-insert id j fresh h.channels,
        nat_beq_iff id j,
      );
      known = λ other j listed.
          ground (arith, subscribe-has namespace other collections h j listed, sound.known other j);
      apart = λ one other j listed again. ground (
        arith,
        subscribe-has namespace one collections h j listed,
        subscribe-has namespace other collections h j again,
        sound.apart one other j,
        sound.known one j,
        sound.known other j,
      );
      sized = sound.sized;
      bounded = λ j.
          ground (arith, sound.bounded j, lookup-insert id j fresh h.channels, nat_beq_iff id j);
    }

received-open :
    (id j : ℕ) (channels : Assoc ℕ Channel)
    → is_open (lookup j (received id channels)) ≡ is_open (lookup j channels)
unfolding received
received-open id j channels = elim (Option-cases (lookup id channels)) [
  | inl absent ↦ ground (arith, absent)
  | inr (channel, found) ↦
      let rest = record channel { queue = drop 1 channel.queue } in
      ground (arith, found, lookup-insert id j rest channels, nat_beq_iff id j)
]

length-drop_one : (queue : List HubEvent) → length (drop 1 queue) ≤ length queue
length-drop_one [] = omega arith
length-drop_one (event ∷ rest) = omega arith

received-fits :
    (size id j : ℕ) (channels : Assoc ℕ Channel)
    → fits size (lookup j channels) ≡ true
    → fits size (lookup j (received id channels)) ≡ true
unfolding received
received-fits size id j channels fit = elim (Option-cases (lookup id channels)) [
  | inl absent ↦ ground (arith, absent)
  | inr (channel, found) ↦
      let rest = record channel { queue = drop 1 channel.queue } in
      ground (
        arith,
        found,
        lookup-insert id j rest channels,
        nat_beq_iff id j,
        length-drop_one channel.queue,
      )
]

pub receive-IsSound : (id : ℕ) (h : ChangeHub) → IsSound h → IsSound (receive id h)
unfolding receive
receive-IsSound id h sound = record {
  unique = sound.unique;
  opened = λ namespace j listed. received-open id j h.channels ∙ sound.opened namespace j listed;
  known = sound.known;
  apart = sound.apart;
  sized = sound.sized;
  bounded = λ j. received-fits h.queue_size id j h.channels (sound.bounded j);
}
