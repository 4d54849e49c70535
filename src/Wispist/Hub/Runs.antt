-- ===== src/Wispist/Hub/Runs.antt =====
-- wispist/hub.go: what holds of the hub after any calls, in any order.
use wispdeck.Prelude.{
  ℕ, ◌≤◌, ◌≡◌, refl, arith, Text, List, [], ◌∷◌, Option, none, some, ℕ_comparable, text_comparable,
  lookup, Bool, true, false, every, Option-cases, inl, inr,
}
use Prim.{tt}
use wispdeck.Wispist.Types.{Change}
use wispdeck.Wispist.Hub.{
  HubEvent, Taker, by_reset, by_reader, after_test, drain, ChangeHub, subscriptions, new_change_hub,
  subscribe, unsubscribe, publish, reset, receive,
}
use wispdeck.Wispist.Hub.Channels.{IsUnique, Drains}
use wispdeck.Wispist.Hub.Sound.{IsSound}
use wispdeck.Wispist.Hub.Calls.{
  Passes, publish-Passes, reset-Passes, unsubscribe-Passes, subscribe-IsSound, receive-IsSound,
}

-- The calls of the hub's clients; a reader is one of them.
pub data Call : Type 0 where
  call_subscribe : Text → List Text → Call
  call_unsubscribe : Text → ℕ → Call
  call_publish : Text → Change → Call
  call_reset : Text → Text → (ℕ → List Taker) → Call
  call_receive : ℕ → Call

unfoldable pub step : Call → ChangeHub → Option ChangeHub
step (call_subscribe namespace collections) h = some (subscribe namespace collections h).0
step (call_unsubscribe namespace id) h = unsubscribe namespace id h
step (call_publish namespace change) h = publish namespace change h
step (call_reset namespace reason takers) h = reset namespace reason takers h
step (call_receive id) h = some (receive id h)

unfoldable pub run : List Call → ChangeHub → Option ChangeHub
run [] h = some h
run (call ∷ calls) h = elim (step call h) [ none ↦ none | some h' ↦ run calls h' ]

-- A reader takes an event before the test that `reset` makes of the channel, not after it.
abbrev is_orderly : Taker → Bool
is_orderly by_reset = true
is_orderly by_reader = true
is_orderly after_test = false

unfoldable pub Undisturbed : List Call → Type 0
Undisturbed [] = Unit {0}
Undisturbed (call_reset namespace reason takers ∷ calls) =
    ((id : ℕ) → every is_orderly (takers id) ≡ true) × Undisturbed calls
Undisturbed (call ∷ calls) = Undisturbed calls

drain-orderly :
    (takers : List Taker) (queue : List HubEvent)
    → every is_orderly takers ≡ true
    → drain false takers queue ≡ some []
unfolding drain every
drain-orderly takers [] orderly = refl
drain-orderly [] (event ∷ rest) orderly = drain-orderly [] rest refl
drain-orderly (by_reset ∷ takers) (event ∷ rest) orderly = drain-orderly takers rest orderly
drain-orderly (by_reader ∷ takers) (event ∷ rest) orderly = drain-orderly takers rest orderly
drain-orderly (after_test ∷ takers) (event ∷ rest) orderly = absurd (ground arith)

Drains-orderly :
    (takers : ℕ → List Taker) (namespace : Text) (h : ChangeHub)
    → ((id : ℕ) → every is_orderly (takers id) ≡ true)
    → IsSound h
    → Drains takers (subscriptions namespace h) h.channels
Drains-orderly takers namespace h orderly sound id listed =
    elim (Option-cases (lookup id h.channels)) [
      | inl absent ↦ absurd (ground (arith, sound.opened namespace id listed, absent))
      | inr (channel, found) ↦
          ground (arith, found, drain-orderly (takers id) channel.queue (orderly id))
    ]

step-Passes :
    (call : Call) (h : ChangeHub) → Undisturbed (call ∷ []) → IsSound h → Passes (step call h)
unfolding Passes step Undisturbed
step-Passes (call_subscribe namespace collections) h undisturbed sound =
    ((subscribe namespace collections h).0, refl, subscribe-IsSound namespace collections h sound)
step-Passes (call_unsubscribe namespace id) h undisturbed sound =
    unsubscribe-Passes namespace id h sound
step-Passes (call_publish namespace change) h undisturbed sound =
    publish-Passes namespace change h sound
step-Passes (call_reset namespace reason takers) h (orderly, rest) sound =
    reset-Passes namespace reason takers h sound (Drains-orderly takers namespace h orderly sound)
step-Passes (call_receive id) h undisturbed sound = (receive id h, refl, receive-IsSound id h sound)

Undisturbed-cons :
    (call : Call) (calls : List Call)
    → Undisturbed (call ∷ calls)
    → Undisturbed (call ∷ []) × Undisturbed calls
unfolding Undisturbed
Undisturbed-cons (call_subscribe namespace collections) calls u = (tt, u)
Undisturbed-cons (call_unsubscribe namespace id) calls u = (tt, u)
Undisturbed-cons (call_publish namespace change) calls u = (tt, u)
Undisturbed-cons (call_reset namespace reason takers) calls (orderly, u) = ((orderly, tt), u)
Undisturbed-cons (call_receive id) calls u = (tt, u)

run-Passes :
    (calls : List Call) (h : ChangeHub) → Undisturbed calls → IsSound h → Passes (run calls h)
unfolding Passes run
run-Passes [] h undisturbed sound = (h, refl, sound)
run-Passes (call ∷ calls) h undisturbed sound =
    let (first, later) = Undisturbed-cons call calls undisturbed in
    let (h', passes, sound') = step-Passes call h first sound in
    let (last, runs, sound'') = run-Passes calls h' later sound' in
    (last, ground (arith, passes, runs), sound'')

new_change_hub-IsSound : (queue_size : ℕ) → 1 ≤ queue_size → IsSound (new_change_hub queue_size)
unfolding new_change_hub IsUnique lookup
new_change_hub-IsSound queue_size sized = record {
  unique = λ namespace. tt;
  opened = λ namespace id listed. ground arith;
  known = λ namespace id listed. ground arith;
  apart = λ one other id listed again. ground arith;
  sized = sized;
  bounded = λ id. ground arith;
}

-- From a new hub with room for an event in its queues, any calls, in any order, go through, where no
-- reader takes an event between the test and the receive of a drain of `reset`: none closes a closed
-- channel, sends on one or blocks. After them the ids of a namespace are distinct and at most the
-- last one given, their channels are open, no id is in two namespaces, and no queue is longer than
-- the size.
pub run-new_change_hub :
    (queue_size : ℕ)
    → (calls : List Call) → 1 ≤ queue_size
    → Undisturbed calls
    → (h : ChangeHub) × (run calls (new_change_hub queue_size) ≡ some h) × IsSound h
unfolding Passes
run-new_change_hub queue_size calls sized undisturbed =
    run-Passes calls (new_change_hub queue_size) undisturbed
      (new_change_hub-IsSound queue_size sized)
