-- ===== src/Tests/Hub.antt =====
-- wispist/hub.go at concrete inputs.
use wispdeck.Prelude.{
  ℕ, ◌≡◌, subst, refl, arith, true, false, every, text, text_eq, List, [], ◌∷◌, some, none, lookup,
  insert, delete, exists,
}
use wispdeck.Wispist.Types.{Change, change_delete}
use wispdeck.Wispist.Hub.{
  ChangeHub, event_change, event_reset, Taker, after_test, drain, new_change_hub, subscribe,
  unsubscribe, close, close_events, put_values, offer, publish_all, publish, reset_channel,
  reset_all, reset, received, receive,
}
use wispdeck.Wispist.Hub.Sound.{IsSound}
use wispdeck.Wispist.Hub.Calls.{reset_blocks}
use Prim.{tt}
use wispdeck.Wispist.Hub.Runs.{
  Call, call_subscribe, call_unsubscribe, call_publish, call_reset, call_receive, Undisturbed, step,
  run, run-new_change_hub,
}

abbrev gone : Change
gone = record {
  sequence = 4;
  cursor = [];
  collection = text "notes";
  operation = change_delete;
  document = none;
  id = text "d";
  revision = [];
}

-- A slow reader, whose queue of one overflows, and another that is there at the reset.
abbrev calls : List Call
calls =
    call_subscribe (text "n") (text "notes" ∷ [])
    ∷ call_publish (text "n") gone
    ∷ call_subscribe (text "n") (text "tasks" ∷ [])
    ∷ call_publish (text "n") gone
    ∷ call_unsubscribe (text "n") 1
    ∷ call_reset (text "n") (text "purge") (λ id. [])
    ∷ call_receive 1
    ∷ []

abbrev last : ChangeHub
last = record {
  next_id = 2;
  by_namespace = [];
  queue_size = 1;
  channels =
      (1, record { queue = []; closed = true })
      ∷ (2, record { queue = event_reset (text "purge") ∷ []; closed = true })
      ∷ [];
}

calls_pass : run calls (new_change_hub 1) ≡ some last
unfolding run step new_change_hub subscribe unsubscribe close close_events put_values offer
    publish_all publish drain reset_channel reset_all reset received receive lookup insert delete
    exists text_eq
calls_pass = refl

run-new_change_hub_example : (h : ChangeHub) × (run calls (new_change_hub 1) ≡ some h) × IsSound h
unfolding every
run-new_change_hub_example =
    run-new_change_hub 1 calls (omega arith) (unfold Undisturbed in (λ id. refl, tt))

-- A reader takes the one event of a channel that `reset` is about to receive.
abbrev races : ℕ → List Taker
races id = after_test ∷ []

abbrev waiting : ChangeHub
waiting = record {
  next_id = 1;
  by_namespace = (text "n", (1, text "notes" ∷ []) ∷ []) ∷ [];
  queue_size = 1;
  channels = (1, record { queue = event_change gone ∷ []; closed = false }) ∷ [];
}

abbrev before_reset : List Call
before_reset = call_subscribe (text "n") (text "notes" ∷ []) ∷ call_publish (text "n") gone ∷ []

queue_waits : run before_reset (new_change_hub 1) ≡ some waiting
unfolding run step new_change_hub subscribe close close_events put_values offer publish_all publish
    lookup insert delete exists text_eq
queue_waits = refl

waiting-IsSound : IsSound waiting
waiting-IsSound =
    let (h, runs, sound) =
      run-new_change_hub 1 before_reset (omega arith) (unfold Undisturbed in tt) in
    let same : h ≡ waiting = ground (arith, runs, queue_waits) in subst IsSound same sound

reset_blocks_example : reset (text "n") (text "purge") races waiting ≡ none
unfolding lookup text_eq
reset_blocks_example =
    reset_blocks (text "n") (text "purge") races waiting 1
      (record { queue = event_change gone ∷ []; closed = false }) waiting-IsSound refl refl
      (λ e. ground arith) refl
