-- ===== src/Updater/Manager/Steps.antt =====
-- internal/updater/manager.go: the manager with its repository, as steps of the loop's goroutine
-- and of the callers of `SetMode`, `SkipLatest`, `ClearSkipped`, `QueueCheck` and `QueueApply`.
-- `policyMu` makes a change of settings, its save included, one step; `SkipLatest` reads the latest
-- release before it, which a check may change in between while the other changes of settings wait.
use wispdeck.Prelude.{
  ℕ, Bool, true, false, not, ◌&&◌, ◌==◌, Text, text, List, [], ◌∷◌, ◌++◌, Option, none, some,
  is_some, if◌then◌else◌, text_comparable,
}
use wispdeck.Updater.Policy.{mode_disabled, valid_mode, Settings, Actor, Event, Release}
use wispdeck.Updater.Manager.{
  ActionKind, action_check, action_apply, Action, Manager, no_actor, queue, snapshot, set_work,
  check_begin, CheckOutcome, check_end, check_applies, check_event, apply_begin, apply_failed,
  apply_event,
}

-- Where the loop's goroutine stands: in `select`; between the `Snapshot` and the `setWork` of `check`
-- or of `apply`; in a call of the client; before the event of a check, which says whether `apply`
-- is to follow; and before that `apply`.
pub data Worker : Type 0 where
  idle : Worker
  check_passed : Actor → Worker
  checking_for : Actor → Worker
  check_answered : List Event → Bool → Worker
  apply_due : Worker
  apply_passed : Release → Actor → Worker
  staging : Release → Actor → Worker

-- `stored` and `events` are the repository's; `accepted` are the releases for which
-- `RequestApply` returned no error; `skipping` is the release that a `SkipLatest` in `policyMu` has read.
pub record System : Type 0 where
  pub manager : Manager
  pub worker : Worker
  pub stored : Settings
  pub events : List Event
  pub accepted : List Release
  pub skipping : Option Release

-- `check`, called by the timers with no actor, or by an action: its `Snapshot`.
unfoldable pub begin_check : Actor → System → System
begin_check actor s =
    if check_begin (snapshot s.manager) then record s { worker = check_passed actor } else s

-- `check`: `setWork(true, false, "")`
unfoldable pub start_check : Actor → System → System
start_check actor s = record s {
  manager = set_work true false [] s.manager;
  worker = checking_for actor;
}

-- `apply`: its `Snapshot`.
unfoldable pub begin_apply : Actor → System → System
begin_apply actor s = elim (apply_begin (snapshot s.manager)) [
  | none ↦ s
  | some release ↦ record s { worker = apply_passed release actor }
]

-- `apply`: `setWork(false, true, "")`
unfoldable pub start_apply : Release → Actor → System → System
start_apply release actor s = record s {
  manager = set_work false true [] s.manager;
  worker = staging release actor;
}

-- `RecordUpdateEvent`, whose error is dropped: `recorded` says whether it returned none.
unfoldable pub record_events : Bool → List Event → List Event → List Event
record_events false new events = events
record_events true new events = events ++ new

-- `check`, under the lock that follows the call.
unfoldable pub end_check : ℕ → Actor → CheckOutcome → System → System
end_check now actor outcome s =
    let m = check_end now outcome s.manager in
    record s {
      manager = m;
      worker = check_answered (check_event now actor outcome) (check_applies outcome m);
    }

-- The rest of `check`: its event; an automatic update goes on to `apply`.
unfoldable pub finish_check : Bool → List Event → Bool → System → System
finish_check recorded new applies s = record s {
  worker = if applies then apply_due else idle;
  events = record_events recorded new s.events;
}

-- The rest of `apply`: `none` if `Stage` and `RequestApply` both succeeded.
unfoldable pub end_apply : ℕ → Release → Actor → Bool → Option Text → System → System
end_apply now release actor recorded (some e) s = record s {
  manager = apply_failed e s.manager;
  worker = idle;
}
end_apply now release actor recorded none s = record s {
  worker = idle;
  events = record_events recorded (apply_event now actor release ∷ []) s.events;
  accepted = s.accepted ++ release ∷ [];
}

-- `SaveUpdateSettings` and what follows it; `saved` says whether it returned no error.
unfoldable pub save : Bool → Settings → Event → System → System
save false settings event s = s
save true settings event s = record s {
  manager = record s.manager { settings = settings };
  stored = settings;
  events = s.events ++ event ∷ [];
}

-- `QueueCheck` and `QueueApply`
unfoldable pub enqueue : ActionKind → Actor → System → System
enqueue kind actor s = record s {
  manager = (queue (record { kind = kind; actor = actor }) s.manager).0;
}

unfoldable pub set_mode : ℕ → Bool → Actor → Text → System → System
set_mode now saved actor mode s =
    let settings = record (s.manager.settings) { mode = mode; updated_at = now } in
    let event : Event = record {
      occurred_at = now;
      actor = actor;
      kind = text "settings_changed";
      version = [];
      details = text "mode=" ++ mode;
    } in
    let s' = save saved settings event s in
    if not (valid_mode mode)
    then s
    else if saved && not (mode == mode_disabled)
    then enqueue action_check actor s'
    else s'

-- `SkipLatest`, up to its read of the latest release.
unfoldable pub begin_skip : System → System
begin_skip s = elim s.skipping [
  | none ↦ record s { skipping = some s.manager.latest }
  | some release ↦ s
]

-- `SkipLatest`, with the release that it read.
unfoldable pub skip_release : ℕ → Bool → Actor → Release → System → System
skip_release now saved actor latest s =
    let settings = record (s.manager.settings) {
      skipped_version = latest.version;
      updated_at = now;
    } in
    let event : Event = record {
      occurred_at = now;
      actor = actor;
      kind = text "version_skipped";
      version = latest.version;
      details = [];
    } in
    let s' = record s { skipping = none } in
    if latest.version == [] then s' else save saved settings event s'

unfoldable pub skip_latest : ℕ → Bool → Actor → System → System
skip_latest now saved actor s = elim s.skipping [
  | none ↦ s
  | some latest ↦ skip_release now saved actor latest s
]

unfoldable pub clear_skipped : ℕ → Bool → Actor → System → System
clear_skipped now saved actor s =
    let settings = record (s.manager.settings) { skipped_version = []; updated_at = now } in
    let event : Event = record {
      occurred_at = now;
      actor = actor;
      kind = text "settings_changed";
      version = [];
      details = text "cleared skipped version";
    } in
    if s.manager.settings.skipped_version == [] then s else save saved settings event s

-- What may happen next.
pub data Input : Type 0 where
  tick : Input
  take_action : Input
  go_on : Input
  client_answers : ℕ → CheckOutcome → Input
  event_recorded : Bool → Input
  apply_answers : ℕ → Bool → Option Text → Input
  call_set_mode : ℕ → Bool → Actor → Text → Input
  call_read_latest : Input
  call_skip_latest : ℕ → Bool → Actor → Input
  call_clear_skipped : ℕ → Bool → Actor → Input
  call_queue : ActionKind → Actor → Input

-- The loop takes a queued action off the channel and runs it.
unfoldable pub run_action : List Action → System → System
run_action [] s = s
run_action (a ∷ rest) s =
    let s' = record s { manager = record s.manager { actions = rest } } in
    elim a.kind [ action_check ↦ begin_check a.actor s' | action_apply ↦ begin_apply a.actor s' ]

-- The loop's goroutine, in `select` or back from a call; any other input is for another moment.
unfoldable pub work : Worker → Input → System → System
work idle tick s = begin_check no_actor s
work idle take_action s = run_action s.manager.actions s
work (check_passed actor) go_on s = start_check actor s
work (checking_for actor) (client_answers now outcome) s = end_check now actor outcome s
work (check_answered new applies) (event_recorded recorded) s = finish_check recorded new applies s
work apply_due go_on s = begin_apply no_actor (record s { worker = idle })
work (apply_passed release actor) go_on s = start_apply release actor s
work (staging release actor) (apply_answers now recorded outcome) s =
    end_apply now release actor recorded outcome s
work _ _ s = s

unfoldable pub step : Input → System → System
step (call_set_mode now saved actor mode) s =
    if is_some s.skipping then s else set_mode now saved actor mode s
step call_read_latest s = begin_skip s
step (call_skip_latest now saved actor) s = skip_latest now saved actor s
step (call_clear_skipped now saved actor) s =
    if is_some s.skipping then s else clear_skipped now saved actor s
step (call_queue kind actor) s = enqueue kind actor s
step input s = work s.worker input s

-- A manager that `NewManager` made, and its repository.
unfoldable pub started : Manager → System
started m = record {
  manager = m;
  worker = idle;
  stored = m.settings;
  events = [];
  accepted = [];
  skipping = none;
}

unfoldable pub run : List Input → System → System
run [] s = s
run (input ∷ inputs) s = run inputs (step input s)
