-- ===== src/Updater/Manager.antt =====
-- internal/updater/manager.go: the update manager. `check` and `apply` take the lock for `Snapshot`,
-- for `setWork` and after the call of the release client, and give it up in between, where the
-- settings may change: each of these is a step of its own, and the worker says where the loop's
-- goroutine stands. What the client, `RequestApply` and the repository answer is part of a step.
pub mod Steps
pub mod Runs
use wispdeck.Prelude.{
  ℕ, Bool, true, false, not, ◌&&◌, ◌||◌, ◌==◌, Text, text, List, [], ◌∷◌, ◌++◌, Option, none, some,
  length, take, ltb, if◌then◌else◌, text_comparable,
}
use wispdeck.Updater.Policy.{
  mode_automatic, mode_disabled, valid_mode, Settings, Actor, Event, Release,
}

pub data ActionKind : Type 0 where
  action_check action_apply : ActionKind

pub record Action : Type 0 where
  pub kind : ActionKind
  pub actor : Actor

-- `client` and `request_apply` say whether the configuration has them.
pub record Manager : Type 0 where
  pub client : Bool
  pub request_apply : Bool
  pub staging_dir : Text
  pub settings : Settings
  pub latest : Release
  pub checking : Bool
  pub applying : Bool
  pub checked : ℕ
  pub last_err : Text
  pub actions : List Action

pub record Snapshot : Type 0 where
  pub configured : Bool
  pub mode : Text
  pub skipped_version : Text
  pub latest : Release
  pub available : Bool
  pub checking : Bool
  pub applying : Bool
  pub last_checked_at : ℕ
  pub last_error : Text

-- `Release{}`
abbrev pub no_release : Release
no_release = record { version = []; published_at = 0; notes = []; assets = [] }

-- `Actor{}`
abbrev pub no_actor : Actor
no_actor = record { user_id = []; username = []; client_ip = [] }

abbrev pub configured : Manager → Bool
configured m = m.client && m.request_apply && not (m.staging_dir == [])

-- `Snapshot`
unfoldable pub snapshot : Manager → Snapshot
snapshot m = record {
  configured = configured m;
  mode = m.settings.mode;
  skipped_version = m.settings.skipped_version;
  latest = m.latest;
  available =
      configured m
      && not (m.latest.version == [])
      && not (m.latest.version == m.settings.skipped_version)
      && not (m.settings.mode == mode_disabled);
  checking = m.checking;
  applying = m.applying;
  last_checked_at = m.checked;
  last_error = m.last_err;
}

-- `NewManager`, over the settings that the repository holds.
unfoldable pub new_manager : Bool → Bool → Text → Settings → Option Manager
new_manager client request_apply staging_dir settings =
    if not (valid_mode settings.mode)
    then none
    else some (record {
      client = client;
      request_apply = request_apply;
      staging_dir = staging_dir;
      settings = settings;
      latest = no_release;
      checking = false;
      applying = false;
      checked = 0;
      last_err = [];
      actions = [];
    })

-- `queue`: the channel holds eight actions, and an action that does not fit is dropped.
unfoldable pub queue : Action → Manager → Manager × Bool
queue value m =
    if ltb (length m.actions) 8
    then (record m { actions = m.actions ++ value ∷ [] }, true)
    else (m, false)

-- `setWork`
unfoldable pub set_work : Bool → Bool → Text → Manager → Manager
set_work checking applying last_error m = record m {
  checking = checking;
  applying = applying;
  last_err = last_error;
}

-- Whether `check` goes on after its `Snapshot`.
unfoldable pub check_begin : Snapshot → Bool
check_begin s = not (not s.configured || s.mode == mode_disabled || s.checking || s.applying)

-- What the client's `Check` returns.
pub data CheckOutcome : Type 0 where
  check_failed : Text → CheckOutcome
  check_found : Release → Bool → CheckOutcome

-- `check`, under the lock that follows the call. The error is the text that `safeError` returns.
unfoldable pub check_end : ℕ → CheckOutcome → Manager → Manager
check_end now (check_failed e) m = record m { checking = false; checked = now; last_err = e }
check_end now (check_found release available) m = record m {
  checking = false;
  checked = now;
  last_err = [];
  latest = if available then release else no_release;
}

-- Whether `check` goes on to `apply`.
unfoldable pub check_applies : CheckOutcome → Manager → Bool
check_applies (check_failed e) m = false
check_applies (check_found release available) m =
    available
    && m.settings.mode == mode_automatic
    && not (m.settings.skipped_version == release.version)

-- The event that `check` records.
unfoldable pub check_event : ℕ → Actor → CheckOutcome → List Event
check_event now actor (check_failed e) = []
check_event now actor (check_found release available) =
    if actor.user_id == []
    then []
    else record {
      occurred_at = now;
      actor = actor;
      kind = text "check_requested";
      version = release.version;
      details = [];
    }
      ∷ []

-- `apply` after its `Snapshot`: the release that it stages, if it goes on.
unfoldable pub apply_begin : Snapshot → Option Release
apply_begin s =
    if not s.configured || not s.available || s.applying || s.checking then none else some s.latest

-- `apply`, where `Stage` or `RequestApply` failed.
unfoldable pub apply_failed : Text → Manager → Manager
apply_failed e m = record m { applying = false; last_err = e }

abbrev pub apply_event : ℕ → Actor → Release → Event
apply_event now actor release = record {
  occurred_at = now;
  actor = actor;
  kind = text "update_requested";
  version = release.version;
  details = [];
}

-- `safeError`, of an error's text without the space around it.
unfoldable pub safe_error : Text → Text
safe_error value = if ltb 500 (length value) then take 500 value else value
