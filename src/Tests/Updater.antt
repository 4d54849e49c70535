-- ===== src/Tests/Updater.antt =====
-- internal/updater/ at concrete inputs.
use wispdeck.Prelude.{
  ◌≤◌, ◌≡◌, ◌⊎◌, ◌↔◌, refl, true, false, text, text_eq, text_comparable, List, [], ◌∷◌, length,
  some, none, exists, every,
}
use wispdeck.Prelude.Int.{pos, negsuc}
use wispdeck.Updater.Policy.{valid_mode, Settings, Actor, Release}
use wispdeck.Updater.Manager.{
  Manager, action_check, no_actor, new_manager, no_release, snapshot, set_work, queue, check_begin,
  check_found, check_end, check_applies, check_event, apply_begin,
}
use wispdeck.Updater.Manager.Steps.{
  idle, staging, Input, tick, take_action, go_on, client_answers, event_recorded, apply_answers,
  call_set_mode, call_read_latest, call_skip_latest, begin_skip, skip_latest, skip_release,
  start_check, start_apply, finish_check, set_mode, save, call_queue, begin_check, begin_apply,
  end_check, end_apply, record_events, run_action, enqueue, work, step, started, run,
}
use wispdeck.Updater.Manager.Runs.{run-accepted}
use wispdeck.Updater.Version.{
  Version, parse_version, parse_components, parse_component, parse_uint, read_digits, leading_zero,
  split_dots, compare_version,
}
use wispdeck.Updater.Version.Order.{IsOlder, compare_version-swap, compare_version-IsOlder}

abbrev automatic : Settings
automatic = record { mode = text "automatic"; skipped_version = []; updated_at = 0 }

abbrev fresh : Manager
fresh = record {
  client = true;
  request_apply = true;
  staging_dir = text "/staging";
  settings = automatic;
  latest = no_release;
  checking = false;
  applying = false;
  checked = 0;
  last_err = [];
  actions = [];
}

abbrev newer : Release
newer = record { version = text "v1.2.0"; published_at = 7; notes = []; assets = [] }

abbrev found_before : Release
found_before = record { version = text "v1.1.0"; published_at = 5; notes = []; assets = [] }

abbrev ada : Actor
ada = record { user_id = text "u1"; username = text "ada"; client_ip = [] }

-- An automatic update, while its user asks for one more.
abbrev morning : List Input
morning =
    tick
    ∷ call_queue action_check ada
    ∷ go_on
    ∷ client_answers 10 (check_found newer true)
    ∷ event_recorded true
    ∷ go_on
    ∷ go_on
    ∷ apply_answers 20 true none
    ∷ take_action
    ∷ []

morning_accepted : (run morning (started fresh)).accepted ≡ newer ∷ []
unfolding run started step work enqueue queue begin_check check_begin start_check snapshot set_work
    end_check check_end check_applies check_event finish_check begin_apply apply_begin start_apply
    end_apply record_events run_action text_eq
morning_accepted = refl

fresh_made : new_manager true true (text "/staging") automatic ≡ some fresh
unfolding new_manager valid_mode text_eq
fresh_made = refl

run-accepted_example :
    let s = run morning (started fresh) in
    (length s.accepted ≤ 1)
    × ((s.accepted ≡ []) ⊎ (s.worker ≡ idle))
    × (s.stored ≡ s.manager.settings)
    × (valid_mode s.stored.mode ≡ true)
run-accepted_example = run-accepted true true (text "/staging") automatic morning fresh_made

-- The user disables updates between the snapshot and `setWork` of `apply`: the release is staged.
abbrev late : List Input
late =
    tick
    ∷ go_on
    ∷ client_answers 10 (check_found newer true)
    ∷ event_recorded true
    ∷ go_on
    ∷ call_set_mode 11 true ada (text "disabled")
    ∷ go_on
    ∷ []

late_staging : (run late (started fresh)).worker ≡ staging newer no_actor
unfolding run started step work queue begin_check check_begin start_check snapshot set_work
    end_check check_end check_applies check_event finish_check begin_apply apply_begin start_apply
    record_events set_mode save valid_mode text_eq
late_staging = refl

-- A check finds a newer release between the read and the save of `SkipLatest`: the one read is skipped.
abbrev crossing : List Input
crossing =
    tick
    ∷ go_on
    ∷ call_read_latest
    ∷ client_answers 10 (check_found newer true)
    ∷ call_skip_latest 12 true ada
    ∷ []

crossing_skips :
    (run crossing (started (record fresh { latest = found_before }))).stored.skipped_version
    ≡ text "v1.1.0"
unfolding run started step work begin_check check_begin start_check snapshot set_work end_check
    check_end check_applies check_event begin_skip skip_latest skip_release save text_eq
crossing_skips = refl

abbrev old : Version
old = record { major = 1; minor = 2; patch = 9 }

abbrev middle : Version
middle = record { major = 1; minor = 10; patch = 0 }

parse_old : parse_version (text "v1.2.9") ≡ some old
unfolding parse_version parse_components parse_component parse_uint read_digits leading_zero
    split_dots exists every
parse_old = refl

compare_version-swap_example :
    ((compare_version old middle ≡ negsuc 0) ↔ (compare_version middle old ≡ pos 1))
    × ((compare_version old middle ≡ pos 0) ↔ (old ≡ middle))
compare_version-swap_example = compare_version-swap old middle

compare_version-IsOlder_example :
    ((compare_version old middle ≡ negsuc 0) ↔ IsOlder old middle)
    × ((compare_version old middle ≡ pos 1) ↔ IsOlder middle old)
compare_version-IsOlder_example = compare_version-IsOlder old middle
