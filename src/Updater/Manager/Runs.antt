-- ===== src/Updater/Manager/Runs.antt =====
-- internal/updater/manager.go: what holds of the manager whatever happens, in whatever order.
use wispdeck.Prelude.{
  ℕ, ◌≤◌, ◌≡◌, ◌⊎◌, refl, text_comparable, ◌∙◌, sym, ap, arith, Bool, true, false, not,
  if◌then◌else◌, Text, List, [], ◌∷◌, length, Option, none, some, is_some, Option-cases, inl, inr,
}
use wispdeck.Updater.Policy.{valid_mode, Settings, Actor, Event, Release}
use wispdeck.Updater.Manager.{
  ActionKind, action_check, action_apply, Action, Manager, queue, no_actor, new_manager, snapshot,
  set_work, check_begin, CheckOutcome, check_failed, check_found, check_end, apply_begin,
  apply_failed,
}
use wispdeck.Updater.Manager.Steps.{
  Worker, idle, check_passed, checking_for, check_answered, apply_due, apply_passed, staging,
  start_check, start_apply, finish_check, go_on, event_recorded, System, begin_check, begin_apply,
  end_check, end_apply, save, enqueue, set_mode, begin_skip, skip_release, skip_latest,
  clear_skipped, Input, tick, take_action, client_answers, apply_answers, call_set_mode,
  call_read_latest, call_skip_latest, call_clear_skipped, call_queue, run_action, work, step,
  started, run,
}

-- What the two flags say of the goroutine, and of the releases handed over.
unfoldable pub Agrees : Worker → Manager → List Release → Type 0
Agrees idle m [] = (m.checking ≡ false) × (m.applying ≡ false)
Agrees idle m (r ∷ rs) = (m.checking ≡ false) × (m.applying ≡ true) × (rs ≡ [])
Agrees (check_passed actor) m accepted =
    (m.checking ≡ false) × (m.applying ≡ false) × (accepted ≡ [])
Agrees (check_answered new applies) m accepted =
    (m.checking ≡ false) × (m.applying ≡ false) × (accepted ≡ [])
Agrees apply_due m accepted = (m.checking ≡ false) × (m.applying ≡ false) × (accepted ≡ [])
Agrees (apply_passed release actor) m accepted =
    (m.checking ≡ false) × (m.applying ≡ false) × (accepted ≡ [])
Agrees (checking_for actor) m accepted =
    (m.checking ≡ true) × (m.applying ≡ false) × (accepted ≡ [])
Agrees (staging release actor) m accepted =
    (m.checking ≡ false) × (m.applying ≡ true) × (accepted ≡ [])

unfoldable pub IsSound : System → Type 0
IsSound s =
    Agrees s.worker s.manager s.accepted
    × (s.stored ≡ s.manager.settings)
    × (valid_mode s.stored.mode ≡ true)

begin_check-IsSound :
    (actor : Actor) (s : System) → s.worker ≡ idle → IsSound s → IsSound (begin_check actor s)
unfolding IsSound Agrees begin_check check_begin snapshot
begin_check-IsSound actor s at_idle h = ground arith

begin_apply-IsSound :
    (actor : Actor) (s : System) → s.worker ≡ idle → IsSound s → IsSound (begin_apply actor s)
unfolding IsSound Agrees begin_apply apply_begin snapshot
begin_apply-IsSound actor s at_idle h = ground arith

start_check-IsSound :
    (actor : Actor) (s : System)
    → s.worker ≡ check_passed actor
    → IsSound s
    → IsSound (start_check actor s)
unfolding IsSound Agrees start_check set_work
start_check-IsSound actor s at_check h = ground arith

start_apply-IsSound :
    (release : Release) (actor : Actor) (s : System)
    → s.worker ≡ apply_passed release actor
    → IsSound s
    → IsSound (start_apply release actor s)
unfolding IsSound Agrees start_apply set_work
start_apply-IsSound release actor s at_apply h = ground arith

due_apply-IsSound :
    (s : System)
    → s.worker ≡ apply_due
    → IsSound s
    → IsSound (begin_apply no_actor (record s { worker = idle }))
unfolding IsSound Agrees begin_apply apply_begin snapshot
due_apply-IsSound s at_due h = ground arith

finish_check-IsSound :
    (recorded : Bool) (new : List Event) (applies : Bool) (s : System)
    → s.worker ≡ check_answered new applies
    → IsSound s
    → IsSound (finish_check recorded new applies s)
unfolding IsSound Agrees finish_check
finish_check-IsSound recorded new true s at_event h = ground arith
finish_check-IsSound recorded new false s at_event h = ground arith

end_check-IsSound :
    (now : ℕ) (actor : Actor) (outcome : CheckOutcome) (s : System)
    → s.worker ≡ checking_for actor
    → IsSound s
    → IsSound (end_check now actor outcome s)
unfolding IsSound Agrees end_check check_end
end_check-IsSound now actor (check_failed e) s at_check h = ground arith
end_check-IsSound now actor (check_found release available) s at_check h = ground arith

end_apply-IsSound :
    (now : ℕ) (release : Release) (actor : Actor) (recorded : Bool) (outcome : Option Text)
    (s : System)
    → s.worker ≡ staging release actor
    → IsSound s
    → IsSound (end_apply now release actor recorded outcome s)
unfolding IsSound Agrees end_apply apply_failed
end_apply-IsSound now release actor recorded (some e) s at_apply h = ground arith
end_apply-IsSound now release actor recorded none s at_apply h = ground arith

Agrees-settings :
    (w : Worker) (m : Manager) (accepted : List Release) (settings : Settings)
    → Agrees w m accepted
    → Agrees w (record m { settings = settings }) accepted
unfolding Agrees
Agrees-settings idle m [] settings h = h
Agrees-settings idle m (r ∷ rs) settings h = h
Agrees-settings (check_passed actor) m accepted settings h = h
Agrees-settings (check_answered new applies) m accepted settings h = h
Agrees-settings apply_due m accepted settings h = h
Agrees-settings (apply_passed release actor) m accepted settings h = h
Agrees-settings (checking_for actor) m accepted settings h = h
Agrees-settings (staging release actor) m accepted settings h = h

Agrees-queue :
    (w : Worker) (m : Manager) (accepted : List Release) (value : Action)
    → Agrees w m accepted
    → Agrees w (queue value m).0 accepted
unfolding Agrees queue
Agrees-queue w m accepted value h = ground arith

save-IsSound :
    (saved : Bool) (settings : Settings) (event : Event) (s : System)
    → valid_mode settings.mode ≡ true
    → IsSound s
    → IsSound (save saved settings event s)
unfolding IsSound save
save-IsSound false settings event s valid h = h
save-IsSound true settings event s valid (agrees, same, valid_stored) =
    (Agrees-settings s.worker s.manager s.accepted settings agrees, refl, valid)

not-false : {b : Bool} → not b ≡ false → b ≡ true
not-false {b} h = ground arith

if-IsSound :
    (b : Bool) (s s' : System)
    → (b ≡ true → IsSound s)
    → (b ≡ false → IsSound s')
    → IsSound (if b then s else s')
if-IsSound true s s' h h' = h refl
if-IsSound false s s' h h' = h' refl

queue-settings : (value : Action) (m : Manager) → m.settings ≡ (queue value m).0.settings
unfolding queue
queue-settings value m = ground arith

enqueue-IsSound :
    (kind : ActionKind) (actor : Actor) (s : System) → IsSound s → IsSound (enqueue kind actor s)
unfolding IsSound enqueue
enqueue-IsSound kind actor s (agrees, same, valid) =
    let value : Action = record { kind = kind; actor = actor } in
    (
      Agrees-queue s.worker s.manager s.accepted value agrees,
      same ∙ queue-settings value s.manager,
      valid,
    )

set_mode-IsSound :
    (now : ℕ) (saved : Bool) (actor : Actor) (mode : Text) (s : System)
    → IsSound s
    → IsSound (set_mode now saved actor mode s)
unfolding set_mode save enqueue queue IsSound Agrees
set_mode-IsSound now saved actor mode s h = ground arith

-- A stored mode stays valid where a change keeps the mode.
kept_mode : (s : System) → IsSound s → valid_mode s.manager.settings.mode ≡ true
unfolding IsSound
kept_mode s (agrees, same, valid) = sym (ap (λ t. valid_mode t.mode) same) ∙ valid

begin_skip-IsSound : (s : System) → IsSound s → IsSound (begin_skip s)
unfolding begin_skip IsSound
begin_skip-IsSound s h = ground arith

skip_release-IsSound :
    (now : ℕ) (saved : Bool) (actor : Actor) (latest : Release) (s : System)
    → IsSound s
    → IsSound (skip_release now saved actor latest s)
unfolding skip_release save IsSound Agrees
skip_release-IsSound now saved actor latest s h = let valid = kept_mode s h in ground arith

skip_latest-IsSound :
    (now : ℕ) (saved : Bool) (actor : Actor) (s : System)
    → IsSound s
    → IsSound (skip_latest now saved actor s)
unfolding skip_latest skip_release
skip_latest-IsSound now saved actor s h = elim (Option-cases s.skipping) [
  | inl absent ↦ ground (arith, absent)
  | inr (latest, read) ↦ rw read (skip_release-IsSound now saved actor latest s h)
]

clear_skipped-IsSound :
    (now : ℕ) (saved : Bool) (actor : Actor) (s : System)
    → IsSound s
    → IsSound (clear_skipped now saved actor s)
unfolding clear_skipped save IsSound Agrees
clear_skipped-IsSound now saved actor s h = let valid = kept_mode s h in ground arith

Agrees-actions :
    (w : Worker) (m : Manager) (accepted : List Release) (actions : List Action)
    → Agrees w m accepted
    → Agrees w (record m { actions = actions }) accepted
unfolding Agrees
Agrees-actions idle m [] actions h = h
Agrees-actions idle m (r ∷ rs) actions h = h
Agrees-actions (check_passed actor) m accepted actions h = h
Agrees-actions (check_answered new applies) m accepted actions h = h
Agrees-actions apply_due m accepted actions h = h
Agrees-actions (apply_passed release actor) m accepted actions h = h
Agrees-actions (checking_for actor) m accepted actions h = h
Agrees-actions (staging release actor) m accepted actions h = h

run_kind-IsSound :
    (kind : ActionKind) (actor : Actor) (rest : List Action) (s : System)
    → s.worker ≡ idle
    → IsSound s
    → IsSound (run_action (record { kind = kind; actor = actor } ∷ rest) s)
unfolding run_action IsSound
run_kind-IsSound action_check actor rest s at_idle (agrees, same, valid) =
    begin_check-IsSound actor _ at_idle
      (Agrees-actions s.worker s.manager s.accepted rest agrees, same, valid)
run_kind-IsSound action_apply actor rest s at_idle (agrees, same, valid) =
    begin_apply-IsSound actor _ at_idle
      (Agrees-actions s.worker s.manager s.accepted rest agrees, same, valid)

run_action-IsSound :
    (actions : List Action) (s : System)
    → s.worker ≡ idle
    → IsSound s
    → IsSound (run_action actions s)
unfolding run_action IsSound
run_action-IsSound [] s at_idle h = h
run_action-IsSound (a ∷ rest) s at_idle h = run_kind-IsSound a.kind a.actor rest s at_idle h

work-IsSound :
    (w : Worker) (input : Input) (s : System) → s.worker ≡ w → IsSound s → IsSound (work w input s)
unfolding work
work-IsSound idle tick s at h = begin_check-IsSound _ s at h
work-IsSound idle take_action s at h = run_action-IsSound _ s at h
work-IsSound (check_passed actor) go_on s at h = start_check-IsSound actor s at h
work-IsSound (checking_for actor) (client_answers now outcome) s at h =
    end_check-IsSound now actor outcome s at h
work-IsSound (check_answered new applies) (event_recorded recorded) s at h =
    finish_check-IsSound recorded new applies s at h
work-IsSound apply_due go_on s at h = due_apply-IsSound s at h
work-IsSound (apply_passed release actor) go_on s at h = start_apply-IsSound release actor s at h
work-IsSound (staging release actor) (apply_answers now recorded outcome) s at h =
    end_apply-IsSound now release actor recorded outcome s at h
work-IsSound _ _ s at h = h

step-IsSound : (input : Input) (s : System) → IsSound s → IsSound (step input s)
unfolding step
step-IsSound (call_set_mode now saved actor mode) s h =
    if-IsSound (is_some s.skipping) s (set_mode now saved actor mode s) (λ e. h)
      (λ e. set_mode-IsSound now saved actor mode s h)
step-IsSound call_read_latest s h = begin_skip-IsSound s h
step-IsSound (call_skip_latest now saved actor) s h = skip_latest-IsSound now saved actor s h
step-IsSound (call_clear_skipped now saved actor) s h =
    if-IsSound (is_some s.skipping) s (clear_skipped now saved actor s) (λ e. h)
      (λ e. clear_skipped-IsSound now saved actor s h)
step-IsSound (call_queue kind actor) s h = enqueue-IsSound kind actor s h
step-IsSound tick s h = work-IsSound s.worker tick s refl h
step-IsSound take_action s h = work-IsSound s.worker take_action s refl h
step-IsSound go_on s h = work-IsSound s.worker _ s refl h
step-IsSound (client_answers now outcome) s h = work-IsSound s.worker _ s refl h
step-IsSound (event_recorded recorded) s h = work-IsSound s.worker _ s refl h
step-IsSound (apply_answers now recorded outcome) s h = work-IsSound s.worker _ s refl h

run-IsSound : (inputs : List Input) (s : System) → IsSound s → IsSound (run inputs s)
unfolding run
run-IsSound [] s h = h
run-IsSound (input ∷ inputs) s h = run-IsSound inputs (step input s) (step-IsSound input s h)

new_manager-IsSound :
    (client request_apply : Bool)
    → (dir : Text) → (settings : Settings) → {m : Manager}
    → new_manager client request_apply dir settings ≡ some m
    → IsSound (started m)
unfolding IsSound Agrees started new_manager
new_manager-IsSound client request_apply dir settings made = ground arith

IsSound-accepted :
    (s : System) → IsSound s → (length s.accepted ≤ 1) × ((s.accepted ≡ []) ⊎ (s.worker ≡ idle))
unfolding IsSound Agrees
IsSound-accepted s h = ground arith

-- Whatever happens after `NewManager`, in whatever order: at most one release is handed to
-- `RequestApply` with success, the goroutine starts no other call of the client after that, and
-- the stored settings are the manager's, of a valid mode.
pub run-accepted :
    (client request_apply : Bool)
    → (dir : Text) → (settings : Settings) → (inputs : List Input) → {m : Manager}
    → new_manager client request_apply dir settings ≡ some m
    → let s = run inputs (started m) in
      (length s.accepted ≤ 1)
      × ((s.accepted ≡ []) ⊎ (s.worker ≡ idle))
      × (s.stored ≡ s.manager.settings)
      × (valid_mode s.stored.mode ≡ true)
unfolding IsSound
run-accepted client request_apply dir settings inputs {m} made =
    let sound =
      run-IsSound inputs (started m) (new_manager-IsSound client request_apply dir settings made) in
    let (bounded, rests) = IsSound-accepted (run inputs (started m)) sound in
    let (agrees, same, valid) = sound in (bounded, rests, same, valid)
