-- ===== src/Accounts/Runs.antt =====
-- internal/auth/service.go and internal/auth/users.go: the calls that change the tables, in any
-- order and with any arguments.
use wispdeck.Prelude.{
  ℕ, ◌≡◌, arith, Text, List, [], ◌∷◌, Option, exists, every, ℕ_comparable, text_eq_refl,
}
use wispdeck.Accounts.Types.{role_superuser, user_active, Session, User}
use wispdeck.Accounts.Names.{Strings}
use wispdeck.Accounts.Tables.{Control, done, empty_control}
use wispdeck.Accounts.Users.{create_initial_user, insert_user, installation_initialized}
use wispdeck.Accounts.Service.{
  Passwords, Utf8, Service, verify_credentials, new_session, authenticate, logout, change_password,
  revoke_other_sessions, revoke_session,
}
use wispdeck.Accounts.Management.{
  accepted_hash, create_initial_superuser, create_user_with_password, create_user_with_setup,
  replace_setup_token, complete_setup, set_user_role, set_user_status,
}
use wispdeck.Accounts.Kept.{
  delete_session-IsSound, delete_other_sessions-IsSound, record_auth_event-IsSound,
}
use wispdeck.Accounts.Sound.{IsSound, IsSoundRows}
use wispdeck.Accounts.Rows.{UniqueIds}
use wispdeck.Accounts.Calls.{
  verify_credentials-IsSound, new_session-IsSound, authenticate-IsSound, change_password-IsSound,
  revoke_session-IsSound, create_initial_superuser-IsSound, create_user_with_password-IsSound,
  create_user_with_setup-IsSound, replace_setup_token-IsSound, complete_setup-IsSound,
  set_user_role-IsSound, set_user_status-IsSound,
}

-- The functions that the calls take.
pub record Setting : Type 0 where
  pub strings : Strings
  pub utf8 : Utf8
  pub passwords : Passwords
  pub service : Service

-- What a call is given, with what `rand.Read` fills.
pub data Action : Type 0 where
  signing_in : (username password client_ip : Text) → ℕ → Action
  opening : User → (assurance client_ip user_agent : Text) → ℕ → Option Text → Option Text → Action
  authenticating : Text → ℕ → Action
  signing_out : Session → Text → ℕ → Action
  changing_password : Session → (current new context : Text) → ℕ → Action
  revoking : Session → Text → ℕ → Action
  revoking_others : Session → ℕ → Action
  onboarding : (username password client_ip : Text) → ℕ → Option Text → Action
  creating : Session → (username password role : Text) → ℕ → Option Text → Action
  inviting : Session → (username role : Text) → ℕ → Option Text → Option Text → Option Text → Action
  replacing_token : Session → Text → ℕ → Option Text → Action
  completing : (token password client_ip : Text) → ℕ → Action
  setting_role : Session → (user_id role : Text) → ℕ → Action
  setting_status : Session → (user_id status : Text) → ℕ → Action

unfoldable pub step : Setting → Action → Control → Control
step s (signing_in username password client_ip now) control =
    (verify_credentials s.strings s.passwords s.service username password client_ip now control).1
step s (opening user assurance client_ip user_agent now random random') control =
    (new_session s.strings s.utf8 s.service user assurance client_ip user_agent now random random'
      control).1
step s (authenticating token now) control = (authenticate s.strings s.service token now control).1
step s (signing_out session client_ip now) control = (logout session client_ip now control).1
step s (changing_password session current new context now) control =
    (change_password s.passwords session current new context now control).1
step s (revoking session digest now) control = (revoke_session session digest now control).1
step s (revoking_others session now) control = (revoke_other_sessions session now control).1
step s (onboarding username password client_ip now random) control =
    (create_initial_superuser s.strings s.passwords username password client_ip now random
      control).1
step s (creating actor username password role now random) control =
    (create_user_with_password s.strings s.passwords actor username password role now random
      control).1
step s (inviting actor username role now random random' id) control =
    (create_user_with_setup s.strings s.passwords actor username role now random random' id
      control).1
step s (replacing_token actor user_id now random) control =
    (replace_setup_token s.strings actor user_id now random control).1
step s (completing token password client_ip now) control =
    (complete_setup s.strings s.passwords token password client_ip now control).1
step s (setting_role actor user_id role now) control =
    (set_user_role actor user_id role now control).1
step s (setting_status actor user_id status now) control =
    (set_user_status actor user_id status now control).1

unfoldable pub run : Setting → List Action → Control → Control
run s [] control = control
run s (action ∷ rest) control = run s rest (step s action control)

step-IsSound :
    (s : Setting) (action : Action) (control : Control)
    → IsSound control
    → IsSound (step s action control)
unfolding step logout revoke_other_sessions
step-IsSound s (signing_in username password client_ip now) control sound =
    verify_credentials-IsSound control sound s.strings s.passwords s.service username password
      client_ip now
step-IsSound s (opening user assurance client_ip user_agent now random random') control sound =
    new_session-IsSound control sound s.strings s.utf8 s.service user assurance client_ip user_agent
      now random random'
step-IsSound s (authenticating token now) control sound =
    authenticate-IsSound control sound s.strings s.service token now
step-IsSound s (signing_out session client_ip now) control sound =
    record_auth_event-IsSound _ (delete_session-IsSound control sound session.token_hash) _
step-IsSound s (changing_password session current new context now) control sound =
    change_password-IsSound control sound s.passwords session current new context now
step-IsSound s (revoking session digest now) control sound =
    revoke_session-IsSound control sound session digest now
step-IsSound s (revoking_others session now) control sound =
    record_auth_event-IsSound _
      (delete_other_sessions-IsSound control sound session.user.id session.token_hash) _
step-IsSound s (onboarding username password client_ip now random) control sound =
    create_initial_superuser-IsSound control sound s.strings s.passwords username password client_ip
      now random
step-IsSound s (creating actor username password role now random) control sound =
    create_user_with_password-IsSound control sound s.strings s.passwords actor username password
      role now random
step-IsSound s (inviting actor username role now random random' id) control sound =
    create_user_with_setup-IsSound control sound s.strings s.passwords actor username role now
      random random' id
step-IsSound s (replacing_token actor user_id now random) control sound =
    replace_setup_token-IsSound control sound s.strings actor user_id now random
step-IsSound s (completing token password client_ip now) control sound =
    complete_setup-IsSound control sound s.strings s.passwords token password client_ip now
step-IsSound s (setting_role actor user_id role now) control sound =
    set_user_role-IsSound control sound actor user_id role now
step-IsSound s (setting_status actor user_id status now) control sound =
    set_user_status-IsSound control sound actor user_id status now

pub run-IsSound :
    (s : Setting) (actions : List Action) (control : Control)
    → IsSound control
    → IsSound (run s actions control)
unfolding run
run-IsSound s [] control sound = sound
run-IsSound s (action ∷ rest) control sound =
    run-IsSound s rest (step s action control) (step-IsSound s action control sound)

onboarded-IsSound :
    (s : Setting) (username password client_ip : Text) (now : ℕ) (random : Option Text)
    {user : User} {control : Control}
    → create_initial_superuser s.strings s.passwords username password client_ip now random
        empty_control
      ≡ (done user, control)
    → IsSound control
unfolding create_initial_superuser accepted_hash create_initial_user insert_user
    installation_initialized IsSound IsSoundRows UniqueIds exists every
onboarded-IsSound s username password client_ip now random e =
    ground (arith, text_eq_refl role_superuser, text_eq_refl user_active)

-- After the first superuser is created in an empty database, whatever calls follow, with whatever
-- arguments and outcomes: no two users have one identifier, there is an active superuser, and every
-- session is one of an active user.
pub onboarded-run-IsSound :
    (s : Setting) (username password client_ip : Text) (now : ℕ) (random : Option Text)
    (actions : List Action) {user : User} {control : Control}
    → create_initial_superuser s.strings s.passwords username password client_ip now random
        empty_control
      ≡ (done user, control)
    → IsSound (run s actions control)
onboarded-run-IsSound s username password client_ip now random actions {user} {control} created =
    run-IsSound s actions control (
      onboarded-IsSound s username password client_ip now random {user = user} {control = control}
        created)
