-- ===== src/Accounts/Calls.antt =====
-- internal/auth/service.go and internal/auth/users.go: the invariant of the tables, call by call.
use wispdeck.Prelude.{ℕ, arith, Text, Option, some}
use wispdeck.Accounts.Types.{Session, User}
use wispdeck.Accounts.Names.{Strings, new_token}
use wispdeck.Accounts.Tables.{Control}
use wispdeck.Accounts.Users.{user_by_username}
use wispdeck.Accounts.Sessions.{session_by_token_hash, record_auth_event}
use wispdeck.Accounts.Service.{
  Passwords, Utf8, Service, session_record, upgrade_password, judge_credentials, verify_credentials,
  new_session, admit_session, authenticate, change_password, revoke_session,
}
use wispdeck.Accounts.Management.{
  accepted_hash, create_initial_superuser, record_by, create_user_with_password,
  create_user_with_setup, replace_setup_token, user_setup, complete_setup, set_user_role,
  set_user_status,
}
use wispdeck.Accounts.Sound.{IsSound}
use wispdeck.Accounts.Kept.{
  create_initial_user-IsSound, create_managed_user-IsSound, create_pending_user-IsSound,
  replace_user_setup_token-IsSound, update_user_role-IsSound, update_user_status-IsSound,
  update_password_hash-IsSound, complete_user_setup-IsSound, create_session-IsSound,
  delete_session-IsSound, touch_session-IsSound, change_password_and_revoke-IsSound,
  delete_user_session-IsSound,
}

module _ (control : Control) (sound : IsSound control) where
  pub revoke_session-IsSound :
      (session : Session) (digest : Text) (now : ℕ)
      → IsSound (revoke_session session digest now control).1
  unfolding IsSound revoke_session record_auth_event
  revoke_session-IsSound session digest now =
      ground (arith, delete_user_session-IsSound control sound session.user.id digest)

  pub new_session-IsSound :
      (strings : Strings) (utf8 : Utf8) (service : Service) (user : User)
      (assurance client_ip user_agent : Text) (now : ℕ) (random random' : Option Text)
      → IsSound
          (new_session strings utf8 service user assurance client_ip user_agent now random random'
            control).1
  unfolding IsSound new_session record_auth_event
  new_session-IsSound strings utf8 service user assurance client_ip user_agent now (some raw)
        (some raw') =
      ground (
        arith,
        create_session-IsSound control sound (
            session_record strings utf8 service user assurance client_ip user_agent now
              (new_token strings raw) (new_token strings raw')),
      )
  new_session-IsSound strings utf8 service user assurance client_ip user_agent now _ _ =
      ground arith

  pub admit_session-IsSound :
      (service : Service) (digest : Text) (now : ℕ) (session : Session)
      → IsSound (admit_session service digest now session control).1
  unfolding IsSound admit_session
  admit_session-IsSound service digest now session = ground (
    arith,
    delete_session-IsSound control sound digest,
    touch_session-IsSound control sound digest now,
  )

  pub change_password-IsSound :
      (passwords : Passwords) (session : Session) (current new context : Text) (now : ℕ)
      → IsSound (change_password passwords session current new context now control).1
  unfolding IsSound change_password record_auth_event
  change_password-IsSound passwords session current new context now =
      grind (arith, change_password_and_revoke-IsSound control sound)

  pub verify_credentials-IsSound :
      (strings : Strings) (passwords : Passwords) (service : Service)
      (username password client_ip : Text) (now : ℕ)
      → IsSound
          (verify_credentials strings passwords service username password client_ip now control).1
  unfolding IsSound verify_credentials judge_credentials upgrade_password record_auth_event
      user_by_username
  verify_credentials-IsSound strings passwords service username password client_ip now =
      grind (arith, update_password_hash-IsSound control sound)

  pub authenticate-IsSound :
      (strings : Strings) (service : Service) (token : Text) (now : ℕ)
      → IsSound (authenticate strings service token now control).1
  unfolding IsSound authenticate session_by_token_hash
  authenticate-IsSound strings service token now = grind (arith, admit_session-IsSound)

  pub create_initial_superuser-IsSound :
      (strings : Strings) (passwords : Passwords) (username password client_ip : Text) (now : ℕ)
      (random : Option Text)
      → IsSound
          (create_initial_superuser strings passwords username password client_ip now random
            control).1
  unfolding IsSound create_initial_superuser accepted_hash
  create_initial_superuser-IsSound strings passwords username password client_ip now random =
      grind (arith, create_initial_user-IsSound control sound)

  pub create_user_with_password-IsSound :
      (strings : Strings) (passwords : Passwords) (actor : Session) (username password role : Text)
      (now : ℕ) (random : Option Text)
      → IsSound
          (create_user_with_password strings passwords actor username password role now random
            control).1
  unfolding IsSound create_user_with_password accepted_hash record_by record_auth_event
  create_user_with_password-IsSound strings passwords actor username password role now random =
      grind (arith, create_managed_user-IsSound control sound)

  pub create_user_with_setup-IsSound :
      (strings : Strings) (passwords : Passwords) (actor : Session) (username role : Text) (now : ℕ)
      (random random' id : Option Text)
      → IsSound
          (create_user_with_setup strings passwords actor username role now random random' id
            control).1
  unfolding IsSound create_user_with_setup record_by record_auth_event
  create_user_with_setup-IsSound strings passwords actor username role now random random' id =
      grind (arith, create_pending_user-IsSound control sound)

  pub replace_setup_token-IsSound :
      (strings : Strings) (actor : Session) (user_id : Text) (now : ℕ) (random : Option Text)
      → IsSound (replace_setup_token strings actor user_id now random control).1
  unfolding IsSound replace_setup_token record_by record_auth_event
  replace_setup_token-IsSound strings actor user_id now random =
      grind (arith, replace_user_setup_token-IsSound control sound)

  pub complete_setup-IsSound :
      (strings : Strings) (passwords : Passwords) (token password client_ip : Text) (now : ℕ)
      → IsSound (complete_setup strings passwords token password client_ip now control).1
  unfolding IsSound complete_setup accepted_hash user_setup record_auth_event
  complete_setup-IsSound strings passwords token password client_ip now =
      grind (arith, complete_user_setup-IsSound control sound)

  pub set_user_role-IsSound :
      (actor : Session) (user_id role : Text) (now : ℕ)
      → IsSound (set_user_role actor user_id role now control).1
  unfolding IsSound set_user_role record_by record_auth_event
  set_user_role-IsSound actor user_id role now =
      grind (arith, update_user_role-IsSound control sound)

  pub set_user_status-IsSound :
      (actor : Session) (user_id status : Text) (now : ℕ)
      → IsSound (set_user_status actor user_id status now control).1
  unfolding IsSound set_user_status record_by record_auth_event
  set_user_status-IsSound actor user_id status now =
      grind (arith, update_user_status-IsSound control sound)
