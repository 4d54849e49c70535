-- ===== src/Tests/Accounts.antt =====
-- Users, sessions and setup tokens of one database, with the functions outside it made plain.
use wispdeck.Prelude.{
  ℕ, ◌≡◌, refl, arith, true, false, Text, text, text_eq, ◌==◌, text_comparable, List, [], ◌∷◌, some,
  every, ltb, length, keep, find, exists, update_if, not, ◌*◌, ◌≤◌, ◌<◌, ◌⊎◌, ◌≢◌, inl,
}
use wispdeck.Accounts.Types.{
  role_user, role_superuser, valid_role, user_pending, user_active, user_disabled,
  assurance_password, User, Session, invalid_session, forbidden, invalid_setup_token,
}
use wispdeck.Accounts.Names.{
  Strings, valid_username, normalize_username, new_token, valid_token, token_digest,
}
use wispdeck.Accounts.Tables.{
  done, fail, UserRow, SessionRow, SetupTokenRow, Control, empty_control, Outcome,
}
use wispdeck.Accounts.Users.{
  has_id, select_user, to_user, new_row, new_user, insert_user, set_user, installation_initialized,
  create_initial_user, another_active_superuser, require_another_active_superuser, update_user_role,
  update_user_status, user_by_id, set_password_hash, change_password_and_revoke,
}
use wispdeck.Accounts.Setup.{complete_user_setup}
use wispdeck.Accounts.Sessions.{
  create_session, to_session, select_session, session_by_token_hash, delete_session,
}
use wispdeck.Accounts.Service.{
  Passwords, Utf8, Service, bounded_user_agent, valid_assurance, new_session, authenticate,
  change_password,
}
use wispdeck.Accounts.Management.{
  record_by, can_manage_users, accepted_hash, create_initial_superuser, create_user_with_password,
  create_user_with_setup, replace_setup_token, set_user_role, set_user_status,
}
use wispdeck.Accounts.Sound.{IsSound}
use wispdeck.Accounts.Runs.{
  Setting, Action, step, run, onboarded-run-IsSound, setting_role, setting_status,
}
use wispdeck.Accounts.SignIn.{new_session-authenticate}
use wispdeck.Accounts.Lifetime.{authenticate-expired, bounded_user_agent-fits}
use wispdeck.Accounts.Tokens.{complete_user_setup-once, management-forbidden}
use wispdeck.Accounts.Revoked.{change_password-ends, set_user_status-ends}

abbrev plain_strings : Strings
plain_strings = record {
  trim_space = λ t. t;
  to_lower = λ t. t;
  to_upper = λ t. t;
  encode_base64 = λ t. t;
  decode_base64 = λ t. some t;
  sha256 = λ t. t;
}

abbrev plain_passwords : Passwords
plain_passwords = record {
  hash = λ p. some p;
  verify = λ p h. some (text_eq p h);
  needs_upgrade = λ h. false;
  validate = λ p. true;
  check = λ p c. true;
}

abbrev ascii : Utf8
ascii = record { to_valid = λ t. t; is_valid = every (λ c. ltb c 128) }

abbrev plain_service : Service
plain_service = record {
  dummy_hash = text "dummy";
  idle_timeout = 1800000000000;
  absolute_lifetime = 43200000000000;
}

abbrev plain_setting : Setting
plain_setting = record {
  strings = plain_strings;
  utf8 = ascii;
  passwords = plain_passwords;
  service = plain_service;
}

-- Thirty-two bytes, as a token has.
abbrev token_a : Text
token_a = text "aaaaaaaaaaaaaaaaaaaaaaaaaaaaaaaa"

abbrev token_b : Text
token_b = text "bbbbbbbbbbbbbbbbbbbbbbbbbbbbbbbb"

abbrev second : ℕ
second = 1000000000

abbrev ada : UserRow
ada = record (new_row (text "u1") (text "ada") (text "old") role_superuser user_active second) {
  mfa_skipped = true;
}

abbrev eve : UserRow
eve = new_row (text "u2") (text "eve") (text "pw") role_user user_active second

abbrev bob : UserRow
bob = new_row (text "u3") (text "bob") (text "none") role_user user_pending second

abbrev bob_token : SetupTokenRow
bob_token = record {
  token_hash = token_b;
  user_id = text "u3";
  created_by_user_id = text "u1";
  created_at = 1;
  expires_at = 90000;
}

abbrev ada_session : SessionRow
ada_session = record {
  token_hash = token_a;
  user_id = text "u1";
  csrf_token = token_b;
  assurance = assurance_password;
  created_at = 1;
  authenticated_at = 1;
  last_seen = 1;
  expires_at = 43201;
  client_ip = text "::1";
  user_agent = text "curl";
}

abbrev eve_session : SessionRow
eve_session = record ada_session { token_hash = token_b; user_id = text "u2" }

abbrev three_users : Control
three_users = record empty_control {
  users = ada ∷ eve ∷ bob ∷ [];
  sessions = ada_session ∷ eve_session ∷ [];
  setup_tokens = bob_token ∷ [];
}

abbrev ada_signed_in : Session
ada_signed_in = to_session ada_session ada

abbrev eve_signed_in : Session
eve_signed_in = to_session eve_session eve

abbrev onboard : Outcome User × Control
onboard =
    create_initial_superuser plain_strings plain_passwords (text "ada") (text "pw") (text "::1")
      second (some (text "u1")) empty_control

abbrev demote : List Action
demote =
    setting_role ada_signed_in (text "u1") role_user second
    ∷ setting_status ada_signed_in (text "u1") user_disabled second
    ∷ []

abbrev first_user : User
first_user = new_user (text "u1") (text "ada") (text "pw") role_superuser user_active second

onboarded-run-IsSound_example : IsSound (run plain_setting demote onboard.1)
unfolding create_initial_superuser accepted_hash create_initial_user insert_user
    installation_initialized normalize_username valid_username exists every text_eq
onboarded-run-IsSound_example =
    onboarded-run-IsSound plain_setting (text "ada") (text "pw") (text "::1") second
      (some (text "u1")) demote {user = first_user} {control = onboard.1} refl

-- The only active superuser is neither demoted nor disabled, in a run of two attempts.
demoted_nobody : (run plain_setting demote three_users).users ≡ three_users.users
unfolding run step set_user_role set_user_status can_manage_users valid_role update_user_role
    update_user_status select_user set_user find update_if exists require_another_active_superuser
    another_active_superuser text_eq
demoted_nobody = refl

abbrev signed_in : Outcome (Text × Session) × Control
signed_in =
    new_session plain_strings ascii plain_service (to_user ada) assurance_password (text "::1")
      (text "curl") (5 * second) (some (text "cccccccccccccccccccccccccccccccc")) (some token_b)
      three_users

abbrev token_c : Text
token_c = text "cccccccccccccccccccccccccccccccc"

abbrev second_session : Session
second_session = record {
  token_hash = token_c;
  user = record { id = text "u1"; username = text "ada"; role = role_superuser };
  csrf_token = token_b;
  assurance = assurance_password;
  created_at = 5 * second;
  authenticated_at = 5 * second;
  last_seen = 5 * second;
  expires_at = 43205 * second;
  client_ip = text "::1";
  user_agent = text "curl";
}

new_session-authenticate_example :
    (accepted : Session) × ((authenticate plain_strings plain_service token_c
        (100 * second)
        signed_in.1).0
      ≡ done accepted)
    × (accepted.user.id ≡ text "u1")
    × (accepted.token_hash ≡ token_c)
unfolding new_session create_session valid_assurance new_token token_digest bounded_user_agent
    exists text_eq every
new_session-authenticate_example =
    new_session-authenticate plain_strings ascii plain_service (to_user ada) assurance_password
      (text "::1") (text "curl") (5 * second) token_c token_b three_users (100 * second)
      {token = token_c} {session = second_session} {after = signed_in.1} refl refl (omega arith)
      (omega arith) (omega arith) refl

authenticate-expired_example :
    (authenticate plain_strings plain_service token_a (50000 * second) three_users
      ≡ (fail invalid_session, delete_session token_a three_users))
    × (authenticate plain_strings plain_service token_a
          (2 * second)
          (delete_session token_a three_users)
        ≡ (fail invalid_session, delete_session token_a three_users))
unfolding session_by_token_hash select_session token_digest valid_token find text_eq
authenticate-expired_example =
    authenticate-expired plain_strings plain_service token_a (50000 * second) (2 * second)
      three_users {session = ada_signed_in} refl refl refl

bounded_user_agent-fits_example :
    (length (bounded_user_agent ascii (text "curl")) ≤ 512)
    × (ascii.is_valid (bounded_user_agent ascii (text "curl")) ≡ true)
    × ((bounded_user_agent ascii (text "curl") ≡ text "curl") ⊎ (512 < length (text "curl")))
unfolding every
bounded_user_agent-fits_example = bounded_user_agent-fits ascii (text "curl") refl refl

abbrev bob_done : Outcome User × Control
bob_done = complete_user_setup token_b (text "h") (10 * second) three_users

abbrev bob_set_up : User
bob_set_up = record (new_user (text "u3") (text "bob") (text "h") role_user user_active second) {
  updated_at = 10 * second;
}

complete_user_setup-once_example :
    complete_user_setup token_b (text "again") (20 * second) bob_done.1
    ≡ (fail invalid_setup_token, bob_done.1)
unfolding complete_user_setup select_user find exists update_if keep text_eq
complete_user_setup-once_example =
    complete_user_setup-once token_b (text "h") (text "again") (10 * second) (20 * second)
      three_users {user = bob_set_up} {after = bob_done.1} (omega arith) refl

eve_plain : eve_signed_in.user.role ≢ role_superuser
eve_plain e = ground arith

management-forbidden_example :
    (create_user_with_password plain_strings plain_passwords eve_signed_in
        (text "mal")
        (text "pw")
        role_superuser
        second
        (some token_a)
        three_users
      ≡ (fail forbidden, three_users))
    × (create_user_with_setup plain_strings plain_passwords eve_signed_in
          (text "mal")
          role_superuser
          second
          (some token_a)
          (some token_a)
          (some (text "u4"))
          three_users
        ≡ (fail forbidden, three_users))
    × (replace_setup_token plain_strings eve_signed_in (text "u3") second (some token_a) three_users
        ≡ (fail forbidden, three_users))
    × (set_user_role eve_signed_in (text "u3") role_superuser second three_users
        ≡ (fail forbidden, three_users))
    × (set_user_status eve_signed_in (text "u3") user_disabled second three_users
        ≡ (fail forbidden, three_users))
management-forbidden_example =
    management-forbidden plain_strings plain_passwords eve_signed_in (text "mal") (text "pw")
      role_superuser (text "u3") user_disabled second (some token_a) (some token_a)
      (some (text "u4")) three_users (inl eve_plain)

abbrev ada_changed : Outcome (Unit {0}) × Control
ada_changed =
    change_password plain_passwords ada_signed_in (text "old") (text "new") [] (9 * second)
      three_users

change_password-ends_example :
    (every (λ s. not (s.user_id == text "u1")) ada_changed.1.sessions ≡ true)
    × (keep (λ u. not (has_id (text "u1") u)) ada_changed.1.users
        ≡ keep (λ u. not (has_id (text "u1") u)) three_users.users)
unfolding change_password change_password_and_revoke set_password_hash set_user user_by_id
    select_user find exists text_eq
change_password-ends_example =
    change_password-ends plain_passwords ada_signed_in (text "old") (text "new") [] (9 * second)
      three_users ada_changed.1 refl

abbrev eve_disabled : Outcome User × Control
eve_disabled = set_user_status ada_signed_in (text "u2") user_disabled (9 * second) three_users

abbrev disabled_eve : User
disabled_eve = record (to_user eve) { status = user_disabled; updated_at = 9 * second }

set_user_status-ends_example :
    (every (λ s. not (s.user_id == text "u2")) eve_disabled.1.sessions ≡ true)
    × (keep (λ u. not (has_id (text "u2") u)) eve_disabled.1.users
        ≡ keep (λ u. not (has_id (text "u2") u)) three_users.users)
unfolding set_user_status record_by can_manage_users update_user_status select_user
    require_another_active_superuser set_user find exists text_eq
set_user_status-ends_example =
    set_user_status-ends ada_signed_in (text "u2") (9 * second) three_users {user = disabled_eve}
      {after = eve_disabled.1} refl
