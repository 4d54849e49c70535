-- ===== src/Accounts/Management.antt =====
-- internal/auth/users.go: the first superuser, and what a superuser does to other users.
use wispdeck.Prelude.{
  ℕ, ◌+◌, Bool, not, ◌&&◌, ◌||◌, ◌==◌, Text, text, ◌++◌, Option, text_comparable,
}
use wispdeck.Accounts.Types.{
  role_superuser, valid_role, user_active, user_disabled, assurance_password, assurance_mfa, User,
  Session, SetupTokenRecord, UserSetup, setup_token_lifetime, forbidden, invalid_setup_token,
  invalid_user_state, invalid_role, invalid_username, rejected, failed,
}
use wispdeck.Accounts.Names.{
  Strings, normalize_username, valid_username, new_token, valid_token, token_digest,
}
use wispdeck.Accounts.Users.{
  create_initial_user, create_managed_user, update_user_role, update_user_status,
}
use wispdeck.Accounts.Setup.{
  create_pending_user, setup_by_token_hash, complete_user_setup, replace_user_setup_token,
}
use wispdeck.Accounts.Service.{
  Passwords, Call, ◌>>=◌, ◌>>◌, return_value, refuse, or_error, load, record_event, event_of,
}

unfoldable pub can_manage_users : Session → Bool
can_manage_users session =
    session.user.role == role_superuser
    && (session.assurance == assurance_password || session.assurance == assurance_mfa)

-- The two checks of a password for a username, and its hash.
unfoldable pub accepted_hash : Passwords → Text → Text → Call Text
accepted_hash passwords username password = do
  refuse (not (passwords.validate password)) rejected
  refuse (not (passwords.check password username)) rejected
  or_error (passwords.hash password) failed

unfoldable pub create_initial_superuser :
    Strings → Passwords → Text → Text → Text → ℕ → Option Text → Call User
create_initial_superuser strings passwords username password client_ip now random = do
  let name = normalize_username strings username
  refuse (not (valid_username name)) invalid_username
  hash ← accepted_hash passwords name password
  create_initial_user name hash client_ip now random

-- An event about a target, by the actor.
unfoldable pub record_by : Session → ℕ → Text → Text → Call (Unit {0})
record_by actor now kind details =
    record_event (event_of now kind actor.user.username actor.user.id actor.client_ip details)

unfoldable pub create_user_with_password :
    Strings → Passwords → Session → Text → Text → Text → ℕ → Option Text → Call User
create_user_with_password strings passwords actor username password role now random = do
  refuse (not (can_manage_users actor)) forbidden
  let name = normalize_username strings username
  refuse (not (valid_username name)) invalid_username
  refuse (not (valid_role role)) invalid_role
  hash ← accepted_hash passwords name password
  user ← create_managed_user name hash role user_active now random
  record_by actor now (text "user_created")
      (text "target=" ++ user.username ++ text " role=" ++ user.role ++ text " method=password")
  return_value user

-- `newSetupToken`, of the bytes that `rand.Read` fills.
abbrev pub setup_token_record : Strings → Text → Text → ℕ → SetupTokenRecord
setup_token_record strings created_by token now = record {
  token_hash = token_digest strings token;
  created_by_user_id = created_by;
  created_at = now;
  expires_at = now + setup_token_lifetime;
}

-- `random` is the placeholder's, `random'` the token's and `random_id` the user's.
unfoldable pub create_user_with_setup :
    Strings
    → Passwords
    → Session
    → Text
    → Text
    → ℕ
    → Option Text
    → Option Text
    → Option Text
    → Call (User × Text)
create_user_with_setup strings passwords actor username role now random random' random_id = do
  refuse (not (can_manage_users actor)) forbidden
  let name = normalize_username strings username
  refuse (not (valid_username name)) invalid_username
  refuse (not (valid_role role)) invalid_role
  placeholder ← or_error random failed
  hash ← or_error (passwords.hash (new_token strings placeholder)) failed
  raw ← or_error random' failed
  let token = new_token strings raw
  user ←
      create_pending_user name hash role (setup_token_record strings actor.user.id token now)
        random_id
  record_by actor now (text "user_created")
      (text "target=" ++ user.username ++ text " role=" ++ user.role ++ text " method=setup_link")
  return_value (user, token)

-- `ReplaceUserSetupToken`
unfoldable pub replace_setup_token : Strings → Session → Text → ℕ → Option Text → Call (Text × ℕ)
replace_setup_token strings actor user_id now random = do
  refuse (not (can_manage_users actor)) forbidden
  raw ← or_error random failed
  let token = new_token strings raw
  let setup = setup_token_record strings actor.user.id token now
  replace_user_setup_token user_id setup
  record_by actor now (text "user_setup_link_replaced") (text "target_id=" ++ user_id)
  return_value (token, setup.expires_at)

unfoldable pub user_setup : Strings → Text → ℕ → Call UserSetup
user_setup strings token now = do
  refuse (not (valid_token strings token)) invalid_setup_token
  load (setup_by_token_hash (token_digest strings token) now)

-- `CompleteUserSetup`
unfoldable pub complete_setup : Strings → Passwords → Text → Text → Text → ℕ → Call User
complete_setup strings passwords token password client_ip now = do
  setup ← user_setup strings token now
  hash ← accepted_hash passwords setup.username password
  user ← complete_user_setup (token_digest strings token) hash now
  record_event (
      event_of now (text "user_setup_completed") user.username user.id client_ip
        (text "initial password established"))
  return_value user

unfoldable pub set_user_role : Session → Text → Text → ℕ → Call User
set_user_role actor user_id role now = do
  refuse (not (can_manage_users actor)) forbidden
  refuse (not (valid_role role)) invalid_role
  user ← update_user_role user_id role now
  record_by actor now (text "user_role_changed")
      (text "target=" ++ user.username ++ text " role=" ++ user.role)
  return_value user

unfoldable pub set_user_status : Session → Text → Text → ℕ → Call User
set_user_status actor user_id status now = do
  refuse (not (can_manage_users actor)) forbidden
  refuse (not (status == user_active) && not (status == user_disabled)) invalid_user_state
  user ← update_user_status user_id status now
  record_by actor now (text "user_status_changed")
      (text "target=" ++ user.username ++ text " status=" ++ user.status)
  return_value user
