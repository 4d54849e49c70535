-- ===== src/Accounts/Types.antt =====
-- internal/auth/service.go and internal/auth/users.go: roles, states, users and sessions.
-- Instants are nanoseconds in these records, and seconds in the tables.
use wispdeck.Prelude.{ℕ, ◌*◌, Bool, ◌||◌, ◌==◌, Text, text, text_comparable}

-- `Role`, `UserStatus` and `Assurance` are strings.
abbrev pub role_user : Text
role_user = text "user"

abbrev pub role_superuser : Text
role_superuser = text "superuser"

unfoldable pub valid_role : Text → Bool
valid_role role = role == role_user || role == role_superuser

abbrev pub user_pending : Text
user_pending = text "pending"

abbrev pub user_active : Text
user_active = text "active"

abbrev pub user_disabled : Text
user_disabled = text "disabled"

unfoldable pub valid_user_status : Text → Bool
valid_user_status status =
    status == user_pending || status == user_active || status == user_disabled

abbrev pub assurance_bootstrap : Text
assurance_bootstrap = text "bootstrap"

abbrev pub assurance_password : Text
assurance_password = text "password"

abbrev pub assurance_mfa : Text
assurance_mfa = text "mfa"

abbrev pub assurance_recovery : Text
assurance_recovery = text "recovery"

pub record User : Type 0 where
  pub id : Text
  pub username : Text
  pub password_hash : Text
  pub mfa_skipped : Bool
  pub role : Text
  pub status : Text
  pub created_at : ℕ
  pub updated_at : ℕ

pub record Principal : Type 0 where
  pub id : Text
  pub username : Text
  pub role : Text

pub record Session : Type 0 where
  pub token_hash : Text
  pub user : Principal
  pub csrf_token : Text
  pub assurance : Text
  pub created_at : ℕ
  pub authenticated_at : ℕ
  pub last_seen : ℕ
  pub expires_at : ℕ
  pub client_ip : Text
  pub user_agent : Text

pub record SessionRecord : Type 0 where
  pub token_hash : Text
  pub user_id : Text
  pub csrf_token : Text
  pub assurance : Text
  pub created_at : ℕ
  pub authenticated_at : ℕ
  pub last_seen : ℕ
  pub expires_at : ℕ
  pub client_ip : Text
  pub user_agent : Text

pub record AuthEvent : Type 0 where
  pub occurred_at : ℕ
  pub kind : Text
  pub username : Text
  pub user_id : Text
  pub client_ip : Text
  pub details : Text

pub record SetupTokenRecord : Type 0 where
  pub token_hash : Text
  pub created_by_user_id : Text
  pub created_at : ℕ
  pub expires_at : ℕ

pub record UserSetup : Type 0 where
  pub user_id : Text
  pub username : Text
  pub role : Text
  pub expires_at : ℕ

-- 24 hours
abbrev pub setup_token_lifetime : ℕ
setup_token_lifetime = 24 * 60 * 60 * 1000000000

-- The errors that the packages name; `store_failed` is every other error of a repository,
-- `rejected` that of a password check, and `failed` that of a hash or of `rand.Read`.
pub data AuthError : Type 0 where
  invalid_credentials invalid_session user_not_found password_mismatch forbidden : AuthError
  last_superuser invalid_setup_token already_initialized invalid_user_state : AuthError
  user_exists invalid_role invalid_username invalid_argument : AuthError
  store_failed rejected failed : AuthError
