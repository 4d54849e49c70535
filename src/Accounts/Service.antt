-- ===== src/Accounts/Service.antt =====
-- internal/auth/service.go: sign-in, sessions and password changes, as calls that keep what they
-- did to the tables when a later step fails. `PasswordManager`, `ValidatePassword` and the
-- `PasswordChecker`, around Argon2 and Unicode normalization, are a record of functions, and so
-- is `unicode/utf8`; what `rand.Read` fills, or its failure, is an argument, and so is the time.
use wispdeck.Prelude.{
  ℕ, zero, suc, ◌+◌, ◌*◌, ◌/◌, ◌%◌, Bool, true, false, not, ◌||◌, ◌==◌, if◌then◌else◌, Text, text,
  [], ◌∷◌, ◌++◌, Option, none, some, length, take, leb, ltb, text_comparable, ℕ_comparable,
}
use wispdeck.Accounts.Types.{
  user_active, assurance_bootstrap, assurance_password, assurance_mfa, assurance_recovery, User,
  Session, SessionRecord, AuthEvent, AuthError, invalid_credentials, invalid_session,
  password_mismatch, forbidden, invalid_argument, rejected, failed,
}
use wispdeck.Accounts.Names.{Strings, normalize_username, new_token, valid_token, token_digest}
use wispdeck.Accounts.Tables.{Control, Outcome, done, fail}
use wispdeck.Accounts.Users.{
  user_by_username, user_by_id, update_password_hash, change_password_and_revoke,
}
use wispdeck.Accounts.Sessions.{
  create_session, session_by_token_hash, touch_session, delete_session, delete_user_session,
  delete_other_sessions, record_auth_event,
}

-- `check` takes the password and the username of its context; a nil checker accepts.
pub record Passwords : Type 0 where
  pub hash : Text → Option Text
  pub verify : Text → Text → Option Bool
  pub needs_upgrade : Text → Bool
  pub validate : Text → Bool
  pub check : Text → Text → Bool

pub record Utf8 : Type 0 where
  pub to_valid : Text → Text
  pub is_valid : Text → Bool

pub record Service : Type 0 where
  pub dummy_hash : Text
  pub idle_timeout : ℕ
  pub absolute_lifetime : ℕ

abbrev pub dummy_password : Text
dummy_password = text "wispdeck-dummy-password-verification-only"

-- `NewService`: 30 minutes, 12 hours
unfoldable pub new_service : Passwords → Option Service
new_service passwords = elim (passwords.hash dummy_password) [
  | none ↦ none
  | some dummy_hash ↦ some (record {
    dummy_hash = dummy_hash;
    idle_timeout = 30 * 60 * 1000000000;
    absolute_lifetime = 12 * 60 * 60 * 1000000000;
  })
]

abbrev pub Call : Type 0 → Type 0
Call A = Control → Outcome A × Control

infixl 5 ◌>>=◌ ◌>>◌
abbrev pub ◌>>=◌ : {A B : Type 0} → Call A → (A → Call B) → Call B
◌>>=◌ m f control =
    let (outcome, control') = m control in
    elim outcome [ done a ↦ f a control' | fail e ↦ (fail e, control') ]

abbrev pub ◌>>◌ : {B : Type 0} → Call (Unit {0}) → Call B → Call B
m >> k = m >>= λ _. k

abbrev pub return_value : {A : Type 0} → A → Call A
return_value a control = (done a, control)

abbrev pub return_error : {A : Type 0} → AuthError → Call A
return_error e control = (fail e, control)

abbrev pub refuse : Bool → AuthError → Call (Unit {0})
refuse true e control = (fail e, control)
refuse false e control = (done tt, control)

abbrev pub or_error : {A : Type 0} → Option A → AuthError → Call A
or_error none e control = (fail e, control)
or_error (some a) e control = (done a, control)

abbrev pub load : {A : Type 0} → (Control → Outcome A) → Call A
load q control = (q control, control)

abbrev pub change : (Control → Control) → Call (Unit {0})
change f control = (done tt, f control)

-- `recordEvent`
abbrev pub record_event : AuthEvent → Call (Unit {0})
record_event event control = (done tt, record_auth_event event control)

abbrev pub event_of : ℕ → Text → Text → Text → Text → Text → AuthEvent
event_of now kind username user_id client_ip details = record {
  occurred_at = now;
  kind = kind;
  username = username;
  user_id = user_id;
  client_ip = client_ip;
  details = details;
}

-- `for !utf8.ValidString(value) { value = value[:len(value)-1] }`, on the first `n` bytes.
unfoldable pub valid_prefix : Utf8 → ℕ → Text → Text
valid_prefix utf8 zero value = []
valid_prefix utf8 (suc n) value =
    let shorter = valid_prefix utf8 n value in
    if utf8.is_valid (take (suc n) value) then take (suc n) value else shorter

unfoldable pub bounded_user_agent : Utf8 → Text → Text
bounded_user_agent utf8 value =
    let valid = utf8.to_valid value in
    let prefix = valid_prefix utf8 512 valid in if leb (length valid) 512 then valid else prefix

-- The end of `VerifyCredentials`, for a user whose password matches.
unfoldable pub upgrade_password : Passwords → Text → ℕ → User → Call User
upgrade_password passwords password now user =
    if not (passwords.needs_upgrade user.password_hash) then return_value user else (do
      upgraded ← or_error (passwords.hash password) failed
      update_password_hash user.id upgraded now
      return_value (record user { password_hash = upgraded }))

-- The rest of `VerifyCredentials`, with what the lookup found and what `Verify` answered.
unfoldable pub judge_credentials : Passwords → Text → Text → ℕ → Outcome User → Bool → Call User
judge_credentials passwords password client_ip now (fail e) matched =
    return_error invalid_credentials
judge_credentials passwords password client_ip now (done user) matched =
    if not matched || not (user.status == user_active)
    then (do
      record_event (event_of now (text "login_failed") user.username user.id client_ip [])
      return_error invalid_credentials)
    else upgrade_password passwords password now user

abbrev stored_hash : Service → Outcome User → Text
stored_hash service (done user) = user.password_hash
stored_hash service (fail e) = service.dummy_hash

unfoldable pub verify_credentials :
    Strings → Passwords → Service → Text → Text → Text → ℕ → Call User
verify_credentials strings passwords service username password client_ip now control =
    let found = user_by_username (normalize_username strings username) control in
    elim (passwords.verify password (stored_hash service found)) [
      | none ↦ (fail failed, control)
      | some matched ↦ judge_credentials passwords password client_ip now found matched control
    ]

unfoldable pub valid_assurance : Text → Bool
valid_assurance assurance =
    assurance == assurance_bootstrap
    || assurance == assurance_password
    || assurance == assurance_mfa
    || assurance == assurance_recovery

abbrev pub session_record :
    Strings → Utf8 → Service → User → Text → Text → Text → ℕ → Text → Text → SessionRecord
session_record strings utf8 service user assurance client_ip user_agent now token csrf = record {
  token_hash = token_digest strings token;
  user_id = user.id;
  csrf_token = csrf;
  assurance = assurance;
  created_at = now;
  authenticated_at = now;
  last_seen = now;
  expires_at = now + service.absolute_lifetime;
  client_ip = client_ip;
  user_agent = bounded_user_agent utf8 user_agent;
}

abbrev session_of : User → SessionRecord → Session
session_of user r = record {
  token_hash = r.token_hash;
  user = record { id = user.id; username = user.username; role = user.role };
  csrf_token = r.csrf_token;
  assurance = r.assurance;
  created_at = r.created_at;
  authenticated_at = r.authenticated_at;
  last_seen = r.last_seen;
  expires_at = r.expires_at;
  client_ip = r.client_ip;
  user_agent = r.user_agent;
}

-- `NewSession`, with the bytes of the two tokens.
unfoldable pub new_session :
    Strings
    → Utf8
    → Service
    → User
    → Text
    → Text
    → Text
    → ℕ
    → Option Text
    → Option Text
    → Call (Text × Session)
new_session strings utf8 service user assurance client_ip user_agent now random random' = do
  refuse (not (valid_assurance assurance)) invalid_argument
  raw ← or_error random failed
  raw' ← or_error random' failed
  let token = new_token strings raw
  let r =
      session_record strings utf8 service user assurance client_ip user_agent now token
        (new_token strings raw')
  create_session r
  record_event (event_of now (text "login_succeeded") user.username user.id client_ip [])
  return_value (token, session_of user r)

-- `now.Sub(session.LastSeen) >= d`
abbrev pub idle_for : ℕ → Session → ℕ → Bool
idle_for d session now = leb (session.last_seen + d) now

unfoldable pub admit_session : Service → Text → ℕ → Session → Call Session
admit_session service digest now session =
    if leb session.expires_at now || idle_for service.idle_timeout session now
    then (do change (delete_session digest); return_error invalid_session)
    else if idle_for 60000000000 session now
    then (do touch_session digest now; return_value (record session { last_seen = now }))
    else return_value session

unfoldable pub authenticate : Strings → Service → Text → ℕ → Call Session
authenticate strings service token now = do
  refuse (not (valid_token strings token)) invalid_session
  session ← load (session_by_token_hash (token_digest strings token))
  admit_session service (token_digest strings token) now session

unfoldable pub logout : Session → Text → ℕ → Call (Unit {0})
logout session client_ip now = do
  change (delete_session session.token_hash)
  record_event (event_of now (text "logout") session.user.username session.user.id client_ip [])

unfoldable pub change_password : Passwords → Session → Text → Text → Text → ℕ → Call (Unit {0})
change_password passwords session current_password new_password context now = do
  refuse (session.assurance == assurance_recovery) forbidden
  user ← load (user_by_id session.user.id)
  matched ← or_error (passwords.verify current_password user.password_hash) failed
  refuse (not matched) password_mismatch
  refuse (not (passwords.validate new_password)) rejected
  refuse (not (passwords.check new_password context)) rejected
  hash ← or_error (passwords.hash new_password) failed
  change_password_and_revoke user.id hash now
  record_event (event_of now (text "password_changed") user.username user.id session.client_ip [])

unfoldable pub revoke_other_sessions : Session → ℕ → Call (Unit {0})
revoke_other_sessions session now = do
  change (delete_other_sessions session.user.id session.token_hash)
  record_event (
      event_of now (text "sessions_revoked") session.user.username session.user.id session.client_ip
        [])

abbrev hex_digit : ℕ → ℕ
hex_digit n = if ltb n 10 then 48 + n else 87 + n

-- `%x`
unfoldable pub hex : Text → Text
hex [] = []
hex (c ∷ rest) = hex_digit (c / 16) ∷ hex_digit (c % 16) ∷ hex rest

unfoldable pub revoke_session : Session → Text → ℕ → Call (Unit {0})
revoke_session session digest now = do
  delete_user_session session.user.id digest
  record_event (
      event_of now (text "session_revoked") session.user.username session.user.id session.client_ip
        (text "session=" ++ hex (take 8 digest)))
