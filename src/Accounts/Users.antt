-- ===== src/Accounts/Users.antt =====
-- internal/store/users.go, and `CreateUser`, `UserByUsername`, `UserByID`, `UpdatePasswordHash` and
-- `ChangePasswordAndRevoke` of internal/store/sqlite.go. The identifier that `randomID` draws, or
-- its failure, is an argument.
use wispdeck.Prelude.{
  ℕ, Bool, false, not, ◌&&◌, ◌||◌, ◌==◌, if◌then◌else◌, Text, text, [], ◌∷◌, ◌++◌, Option, none,
  some, length, ltb, keep, exists, find, update_if, text_comparable, ℕ_comparable,
}
use wispdeck.Accounts.Types.{
  role_superuser, valid_role, user_pending, user_active, user_disabled, valid_user_status, User,
  AuthError, user_not_found, last_superuser, already_initialized, invalid_user_state, user_exists,
  invalid_argument, store_failed, failed,
}
use wispdeck.Accounts.Names.{valid_username}
use wispdeck.Accounts.Tables.{
  UserRow, Control, Outcome, done, fail, Statements, ◌>>=◌, ◌>>◌, answer, abort_if, query, update,
  require, transact, unix, from_unix, null_if_empty, fold_case,
}

abbrev pub has_id : Text → UserRow → Bool
has_id id row = row.id == id

unfoldable pub has_username : Text → UserRow → Bool
has_username username row = fold_case row.username == fold_case username

unfoldable pub select_user : Text → Control → Option UserRow
select_user id control = find (has_id id) control.users

-- What `Scan` makes of a row.
abbrev pub to_user : UserRow → User
to_user row = record {
  id = row.id;
  username = row.username;
  password_hash = row.password_hash;
  mfa_skipped = row.mfa_skipped;
  role = row.role;
  status = row.status;
  created_at = from_unix row.created_at;
  updated_at = from_unix row.updated_at;
}

abbrev pub new_row : Text → Text → Text → Text → Text → ℕ → UserRow
new_row id username password_hash role status now = record {
  id = id;
  username = username;
  password_hash = password_hash;
  mfa_skipped = false;
  role = role;
  status = status;
  created_at = unix now;
  updated_at = unix now;
}

-- The `auth.User` that a creation returns, with the instant as given.
abbrev pub new_user : Text → Text → Text → Text → Text → ℕ → User
new_user id username password_hash role status now = record {
  id = id;
  username = username;
  password_hash = password_hash;
  mfa_skipped = false;
  role = role;
  status = status;
  created_at = now;
  updated_at = now;
}

-- `INSERT INTO users`, whose primary key may be taken. The second test is `ON CONFLICT(username) DO
-- NOTHING` with `RowsAffected`.
unfoldable pub insert_user : UserRow → AuthError → Statements (Unit {0})
insert_user row conflict = do
  named ← query (λ c. exists (has_username row.username) c.users)
  abort_if named conflict
  taken ← query (λ c. exists (has_id row.id) c.users)
  abort_if taken store_failed
  update (λ c. record c { users = c.users ++ row ∷ [] })

unfoldable pub set_user : Text → (UserRow → UserRow) → Statements (Unit {0})
set_user id change = update (λ c. record c { users = update_if (has_id id) change c.users })

-- `InstallationInitialized`
unfoldable pub installation_initialized : Control → Bool
installation_initialized control = not (length control.users == 0)

unfoldable pub create_initial_user :
    Text → Text → Text → ℕ → Option Text → Control → Outcome User × Control
create_initial_user username password_hash client_ip now random = transact (do
  abort_if (not (valid_username username) || password_hash == [] || ltb 128 (length client_ip))
      invalid_argument
  id ← require random failed
  initialized ← query installation_initialized
  abort_if initialized already_initialized
  insert_user (new_row id username password_hash role_superuser user_active now) store_failed
  update (λ c. record c {
    auth_events =
        c.auth_events
        ++ (record {
          occurred_at = unix now;
          kind = text "initial_superuser_created";
          username = some username;
          user_id = some id;
          client_ip = null_if_empty client_ip;
          details = text "browser onboarding";
        })
          ∷ [];
  })
  answer (new_user id username password_hash role_superuser user_active now))

unfoldable pub create_managed_user :
    Text → Text → Text → Text → ℕ → Option Text → Control → Outcome User × Control
create_managed_user username password_hash role status now random = transact (do
  abort_if (not (valid_role role) || not (valid_user_status status)) invalid_argument
  id ← require random failed
  insert_user (new_row id username password_hash role status now) user_exists
  answer (new_user id username password_hash role status now))

-- `CreateUser`
unfoldable pub create_user : Text → Text → ℕ → Option Text → Control → Outcome User × Control
create_user username password_hash now random =
    create_managed_user username password_hash role_superuser user_active now random

-- `SELECT 1 FROM users WHERE id <> ? AND role = ? AND status = ?`
unfoldable pub another_active_superuser : Text → Control → Bool
another_active_superuser excluding control =
    exists (λ u. not (u.id == excluding) && (u.role == role_superuser && u.status == user_active))
      control.users

unfoldable pub require_another_active_superuser : Bool → Text → Statements (Unit {0})
require_another_active_superuser needed user_id = do
  another ← query (another_active_superuser user_id)
  abort_if (needed && not another) last_superuser

unfoldable pub update_user_role : Text → Text → ℕ → Control → Outcome User × Control
update_user_role user_id role now = transact (do
  abort_if (not (valid_role role)) invalid_argument
  row ← query (select_user user_id)
  current ← require row user_not_found
  require_another_active_superuser
      (current.role == role_superuser
        && not (role == role_superuser)
        && current.status == user_active)
      user_id
  set_user user_id (λ u. record u { role = role; updated_at = unix now })
  answer (record (to_user current) { role = role; updated_at = now }))

-- The four DELETE statements of a user who is disabled.
unfoldable pub revoke_user_state : Text → Control → Control
revoke_user_state user_id c = record c {
  totp_enrollments = keep (λ u. not (u == user_id)) c.totp_enrollments;
  auth_ceremonies = keep (λ u. not (u == user_id)) c.auth_ceremonies;
  login_transactions = keep (λ u. not (u == user_id)) c.login_transactions;
  sessions = keep (λ s. not (s.user_id == user_id)) c.sessions;
}

unfoldable pub update_user_status : Text → Text → ℕ → Control → Outcome User × Control
update_user_status user_id status now = transact (do
  abort_if (not (status == user_active) && not (status == user_disabled)) invalid_user_state
  row ← query (select_user user_id)
  current ← require row user_not_found
  abort_if (current.status == user_pending || current.status == status) invalid_user_state
  require_another_active_superuser
      (current.role == role_superuser && current.status == user_active && status == user_disabled)
      user_id
  set_user user_id (λ u. record u { status = status; updated_at = unix now })
  update (λ c. if status == user_disabled then revoke_user_state user_id c else c)
  answer (record (to_user current) { status = status; updated_at = now }))

unfoldable pub user_by_username : Text → Control → Outcome User
user_by_username username control = elim (find (has_username username) control.users) [
  | none ↦ fail user_not_found
  | some row ↦ done (to_user row)
]

unfoldable pub user_by_id : Text → Control → Outcome User
user_by_id id control = elim (select_user id control) [
  | none ↦ fail user_not_found
  | some row ↦ done (to_user row)
]

-- `UPDATE users SET password_hash = ?, updated_at = ? WHERE id = ?`, of one row
unfoldable pub set_password_hash : Text → Text → ℕ → Statements (Unit {0})
set_password_hash user_id password_hash now = do
  found ← query (λ c. exists (has_id user_id) c.users)
  abort_if (not found) store_failed
  set_user user_id (λ u. record u { password_hash = password_hash; updated_at = unix now })

unfoldable pub update_password_hash : Text → Text → ℕ → Control → Outcome (Unit {0}) × Control
update_password_hash user_id password_hash now =
    transact (set_password_hash user_id password_hash now)

unfoldable pub change_password_and_revoke : Text → Text → ℕ → Control → Outcome (Unit {0}) × Control
change_password_and_revoke user_id password_hash now = transact (do
  set_password_hash user_id password_hash now
  update (λ c. record c {
    auth_ceremonies = keep (λ u. not (u == user_id)) c.auth_ceremonies;
    login_transactions = keep (λ u. not (u == user_id)) c.login_transactions;
    sessions = keep (λ s. not (s.user_id == user_id)) c.sessions;
  }))
