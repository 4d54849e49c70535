-- ===== src/Accounts/Setup.antt =====
-- internal/store/users.go: users who have yet to set a password, and their setup tokens.
use wispdeck.Prelude.{
  ℕ, Bool, false, not, ◌&&◌, ◌||◌, ◌==◌, Text, [], ◌∷◌, ◌++◌, Option, none, some, ltb, leb, keep,
  exists, find, update_if, text_comparable, ℕ_comparable,
}
use wispdeck.Accounts.Types.{
  valid_role, user_pending, user_active, User, SetupTokenRecord, UserSetup, user_not_found,
  invalid_setup_token, invalid_user_state, user_exists, invalid_argument, store_failed, failed,
}
use wispdeck.Accounts.Tables.{
  SetupTokenRow, Control, Outcome, done, fail, Statements, ◌>>=◌, ◌>>◌, answer, abort_if, query,
  update, require, transact, unix, from_unix,
}
use wispdeck.Accounts.Users.{has_id, select_user, to_user, new_row, new_user, insert_user}

abbrev pub setup_row : Text → SetupTokenRecord → SetupTokenRow
setup_row user_id setup = record {
  token_hash = setup.token_hash;
  user_id = user_id;
  created_by_user_id = setup.created_by_user_id;
  created_at = unix setup.created_at;
  expires_at = unix setup.expires_at;
}

-- `INSERT INTO user_setup_tokens`: the two keys, the creator's row and the CHECK.
unfoldable pub insert_setup_token : SetupTokenRow → Statements (Unit {0})
insert_setup_token row = do
  taken ←
      query (λ c.
        exists (λ t. t.token_hash == row.token_hash || t.user_id == row.user_id) c.setup_tokens)
  abort_if taken store_failed
  creator ← query (λ c. exists (has_id row.created_by_user_id) c.users)
  abort_if (not creator) store_failed
  abort_if (leb row.expires_at row.created_at) store_failed
  update (λ c. record c { setup_tokens = c.setup_tokens ++ row ∷ [] })

unfoldable pub create_pending_user :
    Text → Text → Text → SetupTokenRecord → Option Text → Control → Outcome User × Control
create_pending_user username placeholder role setup random = transact (do
  abort_if (not (valid_role role) || setup.created_by_user_id == []) invalid_argument
  id ← require random failed
  insert_user (new_row id username placeholder role user_pending setup.created_at) user_exists
  insert_setup_token (setup_row id setup)
  answer (new_user id username placeholder role user_pending setup.created_at))

abbrev pub is_live_token : Text → ℕ → SetupTokenRow → Bool
is_live_token digest now t = t.token_hash == digest && ltb (unix now) t.expires_at

-- The join of `SetupByTokenHash`; the token hash is a primary key.
unfoldable pub setup_by_token_hash : Text → ℕ → Control → Outcome UserSetup
setup_by_token_hash digest now control =
    elim (find (is_live_token digest now) control.setup_tokens) [
      | none ↦ fail invalid_setup_token
      | some t ↦ elim (find (λ u. u.id == t.user_id && u.status == user_pending) control.users) [
        | none ↦ fail invalid_setup_token
        | some u ↦ done (record {
          user_id = u.id;
          username = u.username;
          role = u.role;
          expires_at = from_unix t.expires_at;
        })
      ]
    ]

unfoldable pub complete_user_setup : Text → Text → ℕ → Control → Outcome User × Control
complete_user_setup digest password_hash now = transact (do
  token ← query (λ c. find (is_live_token digest now) c.setup_tokens)
  t ← require token invalid_setup_token
  update
      (λ c. record c { setup_tokens = keep (λ r. not (is_live_token digest now r)) c.setup_tokens })
  found ← query (λ c. exists (λ u. u.id == t.user_id && u.status == user_pending) c.users)
  abort_if (not found) invalid_setup_token
  update (λ c. record c {
    users =
        update_if (λ u. u.id == t.user_id && u.status == user_pending)
          (λ u. record u {
            password_hash = password_hash;
            status = user_active;
            mfa_skipped = false;
            updated_at = unix now;
          })
          c.users;
  })
  row ← query (select_user t.user_id)
  user ← require row user_not_found
  answer (to_user user))

unfoldable pub replace_user_setup_token :
    Text → SetupTokenRecord → Control → Outcome (Unit {0}) × Control
replace_user_setup_token user_id setup = transact (do
  row ← query (select_user user_id)
  user ← require row user_not_found
  abort_if (not (user.status == user_pending)) invalid_user_state
  update (λ c. record c { setup_tokens = keep (λ t. not (t.user_id == user_id)) c.setup_tokens })
  insert_setup_token (setup_row user_id setup))
