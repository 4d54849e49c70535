-- ===== src/Accounts/Kept.antt =====
-- internal/store/users.go and internal/store/sqlite.go: the invariant of the tables, transaction by
-- transaction.
use wispdeck.Prelude.{
  ℕ, ◌≡◌, inl, inr, refl, arith, Bool, true, false, not, ◌&&◌, ◌||◌, ◌==◌, Text, text_comparable,
  text_eq_refl, Option, none, some, exists, find, keep, update_if, Bool-cases, Option-cases,
}
use wispdeck.Accounts.Types.{
  role_superuser, user_pending, user_active, SetupTokenRecord, SessionRecord, AuthEvent,
}
use wispdeck.Accounts.Tables.{UserRow, Control, unix}
use wispdeck.Accounts.Users.{
  has_id, new_row, insert_user, create_initial_user, create_managed_user, select_user,
  another_active_superuser, require_another_active_superuser, set_user, update_user_role,
  revoke_user_state, update_user_status, set_password_hash, update_password_hash,
  change_password_and_revoke,
}
use wispdeck.Accounts.Setup.{
  insert_setup_token, create_pending_user, complete_user_setup, replace_user_setup_token,
  is_live_token,
}
use wispdeck.Accounts.Sessions.{
  may_sign_in, session_row, create_session, touch_session, delete_session, delete_user_session,
  delete_other_sessions, record_auth_event,
}
use wispdeck.Accounts.Rows.{is_active_superuser, is_active_user, exists-weaken, exists-update_if}
use wispdeck.Accounts.Sound.{
  IsSound, IsSoundRows, add_user-IsSoundRows, add_session-IsSoundRows, keep-IsSoundRows,
  update_session-IsSoundRows, update_user-IsSoundRows, superuser-update_id, disable-IsSoundRows,
}

module _ (control : Control) (sound : IsSound control) where
  pub create_initial_user-IsSound :
      (username password_hash client_ip : Text) (now : ℕ) (random : Option Text)
      → IsSound (create_initial_user username password_hash client_ip now random control).1
  unfolding IsSound create_initial_user insert_user
  create_initial_user-IsSound username password_hash client_ip now none = ground arith
  create_initial_user-IsSound username password_hash client_ip now (some id) = ground (
    arith,
    add_user-IsSoundRows control.users control.sessions
        (new_row id username password_hash role_superuser user_active now),
  )

  pub create_managed_user-IsSound :
      (username password_hash role status : Text) (now : ℕ) (random : Option Text)
      → IsSound (create_managed_user username password_hash role status now random control).1
  unfolding IsSound create_managed_user insert_user
  create_managed_user-IsSound username password_hash role status now none = ground arith
  create_managed_user-IsSound username password_hash role status now (some id) = ground (
    arith,
    add_user-IsSoundRows control.users control.sessions
        (new_row id username password_hash role status now),
  )

  pub create_pending_user-IsSound :
      (username placeholder role : Text) (setup : SetupTokenRecord) (random : Option Text)
      → IsSound (create_pending_user username placeholder role setup random control).1
  unfolding IsSound create_pending_user insert_user insert_setup_token
  create_pending_user-IsSound username placeholder role setup none = ground arith
  create_pending_user-IsSound username placeholder role setup (some id) = ground (
    arith,
    add_user-IsSoundRows control.users control.sessions
        (new_row id username placeholder role user_pending setup.created_at),
  )

  pub replace_user_setup_token-IsSound :
      (user_id : Text) (setup : SetupTokenRecord)
      → IsSound (replace_user_setup_token user_id setup control).1
  unfolding IsSound replace_user_setup_token insert_setup_token
  replace_user_setup_token-IsSound user_id setup = ground arith

  pub create_session-IsSound : (r : SessionRecord) → IsSound (create_session r control).1
  unfolding IsSound create_session
  create_session-IsSound r =
      let active : exists (may_sign_in r.user_id r.assurance) control.users ≡ true
          → exists (is_active_user r.user_id) control.users ≡ true =
        exists-weaken (may_sign_in r.user_id r.assurance) (is_active_user r.user_id) control.users
          (λ u h. ground arith) in
      ground (arith, active, add_session-IsSoundRows control.users control.sessions (session_row r))

  pub touch_session-IsSound :
      (digest : Text) (now : ℕ) → IsSound (touch_session digest now control).1
  unfolding IsSound touch_session
  touch_session-IsSound digest now =
      let touched : IsSoundRows control.users (
          update_if (λ s. s.token_hash == digest) (λ s. record s { last_seen = unix now })
            control.sessions) =
        update_session-IsSoundRows control.users control.sessions (λ s. s.token_hash == digest)
          (λ s. record s { last_seen = unix now }) (λ s. refl) sound in
      ground arith

  pub delete_session-IsSound : (digest : Text) → IsSound (delete_session digest control)
  unfolding IsSound delete_session
  delete_session-IsSound digest =
      keep-IsSoundRows control.users control.sessions (λ s. not (s.token_hash == digest)) sound

  pub delete_user_session-IsSound :
      (user_id digest : Text) → IsSound (delete_user_session user_id digest control).1
  unfolding IsSound delete_user_session
  delete_user_session-IsSound user_id digest =
      let kept =
        keep-IsSoundRows control.users control.sessions
          (λ s. not (s.user_id == user_id && s.token_hash == digest)) sound in
      ground arith

  pub delete_other_sessions-IsSound :
      (user_id kept : Text) → IsSound (delete_other_sessions user_id kept control)
  unfolding IsSound delete_other_sessions
  delete_other_sessions-IsSound user_id kept =
      keep-IsSoundRows control.users control.sessions
        (λ s. not (s.user_id == user_id && not (s.token_hash == kept))) sound

  pub record_auth_event-IsSound : (event : AuthEvent) → IsSound (record_auth_event event control)
  unfolding IsSound record_auth_event
  record_auth_event-IsSound event = sound

  set_role-IsSoundRows :
      (user_id role : Text) (now : ℕ) {row : UserRow}
      → find (has_id user_id) control.users ≡ some row
      → (role == role_superuser
          || not (is_active_superuser row)
          || another_active_superuser user_id control)
        ≡ true
      → IsSoundRows
          (update_if
            (has_id user_id)
            (λ u. record u { role = role; updated_at = unix now })
            control.users)
          control.sessions
  unfolding IsSound IsSoundRows another_active_superuser
  set_role-IsSoundRows user_id role now {row} found allowed =
      let f : UserRow → UserRow = λ u. record u { role = role; updated_at = unix now } in
      let superuser : exists is_active_superuser (update_if (has_id user_id) f control.users)
          ≡ true =
        elim (Bool-cases (role == role_superuser)) [
          | inl same ↦
              exists-update_if is_active_superuser (has_id user_id) f control.users
                (λ u h. ground arith) sound.1
          | inr other ↦
              superuser-update_id control.users control.sessions user_id f found (ground arith)
                sound
        ] in
      update_user-IsSoundRows control.users control.sessions (has_id user_id) f (λ u. refl)
        (λ u h. h) superuser sound

  set_status-IsSoundRows :
      (user_id status : Text) (now : ℕ) {row : UserRow}
      → find (has_id user_id) control.users ≡ some row
      → (status == user_active) ≡ true
      → IsSoundRows
          (update_if
            (has_id user_id)
            (λ u. record u { status = status; updated_at = unix now })
            control.users)
          control.sessions
  unfolding IsSound IsSoundRows
  set_status-IsSoundRows user_id status now {row} found active =
      let f : UserRow → UserRow = λ u. record u { status = status; updated_at = unix now } in
      update_user-IsSoundRows control.users control.sessions (has_id user_id) f (λ u. refl)
        (λ u h. active)
        (exists-update_if is_active_superuser (has_id user_id) f control.users (λ u h. ground arith)
          sound.1)
        sound

  set_disabled-IsSoundRows :
      (user_id status : Text) (now : ℕ) {row : UserRow}
      → find (has_id user_id) control.users ≡ some row
      → (not (is_active_superuser row) || another_active_superuser user_id control) ≡ true
      → IsSoundRows
          (update_if
            (has_id user_id)
            (λ u. record u { status = status; updated_at = unix now })
            control.users)
          (keep (λ s. not (s.user_id == user_id)) control.sessions)
  unfolding IsSound another_active_superuser
  set_disabled-IsSoundRows user_id status now {row} found allowed =
      let f : UserRow → UserRow = λ u. record u { status = status; updated_at = unix now } in
      disable-IsSoundRows user_id f control.users control.sessions (λ u. refl)
        (superuser-update_id control.users control.sessions user_id f found allowed sound) sound

  pub update_user_role-IsSound :
      (user_id role : Text) (now : ℕ) → IsSound (update_user_role user_id role now control).1
  unfolding IsSound update_user_role require_another_active_superuser select_user set_user
  update_user_role-IsSound user_id role now =
      elim (Option-cases (find (has_id user_id) control.users)) [
        | inl absent ↦ ground (arith, absent)
        | inr (row, found) ↦
            ground (arith, found, set_role-IsSoundRows user_id role now {row = row})
      ]

  pub update_user_status-IsSound :
      (user_id status : Text) (now : ℕ) → IsSound (update_user_status user_id status now control).1
  unfolding IsSound update_user_status require_another_active_superuser select_user set_user
      revoke_user_state
  update_user_status-IsSound user_id status now =
      elim (Option-cases (find (has_id user_id) control.users)) [
        | inl absent ↦ ground (arith, absent)
        | inr (row, found) ↦ ground (
          arith,
          found,
          set_status-IsSoundRows user_id status now {row = row},
          set_disabled-IsSoundRows user_id status now {row = row},
        )
      ]

  set_password-IsSoundRows :
      (user_id password_hash : Text) (now : ℕ)
      → IsSoundRows
          (update_if
            (has_id user_id)
            (λ u. record u { password_hash = password_hash; updated_at = unix now })
            control.users)
          control.sessions
  unfolding IsSound IsSoundRows
  set_password-IsSoundRows user_id password_hash now =
      let f : UserRow → UserRow =
        λ u. record u { password_hash = password_hash; updated_at = unix now } in
      update_user-IsSoundRows control.users control.sessions (has_id user_id) f (λ u. refl)
        (λ u h. h)
        (exists-update_if is_active_superuser (has_id user_id) f control.users (λ u h. h) sound.1)
        sound

  pub update_password_hash-IsSound :
      (user_id password_hash : Text) (now : ℕ)
      → IsSound (update_password_hash user_id password_hash now control).1
  unfolding IsSound update_password_hash set_password_hash set_user
  update_password_hash-IsSound user_id password_hash now =
      ground (arith, set_password-IsSoundRows user_id password_hash now)

  pub change_password_and_revoke-IsSound :
      (user_id password_hash : Text) (now : ℕ)
      → IsSound (change_password_and_revoke user_id password_hash now control).1
  unfolding IsSound change_password_and_revoke set_password_hash set_user
  change_password_and_revoke-IsSound user_id password_hash now =
      let kept =
        keep-IsSoundRows
          (update_if (has_id user_id)
            (λ u. record u { password_hash = password_hash; updated_at = unix now }) control.users)
          control.sessions (λ s. not (s.user_id == user_id))
          (set_password-IsSoundRows user_id password_hash now) in
      ground (arith, kept)

  set_up-IsSoundRows :
      (user_id password_hash : Text) (now : ℕ)
      → IsSoundRows
          (update_if
            (λ u. u.id == user_id && u.status == user_pending)
            (λ u. record u {
              password_hash = password_hash;
              status = user_active;
              mfa_skipped = false;
              updated_at = unix now;
            })
            control.users)
          control.sessions
  unfolding IsSound IsSoundRows
  set_up-IsSoundRows user_id password_hash now =
      let p : UserRow → Bool = λ u. u.id == user_id && u.status == user_pending in
      let f : UserRow → UserRow = λ u. record u {
        password_hash = password_hash;
        status = user_active;
        mfa_skipped = false;
        updated_at = unix now;
      } in
      update_user-IsSoundRows control.users control.sessions p f (λ u. refl)
        (λ u h. text_eq_refl user_active)
        (exists-update_if is_active_superuser p f control.users
          (λ u h. ground (arith, text_eq_refl user_active)) sound.1)
        sound

  pub complete_user_setup-IsSound :
      (digest password_hash : Text) (now : ℕ)
      → IsSound (complete_user_setup digest password_hash now control).1
  unfolding IsSound complete_user_setup select_user
  complete_user_setup-IsSound digest password_hash now =
      elim (Option-cases (find (is_live_token digest now) control.setup_tokens)) [
        | inl absent ↦ ground (arith, absent)
        | inr (t, found) ↦ ground (arith, found, set_up-IsSoundRows t.user_id password_hash now)
      ]
