-- ===== src/Accounts/Sessions.antt =====
-- internal/store/sqlite.go and internal/store/mfa.go: the rows of sessions and events.
use wispdeck.Prelude.{
  ℕ, Bool, not, ◌&&◌, ◌||◌, ◌==◌, Text, List, [], ◌∷◌, ◌++◌, Option, none, some, ltb, leb, keep,
  exists, find, update_if, order_by, text_comparable,
}
use wispdeck.Accounts.Types.{
  user_active, assurance_password, Session, SessionRecord, AuthEvent, invalid_session, store_failed,
}
use wispdeck.Accounts.Tables.{
  UserRow, SessionRow, EventRow, Control, Outcome, done, fail, ◌>>=◌, ◌>>◌, abort_if, query, update,
  transact, unix, from_unix, null_if_empty,
}

abbrev pub session_row : SessionRecord → SessionRow
session_row r = record {
  token_hash = r.token_hash;
  user_id = r.user_id;
  csrf_token = r.csrf_token;
  assurance = r.assurance;
  created_at = unix r.created_at;
  authenticated_at = unix r.authenticated_at;
  last_seen = unix r.last_seen;
  expires_at = unix r.expires_at;
  client_ip = r.client_ip;
  user_agent = r.user_agent;
}

-- `CHECK(created_at <= last_seen)` and `CHECK(last_seen <= expires_at)`
abbrev pub in_order : SessionRow → Bool
in_order s = leb s.created_at s.last_seen && leb s.last_seen s.expires_at

-- The user for whom the INSERT selects a row: active, and with MFA skipped if the session rests on a
-- password alone.
abbrev pub may_sign_in : Text → Text → UserRow → Bool
may_sign_in user_id assurance u =
    u.id == user_id
    && u.status == user_active
    && (not (assurance == assurance_password) || u.mfa_skipped)

-- `CreateSession`, with the primary key and the checks of the table.
unfoldable pub create_session : SessionRecord → Control → Outcome (Unit {0}) × Control
create_session r = transact (do
  allowed ← query (λ c. exists (may_sign_in r.user_id r.assurance) c.users)
  abort_if (not allowed) store_failed
  taken ← query (λ c. exists (λ s. s.token_hash == r.token_hash) c.sessions)
  abort_if taken store_failed
  abort_if (not (in_order (session_row r))) store_failed
  update (λ c. record c { sessions = c.sessions ++ session_row r ∷ [] }))

abbrev pub to_session : SessionRow → UserRow → Session
to_session s u = record {
  token_hash = s.token_hash;
  user = record { id = u.id; username = u.username; role = u.role };
  csrf_token = s.csrf_token;
  assurance = s.assurance;
  created_at = from_unix s.created_at;
  authenticated_at = from_unix s.authenticated_at;
  last_seen = from_unix s.last_seen;
  expires_at = from_unix s.expires_at;
  client_ip = s.client_ip;
  user_agent = s.user_agent;
}

unfoldable pub select_session : Text → Control → Option SessionRow
select_session digest control = find (λ s. s.token_hash == digest) control.sessions

-- The join of `SessionByTokenHash`
unfoldable pub session_by_token_hash : Text → Control → Outcome Session
session_by_token_hash digest control = elim (select_session digest control) [
  | none ↦ fail invalid_session
  | some s ↦ elim (find (λ u. u.id == s.user_id && u.status == user_active) control.users) [
    | none ↦ fail invalid_session
    | some u ↦ done (to_session s u)
  ]
]

-- `TouchSession`; the UPDATE is refused where a row would break the CHECK.
unfoldable pub touch_session : Text → ℕ → Control → Outcome (Unit {0}) × Control
touch_session digest now = transact (do
  found ← query (λ c. exists (λ s. s.token_hash == digest) c.sessions)
  abort_if (not found) store_failed
  broken ← query (λ c.
      exists (λ s. s.token_hash == digest && not (in_order (record s { last_seen = unix now })))
        c.sessions)
  abort_if broken store_failed
  update (λ c. record c {
    sessions =
        update_if (λ s. s.token_hash == digest) (λ s. record s { last_seen = unix now }) c.sessions;
  }))

-- `DeleteSession`
unfoldable pub delete_session : Text → Control → Control
delete_session digest c = record c {
  sessions = keep (λ s. not (s.token_hash == digest)) c.sessions;
}

-- `DeleteUserSession`
unfoldable pub delete_user_session : Text → Text → Control → Outcome (Unit {0}) × Control
delete_user_session user_id digest = transact (do
  found ← query (λ c. exists (λ s. s.user_id == user_id && s.token_hash == digest) c.sessions)
  abort_if (not found) store_failed
  update (λ c. record c {
    sessions = keep (λ s. not (s.user_id == user_id && s.token_hash == digest)) c.sessions;
  }))

-- `DeleteOtherSessions`
unfoldable pub delete_other_sessions : Text → Text → Control → Control
delete_other_sessions user_id kept c = record c {
  sessions = keep (λ s. not (s.user_id == user_id && not (s.token_hash == kept))) c.sessions;
}

-- `SessionsByUser`, as rows, the last seen first.
unfoldable pub sessions_by_user : Text → Control → List SessionRow
sessions_by_user user_id control =
    order_by (λ a b. ltb b.last_seen a.last_seen)
      (keep (λ s. s.user_id == user_id) control.sessions)

abbrev pub event_row : AuthEvent → EventRow
event_row event = record {
  occurred_at = unix event.occurred_at;
  kind = event.kind;
  username = null_if_empty event.username;
  user_id = null_if_empty event.user_id;
  client_ip = null_if_empty event.client_ip;
  details = event.details;
}

-- `RecordAuthEvent`
unfoldable pub record_auth_event : AuthEvent → Control → Control
record_auth_event event c = record c { auth_events = c.auth_events ++ event_row event ∷ [] }
