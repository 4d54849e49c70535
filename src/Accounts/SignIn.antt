-- ===== src/Accounts/SignIn.antt =====
-- internal/auth/service.go: from the start of a session to a request with its token.
use wispdeck.Prelude.{
  ℕ, ◌+◌, ◌≤◌, ◌<◌, ◌≡◌, refl, sym, ap, ◌∙◌, subst, arith, Bool, true, false, not, ◌&&◌, ◌==◌, Text,
  text_comparable, text_eq_iff, text_eq_refl, ℕ_comparable, List, [], ◌∷◌, ◌++◌, some, find, exists,
  Bool-cases, inl, inr, length,
}
use wispdeck.Accounts.Types.{user_active, User, Session}
use wispdeck.Accounts.Names.{Strings, new_token, valid_token, token_bytes, token_digest}
use wispdeck.Accounts.Tables.{Control, UserRow, SessionRow, done, unix, from_unix}
use wispdeck.Accounts.Sessions.{
  session_row, to_session, in_order, may_sign_in, create_session, session_by_token_hash,
  select_session, touch_session, record_auth_event,
}
use wispdeck.Accounts.Service.{
  Utf8, Service, session_record, new_session, authenticate, admit_session, idle_for,
}
use wispdeck.Accounts.Rows.{exists-weaken}

find-append_fresh {ℓ} :
    {A : Type ℓ} (p : A → Bool) (xs : List A) (x : A)
    → exists p xs ≡ false
    → p x ≡ true
    → find p (xs ++ x ∷ []) ≡ some x
unfolding find exists
find-append_fresh p [] x fresh holds = ground arith
find-append_fresh p (y ∷ ys) x fresh holds = ground (arith, find-append_fresh p ys x)

exists-find {ℓ} :
    {A : Type ℓ} (p : A → Bool) (xs : List A)
    → exists p xs ≡ true
    → (a : A) × (find p xs ≡ some a) × (p a ≡ true)
unfolding find exists
exists-find p [] there = ground arith
exists-find p (x ∷ xs) there = elim (Bool-cases (p x)) [
  | inl holds ↦ (x, ground arith, holds)
  | inr fails ↦ let (a, found, holds) = exists-find p xs (ground arith) in (a, ground arith, holds)
]

-- What the lookup of a session that was appended finds.
appended-found :
    (digest : Text) (sessions : List SessionRow) (row : SessionRow) (user : UserRow)
    (after : Control)
    → exists (λ s. s.token_hash == digest) sessions ≡ false
    → (row.token_hash == digest) ≡ true
    → find (λ u. u.id == row.user_id && u.status == user_active) after.users ≡ some user
    → after.sessions ≡ sessions ++ row ∷ []
    → session_by_token_hash digest after ≡ done (to_session row user)
unfolding session_by_token_hash select_session
appended-found digest sessions row user after fresh here found appended =
    let first : find (λ s. s.token_hash == digest) after.sessions ≡ some row =
      subst (λ xs. find (λ s. s.token_hash == digest) xs ≡ some row) (sym appended)
        (find-append_fresh (λ s. s.token_hash == digest) sessions row fresh here) in
    ground (arith, first, found)

exists-append_one {ℓ} :
    {A : Type ℓ} (p q : A → Bool) (xs : List A) (x : A)
    → exists p xs ≡ false
    → ((y : A) → q y ≡ true → p y ≡ true)
    → exists q (xs ++ x ∷ []) ≡ q x
unfolding exists
exists-append_one p q [] x fresh w = ground arith
exists-append_one p q (y ∷ ys) x fresh w = ground (arith, w y, exists-append_one p q ys x)

-- A session that was appended can be touched while its row stays in order.
appended-touched :
    (digest : Text) (later : ℕ) (sessions : List SessionRow) (row : SessionRow) (after : Control)
    → exists (λ s. s.token_hash == digest) sessions ≡ false
    → (row.token_hash == digest) ≡ true
    → in_order (record row { last_seen = unix later }) ≡ true
    → after.sessions ≡ sessions ++ row ∷ []
    → (touch_session digest later after).0 ≡ done tt
unfolding touch_session
appended-touched digest later sessions row after fresh here order appended =
    let p : SessionRow → Bool = λ s. s.token_hash == digest in
    let q : SessionRow → Bool =
      λ s. s.token_hash == digest && not (in_order (record s { last_seen = unix later })) in
    let there : exists p after.sessions ≡ true =
      ap (exists p) appended ∙ exists-append_one p p sessions row fresh (λ y h. h) ∙ here in
    let intact : exists q after.sessions ≡ q row =
      ap (exists q) appended ∙ exists-append_one p q sessions row fresh (λ y h. ground arith) in
    ground (arith, there, intact)

admit_session-alive :
    (service : Service) (digest : Text) (later : ℕ) (session : Session) (after : Control)
    → later < session.expires_at
    → later < session.last_seen + service.idle_timeout
    → (touch_session digest later after).0 ≡ done tt
    → (accepted : Session) × ((admit_session service digest later session after).0 ≡ done accepted)
      × (accepted.user.id ≡ session.user.id)
      × (accepted.token_hash ≡ session.token_hash)
unfolding admit_session
admit_session-alive service digest later session after alive busy touched =
    elim (Bool-cases (idle_for 60000000000 session later)) [
      | inl idle ↦ (record session { last_seen = later }, ground (arith, touched), refl, refl)
      | inr active ↦ (session, ground arith, refl, refl)
    ]

authenticate-admits :
    (strings : Strings) (service : Service) (token raw : Text) (later : ℕ) (session : Session)
    (after : Control)
    → strings.decode_base64 token ≡ some raw
    → length raw ≡ token_bytes
    → session_by_token_hash (token_digest strings token) after ≡ done session
    → (authenticate strings service token later after).0
      ≡ (admit_session service (token_digest strings token) later session after).0
unfolding authenticate valid_token
authenticate-admits strings service token raw later session after decoded filled found =
    ground (arith, found, decoded)

module _ (strings : Strings) (utf8 : Utf8) (service : Service) (user : User)
    (assurance client_ip user_agent : Text) (now : ℕ) (raw raw' : Text) (control : Control) where
  abbrev started : SessionRow
  started = session_row (
      session_record strings utf8 service user assurance client_ip user_agent now
        (new_token strings raw) (new_token strings raw'))

  abbrev digest : Text
  digest = token_digest strings (new_token strings raw)

  new_session-inserted :
      {token : Text} {session : Session} {after : Control}
      → new_session strings utf8 service user assurance client_ip user_agent now
          (some raw)
          (some raw')
          control
        ≡ (done (token, session), after)
      → (exists (may_sign_in user.id assurance) control.users ≡ true)
        × (exists (λ s. s.token_hash == digest) control.sessions ≡ false)
        × (after.users ≡ control.users)
        × (after.sessions ≡ control.sessions ++ started ∷ [])
        × (token ≡ new_token strings raw)
        × (session.token_hash ≡ digest)
  unfolding new_session create_session record_auth_event
  new_session-inserted {token} {session} {after} e =
      (ground arith, ground arith, ground arith, ground arith, ground arith, ground arith)

  inserted-found :
      (after : Control)
      → exists (may_sign_in user.id assurance) control.users ≡ true
      → exists (λ s. s.token_hash == digest) control.sessions ≡ false
      → after.users ≡ control.users
      → after.sessions ≡ control.sessions ++ started ∷ []
      → (u : UserRow) × (u.id ≡ user.id)
        × (session_by_token_hash digest after ≡ done (to_session started u))
  inserted-found after allowed fresh users sessions =
      let p : UserRow → Bool = λ u. u.id == user.id && u.status == user_active in
      let (u, found, holds) = exists-find p control.users (
        exists-weaken (may_sign_in user.id assurance) p control.users (λ u h. ground arith)
          allowed) in
      (
        u,
        ground (arith, text_eq_iff u.id user.id),
        appended-found digest control.sessions started u after fresh (text_eq_refl digest)
            (ap (find p) users ∙ found) sessions,
      )

  new_token-decoded :
      strings.decode_base64 (strings.encode_base64 raw) ≡ some raw
      → strings.decode_base64 (new_token strings raw) ≡ some raw
  unfolding new_token
  new_token-decoded decoded = decoded

  -- Where Base64 decodes what it encodes and `rand.Read` filled 32 bytes, the token of a session that
  -- started is accepted at any later time that is before the second in which the session expires, and less than the idle
  -- timeout after the second in which it started, as a session of that user with that token's digest.
  pub new_session-authenticate :
      (later : ℕ) {token : Text} {session : Session} {after : Control}
      → strings.decode_base64 (strings.encode_base64 raw) ≡ some raw
      → length raw ≡ token_bytes
      → now ≤ later
      → later < from_unix (unix (now + service.absolute_lifetime))
      → later < from_unix (unix now) + service.idle_timeout
      → new_session strings utf8 service user assurance client_ip user_agent now
          (some raw)
          (some raw')
          control
        ≡ (done (token, session), after)
      → (accepted : Session) × ((authenticate strings service token later after).0 ≡ done accepted)
        × (accepted.user.id ≡ user.id)
        × (accepted.token_hash ≡ session.token_hash)
  new_session-authenticate later {token} {session} {after} decoded filled order alive busy created =
      let (allowed, fresh, users, sessions, sent, hashed) =
        new_session-inserted {token = token} {session = session} {after = after} created in
      let (u, same, found) = inserted-found after allowed fresh users sessions in
      let touched =
        appended-touched digest later control.sessions started after fresh (text_eq_refl digest)
          (ground arith) sessions in
      let (accepted, admitted, by_user, by_token) =
        admit_session-alive service digest later (to_session started u) after alive busy touched in
      (
        accepted,
        ap (λ t. (authenticate strings service t later after).0) sent
            ∙ authenticate-admits strings service (new_token strings raw) raw later
                (to_session started u) after (new_token-decoded decoded) filled found
            ∙ admitted,
        by_user ∙ same,
        by_token ∙ sym hashed,
      )
