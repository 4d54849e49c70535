-- ===== src/Accounts/Revoked.antt =====
-- internal/auth/service.go and internal/auth/users.go: what a password change and the disabling of a user end.
use wispdeck.Prelude.{
  ℕ, ◌≡◌, refl, ap, ◌∙◌, subst, arith, Bool, true, not, ◌==◌, Text, text_comparable, text_eq_refl,
  List, [], ◌∷◌, some, find, keep, every, update_if, Option-cases, inl, inr,
}
use wispdeck.Accounts.Types.{user_disabled, User, Session}
use wispdeck.Accounts.Tables.{Control, Outcome, done, fail, unix}
use wispdeck.Accounts.Users.{
  has_id, select_user, user_by_id, set_user, set_password_hash, change_password_and_revoke,
  update_user_status, revoke_user_state, require_another_active_superuser,
}
use wispdeck.Accounts.Sessions.{record_auth_event}
use wispdeck.Accounts.Service.{Passwords, change_password}
use wispdeck.Accounts.Rows.{has_id-found}
use wispdeck.Accounts.Management.{set_user_status, record_by}

every-kept {ℓ} : {A : Type ℓ} (p : A → Bool) (xs : List A) → every p (keep p xs) ≡ true
unfolding every keep
every-kept p [] = refl
every-kept p (x ∷ xs) = ground (arith, every-kept p xs)

keep-update_if {ℓ} :
    {A : Type ℓ} (q : A → Bool) (f : A → A) (xs : List A)
    → ((x : A) → q (f x) ≡ q x)
    → keep (λ x. not (q x)) (update_if q f xs) ≡ keep (λ x. not (q x)) xs
unfolding keep update_if
keep-update_if q f [] same = refl
keep-update_if q f (x ∷ xs) same = ground (arith, same x, keep-update_if q f xs same)

change_password_and_revoke-ends :
    (user_id password_hash : Text) (now : ℕ) (control : Control)
    → (change_password_and_revoke user_id password_hash now control).0 ≡ done tt
    → (every
          (λ s. not (s.user_id == user_id))
          (change_password_and_revoke user_id password_hash now control).1.sessions
        ≡ true)
      × (keep
            (λ u. not (has_id user_id u))
            (change_password_and_revoke user_id password_hash now control).1.users
          ≡ keep (λ u. not (has_id user_id u)) control.users)
unfolding change_password_and_revoke set_password_hash set_user
change_password_and_revoke-ends user_id password_hash now control changed =
    let kept = every-kept (λ s. not (s.user_id == user_id)) control.sessions in
    let rows =
      keep-update_if (has_id user_id)
        (λ u. record u { password_hash = password_hash; updated_at = unix now }) control.users
        (λ u. refl) in
    (ground (arith, kept), ground (arith, rows))

user_by_id-same :
    (id : Text) (control : Control) {user : User} → user_by_id id control ≡ done user → user.id ≡ id
unfolding user_by_id select_user
user_by_id-same id control {user} found = elim (Option-cases (find (has_id id) control.users)) [
  | inl absent ↦ ground (arith, absent)
  | inr (row, there) ↦ ground (arith, there, has_id-found id control.users {row = row} there)
]

module _ (passwords : Passwords) (session : Session) (current new context : Text) (now : ℕ)
    (control after : Control)
    (changed : change_password passwords session current new context now control
      ≡ (done tt, after)) where
  change_password-found : (user : User) × (user_by_id session.user.id control ≡ done user)
  unfolding change_password
  change_password-found = go (user_by_id session.user.id control) refl
    where
      go :
          (found : Outcome User)
          → user_by_id session.user.id control ≡ found
          → (user : User) × (user_by_id session.user.id control ≡ done user)
      go (fail x) e = ground arith
      go (done user) e = (user, e)

  change_password-hashed : (hash : Text) × (passwords.hash new ≡ some hash)
  unfolding change_password
  change_password-hashed = elim (Option-cases (passwords.hash new)) [
    | inl absent ↦ ground arith
    | inr found ↦ found
  ]

  change_password-stored :
      (user : User) (hash : Text)
      → user_by_id session.user.id control ≡ done user
      → passwords.hash new ≡ some hash
      → ((change_password_and_revoke user.id hash now control).0 ≡ done tt)
        × (after.sessions ≡ (change_password_and_revoke user.id hash now control).1.sessions)
        × (after.users ≡ (change_password_and_revoke user.id hash now control).1.users)
  unfolding change_password record_auth_event
  change_password-stored user hash found hashed = (ground arith, ground arith, ground arith)

-- A password change that succeeds leaves no session of the user, not even the one it was asked in,
-- and every other user's row as it was.
pub change_password-ends :
    (passwords : Passwords) (session : Session) (current new context : Text) (now : ℕ)
    (control after : Control)
    → change_password passwords session current new context now control ≡ (done tt, after)
    → (every (λ s. not (s.user_id == session.user.id)) after.sessions ≡ true)
      × (keep (λ u. not (has_id session.user.id u)) after.users
          ≡ keep (λ u. not (has_id session.user.id u)) control.users)
change_password-ends passwords session current new context now control after changed =
    let (user, found) =
      change_password-found passwords session current new context now control after changed in
    let (hash, hashed) =
      change_password-hashed passwords session current new context now control after changed in
    let (stored, sessions, users) =
      change_password-stored passwords session current new context now control after changed user
        hash found hashed in
    let (gone, rows) = change_password_and_revoke-ends user.id hash now control stored in
    subst
      (λ id.
        (every (λ s. not (s.user_id == id)) after.sessions ≡ true)
        × (keep (λ u. not (has_id id u)) after.users ≡ keep (λ u. not (has_id id u)) control.users))
      (user_by_id-same session.user.id control found)
      (
        ap (every (λ s. not (s.user_id == user.id))) sessions ∙ gone,
        ap (keep (λ u. not (has_id user.id u))) users ∙ rows,
      )

-- Disabling a user who then is disabled leaves no session of that user, and every other user's row
-- as it was.
pub set_user_status-ends :
    (actor : Session) (user_id : Text) (now : ℕ) (control : Control) {user : User} {after : Control}
    → set_user_status actor user_id user_disabled now control ≡ (done user, after)
    → (every (λ s. not (s.user_id == user_id)) after.sessions ≡ true)
      × (keep (λ u. not (has_id user_id u)) after.users
          ≡ keep (λ u. not (has_id user_id u)) control.users)
unfolding set_user_status record_by record_auth_event update_user_status select_user
    require_another_active_superuser set_user revoke_user_state
set_user_status-ends actor user_id now control {user} {after} changed =
    let kept = every-kept (λ s. not (s.user_id == user_id)) control.sessions in
    let rows =
      keep-update_if (has_id user_id)
        (λ u. record u { status = user_disabled; updated_at = unix now }) control.users
        (λ u. refl) in
    (
      ground (arith, kept, text_eq_refl user_disabled),
      ground (arith, rows, text_eq_refl user_disabled),
    )
