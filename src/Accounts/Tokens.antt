-- ===== src/Accounts/Tokens.antt =====
-- internal/store/users.go and internal/auth/users.go: what a setup token allows.
use wispdeck.Prelude.{
  ℕ, ◌≤◌, ◌≡◌, ◌≢◌, ◌⊎◌, text_eq_iff, refl, arith, Bool, true, false, not, Text, text_comparable,
  List, [], ◌∷◌, Option, none, find, keep,
}
use wispdeck.Accounts.Types.{
  User, Session, role_superuser, assurance_password, assurance_mfa, invalid_setup_token, forbidden,
}
use wispdeck.Accounts.Names.{Strings}
use wispdeck.Accounts.Tables.{Control, SetupTokenRow, done, fail}
use wispdeck.Accounts.Users.{select_user}
use wispdeck.Accounts.Setup.{is_live_token, complete_user_setup}
use wispdeck.Accounts.Service.{Passwords}
use wispdeck.Accounts.Management.{
  can_manage_users, create_user_with_password, create_user_with_setup, replace_setup_token,
  set_user_role, set_user_status,
}

find-keep {ℓ} :
    {A : Type ℓ} (p q : A → Bool) (xs : List A)
    → ((x : A) → p x ≡ true → q x ≡ true)
    → find p (keep (λ x. not (q x)) xs) ≡ none
unfolding find keep
find-keep p q [] w = refl
find-keep p q (x ∷ xs) w = ground (arith, w x, find-keep p q xs w)

still_live :
    (digest : Text) {now later : ℕ}
    → now ≤ later
    → (t : SetupTokenRow) → is_live_token digest later t ≡ true
    → is_live_token digest now t ≡ true
still_live digest later_than t live = ground arith

-- A setup token that completed the setup of a user completes none at that time or any later one, and the attempt
-- changes nothing.
pub complete_user_setup-once :
    (digest password_hash password_hash' : Text) (now later : ℕ) (control : Control) {user : User}
    {after : Control}
    → now ≤ later
    → complete_user_setup digest password_hash now control ≡ (done user, after)
    → complete_user_setup digest password_hash' later after ≡ (fail invalid_setup_token, after)
unfolding complete_user_setup select_user
complete_user_setup-once digest password_hash password_hash' now later control {user} {after} order
      completed =
    ground (
      arith,
      find-keep (is_live_token digest later) (is_live_token digest now) control.setup_tokens
          (still_live digest order),
    )

can_manage_users-lacks :
    (actor : Session)
    → (actor.user.role ≢ role_superuser)
      ⊎ ((actor.assurance ≢ assurance_password) × (actor.assurance ≢ assurance_mfa))
    → can_manage_users actor ≡ false
unfolding can_manage_users
can_manage_users-lacks actor lacks = ground (
  arith,
  text_eq_iff actor.user.role role_superuser,
  text_eq_iff actor.assurance assurance_password,
  text_eq_iff actor.assurance assurance_mfa,
)

denied_forbidden :
    (strings : Strings) (passwords : Passwords) (actor : Session)
    (username password role user_id status : Text) (now : ℕ) (random random' id : Option Text)
    (control : Control)
    → can_manage_users actor ≡ false
    → (create_user_with_password strings passwords actor username password role now random control
        ≡ (fail forbidden, control))
      × (create_user_with_setup strings passwords actor username role now random random' id control
          ≡ (fail forbidden, control))
      × (replace_setup_token strings actor user_id now random control ≡ (fail forbidden, control))
      × (set_user_role actor user_id role now control ≡ (fail forbidden, control))
      × (set_user_status actor user_id status now control ≡ (fail forbidden, control))
unfolding create_user_with_password create_user_with_setup replace_setup_token set_user_role
    set_user_status
denied_forbidden strings passwords actor username password role user_id status now random random' id
      control denied =
    (ground arith, ground arith, ground arith, ground arith, ground arith)

-- An actor whose role is not superuser, or whose session rests on neither a password nor MFA, is forbidden
-- each of the five calls that manage users, whatever the arguments, and changes nothing.
pub management-forbidden :
    (strings : Strings) (passwords : Passwords) (actor : Session)
    (username password role user_id status : Text) (now : ℕ) (random random' id : Option Text)
    (control : Control)
    → (actor.user.role ≢ role_superuser)
      ⊎ ((actor.assurance ≢ assurance_password) × (actor.assurance ≢ assurance_mfa))
    → (create_user_with_password strings passwords actor username password role now random control
        ≡ (fail forbidden, control))
      × (create_user_with_setup strings passwords actor username role now random random' id control
          ≡ (fail forbidden, control))
      × (replace_setup_token strings actor user_id now random control ≡ (fail forbidden, control))
      × (set_user_role actor user_id role now control ≡ (fail forbidden, control))
      × (set_user_status actor user_id status now control ≡ (fail forbidden, control))
management-forbidden strings passwords actor username password role user_id status now random
      random' id control lacks =
    denied_forbidden strings passwords actor username password role user_id status now random
      random' id control (can_manage_users-lacks actor lacks)
