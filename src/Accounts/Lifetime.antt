-- ===== src/Accounts/Lifetime.antt =====
-- internal/auth/service.go: from a session's start to its end.
use wispdeck.Prelude.{
  ℕ, zero, suc, ◌≤◌, ◌<◌, ◌⊎◌, ◌≡◌, refl, arith, Bool, true, not, ◌||◌, ◌==◌, Text, text_comparable,
  List, [], ◌∷◌, none, find, keep, leb, length, take,
}
use wispdeck.Accounts.Types.{Session, invalid_session}
use wispdeck.Accounts.Names.{Strings, valid_token, token_digest}
use wispdeck.Accounts.Tables.{Control, done, fail}
use wispdeck.Accounts.Sessions.{session_by_token_hash, select_session, delete_session}
use wispdeck.Accounts.Service.{
  Utf8, Service, valid_prefix, bounded_user_agent, authenticate, admit_session, idle_for,
}

keep-find {ℓ} : {A : Type ℓ} (p : A → Bool) (xs : List A) → find p (keep (λ x. not (p x)) xs) ≡ none
unfolding find keep
keep-find p [] = refl
keep-find p (x ∷ xs) = ground (arith, keep-find p xs)

deleted-refused :
    (digest : Text) (control : Control)
    → session_by_token_hash digest (delete_session digest control) ≡ fail invalid_session
unfolding session_by_token_hash select_session delete_session
deleted-refused digest control =
    ground (arith, keep-find (λ s. s.token_hash == digest) control.sessions)

-- A session that is past its absolute lifetime, or has been idle for the timeout, is refused and deleted,
-- and its token is refused at every later or earlier time too, with nothing more changed.
pub authenticate-expired :
    (strings : Strings) (service : Service) (token : Text) (now other : ℕ) (control : Control)
    {session : Session}
    → session_by_token_hash (token_digest strings token) control ≡ done session
    → (leb session.expires_at now || idle_for service.idle_timeout session now) ≡ true
    → valid_token strings token ≡ true
    → (authenticate strings service token now control
        ≡ (fail invalid_session, delete_session (token_digest strings token) control))
      × (authenticate strings service token other
            (delete_session (token_digest strings token) control)
          ≡ (fail invalid_session, delete_session (token_digest strings token) control))
unfolding authenticate admit_session
authenticate-expired strings service token now other control {session} found expired valid =
    (ground arith, ground (arith, deleted-refused (token_digest strings token) control))

length-take : {A : Type 0} (n : ℕ) (xs : List A) → length (take n xs) ≤ n
length-take zero xs = ground arith
length-take (suc n) [] = ground arith
length-take (suc n) (x ∷ xs) = ground (arith, length-take n xs)

length-valid_prefix : (utf8 : Utf8) (n : ℕ) (value : Text) → length (valid_prefix utf8 n value) ≤ n
unfolding valid_prefix
length-valid_prefix utf8 zero value = ground arith
length-valid_prefix utf8 (suc n) value =
    ground (arith, length-valid_prefix utf8 n value, length-take (suc n) value)

is_valid-valid_prefix :
    (utf8 : Utf8) (n : ℕ) (value : Text)
    → utf8.is_valid [] ≡ true
    → utf8.is_valid (valid_prefix utf8 n value) ≡ true
unfolding valid_prefix
is_valid-valid_prefix utf8 zero value empty = empty
is_valid-valid_prefix utf8 (suc n) value empty = ground (arith, is_valid-valid_prefix utf8 n value)

-- Where the empty string is valid UTF-8 and `strings.ToValidUTF8` makes valid UTF-8 of the value, the user agent that a
-- session keeps is valid UTF-8 of at most 512 bytes, and it is all that `ToValidUTF8`
-- makes unless that has more than 512 bytes.
pub bounded_user_agent-fits :
    (utf8 : Utf8) (value : Text)
    → utf8.is_valid [] ≡ true
    → utf8.is_valid (utf8.to_valid value) ≡ true
    → (length (bounded_user_agent utf8 value) ≤ 512)
      × (utf8.is_valid (bounded_user_agent utf8 value) ≡ true)
      × ((bounded_user_agent utf8 value ≡ utf8.to_valid value)
          ⊎ (512 < length (utf8.to_valid value)))
unfolding bounded_user_agent
bounded_user_agent-fits utf8 value empty valid = (
  ground (arith, length-valid_prefix utf8 512 (utf8.to_valid value)),
  ground (arith, is_valid-valid_prefix utf8 512 (utf8.to_valid value)),
  ground arith,
)
