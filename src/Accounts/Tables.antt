-- ===== src/Accounts/Tables.antt =====
-- internal/store/migrate.go: the tables of users, sessions, setup tokens and events, each a list of
-- rows with its keys checked by the statements, and the transaction of a call. Of the tables of
-- enrolments, ceremonies and login transactions only the user of a row is kept.
use wispdeck.Prelude.{
  ℕ, ◌+◌, ◌*◌, ◌/◌, ◌≡◌, refl, Bool, true, false, ◌==◌, if◌then◌else◌, Text, List, [], ◌∷◌, Option,
  none, some, within, text_comparable,
}
use wispdeck.Accounts.Types.{AuthError}

pub record UserRow : Type 0 where
  pub id : Text
  pub username : Text
  pub password_hash : Text
  pub mfa_skipped : Bool
  pub role : Text
  pub status : Text
  pub created_at : ℕ
  pub updated_at : ℕ

pub record SessionRow : Type 0 where
  pub token_hash : Text
  pub user_id : Text
  pub csrf_token : Text
  pub assurance : Text
  pub created_at : ℕ
  pub authenticated_at : ℕ
  pub last_seen : ℕ
  pub expires_at : ℕ
  pub client_ip : Text
  pub user_agent : Text

pub record SetupTokenRow : Type 0 where
  pub token_hash : Text
  pub user_id : Text
  pub created_by_user_id : Text
  pub created_at : ℕ
  pub expires_at : ℕ

-- NULL is `none`.
pub record EventRow : Type 0 where
  pub occurred_at : ℕ
  pub kind : Text
  pub username : Option Text
  pub user_id : Option Text
  pub client_ip : Option Text
  pub details : Text

pub record Control : Type 0 where
  pub users : List UserRow
  pub sessions : List SessionRow
  pub setup_tokens : List SetupTokenRow
  pub auth_events : List EventRow
  pub totp_enrollments : List Text
  pub auth_ceremonies : List Text
  pub login_transactions : List Text

abbrev pub empty_control : Control
empty_control = record {
  users = [];
  sessions = [];
  setup_tokens = [];
  auth_events = [];
  totp_enrollments = [];
  auth_ceremonies = [];
  login_transactions = [];
}

pub data Outcome {ℓ} (A : Type ℓ) : Type ℓ where
  done : A → Outcome A
  fail : AuthError → Outcome A

-- The statements of a transaction.
abbrev pub Statements : Type 0 → Type 0
Statements A = Control → Outcome (A × Control)

infixl 5 ◌>>=◌ ◌>>◌
abbrev pub ◌>>=◌ : {A B : Type 0} → Statements A → (A → Statements B) → Statements B
◌>>=◌ m f control = elim (m control) [ done (a, control') ↦ f a control' | fail e ↦ fail e ]

abbrev pub ◌>>◌ : {B : Type 0} → Statements (Unit {0}) → Statements B → Statements B
m >> k = m >>= λ _. k

abbrev pub answer : {A : Type 0} → A → Statements A
answer a control = done (a, control)

abbrev pub abort : {A : Type 0} → AuthError → Statements A
abort e control = fail e

abbrev pub abort_if : Bool → AuthError → Statements (Unit {0})
abort_if true e control = fail e
abort_if false e control = done (tt, control)

abbrev pub query : {A : Type 0} → (Control → A) → Statements A
query q control = done (q control, control)

abbrev pub update : (Control → Control) → Statements (Unit {0})
update f control = done (tt, f control)

-- `sql.ErrNoRows` is the error given.
abbrev pub require : {A : Type 0} → Option A → AuthError → Statements A
require none e control = fail e
require (some a) e control = done (a, control)

abbrev settle : {A : Type 0} → Control → Outcome (A × Control) → Outcome A × Control
settle before (done (a, after)) = (done a, after)
settle before (fail e) = (fail e, before)

-- `BeginTx`, the statements, `Commit`, or the deferred `Rollback`.
abbrev pub transact : {A : Type 0} → Statements A → Control → Outcome A × Control
transact statements control = settle control (statements control)

-- What holds before a transaction, and after statements that succeed, holds after it.
pub transact-keeps :
    {A : Type 0} (P : Control → Type 0) (statements : Statements A) (control : Control)
    → P control
    → ((a : A) (after : Control) → statements control ≡ done (a, after) → P after)
    → P (transact statements control).1
transact-keeps {A} P statements control before keeps = go (statements control) refl
  where
    go : (r : Outcome (A × Control)) → statements control ≡ r → P (settle control r).1
    go (done (a, after)) e = keeps a after e
    go (fail x) e = before

-- `unix`, and the instant that `time.Unix(s, 0)` makes of a column.
abbrev pub unix : ℕ → ℕ
unix t = t / 1000000000

abbrev pub from_unix : ℕ → ℕ
from_unix s = s * 1000000000

-- `NULLIF(?, '')`
abbrev pub null_if_empty : Text → Option Text
null_if_empty value = if value == [] then none else some value

-- `COLLATE NOCASE` compares ASCII letters without their case.
abbrev fold_char : ℕ → ℕ
fold_char c = if within 65 90 c then c + 32 else c

unfoldable pub fold_case : Text → Text
fold_case [] = []
fold_case (c ∷ rest) = fold_char c ∷ fold_case rest
