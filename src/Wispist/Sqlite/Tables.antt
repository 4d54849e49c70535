-- ===== src/Wispist/Sqlite/Tables.antt =====
-- wispist/sqlite/schema.go: the four tables, each a list of rows, and the transaction of a call.
-- A transaction that returns an error is rolled back by the deferred `tx.Rollback`. Errors of
-- the driver itself (`mapError`) are not modelled.
use wispdeck.Prelude.{ℕ, ◌≡◌, refl, Bool, true, false, List, [], Option, Text, Assoc, ◌*◌, ◌/◌}
use wispdeck.Wispist.Types.{ChangeOperation, StoreError}

pub record DocumentRow : Type 0 where
  pub namespace : Text
  pub collection : Text
  pub id : Text
  pub revision : Text
  pub body : Text
  pub created_at : ℕ
  pub updated_at : ℕ
  pub created_sequence : ℕ

pub record ChangeRow : Type 0 where
  pub namespace : Text
  pub sequence : ℕ
  pub collection : Text
  pub operation : ChangeOperation
  pub document_id : Text
  pub revision : Text
  pub body : Option Text
  pub document_created_at : Option ℕ
  pub document_updated_at : Option ℕ
  pub occurred_at : ℕ

pub record IdempotencyRow : Type 0 where
  pub namespace : Text
  pub key : Text
  pub fingerprint : Text
  pub document_id : Text
  pub revision : Text
  pub body : Text
  pub document_created_at : ℕ
  pub document_updated_at : ℕ
  pub created_at : ℕ
  pub expires_at : ℕ

pub record Database : Type 0 where
  pub namespace_state : Assoc Text ℕ
  pub documents : List DocumentRow
  pub changes : List ChangeRow
  pub idempotency_records : List IdempotencyRow

abbrev pub empty : Database
empty = record { namespace_state = []; documents = []; changes = []; idempotency_records = [] }

pub data Result {ℓ} (A : Type ℓ) : Type ℓ where
  ok : A → Result A
  err : StoreError → Result A

-- The body of a transaction.
abbrev pub Tx : Type 0 → Type 0
Tx A = Database → Result (A × Database)

infixl 5 ◌>>=◌ ◌>>◌
abbrev pub ◌>>=◌ : {A B : Type 0} → Tx A → (A → Tx B) → Tx B
◌>>=◌ m f db = elim (m db) [ ok (a, db') ↦ f a db' | err e ↦ err e ]

abbrev pub ◌>>◌ : {B : Type 0} → Tx (Unit {0}) → Tx B → Tx B
m >> k = m >>= λ _. k

abbrev pub pure : {A : Type 0} → A → Tx A
pure a db = ok (a, db)

abbrev pub raise : {A : Type 0} → StoreError → Tx A
raise e db = err e

abbrev pub refuse_if : Bool → StoreError → Tx (Unit {0})
refuse_if true e db = err e
refuse_if false e db = ok (tt, db)

-- A query of the current rows.
abbrev pub select : {A : Type 0} → (Database → A) → Tx A
select q db = ok (q db, db)

-- A statement that changes rows.
abbrev pub exec : (Database → Database) → Tx (Unit {0})
exec f db = ok (tt, f db)

abbrev settle : {A : Type 0} → Database → Result (A × Database) → Result A × Database
settle before (ok (a, after)) = (ok a, after)
settle before (err e) = (err e, before)

-- `BeginTx`, the body, `Commit`, or the deferred `Rollback`.
abbrev pub transaction : {A : Type 0} → Tx A → Database → Result A × Database
transaction body db = settle db (body db)

-- What holds before a transaction, and at the end of a body that succeeds, holds after it.
pub transaction-keeps :
    {A : Type 0} (P : Database → Type 0) (body : Tx A) (db : Database)
    → P db
    → ((a : A) (after : Database) → body db ≡ ok (a, after) → P after)
    → P (transaction body db).1
transaction-keeps {A} P body db before keeps = go (body db) refl
  where
    go : (r : Result (A × Database)) → body db ≡ r → P (settle db r).1
    go (ok (a, after)) e = keeps a after e
    go (err x) e = before

-- `millis` and `fromMillis`, for instants not before 1970.
abbrev pub millis : ℕ → ℕ
millis t = t / 1000000

abbrev pub from_millis : ℕ → ℕ
from_millis t = t * 1000000
