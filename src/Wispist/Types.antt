-- ===== src/Wispist/Types.antt =====
-- wispist/types.go: what a Store takes and returns. Instants and durations are nanoseconds;
-- `json.RawMessage` and `[]byte` are byte texts. The mutation limits are those of an engine that
-- accepted them, so they are not negative.
use wispdeck.Prelude.{ℕ, Text, Option, Bool, List}

pub record Document : Type 0 where
  pub id : Text
  pub revision : Text
  pub created_at : ℕ
  pub updated_at : ℕ
  pub body : Text

pub data ChangeOperation : Type 0 where
  change_create change_update change_delete : ChangeOperation

pub record Change : Type 0 where
  pub sequence : ℕ
  pub cursor : Text
  pub collection : Text
  pub operation : ChangeOperation
  pub document : Option Document
  pub id : Text
  pub revision : Text

pub record ChangesPage : Type 0 where
  pub changes : List Change
  pub cursor : Text
  pub more : Bool

pub record MutationLimits : Type 0 where
  pub max_documents : ℕ
  pub max_document_bytes : ℕ
  pub max_namespace_bytes : ℕ
  pub max_idempotency_records : ℕ
  pub change_retention_entries : ℕ
  pub change_retention_age : ℕ
  pub idempotency_retention : ℕ

pub record CreateRequest : Type 0 where
  pub namespace : Text
  pub collection : Text
  pub id : Text
  pub body : Text
  pub idempotency_key : Text
  pub fingerprint : Text
  pub now : ℕ
  pub limits : MutationLimits

pub record PutRequest : Type 0 where
  pub namespace : Text
  pub collection : Text
  pub id : Text
  pub body : Text
  pub create_only : Bool
  pub expected_revision : Text
  pub now : ℕ
  pub limits : MutationLimits

pub record DeleteRequest : Type 0 where
  pub namespace : Text
  pub collection : Text
  pub id : Text
  pub expected_revision : Text
  pub now : ℕ
  pub limits : MutationLimits

pub record ClearCollectionRequest : Type 0 where
  pub namespace : Text
  pub collection : Text
  pub now : ℕ
  pub limits : MutationLimits

-- The errors that a Store names; `random_failed` is the error of `rand.Read`, `constraint` that
-- of an INSERT on a primary key that is taken or a CHECK that fails.
pub data StoreError : Type 0 where
  document_not_found revision_conflict quota_exceeded idempotency_conflict : StoreError
  invalid_cursor cursor_expired random_failed constraint : StoreError
