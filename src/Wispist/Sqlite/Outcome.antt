-- ===== src/Wispist/Sqlite/Outcome.antt =====
-- wispist/sqlite/store.go: what a successful write leaves in the database, field by field.
use wispdeck.Prelude.{
  ◌+◌, ◌≤◌, ◌<◌, Bool, false, [], ◌∷◌, ◌++◌, Option, none, some, Text, insert, length, ◌≡◌, refl,
  arith, text_comparable, not, text_eq_iff, keep,
}
use wispdeck.Wispist.Cursor.{Codec}
use wispdeck.Wispist.Types.{
  Document, Change, change_create, change_update, CreateRequest, PutRequest, DeleteRequest,
}
use wispdeck.Wispist.Sqlite.Tables.{DocumentRow, Database, ok}
use wispdeck.Wispist.Sqlite.Steps.{
  select_document, namespace_bytes, collection_documents, check_replacement_capacity,
  check_create_capacity, last_sequence, next_sequence, insert_document, insert_change,
  cleanup_changes, insert_idempotency, change_for_document,
}
use wispdeck.Wispist.Sqlite.Store.{
  new_document, document_row, idempotency_row, idempotency_count, create_new, put_new, put_over,
  finish_put, replaced_documents, update_document, replacement, delete_found, delete_document,
  deletion, is_at_revision,
}

-- The room that `checkCreateCapacity` found.
pub record HasRoom (q : CreateRequest) (db : Database) : Type 0 where
  pub body_fits : length q.body ≤ q.limits.max_document_bytes
  pub documents_fit : collection_documents q.namespace q.collection db < q.limits.max_documents
  pub bytes_fit : namespace_bytes q.namespace db + length q.body ≤ q.limits.max_namespace_bytes
  pub records_fit : idempotency_count q.namespace db < q.limits.max_idempotency_records

-- A creation that succeeded.
pub record Created (codec : Codec) (random : Option Text) (q : CreateRequest)
    (before after : Database) (d : Document) (change : Option Change) (replayed : Bool)
    : Type 0 where
  pub revision : Text
  pub drawn : random ≡ some revision
  pub document_is : d ≡ new_document q.id revision q.body q.now
  pub change_is :
      change
      ≡ some (
          change_for_document codec q.namespace q.collection
            (last_sequence q.namespace before + 1)
            change_create
            d)
  pub not_replayed : replayed ≡ false
  pub was_free : select_document q.namespace q.collection q.id before ≡ none
  pub room : HasRoom q before
  pub state_is :
      after.namespace_state
      ≡ insert q.namespace (last_sequence q.namespace before + 1) before.namespace_state
  pub documents_are :
      after.documents
      ≡ before.documents
        ++ document_row q.namespace q.collection d (last_sequence q.namespace before + 1) ∷ []
  pub records_are :
      after.idempotency_records ≡ before.idempotency_records ++ idempotency_row q d ∷ []

pub create_new-Created :
    (codec : Codec) (random : Option Text) (q : CreateRequest) (before after : Database)
    (d : Document) (change : Option Change) (replayed : Bool)
    → create_new codec random q before ≡ ok ((d, change, replayed), after)
    → Created codec random q before after d change replayed
unfolding create_new check_create_capacity check_replacement_capacity next_sequence insert_document
    insert_change insert_idempotency cleanup_changes
create_new-Created codec none q before after d change replayed h = absurd (ground arith)
create_new-Created codec (some r) q before after d change replayed h = record {
  revision = r;
  drawn = refl;
  document_is = ground arith;
  change_is = ground arith;
  not_replayed = ground arith;
  was_free = ground arith;
  room = ground arith;
  state_is = ground arith;
  documents_are = ground arith;
  records_are = ground arith;
}

-- A document stored by `Put` for the first time.
pub record PutNew (codec : Codec) (random : Option Text) (q : PutRequest) (before after : Database)
    (d : Document) (change : Change) : Type 0 where
  pub revision : Text
  pub drawn : random ≡ some revision
  pub document_is : d ≡ new_document q.id revision q.body q.now
  pub change_is :
      change
      ≡ change_for_document codec q.namespace q.collection
          (last_sequence q.namespace before + 1)
          change_create
          d
  pub body_fits : length q.body ≤ q.limits.max_document_bytes
  pub documents_fit : collection_documents q.namespace q.collection before < q.limits.max_documents
  pub bytes_fit : namespace_bytes q.namespace before + length q.body ≤ q.limits.max_namespace_bytes
  pub state_is :
      after.namespace_state
      ≡ insert q.namespace (last_sequence q.namespace before + 1) before.namespace_state
  pub documents_are :
      after.documents
      ≡ before.documents
        ++ document_row q.namespace q.collection d (last_sequence q.namespace before + 1) ∷ []
  pub records_are : after.idempotency_records ≡ before.idempotency_records

pub put_new-PutNew :
    (codec : Codec) (random : Option Text) (q : PutRequest) (before after : Database) (d : Document)
    (change : Change)
    → put_new codec random q before ≡ ok ((d, change), after)
    → PutNew codec random q before after d change
unfolding put_new finish_put check_create_capacity check_replacement_capacity next_sequence
    insert_document insert_change cleanup_changes
put_new-PutNew codec none q before after d change h = absurd (ground arith)
put_new-PutNew codec (some r) q before after d change h = record {
  revision = r;
  drawn = refl;
  document_is = ground arith;
  change_is = ground arith;
  body_fits = ground arith;
  documents_fit = ground arith;
  bytes_fit = ground arith;
  state_is = ground arith;
  documents_are = ground arith;
  records_are = ground arith;
}

-- A document replaced by `Put`.
pub record PutOver (codec : Codec) (random : Option Text) (q : PutRequest) (current : DocumentRow)
    (before after : Database) (d : Document) (change : Change) : Type 0 where
  pub revision : Text
  pub drawn : random ≡ some revision
  pub document_is : d ≡ replacement q current revision
  pub change_is :
      change
      ≡ change_for_document codec q.namespace q.collection
          (last_sequence q.namespace before + 1)
          change_update
          d
  pub body_fits : length q.body ≤ q.limits.max_document_bytes
  pub bytes_fit :
      namespace_bytes q.namespace before + length q.body
      ≤ q.limits.max_namespace_bytes + length current.body
  pub state_is :
      after.namespace_state
      ≡ insert q.namespace (last_sequence q.namespace before + 1) before.namespace_state
  pub documents_are : after.documents ≡ replaced_documents q d before.documents
  pub records_are : after.idempotency_records ≡ before.idempotency_records

pub put_over-PutOver :
    (codec : Codec) (random : Option Text) (q : PutRequest) (current : DocumentRow)
    (before after : Database) (d : Document) (change : Change)
    → put_over codec random q current before ≡ ok ((d, change), after)
    → PutOver codec random q current before after d change
unfolding put_over update_document finish_put check_replacement_capacity next_sequence insert_change
    cleanup_changes
put_over-PutOver codec none q current before after d change h = absurd (ground arith)
put_over-PutOver codec (some r) q current before after d change h = record {
  revision = r;
  drawn = refl;
  document_is = ground arith;
  change_is = ground arith;
  body_fits = ground arith;
  bytes_fit = ground arith;
  state_is = ground arith;
  documents_are = ground arith;
  records_are = ground arith;
}

-- A document that `Delete` removed.
pub record Deleted (codec : Codec) (q : DeleteRequest) (current : DocumentRow)
    (before after : Database) (change : Change) : Type 0 where
  pub at_expected : current.revision ≡ q.expected_revision
  pub change_is :
      change
      ≡ deletion codec q.namespace q.collection
          (last_sequence q.namespace before + 1)
          q.id
          current.revision
  pub state_is :
      after.namespace_state
      ≡ insert q.namespace (last_sequence q.namespace before + 1) before.namespace_state
  pub documents_are :
      after.documents
      ≡ keep
          (λ r. not (is_at_revision q.namespace q.collection q.id q.expected_revision r))
          before.documents
  pub records_are : after.idempotency_records ≡ before.idempotency_records

pub delete_found-Deleted :
    (codec : Codec) (q : DeleteRequest) (current : DocumentRow) (before after : Database)
    (change : Change)
    → delete_found codec q (some current) before ≡ ok (change, after)
    → Deleted codec q current before after change
unfolding delete_found delete_document next_sequence insert_change cleanup_changes
delete_found-Deleted codec q current before after change h = record {
  at_expected = ground (arith, text_eq_iff current.revision q.expected_revision);
  change_is = ground arith;
  state_is = ground arith;
  documents_are = ground arith;
  records_are = ground arith;
}
