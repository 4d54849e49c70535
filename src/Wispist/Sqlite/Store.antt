-- ===== src/Wispist/Sqlite/Store.antt =====
-- wispist/sqlite/store.go: the operations of `Store`. An operation is a transaction over the
-- database; a revision, or the failure to draw one, is an argument.
use wispdeck.Prelude.{
  ℕ, ◌+◌, Bool, true, false, not, ◌&&◌, List, Option, none, some, Text, keep, exists, update_if,
  length, leb, ltb, ◌==◌, is_some, text_comparable, if◌then◌else◌,
}
use wispdeck.Wispist.Cursor.{Codec, encode_change_cursor}
use wispdeck.Wispist.Types.{
  Document, ChangeOperation, change_create, change_update, change_delete, Change, CreateRequest,
  PutRequest, DeleteRequest, document_not_found, revision_conflict, quota_exceeded,
  idempotency_conflict,
}
use wispdeck.Wispist.Sqlite.Tables.{
  DocumentRow, IdempotencyRow, Database, Result, ok, err, Tx, ◌>>=◌, ◌>>◌, pure, raise, refuse_if,
  select, exec, transaction, millis, from_millis,
}
use wispdeck.Wispist.Sqlite.Steps.{
  is_at, select_document, to_document, check_replacement_capacity, check_create_capacity,
  last_sequence, next_sequence, new_revision, insert_document, insert_change, cleanup_changes,
  cleanup_idempotency, idempotent_document, replayed_document, insert_idempotency,
  change_for_document,
}

abbrev or_not_found : Option DocumentRow → Result Document
or_not_found none = err document_not_found
or_not_found (some r) = ok (to_document r)

-- `Get`
unfoldable pub get : Text → Text → Text → Database → Result Document
get namespace collection id db = or_not_found (select_document namespace collection id db)

-- `HighWater`
unfoldable pub high_water : Codec → Text → Database → Text
high_water codec namespace db = encode_change_cursor codec namespace (last_sequence namespace db)

-- The document of a request that is stored for the first time.
abbrev pub new_document : Text → Text → Text → ℕ → Document
new_document id revision body now = record {
  id = id;
  revision = revision;
  created_at = now;
  updated_at = now;
  body = body;
}

abbrev pub document_row : Text → Text → Document → ℕ → DocumentRow
document_row namespace collection d sequence = record {
  namespace = namespace;
  collection = collection;
  id = d.id;
  revision = d.revision;
  body = d.body;
  created_at = millis d.created_at;
  updated_at = millis d.updated_at;
  created_sequence = sequence;
}

abbrev pub idempotency_row : CreateRequest → Document → IdempotencyRow
idempotency_row q d = record {
  namespace = q.namespace;
  key = q.idempotency_key;
  fingerprint = q.fingerprint;
  document_id = d.id;
  revision = d.revision;
  body = d.body;
  document_created_at = millis d.created_at;
  document_updated_at = millis d.updated_at;
  created_at = millis q.now;
  expires_at = millis (q.now + q.limits.idempotency_retention);
}

-- `SELECT COUNT(*) FROM idempotency_records WHERE namespace = ?`
unfoldable pub idempotency_count : Text → Database → ℕ
idempotency_count namespace db =
    length (keep (λ r. r.namespace == namespace) db.idempotency_records)

-- The replacement: `UpdatedAt` never stands before `CreatedAt`.
abbrev pub replacement : PutRequest → DocumentRow → Text → Document
replacement q current revision =
    let created = from_millis current.created_at in
    record {
      id = q.id;
      revision = revision;
      created_at = created;
      updated_at = if ltb q.now created then created else q.now;
      body = q.body;
    }

-- `AND revision = ?`
abbrev pub is_at_revision : Text → Text → Text → Text → DocumentRow → Bool
is_at_revision namespace collection id revision r =
    is_at namespace collection id r && r.revision == revision

-- `UPDATE documents SET revision = ?, data = ?, updated_at = ?`
abbrev pub replaced_documents : PutRequest → Document → List DocumentRow → List DocumentRow
replaced_documents q document =
    update_if (is_at_revision q.namespace q.collection q.id q.expected_revision) (λ r. record r {
      revision = document.revision;
      body = document.body;
      updated_at = millis document.updated_at;
    })

-- The statement with `RowsAffected`; the primary key lets it select one row at most.
unfoldable pub update_document : PutRequest → Document → Tx (Unit {0})
update_document q document = do
  hit ←
      select (λ db.
        exists (is_at_revision q.namespace q.collection q.id q.expected_revision) db.documents)
  refuse_if (not hit) revision_conflict
  exec (λ db. record db { documents = replaced_documents q document db.documents })

-- `DELETE FROM documents WHERE … AND revision = ?`
unfoldable pub delete_document : Text → Text → Text → Text → Tx (Unit {0})
delete_document namespace collection id revision = do
  let selects = is_at_revision namespace collection id revision
  hit ← select (λ db. exists selects db.documents)
  refuse_if (not hit) revision_conflict
  exec (λ db. record db { documents = keep (λ r. not (selects r)) db.documents })

-- The end of `Create`: a replay returns before `Commit`, and the deferred `Rollback` undoes the
-- clean-up too.
abbrev pub settle_creation :
    Database
    → Result ((Document × Option Change × Bool) × Database)
    → Result (Document × Option Change × Bool) × Database
settle_creation before (ok (answer, after)) = (ok answer, if answer.2 then before else after)
settle_creation before (err e) = (err e, before)

module _ (codec : Codec) (random : Option Text) where
  -- `Create`, where no live record has the key. The flag says that a stored answer is replayed.
  unfoldable pub create_new : CreateRequest → Tx (Document × Option Change × Bool)
  create_new q = do
    existing ← select (select_document q.namespace q.collection q.id)
    refuse_if (is_some existing) revision_conflict
    check_create_capacity q.namespace q.collection (length q.body) q.limits
    count ← select (idempotency_count q.namespace)
    refuse_if (leb q.limits.max_idempotency_records count) quota_exceeded
    sequence ← next_sequence q.namespace
    revision ← new_revision random
    let document = new_document q.id revision q.body q.now
    insert_document (document_row q.namespace q.collection document sequence)
    let change = change_for_document codec q.namespace q.collection sequence change_create document
    insert_change q.namespace change q.now
    insert_idempotency (idempotency_row q document)
    cleanup_changes q.namespace q.now q.limits
    pure (document, some change, false)

  unfoldable pub create_unless :
      CreateRequest → Option IdempotencyRow → Tx (Document × Option Change × Bool)
  create_unless q none = create_new q
  create_unless q (some r) =
      if not (r.fingerprint == q.fingerprint)
      then raise idempotency_conflict
      else pure (replayed_document r, none, true)

  unfoldable pub create_body : CreateRequest → Tx (Document × Option Change × Bool)
  create_body q = do
    cleanup_idempotency q.namespace q.now
    found ← select (idempotent_document q.namespace q.idempotency_key q.now)
    create_unless q found

  -- `Create`
  unfoldable pub create :
      CreateRequest → Database → Result (Document × Option Change × Bool) × Database
  create q db = settle_creation db (create_body q db)

  -- The end of `Put`: the change, the clean-up and the answer.
  unfoldable pub finish_put : PutRequest → ℕ → ChangeOperation → Document → Tx (Document × Change)
  finish_put q sequence operation document = do
    let change = change_for_document codec q.namespace q.collection sequence operation document
    insert_change q.namespace change q.now
    cleanup_changes q.namespace q.now q.limits
    pure (document, change)

  -- `Put` of a document that is not there.
  unfoldable pub put_new : PutRequest → Tx (Document × Change)
  put_new q = do
    check_create_capacity q.namespace q.collection (length q.body) q.limits
    sequence ← next_sequence q.namespace
    revision ← new_revision random
    let document = new_document q.id revision q.body q.now
    insert_document (document_row q.namespace q.collection document sequence)
    finish_put q sequence change_create document

  -- `Put` over a document that is there, at the expected revision.
  unfoldable pub put_over : PutRequest → DocumentRow → Tx (Document × Change)
  put_over q current = do
    check_replacement_capacity q.namespace (length current.body) (length q.body) q.limits
    sequence ← next_sequence q.namespace
    revision ← new_revision random
    let document = replacement q current revision
    update_document q document
    finish_put q sequence change_update document

  unfoldable pub put_found : PutRequest → Option DocumentRow → Tx (Document × Change)
  put_found q none = if not q.create_only then raise document_not_found else put_new q
  put_found q (some current) =
      if q.create_only
      then raise revision_conflict
      else if not (current.revision == q.expected_revision)
      then raise revision_conflict
      else put_over q current

  unfoldable pub put_body : PutRequest → Tx (Document × Change)
  put_body q = do found ← select (select_document q.namespace q.collection q.id); put_found q found

  -- `Put`
  unfoldable pub put : PutRequest → Database → Result (Document × Change) × Database
  put q = transaction (put_body q)

module _ (codec : Codec) where
  abbrev pub deletion : Text → Text → ℕ → Text → Text → Change
  deletion namespace collection sequence id revision = record {
    sequence = sequence;
    cursor = encode_change_cursor codec namespace sequence;
    collection = collection;
    operation = change_delete;
    document = none;
    id = id;
    revision = revision;
  }

  unfoldable pub delete_found : DeleteRequest → Option DocumentRow → Tx Change
  delete_found q none = raise document_not_found
  delete_found q (some current) = do
    refuse_if (not (current.revision == q.expected_revision)) revision_conflict
    sequence ← next_sequence q.namespace
    delete_document q.namespace q.collection q.id q.expected_revision
    let change = deletion q.namespace q.collection sequence q.id current.revision
    insert_change q.namespace change q.now
    cleanup_changes q.namespace q.now q.limits
    pure change

  unfoldable pub delete_body : DeleteRequest → Tx Change
  delete_body q = do
    found ← select (select_document q.namespace q.collection q.id)
    delete_found q found

  -- `Delete`
  unfoldable pub delete : DeleteRequest → Database → Result Change × Database
  delete q = transaction (delete_body q)
