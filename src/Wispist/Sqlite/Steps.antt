-- ===== src/Wispist/Sqlite/Steps.antt =====
-- wispist/sqlite/store.go: the helpers that the operations share, each a step of a transaction.
use wispdeck.Prelude.{
  ℕ, ◌+◌, ◌-◌, Bool, not, ◌&&◌, List, [], ◌∷◌, ◌++◌, map, Option, none, some, Text, lookup, insert,
  keep, exists, find, total, order_by, length, drop, ltb, leb, ◌==◌, is_some, text_comparable,
  ℕ_comparable, if◌then◌else◌,
}
use wispdeck.Wispist.Cursor.{Codec, encode_change_cursor}
use wispdeck.Wispist.Types.{
  Document, ChangeOperation, Change, MutationLimits, quota_exceeded, random_failed, constraint,
}
use wispdeck.Wispist.Sqlite.Tables.{
  DocumentRow, ChangeRow, IdempotencyRow, Database, Tx, ◌>>=◌, ◌>>◌, pure, raise, refuse_if, select,
  exec, millis, from_millis, ok,
}

-- `WHERE namespace = ? AND collection = ? AND id = ?`
unfoldable pub is_at : Text → Text → Text → DocumentRow → Bool
is_at namespace collection id r =
    r.namespace == namespace && r.collection == collection && r.id == id

-- `WHERE namespace = ? AND collection = ?`
abbrev pub is_in : Text → Text → DocumentRow → Bool
is_in namespace collection r = r.namespace == namespace && r.collection == collection

unfoldable pub select_document : Text → Text → Text → Database → Option DocumentRow
select_document namespace collection id db = find (is_at namespace collection id) db.documents

-- What `Scan` and `fromMillis` make of a row.
abbrev pub to_document : DocumentRow → Document
to_document r = record {
  id = r.id;
  revision = r.revision;
  created_at = from_millis r.created_at;
  updated_at = from_millis r.updated_at;
  body = r.body;
}

-- `SELECT COALESCE(SUM(length(data)), 0) FROM documents WHERE namespace = ?`
unfoldable pub namespace_bytes : Text → Database → ℕ
namespace_bytes namespace db =
    total (λ r. if r.namespace == namespace then length r.body else 0) db.documents

-- `SELECT COUNT(*) FROM documents WHERE namespace = ? AND collection = ?`
unfoldable pub collection_documents : Text → Text → Database → ℕ
collection_documents namespace collection db =
    total (λ r. if is_in namespace collection r then 1 else 0) db.documents

-- `total - old + new > maximum`, with nothing subtracted.
unfoldable pub check_replacement_capacity : Text → ℕ → ℕ → MutationLimits → Tx (Unit {0})
check_replacement_capacity namespace old_bytes new_bytes limits = do
  refuse_if (ltb limits.max_document_bytes new_bytes) quota_exceeded
  bytes ← select (namespace_bytes namespace)
  refuse_if (ltb (limits.max_namespace_bytes + old_bytes) (bytes + new_bytes)) quota_exceeded

unfoldable pub check_create_capacity : Text → Text → ℕ → MutationLimits → Tx (Unit {0})
check_create_capacity namespace collection data_bytes limits = do
  refuse_if (ltb limits.max_document_bytes data_bytes) quota_exceeded
  documents ← select (collection_documents namespace collection)
  refuse_if (leb limits.max_documents documents) quota_exceeded
  check_replacement_capacity namespace 0 data_bytes limits

-- `SELECT last_sequence FROM namespace_state WHERE namespace = ?`, 0 if there is no row
unfoldable pub last_sequence : Text → Database → ℕ
last_sequence namespace db = elim (lookup namespace db.namespace_state) [ none ↦ 0 | some n ↦ n ]

unfoldable pub next_sequence : Text → Tx ℕ
next_sequence namespace db =
    let n = last_sequence namespace db + 1 in
    ok (n, record db { namespace_state = insert namespace n db.namespace_state })

-- The revision, or the failure, that `rand.Read` leads to is an argument.
abbrev pub new_revision : Option Text → Tx Text
new_revision none = raise random_failed
new_revision (some revision) = pure revision

-- `INSERT INTO documents`, with its primary key
unfoldable pub insert_document : DocumentRow → Tx (Unit {0})
insert_document r = do
  taken ← select (select_document r.namespace r.collection r.id)
  refuse_if (is_some taken) constraint
  exec (λ db. record db { documents = db.documents ++ r ∷ [] })

abbrev pub change_row : Text → Change → ℕ → Option Document → ChangeRow
change_row namespace change now none = record {
  namespace = namespace;
  sequence = change.sequence;
  collection = change.collection;
  operation = change.operation;
  document_id = change.id;
  revision = change.revision;
  body = none;
  document_created_at = none;
  document_updated_at = none;
  occurred_at = millis now;
}
change_row namespace change now (some document) = record {
  namespace = namespace;
  sequence = change.sequence;
  collection = change.collection;
  operation = change.operation;
  document_id = change.id;
  revision = change.revision;
  body = some document.body;
  document_created_at = some (millis document.created_at);
  document_updated_at = some (millis document.updated_at);
  occurred_at = millis now;
}

abbrev pub is_change : Text → ℕ → ChangeRow → Bool
is_change namespace sequence r = r.namespace == namespace && r.sequence == sequence

unfoldable pub insert_change : Text → Change → ℕ → Tx (Unit {0})
insert_change namespace change now = do
  taken ← select (λ db. exists (is_change namespace change.sequence) db.changes)
  refuse_if taken constraint
  exec (λ db. record db {
    changes = db.changes ++ change_row namespace change now change.document ∷ [];
  })

-- The sequences behind the newest `entries` of a namespace.
unfoldable pub stale_sequences : Text → ℕ → List ChangeRow → List ℕ
stale_sequences namespace entries rows =
    drop entries (
      order_by (λ a b. leb b a) (map (λ r. r.sequence) (keep (λ r. r.namespace == namespace) rows)))

unfoldable pub cleanup_changes : Text → ℕ → MutationLimits → Tx (Unit {0})
cleanup_changes namespace now limits = do
  exec (λ db. record db {
    changes =
        keep
          (λ r. not (
            r.namespace == namespace
            && ltb r.occurred_at (millis (now - limits.change_retention_age))))
          db.changes;
  })
  exec (λ db. record db {
    changes =
        keep
          (λ r. not (
            r.namespace == namespace
            && exists (λ n. n == r.sequence)
                (stale_sequences namespace limits.change_retention_entries db.changes)))
          db.changes;
  })

-- `DELETE FROM idempotency_records WHERE namespace = ? AND expires_at <= ?`
unfoldable pub cleaned : Text → ℕ → Database → Database
cleaned namespace now db = record db {
  idempotency_records =
      keep (λ r. not (r.namespace == namespace && leb r.expires_at (millis now)))
        db.idempotency_records;
}

unfoldable pub cleanup_idempotency : Text → ℕ → Tx (Unit {0})
cleanup_idempotency namespace now = exec (cleaned namespace now)

-- `WHERE namespace = ? AND key = ? AND expires_at > ?`
unfoldable pub is_live_record : Text → Text → ℕ → IdempotencyRow → Bool
is_live_record namespace key now r =
    r.namespace == namespace && r.key == key && ltb (millis now) r.expires_at

unfoldable pub idempotent_document : Text → Text → ℕ → Database → Option IdempotencyRow
idempotent_document namespace key now db =
    find (is_live_record namespace key now) db.idempotency_records

abbrev pub replayed_document : IdempotencyRow → Document
replayed_document r = record {
  id = r.document_id;
  revision = r.revision;
  created_at = from_millis r.document_created_at;
  updated_at = from_millis r.document_updated_at;
  body = r.body;
}

-- `INSERT INTO idempotency_records`, with its primary key and `CHECK(created_at < expires_at)`
unfoldable pub insert_idempotency : IdempotencyRow → Tx (Unit {0})
insert_idempotency r = do
  taken ←
      select
        (λ db. exists (λ x. x.namespace == r.namespace && x.key == r.key) db.idempotency_records)
  refuse_if taken constraint
  refuse_if (leb r.expires_at r.created_at) constraint
  exec (λ db. record db { idempotency_records = db.idempotency_records ++ r ∷ [] })

unfoldable pub change_for_document : Codec → Text → Text → ℕ → ChangeOperation → Document → Change
change_for_document codec namespace collection sequence operation document = record {
  sequence = sequence;
  cursor = encode_change_cursor codec namespace sequence;
  collection = collection;
  operation = operation;
  document = some document;
  id = document.id;
  revision = document.revision;
}
