-- ===== src/Wispist/Sqlite/Admin.antt =====
-- wispist/sqlite/admin.go: what a host does to a whole namespace.
use wispdeck.Prelude.{
  ℕ, Bool, true, false, not, ◌&&◌, ◌||◌, ◌==◌, Text, List, [], ◌∷◌, ◌++◌, none, some, Assoc, lookup,
  insert, delete, keep, exists, order_by, length, ltb, text_comparable, ℕ_comparable,
}
use wispdeck.Wispist.Cursor.{Codec, encode_change_cursor}
use wispdeck.Wispist.Types.{
  Document, Change, change_delete, ClearCollectionRequest, revision_conflict,
}
use wispdeck.Wispist.Sqlite.Tables.{
  DocumentRow, Database, Result, Tx, ◌>>=◌, ◌>>◌, pure, refuse_if, select, exec, transaction,
}
use wispdeck.Wispist.Sqlite.Steps.{
  is_at, is_in, to_document, next_sequence, insert_change, cleanup_changes,
}

-- `ORDER BY created_sequence, id`
unfoldable pub text_less : Text → Text → Bool
text_less [] [] = false
text_less [] (y ∷ ys) = true
text_less (x ∷ xs) [] = false
text_less (x ∷ xs) (y ∷ ys) = let later = text_less xs ys in ltb x y || x == y && later

abbrev pub created_before : DocumentRow → DocumentRow → Bool
created_before a b =
    ltb a.created_sequence b.created_sequence
    || a.created_sequence == b.created_sequence && text_less a.id b.id

unfoldable pub collection_rows : Text → Text → Database → List DocumentRow
collection_rows namespace collection db =
    order_by created_before (keep (is_in namespace collection) db.documents)

-- `WHERE namespace = ? AND collection = ? AND id = ? AND revision = ?`
abbrev pub is_selected : Text → Text → DocumentRow → DocumentRow → Bool
is_selected namespace collection selected r =
    is_at namespace collection selected.id r && r.revision == selected.revision

abbrev pub cleared_change : Codec → ClearCollectionRequest → DocumentRow → ℕ → Change
cleared_change codec q selected sequence = record {
  sequence = sequence;
  cursor = encode_change_cursor codec q.namespace sequence;
  collection = q.collection;
  operation = change_delete;
  document = none;
  id = selected.id;
  revision = selected.revision;
}

-- The body of the loop of `ClearCollection`
unfoldable pub clear_document : Codec → ClearCollectionRequest → DocumentRow → Tx Change
clear_document codec q selected = do
  sequence ← next_sequence q.namespace
  rows ← select (λ db. length (keep (is_selected q.namespace q.collection selected) db.documents))
  exec (λ db. record db {
    documents = keep (λ r. not (is_selected q.namespace q.collection selected r)) db.documents;
  })
  refuse_if (not (rows == 1)) revision_conflict
  let change = cleared_change codec q selected sequence
  insert_change q.namespace change q.now
  pure change

unfoldable pub clear_documents :
    Codec → ClearCollectionRequest → List DocumentRow → Tx (List Change)
clear_documents codec q [] = pure []
clear_documents codec q (selected ∷ rest) = do
  change ← clear_document codec q selected
  changes ← clear_documents codec q rest
  pure (change ∷ changes)

-- `ClearCollection`
unfoldable pub clear_collection :
    Codec → ClearCollectionRequest → Database → Result (List Change) × Database
clear_collection codec q = transaction (do
  selected ← select (collection_rows q.namespace q.collection)
  changes ← clear_documents codec q selected
  cleanup_changes q.namespace q.now q.limits
  pure changes)

-- `PurgeNamespace`
unfoldable pub purge_namespace : Text → Database → Result (Unit {0}) × Database
purge_namespace namespace = transaction (do
  exec (λ db. record db {
    idempotency_records = keep (λ r. not (r.namespace == namespace)) db.idempotency_records;
  })
  exec (λ db. record db { changes = keep (λ r. not (r.namespace == namespace)) db.changes })
  exec (λ db. record db { documents = keep (λ r. not (r.namespace == namespace)) db.documents })
  exec (λ db. record db { namespace_state = delete namespace db.namespace_state }))

-- `NamespaceSnapshot.Collections`
abbrev pub Snapshot : Type 0
Snapshot = Assoc Text (List Document)

-- `append(snapshot.Collections[collection], document)`
abbrev add_document : DocumentRow → Snapshot → Snapshot
add_document r collections = elim (lookup r.collection collections) [
  | none ↦ insert r.collection (to_document r ∷ []) collections
  | some documents ↦ insert r.collection (documents ++ to_document r ∷ []) collections
]

-- The query answers no row of a namespace that was not asked for.
abbrev append_document : DocumentRow → Assoc Text Snapshot → Assoc Text Snapshot
append_document r snapshots = elim (lookup r.namespace snapshots) [
  | none ↦ snapshots
  | some collections ↦ insert r.namespace (add_document r collections) snapshots
]

unfoldable pub snapshot_rows : List DocumentRow → Assoc Text Snapshot → Assoc Text Snapshot
snapshot_rows [] snapshots = snapshots
snapshot_rows (r ∷ rest) snapshots = snapshot_rows rest (append_document r snapshots)

unfoldable pub new_snapshots : List Text → Assoc Text Snapshot → Assoc Text Snapshot
new_snapshots [] snapshots = snapshots
new_snapshots (namespace ∷ rest) snapshots = new_snapshots rest (insert namespace [] snapshots)

-- `ORDER BY namespace, collection, created_sequence, id`
abbrev in_snapshot_order : DocumentRow → DocumentRow → Bool
in_snapshot_order a b =
    let later =
      text_less a.collection b.collection || a.collection == b.collection && created_before a b in
    text_less a.namespace b.namespace || a.namespace == b.namespace && later

-- `SnapshotNamespaces`
unfoldable pub snapshot_namespaces : List Text → Database → Assoc Text Snapshot
snapshot_namespaces namespaces db =
    let wanted = keep (λ r. exists (λ n. r.namespace == n) namespaces) db.documents in
    snapshot_rows (order_by in_snapshot_order wanted) (new_snapshots namespaces [])

-- `Snapshot`
unfoldable pub snapshot : Text → Database → Snapshot
snapshot namespace db = elim (lookup namespace (snapshot_namespaces (namespace ∷ []) db)) [
  | none ↦ []
  | some collections ↦ collections
]
