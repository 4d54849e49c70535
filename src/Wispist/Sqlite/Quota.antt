-- ===== src/Wispist/Sqlite/Quota.antt =====
-- wispist/sqlite/store.go: a write that succeeds leaves the namespace within its limits.
use wispdeck.Prelude.{
  ℕ, ◌+◌, ◌≤◌, false, ◌≡◌, refl, arith, [], ◌∷◌, ◌++◌, Option, none, some, Text, find-eq_some,
  total, total-append, length, ◌==◌, text_comparable, text_eq_iff, text_eq_refl, if◌then◌else◌,
}
use wispdeck.Wispist.Cursor.{Codec}
use wispdeck.Wispist.Types.{Document, Change, MutationLimits, CreateRequest, PutRequest}
use wispdeck.Wispist.Sqlite.Tables.{DocumentRow, Database, ok, millis}
use wispdeck.Wispist.Sqlite.Steps.{
  is_at, is_in, select_document, namespace_bytes, collection_documents, cleaned,
}
use wispdeck.Wispist.Sqlite.Store.{create, put, put_found, document_row, replaced_documents}
use wispdeck.Wispist.Sqlite.Outcome.{create_new-Created, put_new-PutNew, put_over-PutOver}
use wispdeck.Wispist.Sqlite.Rows.{UniqueKeys, is_at_iff, total-update_if}
use wispdeck.Wispist.Sqlite.Documents.{create-create_new, put-put_found}

-- The namespace's documents hold at most the bytes that the limits allow.
abbrev pub WithinBytes : Text → MutationLimits → Database → Type 0
WithinBytes namespace limits db = namespace_bytes namespace db ≤ limits.max_namespace_bytes

-- The collection holds at most the documents that the limits allow.
abbrev pub WithinDocuments : Text → Text → MutationLimits → Database → Type 0
WithinDocuments namespace collection limits db =
    collection_documents namespace collection db ≤ limits.max_documents

namespace_bytes-insert :
    (namespace collection : Text) (d : Document) (sequence : ℕ) (before after : Database)
    → after.documents ≡ before.documents ++ document_row namespace collection d sequence ∷ []
    → namespace_bytes namespace after ≡ namespace_bytes namespace before + length d.body
unfolding namespace_bytes total
namespace_bytes-insert namespace collection d sequence before after h =
    let weight = λ (r : DocumentRow). if r.namespace == namespace then length r.body else 0 in
    let sum =
      total-append weight before.documents (document_row namespace collection d sequence ∷ []) in
    ground (arith, sum, text_eq_refl namespace)

collection_documents-insert :
    (namespace collection : Text) (d : Document) (sequence : ℕ) (before after : Database)
    → after.documents ≡ before.documents ++ document_row namespace collection d sequence ∷ []
    → collection_documents namespace collection after
      ≡ collection_documents namespace collection before + 1
unfolding collection_documents total
collection_documents-insert namespace collection d sequence before after h =
    let weight = λ (r : DocumentRow). if is_in namespace collection r then 1 else 0 in
    let sum =
      total-append weight before.documents (document_row namespace collection d sequence ∷ []) in
    ground (arith, sum, text_eq_refl namespace, text_eq_refl collection)

namespace_bytes-replace :
    (q : PutRequest) (current : DocumentRow) (d : Document) (before after : Database)
    → UniqueKeys before.documents
    → select_document q.namespace q.collection q.id before ≡ some current
    → current.revision ≡ q.expected_revision
    → after.documents ≡ replaced_documents q d before.documents
    → namespace_bytes q.namespace after + length current.body
      ≡ namespace_bytes q.namespace before + length d.body
unfolding namespace_bytes select_document
namespace_bytes-replace q current d before after u found at h =
    let weight = λ (r : DocumentRow). if r.namespace == q.namespace then length r.body else 0 in
    let here = find-eq_some (is_at q.namespace q.collection q.id) before.documents current found in
    let key = is_at_iff q.namespace q.collection q.id current here in
    let sum =
      total-update_if weight q.namespace q.collection q.id (λ r. r.revision == q.expected_revision)
        (λ r. record r { revision = d.revision; body = d.body; updated_at = millis d.updated_at })
        before.documents {current = current} u found ((text_eq_iff _ _).1 at) in
    ground (arith, sum, h, key, text_eq_iff current.namespace q.namespace)

-- A creation that is no replay leaves the namespace and the collection within the limits of the
-- request, and its document within the limit on one document.
pub create-within_limits :
    (codec : Codec) (random : Option Text) (q : CreateRequest) (before after : Database)
    (d : Document) (change : Change)
    → create codec random q before ≡ (ok (d, some change, false), after)
    → WithinBytes q.namespace q.limits after
      × WithinDocuments q.namespace q.collection q.limits after
      × (length d.body ≤ q.limits.max_document_bytes)
create-within_limits codec random q before after d change h =
    let before' = cleaned q.namespace q.now before in
    let c =
      create_new-Created codec random q before' after d (some change) false
        (create-create_new codec random q before after d change h) in
    let bytes = namespace_bytes-insert q.namespace q.collection d _ before' after c.documents_are in
    let count =
      collection_documents-insert q.namespace q.collection d _ before' after c.documents_are in
    (
      ground (arith, c.document_is, bytes, c.room.bytes_fit),
      ground (arith, count, c.room.documents_fit),
      ground (arith, c.document_is, c.room.body_fits),
    )

put_found-within_limits :
    (codec : Codec) (random : Option Text) (q : PutRequest) (found : Option DocumentRow)
    (before after : Database) (d : Document) (change : Change)
    → UniqueKeys before.documents
    → select_document q.namespace q.collection q.id before ≡ found
    → put_found codec random q found before ≡ ok ((d, change), after)
    → WithinBytes q.namespace q.limits after × (length d.body ≤ q.limits.max_document_bytes)
unfolding put_found
put_found-within_limits codec random q none before after d change u e h =
    let c = put_new-PutNew codec random q before after d change (ground arith) in
    let bytes = namespace_bytes-insert q.namespace q.collection d _ before after c.documents_are in
    (ground (arith, c.document_is, bytes, c.bytes_fit), ground (arith, c.document_is, c.body_fits))
put_found-within_limits codec random q (some current) before after d change u e h =
    let c = put_over-PutOver codec random q current before after d change (ground arith) in
    let bytes =
      namespace_bytes-replace q current d before after u e
        (ground (arith, text_eq_iff current.revision q.expected_revision)) c.documents_are in
    (ground (arith, c.document_is, bytes, c.bytes_fit), ground (arith, c.document_is, c.body_fits))

-- So does a `Put` that succeeds, over a documents table with unique keys, as far as bytes go.
pub put-within_limits :
    (codec : Codec) (random : Option Text) (q : PutRequest) (before after : Database) (d : Document)
    (change : Change)
    → UniqueKeys before.documents
    → put codec random q before ≡ (ok (d, change), after)
    → WithinBytes q.namespace q.limits after × (length d.body ≤ q.limits.max_document_bytes)
put-within_limits codec random q before after d change u h =
    put_found-within_limits codec random q _ before after d change u refl
      (put-put_found codec random q before after d change h)
