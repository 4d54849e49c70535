-- ===== src/Wispist/Sqlite/Documents.antt =====
-- wispist/sqlite/store.go: what a later `Get` and a later writer see of a write.
use wispdeck.Prelude.{
  ℕ, ◌+◌, false, ◌≡◌, refl, sym, ◌∙◌, ap, arith, Option, none, some, Text, insert,
  lookup-insert_self, find, find-append, find-eq_some, text_comparable, text_eq_iff, [], ◌∷◌, ◌++◌,
}
use wispdeck.Wispist.Cursor.{Codec}
use wispdeck.Wispist.Types.{Document, Change, CreateRequest, PutRequest}
use wispdeck.Wispist.Sqlite.Tables.{DocumentRow, Database, ok, from_millis, millis}
use wispdeck.Wispist.Sqlite.Steps.{
  is_at, select_document, last_sequence, change_for_document, cleaned, cleanup_idempotency,
}
use wispdeck.Wispist.Sqlite.Store.{
  get, create, create_body, create_unless, create_new, put, put_body, put_found, is_at_revision,
  replaced_documents, document_row, replacement,
}
use wispdeck.Wispist.Sqlite.Outcome.{create_new-Created, put_new-PutNew, put_over-PutOver}
use wispdeck.Wispist.Sqlite.Rows.{is_at_self, is_at_iff, find-update_if}

-- A document as the database holds it: with instants in whole milliseconds.
abbrev pub stored : Document → Document
stored d = record d {
  created_at = from_millis (millis d.created_at);
  updated_at = from_millis (millis d.updated_at);
}

last_sequence-insert :
    (namespace : Text) (n : ℕ) (before after : Database)
    → after.namespace_state ≡ insert namespace n before.namespace_state
    → last_sequence namespace after ≡ n
unfolding last_sequence
last_sequence-insert namespace n before after h =
    ground (arith, lookup-insert_self namespace n before.namespace_state)

-- A row inserted at a free key is the one that a SELECT finds.
get-new :
    (namespace collection id : Text) (d : Document) (sequence : ℕ) (before after : Database)
    → d.id ≡ id
    → select_document namespace collection id before ≡ none
    → after.documents ≡ before.documents ++ document_row namespace collection d sequence ∷ []
    → get namespace collection id after ≡ ok (stored d)
unfolding get select_document find
get-new namespace collection id d sequence before after same free h =
    let r = document_row namespace collection d sequence in
    ground
      (arith, find-append (is_at namespace collection id) before.documents (r ∷ []), is_at_self r)

-- What a write says of the sequence of its namespace.
abbrev pub Advances : Text → Database → Database → ℕ → Type 0
Advances namespace before after sequence =
    (sequence ≡ last_sequence namespace before + 1) × (last_sequence namespace after ≡ sequence)

Advances-insert :
    (namespace : Text) (before after : Database) (sequence : ℕ)
    → sequence ≡ last_sequence namespace before + 1
    → after.namespace_state
      ≡ insert namespace (last_sequence namespace before + 1) before.namespace_state
    → Advances namespace before after sequence
Advances-insert namespace before after sequence e h =
    (e, last_sequence-insert namespace _ before after h ∙ sym e)

Advances-cleaned :
    (namespace : Text) (now : ℕ) (before after : Database) (sequence : ℕ)
    → Advances namespace (cleaned namespace now before) after sequence
    → Advances namespace before after sequence
unfolding cleaned last_sequence
Advances-cleaned namespace now before after sequence h = h

pub create-create_new :
    (codec : Codec) (random : Option Text) (q : CreateRequest) (before after : Database)
    (d : Document) (change : Change)
    → create codec random q before ≡ (ok (d, some change, false), after)
    → create_new codec random q (cleaned q.namespace q.now before)
      ≡ ok ((d, some change, false), after)
unfolding create create_body create_unless cleanup_idempotency
create-create_new codec random q before after d change h = ground arith

-- A creation that is no replay stores the document: `Get` returns it, with its instants in whole
-- milliseconds, and the change carries the next sequence of the namespace, which is its last.
pub create-get :
    (codec : Codec) (random : Option Text) (q : CreateRequest) (before after : Database)
    (d : Document) (change : Change)
    → create codec random q before ≡ (ok (d, some change, false), after)
    → (get q.namespace q.collection q.id after ≡ ok (stored d))
      × (d.body ≡ q.body)
      × Advances q.namespace before after change.sequence
unfolding change_for_document
create-get codec random q before after d change h =
    let before' = cleaned q.namespace q.now before in
    let c =
      create_new-Created codec random q before' after d (some change) false
        (create-create_new codec random q before after d change h) in
    (
      get-new q.namespace q.collection q.id d _ before' after (ap (λ x. x.id) c.document_is)
          c.was_free c.documents_are,
      ap (λ x. x.body) c.document_is,
      Advances-cleaned q.namespace q.now before after change.sequence (
          Advances-insert q.namespace before' after change.sequence (ground (arith, c.change_is))
            c.state_is),
    )

-- `Put` over `found`, the row at its key.
abbrev pub kept_instant : Option DocumentRow → ℕ → ℕ
kept_instant none now = now
kept_instant (some r) now = from_millis r.created_at

-- The row at the key of an update is the one that a SELECT finds.
get-over :
    (q : PutRequest) (current : DocumentRow) (d : Document) (revision : Text)
    (before after : Database)
    → select_document q.namespace q.collection q.id before ≡ some current
    → current.revision ≡ q.expected_revision
    → d ≡ replacement q current revision
    → after.documents ≡ replaced_documents q d before.documents
    → get q.namespace q.collection q.id after ≡ ok (stored d)
unfolding get select_document is_at
get-over q current d revision before after found at same over =
    let here = find-eq_some (is_at q.namespace q.collection q.id) before.documents current found in
    let key = is_at_iff q.namespace q.collection q.id current here in
    let moved =
      find-update_if
        (λ r. record r { revision = d.revision; body = d.body; updated_at = millis d.updated_at })
        (λ r n c i. refl) q.namespace q.collection q.id
        (is_at_revision q.namespace q.collection q.id q.expected_revision) before.documents in
    ground (arith, here, key, moved, text_eq_iff current.revision q.expected_revision)

put_found-get :
    (codec : Codec) (random : Option Text) (q : PutRequest) (found : Option DocumentRow)
    (before after : Database) (d : Document) (change : Change)
    → select_document q.namespace q.collection q.id before ≡ found
    → put_found codec random q found before ≡ ok ((d, change), after)
    → (get q.namespace q.collection q.id after ≡ ok (stored d))
      × (d.body ≡ q.body)
      × (d.created_at ≡ kept_instant found q.now)
      × Advances q.namespace before after change.sequence
unfolding put_found change_for_document
put_found-get codec random q none before after d change e h =
    let c = put_new-PutNew codec random q before after d change (ground arith) in
    (
      get-new q.namespace q.collection q.id d _ before after (ap (λ x. x.id) c.document_is) e
          c.documents_are,
      ap (λ x. x.body) c.document_is,
      ap (λ x. x.created_at) c.document_is,
      Advances-insert q.namespace before after change.sequence (ground (arith, c.change_is))
          c.state_is,
    )
put_found-get codec random q (some current) before after d change e h =
    let c = put_over-PutOver codec random q current before after d change (ground arith) in
    (
      get-over q current d c.revision before after e
          (ground (arith, text_eq_iff current.revision q.expected_revision)) c.document_is
          c.documents_are,
      ap (λ x. x.body) c.document_is,
      ap (λ x. x.created_at) c.document_is,
      Advances-insert q.namespace before after change.sequence (ground (arith, c.change_is))
          c.state_is,
    )

pub put-put_found :
    (codec : Codec) (random : Option Text) (q : PutRequest) (before after : Database) (d : Document)
    (change : Change)
    → put codec random q before ≡ (ok (d, change), after)
    → put_found codec random q (select_document q.namespace q.collection q.id before) before
      ≡ ok ((d, change), after)
unfolding put put_body
put-put_found codec random q before after d change h = ground arith

-- A replacement or creation by `Put` that succeeds stores the document: `Get` returns it, with its
-- instants in whole milliseconds. It keeps the creation instant of the document that it replaces,
-- and the change carries the next sequence of the namespace, which is its last.
pub put-get :
    (codec : Codec) (random : Option Text) (q : PutRequest) (before after : Database) (d : Document)
    (change : Change)
    → put codec random q before ≡ (ok (d, change), after)
    → (get q.namespace q.collection q.id after ≡ ok (stored d))
      × (d.body ≡ q.body)
      × (d.created_at ≡ kept_instant (select_document q.namespace q.collection q.id before) q.now)
      × Advances q.namespace before after change.sequence
put-get codec random q before after d change h =
    put_found-get codec random q _ before after d change refl
      (put-put_found codec random q before after d change h)
