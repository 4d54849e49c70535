-- ===== src/Wispist/Sqlite/Writers.antt =====
-- wispist/sqlite/store.go: two writers of one document. A revision is the proof that a writer
-- has seen the document that it replaces or deletes.
use wispdeck.Prelude.{
  true, not, refl, List, [], ◌∷◌, find, keep, Bool-cases, ◌||◌, ◌≡◌, ◌≢◌, sym, ◌∙◌, arith, Option,
  none, some, Text, ◌==◌, text_comparable, text_eq_iff, if◌then◌else◌, Option-cases, inl, inr, ◌⊎◌,
}
use wispdeck.Wispist.Cursor.{Codec}
use wispdeck.Wispist.Types.{
  Document, Change, StoreError, PutRequest, DeleteRequest, document_not_found, revision_conflict,
}
use wispdeck.Wispist.Sqlite.Tables.{DocumentRow, Database, ok, err}
use wispdeck.Wispist.Sqlite.Steps.{is_at, select_document, to_document}
use wispdeck.Wispist.Sqlite.Store.{
  is_at_revision, get, put, put_body, put_found, delete, delete_body, delete_found,
}
use wispdeck.Wispist.Sqlite.Outcome.{Deleted, delete_found-Deleted}
use wispdeck.Wispist.Sqlite.Rows.{UniqueKeys, find-delete, find-none-here}
use wispdeck.Wispist.Sqlite.Documents.{put-get, stored}

-- The error that the preconditions of `Put` call for, over the row at its key.
abbrev pub put_refusal : PutRequest → Option DocumentRow → Option StoreError
put_refusal q none = if q.create_only then none else some document_not_found
put_refusal q (some current) =
    if q.create_only || not (current.revision == q.expected_revision)
    then some revision_conflict
    else none

put_found-refuses :
    (codec : Codec) (random : Option Text) (q : PutRequest) (found : Option DocumentRow)
    (db : Database) (e : StoreError)
    → put_refusal q found ≡ some e
    → put_found codec random q found db ≡ err e
unfolding put_found
put_found-refuses codec random q none db e h = ground arith
put_found-refuses codec random q (some current) db e h = ground arith

-- The refusals of `Put`
pub put-refuses :
    (codec : Codec) (random : Option Text) (q : PutRequest) (db : Database) (e : StoreError)
    → put_refusal q (select_document q.namespace q.collection q.id db) ≡ some e
    → put codec random q db ≡ (err e, db)
unfolding put put_body
put-refuses codec random q db e h = rw (put_found-refuses codec random q _ db e h)

get-select_document :
    (namespace collection id : Text) (db : Database) (d : Document)
    → get namespace collection id db ≡ ok d
    → (r : DocumentRow) × (select_document namespace collection id db ≡ some r)
      × (r.revision ≡ d.revision)
unfolding get
get-select_document namespace collection id db d h =
    elim (Option-cases (select_document namespace collection id db)) [
      | inl none_there ↦ absurd (ground (arith, none_there))
      | inr (r, there) ↦ (r, there, ground (arith, there))
    ]

delete_found-stale :
    (codec : Codec) (q : DeleteRequest) (current : DocumentRow) (db : Database)
    → current.revision ≢ q.expected_revision
    → delete_found codec q (some current) db ≡ err revision_conflict
unfolding delete_found
delete_found-stale codec q current db h =
    ground (arith, text_eq_iff current.revision q.expected_revision)

delete-stale :
    (codec : Codec) (q : DeleteRequest) (current : DocumentRow) (db : Database)
    → select_document q.namespace q.collection q.id db ≡ some current
    → current.revision ≢ q.expected_revision
    → delete codec q db ≡ (err revision_conflict, db)
unfolding delete delete_body
delete-stale codec q current db there h = rw there (rw (delete_found-stale codec q current db h))

delete-absent :
    (codec : Codec) (q : DeleteRequest) (db : Database)
    → select_document q.namespace q.collection q.id db ≡ none
    → delete codec q db ≡ (err document_not_found, db)
unfolding delete delete_body delete_found
delete-absent codec q db absent = rw absent

delete-delete_found :
    (codec : Codec) (q : DeleteRequest) (current : DocumentRow) (before after : Database)
    (change : Change)
    → select_document q.namespace q.collection q.id before ≡ some current
    → delete codec q before ≡ (ok change, after)
    → delete_found codec q (some current) before ≡ ok (change, after)
unfolding delete delete_body
delete-delete_found codec q current before after change there h = ground arith

module _ (codec : Codec) (random : Option Text) (q : PutRequest) (before after : Database)
    (d : Document) (change : Change)
    (written : put codec random q before ≡ (ok (d, change), after)) where
  put-select_document :
      (r : DocumentRow) × (select_document q.namespace q.collection q.id after ≡ some r)
      × (r.revision ≡ d.revision)
  put-select_document =
      get-select_document q.namespace q.collection q.id after (stored d)
        (put-get codec random q before after d change written).0

  -- After a `Put` that succeeded, a `Put` of the same document that expects any other revision
  -- than the one just written, or that may only create, changes nothing and is told of the
  -- conflict: no update is lost.
  pub put-put_stale :
      (later : PutRequest) (drawn : Option Text)
      → later.namespace ≡ q.namespace
      → later.collection ≡ q.collection
      → later.id ≡ q.id
      → (later.create_only ≡ true) ⊎ (later.expected_revision ≢ d.revision)
      → put codec drawn later after ≡ (err revision_conflict, after)
  put-put_stale later drawn a b c stale =
      let (r, there, same) = put-select_document in
      let at : select_document later.namespace later.collection later.id after ≡ some r =
        rw (a, b, c) there in
      put-refuses codec drawn later after revision_conflict
        (rw at (ground (arith, text_eq_iff r.revision later.expected_revision)))

  -- The same for a `Delete` that expects another revision.
  pub put-delete_stale :
      (later : DeleteRequest)
      → later.namespace ≡ q.namespace
      → later.collection ≡ q.collection
      → later.id ≡ q.id
      → later.expected_revision ≢ d.revision
      → delete codec later after ≡ (err revision_conflict, after)
  put-delete_stale later a b c stale =
      let (r, there, same) = put-select_document in
      let at : select_document later.namespace later.collection later.id after ≡ some r =
        rw (a, b, c) there in
      delete-stale codec later r after at (λ e. stale (sym e ∙ same))

Deleted-get :
    (codec : Codec) (q : DeleteRequest) (current : DocumentRow) (before after : Database)
    (change : Change)
    → UniqueKeys before.documents
    → select_document q.namespace q.collection q.id before ≡ some current
    → Deleted codec q current before after change
    → get q.namespace q.collection q.id after ≡ err document_not_found
unfolding get select_document
Deleted-get codec q current before after change u there c =
    let gone =
      find-delete q.namespace q.collection q.id before.documents q.expected_revision u there
        c.at_expected in
    ground (arith, gone, c.documents_are)

keep-absent :
    (namespace collection id revision : Text) (rows : List DocumentRow)
    → find (is_at namespace collection id) rows ≡ none
    → keep (λ r. not (is_at_revision namespace collection id revision r)) rows
      ≡ keep (λ r. not (is_at namespace collection id r)) rows
unfolding find keep
keep-absent namespace collection id revision [] absent = refl
keep-absent namespace collection id revision (r ∷ rows) absent =
    ground (arith, keep-absent namespace collection id revision rows)

-- With the row of a key at a revision, its only row goes.
keep-at_revision :
    (namespace collection id revision : Text) (rows : List DocumentRow) {current : DocumentRow}
    → UniqueKeys rows
    → find (is_at namespace collection id) rows ≡ some current
    → current.revision ≡ revision
    → keep (λ r. not (is_at_revision namespace collection id revision r)) rows
      ≡ keep (λ r. not (is_at namespace collection id r)) rows
unfolding find keep
keep-at_revision namespace collection id revision [] unique there same = refl
keep-at_revision namespace collection id revision (r ∷ rows) {current} (fresh, unique) there same =
    elim (Bool-cases (is_at namespace collection id r)) [
      | inl here ↦
          let rest =
            keep-absent namespace collection id revision rows
              (find-none-here namespace collection id r rows here fresh) in
          ground (arith, here, there, same, rest, text_eq_iff r.revision revision)
      | inr elsewhere ↦
          let rest =
            keep-at_revision namespace collection id revision rows {current = current} unique
              (ground (arith, elsewhere, there)) same in
          ground (arith, elsewhere, rest)
    ]

-- `Delete` succeeds only where `Get` found a document at the key whose revision is the expected one,
-- which the change repeats; then `Get` finds nothing at the key, and every other document stays.
pub delete-get :
    (codec : Codec) (q : DeleteRequest) (before after : Database) (change : Change)
    → UniqueKeys before.documents
    → delete codec q before ≡ (ok change, after)
    → (d : Document) × (get q.namespace q.collection q.id before ≡ ok d)
      × (d.revision ≡ q.expected_revision)
      × (change.revision ≡ q.expected_revision)
      × (get q.namespace q.collection q.id after ≡ err document_not_found)
      × (after.documents ≡ keep (λ r. not (is_at q.namespace q.collection q.id r)) before.documents)
unfolding select_document
delete-get codec q before after change u h =
    elim (Option-cases (select_document q.namespace q.collection q.id before)) [
      | inl absent ↦ absurd (ground (arith, delete-absent codec q before absent))
      | inr (current, there) ↦
          let c =
            delete_found-Deleted codec q current before after change
              (delete-delete_found codec q current before after change there h) in
          (
            to_document current,
            unfold get in ground (arith, there),
            c.at_expected,
            ground (arith, c.change_is, c.at_expected),
            Deleted-get codec q current before after change u there c,
            c.documents_are
                ∙ keep-at_revision q.namespace q.collection q.id q.expected_revision
                    before.documents u there c.at_expected,
          )
    ]
