-- ===== src/Wispist/Sqlite/Cleared.antt =====
-- wispist/sqlite/admin.go: where a collection can be cleared.
use wispdeck.Prelude.{
  ℕ, suc, ◌+◌, ◌≡◌, refl, sym, ap, ◌∙◌, subst, arith, Bool, true, false, not, ◌||◌, ◌==◌, Text,
  List, [], ◌∷◌, ◌++◌, none, some, keep, Assoc, lookup, insert, lookup-insert_self, exists, every,
  order_by, length, leb, text_comparable, ℕ_comparable,
}
use wispdeck.Wispist.Cursor.{Codec}
use wispdeck.Wispist.Types.{Change, ClearCollectionRequest}
use wispdeck.Wispist.Sqlite.Tables.{DocumentRow, ChangeRow, Database, Result, ok, err}
use wispdeck.Wispist.Sqlite.Steps.{
  is_in, is_change, change_row, last_sequence, next_sequence, insert_change, cleanup_changes,
}
use wispdeck.Wispist.Sqlite.Keys.{HasUniqueKeys}
use wispdeck.Wispist.Sqlite.Clearing.{clear_collection-documents}
use wispdeck.Wispist.Sqlite.Admin.{
  cleared_change, created_before, collection_rows, is_selected, clear_document, clear_documents,
  clear_collection,
}
use wispdeck.Wispist.Sqlite.Selected.{
  count, are_distinct, are_single, single-keep, every-order_by, distinct-order_by,
  distinct-collection, single-collection,
}

-- No change of a namespace has a sequence that is yet to come.
abbrev pub are_past : Text → Database → Bool
are_past namespace db =
    every (λ c. not (c.namespace == namespace) || leb c.sequence (last_sequence namespace db))
      db.changes

never_taken :
    (namespace : Text) (n : ℕ) (rows : List ChangeRow)
    → every (λ c. not (c.namespace == namespace) || leb c.sequence n) rows ≡ true
    → exists (is_change namespace (n + 1)) rows ≡ false
unfolding every exists
never_taken namespace n [] past = refl
never_taken namespace n (c ∷ rows) past = ground (arith, never_taken namespace n rows)

still_past :
    (namespace : Text) (n : ℕ) (rows : List ChangeRow) (c : ChangeRow)
    → c.sequence ≡ n + 1
    → every (λ c. not (c.namespace == namespace) || leb c.sequence n) rows ≡ true
    → every (λ c. not (c.namespace == namespace) || leb c.sequence (n + 1)) (rows ++ c ∷ []) ≡ true
unfolding every
still_past namespace n [] c new past = ground arith
still_past namespace n (x ∷ rows) c new past = ground (arith, still_past namespace n rows c new)

last_sequence-inserted :
    (namespace : Text) (n : ℕ) (db : Database) (state : Assoc Text ℕ)
    → db.namespace_state ≡ insert namespace n state
    → last_sequence namespace db ≡ n
unfolding last_sequence
last_sequence-inserted namespace n db state written =
    let found : lookup namespace db.namespace_state ≡ some n =
      ap (lookup namespace) written ∙ lookup-insert_self namespace n state in
    ground (arith, found)

clear_document-succeeds :
    (codec : Codec) (q : ClearCollectionRequest) (s : DocumentRow) (db : Database)
    → (count q.namespace q.collection s db.documents == 1) ≡ true
    → are_past q.namespace db ≡ true
    → (change : Change) × (after : Database) × (clear_document codec q s db ≡ ok (change, after))
      × (after.documents ≡ keep (λ r. not (is_selected q.namespace q.collection s r)) db.documents)
      × (are_past q.namespace after ≡ true)
unfolding clear_document next_sequence insert_change
clear_document-succeeds codec q s db single past =
    let n = last_sequence q.namespace db in
    let change = cleared_change codec q s (n + 1) in
    let after : Database = record db {
      namespace_state = insert q.namespace (n + 1) db.namespace_state;
      documents = keep (λ r. not (is_selected q.namespace q.collection s r)) db.documents;
      changes = db.changes ++ change_row q.namespace change q.now none ∷ [];
    } in
    let next : last_sequence q.namespace after ≡ n + 1 =
      last_sequence-inserted q.namespace (n + 1) after db.namespace_state refl in
    let past_then =
      still_past q.namespace n db.changes (change_row q.namespace change q.now none) refl past in
    (
      change,
      after,
      ground (arith, never_taken q.namespace n db.changes past),
      refl,
      subst
          (λ m.
            every (λ c. not (c.namespace == q.namespace) || leb c.sequence m) after.changes ≡ true)
          (sym next) past_then,
    )

clear_documents-succeed :
    (codec : Codec) (q : ClearCollectionRequest) (selected : List DocumentRow) (db : Database)
    → are_distinct selected ≡ true
    → are_single q.namespace q.collection selected db.documents ≡ true
    → are_past q.namespace db ≡ true
    → (changes : List Change) × (after : Database) × (clear_documents codec q selected db
        ≡ ok (changes, after))
      × (length changes ≡ length selected)
unfolding clear_documents are_distinct every
clear_documents-succeed codec q [] db distinct single past = ([], db, refl, refl)
clear_documents-succeed codec q (s ∷ rest) db distinct single past =
    let (change, between, first, removed, past') =
      clear_document-succeeds codec q s db (ground arith) past in
    let single' : are_single q.namespace q.collection rest between.documents ≡ true =
      ap (are_single q.namespace q.collection rest) removed
      ∙ single-keep q.namespace q.collection s rest db.documents (ground arith) (ground arith) in
    let (changes, after, more, long) =
      clear_documents-succeed codec q rest between (ground arith) single' past' in
    (change ∷ changes, after, ground (arith, first, more), ap suc long)

ordered :
    (q : ClearCollectionRequest) (db : Database)
    → length (order_by created_before (keep (is_in q.namespace q.collection) db.documents))
      ≡ length (collection_rows q.namespace q.collection db)
unfolding collection_rows
ordered q db = refl

clear_collection-commits :
    (codec : Codec) (q : ClearCollectionRequest) (db : Database) (changes : List Change)
    (between : Database)
    → clear_documents codec q
        (order_by created_before (keep (is_in q.namespace q.collection) db.documents))
        db
      ≡ ok (changes, between)
    → (after : Database) × (clear_collection codec q db ≡ (ok changes, after))
unfolding clear_collection collection_rows cleanup_changes
clear_collection-commits codec q db changes between cleared =
    go (cleanup_changes q.namespace q.now q.limits between) refl
  where
    go :
        (r : Result (Unit {0} × Database))
        → cleanup_changes q.namespace q.now q.limits between ≡ r
        → (after : Database) × (clear_collection codec q db ≡ (ok changes, after))
    go (ok (u, after)) e = (after, ground (arith, cleared, e))
    go (err x) e = ground (arith, e)

-- Where the keys of the documents are unique and no change of the namespace has a sequence behind the last one,
-- clearing a collection succeeds: it answers one change for each document of the collection, leaves no document of the
-- collection, and every other document as it was.
pub clear_collection-succeeds :
    (codec : Codec) (q : ClearCollectionRequest) (db : Database)
    → HasUniqueKeys db
    → are_past q.namespace db ≡ true
    → (changes : List Change) × (after : Database) × (clear_collection codec q db
        ≡ (ok changes, after))
      × (length changes ≡ length (collection_rows q.namespace q.collection db))
      × (after.documents ≡ keep (λ r. not (is_in q.namespace q.collection r)) db.documents)
clear_collection-succeeds codec q db unique past =
    let rows = keep (is_in q.namespace q.collection) db.documents in
    let distinct =
      distinct-order_by created_before rows
        (distinct-collection q.namespace q.collection db.documents unique) in
    let single : are_single q.namespace q.collection (order_by created_before rows) db.documents
        ≡ true =
      every-order_by (λ s. count q.namespace q.collection s db.documents == 1) created_before rows
      ∙ single-collection q.namespace q.collection db.documents unique in
    let (changes, between, cleared, long) =
      clear_documents-succeed codec q (order_by created_before rows) db distinct single past in
    let (after, done) = clear_collection-commits codec q db changes between cleared in
    (
      changes,
      after,
      done,
      long ∙ ordered q db,
      clear_collection-documents codec q db {changes = changes} {after = after} done,
    )
