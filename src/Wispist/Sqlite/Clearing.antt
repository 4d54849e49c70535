-- ===== src/Wispist/Sqlite/Clearing.antt =====
-- wispist/sqlite/admin.go: the documents after a collection is cleared.
use wispdeck.Prelude.{
  ◌≡◌, refl, ap, ◌∙◌, arith, Bool, true, not, ◌||◌, Text, text_eq_refl, List, [], ◌∷◌, keep, exists,
  every, order_by, insert_sorted, text_comparable, ℕ_comparable,
}
use wispdeck.Wispist.Cursor.{Codec}
use wispdeck.Wispist.Types.{Change, ClearCollectionRequest}
use wispdeck.Wispist.Sqlite.Tables.{DocumentRow, Database, Result, ok, err}
use wispdeck.Wispist.Sqlite.Steps.{is_at, is_in, next_sequence, insert_change, cleanup_changes}
use wispdeck.Wispist.Sqlite.Admin.{
  created_before, collection_rows, clear_collection, is_selected, clear_document, clear_documents,
}

abbrev kept_out : Text → Text → List DocumentRow → List DocumentRow
kept_out namespace collection rows = keep (λ r. not (is_in namespace collection r)) rows

-- Every document of the collection is among some rows.
abbrev all_among : Text → Text → List DocumentRow → List DocumentRow → Bool
all_among namespace collection selected rows =
    every
      (λ r.
        not (is_in namespace collection r)
        || exists (λ s. is_selected namespace collection s r) selected)
      rows

clear_document-documents :
    (codec : Codec) (q : ClearCollectionRequest) (selected : DocumentRow) (db : Database)
    {change : Change} {after : Database}
    → clear_document codec q selected db ≡ ok (change, after)
    → after.documents
      ≡ keep (λ r. not (is_selected q.namespace q.collection selected r)) db.documents
unfolding clear_document next_sequence insert_change
clear_document-documents codec q selected db e = ground arith

keep-outside :
    (namespace collection : Text) (s : DocumentRow) (rows : List DocumentRow)
    → kept_out namespace collection (keep (λ r. not (is_selected namespace collection s r)) rows)
      ≡ kept_out namespace collection rows
unfolding keep is_at
keep-outside namespace collection s [] = refl
keep-outside namespace collection s (r ∷ rows) =
    ground (arith, keep-outside namespace collection s rows)

keep-among :
    (namespace collection : Text) (s : DocumentRow) (selected rows : List DocumentRow)
    → all_among namespace collection (s ∷ selected) rows ≡ true
    → all_among namespace collection selected
        (keep (λ r. not (is_selected namespace collection s r)) rows)
      ≡ true
unfolding keep every exists
keep-among namespace collection s selected [] among = refl
keep-among namespace collection s selected (r ∷ rows) among =
    ground (arith, keep-among namespace collection s selected rows)

none-among :
    (namespace collection : Text) (rows : List DocumentRow)
    → all_among namespace collection [] rows ≡ true
    → kept_out namespace collection rows ≡ rows
unfolding keep every exists
none-among namespace collection [] among = refl
none-among namespace collection (r ∷ rows) among =
    ground (arith, none-among namespace collection rows)

clear_documents-first :
    (codec : Codec) (q : ClearCollectionRequest) (s : DocumentRow) (rest : List DocumentRow)
    (db : Database) {changes : List Change} {after : Database}
    → clear_documents codec q (s ∷ rest) db ≡ ok (changes, after)
    → (change : Change) × (others : List Change) × (between : Database) × (clear_document codec q s
          db
        ≡ ok (change, between))
      × (clear_documents codec q rest between ≡ ok (others, after))
unfolding clear_documents
clear_documents-first codec q s rest db {changes} {after} e = go (clear_document codec q s db) refl
  where
    last :
        (change : Change) (between : Database)
        → clear_document codec q s db ≡ ok (change, between)
        → (r : Result (List Change × Database)) → clear_documents codec q rest between ≡ r
        → (change : Change) × (others : List Change) × (between : Database) × (clear_document codec
              q s db
            ≡ ok (change, between))
          × (clear_documents codec q rest between ≡ ok (others, after))
    last change between first (err x) then = ground (arith, first, then)
    last change between first (ok (others, end)) then = (
      change,
      others,
      between,
      first,
      then ∙ ap (λ d. ok (others, d)) (ground (arith, first, then)),
    )

    go :
        (r : Result (Change × Database))
        → clear_document codec q s db ≡ r
        → (change : Change) × (others : List Change) × (between : Database) × (clear_document codec
              q s db
            ≡ ok (change, between))
          × (clear_documents codec q rest between ≡ ok (others, after))
    go (err x) first = ground (arith, first)
    go (ok (change, between)) first =
        last change between first (clear_documents codec q rest between) refl

clear_documents-documents :
    (codec : Codec) (q : ClearCollectionRequest) (selected : List DocumentRow) (db : Database)
    {changes : List Change} {after : Database}
    → all_among q.namespace q.collection selected db.documents ≡ true
    → clear_documents codec q selected db ≡ ok (changes, after)
    → after.documents ≡ kept_out q.namespace q.collection db.documents
unfolding clear_documents
clear_documents-documents codec q [] db among e =
    ground (arith, none-among q.namespace q.collection db.documents)
clear_documents-documents codec q (s ∷ rest) db {changes} {after} among e =
    let (change, others, between, first, more) =
      clear_documents-first codec q s rest db {changes = changes} {after = after} e in
    let cleared = clear_document-documents codec q s db {change = change} {after = between} first in
    let among' : all_among q.namespace q.collection rest between.documents ≡ true =
      ap (all_among q.namespace q.collection rest) cleared
      ∙ keep-among q.namespace q.collection s rest db.documents among in
    clear_documents-documents codec q rest between {changes = others} {after = after} among' more
    ∙ ap (kept_out q.namespace q.collection) cleared
    ∙ keep-outside q.namespace q.collection s db.documents

pub exists-insert_sorted :
    (p : DocumentRow → Bool) (before : DocumentRow → DocumentRow → Bool) (x : DocumentRow)
    (xs : List DocumentRow)
    → exists p (insert_sorted before x xs) ≡ (p x || exists p xs)
unfolding exists insert_sorted
exists-insert_sorted p before x [] = refl
exists-insert_sorted p before x (y ∷ ys) = ground (arith, exists-insert_sorted p before x ys)

pub exists-order_by :
    (p : DocumentRow → Bool) (before : DocumentRow → DocumentRow → Bool) (xs : List DocumentRow)
    → exists p (order_by before xs) ≡ exists p xs
unfolding exists order_by
exists-order_by p before [] = refl
exists-order_by p before (x ∷ xs) =
    exists-insert_sorted p before x (order_by before xs)
    ∙ ap (λ b. p x || b) (exists-order_by p before xs)

among-sorted :
    (namespace collection : Text) (before : DocumentRow → DocumentRow → Bool)
    (selected rows : List DocumentRow)
    → all_among namespace collection selected rows ≡ true
    → all_among namespace collection (order_by before selected) rows ≡ true
unfolding every
among-sorted namespace collection before selected [] among = refl
among-sorted namespace collection before selected (r ∷ rows) among = ground (
  arith,
  exists-order_by (λ s. is_selected namespace collection s r) before selected,
  among-sorted namespace collection before selected rows,
)

among-more :
    (namespace collection : Text) (s : DocumentRow) (selected rows : List DocumentRow)
    → all_among namespace collection selected rows ≡ true
    → all_among namespace collection (s ∷ selected) rows ≡ true
unfolding every exists
among-more namespace collection s selected [] among = refl
among-more namespace collection s selected (r ∷ rows) among =
    ground (arith, among-more namespace collection s selected rows)

among-themselves :
    (namespace collection : Text) (rows : List DocumentRow)
    → all_among namespace collection (keep (is_in namespace collection) rows) rows ≡ true
unfolding every exists keep is_at
among-themselves namespace collection [] = refl
among-themselves namespace collection (r ∷ rows) = ground (
  arith,
  among-themselves namespace collection rows,
  among-more namespace collection r (keep (is_in namespace collection) rows) rows,
  text_eq_refl r.id,
  text_eq_refl r.revision,
)

-- The documents behind a clearing
pub clear_collection-documents :
    (codec : Codec) (q : ClearCollectionRequest) (db : Database) {changes : List Change}
    {after : Database}
    → clear_collection codec q db ≡ (ok changes, after)
    → after.documents ≡ keep (λ r. not (is_in q.namespace q.collection r)) db.documents
unfolding clear_collection collection_rows cleanup_changes
clear_collection-documents codec q db {changes} {after} e =
    go
      (clear_documents codec q
        (order_by created_before (keep (is_in q.namespace q.collection) db.documents)) db)
      refl
  where
    go :
        (r : Result (List Change × Database))
        → clear_documents codec q
            (order_by created_before (keep (is_in q.namespace q.collection) db.documents))
            db
          ≡ r
        → after.documents ≡ keep (λ r. not (is_in q.namespace q.collection r)) db.documents
    go (err x) cleared = ground (arith, cleared)
    go (ok (others, between)) cleared = ground (
      arith,
      cleared,
      clear_documents-documents codec q
          (order_by created_before (keep (is_in q.namespace q.collection) db.documents)) db
          {changes = others} {after = between}
          (among-sorted q.namespace q.collection created_before
            (keep (is_in q.namespace q.collection) db.documents) db.documents
            (among-themselves q.namespace q.collection db.documents))
          cleared,
    )
