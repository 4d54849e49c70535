-- ===== src/Wispist/Sqlite/Selected.antt =====
-- wispist/sqlite/admin.go: the documents that are selected for a clearing.
use wispdeck.Prelude.{
  ℕ, ◌≡◌, refl, ap, ◌∙◌, arith, Bool, true, false, not, ◌&&◌, ◌==◌, Text, text_eq_iff, text_eq_refl,
  List, [], ◌∷◌, none, keep, find, exists, every, order_by, insert_sorted, length, text_comparable,
  ℕ_comparable, Bool-cases, inl, inr,
}
use wispdeck.Wispist.Sqlite.Tables.{DocumentRow}
use wispdeck.Wispist.Sqlite.Steps.{is_at, is_in}
use wispdeck.Wispist.Sqlite.Rows.{UniqueKeys, same_key}
use wispdeck.Wispist.Sqlite.Clearing.{exists-insert_sorted, exists-order_by}
use wispdeck.Wispist.Sqlite.Admin.{is_selected}

abbrev pub count : Text → Text → DocumentRow → List DocumentRow → ℕ
count namespace collection s rows = length (keep (is_selected namespace collection s) rows)

abbrev pub has_document_id : Text → DocumentRow → Bool
has_document_id id s = s.id == id

unfoldable pub are_distinct : List DocumentRow → Bool
are_distinct [] = true
are_distinct (s ∷ rest) = not (exists (has_document_id s.id) rest) && are_distinct rest

-- Each of the rows is the only one of its key.
abbrev pub are_single : Text → Text → List DocumentRow → List DocumentRow → Bool
are_single namespace collection selected rows =
    every (λ s. count namespace collection s rows == 1) selected

pub count-keep :
    (namespace collection : Text) (s t : DocumentRow) (rows : List DocumentRow)
    → (t.id == s.id) ≡ false
    → count namespace collection t (keep (λ r. not (is_selected namespace collection s r)) rows)
      ≡ count namespace collection t rows
unfolding keep is_at
count-keep namespace collection s t [] other = refl
count-keep namespace collection s t (r ∷ rows) other = ground (
  arith,
  count-keep namespace collection s t rows other,
  text_eq_iff r.id s.id,
  text_eq_iff r.id t.id,
  text_eq_iff t.id s.id,
)

pub single-keep :
    (namespace collection : Text) (s : DocumentRow) (selected rows : List DocumentRow)
    → exists (has_document_id s.id) selected ≡ false
    → are_single namespace collection selected rows ≡ true
    → are_single namespace collection selected
        (keep (λ r. not (is_selected namespace collection s r)) rows)
      ≡ true
unfolding every exists
single-keep namespace collection s [] rows fresh single = refl
single-keep namespace collection s (t ∷ selected) rows fresh single = ground (
  arith,
  count-keep namespace collection s t rows,
  single-keep namespace collection s selected rows,
)

every-insert_sorted :
    (p : DocumentRow → Bool) (before : DocumentRow → DocumentRow → Bool) (x : DocumentRow)
    (xs : List DocumentRow)
    → every p (insert_sorted before x xs) ≡ (p x && every p xs)
unfolding every insert_sorted
every-insert_sorted p before x [] = refl
every-insert_sorted p before x (y ∷ ys) = ground (arith, every-insert_sorted p before x ys)

pub every-order_by :
    (p : DocumentRow → Bool) (before : DocumentRow → DocumentRow → Bool) (xs : List DocumentRow)
    → every p (order_by before xs) ≡ every p xs
unfolding every order_by
every-order_by p before [] = refl
every-order_by p before (x ∷ xs) =
    every-insert_sorted p before x (order_by before xs)
    ∙ ap (λ b. p x && b) (every-order_by p before xs)

distinct-insert_sorted :
    (before : DocumentRow → DocumentRow → Bool) (x : DocumentRow) (xs : List DocumentRow)
    → exists (has_document_id x.id) xs ≡ false
    → are_distinct xs ≡ true
    → are_distinct (insert_sorted before x xs) ≡ true
unfolding are_distinct insert_sorted exists
distinct-insert_sorted before x [] fresh distinct = refl
distinct-insert_sorted before x (y ∷ ys) fresh distinct = ground (
  arith,
  distinct-insert_sorted before x ys,
  exists-insert_sorted (has_document_id y.id) before x ys,
  text_eq_iff x.id y.id,
  text_eq_iff y.id x.id,
)

pub distinct-order_by :
    (before : DocumentRow → DocumentRow → Bool) (xs : List DocumentRow)
    → are_distinct xs ≡ true
    → are_distinct (order_by before xs) ≡ true
unfolding are_distinct order_by
distinct-order_by before [] distinct = refl
distinct-order_by before (x ∷ xs) distinct =
    distinct-insert_sorted before x (order_by before xs)
      (exists-order_by (has_document_id x.id) before xs ∙ ground arith)
      (distinct-order_by before xs (ground arith))

fresh-id :
    (namespace collection : Text) (r : DocumentRow) (rows : List DocumentRow)
    → is_in namespace collection r ≡ true
    → find (same_key r) rows ≡ none
    → exists (has_document_id r.id) (keep (is_in namespace collection) rows) ≡ false
unfolding find exists keep is_at
fresh-id namespace collection r [] here fresh = refl
fresh-id namespace collection r (x ∷ rows) here fresh = ground (
  arith,
  fresh-id namespace collection r rows,
  text_eq_iff r.namespace namespace,
  text_eq_iff r.collection collection,
)

pub distinct-collection :
    (namespace collection : Text) (rows : List DocumentRow)
    → UniqueKeys rows
    → are_distinct (keep (is_in namespace collection) rows) ≡ true
unfolding are_distinct keep
distinct-collection namespace collection [] unique = refl
distinct-collection namespace collection (r ∷ rows) (fresh, unique) = ground (
  arith,
  distinct-collection namespace collection rows unique,
  fresh-id namespace collection r rows,
)

count-fresh :
    (namespace collection : Text) (s : DocumentRow) (rows : List DocumentRow)
    → exists (has_document_id s.id) (keep (is_in namespace collection) rows) ≡ false
    → count namespace collection s rows ≡ 0
unfolding exists keep is_at
count-fresh namespace collection s [] fresh = refl
count-fresh namespace collection s (r ∷ rows) fresh =
    ground (arith, count-fresh namespace collection s rows)

single-more :
    (namespace collection : Text) (r : DocumentRow) (selected rows : List DocumentRow)
    → exists (has_document_id r.id) selected ≡ false
    → are_single namespace collection selected rows ≡ true
    → are_single namespace collection selected (r ∷ rows) ≡ true
unfolding every exists keep is_at
single-more namespace collection r [] rows fresh single = refl
single-more namespace collection r (s ∷ selected) rows fresh single = ground (
  arith,
  single-more namespace collection r selected rows,
  text_eq_iff r.id s.id,
  text_eq_iff s.id r.id,
)

single-outside :
    (namespace collection : Text) (r : DocumentRow) (selected rows : List DocumentRow)
    → is_in namespace collection r ≡ false
    → are_single namespace collection selected rows ≡ true
    → are_single namespace collection selected (r ∷ rows) ≡ true
unfolding every keep is_at
single-outside namespace collection r [] rows outside single = refl
single-outside namespace collection r (s ∷ selected) rows outside single =
    ground (arith, single-outside namespace collection r selected rows)

count-first :
    (namespace collection : Text) (r : DocumentRow) (rows : List DocumentRow)
    → is_in namespace collection r ≡ true
    → count namespace collection r rows ≡ 0
    → count namespace collection r (r ∷ rows) ≡ 1
unfolding keep is_at
count-first namespace collection r rows here nothing =
    ground (arith, nothing, text_eq_refl r.id, text_eq_refl r.revision)

pub single-collection :
    (namespace collection : Text) (rows : List DocumentRow)
    → UniqueKeys rows
    → are_single namespace collection (keep (is_in namespace collection) rows) rows ≡ true
unfolding every keep
single-collection namespace collection [] unique = refl
single-collection namespace collection (r ∷ rows) (fresh, unique) =
    elim (Bool-cases (is_in namespace collection r)) [
      | inl here ↦
          let alone = fresh-id namespace collection r rows here fresh in
          let rest =
            single-more namespace collection r (keep (is_in namespace collection) rows) rows alone
              (single-collection namespace collection rows unique) in
          let once =
            count-first namespace collection r rows here
              (count-fresh namespace collection r rows alone) in
          ground (arith, here, rest, once)
      | inr outside ↦
          let rest =
            single-outside namespace collection r (keep (is_in namespace collection) rows) rows
              outside (single-collection namespace collection rows unique) in
          ground (arith, outside, rest)
    ]
