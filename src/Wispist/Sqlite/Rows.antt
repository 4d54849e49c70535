-- ===== src/Wispist/Sqlite/Rows.antt =====
-- wispist/sqlite/schema.go: the primary key of `documents`, and what the statements do to a row
-- found by its key.
use wispdeck.Prelude.{
  ℕ, ◌+◌, ◌≤◌, Bool, true, false, not, ◌&&◌, List, [], ◌∷◌, ◌++◌, none, some, Text, keep, find,
  find-keep-none, update_if, total, ◌==◌, text_comparable, text_eq_iff, text_eq_refl, ◌≡◌, refl,
  arith, if◌then◌else◌, Bool-cases, inl, inr,
}
use wispdeck.Wispist.Sqlite.Tables.{DocumentRow}
use wispdeck.Wispist.Sqlite.Steps.{is_at}
use wispdeck.Wispist.Sqlite.Store.{is_at_revision}

-- Two rows of the same key.
abbrev pub same_key : DocumentRow → DocumentRow → Bool
same_key r = is_at r.namespace r.collection r.id

-- `PRIMARY KEY(namespace, collection, id)`
abbrev pub UniqueKeys : List DocumentRow → Type 0
UniqueKeys [] = Unit
UniqueKeys (r ∷ rows) = (find (same_key r) rows ≡ none) × UniqueKeys rows

pub is_at_iff :
    (namespace collection id : Text) (r : DocumentRow)
    → is_at namespace collection id r ≡ true
    → (r.namespace ≡ namespace) × (r.collection ≡ collection) × (r.id ≡ id)
unfolding is_at
is_at_iff namespace collection id r h = ground (
  arith,
  text_eq_iff r.namespace namespace,
  text_eq_iff r.collection collection,
  text_eq_iff r.id id,
)

pub is_at_self : (r : DocumentRow) → is_at r.namespace r.collection r.id r ≡ true
unfolding is_at
is_at_self r = rw (text_eq_refl r.namespace, text_eq_refl r.collection, text_eq_refl r.id)

pub find-none-here :
    (namespace collection id : Text) (r : DocumentRow) (rows : List DocumentRow)
    → is_at namespace collection id r ≡ true
    → find (same_key r) rows ≡ none
    → find (is_at namespace collection id) rows ≡ none
find-none-here namespace collection id r rows h free =
    let (a, b, c) = is_at_iff namespace collection id r h in rw (← a, ← b, ← c) free

pub UniqueKeys-keep :
    (q : DocumentRow → Bool) (rows : List DocumentRow) → UniqueKeys rows → UniqueKeys (keep q rows)
unfolding keep
UniqueKeys-keep q [] u = tt
UniqueKeys-keep q (r ∷ rows) u = elim (Bool-cases (q r)) [
  | inl stays ↦ rw stays (find-keep-none (same_key r) q rows u.0, UniqueKeys-keep q rows u.1)
  | inr gone ↦ rw gone (UniqueKeys-keep q rows u.1)
]

same_key-sym : (r s : DocumentRow) → same_key r s ≡ same_key s r
unfolding is_at
same_key-sym r s = ground (
  arith,
  text_eq_iff r.namespace s.namespace,
  text_eq_iff s.namespace r.namespace,
  text_eq_iff r.collection s.collection,
  text_eq_iff s.collection r.collection,
  text_eq_iff r.id s.id,
  text_eq_iff s.id r.id,
)

find-concat :
    (p : DocumentRow → Bool) (rows : List DocumentRow) (r : DocumentRow)
    → p r ≡ false
    → find p rows ≡ none
    → find p (rows ++ r ∷ []) ≡ none
unfolding find
find-concat p [] r h k = rw h
find-concat p (s ∷ rows) r h k = ground (arith, find-concat p rows r h)

find-none-not :
    (p : DocumentRow → Bool) (r : DocumentRow) (rows : List DocumentRow)
    → find p (r ∷ rows) ≡ none
    → (p r ≡ false) × (find p rows ≡ none)
unfolding find
find-none-not p r rows h = ground arith

-- INSERT of a row whose key is free keeps the keys unique.
pub UniqueKeys-concat :
    (rows : List DocumentRow) (r : DocumentRow)
    → UniqueKeys rows
    → find (same_key r) rows ≡ none
    → UniqueKeys (rows ++ r ∷ [])
unfolding find
UniqueKeys-concat [] r u h = (refl, tt)
UniqueKeys-concat (s ∷ rows) r u h =
    let (apart, free) = find-none-not (same_key r) s rows h in
    (
      find-concat (same_key s) rows r (rw same_key-sym at apart) u.0,
      UniqueKeys-concat rows r u.1 free,
    )

module _ (f : DocumentRow → DocumentRow)
    (keeps_key : (r : DocumentRow)
      → (namespace collection id : Text)
      → is_at namespace collection id (f r) ≡ is_at namespace collection id r) where
  pub find-update_if :
      (namespace collection id : Text) (q : DocumentRow → Bool) (rows : List DocumentRow)
      → find (is_at namespace collection id) (update_if q f rows)
        ≡ (elim (find (is_at namespace collection id) rows) [
          | none ↦ none
          | some r ↦ some (if q r then f r else r)
        ])
  unfolding find update_if
  find-update_if namespace collection id q [] = refl
  find-update_if namespace collection id q (r ∷ rows) =
      ground
        (arith, keeps_key r namespace collection id, find-update_if namespace collection id q rows)

module _ (namespace collection id : Text) where
  -- DELETE at a key and its revision leaves nothing at the key, and other keys as they were.
  pub find-delete :
      (rows : List DocumentRow) {current : DocumentRow} (revision : Text)
      → UniqueKeys rows
      → find (is_at namespace collection id) rows ≡ some current
      → current.revision ≡ revision
      → find
          (is_at namespace collection id)
          (keep (λ r. not (is_at_revision namespace collection id revision r)) rows)
        ≡ none
  unfolding find keep
  find-delete [] revision u h e = refl
  find-delete (r ∷ rows) revision u h e = elim (Bool-cases (is_at namespace collection id r)) [
    | inl here ↦
        let at : is_at_revision namespace collection id revision r ≡ true =
          ground (arith, text_eq_iff r.revision revision) in
        rw at (
          find-keep-none (is_at namespace collection id) _ rows
            (find-none-here namespace collection id r rows here u.0))
    | inr there ↦ rw there (rw there (find-delete rows revision u.1 (rw there at h) e))
  ]

-- A DELETE that spares every row of a key leaves the key as it was.
pub find-keep :
    (p q : DocumentRow → Bool) (rows : List DocumentRow)
    → ((r : DocumentRow) → p r ≡ true → q r ≡ true)
    → find p (keep q rows) ≡ find p rows
unfolding find keep
find-keep p q [] h = refl
find-keep p q (r ∷ rows) h = ground (arith, h r, find-keep p q rows h)

-- Two keys that differ have no row in common.
pub is_at_apart :
    (n c i m d j : Text) (r : DocumentRow)
    → ((n == m && c == d && i == j) ≡ false)
    → is_at n c i r ≡ true
    → is_at m d j r ≡ false
unfolding is_at
is_at_apart n c i m d j r apart h = ground (
  arith,
  text_eq_iff r.namespace n,
  text_eq_iff r.collection c,
  text_eq_iff r.id i,
  text_eq_iff r.namespace m,
  text_eq_iff r.collection d,
  text_eq_iff r.id j,
  text_eq_iff n m,
  text_eq_iff c d,
  text_eq_iff i j,
)

-- The bytes and the number of rows that a SELECT sums up.
pub total-keep :
    (f : DocumentRow → ℕ) (q : DocumentRow → Bool) (rows : List DocumentRow)
    → total f (keep q rows) ≤ total f rows
unfolding total keep
total-keep f q [] = omega arith
total-keep f q (r ∷ rows) = ground (arith, total-keep f q rows)

update_if-none :
    (p q : DocumentRow → Bool) (f : DocumentRow → DocumentRow) (rows : List DocumentRow)
    → find p rows ≡ none
    → update_if (λ r. p r && q r) f rows ≡ rows
unfolding find update_if
update_if-none p q f [] h = refl
update_if-none p q f (r ∷ rows) h = ground (arith, update_if-none p q f rows)

-- An UPDATE at a key exchanges the weight of one row.
pub total-update_if :
    (weight : DocumentRow → ℕ) (namespace collection id : Text) (q : DocumentRow → Bool)
    (f : DocumentRow → DocumentRow) (rows : List DocumentRow) {current : DocumentRow}
    → UniqueKeys rows
    → find (is_at namespace collection id) rows ≡ some current
    → q current ≡ true
    → total weight (update_if (λ r. is_at namespace collection id r && q r) f rows) + weight current
      ≡ total weight rows + weight (f current)
unfolding find update_if total
total-update_if weight namespace collection id q f [] u h e = cc
total-update_if weight namespace collection id q f (r ∷ rows) {current} u h e =
    elim (Bool-cases (is_at namespace collection id r)) [
      | inl here ↦
          let rest =
            update_if-none (is_at namespace collection id) q f rows
              (find-none-here namespace collection id r rows here u.0) in
          ground (arith, here, rest)
      | inr there ↦
          let rest =
            total-update_if weight namespace collection id q f rows {current = current} u.1
              (rw there at h) e in
          ground (arith, there, rest)
    ]

pub find-update-none :
    (p q : DocumentRow → Bool) (f : DocumentRow → DocumentRow) (rows : List DocumentRow)
    → ((r : DocumentRow) → p (f r) ≡ p r)
    → find p rows ≡ none
    → find p (update_if q f rows) ≡ none
unfolding find update_if
find-update-none p q f [] same h = refl
find-update-none p q f (r ∷ rows) same h = ground (arith, same r, find-update-none p q f rows same)
