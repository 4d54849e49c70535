-- ===== src/Accounts/Rows.antt =====
-- internal/store/users.go: how the statements change what exists among the rows.
use wispdeck.Prelude.{
  ◌≡◌, inl, inr, refl, arith, Bool, true, false, not, ◌&&◌, ◌||◌, ◌==◌, Text, text_comparable,
  text_eq_iff, List, [], ◌∷◌, ◌++◌, some, exists, every, find, keep, update_if, Bool-cases, subst,
  ap, ◌∙◌,
}
use wispdeck.Accounts.Types.{role_superuser, user_active}
use wispdeck.Accounts.Tables.{UserRow}
use wispdeck.Accounts.Users.{has_id}

module _ {ℓ} {A : Type ℓ} where
  pub exists-append :
      (p : A → Bool) (xs ys : List A) → exists p (xs ++ ys) ≡ (exists p xs || exists p ys)
  unfolding exists
  exists-append p [] ys = ground arith
  exists-append p (x ∷ xs) ys = ground (arith, exists-append p xs ys)

  pub every-append :
      (p : A → Bool) (xs ys : List A) → every p (xs ++ ys) ≡ (every p xs && every p ys)
  unfolding every
  every-append p [] ys = ground arith
  every-append p (x ∷ xs) ys = ground (arith, every-append p xs ys)

  pub every-keep : (p q : A → Bool) (xs : List A) → every p xs ≡ true → every p (keep q xs) ≡ true
  unfolding every keep
  every-keep p q [] h = h
  every-keep p q (x ∷ xs) h = ground (arith, every-keep p q xs)

  pub every-weaken :
      (p q : A → Bool) (xs : List A)
      → ((x : A) → p x ≡ true → q x ≡ true)
      → every p xs ≡ true
      → every q xs ≡ true
  unfolding every
  every-weaken p q [] w h = h
  every-weaken p q (x ∷ xs) w h = ground (arith, w x, every-weaken p q xs w)

  pub exists-weaken :
      (p q : A → Bool) (xs : List A)
      → ((x : A) → p x ≡ true → q x ≡ true)
      → exists p xs ≡ true
      → exists q xs ≡ true
  unfolding exists
  exists-weaken p q [] w h = h
  exists-weaken p q (x ∷ xs) w h = ground (arith, w x, exists-weaken p q xs w)

  -- A change that keeps the predicate on every row.
  pub exists-update_if :
      (p q : A → Bool) (f : A → A) (xs : List A)
      → ((x : A) → p x ≡ true → p (f x) ≡ true)
      → exists p xs ≡ true
      → exists p (update_if q f xs) ≡ true
  unfolding exists update_if
  exists-update_if p q f [] w h = h
  exists-update_if p q f (x ∷ xs) w h = ground (arith, w x, exists-update_if p q f xs w)

  -- A row that is not changed stays.
  pub exists-update_other :
      (p q : A → Bool) (f : A → A) (xs : List A)
      → exists (λ x. not (q x) && p x) xs ≡ true
      → exists p (update_if q f xs) ≡ true
  unfolding exists update_if
  exists-update_other p q f [] h = h
  exists-update_other p q f (x ∷ xs) h = ground (arith, exists-update_other p q f xs)

  pub every-update_if :
      (p q : A → Bool) (f : A → A) (xs : List A)
      → ((x : A) → p x ≡ true → p (f x) ≡ true)
      → every p xs ≡ true
      → every p (update_if q f xs) ≡ true
  unfolding every update_if
  every-update_if p q f [] w h = h
  every-update_if p q f (x ∷ xs) w h = ground (arith, w x, every-update_if p q f xs w)

  pub find-exists : (p : A → Bool) (xs : List A) {a : A} → find p xs ≡ some a → exists p xs ≡ true
  unfolding find exists
  find-exists p [] h = ground arith
  find-exists p (x ∷ xs) {a} h = ground (arith, find-exists p xs {a = a})

abbrev pub is_active_superuser : UserRow → Bool
is_active_superuser u = u.role == role_superuser && u.status == user_active

-- The user of a session may use it.
abbrev pub is_active_user : Text → UserRow → Bool
is_active_user id u = u.id == id && u.status == user_active

-- No identifier stands twice.
unfoldable pub UniqueIds : List UserRow → Type 0
UniqueIds [] = Unit {0}
UniqueIds (u ∷ rest) = (exists (has_id u.id) rest ≡ false) × UniqueIds rest

exists-update_id :
    (id : Text) (q : UserRow → Bool) (f : UserRow → UserRow) (rows : List UserRow)
    → ((u : UserRow) → (f u).id ≡ u.id)
    → exists (has_id id) (update_if q f rows) ≡ exists (has_id id) rows
unfolding exists update_if
exists-update_id id q f [] kept = refl
exists-update_id id q f (u ∷ rows) kept = ground (arith, kept u, exists-update_id id q f rows kept)

pub update_if-UniqueIds :
    (q : UserRow → Bool) (f : UserRow → UserRow) (rows : List UserRow)
    → ((u : UserRow) → (f u).id ≡ u.id)
    → UniqueIds rows
    → UniqueIds (update_if q f rows)
unfolding UniqueIds update_if
update_if-UniqueIds q f [] kept h = h
update_if-UniqueIds q f (u ∷ rows) kept (fresh, h) =
    ground (arith, kept u, exists-update_id u.id q f rows kept, update_if-UniqueIds q f rows kept h)

pub append-UniqueIds :
    (rows : List UserRow) (row : UserRow)
    → exists (has_id row.id) rows ≡ false
    → UniqueIds rows
    → UniqueIds (rows ++ row ∷ [])
unfolding UniqueIds exists
append-UniqueIds [] row fresh h = ground arith
append-UniqueIds (u ∷ rows) row fresh (first, h) = ground (
  arith,
  append-UniqueIds rows row,
  exists-append (has_id u.id) rows (row ∷ []),
  text_eq_iff u.id row.id,
  text_eq_iff row.id u.id,
)

pub has_id-found :
    (id : Text) (rows : List UserRow) {row : UserRow}
    → find (has_id id) rows ≡ some row
    → row.id ≡ id
unfolding find
has_id-found id [] found = ground arith
has_id-found id (u ∷ rows) {row} found =
    ground (arith, has_id-found id rows {row = row}, text_eq_iff u.id id)

exists-without :
    (p : UserRow → Bool) (id : Text) (rows : List UserRow)
    → exists (has_id id) rows ≡ false
    → exists p rows ≡ true
    → exists (λ u. not (has_id id u) && p u) rows ≡ true
unfolding exists
exists-without p id [] absent there = there
exists-without p id (u ∷ rows) absent there = ground (arith, exists-without p id rows)

-- Where the row of an id does not meet a predicate, a row that does has another id.
pub exists-other :
    (p : UserRow → Bool) (id : Text) (rows : List UserRow) {row : UserRow}
    → UniqueIds rows
    → find (has_id id) rows ≡ some row
    → p row ≡ false
    → exists p rows ≡ true
    → exists (λ u. not (has_id id u) && p u) rows ≡ true
unfolding UniqueIds find exists
exists-other p id [] unique found fails there = there
exists-other p id (u ∷ rows) {row} (fresh, unique) found fails there =
    elim (Bool-cases (has_id id u)) [
      | inl same ↦
          let equal : u.id ≡ id = (text_eq_iff u.id id).0 same in
          let here : u ≡ row = ground arith in
          let absent : exists (has_id id) rows ≡ false =
            subst (λ i. exists (has_id i) rows ≡ false) equal fresh in
          let fails_here : p u ≡ false = ap p here ∙ fails in
          ground (arith, exists-without p id rows)
      | inr other ↦ ground (arith, exists-other p id rows {row = row})
    ]
