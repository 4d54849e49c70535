-- ===== src/Wispist/Declaration/Maps.antt =====
-- wispist/declaration.go: maps from operations, and how many entries they have.
use wispdeck.Prelude.{
  suc, ◌≤◌, ◌≡◌, refl, arith, true, false, not, ◌==◌, Text, text_eq_iff, List, [], ◌∷◌, none,
  length, text_comparable, ℕ_comparable, Assoc, lookup, insert, delete, is_some, keep, length-keep,
  lookup-insert, lookup-delete,
}
use wispdeck.Wispist.Declaration.{one_of}

-- A Go map has no key twice.
unfoldable pub IsMap {ℓ} : {V : Type ℓ} → Assoc Text V → Type ℓ
IsMap [] = Unit
IsMap ((key, value) ∷ rest) = (lookup key rest ≡ none) × IsMap rest

module _ {ℓ} {V : Type ℓ} where
  delete-none : (key : Text) (m : Assoc Text V) → lookup key m ≡ none → delete key m ≡ m
  unfolding delete lookup
  delete-none key [] absent = refl
  delete-none key ((other, value) ∷ rest) absent = ground (arith, delete-none key rest)

  length-delete_map :
      (key : Text) (m : Assoc Text V) → IsMap m → length m ≤ suc (length (delete key m))
  unfolding IsMap delete
  length-delete_map key [] distinct = omega arith
  length-delete_map key ((other, value) ∷ rest) (fresh, distinct) =
      ground
        (arith, length-delete_map key rest distinct, delete-none key rest, text_eq_iff other key)

  delete-IsMap : (key : Text) (m : Assoc Text V) → IsMap m → IsMap (delete key m)
  unfolding IsMap delete
  delete-IsMap key [] distinct = distinct
  delete-IsMap key ((other, value) ∷ rest) (fresh, distinct) =
      ground (arith, delete-IsMap key rest distinct, lookup-delete key other rest)

  pub insert-IsMap :
      (key : Text) (value : V) (m : Assoc Text V) → IsMap m → IsMap (insert key value m)
  unfolding IsMap insert lookup
  insert-IsMap key value [] distinct = ground arith
  insert-IsMap key value ((other, w) ∷ rest) (fresh, distinct) = ground (
    arith,
    insert-IsMap key value rest distinct,
    lookup-insert key other value rest,
    fresh,
    distinct,
    text_eq_iff other key,
    text_eq_iff key other,
  )

  -- A map whose keys are all in a list is no longer than the list.
  pub length-one_of :
      (operations : List Text) (m : Assoc Text V)
      → IsMap m
      → ((key : Text) → is_some (lookup key m) ≡ true → one_of key operations ≡ true)
      → length m ≤ length operations
  unfolding one_of lookup
  length-one_of [] [] distinct listed = omega arith
  length-one_of [] ((key, value) ∷ rest) distinct listed =
      ground (arith, listed key, text_eq_iff key key)
  length-one_of (operation ∷ rest) m distinct listed = ground (
    arith,
    length-delete_map operation m distinct,
    length-one_of rest (delete operation m) (delete-IsMap operation m distinct) (λ key there.
        ground (
          arith,
          listed key,
          lookup-delete operation key m,
          text_eq_iff key operation,
          text_eq_iff operation key,
        )),
  )

pub one_of-keep :
    (key operation : Text) (operations : List Text)
    → one_of key operations ≡ true
    → (key == operation) ≡ false
    → one_of key (keep (λ o. not (o == operation)) operations) ≡ true
unfolding one_of keep
one_of-keep key operation [] listed other = ground arith
one_of-keep key operation (o ∷ rest) listed other = ground (
  arith,
  one_of-keep key operation rest,
  text_eq_iff o operation,
  text_eq_iff key o,
  text_eq_iff key operation,
)

pub length-keep_listed :
    (operation : Text) (operations : List Text)
    → one_of operation operations ≡ true
    → suc (length (keep (λ o. not (o == operation)) operations)) ≤ length operations
unfolding one_of keep
length-keep_listed operation [] listed = ground arith
length-keep_listed operation (o ∷ rest) listed = ground (
  arith,
  length-keep_listed operation rest,
  length-keep (λ o. not (o == operation)) rest,
  text_eq_iff o operation,
  text_eq_iff operation o,
)
