-- ===== src/Wispist/Declaration/Access.antt =====
-- wispist/declaration.go: an access object that `parseCollectionAccess` takes states every
-- operation.
use wispdeck.Prelude.{
  ◌+◌, ◌≡◌, inl, inr, refl, subst, arith, true, not, ◌==◌, Text, text_eq, text_eq_iff, List, [],
  ◌∷◌, none, some, length, text_comparable, ℕ_comparable, Assoc, lookup, insert, is_some, keep,
  lookup-insert, length-insert, Option-cases,
}
use Prim.{tt}
use wispdeck.Wispist.Declaration.{
  all_operations, one_of, valid_operation, valid_access, grant_all, RawAccess, access_absent,
  access_profile, access_object, access_other, collect_access, parse_collection_access, covers,
}
use wispdeck.Wispist.Declaration.Maps.{
  IsMap, insert-IsMap, length-one_of, one_of-keep, length-keep_listed,
}

-- Every entry is one of the operations, with an access.
abbrev pub IsValid : Assoc Text Text → Type 0
IsValid access =
    (key value : Text)
    → lookup key access ≡ some value
    → (valid_operation key ≡ true) × (valid_access value ≡ true)

IsValid-insert :
    (key value : Text) (access : Assoc Text Text)
    → valid_operation key ≡ true
    → valid_access value ≡ true
    → IsValid access
    → IsValid (insert key value access)
IsValid-insert key value access operation granted valid other w found =
    ground (arith, valid other w, lookup-insert key other value access, text_eq_iff key other)

-- The two maps share no key.
abbrev pub IsApart : Assoc Text Text → Assoc Text Text → Type 0
IsApart access values = (key : Text) → is_some (lookup key values) ≡ true → lookup key access ≡ none

collect_access-IsMap :
    (access values : Assoc Text Text) {collected : Assoc Text Text}
    → IsMap access
    → IsMap values
    → IsApart access values
    → IsValid access
    → collect_access access values ≡ some collected
    → IsMap collected × IsValid collected × (length collected ≡ length access + length values)
unfolding collect_access IsMap lookup
collect_access-IsMap access [] {collected} distinct _ apart valid parsed =
    let same : access ≡ collected = ground arith in
    subst (λ c. IsMap c × IsValid c × (length c ≡ length access + 0)) same
      (distinct, valid, omega arith)
collect_access-IsMap access ((key, value) ∷ rest) {collected} distinct (fresh, others) apart valid
      parsed =
    let operation : valid_operation key ≡ true = ground arith in
    let granted : valid_access value ≡ true = ground arith in
    let (one, two, three) =
      collect_access-IsMap (insert key value access) rest {collected = collected}
        (insert-IsMap key value access distinct) others
        (λ other there.
          ground (
            arith,
            apart other,
            lookup-insert key other value access,
            text_eq_iff key other,
            fresh,
          ))
        (IsValid-insert key value access operation granted valid) (ground arith) in
    (
      one,
      two,
      ground (arith, three, apart key, length-insert key value access, text_eq_iff key key),
    )

IsValid-operation :
    (access : Assoc Text Text) (key : Text)
    → IsValid access
    → is_some (lookup key access) ≡ true
    → valid_operation key ≡ true
IsValid-operation access key valid there = elim (Option-cases (lookup key access)) [
  | inl absent ↦ ground (arith, absent)
  | inr (value, found) ↦ (valid key value found).0
]

-- With as many entries as there are operations, none is missing.
one_of-lookup :
    (access : Assoc Text Text) (operation : Text)
    → IsMap access
    → IsValid access
    → length access ≡ length all_operations
    → valid_operation operation ≡ true
    → (value : Text) × (lookup operation access ≡ some value) × (valid_access value ≡ true)
one_of-lookup access operation distinct valid full listed =
    elim (Option-cases (lookup operation access)) [
      | inr (value, found) ↦ (value, found, (valid operation value found).1)
      | inl absent ↦
          let others = keep (λ o. not (o == operation)) all_operations in
          let short = length-one_of others access distinct (λ key there.
            one_of-keep key operation all_operations (IsValid-operation access key valid there)
              (ground (arith, there, absent, text_eq_iff key operation))) in
          ground (arith, short, full, length-keep_listed operation all_operations listed)
    ]

covers-IsValid :
    (operations : List Text) (access : Assoc Text Text)
    → ((operation : Text)
        → one_of operation operations ≡ true
        → (value : Text) × (lookup operation access ≡ some value) × (valid_access value ≡ true))
    → covers operations access ≡ true
unfolding covers one_of
covers-IsValid [] access complete = refl
covers-IsValid (operation ∷ rest) access complete =
    let (value, found, granted) =
      complete operation (ground (arith, text_eq_iff operation operation)) in
    let later = covers-IsValid rest access (λ o listed. complete o (ground (arith, listed))) in
    ground (arith, found, granted, later)

-- The object of an `access` is a Go map.
unfoldable pub IsDecoded : RawAccess → Type 0
IsDecoded (access_object values) = IsMap values
IsDecoded _ = Unit {0}

empty-IsMap : IsMap {V = Text} []
unfolding IsMap
empty-IsMap = tt

empty-lookup : (key : Text) → lookup {V = Text} key [] ≡ none
unfolding lookup
empty-lookup key = refl

collect_access-covers :
    (values : Assoc Text Text) {access : Assoc Text Text}
    → IsMap values
    → length values ≡ length all_operations
    → collect_access [] values ≡ some access
    → (length access ≡ length all_operations) × (covers all_operations access ≡ true)
collect_access-covers values {access} distinct full parsed =
    let (map, valid, size) =
      collect_access-IsMap [] values {collected = access} empty-IsMap distinct
        (λ key there. empty-lookup key) (λ key value found. ground (arith, empty-lookup key))
        parsed in
    let whole : length access ≡ length all_operations = ground (arith, size, full) in
    (
      whole,
      covers-IsValid all_operations access
          (λ operation listed. one_of-lookup access operation map valid whole listed),
    )

grant_all-covers :
    (length (grant_all all_operations) ≡ length all_operations)
    × (covers all_operations (grant_all all_operations) ≡ true)
unfolding grant_all insert covers lookup text_eq
grant_all-covers = (refl, refl)

pub parse_collection_access-covers :
    (raw : RawAccess) {access : Assoc Text Text}
    → IsDecoded raw
    → parse_collection_access raw ≡ some access
    → (length access ≡ length all_operations) × (covers all_operations access ≡ true)
unfolding parse_collection_access IsDecoded
parse_collection_access-covers access_absent decoded parsed = ground arith
parse_collection_access-covers access_other decoded parsed = ground arith
parse_collection_access-covers (access_profile profile) {access} decoded parsed =
    let same : grant_all all_operations ≡ access = ground arith in
    subst (λ a. (length a ≡ length all_operations) × (covers all_operations a ≡ true)) same
      grant_all-covers
parse_collection_access-covers (access_object values) {access} decoded parsed =
    collect_access-covers values {access = access} decoded (ground arith) (ground arith)
