-- ===== src/Wispist/Declaration/Parsing.antt =====
-- wispist/declaration.go: `validateDeclaration` accepts what `ParseDeclaration` returns.
use wispdeck.Prelude.{
  ℕ, ◌+◌, ◌≤◌, ◌≡◌, inl, inr, refl, subst, arith, true, false, Text, [], ◌∷◌, some, length,
  text_comparable, ℕ_comparable, Assoc, insert, length-insert, Option-cases,
}
use wispdeck.Prelude.Int.{ℤ, pos, ltb_ℤ, int_comparable}
use wispdeck.Wispist.Limits.{Limits, normalize_limits}
use wispdeck.Wispist.Declaration.{
  CollectionPolicy, Declaration, RawCollection, RawDeclaration, parse_collection_access,
  parse_collection, parse_collections, parse_declaration, valid_policy, valid_policies,
  validate_declaration,
}
use wispdeck.Wispist.Declaration.Access.{IsDecoded, parse_collection_access-covers}

-- The access objects of the collections are Go maps.
unfoldable pub AreDecoded : Assoc Text RawCollection → Type 0
AreDecoded [] = Unit {0}
AreDecoded ((name, value) ∷ rest) = IsDecoded value.access × AreDecoded rest

parse_collection-valid_policy :
    (limits : Limits) (name : Text) (value : RawCollection) {policy : CollectionPolicy}
    → IsDecoded value.access
    → parse_collection limits name value ≡ some policy
    → valid_policy limits name policy ≡ true
unfolding parse_collection valid_policy
parse_collection-valid_policy limits name value {policy} decoded parsed =
    elim (Option-cases (parse_collection_access value.access)) [
      | inl absent ↦ ground (arith, absent)
      | inr (access, found) ↦
          let (size, complete) =
            parse_collection_access-covers value.access {access = access} decoded found in
          ground (arith, found, size, complete)
    ]

valid_policies-insert :
    (limits : Limits) (name : Text) (policy : CollectionPolicy)
    (parsed : Assoc Text CollectionPolicy)
    → valid_policy limits name policy ≡ true
    → valid_policies limits parsed ≡ true
    → valid_policies limits (insert name policy parsed) ≡ true
unfolding valid_policies insert
valid_policies-insert limits name policy [] valid all = ground arith
valid_policies-insert limits name policy ((other, first) ∷ rest) valid all =
    ground (arith, valid_policies-insert limits name policy rest)

parse_collections-valid_policies :
    (limits : Limits) (parsed : Assoc Text CollectionPolicy) (raw : Assoc Text RawCollection)
    {result : Assoc Text CollectionPolicy}
    → AreDecoded raw
    → valid_policies limits parsed ≡ true
    → parse_collections limits parsed raw ≡ some result
    → (valid_policies limits result ≡ true) × (length result ≤ length parsed + length raw)
unfolding parse_collections AreDecoded
parse_collections-valid_policies limits parsed [] {result} decoded valid done =
    let same : parsed ≡ result = ground arith in
    subst (λ r. (valid_policies limits r ≡ true) × (length r ≤ length parsed + 0)) same
      (valid, omega arith)
parse_collections-valid_policies limits parsed ((name, value) ∷ rest) {result} (decoded, others)
      valid done =
    elim (Option-cases (parse_collection limits name value)) [
      | inl absent ↦ ground (arith, absent)
      | inr (policy, found) ↦
          let one =
            parse_collection-valid_policy limits name value {policy = policy} decoded found in
          let (all, size) =
            parse_collections-valid_policies limits (insert name policy parsed) rest
              {result = result} others (valid_policies-insert limits name policy parsed one valid)
              (ground (arith, found)) in
          (all, ground (arith, size, length-insert name policy parsed))
    ]

empty-valid : (limits : Limits) → valid_policies limits [] ≡ true
unfolding valid_policies
empty-valid limits = refl

ltb_ℤ-le : (limit : ℤ) (a b : ℕ) → a ≤ b → ltb_ℤ limit (pos b) ≡ false → ltb_ℤ limit (pos a) ≡ false
unfolding ltb_ℤ
ltb_ℤ-le limit a b h allowed = ground arith

-- The collections of the file, when it has them, and their access objects are Go maps.
unfoldable pub IsFile : RawDeclaration → Type 0
IsFile raw =
    (collections : Assoc Text RawCollection)
    → raw.collections ≡ some collections
    → AreDecoded collections

-- A declaration that `ParseDeclaration` returns for a decoded file, under limits that
-- `normalizeLimits` accepts, passes `validateDeclaration` under the normalized limits.
pub parse_declaration-validate_declaration :
    (limits normal : Limits)
    → (raw : RawDeclaration) → {declaration : Declaration} → IsFile raw
    → parse_declaration limits raw ≡ some declaration
    → normalize_limits limits ≡ some normal
    → validate_declaration declaration normal ≡ true
unfolding parse_declaration validate_declaration IsFile
parse_declaration-validate_declaration limits normal raw {declaration} file parsed normalized =
    elim (Option-cases raw.collections) [
      | inl absent ↦ ground (arith, absent, normalized)
      | inr (collections, there) ↦ elim (Option-cases (parse_collections normal [] collections)) [
        | inl refused ↦ ground (arith, there, refused, normalized)
        | inr (policies, built) ↦
            let (valid, size) =
              parse_collections-valid_policies normal [] collections {result = policies}
                (file collections there) (empty-valid normal) built in
            ground (
              arith,
              there,
              built,
              normalized,
              valid,
              size,
              ltb_ℤ-le normal.max_collections (length policies) (length collections),
            )
      ]
    ]
