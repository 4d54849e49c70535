-- ===== src/Wispist/Authorization/Decision.antt =====
-- wispist/types.go and wispist/declaration.go: what the authorizer decides under a declaration
-- that `validateDeclaration` accepted.
use wispdeck.Prelude.{
  ◌≡◌, ap, ◌∙◌, inl, inr, Option-cases, Bool-cases, arith, Bool, true, not, ◌&&◌, ◌||◌, ◌==◌, Text,
  List, [], ◌∷◌, some, text_comparable, text_eq_iff, lookup, Assoc,
}
use wispdeck.Wispist.Limits.{Limits}
use wispdeck.Wispist.Declaration.{
  CollectionPolicy, access_anyone, access_authenticated, access_nobody, all_operations, covers,
  one_of, valid_access, valid_policy, policies_of, valid_policies, validate_declaration,
}
use wispdeck.Wispist.Authorization.{
  Principal, principal_authenticated, principal_service, AuthorizationRequest, mutation,
  decide_access, decide_policy, authorize,
}

covers-lookup :
    (operations : List Text) (access : Assoc Text Text) (operation : Text)
    → covers operations access ≡ true
    → one_of operation operations ≡ true
    → (value : Text) × (lookup operation access ≡ some value) × (valid_access value ≡ true)
unfolding covers one_of
covers-lookup (o ∷ rest) access operation covered listed = elim (Option-cases (lookup o access)) [
  | inl absent ↦ ground (arith, absent)
  | inr (value, found) ↦ elim (Bool-cases (operation == o)) [
    | inl same ↦ (
      value,
      ap (λ t. lookup t access) ((text_eq_iff operation o).0 same) ∙ found,
      ground (arith, found),
    )
    | inr other ↦
        covers-lookup rest access operation (ground (arith, found)) (ground (arith, other))
  ]
]
covers-lookup [] access operation covered listed = ground arith

valid_policies-lookup :
    (limits : Limits) (collections : Assoc Text CollectionPolicy) (name : Text)
    {policy : CollectionPolicy}
    → valid_policies limits collections ≡ true
    → lookup name collections ≡ some policy
    → valid_policy limits name policy ≡ true
unfolding valid_policies lookup
valid_policies-lookup limits [] name valid found = ground arith
valid_policies-lookup limits ((other, first) ∷ rest) name {policy} valid found =
    ground (arith, valid_policies-lookup limits rest name {policy = policy}, text_eq_iff other name)

unfoldable pub authenticated : Principal → Bool
authenticated principal =
    principal.kind == principal_authenticated || principal.kind == principal_service

decide_access-allowed :
    (principal : Principal) (access : Text)
    → valid_access access ≡ true
    → (decide_access principal access).allowed
      ≡ (access == access_anyone || (access == access_authenticated && authenticated principal))
unfolding decide_access authenticated
decide_access-allowed principal access valid = ground (
  arith,
  text_eq_iff access access_anyone,
  text_eq_iff access access_authenticated,
  text_eq_iff access access_nobody,
)

-- Under a declaration that `validateDeclaration` accepts, for a declared collection and one of the
-- six operations, the policy states an access; the request is allowed if and only if it is no
-- mutation of a read-only binding, and the access is `anyone`, or is `authenticated` and the
-- principal is an authenticated user or a service.
pub authorize-validate_declaration :
    (limits : Limits)
    → (request : AuthorizationRequest) → {policy : CollectionPolicy}
    → validate_declaration request.binding.declaration limits ≡ true
    → lookup request.collection (policies_of request.binding.declaration) ≡ some policy
    → one_of request.operation all_operations ≡ true
    → (access : Text) × (lookup request.operation policy.access ≡ some access)
      × ((authorize request).allowed ≡ (
          not (request.binding.read_only && mutation request.operation)
          && (access == access_anyone
              || (access == access_authenticated && authenticated request.binding.principal))))
unfolding validate_declaration valid_policy authorize decide_policy
authorize-validate_declaration limits request {policy} valid declared operation =
    let listed =
      valid_policies-lookup limits (policies_of request.binding.declaration) request.collection
        {policy = policy}
        (ground (arith, valid, Option-cases request.binding.declaration.collections)) declared in
    let (access, found, allowed) =
      covers-lookup all_operations policy.access request.operation (ground (arith, listed))
        operation in
    let decided = decide_access-allowed request.binding.principal access allowed in
    (access, found, ground (arith, declared, found, decided))
