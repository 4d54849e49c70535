-- ===== src/Wispist/Authorization.antt =====
-- wispist/types.go: the binding of a request and the declarative authorizer.
pub mod Decision
use wispdeck.Prelude.{
  ℕ, ◌≡◌, arith, Bool, true, false, not, ◌&&◌, ◌||◌, ◌==◌, Text, text, List, [], ◌∷◌, Option, none,
  some, if◌then◌else◌, text_comparable, lookup, Assoc,
}
use wispdeck.Prelude.Int.{ℤ}
use wispdeck.Wispist.Types.{Document}
use wispdeck.Wispist.Declaration.{
  policies_of, CollectionPolicy, Declaration, operation_list, operation_read, operation_create,
  operation_update, operation_delete, operation_subscribe, access_anyone, access_authenticated,
  access_nobody, all_operations, covers, one_of, valid_access,
}

-- `PrincipalKind`, a string.
abbrev pub principal_authenticated : Text
principal_authenticated = text "authenticated"

abbrev pub principal_service : Text
principal_service = text "service"

pub record Principal : Type 0 where
  pub kind : Text
  pub subject : Text
  pub claims : Assoc Text Text

pub record Binding : Type 0 where
  pub store_key : Text
  pub namespace : Text
  pub origin : Text
  pub client_key : Text
  pub principal : Principal
  pub declaration : Declaration
  pub mode : Text
  pub read_only : Bool
  pub max_namespace_bytes : ℤ

pub record AuthorizationRequest : Type 0 where
  pub binding : Binding
  pub operation : Text
  pub collection : Text
  pub document_id : Text
  pub current : Option Document
  pub proposed : Text

pub record AuthorizationDecision : Type 0 where
  pub allowed : Bool
  pub authentication_required : Bool

-- `Operation.mutation`
unfoldable pub mutation : Text → Bool
mutation o = o == operation_create || o == operation_update || o == operation_delete

-- `AuthorizationDecision{}`
abbrev pub denied : AuthorizationDecision
denied = record { allowed = false; authentication_required = false }

unfoldable pub decide_access : Principal → Text → AuthorizationDecision
decide_access principal access =
    let authenticated =
      principal.kind == principal_authenticated || principal.kind == principal_service in
    if access == access_nobody
    then denied
    else if access == access_anyone
    then record { allowed = true; authentication_required = false }
    else record { allowed = authenticated; authentication_required = not authenticated }

unfoldable pub decide_policy : Principal → Text → CollectionPolicy → AuthorizationDecision
decide_policy principal operation policy = elim (lookup operation policy.access) [
  | none ↦ denied
  | some access ↦ decide_access principal access
]

-- `DeclarativeAuthorizer.Authorize`
unfoldable pub authorize : AuthorizationRequest → AuthorizationDecision
authorize request =
    let decision : AuthorizationDecision =
      elim (lookup request.collection (policies_of request.binding.declaration)) [
        | none ↦ denied
        | some policy ↦ decide_policy request.binding.principal request.operation policy
      ] in
    if request.binding.read_only && mutation request.operation then denied else decision
