-- ===== src/Wispist/Declaration.antt =====
-- wispist/declaration.go, with the types of wispist/types.go that it fills. A raw declaration is
-- what `decodeStrict` read from a file that `normalizeJSONObject` accepted; its `access` is what the
-- two decodings of `parseCollectionAccess` make of it. Every error is `ErrInvalidDeclaration`.
pub mod Maps
pub mod Access
pub mod Parsing
use wispdeck.Prelude.{
  ℕ, Bool, true, false, not, ◌&&◌, ◌||◌, ◌==◌, Text, text, List, [], ◌∷◌, Option, none, some,
  length, every, within, leb, if◌then◌else◌, text_comparable, ℕ_comparable, Assoc, lookup, insert,
}
use wispdeck.Prelude.Int.{ℤ, pos, ltb_ℤ, int_comparable}
use wispdeck.Wispist.Limits.{Limits, normalize_limits}

-- `Operation` and `Access` are strings.
abbrev pub operation_list : Text
operation_list = text "list"

abbrev pub operation_read : Text
operation_read = text "read"

abbrev pub operation_create : Text
operation_create = text "create"

abbrev pub operation_update : Text
operation_update = text "update"

abbrev pub operation_delete : Text
operation_delete = text "delete"

abbrev pub operation_subscribe : Text
operation_subscribe = text "subscribe"

abbrev pub access_anyone : Text
access_anyone = text "anyone"

abbrev pub access_authenticated : Text
access_authenticated = text "authenticated"

abbrev pub access_nobody : Text
access_nobody = text "nobody"

abbrev pub protocol_version : ℤ
protocol_version = pos 1

pub record CollectionPolicy : Type 0 where
  pub access : Assoc Text Text
  pub max_documents : ℤ
  pub max_document_bytes : ℤ

pub record Declaration : Type 0 where
  pub version : ℤ
  pub collections : Option (Assoc Text CollectionPolicy)

-- A lookup in a nil map finds nothing.
abbrev pub policies_of : Declaration → Assoc Text CollectionPolicy
policies_of declaration = elim declaration.collections [
  | none ↦ []
  | some collections ↦ collections
]

-- `access` in the file: absent, a JSON string (null decodes to the empty one), an object of
-- strings, or anything else.
pub data RawAccess : Type 0 where
  access_absent : RawAccess
  access_profile : Text → RawAccess
  access_object : Assoc Text Text → RawAccess
  access_other : RawAccess

pub record RawCollection : Type 0 where
  pub access : RawAccess
  pub max_documents : Option ℤ
  pub max_document_bytes : Option ℤ

pub record RawDeclaration : Type 0 where
  pub version : ℤ
  pub collections : Option (Assoc Text RawCollection)

abbrev pub all_operations : List Text
all_operations =
    operation_list ∷ operation_read ∷ operation_create ∷ operation_update ∷ operation_delete
    ∷ operation_subscribe ∷ []

abbrev pub empty_declaration : Declaration
empty_declaration = record { version = protocol_version; collections = some [] }

unfoldable pub one_of : Text → List Text → Bool
one_of value [] = false
one_of value (operation ∷ rest) = let later = one_of value rest in value == operation || later

abbrev pub valid_operation : Text → Bool
valid_operation value = one_of value all_operations

abbrev pub valid_access : Text → Bool
valid_access value =
    value == access_anyone || value == access_authenticated || value == access_nobody

abbrev is_lower : ℕ → Bool
is_lower = within 97 122

abbrev is_upper : ℕ → Bool
is_upper = within 65 90

abbrev is_digit : ℕ → Bool
is_digit = within 48 57

-- `-` and `_`
abbrev is_joiner : ℕ → Bool
is_joiner char = char == 45 || char == 95

-- `ValidCollectionName`
unfoldable pub valid_collection_name : Text → Bool
unfolding every
valid_collection_name [] = false
valid_collection_name (char ∷ rest) =
    leb (length (char ∷ rest)) 48
    && is_lower char
    && every (λ c. is_lower c || is_digit c || is_joiner c) rest

-- `ValidDocumentID`
unfoldable pub valid_document_id : Text → Bool
unfolding every
valid_document_id value =
    leb 1 (length value)
    && leb (length value) 64
    && not (value == text ".")
    && not (value == text "..")
    && every (λ c. is_lower c || is_upper c || is_digit c || is_joiner c) value

-- `for _, operation := range allOperations { access[operation] = AccessAnyone }`
unfoldable pub grant_all : List Text → Assoc Text Text
grant_all [] = []
grant_all (operation ∷ rest) = insert operation access_anyone (grant_all rest)

unfoldable pub collect_access : Assoc Text Text → Assoc Text Text → Option (Assoc Text Text)
collect_access access [] = some access
collect_access access ((key, value) ∷ rest) =
    let collected = collect_access (insert key value access) rest in
    if not (valid_operation key) then none else if not (valid_access value) then none else collected

-- `parseCollectionAccess`
unfoldable pub parse_collection_access : RawAccess → Option (Assoc Text Text)
parse_collection_access access_absent = none
parse_collection_access (access_profile profile) =
    if not (profile == text "shared") then none else some (grant_all all_operations)
parse_collection_access (access_object values) =
    if not (length values == length all_operations) then none else collect_access [] values
parse_collection_access access_other = none

abbrev pub or_limit : Option ℤ → ℤ → ℤ
or_limit none limit = limit
or_limit (some value) limit = value

-- `value < low || value > high` is false.
abbrev pub in_range : ℤ → ℤ → ℤ → Bool
in_range low high value = not (ltb_ℤ value low || ltb_ℤ high value)

-- The body of the range over `raw.Collections`, for one collection.
unfoldable pub parse_collection : Limits → Text → RawCollection → Option CollectionPolicy
parse_collection limits name value =
    let max_documents = or_limit value.max_documents limits.max_documents in
    let max_document_bytes = or_limit value.max_document_bytes limits.max_document_bytes in
    let parsed = parse_collection_access value.access in
    if not (valid_collection_name name) then none else elim parsed [
      | none ↦ none
      | some access ↦
          if not (in_range (pos 1) limits.max_documents max_documents)
          then none
          else if not (in_range (pos 2) limits.max_document_bytes max_document_bytes)
          then none
          else some (record {
            access = access;
            max_documents = max_documents;
            max_document_bytes = max_document_bytes;
          })
    ]

unfoldable pub parse_collections :
    Limits
    → Assoc Text CollectionPolicy
    → Assoc Text RawCollection
    → Option (Assoc Text CollectionPolicy)
parse_collections limits parsed [] = some parsed
parse_collections limits parsed ((name, value) ∷ rest) = elim (parse_collection limits name value) [
  | none ↦ none
  | some policy ↦ parse_collections limits (insert name policy parsed) rest
]

-- `ParseDeclaration`, from the decoded file on.
unfoldable pub parse_declaration : Limits → RawDeclaration → Option Declaration
parse_declaration limits raw = elim (normalize_limits limits) [
  | none ↦ none
  | some limits ↦ elim raw.collections [
    | none ↦ none
    | some collections ↦
        if not (raw.version == protocol_version)
        then none
        else if ltb_ℤ limits.max_collections (pos (length collections))
        then none
        else elim (parse_collections limits [] collections) [
          | none ↦ none
          | some parsed ↦ some (record { version = raw.version; collections = some parsed })
        ]
  ]
]

unfoldable pub covers : List Text → Assoc Text Text → Bool
covers [] access = true
covers (operation ∷ rest) access =
    let later = covers rest access in
    elim (lookup operation access) [ none ↦ false | some value ↦ valid_access value && later ]

unfoldable pub valid_policy : Limits → Text → CollectionPolicy → Bool
valid_policy limits name policy =
    valid_collection_name name
    && in_range (pos 1) limits.max_documents policy.max_documents
    && in_range (pos 2) limits.max_document_bytes policy.max_document_bytes
    && length policy.access == length all_operations
    && covers all_operations policy.access

unfoldable pub valid_policies : Limits → Assoc Text CollectionPolicy → Bool
valid_policies limits [] = true
valid_policies limits ((name, policy) ∷ rest) =
    let later = valid_policies limits rest in valid_policy limits name policy && later

-- `validateDeclaration`
unfoldable pub validate_declaration : Declaration → Limits → Bool
validate_declaration value limits = value.version == protocol_version && elim value.collections [
  | none ↦ false
  | some collections ↦
      not (ltb_ℤ limits.max_collections (pos (length collections)))
      && valid_policies limits collections
]
