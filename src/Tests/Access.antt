-- ===== src/Tests/Access.antt =====
-- wispist/declaration.go, wispist/types.go and wispist/limit.go at concrete inputs.
use wispdeck.Prelude.{
  ◌*◌, List, Assoc, subst, ◌≡◌, refl, arith, true, false, not, ◌&&◌, ◌||◌, ◌==◌, Text, text,
  text_eq, text_comparable, [], ◌∷◌, length, some, none, lookup, insert, every,
}
use wispdeck.Prelude.Int.{ℤ, pos, pos_part, ltb_ℤ, int_beq, ◌+ℤ◌, ◌-ℤ◌, ◌≤ℤ◌, or_default}
use wispdeck.Wispist.Limits.{
  default_limits, default_rate_limits, normalize_limits, is_zero_limits, fill_limits,
  has_invalid_limit,
}
use wispdeck.Wispist.Declaration.{
  CollectionPolicy, Declaration, RawDeclaration, RawCollection, access_profile, parse_declaration,
  parse_collections, parse_collection, parse_collection_access, grant_all, valid_collection_name,
  one_of, policies_of, all_operations, validate_declaration, valid_policies, valid_policy, covers,
  operation_create, access_anyone, access_authenticated,
}
use wispdeck.Wispist.Declaration.Access.{IsDecoded}
use wispdeck.Wispist.Declaration.Parsing.{
  AreDecoded, IsFile, parse_declaration-validate_declaration,
}
use wispdeck.Wispist.Authorization.{Binding, AuthorizationRequest, mutation, authorize}
use wispdeck.Wispist.Authorization.Decision.{authenticated, authorize-validate_declaration}
use wispdeck.Wispist.Limiter.{Floats, RequestLimiter, new_request_limiter, allow}
use wispdeck.Wispist.Limiter.Streams.{
  IsCounted, StreamCall, call_acquire, call_release, stream_run, stream_run-new_request_limiter,
}
use wispdeck.Wispist.Limiter.Buckets.{allow-within_buckets}

abbrev notes : CollectionPolicy
unfolding grant_all insert text_eq
notes = record {
  access = grant_all all_operations;
  max_documents = pos 10;
  max_document_bytes = pos 100;
}

abbrev shared : Declaration
shared = record { version = pos 1; collections = some ((text "notes", notes) ∷ []) }

abbrev raw_collections : Assoc Text RawCollection
raw_collections =
    (
      text "notes",
      record {
        access = access_profile (text "shared");
        max_documents = some (pos 10);
        max_document_bytes = some (pos 100);
      },
    )
    ∷ []

shared_decoded : AreDecoded raw_collections
unfolding AreDecoded IsDecoded
shared_decoded = (tt, tt)

abbrev raw_shared : RawDeclaration
raw_shared = record { version = pos 1; collections = some raw_collections }

parse_shared : parse_declaration default_limits raw_shared ≡ some shared
unfolding parse_declaration parse_collections parse_collection parse_collection_access grant_all
    insert text_eq valid_collection_name every ltb_ℤ int_beq normalize_limits is_zero_limits
    fill_limits has_invalid_limit or_default
parse_shared = refl

shared-IsFile : IsFile raw_shared
unfolding IsFile
shared-IsFile collections there =
    let same : raw_collections ≡ collections = ground arith in subst AreDecoded same shared_decoded

default_limits_normal : normalize_limits default_limits ≡ some default_limits
unfolding normalize_limits is_zero_limits fill_limits has_invalid_limit or_default ltb_ℤ int_beq
default_limits_normal = refl

parse_declaration-validate_declaration_example : validate_declaration shared default_limits ≡ true
parse_declaration-validate_declaration_example =
    parse_declaration-validate_declaration default_limits default_limits raw_shared shared-IsFile
      parse_shared default_limits_normal

abbrev binding : Binding
binding = record {
  store_key = text "s";
  namespace = text "n";
  origin = [];
  client_key = text "c";
  principal = record { kind = text "anonymous"; subject = []; claims = [] };
  declaration = shared;
  mode = text "live";
  read_only = false;
  max_namespace_bytes = pos 1000;
}

abbrev request : AuthorizationRequest
request = record {
  binding = binding;
  operation = operation_create;
  collection = text "notes";
  document_id = text "d";
  current = none;
  proposed = [];
}

shared_valid : validate_declaration shared default_limits ≡ true
unfolding validate_declaration valid_policies valid_policy valid_collection_name covers lookup
    text_eq every ltb_ℤ int_beq grant_all insert
shared_valid = refl

shared_notes : lookup (text "notes") (policies_of shared) ≡ some notes
unfolding lookup text_eq
shared_notes = refl

create_listed : one_of operation_create all_operations ≡ true
unfolding one_of text_eq
create_listed = refl

authorize-validate_declaration_example :
    (access : Text) × (lookup operation_create notes.access ≡ some access)
    × ((authorize request).allowed ≡ (
        not (false && mutation operation_create)
        && (access == access_anyone
            || (access == access_authenticated && authenticated binding.principal))))
authorize-validate_declaration_example =
    authorize-validate_declaration default_limits request shared_valid shared_notes create_listed

-- Whole numbers in the place of float64.
abbrev whole : Floats
whole = record {
  Float = ℤ;
  of_int = λ n. n;
  plus = λ a b. a +ℤ b;
  minus = λ a b. a -ℤ b;
  times = λ a b. pos (pos_part a * pos_part b);
  over = λ a b. a;
  less = λ a b. ltb_ℤ a b;
  min = λ a b. a;
  seconds = λ n. pos n;
  ceil = λ n. n;
}

abbrev idle_limiter : RequestLimiter whole
unfolding new_request_limiter
idle_limiter = new_request_limiter whole default_rate_limits

allow-within_buckets_example :
    let l = (allow whole binding true false 5 idle_limiter).0 in
    (pos (length l.buckets) ≤ℤ pos 10000) × (l.limits ≡ default_rate_limits)
unfolding new_request_limiter
allow-within_buckets_example =
    allow-within_buckets whole binding true false 5 idle_limiter (omega arith)

abbrev stream_calls : List (StreamCall whole)
stream_calls = call_acquire binding ∷ call_acquire binding ∷ call_release 1 ∷ []

stream_run-new_request_limiter_example :
    let (l, held) =
      stream_run whole stream_calls (new_request_limiter whole default_rate_limits, []) in
    IsCounted whole l held
stream_run-new_request_limiter_example =
    stream_run-new_request_limiter whole default_rate_limits stream_calls (omega arith)
      (omega arith)
