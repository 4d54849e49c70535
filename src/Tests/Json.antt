-- ===== src/Tests/Json.antt =====
-- wispist/json.go at concrete inputs.
use wispdeck.Prelude.{
  ◌≤◌, ◌≡◌, ◌↔◌, refl, true, false, not, ◌||◌, ◌==◌, Text, text, text_eq, text_comparable, List, [],
  ◌∷◌, Option, none, some, length, ltb, exists,
}
use wispdeck.Wispist.Json.{
  JsonToken, JsonCodec, JsonLimits, consume_value, consume_document, normalize_json_object,
  open_object, close_object, open_array, close_array, string_token, scalar_token,
}
use wispdeck.Wispist.Json.Trees.{Members, print, fits, object}
use wispdeck.Wispist.Json.Documents.{normalize_json_object-fits}

abbrev few_limits : JsonLimits
few_limits = record { max_bytes = 100; max_depth = 2; max_key_bytes = 4 }

-- Of `{"a": [1], "b": {}}`
abbrev two_members : List JsonToken
two_members =
    open_object
    ∷ string_token (text "a")
    ∷ open_array
    ∷ scalar_token
    ∷ close_array
    ∷ string_token (text "b")
    ∷ open_object
    ∷ close_object
    ∷ close_object
    ∷ []

abbrev fixed_codec : List JsonToken → JsonCodec
fixed_codec tokens = record {
  valid = λ t. true;
  tokens = λ t. tokens;
  ends = λ t. true;
  compact = λ t. some t;
}

-- It passes, and a third level or a repeated key does not.
two_members_pass : consume_document few_limits two_members ≡ some []
unfolding consume_document consume_value exists text_eq
two_members_pass = refl

third_level_fails :
    consume_document few_limits (
      open_object
      ∷ string_token (text "a")
      ∷ open_array
      ∷ open_array
      ∷ close_array
      ∷ close_array
      ∷ close_object
      ∷ [])
    ≡ none
unfolding consume_document consume_value exists text_eq
third_level_fails = refl

repeated_key_fails :
    consume_document few_limits (
      open_object
      ∷ string_token (text "a")
      ∷ scalar_token
      ∷ string_token (text "a")
      ∷ scalar_token
      ∷ close_object
      ∷ [])
    ≡ none
unfolding consume_document consume_value exists text_eq
repeated_key_fails = refl

normalize_json_object-fits_example :
    (normalize_json_object (fixed_codec two_members) few_limits (text "{}") ≡ some (text "{}")) ↔ (
      (((text "{}" == []) || ltb few_limits.max_bytes (length (text "{}")) || not true) ≡ false)
      × ((ms : Members) × (two_members ≡ print (object ms) [])
          × (fits few_limits 1 (object ms) ≡ true))
      × (true ≡ true)
      × (◌≡◌ {A = Option Text} (some (text "{}")) (some (text "{}")))
      × (length (text "{}") ≤ few_limits.max_bytes))
normalize_json_object-fits_example =
    normalize_json_object-fits (fixed_codec two_members) few_limits (text "{}") (text "{}")
