-- ===== src/Wispist/Json.antt =====
-- wispist/json.go: the walk over the tokens of a document that refuses deep nesting, long keys and
-- repeated keys. The tokenizer and the compacter of encoding/json and `utf8.Valid` are a record of functions.
use wispdeck.Prelude.{
  ℕ, zero, suc, ◌+◌, ◌*◌, ◌≤◌, ◌≡◌, Bool, true, false, not, ◌&&◌, ◌||◌, ◌==◌, if◌then◌else◌, Text,
  text_comparable, List, [], ◌∷◌, Option, none, some, exists, length, ltb, leb,
}
pub mod Trees
pub mod Walk
pub mod Documents

-- `json.Token`: a delimiter, a string, or a number, a Boolean or null.
pub data JsonToken : Type 0 where
  open_object close_object open_array close_array : JsonToken
  string_token : Text → JsonToken
  scalar_token : JsonToken

-- `tokens` are those that `Token` returns until it fails, and `ends` tells whether it fails with
-- `io.EOF`. Where no token is left, `More` is false and `Token` fails.
pub record JsonCodec : Type 0 where
  pub valid : Text → Bool
  pub tokens : Text → List JsonToken
  pub ends : Text → Bool
  pub compact : Text → Option Text

pub record JsonLimits : Type 0 where
  pub max_bytes : ℕ
  pub max_depth : ℕ
  pub max_key_bytes : ℕ

-- `consumeJSONValue`, and the loops of `consumeJSONObject` and `consumeJSONArray` after their depth test, each with
-- fuel for its calls: the tokens that are left, or an error.
unfoldable mutual
  pub consume_value : JsonLimits → ℕ → ℕ → List JsonToken → Option (List JsonToken)
  consume_value limits zero depth tokens = none
  consume_value limits (suc fuel) depth (open_object ∷ rest) =
      if ltb limits.max_depth depth then none else consume_members limits fuel depth [] rest
  consume_value limits (suc fuel) depth (open_array ∷ rest) =
      if ltb limits.max_depth depth then none else consume_elements limits fuel depth rest
  consume_value limits (suc fuel) depth (string_token value ∷ rest) = some rest
  consume_value limits (suc fuel) depth (scalar_token ∷ rest) = some rest
  consume_value limits (suc fuel) depth _ = none

  pub consume_members : JsonLimits → ℕ → ℕ → List Text → List JsonToken → Option (List JsonToken)
  consume_members limits zero depth seen tokens = none
  consume_members limits (suc fuel) depth seen (close_object ∷ rest) = some rest
  consume_members limits (suc fuel) depth seen (string_token key ∷ rest) =
      if ltb limits.max_key_bytes (length key) || exists (λ k. k == key) seen
      then none
      else elim (consume_value limits fuel (suc depth) rest) [
        | none ↦ none
        | some others ↦ consume_members limits fuel depth (key ∷ seen) others
      ]
  consume_members limits (suc fuel) depth seen _ = none

  pub consume_elements : JsonLimits → ℕ → ℕ → List JsonToken → Option (List JsonToken)
  consume_elements limits zero depth tokens = none
  consume_elements limits (suc fuel) depth [] = none
  consume_elements limits (suc fuel) depth (close_array ∷ rest) = some rest
  consume_elements limits (suc fuel) depth (close_object ∷ rest) = none
  consume_elements limits (suc fuel) depth (token ∷ rest) =
      elim (consume_value limits fuel (suc depth) (token ∷ rest)) [
        | none ↦ none
        | some others ↦ consume_elements limits fuel depth others
      ]

-- The tokens of `normalizeJSONObject`, from the first one on; no call is deeper than two
-- for each token.
unfoldable pub consume_document : JsonLimits → List JsonToken → Option (List JsonToken)
consume_document limits (open_object ∷ rest) =
    consume_value limits (2 * length (open_object ∷ rest)) 1 (open_object ∷ rest)
consume_document limits _ = none

abbrev is_empty : List JsonToken → Bool
is_empty [] = true
is_empty _ = false

abbrev bounded : ℕ → Option Text → Option Text
bounded most none = none
bounded most (some compact) = if ltb most (length compact) then none else some compact

-- `normalizeJSONObject`
unfoldable pub normalize_json_object : JsonCodec → JsonLimits → Text → Option Text
normalize_json_object codec limits raw =
    if raw == [] || ltb limits.max_bytes (length raw) || not (codec.valid raw)
    then none
    else elim (consume_document limits (codec.tokens raw)) [
      | none ↦ none
      | some rest ↦
          if is_empty rest && codec.ends raw
          then bounded limits.max_bytes (codec.compact raw)
          else none
    ]
