-- ===== src/Wispist/Json/Trees.antt =====
-- wispist/json.go: the documents that the walk over their tokens is to accept.
use wispdeck.Prelude.{
  ℕ, suc, Bool, true, not, ◌&&◌, ◌==◌, Text, text_comparable, List, [], ◌∷◌, exists, length, leb,
}
use wispdeck.Wispist.Json.{
  JsonToken, JsonLimits, open_object, close_object, open_array, close_array, string_token,
  scalar_token,
}

mutual
  pub data Json : Type 0 where
    scalar : Json
    string : Text → Json
    object : Members → Json
    array : Elements → Json

  pub data Members : Type 0 where
    no_member : Members
    member : Text → Json → Members → Members

  pub data Elements : Type 0 where
    no_element : Elements
    element : Json → Elements → Elements

-- The tokens of a value, before others.
unfoldable mutual
  pub print : Json → List JsonToken → List JsonToken
  print scalar rest = scalar_token ∷ rest
  print (string value) rest = string_token value ∷ rest
  print (object members) rest = open_object ∷ print_members members rest
  print (array elements) rest = open_array ∷ print_elements elements rest

  pub print_members : Members → List JsonToken → List JsonToken
  print_members no_member rest = close_object ∷ rest
  print_members (member key value members) rest =
      string_token key ∷ print value (print_members members rest)

  pub print_elements : Elements → List JsonToken → List JsonToken
  print_elements no_element rest = close_array ∷ rest
  print_elements (element value elements) rest = print value (print_elements elements rest)

-- Objects and arrays no deeper than the limit, keys no longer than theirs, and in no object a key twice: `seen` are
-- the keys of the members before.
unfoldable mutual
  pub fits : JsonLimits → ℕ → Json → Bool
  fits limits depth scalar = true
  fits limits depth (string value) = true
  fits limits depth (object members) =
      leb depth limits.max_depth && fits_members limits depth [] members
  fits limits depth (array elements) =
      leb depth limits.max_depth && fits_elements limits depth elements

  pub fits_members : JsonLimits → ℕ → List Text → Members → Bool
  fits_members limits depth seen no_member = true
  fits_members limits depth seen (member key value members) =
      leb (length key) limits.max_key_bytes
      && not (exists (λ k. k == key) seen)
      && fits limits (suc depth) value
      && fits_members limits depth (key ∷ seen) members

  pub fits_elements : JsonLimits → ℕ → Elements → Bool
  fits_elements limits depth no_element = true
  fits_elements limits depth (element value elements) =
      fits limits (suc depth) value && fits_elements limits depth elements
