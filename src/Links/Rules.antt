-- ===== src/Links/Rules.antt =====
-- internal/shortlink/service.go: the checks of names, targets and texts. `strings`, `unicode/utf8` and
-- `url.Parse` are a record of functions.
use wispdeck.Prelude.{
  ℕ, zero, suc, ◌%◌, Bool, true, false, not, ◌&&◌, ◌||◌, ◌==◌, if◌then◌else◌, Text, text, List, [],
  ◌∷◌, Option, none, some, length, leb, ltb, every, exists, within, map, text_comparable,
  ℕ_comparable,
}
use wispdeck.Prelude.Transactions.{Result, ok, error}
use wispdeck.Links.Types.{
  min_slug_length, max_slug_length, max_target_length, max_title_length, max_description_length,
  max_label_length, max_destinations, LinkError, mode_redirect, valid_mode, Destination, Link,
  Input, invalid_slug, reserved_slug, invalid_target, target_too_long, invalid_mode,
  invalid_destinations, duplicate_target, invalid_title, invalid_description, invalid_label,
  invalid_expiry,
}

-- What `ValidateTarget` reads of a `*url.URL`.
pub record ParsedUrl : Type 0 where
  pub opaque_part : Text
  pub has_user : Bool
  pub host : Text
  pub hostname : Text
  pub scheme : Text

pub record Texts : Type 0 where
  pub trim_space : Text → Text
  pub to_lower : Text → Text
  pub equal_fold : Text → Text → Bool
  pub valid_string : Text → Bool
  -- The code points of a text, U+FFFD for a byte of no code point.
  pub runes : Text → List ℕ
  pub parse_url : Text → Option ParsedUrl

-- `err != nil` ends a function with the error.
infixl 5 ◌>>=◌ ◌>>◌
abbrev pub ◌>>=◌ :
    {A B : Type 0} → Result LinkError A → (A → Result LinkError B) → Result LinkError B
m >>= f = elim m [ ok a ↦ f a | error e ↦ error e ]

abbrev pub ◌>>◌ :
    {B : Type 0} → Result LinkError (Unit {0}) → Result LinkError B → Result LinkError B
m >> k = m >>= λ _. k

abbrev pub refuse : Bool → LinkError → Result LinkError (Unit {0})
refuse true e = error e
refuse false e = ok tt

abbrev pub reserved_slugs : List Text
reserved_slugs =
    text "account"
    ∷ text "admin"
    ∷ text "api"
    ∷ text "assets"
    ∷ text "data"
    ∷ text "healthz"
    ∷ text "links"
    ∷ text "login"
    ∷ text "logout"
    ∷ text "onboarding"
    ∷ text "security"
    ∷ text "settings"
    ∷ text "setup"
    ∷ text "sites"
    ∷ []

-- `[a-z0-9-]`
abbrev pub is_slug_char : ℕ → Bool
is_slug_char c = within 97 122 c || within 48 57 c || c == 45

-- The loop of `NormalizeSlug`, of which the Boolean tells whether a byte is the first one.
unfoldable pub valid_slug_chars : Bool → Text → Bool
valid_slug_chars first [] = true
valid_slug_chars first (c ∷ rest) =
    is_slug_char c && not ((first || length rest == 0) && c == 45) && valid_slug_chars false rest

unfoldable pub is_reserved : Text → Bool
is_reserved value = exists (λ reserved. reserved == value) reserved_slugs

unfoldable pub check_slug : Text → Result LinkError Text
check_slug value = do
  refuse (ltb (length value) min_slug_length || ltb max_slug_length (length value)) invalid_slug
  refuse (not (valid_slug_chars true value)) invalid_slug
  refuse (is_reserved value) reserved_slug
  ok value

unfoldable pub normalize_slug : Texts → Text → Result LinkError Text
normalize_slug texts value = check_slug (texts.to_lower (texts.trim_space value))

abbrev is_http : Texts → ParsedUrl → Bool
is_http texts parsed =
    texts.equal_fold parsed.scheme (text "http") || texts.equal_fold parsed.scheme (text "https")

unfoldable pub check_target : Texts → Text → Result LinkError Text
unfolding exists
check_target texts value = do
  refuse (value == [] || not (texts.valid_string value)) invalid_target
  refuse (ltb max_target_length (length value)) target_too_long
  refuse (exists (λ char. leb char 32 || char == 127) (texts.runes value)) invalid_target
  elim (texts.parse_url value) [
    | none ↦ error invalid_target
    | some parsed ↦ do
      refuse
          (not (parsed.opaque_part == [])
            || parsed.has_user
            || parsed.host == []
            || parsed.hostname == [])
          invalid_target
      refuse (not (is_http texts parsed)) invalid_target
      ok value
  ]

unfoldable pub validate_target : Texts → Text → Result LinkError Text
validate_target texts value = check_target texts (texts.trim_space value)

unfoldable pub check_line : Texts → Text → ℕ → LinkError → Result LinkError Text
unfolding exists
check_line texts value most invalid = do
  refuse (not (texts.valid_string value) || ltb most (length (texts.runes value))) invalid
  refuse (exists (λ char. ltb char 32 || char == 127) (texts.runes value)) invalid
  ok value

-- `normalizeSingleLine`
unfoldable pub normalize_single_line : Texts → Text → ℕ → LinkError → Result LinkError Text
normalize_single_line texts value most invalid =
    check_line texts (texts.trim_space value) most invalid

-- `strings.ReplaceAll(value, "\r\n", "\n")`
unfoldable pub replace_crlf : Text → Text
replace_crlf [] = []
replace_crlf (c ∷ []) = c ∷ []
replace_crlf (c ∷ (d ∷ rest)) =
    let shorter = replace_crlf rest in
    let longer = replace_crlf (d ∷ rest) in if c == 13 && d == 10 then 10 ∷ shorter else c ∷ longer

abbrev replace_cr : ℕ → ℕ
replace_cr c = if c == 13 then 10 else c

unfoldable pub check_description : Texts → Text → Result LinkError Text
unfolding exists
check_description texts value = do
  refuse (not (texts.valid_string value) || ltb max_description_length (length (texts.runes value)))
      invalid_description
  refuse
      (exists (λ char. ltb char 32 && not (char == 10) && not (char == 9) || char == 127)
        (texts.runes value))
      invalid_description
  ok value

unfoldable pub normalize_description : Texts → Text → Result LinkError Text
normalize_description texts value =
    check_description texts (texts.trim_space (map replace_cr (replace_crlf value)))

-- The loop of `validateDestinations`, with the targets seen and the index.
unfoldable pub validate_each :
    Texts → List Text → ℕ → List Destination → Result LinkError (List Destination)
unfolding exists
validate_each texts seen i [] = ok []
validate_each texts seen i (destination ∷ rest) = do
  target ← validate_target texts destination.url
  refuse (exists (λ t. t == target) seen) duplicate_target
  label ← normalize_single_line texts destination.label max_label_length invalid_label
  others ← validate_each texts (target ∷ seen) (suc i) rest
  ok (record { id = []; label = label; url = target; position = i } ∷ others)

unfoldable pub validate_destinations :
    Texts → Text → List Destination → Result LinkError (List Destination)
validate_destinations texts mode values = do
  refuse
      (ltb (length values) 1
        || ltb max_destinations (length values)
        || mode == mode_redirect && not (length values == 1))
      invalid_destinations
  validate_each texts [] 0 values

-- `!expiresAt.IsZero() && !expiresAt.After(now)`
abbrev is_past : ℕ → Option ℕ → Bool
is_past now none = false
is_past now (some expires_at) = leb expires_at now

unfoldable pub validate_input : Texts → Input → Bool → ℕ → Result LinkError Input
validate_input texts input creating now = do
  refuse (not (valid_mode input.mode)) invalid_mode
  title ← normalize_single_line texts input.title max_title_length invalid_title
  description ← normalize_description texts input.description
  destinations ← validate_destinations texts input.mode input.destinations
  refuse (is_past now input.expires_at) invalid_expiry
  ok (record {
    slug = if creating then input.slug else [];
    title = title;
    description = description;
    mode = input.mode;
    destinations = destinations;
    expires_at = input.expires_at;
    confirmed_reclaim = input.confirmed_reclaim;
  })

unfoldable pub confirmed_reclaim_of : Texts → Text → Text → Bool
confirmed_reclaim_of texts confirmed name = elim (normalize_slug texts confirmed) [
  | ok slug ↦ slug == name
  | error e ↦ false
]

unfoldable pub link_from_input : Input → Link
link_from_input input = record {
  id = [];
  owner_user_id = [];
  slug = input.slug;
  title = input.title;
  description = input.description;
  mode = input.mode;
  destinations = input.destinations;
  enabled = false;
  created_at = none;
  updated_at = none;
  expires_at = input.expires_at;
}

unfoldable pub validate_stored_link : Texts → Link → Result LinkError Link
validate_stored_link texts link = do
  refuse (not (valid_mode link.mode)) invalid_mode
  destinations ← validate_destinations texts link.mode link.destinations
  ok (record link { destinations = destinations })

-- `validID`
unfoldable pub valid_id : Text → Bool
unfolding every
valid_id value = length value == 32 && every (λ char. within 48 57 char || within 97 102 char) value

abbrev slug_alphabet : Text
slug_alphabet = text "abcdefghjklmnpqrstuvwxyz23456789"

abbrev letter_at : Text → ℕ → ℕ
letter_at [] n = 0
letter_at (c ∷ rest) zero = c
letter_at (c ∷ rest) (suc n) = letter_at rest n

-- `randomSlug`, of the bytes that `rand.Read` fills: `& 31` is the rest by 32.
unfoldable pub random_slug : Text → Text
random_slug random = map (λ value. letter_at slug_alphabet (value % 32)) random
