-- ===== src/Accounts/Names.antt =====
-- internal/auth/username.go, internal/auth/onboarding.go and internal/auth/token.go.
-- `strings.TrimSpace`, `strings.ToLower` and `strings.ToUpper`, which read the Unicode tables, and
-- Base64 and SHA-256 are a record of functions.
use wispdeck.Prelude.{
  ℕ, zero, suc, ◌%◌, Bool, false, ◌&&◌, ◌||◌, ◌==◌, Text, text, [], ◌∷◌, Option, none, some, length,
  leb, every, exists, within, map, text_comparable, ℕ_comparable,
}

pub record Strings : Type 0 where
  pub trim_space : Text → Text
  pub to_lower : Text → Text
  pub to_upper : Text → Text
  -- `base64.RawURLEncoding`, and `sha256.Sum256`
  pub encode_base64 : Text → Text
  pub decode_base64 : Text → Option Text
  pub sha256 : Text → Text

-- `[a-z0-9]`
abbrev is_start : ℕ → Bool
is_start c = within 97 122 c || within 48 57 c

-- `[a-z0-9_.-]`
abbrev is_rest : ℕ → Bool
is_rest c = is_start c || c == 95 || c == 46 || c == 45

-- `ValidateUsername`, the match of `^[a-z0-9][a-z0-9_.-]{0,63}$`.
unfoldable pub valid_username : Text → Bool
unfolding every
valid_username [] = false
valid_username (c ∷ rest) = is_start c && leb (length rest) 63 && every is_rest rest

unfoldable pub normalize_username : Strings → Text → Text
normalize_username strings username = strings.to_lower (strings.trim_space username)

abbrev pub initial_setup_code_length : ℕ
initial_setup_code_length = 6

abbrev pub initial_setup_alphabet : Text
initial_setup_alphabet = text "23456789ABCDEFGHJKLMNPQRSTUVWXYZ"

abbrev char_at : Text → ℕ → ℕ
char_at [] n = 0
char_at (c ∷ rest) zero = c
char_at (c ∷ rest) (suc n) = char_at rest n

-- `NewInitialSetupCode`, of the six bytes that `rand.Read` fills: `& 31` is the rest by 32.
unfoldable pub new_initial_setup_code : Text → Text
new_initial_setup_code random = map (λ value. char_at initial_setup_alphabet (value % 32)) random

unfoldable pub normalize_initial_setup_code : Strings → Text → Text
normalize_initial_setup_code strings value = strings.to_upper (strings.trim_space value)

unfoldable pub valid_code : Text → Bool
unfolding every exists
valid_code value =
    length value == initial_setup_code_length
    && every (λ char. exists (λ c. c == char) initial_setup_alphabet) value

-- `ValidInitialSetupCode`
unfoldable pub valid_initial_setup_code : Strings → Text → Bool
unfolding normalize_initial_setup_code
valid_initial_setup_code strings value = valid_code (normalize_initial_setup_code strings value)

abbrev pub token_bytes : ℕ
token_bytes = 32

-- `NewToken`, of the bytes that `rand.Read` fills.
unfoldable pub new_token : Strings → Text → Text
new_token strings raw = strings.encode_base64 raw

unfoldable pub valid_token : Strings → Text → Bool
valid_token strings token = elim (strings.decode_base64 token) [
  | none ↦ false
  | some raw ↦ length raw == token_bytes
]

unfoldable pub token_digest : Strings → Text → Text
token_digest strings token = strings.sha256 token
