-- ===== src/Updater/Policy.antt =====
-- internal/updatepolicy/types.go, and the release types of internal/updater/manifest.go.
use wispdeck.Prelude.{ℕ, Bool, ◌||◌, ◌==◌, Text, text, List, text_comparable}

-- A mode is a string; these three are valid.
abbrev pub mode_notify : Text
mode_notify = text "notify"

abbrev pub mode_automatic : Text
mode_automatic = text "automatic"

abbrev pub mode_disabled : Text
mode_disabled = text "disabled"

unfoldable pub valid_mode : Text → Bool
valid_mode mode = mode == mode_notify || mode == mode_automatic || mode == mode_disabled

pub record Settings : Type 0 where
  pub mode : Text
  pub skipped_version : Text
  pub updated_at : ℕ

pub record Actor : Type 0 where
  pub user_id : Text
  pub username : Text
  pub client_ip : Text

pub record Event : Type 0 where
  pub occurred_at : ℕ
  pub actor : Actor
  pub kind : Text
  pub version : Text
  pub details : Text

pub record Asset : Type 0 where
  pub os : Text
  pub arch : Text
  pub url : Text
  pub sha256 : Text
  pub size : ℕ

pub record Release : Type 0 where
  pub version : Text
  pub published_at : ℕ
  pub notes : Text
  pub assets : List Asset
