-- ===== src/Links/Types.antt =====
-- internal/shortlink/service.go: links, their inputs and errors. The zero time is `none`.
use wispdeck.Prelude.{ℕ, ◌||◌, ◌==◌, Bool, Text, text, text_comparable, List, Option}

abbrev pub min_slug_length : ℕ
min_slug_length = 1

abbrev pub max_slug_length : ℕ
max_slug_length = 48

abbrev pub max_target_length : ℕ
max_target_length = 4096

abbrev pub max_title_length : ℕ
max_title_length = 120

abbrev pub max_description_length : ℕ
max_description_length = 1000

abbrev pub max_label_length : ℕ
max_label_length = 120

abbrev pub max_destinations : ℕ
max_destinations = 25

abbrev pub default_max_links_per_user : ℕ
default_max_links_per_user = 1000

abbrev pub automatic_length : ℕ
automatic_length = 10

abbrev pub max_pending_buckets : ℕ
max_pending_buckets = 10000

abbrev pub max_int64 : ℕ
max_int64 = 9223372036854775807

-- `link_failed` is every other error.
pub data LinkError : Type 0 where
  forbidden not_found slug_unavailable reclaim_confirmation invalid_slug reserved_slug : LinkError
  invalid_target target_too_long invalid_mode invalid_destinations duplicate_target : LinkError
  invalid_title invalid_description invalid_label invalid_expiry link_limit link_failed : LinkError

abbrev pub mode_redirect : Text
mode_redirect = text "redirect"

abbrev pub mode_index : Text
mode_index = text "index"

abbrev pub mode_open_all : Text
mode_open_all = text "open_all"

unfoldable pub valid_mode : Text → Bool
valid_mode mode = mode == mode_redirect || mode == mode_index || mode == mode_open_all

-- `Limits`, where `NewService` refuses a number below 1.
pub record LinkLimits : Type 0 where
  pub max_links_per_user : ℕ

pub record LinkActor : Type 0 where
  pub user_id : Text
  pub superuser : Bool

pub record Destination : Type 0 where
  pub id : Text
  pub label : Text
  pub url : Text
  pub position : ℕ

pub record Link : Type 0 where
  pub id : Text
  pub owner_user_id : Text
  pub slug : Text
  pub title : Text
  pub description : Text
  pub mode : Text
  pub destinations : List Destination
  pub enabled : Bool
  pub created_at : Option ℕ
  pub updated_at : Option ℕ
  pub expires_at : Option ℕ

pub record Input : Type 0 where
  pub slug : Text
  pub title : Text
  pub description : Text
  pub mode : Text
  pub destinations : List Destination
  pub expires_at : Option ℕ
  pub confirmed_reclaim : Text

pub record VisitBucket : Type 0 where
  pub link_id : Text
  pub day : Option ℕ
  pub visits : ℕ
  pub last_visited_at : Option ℕ

abbrev pub audit_updated : Text
audit_updated = text "updated"

abbrev pub audit_enabled : Text
audit_enabled = text "enabled"

abbrev pub audit_disabled : Text
audit_disabled = text "disabled"

abbrev pub audit_retired : Text
audit_retired = text "retired"
