-- ===== src/Tests/Engine.antt =====
-- wispist/engine.go at concrete inputs.
use wispdeck.Prelude.{◌≡◌, ◌↔◌, refl, some, none}
use wispdeck.Prelude.Int.{pos, negsuc, or_default, int_beq, ltb_ℤ}
use wispdeck.Wispist.Limits.{
  Limits, zero_limits, default_limits, is_zero_limits, fill_limits, has_invalid_limit,
  normalize_limits, RateLimits, zero_rate_limits, default_rate_limits, is_zero_rate_limits,
  fill_rate_limits, has_invalid_rate_limit, normalize_rate_limits,
}
use wispdeck.Wispist.Limits.Normal.{IsWithin, normalize_limits-IsWithin}

-- One field set, the others left at zero.
abbrev ten_collections : Limits
ten_collections = record zero_limits { max_collections = pos 10 }

abbrev ten_completed : Limits
ten_completed = record default_limits { max_collections = pos 10 }

ten_normalized : normalize_limits ten_collections ≡ some ten_completed
unfolding normalize_limits is_zero_limits fill_limits has_invalid_limit or_default int_beq ltb_ℤ
ten_normalized = refl

normalize_limits-IsWithin_example :
    (normalize_limits ten_completed ≡ some ten_completed) ↔ IsWithin ten_completed
normalize_limits-IsWithin_example = normalize_limits-IsWithin ten_completed

-- A negative limit is refused.
negative_refused : normalize_limits (record zero_limits { max_documents = negsuc 0 }) ≡ none
unfolding normalize_limits is_zero_limits fill_limits has_invalid_limit or_default int_beq ltb_ℤ
negative_refused = refl

abbrev sixteen_buckets : RateLimits
sixteen_buckets = record zero_rate_limits { max_buckets = pos 16 }

abbrev sixteen_completed : RateLimits
sixteen_completed = record default_rate_limits { max_buckets = pos 16 }

sixteen_normalized : normalize_rate_limits sixteen_buckets ≡ some sixteen_completed
unfolding normalize_rate_limits is_zero_rate_limits fill_rate_limits has_invalid_rate_limit
    or_default int_beq ltb_ℤ
sixteen_normalized = refl
