-- ===== src/Links/Slugs.antt =====
-- internal/shortlink/service.go: the names that NormalizeSlug lets through.
use wispdeck.Prelude.{
  ◌≤◌, ◌≡◌, refl, ap, ◌∙◌, arith, Bool, true, false, Text, [], ◌∷◌, length, every, text_comparable,
  ℕ_comparable,
}
use wispdeck.Prelude.Transactions.{ok}
use wispdeck.Links.Rules.{
  Texts, is_reserved, is_slug_char, valid_slug_chars, check_slug, normalize_slug,
}

every-valid_slug_chars :
    (first : Bool) (value : Text)
    → valid_slug_chars first value ≡ true
    → every is_slug_char value ≡ true
unfolding valid_slug_chars every
every-valid_slug_chars first [] valid = refl
every-valid_slug_chars first (c ∷ rest) valid = ground (arith, every-valid_slug_chars false rest)

check_slug-accepts :
    (value : Text) {slug : Text}
    → check_slug value ≡ ok slug
    → (slug ≡ value)
      × (1 ≤ length value)
      × (length value ≤ 48)
      × (valid_slug_chars true value ≡ true)
      × (is_reserved value ≡ false)
unfolding check_slug
check_slug-accepts value {slug} accepted =
    (ground arith, ground arith, ground arith, ground arith, ground arith)

-- Where trimming and lowering leave a text of the letters a to z, digits and hyphens as it is, a name that
-- NormalizeSlug returns has 1 to 48 such characters, is not reserved, and is what NormalizeSlug returns of it.
pub normalize_slug-idempotent :
    (texts : Texts) (value : Text) {slug : Text}
    → ((t : Text) → every is_slug_char t ≡ true → texts.to_lower (texts.trim_space t) ≡ t)
    → normalize_slug texts value ≡ ok slug
    → (1 ≤ length slug)
      × (length slug ≤ 48)
      × (every is_slug_char slug ≡ true)
      × (is_reserved slug ≡ false)
      × (normalize_slug texts slug ≡ ok slug)
unfolding normalize_slug
normalize_slug-idempotent texts value {slug} plain normalized =
    let (same, long, short, valid, free) =
      check_slug-accepts (texts.to_lower (texts.trim_space value)) {slug = slug} normalized in
    let slug_valid : valid_slug_chars true slug ≡ true = ap (valid_slug_chars true) same ∙ valid in
    let chars = every-valid_slug_chars true slug slug_valid in
    let again : check_slug slug ≡ ok slug = ap check_slug same ∙ normalized in
    (
      rw same long,
      rw same short,
      chars,
      ap is_reserved same ∙ free,
      ap check_slug (plain slug chars) ∙ again,
    )
