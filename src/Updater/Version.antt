-- ===== src/Updater/Version.antt =====
-- internal/updater/version.go: release versions. `strconv.ParseUint` reads a decimal number below
-- 2^64, and `%d` prints one without leading zeros.
pub mod Order
use wispdeck.Prelude.{
  ℕ, zero, suc, ◌+◌, ◌-◌, ◌*◌, ◌<◌, ◌≤◌, ◌≡◌, ◌^◌, ◌↔◌, refl, arith, Bool, true, false, not, ◌&&◌,
  ◌||◌, ◌==◌, Text, text, List, [], ◌∷◌, ◌++◌, Option, none, some, length, ltb, leb, within, every,
  exists, if◌then◌else◌, ℕ_comparable,
}
use wispdeck.Prelude.Int.{ℤ, pos, negsuc}

-- The components are uint64.
pub record Version : Type 0 where
  pub major : ℕ
  pub minor : ℕ
  pub patch : ℕ

-- `strings.Split(value, ".")`
unfoldable pub split_dots : Text → Text × List Text
split_dots [] = ([], [])
split_dots (char ∷ rest) =
    let (part, parts) = split_dots rest in
    if char == 46 then ([], part ∷ parts) else (char ∷ part, parts)

unfoldable pub read_digits : ℕ → Text → ℕ
read_digits value [] = value
read_digits value (char ∷ rest) = read_digits (value * 10 + (char - 48)) rest

-- `strconv.ParseUint(part, 10, 64)` of decimal digits
unfoldable pub parse_uint : Text → Option ℕ
parse_uint part = if ltb (read_digits 0 part) (2 ^ 64) then some (read_digits 0 part) else none

unfoldable pub leading_zero : Text → Bool
leading_zero [] = true
leading_zero (char ∷ []) = false
leading_zero (char ∷ more ∷ rest) = char == 48

-- The body of the range over the parts; `leading_zero` is true of the empty part too.
unfoldable pub parse_component : Text → Option ℕ
parse_component part =
    if leading_zero part
    then none
    else if not (every (within 48 57) part)
    then none
    else parse_uint part

-- The range over the three parts, and the value that it fills.
unfoldable pub parse_components : Text → List Text → Option Version
parse_components a (b ∷ c ∷ []) = elim (parse_component a) [
  | none ↦ none
  | some major ↦ elim (parse_component b) [
    | none ↦ none
    | some minor ↦ elim (parse_component c) [
      | none ↦ none
      | some patch ↦ some (record { major = major; minor = minor; patch = patch })
    ]
  ]
]
parse_components a _ = none

-- `ParseVersion`
unfoldable pub parse_version : Text → Option Version
parse_version [] = none
parse_version (char ∷ rest) =
    let (part, parts) = split_dots rest in
    if not (char == 118) || exists (λ c. c == 43 || c == 45) rest
    then none
    else parse_components part parts

-- `Compare`
unfoldable pub compare_version : Version → Version → ℤ
compare_version v other =
    if ltb v.major other.major
    then negsuc 0
    else if ltb other.major v.major
    then pos 1
    else if ltb v.minor other.minor
    then negsuc 0
    else if ltb other.minor v.minor
    then pos 1
    else if ltb v.patch other.patch
    then negsuc 0
    else if ltb other.patch v.patch
    then pos 1
    else pos 0
