-- ===== src/Prelude/Int.antt =====
-- Signed integers over the native numbers. Orders go through the two parts of an integer.
use Prim.Native.Nat.{ℕ, suc, ◌+◌, ◌-◌, ◌≤◌}
use mathlib.Core.Path.{◌≡◌}
use mathlib.Core.Bool.{Bool, true, false}
use mathlib.Core.Logic.{◌↔◌, ◌≢◌}
use native.Mathlib.Omega.{arith}
use wispdeck.Prelude.Tests.{Comparable, ℕ_comparable, ltb, leb, ◌==◌, if◌then◌else◌}

-- `negsuc n` is -(n + 1).
pub data ℤ : Type 0 where
  pos : ℕ → ℤ
  negsuc : ℕ → ℤ

abbrev pub pos_part : ℤ → ℕ
pos_part (pos n) = n
pos_part (negsuc n) = 0

abbrev pub neg_part : ℤ → ℕ
neg_part (pos n) = 0
neg_part (negsuc n) = suc n

abbrev pub sub_ℕ : ℕ → ℕ → ℤ
sub_ℕ a b = if leb b a then pos (a - b) else negsuc (b - a - 1)

infixl 65 ◌+ℤ◌ ◌-ℤ◌
infix 50 ◌≤ℤ◌
abbrev pub ◌+ℤ◌ : ℤ → ℤ → ℤ
a +ℤ b = sub_ℕ (pos_part a + pos_part b) (neg_part a + neg_part b)

abbrev pub ◌-ℤ◌ : ℤ → ℤ → ℤ
a -ℤ b = sub_ℕ (pos_part a + neg_part b) (neg_part a + pos_part b)

abbrev pub ◌≤ℤ◌ : ℤ → ℤ → Type 0
a ≤ℤ b = pos_part a + neg_part b ≤ pos_part b + neg_part a

-- `a < b` on Go ints.
unfoldable pub ltb_ℤ : ℤ → ℤ → Bool
ltb_ℤ a b = ltb (pos_part a + neg_part b) (pos_part b + neg_part a)

unfoldable pub int_beq : ℤ → ℤ → Bool
int_beq (pos a) (pos b) = a == b
int_beq (negsuc a) (negsuc b) = a == b
int_beq _ _ = false

pub int_beq_iff : (a b : ℤ) → (int_beq a b ≡ true) ↔ (a ≡ b)
unfolding int_beq
int_beq_iff (pos a) (pos b) = ground arith
int_beq_iff (negsuc a) (negsuc b) = ground arith
int_beq_iff (pos a) (negsuc b) = ground arith
int_beq_iff (negsuc a) (pos b) = ground arith

instance abbrev pub int_comparable : Comparable ℤ
int_comparable = record { equals = int_beq; equals_iff = int_beq_iff }

-- A field of a configuration that is left at zero takes the default.
unfoldable pub or_default : ℤ → ℤ → ℤ
or_default value default = if value == pos 0 then default else value

pub or_default-ne : (value default : ℤ) → value ≢ pos 0 → or_default value default ≡ value
unfolding or_default
or_default-ne value default h = ground (arith, int_beq_iff value (pos 0))

pub ltb_ℤ-false : (a b : ℤ) → ltb_ℤ a b ≡ false → b ≤ℤ a
unfolding ltb_ℤ
ltb_ℤ-false a b h = ground arith

pub ltb_ℤ-true : (a b : ℤ) → ltb_ℤ a b ≡ true → a +ℤ pos 1 ≤ℤ b
unfolding ltb_ℤ
ltb_ℤ-true a b h = ground arith

pub ne-zero_of_pos : (a : ℤ) → pos 1 ≤ℤ a → a ≢ pos 0
ne-zero_of_pos a h e = ground arith

pub ≤ℤ_trans : (a b c : ℤ) → a ≤ℤ b → b ≤ℤ c → a ≤ℤ c
≤ℤ_trans a b c h k = omega arith
