-- ===== src/Prelude/Lists.antt =====
-- Lists measured by native numbers, Boolean filters, and predicates by recursion.
use Prim.Native.Nat.{ℕ, zero, suc, ◌+◌, ◌≤◌, min}
use mathlib.Core.Path.{◌≡◌, refl}
use mathlib.Core.Logic.{inl, inr}
use mathlib.Core.Bool.{Bool, true, false, ◌&&◌, ◌||◌}
use mathlib.Core.Option.{Option, none, some}
use mathlib.Core.List.{List, [], ◌∷◌, ◌++◌}
use native.Mathlib.Omega.{arith}
use wispdeck.Prelude.Tests.{if◌then◌else◌, Bool-cases}

module _ {ℓ} {A : Type ℓ} where
  abbrev pub length : List A → ℕ
  length [] = 0
  length (x ∷ xs) = suc (length xs)

  abbrev pub take : ℕ → List A → List A
  take zero xs = []
  take (suc n) [] = []
  take (suc n) (x ∷ xs) = x ∷ take n xs

  abbrev pub drop : ℕ → List A → List A
  drop zero xs = xs
  drop (suc n) [] = []
  drop (suc n) (x ∷ xs) = drop n xs

  -- The items that pass the test, in order.
  unfoldable pub keep : (A → Bool) → List A → List A
  keep p [] = []
  keep p (x ∷ xs) = let rest = keep p xs in if p x then x ∷ rest else rest

  unfoldable pub every : (A → Bool) → List A → Bool
  every p [] = true
  every p (x ∷ xs) = p x && every p xs

  unfoldable pub exists : (A → Bool) → List A → Bool
  exists p [] = false
  exists p (x ∷ xs) = p x || exists p xs

  pub length-append : (xs ys : List A) → length (xs ++ ys) ≡ length xs + length ys
  length-append [] ys = omega arith
  length-append (x ∷ xs) ys = omega (arith, length-append xs ys)

  pub length-take : (n : ℕ) (xs : List A) → length (take n xs) ≡ min n (length xs)
  length-take zero xs = omega arith
  length-take (suc n) [] = omega arith
  length-take (suc n) (x ∷ xs) = omega (arith, length-take n xs)

  pub length-keep : (p : A → Bool) (xs : List A) → length (keep p xs) ≤ length xs
  unfolding keep
  length-keep p [] = omega arith
  length-keep p (x ∷ xs) = ground (arith, length-keep p xs)

  pub keep-append : (p : A → Bool) (xs ys : List A) → keep p (xs ++ ys) ≡ keep p xs ++ keep p ys
  unfolding keep
  keep-append p [] ys = refl
  keep-append p (x ∷ xs) ys = ground (arith, keep-append p xs ys)

-- A predicate on every item.
abbrev pub All {ℓ κ} : {A : Type ℓ} → (A → Type κ) → List A → Type κ
All P [] = Unit
All P (x ∷ xs) = P x × All P xs

module _ {ℓ} {A : Type ℓ} where
  -- The first item that passes the test.
  unfoldable pub find : (A → Bool) → List A → Option A
  find p [] = none
  find p (x ∷ xs) = if p x then some x else find p xs

  -- The items that pass the test are changed in place.
  unfoldable pub update_if : (A → Bool) → (A → A) → List A → List A
  update_if p f [] = []
  update_if p f (x ∷ xs) = (if p x then f x else x) ∷ update_if p f xs

  unfoldable pub total : (A → ℕ) → List A → ℕ
  total f [] = 0
  total f (x ∷ xs) = f x + total f xs

  unfoldable pub insert_sorted : (A → A → Bool) → A → List A → List A
  insert_sorted before x [] = x ∷ []
  insert_sorted before x (y ∷ ys) =
      let rest = insert_sorted before x ys in if before x y then x ∷ y ∷ ys else y ∷ rest

  -- `ORDER BY`
  unfoldable pub order_by : (A → A → Bool) → List A → List A
  order_by before [] = []
  order_by before (x ∷ xs) = insert_sorted before x (order_by before xs)

  abbrev pub or_else : Option A → Option A → Option A
  or_else none o = o
  or_else (some x) o = some x

  pub find-append :
      (p : A → Bool) (xs ys : List A) → find p (xs ++ ys) ≡ or_else (find p xs) (find p ys)
  unfolding find
  find-append p [] ys = refl
  find-append p (x ∷ xs) ys = ground (arith, find-append p xs ys)

  pub find-eq_some : (p : A → Bool) (xs : List A) (x : A) → find p xs ≡ some x → p x ≡ true
  unfolding find
  find-eq_some p [] x h = cc
  find-eq_some p (y ∷ ys) x h = elim (Bool-cases (p y)) [
    | inl here ↦ ground (arith, here)
    | inr there ↦ find-eq_some p ys x (rw there at h)
  ]

  pub find-keep-none : (p q : A → Bool) (xs : List A) → find p xs ≡ none → find p (keep q xs) ≡ none
  unfolding find keep
  find-keep-none p q [] h = refl
  find-keep-none p q (x ∷ xs) h = ground (arith, find-keep-none p q xs)

  pub find-weaken :
      (p q : A → Bool) (xs : List A)
      → ((x : A) → p x ≡ true → q x ≡ true)
      → find q xs ≡ none
      → find p xs ≡ none
  unfolding find
  find-weaken p q [] w h = refl
  find-weaken p q (x ∷ xs) w h = ground (arith, w x, find-weaken p q xs w)

  pub total-append : (f : A → ℕ) (xs ys : List A) → total f (xs ++ ys) ≡ total f xs + total f ys
  unfolding total
  total-append f [] ys = omega arith
  total-append f (x ∷ xs) ys = omega (arith, total-append f xs ys)
