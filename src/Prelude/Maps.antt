-- ===== src/Prelude/Maps.antt =====
-- A Go map as an association list. A range over a map is a walk of the list; what the code
-- computes by a range does not depend on the order.
use Prim.Native.Nat.{suc, ◌≤◌}
use mathlib.Core.Path.{◌≡◌, refl}
use mathlib.Core.Bool.{Bool}
use mathlib.Core.Logic.{inl, inr}
use mathlib.Core.Option.{Option, none, some}
use mathlib.Core.List.{List, [], ◌∷◌}
use native.Mathlib.Omega.{arith}
use wispdeck.Prelude.Tests.{Bool-cases, Comparable, ◌==◌, if◌then◌else◌, is_some}
use wispdeck.Prelude.Lists.{length}

abbrev pub Assoc {ℓ κ} : Type ℓ → Type κ → Type (ℓ ⊔ κ)
Assoc K V = List (K × V)

module _ {ℓ κ} {K : Type ℓ} {V : Type κ} ⦃e : Comparable K⦄ where
  -- `m[k]`
  unfoldable pub lookup : K → Assoc K V → Option V
  lookup key [] = none
  lookup key ((other, v) ∷ rest) = if other == key then some v else lookup key rest

  -- `m[k] = v`
  unfoldable pub insert : K → V → Assoc K V → Assoc K V
  insert k v [] = (k, v) ∷ []
  insert k v ((j, w) ∷ m) = let rest = insert k v m in if j == k then (k, v) ∷ m else (j, w) ∷ rest

  -- `delete(m, k)`
  unfoldable pub delete : K → Assoc K V → Assoc K V
  delete k [] = []
  delete k ((j, w) ∷ m) = let rest = delete k m in if j == k then rest else (j, w) ∷ rest

  pub lookup-insert :
      (written read : K) (v : V) (m : Assoc K V)
      → lookup read (insert written v m) ≡ (if written == read then some v else lookup read m)
  unfolding lookup insert
  lookup-insert written read v [] = refl
  lookup-insert written read v ((key, w) ∷ rest) = ground (
    arith,
    lookup-insert written read v rest,
    e.equals_iff key written,
    e.equals_iff key read,
    e.equals_iff written read,
  )

  pub lookup-delete :
      (k j : K) (m : Assoc K V) → lookup j (delete k m) ≡ (if k == j then none else lookup j m)
  unfolding lookup delete
  lookup-delete k j [] = ground arith
  lookup-delete k j ((i, w) ∷ m) =
      ground (arith, e.equals_iff k j, e.equals_iff i k, e.equals_iff i j, lookup-delete k j m)

  pub lookup-insert_self : (k : K) (v : V) (m : Assoc K V) → lookup k (insert k v m) ≡ some v
  lookup-insert_self k v m = rw lookup-insert (rw ((e.equals_iff k k).1 refl))

  -- The number of keys grows by one at a new key only.
  pub length-insert :
      (k : K) (v : V) (m : Assoc K V)
      → length (insert k v m) ≡ (if is_some (lookup k m) then length m else suc (length m))
  unfolding lookup insert
  length-insert k v [] = refl
  length-insert k v ((j, w) ∷ m) = ground (arith, length-insert k v m)

  pub length-delete : (k : K) (m : Assoc K V) → length (delete k m) ≤ length m
  unfolding delete
  length-delete k [] = omega arith
  length-delete k ((j, w) ∷ m) = ground (arith, length-delete k m)

  -- `for k, v := range m { if test(k, v) { delete(m, k) } }`
  unfoldable pub delete_if : (K → V → Bool) → Assoc K V → Assoc K V
  delete_if test [] = []
  delete_if test ((j, w) ∷ m) =
      let rest = delete_if test m in if test j w then delete j rest else (j, w) ∷ rest

  abbrev pub unless : (K → V → Bool) → K → Option V → Option V
  unless test k none = none
  unless test k (some v) = if test k v then none else some v

  pub lookup-delete_if :
      (test : K → V → Bool) (k : K) (m : Assoc K V)
      → lookup k (delete_if test m) ≡ unless test k (lookup k m)
  unfolding lookup delete_if
  lookup-delete_if test k [] = refl
  lookup-delete_if test k ((j, w) ∷ m) = elim (Bool-cases (j == k)) [
    | inl same ↦ rw same (
        rw ((e.equals_iff j k).0 same)
          (ground (arith, lookup-delete k k (delete_if test m), e.equals_iff k k)))
    | inr other ↦
        rw other (ground (arith, lookup-delete j k (delete_if test m), lookup-delete_if test k m))
  ]

  pub length-delete_if :
      (test : K → V → Bool) (m : Assoc K V) → length (delete_if test m) ≤ length m
  unfolding delete_if
  length-delete_if test [] = omega arith
  length-delete_if test ((j, w) ∷ m) =
      ground (arith, length-delete j (delete_if test m), length-delete_if test m)
