-- ===== src/Wispist/Limiter/Counts.antt =====
-- wispist/limit.go: a count of held keys, as the stream counts are.
use wispdeck.Prelude.{
  ℕ, zero, suc, ◌≡◌, ◌∙◌, inl, inr, ap, arith, true, ◌==◌, text_comparable, Comparable, List, [],
  ◌∷◌, Option, none, some, Assoc, insert, if◌then◌else◌, lookup-insert, lookup-delete, Bool-cases,
}
use wispdeck.Prelude.Int.{ℤ, pos, ltb_ℤ, ◌+ℤ◌, ◌-ℤ◌, ◌≤ℤ◌, int_comparable, int_beq_iff}
use wispdeck.Wispist.Limiter.{bucket_key_comparable, Floats, count, drop_one}

-- How many of the held keys are this one.
unfoldable pub held_count : {K : Type 0} ⦃comparable : Comparable K⦄ → K → List K → ℕ
held_count key [] = 0
held_count key (other ∷ rest) = let n = held_count key rest in if other == key then suc n else n

unfoldable pub remove_at {ℓ} : {A : Type ℓ} → ℕ → List A → List A
remove_at n [] = []
remove_at zero (x ∷ xs) = xs
remove_at (suc n) (x ∷ xs) = x ∷ remove_at n xs

unfoldable pub item_at {ℓ} : {A : Type ℓ} → ℕ → List A → Option A
item_at n [] = none
item_at zero (x ∷ xs) = some x
item_at (suc n) (x ∷ xs) = item_at n xs

module _ (floats : Floats) {K : Type 0} ⦃comparable : Comparable K⦄ where
  pub count-insert :
      (key other : K) (n : ℤ) (streams : Assoc K ℤ)
      → count floats other (insert key n streams)
        ≡ (if key == other then n else count floats other streams)
  count-insert key other n streams = ground (arith, lookup-insert key other n streams)

  pub count-drop_one :
      (key other : K) (n : ℕ) (streams : Assoc K ℤ)
      → count floats key streams ≡ pos (suc n)
      → count floats other (drop_one floats key streams)
        ≡ (if key == other then pos n else count floats other streams)
  unfolding drop_one
  count-drop_one key other n streams counted =
      let left = count floats key streams -ℤ pos 1 in
      let same : left ≡ pos n = ground (arith, counted) in
      ground (
        arith,
        same,
        lookup-insert key other left streams,
        lookup-delete key other (insert key left streams),
        int_beq_iff left (pos 0),
      )

  held_count-remove_at :
      (n : ℕ) (key other : K) (held : List K)
      → item_at n held ≡ some key
      → held_count other held ≡ (
          if key == other
          then suc (held_count other (remove_at n held))
          else held_count other (remove_at n held))
  unfolding held_count item_at remove_at
  held_count-remove_at n key other [] found = ground arith
  held_count-remove_at zero key other (x ∷ held) found = ground arith
  held_count-remove_at (suc n) key other (x ∷ held) found =
      ground (arith, held_count-remove_at n key other held)

  -- The map counts the held keys.
  abbrev pub IsCount : Assoc K ℤ → List K → Type 0
  IsCount streams held = (key : K) → count floats key streams ≡ pos (held_count key held)

  pub IsCount-acquire :
      (key : K) (streams : Assoc K ℤ) (held : List K)
      → IsCount streams held
      → IsCount (insert key (count floats key streams +ℤ pos 1) streams) (key ∷ held)
  unfolding held_count
  IsCount-acquire key streams held counted other =
      let before = counted key in
      let there = counted other in
      let more = count-insert key other (count floats key streams +ℤ pos 1) streams in
      let same : (key == other) ≡ true → held_count key held ≡ held_count other held =
        λ e. ap (λ k. held_count k held) ((comparable.equals_iff key other).0 e) in
      elim (Bool-cases (key == other)) [
        | inl equal ↦
            let twice = same equal in rw equal (ground (arith, equal, before, twice, more))
        | inr differs ↦ ground (arith, differs, there, more)
      ]

  pub limit-acquire :
      (limit : ℤ) (key other : K) (streams : Assoc K ℤ) (held : List K)
      → IsCount streams held
      → ltb_ℤ (count floats key streams) limit ≡ true
      → pos (held_count other held) ≤ℤ limit
      → pos (held_count other (key ∷ held)) ≤ℤ limit
  unfolding held_count ltb_ℤ
  limit-acquire limit key other streams held counted free bounded =
      let before = counted key in
      let same : (key == other) ≡ true → held_count key held ≡ held_count other held =
        λ e. ap (λ k. held_count k held) ((comparable.equals_iff key other).0 e) in
      ground (arith, before, same)

  pub IsCount-release :
      (n : ℕ) (key : K) (streams : Assoc K ℤ) (held : List K)
      → item_at n held ≡ some key
      → IsCount streams held
      → IsCount (drop_one floats key streams) (remove_at n held)
  IsCount-release n key streams held found counted other =
      let left = held_count key (remove_at n held) in
      let one : held_count key held ≡ suc left =
        ground (arith, held_count-remove_at n key key held found, comparable.equals_iff key key) in
      let mine : count floats key streams ≡ pos (suc left) = counted key ∙ ap pos one in
      let same : (key == other) ≡ true → left ≡ held_count other (remove_at n held) =
        λ e. ap (λ k. held_count k (remove_at n held)) ((comparable.equals_iff key other).0 e) in
      ground (
        arith,
        counted other,
        same,
        held_count-remove_at n key other held found,
        count-drop_one key other left streams mine,
      )

  pub limit-release :
      (limit : ℤ) (n : ℕ) (key other : K) (held : List K)
      → item_at n held ≡ some key
      → pos (held_count other held) ≤ℤ limit
      → pos (held_count other (remove_at n held)) ≤ℤ limit
  limit-release limit n key other held found bounded =
      ground (arith, held_count-remove_at n key other held found)
