-- ===== src/Login/Runs.antt =====
-- internal/limit/login.go over any sequence of attempts with a clock that does not go back.
use wispdeck.Prelude.{
  ℕ, ◌+◌, ◌*◌, none, ◌∙◌, ◌≤◌, Bool, ◌&&◌, List, [], ◌∷◌, arith, Text, ltb, lookup, ◌==◌,
  text_comparable, text_eq_iff, Bool-cases, inl, inr, ◌≡◌, refl, length, keep,
}
use wispdeck.Login.{LoginLimiter, new_login_limiter, prune_if_needed, allow}
use wispdeck.Login.Sliding.{
  in_period, pass, Covers, Covers-record_attempt, Covers-later, Covers-prune,
}

pub record Attempt : Type 0 where
  pub at : ℕ
  pub username : Text
  pub address : Text

-- The limiter after a sequence of calls of `Allow`, and the instants at which an attempt that
-- `counts` was let through, the newest first.
unfoldable pub run : (Attempt → Bool) → List ℕ → LoginLimiter → List Attempt → LoginLimiter × List ℕ
run counts passed l [] = (l, passed)
run counts passed l (a ∷ rest) =
    let (l', allowed) = allow a.at a.username a.address l in
    run counts (pass (counts a && allowed) a.at passed) l' rest

-- The clock does not go back, and stands at `last` at the end.
abbrev pub Ordered : ℕ → List Attempt → ℕ → Type 0
Ordered now [] last = now ≤ last
Ordered now (a ∷ rest) last = (now ≤ a.at) × Ordered a.at rest last

module _ {now : ℕ} {passed : List ℕ} where
  prune_if_needed-users :
      (k : Text) (l : LoginLimiter)
      → Covers (lookup k l.users) now l.period l.user_limit passed
      → Covers (lookup k (prune_if_needed now l).users) now l.period l.user_limit passed
  unfolding prune_if_needed
  prune_if_needed-users k l c =
      elim (Bool-cases (ltb (length l.users + length l.addresses) l.max_keys)) [
        | inl room ↦ rw room c
        | inr full ↦ rw full (Covers-prune k l.users c)
      ]

  prune_if_needed-addresses :
      (k : Text) (l : LoginLimiter)
      → Covers (lookup k l.addresses) now l.period l.address_limit passed
      → Covers (lookup k (prune_if_needed now l).addresses) now l.period l.address_limit passed
  unfolding prune_if_needed
  prune_if_needed-addresses k l c =
      elim (Bool-cases (ltb (length l.users + length l.addresses) l.max_keys)) [
        | inl room ↦ rw room c
        | inr full ↦ rw full (Covers-prune k l.addresses c)
      ]

prune_if_needed-settings :
    (now : ℕ) (l : LoginLimiter)
    → ((prune_if_needed now l).period ≡ l.period)
      × ((prune_if_needed now l).user_limit ≡ l.user_limit)
      × ((prune_if_needed now l).address_limit ≡ l.address_limit)
unfolding prune_if_needed
prune_if_needed-settings now l = ground arith

-- The settings never change.
allow-settings :
    (now : ℕ) (username address : Text) (l : LoginLimiter)
    → ((allow now username address l).0.period ≡ l.period)
      × ((allow now username address l).0.user_limit ≡ l.user_limit)
      × ((allow now username address l).0.address_limit ≡ l.address_limit)
unfolding allow
allow-settings now username address l = prune_if_needed-settings now l

module _ (a : Attempt) (k : Text) (l : LoginLimiter) {before : ℕ} {passed : List ℕ}
    (h : before ≤ a.at) where
  allow-users :
      Covers (lookup k l.users) before l.period l.user_limit passed
      → let (l', allowed) = allow a.at a.username a.address l in
        Covers
          (lookup k l'.users)
          a.at
          l.period
          l.user_limit
          (pass ((a.username == k) && allowed) a.at passed)
  unfolding allow
  allow-users c =
      let l' = prune_if_needed a.at l in
      let (same_period, same_limit, _) = prune_if_needed-settings a.at l in
      rw (same_period, same_limit)
        (Covers-record_attempt l'.users a.username k l'.max_keys _
          (prune_if_needed-users k l (Covers-later c h))
          (λ both. ground (arith, both, text_eq_iff a.username k)))

  allow-addresses :
      Covers (lookup k l.addresses) before l.period l.address_limit passed
      → let (l', allowed) = allow a.at a.username a.address l in
        Covers
          (lookup k l'.addresses)
          a.at
          l.period
          l.address_limit
          (pass ((a.address == k) && allowed) a.at passed)
  unfolding allow
  allow-addresses c =
      let l' = prune_if_needed a.at l in
      let (same_period, _, same_limit) = prune_if_needed-settings a.at l in
      rw (same_period, same_limit)
        (Covers-record_attempt l'.addresses a.address k l'.max_keys _
          (prune_if_needed-addresses k l (Covers-later c h))
          (λ both. ground (arith, both, text_eq_iff a.address k)))

users-limited :
    (es : List Attempt) (k : Text) (l : LoginLimiter) (before last : ℕ) (passed : List ℕ)
    (period limit : ℕ)
    → l.period ≡ period
    → l.user_limit ≡ limit
    → Covers (lookup k l.users) before period limit passed
    → Ordered before es last
    → in_period last period (run (λ a. a.username == k) passed l es).1 ≤ limit
unfolding run
users-limited [] k l before last passed period limit p q c o = c.limited last o
users-limited (a ∷ es) k l before last passed period limit p q c (o, later) =
    let (l', allowed) = allow a.at a.username a.address l in
    let (same_period, same_limit, _) = allow-settings a.at a.username a.address l in
    users-limited es k l' a.at last (pass ((a.username == k) && allowed) a.at passed) period limit
      (same_period ∙ p) (same_limit ∙ q) (rw (← p, ← q) (allow-users a k l o (rw (← p, ← q) at c)))
      later

addresses-limited :
    (es : List Attempt) (k : Text) (l : LoginLimiter) (before last : ℕ) (passed : List ℕ)
    (period limit : ℕ)
    → l.period ≡ period
    → l.address_limit ≡ limit
    → Covers (lookup k l.addresses) before period limit passed
    → Ordered before es last
    → in_period last period (run (λ a. a.address == k) passed l es).1 ≤ limit
unfolding run
addresses-limited [] k l before last passed period limit p q c o = c.limited last o
addresses-limited (a ∷ es) k l before last passed period limit p q c (o, later) =
    let (l', allowed) = allow a.at a.username a.address l in
    let (same_period, _, same_limit) = allow-settings a.at a.username a.address l in
    addresses-limited es k l' a.at last (pass ((a.address == k) && allowed) a.at passed) period
      limit (same_period ∙ p) (same_limit ∙ q)
      (rw (← p, ← q) (allow-addresses a k l o (rw (← p, ← q) at c))) later

Covers-none : (period limit : ℕ) → Covers none 0 period limit []
unfolding keep
Covers-none period limit = record {
  seen_last = tt;
  recorded = λ later h. omega arith;
  limited = λ later h. omega arith;
}

-- From a new limiter, over any sequence of attempts whose clock does not go back, at most 5
-- attempts under one username and at most 20 from one address are let through in the minute
-- that ends at `last`, whatever windows were pruned in between.
pub run-limited :
    (es : List Attempt) (username address : Text) (last : ℕ)
    → Ordered 0 es last
    → (in_period last
          (60 * 1000000000)
          (run (λ a. a.username == username) [] new_login_limiter es).1
        ≤ 5)
      × (in_period last
            (60 * 1000000000)
            (run (λ a. a.address == address) [] new_login_limiter es).1
          ≤ 20)
unfolding lookup
run-limited es username address last o = (
  users-limited es username new_login_limiter 0 last [] _ _ refl refl (Covers-none _ _) o,
  addresses-limited es address new_login_limiter 0 last [] _ _ refl refl (Covers-none _ _) o,
)
