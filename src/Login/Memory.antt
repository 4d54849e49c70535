-- ===== src/Login/Memory.antt =====
-- internal/limit/login.go: how many windows the limiter holds.
use wispdeck.Prelude.{
  ℕ, ◌≤◌, arith, Text, Assoc, lookup, length, length-insert, length-delete_if, Option-cases, inl,
  inr, text_comparable,
}
use wispdeck.Login.{
  Window, LoginLimiter, record_attempt, prune, prune_if_needed, allow, note, empty_window,
}

pub length-record_attempt :
    (windows : Assoc Text Window) (key : Text) (now period maximum max_keys : ℕ)
    → length windows ≤ max_keys
    → length (record_attempt windows key now period maximum max_keys).0 ≤ max_keys
unfolding record_attempt
length-record_attempt windows key now period maximum max_keys h =
    elim (Option-cases (lookup key windows)) [
      | inl fresh ↦ ground (arith, fresh, length-insert key (note now period empty_window) windows)
      | inr (old, found) ↦ ground (arith, found, length-insert key (note now period old) windows)
    ]

-- The limiter holds at most `max_keys` windows of each kind.
pub record IsBounded (l : LoginLimiter) : Type 0 where
  pub users_bounded : length l.users ≤ l.max_keys
  pub addresses_bounded : length l.addresses ≤ l.max_keys

length-prune :
    (now period : ℕ) (windows : Assoc Text Window)
    → length (prune now period windows) ≤ length windows
unfolding prune
length-prune now period windows = length-delete_if _ windows

prune_if_needed-IsBounded :
    (now : ℕ) (l : LoginLimiter) → IsBounded l → IsBounded (prune_if_needed now l)
unfolding prune_if_needed
prune_if_needed-IsBounded now l h =
    ground (arith, length-prune now l.period l.users, length-prune now l.period l.addresses)

-- A call of `Allow`, whatever it answers, leaves at most `max_keys` windows of each kind if
-- there were no more before.
pub allow-IsBounded :
    (now : ℕ) (username address : Text) (l : LoginLimiter)
    → IsBounded l
    → IsBounded (allow now username address l).0
unfolding allow
allow-IsBounded now username address l h =
    let l' = prune_if_needed now l in
    let h' = prune_if_needed-IsBounded now l h in
    record {
      users_bounded =
          length-record_attempt l'.users username now l'.period l'.user_limit l'.max_keys
            h'.users_bounded;
      addresses_bounded =
          length-record_attempt l'.addresses address now l'.period l'.address_limit l'.max_keys
            h'.addresses_bounded;
    }
