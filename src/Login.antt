-- ===== src/Login.antt =====
-- internal/limit/login.go: the sliding-window limits on login attempts. Instants and durations
-- are nanoseconds; `!t.After(now.Add(-period))` is written `t + period <= now`, which needs no
-- subtraction. The mutex makes each call one step.
pub mod Sliding
pub mod Memory
pub mod Runs
use wispdeck.Prelude.{
  ℕ, suc, ◌+◌, ◌*◌, Bool, true, false, not, ◌&&◌, List, [], ◌∷◌, ◌++◌, Option, none, some, Text,
  Assoc, lookup, insert, delete_if, length, ltb, leb, if◌then◌else◌, text_comparable,
}

pub record Window : Type 0 where
  pub attempts : List ℕ
  pub seen_at : ℕ

pub record LoginLimiter : Type 0 where
  pub period : ℕ
  pub user_limit : ℕ
  pub address_limit : ℕ
  pub max_keys : ℕ
  pub users : Assoc Text Window
  pub addresses : Assoc Text Window

abbrev pub new_login_limiter : LoginLimiter
new_login_limiter = record {
  period = 60 * 1000000000;
  user_limit = 5;
  address_limit = 20;
  max_keys = 10000;
  users = [];
  addresses = [];
}

-- `!t.After(cutoff)`
abbrev pub is_expired : ℕ → ℕ → ℕ → Bool
is_expired now period t = leb (t + period) now

-- The loop that advances `first`, and the slice from there.
unfoldable pub recent : ℕ → ℕ → List ℕ → List ℕ
recent now period [] = []
recent now period (t ∷ ts) =
    let rest = recent now period ts in if is_expired now period t then rest else t ∷ ts

abbrev pub empty_window : Window
empty_window = record { attempts = []; seen_at = 0 }

-- `record`, once the window is at hand.
unfoldable pub note : ℕ → ℕ → Window → Window
note now period w = record { attempts = recent now period w.attempts ++ now ∷ []; seen_at = now }

unfoldable pub record_in :
    Option Window → Assoc Text Window → Text → ℕ → ℕ → ℕ → ℕ → Assoc Text Window × Bool
record_in none windows key now period maximum max_keys =
    let w = note now period empty_window in
    if leb max_keys (length windows)
    then (windows, false)
    else (insert key w windows, leb (length w.attempts) maximum)
record_in (some old) windows key now period maximum max_keys =
    let w = note now period old in (insert key w windows, leb (length w.attempts) maximum)

-- `record`; the window is updated in place, through the map's pointer.
unfoldable pub record_attempt : Assoc Text Window → Text → ℕ → ℕ → ℕ → ℕ → Assoc Text Window × Bool
unfolding record_in
record_attempt windows key = record_in (lookup key windows) windows key

-- `prune`
unfoldable pub prune : ℕ → ℕ → Assoc Text Window → Assoc Text Window
prune now period = delete_if (λ key w. is_expired now period w.seen_at)

unfoldable pub prune_if_needed : ℕ → LoginLimiter → LoginLimiter
prune_if_needed now l =
    if ltb (length l.users + length l.addresses) l.max_keys
    then l
    else record l { users = prune now l.period l.users; addresses = prune now l.period l.addresses }

unfoldable pub allow : ℕ → Text → Text → LoginLimiter → LoginLimiter × Bool
allow now username address l =
    let l' = prune_if_needed now l in
    let (users, user_allowed) =
      record_attempt l'.users username now l'.period l'.user_limit l'.max_keys in
    let (addresses, address_allowed) =
      record_attempt l'.addresses address now l'.period l'.address_limit l'.max_keys in
    (record l' { users = users; addresses = addresses }, user_allowed && address_allowed)
