-- ===== src/Tests/Login.antt =====
-- internal/limit/login.go at concrete inputs.
use wispdeck.Prelude.{
  ℕ, ◌+◌, ◌*◌, ◌≤◌, ◌≡◌, refl, arith, List, [], ◌∷◌, some, Text, text, Assoc, ◌==◌, lookup, insert,
  leb, text_eq, text_comparable,
}
use wispdeck.Login.{Window, new_login_limiter, record_attempt, allow, note, recent, prune_if_needed}
use wispdeck.Login.Sliding.{in_period, record_attempt-verdict}
use wispdeck.Login.Memory.{IsBounded, allow-IsBounded}
use wispdeck.Login.Runs.{Attempt, run, run-limited}

abbrev at_second : ℕ → Attempt
at_second s = record { at = s * 1000000000; username = text "ada"; address = text "10.0.0.1" }

abbrev burst : List Attempt
burst =
    at_second 100
    ∷ at_second 101
    ∷ at_second 102
    ∷ at_second 103
    ∷ at_second 104
    ∷ at_second 105
    ∷ at_second 161
    ∷ []

-- Six attempts within a minute: the sixth is refused, and a later one passes again.
burst_passes :
    (run (λ a. a.username == text "ada") [] new_login_limiter burst).1
    ≡ 161000000000 ∷ 104000000000 ∷ 103000000000 ∷ 102000000000 ∷ 101000000000 ∷ 100000000000 ∷ []
unfolding run allow record_attempt prune_if_needed lookup insert text_eq note recent
burst_passes = refl

run-limited_example :
    (in_period 161000000000
        (60 * 1000000000)
        (run (λ a. a.username == text "ada") [] new_login_limiter burst).1
      ≤ 5)
    × (in_period 161000000000
          (60 * 1000000000)
          (run (λ a. a.address == text "10.0.0.1") [] new_login_limiter burst).1
        ≤ 20)
run-limited_example = run-limited burst (text "ada") (text "10.0.0.1") 161000000000 (omega arith)

abbrev two_attempts : Window
two_attempts = record { attempts = 10 ∷ 50 ∷ []; seen_at = 50 }

abbrev one_key : Assoc Text Window
one_key = (text "ada", two_attempts) ∷ []

record_attempt-verdict_example :
    let (windows, allowed) = record_attempt one_key (text "ada") 75 60 2 100 in
    (allowed ≡ leb (in_period 75 60 two_attempts.attempts + 1) 2)
    × (lookup (text "ada") windows ≡ some (note 75 60 two_attempts))
unfolding lookup text_eq
record_attempt-verdict_example =
    record_attempt-verdict one_key (text "ada") 75 60 2 100 {w = two_attempts} refl (omega arith)

allow-IsBounded_example : IsBounded (allow 5 (text "ada") (text "10.0.0.1") new_login_limiter).0
allow-IsBounded_example =
    allow-IsBounded 5 (text "ada") (text "10.0.0.1") new_login_limiter (omega arith)
