-- ===== src/Login/Sliding.antt =====
-- internal/limit/login.go: what the windows say of the attempts that were let through.
use wispdeck.Prelude.{
  ℕ, ◌+◌, ◌≤◌, refl, Bool, true, false, not, List, [], ◌∷◌, ◌++◌, arith, Text, Assoc, Option, none,
  some, lookup, insert, keep, keep-append, length, length-keep, length-append, leb, lookup-insert,
  ◌==◌, text_comparable, text_eq_iff, if◌then◌else◌, All, Bool-cases, inl, inr, ◌≡◌, sym, ap, ◌∙◌,
  subst, ◌⊎◌, unless, lookup-insert_self, lookup-delete_if,
}
use wispdeck.Login.{
  Window, is_expired, recent, note, empty_window, record_in, record_attempt, prune,
}

-- The number of instants of a list that lie in the period that ends now.
abbrev pub in_period : ℕ → ℕ → List ℕ → ℕ
in_period now period ts = length (keep (λ t. not (is_expired now period t)) ts)

-- Dropping what has expired changes no later count.
in_period-recent :
    (ts : List ℕ) (now later period : ℕ)
    → now ≤ later
    → in_period later period (recent now period ts) ≡ in_period later period ts
unfolding recent keep
in_period-recent [] now later period h = refl
in_period-recent (t ∷ ts) now later period h =
    ground (arith, in_period-recent ts now later period h)

in_period-append :
    (now period : ℕ) (xs ys : List ℕ)
    → in_period now period (xs ++ ys) ≡ in_period now period xs + in_period now period ys
in_period-append now period xs ys = rw keep-append (length-append (keep _ xs) _)

-- What was seen last before the period is in no later count.
in_period-le_seen :
    (ts : List ℕ) (now seen period : ℕ)
    → All (λ t. t ≤ seen) ts
    → seen + period ≤ now
    → in_period now period ts ≡ 0
unfolding keep
in_period-le_seen [] now seen period a h = refl
in_period-le_seen (t ∷ ts) now seen period a h =
    ground (arith, in_period-le_seen ts now seen period a.1 h)

All-recent :
    (ts : List ℕ) (now period seen : ℕ)
    → All (λ t. t ≤ seen) ts
    → All (λ t. t ≤ seen) (recent now period ts)
unfolding recent
All-recent [] now period seen a = tt
All-recent (t ∷ ts) now period seen a = elim (Bool-cases (is_expired now period t)) [
  | inl gone ↦ rw gone (All-recent ts now period seen a.1)
  | inr stays ↦ rw stays a
]

All-weaken : (ts : List ℕ) (a b : ℕ) → a ≤ b → All (λ t. t ≤ a) ts → All (λ t. t ≤ b) ts
All-weaken [] a b h all = tt
All-weaken (t ∷ ts) a b h all = (omega arith, All-weaken ts a b h all.1)

All-concat : (ts : List ℕ) (b t : ℕ) → All (λ x. x ≤ b) ts → t ≤ b → All (λ x. x ≤ b) (ts ++ t ∷ [])
All-concat [] b t all h = (h, tt)
All-concat (x ∷ ts) b t all h = (all.0, All-concat ts b t all.1 h)

abbrev pub attempts_of : Option Window → List ℕ
attempts_of none = []
attempts_of (some w) = w.attempts

abbrev pub SeenLast : Option Window → ℕ → Type 0
SeenLast none now = Unit
SeenLast (some w) now = All (λ t. t ≤ w.seen_at) w.attempts × (w.seen_at ≤ now)

note-SeenLast :
    (w : Window) (now period : ℕ) → SeenLast (some w) now → SeenLast (some (note now period w)) now
unfolding note
note-SeenLast w now period s = (
  All-concat (recent now period w.attempts) now now
      (All-recent w.attempts now period now (All-weaken w.attempts w.seen_at now s.1 s.0))
      (omega arith),
  omega arith,
)

in_period-note :
    (w : Window) (now later period : ℕ)
    → now ≤ later
    → in_period later period (note now period w).attempts
      ≡ in_period later period w.attempts + in_period later period (now ∷ [])
unfolding note
in_period-note w now later period h =
    rw in_period-append (rw (in_period-recent w.attempts now later period h))

-- `passed` are the instants, up to `now`, at which attempts under one key were let through, and
-- `held` is the window under that key.
pub record Covers (held : Option Window) (now period limit : ℕ) (passed : List ℕ) : Type 0 where
  pub seen_last : SeenLast held now
  pub recorded :
      (later : ℕ)
      → now ≤ later
      → in_period later period passed ≤ in_period later period (attempts_of held)
  pub limited : (later : ℕ) → now ≤ later → in_period later period passed ≤ limit

abbrev or_empty : Option Window → Window
or_empty none = empty_window
or_empty (some w) = w

-- `passed`, with this attempt if it is let through.
abbrev pub pass : Bool → ℕ → List ℕ → List ℕ
pass b now passed = if b then now ∷ passed else passed

SeenLast-later : (held : Option Window) (a b : ℕ) → a ≤ b → SeenLast held a → SeenLast held b
SeenLast-later none a b h s = tt
SeenLast-later (some w) a b h s = (s.0, omega arith)

SeenLast-or_empty :
    (held : Option Window) (now : ℕ) → SeenLast held now → SeenLast (some (or_empty held)) now
SeenLast-or_empty none now s = (tt, omega arith)
SeenLast-or_empty (some w) now s = s

attempts-or_empty : (held : Option Window) → (or_empty held).attempts ≡ attempts_of held
attempts-or_empty none = refl
attempts-or_empty (some w) = refl

in_period-pass :
    (b : Bool) (now later period : ℕ) (passed : List ℕ)
    → in_period later period (pass b now passed)
      ≤ in_period later period passed + in_period later period (now ∷ [])
unfolding keep
in_period-pass b now later period passed = ground arith

module _ {held : Option Window} {before now period limit : ℕ} {passed : List ℕ}
    (c : Covers held before period limit passed) (h : before ≤ now) where
  pub Covers-later : Covers held now period limit passed
  Covers-later = record {
    seen_last = SeenLast-later held before now h c.seen_last;
    recorded = λ later k. c.recorded later (omega arith);
    limited = λ later k. c.limited later (omega arith);
  }

  recorded-note :
      (b : Bool) (later : ℕ)
      → now ≤ later
      → in_period later period (pass b now passed)
        ≤ in_period later period (note now period (or_empty held)).attempts
  recorded-note b later k =
      rw (in_period-note (or_empty held) now later period k, attempts-or_empty held)
        (omega (arith, in_period-pass b now later period passed, c.recorded later (omega arith)))

  -- The attempt is entered in the window; it passes only if the window then holds at most `limit`.
  Covers-note :
      (b : Bool)
      → (b ≡ true → length (note now period (or_empty held)).attempts ≤ limit)
      → Covers (some (note now period (or_empty held))) now period limit (pass b now passed)
  Covers-note b fits = record {
    seen_last =
        note-SeenLast (or_empty held) now period
          (SeenLast-or_empty held now (SeenLast-later held before now h c.seen_last));
    recorded = recorded-note b;
    limited = λ later k. elim (Bool-cases b) [
      | inl yes_b ↦
          let most =
            length-keep (λ t. not (is_expired later period t))
              (note now period (or_empty held)).attempts in
          omega (arith, recorded-note b later k, fits yes_b, most)
      | inr no_b ↦ rw no_b (c.limited later (omega arith))
    ];
  }

  -- The entered window may belong to another key; then the attempt does not count.
  Covers-insert :
      (found : Option Window) (windows : Assoc Text Window) (key k : Text) (b : Bool)
      → lookup key windows ≡ found
      → lookup k windows ≡ held
      → (b ≡ true → (key ≡ k) × (length (note now period (or_empty found)).attempts ≤ limit))
      → Covers
          (lookup k (insert key (note now period (or_empty found)) windows))
          now
          period
          limit
          (pass b now passed)
  Covers-insert found windows key k b f e fits = elim (Bool-cases (key == k)) [
    | inl same ↦
        let q : held ≡ found =
          sym e ∙ ap (λ x. lookup x windows) (sym ((text_eq_iff key k).0 same)) ∙ f in
        rw lookup-insert (
          rw same (
            subst
              (λ x.
                Covers (some (note now period (or_empty x))) now period limit (pass b now passed))
              q (Covers-note b (λ t. rw q (fits t).1))))
    | inr other ↦ rw lookup-insert (rw (other, e) (not_counted other (Bool-cases b)))
  ]
    where
      not_counted :
          (key == k) ≡ false
          → (b ≡ true) ⊎ (b ≡ false)
          → Covers held now period limit (pass b now passed)
      not_counted other (inl t) = absurd (ground (arith, fits t, text_eq_iff key k))
      not_counted other (inr t) = rw t Covers-later

  -- The window under `k` after an attempt under `key`, which counts only if it passes.
  pub Covers-record_in :
      (found : Option Window) (windows : Assoc Text Window) (key k : Text) (max_keys : ℕ) (b : Bool)
      → lookup key windows ≡ found
      → lookup k windows ≡ held
      → (b ≡ true → (key ≡ k) × ((record_in found windows key now period limit max_keys).1 ≡ true))
      → Covers
          (lookup k (record_in found windows key now period limit max_keys).0)
          now
          period
          limit
          (pass b now passed)
  unfolding record_in
  Covers-record_in none windows key k max_keys b f e fits =
      elim (Bool-cases (leb max_keys (length windows))) [
        | inl full ↦ rw full (rw (e, not_passed full (Bool-cases b)) Covers-later)
        | inr room ↦
            rw room
              (Covers-insert none windows key k b f e (λ t. ((fits t).0, ground (arith, fits t))))
      ]
    where
      not_passed :
          leb max_keys (length windows) ≡ true
          → (b ≡ true) ⊎ (b ≡ false)
          → pass b now passed ≡ passed
      not_passed full (inl t) = absurd (ground (arith, fits t))
      not_passed full (inr t) = rw t
  Covers-record_in (some old) windows key k max_keys b f e fits =
      Covers-insert (some old) windows key k b f e (λ t. ((fits t).0, ground (arith, fits t)))

module _ {now period limit : ℕ} {passed : List ℕ} where
  -- A window seen last before the period holds no attempt of the period: it may go.
  Covers-drop :
      {w : Window}
      → Covers (some w) now period limit passed
      → is_expired now period w.seen_at ≡ true
      → Covers none now period limit passed
  Covers-drop {w} c gone = record {
    seen_last = tt;
    recorded = λ later k.
        let none_left =
          in_period-le_seen w.attempts later w.seen_at period c.seen_last.0 (ground arith) in
        omega (arith, c.recorded later k, none_left);
    limited = c.limited;
  }

  Covers-unless :
      (held : Option Window) (k : Text)
      → Covers held now period limit passed
      → Covers (unless (λ key w. is_expired now period w.seen_at) k held) now period limit passed
  Covers-unless none k c = c
  Covers-unless (some w) k c = elim (Bool-cases (is_expired now period w.seen_at)) [
    | inl gone ↦ rw gone (Covers-drop c gone)
    | inr stays ↦ rw stays c
  ]

  pub Covers-prune :
      (k : Text) (windows : Assoc Text Window)
      → Covers (lookup k windows) now period limit passed
      → Covers (lookup k (prune now period windows)) now period limit passed
  unfolding prune
  Covers-prune k windows c = rw lookup-delete_if (Covers-unless (lookup k windows) k c)

  -- A call of `record` under `key`, seen from the window under `k`.
  pub Covers-record_attempt :
      (windows : Assoc Text Window) (key k : Text) (max_keys : ℕ) (b : Bool)
      → Covers (lookup k windows) now period limit passed
      → (b ≡ true → (key ≡ k) × ((record_attempt windows key now period limit max_keys).1 ≡ true))
      → Covers
          (lookup k (record_attempt windows key now period limit max_keys).0)
          now
          period
          limit
          (pass b now passed)
  unfolding record_attempt
  Covers-record_attempt windows key k max_keys b c fits =
      Covers-record_in c (omega arith) (lookup key windows) windows key k max_keys b refl refl fits

-- The instants of a window are in order.
abbrev pub Ascending : ℕ → List ℕ → Type 0
Ascending from [] = Unit
Ascending from (t ∷ ts) = (from ≤ t) × Ascending t ts

keep-none_expired :
    (ts : List ℕ) (from now period : ℕ)
    → Ascending from ts
    → is_expired now period from ≡ false
    → keep (λ t. not (is_expired now period t)) ts ≡ ts
unfolding keep
keep-none_expired [] from now period a h = refl
keep-none_expired (t ∷ ts) from now period a h =
    ground (arith, keep-none_expired ts t now period a.1)

recent-keep :
    (ts : List ℕ) (from now period : ℕ)
    → Ascending from ts
    → recent now period ts ≡ keep (λ t. not (is_expired now period t)) ts
unfolding recent keep
recent-keep [] from now period a = refl
recent-keep (t ∷ ts) from now period a =
    ground (arith, recent-keep ts t now period a.1, keep-none_expired ts t now period a.1)

-- `record` lets an attempt under a known key through exactly when the attempts that its window
-- holds in the period, with this one, are at most `maximum`; and it enters this one either way.
pub record_attempt-verdict :
    (windows : Assoc Text Window) (key : Text) (now period maximum max_keys : ℕ) {w : Window}
    → lookup key windows ≡ some w
    → Ascending 0 w.attempts
    → let (windows', allowed) = record_attempt windows key now period maximum max_keys in
      (allowed ≡ leb (in_period now period w.attempts + 1) maximum)
      × (lookup key windows' ≡ some (note now period w))
unfolding record_attempt record_in note
record_attempt-verdict windows key now period maximum max_keys {w} found a =
    let q = recent-keep w.attempts 0 now period a in
    (rw (found, q, length-append (keep _ w.attempts) (now ∷ [])), rw (found, lookup-insert_self))
