-- ===== src/Prelude/Transactions.antt =====
-- A transaction: statements that read and change a state, or end in an error.
use mathlib.Core.Bool.{Bool, true, false}
use mathlib.Core.Option.{Option, none, some}

pub data Result (E A : Type 0) : Type 0 where
  ok : A → Result E A
  error : E → Result E A

abbrev pub Transaction : Type 0 → Type 0 → Type 0 → Type 0
Transaction S E A = S → Result E (A × S)

infixl 5 ◌>>=◌ ◌>>◌
abbrev pub ◌>>=◌ :
    {S E A B : Type 0} → Transaction S E A → (A → Transaction S E B) → Transaction S E B
◌>>=◌ m f s = elim (m s) [ ok (a, s') ↦ f a s' | error e ↦ error e ]

abbrev pub ◌>>◌ :
    {S E B : Type 0} → Transaction S E (Unit {0}) → Transaction S E B → Transaction S E B
m >> k = m >>= λ _. k

abbrev pub answer : {S E A : Type 0} → A → Transaction S E A
answer a s = ok (a, s)

abbrev pub reject_if : {S E : Type 0} → Bool → E → Transaction S E (Unit {0})
reject_if true e s = error e
reject_if false e s = ok (tt, s)

abbrev pub query : {S E A : Type 0} → (S → A) → Transaction S E A
query q s = ok (q s, s)

abbrev pub update : {S E : Type 0} → (S → S) → Transaction S E (Unit {0})
update f s = ok (tt, f s)

abbrev pub require : {S E A : Type 0} → Option A → E → Transaction S E A
require none e s = error e
require (some a) e s = ok (a, s)

abbrev settle : {S E A : Type 0} → S → Result E (A × S) → Result E A × S
settle before (ok (a, after)) = (ok a, after)
settle before (error e) = (error e, before)

-- The statements, and their commit, or the rollback after an error.
abbrev pub transact : {S E A : Type 0} → Transaction S E A → S → Result E A × S
transact statements s = settle s (statements s)
