-- ===== src/Links/Totals.antt =====
-- internal/shortlink/service.go: visits and flushes in any order, as one count per link and day.
use wispdeck.Prelude.{
  ℕ, suc, ◌+◌, ◌≤◌, ◌⊎◌, ◌≡◌, refl, sym, ap, ◌∙◌, subst, arith, Text, List, [], ◌∷◌, some, Assoc,
  lookup, length, inl, inr,
}
use wispdeck.Prelude.Transactions.{Result, ok, error, transact}
use wispdeck.Links.Types.{LinkError, VisitBucket, max_int64, max_pending_buckets}
use wispdeck.Links.Tables.{Tables}
use wispdeck.Links.Visits.{
  VisitKey, VisitCounter, new_visit_counter, buckets_of, record_visit, drain, add_each_visits,
  add_short_link_visits,
}
use wispdeck.Links.Service.{record_all, flushed, flush_visits}
use wispdeck.Links.Counting.{
  visits_in, visits_among, bucket_visits, IsKeyed, length-record_all, visits_in-record_all,
  visits_in-restore, length-restore,
}
use wispdeck.Links.Keyed.{bucket_visits-buckets_of, record_all-IsKeyed, restore-IsKeyed}
use wispdeck.Links.Stored.{stored, IsMidnights, stored-add_each_visits}

-- A visit that is counted, or a flush during which some are.
pub data VisitStep : Type 0 where
  visiting : Text → ℕ → VisitStep
  flushing : List (Text × ℕ) → VisitStep

unfoldable pub step_visits : VisitStep → Tables → VisitCounter → Tables × VisitCounter
step_visits (visiting link_id now) t c = (t, record_visit link_id now c)
step_visits (flushing meanwhile) t c = let (result, t', c') = flush_visits meanwhile t c in (t', c')

unfoldable pub run_visits : List VisitStep → Tables → VisitCounter → Tables × VisitCounter
run_visits [] t c = (t, c)
run_visits (step ∷ rest) t c = let (t', c') = step_visits step t c in run_visits rest t' c'

-- The visits of a step, in order.
abbrev pub visits_of : VisitStep → List (Text × ℕ)
visits_of (visiting link_id now) = (link_id, now) ∷ []
visits_of (flushing meanwhile) = meanwhile

-- The abstract count: visits of a link and day, and of all.
unfoldable pub counted : VisitKey → List VisitStep → ℕ
counted k [] = 0
counted k (step ∷ rest) = visits_among k (visits_of step) + counted k rest

unfoldable pub visits_made : List VisitStep → ℕ
visits_made [] = 0
visits_made (step ∷ rest) = length (visits_of step) + visits_made rest

abbrev pub key_on : Text → ℕ → VisitKey
key_on link_id day = record { link_id = link_id; day = some day }

-- What the table and the counter know together.
abbrev pub total : Text → ℕ → Tables → VisitCounter → ℕ
total link_id day t c = stored link_id day t.daily_stats + visits_in (key_on link_id day) c.buckets

midnights : (m : Assoc VisitKey VisitBucket) → IsKeyed m → IsMidnights (buckets_of m)
unfolding IsKeyed IsMidnights
midnights [] keyed = tt
midnights ((key, b) ∷ rest) (own, midnight, fresh, keyed) = (midnight, midnights rest keyed)

length-buckets_of : (m : Assoc VisitKey VisitBucket) → length (buckets_of m) ≡ length m
length-buckets_of [] = refl
length-buckets_of ((key, b) ∷ rest) = ap suc (length-buckets_of rest)

-- The buckets are written, or an error leaves the tables.
add_short_link_visits-outcome :
    (bs : List VisitBucket) (t : Tables) (link_id : Text) (day : ℕ)
    → IsMidnights bs
    → ((t' : Tables) × (add_short_link_visits bs t ≡ (ok tt, t'))
        × (stored link_id day t'.daily_stats
            ≡ stored link_id day t.daily_stats + bucket_visits (key_on link_id day) bs))
      ⊎ ((e : LinkError) × (add_short_link_visits bs t ≡ (error e, t)))
unfolding add_short_link_visits bucket_visits
add_short_link_visits-outcome [] t link_id day m = inl (t, refl, omega arith)
add_short_link_visits-outcome (b ∷ rest) t link_id day m = go (add_each_visits (b ∷ rest) t) refl
  where
    go :
        (r : Result LinkError (Unit {0} × Tables))
        → add_each_visits (b ∷ rest) t ≡ r
        → ((t' : Tables) × (transact (add_each_visits (b ∷ rest)) t ≡ (ok tt, t'))
            × (stored link_id day t'.daily_stats
                ≡ stored link_id day t.daily_stats + bucket_visits (key_on link_id day) (b ∷ rest)))
          ⊎ ((e : LinkError) × (transact (add_each_visits (b ∷ rest)) t ≡ (error e, t)))
    go (ok (u, t')) e =
        inl (t', ground (arith, e), stored-add_each_visits (b ∷ rest) link_id day t t' m e)
    go (error x) e = inr (x, ground (arith, e))

-- The count of a link and day after a step from `t` and `c`, with some visits made, and the state of the counter.
abbrev Counts : Text → ℕ → Tables → VisitCounter → List (Text × ℕ) → Tables → VisitCounter → Type 0
Counts link_id day t c made t' c' =
    (total link_id day t' c' ≡ total link_id day t c + visits_among (key_on link_id day) made)
    × IsKeyed c'.buckets
    × (length c'.buckets ≤ length c.buckets + length made)
    × (c'.max_buckets ≡ c.max_buckets)

flush_visits-Counts :
    (meanwhile : List (Text × ℕ)) (t : Tables) (c : VisitCounter) (link_id : Text) (day : ℕ)
    → IsKeyed c.buckets
    → length c.buckets + length meanwhile ≤ c.max_buckets
    → total link_id day t c + visits_among (key_on link_id day) meanwhile ≤ max_int64
    → Counts link_id day t c meanwhile (flush_visits meanwhile t c).1 (flush_visits meanwhile t c).2
unfolding flush_visits drain lookup IsKeyed
flush_visits-Counts meanwhile t c link_id day keyed room low =
    let k = key_on link_id day in
    let bs = buckets_of c.buckets in
    let drained : VisitCounter = record c { buckets = [] } in
    let refilled = record_all meanwhile drained in
    let made = visits_in-record_all meanwhile drained k (omega arith) (omega arith) in
    let (few, same_max) = length-record_all meanwhile drained in
    let drained_sum = bucket_visits-buckets_of k c.buckets keyed in
    let as_many = length-buckets_of c.buckets in
    elim (add_short_link_visits-outcome bs t link_id day (midnights c.buckets keyed)) [
      | inl (t', e, sum) ↦
          subst
            (λ r.
              Counts link_id day t c meanwhile (flushed bs refilled r).1 (flushed bs refilled r).2)
            (sym e) (omega arith, record_all-IsKeyed meanwhile drained tt, omega arith, same_max)
      | inr (x, e) ↦
          let back = visits_in-restore bs refilled k (omega arith) (omega arith) in
          let (fewer, same_max') = length-restore bs refilled in
          subst
            (λ r.
              Counts link_id day t c meanwhile (flushed bs refilled r).1 (flushed bs refilled r).2)
            (sym e)
            (
              omega arith,
              restore-IsKeyed bs refilled (record_all-IsKeyed meanwhile drained tt),
              omega arith,
              same_max' ∙ same_max,
            )
    ]

step_visits-Counts :
    (step : VisitStep) (t : Tables) (c : VisitCounter) (link_id : Text) (day : ℕ)
    → IsKeyed c.buckets
    → length c.buckets + length (visits_of step) ≤ c.max_buckets
    → total link_id day t c + visits_among (key_on link_id day) (visits_of step) ≤ max_int64
    → Counts link_id day t c (visits_of step) (step_visits step t c).0 (step_visits step t c).1
unfolding step_visits record_all
step_visits-Counts (visiting link now) t c link_id day keyed room low =
    let made =
      visits_in-record_all ((link, now) ∷ []) c (key_on link_id day) (omega arith) (omega arith) in
    let (few, same_max) = length-record_all ((link, now) ∷ []) c in
    (omega arith, record_all-IsKeyed ((link, now) ∷ []) c keyed, omega arith, same_max)
step_visits-Counts (flushing meanwhile) t c link_id day keyed room low =
    flush_visits-Counts meanwhile t c link_id day keyed room low

run_visits-counted :
    (steps : List VisitStep) (t : Tables) (c : VisitCounter) (link_id : Text) (day : ℕ)
    → IsKeyed c.buckets
    → length c.buckets + visits_made steps ≤ c.max_buckets
    → total link_id day t c + counted (key_on link_id day) steps ≤ max_int64
    → total link_id day (run_visits steps t c).0 (run_visits steps t c).1
      ≡ total link_id day t c + counted (key_on link_id day) steps
unfolding run_visits counted visits_made
run_visits-counted [] t c link_id day keyed room low = omega arith
run_visits-counted (step ∷ rest) t c link_id day keyed room low =
    let (now, keyed', longer, same) =
      step_visits-Counts step t c link_id day keyed (omega arith) (omega arith) in
    let later =
      run_visits-counted rest (step_visits step t c).0 (step_visits step t c).1 link_id day keyed'
        (omega arith) (omega arith) in
    omega arith

-- From a new counter, whatever visits are made and flushed in any order, flushes that fail and visits that are
-- made while one writes among them: as long as no more visits are made than the counter holds buckets,
-- and the count fits an int64, what the table and the counter hold of a link and day together is
-- what the table held before and the number of the visits to that link on that day.
pub run_visits-new_visit_counter :
    (steps : List VisitStep) (t : Tables) (link_id : Text) (day : ℕ)
    → visits_made steps ≤ max_pending_buckets
    → stored link_id day t.daily_stats + counted (key_on link_id day) steps ≤ max_int64
    → total link_id day
        (run_visits steps t (new_visit_counter max_pending_buckets)).0
        (run_visits steps t (new_visit_counter max_pending_buckets)).1
      ≡ stored link_id day t.daily_stats + counted (key_on link_id day) steps
unfolding IsKeyed lookup
run_visits-new_visit_counter steps t link_id day room low =
    let counts =
      run_visits-counted steps t (new_visit_counter max_pending_buckets) link_id day tt
        (omega arith) (omega arith) in
    omega arith
