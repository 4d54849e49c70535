-- ===== src/Links/Visits.antt =====
-- internal/shortlink/service.go, the visit counter, and `AddShortLinkVisits` of
-- internal/store/shortlinks.go. The order in which a Go map is read is that of the list.
use wispdeck.Prelude.{
  ℕ, suc, ◌+◌, ◌-◌, ◌*◌, ◌/◌, ◌%◌, ◌≡◌, ◌↔◌, arith, Bool, true, false, not, ◌&&◌, ◌||◌, ◌==◌,
  if◌then◌else◌, Comparable, Text, text_comparable, ℕ_comparable, List, [], ◌∷◌, ◌++◌, Option, none,
  some, Assoc, lookup, insert, length, ltb, leb, exists, find, update_if, is_some,
}
use wispdeck.Prelude.Transactions.{
  Result, ok, ◌>>=◌, ◌>>◌, answer, reject_if, query, update, require, transact,
}
use wispdeck.Accounts.Tables.{unix}
use wispdeck.Links.Types.{VisitBucket, LinkError, link_failed, max_int64}
use wispdeck.Links.Tables.{StatRow, Tables, Statements}

abbrev pub day_length : ℕ
day_length = 86400000000000

-- The zero time is midnight.
abbrev pub utc_day : Option ℕ → Option ℕ
utc_day none = none
utc_day (some t) = some (t / day_length * day_length)

abbrev pub unix_of : Option ℕ → Option ℕ
unix_of none = none
unix_of (some t) = some (unix t)

-- `t.After(u)`
abbrev pub after : ℕ → Option ℕ → Bool
after t none = true
after t (some u) = ltb u t

abbrev same_day : Option ℕ → Option ℕ → Bool
same_day none none = true
same_day (some a) (some b) = a == b
same_day _ _ = false

pub record VisitKey : Type 0 where
  pub link_id : Text
  pub day : Option ℕ

unfoldable pub visit_key_eq : VisitKey → VisitKey → Bool
visit_key_eq a b = a.link_id == b.link_id && same_day a.day b.day

pub visit_key_eq_iff : (a b : VisitKey) → (visit_key_eq a b ≡ true) ↔ (a ≡ b)
unfolding visit_key_eq
visit_key_eq_iff a b = ground (arith, text_comparable.equals_iff a.link_id b.link_id)

instance abbrev pub visit_key_comparable : Comparable VisitKey
visit_key_comparable = record { equals = visit_key_eq; equals_iff = visit_key_eq_iff }

pub record VisitCounter : Type 0 where
  pub buckets : Assoc VisitKey VisitBucket
  pub max_buckets : ℕ

abbrev pub new_visit_counter : ℕ → VisitCounter
new_visit_counter max_buckets = record { buckets = []; max_buckets = max_buckets }

-- The zero value that a missing key reads.
abbrev pub bucket_or_zero : Option VisitBucket → VisitBucket
bucket_or_zero none = record { link_id = []; day = none; visits = 0; last_visited_at = none }
bucket_or_zero (some bucket) = bucket

-- `if math.MaxInt64-a < b { math.MaxInt64 } else { a + b }`
abbrev pub saturating : ℕ → ℕ → ℕ
saturating a b = if ltb (max_int64 - a) b then max_int64 else a + b

abbrev later : Option ℕ → Option ℕ → Option ℕ
later none old = old
later (some t) old = if after t old then some t else old

-- The end of `record` and of the loop of `restore`: a bucket with more visits.
abbrev pub raise : Text → Option ℕ → ℕ → Option ℕ → VisitBucket → VisitBucket
raise link_id day visits last bucket = record {
  link_id = link_id;
  day = day;
  visits = visits;
  last_visited_at = later last bucket.last_visited_at;
}

abbrev pub is_full : VisitKey → VisitCounter → Bool
is_full key c = not (is_some (lookup key c.buckets)) && leb c.max_buckets (length c.buckets)

-- `record`
unfoldable pub record_visit : Text → ℕ → VisitCounter → VisitCounter
record_visit link_id now c =
    let day = utc_day (some now) in
    let key : VisitKey = record { link_id = link_id; day = unix_of day } in
    let bucket = bucket_or_zero (lookup key c.buckets) in
    let visits = if ltb bucket.visits max_int64 then suc bucket.visits else bucket.visits in
    if is_full key c
    then c
    else record c { buckets = insert key (raise link_id day visits (some now) bucket) c.buckets }

abbrev pub buckets_of : Assoc VisitKey VisitBucket → List VisitBucket
buckets_of [] = []
buckets_of ((key, bucket) ∷ rest) = bucket ∷ buckets_of rest

unfoldable pub drain : VisitCounter → List VisitBucket × VisitCounter
drain c = (buckets_of c.buckets, record c { buckets = [] })

unfoldable pub snapshot : VisitCounter → List VisitBucket
snapshot c = buckets_of c.buckets

-- The body of the loop of `restore`
unfoldable pub restore_bucket : VisitBucket → VisitCounter → VisitCounter
restore_bucket value c =
    let key : VisitKey = record { link_id = value.link_id; day = unix_of (utc_day value.day) } in
    let bucket = bucket_or_zero (lookup key c.buckets) in
    if is_full key c then c else record c {
      buckets =
          insert key
            (raise value.link_id (utc_day value.day) (saturating bucket.visits value.visits)
              value.last_visited_at bucket)
            c.buckets;
    }

unfoldable pub restore : List VisitBucket → VisitCounter → VisitCounter
restore [] c = c
restore (value ∷ rest) c = restore rest (restore_bucket value c)

abbrev pub is_stat : Text → ℕ → StatRow → Bool
is_stat link_id day row = row.link_id == link_id && row.day == day

abbrev max : ℕ → ℕ → ℕ
max a b = if ltb a b then b else a

abbrev pub add_stat : ℕ → ℕ → StatRow → StatRow
add_stat visits last row = record row {
  visits = row.visits + visits;
  last_visited_at = max row.last_visited_at last;
}

-- The upsert of one row, with the foreign key, the CHECKs and the overflow of the sum.
unfoldable pub upsert_stat : Text → ℕ → ℕ → ℕ → Statements (Unit {0})
upsert_stat link_id day visits last = do
  known ← query (λ t. exists (λ l. l.id == link_id) t.short_links)
  reject_if (not known || not (day % 86400 == 0)) link_failed
  found ← query (λ t. find (is_stat link_id day) t.daily_stats)
  elim found [
    | none ↦ update (λ t. record t {
      daily_stats =
          t.daily_stats
          ++ (record { link_id = link_id; day = day; visits = visits; last_visited_at = last })
            ∷ [];
    })
    | some row ↦ do
      reject_if (ltb max_int64 (row.visits + visits)) link_failed
      update (λ t. record t {
        daily_stats = update_if (is_stat link_id day) (add_stat visits last) t.daily_stats;
      })
  ]

-- The body of the loop of `AddShortLinkVisits`
unfoldable pub add_visits : VisitBucket → Statements (Unit {0})
add_visits bucket = do
  reject_if (bucket.visits == 0 || bucket.link_id == []) link_failed
  day ← require bucket.day link_failed
  last ← require bucket.last_visited_at link_failed
  upsert_stat bucket.link_id (unix day) bucket.visits (unix last)

unfoldable pub add_each_visits : List VisitBucket → Statements (Unit {0})
add_each_visits [] = answer tt
add_each_visits (bucket ∷ rest) = do add_visits bucket; add_each_visits rest

unfoldable pub add_short_link_visits :
    List VisitBucket → Tables → Result LinkError (Unit {0}) × Tables
add_short_link_visits [] t = (ok tt, t)
add_short_link_visits (bucket ∷ rest) t = transact (add_each_visits (bucket ∷ rest)) t
