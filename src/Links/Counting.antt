-- ===== src/Links/Counting.antt =====
-- internal/shortlink/service.go and internal/store/shortlinks.go: the visits that the
-- counter holds of a link on a day.
use wispdeck.Prelude.{
  ℕ, suc, ◌+◌, ◌≤◌, ◌<◌, ◌≡◌, refl, ◌∙◌, arith, ◌==◌, if◌then◌else◌, Text, text_comparable,
  ℕ_comparable, List, [], ◌∷◌, none, some, Assoc, lookup, length, lookup-insert, length-insert, ltb,
}
use wispdeck.Links.Types.{max_int64, VisitBucket}
use wispdeck.Links.Visits.{
  visit_key_comparable, utc_day, unix_of, VisitKey, visit_key_eq_iff, VisitCounter, bucket_or_zero,
  saturating, raise, record_visit, restore, restore_bucket,
}
use wispdeck.Links.Service.{record_all}

abbrev pub key_at : Text → ℕ → VisitKey
key_at link_id now = record { link_id = link_id; day = unix_of (utc_day (some now)) }

abbrev pub key_of : VisitBucket → VisitKey
key_of b = record { link_id = b.link_id; day = unix_of (utc_day b.day) }

abbrev pub visits_in : VisitKey → Assoc VisitKey VisitBucket → ℕ
visits_in k m = (bucket_or_zero (lookup k m)).visits

abbrev pub weight : VisitKey → VisitKey → ℕ → ℕ
weight key k n = if key == k then n else 0

-- The visits of a link on a day among some calls of `record`.
unfoldable pub visits_among : VisitKey → List (Text × ℕ) → ℕ
visits_among k [] = 0
visits_among k ((link_id, now) ∷ rest) = weight (key_at link_id now) k 1 + visits_among k rest

unfoldable pub bucket_visits : VisitKey → List VisitBucket → ℕ
bucket_visits k [] = 0
bucket_visits k (b ∷ rest) = weight (key_of b) k b.visits + bucket_visits k rest

-- The keys are those of the buckets, whose days are midnights, and none stands twice.
unfoldable pub IsKeyed : Assoc VisitKey VisitBucket → Type 0
IsKeyed [] = Unit {0}
IsKeyed ((key, b) ∷ rest) =
    (key ≡ key_of b) × (utc_day b.day ≡ b.day) × (lookup key rest ≡ none) × IsKeyed rest

pub visits_in-record_visit :
    (link_id : Text) (now : ℕ) (c : VisitCounter) (k : VisitKey)
    → length c.buckets < c.max_buckets
    → visits_in k c.buckets + weight (key_at link_id now) k 1 ≤ max_int64
    → visits_in k (record_visit link_id now c).buckets
      ≡ visits_in k c.buckets + weight (key_at link_id now) k 1
unfolding record_visit
visits_in-record_visit link_id now c k room low = ground (
  arith,
  lookup-insert (key_at link_id now) k
      (raise link_id (utc_day (some now))
        (if ltb (visits_in (key_at link_id now) c.buckets) max_int64
          then suc (visits_in (key_at link_id now) c.buckets)
          else visits_in (key_at link_id now) c.buckets)
        (some now) (bucket_or_zero (lookup (key_at link_id now) c.buckets)))
      c.buckets,
  visit_key_eq_iff (key_at link_id now) k,
)

pub visits_in-restore_bucket :
    (b : VisitBucket) (c : VisitCounter) (k : VisitKey)
    → length c.buckets < c.max_buckets
    → visits_in k c.buckets + weight (key_of b) k b.visits ≤ max_int64
    → visits_in k (restore_bucket b c).buckets
      ≡ visits_in k c.buckets + weight (key_of b) k b.visits
unfolding restore_bucket
visits_in-restore_bucket b c k room low = ground (
  arith,
  lookup-insert (key_of b) k
      (raise b.link_id (utc_day b.day) (saturating (visits_in (key_of b) c.buckets) b.visits)
        b.last_visited_at (bucket_or_zero (lookup (key_of b) c.buckets)))
      c.buckets,
  visit_key_eq_iff (key_of b) k,
)

length-record_visit :
    (link_id : Text) (now : ℕ) (c : VisitCounter)
    → (length (record_visit link_id now c).buckets ≤ suc (length c.buckets))
      × ((record_visit link_id now c).max_buckets ≡ c.max_buckets)
unfolding record_visit
length-record_visit link_id now c =
    let longer =
      length-insert (key_at link_id now)
        (raise link_id (utc_day (some now))
          (if ltb (visits_in (key_at link_id now) c.buckets) max_int64
            then suc (visits_in (key_at link_id now) c.buckets)
            else visits_in (key_at link_id now) c.buckets)
          (some now) (bucket_or_zero (lookup (key_at link_id now) c.buckets)))
        c.buckets in
    (ground (arith, longer), ground arith)

length-restore_bucket :
    (b : VisitBucket) (c : VisitCounter)
    → (length (restore_bucket b c).buckets ≤ suc (length c.buckets))
      × ((restore_bucket b c).max_buckets ≡ c.max_buckets)
unfolding restore_bucket
length-restore_bucket b c =
    let longer =
      length-insert (key_of b)
        (raise b.link_id (utc_day b.day) (saturating (visits_in (key_of b) c.buckets) b.visits)
          b.last_visited_at (bucket_or_zero (lookup (key_of b) c.buckets)))
        c.buckets in
    (ground (arith, longer), ground arith)

pub length-record_all :
    (visits : List (Text × ℕ)) (c : VisitCounter)
    → (length (record_all visits c).buckets ≤ length c.buckets + length visits)
      × ((record_all visits c).max_buckets ≡ c.max_buckets)
unfolding record_all
length-record_all [] c = (omega arith, refl)
length-record_all ((link_id, now) ∷ rest) c =
    let (longer, same) = length-record_visit link_id now c in
    let (longest, same_max) = length-record_all rest (record_visit link_id now c) in
    (omega arith, same_max ∙ same)

pub visits_in-record_all :
    (visits : List (Text × ℕ)) (c : VisitCounter) (k : VisitKey)
    → length c.buckets + length visits ≤ c.max_buckets
    → visits_in k c.buckets + visits_among k visits ≤ max_int64
    → visits_in k (record_all visits c).buckets ≡ visits_in k c.buckets + visits_among k visits
unfolding record_all visits_among
visits_in-record_all [] c k room low = omega arith
visits_in-record_all ((link_id, now) ∷ rest) c k room low =
    let (longer, same) = length-record_visit link_id now c in
    let one = visits_in-record_visit link_id now c k (omega arith) (omega arith) in
    let others =
      visits_in-record_all rest (record_visit link_id now c) k (omega arith) (omega arith) in
    omega arith

pub visits_in-restore :
    (bs : List VisitBucket) (c : VisitCounter) (k : VisitKey)
    → length c.buckets + length bs ≤ c.max_buckets
    → visits_in k c.buckets + bucket_visits k bs ≤ max_int64
    → visits_in k (restore bs c).buckets ≡ visits_in k c.buckets + bucket_visits k bs
unfolding restore bucket_visits
visits_in-restore [] c k room low = omega arith
visits_in-restore (b ∷ rest) c k room low =
    let (longer, same) = length-restore_bucket b c in
    let one = visits_in-restore_bucket b c k (omega arith) (omega arith) in
    let others = visits_in-restore rest (restore_bucket b c) k (omega arith) (omega arith) in
    omega arith

pub length-restore :
    (bs : List VisitBucket) (c : VisitCounter)
    → (length (restore bs c).buckets ≤ length c.buckets + length bs)
      × ((restore bs c).max_buckets ≡ c.max_buckets)
unfolding restore
length-restore [] c = (omega arith, refl)
length-restore (b ∷ rest) c =
    let (longer, same) = length-restore_bucket b c in
    let (longest, same_max) = length-restore rest (restore_bucket b c) in
    (omega arith, same_max ∙ same)
