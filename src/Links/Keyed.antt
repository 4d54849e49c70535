-- ===== src/Links/Keyed.antt =====
-- internal/shortlink/service.go: the keys of the counter's map are those of its buckets.
use wispdeck.Prelude.{
  ℕ, suc, ◌≡◌, refl, sym, ap, subst, arith, ◌==◌, if◌then◌else◌, Text, List, [], ◌∷◌, Option, none,
  some, Assoc, lookup, insert, Bool-cases, lookup-insert, ltb, inl, inr,
}
use wispdeck.Links.Types.{VisitBucket, max_int64}
use wispdeck.Links.Visits.{
  visit_key_comparable, VisitKey, VisitCounter, visit_key_eq_iff, utc_day, unix_of, bucket_or_zero,
  raise, saturating, record_visit, restore, restore_bucket, buckets_of,
}
use wispdeck.Links.Service.{record_all}
use wispdeck.Links.Counting.{key_at, key_of, visits_in, bucket_visits, IsKeyed}

utc_day-idempotent : (t : Option ℕ) → utc_day (utc_day t) ≡ utc_day t
utc_day-idempotent none = refl
utc_day-idempotent (some t) = ap some (omega arith)

insert-IsKeyed :
    (key : VisitKey) (b : VisitBucket) (m : Assoc VisitKey VisitBucket)
    → key ≡ key_of b
    → utc_day b.day ≡ b.day
    → IsKeyed m
    → IsKeyed (insert key b m)
unfolding IsKeyed insert lookup
insert-IsKeyed key b [] own midnight keyed = (own, midnight, refl, tt)
insert-IsKeyed key b ((other, v) ∷ rest) own midnight (own', midnight', fresh, keyed) =
    elim (Bool-cases (other == key)) [
      | inl same ↦
          let equal : other ≡ key = (visit_key_eq_iff other key).0 same in
          let absent : lookup key rest ≡ none = subst (λ k. lookup k rest ≡ none) equal fresh in
          rw same (own, midnight, absent, keyed)
      | inr differs ↦
          let absent : lookup other (insert key b rest) ≡ none = ground (
            arith,
            lookup-insert key other b rest,
            fresh,
            visit_key_eq_iff other key,
            visit_key_eq_iff key other,
          ) in
          rw differs (own', midnight', absent, insert-IsKeyed key b rest own midnight keyed)
    ]

pub record_visit-IsKeyed :
    (link_id : Text) (now : ℕ) (c : VisitCounter)
    → IsKeyed c.buckets
    → IsKeyed (record_visit link_id now c).buckets
unfolding record_visit
record_visit-IsKeyed link_id now c keyed =
    let kept =
      insert-IsKeyed (key_at link_id now)
        (raise link_id (utc_day (some now))
          (if ltb (visits_in (key_at link_id now) c.buckets) max_int64
            then suc (visits_in (key_at link_id now) c.buckets)
            else visits_in (key_at link_id now) c.buckets)
          (some now) (bucket_or_zero (lookup (key_at link_id now) c.buckets)))
        c.buckets
        (ap (λ (d : Option ℕ). record { link_id = link_id; day = unix_of d })
          (sym (utc_day-idempotent (some now))))
        (utc_day-idempotent (some now)) keyed in
    ground (arith, kept)

pub restore_bucket-IsKeyed :
    (b : VisitBucket) (c : VisitCounter) → IsKeyed c.buckets → IsKeyed (restore_bucket b c).buckets
unfolding restore_bucket
restore_bucket-IsKeyed b c keyed =
    let kept =
      insert-IsKeyed (key_of b)
        (raise b.link_id (utc_day b.day) (saturating (visits_in (key_of b) c.buckets) b.visits)
          b.last_visited_at (bucket_or_zero (lookup (key_of b) c.buckets)))
        c.buckets
        (ap (λ (d : Option ℕ). record { link_id = b.link_id; day = unix_of d })
          (sym (utc_day-idempotent b.day)))
        (utc_day-idempotent b.day) keyed in
    ground (arith, kept)

bucket_visits-absent :
    (k : VisitKey) (m : Assoc VisitKey VisitBucket)
    → IsKeyed m
    → lookup k m ≡ none
    → bucket_visits k (buckets_of m) ≡ 0
unfolding IsKeyed bucket_visits lookup
bucket_visits-absent k [] keyed absent = refl
bucket_visits-absent k ((key, b) ∷ rest) (own, midnight, fresh, keyed) absent =
    ground (arith, own, bucket_visits-absent k rest keyed)

pub bucket_visits-buckets_of :
    (k : VisitKey) (m : Assoc VisitKey VisitBucket)
    → IsKeyed m
    → bucket_visits k (buckets_of m) ≡ visits_in k m
unfolding IsKeyed bucket_visits lookup
bucket_visits-buckets_of k [] keyed = refl
bucket_visits-buckets_of k ((key, b) ∷ rest) (own, midnight, fresh, keyed) = ground (
  arith,
  own,
  visit_key_eq_iff key k,
  bucket_visits-absent k rest keyed,
  bucket_visits-buckets_of k rest keyed,
)

pub record_all-IsKeyed :
    (visits : List (Text × ℕ)) (c : VisitCounter)
    → IsKeyed c.buckets
    → IsKeyed (record_all visits c).buckets
unfolding record_all
record_all-IsKeyed [] c keyed = keyed
record_all-IsKeyed ((link_id, now) ∷ rest) c keyed =
    record_all-IsKeyed rest (record_visit link_id now c) (record_visit-IsKeyed link_id now c keyed)

pub restore-IsKeyed :
    (bs : List VisitBucket) (c : VisitCounter) → IsKeyed c.buckets → IsKeyed (restore bs c).buckets
unfolding restore
restore-IsKeyed [] c keyed = keyed
restore-IsKeyed (b ∷ rest) c keyed =
    restore-IsKeyed rest (restore_bucket b c) (restore_bucket-IsKeyed b c keyed)
