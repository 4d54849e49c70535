-- ===== src/Wispist/Limiter/Buckets.antt =====
-- wispist/limit.go: the number of buckets.
use wispdeck.Prelude.{
  ℕ, ◌+◌, ◌≤◌, ◌≡◌, inl, inr, refl, arith, Bool, List, [], ◌∷◌, length, Assoc, lookup, insert,
  length-insert, lookup-insert, Option-cases, length-delete_if,
}
use wispdeck.Prelude.Int.{ℤ, pos, ◌≤ℤ◌, ltb_ℤ-false}
use wispdeck.Wispist.Authorization.{Binding}
use wispdeck.Wispist.Limiter.{
  BucketKey, bucket_key_comparable, Floats, TokenBucket, BucketRequest, RequestLimiter,
  bucket_requests, is_idle, prune_locked, refill_bucket, missing, needed, refill_all,
  bucket_or_full, take_token, take_all, allow,
}

module _ (floats : Floats) where
  missing-insert :
      (key : BucketKey) (bucket : TokenBucket floats)
      (buckets : Assoc BucketKey (TokenBucket floats))
      → (requests : List (BucketRequest floats))
      → missing floats (insert key bucket buckets) requests ≤ missing floats buckets requests
  unfolding missing
  missing-insert key bucket buckets [] = omega arith
  missing-insert key bucket buckets (request ∷ rest) =
      ground (
        arith,
        missing-insert key bucket buckets rest,
        lookup-insert key request.key bucket buckets,
      )

  length-take_all :
      (now : ℕ) (requests : List (BucketRequest floats))
      (buckets : Assoc BucketKey (TokenBucket floats))
      → length (take_all floats now requests buckets)
        ≤ length buckets + missing floats buckets requests
  unfolding take_all missing
  length-take_all now [] buckets = omega arith
  length-take_all now (request ∷ rest) buckets =
      let bucket =
        take_token floats request now
          (bucket_or_full floats request now (lookup request.key buckets)) in
      ground (
        arith,
        length-take_all now rest (insert request.key bucket buckets),
        length-insert request.key bucket buckets,
        missing-insert request.key bucket buckets rest,
      )

  length-refill_all :
      (now : ℕ) (requests : List (BucketRequest floats))
      (buckets : Assoc BucketKey (TokenBucket floats)) (wait : ℤ)
      → (length (refill_all floats now requests buckets wait).0 ≡ length buckets)
  unfolding refill_all
  length-refill_all now [] buckets wait = refl
  length-refill_all now (request ∷ rest) buckets wait =
      elim (Option-cases (lookup request.key buckets)) [
        | inl absent ↦ rw (absent, length, refill_all) (length-refill_all now rest buckets wait)
        | inr (bucket, found) ↦
            let bucket' = refill_bucket floats request now bucket in
            rw (found, length, refill_all)
              (ground (
                arith,
                length-refill_all now rest (insert request.key bucket' buckets)
                    (needed floats request bucket' wait),
                length-insert request.key bucket' buckets,
              ))
      ]

  missing-refill_all :
      (now : ℕ) (requests : List (BucketRequest floats))
      (buckets : Assoc BucketKey (TokenBucket floats)) (wait : ℤ)
      → (others : List (BucketRequest floats))
      → missing floats (refill_all floats now requests buckets wait).0 others
        ≤ missing floats buckets others
  unfolding refill_all
  missing-refill_all now [] buckets wait others = omega arith
  missing-refill_all now (request ∷ rest) buckets wait others =
      elim (Option-cases (lookup request.key buckets)) [
        | inl absent ↦ rw (absent, refill_all) (missing-refill_all now rest buckets wait others)
        | inr (bucket, found) ↦
            let bucket' = refill_bucket floats request now bucket in
            rw (found, refill_all)
              (ground (
                arith,
                missing-refill_all now rest (insert request.key bucket' buckets)
                    (needed floats request bucket' wait) others,
                missing-insert request.key bucket' buckets others,
              ))
      ]

  prune_locked-limits :
      (now : ℕ) (l : RequestLimiter floats) → (prune_locked floats now l).limits ≡ l.limits
  unfolding prune_locked
  prune_locked-limits now l = ground arith

  length-prune_locked :
      (now : ℕ) (l : RequestLimiter floats)
      → length (prune_locked floats now l).buckets ≤ length l.buckets
  unfolding prune_locked
  length-prune_locked now l =
      ground (arith, length-delete_if (is_idle floats now l.limits) l.buckets)

  -- `allow` keeps the number of buckets within `MaxBuckets`, and keeps the limits.
  pub allow-within_buckets :
      (binding : Binding)
      → (mutation generated : Bool) → (now : ℕ) → (l : RequestLimiter floats)
      → pos (length l.buckets) ≤ℤ l.limits.max_buckets
      → let l' = (allow floats binding mutation generated now l).0 in
        (pos (length l'.buckets) ≤ℤ l.limits.max_buckets) × (l'.limits ≡ l.limits)
  unfolding allow
  allow-within_buckets binding mutation generated now l bounded =
      let m = prune_locked floats now l in
      let requests = bucket_requests floats m.limits binding mutation generated in
      let refilled = (refill_all floats now requests m.buckets (pos 0)).0 in
      ground (
        arith,
        prune_locked-limits now l,
        length-prune_locked now l,
        length-refill_all now requests m.buckets (pos 0),
        missing-refill_all now requests m.buckets (pos 0) requests,
        length-take_all now requests refilled,
        ltb_ℤ-false m.limits.max_buckets
            (pos (length m.buckets + missing floats m.buckets requests)),
      )
