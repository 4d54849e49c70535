-- ===== src/Wispist/Limiter.antt =====
-- wispist/limit.go: the token buckets and the stream counts of the request limiter. float64 and
-- what math does on it are a record of functions; the results do not depend on any law of theirs.
-- The mutex makes each call one step. Instants and durations are nanoseconds.
pub mod Buckets
pub mod Counts
pub mod Streams
use wispdeck.Prelude.{
  ℕ, ◌+◌, ◌-◌, ◌*◌, ◌≤◌, ◌≡◌, ◌↔◌, arith, Bool, true, false, not, ◌&&◌, ◌||◌, ◌==◌, Text, List, [],
  ◌∷◌, ◌++◌, Option, none, some, length, ltb, leb, if◌then◌else◌, text_comparable, ℕ_comparable,
  Comparable, Assoc, lookup, insert, delete, delete_if, is_some,
}
use wispdeck.Prelude.Int.{ℤ, pos, ltb_ℤ, ◌+ℤ◌, ◌-ℤ◌, int_comparable}
use wispdeck.Wispist.Limits.{RateLimits}
use wispdeck.Wispist.Authorization.{Binding}

pub record BucketKey : Type 0 where
  pub kind : ℕ
  pub store : Text
  pub client : Text

unfoldable pub bucket_key_eq : BucketKey → BucketKey → Bool
bucket_key_eq a b = a.kind == b.kind && a.store == b.store && a.client == b.client

-- `float64`: of an int, the arithmetic, `<`, `math.Min`, `Duration.Seconds` and
-- `time.Duration(math.Ceil(x))`.
pub record Floats : Type 1 where
  pub Float : Type 0
  pub of_int : ℤ → Float
  pub plus : Float → Float → Float
  pub minus : Float → Float → Float
  pub times : Float → Float → Float
  pub over : Float → Float → Float
  pub less : Float → Float → Bool
  pub min : Float → Float → Float
  pub seconds : ℕ → Float
  pub ceil : Float → ℤ

pub bucket_key_eq_iff : (a b : BucketKey) → (bucket_key_eq a b ≡ true) ↔ (a ≡ b)
unfolding bucket_key_eq
bucket_key_eq_iff a b = ground (
  arith,
  text_comparable.equals_iff a.store b.store,
  text_comparable.equals_iff a.client b.client,
)

instance abbrev pub bucket_key_comparable : Comparable BucketKey
bucket_key_comparable = record { equals = bucket_key_eq; equals_iff = bucket_key_eq_iff }

module _ (floats : Floats) where
  pub record TokenBucket : Type 0 where
    pub tokens : floats.Float
    pub updated : ℕ
    pub used : ℕ

  pub record BucketRequest : Type 0 where
    pub key : BucketKey
    pub per_second : floats.Float
    pub burst : floats.Float

  -- `last_prune` is the zero time at first.
  pub record RequestLimiter : Type 0 where
    pub limits : RateLimits
    pub buckets : Assoc BucketKey TokenBucket
    pub site_streams : Assoc Text ℤ
    pub client_streams : Assoc BucketKey ℤ
    pub last_prune : Option ℕ

  unfoldable pub new_request_limiter : RateLimits → RequestLimiter
  new_request_limiter limits = record {
    limits = limits;
    buckets = [];
    site_streams = [];
    client_streams = [];
    last_prune = none;
  }

  abbrev per_minute : ℤ → floats.Float
  per_minute n = floats.over (floats.of_int n) (floats.of_int (pos 60))

  -- The buckets that a request takes a token from.
  unfoldable pub bucket_requests : RateLimits → Binding → Bool → Bool → List BucketRequest
  bucket_requests limits binding mutation generated =
      let installation : BucketRequest = record {
        key = record { kind = 1; store = []; client = [] };
        per_second = per_minute limits.installation_requests_minute;
        burst = floats.of_int limits.installation_request_burst;
      } in
      let client_mutations : BucketRequest = record {
        key = record { kind = 3; store = binding.store_key; client = binding.client_key };
        per_second = per_minute limits.mutations_per_minute;
        burst = floats.of_int limits.mutation_burst;
      } in
      let site_mutations : BucketRequest = record {
        key = record { kind = 4; store = binding.store_key; client = [] };
        per_second = per_minute limits.site_mutations_per_minute;
        burst = floats.of_int limits.site_mutation_burst;
      } in
      let reads : BucketRequest = record {
        key = record { kind = 2; store = binding.store_key; client = binding.client_key };
        per_second = per_minute limits.reads_per_minute;
        burst = floats.of_int limits.read_burst;
      } in
      let documents : BucketRequest = record {
        key = record { kind = 5; store = binding.store_key; client = [] };
        per_second =
            floats.over (floats.of_int limits.generated_documents_per_day)
              (floats.of_int (pos (24 * 60 * 60)));
        burst = floats.of_int limits.generated_document_burst;
      } in
      installation ∷ (if mutation then client_mutations ∷ site_mutations ∷ [] else reads ∷ [])
      ++ (if generated then documents ∷ [] else [])

  -- `now.Sub(bucket.used) >= l.limits.BucketIdleTime`
  unfoldable pub is_idle : ℕ → RateLimits → BucketKey → TokenBucket → Bool
  is_idle now limits key bucket = not (ltb_ℤ (pos now) (pos bucket.used +ℤ limits.bucket_idle_time))

  -- `pruneLocked`
  unfoldable pub prune_locked : ℕ → RequestLimiter → RequestLimiter
  prune_locked now l =
      let recent : Bool = elim l.last_prune [
        | none ↦ false
        | some last ↦ ltb now (last + 60000000000)
      ] in
      if recent && ltb_ℤ (pos (length l.buckets)) l.limits.max_buckets
      then l
      else record l { buckets = delete_if (is_idle now l.limits) l.buckets; last_prune = some now }

  unfoldable pub refill_bucket : BucketRequest → ℕ → TokenBucket → TokenBucket
  refill_bucket request now bucket =
      if ltb bucket.updated now
      then record bucket {
        tokens = floats.min request.burst (
            floats.plus bucket.tokens
              (floats.times (floats.seconds (now - bucket.updated)) request.per_second));
        updated = now;
      }
      else bucket

  unfoldable pub missing : Assoc BucketKey TokenBucket → List BucketRequest → ℕ
  missing buckets [] = 0
  missing buckets (request ∷ rest) =
      let others = missing buckets rest in
      if is_some (lookup request.key buckets) then others else 1 + others

  -- The wait that one bucket asks for.
  unfoldable pub needed : BucketRequest → TokenBucket → ℤ → ℤ
  needed request bucket wait =
      let one = floats.of_int (pos 1) in
      let asked = floats.ceil (
        floats.times (floats.over (floats.minus one bucket.tokens) request.per_second)
          (floats.of_int (pos 1000000000))) in
      if floats.less bucket.tokens one && ltb_ℤ wait asked then asked else wait

  -- The loop that refills the buckets there are and finds the wait.
  unfoldable pub refill_all :
      ℕ → List BucketRequest → Assoc BucketKey TokenBucket → ℤ → Assoc BucketKey TokenBucket × ℤ
  refill_all now [] buckets wait = (buckets, wait)
  refill_all now (request ∷ rest) buckets wait = elim (lookup request.key buckets) [
    | none ↦ refill_all now rest buckets wait
    | some bucket ↦
        let bucket' = refill_bucket request now bucket in
        refill_all now rest (insert request.key bucket' buckets) (needed request bucket' wait)
  ]

  unfoldable pub bucket_or_full : BucketRequest → ℕ → Option TokenBucket → TokenBucket
  bucket_or_full request now none = record { tokens = request.burst; updated = now; used = 0 }
  bucket_or_full request now (some bucket) = bucket

  unfoldable pub take_token : BucketRequest → ℕ → TokenBucket → TokenBucket
  take_token request now bucket =
      let refilled = refill_bucket request now bucket in
      record refilled { tokens = floats.minus refilled.tokens (floats.of_int (pos 1)); used = now }

  -- The loop that takes the tokens.
  unfoldable pub take_all :
      ℕ → List BucketRequest → Assoc BucketKey TokenBucket → Assoc BucketKey TokenBucket
  take_all now [] buckets = buckets
  take_all now (request ∷ rest) buckets = take_all now rest (
      insert request.key
        (take_token request now (bucket_or_full request now (lookup request.key buckets))) buckets)

  -- `allow`: the limiter, the verdict and the time to wait.
  unfoldable pub allow : Binding → Bool → Bool → ℕ → RequestLimiter → RequestLimiter × Bool × ℤ
  allow binding mutation generated now limiter =
      let l = prune_locked now limiter in
      let requests = bucket_requests l.limits binding mutation generated in
      let (refilled, wait) = refill_all now requests l.buckets (pos 0) in
      let absent = missing l.buckets requests in
      if ltb_ℤ l.limits.max_buckets (pos (length l.buckets + absent))
      then (l, false, pos 1000000000)
      else if ltb_ℤ (pos 0) wait
      then (record l { buckets = refilled }, false, wait)
      else (record l { buckets = take_all now requests refilled }, true, pos 0)

  abbrev pub count : {K : Type 0} ⦃comparable : Comparable K⦄ → K → Assoc K ℤ → ℤ
  count key streams = elim (lookup key streams) [ none ↦ pos 0 | some n ↦ n ]

  -- `m[k]--`, and a `delete` where that leaves 0.
  unfoldable pub drop_one : {K : Type 0} ⦃comparable : Comparable K⦄ → K → Assoc K ℤ → Assoc K ℤ
  drop_one key streams =
      let n = count key streams -ℤ pos 1 in
      if n == pos 0 then delete key (insert key n streams) else insert key n streams

  abbrev pub stream_key : Binding → BucketKey
  stream_key binding = record { kind = 6; store = binding.store_key; client = binding.client_key }

  -- `acquireStream`
  unfoldable pub acquire_stream : Binding → RequestLimiter → Option RequestLimiter
  acquire_stream binding l =
      if not (ltb_ℤ (count binding.store_key l.site_streams) l.limits.sse_per_site)
        || not (ltb_ℤ (count (stream_key binding) l.client_streams) l.limits.sse_per_client_site)
      then none
      else some (record l {
        site_streams =
            insert binding.store_key (count binding.store_key l.site_streams +ℤ pos 1)
              l.site_streams;
        client_streams =
            insert (stream_key binding) (count (stream_key binding) l.client_streams +ℤ pos 1)
              l.client_streams;
      })

  -- The function that `acquireStream` returns, when it is called first; `once` makes a later call
  -- do nothing.
  unfoldable pub release_stream : Binding → RequestLimiter → RequestLimiter
  release_stream binding l = record l {
    site_streams = drop_one binding.store_key l.site_streams;
    client_streams = drop_one (stream_key binding) l.client_streams;
  }
