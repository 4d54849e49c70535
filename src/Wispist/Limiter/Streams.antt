-- ===== src/Wispist/Limiter/Streams.antt =====
-- wispist/limit.go: the stream counts and the streams that are held.
use wispdeck.Prelude.{
  ℕ, zero, suc, ◌≡◌, inl, inr, refl, ap, sym, subst, arith, true, Text, text_comparable, List, [],
  ◌∷◌, none, some, lookup, insert, Option-cases,
}
use wispdeck.Prelude.Int.{pos, ltb_ℤ, ◌+ℤ◌, ◌≤ℤ◌, int_comparable}
use wispdeck.Wispist.Limits.{RateLimits}
use wispdeck.Wispist.Authorization.{Binding}
use wispdeck.Wispist.Limiter.{
  BucketKey, bucket_key_comparable, Floats, RequestLimiter, new_request_limiter, count, drop_one,
  stream_key, acquire_stream, release_stream,
}
use wispdeck.Wispist.Limiter.Counts.{
  held_count, remove_at, item_at, IsCount, IsCount-acquire, limit-acquire, IsCount-release,
  limit-release,
}

-- The sites and the clients of the held streams.
abbrev pub sites : List Binding → List Text
sites [] = []
sites (b ∷ held) = b.store_key ∷ sites held

sites-remove_at :
    (n : ℕ) (held : List Binding) → sites (remove_at n held) ≡ remove_at n (sites held)
unfolding remove_at
sites-remove_at n [] = refl
sites-remove_at zero (b ∷ held) = refl
sites-remove_at (suc n) (b ∷ held) = ap (λ s. b.store_key ∷ s) (sites-remove_at n held)

sites-item_at :
    (n : ℕ) (held : List Binding) {b : Binding}
    → item_at n held ≡ some b
    → item_at n (sites held) ≡ some b.store_key
unfolding item_at
sites-item_at n [] found = ground arith
sites-item_at zero (b ∷ held) found = ground arith
sites-item_at (suc n) (b ∷ held) {b = c} found = sites-item_at n held {b = c} found

module _ (floats : Floats) where
  abbrev pub clients : List Binding → List BucketKey
  clients [] = []
  clients (b ∷ held) = stream_key floats b ∷ clients held

  clients-remove_at :
      (n : ℕ) (held : List Binding) → clients (remove_at n held) ≡ remove_at n (clients held)
  unfolding remove_at
  clients-remove_at n [] = refl
  clients-remove_at zero (b ∷ held) = refl
  clients-remove_at (suc n) (b ∷ held) =
      ap (λ s. stream_key floats b ∷ s) (clients-remove_at n held)

  clients-item_at :
      (n : ℕ) (held : List Binding) {b : Binding}
      → item_at n held ≡ some b
      → item_at n (clients held) ≡ some (stream_key floats b)
  unfolding item_at
  clients-item_at n [] found = ground arith
  clients-item_at zero (b ∷ held) found = ground arith
  clients-item_at (suc n) (b ∷ held) {b = c} found = clients-item_at n held {b = c} found

  -- The counts are those of the held streams, and within the limits.
  pub record IsCounted (l : RequestLimiter floats) (held : List Binding) : Type 0 where
    pub by_site : IsCount floats l.site_streams (sites held)
    pub by_client : IsCount floats l.client_streams (clients held)
    pub site_limit : (site : Text) → pos (held_count site (sites held)) ≤ℤ l.limits.sse_per_site
    pub client_limit :
        (client : BucketKey)
        → pos (held_count client (clients held)) ≤ℤ l.limits.sse_per_client_site

  release_stream-IsCounted :
      (n : ℕ) (binding : Binding) (l : RequestLimiter floats) (held : List Binding)
      → item_at n held ≡ some binding
      → IsCounted l held
      → IsCounted (release_stream floats binding l) (remove_at n held)
  unfolding release_stream
  release_stream-IsCounted n binding l held found counted =
      let site_found = sites-item_at n held {b = binding} found in
      let client_found = clients-item_at n held {b = binding} found in
      record {
        by_site =
            subst (IsCount floats (drop_one floats binding.store_key l.site_streams))
              (sym (sites-remove_at n held))
              (IsCount-release floats n binding.store_key l.site_streams (sites held) site_found
                counted.by_site);
        by_client =
            subst (IsCount floats (drop_one floats (stream_key floats binding) l.client_streams))
              (sym (clients-remove_at n held))
              (IsCount-release floats n (stream_key floats binding) l.client_streams (clients held)
                client_found counted.by_client);
        site_limit = λ site. rw (sites-remove_at n held) (
            limit-release floats l.limits.sse_per_site n binding.store_key site (sites held)
              site_found (counted.site_limit site));
        client_limit = λ client. rw (clients-remove_at n held) (
            limit-release floats l.limits.sse_per_client_site n (stream_key floats binding) client
              (clients held) client_found (counted.client_limit client));
      }

  -- The limiter after a stream that it grants.
  abbrev granted : Binding → RequestLimiter floats → RequestLimiter floats
  granted binding l = record l {
    site_streams =
        insert binding.store_key (count floats binding.store_key l.site_streams +ℤ pos 1)
          l.site_streams;
    client_streams =
        insert (stream_key floats binding)
          (count floats (stream_key floats binding) l.client_streams +ℤ pos 1) l.client_streams;
  }

  acquire_stream-granted :
      (binding : Binding) (l : RequestLimiter floats) {l' : RequestLimiter floats}
      → acquire_stream floats binding l ≡ some l'
      → (granted binding l ≡ l')
        × (ltb_ℤ (count floats binding.store_key l.site_streams) l.limits.sse_per_site ≡ true)
        × (ltb_ℤ
              (count floats (stream_key floats binding) l.client_streams)
              l.limits.sse_per_client_site
            ≡ true)
  unfolding acquire_stream
  acquire_stream-granted binding l acquired = (ground arith, ground arith, ground arith)

  acquire_stream-IsCounted :
      (binding : Binding) (l : RequestLimiter floats) (held : List Binding)
      {l' : RequestLimiter floats}
      → IsCounted l held
      → acquire_stream floats binding l ≡ some l'
      → IsCounted l' (binding ∷ held)
  acquire_stream-IsCounted binding l held {l'} counted acquired =
      let (same, site_free, client_free) = acquire_stream-granted binding l {l' = l'} acquired in
      subst (λ x. IsCounted x (binding ∷ held)) same
        (record {
          by_site =
              IsCount-acquire floats binding.store_key l.site_streams (sites held) counted.by_site;
          by_client =
              IsCount-acquire floats (stream_key floats binding) l.client_streams (clients held)
                counted.by_client;
          site_limit = λ site.
              limit-acquire floats l.limits.sse_per_site binding.store_key site l.site_streams
                (sites held) counted.by_site site_free (counted.site_limit site);
          client_limit = λ client.
              limit-acquire floats l.limits.sse_per_client_site (stream_key floats binding) client
                l.client_streams (clients held) counted.by_client client_free
                (counted.client_limit client);
        })

  -- A client asks for a stream, or ends one that it holds.
  pub data StreamCall : Type 0 where
    call_acquire : Binding → StreamCall
    call_release : ℕ → StreamCall

  unfoldable pub stream_step :
      StreamCall → RequestLimiter floats × List Binding → RequestLimiter floats × List Binding
  stream_step (call_acquire binding) (l, held) = elim (acquire_stream floats binding l) [
    | none ↦ (l, held)
    | some l' ↦ (l', binding ∷ held)
  ]
  stream_step (call_release n) (l, held) = elim (item_at n held) [
    | none ↦ (l, held)
    | some binding ↦ (release_stream floats binding l, remove_at n held)
  ]

  unfoldable pub stream_run :
      List StreamCall → RequestLimiter floats × List Binding → RequestLimiter floats × List Binding
  stream_run [] state = state
  stream_run (call ∷ calls) state = stream_run calls (stream_step call state)

  stream_step-IsCounted :
      (call : StreamCall) (l : RequestLimiter floats) (held : List Binding)
      → IsCounted l held
      → IsCounted (stream_step call (l, held)).0 (stream_step call (l, held)).1
  unfolding stream_step
  stream_step-IsCounted (call_acquire binding) l held counted =
      elim (Option-cases (acquire_stream floats binding l)) [
        | inl refused ↦ rw (refused, stream_step) counted
        | inr (l', acquired) ↦
            rw (acquired, stream_step)
              (acquire_stream-IsCounted binding l held {l' = l'} counted acquired)
      ]
  stream_step-IsCounted (call_release n) l held counted = elim (Option-cases (item_at n held)) [
    | inl absent ↦ rw (absent, stream_step) counted
    | inr (binding, found) ↦
        rw (found, stream_step) (release_stream-IsCounted n binding l held found counted)
  ]

  stream_run-IsCounted :
      (calls : List StreamCall) (l : RequestLimiter floats) (held : List Binding)
      → IsCounted l held
      → IsCounted (stream_run calls (l, held)).0 (stream_run calls (l, held)).1
  unfolding stream_run
  stream_run-IsCounted [] l held counted = counted
  stream_run-IsCounted (call ∷ calls) l held counted =
      let (l', held') = stream_step call (l, held) in
      stream_run-IsCounted calls l' held' (stream_step-IsCounted call l held counted)

  new_request_limiter-IsCounted :
      (limits : RateLimits)
      → pos 0 ≤ℤ limits.sse_per_site
      → pos 0 ≤ℤ limits.sse_per_client_site
      → IsCounted (new_request_limiter floats limits) []
  unfolding new_request_limiter held_count lookup
  new_request_limiter-IsCounted limits by_site by_client = record {
    by_site = λ site. refl;
    by_client = λ client. refl;
    site_limit = λ site. by_site;
    client_limit = λ client. by_client;
  }

  -- From a new limiter whose stream limits are not negative, whatever streams are asked for and
  -- ended, in any order: the counts are those of the streams that are held, and by site and by
  -- client they are within the limits.
  pub stream_run-new_request_limiter :
      (limits : RateLimits)
      → (calls : List StreamCall) → pos 0 ≤ℤ limits.sse_per_site
      → pos 0 ≤ℤ limits.sse_per_client_site
      → let (l, held) = stream_run calls (new_request_limiter floats limits, []) in IsCounted l held
  stream_run-new_request_limiter limits calls by_site by_client =
      stream_run-IsCounted calls (new_request_limiter floats limits) []
        (new_request_limiter-IsCounted limits by_site by_client)
