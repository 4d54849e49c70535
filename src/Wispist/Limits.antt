-- ===== src/Wispist/Limits.antt =====
-- wispist/types.go and wispist/engine.go: the limits of an engine, and how a configuration is
-- completed and refused. A Go int is an integer; the error is `none`.
pub mod Normal
use wispdeck.Prelude.{
  ◌+◌, ◌*◌, ◌^◌, Bool, true, false, not, ◌&&◌, ◌||◌, ◌==◌, Option, none, some, if◌then◌else◌,
}
use wispdeck.Prelude.Int.{ℤ, pos, negsuc, ltb_ℤ, or_default, int_comparable}

pub record Limits : Type 0 where
  pub max_collections : ℤ
  pub max_documents : ℤ
  pub max_document_bytes : ℤ
  pub max_namespace_bytes : ℤ
  pub max_draft_namespace_bytes : ℤ
  pub default_list_limit : ℤ
  pub max_list_limit : ℤ
  pub max_subscribed_collections : ℤ
  pub max_request_envelope_bytes : ℤ
  pub max_idempotency_records : ℤ
  pub change_retention_entries : ℤ
  pub change_retention_age : ℤ
  pub idempotency_retention : ℤ
  pub sse_queue_size : ℤ
  pub sse_heartbeat : ℤ

-- `Limits{}`
abbrev pub zero_limits : Limits
zero_limits = record {
  max_collections = pos 0;
  max_documents = pos 0;
  max_document_bytes = pos 0;
  max_namespace_bytes = pos 0;
  max_draft_namespace_bytes = pos 0;
  default_list_limit = pos 0;
  max_list_limit = pos 0;
  max_subscribed_collections = pos 0;
  max_request_envelope_bytes = pos 0;
  max_idempotency_records = pos 0;
  change_retention_entries = pos 0;
  change_retention_age = pos 0;
  idempotency_retention = pos 0;
  sse_queue_size = pos 0;
  sse_heartbeat = pos 0;
}

-- `DefaultLimits`
abbrev pub default_limits : Limits
default_limits = record {
  max_collections = pos (32);
  max_documents = pos (1000);
  max_document_bytes = pos (32 * 2 ^ 10);
  max_namespace_bytes = pos (10 * 2 ^ 20);
  max_draft_namespace_bytes = pos (5 * 2 ^ 20);
  default_list_limit = pos (100);
  max_list_limit = pos (250);
  max_subscribed_collections = pos (8);
  max_request_envelope_bytes = pos (4 * 2 ^ 10);
  max_idempotency_records = pos (10000);
  change_retention_entries = pos (10000);
  change_retention_age = pos (7 * 24 * 3600 * 10 ^ 9);
  idempotency_retention = pos (24 * 3600 * 10 ^ 9);
  sse_queue_size = pos (128);
  sse_heartbeat = pos (25 * 10 ^ 9);
}

-- `value == (Limits{})`
unfoldable pub is_zero_limits : Limits → Bool
is_zero_limits v =
    v.max_collections == pos 0
    && v.max_documents == pos 0
    && v.max_document_bytes == pos 0
    && v.max_namespace_bytes == pos 0
    && v.max_draft_namespace_bytes == pos 0
    && v.default_list_limit == pos 0
    && v.max_list_limit == pos 0
    && v.max_subscribed_collections == pos 0
    && v.max_request_envelope_bytes == pos 0
    && v.max_idempotency_records == pos 0
    && v.change_retention_entries == pos 0
    && v.change_retention_age == pos 0
    && v.idempotency_retention == pos 0
    && v.sse_queue_size == pos 0
    && v.sse_heartbeat == pos 0

-- The fields left at zero take their defaults.
unfoldable pub fill_limits : Limits → Limits
fill_limits v = record {
  max_collections = or_default v.max_collections default_limits.max_collections;
  max_documents = or_default v.max_documents default_limits.max_documents;
  max_document_bytes = or_default v.max_document_bytes default_limits.max_document_bytes;
  max_namespace_bytes = or_default v.max_namespace_bytes default_limits.max_namespace_bytes;
  max_draft_namespace_bytes =
      or_default v.max_draft_namespace_bytes default_limits.max_draft_namespace_bytes;
  default_list_limit = or_default v.default_list_limit default_limits.default_list_limit;
  max_list_limit = or_default v.max_list_limit default_limits.max_list_limit;
  max_subscribed_collections =
      or_default v.max_subscribed_collections default_limits.max_subscribed_collections;
  max_request_envelope_bytes =
      or_default v.max_request_envelope_bytes default_limits.max_request_envelope_bytes;
  max_idempotency_records =
      or_default v.max_idempotency_records default_limits.max_idempotency_records;
  change_retention_entries =
      or_default v.change_retention_entries default_limits.change_retention_entries;
  change_retention_age = or_default v.change_retention_age default_limits.change_retention_age;
  idempotency_retention = or_default v.idempotency_retention default_limits.idempotency_retention;
  sse_queue_size = or_default v.sse_queue_size default_limits.sse_queue_size;
  sse_heartbeat = or_default v.sse_heartbeat default_limits.sse_heartbeat;
}

unfoldable pub has_invalid_limit : Limits → Bool
has_invalid_limit v =
    ltb_ℤ v.max_collections (pos 1)
    || ltb_ℤ (pos 256) v.max_collections
    || ltb_ℤ v.max_documents (pos 1)
    || ltb_ℤ v.max_document_bytes (pos 2)
    || ltb_ℤ v.max_namespace_bytes v.max_document_bytes
    || ltb_ℤ v.max_draft_namespace_bytes v.max_document_bytes
    || ltb_ℤ v.default_list_limit (pos 1)
    || ltb_ℤ v.max_list_limit v.default_list_limit
    || ltb_ℤ v.max_subscribed_collections (pos 1)
    || ltb_ℤ v.max_request_envelope_bytes (pos 1)
    || ltb_ℤ v.max_idempotency_records (pos 1)
    || ltb_ℤ v.change_retention_entries (pos 1)
    || not (ltb_ℤ (pos 0) v.change_retention_age)
    || not (ltb_ℤ (pos 0) v.idempotency_retention)
    || ltb_ℤ v.sse_queue_size (pos 1)
    || not (ltb_ℤ (pos 0) v.sse_heartbeat)

unfoldable pub normalize_limits : Limits → Option Limits
normalize_limits value =
    if is_zero_limits value
    then some default_limits
    else if has_invalid_limit (fill_limits value)
    then none
    else some (fill_limits value)

pub record RateLimits : Type 0 where
  pub reads_per_minute : ℤ
  pub read_burst : ℤ
  pub mutations_per_minute : ℤ
  pub mutation_burst : ℤ
  pub site_mutations_per_minute : ℤ
  pub site_mutation_burst : ℤ
  pub generated_documents_per_day : ℤ
  pub generated_document_burst : ℤ
  pub installation_requests_minute : ℤ
  pub installation_request_burst : ℤ
  pub sse_per_client_site : ℤ
  pub sse_per_site : ℤ
  pub max_buckets : ℤ
  pub bucket_idle_time : ℤ

-- `RateLimits{}`
abbrev pub zero_rate_limits : RateLimits
zero_rate_limits = record {
  reads_per_minute = pos 0;
  read_burst = pos 0;
  mutations_per_minute = pos 0;
  mutation_burst = pos 0;
  site_mutations_per_minute = pos 0;
  site_mutation_burst = pos 0;
  generated_documents_per_day = pos 0;
  generated_document_burst = pos 0;
  installation_requests_minute = pos 0;
  installation_request_burst = pos 0;
  sse_per_client_site = pos 0;
  sse_per_site = pos 0;
  max_buckets = pos 0;
  bucket_idle_time = pos 0;
}

-- `DefaultRateLimits`
abbrev pub default_rate_limits : RateLimits
default_rate_limits = record {
  reads_per_minute = pos (600);
  read_burst = pos (100);
  mutations_per_minute = pos (60);
  mutation_burst = pos (20);
  site_mutations_per_minute = pos (300);
  site_mutation_burst = pos (60);
  generated_documents_per_day = pos (10000);
  generated_document_burst = pos (100);
  installation_requests_minute = pos (6000);
  installation_request_burst = pos (1000);
  sse_per_client_site = pos (6);
  sse_per_site = pos (100);
  max_buckets = pos (10000);
  bucket_idle_time = pos (30 * 60 * 10 ^ 9);
}

-- `value == (RateLimits{})`
unfoldable pub is_zero_rate_limits : RateLimits → Bool
is_zero_rate_limits v =
    v.reads_per_minute == pos 0
    && v.read_burst == pos 0
    && v.mutations_per_minute == pos 0
    && v.mutation_burst == pos 0
    && v.site_mutations_per_minute == pos 0
    && v.site_mutation_burst == pos 0
    && v.generated_documents_per_day == pos 0
    && v.generated_document_burst == pos 0
    && v.installation_requests_minute == pos 0
    && v.installation_request_burst == pos 0
    && v.sse_per_client_site == pos 0
    && v.sse_per_site == pos 0
    && v.max_buckets == pos 0
    && v.bucket_idle_time == pos 0

-- The fields left at zero take their defaults.
unfoldable pub fill_rate_limits : RateLimits → RateLimits
fill_rate_limits v = record {
  reads_per_minute = or_default v.reads_per_minute default_rate_limits.reads_per_minute;
  read_burst = or_default v.read_burst default_rate_limits.read_burst;
  mutations_per_minute = or_default v.mutations_per_minute default_rate_limits.mutations_per_minute;
  mutation_burst = or_default v.mutation_burst default_rate_limits.mutation_burst;
  site_mutations_per_minute =
      or_default v.site_mutations_per_minute default_rate_limits.site_mutations_per_minute;
  site_mutation_burst = or_default v.site_mutation_burst default_rate_limits.site_mutation_burst;
  generated_documents_per_day =
      or_default v.generated_documents_per_day default_rate_limits.generated_documents_per_day;
  generated_document_burst =
      or_default v.generated_document_burst default_rate_limits.generated_document_burst;
  installation_requests_minute =
      or_default v.installation_requests_minute default_rate_limits.installation_requests_minute;
  installation_request_burst =
      or_default v.installation_request_burst default_rate_limits.installation_request_burst;
  sse_per_client_site = or_default v.sse_per_client_site default_rate_limits.sse_per_client_site;
  sse_per_site = or_default v.sse_per_site default_rate_limits.sse_per_site;
  max_buckets = or_default v.max_buckets default_rate_limits.max_buckets;
  bucket_idle_time = or_default v.bucket_idle_time default_rate_limits.bucket_idle_time;
}

unfoldable pub has_invalid_rate_limit : RateLimits → Bool
has_invalid_rate_limit v =
    ltb_ℤ v.reads_per_minute (pos 1)
    || ltb_ℤ v.read_burst (pos 1)
    || ltb_ℤ v.mutations_per_minute (pos 1)
    || ltb_ℤ v.mutation_burst (pos 1)
    || ltb_ℤ v.site_mutations_per_minute (pos 1)
    || ltb_ℤ v.site_mutation_burst (pos 1)
    || ltb_ℤ v.generated_documents_per_day (pos 1)
    || ltb_ℤ v.generated_document_burst (pos 1)
    || ltb_ℤ v.installation_requests_minute (pos 1)
    || ltb_ℤ v.installation_request_burst (pos 1)
    || ltb_ℤ v.sse_per_client_site (pos 1)
    || ltb_ℤ v.sse_per_site v.sse_per_client_site
    || ltb_ℤ v.max_buckets (pos 16)
    || not (ltb_ℤ (pos 0) v.bucket_idle_time)

unfoldable pub normalize_rate_limits : RateLimits → Option RateLimits
normalize_rate_limits value =
    if is_zero_rate_limits value
    then some default_rate_limits
    else if has_invalid_rate_limit (fill_rate_limits value)
    then none
    else some (fill_rate_limits value)
