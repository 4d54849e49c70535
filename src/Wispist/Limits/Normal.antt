-- ===== src/Wispist/Limits/Normal.antt =====
-- wispist/engine.go: which limits the normalization accepts as they are.
use wispdeck.Prelude.{false, not, ◌≡◌, ◌≢◌, ◌↔◌, refl, arith, some, Bool-cases, inl, inr}
use wispdeck.Prelude.Int.{
  ℤ, pos, ltb_ℤ, or_default-ne, ltb_ℤ-false, ltb_ℤ-true, ne-zero_of_pos, ◌≤ℤ◌, ≤ℤ_trans,
  int_comparable, int_beq_iff,
}
use wispdeck.Wispist.Limits.{
  Limits, default_limits, is_zero_limits, fill_limits, has_invalid_limit, normalize_limits,
}

module _ (a : ℤ) where
  positive : ltb_ℤ a (pos 1) ≡ false → a ≢ pos 0
  positive h = ne-zero_of_pos a (ltb_ℤ-false a (pos 1) h)

  above : (b : ℤ) → ltb_ℤ a b ≡ false → pos 1 ≤ℤ b → a ≢ pos 0
  above b h k = ne-zero_of_pos a (≤ℤ_trans (pos 1) b a k (ltb_ℤ-false a b h))

  after_zero : not (ltb_ℤ (pos 0) a) ≡ false → a ≢ pos 0
  after_zero h e = ground (arith, ltb_ℤ-true (pos 0) a)

-- What passes the test has no field at zero.
record LimitsNonZero (v : Limits) : Type 0 where
  pub max_collections_ne : v.max_collections ≢ pos 0
  pub max_documents_ne : v.max_documents ≢ pos 0
  pub max_document_bytes_ne : v.max_document_bytes ≢ pos 0
  pub max_namespace_bytes_ne : v.max_namespace_bytes ≢ pos 0
  pub max_draft_namespace_bytes_ne : v.max_draft_namespace_bytes ≢ pos 0
  pub default_list_limit_ne : v.default_list_limit ≢ pos 0
  pub max_list_limit_ne : v.max_list_limit ≢ pos 0
  pub max_subscribed_collections_ne : v.max_subscribed_collections ≢ pos 0
  pub max_request_envelope_bytes_ne : v.max_request_envelope_bytes ≢ pos 0
  pub max_idempotency_records_ne : v.max_idempotency_records ≢ pos 0
  pub change_retention_entries_ne : v.change_retention_entries ≢ pos 0
  pub change_retention_age_ne : v.change_retention_age ≢ pos 0
  pub idempotency_retention_ne : v.idempotency_retention ≢ pos 0
  pub sse_queue_size_ne : v.sse_queue_size ≢ pos 0
  pub sse_heartbeat_ne : v.sse_heartbeat ≢ pos 0

LimitsNonZero-valid : (v : Limits) → has_invalid_limit v ≡ false → LimitsNonZero v
unfolding has_invalid_limit
LimitsNonZero-valid v h = record {
  max_collections_ne = positive v.max_collections (ground arith);
  max_documents_ne = positive v.max_documents (ground arith);
  max_document_bytes_ne = above v.max_document_bytes (pos 2) (ground arith) (omega arith);
  max_namespace_bytes_ne = above v.max_namespace_bytes v.max_document_bytes (ground arith) (
      ≤ℤ_trans (pos 1) (pos 2) v.max_document_bytes (omega arith)
        (ltb_ℤ-false v.max_document_bytes (pos 2) (ground arith)));
  max_draft_namespace_bytes_ne =
      above v.max_draft_namespace_bytes v.max_document_bytes (ground arith) (
        ≤ℤ_trans (pos 1) (pos 2) v.max_document_bytes (omega arith)
          (ltb_ℤ-false v.max_document_bytes (pos 2) (ground arith)));
  default_list_limit_ne = positive v.default_list_limit (ground arith);
  max_list_limit_ne = above v.max_list_limit v.default_list_limit (ground arith) (
      ≤ℤ_trans (pos 1) (pos 1) v.default_list_limit (omega arith)
        (ltb_ℤ-false v.default_list_limit (pos 1) (ground arith)));
  max_subscribed_collections_ne = positive v.max_subscribed_collections (ground arith);
  max_request_envelope_bytes_ne = positive v.max_request_envelope_bytes (ground arith);
  max_idempotency_records_ne = positive v.max_idempotency_records (ground arith);
  change_retention_entries_ne = positive v.change_retention_entries (ground arith);
  change_retention_age_ne = after_zero v.change_retention_age (ground arith);
  idempotency_retention_ne = after_zero v.idempotency_retention (ground arith);
  sse_queue_size_ne = positive v.sse_queue_size (ground arith);
  sse_heartbeat_ne = after_zero v.sse_heartbeat (ground arith);
}

fill_limits-NonZero : (v : Limits) → LimitsNonZero v → fill_limits v ≡ v
unfolding fill_limits
fill_limits-NonZero v n = λ i. record {
  max_collections =
      or_default-ne v.max_collections default_limits.max_collections n.max_collections_ne i;
  max_documents = or_default-ne v.max_documents default_limits.max_documents n.max_documents_ne i;
  max_document_bytes =
      or_default-ne v.max_document_bytes default_limits.max_document_bytes n.max_document_bytes_ne
        i;
  max_namespace_bytes =
      or_default-ne v.max_namespace_bytes default_limits.max_namespace_bytes
        n.max_namespace_bytes_ne i;
  max_draft_namespace_bytes =
      or_default-ne v.max_draft_namespace_bytes default_limits.max_draft_namespace_bytes
        n.max_draft_namespace_bytes_ne i;
  default_list_limit =
      or_default-ne v.default_list_limit default_limits.default_list_limit n.default_list_limit_ne
        i;
  max_list_limit =
      or_default-ne v.max_list_limit default_limits.max_list_limit n.max_list_limit_ne i;
  max_subscribed_collections =
      or_default-ne v.max_subscribed_collections default_limits.max_subscribed_collections
        n.max_subscribed_collections_ne i;
  max_request_envelope_bytes =
      or_default-ne v.max_request_envelope_bytes default_limits.max_request_envelope_bytes
        n.max_request_envelope_bytes_ne i;
  max_idempotency_records =
      or_default-ne v.max_idempotency_records default_limits.max_idempotency_records
        n.max_idempotency_records_ne i;
  change_retention_entries =
      or_default-ne v.change_retention_entries default_limits.change_retention_entries
        n.change_retention_entries_ne i;
  change_retention_age =
      or_default-ne v.change_retention_age default_limits.change_retention_age
        n.change_retention_age_ne i;
  idempotency_retention =
      or_default-ne v.idempotency_retention default_limits.idempotency_retention
        n.idempotency_retention_ne i;
  sse_queue_size =
      or_default-ne v.sse_queue_size default_limits.sse_queue_size n.sse_queue_size_ne i;
  sse_heartbeat = or_default-ne v.sse_heartbeat default_limits.sse_heartbeat n.sse_heartbeat_ne i;
}

is_zero_limits-NonZero : (v : Limits) → LimitsNonZero v → is_zero_limits v ≡ false
unfolding is_zero_limits
is_zero_limits-NonZero v n =
    ground (arith, int_beq_iff v.max_collections (pos 0), n.max_collections_ne)

limits_valid : (v w : Limits) → normalize_limits v ≡ some w → has_invalid_limit w ≡ false
unfolding normalize_limits
limits_valid v w h = elim (Bool-cases (is_zero_limits v)) [
  | inl zero_v ↦
      let e : default_limits ≡ w = ground (arith, zero_v) in
      rw (← e) (unfold has_invalid_limit ltb_ℤ in refl)
  | inr set_v ↦ ground (arith, set_v)
]

ltb_ℤ-ge : (a b : ℤ) → b ≤ℤ a → ltb_ℤ a b ≡ false
unfolding ltb_ℤ
ltb_ℤ-ge a b h = ground arith

not-ltb_ℤ : (a : ℤ) → pos 1 ≤ℤ a → not (ltb_ℤ (pos 0) a) ≡ false
unfolding ltb_ℤ
not-ltb_ℤ a h = ground arith

least_after : (a : ℤ) → not (ltb_ℤ (pos 0) a) ≡ false → pos 1 ≤ℤ a
unfolding ltb_ℤ
least_after a h = ground arith

-- The bounds of an engine's limits.
pub record IsWithin (v : Limits) : Type 0 where
  pub max_collections_least : pos 1 ≤ℤ v.max_collections
  pub max_collections_most : v.max_collections ≤ℤ pos 256
  pub max_documents_least : pos 1 ≤ℤ v.max_documents
  pub max_document_bytes_least : pos 2 ≤ℤ v.max_document_bytes
  pub max_namespace_bytes_least : v.max_document_bytes ≤ℤ v.max_namespace_bytes
  pub max_draft_namespace_bytes_least : v.max_document_bytes ≤ℤ v.max_draft_namespace_bytes
  pub default_list_limit_least : pos 1 ≤ℤ v.default_list_limit
  pub max_list_limit_least : v.default_list_limit ≤ℤ v.max_list_limit
  pub max_subscribed_collections_least : pos 1 ≤ℤ v.max_subscribed_collections
  pub max_request_envelope_bytes_least : pos 1 ≤ℤ v.max_request_envelope_bytes
  pub max_idempotency_records_least : pos 1 ≤ℤ v.max_idempotency_records
  pub change_retention_entries_least : pos 1 ≤ℤ v.change_retention_entries
  pub change_retention_age_least : pos 1 ≤ℤ v.change_retention_age
  pub idempotency_retention_least : pos 1 ≤ℤ v.idempotency_retention
  pub sse_queue_size_least : pos 1 ≤ℤ v.sse_queue_size
  pub sse_heartbeat_least : pos 1 ≤ℤ v.sse_heartbeat

IsWithin-valid : (v : Limits) → has_invalid_limit v ≡ false → IsWithin v
unfolding has_invalid_limit
IsWithin-valid v h = record {
  max_collections_least = ltb_ℤ-false v.max_collections (pos 1) (ground arith);
  max_collections_most = ltb_ℤ-false (pos 256) v.max_collections (ground arith);
  max_documents_least = ltb_ℤ-false v.max_documents (pos 1) (ground arith);
  max_document_bytes_least = ltb_ℤ-false v.max_document_bytes (pos 2) (ground arith);
  max_namespace_bytes_least = ltb_ℤ-false v.max_namespace_bytes v.max_document_bytes (ground arith);
  max_draft_namespace_bytes_least =
      ltb_ℤ-false v.max_draft_namespace_bytes v.max_document_bytes (ground arith);
  default_list_limit_least = ltb_ℤ-false v.default_list_limit (pos 1) (ground arith);
  max_list_limit_least = ltb_ℤ-false v.max_list_limit v.default_list_limit (ground arith);
  max_subscribed_collections_least =
      ltb_ℤ-false v.max_subscribed_collections (pos 1) (ground arith);
  max_request_envelope_bytes_least =
      ltb_ℤ-false v.max_request_envelope_bytes (pos 1) (ground arith);
  max_idempotency_records_least = ltb_ℤ-false v.max_idempotency_records (pos 1) (ground arith);
  change_retention_entries_least = ltb_ℤ-false v.change_retention_entries (pos 1) (ground arith);
  change_retention_age_least = least_after v.change_retention_age (ground arith);
  idempotency_retention_least = least_after v.idempotency_retention (ground arith);
  sse_queue_size_least = ltb_ℤ-false v.sse_queue_size (pos 1) (ground arith);
  sse_heartbeat_least = least_after v.sse_heartbeat (ground arith);
}

valid-IsWithin : (v : Limits) → IsWithin v → has_invalid_limit v ≡ false
unfolding has_invalid_limit
valid-IsWithin v w =
    rw
      (
        ltb_ℤ-ge v.max_collections (pos 1) w.max_collections_least,
        ltb_ℤ-ge (pos 256) v.max_collections w.max_collections_most,
        ltb_ℤ-ge v.max_documents (pos 1) w.max_documents_least,
        ltb_ℤ-ge v.max_document_bytes (pos 2) w.max_document_bytes_least,
        ltb_ℤ-ge v.max_namespace_bytes v.max_document_bytes w.max_namespace_bytes_least,
        ltb_ℤ-ge v.max_draft_namespace_bytes v.max_document_bytes w.max_draft_namespace_bytes_least,
        ltb_ℤ-ge v.default_list_limit (pos 1) w.default_list_limit_least,
        ltb_ℤ-ge v.max_list_limit v.default_list_limit w.max_list_limit_least,
        ltb_ℤ-ge v.max_subscribed_collections (pos 1) w.max_subscribed_collections_least,
        ltb_ℤ-ge v.max_request_envelope_bytes (pos 1) w.max_request_envelope_bytes_least,
        ltb_ℤ-ge v.max_idempotency_records (pos 1) w.max_idempotency_records_least,
        ltb_ℤ-ge v.change_retention_entries (pos 1) w.change_retention_entries_least,
        not-ltb_ℤ v.change_retention_age w.change_retention_age_least,
        not-ltb_ℤ v.idempotency_retention w.idempotency_retention_least,
        ltb_ℤ-ge v.sse_queue_size (pos 1) w.sse_queue_size_least,
        not-ltb_ℤ v.sse_heartbeat w.sse_heartbeat_least,
      )
      refl

-- `normalizeLimits` accepts limits and changes nothing in them exactly where each is within its
-- bounds: from 1 to 256 collections, documents of two bytes or more that fit the namespace and the
-- draft, a page that is no longer than the longest, and all else positive.
pub normalize_limits-IsWithin : (v : Limits) → (normalize_limits v ≡ some v) ↔ IsWithin v
unfolding normalize_limits
normalize_limits-IsWithin v = (
  λ h. IsWithin-valid v (limits_valid v v h),
  λ w.
      let fine = valid-IsWithin v w in
      let n = LimitsNonZero-valid v fine in
      rw (is_zero_limits-NonZero v n) (rw (fill_limits-NonZero v n) (rw fine refl)),
)
