-- ===== src/Links/Store.antt =====
-- internal/store/shortlinks.go: the rows of short links. The identifiers that `randomID` draws, or a
-- failure, are arguments.
use wispdeck.Prelude.{
  ℕ, suc, Bool, true, false, not, ◌&&◌, ◌||◌, ◌==◌, if◌then◌else◌, Text, List, [], ◌∷◌, ◌++◌,
  Option, none, some, length, ltb, exists, find, keep, update_if, map, order_by, text_comparable,
  ℕ_comparable,
}
use wispdeck.Prelude.Transactions.{
  Result, ok, error, ◌>>=◌, ◌>>◌, answer, reject_if, query, update, require, transact,
}
use wispdeck.Accounts.Tables.{unix, from_unix, fold_case}
use wispdeck.Links.Types.{
  LinkError, LinkLimits, Destination, Link, Input, audit_updated, audit_enabled, audit_disabled,
  audit_retired, forbidden, not_found, slug_unavailable, reclaim_confirmation, link_limit,
  link_failed,
}
use wispdeck.Links.Tables.{
  PublicNameRow, LinkRow, DestinationRow, Tables, Statements, is_set, valid_name_row,
  valid_link_row, is_active_owner, is_user, nullable_unix,
}
use wispdeck.Links.Names.{
  PublicNameClaim, kind_link, claim_public_name, name_claimed, name_reclaimed,
  name_needs_confirmation, name_unavailable,
}

abbrev pub destination_row : Text → ℕ → Destination → Text → DestinationRow
destination_row link_id position value id = record {
  id = id;
  link_id = link_id;
  position = position;
  label = value.label;
  target_url = value.url;
}

-- The INSERT of a destination, with its two keys and the CHECK of the position.
unfoldable pub insert_destination : DestinationRow → Statements (Unit {0})
insert_destination row = do
  taken ← query (λ t.
      exists (λ d. d.id == row.id || d.link_id == row.link_id && d.position == row.position)
        t.destinations)
  reject_if (taken || ltb 24 row.position) link_failed
  update (λ t. record t { destinations = t.destinations ++ row ∷ [] })

-- `insertDestinations` from a position on; the identifiers are drawn one at a time.
unfoldable pub insert_destinations :
    Text → ℕ → List Destination → List Text → Statements (List Destination)
insert_destinations link_id position [] ids = answer []
insert_destinations link_id position (value ∷ rest) [] = λ t. error link_failed
insert_destinations link_id position (value ∷ rest) (id ∷ ids) = do
  insert_destination (destination_row link_id position value id)
  others ← insert_destinations link_id (suc position) rest ids
  answer (record value { id = id; position = position } ∷ others)

abbrev is_live : LinkRow → Bool
is_live row = not (is_set row.deleted_at)

-- `COUNT(*)` of the owner's link names
unfoldable pub link_names : Text → Tables → ℕ
link_names owner_user_id t =
    length (keep (λ r. r.owner_user_id == owner_user_id && r.kind == kind_link) t.public_names)

abbrev pub link_row : Text → Text → Link → ℕ → LinkRow
link_row id owner_user_id value now = record {
  id = id;
  owner_user_id = owner_user_id;
  slug = value.slug;
  title = value.title;
  description = value.description;
  mode = value.mode;
  enabled = true;
  created_at = unix now;
  updated_at = unix now;
  expires_at = nullable_unix value.expires_at;
  deleted_at = none;
}

-- The INSERT of a link, with its primary key, the index of live slugs and the CHECKs.
unfoldable pub insert_link : LinkRow → Statements (Unit {0})
insert_link row = do
  taken ← query (λ t.
      exists (λ l. l.id == row.id || is_live l && fold_case l.slug == fold_case row.slug)
        t.short_links)
  reject_if (taken || not (valid_link_row row)) link_failed
  update (λ t. record t { short_links = t.short_links ++ row ∷ [] })

abbrev pub settle_claim : PublicNameClaim → Text → LinkLimits → Statements (Unit {0})
settle_claim name_claimed owner limits = do
  names ← query (link_names owner)
  reject_if (ltb limits.max_links_per_user names) link_limit
settle_claim name_reclaimed owner limits = answer tt
settle_claim name_needs_confirmation owner limits = reject_if true reclaim_confirmation
settle_claim name_unavailable owner limits = reject_if true slug_unavailable

unfoldable pub create_short_link :
    Text
    → Link
    → Bool
    → LinkLimits
    → ℕ
    → Option Text
    → List Text
    → Tables
    → Result LinkError Link × Tables
create_short_link owner_user_id value allow_reclaim limits now random ids = transact (do
  id ← require random link_failed
  active ← query (is_active_owner owner_user_id)
  reject_if (not active) forbidden
  claim ← claim_public_name value.slug owner_user_id kind_link id now allow_reclaim
  settle_claim claim owner_user_id limits
  insert_link (link_row id owner_user_id value now)
  destinations ← insert_destinations id 0 value.destinations ids
  answer (record value {
    id = id;
    owner_user_id = owner_user_id;
    destinations = destinations;
    enabled = true;
    created_at = some now;
    updated_at = some now;
  }))

-- `WHERE id = ? AND deleted_at IS NULL AND (owner_user_id = ? OR ? = 1)`
abbrev pub is_managed : Text → Text → Bool → LinkRow → Bool
is_managed id actor include_all row =
    row.id == id && is_live row && (row.owner_user_id == actor || include_all)

-- An UPDATE of such a link, which returns the row before it.
unfoldable pub update_link : Text → Text → Bool → (LinkRow → LinkRow) → Statements LinkRow
update_link id actor include_all change = do
  found ← query (λ t. find (is_managed id actor include_all) t.short_links)
  row ← require found not_found
  reject_if (not (valid_link_row (change row))) link_failed
  update (λ t. record t {
    short_links = update_if (is_managed id actor include_all) change t.short_links;
  })
  answer row

-- `recordCrossOwnerAudit`, where the actor is the row of a user.
unfoldable pub record_cross_owner_audit : Text → LinkRow → Text → Bool → ℕ → Statements (Unit {0})
record_cross_owner_audit actor link kind include_all now =
    if actor == link.owner_user_id then answer tt else (do
      reject_if (not include_all) not_found
      known ← query (is_user actor)
      reject_if (not known) link_failed
      update (λ t. record t {
        audit_events =
            t.audit_events
            ++ (record {
              occurred_at = unix now;
              actor_user_id = actor;
              owner_user_id = link.owner_user_id;
              link_id = link.id;
              slug = link.slug;
              kind = kind;
            })
              ∷ [];
      }))

unfoldable pub update_short_link :
    Text → Text → Bool → Input → ℕ → List Text → Tables → Result LinkError (Unit {0}) × Tables
update_short_link id actor include_all input now ids = transact (do
  link ← update_link id actor include_all (λ l. record l {
    title = input.title;
    description = input.description;
    mode = input.mode;
    expires_at = nullable_unix input.expires_at;
    updated_at = unix now;
  })
  update (λ t. record t { destinations = keep (λ d. not (d.link_id == id)) t.destinations })
  destinations ← insert_destinations id 0 input.destinations ids
  record_cross_owner_audit actor link audit_updated include_all now)

unfoldable pub set_short_link_enabled :
    Text → Text → Bool → Bool → ℕ → Tables → Result LinkError (Unit {0}) × Tables
set_short_link_enabled id actor include_all enabled now = transact (do
  link ←
      update_link id actor include_all (λ l. record l { enabled = enabled; updated_at = unix now })
  record_cross_owner_audit actor link (if enabled then audit_enabled else audit_disabled)
      include_all now)

abbrev pub is_active_name : Text → PublicNameRow → Bool
is_active_name id row =
    row.kind == kind_link && row.resource_id == id && not (is_set row.retired_at)

-- `UPDATE public_names SET retired_at`, of one row
unfoldable pub retire_name : Text → ℕ → Statements (Unit {0})
retire_name id now = do
  found ← query (λ t. find (is_active_name id) t.public_names)
  row ← require found link_failed
  reject_if (not (valid_name_row (record row { retired_at = some (unix now) }))) link_failed
  update (λ t. record t {
    public_names =
        update_if (is_active_name id) (λ r. record r { retired_at = some (unix now) })
          t.public_names;
  })

unfoldable pub retire_short_link :
    Text → Text → Bool → ℕ → Tables → Result LinkError (Unit {0}) × Tables
retire_short_link id actor include_all now = transact (do
  link ←
      update_link id actor include_all
        (λ l. record l { enabled = false; updated_at = unix now; deleted_at = some (unix now) })
  record_cross_owner_audit actor link audit_retired include_all now
  retire_name id now)

abbrev unexpired : ℕ → LinkRow → Bool
unexpired now row = elim row.expires_at [
  | none ↦ true
  | some expires_at ↦ ltb (unix now) expires_at
]

-- The WHERE of `ResolveShortLink`; a slug compares by `COLLATE NOCASE`.
unfoldable pub is_public : Text → ℕ → LinkRow → Bool
is_public slug now row =
    fold_case row.slug == fold_case slug && row.enabled && is_live row && unexpired now row

abbrev to_destination : DestinationRow → Destination
to_destination row = record {
  id = row.id;
  label = row.label;
  url = row.target_url;
  position = row.position;
}

unfoldable pub destinations_of : Text → Tables → List Destination
destinations_of link_id t =
    map to_destination (
      order_by (λ a b. ltb a.position b.position) (keep (λ d. d.link_id == link_id) t.destinations))

abbrev scan_link : LinkRow → List Destination → Link
scan_link row destinations = record {
  id = row.id;
  owner_user_id = row.owner_user_id;
  slug = row.slug;
  title = [];
  description = [];
  mode = row.mode;
  destinations = destinations;
  enabled = row.enabled;
  created_at = some (from_unix row.created_at);
  updated_at = some (from_unix row.updated_at);
  expires_at = elim row.expires_at [ none ↦ none | some s ↦ some (from_unix s) ];
}

-- `ResolveShortLink`, whose join has no row for a link without destinations; at most one live link
-- has a slug.
unfoldable pub resolve_short_link : Text → ℕ → Tables → Result LinkError Link
resolve_short_link slug now t = elim (find (is_public slug now) t.short_links) [
  | none ↦ error not_found
  | some row ↦ elim (destinations_of row.id t) [
    | [] ↦ error not_found
    | d ∷ ds ↦ ok (scan_link row (d ∷ ds))
  ]
]
