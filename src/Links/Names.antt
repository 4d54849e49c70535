-- ===== src/Links/Names.antt =====
-- internal/store/public_names.go: the names that links and sites share.
use wispdeck.Prelude.{
  ℕ, Bool, not, ◌&&◌, ◌||◌, ◌==◌, if◌then◌else◌, Text, text, [], ◌∷◌, ◌++◌, none, some, exists,
  find, update_if, text_comparable,
}
use wispdeck.Prelude.Transactions.{◌>>=◌, ◌>>◌, answer, reject_if, query, update}
use wispdeck.Accounts.Tables.{unix}
use wispdeck.Links.Types.{link_failed}
use wispdeck.Links.Tables.{PublicNameRow, Statements, is_named, is_set, is_user}

pub data PublicNameClaim : Type 0 where
  name_claimed name_reclaimed name_needs_confirmation name_unavailable : PublicNameClaim

abbrev pub kind_link : Text
kind_link = text "link"

-- The INSERT of a name that is free.
unfoldable pub reserve_name : Text → Text → Text → Text → ℕ → Statements PublicNameClaim
reserve_name name owner_user_id kind resource_id now = do
  taken ← query (λ t. exists (λ r. r.kind == kind && r.resource_id == resource_id) t.public_names)
  known ← query (is_user owner_user_id)
  reject_if (taken || not known) link_failed
  update (λ t. record t {
    public_names =
        t.public_names
        ++ (record {
          name = name;
          owner_user_id = owner_user_id;
          kind = kind;
          resource_id = resource_id;
          created_at = unix now;
          retired_at = none;
        })
          ∷ [];
  })
  answer name_claimed

abbrev pub is_reclaimable : Text → PublicNameRow → Bool
is_reclaimable owner_user_id row =
    row.owner_user_id == owner_user_id && row.kind == kind_link && is_set row.retired_at

-- The UPDATE of a retired name.
unfoldable pub reclaim_name : Text → Text → Text → Text → ℕ → Statements PublicNameClaim
reclaim_name name owner_user_id kind resource_id now = do
  taken ← query (λ t.
      exists (λ r. not (is_named name r) && r.kind == kind && r.resource_id == resource_id)
        t.public_names)
  reject_if taken link_failed
  update (λ t. record t {
    public_names =
        update_if (λ r. is_named name r && is_reclaimable owner_user_id r)
          (λ r. record r {
            kind = kind;
            resource_id = resource_id;
            created_at = unix now;
            retired_at = none;
          })
          t.public_names;
  })
  answer name_reclaimed

-- `claimPublicName`
unfoldable pub claim_public_name : Text → Text → Text → Text → ℕ → Bool → Statements PublicNameClaim
claim_public_name name owner_user_id kind resource_id now allow_reclaim = do
  found ← query (λ t. find (is_named name) t.public_names)
  elim found [
    | none ↦ reserve_name name owner_user_id kind resource_id now
    | some existing ↦
        if not (is_reclaimable owner_user_id existing)
        then answer name_unavailable
        else if not allow_reclaim
        then answer name_needs_confirmation
        else reclaim_name name owner_user_id kind resource_id now
  ]
