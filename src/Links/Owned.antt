-- ===== src/Links/Owned.antt =====
-- internal/store/shortlinks.go: a link belongs to the user who has its name.
use wispdeck.Prelude.{
  ℕ, suc, ◌≡◌, refl, arith, Bool, true, false, ◌&&◌, Text, text_comparable, text_eq_iff,
  text_eq_refl, List, [], ◌∷◌, ◌++◌, none, some, find, update_if, Option-cases, Bool-cases, inl,
  inr,
}
use Prim.{tt}
use wispdeck.Prelude.Transactions.{Result, ok, error}
use wispdeck.Accounts.Tables.{unix, fold_case}
use wispdeck.Links.Types.{LinkError, Destination}
use wispdeck.Links.Tables.{PublicNameRow, LinkRow, Tables, is_named}
use wispdeck.Links.Names.{
  PublicNameClaim, name_claimed, name_reclaimed, name_needs_confirmation, name_unavailable,
  reserve_name, is_reclaimable, reclaim_name, claim_public_name,
}
use wispdeck.Links.Store.{destination_row, insert_destination, insert_destinations}
use wispdeck.Links.Owners.{owner_of, find-update_if}

-- The owner of each link has the name of the link.
unfoldable pub AreOwned : Tables → List LinkRow → Type 0
AreOwned t [] = Unit {0}
AreOwned t (l ∷ links) = (owner_of l.slug t ≡ some l.owner_user_id) × AreOwned t links

pub AreOwned-append :
    (t : Tables) (links : List LinkRow) (l : LinkRow)
    → AreOwned t links
    → owner_of l.slug t ≡ some l.owner_user_id
    → AreOwned t (links ++ l ∷ [])
unfolding AreOwned
AreOwned-append t [] l owned here = (here, tt)
AreOwned-append t (k ∷ links) l (first, owned) here = (first, AreOwned-append t links l owned here)

pub AreOwned-update_if :
    (t : Tables) (q : LinkRow → Bool) (f : LinkRow → LinkRow) (links : List LinkRow)
    → ((l : LinkRow) → (f l).slug ≡ l.slug)
    → ((l : LinkRow) → (f l).owner_user_id ≡ l.owner_user_id)
    → AreOwned t links
    → AreOwned t (update_if q f links)
unfolding AreOwned update_if
AreOwned-update_if t q f [] slugs owners owned = tt
AreOwned-update_if t q f (l ∷ links) slugs owners (first, owned) = elim (Bool-cases (q l)) [
  | inl hit ↦
      rw hit (rw (slugs l, owners l) first, AreOwned-update_if t q f links slugs owners owned)
  | inr miss ↦ rw miss (first, AreOwned-update_if t q f links slugs owners owned)
]

-- Names that keep their owners keep the links owned.
pub AreOwned-kept :
    (t t' : Tables) (links : List LinkRow)
    → ((name o : Text) → owner_of name t ≡ some o → owner_of name t' ≡ some o)
    → AreOwned t links
    → AreOwned t' links
unfolding AreOwned
AreOwned-kept t t' [] kept owned = tt
AreOwned-kept t t' (l ∷ links) kept (first, owned) =
    (kept l.slug l.owner_user_id first, AreOwned-kept t t' links kept owned)

find-append_none :
    (p : PublicNameRow → Bool) (rows : List PublicNameRow) (r : PublicNameRow)
    → find p rows ≡ none
    → p r ≡ true
    → find p (rows ++ r ∷ []) ≡ some r
unfolding find
find-append_none p [] r free here = ground arith
find-append_none p (x ∷ rows) r free here = ground (arith, find-append_none p rows r)

-- A claim that lets the link be made leaves the name with its user.
abbrev pub is_granted : PublicNameClaim → Bool
is_granted name_claimed = true
is_granted name_reclaimed = true
is_granted name_needs_confirmation = false
is_granted name_unavailable = false

pub claim_public_name-granted :
    (name owner_user_id kind resource_id : Text) (now : ℕ) (allow_reclaim : Bool) (t : Tables)
    {claim : PublicNameClaim} {t' : Tables}
    → claim_public_name name owner_user_id kind resource_id now allow_reclaim t ≡ ok (claim, t')
    → is_granted claim ≡ true
    → owner_of name t' ≡ some owner_user_id
unfolding claim_public_name reserve_name reclaim_name
claim_public_name-granted name owner_user_id kind resource_id now allow_reclaim t {claim} {t'} e
      granted =
    elim (Option-cases (find (is_named name) t.public_names)) [
      | inl free ↦
          let row : PublicNameRow = record {
            name = name;
            owner_user_id = owner_user_id;
            kind = kind;
            resource_id = resource_id;
            created_at = unix now;
            retired_at = none;
          } in
          let last =
            find-append_none (is_named name) t.public_names row free
              (text_eq_refl (fold_case name)) in
          ground (arith, free, last)
      | inr (existing, there) ↦
          let same =
            find-update_if (is_named name) (λ r. is_named name r && is_reclaimable owner_user_id r)
              (λ r. record r {
                kind = kind;
                resource_id = resource_id;
                created_at = unix now;
                retired_at = none;
              })
              t.public_names (λ r. refl) (λ r. refl) in
          ground (arith, there, same, text_eq_iff existing.owner_user_id owner_user_id)
    ]

pub claim_public_name-links :
    (name owner_user_id kind resource_id : Text) (now : ℕ) (allow_reclaim : Bool) (t : Tables)
    {claim : PublicNameClaim} {t' : Tables}
    → claim_public_name name owner_user_id kind resource_id now allow_reclaim t ≡ ok (claim, t')
    → t'.short_links ≡ t.short_links
unfolding claim_public_name reserve_name reclaim_name
claim_public_name-links name owner_user_id kind resource_id now allow_reclaim t {claim} {t'} e =
    ground (arith, Option-cases (find (is_named name) t.public_names))

-- The links after statements that succeed, and before ones that fail.
abbrev pub links_after : {A : Type 0} → Tables → Result LinkError (A × Tables) → List LinkRow
links_after t (ok (a, t')) = t'.short_links
links_after t (error e) = t.short_links

pub insert_destinations-links :
    (link_id : Text) (position : ℕ) (values : List Destination) (ids : List Text) (t : Tables)
    → links_after t (insert_destinations link_id position values ids t) ≡ t.short_links
unfolding insert_destinations insert_destination
insert_destinations-links link_id position [] ids t = refl
insert_destinations-links link_id position (value ∷ rest) [] t = refl
insert_destinations-links link_id position (value ∷ rest) (id ∷ ids) t = ground (
  arith,
  insert_destinations-links link_id (suc position) rest ids (record t {
    destinations = t.destinations ++ destination_row link_id position value id ∷ [];
  }),
)
