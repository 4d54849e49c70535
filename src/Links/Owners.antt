-- ===== src/Links/Owners.antt =====
-- internal/store/public_names.go and internal/store/shortlinks.go: whose names and links are whose.
use wispdeck.Prelude.{
  ℕ, suc, ◌≡◌, refl, arith, Bool, false, ◌&&◌, ◌==◌, Text, text_comparable, List, [], ◌∷◌, ◌++◌,
  Option, none, some, exists, find, update_if,
}
use wispdeck.Prelude.Transactions.{Result, ok, error}
use wispdeck.Accounts.Tables.{unix}
use wispdeck.Links.Types.{LinkError, LinkLimits, LinkActor, Destination, Link, Input, not_found}
use wispdeck.Links.Tables.{PublicNameRow, LinkRow, Tables, is_named}
use wispdeck.Links.Rules.{Texts, validate_input}
use wispdeck.Links.Service.{update, set_enabled, retire}
use wispdeck.Links.Names.{
  PublicNameClaim, kind_link, reserve_name, is_reclaimable, reclaim_name, claim_public_name,
}
use wispdeck.Links.Store.{
  destination_row, insert_destination, insert_destinations, link_row, insert_link,
  create_short_link, is_managed, update_link, record_cross_owner_audit, update_short_link,
  set_short_link_enabled, is_active_name, retire_name, retire_short_link,
}

abbrev owner : Option PublicNameRow → Option Text
owner none = none
owner (some row) = some row.owner_user_id

-- The user who has a name, retired or not.
abbrev pub owner_of : Text → Tables → Option Text
owner_of name t = owner (find (is_named name) t.public_names)

pub find-update_if :
    (p q : PublicNameRow → Bool) (f : PublicNameRow → PublicNameRow) (rows : List PublicNameRow)
    → ((r : PublicNameRow) → p (f r) ≡ p r)
    → ((r : PublicNameRow) → (f r).owner_user_id ≡ r.owner_user_id)
    → owner (find p (update_if q f rows)) ≡ owner (find p rows)
unfolding find update_if
find-update_if p q f [] same kept = refl
find-update_if p q f (r ∷ rows) same kept =
    ground (arith, same r, kept r, find-update_if p q f rows same kept)

find-append :
    (p : PublicNameRow → Bool) (rows more : List PublicNameRow) {o : Text}
    → owner (find p rows) ≡ some o
    → owner (find p (rows ++ more)) ≡ some o
unfolding find
find-append p [] more found = ground arith
find-append p (r ∷ rows) more {o} found = ground (arith, find-append p rows more {o = o})

-- The names after statements that succeed, and before ones that fail.
abbrev pub names_after : {A : Type 0} → Tables → Result LinkError (A × Tables) → List PublicNameRow
names_after t (ok (a, t')) = t'.public_names
names_after t (error e) = t.public_names

pub insert_destinations-names :
    (link_id : Text) (position : ℕ) (values : List Destination) (ids : List Text) (t : Tables)
    → names_after t (insert_destinations link_id position values ids t) ≡ t.public_names
unfolding insert_destinations insert_destination
insert_destinations-names link_id position [] ids t = refl
insert_destinations-names link_id position (value ∷ rest) [] t = refl
insert_destinations-names link_id position (value ∷ rest) (id ∷ ids) t = ground (
  arith,
  insert_destinations-names link_id (suc position) rest ids (record t {
    destinations = t.destinations ++ destination_row link_id position value id ∷ [];
  }),
)

find-managed :
    (id actor : Text) (links : List LinkRow)
    → exists (λ l. l.id == id && l.owner_user_id == actor) links ≡ false
    → find (is_managed id actor false) links ≡ none
unfolding exists find
find-managed id actor [] foreign = refl
find-managed id actor (l ∷ links) foreign = ground (arith, find-managed id actor links)

module _ (name : Text) {o : Text} where
  claim_public_name-owner :
      (claimed owner_user_id kind resource_id : Text) (now : ℕ) (allow_reclaim : Bool) (t : Tables)
      {claim : PublicNameClaim} {t' : Tables}
      → owner_of name t ≡ some o
      → claim_public_name claimed owner_user_id kind resource_id now allow_reclaim t
        ≡ ok (claim, t')
      → owner_of name t' ≡ some o
  unfolding claim_public_name reserve_name reclaim_name
  claim_public_name-owner claimed owner_user_id kind resource_id now allow_reclaim t {claim} {t'}
        owned e =
      ground (
        arith,
        find-append (is_named name) t.public_names
            (record {
              name = claimed;
              owner_user_id = owner_user_id;
              kind = kind;
              resource_id = resource_id;
              created_at = unix now;
              retired_at = none;
            }
              ∷ [])
            {o = o},
        find-update_if (is_named name) (λ r. is_named claimed r && is_reclaimable owner_user_id r)
            (λ r. record r {
              kind = kind;
              resource_id = resource_id;
              created_at = unix now;
              retired_at = none;
            })
            t.public_names (λ r. refl) (λ r. refl),
      )

  pub create_short_link-owner :
      (owner_user_id : Text) (value : Link) (allow_reclaim : Bool) (limits : LinkLimits) (now : ℕ)
      (random : Option Text) (ids : List Text) (t : Tables)
      → owner_of name t ≡ some o
      → owner_of name
          (create_short_link owner_user_id value allow_reclaim limits now random ids t).1
        ≡ some o
  unfolding create_short_link insert_link
  create_short_link-owner owner_user_id value allow_reclaim limits now none ids t owned =
      ground arith
  create_short_link-owner owner_user_id value allow_reclaim limits now (some id) ids t owned =
      go (claim_public_name value.slug owner_user_id kind_link id now allow_reclaim t) refl
    where
      go :
          (r : Result LinkError (PublicNameClaim × Tables))
          → claim_public_name value.slug owner_user_id kind_link id now allow_reclaim t ≡ r
          → owner_of name
              (create_short_link owner_user_id value allow_reclaim limits now (some id) ids t).1
            ≡ some o
      go (error x) e = ground (arith, e)
      go (ok (claim, claimed)) e =
          let kept =
            claim_public_name-owner value.slug owner_user_id kind_link id now allow_reclaim t
              {claim = claim} {t' = claimed} owned e in
          ground (
            arith,
            e,
            kept,
            insert_destinations-names id 0 value.destinations ids (record claimed {
              short_links = claimed.short_links ++ link_row id owner_user_id value now ∷ [];
            }),
          )

  pub retire_short_link-owner :
      (id actor : Text) (include_all : Bool) (now : ℕ) (t : Tables)
      → owner_of name t ≡ some o
      → owner_of name (retire_short_link id actor include_all now t).1 ≡ some o
  unfolding retire_short_link update_link record_cross_owner_audit retire_name
  retire_short_link-owner id actor include_all now t owned = ground (
    arith,
    find-update_if (is_named name) (is_active_name id)
        (λ r. record r { retired_at = some (unix now) }) t.public_names (λ r. refl) (λ r. refl),
  )

  pub update_short_link-owner :
      (id actor : Text) (include_all : Bool) (input : Input) (now : ℕ) (ids : List Text)
      (t : Tables)
      → owner_of name t ≡ some o
      → owner_of name (update_short_link id actor include_all input now ids t).1 ≡ some o
  unfolding update_short_link update_link record_cross_owner_audit
  update_short_link-owner id actor include_all input now ids t owned =
      grind (arith, insert_destinations-names id 0 input.destinations ids)

  pub set_short_link_enabled-owner :
      (id actor : Text) (include_all enabled : Bool) (now : ℕ) (t : Tables)
      → owner_of name t ≡ some o
      → owner_of name (set_short_link_enabled id actor include_all enabled now t).1 ≡ some o
  unfolding set_short_link_enabled update_link record_cross_owner_audit
  set_short_link_enabled-owner id actor include_all enabled now t owned = ground arith

-- A user who is no superuser can neither update, disable, enable nor retire a link that is not the
-- user's own: for an identifier that no link of the user has, each call, that of an update with an input that
-- passes the checks, answers that there is none, and changes nothing.
pub management-not_found :
    (texts : Texts) (actor : LinkActor) (id : Text) (input validated : Input) (enabled : Bool)
    (now : ℕ) (ids : List Text) (t : Tables)
    → actor.superuser ≡ false
    → exists (λ l. l.id == id && l.owner_user_id == actor.user_id) t.short_links ≡ false
    → validate_input texts input false now ≡ ok validated
    → (update texts actor id input now ids t ≡ (error not_found, t))
      × (set_enabled actor id enabled now t ≡ (error not_found, t))
      × (retire actor id now t ≡ (error not_found, t))
unfolding update set_enabled retire update_short_link set_short_link_enabled retire_short_link
    update_link
management-not_found texts actor id input validated enabled now ids t plain foreign valid =
    let nothing : find (is_managed id actor.user_id false) t.short_links ≡ none =
      find-managed id actor.user_id t.short_links foreign in
    (ground (arith, nothing, valid), ground (arith, nothing), ground (arith, nothing))
