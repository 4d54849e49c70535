-- ===== src/Links/Held.antt =====
-- internal/store/shortlinks.go: each change of links leaves every link with the user who has its name.
use wispdeck.Prelude.{
  ℕ, ◌≡◌, refl, sym, subst, arith, Bool, false, Text, text_comparable, List, [], ◌∷◌, ◌++◌, Option,
  none, some, update_if, ◌⊎◌, inl, inr,
}
use wispdeck.Prelude.Transactions.{Result, ok, error}
use wispdeck.Accounts.Tables.{unix}
use wispdeck.Links.Types.{LinkError, LinkLimits, Link, Input}
use wispdeck.Links.Tables.{LinkRow, Tables, nullable_unix}
use wispdeck.Links.Names.{
  PublicNameClaim, name_claimed, name_reclaimed, name_needs_confirmation, name_unavailable,
  kind_link, claim_public_name,
}
use wispdeck.Links.Store.{
  link_row, insert_link, create_short_link, is_managed, update_link, record_cross_owner_audit,
  update_short_link, set_short_link_enabled, retire_name, retire_short_link,
}
use wispdeck.Links.Owners.{owner_of}
use wispdeck.Links.Owners.{insert_destinations-names, create_short_link-owner}
use wispdeck.Links.Owned.{
  AreOwned, AreOwned-append, AreOwned-update_if, AreOwned-kept, claim_public_name-granted,
  claim_public_name-links, insert_destinations-links,
}

module _ (owner_user_id : Text) (value : Link) (allow_reclaim : Bool) (limits : LinkLimits)
    (now : ℕ) (ids : List Text) (t : Tables) where
  -- No link is made, or one whose name is its owner's.
  create_short_link-made :
      (id : Text)
      → let after =
          (create_short_link owner_user_id value allow_reclaim limits now (some id) ids t).1 in
        (after.short_links ≡ t.short_links)
        ⊎ ((after.short_links ≡ t.short_links ++ link_row id owner_user_id value now ∷ [])
            × (owner_of value.slug after ≡ some owner_user_id))
  unfolding create_short_link insert_link
  create_short_link-made id =
      go (claim_public_name value.slug owner_user_id kind_link id now allow_reclaim t) refl
    where
      go :
          (r : Result LinkError (PublicNameClaim × Tables))
          → claim_public_name value.slug owner_user_id kind_link id now allow_reclaim t ≡ r
          → let after =
              (create_short_link owner_user_id value allow_reclaim limits now (some id) ids t).1 in
            (after.short_links ≡ t.short_links)
            ⊎ ((after.short_links ≡ t.short_links ++ link_row id owner_user_id value now ∷ [])
                × (owner_of value.slug after ≡ some owner_user_id))
      go (error x) e = inl (ground (arith, e))
      go (ok (name_needs_confirmation, claimed)) e = inl (ground (arith, e))
      go (ok (name_unavailable, claimed)) e = inl (ground (arith, e))
      go (ok (name_claimed, claimed)) e =
          let granted =
            claim_public_name-granted value.slug owner_user_id kind_link id now allow_reclaim t
              {claim = name_claimed} {t' = claimed} e refl in
          let links =
            claim_public_name-links value.slug owner_user_id kind_link id now allow_reclaim t
              {claim = name_claimed} {t' = claimed} e in
          let made = record claimed {
            short_links = claimed.short_links ++ link_row id owner_user_id value now ∷ [];
          } in
          ground (
            arith,
            e,
            granted,
            links,
            insert_destinations-names id 0 value.destinations ids made,
            insert_destinations-links id 0 value.destinations ids made,
          )
      go (ok (name_reclaimed, claimed)) e =
          let granted =
            claim_public_name-granted value.slug owner_user_id kind_link id now allow_reclaim t
              {claim = name_reclaimed} {t' = claimed} e refl in
          let links =
            claim_public_name-links value.slug owner_user_id kind_link id now allow_reclaim t
              {claim = name_reclaimed} {t' = claimed} e in
          let made = record claimed {
            short_links = claimed.short_links ++ link_row id owner_user_id value now ∷ [];
          } in
          ground (
            arith,
            e,
            granted,
            links,
            insert_destinations-names id 0 value.destinations ids made,
            insert_destinations-links id 0 value.destinations ids made,
          )

  pub create_short_link-AreOwned :
      (random : Option Text)
      → AreOwned t t.short_links
      → let after =
          (create_short_link owner_user_id value allow_reclaim limits now random ids t).1 in
        AreOwned after after.short_links
  create_short_link-AreOwned none owned = unfold create_short_link in owned
  create_short_link-AreOwned (some id) owned =
      let after =
        (create_short_link owner_user_id value allow_reclaim limits now (some id) ids t).1 in
      let kept =
        AreOwned-kept t after t.short_links
          (λ name o had.
            create_short_link-owner name {o = o} owner_user_id value allow_reclaim limits now
              (some id) ids t had)
          owned in
      elim (create_short_link-made id) [
        | inl same ↦ subst (AreOwned after) (sym same) kept
        | inr (made, here) ↦
            subst (AreOwned after) (sym made)
              (AreOwned-append after t.short_links (link_row id owner_user_id value now) kept here)
      ]

module _ (id actor : Text) (include_all : Bool) (now : ℕ) (t : Tables) where
  -- An UPDATE that keeps the slug and the owner of a link.
  update_links-kept :
      (names : Tables) (change : LinkRow → LinkRow)
      → ((l : LinkRow) → (change l).slug ≡ l.slug)
      → ((l : LinkRow) → (change l).owner_user_id ≡ l.owner_user_id)
      → AreOwned names t.short_links
      → AreOwned names (update_if (is_managed id actor include_all) change t.short_links)
  update_links-kept names change slugs owners owned =
      AreOwned-update_if names (is_managed id actor include_all) change t.short_links slugs owners
        owned

  pub set_short_link_enabled-links :
      (enabled : Bool) (names : Tables)
      → AreOwned names t.short_links
      → AreOwned names (set_short_link_enabled id actor include_all enabled now t).1.short_links
  unfolding set_short_link_enabled update_link record_cross_owner_audit
  set_short_link_enabled-links enabled names owned =
      let changed =
        update_links-kept names (λ l. record l { enabled = enabled; updated_at = unix now })
          (λ l. refl) (λ l. refl) owned in
      ground (arith, changed)

  pub retire_short_link-links :
      (names : Tables)
      → AreOwned names t.short_links
      → AreOwned names (retire_short_link id actor include_all now t).1.short_links
  unfolding retire_short_link update_link record_cross_owner_audit retire_name
  retire_short_link-links names owned =
      let changed =
        update_links-kept names
          (λ l. record l { enabled = false; updated_at = unix now; deleted_at = some (unix now) })
          (λ l. refl) (λ l. refl) owned in
      ground (arith, changed)

  pub update_short_link-links :
      (input : Input) (ids : List Text) (names : Tables)
      → AreOwned names t.short_links
      → AreOwned names (update_short_link id actor include_all input now ids t).1.short_links
  unfolding update_short_link update_link record_cross_owner_audit
  update_short_link-links input ids names owned =
      let changed =
        update_links-kept names
          (λ l. record l {
            title = input.title;
            description = input.description;
            mode = input.mode;
            expires_at = nullable_unix input.expires_at;
            updated_at = unix now;
          })
          (λ l. refl) (λ l. refl) owned in
      grind (arith, changed, insert_destinations-links id 0 input.destinations ids)
