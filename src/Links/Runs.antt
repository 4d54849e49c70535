-- ===== src/Links/Runs.antt =====
-- internal/store/shortlinks.go: the calls that change links and names, in any order.
use wispdeck.Prelude.{ℕ, ◌≡◌, Bool, Text, List, [], ◌∷◌, Option, some}
use wispdeck.Links.Types.{Link, LinkLimits, Input}
use wispdeck.Links.Tables.{Tables}
use wispdeck.Links.Store.{
  create_short_link, update_short_link, set_short_link_enabled, retire_short_link,
}
use wispdeck.Links.Owned.{AreOwned, AreOwned-kept}
use wispdeck.Links.Held.{
  create_short_link-AreOwned, update_short_link-links, set_short_link_enabled-links,
  retire_short_link-links,
}
use wispdeck.Links.Owners.{
  owner_of, create_short_link-owner, update_short_link-owner, set_short_link_enabled-owner,
  retire_short_link-owner,
}

pub data LinkAction : Type 0 where
  creating : Text → Link → Bool → LinkLimits → ℕ → Option Text → List Text → LinkAction
  updating : (id actor : Text) → Bool → Input → ℕ → List Text → LinkAction
  enabling : (id actor : Text) → (include_all enabled : Bool) → ℕ → LinkAction
  retiring : (id actor : Text) → Bool → ℕ → LinkAction

unfoldable pub step_links : LinkAction → Tables → Tables
step_links (creating owner value allow_reclaim limits now random ids) t =
    (create_short_link owner value allow_reclaim limits now random ids t).1
step_links (updating id actor include_all input now ids) t =
    (update_short_link id actor include_all input now ids t).1
step_links (enabling id actor include_all enabled now) t =
    (set_short_link_enabled id actor include_all enabled now t).1
step_links (retiring id actor include_all now) t = (retire_short_link id actor include_all now t).1

unfoldable pub run_links : List LinkAction → Tables → Tables
run_links [] t = t
run_links (action ∷ rest) t = run_links rest (step_links action t)

step_links-owner :
    (name : Text) {o : Text} (action : LinkAction) (t : Tables)
    → owner_of name t ≡ some o
    → owner_of name (step_links action t) ≡ some o
unfolding step_links
step_links-owner name (creating owner value allow_reclaim limits now random ids) t owned =
    create_short_link-owner name owner value allow_reclaim limits now random ids t owned
step_links-owner name (updating id actor include_all input now ids) t owned =
    update_short_link-owner name id actor include_all input now ids t owned
step_links-owner name (enabling id actor include_all enabled now) t owned =
    set_short_link_enabled-owner name id actor include_all enabled now t owned
step_links-owner name (retiring id actor include_all now) t owned =
    retire_short_link-owner name id actor include_all now t owned

step_links-AreOwned :
    (action : LinkAction) (t : Tables)
    → AreOwned t t.short_links
    → AreOwned (step_links action t) (step_links action t).short_links
unfolding step_links
step_links-AreOwned (creating owner value allow_reclaim limits now random ids) t owned =
    create_short_link-AreOwned owner value allow_reclaim limits now ids t random owned
step_links-AreOwned (updating id actor include_all input now ids) t owned =
    let after = (update_short_link id actor include_all input now ids t).1 in
    AreOwned-kept t after after.short_links
      (λ name o had. update_short_link-owner name {o = o} id actor include_all input now ids t had)
      (update_short_link-links id actor include_all now t input ids t owned)
step_links-AreOwned (enabling id actor include_all enabled now) t owned =
    let after = (set_short_link_enabled id actor include_all enabled now t).1 in
    AreOwned-kept t after after.short_links
      (λ name o had.
        set_short_link_enabled-owner name {o = o} id actor include_all enabled now t had)
      (set_short_link_enabled-links id actor include_all now t enabled t owned)
step_links-AreOwned (retiring id actor include_all now) t owned =
    let after = (retire_short_link id actor include_all now t).1 in
    AreOwned-kept t after after.short_links
      (λ name o had. retire_short_link-owner name {o = o} id actor include_all now t had)
      (retire_short_link-links id actor include_all now t t owned)

-- Where each link, retired ones included, belongs to the user who has its name, it does so after any
-- links are created, updated, enabled, disabled and retired, by whomever and with whatever outcome, and a
-- name that a user has stays that user's: no one takes over a name of another.
pub run_links-AreOwned :
    (name : Text) {o : Text} (actions : List LinkAction) (t : Tables)
    → AreOwned t t.short_links
    → owner_of name t ≡ some o
    → AreOwned (run_links actions t) (run_links actions t).short_links
      × (owner_of name (run_links actions t) ≡ some o)
unfolding run_links
run_links-AreOwned name [] t owned had = (owned, had)
run_links-AreOwned name {o} (action ∷ rest) t owned had =
    run_links-AreOwned name {o = o} rest (step_links action t) (step_links-AreOwned action t owned)
      (step_links-owner name action t had)
