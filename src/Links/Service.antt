-- ===== src/Links/Service.antt =====
-- internal/shortlink/service.go: the calls of the service, with the counter beside the tables. The
-- time is an argument, and so is what `rand.Read` fills.
use wispdeck.Prelude.{
  ℕ, Bool, true, false, not, ◌||◌, ◌==◌, if◌then◌else◌, Text, List, [], ◌∷◌, Option, none, some,
  take, text_comparable,
}
use wispdeck.Prelude.Transactions.{Result, ok, error}
use wispdeck.Links.Types.{
  LinkError, LinkLimits, LinkActor, Link, Input, VisitBucket, forbidden, not_found,
  slug_unavailable, reclaim_confirmation, link_failed,
}
use wispdeck.Links.Rules.{
  Texts, normalize_slug, validate_input, confirmed_reclaim_of, link_from_input,
  validate_stored_link, valid_id, random_slug,
}
use wispdeck.Links.Tables.{Tables}
use wispdeck.Links.Store.{
  create_short_link, update_short_link, set_short_link_enabled, retire_short_link,
  resolve_short_link,
}
use wispdeck.Links.Visits.{VisitCounter, record_visit, drain, restore, add_short_link_visits}

-- What one attempt to create a link draws: the bytes of a slug, an identifier, and those of the destinations.
pub record Draw : Type 0 where
  pub slug : Option Text
  pub id : Option Text
  pub ids : List Text

-- `errors.Is(createErr, ErrSlugUnavailable)` or `ErrReclaimConfirmation`
abbrev is_taken : LinkError → Bool
is_taken slug_unavailable = true
is_taken reclaim_confirmation = true
is_taken _ = false

-- The loop over the attempts with a random name.
unfoldable pub create_random :
    Text → Input → LinkLimits → ℕ → List Draw → Tables → Result LinkError Link × Tables
create_random owner input limits now [] t = (error link_failed, t)
create_random owner input limits now (draw ∷ rest) t = elim draw.slug [
  | none ↦ (error link_failed, t)
  | some random ↦
      let (result, t') =
        create_short_link owner (link_from_input (record input { slug = random_slug random })) false
          limits now draw.id draw.ids t in
      let again = create_random owner input limits now rest t' in
      elim result [
        | ok link ↦ (ok link, t')
        | error e ↦ if is_taken e then again else (error e, t')
      ]
]

-- `Create` of a name that is asked for.
unfoldable pub create_named :
    Texts → Text → Input → LinkLimits → ℕ → Draw → Tables → Result LinkError Link × Tables
create_named texts owner input limits now draw t = elim (normalize_slug texts input.slug) [
  | error e ↦ (error e, t)
  | ok slug ↦
      create_short_link owner (link_from_input (record input { slug = slug }))
        (confirmed_reclaim_of texts input.confirmed_reclaim slug) limits now draw.id draw.ids t
]

-- `Create`; at most eight attempts.
unfoldable pub create :
    Texts
    → LinkActor
    → Input
    → LinkLimits
    → ℕ
    → Draw
    → List Draw
    → Tables
    → Result LinkError Link × Tables
create texts actor input limits now draw draws t =
    if actor.user_id == []
    then (error forbidden, t)
    else elim (validate_input texts input true now) [
      | error e ↦ (error e, t)
      | ok validated ↦
          if texts.trim_space validated.slug == []
          then create_random actor.user_id validated limits now (take 8 draws) t
          else create_named texts actor.user_id
              (record validated { slug = texts.trim_space validated.slug }) limits now draw t
    ]

abbrev unknown : LinkActor → Text → Bool
unknown actor id = actor.user_id == [] || not (valid_id id)

unfoldable pub update :
    Texts → LinkActor → Text → Input → ℕ → List Text → Tables → Result LinkError (Unit {0}) × Tables
update texts actor id input now ids t =
    if unknown actor id then (error not_found, t) else elim (validate_input texts input false now) [
      | error e ↦ (error e, t)
      | ok validated ↦ update_short_link id actor.user_id actor.superuser validated now ids t
    ]

unfoldable pub set_enabled :
    LinkActor → Text → Bool → ℕ → Tables → Result LinkError (Unit {0}) × Tables
set_enabled actor id enabled now t =
    if unknown actor id
    then (error not_found, t)
    else set_short_link_enabled id actor.user_id actor.superuser enabled now t

unfoldable pub retire : LinkActor → Text → ℕ → Tables → Result LinkError (Unit {0}) × Tables
retire actor id now t =
    if unknown actor id
    then (error not_found, t)
    else retire_short_link id actor.user_id actor.superuser now t

-- `Resolve`, with the counter after it.
unfoldable pub resolve :
    Texts → Text → Bool → ℕ → Tables → VisitCounter → Result LinkError Link × VisitCounter
resolve texts slug count_visit now t counter = elim (normalize_slug texts slug) [
  | error e ↦ (error not_found, counter)
  | ok name ↦ elim (resolve_short_link name now t) [
    | error e ↦ (error e, counter)
    | ok link ↦ elim (validate_stored_link texts link) [
      | error e ↦ (error e, counter)
      | ok checked ↦
          (ok checked, if count_visit then record_visit checked.id now counter else counter)
    ]
  ]
]

abbrev pub flushed :
    List VisitBucket
    → VisitCounter
    → Result LinkError (Unit {0}) × Tables
    → Result LinkError (Unit {0}) × Tables × VisitCounter
flushed buckets counter (ok a, t) = (ok a, t, counter)
flushed buckets counter (error e, t) = (error e, t, restore buckets counter)

-- Calls of `record`, each of a link and an instant.
unfoldable pub record_all : List (Text × ℕ) → VisitCounter → VisitCounter
record_all [] c = c
record_all ((link_id, now) ∷ rest) c = record_all rest (record_visit link_id now c)

-- `FlushVisits`, and the visits that other goroutines record while it writes to the database.
unfoldable pub flush_visits :
    List (Text × ℕ) → Tables → VisitCounter → Result LinkError (Unit {0}) × Tables × VisitCounter
flush_visits meanwhile t counter =
    let (buckets, drained) = drain counter in
    flushed buckets (record_all meanwhile drained) (add_short_link_visits buckets t)
