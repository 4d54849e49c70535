-- ===== src/Links/Stored.antt =====
-- internal/store/shortlinks.go: what AddShortLinkVisits adds to the table of daily visits.
use wispdeck.Prelude.{
  ℕ, ◌+◌, ◌≡◌, refl, ap, ◌∙◌, subst, arith, false, ◌&&◌, ◌==◌, if◌then◌else◌, Text, text_comparable,
  text_eq_iff, text_eq_refl, ℕ_comparable, List, [], ◌∷◌, ◌++◌, Option, none, some, find, update_if,
  Bool-cases, Option-cases, inl, inr,
}
use wispdeck.Prelude.Transactions.{Result, ok, error}
use wispdeck.Accounts.Tables.{unix}
use wispdeck.Links.Types.{VisitBucket, LinkError}
use wispdeck.Links.Tables.{StatRow, Tables}
use wispdeck.Links.Visits.{
  visit_key_comparable, visit_key_eq, unix_of, utc_day, is_stat, add_stat, upsert_stat, add_visits,
  add_each_visits,
}
use wispdeck.Links.Counting.{key_of, weight, bucket_visits}

abbrev row_visits : Option StatRow → ℕ
row_visits none = 0
row_visits (some row) = row.visits

-- The visits that the table has of a link on a day.
abbrev pub stored : Text → ℕ → List StatRow → ℕ
stored link_id day rows = row_visits (find (is_stat link_id day) rows)

-- Every bucket's day is a midnight.
unfoldable pub IsMidnights : List VisitBucket → Type 0
IsMidnights [] = Unit {0}
IsMidnights (b ∷ rest) = (utc_day b.day ≡ b.day) × IsMidnights rest

abbrev stat_weight : Text → ℕ → Text → ℕ → ℕ → ℕ
stat_weight l d link_id day visits = if l == link_id && d == day then visits else 0

stored-update_same :
    (l : Text) (d visits last : ℕ) (rows : List StatRow) {row : StatRow}
    → find (is_stat l d) rows ≡ some row
    → stored l d (update_if (is_stat l d) (add_stat visits last) rows) ≡ row.visits + visits
unfolding find update_if
stored-update_same l d visits last [] found = ground arith
stored-update_same l d visits last (r ∷ rows) {row} found =
    ground (arith, stored-update_same l d visits last rows {row = row}, text_eq_refl l)

stored-update_other :
    (l link_id : Text) (d day visits last : ℕ) (rows : List StatRow)
    → (l == link_id && d == day) ≡ false
    → stored link_id day (update_if (is_stat l d) (add_stat visits last) rows)
      ≡ stored link_id day rows
unfolding find update_if
stored-update_other l link_id d day visits last [] other = refl
stored-update_other l link_id d day visits last (r ∷ rows) other = ground (
  arith,
  stored-update_other l link_id d day visits last rows,
  text_eq_iff r.link_id l,
  text_eq_iff r.link_id link_id,
  text_eq_iff l link_id,
)

stored-append :
    (link_id : Text) (day : ℕ) (rows : List StatRow) (row : StatRow)
    → stored link_id day (rows ++ row ∷ [])
      ≡ row_visits (elim (find (is_stat link_id day) rows) [
        | some r ↦ some r
        | none ↦ if is_stat link_id day row then some row else none
      ])
unfolding find
stored-append link_id day [] row = ground arith
stored-append link_id day (r ∷ rows) row = ground (arith, stored-append link_id day rows row)

module _ (l : Text) (d visits last : ℕ) (t t' : Tables)
    (written : upsert_stat l d visits last t ≡ ok (tt, t')) where
  stored-upsert_same : stored l d t'.daily_stats ≡ stored l d t.daily_stats + visits
  unfolding upsert_stat
  stored-upsert_same = elim (Option-cases (find (is_stat l d) t.daily_stats)) [
    | inl absent ↦ ground (
      arith,
      absent,
      stored-append l d t.daily_stats
          (record { link_id = l; day = d; visits = visits; last_visited_at = last }),
      text_eq_refl l,
    )
    | inr (row, found) ↦
        ground (arith, found, stored-update_same l d visits last t.daily_stats {row = row} found)
  ]

  stored-upsert_other :
      (link_id : Text) (day : ℕ)
      → (l == link_id && d == day) ≡ false
      → stored link_id day t'.daily_stats ≡ stored link_id day t.daily_stats
  unfolding upsert_stat
  stored-upsert_other link_id day other = elim (Option-cases (find (is_stat l d) t.daily_stats)) [
    | inl absent ↦ ground (
      arith,
      absent,
      stored-append link_id day t.daily_stats
          (record { link_id = l; day = d; visits = visits; last_visited_at = last }),
    )
    | inr (row, found) ↦
        ground (arith, found, stored-update_other l link_id d day visits last t.daily_stats other)
  ]

  -- A row that is written adds its visits to those of its link and day.
  stored-upsert_stat :
      (link_id : Text) (day : ℕ)
      → stored link_id day t'.daily_stats
        ≡ stored link_id day t.daily_stats + stat_weight l d link_id day visits
  stored-upsert_stat link_id day = elim (Bool-cases (l == link_id && d == day)) [
    | inl same ↦
        let equal : l ≡ link_id = (text_eq_iff l link_id).0 (ground arith) in
        let equal_day : d ≡ day = ground arith in
        let moved : stored link_id day t'.daily_stats ≡ stored link_id day t.daily_stats + visits =
          subst (λ e. stored link_id e t'.daily_stats ≡ stored link_id e t.daily_stats + visits)
            equal_day
            (subst (λ n. stored n d t'.daily_stats ≡ stored n d t.daily_stats + visits) equal
              stored-upsert_same) in
        ground (arith, moved)
    | inr other ↦ ground (arith, stored-upsert_other link_id day other)
  ]

stored-add_visits :
    (b : VisitBucket) (link_id : Text) (day : ℕ) (t t' : Tables)
    → utc_day b.day ≡ b.day
    → add_visits b t ≡ ok (tt, t')
    → stored link_id day t'.daily_stats
      ≡ stored link_id day t.daily_stats
        + weight (key_of b) (record { link_id = link_id; day = some day }) b.visits
unfolding add_visits visit_key_eq
stored-add_visits b link_id day t t' midnight written = elim (Option-cases b.day) [
  | inl absent ↦ ground (arith, absent)
  | inr (d, dated) ↦ elim (Option-cases b.last_visited_at) [
    | inl absent ↦ ground (arith, absent, dated)
    | inr (last, seen) ↦
        let upserted : upsert_stat b.link_id (unix d) b.visits (unix last) t ≡ ok (tt, t') =
          ground (arith, dated, seen) in
        let keyed : unix_of (utc_day b.day) ≡ some (unix d) = ap unix_of (midnight ∙ dated) in
        ground (
          arith,
          keyed,
          stored-upsert_stat b.link_id (unix d) b.visits (unix last) t t' upserted link_id day,
        )
  ]
]

add_each_visits-first :
    (b : VisitBucket) (rest : List VisitBucket) (t t' : Tables)
    → add_each_visits (b ∷ rest) t ≡ ok (tt, t')
    → (between : Tables) × (add_visits b t ≡ ok (tt, between))
      × (add_each_visits rest between ≡ ok (tt, t'))
unfolding add_each_visits
add_each_visits-first b rest t t' written = go (add_visits b t) refl
  where
    go :
        (r : Result LinkError (Unit {0} × Tables))
        → add_visits b t ≡ r
        → (between : Tables) × (add_visits b t ≡ ok (tt, between))
          × (add_each_visits rest between ≡ ok (tt, t'))
    go (error e) first = ground (arith, first)
    go (ok (u, between)) first = (between, first, ground (arith, first))

-- Buckets that are written add up to what is stored of each link and day.
pub stored-add_each_visits :
    (bs : List VisitBucket) (link_id : Text) (day : ℕ) (t t' : Tables)
    → IsMidnights bs
    → add_each_visits bs t ≡ ok (tt, t')
    → stored link_id day t'.daily_stats
      ≡ stored link_id day t.daily_stats
        + bucket_visits (record { link_id = link_id; day = some day }) bs
unfolding add_each_visits bucket_visits IsMidnights
stored-add_each_visits [] link_id day t t' midnights written = ground arith
stored-add_each_visits (b ∷ rest) link_id day t t' (midnight, midnights) written =
    let (between, first, others) = add_each_visits-first b rest t t' written in
    let one = stored-add_visits b link_id day t between midnight first in
    let more = stored-add_each_visits rest link_id day between t' midnights others in omega arith
