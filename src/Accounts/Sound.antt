-- ===== src/Accounts/Sound.antt =====
-- internal/store/users.go and internal/store/sqlite.go: the invariant of the tables of users and
-- sessions, and the changes of rows that keep it.
use wispdeck.Prelude.{
  ◌≡◌, inl, inr, refl, arith, Bool, true, false, not, ◌&&◌, ◌||◌, ◌==◌, Text, text_comparable,
  text_eq_iff, List, [], ◌∷◌, ◌++◌, some, exists, every, find, keep, update_if, Bool-cases,
}
use wispdeck.Accounts.Types.{user_active}
use wispdeck.Accounts.Tables.{UserRow, SessionRow, Control}
use wispdeck.Accounts.Users.{has_id}
use wispdeck.Accounts.Rows.{
  exists-append, every-append, every-keep, every-weaken, exists-weaken, exists-update_if,
  exists-update_other, every-update_if, is_active_superuser, is_active_user, UniqueIds,
  update_if-UniqueIds, append-UniqueIds, exists-other,
}

-- The session's user is there and active.
abbrev pub is_held : List UserRow → SessionRow → Bool
is_held users s = exists (is_active_user s.user_id) users

unfoldable pub IsSoundRows : List UserRow → List SessionRow → Type 0
IsSoundRows users sessions =
    UniqueIds users
    × (exists is_active_superuser users ≡ true)
    × (every (is_held users) sessions ≡ true)

-- One row per identifier, an active superuser, and no session but of an active user.
unfoldable pub IsSound : Control → Type 0
IsSound control = IsSoundRows control.users control.sessions

module _ (users : List UserRow) (sessions : List SessionRow) where
  pub add_user-IsSoundRows :
      (row : UserRow)
      → exists (has_id row.id) users ≡ false
      → IsSoundRows users sessions
      → IsSoundRows (users ++ row ∷ []) sessions
  unfolding IsSoundRows
  add_user-IsSoundRows row fresh (unique, superuser, held) =
      let held' : every (is_held (users ++ row ∷ [])) sessions ≡ true =
        every-weaken (is_held users) (is_held (users ++ row ∷ [])) sessions
          (λ s h. ground (arith, exists-append (is_active_user s.user_id) users (row ∷ []))) held in
      (
        append-UniqueIds users row fresh unique,
        ground (arith, exists-append is_active_superuser users (row ∷ [])),
        held',
      )

  pub add_session-IsSoundRows :
      (s : SessionRow)
      → exists (is_active_user s.user_id) users ≡ true
      → IsSoundRows users sessions
      → IsSoundRows users (sessions ++ s ∷ [])
  unfolding IsSoundRows every
  add_session-IsSoundRows s active (unique, superuser, held) =
      (unique, superuser, ground (arith, every-append (is_held users) sessions (s ∷ [])))

  pub keep-IsSoundRows :
      (q : SessionRow → Bool) → IsSoundRows users sessions → IsSoundRows users (keep q sessions)
  unfolding IsSoundRows
  keep-IsSoundRows q (unique, superuser, held) =
      (unique, superuser, every-keep (is_held users) q sessions held)

  pub update_session-IsSoundRows :
      (q : SessionRow → Bool) (f : SessionRow → SessionRow)
      → ((s : SessionRow) → (f s).user_id ≡ s.user_id)
      → IsSoundRows users sessions
      → IsSoundRows users (update_if q f sessions)
  unfolding IsSoundRows
  update_session-IsSoundRows q f kept (unique, superuser, held) = (
    unique,
    superuser,
    every-update_if (is_held users) q f sessions (λ s h. ground (arith, kept s)) held,
  )

  -- A change of users that keeps the identifier, and under which an active user stays active.
  pub update_user-IsSoundRows :
      (q : UserRow → Bool) (f : UserRow → UserRow)
      → ((u : UserRow) → (f u).id ≡ u.id)
      → ((u : UserRow) → (u.status == user_active) ≡ true → ((f u).status == user_active) ≡ true)
      → exists is_active_superuser (update_if q f users) ≡ true
      → IsSoundRows users sessions
      → IsSoundRows (update_if q f users) sessions
  unfolding IsSoundRows
  update_user-IsSoundRows q f same active superuser' (unique, superuser, held) = (
    update_if-UniqueIds q f users same unique,
    superuser',
    every-weaken (is_held users) (is_held (update_if q f users)) sessions
        (λ s.
          exists-update_if (is_active_user s.user_id) q f users
            (λ u h. ground (arith, same u, active u)))
        held,
  )

  -- Where the row of an identifier is an active superuser only if there is another one.
  pub superuser-update_id :
      (id : Text) (f : UserRow → UserRow) {row : UserRow}
      → find (has_id id) users ≡ some row
      → (not (is_active_superuser row)
          || exists (λ u. not (has_id id u) && is_active_superuser u) users)
        ≡ true
      → IsSoundRows users sessions
      → exists is_active_superuser (update_if (has_id id) f users) ≡ true
  unfolding IsSoundRows
  superuser-update_id id f {row} found another (unique, superuser, held) =
      elim (Bool-cases (is_active_superuser row)) [
        | inl same ↦ exists-update_other is_active_superuser (has_id id) f users (ground arith)
        | inr other ↦
            exists-update_other is_active_superuser (has_id id) f users
              (exists-other is_active_superuser id users unique found other superuser)
      ]

every-held_other :
    (id : Text) (f : UserRow → UserRow) (users : List UserRow) (sessions : List SessionRow)
    → every (is_held users) sessions ≡ true
    → every (is_held (update_if (has_id id) f users)) (keep (λ s. not (s.user_id == id)) sessions)
      ≡ true
unfolding every keep
every-held_other id f users [] held = refl
every-held_other id f users (s ∷ sessions) held = elim (Bool-cases (s.user_id == id)) [
  | inl same ↦ ground (arith, every-held_other id f users sessions)
  | inr other ↦
      let still : exists (is_active_user s.user_id) (update_if (has_id id) f users) ≡ true =
        exists-update_other (is_active_user s.user_id) (has_id id) f users (
          exists-weaken (is_active_user s.user_id)
            (λ u. not (has_id id u) && is_active_user s.user_id u) users
            (λ u h.
              ground
                (arith, text_eq_iff u.id id, text_eq_iff u.id s.user_id, text_eq_iff s.user_id id))
            (ground arith)) in
      ground (arith, every-held_other id f users sessions)
]

-- A user who is disabled, and whose sessions go.
pub disable-IsSoundRows :
    (id : Text) (f : UserRow → UserRow) (users : List UserRow) (sessions : List SessionRow)
    → ((u : UserRow) → (f u).id ≡ u.id)
    → exists is_active_superuser (update_if (has_id id) f users) ≡ true
    → IsSoundRows users sessions
    → IsSoundRows (update_if (has_id id) f users) (keep (λ s. not (s.user_id == id)) sessions)
unfolding IsSoundRows
disable-IsSoundRows id f users sessions same superuser' (unique, superuser, held) = (
  update_if-UniqueIds (has_id id) f users same unique,
  superuser',
  every-held_other id f users sessions held,
)
