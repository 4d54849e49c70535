-- ===== src/Links/Tables.antt =====
-- internal/store/migrate.go: the tables of public names and short links, each a list of rows, with the keys and the CHECKs
-- that compare columns. Other CHECKs are those of Rules. The users are those of Accounts.
use wispdeck.Prelude.{
  ℕ, Bool, true, false, not, ◌&&◌, ◌||◌, Text, List, Option, none, some, leb, ltb, exists, ◌==◌,
  text_comparable,
}
use wispdeck.Prelude.Transactions.{Transaction}
use wispdeck.Accounts.Types.{user_active}
use wispdeck.Accounts.Tables.{UserRow, unix, fold_case}
use wispdeck.Links.Types.{LinkError}

pub record PublicNameRow : Type 0 where
  pub name : Text
  pub owner_user_id : Text
  pub kind : Text
  pub resource_id : Text
  pub created_at : ℕ
  pub retired_at : Option ℕ

pub record LinkRow : Type 0 where
  pub id : Text
  pub owner_user_id : Text
  pub slug : Text
  pub title : Text
  pub description : Text
  pub mode : Text
  pub enabled : Bool
  pub created_at : ℕ
  pub updated_at : ℕ
  pub expires_at : Option ℕ
  pub deleted_at : Option ℕ

pub record DestinationRow : Type 0 where
  pub id : Text
  pub link_id : Text
  pub position : ℕ
  pub label : Text
  pub target_url : Text

pub record StatRow : Type 0 where
  pub link_id : Text
  pub day : ℕ
  pub visits : ℕ
  pub last_visited_at : ℕ

pub record AuditRow : Type 0 where
  pub occurred_at : ℕ
  pub actor_user_id : Text
  pub owner_user_id : Text
  pub link_id : Text
  pub slug : Text
  pub kind : Text

pub record Tables : Type 0 where
  pub users : List UserRow
  pub public_names : List PublicNameRow
  pub short_links : List LinkRow
  pub destinations : List DestinationRow
  pub daily_stats : List StatRow
  pub audit_events : List AuditRow

abbrev pub Statements : Type 0 → Type 0
Statements A = Transaction Tables LinkError A

-- The names compare by `COLLATE NOCASE`.
abbrev pub is_named : Text → PublicNameRow → Bool
is_named name row = fold_case row.name == fold_case name

abbrev pub is_set : Option ℕ → Bool
is_set none = false
is_set (some t) = true

abbrev no_later : ℕ → Option ℕ → Bool
no_later t none = true
no_later t (some u) = leb t u

abbrev earlier : ℕ → Option ℕ → Bool
earlier t none = true
earlier t (some u) = ltb t u

-- `CHECK(retired_at IS NULL OR created_at <= retired_at)`
abbrev pub valid_name_row : PublicNameRow → Bool
valid_name_row row = no_later row.created_at row.retired_at

-- The three CHECKs at the end of short_links.
abbrev pub valid_link_row : LinkRow → Bool
valid_link_row row =
    leb row.created_at row.updated_at
    && earlier row.created_at row.expires_at
    && no_later row.created_at row.deleted_at
    && (not (is_set row.deleted_at) || not row.enabled)

-- `SELECT EXISTS(SELECT 1 FROM users WHERE id = ? AND status = ?)`
unfoldable pub is_active_owner : Text → Tables → Bool
is_active_owner id tables = exists (λ u. u.id == id && u.status == user_active) tables.users

abbrev pub is_user : Text → Tables → Bool
is_user id tables = exists (λ u. u.id == id) tables.users

-- `nullableUnix`
abbrev pub nullable_unix : Option ℕ → Option ℕ
nullable_unix none = none
nullable_unix (some t) = some (unix t)
