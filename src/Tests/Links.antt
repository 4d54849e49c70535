-- ===== src/Tests/Links.antt =====
-- Short links of one database, with the functions outside it made plain.
use wispdeck.Prelude.{
  ℕ, ◌+◌, ◌*◌, ◌≤◌, ◌≡◌, refl, arith, true, false, Text, text, text_eq, text_comparable, List, [],
  ◌∷◌, none, some, every, exists, length, find, update_if,
}
use wispdeck.Prelude.Transactions.{ok, error}
use wispdeck.Accounts.Types.{role_user, user_active}
use wispdeck.Accounts.Tables.{UserRow, fold_case}
use wispdeck.Accounts.Users.{new_row}
use wispdeck.Links.Types.{
  max_pending_buckets, mode_redirect, valid_mode, LinkActor, Destination, Link, Input, not_found,
}
use wispdeck.Links.Rules.{
  Texts, is_slug_char, valid_slug_chars, is_reserved, check_slug, normalize_slug, check_target,
  validate_target, check_line, normalize_single_line, replace_crlf, check_description,
  normalize_description, validate_each, validate_destinations, validate_input,
}
use wispdeck.Links.Tables.{PublicNameRow, LinkRow, Tables, is_active_owner}
use wispdeck.Links.Names.{kind_link, reclaim_name, claim_public_name}
use wispdeck.Links.Store.{
  insert_destination, insert_destinations, insert_link, create_short_link, update_link,
  record_cross_owner_audit, retire_name, retire_short_link,
}
use wispdeck.Links.Visits.{visit_key_eq, new_visit_counter}
use wispdeck.Links.Service.{update, set_enabled, retire}
use wispdeck.Links.Counting.{visits_among}
use wispdeck.Links.Totals.{
  VisitStep, run_visits, counted, visits_made, total, run_visits-new_visit_counter, visiting,
  flushing,
}
use wispdeck.Links.Owners.{owner_of, management-not_found}
use wispdeck.Links.Slugs.{normalize_slug-idempotent}
use wispdeck.Links.Owned.{AreOwned}
use Prim.{tt}
use wispdeck.Links.Runs.{LinkAction, step_links, run_links, run_links-AreOwned, creating, retiring}

abbrev plain_texts : Texts
plain_texts = record {
  trim_space = λ t. t;
  to_lower = λ t. t;
  equal_fold = text_eq;
  valid_string = λ t. true;
  runes = λ t. t;
  parse_url = λ t. some (record {
    opaque_part = [];
    has_user = false;
    host = text "host";
    hostname = text "host";
    scheme = text "https";
  });
}

abbrev ann : UserRow
ann = new_row (text "u1") (text "ann") (text "h") role_user user_active 0

abbrev ben : UserRow
ben = new_row (text "u2") (text "ben") (text "h") role_user user_active 0

abbrev docs_id : Text
docs_id = text "0123456789abcdef0123456789abcdef"

abbrev docs_link : LinkRow
docs_link = record {
  id = docs_id;
  owner_user_id = text "u1";
  slug = text "docs";
  title = [];
  description = [];
  mode = mode_redirect;
  enabled = true;
  created_at = 10;
  updated_at = 10;
  expires_at = none;
  deleted_at = none;
}

abbrev docs_name : PublicNameRow
docs_name = record {
  name = text "docs";
  owner_user_id = text "u1";
  kind = kind_link;
  resource_id = docs_id;
  created_at = 10;
  retired_at = none;
}

abbrev one_link : Tables
one_link = record {
  users = ann ∷ ben ∷ [];
  public_names = docs_name ∷ [];
  short_links = docs_link ∷ [];
  destinations = [];
  daily_stats = [];
  audit_events = [];
}

abbrev target : Destination
target = record { id = []; label = []; url = text "https://host"; position = 0 }

abbrev stolen : Link
stolen = record {
  id = [];
  owner_user_id = [];
  slug = text "docs";
  title = [];
  description = [];
  mode = mode_redirect;
  destinations = target ∷ [];
  enabled = false;
  created_at = none;
  updated_at = none;
  expires_at = none;
}

abbrev second : ℕ
second = 1000000000

-- The owner retires the name, another user asks for it, and the owner takes it again.
abbrev struggle : List LinkAction
struggle =
    retiring docs_id (text "u1") false (20 * second)
    ∷ creating (text "u2") stolen true (record { max_links_per_user = 5 }) (30 * second)
        (some (text "b")) (text "d" ∷ [])
    ∷ creating (text "u1") stolen true (record { max_links_per_user = 5 }) (40 * second)
        (some (text "c")) (text "d" ∷ [])
    ∷ []

one_link-AreOwned : AreOwned one_link one_link.short_links
unfolding AreOwned find fold_case text_eq
one_link-AreOwned = (refl, tt)

run_links-AreOwned_example :
    let after = run_links struggle one_link in
    AreOwned after after.short_links × (owner_of (text "docs") after ≡ some (text "u1"))
unfolding find fold_case text_eq
run_links-AreOwned_example =
    run_links-AreOwned (text "docs") struggle one_link one_link-AreOwned refl

-- The second creation takes the name for its own link.
struggle_ends :
    (run_links struggle one_link).public_names
    ≡ record docs_name { resource_id = text "c"; created_at = 40 } ∷ []
unfolding run_links step_links retire_short_link update_link record_cross_owner_audit retire_name
    create_short_link is_active_owner claim_public_name reclaim_name insert_link insert_destinations
    insert_destination find update_if exists fold_case text_eq
struggle_ends = refl

abbrev ben_acts : LinkActor
ben_acts = record { user_id = text "u2"; superuser = false }

abbrev change_asked : Input
change_asked = record {
  slug = text "docs";
  title = text "mine";
  description = [];
  mode = mode_redirect;
  destinations = target ∷ [];
  expires_at = none;
  confirmed_reclaim = [];
}

management-not_found_example :
    (update plain_texts ben_acts docs_id change_asked 50 [] one_link ≡ (error not_found, one_link))
    × (set_enabled ben_acts docs_id false 50 one_link ≡ (error not_found, one_link))
    × (retire ben_acts docs_id 50 one_link ≡ (error not_found, one_link))
unfolding exists text_eq validate_input valid_mode normalize_single_line check_line
    normalize_description check_description replace_crlf validate_destinations validate_each
    validate_target check_target
management-not_found_example =
    management-not_found plain_texts ben_acts docs_id change_asked
      (record change_asked { slug = [] }) false 50 [] one_link refl refl refl

normalize_slug-idempotent_example :
    (1 ≤ length (text "docs"))
    × (length (text "docs") ≤ 48)
    × (every is_slug_char (text "docs") ≡ true)
    × (is_reserved (text "docs") ≡ false)
    × (normalize_slug plain_texts (text "docs") ≡ ok (text "docs"))
unfolding normalize_slug check_slug valid_slug_chars is_reserved exists text_eq
normalize_slug-idempotent_example =
    normalize_slug-idempotent plain_texts (text "docs") (λ t h. refl) refl

-- Two visits, a flush that is not written since a bucket names no link, and one visit meanwhile.
abbrev traffic : List VisitStep
traffic =
    visiting docs_id (100 * second)
    ∷ visiting (text "gone") (100 * second)
    ∷ flushing ((docs_id, 200 * second) ∷ [])
    ∷ visiting docs_id (90000 * second)
    ∷ []

run_visits-new_visit_counter_example :
    total docs_id 0
      (run_visits traffic one_link (new_visit_counter max_pending_buckets)).0
      (run_visits traffic one_link (new_visit_counter max_pending_buckets)).1
    ≡ 0 + 2
unfolding visits_made counted visits_among visit_key_eq text_eq find
run_visits-new_visit_counter_example =
    run_visits-new_visit_counter traffic one_link docs_id 0 (omega arith) (omega arith)
