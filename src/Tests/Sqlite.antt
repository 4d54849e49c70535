-- ===== src/Tests/Sqlite.antt =====
-- wispist/sqlite/store.go and wispist/cursor.go at concrete inputs.
use wispdeck.Prelude.{
  ℕ, ◌≤◌, ◌≡◌, ◌≢◌, refl, arith, [], ◌∷◌, Option, none, some, true, false, Text, text, length, take,
  inr, ◌==◌, text_eq, text_comparable, lookup, insert, keep, find, exists, update_if, total,
  order_by, insert_sorted, if◌then◌else◌, length-take, List, not, every,
}
use wispdeck.Wispist.Cursor.{
  PortableChangeCursor, Codec, cursor_namespace_digest, encode_change_cursor, decode_change_cursor,
  decode-encode_change_cursor,
}
use wispdeck.Wispist.Types.{
  Document, Change, change_create, change_update, MutationLimits, CreateRequest, PutRequest,
  DeleteRequest, ClearCollectionRequest, revision_conflict, idempotency_conflict,
  document_not_found,
}
use wispdeck.Wispist.Sqlite.Tables.{Database, empty, ok, err}
use wispdeck.Wispist.Sqlite.Steps.{
  is_at, is_in, select_document, namespace_bytes, collection_documents, check_replacement_capacity,
  check_create_capacity, last_sequence, next_sequence, insert_document, insert_change,
  stale_sequences, cleanup_changes, cleaned, cleanup_idempotency, is_live_record,
  idempotent_document, insert_idempotency, change_for_document,
}
use wispdeck.Wispist.Sqlite.Store.{
  get, idempotency_count, create_new, create_unless, create_body, create, finish_put,
  update_document, put_over, put_found, put_body, put, delete_document, delete_found, delete_body,
  delete, new_document, deletion,
}
use wispdeck.Wispist.Sqlite.Documents.{stored, Advances, create-get, put-get, kept_instant}
use wispdeck.Wispist.Sqlite.Writers.{put-put_stale, put-delete_stale, delete-get}
use wispdeck.Wispist.Sqlite.Quota.{
  WithinBytes, WithinDocuments, create-within_limits, put-within_limits,
}
use wispdeck.Wispist.Sqlite.Keys.{HasUniqueKeys, write-UniqueKeys}
use wispdeck.Wispist.Sqlite.Replay.{create-create}
use wispdeck.Wispist.Sqlite.Admin.{
  clear_collection, collection_rows, purge_namespace, snapshot, snapshot_namespaces, snapshot_rows,
  new_snapshots,
}
use wispdeck.Wispist.Sqlite.Cleared.{are_past, clear_collection-succeeds}

abbrev toy_unmarshal : Text → Option PortableChangeCursor
toy_unmarshal [] = none
toy_unmarshal (n ∷ namespace) = some (record { namespace = namespace; sequence = n })

toy_short : (raw : Text) (n : ℕ) → length (n ∷ take 16 raw) ≤ 512
toy_short raw n = omega (arith, length-take 16 raw)

-- Functions with the laws that the cursors rely on.
abbrev toy_codec : Codec
toy_codec = record {
  encode_base64 = λ raw. raw;
  decode_base64 = λ raw. some raw;
  marshal = λ c. c.sequence ∷ c.namespace;
  unmarshal = toy_unmarshal;
  sha256 = λ raw. raw;
  decode-encode = λ raw. refl;
  unmarshal-marshal = λ raw n h. refl;
  marshal_short = λ raw n h. toy_short raw n;
}

decode-encode_change_cursor_example :
    decode_change_cursor toy_codec (text "b") (encode_change_cursor toy_codec (text "a") 7) ≡ (
      if cursor_namespace_digest toy_codec (text "a")
        == cursor_namespace_digest toy_codec (text "b")
      then some 7
      else none)
decode-encode_change_cursor_example =
    decode-encode_change_cursor toy_codec (text "a") (text "b") 7 (omega arith)

abbrev limits : MutationLimits
limits = record {
  max_documents = 3;
  max_document_bytes = 20;
  max_namespace_bytes = 30;
  max_idempotency_records = 5;
  change_retention_entries = 10;
  change_retention_age = 1000000000;
  idempotency_retention = 60000000000;
}

abbrev creation : CreateRequest
creation = record {
  namespace = text "live";
  collection = text "notes";
  id = text "n1";
  body = text "{}";
  idempotency_key = text "key-1";
  fingerprint = text "f";
  now = 5000000000;
  limits = limits;
}

abbrev drawn : Option Text
drawn = some (text "r1")

abbrev created_document : Document
created_document = new_document (text "n1") (text "r1") (text "{}") 5000000000

abbrev created_change : Change
created_change = record {
  sequence = 1;
  cursor = 1 ∷ text "live";
  collection = text "notes";
  operation = change_create;
  document = some created_document;
  id = text "n1";
  revision = text "r1";
}

abbrev after_creation : Database
after_creation = (create toy_codec drawn creation empty).1

created :
    create toy_codec drawn creation empty
    ≡ (ok (created_document, some created_change, false), after_creation)
unfolding create create_body create_unless create_new cleanup_idempotency cleaned
    idempotent_document select_document is_at is_live_record check_create_capacity
    check_replacement_capacity collection_documents namespace_bytes idempotency_count next_sequence
    last_sequence insert_document insert_change insert_idempotency cleanup_changes stale_sequences
    change_for_document encode_change_cursor cursor_namespace_digest lookup insert keep find exists
    total order_by insert_sorted text_eq
created = refl

create-get_example :
    (get (text "live") (text "notes") (text "n1") after_creation ≡ ok (stored created_document))
    × (created_document.body ≡ creation.body)
    × Advances (text "live") empty after_creation 1
create-get_example =
    create-get toy_codec drawn creation empty after_creation created_document created_change created

create-within_limits_example :
    WithinBytes (text "live") limits after_creation
    × WithinDocuments (text "live") (text "notes") limits after_creation
    × (length created_document.body ≤ 20)
create-within_limits_example =
    create-within_limits toy_codec drawn creation empty after_creation created_document
      created_change created

abbrev resent : CreateRequest
resent = record creation { id = text "n2"; now = 6000000000 }

create-create_example : create toy_codec (some (text "r2")) resent after_creation ≡ (
    if creation.fingerprint == resent.fingerprint
    then (ok (stored created_document, none, true), after_creation)
    else (err idempotency_conflict, after_creation))
create-create_example =
    create-create toy_codec drawn (some (text "r2")) creation resent empty after_creation
      created_document created_change created refl refl (omega arith) (omega arith)

abbrev replacement : PutRequest
replacement = record {
  namespace = text "live";
  collection = text "notes";
  id = text "n1";
  body = text "{1}";
  create_only = false;
  expected_revision = text "r1";
  now = 7000000000;
  limits = limits;
}

abbrev replaced_document : Document
replaced_document = record {
  id = text "n1";
  revision = text "r2";
  created_at = 5000000000;
  updated_at = 7000000000;
  body = text "{1}";
}

abbrev replaced_change : Change
replaced_change = record {
  sequence = 2;
  cursor = 2 ∷ text "live";
  collection = text "notes";
  operation = change_update;
  document = some replaced_document;
  id = text "n1";
  revision = text "r2";
}

abbrev after_replacement : Database
after_replacement = (put toy_codec (some (text "r2")) replacement after_creation).1

replaced :
    put toy_codec (some (text "r2")) replacement after_creation
    ≡ (ok (replaced_document, replaced_change), after_replacement)
unfolding create create_body create_unless create_new cleanup_idempotency cleaned
    idempotent_document select_document is_at is_live_record check_create_capacity
    check_replacement_capacity collection_documents namespace_bytes idempotency_count next_sequence
    last_sequence insert_document insert_change insert_idempotency cleanup_changes stale_sequences
    change_for_document encode_change_cursor cursor_namespace_digest lookup insert keep find exists
    total order_by insert_sorted text_eq put put_body put_found put_over update_document update_if
    finish_put
replaced = refl

put-get_example :
    (get (text "live") (text "notes") (text "n1") after_replacement ≡ ok (stored replaced_document))
    × (replaced_document.body ≡ replacement.body)
    × (replaced_document.created_at
        ≡ kept_instant
            (select_document (text "live") (text "notes") (text "n1") after_creation)
            7000000000)
    × Advances (text "live") after_creation after_replacement 2
put-get_example =
    put-get toy_codec (some (text "r2")) replacement after_creation after_replacement
      replaced_document replaced_change replaced

text_ne : text "r1" ≢ text "r2"
text_ne e = ground arith

put-put_stale_example :
    put toy_codec (some (text "r3")) replacement after_replacement
    ≡ (err revision_conflict, after_replacement)
put-put_stale_example =
    put-put_stale toy_codec (some (text "r2")) replacement after_creation after_replacement
      replaced_document replaced_change replaced replacement (some (text "r3")) refl refl refl
      (inr text_ne)

abbrev deletion_request : DeleteRequest
deletion_request = record {
  namespace = text "live";
  collection = text "notes";
  id = text "n1";
  expected_revision = text "r1";
  now = 8000000000;
  limits = limits;
}

put-delete_stale_example :
    delete toy_codec deletion_request after_replacement ≡ (err revision_conflict, after_replacement)
put-delete_stale_example =
    put-delete_stale toy_codec (some (text "r2")) replacement after_creation after_replacement
      replaced_document replaced_change replaced deletion_request refl refl refl text_ne

abbrev after_deletion : Database
after_deletion = (delete toy_codec deletion_request after_creation).1

deleted : delete toy_codec deletion_request after_creation ≡ (
  ok (deletion toy_codec (text "live") (text "notes") 2 (text "n1") (text "r1")),
  after_deletion,
)
unfolding create create_body create_unless create_new cleanup_idempotency cleaned
    idempotent_document select_document is_at is_live_record check_create_capacity
    check_replacement_capacity collection_documents namespace_bytes idempotency_count next_sequence
    last_sequence insert_document insert_change insert_idempotency cleanup_changes stale_sequences
    change_for_document encode_change_cursor cursor_namespace_digest lookup insert keep find exists
    total order_by insert_sorted text_eq delete delete_body delete_found delete_document
deleted = refl

unique_after_creation : HasUniqueKeys after_creation
unique_after_creation = (write-UniqueKeys toy_codec drawn empty tt).0 creation

delete-get_example :
    (d : Document) × (get (text "live") (text "notes") (text "n1") after_creation ≡ ok d)
    × (d.revision ≡ text "r1")
    × (text "r1" ≡ deletion_request.expected_revision)
    × (get (text "live") (text "notes") (text "n1") after_deletion ≡ err document_not_found)
    × (after_deletion.documents
        ≡ keep
            (λ r. not (is_at (text "live") (text "notes") (text "n1") r))
            after_creation.documents)
delete-get_example =
    delete-get toy_codec deletion_request after_creation after_deletion
      (deletion toy_codec (text "live") (text "notes") 2 (text "n1") (text "r1"))
      unique_after_creation deleted

put-within_limits_example :
    WithinBytes (text "live") limits after_replacement × (length replaced_document.body ≤ 20)
put-within_limits_example =
    put-within_limits toy_codec (some (text "r2")) replacement after_creation after_replacement
      replaced_document replaced_change unique_after_creation replaced

abbrev clearing : ClearCollectionRequest
clearing = record {
  namespace = text "live";
  collection = text "notes";
  now = 9000000000;
  limits = limits;
}

past_after_creation : are_past (text "live") after_creation ≡ true
unfolding create create_body create_unless create_new cleanup_idempotency cleaned
    idempotent_document select_document is_at is_live_record check_create_capacity
    check_replacement_capacity collection_documents namespace_bytes idempotency_count next_sequence
    last_sequence insert_document insert_change insert_idempotency cleanup_changes stale_sequences
    change_for_document encode_change_cursor cursor_namespace_digest lookup insert keep find exists
    every total order_by insert_sorted text_eq
past_after_creation = refl

clear_collection-succeeds_example :
    (changes : List Change) × (after : Database) × (clear_collection toy_codec clearing
        after_creation
      ≡ (ok changes, after))
    × (length changes ≡ length (collection_rows (text "live") (text "notes") after_creation))
    × (after.documents
        ≡ keep (λ r. not (is_in (text "live") (text "notes") r)) after_creation.documents)
clear_collection-succeeds_example =
    clear_collection-succeeds toy_codec clearing after_creation unique_after_creation
      past_after_creation

snapshot_live :
    snapshot (text "live") after_creation ≡ (text "notes", stored created_document ∷ []) ∷ []
unfolding create create_body create_unless create_new cleanup_idempotency cleaned
    idempotent_document select_document is_at is_live_record check_create_capacity
    check_replacement_capacity collection_documents namespace_bytes idempotency_count next_sequence
    last_sequence insert_document insert_change insert_idempotency cleanup_changes stale_sequences
    change_for_document encode_change_cursor cursor_namespace_digest lookup insert keep find exists
    every total order_by insert_sorted text_eq snapshot snapshot_namespaces snapshot_rows
    new_snapshots
snapshot_live = refl

purged_live : (purge_namespace (text "live") after_creation).1 ≡ empty
unfolding create create_body create_unless create_new cleanup_idempotency cleaned
    idempotent_document select_document is_at is_live_record check_create_capacity
    check_replacement_capacity collection_documents namespace_bytes idempotency_count next_sequence
    last_sequence insert_document insert_change insert_idempotency cleanup_changes stale_sequences
    change_for_document encode_change_cursor cursor_namespace_digest lookup insert keep find exists
    every total order_by insert_sorted text_eq purge_namespace wispdeck.Prelude.delete
purged_live = refl
