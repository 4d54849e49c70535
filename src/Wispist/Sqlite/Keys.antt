-- ===== src/Wispist/Sqlite/Keys.antt =====
-- wispist/sqlite/store.go: every operation keeps the keys of the documents unique, whatever it
-- answers.
use wispdeck.Prelude.{
  ℕ, ◌≡◌, refl, sym, ◌∙◌, arith, List, [], ◌∷◌, ◌++◌, Option, none, some, Text, Bool, find-weaken,
  ap, true, false, text_comparable, update_if, Bool-cases, inl, inr,
}
use wispdeck.Wispist.Cursor.{Codec}
use wispdeck.Wispist.Types.{Document, Change, CreateRequest, PutRequest, DeleteRequest}
use wispdeck.Wispist.Sqlite.Tables.{
  DocumentRow, IdempotencyRow, Database, Result, ok, err, transaction-keeps, millis,
}
use wispdeck.Wispist.Sqlite.Steps.{
  is_at, select_document, cleaned, cleanup_idempotency, idempotent_document,
}
use wispdeck.Wispist.Sqlite.Store.{
  create, create_body, create_unless, settle_creation, put, put_body, put_found, delete,
  delete_body, delete_found, document_row, is_at_revision, replaced_documents,
}
use wispdeck.Wispist.Sqlite.Outcome.{
  create_new-Created, put_new-PutNew, put_over-PutOver, delete_found-Deleted,
}
use wispdeck.Wispist.Sqlite.Rows.{
  UniqueKeys, same_key, UniqueKeys-keep, UniqueKeys-concat, find-update-none,
}

abbrev pub HasUniqueKeys : Database → Type 0
HasUniqueKeys db = UniqueKeys db.documents

UniqueKeys-update_if :
    (q : DocumentRow → Bool) (f : DocumentRow → DocumentRow) (rows : List DocumentRow)
    → ((r s : DocumentRow) → same_key r (f s) ≡ same_key r s)
    → ((r s : DocumentRow) → same_key (f r) s ≡ same_key r s)
    → UniqueKeys rows
    → UniqueKeys (update_if q f rows)
unfolding update_if
UniqueKeys-update_if q f [] right left u = tt
UniqueKeys-update_if q f (r ∷ rows) right left u =
    let rest = find-update-none (same_key r) q f rows (right r) u.0 in
    (
      elim (Bool-cases (q r)) [
        | inl hit ↦ rw hit (
            find-weaken (same_key (f r)) (same_key r) (update_if q f rows)
              (λ s h. sym (left r s) ∙ h) rest)
        | inr miss ↦ rw miss rest
      ],
      UniqueKeys-update_if q f rows right left u.1,
    )

UniqueKeys-replaced :
    (q : PutRequest) (d : Document) (rows : List DocumentRow)
    → UniqueKeys rows
    → UniqueKeys (replaced_documents q d rows)
unfolding is_at
UniqueKeys-replaced q d rows =
    UniqueKeys-update_if (is_at_revision q.namespace q.collection q.id q.expected_revision)
      (λ r. record r { revision = d.revision; body = d.body; updated_at = millis d.updated_at })
      rows (λ r s. refl) (λ r s. refl)

UniqueKeys-inserted :
    (namespace collection id : Text) (d : Document) (sequence : ℕ) (before after : Database)
    → d.id ≡ id
    → HasUniqueKeys before
    → select_document namespace collection id before ≡ none
    → after.documents ≡ before.documents ++ document_row namespace collection d sequence ∷ []
    → HasUniqueKeys after
unfolding select_document
UniqueKeys-inserted namespace collection id d sequence before after same u free e = rw e (
    UniqueKeys-concat before.documents (document_row namespace collection d sequence) u
      (rw same free))

create_unless-UniqueKeys :
    (codec : Codec) (random : Option Text) (q : CreateRequest) (found : Option IdempotencyRow)
    (before after : Database) (a : Document × Option Change × Bool)
    → HasUniqueKeys before
    → create_unless codec random q found before ≡ ok (a, after)
    → HasUniqueKeys after
unfolding create_unless
create_unless-UniqueKeys codec random q none before after (d, change, replayed) u h =
    let c = create_new-Created codec random q before after d change replayed h in
    UniqueKeys-inserted q.namespace q.collection q.id d _ before after
      (ap (λ x. x.id) c.document_is) u c.was_free c.documents_are
create_unless-UniqueKeys codec random q (some r) before after a u h =
    let e : before ≡ after = ground arith in rw (← e) u

put_found-UniqueKeys :
    (codec : Codec) (random : Option Text) (q : PutRequest) (found : Option DocumentRow)
    (before after : Database) (a : Document × Change)
    → HasUniqueKeys before
    → select_document q.namespace q.collection q.id before ≡ found
    → put_found codec random q found before ≡ ok (a, after)
    → HasUniqueKeys after
unfolding put_found
put_found-UniqueKeys codec random q none before after (d, change) u e h =
    let c = put_new-PutNew codec random q before after d change (ground arith) in
    UniqueKeys-inserted q.namespace q.collection q.id d _ before after
      (ap (λ x. x.id) c.document_is) u e c.documents_are
put_found-UniqueKeys codec random q (some current) before after (d, change) u e h =
    let c = put_over-PutOver codec random q current before after d change (ground arith) in
    rw c.documents_are (UniqueKeys-replaced q d before.documents u)

delete_found-UniqueKeys :
    (codec : Codec) (q : DeleteRequest) (found : Option DocumentRow) (before after : Database)
    (change : Change)
    → HasUniqueKeys before
    → delete_found codec q found before ≡ ok (change, after)
    → HasUniqueKeys after
delete_found-UniqueKeys codec q none before after change u h =
    absurd (unfold delete_found in ground arith)
delete_found-UniqueKeys codec q (some current) before after change u h =
    let c = delete_found-Deleted codec q current before after change h in
    rw c.documents_are (UniqueKeys-keep _ before.documents u)

create-UniqueKeys :
    (codec : Codec) (random : Option Text) (db : Database)
    → HasUniqueKeys db
    → (q : CreateRequest) → HasUniqueKeys (create codec random q db).1
unfolding create create_body cleanup_idempotency
create-UniqueKeys codec random db u q = go (create_body codec random q db) refl
  where
    go :
        (r : Result ((Document × Option Change × Bool) × Database))
        → create_body codec random q db ≡ r
        → HasUniqueKeys (settle_creation db r).1
    go (ok ((d, change, true), after)) e = u
    go (ok ((d, change, false), after)) e =
        create_unless-UniqueKeys codec random q
          (idempotent_document q.namespace q.idempotency_key q.now (cleaned q.namespace q.now db))
          (cleaned q.namespace q.now db) after (d, change, false) (unfold cleaned in u) e
    go (err x) e = u

-- The invariant of the keys, for each of the operations.
pub write-UniqueKeys :
    (codec : Codec) (random : Option Text) (db : Database)
    → HasUniqueKeys db
    → ((q : CreateRequest) → HasUniqueKeys (create codec random q db).1)
      × ((q : PutRequest) → HasUniqueKeys (put codec random q db).1)
      × ((q : DeleteRequest) → HasUniqueKeys (delete codec q db).1)
unfolding put put_body delete delete_body
write-UniqueKeys codec random db u = (
  create-UniqueKeys codec random db u,
  λ q. transaction-keeps HasUniqueKeys (put_body codec random q) db u (λ a after h.
      put_found-UniqueKeys codec random q (select_document q.namespace q.collection q.id db) db
        after a u refl h),
  λ q. transaction-keeps HasUniqueKeys (delete_body codec q) db u (λ a after h.
      delete_found-UniqueKeys codec q (select_document q.namespace q.collection q.id db) db after a
        u h),
)
