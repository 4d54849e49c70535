-- ===== src/Wispist/Sqlite/Replay.antt =====
-- wispist/sqlite/store.go: a `Create` that is sent again under its idempotency key.
use wispdeck.Prelude.{
  ℕ, ◌+◌, ◌≤◌, ◌<◌, true, false, not, ◌&&◌, ◌≡◌, refl, arith, List, [], ◌∷◌, ◌++◌, Option, none,
  some, Text, keep, keep-append, find, find-append, find-keep-none, find-weaken, leb, ◌==◌,
  text_comparable, text_eq_iff, if◌then◌else◌,
}
use wispdeck.Wispist.Cursor.{Codec}
use wispdeck.Wispist.Types.{Document, Change, CreateRequest, idempotency_conflict}
use wispdeck.Wispist.Sqlite.Tables.{IdempotencyRow, Database, ok, err, millis}
use wispdeck.Wispist.Sqlite.Steps.{
  cleaned, cleanup_idempotency, is_live_record, idempotent_document, replayed_document,
}
use wispdeck.Wispist.Sqlite.Store.{create, create_body, create_unless, idempotency_row}
use wispdeck.Wispist.Sqlite.Outcome.{create_new-Created}
use wispdeck.Wispist.Sqlite.Documents.{stored, create-create_new}

-- A creation that is no replay found no live record.
create-idempotent_document :
    (codec : Codec) (random : Option Text) (q : CreateRequest) (before after : Database)
    (d : Document) (change : Change)
    → create codec random q before ≡ (ok (d, some change, false), after)
    → idempotent_document q.namespace q.idempotency_key q.now (cleaned q.namespace q.now before)
      ≡ none
unfolding create create_body create_unless cleanup_idempotency
create-idempotent_document codec random q before after d change h = ground arith

module _ (namespace key : Text) (now later : ℕ) (h : now ≤ later) where
  live_later :
      (rows : List IdempotencyRow)
      → find (is_live_record namespace key now) rows ≡ none
      → find (is_live_record namespace key later) rows ≡ none
  unfolding is_live_record
  live_later rows =
      find-weaken (is_live_record namespace key later) (is_live_record namespace key now) rows
        (λ r live. ground arith)

  -- The record of a creation is the one found later, as long as it is live.
  idempotent_document-concat :
      (db : Database) (rows : List IdempotencyRow) (r : IdempotencyRow)
      → find (is_live_record namespace key now) rows ≡ none
      → db.idempotency_records ≡ rows ++ r ∷ []
      → r.namespace ≡ namespace
      → r.key ≡ key
      → millis later < r.expires_at
      → idempotent_document namespace key later (cleaned namespace later db) ≡ some r
  unfolding idempotent_document cleaned
  idempotent_document-concat db rows r free e a b live =
      let expired =
        λ (x : IdempotencyRow). not (x.namespace == namespace && leb x.expires_at (millis later)) in
      let older =
        find-keep-none (is_live_record namespace key later) expired rows (live_later rows free) in
      rw e (
        rw (keep-append expired rows (r ∷ [])) (
          rw
            (find-append (is_live_record namespace key later) (keep expired rows)
              (keep expired (r ∷ [])))
            (rw older (
              unfold keep find is_live_record in
              ground (arith, text_eq_iff r.namespace namespace, text_eq_iff r.key key)))))

create-replayed :
    (codec : Codec) (random : Option Text) (q : CreateRequest) (db : Database) (r : IdempotencyRow)
    → idempotent_document q.namespace q.idempotency_key q.now (cleaned q.namespace q.now db)
      ≡ some r
    → create codec random q db ≡ (
        if r.fingerprint == q.fingerprint
        then (ok (replayed_document r, none, true), db)
        else (err idempotency_conflict, db))
unfolding create create_body create_unless cleanup_idempotency
create-replayed codec random q db r found = ground (arith, found)

-- A creation that is sent again under its idempotency key, not before the first one and before the
-- record expires, changes nothing: with the same fingerprint it is answered by the document of the
-- first creation, with its instants in whole milliseconds; with another one it is refused.
pub create-create :
    (codec : Codec) (random drawn : Option Text) (q again : CreateRequest) (before after : Database)
    (d : Document) (change : Change)
    → create codec random q before ≡ (ok (d, some change, false), after)
    → again.namespace ≡ q.namespace
    → again.idempotency_key ≡ q.idempotency_key
    → q.now ≤ again.now
    → millis again.now < millis (q.now + q.limits.idempotency_retention)
    → create codec drawn again after ≡ (
        if q.fingerprint == again.fingerprint
        then (ok (stored d, none, true), after)
        else (err idempotency_conflict, after))
create-create codec random drawn q again before after d change h a b later live =
    let before' = cleaned q.namespace q.now before in
    let c =
      create_new-Created codec random q before' after d (some change) false
        (create-create_new codec random q before after d change h) in
    let free = create-idempotent_document codec random q before after d change h in
    let found =
      idempotent_document-concat q.namespace q.idempotency_key q.now again.now later after
        before'.idempotency_records (idempotency_row q d) (unfold idempotent_document in free)
        c.records_are refl refl live in
    create-replayed codec drawn again after (idempotency_row q d) (rw (a, b) found)
