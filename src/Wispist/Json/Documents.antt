-- ===== src/Wispist/Json/Documents.antt =====
-- wispist/json.go: the documents that normalizeJSONObject lets through.
use wispdeck.Prelude.{
  ◌+◌, ◌*◌, ◌≤◌, ◌≡◌, ◌↔◌, sym, subst, arith, true, false, not, ◌||◌, ◌==◌, Text, text_comparable,
  List, [], ◌∷◌, some, length, ltb, Option-cases, inl, inr,
}
use wispdeck.Wispist.Json.{
  JsonToken, JsonCodec, JsonLimits, open_object, consume_document, normalize_json_object,
}
use wispdeck.Wispist.Json.Trees.{
  Json, Members, Elements, scalar, string, object, array, no_member, member, no_element, element,
  print, print_members, print_elements, fits,
}
use wispdeck.Wispist.Json.Walk.{calls, calls_members, calls_elements, accepts, sound}

mutual
  unfolding calls print

  calls-bound :
      (v : Json) (rest : List JsonToken) → calls v + 1 + 2 * length rest ≤ 2 * length (print v rest)
  calls-bound scalar rest = omega arith
  calls-bound (string value) rest = omega arith
  calls-bound (object members) rest = omega (arith, calls-bound_members members rest)
  calls-bound (array elements) rest = omega (arith, calls-bound_elements elements rest)

  calls-bound_members :
      (ms : Members) (rest : List JsonToken)
      → calls_members ms + 2 * length rest ≤ 2 * length (print_members ms rest)
  calls-bound_members no_member rest = omega arith
  calls-bound_members (member key value members) rest =
      omega
        (arith, calls-bound value (print_members members rest), calls-bound_members members rest)

  calls-bound_elements :
      (es : Elements) (rest : List JsonToken)
      → calls_elements es + 1 + 2 * length rest ≤ 2 * length (print_elements es rest)
  calls-bound_elements no_element rest = omega arith
  calls-bound_elements (element value elements) rest =
      omega (
        arith,
        calls-bound value (print_elements elements rest),
        calls-bound_elements elements rest,
      )

consume_document_sound :
    (limits : JsonLimits) (tokens rest : List JsonToken)
    → consume_document limits tokens ≡ some rest
    → (ms : Members) × (tokens ≡ print (object ms) rest) × (fits limits 1 (object ms) ≡ true)
unfolding consume_document print
consume_document_sound limits [] rest e = ground arith
consume_document_sound limits (open_object ∷ ts) rest e =
    let (v, printed, fit) =
      sound limits (2 * length (open_object ∷ ts)) 1 (open_object ∷ ts) rest e in
    go v printed fit
  where
    go :
        (v : Json)
        → open_object ∷ ts ≡ print v rest
        → fits limits 1 v ≡ true
        → (ms : Members) × (open_object ∷ ts ≡ print (object ms) rest)
          × (fits limits 1 (object ms) ≡ true)
    go (object ms) printed fit = (ms, printed, fit)
    go scalar printed fit = ground arith
    go (string value) printed fit = ground arith
    go (array es) printed fit = ground arith
consume_document_sound limits (t ∷ ts) rest e = ground arith

consume_document-accepts :
    (limits : JsonLimits) (ms : Members) (rest : List JsonToken)
    → fits limits 1 (object ms) ≡ true
    → consume_document limits (print (object ms) rest) ≡ some rest
unfolding consume_document print
consume_document-accepts limits ms rest fit =
    let bound = calls-bound (object ms) rest in
    accepts limits (2 * length (print (object ms) rest)) 1 (object ms) rest fit (omega arith)

-- NormalizeJSONObject returns a text exactly where the raw text is not empty, is within the limit and is
-- valid UTF-8, its tokens are those of one object with nothing behind it, in which no object or array is deeper than the limit,
-- no key longer and no key stands twice in an object, and the text is what compaction makes of it and is
-- within the limit.
pub normalize_json_object-fits :
    (codec : JsonCodec) (limits : JsonLimits) (raw result : Text)
    → (normalize_json_object codec limits raw ≡ some result) ↔ (
        (((raw == []) || ltb limits.max_bytes (length raw) || not (codec.valid raw)) ≡ false)
        × ((ms : Members) × (codec.tokens raw ≡ print (object ms) [])
            × (fits limits 1 (object ms) ≡ true))
        × (codec.ends raw ≡ true)
        × (codec.compact raw ≡ some result)
        × (length result ≤ limits.max_bytes))
unfolding normalize_json_object
normalize_json_object-fits codec limits raw result = (forth, back)
  where
    forth :
        normalize_json_object codec limits raw ≡ some result
        → (((raw == []) || ltb limits.max_bytes (length raw) || not (codec.valid raw)) ≡ false)
          × ((ms : Members) × (codec.tokens raw ≡ print (object ms) [])
              × (fits limits 1 (object ms) ≡ true))
          × (codec.ends raw ≡ true)
          × (codec.compact raw ≡ some result)
          × (length result ≤ limits.max_bytes)
    forth e = elim (Option-cases (consume_document limits (codec.tokens raw))) [
      | inl absent ↦ ground (arith, absent)
      | inr ([], found) ↦ (
        ground arith,
        consume_document_sound limits (codec.tokens raw) [] found,
        ground (arith, found),
        ground (arith, found),
        ground (arith, found),
      )
      | inr (t ∷ ts, found) ↦ ground (arith, found)
    ]

    back :
        (((raw == []) || ltb limits.max_bytes (length raw) || not (codec.valid raw)) ≡ false)
          × ((ms : Members) × (codec.tokens raw ≡ print (object ms) [])
              × (fits limits 1 (object ms) ≡ true))
          × (codec.ends raw ≡ true)
          × (codec.compact raw ≡ some result)
          × (length result ≤ limits.max_bytes)
        → normalize_json_object codec limits raw ≡ some result
    back (plain, (ms, printed, fit), ends, compacted, short) =
        let consumed : consume_document limits (codec.tokens raw) ≡ some [] =
          subst (λ ts. consume_document limits ts ≡ some []) (sym printed)
            (consume_document-accepts limits ms [] fit) in
        ground (arith, consumed, compacted)
