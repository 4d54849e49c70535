-- ===== src/Wispist/Json/Walk.antt =====
-- wispist/json.go: the walk against the trees of documents.
use wispdeck.Prelude.{
  ℕ, zero, suc, ◌+◌, ◌≤◌, ◌≡◌, refl, ap, ◌∙◌, arith, true, ◌⊎◌, Text, text_comparable, List, [],
  ◌∷◌, some, Option-cases, inl, inr,
}
use wispdeck.Wispist.Json.{
  JsonToken, JsonLimits, open_object, close_object, open_array, close_array, string_token,
  scalar_token, consume_value, consume_members, consume_elements,
}
use wispdeck.Wispist.Json.Trees.{
  Json, Members, Elements, scalar, string, object, array, no_member, member, no_element, element,
  print, print_members, print_elements, fits, fits_members, fits_elements,
}

-- The fuel that a document takes.
unfoldable mutual
  pub calls : Json → ℕ
  calls scalar = 1
  calls (string value) = 1
  calls (object members) = suc (calls_members members)
  calls (array elements) = suc (calls_elements elements)

  pub calls_members : Members → ℕ
  calls_members no_member = 1
  calls_members (member key value members) = suc (calls value + calls_members members)

  pub calls_elements : Elements → ℕ
  calls_elements no_element = 1
  calls_elements (element value elements) = suc (calls value + calls_elements elements)

positive : (v : Json) → 1 ≤ calls v
unfolding calls
positive scalar = omega arith
positive (string value) = omega arith
positive (object members) = omega arith
positive (array elements) = omega arith

positive_members : (ms : Members) → 1 ≤ calls_members ms
unfolding calls
positive_members no_member = omega arith
positive_members (member key value members) = omega arith

positive_elements : (es : Elements) → 1 ≤ calls_elements es
unfolding calls
positive_elements no_element = omega arith
positive_elements (element value elements) = omega arith

module _ (limits : JsonLimits) where
  -- An element of an array never starts with the array's end.
  consume_elements-print :
      (n depth : ℕ) (v : Json) (rest others : List JsonToken)
      → consume_value limits n (suc depth) (print v rest) ≡ some others
      → consume_elements limits (suc n) depth (print v rest)
        ≡ consume_elements limits n depth others
  unfolding consume_value print
  consume_elements-print n depth scalar rest others e = ground (arith, e)
  consume_elements-print n depth (string value) rest others e = ground (arith, e)
  consume_elements-print n depth (object members) rest others e = ground (arith, e)
  consume_elements-print n depth (array elements) rest others e = ground (arith, e)

  mutual
    unfolding consume_value print fits calls

    pub accepts :
        (n depth : ℕ) (v : Json) (rest : List JsonToken)
        → fits limits depth v ≡ true
        → calls v ≤ n
        → consume_value limits n depth (print v rest) ≡ some rest
    accepts zero depth v rest fit enough = ground (arith, positive v)
    accepts (suc n) depth scalar rest fit enough = refl
    accepts (suc n) depth (string value) rest fit enough = refl
    accepts (suc n) depth (object members) rest fit enough =
        ground (arith, accepts_members n depth [] members rest)
    accepts (suc n) depth (array elements) rest fit enough =
        ground (arith, accepts_elements n depth elements rest)

    accepts_members :
        (n depth : ℕ) (seen : List Text) (ms : Members) (rest : List JsonToken)
        → fits_members limits depth seen ms ≡ true
        → calls_members ms ≤ n
        → consume_members limits n depth seen (print_members ms rest) ≡ some rest
    accepts_members zero depth seen ms rest fit enough = ground (arith, positive_members ms)
    accepts_members (suc n) depth seen no_member rest fit enough = refl
    accepts_members (suc n) depth seen (member key value members) rest fit enough = ground (
      arith,
      accepts n (suc depth) value (print_members members rest),
      accepts_members n depth (key ∷ seen) members rest,
    )

    accepts_elements :
        (n depth : ℕ) (es : Elements) (rest : List JsonToken)
        → fits_elements limits depth es ≡ true
        → calls_elements es ≤ n
        → consume_elements limits n depth (print_elements es rest) ≡ some rest
    accepts_elements zero depth es rest fit enough = ground (arith, positive_elements es)
    accepts_elements (suc n) depth no_element rest fit enough = refl
    accepts_elements (suc n) depth (element value elements) rest fit enough =
        let first =
          accepts n (suc depth) value (print_elements elements rest) (ground arith) (omega arith) in
        consume_elements-print n depth value (print_elements elements rest)
          (print_elements elements rest) first
        ∙ accepts_elements n depth elements rest (ground arith) (omega arith)

  consume_elements-splits :
      (n depth : ℕ) (tokens rest : List JsonToken)
      → consume_elements limits (suc n) depth tokens ≡ some rest
      → (tokens ≡ close_array ∷ rest)
        ⊎ ((others : List JsonToken) × (consume_value limits n (suc depth) tokens ≡ some others)
            × (consume_elements limits n depth others ≡ some rest))
  unfolding consume_value
  consume_elements-splits n depth [] rest e = ground arith
  consume_elements-splits n depth (close_object ∷ ts) rest e = ground arith
  consume_elements-splits n depth (close_array ∷ ts) rest e = inl (ground arith)
  consume_elements-splits n depth (token ∷ ts) rest e =
      elim (Option-cases (consume_value limits n (suc depth) (token ∷ ts))) [
        | inl absent ↦ ground (arith, absent)
        | inr (others, found) ↦ inr (others, found, ground (arith, found))
      ]

  mutual
    unfolding consume_value print fits

    pub sound :
        (n depth : ℕ) (tokens rest : List JsonToken)
        → consume_value limits n depth tokens ≡ some rest
        → (v : Json) × (tokens ≡ print v rest) × (fits limits depth v ≡ true)
    sound zero depth tokens rest e = ground arith
    sound (suc n) depth (open_object ∷ ts) rest e =
        let (ms, printed, fit) = sound_members n depth [] ts rest (ground arith) in
        (object ms, ap (λ t. open_object ∷ t) printed, ground arith)
    sound (suc n) depth (open_array ∷ ts) rest e =
        let (es, printed, fit) = sound_elements n depth ts rest (ground arith) in
        (array es, ap (λ t. open_array ∷ t) printed, ground arith)
    sound (suc n) depth (string_token value ∷ ts) rest e = (string value, ground arith, refl)
    sound (suc n) depth (scalar_token ∷ ts) rest e = (scalar, ground arith, refl)
    sound (suc n) depth (close_object ∷ ts) rest e = ground arith
    sound (suc n) depth (close_array ∷ ts) rest e = ground arith
    sound (suc n) depth [] rest e = ground arith

    sound_members :
        (n depth : ℕ) (seen : List Text) (tokens rest : List JsonToken)
        → consume_members limits n depth seen tokens ≡ some rest
        → (ms : Members) × (tokens ≡ print_members ms rest)
          × (fits_members limits depth seen ms ≡ true)
    sound_members zero depth seen tokens rest e = ground arith
    sound_members (suc n) depth seen (close_object ∷ ts) rest e = (no_member, ground arith, refl)
    sound_members (suc n) depth seen (string_token key ∷ ts) rest e =
        elim (Option-cases (consume_value limits n (suc depth) ts)) [
          | inl absent ↦ ground (arith, absent)
          | inr (others, found) ↦
              let (v, printed, fit) = sound n (suc depth) ts others found in
              let (ms, printed', fit') =
                sound_members n depth (key ∷ seen) others rest (ground (arith, found)) in
              (
                member key v ms,
                ap (λ t. string_token key ∷ t) (printed ∙ ap (print v) printed'),
                ground arith,
              )
        ]
    sound_members (suc n) depth seen (open_object ∷ ts) rest e = ground arith
    sound_members (suc n) depth seen (open_array ∷ ts) rest e = ground arith
    sound_members (suc n) depth seen (scalar_token ∷ ts) rest e = ground arith
    sound_members (suc n) depth seen (close_array ∷ ts) rest e = ground arith
    sound_members (suc n) depth seen [] rest e = ground arith

    sound_elements :
        (n depth : ℕ) (tokens rest : List JsonToken)
        → consume_elements limits n depth tokens ≡ some rest
        → (es : Elements) × (tokens ≡ print_elements es rest)
          × (fits_elements limits depth es ≡ true)
    sound_elements zero depth tokens rest e = ground arith
    sound_elements (suc n) depth tokens rest e =
        elim (consume_elements-splits n depth tokens rest e) [
          | inl closed ↦ (no_element, closed, refl)
          | inr (others, found, more) ↦
              let (v, printed, fit) = sound n (suc depth) tokens others found in
              let (es, printed', fit') = sound_elements n depth others rest more in
              (element v es, printed ∙ ap (print v) printed', ground arith)
        ]
