-- ===== src/Wispist/Cursor.antt =====
-- wispist/cursor.go: change cursors. Base64, JSON and SHA-256 are library code, and stand as a
-- record of functions with the laws that the code relies on.
use wispdeck.Prelude.{
  ℕ, ◌≤◌, ◌<◌, ◌≡◌, Option, none, some, Text, length, take, ltb, ◌==◌, text_comparable,
  if◌then◌else◌, arith, ◌^◌,
}

-- `portableChangeCursor`
pub record PortableChangeCursor : Type 0 where
  pub namespace : Text
  pub sequence : ℕ

pub record Codec : Type 0 where
  -- `base64.RawURLEncoding`
  pub encode_base64 : Text → Text
  pub decode_base64 : Text → Option Text
  -- `json.Marshal`, and a strict decoder that wants the end of the input behind the value
  pub marshal : PortableChangeCursor → Text
  pub unmarshal : Text → Option PortableChangeCursor
  -- `sha256.Sum256`
  pub sha256 : Text → Text
  pub decode-encode : (raw : Text) → decode_base64 (encode_base64 raw) ≡ some raw
  pub unmarshal-marshal :
      (raw : Text) (n : ℕ)
      → n < 2 ^ 64
      → unmarshal (marshal (record { namespace = encode_base64 raw; sequence = n }))
        ≡ some (record { namespace = encode_base64 raw; sequence = n })
  -- a digest of 22 letters and a number of at most 20 digits
  pub marshal_short :
      (raw : Text) (n : ℕ)
      → n < 2 ^ 64
      → length (marshal (record { namespace = encode_base64 (take 16 (sha256 raw)); sequence = n }))
        ≤ 512

module _ (codec : Codec) where
  open codec use {encode_base64, decode_base64, marshal, unmarshal, sha256}

  unfoldable pub cursor_namespace_digest : Text → Text
  cursor_namespace_digest namespace = encode_base64 (take 16 (sha256 namespace))

  unfoldable pub encode_change_cursor : Text → ℕ → Text
  encode_change_cursor namespace sequence =
      encode_base64
        (marshal (record { namespace = cursor_namespace_digest namespace; sequence = sequence }))

  accept_cursor : Text → Option PortableChangeCursor → Option ℕ
  accept_cursor namespace none = none
  accept_cursor namespace (some c) =
      if c.namespace == cursor_namespace_digest namespace then some c.sequence else none

  decode_raw : Text → Option Text → Option ℕ
  unfolding accept_cursor
  decode_raw namespace none = none
  decode_raw namespace (some raw) =
      if ltb 512 (length raw) then none else accept_cursor namespace (unmarshal raw)

  -- `none` is `ErrInvalidCursor`.
  unfoldable pub decode_change_cursor : Text → Text → Option ℕ
  unfolding decode_raw
  decode_change_cursor namespace value = decode_raw namespace (decode_base64 value)

  -- A cursor of one namespace, for any uint64 sequence, decodes to that sequence in every
  -- namespace with the same digest, its own among them, and in no other.
  pub decode-encode_change_cursor :
      (namespace other : Text) (sequence : ℕ)
      → sequence < 2 ^ 64
      → decode_change_cursor other (encode_change_cursor namespace sequence) ≡ (
          if cursor_namespace_digest namespace == cursor_namespace_digest other
          then some sequence
          else none)
  unfolding decode_change_cursor encode_change_cursor cursor_namespace_digest
  decode-encode_change_cursor namespace other sequence h = rw codec.decode-encode (
      ground (
        arith,
        codec.marshal_short namespace sequence,
        codec.unmarshal-marshal (take 16 (sha256 namespace)) sequence,
      ))
