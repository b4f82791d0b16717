-- ===== src/Temporal/Payload/Codec.antt =====
-- `EncryptionPayloadCodec` of modules/temporal/payload/codec.py, with the stores in memory. The
-- random values of one call of `_encode_one` are an argument; the blobs are passed from call to call.
use knowledage_base_assistan.Prelude.{
  string_eq, ◌==◌, ◌>>=◌, Keyed, ℕ, String, Bool, ◌||◌, List, [], ◌∷◌, Option, none, some, Uuid,
  Result, raise, ok, integrity_error, payload_codec_error, value_error, validation_error,
  if◌then◌else◌, leb, given,
}
use knowledage_base_assistan.Temporal.Payload.Libraries.{
  Libraries, BundleRef, Opened, plaintext, invalid_tag, bad_argument,
}
use knowledage_base_assistan.Temporal.Payload.Stores.{Blobs, KeyProvider, get_key, put, get}

abbrev pub Metadata : Type 0 → Type 0
Metadata Bytes = String → Option Bytes

-- temporalio's `Payload`
pub record Payload (Bytes : Type 0) : Type 0 where
  pub metadata : Metadata Bytes
  pub content : Bytes

pub record Codec (Bytes : Type 0) : Type 0 where
  pub key_provider : KeyProvider Bytes
  pub max_inline_bytes : ℕ

-- What `os.urandom` and `uuid4` draw.
pub record Draw (Bytes : Type 0) : Type 0 where
  pub nonce : Bytes
  pub bundle_id : Uuid

module _ {Bytes : Type 0} where
  abbrev pub set_key : String → Bytes → Metadata Bytes → Metadata Bytes
  set_key key value metadata j = if j == key then some value else metadata j

  abbrev pub pop_key : String → Metadata Bytes → Metadata Bytes
  pop_key key metadata j = if j == key then none else metadata j

  -- metadata.get(key, default)
  abbrev pub get_or : Option Bytes → Bytes → Bytes
  get_or none default = default
  get_or (some value) default = value

module _ {Bytes : Type 0} ⦃e : Keyed Bytes⦄ (lib : Libraries Bytes) where
  abbrev pub encrypted_encoding : Bytes
  encrypted_encoding = lib.utf8_encode "binary/encrypted"

  abbrev pub bundle_ref_encoding : Bytes
  bundle_ref_encoding = lib.utf8_encode "binary/artifact_ref"

  abbrev pub plain_encoding : Bytes
  plain_encoding = lib.utf8_encode "json/plain"

  abbrev pub encoding_of : Payload Bytes → Bytes
  encoding_of payload = get_or (payload.metadata "encoding") (lib.utf8_encode "")

  -- encoding in (ENCRYPTED_ENCODING, BUNDLE_REF_ENCODING)
  abbrev pub is_encoded : Bytes → Bool
  is_encoded encoding = encoding == encrypted_encoding || encoding == bundle_ref_encoding

  unfoldable pub referred : BundleRef → Payload Bytes → Payload Bytes
  referred r payload = record {
    content = lib.dump_ref r;
    metadata =
        set_key "encoding" bundle_ref_encoding
          (set_key "orig-encoding" (encoding_of payload) payload.metadata);
  }

  unfoldable pub encrypted : Codec Bytes → Bytes → Draw Bytes → Payload Bytes → Payload Bytes
  encrypted codec key draw payload = record {
    content = lib.encrypt key draw.nonce payload.content;
    metadata = set_key "nonce" (lib.b64encode draw.nonce) (
        set_key "kid" (lib.utf8_encode codec.key_provider.key_id) (
          set_key "encoding" encrypted_encoding
            (set_key "orig-encoding" (encoding_of payload) payload.metadata)));
  }

  -- `_externalize`; `none` is a codec without a store.
  unfoldable pub externalize :
      Draw Bytes → Bytes → Option (Blobs Bytes) → Result (Option (Blobs Bytes) × BundleRef)
  externalize draw content none =
      raise (payload_codec_error "PAYLOAD_TOO_LARGE_WITHOUT_BUNDLE_STORE")
  externalize draw content (some blobs) =
      let stored = put lib draw.bundle_id content blobs in ok (some stored.0, stored.1)

  -- `_encode_one`
  unfoldable pub encode_one :
      Codec Bytes
      → Option (Blobs Bytes)
      → Draw Bytes
      → Payload Bytes
      → Result (Option (Blobs Bytes) × Payload Bytes)
  encode_one codec store draw payload =
      if is_encoded (encoding_of payload)
      then ok (store, payload)
      else if leb codec.max_inline_bytes (lib.len payload.content)
      then externalize draw payload.content store
        >>= (λ stored. ok (stored.0, referred stored.1 payload))
      else get_key codec.key_provider codec.key_provider.key_id
        >>= (λ key. ok (store, encrypted codec key draw payload))

  -- `encode`, each payload with what is drawn for it
  unfoldable pub encode :
      Codec Bytes
      → Option (Blobs Bytes)
      → List (Draw Bytes × Payload Bytes)
      → Result (Option (Blobs Bytes) × List (Payload Bytes))
  encode codec store [] = ok (store, [])
  encode codec store ((draw, payload) ∷ payloads) =
      encode_one codec store draw payload
      >>= (λ first. encode codec first.0 payloads >>= (λ rest. ok (rest.0, first.1 ∷ rest.1)))

  -- out.metadata["encoding"] = payload.metadata.get(ORIGINAL_ENCODING, PLAIN_ENCODING), and its pop
  unfoldable pub restored : Metadata Bytes → Metadata Bytes
  restored metadata =
      pop_key "orig-encoding"
        (set_key "encoding" (get_or (metadata "orig-encoding") plain_encoding) metadata)

  unfoldable pub opened : Payload Bytes → Opened Bytes → Result (Payload Bytes)
  opened payload (plaintext text) = ok (record {
    content = text;
    metadata = pop_key "nonce" (pop_key "kid" (restored payload.metadata));
  })
  opened payload invalid_tag = raise (integrity_error "GCM_AUTHENTICATION_FAILED")
  opened payload bad_argument = raise (value_error "")

  -- `_decrypt`
  unfoldable pub decrypt_with :
      Codec Bytes → Payload Bytes → Option Bytes → Option Bytes → Result (Payload Bytes)
  decrypt_with codec payload (some kid) (some nonce64) =
      given (value_error "") (lib.utf8_decode kid) >>= (λ key_id.
        get_key codec.key_provider key_id >>= (λ key.
          given (payload_codec_error "ENCRYPTED_PAYLOAD_BAD_NONCE") (lib.b64decode nonce64)
          >>= (λ nonce. opened payload (lib.decrypt key nonce payload.content))))
  decrypt_with codec payload _ _ = raise (payload_codec_error "ENCRYPTED_PAYLOAD_MISSING_METADATA")

  unfoldable pub decrypt : Codec Bytes → Payload Bytes → Result (Payload Bytes)
  decrypt codec payload =
      decrypt_with codec payload (payload.metadata "kid") (payload.metadata "nonce")

  -- `_retrieve`
  unfoldable pub retrieve : Option (Blobs Bytes) → Payload Bytes → Result (Payload Bytes)
  retrieve none payload = raise (payload_codec_error "BUNDLE_REF_WITHOUT_STORE")
  retrieve (some blobs) payload = given validation_error (lib.load_ref payload.content) >>= (λ r.
      get lib r blobs
      >>= (λ content. ok (record { content = content; metadata = restored payload.metadata })))

  -- `_decode_one`
  unfoldable pub decode_one :
      Codec Bytes → Option (Blobs Bytes) → Payload Bytes → Result (Payload Bytes)
  decode_one codec store payload =
      if encoding_of payload == encrypted_encoding
      then decrypt codec payload
      else if encoding_of payload == bundle_ref_encoding
      then retrieve store payload
      else ok payload

  -- `decode`
  unfoldable pub decode :
      Codec Bytes → Option (Blobs Bytes) → List (Payload Bytes) → Result (List (Payload Bytes))
  decode codec store [] = ok []
  decode codec store (payload ∷ payloads) =
      decode_one codec store payload
      >>= (λ first. decode codec store payloads >>= (λ rest. ok (first ∷ rest)))
