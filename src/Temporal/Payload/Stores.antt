-- ===== src/Temporal/Payload/Stores.antt =====
-- modules/temporal/payload/bundle_store.py and key_provider.py: the implementations in memory.
use knowledage_base_assistan.Prelude.{
  nat_eq, string_eq, ◌==◌, ==-refl, ◌>>◌, String, concat, ◌≡◌, refl, not, List, [], ◌∷◌, Option,
  none, some, Uuid, Result, raise, ok, require, integrity_error, unknown_payload_key_error,
  value_error, if◌then◌else◌,
}
use knowledage_base_assistan.Temporal.Payload.Libraries.{Libraries, BundleRef}

-- `_blobs`; a key that is written again hides the old value.
abbrev pub Blobs : Type 0 → Type 0
Blobs Bytes = List (Uuid × Bytes)

abbrev pub find_blob : {Bytes : Type 0} → Uuid → Blobs Bytes → Option Bytes
find_blob id [] = none
find_blob id ((key, body) ∷ blobs) = if key == id then some body else find_blob id blobs

pub record KeyProvider (Bytes : Type 0) : Type 0 where
  pub key_id : String
  pub key : Bytes

-- `get_key`
unfoldable pub get_key : {Bytes : Type 0} → KeyProvider Bytes → String → Result Bytes
get_key provider key_id =
    if not (key_id == provider.key_id)
    then raise (unknown_payload_key_error (concat "unknown payload key id: " key_id))
    else ok provider.key

module _ {Bytes : Type 0} (lib : Libraries Bytes) where
  -- `InMemoryPayloadKeyProvider(key_id=..., key=...)`, for a key that was given or drawn
  unfoldable pub new_key_provider : String → Bytes → Result (KeyProvider Bytes)
  new_key_provider key_id key =
      require (lib.len key == 32) (value_error "PAYLOAD_KEY_WRONG_SIZE")
      >> (require (not (key_id == "")) (value_error "PAYLOAD_KEY_ID_EMPTY")
          >> ok (record { key_id = key_id; key = key }))

  -- `put`; the first argument is what `uuid4` draws.
  unfoldable pub put : Uuid → Bytes → Blobs Bytes → Blobs Bytes × BundleRef
  put id body blobs = (
    (id, body) ∷ blobs,
    record { bundle_id = id; sha256 = lib.hexdigest body; size_bytes = lib.len body },
  )

  unfoldable pub checked : BundleRef → Bytes → Result Bytes
  checked r body =
      require (lib.hexdigest body == r.sha256) (integrity_error "bundle digest mismatch")
      >> (require (lib.len body == r.size_bytes) (integrity_error "bundle size mismatch")
          >> ok body)

  -- `get`; the messages end with the identifier, which is left out here.
  unfoldable pub get : BundleRef → Blobs Bytes → Result Bytes
  unfolding checked
  get r blobs = elim (find_blob r.bundle_id blobs) [
    | none ↦ raise (integrity_error "bundle not found")
    | some body ↦ checked r body
  ]

  -- What was put is found, as long as its key is not taken.
  pub get-put :
      (id : Uuid) (body : Bytes) (blobs later : Blobs Bytes)
      → find_blob id later ≡ some body
      → get (put id body blobs).1 later ≡ ok body
  unfolding get put checked
  get-put id body blobs later h =
      rw (get, h, ==-refl (lib.hexdigest body), ==-refl (lib.len body)) refl
