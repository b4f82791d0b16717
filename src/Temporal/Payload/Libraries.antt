-- ===== src/Temporal/Payload/Libraries.antt =====
-- What the payload codec uses of the standard library, of the cryptography package and of pydantic.
use knowledage_base_assistan.Prelude.{ℕ, String, ◌≡◌, Option, some, Uuid}

-- `PayloadBundleRefV1`
pub record BundleRef : Type 0 where
  pub bundle_id : Uuid
  pub sha256 : String
  pub size_bytes : ℕ

-- How `AESGCM.decrypt` ends: with the text, with `InvalidTag`, or with a `ValueError` on its
-- arguments.
pub data Opened (Bytes : Type 0) : Type 0 where
  plaintext : Bytes → Opened Bytes
  invalid_tag : Opened Bytes
  bad_argument : Opened Bytes

-- `none` stands for a `ValueError`. The arguments of `encrypt` and `decrypt` are the key, the nonce
-- and the data.
pub record Libraries (Bytes : Type 0) : Type 0 where
  pub len : Bytes → ℕ
  pub utf8_encode : String → Bytes
  pub utf8_decode : Bytes → Option String
  pub b64encode : Bytes → Bytes
  pub b64decode : Bytes → Option Bytes
  pub encrypt : Bytes → Bytes → Bytes → Bytes
  pub decrypt : Bytes → Bytes → Bytes → Opened Bytes
  pub hexdigest : Bytes → String
  -- ref.model_dump_json().encode("utf-8"), and its inverse on the decoded text
  pub dump_ref : BundleRef → Bytes
  pub load_ref : Bytes → Option BundleRef

-- What the documentation of these says: each decoder undoes its encoder, and AES-GCM does for a key
-- of 32 and a nonce of 12 bytes.
pub record Inverse {Bytes : Type 0} (lib : Libraries Bytes) : Type 0 where
  pub utf8 : (s : String) → lib.utf8_decode (lib.utf8_encode s) ≡ some s
  pub base64 : (b : Bytes) → lib.b64decode (lib.b64encode b) ≡ some b
  pub aes_gcm :
      (key nonce text : Bytes)
      → lib.len key ≡ 32
      → lib.len nonce ≡ 12
      → lib.decrypt key nonce (lib.encrypt key nonce text) ≡ plaintext text
  pub json : (r : BundleRef) → lib.load_ref (lib.dump_ref r) ≡ some r
