-- ===== src/Temporal/Payload/RoundTrip.antt =====
-- Decoding what was encoded.
use knowledage_base_assistan.Prelude.{
  nat_eq, string_eq, ◌==◌, ==-refl, Bool-cases, Keyed, String, ◌≡◌, refl, sym, ap, subst, fun_ext,
  inl, inr, false, ◌∷◌, Option, none, some, ok, leb, eq_iff, ◌∙◌, Uuid,
}
use knowledage_base_assistan.Temporal.Payload.Libraries.{Libraries, Inverse}
use knowledage_base_assistan.Temporal.Payload.Stores.{Blobs, find_blob, get-put, get_key, put}
use knowledage_base_assistan.Temporal.Payload.Codec.{
  Codec, Draw, Payload, Metadata, set_key, pop_key, encoding_of, is_encoded, encode_one, decode_one,
  restored, referred, encrypted, opened, decrypt, decrypt_with, retrieve, externalize,
  encrypted_encoding, bundle_ref_encoding,
}

-- Two mappings that agree at one key, and elsewhere.
at_key :
    {Bytes : Type 0} (m n : Metadata Bytes) (key j : String)
    → m key ≡ n key
    → ((j == key) ≡ false → m j ≡ n j)
    → m j ≡ n j
at_key m n key j here there = elim (Bool-cases (j == key)) [
  | inl a ↦ subst (λ i. m i ≡ n i) (sym ((eq_iff j key).0 a)) here
  | inr b ↦ there b
]

module _ {Bytes : Type 0} ⦃e : Keyed Bytes⦄ (lib : Libraries Bytes) where
  -- A payload as the converter makes it: it names its encoding, and none of the codec's keys.
  pub record IsPlain (p : Payload Bytes) : Type 0 where
    pub encoding : (b : Bytes) × (p.metadata "encoding" ≡ some b)
    pub not_encoded : is_encoded lib (encoding_of lib p) ≡ false
    pub no_original : p.metadata "orig-encoding" ≡ none
    pub no_kid : p.metadata "kid" ≡ none
    pub no_nonce : p.metadata "nonce" ≡ none

  encoding_given :
      (p : Payload Bytes) → IsPlain p → some (encoding_of lib p) ≡ p.metadata "encoding"
  encoding_given p h = rw h.encoding.1 refl

  restored-referred :
      (p : Payload Bytes) (b : Bytes)
      → IsPlain p
      → restored lib (set_key "encoding" b (set_key "orig-encoding" (encoding_of lib p) p.metadata))
        ≡ p.metadata
  unfolding restored
  restored-referred p b h =
      let m =
        restored lib
          (set_key "encoding" b (set_key "orig-encoding" (encoding_of lib p) p.metadata)) in
      fun_ext (λ j.
        at_key m p.metadata "orig-encoding" j (sym h.no_original)
          (λ o. at_key m p.metadata "encoding" j (encoding_given p h) (λ c. rw (o, c) refl)))

  restored-encrypted :
      (p : Payload Bytes) (b kid nonce : Bytes)
      → IsPlain p
      → pop_key "nonce" (
          pop_key "kid" (
            restored lib (
              set_key "nonce" nonce (
                set_key "kid" kid (
                  set_key "encoding" b (set_key "orig-encoding" (encoding_of lib p) p.metadata))))))
        ≡ p.metadata
  unfolding restored
  restored-encrypted p b kid nonce h =
      let r = restored lib (
        set_key "nonce" nonce (
          set_key "kid" kid
            (set_key "encoding" b (set_key "orig-encoding" (encoding_of lib p) p.metadata)))) in
      let m = pop_key "nonce" (pop_key "kid" r) in
      fun_ext (λ j. at_key m p.metadata "nonce" j (sym h.no_nonce) (λ n.
        at_key m p.metadata "kid" j (sym h.no_kid) (λ k.
          at_key m p.metadata "orig-encoding" j (sym h.no_original) (λ o.
            at_key m p.metadata "encoding" j (encoding_given p h) (λ c. rw (n, k, o, c) refl)))))

module _ {Bytes : Type 0} ⦃e : Keyed Bytes⦄ (lib : Libraries Bytes) (inverse : Inverse lib)
    (codec : Codec Bytes) (key_size : lib.len codec.key_provider.key ≡ 32) where
  distinct_encodings : (bundle_ref_encoding lib == encrypted_encoding lib) ≡ false
  distinct_encodings = elim (Bool-cases (bundle_ref_encoding lib == encrypted_encoding lib)) [
    | inl same ↦
        let same_text =
          sym (inverse.utf8 "binary/artifact_ref")
          ∙ (ap lib.utf8_decode ((e.same_key_iff _ _).0 same) ∙ inverse.utf8 "binary/encrypted") in
        cc
    | inr other ↦ other
  ]

  current_key : get_key codec.key_provider codec.key_provider.key_id ≡ ok codec.key_provider.key
  unfolding get_key
  current_key = rw (==-refl codec.key_provider.key_id) refl

  decode-encrypted :
      (p : Payload Bytes) (draw : Draw Bytes) (store : Option (Blobs Bytes))
      → IsPlain lib p
      → lib.len draw.nonce ≡ 12
      → decode_one lib codec store (encrypted lib codec codec.key_provider.key draw p) ≡ ok p
  unfolding decode_one decrypt decrypt_with encrypted opened
  decode-encrypted p draw store h n =
      rw
        (
          ==-refl (encrypted_encoding lib),
          inverse.utf8 codec.key_provider.key_id,
          current_key,
          inverse.base64 draw.nonce,
          inverse.aes_gcm codec.key_provider.key draw.nonce p.content key_size n,
        )
        (rw
          (restored-encrypted lib p (encrypted_encoding lib)
            (lib.utf8_encode codec.key_provider.key_id) (lib.b64encode draw.nonce) h)
          refl)

  decode-referred :
      (p : Payload Bytes) (draw : Draw Bytes) (blobs later : Blobs Bytes)
      → IsPlain lib p
      → find_blob draw.bundle_id later ≡ some p.content
      → decode_one lib codec
          (some later)
          (referred lib (put lib draw.bundle_id p.content blobs).1 p)
        ≡ ok p
  unfolding decode_one retrieve referred put
  decode-referred p draw blobs later h f =
      rw
        (
          distinct_encodings,
          ==-refl (bundle_ref_encoding lib),
          inverse.json (put lib draw.bundle_id p.content blobs).1,
          get-put lib draw.bundle_id p.content blobs later f,
        )
        (rw (restored-referred lib p (bundle_ref_encoding lib) h) refl)

-- What is found in one store is found in the other.
abbrev pub Kept : {Bytes : Type 0} → Blobs Bytes → Blobs Bytes → Type 0
Kept {Bytes = Bytes} before after =
    (id : Uuid) (b : Bytes) → find_blob id before ≡ some b → find_blob id after ≡ some b

module _ {Bytes : Type 0} ⦃e : Keyed Bytes⦄ (lib : Libraries Bytes) (inverse : Inverse lib)
    (codec : Codec Bytes) (key_size : lib.len codec.key_provider.key ≡ 32) where
  pub record Encodes (blobs : Blobs Bytes) (draw : Draw Bytes) (p : Payload Bytes) : Type 0 where
    pub after : Blobs Bytes
    pub made : Payload Bytes
    pub runs : encode_one lib codec (some blobs) draw p ≡ ok (some after, made)
    pub adds :
        (id : Uuid) → (draw.bundle_id == id) ≡ false → find_blob id after ≡ find_blob id blobs
    pub decodes :
        (later : Blobs Bytes) → Kept after later → decode_one lib codec (some later) made ≡ ok p

  pub encode_one-Encodes :
      (blobs : Blobs Bytes) (draw : Draw Bytes) (p : Payload Bytes)
      → IsPlain lib p
      → lib.len draw.nonce ≡ 12
      → Encodes blobs draw p
  unfolding encode_one externalize put
  encode_one-Encodes blobs draw p h n =
      elim (Bool-cases (leb codec.max_inline_bytes (lib.len p.content))) [
        | inl large ↦ record {
          after = (draw.bundle_id, p.content) ∷ blobs;
          made = referred lib (put lib draw.bundle_id p.content blobs).1 p;
          runs = rw (h.not_encoded, large) refl;
          adds = λ id other. rw other refl;
          decodes = λ later kept.
              decode-referred lib inverse codec key_size p draw blobs later h
                (kept draw.bundle_id p.content (rw (==-refl draw.bundle_id) refl));
        }
        | inr small ↦ record {
          after = blobs;
          made = encrypted lib codec codec.key_provider.key draw p;
          runs = rw (h.not_encoded, small, current_key lib inverse codec key_size) refl;
          adds = λ id other. refl;
          decodes =
              λ later kept. decode-encrypted lib inverse codec key_size p draw (some later) h n;
        }
      ]
