-- ===== src/Temporal/Payload/Batch.antt =====
-- A list of payloads, encoded and decoded again.
use knowledage_base_assistan.Prelude.{
  nat_eq, string_eq, ◌==◌, ==-refl, Bool-cases, Keyed, ◌≡◌, refl, sym, subst, inl, inr, Bool, true,
  false, List, [], ◌∷◌, map, Option, none, some, ok, >>=-eq-ok, All, leb, ok-injective, ◌∙◌, Uuid,
  ◌||◌,
}
use knowledage_base_assistan.Temporal.Payload.Libraries.{Libraries, Inverse}
use knowledage_base_assistan.Temporal.Payload.Stores.{Blobs, find_blob, get_key}
use knowledage_base_assistan.Temporal.Payload.Codec.{
  Codec, Draw, Payload, encoding_of, is_encoded, encode_one, encode, decode, externalize, referred,
  encrypted, bundle_ref_encoding, encrypted_encoding,
}
use knowledage_base_assistan.Temporal.Payload.RoundTrip.{Kept, IsPlain, encode_one-Encodes}

-- The identifiers that are drawn are new, each time.
abbrev pub Fresh : {Bytes : Type 0} → Blobs Bytes → List (Draw Bytes × Payload Bytes) → Type 0
Fresh blobs [] = Unit
Fresh blobs ((draw, p) ∷ items) =
    (find_blob draw.bundle_id blobs ≡ none)
    × (All (λ item. (draw.bundle_id == item.0.bundle_id) ≡ false) items × Fresh blobs items)

module _ {Bytes : Type 0} where
  Kept-of_adds :
      (before after : Blobs Bytes) (new : Uuid)
      → find_blob new before ≡ none
      → ((id : Uuid) → (new == id) ≡ false → find_blob id after ≡ find_blob id before)
      → Kept before after
  Kept-of_adds before after new absent adds id b f = elim (Bool-cases (new == id)) [
    | inl same ↦
        let found =
          subst (λ i. find_blob i before ≡ some b) (sym ((nat_eq.same_key_iff new id).0 same)) f in
        cc
    | inr other ↦ adds id other ∙ f
  ]

  Fresh-of_adds :
      (before after : Blobs Bytes) (new : Uuid) (items : List (Draw Bytes × Payload Bytes))
      → ((id : Uuid) → (new == id) ≡ false → find_blob id after ≡ find_blob id before)
      → All (λ item. (new == item.0.bundle_id) ≡ false) items
      → Fresh before items
      → Fresh after items
  Fresh-of_adds before after new [] adds apart fresh = tt
  Fresh-of_adds before after new ((draw, p) ∷ items) adds apart fresh = (
    adds draw.bundle_id apart.0 ∙ fresh.0,
    (fresh.1.0, Fresh-of_adds before after new items adds apart.1 fresh.1.1),
  )

module _ {Bytes : Type 0} ⦃e : Keyed Bytes⦄ (lib : Libraries Bytes) where
  -- What a caller encodes: plain payloads, each with a nonce of 12 bytes.
  abbrev pub Writable : List (Draw Bytes × Payload Bytes) → Type 0
  Writable items = All (λ item. IsPlain lib item.1 × (lib.len item.0.nonce ≡ 12)) items

  -- Decoding may come later, when the store has more in it.
  encode-later :
      (inverse : Inverse lib) (codec : Codec Bytes)
      → lib.len codec.key_provider.key ≡ 32
      → (blobs : Blobs Bytes) (items : List (Draw Bytes × Payload Bytes)) → Writable items
      → Fresh blobs items
      → (after : Blobs Bytes) × (made : List (Payload Bytes)) × (encode lib codec (some blobs) items
          ≡ ok (some after, made))
        × Kept blobs after
        × ((later : Blobs Bytes)
            → Kept after later
            → decode lib codec (some later) made ≡ ok (map (λ item. item.1) items))
  unfolding encode decode
  encode-later inverse codec k blobs [] w fresh =
      (blobs, [], refl, (λ id b f. f), λ later kept. refl)
  encode-later inverse codec k blobs ((draw, p) ∷ items) w fresh =
      let one = encode_one-Encodes lib inverse codec k blobs draw p w.0.0 w.0.1 in
      let now = Kept-of_adds blobs one.after draw.bundle_id fresh.0 one.adds in
      let (after, made, runs, kept, decodes) =
        encode-later inverse codec k one.after items w.1
          (Fresh-of_adds blobs one.after draw.bundle_id items one.adds fresh.1.0 fresh.1.1) in
      (
        after,
        one.made ∷ made,
        rw (one.runs, runs) refl,
        (λ id b f. kept id b (now id b f)),
        λ later still.
            rw (one.decodes later (λ id b f. still id b (kept id b f)), decodes later still) refl,
      )

  -- With a store, a key of 32 bytes and fresh identifiers, plain payloads are always encoded, and
  -- decoding with the store that this leaves gives back each of them in its place.
  pub encode-decode :
      (inverse : Inverse lib) (codec : Codec Bytes)
      → lib.len codec.key_provider.key ≡ 32
      → (blobs : Blobs Bytes) (items : List (Draw Bytes × Payload Bytes)) → Writable items
      → Fresh blobs items
      → (after : Blobs Bytes) × (made : List (Payload Bytes)) × (encode lib codec (some blobs) items
          ≡ ok (some after, made))
        × (decode lib codec (some after) made ≡ ok (map (λ item. item.1) items))
  encode-decode inverse codec k blobs items w fresh =
      let (after, made, runs, kept, decodes) = encode-later inverse codec k blobs items w fresh in
      (after, made, runs, decodes after (λ id b f. f))

  abbrev pub AllEncoded : List (Payload Bytes) → Type 0
  AllEncoded payloads = All (λ p. is_encoded lib (encoding_of lib p) ≡ true) payloads

  or_true : (b : Bool) → (b || true) ≡ true
  or_true true = refl
  or_true false = refl

  module _ (codec : Codec Bytes) where
    encode_one-encoded :
        (store after : Option (Blobs Bytes)) (draw : Draw Bytes) (p q : Payload Bytes)
        → encode_one lib codec store draw p ≡ ok (after, q)
        → is_encoded lib (encoding_of lib q) ≡ true
    unfolding encode_one referred encrypted
    encode_one-encoded store after draw p q h =
        let Goal = λ (r : Option (Blobs Bytes) × Payload Bytes).
          is_encoded lib (encoding_of lib r.1) ≡ true in
        elim (Bool-cases (is_encoded lib (encoding_of lib p))) [
          | inl done ↦ subst Goal (ok-injective (rw done at h)) done
          | inr plain ↦ elim (Bool-cases (leb codec.max_inline_bytes (lib.len p.content))) [
            | inl large ↦
                let (stored, out, made) =
                  >>=-eq-ok (externalize lib draw p.content store) _ (rw (plain, large) at h) in
                subst Goal (ok-injective made) (rw (==-refl (bundle_ref_encoding lib)) (or_true _))
            | inr small ↦
                let (key, out, made) =
                  >>=-eq-ok (get_key codec.key_provider codec.key_provider.key_id) _
                    (rw (plain, small) at h) in
                subst Goal (ok-injective made) (rw (==-refl (encrypted_encoding lib)) refl)
          ]
        ]

    encode-encoded :
        (items : List (Draw Bytes × Payload Bytes)) (store after : Option (Blobs Bytes))
        (made : List (Payload Bytes))
        → encode lib codec store items ≡ ok (after, made)
        → AllEncoded made
    unfolding encode
    encode-encoded [] store after made h =
        subst (λ (r : Option (Blobs Bytes) × List (Payload Bytes)). AllEncoded r.1) (ok-injective h)
          tt
    encode-encoded ((draw, p) ∷ items) store after made h =
        let (one, run, more) = >>=-eq-ok (encode_one lib codec store draw p) _ h in
        let (rest, runs, end) = >>=-eq-ok (encode lib codec one.0 items) _ more in
        subst (λ (r : Option (Blobs Bytes) × List (Payload Bytes)). AllEncoded r.1)
          (ok-injective end)
          (
            encode_one-encoded store one.0 draw p one.1 run,
            encode-encoded items one.0 rest.0 rest.1 runs,
          )

    encode-unchanged :
        (later : Option (Blobs Bytes)) (again : List (Draw Bytes × Payload Bytes))
        → AllEncoded (map (λ item. item.1) again)
        → encode lib codec later again ≡ ok (later, map (λ item. item.1) again)
    unfolding encode encode_one
    encode-unchanged later [] h = refl
    encode-unchanged later ((draw, p) ∷ again) h = rw (h.0, encode-unchanged later again h.1) refl

    -- Whatever is encoded: nothing leaves the codec in its plain encoding, and what left it passes
    -- a second time unchanged, with no store touched and whatever is drawn.
    pub encode-once :
        (items : List (Draw Bytes × Payload Bytes)) (store after : Option (Blobs Bytes))
        (made : List (Payload Bytes)) (later : Option (Blobs Bytes))
        (again : List (Draw Bytes × Payload Bytes))
        → encode lib codec store items ≡ ok (after, made)
        → map (λ item. item.1) again ≡ made
        → AllEncoded made × (encode lib codec later again ≡ ok (later, made))
    encode-once items store after made later again h same =
        let encoded = encode-encoded items store after made h in
        (
          encoded,
          subst (λ out. encode lib codec later again ≡ ok (later, out)) same
              (encode-unchanged later again (subst AllEncoded (sym same) encoded)),
        )
