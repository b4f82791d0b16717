-- ===== src/Temporal/Payload/Examples.antt =====
-- The payload codec at concrete inputs: a byte string is a text, a mark and a length.
use knowledage_base_assistan.Prelude.{
  nat_eq, string_eq, ◌==◌, Keyed, ℕ, ◌≡◌, ◌↔◌, refl, ap, zero, Bool, true, false, ◌&&◌, List, [],
  ◌∷◌, map, none, some, if◌then◌else◌, ok, String, suc,
}
use knowledage_base_assistan.Temporal.Payload.Libraries.{
  Libraries, Inverse, plaintext, invalid_tag, Opened,
}
use knowledage_base_assistan.Temporal.Payload.Stores.{Blobs, new_key_provider, get_key}
use knowledage_base_assistan.Temporal.Payload.Codec.{
  Codec, Draw, Payload, Metadata, encode, decode, encode_one, encrypted,
}
use knowledage_base_assistan.Temporal.Payload.RoundTrip.{IsPlain}
use knowledage_base_assistan.Temporal.Payload.Batch.{AllEncoded, encode-decode, encode-once}

abbrev Sample : Type 0
Sample = String × (ℕ × ℕ)

abbrev same_sample : Sample → Sample → Bool
same_sample (s, (m, n)) (t, (k, l)) = s == t && (m == k && n == l)

both_true : (b c d : Bool) → (b && (c && d)) ≡ true → (b ≡ true) × ((c ≡ true) × (d ≡ true))
both_true true true true h = (refl, (refl, refl))
both_true true true false h = cc
both_true true false d h = cc
both_true false c d h = cc

same_sample_iff : (x y : Sample) → (same_sample x y ≡ true) ↔ (x ≡ y)
same_sample_iff (s, (m, n)) (t, (k, l)) = (
  λ h.
      let (a, (b, c)) = both_true (s == t) (m == k) (n == l) h in
      rw
        (
          (string_eq.same_key_iff s t).0 a,
          (nat_eq.same_key_iff m k).0 b,
          (nat_eq.same_key_iff n l).0 c,
        )
        refl,
  λ h.
      rw
        (
          (string_eq.same_key_iff s t).1 (ap (λ x. x.0) h),
          (nat_eq.same_key_iff m k).1 (ap (λ x. x.1.0) h),
          (nat_eq.same_key_iff n l).1 (ap (λ x. x.1.1) h),
        )
        refl,
)

instance abbrev sample_eq : Keyed Sample
sample_eq = record { same_key = same_sample; same_key_iff = same_sample_iff }

abbrev toy_decrypt : Sample → Sample → Sample → Opened Sample
toy_decrypt key nonce (s, (zero, n)) = invalid_tag
toy_decrypt key nonce (s, (suc m, n)) = plaintext (s, (m, n))

abbrev toy : Libraries Sample
toy = record {
  len = λ b. b.1.1;
  utf8_encode = λ s. (s, (0, 0));
  utf8_decode = λ b. some b.0;
  b64encode = λ b. b;
  b64decode = λ b. some b;
  encrypt = λ key nonce b. (b.0, (suc b.1.0, b.1.1));
  decrypt = toy_decrypt;
  hexdigest = λ b. b.0;
  dump_ref = λ r. (r.sha256, (r.bundle_id, r.size_bytes));
  load_ref = λ b. some (record { bundle_id = b.1.0; sha256 = b.0; size_bytes = b.1.1 });
}

toy-Inverse : Inverse toy
toy-Inverse = record {
  utf8 = λ s. refl;
  base64 = λ b. refl;
  aes_gcm = λ key nonce text k n. refl;
  json = λ r. refl;
}

abbrev codec : Codec Sample
codec = record {
  key_provider = record { key_id = "local-dev-v1"; key = ("key", (0, 32)) };
  max_inline_bytes = 64;
}

codec_key_provider : new_key_provider toy "local-dev-v1" ("key", (0, 32)) ≡ ok codec.key_provider
unfolding new_key_provider
codec_key_provider = refl

abbrev json_metadata : Metadata Sample
json_metadata key = if key == "encoding" then some ("json/plain", (0, 0)) else none

-- A payload below the limit, and one above.
abbrev items : List (Draw Sample × Payload Sample)
items =
    (
      record { nonce = ("nonce", (0, 12)); bundle_id = 1 },
      record { metadata = json_metadata; content = ("small", (0, 63)) },
    )
    ∷ (
      record { nonce = ("other", (0, 12)); bundle_id = 2 },
      record { metadata = json_metadata; content = ("large", (0, 64)) },
    )
    ∷ []

json-IsPlain :
    (n : ℕ) (t : String) → IsPlain toy (record { metadata = json_metadata; content = (t, (0, n)) })
json-IsPlain n t = record {
  encoding = (("json/plain", (0, 0)), refl);
  not_encoded = refl;
  no_original = refl;
  no_kid = refl;
  no_nonce = refl;
}

encode-decode_example :
    (after : Blobs Sample) × (made : List (Payload Sample)) × (encode toy codec (some []) items
      ≡ ok (some after, made))
    × (decode toy codec (some after) made ≡ ok (map (λ item. item.1) items))
encode-decode_example =
    encode-decode toy toy-Inverse codec refl [] items
      ((json-IsPlain 63 "small", refl), ((json-IsPlain 64 "large", refl), tt))
      (refl, ((refl, tt), (refl, (tt, tt))))

-- Without a store, and read back by the key.
abbrev one_item : List (Draw Sample × Payload Sample)
one_item =
    (
      record { nonce = ("nonce", (0, 12)); bundle_id = 1 },
      record { metadata = json_metadata; content = ("small", (0, 63)) },
    )
    ∷ []

abbrev made : List (Payload Sample)
made =
    encrypted toy codec ("key", (0, 32)) (record { nonce = ("nonce", (0, 12)); bundle_id = 1 })
      (record { metadata = json_metadata; content = ("small", (0, 63)) })
    ∷ []

made_runs : encode toy codec none one_item ≡ ok (none, made)
unfolding encode encode_one get_key
made_runs = refl

encode-once_example :
    AllEncoded toy made
    × (encode toy codec none (
          (
            record { nonce = ("third", (0, 12)); bundle_id = 3 },
            encrypted toy codec
                ("key", (0, 32))
                (record { nonce = ("nonce", (0, 12)); bundle_id = 1 })
                (record { metadata = json_metadata; content = ("small", (0, 63)) }),
          )
          ∷ [])
        ≡ ok (none, made))
encode-once_example = encode-once toy codec one_item none none made none _ made_runs refl
