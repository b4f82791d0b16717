-- ===== src/Knowledge/Candidates/Keys.antt =====
-- The two keys of the deduplication, and distinctness under a filter.
use knowledage_base_assistan.Prelude.{
  string_eq, ◌==◌, ==-refl, eq_iff, ◌≡◌, refl, sym, ◌∙◌, inl, inr, Bool, true, false, ◌&&◌, List,
  [], ◌∷◌, any, keep_if, Bool-cases, arith, Option, none, some, is_some, opt_beq, String, ℕ,
}
use knowledage_base_assistan.Knowledge.Candidates.{Candidate, above, same_chunk, same_text}
use knowledage_base_assistan.Knowledge.Candidates.Best.{AreDistinct, IsKey}
use knowledage_base_assistan.Knowledge.Candidates.Members.{In, any-In, In-any, In-keep_if}

string_left : (x y z : String) → (y == x) ≡ true → (y == z) ≡ true → (x == z) ≡ true
string_left x y z h k = (eq_iff x z).1 (sym ((eq_iff y x).0 h) ∙ (eq_iff y z).0 k)

pub same_chunk-IsKey : IsKey same_chunk
same_chunk-IsKey = record {
  same_refl = λ x. ==-refl x.chunk_id;
  same_left = λ x y z. string_left x.chunk_id y.chunk_id z.chunk_id;
}

opt_refl : (a : Option String) → opt_beq a a ≡ true
opt_refl none = refl
opt_refl (some a) = ==-refl a

opt_left : (a b c : Option String) → opt_beq b a ≡ true → opt_beq b c ≡ true → opt_beq a c ≡ true
opt_left none none none h k = refl
opt_left none none (some c) h k = cc
opt_left (some a) none c h k = cc
opt_left none (some b) c h k = cc
opt_left (some a) (some b) none h k = cc
opt_left (some a) (some b) (some c) h k = string_left a b c h k

pub opt-some : (a b : Option String) → is_some a ≡ true → opt_beq a b ≡ true → is_some b ≡ true
opt-some (some a) (some b) h k = refl
opt-some (some a) none h k = k
opt-some none b h k = cc

pub same_text-IsKey : IsKey same_text
same_text-IsKey = record {
  same_refl = λ x. opt_refl x.text_hash;
  same_left = λ x y z. opt_left x.text_hash y.text_hash z.text_hash;
}

pub not_above_trans : (a b c : Option ℕ) → above a b ≡ false → above b c ≡ false → above a c ≡ false
not_above_trans a b c h k = ground arith

-- Two candidates have the same text, as far as their hashes say.
abbrev pub same_hash : Candidate → Candidate → Bool
same_hash a b = is_some a.text_hash && same_text a b

module _ (same : Candidate → Candidate → Bool) (p : Candidate → Bool) where
  pub distinct-keep_if :
      (xs : List Candidate)
      → ((a b : Candidate)
          → In a xs
          → In b xs
          → p a ≡ true
          → p b ≡ true
          → same a b ≡ true
          → same_chunk a b ≡ true)
      → AreDistinct same_chunk xs
      → AreDistinct same (keep_if p xs)
  distinct-keep_if [] h d = tt
  distinct-keep_if (x ∷ xs) h d =
      let rest = distinct-keep_if xs (λ a b m m'. h a b (inr m) (inr m')) d.1 in
      elim (Bool-cases (p x)) [
        | inl kept ↦ rw kept (
          elim (Bool-cases (any (same x) (keep_if p xs))) [
            | inl twice ↦
                let other = any-In (same x) (keep_if p xs) twice in
                let there = In-keep_if p other.0 xs other.2 in
                ground (
                  arith,
                  d.0,
                  In-any (same_chunk x) other.0 xs there.1
                      (h x other.0 (inl refl) (inr there.1) kept there.0 other.1),
                )
            | inr once ↦ once
          ],
          rest,
        )
        | inr dropped ↦ rw dropped rest
      ]
