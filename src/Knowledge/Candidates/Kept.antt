-- ===== src/Knowledge/Candidates/Kept.antt =====
-- What `dedup_candidates` keeps.
use knowledage_base_assistan.Prelude.{
  string_eq, ◌==◌, ==-refl, ◌≡◌, refl, sym, ap, subst, ◌∙◌, inl, inr, Bool, true, false, ◌&&◌, ◌||◌,
  not, List, [], map, contains, any, keep_if, All, All-imp, Bool-cases, arith, is_some,
}
use knowledage_base_assistan.Knowledge.Candidates.{
  Candidate, dedup_score, is_better, same_chunk, same_text, best_of, unique, by_hash,
  dedup_candidates,
}
use knowledage_base_assistan.Knowledge.Candidates.Best.{
  AreDistinct, covers, best_of-covers, best_of-AreDistinct,
}
use knowledage_base_assistan.Knowledge.Candidates.Members.{
  In, any-In, In-any, In-All, In-keep_if, keep_if-In, contains-In, In-best_of, member_unique,
}
use knowledage_base_assistan.Knowledge.Candidates.Keys.{
  same_chunk-IsKey, opt-some, same_text-IsKey, same_hash, not_above_trans, distinct-keep_if,
}

module _ (cs : List Candidate) where
  unique-AreDistinct : AreDistinct same_chunk (unique cs)
  unfolding unique
  unique-AreDistinct = best_of-AreDistinct same_chunk-IsKey [] cs tt

  by_hash-AreDistinct : AreDistinct same_text (by_hash cs)
  unfolding by_hash
  by_hash-AreDistinct =
      best_of-AreDistinct same_text-IsKey [] (keep_if (λ c. is_some c.text_hash) (unique cs)) tt

  by_hash-In : (b : Candidate) → In b (by_hash cs) → In b (unique cs)
  unfolding by_hash
  by_hash-In b m =
      elim (In-best_of same_text b [] (keep_if (λ c. is_some c.text_hash) (unique cs)) m) [
        | inl none_there ↦ elim none_there [ ]
        | inr m' ↦ (In-keep_if (λ c. is_some c.text_hash) b (unique cs) m').1
      ]

  unique-In : (b : Candidate) → In b (unique cs) → In b cs
  unfolding unique
  unique-In b m = elim (In-best_of same_chunk b [] cs m) [
    | inl none_there ↦ elim none_there [ ]
    | inr m' ↦ m'
  ]

  abbrev pub is_kept : Candidate → Bool
  is_kept c =
      not (is_some c.text_hash)
      || contains (map (λ (c : Candidate). c.chunk_id) (by_hash cs)) c.chunk_id

  -- Of the candidates with a text, those that are kept are the best of their text.
  kept-In :
      (a : Candidate)
      → In a (unique cs)
      → is_kept a ≡ true
      → is_some a.text_hash ≡ true
      → In a (by_hash cs)
  kept-In a m k s =
      let hit =
        any-In (λ c. c.chunk_id == a.chunk_id) (by_hash cs)
          (ground (arith, contains-In a.chunk_id (by_hash cs))) in
      subst (λ z. In z (by_hash cs))
        (member_unique same_chunk same_chunk-IsKey hit.0 a (unique cs) unique-AreDistinct
          (by_hash-In hit.0 hit.2) m hit.1)
        hit.2

  In-kept : (a : Candidate) → In a (by_hash cs) → is_kept a ≡ true
  In-kept a m = ground (
    arith,
    contains-In a.chunk_id (by_hash cs),
    In-any (λ c. c.chunk_id == a.chunk_id) a (by_hash cs) m (==-refl a.chunk_id),
  )

  kept_apart :
      (a b : Candidate)
      → In a (unique cs)
      → In b (unique cs)
      → is_kept a ≡ true
      → is_kept b ≡ true
      → same_hash a b ≡ true
      → same_chunk a b ≡ true
  kept_apart a b m n k l h =
      let h' : (is_some a.text_hash ≡ true) × (same_text a b ≡ true) =
        (ground (arith, h), ground (arith, h)) in
      sym (
        ap (same_chunk a) (
          member_unique same_text same_text-IsKey a b (by_hash cs) by_hash-AreDistinct
            (kept-In a m k h'.0) (kept-In b n l (opt-some a.text_hash b.text_hash h'.0 h'.1)) h'.1))
      ∙ ==-refl a.chunk_id

  dedup-same_hash : AreDistinct same_hash (dedup_candidates cs)
  unfolding dedup_candidates
  dedup-same_hash = distinct-keep_if same_hash is_kept (unique cs) kept_apart unique-AreDistinct

  dedup-same_chunk : AreDistinct same_chunk (dedup_candidates cs)
  unfolding dedup_candidates
  dedup-same_chunk =
      distinct-keep_if same_chunk is_kept (unique cs) (λ a b m n k l h. h) unique-AreDistinct

  -- A candidate that is no worse than another one, and that has its chunk, or the text of a
  -- candidate with its chunk.
  abbrev pub stands_for : Candidate → Candidate → Bool
  stands_for r c =
      not (is_better c r) && (same_chunk r c || any (λ u. same_chunk u c && same_hash u r) cs)

  by_hash-covers :
      (u : Candidate)
      → In u (unique cs)
      → is_some u.text_hash ≡ true
      → any (λ y. same_text y u && not (is_better u y)) (by_hash cs) ≡ true
  unfolding by_hash
  by_hash-covers u m h =
      let hashed = keep_if (λ c. is_some c.text_hash) (unique cs) in
      In-All (λ x. covers same_text (best_of same_text [] hashed) x ≡ true) u hashed
        (keep_if-In (λ c. is_some c.text_hash) u (unique cs) m h)
        (best_of-covers same_text-IsKey [] hashed)

  stands_by :
      (b u c : Candidate)
      → is_better u b ≡ false
      → is_better c u ≡ false
      → any (λ v. same_chunk v c && same_hash v b) cs ≡ true
      → stands_for b c ≡ true
  stands_by b u c h k l =
      rw (not_above_trans (dedup_score c) (dedup_score u) (dedup_score b) k h) (ground (arith, l))

  unique_stands :
      (u c : Candidate)
      → In u (unique cs)
      → same_chunk u c ≡ true
      → is_better c u ≡ false
      → any (λ r. stands_for r c) (dedup_candidates cs) ≡ true
  unfolding dedup_candidates
  unique_stands u c m s w = elim (Bool-cases (is_some u.text_hash)) [
    | inl hashed ↦
        let best =
          any-In (λ y. same_text y u && not (is_better u y)) (by_hash cs)
            (by_hash-covers u m hashed) in
        let b = best.0 in
        let fit : (same_text b u ≡ true) × (is_better u b ≡ false) =
          (ground (arith, best.1), ground (arith, best.1)) in
        In-any (λ r. stands_for r c) best.0 (keep_if is_kept (unique cs))
          (keep_if-In is_kept best.0 (unique cs) (by_hash-In best.0 best.2) (In-kept best.0 best.2))
          (stands_by b u c fit.1 w (
            In-any (λ v. same_chunk v c && same_hash v b) u cs (unique-In u m)
              (rw (s, hashed)
                (same_text-IsKey.same_left u b b fit.0 (same_text-IsKey.same_refl b)))))
    | inr bare ↦
        In-any (λ r. stands_for r c) u (keep_if is_kept (unique cs))
          (keep_if-In is_kept u (unique cs) m (ground (arith, bare))) (rw (w, s) refl)
  ]

  -- What comes out, of what went in.
  pub record AreDeduplicated (rs : List Candidate) : Type 0 where
    pub one_per_chunk : AreDistinct same_chunk rs
    pub one_per_text : AreDistinct same_hash rs
    pub from_input : (r : Candidate) → In r rs → In r cs
    pub none_lost : All (λ c. any (λ r. stands_for r c) rs ≡ true) cs

  dedup-In : (r : Candidate) → In r (dedup_candidates cs) → In r cs
  unfolding dedup_candidates
  dedup-In r m = unique-In r (In-keep_if is_kept r (unique cs) m).1

  dedup-stands : All (λ c. any (λ r. stands_for r c) (dedup_candidates cs) ≡ true) cs
  unfolding unique
  dedup-stands =
      All-imp
        (λ c h.
          let found = any-In (λ y. same_chunk y c && not (is_better c y)) (unique cs) h in
          unique_stands found.0 c found.2 (ground (arith, found.1)) (ground (arith, found.1)))
        cs (best_of-covers same_chunk-IsKey [] cs)

  -- Of any candidates, those that are kept are input candidates, no two with the same chunk and no
  -- two with the same text hash; and for every input candidate one is kept that scores no lower and
  -- has its chunk, or the text hash of an input candidate with its chunk.
  pub dedup_candidates-AreDeduplicated : AreDeduplicated (dedup_candidates cs)
  dedup_candidates-AreDeduplicated = record {
    one_per_chunk = dedup-same_chunk;
    one_per_text = dedup-same_hash;
    from_input = dedup-In;
    none_lost = dedup-stands;
  }
