-- ===== src/Knowledge/Chunking/Groups.antt =====
-- The groups of `_split_groups`.
use knowledage_base_assistan.Prelude.{
  ℕ, ◌+◌, ◌<◌, ◌≤◌, ◌≡◌, refl, true, false, inl, inr, String, List, [], ◌∷◌, ◌++◌, some, ok, arith,
  Bool-cases, ltb, sum_by-append, All, append-nil, append_assoc, sym, ◌∙◌, ap,
}
use knowledage_base_assistan.Knowledge.Chunking.{
  ChunkBlock, Blocks, split_from, split_groups, tokens_of_block, total_tokens,
}

-- All groups after each other.
abbrev pub join_groups {ℓ} : {A : Type ℓ} → List (List A) → List A
join_groups [] = []
join_groups (g ∷ gs) = g ++ join_groups gs

-- Every identifier names a block.
abbrev pub AllFound : Blocks → List String → Type 0
AllFound blocks ids = All (λ id. (b : ChunkBlock) × (blocks id ≡ some b)) ids

-- A group is not empty, and one above the limit has a single block.
abbrev pub IsSmall : Blocks → ℕ → List String → Type 0
IsSmall blocks max_tokens [] = ⊥
IsSmall blocks max_tokens (id ∷ []) = Unit
IsSmall blocks max_tokens (id ∷ other ∷ ids) = total_tokens blocks (id ∷ other ∷ ids) ≤ max_tokens

-- The first block after the group has no room in it.
abbrev pub IsFull : Blocks → ℕ → List String → List (List String) → Type 0
IsFull blocks max_tokens group [] = Unit
IsFull blocks max_tokens group ([] ∷ groups) = Unit
IsFull blocks max_tokens group ((id ∷ ids) ∷ groups) =
    max_tokens < total_tokens blocks group + tokens_of_block (blocks id)

abbrev pub AreFull : Blocks → ℕ → List (List String) → Type 0
AreFull blocks max_tokens [] = Unit
AreFull blocks max_tokens (g ∷ groups) =
    IsFull blocks max_tokens g groups × AreFull blocks max_tokens groups

pub record Groups (blocks : Blocks) (max_tokens : ℕ) (ids : List String)
    (groups : List (List String)) : Type 0 where
  pub covers : join_groups groups ≡ ids
  pub small : All (IsSmall blocks max_tokens) groups
  pub full : AreFull blocks max_tokens groups

-- The state of the loop: an empty group, or a small one with its tokens.
abbrev Open : Blocks → ℕ → List String → ℕ → Type 0
Open blocks max_tokens [] n = n ≡ 0
Open blocks max_tokens (id ∷ ids) n =
    IsSmall blocks max_tokens (id ∷ ids) × (n ≡ total_tokens blocks (id ∷ ids))

-- What the first group starts with.
abbrev Starts : List String → List (List String) → Type 0
Starts [] groups = Unit
Starts (id ∷ ids) [] = ⊥
Starts (id ∷ ids) ([] ∷ groups) = ⊥
Starts (id ∷ ids) ((other ∷ others) ∷ groups) = id ≡ other

block_tokens :
    (blocks : Blocks) (id : String) (b : ChunkBlock)
    → blocks id ≡ some b
    → tokens_of_block (blocks id) ≡ b.token_count
block_tokens blocks id b e = ap tokens_of_block e

IsSmall-total :
    (blocks : Blocks) (max_tokens : ℕ) (c id : String) (cs : List String)
    → total_tokens blocks (c ∷ (cs ++ id ∷ [])) ≤ max_tokens
    → IsSmall blocks max_tokens (c ∷ (cs ++ id ∷ []))
IsSmall-total blocks max_tokens c id [] h = h
IsSmall-total blocks max_tokens c id (x ∷ xs) h = h

Open-extend :
    (blocks : Blocks) (max_tokens : ℕ) (c id : String) (cs : List String) (b : ChunkBlock) (n : ℕ)
    → blocks id ≡ some b
    → Open blocks max_tokens (c ∷ cs) n
    → ltb max_tokens (n + b.token_count) ≡ false
    → Open blocks max_tokens (c ∷ (cs ++ id ∷ [])) (n + b.token_count)
Open-extend blocks max_tokens c id cs b n e (small, total) fits =
    let same = block_tokens blocks id b e in
    let more = sum_by-append (λ x. tokens_of_block (blocks x)) cs (id ∷ []) in
    let sum : n + b.token_count ≡ total_tokens blocks (c ∷ (cs ++ id ∷ [])) = omega (arith, more) in
    let below : n + b.token_count ≤ max_tokens = ground arith in
    (IsSmall-total blocks max_tokens c id cs (omega (arith, sum)), sum)

Starts-IsFull :
    (blocks : Blocks) (max_tokens : ℕ) (id : String) (group : List String)
    (groups : List (List String))
    → Starts (id ∷ []) groups
    → max_tokens < total_tokens blocks group + tokens_of_block (blocks id)
    → IsFull blocks max_tokens group groups
Starts-IsFull blocks max_tokens id group [] s h = tt
Starts-IsFull blocks max_tokens id group ([] ∷ groups) s h = tt
Starts-IsFull blocks max_tokens id group ((other ∷ others) ∷ groups) s h = rw s at h

-- What the loop makes of an open group and the rest.
abbrev ResultOf : Blocks → ℕ → List String → List String → ℕ → Type 0
ResultOf blocks max_tokens ids current n =
    (groups : List (List String)) × (split_from blocks max_tokens ids current n ≡ ok groups)
    × Groups blocks max_tokens (current ++ ids) groups
    × Starts current groups

Starts-longer :
    (c id : String) (cs : List String) (groups : List (List String))
    → Starts (c ∷ (cs ++ id ∷ [])) groups
    → Starts (c ∷ cs) groups
Starts-longer c id cs [] s = s
Starts-longer c id cs ([] ∷ groups) s = s
Starts-longer c id cs ((other ∷ others) ∷ groups) s = s

cut_here :
    (blocks : Blocks) (max_tokens : ℕ) (c id : String) (cs ids : List String) (b : ChunkBlock)
    (n : ℕ)
    → blocks id ≡ some b
    → Open blocks max_tokens (c ∷ cs) n
    → ltb max_tokens (n + b.token_count) ≡ true
    → ResultOf blocks max_tokens ids (id ∷ []) b.token_count
    → ResultOf blocks max_tokens (id ∷ ids) (c ∷ cs) n
unfolding split_from
cut_here blocks max_tokens c id cs ids b n e o cut (groups, q, g, s) =
    let same = block_tokens blocks id b e in
    let over : max_tokens < n + b.token_count = ground arith in
    (
      (c ∷ cs) ∷ groups,
      rw (e, cut, q) refl,
      record {
        covers = ap (λ t. c ∷ cs ++ t) g.covers;
        small = (o.0, g.small);
        full = (
          Starts-IsFull blocks max_tokens id (c ∷ cs) groups s (omega (arith, over, same, o.1)),
          g.full,
        );
      },
      refl,
    )

go_on :
    (blocks : Blocks) (max_tokens : ℕ) (c id : String) (cs ids : List String) (b : ChunkBlock)
    (n : ℕ)
    → blocks id ≡ some b
    → ltb max_tokens (n + b.token_count) ≡ false
    → ResultOf blocks max_tokens ids (c ∷ (cs ++ id ∷ [])) (n + b.token_count)
    → ResultOf blocks max_tokens (id ∷ ids) (c ∷ cs) n
unfolding split_from
go_on blocks max_tokens c id cs ids b n e fits (groups, q, g, s) = (
  groups,
  rw (e, fits, q) refl,
  record {
    covers = g.covers ∙ ap (λ t. c ∷ t) (append_assoc cs (id ∷ []) ids);
    small = g.small;
    full = g.full;
  },
  Starts-longer c id cs groups s,
)

split_from-Groups :
    (blocks : Blocks) (max_tokens : ℕ) (ids current : List String) (n : ℕ)
    → AllFound blocks ids
    → Open blocks max_tokens current n
    → ResultOf blocks max_tokens ids current n
unfolding split_from
split_from-Groups blocks max_tokens [] [] n h o =
    ([], refl, record { covers = refl; small = tt; full = tt }, tt)
split_from-Groups blocks max_tokens [] (c ∷ cs) n h o = (
  (c ∷ cs) ∷ [],
  refl,
  record {
    covers = append-nil (c ∷ cs) ∙ sym (append-nil (c ∷ cs));
    small = (o.0, tt);
    full = (tt, tt);
  },
  refl,
)
split_from-Groups blocks max_tokens (id ∷ ids) [] n ((b, e), h) o =
    let same = block_tokens blocks id b e in
    let (groups, q, g, s) =
      split_from-Groups blocks max_tokens ids (id ∷ []) b.token_count h (tt, omega (arith, same)) in
    let z : 0 + b.token_count ≡ b.token_count = omega arith in (groups, rw (e, o, z, q) refl, g, tt)
split_from-Groups blocks max_tokens (id ∷ ids) (c ∷ cs) n ((b, e), h) o =
    elim (Bool-cases (ltb max_tokens (n + b.token_count))) [
      | inl cut ↦
          let same = block_tokens blocks id b e in
          cut_here blocks max_tokens c id cs ids b n e o cut (
            split_from-Groups blocks max_tokens ids (id ∷ []) b.token_count h
              (tt, omega (arith, same)))
      | inr fits ↦ go_on blocks max_tokens c id cs ids b n e fits (
          split_from-Groups blocks max_tokens ids (c ∷ (cs ++ id ∷ [])) (n + b.token_count) h
            (Open-extend blocks max_tokens c id cs b n e o fits))
    ]

-- If every identifier names a block, the groups joined are the identifiers in their order; no group
-- is empty, one above the limit has a single block, and the first block after a group has no room
-- in it.
pub split_groups-Groups :
    (blocks : Blocks) (max_tokens : ℕ) (ids : List String)
    → AllFound blocks ids
    → (groups : List (List String)) × (split_groups blocks max_tokens ids ≡ ok groups)
      × Groups blocks max_tokens ids groups
unfolding split_groups
split_groups-Groups blocks max_tokens ids h =
    let (groups, q, g, s) = split_from-Groups blocks max_tokens ids [] 0 h refl in (groups, q, g)
