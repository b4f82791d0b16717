-- ===== src/Knowledge/Chunking/Parents.antt =====
-- The parent chunks of a tree.
use knowledage_base_assistan.Prelude.{
  ℕ, ◌≤◌, ◌≡◌, ◌⊎◌, refl, true, ◌||◌, inl, inr, String, List, [], ◌∷◌, ◌++◌, ok, arith, Bool-cases,
  leb, sum_by, All, append-nil, append_assoc, sym, ◌∙◌, ap, concat,
}
use knowledage_base_assistan.Knowledge.Chunking.{
  ChunkBlock, Blocks, DocumentNode, atomic_group, DocumentTreeNodes, ChunkingConfig,
  ParentChunkDraft, is_atomic_group, walk_units, blocks_of, tokens_of_block, total_tokens,
  parent_draft, make_parent, make_parents, parents_of_unit, parents_of_units, create_parent_chunks,
}
use knowledage_base_assistan.Knowledge.Chunking.Groups.{
  join_groups, AllFound, IsSmall, split_groups-Groups,
}

-- All block identifiers of the units, in order.
abbrev pub unit_blocks : List DocumentNode → List String
unit_blocks [] = []
unit_blocks (n ∷ ns) = n.block_ids ++ unit_blocks ns

abbrev pub parent_blocks : List ParentChunkDraft → List String
parent_blocks [] = []
parent_blocks (p ∷ ps) = p.block_ids ++ parent_blocks ps

-- A parent that agrees with a unit and with the blocks.
pub record IsParentOf (blocks : Blocks) (max_tokens : ℕ) (node : DocumentNode)
    (p : ParentChunkDraft) : Type 0 where
  pub path : p.structure_path ≡ node.structure_path
  pub first_page : p.page_from ≡ node.page_from
  pub last_page : p.page_to ≡ node.page_to
  pub counted : p.token_count ≡ total_tokens blocks p.block_ids
  -- only an atomic group and a single block may exceed the limit
  pub small :
      (node.kind ≡ atomic_group)
      ⊎ (p.token_count ≤ max_tokens)
      ⊎ ((id : String) × (p.block_ids ≡ id ∷ []))

blocks_of-found :
    (blocks : Blocks) (ids : List String)
    → AllFound blocks ids
    → (members : List ChunkBlock) × (blocks_of blocks ids ≡ ok members)
      × (sum_by (λ b. b.token_count) members ≡ total_tokens blocks ids)
unfolding blocks_of
blocks_of-found blocks [] h = ([], refl, refl)
blocks_of-found blocks (id ∷ ids) ((b, e), h) =
    let (members, q, s) = blocks_of-found blocks ids h in
    let same : tokens_of_block (blocks id) ≡ b.token_count = ap tokens_of_block e in
    (b ∷ members, rw (e, q) refl, omega (arith, s, same))

AllFound-first :
    (blocks : Blocks) (xs ys : List String) → AllFound blocks (xs ++ ys) → AllFound blocks xs
AllFound-first blocks [] ys h = tt
AllFound-first blocks (x ∷ xs) ys h = (h.0, AllFound-first blocks xs ys h.1)

AllFound-rest :
    (blocks : Blocks) (xs ys : List String) → AllFound blocks (xs ++ ys) → AllFound blocks ys
AllFound-rest blocks [] ys h = h
AllFound-rest blocks (x ∷ xs) ys h = AllFound-rest blocks xs ys h.1

-- Why a group may become a parent.
abbrev MayStand : Blocks → ℕ → DocumentNode → List String → Type 0
MayStand blocks max_tokens node group =
    (node.kind ≡ atomic_group)
    ⊎ (total_tokens blocks group ≤ max_tokens)
    ⊎ ((id : String) × (group ≡ id ∷ []))

IsSmall-MayStand :
    (blocks : Blocks) (max_tokens : ℕ) (node : DocumentNode) (group : List String)
    → IsSmall blocks max_tokens group
    → MayStand blocks max_tokens node group
IsSmall-MayStand blocks max_tokens node [] h = absurd h
IsSmall-MayStand blocks max_tokens node (id ∷ []) h = inr (inr (id, refl))
IsSmall-MayStand blocks max_tokens node (id ∷ x ∷ ids) h = inr (inl h)

All-MayStand :
    (blocks : Blocks) (max_tokens : ℕ) (node : DocumentNode) (groups : List (List String))
    → All (IsSmall blocks max_tokens) groups
    → All (MayStand blocks max_tokens node) groups
All-MayStand blocks max_tokens node [] h = tt
All-MayStand blocks max_tokens node (g ∷ groups) h =
    (IsSmall-MayStand blocks max_tokens node g h.0, All-MayStand blocks max_tokens node groups h.1)

whole-MayStand :
    (blocks : Blocks) (max_tokens : ℕ) (node : DocumentNode)
    → (is_atomic_group node.kind || leb (total_tokens blocks node.block_ids) max_tokens) ≡ true
    → MayStand blocks max_tokens node node.block_ids
whole-MayStand blocks max_tokens node h = ground arith

parent_blocks-append :
    (ps qs : List ParentChunkDraft)
    → parent_blocks (ps ++ qs) ≡ parent_blocks ps ++ parent_blocks qs
parent_blocks-append [] qs = refl
parent_blocks-append (p ∷ ps) qs =
    ap (λ t. p.block_ids ++ t) (parent_blocks-append ps qs)
    ∙ sym (append_assoc p.block_ids (parent_blocks ps) (parent_blocks qs))

-- The parents that come from a list of units.
pub data Parents (blocks : Blocks) (max_tokens : ℕ)
    : List DocumentNode → List ParentChunkDraft → Type 0 where
  no_units : Parents blocks max_tokens [] []
  of_unit :
      {node : DocumentNode} {units : List DocumentNode} (here rest : List ParentChunkDraft)
      → All (IsParentOf blocks max_tokens node) here
      → parent_blocks here ≡ node.block_ids
      → Parents blocks max_tokens units rest
      → Parents blocks max_tokens (node ∷ units) (here ++ rest)

module _ (config_hash : ChunkingConfig → String)
    (parent_id_for : String → List String → List String → String) where
  make_parent-IsParentOf :
      (blocks : Blocks) (max_tokens : ℕ) (node : DocumentNode) (group : List String)
      (identity : String)
      → AllFound blocks group
      → MayStand blocks max_tokens node group
      → (p : ParentChunkDraft) × (make_parent config_hash parent_id_for node group identity blocks
          ≡ ok p)
        × (p.block_ids ≡ group)
        × IsParentOf blocks max_tokens node p
  unfolding make_parent
  make_parent-IsParentOf blocks max_tokens node group identity h m =
      let (members, q, s) = blocks_of-found blocks group h in
      (
        parent_draft config_hash parent_id_for node group identity members,
        rw q refl,
        refl,
        record { path = refl; first_page = refl; last_page = refl; counted = s; small = rw s m },
      )

  make_parents-All :
      (blocks : Blocks) (max_tokens : ℕ) (node : DocumentNode) (groups : List (List String))
      (identity : String)
      → AllFound blocks (join_groups groups)
      → All (MayStand blocks max_tokens node) groups
      → (ps : List ParentChunkDraft) × (make_parents config_hash parent_id_for node groups identity
            blocks
          ≡ ok ps)
        × (parent_blocks ps ≡ join_groups groups)
        × All (IsParentOf blocks max_tokens node) ps
  unfolding make_parents
  make_parents-All blocks max_tokens node [] identity h m = ([], refl, refl, tt)
  make_parents-All blocks max_tokens node (g ∷ groups) identity h m =
      let (p, q, ids, good) =
        make_parent-IsParentOf blocks max_tokens node g identity
          (AllFound-first blocks g (join_groups groups) h) m.0 in
      let (ps, r, rest, all_good) =
        make_parents-All blocks max_tokens node groups identity
          (AllFound-rest blocks g (join_groups groups) h) m.1 in
      (p ∷ ps, rw (q, r) refl, rw (ids, rest) refl, (good, all_good))

  -- One unit.
  parents_of_unit-All :
      (blocks : Blocks) (max_tokens : ℕ) (node : DocumentNode) (identity : String)
      → AllFound blocks node.block_ids
      → (ps : List ParentChunkDraft) × (parents_of_unit config_hash parent_id_for node identity
            blocks max_tokens
          ≡ ok ps)
        × (parent_blocks ps ≡ node.block_ids)
        × All (IsParentOf blocks max_tokens node) ps
  unfolding parents_of_unit
  parents_of_unit-All blocks max_tokens node identity h =
      elim (Bool-cases
        (is_atomic_group node.kind || leb (total_tokens blocks node.block_ids) max_tokens)) [
          | inl whole ↦
              let (ps, q, ids, good) =
                make_parents-All blocks max_tokens node (node.block_ids ∷ []) identity
                  (rw (← append-nil node.block_ids) at h)
                  (whole-MayStand blocks max_tokens node whole, tt) in
              (ps, rw whole q, ids ∙ append-nil node.block_ids, good)
          | inr large ↦
              let (groups, e, g) = split_groups-Groups blocks max_tokens node.block_ids h in
              let (ps, q, ids, good) =
                make_parents-All blocks max_tokens node groups identity (rw (← g.covers) at h)
                  (All-MayStand blocks max_tokens node groups g.small) in
              (ps, rw (large, e) q, ids ∙ g.covers, good)
        ]

  parents_of_units-Parents :
      (blocks : Blocks) (max_tokens : ℕ) (units : List DocumentNode) (identity : String)
      → AllFound blocks (unit_blocks units)
      → (ps : List ParentChunkDraft) × (parents_of_units config_hash parent_id_for units identity
            blocks max_tokens
          ≡ ok ps)
        × (parent_blocks ps ≡ unit_blocks units)
        × Parents blocks max_tokens units ps
  unfolding parents_of_units
  parents_of_units-Parents blocks max_tokens [] identity h = ([], refl, refl, no_units)
  parents_of_units-Parents blocks max_tokens (node ∷ units) identity h =
      let (here, q, ids, good) =
        parents_of_unit-All blocks max_tokens node identity
          (AllFound-first blocks node.block_ids (unit_blocks units) h) in
      let (rest, r, others, ps) =
        parents_of_units-Parents blocks max_tokens units identity
          (AllFound-rest blocks node.block_ids (unit_blocks units) h) in
      (
        here ++ rest,
        rw (q, r) refl,
        rw (parent_blocks-append here rest, ids, others) refl,
        of_unit here rest good ids ps,
      )

  -- If every block of the tree's units is given, the parents are made; their blocks are those of the
  -- units, in order, none lost and none twice; each parent belongs to one unit, carries its heading
  -- path and pages, counts its own tokens, and exceeds the limit only as an atomic group or as a
  -- single block.
  pub create_parent_chunks-Parents :
      (tree : DocumentTreeNodes) (chunker_version : String) (blocks : Blocks)
      (config : ChunkingConfig)
      → AllFound blocks (unit_blocks (walk_units tree))
      → (ps : List ParentChunkDraft) × (create_parent_chunks config_hash parent_id_for tree
            chunker_version blocks config
          ≡ ok ps)
        × (parent_blocks ps ≡ unit_blocks (walk_units tree))
        × Parents blocks config.parent_max_tokens (walk_units tree) ps
  unfolding create_parent_chunks
  create_parent_chunks-Parents tree chunker_version blocks config h =
      parents_of_units-Parents blocks config.parent_max_tokens (walk_units tree)
        (concat chunker_version (concat ":" (config_hash config))) h
