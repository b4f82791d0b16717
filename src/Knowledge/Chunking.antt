-- ===== src/Knowledge/Chunking.antt =====
-- modules/knowledge/domain/chunking.py: the parent chunks of a document tree. The canonical digests
-- of a configuration and of a parent are parameters: a third-party serialiser computes them. The
-- mapping of the blocks is a function; a missing key is an error.
pub mod Groups
pub mod Parents
use knowledage_base_assistan.Prelude.{
  sum_by, map, ℕ, ◌+◌, String, Bool, true, false, ◌&&◌, ◌||◌, List, [], ◌∷◌, ◌++◌, Option, none,
  some, Result, ok, raise, key_error, ◌>>=◌, ltb, leb, if◌then◌else◌, concat, join,
}

pub data DocumentNodeKind : Type 0 where
  section references virtual_section atomic_group : DocumentNodeKind

-- The fields of a tree node besides its children.
pub record DocumentNode : Type 0 where
  pub kind : DocumentNodeKind
  pub structure_path : List String
  pub heading_level : ℕ
  pub block_ids : List String
  pub page_from : ℕ
  pub page_to : ℕ
  pub text : String

mutual
  pub data DocumentTreeNode : Type 0 where
    tree_node : DocumentNode → DocumentTreeNodes → DocumentTreeNode

  pub data DocumentTreeNodes : Type 0 where
    no_nodes : DocumentTreeNodes
    nodes : DocumentTreeNode → DocumentTreeNodes → DocumentTreeNodes

-- `BlockTypeV1` of document.py.
pub data BlockType : Type 0 where
  title heading paragraph list_item table formula : BlockType
  figure caption footnote reference header_footer unknown : BlockType

pub record ChunkBlock : Type 0 where
  pub block_id : String
  pub block_type : BlockType
  pub text : Option String
  pub token_count : ℕ

-- The configuration; the parents read `parent_max_tokens`, and the digest reads all of it.
pub record ChunkingConfig : Type 0 where
  pub parent_target_tokens : ℕ
  pub parent_max_tokens : ℕ
  pub child_target_tokens : ℕ
  pub child_max_tokens : ℕ
  pub overlap_tokens : ℕ
  pub preserve_tables : Bool
  pub preserve_formulas : Bool

pub record ParentChunkDraft : Type 0 where
  pub parent_id : String
  pub structure_path : List String
  pub page_from : ℕ
  pub page_to : ℕ
  pub block_ids : List String
  pub text : String
  pub token_count : ℕ
  pub context_prefix : String

abbrev pub is_atomic_group : DocumentNodeKind → Bool
is_atomic_group atomic_group = true
is_atomic_group _ = false

abbrev pub stands_alone : DocumentNodeKind → Bool
stands_alone atomic_group = true
stands_alone references = true
stands_alone _ = false

-- A node with blocks is a unit.
abbrev pub unit_of : DocumentNode → List String → List DocumentNode
unit_of n [] = []
unit_of n (b ∷ bs) = n ∷ []

unfoldable pub walk_units : DocumentTreeNodes → List DocumentNode
walk_units no_nodes = []
walk_units (nodes (tree_node n children) siblings) =
    let below = walk_units children in
    let after = walk_units siblings in
    unit_of n n.block_ids ++ (if stands_alone n.kind then after else below ++ after)

abbrev pub Blocks : Type 0
Blocks = String → Option ChunkBlock

abbrev is_nonempty {ℓ} : {A : Type ℓ} → List A → Bool
is_nonempty [] = false
is_nonempty (x ∷ xs) = true

-- `blocks[block_id]`
abbrev pub found : Option ChunkBlock → Result ChunkBlock
found none = raise key_error
found (some b) = ok b

-- The last group of the loop, unless it is empty.
abbrev pub last_group : List String → List (List String)
last_group [] = []
last_group (b ∷ bs) = (b ∷ bs) ∷ []

abbrev pub closed : Bool → List String → List (List String) → List (List String)
closed true current groups = current ∷ groups
closed false current groups = groups

-- The loop, with the current group and its tokens.
unfoldable pub split_from : Blocks → ℕ → List String → List String → ℕ → Result (List (List String))
split_from blocks max_tokens [] current current_tokens = ok (last_group current)
split_from blocks max_tokens (id ∷ ids) current current_tokens = do
  block ← found (blocks id)
  let cut = is_nonempty current && ltb max_tokens (current_tokens + block.token_count)
  groups ←
      split_from blocks max_tokens ids (if cut then id ∷ [] else current ++ id ∷ [])
        (if cut then block.token_count else current_tokens + block.token_count)
  ok (closed cut current groups)

unfoldable pub split_groups : Blocks → ℕ → List String → Result (List (List String))
unfolding split_from
split_groups blocks max_tokens block_ids = split_from blocks max_tokens block_ids [] 0

-- `text or ""`
abbrev pub text_or_empty : Option String → String
text_or_empty none = ""
text_or_empty (some t) = t

-- [blocks[b] for b in ids]
unfoldable pub blocks_of : Blocks → List String → Result (List ChunkBlock)
blocks_of blocks [] = ok []
blocks_of blocks (id ∷ ids) = do
  block ← found (blocks id)
  rest ← blocks_of blocks ids
  ok (block ∷ rest)

-- The tokens of the blocks that are there: sum(... if b in blocks).
abbrev pub tokens_of_block : Option ChunkBlock → ℕ
tokens_of_block none = 0
tokens_of_block (some b) = b.token_count

abbrev pub total_tokens : Blocks → List String → ℕ
total_tokens blocks ids = sum_by (λ id. tokens_of_block (blocks id)) ids

module _ (config_hash : ChunkingConfig → String)
    (parent_id_for : String → List String → List String → String) where
  unfoldable pub parent_draft :
      DocumentNode → List String → String → List ChunkBlock → ParentChunkDraft
  parent_draft node block_ids identity members = record {
    parent_id = parent_id_for identity node.structure_path block_ids;
    structure_path = node.structure_path;
    page_from = node.page_from;
    page_to = node.page_to;
    block_ids = block_ids;
    text = join "\n" (map (λ b. text_or_empty b.text) members);
    token_count = sum_by (λ b. b.token_count) members;
    context_prefix = join " / " node.structure_path;
  }

  unfoldable pub make_parent :
      DocumentNode → List String → String → Blocks → Result ParentChunkDraft
  unfolding blocks_of parent_draft
  make_parent node block_ids identity blocks = do
    members ← blocks_of blocks block_ids
    ok (parent_draft node block_ids identity members)

  unfoldable pub make_parents :
      DocumentNode → List (List String) → String → Blocks → Result (List ParentChunkDraft)
  make_parents node [] identity blocks = ok []
  make_parents node (group ∷ groups) identity blocks = do
    parent ← make_parent node group identity blocks
    rest ← make_parents node groups identity blocks
    ok (parent ∷ rest)

  -- One unit of the loop.
  unfoldable pub parents_of_unit :
      DocumentNode → String → Blocks → ℕ → Result (List ParentChunkDraft)
  unfolding make_parents split_groups
  parents_of_unit node identity blocks max_tokens =
      if is_atomic_group node.kind || leb (total_tokens blocks node.block_ids) max_tokens
      then make_parents node (node.block_ids ∷ []) identity blocks
      else do
        groups ← split_groups blocks max_tokens node.block_ids
        make_parents node groups identity blocks

  unfoldable pub parents_of_units :
      List DocumentNode → String → Blocks → ℕ → Result (List ParentChunkDraft)
  unfolding parents_of_unit
  parents_of_units [] identity blocks max_tokens = ok []
  parents_of_units (node ∷ units) identity blocks max_tokens = do
    parents ← parents_of_unit node identity blocks max_tokens
    rest ← parents_of_units units identity blocks max_tokens
    ok (parents ++ rest)

  unfoldable pub create_parent_chunks :
      DocumentTreeNodes → String → Blocks → ChunkingConfig → Result (List ParentChunkDraft)
  unfolding walk_units parents_of_units
  create_parent_chunks tree chunker_version blocks config =
      parents_of_units (walk_units tree) (concat chunker_version (concat ":" (config_hash config)))
        blocks config.parent_max_tokens
