-- ===== src/Knowledge/Examples.antt =====
-- Tests of the chunking, and the theorems at concrete inputs.
use knowledage_base_assistan.Prelude.{
  string_eq, ◌==◌, ℕ, ◌≡◌, refl, true, String, List, [], ◌∷◌, none, some, ok, if◌then◌else◌, concat,
  join,
}
use knowledage_base_assistan.Knowledge.IndexBuild.{
  created, chunking, embedding, writing, validating, ready, active, is_legal_index_build_transition,
}
use knowledage_base_assistan.Knowledge.IndexBuild.Paths.{History, rest, advance, activation_path}
use knowledage_base_assistan.Knowledge.Chunking.{
  paragraph, DocumentNode, DocumentNodeKind, section, atomic_group, tree_node, DocumentTreeNodes,
  no_nodes, nodes, ChunkBlock, Blocks, ChunkingConfig, ParentChunkDraft, walk_units, split_groups,
  create_parent_chunks,
}
use knowledage_base_assistan.Knowledge.Chunking.Groups.{AllFound, Groups, split_groups-Groups}
use knowledage_base_assistan.Knowledge.Chunking.Parents.{
  unit_blocks, parent_blocks, Parents, create_parent_chunks-Parents,
}

full-History :
    History created (chunking ∷ embedding ∷ writing ∷ validating ∷ ready ∷ active ∷ []) active
unfolding is_legal_index_build_transition
full-History =
    advance refl (advance refl (advance refl (advance refl (advance refl (advance refl rest)))))

activation_path_example :
    (chunking ∷ embedding ∷ writing ∷ validating ∷ ready ∷ active ∷ [])
    ≡ (chunking ∷ embedding ∷ writing ∷ validating ∷ ready ∷ active ∷ [])
activation_path_example = activation_path full-History

abbrev block : String → ℕ → ChunkBlock
block id n = record { block_id = id; block_type = paragraph; text = some id; token_count = n }

abbrev blocks : Blocks
blocks id =
    if id == "b1"
    then some (block "b1" 700)
    else if id == "b2"
    then some (block "b2" 600)
    else if id == "b3"
    then some (block "b3" 900)
    else if id == "t1"
    then some (block "t1" 5000)
    else none

abbrev node_of : DocumentNodeKind → String → List String → DocumentNode
node_of kind title ids = record {
  kind = kind;
  structure_path = title ∷ [];
  heading_level = 1;
  block_ids = ids;
  page_from = 1;
  page_to = 2;
  text = "";
}

abbrev tree : DocumentTreeNodes
tree =
    nodes
      (tree_node (node_of section "Methods" ("b1" ∷ "b2" ∷ "b3" ∷ []))
        (nodes (tree_node (node_of atomic_group "Methods" ("t1" ∷ [])) no_nodes) no_nodes))
      no_nodes

abbrev config : ChunkingConfig
config = record {
  parent_target_tokens = 1200;
  parent_max_tokens = 1800;
  child_target_tokens = 350;
  child_max_tokens = 550;
  overlap_tokens = 60;
  preserve_tables = true;
  preserve_formulas = true;
}

abbrev plain_hash : ChunkingConfig → String
plain_hash c = "chunk-a"

abbrev plain_id : String → List String → List String → String
plain_id identity path ids = concat identity (join "," ids)

two_groups :
    split_groups blocks 1800 ("b1" ∷ "b2" ∷ "b3" ∷ []) ≡ ok (("b1" ∷ "b2" ∷ []) ∷ ("b3" ∷ []) ∷ [])
unfolding split_groups
two_groups = refl

blocks_found : AllFound blocks ("b1" ∷ "b2" ∷ "b3" ∷ [])
blocks_found = ((block "b1" 700, refl), ((block "b2" 600, refl), ((block "b3" 900, refl), tt)))

split_groups-Groups_example :
    (groups : List (List String)) × (split_groups blocks 1800 ("b1" ∷ "b2" ∷ "b3" ∷ []) ≡ ok groups)
    × Groups blocks 1800 ("b1" ∷ "b2" ∷ "b3" ∷ []) groups
split_groups-Groups_example = split_groups-Groups blocks 1800 ("b1" ∷ "b2" ∷ "b3" ∷ []) blocks_found

tree_found : AllFound blocks (unit_blocks (walk_units tree))
unfolding walk_units
tree_found = (
  (block "b1" 700, refl),
  ((block "b2" 600, refl), ((block "b3" 900, refl), ((block "t1" 5000, refl), tt))),
)

create_parent_chunks-Parents_example :
    (ps : List ParentChunkDraft) × (create_parent_chunks plain_hash plain_id tree "v1" blocks config
      ≡ ok ps)
    × (parent_blocks ps ≡ unit_blocks (walk_units tree))
    × Parents blocks 1800 (walk_units tree) ps
create_parent_chunks-Parents_example =
    create_parent_chunks-Parents plain_hash plain_id tree "v1" blocks config tree_found
