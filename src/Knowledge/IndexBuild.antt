-- ===== src/Knowledge/IndexBuild.antt =====
-- The states of an index build in modules/knowledge/domain/chunking.py.
pub mod Paths
use knowledage_base_assistan.Prelude.{Bool, true, false}

pub data IndexBuildStatus : Type 0 where
  created chunking embedding writing validating ready active retired failed cancelled :
      IndexBuildStatus

unfoldable pub is_legal_index_build_transition : IndexBuildStatus → IndexBuildStatus → Bool
is_legal_index_build_transition created chunking = true
is_legal_index_build_transition created failed = true
is_legal_index_build_transition created cancelled = true
is_legal_index_build_transition chunking embedding = true
is_legal_index_build_transition chunking failed = true
is_legal_index_build_transition chunking cancelled = true
is_legal_index_build_transition embedding writing = true
is_legal_index_build_transition embedding failed = true
is_legal_index_build_transition embedding cancelled = true
is_legal_index_build_transition writing validating = true
is_legal_index_build_transition writing failed = true
is_legal_index_build_transition writing cancelled = true
is_legal_index_build_transition validating ready = true
is_legal_index_build_transition validating failed = true
is_legal_index_build_transition validating cancelled = true
is_legal_index_build_transition ready active = true
is_legal_index_build_transition ready retired = true
is_legal_index_build_transition ready cancelled = true
is_legal_index_build_transition active retired = true
is_legal_index_build_transition _ _ = false
