-- ===== src/Memory/Types.antt =====
-- modules/memory/domain/memory_types.py. Times are numbers and only compared; an importance is
-- carried along.
use knowledage_base_assistan.Prelude.{ℕ, Uuid, String, Bool, List, Option}

pub data MemoryScope : Type 0 where
  task conversation user_private : MemoryScope

pub data MemoryKind : Type 0 where
  goal constraint definition decision preference : MemoryKind
  entity_binding open_question resolution supported_finding : MemoryKind

pub data MemoryState : Type 0 where
  proposed active superseded retracted expired invalidated quarantined : MemoryState

pub data MemoryTrust : Type 0 where
  user_explicit user_derived assistant_derived evidence_supported : MemoryTrust

pub data ProvenanceSourceType : Type 0 where
  message memory_command task_artifact evidence : ProvenanceSourceType

pub data DuplicateVerdict : Type 0 where
  same overlap conflict unrelated : DuplicateVerdict

pub data CorrectionDisposition : Type 0 where
  new merge conflict correct : CorrectionDisposition

pub record ProvenanceRef : Type 0 where
  pub source_type : ProvenanceSourceType
  pub source_id : String
  pub source_version : Option String
  pub content_hash : String
  pub message_sequence : Option ℕ

pub record MemoryProposal : Type 0 where
  pub scope : MemoryScope
  pub kind : MemoryKind
  pub canonical_key : Option String
  pub statement : String
  pub importance : ℕ
  pub valid_until : Option ℕ
  pub trust : MemoryTrust
  pub provenance : List ProvenanceRef
  pub correction_of : Option Uuid

pub record MemoryRecord : Type 0 where
  pub id : Uuid
  pub owner_id : Uuid
  pub conversation_id : Option Uuid
  pub task_id : Option Uuid
  pub scope : MemoryScope
  pub kind : MemoryKind
  pub state : MemoryState
  pub trust : MemoryTrust
  pub canonical_key : Option String
  pub content : String
  pub canonical_hash : String
  pub importance : ℕ
  pub pinned : Bool
  pub valid_from : ℕ
  pub valid_until : Option ℕ
  pub supersedes_id : Option Uuid
  pub conflict_group_id : Option Uuid
  pub provenance : List ProvenanceRef
  pub schema_version : ℕ
  pub revision : ℕ

pub record CorrectionPlan : Type 0 where
  pub disposition : CorrectionDisposition
  pub supersedes_id : Option Uuid
  pub conflict_group_id : Option Uuid
  pub append_provenance : Bool
