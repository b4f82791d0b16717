-- ===== src/Temporal/Outbox/Table.antt =====
-- The tables that the outbox reads and writes, of infrastructure/persistence/task_models.py. Times
-- are counted in microseconds.
use knowledage_base_assistan.Prelude.{
  nat_eq, string_eq, ◌==◌, ℕ, String, Uuid, Bool, true, false, not, ◌&&◌, ◌||◌, List, [], ◌∷◌,
  Option, none, some, is_some, if◌then◌else◌,
}

pub data PublishStatus : Type 0 where
  pending : PublishStatus
  publishing : PublishStatus
  published : PublishStatus
  dead : PublishStatus

infix 50 ◌same_status◌
abbrev pub ◌same_status◌ : PublishStatus → PublishStatus → Bool
pending same_status pending = true
publishing same_status publishing = true
published same_status published = true
dead same_status dead = true
_ same_status _ = false

-- A JSON object, with each value as its text.
abbrev pub JsonObject : Type 0
JsonObject = List (String × String)

pub record OutboxMessage : Type 0 where
  pub id : Uuid
  pub event_id : Uuid
  pub aggregate_type : String
  pub aggregate_id : Uuid
  pub aggregate_version : ℕ
  pub destination : String
  pub schema_version : String
  pub payload_json : JsonObject
  pub payload_digest : String
  pub publish_status : PublishStatus
  pub available_at : ℕ
  pub attempt_count : ℕ
  pub claimed_by : Option String
  pub claimed_at : Option ℕ
  pub published_at : Option ℕ
  pub last_error_code : Option String
  pub row_version : ℕ

-- The constraint `publish_state_shape`.
unfoldable pub publish_state_shape : OutboxMessage → Bool
publish_state_shape r =
    r.publish_status same_status publishing
      && is_some r.claimed_by
      && is_some r.claimed_at
      && not (is_some r.published_at)
    || r.publish_status same_status published && is_some r.published_at
    || (r.publish_status same_status pending || r.publish_status same_status dead)
      && not (is_some r.claimed_by)
      && not (is_some r.claimed_at)
      && not (is_some r.published_at)

-- What the outbox reads of a task and of an event.
pub record Task : Type 0 where
  pub id : Uuid
  pub deadline_at : ℕ

pub record TaskEvent : Type 0 where
  pub id : Uuid
  pub task_id : Uuid
  pub event_type : String
  pub workflow_relevant : Bool
  pub sequence : ℕ

abbrev pub find_row : Uuid → List OutboxMessage → Option OutboxMessage
find_row id [] = none
find_row id (r ∷ rows) = if r.id == id then some r else find_row id rows
