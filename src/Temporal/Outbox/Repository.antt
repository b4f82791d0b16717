-- ===== src/Temporal/Outbox/Repository.antt =====
-- `SqlAlchemyOutboxRepository` of infrastructure/persistence/outbox.py. Each method is one
-- transaction, a function from the rows to the rows.
use knowledage_base_assistan.Prelude.{
  nat_eq, string_eq, ◌==◌, ℕ, zero, suc, ◌+◌, ◌-◌, ◌*◌, ◌^◌, min, String, Uuid, Bool, false, ◌&&◌,
  ◌||◌, List, [], ◌∷◌, map, Option, none, some, if◌then◌else◌, ltb, leb, keep_if, contains, opt_beq,
}
use knowledage_base_assistan.Temporal.Outbox.Table.{
  OutboxMessage, PublishStatus, pending, publishing, published, dead, ◌same_status◌, JsonObject,
  Task, TaskEvent,
}

pub record ClaimedOutboxMessage : Type 0 where
  pub id : Uuid
  pub event_id : Uuid
  pub aggregate_type : String
  pub aggregate_id : Uuid
  pub aggregate_version : ℕ
  pub schema_version : String
  pub payload_json : JsonObject
  pub payload_digest : String
  pub attempt_count : ℕ

pub record TaskStartContext : Type 0 where
  pub deadline_at : ℕ
  pub event_sequence : ℕ

-- claimed_at < now - lease, which is never so for a null
abbrev pub is_stale : ℕ → ℕ → Option ℕ → Bool
is_stale now lease none = false
is_stale now lease (some claimed_at) = ltb (claimed_at + lease) now

-- The `where` of `claim_batch`.
unfoldable pub is_claimable : ℕ → ℕ → String → OutboxMessage → Bool
is_claimable now lease destination r =
    r.destination == destination
    && (r.publish_status same_status pending && leb r.available_at now
        || r.publish_status same_status publishing && is_stale now lease r.claimed_at)

-- order by available_at, id
unfoldable pub comes_before : OutboxMessage → OutboxMessage → Bool
comes_before a b =
    ltb a.available_at b.available_at || a.available_at == b.available_at && leb a.id b.id

unfoldable pub place_row : OutboxMessage → List OutboxMessage → List OutboxMessage
place_row a [] = a ∷ []
place_row a (b ∷ rows) =
    let rest = place_row a rows in if comes_before a b then a ∷ b ∷ rows else b ∷ rest

unfoldable pub order_rows : List OutboxMessage → List OutboxMessage
order_rows [] = []
order_rows (a ∷ rows) = place_row a (order_rows rows)

unfoldable pub limit_rows : ℕ → List OutboxMessage → List OutboxMessage
limit_rows zero rows = []
limit_rows (suc n) [] = []
limit_rows (suc n) (r ∷ rows) = r ∷ limit_rows n rows

-- What the loop of `claim_batch` writes to a row.
unfoldable pub claimed : ℕ → String → OutboxMessage → OutboxMessage
claimed now claim_id r = record {
  id = r.id;
  event_id = r.event_id;
  aggregate_type = r.aggregate_type;
  aggregate_id = r.aggregate_id;
  aggregate_version = r.aggregate_version;
  destination = r.destination;
  schema_version = r.schema_version;
  payload_json = r.payload_json;
  payload_digest = r.payload_digest;
  publish_status = publishing;
  available_at = r.available_at;
  attempt_count = r.attempt_count + 1;
  claimed_by = some claim_id;
  claimed_at = some now;
  published_at = none;
  last_error_code = none;
  row_version = r.row_version + 1;
}

unfoldable pub message_of : OutboxMessage → ClaimedOutboxMessage
message_of r = record {
  id = r.id;
  event_id = r.event_id;
  aggregate_type = r.aggregate_type;
  aggregate_id = r.aggregate_id;
  aggregate_version = r.aggregate_version;
  schema_version = r.schema_version;
  payload_json = r.payload_json;
  payload_digest = r.payload_digest;
  attempt_count = r.attempt_count;
}

-- The rows that `claim_batch` selects, and their update in the table.
unfoldable pub selected : ℕ → ℕ → String → ℕ → List OutboxMessage → List OutboxMessage
selected now lease destination limit rows =
    limit_rows limit (order_rows (keep_if (is_claimable now lease destination) rows))

unfoldable pub claim_row : ℕ → String → List Uuid → OutboxMessage → OutboxMessage
claim_row now claim_id ids r = if contains ids r.id then claimed now claim_id r else r

unfoldable pub claim_batch :
    ℕ
    → ℕ
    → String
    → ℕ
    → String
    → List OutboxMessage
    → List OutboxMessage × List ClaimedOutboxMessage
claim_batch now lease destination limit claim_id rows =
    let chosen = selected now lease destination limit rows in
    (
      map (claim_row now claim_id (map (λ r. r.id) chosen)) rows,
      map (λ r. message_of (claimed now claim_id r)) chosen,
    )

-- The `where` of the updates: only the owner of the claim writes.
unfoldable pub is_owned : ClaimedOutboxMessage → String → OutboxMessage → Bool
is_owned message claim_id r =
    r.id == message.id
    && (r.publish_status same_status publishing && opt_beq r.claimed_by (some claim_id))

-- The columns that the updates set.
unfoldable pub settled :
    PublishStatus → Option ℕ → Option String → ℕ → OutboxMessage → OutboxMessage
settled status published_at last_error_code available_at r = record {
  id = r.id;
  event_id = r.event_id;
  aggregate_type = r.aggregate_type;
  aggregate_id = r.aggregate_id;
  aggregate_version = r.aggregate_version;
  destination = r.destination;
  schema_version = r.schema_version;
  payload_json = r.payload_json;
  payload_digest = r.payload_digest;
  publish_status = status;
  available_at = available_at;
  attempt_count = r.attempt_count;
  claimed_by = none;
  claimed_at = none;
  published_at = published_at;
  last_error_code = last_error_code;
  row_version = r.row_version + 1;
}

unfoldable pub published_row : ℕ → ClaimedOutboxMessage → String → OutboxMessage → OutboxMessage
published_row now message claim_id r =
    if is_owned message claim_id r
    then settled published (some now) r.last_error_code r.available_at r
    else r

unfoldable pub mark_published :
    ℕ → ClaimedOutboxMessage → String → List OutboxMessage → List OutboxMessage
mark_published now message claim_id rows = map (published_row now message claim_id) rows

-- timedelta(seconds=min(2 ** max(attempt_count - 1, 0), 60))
unfoldable pub retry_delay : ℕ → ℕ
retry_delay attempt_count = 1000000 * min (2 ^ (attempt_count - 1)) 60

unfoldable pub failed_row :
    ℕ → ClaimedOutboxMessage → String → String → PublishStatus → OutboxMessage → OutboxMessage
failed_row now message claim_id error_code status r =
    if is_owned message claim_id r
    then settled status none (some error_code) (now + retry_delay message.attempt_count) r
    else r

-- `_mark_failed`; every error code that is written has fewer than 64 characters, so its cut is left
-- out.
unfoldable pub mark_failed :
    ℕ
    → ClaimedOutboxMessage
    → String
    → String
    → PublishStatus
    → List OutboxMessage
    → List OutboxMessage
mark_failed now message claim_id error_code status rows =
    map (failed_row now message claim_id error_code status) rows

unfoldable pub retry_status : ClaimedOutboxMessage → ℕ → PublishStatus
retry_status message max_attempts = if leb max_attempts message.attempt_count then dead else pending

unfoldable pub mark_retry :
    ℕ
    → ClaimedOutboxMessage
    → String
    → String
    → ℕ
    → List OutboxMessage
    → List OutboxMessage × PublishStatus
mark_retry now message claim_id error_code max_attempts rows =
    let status = retry_status message max_attempts in
    (mark_failed now message claim_id error_code status rows, status)

unfoldable pub mark_dead :
    ℕ → ClaimedOutboxMessage → String → String → List OutboxMessage → List OutboxMessage
mark_dead now message claim_id error_code rows =
    mark_failed now message claim_id error_code dead rows

abbrev pub find_task : Uuid → List Task → Option Task
find_task id [] = none
find_task id (t ∷ tasks) = if t.id == id then some t else find_task id tasks

abbrev pub find_created : Uuid → Uuid → List TaskEvent → Option TaskEvent
find_created task_id event_id [] = none
find_created task_id event_id (e ∷ events) =
    if e.id == event_id
      && (e.task_id == task_id && (e.event_type == "TASK_CREATED" && e.workflow_relevant))
    then some e
    else find_created task_id event_id events

unfoldable pub load_start_context :
    List Task → List TaskEvent → Uuid → Uuid → Option TaskStartContext
load_start_context tasks events task_id event_id = elim (find_task task_id tasks) [
  | none ↦ none
  | some task ↦ elim (find_created task_id event_id events) [
    | none ↦ none
    | some event ↦ some (record { deadline_at = task.deadline_at; event_sequence = event.sequence })
  ]
]
