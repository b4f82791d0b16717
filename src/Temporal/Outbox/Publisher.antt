-- ===== src/Temporal/Outbox/Publisher.antt =====
-- modules/temporal/application/outbox_publisher.py and outbox_signal_publisher.py: one round of each
-- consumer. The two classes share the round and differ in what they make of a message.
use knowledage_base_assistan.Prelude.{
  nat_eq, string_eq, ◌==◌, ◌>>=◌, ◌>>◌, ℕ, ◌+◌, String, concat, Uuid, Bool, true, false, not, ◌&&◌,
  ◌||◌, List, [], ◌∷◌, map, length, Option, none, some, if◌then◌else◌, Result, raise, ok, require,
  value_error, key_error, lookup_error, Error, given, all, contains,
}
use knowledage_base_assistan.Temporal.Outbox.Table.{
  OutboxMessage, PublishStatus, dead, JsonObject, Task, TaskEvent,
}
use knowledage_base_assistan.Temporal.Outbox.Repository.{
  ClaimedOutboxMessage, TaskStartContext, claim_batch, mark_published, mark_retry, mark_dead,
  load_start_context,
}

-- `canonical_json_sha256`, `UUID(text)` and `str(uuid)`
pub record Texts : Type 0 where
  pub canonical_json_sha256 : JsonObject → String
  pub parse_uuid : String → Option Uuid
  pub uuid_text : Uuid → String

-- What varies of `AgentTaskWorkflowStartV1`.
pub record StartArgs : Type 0 where
  pub task_id : Uuid
  pub event_id : Uuid
  pub sequence : ℕ
  pub wall_clock_deadline : ℕ

abbrev pub find_value : String → JsonObject → Option String
find_value key [] = none
find_value key ((k, v) ∷ rest) = if k == key then some v else find_value key rest

-- set(payload_json) == {"task_id", "event_id"}
unfoldable pub has_shape : JsonObject → Bool
has_shape payload =
    all (λ entry. entry.0 == "task_id" || entry.0 == "event_id") payload
    && contains (map (λ entry. entry.0) payload) "task_id"
    && contains (map (λ entry. entry.0) payload) "event_id"

module _ (texts : Texts) where
  unfoldable pub agent_task_workflow_id : Uuid → String
  agent_task_workflow_id task_id = concat "agent-task-v1-" (texts.uuid_text task_id)

  -- UUID(str(payload_json[key]))
  unfoldable pub payload_uuid : String → JsonObject → Result Uuid
  payload_uuid key payload = given key_error (find_value key payload) >>= (λ text.
      given (value_error "badly formed hexadecimal UUID string") (texts.parse_uuid text))

  -- The checks of the payload that both consumers make; the result is the task and the event.
  unfoldable pub read_payload : ClaimedOutboxMessage → Result (Uuid × Uuid)
  read_payload m =
      require (texts.canonical_json_sha256 m.payload_json == m.payload_digest)
        (value_error "outbox payload digest mismatch")
      >> (require (has_shape m.payload_json) (value_error "outbox payload shape mismatch")
          >> (payload_uuid "task_id" m.payload_json >>= (λ task_id.
              payload_uuid "event_id" m.payload_json >>= (λ event_id.
                require (task_id == m.aggregate_id && event_id == m.event_id)
                  (value_error "outbox payload identity mismatch")
                >> ok (task_id, event_id)))))

  -- `TaskEventRefV1` asks for a sequence from 1 on.
  unfoldable pub start_args : Uuid → Uuid → Option TaskStartContext → Result StartArgs
  start_args task_id event_id none = raise (lookup_error "task/event missing")
  start_args task_id event_id (some context) =
      require (not (context.event_sequence == 0)) (value_error "")
      >> ok (record {
        task_id = task_id;
        event_id = event_id;
        sequence = context.event_sequence;
        wall_clock_deadline = context.deadline_at;
      })

  -- `_build_start_args`
  unfoldable pub build_start_args :
      List Task → List TaskEvent → ClaimedOutboxMessage → Result StartArgs
  build_start_args tasks events m =
      require (m.schema_version == "agent_task_workflow_start_v1")
        (value_error "unsupported schema_version")
      >> (require (m.aggregate_type == "TASK" && m.aggregate_version == 1)
            (value_error "outbox aggregate shape mismatch")
          >> (read_payload m
              >>= (λ ids. start_args ids.0 ids.1 (load_start_context tasks events ids.0 ids.1))))

  -- `_build_workflow_id`
  unfoldable pub build_workflow_id : ClaimedOutboxMessage → Result String
  build_workflow_id m =
      require (m.schema_version == "agent_task_workflow_signal_v1")
        (value_error "unsupported schema_version")
      >> (require (m.aggregate_type == "TASK") (value_error "outbox aggregate shape mismatch")
          >> (read_payload m >>= (λ ids. ok (agent_task_workflow_id ids.0))))

pub data Disposition : Type 0 where
  was_published : Disposition
  was_retried : Disposition
  was_dead : Disposition

-- The three counters of a round, and what the round reports.
pub record Counts : Type 0 where
  pub published : ℕ
  pub retried : ℕ
  pub dead : ℕ

pub record OutboxPollOutcome : Type 0 where
  pub claimed : ℕ
  pub counts : Counts

abbrev pub no_counts : Counts
no_counts = record { published = 0; retried = 0; dead = 0 }

abbrev pub count : Disposition → Counts → Counts
count was_published c = record { published = c.published + 1; retried = c.retried; dead = c.dead }
count was_retried c = record { published = c.published; retried = c.retried + 1; dead = c.dead }
count was_dead c = record { published = c.published; retried = c.retried; dead = c.dead + 1 }

-- A consumer: what it makes of a message, and whether the engine accepts it; the codes it writes.
pub record Consumer (Args : Type 0) : Type 0 where
  pub destination : String
  pub build : ClaimedOutboxMessage → Result Args
  pub send : Args → Bool
  pub build_error_code : Error → String
  pub send_error_code : String
  pub batch_size : ℕ
  pub lease : ℕ
  pub max_attempts : ℕ

abbrev pub start_error_code : Error → String
start_error_code (lookup_error m) = "OUTBOX_START_CONTEXT_MISSING"
start_error_code _ = "OUTBOX_PAYLOAD_INVALID"

-- `OutboxPublisher`; `start_task_workflow` is the engine's.
unfoldable pub start_consumer :
    Texts
    → List Task
    → List TaskEvent
    → (String → StartArgs → Bool)
    → ℕ
    → ℕ
    → ℕ
    → Consumer StartArgs
start_consumer texts tasks events start_task_workflow batch_size lease max_attempts = record {
  destination = "TEMPORAL_START";
  build = build_start_args texts tasks events;
  send = λ args. start_task_workflow (agent_task_workflow_id texts args.task_id) args;
  build_error_code = start_error_code;
  send_error_code = "TEMPORAL_START_FAILED";
  batch_size = batch_size;
  lease = lease;
  max_attempts = max_attempts;
}

-- `OutboxSignalPublisher`
unfoldable pub signal_consumer : Texts → (String → String → Bool) → ℕ → ℕ → ℕ → Consumer String
signal_consumer texts signal_task_workflow batch_size lease max_attempts = record {
  destination = "TEMPORAL_SIGNAL";
  build = build_workflow_id texts;
  send = λ workflow_id. signal_task_workflow workflow_id "business_event_available_v1";
  build_error_code = λ e. "OUTBOX_SIGNAL_PAYLOAD_INVALID";
  send_error_code = "TEMPORAL_SIGNAL_FAILED";
  batch_size = batch_size;
  lease = lease;
  max_attempts = max_attempts;
}

module _ {Args : Type 0} (consumer : Consumer Args) where
  -- The constructors' checks.
  unfoldable pub check_consumer : Result (Unit {0})
  check_consumer =
      require (not (consumer.batch_size == 0)) (value_error "BATCH_SIZE_INVALID")
      >> (require (not (consumer.lease == 0)) (value_error "LEASE_SECONDS_INVALID")
          >> require (not (consumer.max_attempts == 0)) (value_error "MAX_ATTEMPTS_INVALID"))

  abbrev pub failed_as : PublishStatus → Disposition
  failed_as dead = was_dead
  failed_as _ = was_retried

  -- The second half of `_dispatch`, for the outcome of the sending.
  unfoldable pub after_send :
      ℕ
      → String
      → ClaimedOutboxMessage
      → Bool
      → List OutboxMessage
      → List OutboxMessage × Disposition
  after_send now claim_id m true rows = (mark_published now m claim_id rows, was_published)
  after_send now claim_id m false rows =
      let marked = mark_retry now m claim_id consumer.send_error_code consumer.max_attempts rows in
      (marked.0, failed_as marked.1)

  -- The errors of both consumers' builders are those that the source catches.
  unfoldable pub after_build :
      ℕ
      → String
      → ClaimedOutboxMessage
      → Result Args
      → List OutboxMessage
      → List OutboxMessage × Disposition
  after_build now claim_id m (raise e) rows =
      (mark_dead now m claim_id (consumer.build_error_code e) rows, was_dead)
  after_build now claim_id m (ok args) rows = after_send now claim_id m (consumer.send args) rows

  -- `_dispatch`
  unfoldable pub dispatch :
      ℕ → String → ClaimedOutboxMessage → List OutboxMessage → List OutboxMessage × Disposition
  dispatch now claim_id m rows = after_build now claim_id m (consumer.build m) rows

  -- The loop of `poll_once`; `clock` is the time at which the outcome of a message is written.
  unfoldable pub dispatch_all :
      (Uuid → ℕ)
      → String
      → List ClaimedOutboxMessage
      → List OutboxMessage
      → List OutboxMessage × Counts
  dispatch_all clock claim_id [] rows = (rows, no_counts)
  dispatch_all clock claim_id (m ∷ messages) rows =
      let one = dispatch (clock m.id) claim_id m rows in
      let rest = dispatch_all clock claim_id messages one.0 in (rest.0, count one.1 rest.1)

  -- `poll_once`
  unfoldable pub poll_once :
      ℕ → (Uuid → ℕ) → String → List OutboxMessage → List OutboxMessage × OutboxPollOutcome
  poll_once now clock claim_id rows =
      let batch =
        claim_batch now consumer.lease consumer.destination consumer.batch_size claim_id rows in
      let done = dispatch_all clock claim_id batch.1 batch.0 in
      (done.0, record { claimed = length batch.1; counts = done.1 })
