-- ===== src/Temporal/Outbox/Examples.antt =====
-- The outbox at concrete inputs: two starts and a signal are due; the engine accepts the first start.
use knowledage_base_assistan.Prelude.{
  nat_eq, string_eq, ◌==◌, Uuid, true, ◌≡◌, refl, List, [], ◌∷◌, none, some, arith, if◌then◌else◌,
}
use knowledage_base_assistan.Temporal.Outbox.Table.{
  OutboxMessage, find_row, PublishStatus, pending, dead,
}
use knowledage_base_assistan.Temporal.Outbox.Repository.{claimed, message_of, is_claimable}
use knowledage_base_assistan.Temporal.Outbox.Publisher.{
  Texts, StartArgs, Consumer, start_consumer, poll_once,
}
use knowledage_base_assistan.Temporal.Outbox.Keys.{PrimaryKey}
use knowledage_base_assistan.Temporal.Outbox.Steps.{Transaction, claims, publishes, kills}
use knowledage_base_assistan.Temporal.Outbox.Life.{
  commit_each, Life, commit_each-Life, commit_each-frozen,
}
use knowledage_base_assistan.Temporal.Outbox.Handling.{Ends}
use knowledage_base_assistan.Temporal.Outbox.Delivery.{poll_once-Ends}

abbrev texts : Texts
texts = record {
  canonical_json_sha256 = λ payload. "digest";
  parse_uuid = λ text. if text == "task-7" then some 7 else some 70;
  uuid_text = λ id. "task-7";
}

abbrev row : Uuid → PublishStatus → OutboxMessage
row id status = record {
  id = id;
  event_id = 70;
  aggregate_type = "TASK";
  aggregate_id = 7;
  aggregate_version = 1;
  destination = "TEMPORAL_START";
  schema_version = "agent_task_workflow_start_v1";
  payload_json = ("task_id", "task-7") ∷ ("event_id", "event-70") ∷ [];
  payload_digest = "digest";
  publish_status = status;
  available_at = 100;
  attempt_count = 0;
  claimed_by = none;
  claimed_at = none;
  published_at = none;
  last_error_code = none;
  row_version = 1;
}

abbrev rows : List OutboxMessage
rows = row 2 dead ∷ row 1 pending ∷ row 3 pending ∷ []

abbrev consumer : Consumer StartArgs
consumer =
    start_consumer texts (record { id = 7; deadline_at = 5000 } ∷ [])
      (record {
        id = 70;
        task_id = 7;
        event_type = "TASK_CREATED";
        workflow_relevant = true;
        sequence = 1;
      }
        ∷ [])
      (λ workflow_id args. true) 32 60000000 8

rows-PrimaryKey : PrimaryKey rows
rows-PrimaryKey = ((refl, (refl, tt)), ((refl, tt), (tt, tt)))

poll_once-Ends_example :
    (s : OutboxMessage) × (find_row 1 (poll_once consumer 200 (λ id. 300) "temporal-start-a" rows).0
      ≡ some s)
    × (s.attempt_count ≡ 1)
    × Ends consumer "temporal-start-a" 300
        (message_of (claimed 200 "temporal-start-a" (row 1 pending)))
        s
unfolding is_claimable start_consumer
poll_once-Ends_example =
    poll_once-Ends consumer "temporal-start-a" 200 (λ id. 300) rows (row 1 pending) rows-PrimaryKey
      refl refl (omega arith)

abbrev transactions : List Transaction
transactions =
    claims 200 60000000 "TEMPORAL_START" 32 "temporal-start-a"
    ∷ publishes 300 (message_of (claimed 200 "temporal-start-a" (row 1 pending))) "temporal-start-a"
    ∷ kills 400 (message_of (claimed 200 "temporal-start-a" (row 2 pending))) "temporal-start-a"
        "OUTBOX_PAYLOAD_INVALID"
    ∷ []

commit_each-Life_example :
    (s : OutboxMessage) × (find_row 1 (commit_each rows transactions) ≡ some s)
    × Life (row 1 pending) s
commit_each-Life_example = commit_each-Life transactions rows 1 (row 1 pending) rows-PrimaryKey refl

commit_each-frozen_example : find_row 2 (commit_each rows transactions) ≡ some (row 2 dead)
commit_each-frozen_example =
    commit_each-frozen transactions rows 2 (row 2 dead) rows-PrimaryKey refl refl
