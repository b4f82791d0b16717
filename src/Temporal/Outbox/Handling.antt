-- ===== src/Temporal/Outbox/Handling.antt =====
-- What a consumer does with one claimed message, for the row of it and for the others.
use knowledage_base_assistan.Prelude.{
  nat_eq, string_eq, ℕ, ◌+◌, ◌≤◌, ◌<◌, Uuid, String, true, false, ◌≡◌, refl, inl, inr, List, none,
  some, Bool-cases, arith, leb, Result, ok, raise, Error,
}
use knowledage_base_assistan.Temporal.Outbox.Table.{
  OutboxMessage, find_row, PublishStatus, pending, publishing, published, dead, ◌same_status◌,
}
use knowledage_base_assistan.Temporal.Outbox.Repository.{
  ClaimedOutboxMessage, mark_published, mark_retry, mark_dead, mark_failed, published_row,
  failed_row, settled, is_owned, retry_status, retry_delay,
}
use knowledage_base_assistan.Temporal.Outbox.Publisher.{Consumer, dispatch, after_build, after_send}
use knowledage_base_assistan.Temporal.Outbox.Rows.{find-map}

retry_delay-le : (n : ℕ) → retry_delay n ≤ 60000000
unfolding retry_delay
retry_delay-le n = ground arith

published_row-key :
    (now : ℕ) (m : ClaimedOutboxMessage) (c : String) (r : OutboxMessage)
    → (published_row now m c r).id ≡ r.id
unfolding published_row settled
published_row-key now m c r = elim (Bool-cases (is_owned m c r)) [
  | inl a ↦ rw a refl
  | inr b ↦ rw b refl
]

failed_row-key :
    (now : ℕ) (m : ClaimedOutboxMessage) (c code : String) (status : PublishStatus)
    (r : OutboxMessage)
    → (failed_row now m c code status r).id ≡ r.id
unfolding failed_row settled
failed_row-key now m c code status r = elim (Bool-cases (is_owned m c r)) [
  | inl a ↦ rw a refl
  | inr b ↦ rw b refl
]

module _ {Args : Type 0} (consumer : Consumer Args) (claim_id : String) where
  -- How the handling of a message at a time ends for its row.
  pub data Ends (now : ℕ) (m : ClaimedOutboxMessage) (s : OutboxMessage) : Type 0 where
    delivered :
        (args : Args)
        → consumer.build m ≡ ok args
        → consumer.send args ≡ true
        → s.publish_status ≡ published
        → s.published_at ≡ some now
        → Ends now m s
    malformed :
        (e : Error)
        → consumer.build m ≡ raise e
        → s.publish_status ≡ dead
        → s.last_error_code ≡ some (consumer.build_error_code e)
        → Ends now m s
    put_back :
        (args : Args)
        → consumer.build m ≡ ok args
        → consumer.send args ≡ false
        → m.attempt_count < consumer.max_attempts
        → s.publish_status ≡ pending
        → s.available_at ≤ now + 60000000
        → Ends now m s
    given_up :
        (args : Args)
        → consumer.build m ≡ ok args
        → consumer.send args ≡ false
        → consumer.max_attempts ≤ m.attempt_count
        → s.publish_status ≡ dead
        → Ends now m s

  module _ (now : ℕ) (m : ClaimedOutboxMessage) (rows : List OutboxMessage) (id : Uuid)
      (s : OutboxMessage) (f : find_row id rows ≡ some s) where
    found-published :
        find_row id (mark_published now m claim_id rows) ≡ some (published_row now m claim_id s)
    unfolding mark_published
    found-published = find-map _ id s rows (published_row-key now m claim_id) f

    found-failed :
        (code : String) (status : PublishStatus)
        → find_row id (mark_failed now m claim_id code status rows)
          ≡ some (failed_row now m claim_id code status s)
    unfolding mark_failed
    found-failed code status = find-map _ id s rows (failed_row-key now m claim_id code status) f

    -- A row that this claim no longer owns, or that has another key, stays.
    module _ (other : is_owned m claim_id s ≡ false) where
      failed-other :
          (code : String) (status : PublishStatus) → failed_row now m claim_id code status s ≡ s
      unfolding failed_row
      failed-other code status = rw other refl

      published-other : published_row now m claim_id s ≡ s
      unfolding published_row
      published-other = rw other refl

      build-other :
          (b : Result Args) → find_row id (after_build consumer now claim_id m b rows).0 ≡ some s
      unfolding after_build after_send mark_retry mark_dead
      build-other (raise e) = rw (found-failed _ _, failed-other _ _) refl
      build-other (ok args) = elim (Bool-cases (consumer.send args)) [
        | inl sent ↦ rw (sent, found-published, published-other) refl
        | inr failed ↦ rw (failed, found-failed _ _, failed-other _ _) refl
      ]

      pub dispatch-other : find_row id (dispatch consumer now claim_id m rows).0 ≡ some s
      unfolding dispatch
      dispatch-other = build-other (consumer.build m)

    -- What the handling of a row's own message leaves.
    abbrev pub Left : List OutboxMessage → Type 0
    Left after =
        (z : OutboxMessage) × (find_row id after ≡ some z)
        × (z.id ≡ s.id)
        × (z.attempt_count ≡ s.attempt_count)
        × (z.publish_status same_status publishing ≡ false)
        × Ends now m z

    module _ (own : is_owned m claim_id s ≡ true) where
      published-own :
          find_row id (mark_published now m claim_id rows)
          ≡ some (settled published (some now) s.last_error_code s.available_at s)
      unfolding published_row
      published-own = rw found-published (rw own refl)

      failed-own :
          (code : String) (status : PublishStatus)
          → find_row id (mark_failed now m claim_id code status rows)
            ≡ some (settled status none (some code) (now + retry_delay m.attempt_count) s)
      unfolding failed_row
      failed-own code status = rw (found-failed code status) (rw own refl)

      later : now + retry_delay m.attempt_count ≤ now + 60000000
      later = omega (arith, retry_delay-le m.attempt_count)

      send-own :
          (args : Args)
          → consumer.build m ≡ ok args
          → Left (after_build consumer now claim_id m (ok args) rows).0
      unfolding after_build after_send mark_retry settled retry_status
      send-own args b = elim (Bool-cases (consumer.send args)) [
        | inl sent ↦ rw sent (_, published-own, refl, refl, refl, delivered args b sent refl refl)
        | inr failed ↦ elim (Bool-cases (leb consumer.max_attempts m.attempt_count)) [
          | inl last ↦
              rw (failed, last)
                (_, failed-own _ _, refl, refl, refl, given_up args b failed (ground arith) refl)
          | inr more ↦
              rw (failed, more)
                (
                  _,
                  failed-own _ _,
                  refl,
                  refl,
                  refl,
                  put_back args b failed (ground arith) refl later,
                )
        ]
      ]

      build-own :
          (b : Result Args)
          → consumer.build m ≡ b
          → Left (after_build consumer now claim_id m b rows).0
      unfolding after_build mark_dead settled
      build-own (raise e) b = (_, failed-own _ _, refl, refl, refl, malformed e b refl refl)
      build-own (ok args) b = send-own args b

      pub dispatch-own : Left (dispatch consumer now claim_id m rows).0
      unfolding dispatch
      dispatch-own = build-own (consumer.build m) refl
