-- ===== src/Temporal/Outbox/Steps.antt =====
-- The transactions on the outbox, and what each may do to a row.
use knowledage_base_assistan.Prelude.{
  nat_eq, string_eq, ℕ, ◌+◌, Uuid, String, Bool, true, false, ◌≡◌, refl, subst, inl, inr, ◌⊎◌, List,
  map, Option, none, some, contains, Bool-cases, arith, leb, ap,
}
use knowledage_base_assistan.Temporal.Outbox.Table.{
  OutboxMessage, PublishStatus, pending, publishing, published, dead, publish_state_shape,
}
use knowledage_base_assistan.Temporal.Outbox.Repository.{
  ClaimedOutboxMessage, claim_batch, claim_row, claimed, selected, is_claimable, mark_published,
  mark_retry, mark_dead, mark_failed, published_row, failed_row, settled, is_owned, retry_status,
}
use knowledage_base_assistan.Temporal.Outbox.Rows.{
  OnlyRow, keep_if-All, order_rows-All, limit_rows-All, contains-All,
}

pub data Transaction : Type 0 where
  claims : ℕ → ℕ → String → ℕ → String → Transaction
  publishes : ℕ → ClaimedOutboxMessage → String → Transaction
  retries : ℕ → ClaimedOutboxMessage → String → String → ℕ → Transaction
  kills : ℕ → ClaimedOutboxMessage → String → String → Transaction

unfoldable pub commit : List OutboxMessage → Transaction → List OutboxMessage
commit rows (claims now lease destination limit claim_id) =
    (claim_batch now lease destination limit claim_id rows).0
commit rows (publishes now m claim_id) = mark_published now m claim_id rows
commit rows (retries now m claim_id code max) = (mark_retry now m claim_id code max rows).0
commit rows (kills now m claim_id code) = mark_dead now m claim_id code rows

-- The table of the states: a claim, also of a row whose lease ran out, and what ends a claim.
abbrev pub may_move : PublishStatus → PublishStatus → Bool
may_move pending publishing = true
may_move publishing _ = true
may_move _ _ = false

abbrev attempts_added : PublishStatus → ℕ
attempts_added publishing = 1
attempts_added _ = 0

-- Two rows with the same message: all of it that its sender wrote but the time to send it.
pub record SameMessage (r s : OutboxMessage) : Type 0 where
  pub event_id : s.event_id ≡ r.event_id
  pub aggregate_type : s.aggregate_type ≡ r.aggregate_type
  pub aggregate_id : s.aggregate_id ≡ r.aggregate_id
  pub aggregate_version : s.aggregate_version ≡ r.aggregate_version
  pub destination : s.destination ≡ r.destination
  pub schema_version : s.schema_version ≡ r.schema_version
  pub payload_json : s.payload_json ≡ r.payload_json
  pub payload_digest : s.payload_digest ≡ r.payload_digest

-- One change of a row: it obeys the constraint of its table, only a claim counts as an attempt, and
-- the message itself stays.
pub record Step (r s : OutboxMessage) : Type 0 where
  pub moves : may_move r.publish_status s.publish_status ≡ true
  pub shape : publish_state_shape s ≡ true
  pub version : s.row_version ≡ r.row_version + 1
  pub attempts : s.attempt_count ≡ r.attempt_count + attempts_added s.publish_status
  pub key : s.id ≡ r.id
  pub message : SameMessage r s

abbrev pub May : OutboxMessage → OutboxMessage → Type 0
May r s = (s ≡ r) ⊎ Step r s

claimed-Step :
    (now lease : ℕ) (destination claim_id : String) (r : OutboxMessage)
    → is_claimable now lease destination r ≡ true
    → Step r (claimed now claim_id r)
unfolding is_claimable claimed publish_state_shape
claimed-Step now lease destination claim_id r h = record {
  moves = ground arith;
  shape = refl;
  version = refl;
  attempts = refl;
  key = refl;
  message = record {
    event_id = refl;
    aggregate_type = refl;
    aggregate_id = refl;
    aggregate_version = refl;
    destination = refl;
    schema_version = refl;
    payload_json = refl;
    payload_digest = refl;
  };
}

settled-Step :
    (m : ClaimedOutboxMessage) (claim_id : String) (status : PublishStatus) (at : Option ℕ)
    (code : Option String) (available : ℕ) (r : OutboxMessage)
    → is_owned m claim_id r ≡ true
    → attempts_added status ≡ 0
    → publish_state_shape (settled status at code available r) ≡ true
    → Step r (settled status at code available r)
unfolding is_owned settled publish_state_shape
settled-Step m claim_id status at code available r owned ended shape = record {
  moves = ground arith;
  shape = shape;
  version = refl;
  attempts = omega arith;
  key = refl;
  message = record {
    event_id = refl;
    aggregate_type = refl;
    aggregate_id = refl;
    aggregate_version = refl;
    destination = refl;
    schema_version = refl;
    payload_json = refl;
    payload_digest = refl;
  };
}

published_row-May :
    (now : ℕ) (m : ClaimedOutboxMessage) (claim_id : String) (r : OutboxMessage)
    → May r (published_row now m claim_id r)
unfolding published_row settled publish_state_shape
published_row-May now m claim_id r = elim (Bool-cases (is_owned m claim_id r)) [
  | inl owned ↦ inr (
      rw owned (
        settled-Step m claim_id published (some now) r.last_error_code r.available_at r owned refl
          refl))
  | inr other ↦ inl (rw other refl)
]

-- The two states in which a failure is written.
abbrev Failed : PublishStatus → Type 0
Failed status = (status ≡ pending) ⊎ (status ≡ dead)

failed_row-May :
    (now : ℕ) (m : ClaimedOutboxMessage) (claim_id code : String) (status : PublishStatus)
    (r : OutboxMessage)
    → Failed status
    → May r (failed_row now m claim_id code status r)
unfolding failed_row settled publish_state_shape
failed_row-May now m claim_id code status r h = elim (Bool-cases (is_owned m claim_id r)) [
  | inl owned ↦ inr (
      rw owned
        (settled-Step m claim_id status none (some code) _ r owned (ground arith) (ground arith)))
  | inr other ↦ inl (rw other refl)
]

retry_status-Failed : (m : ClaimedOutboxMessage) (max : ℕ) → Failed (retry_status m max)
unfolding retry_status
retry_status-Failed m max = elim (Bool-cases (leb max m.attempt_count)) [
  | inl last ↦ inr (rw last refl)
  | inr more ↦ inl (rw more refl)
]

-- A claim changes a row only if it may be claimed.
claim_row-May :
    (now lease limit : ℕ) (destination claim_id : String) (r : OutboxMessage)
    (rows : List OutboxMessage)
    → OnlyRow r rows
    → May r (claim_row now claim_id (map (λ x. x.id) (selected now lease destination limit rows)) r)
unfolding claim_row selected
claim_row-May now lease limit destination claim_id r rows only =
    let chosen =
      limit_rows-All _ limit _
        (order_rows-All _ _ (keep_if-All _ (is_claimable now lease destination) rows only)) in
    let ids = map (λ x. x.id) (selected now lease destination limit rows) in
    elim (Bool-cases (contains ids r.id)) [
      | inl here ↦
          let (x, same, y) = contains-All _ r.id _ chosen here in
          inr (
            rw here (
              claimed-Step now lease destination claim_id r
                (subst (λ z. is_claimable now lease destination z ≡ true) (y.0 same) y.1)))
      | inr other ↦ inl (rw other refl)
    ]

pub claim_row-key :
    (now : ℕ) (claim_id : String) (ids : List Uuid) (r : OutboxMessage)
    → (claim_row now claim_id ids r).id ≡ r.id
unfolding claim_row claimed
claim_row-key now claim_id ids r = elim (Bool-cases (contains ids r.id)) [
  | inl here ↦ rw here refl
  | inr other ↦ rw other refl
]

May-key : {r s : OutboxMessage} → May r s → s.id ≡ r.id
May-key (inl same) = ap (λ x. x.id) same
May-key (inr step) = step.key

-- A transaction updates the table row by row.
pub record Updates (rows after : List OutboxMessage) : Type 0 where
  pub update : OutboxMessage → OutboxMessage
  pub by_row : after ≡ map update rows
  pub keys : (x : OutboxMessage) → (update x).id ≡ x.id
  pub may : (r : OutboxMessage) → OnlyRow r rows → May r (update r)

Updates-of_May :
    (g : OutboxMessage → OutboxMessage) (rows : List OutboxMessage)
    → ((r : OutboxMessage) → May r (g r))
    → Updates rows (map g rows)
Updates-of_May g rows h = record {
  update = g;
  by_row = refl;
  keys = λ x. May-key (h x);
  may = λ r only. h r;
}

pub commit-Updates : (rows : List OutboxMessage) (t : Transaction) → Updates rows (commit rows t)
unfolding commit claim_batch mark_published mark_retry mark_dead mark_failed
commit-Updates rows (claims now lease destination limit claim_id) = record {
  update = claim_row now claim_id (map (λ x. x.id) (selected now lease destination limit rows));
  by_row = refl;
  keys = λ x. claim_row-key now claim_id _ x;
  may = λ r only. claim_row-May now lease limit destination claim_id r rows only;
}
commit-Updates rows (publishes now m claim_id) =
    Updates-of_May _ rows (published_row-May now m claim_id)
commit-Updates rows (retries now m claim_id code max) =
    Updates-of_May _ rows
      (λ r. failed_row-May now m claim_id code (retry_status m max) r (retry_status-Failed m max))
commit-Updates rows (kills now m claim_id code) =
    Updates-of_May _ rows (λ r. failed_row-May now m claim_id code dead r (inr refl))
