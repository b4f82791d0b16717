-- ===== src/Temporal/Outbox/Delivery.antt =====
-- One round of a consumer, for a row that it finds.
use knowledage_base_assistan.Prelude.{
  nat_eq, string_eq, ◌==◌, ==-refl, ℕ, ◌+◌, ◌≤◌, Uuid, String, true, false, ◌≡◌, refl, sym, subst,
  inl, inr, List, [], ◌∷◌, map, All-imp, some, All, keep_if, contains, Bool-cases, arith, length,
  ◌∙◌, ap,
}
use knowledage_base_assistan.Temporal.Outbox.Table.{
  OutboxMessage, find_row, publishing, ◌same_status◌,
}
use knowledage_base_assistan.Temporal.Outbox.Repository.{
  ClaimedOutboxMessage, claim_batch, claim_row, claimed, selected, is_claimable, is_owned,
  message_of,
}
use knowledage_base_assistan.Temporal.Outbox.Publisher.{Consumer, dispatch, dispatch_all, poll_once}
use knowledage_base_assistan.Temporal.Outbox.Rows.{
  find-map, OnlyRow, keep_if-All, order_rows-All, limit_rows-All, selected-key,
}
use knowledage_base_assistan.Temporal.Outbox.Keys.{PrimaryKey, OnlyRow-of_find}
use knowledage_base_assistan.Temporal.Outbox.Steps.{claim_row-key}
use knowledage_base_assistan.Temporal.Outbox.Handling.{Ends, dispatch-other, dispatch-own}

module _ {Args : Type 0} (consumer : Consumer Args) (claim_id : String) where
  not_owned-of_status :
      (m : ClaimedOutboxMessage) (s : OutboxMessage)
      → (s.publish_status same_status publishing) ≡ false
      → is_owned m claim_id s ≡ false
  unfolding is_owned
  not_owned-of_status m s h = ground arith

  not_owned-of_key :
      (m : ClaimedOutboxMessage) (s : OutboxMessage)
      → (m.id == s.id) ≡ false
      → is_owned m claim_id s ≡ false
  unfolding is_owned
  not_owned-of_key m s h = ground arith

  module _ (clock : Uuid → ℕ) (id : Uuid) where
    dispatch_all-keeps :
        (messages : List ClaimedOutboxMessage) (rows : List OutboxMessage) (s : OutboxMessage)
        → find_row id rows ≡ some s
        → (s.publish_status same_status publishing) ≡ false
        → find_row id (dispatch_all consumer clock claim_id messages rows).0 ≡ some s
    unfolding dispatch_all
    dispatch_all-keeps [] rows s f h = f
    dispatch_all-keeps (m ∷ messages) rows s f h =
        dispatch_all-keeps messages _ s
          (dispatch-other consumer claim_id (clock m.id) m rows id s f (not_owned-of_status m s h))
          h

    abbrev Finished : ClaimedOutboxMessage → OutboxMessage → List OutboxMessage → Type 0
    Finished m s after =
        (z : OutboxMessage) × (find_row id after ≡ some z)
        × (z.attempt_count ≡ s.attempt_count)
        × Ends consumer claim_id (clock id) m z

    dispatch_all-Finished :
        (m0 : ClaimedOutboxMessage) (s : OutboxMessage)
        → s.id ≡ id
        → m0.id ≡ id
        → is_owned m0 claim_id s ≡ true
        → (messages : List ClaimedOutboxMessage) (rows : List OutboxMessage)
        → find_row id rows ≡ some s
        → All (λ m. (m.id == id) ≡ true → m ≡ m0) messages
        → contains (map (λ m. m.id) messages) id ≡ true
        → Finished m0 s (dispatch_all consumer clock claim_id messages rows).0
    unfolding dispatch_all
    dispatch_all-Finished m0 s k k0 own [] rows f all h = cc
    dispatch_all-Finished m0 s k k0 own (m ∷ messages) rows f all h =
        elim (Bool-cases (m.id == id)) [
          | inl here ↦
              let (z, g, key, attempts, status, ends) =
                dispatch-own consumer claim_id (clock m0.id) m0 rows id s f own in
              let kept = dispatch_all-keeps messages _ z g status in
              subst
                (λ n.
                  Finished m0 s
                    (dispatch_all consumer clock claim_id messages
                      (dispatch consumer (clock n.id) claim_id n rows).0).0)
                (sym (all.0 here))
                (z, kept, attempts, subst (λ i. Ends consumer claim_id (clock i) m0 z) k0 ends)
          | inr there ↦
              dispatch_all-Finished m0 s k k0 own messages _
                (dispatch-other consumer claim_id (clock m.id) m rows id s f
                  (not_owned-of_key m s (rw k there)))
                all.1 (rw there at h)
        ]

  keys-messages :
      (now : ℕ) (chosen : List OutboxMessage)
      → map (λ m. m.id) (map (λ r. message_of (claimed now claim_id r)) chosen)
        ≡ map (λ r. r.id) chosen
  unfolding message_of claimed
  keys-messages now [] = refl
  keys-messages now (r ∷ chosen) = rw (keys-messages now chosen) refl

  messages-All :
      (now : ℕ) (r : OutboxMessage) (chosen : List OutboxMessage)
      → OnlyRow r chosen
      → All
          (λ m. (m.id == r.id) ≡ true → m ≡ message_of (claimed now claim_id r))
          (map (λ x. message_of (claimed now claim_id x)) chosen)
  unfolding message_of claimed
  messages-All now r [] h = tt
  messages-All now r (x ∷ chosen) h = (
    (λ same. ap (λ y. message_of (claimed now claim_id y)) (h.0 same)),
    messages-All now r chosen h.1,
  )

  claim-own :
      (now : ℕ) (r : OutboxMessage)
      → is_owned (message_of (claimed now claim_id r)) claim_id (claimed now claim_id r) ≡ true
  unfolding is_owned message_of claimed
  claim-own now r = rw (==-refl r.id, ==-refl claim_id) refl

  selected-OnlyRow :
      (now lease limit : ℕ) (destination : String) (r : OutboxMessage) (rows : List OutboxMessage)
      → OnlyRow r rows
      → OnlyRow r (selected now lease destination limit rows)
  unfolding selected
  selected-OnlyRow now lease limit destination r rows only = limit_rows-All _ limit _ (
      order_rows-All _ _
        (All-imp (λ x h. h.0) _ (keep_if-All _ (is_claimable now lease destination) rows only)))

  claim-finds :
      (now : ℕ) (ids : List Uuid) (r : OutboxMessage) (rows : List OutboxMessage)
      → find_row r.id rows ≡ some r
      → contains ids r.id ≡ true
      → find_row r.id (map (claim_row now claim_id ids) rows) ≡ some (claimed now claim_id r)
  unfolding claim_row
  claim-finds now ids r rows f h =
      find-map (claim_row now claim_id ids) r.id r rows (claim_row-key now claim_id ids) f
      ∙ rw h refl

  -- A row that may be claimed is handled in one round, if the batch is large enough for all such
  -- rows: the engine is told and the row is published; or the message is malformed, or its last
  -- attempt failed, and it is given up; or it waits for the next attempt, at most 60 seconds. It
  -- never stays claimed, and exactly one attempt is counted.
  pub poll_once-Ends :
      (now : ℕ) (clock : Uuid → ℕ) (rows : List OutboxMessage) (r : OutboxMessage)
      → PrimaryKey rows
      → find_row r.id rows ≡ some r
      → is_claimable now consumer.lease consumer.destination r ≡ true
      → length (keep_if (is_claimable now consumer.lease consumer.destination) rows)
        ≤ consumer.batch_size
      → (s : OutboxMessage) × (find_row r.id (poll_once consumer now clock claim_id rows).0
          ≡ some s)
        × (s.attempt_count ≡ r.attempt_count + 1)
        × Ends consumer claim_id (clock r.id) (message_of (claimed now claim_id r)) s
  unfolding poll_once claim_batch claimed message_of selected
  poll_once-Ends now clock rows r p f claimable enough =
      let claimable_now = is_claimable now consumer.lease consumer.destination in
      let chosen = selected now consumer.lease consumer.destination consumer.batch_size rows in
      let only =
        selected-OnlyRow now consumer.lease consumer.batch_size consumer.destination r rows
          (OnlyRow-of_find r.id r rows p f) in
      let key = selected-key claimable_now consumer.batch_size r rows f claimable enough in
      let (s, g, attempts, ends) =
        dispatch_all-Finished clock r.id (message_of (claimed now claim_id r))
          (claimed now claim_id r) refl refl (claim-own now r)
          (map (λ x. message_of (claimed now claim_id x)) chosen) _
          (claim-finds now (map (λ x. x.id) chosen) r rows f key) (messages-All now r chosen only)
          (rw (keys-messages now chosen) key) in
      (s, g, attempts, ends)
