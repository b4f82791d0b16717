-- ===== src/ModelGateway/Budget/Examples.antt =====
-- Tests of the budget ledger, and its theorems at concrete inputs.
use knowledage_base_assistan.Prelude.{
  nat_eq, string_eq, ℕ, ◌≡◌, refl, true, false, List, [], ◌∷◌, ◌++◌, none, some, ok, raise,
  value_error, arith,
}
use knowledage_base_assistan.ModelGateway.Budget.Quantity.{
  Dimension, input_tokens, BudgetQuantity, BudgetQuantityDelta, as_delta,
}
use knowledage_base_assistan.ModelGateway.Budget.Ledger.{
  BudgetLedgerEntry, reserve, settle_deltas, overrun_code,
}
use knowledage_base_assistan.ModelGateway.Budget.Conservation.{
  Balances, settle_deltas-Balances, settle_deltas-overrun, NamesOverrun,
}
use knowledage_base_assistan.ModelGateway.Budget.Reservation.{
  BudgetReservation, reserved, consuming, settled, released, can_transition, is_terminal,
}
use knowledage_base_assistan.ModelGateway.Budget.Tables.{
  Db, find_reservation, reservation_allowed, reservation_fits,
}
use knowledage_base_assistan.ModelGateway.Budget.Repository.{
  inserted, already_present, insert_reserved, transition_status, BudgetReservationTransitionResult,
  BudgetReservationTransitionConflict, not_in_state,
}
use knowledage_base_assistan.ModelGateway.Budget.Repository.Cas.{
  Committed, Conflict, transition_status-commits, transition_status-refuses,
}
use knowledage_base_assistan.ModelGateway.Budget.Repository.Replay.{insert_reserved-replayed}
use knowledage_base_assistan.ModelGateway.Budget.Repository.History.{
  Call, insert, transition, commit, commit_all, Life, commit_all-Life, commit_all-terminal,
  commit_all-appends,
}

abbrev quantity : ℕ → ℕ → ℕ → BudgetQuantity
quantity calls input output = record {
  model_call_count = calls;
  input_tokens = input;
  output_tokens = output;
  tool_count = 0;
  cost_amount = 0;
}

abbrev whole : BudgetQuantity
whole = quantity 1 1000 500

abbrev used : BudgetQuantity
used = quantity 1 800 120

settle_deltas-Balances_example :
    (booked : BudgetQuantityDelta × BudgetQuantityDelta) × (settle_deltas whole used ≡ ok booked)
    × ((d : Dimension) → Balances whole used d booked)
settle_deltas-Balances_example = settle_deltas-Balances whole used (omega arith)

settle_deltas-overrun_example :
    (e : Dimension) × (es : List Dimension) × NamesOverrun used whole (e ∷ es)
    × (settle_deltas used whole ≡ raise (value_error (overrun_code (e ∷ es))))
settle_deltas-overrun_example = settle_deltas-overrun used whole input_tokens (omega arith)

overrun_text :
    settle_deltas used whole
    ≡ raise (value_error "BUDGET_SETTLEMENT_OVERRUN:input_tokens,output_tokens")
unfolding settle_deltas
overrun_text = refl

abbrev draft : BudgetReservation
draft = record {
  reservation_id = 7;
  task_id = 1;
  branch_id = none;
  delegation_id = none;
  task_attempt_id = none;
  model_call_id = some 70;
  action_attempt_id = none;
  invocation_id = none;
  account_id = 3;
  reservation_version = 1;
  reserved_quantity = whole;
  settled_quantity = quantity 0 0 0;
  reservation_digest = "d";
  status = reserved;
  expires_at = none;
  created_at = 100;
  settled_at = none;
  row_version = 1;
}

abbrev booking : BudgetLedgerEntry
booking = record {
  entry_id = 40;
  task_id = 1;
  account_id = 3;
  reservation_id = some 7;
  entry_kind = reserve;
  delta = unfold as_delta in as_delta whole;
  currency = "CNY";
  rate_card_version = none;
  exchange_rate_snapshot_version = none;
  caused_by_event_id = none;
  created_at = 100;
}

abbrev empty : Db
empty = record {
  reservations = [];
  entries = [];
  references = record { tasks = 1 ∷ []; task_attempts = []; model_calls = 70 ∷ [] };
}

abbrev stored : Db
stored = record empty { reservations = draft ∷ []; entries = booking ∷ [] }

inserted_tables : commit empty (insert draft booking) ≡ stored
unfolding commit insert_reserved reservation_allowed reservation_fits
inserted_tables = refl

-- The life of a call: consumed, settled, and then a late release that is refused.
abbrev life_calls : List Call
life_calls =
    transition 110 7 reserved consuming 1 none
    ∷ transition 120 7 consuming settled 2 (some used)
    ∷ transition 130 7 reserved released 1 none
    ∷ []

commit_all-Life_example :
    (r' : BudgetReservation) × (find_reservation 7 (commit_all stored life_calls).reservations
      ≡ some r')
    × Life draft r'
commit_all-Life_example = commit_all-Life life_calls stored 7 draft refl

abbrev closed : BudgetReservation
closed = record draft { status = released; row_version = 2 }

commit_all-terminal_example :
    find_reservation 7
      (commit_all (record stored { reservations = closed ∷ [] }) life_calls).reservations
    ≡ some closed
commit_all-terminal_example =
    commit_all-terminal life_calls (record stored { reservations = closed ∷ [] }) 7 closed refl
      (unfold is_terminal in refl)

commit_all-appends_example :
    (added : List BudgetLedgerEntry) × ((commit_all empty
        (insert draft booking ∷ life_calls)).entries
      ≡ empty.entries ++ added)
commit_all-appends_example = commit_all-appends (insert draft booking ∷ life_calls) empty

abbrev consumed_row : BudgetReservation
consumed_row = record draft { status = consuming; row_version = 2 }

abbrev consumed : Db
consumed = record stored { reservations = consumed_row ∷ [] }

abbrev success : BudgetReservationTransitionResult
success = record { committed = true; reservation = some consumed_row; conflict_reason = none }

consume_works : transition_status stored 110 7 reserved consuming 1 none ≡ ok (consumed, success)
unfolding transition_status reservation_allowed
consume_works = refl

transition_status-commits_example :
    (old : BudgetReservation) × (new : BudgetReservation) × Committed stored consumed 7 reserved
      consuming 1 old new
    × (can_transition reserved consuming ≡ true)
    × (some consumed_row ≡ some new)
transition_status-commits_example =
    transition_status-commits stored consumed 110 7 reserved consuming 1 none success consume_works
      refl

abbrev conflict : BudgetReservationTransitionResult
conflict = record { committed = false; reservation = none; conflict_reason = some not_in_state }

release_refused :
    transition_status consumed 111 7 reserved released 1 none ≡ ok (consumed, conflict)
unfolding transition_status reservation_allowed
release_refused = refl

transition_status-refuses_example :
    (consumed ≡ consumed)
    × ((reason : BudgetReservationTransitionConflict) × (some not_in_state ≡ some reason)
        × Conflict consumed 7 reserved 1 reason)
transition_status-refuses_example =
    transition_status-refuses consumed consumed 111 7 reserved released 1 none conflict
      release_refused refl

inserts :
    insert_reserved empty draft booking
    ≡ ok (stored, record { disposition = inserted; reservation = draft; row_version = 1 })
unfolding insert_reserved reservation_allowed reservation_fits
inserts = refl

insert_reserved-replayed_example :
    (o : BudgetReservation) × (find_reservation 7 (commit_all stored life_calls).reservations
      ≡ some o)
    × (insert_reserved (commit_all stored life_calls) draft booking
        ≡ ok (
          commit_all stored life_calls,
          record { disposition = already_present; reservation = o; row_version = o.row_version },
        ))
insert_reserved-replayed_example =
    insert_reserved-replayed empty stored draft booking
      (record { disposition = inserted; reservation = draft; row_version = 1 }) life_calls inserts
