-- ===== src/ModelGateway/Budget/Repository/History.antt =====
-- The tables over a sequence of calls, each in a transaction of its own: a call that raises leaves
-- them as they were.
use knowledage_base_assistan.Prelude.{
  nat_eq, ℕ, ◌+◌, Uuid, ◌≡◌, refl, inl, inr, true, List, [], ◌∷◌, ◌++◌, Option, some, ok, raise,
  Result, arith, append_assoc, append-nil, sym, ap, ◌∙◌,
}
use knowledage_base_assistan.ModelGateway.Budget.Quantity.{BudgetQuantity}
use knowledage_base_assistan.ModelGateway.Budget.Ledger.{BudgetLedgerEntry}
use knowledage_base_assistan.ModelGateway.Budget.Reservation.{
  BudgetReservation, BudgetReservationStatus, can_transition, is_terminal,
}
use knowledage_base_assistan.ModelGateway.Budget.Tables.{Db, find_reservation}
use knowledage_base_assistan.ModelGateway.Budget.Repository.{
  append_entry, insert_reserved, transition_status,
}
use knowledage_base_assistan.ModelGateway.Budget.Repository.Keeps.{
  Keeps, Keeps-refl, Keeps-of_append, insert_reserved-Keeps, transition_status-Keeps,
}

pub data Call : Type 0 where
  insert : BudgetReservation → BudgetLedgerEntry → Call
  append : BudgetLedgerEntry → Call
  transition :
      ℕ
      → Uuid
      → BudgetReservationStatus
      → BudgetReservationStatus
      → ℕ
      → Option BudgetQuantity
      → Call

-- The tables after a transaction that ran one call.
abbrev pub tables_after {ℓ} : {R : Type ℓ} → Db → Result (Db × R) → Db
tables_after db (ok (db', r)) = db'
tables_after db (raise e) = db

unfoldable pub commit : Db → Call → Db
commit db (insert r e) = tables_after db (insert_reserved db r e)
commit db (append e) = tables_after db (append_entry db e)
commit db (transition now id from_status to_status expected quantity) =
    tables_after db (transition_status db now id from_status to_status expected quantity)

unfoldable pub commit_all : Db → List Call → Db
commit_all db [] = db
commit_all db (c ∷ cs) = commit_all (commit db c) cs

terminal_stuck :
    (s t : BudgetReservationStatus) → is_terminal s ≡ true → can_transition s t ≡ true → ⊥
unfolding is_terminal can_transition
terminal_stuck s t h l = ground arith

tables_after-ind {ℓ κ} :
    {R : Type ℓ} (P : Db → Type κ) (db : Db) (out : Result (Db × R))
    → P db
    → ((p : Db × R) → out ≡ ok p → P p.0)
    → P (tables_after db out)
tables_after-ind P db (ok p) keep step = step p refl
tables_after-ind P db (raise e) keep step = keep

commit-Keeps : (db : Db) (c : Call) → Keeps db (commit db c)
unfolding commit
commit-Keeps db (insert r e) =
    tables_after-ind (Keeps db) db (insert_reserved db r e) (Keeps-refl db)
      (insert_reserved-Keeps db r e)
commit-Keeps db (append e) =
    tables_after-ind (Keeps db) db (append_entry db e) (Keeps-refl db)
      (λ p h. Keeps-of_append db db p.0 [] e p.1 (sym (append-nil db.reservations)) refl h)
commit-Keeps db (transition now id from_status to_status expected quantity) =
    tables_after-ind (Keeps db) db
      (transition_status db now id from_status to_status expected quantity) (Keeps-refl db)
      (transition_status-Keeps db now id from_status to_status expected quantity)

-- The life of a row: it stays as it is, or moves along the state machine.
pub data Life : BudgetReservation → BudgetReservation → Type 0 where
  unchanged : {r : BudgetReservation} → Life r r
  moved_on :
      {r s t : BudgetReservation}
      → can_transition r.status s.status ≡ true
      → s.row_version ≡ r.row_version + 1
      → s.reserved_quantity ≡ r.reserved_quantity
      → Life s t
      → Life r t

-- Whatever the calls, a stored reservation is never lost, and its row went through the state
-- machine, one version a step, with the reserved quantity untouched.
pub commit_all-Life :
    (cs : List Call) (db : Db) (id : Uuid) (r : BudgetReservation)
    → find_reservation id db.reservations ≡ some r
    → (r' : BudgetReservation) × (find_reservation id (commit_all db cs).reservations ≡ some r')
      × Life r r'
unfolding commit_all
commit_all-Life [] db id r f = (r, f, unchanged)
commit_all-Life (c ∷ cs) db id r f = elim ((commit-Keeps db c).rows id r f) [
  | inl same ↦ commit_all-Life cs (commit db c) id r same
  | inr (s, g, legal, version, quantity) ↦
      let (t, h, life) = commit_all-Life cs (commit db c) id s g in
      (t, h, moved_on legal version quantity life)
]

Life-terminal : {r s : BudgetReservation} → Life r s → is_terminal r.status ≡ true → s ≡ r
Life-terminal unchanged h = refl
Life-terminal (moved_on {r = r} {s = s} legal v q l) h =
    absurd (terminal_stuck r.status s.status h legal)

-- A reservation in a terminal status is frozen: no sequence of calls changes any field of its row.
pub commit_all-terminal :
    (cs : List Call) (db : Db) (id : Uuid) (r : BudgetReservation)
    → find_reservation id db.reservations ≡ some r
    → is_terminal r.status ≡ true
    → find_reservation id (commit_all db cs).reservations ≡ some r
commit_all-terminal cs db id r f h =
    let (r', g, life) = commit_all-Life cs db id r f in rw (Life-terminal life h) at g

-- The ledger is append-only: the entries before any calls are a prefix of the entries after.
pub commit_all-appends :
    (cs : List Call) (db : Db)
    → (added : List BudgetLedgerEntry) × ((commit_all db cs).entries ≡ db.entries ++ added)
unfolding commit_all
commit_all-appends [] db = ([], sym (append-nil db.entries))
commit_all-appends (c ∷ cs) db =
    let (a, p) = (commit-Keeps db c).booked in
    let (b, q) = commit_all-appends cs (commit db c) in
    (a ++ b, q ∙ (ap (λ t. t ++ b) p ∙ append_assoc db.entries a b))
