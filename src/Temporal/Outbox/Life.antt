-- ===== src/Temporal/Outbox/Life.antt =====
-- What may happen to a row of the outbox, whatever transactions of however many consumers come one
-- after another, in any order.
use knowledage_base_assistan.Prelude.{
  nat_eq, string_eq, Uuid, true, ◌||◌, ◌≡◌, refl, sym, subst, inl, inr, List, [], ◌∷◌, some, arith,
}
use knowledage_base_assistan.Temporal.Outbox.Table.{
  OutboxMessage, find_row, PublishStatus, published, dead, ◌same_status◌,
}
use knowledage_base_assistan.Temporal.Outbox.Rows.{find-map}
use knowledage_base_assistan.Temporal.Outbox.Keys.{PrimaryKey, PrimaryKey-map, OnlyRow-of_find}
use knowledage_base_assistan.Temporal.Outbox.Steps.{
  Transaction, commit, may_move, Step, May, Updates, commit-Updates,
}

unfoldable pub commit_each : List OutboxMessage → List Transaction → List OutboxMessage
commit_each rows [] = rows
commit_each rows (t ∷ ts) = commit_each (commit rows t) ts

pub data Life : OutboxMessage → OutboxMessage → Type 0 where
  unchanged : {r : OutboxMessage} → Life r r
  changed : {r s t : OutboxMessage} → Step r s → Life s t → Life r t

after_one :
    (rows after : List OutboxMessage) (id : Uuid) (r : OutboxMessage)
    → Updates rows after
    → PrimaryKey rows
    → find_row id rows ≡ some r
    → PrimaryKey after × ((s : OutboxMessage) × (find_row id after ≡ some s) × May r s)
after_one rows after id r u p f = (
  subst PrimaryKey (sym u.by_row) (PrimaryKey-map u.update rows u.keys p),
  (
    u.update r,
    subst (λ t. find_row id t ≡ some (u.update r)) (sym u.by_row)
        (find-map u.update id r rows u.keys f),
    u.may r (OnlyRow-of_find id r rows p f),
  ),
)

-- Whatever transactions are committed, by consumers that may be slow or be gone: no row is lost, and
-- each change of it is a move of the state machine that obeys the table's constraint, raises the
-- version by one, counts an attempt exactly for a claim, and leaves every field of the message as it
-- is: event, aggregate with its version, destination, schema version, payload and its digest.
pub commit_each-Life :
    (ts : List Transaction) (rows : List OutboxMessage) (id : Uuid) (r : OutboxMessage)
    → PrimaryKey rows
    → find_row id rows ≡ some r
    → (s : OutboxMessage) × (find_row id (commit_each rows ts) ≡ some s) × Life r s
unfolding commit_each
commit_each-Life [] rows id r p f = (r, f, unchanged)
commit_each-Life (t ∷ ts) rows id r p f =
    let (p', (s, g, may)) = after_one rows (commit rows t) id r (commit-Updates rows t) p f in
    let (z, h, life) = commit_each-Life ts (commit rows t) id s p' g in
    elim may [
      | inl same ↦ (z, h, subst (λ x. Life x z) same life)
      | inr step ↦ (z, h, changed step life)
    ]

stuck :
    (s t : PublishStatus)
    → may_move s t ≡ true
    → (s same_status published || s same_status dead) ≡ true
    → ⊥
stuck s t h k = ground arith

Life-frozen :
    {r s : OutboxMessage}
    → Life r s
    → (r.publish_status same_status published || r.publish_status same_status dead) ≡ true
    → s ≡ r
Life-frozen unchanged h = refl
Life-frozen (changed {r = r} {s = s} step rest) h =
    absurd (stuck r.publish_status s.publish_status step.moves h)

-- A row that is published, or given up, is frozen: no transaction changes any field of it, so it is
-- never claimed again.
pub commit_each-frozen :
    (ts : List Transaction) (rows : List OutboxMessage) (id : Uuid) (r : OutboxMessage)
    → PrimaryKey rows
    → find_row id rows ≡ some r
    → (r.publish_status same_status published || r.publish_status same_status dead) ≡ true
    → find_row id (commit_each rows ts) ≡ some r
commit_each-frozen ts rows id r p f end =
    let (s, g, life) = commit_each-Life ts rows id r p f in
    subst (λ z. find_row id (commit_each rows ts) ≡ some z) (Life-frozen life end) g
