-- ===== src/ModelGateway/Budget/Conservation.antt =====
-- A settlement loses nothing and invents nothing, in each of the five dimensions.
use knowledage_base_assistan.Prelude.{
  ◌+◌, ◌-◌, ◌<◌, pos, negate, ◌+ℤ◌, ◌≡◌, refl, true, List, [], ok-injective, >>=-eq-ok, all,
  keep_if-nonempty, any, Bool, false, subst, ◌∷◌, ok, raise, value_error, ltb, arith, ◌↔◌,
}
use knowledage_base_assistan.ModelGateway.Budget.Quantity.{
  Dimension, dimensions, model_call_count, input_tokens, output_tokens, tool_count, cost_amount,
  BudgetQuantity, BudgetQuantityDelta, get, get_delta, IsWithin, subtract, as_delta, negate_delta,
}
use knowledage_base_assistan.ModelGateway.Budget.Ledger.{
  settle_deltas, conservation_gap, is_conserved, overrun_dimensions, overrun_code, is_zero,
}

-- What a settlement books in one dimension: the consumption, and as a negative amount the rest.
pub record Balances (reserved settled : BudgetQuantity) (d : Dimension)
    (booked : BudgetQuantityDelta × BudgetQuantityDelta) : Type 0 where
  pub consumed : get_delta d booked.0 ≡ pos (get d settled)
  pub balanced : get_delta d booked.0 +ℤ negate (get_delta d booked.1) ≡ pos (get d reserved)

-- The difference where it is one.
minus : BudgetQuantity → BudgetQuantity → BudgetQuantity
minus q other = record {
  model_call_count = q.model_call_count - other.model_call_count;
  input_tokens = q.input_tokens - other.input_tokens;
  output_tokens = q.output_tokens - other.output_tokens;
  tool_count = q.tool_count - other.tool_count;
  cost_amount = q.cost_amount - other.cost_amount;
}

subtract_within :
    (q other : BudgetQuantity) → IsWithin other q → subtract q other ≡ ok (minus q other)
unfolding subtract minus
subtract_within q other h = ground arith

IsWithin-subtract :
    (q other : BudgetQuantity) {rest : BudgetQuantity}
    → subtract q other ≡ ok rest
    → IsWithin other q × (rest ≡ minus q other)
unfolding subtract minus
IsWithin-subtract q other h = ground arith

overrun_dimensions-within :
    (reserved settled : BudgetQuantity)
    → IsWithin settled reserved
    → overrun_dimensions reserved settled ≡ []
unfolding overrun_dimensions
overrun_dimensions-within reserved settled h = ground arith

balances :
    (reserved settled : BudgetQuantity) (d : Dimension)
    → IsWithin settled reserved
    → Balances reserved settled d
        (as_delta settled, negate_delta (as_delta (minus reserved settled)))
unfolding as_delta negate_delta minus ◌+ℤ◌ negate
balances reserved settled model_call_count h = ground arith
balances reserved settled _ h = ground arith

-- A consumption within the reservation is settled, and in each dimension the booked consumption
-- and the booked return add up to the reservation.
pub settle_deltas-Balances :
    (reserved settled : BudgetQuantity)
    → IsWithin settled reserved
    → (booked : BudgetQuantityDelta × BudgetQuantityDelta) × (settle_deltas reserved settled
        ≡ ok booked)
      × ((d : Dimension) → Balances reserved settled d booked)
unfolding settle_deltas
settle_deltas-Balances reserved settled h = (
  (as_delta settled, negate_delta (as_delta (minus reserved settled))),
  rw (overrun_dimensions-within reserved settled h, subtract_within reserved settled h),
  λ d. balances reserved settled d h,
)

any_overrun :
    (reserved settled : BudgetQuantity) (d : Dimension)
    → get d reserved < get d settled
    → any (λ name. ltb (get name reserved) (get name settled)) dimensions ≡ true
any_overrun reserved settled model_call_count h = ground arith
any_overrun reserved settled _ h = ground arith

abbrev pub same_dimension : Dimension → Dimension → Bool
same_dimension model_call_count model_call_count = true
same_dimension input_tokens input_tokens = true
same_dimension output_tokens output_tokens = true
same_dimension tool_count tool_count = true
same_dimension cost_amount cost_amount = true
same_dimension _ _ = false

-- A list of dimensions names one exactly if the settlement is above the reservation in it.
abbrev pub NamesOverrun : BudgetQuantity → BudgetQuantity → List Dimension → Type 0
NamesOverrun reserved settled named =
    (d : Dimension) → any (same_dimension d) named ≡ ltb (get d reserved) (get d settled)

overrun-names :
    (reserved settled : BudgetQuantity)
    → NamesOverrun reserved settled (overrun_dimensions reserved settled)
unfolding overrun_dimensions
overrun-names reserved settled model_call_count = ground arith
overrun-names reserved settled _ = ground arith

-- A consumption above the reservation in any one dimension is refused, and the error names exactly
-- the dimensions in which it is above, of which there is one at least.
pub settle_deltas-overrun :
    (reserved settled : BudgetQuantity) (d : Dimension)
    → get d reserved < get d settled
    → (e : Dimension) × (es : List Dimension) × NamesOverrun reserved settled (e ∷ es)
      × (settle_deltas reserved settled ≡ raise (value_error (overrun_code (e ∷ es))))
unfolding settle_deltas
settle_deltas-overrun reserved settled d h =
    let (e, es, p) =
      keep_if-nonempty (λ name. ltb (get name reserved) (get name settled)) dimensions
        (any_overrun reserved settled d h) in
    (e, es, subst (NamesOverrun reserved settled) p (overrun-names reserved settled), rw p)

zero_quantity : BudgetQuantity
zero_quantity = record {
  model_call_count = 0;
  input_tokens = 0;
  output_tokens = 0;
  tool_count = 0;
  cost_amount = 0;
}

all_zero :
    (gap : BudgetQuantity)
    → all (λ name. is_zero (get_delta name (as_delta gap))) dimensions ≡ true
    → gap ≡ zero_quantity
unfolding as_delta zero_quantity
all_zero gap h = ground arith

sum_of_zero_residue :
    (reserved consumed returned : BudgetQuantity)
    → IsWithin consumed reserved
    → IsWithin returned (minus reserved consumed)
    → minus (minus reserved consumed) returned ≡ zero_quantity
    → (d : Dimension) → get d reserved ≡ get d consumed + get d returned
unfolding minus zero_quantity
sum_of_zero_residue reserved consumed returned h k e model_call_count = ground arith
sum_of_zero_residue reserved consumed returned h k e _ = ground arith

-- The parts of a successful test, put together.
adds_up_parts :
    (reserved consumed returned rest last : BudgetQuantity) (gap : BudgetQuantityDelta)
    → IsWithin consumed reserved × (rest ≡ minus reserved consumed)
    → IsWithin returned rest × (last ≡ minus rest returned)
    → ok (as_delta last) ≡ ok gap
    → ok (all (λ name. is_zero (get_delta name gap)) dimensions) ≡ ok true
    → (d : Dimension) → get d reserved ≡ get d consumed + get d returned
adds_up_parts reserved consumed returned rest last gap (w, e) (w', e') g z =
    sum_of_zero_residue reserved consumed returned w (rw (← e) w')
      (rw (← e, ← e') (all_zero last (rw (ok-injective g) (ok-injective z))))

adds_up :
    (reserved consumed returned : BudgetQuantity)
    → is_conserved reserved consumed returned ≡ ok true
    → (d : Dimension) → get d reserved ≡ get d consumed + get d returned
unfolding is_conserved
adds_up reserved consumed returned h =
    let (gap, p, q) = >>=-eq-ok (conservation_gap reserved consumed returned) _ h in
    let (rest, p1, p2) = >>=-eq-ok (subtract reserved consumed) _ p in
    let (last, p3, p4) = >>=-eq-ok (subtract rest returned) _ p2 in
    adds_up_parts reserved consumed returned rest last gap (IsWithin-subtract reserved consumed p1)
      (IsWithin-subtract rest returned p3) p4 q

IsWithin-of_sums :
    (reserved consumed returned : BudgetQuantity)
    → ((d : Dimension) → get d reserved ≡ get d consumed + get d returned)
    → IsWithin consumed reserved
      × IsWithin returned (minus reserved consumed)
      × (minus (minus reserved consumed) returned ≡ zero_quantity)
unfolding minus zero_quantity
IsWithin-of_sums reserved consumed returned h =
    ground (arith, h model_call_count, h input_tokens, h output_tokens, h tool_count, h cost_amount)

conserved_of_sums :
    (reserved consumed returned : BudgetQuantity)
    → ((d : Dimension) → get d reserved ≡ get d consumed + get d returned)
    → is_conserved reserved consumed returned ≡ ok true
unfolding is_conserved
conserved_of_sums reserved consumed returned h =
    let (w, w', z) = IsWithin-of_sums reserved consumed returned h in
    rw (subtract_within reserved consumed w)
      (rw (subtract_within (minus reserved consumed) returned w', z) (unfold zero_quantity in refl))

-- The residue is zero exactly if consumption and return make up the reservation.
pub is_conserved_iff :
    (reserved consumed returned : BudgetQuantity)
    → (is_conserved reserved consumed returned ≡ ok true)
      ↔ ((d : Dimension) → get d reserved ≡ get d consumed + get d returned)
is_conserved_iff reserved consumed returned =
    (adds_up reserved consumed returned, conserved_of_sums reserved consumed returned)
