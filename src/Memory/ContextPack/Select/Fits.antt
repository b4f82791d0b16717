-- ===== src/Memory/ContextPack/Select/Fits.antt =====
-- The selection as a whole, and with the division of the window before it.
use mathlib.Core.List.{Perm}
use mathlib.Core.List.Perm
use knowledage_base_assistan.Prelude.{
  ℕ, ◌+◌, ◌<◌, ◌≤◌, ◌≡◌, ◌⊎◌, subst, refl, true, not, inl, inr, List, [], ◌∷◌, ◌++◌, none, ok,
  arith, Bool-cases, ltb, sum_by, sum_by-append, All, all, any, keep_if, append_assoc, string_eq,
  String,
}
use knowledage_base_assistan.Memory.ContextPack.Budget.{
  ContextBucket, ContextBudget, ContextOperationProfile, compute_context_budget,
}
use knowledage_base_assistan.Memory.ContextPack.Budget.Allocation.{
  tokens_of, total_of, IsComplete, Accounts, compute_context_budget-Accounts,
}
use knowledage_base_assistan.Memory.ContextPack.Select.{
  ContextItem, ContextSelectionResult, is_mandatory, is_mandatory_item_type, bucket_for_item_type,
  dedup_by_hash, sort_items, too_large, selection, select_context_items, too_large,
}
use knowledage_base_assistan.Memory.ContextPack.Select.Dedup.{
  AreDistinct, All-map, dedup_by_hash-AreDistinct, dedup_by_hash-lighter, find_hash,
  dedup_by_hash-first,
}
use knowledage_base_assistan.Memory.ContextPack.Select.Shuffle.{
  sort_items-perm, sort_items-all, keep_if-perm, keep_if-all,
}
use knowledage_base_assistan.Memory.ContextPack.Select.Fill.{
  tokens_in, HasNoRoom, Filled, fill_buckets-Filled,
}

abbrev pub tokens : ContextItem → ℕ
tokens item = item.token_count

-- The mandatory items.
abbrev pub mandatory_of : List ContextItem → List ContextItem
mandatory_of items = keep_if is_mandatory items

-- A selection of the candidates within a budget.
pub record Fits (candidates : List ContextItem) (b : ContextBudget) (r : ContextSelectionResult)
    : Type 0 where
  pub no_error : r.error_code ≡ none
  -- the selected and the dropped items are the candidates, each content once: of the candidates
  -- with one content the first
  pub shuffle : Perm (dedup_by_hash [] candidates) (r.selected ++ r.dropped)
  pub distinct : AreDistinct (dedup_by_hash [] candidates)
  pub first :
      (hash : String) → find_hash hash (dedup_by_hash [] candidates) ≡ find_hash hash candidates
  -- none of these that is mandatory is dropped
  pub dropped_elastic : all (λ item. not (is_mandatory item)) r.dropped ≡ true
  -- no bucket has more than its limit, and no dropped item has room in its bucket
  pub within : (c : ContextBucket) → sum_by (tokens_in c) r.selected ≤ tokens_of (b.bucket_limits c)
  pub maximal : All (HasNoRoom b.bucket_limits r.selected) r.dropped
  -- the total is the tokens of the selected items, and those of the elastic ones keep the limits
  pub total : r.total_tokens ≡ sum_by tokens r.selected
  pub bounded :
      r.total_tokens
      ≤ sum_by tokens (mandatory_of (dedup_by_hash [] candidates)) + total_of b.bucket_limits

mandatory_in :
    (item : ContextItem) (c : ContextBucket) → is_mandatory item ≡ true → tokens_in c item ≡ 0
unfolding is_mandatory_item_type bucket_for_item_type
mandatory_in item c h = ground arith

mandatory_sum :
    (items : List ContextItem) (c : ContextBucket)
    → all is_mandatory items ≡ true
    → sum_by (tokens_in c) items ≡ 0
mandatory_sum [] c h = refl
mandatory_sum (x ∷ xs) c h =
    omega (arith, mandatory_in x c (ground arith), mandatory_sum xs c (ground arith))

-- Mandatory items in front take nothing from the buckets.
selected_sum :
    (mandatory taken : List ContextItem) (c : ContextBucket)
    → all is_mandatory mandatory ≡ true
    → sum_by (tokens_in c) (mandatory ++ taken) ≡ sum_by (tokens_in c) taken
selected_sum mandatory taken c h =
    omega (arith, sum_by-append (tokens_in c) mandatory taken, mandatory_sum mandatory c h)

selection-Fits :
    (candidates taken dropped : List ContextItem) (b : ContextBudget)
    → Filled b.bucket_limits
        (sort_items (keep_if (λ item. not (is_mandatory item)) (dedup_by_hash [] candidates)))
        taken
        dropped
    → Fits candidates b (selection (mandatory_of (dedup_by_hash [] candidates)) (taken, dropped))
unfolding selection
selection-Fits candidates taken dropped b f =
    let deduped = dedup_by_hash [] candidates in
    let mandatory = mandatory_of deduped in
    let elastic = keep_if (λ item. not (is_mandatory item)) deduped in
    let pure = keep_if-all is_mandatory deduped in
    record {
      no_error = refl;
      shuffle = Perm.trans (keep_if-perm is_mandatory deduped) (
          rw (append_assoc mandatory taken dropped)
            (Perm.append_left mandatory (Perm.trans (sort_items-perm elastic) f.shuffle)));
      distinct = dedup_by_hash-AreDistinct candidates [];
      first = dedup_by_hash-first candidates;
      dropped_elastic =
          f.dropped_from (λ item. not (is_mandatory item))
            (sort_items-all (λ item. not (is_mandatory item)) elastic
              (keep_if-all (λ item. not (is_mandatory item)) deduped));
      within = λ c. omega (arith, f.within c, selected_sum mandatory taken c pure);
      maximal =
          All-map dropped (λ x h c q. omega (arith, h c q, selected_sum mandatory taken c pure))
            f.maximal;
      total = refl;
      bounded = omega (arith, f.total, sum_by-append tokens mandatory taken);
    }

-- Whatever the candidates, and for any budget with a limit for each bucket: either a mandatory item
-- alone is larger than the available input, and then nothing is selected and the error says so; or
-- the selection and the rest are together the first candidate of each content, mandatory or not; of
-- these no mandatory one is dropped, no bucket exceeds its limit, no dropped item would still fit
-- into its bucket, and the total is that of the selected items.
pub select_context_items-Fits :
    (candidates : List ContextItem) (b : ContextBudget)
    → IsComplete b.bucket_limits
    → ((r : ContextSelectionResult) × (select_context_items candidates b ≡ ok r)
        × Fits candidates b r)
      ⊎ ((select_context_items candidates b ≡ ok (too_large (dedup_by_hash [] candidates)))
          × (any
                (λ item. ltb (b.mandatory_tokens + b.elastic_tokens) item.token_count)
                (mandatory_of (dedup_by_hash [] candidates))
              ≡ true))
unfolding select_context_items
select_context_items-Fits candidates b h =
    let deduped = dedup_by_hash [] candidates in
    let elastic = keep_if (λ item. not (is_mandatory item)) deduped in
    elim (Bool-cases (
      any (λ item. ltb (b.mandatory_tokens + b.elastic_tokens) item.token_count)
        (mandatory_of deduped))) [
          | inl large ↦ inr (rw large refl, large)
          | inr small ↦
              let ((taken, dropped), e, f) =
                fill_buckets-Filled (sort_items elastic) b.bucket_limits h in
              inl (
                selection (mandatory_of deduped) (taken, dropped),
                rw (small, e) refl,
                selection-Fits candidates taken dropped b f,
              )
        ]

-- An item above a bound takes the sum above it.
sum_above :
    (n : ℕ) (items : List ContextItem)
    → any (λ item. ltb n item.token_count) items ≡ true
    → n < sum_by tokens items
sum_above n [] h = cc
sum_above n (x ∷ xs) h = ground (arith, sum_above n xs)

-- For a budget that was computed for the mandatory items of the candidates, the selection succeeds
-- and fits the model's window together with the reserved output, the overhead and the margin.
pub selection_within_window :
    (max_context reserved_output protocol_overhead safety_margin mandatory : ℕ)
    (p : ContextOperationProfile) (candidates : List ContextItem) (b : ContextBudget)
    → compute_context_budget max_context reserved_output protocol_overhead safety_margin mandatory p
      ≡ ok b
    → sum_by tokens (mandatory_of candidates) ≤ mandatory
    → (r : ContextSelectionResult) × (select_context_items candidates b ≡ ok r)
      × Fits candidates b r
      × (reserved_output + protocol_overhead + safety_margin + r.total_tokens ≤ max_context)
selection_within_window m ro po sm mandatory p candidates b e h =
    let (room, d) =
      subst (Accounts m (ro + po + sm) mandatory p) e
        (compute_context_budget-Accounts m ro po sm mandatory p) in
    let light = dedup_by_hash-lighter is_mandatory tokens candidates [] in
    elim (select_context_items-Fits candidates b d.complete) [
      | inl (r, q, f) ↦ (r, q, f, omega (arith, f.bounded, d.within, d.adds_up))
      | inr (q, large) ↦ absurd (
          omega (
            arith,
            sum_above (b.mandatory_tokens + b.elastic_tokens)
                (mandatory_of (dedup_by_hash [] candidates)) large,
            d.mandatory_kept,
          ))
    ]
