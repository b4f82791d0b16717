-- ===== src/Memory/ContextPack/Select/Fill.antt =====
-- The loop that fills the buckets, for limits that are all present.
use mathlib.Core.List.{Perm, perm_middle}
use mathlib.Core.List.Perm
use knowledage_base_assistan.Prelude.{
  ℕ, ◌+◌, ◌-◌, ◌<◌, ◌≤◌, ◌≡◌, refl, Bool, true, false, inl, inr, List, [], ◌∷◌, ◌++◌, Option, none,
  some, ok, arith, Bool-cases, Option-cases, leb, sum_by, All, all, if◌then◌else◌, ◌>>=◌,
}
use knowledage_base_assistan.Memory.ContextPack.Budget.{
  ContextBucket, recent, memory, task_artifact, evidence, summary,
}
use knowledage_base_assistan.Memory.ContextPack.Budget.Allocation.{tokens_of, total_of, IsComplete}
use knowledage_base_assistan.Memory.ContextPack.Select.{
  ContextItem, bucket_for_item_type, same_bucket, Remaining, set_limit, offer, fill_buckets, placed,
  left_after,
}

abbrev in_option : ContextBucket → Option ContextBucket → ℕ → ℕ
in_option b none n = 0
in_option b (some c) n = if same_bucket b c then n else 0

-- The tokens of an item that count for a bucket.
abbrev pub tokens_in : ContextBucket → ContextItem → ℕ
tokens_in b item = in_option b (bucket_for_item_type item.item_type) item.token_count

-- An item whose bucket has no room for it beside the items that were taken.
abbrev pub HasNoRoom : Remaining → List ContextItem → ContextItem → Type 0
HasNoRoom limits taken item =
    (b : ContextBucket)
    → bucket_for_item_type item.item_type ≡ some b
    → tokens_of (limits b) < item.token_count + sum_by (tokens_in b) taken

-- What the loop leaves.
pub record Filled (limits : Remaining) (items taken dropped : List ContextItem) : Type 0 where
  pub shuffle : Perm items (taken ++ dropped)
  pub within : (b : ContextBucket) → sum_by (tokens_in b) taken ≤ tokens_of (limits b)
  pub total : sum_by (λ item. item.token_count) taken ≤ total_of limits
  pub maximal : All (HasNoRoom limits taken) dropped
  pub dropped_from : (p : ContextItem → Bool) → all p items ≡ true → all p dropped ≡ true

set_limit-IsComplete :
    (b : ContextBucket) (n : ℕ) (limits : Remaining)
    → IsComplete limits
    → IsComplete (set_limit b n limits)
set_limit-IsComplete b n limits h c = elim (Bool-cases (same_bucket b c)) [
  | inl same ↦ (n, rw same)
  | inr other ↦ rw other (h c)
]

-- One limit less the tokens of an item.
charged_total :
    (b : ContextBucket) (n k : ℕ) (limits : Remaining)
    → limits b ≡ some n
    → k ≤ n
    → total_of (set_limit b (n - k) limits) + k ≡ total_of limits
charged_total recent n k limits e h = ground arith
charged_total memory n k limits e h = ground arith
charged_total task_artifact n k limits e h = ground arith
charged_total evidence n k limits e h = ground arith
charged_total summary n k limits e h = ground arith

charged_limit :
    (b c : ContextBucket) (n k : ℕ) (limits : Remaining)
    → limits b ≡ some n
    → k ≤ n
    → tokens_of (set_limit b (n - k) limits c) + in_option c (some b) k ≡ tokens_of (limits c)
charged_limit recent recent n k limits e h = ground arith
charged_limit memory memory n k limits e h = ground arith
charged_limit task_artifact task_artifact n k limits e h = ground arith
charged_limit evidence evidence n k limits e h = ground arith
charged_limit summary summary n k limits e h = ground arith
charged_limit _ _ n k limits e h = ground arith

offer-drop :
    (limits : Remaining) (item : ContextItem) (items taken dropped : List ContextItem)
    → HasNoRoom limits taken item
    → Filled limits items taken dropped
    → Filled limits (item ∷ items) taken (item ∷ dropped)
offer-drop limits item items taken dropped h f = record {
  shuffle = Perm.trans (Perm.cons item f.shuffle) (Perm.symm (perm_middle taken dropped));
  within = f.within;
  total = f.total;
  maximal = (h, f.maximal);
  dropped_from = λ p q. ground (arith, f.dropped_from p);
}

maximal_after :
    (limits after : Remaining) (item : ContextItem) (taken dropped : List ContextItem)
    → ((c : ContextBucket) → tokens_of (after c) + tokens_in c item ≡ tokens_of (limits c))
    → All (HasNoRoom after taken) dropped
    → All (HasNoRoom limits (item ∷ taken)) dropped
maximal_after limits after item taken [] e h = tt
maximal_after limits after item taken (d ∷ dropped) e h =
    (λ b q. omega (arith, h.0 b q, e b), maximal_after limits after item taken dropped e h.1)

offer-take :
    (limits after : Remaining) (item : ContextItem) (items taken dropped : List ContextItem)
    → ((c : ContextBucket) → tokens_of (after c) + tokens_in c item ≡ tokens_of (limits c))
    → total_of after + item.token_count ≡ total_of limits
    → Filled after items taken dropped
    → Filled limits (item ∷ items) (item ∷ taken) dropped
offer-take limits after item items taken dropped e t f = record {
  shuffle = Perm.cons item f.shuffle;
  within = λ b. omega (arith, f.within b, e b);
  total = omega (arith, f.total);
  maximal = maximal_after limits after item taken dropped e f.maximal;
  dropped_from = λ p q. ground (arith, f.dropped_from p);
}

no_room :
    (o : Option ContextBucket) (b c : ContextBucket) (limits : Remaining) (n k s : ℕ)
    → o ≡ some b
    → o ≡ some c
    → limits b ≡ some n
    → leb k n ≡ false
    → tokens_of (limits c) < k + s
no_room o b c limits n k s e q g large = let same : b ≡ c = cc in rw (← same, g) (ground arith)

-- What one step of the loop decided.
data Offered (limits : Remaining) (item : ContextItem) : Option Remaining → Type 0 where
  left_out : ((taken : List ContextItem) → HasNoRoom limits taken item) → Offered limits item none
  let_in :
      (after : Remaining)
      → IsComplete after
      → ((c : ContextBucket) → tokens_of (after c) + tokens_in c item ≡ tokens_of (limits c))
      → total_of after + item.token_count ≡ total_of limits
      → Offered limits item (some after)

offered :
    (limits : Remaining) (item : ContextItem)
    → IsComplete limits
    → (choice : Option Remaining) × (offer limits item (bucket_for_item_type item.item_type)
        ≡ ok choice)
      × Offered limits item choice
unfolding offer
offered limits item h = elim (Option-cases (bucket_for_item_type item.item_type)) [
  | inl e ↦ (none, rw e refl, left_out (λ taken b q. cc))
  | inr (b, e) ↦
      let (n, g) = h b in
      elim (Bool-cases (leb item.token_count n)) [
        | inl fits ↦ (
          some (set_limit b (n - item.token_count) limits),
          rw (e, g, fits) refl,
          let_in (set_limit b (n - item.token_count) limits)
              (set_limit-IsComplete b (n - item.token_count) limits h)
              (λ c. rw e (charged_limit b c n item.token_count limits g (ground arith)))
              (charged_total b n item.token_count limits g (ground arith)),
        )
        | inr large ↦ (
          none,
          rw (e, g, large) refl,
          left_out (λ taken c q. no_room _ b c limits n item.token_count _ e q g large),
        )
      ]
]

fill_step :
    (limits : Remaining) (item : ContextItem) (items : List ContextItem) (choice : Option Remaining)
    → Offered limits item choice
    → IsComplete limits
    → ((after : Remaining)
        → IsComplete after
        → (placement : List ContextItem × List ContextItem) × (fill_buckets after items
            ≡ ok placement)
          × Filled after items placement.0 placement.1)
    → (placement : List ContextItem × List ContextItem) × ((do
      rest ← fill_buckets (left_after limits choice) items
      ok (placed item choice rest))
        ≡ ok placement)
      × Filled limits (item ∷ items) placement.0 placement.1
fill_step limits item items none (left_out h) c ih =
    let ((taken, dropped), e, f) = ih limits c in
    ((taken, item ∷ dropped), rw e refl, offer-drop limits item items taken dropped (h taken) f)
fill_step limits item items (some after) (let_in _ c' e t) c ih =
    let ((taken, dropped), q, f) = ih after c' in
    ((item ∷ taken, dropped), rw q refl, offer-take limits after item items taken dropped e t f)

-- With a limit for every bucket the loop never fails.
pub fill_buckets-Filled :
    (items : List ContextItem) (limits : Remaining)
    → IsComplete limits
    → (placement : List ContextItem × List ContextItem) × (fill_buckets limits items ≡ ok placement)
      × Filled limits items placement.0 placement.1
unfolding fill_buckets
fill_buckets-Filled [] limits h = (
  ([], []),
  refl,
  record {
    shuffle = Perm.nil;
    within = λ b. omega arith;
    total = omega arith;
    maximal = tt;
    dropped_from = λ p q. refl;
  },
)
fill_buckets-Filled (item ∷ items) limits h =
    let (choice, e, o) = offered limits item h in
    let (p, q, f) =
      fill_step limits item items choice o h (λ after c. fill_buckets-Filled items after c) in
    (p, rw e q, f)
