-- ===== src/Metrics/Receipts.antt =====
-- The receipts that the routes of src/harness/metrics.py are about, described by the tables themselves.
use harness_golden_path.Prelude.{
  ℕ, ◌≡◌, refl, Bool, Bool-cases, true, false, not, ◌&&◌, ◌⊎◌, one_if, inl, inr, Option-cases,
  Option, none, some, List, [], ◌∷◌, find, count, sum_of, ◌==◌, ◌=s=◌, if◌then◌else◌, arith,
}
use harness_golden_path.Contracts.{ProjectionKind, operational, evidence, provider_value}
use harness_golden_path.Contracts.Models.{Outcome}
use harness_golden_path.Store.Tables.{Task, RoutingReceipt}
use harness_golden_path.Metrics.{
  Joined, RouteMetrics, has_route, is_operational, with_route, join_tasks,
}

abbrev is_live : ProjectionKind → Bool
is_live operational = true
is_live evidence = false

abbrev of_live : Option Task → Bool
of_live none = false
of_live (some task) = is_live task.card.projection_kind

-- A receipt of an operational task, that names a model.
abbrev pub is_counted : List Task → RoutingReceipt → Bool
is_counted tasks r =
    of_live (find (λ t. t.task_id == r.task_id) tasks)
    && not (r.receipt.cost_receipt.model_ref =s= "")

abbrev pub completes : Outcome → Bool
completes Outcome.completed = true
completes Outcome.failed = false
completes Outcome.blocked = false

abbrev pub has_completed : RoutingReceipt → Bool
has_completed r = completes r.outcome

abbrev pub cost_of : RoutingReceipt → ℕ
cost_of r = r.receipt.cost_receipt.incremental_cost_chf

-- An entry that bears the model and the provider of a receipt, and another receipt that does.
abbrev pub names : RoutingReceipt → RouteMetrics → Bool
names r m =
    (r.receipt.cost_receipt.model_ref =s= m.model_ref)
    && (provider_value r.receipt.cost_receipt.provider_class =s= m.provider_class)

abbrev pub agrees : RoutingReceipt → RoutingReceipt → Bool
agrees r other =
    (r.receipt.cost_receipt.model_ref =s= other.receipt.cost_receipt.model_ref)
    && (provider_value r.receipt.cost_receipt.provider_class
        =s= provider_value other.receipt.cost_receipt.provider_class)

-- The row of the query for a receipt.
abbrev pub row_of : RoutingReceipt → ℕ → Joined
row_of r attempts = record { outcome = r.outcome; receipt = r.receipt; attempt_count = attempts }

kinds : (k : ProjectionKind) → (k ≡ operational) ⊎ (k ≡ evidence)
kinds operational = inl refl
kinds evidence = inr refl

-- What the rows with a route sum up to is what the counted receipts sum up to.
pub sum_of-join_tasks :
    (weight : Joined → ℕ) (share : RoutingReceipt → ℕ) (tasks : List Task)
    (receipts : List RoutingReceipt)
    → ((r : RoutingReceipt) (attempts : ℕ) → weight (row_of r attempts) ≡ share r)
    → sum_of weight (with_route (join_tasks tasks receipts))
      ≡ sum_of (λ r. if is_counted tasks r then share r else 0) receipts
unfolding sum_of with_route join_tasks has_route is_operational
sum_of-join_tasks weight share tasks [] same = refl
sum_of-join_tasks weight share tasks (r ∷ rs) same =
    let rest = sum_of-join_tasks weight share tasks rs same in
    elim (Option-cases (find (λ t. t.task_id == r.task_id) tasks)) [
      | inl absent ↦ rw absent (ground (arith, rest))
      | inr (t, found) ↦ elim (kinds t.card.projection_kind) [
        | inr hidden ↦ rw (found, hidden) (ground (arith, rest))
        | inl live ↦ elim (Bool-cases (r.receipt.cost_receipt.model_ref =s= "")) [
          | inl nameless ↦ rw (found, live, nameless) (ground (arith, rest))
          | inr named ↦ rw (found, live, named) (ground (arith, rest, same r t.attempt_count))
        ]
      ]
    ]

pub count-both :
    (p q : RoutingReceipt → Bool) (rs : List RoutingReceipt)
    → sum_of (λ r. if p r then one_if (q r) else 0) rs ≡ count (λ r. p r && q r) rs
unfolding sum_of count
count-both p q [] = refl
count-both p q (r ∷ rs) = elim (Bool-cases (p r)) [
  | inl yes_it ↦ rw (yes_it, count-both p q rs) refl
  | inr no_it ↦ rw (no_it, count-both p q rs) refl
]
