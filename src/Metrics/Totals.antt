-- ===== src/Metrics/Totals.antt =====
-- What the routes of a snapshot of src/harness/metrics.py sum up to.
use harness_golden_path.Prelude.{
  ℕ, ◌+◌, ◌≡◌, ◌∙◌, ◌&&◌, refl, Bool, Bool-cases, inl, inr, ◌∷◌, count, if◌then◌else◌, List, [],
  All, sum_of, one_if, tally_all, sort_by, sum_of-sort_by, sum_of-tally_all, All-sort_by,
  All-tally_all, arith,
}
use harness_golden_path.Contracts.Models.{Outcome}
use harness_golden_path.Store.Tables.{RoutingReceipt, Db}
use harness_golden_path.Metrics.Receipts.{
  is_counted, has_completed, completes, cost_of, sum_of-join_tasks, count-both,
}
use harness_golden_path.Store.Actions.{Env}
use harness_golden_path.Metrics.{
  Joined, RouteMetrics, with_route, same_route, new_route, add_receipt, route_totals, route_lt,
  is_completed, join_tasks, build_quality_metrics_snapshot,
}
use harness_golden_path.Metrics.RouteCounts.{fits}

-- A total over the routes is the total over the rows that have a route.
module _ (measure : RouteMetrics → ℕ) (weight : Joined → ℕ)
    (fresh : (x : Joined) → measure (new_route x) ≡ 0)
    (adds : (x : Joined) (m : RouteMetrics)
      → measure (add_receipt x m) ≡ weight x + measure m) where
  sum_over_routes :
      (rows : List Joined)
      → sum_of measure (sort_by route_lt (route_totals rows)) ≡ sum_of weight (with_route rows)
  unfolding route_totals sum_of
  sum_over_routes rows =
      rw
        (
          sum_of-sort_by measure route_lt
              (tally_all same_route new_route add_receipt (with_route rows) []),
          sum_of-tally_all same_route new_route add_receipt measure weight fresh fits
              (λ x m h. adds x m) (with_route rows) [],
        )
        (omega arith)

abbrev IsSplit : RouteMetrics → Type 0
IsSplit m = m.receipt_count ≡ m.completed_count + m.non_completed_count

add-IsSplit : (x : Joined) (m : RouteMetrics) → IsSplit m → IsSplit (add_receipt x m)
unfolding add_receipt
add-IsSplit x m h = ground arith

one_receipt :
    (x : Joined) (m : RouteMetrics) → (add_receipt x m).receipt_count ≡ 1 + m.receipt_count
unfolding add_receipt
one_receipt x m = ground arith

one_completed :
    (x : Joined) (m : RouteMetrics)
    → (add_receipt x m).completed_count ≡ one_if (is_completed x.outcome) + m.completed_count
unfolding add_receipt
one_completed x m = ground arith

abbrev cost : Joined → ℕ
cost row = row.receipt.cost_receipt.incremental_cost_chf

one_cost :
    (x : Joined) (m : RouteMetrics)
    → (add_receipt x m).incremental_cost_chf ≡ cost x + m.incremental_cost_chf
unfolding add_receipt
one_cost x m = ground arith

completed_lem : (o : Outcome) → one_if (is_completed o) ≡ one_if (completes o)
unfolding is_completed
completed_lem Outcome.completed = refl
completed_lem Outcome.failed = refl
completed_lem Outcome.blocked = refl

count-alone :
    (p : RoutingReceipt → Bool) (rs : List RoutingReceipt)
    → sum_of (λ r. if p r then 1 else 0) rs ≡ count p rs
unfolding sum_of count
count-alone p [] = refl
count-alone p (r ∷ rs) = elim (Bool-cases (p r)) [
  | inl yes_it ↦ rw (yes_it, count-alone p rs) refl
  | inr no_it ↦ rw (no_it, count-alone p rs) refl
]

-- Nothing is lost or counted twice on the way to the routes: over all routes, the receipts, the
-- completed ones and the costs sum up to those of the receipts of operational tasks that name a model,
-- and each route's receipts are its completed and its other ones.
pub routes_account :
    (env : Env) (db : Db)
    → let q = build_quality_metrics_snapshot env db in
      (sum_of (λ m. m.receipt_count) q.routes ≡ count (is_counted db.tasks) db.receipts)
      × (sum_of (λ m. m.completed_count) q.routes
          ≡ count (λ r. is_counted db.tasks r && has_completed r) db.receipts)
      × (sum_of (λ m. m.incremental_cost_chf) q.routes
          ≡ sum_of (λ r. if is_counted db.tasks r then cost_of r else 0) db.receipts)
      × All IsSplit q.routes
unfolding build_quality_metrics_snapshot route_totals is_completed
routes_account env db =
    let rows = join_tasks db.tasks db.receipts in
    (
      sum_over_routes (λ m. m.receipt_count) (λ x. 1) (λ x. refl) one_receipt rows
          ∙ sum_of-join_tasks (λ x. 1) (λ r. 1) db.tasks db.receipts (λ r attempts. refl)
          ∙ count-alone (is_counted db.tasks) db.receipts,
      sum_over_routes (λ m. m.completed_count) (λ x. one_if (is_completed x.outcome)) (λ x. refl)
            one_completed rows
          ∙ sum_of-join_tasks (λ x. one_if (is_completed x.outcome)) (λ r. one_if (has_completed r))
              db.tasks db.receipts (λ r attempts. completed_lem r.outcome)
          ∙ count-both (is_counted db.tasks) has_completed db.receipts,
      sum_over_routes (λ m. m.incremental_cost_chf) cost (λ x. refl) one_cost rows
          ∙ sum_of-join_tasks cost cost_of db.tasks db.receipts (λ r attempts. refl),
      All-sort_by IsSplit route_lt (route_totals rows) (
          All-tally_all same_route new_route add_receipt IsSplit (λ x. refl) add-IsSplit
            (with_route rows) [] tt),
    )
