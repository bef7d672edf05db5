-- ===== src/Metrics/RouteCounts.antt =====
-- The routes of a snapshot of src/harness/metrics.py against the receipts themselves.
use harness_golden_path.Prelude.{
  ℕ, ◌+◌, ◌≤◌, ◌≡◌, ◌∙◌, refl, Bool, Bool-cases, true, ◌&&◌, inl, inr, List, [], ◌∷◌, count, sum_of,
  one_if, tally, tally_all, count-sort_by, sum_of-sort_by, sum_of-tally_all, =s=_iff, arith,
  if◌then◌else◌, ltb,
}
use harness_golden_path.Contracts.{provider_value}
use harness_golden_path.Store.Tables.{RoutingReceipt, Db}
use harness_golden_path.Metrics.Receipts.{
  is_counted, names, agrees, row_of, sum_of-join_tasks, count-both,
}
use harness_golden_path.Store.Actions.{Env}
use harness_golden_path.Metrics.{
  Joined, RouteMetrics, with_route, same_route, new_route, add_receipt, route_totals, route_lt,
  join_tasks, build_quality_metrics_snapshot,
}

-- two receipts of one route
abbrev pub same_key : Joined → Joined → Bool
same_key a b = same_route a (new_route b)

abbrev receipts_at : Joined → RouteMetrics → ℕ
receipts_at r m = if same_route r m then m.receipt_count else 0

pub fits : (x : Joined) → same_route x (new_route x) ≡ true
fits x =
    let a = x.receipt.cost_receipt.model_ref in
    let b = provider_value x.receipt.cost_receipt.provider_class in
    ground (arith, (=s=_iff a a).1 refl, (=s=_iff b b).1 refl)

same_route_add : (r x : Joined) (m : RouteMetrics) → same_route r (add_receipt x m) ≡ same_route r m
unfolding add_receipt
same_route_add r x m = ground arith

-- An entry that is of the route of `x` is of the route of `r` exactly if these are one.
same_route_via :
    (r x : Joined) (m : RouteMetrics) → same_route x m ≡ true → same_route r m ≡ same_key r x
same_route_via r x m h =
    let a = (=s=_iff x.receipt.cost_receipt.model_ref m.model_ref).0 (ground arith) in
    let b =
      (=s=_iff (provider_value x.receipt.cost_receipt.provider_class) m.provider_class).0
        (ground arith) in
    rw (a, b)

one_receipt :
    (x : Joined) (m : RouteMetrics) → (add_receipt x m).receipt_count ≡ 1 + m.receipt_count
unfolding add_receipt
one_receipt x m = ground arith

receipts_added :
    (r x : Joined) (m : RouteMetrics)
    → same_route x m ≡ true
    → receipts_at r (add_receipt x m) ≡ one_if (same_key r x) + receipts_at r m
receipts_added r x m h =
    let via = same_route_via r x m h in
    elim (Bool-cases (same_route r m)) [
      | inl yes_it ↦ rw (same_route_add r x m, yes_it, ← via, yes_it, one_receipt x m) refl
      | inr no_it ↦ rw (same_route_add r x m, no_it, ← via, no_it) refl
    ]

fresh : (r x : Joined) → receipts_at r (new_route x) ≡ 0
fresh r x = ground arith

-- No route is entered twice.
abbrev Once : List RouteMetrics → Type 0
Once ms = (r : Joined) → count (same_route r) ms ≤ 1

count-tally :
    (r x : Joined) (ms : List RouteMetrics)
    → count (same_route r) (tally same_route new_route add_receipt x ms)
      ≡ (if ltb 0 (count (same_route x) ms) then 0 else one_if (same_key r x))
        + count (same_route r) ms
unfolding count tally
count-tally r x [] = rw (same_route_add r x (new_route x)) (omega arith)
count-tally r x (m ∷ ms) = elim (Bool-cases (same_route x m)) [
  | inl yes_it ↦ rw (yes_it, same_route_add r x m) (ground arith)
  | inr no_it ↦ rw (no_it, count-tally r x ms) (ground arith)
]

same_key-count :
    (r x : Joined) (ms : List RouteMetrics)
    → same_key r x ≡ true
    → count (same_route r) ms ≡ count (same_route x) ms
unfolding count
same_key-count r x [] h = refl
same_key-count r x (m ∷ ms) h =
    let ref =
      (=s=_iff r.receipt.cost_receipt.model_ref x.receipt.cost_receipt.model_ref).0
        (ground arith) in
    let class =
      (=s=_iff (provider_value r.receipt.cost_receipt.provider_class)
          (provider_value x.receipt.cost_receipt.provider_class)).0
        (ground arith) in
    rw (ref, class, same_key-count r x ms h)

tally-Once :
    (x : Joined) (ms : List RouteMetrics)
    → Once ms
    → Once (tally same_route new_route add_receipt x ms)
tally-Once x ms once r = elim (Bool-cases (same_key r x)) [
  | inl same ↦ ground (arith, count-tally r x ms, once r, once x, same_key-count r x ms same)
  | inr other ↦ ground (arith, count-tally r x ms, once r)
]

tally_all-Once :
    (rows : List Joined) (ms : List RouteMetrics)
    → Once ms
    → Once (tally_all same_route new_route add_receipt rows ms)
unfolding tally_all
tally_all-Once [] ms once = once
tally_all-Once (x ∷ rows) ms once = tally_all-Once rows _ (tally-Once x ms once)

-- The routes of a snapshot are those of the receipts, each with its own number: whatever receipt `r` is
-- taken, at most one entry bears its model and provider, and the entries that do count exactly the
-- receipts of operational tasks that name this model and provider.
pub route_counts_exactly :
    (env : Env) (db : Db) (r : RoutingReceipt)
    → let q = build_quality_metrics_snapshot env db in
      (count (names r) q.routes ≤ 1)
      × (sum_of (λ m. if names r m then m.receipt_count else 0) q.routes
          ≡ count (λ other. is_counted db.tasks other && agrees r other) db.receipts)
unfolding build_quality_metrics_snapshot route_totals count sum_of
route_counts_exactly env db r =
    let x = row_of r 0 in
    let rows = join_tasks db.tasks db.receipts in
    let totals = route_totals rows in
    let once : count (same_route x) totals ≤ 1 =
      tally_all-Once (with_route rows) [] (λ y. omega arith) x in
    (
      rw (count-sort_by (same_route x) route_lt totals) once,
      sum_of-sort_by (receipts_at x) route_lt totals
          ∙ sum_of-tally_all same_route new_route add_receipt (receipts_at x)
              (λ y. one_if (same_key x y)) (fresh x) fits (receipts_added x) (with_route rows) []
          ∙ omega arith
          ∙ sum_of-join_tasks (λ y. one_if (same_key x y)) (λ other. one_if (agrees r other))
              db.tasks db.receipts (λ other attempts. refl)
          ∙ count-both (is_counted db.tasks) (agrees r) db.receipts,
    )
