-- ===== src/Metrics/Sums.antt =====
-- How the numbers of a snapshot of src/harness/metrics.py add up.
use harness_golden_path.Prelude.{
  ℕ, ◌+◌, ◌≤◌, ◌<◌, ◌≡◌, refl, inl, inr, Bool-cases, some, List, [], ◌∷◌, length, count, one_if,
  ◌==◌, ==_iff, arith,
}
use harness_golden_path.Contracts.Models.{CheckState}
use harness_golden_path.Store.Tables.{Db}
use harness_golden_path.Store.Actions.{Env}
use harness_golden_path.Metrics.{
  Joined, StateCounts, QualityMetricsSnapshot, available, unavailable, rate_metric, first_pass,
  retried, is_passed, is_failed, is_not_run, lint_states, tests_states, receipts_of, state_counts,
  validation_checks, join_tasks, build_quality_metrics_snapshot,
}

-- One receipt is no first pass and a retry at once.
apart : (row : Joined) → one_if (first_pass row) + one_if (retried row) ≤ 1
unfolding first_pass
apart row = ground arith

counts_apart : (rows : List Joined) → count first_pass rows + count retried rows ≤ length rows
unfolding count
counts_apart [] = omega arith
counts_apart (row ∷ rows) = omega (arith, apart row, counts_apart rows)

abbrev total : StateCounts → ℕ
total c = c.passed + c.failed + c.not_run

one_state :
    (c : CheckState) → one_if (is_passed c) + one_if (is_failed c) + one_if (is_not_run c) ≡ 1
one_state CheckState.passed = refl
one_state CheckState.failed = refl
one_state CheckState.not_run = refl

total-state_counts : (states : List CheckState) → total (state_counts states) ≡ length states
unfolding state_counts count
total-state_counts [] = refl
total-state_counts (c ∷ states) = omega (arith, one_state c, total-state_counts states)

length-lint : (rows : List Joined) → length (lint_states (receipts_of rows)) ≡ length rows
unfolding lint_states receipts_of
length-lint [] = refl
length-lint (row ∷ rows) = omega (arith, length-lint rows)

length-tests : (rows : List Joined) → length (tests_states (receipts_of rows)) ≡ length rows
unfolding tests_states receipts_of
length-tests [] = refl
length-tests (row ∷ rows) = omega (arith, length-tests rows)

-- The three states of a check account for every receipt that the snapshot counts, for `lint` and for
-- `tests`.
pub checks_account :
    (env : Env) (db : Db)
    → let q = build_quality_metrics_snapshot env db in
      (total q.validation_checks.lint ≡ q.receipt_count)
      × (total q.validation_checks.tests ≡ q.receipt_count)
unfolding build_quality_metrics_snapshot validation_checks
checks_account env db =
    let rows = join_tasks db.tasks db.receipts in
    (
      omega (arith, total-state_counts (lint_states (receipts_of rows)), length-lint rows),
      omega (arith, total-state_counts (tests_states (receipts_of rows)), length-tests rows),
    )

-- The rates are withheld exactly where there is no receipt.
pub data Rates (q : QualityMetricsSnapshot) : Type 0 where
  withheld :
      q.receipt_count ≡ 0
      → q.first_pass_rate.status ≡ unavailable
      → q.retry_rate.status ≡ unavailable
      → Rates q
  given :
      (passes retries : ℕ)
      → 0 < q.receipt_count
      → q.first_pass_rate.status ≡ available
      → q.first_pass_rate.numerator ≡ some passes
      → q.first_pass_rate.denominator ≡ some q.receipt_count
      → q.retry_rate.status ≡ available
      → q.retry_rate.numerator ≡ some retries
      → q.retry_rate.denominator ≡ some q.receipt_count
      → passes + retries ≤ q.receipt_count
      → Rates q

-- Where no operational receipt is stored, both rates are unavailable. Otherwise both are fractions of
-- the number of receipts, which is not zero, and a receipt counts for one of them at most: the first
-- passes and the retried receipts are together no more than the receipts.
pub fractions_are_proper : (env : Env) (db : Db) → Rates (build_quality_metrics_snapshot env db)
unfolding build_quality_metrics_snapshot rate_metric
fractions_are_proper env db =
    let rows = join_tasks db.tasks db.receipts in
    elim (Bool-cases (length rows == 0)) [
      | inl empty ↦ withheld ((==_iff _ _).0 empty) (rw empty) (rw empty)
      | inr some_rows ↦
          given (count first_pass rows) (count retried rows) (ground arith) (rw some_rows)
            (rw some_rows) (rw some_rows) (rw some_rows) (rw some_rows) (rw some_rows)
            (counts_apart rows)
    ]
