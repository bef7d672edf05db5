-- ===== src/Cockpit/Flow.antt =====
-- How the numbers of the cockpit's panels add up over the tables.
use harness_golden_path.Prelude.{
  ℕ, ◌+◌, ◌≤◌, ◌≡◌, refl, String, true, List, [], ◌∷◌, All, map, length, count, sum_of, one_if, ◌∙◌,
  ◌&&◌, tally_all, sum_of-sort_by, sum_of-tally_all, All-sort_by, All-tally_all, is_some, =s=_iff,
  arith,
}
use harness_golden_path.Contracts.{
  TaskStatus, ready, claimed, in_progress, review, awaiting_approval, blocked, failed, done,
  cancelled, recovery_required, retry_wait, awaiting_decision, status_value, ◌is◌,
}
use harness_golden_path.Policy.{Catalog, RoutingPolicy}
use harness_golden_path.Store.Tables.{Task, Db}
use harness_golden_path.Store.Actions.{Env, is_execution}
use harness_golden_path.Cockpit.Models.{WorkerRow}
use harness_golden_path.Cockpit.Rows.{
  Collation, Owned, owned_tasks, same_worker, new_worker, add_task, worker_lt, worker_rows,
  all_statuses, status_counts,
}
use harness_golden_path.Cockpit.Panels.{flow_panel, build_cockpit_snapshot}

-- A task has one of the statuses that are counted.
one_status : (s : TaskStatus) → sum_of (λ x. one_if (s is x)) all_statuses ≡ 1
unfolding sum_of ◌is◌
one_status ready = refl
one_status claimed = refl
one_status in_progress = refl
one_status review = refl
one_status awaiting_approval = refl
one_status blocked = refl
one_status failed = refl
one_status done = refl
one_status cancelled = refl
one_status recovery_required = refl
one_status retry_wait = refl
one_status awaiting_decision = refl

counted : List TaskStatus → List Task → ℕ
counted statuses tasks = sum_of (λ s. count (λ t. t.status is s) tasks) statuses

counted-cons :
    (statuses : List TaskStatus) (t : Task) (ts : List Task)
    → counted statuses (t ∷ ts)
      ≡ sum_of (λ s. one_if (t.status is s)) statuses + counted statuses ts
unfolding counted sum_of count
counted-cons [] t ts = refl
counted-cons (s ∷ ss) t ts = omega (arith, counted-cons ss t ts)

counted_none : (statuses : List TaskStatus) → counted statuses [] ≡ 0
unfolding counted sum_of count
counted_none [] = refl
counted_none (s ∷ ss) = omega (arith, counted_none ss)

counted_all : (tasks : List Task) → counted all_statuses tasks ≡ length tasks
counted_all [] = counted_none all_statuses
counted_all (t ∷ ts) =
    omega (arith, counted-cons all_statuses t ts, one_status t.status, counted_all ts)

sum-map :
    (tasks : List Task) (statuses : List TaskStatus)
    → sum_of {A = String × ℕ}
        (λ e. e.1)
        (map (λ s. (status_value s, count (λ t. t.status is s) tasks)) statuses)
      ≡ counted statuses tasks
unfolding sum_of counted
sum-map tasks [] = refl
sum-map tasks (s ∷ ss) = omega (arith, sum-map tasks ss)

same_new : (o : Owned) → same_worker o (new_worker o) ≡ true
same_new o =
    let a = o.task.owner_role in
    let b = o.owner_instance in ground (arith, (=s=_iff a a).1 refl, (=s=_iff b b).1 refl)

-- A total over the workers is the total over the tasks that have an owner.
module _ (lt : Collation) (measure : WorkerRow → ℕ) (weight : Owned → ℕ)
    (fresh : (o : Owned) → measure (new_worker o) ≡ 0)
    (adds : (o : Owned) (w : WorkerRow) → measure (add_task o w) ≡ weight o + measure w) where
  sum_over_workers :
      (tasks : List Task)
      → sum_of measure (worker_rows lt tasks) ≡ sum_of weight (owned_tasks tasks)
  unfolding worker_rows sum_of
  sum_over_workers tasks =
      rw
        (
          sum_of-sort_by measure (worker_lt lt)
              (tally_all same_worker new_worker add_task (owned_tasks tasks) []),
          sum_of-tally_all same_worker new_worker add_task measure weight fresh same_new
              (λ o w h. adds o w) (owned_tasks tasks) [],
        )
        (omega arith)

one_task : (o : Owned) (w : WorkerRow) → (add_task o w).task_count ≡ 1 + w.task_count
unfolding add_task
one_task o w = refl

one_active :
    (o : Owned) (w : WorkerRow)
    → (add_task o w).active_task_count ≡ one_if (is_execution o.task.status) + w.active_task_count
unfolding add_task
one_active o w = refl

owned_count :
    (tasks : List Task)
    → sum_of (λ o. 1) (owned_tasks tasks) ≡ count (λ t. is_some t.owner_instance) tasks
unfolding owned_tasks sum_of count
owned_count [] = refl
owned_count (t ∷ ts) = ground (arith, owned_count ts)

owned_active :
    (tasks : List Task)
    → sum_of (λ o. one_if (is_execution o.task.status)) (owned_tasks tasks)
      ≡ count (λ t. is_some t.owner_instance && is_execution t.status) tasks
unfolding owned_tasks sum_of count
owned_active [] = refl
owned_active (t ∷ ts) = ground (arith, owned_active ts)

abbrev ActiveWithin : WorkerRow → Type 0
ActiveWithin w = w.active_task_count ≤ w.task_count

add_task-ActiveWithin : (o : Owned) (w : WorkerRow) → ActiveWithin w → ActiveWithin (add_task o w)
unfolding add_task
add_task-ActiveWithin o w h = ground arith

-- The cockpit counts every task once: the numbers by status sum up to the number of tasks, the tasks of
-- the workers to the tasks that have an owner, and their active tasks to the owned tasks in execution;
-- and no worker has more active tasks than tasks.
pub panels_account :
    (lt : Collation) (env : Env) (db : Db) (models : Catalog) (policy : RoutingPolicy)
    → let panels = (build_cockpit_snapshot lt env db models policy).panels in
      (panels.flow.content.task_count ≡ length db.tasks)
      × (sum_of (λ w. w.task_count) panels.workers.content
          ≡ count (λ t. is_some t.owner_instance) db.tasks)
      × (sum_of (λ w. w.active_task_count) panels.workers.content
          ≡ count (λ t. is_some t.owner_instance && is_execution t.status) db.tasks)
      × All ActiveWithin panels.workers.content
unfolding build_cockpit_snapshot flow_panel status_counts worker_rows
panels_account lt env db models policy = (
  sum-map db.tasks all_statuses ∙ counted_all db.tasks,
  sum_over_workers lt (λ w. w.task_count) (λ o. 1) (λ o. refl) one_task db.tasks
      ∙ owned_count db.tasks,
  sum_over_workers lt (λ w. w.active_task_count) (λ o. one_if (is_execution o.task.status))
        (λ o. refl) one_active db.tasks
      ∙ owned_active db.tasks,
  All-sort_by ActiveWithin (worker_lt lt)
      (tally_all same_worker new_worker add_task (owned_tasks db.tasks) [])
      (All-tally_all same_worker new_worker add_task ActiveWithin (λ o. omega arith)
        add_task-ActiveWithin (owned_tasks db.tasks) [] tt),
)
