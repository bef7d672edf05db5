-- ===== src/Store/Identity.antt =====
-- The primary key of agent_tasks under the calls of src/harness/store.py.
use harness_golden_path.Prelude.{◌≡◌, refl, ==_iff, false, ◌&&◌, List, [], ◌∷◌, ◌++◌, any, arith}
use harness_golden_path.Contracts.{◌is◌}
use harness_golden_path.Store.Tables.{Task, State}
use harness_golden_path.Store.Actions.{Env, by_id, with_status}
use harness_golden_path.Store.Lifecycle.{new_task}
use harness_golden_path.Store.Leases.{
  can_claim, take_claim, holds_lease, renew, lease_expired_at, to_recovery,
}
use harness_golden_path.Store.Failures.{schedule, is_due, release}
use harness_golden_path.Store.Requests.{Request, run}
use harness_golden_path.Store.Rows.{UniqueIds, find-append, update-UniqueIds}
use harness_golden_path.Store.Moves.{with_status-id}
use harness_golden_path.Store.Keeps.{Anyone, Laws}
use harness_golden_path.Store.Keeps.Calls.{run_keeps}

append-UniqueIds :
    (tasks : List Task) (new : Task)
    → any (by_id new.task_id) tasks ≡ false
    → UniqueIds tasks
    → UniqueIds (tasks ++ new ∷ [])
append-UniqueIds [] new h u = (refl, tt)
append-UniqueIds (t ∷ tasks) new h u = (
  ground (
    arith,
    find-append t.task_id tasks new,
    u.0,
    ==_iff t.task_id new.task_id,
    ==_iff new.task_id t.task_id,
  ),
  append-UniqueIds tasks new (ground arith) u.1,
)

unique_laws : Laws Anyone (λ db. UniqueIds db.tasks)
unfolding take_claim renew to_recovery release with_status schedule
unique_laws = record {
  elsewhere = λ db db' t e h. rw t h;
  logged = λ db new h. h;
  moved = λ db id expected target legal h.
      update-UniqueIds (λ t. by_id id t && (t.status is expected)) (with_status target)
        (with_status-id target) db.tasks h;
  scheduled =
      λ db id at c key h. update-UniqueIds (by_id id) (schedule at c key) (λ t. refl) db.tasks h;
  taken = λ db id now circuits role worker minutes h.
      update-UniqueIds (λ t. by_id id t && can_claim now circuits t)
        (take_claim now role worker minutes) (λ t. refl) db.tasks h;
  renewed = λ db id now worker minutes h.
      update-UniqueIds (λ t. by_id id t && holds_lease now worker t) (renew now minutes) (λ t. refl)
        db.tasks h;
  expired = λ db now h. update-UniqueIds (lease_expired_at now) to_recovery (λ t. refl) db.tasks h;
  released =
      λ db now circuits h. update-UniqueIds (is_due now circuits) release (λ t. refl) db.tasks h;
  created =
      λ db env card ref admitted new h. append-UniqueIds db.tasks (new_task env card ref) new h;
}

-- Where no two rows of agent_tasks share an id, none do after any run of calls.
pub run_unique :
    (calls : List (Env × Request)) (s : State)
    → UniqueIds s.db.tasks
    → UniqueIds (run calls s).db.tasks
run_unique calls s u = run_keeps (λ db. UniqueIds db.tasks) unique_laws calls s u
