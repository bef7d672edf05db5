-- ===== src/Watcher/Run.antt =====
-- src/harness/nas_watcher.py: `NasWatcher`.
use Prim.Native.String.{◌++◌ as ◌++ₛ◌}
use text.Mathlib.Text.{starts_with}
use harness_golden_path.Prelude.{
  ℕ, zero, suc, ◌+◌, ℤ, pos, negsuc, String, Bool, true, false, not, ◌&&◌, ◌||◌, Option, none, some,
  opt_is, ltb, if◌then◌else◌,
}
use harness_golden_path.Contracts.{claimed, in_progress, ◌is◌}
use harness_golden_path.Store.Tables.{Task}
use harness_golden_path.App.Http.{Endpoint, get_task, claim, heartbeat, receipts, Body}
use harness_golden_path.Watcher.Client.{
  Worker, Result, returned, raised, out_of_fuel, Failure, claim_conflict, not_owned, value_error,
  key_error, require, ◌>>=◌, ◌>>◌, World, Report, Checks, task_of, pilot_receipt, request, collect,
}

-- `end_at` as `datetime.fromisoformat` gives it
pub record Moment : Type 0 where
  pub microseconds : ℕ
  pub has_zone : Bool

-- The fields of a watcher and of its client and probe. `uuid` is the number of `task_id`.
pub record NasWatcher : Type 0 where
  pub token : String
  pub repository : String
  pub task_id : String
  pub uuid : ℕ
  pub worker_id : String
  pub end_at : Moment
  pub interval_seconds : ℤ
  pub lease_minutes : ℤ

-- the tests of `NasWatcher.__init__`; `UUID(task_id)` has given `uuid`
unfoldable pub init_watcher : NasWatcher → Result NasWatcher
init_watcher watcher =
    if not (starts_with watcher.worker_id "svc-hermes-nas:")
    then raised value_error
    else if not watcher.end_at.has_zone
    then raised value_error
    else returned watcher

-- the test of `_claim_or_resume` on the task that is read
unfoldable pub is_resumable : String → Option Task → Bool
is_resumable worker_id none = false
is_resumable worker_id (some task) =
    opt_is task.owner_instance worker_id
    && ((task.status is claimed) || (task.status is in_progress))

-- the report of a cycle
abbrev pub report_of : NasWatcher → ℕ → Checks → Report
report_of watcher timestamp checks = record {
  timestamp = timestamp;
  task_id = watcher.task_id;
  worker_id = watcher.worker_id;
  checks = checks;
}

-- ClaimConflict
abbrev pub is_conflict : Failure → Bool
is_conflict claim_conflict = true
is_conflict _ = false

module _ {W : Type 0} (world : World W) (watcher : NasWatcher) where
  -- a method of the client that names the task in its path
  abbrev pub request_task : Endpoint → Worker W Body
  request_task endpoint = request world watcher.token endpoint watcher.task_id

  abbrev pub keep_if : Bool → Body → Worker W Body
  keep_if true body w = (returned body, w)
  keep_if false body w = (raised not_owned, w)

  -- `except ClaimConflict`
  abbrev pub resume : Worker W Body
  resume = do
    body ← request_task (get_task watcher.uuid)
    keep_if (is_resumable watcher.worker_id (task_of body)) body

  abbrev pub on_conflict : Result Body × W → Result Body × W
  on_conflict (returned body, w) = (returned body, w)
  on_conflict (raised e, w) = if is_conflict e then resume w else (raised e, w)
  on_conflict (out_of_fuel, w) = (out_of_fuel, w)

  -- `_claim_or_resume`
  unfoldable pub claim_or_resume : Worker W Body
  unfolding request is_resumable
  claim_or_resume w = on_conflict (
      request_task
        (claim watcher.uuid (record {
          owner_role = "hermes_nas";
          worker_id = watcher.worker_id;
          lease_minutes = watcher.lease_minutes;
        }))
        w)

  -- `self.sleeper(self.interval_seconds)`
  abbrev pub sleep : ℤ → Worker W (Unit {0})
  sleep (pos seconds) w = (returned tt, world.sleeper seconds w)
  sleep (negsuc _) w = (raised value_error, w)

  abbrev pub tell : Report → Worker W (Unit {0})
  tell report w = (returned tt, world.emit report w)

  abbrev pub clock : Worker W ℕ
  clock w = (returned (world.clock w), w)

  -- one pass through the body of the loop
  unfoldable pub cycle : Worker W (Unit {0})
  unfolding request collect
  cycle = do
    request_task (
        heartbeat watcher.uuid
          (record { worker_id = watcher.worker_id; lease_minutes = watcher.lease_minutes }))
    timestamp ← clock
    checks ← collect world watcher.repository
    tell (report_of watcher timestamp checks)
    sleep watcher.interval_seconds

  -- `while self.clock() < self.end_at`, with the number of cycles that it counts
  unfoldable pub watch : ℕ → ℕ → Worker W ℕ
  unfolding cycle
  watch zero cycles w = (out_of_fuel, w)
  watch (suc fuel) cycles w =
      let next = watch fuel (cycles + 1) in
      if ltb (world.clock w) watcher.end_at.microseconds
      then (cycle >> next) w
      else (returned cycles, w)

  -- `client.submit_receipt(task, worker_id, …)`
  unfoldable pub submit_receipt : Body → ℕ → Worker W Body
  unfolding request pilot_receipt
  submit_receipt body cycles = do
    task ← require (task_of body) key_error
    request world watcher.token
        (receipts task.task_id (
          pilot_receipt task watcher.worker_id (
            "P2-4 read-only pilot completed with "
            ++ₛ (world.decimal cycles ++ₛ " heartbeat/report cycles."))))
        (world.uuid_text task.task_id)

  -- `run`
  unfoldable pub run : ℕ → Worker W Body
  unfolding claim_or_resume watch submit_receipt
  run fuel = do task ← claim_or_resume; cycles ← watch fuel 0; submit_receipt task cycles
