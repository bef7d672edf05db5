-- ===== src/Watcher/Pilot.antt =====
-- src/harness/nas_watcher.py: `build_pilot_task`, `_token_from_environment` and `main`. The parsers of
-- Python (`UUID`, `datetime.fromisoformat`, `int`) are parameters, which give nothing where they raise.
use Prim.Native.String.{◌++◌ as ◌++ₛ◌}
use harness_golden_path.Prelude.{
  ℕ, ℤ, String, Bool, Option, none, some, [], ◌∷◌, ◌=s=◌, ltb, length, codes, if◌then◌else◌,
}
use harness_golden_path.Contracts.{hermes_nas, local_model, internal, operational}
use harness_golden_path.Contracts.Models.{TaskCard}
use harness_golden_path.Auth.{Files, strip}
use harness_golden_path.App.Http.{create_task, Body, created_body}
use harness_golden_path.Watcher.Client.{
  Worker, Result, returned, raised, out_of_fuel, authentication_revoked, invalid_token,
  invalid_mode, value_error, key_error, os_error, pure, raise, require, ◌>>=◌, World, public_probe,
  request,
}
use harness_golden_path.Watcher.Run.{Moment, NasWatcher, init_watcher, run}

-- the text of the idempotency key, for the text of the task id
unfoldable pub pilot_key : String → String
pilot_key task_id = "sha256:p2-4:nas-readonly:" ++ₛ task_id

-- `build_pilot_task`, as the model that the API reads from it
unfoldable pub build_pilot_task : (ℕ → String) → ℕ → ℕ → TaskCard
unfolding pilot_key
build_pilot_task uuid_text task_id correlation_id = record {
  task_id = task_id;
  correlation_id = correlation_id;
  title = "P2-4 seven-day NAS read-only watcher pilot";
  project = "harness-golden-path";
  task_class = "read_only_monitor";
  data_classification = internal;
  projection_kind = operational;
  owner_role = hermes_nas;
  objective =
      "Run allowlisted read-only repository and CI probes from Hermes NAS, while maintaining a visible Harness lease for seven days.";
  scope = record {
    include =
        "Harness health and lease heartbeat"
        ∷ "Public GitHub metadata for visualfox-ch/harness-golden-path" ∷ [];
    exclude =
        "Repository writes" ∷ "Docker socket access" ∷ "Deployments" ∷ "Secret or IAM changes" ∷ [];
  };
  acceptance =
      "Worker emits timestamped reports for the configured pilot window"
      ∷ "Harness records lease heartbeats from svc-hermes-nas"
      ∷ "No repository or infrastructure write capability is present" ∷ [];
  budget = record {
    max_runtime_minutes = 10080;
    max_attempts = 2;
    max_incremental_cloud_cost_chf = 0;
  };
  model_routing = record {
    permitted_provider_classes = local_model ∷ [];
    default_route = "deterministic_monitor" ∷ [];
  };
  idempotency_key = pilot_key (uuid_text task_id);
  approval_required = [];
}

pub record Parsers : Type 0 where
  pub uuid : String → Option ℕ
  pub moment : String → Option Moment
  pub int : String → Option ℤ

-- the process: its mode (`sys.argv[1]`, or "run"), its variables, its files
pub record Process : Type 0 where
  pub mode : String
  pub environ : String → Option String
  pub files : Files
  pub parsers : Parsers

-- how `main` returns: what it prints, with its exit code
pub data Exit : Type 0 where
  seeded : Bool → ℕ → Exit
  finished revoked : Exit

unfoldable pub exit_code : Exit → ℕ
exit_code (seeded _ _) = 0
exit_code finished = 0
exit_code revoked = 3

abbrev or_default : String → Option String → String
or_default default none = default
or_default default (some text) = text

-- `result["created"]` and `result["task"]["task_id"]`
abbrev pub seed_exit : Body → Option Exit
seed_exit (created_body task is_new) = some (seeded is_new task.task_id)
seed_exit _ = none

-- `os.environ.get(name, default)`
abbrev variable_or : Process → String → String → String
variable_or process name default = or_default default (process.environ name)

module _ {W : Type 0} (process : Process) where
  -- `os.environ[name]`
  abbrev variable : String → Worker W String
  variable name = require (process.environ name) key_error

  abbrev parse : {A : Type 0} → (String → Option A) → String → Worker W A
  parse read text = require (read text) value_error

  abbrev long_enough : String → Worker W String
  long_enough token = if ltb (length (codes token)) 32 then raise invalid_token else pure token

  -- `_token_from_environment`
  unfoldable pub token_from_environment : String → Worker W String
  unfolding strip
  token_from_environment env_name = do
    path ← variable env_name
    text ← require (process.files path) os_error
    long_enough (strip text)

  abbrev lift : {A : Type 0} → Result A → Worker W A
  lift r w = (r, w)

  abbrev on_revoked : Result Body × W → Result Exit × W
  on_revoked (returned body, w) = (returned finished, w)
  on_revoked (raised authentication_revoked, w) = (returned revoked, w)
  on_revoked (raised e, w) = (raised e, w)
  on_revoked (out_of_fuel, w) = (out_of_fuel, w)

  -- `main` with the mode "seed"
  unfoldable pub seed : World W → Worker W Exit
  unfolding token_from_environment build_pilot_task request
  seed world = do
    token ← token_from_environment "HARNESS_ORCHESTRATOR_TOKEN_FILE"
    task_text ← variable "HARNESS_TASK_ID"
    task_id ← parse process.parsers.uuid task_text
    correlation_text ← variable "HARNESS_CORRELATION_ID"
    correlation_id ← parse process.parsers.uuid correlation_text
    body ←
        request world token (create_task (build_pilot_task world.uuid_text task_id correlation_id))
          ""
    require (seed_exit body) key_error

  -- the watcher that `main` builds
  unfoldable pub configured_watcher : Worker W NasWatcher
  unfolding token_from_environment public_probe init_watcher
  configured_watcher = do
    token ← token_from_environment "HARNESS_NAS_WORKER_TOKEN_FILE"
    repository ← lift (public_probe "visualfox-ch/harness-golden-path")
    task_id ← variable "HARNESS_TASK_ID"
    end_text ← variable "PILOT_END_AT"
    end_at ← parse process.parsers.moment end_text
    interval ← parse process.parsers.int (variable_or process "PILOT_INTERVAL_SECONDS" "300")
    lease ← parse process.parsers.int (variable_or process "HARNESS_LEASE_MINUTES" "10")
    uuid ← parse process.parsers.uuid task_id
    lift (
        init_watcher (record {
          token = token;
          repository = repository;
          task_id = task_id;
          uuid = uuid;
          worker_id = variable_or process "HARNESS_WORKER_ID" "svc-hermes-nas:p2-4";
          end_at = end_at;
          interval_seconds = interval;
          lease_minutes = lease;
        }))

  abbrev watch_over : World W → ℕ → Worker W Exit
  watch_over world fuel = configured_watcher >>= λ watcher w. on_revoked (run world watcher fuel w)

  -- `main`
  unfoldable pub main : World W → ℕ → Worker W Exit
  unfolding seed configured_watcher run
  main world fuel =
      if process.mode =s= "seed"
      then seed world
      else if process.mode =s= "run"
      then watch_over world fuel
      else raise invalid_mode
