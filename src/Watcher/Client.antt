-- ===== src/Watcher/Client.antt =====
-- src/harness/nas_watcher.py: `HarnessClient` and the probe. A function of the worker takes the state `W`
-- of what surrounds it (network, clock, output) and leaves the next one, with a value or an exception.
-- What the worker meets there is not the repository's code: `World` has it as functions.
use Prim.Native.String.{◌++◌ as ◌++ₛ◌}
use harness_golden_path.Prelude.{
  ℕ, String, Bool, false, Option, none, some, List, [], ◌∷◌, ◌==◌, ◌=s=◌, ltb, if◌then◌else◌,
}
use harness_golden_path.Contracts.{local_model}
use harness_golden_path.Contracts.Models.{ResultReceipt, completed, passed, not_run, unavailable}
use harness_golden_path.App.Http.{Endpoint, Response, Body, task_body}
use harness_golden_path.Store.Tables.{Task}

-- The exceptions of the worker. `http_error` and the three below it are `WorkerError`; the last are
-- Python's.
pub data Failure : Type 0 where
  authentication_revoked claim_conflict : Failure
  http_error : ℕ → Failure
  harness_unavailable not_owned probe_failed invalid_token invalid_mode : Failure
  value_error key_error index_error os_error : Failure

-- `out_of_fuel` is of the model: the loop was not followed to its end.
pub data Result (A : Type 0) : Type 0 where
  returned : A → Result A
  raised : Failure → Result A
  out_of_fuel : Result A

abbrev pub Worker : Type 0 → Type 0 → Type 0
Worker W A = W → Result A × W

abbrev or_else_raise : {A : Type 0} → Failure → Option A → Result A
or_else_raise e none = raised e
or_else_raise e (some a) = returned a

module _ {W : Type 0} where
  module _ {A : Type 0} where
    abbrev pub pure : A → Worker W A
    pure a w = (returned a, w)

    abbrev pub raise : Failure → Worker W A
    raise e w = (raised e, w)

    -- `if test: raise e`
    abbrev pub reject_if : Bool → Failure → A → Worker W A
    reject_if test e a w = ((if test then raised e else returned a), w)

    -- a key or an index that may be missing
    abbrev pub require : Option A → Failure → Worker W A
    require a e w = (or_else_raise e a, w)

  module _ {A B : Type 0} where
    abbrev pub continue : (A → Worker W B) → W → Result A → Result B × W
    continue f w (returned a) = f a w
    continue f w (raised e) = (raised e, w)
    continue f w out_of_fuel = (out_of_fuel, w)

infixl 5 ◌>>=◌ ◌>>◌
abbrev pub ◌>>=◌ : {W A B : Type 0} → Worker W A → (A → Worker W B) → Worker W B
◌>>=◌ m f w = let (r, w') = m w in continue f w' r

abbrev pub ◌>>◌ : {W A B : Type 0} → Worker W A → Worker W B → Worker W B
m >> k = m >>= λ _. k

-- An HTTP request, with the text that stands in its path.
pub record Call : Type 0 where
  pub endpoint : Endpoint
  pub path_text : String
  pub authorization : String

-- URLError or TimeoutError where the server is not reached
pub data Reply : Type 0 where
  answered : Response → Reply
  unreachable : Reply

-- one entry of `workflow_runs`; a field that is null differs from one that is missing
pub record WorkflowRun : Type 0 where
  pub id : Option ℕ
  pub status : Option (Option String)
  pub conclusion : Option (Option String)

-- a JSON document of the GitHub API, with the keys that `collect` reads
pub record Document : Type 0 where
  pub sha : Option String
  pub workflow_runs : Option (List WorkflowRun)

pub record Checks : Type 0 where
  pub repository : String
  pub head_sha : String
  pub ci_run_id : Option ℕ
  pub ci_status : Option String
  pub ci_conclusion : Option String

pub record Report : Type 0 where
  pub timestamp : ℕ
  pub task_id : String
  pub worker_id : String
  pub checks : Checks

-- What surrounds the worker: `urlopen` for the API, and for a document (nothing where `_public_json`
-- catches its exception), the clock in microseconds, `sleeper` in seconds, `emit`, and `str` of a
-- number and of a UUID.
pub record World (W : Type 0) : Type 0 where
  pub urlopen : Call → W → Reply × W
  pub document : String → W → Option Document × W
  pub clock : W → ℕ
  pub sleeper : ℕ → W → W
  pub emit : Report → W → W
  pub decimal : ℕ → String
  pub uuid_text : ℕ → String

-- `_request`: what the reply becomes
unfoldable pub read_reply : Reply → Result Body
read_reply unreachable = raised harness_unavailable
read_reply (answered r) =
    if ltb r.status_code 400
    then returned r.body
    else if r.status_code == 401
    then raised authentication_revoked
    else if r.status_code == 409
    then raised claim_conflict
    else raised (http_error r.status_code)

-- a task as the JSON of the API holds it
abbrev pub task_of : Body → Option Task
task_of (task_body task) = some task
task_of _ = none

-- the receipt of `submit_receipt`; the artifacts are the default of the model
unfoldable pub pilot_receipt : Task → String → String → ResultReceipt
pilot_receipt task worker_id summary = record {
  task_id = task.task_id;
  correlation_id = task.correlation_id;
  worker_instance = worker_id;
  outcome = completed;
  summary = summary;
  artifacts = record {
    branch = none;
    worktree_ref = none;
    commit_sha = none;
    pull_request = none;
    test_report = none;
  };
  validation = record {
    lint = not_run;
    tests = passed;
    details = "Allowlisted read-only probes completed for the pilot window.";
  };
  cost_receipt = record {
    provider_class = local_model;
    model_ref = "deterministic_monitor";
    incremental_cost_chf = 0;
    subscription_quota_consumed = false;
    quota_status = unavailable;
  };
}

abbrev pub no_run : WorkflowRun
no_run = record { id = none; status = none; conclusion = none }

-- `runs.get("workflow_runs", [{}])[0]`
abbrev pub latest_run : Option (List WorkflowRun) → Option WorkflowRun
latest_run none = some no_run
latest_run (some []) = none
latest_run (some (run ∷ _)) = some run

-- `latest.get(key, "unavailable")`
abbrev pub or_unavailable : Option (Option String) → Option String
or_unavailable none = some "unavailable"
or_unavailable (some value) = value

-- the answer of `collect`
abbrev pub checks_of : String → String → WorkflowRun → Checks
checks_of repository head_sha latest = record {
  repository = repository;
  head_sha = head_sha;
  ci_run_id = latest.id;
  ci_status = or_unavailable latest.status;
  ci_conclusion = or_unavailable latest.conclusion;
}

abbrev pub probe_result : Option Document → Result Document
probe_result none = raised probe_failed
probe_result (some document) = returned document

-- `PublicGitHubProbe.__init__`; the allowed name matches the pattern too
unfoldable pub public_probe : String → Result String
public_probe repository =
    if repository =s= "visualfox-ch/harness-golden-path"
    then returned repository
    else raised value_error

module _ {W : Type 0} (world : World W) where
  -- `HarnessClient._request`
  unfoldable pub request : String → Endpoint → String → Worker W Body
  unfolding read_reply
  request token endpoint path_text w =
      let (reply, w') =
        world.urlopen
          (record {
            endpoint = endpoint;
            path_text = path_text;
            authorization = "Bearer " ++ₛ token;
          })
          w in
      (read_reply reply, w')

  -- `_public_json`
  unfoldable pub public_json : String → Worker W Document
  public_json url w = let (found, w') = world.document url w in (probe_result found, w')

  -- `PublicGitHubProbe.collect`
  unfoldable pub collect : String → Worker W Checks
  unfolding public_json
  collect repository = do
    commit ← public_json ("https://api.github.com/repos/" ++ₛ (repository ++ₛ "/commits/main"))
    runs ←
        public_json
          ("https://api.github.com/repos/" ++ₛ (repository ++ₛ "/actions/runs?per_page=1"))
    latest ← require (latest_run runs.workflow_runs) index_error
    head_sha ← require commit.sha key_error
    pure (checks_of repository head_sha latest)
