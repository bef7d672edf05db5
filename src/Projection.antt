-- ===== src/Projection.antt =====
-- src/harness/projection.py: the display contract for PandaOS. What the standard library formats or
-- hashes (UUIDs, times, sha256) is a parameter, since the code only passes it on and compares it.
pub mod Plan
pub mod Display
pub mod Snapshot
pub mod Coverage
use Prim.Native.String.{◌++◌ as ◌++ₛ◌}
use harness_golden_path.Prelude.{
  ℕ, String, Bool, true, false, not, ◌&&◌, Option, none, some, List, [], ◌∷◌, ◌=s=◌, ◌==◌, ltb,
  if◌then◌else◌, map,
}
use harness_golden_path.Contracts.{
  TaskStatus, ready, claimed, review, awaiting_approval, blocked, failed, done, cancelled,
  recovery_required, retry_wait, awaiting_decision, status_value, ProjectionKind, operational,
  evidence,
}
use harness_golden_path.Store.Tables.{Task}

pub data PandaStatus : Type 0 where
  pending in_progress completed : PandaStatus

-- `str(uuid)`, `datetime.isoformat`, and `_target_fingerprint`
pub record Formats : Type 0 where
  pub uuid_text : ℕ → String
  pub iso : ℕ → String
  pub target_fingerprint : String → PandaStatus → String → String

-- a row of the query of `pandaos_projection_snapshot`
pub record Row : Type 0 where
  pub task : Task
  pub source_event_id : ℕ

pub record PandaTask : Type 0 where
  pub projection_key : String
  pub harness_task_id : String
  pub correlation_id : String
  pub source_event_id : ℕ
  pub subject : String
  pub project : String
  pub status : PandaStatus
  pub active_form : String
  pub owner_instance : Option String
  pub attempt_count : ℕ
  pub approval_required : List String
  pub action_required : Bool
  pub is_proof : Bool
  pub fingerprint : String
  pub trace_ref : String

pub data Mode : Type 0 where
  incremental full : Mode

pub record Batch : Type 0 where
  pub mode : Mode
  pub from_event_id : ℕ
  pub through_event_id : ℕ
  pub tasks : List PandaTask

pub record Checkpoint : Type 0 where
  pub panda_task_id : String
  pub source_event_id : ℕ
  pub fingerprint : String

pub record Observed : Type 0 where
  pub subject : String
  pub status : PandaStatus
  pub active_form : String

pub data Action : Type 0 where
  create update repair advance_cursor noop ignore_old : Action

pub record Operation : Type 0 where
  pub action : Action
  pub reason : String
  pub projection : PandaTask
  pub panda_task_id : Option String

-- `_PANDA_STATUS`
unfoldable pub panda_status : TaskStatus → PandaStatus
panda_status claimed = PandaStatus.in_progress
panda_status TaskStatus.in_progress = PandaStatus.in_progress
panda_status review = PandaStatus.in_progress
panda_status done = completed
panda_status cancelled = completed
panda_status _ = pending

-- `status in _ACTION_STATES`
unfoldable pub needs_action : TaskStatus → Bool
needs_action awaiting_approval = true
needs_action awaiting_decision = true
needs_action blocked = true
needs_action failed = true
needs_action recovery_required = true
needs_action _ = false

-- `", ".join(texts)`
unfoldable pub join : List String → String
join [] = ""
join (s ∷ []) = s
join (s ∷ t ∷ rest) = s ++ₛ (", " ++ₛ join (t ∷ rest))

-- `text or default`, where the empty text is falsy
abbrev text_or : String → String → String
text_or s default = if s =s= "" then default else s

abbrev owner_or : Option String → String → String
owner_or none default = default
owner_or (some s) default = text_or s default

abbrev time_or : (ℕ → String) → Option ℕ → String → String
time_or iso none default = default
time_or iso (some t) default = text_or (iso t) default

-- `_active_form` of a task that is no evidence
unfoldable pub status_form : Formats → Task → TaskStatus → String
unfolding join
status_form f t ready = "Ready in Harness"
status_form f t claimed = "Running in Harness via " ++ₛ owner_or t.owner_instance "assigned worker"
status_form f t TaskStatus.in_progress =
    "Running in Harness via " ++ₛ owner_or t.owner_instance "assigned worker"
status_form f t review = "Review in Harness"
status_form f t awaiting_approval =
    "Awaiting Harness approval: " ++ₛ text_or (join t.approval_required) "decision"
status_form f t retry_wait =
    "Retry waiting until " ++ₛ time_or f.iso t.next_attempt_at "scheduled release"
status_form f t recovery_required = "Harness recovery decision required"
status_form f t awaiting_decision = "Human decision required in Harness"
status_form f t blocked = "Blocked in Harness"
status_form f t failed = "Failed in Harness"
status_form f t cancelled = "Cancelled in Harness"
status_form f t done = "Completed in Harness"

-- `_active_form`
unfoldable pub active_form : Formats → Task → Bool → String
unfolding status_form status_value
active_form f t is_proof =
    if is_proof
    then "Evidence fixture — Harness status: " ++ₛ status_value t.status
    else status_form f t t.status

abbrev is_evidence : ProjectionKind → Bool
is_evidence evidence = true
is_evidence operational = false

-- `project_task`
unfoldable pub project_task : Formats → Row → PandaTask
unfolding panda_status needs_action active_form
project_task f row =
    let t = row.task in
    let is_proof = is_evidence t.card.projection_kind in
    let form = active_form f t is_proof in
    record {
      projection_key = "harness:" ++ₛ f.uuid_text t.task_id;
      harness_task_id = f.uuid_text t.task_id;
      correlation_id = f.uuid_text t.correlation_id;
      source_event_id = row.source_event_id;
      subject = t.title;
      project = t.project;
      status = panda_status t.status;
      active_form = form;
      owner_instance = t.owner_instance;
      attempt_count = t.attempt_count;
      approval_required = t.approval_required;
      action_required = not is_proof && needs_action t.status;
      is_proof = is_proof;
      fingerprint = f.target_fingerprint t.title (panda_status t.status) form;
      trace_ref = "/v1/traces/" ++ₛ f.uuid_text t.correlation_id;
    }

-- `build_projection_batch`; `none` is ProjectionCursorError
unfoldable pub build_projection_batch : Formats → List Row → ℕ → ℕ → Bool → Option Batch
unfolding project_task
build_projection_batch f rows from_event_id through_event_id is_full =
    if ltb through_event_id from_event_id
    then none
    else some (record {
      mode = if is_full then full else incremental;
      from_event_id = from_event_id;
      through_event_id = through_event_id;
      tasks = map (project_task f) rows;
    })

abbrev operation : Action → String → PandaTask → Option String → Operation
operation action reason projection panda_task_id = record {
  action = action;
  reason = reason;
  projection = projection;
  panda_task_id = panda_task_id;
}

-- `observed is not None and observed_fingerprint != checkpoint.fingerprint`
abbrev drifted : Formats → Option Observed → String → Bool
drifted f none fingerprint = false
drifted f (some o) fingerprint =
    not (f.target_fingerprint o.subject o.status o.active_form =s= fingerprint)

-- `plan_projection` with a checkpoint
abbrev plan_from : Formats → PandaTask → Checkpoint → Option Observed → Operation
plan_from f p c observed =
    let same = p.fingerprint =s= c.fingerprint in
    if ltb p.source_event_id c.source_event_id
    then operation ignore_old "older_harness_event" p (some c.panda_task_id)
    else if drifted f observed c.fingerprint
    then operation repair "panda_projection_drift" p (some c.panda_task_id)
    else if p.source_event_id == c.source_event_id
    then (if same
        then operation noop "already_projected" p (some c.panda_task_id)
        else operation repair "same_event_content_drift" p (some c.panda_task_id))
    else if same
    then operation advance_cursor "display_unchanged" p (some c.panda_task_id)
    else operation update "new_harness_state" p (some c.panda_task_id)

-- `plan_projection`
unfoldable pub plan_projection :
    Formats → PandaTask → Option Checkpoint → Option Observed → Operation
plan_projection f p none observed = operation create "projection_missing" p none
plan_projection f p (some c) observed = plan_from f p c observed
