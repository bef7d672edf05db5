-- ===== src/Examples/Displays.antt =====
-- Examples for the PandaOS projection.
use harness_golden_path.Prelude.{
  ◌≡◌, ◌≢◌, ◌≤◌, ◌<◌, refl, true, false, ◌&&◌, none, some, [], ◌∷◌, any, ◌==◌, leb, =s=_iff, arith,
}
use mathlib.Core.Logic.{◌↔◌}
use harness_golden_path.Contracts.{TaskStatus, blocked, may_move}
use harness_golden_path.Contracts.Events.{task_claimed}
use harness_golden_path.Store.Tables.{Db, Event, empty_db}
use harness_golden_path.Projection.{
  Formats, Row, completed, Checkpoint, Observed, noop, ignore_old, project_task, plan_projection,
}
use harness_golden_path.Projection.Snapshot.{snapshot_rows}
use harness_golden_path.Projection.Plan.{shown, checkpointed, plan_never_regresses, plan_idempotent}
use harness_golden_path.Projection.Display.{completed_iff_final}
use harness_golden_path.Projection.Coverage.{snapshot_complete}
use harness_golden_path.Examples.{running, task_with}

abbrev pub formats : Formats
formats = record {
  uuid_text = λ n. "uuid";
  iso = λ n. "time";
  target_fingerprint = λ subject status form. subject;
}

abbrev row : Row
row = record { task = running; source_event_id = 4 }

abbrev stuck : Row
stuck = record { task = task_with blocked [] none; source_event_id = 4 }

abbrev checkpoint : Checkpoint
checkpoint = record { panda_task_id = "p-1"; source_event_id = 3; fingerprint = "other" }

abbrev newer : Checkpoint
newer = record { panda_task_id = "p-1"; source_event_id = 9; fingerprint = "other" }

abbrev display : Observed
display = record { subject = "edited by hand"; status = completed; active_form = "" }

is_older : (project_task formats row).source_event_id < 9
unfolding project_task
is_older = ground arith

plan_never_regresses_example :
    (plan_projection formats (project_task formats row) (some newer) (some display)).action
    ≡ ignore_old
plan_never_regresses_example =
    (plan_never_regresses formats (project_task formats row) newer (some display)).1 is_older

plan_idempotent_example :
    (plan_projection formats
      (project_task formats row)
      (some (checkpointed (project_task formats row) "p-1"))
      (some (shown (project_task formats row)))).action
    ≡ noop
plan_idempotent_example = plan_idempotent formats row "p-1"

not_older : 3 ≤ (project_task formats row).source_event_id
unfolding project_task
not_older = ground arith

has_drifted :
    formats.target_fingerprint display.subject display.status display.active_form
    ≢ checkpoint.fingerprint
has_drifted e =
    let same : false ≡ true = (=s=_iff display.subject checkpoint.fingerprint).1 e in ground arith

completed_iff_final_example :
    ((project_task formats row).status ≡ completed)
    ↔ ((t : TaskStatus) → may_move row.task.status t ≡ false)
completed_iff_final_example = completed_iff_final formats row

wants_action : (project_task formats stuck).action_required ≡ true
unfolding project_task
wants_action = refl

abbrev claimed_event : Event
claimed_event = record {
  event_id = 4;
  task_id = 1;
  correlation_id = 7;
  event_type = task_claimed;
  payload = [];
  created_at = 0;
}

abbrev db : Db
db = record empty_db { tasks = running ∷ []; events = claimed_event ∷ [] }

snapshot_complete_example :
    any (λ r. (r.task.task_id == 1) && leb 4 r.source_event_id) (snapshot_rows 2 false db) ≡ true
snapshot_complete_example = (snapshot_complete formats 2 1 4 false db refl refl (ground arith)).1
