-- ===== src/Projection/Plan.antt =====
-- `plan_projection` of src/harness/projection.py.
use harness_golden_path.Prelude.{
  String, ◌≡◌, ◌≢◌, ◌<◌, ◌≤◌, refl, Bool-cases, inl, inr, ◌=s=◌, =s=_iff, Option, some, arith,
}
use harness_golden_path.Projection.{
  Formats, Row, PandaTask, Checkpoint, Observed, repair, noop, ignore_old, project_task,
  plan_projection,
}

-- What PandaOS keeps once it has carried out an operation on `p`: the display, and the checkpoint.
abbrev pub shown : PandaTask → Observed
shown p = record { subject = p.subject; status = p.status; active_form = p.active_form }

abbrev pub checkpointed : PandaTask → String → Checkpoint
checkpointed p id = record {
  panda_task_id = id;
  source_event_id = p.source_event_id;
  fingerprint = p.fingerprint;
}

-- A projection is ignored exactly when it is older than the checkpoint, whatever PandaOS shows: a
-- display is never set back to an earlier state.
pub plan_never_regresses :
    (f : Formats) (p : PandaTask) (c : Checkpoint) (observed : Option Observed)
    → ((plan_projection f p (some c) observed).action ≡ ignore_old
        → p.source_event_id < c.source_event_id)
      × (p.source_event_id < c.source_event_id
          → (plan_projection f p (some c) observed).action ≡ ignore_old)
unfolding plan_projection
plan_never_regresses f p c observed = (ground arith, ground arith)

-- Once an operation for a task's projection is carried out, planning it again does nothing.
pub plan_idempotent :
    (f : Formats) (row : Row) (id : String)
    → let p = project_task f row in
      (plan_projection f p (some (checkpointed p id)) (some (shown p))).action ≡ noop
unfolding plan_projection project_task
plan_idempotent f row id =
    let p = project_task f row in
    let same = (=s=_iff p.fingerprint p.fingerprint).1 refl in ground arith

-- A display that PandaOS holds but that is not the one checkpointed is repaired, unless the
-- projection is older.
pub plan_repairs :
    (f : Formats) (p : PandaTask) (c : Checkpoint) (o : Observed)
    → c.source_event_id ≤ p.source_event_id
    → f.target_fingerprint o.subject o.status o.active_form ≢ c.fingerprint
    → (plan_projection f p (some c) (some o)).action ≡ repair
unfolding plan_projection
plan_repairs f p c o le drift =
    elim (Bool-cases (f.target_fingerprint o.subject o.status o.active_form =s= c.fingerprint)) [
      | inl same ↦ absurd (drift ((=s=_iff _ _).0 same))
      | inr differ ↦ ground arith
    ]
