-- ===== src/App/Answers.antt =====
-- src/harness/app.py: what a handler answers, for the outcome of a call of the store and for a principal.
use text.Mathlib.Text.{starts_with}
use harness_golden_path.Prelude.{
  ℕ, String, Bool, true, false, not, ◌&&◌, ◌||◌, Option, none, some, ◌==◌, ◌=s=◌, if◌then◌else◌,
}
use harness_golden_path.Auth.{Principal}
use harness_golden_path.Store.Tables.{Task, State}
use harness_golden_path.Store.Txn.{
  StoreError, Result, ok, err, task_not_found, approval_not_found, unique_violation, invalid_event,
  index_error,
}
use harness_golden_path.App.Http.{
  Body, detail, store_detail, internal_error, task_body, Response, respond,
}

abbrev pub Answer : Type 0
Answer = Response × State

-- NotFoundError
abbrev is_not_found : StoreError → Bool
is_not_found task_not_found = true
is_not_found approval_not_found = true
is_not_found _ = false

-- an exception of another kind than StoreError
abbrev is_foreign : StoreError → Bool
is_foreign unique_violation = true
is_foreign invalid_event = true
is_foreign index_error = true
is_foreign _ = false

-- `_to_http`, and 500 for what `except StoreError` does not catch
unfoldable pub to_http : StoreError → Response
to_http e =
    if is_foreign e
    then respond 500 internal_error
    else if is_not_found e
    then respond 404 (store_detail e)
    else respond 409 (store_detail e)

-- `try: return … except StoreError as exc: raise _to_http(exc)`
abbrev pub caught : {A : Type 0} → ℕ → (A → Body) → Result A × State → Answer
caught code body (ok a, s) = (respond code (body a), s)
caught code body (err e, s) = (to_http e, s)

-- a call outside of any `try`
abbrev pub uncaught : {A : Type 0} → (A → Response) → Result A × State → Answer
uncaught answer (ok a, s) = (answer a, s)
uncaught answer (err e, s) = (respond 500 internal_error, s)

unfoldable pub is_nas : Principal → Bool
is_nas p = p.role =s= "hermes_nas"

-- the test of `_enforce_nas_worker`
unfoldable pub may_work_as : Principal → String → String → Bool
unfolding is_nas
may_work_as p owner_role worker_id =
    not (is_nas p) || ((owner_role =s= "hermes_nas") && starts_with worker_id "svc-hermes-nas:")

-- `_enforce_nas_worker(request, owner_role, worker_id)` in front of what follows
abbrev pub enforce_nas_worker : Principal → String → String → Answer → State → Answer
enforce_nas_worker p owner_role worker_id rest s =
    if may_work_as p owner_role worker_id
    then rest
    else (respond 403 (detail "NAS identity is read-only worker scoped"), s)

-- the test of `_enforce_nas_task_access`
unfoldable pub may_read : Principal → Task → Bool
unfolding is_nas
may_read p task = not (is_nas p && not (task.owner_role =s= "hermes_nas"))

-- `_enforce_nas_task_access(request, task)`
unfoldable pub show_task : Principal → Task → Response
unfolding may_read
show_task p task =
    if may_read p task
    then respond 200 (task_body task)
    else respond 403 (detail "NAS identity cannot read other roles")

abbrev pub found_task : Principal → Result Task × State → Answer
found_task p (ok task, s) = (show_task p task, s)
found_task p (err e, s) = (to_http e, s)

-- the answer of `claim`
abbrev pub claim_answer : Option Task → Response
claim_answer none = respond 409 (detail "task not claimable (status, lease, or circuit gate)")
claim_answer (some row) = respond 200 (task_body row)

abbrev pub same_task : ℕ → ℕ → Answer → State → Answer
same_task named task_id rest s =
    if named == task_id then rest else (respond 422 (detail "task_id mismatch"), s)
