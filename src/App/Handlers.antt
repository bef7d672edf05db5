-- ===== src/App/Handlers.antt =====
-- src/harness/app.py: `create_app`, its middleware and its handlers. A handler gives the answer and the
-- state that it leaves. An exception that nothing catches becomes the answer 500 of Starlette.
use harness_golden_path.Prelude.{
  ℕ, ℤ, pos, negsuc, String, Bool, true, Option, none, some, if◌then◌else◌,
}
use harness_golden_path.Contracts.Models.{TaskCard, ApprovalCard}
use harness_golden_path.Contracts.Validation.{
  check_card, check_result_receipt, check_failure_report, check_approval_card,
}
use harness_golden_path.Auth.{
  Principal, Files, Authorizer, AuthError, Outcome, development, authenticate, token_required,
  token_invalid, lacks_scope, not_ascii, no_token_file, unreadable_file, short_token, missing_files,
}
use harness_golden_path.Auth.Scopes.{required_scope}
use harness_golden_path.Policy.{
  Catalog, RoutingPolicy, AgentPolicy, DataPolicy, AuthorityPolicy, PolicyError,
  assert_task_allowed,
}
use harness_golden_path.Projection.{Formats, Batch}
use harness_golden_path.Projection.Snapshot.{pandaos_projection_snapshot}
use harness_golden_path.Cockpit.Rows.{Collation}
use harness_golden_path.Store.Tables.{State}
use harness_golden_path.Store.Actions.{Env}
use harness_golden_path.Store.Lifecycle
use harness_golden_path.Store.Leases
use harness_golden_path.Store.Failures
use harness_golden_path.Store.Failures.{release_due_retries}
use harness_golden_path.Store.Receipts.{submit_receipt}
use harness_golden_path.Store.Approvals
use harness_golden_path.Store.Approvals.{decide_approval}
use harness_golden_path.Store.Snapshots.{
  cockpit_snapshot, quality_metrics_snapshot, resilience_snapshot,
}
use harness_golden_path.App.Http.{
  ApprovalRequest, Endpoint, health, cockpit, quality_metrics, resilience, expire_leases,
  release_retries, pandaos_projection, create_task, get_task, trace, claim, heartbeat, receipts,
  report_failure, approval_request, decide, method_of, path_of, HttpRequest, detail, auth_detail,
  policy_detail, internal_error, healthy, cockpit_body, metrics_body, resilience_body,
  projection_body, created_body, task_body, decision_body, approval_body, events_body, tasks_body,
  Response, respond,
}
use harness_golden_path.App.Answers.{
  Answer, to_http, caught, uncaught, may_work_as, enforce_nas_worker, show_task, found_task,
  claim_answer, same_task,
}

-- What `create_app` closes over, and what it takes from elsewhere: the token files, the texts of the
-- projection, the collation of the database, and how pydantic strips the texts of a card.
pub record App : Type 0 where
  pub authorizer : Authorizer
  pub catalog : Catalog
  pub routing_policy : RoutingPolicy
  pub agent_policy : AgentPolicy
  pub data_policy : DataPolicy
  pub task_authority_policy : AuthorityPolicy
  pub files : Files
  pub formats : Formats
  pub collation : Collation
  pub stripped : String → String

abbrev project : Option Batch → Response
project none = respond 409 (detail "consumer cursor is ahead of authoritative Harness event state")
project (some batch) = respond 200 (projection_body batch)

-- `pandaos_projection`
abbrev projection_from : App → ℤ → Bool → State → Response
projection_from app (pos cursor) full s =
    project (pandaos_projection_snapshot app.formats cursor full s.db)
projection_from app (negsuc _) full s = respond 422 (detail "after_event_id must be non-negative")

-- `create_task`: the policy first; the store is called outside of the `try`
abbrev pub admit : Env → TaskCard → Option PolicyError → State → Answer
admit env card (some e) s = (respond 403 (policy_detail e), s)
admit env card none s =
    uncaught (λ r. respond 201 (created_body r.0 r.1)) (Lifecycle.create_task env card s)

unfoldable pub policy_verdict : App → TaskCard → Option PolicyError
policy_verdict app card =
    assert_task_allowed card app.catalog app.routing_policy.classes app.agent_policy app.data_policy
      app.task_authority_policy

-- `ApprovalCardV1(task_id=…, action=…, requested_by=…)`
abbrev pub approval_card : App → ℕ → ℕ → ApprovalRequest → ApprovalCard
approval_card app drawn_id task_id body = record {
  approval_id = drawn_id;
  task_id = task_id;
  action = app.stripped body.action;
  requested_by = app.stripped body.requested_by;
}

-- `approval_request`: a ValidationError of the card is not caught
abbrev ask_approval : Env → ApprovalCard → State → Answer
ask_approval env card s =
    if check_approval_card card
    then caught 201 (approval_body card.approval_id) (Approvals.request_approval env card s)
    else (respond 500 internal_error, s)

-- the handlers
unfoldable pub handle : App → Env → Principal → ℕ → Endpoint → State → Answer
unfolding to_http may_work_as show_task policy_verdict
handle app env p drawn health s = (respond 200 healthy, s)
handle app env p drawn cockpit s = (
  respond 200 (cockpit_body (cockpit_snapshot app.collation env app.catalog app.routing_policy s)),
  s,
)
handle app env p drawn quality_metrics s =
    (respond 200 (metrics_body (quality_metrics_snapshot env s)), s)
handle app env p drawn resilience s =
    (respond 200 (resilience_body (resilience_snapshot app.collation s)), s)
handle app env p drawn (pandaos_projection cursor full) s = (projection_from app cursor full s, s)
handle app env p drawn (create_task card) s = admit env card (policy_verdict app card) s
handle app env p drawn (get_task task_id) s = found_task p (Lifecycle.get_task task_id s)
handle app env p drawn (claim task_id body) s =
    enforce_nas_worker p body.owner_role body.worker_id
      (uncaught claim_answer
        (Leases.claim env task_id body.owner_role body.worker_id body.lease_minutes s))
      s
handle app env p drawn (heartbeat task_id body) s =
    enforce_nas_worker p "hermes_nas" body.worker_id
      (caught 200 task_body (Leases.heartbeat env task_id body.worker_id body.lease_minutes s)) s
handle app env p drawn (receipts task_id receipt) s =
    enforce_nas_worker p "hermes_nas" receipt.worker_instance
      (same_task receipt.task_id task_id (caught 200 task_body (submit_receipt env receipt s)) s) s
handle app env p drawn (report_failure task_id report) s =
    enforce_nas_worker p "hermes_nas" report.worker_instance
      (same_task report.task_id task_id
        (caught 200 decision_body (Failures.report_failure env report s)) s)
      s
handle app env p drawn (approval_request task_id body) s =
    ask_approval env (approval_card app drawn task_id body) s
handle app env p drawn (decide approval_id body) s =
    caught 200 (approval_body approval_id)
      (decide_approval env approval_id body.decision body.decided_by body.reason s)
handle app env p drawn (trace correlation_id) s =
    (respond 200 (events_body (Approvals.trace correlation_id s)), s)
handle app env p drawn expire_leases s =
    uncaught (λ rows. respond 200 (tasks_body rows)) (Leases.expire_leases env s)
handle app env p drawn release_retries s =
    uncaught (λ rows. respond 200 (tasks_body rows)) (release_due_retries env s)

-- the bodies that pydantic checks before the handler runs
unfoldable pub is_well_formed : Endpoint → Bool
is_well_formed (create_task card) = check_card card
is_well_formed (receipts _ receipt) = check_result_receipt receipt
is_well_formed (report_failure _ report) = check_failure_report report
is_well_formed _ = true

-- FastAPI's 422, and then the handler
unfoldable pub call_next : App → Env → Principal → HttpRequest → State → Answer
unfolding handle is_well_formed
call_next app env p request s =
    if is_well_formed request.endpoint
    then handle app env p request.drawn_id request.endpoint s
    else (respond 422 (detail "validation error"), s)

-- the answers of the middleware to the exceptions of `authenticate`
unfoldable pub refuse : AuthError → Response
refuse token_required = respond 401 (auth_detail token_required)
refuse token_invalid = respond 401 (auth_detail token_invalid)
refuse (lacks_scope name scope) = respond 403 (auth_detail (lacks_scope name scope))
refuse not_ascii = respond 500 internal_error
refuse no_token_file = respond 500 internal_error
refuse (unreadable_file path) = respond 500 internal_error
refuse (short_token path) = respond 500 internal_error
refuse (missing_files names) = respond 500 internal_error

abbrev pub pass_principal : App → Env → HttpRequest → State → Outcome Principal → Answer
pass_principal app env request s (Outcome.ok p) = call_next app env p request s
pass_principal app env request s (Outcome.err e) = (refuse e, s)

abbrev pub by_scope : App → Env → HttpRequest → State → Option String → Answer
by_scope app env request s none = call_next app env development request s
by_scope app env request s (some scope) =
    pass_principal app env request s
      (authenticate app.files app.authorizer request.authorization scope)

-- the scope that the middleware asks for
unfoldable pub scope_of : HttpRequest → Option String
unfolding required_scope method_of path_of
scope_of request =
    required_scope (method_of request.endpoint) (path_of request.endpoint request.path_text)

-- `authorize`; without a scope `_principal` falls back on the development principal
unfoldable pub dispatch : App → Env → HttpRequest → State → Answer
unfolding call_next refuse scope_of
dispatch app env request s = by_scope app env request s (scope_of request)
