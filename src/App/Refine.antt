-- ===== src/App/Refine.antt =====
-- The API of src/harness/app.py does to the store what calls of the store do, and nothing else.
use harness_golden_path.Prelude.{
  ℕ, ◌≡◌, ◌≤◌, ◌⊎◌, arith, refl, ap, ◌∙◌, Bool, true, false, Option-cases, inl, inr, Option, none,
  some, List, [], ◌∷◌, All, if◌then◌else◌, ◌==◌,
}
use harness_golden_path.Contracts.Models.{TaskCard}
use harness_golden_path.Contracts.Validation.{check_approval_card, check_card}
use harness_golden_path.Auth.{Principal}
use harness_golden_path.Policy.{PolicyError}
use harness_golden_path.Store.Tables.{Task, State}
use harness_golden_path.Store.Txn.{Result, ok, err}
use harness_golden_path.Store.Actions.{Env, find_task}
use harness_golden_path.Store.Lifecycle
use harness_golden_path.Store.Leases
use harness_golden_path.Store.Failures
use harness_golden_path.Store.Receipts.{submit_receipt}
use harness_golden_path.Store.Approvals
use harness_golden_path.Store.Requests.{Request, serve, run}
use harness_golden_path.Store.Keeps.Calls.{Admitted}
use harness_golden_path.App.Http.{
  Endpoint, health, cockpit, quality_metrics, resilience, expire_leases, release_retries,
  pandaos_projection, create_task, get_task, trace, claim, heartbeat, receipts, report_failure,
  approval_request, decide, HttpRequest, Body, Response, respond, created_body, tasks_body,
  approval_body, task_body, decision_body,
}
use harness_golden_path.App.Guards.{dispatch-cases}
use harness_golden_path.App.Answers.{
  Answer, caught, uncaught, found_task, claim_answer, may_work_as,
}
use harness_golden_path.App.Handlers.{
  App, admit, policy_verdict, approval_card, handle, is_well_formed, dispatch,
}

-- The call of the store that an endpoint makes, if it makes one that can write.
unfoldable pub store_call : App → ℕ → Endpoint → Option Request
store_call app drawn (create_task card) = some (Request.create card)
store_call app drawn (claim id body) =
    some (Request.claim id body.owner_role body.worker_id body.lease_minutes)
store_call app drawn (heartbeat id body) =
    some (Request.heartbeat id body.worker_id body.lease_minutes)
store_call app drawn (receipts id receipt) = some (Request.receipt receipt)
store_call app drawn (report_failure id report) = some (Request.failure report)
store_call app drawn (approval_request id body) =
    some (Request.ask (approval_card app drawn id body))
store_call app drawn (decide id body) =
    some (Request.decision id body.decision body.decided_by body.reason)
store_call app drawn expire_leases = some Request.expire
store_call app drawn release_retries = some Request.release
store_call app drawn _ = none

-- A card that the service takes: pydantic and the policy accept it.
abbrev pub Accepts : App → TaskCard → Type 0
Accepts app card = (check_card card ≡ true) × (policy_verdict app card ≡ none)

-- An answer with the state that it leaves is the work of the call that belongs to the endpoint; or nothing
-- has happened, since the endpoint has no such call or the answer is an error.
pub data Effect (app : App) (env : Env) (drawn : ℕ) (e : Endpoint) (s : State) (a : Answer)
    : Type 0 where
  untouched :
      a.1 ≡ s
      → (store_call app drawn e ≡ none) ⊎ (400 ≤ a.0.status_code)
      → Effect app env drawn e s a
  called :
      (request : Request)
      → store_call app drawn e ≡ some request
      → Admitted (Accepts app) request
      → a.1 ≡ serve env request s
      → Effect app env drawn e s a

module _ (app : App) (env : Env) (drawn : ℕ) (s : State) where
  caught-Effect :
      {A : Type 0} (e : Endpoint) (q : Request) (code : ℕ) (body : A → Body) (r : Result A × State)
      → store_call app drawn e ≡ some q
      → Admitted (Accepts app) q
      → r.1 ≡ serve env q s
      → Effect app env drawn e s (caught code body r)
  caught-Effect e q code body (ok a, s') h ad k = called q h ad k
  caught-Effect e q code body (err x, s') h ad k = called q h ad k

  uncaught-Effect :
      {A : Type 0} (e : Endpoint) (q : Request) (answer : A → Response) (r : Result A × State)
      → store_call app drawn e ≡ some q
      → Admitted (Accepts app) q
      → r.1 ≡ serve env q s
      → Effect app env drawn e s (uncaught answer r)
  uncaught-Effect e q answer (ok a, s') h ad k = called q h ad k
  uncaught-Effect e q answer (err x, s') h ad k = called q h ad k

  checked-Effect :
      (e : Endpoint) (test : Bool) (rest : Answer) (refusal : Response)
      → 400 ≤ refusal.status_code
      → Effect app env drawn e s rest
      → Effect app env drawn e s (if test then rest else (refusal, s))
  checked-Effect e true rest refusal big h = h
  checked-Effect e false rest refusal big h = untouched refl (inr big)

  admit-Effect :
      (card : TaskCard) (verdict : Option PolicyError)
      → check_card card ≡ true
      → policy_verdict app card ≡ verdict
      → Effect app env drawn (create_task card) s (admit env card verdict s)
  unfolding store_call serve
  admit-Effect card (some e) good same = untouched refl (inr (omega arith))
  admit-Effect card none good same =
      uncaught-Effect (create_task card) (Request.create card)
        (λ r. respond 201 (created_body r.0 r.1)) (Lifecycle.create_task env card s) refl
        (good, same) refl

  pub get_task-state : (id : ℕ) → (Lifecycle.get_task id s).1 ≡ s
  unfolding Lifecycle.get_task
  get_task-state id = elim (Option-cases (find_task id s.db)) [
    | inl absent ↦ rw absent refl
    | inr (t, found) ↦ rw found refl
  ]

  found_task-Effect :
      (id : ℕ) (p : Principal) (r : Result Task × State)
      → r.1 ≡ s
      → Effect app env drawn (get_task id) s (found_task p r)
  unfolding store_call
  found_task-Effect id p (ok t, s') h = untouched h (inl refl)
  found_task-Effect id p (err e, s') h = untouched h (inl refl)

  -- A handler does nothing, or it makes the call of its endpoint.
  pub handle-Effect :
      (p : Principal) (e : Endpoint)
      → is_well_formed e ≡ true
      → Effect app env drawn e s (handle app env p drawn e s)
  unfolding handle store_call serve is_well_formed
  handle-Effect p health good = untouched refl (inl refl)
  handle-Effect p cockpit good = untouched refl (inl refl)
  handle-Effect p quality_metrics good = untouched refl (inl refl)
  handle-Effect p resilience good = untouched refl (inl refl)
  handle-Effect p (pandaos_projection cursor full) good = untouched refl (inl refl)
  handle-Effect p (trace id) good = untouched refl (inl refl)
  handle-Effect p (create_task card) good = admit-Effect card (policy_verdict app card) good refl
  handle-Effect p (get_task id) good =
      found_task-Effect id p (Lifecycle.get_task id s) (get_task-state id)
  handle-Effect p expire_leases good =
      uncaught-Effect expire_leases Request.expire (λ rows. respond 200 (tasks_body rows))
        (Leases.expire_leases env s) refl tt refl
  handle-Effect p release_retries good =
      uncaught-Effect release_retries Request.release (λ rows. respond 200 (tasks_body rows))
        (Failures.release_due_retries env s) refl tt refl
  handle-Effect p (decide id body) good =
      caught-Effect (decide id body) (Request.decision id body.decision body.decided_by body.reason)
        200 (approval_body id)
        (Approvals.decide_approval env id body.decision body.decided_by body.reason s) refl tt refl
  handle-Effect p (claim id body) good =
      checked-Effect (claim id body) (may_work_as p body.owner_role body.worker_id) _ _
        (omega arith)
        (uncaught-Effect (claim id body)
          (Request.claim id body.owner_role body.worker_id body.lease_minutes) claim_answer
          (Leases.claim env id body.owner_role body.worker_id body.lease_minutes s) refl tt refl)
  handle-Effect p (heartbeat id body) good =
      checked-Effect (heartbeat id body) (may_work_as p "hermes_nas" body.worker_id) _ _
        (omega arith)
        (caught-Effect (heartbeat id body) (Request.heartbeat id body.worker_id body.lease_minutes)
          200 task_body (Leases.heartbeat env id body.worker_id body.lease_minutes s) refl tt refl)
  handle-Effect p (receipts id r) good =
      checked-Effect (receipts id r) (may_work_as p "hermes_nas" r.worker_instance) _ _
        (omega arith)
        (checked-Effect (receipts id r) (r.task_id == id) _ _ (omega arith) (
          caught-Effect (receipts id r) (Request.receipt r) 200 task_body (submit_receipt env r s)
            refl tt refl))
  handle-Effect p (report_failure id r) good =
      checked-Effect (report_failure id r) (may_work_as p "hermes_nas" r.worker_instance) _ _
        (omega arith)
        (checked-Effect (report_failure id r) (r.task_id == id) _ _ (omega arith) (
          caught-Effect (report_failure id r) (Request.failure r) 200 decision_body
            (Failures.report_failure env r s) refl tt refl))
  handle-Effect p (approval_request id body) good =
      let card = approval_card app drawn id body in
      checked-Effect (approval_request id body) (check_approval_card card) _ _ (omega arith) (
        caught-Effect (approval_request id body) (Request.ask card) 201
          (approval_body card.approval_id) (Approvals.request_approval env card s) refl tt refl)

-- Requests one after another, each at its own time.
unfoldable pub serve_all : App → List (Env × HttpRequest) → State → State
serve_all app [] s = s
serve_all app ((env, request) ∷ rest) s = serve_all app rest (dispatch app env request s).1

-- The calls of the store that requests have made, in their order, from a state on. A request is passed
-- over only where its endpoint has no call, or where it is answered by an error.
pub data CallsOf (app : App)
    : State → List (Env × HttpRequest) → List (Env × Request) → Type 0 where
  finished : {s : State} → CallsOf app s [] []
  skipped :
      {s : State} {env : Env} {request : HttpRequest} {rest : List (Env × HttpRequest)}
      {calls : List (Env × Request)}
      → (store_call app request.drawn_id request.endpoint ≡ none)
        ⊎ (400 ≤ (dispatch app env request s).0.status_code)
      → CallsOf app (dispatch app env request s).1 rest calls
      → CallsOf app s ((env, request) ∷ rest) calls
  made :
      {s : State} {env : Env} {request : HttpRequest} {q : Request}
      {rest : List (Env × HttpRequest)} {calls : List (Env × Request)}
      → store_call app request.drawn_id request.endpoint ≡ some q
      → (dispatch app env request s).1 ≡ serve env q s
      → CallsOf app (dispatch app env request s).1 rest calls
      → CallsOf app s ((env, request) ∷ rest) ((env, q) ∷ calls)

pub dispatch-Effect :
    (app : App) (env : Env) (request : HttpRequest) (s : State)
    → Effect app env request.drawn_id request.endpoint s (dispatch app env request s)
dispatch-Effect app env request s =
    dispatch-cases app env request s (λ a. Effect app env request.drawn_id request.endpoint s a)
      (λ r h. untouched refl (inr h))
      (λ p granted good. handle-Effect app env request.drawn_id s p request.endpoint good)

-- The API implements the store: whatever requests it is sent, with whatever tokens, bodies and paths,
-- the state that they leave is that of a run of calls of the store, in the order of the requests, each
-- at the time of its request and with its arguments. Each request whose endpoint has a call of the
-- store, and that is not answered by an error, has its call in this run; and of the cards that are
-- created, pydantic and the policy have accepted each.
pub api_refines_store :
    (app : App) (traffic : List (Env × HttpRequest)) (s : State)
    → (calls : List (Env × Request)) × CallsOf app s traffic calls
      × All (λ c. Admitted (Accepts app) c.1) calls
      × (serve_all app traffic s ≡ run calls s)
unfolding serve_all run
api_refines_store app [] s = ([], finished, tt, refl)
api_refines_store app ((env, request) ∷ rest) s =
    let (calls, of_rest, admitted, same) =
      api_refines_store app rest (dispatch app env request s).1 in
    elim (dispatch-Effect app env request s) [
      | untouched e why ↦ (calls, skipped why of_rest, admitted, same ∙ ap (run calls) e)
      | called q from ad e ↦
          ((env, q) ∷ calls, made from e of_rest, (ad, admitted), same ∙ ap (run calls) e)
    ]
