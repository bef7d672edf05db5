-- ===== src/Examples/Service.antt =====
-- Examples for the API, the metrics and the cockpit.
use harness_golden_path.Prelude.{
  ℕ, pos, String, Bool-cases, inl, inr, sym, ap, ◌≢◌, ◌≤◌, ◌≡◌, ◌+◌, ◌&&◌, refl, false, none, some,
  is_some, List, [], ◌∷◌, All, length, count, sum_of, str_lt, arith, if◌then◌else◌,
}
use harness_golden_path.Contracts.{operational}
use harness_golden_path.Metrics.Receipts.{is_counted, names, agrees, has_completed, cost_of}
use harness_golden_path.Contracts.Models
use harness_golden_path.Auth.{Principal, AuthError, Outcome, nas_worker, allows, authenticate}
use harness_golden_path.Auth.Scopes.{required_scope}
use harness_golden_path.Store.Tables.{RoutingReceipt, Db, empty_db}
use harness_golden_path.Store.Actions.{Env, is_execution}
use harness_golden_path.Store.Leases
use harness_golden_path.Store.Leases.{lease_expired_at}
use harness_golden_path.Store.Requests.{Request, run}
use harness_golden_path.Store.Keeps.Calls.{Admitted}
use harness_golden_path.Store.Cards.{Carded}
use harness_golden_path.Metrics.{Joined, build_quality_metrics_snapshot}
use harness_golden_path.Metrics.RouteCounts.{route_counts_exactly}
use harness_golden_path.Metrics.Totals.{routes_account}
use harness_golden_path.Cockpit.Models.{available}
use harness_golden_path.Cockpit.Panels.{build_cockpit_snapshot}
use harness_golden_path.Cockpit.Flow.{panels_account}
use harness_golden_path.Cockpit.Risk.{IsCalm, quiet_panel_is_quiet}
use harness_golden_path.App.Http.{claim, decide, HttpRequest, method_of, path_of}
use harness_golden_path.App.Handlers.{App, scope_of, dispatch, policy_verdict}
use harness_golden_path.App.Paths.{scope_for, paths_guarded}
use harness_golden_path.App.Refine.{Accepts, CallsOf, serve_all, api_refines_store}
use harness_golden_path.App.Errors.{OnlyLogged, is_audited, error_answers_change_nothing}
use harness_golden_path.App.Access.{Confined, pilot_decides_nothing, nas_token_works_as_itself}
use harness_golden_path.App.Admission.{stored_cards_are_accepted}
use harness_golden_path.Policy.{RoutingPolicy}
use harness_golden_path.Examples.{env, card, idle, finished, receipt_by, state_with}
use harness_golden_path.Examples.Rules.{
  catalog, agents, classes, data_policy, authority, files, environ, authorizer, configured, nas,
  card_accepted, task_accepted,
}
use harness_golden_path.Examples.Displays.{formats}

abbrev stored : RoutingReceipt
stored = record {
  receipt_id = 1;
  task_id = 1;
  worker_instance = "nas-1";
  outcome = Models.completed;
  receipt = receipt_by "nas-1";
  created_at = 5;
}

abbrev served : Db
served = record empty_db { tasks = finished ∷ []; receipts = stored ∷ stored ∷ [] }

abbrev row : Joined
row = record { outcome = Models.completed; receipt = receipt_by "nas-1"; attempt_count = 1 }

route_counts_exactly_example :
    let q = build_quality_metrics_snapshot env served in
    (count (names stored) q.routes ≤ 1)
    × (sum_of (λ m. if names stored m then m.receipt_count else 0) q.routes
        ≡ count (λ other. is_counted served.tasks other && agrees stored other) served.receipts)
route_counts_exactly_example = route_counts_exactly env served stored

routes_account_example :
    let q = build_quality_metrics_snapshot env served in
    (sum_of (λ m. m.receipt_count) q.routes ≡ count (is_counted served.tasks) served.receipts)
    × (sum_of (λ m. m.completed_count) q.routes
        ≡ count (λ r. is_counted served.tasks r && has_completed r) served.receipts)
    × (sum_of (λ m. m.incremental_cost_chf) q.routes
        ≡ sum_of (λ r. if is_counted served.tasks r then cost_of r else 0) served.receipts)
    × All (λ m. m.receipt_count ≡ m.completed_count + m.non_completed_count) q.routes
routes_account_example = routes_account env served

abbrev policy : RoutingPolicy
policy = record { api_metered_allowed = none; classes = classes }

panels_account_example :
    let panels = (build_cockpit_snapshot str_lt env served catalog policy).panels in
    (panels.flow.content.task_count ≡ length served.tasks)
    × (sum_of (λ w. w.task_count) panels.workers.content
        ≡ count (λ t. is_some t.owner_instance) served.tasks)
    × (sum_of (λ w. w.active_task_count) panels.workers.content
        ≡ count (λ t. is_some t.owner_instance && is_execution t.status) served.tasks)
    × All (λ w. w.active_task_count ≤ w.task_count) panels.workers.content
panels_account_example = panels_account str_lt env served catalog policy

calm : (build_cockpit_snapshot str_lt env served catalog policy).panels.risks.status ≡ available
unfolding build_cockpit_snapshot count
calm = refl

quiet_panel_is_quiet_example :
    All (λ t. t.card.projection_kind ≡ operational → IsCalm env.now served t) served.tasks
quiet_panel_is_quiet_example = quiet_panel_is_quiet str_lt env served catalog policy calm

abbrev pub app : App
app = record {
  authorizer = authorizer;
  catalog = catalog;
  routing_policy = policy;
  agent_policy = agents;
  data_policy = data_policy;
  task_authority_policy = authority;
  files = files;
  formats = formats;
  collation = str_lt;
  stripped = λ s. s;
}

abbrev claim_of : ℕ → HttpRequest
claim_of task_id = record {
  endpoint = claim task_id (record {
    owner_role = "hermes_nas";
    worker_id = "svc-hermes-nas:p2-4";
    lease_minutes = pos 10;
  });
  path_text = "26000000-0000-4000-8000-000000000001";
  authorization = some "Bearer 0123456789abcdef0123456789abcdef";
  drawn_id = 0;
}

abbrev decision : HttpRequest
decision = record {
  endpoint = decide 3 (record { decision = "approved"; decided_by = "worker"; reason = "" });
  path_text = "26000000-0000-4000-8000-000000000003";
  authorization = some "Bearer 0123456789abcdef0123456789abcdef";
  drawn_id = 0;
}

api_refines_store_example :
    (calls : List (Env × Request)) × CallsOf app
      (state_with idle [])
      ((env, claim_of 1) ∷ (env, decision) ∷ [])
      calls
    × All (λ c. Admitted (Accepts app) c.1) calls
    × (serve_all app ((env, claim_of 1) ∷ (env, decision) ∷ []) (state_with idle [])
        ≡ run calls (state_with idle []))
api_refines_store_example =
    api_refines_store app ((env, claim_of 1) ∷ (env, decision) ∷ []) (state_with idle [])

paths_guarded_example :
    required_scope (method_of decision.endpoint) (path_of decision.endpoint decision.path_text)
    ≡ scope_for decision.endpoint
paths_guarded_example = paths_guarded decision.endpoint decision.path_text refl

refused_claim : (dispatch app env (claim_of 2) (state_with idle [])).0.status_code ≡ 409
unfolding dispatch authenticate Leases.claim
refused_claim = refl

error_answers_change_nothing_example :
    let after = (dispatch app env (claim_of 2) (state_with idle [])).1 in
    OnlyLogged (state_with idle []).db after.db
    × (is_audited (claim_of 2).endpoint ≡ false → after.db ≡ (state_with idle []).db)
error_answers_change_nothing_example =
    error_answers_change_nothing app env (claim_of 2) (state_with idle [])
      (omega (arith, refused_claim))

pilot_decides_nothing_example :
    let (answer, after) = dispatch app env decision (state_with idle []) in
    (400 ≤ answer.status_code) × (after ≡ state_with idle [])
pilot_decides_nothing_example =
    pilot_decides_nothing environ app env decision (state_with idle []) configured refl refl

claim_scope : scope_of (claim_of 1) ≡ some "tasks:claim"
unfolding scope_of
claim_scope = refl

is_ok : {p q : Principal} → Outcome.ok p ≡ Outcome.ok q → p ≡ q
is_ok h = cc

is_err : {e : AuthError} {p : Principal} → Outcome.err e ≢ Outcome.ok p
is_err h = cc

only_nas :
    (scope : String) (p : Principal)
    → authenticate app.files app.authorizer (claim_of 1).authorization scope ≡ Outcome.ok p
    → (p.role ≡ "hermes_nas") × (p.scopes ≡ nas_worker.scopes)
unfolding authenticate
only_nas scope p h = elim (Bool-cases (allows nas scope)) [
  | inl has ↦
      let same : nas ≡ p = is_ok (rw has at h) in
      (sym (ap (λ (q : Principal). q.role) same), sym (ap (λ (q : Principal). q.scopes) same))
  | inr lacks ↦ absurd (is_err (rw lacks at h))
]

nas_token_works_as_itself_example :
    Confined env (state_with idle []) (dispatch app env (claim_of 1) (state_with idle [])).1
nas_token_works_as_itself_example =
    nas_token_works_as_itself app env (claim_of 1) (state_with idle []) refl only_nas

lawful : policy_verdict app card ≡ none
unfolding policy_verdict
lawful = task_accepted

stored_cards_are_accepted_example :
    Carded
      (Accepts app)
      (serve_all app ((env, claim_of 1) ∷ (env, decision) ∷ []) (state_with idle [])).db.tasks
stored_cards_are_accepted_example =
    stored_cards_are_accepted app ((env, claim_of 1) ∷ (env, decision) ∷ []) (state_with idle [])
      ((card_accepted, lawful), tt)
