-- ===== src/App/Access.antt =====
-- What the principals of the pilot can do through src/harness/app.py.
use text.Mathlib.Text.{starts_with}
use harness_golden_path.Prelude.{
  ℕ, ◌≤◌, ◌≡◌, ◌≢◌, refl, sym, ap, subst, ◌∙◌, String, Bool, true, false, ◌||◌, Bool-cases, inl,
  inr, Option, none, some, str_mem, ◌=s=◌, =s=_iff, arith,
}
use harness_golden_path.Auth.{
  Principal, Outcome, allows, authenticate, from_environment, nas_worker,
}
use harness_golden_path.Auth.Access.{authenticate_sound, no_principal_decides, human_scopes}
use harness_golden_path.Store.Tables.{State}
use harness_golden_path.Store.Actions.{Env}
use harness_golden_path.Store.Requests.{Request, serve}
use harness_golden_path.App.Http.{
  Endpoint, health, cockpit, quality_metrics, resilience, expire_leases, release_retries,
  pandaos_projection, create_task, get_task, trace, claim, heartbeat, receipts, report_failure,
  approval_request, decide, HttpRequest,
}
use harness_golden_path.App.Answers.{Answer, may_work_as, enforce_nas_worker}
use harness_golden_path.App.Handlers.{App, is_well_formed, handle, scope_of, dispatch}
use harness_golden_path.App.Guards.{public, scoped, dispatch-cases}
use harness_golden_path.App.Paths.{scope_for, fits_path, paths_guarded}
use harness_golden_path.App.Refine.{Effect, untouched, called, store_call, handle-Effect}

-- What only a human may ask for: to request or decide an approval, and to run maintenance.
abbrev pub needs_human : Endpoint → Bool
needs_human (approval_request _ _) = true
needs_human (decide _ _) = true
needs_human expire_leases = true
needs_human release_retries = true
needs_human _ = false

human_scope :
    (e : Endpoint)
    → needs_human e ≡ true
    → (scope : String) × (scope_for e ≡ some scope) × (str_mem scope human_scopes ≡ true)
unfolding scope_for
human_scope (approval_request _ _) h = ("approvals:request", refl, refl)
human_scope (decide _ _) h = ("approvals:decide", refl, refl)
human_scope expire_leases h = ("maintenance:write", refl, refl)
human_scope release_retries h = ("maintenance:write", refl, refl)
human_scope _ h = absurd cc

scope_of_endpoint :
    (request : HttpRequest)
    → fits_path request.endpoint request.path_text ≡ true
    → scope_of request ≡ scope_for request.endpoint
unfolding scope_of
scope_of_endpoint request h = paths_guarded request.endpoint request.path_text h

human_path : (e : Endpoint) (text : String) → needs_human e ≡ true → fits_path e text ≡ true
human_path (get_task _) text h = absurd cc
human_path _ text h = refl

some-ne-none : {A : Type 0} {o : Option A} {a : A} → o ≡ some a → o ≢ none
some-ne-none h k = cc

-- With the principals of the pilot, and where auth is enabled, nobody requests or decides an approval,
-- expires leases or releases retries through the service: whatever token and path such a request
-- comes with, it is answered by an error and leaves the state as it was.
pub pilot_decides_nothing :
    (environ : String → Option String) (app : App) (env : Env) (request : HttpRequest) (s : State)
    → from_environment app.files environ ≡ Outcome.ok app.authorizer
    → app.authorizer.enabled ≡ true
    → needs_human request.endpoint ≡ true
    → let (answer, after) = dispatch app env request s in (400 ≤ answer.status_code) × (after ≡ s)
pilot_decides_nothing environ app env request s configured on human =
    let (scope, asked, is_human) = human_scope request.endpoint human in
    let wanted =
      scope_of_endpoint request (human_path request.endpoint request.path_text human) ∙ asked in
    dispatch-cases app env request s (λ a. (400 ≤ a.0.status_code) × (a.1 ≡ s))
      (λ r big. (big, refl))
      (λ p granted good. elim granted [
        | public free e ↦ absurd (some-ne-none wanted free)
        | scoped scope' asked' accepted ↦
            let same : scope' ≡ scope = cc in
            absurd (
              no_principal_decides app.files environ request.authorization scope' configured on
                (subst (λ x. str_mem x human_scopes ≡ true) (sym same) is_human) accepted)
      ])

-- A call of the store that a NAS worker may make: it works as itself.
abbrev pub IsNasWork : Request → Type 0
IsNasWork (Request.claim id role worker minutes) =
    (role ≡ "hermes_nas") × (starts_with worker "svc-hermes-nas:" ≡ true)
IsNasWork (Request.heartbeat id worker minutes) = starts_with worker "svc-hermes-nas:" ≡ true
IsNasWork (Request.receipt r) = starts_with r.worker_instance "svc-hermes-nas:" ≡ true
IsNasWork (Request.failure r) = starts_with r.worker_instance "svc-hermes-nas:" ≡ true
IsNasWork _ = ⊥

pub data Confined (env : Env) (s s' : State) : Type 0 where
  still : s' ≡ s → Confined env s s'
  works : (q : Request) → IsNasWork q → s' ≡ serve env q s → Confined env s s'

works_as :
    (p : Principal) (role worker : String)
    → p.role ≡ "hermes_nas"
    → may_work_as p role worker ≡ true
    → (role ≡ "hermes_nas") × (starts_with worker "svc-hermes-nas:" ≡ true)
unfolding may_work_as
works_as p role worker nas h = elim (Bool-cases (role =s= "hermes_nas")) [
  | inl same ↦ ((=s=_iff _ _).0 same, ground (arith, (=s=_iff p.role "hermes_nas").1 nas))
  | inr other ↦ absurd (ground (arith, (=s=_iff p.role "hermes_nas").1 nas))
]

module _ (app : App) (env : Env) (drawn : ℕ) (s : State) where
  no_call-Confined :
      (e : Endpoint) {a : Answer}
      → store_call app drawn e ≡ none
      → Effect app env drawn e s a
      → Confined env s a.1
  no_call-Confined e h (untouched k why) = still k
  no_call-Confined e h (called q from ad k) = absurd (some-ne-none from h)

  own_call-Confined :
      (e : Endpoint) (q : Request) {a : Answer}
      → store_call app drawn e ≡ some q
      → IsNasWork q
      → Effect app env drawn e s a
      → Confined env s a.1
  own_call-Confined e q h own (untouched k why) = still k
  own_call-Confined e q h own (called q' from ad k) =
      let same : q' ≡ q = cc in works q own (k ∙ ap (λ x. serve env x s) same)

  module _ (p : Principal) where
    guarded-Confined :
        (e : Endpoint) (q : Request) (role worker : String) (rest : Answer)
        → p.role ≡ "hermes_nas"
        → is_well_formed e ≡ true
        → handle app env p drawn e s ≡ enforce_nas_worker p role worker rest s
        → store_call app drawn e ≡ some q
        → ((role ≡ "hermes_nas") × (starts_with worker "svc-hermes-nas:" ≡ true) → IsNasWork q)
        → Confined env s (handle app env p drawn e s).1
    guarded-Confined e q role worker rest nas good form h own =
        elim (Bool-cases (may_work_as p role worker)) [
          | inl allowed ↦
              own_call-Confined e q h (own (works_as p role worker nas allowed))
                (handle-Effect app env drawn s p e good)
          | inr refused ↦ still (ap (λ (a : Answer). a.1) form ∙ rw refused refl)
        ]

    excluded :
        (scope : String)
        → p.scopes ≡ nas_worker.scopes
        → (str_mem "*" nas_worker.scopes || str_mem scope nas_worker.scopes) ≡ false
        → allows p scope ≡ true
        → ⊥
    unfolding allows
    excluded scope scopes no_it has =
        let moved : (str_mem "*" nas_worker.scopes || str_mem scope nas_worker.scopes) ≡ true =
          subst (λ xs. (str_mem "*" xs || str_mem scope xs) ≡ true) scopes has in
        cc

    -- What the middleware has seen, where it asked for a scope.
    record HasScope (scope : String) : Type 0 where
      grants : allows p scope ≡ true
      role : p.role ≡ "hermes_nas"
      scopes : p.scopes ≡ nas_worker.scopes

    outside :
        {A : Type 0} (scope : String)
        → (str_mem "*" nas_worker.scopes || str_mem scope nas_worker.scopes) ≡ false
        → HasScope scope
        → A
    outside scope no_it h = absurd (excluded scope h.scopes no_it h.grants)

    nas-Confined :
        (e : Endpoint) (text : String)
        → is_well_formed e ≡ true
        → ((scope : String) → fits_path e text ≡ true → scope_for e ≡ some scope → HasScope scope)
        → Confined env s (handle app env p drawn e s).1
    unfolding handle store_call scope_for
    nas-Confined (create_task card) text good has = outside "tasks:create" refl (has _ refl refl)
    nas-Confined (approval_request id body) text good has =
        outside "approvals:request" refl (has _ refl refl)
    nas-Confined (decide id body) text good has = outside "approvals:decide" refl (has _ refl refl)
    nas-Confined expire_leases text good has = outside "maintenance:write" refl (has _ refl refl)
    nas-Confined release_retries text good has = outside "maintenance:write" refl (has _ refl refl)
    nas-Confined (claim id body) text good has =
        guarded-Confined (claim id body)
          (Request.claim id body.owner_role body.worker_id body.lease_minutes) body.owner_role
          body.worker_id _ (has _ refl refl).role good refl refl (λ h. h)
    nas-Confined (heartbeat id body) text good has =
        guarded-Confined (heartbeat id body)
          (Request.heartbeat id body.worker_id body.lease_minutes) "hermes_nas" body.worker_id _
          (has _ refl refl).role good refl refl (λ h. h.1)
    nas-Confined (receipts id r) text good has =
        guarded-Confined (receipts id r) (Request.receipt r) "hermes_nas" r.worker_instance _
          (has _ refl refl).role good refl refl (λ h. h.1)
    nas-Confined (report_failure id r) text good has =
        guarded-Confined (report_failure id r) (Request.failure r) "hermes_nas" r.worker_instance _
          (has _ refl refl).role good refl refl (λ h. h.1)
    nas-Confined health text good has = still refl
    nas-Confined cockpit text good has = still refl
    nas-Confined quality_metrics text good has = still refl
    nas-Confined resilience text good has = still refl
    nas-Confined (pandaos_projection cursor full) text good has = still refl
    nas-Confined (trace id) text good has = still refl
    nas-Confined (get_task id) text good has =
        no_call-Confined (get_task id) refl (handle-Effect app env drawn s p (get_task id) good)

-- A request that comes with the token of a NAS worker, that is one for which `authenticate` gives nobody
-- but a principal with the role and the scopes of the NAS worker, changes the state only by the work of
-- that identity: a claim as `hermes_nas`, or a heartbeat, a receipt or a failure report, each for a
-- worker of the namespace `svc-hermes-nas:`. Whatever else it asks for, at whatever path, granted or
-- not, leaves the state as it was.
pub nas_token_works_as_itself :
    (app : App) (env : Env) (request : HttpRequest) (s : State)
    → app.authorizer.enabled ≡ true
    → ((scope : String) (p : Principal)
        → authenticate app.files app.authorizer request.authorization scope ≡ Outcome.ok p
        → (p.role ≡ "hermes_nas") × (p.scopes ≡ nas_worker.scopes))
    → Confined env s (dispatch app env request s).1
nas_token_works_as_itself app env request s on nas =
    dispatch-cases app env request s (λ a. Confined env s a.1) (λ r big. still refl)
      (λ p granted good.
        nas-Confined app env request.drawn_id s p request.endpoint request.path_text good
          λ scope fits wanted. elim granted [
            | public free e ↦ absurd (some-ne-none (scope_of_endpoint request fits ∙ wanted) free)
            | scoped scope' asked accepted ↦
                let sound =
                  authenticate_sound app.files app.authorizer request.authorization scope' on
                    accepted in
                let same : scope' ≡ scope =
                  let found = scope_of_endpoint request fits ∙ wanted in cc in
                let (role, scopes) = nas scope' p accepted in
                record {
                  grants = subst (λ x. allows p x ≡ true) same sound.4;
                  role = role;
                  scopes = scopes;
                }
          ])
