-- ===== src/App/Errors.antt =====
-- What the error answers of src/harness/app.py leave behind.
use harness_golden_path.Prelude.{
  ℕ, ℤ, ◌≤◌, ◌<◌, ◌≡◌, refl, sym, ap, subst, String, Bool, true, false, ◌&&◌, Bool-cases,
  Option-cases, inl, inr, Option, none, some, List, [], ◌∷◌, Extends, update, returning, fetchone,
  opt_is, ◌==◌, if◌then◌else◌, arith,
}
use mathlib.Core.List.{append-nil}
use harness_golden_path.Contracts.Models.{TaskCard, ResultReceipt}
use harness_golden_path.Contracts.Validation.{check_approval_card}
use harness_golden_path.Auth.{Principal}
use harness_golden_path.Policy.{PolicyError}
use harness_golden_path.Store.Tables.{Db, Task, State}
use harness_golden_path.Store.Txn.{StoreError, vanished, Result, ok, err, with_connect}
use harness_golden_path.Store.Actions.{Env, by_id, find_task}
use harness_golden_path.Store.Lifecycle
use harness_golden_path.Store.Leases
use harness_golden_path.Store.Leases.{holds_lease, renew, can_claim, take_claim}
use harness_golden_path.Store.Failures
use harness_golden_path.Store.Receipts.{submit_receipt, accept, reject}
use harness_golden_path.Store.Approvals
use harness_golden_path.Store.Preserve.{Preserves-rollback}
use harness_golden_path.Store.Keeps.Pieces.{accept-Keeps}
use harness_golden_path.Store.Rollback.{Anything, Anything-laws, raising_calls_change_nothing}
use harness_golden_path.App.Http.{
  Endpoint, health, cockpit, quality_metrics, resilience, expire_leases, release_retries,
  pandaos_projection, create_task, get_task, trace, claim, heartbeat, receipts, report_failure,
  approval_request, decide, HttpRequest, Body, Response, respond, created_body, tasks_body,
  approval_body, task_body, decision_body,
}
use harness_golden_path.App.Answers.{
  Answer, caught, uncaught, found_task, claim_answer, may_work_as,
}
use harness_golden_path.App.Handlers.{App, admit, policy_verdict, approval_card, handle, dispatch}
use harness_golden_path.App.Guards.{dispatch-cases}
use harness_golden_path.App.Refine.{get_task-state}

-- The log may have grown; no other table has changed.
pub record OnlyLogged (db db' : Db) : Type 0 where
  pub tables : record db' { events = db.events } ≡ db
  pub log : Extends db.events db'.events

OnlyLogged-same : {db db' : Db} → db' ≡ db → OnlyLogged db db'
OnlyLogged-same {db} e =
    subst (λ x. OnlyLogged db x) (sym e)
      (record { tables = refl; log = ([], sym (append-nil db.events)) })

update_nothing :
    (test : Task → Bool) (change : Task → Task) (ts : List Task)
    → fetchone (returning test change ts) ≡ none
    → update test change ts ≡ ts
update_nothing test change [] h = refl
update_nothing test change (t ∷ ts) h = ground (arith, update_nothing test change ts)

module _ (env : Env) (s : State) (e : StoreError) where
  failed_heartbeat :
      (id : ℕ) (worker : String) (minutes : ℤ)
      → (Leases.heartbeat env id worker minutes s).0 ≡ err e
      → OnlyLogged s.db (Leases.heartbeat env id worker minutes s).1.db
  unfolding Leases.heartbeat
  failed_heartbeat id worker minutes h =
      let test : Task → Bool = λ t. by_id id t && holds_lease env.now worker t in
      let change = renew env.now minutes in
      elim (Option-cases (fetchone (returning test change s.db.tasks))) [
        | inr (row, renewed) ↦ absurd (ground arith)
        | inl none_held ↦
            let same = update_nothing test change s.db.tasks none_held in
            elim (Option-cases (find_task id s.db)) [
              | inl absent ↦ rw (none_held, same, absent) (OnlyLogged-same refl)
              | inr (t, found) ↦
                  rw (none_held, same, found) (record { tables = refl; log = (_, refl) })
            ]
      ]

  accept_raised :
      (r : ResultReceipt) (t : Task)
      → (with_connect (accept env r t) s).0 ≡ err e
      → (with_connect (accept env r t) s).1.db ≡ s.db
  accept_raised r t h =
      Preserves-rollback (λ db. db ≡ s.db) Anything (accept env r t) s e
        (accept-Keeps (λ db. db ≡ s.db) Anything Anything-laws env r t) refl tt h

  rejected : (r : ResultReceipt) (t : Task) → OnlyLogged s.db (with_connect (reject env r t) s).1.db
  unfolding reject
  rejected r t = record { tables = refl; log = (_, refl) }

  failed_receipt :
      (r : ResultReceipt)
      → (submit_receipt env r s).0 ≡ err e
      → OnlyLogged s.db (submit_receipt env r s).1.db
  unfolding submit_receipt
  failed_receipt r h = elim (Option-cases (find_task r.task_id s.db)) [
    | inl absent ↦ rw absent (OnlyLogged-same refl)
    | inr (t, found) ↦ elim (Bool-cases (opt_is t.owner_instance r.worker_instance)) [
      | inr other ↦ rw (found, other) (rejected r t)
      | inl owner ↦ rw (found, owner) (OnlyLogged-same (accept_raised r t (rw (found, owner) at h)))
    ]
  ]

  refused_claim :
      (id : ℕ) (role worker : String) (minutes : ℤ)
      → (Leases.claim env id role worker minutes s).0 ≡ ok none
      → (Leases.claim env id role worker minutes s).1.db ≡ s.db
  unfolding Leases.claim
  refused_claim id role worker minutes h =
      let test : Task → Bool = λ t. by_id id t && can_claim env.now s.db.circuits t in
      let change = take_claim env.now role worker minutes in
      elim (Option-cases (fetchone (returning test change s.db.tasks))) [
        | inr (row, taken) ↦ absurd (ground arith)
        | inl free ↦ rw (free, update_nothing test change s.db.tasks free) refl
      ]

-- The endpoints of which a refusal is written into the log.
abbrev pub is_audited : Endpoint → Bool
is_audited (heartbeat _ _) = true
is_audited (receipts _ _) = true
is_audited _ = false

-- Nothing but the log has changed, and that only at an audited endpoint.
record Kept (e : Endpoint) (db db' : Db) : Type 0 where
  logged : OnlyLogged db db'
  plain : is_audited e ≡ false → db' ≡ db

record Leaves (e : Endpoint) (s : State) (a : Answer) : Type 0 where
  kept : 400 ≤ a.0.status_code → Kept e s.db a.1.db

same-Kept : {e : Endpoint} {db db' : Db} → db' ≡ db → Kept e db db'
same-Kept h = record { logged = OnlyLogged-same h; plain = λ _. h }

module _ (e : Endpoint) (s : State) where
  untouched-Leaves : (r : Response) → Leaves e s (r, s)
  untouched-Leaves r = record { kept = λ h. same-Kept refl }

  caught-Leaves :
      {A : Type 0} (code : ℕ) (body : A → Body) (r : Result A × State)
      → code < 400
      → ((x : StoreError) → r.0 ≡ err x → Kept e s.db r.1.db)
      → Leaves e s (caught code body r)
  caught-Leaves code body (ok a, s') small k = record { kept = λ h. absurd (omega arith) }
  caught-Leaves code body (err x, s') small k = record { kept = λ h. k x refl }

  uncaught-Leaves :
      {A : Type 0} (answer : A → Response) (r : Result A × State)
      → ((a : A) → r.0 ≡ ok a → 400 ≤ (answer a).status_code → Kept e s.db r.1.db)
      → ((x : StoreError) → r.0 ≡ err x → Kept e s.db r.1.db)
      → Leaves e s (uncaught answer r)
  uncaught-Leaves answer (ok a, s') good bad = record { kept = λ h. good a refl h }
  uncaught-Leaves answer (err x, s') good bad = record { kept = λ h. bad x refl }

  checked-Leaves :
      (test : Bool) (rest : Answer) (refusal : Response)
      → Leaves e s rest
      → Leaves e s (if test then rest else (refusal, s))
  checked-Leaves true rest refusal h = h
  checked-Leaves false rest refusal h = untouched-Leaves refusal

module _ (app : App) (env : Env) (drawn : ℕ) (s : State) where
  admit-Leaves :
      (card : TaskCard) (verdict : Option PolicyError)
      → Leaves (create_task card) s (admit env card verdict s)
  admit-Leaves card (some x) = untouched-Leaves _ s _
  admit-Leaves card none =
      uncaught-Leaves (create_task card) s (λ r. respond 201 (created_body r.0 r.1))
        (Lifecycle.create_task env card s) (λ a k h. absurd (omega arith))
        (λ x h. same-Kept ((raising_calls_change_nothing env s x).0 card h))

  claim-Leaves :
      (id : ℕ) (role worker : String) (minutes : ℤ) (e : Endpoint) (a : Option Task)
      → (Leases.claim env id role worker minutes s).0 ≡ ok a
      → 400 ≤ (claim_answer a).status_code
      → Kept e s.db (Leases.claim env id role worker minutes s).1.db
  claim-Leaves id role worker minutes e none h big =
      same-Kept (refused_claim env s vanished id role worker minutes h)
  claim-Leaves id role worker minutes e (some row) h big = absurd (omega arith)

  found_task-Leaves :
      (id : ℕ) (p : Principal) (r : Result Task × State)
      → r.1 ≡ s
      → Leaves (get_task id) s (found_task p r)
  found_task-Leaves id p (ok t, s') same = record {
    kept = λ h. same-Kept (ap (λ (x : State). x.db) same);
  }
  found_task-Leaves id p (err e, s') same = record {
    kept = λ h. same-Kept (ap (λ (x : State). x.db) same);
  }

  handle-Leaves : (p : Principal) (e : Endpoint) → Leaves e s (handle app env p drawn e s)
  unfolding handle
  handle-Leaves p health = untouched-Leaves _ s _
  handle-Leaves p cockpit = untouched-Leaves _ s _
  handle-Leaves p quality_metrics = untouched-Leaves _ s _
  handle-Leaves p resilience = untouched-Leaves _ s _
  handle-Leaves p (pandaos_projection cursor full) = untouched-Leaves _ s _
  handle-Leaves p (trace id) = untouched-Leaves _ s _
  handle-Leaves p (create_task card) = admit-Leaves card (policy_verdict app card)
  handle-Leaves p (get_task id) =
      found_task-Leaves id p (Lifecycle.get_task id s) (get_task-state app env drawn s id)
  handle-Leaves p expire_leases =
      uncaught-Leaves expire_leases s (λ rows. respond 200 (tasks_body rows))
        (Leases.expire_leases env s) (λ a k h. absurd (omega arith))
        (λ x h. same-Kept ((raising_calls_change_nothing env s x).5 h))
  handle-Leaves p release_retries =
      uncaught-Leaves release_retries s (λ rows. respond 200 (tasks_body rows))
        (Failures.release_due_retries env s) (λ a k h. absurd (omega arith))
        (λ x h. same-Kept ((raising_calls_change_nothing env s x).6 h))
  handle-Leaves p (decide id body) =
      caught-Leaves (decide id body) s 200 (approval_body id)
        (Approvals.decide_approval env id body.decision body.decided_by body.reason s) (omega arith)
        (λ x h.
          same-Kept (
            (raising_calls_change_nothing env s x).4 id body.decision body.decided_by body.reason
              h))
  handle-Leaves p (claim id body) =
      checked-Leaves (claim id body) s (may_work_as p body.owner_role body.worker_id) _ _ (
        uncaught-Leaves (claim id body) s claim_answer
          (Leases.claim env id body.owner_role body.worker_id body.lease_minutes s)
          (claim-Leaves id body.owner_role body.worker_id body.lease_minutes (claim id body))
          (λ x h. same-Kept (
            (raising_calls_change_nothing env s x).1 id body.owner_role body.worker_id
              body.lease_minutes h)))
  handle-Leaves p (heartbeat id body) =
      checked-Leaves (heartbeat id body) s (may_work_as p "hermes_nas" body.worker_id) _ _ (
        caught-Leaves (heartbeat id body) s 200 task_body
          (Leases.heartbeat env id body.worker_id body.lease_minutes s) (omega arith)
          (λ x h. record {
            logged = failed_heartbeat env s x id body.worker_id body.lease_minutes h;
            plain = λ k. absurd cc;
          }))
  handle-Leaves p (receipts id r) =
      checked-Leaves (receipts id r) s (may_work_as p "hermes_nas" r.worker_instance) _ _ (
        checked-Leaves (receipts id r) s (r.task_id == id) _ _ (
          caught-Leaves (receipts id r) s 200 task_body (submit_receipt env r s) (omega arith)
            (λ x h. record { logged = failed_receipt env s x r h; plain = λ k. absurd cc })))
  handle-Leaves p (report_failure id r) =
      checked-Leaves (report_failure id r) s (may_work_as p "hermes_nas" r.worker_instance) _ _ (
        checked-Leaves (report_failure id r) s (r.task_id == id) _ _ (
          caught-Leaves (report_failure id r) s 200 decision_body (Failures.report_failure env r s)
            (omega arith) (λ x h. same-Kept ((raising_calls_change_nothing env s x).2 r h))))
  handle-Leaves p (approval_request id body) =
      let card = approval_card app drawn id body in
      checked-Leaves (approval_request id body) s (check_approval_card card) _ _ (
        caught-Leaves (approval_request id body) s 201 (approval_body card.approval_id)
          (Approvals.request_approval env card s) (omega arith)
          (λ x h. same-Kept ((raising_calls_change_nothing env s x).3 card h)))

-- An answer with a status of 400 or more leaves the tables as they were, wherever in the service it
-- comes from. Only the refusal of a heartbeat or of a receipt may add to the log; nothing else of the
-- database changes there either.
pub error_answers_change_nothing :
    (app : App) (env : Env) (request : HttpRequest) (s : State)
    → let (answer, after) = dispatch app env request s in
      400 ≤ answer.status_code
      → OnlyLogged s.db after.db × (is_audited request.endpoint ≡ false → after.db ≡ s.db)
error_answers_change_nothing app env request s big =
    let all =
      dispatch-cases app env request s (Leaves request.endpoint s)
        (λ r big. untouched-Leaves request.endpoint s r)
        (λ p granted good. handle-Leaves app env request.drawn_id s p request.endpoint) in
    let k = all.kept big in (k.logged, k.plain)
