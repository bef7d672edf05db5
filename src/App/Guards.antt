-- ===== src/App/Guards.antt =====
-- The middleware of src/harness/app.py: what has to hold before a handler runs.
use harness_golden_path.Prelude.{
  ◌≡◌, refl, String, true, Bool-cases, inl, inr, Option, none, some, ◌≤◌, arith,
}
use harness_golden_path.Auth.{Principal, Outcome, AuthError, development, authenticate}
use harness_golden_path.Store.Tables.{State}
use harness_golden_path.Store.Actions.{Env}
use harness_golden_path.App.Http.{HttpRequest, Response, respond, detail}
use harness_golden_path.App.Answers.{Answer}
use harness_golden_path.App.Handlers.{
  App, handle, is_well_formed, call_next, refuse, scope_of, by_scope, pass_principal, dispatch,
}

-- What the middleware has seen of the principal that a handler works for.
pub data Granted (app : App) (request : HttpRequest) (p : Principal) : Type 0 where
  public : scope_of request ≡ none → p ≡ development → Granted app request p
  scoped :
      (scope : String)
      → scope_of request ≡ some scope
      → authenticate app.files app.authorizer request.authorization scope ≡ Outcome.ok p
      → Granted app request p

refuse-error : (e : AuthError) → 400 ≤ (refuse e).status_code
unfolding refuse
refuse-error e = ground arith

-- A request is refused with the state as it was, or it reaches its handler for a principal that the
-- middleware has granted, with a body that is well formed.
module _ (app : App) (env : Env) (request : HttpRequest) (s : State) (P : Answer → Type 0)
    (refused : (r : Response) → 400 ≤ r.status_code → P (r, s))
    (reached : (p : Principal)
      → Granted app request p
      → is_well_formed request.endpoint ≡ true
      → P (handle app env p request.drawn_id request.endpoint s)) where
  call_next-cases : (p : Principal) → Granted app request p → P (call_next app env p request s)
  unfolding call_next
  call_next-cases p g = elim (Bool-cases (is_well_formed request.endpoint)) [
    | inl good ↦ rw good (reached p g good)
    | inr bad ↦ rw bad (refused (respond 422 (detail "validation error")) (omega arith))
  ]

  pass-cases :
      (scope : String) (o : Outcome Principal)
      → scope_of request ≡ some scope
      → authenticate app.files app.authorizer request.authorization scope ≡ o
      → P (pass_principal app env request s o)
  pass-cases scope (Outcome.ok p) h k = call_next-cases p (scoped scope h k)
  pass-cases scope (Outcome.err e) h k = refused (refuse e) (refuse-error e)

  by_scope-cases : (o : Option String) → scope_of request ≡ o → P (by_scope app env request s o)
  by_scope-cases none h = call_next-cases development (public h refl)
  by_scope-cases (some scope) h =
      pass-cases scope (authenticate app.files app.authorizer request.authorization scope) h refl

  pub dispatch-cases : P (dispatch app env request s)
  unfolding dispatch
  dispatch-cases = by_scope-cases (scope_of request) refl
