-- ===== src/Watcher/Service.antt =====
-- The worker of src/harness/nas_watcher.py in front of the API of src/harness/app.py: a world in which a
-- request of the worker is one that the service handles.
use harness_golden_path.Prelude.{ℕ, ◌+◌, ◌*◌, ◌≡◌, refl, String, Option, some, List, ◌∷◌}
use Prim.Native.String.{◌++◌ as ◌++ₛ◌}
use harness_golden_path.Auth.{Outcome, authenticate, token_invalid}
use harness_golden_path.Store.Tables.{State}
use harness_golden_path.Store.Actions.{Env}
use harness_golden_path.App.Http.{HttpRequest}
use harness_golden_path.App.Handlers.{App, dispatch, scope_of, refuse}
use harness_golden_path.App.Paths.{scope_for, paths_guarded}
use harness_golden_path.Watcher.Client.{
  Call, Document, Report, World, answered, raised, authentication_revoked, request,
}
use harness_golden_path.Watcher.Run.{NasWatcher, run, claim_or_resume}
use harness_golden_path.Watcher.Ownership.{own_claim}

-- The service with its database, the time, and what the worker has printed.
pub record Site : Type 0 where
  pub state : State
  pub now : ℕ
  pub reports : List Report

-- What the service does not have: the documents of GitHub, and the texts of numbers.
pub record Outside : Type 0 where
  pub document : String → Option Document
  pub decimal : ℕ → String
  pub uuid_text : ℕ → String
  pub uuid4 : ℕ → ℕ

abbrev pub env_at : Outside → ℕ → Env
env_at outside now = record { now = now; uuid4 = outside.uuid4 }

abbrev pub http_of : Call → HttpRequest
http_of call = record {
  endpoint = call.endpoint;
  path_text = call.path_text;
  authorization = some call.authorization;
  drawn_id = 0;
}

abbrev pub api_world : App → Outside → World Site
api_world app outside = record {
  urlopen = λ call w.
      let (answer, after) = dispatch app (env_at outside w.now) (http_of call) w.state in
      (answered answer, record w { state = after });
  document = λ url w. (outside.document url, w);
  clock = λ w. w.now;
  sleeper = λ seconds w. record w { now = w.now + seconds * 1000000 };
  emit = λ report w. record w { reports = report ∷ w.reports };
  decimal = outside.decimal;
  uuid_text = outside.uuid_text;
}

abbrev pub bearer : String → String
bearer token = "Bearer " ++ₛ token

refused_claim :
    (app : App) (env : Env) (watcher : NasWatcher) (s : State)
    → authenticate app.files app.authorizer (some (bearer watcher.token)) "tasks:claim"
      ≡ Outcome.err token_invalid
    → dispatch app env
        (http_of (record {
          endpoint = own_claim watcher;
          path_text = watcher.task_id;
          authorization = bearer watcher.token;
        }))
        s
      ≡ (refuse token_invalid, s)
unfolding dispatch scope_of scope_for
refused_claim app env watcher s invalid =
    rw (paths_guarded (own_claim watcher) watcher.task_id refl, invalid) refl

-- A worker whose token the service no longer knows does nothing: its run raises `AuthenticationRevoked`,
-- and neither the database nor what the worker has printed changes.
pub revoked_worker_stops :
    (app : App) (outside : Outside) (watcher : NasWatcher) (fuel : ℕ) (w : Site)
    → authenticate app.files app.authorizer (some (bearer watcher.token)) "tasks:claim"
      ≡ Outcome.err token_invalid
    → run (api_world app outside) watcher fuel w ≡ (raised authentication_revoked, w)
unfolding run claim_or_resume request refuse
revoked_worker_stops app outside watcher fuel w invalid =
    rw (refused_claim app (env_at outside w.now) watcher w.state invalid) refl
