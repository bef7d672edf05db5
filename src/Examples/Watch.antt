-- ===== src/Examples/Watch.antt =====
-- Examples for the worker of src/harness/nas_watcher.py and for the policies of the repository.
use harness_golden_path.Prelude.{
  ℕ, ◌≤◌, ◌≡◌, ◌≢◌, refl, String, true, none, some, [], ◌∷◌, arith, pos, str_lt, map,
}
use harness_golden_path.Contracts.{confidential_local, secret}
use harness_golden_path.Contracts.Validation.{check_card}
use harness_golden_path.Auth.{Outcome, authenticate, token_invalid}
use harness_golden_path.App.Http.{Body, task_body, respond}
use harness_golden_path.Policy.Shipped.{shipped_verdict}
use harness_golden_path.Policy.ShippedTasks.{Shape, shipped_policies_admit}
use harness_golden_path.Watcher.Client.{
  World, Document, answered, returned, raised, out_of_fuel, authentication_revoked,
}
use harness_golden_path.Watcher.Run.{NasWatcher, claim_or_resume, run}
use harness_golden_path.Watcher.Pilot.{build_pilot_task}
use harness_golden_path.Watcher.Deadline.{IsClocked, run_comes_to_end}
use harness_golden_path.Watcher.Ownership.{TakenUp, takes_up_its_own}
use harness_golden_path.Watcher.Offer.{pilot_task_is_accepted}
use harness_golden_path.Watcher.Service.{Site, Outside, api_world, bearer, revoked_worker_stops}
use harness_golden_path.Store.Tables.{Task, init_state}
use harness_golden_path.Store.Actions.{insert_event, set_status}
use harness_golden_path.Contracts.{ready, done}
use harness_golden_path.Store.Lifecycle.{insert_row}
use harness_golden_path.Continuity.{Facts}
use harness_golden_path.Continuity.Fixtures
use harness_golden_path.Continuity.Fixtures.{seed_fixture, recover_expired_fixture}
use harness_golden_path.Continuity.Exercise.{crashed, expected, recovery_succeeds}
use harness_golden_path.Examples.{env, later, card, idle, running, finished, state_with}
use harness_golden_path.Examples.Rules.{token}
use harness_golden_path.Examples.Service.{app}

abbrev identifier : String
identifier = "26000000-0000-4000-8000-000000000001"

pilot_task_is_accepted_example :
    (check_card (build_pilot_task (λ _. identifier) 1 7) ≡ true)
    × (shipped_verdict (build_pilot_task (λ _. identifier) 1 7) ≡ none)
pilot_task_is_accepted_example =
    pilot_task_is_accepted (λ _. identifier) 1 7 (ground arith) (ground arith)

allowed : shipped_verdict card ≡ none
unfolding shipped_verdict
allowed = refl

shipped_policies_admit_example :
    Shape card
    × (card.data_classification ≢ confidential_local)
    × (card.data_classification ≢ secret)
shipped_policies_admit_example = shipped_policies_admit card allowed

abbrev document : Document
document = record { sha = some "0a1b2c"; workflow_runs = none }

abbrev outside : Outside
outside = record {
  document = λ url. some document;
  decimal = λ n. "2";
  uuid_text = λ n. identifier;
  uuid4 = λ n. n;
}

abbrev watcher_with : String → NasWatcher
watcher_with token = record {
  token = token;
  repository = "visualfox-ch/harness-golden-path";
  task_id = identifier;
  uuid = 1;
  worker_id = "svc-hermes-nas:p2-4";
  end_at = record { microseconds = 601000000; has_zone = true };
  interval_seconds = pos 300;
  lease_minutes = pos 10;
}

abbrev site : Site
site = record { state = state_with idle []; now = 1000000; reports = [] }

clocked : IsClocked (api_world app outside)
clocked = record {
  network = λ call w. omega arith;
  fetch = λ url w. omega arith;
  output = λ report w. omega arith;
  sleeps = λ seconds w. omega arith;
}

run_comes_to_end_example :
    let ended = run (api_world app outside) (watcher_with token) 3 site in
    (ended.0 ≢ out_of_fuel) × ((body : Body) → ended.0 ≡ returned body → 601000000 ≤ ended.1.now)
run_comes_to_end_example =
    run_comes_to_end (api_world app outside) (watcher_with token) 300 2 site clocked refl
      (omega arith)

abbrev stranger : String
stranger = "00000000000000000000000000000000"

unknown_token :
    authenticate app.files app.authorizer (some (bearer stranger)) "tasks:claim"
    ≡ Outcome.err token_invalid
unfolding authenticate
unknown_token = refl

revoked_worker_stops_example :
    run (api_world app outside) (watcher_with stranger) 3 site
    ≡ (raised authentication_revoked, site)
revoked_worker_stops_example =
    revoked_worker_stops app outside (watcher_with stranger) 3 site unknown_token

-- a world that answers each call with the same task
abbrev scripted : World ℕ
scripted = record {
  urlopen = λ call w. (answered (respond 200 (task_body running)), w);
  document = λ url w. (none, w);
  clock = λ w. w;
  sleeper = λ seconds w. w;
  emit = λ report w. w;
  decimal = λ n. "";
  uuid_text = λ n. identifier;
}

claims_running : (claim_or_resume scripted (watcher_with token) 0).0 ≡ returned (task_body running)
unfolding claim_or_resume
claims_running = refl

takes_up_its_own_example : TakenUp scripted (watcher_with token) 0 (task_body running)
takes_up_its_own_example =
    takes_up_its_own scripted (watcher_with token) 0 (task_body running) claims_running

abbrev facts : Facts
facts = record { database = "harness"; collation = str_lt; digest = λ db. "" }

seeded_rows :
    map (λ (t : Task). t.status) (seed_fixture facts (λ n. env) init_state).1.db.tasks
    ≡ ready ∷ ready ∷ done ∷ []
unfolding seed_fixture insert_row insert_event set_status
seeded_rows = refl

recovery_succeeds_example :
    (recover_expired_fixture str_lt
      (λ n. later)
      (crashed idle running finished 5000000 [] []
        (record { event = 0; receipt = 0; dead_letter = 0; drawn = 0 }))).0
    ≡ Fixtures.returned expected
recovery_succeeds_example =
    recovery_succeeds str_lt (λ n. later) idle running finished 5000000 [] []
      (record { event = 0; receipt = 0; dead_letter = 0; drawn = 0 }) (omega arith)
