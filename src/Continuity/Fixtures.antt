-- ===== src/Continuity/Fixtures.antt =====
-- src/harness/continuity.py: the fixtures of the exercise. Each call of the store is a transaction with an
-- environment of its own: `at n` is that of the n-th call of a command.
use Prim.Native.String.{◌++◌ as ◌++ₛ◌}
use harness_golden_path.Prelude.{
  ℕ, pos, String, Bool, false, not, ◌&&◌, Option, none, some, List, [], ◌∷◌, ◌==◌, opt_is, is_some,
  length, if◌then◌else◌,
}
use harness_golden_path.Contracts.{
  TaskStatus, recovery_required, ◌is◌, hermes_nas, local_model, internal, operational,
}
use harness_golden_path.Contracts.Models.{TaskCard, ResultReceipt, completed, not_run, unavailable}
use harness_golden_path.Cockpit.Rows.{Collation}
use harness_golden_path.Store.Tables.{Task, RecoveryCard, State}
use harness_golden_path.Store.Txn.{Result, ok, err, StoreError}
use harness_golden_path.Store.Actions.{Env}
use harness_golden_path.Store.Lifecycle.{create_task, get_task}
use harness_golden_path.Store.Leases.{claim, expire_leases}
use harness_golden_path.Store.Receipts.{submit_receipt}
use harness_golden_path.Store.Snapshots.{resilience_snapshot}
use harness_golden_path.Continuity.{Facts, Manifest, state_manifest}

-- an exception of the store, or a RuntimeError of the exercise
pub data Outcome (A : Type 0) : Type 0 where
  returned : A → Outcome A
  raised : StoreError → Outcome A
  not_claimable invariant_failed : Outcome A

abbrev pub Exercise : Type 0 → Type 0
Exercise A = State → Outcome A × State

abbrev from_store : {A : Type 0} → Result A → Outcome A
from_store (ok a) = returned a
from_store (err e) = raised e

abbrev pub call : {A : Type 0} → (State → Result A × State) → Exercise A
call m s = let (r, after) = m s in (from_store r, after)

abbrev continue : {A B : Type 0} → (A → Exercise B) → State → Outcome A → Outcome B × State
continue f s (returned a) = f a s
continue f s (raised e) = (raised e, s)
continue f s not_claimable = (not_claimable, s)
continue f s invariant_failed = (invariant_failed, s)

infixl 5 ◌>>=◌ ◌>>◌
abbrev pub ◌>>=◌ : {A B : Type 0} → Exercise A → (A → Exercise B) → Exercise B
◌>>=◌ m f s = let (r, after) = m s in continue f after r

abbrev pub ◌>>◌ : {A B : Type 0} → Exercise A → Exercise B → Exercise B
m >> k = m >>= λ _. k

-- READY_TASK_ID, EXPIRED_TASK_ID, DONE_TASK_ID
abbrev pub ready_task_id : ℕ
ready_task_id = 50510663839827105411022943984801546241

abbrev pub expired_task_id : ℕ
expired_task_id = 50510663839827105411022943984801546242

abbrev pub done_task_id : ℕ
done_task_id = 50510663839827105411022943984801546243

-- `_fixture_card`; `correlation_id` is the number of the text with the suffix at its end
unfoldable pub fixture_card : ℕ → ℕ → String → TaskCard
fixture_card task_id correlation_id suffix = record {
  task_id = task_id;
  correlation_id = correlation_id;
  title = "P2-6 continuity fixture " ++ₛ suffix;
  project = "harness-golden-path";
  task_class = "read_only_monitor";
  data_classification = internal;
  projection_kind = operational;
  owner_role = hermes_nas;
  objective = "Prove deterministic backup, restore, and lease recovery behavior.";
  scope = record { include = "isolated-p2-6-test-stack" ∷ []; exclude = [] };
  acceptance = "Recovered state matches the source manifest exactly" ∷ [];
  budget = record {
    max_runtime_minutes = 30;
    max_attempts = 2;
    max_incremental_cloud_cost_chf = 0;
  };
  model_routing = record {
    permitted_provider_classes = local_model ∷ [];
    default_route = "deterministic_monitor" ∷ [];
  };
  idempotency_key = "sha256:p2-6-continuity-fixture-" ++ₛ suffix;
  approval_required = [];
}

abbrev pub ready_card : TaskCard
ready_card = fixture_card ready_task_id 50510663839827105411022943984801546497 "01"

abbrev pub expired_card : TaskCard
expired_card = fixture_card expired_task_id 50510663839827105411022943984801546498 "02"

abbrev pub done_card : TaskCard
done_card = fixture_card done_task_id 50510663839827105411022943984801546499 "03"

-- the receipt of `seed_fixture`
abbrev pub fixture_receipt : ResultReceipt
fixture_receipt = record {
  task_id = done_task_id;
  correlation_id = 50510663839827105411022943984801546499;
  worker_instance = "p2-6-completed-worker";
  outcome = completed;
  summary = "Controlled continuity fixture completed without side effects.";
  artifacts = record {
    branch = none;
    worktree_ref = none;
    commit_sha = none;
    pull_request = none;
    test_report = none;
  };
  validation = record { lint = not_run; tests = not_run; details = "" };
  cost_receipt = record {
    provider_class = local_model;
    model_ref = "deterministic_monitor";
    incremental_cost_chf = 0;
    subscription_quota_consumed = false;
    quota_status = unavailable;
  };
}

abbrev manifest_of : Facts → Exercise Manifest
manifest_of facts s = (returned (state_manifest facts s.db), s)

-- `seed_fixture`, without `init_db`
unfoldable pub seed_fixture : Facts → (ℕ → Env) → Exercise Manifest
unfolding fixture_card create_task claim submit_receipt state_manifest
seed_fixture facts at = do
  call (create_task (at 0) ready_card)
  call (create_task (at 1) expired_card)
  call (create_task (at 2) done_card)
  call (claim (at 3) done_task_id "hermes_nas" "p2-6-completed-worker" (pos 10))
  call (submit_receipt (at 4) fixture_receipt)
  manifest_of facts

abbrev claimed_or_fail : Option Task → Exercise Task
claimed_or_fail none s = (not_claimable, s)
claimed_or_fail (some row) s = (returned row, s)

-- `claim_crash_fixture`, with the row whose fields it answers
unfoldable pub claim_crash_fixture : Env → Exercise Task
unfolding claim
claim_crash_fixture env = do
  row ← call (claim env expired_task_id "hermes_nas" "p2-6-crashed-worker" (pos 0))
  claimed_or_fail row

-- the dictionary `result`
pub record Recovery : Type 0 where
  pub expired_count : ℕ
  pub second_expiry_count : ℕ
  pub status : TaskStatus
  pub attempt_count : ℕ
  pub recovery_card_count : ℕ
  pub recovery_trigger : Option String
  pub blind_retry_claimed : Bool

abbrev first_trigger : List RecoveryCard → Option String
first_trigger [] = none
first_trigger (card ∷ _) = some card.trigger

abbrev cards_for : ℕ → List RecoveryCard → List RecoveryCard
cards_for task_id [] = []
cards_for task_id (card ∷ cards) =
    let rest = cards_for task_id cards in if card.task_id == task_id then card ∷ rest else rest

-- `result == expected`
unfoldable pub is_expected : Recovery → Bool
unfolding ◌is◌
is_expected r =
    (r.expired_count == 1)
    && (r.second_expiry_count == 0)
    && (r.status is recovery_required)
    && (r.attempt_count == 1)
    && (r.recovery_card_count == 1)
    && opt_is r.recovery_trigger "lease_expired"
    && not r.blind_retry_claimed

abbrev check : Recovery → Exercise Recovery
check r s = ((if is_expected r then returned r else invariant_failed), s)

abbrev recovery_of : Collation → List Task → List Task → Option Task → Task → Exercise Recovery
recovery_of lt expired second_expiry blind_retry task s =
    let cards = cards_for expired_task_id (resilience_snapshot lt s).recovery_cards in
    check
      (record {
        expired_count = length expired;
        second_expiry_count = length second_expiry;
        status = task.status;
        attempt_count = task.attempt_count;
        recovery_card_count = length cards;
        recovery_trigger = first_trigger cards;
        blind_retry_claimed = is_some blind_retry;
      })
      s

-- `recover_expired_fixture`
unfoldable pub recover_expired_fixture : Collation → (ℕ → Env) → Exercise Recovery
unfolding expire_leases claim get_task resilience_snapshot is_expected
recover_expired_fixture lt at = do
  expired ← call (expire_leases (at 0))
  second_expiry ← call (expire_leases (at 1))
  blind_retry ← call (claim (at 2) expired_task_id "hermes_nas" "p2-6-blind-retry" (pos 10))
  task ← call (get_task expired_task_id)
  recovery_of lt expired second_expiry blind_retry task
