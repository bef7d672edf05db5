-- ===== src/Continuity.antt =====
-- src/harness/continuity.py: the manifest of the state, and which host a command may run against.
pub mod Fixtures
pub mod Exercise
use harness_golden_path.Prelude.{
  ℕ, String, Bool, true, false, not, ◌||◌, Option, none, some, List, [], ◌∷◌, ◌=s=◌, opt_is, ltb,
  max, length, sort_by, any, if◌then◌else◌,
}
use harness_golden_path.Cockpit.Rows.{Collation}
use harness_golden_path.Store.Tables.{Event, Db}

-- TABLE_KEYS: each table in the order of its key, by `ORDER BY`
unfoldable pub ordered : Collation → Db → Db
ordered lt db = record {
  tasks = sort_by (λ a b. ltb a.task_id b.task_id) db.tasks;
  events = sort_by (λ a b. ltb a.event_id b.event_id) db.events;
  approvals = sort_by (λ a b. ltb a.approval_id b.approval_id) db.approvals;
  receipts = sort_by (λ a b. ltb a.receipt_id b.receipt_id) db.receipts;
  circuits = sort_by (λ a b. lt a.circuit_key b.circuit_key) db.circuits;
  dead_letters = sort_by (λ a b. ltb a.dead_letter_id b.dead_letter_id) db.dead_letters;
  recovery_cards = sort_by (λ a b. ltb a.recovery_id b.recovery_id) db.recovery_cards;
}

pub record Manifest : Type 0 where
  pub database : String
  pub sha256 : String
  pub counts : List (String × ℕ)
  pub max_event_id : ℕ

-- `max((row["event_id"] …), default=0)`
unfoldable pub max_event : List Event → ℕ
max_event [] = 0
max_event (e ∷ es) = max e.event_id (max_event es)

-- The name of the database, the order of its texts, and the sha256 of the canonical JSON of all rows.
pub record Facts : Type 0 where
  pub database : String
  pub collation : Collation
  pub digest : Db → String

-- `state_manifest`
unfoldable pub state_manifest : Facts → Db → Manifest
unfolding ordered max_event
state_manifest facts db =
    let payload = ordered facts.collation db in
    record {
      database = facts.database;
      sha256 = facts.digest payload;
      counts =
          ("agent_tasks", length payload.tasks)
          ∷ ("agent_events", length payload.events)
          ∷ ("approvals", length payload.approvals)
          ∷ ("routing_receipts", length payload.receipts)
          ∷ ("circuit_breakers", length payload.circuits)
          ∷ ("dead_letters", length payload.dead_letters)
          ∷ ("recovery_cards", length payload.recovery_cards)
          ∷ [];
      max_event_id = max_event payload.events;
    }

-- the choices of the argument parser
pub data Command : Type 0 where
  seed crash_worker manifest recover : Command

abbrev pub allowed_hosts : Command → List String
allowed_hosts seed = "source" ∷ []
allowed_hosts crash_worker = "source" ∷ []
allowed_hosts manifest = "source" ∷ "restore" ∷ []
allowed_hosts recover = "restore" ∷ []

-- what `_require_fixture_host` lets pass: the variable of the mode, and the host of the store's URL
unfoldable pub require_fixture_host : Command → Option String → Option String → Bool
require_fixture_host command mode host =
    if not (opt_is mode "1")
    then false
    else any (λ allowed. opt_is host allowed) (allowed_hosts command)
