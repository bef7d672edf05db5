-- ===== src/Store/Tables.antt =====
-- src/harness/store.py: the tables of `SCHEMA` as lists of rows, in the order of insertion.
-- JSONB columns hold the model that was dumped into them. Times are microseconds.
use harness_golden_path.Prelude.{ℕ, String, Option, List, []}
use harness_golden_path.Contracts.{TaskStatus, FailureClass}
use harness_golden_path.Contracts.Models.{TaskCard, Outcome, ResultReceipt, FailureReport}
use harness_golden_path.Contracts.Events.{HarnessEventType, Payload}

-- agent_tasks
pub record Task : Type 0 where
  pub task_id : ℕ
  pub correlation_id : ℕ
  pub title : String
  pub project : String
  pub owner_role : String
  pub status : TaskStatus
  pub card : TaskCard
  pub idempotency_key : String
  pub approval_required : List String
  pub owner_instance : Option String
  pub claimed_at : Option ℕ
  pub heartbeat_at : Option ℕ
  pub lease_expires_at : Option ℕ
  pub attempt_count : ℕ
  pub created_at : ℕ
  pub next_attempt_at : Option ℕ
  pub last_failure_class : Option FailureClass
  pub circuit_key : Option String

-- agent_events
pub record Event : Type 0 where
  pub event_id : ℕ
  pub task_id : ℕ
  pub correlation_id : ℕ
  pub event_type : HarnessEventType
  pub payload : Payload
  pub created_at : ℕ

pub data ApprovalStatus : Type 0 where
  requested approved rejected : ApprovalStatus

-- approvals
pub record Approval : Type 0 where
  pub approval_id : ℕ
  pub task_id : ℕ
  pub action : String
  pub requested_by : String
  pub status : ApprovalStatus
  pub decided_by : Option String
  pub reason : String
  pub decided_at : Option ℕ
  pub created_at : ℕ

-- routing_receipts
pub record RoutingReceipt : Type 0 where
  pub receipt_id : ℕ
  pub task_id : ℕ
  pub worker_instance : String
  pub outcome : Outcome
  pub receipt : ResultReceipt
  pub created_at : ℕ

-- the texts 'closed' and 'open'
pub data CircuitState : Type 0 where
  closed opened : CircuitState

-- circuit_breakers
pub record Circuit : Type 0 where
  pub circuit_key : String
  pub state : CircuitState
  pub failure_count : ℕ
  pub failure_threshold : ℕ
  pub opened_at : Option ℕ
  pub open_until : Option ℕ
  pub last_failure_class : Option FailureClass
  pub updated_at : ℕ

-- dead_letters
pub record DeadLetter : Type 0 where
  pub dead_letter_id : ℕ
  pub task_id : ℕ
  pub correlation_id : ℕ
  pub failure_class : FailureClass
  pub reason : String
  pub payload : FailureReport
  pub created_at : ℕ
  pub resolved_at : Option ℕ

-- recovery_cards; the program writes no other status than 'open', so it is not kept
pub record RecoveryCard : Type 0 where
  pub recovery_id : ℕ
  pub task_id : ℕ
  pub correlation_id : ℕ
  pub trigger : String
  pub reason : String
  pub allowed_actions : List String
  pub created_at : ℕ

pub record Db : Type 0 where
  pub tasks : List Task
  pub events : List Event
  pub approvals : List Approval
  pub receipts : List RoutingReceipt
  pub circuits : List Circuit
  pub dead_letters : List DeadLetter
  pub recovery_cards : List RecoveryCard

-- What a rollback does not take back: the last value of each BIGSERIAL sequence, and how many
-- identifiers `uuid4` has drawn.
pub record Sequences : Type 0 where
  pub event : ℕ
  pub receipt : ℕ
  pub dead_letter : ℕ
  pub drawn : ℕ

pub record State : Type 0 where
  pub db : Db
  pub sequences : Sequences

abbrev pub empty_db : Db
empty_db = record {
  tasks = [];
  events = [];
  approvals = [];
  receipts = [];
  circuits = [];
  dead_letters = [];
  recovery_cards = [];
}

abbrev pub init_state : State
init_state = record {
  db = empty_db;
  sequences = record { event = 0; receipt = 0; dead_letter = 0; drawn = 0 };
}
