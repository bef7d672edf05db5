-- ===== src/Contracts/Events.antt =====
-- src/harness/contracts.py: `HarnessEventType`, `EVENT_PAYLOAD_FIELDS` and the validator of
-- `EventEnvelopeV1`.
use harness_golden_path.Prelude.{ℕ, String, Bool, List, [], ◌∷◌, map, same_set}

pub data HarnessEventType : Type 0 where
  task_created task_claimed status_changed heartbeat_rejected lease_expired : HarnessEventType
  failure_classified recovery_card_created dead_letter_created retry_scheduled : HarnessEventType
  retry_released receipt_rejected receipt_accepted circuit_closed : HarnessEventType
  approval_requested approval_decided : HarnessEventType

-- `.value` of the event types
unfoldable pub event_value : HarnessEventType → String
event_value task_created = "task_created"
event_value task_claimed = "task_claimed"
event_value status_changed = "status_changed"
event_value heartbeat_rejected = "heartbeat_rejected"
event_value lease_expired = "lease_expired"
event_value failure_classified = "failure_classified"
event_value recovery_card_created = "recovery_card_created"
event_value dead_letter_created = "dead_letter_created"
event_value retry_scheduled = "retry_scheduled"
event_value retry_released = "retry_released"
event_value receipt_rejected = "receipt_rejected"
event_value receipt_accepted = "receipt_accepted"
event_value circuit_closed = "circuit_closed"
event_value approval_requested = "approval_requested"
event_value approval_decided = "approval_decided"

-- The values that a payload of this program holds.
pub data Json : Type 0 where
  null : Json
  text : String → Json
  number : ℕ → Json
  texts : List String → Json
  -- `str()` of a UUID and `isoformat()` of a time
  uuid instant : ℕ → Json

-- A dict with literal keys: they are distinct, so its key set is the set of the listed keys.
abbrev pub Payload : Type 0
Payload = List (String × Json)

unfoldable pub event_payload_fields : HarnessEventType → List String
event_payload_fields task_created = "title" ∷ "project" ∷ []
event_payload_fields task_claimed = "worker" ∷ "attempt" ∷ []
event_payload_fields status_changed = "from" ∷ "to" ∷ "reason" ∷ []
event_payload_fields heartbeat_rejected = "worker" ∷ []
event_payload_fields lease_expired = "action" ∷ []
event_payload_fields failure_classified = "failure_class" ∷ "side_effect_state" ∷ "circuit_key" ∷ []
event_payload_fields recovery_card_created = "recovery_id" ∷ "trigger" ∷ "allowed_actions" ∷ []
event_payload_fields dead_letter_created = "dead_letter_id" ∷ "failure_class" ∷ []
event_payload_fields retry_scheduled = "retry_at" ∷ "delay_seconds" ∷ "attempt" ∷ []
event_payload_fields retry_released = "next_attempt" ∷ []
event_payload_fields receipt_rejected = "reason" ∷ "worker" ∷ []
event_payload_fields receipt_accepted = "outcome" ∷ "status" ∷ "model_ref" ∷ "provider_class" ∷ []
event_payload_fields circuit_closed = "circuit_key" ∷ []
event_payload_fields approval_requested = "approval_id" ∷ "action" ∷ []
event_payload_fields approval_decided = "approval_id" ∷ "decision" ∷ "decided_by" ∷ []

-- `enforce_registered_payload_shape`: neither a missing nor an unexpected field.
unfoldable pub payload_fits : HarnessEventType → Payload → Bool
unfolding event_payload_fields
payload_fits kind payload = same_set (map (λ f. f.0) payload) (event_payload_fields kind)
