-- ===== src/Cockpit/Risk.antt =====
-- What the risk panel and the knowledge panel of the cockpit tell.
use harness_golden_path.Metrics.{is_operational}
use harness_golden_path.Prelude.{
  ℕ, ◌≡◌, sym, ==_iff, opt_is, opt_is_iff, ◌≢◌, ◌≤◌, ◌⊎◌, refl, true, some, none, Bool, Bool-cases,
  inl, inr, false, ◌&&◌, List, [], ◌∷◌, All, any, select, count, str_mem, arith,
}
use harness_golden_path.Contracts.{
  claimed, in_progress, blocked, failed, recovery_required, ◌is◌, is_iff, operational,
}
use harness_golden_path.Policy.{Catalog, RoutingPolicy}
use harness_golden_path.Contracts.Events.{
  HarnessEventType, event_value, task_created, task_claimed, status_changed, heartbeat_rejected,
  lease_expired, failure_classified, recovery_card_created, dead_letter_created, retry_scheduled,
  retry_released, receipt_rejected, receipt_accepted, circuit_closed, approval_requested,
  approval_decided,
}
use harness_golden_path.Store.Tables.{Task, Event, State, Db, Circuit, opened}
use harness_golden_path.Store.Actions.{Env, is_execution, before, after, is_open, by_id}
use harness_golden_path.Store.Leases.{expire_leases, lease_expired_at}
use harness_golden_path.Store.Recovery.{IsFreshFrom, expire_leases_complete}
use harness_golden_path.Cockpit.Models.{available, RiskSummary}
use harness_golden_path.Cockpit.Rows.{
  Collation, operational_task, risk_summary, has_risk, is_knowledge,
}
use harness_golden_path.Cockpit.Panels.{risk_panel, build_cockpit_snapshot, knowledge_panel}

-- One of the rows of a list.
abbrev Within : {A : Type 0} → A → List A → Type 0
Within x [] = ⊥
Within x (y ∷ ys) = (y ≡ x) ⊎ Within x ys

from_rows : {A : Type 0} (P : A → Type 0) (xs : List A) → ((x : A) → Within x xs → P x) → All P xs
from_rows P [] h = tt
from_rows P (x ∷ xs) h = (h x (inl refl), from_rows P xs λ y m. h y (inr m))

not_counted :
    {A : Type 0} (p : A → Bool) (xs : List A) (x : A) → count p xs ≡ 0 → Within x xs → p x ≡ false
unfolding count
not_counted p [] x h m = absurd m
not_counted p (y ∷ ys) x h (inl e) = ground arith
not_counted p (y ∷ ys) x h (inr m) = not_counted p ys x (ground arith) m

-- An operational task is one of the rows that the query sees.
Within-select :
    (tasks : List Task) (t : Task)
    → operational_task t ≡ true
    → Within t tasks
    → Within t (select operational_task tasks)
Within-select [] t op m = m
Within-select (x ∷ xs) t op (inl e) = rw (e, op) (inl refl)
Within-select (x ∷ xs) t op (inr m) = elim (Bool-cases (operational_task x)) [
  | inl yes_it ↦ rw yes_it (inr (Within-select xs t op m))
  | inr no_it ↦ rw no_it (Within-select xs t op m)
]

any-Within :
    (p : Task → Bool) (ts : List Task) (t : Task) → Within t ts → p t ≡ true → any p ts ≡ true
any-Within p [] t m h = absurd m
any-Within p (x ∷ xs) t (inl e) h = ground arith
any-Within p (x ∷ xs) t (inr m) h = ground (arith, any-Within p xs t m h)

contradict : (b : Bool) → b ≡ true → b ≡ false → ⊥
contradict b h k = cc

in_time_of :
    (now : ℕ) (t : Task)
    → (t.status ≡ claimed) ⊎ (t.status ≡ in_progress)
    → (until : ℕ) → t.lease_expires_at ≡ some until
    → (is_execution t.status && before t.lease_expires_at now) ≡ false
    → now ≤ until
in_time_of now t works until lease h = grind (arith, works, lease, h)

ended :
    (now : ℕ) (c : Circuit) (until : ℕ)
    → c.state ≡ opened
    → c.open_until ≡ some until
    → (named : Bool) → named ≡ true
    → (is_open c.state && after c.open_until now && named) ≡ false
    → until ≤ now
ended now c until has_opened ends named a h = grind (arith, has_opened, ends, a, h)

shown : (t : Task) → t.card.projection_kind ≡ operational → operational_task t ≡ true
unfolding is_operational
shown t op = rw op refl

quiet :
    (r : RiskSummary)
    → has_risk r ≡ false
    → (r.blocked_count ≡ 0)
      × (r.failed_count ≡ 0)
      × (r.recovery_count ≡ 0)
      × (r.expired_active_lease_count ≡ 0)
      × (r.open_dead_letter_count ≡ 0)
      × (r.open_recovery_card_count ≡ 0)
      × (r.open_circuit_count ≡ 0)
unfolding has_risk
quiet r h = ground arith

-- A task that gives no cause for concern at a time: it is not blocked, failed or in recovery, no lease of
-- it has run out in execution, it has no unresolved dead letter and no recovery card, and its circuit is
-- not open.
pub record IsCalm (now : ℕ) (db : Db) (t : Task) : Type 0 where
  pub not_blocked : t.status ≢ blocked
  pub not_failed : t.status ≢ failed
  pub not_lost : t.status ≢ recovery_required
  pub in_time :
      (t.status ≡ claimed) ⊎ (t.status ≡ in_progress)
      → (until : ℕ) → t.lease_expires_at ≡ some until
      → now ≤ until
  pub no_letter : All (λ d. d.task_id ≡ t.task_id → d.resolved_at ≢ none) db.dead_letters
  pub no_card : All (λ c. c.task_id ≢ t.task_id) db.recovery_cards
  pub no_circuit :
      All
        (λ c.
          c.state ≡ opened
          → t.circuit_key ≡ some c.circuit_key
          → (until : ℕ) → c.open_until ≡ some until
          → until ≤ now)
        db.circuits

-- The risk panel says `available` only if each operational task is calm: it is not blocked, failed or in
-- recovery, its lease has not run out in execution, and no unresolved dead letter, recovery card or open
-- circuit is of it.
pub quiet_panel_is_quiet :
    (lt : Collation) (env : Env) (db : Db) (models : Catalog) (policy : RoutingPolicy)
    → (build_cockpit_snapshot lt env db models policy).panels.risks.status ≡ available
    → All (λ t. t.card.projection_kind ≡ operational → IsCalm env.now db t) db.tasks
unfolding build_cockpit_snapshot risk_panel risk_summary
quiet_panel_is_quiet lt env db models policy h =
    let q = quiet (risk_summary env db) (ground arith) in
    let rows = select operational_task db.tasks in
    from_rows (λ t. t.card.projection_kind ≡ operational → IsCalm env.now db t) db.tasks
      λ t m op.
        let seen = Within-select db.tasks t (shown t op) m in
        record {
          not_blocked = λ e.
              let n = not_counted (λ x. x.status is blocked) rows t q.0 seen in
              contradict (t.status is blocked) ((is_iff t.status blocked).1 e) n;
          not_failed = λ e.
              let n = not_counted (λ x. x.status is failed) rows t q.1 seen in
              contradict (t.status is failed) ((is_iff t.status failed).1 e) n;
          not_lost = λ e.
              let n = not_counted (λ x. x.status is recovery_required) rows t q.2 seen in
              contradict (t.status is recovery_required) ((is_iff t.status recovery_required).1 e)
                n;
          in_time = λ works until lease.
              let n =
                not_counted (λ x. is_execution x.status && before x.lease_expires_at env.now) rows t
                  q.3 seen in
              in_time_of env.now t works until lease n;
          no_letter = from_rows _ db.dead_letters λ d md same unresolved.
              let h = not_counted _ db.dead_letters d q.4 md in
              let a =
                any-Within (by_id d.task_id) rows t seen
                  ((==_iff t.task_id d.task_id).1 (sym same)) in
              ground arith;
          no_card = from_rows _ db.recovery_cards λ c mc same.
              let h = not_counted _ db.recovery_cards c q.5 mc in
              let a =
                any-Within (by_id c.task_id) rows t seen
                  ((==_iff t.task_id c.task_id).1 (sym same)) in
              contradict (any (by_id c.task_id) rows) a h;
          no_circuit = from_rows _ db.circuits λ c mc has_opened key until ends.
              let h = not_counted _ db.circuits c q.6 mc in
              let a =
                any-Within (λ x. opt_is x.circuit_key c.circuit_key) rows t seen
                  ((opt_is_iff t.circuit_key c.circuit_key).1 key) in
              ended env.now c until has_opened ends _ a h;
        }

no_expired :
    (p : Task → Bool) (tasks : List Task)
    → any p tasks ≡ false
    → count p (select operational_task tasks) ≡ 0
unfolding count
no_expired p [] h = refl
no_expired p (t ∷ ts) h = elim (Bool-cases (operational_task t)) [
  | inr no_it ↦ rw no_it (no_expired p ts (ground arith))
  | inl yes_it ↦ rw yes_it (ground (arith, no_expired p ts))
]

-- Once `expire_leases` has run, the cockpit of that moment shows no expired lease of a task in
-- execution, where `uuid4` draws new identifiers.
pub expiry_clears_the_panel :
    (lt : Collation) (env : Env) (s : State) (models : Catalog) (policy : RoutingPolicy)
    → IsFreshFrom env s.sequences.drawn s.db.recovery_cards
    → let (answer, later) = expire_leases env s in
      let panels = (build_cockpit_snapshot lt env later.db models policy).panels in
      panels.risks.content.expired_active_lease_count ≡ 0
unfolding build_cockpit_snapshot risk_panel risk_summary lease_expired_at
expiry_clears_the_panel lt env s models policy fresh =
    let done = expire_leases_complete env s fresh in
    no_expired (lease_expired_at env.now) (expire_leases env s).1.db.tasks done.3

no_knowledge :
    (kind : HarnessEventType)
    → str_mem (event_value kind) ("knowledge_captured" ∷ "handover_recorded" ∷ []) ≡ false
unfolding event_value
no_knowledge task_created = refl
no_knowledge task_claimed = refl
no_knowledge status_changed = refl
no_knowledge heartbeat_rejected = refl
no_knowledge lease_expired = refl
no_knowledge failure_classified = refl
no_knowledge recovery_card_created = refl
no_knowledge dead_letter_created = refl
no_knowledge retry_scheduled = refl
no_knowledge retry_released = refl
no_knowledge receipt_rejected = refl
no_knowledge receipt_accepted = refl
no_knowledge circuit_closed = refl
no_knowledge approval_requested = refl
no_knowledge approval_decided = refl

absent_from : (events : List Event) → count is_knowledge events ≡ 0
unfolding count is_knowledge
absent_from [] = refl
absent_from (e ∷ es) = rw (no_knowledge e.event_type) (omega (arith, absent_from es))

-- The program writes no event of the types that the knowledge panel looks for: its number of
-- knowledge events is always 0.
pub knowledge_events_absent :
    (lt : Collation) (env : Env) (db : Db) (models : Catalog) (policy : RoutingPolicy)
    → let panels = (build_cockpit_snapshot lt env db models policy).panels in
      panels.knowledge.content.knowledge_event_count ≡ 0
unfolding build_cockpit_snapshot knowledge_panel is_knowledge
knowledge_events_absent lt env db models policy = absent_from db.events
