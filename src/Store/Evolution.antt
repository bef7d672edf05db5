-- ===== src/Store/Evolution.antt =====
-- A task of src/harness/store.py over a run of calls: its row, its status along TRANSITIONS of
-- src/harness/contracts.py, its card.
use harness_golden_path.Prelude.{
  ℕ, ℤ, ◌≡◌, ◌∙◌, sym, subst, ◌≤◌, refl, String, Bool, Bool-cases, true, ◌&&◌, inl, inr, ◌⊎◌, none,
  some, List, [], ◌∷◌, ◌++◌, arith, find, update,
}
use harness_golden_path.Contracts.{TaskStatus, done, cancelled, may_move, ◌is◌, is_iff}
use harness_golden_path.Contracts.Graph.{Reach, here, move}
use harness_golden_path.Store.Tables.{Task, State, Circuit}
use harness_golden_path.Store.Actions.{Env, by_id, find_task, with_status, is_execution}
use harness_golden_path.Store.Lifecycle.{new_task}
use harness_golden_path.Store.Moves.{with_status-id}
use harness_golden_path.Store.Leases.{
  can_claim, take_claim, holds_lease, renew, lease_expired_at, to_recovery,
}
use harness_golden_path.Store.Failures.{schedule, is_due, release}
use harness_golden_path.Store.Requests.{Request, run}
use harness_golden_path.Store.Rows.{find-update, find-append}
use harness_golden_path.Store.Keeps.{Anyone, Laws}
use harness_golden_path.Store.Keeps.Calls.{run_keeps}

Reach-trans : {s t u : TaskStatus} → Reach s t → Reach t u → Reach s u
Reach-trans a here = a
Reach-trans a (move b legal) = move (Reach-trans a b) legal

-- What a later version of a task's row keeps of an earlier one.
pub record Evolves (old new : Task) : Type 0 where
  pub moves : Reach old.status new.status
  pub same_card : new.card ≡ old.card
  pub same_correlation : new.correlation_id ≡ old.correlation_id
  pub same_key : new.idempotency_key ≡ old.idempotency_key
  pub same_approvals : new.approval_required ≡ old.approval_required
  pub attempts : old.attempt_count ≤ new.attempt_count

Evolves-refl : (t : Task) → Evolves t t
Evolves-refl t = record {
  moves = here;
  same_card = refl;
  same_correlation = refl;
  same_key = refl;
  same_approvals = refl;
  attempts = ground arith;
}

Evolves-trans : (a b c : Task) → Evolves a b → Evolves b c → Evolves a c
Evolves-trans a b c h k = record {
  moves = Reach-trans h.moves k.moves;
  same_card = k.same_card ∙ h.same_card;
  same_correlation = k.same_correlation ∙ h.same_correlation;
  same_key = k.same_key ∙ h.same_key;
  same_approvals = k.same_approvals ∙ h.same_approvals;
  attempts = grind (arith, h.attempts, k.attempts);
}

-- A change that leaves the status, or moves it once.
stays :
    (old : Task) (new : Task)
    → new.status ≡ old.status
    → new.card ≡ old.card
    → new.correlation_id ≡ old.correlation_id
    → new.idempotency_key ≡ old.idempotency_key
    → new.approval_required ≡ old.approval_required
    → old.attempt_count ≤ new.attempt_count
    → Evolves old new
stays old new s c i k a n = record {
  moves = subst (λ t. Reach old.status t) (sym s) here;
  same_card = c;
  same_correlation = i;
  same_key = k;
  same_approvals = a;
  attempts = n;
}

moves_once :
    (old : Task) (new : Task)
    → may_move old.status new.status ≡ true
    → new.card ≡ old.card
    → new.correlation_id ≡ old.correlation_id
    → new.idempotency_key ≡ old.idempotency_key
    → new.approval_required ≡ old.approval_required
    → old.attempt_count ≤ new.attempt_count
    → Evolves old new
moves_once old new m c i k a n = record {
  moves = move here m;
  same_card = c;
  same_correlation = i;
  same_key = k;
  same_approvals = a;
  attempts = n;
}

module _ (start : List Task) where
  -- Every task of `start` is still there, evolved.
  abbrev Follows : List Task → Type 0
  Follows tasks =
      (id : ℕ) (t : Task)
      → find (by_id id) start ≡ some t
      → (new : Task) × (find (by_id id) tasks ≡ some new) × Evolves t new

  Follows-update :
      (test : Task → Bool) (change : Task → Task)
      → ((t : Task) → (change t).task_id ≡ t.task_id)
      → ((t : Task) → test t ≡ true → Evolves t (change t))
      → (tasks : List Task) → Follows tasks
      → Follows (update test change tasks)
  Follows-update test change keeps_id evolves tasks h id t found =
      let (row, e, v) = h id t found in
      elim (Bool-cases (test row)) [
        | inl yes' ↦ (
          change row,
          ground (arith, find-update test change keeps_id id tasks),
          Evolves-trans t row (change row) v (evolves row yes'),
        )
        | inr no' ↦ (row, ground (arith, find-update test change keeps_id id tasks), v)
      ]

  Follows-append : (tasks : List Task) (new : Task) → Follows tasks → Follows (tasks ++ new ∷ [])
  Follows-append tasks new h id t found =
      let (row, e, v) = h id t found in (row, ground (arith, find-append id tasks new), v)

-- Each UPDATE of the calls evolves the rows that it touches.
with_status-Evolves :
    (id : ℕ) (expected target : TaskStatus) (t : Task)
    → may_move expected target ≡ true
    → (by_id id t && (t.status is expected)) ≡ true
    → Evolves t (with_status target t)
unfolding with_status
with_status-Evolves id expected target t legal h =
    let same : t.status ≡ expected = (is_iff t.status expected).0 (ground arith) in
    let m : may_move t.status target ≡ true =
      subst (λ x. may_move x target ≡ true) (sym same) legal in
    elim (Bool-cases (is_execution target)) [
      | inl running ↦
          rw running
            (moves_once t (record t { status = target }) m refl refl refl refl (ground arith))
      | inr idle ↦ rw idle (
          moves_once t (record t { status = target; lease_expires_at = none }) m refl refl refl refl
            (ground arith))
    ]

take_claim-Evolves :
    (id now : ℕ) (circuits : List Circuit) (role worker : String) (minutes : ℤ) (t : Task)
    → (by_id id t && can_claim now circuits t) ≡ true
    → Evolves t (take_claim now role worker minutes t)
unfolding take_claim can_claim may_move
take_claim-Evolves id now circuits role worker minutes t h =
    moves_once t (take_claim now role worker minutes t) (ground arith) refl refl refl refl
      (ground arith)

to_recovery-Evolves :
    (now : ℕ) (t : Task) → lease_expired_at now t ≡ true → Evolves t (to_recovery t)
unfolding to_recovery lease_expired_at may_move
to_recovery-Evolves now t h =
    moves_once t (to_recovery t) (ground arith) refl refl refl refl (ground arith)

release-Evolves :
    (now : ℕ) (circuits : List Circuit) (t : Task)
    → is_due now circuits t ≡ true
    → Evolves t (release t)
unfolding release is_due may_move
release-Evolves now circuits t h =
    moves_once t (release t) (ground arith) refl refl refl refl (ground arith)

follow_laws : (start : List Task) → Laws Anyone (λ db. Follows start db.tasks)
unfolding take_claim renew to_recovery release with_status schedule
follow_laws start = record {
  elsewhere = λ db db' t e h. rw t h;
  logged = λ db new h. h;
  moved = λ db id expected target legal h.
      Follows-update start (λ t. by_id id t && (t.status is expected)) (with_status target)
        (with_status-id target) (λ t. with_status-Evolves id expected target t legal) db.tasks h;
  scheduled = λ db id at c key h.
      Follows-update start (by_id id) (schedule at c key) (λ t. refl)
        (λ t e. stays t (schedule at c key t) refl refl refl refl refl (ground arith)) db.tasks h;
  taken = λ db id now circuits role worker minutes h.
      Follows-update start (λ t. by_id id t && can_claim now circuits t)
        (take_claim now role worker minutes) (λ t. refl)
        (take_claim-Evolves id now circuits role worker minutes) db.tasks h;
  renewed = λ db id now worker minutes h.
      Follows-update start (λ t. by_id id t && holds_lease now worker t) (renew now minutes)
        (λ t. refl) (λ t e. stays t (renew now minutes t) refl refl refl refl refl (ground arith))
        db.tasks h;
  expired = λ db now h.
      Follows-update start (lease_expired_at now) to_recovery (λ t. refl) (to_recovery-Evolves now)
        db.tasks h;
  released = λ db now circuits h.
      Follows-update start (is_due now circuits) release (λ t. refl) (release-Evolves now circuits)
        db.tasks h;
  created =
      λ db env card ref admitted new h. Follows-append start db.tasks (new_task env card ref) h;
}

-- Over any run of calls a task is never lost. Its status moves along the table of transitions, its
-- card, correlation, idempotency key and required approvals never change, and its attempts never
-- fall.
pub run-Evolves :
    (calls : List (Env × Request)) (s : State) (id : ℕ) (t : Task)
    → find_task id s.db ≡ some t
    → (new : Task) × (find_task id (run calls s).db ≡ some new) × Evolves t new
run-Evolves calls s =
    run_keeps (λ db. Follows s.db.tasks db.tasks) (follow_laws s.db.tasks) calls s
      (λ id t e. (t, e, Evolves-refl t))

pub done_stays : {s t : TaskStatus} → Reach s t → s ≡ done → t ≡ done
unfolding may_move
done_stays here e = e
done_stays (move {t} r legal) e = let d = done_stays r e in ground arith

pub cancelled_stays : {s t : TaskStatus} → Reach s t → s ≡ cancelled → t ≡ cancelled
unfolding may_move
cancelled_stays here e = e
cancelled_stays (move {t} r legal) e = let d = cancelled_stays r e in ground arith

-- A task that is done stays done, and a cancelled one cancelled, whatever the store is called with.
pub run_terminal :
    (calls : List (Env × Request)) (s : State) (id : ℕ) (t : Task)
    → find_task id s.db ≡ some t
    → (t.status ≡ done) ⊎ (t.status ≡ cancelled)
    → (new : Task) × (find_task id (run calls s).db ≡ some new) × (new.status ≡ t.status)
run_terminal calls s id t found finished =
    let (new, e, v) = run-Evolves calls s id t found in
    (
      new,
      e,
      elim finished [
        | inl d ↦ done_stays v.moves d ∙ sym d
        | inr c ↦ cancelled_stays v.moves c ∙ sym c
      ],
    )
