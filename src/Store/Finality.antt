-- ===== src/Store/Finality.antt =====
-- A second decision on an approval, by `decide_approval` of src/harness/store.py.
use harness_golden_path.Prelude.{
  ℕ, ◌≡◌, ◌≢◌, refl, String, not, none, ◌⊎◌, ◌=s=◌, =s=_iff, Option-cases, Bool-cases, false, inl,
  inr, some, [], ◌∷◌, arith, find, update,
}
use harness_golden_path.Contracts.{TaskStatus, may_move}
use harness_golden_path.Contracts.Events.{
  HarnessEventType, Payload, payload_fits, approval_decided, uuid, text,
}
use harness_golden_path.Store.Tables.{Task, Approval, ApprovalStatus, requested, Db, State}
use harness_golden_path.Store.Txn.{
  Result, ok, err, StoreError, invalid_event, invalid_decision, settle, raise_if, Conn, Txn, pure,
  ◌>>◌, already_decided, begin,
}
use harness_golden_path.Store.Actions.{Env, find_task, event, insert_event, set_status}
use harness_golden_path.Store.Preserve.{
  Preserves, Preserves-bind, Preserves-raise_if, Preserves-pure,
}
use harness_golden_path.Store.Approvals.{
  by_approval, decided, is_requested, decision_target, parse_decision, decide, decide_approval,
}
use harness_golden_path.Store.Decisions.{find_approval-update}

-- A decision on an approval that is already decided is refused.
decided_refused :
    (env : Env) (id : ℕ) (d : ApprovalStatus) (words by reason : String) (c : Conn) {a : Approval}
    → find (by_approval id) c.working.approvals ≡ some a
    → is_requested a.status ≡ false
    → decide env id d words by reason c ≡ (err already_decided, c)
unfolding decide
decided_refused env id d words by reason c found over = rw (found, over) refl

-- An approval that is decided, one way or the other.
record IsClosed (id : ℕ) (db : Db) : Type 0 where
  entry : Approval
  kept : find (by_approval id) db.approvals ≡ some entry
  over : is_requested entry.status ≡ false

ok-ne : {A : Type 0} {e : StoreError} {a : A} → err e ≢ ok a
ok-ne h = cc

-- What `decide` does once it has written the approval.
abbrev carry_out : Env → ℕ → ApprovalStatus → String → String → Task → Txn TaskStatus
carry_out env id d words by task = do
  set_status task.task_id task.status (decision_target d)
  event env task.task_id task.correlation_id approval_decided
      (("approval_id", uuid id) ∷ ("decision", text words) ∷ ("decided_by", text by) ∷ [])
  pure (decision_target d)

module _ (id : ℕ) where
  abbrev Keeping : {A : Type 0} → Txn A → Type 0
  Keeping = Preserves (λ db. Unit {0}) (IsClosed id)

  same_approvals :
      (db other : Db) → other.approvals ≡ db.approvals → IsClosed id db → IsClosed id other
  same_approvals db other e h = record { entry = h.entry; kept = rw e h.kept; over = h.over }

  set_status-Keeping : (task : ℕ) (old target : TaskStatus) → Keeping (set_status task old target)
  unfolding set_status
  set_status-Keeping task old target = elim (Bool-cases (may_move old target)) [
    | inl legal ↦ rw legal (record { at = λ c p q. (tt, same_approvals c.working _ refl q) })
    | inr illegal ↦ rw illegal (record { at = λ c p q. (tt, q) })
  ]

  event-Keeping :
      (env : Env) (task corr : ℕ) (kind : HarnessEventType) (payload : Payload)
      → Keeping (event env task corr kind payload)
  unfolding event insert_event
  event-Keeping env task corr kind payload =
      Preserves-bind (raise_if (not (payload_fits kind payload)) invalid_event)
        (λ _. insert_event env task corr kind payload) (Preserves-raise_if _ _)
        (λ _. record { at = λ c p q. (tt, same_approvals c.working _ refl q) })

  carry_out-Keeping :
      (env : Env) (d : ApprovalStatus) (words by : String) (task : Task)
      → Keeping (carry_out env id d words by task)
  carry_out-Keeping env d words by task =
      Preserves-bind (set_status task.task_id task.status (decision_target d))
        (λ _.
          event env task.task_id task.correlation_id approval_decided
            (("approval_id", uuid id) ∷ ("decision", text words) ∷ ("decided_by", text by) ∷ [])
          >> pure (decision_target d))
        (set_status-Keeping _ _ _)
        (λ _.
          Preserves-bind _ (λ _. pure (decision_target d)) (event-Keeping env _ _ _ _)
            (λ _. Preserves-pure _))

  -- A decision that is answered has closed the approval.
  decide-IsClosed :
      (env : Env) (d : ApprovalStatus) (words by reason : String) (c : Conn) {target : TaskStatus}
      → d ≢ requested
      → (decide env id d words by reason c).0 ≡ ok target
      → IsClosed id (decide env id d words by reason c).1.working
  unfolding decide
  decide-IsClosed env d words by reason c decision h =
      elim (Option-cases (find (by_approval id) c.working.approvals)) [
        | inl absent ↦ absurd (ok-ne (rw absent at h))
        | inr (a, found) ↦ elim (Bool-cases (is_requested a.status)) [
          | inr over ↦ absurd (ok-ne (rw (found, over) at h))
          | inl waits ↦ elim (Option-cases (find_task a.task_id c.working)) [
            | inl lost ↦ absurd (ok-ne (rw (found, waits, lost) at h))
            | inr (task, has_task) ↦
                rw (found, waits, has_task)
                  ((carry_out-Keeping env d words by task).at
                    (record c {
                      working = record c.working {
                        approvals =
                            update (by_approval id) (decided env d by reason) c.working.approvals;
                      };
                    })
                    tt
                    (record {
                      entry = decided env d by reason a;
                      kept =
                          find_approval-update id (decided env d by reason) c.working.approvals
                            (λ x. refl) found;
                      over = unfold is_requested in ground arith;
                    })).1
          ]
        ]
      ]

settle-IsClosed :
    (id : ℕ) (r : Result TaskStatus) (c : Conn)
    → ((target : TaskStatus) → r ≡ ok target → IsClosed id c.working)
    → (target : TaskStatus) → (settle c r).0 ≡ ok target
    → IsClosed id (settle c r).1.db
settle-IsClosed id (ok t) c h target e = h t refl
settle-IsClosed id (err x) c h target e = absurd (ok-ne e)

parsed_decision :
    (words : String) {d : ApprovalStatus} → parse_decision words ≡ some d → d ≢ requested
unfolding parse_decision
parsed_decision words h e = elim (Bool-cases (words =s= "approved")) [
  | inl yes_it ↦ ground arith
  | inr no_it ↦ elim (Bool-cases (words =s= "rejected")) [
    | inl yes_it ↦ ground arith
    | inr neither ↦ ground arith
  ]
]

known_word :
    (words : String) → (words ≡ "approved") ⊎ (words ≡ "rejected") → parse_decision words ≢ none
unfolding parse_decision
known_word words (inl h) e = let same = (=s=_iff words "approved").1 h in ground arith
known_word words (inr h) e = let same = (=s=_iff words "rejected").1 h in ground arith

decision_closes :
    (env : Env) (id : ℕ) (words by reason : String) (s : State) {target : TaskStatus}
    → (decide_approval env id words by reason s).0 ≡ ok target
    → IsClosed id (decide_approval env id words by reason s).1.db
unfolding decide_approval
decision_closes env id words by reason s {target} h = elim (Option-cases (parse_decision words)) [
  | inl unknown ↦ absurd (ok-ne (rw unknown at h))
  | inr (d, parsed) ↦ rw parsed (
      settle-IsClosed id _ _
        (λ t e. decide-IsClosed id env d words by reason (begin s) (parsed_decision words parsed) e)
        target (rw parsed at h))
]

-- Once a decision on an approval has been answered, it is final: a further decision on the approval,
-- by whom and at what time it may be, raises and changes nothing. If it is one of the two words, it
-- raises that the approval is already decided.
pub decision_is_final :
    (env later : Env) (id : ℕ) (words by reason again other why : String) (s : State)
    {target : TaskStatus}
    → (decide_approval env id words by reason s).0 ≡ ok target
    → let after = (decide_approval env id words by reason s).1 in
      (e : StoreError) × (decide_approval later id again other why after ≡ (err e, after))
      × ((again ≡ "approved") ⊎ (again ≡ "rejected") → e ≡ already_decided)
unfolding decide_approval
decision_is_final env later id words by reason again other why s h =
    let after = (decide_approval env id words by reason s).1 in
    let closed = decision_closes env id words by reason s h in
    elim (Option-cases (parse_decision again)) [
      | inl unknown ↦
          (invalid_decision, rw unknown refl, λ word. absurd (known_word again word unknown))
      | inr (d, parsed) ↦ (
        already_decided,
        rw
            (
              parsed,
              decided_refused later id d again other why (begin after) closed.kept closed.over,
            )
            refl,
        λ word. refl,
      )
    ]
