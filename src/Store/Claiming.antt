-- ===== src/Store/Claiming.antt =====
-- `claim` of src/harness/store.py: its conditions, and one claim after another.
use harness_golden_path.Prelude.{
  ℕ, ℤ, ◌≡◌, ◌≢◌, ap, refl, String, Bool-cases, Option-cases, true, false, inl, inr, ◌&&◌, Option,
  List, [], ◌∷◌, ◌≤◌, ◌<◌, opt_is, none, some, arith,
}
use harness_golden_path.Contracts.{ready, claimed, ◌is◌}
use harness_golden_path.Store.Tables.{Task, State, Circuit, opened}
use harness_golden_path.Store.Txn.{ok, Result}
use harness_golden_path.Store.Actions.{Env, by_id, find_task, circuit_blocks}
use harness_golden_path.Store.Leases.{can_claim, take_claim, claim}
use harness_golden_path.Store.Rows.{
  UniqueIds, find-id, update-UniqueIds, find-update, fetchone-returning, fetchone-returning_missing,
  update_refused, update_missing, find-update_ne,
}

module _ (env : Env) (id : ℕ) (owner_role worker_id : String) (lease_minutes : ℤ) (s : State) where
  abbrev outcome : Result (Option Task) × State
  outcome = claim env id owner_role worker_id lease_minutes s

  abbrev claimed_row : Task → Task
  claimed_row = take_claim env.now owner_role worker_id lease_minutes

  -- A claim of an unknown task answers None and changes nothing.
  pub claim_missing : find_task id s.db ≡ none → outcome ≡ (ok none, s)
  unfolding claim
  claim_missing h = ground (
    arith,
    fetchone-returning_missing (can_claim env.now s.db.circuits)
        (take_claim env.now owner_role worker_id lease_minutes) id s.db.tasks h,
    update_missing (can_claim env.now s.db.circuits)
        (take_claim env.now owner_role worker_id lease_minutes) id s.db.tasks h,
  )

  module _ {t : Task} (unique : UniqueIds s.db.tasks) (found : find_task id s.db ≡ some t) where
    -- A claim that the conditions refuse answers None and changes nothing.
    pub claim_refused : can_claim env.now s.db.circuits t ≡ false → outcome ≡ (ok none, s)
    unfolding claim
    claim_refused h = ground (
      arith,
      fetchone-returning (can_claim env.now s.db.circuits)
          (take_claim env.now owner_role worker_id lease_minutes) id s.db.tasks unique found,
      update_refused (can_claim env.now s.db.circuits)
          (take_claim env.now owner_role worker_id lease_minutes) id s.db.tasks unique found h,
    )

    -- A claim that the conditions allow answers the claimed row, and stores it.
    pub claim_granted :
        can_claim env.now s.db.circuits t ≡ true
        → (outcome.0 ≡ ok (some (claimed_row t)))
          × (find_task id outcome.1.db ≡ some (claimed_row t))
    unfolding claim
    claim_granted h = ground (
      arith,
      fetchone-returning (can_claim env.now s.db.circuits)
          (take_claim env.now owner_role worker_id lease_minutes) id s.db.tasks unique found,
      find-update (λ u. by_id id u && can_claim env.now s.db.circuits u)
          (take_claim env.now owner_role worker_id lease_minutes) (λ u. refl) id s.db.tasks,
      find-id id s.db.tasks found,
    )

  -- A claim leaves every other task alone.
  pub claim_others : (other : ℕ) → other ≢ id → find_task other outcome.1.db ≡ find_task other s.db
  unfolding claim
  claim_others other ne = ground (
    arith,
    find-update_ne (can_claim env.now s.db.circuits)
        (take_claim env.now owner_role worker_id lease_minutes) (λ u. refl) id other ne s.db.tasks,
  )

-- No circuit of the task's route is open at `now`.
abbrev pub RouteIsClear : ℕ → Task → List Circuit → Type 0
RouteIsClear now t [] = Unit
RouteIsClear now t (c ∷ cs) =
    (opt_is t.circuit_key c.circuit_key ≡ true
      → c.state ≡ opened
      → (until : ℕ) → c.open_until ≡ some until
      → until ≤ now)
    × RouteIsClear now t cs

-- What makes a task free to be claimed at `now`.
pub record IsFree (now : ℕ) (circuits : List Circuit) (t : Task) : Type 0 where
  pub is_ready : t.status ≡ ready
  pub lease_over : (lease : ℕ) → t.lease_expires_at ≡ some lease → lease < now
  pub route_clear : RouteIsClear now t circuits

pub clear_of_unblocked :
    (now : ℕ) (t : Task) (circuits : List Circuit)
    → circuit_blocks now circuits t ≡ false
    → RouteIsClear now t circuits
unfolding circuit_blocks
clear_of_unblocked now t [] h = tt
clear_of_unblocked now t (c ∷ cs) h =
    ((λ key op until e. ground arith), clear_of_unblocked now t cs (ground arith))

pub unblocked_of_clear :
    (now : ℕ) (t : Task) (circuits : List Circuit)
    → RouteIsClear now t circuits
    → circuit_blocks now circuits t ≡ false
unfolding circuit_blocks
unblocked_of_clear now t [] h = refl
unblocked_of_clear now t (c ∷ cs) h = grind (arith, h.0, unblocked_of_clear now t cs h.1)

can_claim-IsFree :
    (now : ℕ) (circuits : List Circuit) (t : Task)
    → can_claim now circuits t ≡ true
    → IsFree now circuits t
unfolding can_claim ◌is◌
can_claim-IsFree now circuits t h = record {
  is_ready = ground arith;
  lease_over = λ l e. ground arith;
  route_clear = clear_of_unblocked now t circuits (ground arith);
}

free_can_claim :
    (now : ℕ) (circuits : List Circuit) (t : Task)
    → IsFree now circuits t
    → can_claim now circuits t ≡ true
unfolding can_claim ◌is◌
free_can_claim now circuits t f =
    grind (arith, f.is_ready, f.lease_over, unblocked_of_clear now t circuits f.route_clear)

module _ (env : Env) (id : ℕ) (owner_role worker_id : String) (lease_minutes : ℤ) (s : State)
    {t : Task} (unique : UniqueIds s.db.tasks) (found : find_task id s.db ≡ some t) where
  -- Where ids are unique, `claim` hands out a task that is there exactly when it is free: ready,
  -- with no running lease, and with no open circuit on its route. It then stores the row that it
  -- answers; otherwise it answers None and changes nothing.
  pub claim_exactly :
      let (answer, after) = claim env id owner_role worker_id lease_minutes s in
      let row = take_claim env.now owner_role worker_id lease_minutes t in
      (IsFree env.now s.db.circuits t
        → (answer ≡ ok (some row)) × (find_task id after.db ≡ some row))
      × (¬ IsFree env.now s.db.circuits t → (answer ≡ ok none) × (after ≡ s))
  claim_exactly = (
    (λ free.
        claim_granted env id owner_role worker_id lease_minutes s unique found
          (free_can_claim _ _ _ free)),
    (λ taken. elim (Bool-cases (can_claim env.now s.db.circuits t)) [
      | inl y ↦ absurd (taken (can_claim-IsFree _ _ _ y))
      | inr n ↦
          let e = claim_refused env id owner_role worker_id lease_minutes s unique found n in
          (
            ap (λ (o : Result (Option Task) × State). o.0) e,
            ap (λ (o : Result (Option Task) × State). o.1) e,
          )
    ]),
  )

claimed_not_free :
    (now : ℕ) (circuits : List Circuit) (t : Task)
    → t.status ≡ claimed
    → can_claim now circuits t ≡ false
unfolding can_claim
claimed_not_free now circuits t h = ground arith

pub claim-UniqueIds :
    (env : Env) (id : ℕ) (owner_role worker_id : String) (lease_minutes : ℤ) (s : State)
    → UniqueIds s.db.tasks
    → UniqueIds (claim env id owner_role worker_id lease_minutes s).1.db.tasks
unfolding claim
claim-UniqueIds env id owner_role worker_id lease_minutes s u = ground (
  arith,
  update-UniqueIds (λ t. by_id id t && can_claim env.now s.db.circuits t)
      (take_claim env.now owner_role worker_id lease_minutes) (λ t. refl) s.db.tasks u,
)

-- Where ids are unique and a claim has handed out a task, a claim of it that follows, by whom
-- and at what time it may be, answers None and changes nothing.
pub claim_exclusive :
    (env later : Env) (id : ℕ) (role role' worker worker' : String) (minutes minutes' : ℤ)
    (s : State) {row : Task}
    → UniqueIds s.db.tasks
    → let (answer, after) = claim env id role worker minutes s in
      answer ≡ ok (some row) → claim later id role' worker' minutes' after ≡ (ok none, after)
claim_exclusive env later id role role' worker worker' minutes minutes' s {row} u h =
    elim (Option-cases (find_task id s.db)) [
      | inl absent ↦ cc (claim_missing env id role worker minutes s absent)
      | inr (t, found) ↦ elim (Bool-cases (can_claim env.now s.db.circuits t)) [
        | inl free ↦
            let stored = (claim_granted env id role worker minutes s u found free).1 in
            let after = (claim env id role worker minutes s).1 in
            claim_refused later id role' worker' minutes' after
              (claim-UniqueIds env id role worker minutes s u) stored
              (claimed_not_free later.now after.db.circuits
                (take_claim env.now role worker minutes t) (unfold take_claim in refl))
        | inr taken ↦ cc (claim_refused env id role worker minutes s u found taken)
      ]
    ]
