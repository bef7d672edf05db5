-- ===== src/Watcher/Ownership.antt =====
-- What the worker of src/harness/nas_watcher.py takes up.
use harness_golden_path.Prelude.{
  ◌≡◌, refl, ap, Bool, true, false, Option, none, some, ◌⊎◌, inl, inr, ◌||◌, Bool-cases, opt_is_iff,
  subst, ◌≢◌, arith,
}
use harness_golden_path.Contracts.{TaskStatus, claimed, in_progress, ◌is◌, is_iff}
use harness_golden_path.App.Http.{Body, Endpoint, claim}
use harness_golden_path.Store.Tables.{Task}
use harness_golden_path.Watcher.Client.{
  Result, returned, raised, out_of_fuel, Failure, claim_conflict, World, task_of, continue,
}
use harness_golden_path.Watcher.Run.{
  NasWatcher, claim_or_resume, on_conflict, is_conflict, is_resumable, keep_if, request_task,
}

-- The claim of a watcher, as the call that its client makes.
abbrev pub own_claim : NasWatcher → Endpoint
own_claim watcher = claim watcher.uuid (record {
  owner_role = "hermes_nas";
  worker_id = watcher.worker_id;
  lease_minutes = watcher.lease_minutes;
})

-- What a watcher starts to work on: what the API has answered to its claim, or, after a conflict, a
-- task that is running under the name of the watcher itself.
pub data TakenUp {W : Type 0} (world : World W) (watcher : NasWatcher) (w : W) (body : Body)
    : Type 0 where
  newly :
      (request_task world watcher (own_claim watcher) w).0 ≡ returned body
      → TakenUp world watcher w body
  again :
      (task : Task)
      → (request_task world watcher (own_claim watcher) w).0 ≡ raised claim_conflict
      → task_of body ≡ some task
      → task.owner_instance ≡ some watcher.worker_id
      → (task.status ≡ claimed) ⊎ (task.status ≡ in_progress)
      → TakenUp world watcher w body

conflict_only : (e : Failure) → is_conflict e ≡ true → e ≡ claim_conflict
conflict_only e h = ground arith

record Resumed (watcher : NasWatcher) (body : Body) : Type 0 where
  task : Task
  read : task_of body ≡ some task
  owned : task.owner_instance ≡ some watcher.worker_id
  running : (task.status ≡ claimed) ⊎ (task.status ≡ in_progress)

either_status :
    (status : TaskStatus)
    → ((status is claimed) || (status is in_progress)) ≡ true
    → (status ≡ claimed) ⊎ (status ≡ in_progress)
either_status status h = elim (Bool-cases (status is claimed)) [
  | inl taken ↦ inl ((is_iff status claimed).0 taken)
  | inr other ↦ inr ((is_iff status in_progress).0 (ground arith))
]

returned_injective : {A : Type 0} {a b : A} → returned a ≡ returned b → a ≡ b
returned_injective h = cc

raised-returned : {A : Type 0} {e : Failure} {a : A} → raised e ≢ returned a
raised-returned h = cc

resumable_sound :
    (watcher : NasWatcher) (body : Body) (found : Option Task)
    → task_of body ≡ found
    → is_resumable watcher.worker_id found ≡ true
    → Resumed watcher body
unfolding is_resumable
resumable_sound watcher body none e h = absurd cc
resumable_sound watcher body (some task) e h = record {
  task = task;
  read = e;
  owned = (opt_is_iff task.owner_instance watcher.worker_id).0 (ground arith);
  running = either_status task.status (ground arith);
}

module _ {W : Type 0} (world : World W) (watcher : NasWatcher) (body : Body) where
  kept :
      (test : Bool) (read : Body) (w : W)
      → (keep_if world watcher test read w).0 ≡ returned body
      → (test ≡ true) × (read ≡ body)
  kept true read w h = (refl, returned_injective h)
  kept false read w h = absurd cc

  after_read :
      (r : Result Body) (w : W)
      → (continue
          (λ read. keep_if world watcher (is_resumable watcher.worker_id (task_of read)) read)
          w
          r).0
        ≡ returned body
      → Resumed watcher body
  after_read (returned read) w h =
      let (good, same) = kept (is_resumable watcher.worker_id (task_of read)) read w h in
      subst (Resumed watcher) same (resumable_sound watcher read (task_of read) refl good)
  after_read (raised e) w h = absurd cc
  after_read out_of_fuel w h = absurd cc

  after_claim :
      (r : Result Body) (w : W)
      → (on_conflict world watcher (r, w)).0 ≡ returned body
      → (r ≡ returned body) ⊎ ((r ≡ raised claim_conflict) × Resumed watcher body)
  after_claim (returned read) w h = inl h
  after_claim out_of_fuel w h = absurd cc
  after_claim (raised e) w h = elim (Bool-cases (is_conflict e)) [
    | inl conflict ↦ inr (ap raised (conflict_only e conflict), after_read _ _ (rw conflict at h))
    | inr other ↦ absurd (raised-returned (rw other at h))
  ]

-- A watcher takes up only what is its own: the answer of the API to its claim, or, when the claim is
-- refused as a conflict, a task whose owner is the watcher's name and that is claimed or in progress.
pub takes_up_its_own :
    {W : Type 0} (world : World W) (watcher : NasWatcher) (w : W) (body : Body)
    → (claim_or_resume world watcher w).0 ≡ returned body
    → TakenUp world watcher w body
unfolding claim_or_resume
takes_up_its_own world watcher w body h =
    elim (after_claim world watcher body (request_task world watcher (own_claim watcher) w).0
      (request_task world watcher (own_claim watcher) w).1 h) [
        | inl same ↦ newly same
        | inr resumed ↦ let r = resumed.1 in again r.task resumed.0 r.read r.owned r.running
      ]
