-- ===== src/Store/Breaker.antt =====
-- The circuit breakers of src/harness/store.py: counting failures, opening at the threshold.
use harness_golden_path.Prelude.{
  ◌≡◌, refl, String, Bool-cases, true, false, inl, inr, Option, none, some, List, [], ◌∷◌, ◌++◌,
  any, arith, find, update, ltb, =s=_iff,
}
use harness_golden_path.Contracts.{FailureClass}
use harness_golden_path.Resilience.{is_circuit_failure}
use harness_golden_path.Store.Tables.{Circuit}
use harness_golden_path.Store.Txn.{Result, ok, Conn}
use harness_golden_path.Store.Actions.{
  Env, by_key, count_failure, upsert_circuit, record_circuit_failure,
}
use harness_golden_path.Store.Failures.{trip}

find-count :
    (env : Env) (key : String) (c : FailureClass) (circuits : List Circuit)
    → any (by_key key) circuits ≡ true
    → (row : Circuit) × (find (by_key key) (update (by_key key) (count_failure env c) circuits)
        ≡ some row)
unfolding count_failure
find-count env key c [] h = absurd (ground arith)
find-count env key c (x ∷ xs) h = elim (Bool-cases (by_key key x)) [
  | inl here ↦ (count_failure env c x, ground arith)
  | inr there ↦ let (row, e) = find-count env key c xs (ground arith) in (row, ground arith)
]

find-insert :
    (key : String) (new : Circuit) (circuits : List Circuit)
    → by_key key new ≡ true
    → any (by_key key) circuits ≡ false
    → find (by_key key) (circuits ++ new ∷ []) ≡ some new
find-insert key new [] k h = ground arith
find-insert key new (x ∷ xs) k h = ground (arith, find-insert key new xs k)

-- After the upsert the circuit of the route is there.
upserted :
    (env : Env) (key : String) (c : FailureClass) (circuits : List Circuit)
    → (row : Circuit) × (find (by_key key) (upsert_circuit env key c circuits) ≡ some row)
upserted env key c circuits = elim (Bool-cases (any (by_key key) circuits)) [
  | inl known ↦ rw known (find-count env key c circuits known)
  | inr new ↦ rw new (_, find-insert key _ circuits ((=s=_iff key key).1 refl) new)
]

-- What `trip` leaves alone.
pub record Tripped (c : Conn) (out : Result (Option Circuit) × Conn) : Type 0 where
  pub circuit : Option Circuit
  pub after : Conn
  pub answered : out ≡ (ok circuit, after)
  pub same_tasks : after.working.tasks ≡ c.working.tasks

record_circuit_failure_ok :
    (env : Env) (key : String) (cls : FailureClass) (c : Conn)
    → (row : Circuit) × (after : Conn) × (record_circuit_failure env key cls c ≡ (ok row, after))
      × (after.working.tasks ≡ c.working.tasks)
unfolding record_circuit_failure
record_circuit_failure_ok env key cls c =
    let (row, e) = upserted env key cls c.working.circuits in
    elim (Bool-cases (ltb row.failure_count row.failure_threshold)) [
      | inl below ↦ rw (e, below, record_circuit_failure) (_, _, refl, refl)
      | inr at ↦ rw (e, at, record_circuit_failure) (_, _, refl, refl)
    ]

pub trip_ok :
    (env : Env) (cls : FailureClass) (key : Option String) (c : Conn)
    → Tripped c (trip env cls key c)
unfolding trip
trip_ok env cls none c = record { circuit = none; after = c; answered = refl; same_tasks = refl }
trip_ok env cls (some key) c = elim (Bool-cases (is_circuit_failure cls)) [
  | inl counted ↦
      let (row, after, e, same) = record_circuit_failure_ok env key cls c in
      rw (counted, e)
        (record { circuit = some row; after = after; answered = refl; same_tasks = same })
  | inr ignored ↦
      rw ignored (record { circuit = none; after = c; answered = refl; same_tasks = refl })
]
