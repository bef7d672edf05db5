-- ===== src/Store/Circuits.antt =====
-- `_record_circuit_failure` of src/harness/store.py, and `claim` on the route of an open circuit.
use harness_golden_path.Prelude.{
  ℕ, ℤ, ◌+◌, ◌≡◌, ◌≤◌, ◌<◌, ◌∙◌, ap, sym, refl, String, Bool-cases, true, false, inl, inr, none,
  some, List, [], ◌∷◌, any, arith, find, update, ltb, opt_is, opt_is_iff, =s=_iff,
}
use harness_golden_path.Contracts.{FailureClass}
use harness_golden_path.Resilience.{circuit_cooldown_seconds}
use harness_golden_path.Store.Tables.{Task, Circuit, State, opened}
use harness_golden_path.Store.Txn.{ok, Conn}
use harness_golden_path.Store.Actions.{
  Env, seconds, by_key, find_task, circuit_blocks, count_failure, open_circuit,
  record_circuit_failure,
}
use harness_golden_path.Store.Leases.{can_claim, claim}
use harness_golden_path.Store.Rows.{UniqueIds}
use harness_golden_path.Store.Claiming.{claim_refused}

find_key-update :
    (key : String) (change : Circuit → Circuit) (circuits : List Circuit) {old : Circuit}
    → ((c : Circuit) → (change c).circuit_key ≡ c.circuit_key)
    → find (by_key key) circuits ≡ some old
    → find (by_key key) (update (by_key key) change circuits) ≡ some (change old)
find_key-update key change [] keeps h = ground arith
find_key-update key change (c ∷ circuits) {old} keeps h = elim (Bool-cases (by_key key c)) [
  | inl e ↦ ground (arith, keeps c)
  | inr e ↦ ground (arith, find_key-update key change circuits {old = old} keeps)
]

any_key :
    (key : String) (circuits : List Circuit) {old : Circuit}
    → find (by_key key) circuits ≡ some old
    → any (by_key key) circuits ≡ true
any_key key [] h = ground arith
any_key key (c ∷ circuits) {old} h = ground (arith, any_key key circuits {old = old})

-- A failure on a known circuit is counted. When the count reaches the circuit's threshold the circuit
-- is open until the cooldown is over; below it, the circuit stays as it was.
pub circuit_opens_at_threshold :
    (env : Env) (key : String) (cls : FailureClass) (c : Conn) {old : Circuit}
    → find (by_key key) c.working.circuits ≡ some old
    → let after = (record_circuit_failure env key cls c).1.working in
      (new : Circuit) × (find (by_key key) after.circuits ≡ some new)
      × (new.failure_count ≡ old.failure_count + 1)
      × (old.failure_threshold ≤ old.failure_count + 1
          → (new.state ≡ opened)
            × (new.open_until ≡ some (env.now + seconds circuit_cooldown_seconds)))
      × (old.failure_count + 1 < old.failure_threshold
          → (new.state ≡ old.state) × (new.open_until ≡ old.open_until))
unfolding record_circuit_failure count_failure open_circuit
circuit_opens_at_threshold env key cls c {old} found =
    let known = any_key key c.working.circuits found in
    let counted =
      find_key-update key (count_failure env cls) c.working.circuits (λ k. refl) found in
    elim (Bool-cases (ltb (old.failure_count + 1) old.failure_threshold)) [
      | inl below ↦
          rw (known, counted, below)
            (
              count_failure env cls old,
              counted,
              refl,
              (λ le. absurd (ground arith)),
              (λ lt. (refl, refl)),
            )
      | inr at ↦
          rw (known, counted, at)
            (
              open_circuit env (count_failure env cls old),
              find_key-update key (open_circuit env)
                  (update (by_key key) (count_failure env cls) c.working.circuits) (λ k. refl)
                  counted,
              refl,
              (λ le. (refl, refl)),
              (λ lt. absurd (ground arith)),
            )
    ]

blocked_by :
    (now : ℕ) (t : Task) (key : String) (circuits : List Circuit) {c : Circuit} {until : ℕ}
    → find (by_key key) circuits ≡ some c
    → t.circuit_key ≡ some key
    → c.state ≡ opened
    → c.open_until ≡ some until
    → now < until
    → circuit_blocks now circuits t ≡ true
unfolding circuit_blocks
blocked_by now t key [] f k o u l = ground arith
blocked_by now t key (x ∷ circuits) {c} {until} f k o u l = elim (Bool-cases (by_key key x)) [
  | inl here ↦
      let same : opt_is t.circuit_key x.circuit_key ≡ true =
        (opt_is_iff _ _).1 (k ∙ ap some (sym ((=s=_iff x.circuit_key key).0 here))) in
      ground arith
  | inr there ↦ ground (arith, blocked_by now t key circuits {c = c} {until = until})
]

not_claimable :
    (now : ℕ) (circuits : List Circuit) (t : Task)
    → circuit_blocks now circuits t ≡ true
    → can_claim now circuits t ≡ false
unfolding can_claim
not_claimable now circuits t h = ground arith

-- Where ids are unique, a claim of a task whose route has an open circuit that has not run out
-- answers None and changes nothing.
pub open_circuit_blocks :
    (env : Env) (id : ℕ) (role worker key : String) (minutes : ℤ) (s : State) {t : Task}
    {c : Circuit} {until : ℕ}
    → UniqueIds s.db.tasks
    → find_task id s.db ≡ some t
    → t.circuit_key ≡ some key
    → find (by_key key) s.db.circuits ≡ some c
    → c.state ≡ opened
    → c.open_until ≡ some until
    → env.now < until
    → claim env id role worker minutes s ≡ (ok none, s)
open_circuit_blocks env id role worker key minutes s {t} {c} {until} unique found route known
      tripped ends early =
    let blocked =
      blocked_by env.now t key s.db.circuits {c = c} {until = until} known route tripped ends
        early in
    claim_refused env id role worker minutes s unique found
      (not_claimable env.now s.db.circuits t blocked)
