-- ===== src/Store/Recovery.antt =====
-- Leases that have run out in src/harness/store.py: `expire_leases`.
use harness_golden_path.Prelude.{
  ℕ, ◌+◌, ◌≡◌, ◌≤◌, ◌<◌, ◌⊎◌, ◌↔◌, true, Option-cases, ◌==◌, ==_iff, ◌∙◌, refl, Bool-cases, false,
  inl, inr, ◌||◌, some, List, [], ◌∷◌, ◌++◌, any, arith, update, returning, length, length-append,
}
use harness_golden_path.Contracts.{claimed, in_progress, recovery_required}
use harness_golden_path.Store.Tables.{Task, State, RecoveryCard}
use harness_golden_path.Store.Txn.{Result, ok, Conn, for_each}
use harness_golden_path.Store.Actions.{Env, event, create_recovery_card, insert_card}
use harness_golden_path.Store.Leases.{lease_expired_at, to_recovery, recover_row, expire_leases}

-- Identifiers that `uuid4` still draws are new: none is drawn twice, and no card has one.
pub record IsFreshFrom (env : Env) (drawn : ℕ) (cards : List RecoveryCard) : Type 0 where
  pub once : (m n : ℕ) → env.uuid4 m ≡ env.uuid4 n → m ≡ n
  pub unused : (n : ℕ) → drawn ≤ n → any (λ card. card.recovery_id == env.uuid4 n) cards ≡ false

any-append :
    (n : ℕ) (cards : List RecoveryCard) (new : RecoveryCard)
    → any (λ card. card.recovery_id == n) (cards ++ new ∷ [])
      ≡ (any (λ card. card.recovery_id == n) cards || (new.recovery_id == n))
any-append n [] new = ground arith
any-append n (c ∷ cards) new = ground (arith, any-append n cards new)

not_drawn_again :
    (env : Env) (drawn n : ℕ) (cards : List RecoveryCard)
    → IsFreshFrom env drawn cards
    → drawn + 1 ≤ n
    → (env.uuid4 drawn == env.uuid4 n) ≡ false
not_drawn_again env drawn n cards f le = elim (Bool-cases (env.uuid4 drawn == env.uuid4 n)) [
  | inl same ↦ let e = f.once drawn n ((==_iff _ _).0 same) in absurd (omega (arith, e, le))
  | inr differ ↦ differ
]

-- One round of the loop of `expire_leases` succeeds, keeps the tasks, and writes one card.
record Rounds (env : Env) (rounds : ℕ) (c : Conn) (out : Result (Unit {0}) × Conn) : Type 0 where
  after : Conn
  answered : out ≡ (ok tt, after)
  same_tasks : after.working.tasks ≡ c.working.tasks
  cards : length after.working.recovery_cards ≡ length c.working.recovery_cards + rounds
  fresh : IsFreshFrom env after.sequences.drawn after.working.recovery_cards

one_round :
    (env : Env) (row : Task) (c : Conn)
    → IsFreshFrom env c.sequences.drawn c.working.recovery_cards
    → Rounds env 1 c (recover_row env row c)
unfolding recover_row create_recovery_card insert_card event
one_round env row c f =
    let new = f.unused c.sequences.drawn (ground arith) in
    rw new (record {
      after = _;
      answered = refl;
      same_tasks = refl;
      cards = length-append _ _;
      fresh = record {
        once = f.once;
        unused = λ n le. rw (any-append (env.uuid4 n) c.working.recovery_cards _) (
            ground (
              arith,
              f.unused n (ground arith),
              not_drawn_again env c.sequences.drawn n c.working.recovery_cards f le,
            ));
      };
    })

-- The whole loop succeeds, keeps the tasks, and writes a card for each row.
all-Rounds :
    (env : Env) (rows : List Task) (c : Conn)
    → IsFreshFrom env c.sequences.drawn c.working.recovery_cards
    → Rounds env (length rows) c (for_each (recover_row env) rows c)
unfolding for_each
all-Rounds env [] c f = record {
  after = c;
  answered = refl;
  same_tasks = refl;
  cards = ground arith;
  fresh = f;
}
all-Rounds env (row ∷ rows) c f =
    let one = one_round env row c f in
    let rest = all-Rounds env rows one.after one.fresh in
    rw (one.answered) (record {
      after = rest.after;
      answered = rest.answered;
      same_tasks = rest.same_tasks ∙ one.same_tasks;
      cards = omega (arith, one.cards, rest.cards);
      fresh = rest.fresh;
    })

none_expired :
    (now : ℕ) (ts : List Task)
    → any (lease_expired_at now) (update (lease_expired_at now) to_recovery ts) ≡ false
unfolding lease_expired_at to_recovery
none_expired now [] = refl
none_expired now (t ∷ ts) = ground (arith, none_expired now ts)

-- A task in execution whose lease has run out.
pub record HasExpired (now : ℕ) (t : Task) : Type 0 where
  pub works : (t.status ≡ claimed) ⊎ (t.status ≡ in_progress)
  pub until : ℕ
  pub lease : t.lease_expires_at ≡ some until
  pub over : until < now

HasExpired-sound : (now : ℕ) (t : Task) → lease_expired_at now t ≡ true → HasExpired now t
unfolding lease_expired_at
HasExpired-sound now t h = elim (Option-cases t.lease_expires_at) [
  | inl e ↦ absurd (ground arith)
  | inr (until, e) ↦ record { works = ground arith; until = until; lease = e; over = ground arith }
]

HasExpired-complete : (now : ℕ) (t : Task) → HasExpired now t → lease_expired_at now t ≡ true
unfolding lease_expired_at
HasExpired-complete now t h = grind (arith, h.works, h.lease, h.over)

lease_expired_at_iff : (now : ℕ) (t : Task) → (lease_expired_at now t ≡ true) ↔ HasExpired now t
lease_expired_at_iff now t = (HasExpired-sound now t, HasExpired-complete now t)

-- The row in recovery, and otherwise as it was.
abbrev pub held : Task → Task
held t = record t { status = recovery_required }

-- The rows that `expire_leases` picks are those in execution whose lease has run out. Where `uuid4`
-- draws new identifiers, it takes exactly these to `recovery_required` and answers them so. No other
-- row changes, none that has expired is left, and the recovery cards grow by the number of rows.
pub expire_leases_complete :
    (env : Env) (s : State)
    → IsFreshFrom env s.sequences.drawn s.db.recovery_cards
    → let (answer, after) = expire_leases env s in
      let rows = returning (lease_expired_at env.now) held s.db.tasks in
      ((t : Task) → (lease_expired_at env.now t ≡ true) ↔ HasExpired env.now t)
      × (answer ≡ ok rows)
      × (after.db.tasks ≡ update (lease_expired_at env.now) held s.db.tasks)
      × (any (lease_expired_at env.now) after.db.tasks ≡ false)
      × (length after.db.recovery_cards ≡ length s.db.recovery_cards + length rows)
unfolding expire_leases to_recovery
expire_leases_complete env s f =
    let moved = update (lease_expired_at env.now) to_recovery s.db.tasks in
    let rows = returning (lease_expired_at env.now) to_recovery s.db.tasks in
    let c : Conn = record {
      committed = s.db;
      working = record s.db { tasks = moved };
      sequences = s.sequences;
    } in
    let all = all-Rounds env rows c f in
    rw (all.answered) (
      lease_expired_at_iff env.now,
      refl,
      all.same_tasks,
      rw all.same_tasks (none_expired env.now s.db.tasks),
      all.cards,
    )
