-- ===== src/Continuity/Exercise.antt =====
-- The recovery of the exercise of src/harness/continuity.py.
use harness_golden_path.Prelude.{
  ℕ, ◌<◌, ◌≡◌, refl, true, false, some, List, [], ◌∷◌, arith, ltb, sort_by,
}
use harness_golden_path.Contracts.{ready, claimed, done, recovery_required}
use harness_golden_path.Store.Tables.{Task, Event, RoutingReceipt, Sequences, State, empty_db}
use harness_golden_path.Store.Txn.{for_each}
use harness_golden_path.Store.Actions.{Env, insert_event, insert_card}
use harness_golden_path.Cockpit.Rows.{Collation}
use harness_golden_path.Continuity.Fixtures.{
  returned, Recovery, ready_task_id, expired_task_id, done_task_id, recover_expired_fixture,
}

-- what `expected` of the source holds
abbrev pub expected : Recovery
expected = record {
  expired_count = 1;
  second_expiry_count = 0;
  status = recovery_required;
  attempt_count = 1;
  recovery_card_count = 1;
  recovery_trigger = some "lease_expired";
  blind_retry_claimed = false;
}

-- The database after the crash: the three tasks of the fixtures, of which one waits, one was claimed a
-- first time with a lease until a time, and one is done. What else the rows hold is free, and so are the
-- log and the receipts. There is no circuit, approval, dead letter or recovery card.
abbrev pub crashed : Task → Task → Task → ℕ → List Event → List RoutingReceipt → Sequences → State
crashed waiting lost finished lease events receipts sequences = record {
  db = record empty_db {
    tasks =
        (record waiting { task_id = ready_task_id; status = ready })
        ∷ (record lost {
          task_id = expired_task_id;
          status = claimed;
          lease_expires_at = some lease;
          attempt_count = 1;
        })
        ∷ (record finished { task_id = done_task_id; status = done })
        ∷ [];
    events = events;
    receipts = receipts;
  };
  sequences = sequences;
}

-- On the database after the crash, if the lease of the lost task is over when the recovery begins, the recovery command succeeds: it
-- expires this one task, and nothing the second time, it finds its one recovery card, and its blind
-- retry is refused, whatever the times of the later calls are.
pub recovery_succeeds :
    (lt : Collation) (at : ℕ → Env) (waiting lost finished : Task) (lease : ℕ) (events : List Event)
    (receipts : List RoutingReceipt) (sequences : Sequences)
    → lease < (at 0).now
    → (recover_expired_fixture lt at
        (crashed waiting lost finished lease events receipts sequences)).0
      ≡ returned expected
unfolding recover_expired_fixture insert_event insert_card for_each sort_by
recovery_succeeds lt at waiting lost finished lease events receipts sequences later =
    let over : ltb lease (at 0).now ≡ true = ground arith in rw over refl
