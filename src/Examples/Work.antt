-- ===== src/Examples/Work.antt =====
-- Examples for claims, leases and reports.
use harness_golden_path.Prelude.{
  true, ◌↔◌, pos, ◌≡◌, refl, false, none, some, [], ◌∷◌, inl, any, length, arith,
}
use harness_golden_path.Contracts.{transient, unknown, no_effect, permanent}
use harness_golden_path.Store.Tables.{Task}
use harness_golden_path.Store.Txn.{ok}
use harness_golden_path.Store.Actions.{find_task}
use harness_golden_path.Store.Leases.{take_claim, claim, heartbeat, lease_expired_at, expire_leases}
use harness_golden_path.Store.Failures.{retry, report_failure}
use harness_golden_path.Store.Rows.{UniqueIds}
use harness_golden_path.Store.Claiming.{IsFree, claim_exactly, claim_exclusive}
use harness_golden_path.Store.Heartbeat.{Holds, renewed, heartbeat_exactly}
use harness_golden_path.Store.Verdict.{Decided}
use harness_golden_path.Store.Reports.{IsAcceptable, report_failure_decides}
use harness_golden_path.Store.Recovery.{IsFreshFrom, HasExpired, held, expire_leases_complete}
use harness_golden_path.Store.Held.{IsHeld, unknown_effects_hold}
use harness_golden_path.Examples.{env, later, idle, running, state_with, report_of}

unique : (t : Task) → UniqueIds (t ∷ [])
unique t = (refl, tt)

idle-IsFree : IsFree 1000000 [] idle
idle-IsFree = record { is_ready = refl; lease_over = λ lease e. ground arith; route_clear = tt }

claim_exactly_example :
    ((claim env 1 "hermes_nas" "nas-1" (pos 30) (state_with idle [])).0
      ≡ ok (some (take_claim 1000000 "hermes_nas" "nas-1" (pos 30) idle)))
    × (find_task 1 (claim env 1 "hermes_nas" "nas-1" (pos 30) (state_with idle [])).1.db
        ≡ some (take_claim 1000000 "hermes_nas" "nas-1" (pos 30) idle))
claim_exactly_example =
    (claim_exactly env 1 "hermes_nas" "nas-1" (pos 30) (state_with idle []) (unique idle) refl).0
      idle-IsFree

first_claim :
    (claim env 1 "hermes_nas" "nas-1" (pos 30) (state_with idle [])).0
    ≡ ok (some (take_claim 1000000 "hermes_nas" "nas-1" (pos 30) idle))
unfolding claim
first_claim = refl

claim_exclusive_example :
    claim later 1 "hermes_nas" "nas-2"
      (pos 5)
      (claim env 1 "hermes_nas" "nas-1" (pos 30) (state_with idle [])).1
    ≡ (ok none, (claim env 1 "hermes_nas" "nas-1" (pos 30) (state_with idle [])).1)
claim_exclusive_example =
    claim_exclusive env later 1 "hermes_nas" "hermes_nas" "nas-1" "nas-2" (pos 30) (pos 5)
      (state_with idle []) (unique idle) first_claim

running-Holds : Holds 1000000 "nas-1" running
running-Holds = record {
  owns = refl;
  works = inl refl;
  until = 5000000;
  lease = refl;
  runs = ground arith;
}

heartbeat_exactly_example :
    ((heartbeat env 1 "nas-1" (pos 30) (state_with running [])).0
      ≡ ok (renewed 1000000 (pos 30) running))
    × (find_task 1 (heartbeat env 1 "nas-1" (pos 30) (state_with running [])).1.db
        ≡ some (renewed 1000000 (pos 30) running))
    × ((heartbeat env 1 "nas-1" (pos 30) (state_with running [])).1.db.events ≡ [])
heartbeat_exactly_example =
    (heartbeat_exactly env 1 "nas-1" (pos 30) (state_with running []) (unique running) refl).0
      running-Holds

lost_IsAcceptable : IsAcceptable env (report_of transient no_effect) running (state_with running [])
lost_IsAcceptable = record {
  same_correlation = refl;
  from_owner = refl;
  executing = refl;
  own_route = refl;
  fresh = refl;
}

report_failure_decides_example :
    Decided retry running
      (report_failure env (report_of transient no_effect) (state_with running [])).0
      (report_failure env (report_of transient no_effect) (state_with running [])).1.db.tasks
report_failure_decides_example =
    report_failure_decides env (report_of transient no_effect) (state_with running [])
      (unique running) refl lost_IsAcceptable

unclear_IsAcceptable :
    IsAcceptable env (report_of permanent unknown) running (state_with running [])
unclear_IsAcceptable = record {
  same_correlation = refl;
  from_owner = refl;
  executing = refl;
  own_route = refl;
  fresh = refl;
}

unknown_effects_hold_example :
    IsHeld 1 (report_failure env (report_of permanent unknown) (state_with running [])).1
unknown_effects_hold_example =
    unknown_effects_hold env (report_of permanent unknown) (state_with running []) (unique running)
      refl unclear_IsAcceptable refl

later_IsFresh : IsFreshFrom later 0 []
later_IsFresh = record { once = λ m n e. omega (arith, e); unused = λ n le. refl }

expire_leases_complete_example :
    ((t : Task) → (lease_expired_at 9000000000 t ≡ true) ↔ HasExpired 9000000000 t)
    × ((expire_leases later (state_with running [])).0 ≡ ok (held running ∷ []))
    × ((expire_leases later (state_with running [])).1.db.tasks ≡ held running ∷ [])
    × (any (lease_expired_at 9000000000) (expire_leases later (state_with running [])).1.db.tasks
        ≡ false)
    × (length (expire_leases later (state_with running [])).1.db.recovery_cards ≡ 1)
unfolding lease_expired_at
expire_leases_complete_example = expire_leases_complete later (state_with running []) later_IsFresh
