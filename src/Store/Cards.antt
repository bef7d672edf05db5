-- ===== src/Store/Cards.antt =====
-- The cards of agent_tasks under the calls of src/harness/store.py: no call changes one.
use harness_golden_path.Prelude.{
  ◌≡◌, refl, subst, sym, Bool, Bool-cases, ◌&&◌, inl, inr, List, [], ◌∷◌, ◌++◌, All, update, arith,
}
use harness_golden_path.Contracts.{TaskStatus, ◌is◌}
use harness_golden_path.Contracts.Models.{TaskCard}
use harness_golden_path.Store.Tables.{Task}
use harness_golden_path.Store.Actions.{by_id, with_status}
use harness_golden_path.Store.Lifecycle.{new_task}
use harness_golden_path.Store.Leases.{
  can_claim, take_claim, holds_lease, renew, lease_expired_at, to_recovery,
}
use harness_golden_path.Store.Failures.{schedule, is_due, release}
use harness_golden_path.Store.Keeps.{Laws}

with_status-card : (target : TaskStatus) (t : Task) → (with_status target t).card ≡ t.card
unfolding with_status
with_status-card target t = ground arith

module _ (Q : TaskCard → Type 0) where
  abbrev pub Carded : List Task → Type 0
  Carded = All (λ t. Q t.card)

  update-Carded :
      (test : Task → Bool) (change : Task → Task)
      → ((t : Task) → (change t).card ≡ t.card)
      → (ts : List Task) → Carded ts
      → Carded (update test change ts)
  update-Carded test change same [] all = tt
  update-Carded test change same (t ∷ ts) all = elim (Bool-cases (test t)) [
    | inl hit ↦ rw hit (subst Q (sym (same t)) all.0, update-Carded test change same ts all.1)
    | inr miss ↦ rw miss (all.0, update-Carded test change same ts all.1)
  ]

  append-Carded : (ts : List Task) (t : Task) → Carded ts → Q t.card → Carded (ts ++ t ∷ [])
  append-Carded [] t all q = (q, tt)
  append-Carded (x ∷ ts) t all q = (all.0, append-Carded ts t all.1 q)

  pub card_laws : Laws Q (λ db. Carded db.tasks)
  unfolding take_claim renew to_recovery release with_status schedule
  card_laws = record {
    elsewhere = λ db db' t e h. rw t h;
    logged = λ db new h. h;
    moved = λ db id expected target legal h.
        update-Carded (λ t. by_id id t && (t.status is expected)) (with_status target)
          (with_status-card target) db.tasks h;
    scheduled =
        λ db id at c key h. update-Carded (by_id id) (schedule at c key) (λ t. refl) db.tasks h;
    taken = λ db id now circuits role worker minutes h.
        update-Carded (λ t. by_id id t && can_claim now circuits t)
          (take_claim now role worker minutes) (λ t. refl) db.tasks h;
    renewed = λ db id now worker minutes h.
        update-Carded (λ t. by_id id t && holds_lease now worker t) (renew now minutes) (λ t. refl)
          db.tasks h;
    expired = λ db now h. update-Carded (lease_expired_at now) to_recovery (λ t. refl) db.tasks h;
    released =
        λ db now circuits h. update-Carded (is_due now circuits) release (λ t. refl) db.tasks h;
    created =
        λ db env card ref admitted new h. append-Carded db.tasks (new_task env card ref) h admitted;
  }
