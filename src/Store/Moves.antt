-- ===== src/Store/Moves.antt =====
-- What `_set_status` does to the table, and to the row that it means.
use harness_golden_path.Prelude.{
  ℕ, ◌≡◌, refl, Bool-cases, true, false, ◌&&◌, inl, inr, some, List, [], ◌∷◌, arith, find, update,
}
use harness_golden_path.Contracts.{TaskStatus, ◌is◌, is_iff, may_move}
use harness_golden_path.Store.Tables.{Task}
use harness_golden_path.Store.Txn.{ok, err, not_allowed, Conn}
use harness_golden_path.Store.Actions.{by_id, with_status, set_status}
use harness_golden_path.Store.Rows.{
  find-id, find-update, UniqueIds, returning_found, update_missing, update-by_id_missing,
  rest_missing,
}

pub with_status-id : (target : TaskStatus) (t : Task) → (with_status target t).task_id ≡ t.task_id
unfolding with_status
with_status-id target t = ground arith

is_self : (s : TaskStatus) → (s is s) ≡ true
is_self s = (is_iff s s).1 refl

-- A move that the table of transitions does not have is refused and changes nothing.
pub set_status_refused :
    (id : ℕ) (expected target : TaskStatus) (c : Conn)
    → may_move expected target ≡ false
    → set_status id expected target c ≡ (err (not_allowed expected target), c)
unfolding set_status
set_status_refused id expected target c h = rw (h, set_status)

-- The two ways to name the row in the WHERE clause agree, since ids are unique.
update_at_row :
    (id : ℕ) (target : TaskStatus) (ts : List Task) {t : Task}
    → UniqueIds ts
    → find (by_id id) ts ≡ some t
    → update (λ u. by_id id u && (u.status is t.status)) (with_status target) ts
      ≡ update (by_id id) (with_status target) ts
update_at_row id target [] u h = refl
update_at_row id target (x ∷ ts) {t} u h = elim (Bool-cases (by_id id x)) [
  | inl e ↦ ground (
    arith,
    is_self t.status,
    update_missing (λ v. v.status is t.status) (with_status target) id ts,
    update-by_id_missing (with_status target) id ts,
    rest_missing id x ts,
  )
  | inr e ↦ ground (arith, update_at_row id target ts {t = t} u.1)
]

-- A move that the table has, from the status that the row has, goes through: no other
-- transaction can have changed it, so the test on `rowcount` holds.
pub set_status_ok :
    (id : ℕ) (target : TaskStatus) (c : Conn) {t : Task}
    → UniqueIds c.working.tasks
    → find (by_id id) c.working.tasks ≡ some t
    → may_move t.status target ≡ true
    → set_status id t.status target c ≡ (
      ok tt,
      record c {
        working = record c.working {
          tasks = update (by_id id) (with_status target) c.working.tasks;
        };
      },
    )
unfolding set_status
set_status_ok id target c {t} u h m =
    let rows =
      returning_found (λ v. v.status is t.status) (with_status target) id c.working.tasks u h in
    rw (m, rows, is_self, update_at_row id target c.working.tasks u h, set_status)

-- After the move, the row is found in its new status.
pub found_moved :
    (id : ℕ) (target : TaskStatus) (ts : List Task) {t : Task}
    → find (by_id id) ts ≡ some t
    → find (by_id id) (update (by_id id) (with_status target) ts) ≡ some (with_status target t)
found_moved id target ts {t} found = ground (
  arith,
  find-id id ts found,
  find-update (by_id id) (with_status target) (with_status-id target) id ts,
)
