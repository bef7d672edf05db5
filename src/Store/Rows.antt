-- ===== src/Store/Rows.antt =====
-- The table agent_tasks as a map from `task_id`: how UPDATE changes what a SELECT by id finds, and
-- how many rows it touches when ids are unique.
use harness_golden_path.Prelude.{
  ℕ, ◌≡◌, ◌≢◌, refl, ap, Bool, Bool-cases, inl, inr, true, false, ◌&&◌, Option, none, some, List,
  [], ◌∷◌, ◌++◌, ==_iff, arith, any, find, update, returning, fetchone, if◌then◌else◌,
}
use harness_golden_path.Store.Tables.{Task}
use harness_golden_path.Store.Actions.{by_id}

-- No two rows share an id: the primary key.
abbrev pub UniqueIds : List Task → Type 0
UniqueIds [] = Unit
UniqueIds (t ∷ ts) = (find (by_id t.task_id) ts ≡ none) × UniqueIds ts

-- What UPDATE makes of one row.
abbrev pub apply_where : (Task → Bool) → (Task → Task) → Option Task → Option Task
apply_where test change none = none
apply_where test change (some t) = some (if test t then change t else t)

module _ (test : Task → Bool) (change : Task → Task)
    (keeps_id : (t : Task) → (change t).task_id ≡ t.task_id) where
  -- A SELECT after an UPDATE finds the changed row.
  pub find-update :
      (id : ℕ) (ts : List Task)
      → find (by_id id) (update test change ts) ≡ apply_where test change (find (by_id id) ts)
  find-update id [] = refl
  find-update id (t ∷ ts) = ground (arith, keeps_id t, find-update id ts)

  pub update-UniqueIds : (ts : List Task) → UniqueIds ts → UniqueIds (update test change ts)
  update-UniqueIds [] u = tt
  update-UniqueIds (t ∷ ts) u =
      (ground (arith, keeps_id t, find-update t.task_id ts, u.0), update-UniqueIds ts u.1)

-- A SELECT by id finds a row with that id.
pub find-id : (id : ℕ) (ts : List Task) {t : Task} → find (by_id id) ts ≡ some t → t.task_id ≡ id
find-id id [] h = ground arith
find-id id (x ∷ ts) {t} h = ground (arith, find-id id ts {t = t})

pub rest_missing :
    (id : ℕ) (t : Task) (ts : List Task)
    → by_id id t ≡ true
    → find (by_id t.task_id) ts ≡ none
    → find (by_id id) ts ≡ none
rest_missing id t ts e h = rw ((==_iff t.task_id id).0 e) at h

pub update-by_id_missing :
    (change : Task → Task) (id : ℕ) (ts : List Task)
    → find (by_id id) ts ≡ none
    → update (by_id id) change ts ≡ ts
update-by_id_missing change id [] h = refl
update-by_id_missing change id (t ∷ ts) h = ground (arith, update-by_id_missing change id ts)

module _ (q : Task → Bool) (change : Task → Task)
    (keeps_id : (t : Task) → (change t).task_id ≡ t.task_id) (id other : ℕ) (ne : other ≢ id) where
  -- UPDATE … WHERE task_id = id AND … changes no row with another id.
  pub find-update_ne :
      (ts : List Task)
      → find (by_id other) (update (λ t. by_id id t && q t) change ts) ≡ find (by_id other) ts
  find-update_ne [] = refl
  find-update_ne (t ∷ ts) = ground (arith, keeps_id t, find-update_ne ts)

  pub find-update-by_id_ne :
      (ts : List Task) → find (by_id other) (update (by_id id) change ts) ≡ find (by_id other) ts
  find-update-by_id_ne [] = refl
  find-update-by_id_ne (t ∷ ts) = ground (arith, keeps_id t, find-update-by_id_ne ts)

module _ (q : Task → Bool) (change : Task → Task) (id : ℕ) where
  abbrev at_id : Task → Bool
  at_id t = by_id id t && q t

  same : (t : Task) → by_id id t ≡ true → t.task_id ≡ id
  same t h = ground arith

  -- Where no row has the id, UPDATE … WHERE task_id = id AND … touches nothing.
  pub returning_missing :
      (ts : List Task) → find (by_id id) ts ≡ none → returning at_id change ts ≡ []
  returning_missing [] h = refl
  returning_missing (t ∷ ts) h = ground (arith, returning_missing ts)

  pub update_missing : (ts : List Task) → find (by_id id) ts ≡ none → update at_id change ts ≡ ts
  update_missing [] h = refl
  update_missing (t ∷ ts) h = ground (arith, update_missing ts)

  -- Where one row has it, UPDATE touches that row, if the rest of its test holds.
  pub returning_found :
      (ts : List Task) {t : Task}
      → UniqueIds ts
      → find (by_id id) ts ≡ some t
      → returning at_id change ts ≡ (if q t then change t ∷ [] else [])
  returning_found [] u h = ground arith
  returning_found (x ∷ ts) {t} u h = elim (Bool-cases (by_id id x)) [
    | inl e ↦ ground (arith, returning_missing ts, ap (λ (n : ℕ). find (by_id n) ts) (same x e))
    | inr e ↦ ground (arith, returning_found ts {t = t} u.1)
  ]

  pub fetchone-returning :
      (ts : List Task) {t : Task}
      → UniqueIds ts
      → find (by_id id) ts ≡ some t
      → fetchone (returning at_id change ts) ≡ (if q t then some (change t) else none)
  fetchone-returning ts {t} u h = rw (returning_found ts u h) (ground arith)

  pub fetchone-returning_missing :
      (ts : List Task) → find (by_id id) ts ≡ none → fetchone (returning at_id change ts) ≡ none
  fetchone-returning_missing ts h = rw (returning_missing ts h)

  -- Where the rest of the test fails, the table stays as it is.
  pub update_refused :
      (ts : List Task) {t : Task}
      → UniqueIds ts
      → find (by_id id) ts ≡ some t
      → q t ≡ false
      → update at_id change ts ≡ ts
  update_refused [] u h r = refl
  update_refused (x ∷ ts) {t} u h r = elim (Bool-cases (by_id id x)) [
    | inl e ↦ ground (arith, update_missing ts, ap (λ (n : ℕ). find (by_id n) ts) (same x e))
    | inr e ↦ ground (arith, update_refused ts {t = t} u.1)
  ]

pub any-find : (id : ℕ) (ts : List Task) → any (by_id id) ts ≡ false → find (by_id id) ts ≡ none
any-find id [] h = refl
any-find id (t ∷ ts) h = ground (arith, any-find id ts)

pub find-append :
    (id : ℕ) (ts : List Task) (new : Task)
    → find (by_id id) (ts ++ new ∷ [])
      ≡ (elim (find (by_id id) ts) [ some t ↦ some t | none ↦ find (by_id id) (new ∷ []) ])
find-append id [] new = ground arith
find-append id (t ∷ ts) new = ground (arith, find-append id ts new)
