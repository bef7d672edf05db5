-- ===== src/Projection/Coverage.antt =====
-- The snapshot of src/harness/store.py against the event log.
use harness_golden_path.Prelude.{
  ℕ, ◌≡◌, ◌<◌, ◌≤◌, ◌∙◌, refl, sym, subst, max, Bool, Bool-cases, Option-cases, true, false, ◌&&◌,
  ◌||◌, inl, inr, some, List, [], ◌∷◌, any, map, ◌==◌, ==_iff, ltb, leb, if◌then◌else◌, arith,
}
use harness_golden_path.Store.Tables.{Task, Event, Db}
use harness_golden_path.Projection.{Formats, Row, Batch, project_task, build_projection_batch}
use harness_golden_path.Projection.Snapshot.{
  max_id, version_of, insert_row, order_rows, join_versions, snapshot_rows,
  pandaos_projection_snapshot,
}

module _ (p : Row → Bool) where
  any-insert : (r : Row) (rows : List Row) → any p (insert_row r rows) ≡ (p r || any p rows)
  any-insert r [] = refl
  any-insert r (x ∷ xs) = ground (arith, any-insert r xs)

  any-order : (rows : List Row) → any p (order_rows rows) ≡ any p rows
  unfolding order_rows
  any-order [] = refl
  any-order (r ∷ rs) = ground (arith, any-insert r (order_rows rs), any-order rs)

-- The version of a task is at least the id of each of its events.
version_seen :
    (cutoff id : ℕ) (es : List Event) (e : ℕ)
    → any (λ x. (x.task_id == id) && (x.event_id == e)) es ≡ true
    → e ≤ cutoff
    → (v : ℕ) × (version_of cutoff id es ≡ some v) × (e ≤ v)
version_seen cutoff id [] e h le = absurd (ground arith)
version_seen cutoff id (x ∷ es) e h le =
    elim (Bool-cases (any (λ y. (y.task_id == id) && (y.event_id == e)) es)) [
      | inl later ↦
          let (w, found, above) = version_seen cutoff id es e later le in
          elim (Bool-cases ((x.task_id == id) && leb x.event_id cutoff)) [
            | inl counts ↦ (max x.event_id w, ground (arith, found), ground arith)
            | inr other ↦ (w, ground arith, above)
          ]
      | inr first ↦ elim (Option-cases (version_of cutoff id es)) [
        | inl none_else ↦ (x.event_id, ground arith, ground arith)
        | inr (w, found) ↦ (max x.event_id w, ground arith, ground arith)
      ]
    ]

max_id_bounds :
    (id e : ℕ) (es : List Event)
    → any (λ x. (x.task_id == id) && (x.event_id == e)) es ≡ true
    → e ≤ max_id es
max_id_bounds id e [] h = absurd (ground arith)
max_id_bounds id e (x ∷ es) h = ground (arith, max_id_bounds id e es)

-- A task with an event behind the cursor has a row.
joined :
    (events : List Event) (cutoff cursor id e : ℕ) (is_full : Bool) (ts : List Task)
    → any (λ t. t.task_id == id) ts ≡ true
    → any (λ x. (x.task_id == id) && (x.event_id == e)) events ≡ true
    → e ≤ cutoff
    → cursor < e
    → any
        (λ r. (r.task.task_id == id) && leb e r.source_event_id)
        (join_versions events cutoff is_full cursor ts)
      ≡ true
unfolding join_versions
joined events cutoff cursor id e is_full [] h k le lt = absurd (ground arith)
joined events cutoff cursor id e is_full (t ∷ ts) h k le lt = elim (Bool-cases (t.task_id == id)) [
  | inl here ↦
      let (v, found, above) = version_seen cutoff id events e k le in
      let found' : version_of cutoff t.task_id events ≡ some v =
        subst (λ n. version_of cutoff n events ≡ some v) (sym ((==_iff _ _).0 here)) found in
      ground arith
  | inr there ↦ elim (Option-cases (version_of cutoff t.task_id events)) [
    | inl absent ↦ ground (arith, joined events cutoff cursor id e is_full ts)
    | inr (v, found) ↦ ground (arith, joined events cutoff cursor id e is_full ts)
  ]
]

-- A consumer misses nothing: for every event behind its cursor whose task is stored, the
-- snapshot has that task, at that event or a later one. The snapshot is never refused where
-- there is such an event.
pub snapshot_complete :
    (f : Formats) (cursor id e : ℕ) (is_full : Bool) (db : Db)
    → any (λ t. t.task_id == id) db.tasks ≡ true
    → any (λ x. (x.task_id == id) && (x.event_id == e)) db.events ≡ true
    → cursor < e
    → let rows = snapshot_rows cursor is_full db in
      ((b : Batch) × (pandaos_projection_snapshot f cursor is_full db ≡ some b)
        × (b.tasks ≡ map (project_task f) rows))
      × (any (λ r. (r.task.task_id == id) && leb e r.source_event_id) rows ≡ true)
unfolding pandaos_projection_snapshot build_projection_batch snapshot_rows
snapshot_complete f cursor id e is_full db h k lt =
    let le = max_id_bounds id e db.events k in
    let fits : ltb (max_id db.events) (if is_full then 0 else cursor) ≡ false = ground arith in
    (
      rw fits (_, refl, refl),
      any-order (λ r. (r.task.task_id == id) && leb e r.source_event_id)
            (join_versions db.events (max_id db.events) is_full cursor db.tasks)
          ∙ joined db.events (max_id db.events) cursor id e is_full db.tasks h k le lt,
    )
