-- ===== src/Projection/Snapshot.antt =====
-- `pandaos_projection_snapshot` of src/harness/store.py: the tasks that changed since a cursor.
use harness_golden_path.Prelude.{
  ℕ, max, Bool, ◌&&◌, ◌||◌, Option, none, some, List, [], ◌∷◌, ◌==◌, ltb, leb, if◌then◌else◌,
}
use harness_golden_path.Store.Tables.{Task, Event, Db}
use harness_golden_path.Projection.{Formats, Row, Batch, build_projection_batch}

-- COALESCE(max(event_id), 0)
abbrev pub max_id : List Event → ℕ
max_id [] = 0
max_id (e ∷ es) = max e.event_id (max_id es)

-- max(event_id) of the events of a task up to `cutoff`; none where the JOIN has no row
abbrev pub version_of : ℕ → ℕ → List Event → Option ℕ
version_of cutoff id [] = none
version_of cutoff id (e ∷ es) =
    let rest = version_of cutoff id es in
    if (e.task_id == id) && leb e.event_id cutoff
    then some (elim rest [ none ↦ e.event_id | some v ↦ max e.event_id v ])
    else rest

-- the JOIN with WHERE: a row for each task that has a version, behind the cursor or with `full`
abbrev add_row : Task → Bool → ℕ → Option ℕ → List Row → List Row
add_row t is_full cursor none rows = rows
add_row t is_full cursor (some v) rows =
    if is_full || ltb cursor v then record { task = t; source_event_id = v } ∷ rows else rows

unfoldable pub join_versions : List Event → ℕ → Bool → ℕ → List Task → List Row
join_versions events cutoff is_full cursor [] = []
join_versions events cutoff is_full cursor (t ∷ ts) =
    add_row t is_full cursor (version_of cutoff t.task_id events)
      (join_versions events cutoff is_full cursor ts)

-- ORDER BY source_event_id, task_id
abbrev comes_first : Row → Row → Bool
comes_first a b =
    ltb a.source_event_id b.source_event_id
    || (a.source_event_id == b.source_event_id) && leb a.task.task_id b.task.task_id

abbrev pub insert_row : Row → List Row → List Row
insert_row r [] = r ∷ []
insert_row r (x ∷ xs) =
    let rest = insert_row r xs in if comes_first r x then r ∷ x ∷ xs else x ∷ rest

unfoldable pub order_rows : List Row → List Row
order_rows [] = []
order_rows (r ∷ rs) = insert_row r (order_rows rs)

-- the rows of the query
unfoldable pub snapshot_rows : ℕ → Bool → Db → List Row
unfolding join_versions order_rows
snapshot_rows after_event_id is_full db =
    order_rows (join_versions db.events (max_id db.events) is_full after_event_id db.tasks)

-- `pandaos_projection_snapshot`
unfoldable pub pandaos_projection_snapshot : Formats → ℕ → Bool → Db → Option Batch
unfolding snapshot_rows build_projection_batch
pandaos_projection_snapshot f after_event_id is_full db =
    build_projection_batch f (snapshot_rows after_event_id is_full db)
      (if is_full then 0 else after_event_id) (max_id db.events) is_full
