-- ===== src/Store/Log.antt =====
-- The event log of src/harness/store.py over runs of calls.
use harness_golden_path.Prelude.{sym, List, [], ◌∷◌, ◌++◌, Extends}
use mathlib.Core.List.{append-nil, append_assoc}
use harness_golden_path.Store.Tables.{Event, State}
use harness_golden_path.Store.Actions.{Env}
use harness_golden_path.Store.Requests.{Request, run}
use harness_golden_path.Store.Keeps.{Anyone, Laws}
use harness_golden_path.Store.Keeps.Calls.{run_keeps}

append_one :
    (start events : List Event) (new : Event)
    → Extends start events
    → Extends start (events ++ new ∷ [])
append_one start events new (more, e) =
    (more ++ new ∷ [], rw e (append_assoc start more (new ∷ [])))

log_laws : (start : List Event) → Laws Anyone (λ db. Extends start db.events)
log_laws start = record {
  elsewhere = λ db db' t e h. rw e h;
  logged = λ db new h. append_one start db.events new h;
  moved = λ db id expected target legal h. h;
  scheduled = λ db id at c key h. h;
  taken = λ db id now circuits role worker minutes h. h;
  renewed = λ db id now worker minutes h. h;
  expired = λ db now h. h;
  released = λ db now circuits h. h;
  created = λ db env card ref admitted new h. h;
}

-- Whatever calls the store serves, one after another and each at its own time, and whether they
-- answer or raise: the events that were there stay, unchanged and in their order, and new ones
-- follow them.
pub run_appends :
    (calls : List (Env × Request)) (s : State) → Extends s.db.events (run calls s).db.events
run_appends calls s =
    run_keeps (λ db. Extends s.db.events db.events) (log_laws s.db.events) calls s
      ([], sym (append-nil s.db.events))
