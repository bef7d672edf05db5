-- ===== src/App/Admission.antt =====
-- The policy stands in front of the store of src/harness/app.py.
use harness_golden_path.Prelude.{subst, sym, List}
use harness_golden_path.Store.Tables.{State, Db}
use harness_golden_path.Store.Actions.{Env}
use harness_golden_path.Store.Keeps.Calls.{run-Keeps}
use harness_golden_path.Store.Cards.{Carded, card_laws}
use harness_golden_path.App.Http.{HttpRequest}
use harness_golden_path.App.Handlers.{App}
use harness_golden_path.App.Refine.{Accepts, serve_all, api_refines_store}

-- No task comes into the store but past the policy: if every stored card is one that pydantic and the
-- policy of the service accept, so is every card after any requests, whoever sent them.
pub stored_cards_are_accepted :
    (app : App) (traffic : List (Env × HttpRequest)) (s : State)
    → Carded (Accepts app) s.db.tasks
    → Carded (Accepts app) (serve_all app traffic s).db.tasks
stored_cards_are_accepted app traffic s h =
    let (calls, of_traffic, admitted, same) = api_refines_store app traffic s in
    subst (λ (x : State). Carded (Accepts app) x.db.tasks) (sym same)
      (run-Keeps (λ (db : Db). Carded (Accepts app) db.tasks) (card_laws (Accepts app)) calls s
        admitted h)
