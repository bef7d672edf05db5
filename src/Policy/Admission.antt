-- ===== src/Policy/Admission.antt =====
-- The policy of src/harness/policy.py in front of `create_task` of src/harness/store.py.
use harness_golden_path.Prelude.{
  refl, ◌⊎◌, ◌≡◌, ap, String, Bool, Bool-cases, Option-cases, true, false, inl, inr, is_nonempty,
  none, some, List, [], ◌∷◌, any, find, arith,
}
use harness_golden_path.Contracts.Models.{TaskCard}
use harness_golden_path.Store.Tables.{Task, State}
use harness_golden_path.Store.Txn.{Result, ok, err, unique_violation}
use harness_golden_path.Store.Actions.{Env, by_id}
use harness_golden_path.Store.Lifecycle.{create_task, first_route, by_idempotency_key, new_task}
use harness_golden_path.Store.Creation.{create_known, create_new, create_taken}
use harness_golden_path.Policy.{
  Catalog, AgentPolicy, RoutingClass, DataPolicy, AuthorityPolicy, assert_task_allowed,
}
use harness_golden_path.Policy.Tasks.{task_allowed_sound}

route_first :
    (route : List String)
    → is_nonempty route ≡ true
    → (ref : String) × (first_route route ≡ some ref)
route_first [] h = absurd (ground arith)
route_first (ref ∷ rest) h = (ref, refl)

-- A card that the policy accepts is always stored or recognised: `create_task` either answers a row, or
-- refuses a task id that another card has taken. It never runs into the empty route.
pub accepted_cards_are_created :
    (env : Env) (card : TaskCard) (catalog : Catalog) (classes : List (String × RoutingClass))
    (agents : AgentPolicy) (data_policy : DataPolicy) (authority : AuthorityPolicy) (s : State)
    → assert_task_allowed card catalog classes agents data_policy authority ≡ none
    → ((row : Task) × (created : Bool) × ((create_task env card s).0 ≡ ok (row, created)))
      ⊎ ((any (by_id card.task_id) s.db.tasks ≡ true)
          × ((create_task env card s).0 ≡ err unique_violation))
accepted_cards_are_created env card catalog classes agents data_policy authority s accepted =
    let lawful = task_allowed_sound card catalog classes agents data_policy authority accepted in
    let (ref, r) = route_first card.model_routing.default_route lawful.has_route in
    elim (Option-cases (find (by_idempotency_key card.idempotency_key) s.db.tasks)) [
      | inr (row, known) ↦ inl (
        row,
        false,
        ap (λ (o : Result (Task × Bool) × State). o.0) (create_known env card s r known),
      )
      | inl absent ↦ elim (Bool-cases (any (by_id card.task_id) s.db.tasks)) [
        | inl taken ↦ inr (taken, create_taken env card s r absent taken)
        | inr new ↦ inl (new_task env card ref, true, (create_new env card s r absent new).0)
      ]
    ]
