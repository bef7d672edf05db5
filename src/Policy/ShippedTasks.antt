-- ===== src/Policy/ShippedTasks.antt =====
-- What `assert_task_allowed` of src/harness/policy.py accepts under policies/*.yaml.
use harness_golden_path.Prelude.{
  String, ◌≡◌, ◌≢◌, ◌||◌, ◌&&◌, All, subset, ap, sym, subst, ◌∙◌, ◌⊎◌, inl, inr, refl, Bool,
  Bool-cases, true, false, none, some, List, [], ◌∷◌, ◌=s=◌, =s=_iff, str_mem, arith,
}
use harness_golden_path.Contracts.{
  DataClassification, internal, confidential_local, confidential_cloud_approved, secret, hermes_nas,
  hermes_local, ExecutorRole, role_value, data_value,
}
use harness_golden_path.Contracts.Models.{TaskCard}
use harness_golden_path.Policy.Routes.{IsUsable}
use harness_golden_path.Policy.Tasks.{IsLawful, task_allowed_sound}
use harness_golden_path.Policy.{same_list, is_route, lookup, Model, Executor, RoutingClass}
use harness_golden_path.Policy.Shipped.{
  shipped_catalog, shipped_routing, shipped_agents, shipped_data, shipped_authority,
  shipped_verdict,
}

-- What the policies of the repository let through.
pub data Shape (card : TaskCard) : Type 0 where
  monitor :
      card.owner_role ≡ hermes_nas
      → card.task_class ≡ "read_only_monitor"
      → card.data_classification ≡ internal
      → card.model_routing.default_route ≡ "deterministic_monitor" ∷ []
      → Shape card
  change :
      card.owner_role ≡ hermes_local
      → (card.task_class ≡ "docs_change") ⊎ (card.task_class ≡ "complex_code")
      → (card.data_classification ≡ internal)
        ⊎ (card.data_classification ≡ confidential_cloud_approved)
      → str_mem "merge_main" card.approval_required ≡ true
      → card.model_routing.default_route ≡ "anthropic_oauth_reasoner" ∷ []
      → Shape card

one_route : (xs : List String) (ref : String) → same_list xs (ref ∷ []) ≡ true → xs ≡ ref ∷ []
one_route [] ref h = absurd (ground arith)
one_route (x ∷ []) ref h = ap (λ y. y ∷ []) ((=s=_iff x ref).0 (ground arith))
one_route (x ∷ y ∷ xs) ref h = absurd (ground arith)

abbrev Lawful : TaskCard → Type 0
Lawful card = IsLawful card shipped_catalog shipped_routing.classes shipped_agents

some_injective {ℓ} : {A : Type ℓ} {a b : A} → some a ≡ some b → a ≡ b
some_injective h = cc

nas_data : (d : DataClassification) → str_mem (data_value d) ("internal" ∷ []) ≡ true → d ≡ internal
unfolding data_value
nas_data internal h = refl
nas_data confidential_local h = absurd cc
nas_data confidential_cloud_approved h = absurd cc
nas_data secret h = absurd cc

cloud_data :
    (d : DataClassification)
    → str_mem (data_value d) ("internal" ∷ "confidential_cloud_approved" ∷ []) ≡ true
    → (d ≡ internal) ⊎ (d ≡ confidential_cloud_approved)
unfolding data_value
cloud_data internal h = inl refl
cloud_data confidential_local h = absurd cc
cloud_data confidential_cloud_approved h = inr refl
cloud_data secret h = absurd cc

or_false : (b : Bool) → (b || false) ≡ b
or_false true = refl
or_false false = refl

and_true : (b : Bool) → (b && true) ≡ b
and_true true = refl
and_true false = refl

not_local : (card : TaskCard) → Shape card → card.data_classification ≢ confidential_local
not_local card (monitor role class kind route) h = cc
not_local card (change role class (inl kind) approval route) h = cc
not_local card (change role class (inr kind) approval route) h = cc

module _ (card : TaskCard) (lawful : Lawful card) where
  -- The route of a class whose routing is known.
  route_of :
      (class : String) (routing : RoutingClass) (ref : String)
      → card.task_class ≡ class
      → lookup class shipped_routing.classes ≡ some routing
      → routing.route ≡ some (ref ∷ [])
      → card.model_routing.default_route ≡ ref ∷ []
  route_of class routing ref is_class known is_route_of =
      let same : lawful.routing ≡ routing =
        some_injective (
          sym lawful.known_routing ∙ ap (λ c. lookup c shipped_routing.classes) is_class ∙ known) in
      one_route card.model_routing.default_route ref (
        subst (λ r. is_route r card.model_routing.default_route ≡ true)
          (ap (λ (r : RoutingClass). r.route) same ∙ is_route_of) lawful.takes_route)

  executor_of :
      (role : ExecutorRole) (executor : Executor)
      → card.owner_role ≡ role
      → lookup (role_value role) shipped_agents.executors ≡ some executor
      → lawful.executor ≡ executor
  executor_of role executor is_role known = some_injective (
      sym lawful.known_executor
      ∙ ap (λ r. lookup (role_value r) shipped_agents.executors) is_role
      ∙ known)

  class_in :
      (executor : Executor)
      → lawful.executor ≡ executor
      → str_mem card.task_class executor.allowed_task_classes ≡ true
  class_in executor same =
      subst (λ (e : Executor). str_mem card.task_class e.allowed_task_classes ≡ true) same
        lawful.may_execute

  nas_case : card.owner_role ≡ hermes_nas → Shape card
  unfolding role_value
  nas_case nas =
      let same = executor_of hermes_nas _ nas refl in
      let is_class : card.task_class ≡ "read_only_monitor" =
        (=s=_iff card.task_class "read_only_monitor").0 (rw or_false at (class_in _ same)) in
      let is_data = nas_data card.data_classification (
        subst
          (λ (e : Executor).
            str_mem (data_value card.data_classification) e.allowed_data_classes ≡ true)
          same lawful.may_see) in
      monitor nas is_class is_data
        (route_of "read_only_monitor" _ "deterministic_monitor" is_class refl refl)

  approved :
      (class : String)
      → card.task_class ≡ class
      → lookup class shipped_agents.task_classes ≡ some ("merge_main" ∷ [])
      → str_mem "merge_main" card.approval_required ≡ true
  approved class is_class known =
      let same : lawful.required ≡ "merge_main" ∷ [] = some_injective (
        sym lawful.known_class ∙ ap (λ c. lookup c shipped_agents.task_classes) is_class ∙ known) in
      rw and_true at (subst (λ xs. subset xs card.approval_required ≡ true) same lawful.approvals)

  oauth_data :
      card.model_routing.default_route ≡ "anthropic_oauth_reasoner" ∷ []
      → (card.data_classification ≡ internal)
        ⊎ (card.data_classification ≡ confidential_cloud_approved)
  oauth_data route =
      let usable =
        (subst
          (All (
            IsUsable card.model_routing.permitted_provider_classes shipped_catalog
              card.data_classification))
          route lawful.usable).0 in
      let same : usable.classes ≡ "internal" ∷ "confidential_cloud_approved" ∷ [] = some_injective (
        sym usable.has_classes
        ∙ sym (ap (λ (m : Model). m.allowed_data_classes) (some_injective usable.listed))) in
      cloud_data card.data_classification (
        subst (λ cs. str_mem (data_value card.data_classification) cs ≡ true) same
          usable.data_allowed)

  change_of :
      (class : String) (routing : RoutingClass)
      → card.owner_role ≡ hermes_local
      → (card.task_class ≡ "docs_change") ⊎ (card.task_class ≡ "complex_code")
      → card.task_class ≡ class
      → lookup class shipped_routing.classes ≡ some routing
      → routing.route ≡ some ("anthropic_oauth_reasoner" ∷ [])
      → lookup class shipped_agents.task_classes ≡ some ("merge_main" ∷ [])
      → Shape card
  change_of class routing local either is_class known by needs =
      let route = route_of class routing "anthropic_oauth_reasoner" is_class known by in
      change local either (oauth_data route) (approved class is_class needs) route

  local_case : card.owner_role ≡ hermes_local → Shape card
  unfolding role_value
  local_case local =
      let member = class_in _ (executor_of hermes_local _ local refl) in
      elim (Bool-cases (card.task_class =s= "docs_change")) [
        | inl docs ↦
            let is_class = (=s=_iff card.task_class "docs_change").0 docs in
            change_of "docs_change" _ local (inl is_class) is_class refl refl refl
        | inr other ↦
            let is_class = (=s=_iff card.task_class "complex_code").0 (ground arith) in
            change_of "complex_code" _ local (inr is_class) is_class refl refl refl
      ]

by_role :
    (card : TaskCard) (role : ExecutorRole) → card.owner_role ≡ role → Lawful card → Shape card
by_role card hermes_nas e lawful = nas_case card lawful e
by_role card hermes_local e lawful = local_case card lawful e

-- Under the policies of the repository only two kinds of tasks are accepted: a NAS task is a
-- `read_only_monitor` on internal data by the deterministic monitor; a local task is a `docs_change` or
-- a `complex_code` by the OAuth route, on internal or cloud-approved data, that asks for the approval
-- `merge_main`. So no accepted task carries `confidential_local` or secret data.
pub shipped_policies_admit :
    (card : TaskCard)
    → shipped_verdict card ≡ none
    → Shape card
      × (card.data_classification ≢ confidential_local)
      × (card.data_classification ≢ secret)
unfolding shipped_verdict
shipped_policies_admit card accepted =
    let lawful =
      task_allowed_sound card shipped_catalog shipped_routing.classes shipped_agents shipped_data
        shipped_authority accepted in
    let shape = by_role card card.owner_role refl lawful in
    (shape, not_local card shape, lawful.public_data)
