-- ===== src/Policy/Routes.antt =====
-- What `assert_route_allowed` of src/harness/policy.py accepts.
use harness_golden_path.Prelude.{
  String, ◌≡◌, ◌≢◌, subst, is_nonempty, Bool, Option-cases, true, inl, inr, Option, none, some,
  List, [], ◌∷◌, All, any, str_mem, opt_is_iff, arith,
}
use harness_golden_path.Contracts.{ProviderClass, api_metered, DataClassification, data_value}
use harness_golden_path.Contracts.Models.{ModelRouting}
use harness_golden_path.Policy.{
  first_error, require, Model, Catalog, lookup, parse_provider, check_model, check_route,
  assert_route_allowed, same_provider,
}

-- A route that a task may take.
pub record IsUsable (permitted : List ProviderClass) (models : Catalog) (kind : DataClassification)
    (ref : String) : Type 0 where
  pub model : Model
  pub listed : lookup ref models ≡ some model
  pub verified : model.connection_status ≡ some "verified"
  pub provider : ProviderClass
  pub known : parse_provider model.provider_class ≡ some provider
  pub unmetered : provider ≢ api_metered
  pub is_permitted : any (same_provider provider) permitted ≡ true
  pub classes : List String
  pub has_classes : model.allowed_data_classes ≡ some classes
  pub data_allowed : str_mem (data_value kind) classes ≡ true

pub first_error-none :
    {E : Type 0} (first rest : Option E)
    → first_error first rest ≡ none
    → (first ≡ none) × (rest ≡ none)
first_error-none first rest h = (ground arith, ground arith)

pub require-none :
    {E : Type 0} (test : Bool) (e : E) (rest : Option E)
    → require test e rest ≡ none
    → (test ≡ true) × (rest ≡ none)
require-none test e rest h = (ground arith, ground arith)

module _ (permitted : List ProviderClass) (models : Catalog) (kind : DataClassification) where
  model-IsUsable :
      (ref : String) (m : Model)
      → lookup ref models ≡ some m
      → check_model permitted kind ref (some m) ≡ none
      → IsUsable permitted models kind ref
  unfolding check_model
  model-IsUsable ref m listed h = elim (Option-cases (parse_provider m.provider_class)) [
    | inl unknown ↦ absurd (ground arith)
    | inr (p, e) ↦ elim (Option-cases m.allowed_data_classes) [
      | inl missing ↦ absurd (ground arith)
      | inr (cs, has) ↦ record {
        model = m;
        listed = listed;
        verified = (opt_is_iff _ _).0 (ground arith);
        provider = p;
        known = e;
        unmetered = ground arith;
        is_permitted = ground arith;
        classes = cs;
        has_classes = has;
        data_allowed = ground arith;
      }
    ]
  ]

  absent_refused : (ref : String) → ¬ (check_model permitted kind ref none ≡ none)
  unfolding check_model
  absent_refused ref h = ground arith

  routes-IsUsable :
      (refs : List String)
      → check_route permitted models kind refs ≡ none
      → All (IsUsable permitted models kind) refs
  unfolding check_route
  routes-IsUsable [] h = tt
  routes-IsUsable (ref ∷ refs) h =
      let both =
        first_error-none (check_model permitted kind ref (lookup ref models))
          (check_route permitted models kind refs) h in
      elim (Option-cases (lookup ref models)) [
        | inl absent ↦ absurd (
            absent_refused ref (subst (λ o. check_model permitted kind ref o ≡ none) absent both.0))
        | inr (m, listed) ↦ (
          model-IsUsable ref m listed
              (subst (λ o. check_model permitted kind ref o ≡ none) listed both.0),
          routes-IsUsable refs both.1,
        )
      ]

-- A routing that `assert_route_allowed` accepts names a route, and every model of it is in the
-- catalog, verified, not metered, of a permitted provider class, and allowed to see the data.
pub route_allowed_sound :
    (routing : ModelRouting) (models : Catalog) (kind : DataClassification)
    → assert_route_allowed routing models kind ≡ none
    → (is_nonempty routing.default_route ≡ true)
      × All (IsUsable routing.permitted_provider_classes models kind) routing.default_route
unfolding assert_route_allowed
route_allowed_sound routing models kind h =
    let (some_route, rest) = require-none (is_nonempty routing.default_route) _ _ h in
    (
      some_route,
      routes-IsUsable routing.permitted_provider_classes models kind routing.default_route rest,
    )
