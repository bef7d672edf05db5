-- ===== src/Store/Creation.antt =====
-- `create_task` of src/harness/store.py: the idempotency key.
use harness_golden_path.Prelude.{
  ◌≡◌, subst, sym, refl, String, Bool, Bool-cases, true, false, inl, inr, Option-cases, none, some,
  List, [], ◌∷◌, ◌++◌, any, arith, find, =s=_iff,
}
use harness_golden_path.Contracts.Models.{TaskCard}
use harness_golden_path.Store.Tables.{Task, State}
use harness_golden_path.Store.Txn.{Result, ok, err, unique_violation}
use harness_golden_path.Store.Actions.{Env, by_id}
use harness_golden_path.Store.Lifecycle.{
  create_task, insert_row, by_idempotency_key, first_route, new_task,
}

find-append_new :
    (key : String) (ts : List Task) (new : Task)
    → find (by_idempotency_key key) ts ≡ none
    → by_idempotency_key key new ≡ true
    → find (by_idempotency_key key) (ts ++ new ∷ []) ≡ some new
find-append_new key [] new absent k = ground arith
find-append_new key (t ∷ ts) new absent k = ground (arith, find-append_new key ts new)

module _ (env : Env) (card : TaskCard) (s : State) where
  abbrev outcome : Result (Task × Bool) × State
  outcome = create_task env card s

  abbrev by_card : Task → Bool
  by_card = by_idempotency_key card.idempotency_key

  -- A card whose key is known answers the row that has it, and changes nothing.
  pub create_known :
      {ref : String} {row : Task}
      → first_route card.model_routing.default_route ≡ some ref
      → find by_card s.db.tasks ≡ some row
      → outcome ≡ (ok (row, false), s)
  unfolding create_task
  create_known r known = ground (arith, r, known)

  -- A new card whose id is new becomes a row, which its key finds.
  pub create_new :
      {ref : String}
      → first_route card.model_routing.default_route ≡ some ref
      → find by_card s.db.tasks ≡ none
      → any (by_id card.task_id) s.db.tasks ≡ false
      → (outcome.0 ≡ ok (new_task env card ref, true))
        × (outcome.1.db.tasks ≡ s.db.tasks ++ new_task env card ref ∷ [])
  unfolding create_task insert_row
  create_new r absent new = rw (r, absent, new) (refl, refl)

  pub create_taken :
      {ref : String}
      → first_route card.model_routing.default_route ≡ some ref
      → find by_card s.db.tasks ≡ none
      → any (by_id card.task_id) s.db.tasks ≡ true
      → outcome.0 ≡ err unique_violation
  unfolding create_task insert_row
  create_taken r absent taken = rw (r, absent, taken) refl

  -- After a call that answers, the key of the card finds the row of the answer.
  create_stores :
      {ref : String} {row : Task} {created : Bool}
      → first_route card.model_routing.default_route ≡ some ref
      → outcome.0 ≡ ok (row, created)
      → find by_card outcome.1.db.tasks ≡ some row
  create_stores {ref} {row} r answered = elim (Option-cases (find by_card s.db.tasks)) [
    | inr (known, e) ↦ ground (arith, create_known r e, e, answered)
    | inl absent ↦ elim (Bool-cases (any (by_id card.task_id) s.db.tasks)) [
      | inl taken ↦ let k = create_taken r absent taken in absurd (ground arith)
      | inr new ↦
          let k = create_new r absent new in
          let f =
            find-append_new card.idempotency_key s.db.tasks (new_task env card ref) absent
              ((=s=_iff _ _).1 refl) in
          ground (arith, k, f, answered)
    ]
  ]

-- Once `create_task` has answered a row for a card, the next call with the same key, whatever
-- else its card says as long as it names a route, answers that row as not created and changes
-- nothing.
pub create_once :
    (env later : Env) (card again : TaskCard) (s : State) {ref other : String} {row : Task}
    {created : Bool}
    → first_route card.model_routing.default_route ≡ some ref
    → first_route again.model_routing.default_route ≡ some other
    → again.idempotency_key ≡ card.idempotency_key
    → let (answer, after) = create_task env card s in
      answer ≡ ok (row, created) → create_task later again after ≡ (ok (row, false), after)
create_once env later card again s {row = row} r o same answered =
    let after = (create_task env card s).1 in
    create_known later again after o (
      subst (λ k. find (by_idempotency_key k) after.db.tasks ≡ some row) (sym same)
        (create_stores env card s r answered))
