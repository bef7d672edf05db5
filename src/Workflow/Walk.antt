-- ===== src/Workflow/Walk.antt =====
-- Runs along a workflow that `validate_graph` of src/harness/workflow.py accepts.
use harness_golden_path.Prelude.{
  String, ◌≡◌, ◌≢◌, sym, subst, Bool-cases, Option-cases, true, false, inl, inr, Option, none, some,
  List, [], ◌∷◌, ◌++◌, All, find, str_mem, ◌=s=◌, =s=_iff, if◌then◌else◌, arith,
}
use harness_golden_path.Policy.Routes.{first_error-none, require-none}
use harness_golden_path.Workflow.{
  WorkflowNode, WorkflowDefinition, WorkflowTransitions, unknown_target, terminal_sentinels, truthy,
  targets, ids_of, is_defined, check_targets, check_nodes, validate_graph, node,
}

-- Where a run of a workflow can be: at a node, at a terminal status, at a node that has no transition
-- for its outcome, or at a name that is neither.
pub data Place : Type 0 where
  standing : WorkflowNode → Place
  ended : String → Place
  stopped : Place
  lost : String → Place

pub data Outcome : Type 0 where
  success failure approval retry : Outcome

abbrev exit_of : WorkflowTransitions → Outcome → List String
exit_of t success = truthy t.success
exit_of t failure = truthy t.failure
exit_of t approval = truthy t.approval
exit_of t retry = truthy t.retry

-- Where a name leads: to the node of that name, if `node` finds one.
abbrev resolve : Option WorkflowNode → String → Place
resolve (some n) name = standing n
resolve none name = if str_mem name terminal_sentinels then ended name else lost name

abbrev pub enter : WorkflowDefinition → String → Place
enter w name = resolve (node w name) name

abbrev leave : WorkflowDefinition → List String → Place
leave w [] = stopped
leave w (t ∷ ts) = enter w t

abbrev pub advance : WorkflowDefinition → Place → Outcome → Place
advance w (standing n) o = leave w (exit_of n.transitions o)
advance w (ended name) o = ended name
advance w stopped o = stopped
advance w (lost name) o = lost name

abbrev pub walk : WorkflowDefinition → Place → List Outcome → Place
walk w p [] = p
walk w p (o ∷ os) = walk w (advance w p o) os

-- Every exit of a node leads to a node or to a terminal status.
abbrev Leads : List String → WorkflowNode → Type 0
Leads ids n = All (λ t. is_defined ids t ≡ true) (targets n.transitions)

targets_defined :
    (ids : List String) (from : String) (ts : List String)
    → check_targets ids from ts ≡ none
    → All (λ t. is_defined ids t ≡ true) ts
targets_defined ids from [] h = tt
targets_defined ids from (t ∷ ts) h =
    let both = first_error-none _ (check_targets ids from ts) h in
    (
      (require-none (is_defined ids t) (unknown_target from t) none both.0).0,
      targets_defined ids from ts both.1,
    )

found-Leads :
    (ids : List String) (name : String) (ns : List WorkflowNode) {n : WorkflowNode}
    → check_nodes ids ns ≡ none
    → find (λ m. m.node_id =s= name) ns ≡ some n
    → Leads ids n
unfolding check_nodes
found-Leads ids name [] h e = absurd (ground arith)
found-Leads ids name (x ∷ ns) {n} h e =
    let both =
      first_error-none (check_targets ids x.node_id (targets x.transitions)) (check_nodes ids ns)
        h in
    elim (Bool-cases (x.node_id =s= name)) [
      | inl same ↦
          let it : x ≡ n = ground arith in
          subst (Leads ids) it (targets_defined ids x.node_id (targets x.transitions) both.0)
      | inr other ↦ found-Leads ids name ns {n = n} both.1 (ground arith)
    ]

later_member :
    (name first : String) (rest : List String)
    → (first =s= name) ≡ false
    → str_mem name (first ∷ rest) ≡ true
    → str_mem name rest ≡ true
later_member name first rest other h = elim (Bool-cases (name =s= first)) [
  | inl same ↦
      let again : (first =s= name) ≡ true =
        (=s=_iff first name).1 (sym ((=s=_iff name first).0 same)) in
      absurd (ground arith)
  | inr differ ↦ ground arith
]

member_found :
    (name : String) (ns : List WorkflowNode)
    → str_mem name (ids_of ns) ≡ true
    → (n : WorkflowNode) × (find (λ m. m.node_id =s= name) ns ≡ some n)
member_found name [] h = absurd (ground arith)
member_found name (x ∷ ns) h = elim (Bool-cases (x.node_id =s= name)) [
  | inl same ↦ (x, ground arith)
  | inr other ↦
      let (n, e) = member_found name ns (later_member name x.node_id (ids_of ns) other h) in
      (n, ground arith)
]

-- A place that a valid workflow can be at.
abbrev Sound : WorkflowDefinition → Place → Type 0
Sound w (standing n) = Leads (ids_of w.nodes) n
Sound w (ended name) = Unit
Sound w stopped = Unit
Sound w (lost name) = ⊥

enter-Sound :
    (w : WorkflowDefinition) (name : String)
    → check_nodes (ids_of w.nodes) w.nodes ≡ none
    → is_defined (ids_of w.nodes) name ≡ true
    → Sound w (enter w name)
unfolding node
enter-Sound w name valid defined = elim (Option-cases (node w name)) [
  | inr (n, e) ↦ rw e (found-Leads (ids_of w.nodes) name w.nodes valid e)
  | inl none_there ↦ elim (Bool-cases (str_mem name terminal_sentinels)) [
    | inl final ↦ rw (none_there, final) tt
    | inr other ↦ let (n, e) = member_found name w.nodes (ground arith) in absurd (ground arith)
  ]
]

leave-Sound :
    (w : WorkflowDefinition) (ts : List String)
    → check_nodes (ids_of w.nodes) w.nodes ≡ none
    → All (λ t. is_defined (ids_of w.nodes) t ≡ true) ts
    → Sound w (leave w ts)
leave-Sound w [] valid all = tt
leave-Sound w (t ∷ ts) valid all = enter-Sound w t valid all.0

All-append_left : (P : String → Type 0) (xs ys : List String) → All P (xs ++ ys) → All P xs
All-append_left P [] ys h = tt
All-append_left P (x ∷ xs) ys h = (h.0, All-append_left P xs ys h.1)

All-append_right : (P : String → Type 0) (xs ys : List String) → All P (xs ++ ys) → All P ys
All-append_right P [] ys h = h
All-append_right P (x ∷ xs) ys h = All-append_right P xs ys h.1

exits_defined :
    (P : String → Type 0) (t : WorkflowTransitions) (o : Outcome)
    → All P (targets t)
    → All P (exit_of t o)
unfolding targets
exits_defined P t success h = All-append_left P (truthy t.success) _ h
exits_defined P t failure h =
    All-append_left P (truthy t.failure) _ (All-append_right P (truthy t.success) _ h)
exits_defined P t approval h =
    All-append_left P (truthy t.approval) _
      (All-append_right P (truthy t.failure) _ (All-append_right P (truthy t.success) _ h))
exits_defined P t retry h =
    All-append_right P (truthy t.approval) _
      (All-append_right P (truthy t.failure) _ (All-append_right P (truthy t.success) _ h))

advance-Sound :
    (w : WorkflowDefinition) (p : Place) (o : Outcome)
    → check_nodes (ids_of w.nodes) w.nodes ≡ none
    → Sound w p
    → Sound w (advance w p o)
advance-Sound w (standing n) o valid s =
    leave-Sound w (exit_of n.transitions o) valid
      (exits_defined (λ t. is_defined (ids_of w.nodes) t ≡ true) n.transitions o s)
advance-Sound w (ended name) o valid s = tt
advance-Sound w stopped o valid s = tt
advance-Sound w (lost name) o valid s = absurd s

walk-Sound :
    (w : WorkflowDefinition) (p : Place) (os : List Outcome)
    → check_nodes (ids_of w.nodes) w.nodes ≡ none
    → Sound w p
    → Sound w (walk w p os)
walk-Sound w p [] valid s = s
walk-Sound w p (o ∷ os) valid s =
    walk-Sound w (advance w p o) os valid (advance-Sound w p o valid s)

never_lost : (w : WorkflowDefinition) (p : Place) (name : String) → Sound w p → p ≢ lost name
never_lost w p name s e = subst (Sound w) e s

-- From the entry node of a workflow that `validate_graph` accepts, no sequence of outcomes leads to a
-- name that is neither a node of the workflow nor a terminal status.
pub walk_never_lost :
    (w : WorkflowDefinition) (os : List Outcome) (name : String)
    → validate_graph w ≡ none
    → walk w (enter w w.entry_node) os ≢ lost name
unfolding validate_graph
walk_never_lost w os name valid =
    let ids = ids_of w.nodes in
    let nodes : check_nodes ids w.nodes ≡ none = ground arith in
    let entry : is_defined ids w.entry_node ≡ true = ground arith in
    never_lost w _ name
      (walk-Sound w (enter w w.entry_node) os nodes (enter-Sound w w.entry_node nodes entry))
