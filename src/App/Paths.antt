-- ===== src/App/Paths.antt =====
-- `required_scope` of src/harness/auth.py at the paths that src/harness/app.py registers.
use Prim.Native.String.{◌++◌ as ◌++ₛ◌}
use Prim.Native.String.find as string_find
use text.Mathlib.Text.{starts_with, find?}
use text.Mathlib.TextPositions.{starts_with-append}
use text.Mathlib.TextLemmas.{append_assoc}
use mathlib.Core.List.{reverse}
use harness_golden_path.Prelude.{
  ◌≡◌, refl, String, Bool, true, false, not, ◌&&◌, Option, none, some, is_some, ◌=s=◌, arith, codes,
}
use harness_golden_path.Prelude.Suffix.{
  clash, onto-append, ends_with, ends_with-append, other_end, other_start, other_text,
}
use harness_golden_path.Auth.Scopes.{required_scope, is_task_path, all_hex}
use harness_golden_path.App.Http.{
  Endpoint, health, cockpit, quality_metrics, resilience, expire_leases, release_retries,
  pandaos_projection, create_task, get_task, trace, claim, heartbeat, receipts, report_failure,
  approval_request, decide, method_of, path_of,
}

-- The scope that belongs to each endpoint.
unfoldable pub scope_for : Endpoint → Option String
scope_for health = none
scope_for cockpit = some "operations:read"
scope_for quality_metrics = some "operations:read"
scope_for resilience = some "operations:read"
scope_for (pandaos_projection _ _) = some "operations:read"
scope_for (trace _) = some "operations:read"
scope_for expire_leases = some "maintenance:write"
scope_for release_retries = some "maintenance:write"
scope_for (create_task _) = some "tasks:create"
scope_for (get_task _) = some "tasks:read"
scope_for (claim _ _) = some "tasks:claim"
scope_for (heartbeat _ _) = some "tasks:heartbeat"
scope_for (receipts _ _) = some "tasks:receipt"
scope_for (report_failure _ _) = some "tasks:receipt"
scope_for (approval_request _ _) = some "approvals:request"
scope_for (decide _ _) = some "approvals:decide"

-- The canonical texts of UUIDs are of this form.
abbrev pub is_hex_text : String → Bool
is_hex_text text = not (text =s= "") && all_hex text

in_v1 : (rest : String) → starts_with ("/v1/" ++ₛ rest) "/v1/" ≡ true
in_v1 rest = starts_with-append "/v1/" rest

task_v1 : (rest : String) → starts_with ("/v1/tasks/" ++ₛ rest) "/v1/" ≡ true
task_v1 rest = rw (append_assoc "/v1/" "tasks/" rest) (in_v1 ("tasks/" ++ₛ rest))

task_path : (text : String) → is_task_path ("/v1/tasks/" ++ₛ text) ≡ is_hex_text text
task_path text = rw (starts_with-append "/v1/tasks/" text, onto-append "/v1/tasks/" text) refl

last_word : (s t end : String) → ends_with (s ++ₛ (t ++ₛ end)) end ≡ true
last_word s t end = rw (← append_assoc s t end) (ends_with-append (s ++ₛ t) end)

other_word :
    (s t end other : String)
    → clash (reverse (codes end)) (reverse (codes other)) ≡ true
    → ends_with (s ++ₛ (t ++ₛ end)) other ≡ false
other_word s t end other h = rw (← append_assoc s t end) (other_end (s ++ₛ t) end other h)

-- A path below /v1/tasks/ that ends with a word of the handlers.
module _ (text : String) where
  claim_scope : required_scope "POST" ("/v1/tasks/" ++ₛ (text ++ₛ "/claim")) ≡ some "tasks:claim"
  unfolding required_scope
  claim_scope = rw (
    other_text "/v1/tasks/" (text ++ₛ "/claim") "/health" refl,
    task_v1 (text ++ₛ "/claim"),
    other_text "/v1/tasks/" (text ++ₛ "/claim") "/v1/tasks" refl,
    last_word "/v1/tasks/" text "/claim",
  )

  heartbeat_scope :
      required_scope "POST" ("/v1/tasks/" ++ₛ (text ++ₛ "/heartbeat")) ≡ some "tasks:heartbeat"
  unfolding required_scope
  heartbeat_scope = rw (
    other_text "/v1/tasks/" (text ++ₛ "/heartbeat") "/health" refl,
    task_v1 (text ++ₛ "/heartbeat"),
    other_text "/v1/tasks/" (text ++ₛ "/heartbeat") "/v1/tasks" refl,
    other_word "/v1/tasks/" text "/heartbeat" "/claim" refl,
    last_word "/v1/tasks/" text "/heartbeat",
  )

  receipts_scope :
      required_scope "POST" ("/v1/tasks/" ++ₛ (text ++ₛ "/receipts")) ≡ some "tasks:receipt"
  unfolding required_scope
  receipts_scope = rw (
    other_text "/v1/tasks/" (text ++ₛ "/receipts") "/health" refl,
    task_v1 (text ++ₛ "/receipts"),
    other_text "/v1/tasks/" (text ++ₛ "/receipts") "/v1/tasks" refl,
    other_word "/v1/tasks/" text "/receipts" "/claim" refl,
    other_word "/v1/tasks/" text "/receipts" "/heartbeat" refl,
    last_word "/v1/tasks/" text "/receipts",
  )

  failures_scope :
      required_scope "POST" ("/v1/tasks/" ++ₛ (text ++ₛ "/failures")) ≡ some "tasks:receipt"
  unfolding required_scope
  failures_scope = rw (
    other_text "/v1/tasks/" (text ++ₛ "/failures") "/health" refl,
    task_v1 (text ++ₛ "/failures"),
    other_text "/v1/tasks/" (text ++ₛ "/failures") "/v1/tasks" refl,
    other_word "/v1/tasks/" text "/failures" "/claim" refl,
    other_word "/v1/tasks/" text "/failures" "/heartbeat" refl,
    other_word "/v1/tasks/" text "/failures" "/receipts" refl,
    last_word "/v1/tasks/" text "/failures",
  )

  request_scope :
      required_scope "POST" ("/v1/tasks/" ++ₛ (text ++ₛ "/approval-requests"))
      ≡ some "approvals:request"
  unfolding required_scope
  request_scope = rw (
    other_text "/v1/tasks/" (text ++ₛ "/approval-requests") "/health" refl,
    task_v1 (text ++ₛ "/approval-requests"),
    other_text "/v1/tasks/" (text ++ₛ "/approval-requests") "/v1/tasks" refl,
    other_word "/v1/tasks/" text "/approval-requests" "/claim" refl,
    other_word "/v1/tasks/" text "/approval-requests" "/heartbeat" refl,
    other_word "/v1/tasks/" text "/approval-requests" "/receipts" refl,
    other_word "/v1/tasks/" text "/approval-requests" "/failures" refl,
    other_start "/v1/tasks/" (text ++ₛ "/approval-requests") "/v1/maintenance/" refl,
    last_word "/v1/tasks/" text "/approval-requests",
  )

approval_v1 : (rest : String) → starts_with ("/v1/approvals/" ++ₛ rest) "/v1/" ≡ true
approval_v1 rest = rw (append_assoc "/v1/" "approvals/" rest) (in_v1 ("approvals/" ++ₛ rest))

approval_found :
    (rest : String) → is_some (find? ("/v1/approvals/" ++ₛ rest) "/v1/approvals/") ≡ true
approval_found rest = rw (onto-append "/v1/approvals/" rest, string_find.cons) (ground arith)

decide_scope :
    (text : String)
    → required_scope "POST" ("/v1/approvals/" ++ₛ (text ++ₛ "/decisions")) ≡ some "approvals:decide"
unfolding required_scope
decide_scope text = rw (
  other_text "/v1/approvals/" (text ++ₛ "/decisions") "/health" refl,
  approval_v1 (text ++ₛ "/decisions"),
  other_text "/v1/approvals/" (text ++ₛ "/decisions") "/v1/tasks" refl,
  other_word "/v1/approvals/" text "/decisions" "/claim" refl,
  other_word "/v1/approvals/" text "/decisions" "/heartbeat" refl,
  other_word "/v1/approvals/" text "/decisions" "/receipts" refl,
  other_word "/v1/approvals/" text "/decisions" "/failures" refl,
  other_start "/v1/approvals/" (text ++ₛ "/decisions") "/v1/maintenance/" refl,
  other_word "/v1/approvals/" text "/decisions" "/approval-requests" refl,
  approval_found (text ++ₛ "/decisions"),
  last_word "/v1/approvals/" text "/decisions",
)

trace_v1 : (rest : String) → starts_with ("/v1/traces/" ++ₛ rest) "/v1/" ≡ true
trace_v1 rest = rw (append_assoc "/v1/" "traces/" rest) (in_v1 ("traces/" ++ₛ rest))

trace_scope :
    (text : String) → required_scope "GET" ("/v1/traces/" ++ₛ text) ≡ some "operations:read"
unfolding required_scope
trace_scope text = rw (
  other_text "/v1/traces/" text "/health" refl,
  trace_v1 text,
  other_start "/v1/traces/" text "/v1/tasks/" refl,
  other_start "/v1/traces/" text "/v1/operations/" refl,
  other_start "/v1/traces/" text "/v1/projections/" refl,
  starts_with-append "/v1/traces/" text,
)

task_scope :
    (text : String)
    → is_hex_text text ≡ true
    → required_scope "GET" ("/v1/tasks/" ++ₛ text) ≡ some "tasks:read"
unfolding required_scope
task_scope text h =
    rw (other_text "/v1/tasks/" text "/health" refl, task_v1 text, task_path text, h)

-- A task is read at a path with a text of hexadecimal digits and dashes, as the canonical text of a
-- UUID is; at other endpoints any text will do.
abbrev pub fits_path : Endpoint → String → Bool
fits_path (get_task _) text = is_hex_text text
fits_path _ text = true

-- At the path of each endpoint, whatever stands for the parameter, the middleware asks for the scope
-- that belongs to the endpoint, and only `/health` is public; where a task is read, the parameter has
-- to be of hexadecimal digits and dashes.
pub paths_guarded :
    (e : Endpoint) (text : String)
    → fits_path e text ≡ true
    → required_scope (method_of e) (path_of e text) ≡ scope_for e
unfolding method_of path_of scope_for required_scope
paths_guarded health text h = refl
paths_guarded cockpit text h = refl
paths_guarded quality_metrics text h = refl
paths_guarded resilience text h = refl
paths_guarded (pandaos_projection _ _) text h = refl
paths_guarded expire_leases text h = refl
paths_guarded release_retries text h = refl
paths_guarded (create_task _) text h = refl
paths_guarded (trace _) text h = trace_scope text
paths_guarded (get_task _) text h = task_scope text h
paths_guarded (claim _ _) text h = claim_scope text
paths_guarded (heartbeat _ _) text h = heartbeat_scope text
paths_guarded (receipts _ _) text h = receipts_scope text
paths_guarded (report_failure _ _) text h = failures_scope text
paths_guarded (approval_request _ _) text h = request_scope text
paths_guarded (decide _ _) text h = decide_scope text
