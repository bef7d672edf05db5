-- ===== src/Auth/Scopes.antt =====
-- `required_scope` of src/harness/auth.py.
use Prim.Native.Char.{code}
use text.Mathlib.Text.{starts_with, find?}
use harness_golden_path.Prelude.{
  ℕ, String, Bool, true, not, ◌&&◌, ◌||◌, Option, none, some, ◌=s=◌, ◌==◌, leb, is_some,
  if◌then◌else◌,
}
use harness_golden_path.Prelude.Suffix.{ends_with}
use harness_golden_path.Auth.{drop}

-- `[0-9a-fA-F-]`
abbrev is_hex : ℕ → Bool
is_hex c = (leb 48 c && leb c 57) || (leb 97 c && leb c 102) || (leb 65 c && leb c 70) || (c == 45)

abbrev pub all_hex : String → Bool
all_hex String.[] = true
all_hex (String.◌∷◌ c s) = is_hex (code c) && all_hex s

-- re.fullmatch(r"/v1/tasks/[0-9a-fA-F-]+", path)
abbrev pub is_task_path : String → Bool
is_task_path path =
    starts_with path "/v1/tasks/" && not (drop 10 path =s= "") && all_hex (drop 10 path)

-- `required_scope`; `none` is a public path
unfoldable pub required_scope : String → String → Option String
required_scope method path =
    if (path =s= "/health") || not (starts_with path "/v1/")
    then none
    else if (method =s= "POST") && (path =s= "/v1/tasks")
    then some "tasks:create"
    else if (method =s= "GET") && is_task_path path
    then some "tasks:read"
    else if (method =s= "POST") && ends_with path "/claim"
    then some "tasks:claim"
    else if (method =s= "POST") && ends_with path "/heartbeat"
    then some "tasks:heartbeat"
    else if (method =s= "POST") && (ends_with path "/receipts" || ends_with path "/failures")
    then some "tasks:receipt"
    else if (method =s= "GET")
        && (starts_with path "/v1/operations/"
            || starts_with path "/v1/projections/"
            || starts_with path "/v1/traces/")
    then some "operations:read"
    else if starts_with path "/v1/maintenance/"
    then some "maintenance:write"
    else if ends_with path "/approval-requests"
    then some "approvals:request"
    else if is_some (find? path "/v1/approvals/") && ends_with path "/decisions"
    then some "approvals:decide"
    else some "authenticated"
