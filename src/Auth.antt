-- ===== src/Auth.antt =====
-- src/harness/auth.py: bearer tokens and scopes. The environment and the token files are parameters,
-- read anew for each request.
pub mod Scopes
pub mod Access
use Prim.Native.Char.{code}
use text.Mathlib.Text.{starts_with}
use harness_golden_path.Prelude.{
  ℕ, zero, suc, opt_is, String, Bool, true, false, not, ◌&&◌, ◌||◌, Option, none, some, List, [],
  ◌∷◌, all, codes, length, str_mem, is_nonempty, ◌=s=◌, ◌==◌, ltb, leb, if◌then◌else◌,
}

-- `token_file` is None only for the principal of a disabled authorizer
pub record Principal : Type 0 where
  pub name : String
  pub role : String
  pub scopes : List String
  pub token_file : Option String

-- `Principal.allows`
unfoldable pub allows : Principal → String → Bool
allows p scope = str_mem "*" p.scopes || str_mem scope p.scopes

pub record Spec : Type 0 where
  pub name : String
  pub role : String
  pub env_name : String
  pub scopes : List String

abbrev pub orchestrator : Spec
orchestrator = record {
  name = "svc-panda-orchestrator";
  role = "orchestrator";
  env_name = "HARNESS_ORCHESTRATOR_TOKEN_FILE";
  scopes = "tasks:create" ∷ "tasks:read" ∷ "operations:read" ∷ [];
}

abbrev pub nas_worker : Spec
nas_worker = record {
  name = "svc-hermes-nas";
  role = "hermes_nas";
  env_name = "HARNESS_NAS_WORKER_TOKEN_FILE";
  scopes = "tasks:read" ∷ "tasks:claim" ∷ "tasks:heartbeat" ∷ "tasks:receipt" ∷ [];
}

-- `_PRINCIPAL_SPECS`
abbrev pub principal_specs : List Spec
principal_specs = orchestrator ∷ nas_worker ∷ []

-- the two exceptions, and the RuntimeErrors of `_read_token` and of `from_environment`
pub data AuthError : Type 0 where
  token_required token_invalid : AuthError
  lacks_scope : String → String → AuthError
  -- TypeError of `hmac.compare_digest`
  not_ascii : AuthError
  no_token_file : AuthError
  unreadable_file short_token : String → AuthError
  missing_files : List String → AuthError

pub data Outcome {ℓ} (A : Type ℓ) : Type ℓ where
  ok : A → Outcome A
  err : AuthError → Outcome A

-- `str.isspace` on the characters that `strip` removes
abbrev is_space : ℕ → Bool
is_space c =
    (leb 9 c && leb c 13)
    || (leb 28 c && leb c 32)
    || (c == 133)
    || (c == 160)
    || (c == 5760)
    || (leb 8192 c && leb c 8202)
    || (c == 8232)
    || (c == 8233)
    || (c == 8239)
    || (c == 8287)
    || (c == 12288)

abbrev all_space : String → Bool
all_space String.[] = true
all_space (String.◌∷◌ c s) = is_space (code c) && all_space s

abbrev strip_left : String → String
strip_left String.[] = ""
strip_left (String.◌∷◌ c s) =
    let rest = strip_left s in if is_space (code c) then rest else String.◌∷◌ c s

abbrev strip_right : String → String
strip_right String.[] = ""
strip_right (String.◌∷◌ c s) =
    let rest = strip_right s in if is_space (code c) && all_space s then "" else String.◌∷◌ c rest

-- `str.strip`
unfoldable pub strip : String → String
strip s = strip_right (strip_left s)

-- `s[n:]`
abbrev pub drop : ℕ → String → String
drop zero s = s
drop (suc n) String.[] = ""
drop (suc n) (String.◌∷◌ c s) = drop n s

-- `path.read_text(…)`, with what `open` refuses as `none`
abbrev pub Files : Type 0
Files = String → Option String

abbrev long_enough : String → String → Outcome String
long_enough path token = if ltb (length (codes token)) 32 then err (short_token path) else ok token

abbrev token_in : String → Option String → Outcome String
token_in path none = err (unreadable_file path)
token_in path (some text) = long_enough path (strip text)

-- `_read_token`
unfoldable pub read_token : Files → Option String → Outcome String
unfolding strip
read_token files none = err no_token_file
read_token files (some path) = token_in path (files path)

pub record Authorizer : Type 0 where
  pub principals : List Principal
  pub enabled : Bool

-- what the loop of `from_environment` has found: principals, missing variables, or an exception
pub record Found : Type 0 where
  pub principals : List Principal
  pub missing : List String

abbrev with_principal : Spec → String → Outcome String → Outcome Found → Outcome Found
with_principal spec path (err e) rest = err e
with_principal spec path (ok token) (err e) = err e
with_principal spec path (ok token) (ok f) = ok (record f {
  principals =
      record { name = spec.name; role = spec.role; scopes = spec.scopes; token_file = some path }
      ∷ f.principals;
})

abbrev with_missing : String → Outcome Found → Outcome Found
with_missing name (err e) = err e
with_missing name (ok f) = ok (record f { missing = name ∷ f.missing })

-- `if not configured: … continue`: an unset variable and an empty one count alike
abbrev configure : Files → Spec → Option String → Outcome Found → Outcome Found
configure files spec none rest = with_missing spec.env_name rest
configure files spec (some path) rest =
    if path =s= ""
    then with_missing spec.env_name rest
    else with_principal spec path (read_token files (some path)) rest

unfoldable pub load_principals : Files → (String → Option String) → List Spec → Outcome Found
unfolding read_token
load_principals files environ [] = ok (record { principals = []; missing = [] })
load_principals files environ (spec ∷ specs) =
    configure files spec (environ spec.env_name) (load_principals files environ specs)

abbrev conclude : Bool → Outcome Found → Outcome Authorizer
conclude required (err e) = err e
conclude required (ok f) =
    if required && is_nonempty f.missing
    then err (missing_files f.missing)
    else ok (record { principals = f.principals; enabled = required || is_nonempty f.principals })

-- `TokenAuthorizer.from_environment`
unfoldable pub from_environment : Files → (String → Option String) → Outcome Authorizer
unfolding load_principals
from_environment files environ =
    conclude (opt_is (environ "HARNESS_AUTH_REQUIRED") "1")
      (load_principals files environ principal_specs)

abbrev pub development : Principal
development = record {
  name = "development";
  role = "development";
  scopes = "*" ∷ [];
  token_file = none;
}

abbrev pub is_ascii : String → Bool
is_ascii s = all (λ c. ltb c 128) (codes s)

abbrev granted : Principal → String → Outcome Principal
granted p scope = if allows p scope then ok p else err (lacks_scope p.name scope)

abbrev compare_token :
    Principal → String → String → Outcome String → Outcome Principal → Outcome Principal
compare_token p scope supplied (err e) rest = err e
compare_token p scope supplied (ok expected) rest =
    if not (is_ascii supplied && is_ascii expected)
    then err not_ascii
    else if supplied =s= expected
    then granted p scope
    else rest

-- the loop of `authenticate`; each token file is read again
unfoldable pub match_principal : Files → List Principal → String → String → Outcome Principal
unfolding allows read_token
match_principal files [] scope supplied = err token_invalid
match_principal files (p ∷ ps) scope supplied =
    compare_token p scope supplied (read_token files p.token_file)
      (match_principal files ps scope supplied)

abbrev bearer : Files → List Principal → String → Option String → Outcome Principal
bearer files ps scope none = err token_required
bearer files ps scope (some header) =
    if starts_with header "Bearer "
    then match_principal files ps scope (strip (drop 7 header))
    else err token_required

-- `TokenAuthorizer.authenticate`
unfoldable pub authenticate : Files → Authorizer → Option String → String → Outcome Principal
unfolding match_principal strip
authenticate files a authorization scope =
    if a.enabled then bearer files a.principals scope authorization else ok development
