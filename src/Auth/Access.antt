-- ===== src/Auth/Access.antt =====
-- What `authenticate` of src/harness/auth.py grants.
use text.Mathlib.Text.{starts_with}
use harness_golden_path.Prelude.{
  String, ◌≡◌, ◌≢◌, refl, sym, ap, subst, ◌∙◌, Bool, Bool-cases, Option-cases, true, false, ◌||◌,
  inl, inr, ◌⊎◌, Option, none, some, List, [], ◌∷◌, All, length, ◌+◌, str_mem, is_nonempty, opt_is,
  ◌=s=◌, =s=_iff, arith,
}
use mathlib.Core.List.{Mem, mem-cons}
use harness_golden_path.Auth.{
  Principal, allows, Spec, Found, Files, Outcome, ok, err, AuthError, Authorizer, principal_specs,
  orchestrator, nas_worker, read_token, load_principals, from_environment, match_principal,
  authenticate, strip, drop,
}

Outcome-cases :
    {A : Type 0} (o : Outcome A) → ((a : A) × (o ≡ ok a)) ⊎ ((e : AuthError) × (o ≡ err e))
Outcome-cases (ok a) = inl (a, refl)
Outcome-cases (err e) = inr (e, refl)

-- What a match gives: a principal of the list, its token, and its scope.
match_principal_sound :
    (P : Principal → Type 0) (files : Files) (ps : List Principal) (scope supplied : String)
    {p : Principal}
    → All P ps
    → match_principal files ps scope supplied ≡ ok p
    → P p × (allows p scope ≡ true) × (read_token files p.token_file ≡ ok supplied)
unfolding match_principal
match_principal_sound P files [] scope supplied all h = absurd (ground arith)
match_principal_sound P files (q ∷ ps) scope supplied {p} all h =
    elim (Outcome-cases (read_token files q.token_file)) [
      | inr (e, failed) ↦ absurd (ground arith)
      | inl (token, read) ↦ elim (Bool-cases (supplied =s= token)) [
        | inr other ↦ match_principal_sound P files ps scope supplied all.1 (ground arith)
        | inl same ↦
            let it : q ≡ p = ground arith in
            let grants : allows q scope ≡ true = ground arith in
            let reads : read_token files q.token_file ≡ ok supplied =
              read ∙ ap ok (sym ((=s=_iff _ _).0 same)) in
            subst
              (λ x. P x × (allows x scope ≡ true) × (read_token files x.token_file ≡ ok supplied))
              it (all.0, grants, reads)
      ]
    ]

from_members :
    (P : Principal → Type 0) (ps : List Principal) → ((p : Principal) → Mem p ps → P p) → All P ps
from_members P [] h = tt
from_members P (p ∷ ps) h =
    (h p (mem-cons.1 ∣ inl refl ∣₁), from_members P ps λ q m. h q (mem-cons.1 ∣ inr m ∣₁))

its_members : (ps : List Principal) → All (λ q. Mem q ps) ps
its_members ps = from_members (λ q. Mem q ps) ps (λ q m. m)

-- Only the scopes of the specifications are handed out.
load_keeps :
    (Q : List String → Type 0) (files : Files) (environ : String → Option String)
    (specs : List Spec) {f : Found}
    → All (λ spec. Q spec.scopes) specs
    → load_principals files environ specs ≡ ok f
    → All (λ p. Q p.scopes) f.principals
unfolding load_principals
load_keeps Q files environ [] {f} all h =
    let none_found : f.principals ≡ [] = ground arith in rw none_found tt
load_keeps Q files environ (spec ∷ specs) {f} all h =
    elim (Outcome-cases (load_principals files environ specs)) [
      | inr (e, failed) ↦ absurd (ground arith)
      | inl (rest, loaded) ↦
          let later = load_keeps Q files environ specs all.1 loaded in
          elim (Option-cases (environ spec.env_name)) [
            | inl unset ↦ let same : f.principals ≡ rest.principals = ground arith in rw same later
            | inr (path, set) ↦ elim (Bool-cases (path =s= "")) [
              | inl empty ↦
                  let same : f.principals ≡ rest.principals = ground arith in rw same later
              | inr given ↦ elim (Outcome-cases (read_token files (some path))) [
                | inr (e, failed) ↦ absurd (ground arith)
                | inl (token, read) ↦
                    let new : Principal = record {
                      name = spec.name;
                      role = spec.role;
                      scopes = spec.scopes;
                      token_file = some path;
                    } in
                    let same : f.principals ≡ new ∷ rest.principals = ground arith in
                    rw same (all.0, later)
              ]
            ]
          ]
    ]

-- Each specification becomes a principal or a missing variable.
load_counts :
    (files : Files) (environ : String → Option String) (specs : List Spec) {f : Found}
    → load_principals files environ specs ≡ ok f
    → length f.principals + length f.missing ≡ length specs
unfolding load_principals
load_counts files environ [] h = ground arith
load_counts files environ (spec ∷ specs) {f} h =
    elim (Outcome-cases (load_principals files environ specs)) [
      | inr (e, failed) ↦ absurd (ground arith)
      | inl (rest, loaded) ↦ let counted = load_counts files environ specs loaded in ground arith
    ]

-- An enabled authorizer grants a request only to one of its principals, that has the scope, and whose
-- token file holds, at the time of the request, the token after `Bearer `.
pub authenticate_sound :
    (files : Files) (a : Authorizer) (authorization : Option String) (scope : String)
    {p : Principal}
    → a.enabled ≡ true
    → authenticate files a authorization scope ≡ ok p
    → (header : String) × (authorization ≡ some header)
      × (starts_with header "Bearer " ≡ true)
      × Mem p a.principals
      × (allows p scope ≡ true)
      × (read_token files p.token_file ≡ ok (strip (drop 7 header)))
unfolding authenticate
authenticate_sound files a none scope on h = absurd (ground arith)
authenticate_sound files a (some header) scope {p} on h =
    elim (Bool-cases (starts_with header "Bearer ")) [
      | inr other ↦ absurd (ground arith)
      | inl start ↦
          let matched : match_principal files a.principals scope (strip (drop 7 header)) ≡ ok p =
            ground arith in
          let (member, grants, reads) =
            match_principal_sound (λ q. Mem q a.principals) files a.principals scope
              (strip (drop 7 header)) (its_members a.principals) matched in
          (header, refl, start, member, grants, reads)
    ]

abbrev SpecScopes : List String → Type 0
SpecScopes scopes = (scopes ≡ orchestrator.scopes) ⊎ (scopes ≡ nas_worker.scopes)

-- The scopes of what decides: no principal of the pilot has them.
abbrev pub human_scopes : List String
human_scopes = "approvals:request" ∷ "approvals:decide" ∷ "maintenance:write" ∷ "authenticated" ∷ []

abbrev OnlySpecified : Principal → Type 0
OnlySpecified p = SpecScopes p.scopes

abbrev grants_scope : List String → String → Bool
grants_scope scopes scope = str_mem "*" scopes || str_mem scope scopes

refused_one :
    (scopes : List String) (scope human : String)
    → SpecScopes scopes
    → (scope =s= human) ≡ true
    → grants_scope orchestrator.scopes human ≡ false
    → grants_scope nas_worker.scopes human ≡ false
    → grants_scope scopes scope ≡ false
refused_one scopes scope human s e o n =
    subst (λ x. grants_scope scopes x ≡ false) (sym ((=s=_iff scope human).0 e))
      (elim s [
        | inl same ↦ subst (λ xs. grants_scope xs human ≡ false) (sym same) o
        | inr same ↦ subst (λ xs. grants_scope xs human ≡ false) (sym same) n
      ])

refused :
    (scopes : List String) (scope : String)
    → SpecScopes scopes
    → str_mem scope human_scopes ≡ true
    → grants_scope scopes scope ≡ false
refused scopes scope s h = elim (Bool-cases (scope =s= "approvals:request")) [
  | inl e ↦ refused_one scopes scope _ s e refl refl
  | inr e1 ↦ elim (Bool-cases (scope =s= "approvals:decide")) [
    | inl e ↦ refused_one scopes scope _ s e refl refl
    | inr e2 ↦ elim (Bool-cases (scope =s= "maintenance:write")) [
      | inl e ↦ refused_one scopes scope _ s e refl refl
      | inr e3 ↦ refused_one scopes scope "authenticated" s (ground arith) refl refl
    ]
  ]
]

not_human :
    (p : Principal) (scope : String)
    → SpecScopes p.scopes
    → str_mem scope human_scopes ≡ true
    → allows p scope ≡ false
unfolding allows
not_human p scope s h = refused p.scopes scope s h

loaded_principals :
    (files : Files) (environ : String → Option String) {a : Authorizer}
    → from_environment files environ ≡ ok a
    → All OnlySpecified a.principals
unfolding from_environment
loaded_principals files environ {a} h =
    elim (Outcome-cases (load_principals files environ principal_specs)) [
      | inr (e, failed) ↦ absurd (ground arith)
      | inl (f, loaded) ↦
          let same : a.principals ≡ f.principals = ground arith in
          rw same
            (load_keeps SpecScopes files environ principal_specs (inl refl, (inr refl, tt)) loaded)
    ]

-- With the principals of the pilot an enabled authorizer grants nobody, whatever token is sent, to
-- request or decide an approval or to run maintenance.
pub no_principal_decides :
    (files : Files) (environ : String → Option String) (authorization : Option String)
    (scope : String) {a : Authorizer} {p : Principal}
    → from_environment files environ ≡ ok a
    → a.enabled ≡ true
    → str_mem scope human_scopes ≡ true
    → authenticate files a authorization scope ≢ ok p
unfolding authenticate
no_principal_decides files environ none scope configured on human h = absurd (ground arith)
no_principal_decides files environ (some header) scope {a} {p} configured on human h =
    let matched : match_principal files a.principals scope (strip (drop 7 header)) ≡ ok p =
      ground arith in
    let (specified, grants, reads) =
      match_principal_sound OnlySpecified files a.principals scope (strip (drop 7 header))
        (loaded_principals files environ configured) matched in
    let refused = not_human p scope specified human in ground arith

-- Where auth is required, it fails closed: either the start is refused, or the authorizer is enabled
-- and has both principals of the pilot.
pub required_fails_closed :
    (files : Files) (environ : String → Option String) {a : Authorizer}
    → environ "HARNESS_AUTH_REQUIRED" ≡ some "1"
    → from_environment files environ ≡ ok a
    → (a.enabled ≡ true) × (length a.principals ≡ 2)
unfolding from_environment
required_fails_closed files environ {a} required h =
    let required' : opt_is (environ "HARNESS_AUTH_REQUIRED") "1" ≡ true = rw required refl in
    elim (Outcome-cases (load_principals files environ principal_specs)) [
      | inr (e, failed) ↦ absurd (ground arith)
      | inl (f, loaded) ↦
          let counted = load_counts files environ principal_specs loaded in
          let complete : is_nonempty f.missing ≡ false = ground arith in
          let same : a.principals ≡ f.principals = ground arith in
          let nothing : length f.missing ≡ 0 = ground arith in
          let two : length f.principals ≡ 2 = omega (arith, counted, nothing) in
          (ground arith, rw same two)
    ]
