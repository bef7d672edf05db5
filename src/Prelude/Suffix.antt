-- ===== src/Prelude/Suffix.antt =====
-- Texts that begin or end with a known text, and texts that therefore cannot.
use Prim.Native.Nat.{ℕ}
use Prim.Native.Char.{code}
use Prim.Native.String.{String, ◌++◌ as ◌++ₛ◌}
use Prim.Native.String.append
use mathlib.Core.Path.{◌≡◌, refl, sym, ap, ◌∙◌}
use mathlib.Core.Logic.{inl, inr, ◌≢◌}
use mathlib.Core.Bool.{Bool, true, false, ◌||◌}
use mathlib.Core.List.{List, [], ◌∷◌, ◌++◌, reverse, reverse-append}
use native.Mathlib.Omega.{arith}
use text.Mathlib.Text.{starts_with}
use text.Mathlib.TextEquality.{starts_with_iff}
use harness_golden_path.Prelude.Tests.{◌==◌, Bool-cases, if◌then◌else◌}
use harness_golden_path.Prelude.Text.{codes, ◌=s=◌, =s=_iff}

-- `s + t`, letter by letter
abbrev pub onto : String → String → String
onto String.[] t = t
onto (String.◌∷◌ c s) t = String.◌∷◌ c (onto s t)

pub onto-append : (s t : String) → s ++ₛ t ≡ onto s t
onto-append String.[] t = append.nil t
onto-append (String.◌∷◌ c s) t = append.cons c s t ∙ ap (String.◌∷◌ c) (onto-append s t)

codes-onto : (s t : String) → codes (onto s t) ≡ codes s ++ codes t
codes-onto String.[] t = refl
codes-onto (String.◌∷◌ c s) t = ap (λ xs. code c ∷ xs) (codes-onto s t)

pub codes-append : (s t : String) → codes (s ++ₛ t) ≡ codes s ++ codes t
codes-append s t = ap codes (onto-append s t) ∙ codes-onto s t

-- `text.endswith(end)`
abbrev pub ends_with : String → String → Bool
ends_with String.[] end = end =s= ""
ends_with (String.◌∷◌ c s) end = (String.◌∷◌ c s =s= end) || ends_with s end

-- The codes differ at a place that both lists have.
abbrev pub clash : List ℕ → List ℕ → Bool
clash [] ys = false
clash (x ∷ xs) [] = false
clash (x ∷ xs) (y ∷ ys) = if x == y then clash xs ys else true

pub clash-ne : (xs ys p q : List ℕ) → clash xs ys ≡ true → xs ++ p ≢ ys ++ q
clash-ne [] ys p q h e = absurd (ground arith)
clash-ne (x ∷ xs) [] p q h e = absurd (ground arith)
clash-ne (x ∷ xs) (y ∷ ys) p q h e = elim (Bool-cases (x == y)) [
  | inl same ↦ clash-ne xs ys p q (rw same at h) cc
  | inr other ↦ ground arith
]

-- The codes differ, or the first list is the longer one.
abbrev pub misses : List ℕ → List ℕ → Bool
misses [] ys = false
misses (x ∷ xs) [] = true
misses (x ∷ xs) (y ∷ ys) = if x == y then misses xs ys else true

misses-ne : (xs ys p : List ℕ) → misses xs ys ≡ true → xs ++ p ≢ ys
misses-ne [] ys p h e = absurd (ground arith)
misses-ne (x ∷ xs) [] p h e = ground arith
misses-ne (x ∷ xs) (y ∷ ys) p h e = elim (Bool-cases (x == y)) [
  | inl same ↦ misses-ne xs ys p (rw same at h) cc
  | inr other ↦ ground arith
]

ends_with_self : (s : String) → ends_with s s ≡ true
ends_with_self String.[] = refl
ends_with_self (String.◌∷◌ c s) = rw ((=s=_iff (String.◌∷◌ c s) _).1 refl) refl

ends_with-onto : (s end : String) → ends_with (onto s end) end ≡ true
ends_with-onto String.[] end = ends_with_self end
ends_with-onto (String.◌∷◌ c s) end = ground (arith, ends_with-onto s end)

pub ends_with-append : (s end : String) → ends_with (s ++ₛ end) end ≡ true
ends_with-append s end = rw (onto-append s end) (ends_with-onto s end)

ends_with-codes :
    (s end : String) → ends_with s end ≡ true → (p : List ℕ) × (codes s ≡ p ++ codes end)
ends_with-codes String.[] end h = ([], sym (ap codes ((=s=_iff end "").0 h)))
ends_with-codes (String.◌∷◌ c s) end h = elim (Bool-cases (String.◌∷◌ c s =s= end)) [
  | inl same ↦ ([], ap codes ((=s=_iff _ _).0 same))
  | inr longer ↦
      let (p, e) = ends_with-codes s end (ground arith) in (code c ∷ p, ap (λ xs. code c ∷ xs) e)
]

from_not_true : (b : Bool) → b ≢ true → b ≡ false
from_not_true true h = absurd (h refl)
from_not_true false h = refl

-- A text that ends with one word does not end with another that differs from it.
pub other_end :
    (s end other : String)
    → clash (reverse (codes end)) (reverse (codes other)) ≡ true
    → ends_with (s ++ₛ end) other ≡ false
other_end s end other h = from_not_true _ λ t.
    let (p, e) = ends_with-codes (s ++ₛ end) other t in
    let both : reverse (codes s ++ codes end) ≡ reverse (p ++ codes other) =
      ap reverse (sym (codes-append s end) ∙ e) in
    clash-ne (reverse (codes end)) (reverse (codes other)) (reverse (codes s)) (reverse p) h
      (sym (reverse-append (codes s) (codes end)) ∙ both ∙ reverse-append p (codes other))

-- A text that starts with one word does not start with another that differs from it, nor equal it.
pub other_start :
    (start s other : String)
    → clash (codes start) (codes other) ≡ true
    → starts_with (start ++ₛ s) other ≡ false
other_start start s other h = from_not_true _ λ t.
    let (u, e) = (starts_with_iff (start ++ₛ s) other).0 t in
    clash-ne (codes start) (codes other) (codes s) (codes u) h
      (sym (codes-append start s) ∙ ap codes (sym e) ∙ codes-append other u)

pub other_text :
    (start s other : String)
    → misses (codes start) (codes other) ≡ true
    → ((start ++ₛ s) =s= other) ≡ false
other_text start s other h = from_not_true _ λ t.
    misses-ne (codes start) (codes other) (codes s) h
      (sym (codes-append start s) ∙ ap codes ((=s=_iff _ _).0 t))
