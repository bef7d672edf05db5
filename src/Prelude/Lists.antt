-- ===== src/Prelude/Lists.antt =====
-- Tables as lists: WHERE, UPDATE, `any` and `all`, with lengths in native numbers.
use Prim.Native.Nat.{ℕ, suc, ◌+◌}
use mathlib.Core.Path.{◌≡◌}
use mathlib.Core.Bool.{Bool, true, false, ◌&&◌, ◌||◌}
use mathlib.Core.Option.{Option, none, some}
use mathlib.Core.List.{List, [], ◌∷◌, ◌++◌}
use native.Mathlib.Omega.{arith}
use harness_golden_path.Prelude.Tests.{if◌then◌else◌}

module _ {ℓ} {A : Type ℓ} where
  abbrev pub length : List A → ℕ
  length [] = 0
  length (x ∷ xs) = suc (length xs)

  -- `any(test(x) for x in xs)`
  abbrev pub any : (A → Bool) → List A → Bool
  any test [] = false
  any test (x ∷ xs) = test x || any test xs

  -- `all(test(x) for x in xs)`
  abbrev pub all : (A → Bool) → List A → Bool
  all test [] = true
  all test (x ∷ xs) = test x && all test xs

  -- a list as a truth value
  abbrev pub is_nonempty : List A → Bool
  is_nonempty [] = false
  is_nonempty (_ ∷ _) = true

  -- SELECT … WHERE test
  abbrev pub select : (A → Bool) → List A → List A
  select test [] = []
  select test (x ∷ xs) = let rest = select test xs in if test x then x ∷ rest else rest

  -- the first row of SELECT … WHERE test, as `fetchone()` gives it
  abbrev pub find : (A → Bool) → List A → Option A
  find test [] = none
  find test (x ∷ xs) = let rest = find test xs in if test x then some x else rest

  -- `fetchone()` on the rows of a statement
  abbrev pub fetchone : List A → Option A
  fetchone [] = none
  fetchone (row ∷ _) = some row

  -- UPDATE … SET change WHERE test
  abbrev pub update : (A → Bool) → (A → A) → List A → List A
  update test change [] = []
  update test change (x ∷ xs) = (if test x then change x else x) ∷ update test change xs

  -- the rows that UPDATE … RETURNING * hands back, as they are after the change
  abbrev pub returning : (A → Bool) → (A → A) → List A → List A
  returning test change [] = []
  returning test change (x ∷ xs) =
      let rest = returning test change xs in if test x then change x ∷ rest else rest

  -- The second list is the first with rows appended.
  abbrev pub Extends : List A → List A → Type ℓ
  Extends xs ys = (new : List A) × (ys ≡ xs ++ new)

abbrev pub All {ℓ κ} : {A : Type ℓ} → (A → Type κ) → List A → Type κ
All P [] = Unit
All P (x ∷ xs) = P x × All P xs

module _ {ℓ} {A : Type ℓ} where
  pub length-append : (xs ys : List A) → length (xs ++ ys) ≡ length xs + length ys
  length-append [] ys = omega arith
  length-append (x ∷ xs) ys = omega (arith, length-append xs ys)
