-- ===== src/Prelude/Order.antt =====
-- Counting rows, ORDER BY and `sorted`, and dictionaries that are filled row by row.
use Prim.Native.Nat.{ℕ, ◌+◌}
use Prim.Native.String.{String}
use mathlib.Core.Path.{◌≡◌, refl}
use mathlib.Core.Bool.{Bool, true, false, ◌&&◌, ◌||◌}
use mathlib.Core.List.{List, [], ◌∷◌}
use native.Mathlib.Omega.{arith}
use mathlib.Core.Logic.{inl, inr}
use harness_golden_path.Prelude.Tests.{if◌then◌else◌, ltb, ◌==◌, Bool-cases}
use harness_golden_path.Prelude.Lists.{All}
use harness_golden_path.Prelude.Text.{codes, ◌=s=◌}

abbrev pub one_if : Bool → ℕ
one_if true = 1
one_if false = 0

module _ {ℓ} {A : Type ℓ} where
  -- count(*) FILTER (WHERE test), and `sum(test(x) for x in xs)`
  unfoldable pub count : (A → Bool) → List A → ℕ
  count test [] = 0
  count test (x ∷ xs) = one_if (test x) + count test xs

  -- `sum(measure(x) for x in xs)`
  unfoldable pub sum_of : (A → ℕ) → List A → ℕ
  sum_of measure [] = 0
  sum_of measure (x ∷ xs) = measure x + sum_of measure xs

  -- in front of the first that does not come before it: rows that compare alike keep their order
  unfoldable pub insert_by : (A → A → Bool) → A → List A → List A
  insert_by lt x [] = x ∷ []
  insert_by lt x (y ∷ ys) = let rest = insert_by lt x ys in if lt y x then y ∷ rest else x ∷ y ∷ ys

  unfoldable pub sort_by : (A → A → Bool) → List A → List A
  unfolding insert_by
  sort_by lt [] = []
  sort_by lt (x ∷ xs) = insert_by lt x (sort_by lt xs)

module _ {ℓ κ} {A : Type ℓ} {B : Type κ} (same : A → B → Bool) (new : A → B) (add : A → B → B) where
  -- `add(x, totals.setdefault(key(x), new(x)))`
  unfoldable pub tally : A → List B → List B
  tally x [] = add x (new x) ∷ []
  tally x (b ∷ bs) = if same x b then add x b ∷ bs else b ∷ tally x bs

  unfoldable pub tally_all : List A → List B → List B
  unfolding tally
  tally_all [] bs = bs
  tally_all (x ∷ xs) bs = tally_all xs (tally x bs)

-- the order of Python's texts
abbrev codes_lt : List ℕ → List ℕ → Bool
codes_lt xs [] = false
codes_lt [] (y ∷ ys) = true
codes_lt (x ∷ xs) (y ∷ ys) = ltb x y || ((x == y) && codes_lt xs ys)

unfoldable pub str_lt : String → String → Bool
str_lt s t = codes_lt (codes s) (codes t)

unfoldable pub insert_text : String → List String → List String
unfolding str_lt
insert_text s [] = s ∷ []
insert_text s (t ∷ ts) =
    let rest = insert_text s ts in
    if s =s= t then t ∷ ts else if str_lt t s then t ∷ rest else s ∷ t ∷ ts

-- `sorted({x for x in xs})`
unfoldable pub sorted_set : List String → List String
unfolding insert_text
sorted_set [] = []
sorted_set (s ∷ ss) = insert_text s (sorted_set ss)

module _ {ℓ} {A : Type ℓ} where
  pub count-insert_by :
      (p : A → Bool) (lt : A → A → Bool) (x : A) (xs : List A)
      → count p (insert_by lt x xs) ≡ one_if (p x) + count p xs
  unfolding count insert_by
  count-insert_by p lt x [] = refl
  count-insert_by p lt x (y ∷ ys) = ground (arith, count-insert_by p lt x ys)

  pub count-sort_by :
      (p : A → Bool) (lt : A → A → Bool) (xs : List A) → count p (sort_by lt xs) ≡ count p xs
  unfolding count sort_by
  count-sort_by p lt [] = refl
  count-sort_by p lt (x ∷ xs) =
      ground (arith, count-insert_by p lt x (sort_by lt xs), count-sort_by p lt xs)

  pub sum_of-insert_by :
      (m : A → ℕ) (lt : A → A → Bool) (x : A) (xs : List A)
      → sum_of m (insert_by lt x xs) ≡ m x + sum_of m xs
  unfolding sum_of insert_by
  sum_of-insert_by m lt x [] = refl
  sum_of-insert_by m lt x (y ∷ ys) = ground (arith, sum_of-insert_by m lt x ys)

  pub sum_of-sort_by :
      (m : A → ℕ) (lt : A → A → Bool) (xs : List A) → sum_of m (sort_by lt xs) ≡ sum_of m xs
  unfolding sum_of sort_by
  sum_of-sort_by m lt [] = refl
  sum_of-sort_by m lt (x ∷ xs) =
      ground (arith, sum_of-insert_by m lt x (sort_by lt xs), sum_of-sort_by m lt xs)

module _ {ℓ κ} {A : Type ℓ} {B : Type κ} (same : A → B → Bool) (new : A → B) (add : A → B → B)
    (measure : B → ℕ) (weight : A → ℕ) (fresh : (x : A) → measure (new x) ≡ 0)
    (fits : (x : A) → same x (new x) ≡ true)
    (adds : (x : A) (b : B) → same x b ≡ true → measure (add x b) ≡ weight x + measure b) where
  -- Whatever is counted row by row adds up over the entries of the dictionary.
  sum_of-tally :
      (x : A) (bs : List B)
      → sum_of measure (tally same new add x bs) ≡ weight x + sum_of measure bs
  unfolding sum_of tally
  sum_of-tally x [] = omega (arith, fresh x, adds x (new x) (fits x))
  sum_of-tally x (b ∷ bs) = ground (arith, adds x b, sum_of-tally x bs)

  pub sum_of-tally_all :
      (xs : List A) (bs : List B)
      → sum_of measure (tally_all same new add xs bs) ≡ sum_of weight xs + sum_of measure bs
  unfolding sum_of tally_all
  sum_of-tally_all [] bs = omega arith
  sum_of-tally_all (x ∷ xs) bs =
      omega (arith, sum_of-tally_all xs (tally same new add x bs), sum_of-tally x bs)

module _ {ℓ κ} {A : Type ℓ} (P : A → Type κ) (lt : A → A → Bool) where
  All-insert_by : (x : A) (xs : List A) → P x → All P xs → All P (insert_by lt x xs)
  unfolding insert_by
  All-insert_by x [] p all = (p, tt)
  All-insert_by x (y ∷ ys) p all = elim (Bool-cases (lt y x)) [
    | inl first ↦ rw first (all.0, All-insert_by x ys p all.1)
    | inr here ↦ rw here (p, all)
  ]

  pub All-sort_by : (xs : List A) → All P xs → All P (sort_by lt xs)
  unfolding sort_by
  All-sort_by [] all = tt
  All-sort_by (x ∷ xs) all = All-insert_by x (sort_by lt xs) all.0 (All-sort_by xs all.1)

module _ {ℓ κ μ} {A : Type ℓ} {B : Type κ} (same : A → B → Bool) (new : A → B) (add : A → B → B)
    (P : B → Type μ) (fresh : (x : A) → P (new x))
    (adds : (x : A) (b : B) → P b → P (add x b)) where
  All-tally : (x : A) (bs : List B) → All P bs → All P (tally same new add x bs)
  unfolding tally
  All-tally x [] all = (adds x (new x) (fresh x), tt)
  All-tally x (b ∷ bs) all = elim (Bool-cases (same x b)) [
    | inl hit ↦ rw hit (adds x b all.0, all.1)
    | inr miss ↦ rw miss (all.0, All-tally x bs all.1)
  ]

  pub All-tally_all : (xs : List A) (bs : List B) → All P bs → All P (tally_all same new add xs bs)
  unfolding tally_all
  All-tally_all [] bs all = all
  All-tally_all (x ∷ xs) bs all = All-tally_all xs (tally same new add x bs) (All-tally x bs all)
