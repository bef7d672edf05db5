-- ===== src/Prelude/Text.antt =====
-- Texts, and sets of texts as lists.
use Prim.Native.Nat.{ℕ}
use Prim.Native.Char.{code}
use Prim.Native.String.{String}
use mathlib.Core.Path.{◌≡◌, ap}
use native.Mathlib.Omega.{arith}
use mathlib.Core.Logic.{◌↔◌}
use mathlib.Core.Bool.{Bool, true, false, ◌&&◌}
use mathlib.Core.List.{List, [], ◌∷◌}
use mathlib.Core.Option.{Option, none, some}
use text.Mathlib.Text.{◌==◌ as str_eq}
use text.Mathlib.TextEquality.{eq_iff as str_eq_iff}
use harness_golden_path.Prelude.Lists.{any, all}

-- The code points of a text. `String` has its own `[]` and `∷`.
abbrev pub codes : String → List ℕ
codes String.[] = []
codes (String.◌∷◌ c s) = code c ∷ codes s

infix 50 ◌=s=◌
abbrev pub ◌=s=◌ : String → String → Bool
s =s= t = str_eq s t

pub =s=_iff : (s t : String) → ((s =s= t) ≡ true) ↔ (s ≡ t)
=s=_iff = str_eq_iff

-- `s in xs`
abbrev pub str_mem : String → List String → Bool
str_mem s xs = any (λ x. s =s= x) xs

-- `set(xs) <= set(ys)`
abbrev pub subset : List String → List String → Bool
subset xs ys = all (λ x. str_mem x ys) xs

-- `set(xs) == set(ys)`
abbrev pub same_set : List String → List String → Bool
same_set xs ys = subset xs ys && subset ys xs

-- SQL's and Python's comparison of a nullable text with a given one.
abbrev pub opt_is : Option String → String → Bool
opt_is none t = false
opt_is (some s) t = s =s= t

pub opt_is_iff : (o : Option String) (t : String) → (opt_is o t ≡ true) ↔ (o ≡ some t)
opt_is_iff none t = ground arith
opt_is_iff (some s) t = ((λ e. ap some ((=s=_iff s t).0 e)), (λ e. (=s=_iff s t).1 (ground arith)))
