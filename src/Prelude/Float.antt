-- ===== src/Prelude/Float.antt =====
-- Floating-point numbers, as an interface: the operations that the code calls, and what IEEE 754
-- says of the order of values that are not NaN.
use Prim.Native.Nat.{ℕ}
use mathlib.Core.Path.{◌≡◌, refl}
use mathlib.Core.Bool.{Bool, true, false, not, ◌&&◌}
use mathlib.Core.List.{List, [], ◌∷◌}
use hybrid_search.Prelude.Tests.{ltb, if◌then◌else◌}
use native.Mathlib.Omega.{arith}
use Prim.Native.Nat.{◌+◌, ◌-◌, ◌*◌, ◌/◌}

pub record Float : Type 1 where
  pub Num : Type 0
  pub of_nat : ℕ → Num
  pub add : Num → Num → Num
  pub sub : Num → Num → Num
  pub mul : Num → Num → Num
  pub div : Num → Num → Num
  -- `math.log2` of a whole number
  pub log2 : ℕ → Num
  -- Python's `sum`, whose rounding is the interpreter's own
  pub sum : List Num → Num
  pub sqrt : Num → Num
  -- `x ** 2`
  pub square : Num → Num
  pub abs : Num → Num
  -- `x < y`
  pub less : Num → Num → Bool
  pub sum_nil : sum [] ≡ of_nat 0
  pub less_asymm : (x y : Num) → less x y ≡ true → less y x ≡ false
  pub less_cotrans : (x y z : Num) → less y x ≡ false → less z y ≡ false → less z x ≡ false

module _ (F : Float) where
  open F use {Num, less, less_asymm, less_cotrans}

  -- `x <= y`, for values that are not NaN.
  abbrev pub float_leb : Num → Num → Bool
  float_leb x y = not (less y x)

  -- `x == y`, for values that are not NaN.
  abbrev pub float_eq : Num → Num → Bool
  float_eq x y = not (less x y) && not (less y x)

  -- `min` and `max` of a first value and what follows it: the earlier of equal values.
  unfoldable pub min_from : Num → List Num → Num
  min_from m [] = m
  min_from m (x ∷ xs) = min_from (if less x m then x else m) xs

  unfoldable pub max_from : Num → List Num → Num
  max_from m [] = m
  max_from m (x ∷ xs) = max_from (if less m x then x else m) xs

pub ltb_asymm : (x y : ℕ) → ltb x y ≡ true → ltb y x ≡ false
ltb_asymm x y h = ground arith

pub ltb_cotrans : (x y z : ℕ) → ltb y x ≡ false → ltb z y ≡ false → ltb z x ≡ false
ltb_cotrans x y z h h' = ground arith

abbrev pub sum_ℕ : List ℕ → ℕ
sum_ℕ [] = 0
sum_ℕ (n ∷ ns) = n + sum_ℕ ns

-- Numbers that are all whole, to run the definitions on.
abbrev pub whole : Float
whole = record {
  Num = ℕ;
  of_nat = λ n. n;
  add = ◌+◌;
  sub = ◌-◌;
  mul = ◌*◌;
  div = ◌/◌;
  log2 = λ n. n;
  sum = sum_ℕ;
  sqrt = λ n. n;
  square = λ n. n * n;
  abs = λ n. n;
  less = ltb;
  sum_nil = refl;
  less_asymm = ltb_asymm;
  less_cotrans = ltb_cotrans;
}
