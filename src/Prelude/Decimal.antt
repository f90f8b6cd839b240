-- ===== src/Prelude/Decimal.antt =====
-- Natural numbers in decimal, as Python reads and prints them: ASCII digits without underscores.
use Prim.Native.Nat.{ℕ, zero, suc, ◌+◌, ◌-◌, ◌*◌, ◌/◌, ◌%◌, ◌<◌}
use mathlib.Core.Path.{◌≡◌, refl}
use mathlib.Core.Bool.{Bool, true, false, ◌&&◌}
use mathlib.Core.List.{[], ◌∷◌, ◌++◌}
use mathlib.Core.Logic.{inl, inr}
use native.Mathlib.Omega.{arith}
use hybrid_search.Prelude.Tests.{ltb, leb, if◌then◌else◌, Bool-cases}
use hybrid_search.Prelude.Text.{Str}

abbrev pub is_digit : ℕ → Bool
is_digit c = leb b'0' c && leb c b'9'

abbrev pub all_digits : Str → Bool
all_digits [] = true
all_digits (c ∷ cs) = is_digit c && all_digits cs

-- `s.isdigit()`
unfoldable pub is_decimal : Str → Bool
is_decimal [] = false
is_decimal (c ∷ cs) = all_digits (c ∷ cs)

-- `int(s)`, the digits of `s` after those that make `n`.
unfoldable pub int_from : ℕ → Str → ℕ
int_from n [] = n
int_from n (c ∷ cs) = int_from (n * 10 + (c - b'0')) cs

-- `str(n)`, with one unit of fuel for each digit.
unfoldable pub print_from : ℕ → ℕ → Str
print_from zero n = []
print_from (suc fuel) n =
    let rest = print_from fuel (n / 10) in
    if ltb n 10 then (b'0' + n) ∷ [] else rest ++ ((b'0' + n % 10) ∷ [])

unfoldable pub show_nat : ℕ → Str
unfolding print_from
show_nat n = print_from (suc n) n

int_from-append : (m : ℕ) (s t : Str) → int_from m (s ++ t) ≡ int_from (int_from m s) t
unfolding int_from
int_from-append m [] t = refl
int_from-append m (c ∷ s) t = int_from-append (m * 10 + (c - b'0')) s t

all_digits-append : (s t : Str) → all_digits (s ++ t) ≡ (all_digits s && all_digits t)
all_digits-append [] t = refl
all_digits-append (c ∷ s) t = ground (arith, all_digits-append s t)

pub all_digits-print_from : (fuel n : ℕ) → all_digits (print_from fuel n) ≡ true
unfolding print_from
all_digits-print_from zero n = refl
all_digits-print_from (suc fuel) n = elim (Bool-cases (ltb n 10)) [
  | inl h ↦ rw h (ground arith)
  | inr h ↦ rw h (
      ground (
        arith,
        all_digits-append (print_from fuel (n / 10)) ((b'0' + n % 10) ∷ []),
        all_digits-print_from fuel (n / 10),
      ))
]

int_from-print_from : (fuel n : ℕ) → n < fuel → int_from 0 (print_from fuel n) ≡ n
unfolding print_from int_from
int_from-print_from zero n h = absurd (omega arith)
int_from-print_from (suc fuel) n h = elim (Bool-cases (ltb n 10)) [
  | inl p ↦ rw p (omega arith)
  | inr p ↦
      let below : n / 10 < fuel = ground arith in
      let front = int_from-print_from fuel (n / 10) below in
      rw (p, int_from-append 0 (print_from fuel (n / 10)) ((b'0' + n % 10) ∷ []), front)
        (omega arith)
]

is_decimal-snoc :
    (s : Str) (d : ℕ) → all_digits s ≡ true → d < 10 → is_decimal (s ++ ((b'0' + d) ∷ [])) ≡ true
unfolding is_decimal
is_decimal-snoc [] d h l = ground arith
is_decimal-snoc (c ∷ s) d h l = ground (arith, all_digits-append s ((b'0' + d) ∷ []))

-- The digits of `n` read back are `n`.
pub int_from-show_nat : (n : ℕ) → int_from 0 (show_nat n) ≡ n
unfolding show_nat
int_from-show_nat n = int_from-print_from (suc n) n (omega arith)

pub is_decimal-show_nat : (n : ℕ) → is_decimal (show_nat n) ≡ true
unfolding show_nat is_decimal
is_decimal-show_nat n = elim (Bool-cases (ltb n 10)) [
  | inl p ↦ rw p (ground arith)
  | inr p ↦ rw p (
      is_decimal-snoc (print_from n (n / 10)) (n % 10) (all_digits-print_from n (n / 10))
        (omega arith))
]
