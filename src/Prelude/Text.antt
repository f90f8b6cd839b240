-- ===== src/Prelude/Text.antt =====
-- Python strings as lists of code points, with their equality and their order.
use Prim.Native.Nat.{ℕ}
use Prim.Native.Char.{code}
use Prim.Native.String.{String}
use mathlib.Core.Path.{◌≡◌, refl}
use mathlib.Core.Bool.{Bool, true, false, ◌&&◌}
use mathlib.Core.Logic.{◌↔◌}
use mathlib.Core.List.{List, [], ◌∷◌}
use native.Mathlib.Omega.{arith}
use hybrid_search.Prelude.Tests.{Eq, nat_beq, ltb, if◌then◌else◌}
use hybrid_search.Prelude.Order.{IsTotalPreorder}

abbrev pub Str : Type 0
Str = List ℕ

-- The code points of a literal.
abbrev pub codes : String → Str
codes String.[] = []
codes (String.◌∷◌ c s) = code c ∷ codes s

abbrev pub str_beq : Str → Str → Bool
str_beq [] [] = true
str_beq [] (y ∷ ys) = false
str_beq (x ∷ xs) [] = false
str_beq (x ∷ xs) (y ∷ ys) = nat_beq x y && str_beq xs ys

str_beq→eq : (s t : Str) → str_beq s t ≡ true → s ≡ t
str_beq→eq [] [] h = refl
str_beq→eq [] (y ∷ ys) h = cc
str_beq→eq (x ∷ xs) [] h = cc
str_beq→eq (x ∷ xs) (y ∷ ys) h = ground (arith, str_beq→eq xs ys)

str_beq_refl : (s : Str) → str_beq s s ≡ true
str_beq_refl [] = refl
str_beq_refl (x ∷ xs) = ground (arith, str_beq_refl xs)

pub str_beq_iff : (s t : Str) → (str_beq s t ≡ true) ↔ (s ≡ t)
str_beq_iff s t = (str_beq→eq s t, λ h. rw h (str_beq_refl t))

instance abbrev pub str_eq : Eq Str
str_eq = record { same = str_beq; same_iff = str_beq_iff }

-- `s <= t`, by the first code point that differs.
abbrev pub str_leb : Str → Str → Bool
str_leb [] t = true
str_leb (x ∷ xs) [] = false
str_leb (x ∷ xs) (y ∷ ys) =
    let rest = str_leb xs ys in if ltb x y then true else if ltb y x then false else rest

pub str_leb_total : (s t : Str) → str_leb s t ≡ false → str_leb t s ≡ true
str_leb_total [] t h = cc
str_leb_total (x ∷ xs) [] h = refl
str_leb_total (x ∷ xs) (y ∷ ys) h = ground (arith, str_leb_total xs ys)

pub str_leb_trans : (s t u : Str) → str_leb s t ≡ true → str_leb t u ≡ true → str_leb s u ≡ true
str_leb_trans [] t u p q = refl
str_leb_trans (x ∷ xs) [] u p q = cc
str_leb_trans (x ∷ xs) (y ∷ ys) [] p q = cc
str_leb_trans (x ∷ xs) (y ∷ ys) (z ∷ zs) p q = ground (arith, str_leb_trans xs ys zs)

pub str_leb_antisymm : (s t : Str) → str_leb s t ≡ true → str_leb t s ≡ true → s ≡ t
str_leb_antisymm [] [] p q = refl
str_leb_antisymm [] (y ∷ ys) p q = cc
str_leb_antisymm (x ∷ xs) [] p q = cc
str_leb_antisymm (x ∷ xs) (y ∷ ys) p q = ground (arith, str_leb_antisymm xs ys)

pub str_leb-IsTotalPreorder : IsTotalPreorder str_leb
str_leb-IsTotalPreorder = record { total = str_leb_total; trans = str_leb_trans }
