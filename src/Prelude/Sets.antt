-- ===== src/Prelude/Sets.antt =====
-- Lists without repetition as Python's sets: their unions and what a filter leaves.
use mathlib.Core.Path.{◌≡◌, refl}
use mathlib.Core.Bool.{Bool, true, false, ◌&&◌, ◌||◌, not}
use mathlib.Core.List.{List, [], ◌∷◌, ◌++◌}
use mathlib.Core.Logic.{inl, inr}
use native.Mathlib.Omega.{arith}
use hybrid_search.Prelude.Tests.{Eq, ◌==◌, Bool-cases, ==_refl, ==_eq}
use hybrid_search.Prelude.Lists.{All, contains, Distinct, select, contains-append}

module _ {ℓ} {A : Type ℓ} ⦃e : Eq A⦄ where
  pub contains-select :
      (p : A → Bool) (xs : List A) (a : A) → contains (select p xs) a ≡ (p a && contains xs a)
  contains-select p [] a = ground arith
  contains-select p (x ∷ xs) a = elim (Bool-cases (a == x)) [
    | inl h ↦ rw (==_eq a x h) (ground (arith, contains-select p xs x, ==_refl x))
    | inr h ↦ ground (arith, contains-select p xs a)
  ]

  pub Distinct-select : (p : A → Bool) (xs : List A) → Distinct xs → Distinct (select p xs)
  Distinct-select p [] h = tt
  Distinct-select p (x ∷ xs) h = elim (Bool-cases (p x)) [
    | inl t ↦ rw t (ground (arith, contains-select p xs x), Distinct-select p xs h.1)
    | inr t ↦ rw t (Distinct-select p xs h.1)
  ]

  pub All-of_contains {κ} :
      (P : A → Type κ) (xs : List A) → ((a : A) → contains xs a ≡ true → P a) → All P xs
  All-of_contains P [] h = tt
  All-of_contains P (x ∷ xs) h =
      (h x (ground (arith, ==_refl x)), All-of_contains P xs (λ a m. h a (ground arith)))

  pub All_at {κ} : (P : A → Type κ) (xs : List A) (a : A) → All P xs → contains xs a ≡ true → P a
  All_at P [] a h m = cc
  All_at P (x ∷ xs) a h m = elim (Bool-cases (a == x)) [
    | inl p ↦ rw (==_eq a x p) h.0
    | inr p ↦ All_at P xs a h.1 (ground arith)
  ]

  pub Distinct-append :
      (xs ys : List A)
      → Distinct xs
      → Distinct ys
      → All (λ x. contains ys x ≡ false) xs
      → Distinct (xs ++ ys)
  Distinct-append [] ys u v h = v
  Distinct-append (x ∷ xs) ys u v h =
      (ground (arith, contains-append xs ys x), Distinct-append xs ys u.1 v h.1)

  -- `xs | ys`
  abbrev pub union : List A → List A → List A
  union xs ys = xs ++ select (λ y. not (contains xs y)) ys

  pub contains-union :
      (xs ys : List A) (a : A) → contains (union xs ys) a ≡ (contains xs a || contains ys a)
  contains-union xs ys a = ground (
    arith,
    contains-append xs (select (λ y. not (contains xs y)) ys) a,
    contains-select (λ y. not (contains xs y)) ys a,
  )

  pub Distinct-union : (xs ys : List A) → Distinct xs → Distinct ys → Distinct (union xs ys)
  Distinct-union xs ys u v =
      Distinct-append xs (select (λ y. not (contains xs y)) ys) u
        (Distinct-select (λ y. not (contains xs y)) ys v)
        (All-of_contains (λ x. contains (select (λ y. not (contains xs y)) ys) x ≡ false) xs
          (λ a m. ground (arith, contains-select (λ y. not (contains xs y)) ys a)))

  -- `xs == ys`, for lists.
  abbrev pub elements_beq : List A → List A → Bool
  elements_beq [] [] = true
  elements_beq [] (y ∷ ys) = false
  elements_beq (x ∷ xs) [] = false
  elements_beq (x ∷ xs) (y ∷ ys) = x == y && elements_beq xs ys

  pub elements_beq_refl : (xs : List A) → elements_beq xs xs ≡ true
  elements_beq_refl [] = refl
  elements_beq_refl (x ∷ xs) = ground (arith, ==_refl x, elements_beq_refl xs)

  pub Distinct-middle :
      (xs : List A) (y : A) (ys : List A) → Distinct (xs ++ y ∷ ys) → contains xs y ≡ false
  Distinct-middle [] y ys d = refl
  Distinct-middle (x ∷ xs) y ys d = ground (
    arith,
    contains-append xs (y ∷ ys) x,
    Distinct-middle xs y ys d.1,
    d.0,
    e.same_iff x y,
    e.same_iff y x,
    ==_refl x,
  )
