-- ===== src/Prelude/Order/Unique.antt =====
-- An ascending list is settled by what it holds, if the order tells its elements apart.
use hybrid_search.Prelude.Tests.{Eq, ◌==◌, if◌then◌else◌, Bool-cases, ==_refl, ==_eq}
use hybrid_search.Prelude.Lists.{contains, tally, Distinct}
use hybrid_search.Prelude.Sets.{All_at}
use hybrid_search.Prelude.Order.{IsSorted, sort_by, insert_by}
use Prim.Native.Nat.{ℕ, ◌<◌}
use mathlib.Core.Path.{◌≡◌, refl, ap, ap₂, sym, ◌∙◌}
use mathlib.Core.Bool.{Bool, true, false, ◌||◌}
use mathlib.Core.List.{List, [], ◌∷◌, map}
use mathlib.Core.Logic.{inl, inr}
use native.Mathlib.Omega.{arith}

module _ {ℓ κ} {A : Type ℓ} {B : Type κ} (g : A → B) (le : B → B → Bool) where
  map-insert_by :
      (x : A) (ys : List A)
      → insert_by le (g x) (map g ys) ≡ map g (insert_by (λ a b. le (g a) (g b)) x ys)
  unfolding insert_by
  map-insert_by x [] = refl
  map-insert_by x (y ∷ ys) = elim (Bool-cases (le (g x) (g y))) [
    | inl h ↦ rw h refl
    | inr h ↦ rw h (ap (◌∷◌ (g y)) (map-insert_by x ys))
  ]

  -- To sort images is to sort by the images' order.
  pub sort_by-map :
      (xs : List A) → sort_by le (map g xs) ≡ map g (sort_by (λ a b. le (g a) (g b)) xs)
  unfolding sort_by
  sort_by-map [] = refl
  sort_by-map (x ∷ xs) = rw (sort_by-map xs) (map-insert_by x (sort_by (λ a b. le (g a) (g b)) xs))

module _ {ℓ} {A : Type ℓ} ⦃e : Eq A⦄ where
  tally_pos : (a : A) (ys : List A) → contains ys a ≡ true → 0 < tally (λ y. a == y) ys
  tally_pos a [] m = cc
  tally_pos a (y ∷ ys) m = ground (arith, tally_pos a ys)

  pub contains_of_tally : (a : A) (ys : List A) → 0 < tally (λ y. a == y) ys → contains ys a ≡ true
  contains_of_tally a [] m = absurd (omega arith)
  contains_of_tally a (y ∷ ys) m = ground (arith, contains_of_tally a ys)

  -- Lists that have every element as often have the same elements.
  pub contains_of_same :
      (a : A) (xs ys : List A)
      → ((p : A → Bool) → tally p xs ≡ tally p ys)
      → contains xs a ≡ contains ys a
  contains_of_same a xs ys same = ground (
    arith,
    same (λ y. a == y),
    tally_pos a xs,
    tally_pos a ys,
    contains_of_tally a xs,
    contains_of_tally a ys,
  )

module _ {ℓ} {A : Type ℓ} ⦃e : Eq A⦄ (le : A → A → Bool) where
  -- What is in one of two lists of the same elements, and not first in the other, comes later there.
  later :
      (x : A) (xs : List A) (y : A) (ys : List A)
      → ((p : A → Bool) → tally p (x ∷ xs) ≡ tally p (y ∷ ys))
      → (x == y) ≡ false
      → contains ys x ≡ true
  later x xs y ys same h =
      let m : contains (y ∷ ys) x ≡ true =
        contains_of_tally x (y ∷ ys)
          (omega (arith, same (λ a. x == a), tally_pos x (x ∷ xs) (ground (arith, ==_refl x)))) in
      ground arith

  heads :
      (x : A) (xs : List A) (y : A) (ys : List A)
      → ((a b : A)
          → contains (x ∷ xs) a ≡ true
          → contains (x ∷ xs) b ≡ true
          → le a b ≡ true
          → le b a ≡ true
          → a ≡ b)
      → ((p : A → Bool) → tally p (x ∷ xs) ≡ tally p (y ∷ ys))
      → IsSorted le (x ∷ xs)
      → IsSorted le (y ∷ ys)
      → x ≡ y
  heads x xs y ys anti same s t = elim (Bool-cases (x == y)) [
    | inl h ↦ ==_eq x y h
    | inr h ↦
        let in_ys : contains ys x ≡ true = later x xs y ys same h in
        let in_xs : contains xs y ≡ true =
          later y ys x xs (λ p. sym (same p)) (ground (arith, e.same_iff x y, e.same_iff y x)) in
        anti x y (ground (arith, ==_refl x)) (ground arith)
          (All_at (λ b. le x b ≡ true) xs y s.0 in_xs) (All_at (λ b. le y b ≡ true) ys x t.0 in_ys)
  ]

  -- Two ascending lists with the same elements, each as often, are equal.
  pub IsSorted-unique :
      (xs ys : List A)
      → ((a b : A)
          → contains xs a ≡ true
          → contains xs b ≡ true
          → le a b ≡ true
          → le b a ≡ true
          → a ≡ b)
      → ((p : A → Bool) → tally p xs ≡ tally p ys)
      → IsSorted le xs
      → IsSorted le ys
      → xs ≡ ys
  IsSorted-unique [] [] anti same s t = refl
  IsSorted-unique [] (y ∷ ys) anti same s t =
      absurd (omega (arith, same (λ a. y == a), tally_pos y (y ∷ ys) (ground (arith, ==_refl y))))
  IsSorted-unique (x ∷ xs) [] anti same s t =
      absurd (omega (arith, same (λ a. x == a), tally_pos x (x ∷ xs) (ground (arith, ==_refl x))))
  IsSorted-unique (x ∷ xs) (y ∷ ys) anti same s t =
      let first : x ≡ y = heads x xs y ys anti same s t in
      ap₂ ◌∷◌ first (
        IsSorted-unique xs ys (λ a b m n. anti a b (ground arith) (ground arith))
          (λ p. omega (arith, same p, ap {B = ℕ} (λ a. if p a then 1 else 0) first)) s.1 t.1)

  -- Two ascending lists that repeat nothing and have the same elements are equal.
  pub IsSorted-unique_set :
      (xs ys : List A)
      → ((a b : A)
          → contains xs a ≡ true
          → contains xs b ≡ true
          → le a b ≡ true
          → le b a ≡ true
          → a ≡ b)
      → ((a : A) → contains xs a ≡ contains ys a)
      → Distinct xs
      → Distinct ys
      → IsSorted le xs
      → IsSorted le ys
      → xs ≡ ys
  IsSorted-unique_set [] [] anti same u v s t = refl
  IsSorted-unique_set [] (y ∷ ys) anti same u v s t = ground (arith, same y, ==_refl y)
  IsSorted-unique_set (x ∷ xs) [] anti same u v s t = ground (arith, same x, ==_refl x)
  IsSorted-unique_set (x ∷ xs) (y ∷ ys) anti same u v s t =
      let first : x ≡ y = elim (Bool-cases (x == y)) [
        | inl h ↦ ==_eq x y h
        | inr h ↦
            let in_ys : contains ys x ≡ true = ground (arith, same x, ==_refl x) in
            let in_xs : contains xs y ≡ true =
              ground (arith, same y, ==_refl y, e.same_iff x y, e.same_iff y x) in
            anti x y (ground (arith, ==_refl x)) (ground arith)
              (All_at (λ b. le x b ≡ true) xs y s.0 in_xs)
              (All_at (λ b. le y b ≡ true) ys x t.0 in_ys)
      ] in
      ap₂ ◌∷◌ first (
        IsSorted-unique_set xs ys (λ a b m n. anti a b (ground arith) (ground arith))
          (λ a. elim (Bool-cases (a == x)) [
            | inl h ↦ rw (==_eq a x h) (u.0 ∙ sym (rw (← first) at v.0))
            | inr h ↦ let other : (a == y) ≡ false = rw (← first) h in ground (arith, same a)
          ])
          u.1 v.1 s.1 t.1)

  contains-insert_by :
      (x : A) (ys : List A) (a : A) → contains (insert_by le x ys) a ≡ (a == x || contains ys a)
  unfolding insert_by
  contains-insert_by x [] a = refl
  contains-insert_by x (y ∷ ys) a = elim (Bool-cases (le x y)) [
    | inl h ↦ rw h refl
    | inr h ↦ rw h (ground (arith, contains-insert_by x ys a))
  ]

  pub contains-sort_by : (xs : List A) (a : A) → contains (sort_by le xs) a ≡ contains xs a
  unfolding sort_by
  contains-sort_by [] a = refl
  contains-sort_by (x ∷ xs) a =
      ground (arith, contains-insert_by x (sort_by le xs) a, contains-sort_by xs a)

  Distinct-insert_by :
      (x : A) (ys : List A) → contains ys x ≡ false → Distinct ys → Distinct (insert_by le x ys)
  unfolding insert_by
  Distinct-insert_by x [] n h = (refl, tt)
  Distinct-insert_by x (y ∷ ys) n h = elim (Bool-cases (le x y)) [
    | inl p ↦ rw p (n, h)
    | inr p ↦ rw p (
      ground (arith, contains-insert_by x ys y, e.same_iff x y, e.same_iff y x),
      Distinct-insert_by x ys (ground arith) h.1,
    )
  ]

  pub Distinct-sort_by : (xs : List A) → Distinct xs → Distinct (sort_by le xs)
  unfolding sort_by
  Distinct-sort_by [] h = tt
  Distinct-sort_by (x ∷ xs) h =
      Distinct-insert_by x (sort_by le xs) (contains-sort_by xs x ∙ h.0) (Distinct-sort_by xs h.1)
