-- ===== src/Prelude/Order/Keyed.antt =====
-- Sorting the entries of a dict changes no lookup.
use hybrid_search.Prelude.Tests.{Eq, ◌==◌, if◌then◌else◌, Bool-cases}
use hybrid_search.Prelude.Lists.{contains, Distinct}
use hybrid_search.Prelude.Dict.{keys, get?}
use hybrid_search.Prelude.Order.{insert_by, sort_by}
use mathlib.Core.Path.{◌≡◌, refl}
use mathlib.Core.Bool.{Bool, false, ◌||◌}
use mathlib.Core.List.{List, [], ◌∷◌}
use mathlib.Core.Option.{some}
use mathlib.Core.Logic.{inl, inr}
use native.Mathlib.Omega.{arith}

module _ {ℓ κ} {K : Type ℓ} {V : Type κ} ⦃e : Eq K⦄ (le : K × V → K × V → Bool) where
  contains-keys-insert_by :
      (j : K) (w : V) (d : List (K × V)) (k : K)
      → contains (keys (insert_by le (j, w) d)) k ≡ (k == j || contains (keys d) k)
  unfolding insert_by
  contains-keys-insert_by j w [] k = refl
  contains-keys-insert_by j w ((i, v) ∷ d) k = elim (Bool-cases (le (j, w) (i, v))) [
    | inl h ↦ rw h refl
    | inr h ↦ rw h (ground (arith, contains-keys-insert_by j w d k))
  ]

  pub contains-keys-sort_by :
      (d : List (K × V)) (k : K) → contains (keys (sort_by le d)) k ≡ contains (keys d) k
  unfolding sort_by
  contains-keys-sort_by [] k = refl
  contains-keys-sort_by ((j, w) ∷ d) k =
      ground (arith, contains-keys-insert_by j w (sort_by le d) k, contains-keys-sort_by d k)

  Distinct-keys-insert_by :
      (j : K) (w : V) (d : List (K × V))
      → contains (keys d) j ≡ false
      → Distinct (keys d)
      → Distinct (keys (insert_by le (j, w) d))
  unfolding insert_by
  Distinct-keys-insert_by j w [] n h = (refl, tt)
  Distinct-keys-insert_by j w ((i, v) ∷ d) n h = elim (Bool-cases (le (j, w) (i, v))) [
    | inl p ↦ rw p (n, h)
    | inr p ↦ rw p (
      ground (arith, contains-keys-insert_by j w d i, e.same_iff i j, e.same_iff j i),
      Distinct-keys-insert_by j w d (ground arith) h.1,
    )
  ]

  pub Distinct-keys-sort_by :
      (d : List (K × V)) → Distinct (keys d) → Distinct (keys (sort_by le d))
  unfolding sort_by
  Distinct-keys-sort_by [] h = tt
  Distinct-keys-sort_by ((j, w) ∷ d) h =
      Distinct-keys-insert_by j w (sort_by le d) (rw (contains-keys-sort_by d j) h.0)
        (Distinct-keys-sort_by d h.1)

  get?-insert_by :
      (j : K) (w : V) (d : List (K × V)) (k : K)
      → contains (keys d) j ≡ false
      → get? (insert_by le (j, w) d) k ≡ (if k == j then some w else get? d k)
  unfolding insert_by get?
  get?-insert_by j w [] k n = refl
  get?-insert_by j w ((i, v) ∷ d) k n = elim (Bool-cases (le (j, w) (i, v))) [
    | inl h ↦ rw h refl
    | inr h ↦
        rw h
          (ground (arith, get?-insert_by j w d k, e.same_iff k i, e.same_iff k j, e.same_iff j i))
  ]

  pub get?-sort_by :
      (d : List (K × V)) (k : K) → Distinct (keys d) → get? (sort_by le d) k ≡ get? d k
  unfolding sort_by get?
  get?-sort_by [] k h = refl
  get?-sort_by ((j, w) ∷ d) k h =
      ground
        (arith, get?-insert_by j w (sort_by le d) k, contains-keys-sort_by d j, get?-sort_by d k)
