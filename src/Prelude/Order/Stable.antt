-- ===== src/Prelude/Order/Stable.antt =====
-- What stability makes of a sort by a coarse key, after one by the key that breaks its ties.
use hybrid_search.Prelude.Tests.{Bool-cases}
use hybrid_search.Prelude.Lists.{All, All-imp}
use hybrid_search.Prelude.Order.{IsTotalPreorder, IsSorted, insert_by, sort_by, All-sort_by}
use hybrid_search.Prelude.Order.{All-insert_by}
use mathlib.Core.Path.{◌≡◌}
use mathlib.Core.Bool.{Bool, true, false}
use mathlib.Core.List.{List, [], ◌∷◌}
use mathlib.Core.Logic.{inl, inr}

-- `le` compares by `coarse` first and by `tie` where that leaves both ways open.
module _ {ℓ} {A : Type ℓ} (coarse tie le : A → A → Bool) (o : IsTotalPreorder le)
    (joins : (a b : A) → coarse a b ≡ true → tie a b ≡ true → le a b ≡ true)
    (after : (a b : A) → coarse a b ≡ false → le b a ≡ true) where
  insert_by_stable :
      (x : A) (ys : List A)
      → All (λ y. tie x y ≡ true) ys
      → IsSorted le ys
      → IsSorted le (insert_by coarse x ys)
  unfolding insert_by
  insert_by_stable x [] t s = (tt, tt)
  insert_by_stable x (y ∷ ys) t s = elim (Bool-cases (coarse x y)) [
    | inl h ↦
        let first : le x y ≡ true = joins x y h t.0 in
        rw h ((first, All-imp _ _ ys (λ z p. o.trans x y z first p) s.0), s)
    | inr h ↦ rw h (
      All-insert_by coarse (λ z. le y z ≡ true) x ys (after x y h) s.0,
      insert_by_stable x ys t.1 s.1,
    )
  ]

  -- A stable sort by the coarse key of a list that ascends by the other one.
  pub sort_by_stable : (xs : List A) → IsSorted tie xs → IsSorted le (sort_by coarse xs)
  unfolding sort_by
  sort_by_stable [] t = tt
  sort_by_stable (x ∷ xs) t =
      insert_by_stable x (sort_by coarse xs) (All-sort_by coarse (λ y. tie x y ≡ true) xs t.0)
        (sort_by_stable xs t.1)
