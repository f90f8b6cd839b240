-- ===== src/Fusion/Core/Checks.antt =====
-- What `truncate` and `_check_unique` of py/hybridsearch/fusion/core.py let through.
use hybrid_search.Prelude.{
  ◌≡◌, refl, true, false, List, [], ◌∷◌, ok, Option, none, some, arith, contains, Distinct, All,
}
use hybrid_search.Prelude.Text.{Str, str_eq}
use hybrid_search.Prelude.Int.{ℤ, pos, leb_ℤ}
use hybrid_search.Prelude.Dict.{keys}
use hybrid_search.Prelude.Float.{Float}
use hybrid_search.Fusion.Core.{Ranking, truncate, check_unique_from, cut}

-- A depth that `truncate` takes.
abbrev pub IsDepth : Option ℤ → Type 0
IsDepth none = Unit
IsDepth (some depth) = leb_ℤ (pos 1) depth ≡ true

module _ (F : Float) where
  pub truncate_lem :
      (r : Ranking F) (depth : Option ℤ) → IsDepth depth → truncate F r depth ≡ ok (cut F depth r)
  unfolding truncate
  truncate_lem r none h = refl
  truncate_lem r (some depth) h = rw h refl

  -- Documents that `seen` lacks, none of them twice.
  abbrev IsFresh : List Str → Ranking F → Type 0
  IsFresh seen [] = Unit
  IsFresh seen ((d, s) ∷ r) = (contains seen d ≡ false) × IsFresh (d ∷ seen) r

  check_unique_fresh :
      (seen : List Str) (r : Ranking F) → IsFresh seen r → check_unique_from F seen r ≡ ok tt
  unfolding check_unique_from
  check_unique_fresh seen [] h = refl
  check_unique_fresh seen ((d, s) ∷ r) h = rw h.0 (check_unique_fresh (d ∷ seen) r h.1)

  Distinct-IsFresh :
      (seen : List Str) (r : Ranking F)
      → Distinct (keys r)
      → All (λ d. contains seen d ≡ false) (keys r)
      → IsFresh seen r
  Distinct-IsFresh seen [] h n = tt
  Distinct-IsFresh seen ((d, s) ∷ r) h n = (n.0, Distinct-IsFresh (d ∷ seen) r h.1 (grow r h.0 n.1))
    where
      grow :
          (r : Ranking F)
          → contains (keys r) d ≡ false
          → All (λ c. contains seen c ≡ false) (keys r)
          → All (λ c. contains (d ∷ seen) c ≡ false) (keys r)
      grow [] c n = tt
      grow ((b, t) ∷ r) c n =
          (ground (arith, str_eq.same_iff d b, str_eq.same_iff b d), grow r (ground arith) n.1)

  none_seen : (r : Ranking F) → All (λ d. contains [] d ≡ false) (keys r)
  none_seen [] = tt
  none_seen ((d, s) ∷ r) = (refl, none_seen r)

  -- `_check_unique` passes a ranking without repetition.
  pub check_unique_lem : (r : Ranking F) → Distinct (keys r) → check_unique_from F [] r ≡ ok tt
  check_unique_lem r h = check_unique_fresh [] r (Distinct-IsFresh [] r h (none_seen r))
