-- ===== src/Fusion/Fast/Ranks.antt =====
-- The arrays of ranks in py/hybridsearch/fusion/fast.py.
use hybrid_search.Prelude.{
  ℕ, suc, ◌≡◌, refl, false, List, [], ◌∷◌, map, Option, none, some, arith, Bool-cases, inl, inr,
  contains, Distinct, if◌then◌else◌, ◌==◌, ==_eq, ==_refl, ◌∙◌, ap, ap₂, fun_ext,
}
use hybrid_search.Prelude.Text.{Str, str_eq}
use hybrid_search.Prelude.Dict.{keys}
use hybrid_search.Prelude.Float.{Float}
use hybrid_search.Fusion.Core.{Ranking}
use hybrid_search.Fusion.Core.Rrf.{rank_from}
use hybrid_search.Fusion.Fast.{write_at, write_ranks, full}

module _ {ℓ} {A : Type ℓ} where
  map_other :
      (g : Str → A) (v : A) (docs : List Str) (e : Str)
      → contains docs e ≡ false
      → map g docs ≡ map (λ d. if e == d then v else g d) docs
  map_other g v [] e h = refl
  map_other g v (d ∷ docs) e h = ap₂ ◌∷◌ (ground arith) (map_other g v docs e (ground arith))

  write_at-map :
      (g : Str → A) (v : A) (docs : List Str) (e : Str)
      → Distinct docs
      → write_at docs e v (map g docs) ≡ map (λ d. if e == d then v else g d) docs
  unfolding write_at
  write_at-map g v [] e u = refl
  write_at-map g v (d ∷ docs) e u = elim (Bool-cases (e == d)) [
    | inl h ↦ rw h (ap (◌∷◌ v) (map_other g v docs e (rw (==_eq e d h) u.0)))
    | inr h ↦ rw h (ap (◌∷◌ (g d)) (write_at-map g v docs e u.1))
  ]

  abbrev or_else : Option A → Option A → Option A
  or_else none b = b
  or_else (some a) b = some a

  or_else-none : (a : Option A) → or_else a none ≡ a
  or_else-none none = refl
  or_else-none (some a) = refl

module _ (F : Float) where
  open F use {Num, of_nat, add, less, less_asymm, less_cotrans}

  rank_from_absent :
      (i : ℕ) (r : Ranking F) (d : Str) → contains (keys r) d ≡ false → rank_from F i r d ≡ none
  rank_from_absent i [] d h = refl
  rank_from_absent i ((e, s) ∷ r) d h = ground (arith, rank_from_absent (suc i) r d)

  write_ranks-map :
      (docs : List Str) (i : ℕ) (r : Ranking F) (g : Str → Option ℕ)
      → Distinct docs
      → Distinct (keys r)
      → write_ranks F docs i r (map g docs) ≡ map (λ d. or_else (rank_from F i r d) (g d)) docs
  unfolding write_ranks
  write_ranks-map docs i [] g u v = refl
  write_ranks-map docs i ((e, s) ∷ r) g u v = rw (write_at-map g (some i) docs e u) (
      write_ranks-map docs (suc i) r (λ d. if e == d then some i else g d) u v.1
      ∙ ap (λ h. map h docs)
          (fun_ext λ d. elim (Bool-cases (d == e)) [
            | inl h ↦
                let same : d ≡ e = ==_eq d e h in
                rw (h, same, ==_refl e, rank_from_absent (suc i) r e v.0) refl
            | inr h ↦ rw h (ground (arith, str_eq.same_iff e d, str_eq.same_iff d e))
          ]))

  -- The array of the ranks.
  pub ranks :
      (docs : List Str) (r : Ranking F)
      → Distinct docs
      → Distinct (keys r)
      → write_ranks F docs 1 r (full F docs none) ≡ map (rank_from F 1 r) docs
  ranks docs r u v =
      write_ranks-map docs 1 r (λ d. none) u v
      ∙ ap (λ h. map h docs) (fun_ext λ d. or_else-none (rank_from F 1 r d))
