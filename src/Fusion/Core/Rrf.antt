-- ===== src/Fusion/Core/Rrf.antt =====
-- `rrf` of py/hybridsearch/fusion/core.py against the formula of Cormack, Clarke and Buettcher.
use hybrid_search.Prelude.{
  ℕ, suc, ◌≡◌, refl, Bool, false, ◌||◌, List, [], ◌∷◌, map, ok, Option, none, some, arith,
  Bool-cases, inl, inr, contains, Distinct, All, if◌then◌else◌, ◌==◌, ==_eq, ◌∙◌, ap,
}
use hybrid_search.Prelude.Text.{Str, str_eq}
use hybrid_search.Prelude.Int.{ℤ}
use hybrid_search.Prelude.Dict.{
  keys, get?, get_or, put, get_or-put, Distinct-keys-put, contains-keys-put,
}
use hybrid_search.Prelude.Order.{IsSorted, sort_by, sort_by-IsSorted}
use hybrid_search.Prelude.Order.Keyed.{get?-sort_by, Distinct-keys-sort_by}
use hybrid_search.Prelude.Float.{Float}
use hybrid_search.Fusion.Core.{Ranking, cut, reciprocal, add_ranks, rrf_loop, rrf, fused_before}
use hybrid_search.Fusion.Core.Checks.{IsDepth, truncate_lem, check_unique_lem}
use hybrid_search.Fusion.Core.Order.{fused_before-IsTotalPreorder}

module _ (F : Float) where
  open F use {Num, of_nat, add, less}

  -- The rank of a document from 1 on, if the ranking has it.
  abbrev pub rank_from : ℕ → Ranking F → Str → Option ℕ
  rank_from i [] d = none
  rank_from i ((e, s) ∷ r) d = let rest = rank_from (suc i) r d in if d == e then some i else rest

  -- One more ranking's contribution to a score.
  abbrev pub contribute : Num → Num → Option ℕ → Num
  contribute k score none = score
  contribute k score (some rank) = add score (reciprocal F k rank)

  -- The sum of `1 / (k + rank_i(d))` over the rankings that have `d`, in their order.
  abbrev pub rrf_score : Num → List (Ranking F) → Num → Str → Num
  rrf_score k [] score d = score
  rrf_score k (r ∷ rankings) score d = rrf_score k rankings (contribute k score (rank_from 1 r d)) d

  -- Some ranking has the document.
  abbrev pub occurs : List (Ranking F) → Str → Bool
  occurs [] d = false
  occurs (r ∷ rankings) d = contains (keys r) d || occurs rankings d

  rank_from_absent :
      (i : ℕ) (r : Ranking F) (d : Str) → contains (keys r) d ≡ false → rank_from i r d ≡ none
  rank_from_absent i [] d h = refl
  rank_from_absent i ((e, s) ∷ r) d h = ground (arith, rank_from_absent (suc i) r d)

  module _ (k : Num) where
    -- What one ranking does to the score of any document.
    get_or-add_ranks :
        (i : ℕ) (r : Ranking F) (scores : List (Str × Num)) (d : Str)
        → Distinct (keys r)
        → get_or (add_ranks F k i r scores) d (of_nat 0)
          ≡ contribute k (get_or scores d (of_nat 0)) (rank_from i r d)
    unfolding add_ranks
    get_or-add_ranks i [] scores d h = refl
    get_or-add_ranks i ((e, s) ∷ r) scores d h =
        let v = add (get_or scores e (of_nat 0)) (reciprocal F k i) in
        let rest = get_or-add_ranks (suc i) r (put scores e v) d h.1 in
        elim (Bool-cases (d == e)) [
          | inl p ↦
              let same : d ≡ e = ==_eq d e p in
              let absent : rank_from (suc i) r d ≡ none =
                rank_from_absent (suc i) r d (rw same h.0) in
              rw (rest, get_or-put scores e d v (of_nat 0), p, absent, same) refl
          | inr p ↦ rw (rest, get_or-put scores e d v (of_nat 0), p) refl
        ]

    contains-add_ranks :
        (i : ℕ) (r : Ranking F) (scores : List (Str × Num)) (d : Str)
        → contains (keys (add_ranks F k i r scores)) d
          ≡ (contains (keys r) d || contains (keys scores) d)
    unfolding add_ranks
    contains-add_ranks i [] scores d = refl
    contains-add_ranks i ((e, s) ∷ r) scores d =
        let v = add (get_or scores e (of_nat 0)) (reciprocal F k i) in
        ground
          (arith, contains-add_ranks (suc i) r (put scores e v) d, contains-keys-put scores e d v)

    Distinct-keys-add_ranks :
        (i : ℕ) (r : Ranking F) (scores : List (Str × Num))
        → Distinct (keys scores)
        → Distinct (keys (add_ranks F k i r scores))
    unfolding add_ranks
    Distinct-keys-add_ranks i [] scores h = h
    Distinct-keys-add_ranks i ((e, s) ∷ r) scores h =
        Distinct-keys-add_ranks (suc i) r _ (Distinct-keys-put scores e _ h)

    -- The scores when the loop is done with `rankings`, each cut to the depth.
    accumulate : List (Ranking F) → List (Str × Num) → List (Str × Num)
    accumulate [] scores = scores
    accumulate (r ∷ rankings) scores = accumulate rankings (add_ranks F k 1 r scores)

    rrf_loop_lem :
        (depth : Option ℤ) (rankings : List (Ranking F)) (scores : List (Str × Num))
        → IsDepth depth
        → All (λ r. Distinct (keys (cut F depth r))) rankings
        → rrf_loop F k depth rankings scores ≡ ok (accumulate (map (cut F depth) rankings) scores)
    unfolding rrf_loop accumulate
    rrf_loop_lem depth [] scores h u = refl
    rrf_loop_lem depth (r ∷ rankings) scores h u =
        rw (truncate_lem F r depth h, check_unique_lem F (cut F depth r) u.0)
          (rrf_loop_lem depth rankings _ h u.1)

    get_or-accumulate :
        (rankings : List (Ranking F)) (scores : List (Str × Num)) (d : Str)
        → All (λ r. Distinct (keys r)) rankings
        → get_or (accumulate rankings scores) d (of_nat 0)
          ≡ rrf_score k rankings (get_or scores d (of_nat 0)) d
    unfolding accumulate
    get_or-accumulate [] scores d u = refl
    get_or-accumulate (r ∷ rankings) scores d u =
        get_or-accumulate rankings (add_ranks F k 1 r scores) d u.1
        ∙ ap (λ x. rrf_score k rankings x d) (get_or-add_ranks 1 r scores d u.0)

    contains-accumulate :
        (rankings : List (Ranking F)) (scores : List (Str × Num)) (d : Str)
        → contains (keys (accumulate rankings scores)) d
          ≡ (occurs rankings d || contains (keys scores) d)
    unfolding accumulate
    contains-accumulate [] scores d = refl
    contains-accumulate (r ∷ rankings) scores d = ground (
      arith,
      contains-accumulate rankings (add_ranks F k 1 r scores) d,
      contains-add_ranks 1 r scores d,
    )

    Distinct-keys-accumulate :
        (rankings : List (Ranking F)) (scores : List (Str × Num))
        → Distinct (keys scores)
        → Distinct (keys (accumulate rankings scores))
    unfolding accumulate
    Distinct-keys-accumulate [] scores h = h
    Distinct-keys-accumulate (r ∷ rankings) scores h =
        Distinct-keys-accumulate rankings _ (Distinct-keys-add_ranks 1 r scores h)

    get?_of_get_or :
        (d : List (Str × Num)) (j : Str)
        → get? d j ≡ (if contains (keys d) j then some (get_or d j (of_nat 0)) else none)
    unfolding get? get_or
    get?_of_get_or [] j = refl
    get?_of_get_or ((i, w) ∷ d) j = ground (arith, get?_of_get_or d j)

    All-cut :
        (depth : Option ℤ) (rankings : List (Ranking F))
        → All (λ r. Distinct (keys (cut F depth r))) rankings
        → All (λ r. Distinct (keys r)) (map (cut F depth) rankings)
    All-cut depth [] u = tt
    All-cut depth (r ∷ rankings) u = (u.0, All-cut depth rankings u.1)

    -- A list that has every fused document once with its score, best first.
    pub record IsFused (rankings : List (Ranking F)) (out : Ranking F) : Type 0 where
      pub sorted : IsSorted (fused_before F) out
      pub distinct : Distinct (keys out)
      pub scored :
          (d : Str)
          → get? out d
            ≡ (if occurs rankings d then some (rrf_score k rankings (of_nat 0) d) else none)

    accumulate-IsFused :
        (rankings : List (Ranking F))
        → All (λ r. Distinct (keys r)) rankings
        → IsFused rankings (sort_by (fused_before F) (accumulate rankings []))
    unfolding get_or
    accumulate-IsFused rankings u =
        let scores = accumulate rankings [] in
        let once : Distinct (keys scores) = Distinct-keys-accumulate rankings [] tt in
        record {
          sorted = sort_by-IsSorted (fused_before F) (fused_before-IsTotalPreorder F) scores;
          distinct = Distinct-keys-sort_by (fused_before F) scores once;
          scored = λ d.
              get?-sort_by (fused_before F) scores d once
              ∙ rw
                  (
                    get?_of_get_or scores d,
                    contains-accumulate rankings [] d,
                    get_or-accumulate rankings [] d u,
                  )
                  (ground arith);
        }

  -- `rrf` returns, if `k` is not negative, the depth is at least 1 or absent and no ranking
  -- repeats a document above the depth. Before it is cut to `out_k`, the result has each document
  -- that some ranking has above the depth, once, with the sum of `1 / (k + rank)` over those
  -- rankings as its score, by descending score and then by ascending id.
  pub rrf_lem :
      (rankings : List (Ranking F)) (k : Num) (depth out_k : Option ℤ)
      → less k (of_nat 0) ≡ false
      → IsDepth depth
      → All (λ r. Distinct (keys (cut F depth r))) rankings
      → (out : Ranking F) × (rrf F rankings k depth out_k ≡ ok (cut F out_k out))
        × IsFused k (map (cut F depth) rankings) out
  unfolding rrf
  rrf_lem rankings k depth out_k h h' u = (
    sort_by (fused_before F) (accumulate k (map (cut F depth) rankings) []),
    rw (h, rrf_loop_lem k depth rankings [] h' u) refl,
    accumulate-IsFused k (map (cut F depth) rankings) (All-cut k depth rankings u),
  )
