-- ===== src/Rerank/Cascade.antt =====
-- The cascade of py/hybridsearch/rerank/cascade.py: the first `k` candidates of a query in the order
-- of the reranker, the others below them in their first order.
use hybrid_search.Prelude.{
  ◌≤◌, ℕ, zero, suc, ◌+◌, ◌<◌, ◌≡◌, refl, sym, ◌∙◌, ap, Bool, true, false, not, List, [], ◌∷◌, ◌++◌,
  Result, ok, err, if◌then◌else◌, ltb, take, drop, take-append-drop, length, length-append, arith,
  All, Distinct, contains, contains-append,
}
use hybrid_search.Prelude.Text.{Str, str_eq}
use hybrid_search.Prelude.Dict.{keys, get_or, put, keys-append}
use hybrid_search.Prelude.Int.{ℤ}
use hybrid_search.Prelude.Order.{sort_by, length-sort_by}
use hybrid_search.Prelude.Order.Keyed.{contains-keys-sort_by, Distinct-keys-sort_by}
use hybrid_search.Prelude.Sets.{Distinct-append, All-of_contains, All_at}
use hybrid_search.Prelude.Float.{Float}
use hybrid_search.Data.Tables.{Table}
use hybrid_search.Eval.Metrics.{Metric, evaluate_metrics, rank_run}
use hybrid_search.Fusion.Core.{zip_into}
use hybrid_search.Fusion.Printed.Descending.{IsDescending}
use hybrid_search.Fusion.Runs.Written.{length-keys, zip_into_new, rank_run_descending}

-- `min` and `max` of no lengths.
pub data Error : Type 0 where
  no_queries : Error

Distinct-parts :
    (xs ys : List Str)
    → Distinct (xs ++ ys)
    → Distinct xs × Distinct ys × All (λ x. contains ys x ≡ false) xs
Distinct-parts [] ys h = (tt, h, tt)
Distinct-parts (x ∷ xs) ys h =
    let (a, b, c) = Distinct-parts xs ys h.1 in
    let split = contains-append xs ys x in
    ((ground (arith, h.0, split), a), b, (ground (arith, h.0, split), c))

module _ (F : Float) where
  open F use {Num, of_nat, less}

  -- A passage, the reranker's score and the first stage's.
  abbrev pub Cand : Type 0
  Cand = Str × (Num × Num)

  -- `per_q.setdefault(str(q), []).append((str(p), float(s), float(f)))`
  unfoldable pub group_rows : List (Str × Cand) → List (Str × List Cand) → List (Str × List Cand)
  group_rows [] per_q = per_q
  group_rows ((q, c) ∷ rows) per_q = group_rows rows (put per_q q (get_or per_q q [] ++ c ∷ []))

  -- `{p: f for p, _, f in v}`
  unfoldable pub first_stage : List Cand → List (Str × Num) → List (Str × Num)
  first_stage [] run = run
  first_stage ((p, (s, f)) ∷ v) run = first_stage v (put run p f)

  -- The order of `-x[1]`, for scores that are not NaN.
  abbrev pub scores_before : Cand → Cand → Bool
  scores_before a b = not (less a.1.0 b.1.0)

  -- `head + v[k:]`
  unfoldable pub cascade_order : ℕ → List Cand → List Cand
  cascade_order k v = sort_by scores_before (take k v) ++ drop k v

  -- `float(n)`, `float(n - 1)`, ..., `float(1)`
  unfoldable pub rank_scores : ℕ → List Num
  rank_scores zero = []
  rank_scores (suc n) = of_nat (suc n) ∷ rank_scores n

  -- `{p: float(n - i) for i, (p, _, _) in enumerate(head + v[k:])}`
  unfoldable pub cascade_row : ℕ → List Cand → List (Str × Num)
  unfolding cascade_order rank_scores
  cascade_row k v = zip_into F (keys (cascade_order k v)) (rank_scores (length v)) []

  unfoldable pub cascade_run : ℕ → List (Str × List Cand) → List (Str × List (Str × Num))
  unfolding cascade_row
  cascade_run k [] = []
  cascade_run k ((q, v) ∷ per_q) = (q, cascade_row k v) ∷ cascade_run k per_q

  unfoldable pub first_run : List (Str × List Cand) → List (Str × List (Str × Num))
  unfolding first_stage
  first_run [] = []
  first_run ((q, v) ∷ per_q) = (q, first_stage v []) ∷ first_run per_q

  -- `max` and `min` of `len(v) for v in per_q.values()`
  abbrev pub max_length : List (Str × List Cand) → ℕ → ℕ
  max_length [] m = m
  max_length ((q, v) ∷ per_q) m = max_length per_q (if ltb m (length v) then length v else m)

  abbrev pub min_length : List (Str × List Cand) → ℕ → ℕ
  min_length [] m = m
  min_length ((q, v) ∷ per_q) m = min_length per_q (if ltb (length v) m then length v else m)

  -- The loop over `depths`, with the length of the longest list.
  unfoldable pub qualities :
      List (Str × List Cand) → Table ℤ → List Metric → ℕ → List ℕ → List (ℕ × List (Str × Num))
  unfolding cascade_run
  qualities per_q qrels ms longest [] = []
  qualities per_q qrels ms longest (k ∷ ks) =
      let rest = qualities per_q qrels ms longest ks in
      if ltb longest k
      then rest
      else (k, (evaluate_metrics F (cascade_run k per_q) qrels ms).0) ∷ rest

  -- `cascade_quality`: the entries by depth, depth 0 the first stage, and `avail`; for depths that
  -- differ from each other and from 0.
  unfoldable pub cascade_quality :
      List (Str × Cand)
      → Table ℤ
      → List ℕ
      → List Metric
      → Result Error (List (ℕ × List (Str × Num)) × ℕ)
  unfolding group_rows first_run qualities
  cascade_quality rows qrels depths ms = elim (group_rows rows []) [
    | [] ↦ err no_queries
    | (q, v) ∷ more ↦
        let per_q = (q, v) ∷ more in
        ok (
          (0, (evaluate_metrics F (first_run per_q) qrels ms).0)
              ∷ qualities per_q qrels ms (max_length more (length v)) depths,
          min_length more (length v),
        )
  ]

  length-rank_scores : (n : ℕ) → length (rank_scores n) ≡ n
  unfolding rank_scores
  length-rank_scores zero = refl
  length-rank_scores (suc n) = ap suc (length-rank_scores n)

  length-cascade_order : (k : ℕ) (v : List Cand) → length (cascade_order k v) ≡ length v
  unfolding cascade_order
  length-cascade_order k v =
      length-append (sort_by scores_before (take k v)) (drop k v)
      ∙ ap (λ n. n + length (drop k v)) (length-sort_by scores_before (take k v))
      ∙ sym (length-append (take k v) (drop k v))
      ∙ ap length (take-append-drop k v)

  cascade_order-Distinct :
      (k : ℕ) (v : List Cand) → Distinct (keys v) → Distinct (keys (cascade_order k v))
  unfolding cascade_order
  cascade_order-Distinct k v h =
      let first = sort_by scores_before (take k v) in
      let whole : keys (take k v) ++ keys (drop k v) ≡ keys v =
        sym (keys-append (take k v) (drop k v)) ∙ ap keys (take-append-drop k v) in
      let (a, b, c) = Distinct-parts (keys (take k v)) (keys (drop k v)) (rw whole h) in
      rw (keys-append first (drop k v)) (
        Distinct-append (keys first) (keys (drop k v))
          (Distinct-keys-sort_by scores_before (take k v) a) b
          (All-of_contains (λ x. contains (keys (drop k v)) x ≡ false) (keys first)
            (λ x m.
              All_at (λ x. contains (keys (drop k v)) x ≡ false) (keys (take k v)) x c
                (sym (contains-keys-sort_by scores_before (take k v) x) ∙ m))))

  -- `float` keeps the order of the ranks up to `top`, as it does up to 2 ^ 53.
  abbrev pub KeepsOrder : ℕ → Type 0
  KeepsOrder top = (m n : ℕ) → m < n → n ≤ top → less (of_nat m) (of_nat n) ≡ true

  module _ (top : ℕ) (law : KeepsOrder top) where
    rank_scores_below :
        (m n : ℕ) → n < m → m ≤ top → All (λ w. less w (of_nat m) ≡ true) (rank_scores n)
    unfolding rank_scores
    rank_scores_below m zero h t = tt
    rank_scores_below m (suc n) h t = (law (suc n) m h t, rank_scores_below m n (omega arith) t)

    rank_scores-IsDescending : (n : ℕ) → n ≤ top → IsDescending F (rank_scores n)
    unfolding rank_scores
    rank_scores-IsDescending zero t = tt
    rank_scores-IsDescending (suc n) t =
        (rank_scores_below (suc n) n (omega arith) t, rank_scores-IsDescending n (omega arith))

    -- If the candidates' passages are different and `float` keeps the order of as many ranks, the
    -- evaluator ranks the run of depth `k` in the cascade's order: the first `k` by the reranker's
    -- score, then the others as the first stage had them.
    pub rank_run-cascade_row :
        (k : ℕ) (v : List Cand)
        → length v ≤ top
        → Distinct (keys v)
        → rank_run F (cascade_row k v) ≡ keys (cascade_order k v)
    unfolding cascade_row
    rank_run-cascade_row k v t h =
        let order = cascade_order k v in
        let same : length (rank_scores (length v)) ≡ length (keys order) =
          omega
            (arith, length-rank_scores (length v), length-keys order, length-cascade_order k v) in
        let (ks, vs) =
          zip_into_new F (keys order) (rank_scores (length v)) [] same
            (cascade_order-Distinct k v h) in
        rank_run_descending F (cascade_row k v) (rw vs (rank_scores-IsDescending (length v) t)) ∙ ks
