-- ===== src/Eval/Metrics.antt =====
-- The metrics of py/hybridsearch/eval/metrics.py. Document and query ids are strings of code
-- points, grades are integers that may be negative, and a dict keeps its insertion order.
pub mod Table
pub mod Recall
pub mod FirstRelevant
pub mod Ranking
use hybrid_search.Prelude.{
  ℕ, suc, ◌+◌, Bool, true, false, List, [], ◌∷◌, map, ltb, leb, nat_beq, if◌then◌else◌, take, tally,
  select, length, contains,
}
use hybrid_search.Prelude.Text.{Str, str_leb, str_eq}
use hybrid_search.Prelude.Dict.{keys, values, get_or, put}
use hybrid_search.Prelude.Order.{sort_by}
use hybrid_search.Prelude.Int.{ℤ, pos, negsuc, leb_ℤ}
use hybrid_search.Prelude.Float.{Float}

pub data Kind : Type 0 where
  rr ndcg recall : Kind

pub record Metric : Type 0 where
  pub name : Str
  pub kind : Kind
  pub k : ℕ
  pub rel : ℤ

-- `qrel.get(d, 0)`
abbrev pub grade : List (Str × ℤ) → Str → ℤ
grade qrel d = get_or qrel d (pos 0)

-- `grade >= rel`
unfoldable pub is_relevant : List (Str × ℤ) → ℤ → Str → Bool
is_relevant qrel rel d = leb_ℤ rel (grade qrel d)

-- A grade where it is positive, and 0 where it is not.
abbrev pub gain : ℤ → ℕ
gain (pos n) = n
gain (negsuc n) = 0

-- `g > 0`
abbrev pub is_gain : ℤ → Bool
is_gain g = ltb 0 (gain g)

unfoldable pub relevant_count : List (Str × ℤ) → ℤ → ℕ
relevant_count qrel rel = tally (leb_ℤ rel) (values qrel)

unfoldable pub hit_count : List Str → List (Str × ℤ) → ℕ → ℤ → ℕ
unfolding is_relevant
hit_count ranked qrel k rel = tally (is_relevant qrel rel) (take k ranked)

module _ (F : Float) where
  open F use {Num, of_nat, add, div, less, log2, sum}

  -- The order of `sorted(..., key=(score, docid), reverse=True)`.
  unfoldable pub ranks_before : Str × Num → Str × Num → Bool
  ranks_before (d, x) (e, y) = if less y x then true else if less x y then false else str_leb e d

  unfoldable pub rank_run : List (Str × Num) → List Str
  unfolding ranks_before
  rank_run scores = keys (sort_by ranks_before scores)

  -- The `for` loop from position `i`.
  unfoldable pub mrr_from : List (Str × ℤ) → ℤ → ℕ → List Str → Num
  unfolding is_relevant
  mrr_from qrel rel i [] = of_nat 0
  mrr_from qrel rel i (d ∷ ds) =
      let rest = mrr_from qrel rel (suc i) ds in
      if is_relevant qrel rel d then div (of_nat 1) (of_nat (i + 1)) else rest

  unfoldable pub mrr_at_k : List Str → List (Str × ℤ) → ℕ → ℤ → Num
  unfolding mrr_from
  mrr_at_k ranked qrel k rel = mrr_from qrel rel 0 (take k ranked)

  -- `g / math.log2(i + 2)`
  abbrev pub discounted : ℕ → ℕ → Num
  discounted i g = div (of_nat g) (log2 (i + 2))

  -- `dcg`, position `i` and what follows added to `dcg`
  unfoldable pub dcg_from : List (Str × ℤ) → ℕ → Num → List Str → Num
  dcg_from qrel i dcg [] = dcg
  dcg_from qrel i dcg (d ∷ ds) =
      let g = grade qrel d in
      dcg_from qrel (suc i) (if is_gain g then add dcg (discounted i (gain g)) else dcg) ds

  -- `sorted((g for g in qrel.values() if g > 0), reverse=True)[:k]`
  unfoldable pub ideal_gains : List (Str × ℤ) → ℕ → List ℕ
  ideal_gains qrel k = take k (sort_by (λ g h. leb h g) (map gain (select is_gain (values qrel))))

  -- The summands of `idcg`, from position `i`.
  unfoldable pub discounts_from : ℕ → List ℕ → List Num
  discounts_from i [] = []
  discounts_from i (g ∷ gs) = discounted i g ∷ discounts_from (suc i) gs

  unfoldable pub ndcg_at_k : List Str → List (Str × ℤ) → ℕ → Num
  unfolding dcg_from ideal_gains discounts_from
  ndcg_at_k ranked qrel k =
      let dcg = dcg_from qrel 0 (of_nat 0) (take k ranked) in
      let idcg = sum (discounts_from 0 (ideal_gains qrel k)) in
      if less (of_nat 0) idcg then div dcg idcg else of_nat 0

  unfoldable pub recall_at_k : List Str → List (Str × ℤ) → ℕ → ℤ → Num
  unfolding relevant_count hit_count
  recall_at_k ranked qrel k rel =
      let nrel = relevant_count qrel rel in
      if nat_beq nrel 0 then of_nat 0 else div (of_nat (hit_count ranked qrel k rel)) (of_nat nrel)

  -- The `if m.kind` of `evaluate`.
  unfoldable pub score_metric_as : Kind → Metric → List Str → List (Str × ℤ) → Num
  unfolding mrr_at_k ndcg_at_k recall_at_k
  score_metric_as rr m ranked qrel = mrr_at_k ranked qrel m.k m.rel
  score_metric_as ndcg m ranked qrel = ndcg_at_k ranked qrel m.k
  score_metric_as recall m ranked qrel = recall_at_k ranked qrel m.k m.rel

  abbrev pub score_metric : Metric → List Str → List (Str × ℤ) → Num
  score_metric m = score_metric_as m.kind m

  -- `per_query` and `ranked_cache`.
  pub record Progress : Type 0 where
    pub per_query : List (Str × List (Str × Num))
    pub ranked_cache : List (Str × List Str)

  -- `per_query[m.name][qid] = v`
  unfoldable pub write_score :
      Str → Num → List (Str × List (Str × Num)) → Str → List (Str × List (Str × Num))
  write_score qid v per_query name = put per_query name (put (get_or per_query name []) qid v)

  -- `for m in ms`
  unfoldable pub score_query :
      List Str
      → Str × List (Str × ℤ)
      → List Metric
      → List (Str × List (Str × Num))
      → List (Str × List (Str × Num))
  unfolding score_metric_as write_score
  score_query ranked (qid, qrel) [] per_query = per_query
  score_query ranked (qid, qrel) (m ∷ ms) per_query =
      score_query ranked (qid, qrel) ms
        (write_score qid (score_metric m ranked qrel) per_query m.name)

  -- `if qid not in ranked_cache: ...`
  unfoldable pub cache_ranking :
      List (Str × List (Str × Num)) → Str → List (Str × List Str) → List (Str × List Str)
  unfolding rank_run
  cache_ranking run qid cache =
      if contains (keys cache) qid then cache else put cache qid (rank_run (get_or run qid []))

  -- `for qid, qrel in qrels.items()`
  unfoldable pub evaluate_loop :
      List (Str × List (Str × Num))
      → List Metric
      → List (Str × List (Str × ℤ))
      → Progress
      → Progress
  unfolding cache_ranking score_query
  evaluate_loop run ms [] s = s
  evaluate_loop run ms ((qid, qrel) ∷ qrels) s =
      let cache = cache_ranking run qid s.ranked_cache in
      evaluate_loop run ms qrels (record {
        per_query = score_query (get_or cache qid []) (qid, qrel) ms s.per_query;
        ranked_cache = cache;
      })

  -- `{m.name: {} for m in ms}`, added to `per_query`
  unfoldable pub empty_columns :
      List Metric → List (Str × List (Str × Num)) → List (Str × List (Str × Num))
  empty_columns [] per_query = per_query
  empty_columns (m ∷ ms) per_query = empty_columns ms (put per_query m.name [])

  -- `sum(vals.values()) / len(vals) if vals else 0.0`
  abbrev pub mean : List (Str × Num) → Num
  mean [] = of_nat 0
  mean (v ∷ vals) = div (sum (values (v ∷ vals))) (of_nat (length (v ∷ vals)))

  unfoldable pub means : List (Str × List (Str × Num)) → List (Str × Num)
  means [] = []
  means ((name, vals) ∷ per_query) = (name, mean vals) ∷ means per_query

  -- `evaluate`, once the names are parsed.
  unfoldable pub evaluate_metrics :
      List (Str × List (Str × Num))
      → List (Str × List (Str × ℤ))
      → List Metric
      → List (Str × Num) × List (Str × List (Str × Num))
  unfolding evaluate_loop empty_columns means
  evaluate_metrics run qrels ms =
      let start : Progress = record { per_query = empty_columns ms []; ranked_cache = [] } in
      let table = (evaluate_loop run ms qrels start).per_query in (means table, table)
