-- ===== src/Eval/Metrics/Table.antt =====
-- `evaluate` of py/hybridsearch/eval/metrics.py: what its two dicts hold.
use hybrid_search.Prelude.{
  ◌≡◌, refl, ap, true, false, List, [], ◌∷◌, ◌++◌, arith, Bool-cases, inl, inr, All, Distinct,
  contains, ◌==◌, ==_refl, ==_eq, append-nil, append_assoc, subst, sym, ◌∙◌,
}
use hybrid_search.Prelude.Text.{Str, str_eq}
use hybrid_search.Prelude.Sets.{Distinct-middle}
use hybrid_search.Prelude.Dict.{keys, get_or, put, contains-keys-put, put_new, keys-append}
use hybrid_search.Prelude.Int.{ℤ}
use hybrid_search.Prelude.Float.{Float}
use hybrid_search.Eval.Metrics.{
  Metric, rank_run, score_metric, Progress, write_score, score_query, cache_ranking, evaluate_loop,
  empty_columns, mean, means, evaluate_metrics,
}

abbrev pub names : List Metric → List Str
names [] = []
names (m ∷ ms) = m.name ∷ names ms

module _ {ℓ} {V : Type ℓ} where
  put_skip :
      (d : List (Str × V)) (j k : Str) (w v : V)
      → (k == j) ≡ false
      → put ((j, w) ∷ d) k v ≡ (j, w) ∷ put d k v
  unfolding put
  put_skip d j k w v h = rw h refl

  get_or_skip :
      (d : List (Str × V)) (j k : Str) (w z : V)
      → (k == j) ≡ false
      → get_or ((j, w) ∷ d) k z ≡ get_or d k z
  unfolding get_or
  get_or_skip d j k w z h = rw h refl

  put_head : (d : List (Str × V)) (k : Str) (w v : V) → put ((k, w) ∷ d) k v ≡ (k, v) ∷ d
  unfolding put
  put_head d k w v = rw (==_refl k) refl

  get_or_head : (d : List (Str × V)) (k : Str) (w z : V) → get_or ((k, w) ∷ d) k z ≡ w
  unfolding get_or
  get_or_head d k w z = rw (==_refl k) refl

  new_key :
      (d d' : List (Str × V)) (k : Str) (v : V)
      → Distinct (keys (d ++ (k, v) ∷ d'))
      → contains (keys d) k ≡ false
  new_key d d' k v h =
      Distinct-middle (keys d) k (keys d') (subst Distinct (keys-append d ((k, v) ∷ d')) h)

module _ (F : Float) (run : List (Str × List (Str × F.Num))) where
  open F use {Num}

  -- The value of a metric for a query, whose ranking is that of the run, or empty.
  abbrev pub score_of : Metric → Str → List (Str × ℤ) → Num
  score_of m qid qrel = score_metric F m (rank_run F (get_or run qid [])) qrel

  abbrev pub scores_of : Metric → List (Str × List (Str × ℤ)) → List (Str × Num)
  scores_of m [] = []
  scores_of m ((qid, qrel) ∷ qrels) = (qid, score_of m qid qrel) ∷ scores_of m qrels

  -- One column for each metric, one value for each judged query, both in the order given.
  abbrev pub table : List Metric → List (Str × List (Str × ℤ)) → List (Str × List (Str × Num))
  table [] qrels = []
  table (m ∷ ms) qrels = (m.name, scores_of m qrels) ∷ table ms qrels

  keys-scores_of :
      (m : Metric) (qrels : List (Str × List (Str × ℤ))) → keys (scores_of m qrels) ≡ keys qrels
  keys-scores_of m [] = refl
  keys-scores_of m ((qid, qrel) ∷ qrels) = ap (◌∷◌ qid) (keys-scores_of m qrels)

  scores_of-snoc :
      (m : Metric) (done : List (Str × List (Str × ℤ))) (qid : Str) (qrel : List (Str × ℤ))
      → scores_of m (done ++ (qid, qrel) ∷ []) ≡ scores_of m done ++ (qid, score_of m qid qrel) ∷ []
  scores_of-snoc m [] qid qrel = refl
  scores_of-snoc m ((q, g) ∷ done) qid qrel =
      ap (◌∷◌ (q, score_of m q g)) (scores_of-snoc m done qid qrel)

  -- Every cached ranking is the query's own.
  abbrev IsRight : List (Str × List Str) → Type 0
  IsRight = All (λ (q, r). r ≡ rank_run F (get_or run q []))

  write_score_skip :
      (qid : Str) (v : Num) (j name : Str) (w : List (Str × Num))
      (d : List (Str × List (Str × Num)))
      → (name == j) ≡ false
      → write_score F qid v ((j, w) ∷ d) name ≡ (j, w) ∷ write_score F qid v d name
  unfolding write_score
  write_score_skip qid v j name w d h =
      rw (get_or_skip d j name w [] h) (put_skip d j name w (put (get_or d name []) qid v) h)

  write_score_head :
      (qid : Str) (v : Num) (name : Str) (w : List (Str × Num)) (d : List (Str × List (Str × Num)))
      → contains (keys w) qid ≡ false
      → write_score F qid v ((name, w) ∷ d) name ≡ (name, w ++ (qid, v) ∷ []) ∷ d
  unfolding write_score
  write_score_head qid v name w d h =
      rw (get_or_head d name w [], put_new w qid v h) (put_head d name w (w ++ (qid, v) ∷ []))

  score_query_skip :
      (ranked : List Str) (qid : Str) (qrel : List (Str × ℤ)) (ms : List Metric) (j : Str)
      (w : List (Str × Num)) (d : List (Str × List (Str × Num)))
      → contains (names ms) j ≡ false
      → score_query F ranked (qid, qrel) ms ((j, w) ∷ d)
        ≡ (j, w) ∷ score_query F ranked (qid, qrel) ms d
  unfolding score_query
  score_query_skip ranked qid qrel [] j w d h = refl
  score_query_skip ranked qid qrel (m ∷ ms) j w d h =
      let v = score_metric F m ranked qrel in
      let other : (m.name == j) ≡ false = ground (arith, str_eq.same_iff m.name j, ==_refl j) in
      rw (write_score_skip qid v j m.name w d other)
        (score_query_skip ranked qid qrel ms j w (write_score F qid v d m.name) (ground arith))

  -- A query adds its value at the end of every column.
  score_query-table :
      (ranked : List Str) (qid : Str) (qrel : List (Str × ℤ)) (ms : List Metric)
      (done : List (Str × List (Str × ℤ)))
      → ranked ≡ rank_run F (get_or run qid [])
      → Distinct (names ms)
      → contains (keys done) qid ≡ false
      → score_query F ranked (qid, qrel) ms (table ms done) ≡ table ms (done ++ (qid, qrel) ∷ [])
  unfolding score_query
  score_query-table ranked qid qrel [] done r d h = refl
  score_query-table ranked qid qrel (m ∷ ms) done r d h =
      let v = score_metric F m ranked qrel in
      let new : contains (keys (scores_of m done)) qid ≡ false = rw (keys-scores_of m done) h in
      let value : v ≡ score_of m qid qrel = ap (λ l. score_metric F m l qrel) r in
      rw
        (
          write_score_head qid v m.name (scores_of m done) (table ms done) new,
          score_query_skip ranked qid qrel ms m.name (scores_of m done ++ (qid, v) ∷ [])
              (table ms done) d.0,
          score_query-table ranked qid qrel ms done r d.1 h,
          scores_of-snoc m done qid qrel,
          value,
        )
        refl

  get_or-IsRight :
      (cache : List (Str × List Str)) (qid : Str)
      → IsRight cache
      → contains (keys cache) qid ≡ true
      → get_or cache qid [] ≡ rank_run F (get_or run qid [])
  unfolding get_or
  get_or-IsRight [] qid right h = cc
  get_or-IsRight ((q, r) ∷ cache) qid right h = elim (Bool-cases (qid == q)) [
    | inl e ↦ rw (e, ==_eq qid q e) right.0
    | inr e ↦ rw e (get_or-IsRight cache qid right.1 (rw e at h))
  ]

  put-IsRight :
      (cache : List (Str × List Str)) (qid : Str)
      → IsRight cache
      → IsRight (put cache qid (rank_run F (get_or run qid [])))
  unfolding put
  put-IsRight [] qid right = (refl, tt)
  put-IsRight ((q, r) ∷ cache) qid right = elim (Bool-cases (qid == q)) [
    | inl e ↦ rw (e, ==_eq qid q e) (refl, right.1)
    | inr e ↦ rw e (right.0, put-IsRight cache qid right.1)
  ]

  cache_ranking-IsRight :
      (cache : List (Str × List Str)) (qid : Str)
      → IsRight cache
      → IsRight (cache_ranking F run qid cache)
        × (contains (keys (cache_ranking F run qid cache)) qid ≡ true)
  unfolding cache_ranking
  cache_ranking-IsRight cache qid right = elim (Bool-cases (contains (keys cache) qid)) [
    | inl e ↦ rw e (right, e)
    | inr e ↦
        let r = rank_run F (get_or run qid []) in
        rw e (
          put-IsRight cache qid right,
          ground (arith, contains-keys-put cache qid qid r, ==_refl qid),
        )
  ]

  evaluate_loop-table :
      (ms : List Metric) (done qrels : List (Str × List (Str × ℤ))) (s : Progress F)
      → Distinct (names ms)
      → Distinct (keys (done ++ qrels))
      → IsRight s.ranked_cache
      → s.per_query ≡ table ms done
      → (evaluate_loop F run ms qrels s).per_query ≡ table ms (done ++ qrels)
  unfolding evaluate_loop
  evaluate_loop-table ms done [] s d dq right h = rw (append-nil done) h
  evaluate_loop-table ms done ((qid, qrel) ∷ qrels) s d dq right h =
      let (right', cached) = cache_ranking-IsRight s.ranked_cache qid right in
      let cache = cache_ranking F run qid s.ranked_cache in
      let ranked = get_or cache qid [] in
      let row =
        score_query-table ranked qid qrel ms done (get_or-IsRight cache qid right' cached) d
          (new_key done qrels qid qrel dq) in
      let shift = append_assoc done ((qid, qrel) ∷ []) qrels in
      (evaluate_loop-table ms (done ++ (qid, qrel) ∷ []) qrels
        (record {
          per_query = score_query F ranked (qid, qrel) ms s.per_query;
          ranked_cache = cache;
        })
        d (subst (λ l. Distinct (keys l)) (sym shift) dq) right' (rw h row))
      ∙ ap (table ms) shift

  empty_columns-table :
      (ms : List Metric) (d : List (Str × List (Str × Num)))
      → Distinct (keys d ++ names ms)
      → empty_columns F ms d ≡ d ++ table ms []
  unfolding empty_columns
  empty_columns-table [] d h = sym (append-nil d)
  empty_columns-table (m ∷ ms) d h =
      let fresh = Distinct-middle (keys d) m.name (names ms) h in
      let shift = append_assoc (keys d) (m.name ∷ []) (names ms) in
      rw (put_new d m.name [] fresh) (
        empty_columns-table ms (d ++ (m.name, []) ∷ []) (
          subst Distinct (ap (λ l. l ++ names ms) (sym (keys-append d ((m.name, []) ∷ []))))
            (subst Distinct (sym shift) h))
        ∙ append_assoc d ((m.name, []) ∷ []) (table ms []))

  abbrev pub means_of : List Metric → List (Str × List (Str × ℤ)) → List (Str × Num)
  means_of [] qrels = []
  means_of (m ∷ ms) qrels = (m.name, mean F (scores_of m qrels)) ∷ means_of ms qrels

  means-table :
      (ms : List Metric) (qrels : List (Str × List (Str × ℤ)))
      → means F (table ms qrels) ≡ means_of ms qrels
  unfolding means
  means-table [] qrels = refl
  means-table (m ∷ ms) qrels = ap (◌∷◌ (m.name, mean F (scores_of m qrels))) (means-table ms qrels)

-- `evaluate` gives each metric one value for every judged query, in the order of the judgments: the
-- metric at the query's own ranking of the run, which is empty where the run lacks the query. Its
-- aggregate is the mean of these values. Queries that are not judged do not count. The metrics must
-- have different names, and each query one entry in the judgments.
pub evaluate_metrics-eq :
    (F : Float) (run : List (Str × List (Str × F.Num))) (qrels : List (Str × List (Str × ℤ)))
    (ms : List Metric)
    → Distinct (names ms)
    → Distinct (keys qrels)
    → evaluate_metrics F run qrels ms ≡ (means_of F run ms qrels, table F run ms qrels)
unfolding evaluate_metrics
evaluate_metrics-eq F run qrels ms d dq =
    let columns = empty_columns-table F run ms [] d in
    let start : Progress F = record { per_query = empty_columns F ms []; ranked_cache = [] } in
    rw (evaluate_loop-table F run ms [] qrels start d dq tt columns)
      (rw (means-table F run ms qrels) refl)
