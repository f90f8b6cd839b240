-- ===== src/Rerank/Rerun.antt =====
-- py/hybridsearch/rerank/rerank_run.py: the candidates of a run are scored by a cross-encoder and the
-- run is written in their new order. The tokeniser and the model are parameters.
use hybrid_search.Prelude.{
  ℕ, zero, suc, ◌+◌, Bool, true, false, not, List, [], ◌∷◌, ◌++◌, map, none, some, Result, ok, err,
  ◌>>=◌, ◌>>◌, guard, if◌then◌else◌, ◌==◌, length, take, drop, select, contains, nat_eq,
}
use hybrid_search.Prelude.Text.{Str, str_eq, str_leb}
use hybrid_search.Prelude.Dict.{keys, get_or, put}
use hybrid_search.Prelude.Int.{ℤ, pos, leb_ℤ}
use hybrid_search.Prelude.Order.{sort_by}
use hybrid_search.Prelude.Float.{Float}
use hybrid_search.Data.Words.{parse_int}
use hybrid_search.Data.Tables.{Table, put_entry}
use hybrid_search.Data.Files as Files
use hybrid_search.Data.Files.{Qrels, ScoreText, read_qrels, read_queries, write_run}
use hybrid_search.Eval.Metrics.{Metric, evaluate_metrics, ranks_before}
use hybrid_search.Rerank.Texts.{Failure, iter_run_groups, load_passages}
use hybrid_search.Dense.Encoder.{indices}
use hybrid_search.Dense.Encoder as Encoder

pub data Error : Type 0 where
  reading : Files.Error → Error
  streaming : Failure → Error
  bad_qid : Str → Error
  -- `KeyError`, with the number of missing passages
  missing_pids : ℕ → Error
  no_item : Error

abbrev pub reading_of {ℓ} : {A : Type ℓ} → Result Files.Error A → Result Error A
reading_of (err e) = err (reading e)
reading_of (ok a) = ok a

-- `int(q)` of every id.
unfoldable pub check_qids : List Str → Result Error (Unit {0})
check_qids [] = ok tt
check_qids (q ∷ qs) = elim (parse_int q) [ none ↦ err (bad_qid q) | some z ↦ check_qids qs ]

abbrev pub int_or_zero : Str → ℤ
int_or_zero q = elim (parse_int q) [ none ↦ pos 0 | some z ↦ z ]

-- The order of `key=int`.
abbrev pub int_before : Str → Str → Bool
int_before p q = leb_ℤ (int_or_zero p) (int_or_zero q)

abbrev pub sorted_qids : List Str → Result Error (List Str)
unfolding check_qids
sorted_qids qs = check_qids qs >> ok (sort_by int_before qs)

-- `if max_queries: qids = set(sorted(qids, key=int)[:max_queries])`
unfoldable pub first_queries : ℕ → List Str → Result Error (List Str)
unfolding check_qids
first_queries zero qids = ok qids
first_queries (suc n) qids = sorted_qids qids >>= λ qs. ok (take (suc n) qs)

-- `{q: qrels[q] for q in qids}`, of ids that have judgments.
abbrev pub restricted : List Str → Qrels → Qrels
unfolding get_or
restricted [] qrels = []
restricted (q ∷ qids) qrels = (q, get_or qrels q []) ∷ restricted qids qrels

abbrev pub judged_of : ℕ → List Str → Qrels → Qrels
judged_of zero qids qrels = qrels
judged_of (suc n) qids qrels = restricted qids qrels

-- `len(q) + len(p)`
abbrev pub pair_lengths : List (Str × Str) → List ℕ
pair_lengths [] = []
pair_lengths ((q, p) ∷ pairs) = (length q + length p) ∷ pair_lengths pairs

-- `[Q[i] for i in idx]` and `[P[i] for i in idx]`
abbrev pub pairs_at : List (Str × Str) → List ℕ → List (Str × Str)
pairs_at pairs idx = map (λ i. Encoder.get_or pairs i ([], [])) idx

module _ (F : Float) (T : ScoreText F) where
  open F use {Num, of_nat, less}

  abbrev pub Hits : Type 0
  Hits = List (Str × Num)

  -- The loop of `load_candidates`, over what `iter_run_groups` yields.
  unfoldable pub candidates_of : List Str → ℕ → List (Str × Hits) → Table Num → Table Num
  unfolding put ranks_before
  candidates_of qids depth [] out = out
  candidates_of qids depth ((qid, hits) ∷ groups) out =
      candidates_of qids depth groups (
        if contains qids qid then put out qid (take depth (sort_by (ranks_before F) hits)) else out)

  unfoldable pub load_candidates : List Str → List Str → ℕ → Result Error (Table Num)
  unfolding candidates_of iter_run_groups
  load_candidates run qids depth =
      let stream = iter_run_groups F T none run in
      elim stream.1 [
        | some failure ↦ err (streaming failure)
        | none ↦ ok (candidates_of qids depth stream.0 [])
      ]

  -- What `out[idx]` is given, place by place.
  unfoldable pub write_scores : List ℕ → List Num → List (ℕ × Num) → List (ℕ × Num)
  unfolding put
  write_scores [] xs out = out
  write_scores (i ∷ idx) [] out = out
  write_scores (i ∷ idx) (x ∷ xs) out = write_scores idx xs (put out i x)

  -- `for s in range(0, len(order), batch)`, with fuel for the rounds; `model` scores a batch.
  unfoldable pub score_rounds :
      (List (Str × Str) → List Num)
      → List (Str × Str)
      → ℕ
      → ℕ
      → List ℕ
      → List (ℕ × Num)
      → List (ℕ × Num)
  unfolding write_scores
  score_rounds model pairs batch zero order out = out
  score_rounds model pairs batch (suc fuel) [] out = out
  score_rounds model pairs batch (suc fuel) (i ∷ order) out =
      let idx = take batch (i ∷ order) in
      score_rounds model pairs batch fuel (drop batch (i ∷ order))
        (write_scores idx (model (pairs_at pairs idx)) out)

  -- `Scorer.score`
  unfoldable pub score_pairs : (List (Str × Str) → List Num) → List (Str × Str) → ℕ → List (ℕ × Num)
  unfolding score_rounds
  score_pairs model pairs batch =
      let lens = pair_lengths pairs in
      let order = Encoder.argsort lens in score_rounds model pairs batch (length order) order []

  -- `[(q, p) for q in sorted(cands, key=int) for p, _ in cands[q]]`
  unfoldable pub keys_of : List Str → Table Num → List (Str × Str)
  unfolding get_or
  keys_of [] cands = []
  keys_of (q ∷ qs) cands = map (λ p. (q, p)) (keys (get_or cands q [])) ++ keys_of qs cands

  -- `{p for hits in cands.values() for p, _ in hits}`, without repetition.
  unfoldable pub need_of : Table Num → List Str
  need_of [] = []
  need_of ((q, hits) ∷ cands) =
      let rest = need_of cands in select (λ p. not (contains rest p)) (keys hits) ++ rest

  -- `run.setdefault(q, {})[p] = float(s)`, from place `i`.
  unfoldable pub run_of : List (Str × Str) → ℕ → List (ℕ × Num) → Table Num → Table Num
  unfolding put_entry get_or
  run_of [] i scores run = run
  run_of ((q, p) ∷ ks) i scores run =
      run_of ks (suc i) scores (put_entry run q p (get_or scores i (of_nat 0)))

  -- The order of `(-x[1], x[0])`.
  abbrev pub hit_before : Str × Num → Str × Num → Bool
  hit_before (d, x) (e, y) = if less y x then true else if less x y then false else str_leb d e

  -- What `write_run` is given.
  unfoldable pub ranked_run : List Str → Table Num → List (Str × Hits)
  unfolding get_or
  ranked_run [] run = []
  ranked_run (q ∷ qs) run = (q, sort_by hit_before (get_or run q [])) ∷ ranked_run qs run

  -- The columns of the cached scores.
  pub record Cache : Type 0 where
    pub pairs : List (Str × Str)
    pub scores : List (ℕ × Num)
    pub first_stage : List Num

  unfoldable pub first_scores : List Str → Table Num → List Num
  unfolding get_or
  first_scores [] cands = []
  first_scores (q ∷ qs) cands = map (λ h. h.1) (get_or cands q []) ++ first_scores qs cands

  -- The files that `rerank` writes, with the numbers of its result.
  pub record Reranked : Type 0 where
    pub cache : Cache
    pub lines : List Str
    pub metrics : List (Str × Num)
    pub first_stage_metrics : List (Str × Num)
    pub n_queries_qrels : ℕ
    pub n_queries_with_candidates : ℕ
    pub n_pairs : ℕ

  -- From the texts on: `clip` is `clip_query`.
  unfoldable pub rerank_texts :
      (Str → Str)
      → (List (Str × Str) → List Num)
      → Str
      → List (Str × Str)
      → Qrels
      → Table Num
      → List (Str × Str)
      → List Str
      → ℕ
      → List Metric
      → Reranked
  unfolding keys_of score_pairs run_of ranked_run first_scores write_run evaluate_metrics get_or
  rerank_texts clip model name queries qrels cands text qs batch ms =
      let ks = keys_of qs cands in
      let pairs = map (λ k. (clip (get_or queries k.0 []), get_or text k.1 [])) ks in
      let scores = score_pairs model pairs batch in
      let run = run_of ks 0 scores [] in
      record {
        cache = record { pairs = ks; scores = scores; first_stage = first_scores qs cands };
        lines = write_run F T (ranked_run (sort_by int_before (keys run)) run) name;
        metrics = (evaluate_metrics F run qrels ms).0;
        first_stage_metrics = (evaluate_metrics F cands qrels ms).0;
        n_queries_qrels = length qrels;
        n_queries_with_candidates = length cands;
        n_pairs = length ks;
      }

  -- `rerank`, of the lines of its files; ids that are different are different numbers.
  unfoldable pub rerank :
      (Str → Str)
      → (List (Str × Str) → List Num)
      → Str
      → List Str
      → List Str
      → List Str
      → List Str
      → ℕ
      → ℕ
      → ℕ
      → List Metric
      → Result Error Reranked
  unfolding first_queries load_candidates need_of load_passages check_qids rerank_texts read_queries
      read_qrels
  rerank clip model name queries_file qrels_file run collection depth batch max_queries ms = do
    queries ← reading_of (read_queries queries_file)
    judged ← reading_of (read_qrels qrels_file)
    qids ← first_queries max_queries (select (contains (keys judged)) (keys queries))
    let qrels = judged_of max_queries qids judged
    cands ← load_candidates run qids depth
    text ← reading_of (load_passages (some (need_of cands)) collection)
    let missing = select (λ p. not (contains (keys text) p)) (need_of cands)
    guard (length missing == 0) (missing_pids (length missing))
    qs ← sorted_qids (keys cands)
    ok (rerank_texts clip model name queries qrels cands text qs batch ms)
