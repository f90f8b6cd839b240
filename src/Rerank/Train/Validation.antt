-- ===== src/Rerank/Train/Validation.antt =====
-- `validate` and `build_val` of py/hybridsearch/rerank/train.py.
use hybrid_search.Prelude.{
  ℕ, zero, suc, ◌+◌, List, [], ◌∷◌, ◌++◌, map, none, some, Result, ok, err, ◌>>=◌, if◌then◌else◌,
  take, drop, length, get_elem?, select, contains, nat_eq,
}
use hybrid_search.Prelude.Text.{Str, codes, str_eq, str_leb}
use hybrid_search.Prelude.Dict.{keys, get_or, put}
use hybrid_search.Prelude.Int.{pos}
use hybrid_search.Prelude.Order.{sort_by}
use hybrid_search.Prelude.Float.{Float}
use hybrid_search.Eval.Metrics.{Metric, evaluate_metrics}
use hybrid_search.Data.Tables.{Table, put_entry}
use hybrid_search.Data.Files.{Qrels, ScoreText}
use hybrid_search.Rerank.Texts.{iter_run_groups}
use hybrid_search.Rerank.Train.{Error, no_item, streaming, item_or, Torch}
use hybrid_search.Rerank.Train.Step.{Val}

-- `[xs[i] for i in idx]`
unfoldable pub items {ℓ} : {A : Type ℓ} → List A → List ℕ → Result Error (List A)
items xs [] = ok []
items xs (i ∷ idx) = do x ← item_or (get_elem? xs i) no_item; rest ← items xs idx; ok (x ∷ rest)

-- `len(q) + len(p)`
abbrev pub text_lengths : List (Str × Str) → List ℕ
text_lengths [] = []
text_lengths ((q, p) ∷ pairs) = (length q + length p) ∷ text_lengths pairs

module _ (F : Float) (T : Torch F) where
  open F use {Num, of_nat}
  open T use {Weights, scores, argsort}

  -- `scores[idx] = ...`, in the array from its places to its values.
  unfoldable pub write_scores : List ℕ → List Num → List (ℕ × Num) → List (ℕ × Num)
  write_scores [] xs array = array
  write_scores (i ∷ idx) [] array = array
  write_scores (i ∷ idx) (x ∷ xs) array = write_scores idx xs (put array i x)

  -- `for s in range(0, len(order), batch)`, for as many rounds as the fuel says.
  unfoldable pub score_batches :
      Weights → List (Str × Str) → ℕ → ℕ → List ℕ → List (ℕ × Num) → Result Error (List (ℕ × Num))
  unfolding items write_scores
  score_batches weights pairs size fuel [] array = ok array
  score_batches weights pairs size zero (i ∷ order) array = ok array
  score_batches weights pairs size (suc fuel) (i ∷ order) array = do
    batch ← items pairs (take size (i ∷ order))
    score_batches weights pairs size fuel (drop size (i ∷ order))
        (write_scores (take size (i ∷ order)) (scores weights batch) array)

  -- `for (qid, pid), s in zip(keys, scores)`, from place `i`.
  unfoldable pub run_of_scores : List (Str × Str) → ℕ → List (ℕ × Num) → Table Num → Table Num
  run_of_scores [] i array run = run
  run_of_scores ((qid, pid) ∷ ks) i array run =
      run_of_scores ks (suc i) array (put_entry run qid pid (get_or array i (of_nat 0)))

  abbrev pub rr_at_10 : Metric
  rr_at_10 = record {
    name = codes "RR@10";
    kind = hybrid_search.Eval.Metrics.rr;
    k = 10;
    rel = pos 1;
  }

  abbrev pub ndcg_at_10 : Metric
  ndcg_at_10 = record {
    name = codes "nDCG@10";
    kind = hybrid_search.Eval.Metrics.ndcg;
    k = 10;
    rel = pos 1;
  }

  -- `validate`: RR@10 and nDCG@10, in batches of 128.
  unfoldable pub validate : Weights → Val → Result Error (Num × Num)
  unfolding score_batches run_of_scores
  validate weights val = do
    let order = argsort (text_lengths val.pairs)
    array ← score_batches weights val.pairs 128 (length order) order []
    let run = run_of_scores val.keys 0 array []
    let agg = (evaluate_metrics F run val.qrels (rr_at_10 ∷ ndcg_at_10 ∷ [])).0
    ok (get_or agg rr_at_10.name (of_nat 0), get_or agg ndcg_at_10.name (of_nat 0))

  -- `keys` and `need` of `build_val`, from the groups of the run.
  unfoldable pub val_keys : List Str → List (Str × List (Str × Num)) → List (Str × Str)
  val_keys want [] = []
  val_keys want ((qid, hits) ∷ groups) =
      let rest = val_keys want groups in
      if contains want qid then map (λ pid. (qid, pid)) (keys hits) ++ rest else rest

  -- `{q: qrels_all[q] for q in qids}`
  unfoldable pub qrels_of : Qrels → List Str → Qrels
  qrels_of qrels [] = []
  qrels_of qrels (q ∷ qids) = (q, get_or qrels q []) ∷ qrels_of qrels qids

  -- `sorted(q for q in queries if q in qrels_all)[:val_n]`
  abbrev pub val_qids : List (Str × Str) → Qrels → ℕ → List Str
  val_qids queries qrels val_n =
      take val_n (sort_by str_leb (select (contains (keys qrels)) (keys queries)))

  -- `build_val`, of what the files hold: `keys` and the judgments.
  unfoldable pub build_val :
      ScoreText F
      → List (Str × Str)
      → Qrels
      → List Str
      → ℕ
      → ℕ
      → Result Error (List (Str × Str) × Qrels)
  unfolding val_keys qrels_of
  build_val S queries qrels run_lines val_n val_depth = do
    let qids = val_qids queries qrels val_n
    let read = iter_run_groups F S (some val_depth) run_lines
    elim read.1 [
      | some failure ↦ err (streaming failure)
      | none ↦ ok (val_keys qids read.0, qrels_of qrels qids)
    ]
