-- ===== src/Rerank/Mine.antt =====
-- Mining negatives, py/hybridsearch/rerank/mine.py: the filters, the pools and the loop over the
-- queries. The vectors' scores and the exact search are parameters.
pub mod Filled
pub mod Draws
pub mod Pools
use hybrid_search.Prelude.{
  ℕ, suc, Bool, true, false, ◌&&◌, not, List, [], ◌∷◌, ◌++◌, Option, none, some, Result, ok, err,
  ◌>>=◌, ◌>>◌, if◌then◌else◌, leb, length, select, contains, nat_eq,
}
use hybrid_search.Prelude.Text.{Str, str_eq, str_leb}
use hybrid_search.Prelude.Decimal.{show_nat}
use hybrid_search.Prelude.Dict.{keys, values, get?}
use hybrid_search.Prelude.Int.{ℤ, pos, leb_ℤ}
use hybrid_search.Prelude.Order.{sort_by}
use hybrid_search.Prelude.Float.{Float, min_from, max_from}
use hybrid_search.Data.Words.{parse_int}
use hybrid_search.Data.Files.{Qrels, ScoreText}
use hybrid_search.Rerank.Sampler.{Generator}
use hybrid_search.Rerank.Texts.{Stream, iter_run_groups}
use hybrid_search.Rerank.Rows.{
  Error, run_qids, random_pool, Counts, Stats, Row, streaming, bad_number,
}

module _ (F : Float) where
  open F use {Num, of_nat, sub, mul, abs, less}

  pub record MineConfig : Type 0 where
    pub pool_depth : ℕ
    pub dense_margin : Num
    pub bm25_rel_margin : Num

  -- `x >= y`
  abbrev pub at_least : Num → Num → Bool
  at_least x y = not (less x y)

  -- `false_negative`: true to drop, false to keep, none if a score is missing.
  unfoldable pub false_negative :
      Option Num → Option Num → Option Num → Option Num → Num → Num → Option Bool
  false_negative (some s_d_neg) (some s_d_pos) (some s_b_neg) (some s_b_pos_ub) dense_margin rel =
      some (
        at_least (sub s_d_neg s_d_pos) dense_margin
        && at_least (sub s_b_neg s_b_pos_ub) (mul rel (abs s_b_pos_ub)))
  false_negative (some s_d_neg) (some s_d_pos) (some s_b_neg) none dense_margin rel = none
  false_negative (some s_d_neg) (some s_d_pos) none s_b_pos_ub dense_margin rel = none
  false_negative (some s_d_neg) none s_b_neg s_b_pos_ub dense_margin rel = none
  false_negative none s_d_pos s_b_neg s_b_pos_ub dense_margin rel = none

  -- What `keep` reads: the query's judged pids, its positives' scores and the margins.
  pub record Query : Type 0 where
    pub judged : List Str
    pub s_d_pos : Option Num
    pub s_b_pos_ub : Option Num
    pub dense_margin : Num
    pub bm25_rel_margin : Num

  -- `keep`: whether to keep the candidate, and the counts.
  unfoldable pub keep : Query → Str → Option Num → Option Num → Counts → Bool × Counts
  unfolding false_negative
  keep q pid s_d s_b c =
      if contains q.judged pid
      then (false, record c { leak_removed = suc c.leak_removed })
      else elim (false_negative s_d q.s_d_pos s_b q.s_b_pos_ub q.dense_margin q.bm25_rel_margin) [
        | none ↦ (true, record c { unverifiable = suc c.unverifiable })
        | some true ↦ (false, record c { fn_dropped = suc c.fn_dropped })
        | some false ↦ (true, record c { verified_kept = suc c.verified_kept })
      ]

  -- The loops that fill `bm25_pool` and `dense_pool`: candidates with their dense and BM25 scores.
  unfoldable pub fill_pool :
      Query → ℕ → List (Str × Option Num × Option Num) → List Str → Counts → List Str × Counts
  unfolding keep
  fill_pool q depth [] pool c = (pool, c)
  fill_pool q depth ((pid, s_d, s_b) ∷ cands) pool c =
      let kept = keep q pid s_d s_b c in
      let rest = fill_pool q depth cands (if kept.0 then pool ++ pid ∷ [] else pool) kept.1 in
      if leb depth (length pool) then (pool, c) else rest

  -- `int(pid)`, for hits whose pids are checked.
  abbrev pub int_or_zero : Str → ℤ
  int_or_zero pid = elim (parse_int pid) [ none ↦ pos 0 | some z ↦ z ]

  unfoldable pub check_pids : List Str → Result Error (Unit {0})
  check_pids [] = ok tt
  check_pids (pid ∷ pids) = elim (parse_int pid) [
    | none ↦ err (bad_number pid)
    | some z ↦ check_pids pids
  ]

  -- The order of `(-x[1], int(x[0]))`.
  abbrev pub hit_before : Str × Num → Str × Num → Bool
  hit_before (d, x) (e, y) =
      if less y x then true else if less x y then false else leb_ℤ (int_or_zero d) (int_or_zero e)

  -- `[xs[p] for p in pos if p in xs]`
  unfoldable pub scores_of : List (Str × Num) → List Str → List Num
  scores_of hits [] = []
  scores_of hits (p ∷ ps) =
      let rest = scores_of hits ps in elim (get? hits p) [ none ↦ rest | some s ↦ s ∷ rest ]

  abbrev pub max_or_none : List Num → Option Num
  max_or_none [] = none
  max_or_none (x ∷ xs) = some (max_from F x xs)

  abbrev pub min_or_none : List Num → Option Num
  min_or_none [] = none
  min_or_none (x ∷ xs) = some (min_from F x xs)

  -- `max(pos_b) if pos_b else (min(hits.values()) if hits else None)`
  abbrev pub upper_bound : List Num → List Num → Option Num
  upper_bound [] scores = min_or_none scores
  upper_bound (x ∷ xs) scores = max_or_none (x ∷ xs)

  -- The vectors: the score of a query's vector with a passage's, for passages of the subset; the
  -- scores of the encoded positives; and the exact search, by query.
  pub record Vectors : Type 0 where
    pub dense_score : Str → Str → Option Num
    pub pos_scores : Str → List (Str × Num)
    pub search : Str → List (ℕ × Num)

  abbrev pub positives_of : List (Str × ℤ) → List Str
  positives_of [] = []
  positives_of ((d, g) ∷ docs) =
      let rest = positives_of docs in if leb_ℤ (pos 1) g then d ∷ rest else rest

  module _ (V : Vectors) (cfg : MineConfig) where
    abbrev pub query_of : Str → List (Str × ℤ) → List (Str × Num) → Query
    query_of qid docs hits =
        let ps = sort_by str_leb (positives_of docs) in
        record {
          judged = keys docs;
          s_d_pos = max_or_none (scores_of (V.pos_scores qid) ps);
          s_b_pos_ub = upper_bound (scores_of hits ps) (values hits);
          dense_margin = cfg.dense_margin;
          bm25_rel_margin = cfg.bm25_rel_margin;
        }

    abbrev pub bm25_cands : Str → List (Str × Num) → List (Str × Option Num × Option Num)
    bm25_cands qid [] = []
    bm25_cands qid ((pid, s) ∷ hits) = (pid, V.dense_score qid pid, some s) ∷ bm25_cands qid hits

    abbrev pub dense_cands :
        List (Str × Num) → List (ℕ × Num) → List (Str × Option Num × Option Num)
    dense_cands hits [] = []
    dense_cands hits ((pid, s) ∷ found) =
        (show_nat pid, some s, get? hits (show_nat pid)) ∷ dense_cands hits found

    module _ (G : Generator) (fuel collection : ℕ) where
      -- The loop's body, for a query with hits.
      unfoldable pub mine_query :
          Str
          → List (Str × ℤ)
          → List (Str × Num)
          → Stats
          → G.State
          → Result Error (Row × Stats × G.State)
      unfolding fill_pool check_pids scores_of random_pool
      mine_query qid docs hits stats rng = do
        let ps = sort_by str_leb (positives_of docs)
        let q = query_of qid docs hits
        check_pids (keys hits)
        let bm25 =
            fill_pool q cfg.pool_depth (bm25_cands qid (sort_by hit_before hits)) [] stats.bm25
        let dense = fill_pool q cfg.pool_depth (dense_cands hits (V.search qid)) [] stats.dense
        rnd ← random_pool G fuel collection q.judged cfg.pool_depth rng
        ok (
          record { qid = qid; positives = ps; bm25 = bm25.0; dense = dense.0; random = rnd.0 },
          record {
            queries = suc stats.queries;
            no_bm25_hits = stats.no_bm25_hits;
            pos_in_bm25_top1000 = elim (scores_of hits ps) [
              | [] ↦ stats.pos_in_bm25_top1000
              | x ∷ xs ↦ suc stats.pos_in_bm25_top1000
            ];
            bm25 = bm25.1;
            dense = dense.1;
          },
          rnd.1,
        )

      -- The loop of `mine` over the groups: queries with judgments and a vector.
      unfoldable pub mine_loop :
          Qrels
          → List Str
          → List (Str × List (Str × Num))
          → Stats
          → G.State
          → Result Error (List Row × Stats × G.State)
      unfolding mine_query
      mine_loop qrels qids [] stats rng = ok ([], stats, rng)
      mine_loop qrels qids ((qid, hits) ∷ groups) stats rng = elim (get? qrels qid) [
        | none ↦ mine_loop qrels qids groups stats rng
        | some docs ↦
            let skip = mine_loop qrels qids groups stats rng in
            let unlisted =
              mine_loop qrels qids groups (record stats { no_bm25_hits = suc stats.no_bm25_hits })
                rng in
            let listed = mine_query qid docs hits stats rng >>= λ made.
            mine_loop qrels qids groups made.1 made.2 >>= λ rest.
            ok (made.0 ∷ rest.0, rest.1, rest.2) in
            if contains qids qid then elim hits [ [] ↦ unlisted | h ∷ hs ↦ listed ] else skip
      ]

-- `gen` of `dict_or_stream`: the groups of the runs in turn, without repeats, with `done`.
unfoldable pub wanted_groups {ℓ} :
    {V : Type ℓ} → List Str → List Str → List (Str × List V) → List (Str × List V) × List Str
wanted_groups want done [] = ([], done)
wanted_groups want done ((qid, hits) ∷ groups) =
    let rest = wanted_groups want (qid ∷ done) groups in
    let skip = wanted_groups want done groups in
    if contains want qid && not (contains done qid) then ((qid, hits) ∷ rest.0, rest.1) else skip

-- `for qid in qids: if qid not in done: yield qid, {}`
unfoldable pub empty_groups {ℓ} : {V : Type ℓ} → List Str → List Str → List (Str × List V)
empty_groups done [] = []
empty_groups done (qid ∷ qids) =
    let rest = empty_groups done qids in if contains done qid then rest else (qid, []) ∷ rest

module _ (F : Float) (S : ScoreText F) where
  open F use {Num}

  -- `dict_or_stream`, of the lines of the runs.
  unfoldable pub stream_runs : List Str → List (List Str) → List Str → Stream F S
  unfolding wanted_groups empty_groups
  stream_runs qids [] done = (empty_groups done qids, none)
  stream_runs qids (lines ∷ files) done =
      let read = iter_run_groups F S none lines in
      let some_groups = wanted_groups qids done read.0 in
      let rest = stream_runs qids files some_groups.1 in
      elim read.1 [
        | some failure ↦ (some_groups.0, some failure)
        | none ↦ (some_groups.0 ++ rest.0, rest.1)
      ]

  abbrev pub int_before : Str → Str → Bool
  int_before p q = leb_ℤ (int_or_zero F p) (int_or_zero F q)

  abbrev pub no_counts : Counts
  no_counts = record { leak_removed = 0; fn_dropped = 0; unverifiable = 0; verified_kept = 0 }

  -- `stats = {k: 0 for k in ...}`
  abbrev pub no_stats : Stats
  no_stats = record {
    queries = 0;
    no_bm25_hits = 0;
    pos_in_bm25_top1000 = 0;
    bm25 = no_counts;
    dense = no_counts;
  }

  -- `mine`: the rows and the counts, of the queries' ids, the judgments, the ids with a vector and
  -- the lines of the runs.
  unfoldable pub mine :
      Vectors F
      → MineConfig F
      → (G : Generator) → ℕ
      → ℕ
      → List Str
      → Qrels
      → List Str
      → List (List Str)
      → G.State
      → Result Error (List Row × Stats × G.State)
  unfolding run_qids stream_runs mine_loop check_pids
  mine V cfg G fuel collection queries qrels with_vector files rng = do
    covered ← run_qids files []
    let qids = select (contains covered) with_vector
    check_pids F queries
    let groups = stream_runs (sort_by int_before queries) files []
    made ← mine_loop F V cfg G fuel collection qrels qids groups.0 no_stats rng
    elim groups.1 [ none ↦ ok made | some failure ↦ err (streaming failure) ]
