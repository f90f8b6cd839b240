-- ===== src/Rerank/Mine/Pools.antt =====
-- What py/hybridsearch/rerank/mine.py promises of a mined query: no judged passage in a pool, and
-- the pools within their depth.
use hybrid_search.Prelude.{
  Result-cases, ℕ, ◌+◌, ◌≤◌, ◌≡◌, refl, sym, subst, List, [], ◌∷◌, some, Result, ok, err, >>=-eq-ok,
  length, select, contains, All, Bool-cases, Option-cases, inl, inr, arith, Distinct,
}
use hybrid_search.Prelude.Text.{Str, str_eq}
use hybrid_search.Prelude.Dict.{keys, get?}
use hybrid_search.Prelude.Int.{ℤ}
use hybrid_search.Prelude.Order.{sort_by}
use hybrid_search.Prelude.Float.{Float}
use hybrid_search.Data.Files.{Qrels, ScoreText}
use hybrid_search.Rerank.Sampler.{Generator}
use hybrid_search.Rerank.Mine.{
  mine, stream_runs, int_before, no_stats, MineConfig, Vectors, mine_query, mine_loop, query_of,
  bm25_cands, dense_cands, hit_before, check_pids,
}
use hybrid_search.Rerank.Rows.{run_qids, Error, Row, Stats, random_pool}
use hybrid_search.Rerank.Mine.Filled.{Unjudged, kept_count, fill_pool_lem}
use hybrid_search.Rerank.Mine.Draws.{random_pool_lem, draws, fresh_count, random_pool_returns}

-- What is written of a query with these judgments.
pub record IsMined (qid : Str) (judged : List Str) (depth : ℕ) (before after : Stats) (row : Row)
    : Type 0 where
  pub of_query : row.qid ≡ qid
  pub bm25_unjudged : Unjudged judged row.bm25
  pub dense_unjudged : Unjudged judged row.dense
  pub random_unjudged : Unjudged judged row.random
  pub random_distinct : Distinct row.random
  pub bm25_length : length row.bm25 ≤ depth
  pub dense_length : length row.dense ≤ depth
  pub random_length : length row.random ≡ depth
  pub bm25_count : kept_count after.bm25 ≡ kept_count before.bm25 + length row.bm25
  pub dense_count : kept_count after.dense ≡ kept_count before.dense + length row.dense

module _ (F : Float) (V : Vectors F) (cfg : MineConfig F) (G : Generator)
    (fuel collection : ℕ) where
  abbrev Mined : Str → List Str → Stats → Result Error (Row × Stats × G.State) → Type 0
  Mined qid judged before (err e) = Unit
  Mined qid judged before (ok made) = IsMined qid judged cfg.pool_depth before made.1 made.0

  -- A query that is mined gets pools without passages judged for it, the BM25 and dense pools of at
  -- most `pool_depth`, the random one of `pool_depth` different passages; and the counts of kept
  -- candidates grow by the lengths of the two pools.
  pub mine_query_lem :
      (qid : Str) (docs : List (Str × ℤ)) (hits : List (Str × F.Num)) (before after : Stats)
      (rng rng' : G.State) (row : Row)
      → mine_query F V cfg G fuel collection qid docs hits before rng ≡ ok (row, after, rng')
      → IsMined qid (keys docs) cfg.pool_depth before after row
  unfolding mine_query
  mine_query_lem qid docs hits before after rng rng' row h =
      let q = query_of F V cfg qid docs hits in
      let (_, _, h₁) = >>=-eq-ok (check_pids F (keys hits)) _ h in
      let (rnd, k, h₂) =
        >>=-eq-ok (random_pool G fuel collection (keys docs) cfg.pool_depth rng) _ h₁ in
      let (u, d, l) =
        random_pool_lem G fuel collection (keys docs) cfg.pool_depth rng rnd.1 rnd.0 k in
      let b =
        fill_pool_lem F q cfg.pool_depth (bm25_cands F V cfg qid (sort_by (hit_before F) hits)) []
          before.bm25 tt (omega arith) in
      let e =
        fill_pool_lem F q cfg.pool_depth (dense_cands F V cfg hits (V.search qid)) [] before.dense
          tt (omega arith) in
      subst (Mined qid (keys docs) before) h₂ (record {
        of_query = refl;
        bm25_unjudged = b.0;
        dense_unjudged = e.0;
        random_unjudged = u;
        random_distinct = d;
        bm25_length = b.1;
        dense_length = e.1;
        random_length = l;
        bm25_count = omega (arith, b.2);
        dense_count = omega (arith, e.2);
      })

  -- If the pids of the hits are integers and the draws have `pool_depth` different new pids within
  -- the fuel, the query is mined, with these promises.
  pub mine_query_returns :
      (qid : Str) (docs : List (Str × ℤ)) (hits : List (Str × F.Num)) (before : Stats)
      (rng : G.State)
      → check_pids F (keys hits) ≡ ok tt
      → cfg.pool_depth ≤ fresh_count (keys docs) (draws G fuel collection rng)
      → (row : Row) × (after : Stats) × (rng' : G.State) × (mine_query F V cfg G fuel collection qid
            docs hits before rng
          ≡ ok (row, after, rng'))
        × IsMined qid (keys docs) cfg.pool_depth before after row
  unfolding mine_query
  mine_query_returns qid docs hits before rng checked enough =
      let (made, e) = random_pool_returns G fuel collection (keys docs) cfg.pool_depth rng enough in
      elim (Result-cases (mine_query F V cfg G fuel collection qid docs hits before rng)) [
        | inl (f, k) ↦ let k' = rw (mine_query, checked, e) at k in cc
        | inr ((row, after, rng'), k) ↦
            (row, after, rng', k, mine_query_lem qid docs hits before after rng rng' row k)
      ]

  abbrev IsMinedRow : Qrels → Row → Type 0
  IsMinedRow qrels row =
      (docs : List (Str × ℤ)) × (before : Stats) × (after : Stats) × (get? qrels row.qid
        ≡ some docs)
      × IsMined row.qid (keys docs) cfg.pool_depth before after row

  abbrev MinedRows : Qrels → Result Error (List Row × Stats × G.State) → Type 0
  MinedRows qrels (err e) = Unit
  MinedRows qrels (ok made) = All (IsMinedRow qrels) made.0

  mine_loop-MinedRows :
      (qrels : Qrels) (qids : List Str) (groups : List (Str × List (Str × F.Num))) (stats : Stats)
      (rng : G.State)
      → MinedRows qrels (mine_loop F V cfg G fuel collection qrels qids groups stats rng)
  unfolding mine_loop
  mine_loop-MinedRows qrels qids [] stats rng = tt
  mine_loop-MinedRows qrels qids ((qid, []) ∷ groups) stats rng =
      elim (Option-cases (get? qrels qid)) [
        | inl e ↦ rw (mine_loop, e) (mine_loop-MinedRows qrels qids groups stats rng)
        | inr (docs, e) ↦ elim (Bool-cases (contains qids qid)) [
          | inl b ↦ rw (mine_loop, e, b) (mine_loop-MinedRows qrels qids groups _ rng)
          | inr b ↦ rw (mine_loop, e, b) (mine_loop-MinedRows qrels qids groups stats rng)
        ]
      ]
  mine_loop-MinedRows qrels qids ((qid, hit ∷ hits) ∷ groups) stats rng =
      elim (Option-cases (get? qrels qid)) [
        | inl e ↦ rw (mine_loop, e) (mine_loop-MinedRows qrels qids groups stats rng)
        | inr (docs, e) ↦ elim (Bool-cases (contains qids qid)) [
          | inr b ↦ rw (mine_loop, e, b) (mine_loop-MinedRows qrels qids groups stats rng)
          | inl b ↦
              let all = hit ∷ hits in
              elim (Result-cases (mine_query F V cfg G fuel collection qid docs all stats rng)) [
                | inl (f, k) ↦ rw (mine_loop, e, b, k) tt
                | inr ((row, after, rng'), k) ↦
                    let is = mine_query_lem qid docs all stats after rng rng' row k in
                    let ih = mine_loop-MinedRows qrels qids groups after rng' in
                    elim (Result-cases
                      (mine_loop F V cfg G fuel collection qrels qids groups after rng')) [
                        | inl (f, l) ↦ rw (mine_loop, e, b, k, l) tt
                        | inr (rest, l) ↦
                            rw (mine_loop, e, b, k, l)
                              (
                                (
                                  docs,
                                  stats,
                                  after,
                                  rw is.of_query e,
                                  subst (λ q. IsMined q (keys docs) cfg.pool_depth stats after row)
                                      (sym is.of_query) is,
                                ),
                                subst (MinedRows qrels) l ih,
                              )
                      ]
              ]
        ]
      ]

module _ (F : Float) (S : ScoreText F) (V : Vectors F) (cfg : MineConfig F) (G : Generator)
    (fuel collection : ℕ) where
  -- Every row that `mine` returns is of a query with judgments, and keeps the promises of a mined
  -- query: its pools hold no passage judged for it, the BM25 and dense pools at most `pool_depth`
  -- passages, the random one `pool_depth` different ones, and the counts of kept candidates grow
  -- by the lengths of the pools.
  pub mine_lem :
      (queries : List Str) (qrels : Qrels) (with_vector : List Str) (files : List (List Str))
      (rng rng' : G.State) (rows : List Row) (stats : Stats)
      → mine F S V cfg G fuel collection queries qrels with_vector files rng
        ≡ ok (rows, stats, rng')
      → All (IsMinedRow F V cfg G fuel collection qrels) rows
  unfolding mine
  mine_lem queries qrels with_vector files rng rng' rows stats h =
      let (covered, _, h₁) = >>=-eq-ok (run_qids files []) _ h in
      let (_, _, h₂) = >>=-eq-ok (check_pids F queries) _ h₁ in
      let qids = select (contains covered) with_vector in
      let groups = stream_runs F S (sort_by (int_before F S) queries) files [] in
      let (made, k, h₃) =
        >>=-eq-ok (mine_loop F V cfg G fuel collection qrels qids groups.0 (no_stats F S) rng) _
          h₂ in
      elim (Option-cases groups.1) [
        | inl e ↦
            let same : made ≡ (rows, stats, rng') = (let h₄ = rw e at h₃ in cc) in
            subst (λ m. All (IsMinedRow F V cfg G fuel collection qrels) m.0) same
              (subst (MinedRows F V cfg G fuel collection qrels) k (
                mine_loop-MinedRows F V cfg G fuel collection qrels qids groups.0 (no_stats F S)
                  rng))
        | inr (failure, e) ↦ let h₄ = rw e at h₃ in cc
      ]
