-- ===== src/Fusion/Runs.antt =====
-- The runs of py/hybridsearch/fusion/runs.py: dicts from query ids to rankings. A file is the list
-- of its lines, whose scores are the numbers that the printed text stands for.
pub mod Written
pub mod Queries
use hybrid_search.Prelude.{
  ℕ, suc, List, [], ◌∷◌, ◌++◌, Option, none, some, Result, ok, err, ◌>>=◌, ◌>>◌, guard,
}
use hybrid_search.Prelude.Text.{Str, str_leb, str_eq}
use hybrid_search.Prelude.Dict.{keys, get?, get_or, put}
use hybrid_search.Prelude.Sets.{union, elements_beq}
use hybrid_search.Prelude.Order.{sort_by}
use hybrid_search.Prelude.Float.{Float}
use hybrid_search.Eval.Metrics.{rank_run}
use hybrid_search.Fusion.Core.{Ranking, zip_into}
use hybrid_search.Fusion.Printed.{Printing, run_file_scores}

pub data Error : Type 0 where
  -- The loop of `run_file_scores` was given too little fuel.
  no_fuel : Error
  -- `AssertionError` for a query
  not_reproduced : Str → Error
  key_error : Str → Error

abbrev pub or_raise {ℓ} : {A : Type ℓ} → Option A → Error → Result Error A
or_raise none e = err e
or_raise (some a) e = ok a

module _ (F : Float) where
  open F use {Num}

  abbrev pub Run : Type 0
  Run = List (Str × Ranking F)

  -- `{q: fn(lex.get(q, []), dense.get(q, [])) for q in qs}`, added to `out`.
  unfoldable pub fuse_into : (Ranking F → Ranking F → Ranking F) → Run → Run → List Str → Run → Run
  fuse_into fn lex dense [] out = out
  fuse_into fn lex dense (q ∷ qs) out =
      fuse_into fn lex dense qs (put out q (fn (get_or lex q []) (get_or dense q [])))

  -- `qids if qids is not None else sorted(set(lex) | set(dense))`
  abbrev pub fused_queries : Run → Run → Option (List Str) → List Str
  fused_queries lex dense none = sort_by str_leb (union (keys lex) (keys dense))
  fused_queries lex dense (some qids) = qids

  unfoldable pub fuse_runs :
      Run → Run → (Ranking F → Ranking F → Ranking F) → Option (List Str) → Run
  unfolding fuse_into
  fuse_runs lex dense fn qids = fuse_into fn lex dense (fused_queries lex dense qids) []

  -- A line `{q} Q0 {d} {i} {sd[d]:.15g} {tag}`.
  pub record Line : Type 0 where
    pub query : Str
    pub doc : Str
    pub rank : ℕ
    pub score : Num
    pub tag : Str

  module _ (P : Printing F) (fuel : ℕ) where
    -- The lines of one query, from rank `i`.
    unfoldable pub lines_from :
        Str → Str → List (Str × Num) → ℕ → Ranking F → Result Error (List Line)
    lines_from tag q sd i [] = ok []
    lines_from tag q sd i ((d, s) ∷ r) = do
      score ← or_raise (get? sd d) (key_error d)
      lines ← lines_from tag q sd (suc i) r
      ok (record { query = q; doc = d; rank = i; score = P.rounded score; tag = tag } ∷ lines)

    -- `for q, r in run.items()`, with `out`.
    unfoldable pub score_dicts :
        Run → List (Str × List (Str × Num)) → Result Error (List (Str × List (Str × Num)))
    unfolding zip_into
    score_dicts [] out = ok out
    score_dicts ((q, r) ∷ run) out = do
      sc ← or_raise (run_file_scores F P fuel r) no_fuel
      score_dicts run (put out q (zip_into F (keys r) sc []))

    unfoldable pub as_score_dict : Run → Result Error (List (Str × List (Str × Num)))
    unfolding score_dicts
    as_score_dict run = score_dicts run []

    -- The lines of the file, query by query.
    unfoldable pub write_queries :
        Str → List (Str × List (Str × Num)) → Run → Result Error (List Line)
    unfolding lines_from
    write_queries tag scores [] = ok []
    write_queries tag scores ((q, r) ∷ run) = do
      sd ← or_raise (get? scores q) (key_error q)
      guard (elements_beq (rank_run F sd) (keys r)) (not_reproduced q)
      lines ← lines_from tag q sd 1 r
      rest ← write_queries tag scores run
      ok (lines ++ rest)

    -- The contents of the file, and the scores.
    unfoldable pub write_run_exact :
        Run → Str → Result Error (List Line × List (Str × List (Str × Num)))
    unfolding as_score_dict write_queries
    write_run_exact run tag = do
      scores ← as_score_dict run
      lines ← write_queries tag scores run
      ok (lines, scores)
