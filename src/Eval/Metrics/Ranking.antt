-- ===== src/Eval/Metrics/Ranking.antt =====
-- `rank_run` of py/hybridsearch/eval/metrics.py: the order that trec_eval gives a run.
use hybrid_search.Prelude.{◌≡◌, refl, true, false, List, arith}
use mathlib.Core.List.{Perm}
use hybrid_search.Prelude.Text.{Str, str_leb_total, str_leb_trans}
use hybrid_search.Prelude.Dict.{keys}
use hybrid_search.Prelude.Order.{IsTotalPreorder, IsSorted, sort_by, sort_by-IsSorted, sort_by-perm}
use hybrid_search.Prelude.Float.{Float}
use hybrid_search.Eval.Metrics.{ranks_before, rank_run}

module _ (F : Float) where
  open F use {Num, less, less_asymm, less_cotrans}

  ranks_before_total : (a b : Str × Num) → ranks_before F a b ≡ false → ranks_before F b a ≡ true
  unfolding ranks_before
  ranks_before_total (d, x) (e, y) h =
      ground (arith, str_leb_total e d, less_asymm x y, less_asymm y x)

  ranks_before_trans :
      (a b c : Str × Num)
      → ranks_before F a b ≡ true
      → ranks_before F b c ≡ true
      → ranks_before F a c ≡ true
  unfolding ranks_before
  ranks_before_trans (d, x) (e, y) (f, z) p q = ground (
    arith,
    str_leb_trans f e d,
    less_asymm x y,
    less_asymm y z,
    less_asymm x z,
    less_asymm y x,
    less_asymm z y,
    less_asymm z x,
    less_cotrans x y z,
    less_cotrans z y x,
    less_cotrans y x z,
    less_cotrans x z y,
    less_cotrans y z x,
    less_cotrans z x y,
  )

  pub ranks_before-IsTotalPreorder : IsTotalPreorder (ranks_before F)
  ranks_before-IsTotalPreorder = record { total = ranks_before_total; trans = ranks_before_trans }

-- `rank_run` lists the documents of some arrangement of the run's entries in which every entry
-- comes before those with a smaller score and, at the same score, before those with a smaller id.
pub rank_run-IsSorted :
    (F : Float) (scores : List (Str × F.Num))
    → (l : List (Str × F.Num)) × (rank_run F scores ≡ keys l)
      × IsSorted (ranks_before F) l
      × Perm l scores
unfolding rank_run
rank_run-IsSorted F scores = (
  sort_by (ranks_before F) scores,
  refl,
  sort_by-IsSorted (ranks_before F) (ranks_before-IsTotalPreorder F) scores,
  sort_by-perm (ranks_before F) scores,
)
