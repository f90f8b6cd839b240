-- ===== src/Tests/Eval.antt =====
-- Runs of py/hybridsearch/eval/metrics.py and its theorems at a run of three documents.
use hybrid_search.Prelude.{ℕ, ◌≡◌, refl, List, [], ◌∷◌, take, ◌⊎◌, length, ◌+◌, ◌/◌}
use hybrid_search.Prelude.Text.{Str, codes, str_eq}
use hybrid_search.Prelude.Dict.{get_or}
use hybrid_search.Prelude.Order.{sort_by}
use hybrid_search.Prelude.Int.{ℤ, pos, negsuc}
use hybrid_search.Prelude.Float.{whole}
use hybrid_search.Eval.Metrics.{
  Metric, rr, recall, rank_run, mrr_at_k, hit_count, relevant_count, evaluate_metrics,
}
use hybrid_search.Eval.Metrics.FirstRelevant.{NoneRelevant, IsFirst, mrr_at_k_lem}
use hybrid_search.Eval.Metrics.Table.{means_of, table, evaluate_metrics-eq}

abbrev scores : List (Str × ℕ)
scores = (codes "d1", 5) ∷ (codes "d2", 9) ∷ (codes "d3", 5) ∷ []

abbrev judged : List (Str × ℤ)
judged = (codes "d1", pos 2) ∷ (codes "d9", pos 1) ∷ (codes "d2", negsuc 1) ∷ []

abbrev by_score : List Str
by_score = codes "d2" ∷ codes "d3" ∷ codes "d1" ∷ []

-- Equal scores: the greater id first.
ranked : rank_run whole scores ≡ by_score
unfolding rank_run sort_by
ranked = refl

third : mrr_at_k whole by_score judged 10 (pos 1) ≡ 1 / 3
unfolding mrr_at_k get_or
third = refl

half_found : hit_count by_score judged 10 (pos 1) ≡ 1
unfolding hit_count get_or
half_found = refl

all_relevant : relevant_count judged (pos 1) ≡ 2
unfolding relevant_count
all_relevant = refl

-- At level 0 the unjudged `d3` is a hit: there are more hits than relevant documents.
zero_level_hits : hit_count by_score ((codes "d1", pos 2) ∷ []) 10 (pos 0) ≡ 3
unfolding hit_count get_or
zero_level_hits = refl

zero_level_relevant : relevant_count ((codes "d1", pos 2) ∷ []) (pos 0) ≡ 1
unfolding relevant_count
zero_level_relevant = refl

mrr_at_k_lem_example :
    (NoneRelevant judged (pos 1) (take 10 by_score)
      × (mrr_at_k whole by_score judged 10 (pos 1) ≡ 0))
    ⊎ ((before : List Str) × (d : Str) × (after : List Str) × IsFirst judged
          (pos 1)
          (take 10 by_score)
          before
          d
          after
        × (mrr_at_k whole by_score judged 10 (pos 1) ≡ 1 / (length before + 1)))
mrr_at_k_lem_example = mrr_at_k_lem whole by_score judged 10 (pos 1)

abbrev metrics : List Metric
metrics =
    record { name = codes "RR@10"; kind = rr; k = 10; rel = pos 1 }
    ∷ record { name = codes "R@1"; kind = recall; k = 1; rel = pos 1 }
    ∷ []

abbrev run : List (Str × List (Str × ℕ))
run = (codes "q2", scores) ∷ (codes "q7", []) ∷ []

abbrev qrels : List (Str × List (Str × ℤ))
qrels = (codes "q1", []) ∷ (codes "q2", judged) ∷ []

evaluate_metrics-eq_example :
    evaluate_metrics whole run qrels metrics
    ≡ (means_of whole run metrics qrels, table whole run metrics qrels)
evaluate_metrics-eq_example =
    evaluate_metrics-eq whole run qrels metrics (refl, (refl, tt)) (refl, (refl, tt))
