-- ===== src/Clicks/Report.antt =====
-- `analyse` of py/hybridsearch/clicks/analyze_events.py: the pages of a log by experiment, and the
-- report of each experiment.
pub mod Counts
use hybrid_search.Prelude.{
  ℕ, List, [], ◌∷◌, map, Option, none, some, Result, ok, ◌>>=◌, if◌then◌else◌, ◌==◌, length, ltb,
  nat_eq,
}
use hybrid_search.Prelude.Text.{Str, codes, str_eq, str_leb}
use hybrid_search.Prelude.Dict.{keys, get_or}
use hybrid_search.Prelude.Order.{sort_by}
use hybrid_search.Prelude.Float.{Float}
use hybrid_search.Interleave.TeamDraft as TeamDraft
use hybrid_search.Clicks.Events.Pages.{Page, click_matrix}
use hybrid_search.Clicks.Statistics.{
  Metric, metrics, Library, impression_metrics, Entry, ab_report, Interleaving, interleave_report,
  Srm, srm_check,
}
use hybrid_search.Clicks.Experiments.{
  Groups, group_pages, sessions_of, kind_of, outcomes_of, rank1_counts, arms_of, control_of,
  treatment_of,
}

module _ (F : Float) (L : Library F) where
  open F use {Num, of_nat}
  open L use {Rng, mean}

  -- An entry of `report["experiments"]`.
  pub data Experiment : Type 0 where
    -- The interleaving's report, with `rank1_a` and `rank1_n`
    by_credit : Interleaving F L → ℕ → ℕ → Experiment
    -- Pages and sessions of each arm, the check of the ratio, and the report of two arms
    by_arms :
        List (Str × (ℕ × ℕ))
        → Option (Srm F L)
        → Option (Str × Str × List (Metric × Entry F L))
        → Experiment

  abbrev pub arm_sizes : List (Str × List Page) → List Str → List (Str × (ℕ × ℕ))
  unfolding get_or
  arm_sizes arms [] = []
  arm_sizes arms (a ∷ names) =
      let pages = get_or arms a [] in
      (a, (length pages, length (sessions_of pages))) ∷ arm_sizes arms names

  abbrev pub arm_counts : List (Str × (ℕ × ℕ)) → List Num
  arm_counts [] = []
  arm_counts ((a, (pages, sessions)) ∷ sizes) = of_nat sessions ∷ arm_counts sizes

  unfoldable pub analyse_arms : List Page → ℕ → ℕ → Num → Rng → Experiment × Rng
  unfolding arms_of control_of treatment_of srm_check ab_report arm_sizes get_or click_matrix
  analyse_arms pages k n_boot threshold rng =
      let arms = arms_of pages [] in
      let names = sort_by str_leb (keys arms) in
      let ctrl = control_of names in
      let sizes = arm_sizes arms names in
      let srm =
        if ltb 1 (length names)
        then some (srm_check F L (arm_counts sizes) (map (λ a. of_nat 1) names) threshold)
        else none in
      elim (treatment_of names) [
        | none ↦ (by_arms sizes srm none, rng)
        | some trt ↦
            let (entries, rng') =
              ab_report F L (click_matrix (get_or arms ctrl []) k)
                (click_matrix (get_or arms trt []) k) n_boot metrics rng in
            (by_arms sizes srm (some (ctrl, trt, entries)), rng')
      ]

  -- The body of the loop over the experiments.
  unfoldable pub analyse_group :
      Str → List Page → ℕ → ℕ → Num → Rng → Result TeamDraft.Error (Experiment × Rng)
  unfolding outcomes_of interleave_report rank1_counts analyse_arms
  analyse_group kind pages k n_boot threshold rng =
      let credited = outcomes_of pages >>= λ o.
      let (report, rng') = interleave_report F L o n_boot rng in
      let (a, n) = rank1_counts pages 0 0 in ok (by_credit report a n, rng') in
      if kind == codes "interleave"
      then credited
      else ok (analyse_arms pages k n_boot threshold rng)

  -- `for exp_id, pgs in sorted(...)`, of the groups that have an id.
  unfoldable pub analyse_groups :
      List (Str × Str)
      → ℕ
      → ℕ
      → Num
      → List (Str × List Page)
      → Rng
      → Result TeamDraft.Error (List (Str × (Str × ℕ × Experiment)))
  unfolding kind_of analyse_group
  analyse_groups config k n_boot threshold [] rng = ok []
  analyse_groups config k n_boot threshold ((id, pages) ∷ groups) rng = do
    let kind = kind_of config id pages
    r ← analyse_group kind pages k n_boot threshold rng
    rest ← analyse_groups config k n_boot threshold groups r.1
    ok ((id, (kind, length pages, r.0)) ∷ rest)

  -- The groups of `by_exp` with an id, in the order of the ids.
  abbrev pub enrolled : Groups → List (Str × List Page)
  enrolled [] = []
  enrolled ((none, pages) ∷ groups) = enrolled groups
  enrolled ((some id, pages) ∷ groups) = (id, pages) ∷ enrolled groups

  abbrev pub not_enrolled : Groups → List Page
  not_enrolled [] = []
  not_enrolled ((none, pages) ∷ groups) = pages
  not_enrolled ((some id, pages) ∷ groups) = not_enrolled groups

  pub record Report : Type 0 where
    pub n_events : ℕ
    pub n_pages : ℕ
    pub n_sessions : ℕ
    pub data_quality : List (Str × ℕ)
    -- Their number and the means of the metrics, if `None` is in `by_exp`.
    pub outside : Option (ℕ × List Num)
    pub experiments : List (Str × (Str × ℕ × Experiment))

  abbrev pub outside_of : List Page → ℕ → Option (ℕ × List Num)
  unfolding impression_metrics click_matrix
  outside_of [] k = none
  outside_of (p ∷ pages) k = some (
    length (p ∷ pages),
    map (λ m. mean (impression_metrics F L (click_matrix (p ∷ pages) k) m)) metrics,
  )

  -- From the pages on.
  unfoldable pub analyse_pages :
      List Page
      → List (Str × ℕ)
      → ℕ
      → List (Str × Str)
      → ℕ
      → ℕ
      → Num
      → Rng
      → Result TeamDraft.Error Report
  unfolding group_pages analyse_groups outside_of
  analyse_pages pages dq n_events config k n_boot threshold rng =
      let groups = group_pages pages [] in
      let order = sort_by (λ g h. str_leb g.0 h.0) (enrolled groups) in
      analyse_groups config k n_boot threshold order rng >>= λ experiments. ok (record {
        n_events = n_events;
        n_pages = length pages;
        n_sessions = length (sessions_of pages);
        data_quality = dq;
        outside = outside_of (not_enrolled groups) k;
        experiments = experiments;
      })
