-- ===== src/Clicks/Statistics.antt =====
-- py/hybridsearch/clicks/ab.py: the metrics of pages, the tests and the reports. The distributions,
-- the resampling and the quantiles of numpy and scipy are parameters.
use hybrid_search.Prelude.{
  ℕ, zero, suc, ◌+◌, Bool, true, false, ◌&&◌, List, [], ◌∷◌, map, if◌then◌else◌, ltb, length, tally,
  nat_eq,
}
use hybrid_search.Prelude.Float.{Float, float_eq}

-- `METRICS`
pub data Metric : Type 0 where
  ctr clicks_at_1 abandonment rr_first : Metric

-- `HIGHER_IS_BETTER`
abbrev pub higher_is_better : Metric → Bool
higher_is_better ctr = true
higher_is_better clicks_at_1 = true
higher_is_better abandonment = false
higher_is_better rr_first = true

abbrev pub metrics : List Metric
metrics = ctr ∷ clicks_at_1 ∷ abandonment ∷ rr_first ∷ []

-- What `sum(1)` counts.
abbrev pub is_clicked : Bool → Bool
is_clicked b = b

-- `any(1)`
abbrev pub any_click : List Bool → Bool
any_click [] = false
any_click (b ∷ row) = if b then true else any_click row

-- `np.argmax` of a row: its first click, or 0.
abbrev pub first_click : ℕ → List Bool → ℕ
first_click i [] = 0
first_click i (b ∷ row) = let rest = first_click (suc i) row in if b then i else rest

-- `clicks[:, 0]`, of a row that is not empty.
abbrev pub first_of : List Bool → Bool
first_of [] = false
first_of (b ∷ row) = b

-- The outcome of a page: `1`, `-1` or `0`.
pub data Outcome : Type 0 where
  a_wins b_wins tied : Outcome

abbrev pub is_a : Outcome → Bool
is_a a_wins = true
is_a b_wins = false
is_a tied = false

abbrev pub is_b : Outcome → Bool
is_b a_wins = false
is_b b_wins = true
is_b tied = false

abbrev pub is_tie : Outcome → Bool
is_tie a_wins = false
is_tie b_wins = false
is_tie tied = true

pub record Library (F : Float) : Type 1 where
  pub Rng : Type 0
  pub mean : List F.Num → F.Num
  -- `var(ddof=1)`
  pub sample_var : List F.Num → F.Num
  pub nan : F.Num
  pub norm_sf : F.Num → F.Num
  -- `stats.binom.cdf(lo, n, 0.5)`
  pub binom_cdf : ℕ → ℕ → F.Num
  -- `_boot_means`, with `n_boot`
  pub boot_means : List F.Num → ℕ → Rng → List F.Num × Rng
  -- `np.quantile(x, [0.025, 0.975])`
  pub quantiles : List F.Num → F.Num × F.Num
  -- `stats.chisquare`: the statistic and the p-value
  pub chisquare : List F.Num → List F.Num → F.Num × F.Num

module _ (F : Float) (L : Library F) where
  open F use {Num, of_nat, add, sub, mul, div, sqrt, abs, less, sum}
  open L use {Rng, mean, sample_var, nan, norm_sf, binom_cdf, boot_means, quantiles, chisquare}

  abbrev pub of_bool : Bool → Num
  of_bool b = of_nat (if b then 1 else 0)

  -- The value of a metric for one page.
  unfoldable pub impression_metric : Metric → List Bool → Num
  impression_metric ctr row = of_nat (tally is_clicked row)
  impression_metric clicks_at_1 row = of_bool (first_of row)
  impression_metric abandonment row = of_bool (if any_click row then false else true)
  impression_metric rr_first row =
      if any_click row then div (of_nat 1) (of_nat (first_click 0 row + 1)) else of_nat 0

  unfoldable pub impression_metrics : List (List Bool) → Metric → List Num
  unfolding impression_metric
  impression_metrics clicks m = map (impression_metric m) clicks

  unfoldable pub welch_p : Num → Num → ℕ → Num → Num → ℕ → Num
  welch_p m1 v1 n1 m2 v2 n2 =
      let se = sqrt (add (div v1 (of_nat n1)) (div v2 (of_nat n2))) in
      let p = mul (of_nat 2) (norm_sf (abs (div (sub m2 m1) se))) in
      if less (of_nat 0) se then p else if float_eq F m1 m2 then of_nat 1 else of_nat 0

  unfoldable pub sign_test_p : ℕ → ℕ → Num
  sign_test_p wins losses =
      let lo = if ltb losses wins then losses else wins in
      let twice = mul (of_nat 2) (binom_cdf lo (wins + losses)) in
      let p = if less twice (of_nat 1) then twice else of_nat 1 in
      if ltb 0 (wins + losses) then p else of_nat 1

  unfoldable pub bootstrap_mean_ci : List Num → ℕ → Rng → (Num × Num) × Rng
  bootstrap_mean_ci [] n_boot rng = ((nan, nan), rng)
  bootstrap_mean_ci (x ∷ xs) n_boot rng =
      let (means, rng') = boot_means (x ∷ xs) n_boot rng in (quantiles means, rng')

  -- `mb - ma`
  abbrev pub differences : List Num → List Num → List Num
  differences [] ys = []
  differences (x ∷ xs) [] = []
  differences (x ∷ xs) (y ∷ ys) = sub x y ∷ differences xs ys

  unfoldable pub bootstrap_diff_ci : List Num → List Num → ℕ → Rng → (Num × Num) × Rng
  bootstrap_diff_ci [] xb n_boot rng = ((nan, nan), rng)
  bootstrap_diff_ci (x ∷ xa) [] n_boot rng = ((nan, nan), rng)
  bootstrap_diff_ci (x ∷ xa) (y ∷ xb) n_boot rng =
      let (ma, rng') = boot_means (x ∷ xa) n_boot rng in
      let (mb, rng'') = boot_means (y ∷ xb) n_boot rng' in (quantiles (differences mb ma), rng'')

  -- An entry of `out["metrics"]`.
  pub record Entry : Type 0 where
    pub a : Num
    pub b : Num
    pub delta : Num
    pub delta_ci95 : Num × Num
    pub p_welch : Num
    pub higher : Bool

  -- `float(x.mean()) if len(x) else float("nan")`
  abbrev pub mean_or_nan : List Num → Num
  mean_or_nan [] = nan
  mean_or_nan (x ∷ xs) = mean (x ∷ xs)

  abbrev pub delta_of : List Num → List Num → Num
  delta_of [] xb = nan
  delta_of (x ∷ xa) [] = nan
  delta_of (x ∷ xa) (y ∷ xb) = sub (mean (y ∷ xb)) (mean (x ∷ xa))

  abbrev pub welch_of : List Num → List Num → Num
  unfolding welch_p
  welch_of xa xb =
      if ltb 1 (length xa) && ltb 1 (length xb)
      then welch_p (mean xa) (sample_var xa) (length xa) (mean xb) (sample_var xb) (length xb)
      else nan

  -- The loop over `METRICS` of `ab_report`; `n_a` and `n_b` are the numbers of rows.
  unfoldable pub ab_report :
      List (List Bool) → List (List Bool) → ℕ → List Metric → Rng → List (Metric × Entry) × Rng
  unfolding impression_metrics bootstrap_diff_ci welch_of welch_p
  ab_report clicks_a clicks_b n_boot [] rng = ([], rng)
  ab_report clicks_a clicks_b n_boot (m ∷ ms) rng =
      let xa = impression_metrics clicks_a m in
      let xb = impression_metrics clicks_b m in
      let (ci, rng') = bootstrap_diff_ci xa xb n_boot rng in
      let (rest, rng'') = ab_report clicks_a clicks_b n_boot ms rng' in
      let entry : Entry = record {
        a = mean_or_nan xa;
        b = mean_or_nan xb;
        delta = delta_of xa xb;
        delta_ci95 = ci;
        p_welch = welch_of xa xb;
        higher = higher_is_better m;
      } in
      ((m, entry) ∷ rest, rng'')

  -- `np.clip(o, -1, 1) / 2.0`
  abbrev pub half : Outcome → Num
  half a_wins = div (of_nat 1) (of_nat 2)
  half b_wins = sub (of_nat 0) (div (of_nat 1) (of_nat 2))
  half tied = of_nat 0

  pub record Interleaving : Type 0 where
    pub impressions : ℕ
    pub wins_a : ℕ
    pub wins_b : ℕ
    pub ties : ℕ
    pub delta_ab : Num
    pub delta_ci95 : Num × Num
    pub p_sign : Num

  -- `(w + 0.5 * t) / n - 0.5 if n else float("nan")`
  abbrev pub delta_ab_of : ℕ → ℕ → ℕ → Num
  delta_ab_of w t zero = nan
  delta_ab_of w t (suc n) =
      let one_half = div (of_nat 1) (of_nat 2) in
      sub (div (add (of_nat w) (mul one_half (of_nat t))) (of_nat (suc n))) one_half

  unfoldable pub interleave_report : List Outcome → ℕ → Rng → Interleaving × Rng
  unfolding bootstrap_mean_ci sign_test_p
  interleave_report o n_boot rng =
      let w = tally is_a o in
      let l = tally is_b o in
      let t = tally is_tie o in
      let (ci, rng') = bootstrap_mean_ci (map half o) n_boot rng in
      (
        record {
          impressions = length o;
          wins_a = w;
          wins_b = l;
          ties = t;
          delta_ab = delta_ab_of w t (length o);
          delta_ci95 = ci;
          p_sign = sign_test_p w l;
        },
        rng',
      )

  pub record Srm : Type 0 where
    pub expected : List Num
    pub chi2 : Num
    pub p : Num
    pub srm : Bool

  -- `srm_check`; `threshold` is 0.0005.
  unfoldable pub srm_check : List Num → List Num → Num → Srm
  srm_check counts fractions threshold =
      let expected = map (λ x. mul (div x (sum fractions)) (sum counts)) fractions in
      let (chi2, p) = chisquare counts expected in
      record { expected = expected; chi2 = chi2; p = p; srm = less p threshold }
