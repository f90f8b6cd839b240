-- ===== src/Fusion/Printed.antt =====
-- `run_file_scores` of py/hybridsearch/fusion/core.py: scores to print in a run file.
pub mod Descending
use hybrid_search.Prelude.{ℕ, zero, suc, List, [], ◌∷◌, Option, none, some, and_then, if◌then◌else◌}
use hybrid_search.Prelude.Float.{Float}
use hybrid_search.Fusion.Core.{Ranking}

-- What the function takes from the interpreter, for one number of digits.
pub record Printing (F : Float) : Type 0 where
  -- `math.inf`
  pub inf : F.Num
  -- `1e-300`
  pub tiny : F.Num
  -- `10.0 ** (1 - digits)`
  pub unit : F.Num
  -- `float(f"{v:.{digits}g}")`
  pub rounded : F.Num → F.Num

module _ (F : Float) (P : Printing F) where
  open F use {Num, of_nat, sub, mul, less, abs}
  open P use {inf, tiny, unit, rounded}

  -- `max(abs(prev_printed), 1e-300) * 10.0 ** (1 - digits)`
  abbrev pub step_below : Num → Num
  step_below prev = mul (if less (abs prev) tiny then tiny else abs prev) unit

  -- `while v >= prev_printed: ...`, on fuel.
  unfoldable pub lower : ℕ → Num → Num → Num → Option Num
  lower zero prev step v = if less v prev then some v else none
  lower (suc fuel) prev step v =
      let step' = mul step (of_nat 2) in
      let rest = lower fuel prev step' (rounded (sub prev step')) in
      if less v prev then some v else rest

  -- The value that the body of the loop appends for the score `s`.
  unfoldable pub printed_below : ℕ → Num → Num → Option Num
  unfolding lower
  printed_below fuel prev s =
      if less (rounded s) prev
      then some (rounded s)
      else lower fuel prev (step_below prev) (rounded (sub prev (step_below prev)))

  -- `for _, s in r`, with `prev_printed`; `none` means that the fuel ran out.
  unfoldable pub scores_below : ℕ → Num → Ranking F → Option (List Num)
  unfolding printed_below
  scores_below fuel prev [] = some []
  scores_below fuel prev ((d, s) ∷ r) =
      and_then (printed_below fuel prev s)
        (λ v. let rest = scores_below fuel v r in and_then rest (λ vs. some (v ∷ vs)))

  unfoldable pub run_file_scores : ℕ → Ranking F → Option (List Num)
  unfolding scores_below
  run_file_scores fuel r = scores_below fuel inf r
