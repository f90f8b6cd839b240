-- ===== src/Rerank/Train/Loop.antt =====
-- The main loop of `train`, py/hybridsearch/rerank/train.py: evaluation, checkpoints, the log, and
-- the summary. Times, rates and loads are left out of the records.
use hybrid_search.Prelude.{
  ℕ, zero, suc, ◌+◌, ◌-◌, ◌*◌, ◌%◌, Bool, true, ◌||◌, not, List, [], ◌∷◌, ◌++◌, Option, none, some,
  Result, ok, err, ◌>>=◌, ◌==◌, if◌then◌else◌, ltb, length, nat_eq,
}
use hybrid_search.Prelude.Float.{Float}
use hybrid_search.Rerank.Sampler.{Generator, TextOps}
use hybrid_search.Rerank.Train.{
  Error, zero_division, Torch, Config, Evaluated, evaluated, logged, Checkpoint, save_effects,
  best_effects, run_effects,
}
use hybrid_search.Rerank.Train.Step.{Val, Inputs, State, optimizer_step}
use hybrid_search.Rerank.Train.Validation.{validate}

-- `step % every == 0`
unfoldable pub is_due : ℕ → ℕ → Result Error Bool
is_due step zero = err zero_division
is_due step (suc n) = ok (step % suc n == 0)

module _ (F : Float) (T : Torch F) where
  open F use {Num, less}
  open T use {last_lr}

  -- What `save_last` saves. (Its configuration and its training time are not read again.)
  abbrev pub checkpoint : State F T → Checkpoint F T
  checkpoint s = record {
    weights = s.weights;
    optimizer = s.optimizer;
    scheduler = s.scheduler;
    step = s.step;
    best = s.best;
    history = s.history;
    rng = s.rng;
  }

  -- `save_last`
  unfoldable pub save_last : State F T → State F T
  save_last s = record s { disk = run_effects F T (save_effects F T (checkpoint s)) s.disk }

  -- What `run_eval` does with the result of `validate`.
  unfoldable pub record_eval : Num × Num → State F T → State F T
  record_eval (rr, ndcg) s =
      let rec : Evaluated F T = record { step = s.step; rr = rr; ndcg = ndcg } in
      let noted = record s { history = s.history ++ rec ∷ []; log = s.log ++ evaluated rec ∷ [] } in
      if less s.best rr
      then record noted {
        best = rr;
        disk = run_effects F T (best_effects F T (s.weights, rec)) s.disk;
      }
      else noted

  module _ (G : Generator) (ops : TextOps) (cfg : Config) (x : Inputs) where
    -- `run_eval`
    unfoldable pub run_eval : State F T → Result Error (State F T)
    unfolding record_eval validate
    run_eval s = elim x.val [
      | none ↦ ok s
      | some val ↦ (validate F T s.weights val >>= λ agg. ok (record_eval agg s))
    ]

    -- `if step % cfg.log_every == 0: ...`
    unfoldable pub write_log : Num → State F T → Result Error (State F T)
    unfolding is_due
    write_log loss s = do
      due ← is_due s.step cfg.log_every
      ok (
          if due
          then record s { log = s.log ++ logged s.step loss (last_lr s.scheduler) s.topups ∷ [] }
          else s)

    -- `if cfg.eval_every and step % cfg.eval_every == 0: ...`
    unfoldable pub eval_if_due : State F T → Result Error (State F T)
    unfolding run_eval
    eval_if_due s = elim cfg.eval_every [
      | zero ↦ ok s
      | suc n ↦ if s.step % suc n == 0 then run_eval s else ok s
    ]

    -- `if step % cfg.save_every == 0 or step == cfg.max_steps: ...`
    unfoldable pub save_if_due : State F T → Result Error (State F T)
    unfolding save_last is_due
    save_if_due s = do
      due ← is_due s.step cfg.save_every
      ok (if due || s.step == cfg.max_steps then save_last s else s)

    -- The loop's body.
    unfoldable pub iterate : State F T → Result Error (State F T)
    unfolding optimizer_step write_log eval_if_due save_if_due
    iterate s = do
      stepped ← optimizer_step F T G ops cfg x s
      written ← write_log stepped.1 stepped.0
      tested ← eval_if_due written
      save_if_due tested

    -- `while step < cfg.max_steps`, for at most `fuel` rounds.
    unfoldable pub train_loop : ℕ → State F T → Result Error (State F T)
    unfolding iterate
    train_loop zero s = ok s
    train_loop (suc fuel) s =
        let round = iterate s >>= λ next. train_loop fuel next in
        if ltb s.step cfg.max_steps then round else ok s

    -- `not history or history[-1]["step"] != step`
    abbrev pub is_untested : ℕ → List (Evaluated F T) → Bool
    is_untested step [] = true
    is_untested step (rec ∷ []) = not (rec.step == step)
    is_untested step (rec ∷ next ∷ history) = is_untested step (next ∷ history)

    -- The evaluation after the loop.
    abbrev pub eval_untested : Option Val → State F T → Result Error (State F T)
    eval_untested none s = ok s
    eval_untested (some val) s =
        if is_untested s.step s.history then (run_eval s >>= λ t. ok (save_last t)) else ok s

    unfoldable pub last_eval : State F T → Result Error (State F T)
    unfolding run_eval save_last
    last_eval s = eval_untested x.val s

    -- The fields of `summary` that the training decides.
    pub record Summary : Type 0 where
      pub steps : ℕ
      pub groups_seen : ℕ
      pub pairs_seen : ℕ
      pub unique_train_queries : ℕ
      pub best_val : Num
      pub history : List (Evaluated F T)
      pub negative_topups : ℕ

    unfoldable pub summary_of : State F T → Summary
    summary_of s =
        let groups = s.step * cfg.grad_accum * cfg.batch_groups in
        record {
          steps = s.step;
          groups_seen = groups;
          pairs_seen = groups * (1 + cfg.n_neg);
          unique_train_queries = length x.sampler.mined;
          best_val = s.best;
          history = s.history;
          negative_topups = s.topups;
        }

    -- What follows the start: the evaluation at step 0, the loop, the last evaluation.
    abbrev pub eval_at_zero : ℕ → State F T → Result Error (State F T)
    eval_at_zero zero s = run_eval s
    eval_at_zero (suc n) s = ok s

    unfoldable pub first_eval : State F T → Result Error (State F T)
    unfolding run_eval
    first_eval s = eval_at_zero s.step s

    unfoldable pub finish : State F T → Result Error (State F T)
    unfolding train_loop last_eval
    finish s = do looped ← train_loop (cfg.max_steps - s.step) s; last_eval looped

    unfoldable pub train_from : State F T → Result Error (State F T)
    unfolding first_eval finish
    train_from s = do tested ← first_eval s; finish tested
