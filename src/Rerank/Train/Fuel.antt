-- ===== src/Rerank/Train/Fuel.antt =====
-- The loop of py/hybridsearch/rerank/train.py counts its steps up to `max_steps`, so that its fuel
-- is enough; and what it leaves in last/.
use hybrid_search.Prelude.{
  Result-cases, ℕ-cases, ℕ, zero, suc, ◌+◌, ◌-◌, ◌*◌, ◌%◌, ◌≤◌, ◌≡◌, refl, subst, false, ◌||◌,
  Result, ok, err, ◌>>=◌, ◌==◌, ltb, inl, inr, Bool-cases, Option-cases, arith, nat_eq,
}
use hybrid_search.Prelude.Float.{Float}
use hybrid_search.Rerank.Sampler.{Generator, TextOps}
use hybrid_search.Rerank.Train.{Error, Torch, Config}
use hybrid_search.Rerank.Train.Step.{Inputs, State, Micro, micro_loop, optimizer_step}
use hybrid_search.Rerank.Train.Validation.{validate}
use hybrid_search.Rerank.Train.Loop.{
  save_last, record_eval, run_eval, is_due, write_log, eval_if_due, save_if_due, iterate,
  train_loop,
}

module _ (F : Float) (T : Torch F) (G : Generator) (ops : TextOps) (cfg : Config) (x : Inputs) where
  -- A result that keeps a step, where there is one.
  abbrev Keeps : ℕ → Result Error (State F T) → Type 0
  Keeps n (err e) = Unit
  Keeps n (ok t) = t.step ≡ n

  Keeps->>= :
      (n k : ℕ) (m : Result Error (State F T)) (f : State F T → Result Error (State F T))
      → Keeps n m
      → ((t : State F T) → t.step ≡ n → Keeps k (f t))
      → Keeps k (m >>= f)
  Keeps->>= n k (err e) f h g = tt
  Keeps->>= n k (ok t) f h g = g t h

  record_eval-step : (agg : F.Num × F.Num) (s : State F T) → (record_eval F T agg s).step ≡ s.step
  unfolding record_eval
  record_eval-step (rr, ndcg) s = elim (Bool-cases (F.less s.best rr)) [
    | inl b ↦ rw b refl
    | inr b ↦ rw b refl
  ]

  run_eval-Keeps : (s : State F T) → Keeps s.step (run_eval F T G ops cfg x s)
  unfolding run_eval
  run_eval-Keeps s = elim (Option-cases x.val) [
    | inl e ↦ rw e refl
    | inr (val, e) ↦ elim (Result-cases (validate F T s.weights val)) [
      | inl (f, k) ↦ rw (e, k) tt
      | inr (agg, k) ↦ rw (e, k) (record_eval-step agg s)
    ]
  ]

  write_log-Keeps : (loss : F.Num) (s : State F T) → Keeps s.step (write_log F T G ops cfg x loss s)
  unfolding write_log
  write_log-Keeps loss s = elim (Result-cases (is_due s.step cfg.log_every)) [
    | inl (e, k) ↦ rw k tt
    | inr (due, k) ↦ elim (Bool-cases due) [ inl d ↦ rw (k, d) refl | inr d ↦ rw (k, d) refl ]
  ]

  eval_if_due-Keeps : (s : State F T) → Keeps s.step (eval_if_due F T G ops cfg x s)
  unfolding eval_if_due
  eval_if_due-Keeps s = elim (ℕ-cases cfg.eval_every) [
    | inl e ↦ rw e refl
    | inr (n, e) ↦ elim (Bool-cases (s.step % suc n == 0)) [
      | inl b ↦ rw (e, b) (run_eval-Keeps s)
      | inr b ↦ rw (e, b) refl
    ]
  ]

  save_if_due-Keeps : (s : State F T) → Keeps s.step (save_if_due F T G ops cfg x s)
  unfolding save_if_due save_last
  save_if_due-Keeps s = elim (Result-cases (is_due s.step cfg.save_every)) [
    | inl (e, k) ↦ rw k tt
    | inr (due, k) ↦ elim (Bool-cases (due || s.step == cfg.max_steps)) [
      | inl d ↦ rw (k, d) refl
      | inr d ↦ rw (k, d) refl
    ]
  ]

  abbrev Steps : ℕ → Result Error (State F T × F.Num) → Type 0
  Steps n (err e) = Unit
  Steps n (ok r) = r.0.step ≡ n

  optimizer_step-Steps : (s : State F T) → Steps (suc s.step) (optimizer_step F T G ops cfg x s)
  unfolding optimizer_step
  optimizer_step-Steps s =
      let start : Micro F T = record {
        rng = s.rng;
        topups = s.topups;
        orders = s.orders;
        grads = T.no_grads;
        loss_acc = F.of_nat 0;
      } in
      elim (Result-cases (
        micro_loop F T G ops cfg x s.weights s.scaler cfg.grad_accum (s.step * cfg.grad_accum)
          start)) [
            | inl (e, k) ↦ rw k tt
            | inr (m, k) ↦ elim (Bool-cases (T.is_finite m.loss_acc)) [
              | inl b ↦ rw (k, b) refl
              | inr b ↦ rw (k, b) tt
            ]
          ]

  iterate-Keeps : (s : State F T) → Keeps (suc s.step) (iterate F T G ops cfg x s)
  unfolding iterate
  iterate-Keeps s = elim (Result-cases (optimizer_step F T G ops cfg x s)) [
    | inl (e, k) ↦ rw k tt
    | inr (r, k) ↦
        let at_step = subst (Steps (suc s.step)) k (optimizer_step-Steps s) in
        rw k (
          Keeps->>= (suc s.step) (suc s.step) (write_log F T G ops cfg x r.1 r.0) _
            (subst (λ n. Keeps n (write_log F T G ops cfg x r.1 r.0)) at_step
              (write_log-Keeps r.1 r.0))
            (λ t e.
              Keeps->>= (suc s.step) (suc s.step) (eval_if_due F T G ops cfg x t)
                (save_if_due F T G ops cfg x)
                (subst (λ n. Keeps n (eval_if_due F T G ops cfg x t)) e (eval_if_due-Keeps t))
                (λ u f.
                  subst (λ n. Keeps n (save_if_due F T G ops cfg x u)) f (save_if_due-Keeps u))))
  ]

  train_loop_enough :
      (n m : ℕ) (s : State F T)
      → cfg.max_steps ≤ s.step + n
      → n ≤ m
      → train_loop F T G ops cfg x m s ≡ train_loop F T G ops cfg x n s
  unfolding train_loop
  train_loop_enough zero zero s h le = refl
  train_loop_enough zero (suc m) s h le =
      let done : ltb s.step cfg.max_steps ≡ false = ground arith in rw done refl
  train_loop_enough (suc n) zero s h le = absurd (omega arith)
  train_loop_enough (suc n) (suc m) s h le = elim (Result-cases (iterate F T G ops cfg x s)) [
    | inl (e, k) ↦ rw k refl
    | inr (t, k) ↦
        let counted : t.step ≡ suc s.step = subst (Keeps (suc s.step)) k (iterate-Keeps s) in
        rw (k, train_loop_enough n m t (omega (arith, counted, h)) (omega arith)) refl
  ]

  train_loop-Keeps :
      (n : ℕ) (s : State F T)
      → s.step ≤ cfg.max_steps
      → cfg.max_steps ≤ s.step + n
      → Keeps cfg.max_steps (train_loop F T G ops cfg x n s)
  unfolding train_loop
  train_loop-Keeps zero s le h = omega arith
  train_loop-Keeps (suc n) s le h = elim (Bool-cases (ltb s.step cfg.max_steps)) [
    | inl b ↦ rw b (
        Keeps->>= (suc s.step) cfg.max_steps (iterate F T G ops cfg x s)
          (train_loop F T G ops cfg x n) (iterate-Keeps s)
          (λ t e. train_loop-Keeps n t (ground arith) (omega arith)))
    | inr b ↦ rw b (ground arith)
  ]

  -- From a state that is not past `max_steps`, fuel for the steps that are left is enough: more fuel
  -- gives the same, and a loop that returns has made exactly `max_steps` steps.
  pub train_loop_stops :
      (m : ℕ) (s : State F T)
      → s.step ≤ cfg.max_steps
      → cfg.max_steps - s.step ≤ m
      → (train_loop F T G ops cfg x m s ≡ train_loop F T G ops cfg x (cfg.max_steps - s.step) s)
        × ((t : State F T) → train_loop F T G ops cfg x m s ≡ ok t → t.step ≡ cfg.max_steps)
  train_loop_stops m s le enough = (
    train_loop_enough (cfg.max_steps - s.step) m s (omega arith) enough,
    λ t e. subst (Keeps cfg.max_steps) e (train_loop-Keeps m s le (omega arith)),
  )
