-- ===== src/Rerank/Train/Resume.antt =====
-- Resuming in py/hybridsearch/rerank/train.py: the end of a session against the end of one that is
-- resumed from its checkpoint.
pub mod Twins
use hybrid_search.Prelude.{
  Result-cases, ℕ-cases, ℕ, zero, suc, ◌-◌, ◌%◌, ◌<◌, ◌≡◌, refl, sym, subst, true, false, ◌||◌, [],
  ◌∷◌, ◌++◌, Option, none, some, ok, err, ◌>>=◌, ◌==◌, ltb, inl, inr, Bool-cases, Option-cases, ap,
  arith, nat_eq,
}
use hybrid_search.Prelude.Float.{Float}
use hybrid_search.Rerank.Sampler.{Generator, TextOps}
use hybrid_search.Rerank.Train.{Torch, Config, Evaluated, Disk, complete}
use hybrid_search.Rerank.Train.Step.{Val, Inputs, State, optimizer_step}
use hybrid_search.Rerank.Train.Validation.{validate}
use hybrid_search.Rerank.Train.Loop.{
  checkpoint, save_last, record_eval, run_eval, is_due, write_log, eval_if_due, save_if_due,
  iterate, train_loop, is_untested, eval_untested, eval_at_zero, last_eval, first_eval, finish,
  train_from,
}
use hybrid_search.Rerank.Train.Session.{Fresh, start_state, start_from, resumed_state, train}
use hybrid_search.Rerank.Train.Batches.{Agree, Agree->>=, IsRightCache}
use hybrid_search.Rerank.Train.Resume.Twins.{
  IsTwin, written-IsTwin, SameStep, optimizer_step-SameStep,
}

module _ (F : Float) (T : Torch F) (G : Generator) (ops : TextOps) (cfg : Config) (x : Inputs) where
  abbrev Twins : State F T → State F T → Type 0
  Twins = IsTwin F T G ops x.sampler

  save_last-IsTwin : (s t : State F T) → Twins s t → Twins (save_last F T s) (save_last F T t)
  unfolding save_last
  save_last-IsTwin s t h =
      written-IsTwin F T G ops x.sampler s t s.best t.best s.history t.history s.log t.log _ _ h
        h.best h.history

  record_eval-IsTwin :
      (agg : F.Num × F.Num) (s t : State F T)
      → Twins s t
      → Twins (record_eval F T agg s) (record_eval F T agg t)
  unfolding record_eval
  record_eval-IsTwin (rr, ndcg) s t h =
      let write = written-IsTwin F T G ops x.sampler s t in
      let rec : Evaluated F T = record { step = s.step; rr = rr; ndcg = ndcg } in
      let rec' : Evaluated F T = record { step = t.step; rr = rr; ndcg = ndcg } in
      let same : s.history ++ rec ∷ [] ≡ t.history ++ rec' ∷ [] = rw (h.history, h.step) refl in
      elim (Bool-cases (F.less t.best rr)) [
        | inl b ↦
            let b' : F.less s.best rr ≡ true = rw h.best b in
            rw (b, b')
              (write rr rr (s.history ++ rec ∷ []) (t.history ++ rec' ∷ []) _ _ _ _ h refl same)
        | inr b ↦
            let b' : F.less s.best rr ≡ false = rw h.best b in
            rw (b, b')
              (write s.best t.best (s.history ++ rec ∷ []) (t.history ++ rec' ∷ []) _ _ _ _ h h.best
                same)
      ]

  run_eval-IsTwin :
      (s t : State F T)
      → Twins s t
      → Agree Twins (run_eval F T G ops cfg x s) (run_eval F T G ops cfg x t)
  unfolding run_eval
  run_eval-IsTwin s t h = elim (Option-cases x.val) [
    | inl e ↦ rw e h
    | inr (val, e) ↦ elim (Result-cases (validate F T t.weights val)) [
      | inl (f, k) ↦
          let k' : validate F T s.weights val ≡ err f = rw h.weights k in rw (e, k, k') refl
      | inr (agg, k) ↦
          let k' : validate F T s.weights val ≡ ok agg = rw h.weights k in
          rw (e, k, k') (record_eval-IsTwin agg s t h)
    ]
  ]

  write_log-IsTwin :
      (loss : F.Num) (s t : State F T)
      → Twins s t
      → Agree Twins (write_log F T G ops cfg x loss s) (write_log F T G ops cfg x loss t)
  unfolding write_log
  write_log-IsTwin loss s t h = elim (Result-cases (is_due t.step cfg.log_every)) [
    | inl (e, k) ↦ let k' : is_due s.step cfg.log_every ≡ err e = rw h.step k in rw (k, k') refl
    | inr (due, k) ↦
        let k' : is_due s.step cfg.log_every ≡ ok due = rw h.step k in
        rw (k, k')
          (elim (Bool-cases due) [
            | inl d ↦ rw d (
                written-IsTwin F T G ops x.sampler s t s.best t.best s.history t.history _ _ _ _ h
                  h.best h.history)
            | inr d ↦ rw d h
          ])
  ]

  eval_if_due-IsTwin :
      (s t : State F T)
      → Twins s t
      → Agree Twins (eval_if_due F T G ops cfg x s) (eval_if_due F T G ops cfg x t)
  unfolding eval_if_due
  eval_if_due-IsTwin s t h = elim (ℕ-cases cfg.eval_every) [
    | inl e ↦ rw e h
    | inr (n, e) ↦ elim (Bool-cases (t.step % suc n == 0)) [
      | inl b ↦
          let b' : (s.step % suc n == 0) ≡ true = rw h.step b in
          rw (e, b, b') (run_eval-IsTwin s t h)
      | inr b ↦ let b' : (s.step % suc n == 0) ≡ false = rw h.step b in rw (e, b, b') h
    ]
  ]

  save_if_due-IsTwin :
      (s t : State F T)
      → Twins s t
      → Agree Twins (save_if_due F T G ops cfg x s) (save_if_due F T G ops cfg x t)
  unfolding save_if_due
  save_if_due-IsTwin s t h = elim (Result-cases (is_due t.step cfg.save_every)) [
    | inl (e, k) ↦ let k' : is_due s.step cfg.save_every ≡ err e = rw h.step k in rw (k, k') refl
    | inr (due, k) ↦
        let k' : is_due s.step cfg.save_every ≡ ok due = rw h.step k in
        elim (Bool-cases (due || t.step == cfg.max_steps)) [
          | inl d ↦
              let d' : (due || s.step == cfg.max_steps) ≡ true = rw h.step d in
              rw (k, k', d, d') (save_last-IsTwin s t h)
          | inr d ↦
              let d' : (due || s.step == cfg.max_steps) ≡ false = rw h.step d in rw (k, k', d, d') h
        ]
  ]

  iterate-IsTwin :
      (s t : State F T)
      → Twins s t
      → Agree Twins (iterate F T G ops cfg x s) (iterate F T G ops cfg x t)
  unfolding iterate
  iterate-IsTwin s t h =
      Agree->>= (SameStep F T G ops x cfg) Twins (optimizer_step F T G ops cfg x s)
        (optimizer_step F T G ops cfg x t) _ _ (optimizer_step-SameStep F T G ops x cfg s t h)
        (λ a b e.
          Agree->>= Twins Twins (write_log F T G ops cfg x a.1 a.0)
            (write_log F T G ops cfg x b.1 b.0) _ _ (rw e.1 (write_log-IsTwin b.1 a.0 b.0 e.0))
            (λ c d f.
              Agree->>= Twins Twins (eval_if_due F T G ops cfg x c) (eval_if_due F T G ops cfg x d)
                (save_if_due F T G ops cfg x) (save_if_due F T G ops cfg x)
                (eval_if_due-IsTwin c d f) save_if_due-IsTwin))

  train_loop-IsTwin :
      (fuel : ℕ) (s t : State F T)
      → Twins s t
      → Agree Twins (train_loop F T G ops cfg x fuel s) (train_loop F T G ops cfg x fuel t)
  unfolding train_loop
  train_loop-IsTwin zero s t h = h
  train_loop-IsTwin (suc fuel) s t h = elim (Bool-cases (ltb t.step cfg.max_steps)) [
    | inl b ↦
        let b' : ltb s.step cfg.max_steps ≡ true = rw h.step b in
        rw (b, b')
          (Agree->>= Twins Twins (iterate F T G ops cfg x s) (iterate F T G ops cfg x t)
            (train_loop F T G ops cfg x fuel) (train_loop F T G ops cfg x fuel)
            (iterate-IsTwin s t h) (train_loop-IsTwin fuel))
    | inr b ↦ let b' : ltb s.step cfg.max_steps ≡ false = rw h.step b in rw (b, b') h
  ]

  eval_untested-IsTwin :
      (val : Option Val) (s t : State F T)
      → Twins s t
      → Agree Twins (eval_untested F T G ops cfg x val s) (eval_untested F T G ops cfg x val t)
  eval_untested-IsTwin none s t h = h
  eval_untested-IsTwin (some val) s t h =
      elim (Bool-cases (is_untested F T G ops cfg x t.step t.history)) [
        | inl b ↦
            let b' : is_untested F T G ops cfg x s.step s.history ≡ true =
              rw (h.step, h.history) b in
            rw (b, b')
              (Agree->>= Twins Twins (run_eval F T G ops cfg x s) (run_eval F T G ops cfg x t)
                (λ u. ok (save_last F T u)) (λ u. ok (save_last F T u)) (run_eval-IsTwin s t h)
                save_last-IsTwin)
        | inr b ↦
            let b' : is_untested F T G ops cfg x s.step s.history ≡ false =
              rw (h.step, h.history) b in
            rw (b, b') h
      ]

  finish-IsTwin :
      (s t : State F T)
      → Twins s t
      → Agree Twins (finish F T G ops cfg x s) (finish F T G ops cfg x t)
  unfolding finish last_eval
  finish-IsTwin s t h =
      Agree->>= Twins Twins (train_loop F T G ops cfg x (cfg.max_steps - s.step) s)
        (train_loop F T G ops cfg x (cfg.max_steps - t.step) t) (last_eval F T G ops cfg x)
        (last_eval F T G ops cfg x)
        (subst
          (λ k.
            Agree Twins (train_loop F T G ops cfg x (cfg.max_steps - k) s)
              (train_loop F T G ops cfg x (cfg.max_steps - t.step) t))
          (sym h.step) (train_loop-IsTwin (cfg.max_steps - t.step) s t h))
        (λ a b e. eval_untested-IsTwin x.val a b e)

  eval_at_zero-past : (k : ℕ) (s : State F T) → 0 < k → eval_at_zero F T G ops cfg x k s ≡ ok s
  eval_at_zero-past zero s h = absurd (omega (arith, h))
  eval_at_zero-past (suc k) s h = refl

  -- Take the state of a session without a scaler, with a right cache, that is past step 0, and a disk
  -- whose directory last holds its checkpoint. The rest of the session and a session resumed from
  -- that disk, on the same data, both raise the same exception, or both return, with the same
  -- weights, optimiser, schedule, generators, steps, best value and history.
  pub train-resume :
      (s : State F T) (new : Fresh F T) (disk : Disk F T)
      → s.scaler ≡ none
      → new.scaler ≡ none
      → IsRightCache G ops x.sampler s.orders
      → 0 < s.step
      → disk.last ≡ complete (checkpoint F T s)
      → Agree Twins (finish F T G ops cfg x s) (train F T G ops cfg x true new disk)
  unfolding train start_state train_from first_eval
  train-resume s new disk p q w past saved =
      let t = resumed_state F T new (checkpoint F T s) disk in
      subst (λ start. Agree Twins (finish F T G ops cfg x s) (train_from F T G ops cfg x start))
        (sym (ap (λ last. start_from F T last new disk) saved))
        (subst
          (λ tested. Agree Twins (finish F T G ops cfg x s) (tested >>= finish F T G ops cfg x))
          (sym (eval_at_zero-past t.step t past))
          (finish-IsTwin s t (record {
            weights = refl;
            optimizer = refl;
            scheduler = refl;
            no_scaler = p;
            no_scaler' = q;
            rng = refl;
            step = refl;
            best = refl;
            history = refl;
            cache = w;
            cache' = (tt, omega arith);
          })))
