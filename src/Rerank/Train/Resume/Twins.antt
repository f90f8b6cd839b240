-- ===== src/Rerank/Train/Resume/Twins.antt =====
-- One step of the optimiser in py/hybridsearch/rerank/train.py, in two sessions whose samplers have
-- different caches and counts.
use hybrid_search.Prelude.{
  Result-cases, ℕ, zero, suc, ◌+◌, ◌*◌, ◌≡◌, refl, List, Option, none, Result, ok, err, ◌>>=◌, inl,
  inr, Bool-cases, if◌then◌else◌, ap,
}
use hybrid_search.Prelude.Float.{Float}
use hybrid_search.Rerank.Sampler.{Generator, TextOps, GroupSampler}
use hybrid_search.Rerank.Sampler.Batch.{Orders, Group, batch}
use hybrid_search.Rerank.Train.{
  Error, sampling, non_finite, raised, Torch, Config, Evaluated, Entry, Disk, group_loss,
}
use hybrid_search.Rerank.Train.Step.{
  Inputs, State, Micro, batch_texts, micro_step, micro_loop, optimizer_step, backward_scaled,
}
use hybrid_search.Rerank.Train.Batches.{Agree, Agree->>=, IsRightCache, SameBatch, batch-SameBatch}

raised-Agree {ℓ κ} :
    {E : Type 0} {A : Type ℓ} {B : Type κ} (name : E → Error) (R : A → B → Type 0) (m : Result E A)
    (n : Result E B)
    → Agree R m n
    → Agree R (raised name m) (raised name n)
raised-Agree name R (err e) (err e') h = ap name h
raised-Agree name R (err e) (ok b) h = h
raised-Agree name R (ok a) (err e) h = h
raised-Agree name R (ok a) (ok b) h = h

module _ (F : Float) (T : Torch F) (G : Generator) (ops : TextOps) (g : GroupSampler) where
  -- Equal in all that the training depends on, without a scaler, and with right caches.
  pub record IsTwin (s t : State F T) : Type 0 where
    pub weights : s.weights ≡ t.weights
    pub optimizer : s.optimizer ≡ t.optimizer
    pub scheduler : s.scheduler ≡ t.scheduler
    pub no_scaler : s.scaler ≡ none
    pub no_scaler' : t.scaler ≡ none
    pub rng : s.rng ≡ t.rng
    pub step : s.step ≡ t.step
    pub best : s.best ≡ t.best
    pub history : s.history ≡ t.history
    pub cache : IsRightCache G ops g s.orders
    pub cache' : IsRightCache G ops g t.orders

  -- They remain so if the best value, the history, the log and the disk are written.
  pub written-IsTwin :
      (s t : State F T) (best best' : F.Num) (history history' : List (Evaluated F T))
      (log log' : List (Entry F T)) (disk disk' : Disk F T)
      → IsTwin s t
      → best ≡ best'
      → history ≡ history'
      → IsTwin
          (record s { best = best; history = history; log = log; disk = disk })
          (record t { best = best'; history = history'; log = log'; disk = disk' })
  written-IsTwin s t best best' history history' log log' disk disk' h b hs = record {
    weights = h.weights;
    optimizer = h.optimizer;
    scheduler = h.scheduler;
    no_scaler = h.no_scaler;
    no_scaler' = h.no_scaler';
    rng = h.rng;
    step = h.step;
    best = b;
    history = hs;
    cache = h.cache;
    cache' = h.cache';
  }

module _ (F : Float) (T : Torch F) (G : Generator) (ops : TextOps) (x : Inputs) where
  abbrev Twin : State F T → State F T → Type 0
  Twin = IsTwin F T G ops x.sampler

  abbrev SameMicro : Micro F T → Micro F T → Type 0
  SameMicro m n =
      (m.rng ≡ n.rng)
      × (m.grads ≡ n.grads)
      × (m.loss_acc ≡ n.loss_acc)
      × IsRightCache G ops x.sampler m.orders
      × IsRightCache G ops x.sampler n.orders

  module _ (cfg : Config) where
    micro_step-SameMicro :
        (w : T.Weights) (p : Option T.Scaler) (a b : List Group × ℕ × Orders) (m n : Micro F T)
        → SameBatch G ops x.sampler a b
        → SameMicro m n
        → Agree SameMicro (micro_step F T G ops cfg x w p a m) (micro_step F T G ops cfg x w p b n)
    unfolding micro_step
    micro_step-SameMicro w p (groups, t, os) (groups', u, ot) m n (same, wa, wb) (r, g, l, _, _) =
        elim (Result-cases (batch_texts x groups')) [
          | inl (e, h) ↦ rw (same, h) refl
          | inr (texts, h) ↦
              let out = T.forward w n.rng texts in
              elim (Result-cases (group_loss F T out.0 (1 + cfg.n_neg) cfg.loss)) [
                | inl (e, k) ↦ rw (same, h, r, k) refl
                | inr (whole, k) ↦
                    rw (same, h, r, k)
                      (
                        refl,
                        ap (backward_scaled F T p (T.divide whole cfg.grad_accum)) g,
                        ap (λ acc. F.add acc (T.value (T.divide whole cfg.grad_accum))) l,
                        wa,
                        wb,
                      )
              ]
        ]

    micro_loop-SameMicro :
        (w : T.Weights) (p : Option T.Scaler) (todo k : ℕ) (m n : Micro F T)
        → SameMicro m n
        → Agree SameMicro
            (micro_loop F T G ops cfg x w p todo k m)
            (micro_loop F T G ops cfg x w p todo k n)
    unfolding micro_loop
    micro_loop-SameMicro w p zero k m n h = h
    micro_loop-SameMicro w p (suc todo) k m n h =
        let bm = batch G ops x.sampler k cfg.batch_groups m.topups m.orders in
        let bn = batch G ops x.sampler k cfg.batch_groups n.topups n.orders in
        Agree->>= (SameBatch G ops x.sampler) SameMicro (raised sampling bm) (raised sampling bn)
          (λ drawn. micro_step F T G ops cfg x w p drawn m >>= λ next.
            micro_loop F T G ops cfg x w p todo (suc k) next)
          (λ drawn. micro_step F T G ops cfg x w p drawn n >>= λ next.
            micro_loop F T G ops cfg x w p todo (suc k) next)
          (raised-Agree sampling (SameBatch G ops x.sampler) bm bn (
            batch-SameBatch G ops x.sampler k cfg.batch_groups m.topups n.topups m.orders n.orders
              h.3 h.4))
          (λ a b same.
            Agree->>= SameMicro SameMicro (micro_step F T G ops cfg x w p a m)
              (micro_step F T G ops cfg x w p b n)
              (λ next. micro_loop F T G ops cfg x w p todo (suc k) next)
              (λ next. micro_loop F T G ops cfg x w p todo (suc k) next)
              (micro_step-SameMicro w p a b m n same h)
              (λ c d e. micro_loop-SameMicro w p todo (suc k) c d e))

    -- The states after a step, with the same loss.
    abbrev pub SameStep : State F T × F.Num → State F T × F.Num → Type 0
    SameStep a b = Twin a.0 b.0 × (a.1 ≡ b.1)

    abbrev start_micro : State F T → Micro F T
    start_micro s = record {
      rng = s.rng;
      topups = s.topups;
      orders = s.orders;
      grads = T.no_grads;
      loss_acc = F.of_nat 0;
    }

    -- The state after the micro batches `m` of a step without a scaler.
    abbrev stepped : State F T → Micro F T → State F T
    stepped s m =
        let applied = T.step s.optimizer s.weights (T.clip s.weights m.grads) in
        let scheduled = T.sched_step s.scheduler applied.1 in
        record s {
          weights = applied.0;
          optimizer = scheduled.1;
          scheduler = scheduled.0;
          scaler = none;
          rng = m.rng;
          topups = m.topups;
          orders = m.orders;
          step = suc s.step;
        }

    stepped-IsTwin :
        (s t : State F T) (m n : Micro F T)
        → Twin s t
        → SameMicro m n
        → Twin (stepped s m) (stepped t n)
    stepped-IsTwin s t m n h (r, g, l, wm, wn) = record {
      weights = rw (h.weights, h.optimizer, g) refl;
      optimizer = rw (h.weights, h.optimizer, h.scheduler, g) refl;
      scheduler = rw (h.weights, h.optimizer, h.scheduler, g) refl;
      no_scaler = refl;
      no_scaler' = refl;
      rng = r;
      step = ap suc h.step;
      best = h.best;
      history = h.history;
      cache = wm;
      cache' = wn;
    }

    abbrev checked : State F T → Micro F T → Result Error (State F T × F.Num)
    checked s m =
        if T.is_finite m.loss_acc
        then ok (stepped s m, m.loss_acc)
        else err (non_finite (suc s.step))

    checked-SameStep :
        (s t : State F T) (m n : Micro F T)
        → Twin s t
        → SameMicro m n
        → Agree SameStep (checked s m) (checked t n)
    checked-SameStep s t m n h e = elim (Bool-cases (T.is_finite n.loss_acc)) [
      | inl b ↦ rw (e.2, b) (stepped-IsTwin s t m n h e, refl)
      | inr b ↦ rw (e.2, b) (ap (λ k. non_finite (suc k)) h.step)
    ]

    pub optimizer_step-SameStep :
        (s t : State F T)
        → Twin s t
        → Agree SameStep (optimizer_step F T G ops cfg x s) (optimizer_step F T G ops cfg x t)
    unfolding optimizer_step
    optimizer_step-SameStep s t h =
        rw (h.no_scaler, h.no_scaler')
          (Agree->>= SameMicro SameStep
            (micro_loop F T G ops cfg x s.weights none cfg.grad_accum (s.step * cfg.grad_accum)
              (start_micro s))
            (micro_loop F T G ops cfg x t.weights none cfg.grad_accum (t.step * cfg.grad_accum)
              (start_micro t))
            (checked s) (checked t)
            (rw (h.weights, h.step)
              (micro_loop-SameMicro t.weights none cfg.grad_accum (t.step * cfg.grad_accum)
                (start_micro s) (start_micro t) (h.rng, refl, refl, h.cache, h.cache')))
            (λ m n e. checked-SameStep s t m n h e))
