-- ===== src/Rerank/Train/Step.antt =====
-- One step of the optimiser in `train`, py/hybridsearch/rerank/train.py.
use hybrid_search.Prelude.{
  ℕ, zero, suc, ◌+◌, ◌*◌, List, [], ◌∷◌, ◌++◌, Option, none, some, Result, ok, err, ◌>>=◌,
  if◌then◌else◌, nat_eq,
}
use hybrid_search.Prelude.Text.{Str, str_eq}
use hybrid_search.Prelude.Dict.{get?}
use hybrid_search.Prelude.Float.{Float}
use hybrid_search.Data.Tables.{Table}
use hybrid_search.Prelude.Int.{ℤ}
use hybrid_search.Rerank.Sampler.{Generator, GroupSampler, TextOps}
use hybrid_search.Rerank.Sampler.Batch.{Orders, Group, batch}
use hybrid_search.Rerank.Train.{
  Error, sampling, no_key, non_finite, raised, item_or, Torch, Config, group_loss, Evaluated, Entry,
  Disk,
}

-- `val`, which `build_val` and `train` fill.
pub record Val : Type 0 where
  -- `keys`, and the query and the passage of each
  pub keys : List (Str × Str)
  pub pairs : List (Str × Str)
  pub qrels : Table ℤ

-- What the loop reads.
pub record Inputs : Type 0 where
  pub sampler : GroupSampler
  pub queries : List (Str × Str)
  pub passages : List (Str × Str)
  -- `val`, unless it is empty
  pub val : Option Val

-- The texts of `for pid in [pos, *negs]`.
unfoldable pub pair_texts : Str → List Str → List (Str × Str) → Result Error (List (Str × Str))
pair_texts query [] passages = ok []
pair_texts query (pid ∷ pids) passages = do
  passage ← item_or (get? passages pid) (no_key pid)
  rest ← pair_texts query pids passages
  ok ((query, passage) ∷ rest)

-- `Q` and `P`.
unfoldable pub batch_texts : Inputs → List Group → Result Error (List (Str × Str))
unfolding pair_texts
batch_texts x [] = ok []
batch_texts x ((qid, positive, negs) ∷ groups) = do
  query ← item_or (get? x.queries qid) (no_key qid)
  texts ← pair_texts query (positive ∷ negs) x.passages
  rest ← batch_texts x groups
  ok (texts ++ rest)

module _ (F : Float) (T : Torch F) where
  open F use {Num, of_nat, add}
  open T use {
    Weights, Grads, Optimizer, Scheduler, Scaler, Rng, Loss, forward, divide, value, is_finite,
    no_grads, backward, clip, sched_step, scale, unscale, scaler_step, update,
  }

  -- What the loop changes: the model, the optimiser and its schedule, the scaler (for fp16 on
  -- CUDA), the generators, the sampler, the local variables, log.jsonl and the disk.
  pub record State : Type 0 where
    pub weights : Weights
    pub optimizer : Optimizer
    pub scheduler : Scheduler
    pub scaler : Option Scaler
    pub rng : Rng
    pub topups : ℕ
    pub orders : Orders
    pub step : ℕ
    pub best : Num
    pub history : List (Evaluated F T)
    pub log : List (Entry F T)
    pub disk : Disk F T

  -- `scaler.scale(loss).backward()` or `loss.backward()`
  abbrev pub backward_scaled : Option Scaler → Loss → Grads → Grads
  backward_scaled none loss grads = backward loss grads
  backward_scaled (some scaler) loss grads = backward (scale scaler loss) grads

  -- What the micro batches change.
  pub record Micro : Type 0 where
    pub rng : Rng
    pub topups : ℕ
    pub orders : Orders
    pub grads : Grads
    pub loss_acc : Num

  module _ (G : Generator) (ops : TextOps) (cfg : Config) (x : Inputs) where
    -- The body of `for micro in range(cfg.grad_accum)`, at batch number `k`, once its groups are
    -- drawn.
    unfoldable pub micro_step :
        Weights → Option Scaler → List Group × ℕ × Orders → Micro → Result Error Micro
    unfolding batch_texts group_loss
    micro_step weights scaler (groups, topups, orders) m = do
      texts ← batch_texts x groups
      let out = forward weights m.rng texts
      whole ← group_loss F T out.0 (1 + cfg.n_neg) cfg.loss
      let loss = divide whole cfg.grad_accum
      ok (record {
        rng = out.1;
        topups = topups;
        orders = orders;
        grads = backward_scaled scaler loss m.grads;
        loss_acc = add m.loss_acc (value loss);
      })

    -- The loop, with `todo` rounds left.
    unfoldable pub micro_loop : Weights → Option Scaler → ℕ → ℕ → Micro → Result Error Micro
    unfolding micro_step
    micro_loop weights scaler zero k m = ok m
    micro_loop weights scaler (suc todo) k m = do
      drawn ← raised sampling (batch G ops x.sampler k cfg.batch_groups m.topups m.orders)
      next ← micro_step weights scaler drawn m
      micro_loop weights scaler todo (suc k) next

    -- `scaler.unscale_(opt)`, `clip_grad_norm_` and the steps of the optimiser and the scaler.
    abbrev pub apply_grads :
        Option Scaler → Optimizer → Weights → Grads → (Weights × Optimizer) × Option Scaler
    apply_grads none opt weights grads = (T.step opt weights (clip weights grads), none)
    apply_grads (some scaler) opt weights grads =
        (scaler_step scaler opt weights (clip weights (unscale scaler grads)), some (update scaler))

    -- `optimizer_step`: the loop's body as far as the test of `loss_acc`, and `loss_acc`.
    unfoldable pub optimizer_step : State → Result Error (State × Num)
    unfolding micro_loop
    optimizer_step s = do
      m ← micro_loop s.weights s.scaler cfg.grad_accum (s.step * cfg.grad_accum) (record {
        rng = s.rng;
        topups = s.topups;
        orders = s.orders;
        grads = no_grads;
        loss_acc = of_nat 0;
      })
      let applied = apply_grads s.scaler s.optimizer s.weights m.grads
      let scheduled = sched_step s.scheduler applied.0.1
      let next = record s {
        weights = applied.0.0;
        optimizer = scheduled.1;
        scheduler = scheduled.0;
        scaler = applied.1;
        rng = m.rng;
        topups = m.topups;
        orders = m.orders;
        step = suc s.step;
      }
      if is_finite m.loss_acc then ok (next, m.loss_acc) else err (non_finite (suc s.step))
