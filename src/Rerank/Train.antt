-- ===== src/Rerank/Train.antt =====
-- Training the cross-encoder, py/hybridsearch/rerank/train.py: what PyTorch does, the
-- configuration, the losses and what lies on the disk.
pub mod Views
pub mod Validation
pub mod Step
pub mod Loop
pub mod Saves
pub mod Session
pub mod Fuel
pub mod Batches
pub mod Resume
use hybrid_search.Prelude.{
  ℕ, zero, suc, Bool, List, [], ◌∷◌, map, Option, none, some, Result, ok, err, ◌>>=◌, ◌==◌,
  if◌then◌else◌, ltb, take, drop, length, nat_eq,
}
use hybrid_search.Prelude.Text.{Str, codes, str_eq}
use hybrid_search.Prelude.Float.{Float}
use hybrid_search.Data.Files
use hybrid_search.Rerank.Sampler
use hybrid_search.Rerank.Texts.{Failure}

-- The exceptions.
pub data Error : Type 0 where
  sampling : Sampler.Error → Error
  reading : Files.Error → Error
  streaming : Failure → Error
  no_key : Str → Error
  no_item : Error
  bad_view : Error
  zero_division : Error
  non_finite : ℕ → Error

abbrev pub raised {ℓ} : {E : Type 0} {A : Type ℓ} → (E → Error) → Result E A → Result Error A
raised name (err e) = err (name e)
raised name (ok a) = ok a

abbrev pub item_or {ℓ} : {A : Type ℓ} → Option A → Error → Result Error A
item_or none e = err e
item_or (some a) e = ok a

-- PyTorch and the tokeniser, for one device, precision and maximal length.
pub record Torch (F : Float) : Type 1 where
  pub Weights : Type 0
  pub Grads : Type 0
  pub Optimizer : Type 0
  pub Scheduler : Type 0
  pub Scaler : Type 0
  -- the state of the generators for dropout
  pub Rng : Type 0
  pub Tensor : Type 0
  pub Loss : Type 0
  -- `model(**pair_batch(tok, Q, P, max_len).as_dict()).logits[:, 0]` in training mode
  pub forward : Weights → Rng → List (Str × Str) → List Tensor × Rng
  -- the same in evaluation mode, as numbers
  pub scores : Weights → List (Str × Str) → List F.Num
  pub cross_entropy : List (List Tensor) → List ℕ → Loss
  pub binary_cross_entropy : List (List Tensor) → List (List F.Num) → Loss
  pub divide : Loss → ℕ → Loss
  pub value : Loss → F.Num
  pub is_finite : F.Num → Bool
  pub no_grads : Grads
  pub backward : Loss → Grads → Grads
  pub clip : Weights → Grads → Grads
  pub step : Optimizer → Weights → Grads → Weights × Optimizer
  -- `sched.step()`, which sets the optimiser's rate
  pub sched_step : Scheduler → Optimizer → Scheduler × Optimizer
  pub last_lr : Scheduler → F.Num
  pub scale : Scaler → Loss → Loss
  pub unscale : Scaler → Grads → Grads
  pub scaler_step : Scaler → Optimizer → Weights → Grads → Weights × Optimizer
  pub update : Scaler → Scaler
  -- `np.argsort`
  pub argsort : List ℕ → List ℕ

-- `TrainConfig`: the fields that the loop reads.
pub record Config : Type 0 where
  pub loss : Str
  pub n_neg : ℕ
  pub batch_groups : ℕ
  pub grad_accum : ℕ
  pub max_steps : ℕ
  pub eval_every : ℕ
  pub save_every : ℕ
  pub log_every : ℕ

abbrev pub listwise : Str
listwise = codes "listwise"

-- `lg.view(-1, size)`: rows of `size`, if they come out even. The fuel is the length.
unfoldable pub rows_of {ℓ} : {A : Type ℓ} → ℕ → ℕ → List A → Result Error (List (List A))
rows_of fuel size [] = ok []
rows_of zero size (x ∷ xs) = err bad_view
rows_of (suc fuel) size (x ∷ xs) = do
  row ← if ltb (length (x ∷ xs)) size then err bad_view else ok (take size (x ∷ xs))
  rest ← rows_of fuel size (drop size (x ∷ xs))
  ok (row ∷ rest)

unfoldable pub view {ℓ} : {A : Type ℓ} → List A → ℕ → Result Error (List (List A))
unfolding rows_of
view xs size = rows_of (length xs) size xs

module _ (F : Float) (T : Torch F) where
  open F use {Num, of_nat}
  open T use {Tensor, Loss, Weights, Optimizer, Scheduler, Rng, cross_entropy, binary_cross_entropy}

  -- A row of `labels`: 1 for the positive, which stands first.
  abbrev pub zeros_like : List Tensor → List Num
  zeros_like [] = []
  zeros_like (t ∷ ts) = of_nat 0 ∷ zeros_like ts

  abbrev pub label_row : List Tensor → List Num
  label_row [] = []
  label_row (t ∷ ts) = of_nat 1 ∷ zeros_like ts

  unfoldable pub group_loss : List Tensor → ℕ → Str → Result Error Loss
  unfolding view
  group_loss logits group_size kind = do
    lg ← view logits group_size
    ok (
        if kind == listwise
        then cross_entropy lg (map (λ row. 0) lg)
        else binary_cross_entropy lg (map label_row lg))

  -- `rec`: the step and what `validate` returned there, RR@10 and nDCG@10.
  pub record Evaluated : Type 0 where
    pub step : ℕ
    pub rr : Num
    pub ndcg : Num

  -- A line of log.jsonl.
  pub data Entry : Type 0 where
    evaluated : Evaluated → Entry
    logged : ℕ → Num → Num → ℕ → Entry

  -- What `save_last` saves and `--resume` reads.
  pub record Checkpoint : Type 0 where
    pub weights : Weights
    pub optimizer : Optimizer
    pub scheduler : Scheduler
    pub step : ℕ
    pub best : Num
    pub history : List Evaluated
    pub rng : Rng

  -- A directory: not there, still without the file that is written last, or complete.
  pub data Dir (A : Type 0) : Type 0 where
    missing : Dir A
    partial : Dir A
    complete : A → Dir A

  -- The directory `out`.
  pub record Disk : Type 0 where
    pub last : Dir Checkpoint
    pub last_tmp : Dir Checkpoint
    pub best : Dir (Weights × Evaluated)
    pub best_tmp : Dir (Weights × Evaluated)

  -- What `save_last` does to the disk, in its order: remove last.tmp, write it, its
  -- trainer_state.pt at the end, remove last, rename.
  abbrev pub save_effects : Checkpoint → List (Disk → Disk)
  save_effects c =
      (λ d. record d { last_tmp = missing })
      ∷ (λ d. record d { last_tmp = partial })
      ∷ (λ d. record d { last_tmp = complete c })
      ∷ (λ d. record d { last = missing })
      ∷ (λ d. record d { last = d.last_tmp; last_tmp = missing })
      ∷ []

  -- The same of best.tmp and best, whose best.json is written at the end.
  abbrev pub best_effects : Weights × Evaluated → List (Disk → Disk)
  best_effects b =
      (λ d. record d { best_tmp = missing })
      ∷ (λ d. record d { best_tmp = partial })
      ∷ (λ d. record d { best_tmp = complete b })
      ∷ (λ d. record d { best = missing })
      ∷ (λ d. record d { best = d.best_tmp; best_tmp = missing })
      ∷ []

  abbrev pub run_effects : List (Disk → Disk) → Disk → Disk
  run_effects [] d = d
  run_effects (effect ∷ effects) d = run_effects effects (effect d)
