-- ===== src/Tests/Training.antt =====
-- Runs of py/hybridsearch/rerank/train.py and cascade.py and their theorems: a model of one number
-- that each step counts up.
use hybrid_search.Prelude.{
  ℕ, suc, ◌+◌, ◌-◌, ◌≡◌, ◌⊎◌, refl, true, false, [], ◌∷◌, none, ok, arith, take,
}
use hybrid_search.Prelude.Text.{codes}
use hybrid_search.Prelude.Float.{whole}
use hybrid_search.Prelude.Dict.{keys}
use hybrid_search.Prelude.Int.{pos}
use hybrid_search.Eval.Metrics.{rank_run}
use hybrid_search.Rerank.Sampler.{Generator, TextOps}
use hybrid_search.Rerank.Train.{
  Torch, Config, Checkpoint, Disk, missing, complete, save_effects, run_effects, listwise,
}
use hybrid_search.Rerank.Train.Step.{Inputs, State}
use hybrid_search.Rerank.Train.Loop.{checkpoint, train_loop, finish}
use hybrid_search.Rerank.Train.Session.{Fresh, train}
use hybrid_search.Rerank.Train.Saves.{save_effects_cut}
use hybrid_search.Rerank.Train.Fuel.{train_loop_stops}
use hybrid_search.Rerank.Train.Batches.{Agree}
use hybrid_search.Rerank.Train.Resume.{train-resume}
use hybrid_search.Rerank.Train.Resume.Twins.{IsTwin}
use hybrid_search.Rerank.Cascade.{cascade_row, cascade_order, rank_run-cascade_row}
use hybrid_search.Rerank.Lock.{
  World, outside, starts, steps, tries, try_mkdir, IsExclusive, Reachable-IsExclusive,
}

-- Weights, gradients and losses are numbers; the optimiser adds the gradient.
abbrev counting : Torch whole
counting = record {
  Weights = ℕ;
  Grads = ℕ;
  Optimizer = ℕ;
  Scheduler = ℕ;
  Scaler = ℕ;
  Rng = ℕ;
  Tensor = ℕ;
  Loss = ℕ;
  forward = λ w r texts. ([], suc r);
  scores = λ w texts. [];
  cross_entropy = λ rows targets. 1;
  binary_cross_entropy = λ rows labels. 1;
  divide = λ l n. l;
  value = λ l. l;
  is_finite = λ l. true;
  no_grads = 0;
  backward = λ l g. l + g;
  clip = λ w g. g;
  step = λ o w g. (w + g, suc o);
  sched_step = λ s o. (suc s, o);
  last_lr = λ s. s;
  scale = λ s l. l;
  unscale = λ s g. g;
  scaler_step = λ s o w g. (w + g, suc o);
  update = λ s. s;
  argsort = λ ns. [];
}

abbrev still : Generator
still = record {
  State = ℕ;
  seeded = λ s x. s;
  permutation = λ n s. ([], s);
  integers = λ n s. (0, s);
}

abbrev plain : TextOps
plain = record { strip = λ t. t; lower = λ t. t; single_spaces = λ t. t }

abbrev four_steps : Config
four_steps = record {
  loss = listwise;
  n_neg = 1;
  batch_groups = 0;
  grad_accum = 1;
  max_steps = 4;
  eval_every = 0;
  save_every = 2;
  log_every = 1;
}

abbrev no_groups : Inputs
no_groups = record {
  sampler = record {
    passages = [];
    strategy = [];
    n_neg = 1;
    seed = 0;
    mix = pos 0;
    mined = [];
    judged = [];
    pos_text = [];
  };
  queries = [];
  passages = [];
  val = none;
}

abbrev empty_disk : Disk whole counting
empty_disk = record { last = missing; last_tmp = missing; best = missing; best_tmp = missing }

-- The state after two steps.
abbrev halfway : State whole counting
halfway = record {
  weights = 2;
  optimizer = 2;
  scheduler = 2;
  scaler = none;
  rng = 2;
  topups = 5;
  orders = [];
  step = 2;
  best = 0;
  history = [];
  log = [];
  disk = empty_disk;
}

abbrev saved_disk : Disk whole counting
saved_disk = record empty_disk { last = complete (checkpoint whole counting halfway) }

abbrev new_session : Fresh whole counting
new_session = record {
  weights = 0;
  optimizer = 0;
  scheduler = 0;
  scaler = none;
  rng = 0;
  no_best = 0;
}

train-resume_example :
    Agree
      (IsTwin whole counting still plain no_groups.sampler)
      (finish whole counting still plain four_steps no_groups halfway)
      (train whole counting still plain four_steps no_groups true new_session saved_disk)
train-resume_example =
    train-resume whole counting still plain four_steps no_groups halfway new_session saved_disk refl
      refl (tt, omega arith) (omega arith) refl

train_loop_stops_example :
    (train_loop whole counting still plain four_steps no_groups 9 halfway
      ≡ train_loop whole counting still plain four_steps no_groups (4 - 2) halfway)
    × ((t : State whole counting)
        → train_loop whole counting still plain four_steps no_groups 9 halfway ≡ ok t
        → t.step ≡ 4)
train_loop_stops_example =
    train_loop_stops whole counting still plain four_steps no_groups 9 halfway (omega arith)
      (omega arith)

abbrev old_checkpoint : Checkpoint whole counting
old_checkpoint = checkpoint whole counting halfway

abbrev new_checkpoint : Checkpoint whole counting
new_checkpoint = record old_checkpoint { step = 4 }

save_effects_cut_example :
    ((run_effects whole counting
        (take 4 (save_effects whole counting new_checkpoint))
        saved_disk).last
      ≡ complete old_checkpoint)
    ⊎ ((run_effects whole counting
          (take 4 (save_effects whole counting new_checkpoint))
          saved_disk).last
        ≡ complete new_checkpoint)
    ⊎ ((run_effects whole counting
          (take 4 (save_effects whole counting new_checkpoint))
          saved_disk).last_tmp
        ≡ complete new_checkpoint)
save_effects_cut_example =
    save_effects_cut whole counting old_checkpoint new_checkpoint saved_disk 4 refl

abbrev all_outside : World
all_outside = record { lock = false; owner = none; phase = λ i. outside }

Reachable-IsExclusive_example : IsExclusive (try_mkdir true 1 (try_mkdir true 0 all_outside))
unfolding try_mkdir
Reachable-IsExclusive_example = Reachable-IsExclusive (
    steps (try_mkdir true 0 all_outside) (try_mkdir true 1 (try_mkdir true 0 all_outside))
      (steps all_outside (try_mkdir true 0 all_outside) (starts all_outside (λ i. refl))
        (tries all_outside 0 true refl))
      (tries (try_mkdir true 0 all_outside) 1 true refl))

rank_run-cascade_row_example :
    rank_run whole
      (cascade_row whole 2 ((codes "a", (1, 9)) ∷ (codes "b", (5, 8)) ∷ (codes "c", (7, 2)) ∷ []))
    ≡ keys (
        cascade_order whole 2
          ((codes "a", (1, 9)) ∷ (codes "b", (5, 8)) ∷ (codes "c", (7, 2)) ∷ []))
rank_run-cascade_row_example =
    rank_run-cascade_row whole 3 (λ m n h t. ground arith) 2
      ((codes "a", (1, 9)) ∷ (codes "b", (5, 8)) ∷ (codes "c", (7, 2)) ∷ []) (omega arith)
      (refl, (refl, (refl, tt)))
