-- ===== src/Rerank/Train/Session.antt =====
-- The start of `train`, py/hybridsearch/rerank/train.py: its data, and a fresh or resumed state.
use hybrid_search.Prelude.{
  ℕ, zero, suc, Bool, true, false, List, [], ◌∷◌, Option, none, some, Result, ok, ◌>>=◌,
  if◌then◌else◌, take, contains, nat_eq,
}
use hybrid_search.Prelude.Text.{Str, str_eq}
use hybrid_search.Prelude.Dict.{keys, get?}
use hybrid_search.Prelude.Int.{ℤ}
use hybrid_search.Prelude.Sets.{union}
use hybrid_search.Prelude.Float.{Float}
use hybrid_search.Data.Files.{Qrels, ScoreText, read_qrels, read_queries}
use hybrid_search.Rerank.Sampler.{Generator, TextOps, MinedQuery, needed_pids, make_sampler}
use hybrid_search.Rerank.Texts.{load_passages}
use hybrid_search.Rerank.Train.{
  Error, reading, sampling, no_key, raised, item_or, Torch, Config, Checkpoint, Dir, complete,
  missing, partial, Disk,
}
use hybrid_search.Rerank.Train.Step.{Val, Inputs, State}
use hybrid_search.Rerank.Train.Validation.{build_val}
use hybrid_search.Rerank.Train.Loop.{train_from}

-- The lines of the files that the configuration names, and the fields for the data.
pub record DataFiles : Type 0 where
  pub mined : List MinedQuery
  pub pool_depth : ℕ
  pub queries : List Str
  pub qrels : List Str
  pub collection : List Str
  pub val_run : List Str
  pub val_queries : List Str
  pub val_qrels : List Str
  pub val_n : ℕ
  pub val_depth : ℕ
  pub strategy : Str
  pub seed : ℕ
  -- `round(mix_bm25 * n_neg)`
  pub mix : ℤ

-- `m.bm25, m.dense, m.random = m.bm25[:cfg.pool_depth], ...`
unfoldable pub cut_pools : ℕ → List MinedQuery → List MinedQuery
cut_pools depth [] = []
cut_pools depth (m ∷ mined) =
    record m { bm25 = take depth m.bm25; dense = take depth m.dense; random = take depth m.random }
    ∷ cut_pools depth mined

unfoldable pub mined_qids : List MinedQuery → List Str
mined_qids [] = []
mined_qids (m ∷ mined) = m.qid ∷ mined_qids mined

-- `{q: clip_query(tok, t) for q, t in queries.items() if q in mined_qids}`
unfoldable pub clip_queries : (Str → Str) → List Str → List (Str × Str) → List (Str × Str)
clip_queries clip wanted [] = []
clip_queries clip wanted ((q, t) ∷ queries) =
    let rest = clip_queries clip wanted queries in
    if contains wanted q then (q, clip t) ∷ rest else rest

-- `{q: set(d) for q, d in qrels.items()}`
unfoldable pub judged_sets : Qrels → List (Str × List Str)
judged_sets [] = []
judged_sets ((q, docs) ∷ qrels) = (q, keys docs) ∷ judged_sets qrels

-- `val["q"]` and `val["p"]`
unfoldable pub val_pairs :
    List (Str × Str) → List (Str × Str) → List (Str × Str) → Result Error (List (Str × Str))
val_pairs queries passages [] = ok []
val_pairs queries passages ((q, p) ∷ ks) = do
  query ← item_or (get? queries q) (no_key q)
  passage ← item_or (get? passages p) (no_key p)
  rest ← val_pairs queries passages ks
  ok ((query, passage) ∷ rest)

abbrev pub second_of : List (Str × Str) → List Str
second_of [] = []
second_of ((q, p) ∷ ks) = p ∷ second_of ks

-- `build_val(cfg, tok) if cfg.val_n else ({}, set())`, with `queries`.
unfoldable pub load_val :
    (F : Float) (T : Torch F) (S : ScoreText F)
    → DataFiles
    → Result Error (List (Str × Str) × Option (List (Str × Str) × Qrels))
unfolding build_val
load_val F T S files = elim files.val_n [
  | zero ↦ ok ([], none)
  | suc n ↦ (do
    queries ← raised reading (read_queries files.val_queries)
    qrels ← raised reading (read_qrels files.val_qrels)
    built ← build_val F T S queries qrels files.val_run (suc n) files.val_depth
    ok (queries, some built))
]

-- `val` after `val["q"]` and `val["p"]` are set.
unfoldable pub fill_val :
    List (Str × Str)
    → List (Str × Str)
    → Option (List (Str × Str) × Qrels)
    → Result Error (Option Val)
unfolding val_pairs
fill_val queries passages none = ok none
fill_val queries passages (some (ks, qrels)) = do
  pairs ← val_pairs queries passages ks
  ok (some (record { keys = ks; pairs = pairs; qrels = qrels }))

abbrev pub val_need : Option (List (Str × Str) × Qrels) → List Str
val_need none = []
val_need (some (ks, qrels)) = second_of ks

module _ (F : Float) (T : Torch F) (S : ScoreText F) (ops : TextOps) (clip : Str → Str) where
  -- The part of `train` that loads the data.
  unfoldable pub load_data : Config → DataFiles → Result Error Inputs
  unfolding cut_pools load_val fill_val
  load_data cfg files = do
    let mined = cut_pools files.pool_depth files.mined
    queries ← raised reading (read_queries files.queries)
    qrels ← raised reading (read_qrels files.qrels)
    built ← load_val F T S files
    let need = union (needed_pids mined files.strategy) (val_need built.1)
    passages ← raised reading (load_passages (some need) files.collection)
    let clipped = clip_queries clip (mined_qids mined) queries
    sampler ← raised sampling (
        make_sampler ops mined clipped passages files.strategy cfg.n_neg files.seed files.mix
          (judged_sets qrels))
    val ← fill_val built.0 passages built.1
    ok (record { sampler = sampler; queries = clipped; passages = passages; val = val })

-- What a new session has before it resumes: the base model, new optimiser, schedule and scaler, and
-- the seeded generators.
pub record Fresh (F : Float) (T : Torch F) : Type 0 where
  pub weights : T.Weights
  pub optimizer : T.Optimizer
  pub scheduler : T.Scheduler
  pub scaler : Option T.Scaler
  pub rng : T.Rng
  -- `best = -1.0`
  pub no_best : F.Num

module _ (F : Float) (T : Torch F) where
  abbrev pub fresh_state : Fresh F T → Disk F T → State F T
  fresh_state new disk = record {
    weights = new.weights;
    optimizer = new.optimizer;
    scheduler = new.scheduler;
    scaler = new.scaler;
    rng = new.rng;
    topups = 0;
    orders = [];
    step = 0;
    best = new.no_best;
    history = [];
    log = [];
    disk = disk;
  }

  -- What is read from last/.
  abbrev pub resumed_state : Fresh F T → Checkpoint F T → Disk F T → State F T
  resumed_state new c disk = record (fresh_state new disk) {
    weights = c.weights;
    optimizer = c.optimizer;
    scheduler = c.scheduler;
    rng = c.rng;
    step = c.step;
    best = c.best;
    history = c.history;
  }

  -- `resume and (last / "trainer_state.pt").exists()`
  abbrev pub start_from : Dir F T (Checkpoint F T) → Fresh F T → Disk F T → State F T
  start_from missing new disk = fresh_state new disk
  start_from partial new disk = fresh_state new disk
  start_from (complete c) new disk = resumed_state new c disk

  unfoldable pub start_state : Bool → Fresh F T → Disk F T → State F T
  start_state false new disk = fresh_state new disk
  start_state true new disk = start_from disk.last new disk

  module _ (G : Generator) (ops : TextOps) (cfg : Config) (x : Inputs) where
    -- `train`, of its loaded data: the end of the session.
    unfoldable pub train : Bool → Fresh F T → Disk F T → Result Error (State F T)
    unfolding start_state
    train resume new disk = train_from F T G ops cfg x (start_state resume new disk)
