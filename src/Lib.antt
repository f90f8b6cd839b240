-- ===== src/Lib.antt =====
-- HybridSearch, its Python library under py/hybridsearch: rank fusion, online evaluation by
-- interleaving, event logs and their analysis, retrieval metrics, the files they share, the encoding of
-- passages, the comparison of lexical engines, and the mining, training and use of the cross-encoder.
--
-- The parts and how they interact. Retrieval runs are fused by py/hybridsearch/fusion and scored by
-- py/hybridsearch/eval, which sorts a run again by its scores. Pages that interleave two rankings
-- (py/hybridsearch/clicks/interleave.py) are shown, their impressions and clicks are logged and read
-- back as pages (py/hybridsearch/clicks/events.py), and credit is given to the two rankings, which the
-- report of the log counts (clicks/analyze_events.py, with the statistics of clicks/ab.py); clicks come
-- from simulated users (py/hybridsearch/clicks/models.py). The reranker draws its training
-- groups from mined pools (py/hybridsearch/rerank/sampler.py): the pools are mined from the
-- retrievers' runs (rerank/mine.py), the trainer takes the groups, saves checkpoints and resumes from
-- them (rerank/train.py), and the trained model reorders the heads of runs (rerank/rerank_run.py,
-- rerank/cascade.py). Passages are encoded chunk by chunk, also over several runs (dense/encode.py). All
-- of them read and write the text files of py/hybridsearch/data/io.py; data/prepare.py verifies the
-- downloads, and data/subset.py makes the collection and the samples of queries that they work on.
--
-- Which file models which part:
--   Prelude         shared names, dictionaries as lists of pairs in insertion order, sets as lists
--                   without repetition, the sort, the float interface, ASCII strings, results
--   Interleave/TeamDraft   team_draft, team_draft_credit and enumerate_team_draft of
--                   py/hybridsearch/clicks/interleave.py; a coin flip is the next of a list of coins
--   Interleave/Balanced    balanced and balanced_credit of the same file
--   Eval/Metrics    py/hybridsearch/eval/metrics.py: rank_run, mrr_at_k, ndcg_at_k, recall_at_k and
--                   evaluate, with its cache of rankings
--   Fusion/Core     py/hybridsearch/fusion/core.py: docid_key, truncate, _check_unique, sort_fused,
--                   rrf, normalise and weighted
--   Fusion/Printed  run_file_scores of the same file
--   Fusion/Runs     py/hybridsearch/fusion/runs.py: fuse_runs, as_score_dict and write_run_exact; a
--                   file is the list of its lines
--   Fusion/Fast     py/hybridsearch/fusion/fast.py
--   Clicks/Events   py/hybridsearch/clicks/events.py: impression_events; its child Pages has
--                   pages_from_events and click_matrix
--   Clicks/Models   py/hybridsearch/clicks/models.py: make_model and the simulate of PBM and DBN,
--                   over the columns of the arrays
--   Clicks/Statistics   py/hybridsearch/clicks/ab.py: impression_metrics, the tests, the intervals, the
--                   two reports and srm_check
--   Clicks/Report   py/hybridsearch/clicks/analyze_events.py: analyse; Clicks/Experiments has what it
--                   reads off the pages
--   Dense/Encoder   py/hybridsearch/dense/encode.py: Encoder.encode
--   Dense/Passages  encode_passages of the same file
--   Dense/Lock      acquire_lock, _lock_owner_dead and release_lock of the same file
--   Lexical/Parity  py/hybridsearch/lexical/parity.py: the readers, as_run, classify and the comparison
--                   of the runs in main; Lexical/Terms has the terms and the causes of a difference
--   Rerank/Sampler  py/hybridsearch/rerank/sampler.py: GroupSampler with _ok, _draw and group, and
--                   needed_pids; its child Batch has epoch_order and batch
--   Rerank/Texts    py/hybridsearch/rerank/text.py: load_passages and iter_run_groups
--   Rerank/Train    py/hybridsearch/rerank/train.py: Step has the body of the loop as far as the test
--                   of the loss, Validation validate and build_val, Loop the loop with run_eval,
--                   save_last and what follows it, Session the data and the fresh or resumed state
--   Rerank/Lock     MPSLock of the same file
--   Rerank/Mine     py/hybridsearch/rerank/mine.py: false_negative, keep, random_pool, run_qids,
--                   dict_or_stream and mine; Rerank/Rows has the rows, their counts and random_pool
--   Rerank/Cascade  py/hybridsearch/rerank/cascade.py: cascade_quality
--   Rerank/Rerun    py/hybridsearch/rerank/rerank_run.py: load_candidates, Scorer.score and rerank
--   Data/Files      py/hybridsearch/data/io.py: the readers and writers of judgments, queries and
--                   runs, and iter_collection; Data/Words has the strings, Data/Tables dicts of dicts
--   Data/Subset     py/hybridsearch/data/subset.py: main; Data/Effects has its events on files
--   Data/Prepare    py/hybridsearch/data/prepare.py: main
--   Tests           examples of the theorems
--
-- An operation that may raise returns a `Result` with the exception, and one that changes state takes
-- the state and returns it. The child modules of a part hold its lemmas, named for what they show.
--
-- Floating-point numbers are the parameter `Float` of Prelude/Float: its operations, and the laws of
-- an order, which hold for numbers that are not NaN. Parameters too are numpy's generator, whose
-- `permutation(n)` is assumed to be a permutation and whose `integers(n)` is assumed to be below n,
-- the text operations of norm_text, the printing of a score, and the order in which a set is gone
-- through. PyTorch and the tokeniser are the record `Torch` of Rerank/Train,
-- without laws: what is proved of a training step holds for every model, optimiser and schedule. The
-- vectors' scores and the exact search are the record `Vectors` of Rerank/Mine, numpy's choice without
-- replacement the record `Choice` of Data/Subset, `float(s)` and the printing of a score the record
-- `ScoreText` of Data/Files. The tokeniser and the encoder of passages are the record `Model` of
-- Dense/Encoder; that a batch is encoded text by text is a hypothesis of the theorems on it. The
-- distributions, the resampling and the quantiles of numpy and scipy are the record `Library` of
-- Clicks/Statistics.
--
-- Files are lists of lines. Where the order of effects on the disk matters, they are a list: the events
-- of Data/Subset and Data/Prepare, the effects of a save in Rerank/Train, of which a removal is one, and
-- those of a run in Dense/Passages, where a chunk of rows is one write and what a short file lacks
-- reads as zeros, as `np.memmap` extends it. A generator is what it yields, with
-- the exception that stops it. Processes at the lock of
-- Rerank/Lock and at that of Dense/Lock take the steps of a relation, one for each call of the system.
--
-- Fuel: the rounds of team_draft and balanced and the positions of the enumeration are bounded by the
-- lengths of the rankings. The `while` loop of run_file_scores runs on fuel; that it stops rests on
-- floats, and the theorems on it take the number of rounds as the hypothesis `Lowers`. The loop of
-- train has fuel for `max_steps`, which is enough; random_pool has fuel for its draws, enough if they
-- have as many different new passages as the pool wants. The rounds of Encoder.encode have the number
-- of texts as fuel, and each takes one text at least.
--
-- Not modelled: JSON, YAML and the binary formats, numpy's array code, the inside of models, times,
-- rates and hashes in reports, and the command lines. Strings and digits are ASCII; ids of passages in
-- Data/Subset have no sign. The engine and the broker are in other languages.
pub mod Prelude
pub mod Interleave
pub mod Eval
pub mod Fusion
pub mod Clicks
pub mod Data
pub mod Dense
pub mod Lexical
pub mod Rerank
mod Tests
