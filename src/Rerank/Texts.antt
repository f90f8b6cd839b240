-- ===== src/Rerank/Texts.antt =====
-- Passages and runs for reranking: `load_passages` and `iter_run_groups` of
-- py/hybridsearch/rerank/text.py.
pub mod Streams
use hybrid_search.Prelude.{
  ℕ, Bool, true, false, List, [], ◌∷◌, Option, none, some, Result, ok, err, ◌>>=◌, ◌==◌,
  if◌then◌else◌, ltb, length, contains, nat_eq,
}
use hybrid_search.Prelude.Text.{Str, str_eq}
use hybrid_search.Prelude.Dict.{put}
use hybrid_search.Prelude.Float.{Float}
use hybrid_search.Data.Words.{split, split_tab}
use hybrid_search.Data.Files.{Error, no_tab, or_error, ScoreText}

-- `want is None or pid in want`
abbrev pub is_wanted : Option (List Str) → Str → Bool
is_wanted none pid = true
is_wanted (some want) pid = contains want pid

-- `want is not None and len(out) == len(want)`, for a `want` without duplicates.
abbrev pub is_full : Option (List Str) → List (Str × Str) → Bool
is_full none out = false
is_full (some want) out = length out == length want

-- The loop of `load_passages`, from the dict `out`.
unfoldable pub load_from :
    Option (List Str) → List Str → List (Str × Str) → Result Error (List (Str × Str))
load_from want [] out = ok out
load_from want (line ∷ lines) out = or_error (split_tab line) (no_tab line) >>= λ p.
    let more = put out p.0 p.1 in
    let rest = load_from want lines more in
    let without = load_from want lines out in
    if is_wanted want p.0 then (if is_full want more then ok more else rest) else without

unfoldable pub load_passages : Option (List Str) → List Str → Result Error (List (Str × Str))
unfolding load_from
load_passages needed lines = load_from needed lines []

-- What stops `iter_run_groups`.
pub data Failure : Type 0 where
  short_line : Failure
  bad_score : Failure
  not_contiguous : Str → Failure

module _ (F : Float) (T : ScoreText F) where
  open F use {Num}
  open T use {parse}

  abbrev pub Group : Type 0
  Group = Str × List (Str × Num)

  -- What a generator yields, and the exception that stops it.
  abbrev pub Stream : Type 0
  Stream = List Group × Option Failure

  abbrev pub yields : Option Group → Stream → Stream
  yields none s = s
  yields (some group) s = (group ∷ s.0, s.1)

  abbrev pub is_current : Option Group → Str → Bool
  is_current none qid = false
  is_current (some group) qid = qid == group.0

  abbrev pub hits_of : Option Group → List (Str × Num)
  hits_of none = []
  hits_of (some group) = group.1

  -- `if max_hits is None or len(hits) < max_hits: hits[docid] = score`
  unfoldable pub keep_hit : Option ℕ → List (Str × Num) → Str → Num → List (Str × Num)
  keep_hit none hits docid score = put hits docid score
  keep_hit (some max_hits) hits docid score =
      if ltb (length hits) max_hits then put hits docid score else hits

  -- `parts[0]`, `parts[2]` and `float(parts[4])`, unless `parts` is empty.
  abbrev pub read_parts : List Str → Result Failure (Option (Str × Str × Num))
  read_parts [] = ok none
  read_parts (qid ∷ q0 ∷ docid ∷ rank ∷ score ∷ more) = elim (parse score) [
    | none ↦ err bad_score
    | some x ↦ ok (some (qid, docid, x))
  ]
  read_parts parts = err short_line

  -- A line of query `qid`: the rest of the loop is `next`, of `seen` and the group being read.
  unfoldable pub take_hit :
      (List Str → Option Group → Stream)
      → Option ℕ
      → List Str
      → Option Group
      → Str
      → Str
      → Num
      → Stream
  unfolding keep_hit
  take_hit next max_hits seen cur qid docid score =
      if is_current cur qid
      then next seen (some (qid, keep_hit max_hits (hits_of cur) docid score))
      else yields cur (
          if contains seen qid
          then ([], some (not_contiguous qid))
          else next (qid ∷ seen) (some (qid, keep_hit max_hits [] docid score)))

  -- The loop of `iter_run_groups`: `seen`, and the group that is being read.
  unfoldable pub groups_from : Option ℕ → List Str → List Str → Option Group → Stream
  unfolding take_hit
  groups_from max_hits [] seen cur = yields cur ([], none)
  groups_from max_hits (line ∷ lines) seen cur = elim (read_parts (split line)) [
    | err e ↦ ([], some e)
    | ok none ↦ groups_from max_hits lines seen cur
    | ok (some (qid, docid, score)) ↦
        take_hit (groups_from max_hits lines) max_hits seen cur qid docid score
  ]

  unfoldable pub iter_run_groups : Option ℕ → List Str → Stream
  unfolding groups_from
  iter_run_groups max_hits lines = groups_from max_hits lines [] none
