-- ===== src/Data/Subset.antt =====
-- `main` of py/hybridsearch/data/subset.py, as the files it writes and the exception that stops it.
-- Ids are natural numbers: an id with a sign counts as no number. numpy's generator is a parameter.
pub mod Ready
pub mod Members
use hybrid_search.Prelude.{
  ℕ, ◌+◌, ◌-◌, Bool, true, false, ◌&&◌, not, List, [], ◌∷◌, ◌++◌, none, some, ok, err, ◌==◌,
  if◌then◌else◌, ltb, leb, length, select, contains, get_elem?, nat_eq,
}
use hybrid_search.Prelude.Text.{Str, str_eq}
use hybrid_search.Prelude.Decimal.{int_from}
use hybrid_search.Prelude.Dict.{keys, get_or}
use hybrid_search.Prelude.Int.{ℤ}
use hybrid_search.Prelude.Order.{sort_by}
use hybrid_search.Data.Files
use hybrid_search.Data.Effects.{
  no_room, make_dir, subset_dir, sample_dir, Prog, ◌>>=◌, ◌>>◌, emit, give, check, reading_of,
  ids_of, relevant, all_relevant, relevant_pids, line_ids, is_ascending, all_in, too_few, ready,
  collection_tmp, collection, docids, qrels_file, split_queries, split_qrels, manifest, unlink,
  write, write_ids, rename,
}

-- `rng.choice(n, k, replace=False)`: the places, and the state of the generator.
pub record Choice : Type 1 where
  pub State : Type 0
  pub seeded : ℕ → State
  pub choice : ℕ → ℕ → State → List ℕ × State

-- `[xs[i] for i in pick]`; the places are in range.
unfoldable pub picked {ℓ} : {A : Type ℓ} → List A → List ℕ → List A
picked xs [] = []
picked xs (i ∷ pick) =
    let rest = picked xs pick in elim (get_elem? xs i) [ none ↦ rest | some x ↦ x ∷ rest ]

module _ (C : Choice) where
  open C use {State, choice}

  unfoldable pub draw_from {ℓ} : {A : Type ℓ} → List A → ℕ → State → Prog (List A × State)
  unfolding picked
  draw_from xs k rng =
      let drawn = choice (length xs) k rng in
      give (if ltb (length xs) k then err too_few else ok (picked xs drawn.0, drawn.1))

-- The lines of the collection whose ids are in the subset, and `n`.
unfoldable pub subset_lines : List ℕ → List Str → List ℕ → List Str
subset_lines subset [] ids = []
subset_lines subset (line ∷ lines) [] = []
subset_lines subset (line ∷ lines) (n ∷ ids) =
    let rest = subset_lines subset lines ids in if contains subset n then line ∷ rest else rest

-- `int(d) in in_subset`, for ids that are numbers.
abbrev pub is_member : List ℕ → Str → Bool
is_member subset d = contains subset (int_from 0 d)

abbrev pub member_docs : List ℕ → List (Str × ℤ) → List (Str × ℤ)
member_docs subset [] = []
member_docs subset ((d, g) ∷ docs) =
    let rest = member_docs subset docs in if is_member subset d then (d, g) ∷ rest else rest

-- `filt`
unfoldable pub filter_qrels : List ℕ → Files.Qrels → Files.Qrels
filter_qrels subset [] = []
filter_qrels subset ((q, docs) ∷ qrels) =
    let rest = filter_qrels subset qrels in
    elim (member_docs subset docs) [ [] ↦ rest | d ∷ ds ↦ (q, d ∷ ds) ∷ rest ]

abbrev pub all_docs : Files.Qrels → List Str
all_docs [] = []
all_docs ((q, docs) ∷ qrels) = keys docs ++ all_docs qrels

-- The loop over `qrels`: the filtered judgments are written, and no relevant one is lost.
unfoldable pub write_filtered : List ℕ → List (Str × Files.Qrels) → Prog (Unit {0})
unfolding filter_qrels ids_of
write_filtered subset [] = give (ok tt)
write_filtered subset ((name, qrels) ∷ files) = do
  ns ← ids_of (all_docs qrels)
  let filt = filter_qrels subset qrels
  emit (write (qrels_file name) (Files.write_qrels filt) ∷ [])
  check (length (all_relevant qrels) == length (all_relevant filt))
  write_filtered subset files

-- The order of `key=int`.
abbrev pub int_before : Str → Str → Bool
int_before x y = leb (int_from 0 x) (int_from 0 y)

-- `[q for q in train_qrels if q in train_q]`, sorted.
unfoldable pub judged_queries : List (Str × Str) → Files.Qrels → Prog (List Str)
unfolding ids_of
judged_queries queries qrels = do
  let judged = select (contains (keys queries)) (keys qrels)
  ns ← ids_of judged
  give (ok (sort_by int_before judged))

abbrev pub all_members : List ℕ → List Str → Bool
all_members subset [] = true
all_members subset (d ∷ ds) = is_member subset d && all_members subset ds

-- All relevant passages are in the subset, and there is one.
abbrev pub is_eligible : List ℕ → Files.Qrels → Str → Bool
is_eligible subset qrels q = elim (relevant (get_or qrels q [])) [
  | [] ↦ false
  | d ∷ ds ↦ all_members subset (d ∷ ds)
]

abbrev pub queries_of : List (Str × Str) → List Str → List (Str × Str)
queries_of queries [] = []
queries_of queries (q ∷ qs) = (q, get_or queries q []) ∷ queries_of queries qs

abbrev pub qrels_of : Files.Qrels → List Str → Files.Qrels
qrels_of qrels [] = []
qrels_of qrels (q ∷ qs) = (q, get_or qrels q []) ∷ qrels_of qrels qs

-- The two files of a sample.
unfoldable pub write_split : Str → List (Str × Str) → Files.Qrels → List Str → Prog (Unit {0})
write_split name queries qrels qs = emit (
    make_dir (sample_dir name)
    ∷ write (split_queries name) (Files.write_queries (queries_of queries qs))
    ∷ write (split_qrels name) (Files.write_qrels (qrels_of qrels qs))
    ∷ [])

-- The constants of the file.
pub record Sizes : Type 0 where
  pub seed : ℕ
  pub subset_size : ℕ
  pub n_train_tune : ℕ
  pub n_train50k : ℕ

abbrev pub published : Sizes
published = record {
  seed = 20260923;
  subset_size = 1000000;
  n_train_tune = 2000;
  n_train50k = 50000;
}

-- The files that are read: the judgments by name, the collection, and the training queries.
pub record Inputs : Type 0 where
  -- Whether the disk has room, for `require_free`.
  pub has_room : Bool
  pub qrels : List (Str × List Str)
  pub collection : List Str
  pub train_queries : List Str
  pub train_qrels : List Str

unfoldable pub read_all : List (Str × List Str) → Prog (List (Str × Files.Qrels))
read_all [] = give (ok [])
read_all ((name, lines) ∷ files) = do
  qrels ← reading_of (Files.read_qrels lines)
  rest ← read_all files
  give (ok ((name, qrels) ∷ rest))

-- What is made. The manifest's text, with its times and hashes, is given.
pub record Made : Type 0 where
  pub wanted : List ℕ
  pub subset : List ℕ
  pub train_tune : List Str
  pub train50k : List Str

module _ (C : Choice) (z : Sizes) (x : Inputs) where
  open C use {State, seeded}

  -- The subset, and the generator after the first draw. (A negative number to draw is 0 here, and
  -- the test of the size fails; the source raises at the draw.)
  unfoldable pub draw_subset : List ℕ → List ℕ → Prog (List ℕ × State)
  unfolding draw_from is_ascending
  draw_subset wanted pids = do
    check (is_ascending pids)
    check (all_in pids wanted)
    let comp = select (λ p. not (contains wanted p)) pids
    drawn ← draw_from C comp (z.subset_size - length wanted) (seeded z.seed)
    let subset = sort_by leb (wanted ++ drawn.0)
    check (length subset == z.subset_size && is_ascending subset)
    give (ok (subset, drawn.1))

  -- The collection's part, streamed, and its ids.
  unfoldable pub write_collection : List ℕ → List ℕ → Prog (Unit {0})
  unfolding subset_lines
  write_collection subset pids = do
    let kept = subset_lines subset x.collection pids
    emit (write collection_tmp kept ∷ [])
    check (length kept == z.subset_size)
    emit (rename collection_tmp collection ∷ write_ids docids subset ∷ [])

  -- train_tune and train50k, of training judgments whose ids are numbers: the two samples.
  unfoldable pub write_samples : List ℕ → State → Str → Str → Prog (List Str × List Str)
  unfolding judged_queries draw_from write_split
  write_samples subset rng train_tune train50k = do
    queries ← reading_of (Files.read_queries x.train_queries)
    qrels ← reading_of (Files.read_qrels x.train_qrels)
    judged ← judged_queries queries qrels
    let eligible = select (is_eligible subset qrels) judged
    pick ← draw_from C eligible z.n_train_tune rng
    let tt_qids = sort_by int_before pick.0
    write_split train_tune queries qrels tt_qids
    let pool = select (λ q. not (contains tt_qids q)) judged
    pick2 ← draw_from C pool z.n_train50k (seeded (z.seed + 1))
    let t50_qids = sort_by int_before pick2.0
    write_split train50k queries qrels t50_qids
    give (ok (tt_qids, t50_qids))

  -- What `main` does between the two lines about READY.
  unfoldable pub build : Str → Str → List Str → Prog Made
  unfolding read_all relevant_pids draw_subset write_collection write_filtered write_samples ids_of
  build train_tune train50k text = do
    qrels ← read_all x.qrels
    wanted ← relevant_pids qrels []
    pids ← ids_of (line_ids x.collection)
    drawn ← draw_subset wanted pids
    write_collection drawn.0 pids
    write_filtered drawn.0 qrels
    samples ← write_samples drawn.0 drawn.1 train_tune train50k
    emit (write manifest text ∷ [])
    give (
        ok (record {
          wanted = wanted;
          subset = drawn.0;
          train_tune = samples.0;
          train50k = samples.1;
        }))

  -- `main`
  unfoldable pub main : Str → Str → List Str → Prog Made
  unfolding build
  main train_tune train50k text = do
    give (if x.has_room then ok tt else err no_room)
    emit (make_dir subset_dir ∷ unlink ready ∷ [])
    made ← build train_tune train50k text
    emit (write ready [] ∷ [])
    give (ok made)
