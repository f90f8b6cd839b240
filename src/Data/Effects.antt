-- ===== src/Data/Effects.antt =====
-- The files and the ids of py/hybridsearch/data/subset.py: what a part of `main` writes, and the
-- exception that stops it.
use hybrid_search.Prelude.{
  ℕ, Bool, true, ◌&&◌, List, [], ◌∷◌, ◌++◌, none, some, Result, ok, err, if◌then◌else◌, ltb,
  contains, nat_eq,
}
use hybrid_search.Prelude.Text.{Str, str_eq}
use hybrid_search.Prelude.Decimal.{is_decimal, int_from}
use hybrid_search.Prelude.Int.{ℤ, pos, leb_ℤ}
use hybrid_search.Prelude.Sets.{union}
use hybrid_search.Data.Words.{split_tab}
use hybrid_search.Data.Files

pub data Error : Type 0 where
  -- The `SystemExit` of `require_free`
  no_room : Error
  reading : Files.Error → Error
  bad_id : Str → Error
  no_tab : Error
  -- an `assert`
  failed : Error
  -- `rng.choice` of more than there is
  too_few : Error

-- The files of data/subset.
pub data FilePath : Type 0 where
  ready : FilePath
  collection_tmp : FilePath
  collection : FilePath
  docids : FilePath
  qrels_file : Str → FilePath
  split_queries : Str → FilePath
  split_qrels : Str → FilePath
  manifest : FilePath

-- The directories that it makes: data/subset/1m, and one for each sample.
pub data Folder : Type 0 where
  subset_dir : Folder
  sample_dir : Str → Folder

pub data FileEvent : Type 0 where
  make_dir : Folder → FileEvent
  unlink : FilePath → FileEvent
  write : FilePath → List Str → FileEvent
  write_ids : FilePath → List ℕ → FileEvent
  rename : FilePath → FilePath → FileEvent

-- What a part of `main` does to the files, and what it returns.
abbrev pub Prog {ℓ} : Type ℓ → Type ℓ
Prog A = List FileEvent × Result Error A

abbrev pub continue {ℓ κ} : {A : Type ℓ} {B : Type κ} → Result Error A → (A → Prog B) → Prog B
continue (err e) next = ([], err e)
continue (ok a) next = next a

infixl 5 ◌>>=◌
unfoldable pub ◌>>=◌ {ℓ κ} : {A : Type ℓ} {B : Type κ} → Prog A → (A → Prog B) → Prog B
m >>= next = (m.0 ++ (continue m.1 next).0, (continue m.1 next).1)

infixl 5 ◌>>◌
abbrev pub ◌>>◌ {ℓ} : {B : Type ℓ} → Prog (Unit {0}) → Prog B → Prog B
m >> next = m >>= λ _. next

abbrev pub emit : List FileEvent → Prog (Unit {0})
emit events = (events, ok tt)

abbrev pub give {ℓ} : {A : Type ℓ} → Result Error A → Prog A
give r = ([], r)

abbrev pub check : Bool → Prog (Unit {0})
check test = give (if test then ok tt else err failed)

abbrev pub reading_of {ℓ} : {A : Type ℓ} → Result Files.Error A → Prog A
reading_of (err e) = give (err (reading e))
reading_of (ok a) = give (ok a)

-- `int(x)`
abbrev pub id_of : Str → Result Error ℕ
id_of x = if is_decimal x then ok (int_from 0 x) else err (bad_id x)

unfoldable pub ids_of : List Str → Prog (List ℕ)
ids_of [] = give (ok [])
ids_of (x ∷ xs) = do n ← give (id_of x); ns ← ids_of xs; give (ok (n ∷ ns))

-- Ids with a grade above 0, and all of them.
abbrev pub relevant : List (Str × ℤ) → List Str
relevant [] = []
relevant ((d, g) ∷ docs) = let rest = relevant docs in if leb_ℤ (pos 1) g then d ∷ rest else rest

abbrev pub all_relevant : Files.Qrels → List Str
all_relevant [] = []
all_relevant ((q, docs) ∷ qrels) = relevant docs ++ all_relevant qrels

-- `relevant_pids` of each of the judgments, in one set.
unfoldable pub relevant_pids : List (Str × Files.Qrels) → List ℕ → Prog (List ℕ)
unfolding ids_of
relevant_pids [] out = give (ok out)
relevant_pids ((name, qrels) ∷ files) out = do
  ns ← ids_of (all_relevant qrels)
  relevant_pids files (union out ns)

-- `int(line.split("\t", 1)[0])`: a line without a tab is taken whole.
abbrev pub line_id : Str → Str
line_id line = elim (split_tab line) [ none ↦ line | some p ↦ p.0 ]

abbrev pub line_ids : List Str → List Str
line_ids [] = []
line_ids (line ∷ lines) = line_id line ∷ line_ids lines

-- `np.all(np.diff(pids) > 0)`
unfoldable pub is_ascending : List ℕ → Bool
is_ascending [] = true
is_ascending (n ∷ []) = true
is_ascending (n ∷ m ∷ ns) = ltb n m && is_ascending (m ∷ ns)

abbrev pub all_in : List ℕ → List ℕ → Bool
all_in xs [] = true
all_in xs (y ∷ ys) = contains xs y && all_in xs ys
