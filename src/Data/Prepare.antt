-- ===== src/Data/Prepare.antt =====
-- `main` of py/hybridsearch/data/prepare.py: the downloads are verified and laid out. What it finds
-- on the disk is a record of its contents and digests; what it does to the disk is a list of events.
pub mod Verified
use hybrid_search.Prelude.{
  ℕ, Bool, true, false, ◌&&◌, List, [], ◌∷◌, ◌++◌, Option, none, some, Result, ok, err,
  if◌then◌else◌, ◌==◌, length, select, contains, nat_eq,
}
use hybrid_search.Prelude.Text.{Str, codes, str_eq}
use hybrid_search.Prelude.Dict.{keys, get?}
use hybrid_search.Data.Words.{split_tab, is_space}
use hybrid_search.Data.Files as Files
use hybrid_search.Data.Files.{Qrels, read_qrels, write_queries}

-- What stops `main`: an exception, or `return 1`.
pub data Stop : Type 0 where
  no_file : Str → Stop
  no_room : Stop
  reading : Files.Error → Stop
  bad_query : Stop
  mismatch : Str → Stop
  bad_count : Str → ℕ → Stop
  bad_topics : Str → ℕ → ℕ → Stop

pub data Event : Type 0 where
  -- The directory of data/raw, with its parents
  make_dir : Str → Event
  extract : Event
  write_marker : Str → Event
  unlink_tar : Event
  copy_qrels : Str → Event
  write_all : Str → List Str → Event
  write_judged : Str → List Str → Event
  write_manifest : List (Str × Str) → List (Str × ℕ) → Event

-- The name of a download and its published digest.
abbrev pub Manifest : Type 0
Manifest = List (Str × Str)

abbrev pub tarball : Str
tarball = codes "collectionandqueries.tar.gz"

-- The digests of the downloads that are there, the marker's text, whether there is room for the
-- collection, the files of the tarball by name with their numbers of lines, and the lines of the
-- judgments and the unpacked queries of a track.
pub record Found : Type 0 where
  pub digests : List (Str × Str)
  pub marker : Option Str
  pub has_room : Bool
  pub extracted : List (Str × ℕ)
  pub qrels_lines : Str → List Str
  pub query_lines : Str → List Str

-- The events of a part, and what stops it or its value.
abbrev pub Prog {ℓ} : Type ℓ → Type ℓ
Prog A = List Event × Result Stop A

abbrev pub continue {ℓ κ} : {A : Type ℓ} {B : Type κ} → Result Stop A → (A → Prog B) → Prog B
continue (err e) next = ([], err e)
continue (ok a) next = next a

infixl 5 ◌>>=◌
abbrev pub ◌>>=◌ {ℓ κ} : {A : Type ℓ} {B : Type κ} → Prog A → (A → Prog B) → Prog B
m >>= next = let r = continue m.1 next in (m.0 ++ r.0, r.1)

infixl 5 ◌>>◌
abbrev pub ◌>>◌ {ℓ} : {B : Type ℓ} → Prog (Unit {0}) → Prog B → Prog B
m >> next = m >>= λ _. next

abbrev pub give {ℓ} : {A : Type ℓ} → Result Stop A → Prog A
give r = ([], r)

abbrev pub emit : List Event → Prog (Unit {0})
emit events = (events, ok tt)

abbrev pub check : Bool → Stop → Prog (Unit {0})
check test stop = give (if test then ok tt else err stop)

abbrev pub found_or {ℓ} : {A : Type ℓ} → Option A → Stop → Result Stop A
found_or none stop = err stop
found_or (some a) stop = ok a

-- `got`: the marker's text stands for a tarball that is gone.
unfoldable pub digest_of : Found → Str → Result Stop Str
unfolding get?
digest_of x name =
    if name == tarball
    then elim (get? x.digests name) [ some md5 ↦ ok md5 | none ↦ found_or x.marker (no_file name) ]
    else found_or (get? x.digests name) (no_file name)

-- The loop over `MANIFEST`, with `record["files"]`.
unfoldable pub verify : Found → Manifest → Prog (List (Str × Str))
unfolding digest_of
verify x [] = give (ok [])
verify x ((name, md5) ∷ rows) = do
  got ← give (digest_of x name)
  check (got == md5) (mismatch name)
  rest ← verify x rows
  give (ok ((name, got) ∷ rest))

-- `record["files"][0]["md5"]`
abbrev pub first_digest : List (Str × Str) → Str
first_digest [] = []
first_digest ((name, md5) ∷ files) = md5

-- `if tar.exists(): ...`
unfoldable pub unpack : Found → List (Str × Str) → Prog (Unit {0})
unfolding get?
unpack x files = elim (get? x.digests tarball) [
  | none ↦ emit []
  | some md5 ↦
      check x.has_room no_room
      >> emit (extract ∷ write_marker (first_digest files) ∷ unlink_tar ∷ [])
]

-- `f.name in EXPECTED_COUNTS and n != EXPECTED_COUNTS[f.name]`
abbrev pub has_count : List (Str × ℕ) → Str → ℕ → Bool
unfolding get?
has_count expected name n = elim (get? expected name) [ none ↦ true | some m ↦ n == m ]

-- The loop over the extracted files, in the order of their names.
unfoldable pub count_files : List (Str × ℕ) → List (Str × ℕ) → Prog (Unit {0})
unfolding get?
count_files expected [] = emit []
count_files expected ((name, n) ∷ files) = do
  check (has_count expected name n) (bad_count name n)
  count_files expected files

-- `line.strip()` is not empty.
abbrev pub has_text : Str → Bool
has_text [] = false
has_text (c ∷ cs) = if is_space c then has_text cs else true

-- `allq`, and each of its lists taken apart into two by the loops that read it.
unfoldable pub all_queries : List Str → Result Stop (List (Str × Str))
all_queries [] = ok []
all_queries (line ∷ lines) =
    let rest = all_queries lines in
    let both = elim (split_tab line) as (λ o. Result Stop (List (Str × Str))) [
      | none ↦ err bad_query
      | some p ↦ elim rest as (λ r. Result Stop (List (Str × Str))) [
        | err e ↦ err e
        | ok qs ↦ ok (p ∷ qs)
      ]
    ] in
    if has_text line then both else rest

abbrev pub reading_of : Result Files.Error Qrels → Result Stop Qrels
reading_of (err e) = err (reading e)
reading_of (ok q) = ok q

-- The body of the loop over the tracks: a tag and how many topics it has.
unfoldable pub lay_out_track : Found → Str → ℕ → Prog (Unit {0})
unfolding all_queries read_qrels write_queries
lay_out_track x tag expect = do
  emit (copy_qrels tag ∷ [])
  qrels ← give (reading_of (read_qrels (x.qrels_lines tag)))
  allq ← give (all_queries (x.query_lines tag))
  emit (write_all tag (write_queries allq) ∷ [])
  let judged = select (λ p. contains (keys qrels) p.0) allq
  check (length judged == expect && length qrels == expect)
      (bad_topics tag (length judged) (length qrels))
  emit (write_judged tag (write_queries judged) ∷ [])

unfoldable pub lay_out : Found → List (Str × ℕ) → Prog (Unit {0})
unfolding lay_out_track
lay_out x [] = emit []
lay_out x ((tag, expect) ∷ tracks) = lay_out_track x tag expect >> lay_out x tracks

-- `main`, with `MANIFEST`, `EXPECTED_COUNTS` and the tracks.
unfoldable pub main : Found → Manifest → List (Str × ℕ) → List (Str × ℕ) → Prog (Unit {0})
unfolding verify unpack count_files lay_out
main x manifest expected tracks = do
  emit (make_dir (codes "msmarco") ∷ make_dir (codes "trec-dl") ∷ [])
  files ← verify x manifest
  unpack x files
  count_files expected x.extracted
  lay_out x tracks
  emit (write_manifest files x.extracted ∷ [])
