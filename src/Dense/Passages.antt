-- ===== src/Dense/Passages.antt =====
-- `encode_passages` of py/hybridsearch/dense/encode.py: chunks of passages, of which those that are
-- done are not encoded again. The files that it changes are a state; what a run does to them is a
-- list of effects, which may be cut off anywhere. `passages.progress` is the list of its numbers.
pub mod Texts
pub mod Safe
pub mod Chunks
pub mod Headers
pub mod Runs
use hybrid_search.Prelude.{
  ℕ, zero, suc, ◌+◌, ◌-◌, ◌*◌, ◌/◌, Bool, true, false, ◌&&◌, List, [], ◌∷◌, ◌++◌, Option, none,
  some, Result, ok, err, ◌>>=◌, ◌>>◌, ◌==◌, if◌then◌else◌, leb, ltb, min, length, take, drop,
  contains, nat_eq,
}
use hybrid_search.Prelude.Text.{Str}
use hybrid_search.Prelude.Int.{is_ℤ}
use hybrid_search.Data.Words.{split_tab, parse_int}
use hybrid_search.Dense.Encoder.{Model, Limits, Matrix, encode_passages}

-- `CHUNK`
abbrev pub chunk : ℕ
chunk = 20000

-- What stops a run: `SystemExit`, `ValueError`, `IndexError` and `AssertionError`.
pub data Error : Type 0 where
  no_room : Error
  no_tab : Error
  bad_pid : Error
  no_docid : Error
  wrong_pid : ℕ → Error
  rows_missing : Error
  bad_norms : Error

-- `n` and `chunks_logged` of `passages.stats.json`.
pub record Stats : Type 0 where
  pub n : ℕ
  pub chunks_logged : ℕ

unfoldable pub nth_or {ℓ} : {A : Type ℓ} → Option A → Error → Result Error A
nth_or none e = err e
nth_or (some a) e = ok a

abbrev pub head? {ℓ} : {A : Type ℓ} → List A → Option A
head? [] = none
head? (x ∷ xs) = some x

-- The loop over the collection, from row `i` on: the texts, empty ones in chunks that are done.
unfoldable pub read_texts : List ℕ → ℕ → List ℕ → List Str → Result Error (List Str)
unfolding nth_or
read_texts done i ids [] = ok []
read_texts done i ids (line ∷ lines) = do
  p ← nth_or (split_tab line) no_tab
  pid ← nth_or (parse_int p.0) bad_pid
  id ← nth_or (head? ids) no_docid
  if is_ℤ id pid then ok tt else err (wrong_pid i)
  texts ← read_texts done (suc i) (drop 1 ids) lines
  ok ((if contains done (i / chunk) then [] else p.1) ∷ texts)

-- `(n + CHUNK - 1) // CHUNK`
abbrev pub chunk_count : ℕ → ℕ
chunk_count n = (n + chunk - 1) / chunk

-- `sum(r["rows"])` of `passages.chunks.log`.
abbrev pub logged_rows : List (ℕ × ℕ) → ℕ
logged_rows [] = 0
logged_rows ((c, rows) ∷ log) = rows + logged_rows log

module _ (m : Model) where
  open m use {Row}

  -- A row of zeros is what `truncate` makes.
  pub record Inputs : Type 0 where
    pub limits : Limits
    pub zeros : Row
    pub ids : List ℕ
    pub collection : List Str
    pub has_room : Bool
    -- The check of a sample of the norms.
    pub norms_ok : Matrix m → Bool

  -- The files under `OUT`. A partial file is whole or still shorter than the matrix; what it is short
  -- of reads as zeros once it is extended. Of either file, whether it begins with its header.
  pub record Disk : Type 0 where
    pub final : Option (Matrix m)
    pub final_headed : Bool
    pub partial : Option (Bool × Matrix m)
    pub partial_headed : Bool
    pub progress : Option (List ℕ)
    pub log : List (ℕ × ℕ)
    pub stats : Option Stats

  pub data Effect : Type 0 where
    -- `open(partial, "wb")`, the writing of the header, and `truncate`; `np.memmap` with "r+" also
    -- extends a file that is too short.
    create : Matrix m → Effect
    write_header : Effect
    extend : Effect
    clear_progress : Effect
    -- `mm[s:e] = rows`
    write_chunk : ℕ → ℕ → Matrix m → Effect
    add_progress : ℕ → Effect
    add_log : ℕ → ℕ → Effect
    -- `os.replace(partial, final)`
    publish : Effect
    drop_progress : Effect
    write_stats : Stats → Effect

  unfoldable pub write_slice : ℕ → ℕ → Matrix m → Matrix m → Matrix m
  write_slice s e rows mm i = if leb s i && ltb i e then rows (i - s) else mm i

  abbrev pub or_empty : Option (List ℕ) → List ℕ
  or_empty none = []
  or_empty (some done) = done

  abbrev pub write_partial : ℕ → ℕ → Matrix m → Option (Bool × Matrix m) → Option (Bool × Matrix m)
  unfolding write_slice
  write_partial s e rows none = none
  write_partial s e rows (some (whole, mm)) = some (whole, write_slice s e rows mm)

  abbrev pub extended : Option (Bool × Matrix m) → Option (Bool × Matrix m)
  extended none = none
  extended (some (whole, mm)) = some (true, mm)

  abbrev pub rows_of : Option (Bool × Matrix m) → Option (Matrix m)
  rows_of none = none
  rows_of (some (whole, mm)) = some mm

  unfoldable pub apply : Effect → Disk → Disk
  unfolding write_slice
  apply (create mm) d = record d { partial = some (false, mm); partial_headed = false }
  apply write_header d = record d { partial_headed = true }
  apply extend d = record d { partial = extended d.partial }
  apply clear_progress d = record d { progress = some [] }
  apply (write_chunk s e rows) d = record d { partial = write_partial s e rows d.partial }
  apply (add_progress c) d = record d { progress = some (or_empty d.progress ++ c ∷ []) }
  apply (add_log c rows) d = record d { log = d.log ++ (c, rows) ∷ [] }
  apply publish d = record d {
    final = rows_of d.partial;
    final_headed = d.partial_headed;
    partial = none;
  }
  apply drop_progress d = record d { progress = none }
  apply (write_stats stats) d = record d { stats = some stats }

  unfoldable pub run : List Effect → Disk → Disk
  unfolding apply
  run [] d = d
  run (e ∷ es) d = run es (apply e d)

  -- The loop over the chunks from `c` on, with the matrix that it leaves. A chunk's texts are read
  -- once, so that they need not be let go here.
  unfoldable pub encode_chunks :
      Limits → List ℕ → List Str → ℕ → ℕ → ℕ → Matrix m → List Effect × Matrix m
  unfolding write_slice encode_passages
  encode_chunks l done texts n zero c mm = ([], mm)
  encode_chunks l done texts n (suc k) c mm =
      let s = c * chunk in
      let e = min n (suc c * chunk) in
      let rows = encode_passages m l (take (e - s) (drop s texts)) in
      let skipped = encode_chunks l done texts n k (suc c) mm in
      let rest = encode_chunks l done texts n k (suc c) (write_slice s e rows mm) in
      if contains done c
      then skipped
      else (write_chunk s e rows ∷ add_progress c ∷ add_log c (e - s) ∷ rest.0, rest.1)

  -- The statistics, from the log when the chunks are done.
  abbrev pub stats_of : ℕ → Disk → Stats
  stats_of n d = record { n = n; chunks_logged = logged_rows d.log / chunk }

  -- From the check of the norms on: `es` are the effects so far.
  unfoldable pub finish :
      Inputs → Disk → List Effect → Matrix m → List Effect × Result Error (Option Stats)
  unfolding run
  finish x d es mm =
      let stats = stats_of (length x.ids) (run es d) in
      if x.norms_ok mm
      then (es ++ publish ∷ drop_progress ∷ write_stats stats ∷ [], ok (some stats))
      else (es, err bad_norms)

  -- From the reading of the texts on, with the effects so far.
  unfoldable pub encode_rest :
      Inputs → Disk → List Effect → List ℕ → Matrix m → List Effect × Result Error (Option Stats)
  unfolding read_texts encode_chunks finish
  encode_rest x d es done mm = elim (read_texts done 0 x.ids x.collection) [
    | err e ↦ (es, err e)
    | ok texts ↦
        let n = length x.ids in
        let (more, mm') = encode_chunks x.limits done texts n (chunk_count n) 0 mm in
        if length texts == n then finish x d (es ++ more) mm' else (es, err rows_missing)
  ]

  -- What follows the test for the partial file.
  unfoldable pub resume :
      Inputs → Disk → Option (Bool × Matrix m) → List Effect × Result Error (Option Stats)
  unfolding encode_rest
  resume x d none =
      let mm : Matrix m = λ i. some x.zeros in
      if x.has_room
      then encode_rest x d (create mm ∷ write_header ∷ extend ∷ clear_progress ∷ []) [] mm
      else ([], err no_room)
  resume x d (some (false, mm)) = encode_rest x d (extend ∷ []) (or_empty d.progress) mm
  resume x d (some (true, mm)) = encode_rest x d [] (or_empty d.progress) mm

  -- `encode_passages`, the module's function.
  unfoldable pub encode_all : Inputs → Disk → List Effect × Result Error (Option Stats)
  unfolding resume
  encode_all x d = elim d.final [ some mm ↦ ([], ok d.stats) | none ↦ resume x d d.partial ]
