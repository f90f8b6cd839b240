-- ===== src/Dense/Passages/Runs.antt =====
-- Whole runs of `encode_passages` of py/hybridsearch/dense/encode.py, cut off or not.
use hybrid_search.Prelude.{
  ℕ, ◌≡◌, refl, sym, subst, ap, ◌≢◌, Bool, true, false, List, [], ◌∷◌, ◌++◌, map, Option, none,
  some, ok, err, Result-cases, Option-cases, length, take, nat_eq, All, Bool-cases, inl, inr, ◌==◌,
  ==_eq,
}
use hybrid_search.Prelude.Text.{Str}
use hybrid_search.Dense.Encoder.{Model, Matrix, passage_max_len}
use hybrid_search.Dense.Passages.{
  write_header, extended, no_room, rows_missing, Stats, read_texts, chunk_count, Inputs, Disk,
  Effect, create, extend, clear_progress, or_empty, apply, run, encode_chunks, finish, encode_rest,
  resume, encode_all,
}
use hybrid_search.Dense.Passages.Texts.{read_texts_lem}
use hybrid_search.Dense.Passages.Safe.{
  IsRight, IsChunkRight, SafeRun, SafeRun-take, SafeRun-end, SafeRun-append, Amid, Amid-IsSafe,
  IsSafe, Published, IsGood, raise_safe, finish_safe,
}
use hybrid_search.Dense.Passages.Chunks.{chunks_safe, loop_right}
use hybrid_search.Dense.Passages.Headers.{
  HasHeaders, take-HasHeaders, run-HasHeaders, encode_all-IsHeaded, headed_some,
}

module _ (m : Model) (x : Inputs m) (row : Str → m.Row)
    (by_row : (ts : List Str) → m.encode_batch ts passage_max_len ≡ map row ts) where
  abbrev n : ℕ
  n = length x.ids

  -- From the texts on.
  rest_safe :
      (d : Disk m) (es : List (Effect m)) (done : List ℕ) (mm : Matrix m)
      → SafeRun m x row (Amid m x row mm) es d
      → All (IsChunkRight m x row mm) done
      → IsGood m x row d (encode_rest m x d es done mm)
  unfolding encode_rest
  rest_safe d es done mm h right = elim (Result-cases (read_texts done 0 x.ids x.collection)) [
    | inl (e, p) ↦
        let same : encode_rest m x d es done mm ≡ (es, err e) = rw (p, encode_rest) refl in
        subst (IsGood m x row d) (sym same) (raise_safe m x row mm es d e h)
    | inr (texts, p) ↦ elim (Bool-cases (length texts == n)) [
      | inr q ↦
          let same : encode_rest m x d es done mm ≡ (es, err rows_missing) =
            rw (p, encode_rest, q) refl in
          subst (IsGood m x row d) (sym same) (raise_safe m x row mm es d rows_missing h)
      | inl q ↦
          let own = read_texts_lem done 0 x.ids x.collection texts p in
          let len : length texts ≡ n = ==_eq (length texts) n q in
          let (more, mm') = encode_chunks m x.limits done texts n (chunk_count n) 0 mm in
          let same : encode_rest m x d es done mm ≡ finish m x d (es ++ more) mm' =
            rw (p, encode_rest, q) refl in
          subst (IsGood m x row d) (sym same) (
            finish_safe m x row mm' (es ++ more) d
              (SafeRun-append m x row (Amid m x row mm) (Amid m x row mm') es more d h
                (λ d' a. chunks_safe m x row by_row done texts own len (chunk_count n) 0 mm d' a))
              (loop_right m x row by_row done texts own len mm right))
    ]
  ]

  resume_safe :
      (d : Disk m) (partial : Option (Bool × Matrix m))
      → IsSafe m x row d
      → d.final ≡ none
      → d.partial ≡ partial
      → IsGood m x row d (resume m x d partial)
  unfolding resume apply
  resume_safe d none safe f p = elim (Bool-cases x.has_room) [
    | inr e ↦
        let same : resume m x d none ≡ ([], err no_room) = rw e refl in
        subst (IsGood m x row d) (sym same) (safe, tt)
    | inl e ↦
        let mm : Matrix m = λ i. some x.zeros in
        let es = create mm ∷ write_header ∷ extend ∷ clear_progress ∷ [] in
        let same : resume m x d none ≡ encode_rest m x d es [] mm = rw e refl in
        let empty : or_empty m d.progress ≡ [] = rw p at (safe.kept f) in
        let d1 = apply m (create mm) d in
        let d1' = apply m write_header d1 in
        let d2 = apply m extend d1' in
        let d3 = apply m clear_progress d2 in
        let a2 : Amid m x row mm d2 = record {
          open_still = f;
          whole = refl;
          right = rw empty tt;
        } in
        let a3 : Amid m x row mm d3 = record { open_still = f; whole = refl; right = tt } in
        let s1 : IsSafe m x row d1 = record { published = λ r h. cc; kept = λ h. rw empty tt } in
        let s1' : IsSafe m x row d1' = record { published = λ r h. cc; kept = λ h. rw empty tt } in
        subst (IsGood m x row d) (sym same) (
          rest_safe d es [] mm
            (safe, (s1, (s1', (Amid-IsSafe m x row mm d2 a2, (Amid-IsSafe m x row mm d3 a3, a3)))))
            tt)
  ]
  resume_safe d (some (false, mm)) safe f p =
      let held : All (IsChunkRight m x row mm) (or_empty m d.progress) = rw p at (safe.kept f) in
      let a : Amid m x row mm (apply m extend d) = record {
        open_still = f;
        whole = ap (extended m) p;
        right = held;
      } in
      rest_safe d (extend ∷ []) (or_empty m d.progress) mm
        (safe, (Amid-IsSafe m x row mm (apply m extend d) a, a)) held
  resume_safe d (some (true, mm)) safe f p =
      let held : All (IsChunkRight m x row mm) (or_empty m d.progress) = rw p at (safe.kept f) in
      let a : Amid m x row mm d = record { open_still = f; whole = p; right = held } in
      rest_safe d [] (or_empty m d.progress) mm (safe, a) held

  encode_all_safe : (d : Disk m) → IsSafe m x row d → IsGood m x row d (encode_all m x d)
  unfolding encode_all
  encode_all_safe d safe = elim (Option-cases d.final) [
    | inl f ↦
        let same : encode_all m x d ≡ resume m x d d.partial = rw f refl in
        subst (IsGood m x row d) (sym same) (resume_safe d d.partial safe f refl)
    | inr (mm, f) ↦
        let same : encode_all m x d ≡ ([], ok d.stats) = rw f refl in
        subst (IsGood m x row d) (sym same) (safe, (mm, f, safe.published mm f))
  ]

-- For a model that encodes a batch text by text: from safe files, `encode_passages` may be cut off
-- after any number of its effects, and leaves safe files again, so that it may be run, cut off and
-- run again for ever. Files are safe if a published matrix has for each passage its own row, and if
-- the chunks that the progress file names are right in the partial file. The header of the published
-- and of the partial file stays, too, unless the run is cut off after its first effect, which may be
-- the opening of a new partial file.
pub encode_all_cut :
    (m : Model) (x : Inputs m) (row : Str → m.Row) (d : Disk m) (k : ℕ)
    (by_row : (ts : List Str) → m.encode_batch ts passage_max_len ≡ map row ts)
    → IsSafe m x row d
    → IsSafe m x row (run m (take k (encode_all m x d).0) d)
      × (k ≢ 1 → HasHeaders m d → HasHeaders m (run m (take k (encode_all m x d).0) d))
encode_all_cut m x row d k by_row safe =
    let r = encode_all m x d in
    (
      SafeRun-take m x row (Published m x row r.1) k r.0 d (encode_all_safe m x row by_row d safe),
      λ many h. take-HasHeaders m k r.0 d many (encode_all-IsHeaded m x d) h,
    )

-- For a model that encodes a batch text by text: a run from safe files that returns, whatever runs
-- were cut off before it, has published a matrix in which each passage has its own row, in a file
-- with its header if the files had theirs before the run.
pub encode_all_returns :
    (m : Model) (x : Inputs m) (row : Str → m.Row) (d : Disk m) (stats : Option Stats)
    (by_row : (ts : List Str) → m.encode_batch ts passage_max_len ≡ map row ts)
    → IsSafe m x row d
    → (encode_all m x d).1 ≡ ok stats
    → (mm : Matrix m) × ((run m (encode_all m x d).0 d).final ≡ some mm)
      × IsRight m x row mm
      × (HasHeaders m d → (run m (encode_all m x d).0 d).final_headed ≡ true)
encode_all_returns m x row d stats by_row safe h =
    let r = encode_all m x d in
    let end : Published m x row r.1 (run m r.0 d) =
      SafeRun-end m x row (Published m x row r.1) r.0 d (encode_all_safe m x row by_row d safe) in
    let (mm, f, right) = subst (λ o. Published m x row o (run m r.0 d)) h end in
    (
      mm,
      f,
      right,
      λ heads.
          let h' = run-HasHeaders m r.0 d (encode_all-IsHeaded m x d) heads in
          headed_some (run m r.0 d).final (run m r.0 d).final_headed mm f h'.0,
    )
