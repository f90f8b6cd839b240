-- ===== src/Fusion/Runs/Written.antt =====
-- `write_run_exact` of py/hybridsearch/fusion/runs.py: its own check passes.
use hybrid_search.Prelude.{
  ℕ, suc, ◌≡◌, refl, true, false, List, [], ◌∷◌, ◌++◌, map, some, arith, ok, ◌==◌, Bool-cases, inl,
  inr, contains, Distinct, All, ==_eq, ==_refl, ◌∙◌, sym, ap, append-nil, append_assoc, length, ap₂,
}
use mathlib.Core.List.{map-append}
use hybrid_search.Prelude.Text.{Str, str_eq}
use hybrid_search.Prelude.Dict.{
  keys, values, get?, put, get?-put, put_new, keys-append, values-append,
}
use hybrid_search.Prelude.Sets.{Distinct-middle, All-of_contains, elements_beq_refl}
use hybrid_search.Prelude.Order.{IsSorted, sort_by_of_IsSorted}
use hybrid_search.Prelude.Float.{Float}
use hybrid_search.Eval.Metrics.{rank_run, ranks_before}
use hybrid_search.Fusion.Core.{Ranking, zip_into}
use hybrid_search.Fusion.Printed.{Printing}
use hybrid_search.Fusion.Printed.Descending.{Lowers, Printable, IsDescending, run_file_scores_lem}
use hybrid_search.Fusion.Runs.{
  Run, Line, lines_from, score_dicts, as_score_dict, write_queries, write_run_exact,
}

pub length-keys : {V : Type 0} (r : List (Str × V)) → length r ≡ length (keys r)
length-keys [] = refl
length-keys ((d, s) ∷ r) = ap suc (length-keys r)

module _ (F : Float) where
  open F use {Num, less}

  -- A dict whose scores fall is ranked in its own order.
  falls_sorted :
      (d : Str) (v : Num) (sd : List (Str × Num))
      → All (λ w. less w v ≡ true) (values sd)
      → All (λ p. ranks_before F (d, v) p ≡ true) sd
  unfolding ranks_before
  falls_sorted d v [] h = tt
  falls_sorted d v ((e, w) ∷ sd) h = (rw h.0 refl, falls_sorted d v sd h.1)

  descending-IsSorted :
      (sd : List (Str × Num)) → IsDescending F (values sd) → IsSorted (ranks_before F) sd
  descending-IsSorted [] h = tt
  descending-IsSorted ((d, v) ∷ sd) h = (falls_sorted d v sd h.0, descending-IsSorted sd h.1)

  pub rank_run_descending :
      (sd : List (Str × Num)) → IsDescending F (values sd) → rank_run F sd ≡ keys sd
  unfolding rank_run
  rank_run_descending sd h =
      ap keys (sort_by_of_IsSorted (ranks_before F) sd (descending-IsSorted sd h))

  -- New keys are appended in order.
  pub zip_into_new :
      (ds : List Str) (ns : List Num) (t : List (Str × Num))
      → length ns ≡ length ds
      → Distinct (keys t ++ ds)
      → (keys (zip_into F ds ns t) ≡ keys t ++ ds) × (values (zip_into F ds ns t) ≡ values t ++ ns)
  unfolding zip_into
  zip_into_new [] [] t h u = (sym (append-nil (keys t)), sym (append-nil (values t)))
  zip_into_new [] (n ∷ ns) t h u = absurd (omega arith)
  zip_into_new (d ∷ ds) [] t h u = absurd (omega arith)
  zip_into_new (d ∷ ds) (n ∷ ns) t h u =
      let step : put t d n ≡ t ++ (d, n) ∷ [] = put_new t d n (Distinct-middle (keys t) d ds u) in
      let ks : keys (put t d n) ≡ keys t ++ d ∷ [] = ap keys step ∙ keys-append t ((d, n) ∷ []) in
      let vs : values (put t d n) ≡ values t ++ n ∷ [] =
        ap values step ∙ values-append t ((d, n) ∷ []) in
      let u' : Distinct (keys (put t d n) ++ ds) = rw (ks, append_assoc (keys t) (d ∷ []) ds) u in
      let (p, q) = zip_into_new ds ns (put t d n) (omega arith) u' in
      (
        p ∙ ap (λ l. l ++ ds) ks ∙ append_assoc (keys t) (d ∷ []) ds,
        q ∙ ap (λ l. l ++ ns) vs ∙ append_assoc (values t) (n ∷ []) ns,
      )

  -- What the scores hold of a ranking: its documents in order, at falling scores, so that the
  -- evaluator ranks them in this order.
  pub record IsWritten (scores : List (Str × List (Str × Num))) (q : Str) (r : Ranking F)
      : Type 0 where
    pub dict : List (Str × Num)
    pub found : get? scores q ≡ some dict
    pub same_docs : keys dict ≡ keys r
    pub falling : IsDescending F (values dict)

  pub IsWritten-rank_run :
      (scores : List (Str × List (Str × Num))) (q : Str) (r : Ranking F) (w : IsWritten scores q r)
      → rank_run F w.dict ≡ keys r
  IsWritten-rank_run scores q r w = rank_run_descending w.dict w.falling ∙ w.same_docs

  -- The queries, ranks and documents of the lines for these rankings.
  abbrev pub rows_from : Str → ℕ → List Str → List (Str × ℕ × Str)
  rows_from q i [] = []
  rows_from q i (d ∷ ds) = (q, i, d) ∷ rows_from q (suc i) ds

  abbrev pub rows : Run F → List (Str × ℕ × Str)
  rows [] = []
  rows ((q, r) ∷ run) = rows_from q 1 (keys r) ++ rows run

  abbrev pub row_of : Line F → Str × ℕ × Str
  row_of l = (l.query, l.rank, l.doc)

  module _ (P : Printing F) (fuel : ℕ) where
    -- Every document of the ranking has a score.
    abbrev HasScores : List (Str × Num) → List Str → Type 0
    HasScores sd = All (λ d. contains (keys sd) d ≡ true)

    get?_held :
        (sd : List (Str × Num)) (d : Str)
        → contains (keys sd) d ≡ true
        → (v : Num) × (get? sd d ≡ some v)
    unfolding get?
    get?_held [] d h = absurd (cc)
    get?_held ((e, v) ∷ sd) d h = elim (Bool-cases (d == e)) [
      | inl p ↦ (v, rw p refl)
      | inr p ↦ let (w, q) = get?_held sd d (ground arith) in (w, rw p q)
    ]

    lines_from_lem :
        (tag q : Str) (sd : List (Str × Num)) (i : ℕ) (r : Ranking F)
        → HasScores sd (keys r)
        → (lines : List (Line F)) × (lines_from F P fuel tag q sd i r ≡ ok lines)
          × (map row_of lines ≡ rows_from q i (keys r))
    unfolding lines_from
    lines_from_lem tag q sd i [] h = ([], refl, refl)
    lines_from_lem tag q sd i ((d, s) ∷ r) h =
        let (v, e) = get?_held sd d h.0 in
        let (lines, e', rest) = lines_from_lem tag q sd (suc i) r h.1 in
        (
          record { query = q; doc = d; rank = i; score = P.rounded v; tag = tag } ∷ lines,
          rw (e, e') refl,
          ap (◌∷◌ (q, i, d)) rest,
        )

    module _ (InRange : ℕ → Num → Type 0) (L : Lowers F P InRange fuel) where
      -- Rankings that can be written: no document twice, and every score can be printed.
      abbrev pub IsWritable : Run F → Type 0
      IsWritable [] = Unit
      IsWritable ((q, r) ∷ run) =
          Distinct (keys r) × Printable F P InRange (values r) × IsWritable run

      abbrev AllWritten : List (Str × List (Str × Num)) → Run F → Type 0
      AllWritten scores [] = Unit
      AllWritten scores ((q, r) ∷ run) = IsWritten scores q r × AllWritten scores run

      score_dicts_lem :
          (run : Run F) (out : List (Str × List (Str × Num)))
          → Distinct (keys run)
          → IsWritable run
          → (scores : List (Str × List (Str × Num))) × (score_dicts F P fuel run out ≡ ok scores)
            × AllWritten scores run
            × ((q : Str) → contains (keys run) q ≡ false → get? scores q ≡ get? out q)
      unfolding score_dicts
      score_dicts_lem [] out u w = (out, refl, tt, λ q h. refl)
      score_dicts_lem ((q, r) ∷ run) out u w =
          let (sc, e, n, desc) = run_file_scores_lem F P InRange fuel L r w.1 in
          let (ks, vs) = zip_into_new (keys r) sc [] (n ∙ length-keys r) w.0 in
          let sd = zip_into F (keys r) sc [] in
          let (scores, e', rest, others) = score_dicts_lem run (put out q sd) u.1 w.2 in
          (
            scores,
            rw (e, e') refl,
            (
              record {
                dict = sd;
                found = others q u.0 ∙ get?-put out q q sd ∙ rw (==_refl q) refl;
                same_docs = ks;
                falling = rw vs desc;
              },
              rest,
            ),
            λ p h. others p (ground arith) ∙ get?-put out q p sd ∙ (ground arith),
          )

      written_at :
          (scores : List (Str × List (Str × Num))) (run : Run F)
          → AllWritten scores run
          → (q : Str) (r : Ranking F) → get? run q ≡ some r
          → (sd : List (Str × Num)) × (get? scores q ≡ some sd) × (rank_run F sd ≡ keys r)
      unfolding get?
      written_at scores [] w q r h = absurd (cc)
      written_at scores ((p, t) ∷ run) w q r h = elim (Bool-cases (q == p)) [
        | inl e ↦
            let same : q ≡ p = ==_eq q p e in
            let same' : r ≡ t = ground arith in
            rw (same, same') (w.0.dict, w.0.found, IsWritten-rank_run scores p t w.0)
        | inr e ↦ written_at scores run w.1 q r (rw e at h)
      ]

      write_queries_lem :
          (tag : Str) (scores : List (Str × List (Str × Num))) (run : Run F)
          → AllWritten scores run
          → (lines : List (Line F)) × (write_queries F P fuel tag scores run ≡ ok lines)
            × (map row_of lines ≡ rows run)
      unfolding write_queries
      write_queries_lem tag scores [] w = ([], refl, refl)
      write_queries_lem tag scores ((q, r) ∷ run) w =
          let (lines, e, m) =
            lines_from_lem tag q w.0.dict 1 r
              (All-of_contains _ (keys r) (λ d h. rw w.0.same_docs h)) in
          let (rest, e', m') = write_queries_lem tag scores run w.1 in
          (
            lines ++ rest,
            rw (w.0.found, IsWritten-rank_run scores q r w.0, elements_beq_refl (keys r), e, e')
                refl,
            map-append row_of lines rest ∙ ap₂ ◌++◌ m m',
          )

      -- For queries that are written once, rankings that repeat no document, and scores that
      -- `run_file_scores` can print, `write_run_exact` returns: its check never fails. The evaluator ranks the scores that it
      -- returns for each query in the order of the ranking, and the lines of the file have the
      -- documents of each query in this order, numbered from 1.
      pub write_run_exact_lem :
          (run : Run F) (tag : Str)
          → Distinct (keys run)
          → IsWritable run
          → (lines : List (Line F)) × (scores : List (Str × List (Str × Num))) × (write_run_exact F
                P fuel run tag
              ≡ ok (lines, scores))
            × ((q : Str) (r : Ranking F)
                → get? run q ≡ some r
                → (sd : List (Str × Num)) × (get? scores q ≡ some sd) × (rank_run F sd ≡ keys r))
            × (map row_of lines ≡ rows run)
      unfolding write_run_exact as_score_dict
      write_run_exact_lem run tag u w =
          let (scores, e, written, others) = score_dicts_lem run [] u w in
          let (lines, e', m) = write_queries_lem tag scores run written in
          (lines, scores, rw (e, e') refl, written_at scores run written, m)
