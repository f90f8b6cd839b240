-- ===== src/Lexical/Parity.antt =====
-- py/hybridsearch/lexical/parity.py: the runs of two engines are compared query by query. Rounding to
-- four digits and the tolerance `1.01e-4` are parameters; files are lists of lines.
pub mod Buckets
pub mod Causes
use hybrid_search.Prelude.{
  ℕ, ◌+◌, ◌-◌, Bool, true, false, ◌&&◌, ◌||◌, not, List, [], ◌∷◌, ◌++◌, map, Option, none, some,
  Result, ok, err, ◌>>=◌, if◌then◌else◌, ltb, length, take, select, contains, nat_eq,
}
use hybrid_search.Prelude.Text.{Str, str_eq, codes}
use hybrid_search.Prelude.Dict.{keys, get?, get_or, put}
use hybrid_search.Prelude.Sets.{union, elements_beq}
use hybrid_search.Prelude.Order.{sort_by}
use hybrid_search.Prelude.Int.{ℤ}
use hybrid_search.Prelude.Float.{Float, float_leb}
use hybrid_search.Data.Words.{split}
use hybrid_search.Data.Files.{ScoreText}
use hybrid_search.Lexical.Terms.{
  Error, number_of, fields_from, fields, Bucket, df_differs, as_set, bad_fields, identical,
  tie_order, tie_cutoff, score, length_quantisation, analyzer_vocab, analyzer_length, unexplained,
}

module _ (F : Float) (T : ScoreText F) where
  open F use {Num, of_nat, sub, abs, less}
  open T use {parse}

  abbrev pub Hits : Type 0
  Hits = List (Str × Num)

  abbrev pub Runs : Type 0
  Runs = List (Str × Hits)

  -- `runs[qid].append((doc, float(score)))`
  abbrev pub append_hit : Runs → Str → Str → Str → Result Error Runs
  append_hit runs qid doc s =
      number_of (parse s) s >>= λ x. ok (put runs qid (get_or runs qid [] ++ (doc, x) ∷ []))

  abbrev pub take_raw : Str → List Str → Runs → Result Error Runs
  take_raw line (qid ∷ doc ∷ rank ∷ s ∷ bits ∷ []) runs = append_hit runs qid doc s
  take_raw line parts runs = err (bad_fields line)

  -- The loop of `read_raw`.
  unfoldable pub read_raw : List Str → Runs → Result Error Runs
  unfolding fields_from get_or put
  read_raw [] runs = ok runs
  read_raw (line ∷ lines) runs = take_raw line (fields line) runs >>= λ more. read_raw lines more

  abbrev pub take_trec : Str → List Str → Runs → Result Error Runs
  take_trec line (qid ∷ q0 ∷ doc ∷ rank ∷ s ∷ tag ∷ []) runs = append_hit runs qid doc s
  take_trec line parts runs = err (bad_fields line)

  unfoldable pub read_lines : List Str → Runs → Result Error Runs
  unfolding split get_or put
  read_lines [] runs = ok runs
  read_lines (line ∷ lines) runs =
      take_trec line (split line) runs >>= λ more. read_lines lines more

  -- `read_trec`, which sorts the hits by `-x[1]`.
  unfoldable pub read_trec : List Str → Result Error Runs
  unfolding read_lines
  read_trec lines = read_lines lines [] >>= λ runs.
      ok (map (λ r. (r.0, sort_by (λ a b. not (less a.1 b.1)) r.1)) runs)

  -- `{d: float(len(v) - i) for i, (d, _) in enumerate(v)}`, where `left` hits are to come.
  unfoldable pub ranked_scores : ℕ → Hits → List (Str × Num) → List (Str × Num)
  ranked_scores left [] row = row
  ranked_scores left ((d, s) ∷ v) row = ranked_scores (left - 1) v (put row d (of_nat left))

  unfoldable pub as_run : Runs → List (Str × List (Str × Num))
  unfolding ranked_scores
  as_run [] = []
  as_run ((q, v) ∷ r) = (q, ranked_scores (length v) v []) ∷ as_run r

  module _ (base4 : Num → Num) (tolerance : Num) where
    -- `{d: base4(s) for d, s in a}`
    abbrev pub rounded : Hits → List (Str × Num) → List (Str × Num)
    rounded [] out = out
    rounded ((d, s) ∷ a) out = rounded a (put out d (base4 s))

    -- `abs(x - y) <= 1.01e-4`
    abbrev pub near : Num → Num → Bool
    near x y = float_leb F (abs (sub x y)) tolerance

    -- `abs(sa[d] - sb[d]) <= 1.01e-4` for all `ds`, which both have.
    abbrev pub all_near : List (Str × Num) → List (Str × Num) → List Str → Bool
    all_near sa sb [] = true
    all_near sa sb (d ∷ ds) =
        near (get_or sa d (of_nat 0)) (get_or sb d (of_nat 0)) && all_near sa sb ds

    -- `base4(a[-1][1]) if a else None`
    abbrev pub cut_of : Hits → Option Num
    cut_of [] = none
    cut_of ((d, s) ∷ []) = some (base4 s)
    cut_of (h ∷ h' ∷ a) = cut_of (h' ∷ a)

    -- `d in sa and cut_a is not None and abs(sa[d] - cut_a) <= 1.01e-4`
    abbrev pub near_cut : List (Str × Num) → Option Num → Str → Bool
    near_cut sa none d = false
    near_cut sa (some cut) d = contains (keys sa) d && near (get_or sa d (of_nat 0)) cut

    abbrev pub all_tied :
        List (Str × Num) → List (Str × Num) → Option Num → Option Num → List Str → Bool
    all_tied sa sb cut_a cut_b [] = true
    all_tied sa sb cut_a cut_b (d ∷ ds) =
        (near_cut sa cut_a d || near_cut sb cut_b d) && all_tied sa sb cut_a cut_b ds

    abbrev pub cuts_near : Option Num → Option Num → Bool
    cuts_near none cut_b = false
    cuts_near (some x) none = false
    cuts_near (some x) (some y) = near x y

    -- `set(sa) == set(sb)`, of dicts.
    abbrev pub same_keys : List (Str × Num) → List (Str × Num) → Bool
    same_keys sa sb =
        elements_beq (select (λ d. not (contains (keys sb) d)) (keys sa)) []
        && elements_beq (select (λ d. not (contains (keys sa) d)) (keys sb)) []

    -- From the two dicts on.
    unfoldable pub classify_scores :
        List (Str × Num) → List (Str × Num) → Option Num → Option Num → Bucket
    unfolding get_or
    classify_scores sa sb cut_a cut_b =
        let only =
          select (λ d. not (contains (keys sb) d)) (keys sa)
          ++ select (λ d. not (contains (keys sa) d)) (keys sb) in
        let common = select (contains (keys sb)) (keys sa) in
        if same_keys sa sb
        then (if all_near sa sb (keys sa) then tie_order else score)
        else if all_near sa sb common && all_tied sa sb cut_a cut_b only && cuts_near cut_a cut_b
        then tie_cutoff
        else score

    -- `classify`, with its `k = 10`.
    unfoldable pub classify : Hits → Hits → Bucket
    unfolding classify_scores put
    classify ours ref =
        let a = take 10 ours in
        let b = take 10 ref in
        if elements_beq (keys a) (keys b)
        then identical
        else classify_scores (rounded a []) (rounded b []) (cut_of a) (cut_of b)

    -- The term dictionaries, the terms of the queries, and whether the norms of a document differ.
    pub record Diagnostics : Type 0 where
      pub ours_df : List (Str × ℤ)
      pub ans_df : List (Str × ℤ)
      pub qterms : List (Str × List Str)
      pub norm_differs : Str → Bool

    abbrev pub any : (Str → Bool) → List Str → Bool
    any p [] = false
    any p (d ∷ ds) = p d || any p ds

    abbrev pub is_score : Bucket → Bool
    is_score score = true
    is_score identical = false
    is_score tie_order = false
    is_score tie_cutoff = false
    is_score length_quantisation = false
    is_score analyzer_vocab = false
    is_score analyzer_length = false
    is_score unexplained = false

    -- `{d for d, _ in a[:10]}`
    abbrev pub top_docs : Hits → List Str
    top_docs a = as_set (keys (take 10 a))

    unfoldable pub diagnose : Option Diagnostics → Str → Hits → Hits → Bucket
    unfolding get? get_or
    diagnose none q a b = unexplained
    diagnose (some diag) q a b =
        if any (df_differs diag.ours_df diag.ans_df) (get_or diag.qterms q [])
        then analyzer_vocab
        else if any diag.norm_differs (union (top_docs a) (top_docs b))
        then analyzer_length
        else unexplained

    -- `classify(runs["lucene"].get(q, []), b) != "score"`, for the textbook model's run.
    abbrev pub is_explained : Option Runs → Str → Hits → Bool
    unfolding classify get_or
    is_explained none q b = false
    is_explained (some lucene) q b = not (is_score (classify (get_or lucene q []) b))

    -- The bucket of a query; `lucene` is there if the run is the textbook model's.
    unfoldable pub bucket_of : Option Runs → Option Diagnostics → Str → Hits → Hits → Bucket
    unfolding classify diagnose is_explained get_or
    bucket_of lucene diag q a b =
        let c = classify a b in
        if is_score c
        then (if is_explained lucene q b then length_quantisation else diagnose diag q a b)
        else c

    -- `len({d for d, _ in a[:10]} & {d for d, _ in b[:10]})`
    unfoldable pub overlap : Hits → Hits → ℕ
    overlap a b = length (select (contains (top_docs b)) (top_docs a))

    -- `buckets`, `overlaps` and `examples`, the buckets by their names.
    pub record Report : Type 0 where
      pub buckets : List (Str × ℕ)
      pub overlaps : List ℕ
      pub examples : List (Str × List Str)

    abbrev pub name_of : Bucket → Str
    name_of identical = codes "identical"
    name_of tie_order = codes "tie_order"
    name_of tie_cutoff = codes "tie_cutoff"
    name_of score = codes "score"
    name_of length_quantisation = codes "length_quantisation"
    name_of analyzer_vocab = codes "analyzer_vocab"
    name_of analyzer_length = codes "analyzer_length"
    name_of unexplained = codes "unexplained"

    -- `if c not in ("identical",) and len(examples[c]) < 5`; looking `examples[c]` up makes it.
    abbrev pub add_example : Bucket → Str → List (Str × List Str) → List (Str × List Str)
    add_example identical q examples = examples
    add_example c q examples =
        let old = get_or examples (name_of c) [] in
        put examples (name_of c) (if ltb (length old) 5 then old ++ q ∷ [] else old)

    -- The body of the loop over the judged queries.
    unfoldable pub add_query :
        Option Runs → Option Diagnostics → Str → Hits → Hits → Report → Report
    unfolding bucket_of overlap put get_or
    add_query lucene diag q a b report =
        let c = bucket_of lucene diag q a b in
        record {
          buckets = put report.buckets (name_of c) (get_or report.buckets (name_of c) 0 + 1);
          overlaps = report.overlaps ++ overlap a b ∷ [];
          examples = add_example c q report.examples;
        }

    unfoldable pub compare_runs :
        Option Runs → Option Diagnostics → Runs → Runs → List Str → Report → Report
    unfolding add_query get_or
    compare_runs lucene diag r ans [] report = report
    compare_runs lucene diag r ans (q ∷ qs) report =
        compare_runs lucene diag r ans qs
          (add_query lucene diag q (get_or r q []) (get_or ans q []) report)
