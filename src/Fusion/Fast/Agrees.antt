-- ===== src/Fusion/Fast/Agrees.antt =====
-- The fast RRF against `rrf`.
use hybrid_search.Prelude.{
  ℕ, ◌≡◌, refl, true, false, ◌||◌, List, [], ◌∷◌, map, ok, Option, none, some, arith, inl, inr,
  contains, Distinct, All, ◌∙◌, ap, sym,
}
use hybrid_search.Prelude.Text.{Str, str_eq}
use hybrid_search.Prelude.Int.{ℤ}
use hybrid_search.Prelude.Dict.{keys, values}
use hybrid_search.Prelude.Sets.{union, contains-union, Distinct-union}
use hybrid_search.Prelude.Order.{IsSorted, IsTotalPreorder, sort_by, sort_by-IsSorted}
use hybrid_search.Prelude.Order.Stable.{sort_by_stable}
use hybrid_search.Prelude.Order.Keyed.{get?-sort_by, Distinct-keys-sort_by}
use hybrid_search.Prelude.Order.Unique.{contains_of_same, contains-sort_by, Distinct-sort_by}
use hybrid_search.Prelude.Float.{Float}
use hybrid_search.Fusion.Core.{
  Ranking, cut, reciprocal, rrf, fused_before, docid_key, lowest, minmax, zscore,
}
use hybrid_search.Fusion.Core.Checks.{IsDepth, truncate_lem}
use hybrid_search.Fusion.Core.Order.{fused_before-IsTotalPreorder, key_leb_total, key_leb_trans}
use hybrid_search.Fusion.Core.Parts.{IsMethod, normalise_lem}
use hybrid_search.Fusion.Core.Rrf.{rank_from, rrf_score, contribute, IsFused, rrf_lem}
use hybrid_search.Fusion.Core.Weighted.{IsSetOrder, keys_scored, get?_scored}
use hybrid_search.Fusion.Fast.Ranks.{ranks}
use hybrid_search.Fusion.Core.Unique.{IsApart, IsFused-unique}
use hybrid_search.Fusion.Fast.{
  id_before, QueryCands, write_ranks, write_norms, full, candidates, norm_arrays, norm_array,
  prepare, pairs, higher, order, rank_part, add_arrays, rrf_scores, rrf_fast,
}

module _ (F : Float) where
  open F use {Num, of_nat, add, less}

  -- The fast score of a document.
  abbrev fast_score : Num → Ranking F → Ranking F → Str → Num
  fast_score k lex dense d =
      add (rank_part F k (rank_from F 1 lex d)) (rank_part F k (rank_from F 1 dense d))

  pairs-add_arrays :
      (f g : Str → Option ℕ) (k : Num) (docs : List Str)
      → pairs F docs
          (add_arrays F (map (rank_part F k) (map f docs)) (map (rank_part F k) (map g docs)))
        ≡ map (λ d. (d, add (rank_part F k (f d)) (rank_part F k (g d)))) docs
  unfolding pairs add_arrays
  pairs-add_arrays f g k [] = refl
  pairs-add_arrays f g k (d ∷ docs) =
      ap (◌∷◌ (d, add (rank_part F k (f d)) (rank_part F k (g d)))) (pairs-add_arrays f g k docs)

  -- Adding zero changes no term of RRF.
  pub record AddsZero (k : Num) : Type 0 where
    pub none_left : add (of_nat 0) (of_nat 0) ≡ of_nat 0
    pub left : (n : ℕ) → add (of_nat 0) (reciprocal F k n) ≡ reciprocal F k n
    pub right : (n : ℕ) → add (reciprocal F k n) (of_nat 0) ≡ reciprocal F k n

  fast_score_lem :
      (k : Num) (lex dense : Ranking F) (d : Str)
      → AddsZero k
      → fast_score k lex dense d ≡ rrf_score F k (lex ∷ dense ∷ []) (of_nat 0) d
  fast_score_lem k lex dense d z = terms (rank_from F 1 lex d) (rank_from F 1 dense d)
    where
      terms :
          (a b : Option ℕ)
          → add (rank_part F k a) (rank_part F k b) ≡ contribute F k (contribute F k (of_nat 0) a) b
      terms none none = z.none_left
      terms none (some n) = refl
      terms (some m) none = z.right m ∙ sym (z.left m)
      terms (some m) (some n) = ap (λ x. add x (reciprocal F k n)) (sym (z.left m))

  IsSorted-scored :
      (f : Str → Num) (docs : List Str)
      → IsSorted id_before docs
      → IsSorted {A = Str × Num} (λ p q. id_before p.0 q.0) (map (λ d. (d, f d)) docs)
  IsSorted-scored f [] s = tt
  IsSorted-scored f (d ∷ docs) s = (each docs s.0, IsSorted-scored f docs s.1)
    where
      each :
          (ds : List Str)
          → All (λ e. id_before d e ≡ true) ds
          → All {A = Str × Num} (λ q. id_before d q.0 ≡ true) (map (λ e. (e, f e)) ds)
      each [] h = tt
      each (e ∷ ds) h = (h.0, each ds h.1)

  higher-joins :
      (p q : Str × Num) → higher F p q ≡ true → id_before p.0 q.0 ≡ true → fused_before F p q ≡ true
  unfolding fused_before
  higher-joins (d, x) (e, y) h t = ground arith

  higher-after : (p q : Str × Num) → higher F p q ≡ false → fused_before F q p ≡ true
  unfolding fused_before
  higher-after (d, x) (e, y) h = ground arith

  id_before-IsTotalPreorder : IsTotalPreorder id_before
  id_before-IsTotalPreorder = record {
    total = λ d e. key_leb_total (docid_key d) (docid_key e);
    trans = λ d e f. key_leb_trans (docid_key d) (docid_key e) (docid_key f);
  }

  module _ (set_order : List Str → List Str) (o : IsSetOrder set_order) (lex dense : Ranking F)
      (u : Distinct (keys lex)) (v : Distinct (keys dense)) where
    candidates-Distinct : Distinct (candidates F set_order lex dense)
    unfolding candidates
    candidates-Distinct =
        Distinct-sort_by id_before _
          (o (union (keys lex) (keys dense)) (Distinct-union (keys lex) (keys dense) u v)).0

    candidates-IsSorted : IsSorted id_before (candidates F set_order lex dense)
    unfolding candidates
    candidates-IsSorted =
        sort_by-IsSorted id_before id_before-IsTotalPreorder
          (set_order (union (keys lex) (keys dense)))

    contains-candidates :
        (d : Str)
        → contains (candidates F set_order lex dense) d
          ≡ (contains (keys lex) d || contains (keys dense) d)
    unfolding candidates
    contains-candidates d =
        let both = union (keys lex) (keys dense) in
        contains-sort_by id_before (set_order both) d
        ∙ contains_of_same d (set_order both) both
            (o both (Distinct-union (keys lex) (keys dense) u v)).1
        ∙ contains-union (keys lex) (keys dense) d

    -- What `_order` sorts, sorted, is what RRF promises.
    fast-IsFused :
        (k : Num)
        → AddsZero k
        → IsFused F k (lex ∷ dense ∷ []) (
            sort_by
              (higher F)
              (map (λ d. (d, fast_score k lex dense d)) (candidates F set_order lex dense)))
    fast-IsFused k z =
        let docs = candidates F set_order lex dense in
        let f : Str → Num = fast_score k lex dense in
        let scores : Ranking F = map (λ d. (d, f d)) docs in
        let once : Distinct (keys scores) = rw (keys_scored F f docs) candidates-Distinct in
        record {
          sorted =
              sort_by_stable (higher F) (λ p q. id_before p.0 q.0) (fused_before F)
                (fused_before-IsTotalPreorder F) higher-joins higher-after scores
                (IsSorted-scored f docs candidates-IsSorted);
          distinct = Distinct-keys-sort_by (higher F) scores once;
          scored = λ d.
              get?-sort_by (higher F) scores d once
              ∙ get?_scored F f docs d
              ∙ rw (contains-candidates d, fast_score_lem k lex dense d z) (ground arith);
        }

  norm_array_returns :
      (m : Str) (docs : List Str) (r : Ranking F)
      → IsMethod m
      → (a : List Num) × (norm_array F m docs r ≡ ok a)
  unfolding norm_array
  norm_array_returns m docs r h =
      let (ns, e, l) = normalise_lem F (values r) m h in
      (write_norms F docs r ns (full F docs (lowest F ns)), rw e refl)

  norm_arrays_return :
      (docs : List Str) (lex dense : Ranking F)
      → (norm : List (Str × (List Num × List Num))) × (norm_arrays F
            (minmax ∷ zscore ∷ [])
            docs
            lex
            dense
          ≡ ok norm)
  unfolding norm_arrays
  norm_arrays_return docs lex dense =
      let (a, p) = norm_array_returns minmax docs lex (inl refl) in
      let (b, q) = norm_array_returns minmax docs dense (inl refl) in
      let (c, r) = norm_array_returns zscore docs lex (inr refl) in
      let (d, s) = norm_array_returns zscore docs dense (inr refl) in
      ((minmax, (a, b)) ∷ (zscore, (c, d)) ∷ [], rw (p, q, r, s) refl)

  -- `prepare` returns, and `rrf_fast` of what it returns is what `rrf` gives, documents, scores
  -- and order, if `k` is not negative, the depth is at least 1 or absent, neither ranking repeats
  -- a document above the depth, no two documents have the same `docid_key`, and adding zero
  -- changes no `1 / (k + rank)`.
  pub rrf_fast-eq-rrf :
      (set_order : List Str → List Str) (lex dense : Ranking F) (k : Num) (depth out_k : Option ℤ)
      → IsSetOrder set_order
      → less k (of_nat 0) ≡ false
      → AddsZero k
      → IsDepth depth
      → Distinct (keys (cut F depth lex))
      → Distinct (keys (cut F depth dense))
      → IsApart F (cut F depth lex ∷ cut F depth dense ∷ [])
      → (qc : QueryCands F) × (prepare F set_order lex dense depth ≡ ok qc)
        × (rrf F (lex ∷ dense ∷ []) k depth out_k ≡ ok (rrf_fast F qc k out_k))
  unfolding prepare rrf_fast order rrf_scores
  rrf_fast-eq-rrf set_order lex dense k depth out_k o h z i u v apart =
      let lex' = cut F depth lex in
      let dense' = cut F depth dense in
      let docs = candidates F set_order lex' dense' in
      let (norm, e) = norm_arrays_return docs lex' dense' in
      let (out, returned, fused) = rrf_lem F (lex ∷ dense ∷ []) k depth out_k h i (u, (v, tt)) in
      let once = candidates-Distinct set_order o lex' dense' u v in
      let scores : pairs F docs (
            add_arrays F (map (rank_part F k) (write_ranks F docs 1 lex' (full F docs none)))
              (map (rank_part F k) (write_ranks F docs 1 dense' (full F docs none))))
          ≡ map (λ d. (d, fast_score k lex' dense' d)) docs =
        rw (ranks F docs lex' once u, ranks F docs dense' once v)
          (pairs-add_arrays (rank_from F 1 lex') (rank_from F 1 dense') k docs) in
      (
        record {
          docs = docs;
          lex_rank = write_ranks F docs 1 lex' (full F docs none);
          dense_rank = write_ranks F docs 1 dense' (full F docs none);
          norm = norm;
        },
        rw (truncate_lem F lex depth i, truncate_lem F dense depth i, e) refl,
        returned
            ∙ ap (λ r. ok (cut F out_k r))
                (IsFused-unique F k (lex' ∷ dense' ∷ []) apart out _ fused
                    (fast-IsFused set_order o lex' dense' u v k z)
                  ∙ ap (sort_by (higher F)) (sym scores)),
      )
