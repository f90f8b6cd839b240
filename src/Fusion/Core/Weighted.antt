-- ===== src/Fusion/Core/Weighted.antt =====
-- `weighted` of py/hybridsearch/fusion/core.py against the formula of its module's text.
use hybrid_search.Prelude.{
  ◌≡◌, refl, Bool, true, ◌||◌, ◌&&◌, List, [], ◌∷◌, map, ok, Option, none, some, arith, Bool-cases,
  inl, inr, contains, Distinct, if◌then◌else◌, ◌==◌, ==_refl, ==_eq, sym, ◌∙◌, ap, tally, ap₂,
}
use hybrid_search.Prelude.Text.{Str, str_eq}
use hybrid_search.Prelude.Int.{ℤ}
use hybrid_search.Prelude.Dict.{keys, values, get?}
use hybrid_search.Prelude.Sets.{union, contains-union, Distinct-union}
use hybrid_search.Prelude.Order.{
  IsTotalPreorder, IsSorted, sort_by, sort_by-IsSorted, tally-sort_by,
}
use hybrid_search.Prelude.Order.Keyed.{get?-sort_by, Distinct-keys-sort_by}
use hybrid_search.Prelude.Order.Unique.{contains_of_same, sort_by-map, IsSorted-unique}
use hybrid_search.Prelude.Float.{Float, float_leb}
use hybrid_search.Fusion.Core.{
  Ranking, cut, normalise, lowest, Part, fused_score, union_keys, weighted, sort_fused,
  fused_before, docid_key,
}
use hybrid_search.Fusion.Core.Checks.{IsDepth}
use hybrid_search.Fusion.Core.Order.{fused_before-IsTotalPreorder, fused_before_tie}
use hybrid_search.Fusion.Core.Parts.{IsMethod, norm_at, IsPart, part_of_returns}

-- An order in which a set of distinct elements may be gone through.
abbrev pub IsSetOrder : (List Str → List Str) → Type 0
IsSetOrder order =
    (xs : List Str)
    → Distinct xs
    → Distinct (order xs) × ((p : Str → Bool) → tally p (order xs) ≡ tally p xs)

module _ (F : Float) where
  open F use {Num, of_nat, add, sub, mul, less, sum}

  pub keys_scored : (f : Str → Num) (ds : List Str) → keys (map (λ d. (d, f d)) ds) ≡ ds
  keys_scored f [] = refl
  keys_scored f (d ∷ ds) = ap (◌∷◌ d) (keys_scored f ds)

  pub get?_scored :
      (f : Str → Num) (ds : List Str) (d : Str)
      → get? (map (λ d. (d, f d)) ds) d ≡ (if contains ds d then some (f d) else none)
  unfolding get?
  get?_scored f [] d = refl
  get?_scored f (e ∷ ds) d = elim (Bool-cases (d == e)) [
    | inl p ↦ rw (==_eq d e p, ==_refl e) refl
    | inr p ↦ rw p (get?_scored f ds d)
  ]

  -- Sorting the scored documents gives one result for any two lists of the same documents, if no
  -- two of them have the same key.
  sort_scored_eq :
      (f : Str → Num) (xs ys : List Str)
      → ((p : Str → Bool) → tally p xs ≡ tally p ys)
      → ((d e : Str)
          → contains xs d ≡ true
          → contains xs e ≡ true
          → docid_key d ≡ docid_key e
          → d ≡ e)
      → sort_by (fused_before F) (map (λ d. (d, f d)) xs)
        ≡ sort_by (fused_before F) (map (λ d. (d, f d)) ys)
  sort_scored_eq f xs ys same apart =
      let g : Str → Str × Num = λ d. (d, f d) in
      let le : Str → Str → Bool = λ d e. fused_before F (g d) (g e) in
      let base = fused_before-IsTotalPreorder F in
      let order : IsTotalPreorder le = record {
        total = λ a b. base.total (g a) (g b);
        trans = λ a b c. base.trans (g a) (g b) (g c);
      } in
      let member : (a : Str) → contains (sort_by le xs) a ≡ contains xs a =
        λ a. contains_of_same a (sort_by le xs) xs (λ p. tally-sort_by le p xs) in
      sort_by-map g (fused_before F) xs
      ∙ ap (map g) (
          IsSorted-unique le (sort_by le xs) (sort_by le ys)
            (λ a b m n h k.
              apart a b (sym (member a) ∙ m) (sym (member b) ∙ n)
                (fused_before_tie F a b (f a) (f b) h k))
            (λ p. tally-sort_by le p xs ∙ same p ∙ sym (tally-sort_by le p ys))
            (sort_by-IsSorted le order xs) (sort_by-IsSorted le order ys))
      ∙ sym (sort_by-map g (fused_before F) ys)

  -- The rankings, each cut to the depth, that the formula is about, with its weights.
  module _ (lex dense : Ranking F) (alpha : Num) (norm : Str) where
    -- `alpha * norm(dense) + (1 - alpha) * norm(lex)` for each document of either ranking, where
    -- a ranking without the document counts with its lowest normalised score; best first.
    pub record IsWeighted (out : Ranking F) : Type 0 where
      pub lex_norms : List Num
      pub dense_norms : List Num
      pub lex_normalised : normalise F (values lex) norm ≡ ok lex_norms
      pub dense_normalised : normalise F (values dense) norm ≡ ok dense_norms
      pub sorted : IsSorted (fused_before F) out
      pub distinct : Distinct (keys out)
      pub scored :
          (d : Str)
          → get? out d ≡ (
              if contains (keys lex) d || contains (keys dense) d
              then some (
                  sum (
                    mul
                      (sub (of_nat 1) alpha)
                      (norm_at F (keys lex) lex_norms (lowest F lex_norms) d)
                    ∷ mul alpha (norm_at F (keys dense) dense_norms (lowest F dense_norms) d)
                    ∷ []))
              else none)

    module _ (p q : Part F) (lex_part : IsPart F norm lex (sub (of_nat 1) alpha) p)
        (dense_part : IsPart F norm dense alpha q) where
      union_keys-Distinct : Distinct (union_keys F (p ∷ q ∷ []))
      unfolding union_keys
      union_keys-Distinct =
          Distinct-union (keys p.norms) (union (keys q.norms) []) lex_part.distinct
            (Distinct-union (keys q.norms) [] dense_part.distinct tt)

      contains-union_keys :
          (d : Str)
          → contains (union_keys F (p ∷ q ∷ [])) d
            ≡ (contains (keys lex) d || contains (keys dense) d)
      unfolding union_keys
      contains-union_keys d = ground (
        arith,
        contains-union (keys p.norms) (union (keys q.norms) []) d,
        contains-union (keys q.norms) [] d,
        lex_part.held d,
        dense_part.held d,
      )

      fused_score_lem :
          (d : Str)
          → fused_score F (p ∷ q ∷ []) d
            ≡ sum (
                mul
                  (sub (of_nat 1) alpha)
                  (norm_at F (keys lex) lex_part.norms (lowest F lex_part.norms) d)
                ∷ mul alpha (norm_at F (keys dense) dense_part.norms (lowest F dense_part.norms) d)
                ∷ [])
      unfolding fused_score
      fused_score_lem d =
          ap₂ (λ x y. sum (x ∷ y ∷ [])) (ap₂ mul lex_part.weighs (lex_part.scored d))
            (ap₂ mul dense_part.weighs (dense_part.scored d))

      scored-IsWeighted :
          (order : List Str → List Str)
          → IsSetOrder order
          → IsWeighted (
              sort_by
                (fused_before F)
                (map (λ d. (d, fused_score F (p ∷ q ∷ []) d)) (order (union_keys F (p ∷ q ∷ [])))))
      scored-IsWeighted order o =
          let docs = order (union_keys F (p ∷ q ∷ [])) in
          let (once, same) = o (union_keys F (p ∷ q ∷ [])) union_keys-Distinct in
          let scores : Ranking F = map (λ d. (d, fused_score F (p ∷ q ∷ []) d)) docs in
          let once' : Distinct (keys scores) =
            rw (keys_scored (fused_score F (p ∷ q ∷ [])) docs) once in
          record {
            lex_norms = lex_part.norms;
            dense_norms = dense_part.norms;
            lex_normalised = lex_part.normalised;
            dense_normalised = dense_part.normalised;
            sorted = sort_by-IsSorted (fused_before F) (fused_before-IsTotalPreorder F) scores;
            distinct = Distinct-keys-sort_by (fused_before F) scores once';
            scored = λ d.
                get?-sort_by (fused_before F) scores d once'
                ∙ get?_scored (fused_score F (p ∷ q ∷ [])) docs d
                ∙ rw
                    (
                      contains_of_same d docs (union_keys F (p ∷ q ∷ [])) same,
                      contains-union_keys d,
                      fused_score_lem d,
                    )
                    refl;
          }

  -- `weighted` returns, if alpha is in [0, 1], the method is known, the depth is at least 1 or
  -- absent and neither ranking repeats a document above the depth. Before it is cut to `out_k`,
  -- the result has each document that a ranking has above the depth, once, with the documented
  -- sum as its score, by descending score and then by ascending id.
  pub weighted_lem :
      (order : List Str → List Str) (lex dense : Ranking F) (alpha : Num) (norm : Str)
      (depth out_k : Option ℤ)
      → IsSetOrder order
      → (float_leb F (of_nat 0) alpha && float_leb F alpha (of_nat 1)) ≡ true
      → IsMethod norm
      → IsDepth depth
      → Distinct (keys (cut F depth lex))
      → Distinct (keys (cut F depth dense))
      → (out : Ranking F) × (weighted F order lex dense alpha norm depth out_k
          ≡ ok (cut F out_k out))
        × IsWeighted (cut F depth lex) (cut F depth dense) alpha norm out
  unfolding weighted
  weighted_lem order lex dense alpha norm depth out_k o range m h u v =
      let (p, e, lex_part) = part_of_returns F norm depth lex (sub (of_nat 1) alpha) m h u in
      let (q, e', dense_part) = part_of_returns F norm depth dense alpha m h v in
      (
        sort_by (fused_before F)
            (map (λ d. (d, fused_score F (p ∷ q ∷ []) d)) (order (union_keys F (p ∷ q ∷ [])))),
        rw (range, e, e') refl,
        scored-IsWeighted (cut F depth lex) (cut F depth dense) alpha norm p q lex_part dense_part
            order o,
      )

  -- The order in which the interpreter goes through a set of documents does not matter to
  -- `weighted`, for a known method, a depth of at least 1 or none, and rankings that repeat no
  -- document above the depth, if no two of their documents have the same `docid_key`, as "1" and
  -- "01" have.
  pub weighted-set_order :
      (order order' : List Str → List Str) (lex dense : Ranking F) (alpha : Num) (norm : Str)
      (depth out_k : Option ℤ)
      → IsSetOrder order
      → IsSetOrder order'
      → IsMethod norm
      → IsDepth depth
      → Distinct (keys (cut F depth lex))
      → Distinct (keys (cut F depth dense))
      → ((d e : Str)
          → (contains (keys (cut F depth lex)) d || contains (keys (cut F depth dense)) d) ≡ true
          → (contains (keys (cut F depth lex)) e || contains (keys (cut F depth dense)) e) ≡ true
          → docid_key d ≡ docid_key e
          → d ≡ e)
      → weighted F order lex dense alpha norm depth out_k
        ≡ weighted F order' lex dense alpha norm depth out_k
  unfolding weighted sort_fused
  weighted-set_order order order' lex dense alpha norm depth out_k o o' m h u v apart =
      let (p, e, lex_part) = part_of_returns F norm depth lex (sub (of_nat 1) alpha) m h u in
      let (q, e', dense_part) = part_of_returns F norm depth dense alpha m h v in
      let f = fused_score F (p ∷ q ∷ []) in
      let docs = union_keys F (p ∷ q ∷ []) in
      let once : Distinct docs =
        union_keys-Distinct (cut F depth lex) (cut F depth dense) alpha norm p q lex_part
          dense_part in
      let held : (d : Str)
          → contains (order docs) d
            ≡ (contains (keys (cut F depth lex)) d || contains (keys (cut F depth dense)) d) =
        λ d.
          contains_of_same d (order docs) docs (o docs once).1
          ∙ contains-union_keys (cut F depth lex) (cut F depth dense) alpha norm p q lex_part
              dense_part d in
      let sorted_docs : sort_by (fused_before F) (map (λ d. (d, f d)) (order docs))
          ≡ sort_by (fused_before F) (map (λ d. (d, f d)) (order' docs)) =
        sort_scored_eq f (order docs) (order' docs)
          (λ p. (o docs once).1 p ∙ sym ((o' docs once).1 p))
          (λ d e m n. apart d e (sym (held d) ∙ m) (sym (held e) ∙ n)) in
      rw (e, e', sorted_docs) refl
