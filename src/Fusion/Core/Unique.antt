-- ===== src/Fusion/Core/Unique.antt =====
-- What RRF promises leaves one result, if ids with one key are one id.
use hybrid_search.Prelude.{
  ◌≡◌, refl, Bool, true, false, List, [], ◌∷◌, map, Option, none, some, arith, contains, Distinct,
  All, ==_refl, ◌∙◌, ap, ap₂, sym, subst,
}
use hybrid_search.Prelude.Text.{Str, str_eq}
use hybrid_search.Prelude.Dict.{keys, get?}
use hybrid_search.Prelude.Order.{IsSorted}
use hybrid_search.Prelude.Order.Unique.{IsSorted-unique_set}
use hybrid_search.Prelude.Float.{Float}
use hybrid_search.Fusion.Core.{Ranking, fused_before, docid_key}
use hybrid_search.Fusion.Core.Order.{fused_before_tie}
use hybrid_search.Fusion.Core.Rrf.{rrf_score, occurs, IsFused}

module _ (F : Float) where
  open F use {Num, of_nat, add, less}

  is_some {ℓ} : {A : Type ℓ} → Option A → Bool
  is_some none = false
  is_some (some a) = true

  contains-is_some : (r : Ranking F) (d : Str) → contains (keys r) d ≡ is_some (get? r d)
  unfolding get? is_some
  contains-is_some [] d = refl
  contains-is_some ((e, x) ∷ r) d = ground (arith, contains-is_some r d)

  module _ (f : Str → Num) where
    scored_keys :
        (out : Ranking F)
        → Distinct (keys out)
        → ((d : Str) → contains (keys out) d ≡ true → get? out d ≡ some (f d))
        → out ≡ map (λ d. (d, f d)) (keys out)
    unfolding get?
    scored_keys [] u h = refl
    scored_keys ((d, x) ∷ out) u h =
        ap₂ ◌∷◌
          (ap (λ y. (d, y))
            (let e = h d (ground (arith, ==_refl d)) in ground (arith, ==_refl d, e)))
          (scored_keys out u.1
            (λ e m. let old = h e (ground arith) in ground (arith, old, u.0, str_eq.same_iff e d)))

    keys-IsSorted :
        (ds : List Str)
        → IsSorted (fused_before F) (map (λ d. (d, f d)) ds)
        → IsSorted (λ d e. fused_before F (d, f d) (e, f e)) ds
    keys-IsSorted [] s = tt
    keys-IsSorted (d ∷ ds) s = (each ds s.0, keys-IsSorted ds s.1)
      where
        each :
            (es : List Str)
            → All (λ q. fused_before F (d, f d) q ≡ true) (map (λ e. (e, f e)) es)
            → All (λ e. fused_before F (d, f d) (e, f e) ≡ true) es
        each [] h = tt
        each (e ∷ es) h = (h.0, each es h.1)

  -- No two of the documents have one `docid_key`.
  abbrev pub IsApart : List (Ranking F) → Type 0
  IsApart rankings =
      (d e : Str)
      → occurs F rankings d ≡ true
      → occurs F rankings e ≡ true
      → docid_key d ≡ docid_key e
      → d ≡ e

  module _ (k : Num) (rankings : List (Ranking F)) (apart : IsApart rankings) where
    contains-fused :
        (out : Ranking F) (d : Str)
        → IsFused F k rankings out
        → contains (keys out) d ≡ occurs F rankings d
    unfolding is_some
    contains-fused out d h = contains-is_some out d ∙ rw (h.scored d) (ground arith)

    fused_keys :
        (out : Ranking F)
        → IsFused F k rankings out
        → out ≡ map (λ d. (d, rrf_score F k rankings (of_nat 0) d)) (keys out)
    fused_keys out h =
        scored_keys (rrf_score F k rankings (of_nat 0)) out h.distinct
          (λ d m. h.scored d ∙ rw (sym (contains-fused out d h) ∙ m) refl)

    -- RRF's promise leaves one result.
    pub IsFused-unique :
        (out out' : Ranking F) → IsFused F k rankings out → IsFused F k rankings out' → out ≡ out'
    IsFused-unique out out' h h' =
        let f : Str → Num = rrf_score F k rankings (of_nat 0) in
        let le : Str → Str → Bool = λ d e. fused_before F (d, f d) (e, f e) in
        let same : keys out ≡ keys out' =
          IsSorted-unique_set le (keys out) (keys out')
            (λ a b m n p q.
              apart a b (sym (contains-fused out a h) ∙ m) (sym (contains-fused out b h) ∙ n)
                (fused_before_tie F a b (f a) (f b) p q))
            (λ a. contains-fused out a h ∙ sym (contains-fused out' a h')) h.distinct h'.distinct
            (keys-IsSorted f (keys out)
              (subst (IsSorted (fused_before F)) (fused_keys out h) h.sorted))
            (keys-IsSorted f (keys out')
              (subst (IsSorted (fused_before F)) (fused_keys out' h') h'.sorted)) in
        fused_keys out h ∙ ap (map (λ d. (d, f d))) same ∙ sym (fused_keys out' h')
