-- ===== src/Rerank/Train/Views.antt =====
-- The rows that `group_loss` of py/hybridsearch/rerank/train.py cuts the logits into.
use hybrid_search.Prelude.{
  ℕ, zero, suc, ◌≤◌, ◌≡◌, refl, false, List, [], ◌∷◌, ◌++◌, ok, ltb, take, drop, length,
  length-append, arith, All, ap,
}
use hybrid_search.Rerank.Train.{rows_of, view}

module _ {ℓ} {A : Type ℓ} where
  abbrev pub concat : List (List A) → List A
  concat [] = []
  concat (xs ∷ xss) = xs ++ concat xss

  take-append : (xs ys : List A) → take (length xs) (xs ++ ys) ≡ xs
  take-append [] ys = refl
  take-append (x ∷ xs) ys = ap (◌∷◌ x) (take-append xs ys)

  drop-append : (xs ys : List A) → drop (length xs) (xs ++ ys) ≡ ys
  drop-append [] ys = refl
  drop-append (x ∷ xs) ys = drop-append xs ys

  rows_of-concat :
      (fuel n : ℕ) (xss : List (List A))
      → All (λ xs. length xs ≡ suc n) xss
      → length (concat xss) ≤ fuel
      → rows_of fuel (suc n) (concat xss) ≡ ok xss
  unfolding rows_of
  rows_of-concat fuel n [] h le = refl
  rows_of-concat fuel n ([] ∷ xss) h le = absurd (omega (arith, h.0))
  rows_of-concat zero n ((x ∷ xs) ∷ xss) h le = absurd (omega arith)
  rows_of-concat (suc fuel) n ((x ∷ xs) ∷ xss) h le =
      let m : length xs ≡ n = omega (arith, h.0) in
      let even : ltb (suc (length (xs ++ concat xss))) (suc n) ≡ false =
        ground (arith, length-append xs (concat xss)) in
      let first : take n (xs ++ concat xss) ≡ xs = rw m at (take-append xs (concat xss)) in
      let others : drop n (xs ++ concat xss) ≡ concat xss = rw m at (drop-append xs (concat xss)) in
      rw
        (
          even,
          first,
          others,
          rows_of-concat fuel n xss h.1 (omega (arith, length-append xs (concat xss))),
        )
        refl

  -- Logits of groups that all have the positive and `n` negatives: the rows are the groups.
  pub view-concat :
      (n : ℕ) (xss : List (List A))
      → All (λ xs. length xs ≡ suc n) xss
      → view (concat xss) (suc n) ≡ ok xss
  unfolding view
  view-concat n xss h = rows_of-concat (length (concat xss)) n xss h (omega arith)
