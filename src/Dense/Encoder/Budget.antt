-- ===== src/Dense/Encoder/Budget.antt =====
-- The batches of `Encoder.encode`: their sizes, and that the rows come in the order of the texts.
use hybrid_search.Prelude.{
  ℕ, zero, suc, ◌+◌, ◌-◌, ◌*◌, ◌≤◌, ◌<◌, ◌≡◌, refl, ◌∙◌, sym, ap, Bool, true, ◌&&◌, List, [], ◌∷◌,
  ◌++◌, map, none, some, ◌==◌, if◌then◌else◌, leb, ltb, max, length, take, drop, take-append-drop,
  contains, contains-append, arith, nat_eq, ==_eq, ==_refl, Bool-cases, inl, inr, All, All-take,
  length-take, subst, ◌⊎◌, length-map, leb→le, &&-true,
}
use hybrid_search.Prelude.Text.{Str}
use hybrid_search.Prelude.Order.{IsSorted, IsTotalPreorder, sort_by-IsSorted}
use hybrid_search.Prelude.Order.Unique.{contains-sort_by}
use hybrid_search.Dense.Encoder.{
  Model, Limits, get_or, indices, shorter, argsort, grow, batch_size, batches, Matrix, write_rows,
  token_lens, encode_batches, encode,
}

joined : List (List ℕ) → List ℕ
joined [] = []
joined (b ∷ bs) = b ++ joined bs

module _ (l : Limits) (lens : List ℕ) where
  -- What a batch promises: one text, or a number of texts and of padded tokens within the limits.
  abbrev pub IsBatch : List ℕ → Type 0
  IsBatch b =
      (length b ≡ 1)
      ⊎ ((length b ≤ l.max_batch) × All (λ k. length b * get_or lens k 0 ≤ l.token_budget) b)

  grow_bounds :
      (n : ℕ) (rest : List ℕ) → (n ≤ grow l lens n rest) × (grow l lens n rest ≤ n + length rest)
  unfolding grow
  grow_bounds n [] = omega arith
  grow_bounds n (k ∷ rest) = ground (arith, grow_bounds (suc n) rest)

  mul_below : (m a b : ℕ) (c : ℕ) → a ≤ b → m * b ≤ c → m * a ≤ c
  mul_below m a b c h h' = grind arith

  -- The first of an ascending list is within the budget if a later one is.
  first_fits :
      (m c k : ℕ) (rest : List ℕ)
      → 0 < length rest
      → All (λ j. shorter lens k j ≡ true) rest
      → All (λ j. m * get_or lens j 0 ≤ c) rest
      → m * get_or lens k 0 ≤ c
  first_fits m c k [] p s h = absurd (omega arith)
  first_fits m c k (j ∷ rest) p s h =
      mul_below m (get_or lens k 0) (get_or lens j 0) c (leb→le _ _ s.0) h.0

  -- A batch that has grown to `m` from `n` over what follows stays within the limits.
  abbrev Fits : ℕ → ℕ → List ℕ → Type 0
  Fits m n rest =
      (m ≡ n)
      ⊎ ((m ≤ l.max_batch) × All (λ k. m * get_or lens k 0 ≤ l.token_budget) (take (m - n) rest))

  abbrev may_grow : ℕ → ℕ → Bool
  may_grow n k = leb (suc n) l.max_batch && leb (suc n * get_or lens k 0) l.token_budget

  Fits-one : (m n k : ℕ) (rest : List ℕ) → may_grow n k ≡ true → m ≡ suc n → Fits m n (k ∷ rest)
  Fits-one m n k rest h e =
      let (a, b) = &&-true (leb (suc n) l.max_batch) _ h in
      let one : m - n ≡ 1 = omega arith in
      inr (omega (arith, leb→le _ _ a), rw one (rw e (leb→le _ _ b), tt))

  -- One more text, whose length is at most that of those that follow.
  Fits-cons :
      (m n k : ℕ) (rest : List ℕ)
      → suc n ≤ m
      → m ≤ suc n + length rest
      → may_grow n k ≡ true
      → All (λ j. shorter lens k j ≡ true) rest
      → Fits m (suc n) rest
      → Fits m n (k ∷ rest)
  Fits-cons m n k rest p q h s (inl e) = Fits-one m n k rest h e
  Fits-cons m n k rest p q h s (inr (a, b)) = elim (Bool-cases (leb m (suc n))) [
    | inl e ↦ Fits-one m n k rest h (omega (arith, leb→le _ _ e))
    | inr e ↦
        let one_more : m - n ≡ suc (m - suc n) = omega arith in
        let some_more : 0 < length (take (m - suc n) rest) =
          ground (arith, length-take (m - suc n) rest) in
        inr (
          a,
          rw one_more (
            first_fits m l.token_budget k (take (m - suc n) rest) some_more
                (All-take (λ j. shorter lens k j ≡ true) (m - suc n) rest s) b,
            b,
          ),
        )
  ]

  grow-Fits :
      (n : ℕ) (rest : List ℕ) → IsSorted (shorter lens) rest → Fits (grow l lens n rest) n rest
  unfolding grow
  grow-Fits n [] s = inl refl
  grow-Fits n (k ∷ rest) s = elim (Bool-cases (may_grow n k)) [
    | inr h ↦
        let same : grow l lens n (k ∷ rest) ≡ n = rw h refl in
        subst (λ m. Fits m n (k ∷ rest)) (sym same) (inl refl)
    | inl h ↦
        let same : grow l lens n (k ∷ rest) ≡ grow l lens (suc n) rest = rw h refl in
        let (p, q) = grow_bounds (suc n) rest in
        subst (λ m. Fits m n (k ∷ rest)) (sym same)
          (Fits-cons (grow l lens (suc n) rest) n k rest p q h s.0 (grow-Fits (suc n) rest s.1))
  ]

  batch_size-IsBatch :
      (k : ℕ) (rest : List ℕ)
      → IsSorted (shorter lens) (k ∷ rest)
      → IsBatch (take (batch_size l lens (k ∷ rest)) (k ∷ rest))
  unfolding batch_size
  batch_size-IsBatch k rest s =
      sized (grow l lens 0 (k ∷ rest)) (grow_bounds 0 (k ∷ rest)).1 (grow-Fits 0 (k ∷ rest) s)
    where
      sized :
          (m : ℕ)
          → m ≤ 0 + length (k ∷ rest)
          → Fits m 0 (k ∷ rest)
          → IsBatch (take (max m 1) (k ∷ rest))
      sized m q (inl e) = rw e (inl refl)
      sized zero q (inr h) = inl refl
      sized (suc m) q (inr (a, b)) =
          let same : max (suc m) 1 ≡ suc m = omega arith in
          let all : suc m - 0 ≡ suc m = omega arith in
          let long : length (take (suc m) (k ∷ rest)) ≡ suc m =
            omega (arith, length-take (suc m) (k ∷ rest)) in
          rw same (
            inr (
              rw long a,
              subst (λ n. All (λ j. n * get_or lens j 0 ≤ l.token_budget) (take (suc m) (k ∷ rest)))
                  (sym long) (rw all at b),
            ))

  drop-IsSorted :
      (n : ℕ) (rest : List ℕ) → IsSorted (shorter lens) rest → IsSorted (shorter lens) (drop n rest)
  drop-IsSorted zero rest s = s
  drop-IsSorted (suc n) [] s = tt
  drop-IsSorted (suc n) (k ∷ rest) s = drop-IsSorted n rest s.1

  batches-IsBatch :
      (fuel : ℕ) (rest : List ℕ)
      → IsSorted (shorter lens) rest
      → All IsBatch (batches l lens fuel rest)
  unfolding batches
  batches-IsBatch zero rest s = tt
  batches-IsBatch (suc fuel) [] s = tt
  batches-IsBatch (suc fuel) (k ∷ rest) s = (
    batch_size-IsBatch k rest s,
    batches-IsBatch fuel (drop (batch_size l lens (k ∷ rest)) (k ∷ rest))
        (drop-IsSorted (batch_size l lens (k ∷ rest)) (k ∷ rest) s),
  )

  length-drop-le : (n : ℕ) (rest : List ℕ) → length (drop n rest) ≤ length rest
  length-drop-le zero rest = omega arith
  length-drop-le (suc n) [] = omega arith
  length-drop-le (suc n) (k ∷ rest) = omega (arith, length-drop-le n rest)

  drop_less : (n k : ℕ) (rest : List ℕ) → 0 < n → length (drop n (k ∷ rest)) ≤ length rest
  drop_less zero k rest h = absurd (omega arith)
  drop_less (suc n) k rest h = length-drop-le n rest

  -- The rounds take every text, in the order of the lengths.
  joined-batches :
      (fuel : ℕ) (rest : List ℕ) → length rest ≤ fuel → joined (batches l lens fuel rest) ≡ rest
  unfolding batches batch_size joined
  joined-batches zero [] h = refl
  joined-batches zero (k ∷ rest) h = absurd (omega arith)
  joined-batches (suc fuel) [] h = refl
  joined-batches (suc fuel) (k ∷ rest) h =
      let size = max (grow l lens 0 (k ∷ rest)) 1 in
      ap (◌++◌ (take size (k ∷ rest))) (
        joined-batches fuel (drop size (k ∷ rest))
          (omega (arith, drop_less size k rest (omega arith))))
      ∙ take-append-drop size (k ∷ rest)

shorter-IsTotalPreorder : (lens : List ℕ) → IsTotalPreorder (shorter lens)
shorter-IsTotalPreorder lens = record {
  total = λ i j h. ground arith;
  trans = λ i j k h h'. ground arith;
}

contains-indices : (i n j : ℕ) → contains (indices i n) j ≡ (leb i j && ltb j (i + n))
contains-indices i zero j = ground arith
contains-indices i (suc n) j = ground (arith, contains-indices (suc i) n j)

-- Every batch of the outer loop is one text, or keeps both limits: at most `max_batch` texts, and
-- at most `token_budget` ids when all its texts are padded to the longest of them.
pub batches-argsort :
    (l : Limits) (lens : List ℕ) (fuel : ℕ)
    → All (IsBatch l lens) (batches l lens fuel (argsort lens))
unfolding argsort
batches-argsort l lens fuel =
    batches-IsBatch l lens fuel (argsort lens)
      (sort_by-IsSorted (shorter lens) (shorter-IsTotalPreorder lens) (indices 0 (length lens)))

module _ (m : Model) (texts : List Str) (max_len : ℕ) (row : Str → m.Row)
    (by_row : (ts : List Str) → m.encode_batch ts max_len ≡ map row ts) where
  write_rows_lem :
      (idx : List ℕ) (out : Matrix m) (j : ℕ)
      → write_rows m idx (map row (map (λ k. get_or texts k []) idx)) out j
        ≡ (if contains idx j then some (row (get_or texts j [])) else out j)
  unfolding write_rows
  write_rows_lem [] out j = refl
  write_rows_lem (i ∷ idx) out j =
      write_rows_lem idx (λ k. if k == i then some (row (get_or texts i [])) else out k) j
      ∙ elim (Bool-cases (j == i)) [
        | inl h ↦ rw (==_eq j i h) (ground (arith, ==_refl i))
        | inr h ↦ ground arith
      ]

  encode_batches_lem :
      (rounds : List (List ℕ)) (out : Matrix m) (j : ℕ)
      → encode_batches m texts max_len rounds out j
        ≡ (if contains (joined rounds) j then some (row (get_or texts j [])) else out j)
  unfolding encode_batches joined
  encode_batches_lem [] out j = refl
  encode_batches_lem (idx ∷ rounds) out j =
      encode_batches_lem rounds _ j
      ∙ rw (by_row (map (λ k. get_or texts k []) idx), write_rows_lem idx out j)
          (ground (arith, contains-append idx (joined rounds) j))

-- If the model encodes a batch text by text, `encode` gives each text its own row, in the order
-- of the texts, for any limits.
pub encode_lem :
    (m : Model) (l : Limits) (texts : List Str) (max_len : ℕ) (row : Str → m.Row) (j : ℕ)
    → ((ts : List Str) → m.encode_batch ts max_len ≡ map row ts)
    → encode m l texts max_len j
      ≡ (if ltb j (length texts) then some (row (get_or texts j [])) else none)
unfolding encode argsort token_lens
encode_lem m l [] max_len row j by_row = ground arith
encode_lem m l (t ∷ texts) max_len row j by_row =
    let lens = token_lens m (t ∷ texts) max_len in
    let many : length lens ≡ length (t ∷ texts) = length-map _ (t ∷ texts) in
    encode_batches_lem m (t ∷ texts) max_len row by_row
      (batches l lens (length (argsort lens)) (argsort lens)) (λ i. none) j
    ∙ rw
        (
          joined-batches l lens (length (argsort lens)) (argsort lens) (omega arith),
          contains-sort_by (shorter lens) (indices 0 (length lens)) j,
          contains-indices 0 (length lens) j,
          many,
        )
        (ground arith)
