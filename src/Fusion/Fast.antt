-- ===== src/Fusion/Fast.antt =====
-- Vectorised fusion: py/hybridsearch/fusion/fast.py. An array is the list of its values, in the order
-- of the candidates; a rank is infinite where there is none.
pub mod Ranks
pub mod Agrees
use hybrid_search.Prelude.{
  ℕ, suc, Bool, not, List, [], ◌∷◌, map, Result, ok, err, ◌>>=◌, Option, none, some, ◌==◌,
  if◌then◌else◌,
}
use hybrid_search.Prelude.Text.{Str, str_eq}
use hybrid_search.Prelude.Dict.{keys, values, get?}
use hybrid_search.Prelude.Sets.{union}
use hybrid_search.Prelude.Order.{sort_by}
use hybrid_search.Prelude.Int.{ℤ}
use hybrid_search.Prelude.Float.{Float}
use hybrid_search.Fusion.Core.{
  Error, Ranking, truncate, normalise, docid_key, key_leb, lowest, cut, minmax, zscore, reciprocal,
}

-- `a[pos[d]] = v`, where the candidates repeat no document.
unfoldable pub write_at {ℓ} : {A : Type ℓ} → List Str → Str → A → List A → List A
write_at [] d v a = a
write_at (e ∷ docs) d v [] = []
write_at (e ∷ docs) d v (x ∷ a) =
    let rest = write_at docs d v a in if d == e then v ∷ a else x ∷ rest

-- The order of `docid_key`.
abbrev pub id_before : Str → Str → Bool
id_before d e = key_leb (docid_key d) (docid_key e)

-- A normalisation that `norm` lacks.
pub data Missing : Type 0 where
  key_error : Str → Missing

module _ (F : Float) where
  open F use {Num, of_nat, add, sub, mul, less}

  pub record QueryCands : Type 0 where
    pub docs : List Str
    pub lex_rank : List (Option ℕ)
    pub dense_rank : List (Option ℕ)
    pub norm : List (Str × (List Num × List Num))

  -- `for i, (d, _) in enumerate(r, start=1)`, from `i`.
  unfoldable pub write_ranks : List Str → ℕ → Ranking F → List (Option ℕ) → List (Option ℕ)
  unfolding write_at
  write_ranks docs i [] a = a
  write_ranks docs i ((d, s) ∷ r) a = write_ranks docs (suc i) r (write_at docs d (some i) a)

  -- `for (d, _), v in zip(r, ns)`
  unfoldable pub write_norms : List Str → Ranking F → List Num → List Num → List Num
  unfolding write_at
  write_norms docs [] ns a = a
  write_norms docs ((d, s) ∷ r) [] a = a
  write_norms docs ((d, s) ∷ r) (v ∷ ns) a = write_norms docs r ns (write_at docs d v a)

  -- `np.full(n, ...)`
  abbrev pub full {ℓ} : {A : Type ℓ} → List Str → A → List A
  full docs x = map (λ d. x) docs

  unfoldable pub norm_array : Str → List Str → Ranking F → Result Error (List Num)
  unfolding normalise write_norms
  norm_array m docs r =
      normalise F (values r) m >>= λ ns. ok (write_norms docs r ns (full docs (lowest F ns)))

  -- `for m in NORMALISATIONS`
  unfoldable pub norm_arrays :
      List Str
      → List Str
      → Ranking F
      → Ranking F
      → Result Error (List (Str × (List Num × List Num)))
  unfolding norm_array
  norm_arrays [] docs lex dense = ok []
  norm_arrays (m ∷ ms) docs lex dense = do
    a ← norm_array m docs lex
    b ← norm_array m docs dense
    rest ← norm_arrays ms docs lex dense
    ok ((m, (a, b)) ∷ rest)

  -- `sorted({...} | {...}, key=docid_key)`; `set_order` is the order of a set.
  unfoldable pub candidates : (List Str → List Str) → Ranking F → Ranking F → List Str
  candidates set_order lex dense = sort_by id_before (set_order (union (keys lex) (keys dense)))

  unfoldable pub prepare :
      (List Str → List Str) → Ranking F → Ranking F → Option ℤ → Result Error QueryCands
  unfolding truncate write_ranks norm_arrays candidates
  prepare set_order lex dense depth = do
    lex' ← truncate F lex depth
    dense' ← truncate F dense depth
    let docs = candidates set_order lex' dense'
    norm ← norm_arrays (minmax ∷ zscore ∷ []) docs lex' dense'
    ok (record {
      docs = docs;
      lex_rank = write_ranks docs 1 lex' (full docs none);
      dense_rank = write_ranks docs 1 dense' (full docs none);
      norm = norm;
    })

  -- `(qc.docs[i], float(score[i]))` for all `i`.
  unfoldable pub pairs : List Str → List Num → Ranking F
  pairs [] score = []
  pairs (d ∷ docs) [] = []
  pairs (d ∷ docs) (x ∷ score) = (d, x) ∷ pairs docs score

  -- The order of `-score`.
  abbrev pub higher : Str × Num → Str × Num → Bool
  higher p q = not (less p.1 q.1)

  -- `_order`
  unfoldable pub order : QueryCands → List Num → Option ℤ → Ranking F
  unfolding pairs
  order qc score out_k = cut F out_k (sort_by higher (pairs qc.docs score))

  -- `np.where(np.isfinite(rank), 1.0 / (k + rank), 0.0)`
  abbrev pub rank_part : Num → Option ℕ → Num
  rank_part k none = of_nat 0
  rank_part k (some rank) = reciprocal F k rank

  -- `a + b` of arrays.
  unfoldable pub add_arrays : List Num → List Num → List Num
  add_arrays [] ys = []
  add_arrays (x ∷ xs) [] = []
  add_arrays (x ∷ xs) (y ∷ ys) = add x y ∷ add_arrays xs ys

  unfoldable pub rrf_scores : QueryCands → Num → List Num
  unfolding add_arrays
  rrf_scores qc k = add_arrays (map (rank_part k) qc.lex_rank) (map (rank_part k) qc.dense_rank)

  unfoldable pub weighted_scores : QueryCands → Num → Str → Result Missing (List Num)
  unfolding get? add_arrays
  weighted_scores qc alpha norm = elim (get? qc.norm norm) [
    | none ↦ err (key_error norm)
    | some (nl, nd) ↦ ok (add_arrays (map (mul (sub (of_nat 1) alpha)) nl) (map (mul alpha) nd))
  ]

  unfoldable pub rrf_fast : QueryCands → Num → Option ℤ → Ranking F
  unfolding order rrf_scores
  rrf_fast qc k out_k = order qc (rrf_scores qc k) out_k

  unfoldable pub weighted_fast : QueryCands → Num → Str → Option ℤ → Result Missing (Ranking F)
  unfolding order weighted_scores
  weighted_fast qc alpha norm out_k =
      weighted_scores qc alpha norm >>= λ score. ok (order qc score out_k)
