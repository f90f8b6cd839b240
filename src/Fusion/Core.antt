-- ===== src/Fusion/Core.antt =====
-- The fusion methods of py/hybridsearch/fusion/core.py. A ranking is a list of document ids and
-- scores, a dict keeps its insertion order, and document ids consist of ASCII characters.
pub mod Checks
pub mod Order
pub mod Rrf
pub mod Parts
pub mod Weighted
pub mod Unique
use hybrid_search.Prelude.{
  ℕ, suc, Bool, true, false, ◌&&◌, not, List, [], ◌∷◌, map, Result, ok, err, ◌>>=◌, ◌>>◌, guard,
  Option, none, some, leb, if◌then◌else◌, length, contains, replicate, ◌==◌,
}
use hybrid_search.Prelude.Decimal.{is_decimal, int_from}
use hybrid_search.Prelude.Text.{Str, codes, str_leb, str_eq}
use hybrid_search.Prelude.Dict.{keys, values, get_or, put}
use hybrid_search.Prelude.Sets.{union}
use hybrid_search.Prelude.Order.{sort_by}
use hybrid_search.Prelude.Int.{ℤ, pos, leb_ℤ, slice_to}
use hybrid_search.Prelude.Float.{Float, float_leb, float_eq, min_from, max_from}

-- The `ValueError`s of this module.
pub data Error : Type 0 where
  bad_depth : Error
  duplicate_docid : Str → Error
  bad_k : Error
  unknown_normalisation : Str → Error
  bad_alpha : Error

-- `(0, int(d), "")` and `(1, 0, d)`
pub data DocidKey : Type 0 where
  decimal : ℕ → DocidKey
  text : Str → DocidKey

unfoldable pub docid_key : Str → DocidKey
unfolding is_decimal int_from
docid_key d = if is_decimal d then decimal (int_from 0 d) else text d

-- The order of these tuples.
abbrev pub key_leb : DocidKey → DocidKey → Bool
key_leb (decimal m) (decimal n) = leb m n
key_leb (decimal m) (text t) = true
key_leb (text s) (decimal n) = false
key_leb (text s) (text t) = str_leb s t

-- `NORMALISATIONS`
abbrev pub minmax : Str
minmax = codes "minmax"

abbrev pub zscore : Str
zscore = codes "zscore"

module _ (F : Float) where
  open F use {Num, of_nat, add, sub, mul, div, less, sum, sqrt, square}

  abbrev pub Ranking : Type 0
  Ranking = List (Str × Num)

  unfoldable pub truncate : Ranking → Option ℤ → Result Error Ranking
  truncate r none = ok r
  truncate r (some depth) = if leb_ℤ (pos 1) depth then ok (slice_to depth r) else err bad_depth

  -- `_check_unique`, with the `seen` ids.
  unfoldable pub check_unique_from : List Str → Ranking → Result Error (Unit {0})
  check_unique_from seen [] = ok tt
  check_unique_from seen ((d, s) ∷ r) =
      let rest = check_unique_from (d ∷ seen) r in
      if contains seen d then err (duplicate_docid d) else rest

  abbrev pub check_unique : Ranking → Result Error (Unit {0})
  check_unique = check_unique_from []

  -- The order of the keys `(-score, docid_key(d))`.
  unfoldable pub fused_before : Str × Num → Str × Num → Bool
  unfolding docid_key
  fused_before (d, x) (e, y) =
      if less y x then true else if less x y then false else key_leb (docid_key d) (docid_key e)

  -- `out if out_k is None else out[:out_k]`
  abbrev pub cut : Option ℤ → Ranking → Ranking
  cut none out = out
  cut (some out_k) out = slice_to out_k out

  unfoldable pub sort_fused : List (Str × Num) → Option ℤ → Ranking
  unfolding fused_before
  sort_fused scores out_k = cut out_k (sort_by fused_before scores)

  -- `1.0 / (k + rank)`
  abbrev pub reciprocal : Num → ℕ → Num
  reciprocal k rank = div (of_nat 1) (add k (of_nat rank))

  -- `for rank, (d, _) in enumerate(r, start=1)`, from `rank`.
  unfoldable pub add_ranks : Num → ℕ → Ranking → List (Str × Num) → List (Str × Num)
  add_ranks k rank [] scores = scores
  add_ranks k rank ((d, s) ∷ r) scores =
      add_ranks k (suc rank) r (put scores d (add (get_or scores d (of_nat 0)) (reciprocal k rank)))

  -- `for r in rankings`
  unfoldable pub rrf_loop :
      Num → Option ℤ → List Ranking → List (Str × Num) → Result Error (List (Str × Num))
  unfolding truncate check_unique_from add_ranks
  rrf_loop k depth [] scores = ok scores
  rrf_loop k depth (r ∷ rankings) scores = do
    r' ← truncate r depth
    check_unique r'
    rrf_loop k depth rankings (add_ranks k 1 r' scores)

  unfoldable pub rrf : List Ranking → Num → Option ℤ → Option ℤ → Result Error Ranking
  unfolding rrf_loop sort_fused
  rrf rankings k depth out_k = do
    guard (not (less k (of_nat 0))) bad_k
    scores ← rrf_loop k depth rankings []
    ok (sort_fused scores out_k)

  unfoldable pub minmax_scores : Num → List Num → List Num
  unfolding min_from max_from
  minmax_scores s ss =
      let lo = min_from F s ss in
      let hi = max_from F s ss in
      if float_eq F (sub hi lo) (of_nat 0)
      then replicate (length (s ∷ ss)) (of_nat 1)
      else map (λ x. div (sub x lo) (sub hi lo)) (s ∷ ss)

  unfoldable pub zscores : List Num → List Num
  zscores s =
      let n = of_nat (length s) in
      let mu = div (sum s) n in
      let sd = sqrt (div (sum (map (λ x. square (sub x mu)) s)) n) in
      if float_eq F sd (of_nat 0)
      then replicate (length s) (of_nat 0)
      else map (λ x. div (sub x mu) sd) s

  unfoldable pub normalise : List Num → Str → Result Error (List Num)
  unfolding minmax_scores zscores
  normalise [] method = ok []
  normalise (s ∷ ss) method =
      if method == minmax
      then ok (minmax_scores s ss)
      else if method == zscore
      then ok (zscores (s ∷ ss))
      else err (unknown_normalisation method)

  -- `dict(zip(docs, ns))`, added to `d`.
  unfoldable pub zip_into : List Str → List Num → List (Str × Num) → List (Str × Num)
  zip_into [] ns d = d
  zip_into (doc ∷ docs) [] d = d
  zip_into (doc ∷ docs) (n ∷ ns) d = zip_into docs ns (put d doc n)

  -- An entry of `parts`.
  pub record Part : Type 0 where
    pub norms : List (Str × Num)
    pub floor : Num
    pub weight : Num

  -- `min(ns) if ns else 0.0`
  abbrev pub lowest : List Num → Num
  lowest [] = of_nat 0
  lowest (n ∷ ns) = min_from F n ns

  -- The body of `for r, w in ...`.
  unfoldable pub part_of : Str → Option ℤ → Ranking → Num → Result Error Part
  unfolding truncate check_unique_from normalise zip_into min_from
  part_of norm depth r w = do
    r' ← truncate r depth
    check_unique r'
    ns ← normalise (values r') norm
    ok (record { norms = zip_into (keys r') ns []; floor = lowest ns; weight = w })

  -- `sum(w * m.get(d, floor) for m, floor, w in parts)`
  unfoldable pub fused_score : List Part → Str → Num
  fused_score parts d = sum (map (λ p. mul p.weight (get_or p.norms d p.floor)) parts)

  -- The elements of the union of the parts' keys, each once.
  unfoldable pub union_keys : List Part → List Str
  union_keys [] = []
  union_keys (p ∷ parts) = union (keys p.norms) (union_keys parts)

  -- `set_order` is the order in which the interpreter iterates over a set of these elements.
  unfoldable pub weighted :
      (List Str → List Str)
      → Ranking
      → Ranking
      → Num
      → Str
      → Option ℤ
      → Option ℤ
      → Result Error Ranking
  unfolding part_of fused_score union_keys sort_fused
  weighted set_order lex dense alpha norm depth out_k = do
    guard (float_leb F (of_nat 0) alpha && float_leb F alpha (of_nat 1)) bad_alpha
    p ← part_of norm depth lex (sub (of_nat 1) alpha)
    q ← part_of norm depth dense alpha
    let parts = p ∷ q ∷ []
    let docs = set_order (union_keys parts)
    ok (sort_fused (map (λ d. (d, fused_score parts d)) docs) out_k)
