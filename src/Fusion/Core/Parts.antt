-- ===== src/Fusion/Core/Parts.antt =====
-- The entries of `parts` in `weighted` of py/hybridsearch/fusion/core.py.
use hybrid_search.Prelude.{
  ℕ, zero, suc, ◌≡◌, refl, Bool, true, false, ◌||◌, List, [], ◌∷◌, map, ok, Option, arith,
  Bool-cases, ◌⊎◌, inl, inr, contains, Distinct, if◌then◌else◌, ◌==◌, ==_eq, ◌∙◌, ap, length,
  length-map, replicate,
}
use hybrid_search.Prelude.Text.{Str, str_eq}
use hybrid_search.Prelude.Int.{ℤ}
use hybrid_search.Prelude.Dict.{
  keys, values, get_or, put, get_or-put, contains-keys-put, Distinct-keys-put,
}
use hybrid_search.Prelude.Float.{Float, min_from, max_from}
use hybrid_search.Fusion.Core.{
  Ranking, cut, normalise, minmax, zscore, minmax_scores, zscores, zip_into, lowest, Part, part_of,
}
use hybrid_search.Fusion.Core.Checks.{IsDepth, truncate_lem, check_unique_lem}

-- A method of `NORMALISATIONS`.
abbrev pub IsMethod : Str → Type 0
IsMethod norm = (norm ≡ minmax) ⊎ (norm ≡ zscore)

length-replicate : {A : Type 0} (n : ℕ) (a : A) → length (replicate n a) ≡ n
length-replicate zero a = refl
length-replicate (suc n) a = ap suc (length-replicate n a)

length-values-keys : {V : Type 0} (r : List (Str × V)) → length (values r) ≡ length (keys r)
length-values-keys [] = refl
length-values-keys ((d, s) ∷ r) = ap suc (length-values-keys r)

length_either :
    {A : Type 0} (b : Bool) (a : A) (f : A → A) (s : List A)
    → length (if b then replicate (length s) a else map f s) ≡ length s
length_either true a f s = length-replicate (length s) a
length_either false a f s = length-map f s

or_false : (b : Bool) → (b || false) ≡ b
or_false true = refl
or_false false = refl

module _ (F : Float) where
  open F use {Num, of_nat, sub, div, sum, sqrt, square}

  length-minmax_scores : (s : Num) (ss : List Num) → length (minmax_scores F s ss) ≡ length (s ∷ ss)
  unfolding minmax_scores
  length-minmax_scores s ss =
      let lo = min_from F s ss in
      let hi = max_from F s ss in length_either _ _ (λ x. div (sub x lo) (sub hi lo)) (s ∷ ss)

  length-zscores : (s : List Num) → length (zscores F s) ≡ length s
  unfolding zscores
  length-zscores s =
      let n = of_nat (length s) in
      let mu = div (sum s) n in
      let sd = sqrt (div (sum (map (λ x. square (sub x mu)) s)) n) in
      length_either _ _ (λ x. div (sub x mu) sd) s

  -- A known method gives every score a normalised one.
  pub normalise_lem :
      (s : List Num) (norm : Str)
      → IsMethod norm
      → (ns : List Num) × (normalise F s norm ≡ ok ns) × (length ns ≡ length s)
  unfolding normalise
  normalise_lem [] norm h = ([], refl, refl)
  normalise_lem (s ∷ ss) norm (inl h) = (minmax_scores F s ss, rw h refl, length-minmax_scores s ss)
  normalise_lem (s ∷ ss) norm (inr h) = (zscores F (s ∷ ss), rw h refl, length-zscores (s ∷ ss))

  -- The normalised score of a document, or `low` for one that the ranking lacks.
  abbrev pub norm_at : List Str → List Num → Num → Str → Num
  norm_at [] ns low d = low
  norm_at (e ∷ es) [] low d = low
  norm_at (e ∷ es) (n ∷ ns) low d = let rest = norm_at es ns low d in if d == e then n else rest

  norm_at_absent :
      (es : List Str) (ns : List Num) (low : Num) (d : Str)
      → contains es d ≡ false
      → norm_at es ns low d ≡ low
  norm_at_absent [] ns low d h = refl
  norm_at_absent (e ∷ es) [] low d h = refl
  norm_at_absent (e ∷ es) (n ∷ ns) low d h = ground (arith, norm_at_absent es ns low d)

  get_or-zip_into :
      (es : List Str) (ns : List Num) (t : List (Str × Num)) (low : Num) (d : Str)
      → Distinct es
      → get_or (zip_into F es ns t) d low ≡ norm_at es ns (get_or t d low) d
  unfolding zip_into
  get_or-zip_into [] ns t low d u = refl
  get_or-zip_into (e ∷ es) [] t low d u = refl
  get_or-zip_into (e ∷ es) (n ∷ ns) t low d u = elim (Bool-cases (d == e)) [
    | inl p ↦
        let same : d ≡ e = ==_eq d e p in
        rw (get_or-zip_into es ns (put t e n) low d u.1, get_or-put t e d n low, p)
          (norm_at_absent es ns n d (rw same u.0))
    | inr p ↦ rw (get_or-zip_into es ns (put t e n) low d u.1, get_or-put t e d n low, p) refl
  ]

  contains-zip_into :
      (es : List Str) (ns : List Num) (t : List (Str × Num)) (d : Str)
      → length ns ≡ length es
      → contains (keys (zip_into F es ns t)) d ≡ (contains es d || contains (keys t) d)
  unfolding zip_into
  contains-zip_into [] ns t d h = refl
  contains-zip_into (e ∷ es) [] t d h = absurd (omega arith)
  contains-zip_into (e ∷ es) (n ∷ ns) t d h =
      ground (arith, contains-zip_into es ns (put t e n) d, contains-keys-put t e d n)

  Distinct-zip_into :
      (es : List Str) (ns : List Num) (t : List (Str × Num))
      → Distinct (keys t)
      → Distinct (keys (zip_into F es ns t))
  unfolding zip_into
  Distinct-zip_into [] ns t h = h
  Distinct-zip_into (e ∷ es) [] t h = h
  Distinct-zip_into (e ∷ es) (n ∷ ns) t h =
      Distinct-zip_into es ns (put t e n) (Distinct-keys-put t e n h)

  -- What `part_of` makes of a ranking `r` that is cut to the depth.
  pub record IsPart (norm : Str) (r : Ranking F) (w : Num) (p : Part F) : Type 0 where
    pub norms : List Num
    pub normalised : normalise F (values r) norm ≡ ok norms
    pub scored : (d : Str) → get_or p.norms d p.floor ≡ norm_at (keys r) norms (lowest F norms) d
    pub held : (d : Str) → contains (keys p.norms) d ≡ contains (keys r) d
    pub distinct : Distinct (keys p.norms)
    pub weighs : p.weight ≡ w

  pub part_of_returns :
      (norm : Str) (depth : Option ℤ) (r : Ranking F) (w : Num)
      → IsMethod norm
      → IsDepth depth
      → Distinct (keys (cut F depth r))
      → (p : Part F) × (part_of F norm depth r w ≡ ok p) × IsPart norm (cut F depth r) w p
  unfolding part_of get_or
  part_of_returns norm depth r w m h u =
      let top = cut F depth r in
      let (ns, e, l) = normalise_lem (values top) norm m in
      let l' : length ns ≡ length (keys top) = l ∙ length-values-keys top in
      (
        record { norms = zip_into F (keys top) ns []; floor = lowest F ns; weight = w },
        rw (truncate_lem F r depth h, check_unique_lem F top u, e) refl,
        record {
          norms = ns;
          normalised = e;
          scored = λ d. get_or-zip_into (keys top) ns [] (lowest F ns) d u;
          held = λ d. contains-zip_into (keys top) ns [] d l' ∙ or_false _;
          distinct = Distinct-zip_into (keys top) ns [] tt;
          weighs = refl;
        },
      )
