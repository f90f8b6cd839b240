-- ===== src/Clicks/Models.antt =====
-- Simulated users: py/hybridsearch/clicks/models.py. An array of shape (n, k) is the list of its k
-- columns, one entry for each session; the draws of the generator are arguments.

pub mod Positions
pub mod Profiles
pub mod Sessions
use hybrid_search.Prelude.{
  ℕ, zero, suc, ◌-◌, Bool, true, ◌&&◌, not, List, [], ◌∷◌, map, none, some, Result, ok, err, ◌>>=◌,
  if◌then◌else◌, ◌==◌, length, replicate, take, nat_beq, min,
}
use hybrid_search.Prelude.Text.{Str, codes, str_eq}
use hybrid_search.Prelude.Dict.{get?}
use hybrid_search.Prelude.Int.{ℤ, pos, negsuc}
use hybrid_search.Prelude.Float.{Float}

pub data Error : Type 0 where
  unknown_profile : Error
  unknown_model : Error
  index_error : Error
  -- Operands that do not broadcast.
  bad_shape : Error

abbrev pub perfect : Str
perfect = codes "perfect"

abbrev pub navigational : Str
navigational = codes "navigational"

abbrev pub informational : Str
informational = codes "informational"

-- `DL_TO_TABLE`
abbrev pub dl_to_table : List ℕ
dl_to_table = 0 ∷ 1 ∷ 3 ∷ 4 ∷ []

-- `table[i]`, for an `i` that is not negative.
abbrev pub row_at {ℓ} : {A : Type ℓ} → List A → ℕ → Result Error A
row_at [] i = err index_error
row_at (x ∷ table) zero = ok x
row_at (x ∷ table) (suc i) = row_at table i

-- `table[places]`
abbrev pub take_rows {ℓ} : {A : Type ℓ} → List A → List ℕ → Result Error (List A)
take_rows table [] = ok []
take_rows table (i ∷ places) = do x ← row_at table i; xs ← take_rows table places; ok (x ∷ xs)

-- What `simulate` returns, for one column: `ClickResult`.
pub record Seen : Type 0 where
  pub clicks : List Bool
  pub satisfied : List Bool
  pub examined : List Bool

-- `x & y` of two columns
abbrev pub both : List Bool → List Bool → List Bool
both (x ∷ xs) (y ∷ ys) = (x && y) ∷ both xs ys
both xs ys = []

module _ (F : Float) where
  open F use {Num, of_nat, div, less}

  -- 0.05 and the like: the quotient is the same number.
  abbrev percent : ℕ → Num
  percent n = div (of_nat n) (of_nat 100)

  -- `PROFILES`: "click" and "stop".
  abbrev pub profiles : List (Str × (List Num × List Num))
  profiles =
      (perfect, (map percent (0 ∷ 20 ∷ 40 ∷ 80 ∷ 100 ∷ []), map percent (0 ∷ 0 ∷ 0 ∷ 0 ∷ 0 ∷ [])))
      ∷ (
        navigational,
        (map percent (5 ∷ 30 ∷ 50 ∷ 70 ∷ 95 ∷ []), map percent (20 ∷ 30 ∷ 50 ∷ 70 ∷ 90 ∷ [])),
      )
      ∷ (
        informational,
        (map percent (40 ∷ 60 ∷ 70 ∷ 80 ∷ 90 ∷ []), map percent (10 ∷ 20 ∷ 30 ∷ 40 ∷ 50 ∷ [])),
      )
      ∷ []

  unfoldable pub dl_profile_arrays : Str → List ℕ → Result Error (List Num × List Num)
  unfolding get?
  dl_profile_arrays profile mapping = elim (get? profiles profile) [
    | none ↦ err unknown_profile
    | some p ↦
        take_rows p.0 mapping >>= λ alpha. take_rows p.1 mapping >>= λ sigma. ok (alpha, sigma)
  ]

  -- `position_bias`, with `power r` for `(1.0 / r) ** severity`, from the rank `r`.
  abbrev pub position_bias : (ℕ → Num) → ℕ → ℕ → List Num
  position_bias power r zero = []
  position_bias power r (suc k) = power r ∷ position_bias power (suc r) k

  -- `_lookup` at one grade.
  abbrev pub lookup : List Num → ℤ → Result Error Num
  lookup table (negsuc g) = ok (of_nat 0)
  lookup table (pos g) = row_at table (min g (length table - 1))

  -- `_lookup` of a column.
  unfoldable pub lookup_column : List Num → List ℤ → Result Error (List Num)
  lookup_column table [] = ok []
  lookup_column table (g ∷ grades) = do
    x ← lookup table g
    xs ← lookup_column table grades
    ok (x ∷ xs)

  -- `u < x` of two columns
  abbrev pub below : List Num → List Num → List Bool
  below (u ∷ us) (x ∷ xs) = less u x ∷ below us xs
  below us xs = []

  -- A `PBM` or a `DBN`, without its name.
  pub data ClickModel : Type 0 where
    pbm : List Num → List Num → List Num → ClickModel
    dbn : List Num → List Num → Num → ClickModel

  -- The column `r` of `grades` and of the three arrays of draws, in the order in which they are
  -- drawn.
  pub record Column : Type 0 where
    pub grades : List ℤ
    pub first : List Num
    pub second : List Num
    pub third : List Num

  -- `PBM.simulate` at a column, with `eta`.
  unfoldable pub pbm_column : List Num → List Num → Num → Column → Result Error Seen
  unfolding lookup_column
  pbm_column alpha sigma eta c = do
    a ← lookup_column alpha c.grades
    s ← lookup_column sigma c.grades
    let examined = map (λ u. less u eta) c.first
    let attracted = below c.second a
    let clicks = both examined attracted
    ok (record { clicks = clicks; satisfied = both clicks (below c.third s); examined = examined })

  -- `eta[:k]` as an operand of k columns; one number serves all of them.
  abbrev pub broadcast : ℕ → List Num → Result Error (List Num)
  broadcast k (x ∷ []) = ok (replicate k x)
  broadcast k eta = if nat_beq (length (take k eta)) k then ok (take k eta) else err bad_shape

  -- The columns from `r` on.
  unfoldable pub pbm_columns :
      List Num → List Num → List Num → List Column → Result Error (List Seen)
  unfolding pbm_column
  pbm_columns alpha sigma eta [] = ok []
  pbm_columns alpha sigma [] (c ∷ cs) = err bad_shape
  pbm_columns alpha sigma (x ∷ eta) (c ∷ cs) = do
    seen ← pbm_column alpha sigma x c
    rest ← pbm_columns alpha sigma eta cs
    ok (seen ∷ rest)

  -- `DBN.simulate` at a column, with `e`: the column, and `e` after it.
  unfoldable pub dbn_column :
      List Num → List Num → Num → List Bool → Column → Result Error (Seen × List Bool)
  unfolding lookup_column
  dbn_column alpha sigma gamma e c = do
    a ← lookup_column alpha c.grades
    s ← lookup_column sigma c.grades
    let clicks = both e (below c.first a)
    let satisfied = both clicks (below c.second s)
    ok (
      record { clicks = clicks; satisfied = satisfied; examined = e },
      both (both e (map not satisfied)) (map (λ u. less u gamma) c.third),
    )

  -- `for r in range(k)`
  unfoldable pub dbn_columns :
      List Num → List Num → Num → List Bool → List Column → Result Error (List Seen)
  unfolding dbn_column
  dbn_columns alpha sigma gamma e [] = ok []
  dbn_columns alpha sigma gamma e (c ∷ cs) = do
    seen ← dbn_column alpha sigma gamma e c
    rest ← dbn_columns alpha sigma gamma seen.1 cs
    ok (seen.0 ∷ rest)

  -- `simulate`, for `n` sessions.
  unfoldable pub simulate : ClickModel → ℕ → List Column → Result Error (List Seen)
  unfolding pbm_columns dbn_columns
  simulate (pbm alpha sigma eta) n columns =
      broadcast (length columns) eta >>= λ etas. pbm_columns alpha sigma etas columns
  simulate (dbn alpha sigma gamma) n columns =
      dbn_columns alpha sigma gamma (replicate n true) columns

  -- `make_model`, once the profile is found.
  abbrev pub model_of : Str → ℕ → (ℕ → Num) → Num → List Num × List Num → Result Error ClickModel
  model_of kind k power gamma tables =
      if kind == codes "pbm"
      then ok (pbm tables.0 tables.1 (position_bias power 1 k))
      else if kind == codes "cascade"
      then ok (dbn tables.0 tables.1 (of_nat 1))
      else if kind == codes "dbn"
      then ok (dbn tables.0 tables.1 gamma)
      else err unknown_model

  -- `make_model`
  unfoldable pub make_model : Str → Str → ℕ → (ℕ → Num) → Num → Result Error ClickModel
  unfolding dl_profile_arrays
  make_model kind profile k power gamma = do
    tables ← dl_profile_arrays profile dl_to_table
    model_of kind k power gamma tables
