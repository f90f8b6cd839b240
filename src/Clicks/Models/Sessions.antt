-- ===== src/Clicks/Models/Sessions.antt =====
-- `DBN.simulate` of py/hybridsearch/clicks/models.py, seen by one session.
use hybrid_search.Prelude.{
  ℕ, zero, suc, ◌-◌, ◌≤◌, ◌<◌, ◌≡◌, refl, Bool, true, false, ◌&&◌, not, List, [], ◌∷◌, map, some,
  ok, arith, length, get_elem?, replicate, ap, ap₂, ◌∙◌, min, Bool-cases, inl, inr,
}
use hybrid_search.Prelude.Int.{ℤ, pos, negsuc}
use hybrid_search.Prelude.Float.{Float}
use hybrid_search.Clicks.Models.{
  row_at, both, lookup, lookup_column, below, Column, Seen, dbn, dbn_column, dbn_columns, simulate,
}

-- The entry of a column for the session `i`.
abbrev pub bit : List Bool → ℕ → Bool
bit [] i = false
bit (b ∷ bs) zero = b
bit (b ∷ bs) (suc i) = bit bs i

abbrev pub entry {ℓ} : {A : Type ℓ} → A → List A → ℕ → A
entry x [] i = x
entry x (y ∷ ys) zero = x
entry x (y ∷ ys) (suc i) = entry y ys i

row_at-entry {ℓ} :
    {A : Type ℓ} (x : A) (xs : List A) (i : ℕ)
    → i ≤ length xs
    → row_at (x ∷ xs) i ≡ ok (entry x xs i)
row_at-entry x [] zero h = refl
row_at-entry x [] (suc i) h = absurd (omega arith)
row_at-entry x (y ∷ ys) zero h = refl
row_at-entry x (y ∷ ys) (suc i) h = row_at-entry y ys i (omega arith)

module _ (F : Float) where
  open F use {Num, of_nat, less}

  -- What one session meets at one rank: the grade and its three draws.
  pub record Meeting : Type 0 where
    pub grade : ℤ
    pub first : Num
    pub second : Num
    pub third : Num

  -- The column of the arrays for the meetings of all sessions at one rank.
  abbrev pub column_of : List Meeting → Column F
  column_of meetings = record {
    grades = map (λ m. m.grade) meetings;
    first = map (λ m. m.first) meetings;
    second = map (λ m. m.second) meetings;
    third = map (λ m. m.third) meetings;
  }

  -- The table's number for a grade: nothing for an empty slot, and the last for grades past it.
  abbrev pub rate : Num → List Num → ℤ → Num
  rate x table (negsuc g) = of_nat 0
  rate x table (pos g) = entry x table (min g (length table))

  lookup-rate : (x : Num) (table : List Num) (g : ℤ) → lookup F (x ∷ table) g ≡ ok (rate x table g)
  lookup-rate x table (negsuc g) = refl
  lookup-rate x table (pos g) =
      let short : length (x ∷ table) - 1 ≡ length table = omega arith in
      rw short (row_at-entry x table (min g (length table)) (omega arith))

  pub lookup_column-rate :
      (x : Num) (table : List Num) (meetings : List Meeting)
      → lookup_column F (x ∷ table) (map (λ m. m.grade) meetings)
        ≡ ok (map (λ m. rate x table m.grade) meetings)
  unfolding lookup_column
  lookup_column-rate x table [] = refl
  lookup_column-rate x table (m ∷ meetings) =
      rw (lookup-rate x table m.grade, lookup_column-rate x table meetings) refl

  module _ (x : Num) (alpha : List Num) (y : Num) (sigma : List Num) where
    abbrev pub is_attracted : Meeting → Bool
    is_attracted m = less m.first (rate x alpha m.grade)

    abbrev pub would_stop : Meeting → Bool
    would_stop m = less m.second (rate y sigma m.grade)

    -- A session of the dynamic Bayesian network: what the user does at each rank, as whether the
    -- result is examined, clicked and satisfying, from a rank that is examined or not. Whoever has
    -- left examines nothing more.
    abbrev pub visit : (Meeting → Bool) → Bool → List Meeting → List (Bool × Bool × Bool)
    visit goes_on here [] = []
    visit goes_on false (m ∷ meetings) = (false, false, false) ∷ visit goes_on false meetings
    visit goes_on true (m ∷ meetings) =
        let satisfied = is_attracted m && would_stop m in
        (true, is_attracted m, satisfied) ∷ visit goes_on (not satisfied && goes_on m) meetings

    bit-clicks :
        (e : List Bool) (meetings : List Meeting) (i : ℕ) (m : Meeting)
        → get_elem? meetings i ≡ some m
        → bit
            (both e
              (below F (map (λ m. m.first) meetings) (map (λ m. rate x alpha m.grade) meetings)))
            i
          ≡ (bit e i && is_attracted m)
    bit-clicks e [] i m h = cc
    bit-clicks [] (n ∷ meetings) i m h = refl
    bit-clicks (b ∷ e) (n ∷ meetings) zero m h =
        let same : n ≡ m = cc in ap (λ k. b && is_attracted k) same
    bit-clicks (b ∷ e) (n ∷ meetings) (suc i) m h = bit-clicks e meetings i m h

    bit-satisfied :
        (c : List Bool) (meetings : List Meeting) (i : ℕ) (m : Meeting)
        → get_elem? meetings i ≡ some m
        → bit
            (both c
              (below F (map (λ m. m.second) meetings) (map (λ m. rate y sigma m.grade) meetings)))
            i
          ≡ (bit c i && would_stop m)
    bit-satisfied c [] i m h = cc
    bit-satisfied [] (n ∷ meetings) i m h = refl
    bit-satisfied (b ∷ c) (n ∷ meetings) zero m h =
        let same : n ≡ m = cc in ap (λ k. b && would_stop k) same
    bit-satisfied (b ∷ c) (n ∷ meetings) (suc i) m h = bit-satisfied c meetings i m h

    abbrev clicks_of : List Bool → List Meeting → List Bool
    clicks_of e ms = both e (below F (map (λ m. m.first) ms) (map (λ m. rate x alpha m.grade) ms))

    abbrev satisfied_of : List Bool → List Meeting → List Bool
    satisfied_of e ms =
        both (clicks_of e ms)
          (below F (map (λ m. m.second) ms) (map (λ m. rate y sigma m.grade) ms))

    -- `e` for the next column.
    abbrev next_of : Num → List Bool → List Meeting → List Bool
    next_of gamma e ms =
        both (both e (map not (satisfied_of e ms)))
          (map (λ u. less u gamma) (map (λ m. m.third) ms))

    bit-next :
        (gamma : Num) (e : List Bool) (meetings : List Meeting) (i : ℕ) (m : Meeting)
        → get_elem? meetings i ≡ some m
        → bit (next_of gamma e meetings) i
          ≡ (bit e i && (not (is_attracted m && would_stop m) && less m.third gamma))
    bit-next gamma e [] i m h = cc
    bit-next gamma [] (n ∷ meetings) i m h = refl
    bit-next gamma (b ∷ e) (n ∷ meetings) zero m h = let same : n ≡ m = cc in rw same (ground arith)
    bit-next gamma (b ∷ e) (n ∷ meetings) (suc i) m h = bit-next gamma e meetings i m h

    -- What is returned for the session `i`: examined, clicked and satisfied, at one rank.
    abbrev pub seen_by : ℕ → Seen → Bool × Bool × Bool
    seen_by i seen = (bit seen.examined i, bit seen.clicks i, bit seen.satisfied i)

    -- The meetings of the session `i`, rank by rank.
    abbrev pub AreMeetings : ℕ → List (List Meeting) → List Meeting → Type 0
    AreMeetings i [] [] = Unit
    AreMeetings i (column ∷ columns) (m ∷ meetings) =
        (get_elem? column i ≡ some m) × AreMeetings i columns meetings
    AreMeetings i columns meetings = ⊥

    abbrev seen_of : List Bool → List Meeting → Seen
    seen_of e ms = record { clicks = clicks_of e ms; satisfied = satisfied_of e ms; examined = e }

    -- The columns that the loop returns.
    abbrev run : Num → List Bool → List (List Meeting) → List Seen
    run gamma e [] = []
    run gamma e (ms ∷ columns) = seen_of e ms ∷ run gamma (next_of gamma e ms) columns

    dbn_columns-run :
        (gamma : Num) (e : List Bool) (columns : List (List Meeting))
        → dbn_columns F (x ∷ alpha) (y ∷ sigma) gamma e (map column_of columns)
          ≡ ok (run gamma e columns)
    unfolding dbn_columns dbn_column
    dbn_columns-run gamma e [] = refl
    dbn_columns-run gamma e (ms ∷ columns) =
        rw
          (
            lookup_column-rate x alpha ms,
            lookup_column-rate y sigma ms,
            dbn_columns-run gamma (next_of gamma e ms) columns,
          )
          refl

    run-visit :
        (gamma : Num) (e : List Bool) (columns : List (List Meeting)) (i : ℕ)
        (meetings : List Meeting)
        → AreMeetings i columns meetings
        → map (seen_by i) (run gamma e columns) ≡ visit (λ m. less m.third gamma) (bit e i) meetings
    run-visit gamma e [] i [] w = refl
    run-visit gamma e [] i (m ∷ meetings) w = absurd w
    run-visit gamma e (ms ∷ columns) i [] w = absurd w
    run-visit gamma e (ms ∷ columns) i (m ∷ meetings) w =
        let goes_on : Meeting → Bool = λ n. less n.third gamma in
        let clicked = bit-clicks e ms i m w.0 in
        let satisfied = bit-satisfied (clicks_of e ms) ms i m w.0 in
        let triple : seen_by i (seen_of e ms)
            ≡ (bit e i, bit e i && is_attracted m, (bit e i && is_attracted m) && would_stop m) =
          rw (satisfied, clicked) refl in
        let later =
          run-visit gamma (next_of gamma e ms) columns i meetings w.1
          ∙ ap (λ b. visit goes_on b meetings) (bit-next gamma e ms i m w.0) in
        ap₂ ◌∷◌ triple later ∙ elim (Bool-cases (bit e i)) [ inl h ↦ rw h refl | inr h ↦ rw h refl ]

    bit-replicate : (n i : ℕ) → i < n → bit (replicate n true) i ≡ true
    bit-replicate zero i h = absurd (omega arith)
    bit-replicate (suc n) zero h = refl
    bit-replicate (suc n) (suc i) h = bit-replicate n i (omega arith)

    -- `DBN.simulate`, for tables that are not empty, returns; and for each session its columns say
    -- what the model's definition says of this session's own grades and draws: the user begins at
    -- the first result, clicks it if it attracts, leaves if the click satisfies, and else goes on
    -- to the next result if the third draw is below gamma.
    pub dbn_simulate_lem :
        (gamma : Num) (n : ℕ) (columns : List (List Meeting)) (i : ℕ) (meetings : List Meeting)
        → i < n
        → AreMeetings i columns meetings
        → (seen : List Seen) × (simulate F
              (dbn (x ∷ alpha) (y ∷ sigma) gamma)
              n
              (map column_of columns)
            ≡ ok seen)
          × (map (seen_by i) seen ≡ visit (λ m. less m.third gamma) true meetings)
    unfolding simulate
    dbn_simulate_lem gamma n columns i meetings h w = (
      run gamma (replicate n true) columns,
      dbn_columns-run gamma (replicate n true) columns,
      run-visit gamma (replicate n true) columns i meetings w
          ∙ ap (λ b. visit (λ m. less m.third gamma) b meetings) (bit-replicate n i h),
    )
