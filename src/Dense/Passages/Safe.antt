-- ===== src/Dense/Passages/Safe.antt =====
-- Runs of `encode_passages` that are cut off: what is safe on the disk, and effects that keep it so.
use hybrid_search.Prelude.{
  ℕ, zero, suc, ◌-◌, ◌*◌, ◌≤◌, ◌<◌, ◌≡◌, refl, sym, ap, subst, Bool, true, ◌&&◌, List, [], ◌∷◌,
  ◌++◌, map, Option, none, some, Result, ok, err, leb, ltb, min, length, take, nat_eq, All,
  Bool-cases, inl, inr, arith, &&-true, leb→le, le→leb, ltb→lt,
}
use hybrid_search.Prelude.Text.{Str}
use hybrid_search.Dense.Encoder.{Model, Matrix, get_or}
use hybrid_search.Dense.Passages.{
  chunk, Error, bad_norms, stats_of, Stats, Inputs, Disk, Effect, publish, drop_progress,
  write_stats, write_slice, rows_of, or_empty, apply, run, finish,
}
use hybrid_search.Dense.Passages.Texts.{passage_of, lt→ltb}

module _ (m : Model) (x : Inputs m) (row : Str → m.Row) where
  abbrev n : ℕ
  n = length x.ids

  -- The row of the `i`th passage of the collection.
  abbrev pub own_row : ℕ → Option m.Row
  own_row i = some (row (get_or (map passage_of x.collection) i []))

  -- Every row of a matrix is that of its passage.
  abbrev pub IsRight : Matrix m → Type 0
  IsRight mm = (i : ℕ) → i < n → mm i ≡ own_row i

  abbrev pub IsChunkRight : Matrix m → ℕ → Type 0
  IsChunkRight mm c = (i : ℕ) → c * chunk ≤ i → i < suc c * chunk → i < n → mm i ≡ own_row i

  -- The chunks of the progress file are in the partial file.
  abbrev pub Holds : Option (Bool × Matrix m) → List ℕ → Type 0
  Holds none done = done ≡ []
  Holds (some (whole, mm)) done = All (IsChunkRight mm) done

  -- What is published is right, and so is what a restart will skip.
  pub record IsSafe (d : Disk m) : Type 0 where
    pub published : (mm : Matrix m) → d.final ≡ some mm → IsRight mm
    pub kept : d.final ≡ none → Holds d.partial (or_empty m d.progress)

  -- The disk is safe after each effect, and `Q` holds of it at the end.
  abbrev pub SafeRun : (Disk m → Type 0) → List (Effect m) → Disk m → Type 0
  SafeRun Q [] d = IsSafe d × Q d
  SafeRun Q (e ∷ es) d = IsSafe d × SafeRun Q es (apply m e d)

  pub SafeRun-start :
      (Q : Disk m → Type 0) (es : List (Effect m)) (d : Disk m) → SafeRun Q es d → IsSafe d
  SafeRun-start Q [] d h = h.0
  SafeRun-start Q (e ∷ es) d h = h.0

  pub SafeRun-take :
      (Q : Disk m → Type 0) (k : ℕ) (es : List (Effect m)) (d : Disk m)
      → SafeRun Q es d
      → IsSafe (run m (take k es) d)
  unfolding run
  SafeRun-take Q zero es d h = SafeRun-start Q es d h
  SafeRun-take Q (suc k) [] d h = h.0
  SafeRun-take Q (suc k) (e ∷ es) d h = SafeRun-take Q k es (apply m e d) h.1

  pub SafeRun-end :
      (Q : Disk m → Type 0) (es : List (Effect m)) (d : Disk m) → SafeRun Q es d → Q (run m es d)
  unfolding run
  SafeRun-end Q [] d h = h.1
  SafeRun-end Q (e ∷ es) d h = SafeRun-end Q es (apply m e d) h.1

  pub SafeRun-append :
      (P Q : Disk m → Type 0) (es rest : List (Effect m)) (d : Disk m)
      → SafeRun P es d
      → ((d' : Disk m) → P d' → SafeRun Q rest d')
      → SafeRun Q (es ++ rest) d
  SafeRun-append P Q [] rest d h next = next d h.1
  SafeRun-append P Q (e ∷ es) rest d h next =
      (h.0, SafeRun-append P Q es rest (apply m e d) h.1 next)

  -- A disk amid a run, whose partial file is `mm`.
  pub record Amid (mm : Matrix m) (d : Disk m) : Type 0 where
    pub open_still : d.final ≡ none
    pub whole : d.partial ≡ some (true, mm)
    pub right : All (IsChunkRight mm) (or_empty m d.progress)

  pub Amid-IsSafe : (mm : Matrix m) (d : Disk m) → Amid mm d → IsSafe d
  Amid-IsSafe mm d a = record {
    published = λ r h. let e = a.open_still in cc;
    kept = λ h. rw a.whole a.right;
  }

  pub write_slice-IsChunkRight :
      (s e : ℕ) (rows mm : Matrix m) (c : ℕ)
      → ((i : ℕ) → s ≤ i → i < e → rows (i - s) ≡ own_row i)
      → IsChunkRight mm c
      → IsChunkRight (write_slice m s e rows mm) c
  unfolding write_slice
  write_slice-IsChunkRight s e rows mm c new old i p q r = elim (Bool-cases (leb s i && ltb i e)) [
    | inl h ↦
        let (a, b) = &&-true (leb s i) (ltb i e) h in rw h (new i (leb→le s i a) (ltb→lt i e b))
    | inr h ↦ rw h (old i p q r)
  ]

  pub written-IsChunkRight :
      (c : ℕ) (rows mm : Matrix m)
      → ((i : ℕ) → c * chunk ≤ i → i < min n (suc c * chunk) → rows (i - c * chunk) ≡ own_row i)
      → IsChunkRight (write_slice m (c * chunk) (min n (suc c * chunk)) rows mm) c
  unfolding write_slice
  written-IsChunkRight c rows mm new i p q r =
      let inside : i < min n (suc c * chunk) = omega arith in
      rw (le→leb _ _ p, lt→ltb i (min n (suc c * chunk)) inside) (new i p inside)

  pub up_to :
      (c : ℕ) (mm : Matrix m)
      → ((b : ℕ) → b < c → IsChunkRight mm b)
      → IsChunkRight mm c
      → (b : ℕ) → b < suc c
      → IsChunkRight mm b
  up_to c mm below last b p = elim (Bool-cases (ltb b c)) [
    | inl e ↦ below b (ltb→lt b c e)
    | inr e ↦ let same : c ≡ b = ground arith in subst (IsChunkRight mm) same last
  ]

  -- What a run that returns leaves, and nothing of one that raises.
  abbrev pub Published : Result Error (Option Stats) → Disk m → Type 0
  Published (err e) d = Unit
  Published (ok stats) d = (mm : Matrix m) × (d.final ≡ some mm) × IsRight mm

  pub published-IsSafe : (mm : Matrix m) (d : Disk m) → d.final ≡ some mm → IsRight mm → IsSafe d
  published-IsSafe mm d h r = record {
    published = λ other e. let same : mm ≡ other = cc in subst IsRight same r;
    kept = λ e. cc;
  }

  pub publish_safe :
      (mm : Matrix m) (d : Disk m) (stats : Stats)
      → Amid mm d
      → IsRight mm
      → SafeRun (Published (ok (some stats))) (publish ∷ drop_progress ∷ write_stats stats ∷ []) d
  unfolding apply
  publish_safe mm d stats a r =
      let final : rows_of m d.partial ≡ some mm = ap (rows_of m) a.whole in
      let d1 = apply m publish d in
      let d2 = apply m drop_progress d1 in
      let d3 = apply m (write_stats stats) d2 in
      (
        Amid-IsSafe mm d a,
        (
          published-IsSafe mm d1 final r,
          (published-IsSafe mm d2 final r, (published-IsSafe mm d3 final r, (mm, final, r))),
        ),
      )

  abbrev pub Run : Type 0
  Run = List (Effect m) × Result Error (Option Stats)

  abbrev pub IsGood : Disk m → Run → Type 0
  IsGood d r = SafeRun (Published r.1) r.0 d

  pub raise_safe :
      (mm : Matrix m) (es : List (Effect m)) (d : Disk m) (e : Error)
      → SafeRun (Amid mm) es d
      → IsGood d (es, err e)
  raise_safe mm [] d e h = (h.0, tt)
  raise_safe mm (f ∷ es) d e h = (h.0, raise_safe mm es (apply m f d) e h.1)

  pub finish_safe :
      (mm : Matrix m) (es : List (Effect m)) (d : Disk m)
      → SafeRun (Amid mm) es d
      → IsRight mm
      → IsGood d (finish m x d es mm)
  unfolding finish
  finish_safe mm es d h r =
      let stats = stats_of m n (run m es d) in
      let tail = publish ∷ drop_progress ∷ write_stats stats ∷ [] in
      elim (Bool-cases (x.norms_ok mm)) [
        | inr e ↦
            let same : finish m x d es mm ≡ (es, err bad_norms) = rw e refl in
            subst (IsGood d) (sym same) (raise_safe mm es d bad_norms h)
        | inl e ↦
            let same : finish m x d es mm ≡ (es ++ tail, ok (some stats)) = rw e refl in
            subst (IsGood d) (sym same) (
              SafeRun-append (Amid mm) (Published (ok (some stats))) es tail d h
                (λ d' a. publish_safe mm d' stats a r))
      ]
