-- ===== src/Dense/Passages/Headers.antt =====
-- The headers of the files that `encode_passages` of py/hybridsearch/dense/encode.py makes.
use hybrid_search.Prelude.{
  ℕ, zero, suc, ◌≡◌, ◌≢◌, refl, sym, subst, Bool, true, false, List, [], ◌∷◌, ◌++◌, Option, none,
  some, ok, Result-cases, Option-cases, Bool-cases, ◌⊎◌, inl, inr, All, All-append, take, length,
  contains, nat_eq, ◌==◌, ◌∙◌, append-nil, append_assoc,
}
use hybrid_search.Prelude.Text.{Str}
use hybrid_search.Dense.Encoder.{Model, Limits, Matrix}
use hybrid_search.Dense.Passages.{
  Inputs, Disk, Effect, create, write_header, extend, clear_progress, write_chunk, add_progress,
  add_log, publish, drop_progress, write_stats, write_partial, extended, rows_of, stats_of,
  or_empty, apply, run, read_texts, chunk_count, encode_chunks, finish, encode_rest, resume,
  encode_all,
}

-- If the file is there, it has its header.
abbrev pub IsHeadedIf {ℓ} : {A : Type ℓ} → Option A → Bool → Type 0
IsHeadedIf none headed = Unit
IsHeadedIf (some a) headed = headed ≡ true

pub headed_some {ℓ} :
    {A : Type ℓ} (o : Option A) (headed : Bool) (a : A)
    → o ≡ some a
    → IsHeadedIf o headed
    → headed ≡ true
headed_some none headed a h k = cc
headed_some (some b) headed a h k = k

module _ (m : Model) where
  abbrev pub HasHeaders : Disk m → Type 0
  HasHeaders d = IsHeadedIf d.final d.final_headed × IsHeadedIf d.partial d.partial_headed

  abbrev keeps : Effect m → Bool
  keeps (create mm) = false
  keeps write_header = true
  keeps extend = true
  keeps clear_progress = true
  keeps (write_chunk s e rows) = true
  keeps (add_progress c) = true
  keeps (add_log c rows) = true
  keeps publish = true
  keeps drop_progress = true
  keeps (write_stats stats) = true

  abbrev AllKeep : List (Effect m) → Type 0
  AllKeep = All (λ e. keeps e ≡ true)

  headed_extended :
      (o : Option (Bool × Matrix m)) (b : Bool) → IsHeadedIf o b → IsHeadedIf (extended m o) b
  headed_extended none b h = tt
  headed_extended (some p) b h = h

  headed_written :
      (s e : ℕ) (rows : Matrix m) (o : Option (Bool × Matrix m)) (b : Bool)
      → IsHeadedIf o b
      → IsHeadedIf (write_partial m s e rows o) b
  unfolding write_partial
  headed_written s e rows none b h = tt
  headed_written s e rows (some p) b h = h

  headed_rows :
      (o : Option (Bool × Matrix m)) (b : Bool) → IsHeadedIf o b → IsHeadedIf (rows_of m o) b
  headed_rows none b h = tt
  headed_rows (some p) b h = h

  headed_now {ℓ} : {A : Type ℓ} (o : Option A) → IsHeadedIf o true
  headed_now none = tt
  headed_now (some a) = refl

  apply-HasHeaders :
      (e : Effect m) (d : Disk m) → keeps e ≡ true → HasHeaders d → HasHeaders (apply m e d)
  unfolding apply
  apply-HasHeaders (create mm) d k h = cc
  apply-HasHeaders write_header d k h = (h.0, headed_now d.partial)
  apply-HasHeaders extend d k h = (h.0, headed_extended d.partial d.partial_headed h.1)
  apply-HasHeaders clear_progress d k h = h
  apply-HasHeaders (write_chunk s e rows) d k h =
      (h.0, headed_written s e rows d.partial d.partial_headed h.1)
  apply-HasHeaders (add_progress c) d k h = h
  apply-HasHeaders (add_log c rows) d k h = h
  apply-HasHeaders publish d k h = (headed_rows d.partial d.partial_headed h.1, tt)
  apply-HasHeaders drop_progress d k h = h
  apply-HasHeaders (write_stats stats) d k h = h

  keep-take :
      (k : ℕ) (es : List (Effect m)) (d : Disk m)
      → AllKeep es
      → HasHeaders d
      → HasHeaders (run m (take k es) d)
  unfolding run
  keep-take zero es d a h = h
  keep-take (suc k) [] d a h = h
  keep-take (suc k) (e ∷ es) d a h = keep-take k es (apply m e d) a.1 (apply-HasHeaders e d a.0 h)

  keep-run :
      (es : List (Effect m)) (d : Disk m) → AllKeep es → HasHeaders d → HasHeaders (run m es d)
  unfolding run
  keep-run [] d a h = h
  keep-run (e ∷ es) d a h = keep-run es (apply m e d) a.1 (apply-HasHeaders e d a.0 h)

  -- A file that is opened gets its header next.
  abbrev IsHeaded : List (Effect m) → Type 0
  IsHeaded es =
      AllKeep es
      ⊎ ((mm : Matrix m) × (rest : List (Effect m)) × (es ≡ create mm ∷ write_header ∷ rest)
          × AllKeep rest)

  opened :
      (mm : Matrix m) (d : Disk m)
      → HasHeaders d
      → HasHeaders (apply m write_header (apply m (create mm) d))
  unfolding apply
  opened mm d h = (h.0, refl)

  pub take-HasHeaders :
      (k : ℕ) (es : List (Effect m)) (d : Disk m)
      → k ≢ 1
      → IsHeaded es
      → HasHeaders d
      → HasHeaders (run m (take k es) d)
  unfolding run
  take-HasHeaders k es d many (inl a) h = keep-take k es d a h
  take-HasHeaders zero es d many (inr (mm, rest, e, a)) h = h
  take-HasHeaders (suc zero) es d many (inr (mm, rest, e, a)) h = absurd (many refl)
  take-HasHeaders (suc (suc k)) es d many (inr (mm, rest, e, a)) h =
      rw e (keep-take k rest (apply m write_header (apply m (create mm) d)) a (opened mm d h))

  pub run-HasHeaders :
      (es : List (Effect m)) (d : Disk m) → IsHeaded es → HasHeaders d → HasHeaders (run m es d)
  unfolding run
  run-HasHeaders es d (inl a) h = keep-run es d a h
  run-HasHeaders es d (inr (mm, rest, e, a)) h =
      rw e (keep-run rest (apply m write_header (apply m (create mm) d)) a (opened mm d h))

  chunks-AllKeep :
      (l : Limits) (done : List ℕ) (texts : List Str) (n k c : ℕ) (mm : Matrix m)
      → AllKeep (encode_chunks m l done texts n k c mm).0
  unfolding encode_chunks
  chunks-AllKeep l done texts n zero c mm = tt
  chunks-AllKeep l done texts n (suc k) c mm = elim (Bool-cases (contains done c)) [
    | inl b ↦ rw b (chunks-AllKeep l done texts n k (suc c) mm)
    | inr b ↦ rw b (refl, (refl, (refl, chunks-AllKeep l done texts n k (suc c) _)))
  ]

  module _ (x : Inputs m) (d : Disk m) where
    finish-more :
        (es : List (Effect m)) (mm : Matrix m)
        → (more : List (Effect m)) × ((finish m x d es mm).0 ≡ es ++ more) × AllKeep more
    unfolding finish
    finish-more es mm = elim (Bool-cases (x.norms_ok mm)) [
      | inl b ↦
          let stats = stats_of m (length x.ids) (run m es d) in
          (publish ∷ drop_progress ∷ write_stats stats ∷ [], rw b refl, (refl, (refl, (refl, tt))))
      | inr b ↦ ([], rw b (sym (append-nil es)), tt)
    ]

    rest-more :
        (es : List (Effect m)) (done : List ℕ) (mm : Matrix m)
        → (more : List (Effect m)) × ((encode_rest m x d es done mm).0 ≡ es ++ more) × AllKeep more
    unfolding encode_rest
    rest-more es done mm = elim (Result-cases (read_texts done 0 x.ids x.collection)) [
      | inl (e, p) ↦ ([], rw (p, encode_rest) (sym (append-nil es)), tt)
      | inr (texts, p) ↦
          let n = length x.ids in
          let loop = encode_chunks m x.limits done texts n (chunk_count n) 0 mm in
          let a = chunks-AllKeep x.limits done texts n (chunk_count n) 0 mm in
          elim (Bool-cases (length texts == n)) [
            | inr q ↦ ([], rw (p, encode_rest, q) (sym (append-nil es)), tt)
            | inl q ↦
                let (more, e, b) = finish-more (es ++ loop.0) loop.1 in
                (
                  loop.0 ++ more,
                  rw (p, encode_rest, q) (e ∙ append_assoc es loop.0 more),
                  All-append _ loop.0 more a b,
                )
          ]
    ]

    resume-IsHeaded : (partial : Option (Bool × Matrix m)) → IsHeaded (resume m x d partial).0
    unfolding resume
    resume-IsHeaded none = elim (Bool-cases x.has_room) [
      | inr b ↦ rw b (inl tt)
      | inl b ↦
          let mm : Matrix m = λ i. some x.zeros in
          let (more, e, a) =
            rest-more (create mm ∷ write_header ∷ extend ∷ clear_progress ∷ []) [] mm in
          rw b (inr (mm, extend ∷ clear_progress ∷ more, e, (refl, (refl, a))))
    ]
    resume-IsHeaded (some (false, mm)) =
        let (more, e, a) = rest-more (extend ∷ []) (or_empty m d.progress) mm in
        inl (rw e (refl, a))
    resume-IsHeaded (some (true, mm)) =
        let (more, e, a) = rest-more [] (or_empty m d.progress) mm in inl (rw e a)

    pub encode_all-IsHeaded : IsHeaded (encode_all m x d).0
    unfolding encode_all
    encode_all-IsHeaded = elim (Option-cases d.final) [
      | inl f ↦
          let same : encode_all m x d ≡ resume m x d d.partial = rw f refl in
          subst (λ r. IsHeaded r.0) (sym same) (resume-IsHeaded d.partial)
      | inr (mm, f) ↦
          let same : encode_all m x d ≡ ([], ok d.stats) = rw f refl in
          subst (λ r. IsHeaded r.0) (sym same) (inl tt)
    ]
