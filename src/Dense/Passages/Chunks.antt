-- ===== src/Dense/Passages/Chunks.antt =====
-- The loop over the chunks in `encode_passages` of py/hybridsearch/dense/encode.py.
use hybrid_search.Prelude.{
  ℕ, zero, suc, ◌+◌, ◌-◌, ◌*◌, ◌/◌, ◌≤◌, ◌<◌, ◌≡◌, refl, ◌∙◌, sym, ap, subst, true, false, List, [],
  ◌∷◌, ◌++◌, map, some, min, length, take, drop, contains, nat_eq, All, All-imp, All-append,
  length-take, Bool-cases, inl, inr, arith,
}
use hybrid_search.Prelude.Text.{Str}
use hybrid_search.Prelude.Sets.{All_at}
use hybrid_search.Dense.Encoder.{Model, Matrix, get_or, encode_passages, passage_max_len}
use hybrid_search.Dense.Encoder.Budget.{encode_lem}
use hybrid_search.Dense.Passages.{
  chunk, chunk_count, Inputs, Disk, Effect, write_chunk, add_progress, add_log, write_slice,
  write_partial, or_empty, apply, encode_chunks,
}
use hybrid_search.Dense.Passages.Texts.{get_or-drop, get_or-take, length-drop, lt→ltb, AreTexts}
use hybrid_search.Dense.Passages.Safe.{
  own_row, IsRight, IsChunkRight, SafeRun, Amid, Amid-IsSafe, write_slice-IsChunkRight,
  written-IsChunkRight, up_to,
}

module _ (m : Model) (x : Inputs m) (row : Str → m.Row)
    (by_row : (ts : List Str) → m.encode_batch ts passage_max_len ≡ map row ts) where
  abbrev n : ℕ
  n = length x.ids

  module _ (done : List ℕ) (texts : List Str) (texts_own : AreTexts done 0 x.collection texts)
      (len : length texts ≡ n) where
    -- The rows of a chunk that is not done are those of its passages.
    chunk_rows :
        (c i : ℕ)
        → contains done c ≡ false
        → c * chunk ≤ i
        → i < min n (suc c * chunk)
        → encode_passages m x.limits
            (take (min n (suc c * chunk) - c * chunk) (drop (c * chunk) texts))
            (i - c * chunk)
          ≡ own_row m x row i
    unfolding encode_passages
    chunk_rows c i new p q =
        let e = min n (suc c * chunk) in
        let s = c * chunk in
        let slice : List Str = take (e - s) (drop s texts) in
        let long : i - s < length slice =
          omega (arith, length-take (e - s) (drop s texts), length-drop [] s texts) in
        let in_chunk : (0 + i) / chunk ≡ c = omega arith in
        let place : s + (i - s) ≡ i = omega arith in
        encode_lem m x.limits slice passage_max_len row (i - s) by_row
        ∙ rw (lt→ltb (i - s) (length slice) long) (
            ap (λ t. some (row t))
              (get_or-take [] (e - s) (i - s) (drop s texts) (omega arith)
                ∙ get_or-drop [] s (i - s) texts
                ∙ ap (λ j. get_or texts j []) place
                ∙ texts_own.1 i (rw in_chunk new)))

    abbrev rows_at : ℕ → Matrix m
    rows_at c =
        encode_passages m x.limits
          (take (min n (suc c * chunk) - c * chunk) (drop (c * chunk) texts))

    abbrev written : ℕ → Matrix m → Matrix m
    written c mm = write_slice m (c * chunk) (min n (suc c * chunk)) (rows_at c) mm

    abbrev pub loop : ℕ → ℕ → Matrix m → List (Effect m) × Matrix m
    loop k c mm = encode_chunks m x.limits done texts n k c mm

    abbrev written_loop : ℕ → ℕ → Matrix m → List (Effect m) × Matrix m
    written_loop k c mm = (
      write_chunk (c * chunk) (min n (suc c * chunk)) (rows_at c)
          ∷ add_progress c
          ∷ add_log c (min n (suc c * chunk) - c * chunk)
          ∷ (loop k (suc c) (written c mm)).0,
      (loop k (suc c) (written c mm)).1,
    )

    loop_skips :
        (k c : ℕ) (mm : Matrix m) → contains done c ≡ true → loop (suc k) c mm ≡ loop k (suc c) mm
    unfolding encode_chunks
    loop_skips k c mm h = rw h refl

    loop_writes :
        (k c : ℕ) (mm : Matrix m)
        → contains done c ≡ false
        → loop (suc k) c mm ≡ written_loop k c mm
    unfolding encode_chunks
    loop_writes k c mm h = rw h refl

    written_keeps :
        (c : ℕ) (mm : Matrix m) (cs : List ℕ)
        → contains done c ≡ false
        → All (IsChunkRight m x row mm) cs
        → All (IsChunkRight m x row (written c mm)) cs
    written_keeps c mm cs new h =
        All-imp (IsChunkRight m x row mm) (IsChunkRight m x row (written c mm)) cs
          (λ b old.
            write_slice-IsChunkRight m x row (c * chunk) (min n (suc c * chunk)) (rows_at c) mm b
              (λ i p q. chunk_rows c i new p q) old)
          h

    written_right :
        (c : ℕ) (mm : Matrix m) → contains done c ≡ false → IsChunkRight m x row (written c mm) c
    written_right c mm new =
        written-IsChunkRight m x row c (rows_at c) mm (λ i p q. chunk_rows c i new p q)

    -- The three effects of a chunk.
    chunk_safe :
        (Q : Disk m → Type 0) (c rows : ℕ) (mm : Matrix m) (d : Disk m) (rest : List (Effect m))
        → contains done c ≡ false
        → Amid m x row mm d
        → ((d' : Disk m) → Amid m x row (written c mm) d' → SafeRun m x row Q rest d')
        → SafeRun m x row Q
            (write_chunk (c * chunk) (min n (suc c * chunk)) (rows_at c)
              ∷ add_progress c
              ∷ add_log c rows
              ∷ rest)
            d
    unfolding apply
    chunk_safe Q c rows mm d rest new a next =
        let d1 = apply m (write_chunk (c * chunk) (min n (suc c * chunk)) (rows_at c)) d in
        let a1 : Amid m x row (written c mm) d1 = record {
          open_still = a.open_still;
          whole = ap (write_partial m (c * chunk) (min n (suc c * chunk)) (rows_at c)) a.whole;
          right = written_keeps c mm (or_empty m d.progress) new a.right;
        } in
        let more : All (IsChunkRight m x row (written c mm)) (or_empty m d.progress ++ c ∷ []) =
          All-append (IsChunkRight m x row (written c mm)) (or_empty m d.progress) (c ∷ []) a1.right
            (written_right c mm new, tt) in
        let d2 = apply m (add_progress c) d1 in
        let a2 : Amid m x row (written c mm) d2 = record {
          open_still = a1.open_still;
          whole = a1.whole;
          right = more;
        } in
        let d3 = apply m (add_log c rows) d2 in
        let a3 : Amid m x row (written c mm) d3 = record {
          open_still = a1.open_still;
          whole = a1.whole;
          right = more;
        } in
        (
          Amid-IsSafe m x row mm d a,
          (
            Amid-IsSafe m x row (written c mm) d1 a1,
            (Amid-IsSafe m x row (written c mm) d2 a2, next d3 a3),
          ),
        )

    -- The loop over the chunks, and what follows it.
    pub chunks_safe :
        (k c : ℕ) (mm : Matrix m) (d : Disk m)
        → Amid m x row mm d
        → SafeRun m x row (Amid m x row (loop k c mm).1) (loop k c mm).0 d
    unfolding encode_chunks
    chunks_safe zero c mm d a = (Amid-IsSafe m x row mm d a, a)
    chunks_safe (suc k) c mm d a =
        let Goal : List (Effect m) × Matrix m → Type 0 =
          λ r. SafeRun m x row (Amid m x row r.1) r.0 d in
        elim (Bool-cases (contains done c)) [
          | inl e ↦ subst Goal (sym (loop_skips k c mm e)) (chunks_safe k (suc c) mm d a)
          | inr e ↦ subst Goal (sym (loop_writes k c mm e)) (
              chunk_safe (Amid m x row (loop k (suc c) (written c mm)).1) c
                (min n (suc c * chunk) - c * chunk) mm d (loop k (suc c) (written c mm)).0 e a
                (λ d' a'. chunks_safe k (suc c) (written c mm) d' a'))
        ]

    -- When the loop is done, every chunk up to its end is right.
    chunks_right :
        (k c : ℕ) (mm : Matrix m)
        → All (IsChunkRight m x row mm) done
        → ((b : ℕ) → b < c → IsChunkRight m x row mm b)
        → (b : ℕ) → b < c + k
        → IsChunkRight m x row (loop k c mm).1 b
    unfolding encode_chunks
    chunks_right zero c mm h below b p = below b (omega arith)
    chunks_right (suc k) c mm h below b p = elim (Bool-cases (contains done c)) [
      | inl e ↦
          subst (λ r. IsChunkRight m x row r.1 b) (sym (loop_skips k c mm e))
            (chunks_right k (suc c) mm h
              (up_to m x row c mm below (All_at (IsChunkRight m x row mm) done c h e)) b
              (omega arith))
      | inr e ↦
          subst (λ r. IsChunkRight m x row r.1 b) (sym (loop_writes k c mm e))
            (chunks_right k (suc c) (written c mm) (written_keeps c mm done e h)
              (up_to m x row c (written c mm)
                (λ b' q. (written_keeps c mm (b' ∷ []) e (below b' q, tt)).0)
                (written_right c mm e))
              b (omega arith))
    ]

    pub loop_right :
        (mm : Matrix m)
        → All (IsChunkRight m x row mm) done
        → IsRight m x row (loop (chunk_count n) 0 mm).1
    loop_right mm h i p =
        chunks_right (chunk_count n) 0 mm h (λ b q. absurd (omega arith)) (i / chunk) (omega arith)
          i (omega arith) (omega arith) p
