-- ===== src/Rerank/Mine/Filled.antt =====
-- The pools of candidates in py/hybridsearch/rerank/mine.py: no judged passage, within the depth.
use hybrid_search.Prelude.{
  ℕ, suc, ◌+◌, ◌≤◌, ◌≡◌, refl, true, false, List, [], ◌∷◌, ◌++◌, Option, leb, length, length-append,
  contains, All, All-append, Bool-cases, Option-cases, ◌⊎◌, inl, inr, arith,
}
use hybrid_search.Prelude.Text.{Str, str_eq}
use hybrid_search.Prelude.Float.{Float}
use hybrid_search.Rerank.Mine.{Query, keep, fill_pool, false_negative}
use hybrid_search.Rerank.Rows.{Counts}

-- Not in `judged`.
abbrev pub Unjudged : List Str → List Str → Type 0
Unjudged judged = All (λ p. contains judged p ≡ false)

-- The candidates that the counts say were kept.
abbrev pub kept_count : Counts → ℕ
kept_count c = c.verified_kept + c.unverifiable

module _ (F : Float) where
  open F use {Num}

  keep_lem :
      (q : Query F) (pid : Str) (s_d s_b : Option Num) (c : Counts)
      → (((keep F q pid s_d s_b c).0 ≡ true)
          × (contains q.judged pid ≡ false)
          × (kept_count (keep F q pid s_d s_b c).1 ≡ suc (kept_count c)))
        ⊎ (((keep F q pid s_d s_b c).0 ≡ false)
            × (kept_count (keep F q pid s_d s_b c).1 ≡ kept_count c))
  unfolding keep
  keep_lem q pid s_d s_b c = elim (Bool-cases (contains q.judged pid)) [
    | inl j ↦ rw j (inr (refl, refl))
    | inr j ↦
        elim (Option-cases
          (false_negative F s_d q.s_d_pos s_b q.s_b_pos_ub q.dense_margin q.bm25_rel_margin)) [
            | inl e ↦ rw (j, e) (inl (refl, refl, omega arith))
            | inr (b, e) ↦ elim (Bool-cases b) [
              | inl t ↦ rw (j, e, t) (inr (refl, refl))
              | inr t ↦ rw (j, e, t) (inl (refl, refl, omega arith))
            ]
          ]
  ]

  -- A pool that grows from `pool`: unjudged, within `depth`, and counted.
  abbrev IsFilled : Query F → ℕ → List Str × Counts → List Str × Counts → Type 0
  IsFilled q depth before after =
      Unjudged q.judged after.0
      × (length after.0 ≤ depth)
      × (length after.0 + kept_count before.1 ≡ length before.0 + kept_count after.1)

  pub fill_pool_lem :
      (q : Query F) (depth : ℕ) (cands : List (Str × Option Num × Option Num)) (pool : List Str)
      (c : Counts)
      → Unjudged q.judged pool
      → length pool ≤ depth
      → IsFilled q depth (pool, c) (fill_pool F q depth cands pool c)
  unfolding fill_pool
  fill_pool_lem q depth [] pool c u le = (u, le, refl)
  fill_pool_lem q depth ((pid, s_d, s_b) ∷ cands) pool c u le =
      elim (Bool-cases (leb depth (length pool))) [
        | inl full ↦ rw full (u, le, refl)
        | inr room ↦ elim (keep_lem q pid s_d s_b c) [
          | inl (k, j, n) ↦
              let more = length-append pool (pid ∷ []) in
              let (u', le', n') =
                fill_pool_lem q depth cands (pool ++ pid ∷ []) (keep F q pid s_d s_b c).1
                  (All-append (λ p. contains q.judged p ≡ false) pool (pid ∷ []) u (j, tt))
                  (ground (arith, more)) in
              rw (room, k) (u', le', omega (arith, n, n', more))
          | inr (k, n) ↦
              let (u', le', n') =
                fill_pool_lem q depth cands pool (keep F q pid s_d s_b c).1 u le in
              rw (room, k) (u', le', omega (arith, n, n'))
        ]
      ]
