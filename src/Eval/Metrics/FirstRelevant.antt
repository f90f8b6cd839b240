-- ===== src/Eval/Metrics/FirstRelevant.antt =====
-- `mrr_at_k` of py/hybridsearch/eval/metrics.py: the reciprocal rank of the first relevant document.
use hybrid_search.Prelude.{
  ℕ, suc, ◌+◌, ◌≡◌, refl, ap, true, false, List, [], ◌∷◌, ◌++◌, arith, Bool-cases, inl, inr, ◌⊎◌,
  All, take, length,
}
use hybrid_search.Prelude.Text.{Str}
use hybrid_search.Prelude.Int.{ℤ}
use hybrid_search.Prelude.Float.{Float}
use hybrid_search.Eval.Metrics.{is_relevant, mrr_from, mrr_at_k}

module _ (qrel : List (Str × ℤ)) (rel : ℤ) where
  -- No document of the list is relevant.
  abbrev pub NoneRelevant : List Str → Type 0
  NoneRelevant = All (λ d. is_relevant qrel rel d ≡ false)

  -- `d` is the first relevant document of the list, with `before` in front of it.
  abbrev pub IsFirst : List Str → List Str → Str → List Str → Type 0
  IsFirst ds before d after =
      (ds ≡ before ++ d ∷ after) × NoneRelevant before × (is_relevant qrel rel d ≡ true)

module _ (F : Float) (qrel : List (Str × ℤ)) (rel : ℤ) where
  open F use {of_nat, div}

  mrr_from-cases :
      (i : ℕ) (ds : List Str)
      → (NoneRelevant qrel rel ds × (mrr_from F qrel rel i ds ≡ of_nat 0))
        ⊎ ((before : List Str) × (d : Str) × (after : List Str) × IsFirst qrel rel ds before d after
            × (mrr_from F qrel rel i ds ≡ div (of_nat 1) (of_nat (i + length before + 1))))
  unfolding mrr_from
  mrr_from-cases i [] = inl (tt, refl)
  mrr_from-cases i (d ∷ ds) = elim (Bool-cases (is_relevant qrel rel d)) [
    | inl found ↦
        let n : i + 1 ≡ i + 0 + 1 = omega arith in
        inr ([], d, ds, (refl, tt, found), rw (found, n) refl)
    | inr other ↦ elim (mrr_from-cases (suc i) ds) [
      | inl (none, value) ↦ inl ((other, none), rw other value)
      | inr (before, e, after, (eq, none, found), value) ↦
          let n : i + suc (length before) + 1 ≡ suc i + length before + 1 = omega arith in
          inr (d ∷ before, e, after, (ap (◌∷◌ d) eq, (other, none), found), rw (other, n) value)
    ]
  ]

-- `mrr_at_k` is 0 if no document of the first `k` is relevant, and otherwise 1 over the position,
-- from 1, of the first document that is.
pub mrr_at_k_lem :
    (F : Float) (ranked : List Str) (qrel : List (Str × ℤ)) (k : ℕ) (rel : ℤ)
    → (NoneRelevant qrel rel (take k ranked) × (mrr_at_k F ranked qrel k rel ≡ F.of_nat 0))
      ⊎ ((before : List Str) × (d : Str) × (after : List Str) × IsFirst qrel rel
            (take k ranked)
            before
            d
            after
          × (mrr_at_k F ranked qrel k rel ≡ F.div (F.of_nat 1) (F.of_nat (length before + 1))))
unfolding mrr_at_k
mrr_at_k_lem F ranked qrel k rel = elim (mrr_from-cases F qrel rel 0 (take k ranked)) [
  | inl nothing ↦ inl nothing
  | inr (before, d, after, first, value) ↦
      let n : length before + 1 ≡ 0 + length before + 1 = omega arith in
      inr (before, d, after, first, rw n value)
]
