-- ===== src/Fusion/Printed/Descending.antt =====
-- `run_file_scores` of py/hybridsearch/fusion/core.py returns, and its scores fall strictly.
use hybrid_search.Prelude.{
  ℕ, zero, suc, ◌≤◌, ◌≡◌, refl, true, List, [], ◌∷◌, some, arith, Bool-cases, inl, inr, All,
  All-imp, length, ap,
}
use hybrid_search.Prelude.Dict.{values}
use hybrid_search.Prelude.Float.{Float}
use hybrid_search.Fusion.Core.{Ranking}
use hybrid_search.Fusion.Printed.{
  Printing, step_below, lower, printed_below, scores_below, run_file_scores,
}

pub less_trans :
    (F : Float) (x y z : F.Num) → F.less x y ≡ true → F.less y z ≡ true → F.less x z ≡ true
less_trans F x y z h k = ground (arith, F.less_asymm x y, F.less_asymm y z, F.less_cotrans z x y)

module _ (F : Float) where
  -- Each number is below the one before it.
  abbrev pub IsDescending : List F.Num → Type 0
  IsDescending [] = Unit
  IsDescending (v ∷ vs) = All (λ w. F.less w v ≡ true) vs × IsDescending vs

module _ (F : Float) (P : Printing F) where
  open F use {Num, of_nat, sub, mul, less}
  open P use {inf, rounded}

  -- The value that the `while` loop tries after `n` rounds.
  abbrev pub lowered_by : ℕ → Num → Num → Num
  lowered_by zero prev step = rounded (sub prev step)
  lowered_by (suc n) prev step = lowered_by n prev (mul step (of_nat 2))

  abbrev pub lowered : ℕ → Num → Num
  lowered n prev = lowered_by n prev (step_below F P prev)

  -- What the loop relies on: from a number that is in range for one document more, one of the first
  -- `fuel` rounds finds a number that is smaller, and the numbers that it tries until then, as far as
  -- they are smaller, are in range for the documents that are left. So the range may be narrower
  -- for more documents, as that of doubles is, which cannot fall without end.
  pub record Lowers (InRange : ℕ → Num → Type 0) (fuel : ℕ) : Type 0 where
    pub wider : (left : ℕ) (v : Num) → InRange (suc left) v → InRange left v
    pub round : (left : ℕ) (prev : Num) → InRange (suc left) prev → ℕ
    pub round_bound :
        (left : ℕ) (prev : Num) (h : InRange (suc left) prev) → round left prev h ≤ fuel
    pub falls :
        (left : ℕ) (prev : Num) (h : InRange (suc left) prev)
        → less (lowered (round left prev h) prev) prev ≡ true
    pub stays :
        (left : ℕ) (prev : Num) (n : ℕ) (h : InRange (suc left) prev)
        → n ≤ round left prev h
        → less (lowered n prev) prev ≡ true
        → InRange left (lowered n prev)

  -- Each score is below `inf` once it is rounded, and in range for it and the documents after it.
  abbrev pub Printable : (ℕ → Num → Type 0) → List Num → Type 0
  Printable InRange [] = Unit
  Printable InRange (s ∷ ss) =
      (less (rounded s) inf ≡ true) × InRange (suc (length ss)) (rounded s) × Printable InRange ss

  -- With enough fuel the loop stops at one of its values.
  lower_lem :
      (fuel n : ℕ) (prev step : Num)
      → n ≤ fuel
      → less (lowered_by n prev step) prev ≡ true
      → (m : ℕ) × (lower F P fuel prev step (rounded (sub prev step))
          ≡ some (lowered_by m prev step))
        × (less (lowered_by m prev step) prev ≡ true)
        × (m ≤ n)
  unfolding lower
  lower_lem zero zero prev step h l = (zero, rw l refl, l, omega arith)
  lower_lem zero (suc n) prev step h l = absurd (omega arith)
  lower_lem (suc fuel) zero prev step h l = (zero, rw l refl, l, omega arith)
  lower_lem (suc fuel) (suc n) prev step h l =
      elim (Bool-cases (less (rounded (sub prev step)) prev)) [
        | inl p ↦ (zero, rw p refl, p, omega arith)
        | inr p ↦
            let (m, e, l', b) = lower_lem fuel n prev (mul step (of_nat 2)) (omega arith) l in
            (suc m, rw (p, e) refl, l', omega arith)
      ]

  module _ (InRange : ℕ → Num → Type 0) (fuel : ℕ) (L : Lowers InRange fuel) where
    printed_below_lem :
        (left : ℕ) (prev s : Num)
        → InRange (suc left) prev
        → InRange (suc left) (rounded s)
        → (v : Num) × (printed_below F P fuel prev s ≡ some v)
          × (less v prev ≡ true)
          × InRange left v
    unfolding printed_below
    printed_below_lem left prev s h k = elim (Bool-cases (less (rounded s) prev)) [
      | inl p ↦ (rounded s, rw p refl, p, L.wider left (rounded s) k)
      | inr p ↦
          let (m, e, l, b) =
            lower_lem fuel (L.round left prev h) prev (step_below F P prev)
              (L.round_bound left prev h) (L.falls left prev h) in
          (lowered m prev, rw (p, e) refl, l, L.stays left prev m h b l)
    ]

    scores_below_lem :
        (prev : Num) (r : Ranking F)
        → InRange (length (values r)) prev
        → Printable InRange (values r)
        → (vs : List Num) × (scores_below F P fuel prev r ≡ some vs)
          × (length vs ≡ length r)
          × IsDescending F (prev ∷ vs)
    unfolding scores_below
    scores_below_lem prev [] h p = ([], refl, refl, (tt, tt))
    scores_below_lem prev ((d, s) ∷ r) h p =
        let (v, e, l, k) = printed_below_lem (length (values r)) prev s h p.1 in
        let (vs, e', n, desc) = scores_below_lem v r k p.2 in
        (
          v ∷ vs,
          rw (e, e') refl,
          ap suc n,
          ((l, All-imp _ _ vs (λ w q. less_trans F w v prev q l) desc.0), desc),
        )

    -- If every score is below infinity as printed and in a range where the loop succeeds within its
    -- fuel, for as many documents as follow, `run_file_scores` returns one score for each document, each strictly below the one
    -- before.
    pub run_file_scores_lem :
        (r : Ranking F)
        → Printable InRange (values r)
        → (vs : List Num) × (run_file_scores F P fuel r ≡ some vs)
          × (length vs ≡ length r)
          × IsDescending F vs
    unfolding run_file_scores scores_below printed_below
    run_file_scores_lem [] p = ([], refl, refl, tt)
    run_file_scores_lem ((d, s) ∷ r) p =
        let (vs, e, n, desc) =
          scores_below_lem (rounded s) r (L.wider (length (values r)) (rounded s) p.1) p.2 in
        (rounded s ∷ vs, rw (p.0, e) refl, ap suc n, desc)
