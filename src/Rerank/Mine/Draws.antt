-- ===== src/Rerank/Mine/Draws.antt =====
-- The random pool of py/hybridsearch/rerank/mine.py.
use hybrid_search.Prelude.{
  ℕ, zero, suc, ◌≤◌, ◌≡◌, refl, sym, ap, false, List, [], ◌∷◌, ok, >>=-eq-ok, ◌==◌, length,
  if◌then◌else◌, contains, All-imp, Bool-cases, inl, inr, arith, Distinct, ==_eq, ==_refl,
}
use hybrid_search.Prelude.Text.{Str, str_eq}
use hybrid_search.Prelude.Decimal.{show_nat}
use hybrid_search.Rerank.Sampler.{Generator}
use hybrid_search.Rerank.Rows.{random_pool}
use hybrid_search.Rerank.Mine.Filled.{Unjudged}

unseen : (p : Str) (seen xs : List Str) → Unjudged (p ∷ seen) xs → contains xs p ≡ false
unseen p seen [] h = refl
unseen p seen (x ∷ xs) h = elim (Bool-cases (p == x)) [
  | inl e ↦ let h' = rw (sym (==_eq p x e), ==_refl p) at h.0 in cc
  | inr e ↦ rw e (unseen p seen xs h.1)
]

pub random_pool_lem :
    (G : Generator) (fuel collection : ℕ) (seen : List Str) (n : ℕ) (rng rng' : G.State)
    (out : List Str)
    → random_pool G fuel collection seen n rng ≡ ok (out, rng')
    → Unjudged seen out × Distinct out × (length out ≡ n)
unfolding random_pool
random_pool_lem G fuel collection seen zero rng rng' out h =
    let same : out ≡ [] = cc in rw same (tt, tt, refl)
random_pool_lem G zero collection seen (suc n) rng rng' out h = cc
random_pool_lem G (suc fuel) collection seen (suc n) rng rng' out h =
    let drawn = G.integers collection rng in
    let p = show_nat drawn.0 in
    elim (Bool-cases (contains seen p)) [
      | inl old ↦ random_pool_lem G fuel collection seen (suc n) drawn.1 rng' out (rw old at h)
      | inr new ↦
          let (rest, k, e) =
            >>=-eq-ok (random_pool G fuel collection (p ∷ seen) n drawn.1) _ (rw new at h) in
          let (u, d, l) = random_pool_lem G fuel collection (p ∷ seen) n drawn.1 rest.1 rest.0 k in
          let same : out ≡ p ∷ rest.0 = cc in
          rw same (
            (
              new,
              All-imp (λ x. contains (p ∷ seen) x ≡ false) (λ x. contains seen x ≡ false) rest.0
                  (λ x t. ground arith) u,
            ),
            (unseen p seen rest.0 u, d),
            ap suc l,
          )
    ]

-- The pids that the next `k` draws give, and how many of them are new.
abbrev pub draws : (G : Generator) → ℕ → ℕ → G.State → List Str
draws G zero collection rng = []
draws G (suc k) collection rng =
    let drawn = G.integers collection rng in show_nat drawn.0 ∷ draws G k collection drawn.1

abbrev pub fresh_count : List Str → List Str → ℕ
fresh_count seen [] = 0
fresh_count seen (p ∷ ps) =
    let old = fresh_count seen ps in
    let new = suc (fresh_count (p ∷ seen) ps) in if contains seen p then old else new

random_pool_new :
    (G : Generator) (fuel collection : ℕ) (seen : List Str) (n : ℕ) (rng : G.State)
    (made : List Str × G.State)
    → contains seen (show_nat (G.integers collection rng).0) ≡ false
    → random_pool G fuel collection
        (show_nat (G.integers collection rng).0 ∷ seen)
        n
        (G.integers collection rng).1
      ≡ ok made
    → random_pool G (suc fuel) collection seen (suc n) rng
      ≡ ok (show_nat (G.integers collection rng).0 ∷ made.0, made.1)
unfolding random_pool
random_pool_new G fuel collection seen n rng made new e = rw (new, e) refl

pub random_pool_returns :
    (G : Generator) (fuel collection : ℕ) (seen : List Str) (n : ℕ) (rng : G.State)
    → n ≤ fresh_count seen (draws G fuel collection rng)
    → (made : List Str × G.State) × (random_pool G fuel collection seen n rng ≡ ok made)
unfolding random_pool
random_pool_returns G fuel collection seen zero rng h = (([], rng), refl)
random_pool_returns G zero collection seen (suc n) rng h = absurd (omega arith)
random_pool_returns G (suc fuel) collection seen (suc n) rng h =
    let drawn = G.integers collection rng in
    let p = show_nat drawn.0 in
    elim (Bool-cases (contains seen p)) [
      | inl old ↦
          let (made, e) =
            random_pool_returns G fuel collection seen (suc n) drawn.1 (rw old at h) in
          (made, rw old e)
      | inr new ↦
          let h' : suc n ≤ suc (fresh_count (p ∷ seen) (draws G fuel collection drawn.1)) =
            rw new at h in
          let le : n ≤ fresh_count (p ∷ seen) (draws G fuel collection drawn.1) =
            omega (arith, h') in
          let (made, e) = random_pool_returns G fuel collection (p ∷ seen) n drawn.1 le in
          ((p ∷ made.0, made.1), random_pool_new G fuel collection seen n rng made new e)
    ]
