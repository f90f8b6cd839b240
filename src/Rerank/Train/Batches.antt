-- ===== src/Rerank/Train/Batches.antt =====
-- The groups that py/hybridsearch/rerank/sampler.py draws for a batch do not depend on its cache
-- of orders or on its count of top-ups.
use hybrid_search.Prelude.{
  Result-cases, ℕ, zero, suc, ◌*◌, ◌/◌, ◌%◌, ◌≡◌, refl, List, ◌∷◌, Result, ok, err, ◌>>=◌, guard,
  ltb, length, nat_eq, Bool-cases, select, contains, inl, inr, ◌≤◌, ap, ap₂,
}
use hybrid_search.Prelude.Text.{Str, str_eq}
use hybrid_search.Prelude.Dict.{keys}
use hybrid_search.Prelude.Int.{sub_ℕ}
use hybrid_search.Rerank.Sampler.{
  Generator, TextOps, GroupSampler, MinedQuery, item, group, top_up, draw, draw_hard, empty_range,
  zero_division,
}
use hybrid_search.Rerank.Sampler.Batch.{
  Orders, Group, Progress, new_order, next_group, batch_loop, batch,
}
use hybrid_search.Rerank.Sampler.Orders.{IsCache, epoch_order_lem}

-- Both raise the same, or both return, with results in a relation.
abbrev pub Agree {ℓ κ} :
    {E : Type 0} {A : Type ℓ} {B : Type κ} → (A → B → Type 0) → Result E A → Result E B → Type 0
Agree R (err e) (err e') = e ≡ e'
Agree R (err e) (ok b) = ⊥
Agree R (ok a) (err e) = ⊥
Agree R (ok a) (ok b) = R a b

-- Binds agree if their parts do.
pub Agree->>= {ℓ κ ℓ' κ'} :
    {E : Type 0} {A : Type ℓ} {B : Type κ} {C : Type ℓ'} {D : Type κ'} (R : A → B → Type 0)
    (S : C → D → Type 0) (m : Result E A) (n : Result E B) (f : A → Result E C) (g : B → Result E D)
    → Agree R m n
    → ((a : A) (b : B) → R a b → Agree S (f a) (g b))
    → Agree S (m >>= f) (n >>= g)
Agree->>= R S (err e) (err e') f g h k = h
Agree->>= R S (err e) (ok b) f g h k = absurd h
Agree->>= R S (ok a) (err e) f g h k = absurd h
Agree->>= R S (ok a) (ok b) f g h k = k a b h

module _ (G : Generator) (ops : TextOps) (g : GroupSampler) where
  -- The same groups, and the same state of the generator, whatever the count.
  abbrev SameDrawn : {A : Type 0} → A × ℕ × G.State → A × ℕ × G.State → Type 0
  SameDrawn a b = (a.0 ≡ b.0) × (a.2 ≡ b.2)

  top_up-SameDrawn :
      (m : MinedQuery) (t u : ℕ) (d : List Str × List Str × G.State)
      → Agree SameDrawn (top_up G ops g m t d) (top_up G ops g m u d)
  unfolding top_up
  top_up-SameDrawn m t u (negs, taken, rng) = elim (Bool-cases (ltb (length negs) g.n_neg)) [
    | inl h ↦
        elim (Result-cases (draw G ops g m m.random (sub_ℕ g.n_neg (length negs)) taken rng)) [
          | inl (e, d) ↦ rw (h, d) refl
          | inr (more, d) ↦ rw (h, d) (refl, refl)
        ]
    | inr h ↦ rw h (refl, refl)
  ]

  group-SameDrawn :
      (m : MinedQuery) (t u : ℕ) (rng : G.State)
      → Agree SameDrawn (group G ops g m t rng) (group G ops g m u rng)
  unfolding group
  group-SameDrawn m t u rng =
      let cands = select (contains (keys g.passages)) m.positives in
      elim (Result-cases (guard (ltb 0 (length cands)) empty_range)) [
        | inl (e, h) ↦ rw h refl
        | inr (_, h) ↦ elim (Result-cases (item cands (G.integers (length cands) rng).0)) [
          | inl (e, p) ↦ rw (h, p) refl
          | inr (positive, p) ↦
              elim (Result-cases (draw_hard G ops g m (G.integers (length cands) rng).1)) [
                | inl (e, d) ↦ rw (h, p, d) refl
                | inr (drawn, d) ↦
                    rw (h, p, d)
                      (Agree->>= SameDrawn SameDrawn (top_up G ops g m t drawn)
                        (top_up G ops g m u drawn)
                        (λ topped. ok ((m.qid, positive, topped.0), topped.1, topped.2))
                        (λ topped. ok ((m.qid, positive, topped.0), topped.1, topped.2))
                        (top_up-SameDrawn m t u drawn)
                        (λ a b same. (ap (λ negs. (m.qid, positive, negs)) same.0, same.1)))
              ]
        ]
      ]

  -- States of the loop that differ at most in the cache, which is right in both, and the count.
  abbrev SameProgress : Progress G → Progress G → Type 0
  SameProgress s t =
      (s.rng ≡ t.rng)
      × (IsCache G g s.orders × (length s.orders ≤ 3))
      × (IsCache G g t.orders × (length t.orders ≤ 3))

  abbrev SameMade : {A : Type 0} → A × Progress G → A × Progress G → Type 0
  SameMade a b = (a.0 ≡ b.0) × SameProgress a.1 b.1

  next_group-SameMade :
      (k : ℕ) (s t : Progress G)
      → SameProgress s t
      → Agree SameMade (next_group G ops g k s) (next_group G ops g k t)
  unfolding next_group
  next_group-SameMade k s t (r, (ws, hs), (wt, ht)) =
      let (os, es, ws', hs') = epoch_order_lem G g (k / length g.mined) s.orders ws hs in
      let (ot, et, wt', ht') = epoch_order_lem G g (k / length g.mined) t.orders wt ht in
      let n = length g.mined in
      elim (Result-cases (guard (ltb 0 n) zero_division)) [
        | inl (e, h) ↦ rw (h) refl
        | inr (_, h) ↦ elim (Result-cases (item (new_order G g (k / n)) (k % n))) [
          | inl (e, p) ↦ rw (h, es, et, p) refl
          | inr (place, p) ↦ elim (Result-cases (item g.mined place)) [
            | inl (e, q) ↦ rw (h, es, et, p, q) refl
            | inr (m, q) ↦
                rw (h, es, et, p, q, r)
                  (Agree->>= SameDrawn SameMade (group G ops g m s.topups t.rng)
                    (group G ops g m t.topups t.rng)
                    (λ made. ok (made.0, record { topups = made.1; orders = os; rng = made.2 }))
                    (λ made. ok (made.0, record { topups = made.1; orders = ot; rng = made.2 }))
                    (group-SameDrawn m s.topups t.topups t.rng)
                    (λ a b same. (same.0, (same.1, (ws', hs'), (wt', ht')))))
          ]
        ]
      ]

  batch_loop-SameMade :
      (todo k : ℕ) (s t : Progress G)
      → SameProgress s t
      → Agree SameMade (batch_loop G ops g todo k s) (batch_loop G ops g todo k t)
  unfolding batch_loop
  batch_loop-SameMade zero k s t h = (refl, h)
  batch_loop-SameMade (suc todo) k s t h =
      Agree->>= SameMade SameMade (next_group G ops g k s) (next_group G ops g k t) _ _
        (next_group-SameMade k s t h)
        (λ a b e.
          Agree->>= SameMade SameMade (batch_loop G ops g todo (suc k) a.1)
            (batch_loop G ops g todo (suc k) b.1) _ _ (batch_loop-SameMade todo (suc k) a.1 b.1 e.1)
            (λ c d f. (ap₂ ◌∷◌ e.0 f.0, f.1)))

  abbrev pub IsRightCache : Orders → Type 0
  IsRightCache orders = IsCache G g orders × (length orders ≤ 3)

  -- The same groups, with right caches.
  abbrev pub SameBatch : List Group × ℕ × Orders → List Group × ℕ × Orders → Type 0
  SameBatch a b = (a.0 ≡ b.0) × IsRightCache a.2 × IsRightCache b.2

  -- `batch` at two states of the sampler, with right caches of at most three orders: both raise the
  -- same exception, or both return the same groups.
  pub batch-SameBatch :
      (step batch_size t u : ℕ) (os ot : Orders)
      → IsRightCache os
      → IsRightCache ot
      → Agree SameBatch (batch G ops g step batch_size t os) (batch G ops g step batch_size u ot)
  unfolding batch
  batch-SameBatch step batch_size t u os ot ws wt =
      Agree->>= SameMade SameBatch
        (batch_loop G ops g batch_size (step * batch_size)
          (record { topups = t; orders = os; rng = G.seeded g.seed step }))
        (batch_loop G ops g batch_size (step * batch_size)
          (record { topups = u; orders = ot; rng = G.seeded g.seed step }))
        _ _ (batch_loop-SameMade batch_size (step * batch_size) _ _ (refl, ws, wt))
        (λ a b h. (h.0, h.1.1, h.1.2))
