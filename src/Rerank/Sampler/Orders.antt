-- ===== src/Rerank/Sampler/Orders.antt =====
-- The cache of epoch orders in py/hybridsearch/rerank/sampler.py: `GroupSampler.epoch_order`.
use hybrid_search.Prelude.{
  ℕ, suc, ◌≤◌, ◌≡◌, refl, List, [], ◌∷◌, some, arith, Option-cases, Bool-cases, inl, inr, ◌==◌, All,
  length, ltb, nat_eq, sym, ap, ◌∙◌, ==_eq,
}
use hybrid_search.Prelude.Dict.{get?, put}
use hybrid_search.Rerank.Sampler.{Generator, GroupSampler}
use hybrid_search.Rerank.Sampler.Batch.{Orders, new_order, make_room, epoch_order}

module _ (G : Generator) (g : GroupSampler) where
  -- Each epoch in the cache has its order.
  abbrev pub IsCache : Orders → Type 0
  IsCache = All (λ entry. entry.1 ≡ new_order G g entry.0)

  get?-IsCache :
      (orders : Orders) (epoch : ℕ) (order : List ℕ)
      → IsCache orders
      → get? orders epoch ≡ some order
      → order ≡ new_order G g epoch
  unfolding get?
  get?-IsCache [] epoch order w h = cc
  get?-IsCache ((e, o) ∷ orders) epoch order w h = elim (Bool-cases (epoch == e)) [
    | inl p ↦
        let h' : some o ≡ some order = rw p at h in
        let same : o ≡ order = cc in sym same ∙ w.0 ∙ sym (ap (new_order G g) (==_eq epoch e p))
    | inr p ↦ get?-IsCache orders epoch order w.1 (rw p at h)
  ]

  put-IsCache :
      (orders : Orders) (epoch : ℕ)
      → IsCache orders
      → IsCache (put orders epoch (new_order G g epoch))
  unfolding put
  put-IsCache [] epoch w = (refl, tt)
  put-IsCache ((e, o) ∷ orders) epoch w = elim (Bool-cases (epoch == e)) [
    | inl p ↦ rw p (ap (new_order G g) (==_eq epoch e p), w.1)
    | inr p ↦ rw p (w.0, put-IsCache orders epoch w.1)
  ]

  length-put :
      (orders : Orders) (epoch : ℕ) (o : List ℕ) → length (put orders epoch o) ≤ suc (length orders)
  unfolding put
  length-put [] epoch o = omega arith
  length-put ((e, p) ∷ orders) epoch o = ground (arith, length-put orders epoch o)

  make_room-IsCache :
      (orders : Orders)
      → IsCache orders
      → IsCache (make_room orders) × (length (make_room orders) ≤ 2)
  make_room-IsCache orders w = elim (Bool-cases (ltb 2 (length orders))) [
    | inl p ↦ rw p (tt, omega arith)
    | inr p ↦ rw p (w, ground arith)
  ]

  -- The cache changes no order, and it keeps at most three of them.
  pub epoch_order_lem :
      (epoch : ℕ) (orders : Orders)
      → IsCache orders
      → length orders ≤ 3
      → (orders' : Orders) × (epoch_order G g epoch orders ≡ (new_order G g epoch, orders'))
        × IsCache orders'
        × (length orders' ≤ 3)
  unfolding epoch_order
  epoch_order_lem epoch orders w h = elim (Option-cases (get? orders epoch)) [
    | inl p ↦
        let room = make_room-IsCache orders w in
        (
          put (make_room orders) epoch (new_order G g epoch),
          rw (epoch_order, p) refl,
          put-IsCache (make_room orders) epoch room.0,
          omega (arith, length-put (make_room orders) epoch (new_order G g epoch), room.1),
        )
    | inr (order, p) ↦ (orders, rw (epoch_order, p, get?-IsCache orders epoch order w p) refl, w, h)
  ]
