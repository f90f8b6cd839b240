-- ===== src/Rerank/Sampler/Steps.antt =====
-- `GroupSampler.batch` of py/hybridsearch/rerank/sampler.py: which query each group is for.
use hybrid_search.Prelude.{
  ℕ, zero, suc, ◌+◌, ◌*◌, ◌/◌, ◌%◌, ◌≤◌, ◌<◌, ◌≡◌, refl, true, List, [], ◌∷◌, some, ok, arith, All,
  length, get_elem?, ap, ltb,
}
use hybrid_search.Prelude.Text.{str_eq}
use hybrid_search.Prelude.Dict.{get?}
use hybrid_search.Rerank.Sampler.{TextOps, Generator, GroupSampler, MinedQuery, item, pos_texts}
use hybrid_search.Rerank.Sampler.Batch.{
  Orders, Group, Progress, new_order, next_group, batch_loop, batch,
}
use hybrid_search.Rerank.Sampler.Draw.{IsGenerator}
use hybrid_search.Rerank.Sampler.Negatives.{IsGroup, IsMakeable}
use hybrid_search.Rerank.Sampler.Orders.{IsCache, epoch_order_lem}
use native.Mathlib.Nat.{mod-lt}

item_at {ℓ κ} :
    {A : Type ℓ} (P : A → Type κ) (xs : List A) (i : ℕ)
    → All P xs
    → i < length xs
    → (x : A) × (item xs i ≡ ok x) × (get_elem? xs i ≡ some x) × P x
item_at P [] i w h = absurd (omega arith)
item_at P (x ∷ xs) zero w h = (x, refl, refl, w.0)
item_at P (x ∷ xs) (suc i) w h = item_at P xs i w.1 (omega arith)

module _ (G : Generator) (law : IsGenerator G) (ops : TextOps) (g : GroupSampler) where
  -- The group with the number `k` since the start of the training: for the query at the place
  -- `k % n` of the order of epoch `k / n`.
  pub record IsGroupAt (k : ℕ) (made : Group) : Type 0 where
    pub place : ℕ
    pub query : MinedQuery
    pub topups : ℕ
    pub rng : G.State
    pub at_place : get_elem? (new_order G g (k / length g.mined)) (k % length g.mined) ≡ some place
    pub at_query : get_elem? g.mined place ≡ some query
    pub known : get? g.pos_text query.qid ≡ some (pos_texts ops g.passages query.positives)
    pub kept : IsGroup G law ops g query (pos_texts ops g.passages query.positives) known topups rng
    pub is_made : made ≡ (query.qid, kept.positive, kept.negs)

  -- Such groups, with the numbers from `k`.
  abbrev pub AreGroupsFrom : ℕ → List Group → Type 0
  AreGroupsFrom k [] = Unit
  AreGroupsFrom k (made ∷ groups) = IsGroupAt k made × AreGroupsFrom (suc k) groups

  module _ (some_query : 0 < length g.mined) (makes : All (IsMakeable G law ops g) g.mined) where
    next_group_lem :
        (k : ℕ) (s : Progress G)
        → IsCache G g s.orders
        → length s.orders ≤ 3
        → (made : Group) × (s' : Progress G) × (next_group G ops g k s ≡ ok (made, s'))
          × IsGroupAt k made
          × IsCache G g s'.orders
          × (length s'.orders ≤ 3)
    unfolding next_group
    next_group_lem k s w h =
        let n = length g.mined in
        let (orders', e, w', h') = epoch_order_lem G g (k / n) s.orders w h in
        let start = G.seeded g.seed (10000 + k / n) in
        let in_order : k % n < length (new_order G g (k / n)) =
          omega (arith, law.permutation_length n start, mod-lt k some_query) in
        let (place, e₁, at_place, below) =
          item_at (λ j. j < n) (new_order G g (k / n)) (k % n) (law.permutation_below n start)
            in_order in
        let (m, e₂, at_query, (known, make)) =
          item_at (IsMakeable G law ops g) g.mined place makes below in
        let kept = make s.topups s.rng in
        let test : ltb 0 n ≡ true = ground arith in
        (
          (m.qid, kept.positive, kept.negs),
          record { topups = kept.topups'; orders = orders'; rng = kept.rng' },
          rw (test, e, e₁, e₂, kept.result) refl,
          record {
            place = place;
            query = m;
            topups = s.topups;
            rng = s.rng;
            at_place = at_place;
            at_query = at_query;
            known = known;
            kept = kept;
            is_made = refl;
          },
          w',
          h',
        )

    batch_loop_lem :
        (todo k : ℕ) (s : Progress G)
        → IsCache G g s.orders
        → length s.orders ≤ 3
        → (groups : List Group) × (s' : Progress G) × (batch_loop G ops g todo k s
            ≡ ok (groups, s'))
          × (length groups ≡ todo)
          × AreGroupsFrom k groups
          × IsCache G g s'.orders
          × (length s'.orders ≤ 3)
    unfolding batch_loop
    batch_loop_lem zero k s w h = ([], s, refl, refl, tt, w, h)
    batch_loop_lem (suc todo) k s w h =
        let (made, s₁, e, is, w₁, h₁) = next_group_lem k s w h in
        let (groups, s₂, e', n, are, w₂, h₂) = batch_loop_lem todo (suc k) s₁ w₁ h₁ in
        (made ∷ groups, s₂, rw (e, e') refl, ap suc n, (is, are), w₂, h₂)

    -- For a sampler with a query, whose queries all have groups as promised, and a cache of at most
    -- three right orders, `batch` returns `batch_size` groups: those with the numbers from
    -- `step * batch_size`, each for the query that its number has in the order of its epoch, with
    -- the promises of `group`. The cache stays right, and within three orders.
    pub batch_lem :
        (step batch_size topups : ℕ) (orders : Orders)
        → IsCache G g orders
        → length orders ≤ 3
        → (groups : List Group) × (topups' : ℕ) × (orders' : Orders) × (batch G ops g step
              batch_size topups orders
            ≡ ok (groups, topups', orders'))
          × (length groups ≡ batch_size)
          × AreGroupsFrom (step * batch_size) groups
          × IsCache G g orders'
          × (length orders' ≤ 3)
    unfolding batch
    batch_lem step batch_size topups orders w h =
        let (groups, s', e, n, are, w', h') =
          batch_loop_lem batch_size (step * batch_size)
            (record { topups = topups; orders = orders; rng = G.seeded g.seed step }) w h in
        (groups, s'.topups, s'.orders, rw e refl, n, are, w', h')
