-- ===== src/Rerank/Sampler/Batch.antt =====
-- `GroupSampler.epoch_order` and `GroupSampler.batch` of py/hybridsearch/rerank/sampler.py.
use hybrid_search.Prelude.{
  ℕ, zero, suc, ◌+◌, ◌*◌, ◌/◌, ◌%◌, List, [], ◌∷◌, none, some, Result, ok, ◌>>=◌, ◌>>◌, guard,
  if◌then◌else◌, length, ltb, nat_eq,
}
use hybrid_search.Prelude.Text.{Str}
use hybrid_search.Prelude.Dict.{get?, put}
use hybrid_search.Rerank.Sampler.{
  Error, zero_division, TextOps, Generator, GroupSampler, item, group,
}

-- `self._orders`
abbrev pub Orders : Type 0
Orders = List (ℕ × List ℕ)

-- `np.random.default_rng([self.seed, 10_000 + epoch]).permutation(len(self.mined))`
abbrev pub new_order : Generator → GroupSampler → ℕ → List ℕ
new_order G g epoch = (G.permutation (length g.mined) (G.seeded g.seed (10000 + epoch))).0

-- `if len(self._orders) > 2: self._orders.clear()`
abbrev pub make_room : Orders → Orders
make_room orders = if ltb 2 (length orders) then [] else orders

-- `epoch_order`: the order of the queries, and the cache.
unfoldable pub epoch_order : Generator → GroupSampler → ℕ → Orders → List ℕ × Orders
epoch_order G g epoch orders = elim (get? orders epoch) [
  | some order ↦ (order, orders)
  | none ↦ (new_order G g epoch, put (make_room orders) epoch (new_order G g epoch))
]

-- `(qid, positive, negatives)`
abbrev pub Group : Type 0
Group = Str × Str × List Str

-- What the loop of `batch` changes: `topups`, the cache and the generator's state.
pub record Progress (G : Generator) : Type 0 where
  pub topups : ℕ
  pub orders : Orders
  pub rng : G.State

module _ (G : Generator) (ops : TextOps) (g : GroupSampler) where
  -- The body of the loop, for `k`.
  unfoldable pub next_group : ℕ → Progress G → Result Error (Group × Progress G)
  unfolding epoch_order
  next_group k s = do
    guard (ltb 0 (length g.mined)) zero_division
    let cached = epoch_order G g (k / length g.mined) s.orders
    place ← item cached.0 (k % length g.mined)
    m ← item g.mined place
    made ← group G ops g m s.topups s.rng
    ok (made.0, record { topups = made.1; orders = cached.1; rng = made.2 })

  -- `for i in range(batch_size)`, with `todo` rounds left, from `k`.
  unfoldable pub batch_loop : ℕ → ℕ → Progress G → Result Error (List Group × Progress G)
  unfolding next_group
  batch_loop zero k s = ok ([], s)
  batch_loop (suc todo) k s = do
    made ← next_group k s
    rest ← batch_loop todo (suc k) made.1
    ok (made.0 ∷ rest.0, rest.1)

  unfoldable pub batch : ℕ → ℕ → ℕ → Orders → Result Error (List Group × ℕ × Orders)
  unfolding batch_loop
  batch step batch_size topups orders = do
    made ←
        batch_loop batch_size (step * batch_size)
          (record { topups = topups; orders = orders; rng = G.seeded g.seed step })
    ok (made.0, made.1.topups, made.1.orders)
