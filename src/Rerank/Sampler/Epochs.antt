-- ===== src/Rerank/Sampler/Epochs.antt =====
-- The batches of an epoch, by py/hybridsearch/rerank/sampler.py: every query has one group.
use hybrid_search.Prelude.{
  ℕ, zero, suc, ◌+◌, ◌*◌, ◌/◌, ◌%◌, ◌≤◌, ◌<◌, ◌≡◌, refl, List, [], ◌∷◌, ◌++◌, some, Result, ok,
  ◌>>=◌, arith, All, length, length-append, get_elem?, contains, Distinct, sym, ap, ◌∙◌, subst,
  drop, Bool-cases, inl, inr, nat_eq,
}
use hybrid_search.Prelude.Text.{Str, str_eq}
use hybrid_search.Rerank.Sampler.{Error, TextOps, Generator, GroupSampler}
use hybrid_search.Rerank.Sampler.Batch.{Orders, Group, new_order, batch}
use hybrid_search.Rerank.Sampler.Draw.{IsGenerator}
use hybrid_search.Rerank.Sampler.Negatives.{qids, IsMakeable}
use hybrid_search.Rerank.Sampler.Orders.{IsCache}
use hybrid_search.Rerank.Sampler.Steps.{AreGroupsFrom, batch_lem}
use native.Mathlib.Nat.{mod-eq_of_lt, div-eq_of_lt, mul-add-div_right, mul-add-mod_self_right}
use hybrid_search.Rerank.Sampler.Picks.{
  Picks, picked_from, picked, contains_at, place_of, Distinct-Picks, get_elem?-qids, length-qids,
  drop_at, drop-length,
}

-- The queries of the groups.
abbrev pub queried : List Group → List Str
queried [] = []
queried ((qid, positive, negs) ∷ groups) = qid ∷ queried groups

module _ (G : Generator) (law : IsGenerator G) (ops : TextOps) (g : GroupSampler) where
  append-AreGroupsFrom :
      (k : ℕ) (xs ys : List Group)
      → AreGroupsFrom G law ops g k xs
      → AreGroupsFrom G law ops g (k + length xs) ys
      → AreGroupsFrom G law ops g k (xs ++ ys)
  append-AreGroupsFrom k [] ys a b = subst (λ j. AreGroupsFrom G law ops g j ys) (omega arith) b
  append-AreGroupsFrom k (x ∷ xs) ys a b = (
    a.0,
    append-AreGroupsFrom (suc k) xs ys a.1
        (subst (λ j. AreGroupsFrom G law ops g j ys) (omega arith) b),
  )

  module _ (epoch : ℕ) where
    abbrev order : List ℕ
    order = new_order G g epoch

    -- The groups of an epoch are for the places in its order.
    Picks-from :
        (r : ℕ) (groups : List Group)
        → r + length groups ≡ length g.mined
        → AreGroupsFrom G law ops g (epoch * length g.mined + r) groups
        → Picks (qids g.mined) (drop r order) (queried groups)
    Picks-from r [] e a =
        let all : r ≡ length order =
          omega
            (arith, law.permutation_length (length g.mined) (G.seeded g.seed (10000 + epoch))) in
        rw (all, drop-length order) tt
    Picks-from r ((qid, positive, negs) ∷ groups) e (is, are) =
        let n = length g.mined in
        let inside : r < n = omega arith in
        let round : (epoch * n + r) / n ≡ epoch =
          mul-add-div_right (omega arith) epoch r
          ∙ ap (λ x. epoch + x) (div-eq_of_lt inside)
          ∙ omega arith in
        let off : (epoch * n + r) % n ≡ r =
          mul-add-mod_self_right epoch n r ∙ mod-eq_of_lt inside in
        let at : get_elem? order r ≡ some is.place = rw⁻¹ off (
          subst (λ x. get_elem? (new_order G g x) ((epoch * n + r) % n) ≡ some is.place) round
            is.at_place) in
        let is_qid : qid ≡ is.query.qid = ap (λ made. made.0) is.is_made in
        rw (drop_at order r is.place at, is_qid)
          (
            get_elem?-qids g.mined is.place is.query is.at_query,
            Picks-from (suc r) groups (omega arith)
                (subst (λ k. AreGroupsFrom G law ops g k groups) (omega arith) are),
          )

  module _ (epoch : ℕ) (groups : List Group) (whole : length groups ≡ length g.mined)
      (are : AreGroupsFrom G law ops g (epoch * length g.mined) groups) where
    epoch-Picks : Picks (qids g.mined) (order epoch) (queried groups)
    epoch-Picks =
        Picks-from epoch 0 groups (omega arith)
          (subst (λ k. AreGroupsFrom G law ops g k groups) (omega arith) are)

    queried-Distinct : Distinct (qids g.mined) → Distinct (queried groups)
    queried-Distinct u =
        Distinct-Picks (qids g.mined) (order epoch) (queried groups) u epoch-Picks
          (law.permutation_distinct (length g.mined) (G.seeded g.seed (10000 + epoch)))

    contains-queried : (q : Str) → contains (queried groups) q ≡ contains (qids g.mined) q
    contains-queried q = elim (Bool-cases (contains (qids g.mined) q)) [
      | inl h ↦
          let (j, below, at) = place_of (qids g.mined) q h in
          let in_order =
            law.permutation_all (length g.mined) (G.seeded g.seed (10000 + epoch)) j
              (omega (arith, length-qids g.mined)) in
          picked (qids g.mined) (order epoch) (queried groups) j q epoch-Picks in_order at ∙ sym h
      | inr h ↦ elim (Bool-cases (contains (queried groups) q)) [
        | inl k ↦
            let (j, c, at) =
              picked_from (qids g.mined) (order epoch) (queried groups) q epoch-Picks k in
            let yes = contains_at (qids g.mined) j q at in cc
        | inr k ↦ k ∙ sym h
      ]
    ]

module _ (G : Generator) (ops : TextOps) (g : GroupSampler) (batch_size : ℕ) where
  -- The groups of `count` calls of `batch` in turn, from `step` on.
  abbrev pub run_batches : ℕ → ℕ → ℕ → Orders → Result Error (List Group × ℕ × Orders)
  run_batches zero step topups orders = ok ([], topups, orders)
  run_batches (suc count) step topups orders = do
    made ← batch G ops g step batch_size topups orders
    rest ← run_batches count (suc step) made.1 made.2
    ok (made.0 ++ rest.0, rest.1, rest.2)

  module _ (law : IsGenerator G) (some_query : 0 < length g.mined)
      (makes : All (IsMakeable G law ops g) g.mined) where
    run_batches_lem :
        (count step topups : ℕ) (orders : Orders)
        → IsCache G g orders
        → length orders ≤ 3
        → (groups : List Group) × (topups' : ℕ) × (orders' : Orders) × (run_batches count step
              topups orders
            ≡ ok (groups, topups', orders'))
          × (length groups ≡ count * batch_size)
          × AreGroupsFrom G law ops g (step * batch_size) groups
          × IsCache G g orders'
          × (length orders' ≤ 3)
    run_batches_lem zero step topups orders w h = ([], topups, orders, refl, omega arith, tt, w, h)
    run_batches_lem (suc count) step topups orders w h =
        let (made, t₁, o₁, e₁, n₁, a₁, w₁, h₁) =
          batch_lem G law ops g some_query makes step batch_size topups orders w h in
        let (rest, t₂, o₂, e₂, n₂, a₂, w₂, h₂) = run_batches_lem count (suc step) t₁ o₁ w₁ h₁ in
        (
          made ++ rest,
          t₂,
          o₂,
          rw (e₁, e₂) refl,
          omega (arith, length-append made rest),
          append-AreGroupsFrom G law ops g (step * batch_size) made rest a₁
              (subst (λ k. AreGroupsFrom G law ops g k rest) (omega arith) a₂),
          w₂,
          h₂,
        )

    -- For a sampler with a query, whose queries have different ids and groups as promised, and a
    -- cache of at most three right orders: if the step is the first of an epoch and `count` batches
    -- fill it, then these batches return groups for all queries of the sampler, exactly one for
    -- each.
    pub run_batches_epoch :
        (count step epoch topups : ℕ) (orders : Orders)
        → Distinct (qids g.mined)
        → step * batch_size ≡ epoch * length g.mined
        → count * batch_size ≡ length g.mined
        → IsCache G g orders
        → length orders ≤ 3
        → (groups : List Group) × (topups' : ℕ) × (orders' : Orders) × (run_batches count step
              topups orders
            ≡ ok (groups, topups', orders'))
          × Distinct (queried groups)
          × ((q : Str) → contains (queried groups) q ≡ contains (qids g.mined) q)
    run_batches_epoch count step epoch topups orders u first fills w h =
        let (groups, t, o, e, n, are, _, _) = run_batches_lem count step topups orders w h in
        let whole = n ∙ fills in
        let are' = subst (λ k. AreGroupsFrom G law ops g k groups) first are in
        (
          groups,
          t,
          o,
          e,
          queried-Distinct G law ops g epoch groups whole are' u,
          contains-queried G law ops g epoch groups whole are',
        )
