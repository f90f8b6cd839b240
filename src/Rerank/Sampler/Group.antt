-- ===== src/Rerank/Sampler/Group.antt =====
-- `GroupSampler.group` of py/hybridsearch/rerank/sampler.py: its invariants.
use hybrid_search.Prelude.{
  ℕ, ◌+◌, ◌-◌, ◌≤◌, ◌≡◌, refl, true, List, [], ◌++◌, some, ok, arith, ◌==◌, Bool-cases, ◌⊎◌, inl,
  inr, contains, Distinct, All, All-append, length, length-append, leb, ltb, ◌∙◌, ap,
}
use hybrid_search.Prelude.Text.{Str, str_eq}
use hybrid_search.Prelude.Dict.{get?}
use hybrid_search.Prelude.Int.{pos}
use hybrid_search.Rerank.Sampler.{
  TextOps, MinedQuery, GroupSampler, Generator, draw, draw_hard, draw_mixed, random_only, bm25_hard,
  dense_hard, top_up,
}
use hybrid_search.Rerank.Sampler.Draw.{IsGenerator, eligible, IsDraw, draw_lem}

module _ (G : Generator) (law : IsGenerator G) (ops : TextOps) (g : GroupSampler) (m : MinedQuery)
    (texts : List Str) (known : get? g.pos_text m.qid ≡ some texts) where
  -- Negatives so far, which are the ids that are taken.
  pub record IsHard (rng : G.State) : Type 0 where
    pub negs : List Str
    pub rng' : G.State
    pub result : draw_hard G ops g m rng ≡ ok (negs, negs, rng')
    pub distinct : Distinct negs
    pub all_eligible : All (λ p. eligible ops g m texts p ≡ true) negs
    pub bounded : length negs ≤ g.n_neg

  abbrev hard_of :
      (pool : List Str) (rng : G.State) (d : IsDraw ops g m texts G law known pool g.n_neg [] rng)
      → draw_hard G ops g m rng ≡ draw G ops g m pool (pos g.n_neg) [] rng
      → IsHard rng
  hard_of pool rng d e = record {
    negs = d.negs;
    rng' = d.rng';
    result = e ∙ d.result;
    distinct = d.distinct;
    all_eligible = d.all_eligible;
    bounded = d.bounded;
  }

  -- The same for the mixed strategy and the share of BM25.
  record IsMixed (rng : G.State) (share : ℕ) : Type 0 where
    negs : List Str
    rng' : G.State
    result : draw_mixed G ops g m (pos share) rng ≡ ok (negs, negs, rng')
    distinct : Distinct negs
    all_eligible : All (λ p. eligible ops g m texts p ≡ true) negs
    bounded : length negs ≤ g.n_neg

  -- The share of BM25 is between 0 and the number of negatives.
  pub record IsShare : Type 0 where
    pub share : ℕ
    pub is_share : g.mix ≡ pos share
    pub within : share ≤ g.n_neg

  mixed_lem : (rng : G.State) (share : ℕ) → share ≤ g.n_neg → IsMixed rng share
  unfolding draw_mixed
  mixed_lem rng share within =
      let first = draw_lem ops g m texts G law known m.bm25 share [] rng tt in
      let rest = g.n_neg - length first.negs in
      let second =
        draw_lem ops g m texts G law known m.dense rest first.negs first.rng' first.distinct in
      let le : leb (length first.negs) g.n_neg ≡ true = ground (arith, first.bounded, within) in
      record {
        negs = first.negs ++ second.negs;
        rng' = second.rng';
        result = rw (first.result, le, second.result) refl;
        distinct = second.distinct;
        all_eligible = All-append _ first.negs second.negs first.all_eligible second.all_eligible;
        bounded =
            omega
              (arith, length-append first.negs second.negs, second.bounded, first.bounded, within);
      }

  pub draw_hard_lem : (rng : G.State) → IsShare → IsHard rng
  unfolding draw_hard
  draw_hard_lem rng w = elim (Bool-cases (g.strategy == random_only)) [
    | inl a ↦
        hard_of m.random rng (draw_lem ops g m texts G law known m.random g.n_neg [] rng tt)
          (rw a refl)
    | inr a ↦ elim (Bool-cases (g.strategy == bm25_hard)) [
      | inl b ↦
          hard_of m.bm25 rng (draw_lem ops g m texts G law known m.bm25 g.n_neg [] rng tt)
            (rw (a, b) refl)
      | inr b ↦ elim (Bool-cases (g.strategy == dense_hard)) [
        | inl c ↦
            hard_of m.dense rng (draw_lem ops g m texts G law known m.dense g.n_neg [] rng tt)
              (rw (a, b, c) refl)
        | inr c ↦
            let d = mixed_lem rng w.share w.within in
            record {
              negs = d.negs;
              rng' = d.rng';
              result =
                  simp (a, b, c) (ap (λ nb. draw_mixed G ops g m nb rng) w.is_share ∙ d.result);
              distinct = d.distinct;
              all_eligible = d.all_eligible;
              bounded = d.bounded;
            }
      ]
    ]
  ]

  -- What the sampler promises of the negatives of a group: eligible passages without repetition,
  -- as many as asked for, or else every eligible passage of the random pool.
  pub record AreNegatives (negs : List Str) : Type 0 where
    pub distinct : Distinct negs
    pub all_eligible : All (λ p. eligible ops g m texts p ≡ true) negs
    pub bounded : length negs ≤ g.n_neg
    pub full :
        (length negs ≡ g.n_neg)
        ⊎ ((p : Str)
            → contains m.random p ≡ true
            → eligible ops g m texts p ≡ true
            → contains negs p ≡ true)

  pub top_up_lem :
      (topups : ℕ) (negs : List Str) (rng : G.State)
      → Distinct negs
      → All (λ p. eligible ops g m texts p ≡ true) negs
      → length negs ≤ g.n_neg
      → (negs' : List Str) × (topups' : ℕ) × (rng' : G.State) × (top_up G ops g m topups
            (negs, negs, rng)
          ≡ ok (negs', topups', rng'))
        × AreNegatives negs'
        × (topups' ≡ topups + (g.n_neg - length negs))
  unfolding top_up
  top_up_lem topups negs rng u e b = elim (Bool-cases (ltb (length negs) g.n_neg)) [
    | inl short ↦
        let d = draw_lem ops g m texts G law known m.random (g.n_neg - length negs) negs rng u in
        let le : leb (length negs) g.n_neg ≡ true = ground arith in
        (
          negs ++ d.negs,
          topups + (g.n_neg - length negs),
          d.rng',
          rw (short, le, d.result) refl,
          record {
            distinct = d.distinct;
            all_eligible = All-append _ negs d.negs e d.all_eligible;
            bounded = omega (arith, length-append negs d.negs, d.bounded, b);
            full = elim (d.full) [
              | inl l ↦ inl (omega (arith, length-append negs d.negs, l, b))
              | inr a ↦ inr a
            ];
          },
          refl,
        )
    | inr long ↦
        let full : length negs ≡ g.n_neg = ground arith in
        (
          negs,
          topups,
          rng,
          rw long refl,
          record { distinct = u; all_eligible = e; bounded = b; full = inl full },
          omega arith,
        )
  ]
