-- ===== src/Rerank/Sampler/Negatives.antt =====
-- A `GroupSampler` of py/hybridsearch/rerank/sampler.py, from its constructor to its groups.
use hybrid_search.Prelude.{
  ℕ, zero, suc, ◌≤◌, ◌<◌, ◌≡◌, refl, Bool, true, false, ◌&&◌, List, [], ◌∷◌, some, ok, arith,
  ==_refl, Bool-cases, inl, inr, contains, Distinct, All, All-imp, length, ltb, select, nat_eq, ◌∙◌,
}
use hybrid_search.Prelude.Text.{Str, str_eq}
use hybrid_search.Prelude.Dict.{keys, get?, put, get?-put}
use hybrid_search.Prelude.Int.{pos}
use hybrid_search.Prelude.Sets.{contains-select}
use hybrid_search.Rerank.Sampler.{
  TextOps, MinedQuery, GroupSampler, Generator, item, group, any_in, strategies, pos_texts,
  pos_text_dict, make_sampler,
}
use hybrid_search.Rerank.Sampler.Draw.{IsGenerator}
use hybrid_search.Rerank.Sampler.Group.{IsShare, AreNegatives, draw_hard_lem, top_up_lem}

cands_pos :
    (passages ps : List Str)
    → any_in passages ps ≡ true
    → 0 < length (select (contains passages) ps)
cands_pos passages [] h = cc
cands_pos passages (p ∷ ps) h = ground (arith, cands_pos passages ps)

item_in :
    (pool : List Str) (j : ℕ)
    → j < length pool
    → (p : Str) × (item pool j ≡ ok p) × (contains pool p ≡ true)
item_in [] j h = absurd (omega arith)
item_in (p ∷ pool) zero h = (p, refl, ground (arith, ==_refl p))
item_in (p ∷ pool) (suc j) h = let (q, e, c) = item_in pool j (omega arith) in (q, e, ground arith)

module _ (G : Generator) (law : IsGenerator G) (ops : TextOps) where
  -- `group` returns, for a query whose positives' texts are `texts`: one of its positives that has
  -- a text, and negatives as promised.
  pub record IsGroup (g : GroupSampler) (m : MinedQuery) (texts : List Str)
      (known : get? g.pos_text m.qid ≡ some texts) (topups : ℕ) (rng : G.State) : Type 0 where
    pub positive : Str
    pub negs : List Str
    pub topups' : ℕ
    pub rng' : G.State
    pub result : group G ops g m topups rng ≡ ok ((m.qid, positive, negs), topups', rng')
    pub is_positive : contains m.positives positive ≡ true
    pub has_text : contains (keys g.passages) positive ≡ true
    pub negatives : AreNegatives G law ops g m texts known negs
    pub counted : topups ≤ topups'

  pub group_lem :
      (g : GroupSampler) (m : MinedQuery) (texts : List Str)
      (known : get? g.pos_text m.qid ≡ some texts) (topups : ℕ) (rng : G.State)
      → IsShare G law ops g m texts known
      → any_in (keys g.passages) m.positives ≡ true
      → IsGroup g m texts known topups rng
  unfolding group
  group_lem g m texts known topups rng w any =
      let cands = select (contains (keys g.passages)) m.positives in
      let some_cand = cands_pos (keys g.passages) m.positives any in
      let choice = G.integers (length cands) rng in
      let (p, at_choice, in_cands) =
        item_in cands choice.0 (law.integers_below (length cands) rng some_cand) in
      let hard = draw_hard_lem G law ops g m texts known choice.1 w in
      let (negs, topups', rng', topped, are, counted) =
        top_up_lem G law ops g m texts known topups hard.negs hard.rng' hard.distinct
          hard.all_eligible hard.bounded in
      let test : ltb 0 (length cands) ≡ true = ground arith in
      record {
        positive = p;
        negs = negs;
        topups' = topups';
        rng' = rng';
        result = rw (test, at_choice, hard.result, topped) refl;
        is_positive =
            ground (arith, contains-select (contains (keys g.passages)) m.positives p, in_cands);
        has_text =
            ground (arith, contains-select (contains (keys g.passages)) m.positives p, in_cands);
        negatives = are;
        counted = omega arith;
      }

abbrev pub qids : List MinedQuery → List Str
qids [] = []
qids (m ∷ ms) = m.qid ∷ qids ms

module _ (p : MinedQuery → Bool) where
  contains-qids-select :
      (ms : List MinedQuery) (q : Str)
      → contains (qids ms) q ≡ false
      → contains (qids (select p ms)) q ≡ false
  contains-qids-select [] q h = refl
  contains-qids-select (m ∷ ms) q h = elim (Bool-cases (p m)) [
    | inl k ↦ rw k (ground (arith, contains-qids-select ms q))
    | inr k ↦ rw k (contains-qids-select ms q (ground arith))
  ]

  Distinct-qids-select : (ms : List MinedQuery) → Distinct (qids ms) → Distinct (qids (select p ms))
  Distinct-qids-select [] u = tt
  Distinct-qids-select (m ∷ ms) u = elim (Bool-cases (p m)) [
    | inl k ↦ rw k (contains-qids-select ms m.qid u.0, Distinct-qids-select ms u.1)
    | inr k ↦ rw k (Distinct-qids-select ms u.1)
  ]

  All-select : (ms : List MinedQuery) → All (λ m. p m ≡ true) (select p ms)
  All-select [] = tt
  All-select (m ∷ ms) = elim (Bool-cases (p m)) [
    | inl k ↦ rw k (k, All-select ms)
    | inr k ↦ rw k (All-select ms)
  ]

All-both {ℓ κ} :
    (P : MinedQuery → Type ℓ) (Q : MinedQuery → Type κ) (ms : List MinedQuery)
    → All P ms
    → All Q ms
    → All (λ m. P m × Q m) ms
All-both P Q [] h k = tt
All-both P Q (m ∷ ms) h k = ((h.0, k.0), All-both P Q ms h.1 k.1)

module _ (ops : TextOps) (passages : List (Str × Str)) where
  pos_text_other :
      (ms : List MinedQuery) (d : List (Str × List Str)) (q : Str)
      → contains (qids ms) q ≡ false
      → get? (pos_text_dict ops passages ms d) q ≡ get? d q
  unfolding pos_text_dict
  pos_text_other [] d q h = refl
  pos_text_other (m ∷ ms) d q h =
      let texts = pos_texts ops passages m.positives in
      pos_text_other ms (put d m.qid texts) q (ground arith)
      ∙ get?-put d m.qid q texts
      ∙ ground arith

  pos_text_lem :
      (ms : List MinedQuery) (d : List (Str × List Str))
      → Distinct (qids ms)
      → All
          (λ m.
            get? (pos_text_dict ops passages ms d) m.qid
            ≡ some (pos_texts ops passages m.positives))
          ms
  unfolding pos_text_dict
  pos_text_lem [] d u = tt
  pos_text_lem (m ∷ ms) d u =
      let texts = pos_texts ops passages m.positives in
      (
        pos_text_other ms (put d m.qid texts) m.qid u.0
            ∙ get?-put d m.qid m.qid texts
            ∙ rw (==_refl m.qid) refl,
        pos_text_lem ms (put d m.qid texts) u.1,
      )

-- The fields of a new sampler, for a share of BM25 of `share`.
abbrev pub sampler_of :
    TextOps
    → List MinedQuery
    → List (Str × Str)
    → List (Str × Str)
    → Str
    → ℕ
    → ℕ
    → ℕ
    → List (Str × List Str)
    → GroupSampler
sampler_of ops mined queries passages strategy n_neg seed share judged =
    let kept =
      select (λ m. contains (keys queries) m.qid && any_in (keys passages) m.positives) mined in
    record {
      passages = passages;
      strategy = strategy;
      n_neg = n_neg;
      seed = seed;
      mix = pos share;
      mined = kept;
      judged = judged;
      pos_text = pos_text_dict ops passages kept [];
    }

module _ (G : Generator) (law : IsGenerator G) (ops : TextOps) where
  -- `group` keeps its promises for the query, in any state.
  abbrev pub IsMakeable : GroupSampler → MinedQuery → Type 0
  IsMakeable g m =
      (known : get? g.pos_text m.qid ≡ some (pos_texts ops g.passages m.positives)) × ((topups : ℕ)
          (rng : G.State)
        → IsGroup G law ops g m (pos_texts ops g.passages m.positives) known topups rng)

  module _ (mined : List MinedQuery) (queries passages : List (Str × Str)) (strategy : Str)
      (n_neg seed share : ℕ) (judged : List (Str × List Str)) where
    abbrev new_sampler : GroupSampler
    new_sampler = sampler_of ops mined queries passages strategy n_neg seed share judged

    pub make_sampler-eq :
        contains strategies strategy ≡ true
        → make_sampler ops mined queries passages strategy n_neg seed (pos share) judged
          ≡ ok new_sampler
    unfolding make_sampler
    make_sampler-eq known = rw known refl

    pub sampler_makes :
        share ≤ n_neg → Distinct (qids mined) → All (IsMakeable new_sampler) new_sampler.mined
    sampler_makes within u =
        let keeps : MinedQuery → Bool =
          λ m. contains (keys queries) m.qid && any_in (keys passages) m.positives in
        All-imp _ _ (select keeps mined)
          (λ m (h, k). (
            h,
            λ topups rng.
                group_lem G law ops new_sampler m (pos_texts ops passages m.positives) h topups rng
                  (record { share = share; is_share = refl; within = within }) (ground arith),
          ))
          (All-both _ _ (select keeps mined)
            (pos_text_lem ops passages (select keeps mined) [] (Distinct-qids-select keeps mined u))
            (All-select keeps mined))

    -- A sampler that is made of mined queries with different ids, for a known strategy and a share
    -- of BM25 of at most `n_neg`, can make a group for each query that it keeps, in any state. The
    -- positive is one of the query's with a text. The negatives are not repeated, and none of them
    -- is a positive, judged for the query, without a text, or of the same text as a positive.
    -- There are `n_neg` of them, unless every such passage of the random pool is among them.
    pub make_sampler_lem :
        contains strategies strategy ≡ true
        → share ≤ n_neg
        → Distinct (qids mined)
        → (g : GroupSampler) × (make_sampler ops mined queries passages strategy n_neg seed
              (pos share)
              judged
            ≡ ok g)
          × (g.passages ≡ passages)
          × All (IsMakeable g) g.mined
    make_sampler_lem known within u =
        (new_sampler, make_sampler-eq known, refl, sampler_makes within u)
