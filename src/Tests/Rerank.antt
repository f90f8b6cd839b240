-- ===== src/Tests/Rerank.antt =====
-- Runs of py/hybridsearch/rerank/sampler.py and its theorems at two mined queries.
use hybrid_search.Prelude.{
  false, length, ap, ◌≤◌, Distinct, ℕ, ◌*◌, zero, suc, ◌<◌, ◌≡◌, refl, true, List, [], ◌∷◌, ok,
  arith, contains, All, All-imp, nat_eq,
}
use hybrid_search.Prelude.Text.{Str, codes, str_eq}
use hybrid_search.Prelude.Int.{pos}
use hybrid_search.Rerank.Sampler.{Generator, TextOps, MinedQuery, GroupSampler, make_sampler, mixed}
use hybrid_search.Rerank.Sampler.Batch.{Orders, Group, batch}
use hybrid_search.Rerank.Sampler.Orders.{IsCache}
use hybrid_search.Rerank.Sampler.Steps.{AreGroupsFrom, batch_lem}
use hybrid_search.Rerank.Sampler.Epochs.{run_batches, queried, run_batches_epoch}
use hybrid_search.Rerank.Sampler.Draw.{IsGenerator}
use hybrid_search.Rerank.Sampler.Negatives.{
  IsMakeable, make_sampler_lem, sampler_of, sampler_makes, qids,
}

abbrev countdown : ℕ → List ℕ
countdown zero = []
countdown (suc n) = n ∷ countdown n

-- A generator that never changes: the last place first, and always the first of a range.
abbrev fixed : Generator
fixed = record {
  State = ℕ;
  seeded = λ s x. s;
  permutation = λ n s. (countdown n, s);
  integers = λ n s. (0, s);
}

countdown_below : (n : ℕ) → All (λ j. j < n) (countdown n)
countdown_below zero = tt
countdown_below (suc n) =
    (omega arith, All-imp _ _ (countdown n) (λ j h. omega arith) (countdown_below n))

countdown_all : (n j : ℕ) → j < n → contains (countdown n) j ≡ true
countdown_all zero j h = absurd (omega arith)
countdown_all (suc n) j h = ground (arith, countdown_all n j)

length-countdown : (n : ℕ) → length (countdown n) ≡ n
length-countdown zero = refl
length-countdown (suc n) = ap suc (length-countdown n)

countdown_absent : (n j : ℕ) → n ≤ j → contains (countdown n) j ≡ false
countdown_absent zero j h = refl
countdown_absent (suc n) j h = ground (arith, countdown_absent n j)

countdown-Distinct : (n : ℕ) → Distinct (countdown n)
countdown-Distinct zero = tt
countdown-Distinct (suc n) = (countdown_absent n n (omega arith), countdown-Distinct n)

fixed-IsGenerator : IsGenerator fixed
fixed-IsGenerator = record {
  permutation_below = λ n s. countdown_below n;
  permutation_all = λ n s j h. countdown_all n j h;
  permutation_length = λ n s. length-countdown n;
  permutation_distinct = λ n s. countdown-Distinct n;
  integers_below = λ n s h. h;
}

abbrev plain_text : TextOps
plain_text = record { strip = λ t. t; lower = λ t. t; single_spaces = λ t. t }

abbrev cats : MinedQuery
cats = record {
  qid = codes "1";
  positives = codes "10" ∷ [];
  bm25 = codes "11" ∷ codes "12" ∷ [];
  dense = codes "12" ∷ codes "13" ∷ [];
  random = codes "14" ∷ [];
}

abbrev passages : List (Str × Str)
passages =
    (codes "10", codes "a cat")
    ∷ (codes "11", codes "a dog")
    ∷ (codes "12", codes "a cat")
    ∷ (codes "13", codes "a cow")
    ∷ (codes "14", codes "a hen")
    ∷ []

make_sampler_lem_example :
    (g : GroupSampler) × (make_sampler plain_text
        (cats ∷ [])
        ((codes "1", codes "cats") ∷ [])
        passages
        mixed
        3
        0
        (pos 1)
        []
      ≡ ok g)
    × (g.passages ≡ passages)
    × All (IsMakeable fixed fixed-IsGenerator plain_text g) g.mined
make_sampler_lem_example =
    make_sampler_lem fixed fixed-IsGenerator plain_text (cats ∷ []) ((codes "1", codes "cats") ∷ [])
      passages mixed 3 0 1 [] refl (omega arith) (refl, tt)

abbrev hens : MinedQuery
hens = record {
  qid = codes "2";
  positives = codes "14" ∷ [];
  bm25 = codes "11" ∷ [];
  dense = codes "13" ∷ [];
  random = codes "12" ∷ codes "10" ∷ [];
}

abbrev two_queries : GroupSampler
two_queries =
    sampler_of plain_text (cats ∷ hens ∷ [])
      ((codes "1", codes "cats") ∷ (codes "2", codes "hens") ∷ []) passages mixed 2 0 1 []

two_queries-IsMakeable :
    All (IsMakeable fixed fixed-IsGenerator plain_text two_queries) two_queries.mined
two_queries-IsMakeable =
    sampler_makes fixed fixed-IsGenerator plain_text (cats ∷ hens ∷ [])
      ((codes "1", codes "cats") ∷ (codes "2", codes "hens") ∷ []) passages mixed 2 0 1 []
      (omega arith) ((refl, (refl, tt)))

batch_lem_example :
    (groups : List Group) × (topups' : ℕ) × (orders' : Orders) × (batch fixed plain_text two_queries
        1 3 0 []
      ≡ ok (groups, topups', orders'))
    × (length groups ≡ 3)
    × AreGroupsFrom fixed fixed-IsGenerator plain_text two_queries (1 * 3) groups
    × IsCache fixed two_queries orders'
    × (length orders' ≤ 3)
batch_lem_example =
    batch_lem fixed fixed-IsGenerator plain_text two_queries (omega arith) two_queries-IsMakeable 1
      3 0 [] tt (omega arith)

run_batches_epoch_example :
    (groups : List Group) × (topups' : ℕ) × (orders' : Orders) × (run_batches fixed plain_text
        two_queries 1 2 4 0 []
      ≡ ok (groups, topups', orders'))
    × Distinct (queried groups)
    × ((q : Str) → contains (queried groups) q ≡ contains (qids two_queries.mined) q)
run_batches_epoch_example =
    run_batches_epoch fixed plain_text two_queries 1 fixed-IsGenerator (omega arith)
      two_queries-IsMakeable 2 4 2 0 [] (refl, (refl, tt)) refl refl tt (omega arith)
