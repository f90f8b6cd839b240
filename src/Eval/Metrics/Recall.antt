-- ===== src/Eval/Metrics/Recall.antt =====
-- `recall_at_k` of py/hybridsearch/eval/metrics.py: the share of the relevant documents that are found.
use hybrid_search.Prelude.{
  ℕ, zero, suc, ◌+◌, ◌≤◌, ◌≡◌, refl, false, List, [], ◌∷◌, arith, Bool-cases, inl, inr,
  if◌then◌else◌, Distinct, contains, ◌==◌, ==_eq, subst, take, tally,
}
use hybrid_search.Prelude.Text.{Str, str_eq}
use hybrid_search.Prelude.Dict.{values, get_or}
use hybrid_search.Prelude.Int.{ℤ, pos, leb_ℤ}
use hybrid_search.Eval.Metrics.{is_relevant, relevant_count, hit_count}

contains-take :
    (k : ℕ) (ds : List Str) (d : Str) → contains ds d ≡ false → contains (take k ds) d ≡ false
contains-take zero ds d h = refl
contains-take (suc k) [] d h = refl
contains-take (suc k) (x ∷ ds) d h = ground (arith, contains-take k ds d)

Distinct-take : (k : ℕ) (ds : List Str) → Distinct ds → Distinct (take k ds)
Distinct-take zero ds h = tt
Distinct-take (suc k) [] h = tt
Distinct-take (suc k) (x ∷ ds) h = (contains-take k ds x h.0, Distinct-take k ds h.1)

-- A judgment that none of the documents is about does not matter.
tally_skip :
    (qrel : List (Str × ℤ)) (rel : ℤ) (j : Str) (g : ℤ) (ds : List Str)
    → contains ds j ≡ false
    → tally (is_relevant ((j, g) ∷ qrel) rel) ds ≡ tally (is_relevant qrel rel) ds
unfolding is_relevant get_or
tally_skip qrel rel j g [] h = refl
tally_skip qrel rel j g (d ∷ ds) h =
    ground (arith, tally_skip qrel rel j g ds, str_eq.same_iff d j, str_eq.same_iff j d)

-- A judgment adds at most one hit, and none if its grade is too low.
tally_judged :
    (qrel : List (Str × ℤ)) (rel : ℤ) (j : Str) (g : ℤ) (ds : List Str)
    → Distinct ds
    → tally (is_relevant ((j, g) ∷ qrel) rel) ds
      ≤ (if leb_ℤ rel g then 1 else 0) + tally (is_relevant qrel rel) ds
unfolding is_relevant get_or
tally_judged qrel rel j g [] h = omega arith
tally_judged qrel rel j g (d ∷ ds) h = elim (Bool-cases (d == j)) [
  | inl e ↦
      let absent : contains ds j ≡ false = subst (λ x. contains ds x ≡ false) (==_eq d j e) h.0 in
      ground (arith, tally_skip qrel rel j g ds absent)
  | inr e ↦ ground (arith, tally_judged qrel rel j g ds h.1)
]

-- Without judgments no document is relevant.
tally_unjudged :
    (rel : ℤ) (ds : List Str) → leb_ℤ rel (pos 0) ≡ false → tally (is_relevant [] rel) ds ≡ 0
unfolding is_relevant get_or
tally_unjudged rel [] h = refl
tally_unjudged rel (d ∷ ds) h = ground (arith, tally_unjudged rel ds h)

tally-is_relevant-le :
    (qrel : List (Str × ℤ)) (rel : ℤ) (ds : List Str)
    → leb_ℤ rel (pos 0) ≡ false
    → Distinct ds
    → tally (is_relevant qrel rel) ds ≤ tally (leb_ℤ rel) (values qrel)
tally-is_relevant-le [] rel ds h d = omega (arith, tally_unjudged rel ds h)
tally-is_relevant-le ((j, g) ∷ qrel) rel ds h d =
    omega (arith, tally_judged qrel rel j g ds d, tally-is_relevant-le qrel rel ds h d)

-- A ranking without repetition has at most as many hits among its first `k` documents as there are
-- relevant documents, for a level of relevance above 0: recall is at most 1.
hit_count-le-relevant_count :
    (ranked : List Str) (qrel : List (Str × ℤ)) (k : ℕ) (rel : ℤ)
    → leb_ℤ rel (pos 0) ≡ false
    → Distinct ranked
    → hit_count ranked qrel k rel ≤ relevant_count qrel rel
unfolding hit_count relevant_count
hit_count-le-relevant_count ranked qrel k rel h d =
    tally-is_relevant-le qrel rel (take k ranked) h (Distinct-take k ranked d)
