-- ===== src/Rerank/Sampler/Picks.antt =====
-- The queries at the places of a permutation, of py/hybridsearch/rerank/sampler.py.
use hybrid_search.Prelude.{
  ℕ, zero, suc, ◌<◌, ◌≡◌, refl, true, List, [], ◌∷◌, some, arith, length, get_elem?, contains,
  Distinct, sym, ap, ◌∙◌, drop, ◌==◌, ==_eq, ==_refl, Bool-cases, inl, inr, nat_eq, contains_head,
}
use hybrid_search.Prelude.Text.{Str, str_eq}
use hybrid_search.Rerank.Sampler.{MinedQuery}
use hybrid_search.Rerank.Sampler.Negatives.{qids}

module _ (ids : List Str) where
  -- The names at these places.
  abbrev pub Picks : List ℕ → List Str → Type 0
  Picks [] [] = Unit
  Picks (j ∷ js) (q ∷ qs) = (get_elem? ids j ≡ some q) × Picks js qs
  Picks js qs = ⊥

  pub picked_from :
      (js : List ℕ) (qs : List Str) (q : Str)
      → Picks js qs
      → contains qs q ≡ true
      → (j : ℕ) × (contains js j ≡ true) × (get_elem? ids j ≡ some q)
  picked_from [] [] q p h = cc
  picked_from [] (x ∷ qs) q p h = absurd p
  picked_from (j ∷ js) [] q p h = absurd p
  picked_from (j ∷ js) (x ∷ qs) q p h = elim (Bool-cases (q == x)) [
    | inl e ↦ (j, ground (arith, ==_refl j), p.0 ∙ ap some (sym (==_eq q x e)))
    | inr e ↦ let (i, c, at) = picked_from js qs q p.1 (ground arith) in (i, ground arith, at)
  ]

  pub picked :
      (js : List ℕ) (qs : List Str) (j : ℕ) (q : Str)
      → Picks js qs
      → contains js j ≡ true
      → get_elem? ids j ≡ some q
      → contains qs q ≡ true
  picked [] [] j q p h at = cc
  picked [] (x ∷ qs) j q p h at = absurd p
  picked (i ∷ js) [] j q p h at = absurd p
  picked (i ∷ js) (x ∷ qs) j q p h at = elim (Bool-cases (j == i)) [
    | inl e ↦
        let same : some x ≡ some q = sym p.0 ∙ ap (get_elem? ids) (sym (==_eq j i e)) ∙ at in
        let same' : x ≡ q = cc in rw same' (contains_head q qs)
    | inr e ↦ ground (arith, picked js qs j q p.1 (ground arith) at)
  ]

pub contains_at :
    (ids : List Str) (j : ℕ) (q : Str) → get_elem? ids j ≡ some q → contains ids q ≡ true
contains_at [] j q h = cc
contains_at (x ∷ ids) zero q h = let same : x ≡ q = cc in rw same (contains_head q ids)
contains_at (x ∷ ids) (suc j) q h = ground (arith, contains_at ids j q h)

pub place_of :
    (ids : List Str) (q : Str)
    → contains ids q ≡ true
    → (j : ℕ) × (j < length ids) × (get_elem? ids j ≡ some q)
place_of [] q h = cc
place_of (x ∷ ids) q h = elim (Bool-cases (q == x)) [
  | inl e ↦ (0, omega arith, ap some (sym (==_eq q x e)))
  | inr e ↦ let (j, l, at) = place_of ids q (ground arith) in (suc j, omega arith, at)
]

same_place :
    (ids : List Str) (i j : ℕ) (q : Str)
    → Distinct ids
    → get_elem? ids i ≡ some q
    → get_elem? ids j ≡ some q
    → i ≡ j
same_place [] i j q u h k = cc
same_place (x ∷ ids) zero zero q u h k = refl
same_place (x ∷ ids) zero (suc j) q u h k =
    let same : x ≡ q = cc in let yes = contains_at ids j q k in let no = u.0 in cc
same_place (x ∷ ids) (suc i) zero q u h k =
    let same : x ≡ q = cc in let yes = contains_at ids i q h in let no = u.0 in cc
same_place (x ∷ ids) (suc i) (suc j) q u h k = ap suc (same_place ids i j q u.1 h k)

pub Distinct-Picks :
    (ids : List Str) (js : List ℕ) (qs : List Str)
    → Distinct ids
    → Picks ids js qs
    → Distinct js
    → Distinct qs
Distinct-Picks ids [] [] u p v = tt
Distinct-Picks ids [] (q ∷ qs) u p v = absurd p
Distinct-Picks ids (j ∷ js) [] u p v = absurd p
Distinct-Picks ids (j ∷ js) (q ∷ qs) u p v = (
  elim (Bool-cases (contains qs q)) [
    | inl c ↦
        let (i, c', at) = picked_from ids js qs q p.1 c in
        let same = same_place ids i j q u at p.0 in let no = v.0 in cc
    | inr c ↦ c
  ],
  Distinct-Picks ids js qs u p.1 v.1,
)

pub get_elem?-qids :
    (ms : List MinedQuery) (j : ℕ) (m : MinedQuery)
    → get_elem? ms j ≡ some m
    → get_elem? (qids ms) j ≡ some m.qid
get_elem?-qids [] j m h = cc
get_elem?-qids (x ∷ ms) zero m h = let same : x ≡ m = cc in rw same refl
get_elem?-qids (x ∷ ms) (suc j) m h = get_elem?-qids ms j m h

pub length-qids : (ms : List MinedQuery) → length (qids ms) ≡ length ms
length-qids [] = refl
length-qids (m ∷ ms) = ap suc (length-qids ms)

pub drop_at {ℓ} :
    {A : Type ℓ} (xs : List A) (r : ℕ) (x : A)
    → get_elem? xs r ≡ some x
    → drop r xs ≡ x ∷ drop (suc r) xs
drop_at [] r x h = cc
drop_at (y ∷ xs) zero x h = let same : y ≡ x = cc in ap (λ z. z ∷ xs) same
drop_at (y ∷ xs) (suc r) x h = drop_at xs r x h

pub drop-length {ℓ} : {A : Type ℓ} (xs : List A) → drop (length xs) xs ≡ []
drop-length [] = refl
drop-length (x ∷ xs) = drop-length xs
