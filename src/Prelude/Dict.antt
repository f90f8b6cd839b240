-- ===== src/Prelude/Dict.antt =====
-- Python's `dict` in insertion order: writing to a key that is there keeps its place.
use mathlib.Core.Path.{◌≡◌, refl, ap}
use mathlib.Core.Bool.{true, false, ◌||◌}
use mathlib.Core.List.{List, [], ◌∷◌, ◌++◌}
use mathlib.Core.Option.{Option, none, some}
use mathlib.Core.Logic.{inl, inr}
use native.Mathlib.Omega.{arith}
use hybrid_search.Prelude.Tests.{Eq, ◌==◌, if◌then◌else◌, Bool-cases}
use hybrid_search.Prelude.Lists.{contains, Distinct}

abbrev pub keys {ℓ κ} : {K : Type ℓ} {V : Type κ} → List (K × V) → List K
keys [] = []
keys ((k, v) ∷ d) = k ∷ keys d

abbrev pub values {ℓ κ} : {K : Type ℓ} {V : Type κ} → List (K × V) → List V
values [] = []
values ((k, v) ∷ d) = v ∷ values d

module _ {ℓ κ} {K : Type ℓ} {V : Type κ} ⦃e : Eq K⦄ where
  -- `d.get(k)`
  unfoldable pub get? : List (K × V) → K → Option V
  get? [] k = none
  get? ((j, v) ∷ d) k = let rest = get? d k in if k == j then some v else rest

  -- `d.get(k, default)`
  unfoldable pub get_or : List (K × V) → K → V → V
  get_or [] k z = z
  get_or ((j, v) ∷ d) k z = let rest = get_or d k z in if k == j then v else rest

  -- `d[k] = v`
  unfoldable pub put : List (K × V) → K → V → List (K × V)
  put [] k v = (k, v) ∷ []
  put ((j, w) ∷ d) k v = let rest = put d k v in if k == j then (j, v) ∷ d else (j, w) ∷ rest

  pub get?-put :
      (d : List (K × V)) (k j : K) (v : V)
      → get? (put d k v) j ≡ (if j == k then some v else get? d j)
  unfolding get? put
  get?-put [] k j v = ground arith
  get?-put ((i, w) ∷ d) k j v =
      ground (arith, get?-put d k j v, e.same_iff k i, e.same_iff j i, e.same_iff j k)

  pub get_or-put :
      (d : List (K × V)) (k j : K) (v z : V)
      → get_or (put d k v) j z ≡ (if j == k then v else get_or d j z)
  unfolding get_or put
  get_or-put [] k j v z = ground arith
  get_or-put ((i, w) ∷ d) k j v z =
      ground (arith, get_or-put d k j v z, e.same_iff k i, e.same_iff j i, e.same_iff j k)

  pub get_or-get? : (d : List (K × V)) (k : K) (v z : V) → get? d k ≡ some v → get_or d k z ≡ v
  unfolding get? get_or
  get_or-get? [] k v z h = cc
  get_or-get? ((j, w) ∷ d) k v z h = ground (arith, get_or-get? d k v z)

  pub get_or_missing : (d : List (K × V)) (k : K) (z : V) → get? d k ≡ none → get_or d k z ≡ z
  unfolding get? get_or
  get_or_missing [] k z h = refl
  get_or_missing ((j, w) ∷ d) k z h = ground (arith, get_or_missing d k z)

  pub get_or_absent :
      (d : List (K × V)) (k : K) (z : V) → contains (keys d) k ≡ false → get_or d k z ≡ z
  unfolding get_or
  get_or_absent [] k z h = refl
  get_or_absent ((j, w) ∷ d) k z h = ground (arith, get_or_absent d k z)

  pub contains-keys-put :
      (d : List (K × V)) (k j : K) (v : V)
      → contains (keys (put d k v)) j ≡ (j == k || contains (keys d) j)
  unfolding put
  contains-keys-put [] k j v = refl
  contains-keys-put ((i, w) ∷ d) k j v =
      ground (arith, contains-keys-put d k j v, e.same_iff k i, e.same_iff j i, e.same_iff j k)

  pub Distinct-keys-put :
      (d : List (K × V)) (k : K) (v : V) → Distinct (keys d) → Distinct (keys (put d k v))
  unfolding put
  Distinct-keys-put [] k v h = (refl, tt)
  Distinct-keys-put ((i, w) ∷ d) k v h = elim (Bool-cases (k == i)) [
    | inl p ↦ rw p h
    | inr p ↦ rw p (
      ground (arith, contains-keys-put d k i v, e.same_iff i k, e.same_iff k i),
      Distinct-keys-put d k v h.1,
    )
  ]

  pub get?-contains :
      (d : List (K × V)) (k : K) (v : V) → get? d k ≡ some v → contains (keys d) k ≡ true
  unfolding get?
  get?-contains [] k v h = cc
  get?-contains ((j, w) ∷ d) k v h = ground (arith, get?-contains d k v)

  pub get?_absent : (d : List (K × V)) (k : K) → contains (keys d) k ≡ false → get? d k ≡ none
  unfolding get?
  get?_absent [] k h = refl
  get?_absent ((j, w) ∷ d) k h = ground (arith, get?_absent d k)

  -- The later of two writes to a key stays.
  pub put-put : (d : List (K × V)) (k : K) (v w : V) → put (put d k v) k w ≡ put d k w
  unfolding put
  put-put [] k v w = rw ((e.same_iff k k).1 refl) refl
  put-put ((j, u) ∷ d) k v w = elim (Bool-cases (k == j)) [
    | inl h ↦ rw (h, put, h) refl
    | inr h ↦ rw (h, put, h, put-put d k v w) refl
  ]

  -- A key that is not there goes to the end.
  pub put_new :
      (d : List (K × V)) (k : K) (v : V)
      → contains (keys d) k ≡ false
      → put d k v ≡ d ++ (k, v) ∷ []
  unfolding put
  put_new [] k v h = refl
  put_new ((j, w) ∷ d) k v h = elim (Bool-cases (k == j)) [
    | inl e ↦ cc (rw e at h)
    | inr e ↦ rw e (ap (◌∷◌ (j, w)) (put_new d k v (rw e at h)))
  ]

module _ {ℓ κ} {K : Type ℓ} {V : Type κ} where
  pub keys-append : (d d' : List (K × V)) → keys (d ++ d') ≡ keys d ++ keys d'
  keys-append [] d' = refl
  keys-append ((k, v) ∷ d) d' = ap (◌∷◌ k) (keys-append d d')

  pub values-append : (d d' : List (K × V)) → values (d ++ d') ≡ values d ++ values d'
  values-append [] d' = refl
  values-append ((k, v) ∷ d) d' = ap (◌∷◌ v) (values-append d d')
