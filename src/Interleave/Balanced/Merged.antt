-- ===== src/Interleave/Balanced/Merged.antt =====
-- What the cursors of `balanced` have passed is what it shows.
use hybrid_search.Prelude.{
  ℕ, zero, suc, ◌+◌, ◌≤◌, ◌≡◌, inl, inr, refl, sym, ap, ◌∙◌, Bool, true, ◌||◌, List, [], ◌∷◌, ◌++◌,
  Eq, contains, length, arith, take, drop, Distinct, Distinct-snoc, contains-append, Bool-cases,
  length-append, ==_eq, ◌==◌,
}
use native.Mathlib.Numerals.{add-one}
use hybrid_search.Interleave.Balanced.{Merge, takes_a, show_doc, move_a, move_b, merge_round}

module _ {ℓ} {A : Type ℓ} where
  drop-step :
      (n : ℕ) (l : List A) {d : A} {rest : List A}
      → drop n l ≡ d ∷ rest
      → (drop (suc n) l ≡ rest) × (take (suc n) l ≡ take n l ++ d ∷ [])
  drop-step zero [] h = cc
  drop-step zero (x ∷ l) h = (cc, cc)
  drop-step (suc n) [] h = cc
  drop-step (suc n) (x ∷ l) h =
      let (less, more) = drop-step n l h in (less, ap (λ (t : List A). x ∷ t) more)

  drop_nil : (n : ℕ) (l : List A) → drop n l ≡ [] → take n l ≡ l
  drop_nil zero l h = sym h
  drop_nil (suc n) [] h = refl
  drop_nil (suc n) (x ∷ l) h = ap (λ (t : List A). x ∷ t) (drop_nil n l h)

module _ {ℓ} {A : Type ℓ} ⦃e : Eq A⦄ (a b : List A) where
  pub record IsMerged (s : Merge A) : Type ℓ where
    pub rest_a : drop s.ka a ≡ s.a
    pub rest_b : drop s.kb b ≡ s.b
    pub seen_out : (x : A) → contains s.seen x ≡ contains s.out x
    pub union : (x : A) → contains s.out x ≡ (contains (take s.ka a) x || contains (take s.kb b) x)
    pub distinct : Distinct s.out

  contains-show_doc :
      (d : A) (s : Merge A) (x : A)
      → ((y : A) → contains s.seen y ≡ contains s.out y)
      → (contains (show_doc d s).seen x ≡ contains (show_doc d s).out x)
        × (contains (show_doc d s).out x ≡ (contains s.out x || x == d))
  unfolding show_doc
  contains-show_doc d s x h = elim (Bool-cases (contains s.seen d)) [
    | inl old ↦ rw old (h x, ground (arith, contains_equal s.out x d (sym (h d) ∙ old)))
    | inr new ↦ rw new (
      ground (arith, h x, contains-append s.out (d ∷ []) x),
      ground (arith, contains-append s.out (d ∷ []) x),
    )
  ]
    where
      contains_equal :
          (l : List A) (y z : A) → contains l z ≡ true → (y == z) ≡ true → contains l y ≡ true
      contains_equal l y z p q = rw (==_eq y z q) p

  Distinct-show_doc :
      (d : A) (s : Merge A)
      → contains s.seen d ≡ contains s.out d
      → Distinct s.out
      → Distinct (show_doc d s).out
  unfolding show_doc
  Distinct-show_doc d s h distinct = elim (Bool-cases (contains s.seen d)) [
    | inl old ↦ rw old distinct
    | inr new ↦ rw new (Distinct-snoc s.out d distinct (sym h ∙ new))
  ]

  -- `show_doc` leaves the cursors alone.
  pub cursors-show_doc :
      (d : A) (s : Merge A)
      → ((show_doc d s).a ≡ s.a)
        × ((show_doc d s).b ≡ s.b)
        × ((show_doc d s).ka ≡ s.ka)
        × ((show_doc d s).kb ≡ s.kb)
        × (length (show_doc d s).out ≤ length s.out + 1)
  unfolding show_doc
  cursors-show_doc d s = ground (arith, length-append s.out (d ∷ []))

  move_a-IsMerged : (l : List A) (s : Merge A) → s.a ≡ l → IsMerged s → IsMerged (move_a l s)
  unfolding move_a
  move_a-IsMerged [] s same v = v
  move_a-IsMerged (d ∷ rest) s same v =
      let w = record s { a = rest; ka = s.ka + 1 } in
      let (ea, eb, eka, ekb, len) = cursors-show_doc d w in
      let (less, more) = drop-step s.ka a (v.rest_a ∙ same) in
      record {
        rest_a = rw (ea, eka, add-one) less;
        rest_b = rw (eb, ekb) v.rest_b;
        seen_out = λ x. (contains-show_doc d w x v.seen_out).0;
        union = λ x.
            rw
              (
                (contains-show_doc d w x v.seen_out).1,
                eka,
                ekb,
                add-one,
                more,
                contains-append (take s.ka a) (d ∷ []) x,
                v.union x,
              )
              (ground arith);
        distinct = Distinct-show_doc d w (v.seen_out d) v.distinct;
      }

  move_b-IsMerged : (l : List A) (s : Merge A) → s.b ≡ l → IsMerged s → IsMerged (move_b l s)
  unfolding move_b
  move_b-IsMerged [] s same v = v
  move_b-IsMerged (d ∷ rest) s same v =
      let w = record s { b = rest; kb = s.kb + 1 } in
      let (ea, eb, eka, ekb, len) = cursors-show_doc d w in
      let (less, more) = drop-step s.kb b (v.rest_b ∙ same) in
      record {
        rest_a = rw (ea, eka) v.rest_a;
        rest_b = rw (eb, ekb, add-one) less;
        seen_out = λ x. (contains-show_doc d w x v.seen_out).0;
        union = λ x.
            rw
              (
                (contains-show_doc d w x v.seen_out).1,
                eka,
                ekb,
                add-one,
                more,
                contains-append (take s.kb b) (d ∷ []) x,
                v.union x,
              )
              (ground arith);
        distinct = Distinct-show_doc d w (v.seen_out d) v.distinct;
      }

  pub round-IsMerged : (f : Bool) (s : Merge A) → IsMerged s → IsMerged (merge_round f s)
  unfolding merge_round
  round-IsMerged f s v = elim (Bool-cases (takes_a f s)) [
    | inl t ↦ rw t (move_a-IsMerged s.a s refl v)
    | inr t ↦ rw t (move_b-IsMerged s.b s refl v)
  ]
