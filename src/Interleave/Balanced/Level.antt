-- ===== src/Interleave/Balanced/Level.antt =====
-- The cursors of `balanced` stay level, and its loop ends.
use hybrid_search.Prelude.{
  ℕ, zero, suc, ◌+◌, ◌≤◌, ◌<◌, ◌≡◌, ◌⊎◌, inl, inr, refl, ap, Bool, true, false, ◌&&◌, ◌||◌, List,
  [], ◌∷◌, Eq, ltb, nat_beq, if◌then◌else◌, length, arith, Bool-cases,
}
use hybrid_search.Interleave.TeamDraft.{is_empty}
use hybrid_search.Interleave.Balanced.{
  Merge, takes_a, move_a, move_b, merge_round, goes_on, merge_loop,
}
use hybrid_search.Interleave.Balanced.Merged.{IsMerged, cursors-show_doc, round-IsMerged}

module _ {ℓ} {A : Type ℓ} ⦃e : Eq A⦄ (k : ℕ) (f : Bool) where
  -- The page is not too long, and no cursor is more than one ahead unless the other is at its end.
  pub record IsLevel (s : Merge A) : Type ℓ where
    pub at_most : length s.out ≤ k
    pub level_a : (s.ka ≤ s.kb + 1) ⊎ (s.b ≡ [])
    pub level_b : (s.kb ≤ s.ka + 1) ⊎ (s.a ≡ [])

  abbrev left : Merge A → ℕ
  left s = length s.a + length s.b

  moved_a-IsLevel :
      (d : A) (rest r : List A) (s : Merge A)
      → ((s.ka ≤ s.kb) ⊎ (r ≡ []))
      → s.b ≡ r
      → length s.out < k
      → (s.kb ≤ s.ka + 1) ⊎ (d ∷ rest ≡ [])
      → IsLevel (move_a (d ∷ rest) s) × (left (move_a (d ∷ rest) s) ≡ length rest + length r)
  unfolding move_a
  moved_a-IsLevel d rest r s may same short other =
      let w = record s { a = rest; ka = s.ka + 1 } in
      let (ea, eb, eka, ekb, len) = cursors-show_doc [] [] d w in
      (
        record {
          at_most = omega arith;
          level_a =
              rw (eka, ekb, eb, same)
                (elim may [ inl le ↦ inl (omega arith) | inr none ↦ inr none ]);
          level_b = rw (eka, ekb) (elim other [ inl le ↦ inl (omega arith) | inr never ↦ cc ]);
        },
        rw (ea, eb, same) refl,
      )

  moved_b-IsLevel :
      (d : A) (rest l : List A) (s : Merge A)
      → ((s.kb ≤ s.ka) ⊎ (l ≡ []))
      → s.a ≡ l
      → length s.out < k
      → (s.ka ≤ s.kb + 1) ⊎ (d ∷ rest ≡ [])
      → IsLevel (move_b (d ∷ rest) s) × (left (move_b (d ∷ rest) s) ≡ length l + length rest)
  unfolding move_b
  moved_b-IsLevel d rest l s may same short other =
      let w = record s { b = rest; kb = s.kb + 1 } in
      let (ea, eb, eka, ekb, len) = cursors-show_doc [] [] d w in
      (
        record {
          at_most = omega arith;
          level_a = rw (eka, ekb) (elim other [ inl le ↦ inl (omega arith) | inr never ↦ cc ]);
          level_b =
              rw (eka, ekb, ea, same)
                (elim may [ inl le ↦ inl (omega arith) | inr none ↦ inr none ]);
        },
        rw (ea, eb, same) refl,
      )

  round_of_a :
      (s : Merge A) (l : List A) → s.a ≡ l → takes_a f s ≡ true → merge_round f s ≡ move_a l s
  unfolding merge_round
  round_of_a s l p t = rw t (ap (λ (z : List A). move_a z s) p)

  round_of_b :
      (s : Merge A) (r : List A) → s.b ≡ r → takes_a f s ≡ false → merge_round f s ≡ move_b r s
  unfolding merge_round
  round_of_b s r p t = rw t (ap (λ (z : List A). move_b z s) p)

  takes_a-cases :
      (x y : A) (l r : List A) (s : Merge A)
      → s.a ≡ x ∷ l
      → s.b ≡ y ∷ r
      → ((takes_a f s ≡ true) × (s.ka ≤ s.kb)) ⊎ ((takes_a f s ≡ false) × (s.kb ≤ s.ka))
  unfolding takes_a
  takes_a-cases x y l r s p q = elim (Bool-cases (ltb s.ka s.kb || nat_beq s.ka s.kb && f)) [
    | inl t ↦ inl (ground arith, ground arith)
    | inr t ↦ inr (ground arith, ground arith)
  ]

  -- A round of the loop keeps both, and leaves one document less to pass.
  round-IsLevel :
      (l r : List A) (s : Merge A)
      → s.a ≡ l
      → s.b ≡ r
      → goes_on k s ≡ true
      → IsLevel s
      → IsLevel (merge_round f s) × (left s ≡ left (merge_round f s) + 1)
  unfolding goes_on
  round-IsLevel [] [] s p q g v = ground arith
  round-IsLevel (x ∷ l) [] s p q g v =
      let goes_a : takes_a f s ≡ true = unfold takes_a in ground arith in
      let (lv, size) = moved_a-IsLevel x l [] s (inr refl) q (ground arith) (rw p at v.level_b) in
      rw (round_of_a s (x ∷ l) p goes_a)
        (lv, (let pa = ap (length {A = A}) p in let pb = ap (length {A = A}) q in omega arith))
  round-IsLevel [] (y ∷ r) s p q g v =
      let goes_b : takes_a f s ≡ false = unfold takes_a in ground arith in
      let (lv, size) = moved_b-IsLevel y r [] s (inr refl) p (ground arith) (rw q at v.level_a) in
      rw (round_of_b s (y ∷ r) q goes_b)
        (lv, (let pa = ap (length {A = A}) p in let pb = ap (length {A = A}) q in omega arith))
  round-IsLevel (x ∷ l) (y ∷ r) s p q g v = elim (takes_a-cases x y l r s p q) [
    | inl (goes_a, le) ↦
        let (lv, size) =
          moved_a-IsLevel x l (y ∷ r) s (inl le) q (ground arith) (rw p at v.level_b) in
        rw (round_of_a s (x ∷ l) p goes_a)
          (lv, (let pa = ap (length {A = A}) p in let pb = ap (length {A = A}) q in omega arith))
    | inr (goes_b, le) ↦
        let (lv, size) =
          moved_b-IsLevel y r (x ∷ l) s (inl le) p (ground arith) (rw q at v.level_a) in
        rw (round_of_b s (y ∷ r) q goes_b)
          (lv, (let pa = ap (length {A = A}) p in let pb = ap (length {A = A}) q in omega arith))
  ]

  -- With a round for every document the loop ends by its test.
  pub loop_ends :
      (a b : List A) (n : ℕ) (s : Merge A)
      → IsMerged a b s
      → IsLevel s
      → left s ≤ n
      → (let t = merge_loop n k f s in IsMerged a b t × IsLevel t × (goes_on k t ≡ false))
  unfolding merge_loop
  loop_ends a b zero s v w h = (v, w, unfold goes_on in none_left s.a s.b s.out (omega arith))
    where
      none_left :
          (x y : List A) (out : List A)
          → length x + length y ≤ 0
          → (ltb (length out) k
              && (if is_empty x then (if is_empty y then false else true) else true))
            ≡ false
      none_left [] [] out le = ground arith
      none_left (u ∷ x) y out le = absurd (omega arith)
      none_left [] (u ∷ y) out le = absurd (omega arith)
  loop_ends a b (suc n) s v w h = elim (Bool-cases (goes_on k s)) [
    | inl more ↦
        let (w', size) = round-IsLevel s.a s.b s refl refl more w in
        rw more (loop_ends a b n (merge_round f s) (round-IsMerged a b f s v) w' (omega arith))
    | inr done ↦ rw done (v, w, done)
  ]
