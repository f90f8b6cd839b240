-- ===== src/Interleave/Balanced/Order.antt =====
-- The order of the page that `balanced` of py/hybridsearch/clicks/interleave.py makes.
use hybrid_search.Prelude.{
  ℕ, zero, suc, ◌+◌, ◌≤◌, ◌≡◌, refl, sym, ap, ◌∙◌, Bool, true, false, ◌&&◌, ◌||◌, List, [], ◌∷◌,
  ◌++◌, Eq, ltb, nat_beq, contains, if◌then◌else◌, length, arith, contains-append, Bool-cases, inl,
  inr,
}
use hybrid_search.Interleave.TeamDraft.{is_empty}
use hybrid_search.Interleave.Balanced.{
  Merge, takes_a, show_doc, move_a, move_b, merge_round, goes_on, merge_loop, start_merge, balanced,
}
use hybrid_search.Interleave.Balanced.Turns.{by_turns, picks, picks-left, picks-eq-by_turns}

module _ {ℓ} {A : Type ℓ} ⦃e : Eq A⦄ where
  -- The first `k` different documents of a list, after those that are out.
  abbrev pub first_of : ℕ → List A → List A → List A
  first_of k out [] = out
  first_of k out (d ∷ ds) =
      let skipped = first_of k out ds in
      let shown = first_of k (out ++ d ∷ []) ds in
      if ltb (length out) k then (if contains out d then skipped else shown) else out

  first_of_full : (k : ℕ) (out ds : List A) → ltb (length out) k ≡ false → first_of k out ds ≡ out
  first_of_full k out [] h = refl
  first_of_full k out (d ∷ ds) h = rw h refl

  -- What is out was seen, and nothing else.
  IsSeen : Merge A → Type ℓ
  IsSeen s = (d : A) → contains s.seen d ≡ contains s.out d

  show_doc-IsSeen : (d : A) (s : Merge A) → IsSeen s → IsSeen (show_doc d s)
  unfolding IsSeen show_doc
  show_doc-IsSeen d s h c = elim (Bool-cases (contains s.seen d)) [
    | inl b ↦ rw b (h c)
    | inr b ↦ rw b (ground (arith, h c, contains-append s.out (d ∷ []) c))
  ]

  -- A document is shown, and the loop goes on with `ds`.
  first_of-show :
      (k : ℕ) (d : A) (ds : List A) (s : Merge A)
      → IsSeen s
      → ltb (length s.out) k ≡ true
      → first_of k (show_doc d s).out ds ≡ first_of k s.out (d ∷ ds)
  unfolding IsSeen show_doc
  first_of-show k d ds s h g = elim (Bool-cases (contains s.seen d)) [
    | inl b ↦ rw (b, sym (h d) ∙ b, g) refl
    | inr b ↦ rw (b, sym (h d) ∙ b, g) refl
  ]

module _ {ℓ} {A : Type ℓ} ⦃e : Eq A⦄ (k : ℕ) (f : Bool) where
  -- `show_doc` moves no cursor.
  SameCursors : Merge A → Merge A → Type ℓ
  SameCursors s t = (s.a ≡ t.a) × (s.b ≡ t.b) × (s.ka ≡ t.ka) × (s.kb ≡ t.kb)

  cursors-show : (d : A) (s : Merge A) → SameCursors (show_doc d s) s
  unfolding SameCursors show_doc
  cursors-show d s = elim (Bool-cases (contains s.seen d)) [
    | inl b ↦ rw b (refl, refl, refl, refl)
    | inr b ↦ rw b (refl, refl, refl, refl)
  ]

  round_a :
      (s : Merge A) (d : A) (l : List A)
      → s.a ≡ d ∷ l
      → takes_a f s ≡ true
      → merge_round f s ≡ show_doc d (record s { a = l; ka = s.ka + 1 })
  unfolding merge_round move_a
  round_a s d l p h = rw h (ap (λ u. move_a u s) p)

  round_b :
      (s : Merge A) (d : A) (l : List A)
      → s.b ≡ d ∷ l
      → takes_a f s ≡ false
      → merge_round f s ≡ show_doc d (record s { b = l; kb = s.kb + 1 })
  unfolding merge_round move_b
  round_b s d l p h = rw h (ap (λ u. move_b u s) p)

  -- What the loop is to make of a state in `n` rounds.
  IsDue : ℕ → Merge A → Type ℓ
  IsDue n s = (merge_loop n k f s).out ≡ first_of k s.out (picks n f s.a s.b s.ka s.kb)

  -- A round that shows `d` and leaves the cursors of `t`.
  due_round :
      (n : ℕ) (s t : Merge A) (d : A)
      → goes_on k s ≡ true
      → IsSeen t
      → t.out ≡ s.out
      → merge_round f s ≡ show_doc d t
      → IsDue n (show_doc d t)
      → (merge_loop (suc n) k f s).out ≡ first_of k s.out (d ∷ picks n f t.a t.b t.ka t.kb)
  unfolding merge_loop IsDue goes_on SameCursors
  due_round n s t d g seen same round due =
      let (ca, cb, cka, ckb) = cursors-show d t in
      let room : ltb (length t.out) k ≡ true = rw same (ground (arith, g)) in
      let step : (merge_loop (suc n) k f s).out ≡ (merge_loop n k f (merge_round f s)).out =
        rw g refl in
      step
      ∙ ap (λ u. (merge_loop n k f u).out) round
      ∙ due
      ∙ rw (ca, cb, cka, ckb) (first_of-show k d (picks n f t.a t.b t.ka t.kb) t seen room)
      ∙ ap (λ o. first_of k o (d ∷ picks n f t.a t.b t.ka t.kb)) same

  IsSeen-advance_a :
      (s : Merge A) (l : List A) → IsSeen s → IsSeen (record s { a = l; ka = s.ka + 1 })
  unfolding IsSeen
  IsSeen-advance_a s l h = h

  IsSeen-advance_b :
      (s : Merge A) (l : List A) → IsSeen s → IsSeen (record s { b = l; kb = s.kb + 1 })
  unfolding IsSeen
  IsSeen-advance_b s l h = h

  -- The loop stops before its rounds are used up only if the page is full.
  IsDue-stopped :
      (n : ℕ) (s : Merge A)
      → goes_on k s ≡ false
      → (is_empty s.a && is_empty s.b) ≡ false
      → IsDue (suc n) s
  unfolding merge_loop IsDue goes_on
  IsDue-stopped n s g some_left =
      let full : ltb (length s.out) k ≡ false = ground (arith, g, some_left) in
      let stop : merge_loop (suc n) k f s ≡ s = rw g refl in
      ap (λ (u : Merge A). u.out) stop
      ∙ sym (first_of_full k s.out (picks (suc n) f s.a s.b s.ka s.kb) full)

  IsDue-a :
      (n : ℕ) (s : Merge A) (d : A) (l r : List A)
      → s.a ≡ d ∷ l
      → s.b ≡ r
      → takes_a f s ≡ true
      → picks (suc n) f (d ∷ l) r s.ka s.kb ≡ d ∷ picks n f l r (s.ka + 1) s.kb
      → goes_on k s ≡ true
      → IsSeen s
      → IsDue n (show_doc d (record s { a = l; ka = s.ka + 1 }))
      → IsDue (suc n) s
  unfolding IsDue
  IsDue-a n s d l r p q takes h g seen due =
      let t : Merge A = record s { a = l; ka = s.ka + 1 } in
      let pick : picks (suc n) f s.a s.b s.ka s.kb ≡ d ∷ picks n f l s.b (s.ka + 1) s.kb =
        ap (λ u. picks (suc n) f u s.b s.ka s.kb) p
        ∙ ap (λ u. picks (suc n) f (d ∷ l) u s.ka s.kb) q
        ∙ h
        ∙ ap (λ u. d ∷ picks n f l u (s.ka + 1) s.kb) (sym q) in
      due_round n s t d g (IsSeen-advance_a s l seen) refl (round_a s d l p takes) due
      ∙ sym (ap (first_of k s.out) pick)

  IsDue-b :
      (n : ℕ) (s : Merge A) (d : A) (l r : List A)
      → s.a ≡ l
      → s.b ≡ d ∷ r
      → takes_a f s ≡ false
      → picks (suc n) f l (d ∷ r) s.ka s.kb ≡ d ∷ picks n f l r s.ka (s.kb + 1)
      → goes_on k s ≡ true
      → IsSeen s
      → IsDue n (show_doc d (record s { b = r; kb = s.kb + 1 }))
      → IsDue (suc n) s
  unfolding IsDue
  IsDue-b n s d l r p q takes h g seen due =
      let t : Merge A = record s { b = r; kb = s.kb + 1 } in
      let pick : picks (suc n) f s.a s.b s.ka s.kb ≡ d ∷ picks n f s.a r s.ka (s.kb + 1) =
        ap (λ u. picks (suc n) f s.a u s.ka s.kb) q
        ∙ ap (λ u. picks (suc n) f u (d ∷ r) s.ka s.kb) p
        ∙ h
        ∙ ap (λ u. d ∷ picks n f u r s.ka (s.kb + 1)) (sym p) in
      due_round n s t d g (IsSeen-advance_b s r seen) refl (round_b s d r q takes) due
      ∙ sym (ap (first_of k s.out) pick)

  IsDue-ended : (n : ℕ) (s : Merge A) → s.a ≡ [] → s.b ≡ [] → IsDue n s
  unfolding IsDue merge_loop goes_on
  IsDue-ended n s p q =
      let none_left : picks n f s.a s.b s.ka s.kb ≡ [] =
        ap (λ u. picks n f u s.b s.ka s.kb) p
        ∙ ap (λ u. picks n f [] u s.ka s.kb) q
        ∙ picks-left n f [] s.ka s.kb (omega arith) in
      stays n ∙ sym (ap (first_of k s.out) none_left)
    where
      stays : (j : ℕ) → (merge_loop j k f s).out ≡ s.out
      stays zero = refl
      stays (suc j) =
          let g : goes_on k s ≡ false =
            (let pa = ap is_empty p in let qa = ap is_empty q in ground (arith, pa, qa)) in
          let same : merge_loop (suc j) k f s ≡ s = rw g refl in ap (λ (u : Merge A). u.out) same

  takes_a_both :
      (s : Merge A)
      → is_empty s.a ≡ false
      → is_empty s.b ≡ false
      → takes_a f s ≡ (ltb s.ka s.kb || nat_beq s.ka s.kb && f)
  unfolding takes_a
  takes_a_both s p q = rw (p, q) refl

  loop-IsDue :
      (n : ℕ) (s : Merge A) (l r : List A)
      → s.a ≡ l
      → s.b ≡ r
      → IsSeen s
      → length l + length r ≤ n
      → IsDue n s
  unfolding SameCursors takes_a picks
  loop-IsDue n s [] [] p q seen le = IsDue-ended n s p q
  loop-IsDue zero s (x ∷ l) r p q seen le = absurd (omega arith)
  loop-IsDue zero s [] (y ∷ r) p q seen le = absurd (omega arith)
  loop-IsDue (suc n) s (x ∷ l) [] p q seen le = elim (Bool-cases (goes_on k s)) [
    | inr g ↦ IsDue-stopped n s g (rw (ap is_empty p) refl)
    | inl g ↦
        let t : Merge A = record s { a = l; ka = s.ka + 1 } in
        let (ca, cb, cka, ckb) = cursors-show x t in
        IsDue-a n s x l [] p q (rw (ap is_empty p, ap is_empty q) refl) refl g seen (
          loop-IsDue n (show_doc x t) l [] ca (cb ∙ q)
            (show_doc-IsSeen x t (IsSeen-advance_a s l seen)) (omega arith))
  ]
  loop-IsDue (suc n) s [] (y ∷ r) p q seen le = elim (Bool-cases (goes_on k s)) [
    | inr g ↦ IsDue-stopped n s g (rw (ap is_empty p, ap is_empty q) refl)
    | inl g ↦
        let t : Merge A = record s { b = r; kb = s.kb + 1 } in
        let (ca, cb, cka, ckb) = cursors-show y t in
        IsDue-b n s y [] r p q (rw (ap is_empty p) refl) refl g seen (
          loop-IsDue n (show_doc y t) [] r (ca ∙ p) cb
            (show_doc-IsSeen y t (IsSeen-advance_b s r seen)) (omega arith))
  ]
  loop-IsDue (suc n) s (x ∷ l) (y ∷ r) p q seen le = elim (Bool-cases (goes_on k s)) [
    | inr g ↦ IsDue-stopped n s g (rw (ap is_empty p) refl)
    | inl g ↦
        let both = takes_a_both s (ap is_empty p) (ap is_empty q) in
        elim (Bool-cases (ltb s.ka s.kb || nat_beq s.ka s.kb && f)) [
          | inl w ↦
              let t : Merge A = record s { a = l; ka = s.ka + 1 } in
              let (ca, cb, cka, ckb) = cursors-show x t in
              IsDue-a n s x l (y ∷ r) p q (both ∙ w) (rw w refl) g seen (
                loop-IsDue n (show_doc x t) l (y ∷ r) ca (cb ∙ q)
                  (show_doc-IsSeen x t (IsSeen-advance_a s l seen)) (omega arith))
          | inr w ↦
              let t : Merge A = record s { b = r; kb = s.kb + 1 } in
              let (ca, cb, cka, ckb) = cursors-show y t in
              IsDue-b n s y (x ∷ l) r p q (both ∙ w) (rw w refl) g seen (
                loop-IsDue n (show_doc y t) (x ∷ l) r (ca ∙ p) cb
                  (show_doc-IsSeen y t (IsSeen-advance_b s r seen)) (omega arith))
        ]
  ]

-- The page of `balanced` has the first `k` different documents of the two rankings by turns, in this
-- order: a document of the one that begins, one of the other, and so on, and the rest of the longer
-- ranking when the other has ended. The first ranking begins if `a_first` holds, or else the second.
pub balanced-eq-first_of {ℓ} :
    {A : Type ℓ} ⦃e : Eq A⦄ (a b : List A) (k : ℕ) (a_first : Bool)
    → balanced a b k a_first ≡ first_of k [] (by_turns a_first a b)
unfolding balanced IsDue IsSeen
balanced-eq-first_of a b k f =
    loop-IsDue k f (length a + length b) (start_merge a b) a b refl refl (λ d. refl) (omega arith)
    ∙ ap (first_of k []) (picks-eq-by_turns (length a + length b) f a b 0 (omega arith))
