-- ===== src/Interleave/Balanced/Turns.antt =====
-- Two rankings by turns, as the cursors of `balanced` of py/hybridsearch/clicks/interleave.py pass
-- their documents.
use hybrid_search.Prelude.{
  ℕ, zero, suc, ◌+◌, ◌≤◌, ◌≡◌, refl, ap, ◌∙◌, Bool, true, false, ◌&&◌, ◌||◌, List, [], ◌∷◌, ltb,
  nat_beq, if◌then◌else◌, length, arith,
}

module _ {ℓ} {A : Type ℓ} where
  -- One document of each ranking in turn, and the rest of the longer one.
  abbrev pub by_turns : Bool → List A → List A → List A
  by_turns a_first [] b = b
  by_turns a_first (x ∷ a) [] = x ∷ a
  by_turns true (x ∷ a) (y ∷ b) = x ∷ y ∷ by_turns true a b
  by_turns false (x ∷ a) (y ∷ b) = y ∷ x ∷ by_turns false a b

  by_turns_left : (f : Bool) (a : List A) → a ≡ by_turns f a []
  by_turns_left f [] = refl
  by_turns_left f (x ∷ a) = refl

  -- The documents that the cursors pass, round by round.
  unfoldable pub picks : ℕ → Bool → List A → List A → ℕ → ℕ → List A
  picks zero f a b ka kb = []
  picks (suc n) f [] [] ka kb = []
  picks (suc n) f (x ∷ a) [] ka kb = x ∷ picks n f a [] (ka + 1) kb
  picks (suc n) f [] (y ∷ b) ka kb = y ∷ picks n f [] b ka (kb + 1)
  picks (suc n) f (x ∷ a) (y ∷ b) ka kb =
      let of_a = x ∷ picks n f a (y ∷ b) (ka + 1) kb in
      let of_b = y ∷ picks n f (x ∷ a) b ka (kb + 1) in
      if ltb ka kb || nat_beq ka kb && f then of_a else of_b

  pub picks-left :
      (n : ℕ) (f : Bool) (a : List A) (ka kb : ℕ) → length a ≤ n → picks n f a [] ka kb ≡ a
  unfolding picks
  picks-left zero f [] ka kb h = refl
  picks-left zero f (x ∷ a) ka kb h = absurd (omega arith)
  picks-left (suc n) f [] ka kb h = refl
  picks-left (suc n) f (x ∷ a) ka kb h = ap (◌∷◌ x) (picks-left n f a (ka + 1) kb (omega arith))

  picks-right :
      (n : ℕ) (f : Bool) (b : List A) (ka kb : ℕ) → length b ≤ n → picks n f [] b ka kb ≡ b
  unfolding picks
  picks-right zero f [] ka kb h = refl
  picks-right zero f (y ∷ b) ka kb h = absurd (omega arith)
  picks-right (suc n) f [] ka kb h = refl
  picks-right (suc n) f (y ∷ b) ka kb h = ap (◌∷◌ y) (picks-right n f b ka (kb + 1) (omega arith))

  pub picks-eq-by_turns :
      (n : ℕ) (f : Bool) (a b : List A) (j : ℕ)
      → length a + length b ≤ n
      → picks n f a b j j ≡ by_turns f a b
  unfolding picks
  picks-eq-by_turns n f [] b j h = picks-right n f b j j (omega arith)
  picks-eq-by_turns n f (x ∷ a) [] j h = picks-left n f (x ∷ a) j j (omega arith)
  picks-eq-by_turns zero f (x ∷ a) (y ∷ b) j h = absurd (omega arith)
  picks-eq-by_turns (suc zero) f (x ∷ a) (y ∷ b) j h = absurd (omega arith)
  picks-eq-by_turns (suc (suc n)) true (x ∷ a) (y ∷ b) j h =
      let tie : (ltb j j || nat_beq j j && true) ≡ true = ground arith in
      let behind : (ltb (j + 1) j || nat_beq (j + 1) j && true) ≡ false = ground arith in
      rw tie
        (ap (◌∷◌ x) (turn a behind (λ l le. picks-eq-by_turns n true l b (j + 1) le) (omega arith)))
    where
      turn :
          (l : List A)
          → (ltb (j + 1) j || nat_beq (j + 1) j && true) ≡ false
          → ((u : List A)
              → length u + length b ≤ n
              → picks n true u b (j + 1) (j + 1) ≡ by_turns true u b)
          → length l + length b ≤ n
          → picks (suc n) true l (y ∷ b) (j + 1) j ≡ y ∷ by_turns true l b
      turn [] e later le = ap (◌∷◌ y) (picks-right n true b (j + 1) (j + 1) (omega arith))
      turn (z ∷ l) e later le = rw e (ap (◌∷◌ y) (later (z ∷ l) le))
  picks-eq-by_turns (suc (suc n)) false (x ∷ a) (y ∷ b) j h =
      let tie : (ltb j j || nat_beq j j && false) ≡ false = ground arith in
      let ahead : (ltb j (j + 1) || nat_beq j (j + 1) && false) ≡ true = ground arith in
      rw tie
        (ap (◌∷◌ y) (turn b ahead (λ l le. picks-eq-by_turns n false a l (j + 1) le) (omega arith)))
    where
      turn :
          (l : List A)
          → (ltb j (j + 1) || nat_beq j (j + 1) && false) ≡ true
          → ((u : List A)
              → length a + length u ≤ n
              → picks n false a u (j + 1) (j + 1) ≡ by_turns false a u)
          → length a + length l ≤ n
          → picks (suc n) false (x ∷ a) l j (j + 1) ≡ x ∷ by_turns false a l
      turn [] e later le =
          ap (◌∷◌ x) (picks-left n false a (j + 1) (j + 1) (omega arith) ∙ by_turns_left false a)
      turn (z ∷ l) e later le = rw e (ap (◌∷◌ x) (later (z ∷ l) le))
