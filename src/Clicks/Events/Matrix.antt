-- ===== src/Clicks/Events/Matrix.antt =====
-- `click_matrix` of py/hybridsearch/clicks/events.py.
use hybrid_search.Prelude.{
  ℕ, zero, suc, ◌-◌, ◌≤◌, ◌≡◌, refl, Bool, true, false, ◌&&◌, ◌||◌, List, [], ◌∷◌, none, some,
  arith, if◌then◌else◌, Bool-cases, inl, inr, contains, nat_beq, nat_eq, ltb, leb, get_elem?,
  replicate, ◌∙◌,
}
use hybrid_search.Clicks.Events.Pages.{set_true, click_row}

set_true_elem :
    (i : ℕ) (row : List Bool) (j : ℕ)
    → get_elem? (set_true i row) j ≡ (
        if nat_beq j i
        then (elim (get_elem? row j) [ none ↦ none | some b ↦ some true ])
        else get_elem? row j)
set_true_elem i [] j = ground arith
set_true_elem zero (b ∷ row) zero = refl
set_true_elem zero (b ∷ row) (suc j) = ground arith
set_true_elem (suc i) (b ∷ row) zero = ground arith
set_true_elem (suc i) (b ∷ row) (suc j) = ground (arith, set_true_elem i row j)

replicate_elem :
    (k j : ℕ) → get_elem? (replicate k false) j ≡ (if ltb j k then some false else none)
replicate_elem zero j = ground arith
replicate_elem (suc k) zero = ground arith
replicate_elem (suc k) (suc j) = ground (arith, replicate_elem k j)

-- A cell is true after the loop if it was before, or its rank is among the clicked ones.
click_row_elem :
    (k : ℕ) (ranks : List ℕ) (row : List Bool) (j : ℕ) (b : Bool)
    → suc j ≤ k
    → get_elem? row j ≡ some b
    → get_elem? (click_row k ranks row) j ≡ some (contains ranks (suc j) || b)
unfolding click_row
click_row_elem k [] row j b h e = e
click_row_elem k (r ∷ ranks) row j b h e = elim (Bool-cases (leb 1 r && leb r k)) [
  | inl p ↦ rw p (
      click_row_elem k ranks (set_true (r - 1) row) j (nat_beq (suc j) r || b) h
        (ground (arith, set_true_elem (r - 1) row j))
      ∙ ground arith)
  | inr p ↦ rw p (click_row_elem k ranks row j b h e ∙ ground arith)
]

-- The row of a page has, for each of the ranks from 1 to `k`, whether it was clicked. Clicks at
-- other ranks do not count.
click_row_lem :
    (k : ℕ) (ranks : List ℕ) (j : ℕ)
    → suc j ≤ k
    → get_elem? (click_row k ranks (replicate k false)) j ≡ some (contains ranks (suc j))
click_row_lem k ranks j h =
    click_row_elem k ranks (replicate k false) j false h (replicate_elem k j ∙ ground arith)
    ∙ ground arith
