-- ===== src/Interleave/Balanced.antt =====
-- Balanced interleaving, `balanced` and `balanced_credit` of py/hybridsearch/clicks/interleave.py.
-- `ka` and `kb` are cursors: the model keeps `a[ka:]` and `b[kb:]` beside them. Each round of the
-- `while` moves one cursor, so `len(a) + len(b)` rounds are enough.
pub mod Merged
pub mod Level
pub mod Laws
pub mod Order
pub mod Turns
pub mod Credit
use hybrid_search.Prelude.{
  ℕ, zero, suc, ◌+◌, Bool, true, false, ◌&&◌, ◌||◌, List, [], ◌∷◌, ◌++◌, Eq, ltb, nat_beq, contains,
  if◌then◌else◌, length,
}
use hybrid_search.Interleave.TeamDraft.{is_empty}

pub record Merge {ℓ} (A : Type ℓ) : Type ℓ where
  pub a : List A
  pub b : List A
  pub ka : ℕ
  pub kb : ℕ
  pub out : List A
  pub seen : List A

module _ {ℓ} {A : Type ℓ} where
  -- `take_a`: the cursor that lags moves, the first ranking's at a tie; a used-up ranking waits.
  unfoldable pub takes_a : Bool → Merge A → Bool
  takes_a a_first s =
      if is_empty s.a
      then false
      else if is_empty s.b
      then true
      else ltb s.ka s.kb || nat_beq s.ka s.kb && a_first

module _ {ℓ} {A : Type ℓ} ⦃e : Eq A⦄ where
  -- `if d not in seen: out.append(d); seen.add(d)`
  unfoldable pub show_doc : A → Merge A → Merge A
  show_doc d s =
      if contains s.seen d then s else record s { out = s.out ++ d ∷ []; seen = d ∷ s.seen }

  move_a : List A → Merge A → Merge A
  move_a [] s = s
  move_a (d ∷ rest) s = show_doc d (record s { a = rest; ka = s.ka + 1 })

  move_b : List A → Merge A → Merge A
  move_b [] s = s
  move_b (d ∷ rest) s = show_doc d (record s { b = rest; kb = s.kb + 1 })

  unfoldable pub merge_round : Bool → Merge A → Merge A
  unfolding takes_a show_doc move_a move_b
  merge_round a_first s = if takes_a a_first s then move_a s.a s else move_b s.b s

  -- `len(out) < k and (ka < len(a) or kb < len(b))`
  unfoldable pub goes_on : ℕ → Merge A → Bool
  goes_on k s =
      ltb (length s.out) k
      && (if is_empty s.a then (if is_empty s.b then false else true) else true)

  unfoldable pub merge_loop : ℕ → ℕ → Bool → Merge A → Merge A
  unfolding merge_round goes_on
  merge_loop zero k a_first s = s
  merge_loop (suc n) k a_first s =
      let rest = merge_loop n k a_first (merge_round a_first s) in if goes_on k s then rest else s

  abbrev pub start_merge : List A → List A → Merge A
  start_merge a b = record { a = a; b = b; ka = 0; kb = 0; out = []; seen = [] }

  unfoldable pub balanced : List A → List A → ℕ → Bool → List A
  unfolding merge_loop
  balanced a b k a_first = (merge_loop (length a + length b) k a_first (start_merge a b)).out
