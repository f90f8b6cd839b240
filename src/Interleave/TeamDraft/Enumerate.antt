-- ===== src/Interleave/TeamDraft/Enumerate.antt =====
-- `enumerate_team_draft` of py/hybridsearch/clicks/interleave.py: every outcome with its probability.
-- The probability `0.5 ** used` is kept as its exponent. The recursion takes fuel, and one call for
-- each coin of the longest prefix is enough.
use hybrid_search.Prelude.{
  ℕ, zero, suc, ◌+◌, ◌*◌, ◌-◌, ◌^◌, ◌≤◌, ◌<◌, ◌≡◌, refl, Bool, true, false, List, [], ◌∷◌, ◌++◌,
  Result, ok, err, Eq, arith, ◌>>=◌, length, inl, inr, ◌⊎◌, All, All-append, length-append,
}
use native.Mathlib.Decide.{dec_le}
use native.Mathlib.Nat.{pow-suc, zero-add}
use hybrid_search.Interleave.TeamDraft.{
  Draft, Team, Error, coins_exhausted, index_error, draft_loop, team_draft, start_draft,
}
use hybrid_search.Interleave.TeamDraft.Contract.{
  team_draft-IsPage, returned_by, team_draft_returns, team_draft-ne-index_error,
}
use hybrid_search.Interleave.TeamDraft.Coins.{loop-with_coin}

pub data Enumeration {ℓ} (A : Type ℓ) : Type ℓ where
  outcomes : List (List A × List Team × ℕ) → Enumeration A
  raised : Error → Enumeration A
  out_of_fuel : Enumeration A

-- The results of one call, then those of the next.
both_results {ℓ} : {A : Type ℓ} → Enumeration A → Enumeration A → Enumeration A
both_results (outcomes l) (outcomes r) = outcomes (l ++ r)
both_results (outcomes l) r = r
both_results l r = l

-- What `rec` does with the outcome for its prefix: append it, or call itself twice.
branch {ℓ} :
    {A : Type ℓ}
    → (List Bool → Enumeration A)
    → List Bool
    → Result Error (List A × List Team × ℕ)
    → Enumeration A
unfolding both_results
branch rest prefix (ok r) = outcomes (r ∷ [])
branch rest prefix (err coins_exhausted) =
    both_results (rest (prefix ++ true ∷ [])) (rest (prefix ++ false ∷ []))
branch rest prefix (err index_error) = raised index_error

module _ {ℓ} {A : Type ℓ} ⦃e : Eq A⦄ (a b : List A) (k : ℕ) where
  -- `rec(prefix)`
  enumerate_rec : ℕ → List Bool → Enumeration A
  unfolding branch
  enumerate_rec zero prefix = out_of_fuel
  enumerate_rec (suc fuel) prefix = branch (enumerate_rec fuel) prefix (team_draft a b k prefix)

  -- `rec(())`; a page of `k` documents spends at most `k` coins.
  unfoldable pub enumerate_team_draft : Enumeration A
  unfolding enumerate_rec
  enumerate_team_draft = enumerate_rec (suc k) []

-- The outcomes' probabilities `0.5 ** used`, added up in units of `0.5 ** d`.
unfoldable pub total_mass {ℓ} : {A : Type ℓ} → ℕ → List (List A × List Team × ℕ) → ℕ
total_mass d [] = 0
total_mass d ((out, teams, used) ∷ l) = 2 ^ (d - used) + total_mass d l

module _ {ℓ} {A : Type ℓ} where
  total_mass-append :
      (d : ℕ) (l r : List (List A × List Team × ℕ))
      → total_mass d (l ++ r) ≡ total_mass d l + total_mass d r
  unfolding total_mass
  total_mass-append d [] r = omega arith
  total_mass-append d ((out, teams, used) ∷ l) r = omega (arith, total_mass-append d l r)

  both_results-eq :
      (x y : Enumeration A) {l : List (List A × List Team × ℕ)}
      → both_results x y ≡ outcomes l
      → (r : List (List A × List Team × ℕ)) × (r' : List (List A × List Team × ℕ)) × (x
          ≡ outcomes r)
        × (y ≡ outcomes r')
        × (l ≡ r ++ r')
  unfolding both_results
  both_results-eq (outcomes r) (outcomes r') h = (r, r', refl, refl, cc)
  both_results-eq (outcomes r) (raised x) h = cc
  both_results-eq (outcomes r) out_of_fuel h = cc
  both_results-eq (raised x) y h = cc
  both_results-eq out_of_fuel y h = cc

  bind_raises :
      (r : Result Error (Draft A)) {x : Error}
      → ◌>>=◌ {B = List A × List Team × ℕ} r (λ s. ok (s.out, s.teams, s.used)) ≡ err x
      → r ≡ err x
  bind_raises (ok s) h = cc
  bind_raises (err y) h = cc

  leaf_mass :
      (out : List A) (teams : List Team) (used n fuel : ℕ)
      → used ≡ n
      → total_mass (n + suc fuel) ((out, teams, used) ∷ []) ≡ 2 ^ suc fuel
  unfolding total_mass
  leaf_mass out teams used n fuel h =
      let d : n + suc fuel - used ≡ suc fuel = omega arith in rw d (omega arith)

  node_mass :
      (n fuel : ℕ) (r r' : List (List A × List Team × ℕ))
      → total_mass (n + 1 + fuel) r ≡ 2 ^ fuel
      → total_mass (n + 1 + fuel) r' ≡ 2 ^ fuel
      → total_mass (n + suc fuel) r + total_mass (n + suc fuel) r' ≡ 2 ^ suc fuel
  node_mass n fuel r r' h h' =
      let d : n + suc fuel ≡ n + 1 + fuel = omega arith in rw (d, h, h', pow-suc) (omega arith)

module _ {ℓ} {A : Type ℓ} ⦃e : Eq A⦄ (a b : List A) (k : ℕ) where
  -- Every coin of the prefix is spent by a page that is returned for it.
  abbrev SpendsAll : List Bool → Type ℓ
  SpendsAll prefix =
      (r : List A × List Team × ℕ) → team_draft a b k prefix ≡ ok r → r.2 ≡ length prefix

  Draft-cases :
      (x : Result Error (List A × List Team × ℕ))
      → ((r : List A × List Team × ℕ) × (x ≡ ok r))
        ⊎ (x ≡ err coins_exhausted)
        ⊎ (x ≡ err index_error)
  Draft-cases (ok r) = inl (r, refl)
  Draft-cases (err coins_exhausted) = inr (inl refl)
  Draft-cases (err index_error) = inr (inr refl)

  -- A prefix that is too short for the page has less than half as many coins as positions.
  needs_more :
      (prefix : List Bool) → team_draft a b k prefix ≡ err coins_exhausted → 2 * length prefix < k
  needs_more prefix h = elim (dec_le k (2 * length prefix)) [
    | yes enough ↦ let (r, eq) = team_draft_returns a b k prefix enough in cc
    | no short ↦ omega arith
  ]

  SpendsAll-nil : SpendsAll []
  SpendsAll-nil (out, teams, used) h = let v = team_draft-IsPage a b k [] h in omega arith

  SpendsAll-snoc :
      (prefix : List Bool) (c : Bool)
      → team_draft a b k prefix ≡ err coins_exhausted
      → SpendsAll (prefix ++ c ∷ [])
  SpendsAll-snoc prefix c h (out, teams, used) h' =
      let (s, run, out_eq, teams_eq, same) = returned_by a b k (prefix ++ c ∷ []) h' in
      let lacking =
        bind_raises (draft_loop k (start_draft a b prefix)) {x = coins_exhausted}
          (unfold team_draft in h) in
      let spent =
        loop-with_coin c (length prefix) k (start_draft a b prefix) s (omega arith) lacking run in
      rw (length-append prefix (c ∷ [])) (omega arith)

  -- The outcomes below a prefix share its probability among them.
  mass_below :
      (fuel : ℕ) (prefix : List Bool) (l : List (List A × List Team × ℕ))
      → SpendsAll prefix
      → enumerate_rec a b k fuel prefix ≡ outcomes l
      → total_mass (length prefix + fuel) l ≡ 2 ^ fuel
  unfolding enumerate_rec
  mass_below zero prefix l all h = cc
  mass_below (suc fuel) prefix l all h = elim (Draft-cases (team_draft a b k prefix)) [
    | inl ((out, teams, used), eq) ↦
        let one : l ≡ (out, teams, used) ∷ [] = cc (rw eq at h) in
        let spent = all (out, teams, used) eq in
        rw one (leaf_mass out teams used (length prefix) fuel spent)
    | inr (inl eq) ↦
        let (r, r', left, right, both) =
          both_results-eq (enumerate_rec a b k fuel (prefix ++ true ∷ []))
            (enumerate_rec a b k fuel (prefix ++ false ∷ [])) (rw eq at h) in
        let m = mass_below fuel (prefix ++ true ∷ []) r (SpendsAll-snoc prefix true eq) left in
        let m' = mass_below fuel (prefix ++ false ∷ []) r' (SpendsAll-snoc prefix false eq) right in
        rw (both, total_mass-append (length prefix + suc fuel) r r')
          (node_mass (length prefix) fuel r r' (rw (length-append prefix (true ∷ [])) at m)
            (rw (length-append prefix (false ∷ [])) at m'))
    | inr (inr eq) ↦ cc (rw eq at h)
  ]

  -- With fuel for the longest prefix the recursion returns.
  enumerate_rec_returns :
      (fuel : ℕ) (prefix : List Bool)
      → 2 * length prefix < k + 2
      → k + 2 ≤ 2 * (length prefix + fuel)
      → (l : List (List A × List Team × ℕ)) × (enumerate_rec a b k fuel prefix ≡ outcomes l)
  unfolding enumerate_rec
  enumerate_rec_returns zero prefix short fits = absurd (omega arith)
  enumerate_rec_returns (suc fuel) prefix short fits =
      elim (Draft-cases (team_draft a b k prefix)) [
        | inl (r, eq) ↦ (r ∷ [], rw eq refl)
        | inr (inl eq) ↦
            let short' : 2 * length prefix < k = needs_more prefix eq in
            let (l, left) =
              enumerate_rec_returns fuel (prefix ++ true ∷ [])
                (omega (arith, length-append prefix (true ∷ [])))
                (omega (arith, length-append prefix (true ∷ []))) in
            let (r, right) =
              enumerate_rec_returns fuel (prefix ++ false ∷ [])
                (omega (arith, length-append prefix (false ∷ [])))
                (omega (arith, length-append prefix (false ∷ []))) in
            (l ++ r, rw (eq, left, right) refl)
        | inr (inr eq) ↦ absurd (team_draft-ne-index_error a b k prefix eq)
      ]

  -- Every outcome is what `team_draft` returns for some coins.
  abbrev pub IsOutcome : List A × List Team × ℕ → Type ℓ
  IsOutcome r = (coins : List Bool) × (team_draft a b k coins ≡ ok r)

  outcomes_below :
      (fuel : ℕ) (prefix : List Bool) (l : List (List A × List Team × ℕ))
      → enumerate_rec a b k fuel prefix ≡ outcomes l
      → All IsOutcome l
  unfolding enumerate_rec
  outcomes_below zero prefix l h = cc
  outcomes_below (suc fuel) prefix l h = elim (Draft-cases (team_draft a b k prefix)) [
    | inl (r, eq) ↦ let one : l ≡ r ∷ [] = cc (rw eq at h) in rw one ((prefix, eq), tt)
    | inr (inl eq) ↦
        let (r, r', left, right, both) =
          both_results-eq (enumerate_rec a b k fuel (prefix ++ true ∷ []))
            (enumerate_rec a b k fuel (prefix ++ false ∷ [])) (rw eq at h) in
        rw both (
          All-append IsOutcome r r' (outcomes_below fuel (prefix ++ true ∷ []) r left)
            (outcomes_below fuel (prefix ++ false ∷ []) r' right))
    | inr (inr eq) ↦ cc (rw eq at h)
  ]

  -- `enumerate_team_draft` returns; each outcome that it lists is what `team_draft` gives for some
  -- coins; and the probabilities `0.5 ** used` of all of them add up to exactly 1, here in units of
  -- `0.5 ** (k + 1)`.
  pub enumerate_team_draft_lem :
      (l : List (List A × List Team × ℕ)) × (enumerate_team_draft a b k ≡ outcomes l)
      × All IsOutcome l
      × (total_mass (suc k) l ≡ 2 ^ suc k)
  unfolding enumerate_team_draft
  enumerate_team_draft_lem =
      let (l, eq) = enumerate_rec_returns (suc k) [] (omega arith) (omega arith) in
      (
        l,
        eq,
        outcomes_below (suc k) [] l eq,
        (let m = mass_below (suc k) [] l SpendsAll-nil eq in rw zero-add at m),
      )
