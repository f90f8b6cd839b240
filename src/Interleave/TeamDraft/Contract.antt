-- ===== src/Interleave/TeamDraft/Contract.antt =====
-- What `team_draft` promises about the list, the owners of its positions and the coins.
use hybrid_search.Prelude.{
  ◌>>=◌, ℕ, zero, suc, ◌+◌, ◌*◌, ◌≤◌, ◌≡◌, inl, inr, refl, ap, Bool, List, Result, ok, err, Eq,
  >>=-eq-ok, arith, length, Distinct,
}
use hybrid_search.Interleave.TeamDraft.{
  Draft, Team, team_a, team_b, Error, coins_exhausted, index_error, draft_round, draft_loop,
  team_draft, start_draft, advance_both, append_doc, after,
}
use hybrid_search.Interleave.TeamDraft.Rounds.{
  draft_loop_inv, round-Shows, Shows, shows, Round-cases, round_exhausted,
}
use hybrid_search.Interleave.TeamDraft.Counts.{IsCounted, loop-IsCounted, go-IsCounted}
use hybrid_search.Interleave.TeamDraft.Reference.{
  IsSized, go-IsSized, stop-IsSized, round-ne-index_error,
}
use hybrid_search.Interleave.TeamDraft.Rules.{team_size}
use hybrid_search.Interleave.TeamDraft.Outcome.{
  IsFull, IsFair, IsJust, loop-IsFull, loop-IsClean, start-IsClean, go-IsJust, stop-IsJust,
}

module _ {ℓ} {A : Type ℓ} ⦃e : Eq A⦄ where
  grows : (s t : Draft A) → Shows s t → t.ta + t.tb ≡ s.ta + s.tb + 1
  unfolding append_doc advance_both
  grows s t (shows team_a doc rest w cs n same found may eq) =
      let ta = ap (λ (r : Draft A). r.ta) same in
      let tb = ap (λ (r : Draft A). r.tb) same in
      let ta' = ap (λ (r : Draft A). r.ta) eq in
      let tb' = ap (λ (r : Draft A). r.tb) eq in omega arith
  grows s t (shows team_b doc rest w cs n same found may eq) =
      let ta = ap (λ (r : Draft A). r.ta) same in
      let tb = ap (λ (r : Draft A). r.tb) same in
      let ta' = ap (λ (r : Draft A). r.ta) eq in
      let tb' = ap (λ (r : Draft A). r.tb) eq in omega arith

  loop_returns :
      (total n : ℕ) (s : Draft A)
      → IsCounted total s
      → s.ta + s.tb + n ≤ 2 * total
      → (t : Draft A) × (draft_loop n s ≡ ok t)
  unfolding draft_loop after
  loop_returns total zero s v h = (s, refl)
  loop_returns total (suc n) s v h = elim (Round-cases (draft_round s)) [
    | inl (t, r) ↦ (t, rw r refl)
    | inr (inl (t, r)) ↦
        let grown = grows s t (round-Shows s r) in
        rw r (loop_returns total n t (go-IsCounted total s t v r) (omega arith))
    | inr (inr (coins_exhausted, r)) ↦
        let (none_left, tie) = round_exhausted s r in
        let no_coins = ap (length {A = Bool}) none_left in absurd (omega (arith, v.even_coins tie))
    | inr (inr (index_error, r)) ↦ absurd (round-ne-index_error s r)
  ]

module _ {ℓ} {A : Type ℓ} ⦃e : Eq A⦄ (a b : List A) where
  -- The list is without repetition, each position has an owner, and a coin is spent on at most
  -- every other position.
  pub record IsPage (k : ℕ) (coins : List Bool) (out : List A) (teams : List Team) (used : ℕ)
      : Type ℓ where
    pub distinct : Distinct out
    pub at_most : length out ≤ k
    pub owned : length teams ≡ length out
    pub coins_used : used ≤ length coins
    pub few_coins : 2 * used ≤ length out + 1

  pub returned_by :
      (k : ℕ) (coins : List Bool) {out : List A} {teams : List Team} {used : ℕ}
      → team_draft a b k coins ≡ ok (out, teams, used)
      → (s : Draft A) × (draft_loop k (start_draft a b coins) ≡ ok s)
        × (s.out ≡ out)
        × (s.teams ≡ teams)
        × (s.used ≡ used)
  unfolding team_draft
  returned_by k coins h =
      let (s, run, eq) = >>=-eq-ok (draft_loop k (start_draft a b coins)) _ h in
      (s, run, cc, cc, cc)

  start-IsCounted : (coins : List Bool) → IsCounted (length coins) (start_draft a b coins)
  start-IsCounted coins = omega arith

  -- Every page that `team_draft` returns is without repetition, has at most `k` documents and an
  -- owner for each, and spends at most half as many coins as it has positions, rounded up.
  pub team_draft-IsPage :
      (k : ℕ) (coins : List Bool) {out : List A} {teams : List Team} {used : ℕ}
      → team_draft a b k coins ≡ ok (out, teams, used)
      → IsPage k coins out teams used
  team_draft-IsPage k coins {out} {teams} {used} h =
      let (s, run, out_eq, teams_eq, used_eq) = returned_by k coins h in
      let clean = loop-IsClean a b k (start_draft a b coins) s run (start-IsClean a b coins) in
      let counted =
        loop-IsCounted (length coins) k (start_draft a b coins) s run (start-IsCounted coins) in
      let full =
        loop-IsFull a b k k (start_draft a b coins) s (start-IsClean a b coins) (omega arith) run in
      record {
        distinct = rw (← out_eq) clean.distinct;
        at_most = rw (← out_eq) (omega arith);
        owned = rw (← out_eq, ← teams_eq) (omega arith);
        coins_used = rw (← used_eq) (omega arith);
        few_coins = rw (← out_eq, ← used_eq) (omega arith);
      }

  -- The page is filled to `k`, or it shows every document of both rankings.
  pub team_draft-IsFull :
      (k : ℕ) (coins : List Bool) {out : List A} {teams : List Team} {used : ℕ}
      → team_draft a b k coins ≡ ok (out, teams, used)
      → IsFull a b k out
  team_draft-IsFull k coins h =
      let (s, run, out_eq, teams_eq, used_eq) = returned_by k coins h in
      rw (← out_eq)
        (loop-IsFull a b k k (start_draft a b coins) s (start-IsClean a b coins) (omega arith) run)

  loop-IsJust : (n : ℕ) (s t : Draft A) → draft_loop n s ≡ ok t → IsJust a b s → IsJust a b t
  loop-IsJust = draft_loop_inv (IsJust a b) (go-IsJust a b) (stop-IsJust a b)

  loop-IsSized : (n : ℕ) (s t : Draft A) → draft_loop n s ≡ ok t → IsSized s → IsSized t
  loop-IsSized = draft_loop_inv IsSized go-IsSized stop-IsSized

  start-IsJust : (coins : List Bool) → IsJust a b (start_draft a b coins)
  start-IsJust coins = record {
    aligned = (start-IsClean a b coins).aligned;
    fair = (inl (omega arith), inl (omega arith));
  }

  -- Neither team owns more than one position more than the other, unless the other team's ranking
  -- has been shown whole.
  pub team_draft-IsFair :
      (k : ℕ) (coins : List Bool) {out : List A} {teams : List Team} {used : ℕ}
      → team_draft a b k coins ≡ ok (out, teams, used)
      → IsFair a b (team_size team_a teams) (team_size team_b teams) out
  team_draft-IsFair k coins h =
      let (s, run, out_eq, teams_eq, used_eq) = returned_by k coins h in
      let just = loop-IsJust k (start_draft a b coins) s run (start-IsJust coins) in
      let sized =
        loop-IsSized k (start_draft a b coins) s run (record { size_a = refl; size_b = refl }) in
      rw (← out_eq, ← teams_eq, ← sized.size_a, ← sized.size_b) just.fair

  -- With a coin for every other position, `team_draft` returns: it neither runs out of coins nor
  -- reads past the end of a ranking.
  pub team_draft_returns :
      (k : ℕ) (coins : List Bool)
      → k ≤ 2 * length coins
      → (r : List A × List Team × ℕ) × (team_draft a b k coins ≡ ok r)
  team_draft_returns k coins h =
      let (s, run) =
        loop_returns (length coins) k (start_draft a b coins) (start-IsCounted coins)
          (omega arith) in
      ((s.out, s.teams, s.used), returns_from s run)
    where
      returns_from :
          (s : Draft A)
          → draft_loop k (start_draft a b coins) ≡ ok s
          → team_draft a b k coins ≡ ok (s.out, s.teams, s.used)
      returns_from s run = unfold team_draft in rw run refl

  loop-ne-index_error : (n : ℕ) (s : Draft A) → draft_loop n s ≡ err index_error → ⊥
  unfolding draft_loop
  loop-ne-index_error zero s h = cc
  loop-ne-index_error (suc n) s h = elim (Round-cases (draft_round s)) [
    | inl (t, r) ↦ cc (rw r at h)
    | inr (inl (t, r)) ↦ loop-ne-index_error n t (rw r at h)
    | inr (inr (coins_exhausted, r)) ↦ cc (rw r at h)
    | inr (inr (index_error, r)) ↦ round-ne-index_error s r
  ]

  pub team_draft-ne-index_error :
      (k : ℕ) (coins : List Bool) → team_draft a b k coins ≡ err index_error → ⊥
  unfolding team_draft
  team_draft-ne-index_error k coins h =
      loop-ne-index_error k (start_draft a b coins)
        (raised_by (draft_loop k (start_draft a b coins)) h)
    where
      raised_by :
          (r : Result Error (Draft A))
          → ◌>>=◌ {B = List A × List Team × ℕ} r (λ s. ok (s.out, s.teams, s.used))
            ≡ err index_error
          → r ≡ err index_error
      raised_by (ok s) h = cc
      raised_by (err y) h = cc
