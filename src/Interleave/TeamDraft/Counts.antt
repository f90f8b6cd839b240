-- ===== src/Interleave/TeamDraft/Counts.antt =====
-- `team_draft`: the sizes, the coins and the balance of the teams.
use hybrid_search.Prelude.{
  sym, ℕ, ◌+◌, ◌*◌, ◌≤◌, ◌≡◌, ◌≢◌, Bool, [], ◌∷◌, ok, Eq, length, length-append, arith, subst,
}
use hybrid_search.Interleave.TeamDraft.{
  append_doc, Draft, stop, go, Team, team_a, team_b, draft_round, draft_loop, choose, advance_both,
  settle,
}
use hybrid_search.Interleave.TeamDraft.Rounds.{
  place-eq-go, round-eq-go, round-eq-stop, draft_loop_inv,
}

pub record IsCounted {ℓ} {A : Type ℓ} (total : ℕ) (s : Draft A) : Type 0 where
  pub out_size : length s.out ≡ s.ta + s.tb
  pub teams_size : length s.teams ≡ s.ta + s.tb
  pub coins_left : s.used + length s.coins ≡ total
  pub few_coins : 2 * s.used ≤ s.ta + s.tb + 1
  pub even_coins : s.ta ≡ s.tb → 2 * s.used ≤ s.ta + s.tb

-- Between the choice of a team and the document: one more coin may be spent.
record IsChosen {ℓ} {A : Type ℓ} (total : ℕ) (s : Draft A) : Type 0 where
  out_size : length s.out ≡ s.ta + s.tb
  teams_size : length s.teams ≡ s.ta + s.tb
  coins_left : s.used + length s.coins ≡ total
  few_coins : 2 * s.used ≤ s.ta + s.tb + 2
  odd_coins : s.ta ≢ s.tb → 2 * s.used ≤ s.ta + s.tb + 1

module _ {ℓ} {A : Type ℓ} (total : ℕ) where
  choose-IsChosen :
      (s t : Draft A) (p : Bool) → IsCounted total s → choose s ≡ ok (p, t) → IsChosen total t
  unfolding choose
  choose-IsChosen s t p v h = ground arith

  append_doc-IsCounted :
      (team : Team) (doc : A) (s : Draft A)
      → IsChosen total s
      → IsCounted total (append_doc team doc s)
  unfolding append_doc
  append_doc-IsCounted team_a doc s v =
      ground (arith, length-append s.out (doc ∷ []), length-append s.teams (team_a ∷ []))
  append_doc-IsCounted team_b doc s v =
      ground (arith, length-append s.out (doc ∷ []), length-append s.teams (team_b ∷ []))

module _ {ℓ} {A : Type ℓ} ⦃e : Eq A⦄ (total : ℕ) where
  advance_both-IsCounted : (s : Draft A) → IsCounted total s → IsCounted total (advance_both s)
  unfolding advance_both
  advance_both-IsCounted s v = record {
    out_size = v.out_size;
    teams_size = v.teams_size;
    coins_left = v.coins_left;
    few_coins = v.few_coins;
    even_coins = v.even_coins;
  }

  pub go-IsCounted : (s t : Draft A) → IsCounted total s → draft_round s ≡ go t → IsCounted total t
  go-IsCounted s t v h =
      let (p, u, chosen, placed) = round-eq-go s h in
      let (team, doc, rest, own, first, e) = place-eq-go (settle p u) u placed in
      let w = choose-IsChosen total (advance_both s) u p (advance_both-IsCounted s v) chosen in
      subst (IsCounted total) (sym e) (append_doc-IsCounted total team doc u w)

  pub stop-IsCounted :
      (s t : Draft A) → IsCounted total s → draft_round s ≡ stop t → IsCounted total t
  stop-IsCounted s t v h =
      subst (IsCounted total) (sym (round-eq-stop s h).0) (advance_both-IsCounted s v)

  pub loop-IsCounted :
      (n : ℕ) (s t : Draft A) → draft_loop n s ≡ ok t → IsCounted total s → IsCounted total t
  loop-IsCounted = draft_loop_inv (IsCounted total) go-IsCounted stop-IsCounted
