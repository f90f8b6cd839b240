-- ===== src/Interleave/TeamDraft/Rounds.antt =====
-- What a round of `team_draft` and its loop can do: the cases that the proofs split on.
use hybrid_search.Prelude.{
  ◌≤◌, Bool-cases, ◌&&◌, ℕ, zero, suc, ◌≡◌, ◌⊎◌, inl, inr, refl, Bool, true, false, List, [], ◌∷◌,
  Result, ok, err, Eq, arith, subst,
}
use hybrid_search.Interleave.TeamDraft.{
  coins_exhausted, append_doc, pick_from, after, Draft, Round, stop, go, fail, Team, team_a, team_b,
  draft_round, draft_loop, Error, choose, take_turn, advance_both, settle, place, is_empty,
}

module _ {ℓ} {A : Type ℓ} where
  pub after-eq-ok :
      (rest : Draft A → Result Error (Draft A)) (r : Round A) {t : Draft A}
      → after rest r ≡ ok t
      → (r ≡ stop t) ⊎ ((u : Draft A) × (r ≡ go u) × (rest u ≡ ok t))
  unfolding after
  after-eq-ok rest (stop u) h = inl (cc)
  after-eq-ok rest (go u) h = inr (u, refl, h)
  after-eq-ok rest (fail x) h = cc

module _ {ℓ κ} {A : Type ℓ} ⦃e : Eq A⦄ (P : Draft A → Type κ) where
  -- What every round keeps, the end of the loop has.
  pub draft_loop_inv :
      ((s t : Draft A) → P s → draft_round s ≡ go t → P t)
      → ((s t : Draft A) → P s → draft_round s ≡ stop t → P t)
      → (n : ℕ) (s t : Draft A) → draft_loop n s ≡ ok t
      → P s
      → P t
  unfolding draft_loop
  draft_loop_inv keep ends zero s t h p = subst P (cc) p
  draft_loop_inv keep ends (suc n) s t h p = elim (after-eq-ok (draft_loop n) (draft_round s) h) [
    | inl r ↦ ends s t p r
    | inr (u, r, more) ↦ draft_loop_inv keep ends n u t more (keep s u p r)
  ]

abbrev pub is_a : Team → Bool
is_a team_a = true
is_a team_b = false

-- The ranking that a team picks from, from its cursor on.
abbrev pub ranking_of {ℓ} : {A : Type ℓ} → Team → Draft A → List A
ranking_of team_a s = s.a
ranking_of team_b s = s.b

module _ {ℓ} {A : Type ℓ} where
  pick_from-eq-go :
      (team : Team) (l : List A) (s : Draft A) {t : Draft A}
      → pick_from team l s ≡ go t
      → (doc : A) × (rest : List A) × (l ≡ doc ∷ rest) × (t ≡ append_doc team doc s)
  unfolding pick_from
  pick_from-eq-go team [] s h = cc
  pick_from-eq-go team (doc ∷ rest) s h = (doc, rest, refl, cc)

  pick_from-ne-stop :
      (team : Team) (l : List A) (s : Draft A) {t : Draft A} → pick_from team l s ≡ stop t → ⊥
  unfolding pick_from
  pick_from-ne-stop team [] s h = cc
  pick_from-ne-stop team (doc ∷ rest) s h = cc

  pub place-eq-go :
      (p : Bool) (s : Draft A) {t : Draft A}
      → place p s ≡ go t
      → (team : Team) × (doc : A) × (rest : List A) × (p ≡ is_a team)
        × (ranking_of team s ≡ doc ∷ rest)
        × (t ≡ append_doc team doc s)
  unfolding place
  place-eq-go true s h =
      let (doc, rest, first, e) = pick_from-eq-go team_a s.a s h in
      (team_a, doc, rest, refl, first, e)
  place-eq-go false s h =
      let (doc, rest, first, e) = pick_from-eq-go team_b s.b s h in
      (team_b, doc, rest, refl, first, e)

  place-ne-stop : (p : Bool) (s : Draft A) {t : Draft A} → place p s ≡ stop t → ⊥
  unfolding place
  place-ne-stop true s h = pick_from-ne-stop team_a s.a s h
  place-ne-stop false s h = pick_from-ne-stop team_b s.b s h

  take_turn-eq-go :
      (r : Result Error (Bool × Draft A)) {t : Draft A}
      → take_turn r ≡ go t
      → (p : Bool) × (u : Draft A) × (r ≡ ok (p, u)) × (place (settle p u) u ≡ go t)
  unfolding take_turn
  take_turn-eq-go (ok (p, u)) h = (p, u, refl, h)
  take_turn-eq-go (err x) h = cc

  take_turn-ne-stop : (r : Result Error (Bool × Draft A)) {t : Draft A} → take_turn r ≡ stop t → ⊥
  unfolding take_turn
  take_turn-ne-stop (ok (p, u)) h = place-ne-stop (settle p u) u h
  take_turn-ne-stop (err x) h = cc

  -- The choice of a team spends at most a coin and changes nothing else.
  pub choose-eq-ok :
      (s : Draft A) {p : Bool} {t : Draft A}
      → choose s ≡ ok (p, t)
      → (cs : List Bool) × (n : ℕ) × (t ≡ record s { coins = cs; used = n })
  unfolding choose
  choose-eq-ok s {t} h = (t.coins, t.used, ground arith)

module _ {ℓ} {A : Type ℓ} ⦃e : Eq A⦄ (s : Draft A) {t : Draft A} where
  -- A round that goes on has chosen a team and placed a document.
  pub round-eq-go :
      draft_round s ≡ go t
      → (p : Bool) × (u : Draft A) × (choose (advance_both s) ≡ ok (p, u))
        × (place (settle p u) u ≡ go t)
  unfolding draft_round
  round-eq-go h = take_turn-eq-go (choose (advance_both s)) (ground arith)

  -- The loop breaks only if both rankings are used up.
  pub round-eq-stop :
      draft_round s ≡ stop t → (t ≡ advance_both s) × (is_empty t.a ≡ true) × (is_empty t.b ≡ true)
  unfolding draft_round
  round-eq-stop h = elim (Bool-cases (is_empty (advance_both s).a && is_empty (advance_both s).b)) [
    | inl stopped ↦ ground (arith)
    | inr more ↦ absurd (take_turn-ne-stop (choose (advance_both s)) (rw more at h))
  ]

-- Whose turn it may be: the smaller team's, either team's at a tie, or the one with documents left.
abbrev pub MayPick {ℓ} : {A : Type ℓ} → Team → Draft A → Type ℓ
MayPick team_a s = (s.ta ≤ s.tb) ⊎ (s.b ≡ [])
MayPick team_b s = (s.tb ≤ s.ta) ⊎ (s.a ≡ [])

module _ {ℓ} {A : Type ℓ} where
  choose-turn :
      (s : Draft A) (p : Bool) {t : Draft A}
      → choose s ≡ ok (p, t)
      → (p ≡ true → t.ta ≤ t.tb) × (p ≡ false → t.tb ≤ t.ta)
  unfolding choose
  choose-turn s p h = ground arith

  pub is_empty→nil : (l : List A) → is_empty l ≡ true → l ≡ []
  is_empty→nil [] h = refl
  is_empty→nil (x ∷ l) h = cc

  settle-turn :
      (p : Bool) (s : Draft A) (team : Team)
      → (p ≡ true → s.ta ≤ s.tb) × (p ≡ false → s.tb ≤ s.ta)
      → settle p s ≡ is_a team
      → MayPick team s
  unfolding settle
  settle-turn true s team_a h eq = inl (h.0 refl)
  settle-turn true s team_b h eq = inr (is_empty→nil s.a (ground arith))
  settle-turn false s team_a h eq = inr (is_empty→nil s.b (ground arith))
  settle-turn false s team_b h eq = inl (h.1 refl)

-- A round that goes on: a team that may pick shows the first document of its ranking.
pub data Shows {ℓ} {A : Type ℓ} ⦃e : Eq A⦄ (s t : Draft A) : Type ℓ where
  shows :
      (team : Team) (doc : A) (rest : List A) (w : Draft A) (cs : List Bool) (n : ℕ)
      → w ≡ record (advance_both s) { coins = cs; used = n }
      → ranking_of team w ≡ doc ∷ rest
      → MayPick team w
      → t ≡ append_doc team doc w
      → Shows s t

pub round-Shows {ℓ} :
    {A : Type ℓ} ⦃e : Eq A⦄ (s : Draft A) {t : Draft A} → draft_round s ≡ go t → Shows s t
round-Shows s h =
    let (p, u, chosen, placed) = round-eq-go s h in
    let (team, doc, rest, own, found, eq) = place-eq-go (settle p u) u placed in
    let (cs, n, same) = choose-eq-ok (advance_both s) chosen in
    shows team doc rest u cs n same found
      (settle-turn p u team (choose-turn (advance_both s) p chosen) own) eq

module _ {ℓ} {A : Type ℓ} where
  pub choose_exhausted :
      (s : Draft A) → choose s ≡ err coins_exhausted → (s.coins ≡ []) × (s.ta ≡ s.tb)
  unfolding choose
  choose_exhausted s h = ground arith

  pub place-ne-exhausted : (p : Bool) (s : Draft A) → place p s ≡ fail coins_exhausted → ⊥
  unfolding place
  place-ne-exhausted true s h = ground arith
  place-ne-exhausted false s h = ground arith

  pub take_turn_exhausted :
      (r : Result Error (Bool × Draft A))
      → take_turn r ≡ fail coins_exhausted
      → r ≡ err coins_exhausted
  unfolding take_turn
  take_turn_exhausted (err x) h = cc
  take_turn_exhausted (ok (p, u)) h = absurd (place-ne-exhausted (settle p u) u h)

  pub Round-cases :
      (r : Round A)
      → ((t : Draft A) × (r ≡ stop t)) ⊎ ((t : Draft A) × (r ≡ go t)) ⊎ ((x : Error) × (r ≡ fail x))
  Round-cases (stop t) = inl (t, refl)
  Round-cases (go t) = inr (inl (t, refl))
  Round-cases (fail x) = inr (inr (x, refl))

module _ {ℓ} {A : Type ℓ} ⦃e : Eq A⦄ where
  -- A round runs out of coins only at a tie, with none left.
  pub round_exhausted :
      (s : Draft A) → draft_round s ≡ fail coins_exhausted → (s.coins ≡ []) × (s.ta ≡ s.tb)
  unfolding draft_round
  round_exhausted s h =
      elim (Bool-cases (is_empty (advance_both s).a && is_empty (advance_both s).b)) [
        | inl both ↦ cc (rw both at h)
        | inr more ↦
            unfold advance_both in
            choose_exhausted (advance_both s)
              (take_turn_exhausted (choose (advance_both s)) (rw more at h))
      ]
