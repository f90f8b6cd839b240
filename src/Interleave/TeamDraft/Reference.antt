-- ===== src/Interleave/TeamDraft/Reference.antt =====
-- `team_draft` of interleave.py follows the rules of Rules.antt.
use hybrid_search.Prelude.{
  ℕ, zero, suc, ◌≡◌, inl, inr, refl, sym, ap, Bool, false, ◌&&◌, List, [], ◌∷◌, Result, ok, err, Eq,
  contains, if◌then◌else◌, arith, subst, Bool-cases, ◌>>=◌, tally-append,
}
use hybrid_search.Interleave.TeamDraft.{
  Draft, Round, stop, go, fail, Team, team_a, team_b, Error, coins_exhausted, index_error,
  draft_round, draft_loop, team_draft, start_draft, advance, advance_both, choose, append_doc,
  is_empty, settle, place, after, take_turn,
}
use hybrid_search.Interleave.TeamDraft.Rounds.{
  choose-eq-ok, place-eq-go, round-eq-go, round-eq-stop,
}
use hybrid_search.Interleave.TeamDraft.Cursor.{
  first_unseen, first, first_unseen-Behind, IsAligned, go-IsAligned,
}
use hybrid_search.Interleave.TeamDraft.Rules.{
  decide_team, next_page, reference_round, after_page, reference_loop, reference_draft, is_team,
  team_size, Page, Next, finished, continued, no_coin,
}

module _ {ℓ} {A : Type ℓ} where
  abbrev page_of : Draft A → Page A
  page_of s = record { out = s.out; teams = s.teams; used = s.used; coins = s.coins }

  abbrev next_of : Round A → Next A
  next_of (stop t) = finished
  next_of (go t) = continued (page_of t)
  next_of (fail coins_exhausted) = no_coin
  next_of (fail index_error) = finished

  -- The choice of a team and a document, on cursors that stand on documents not shown yet.
  turn_lem :
      (x y : List A) (s : Draft A)
      → (let u = record s { a = x; b = y } in
          next_of (if is_empty x && is_empty y then stop u else take_turn (choose u))
          ≡ next_page (page_of s) (first x) (first y) (decide_team s.ta s.tb s.coins))
  unfolding next_page decide_team choose take_turn
  turn_lem [] [] s = refl
  turn_lem (x ∷ r) [] s = ground arith
  turn_lem [] (y ∷ r) s = ground arith
  turn_lem (x ∷ r) (y ∷ r') s = ground arith

  choose-ne-index_error : (s : Draft A) → choose s ≡ err index_error → ⊥
  unfolding choose
  choose-ne-index_error s h = ground arith

  -- A turn that is settled reads no ranking past its end.
  place-ne-fail :
      (x y : List A) (s : Draft A) (p : Bool) (bad : Error)
      → (is_empty x && is_empty y) ≡ false
      → (let u = record s { a = x; b = y } in place (settle p u) u ≡ fail bad → ⊥)
  unfolding place settle
  place-ne-fail [] [] s p bad h = cc
  place-ne-fail (x ∷ r) [] s p bad h = λ eq. ground arith
  place-ne-fail [] (y ∷ r) s p bad h = λ eq. ground arith
  place-ne-fail (x ∷ r) (y ∷ r') s p bad h = λ eq. ground arith

  take_turn-ne-index_error :
      (s : Draft A) (r : Result Error (Bool × Draft A))
      → r ≡ choose s
      → (is_empty s.a && is_empty s.b) ≡ false
      → take_turn r ≡ fail index_error
      → ⊥
  unfolding take_turn
  take_turn-ne-index_error s (err coins_exhausted) c h eq = cc
  take_turn-ne-index_error s (err index_error) c h eq = choose-ne-index_error s (sym c)
  take_turn-ne-index_error s (ok (p, u)) c h eq =
      let (cs, n, same) = choose-eq-ok s (sym c) in
      place-ne-fail u.a u.b u p index_error (rw same h) eq

  first_unseen-cong :
      ⦃e : Eq A⦄ (shown shown' l : List A)
      → ((x : A) → contains shown x ≡ contains shown' x)
      → first_unseen shown l ≡ first_unseen shown' l
  unfolding first_unseen
  first_unseen-cong shown shown' [] h = refl
  first_unseen-cong shown shown' (x ∷ l) h = rw (h x, first_unseen-cong shown shown' l h) refl

pub record IsSized {ℓ} {A : Type ℓ} (s : Draft A) : Type 0 where
  pub size_a : s.ta ≡ team_size team_a s.teams
  pub size_b : s.tb ≡ team_size team_b s.teams

module _ {ℓ} {A : Type ℓ} where
  append_doc-IsSized :
      (team : Team) (doc : A) (s : Draft A) → IsSized s → IsSized (append_doc team doc s)
  unfolding append_doc
  append_doc-IsSized team_a doc s v = ground (
    arith,
    tally-append (is_team team_a) s.teams (team_a ∷ []),
    tally-append (is_team team_b) s.teams (team_a ∷ []),
  )
  append_doc-IsSized team_b doc s v = ground (
    arith,
    tally-append (is_team team_a) s.teams (team_b ∷ []),
    tally-append (is_team team_b) s.teams (team_b ∷ []),
  )

module _ {ℓ} {A : Type ℓ} ⦃e : Eq A⦄ where
  advance_both-IsSized :
      (s : Draft A) {cs : List Bool} {n : ℕ}
      → IsSized s
      → IsSized (record (advance_both s) { coins = cs; used = n })
  unfolding advance_both
  advance_both-IsSized s v = record { size_a = v.size_a; size_b = v.size_b }

  -- No round reads a ranking past its end.
  pub round-ne-index_error : (s : Draft A) → draft_round s ≡ fail index_error → ⊥
  unfolding draft_round
  round-ne-index_error s h =
      elim (Bool-cases (is_empty (advance_both s).a && is_empty (advance_both s).b)) [
        | inl both ↦ cc (rw both at h)
        | inr more ↦
            take_turn-ne-index_error (advance_both s) (choose (advance_both s)) refl more
              (rw more at h)
      ]

  pub go-IsSized : (s t : Draft A) → IsSized s → draft_round s ≡ go t → IsSized t
  go-IsSized s t v h =
      let (p, u, chosen, placed) = round-eq-go s h in
      let (team, doc, rest, own, found, eq) = place-eq-go (settle p u) u placed in
      let (cs, n, eq2) = choose-eq-ok (advance_both s) chosen in
      subst IsSized (sym eq)
        (append_doc-IsSized team doc u (subst IsSized (sym eq2) (advance_both-IsSized s v)))

  pub stop-IsSized : (s t : Draft A) → IsSized s → draft_round s ≡ stop t → IsSized t
  unfolding advance_both
  stop-IsSized s t v h =
      subst IsSized (sym (round-eq-stop s h).0) (record { size_a = v.size_a; size_b = v.size_b })

module _ {ℓ} {A : Type ℓ} ⦃e : Eq A⦄ (a b : List A) where
  -- One round, with its cursors and counters, is one step of the documented rules.
  round-eq-reference :
      (s : Draft A)
      → IsAligned a b s
      → IsSized s
      → reference_round a b (page_of s) ≡ next_of (draft_round s)
  unfolding reference_round draft_round advance_both
  round-eq-reference s v w =
      rw
        (
          first_unseen-cong s.out s.seen a (λ x. sym (v.seen_out x)),
          first_unseen-cong s.out s.seen b (λ x. sym (v.seen_out x)),
          first_unseen-Behind s.seen a s.a v.behind_a,
          first_unseen-Behind s.seen b s.b v.behind_b,
          ← w.size_a,
          ← w.size_b,
        )
        (sym (turn_lem (advance s.seen s.a) (advance s.seen s.b) s))

  abbrev paged : Result Error (Draft A) → Result Error (Page A)
  paged (ok s) = ok (page_of s)
  paged (err x) = err x

  after-eq-reference :
      (rest : Draft A → Result Error (Draft A)) (rest' : Page A → Result Error (Page A))
      (s : Draft A) (r : Round A)
      → draft_round s ≡ r
      → ((t : Draft A) → r ≡ go t → rest' (page_of t) ≡ paged (rest t))
      → after_page a b rest' (page_of s) (next_of r) ≡ paged (after rest r)
  unfolding after_page after advance_both
  after-eq-reference rest rest' s (stop t) h more =
      ap (λ (u : Draft A). ok (page_of u)) (sym (round-eq-stop s h).0)
  after-eq-reference rest rest' s (go t) h more = more t refl
  after-eq-reference rest rest' s (fail coins_exhausted) h more = refl
  after-eq-reference rest rest' s (fail index_error) h more = absurd (round-ne-index_error s h)

  loop-eq-reference :
      (n : ℕ) (s : Draft A)
      → IsAligned a b s
      → IsSized s
      → reference_loop a b n (page_of s) ≡ paged (draft_loop n s)
  unfolding reference_loop draft_loop
  loop-eq-reference zero s v w = refl
  loop-eq-reference (suc n) s v w = rw (round-eq-reference s v w) (
      after-eq-reference (draft_loop n) (reference_loop a b n) s (draft_round s) refl
        (λ t h. loop-eq-reference n t (go-IsAligned a b s t v h) (go-IsSized s t w h)))

  bind-paged :
      (r : Result Error (Draft A))
      → ◌>>=◌ {B = List A × List Team × ℕ} r (λ s. ok (s.out, s.teams, s.used))
        ≡ (paged r >>= λ p. ok (p.out, p.teams, p.used))
  bind-paged (ok s) = refl
  bind-paged (err x) = refl

  start-IsAligned : (coins : List Bool) → IsAligned a b (start_draft a b coins)
  start-IsAligned coins = record {
    behind_a = ([], refl, tt);
    behind_b = ([], refl, tt);
    seen_out = λ x. refl;
  }

  -- `team_draft` returns what the documented rules give, or raises as they do: the same list, the
  -- same owners and the same number of coins, for any rankings, any length and any coins.
  pub team_draft-eq-reference :
      (k : ℕ) (coins : List Bool) → team_draft a b k coins ≡ reference_draft a b k coins
  unfolding team_draft reference_draft
  team_draft-eq-reference k coins =
      rw
        (loop-eq-reference k (start_draft a b coins) (start-IsAligned coins)
          (record { size_a = refl; size_b = refl }))
        (bind-paged (draft_loop k (start_draft a b coins)))
