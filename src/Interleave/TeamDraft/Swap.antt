-- ===== src/Interleave/TeamDraft/Swap.antt =====
-- `team_draft` treats its two rankings alike: exchanging them and turning every coin exchanges the
-- teams and changes nothing else.
use hybrid_search.Prelude.{
  ℕ, zero, suc, ◌≡◌, refl, sym, ap, Bool, true, false, ◌&&◌, not, List, [], ◌∷◌, Result, ok, err,
  Eq, map, if◌then◌else◌, arith, ◌>>=◌, Bool-cases, ltb, inl, inr,
}
use hybrid_search.Interleave.TeamDraft.{
  Draft, Round, stop, go, fail, Team, team_a, team_b, Error, draft_round, draft_loop, team_draft,
  start_draft, advance_both, choose, append_doc, flip, pick_from, is_empty, settle, place, after,
  take_turn,
}
use mathlib.Core.List.{map-append}
use hybrid_search.Interleave.TeamDraft.Rounds.{choose-eq-ok}

lt→not_gt : (x y : ℕ) → ltb x y ≡ true → ltb y x ≡ false
lt→not_gt x y h = ground arith

and_comm : (x y : Bool) → (x && y) ≡ (y && x)
and_comm x y = ground arith

abbrev pub other : Team → Team
other team_a = team_b
other team_b = team_a

module _ {ℓ} {A : Type ℓ} where
  abbrev swap_draft : Draft A → Draft A
  swap_draft s = record {
    a = s.b;
    b = s.a;
    out = s.out;
    teams = map other s.teams;
    seen = s.seen;
    ta = s.tb;
    tb = s.ta;
    used = s.used;
    coins = map not s.coins;
  }

  abbrev swap_round : Round A → Round A
  swap_round (stop s) = stop (swap_draft s)
  swap_round (go s) = go (swap_draft s)
  swap_round (fail x) = fail x

  append_doc-swap :
      (team : Team) (doc : A) (s : Draft A)
      → append_doc (other team) doc (swap_draft s) ≡ swap_draft (append_doc team doc s)
  unfolding append_doc
  append_doc-swap team_a doc s = rw (map-append) refl
  append_doc-swap team_b doc s = rw (map-append) refl

  abbrev swap_choice : Result Error (Bool × Draft A) → Result Error (Bool × Draft A)
  swap_choice (err x) = err x
  swap_choice (ok (p, s)) = ok (not p, swap_draft s)

  flip-swap :
      (coins : List Bool) (s : Draft A)
      → flip (map not coins) (swap_draft s) ≡ swap_choice (flip coins s)
  unfolding flip
  flip-swap [] s = refl
  flip-swap (c ∷ cs) s = refl

  choose-swap : (s : Draft A) → choose (swap_draft s) ≡ swap_choice (choose s)
  unfolding choose
  choose-swap s = elim (Bool-cases (ltb s.ta s.tb)) [
    | inl lt ↦ rw (lt, lt→not_gt s.ta s.tb lt) refl
    | inr ge ↦ elim (Bool-cases (ltb s.tb s.ta)) [
      | inl gt ↦ rw (ge, gt) refl
      | inr le ↦ rw (ge, le) (flip-swap s.coins s)
    ]
  ]

  pick_from-swap :
      (team : Team) (l : List A) (s : Draft A)
      → pick_from (other team) l (swap_draft s) ≡ swap_round (pick_from team l s)
  unfolding pick_from
  pick_from-swap team [] s = refl
  pick_from-swap team (x ∷ l) s = ap go (append_doc-swap team x s)

  place-swap : (p : Bool) (s : Draft A) → place (not p) (swap_draft s) ≡ swap_round (place p s)
  unfolding place
  place-swap true s = pick_from-swap team_a s.a s
  place-swap false s = pick_from-swap team_b s.b s

  settle-swap :
      (p : Bool) (x y : List A) (s : Draft A)
      → (is_empty x && is_empty y) ≡ false
      → settle (not p) (swap_draft (record s { a = x; b = y }))
        ≡ not (settle p (record s { a = x; b = y }))
  unfolding settle
  settle-swap p [] [] s h = cc
  settle-swap true (x ∷ r) [] s h = refl
  settle-swap false (x ∷ r) [] s h = refl
  settle-swap true [] (y ∷ r') s h = refl
  settle-swap false [] (y ∷ r') s h = refl
  settle-swap true (x ∷ r) (y ∷ r') s h = refl
  settle-swap false (x ∷ r) (y ∷ r') s h = refl

  take_turn-swap :
      (r : Result Error (Bool × Draft A)) (s : Draft A)
      → r ≡ choose s
      → (is_empty s.a && is_empty s.b) ≡ false
      → take_turn (swap_choice r) ≡ swap_round (take_turn r)
  unfolding take_turn
  take_turn-swap (err x) s c h = refl
  take_turn-swap (ok (p, u)) s c h =
      let (cs, n, same) = choose-eq-ok s (sym c) in
      rw (settle-swap p u.a u.b u (rw same h)) (place-swap (settle p u) u)

module _ {ℓ} {A : Type ℓ} ⦃e : Eq A⦄ where
  turn-swap :
      (u : Draft A)
      → (if is_empty u.b && is_empty u.a
          then stop (swap_draft u)
          else take_turn (choose (swap_draft u)))
        ≡ swap_round (if is_empty u.a && is_empty u.b then stop u else take_turn (choose u))
  turn-swap u = elim (Bool-cases (is_empty u.a && is_empty u.b)) [
    | inl both ↦ rw (and_comm (is_empty u.b) (is_empty u.a), both) refl
    | inr more ↦
        rw (and_comm (is_empty u.b) (is_empty u.a), more, choose-swap u)
          (take_turn-swap (choose u) u refl more)
  ]

  round-swap : (s : Draft A) → draft_round (swap_draft s) ≡ swap_round (draft_round s)
  unfolding draft_round
  round-swap s = turn-swap (advance_both s)

  abbrev swap_result : Result Error (Draft A) → Result Error (Draft A)
  swap_result (ok s) = ok (swap_draft s)
  swap_result (err x) = err x

  after-swap :
      (n : ℕ) (r : Round A)
      → ((s : Draft A) → draft_loop n (swap_draft s) ≡ swap_result (draft_loop n s))
      → after (draft_loop n) (swap_round r) ≡ swap_result (after (draft_loop n) r)
  unfolding after
  after-swap n (stop s) ih = refl
  after-swap n (go s) ih = ih s
  after-swap n (fail x) ih = refl

  loop-swap : (n : ℕ) (s : Draft A) → draft_loop n (swap_draft s) ≡ swap_result (draft_loop n s)
  unfolding draft_loop
  loop-swap zero s = refl
  loop-swap (suc n) s = rw (round-swap s) (after-swap n (draft_round s) (loop-swap n))

  abbrev pub swap_outcome :
      Result Error (List A × List Team × ℕ) → Result Error (List A × List Team × ℕ)
  swap_outcome (ok (out, teams, used)) = ok (out, map other teams, used)
  swap_outcome (err x) = err x

  outcome-swap :
      (r : Result Error (Draft A))
      → ◌>>=◌ {B = List A × List Team × ℕ} (swap_result r) (λ s. ok (s.out, s.teams, s.used))
        ≡ swap_outcome (r >>= λ s. ok (s.out, s.teams, s.used))
  outcome-swap (ok s) = refl
  outcome-swap (err x) = refl

  -- With the rankings exchanged and each coin turned over, the list and the number of coins are the
  -- same, and each position belongs to the other team; it raises if and only if it raised before.
  pub team_draft-swap :
      (a b : List A) (k : ℕ) (coins : List Bool)
      → team_draft b a k (map not coins) ≡ swap_outcome (team_draft a b k coins)
  unfolding team_draft
  team_draft-swap a b k coins =
      rw (loop-swap k (start_draft a b coins)) (outcome-swap (draft_loop k (start_draft a b coins)))
