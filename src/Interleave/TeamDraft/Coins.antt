-- ===== src/Interleave/TeamDraft/Coins.antt =====
-- One more coin at the end of the iterator: a run that did not need it is the same run, and a run
-- that lacked one coin spends all.
use hybrid_search.Prelude.{
  ℕ, zero, suc, ◌+◌, ◌≤◌, ◌≡◌, refl, ap, Bool, true, false, List, [], ◌∷◌, ◌++◌, Result, ok, err,
  Eq, arith, length, inl, inr, Bool-cases, ◌&&◌, length-append, ltb,
}
use native.Mathlib.Nat.{le_trans}
use hybrid_search.Interleave.TeamDraft.{
  Draft, Round, stop, go, fail, Team, team_a, team_b, Error, coins_exhausted, index_error,
  draft_round, draft_loop, advance_both, choose, is_empty, place, settle, append_doc, flip,
  pick_from,
}
use hybrid_search.Interleave.TeamDraft.Rounds.{
  Round-cases, round_exhausted, round-eq-go, round-eq-stop, place-eq-go, after-eq-ok,
  draft_loop_inv,
}
use hybrid_search.Interleave.TeamDraft.Counts.{IsCounted, go-IsCounted, loop-IsCounted}

module _ {ℓ} {A : Type ℓ} where
  -- The same state with one more coin at the end of the iterator.
  abbrev pub with_coin : Bool → Draft A → Draft A
  with_coin c s = record s { coins = s.coins ++ c ∷ [] }

  abbrev with_coin_round : Bool → Round A → Round A
  with_coin_round c (stop s) = stop (with_coin c s)
  with_coin_round c (go s) = go (with_coin c s)
  with_coin_round c (fail x) = fail x

  append_doc-with_coin :
      (team : Team) (doc : A) (c : Bool) (s : Draft A)
      → append_doc team doc (with_coin c s) ≡ with_coin c (append_doc team doc s)
  unfolding append_doc
  append_doc-with_coin team_a doc c s = refl
  append_doc-with_coin team_b doc c s = refl

  abbrev with_coin_choice : Bool → Result Error (Bool × Draft A) → Result Error (Bool × Draft A)
  with_coin_choice c (ok (p, s)) = ok (p, with_coin c s)
  with_coin_choice c (err x) = err x

  flip-with_coin :
      (coins : List Bool) (c : Bool) (s t : Draft A) (p : Bool)
      → flip coins s ≡ ok (p, t)
      → flip (coins ++ c ∷ []) (with_coin c s) ≡ ok (p, with_coin c t)
  unfolding flip
  flip-with_coin [] c s t p h = cc
  flip-with_coin (x ∷ cs) c s t p h = ap (with_coin_choice c) h

  choose-with_coin :
      (c : Bool) (s t : Draft A) (p : Bool)
      → choose s ≡ ok (p, t)
      → choose (with_coin c s) ≡ ok (p, with_coin c t)
  unfolding choose
  choose-with_coin c s t p h = elim (Bool-cases (ltb s.ta s.tb)) [
    | inl lt ↦ rw lt (ap (with_coin_choice c) (rw lt at h))
    | inr ge ↦ elim (Bool-cases (ltb s.tb s.ta)) [
      | inl gt ↦ rw (ge, gt) (ap (with_coin_choice c) (rw (ge, gt) at h))
      | inr tie ↦ rw (ge, tie) (flip-with_coin s.coins c s t p (rw (ge, tie) at h))
    ]
  ]

  pick_from-with_coin :
      (team : Team) (l : List A) (c : Bool) (s t : Draft A)
      → pick_from team l s ≡ go t
      → pick_from team l (with_coin c s) ≡ go (with_coin c t)
  unfolding pick_from
  pick_from-with_coin team [] c s t h = cc
  pick_from-with_coin team (x ∷ l) c s t h =
      rw (append_doc-with_coin team x c s) (ap (with_coin_round c) h)

  place-with_coin :
      (p : Bool) (c : Bool) (s t : Draft A)
      → place p s ≡ go t
      → place p (with_coin c s) ≡ go (with_coin c t)
  unfolding place
  place-with_coin true c s t h = pick_from-with_coin team_a s.a c s t h
  place-with_coin false c s t h = pick_from-with_coin team_b s.b c s t h

  settled-with_coin :
      (p : Bool) (c : Bool) (s t : Draft A)
      → place (settle p s) s ≡ go t
      → place (settle p (with_coin c s)) (with_coin c s) ≡ go (with_coin c t)
  unfolding settle
  settled-with_coin p c s t h = place-with_coin (settle p s) c s t h

  -- A coin that decides a tie is counted.
  choose_tie : (s t : Draft A) (p : Bool) → s.ta ≡ s.tb → choose s ≡ ok (p, t) → t.used ≡ s.used + 1
  unfolding choose
  choose_tie s t p h eq = ground arith

  choose_used : (s t : Draft A) (p : Bool) → choose s ≡ ok (p, t) → s.used ≤ t.used
  unfolding choose
  choose_used s t p h = ground arith

  used-append_doc : (team : Team) (doc : A) (s : Draft A) → (append_doc team doc s).used ≡ s.used
  unfolding append_doc
  used-append_doc team_a doc s = refl
  used-append_doc team_b doc s = refl

module _ {ℓ} {A : Type ℓ} ⦃e : Eq A⦄ where
  round-used : (s t : Draft A) → draft_round s ≡ go t → s.used ≤ t.used
  unfolding advance_both
  round-used s t h =
      let (p, u, chosen, placed) = round-eq-go s h in
      let (team, doc, rest, own, found, eq) = place-eq-go (settle p u) u placed in
      rw (eq, used-append_doc team doc u) (choose_used (advance_both s) u p chosen)

  round-used_tie : (s t : Draft A) → s.ta ≡ s.tb → draft_round s ≡ go t → t.used ≡ s.used + 1
  unfolding advance_both
  round-used_tie s t tie h =
      let (p, u, chosen, placed) = round-eq-go s h in
      let (team, doc, rest, own, found, eq) = place-eq-go (settle p u) u placed in
      rw (eq, used-append_doc team doc u) (choose_tie (advance_both s) u p tie chosen)

  loop-used : (n : ℕ) (s t : Draft A) → draft_loop n s ≡ ok t → s.used ≤ t.used
  loop-used n s t h =
      draft_loop_inv (λ r. s.used ≤ r.used) (λ u v le r. le_trans le (round-used u v r))
        (λ u v le r. rw (round-eq-stop u r).0 (unfold advance_both in le)) n s t h (omega arith)

  round-with_coin :
      (c : Bool) (s t : Draft A)
      → draft_round s ≡ go t
      → draft_round (with_coin c s) ≡ go (with_coin c t)
  unfolding draft_round
  round-with_coin c s t h =
      elim (Bool-cases (is_empty (advance_both s).a && is_empty (advance_both s).b)) [
        | inl both ↦ cc (rw both at h)
        | inr more ↦
            let (p, u, chosen, placed) = round-eq-go s h in
            rw (more, choose-with_coin c (advance_both s) u p chosen)
              (settled-with_coin p c u t placed)
      ]

  -- Both rankings are used up, with the coin or without it.
  stop-with_coin :
      (c : Bool) (s t : Draft A)
      → draft_round (with_coin c s) ≡ stop t
      → (u : Draft A) × (draft_round s ≡ stop u)
  unfolding draft_round
  stop-with_coin c s t h =
      let (same, no_a, no_b) = round-eq-stop (with_coin c s) h in
      let none_a : is_empty (advance_both s).a ≡ true = rw same at no_a in
      let none_b : is_empty (advance_both s).b ≡ true = rw same at no_b in
      (advance_both s, rw (none_a, none_b) refl)

  with_coin-IsCounted :
      (c : Bool) (total : ℕ) (s : Draft A)
      → IsCounted total s
      → IsCounted (total + 1) (with_coin c s)
  with_coin-IsCounted c total s v = omega (arith, length-append s.coins (c ∷ []))

  -- The round that lacked the coin spends it, and no more coins are left.
  last_coin :
      (c : Bool) (total n : ℕ) (s t : Draft A)
      → IsCounted total s
      → draft_round s ≡ fail coins_exhausted
      → draft_loop (suc n) (with_coin c s) ≡ ok t
      → t.used ≡ total + 1
  last_coin c total n s t v r h =
      let (none_left, tie) = round_exhausted s r in
      let no_coins = ap (length {A = Bool}) none_left in
      let w =
        loop-IsCounted (total + 1) (suc n) (with_coin c s) t h (with_coin-IsCounted c total s v) in
      elim (after-eq-ok (draft_loop n) (draft_round (with_coin c s)) {t = t}
        (unfold draft_loop in h)) [
          | inl stopped ↦ let (u, both) = stop-with_coin c s t stopped in cc
          | inr (u, goes, more) ↦
              let spent = round-used_tie (with_coin c s) u tie goes in
              let later = loop-used n u t more in omega arith
        ]

  -- A run that lacked a coin spends one coin more than it had, if it gets one more and returns.
  pub loop-with_coin :
      (c : Bool) (total n : ℕ) (s t : Draft A)
      → IsCounted total s
      → draft_loop n s ≡ err coins_exhausted
      → draft_loop n (with_coin c s) ≡ ok t
      → t.used ≡ total + 1
  unfolding draft_loop
  loop-with_coin c total zero s t v h h' = cc
  loop-with_coin c total (suc n) s t v h h' = elim (Round-cases (draft_round s)) [
    | inl (u, r) ↦ cc (rw r at h)
    | inr (inl (u, r)) ↦
        loop-with_coin c total n u t (go-IsCounted total s u v r) (rw r at h)
          (rw (round-with_coin c s u r) at h')
    | inr (inr (coins_exhausted, r)) ↦ last_coin c total n s t v r h'
    | inr (inr (index_error, r)) ↦ cc (rw r at h)
  ]
