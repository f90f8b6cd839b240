-- ===== src/Interleave/TeamDraft/Outcome.antt =====
-- What `team_draft` returns: a list without repetition, complete, fair, and with enough coins always.
use hybrid_search.Prelude.{
  ℕ, zero, suc, ◌+◌, ◌≤◌, ◌≡◌, ◌⊎◌, inl, inr, refl, sym, ap, ◌∙◌, Bool, true, false, List, [], ◌∷◌,
  ◌++◌, ok, Eq, arith, length, contains, Distinct, Distinct-snoc, subst, All-imp, contains_left,
  length-append,
}
use hybrid_search.Interleave.TeamDraft.{
  Draft, stop, go, Team, team_a, team_b, draft_round, draft_loop, start_draft, advance,
  advance_both, append_doc,
}
use hybrid_search.Interleave.TeamDraft.Rounds.{
  round-eq-stop, draft_loop_inv, ranking_of, MayPick, after-eq-ok, is_empty→nil, Shows, shows,
  round-Shows,
}
use hybrid_search.Interleave.TeamDraft.Cursor.{
  AllIn, Behind, coins-IsAligned, advance_both-IsAligned, IsAligned, go-IsAligned, stop-IsAligned,
  AllIn-of_Behind,
}

module _ {ℓ} {A : Type ℓ} ⦃e : Eq A⦄ where
  advance-head :
      (shown c : List A) (x : A) (r : List A) → advance shown c ≡ x ∷ r → contains shown x ≡ false
  unfolding advance
  advance-head shown [] x r h = cc
  advance-head shown (y ∷ c) x r h = ground (arith, advance-head shown c x r)

  -- The document that a team picks is not shown yet.
  picked_new :
      (team : Team) (doc : A) (rest : List A) (s : Draft A)
      → ranking_of team (advance_both s) ≡ doc ∷ rest
      → contains s.seen doc ≡ false
  unfolding advance_both
  picked_new team_a doc rest s h = advance-head s.seen s.a doc rest h
  picked_new team_b doc rest s h = advance-head s.seen s.b doc rest h

  -- A round that goes on adds one new document.
  shape :
      (s t : Draft A)
      → Shows s t
      → (doc : A) × (t.out ≡ s.out ++ doc ∷ []) × (contains s.seen doc ≡ false)
  unfolding advance_both append_doc
  shape s t (shows team_a doc rest w cs n same found may eq) =
      (doc, cc, picked_new team_a doc rest s (sym (ap (λ (r : Draft A). r.a) same) ∙ found))
  shape s t (shows team_b doc rest w cs n same found may eq) =
      (doc, cc, picked_new team_b doc rest s (sym (ap (λ (r : Draft A). r.b) same) ∙ found))

  out-advance_both : (s : Draft A) → (advance_both s).out ≡ s.out
  unfolding advance_both
  out-advance_both s = refl

module _ {ℓ} {A : Type ℓ} ⦃e : Eq A⦄ (a b : List A) where
  pub record IsClean (s : Draft A) : Type ℓ where
    pub aligned : IsAligned a b s
    pub distinct : Distinct s.out

  go-IsClean : (s t : Draft A) → IsClean s → draft_round s ≡ go t → IsClean t
  go-IsClean s t v h =
      let (doc, grown, new) = shape s t (round-Shows s h) in
      record {
        aligned = go-IsAligned a b s t v.aligned h;
        distinct =
            rw grown (Distinct-snoc s.out doc v.distinct (sym (v.aligned.seen_out doc) ∙ new));
      }

  stop-IsClean : (s t : Draft A) → IsClean s → draft_round s ≡ stop t → IsClean t
  stop-IsClean s t v h = record {
    aligned = stop-IsAligned a b s t v.aligned h;
    distinct = rw ((round-eq-stop s h).0, out-advance_both s) v.distinct;
  }

  pub start-IsClean : (coins : List Bool) → IsClean (start_draft a b coins)
  start-IsClean coins = record {
    aligned = record { behind_a = ([], refl, tt); behind_b = ([], refl, tt); seen_out = λ x. refl };
    distinct = tt;
  }

  AllIn-seen_out : (s : Draft A) (l : List A) → IsAligned a b s → AllIn l s.seen → AllIn l s.out
  AllIn-seen_out s l v h =
      All-imp _ (λ x. contains s.out x ≡ true) l (λ x p. sym (v.seen_out x) ∙ p) h

  -- A cursor at the end of its ranking leaves nothing of it to show.
  used_up_a : (s : Draft A) → IsAligned a b s → s.a ≡ [] → AllIn a s.out
  used_up_a s v h =
      AllIn-seen_out s a v (AllIn-of_Behind s.seen a (subst (Behind s.seen a) h v.behind_a))

  used_up_b : (s : Draft A) → IsAligned a b s → s.b ≡ [] → AllIn b s.out
  used_up_b s v h =
      AllIn-seen_out s b v (AllIn-of_Behind s.seen b (subst (Behind s.seen b) h v.behind_b))

  -- The list has `m` documents, or it has every document of both rankings.
  abbrev pub IsFull : ℕ → List A → Type 0
  IsFull m out = (length out ≡ m) ⊎ (AllIn a out × AllIn b out × (length out ≤ m))

  pub loop-IsFull :
      (n m : ℕ) (s t : Draft A)
      → IsClean s
      → length s.out + n ≡ m
      → draft_loop n s ≡ ok t
      → IsFull m t.out
  unfolding draft_loop
  loop-IsFull zero m s t v size h = inl (let same : s ≡ t = cc in rw (← same) (omega arith))
  loop-IsFull (suc n) m s t v size h = elim (after-eq-ok (draft_loop n) (draft_round s) h) [
    | inl r ↦
        let (same, no_a, no_b) = round-eq-stop s r in
        let w = (stop-IsClean s t v r).aligned in
        inr (
          used_up_a t w (is_empty→nil t.a no_a),
          used_up_b t w (is_empty→nil t.b no_b),
          rw (same, out-advance_both s) (omega arith),
        )
    | inr (u, r, more) ↦
        let (doc, grown, new) = shape s u (round-Shows s r) in
        loop-IsFull n m u t (go-IsClean s u v r)
          (rw grown (omega (arith, length-append s.out (doc ∷ [])))) more
  ]

  pub loop-IsClean : (n : ℕ) (s t : Draft A) → draft_loop n s ≡ ok t → IsClean s → IsClean t
  loop-IsClean = draft_loop_inv IsClean go-IsClean stop-IsClean

  -- A team is at most one position ahead, or the other ranking has been shown whole.
  abbrev pub IsFair : ℕ → ℕ → List A → Type 0
  IsFair ta tb out = ((ta ≤ tb + 1) ⊎ AllIn b out) × ((tb ≤ ta + 1) ⊎ AllIn a out)

  AllIn-snoc : (l out : List A) (doc : A) → AllIn l out → AllIn l (out ++ doc ∷ [])
  AllIn-snoc l out doc h =
      All-imp _ (λ x. contains (out ++ doc ∷ []) x ≡ true) l
        (λ x p. contains_left out (doc ∷ []) x p) h

  append_doc-IsFair :
      (team : Team) (doc : A) (w : Draft A)
      → IsAligned a b w
      → MayPick team w
      → IsFair w.ta w.tb w.out
      → (let t = append_doc team doc w in IsFair t.ta t.tb t.out)
  unfolding append_doc
  append_doc-IsFair team_a doc w v may fair = (
    elim may [
      | inl le ↦ inl (omega arith)
      | inr none_left ↦ inr (AllIn-snoc b w.out doc (used_up_b w v none_left))
    ],
    elim (fair.1) [ inl le ↦ inl (omega arith) | inr all ↦ inr (AllIn-snoc a w.out doc all) ],
  )
  append_doc-IsFair team_b doc w v may fair = (
    elim (fair.0) [ inl le ↦ inl (omega arith) | inr all ↦ inr (AllIn-snoc b w.out doc all) ],
    elim may [
      | inl le ↦ inl (omega arith)
      | inr none_left ↦ inr (AllIn-snoc a w.out doc (used_up_a w v none_left))
    ],
  )

  pub record IsJust (s : Draft A) : Type ℓ where
    pub aligned : IsAligned a b s
    pub fair : IsFair s.ta s.tb s.out

  pub go-IsJust : (s t : Draft A) → IsJust s → draft_round s ≡ go t → IsJust t
  go-IsJust s t v h = record {
    aligned = go-IsAligned a b s t v.aligned h;
    fair = of_shows (round-Shows s h);
  }
    where
      of_shows : Shows s t → IsFair t.ta t.tb t.out
      of_shows (shows team doc rest w cs n same found may eq) = rw eq (
          append_doc-IsFair team doc w
            (rw same
              (coins-IsAligned a b (advance_both s) cs n (advance_both-IsAligned a b s v.aligned)))
            may (rw same (unfold advance_both in v.fair)))

  pub stop-IsJust : (s t : Draft A) → IsJust s → draft_round s ≡ stop t → IsJust t
  stop-IsJust s t v h = record {
    aligned = stop-IsAligned a b s t v.aligned h;
    fair = rw (round-eq-stop s h).0 (unfold advance_both in v.fair);
  }
