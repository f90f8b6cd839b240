-- ===== src/Interleave/TeamDraft/Cursor.antt =====
-- The cursors of `team_draft`: all that lies before a cursor has been shown.
use hybrid_search.Prelude.{
  ℕ, ◌≡◌, inl, inr, refl, sym, ap, ◌∙◌, Bool, true, List, [], ◌∷◌, ◌++◌, ok, Eq, contains,
  if◌then◌else◌, arith, subst, All, All-append, All-imp, append_assoc, append-nil, Option, none,
  some, Bool-cases, contains-append,
}
use hybrid_search.Interleave.TeamDraft.{
  Draft, stop, go, Team, team_a, team_b, draft_round, advance, advance_both, choose, append_doc,
  settle,
}
use hybrid_search.Interleave.TeamDraft.Rounds.{
  choose-eq-ok, place-eq-go, round-eq-go, round-eq-stop,
}

module _ {ℓ} {A : Type ℓ} where
  abbrev pub first : List A → Option A
  first [] = none
  first (x ∷ xs) = some x

module _ {ℓ} {A : Type ℓ} ⦃e : Eq A⦄ where
  -- The highest-ranked document that is not shown yet.
  unfoldable pub first_unseen : List A → List A → Option A
  first_unseen shown [] = none
  first_unseen shown (x ∷ xs) =
      let rest = first_unseen shown xs in if contains shown x then rest else some x

  abbrev pub AllIn : List A → List A → Type 0
  AllIn xs shown = All (λ x. contains shown x ≡ true) xs

  -- `c` is what is left of `l` behind a cursor that has passed shown documents only.
  abbrev pub Behind : List A → List A → List A → Type ℓ
  Behind shown l c = (pre : List A) × (l ≡ pre ++ c) × AllIn pre shown

  first_unseen-append :
      (shown pre c : List A)
      → AllIn pre shown
      → first_unseen shown (pre ++ c) ≡ first_unseen shown c
  unfolding first_unseen
  first_unseen-append shown [] c h = refl
  first_unseen-append shown (x ∷ pre) c h = rw h.0 (first_unseen-append shown pre c h.1)

  first-advance : (shown c : List A) → first (advance shown c) ≡ first_unseen shown c
  unfolding first_unseen advance
  first-advance shown [] = refl
  first-advance shown (x ∷ c) = ground (arith, first-advance shown c)

  advance-Behind : (shown c : List A) → Behind shown c (advance shown c)
  unfolding advance
  advance-Behind shown [] = ([], refl, tt)
  advance-Behind shown (x ∷ c) = elim (Bool-cases (contains shown x)) [
    | inl old ↦
        let (pre, eq, h) = advance-Behind shown c in rw old (x ∷ pre, ap (◌∷◌ x) eq, (old, h))
    | inr new ↦ rw new ([], refl, tt)
  ]

  Behind-trans : (shown l c d : List A) → Behind shown l c → Behind shown c d → Behind shown l d
  Behind-trans shown l c d (p, e1, h1) (q, e2, h2) =
      (p ++ q, e1 ∙ ap (λ t. p ++ t) e2 ∙ sym (append_assoc p q d), All-append _ p q h1 h2)

  AllIn-cons : (xs shown : List A) (doc : A) → AllIn xs shown → AllIn xs (doc ∷ shown)
  AllIn-cons xs shown doc h =
      All-imp _ (λ x. contains (doc ∷ shown) x ≡ true) xs (λ x p. ground arith) h

  pub first_unseen-Behind :
      (shown l c : List A) → Behind shown l c → first_unseen shown l ≡ first (advance shown c)
  first_unseen-Behind shown l c (pre, eq, h) =
      rw eq (first_unseen-append shown pre c h ∙ sym (first-advance shown c))

  -- A used-up cursor has passed everything.
  pub AllIn-of_Behind : (shown l : List A) → Behind shown l [] → AllIn l shown
  AllIn-of_Behind shown l (pre, eq, h) = rw (eq, append-nil pre) h

module _ {ℓ} {A : Type ℓ} ⦃e : Eq A⦄ (a b : List A) where
  -- How the cursors, the set `seen` and the list stand to one another.
  pub record IsAligned (s : Draft A) : Type ℓ where
    pub behind_a : Behind s.seen a s.a
    pub behind_b : Behind s.seen b s.b
    pub seen_out : (x : A) → contains s.seen x ≡ contains s.out x

  pub advance_both-IsAligned : (s : Draft A) → IsAligned s → IsAligned (advance_both s)
  unfolding advance_both
  advance_both-IsAligned s v = record {
    behind_a = Behind-trans s.seen a s.a _ v.behind_a (advance-Behind s.seen s.a);
    behind_b = Behind-trans s.seen b s.b _ v.behind_b (advance-Behind s.seen s.b);
    seen_out = v.seen_out;
  }

  pub coins-IsAligned :
      (s : Draft A) (cs : List Bool) (n : ℕ)
      → IsAligned s
      → IsAligned (record s { coins = cs; used = n })
  coins-IsAligned s cs n v = record {
    behind_a = v.behind_a;
    behind_b = v.behind_b;
    seen_out = v.seen_out;
  }

  choose-IsAligned : (s t : Draft A) (p : Bool) → IsAligned s → choose s ≡ ok (p, t) → IsAligned t
  choose-IsAligned s t p v h =
      let (cs, n, eq) = choose-eq-ok s h in subst IsAligned (sym eq) (coins-IsAligned s cs n v)

  Behind-cons : (shown l c : List A) (doc : A) → Behind shown l c → Behind (doc ∷ shown) l c
  Behind-cons shown l c doc (pre, eq, h) = (pre, eq, AllIn-cons pre shown doc h)

  append_doc-IsAligned :
      (team : Team) (doc : A) (s : Draft A) → IsAligned s → IsAligned (append_doc team doc s)
  unfolding append_doc
  append_doc-IsAligned team_a doc s v = record {
    behind_a = Behind-cons s.seen a s.a doc v.behind_a;
    behind_b = Behind-cons s.seen b s.b doc v.behind_b;
    seen_out = λ x. ground (arith, v.seen_out x, contains-append s.out (doc ∷ []) x);
  }
  append_doc-IsAligned team_b doc s v = record {
    behind_a = Behind-cons s.seen a s.a doc v.behind_a;
    behind_b = Behind-cons s.seen b s.b doc v.behind_b;
    seen_out = λ x. ground (arith, v.seen_out x, contains-append s.out (doc ∷ []) x);
  }

  pub go-IsAligned : (s t : Draft A) → IsAligned s → draft_round s ≡ go t → IsAligned t
  go-IsAligned s t v h =
      let (p, u, chosen, placed) = round-eq-go s h in
      let (team, doc, rest, own, found, eq) = place-eq-go (settle p u) u placed in
      let w = choose-IsAligned (advance_both s) u p (advance_both-IsAligned s v) chosen in
      subst IsAligned (sym eq) (append_doc-IsAligned team doc u w)

  pub stop-IsAligned : (s t : Draft A) → IsAligned s → draft_round s ≡ stop t → IsAligned t
  stop-IsAligned s t v h = subst IsAligned (sym (round-eq-stop s h).0) (advance_both-IsAligned s v)
