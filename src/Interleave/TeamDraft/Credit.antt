-- ===== src/Interleave/TeamDraft/Credit.antt =====
-- `team_draft_credit` of py/hybridsearch/clicks/interleave.py: which team a page's clicks prefer.
-- A position whose label is neither "A" nor "B" is `none`.
use hybrid_search.Prelude.{
  ℕ, zero, suc, ◌+◌, ◌<◌, ◌≤◌, ◌≡◌, refl, sym, ◌∙◌, Bool, true, false, ◌&&◌, List, [], ◌∷◌, Result,
  ok, err, nat_beq_iff, nat_eq, if◌then◌else◌, arith, ◌>>=◌, Bool-cases, ltb, inl, inr, Option,
  none, some, contains, get_elem?, length, All, Option-cases, nat_beq,
}
use native.Mathlib.Nat.{add-zero}
use hybrid_search.Interleave.TeamDraft.{Team, team_a, team_b, Error, index_error}
use hybrid_search.Interleave.TeamDraft.Rules.{is_team}

pub data Winner : Type 0 where
  team_a_wins team_b_wins tie : Winner

-- `set(positions)`: each value once.
unfoldable pub distinct_of : List ℕ → List ℕ
distinct_of [] = []
distinct_of (p ∷ ps) = let rest = distinct_of ps in if contains rest p then rest else p ∷ rest

-- `teams[p] == "A"`
abbrev pub owned_by : Team → Option Team → Bool
owned_by t none = false
owned_by t (some u) = is_team t u

abbrev one_if : Bool → ℕ
one_if b = if b then 1 else 0

credit_one : Option (Option Team) → ℕ → ℕ → Result Error (ℕ × ℕ)
credit_one none ca cb = err index_error
credit_one (some label) ca cb = ok (
    if owned_by team_a label
    then (ca + 1, cb)
    else if owned_by team_b label
    then (ca, cb + 1)
    else (ca, cb))

-- The `for` over the set of positions.
credit_loop : List (Option Team) → List ℕ → ℕ → ℕ → Result Error (ℕ × ℕ)
unfolding credit_one
credit_loop teams [] ca cb = ok (ca, cb)
credit_loop teams (p ∷ ps) ca cb = do
  counts ← credit_one (get_elem? teams p) ca cb
  credit_loop teams ps (counts.0) (counts.1)

unfoldable pub winner_of : ℕ → ℕ → Winner
winner_of ca cb = if ltb cb ca then team_a_wins else if ltb ca cb then team_b_wins else tie

unfoldable pub team_draft_credit : List (Option Team) → List ℕ → Result Error (ℕ × ℕ × Winner)
unfolding credit_loop distinct_of winner_of
team_draft_credit teams clicked = do
  counts ← credit_loop teams (distinct_of clicked) 0 0
  ok (counts.0, counts.1, winner_of (counts.0) (counts.1))

-- The positions from `i` on that a team owns and that were clicked.
unfoldable pub clicks_of : Team → ℕ → List (Option Team) → List ℕ → ℕ
clicks_of t i [] clicked = 0
clicks_of t i (label ∷ teams) clicked =
    one_if (owned_by t label && contains clicked i) + clicks_of t (suc i) teams clicked

abbrev pub InRange : List (Option Team) → List ℕ → Type 0
InRange teams clicked = All (λ p. p < length teams) clicked

clicks_of-nil : (t : Team) (i : ℕ) (teams : List (Option Team)) → clicks_of t i teams [] ≡ 0
unfolding clicks_of
clicks_of-nil t i [] = refl
clicks_of-nil t i (label ∷ teams) = ground (arith, clicks_of-nil t (suc i) teams)

-- A position that is clicked already adds nothing.
clicks_of-again :
    (t : Team) (i : ℕ) (teams : List (Option Team)) (ps : List ℕ) (p : ℕ)
    → contains ps p ≡ true
    → clicks_of t i teams (p ∷ ps) ≡ clicks_of t i teams ps
unfolding clicks_of
clicks_of-again t i [] ps p h = refl
clicks_of-again t i (label ∷ teams) ps p h = elim (Bool-cases (nat_beq i p)) [
  | inl same ↦ rw (clicks_of-again t (suc i) teams ps p h, (nat_beq_iff i p).0 same) (ground arith)
  | inr ne ↦ rw (clicks_of-again t (suc i) teams ps p h, ne) refl
]

clicks_of_below :
    (t : Team) (i : ℕ) (teams : List (Option Team)) (ps : List ℕ) (p : ℕ)
    → p < i
    → clicks_of t i teams (p ∷ ps) ≡ clicks_of t i teams ps
unfolding clicks_of
clicks_of_below t i [] ps p h = refl
clicks_of_below t i (label ∷ teams) ps p h = ground (arith, clicks_of_below t (suc i) teams ps p)

-- A position that is new adds one to its owner.
clicks_of_new :
    (t : Team) (i d j : ℕ) (teams : List (Option Team)) (ps : List ℕ) (label : Option Team)
    → j ≡ i + d
    → contains ps j ≡ false
    → get_elem? teams d ≡ some label
    → clicks_of t i teams (j ∷ ps) ≡ one_if (owned_by t label) + clicks_of t i teams ps
unfolding clicks_of
clicks_of_new t i d j [] ps label eq new found = cc
clicks_of_new t i zero j (l ∷ teams) ps label eq new found =
    let here : j ≡ i = omega arith in
    rw (here, clicks_of_below t (suc i) teams ps i (omega arith), (nat_beq_iff i i).1 refl)
      (let off = rw here at new in let same : l ≡ label = cc in rw (off, same) (ground arith))
clicks_of_new t i (suc d) j (l ∷ teams) ps label eq new found =
    rw (clicks_of_new t (suc i) d j teams ps label (omega arith) new found)
      (let off : nat_beq i j ≡ false = ground arith in rw off (omega arith))

contains_equal :
    (ps : List ℕ) (p q : ℕ) → contains ps q ≡ true → nat_beq p q ≡ true → contains ps p ≡ true
contains_equal ps p q h e = rw ((nat_beq_iff p q).0 e) h

pub contains-distinct_of : (ps : List ℕ) (p : ℕ) → contains (distinct_of ps) p ≡ contains ps p
unfolding distinct_of
contains-distinct_of [] p = refl
contains-distinct_of (q ∷ ps) p = elim (Bool-cases (contains (distinct_of ps) q)) [
  | inl old ↦
      rw (old, contains-distinct_of ps p)
        (ground (arith, contains_equal ps p q (sym (contains-distinct_of ps q) ∙ old)))
  | inr new ↦ rw (new, contains-distinct_of ps p) refl
]

get_elem?_in {ℓ} :
    {A : Type ℓ} (xs : List A) (d : ℕ) → d < length xs → (x : A) × (get_elem? xs d ≡ some x)
get_elem?_in [] d h = absurd (omega arith)
get_elem?_in (x ∷ xs) zero h = (x, refl)
get_elem?_in (x ∷ xs) (suc d) h = get_elem?_in xs d (omega arith)

credit_loop-step :
    (teams : List (Option Team)) (p : ℕ) (ps : List ℕ) (ca cb : ℕ) (label : Option Team)
    → get_elem? teams p ≡ some label
    → credit_loop teams (p ∷ ps) ca cb
      ≡ credit_loop teams ps
          (ca + one_if (owned_by team_a label))
          (cb + one_if (owned_by team_b label))
unfolding credit_loop
credit_loop-step teams p ps ca cb none h = rw h (rw (add-zero ca, add-zero cb) refl)
credit_loop-step teams p ps ca cb (some team_a) h = rw h (rw (add-zero cb) refl)
credit_loop-step teams p ps ca cb (some team_b) h = rw h (rw (add-zero ca) refl)

-- The loop over the set counts each clicked position for its owner.
credit_loop-eq :
    (teams : List (Option Team)) (ps : List ℕ) (ca cb : ℕ)
    → InRange teams ps
    → credit_loop teams (distinct_of ps) ca cb
      ≡ ok (ca + clicks_of team_a 0 teams ps, cb + clicks_of team_b 0 teams ps)
unfolding distinct_of
credit_loop-eq teams [] ca cb h =
    rw (clicks_of-nil team_a 0 teams, clicks_of-nil team_b 0 teams)
      (unfold credit_loop in ground arith)
credit_loop-eq teams (p ∷ ps) ca cb h = elim (Bool-cases (contains (distinct_of ps) p)) [
  | inl old ↦
      let old' = sym (contains-distinct_of ps p) ∙ old in
      rw (old, clicks_of-again team_a 0 teams ps p old', clicks_of-again team_b 0 teams ps p old')
        (credit_loop-eq teams ps ca cb h.1)
  | inr new ↦
      let new' = sym (contains-distinct_of ps p) ∙ new in
      let (label, found) = get_elem?_in teams p h.0 in
      rw
        (
          new,
          clicks_of_new team_a 0 p p teams ps label (omega arith) new' found,
          clicks_of_new team_b 0 p p teams ps label (omega arith) new' found,
        )
        (credit_loop-step teams p (distinct_of ps) ca cb label found
          ∙ credit_loop-eq teams ps _ _ h.1
          ∙ ground arith)
]

-- On positions of the page, `team_draft_credit` counts for each team the positions that it owns and
-- that were clicked, each once whatever the order and the repetitions, and names the team with more.
pub team_draft_credit-eq :
    (teams : List (Option Team)) (clicked : List ℕ)
    → InRange teams clicked
    → (let ca = clicks_of team_a 0 teams clicked in
        let cb = clicks_of team_b 0 teams clicked in
        team_draft_credit teams clicked ≡ ok (ca, cb, winner_of ca cb))
unfolding team_draft_credit
team_draft_credit-eq teams clicked h = rw (credit_loop-eq teams clicked 0 0 h) (ground arith)

get_elem?_past {ℓ} : {A : Type ℓ} (xs : List A) (d : ℕ) → length xs ≤ d → get_elem? xs d ≡ none
get_elem?_past [] d h = refl
get_elem?_past (x ∷ xs) zero h = absurd (omega arith)
get_elem?_past (x ∷ xs) (suc d) h = get_elem?_past xs d (omega arith)

credit_loop_past :
    (teams : List (Option Team)) (ps : List ℕ) (p ca cb : ℕ)
    → contains ps p ≡ true
    → length teams ≤ p
    → credit_loop teams ps ca cb ≡ err index_error
credit_loop_past teams [] p ca cb h past = cc
credit_loop_past teams (q ∷ ps) p ca cb h past = elim (Bool-cases (nat_beq p q)) [
  | inl same ↦
      let eq = (nat_beq_iff p q).0 same in
      unfold credit_loop in rw (get_elem?_past teams q (rw (← eq) past)) refl
  | inr ne ↦
      let rest : contains ps p ≡ true = rw ne at h in
      elim (Option-cases (get_elem? teams q)) [
        | inl missing ↦ unfold credit_loop in rw missing refl
        | inr (label, found) ↦
            rw (credit_loop-step teams q ps ca cb label found)
              (credit_loop_past teams ps p _ _ rest past)
      ]
]

-- A click past the end of the page raises `IndexError`, whatever else was clicked.
pub team_draft_credit_past :
    (teams : List (Option Team)) (clicked : List ℕ) (p : ℕ)
    → contains clicked p ≡ true
    → length teams ≤ p
    → team_draft_credit teams clicked ≡ err index_error
unfolding team_draft_credit
team_draft_credit_past teams clicked p h past =
    rw
      (credit_loop_past teams (distinct_of clicked) p 0 0 (contains-distinct_of clicked p ∙ h) past)
      refl
