-- ===== src/Interleave/TeamDraft/Rules.antt =====
-- The rules of team-draft interleaving as the docstring of interleave.py states them, with no
-- cursors, no set of shown documents and no counters.
use hybrid_search.Prelude.{
  ℕ, zero, suc, ◌+◌, Bool, true, false, List, [], ◌∷◌, ◌++◌, Result, ok, err, Eq, if◌then◌else◌,
  Option, none, some, ltb, ◌>>=◌, tally,
}
use hybrid_search.Interleave.TeamDraft.{Team, team_a, team_b, Error, coins_exhausted}
use hybrid_search.Interleave.TeamDraft.Cursor.{first_unseen}

abbrev pub is_team : Team → Team → Bool
is_team team_a team_a = true
is_team team_b team_b = true
is_team _ _ = false

-- The positions that a team owns.
abbrev pub team_size : Team → List Team → ℕ
team_size t teams = tally (is_team t) teams

-- The list so far, the owners of its positions, and the coins.
pub record Page {ℓ} (A : Type ℓ) : Type ℓ where
  pub out : List A
  pub teams : List Team
  pub used : ℕ
  pub coins : List Bool

pub data Next {ℓ} (A : Type ℓ) : Type ℓ where
  finished : Next A
  continued : Page A → Next A
  no_coin : Next A

-- "If TA < TB A picks; if TB < TA B picks; if equal, consume the next coin."
unfoldable pub decide_team : ℕ → ℕ → List Bool → Option (Bool × ℕ × List Bool)
decide_team ta tb [] =
    if ltb ta tb then some (true, 0, []) else if ltb tb ta then some (false, 0, []) else none
decide_team ta tb (c ∷ cs) =
    if ltb ta tb
    then some (true, 0, c ∷ cs)
    else if ltb tb ta
    then some (false, 0, c ∷ cs)
    else some (c, 1, cs)

module _ {ℓ} {A : Type ℓ} where
  -- "If the picking team has no document left, the other team picks instead (and owns the position)."
  unfoldable pub pick_doc : Bool → Option A → Option A → Option (Team × A)
  pick_doc true (some x) _ = some (team_a, x)
  pick_doc true none (some y) = some (team_b, y)
  pick_doc false _ (some y) = some (team_b, y)
  pick_doc false (some x) none = some (team_a, x)
  pick_doc _ none none = none

  unfoldable pub show : Page A → ℕ → List Bool → Option (Team × A) → Next A
  show p n cs none = finished
  show p n cs (some (team, doc)) = continued (record {
    out = p.out ++ doc ∷ [];
    teams = p.teams ++ team ∷ [];
    used = p.used + n;
    coins = cs;
  })

  unfoldable pub next_page : Page A → Option A → Option A → Option (Bool × ℕ × List Bool) → Next A
  unfolding pick_doc show
  next_page p none none _ = finished
  next_page p x y none = no_coin
  next_page p x y (some (pick_a, n, cs)) = show p n cs (pick_doc pick_a x y)

module _ {ℓ} {A : Type ℓ} ⦃e : Eq A⦄ (a b : List A) where
  unfoldable pub reference_round : Page A → Next A
  unfolding next_page decide_team first_unseen
  reference_round p =
      next_page p (first_unseen p.out a) (first_unseen p.out b)
        (decide_team (team_size team_a p.teams) (team_size team_b p.teams) p.coins)

  unfoldable pub after_page :
      (Page A → Result Error (Page A)) → Page A → Next A → Result Error (Page A)
  after_page rest p finished = ok p
  after_page rest p (continued q) = rest q
  after_page rest p no_coin = err coins_exhausted

  -- At most `n` more documents are shown.
  unfoldable pub reference_loop : ℕ → Page A → Result Error (Page A)
  unfolding reference_round after_page
  reference_loop zero p = ok p
  reference_loop (suc n) p = after_page (reference_loop n) p (reference_round p)

  unfoldable pub reference_draft : ℕ → List Bool → Result Error (List A × List Team × ℕ)
  unfolding reference_loop
  reference_draft k coins = do
    p ← reference_loop k (record { out = []; teams = []; used = 0; coins = coins })
    ok (p.out, p.teams, p.used)
