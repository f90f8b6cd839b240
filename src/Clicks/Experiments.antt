-- ===== src/Clicks/Experiments.antt =====
-- What `analyse` of py/hybridsearch/clicks/analyze_events.py reads off the pages of an experiment.
use hybrid_search.Prelude.{
  ℕ, suc, Bool, true, false, List, [], ◌∷◌, ◌++◌, map, Option, none, some, Result, ok, ◌>>=◌,
  if◌then◌else◌, ◌==◌, contains, leb, nat_eq, get_elem?,
}
use hybrid_search.Prelude.Text.{Str, codes, str_eq}
use hybrid_search.Prelude.Dict.{keys, get?, get_or, put}
use hybrid_search.Prelude.Order.{sort_by}
use hybrid_search.Interleave.TeamDraft as TeamDraft
use hybrid_search.Interleave.TeamDraft.{Team, team_a, team_b}
use hybrid_search.Interleave.TeamDraft.Credit.{
  Winner, team_a_wins, team_b_wins, tie, team_draft_credit,
}
use hybrid_search.Clicks.Events.Pages.{Page, interleaved}
use hybrid_search.Clicks.Statistics.{Outcome, a_wins, b_wins, tied}

-- Pages by experiment, `none` for those of none.
abbrev pub Groups : Type 0
Groups = List (Option Str × List Page)

abbrev pub same_id : Option Str → Option Str → Bool
same_id none none = true
same_id none (some t) = false
same_id (some s) none = false
same_id (some s) (some t) = s == t

-- `by_exp[p.experiment_id].append(p)`
unfoldable pub add_page : Groups → Option Str → Page → Groups
add_page [] id p = (id, p ∷ []) ∷ []
add_page ((j, pages) ∷ groups) id p =
    let rest = add_page groups id p in
    if same_id id j then (j, pages ++ p ∷ []) ∷ groups else (j, pages) ∷ rest

unfoldable pub group_pages : List Page → Groups → Groups
unfolding add_page
group_pages [] groups = groups
group_pages (p ∷ pages) groups = group_pages pages (add_page groups p.experiment_id p)

-- The values of a `set`.
abbrev pub sessions_of : List Page → List Str
sessions_of [] = []
sessions_of (p ∷ pages) =
    let rest = sessions_of pages in if contains rest p.session_id then rest else p.session_id ∷ rest

abbrev pub any_interleaved : List Page → Bool
any_interleaved [] = false
any_interleaved (p ∷ pages) = if interleaved p then true else any_interleaved pages

-- `_kind`, of the kinds in the configuration that are not empty.
unfoldable pub kind_of : List (Str × Str) → Str → List Page → Str
unfolding get?
kind_of config id pages = elim (get? config id) [
  | some kind ↦ kind
  | none ↦ if any_interleaved pages then codes "interleave" else codes "ab"
]

-- The label of a team, if it is "A" or "B".
abbrev pub team_of : Option Str → Option Team
team_of none = none
team_of (some t) =
    if t == codes "A" then some team_a else if t == codes "B" then some team_b else none

-- `sorted(p.docs)`
abbrev pub ranks_of : Page → List ℕ
ranks_of p = sort_by leb (keys p.docs)

-- `[p.teams.get(r, "") for r in ranks]`
abbrev pub teams_of : Page → List (Option Team)
unfolding get?
teams_of p = map (λ r. team_of (get? p.teams r)) (ranks_of p)

-- `pos[r]`, if `r` is among the ranks, from position `i` on.
abbrev pub position : ℕ → List ℕ → ℕ → Option ℕ
position i [] r = none
position i (j ∷ ranks) r = let rest = position (suc i) ranks r in if r == j then some i else rest

-- `[pos[r] for r in p.clicked_ranks if r in pos]`
abbrev pub clicked_positions : List ℕ → List ℕ → List ℕ
clicked_positions ranks [] = []
clicked_positions ranks (r ∷ clicked) = elim (position 0 ranks r) [
  | none ↦ clicked_positions ranks clicked
  | some i ↦ i ∷ clicked_positions ranks clicked
]

abbrev pub outcome_of : Winner → Outcome
outcome_of team_a_wins = a_wins
outcome_of team_b_wins = b_wins
outcome_of tie = tied

unfoldable pub page_outcome : Page → Result TeamDraft.Error Outcome
unfolding teams_of get? team_draft_credit
page_outcome p =
    team_draft_credit (teams_of p) (clicked_positions (ranks_of p) p.clicked_ranks) >>= λ c.
    ok (outcome_of c.2)

unfoldable pub outcomes_of : List Page → Result TeamDraft.Error (List Outcome)
unfolding page_outcome
outcomes_of [] = ok []
outcomes_of (p ∷ pages) = do o ← page_outcome p; rest ← outcomes_of pages; ok (o ∷ rest)

-- `rank1_a` and `rank1_n`
unfoldable pub rank1_counts : List Page → ℕ → ℕ → ℕ × ℕ
unfolding get?
rank1_counts [] a n = (a, n)
rank1_counts (p ∷ pages) a n = elim (get? p.teams 1) [
  | none ↦ rank1_counts pages a n
  | some t ↦ rank1_counts pages (if t == codes "A" then suc a else a) (suc n)
]

-- `p.variant or "?"`
abbrev pub arm_of : Option Str → Str
arm_of none = codes "?"
arm_of (some []) = codes "?"
arm_of (some (c ∷ cs)) = c ∷ cs

unfoldable pub arms_of : List Page → List (Str × List Page) → List (Str × List Page)
unfolding get_or put
arms_of [] arms = arms
arms_of (p ∷ pages) arms =
    arms_of pages (put arms (arm_of p.variant) (get_or arms (arm_of p.variant) [] ++ p ∷ []))

abbrev pub first_name : List Str → Str
first_name [] = []
first_name (x ∷ xs) = x

-- `ctrl` and `trt`, of the arms' sorted names, of which there is one at least.
unfoldable pub control_of : List Str → Str
control_of names = if contains names (codes "control") then codes "control" else first_name names

unfoldable pub treatment_of : List Str → Option Str
treatment_of names =
    if contains names (codes "treatment") then some (codes "treatment") else get_elem? names 1
