-- ===== src/Tests/Interleave.antt =====
-- Runs of py/hybridsearch/clicks/interleave.py and its theorems at concrete pages.
use hybrid_search.Prelude.{
  map, not, ℕ, ◌^◌, ◌≡◌, refl, Bool, true, false, List, [], ◌∷◌, ok, err, Option, none, some, arith,
  nat_eq, All,
}
use hybrid_search.Interleave.TeamDraft.{
  Team, team_a, team_b, coins_exhausted, index_error, team_draft,
}
use hybrid_search.Interleave.TeamDraft.Rules.{reference_draft}
use hybrid_search.Interleave.TeamDraft.Reference.{team_draft-eq-reference}
use hybrid_search.Interleave.TeamDraft.Outcome.{IsFull, IsFair}
use hybrid_search.Interleave.TeamDraft.Contract.{
  IsPage, team_draft-IsPage, team_draft-IsFull, team_draft-IsFair, team_draft_returns,
}
use hybrid_search.Interleave.TeamDraft.Credit.{
  Winner, distinct_of, team_a_wins, team_draft_credit, clicks_of, winner_of, team_draft_credit-eq,
  team_draft_credit_past,
}
use hybrid_search.Interleave.TeamDraft.Enumerate.{
  outcomes, enumerate_team_draft, enumerate_team_draft_lem, total_mass, IsOutcome,
}
use hybrid_search.Prelude.Order.{sort_by}
use hybrid_search.Prelude.Dict.{get_or, put}
use hybrid_search.Interleave.Balanced.{balanced}
use hybrid_search.Interleave.Balanced.Turns.{by_turns}
use hybrid_search.Interleave.Balanced.Order.{first_of, balanced-eq-first_of}
use hybrid_search.Interleave.TeamDraft.Swap.{swap_outcome, team_draft-swap}
use hybrid_search.Interleave.Balanced.Credit.{rank_in, balanced_credit}

abbrev ranking_a : List ℕ
ranking_a = 1 ∷ 2 ∷ 3 ∷ []

abbrev ranking_b : List ℕ
ranking_b = 2 ∷ 4 ∷ 1 ∷ []

abbrev coins : List Bool
coins = true ∷ false ∷ []

drafted :
    team_draft ranking_a ranking_b 4 coins
    ≡ ok (1 ∷ 2 ∷ 4 ∷ 3 ∷ [], team_a ∷ team_b ∷ team_b ∷ team_a ∷ [], 2)
unfolding team_draft
drafted = refl

drafted_short_of_coins : team_draft ranking_a ranking_b 4 (true ∷ []) ≡ err coins_exhausted
unfolding team_draft
drafted_short_of_coins = refl

balanced_run : balanced ranking_a ranking_b 4 true ≡ 1 ∷ 2 ∷ 4 ∷ 3 ∷ []
unfolding balanced
balanced_run = refl

team_draft-eq-reference_example :
    team_draft ranking_a ranking_b 4 coins ≡ reference_draft ranking_a ranking_b 4 coins
team_draft-eq-reference_example = team_draft-eq-reference ranking_a ranking_b 4 coins

team_draft-IsPage_example :
    IsPage ranking_a ranking_b 4 coins
      (1 ∷ 2 ∷ 4 ∷ 3 ∷ [])
      (team_a ∷ team_b ∷ team_b ∷ team_a ∷ [])
      2
team_draft-IsPage_example = team_draft-IsPage ranking_a ranking_b 4 coins drafted

team_draft-IsFull_example : IsFull ranking_a ranking_b 4 (1 ∷ 2 ∷ 4 ∷ 3 ∷ [])
team_draft-IsFull_example = team_draft-IsFull ranking_a ranking_b 4 coins drafted

team_draft-IsFair_example : IsFair ranking_a ranking_b 2 2 (1 ∷ 2 ∷ 4 ∷ 3 ∷ [])
team_draft-IsFair_example = team_draft-IsFair ranking_a ranking_b 4 coins drafted

team_draft_returns_example :
    (r : List ℕ × List Team × ℕ) × (team_draft ranking_a ranking_b 4 coins ≡ ok r)
team_draft_returns_example = team_draft_returns ranking_a ranking_b 4 coins (omega arith)

abbrev labels : List (Option Team)
labels = some team_a ∷ some team_b ∷ none ∷ some team_a ∷ []

credited : team_draft_credit labels (3 ∷ 0 ∷ 1 ∷ 3 ∷ []) ≡ ok (2, 1, team_a_wins)
unfolding team_draft_credit
credited = refl

team_draft_credit-eq_example :
    team_draft_credit labels (3 ∷ 0 ∷ 3 ∷ [])
    ≡ ok (
      clicks_of team_a 0 labels (3 ∷ 0 ∷ 3 ∷ []),
      clicks_of team_b 0 labels (3 ∷ 0 ∷ 3 ∷ []),
      winner_of
          (clicks_of team_a 0 labels (3 ∷ 0 ∷ 3 ∷ []))
          (clicks_of team_b 0 labels (3 ∷ 0 ∷ 3 ∷ [])),
    )
team_draft_credit-eq_example = team_draft_credit-eq labels (3 ∷ 0 ∷ 3 ∷ []) (omega arith)

team_draft_credit_past_example : team_draft_credit labels (1 ∷ 4 ∷ []) ≡ err index_error
team_draft_credit_past_example = team_draft_credit_past labels (1 ∷ 4 ∷ []) 4 refl (omega arith)

enumerate_team_draft_lem_example :
    (l : List (List ℕ × List Team × ℕ)) × (enumerate_team_draft ranking_a ranking_b 2 ≡ outcomes l)
    × All (IsOutcome ranking_a ranking_b 2) l
    × (total_mass 3 l ≡ 2 ^ 3)
enumerate_team_draft_lem_example = enumerate_team_draft_lem ranking_a ranking_b 2

balanced-eq-first_of_example :
    balanced ranking_a ranking_b 4 true ≡ first_of 4 [] (by_turns true ranking_a ranking_b)
balanced-eq-first_of_example = balanced-eq-first_of ranking_a ranking_b 4 true

turned : by_turns true ranking_a ranking_b ≡ 1 ∷ 2 ∷ 2 ∷ 4 ∷ 3 ∷ 1 ∷ []
turned = refl

team_draft-swap_example :
    team_draft ranking_b ranking_a 4 (map not coins)
    ≡ swap_outcome (team_draft ranking_a ranking_b 4 coins)
team_draft-swap_example = team_draft-swap ranking_a ranking_b 4 coins

balanced_credited :
    balanced_credit ranking_a ranking_b (1 ∷ 2 ∷ 4 ∷ []) (2 ∷ 0 ∷ []) ≡ ok (1, 1, Winner.tie)
unfolding balanced_credit sort_by distinct_of rank_in get_or put
balanced_credited = refl
