-- ===== src/Interleave/TeamDraft/Relabelled.antt =====
-- `team_draft_credit` of py/hybridsearch/clicks/interleave.py with the teams exchanged.
use hybrid_search.Prelude.{
  ℕ, suc, ◌≡◌, refl, ap, List, [], ◌∷◌, Result, ok, err, map, nat_eq, arith, Option, none, some,
  length,
}
use hybrid_search.Interleave.TeamDraft.{Team, team_a, team_b, Error}
use hybrid_search.Interleave.TeamDraft.Swap.{other}
use hybrid_search.Interleave.TeamDraft.Credit.{
  Winner, team_a_wins, team_b_wins, tie, owned_by, winner_of, team_draft_credit, clicks_of, InRange,
  team_draft_credit-eq,
}

abbrev pub other_label : Option Team → Option Team
other_label none = none
other_label (some t) = some (other t)

abbrev pub other_winner : Winner → Winner
other_winner team_a_wins = team_b_wins
other_winner team_b_wins = team_a_wins
other_winner tie = tie

owned_by-other :
    (t : Team) (label : Option Team) → owned_by t (other_label label) ≡ owned_by (other t) label
owned_by-other team_a none = refl
owned_by-other team_b none = refl
owned_by-other team_a (some team_a) = refl
owned_by-other team_a (some team_b) = refl
owned_by-other team_b (some team_a) = refl
owned_by-other team_b (some team_b) = refl

clicks_of-other :
    (t : Team) (i : ℕ) (teams : List (Option Team)) (clicked : List ℕ)
    → clicks_of t i (map other_label teams) clicked ≡ clicks_of (other t) i teams clicked
unfolding clicks_of
clicks_of-other t i [] clicked = refl
clicks_of-other t i (label ∷ teams) clicked =
    rw (owned_by-other t label, clicks_of-other t (suc i) teams clicked) refl

pub winner_of-swap : (ca cb : ℕ) → winner_of cb ca ≡ other_winner (winner_of ca cb)
unfolding winner_of
winner_of-swap ca cb = ground arith

length-other : (teams : List (Option Team)) → length (map other_label teams) ≡ length teams
length-other [] = refl
length-other (label ∷ teams) = ap suc (length-other teams)

abbrev pub other_credit : Result Error (ℕ × ℕ × Winner) → Result Error (ℕ × ℕ × Winner)
other_credit (ok (ca, cb, w)) = ok (cb, ca, other_winner w)
other_credit (err x) = err x

-- With every position given to the other team, the counts and the winner are exchanged.
pub team_draft_credit-swap :
    (teams : List (Option Team)) (clicked : List ℕ)
    → InRange teams clicked
    → team_draft_credit (map other_label teams) clicked
      ≡ other_credit (team_draft_credit teams clicked)
team_draft_credit-swap teams clicked h =
    rw
      (
        team_draft_credit-eq teams clicked h,
        team_draft_credit-eq (map other_label teams) clicked (rw (length-other teams) h),
        clicks_of-other team_a 0 teams clicked,
        clicks_of-other team_b 0 teams clicked,
        winner_of-swap (clicks_of team_a 0 teams clicked) (clicks_of team_b 0 teams clicked),
      )
      refl
