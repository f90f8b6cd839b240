-- ===== src/Tests/Models.antt =====
-- Runs of py/hybridsearch/clicks/models.py and its theorems for two sessions at two ranks.
use hybrid_search.Prelude.{ℕ, ◌≡◌, refl, true, false, List, [], ◌∷◌, map, ok, ◌>>=◌, arith}
use hybrid_search.Prelude.Text.{codes, str_eq}
use hybrid_search.Prelude.Dict.{get?}
use hybrid_search.Prelude.Int.{pos, negsuc}
use hybrid_search.Prelude.Float.{whole}
use hybrid_search.Clicks.Models.{
  Seen, dbn, simulate, make_model, perfect, dl_profile_arrays, dbn_columns, dbn_column,
  lookup_column,
}
use hybrid_search.Clicks.Models.Sessions.{Meeting, column_of, seen_by, dbn_simulate_lem}
use hybrid_search.Clicks.Models.Profiles.{cascade_lem}

-- A perfect result, whose click satisfies if the second draw is 0.
abbrev found : ℕ → Meeting whole
found second = record { grade = pos 3; first = 0; second = second; third = 0 }

abbrev empty_slot : Meeting whole
empty_slot = record { grade = negsuc 0; first = 0; second = 0; third = 0 }

abbrev two_ranks : List (List (Meeting whole))
two_ranks = (found 0 ∷ empty_slot ∷ []) ∷ (found 1 ∷ found 1 ∷ []) ∷ []

-- The tables of the profile "perfect", in whole numbers.
abbrev click_table : List ℕ
click_table = 0 ∷ 0 ∷ 1 ∷ []

abbrev stop_table : List ℕ
stop_table = 0 ∷ 0 ∷ 0 ∷ []

leaves_after_click :
    simulate whole
      (dbn (0 ∷ 0 ∷ 0 ∷ 1 ∷ []) (0 ∷ 0 ∷ 0 ∷ 1 ∷ []) 1)
      2
      (map (column_of whole) two_ranks)
    ≡ ok (
        record {
          clicks = true ∷ false ∷ [];
          satisfied = true ∷ false ∷ [];
          examined = true ∷ true ∷ [];
        }
        ∷ record {
          clicks = false ∷ true ∷ [];
          satisfied = false ∷ false ∷ [];
          examined = false ∷ true ∷ [];
        }
        ∷ [])
unfolding simulate dbn_columns dbn_column lookup_column
leaves_after_click = refl

dbn_simulate_lem_example :
    (seen : List Seen) × (simulate whole
        (dbn (0 ∷ 0 ∷ 0 ∷ 1 ∷ []) (0 ∷ 0 ∷ 0 ∷ 1 ∷ []) 1)
        2
        (map (column_of whole) two_ranks)
      ≡ ok seen)
    × (map (seen_by whole 0 click_table 0 click_table 1) seen
        ≡ (true, false, false) ∷ (true, true, false) ∷ [])
dbn_simulate_lem_example =
    dbn_simulate_lem whole 0 (0 ∷ 0 ∷ 1 ∷ []) 0 (0 ∷ 0 ∷ 1 ∷ []) 1 2 two_ranks 1
      (empty_slot ∷ found 1 ∷ []) (omega arith) (refl, (refl, tt))

perfect_tables :
    dl_profile_arrays whole perfect (0 ∷ 1 ∷ 3 ∷ 4 ∷ []) ≡ ok (0 ∷ click_table, 0 ∷ stop_table)
unfolding dl_profile_arrays get?
perfect_tables = refl

cascade_lem_example :
    (seen : List Seen) × ((make_model whole (codes "cascade") perfect 2 (λ r. 1) 0 >>= λ model.
    simulate whole model 2 (map (column_of whole) two_ranks))
      ≡ ok seen)
    × (map (seen_by whole 0 click_table 0 stop_table 0) seen
        ≡ (true, true, false) ∷ (true, true, false) ∷ [])
cascade_lem_example =
    cascade_lem whole perfect 2 (λ r. 1) 0 0 (0 ∷ 0 ∷ 1 ∷ []) 0 (0 ∷ 0 ∷ 0 ∷ []) 2 two_ranks 0
      (found 0 ∷ found 1 ∷ []) perfect_tables (omega arith) (refl, (refl, tt)) (refl, (refl, tt))
