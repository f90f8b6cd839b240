-- ===== src/Tests/Mining.antt =====
-- A run of py/hybridsearch/rerank/mine.py and its theorem at one query.
use hybrid_search.Prelude.{ℕ, suc, ◌≤◌, ◌≡◌, refl, List, [], ◌∷◌, some, ok, arith}
use hybrid_search.Prelude.Text.{Str, codes}
use hybrid_search.Prelude.Decimal.{is_decimal, int_from, show_nat}
use hybrid_search.Prelude.Int.{ℤ, pos}
use hybrid_search.Prelude.Dict.{keys}
use hybrid_search.Prelude.Float.{whole}
use hybrid_search.Data.Words.{parse_int}
use hybrid_search.Rerank.Sampler.{Generator}
use hybrid_search.Rerank.Mine.{MineConfig, Vectors, mine_query, check_pids}
use hybrid_search.Rerank.Rows.{Counts, Stats, Row}
use hybrid_search.Rerank.Mine.Draws.{draws, fresh_count}
use hybrid_search.Rerank.Mine.Pools.{IsMined, mine_query_returns}

-- Draws that count up.
abbrev counting_up : Generator
counting_up = record {
  State = ℕ;
  seeded = λ s x. s;
  permutation = λ n s. ([], s);
  integers = λ n s. (s, suc s);
}

abbrev depth_two : MineConfig whole
depth_two = record { pool_depth = 2; dense_margin = 1; bm25_rel_margin = 1 }

abbrev vectors : Vectors whole
vectors = record {
  dense_score = λ qid pid. some 3;
  pos_scores = λ qid. (codes "7", 5) ∷ [];
  search = λ qid. (7, 9) ∷ (4, 3) ∷ [];
}

abbrev none_yet : Counts
none_yet = record { leak_removed = 0; fn_dropped = 0; unverifiable = 0; verified_kept = 0 }

abbrev start : Stats
start = record {
  queries = 0;
  no_bm25_hits = 0;
  pos_in_bm25_top1000 = 0;
  bm25 = none_yet;
  dense = none_yet;
}

abbrev judged : List (Str × ℤ)
judged = (codes "7", pos 1) ∷ []

abbrev hits : List (Str × ℕ)
hits = (codes "4", 6) ∷ (codes "7", 5) ∷ (codes "9", 2) ∷ []

hits_checked : check_pids whole (keys hits) ≡ ok tt
unfolding check_pids parse_int is_decimal int_from
hits_checked = refl

enough_draws : 2 ≤ fresh_count (keys judged) (draws counting_up 3 10 6)
unfolding show_nat
enough_draws = omega arith

mine_query_returns_example :
    (row : Row) × (after : Stats) × (rng' : ℕ) × (mine_query whole vectors depth_two counting_up 3
        10
        (codes "1")
        judged
        hits
        start
        6
      ≡ ok (row, after, rng'))
    × IsMined (codes "1") (keys judged) 2 start after row
mine_query_returns_example =
    mine_query_returns whole vectors depth_two counting_up 3 10 (codes "1") judged hits start 6
      hits_checked enough_draws
