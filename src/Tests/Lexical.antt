-- ===== src/Tests/Lexical.antt =====
-- Runs of py/hybridsearch/lexical/parity.py and its theorem at two queries, with whole numbers.
use hybrid_search.Prelude.{◌≡◌, refl, [], ◌∷◌, none, some, ok, if◌then◌else◌}
use hybrid_search.Prelude.Text.{codes, str_eq}
use hybrid_search.Prelude.Dict.{get_or, put}
use hybrid_search.Prelude.Order.{sort_by}
use hybrid_search.Prelude.Float.{whole}
use hybrid_search.Prelude.Decimal.{is_decimal, int_from, show_nat}
use hybrid_search.Data.Files.{ScoreText}
use hybrid_search.Lexical.Parity.{Hits, Runs, Report, classify, read_trec, compare_runs}
use hybrid_search.Lexical.Terms.{tie_cutoff, score}

abbrev digits : ScoreText whole
digits = record {
  parse = λ s. if is_decimal s then some (int_from 0 s) else none;
  print = show_nat;
}

abbrev ours : Hits whole digits
ours = (codes "1", 9) ∷ (codes "2", 5) ∷ []

abbrev theirs : Hits whole digits
theirs = (codes "1", 9) ∷ (codes "3", 5) ∷ []

-- Two documents that tie with the last score, and two that do not.
cut_tie : classify whole digits (λ x. x) 0 ours theirs ≡ tie_cutoff
unfolding classify get_or put
cut_tie = refl

no_tie : classify whole digits (λ x. x) 0 ((codes "1", 9) ∷ (codes "2", 7) ∷ []) theirs ≡ score
unfolding classify get_or put
no_tie = refl

abbrev empty : Report whole digits (λ x. x) 0
empty = record { buckets = []; overlaps = []; examples = [] }

abbrev our_runs : Runs whole digits
our_runs = (codes "q1", ours) ∷ (codes "q2", ours) ∷ []

abbrev their_runs : Runs whole digits
their_runs = (codes "q1", ours) ∷ (codes "q2", theirs) ∷ []

abbrev compared : Report whole digits (λ x. x) 0
compared =
    compare_runs whole digits (λ x. x) 0 none none our_runs their_runs
      (codes "q1" ∷ codes "q2" ∷ []) empty

read_sorted :
    read_trec whole digits (codes "q1 Q0 3 2 5 x" ∷ codes "q1 Q0 1 1 9 x" ∷ [])
    ≡ ok ((codes "q1", theirs) ∷ [])
unfolding read_trec get_or put is_decimal int_from sort_by
read_sorted = refl

counted : compared.buckets ≡ (codes "identical", 1) ∷ (codes "tie_cutoff", 1) ∷ []
unfolding compare_runs get_or put
counted = refl
