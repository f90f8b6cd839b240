-- ===== src/Tests/Data.antt =====
-- Runs of py/hybridsearch/data/io.py, rerank/text.py, data/subset.py and data/prepare.py and their
-- theorems at small files.
use hybrid_search.Prelude.{
  ℕ, zero, suc, ◌+◌, ◌≡◌, refl, true, List, [], ◌∷◌, none, some, ok, nat_eq, if◌then◌else◌, ◌++◌,
  ◌⊎◌,
}
use hybrid_search.Prelude.Text.{Str, codes, str_eq}
use hybrid_search.Prelude.Decimal.{is_decimal, int_from, show_nat}
use hybrid_search.Prelude.Int.{pos}
use hybrid_search.Prelude.Float.{whole}
use hybrid_search.Data.Words.{split, split_tab, parse_int}
use hybrid_search.Prelude.Dict.{put, get_or, get?}
use hybrid_search.Prelude.Order.{sort_by}
use hybrid_search.Data.Tables.{entry_at, put_entry}
use hybrid_search.Data.Files.{
  Qrels, ScoreText, Run, read_qrels, write_qrels, read_run, read_queries,
}
use hybrid_search.Data.Files.RoundTrip.{read_qrels-write_qrels}
use hybrid_search.Data.Subset.{Choice, Sizes, Inputs, Made, main}
use hybrid_search.Data.Effects.{◌>>=◌}
use hybrid_search.Data.Prepare as Prepare
use hybrid_search.Data.Prepare.{
  Found, Manifest, tarball, make_dir, extract, write_marker, unlink_tar, write_manifest,
}
use hybrid_search.Data.Prepare.Verified.{AreVerified, main-AreVerified}
use hybrid_search.Data.Subset.Ready.{has_ready, is_ok, main-ready}
use hybrid_search.Data.Subset.Members.{IsWhole, main-members}
use hybrid_search.Rerank.Texts.{iter_run_groups}
use hybrid_search.Rerank.Texts.Streams.{iter_run_groups-read_run}

abbrev judged : Qrels
judged =
    (codes "12", (codes "7", pos 2) ∷ (codes "3", pos 0) ∷ [])
    ∷ (codes "9", (codes "7", pos 1) ∷ [])
    ∷ []

read_qrels-write_qrels_example :
    (back : Qrels) × (read_qrels (write_qrels judged) ≡ ok back)
    × ((q d : Str) → entry_at back q d ≡ entry_at judged q d)
unfolding get_or
read_qrels-write_qrels_example =
    read_qrels-write_qrels judged
      (((refl, refl), ((refl, refl), ((refl, refl), tt))), (((refl, refl), ((refl, refl), tt)), tt))

abbrev digits : ScoreText whole
digits = record {
  parse = λ s. if is_decimal s then some (int_from 0 s) else none;
  print = show_nat;
}

abbrev run_lines : List Str
run_lines = codes "1 Q0 10 1 9 x" ∷ codes "1 Q0 11 2 5 x" ∷ codes "" ∷ codes "2 Q0 10 1 4 x" ∷ []

abbrev run : Run whole digits
run = (codes "1", (codes "10", 9) ∷ (codes "11", 5) ∷ []) ∷ (codes "2", (codes "10", 4) ∷ []) ∷ []

run_lines_read : read_run whole digits run_lines ≡ ok run
unfolding read_run is_decimal int_from split put_entry put get_or
run_lines_read = refl

run_lines_streamed : (iter_run_groups whole digits none run_lines).1 ≡ none
unfolding iter_run_groups is_decimal int_from split
run_lines_streamed = refl

iter_run_groups-read_run_example : (iter_run_groups whole digits none run_lines).0 ≡ run
iter_run_groups-read_run_example =
    iter_run_groups-read_run whole digits run_lines run run_lines_read run_lines_streamed

-- A generator that picks the first places.
abbrev first_places : ℕ → ℕ → List ℕ
first_places i zero = []
first_places i (suc k) = i ∷ first_places (i + 1) k

abbrev from_front : Choice
from_front = record { State = ℕ; seeded = λ s. s; choice = λ n k s. (first_places 0 k, s) }

abbrev small : Sizes
small = record { seed = 1; subset_size = 2; n_train_tune = 1; n_train50k = 1 }

abbrev small_inputs : Inputs
small_inputs = record {
  has_room = true;
  qrels = (codes "dev", codes "1 0 4 1" ∷ []) ∷ [];
  collection =
      (codes "2" ++ 9 ∷ codes "a")
      ∷ (codes "4" ++ 9 ∷ codes "b")
      ∷ (codes "6" ++ 9 ∷ codes "c")
      ∷ [];
  train_queries = (codes "5" ++ 9 ∷ codes "x") ∷ (codes "8" ++ 9 ∷ codes "y") ∷ [];
  train_qrels = codes "5 0 4 1" ∷ codes "8 0 6 1" ∷ [];
}

abbrev small_made : Made
small_made = record {
  wanted = 4 ∷ [];
  subset = 2 ∷ 4 ∷ [];
  train_tune = codes "5" ∷ [];
  train50k = codes "8" ∷ [];
}

main-small : (main from_front small small_inputs (codes "t") (codes "u") []).1 ≡ ok small_made
unfolding main ◌>>=◌ is_decimal int_from read_qrels split parse_int put_entry put get_or split_tab
    sort_by read_queries
main-small = refl

main-ready_example :
    has_ready true (main from_front small small_inputs (codes "t") (codes "u") []).0
    ≡ is_ok (main from_front small small_inputs (codes "t") (codes "u") []).1
main-ready_example = main-ready from_front small small_inputs (codes "t") (codes "u") [] true

main-members_example : IsWhole from_front small small_inputs small_made
main-members_example =
    main-members from_front small small_inputs (codes "t") (codes "u") [] small_made main-small

abbrev downloads : Found
downloads = record {
  digests = (tarball, codes "aa") ∷ (codes "queries.gz", codes "bb") ∷ [];
  marker = none;
  has_room = true;
  extracted = [];
  qrels_lines = λ tag. [];
  query_lines = λ tag. [];
}

abbrev published : Manifest
published = (tarball, codes "aa") ∷ (codes "queries.gz", codes "bb") ∷ []

unpacked :
    (Prepare.main downloads published [] []).0
    ≡ make_dir (codes "msmarco")
      ∷ make_dir (codes "trec-dl")
      ∷ extract
      ∷ write_marker (codes "aa")
      ∷ unlink_tar
      ∷ write_manifest published []
      ∷ []
unfolding Prepare.main get?
unpacked = refl

main-AreVerified_example :
    ((Prepare.main downloads published [] []).0
      ≡ make_dir (codes "msmarco") ∷ make_dir (codes "trec-dl") ∷ [])
    ⊎ AreVerified downloads published
main-AreVerified_example = main-AreVerified downloads published [] []
