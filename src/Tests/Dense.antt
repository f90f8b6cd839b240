-- ===== src/Tests/Dense.antt =====
-- Runs of py/hybridsearch/dense/encode.py and its theorems, with a model whose rows are lengths.
use hybrid_search.Prelude.{
  ℕ, ◌≡◌, ◌≢◌, refl, true, false, List, [], ◌∷◌, map, none, some, ok, All, take, length,
}
use hybrid_search.Prelude.Text.{Str, codes}
use hybrid_search.Prelude.{◌++◌}
use hybrid_search.Prelude.Order.{sort_by}
use hybrid_search.Prelude.Decimal.{is_decimal, int_from}
use hybrid_search.Data.Words.{split_tab, parse_int}
use hybrid_search.Dense.Encoder.{Model, Limits, Matrix, argsort, batches, encode}
use hybrid_search.Dense.Encoder.Budget.{IsBatch, batches-argsort, encode_lem}
use hybrid_search.Dense.Lock.{
  trying, emptied, inside, World, strip, up_to_pid, judge_pid, lock_owner_dead, name_of, try_mkdir,
  look, report, unlink_owner, remove_dir, write_owner, tries, looks, Steps, here, next,
}
use hybrid_search.Dense.Lock.Foreign.{IsForeign, Steps-IsForeign}
use hybrid_search.Dense.Passages.{Inputs, Disk, run, encode_all}
use hybrid_search.Dense.Passages.Headers.{HasHeaders}
use hybrid_search.Dense.Passages.Safe.{IsSafe, IsRight}
use hybrid_search.Dense.Passages.Runs.{encode_all_cut, encode_all_returns}

abbrev lengths : Model
lengths = record { Row = ℕ; token_count = λ t n. length t; encode_batch = λ ts n. map length ts }

abbrev small : Limits
small = record { token_budget = 6; max_batch = 2 }

abbrev words : List Str
words = codes "abcdefgh" ∷ codes "ab" ∷ codes "abc" ∷ codes "a" ∷ []

-- The texts by length: two, one of three ids, and the one that is over the budget by itself.
batched :
    batches small (8 ∷ 2 ∷ 3 ∷ 1 ∷ []) 4 (argsort (8 ∷ 2 ∷ 3 ∷ 1 ∷ []))
    ≡ (3 ∷ 1 ∷ []) ∷ (2 ∷ []) ∷ (0 ∷ []) ∷ []
unfolding batches argsort sort_by
batched = refl

batches-argsort_example :
    All
      (IsBatch small (8 ∷ 2 ∷ 3 ∷ 1 ∷ []))
      (batches small (8 ∷ 2 ∷ 3 ∷ 1 ∷ []) 4 (argsort (8 ∷ 2 ∷ 3 ∷ 1 ∷ [])))
batches-argsort_example = batches-argsort small (8 ∷ 2 ∷ 3 ∷ 1 ∷ []) 4

encode_lem_example : encode lengths small words 512 2 ≡ some 3
encode_lem_example = encode_lem lengths small words 512 length 2 (λ ts. refl)

abbrev two_passages : Inputs lengths
two_passages = record {
  limits = small;
  zeros = 0;
  ids = 4 ∷ 7 ∷ [];
  collection = (codes "4" ++ 9 ∷ codes "abc") ∷ (codes "7" ++ 9 ∷ codes "de") ∷ [];
  has_room = true;
  norms_ok = λ mm. true;
}

abbrev fresh : Disk lengths
fresh = record {
  final = none;
  final_headed = false;
  partial = none;
  partial_headed = false;
  progress = none;
  log = [];
  stats = none;
}

fresh-IsSafe : IsSafe lengths two_passages length fresh
fresh-IsSafe = record { published = λ mm h. cc; kept = λ h. refl }

encode_all_cut_example :
    IsSafe lengths two_passages length
      (run lengths (take 5 (encode_all lengths two_passages fresh).0) fresh)
    × (◌≢◌ {A = ℕ} 5 1
        → HasHeaders lengths fresh
        → HasHeaders lengths (run lengths (take 5 (encode_all lengths two_passages fresh).0) fresh))
encode_all_cut_example =
    encode_all_cut lengths two_passages length fresh 5 (λ ts. refl) fresh-IsSafe

two_stats :
    (encode_all lengths two_passages fresh).1 ≡ ok (some (record { n = 2; chunks_logged = 0 }))
unfolding encode_all split_tab parse_int is_decimal int_from
two_stats = refl

-- A run that is cut off before the header of a new file is followed by one that publishes a file
-- without a header.
headless :
    let opened = run lengths (take 1 (encode_all lengths two_passages fresh).0) fresh in
    (run lengths (encode_all lengths two_passages opened).0 opened).final_headed ≡ false
unfolding run encode_all split_tab parse_int is_decimal int_from
headless = refl

encode_all_returns_example :
    (mm : Matrix lengths) × ((run lengths (encode_all lengths two_passages fresh).0 fresh).final
      ≡ some mm)
    × IsRight lengths two_passages length mm
    × (HasHeaders lengths fresh
        → (run lengths (encode_all lengths two_passages fresh).0 fresh).final_headed ≡ true)
encode_all_returns_example =
    encode_all_returns lengths two_passages length fresh
      (some (record { n = 2; chunks_logged = 0 })) (λ ts. refl) fresh-IsSafe two_stats

abbrev other_tool : World
other_tool = record {
  lock = true;
  owner = some (codes "mps-lock pid=7");
  is_there = λ pid. false;
  phase = λ i. trying;
}

other_tool-IsForeign : IsForeign (codes "mps-lock pid=7") other_tool
unfolding strip
other_tool-IsForeign = record { lock = refl; text = refl; other = refl; waiting = λ i. refl }

looked_once : Steps other_tool (look 0 (try_mkdir 0 other_tool))
unfolding try_mkdir
looked_once = next (next here (tries other_tool 0 refl)) (looks (try_mkdir 0 other_tool) 0 refl)

Steps-IsForeign_example : IsForeign (codes "mps-lock pid=7") (look 0 (try_mkdir 0 other_tool))
Steps-IsForeign_example = Steps-IsForeign (codes "mps-lock pid=7") looked_once other_tool-IsForeign

-- The directory of an encoder that is gone.
abbrev left_behind : World
left_behind = record {
  lock = true;
  owner = some (name_of 7 (codes "then"));
  is_there = λ pid. false;
  phase = λ i. trying;
}

abbrev both_judge : World
both_judge = report 1 (report 0 (look 1 (look 0 (try_mkdir 1 (try_mkdir 0 left_behind)))))

abbrev break_and_take : ℕ → World → World
break_and_take i w =
    write_owner (name_of i (codes "now")) i
      (try_mkdir i (remove_dir i trying (unlink_owner i emptied w)))

-- Two processes that judge before either breaks the lock both have it in the end.
two_holders :
    let w = break_and_take 1 (break_and_take 0 both_judge) in
    (w.phase 0 ≡ inside) × (w.phase 1 ≡ inside)
unfolding try_mkdir look report unlink_owner remove_dir write_owner lock_owner_dead judge_pid strip
    up_to_pid parse_int is_decimal int_from
two_holders = (refl, refl)
