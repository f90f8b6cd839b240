-- ===== src/Rerank/Rows.antt =====
-- The rows that py/hybridsearch/rerank/mine.py writes, their counts, the queries of the runs that it
-- reads, and the random pool.
use hybrid_search.Prelude.{
  ℕ, zero, suc, Bool, true, not, List, [], ◌∷◌, ◌++◌, Option, none, some, Result, ok, err, ◌>>=◌,
  ◌==◌, if◌then◌else◌, contains, nat_eq, and_then,
}
use hybrid_search.Prelude.Text.{Str, str_eq}
use hybrid_search.Prelude.Decimal.{show_nat}
use hybrid_search.Rerank.Sampler.{Generator}
use hybrid_search.Rerank.Texts.{Failure}

pub data Error : Type 0 where
  streaming : Failure → Error
  bad_number : Str → Error
  no_space : Error
  -- The fuel of `random_pool`; the source would go on drawing.
  no_fuel : Error

-- `line[:line.index(" ")]`
unfoldable pub first_field : Str → Option Str
first_field [] = none
first_field (c ∷ cs) =
    let rest = and_then (first_field cs) (λ word. some (c ∷ word)) in
    if c == 32 then some [] else rest

-- `q != last`
abbrev pub is_new : Option Str → Str → Bool
is_new none q = true
is_new (some last) q = not (q == last)

abbrev pub add_qid : List Str → Str → List Str
add_qid out q = if contains out q then out else out ++ q ∷ []

-- The loop of `run_qids` over the lines of a file, with `last`.
unfoldable pub qids_from : List Str → Option Str → List Str → Result Error (List Str)
unfolding first_field
qids_from [] last out = ok out
qids_from (line ∷ lines) last out = elim (first_field line) [
  | none ↦ err no_space
  | some q ↦ qids_from lines (some q) (if is_new last q then add_qid out q else out)
]

unfoldable pub run_qids : List (List Str) → List Str → Result Error (List Str)
unfolding qids_from
run_qids [] out = ok out
run_qids (lines ∷ files) out = qids_from lines none out >>= λ more. run_qids files more

-- `random_pool`, with the pids that are seen and fuel for the draws; `n` of them are missing.
unfoldable pub random_pool :
    (G : Generator) → ℕ → ℕ → List Str → ℕ → G.State → Result Error (List Str × G.State)
random_pool G fuel collection seen zero rng = ok ([], rng)
random_pool G zero collection seen (suc n) rng = err no_fuel
random_pool G (suc fuel) collection seen (suc n) rng =
    let drawn = G.integers collection rng in
    let p = show_nat drawn.0 in
    let again = random_pool G fuel collection seen (suc n) drawn.1 in
    let more =
      random_pool G fuel collection (p ∷ seen) n drawn.1 >>= λ rest. ok (p ∷ rest.0, rest.1) in
    if contains seen p then again else more

-- A source's entries in `stats`.
pub record Counts : Type 0 where
  pub leak_removed : ℕ
  pub fn_dropped : ℕ
  pub unverifiable : ℕ
  pub verified_kept : ℕ

pub record Stats : Type 0 where
  pub queries : ℕ
  pub no_bm25_hits : ℕ
  pub pos_in_bm25_top1000 : ℕ
  pub bm25 : Counts
  pub dense : Counts

-- A line of the output.
pub record Row : Type 0 where
  pub qid : Str
  pub positives : List Str
  pub bm25 : List Str
  pub dense : List Str
  pub random : List Str
