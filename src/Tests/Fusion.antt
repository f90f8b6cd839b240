-- ===== src/Tests/Fusion.antt =====
-- Runs of py/hybridsearch/fusion and its theorems at two rankings of three documents, with whole
-- numbers and with integers for the scores.
use hybrid_search.Prelude.{
  ℕ, suc, ◌+◌, ◌*◌, ◌≡◌, refl, Bool, true, false, not, List, [], ◌∷◌, map, none, some, ok, arith,
  inl, ◌>>=◌, if◌then◌else◌, ◌||◌, contains, sym, ◌∙◌,
}
use hybrid_search.Prelude.Text.{Str, codes, str_eq}
use hybrid_search.Prelude.Int.{ℤ, pos, negsuc, leb_ℤ, sub_ℕ}
use hybrid_search.Prelude.Dict.{keys, get?, get_or, put}
use hybrid_search.Prelude.Order.{sort_by}
use hybrid_search.Prelude.Float.{Float, whole, min_from}
use hybrid_search.Eval.Metrics.{rank_run}
use hybrid_search.Fusion.Core.{Ranking, cut, rrf, weighted, docid_key, decimal, text, minmax}
use hybrid_search.Fusion.Core.{normalise}
use hybrid_search.Fusion.Core.Rrf.{IsFused, occurs, rrf_lem}
use hybrid_search.Fusion.Fast.{QueryCands, prepare, rrf_fast}
use hybrid_search.Fusion.Core.Unique.{IsApart}
use hybrid_search.Fusion.Fast.Agrees.{AddsZero, rrf_fast-eq-rrf}
use hybrid_search.Fusion.Core.Weighted.{IsWeighted, IsSetOrder, weighted_lem, weighted-set_order}
use hybrid_search.Fusion.Printed.{Printing}
use hybrid_search.Fusion.Printed.Descending.{Lowers}
use hybrid_search.Fusion.Printed.{run_file_scores}
use hybrid_search.Fusion.Runs.{Run, Line, write_run_exact}
use hybrid_search.Fusion.Runs.Written.{row_of, rows, write_run_exact_lem}

abbrev lex : Ranking whole
lex = (codes "10", 9) ∷ (codes "9", 5) ∷ (codes "x", 1) ∷ []

abbrev dense : Ranking whole
dense = (codes "9", 8) ∷ (codes "7", 2) ∷ []

-- Decimal ids come in numeric order, and before all others.
decimal_id : docid_key (codes "10") ≡ decimal 10
unfolding docid_key
decimal_id = refl

text_id : docid_key (codes "x1") ≡ text (codes "x1")
unfolding docid_key
text_id = refl

-- With `k = 0` every quotient but that of rank 1 is 0 in whole numbers.
fused :
    rrf whole (lex ∷ dense ∷ []) 0 none none
    ≡ ok ((codes "9", 1) ∷ (codes "10", 1) ∷ (codes "7", 0) ∷ (codes "x", 0) ∷ [])
unfolding rrf get_or sort_by put
fused = refl

rrf_lem_example :
    (out : Ranking whole) × (rrf whole (lex ∷ dense ∷ []) 0 (some (pos 2)) (some (pos 1))
      ≡ ok (cut whole (some (pos 1)) out))
    × IsFused whole 0 (map (cut whole (some (pos 2))) (lex ∷ dense ∷ [])) out
rrf_lem_example =
    rrf_lem whole (lex ∷ dense ∷ []) 0 (some (pos 2)) (some (pos 1)) refl refl
      ((refl, (refl, tt)), ((refl, (refl, tt)), tt))

as_listed : IsSetOrder (λ xs. xs)
as_listed xs u = (u, λ p. refl)

weighted_lem_example :
    (out : Ranking whole) × (weighted whole (λ xs. xs) lex dense 1 minmax none none
      ≡ ok (cut whole none out))
    × IsWeighted whole lex dense 1 minmax out
weighted_lem_example =
    weighted_lem whole (λ xs. xs) lex dense 1 minmax none none as_listed refl (inl refl) tt
      (refl, (refl, (refl, tt))) (refl, (refl, tt))

abbrev one : Ranking whole
one = (codes "9", 8) ∷ []

only_nine : (d : Str) → (contains (keys one) d || contains (keys one) d) ≡ true → d ≡ codes "9"
only_nine d h = ground (arith, str_eq.same_iff d (codes "9"))

weighted-set_order_example :
    weighted whole (λ xs. xs) one one 1 minmax none none
    ≡ weighted whole (λ xs. xs) one one 1 minmax none none
weighted-set_order_example =
    weighted-set_order whole (λ xs. xs) (λ xs. xs) one one 1 minmax none none as_listed as_listed
      (inl refl) tt (refl, tt) (refl, tt) (λ d e m n h. only_nine d m ∙ sym (only_nine e n))

apart : IsApart whole (one ∷ one ∷ [])
apart d e m n h = first d m ∙ sym (first e n)
  where
    first : (d : Str) → occurs whole (one ∷ one ∷ []) d ≡ true → d ≡ codes "9"
    first d h = ground (arith, str_eq.same_iff d (codes "9"))

adds_zero : AddsZero whole 0
adds_zero = record { none_left = refl; left = λ n. omega arith; right = λ n. omega arith }

-- The fast fusion of the two rankings, as `rrf` above gives it.
fast :
    (prepare whole (λ xs. xs) lex dense none >>= λ qc. ok (rrf_fast whole qc 0 none))
    ≡ ok ((codes "9", 1) ∷ (codes "10", 1) ∷ (codes "7", 0) ∷ (codes "x", 0) ∷ [])
unfolding prepare rrf_fast sort_by docid_key normalise min_from
fast = refl

rrf_fast-eq-rrf_example :
    (qc : QueryCands whole) × (prepare whole (λ xs. xs) one one (some (pos 5)) ≡ ok qc)
    × (rrf whole (one ∷ one ∷ []) 0 (some (pos 5)) none ≡ ok (rrf_fast whole qc 0 none))
rrf_fast-eq-rrf_example =
    rrf_fast-eq-rrf whole (λ xs. xs) one one 0 (some (pos 5)) none as_listed refl adds_zero refl
      (refl, tt) (refl, tt) apart

-- Integers for scores: what is below a number never ends.
abbrev pos_part : ℤ → ℕ
pos_part (pos n) = n
pos_part (negsuc n) = 0

abbrev neg_part : ℤ → ℕ
neg_part (pos n) = 0
neg_part (negsuc n) = suc n

abbrev add_ℤ : ℤ → ℤ → ℤ
add_ℤ a b = sub_ℕ (pos_part a + pos_part b) (neg_part a + neg_part b)

abbrev minus_ℤ : ℤ → ℤ → ℤ
minus_ℤ a b = sub_ℕ (pos_part a + neg_part b) (neg_part a + pos_part b)

abbrev mul_ℤ : ℤ → ℤ → ℤ
mul_ℤ a b =
    sub_ℕ (pos_part a * pos_part b + neg_part a * neg_part b)
      (pos_part a * neg_part b + neg_part a * pos_part b)

abbrev less_ℤ : ℤ → ℤ → Bool
less_ℤ a b = not (leb_ℤ b a)

abbrev sum_of : List ℤ → ℤ
sum_of [] = pos 0
sum_of (a ∷ rest) = add_ℤ a (sum_of rest)

less_ℤ_asymm : (a b : ℤ) → less_ℤ a b ≡ true → less_ℤ b a ≡ false
less_ℤ_asymm (pos a) (pos b) h = ground arith
less_ℤ_asymm (pos a) (negsuc b) h = cc
less_ℤ_asymm (negsuc a) (pos b) h = refl
less_ℤ_asymm (negsuc a) (negsuc b) h = ground arith

less_ℤ_cotrans : (a b c : ℤ) → less_ℤ b a ≡ false → less_ℤ c b ≡ false → less_ℤ c a ≡ false
less_ℤ_cotrans a b c h k = ground arith

abbrev integers : Float
integers = record {
  Num = ℤ;
  of_nat = pos;
  add = add_ℤ;
  sub = minus_ℤ;
  mul = mul_ℤ;
  div = λ a b. a;
  log2 = pos;
  sum = sum_of;
  sqrt = λ a. a;
  square = λ a. mul_ℤ a a;
  abs = λ a. pos (pos_part a + neg_part a);
  less = less_ℤ;
  sum_nil = refl;
  less_asymm = less_ℤ_asymm;
  less_cotrans = less_ℤ_cotrans;
}

abbrev exact : Printing integers
exact = record { inf = pos 1000; tiny = pos 1; unit = pos 1; rounded = λ a. a }

exact_falls :
    (a : ℤ)
    → less_ℤ
        (minus_ℤ a (
          mul_ℤ
            (if less_ℤ (pos (pos_part a + neg_part a)) (pos 1)
              then pos 1
              else pos (pos_part a + neg_part a))
            (pos 1)))
        a
      ≡ true
exact_falls (pos a) = ground arith
exact_falls (negsuc a) = ground arith

exact-Lowers : Lowers integers exact (λ left a. Unit) 0
exact-Lowers = record {
  wider = λ left a h. tt;
  round = λ left a h. 0;
  round_bound = λ left a h. omega arith;
  falls = λ left a h. exact_falls a;
  stays = λ left a n h b l. tt;
}

abbrev tied : Ranking integers
tied = (codes "9", pos 5) ∷ (codes "10", pos 5) ∷ []

printed : run_file_scores integers exact 0 tied ≡ some (pos 5 ∷ pos 0 ∷ [])
unfolding run_file_scores
printed = refl

abbrev tied_run : Run integers
tied_run = (codes "q1", tied) ∷ []

write_run_exact_lem_example :
    (lines : List (Line integers)) × (scores : List (Str × List (Str × ℤ))) × (write_run_exact
        integers exact 0 tied_run
        (codes "hs")
      ≡ ok (lines, scores))
    × ((q : Str) (r : Ranking integers)
        → get? tied_run q ≡ some r
        → (sd : List (Str × ℤ)) × (get? scores q ≡ some sd) × (rank_run integers sd ≡ keys r))
    × (map (row_of integers) lines ≡ rows integers tied_run)
write_run_exact_lem_example =
    write_run_exact_lem integers exact 0 (λ left a. Unit) exact-Lowers tied_run (codes "hs")
      (refl, tt) ((refl, (refl, tt)), (refl, tt, (refl, tt, tt)), tt)
