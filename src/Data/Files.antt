-- ===== src/Data/Files.antt =====
-- The text formats of py/hybridsearch/data/io.py. A file is the list of its lines, without their
-- line feeds; `float(s)` and the printing of a score are parameters.
pub mod RoundTrip
use hybrid_search.Prelude.{
  ℕ, suc, Bool, true, false, List, [], ◌∷◌, ◌++◌, Option, none, some, Result, ok, err, ◌>>=◌,
  if◌then◌else◌, ltb,
}
use hybrid_search.Prelude.Text.{Str, codes, str_leb, str_eq}
use hybrid_search.Prelude.Decimal.{is_decimal, int_from, show_nat}
use hybrid_search.Prelude.Dict.{keys, get_or, put}
use hybrid_search.Prelude.Int.{ℤ, pos}
use hybrid_search.Prelude.Order.{sort_by}
use hybrid_search.Prelude.Float.{Float}
use hybrid_search.Data.Words.{split, unwords, split_tab, parse_int, show_int}
use hybrid_search.Data.Tables.{Table, put_entry}

-- The exceptions, all of them `ValueError`.
pub data Error : Type 0 where
  bad_line : Str → Error
  bad_number : Str → Error
  no_tab : Str → Error

abbrev pub or_error {ℓ} : {A : Type ℓ} → Option A → Error → Result Error A
or_error none e = err e
or_error (some a) e = ok a

abbrev pub Qrels : Type 0
Qrels = Table ℤ

-- The parts of a line of judgments, and the dict.
unfoldable pub read_judgment : Str → List Str → Qrels → Result Error Qrels
read_judgment line [] qrels = ok qrels
read_judgment line (qid ∷ iter ∷ docid ∷ grade ∷ []) qrels =
    or_error (parse_int grade) (bad_number grade) >>= λ g. ok (put_entry qrels qid docid g)
read_judgment line parts qrels = err (bad_line line)

-- The loop of `read_qrels`.
unfoldable pub read_judgments : List Str → Qrels → Result Error Qrels
unfolding read_judgment
read_judgments [] qrels = ok qrels
read_judgments (line ∷ lines) qrels =
    read_judgment line (split line) qrels >>= λ more. read_judgments lines more

unfoldable pub read_qrels : List Str → Result Error Qrels
unfolding read_judgments
read_qrels lines = read_judgments lines []

-- The order of `(int(x), x) if x.isdigit() else (0, x)`.
abbrev id_number : Str → ℕ
id_number x = if is_decimal x then int_from 0 x else 0

abbrev pub id_before : Str → Str → Bool
id_before x y =
    if ltb (id_number x) (id_number y)
    then true
    else if ltb (id_number y) (id_number x)
    then false
    else str_leb x y

unfoldable pub judgment_lines : Str → List (Str × ℤ) → List Str → List Str
judgment_lines qid docs [] = []
judgment_lines qid docs (docid ∷ docids) =
    unwords (qid ∷ codes "0" ∷ docid ∷ show_int (get_or docs docid (pos 0)) ∷ [])
    ∷ judgment_lines qid docs docids

unfoldable pub qrels_lines : Qrels → List Str → List Str
unfolding judgment_lines
qrels_lines qrels [] = []
qrels_lines qrels (qid ∷ qids) =
    judgment_lines qid (get_or qrels qid []) (sort_by id_before (keys (get_or qrels qid [])))
    ++ qrels_lines qrels qids

unfoldable pub write_qrels : Qrels → List Str
unfolding qrels_lines
write_qrels qrels = qrels_lines qrels (sort_by id_before (keys qrels))

-- The loop of `read_queries`.
unfoldable pub read_queries_from : List Str → List (Str × Str) → Result Error (List (Str × Str))
read_queries_from [] out = ok out
read_queries_from ([] ∷ lines) out = read_queries_from lines out
read_queries_from ((c ∷ line) ∷ lines) out =
    or_error (split_tab (c ∷ line)) (no_tab (c ∷ line)) >>= λ p.
    read_queries_from lines (put out p.0 p.1)

unfoldable pub read_queries : List Str → Result Error (List (Str × Str))
unfolding read_queries_from
read_queries lines = read_queries_from lines []

unfoldable pub write_queries : List (Str × Str) → List Str
write_queries [] = []
write_queries ((qid, text) ∷ queries) = (qid ++ 9 ∷ text) ∷ write_queries queries

-- `iter_collection`
unfoldable pub iter_collection : List Str → Result Error (List (ℤ × Str))
iter_collection [] = ok []
iter_collection (line ∷ lines) = do
  p ← or_error (split_tab line) (no_tab line)
  pid ← or_error (parse_int p.0) (bad_number p.0)
  rest ← iter_collection lines
  ok ((pid, p.1) ∷ rest)

-- Scores as text: `float(s)` and `f"{x:.6f}"`.
pub record ScoreText (F : Float) : Type 0 where
  pub parse : Str → Option F.Num
  pub print : F.Num → Str

module _ (F : Float) (T : ScoreText F) where
  open F use {Num}
  open T use {parse, print}

  abbrev pub Run : Type 0
  Run = Table Num

  -- The parts of a line of a run, of which there are at least six.
  unfoldable pub read_hit : Str → List Str → Run → Result Error Run
  read_hit line [] run = ok run
  read_hit line (qid ∷ q0 ∷ docid ∷ rank ∷ score ∷ tag ∷ more) run =
      or_error (parse score) (bad_number score) >>= λ s. ok (put_entry run qid docid s)
  read_hit line parts run = err (bad_line line)

  -- The loop of `read_run`.
  unfoldable pub read_hits : List Str → Run → Result Error Run
  unfolding read_hit
  read_hits [] run = ok run
  read_hits (line ∷ lines) run = read_hit line (split line) run >>= λ more. read_hits lines more

  unfoldable pub read_run : List Str → Result Error Run
  unfolding read_hits
  read_run lines = read_hits lines []

  -- `for rank, (docid, score) in enumerate(hits, start=1)`, from `rank`.
  unfoldable pub hit_lines : Str → Str → ℕ → List (Str × Num) → List Str
  hit_lines qid tag rank [] = []
  hit_lines qid tag rank ((docid, score) ∷ hits) =
      unwords (qid ∷ codes "Q0" ∷ docid ∷ show_nat rank ∷ print score ∷ tag ∷ [])
      ∷ hit_lines qid tag (suc rank) hits

  unfoldable pub write_run : List (Str × List (Str × Num)) → Str → List Str
  unfolding hit_lines
  write_run [] tag = []
  write_run ((qid, hits) ∷ results) tag = hit_lines qid tag 1 hits ++ write_run results tag
