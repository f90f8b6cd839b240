-- ===== src/Data/Files/RoundTrip.antt =====
-- Judgments that py/hybridsearch/data/io.py writes are read back.
use hybrid_search.Prelude.{
  ◌≡◌, refl, Bool, true, false, ◌&&◌, ◌||◌, List, [], ◌∷◌, ◌++◌, none, some, ok, ◌==◌, arith, All,
  Bool-cases, inl, inr, ◌∙◌, sym, ap, ==_eq, ==_refl, contains, All-append,
}
use hybrid_search.Prelude.Text.{Str, codes, str_eq}
use hybrid_search.Prelude.Dict.{keys, get?, get_or, get?_absent}
use hybrid_search.Prelude.Int.{ℤ, pos}
use hybrid_search.Prelude.Order.{sort_by, All-sort_by, tally-sort_by}
use hybrid_search.Prelude.Order.Unique.{contains_of_same}
use hybrid_search.Prelude.Sets.{All-of_contains}
use hybrid_search.Data.Words.{split-unwords, show_int, IsWord, parse_int-show_int, show_int-IsWord}
use hybrid_search.Data.Tables.{Table, entry_at, put_rows, has_row, put_rows_lem}
use hybrid_search.Data.Files.{
  Qrels, id_before, read_judgment, read_judgments, read_qrels, judgment_lines, qrels_lines,
  write_qrels,
}

module _ {ℓ} {V : Type ℓ} where
  pub put_rows-append :
      (xs ys : List (Str × Str × V)) (table : Table V)
      → put_rows (xs ++ ys) table ≡ put_rows ys (put_rows xs table)
  put_rows-append [] ys table = refl
  put_rows-append (x ∷ xs) ys table = put_rows-append xs ys _

  pub has_row-append :
      (xs ys : List (Str × Str × V)) (p e : Str)
      → has_row (xs ++ ys) p e ≡ (has_row xs p e || has_row ys p e)
  has_row-append [] ys p e = refl
  has_row-append ((q, d, v) ∷ xs) ys p e = ground (arith, has_row-append xs ys p e)

  -- What a dict has under a key that is in it.
  get?_present :
      (d : List (Str × V)) (k : Str) (z : V)
      → contains (keys d) k ≡ true
      → get? d k ≡ some (get_or d k z)
  unfolding get? get_or
  get?_present [] k z h = cc
  get?_present ((j, v) ∷ d) k z h = ground (arith, get?_present d k z)

contains-sort_by :
    (le : Str → Str → Bool) (xs : List Str) (a : Str) → contains (sort_by le xs) a ≡ contains xs a
contains-sort_by le xs a = contains_of_same a (sort_by le xs) xs (λ p. tally-sort_by le p xs)

abbrev doc_rows : Str → List (Str × ℤ) → List Str → List (Str × Str × ℤ)
doc_rows q docs [] = []
doc_rows q docs (d ∷ ids) = (q, d, get_or docs d (pos 0)) ∷ doc_rows q docs ids

has_row-doc_rows :
    (q : Str) (docs : List (Str × ℤ)) (ids : List Str) (p e : Str)
    → has_row (doc_rows q docs ids) p e ≡ (p == q && contains ids e)
has_row-doc_rows q docs [] p e = ground arith
has_row-doc_rows q docs (d ∷ ids) p e = ground (arith, has_row-doc_rows q docs ids p e)

read_judgments-judgment_lines :
    (q : Str) (docs : List (Str × ℤ)) (ids rest : List Str) (table : Qrels)
    → IsWord q
    → All IsWord ids
    → read_judgments (judgment_lines q docs ids ++ rest) table
      ≡ read_judgments rest (put_rows (doc_rows q docs ids) table)
unfolding read_judgments judgment_lines read_judgment
read_judgments-judgment_lines q docs [] rest table w h = refl
read_judgments-judgment_lines q docs (d ∷ ids) rest table w h =
    let g = get_or docs d (pos 0) in
    rw
      (
        split-unwords (q ∷ codes "0" ∷ d ∷ show_int g ∷ [])
            (w, ((refl, refl), (h.0, (show_int-IsWord g, tt)))),
        parse_int-show_int g,
      )
      (read_judgments-judgment_lines q docs ids rest _ w h.1)

module _ (qrels : Qrels) where
  abbrev docs_of : Str → List (Str × ℤ)
  docs_of q = get_or qrels q []

  abbrev all_rows : List Str → List (Str × Str × ℤ)
  all_rows [] = []
  all_rows (q ∷ qs) = doc_rows q (docs_of q) (sort_by id_before (keys (docs_of q))) ++ all_rows qs

  has_row-all_rows :
      (qs : List Str) (p e : Str)
      → has_row (all_rows qs) p e ≡ (contains qs p && contains (keys (docs_of p)) e)
  has_row-all_rows [] p e = refl
  has_row-all_rows (q ∷ qs) p e =
      let ids = sort_by id_before (keys (docs_of q)) in
      has_row-append (doc_rows q (docs_of q) ids) (all_rows qs) p e
      ∙ rw
          (
            has_row-doc_rows q (docs_of q) ids p e,
            has_row-all_rows qs p e,
            contains-sort_by id_before (keys (docs_of q)) e,
          )
          (elim (Bool-cases (p == q)) [
            | inl h ↦ rw (==_eq p q h) (ground (arith, ==_refl q))
            | inr h ↦ rw h refl
          ])

  -- Query and document ids that `split` leaves whole.
  abbrev pub AllWords : Type 0
  AllWords = All (λ q. IsWord q × All IsWord (keys (docs_of q))) (keys qrels)

  read_judgments-qrels_lines :
      (qs : List Str) (table : Qrels)
      → All (λ q. IsWord q × All IsWord (keys (docs_of q))) qs
      → read_judgments (qrels_lines qrels qs) table ≡ ok (put_rows (all_rows qs) table)
  unfolding qrels_lines read_judgments
  read_judgments-qrels_lines [] table h = refl
  read_judgments-qrels_lines (q ∷ qs) table h =
      let ids = sort_by id_before (keys (docs_of q)) in
      read_judgments-judgment_lines q (docs_of q) ids (qrels_lines qrels qs) table h.0.0
        (All-sort_by id_before IsWord (keys (docs_of q)) h.0.1)
      ∙ read_judgments-qrels_lines qs _ h.1
      ∙ ap ok (sym (put_rows-append (doc_rows q (docs_of q) ids) (all_rows qs) table))

  doc_rows_agree :
      (q : Str) (ids : List Str)
      → All (λ d. entry_at qrels q d ≡ some (get_or (docs_of q) d (pos 0))) ids
      → All (λ row. entry_at qrels row.0 row.1 ≡ some row.2) (doc_rows q (docs_of q) ids)
  doc_rows_agree q [] h = tt
  doc_rows_agree q (d ∷ ids) h = (h.0, doc_rows_agree q ids h.1)

  rows_agree :
      (qs : List Str)
      → All (λ q. contains (keys qrels) q ≡ true) qs
      → All (λ row. entry_at qrels row.0 row.1 ≡ some row.2) (all_rows qs)
  rows_agree [] h = tt
  rows_agree (q ∷ qs) h =
      let ids = sort_by id_before (keys (docs_of q)) in
      All-append (λ row. entry_at qrels row.0 row.1 ≡ some row.2) (doc_rows q (docs_of q) ids)
        (all_rows qs)
        (doc_rows_agree q ids (
          All-sort_by id_before (λ d. entry_at qrels q d ≡ some (get_or (docs_of q) d (pos 0)))
            (keys (docs_of q))
            (All-of_contains (λ d. entry_at qrels q d ≡ some (get_or (docs_of q) d (pos 0)))
              (keys (docs_of q))
              (λ d m. rw (get?_present qrels q [] h.0) (get?_present (docs_of q) d (pos 0) m)))))
        (rows_agree qs h.1)

  entry_at-unlisted :
      (q d : Str)
      → (contains (keys qrels) q && contains (keys (docs_of q)) d) ≡ false
      → entry_at qrels q d ≡ none
  entry_at-unlisted q d h = elim (Bool-cases (contains (keys qrels) q)) [
    | inl a ↦ rw (get?_present qrels q [] a) (get?_absent (docs_of q) d (rw a at h))
    | inr a ↦ rw (get?_absent qrels q a) refl
  ]

  -- `read_qrels` reads back what `write_qrels` writes, if the ids are words: it returns, and the
  -- dict has the same grades for the same queries and documents.
  pub read_qrels-write_qrels :
      AllWords
      → (back : Qrels) × (read_qrels (write_qrels qrels) ≡ ok back)
        × ((q d : Str) → entry_at back q d ≡ entry_at qrels q d)
  unfolding read_qrels write_qrels get?
  read_qrels-write_qrels w =
      let qs = sort_by id_before (keys qrels) in
      let agree = rows_agree qs (
        All-sort_by id_before (λ q. contains (keys qrels) q ≡ true) (keys qrels)
          (All-of_contains (λ q. contains (keys qrels) q ≡ true) (keys qrels) (λ q m. m))) in
      (
        put_rows (all_rows qs) [],
        read_judgments-qrels_lines qs []
            (All-sort_by id_before (λ q. IsWord q × All IsWord (keys (docs_of q))) (keys qrels) w),
        λ q d.
            put_rows_lem (entry_at qrels) (all_rows qs) [] q d agree
            ∙ rw (has_row-all_rows qs q d, contains-sort_by id_before (keys qrels) q)
                (elim (Bool-cases (contains (keys qrels) q && contains (keys (docs_of q)) d)) [
                  | inl h ↦ rw h refl
                  | inr h ↦ rw h (sym (entry_at-unlisted q d h))
                ]),
      )
