-- ===== src/Data/Tables.antt =====
-- Dicts of dicts, as `defaultdict(dict)` builds them: a value for a query and a document.
use hybrid_search.Prelude.{
  &&-true, ◌≡◌, refl, Bool, true, false, ◌&&◌, ◌||◌, List, [], ◌∷◌, Option, some, ◌==◌,
  if◌then◌else◌, and_then, All, Bool-cases, inl, inr, Option-cases, ◌∙◌, ==_eq,
}
use hybrid_search.Prelude.Text.{Str, str_eq}
use hybrid_search.Prelude.Dict.{get?, get_or, put, get?-put, get_or-get?, get_or_missing}

abbrev pub Table {ℓ} : Type ℓ → Type ℓ
Table V = List (Str × List (Str × V))

if_same {ℓ} : {A : Type ℓ} {a : A} (b : Bool) → (if b then a else a) ≡ a
if_same true = refl
if_same false = refl

module _ {ℓ} {V : Type ℓ} where
  -- `table[q][d] = v`
  unfoldable pub put_entry : Table V → Str → Str → V → Table V
  put_entry table q d v = put table q (put (get_or table q []) d v)

  -- `table[q][d]`, where it is there.
  abbrev pub entry_at : Table V → Str → Str → Option V
  entry_at table q d = and_then (get? table q) (λ docs. get? docs d)

  entry_at-get_or : (table : Table V) (q e : Str) → get? (get_or table q []) e ≡ entry_at table q e
  unfolding get?
  entry_at-get_or table q e = elim (Option-cases (get? table q)) [
    | inl h ↦ rw (get_or_missing table q [] h, h) refl
    | inr (docs, h) ↦ rw (get_or-get? table q docs [] h, h) refl
  ]

  pub entry_at-put_entry :
      (table : Table V) (q d : Str) (v : V) (p e : Str)
      → entry_at (put_entry table q d v) p e
        ≡ (if p == q && e == d then some v else entry_at table p e)
  unfolding put_entry
  entry_at-put_entry table q d v p e =
      let docs = put (get_or table q []) d v in
      elim (Bool-cases (p == q)) [
        | inl h ↦
            rw (get?-put table q p docs, h)
              (get?-put (get_or table q []) d e v
                ∙ rw (entry_at-get_or table q e, ==_eq p q h) refl)
        | inr h ↦ rw (get?-put table q p docs, h) refl
      ]

  -- Assignments one after the other.
  abbrev pub put_rows : List (Str × Str × V) → Table V → Table V
  put_rows [] table = table
  put_rows ((q, d, v) ∷ rows) table = put_rows rows (put_entry table q d v)

  abbrev pub has_row : List (Str × Str × V) → Str → Str → Bool
  has_row [] p e = false
  has_row ((q, d, v) ∷ rows) p e = (p == q && e == d) || has_row rows p e

  -- If every row has the value of one function, so has the table.
  pub put_rows_lem :
      (f : Str → Str → Option V) (rows : List (Str × Str × V)) (table : Table V) (p e : Str)
      → All (λ row. f row.0 row.1 ≡ some row.2) rows
      → entry_at (put_rows rows table) p e
        ≡ (if has_row rows p e then f p e else entry_at table p e)
  put_rows_lem f [] table p e h = refl
  put_rows_lem f ((q, d, v) ∷ rows) table p e h =
      put_rows_lem f rows (put_entry table q d v) p e h.1
      ∙ rw (entry_at-put_entry table q d v p e) (elim (Bool-cases (p == q && e == d)) [
        | inl c ↦
            let (a, b) = &&-true (p == q) (e == d) c in
            let same : f p e ≡ some v = rw (==_eq p q a, ==_eq e d b) h.0 in
            rw (c, same) (if_same (has_row rows p e))
        | inr c ↦ rw c refl
      ])
