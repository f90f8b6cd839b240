-- ===== src/Lexical/Terms.antt =====
-- The terms and the causes of a difference in py/hybridsearch/lexical/parity.py.
use hybrid_search.Prelude.{
  ℕ, Bool, true, false, ◌&&◌, not, List, [], ◌∷◌, ◌++◌, Option, none, some, Result, ok, err, ◌>>=◌,
  ◌==◌, if◌then◌else◌, tally, contains, nat_eq,
}
use hybrid_search.Prelude.Text.{Str, str_eq}
use hybrid_search.Prelude.Dict.{keys, get?, put}
use hybrid_search.Prelude.Int.{ℤ, leb_ℤ}
use hybrid_search.Data.Words.{parse_int}

-- The wrong number of fields, and text that is no number: `ValueError`.
pub data Error : Type 0 where
  bad_fields : Str → Error
  bad_number : Str → Error

abbrev pub number_of {ℓ} : {A : Type ℓ} → Option A → Str → Result Error A
number_of none s = err (bad_number s)
number_of (some a) s = ok a

-- `line.split("\t")`
unfoldable pub fields_from : Str → Str → List Str
fields_from field [] = field ∷ []
fields_from field (c ∷ cs) =
    let ended = field ∷ fields_from [] cs in
    let longer = fields_from (field ++ c ∷ []) cs in if c == 9 then ended else longer

abbrev pub fields : Str → List Str
unfolding fields_from
fields line = fields_from [] line

-- The causes of a difference.
pub data Bucket : Type 0 where
  identical tie_order tie_cutoff score : Bucket
  length_quantisation analyzer_vocab analyzer_length unexplained : Bucket

-- What `load_terms` reads: a term and its document frequency.
unfoldable pub load_terms : List Str → List (Str × ℤ) → Result Error (List (Str × ℤ))
unfolding fields_from
load_terms [] out = ok out
load_terms (line ∷ lines) out = elim (fields line) [
  | [] ↦ err (bad_fields line)
  | t ∷ [] ↦ err (bad_fields line)
  | t ∷ df ∷ [] ↦ err (bad_fields line)
  | t ∷ df ∷ cf ∷ [] ↦ number_of (parse_int df) df >>= λ n. load_terms lines (put out t n)
  | t ∷ df ∷ cf ∷ x ∷ more ↦ err (bad_fields line)
]

-- `sum(1 for t in terms if t not in others)`
abbrev pub terms_only : List (Str × ℤ) → List (Str × ℤ) → ℕ
terms_only terms others = tally (λ t. not (contains (keys others) t)) (keys terms)

abbrev pub same_df : Option ℤ → Option ℤ → Bool
same_df none none = true
same_df none (some y) = false
same_df (some x) none = false
same_df (some x) (some y) = leb_ℤ x y && leb_ℤ y x

-- `ours_df.get(t) != ans_df.get(t)`
abbrev pub df_differs : List (Str × ℤ) → List (Str × ℤ) → Str → Bool
unfolding get?
df_differs ours ans t = not (same_df (get? ours t) (get? ans t))

-- `sum(1 for t, v in ours_df.items() if t in ans_df and ans_df[t] != v)`
abbrev pub terms_df_differs : List (Str × ℤ) → List (Str × ℤ) → ℕ
unfolding get?
terms_df_differs ours ans =
    tally (λ p. contains (keys ans) p.0 && not (same_df (get? ans p.0) (some p.1))) ours

-- `{x for x in xs}`
abbrev pub as_set : List Str → List Str
as_set [] = []
as_set (x ∷ xs) = let rest = as_set xs in if contains xs x then rest else x ∷ rest
