-- ===== src/Lexical/Parity/Buckets.antt =====
-- The buckets that py/hybridsearch/lexical/parity.py puts the judged queries into.
use hybrid_search.Prelude.{◌≡◌, true, [], Option, none, some}
use hybrid_search.Prelude.Text.{Str, str_eq}
use hybrid_search.Prelude.Dict.{get_or}
use hybrid_search.Prelude.Sets.{union}
use hybrid_search.Prelude.Float.{Float}
use hybrid_search.Data.Files.{ScoreText}
use hybrid_search.Lexical.Parity as Parity
use hybrid_search.Lexical.Parity.{
  Hits, Runs, Diagnostics, rounded, near, all_near, cut_of, near_cut, all_tied, cuts_near,
  same_keys, classify_scores,
}
use hybrid_search.Lexical.Terms.{
  Bucket, identical, tie_order, tie_cutoff, score, length_quantisation, analyzer_vocab,
  analyzer_length, unexplained, df_differs,
}
use hybrid_search.Lexical.Parity.Causes.{SameRanking, IsTieOrder, IsTieCutoff, Differs}

module _ (F : Float) (T : ScoreText F) (base4 : F.Num → F.Num) (tolerance : F.Num) where
  abbrev pub VocabDiffers : Option (Diagnostics F T base4 tolerance) → Str → Type 0
  VocabDiffers none q = ⊥
  VocabDiffers (some diag) q =
      Parity.any F T base4 tolerance (df_differs diag.ours_df diag.ans_df) (get_or diag.qterms q [])
      ≡ true

  abbrev pub NormsDiffer : Option (Diagnostics F T base4 tolerance) → Hits F T → Hits F T → Type 0
  NormsDiffer none a b = ⊥
  NormsDiffer (some diag) a b =
      Parity.any F T base4 tolerance diag.norm_differs
        (union (Parity.top_docs F T base4 tolerance a) (Parity.top_docs F T base4 tolerance b))
      ≡ true

  -- The textbook model's run differs from the reference's in its ties only.
  abbrev pub IsExplained : Option (Runs F T) → Str → Hits F T → Type 0
  IsExplained none q b = ⊥
  IsExplained (some lucene) q b = Differs F T base4 tolerance (get_or lucene q []) b → ⊥

  -- What the report means by the bucket of a query.
  abbrev pub Cause :
      Option (Runs F T)
      → Option (Diagnostics F T base4 tolerance)
      → Str
      → Hits F T
      → Hits F T
      → Bucket
      → Type 0
  Cause lucene diag q a b identical = SameRanking F T base4 tolerance a b
  Cause lucene diag q a b tie_order =
      (SameRanking F T base4 tolerance a b → ⊥) × IsTieOrder F T base4 tolerance a b
  Cause lucene diag q a b tie_cutoff =
      (SameRanking F T base4 tolerance a b → ⊥) × IsTieCutoff F T base4 tolerance a b
  Cause lucene diag q a b score = ⊥
  Cause lucene diag q a b length_quantisation =
      Differs F T base4 tolerance a b × IsExplained lucene q b
  Cause lucene diag q a b analyzer_vocab =
      Differs F T base4 tolerance a b × (IsExplained lucene q b → ⊥) × VocabDiffers diag q
  Cause lucene diag q a b analyzer_length =
      Differs F T base4 tolerance a b
      × (IsExplained lucene q b → ⊥)
      × (VocabDiffers diag q → ⊥)
      × NormsDiffer diag a b
  Cause lucene diag q a b unexplained =
      Differs F T base4 tolerance a b
      × (IsExplained lucene q b → ⊥)
      × (VocabDiffers diag q → ⊥)
      × (NormsDiffer diag a b → ⊥)
