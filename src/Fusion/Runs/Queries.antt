-- ===== src/Fusion/Runs/Queries.antt =====
-- `fuse_runs` of py/hybridsearch/fusion/runs.py.
use hybrid_search.Prelude.{
  ◌≡◌, refl, ◌||◌, List, [], ◌∷◌, Option, none, some, arith, if◌then◌else◌, ◌==◌, Bool-cases, inl,
  inr, contains, ==_eq, ◌∙◌,
}
use hybrid_search.Prelude.Text.{Str, str_eq, str_leb}
use hybrid_search.Prelude.Dict.{keys, get?, get_or, put, get?-put}
use hybrid_search.Prelude.Sets.{union, contains-union}
use hybrid_search.Prelude.Order.{tally-sort_by}
use hybrid_search.Prelude.Order.Unique.{contains_of_same}
use hybrid_search.Prelude.Float.{Float}
use hybrid_search.Fusion.Core.{Ranking}
use hybrid_search.Fusion.Runs.{Run, fuse_into, fuse_runs, fused_queries}

module _ (F : Float) (fn : Ranking F → Ranking F → Ranking F) (lex dense : Run F) where
  get?-fuse_into :
      (qs : List Str) (out : Run F) (q : Str)
      → get? (fuse_into F fn lex dense qs out) q
        ≡ (if contains qs q then some (fn (get_or lex q []) (get_or dense q [])) else get? out q)
  unfolding fuse_into
  get?-fuse_into [] out q = refl
  get?-fuse_into (p ∷ qs) out q =
      let v = fn (get_or lex p []) (get_or dense p []) in
      elim (Bool-cases (q == p)) [
        | inl h ↦
            rw (get?-fuse_into qs (put out p v) q, get?-put out p q v, h, ==_eq q p h)
              (ground arith)
        | inr h ↦ rw (get?-fuse_into qs (put out p v) q, get?-put out p q v, h) refl
      ]

  contains-fused_queries :
      (q : Str)
      → contains (fused_queries F lex dense none) q
        ≡ (contains (keys lex) q || contains (keys dense) q)
  contains-fused_queries q =
      contains_of_same q _ (union (keys lex) (keys dense))
        (λ p. tally-sort_by str_leb p (union (keys lex) (keys dense)))
      ∙ contains-union (keys lex) (keys dense) q

  -- The fused run has the queries asked for, or else those of either run. Each has the fusion of
  -- its two rankings, where a run that lacks the query counts with an empty one.
  pub fuse_runs_lem :
      (qids : Option (List Str)) (q : Str)
      → get? (fuse_runs F lex dense fn qids) q ≡ (
          if elim qids [
            | none ↦ contains (keys lex) q || contains (keys dense) q
            | some qs ↦ contains qs q
          ]
          then some (fn (get_or lex q []) (get_or dense q []))
          else none)
  unfolding fuse_runs get?
  fuse_runs_lem none q =
      get?-fuse_into (fused_queries F lex dense none) [] q ∙ rw (contains-fused_queries q) refl
  fuse_runs_lem (some qs) q = get?-fuse_into qs [] q
