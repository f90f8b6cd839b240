-- ===== src/Lexical/Parity/Causes.antt =====
-- The causes that py/hybridsearch/lexical/parity.py gives for the differences of two runs.
use hybrid_search.Prelude.{
  ◌≡◌, refl, sym, ◌∙◌, ap, Bool, true, false, ◌&&◌, ◌||◌, not, List, [], ◌∷◌, ◌++◌, Option, take,
  select, contains, All, Bool-cases, inl, inr, arith, &&-true, ==_eq, ==_refl,
}
use hybrid_search.Prelude.Text.{Str, str_eq}
use hybrid_search.Prelude.Dict.{keys, get_or}
use hybrid_search.Prelude.Sets.{elements_beq, elements_beq_refl, contains-select}
use hybrid_search.Prelude.Float.{Float}
use hybrid_search.Data.Files.{ScoreText}
use hybrid_search.Lexical.Parity.{
  Hits, rounded, near, all_near, cut_of, near_cut, all_tied, cuts_near, same_keys, classify_scores,
  classify,
}
use hybrid_search.Lexical.Terms.{
  Bucket, identical, tie_order, tie_cutoff, score, length_quantisation, analyzer_vocab,
  analyzer_length, unexplained,
}

-- A test decides a statement.
abbrev pub Decides {ℓ} : Bool → Type ℓ → Type ℓ
Decides b P = (b ≡ true → P) × (P → b ≡ true)

beq-Decides : (xs ys : List Str) → Decides (elements_beq xs ys) (xs ≡ ys)
beq-Decides [] [] = (λ h. refl, λ h. refl)
beq-Decides [] (y ∷ ys) = (λ h. cc, λ h. cc)
beq-Decides (x ∷ xs) [] = (λ h. cc, λ h. cc)
beq-Decides (x ∷ xs) (y ∷ ys) =
    let (to, from) = beq-Decides xs ys in
    (
      λ h.
          let (a, b) = &&-true _ _ h in
          let first : x ≡ y = ==_eq x y a in let rest : xs ≡ ys = to b in cc,
      λ h.
          let first : x ≡ y = cc in
          let rest : xs ≡ ys = cc in rw (first, rest, ==_refl y, elements_beq_refl ys) refl,
    )

pub fails : {P : Type 0} {b : Bool} → Decides b P → b ≡ false → P → ⊥
fails d h p = let e = d.1 p in cc

module _ (F : Float) (T : ScoreText F) (base4 : F.Num → F.Num) (tolerance : F.Num) where
  abbrev Scores : Type 0
  Scores = List (Str × F.Num)

  abbrev pub SameDocs : Scores → Scores → Type 0
  SameDocs sa sb = (d : Str) → contains (keys sa) d ≡ contains (keys sb) d

  -- The two scores of a document differ by the tolerance at most.
  abbrev pub IsNear : Scores → Scores → Str → Type 0
  IsNear sa sb d =
      near F T base4 tolerance (get_or sa d (F.of_nat 0)) (get_or sb d (F.of_nat 0)) ≡ true

  abbrev pub IsTied : Scores → Scores → Option F.Num → Option F.Num → Str → Type 0
  IsTied sa sb cut_a cut_b d =
      (near_cut F T base4 tolerance sa cut_a d || near_cut F T base4 tolerance sb cut_b d) ≡ true

  all_near-Decides :
      (sa sb : Scores) (ds : List Str)
      → Decides (all_near F T base4 tolerance sa sb ds) (All (IsNear sa sb) ds)
  all_near-Decides sa sb [] = (λ h. tt, λ h. refl)
  all_near-Decides sa sb (d ∷ ds) =
      let (to, from) = all_near-Decides sa sb ds in
      (λ h. let (a, b) = &&-true _ _ h in (a, to b), λ h. rw (h.0, from h.1) refl)

  all_tied-Decides :
      (sa sb : Scores) (ca cb : Option F.Num) (ds : List Str)
      → Decides (all_tied F T base4 tolerance sa sb ca cb ds) (All (IsTied sa sb ca cb) ds)
  all_tied-Decides sa sb ca cb [] = (λ h. tt, λ h. refl)
  all_tied-Decides sa sb ca cb (d ∷ ds) =
      let (to, from) = all_tied-Decides sa sb ca cb ds in
      (λ h. let (a, b) = &&-true _ _ h in (a, to b), λ h. rw (h.0, from h.1) refl)

  none_outside :
      (xs ys : List Str)
      → select (λ d. not (contains ys d)) xs ≡ []
      → (d : Str) → contains xs d ≡ true
      → contains ys d ≡ true
  none_outside xs ys h d m =
      let e = sym (contains-select (λ x. not (contains ys x)) xs d) ∙ ap (λ l. contains l d) h in
      ground (arith, e, m)

  select_nothing :
      (xs ys : List Str)
      → ((d : Str) → contains xs d ≡ true → contains ys d ≡ true)
      → select (λ d. not (contains ys d)) xs ≡ []
  select_nothing xs ys h =
      empty (select (λ d. not (contains ys d)) xs)
        (λ d. contains-select (λ x. not (contains ys x)) xs d ∙ out d)
    where
      empty : (l : List Str) → ((d : Str) → contains l d ≡ false) → l ≡ []
      empty [] k = refl
      empty (x ∷ l) k = let e = k x in ground (arith, e, str_eq.same_iff x x)

      out : (d : Str) → (not (contains ys d) && contains xs d) ≡ false
      out d = elim (Bool-cases (contains xs d)) [
        | inl m ↦ rw (m, h d m) refl
        | inr m ↦ ground (arith, m)
      ]

  same_keys-Decides :
      (sa sb : Scores) → Decides (same_keys F T base4 tolerance sa sb) (SameDocs sa sb)
  same_keys-Decides sa sb = (
    λ h d.
        let (p, q) = &&-true _ _ h in
        let a = none_outside (keys sa) (keys sb) ((beq-Decides _ []).0 p) d in
        let b = none_outside (keys sb) (keys sa) ((beq-Decides _ []).0 q) d in
        elim (Bool-cases (contains (keys sa) d)) [
          | inl m ↦ m ∙ sym (a m)
          | inr m ↦ elim (Bool-cases (contains (keys sb) d)) [
            | inl n ↦ let e = b n in cc
            | inr n ↦ m ∙ sym n
          ]
        ],
    λ h.
        let p = select_nothing (keys sa) (keys sb) (λ d m. sym (h d) ∙ m) in
        let q = select_nothing (keys sb) (keys sa) (λ d m. h d ∙ m) in rw (p, q) refl,
  )

  -- The scores of the top ten, rounded.
  abbrev pub scores_of : Hits F T → Scores
  scores_of a = rounded F T base4 tolerance (take 10 a) []

  abbrev pub cut : Hits F T → Option F.Num
  cut a = cut_of F T base4 tolerance (take 10 a)

  -- The same documents, each with scores that are near.
  abbrev pub IsTieOrder : Hits F T → Hits F T → Type 0
  IsTieOrder a b =
      SameDocs (scores_of a) (scores_of b)
      × All (IsNear (scores_of a) (scores_of b)) (keys (scores_of a))

  -- Other documents, of which those of both runs have scores that are near, and those of one run
  -- tie with the last score of the run, which the two last scores nearly are, too.
  abbrev pub IsTieCutoff : Hits F T → Hits F T → Type 0
  IsTieCutoff a b =
      let sa = scores_of a in
      let sb = scores_of b in
      (SameDocs sa sb → ⊥)
      × All (IsNear sa sb) (select (contains (keys sb)) (keys sa))
      × All (IsTied sa sb (cut a) (cut b)) (
          select (λ d. not (contains (keys sb) d)) (keys sa)
          ++ select (λ d. not (contains (keys sa) d)) (keys sb))
      × (cuts_near F T base4 tolerance (cut a) (cut b) ≡ true)

  abbrev pub SameRanking : Hits F T → Hits F T → Type 0
  SameRanking a b = keys (take 10 a) ≡ keys (take 10 b)

  -- A difference that no tie explains.
  abbrev pub Differs : Hits F T → Hits F T → Type 0
  Differs a b = (SameRanking a b → ⊥) × (IsTieOrder a b → ⊥) × (IsTieCutoff a b → ⊥)

  -- What `classify` means by its answer.
  abbrev pub Means : Hits F T → Hits F T → Bucket → Type 0
  Means a b identical = SameRanking a b
  Means a b tie_order = (SameRanking a b → ⊥) × IsTieOrder a b
  Means a b tie_cutoff = (SameRanking a b → ⊥) × IsTieCutoff a b
  Means a b score = Differs a b
  Means a b length_quantisation = ⊥
  Means a b analyzer_vocab = ⊥
  Means a b analyzer_length = ⊥
  Means a b unexplained = ⊥

  classify_scores_lem :
      (a b : Hits F T)
      → (SameRanking a b → ⊥)
      → Means a b (classify_scores F T base4 tolerance (scores_of a) (scores_of b) (cut a) (cut b))
  unfolding classify_scores
  classify_scores_lem a b other =
      let sa = scores_of a in
      let sb = scores_of b in
      let common = select (contains (keys sb)) (keys sa) in
      let only =
        select (λ d. not (contains (keys sb) d)) (keys sa)
        ++ select (λ d. not (contains (keys sa) d)) (keys sb) in
      let same = same_keys-Decides sa sb in
      let near_all = all_near-Decides sa sb (keys sa) in
      let near_common = all_near-Decides sa sb common in
      let tied = all_tied-Decides sa sb (cut a) (cut b) only in
      elim (Bool-cases (same_keys F T base4 tolerance sa sb)) [
        | inl s ↦ elim (Bool-cases (all_near F T base4 tolerance sa sb (keys sa))) [
          | inl n ↦ rw (s, n) (other, (same.0 s, near_all.0 n))
          | inr n ↦ rw (s, n) (other, (λ o. fails near_all n o.1), (λ c. c.0 (same.0 s)))
        ]
        | inr s ↦ elim (Bool-cases (all_near F T base4 tolerance sa sb common)) [
          | inr n ↦ rw (s, n) (other, (λ o. fails same s o.0), (λ c. fails near_common n c.1))
          | inl n ↦ elim (Bool-cases (all_tied F T base4 tolerance sa sb (cut a) (cut b) only)) [
            | inr w ↦ rw (s, n, w) (other, (λ o. fails same s o.0), (λ c. fails tied w c.2))
            | inl w ↦ elim (Bool-cases (cuts_near F T base4 tolerance (cut a) (cut b))) [
              | inl k ↦ rw (s, n, w, k) (other, (fails same s, near_common.0 n, tied.0 w, k))
              | inr k ↦ rw (s, n, w, k) (other, (λ o. fails same s o.0), (λ c. let e = c.3 in cc))
            ]
          ]
        ]
      ]

  pub classify_lem : (a b : Hits F T) → Means a b (classify F T base4 tolerance a b)
  unfolding classify
  classify_lem a b =
      let same = beq-Decides (keys (take 10 a)) (keys (take 10 b)) in
      elim (Bool-cases (elements_beq (keys (take 10 a)) (keys (take 10 b)))) [
        | inl h ↦ rw h (same.0 h)
        | inr h ↦ rw h (classify_scores_lem a b (fails same h))
      ]
