-- ===== src/Data/Subset/Members.antt =====
-- What the subset of py/hybridsearch/data/subset.py holds.
use hybrid_search.Prelude.{
  ℕ, zero, suc, ◌+◌, ◌-◌, ◌≡◌, refl, subst, ◌∙◌, Bool, true, false, ◌&&◌, &&-true, not, List, [],
  ◌∷◌, ◌++◌, Result, ok, err, ◌==◌, ==_eq, ltb, leb, length, select, contains, contains-append, All,
  Bool-cases, inl, inr, nat_eq, get_elem?, Option-cases, some,
}
use hybrid_search.Prelude.Text.{Str, str_eq}
use hybrid_search.Prelude.Order.{sort_by, tally-sort_by, All-sort_by}
use hybrid_search.Prelude.Order.Unique.{contains_of_same}
use hybrid_search.Prelude.Sets.{union, contains-union}
use hybrid_search.Prelude.Int.{ℤ, pos, leb_ℤ}
use hybrid_search.Prelude.Decimal.{int_from, is_decimal}
use hybrid_search.Prelude.{ap, ==_refl, All-imp, arith, if◌then◌else◌}
use hybrid_search.Data.Files
use hybrid_search.Data.Subset.{
  Choice, draw_from, picked, write_filtered, judged_queries, write_split, Sizes, Inputs, read_all,
  draw_subset, write_collection, write_samples, Made, build, main, int_before, is_eligible,
}
use hybrid_search.Data.Effects.{
  no_room, give, id_of, relevant, all_relevant, Error, Prog, ◌>>=◌, emit, check, reading_of, ids_of,
  relevant_pids, is_ascending, all_in, line_ids,
}

-- What returns had a first part that returned.
>>=-eq-ok {ℓ κ} :
    {A : Type ℓ} {B : Type κ} (m : Prog A) (next : A → Prog B) {b : B}
    → (m >>= next).1 ≡ ok b
    → (a : A) × (m.1 ≡ ok a) × ((next a).1 ≡ ok b)
unfolding ◌>>=◌
>>=-eq-ok (events, err e) next h = cc
>>=-eq-ok (events, ok a) next h = (a, refl, h)

check-eq-ok : (test : Bool) {u : Unit {0}} → (check test).1 ≡ ok u → test ≡ true
check-eq-ok true h = refl
check-eq-ok false h = cc

get_elem?-All {ℓ κ} :
    {A : Type ℓ} (P : A → Type κ) (xs : List A) (i : ℕ) (x : A)
    → All P xs
    → get_elem? xs i ≡ some x
    → P x
get_elem?-All P [] i x h e = cc
get_elem?-All P (y ∷ xs) zero x h e = let same : y ≡ x = cc in subst P same h.0
get_elem?-All P (y ∷ xs) (suc i) x h e = get_elem?-All P xs i x h.1 e

-- What is picked of a list stands in it.
picked-All {ℓ κ} :
    {A : Type ℓ} (P : A → Type κ) (xs : List A) (pick : List ℕ) → All P xs → All P (picked xs pick)
unfolding picked
picked-All P xs [] h = tt
picked-All P xs (i ∷ pick) h = elim (Option-cases (get_elem? xs i)) [
  | inl e ↦ rw (picked, e) (picked-All P xs pick h)
  | inr (x, e) ↦ rw (picked, e) (get_elem?-All P xs i x h e, picked-All P xs pick h)
]

reading_of-eq-ok {ℓ} :
    {A : Type ℓ} (r : Result Files.Error A) {a : A} → (reading_of r).1 ≡ ok a → r ≡ ok a
reading_of-eq-ok (err e) h = cc
reading_of-eq-ok (ok b) h = let same : b ≡ _ = cc in ap ok same

id_of-eq-ok : (d : Str) (n : ℕ) → id_of d ≡ ok n → int_from 0 d ≡ n
id_of-eq-ok d n h = elim (Bool-cases (is_decimal d)) [
  | inl b ↦ let h' = rw b at h in cc
  | inr b ↦ let h' = rw b at h in cc
]

-- The numbers of all the ids are there.
ids_of_lem :
    (xs : List Str) (ns : List ℕ)
    → (ids_of xs).1 ≡ ok ns
    → All (λ d. contains ns (int_from 0 d) ≡ true) xs
unfolding ids_of
ids_of_lem [] ns h = tt
ids_of_lem (d ∷ xs) ns h =
    let (n, k, h₁) = >>=-eq-ok (give (id_of d)) _ h in
    let (rest, k', h₂) = >>=-eq-ok (ids_of xs) _ h₁ in
    let same : ns ≡ n ∷ rest = cc in
    rw (same, id_of-eq-ok d n k)
      (ground (arith, ==_refl n), All-imp _ _ xs (λ e m. ground (arith, m)) (ids_of_lem xs rest k'))

All-parts {ℓ κ} :
    {A : Type ℓ} (P : A → Type κ) (xs ys : List A) → All P (xs ++ ys) → All P xs × All P ys
All-parts P [] ys h = (tt, h)
All-parts P (x ∷ xs) ys h = let (a, b) = All-parts P xs ys h.1 in ((h.0, a), b)

module _ (C : Choice) (z : Sizes) (x : Inputs) where
  draw_subset_lem :
      (wanted pids : List ℕ) (drawn : List ℕ × C.State)
      → (draw_subset C z x wanted pids).1 ≡ ok drawn
      → ((p : ℕ) → contains wanted p ≡ true → contains drawn.0 p ≡ true)
        × (length drawn.0 ≡ z.subset_size)
        × (is_ascending drawn.0 ≡ true)
  unfolding draw_subset
  draw_subset_lem wanted pids drawn h =
      let (_, _, h₁) = >>=-eq-ok (check (is_ascending pids)) _ h in
      let (_, _, h₂) = >>=-eq-ok (check (all_in pids wanted)) _ h₁ in
      let comp = select (λ p. not (contains wanted p)) pids in
      let (got, _, h₃) =
        >>=-eq-ok (draw_from C comp (z.subset_size - length wanted) (C.seeded z.seed)) _ h₂ in
      let subset = sort_by leb (wanted ++ got.0) in
      let (_, k, h₄) =
        >>=-eq-ok (check (length subset == z.subset_size && is_ascending subset)) _ h₃ in
      let (a, b) =
        &&-true (length subset == z.subset_size) (is_ascending subset) (check-eq-ok _ k) in
      let same : drawn ≡ (subset, got.1) = cc in
      rw same (
        λ p m.
            contains_of_same p subset (wanted ++ got.0) (λ q. tally-sort_by leb q (wanted ++ got.0))
            ∙ contains-append wanted got.0 p
            ∙ rw m refl,
        ==_eq (length subset) z.subset_size a,
        b,
      )

  draw_from-All {ℓ κ} :
      {A : Type ℓ} (P : A → Type κ) (xs : List A) (k : ℕ) (rng : C.State) (got : List A × C.State)
      → (draw_from C xs k rng).1 ≡ ok got
      → All P xs
      → All P got.0
  unfolding draw_from
  draw_from-All P xs k rng got e h = elim (Bool-cases (ltb (length xs) k)) [
    | inl b ↦ let e' = rw b at e in cc
    | inr b ↦
        let drawn = C.choice (length xs) k rng in
        let same : (picked xs drawn.0, drawn.1) ≡ got = (let e' = rw b at e in cc) in
        subst (λ g. All P g.0) same (picked-All P xs drawn.0 h)
  ]

  select_out :
      (seen xs : List Str)
      → All (λ q. contains seen q ≡ false) (select (λ q. not (contains seen q)) xs)
  select_out seen [] = tt
  select_out seen (x ∷ xs) = elim (Bool-cases (contains seen x)) [
    | inl b ↦ rw b (select_out seen xs)
    | inr b ↦ rw b (b, select_out seen xs)
  ]

  abbrev Apart : Result Error (List Str × List Str) → Type 0
  Apart (err e) = Unit
  Apart (ok samples) = All (λ q. contains samples.0 q ≡ false) samples.1

  write_samples_lem :
      (subset : List ℕ) (rng : C.State) (a b : Str) (samples : List Str × List Str)
      → (write_samples C z x subset rng a b).1 ≡ ok samples
      → All (λ q. contains samples.0 q ≡ false) samples.1
  unfolding write_samples
  write_samples_lem subset rng a b samples h =
      let (queries, _, h₁) = >>=-eq-ok (reading_of (Files.read_queries x.train_queries)) _ h in
      let (qrels, _, h₂) = >>=-eq-ok (reading_of (Files.read_qrels x.train_qrels)) _ h₁ in
      let (judged, _, h₃) = >>=-eq-ok (judged_queries queries qrels) _ h₂ in
      let eligible = select (is_eligible subset qrels) judged in
      let (pick, _, h₄) = >>=-eq-ok (draw_from C eligible z.n_train_tune rng) _ h₃ in
      let tt_qids = sort_by int_before pick.0 in
      let (_, _, h₅) = >>=-eq-ok (write_split a queries qrels tt_qids) _ h₄ in
      let pool = select (λ q. not (contains tt_qids q)) judged in
      let (pick2, k, h₆) = >>=-eq-ok (draw_from C pool z.n_train50k (C.seeded (z.seed + 1))) _ h₅ in
      let t50_qids = sort_by int_before pick2.0 in
      let (_, _, h₇) = >>=-eq-ok (write_split b queries qrels t50_qids) _ h₆ in
      subst Apart h₇ (
        All-sort_by int_before (λ q. contains tt_qids q ≡ false) pick2.0
          (draw_from-All (λ q. contains tt_qids q ≡ false) pool z.n_train50k (C.seeded (z.seed + 1))
            pick2 k (select_out tt_qids judged)))

  -- The relevant passages of the judgments, with a grade of 1 at least, are in `subset`.
  abbrev pub HasRelevant : List ℕ → Files.Qrels → Type 0
  HasRelevant subset qrels =
      All
        (λ row. All (λ p. leb_ℤ (pos 1) p.1 ≡ true → contains subset (int_from 0 p.0) ≡ true) row.1)
        qrels

  abbrev pub IsWhole : Made → Type 0
  IsWhole made =
      All
        (λ file.
          (qrels : Files.Qrels) × (Files.read_qrels file.1 ≡ ok qrels)
          × HasRelevant made.subset qrels)
        x.qrels
      × (length made.subset ≡ z.subset_size)
      × (is_ascending made.subset ≡ true)
      × All (λ q. contains made.train_tune q ≡ false) made.train50k

  abbrev Whole : Result Error Made → Type 0
  Whole (err e) = Unit
  Whole (ok made) = IsWhole made

  relevant-HasRelevant :
      (ns : List ℕ) (docs : List (Str × ℤ))
      → All (λ d. contains ns (int_from 0 d) ≡ true) (relevant docs)
      → All (λ p. leb_ℤ (pos 1) p.1 ≡ true → contains ns (int_from 0 p.0) ≡ true) docs
  relevant-HasRelevant ns [] h = tt
  relevant-HasRelevant ns ((d, g) ∷ docs) h = elim (Bool-cases (leb_ℤ (pos 1) g)) [
    | inl b ↦ let h' = rw b at h in (λ _. h'.0, relevant-HasRelevant ns docs h'.1)
    | inr b ↦ let h' = rw b at h in (λ t. cc, relevant-HasRelevant ns docs h')
  ]

  all_relevant-HasRelevant :
      (ns : List ℕ) (qrels : Files.Qrels)
      → All (λ d. contains ns (int_from 0 d) ≡ true) (all_relevant qrels)
      → HasRelevant ns qrels
  all_relevant-HasRelevant ns [] h = tt
  all_relevant-HasRelevant ns ((q, docs) ∷ qrels) h =
      let (a, b) = All-parts _ (relevant docs) (all_relevant qrels) h in
      (relevant-HasRelevant ns docs a, all_relevant-HasRelevant ns qrels b)

  -- The ids that `relevant_pids` collects, with those it starts from.
  relevant_pids_lem :
      (files : List (Str × Files.Qrels)) (out wanted : List ℕ)
      → (relevant_pids files out).1 ≡ ok wanted
      → ((p : ℕ) → contains out p ≡ true → contains wanted p ≡ true)
        × All (λ file. HasRelevant wanted file.1) files
  unfolding relevant_pids
  relevant_pids_lem [] out wanted h = let same : out ≡ wanted = cc in rw same (λ p m. m, tt)
  relevant_pids_lem ((name, qrels) ∷ files) out wanted h =
      let (ns, k, h₁) = >>=-eq-ok (ids_of (all_relevant qrels)) _ h in
      let (keep, rest) = relevant_pids_lem files (union out ns) wanted h₁ in
      (
        λ p m. keep p (contains-union out ns p ∙ rw m refl),
        (
          all_relevant-HasRelevant wanted qrels (
              All-imp _ _ (all_relevant qrels)
                (λ d m.
                  keep (int_from 0 d) (contains-union out ns (int_from 0 d) ∙ ground (arith, m)))
                (ids_of_lem (all_relevant qrels) ns k)),
          rest,
        ),
      )

  HasRelevant-imp :
      (small large : List ℕ)
      → ((p : ℕ) → contains small p ≡ true → contains large p ≡ true)
      → (qrels : Files.Qrels) → HasRelevant small qrels
      → HasRelevant large qrels
  HasRelevant-imp small large h qrels k =
      All-imp _ _ qrels (λ row r. All-imp _ _ row.1 (λ p m t. h (int_from 0 p.0) (m t)) r) k

  -- The judgments that are read, one for each file.
  read_all_lem :
      (small large : List ℕ)
      → ((p : ℕ) → contains small p ≡ true → contains large p ≡ true)
      → (files : List (Str × List Str)) (read : List (Str × Files.Qrels))
      → (read_all files).1 ≡ ok read
      → All (λ file. HasRelevant small file.1) read
      → All
          (λ file.
            (qrels : Files.Qrels) × (Files.read_qrels file.1 ≡ ok qrels) × HasRelevant large qrels)
          files
  unfolding read_all
  read_all_lem small large h [] read e k = tt
  read_all_lem small large h ((name, lines) ∷ files) read e k =
      let (qrels, r, e₁) = >>=-eq-ok (reading_of (Files.read_qrels lines)) _ e in
      let (rest, r', e₂) = >>=-eq-ok (read_all files) _ e₁ in
      let same : read ≡ (name, qrels) ∷ rest = cc in
      let k' = rw same at k in
      (
        (
          qrels,
          reading_of-eq-ok (Files.read_qrels lines) r,
          HasRelevant-imp small large h qrels k'.0,
        ),
        read_all_lem small large h files rest r' k'.1,
      )

  -- If `main` returns, every passage that one of the judgment files grades 1 or more is in the
  -- subset; the subset is strictly ascending and has `SUBSET_SIZE` passages; and no query of train50k
  -- is one of train_tune.
  pub main-members :
      (a b : Str) (text : List Str) (made : Made) → (main C z x a b text).1 ≡ ok made → IsWhole made
  unfolding main build
  main-members a b text made h =
      let (_, _, h₀) = >>=-eq-ok (give (if x.has_room then ok tt else err no_room)) _ h in
      let (_, _, h₁) = >>=-eq-ok (emit _) _ h₀ in
      let (built, k, h₂) = >>=-eq-ok (build C z x a b text) _ h₁ in
      let (_, _, h₃) = >>=-eq-ok (emit _) _ h₂ in
      let (qrels, r, k₁) = >>=-eq-ok (read_all x.qrels) _ k in
      let (wanted, p, k₂) = >>=-eq-ok (relevant_pids qrels []) _ k₁ in
      let (pids, _, k₃) = >>=-eq-ok (ids_of (line_ids x.collection)) _ k₂ in
      let (drawn, d, k₄) = >>=-eq-ok (draw_subset C z x wanted pids) _ k₃ in
      let (_, _, k₅) = >>=-eq-ok (write_collection C z x drawn.0 pids) _ k₄ in
      let (_, _, k₆) = >>=-eq-ok (write_filtered drawn.0 qrels) _ k₅ in
      let (samples, w, k₇) = >>=-eq-ok (write_samples C z x drawn.0 drawn.1 a b) _ k₆ in
      let (_, _, k₈) = >>=-eq-ok (emit _) _ k₇ in
      let (all, size, up) = draw_subset_lem wanted pids drawn d in
      let apart = write_samples_lem drawn.0 drawn.1 a b samples w in
      let held =
        read_all_lem wanted drawn.0 all x.qrels qrels r (relevant_pids_lem qrels [] wanted p).1 in
      subst Whole h₃ (subst Whole k₈ (held, size, up, apart))
