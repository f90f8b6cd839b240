-- ===== src/Interleave/Balanced/Credit.antt =====
-- `balanced_credit` of py/hybridsearch/clicks/interleave.py.
use hybrid_search.Prelude.{
  nat_eq, ℕ, ◌+◌, ◌^◌, ◌≤◌, ◌≡◌, refl, ap, ◌∙◌, Bool, true, List, [], ◌∷◌, Result, ok, err, ◌>>=◌,
  Eq, leb, length, arith, Option, none, some, get_elem?, le→leb, min, contains, tally, ◌<◌,
}
use native.Mathlib.Decide.{dec_le}
use hybrid_search.Prelude.Dict.{put, get_or}
use hybrid_search.Prelude.Order.{sort_by, length-sort_by}
use hybrid_search.Interleave.TeamDraft.{Error, index_error}
use hybrid_search.Interleave.TeamDraft.Credit.{
  Winner, tie, winner_of, distinct_of, contains-distinct_of,
}
use hybrid_search.Interleave.TeamDraft.Relabelled.{winner_of-swap, other_credit}

-- The rank of a document that a ranking does not have.
abbrev no_rank : ℕ
no_rank = 10 ^ 9

abbrev cons_found {ℓ} : {A : Type ℓ} → Option A → Result Error (List A) → Result Error (List A)
cons_found none rest = err index_error
cons_found (some x) rest = do xs ← rest; ok (x ∷ xs)

-- `[xs[p] for p in positions]`
unfoldable pub get_all {ℓ} : {A : Type ℓ} → List A → List ℕ → Result Error (List A)
get_all xs [] = ok []
get_all xs (p ∷ ps) = cons_found (get_elem? xs p) (get_all xs ps)

-- `xs[-1]`
unfoldable pub last_of : List ℕ → Option ℕ
last_of [] = none
last_of (p ∷ []) = some p
last_of (p ∷ q ∷ ps) = last_of (q ∷ ps)

last_of_pos : (ps : List ℕ) → 0 < length ps → (p : ℕ) × (last_of ps ≡ some p)
unfolding last_of
last_of_pos [] h = absurd (omega arith)
last_of_pos (p ∷ []) h = (p, refl)
last_of_pos (p ∷ q ∷ ps) h = last_of_pos (q ∷ ps) (omega arith)

contains-length : (ps : List ℕ) (q : ℕ) → contains ps q ≡ true → 0 < length ps
contains-length [] q h = cc
contains-length (p ∷ ps) q h = omega arith

min_comm : (m n : ℕ) → min m n ≡ min n m
min_comm m n = omega arith

module _ {ℓ} {A : Type ℓ} ⦃e : Eq A⦄ where
  -- `{d: i + 1 for i, d in enumerate(a)}`: a later position overwrites an earlier one.
  unfoldable pub ranks_from : ℕ → List A → List (A × ℕ) → List (A × ℕ)
  ranks_from i [] m = m
  ranks_from i (d ∷ l) m = ranks_from (i + 1) l (put m d (i + 1))

  unfoldable pub rank_in : List A → A → ℕ
  unfolding ranks_from
  rank_in l d = get_or (ranks_from 0 l []) d no_rank

  unfoldable pub credit_docs : List A → List A → List A → A → ℕ × ℕ × Winner
  unfolding winner_of
  credit_docs a b docs last =
      let kk = min (rank_in a last) (rank_in b last) in
      let ha = tally (λ d. leb (rank_in a d) kk) docs in
      let hb = tally (λ d. leb (rank_in b d) kk) docs in (ha, hb, winner_of ha hb)

  abbrev credit_from :
      List A → List A → Option A → Result Error (List A) → Result Error (ℕ × ℕ × Winner)
  credit_from a b none docs = err index_error
  credit_from a b (some last) docs = do ds ← docs; ok (credit_docs a b ds last)

  credit_last : List A → List A → List A → List ℕ → Option ℕ → Result Error (ℕ × ℕ × Winner)
  unfolding get_all credit_docs
  credit_last a b page positions none = ok (0, 0, tie)
  credit_last a b page positions (some p) =
      credit_from a b (get_elem? page p) (get_all page positions)

  unfoldable pub balanced_credit : List A → List A → List A → List ℕ → Result Error (ℕ × ℕ × Winner)
  unfolding last_of credit_last
  balanced_credit a b page clicked =
      let positions = sort_by leb (distinct_of clicked) in
      credit_last a b page positions (last_of positions)

  credit_docs-swap :
      (a b docs : List A) (last : A)
      → ok (credit_docs b a docs last) ≡ other_credit (ok (credit_docs a b docs last))
  unfolding credit_docs
  credit_docs-swap a b docs last =
      rw (min_comm (rank_in b last) (rank_in a last), winner_of-swap) refl

  credit_from-swap :
      (a b : List A) (found : Option A) (docs : Result Error (List A))
      → credit_from b a found docs ≡ other_credit (credit_from a b found docs)
  credit_from-swap a b none docs = refl
  credit_from-swap a b (some last) (ok ds) = credit_docs-swap a b ds last
  credit_from-swap a b (some last) (err x) = refl

  credit_last-swap :
      (a b page : List A) (positions : List ℕ) (p : Option ℕ)
      → credit_last b a page positions p ≡ other_credit (credit_last a b page positions p)
  unfolding credit_last
  credit_last-swap a b page positions none = refl
  credit_last-swap a b page positions (some p) =
      credit_from-swap a b (get_elem? page p) (get_all page positions)

  -- Exchanging the rankings exchanges the counts and the winner, on every branch.
  pub balanced_credit-swap :
      (a b page : List A) (clicked : List ℕ)
      → balanced_credit b a page clicked ≡ other_credit (balanced_credit a b page clicked)
  unfolding balanced_credit
  balanced_credit-swap a b page clicked =
      credit_last-swap a b page (sort_by leb (distinct_of clicked)) _

  cons_found-eq-ok :
      (found : Option A) (rest : Result Error (List A)) {docs : List A}
      → cons_found found rest ≡ ok docs
      → (x : A) × (xs : List A) × (found ≡ some x) × (rest ≡ ok xs) × (docs ≡ x ∷ xs)
  cons_found-eq-ok none rest h = cc
  cons_found-eq-ok (some x) (ok xs) h = (x, xs, refl, refl, cc)
  cons_found-eq-ok (some x) (err y) h = cc

  -- What `last_of` finds is among the positions, so its document is among the documents.
  tally_last :
      (page : List A) (ps : List ℕ) (p : ℕ) (last : A) (docs : List A) (test : A → Bool)
      → last_of ps ≡ some p
      → get_elem? page p ≡ some last
      → get_all page ps ≡ ok docs
      → test last ≡ true
      → 1 ≤ tally test docs
  unfolding last_of get_all
  tally_last page [] p last docs test l g all t = cc
  tally_last page (q ∷ []) p last docs test l g all t =
      let (x, xs, found, rest, eq) = cons_found-eq-ok (get_elem? page q) (ok []) all in
      let same : q ≡ p = cc in
      let here : x ≡ last = cc (ap (get_elem? page) same) in rw (eq, here, t) (omega arith)
  tally_last page (q ∷ r ∷ ps) p last docs test l g all t =
      let (x, xs, found, rest, eq) =
        cons_found-eq-ok (get_elem? page q) (get_all page (r ∷ ps)) all in
      let later = tally_last page (r ∷ ps) p last xs test l g rest t in rw eq (omega arith)

  credited_one :
      (a b docs : List A) (last : A) {ha hb : ℕ} {w : Winner}
      → ((test : A → Bool) → test last ≡ true → 1 ≤ tally test docs)
      → credit_docs a b docs last ≡ (ha, hb, w)
      → 1 ≤ ha + hb
  unfolding credit_docs
  credited_one a b docs last {ha} {hb} {w} h eq =
      let kk = min (rank_in a last) (rank_in b last) in
      let a_eq : tally (λ d. leb (rank_in a d) kk) docs ≡ ha = cc in
      let b_eq : tally (λ d. leb (rank_in b d) kk) docs ≡ hb = cc in
      elim (dec_le (rank_in a last) (rank_in b last)) [
        | yes le ↦ let one = h (λ d. leb (rank_in a d) kk) (le→leb _ _ (omega arith)) in omega arith
        | no gt ↦ let one = h (λ d. leb (rank_in b d) kk) (le→leb _ _ (omega arith)) in omega arith
      ]

  credited_of_last :
      (a b page : List A) (clicked : List ℕ) (p : ℕ) {ha hb : ℕ} {w : Winner}
      → last_of (sort_by leb (distinct_of clicked)) ≡ some p
      → balanced_credit a b page clicked ≡ ok (ha, hb, w)
      → 1 ≤ ha + hb
  unfolding balanced_credit
  credited_of_last a b page clicked p {ha} {hb} {w} l h =
      let positions = sort_by leb (distinct_of clicked) in
      of_found (get_elem? page p) (get_all page positions) refl refl (rw l at h)
    where
      of_found :
          (found : Option A) (docs : Result Error (List A))
          → get_elem? page p ≡ found
          → get_all page (sort_by leb (distinct_of clicked)) ≡ docs
          → credit_from a b found docs ≡ ok (ha, hb, w)
          → 1 ≤ ha + hb
      of_found none docs f g r = cc
      of_found (some last) (err x) f g r = cc
      of_found (some last) (ok ds) f g r =
          let eq : credit_docs a b ds last ≡ (ha, hb, w) = cc in
          credited_one a b ds last
            (λ test t. tally_last page (sort_by leb (distinct_of clicked)) p last ds test l f g t)
            eq

  -- If anything on the page was clicked, at least one click counts: the lowest clicked document
  -- counts for the ranking that has it higher.
  balanced_credit_one :
      (a b page : List A) (clicked : List ℕ) (q : ℕ) {ha hb : ℕ} {w : Winner}
      → contains clicked q ≡ true
      → balanced_credit a b page clicked ≡ ok (ha, hb, w)
      → 1 ≤ ha + hb
  balanced_credit_one a b page clicked q h r =
      let some_set = contains-length (distinct_of clicked) q (contains-distinct_of clicked q ∙ h) in
      let (p, l) =
        last_of_pos (sort_by leb (distinct_of clicked))
          (rw (length-sort_by leb (distinct_of clicked)) some_set) in
      credited_of_last a b page clicked p l r
