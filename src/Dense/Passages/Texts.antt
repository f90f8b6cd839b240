-- ===== src/Dense/Passages/Texts.antt =====
-- The texts that `encode_passages` of py/hybridsearch/dense/encode.py reads.
use hybrid_search.Prelude.{
  ℕ, zero, suc, ◌+◌, ◌-◌, ◌/◌, ◌<◌, ◌≡◌, refl, ap, subst, Bool, true, false, List, [], ◌∷◌, map,
  Option, none, some, ok, err, >>=-eq-ok, if◌then◌else◌, ltb, length, take, drop, contains, nat_eq,
  arith,
}
use hybrid_search.Prelude.Text.{Str}
use hybrid_search.Prelude.Int.{is_ℤ}
use hybrid_search.Data.Words.{split_tab, parse_int}
use hybrid_search.Dense.Encoder.{get_or}
use hybrid_search.Dense.Passages.{
  chunk, Error, no_tab, bad_pid, no_docid, wrong_pid, head?, nth_or, read_texts,
}

-- The text of a line of the collection.
abbrev pub second_of : Option (Str × Str) → Str
second_of none = []
second_of (some p) = p.1

abbrev pub passage_of : Str → Str
passage_of line = second_of (split_tab line)

module _ {ℓ} {A : Type ℓ} (a : A) where
  pub get_or-drop : (s i : ℕ) (xs : List A) → get_or (drop s xs) i a ≡ get_or xs (s + i) a
  get_or-drop zero i xs = let e : 0 + i ≡ i = omega arith in rw e refl
  get_or-drop (suc s) i [] = refl
  get_or-drop (suc s) i (x ∷ xs) =
      let e : suc s + i ≡ suc (s + i) = omega arith in rw e (get_or-drop s i xs)

  pub get_or-take : (k i : ℕ) (xs : List A) → i < k → get_or (take k xs) i a ≡ get_or xs i a
  get_or-take zero i xs h = absurd (omega arith)
  get_or-take (suc k) i [] h = refl
  get_or-take (suc k) zero (x ∷ xs) h = refl
  get_or-take (suc k) (suc i) (x ∷ xs) h = get_or-take k i xs (omega arith)

  pub length-drop : (s : ℕ) (xs : List A) → length (drop s xs) ≡ length xs - s
  length-drop zero xs = omega arith
  length-drop (suc s) [] = omega arith
  length-drop (suc s) (x ∷ xs) = omega (arith, length-drop s xs)

nth_or-eq-ok {ℓ} : {A : Type ℓ} (o : Option A) (e : Error) (a : A) → nth_or o e ≡ ok a → o ≡ some a
unfolding nth_or
nth_or-eq-ok none e a h = cc
nth_or-eq-ok (some b) e a h = cc

pub lt→ltb : (a b : ℕ) → a < b → ltb a b ≡ true
lt→ltb a b h = ground arith

-- What `read_texts` returns has a text for each line, and the line's own where no chunk is done.
abbrev pub AreTexts : List ℕ → ℕ → List Str → List Str → Type 0
AreTexts done i lines texts =
    (length texts ≡ length lines)
    × ((j : ℕ)
        → contains done ((i + j) / chunk) ≡ false
        → get_or texts j [] ≡ get_or (map passage_of lines) j [])

AreTexts-cons :
    (done : List ℕ) (i : ℕ) (line text : Str) (lines texts : List Str)
    → (contains done (i / chunk) ≡ false → text ≡ passage_of line)
    → AreTexts done (suc i) lines texts
    → AreTexts done i (line ∷ lines) (text ∷ texts)
AreTexts-cons done i line text lines texts first (len, rest) = (ap suc len, own)
  where
    own :
        (j : ℕ)
        → contains done ((i + j) / chunk) ≡ false
        → get_or (text ∷ texts) j [] ≡ get_or (map passage_of (line ∷ lines)) j []
    own zero c = let e : i + 0 ≡ i = omega arith in first (rw e at c)
    own (suc j) c = let e : i + suc j ≡ suc i + j = omega arith in rest j (rw e at c)

own_text :
    (line : Str) (p : Str × Str) (b : Bool)
    → split_tab line ≡ some p
    → b ≡ false
    → (if b then [] else p.1) ≡ passage_of line
own_text line p b e h = rw (h, e) refl

pub read_texts_lem :
    (done : List ℕ) (i : ℕ) (ids : List ℕ) (lines texts : List Str)
    → read_texts done i ids lines ≡ ok texts
    → AreTexts done i lines texts
unfolding read_texts
read_texts_lem done i ids [] [] h = (refl, λ j c. refl)
read_texts_lem done i ids [] (t ∷ texts) h = cc
read_texts_lem done i ids (line ∷ lines) texts h =
    let (p, hp, h1) = >>=-eq-ok (nth_or (split_tab line) no_tab) _ h in
    let (pid, hpid, h2) = >>=-eq-ok (nth_or (parse_int p.0) bad_pid) _ h1 in
    let (id, hid, h3) = >>=-eq-ok (nth_or (head? ids) no_docid) _ h2 in
    let (u, hu, h4) = >>=-eq-ok (if is_ℤ id pid then ok tt else err (wrong_pid i)) _ h3 in
    let (rest, hrest, h5) = >>=-eq-ok (read_texts done (suc i) (drop 1 ids) lines) _ h4 in
    let text : Str = if contains done (i / chunk) then [] else p.1 in
    let same : text ∷ rest ≡ texts = cc in
    subst (AreTexts done i (line ∷ lines)) same (
      AreTexts-cons done i line text lines rest
        (own_text line p (contains done (i / chunk)) (nth_or-eq-ok (split_tab line) no_tab p hp))
        (read_texts_lem done (suc i) (drop 1 ids) lines rest hrest))
