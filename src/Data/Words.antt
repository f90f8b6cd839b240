-- ===== src/Data/Words.antt =====
-- Lines of text as Python takes them apart: `str.split`, `int` and the printing of integers, for
-- ASCII characters and digits without underscores. A line stands without its line feed.
use hybrid_search.Prelude.{
  ℕ, zero, suc, ◌≡◌, refl, Bool, true, false, ◌&&◌, ◌||◌, List, [], ◌∷◌, ◌++◌, Option, none, some,
  if◌then◌else◌, leb, arith, All, Bool-cases, inl, inr, append_assoc, append-nil, sym, ◌==◌, nat_eq,
  ◌∙◌, ap, and_then,
}
use hybrid_search.Prelude.Text.{Str, str_eq}
use hybrid_search.Prelude.Decimal.{
  all_digits, is_decimal, int_from, show_nat, is_decimal-show_nat, int_from-show_nat,
}
use hybrid_search.Prelude.Int.{ℤ, pos, negsuc}

-- White space that `split` without arguments splits at.
abbrev pub is_space : ℕ → Bool
is_space c = c == 32 || (leb 9 c && leb c 13) || (leb 28 c && leb c 31)

abbrev pub has_no_chars : Str → Bool
has_no_chars [] = true
has_no_chars (c ∷ cs) = false

-- `line.split()`, with the characters `word` of a word that has begun.
unfoldable pub split_from : Str → Str → List Str
split_from word [] = if has_no_chars word then [] else word ∷ []
split_from word (c ∷ cs) =
    let fresh = split_from [] cs in
    let ended = if has_no_chars word then fresh else word ∷ fresh in
    let longer = split_from (word ++ c ∷ []) cs in if is_space c then ended else longer

unfoldable pub split : Str → List Str
unfolding split_from
split line = split_from [] line

-- Words with one space between them.
unfoldable pub unwords : List Str → Str
unwords [] = []
unwords (w ∷ ws) = let rest = unwords ws in elim ws [ [] ↦ w | v ∷ vs ↦ w ++ 32 ∷ rest ]

-- `line.split("\t", 1)`: what stands before the first tab and after it.
unfoldable pub split_tab : Str → Option (Str × Str)
split_tab [] = none
split_tab (c ∷ cs) =
    let rest = and_then (split_tab cs) (λ p. some (c ∷ p.0, p.1)) in
    if c == 9 then some ([], cs) else rest

-- `int(s)`
abbrev minus : ℕ → ℤ
minus zero = pos 0
minus (suc n) = negsuc n

unfoldable pub parse_int : Str → Option ℤ
parse_int [] = none
parse_int (c ∷ cs) =
    if c == b'-'
    then (if is_decimal cs then some (minus (int_from 0 cs)) else none)
    else if c == b'+'
    then (if is_decimal cs then some (pos (int_from 0 cs)) else none)
    else (if is_decimal (c ∷ cs) then some (pos (int_from 0 (c ∷ cs))) else none)

-- `str(z)`
unfoldable pub show_int : ℤ → Str
show_int (pos n) = show_nat n
show_int (negsuc n) = b'-' ∷ show_nat (suc n)

-- No character is white space.
abbrev pub is_solid : Str → Bool
is_solid [] = true
is_solid (c ∷ cs) = (if is_space c then false else true) && is_solid cs

-- A word that `split` leaves whole.
abbrev pub IsWord : Str → Type 0
IsWord w = (has_no_chars w ≡ false) × (is_solid w ≡ true)

split_from-solid :
    (word w rest : Str)
    → is_solid w ≡ true
    → split_from word (w ++ rest) ≡ split_from (word ++ w) rest
unfolding split_from
split_from-solid word [] rest h = ap (λ v. split_from v rest) (sym (append-nil word))
split_from-solid word (c ∷ w) rest h = elim (Bool-cases (is_space c)) [
  | inl p ↦ let no = rw p at h in cc
  | inr p ↦ rw p (
      split_from-solid (word ++ c ∷ []) w rest (rw p at h)
      ∙ ap (λ v. split_from v rest) (append_assoc word (c ∷ []) w))
]

-- Words that are written with a space between them are read back.
pub split-unwords : (ws : List Str) → All IsWord ws → split (unwords ws) ≡ ws
unfolding split split_from unwords
split-unwords [] h = refl
split-unwords (w ∷ []) h =
    ap (split_from []) (sym (append-nil w)) ∙ split_from-solid [] w [] h.0.1 ∙ rw h.0.0 refl
split-unwords (w ∷ v ∷ ws) h =
    split_from-solid [] w (32 ∷ unwords (v ∷ ws)) h.0.1
    ∙ rw h.0.0 (ap (◌∷◌ w) (split-unwords (v ∷ ws) h.1))

parse_int-decimal : (s : Str) → is_decimal s ≡ true → parse_int s ≡ some (pos (int_from 0 s))
unfolding parse_int is_decimal
parse_int-decimal [] h = cc
parse_int-decimal (c ∷ cs) h = ground arith

digits-solid : (s : Str) → all_digits s ≡ true → is_solid s ≡ true
digits-solid [] h = refl
digits-solid (c ∷ s) h = ground (arith, digits-solid s)

decimal-IsWord : (s : Str) → is_decimal s ≡ true → IsWord s
unfolding is_decimal
decimal-IsWord [] h = cc
decimal-IsWord (c ∷ s) h = (refl, digits-solid (c ∷ s) h)

pub parse_int-show_int : (z : ℤ) → parse_int (show_int z) ≡ some z
unfolding parse_int show_int
parse_int-show_int (pos n) =
    parse_int-decimal (show_nat n) (is_decimal-show_nat n) ∙ rw (int_from-show_nat n) refl
parse_int-show_int (negsuc n) = rw (is_decimal-show_nat (suc n), int_from-show_nat (suc n)) refl

pub show_nat-IsWord : (n : ℕ) → IsWord (show_nat n)
show_nat-IsWord n = decimal-IsWord (show_nat n) (is_decimal-show_nat n)

pub show_int-IsWord : (z : ℤ) → IsWord (show_int z)
unfolding show_int
show_int-IsWord (pos n) = show_nat-IsWord n
show_int-IsWord (negsuc n) = (refl, (show_nat-IsWord (suc n)).1)
