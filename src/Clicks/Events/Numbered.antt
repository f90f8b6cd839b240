-- ===== src/Clicks/Events/Numbered.antt =====
-- Ranks from 1: what the loops of py/hybridsearch/clicks/events.py write for each place of a page.
use hybrid_search.Prelude.{
  ℕ, zero, suc, ◌+◌, ◌≤◌, ◌<◌, ◌≡◌, refl, true, false, List, [], ◌∷◌, ◌++◌, Option, none, some, ok,
  contains, All, All-imp, All-append, arith, nat_eq, length, drop, sym, append-nil,
}
use hybrid_search.Prelude.Text.{Str}
use hybrid_search.Prelude.Dict.{keys, put, put_new, keys-append}
use hybrid_search.Clicks.Events.{index, team_at, is_set}
use hybrid_search.Clicks.Events.Pages.{put_team, add_team, add_rank}

-- The elements with their ranks, from `i`.
abbrev pub numbered {ℓ} : {A : Type ℓ} → ℕ → List A → List (ℕ × A)
numbered i [] = []
numbered i (x ∷ xs) = (i, x) ∷ numbered (suc i) xs

pub index-drop {ℓ} :
    {A : Type ℓ} (r : ℕ) (xs : List A) (x : A) (rest : List A)
    → drop r xs ≡ x ∷ rest
    → (index xs r ≡ ok x) × (drop (suc r) xs ≡ rest)
index-drop zero [] x rest h = cc
index-drop zero (y ∷ ys) x rest h = (cc, cc)
index-drop (suc r) [] x rest h = cc
index-drop (suc r) (y ∷ ys) x rest h = index-drop r ys x rest h

pub drop-lt {ℓ} :
    {A : Type ℓ} (r : ℕ) (xs : List A) (x : A) (rest : List A)
    → drop r xs ≡ x ∷ rest
    → r < length xs
drop-lt zero [] x rest h = cc
drop-lt zero (y ∷ ys) x rest h = omega arith
drop-lt (suc r) [] x rest h = cc
drop-lt (suc r) (y ∷ ys) x rest h = omega (arith, drop-lt r ys x rest h)

pub contains-numbered {ℓ} :
    {A : Type ℓ} (i r : ℕ) (xs : List A)
    → r < length xs
    → contains (keys (numbered i xs)) (i + r) ≡ true
contains-numbered i r [] h = absurd (omega arith)
contains-numbered i zero (x ∷ xs) h = ground arith
contains-numbered i (suc r) (x ∷ xs) h = ground (arith, contains-numbered (suc i) r xs)

-- The ranks so far are at most `r`, so that the next one is new.
pub next_new : (r : ℕ) (ks : List ℕ) → All (λ k. k ≤ r) ks → contains ks (suc r) ≡ false
next_new r [] h = refl
next_new r (k ∷ ks) h = ground (arith, next_new r ks)

pub All-grow : (r : ℕ) (ks : List ℕ) → All (λ k. k ≤ r) ks → All (λ k. k ≤ suc r) ks
All-grow r ks h = All-imp _ _ ks (λ k p. omega arith) h

pub put_next {ℓ} :
    {A : Type ℓ} (acc : List (ℕ × A)) (r : ℕ) (a : A)
    → All (λ k. k ≤ r) (keys acc)
    → put acc (r + 1) a ≡ acc ++ (suc r, a) ∷ []
put_next acc r a n =
    let e : r + 1 ≡ suc r = omega arith in rw e (put_new acc (suc r) a (next_new r (keys acc) n))

pub add_next :
    (ranks : List ℕ) (r : ℕ) → All (λ k. k ≤ r) ranks → add_rank ranks (r + 1) ≡ ranks ++ suc r ∷ []
add_next ranks r n = let e : r + 1 ≡ suc r = omega arith in rw (e, next_new r ranks n) refl

-- The ranks after one more entry.
pub All-keys-next {ℓ} :
    {A : Type ℓ} (acc : List (ℕ × A)) (r : ℕ) (a : A)
    → All (λ k. k ≤ r) (keys acc)
    → All (λ k. k ≤ suc r) (keys (acc ++ (suc r, a) ∷ []))
All-keys-next acc r a n =
    rw (keys-append acc ((suc r, a) ∷ []))
      (All-append _ (keys acc) (suc r ∷ []) (All-grow r (keys acc) n) (omega arith, tt))

-- The team of a place, as an entry.
abbrev pub entry : ℕ → Option Str → List (ℕ × Str)
entry i none = []
entry i (some u) = (i, u) ∷ []

abbrev pub teams_numbered : ℕ → Option (List Str) → List (ℕ × Str)
teams_numbered i none = []
teams_numbered i (some us) = numbered i us

pub All-keys-entry :
    (acc : List (ℕ × Str)) (r : ℕ) (team : Option Str)
    → All (λ k. k ≤ r) (keys acc)
    → All (λ k. k ≤ suc r) (keys (acc ++ entry (suc r) team))
All-keys-entry acc r none n = rw (append-nil acc) (All-grow r (keys acc) n)
All-keys-entry acc r (some u) n = All-keys-next acc r u n

-- `rest` has the teams from place `r` on, one for each of the documents `ds`, none of them empty.
abbrev pub TeamsFrom : Option (List Str) → ℕ → List ℕ → Option (List Str) → Type 0
TeamsFrom none r ds none = Unit
TeamsFrom none r ds (some us) = ⊥
TeamsFrom (some ts) r ds none = ⊥
TeamsFrom (some ts) r ds (some us) =
    (drop r ts ≡ us) × (length us ≡ length ds) × All (λ u. is_set (some u) ≡ true) us

pub teams_done :
    (teams : Option (List Str)) (r i : ℕ) (rest : Option (List Str))
    → TeamsFrom teams r [] rest
    → teams_numbered i rest ≡ []
teams_done none r i none h = refl
teams_done none r i (some us) h = absurd h
teams_done (some ts) r i none h = absurd h
teams_done (some ts) r i (some []) h = refl
teams_done (some ts) r i (some (u ∷ us)) h = absurd (omega (arith, h.1))

-- The team of the place `r`.
pub record TeamStep (teams : Option (List Str)) (r : ℕ) (ds : List ℕ) (rest : Option (List Str))
    : Type 0 where
  pub team : Option Str
  pub rest' : Option (List Str)
  pub at_place : team_at teams r ≡ ok team
  pub later : TeamsFrom teams (suc r) ds rest'
  pub split : (i : ℕ) → teams_numbered i rest ≡ entry i team ++ teams_numbered (suc i) rest'
  pub fresh :
      (acc : List (ℕ × Str))
      → All (λ k. k ≤ r) (keys acc)
      → put_team acc (r + 1) team ≡ acc ++ entry (suc r) team
  pub held : add_team (teams_numbered 1 teams) (r + 1) team ≡ teams_numbered 1 teams

put_team_new :
    (acc : List (ℕ × Str)) (r : ℕ) (u : Str)
    → is_set (some u) ≡ true
    → All (λ k. k ≤ r) (keys acc)
    → put_team acc (r + 1) (some u) ≡ acc ++ (suc r, u) ∷ []
put_team_new acc r [] h n = cc
put_team_new acc r (c ∷ cs) h n = put_next acc r (c ∷ cs) n

add_team_held :
    (acc : List (ℕ × Str)) (r : ℕ) (u : Str)
    → contains (keys acc) (1 + r) ≡ true
    → add_team acc (r + 1) (some u) ≡ acc
add_team_held acc r [] h = refl
add_team_held acc r (c ∷ cs) h = let e : r + 1 ≡ 1 + r = omega arith in rw (e, h) refl

pub team_step :
    (teams : Option (List Str)) (r d : ℕ) (ds : List ℕ) (rest : Option (List Str))
    → TeamsFrom teams r (d ∷ ds) rest
    → TeamStep teams r ds rest
team_step none r d ds none h = record {
  team = none;
  rest' = none;
  at_place = refl;
  later = tt;
  split = λ i. refl;
  fresh = λ acc n. sym (append-nil acc);
  held = refl;
}
team_step none r d ds (some us) h = absurd h
team_step (some ts) r d ds none h = absurd h
team_step (some ts) r d ds (some []) h = absurd (omega (arith, h.1))
team_step (some ts) r d ds (some (u ∷ us)) h =
    let (at_r, from_r) = index-drop r ts u us h.0 in
    record {
      team = some u;
      rest' = some us;
      at_place = rw at_r refl;
      later = (from_r, omega (arith, h.1), h.2.1);
      split = λ i. refl;
      fresh = λ acc n. put_team_new acc r u h.2.0 n;
      held = add_team_held (numbered 1 ts) r u (contains-numbered 1 r ts (drop-lt r ts u us h.0));
    }
