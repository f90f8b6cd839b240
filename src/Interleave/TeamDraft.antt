-- ===== src/Interleave/TeamDraft.antt =====
-- Team-draft interleaving, `team_draft` of py/hybridsearch/clicks/interleave.py.
-- A cursor `ia` into `a` is the suffix `a[ia:]`. The coins are the iterator's remaining values.
-- Each round of the `while` appends one document or ends the loop, so `k` rounds are enough.
mod Rounds
pub mod Counts
pub mod Cursor
pub mod Rules
pub mod Reference
pub mod Outcome
pub mod Contract
pub mod Swap
pub mod Relabelled
pub mod Credit
pub mod Coins
pub mod Enumerate
use hybrid_search.Prelude.{
  ℕ, zero, suc, ◌+◌, Bool, true, false, ◌&&◌, not, List, [], ◌∷◌, ◌++◌, Result, ok, err, ◌>>=◌, Eq,
  ltb, contains, if◌then◌else◌,
}

pub data Team : Type 0 where
  team_a team_b : Team

-- `index_error` is a read past the end of a ranking.
pub data Error : Type 0 where
  coins_exhausted index_error : Error

-- The local variables of the loop.
pub record Draft {ℓ} (A : Type ℓ) : Type ℓ where
  pub a : List A
  pub b : List A
  pub out : List A
  pub teams : List Team
  pub seen : List A
  pub ta : ℕ
  pub tb : ℕ
  pub used : ℕ
  pub coins : List Bool

-- How a round ends: by `break`, by going on, or by an exception.
pub data Round {ℓ} (A : Type ℓ) : Type ℓ where
  stop : Draft A → Round A
  go : Draft A → Round A
  fail : Error → Round A

abbrev pub is_empty {ℓ} : {A : Type ℓ} → List A → Bool
is_empty [] = true
is_empty (x ∷ xs) = false

module _ {ℓ} {A : Type ℓ} where
  -- `next(coins)`
  unfoldable pub flip : List Bool → Draft A → Result Error (Bool × Draft A)
  flip [] s = err coins_exhausted
  flip (c ∷ cs) s = ok (c, record s { coins = cs; used = s.used + 1 })

  -- The smaller team picks; a coin decides between equal teams.
  unfoldable pub choose : Draft A → Result Error (Bool × Draft A)
  unfolding flip
  choose s =
      if ltb s.ta s.tb
      then ok (true, s)
      else if ltb s.tb s.ta
      then ok (false, s)
      else flip s.coins s

  -- A team with no document left gives its turn away.
  unfoldable pub settle : Bool → Draft A → Bool
  settle pick_a s =
      if pick_a && is_empty s.a then false else if not pick_a && is_empty s.b then true else pick_a

  -- `out.append(doc)`, `seen.add(doc)`, and the position goes to the team.
  unfoldable pub append_doc : Team → A → Draft A → Draft A
  append_doc team_a doc s = record s {
    out = s.out ++ doc ∷ [];
    teams = s.teams ++ team_a ∷ [];
    seen = doc ∷ s.seen;
    ta = s.ta + 1;
  }
  append_doc team_b doc s = record s {
    out = s.out ++ doc ∷ [];
    teams = s.teams ++ team_b ∷ [];
    seen = doc ∷ s.seen;
    tb = s.tb + 1;
  }

  -- `a[ia]` or `b[ib]`
  unfoldable pub pick_from : Team → List A → Draft A → Round A
  unfolding append_doc
  pick_from team [] s = fail index_error
  pick_from team (doc ∷ rest) s = go (append_doc team doc s)

  unfoldable pub place : Bool → Draft A → Round A
  unfolding pick_from
  place pick_a s = if pick_a then pick_from team_a s.a s else pick_from team_b s.b s

  unfoldable pub take_turn : Result Error (Bool × Draft A) → Round A
  unfolding settle place
  take_turn (err e) = fail e
  take_turn (ok (pick_a, s)) = place (settle pick_a s) s

  -- What the loop does after a round.
  unfoldable pub after : (Draft A → Result Error (Draft A)) → Round A → Result Error (Draft A)
  after rest (stop t) = ok t
  after rest (go t) = rest t
  after rest (fail x) = err x

module _ {ℓ} {A : Type ℓ} ⦃e : Eq A⦄ where
  -- `while i < len(lst) and lst[i] in seen: i += 1`
  unfoldable pub advance : List A → List A → List A
  advance seen [] = []
  advance seen (x ∷ xs) = let rest = advance seen xs in if contains seen x then rest else x ∷ xs

  unfoldable pub advance_both : Draft A → Draft A
  unfolding advance
  advance_both s = record s { a = advance s.seen s.a; b = advance s.seen s.b }

  unfoldable pub draft_round : Draft A → Round A
  unfolding advance_both choose take_turn
  draft_round s =
      let s' = advance_both s in
      if is_empty s'.a && is_empty s'.b then stop s' else take_turn (choose s')

  -- `while len(out) < k`, with `n` documents to go
  unfoldable pub draft_loop : ℕ → Draft A → Result Error (Draft A)
  unfolding draft_round after
  draft_loop zero s = ok s
  draft_loop (suc n) s = after (draft_loop n) (draft_round s)

  abbrev pub start_draft : List A → List A → List Bool → Draft A
  start_draft a b coins = record {
    a = a;
    b = b;
    out = [];
    teams = [];
    seen = [];
    ta = 0;
    tb = 0;
    used = 0;
    coins = coins;
  }

  unfoldable pub team_draft :
      List A → List A → ℕ → List Bool → Result Error (List A × List Team × ℕ)
  unfolding draft_loop
  team_draft a b k coins = do s ← draft_loop k (start_draft a b coins); ok (s.out, s.teams, s.used)
