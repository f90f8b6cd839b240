-- ===== src/Rerank/Sampler.antt =====
-- Training groups: py/hybridsearch/rerank/sampler.py. The random generator and the operations on
-- texts are parameters; `taken` and every other set is the list of its elements.
pub mod Batch
pub mod Draw
pub mod Picks
pub mod Epochs
pub mod Group
pub mod Negatives
pub mod Orders
pub mod Steps
use hybrid_search.Prelude.{
  ℕ, zero, suc, ◌+◌, ◌-◌, Bool, false, ◌&&◌, ◌||◌, not, List, [], ◌∷◌, ◌++◌, Option, none, some,
  Result, ok, err, ◌>>=◌, ◌>>◌, guard, if◌then◌else◌, ◌==◌, contains, length, ltb, select, nat_eq,
}
use hybrid_search.Prelude.Text.{Str, codes, str_eq}
use hybrid_search.Prelude.Dict.{keys, get?, get_or, put}
use hybrid_search.Prelude.Int.{ℤ, pos, sub_ℕ, is_ℤ}
use hybrid_search.Prelude.Sets.{union}

pub data Error : Type 0 where
  bad_strategy : Error
  key_error : Error
  index_error : Error
  zero_division : Error
  -- `rng.integers(0)`
  empty_range : Error

-- numpy's generator: `default_rng([seed, x])`, `rng.permutation(n)` and `rng.integers(n)`.
pub record Generator : Type 1 where
  pub State : Type 0
  pub seeded : ℕ → ℕ → State
  pub permutation : ℕ → State → List ℕ × State
  pub integers : ℕ → State → ℕ × State

-- `t.strip()`, `t.lower()` and `_WS.sub(" ", t)`
pub record TextOps : Type 0 where
  pub strip : Str → Str
  pub lower : Str → Str
  pub single_spaces : Str → Str

unfoldable pub norm_text : TextOps → Str → Str
norm_text ops t = ops.single_spaces (ops.lower (ops.strip t))

pub record MinedQuery : Type 0 where
  pub qid : Str
  pub positives : List Str
  pub bm25 : List Str
  pub dense : List Str
  pub random : List Str

abbrev pub random_only : Str
random_only = codes "random"

abbrev pub bm25_hard : Str
bm25_hard = codes "bm25-hard"

abbrev pub dense_hard : Str
dense_hard = codes "dense-hard"

abbrev pub mixed : Str
mixed = codes "mixed"

-- `STRATEGIES`
abbrev pub strategies : List Str
strategies = random_only ∷ bm25_hard ∷ dense_hard ∷ mixed ∷ []

-- The body of the loop of `needed_pids`, with `need`.
unfoldable pub needed_pids_from : Str → List MinedQuery → List Str → List Str
needed_pids_from strategy [] need = need
needed_pids_from strategy (m ∷ mined) need =
    let always = union (union need m.positives) m.random in
    let with_bm25 =
      if contains (bm25_hard ∷ mixed ∷ []) strategy then union always m.bm25 else always in
    needed_pids_from strategy mined
      (if contains (dense_hard ∷ mixed ∷ []) strategy then union with_bm25 m.dense else with_bm25)

unfoldable pub needed_pids : List MinedQuery → Str → List Str
unfolding needed_pids_from
needed_pids mined strategy = needed_pids_from strategy mined []

-- `any(p in passages for p in pids)`
abbrev pub any_in : List Str → List Str → Bool
any_in passages [] = false
any_in passages (p ∷ pids) = contains passages p || any_in passages pids

-- The fields of a `GroupSampler`, but for the counter and the cache. `mix` is
-- `int(round(n_neg * mix_bm25))`.
pub record GroupSampler : Type 0 where
  pub passages : List (Str × Str)
  pub strategy : Str
  pub n_neg : ℕ
  pub seed : ℕ
  pub mix : ℤ
  pub mined : List MinedQuery
  pub judged : List (Str × List Str)
  pub pos_text : List (Str × List Str)

-- `{norm_text(passages[p]) for p in m.pos if p in passages}`
unfoldable pub pos_texts : TextOps → List (Str × Str) → List Str → List Str
pos_texts ops passages [] = []
pos_texts ops passages (p ∷ ps) =
    let rest = pos_texts ops passages ps in
    elim (get? passages p) [ none ↦ rest | some t ↦ norm_text ops t ∷ rest ]

-- `{m.qid: ... for m in self.mined}`, added to `d`.
unfoldable pub pos_text_dict :
    TextOps → List (Str × Str) → List MinedQuery → List (Str × List Str) → List (Str × List Str)
pos_text_dict ops passages [] d = d
pos_text_dict ops passages (m ∷ mined) d =
    pos_text_dict ops passages mined (put d m.qid (pos_texts ops passages m.positives))

-- `GroupSampler(...)`
unfoldable pub make_sampler :
    TextOps
    → List MinedQuery
    → List (Str × Str)
    → List (Str × Str)
    → Str
    → ℕ
    → ℕ
    → ℤ
    → List (Str × List Str)
    → Result Error GroupSampler
unfolding pos_texts pos_text_dict
make_sampler ops mined queries passages strategy n_neg seed mix judged = do
  guard (contains strategies strategy) bad_strategy
  let kept = select (λ m. contains (keys queries) m.qid && any_in (keys passages) m.positives) mined
  ok (record {
    passages = passages;
    strategy = strategy;
    n_neg = n_neg;
    seed = seed;
    mix = mix;
    mined = kept;
    judged = judged;
    pos_text = pos_text_dict ops passages kept [];
  })

-- `t is not None and norm_text(t) not in self._pos_text[m.qid]`
abbrev pub text_ok : TextOps → Option (List Str) → Option Str → Result Error Bool
text_ok ops texts none = ok false
text_ok ops none (some t) = err key_error
text_ok ops (some texts) (some t) = ok (not (contains texts (norm_text ops t)))

-- `pid in taken or pid in m.pos or pid in self.judged.get(m.qid, ())`
unfoldable pub is_excluded : GroupSampler → MinedQuery → List Str → Str → Bool
is_excluded g m taken pid =
    contains taken pid || contains m.positives pid || contains (get_or g.judged m.qid []) pid

-- `_ok`
unfoldable pub is_ok : TextOps → GroupSampler → MinedQuery → Str → List Str → Result Error Bool
is_ok ops g m pid taken =
    if is_excluded g m taken pid
    then ok false
    else text_ok ops (get? g.pos_text m.qid) (get? g.passages pid)

-- `pool[j]`
abbrev pub item {ℓ} : {A : Type ℓ} → List A → ℕ → Result Error A
item [] j = err index_error
item (p ∷ pool) zero = ok p
item (p ∷ pool) (suc j) = item pool j

-- The loop of `_draw` over the places `order`, with `out` and `taken`.
unfoldable pub draw_loop :
    TextOps
    → GroupSampler
    → MinedQuery
    → List Str
    → ℤ
    → List ℕ
    → List Str
    → List Str
    → Result Error (List Str × List Str)
draw_loop ops g m pool n [] out taken = ok (out, taken)
draw_loop ops g m pool n (j ∷ order) out taken =
    let skip = draw_loop ops g m pool n order out taken in
    let step = item pool j >>= λ pid.
    let keep = draw_loop ops g m pool n order (out ++ pid ∷ []) (taken ++ pid ∷ []) in
    is_ok ops g m pid taken >>= λ good. if good then keep else skip in
    if is_ℤ (length out) n then ok (out, taken) else step

module _ (G : Generator) (ops : TextOps) (g : GroupSampler) where
  open G use {State, seeded, permutation, integers}

  -- `_draw`: the drawn ids, `taken` and the generator's state.
  unfoldable pub draw :
      MinedQuery → List Str → ℤ → List Str → State → Result Error (List Str × List Str × State)
  draw m pool n taken rng = do
    let order = permutation (length pool) rng
    drawn ← draw_loop ops g m pool n order.0 [] taken
    ok (drawn.0, drawn.1, order.1)

  -- The `else` branch of the strategies, for the share `nb` of BM25.
  unfoldable pub draw_mixed : MinedQuery → ℤ → State → Result Error (List Str × List Str × State)
  draw_mixed m nb rng = do
    first ← draw m m.bm25 nb [] rng
    second ← draw m m.dense (sub_ℕ g.n_neg (length first.0)) first.1 first.2
    ok (first.0 ++ second.0, second.1, second.2)

  -- `if self.strategy == ...`
  unfoldable pub draw_hard : MinedQuery → State → Result Error (List Str × List Str × State)
  draw_hard m rng =
      if g.strategy == random_only
      then draw m m.random (pos g.n_neg) [] rng
      else if g.strategy == bm25_hard
      then draw m m.bm25 (pos g.n_neg) [] rng
      else if g.strategy == dense_hard
      then draw m m.dense (pos g.n_neg) [] rng
      else draw_mixed m g.mix rng

  -- `if len(negs) < self.n_neg: ...`, with `topups`.
  unfoldable pub top_up :
      MinedQuery → ℕ → List Str × List Str × State → Result Error (List Str × ℕ × State)
  top_up m topups (negs, taken, rng) =
      if ltb (length negs) g.n_neg
      then (do
        more ← draw m m.random (sub_ℕ g.n_neg (length negs)) taken rng
        ok (negs ++ more.0, topups + (g.n_neg - length negs), more.2))
      else ok (negs, topups, rng)

  -- `group`: the group, `topups` and the generator's state.
  unfoldable pub group : MinedQuery → ℕ → State → Result Error ((Str × Str × List Str) × ℕ × State)
  group m topups rng = do
    let cands = select (contains (keys g.passages)) m.positives
    guard (ltb 0 (length cands)) empty_range
    let choice = integers (length cands) rng
    positive ← item cands choice.0
    drawn ← draw_hard m choice.1
    topped ← top_up m topups drawn
    ok ((m.qid, positive, topped.0), topped.1, topped.2)
