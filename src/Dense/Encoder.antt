-- ===== src/Dense/Encoder.antt =====
-- `Encoder` of py/hybridsearch/dense/encode.py: texts are encoded in batches of similar lengths. A
-- matrix is a function of the row's number; a row that `np.empty` leaves unset is `none`.
pub mod Budget
use hybrid_search.Prelude.{
  ℕ, zero, suc, ◌*◌, Bool, ◌&&◌, List, [], ◌∷◌, ◌++◌, map, Option, none, some, ◌==◌, if◌then◌else◌,
  leb, min, max, length, take, drop, nat_eq,
}
use hybrid_search.Prelude.Text.{Str, codes}
use hybrid_search.Prelude.Order.{sort_by}

-- `QUERY_PREFIX`, `PASSAGE_MAX_LEN` and `QUERY_MAX_LEN`
abbrev pub query_prefix : Str
query_prefix = codes "Represent this sentence for searching relevant passages: "

abbrev pub passage_max_len : ℕ
passage_max_len = 512

abbrev pub query_max_len : ℕ
query_max_len = 64

-- The tokeniser and the model: how many ids a text has, and `_encode_batch`.
pub record Model : Type 1 where
  pub Row : Type 0
  pub token_count : Str → ℕ → ℕ
  pub encode_batch : List Str → ℕ → List Row

-- `TOKEN_BUDGET` and `MAX_BATCH`
pub record Limits : Type 0 where
  pub token_budget : ℕ
  pub max_batch : ℕ

abbrev pub get_or {ℓ} : {A : Type ℓ} → List A → ℕ → A → A
get_or [] i a = a
get_or (x ∷ xs) zero a = x
get_or (x ∷ xs) (suc i) a = get_or xs i a

-- `i`, `i + 1`, ..., of which there are `n`.
abbrev pub indices : ℕ → ℕ → List ℕ
indices i zero = []
indices i (suc n) = i ∷ indices (suc i) n

abbrev pub shorter : List ℕ → ℕ → ℕ → Bool
shorter lens i j = leb (get_or lens i 0) (get_or lens j 0)

-- `np.argsort(lens, kind="stable")`
unfoldable pub argsort : List ℕ → List ℕ
argsort lens = sort_by (shorter lens) (indices 0 (length lens))

-- The inner loop, from `j - i = n`: how far the batch grows over what is left of `order`.
unfoldable pub grow : Limits → List ℕ → ℕ → List ℕ → ℕ
grow l lens n [] = n
grow l lens n (k ∷ rest) =
    let more = grow l lens (suc n) rest in
    if leb (suc n) l.max_batch && leb (suc n * get_or lens k 0) l.token_budget then more else n

-- `j = max(j, i + 1)`
unfoldable pub batch_size : Limits → List ℕ → List ℕ → ℕ
unfolding grow
batch_size l lens rest = max (grow l lens 0 rest) 1

-- The slices `order[i:j]` of the outer loop's rounds, with fuel for the rounds.
unfoldable pub batches : Limits → List ℕ → ℕ → List ℕ → List (List ℕ)
unfolding batch_size
batches l lens zero rest = []
batches l lens (suc fuel) [] = []
batches l lens (suc fuel) (k ∷ rest) =
    let size = batch_size l lens (k ∷ rest) in
    take size (k ∷ rest) ∷ batches l lens fuel (drop size (k ∷ rest))

module _ (m : Model) where
  open m use {Row, token_count, encode_batch}

  abbrev pub Matrix : Type 0
  Matrix = ℕ → Option Row

  -- `out[idx] = rows`
  unfoldable pub write_rows : List ℕ → List Row → Matrix → Matrix
  write_rows [] rows out = out
  write_rows (i ∷ idx) [] out = out
  write_rows (i ∷ idx) (r ∷ rows) out = write_rows idx rows (λ j. if j == i then some r else out j)

  unfoldable pub token_lens : List Str → ℕ → List ℕ
  token_lens texts max_len = map (λ t. min (token_count t max_len) max_len) texts

  -- The rounds of the outer loop.
  unfoldable pub encode_batches : List Str → ℕ → List (List ℕ) → Matrix → Matrix
  unfolding write_rows
  encode_batches texts max_len [] out = out
  encode_batches texts max_len (idx ∷ rounds) out =
      encode_batches texts max_len rounds
        (write_rows idx (encode_batch (map (λ k. get_or texts k []) idx) max_len) out)

  unfoldable pub encode : Limits → List Str → ℕ → Matrix
  unfolding argsort batches token_lens encode_batches
  encode l [] max_len = λ j. none
  encode l (t ∷ texts) max_len =
      let lens = token_lens (t ∷ texts) max_len in
      let order = argsort lens in
      encode_batches (t ∷ texts) max_len (batches l lens (length order) order) (λ j. none)

  unfoldable pub encode_queries : Limits → List Str → Matrix
  unfolding encode
  encode_queries l queries = encode l (map (λ q. query_prefix ++ q) queries) query_max_len

  unfoldable pub encode_passages : Limits → List Str → Matrix
  unfolding encode
  encode_passages l passages = encode l passages passage_max_len
