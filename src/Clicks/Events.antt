-- ===== src/Clicks/Events.antt =====
-- Event logs: py/hybridsearch/clicks/events.py. An event is a dict whose missing keys are `none`;
-- its numbers are natural, and `clientTs` is the number of milliseconds that its text stands for.
pub mod Pages
pub mod Reading
pub mod Numbered
pub mod Shown
pub mod Clicked
pub mod RoundTrip
pub mod Matrix
use hybrid_search.Prelude.{
  ℕ, zero, suc, ◌+◌, Bool, true, false, List, [], ◌∷◌, ◌++◌, Option, none, some, Result, ok, err,
  ◌>>=◌, if◌then◌else◌, nat_eq,
}
use hybrid_search.Prelude.Text.{Str, codes, str_eq}

pub data Error : Type 0 where
  index_error : Error
  -- `e["docId"]` of an event without one
  no_doc_id : Error

-- The types of events.
abbrev pub impression : Str
impression = codes "impression"

abbrev pub click : Str
click = codes "click"

abbrev pub dwell : Str
dwell = codes "dwell"

abbrev pub query_type : Str
query_type = codes "query"

abbrev pub abandon : Str
abandon = codes "abandon"

-- `EVENT_TYPES`
abbrev pub event_types : List Str
event_types = impression ∷ click ∷ dwell ∷ query_type ∷ abandon ∷ []

pub record Event : Type 0 where
  pub type : Option Str
  pub session_id : Option Str
  pub request_id : Option Str
  pub query : Option Str
  pub doc_id : Option ℕ
  pub rank : Option ℕ
  pub dwell_ms : Option ℕ
  pub experiment_id : Option Str
  pub variant : Option Str
  pub team : Option Str
  pub simulated : Option Str
  pub client_ts : ℕ

-- `if value:` of a text that may be missing.
abbrev pub is_set : Option Str → Bool
is_set none = false
is_set (some []) = false
is_set (some (c ∷ cs)) = true

-- `value or default`, and `e.get(key, default)`
abbrev pub value_or {ℓ} : {A : Type ℓ} → A → Option A → A
value_or a none = a
value_or a (some b) = b

-- The arguments of `impression_events`, `doc_ids` after `int`.
pub record View : Type 0 where
  pub session_id : Str
  pub request_id : Str
  pub query : Str
  pub doc_ids : List ℕ
  pub clicks : List Bool
  pub dwell_ms : List ℕ
  pub experiment_id : Option Str
  pub variant : Option Str
  pub teams : Option (List Str)
  pub t0 : ℕ
  pub simulated : Option Str

-- `l[i]`
abbrev pub index {ℓ} : {A : Type ℓ} → List A → ℕ → Result Error A
index [] i = err index_error
index (x ∷ xs) zero = ok x
index (x ∷ xs) (suc i) = index xs i

abbrev pub variant_if : Option Str → Option Str → Option Str
variant_if none variant = none
variant_if (some experiment) variant = variant

-- `base(kind, ts)`
abbrev pub base : View → Str → ℕ → Event
base v kind ts = record {
  type = some kind;
  session_id = some v.session_id;
  request_id = some v.request_id;
  query = some v.query;
  doc_id = none;
  rank = none;
  dwell_ms = none;
  experiment_id = v.experiment_id;
  variant = variant_if v.experiment_id v.variant;
  team = none;
  simulated = if is_set v.simulated then v.simulated else none;
  client_ts = ts;
}

-- `teams[r]`, if there are teams.
abbrev pub team_at : Option (List Str) → ℕ → Result Error (Option Str)
team_at none r = ok none
team_at (some teams) r = index teams r >>= λ team. ok (some team)

-- An event of `kind` for the document `d` in place `r`.
unfoldable pub doc_event : View → Str → ℕ → ℕ → ℕ → Option ℕ → Result Error Event
doc_event v kind ts r d ms = do
  team ← team_at v.teams r
  let e = base v kind ts
  ok (record e { doc_id = some d; rank = some (r + 1); dwell_ms = ms; team = team })

-- `for r, d in enumerate(doc_ids)`, the impressions, from `r`.
unfoldable pub impressions_from : View → ℕ → ℕ → List ℕ → Result Error (List Event)
unfolding doc_event
impressions_from v t r [] = ok []
impressions_from v t r (d ∷ ds) = do
  e ← doc_event v impression t r d none
  es ← impressions_from v t (suc r) ds
  ok (e ∷ es)

-- The same loop for the clicks, and the `abandon` event after it.
unfoldable pub clicks_from : View → ℕ → List ℕ → ℕ → Bool → Result Error (List Event)
unfolding doc_event
clicks_from v r [] t any_click = ok (if any_click then [] else base v abandon t ∷ [])
clicks_from v r (d ∷ ds) t any_click = do
  clicked ← index v.clicks r
  let skipped = clicks_from v (suc r) ds t any_click
  let taken = do
    e ← doc_event v click t r d none
    ms ← index v.dwell_ms r
    e' ← doc_event v dwell t r d (some ms)
    es ← clicks_from v (suc r) ds (t + ms + 1000) true
    ok (e ∷ e' ∷ es)
  if clicked then taken else skipped

unfoldable pub impression_events : View → Result Error (List Event)
unfolding impressions_from clicks_from
impression_events v = do
  shown ← impressions_from v (v.t0 + 300) 0 v.doc_ids
  clicked ← clicks_from v 0 v.doc_ids (v.t0 + 300 + 2000) false
  ok (base v query_type v.t0 ∷ shown ++ clicked)
