-- ===== src/Clicks/Events/Pages.antt =====
-- Pages of a log: `pages_from_events` and `click_matrix` of py/hybridsearch/clicks/events.py.
use hybrid_search.Prelude.{
  ℕ, zero, suc, ◌+◌, ◌-◌, Bool, true, false, ◌&&◌, ◌||◌, not, List, [], ◌∷◌, ◌++◌, map, Option,
  none, some, Result, ok, err, ◌>>=◌, if◌then◌else◌, ◌==◌, contains, leb, replicate, nat_eq,
}
use hybrid_search.Prelude.Text.{Str, codes, str_eq}
use hybrid_search.Prelude.Dict.{keys, values, get_or, put}
use hybrid_search.Clicks.Events.{
  Error, no_doc_id, impression, click, dwell, abandon, event_types, Event, is_set, value_or,
}

pub record Page : Type 0 where
  pub request_id : Str
  pub session_id : Str
  pub query : Str
  pub experiment_id : Option Str
  pub variant : Option Str
  pub docs : List (ℕ × ℕ)
  pub teams : List (ℕ × Str)
  pub clicked_ranks : List ℕ
  pub dwell : List (ℕ × ℕ)
  pub abandoned : Bool
  pub simulated : Option Str

-- `bool(self.teams)`
abbrev pub interleaved : Page → Bool
interleaved p = elim (p.teams) [ [] ↦ false | _ ∷ _ ↦ true ]

-- `pages` and `dq` of `pages_from_events`.
pub record Log : Type 0 where
  pub pages : List (Str × Page)
  pub dq : List (Str × ℕ)

-- `dq[key] += 1`
abbrev pub count : Str → List (Str × ℕ) → List (Str × ℕ)
count key dq = put dq key (get_or dq key 0 + 1)

abbrev pub new_page : Str → Event → Page
new_page rid e = record {
  request_id = rid;
  session_id = value_or [] e.session_id;
  query = value_or [] e.query;
  experiment_id = none;
  variant = none;
  docs = [];
  teams = [];
  clicked_ranks = [];
  dwell = [];
  abandoned = false;
  simulated = none;
}

abbrev is_none : Option Str → Bool
is_none none = true
is_none (some s) = false

-- `if e.get("experimentId") and pg.experiment_id is None: ...`
unfoldable pub enrol : Event → Page → Page
enrol e pg =
    if is_set e.experiment_id && is_none pg.experiment_id
    then record pg { experiment_id = e.experiment_id; variant = e.variant }
    else pg

-- `if e.get("simulated"): ...`
unfoldable pub mark_simulated : Event → Page → Page
mark_simulated e pg = if is_set e.simulated then record pg { simulated = e.simulated } else pg

-- `t in ("impression", "click", "dwell")`
abbrev pub wants_rank : Str → Bool
wants_rank t = contains (impression ∷ click ∷ dwell ∷ []) t

-- `teams[rank] = team`, if there is a team.
abbrev pub put_team : List (ℕ × Str) → ℕ → Option Str → List (ℕ × Str)
put_team teams rank none = teams
put_team teams rank (some []) = teams
put_team teams rank (some (c ∷ cs)) = put teams rank (c ∷ cs)

-- `teams.setdefault(rank, team)`, if there is a team.
abbrev pub add_team : List (ℕ × Str) → ℕ → Option Str → List (ℕ × Str)
add_team teams rank none = teams
add_team teams rank (some []) = teams
add_team teams rank (some (c ∷ cs)) =
    if contains (keys teams) rank then teams else put teams rank (c ∷ cs)

-- `clicked_ranks.add(rank)`
abbrev pub add_rank : List ℕ → ℕ → List ℕ
add_rank ranks rank = if contains ranks rank then ranks else ranks ++ rank ∷ []

unfoldable pub show_doc : Event → ℕ → Page → Result Error Page
show_doc e rank pg = elim (e.doc_id) [
  | none ↦ err no_doc_id
  | some d ↦ ok (record pg { docs = put pg.docs rank d; teams = put_team pg.teams rank e.team })
]

unfoldable pub click_rank : Event → ℕ → Page → Page
click_rank e rank pg = record pg {
  clicked_ranks = add_rank pg.clicked_ranks rank;
  teams = add_team pg.teams rank e.team;
}

-- `if t == "impression": ... elif ...`, where the rank is there.
unfoldable pub apply_ranked : Str → Event → ℕ → Page → Result Error Page
apply_ranked t e rank pg =
    if t == impression
    then show_doc e rank pg
    else if t == click
    then ok (click_rank e rank pg)
    else if t == dwell
    then ok (record pg { dwell = put pg.dwell rank (value_or 0 e.dwell_ms) })
    else ok pg

-- The same for the types without a rank.
unfoldable pub apply_unranked : Str → Page → Page
apply_unranked t pg = if t == abandon then record pg { abandoned = true } else pg

-- From `if t in (...) and rank is None` on, for a type that wants a rank.
unfoldable pub apply_at : Option ℕ → Str → Str → Event → Page → Log → Result Error Log
apply_at none t rid e pg s =
    ok (record { pages = put s.pages rid pg; dq = count (t ++ codes "_missing_rank") s.dq })
apply_at (some rank) t rid e pg s =
    apply_ranked t e rank pg >>= λ pg'. ok (record s { pages = put s.pages rid pg' })

-- From `rank = e.get("rank")` on, for the page `pg`.
unfoldable pub apply_event : Str → Str → Event → Page → Log → Result Error Log
apply_event t rid e pg s =
    if wants_rank t
    then apply_at e.rank t rid e pg s
    else ok (record s { pages = put s.pages rid (apply_unranked t pg) })

-- From `pg = pages.get(rid)` on.
unfoldable pub read_for : Str → Str → Event → Log → Result Error Log
read_for t rid e s =
    apply_event t rid e (mark_simulated e (enrol e (get_or s.pages rid (new_page rid e)))) s

-- The body of `for e in events`.
unfoldable pub read_event : Event → Log → Result Error Log
read_event e s =
    if not (contains event_types (value_or [] e.type))
    then ok (record s { dq = count (codes "unknown_type") s.dq })
    else if not (is_set e.request_id)
    then ok (record s { dq = count (codes "missing_request_id") s.dq })
    else read_for (value_or [] e.type) (value_or [] e.request_id) e s

unfoldable pub read_log : List Event → Log → Result Error Log
read_log [] s = ok s
read_log (e ∷ es) s = read_event e s >>= read_log es

-- `any(r not in pg.docs for r in pg.clicked_ranks)`
abbrev pub has_stray_click : List ℕ → List ℕ → Bool
has_stray_click ranks [] = false
has_stray_click ranks (r ∷ clicked) = not (contains ranks r) || has_stray_click ranks clicked

unfoldable pub count_strays : List Page → List (Str × ℕ) → List (Str × ℕ)
count_strays [] dq = dq
count_strays (pg ∷ pages) dq = count_strays pages (
    if has_stray_click (keys pg.docs) pg.clicked_ranks
    then count (codes "click_without_impression") dq
    else dq)

unfoldable pub pages_from_events : List Event → Result Error (List Page × List (Str × ℕ))
pages_from_events events = do
  s ← read_log events (record { pages = []; dq = [] })
  ok (values s.pages, count_strays (values s.pages) s.dq)

abbrev pub set_true : ℕ → List Bool → List Bool
set_true i [] = []
set_true zero (b ∷ row) = true ∷ row
set_true (suc i) (b ∷ row) = b ∷ set_true i row

-- `m[i, r - 1] = True` for the clicked ranks from 1 to `k`.
unfoldable pub click_row : ℕ → List ℕ → List Bool → List Bool
click_row k [] row = row
click_row k (r ∷ ranks) row =
    click_row k ranks (if leb 1 r && leb r k then set_true (r - 1) row else row)

unfoldable pub click_matrix : List Page → ℕ → List (List Bool)
unfolding click_row
click_matrix pages k = map (λ pg. click_row k pg.clicked_ranks (replicate k false)) pages
