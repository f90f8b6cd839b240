-- ===== src/Clicks/Events/Shown.antt =====
-- The pages that views are, and how `pages_from_events` of py/hybridsearch/clicks/events.py reads
-- the events of their documents.
use hybrid_search.Prelude.{
  ℕ, suc, ◌+◌, ◌≤◌, ◌≡◌, refl, Bool, true, false, not, List, [], ◌∷◌, ◌++◌, Option, none, some, ok,
  ◌>>=◌, if◌then◌else◌, contains, All, nat_eq, length, ◌∙◌, ap, ap₂, sym, append_assoc, append-nil,
}
use hybrid_search.Prelude.Text.{Str, str_eq}
use hybrid_search.Prelude.Dict.{keys, put}
use hybrid_search.Clicks.Events.{
  Event, View, base, variant_if, is_set, doc_event, impression, click, dwell, impressions_from,
  event_types, team_at,
}
use hybrid_search.Clicks.Events.Pages.{
  Page, Log, apply_ranked, show_doc, click_rank, read_event, read_log, put_team, add_team,
}
use hybrid_search.Clicks.Events.Reading.{at, enrol_again, mark_again, IsOf, read_ranked}
use hybrid_search.Clicks.Events.Numbered.{
  numbered, entry, teams_numbered, TeamsFrom, team_step, teams_done, put_next, add_next,
  All-keys-next, All-keys-entry,
}

-- A page of the view with these contents.
abbrev pub page_with : View → List (ℕ × ℕ) → List (ℕ × Str) → List ℕ → List (ℕ × ℕ) → Bool → Page
page_with v docs teams clicked dwells abandoned = record {
  request_id = v.request_id;
  session_id = v.session_id;
  query = v.query;
  experiment_id = v.experiment_id;
  variant = variant_if v.experiment_id v.variant;
  docs = docs;
  teams = teams;
  clicked_ranks = clicked;
  dwell = dwells;
  abandoned = abandoned;
  simulated = v.simulated;
}

-- The ranks that were clicked, from rank `i`, and their dwell times.
abbrev pub clicked_from : ℕ → List Bool → List ℕ
clicked_from i [] = []
clicked_from i (c ∷ cs) = let rest = clicked_from (suc i) cs in if c then i ∷ rest else rest

abbrev pub dwells_from : ℕ → List Bool → List ℕ → List (ℕ × ℕ)
dwells_from i [] ms = []
dwells_from i (c ∷ cs) [] = []
dwells_from i (c ∷ cs) (m ∷ ms) =
    let rest = dwells_from (suc i) cs ms in if c then (i, m) ∷ rest else rest

abbrev pub any_of : Bool → List Bool → Bool
any_of b [] = b
any_of b (c ∷ cs) = any_of (if c then true else b) cs

-- A text that is missing or not empty.
abbrev pub is_named : Option Str → Bool
is_named none = true
is_named (some []) = false
is_named (some (c ∷ cs)) = true

-- The page that a view is.
abbrev pub page_of : View → Page
page_of v =
    page_with v (numbered 1 v.doc_ids) (teams_numbered 1 v.teams) (clicked_from 1 v.clicks)
      (dwells_from 1 v.clicks v.dwell_ms) (not (any_of false v.clicks))

-- A view that can be logged: a request id, a click and a dwell time for each document, a team for
-- each document or none, and no empty text where one is given.
pub record IsView (v : View) : Type 0 where
  pub named : is_set (some v.request_id) ≡ true
  pub clicks_all : length v.clicks ≡ length v.doc_ids
  pub dwell_all : length v.dwell_ms ≡ length v.doc_ids
  pub teams_all : TeamsFrom v.teams 0 v.doc_ids v.teams
  pub experiment_named : is_named v.experiment_id ≡ true
  pub simulated_named : is_named v.simulated ≡ true

simulated_again :
    (o : Option Str)
    → is_set (if is_set o then o else none) ≡ true
    → (if is_set o then o else none) ≡ o
simulated_again none h = refl
simulated_again (some []) h = cc
simulated_again (some (c ∷ cs)) h = refl

module _ (v : View) (w : IsView v) where
  -- An event of `kind` for a document.
  abbrev pub shown_as : Str → ℕ → ℕ → ℕ → Option ℕ → Option Str → Event
  shown_as kind ts r d ms team =
      let e = base v kind ts in
      record e { doc_id = some d; rank = some (r + 1); dwell_ms = ms; team = team }

  pub doc_event_lem :
      (kind : Str) (ts r d : ℕ) (ms : Option ℕ) (team : Option Str)
      → team_at v.teams r ≡ ok team
      → doc_event v kind ts r d ms ≡ ok (shown_as kind ts r d ms team)
  unfolding doc_event
  doc_event_lem kind ts r d ms team h = rw h refl

  module _ (docs : List (ℕ × ℕ)) (teams : List (ℕ × Str)) (clicked : List ℕ) (dwells : List (ℕ × ℕ))
      (abandoned : Bool) where
    shown_as-IsOf :
        (kind : Str) (ts r d : ℕ) (ms : Option ℕ) (team : Option Str)
        → contains event_types kind ≡ true
        → IsOf kind v.request_id
            (shown_as kind ts r d ms team)
            (page_with v docs teams clicked dwells abandoned)
    shown_as-IsOf kind ts r d ms team h = record {
      typed = refl;
      known = h;
      requested = refl;
      named = w.named;
      enrolled = enrol_again _ _ refl;
      marked = mark_again _ _ (simulated_again v.simulated);
    }

    pub base-IsOf :
        (kind : Str) (ts : ℕ)
        → contains event_types kind ≡ true
        → IsOf kind v.request_id (base v kind ts) (page_with v docs teams clicked dwells abandoned)
    base-IsOf kind ts h = record {
      typed = refl;
      known = h;
      requested = refl;
      named = w.named;
      enrolled = enrol_again _ _ refl;
      marked = mark_again _ _ (simulated_again v.simulated);
    }

  module _ (s : Log) where
    -- The log with this page of the view.
    abbrev pub logged : List (ℕ × ℕ) → List (ℕ × Str) → List ℕ → List (ℕ × ℕ) → Bool → Log
    logged docs teams clicked dwells abandoned =
        at s v.request_id (page_with v docs teams clicked dwells abandoned)

    read_impression :
        (t r d : ℕ) (team : Option Str) (docs : List (ℕ × ℕ)) (teams : List (ℕ × Str))
        (docs' : List (ℕ × ℕ)) (teams' : List (ℕ × Str))
        → put docs (r + 1) d ≡ docs'
        → put_team teams (r + 1) team ≡ teams'
        → read_event (shown_as impression t r d none team) (logged docs teams [] [] false)
          ≡ ok (logged docs' teams' [] [] false)
    unfolding apply_ranked show_doc
    read_impression t r d team docs teams docs' teams' p q =
        read_ranked impression v.request_id (shown_as impression t r d none team)
          (page_with v docs teams [] [] false) s
          (shown_as-IsOf docs teams [] [] false impression t r d none team refl) (r + 1)
          (page_with v docs' teams' [] [] false) refl refl
          (ap₂ (λ a b. ok (page_with v a b [] [] false)) p q)

    -- A click and its dwell time, where the page has the team already.
    pub read_click :
        (t t' r d ms : ℕ) (team : Option Str) (docs : List (ℕ × ℕ)) (teams : List (ℕ × Str))
        (clicked : List ℕ) (dwells : List (ℕ × ℕ)) (es : List Event)
        → All (λ k. k ≤ r) clicked
        → All (λ k. k ≤ r) (keys dwells)
        → add_team teams (r + 1) team ≡ teams
        → read_log
            (shown_as click t r d none team ∷ shown_as dwell t' r d (some ms) team ∷ es)
            (logged docs teams clicked dwells false)
          ≡ read_log es
              (logged docs teams (clicked ++ suc r ∷ []) (dwells ++ (suc r, ms) ∷ []) false)
    unfolding read_log apply_ranked click_rank
    read_click t t' r d ms team docs teams clicked dwells es n m held =
        let clicked' = clicked ++ suc r ∷ [] in
        let dwells' = dwells ++ (suc r, ms) ∷ [] in
        let first : read_event (shown_as click t r d none team)
              (logged docs teams clicked dwells false)
            ≡ ok (logged docs teams clicked' dwells false) =
          read_ranked click v.request_id (shown_as click t r d none team)
            (page_with v docs teams clicked dwells false) s
            (shown_as-IsOf docs teams clicked dwells false click t r d none team refl) (r + 1)
            (page_with v docs teams clicked' dwells false) refl refl
            (ap₂ (λ a b. ok (page_with v docs b a dwells false)) (add_next clicked r n) held) in
        let second : read_event (shown_as dwell t' r d (some ms) team)
              (logged docs teams clicked' dwells false)
            ≡ ok (logged docs teams clicked' dwells' false) =
          read_ranked dwell v.request_id (shown_as dwell t' r d (some ms) team)
            (page_with v docs teams clicked' dwells false) s
            (shown_as-IsOf docs teams clicked' dwells false dwell t' r d (some ms) team refl)
            (r + 1) (page_with v docs teams clicked' dwells' false) refl refl
            (ap (λ a. ok (page_with v docs teams clicked' a false)) (put_next dwells r ms m)) in
        rw (first, second) refl

    pub impressions_lem :
        (t r : ℕ) (ds : List ℕ) (rest : Option (List Str)) (docs : List (ℕ × ℕ))
        (teams : List (ℕ × Str))
        → TeamsFrom v.teams r ds rest
        → All (λ k. k ≤ r) (keys docs)
        → All (λ k. k ≤ r) (keys teams)
        → (es : List Event) × (impressions_from v t r ds ≡ ok es)
          × (read_log es (logged docs teams [] [] false)
              ≡ ok (
                  logged
                    (docs ++ numbered (suc r) ds)
                    (teams ++ teams_numbered (suc r) rest)
                    []
                    []
                    false))
    unfolding impressions_from read_log
    impressions_lem t r [] rest docs teams h n m = (
      [],
      refl,
      ap₂ (λ a b. ok (logged a b [] [] false)) (sym (append-nil docs))
          (sym (rw (teams_done v.teams r (suc r) rest h) (append-nil teams))),
    )
    impressions_lem t r (d ∷ ds) rest docs teams h n m =
        let step = team_step v.teams r d ds rest h in
        let e = shown_as impression t r d none step.team in
        let docs' = docs ++ (suc r, d) ∷ [] in
        let teams' = teams ++ entry (suc r) step.team in
        let (es, made, seen) =
          impressions_lem t (suc r) ds step.rest' docs' teams' step.later (All-keys-next docs r d n)
            (All-keys-entry teams r step.team m) in
        (
          e ∷ es,
          rw (doc_event_lem impression t r d none step.team step.at_place, made) refl,
          ap (λ x. x >>= read_log es)
                (read_impression t r d step.team docs teams docs' teams' (put_next docs r d n)
                  (step.fresh teams m))
              ∙ seen
              ∙ ap₂ (λ a b. ok (logged a b [] [] false))
                  (append_assoc docs ((suc r, d) ∷ []) (numbered (suc (suc r)) ds))
                  (append_assoc teams (entry (suc r) step.team)
                      (teams_numbered (suc (suc r)) step.rest')
                    ∙ ap (λ l. teams ++ l) (sym (step.split (suc r)))),
        )
