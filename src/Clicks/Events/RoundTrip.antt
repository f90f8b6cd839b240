-- ===== src/Clicks/Events/RoundTrip.antt =====
-- What `pages_from_events` of py/hybridsearch/clicks/events.py reads back from the events that
-- `impression_events` writes.
use hybrid_search.Prelude.{
  ℕ, suc, ◌+◌, ◌<◌, ◌≡◌, refl, Bool, true, false, List, [], ◌∷◌, ◌++◌, map, Option, none, some,
  Result, ok, ◌>>=◌, if◌then◌else◌, contains, Distinct, arith, nat_eq, length, Bool-cases, inl, inr,
  ◌∙◌, ap, sym, append_assoc, append-nil, subst,
}
use hybrid_search.Prelude.Text.{Str, str_eq}
use hybrid_search.Prelude.Sets.{Distinct-middle}
use hybrid_search.Prelude.Dict.{keys, values, put_new, get_or_absent, keys-append}
use hybrid_search.Clicks.Events.{
  Error, Event, View, base, variant_if, is_set, query_type, impression_events,
}
use hybrid_search.Clicks.Events.Pages.{
  Page, Log, apply_unranked, enrol, mark_simulated, new_page, read_for, apply_event, read_event,
  read_log, has_stray_click, count_strays, pages_from_events,
}
use hybrid_search.Clicks.Events.Reading.{at, read_event_lem, read_log-append}
use hybrid_search.Clicks.Events.Numbered.{numbered, teams_numbered, contains-numbered}
use hybrid_search.Clicks.Events.Clicked.{clicks_lem}
use hybrid_search.Clicks.Events.Shown.{
  page_with, page_of, IsView, clicked_from, is_named, impressions_lem,
}

-- The first event of a request makes its page.
enrol_first :
    (o : Option Str) (e : Event) (pg : Page)
    → is_named o ≡ true
    → e.experiment_id ≡ o
    → e.variant ≡ variant_if o e.variant
    → pg.experiment_id ≡ none
    → pg.variant ≡ none
    → enrol e pg ≡ record pg { experiment_id = o; variant = e.variant }
unfolding enrol
enrol_first none e pg h p u q k = ground arith
enrol_first (some []) e pg h p u q k = cc
enrol_first (some (c ∷ cs)) e pg h p u q k = ground arith

mark_first :
    (o : Option Str) (e : Event) (pg : Page)
    → is_named o ≡ true
    → e.simulated ≡ (if is_set o then o else none)
    → pg.simulated ≡ none
    → mark_simulated e pg ≡ record pg { simulated = o }
unfolding mark_simulated
mark_first none e pg h p q = ground arith
mark_first (some []) e pg h p q = cc
mark_first (some (c ∷ cs)) e pg h p q = ground arith

variant_again :
    (o variant : Option Str) → variant_if o variant ≡ variant_if o (variant_if o variant)
variant_again none variant = refl
variant_again (some x) variant = refl

module _ (v : View) (w : IsView v) (s : Log)
    (new : contains (keys s.pages) v.request_id ≡ false) where
  read_query :
      read_event (base v query_type v.t0) s ≡ ok (at s v.request_id (page_with v [] [] [] [] false))
  unfolding read_for apply_event apply_unranked
  read_query =
      let e = base v query_type v.t0 in
      read_event_lem query_type v.request_id e s refl refl refl w.named
      ∙ ap (λ p. ok (at s v.request_id p))
          (ap (λ p. mark_simulated e (enrol e p))
              (get_or_absent s.pages v.request_id (new_page v.request_id e) new)
            ∙ ap (mark_simulated e) (
                enrol_first v.experiment_id e (new_page v.request_id e) w.experiment_named refl
                  (variant_again v.experiment_id v.variant) refl refl)
            ∙ mark_first v.simulated e _ w.simulated_named refl refl)

  -- The events of a view add its page, at the end.
  view_lem :
      (es : List Event) × (impression_events v ≡ ok es)
      × (read_log es s ≡ ok (record s { pages = s.pages ++ (v.request_id, page_of v) ∷ [] }))
  unfolding impression_events read_log
  view_lem =
      let teams = teams_numbered 1 v.teams in
      let docs = numbered 1 v.doc_ids in
      let (shown, made, seen) =
        impressions_lem v w s (v.t0 + 300) 0 v.doc_ids v.teams [] [] w.teams_all tt tt in
      let (rest, made', seen') =
        clicks_lem v w s docs v.doc_ids v.clicks v.dwell_ms v.teams 0 (v.t0 + 300 + 2000) false []
          [] refl w.clicks_all refl w.dwell_all w.teams_all tt tt in
      (
        base v query_type v.t0 ∷ shown ++ rest,
        rw (made, made') refl,
        ap (λ x. x >>= read_log (shown ++ rest)) read_query
            ∙ read_log-append shown rest _
            ∙ ap (λ x. x >>= read_log rest) seen
            ∙ seen'
            ∙ ap (λ d. ok (record s { pages = d })) (put_new s.pages v.request_id (page_of v) new),
      )

-- The ranks that were clicked are ranks of documents.
clicked_ranks_shown :
    (ks : List ℕ) (i : ℕ) (cs : List Bool)
    → ((j : ℕ) → j < length cs → contains ks (i + j) ≡ true)
    → has_stray_click ks (clicked_from i cs) ≡ false
clicked_ranks_shown ks i [] h = refl
clicked_ranks_shown ks i (c ∷ cs) h =
    let first : contains ks i ≡ true =
      subst (λ k. contains ks k ≡ true) (omega arith) (h 0 (omega arith)) in
    let rest : has_stray_click ks (clicked_from (suc i) cs) ≡ false =
      clicked_ranks_shown ks (suc i) cs
        (λ j l. subst (λ k. contains ks k ≡ true) (omega arith) (h (suc j) (omega arith))) in
    elim (Bool-cases c) [ inl e ↦ rw e (rw (first, rest) refl) | inr e ↦ rw e rest ]

page_of-no_strays :
    (v : View) (w : IsView v)
    → has_stray_click (keys (page_of v).docs) (page_of v).clicked_ranks ≡ false
page_of-no_strays v w =
    clicked_ranks_shown (keys (numbered 1 v.doc_ids)) 1 v.clicks
      (λ j l. contains-numbered 1 j v.doc_ids (omega (arith, w.clicks_all)))

-- The events of several views, one after another.
abbrev pub log_events : List View → Result Error (List Event)
log_events [] = ok []
log_events (v ∷ vs) = impression_events v >>= λ es. log_events vs >>= λ rest. ok (es ++ rest)

abbrev pub requests : List View → List Str
requests [] = []
requests (v ∷ vs) = v.request_id ∷ requests vs

abbrev pub AreViews : List View → Type 0
AreViews [] = Unit
AreViews (v ∷ vs) = IsView v × AreViews vs

abbrev pages_by_request : List View → List (Str × Page)
pages_by_request [] = []
pages_by_request (v ∷ vs) = (v.request_id, page_of v) ∷ pages_by_request vs

views_lem :
    (vs : List View) (s : Log)
    → AreViews vs
    → Distinct (keys s.pages ++ requests vs)
    → (es : List Event) × (log_events vs ≡ ok es)
      × (read_log es s ≡ ok (record s { pages = s.pages ++ pages_by_request vs }))
unfolding read_log
views_lem [] s w u = ([], refl, ap (λ d. ok (record s { pages = d })) (sym (append-nil s.pages)))
views_lem (v ∷ vs) s w u =
    let new : contains (keys s.pages) v.request_id ≡ false =
      Distinct-middle (keys s.pages) v.request_id (requests vs) u in
    let (es, made, seen) = view_lem v w.0 s new in
    let s' : Log = record s { pages = s.pages ++ (v.request_id, page_of v) ∷ [] } in
    let u' : Distinct (keys s'.pages ++ requests vs) =
      rw
        (
          keys-append s.pages ((v.request_id, page_of v) ∷ []),
          append_assoc (keys s.pages) (v.request_id ∷ []) (requests vs),
        )
        u in
    let (rest, made', seen') = views_lem vs s' w.1 u' in
    (
      es ++ rest,
      rw (made, made') refl,
      read_log-append es rest s
          ∙ ap (λ x. x >>= read_log rest) seen
          ∙ seen'
          ∙ ap (λ d. ok (record s { pages = d }))
              (append_assoc s.pages ((v.request_id, page_of v) ∷ []) (pages_by_request vs)),
    )

pages_of_views : (vs : List View) → values (pages_by_request vs) ≡ map page_of vs
pages_of_views [] = refl
pages_of_views (v ∷ vs) = ap (◌∷◌ (page_of v)) (pages_of_views vs)

count_strays_clean :
    (pg : Page) (pages : List Page) (dq : List (Str × ℕ))
    → has_stray_click (keys pg.docs) pg.clicked_ranks ≡ false
    → count_strays (pg ∷ pages) dq ≡ count_strays pages dq
unfolding count_strays
count_strays_clean pg pages dq h = rw h refl

no_strays :
    (vs : List View) (dq : List (Str × ℕ)) → AreViews vs → count_strays (map page_of vs) dq ≡ dq
unfolding count_strays
no_strays [] dq w = refl
no_strays (v ∷ vs) dq w =
    count_strays_clean (page_of v) (map page_of vs) dq (page_of-no_strays v w.0)
    ∙ no_strays vs dq w.1

-- The log of well-formed views with different requests (a request id, a click and a dwell time for
-- each document, a team for each or none, no empty texts) is written, and read back it gives the pages of these
-- views in order, and no data-quality counter: the documents, teams, clicks and dwell times by
-- rank from 1, the experiment with its variant, and `abandoned` where nothing was clicked.
pub pages_from_events-log_events :
    (vs : List View)
    → AreViews vs
    → Distinct (requests vs)
    → (es : List Event) × (log_events vs ≡ ok es) × (pages_from_events es ≡ ok (map page_of vs, []))
unfolding pages_from_events
pages_from_events-log_events vs w u =
    let (es, made, seen) = views_lem vs (record { pages = []; dq = [] }) w u in
    (es, made, rw (seen, pages_of_views vs, no_strays vs [] w) refl)
