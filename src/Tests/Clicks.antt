-- ===== src/Tests/Clicks.antt =====
-- Runs of py/hybridsearch/clicks and its theorems at a log of two pages.
use hybrid_search.Prelude.{◌≡◌, refl, true, false, List, [], ◌∷◌, none, some, ok, nat_eq}
use hybrid_search.Prelude.Text.{codes, str_eq}
use hybrid_search.Clicks.Events.{Event, View}
use hybrid_search.Clicks.Events.Pages.{pages_from_events}
use hybrid_search.Clicks.Events.Shown.{IsView, page_of}
use hybrid_search.Clicks.Events.RoundTrip.{log_events, pages_from_events-log_events}

abbrev plain : View
plain = record {
  session_id = codes "s1";
  request_id = codes "r1";
  query = codes "cats";
  doc_ids = 70 ∷ 80 ∷ [];
  clicks = false ∷ false ∷ [];
  dwell_ms = 0 ∷ 0 ∷ [];
  experiment_id = none;
  variant = none;
  teams = none;
  t0 = 0;
  simulated = none;
}

abbrev interleaved_view : View
interleaved_view = record {
  session_id = codes "s1";
  request_id = codes "r2";
  query = codes "dogs";
  doc_ids = 80 ∷ 90 ∷ [];
  clicks = false ∷ true ∷ [];
  dwell_ms = 0 ∷ 5000 ∷ [];
  experiment_id = some (codes "e1");
  variant = some (codes "interleaved");
  teams = some (codes "A" ∷ codes "B" ∷ []);
  t0 = 30000;
  simulated = some (codes "dbn");
}

plain-IsView : IsView plain
plain-IsView = record {
  named = refl;
  clicks_all = refl;
  dwell_all = refl;
  teams_all = tt;
  experiment_named = refl;
  simulated_named = refl;
}

interleaved_view-IsView : IsView interleaved_view
interleaved_view-IsView = record {
  named = refl;
  clicks_all = refl;
  dwell_all = refl;
  teams_all = (refl, refl, (refl, (refl, tt)));
  experiment_named = refl;
  simulated_named = refl;
}

pages_from_events-log_events_example :
    (es : List Event) × (log_events (plain ∷ interleaved_view ∷ []) ≡ ok es)
    × (pages_from_events es ≡ ok (page_of plain ∷ page_of interleaved_view ∷ [], []))
pages_from_events-log_events_example =
    pages_from_events-log_events (plain ∷ interleaved_view ∷ [])
      (plain-IsView, (interleaved_view-IsView, tt)) (refl, (refl, tt))
