-- ===== src/Clicks/Events/Clicked.antt =====
-- How `pages_from_events` of py/hybridsearch/clicks/events.py reads the clicks of a view.
use hybrid_search.Prelude.{
  ℕ, suc, ◌+◌, ◌≤◌, ◌≡◌, refl, Bool, true, false, not, List, [], ◌∷◌, ◌++◌, Option, none, some, ok,
  All, All-append, arith, nat_eq, length, drop, ◌∙◌, ap₂, sym, append_assoc, append-nil,
}
use hybrid_search.Prelude.Text.{Str, str_eq}
use hybrid_search.Prelude.Dict.{keys}
use hybrid_search.Clicks.Events.{Event, View, base, click, dwell, abandon, clicks_from}
use hybrid_search.Clicks.Events.Pages.{Log, apply_unranked, read_event, read_log}
use hybrid_search.Clicks.Events.Reading.{read_unranked}
use hybrid_search.Clicks.Events.Numbered.{
  index-drop, All-grow, teams_numbered, TeamsFrom, team_step, All-keys-next,
}
use hybrid_search.Clicks.Events.Shown.{
  page_with, IsView, clicked_from, dwells_from, any_of, shown_as, doc_event_lem, base-IsOf, logged,
  read_click,
}

All-snoc :
    (ranks : List ℕ) (r : ℕ) → All (λ k. k ≤ r) ranks → All (λ k. k ≤ suc r) (ranks ++ suc r ∷ [])
All-snoc ranks r n = All-append _ ranks (suc r ∷ []) (All-grow r ranks n) (omega arith, tt)

module _ (v : View) (w : IsView v) (s : Log) (docs : List (ℕ × ℕ)) where
  -- The log with the page of the view, whose documents have been shown.
  abbrev so_far : List ℕ → List (ℕ × ℕ) → Bool → Log
  so_far = logged v w s docs (teams_numbered 1 v.teams)

  read_abandon :
      (clicked : List ℕ) (dwells : List (ℕ × ℕ)) (t : ℕ)
      → read_event (base v abandon t) (so_far clicked dwells false)
        ≡ ok (so_far clicked dwells true)
  unfolding apply_unranked
  read_abandon clicked dwells t =
      read_unranked abandon v.request_id (base v abandon t)
        (page_with v docs (teams_numbered 1 v.teams) clicked dwells false) s
        (base-IsOf v w docs (teams_numbered 1 v.teams) clicked dwells false abandon t refl) refl

  pub clicks_lem :
      (ds : List ℕ) (cs : List Bool) (ms : List ℕ) (rest : Option (List Str)) (r t : ℕ)
      (any_click : Bool) (clicked : List ℕ) (dwells : List (ℕ × ℕ))
      → drop r v.clicks ≡ cs
      → length cs ≡ length ds
      → drop r v.dwell_ms ≡ ms
      → length ms ≡ length ds
      → TeamsFrom v.teams r ds rest
      → All (λ k. k ≤ r) clicked
      → All (λ k. k ≤ r) (keys dwells)
      → (es : List Event) × (clicks_from v r ds t any_click ≡ ok es)
        × (read_log es (so_far clicked dwells false)
            ≡ ok (
                so_far
                  (clicked ++ clicked_from (suc r) cs)
                  (dwells ++ dwells_from (suc r) cs ms)
                  (not (any_of any_click cs))))
  unfolding clicks_from read_log
  clicks_lem [] (c ∷ cs) ms rest r t any_click clicked dwells hc lc hm lm h n m =
      absurd (omega arith)
  clicks_lem [] [] ms rest r t true clicked dwells hc lc hm lm h n m = (
    [],
    refl,
    ap₂ (λ a b. ok (so_far a b false)) (sym (append-nil clicked)) (sym (append-nil dwells)),
  )
  clicks_lem [] [] ms rest r t false clicked dwells hc lc hm lm h n m = (
    base v abandon t ∷ [],
    refl,
    rw (read_abandon clicked dwells t)
        (ap₂ (λ a b. ok (so_far a b true)) (sym (append-nil clicked)) (sym (append-nil dwells))),
  )
  clicks_lem (d ∷ ds) [] ms rest r t any_click clicked dwells hc lc hm lm h n m =
      absurd (omega arith)
  clicks_lem (d ∷ ds) (c ∷ cs) [] rest r t any_click clicked dwells hc lc hm lm h n m =
      absurd (omega arith)
  clicks_lem (d ∷ ds) (false ∷ cs) (ms0 ∷ ms) rest r t any_click clicked dwells hc lc hm lm h n m =
      let step = team_step v.teams r d ds rest h in
      let (c_at, cs_at) = index-drop r v.clicks false cs hc in
      let (m_at, ms_at) = index-drop r v.dwell_ms ms0 ms hm in
      let (es, made, seen) =
        clicks_lem ds cs ms step.rest' (suc r) t any_click clicked dwells cs_at (omega arith) ms_at
          (omega arith) step.later (All-grow r clicked n) (All-grow r (keys dwells) m) in
      (es, rw (c_at, made) refl, seen)
  clicks_lem (d ∷ ds) (true ∷ cs) (ms0 ∷ ms) rest r t any_click clicked dwells hc lc hm lm h n m =
      let step = team_step v.teams r d ds rest h in
      let (c_at, cs_at) = index-drop r v.clicks true cs hc in
      let (m_at, ms_at) = index-drop r v.dwell_ms ms0 ms hm in
      let clicked' = clicked ++ suc r ∷ [] in
      let dwells' = dwells ++ (suc r, ms0) ∷ [] in
      let (es, made, seen) =
        clicks_lem ds cs ms step.rest' (suc r) (t + ms0 + 1000) true clicked' dwells' cs_at
          (omega arith) ms_at (omega arith) step.later (All-snoc clicked r n)
          (All-keys-next dwells r ms0 m) in
      (
        shown_as v w click t r d none step.team
            ∷ shown_as v w dwell t r d (some ms0) step.team
            ∷ es,
        rw
            (
              c_at,
              doc_event_lem v w click t r d none step.team step.at_place,
              m_at,
              doc_event_lem v w dwell t r d (some ms0) step.team step.at_place,
              made,
            )
            refl,
        read_click v w s t t r d ms0 step.team docs (teams_numbered 1 v.teams) clicked dwells es n m
              step.held
            ∙ seen
            ∙ ap₂ (λ a b. ok (so_far a b (not (any_of true cs))))
                (append_assoc clicked (suc r ∷ []) (clicked_from (suc (suc r)) cs))
                (append_assoc dwells ((suc r, ms0) ∷ []) (dwells_from (suc (suc r)) cs ms)),
      )
