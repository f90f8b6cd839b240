-- ===== src/Clicks/Report/Counts.antt =====
-- The report of `analyse` leaves no page out.
use hybrid_search.Prelude.{
  ℕ, suc, ◌+◌, ◌≡◌, refl, ◌∙◌, ap, List, [], ◌∷◌, Option, ok, >>=-eq-ok, length, length-append,
  tally, Bool-cases, inl, inr, arith, subst,
}
use hybrid_search.Prelude.Text.{Str}
use hybrid_search.Prelude.Float.{Float}
use hybrid_search.Clicks.Events.Pages.{Page}
use hybrid_search.Clicks.Statistics.{
  Library, Outcome, a_wins, b_wins, tied, is_a, is_b, is_tie, interleave_report,
}
use hybrid_search.Clicks.Experiments.{
  Groups, same_id, add_page, group_pages, page_outcome, outcomes_of,
}

abbrev pub group_sizes : Groups → ℕ
group_sizes [] = 0
group_sizes ((id, pages) ∷ groups) = length pages + group_sizes groups

group_sizes-add_page :
    (groups : Groups) (id : Option Str) (p : Page)
    → group_sizes (add_page groups id p) ≡ group_sizes groups + 1
unfolding add_page
group_sizes-add_page [] id p = omega arith
group_sizes-add_page ((j, pages) ∷ groups) id p = elim (Bool-cases (same_id id j)) [
  | inl h ↦ rw (h, add_page) (omega (arith, length-append pages (p ∷ [])))
  | inr h ↦ rw (h, add_page) (omega (arith, group_sizes-add_page groups id p))
]

group_sizes-group_pages :
    (pages : List Page) (groups : Groups)
    → group_sizes (group_pages pages groups) ≡ group_sizes groups + length pages
unfolding group_pages
group_sizes-group_pages [] groups = omega arith
group_sizes-group_pages (p ∷ pages) groups = omega (
  arith,
  group_sizes-group_pages pages (add_page groups p.experiment_id p),
  group_sizes-add_page groups p.experiment_id p,
)

length-outcomes_of :
    (pages : List Page) (o : List Outcome) → outcomes_of pages ≡ ok o → length o ≡ length pages
unfolding outcomes_of
length-outcomes_of [] o h = let e : [] ≡ o = cc in rw (← e) refl
length-outcomes_of (p ∷ pages) o h =
    let (a, ha, h') = >>=-eq-ok (page_outcome p) _ h in
    let (rest, hrest, h'') = >>=-eq-ok (outcomes_of pages) _ h' in
    let e : a ∷ rest ≡ o = cc in
    subst (λ l. length l ≡ suc (length pages)) e (ap suc (length-outcomes_of pages rest hrest))

tallies : (o : List Outcome) → tally is_a o + tally is_b o + tally is_tie o ≡ length o
tallies [] = omega arith
tallies (a_wins ∷ o) = omega (arith, tallies o)
tallies (b_wins ∷ o) = omega (arith, tallies o)
tallies (tied ∷ o) = omega (arith, tallies o)

module _ (F : Float) (L : Library F) where
  -- Every page is in one group, and each page of an interleaving experiment whose credit is given
  -- is counted once: as a win of one team or as a tie.
  pub interleave_report-pages :
      (pages : List Page) (o : List Outcome) (n_boot : ℕ) (rng : L.Rng)
      → outcomes_of pages ≡ ok o
      → let r = (interleave_report F L o n_boot rng).0 in
        (group_sizes (group_pages pages []) ≡ length pages)
        × (r.impressions ≡ length pages)
        × (r.wins_a + r.wins_b + r.ties ≡ length pages)
  unfolding interleave_report
  interleave_report-pages pages o n_boot rng h = (
    omega (arith, group_sizes-group_pages pages []),
    length-outcomes_of pages o h,
    tallies o ∙ length-outcomes_of pages o h,
  )
