-- ===== src/Clicks/Models/Profiles.antt =====
-- The models of `make_model` in py/hybridsearch/clicks/models.py: what their users do.
use hybrid_search.Prelude.{
  ℕ, ◌<◌, ◌≡◌, refl, Bool, true, false, ◌&&◌, ◌||◌, not, List, [], ◌∷◌, map, ok, ◌>>=◌, arith, ap,
  ◌∙◌, All,
}
use hybrid_search.Prelude.Text.{Str, codes, str_eq}
use hybrid_search.Prelude.Float.{Float}
use hybrid_search.Clicks.Models.{Seen, dbn, simulate, make_model, dl_profile_arrays, dl_to_table}
use hybrid_search.Clicks.Models.Sessions.{
  Meeting, column_of, AreMeetings, seen_by, visit, is_attracted, would_stop, dbn_simulate_lem,
}

-- Some result is examined.
abbrev pub any_examined : List (Bool × Bool × Bool) → Bool
any_examined [] = false
any_examined ((examined, clicked, satisfied) ∷ session) = examined || any_examined session

-- A user who looks at the results from the top: only examined results are clicked, only clicks
-- satisfy, and after a result that was not examined, or that satisfied, nothing is examined.
abbrev pub IsScan : List (Bool × Bool × Bool) → Type 0
IsScan [] = Unit
IsScan ((examined, clicked, satisfied) ∷ session) =
    (clicked ≡ true → examined ≡ true)
    × (satisfied ≡ true → clicked ≡ true)
    × (any_examined session ≡ true → (examined && not satisfied) ≡ true)
    × IsScan session

module _ (F : Float) where
  open F use {Num, of_nat, less}

  module _ (x : Num) (alpha : List Num) (y : Num) (sigma : List Num) where
    visit_left :
        (goes_on : Meeting F → Bool) (meetings : List (Meeting F))
        → any_examined (visit F x alpha y sigma goes_on false meetings) ≡ false
    visit_left goes_on [] = refl
    visit_left goes_on (m ∷ meetings) = visit_left goes_on meetings

    unless_satisfied :
        (goes_on : Meeting F → Bool) (satisfied draw : Bool) (meetings : List (Meeting F))
        → any_examined (visit F x alpha y sigma goes_on (not satisfied && draw) meetings) ≡ true
        → (true && not satisfied) ≡ true
    unless_satisfied goes_on false draw meetings h = refl
    unless_satisfied goes_on true draw meetings h = let left = visit_left goes_on meetings in cc

    visit-IsScan :
        (goes_on : Meeting F → Bool) (here : Bool) (meetings : List (Meeting F))
        → IsScan (visit F x alpha y sigma goes_on here meetings)
    visit-IsScan goes_on here [] = tt
    visit-IsScan goes_on false (m ∷ meetings) = (
      λ h. h,
      λ h. h,
      λ h. let left = visit_left goes_on meetings in cc,
      visit-IsScan goes_on false meetings,
    )
    visit-IsScan goes_on true (m ∷ meetings) =
        let attracted = is_attracted F x alpha y sigma m in
        let stops = would_stop F x alpha y sigma m in
        (
          λ h. refl,
          λ h. ground arith,
          λ h. unless_satisfied goes_on (attracted && stops) (goes_on m) meetings h,
          visit-IsScan goes_on (not (attracted && stops) && goes_on m) meetings,
        )

    visit_always :
        (here : Bool) (meetings : List (Meeting F))
        → All (λ m. less m.third (of_nat 1) ≡ true) meetings
        → visit F x alpha y sigma (λ m. less m.third (of_nat 1)) here meetings
          ≡ visit F x alpha y sigma (λ m. true) here meetings
    visit_always here [] w = refl
    visit_always false (m ∷ meetings) w =
        ap (◌∷◌ (false, false, false)) (visit_always false meetings w.1)
    visit_always true (m ∷ meetings) w =
        rw
          (
            w.0,
            visit_always
                (not (is_attracted F x alpha y sigma m && would_stop F x alpha y sigma m) && true)
                meetings w.1,
          )
          refl

    -- In every session of a `DBN` with tables that are not empty, the user looks at the results
    -- from the top: only examined results are clicked, only clicks satisfy, and after a result that
    -- was not examined, or that satisfied, nothing is examined.
    pub dbn_simulate-IsScan :
        (gamma : Num) (n : ℕ) (columns : List (List (Meeting F))) (i : ℕ)
        (meetings : List (Meeting F))
        → i < n
        → AreMeetings F x alpha y sigma i columns meetings
        → (seen : List Seen) × (simulate F
              (dbn (x ∷ alpha) (y ∷ sigma) gamma)
              n
              (map (column_of F) columns)
            ≡ ok seen)
          × IsScan (map (seen_by F x alpha y sigma i) seen)
    dbn_simulate-IsScan gamma n columns i meetings h w =
        let (seen, e, session) =
          dbn_simulate_lem F x alpha y sigma gamma n columns i meetings h w in
        (seen, e, rw session (visit-IsScan (λ m. less m.third gamma) true meetings))

  -- The "cascade" model of a profile with known tables is made, and its `simulate` returns. If the
  -- third draws of a session are below 1, as the generator's are, its user examines every result
  -- until a click satisfies.
  pub cascade_lem :
      (profile : Str) (k : ℕ) (power : ℕ → Num) (gamma : Num) (x : Num) (alpha : List Num) (y : Num)
      (sigma : List Num) (n : ℕ) (columns : List (List (Meeting F))) (i : ℕ)
      (meetings : List (Meeting F))
      → dl_profile_arrays F profile dl_to_table ≡ ok (x ∷ alpha, y ∷ sigma)
      → i < n
      → AreMeetings F x alpha y sigma i columns meetings
      → All (λ m. less m.third (of_nat 1) ≡ true) meetings
      → (seen : List Seen) × ((make_model F (codes "cascade") profile k power gamma >>= λ model.
            simulate F model n (map (column_of F) columns))
          ≡ ok seen)
        × (map (seen_by F x alpha y sigma i) seen
            ≡ visit F x alpha y sigma (λ m. true) true meetings)
  unfolding make_model
  cascade_lem profile k power gamma x alpha y sigma n columns i meetings tables h w draws =
      let (seen, e, session) =
        dbn_simulate_lem F x alpha y sigma (of_nat 1) n columns i meetings h w in
      (seen, rw tables e, session ∙ visit_always x alpha y sigma true meetings draws)
