-- ===== src/Clicks/Models/Positions.antt =====
-- `PBM.simulate` of py/hybridsearch/clicks/models.py, seen by one session.
use hybrid_search.Prelude.{
  length-map, ℕ, zero, suc, ◌≤◌, ◌≡◌, refl, Bool, true, ◌&&◌, List, [], ◌∷◌, map, some, ok, ◌>>=◌,
  arith, length, get_elem?, take, ap, ap₂, nat_beq,
}
use hybrid_search.Prelude.Text.{Str, codes}
use hybrid_search.Prelude.Float.{Float}
use hybrid_search.Clicks.Models.{
  Seen, both, below, broadcast, position_bias, pbm_column, pbm_columns, simulate, make_model,
  dl_profile_arrays, dl_to_table,
}
use hybrid_search.Clicks.Models.Sessions.{
  bit, Meeting, column_of, rate, lookup_column-rate, AreMeetings, seen_by,
}

module _ (F : Float) where
  open F use {Num, of_nat, less}

  -- What the user of the position-based model does from the rank `r` on, as whether the result is
  -- examined, clicked and satisfying: each rank is examined or not whatever happens at the others.
  abbrev pub read_page :
      (ℕ → Num) → Num → List Num → Num → List Num → ℕ → List (Meeting F) → List (Bool × Bool × Bool)
  read_page power x alpha y sigma r [] = []
  read_page power x alpha y sigma r (m ∷ meetings) =
      let examined = less m.first (power r) in
      let clicked = examined && less m.second (rate F x alpha m.grade) in
      (examined, clicked, clicked && less m.third (rate F y sigma m.grade))
      ∷ read_page power x alpha y sigma (suc r) meetings

  bit-both-below :
      (f g : Meeting F → Num) (e : List Bool) (meetings : List (Meeting F)) (i : ℕ) (m : Meeting F)
      → get_elem? meetings i ≡ some m
      → bit (both e (below F (map f meetings) (map g meetings))) i ≡ (bit e i && less (f m) (g m))
  bit-both-below f g e [] i m h = cc
  bit-both-below f g [] (n ∷ meetings) i m h = refl
  bit-both-below f g (b ∷ e) (n ∷ meetings) zero m h =
      let same : n ≡ m = cc in ap (λ k. b && less (f k) (g k)) same
  bit-both-below f g (b ∷ e) (n ∷ meetings) (suc i) m h = bit-both-below f g e meetings i m h

  bit-map :
      (p : Num → Bool) (f : Meeting F → Num) (meetings : List (Meeting F)) (i : ℕ) (m : Meeting F)
      → get_elem? meetings i ≡ some m
      → bit (map p (map f meetings)) i ≡ p (f m)
  bit-map p f [] i m h = cc
  bit-map p f (n ∷ meetings) zero m h = let same : n ≡ m = cc in ap (λ k. p (f k)) same
  bit-map p f (n ∷ meetings) (suc i) m h = bit-map p f meetings i m h

  module _ (power : ℕ → Num) where
    take-position_bias :
        (n k r : ℕ) → n ≤ k → take n (position_bias F power r k) ≡ position_bias F power r n
    take-position_bias zero k r h = refl
    take-position_bias (suc n) zero r h = absurd (omega arith)
    take-position_bias (suc n) (suc k) r h =
        ap (◌∷◌ (power r)) (take-position_bias n k (suc r) (omega arith))

    length-position_bias : (n r : ℕ) → length (position_bias F power r n) ≡ n
    length-position_bias zero r = refl
    length-position_bias (suc n) r = ap suc (length-position_bias n (suc r))

    broadcast-position_bias :
        (n k r : ℕ)
        → n ≤ k
        → broadcast F n (position_bias F power r k) ≡ ok (position_bias F power r n)
    broadcast-position_bias zero zero r h = refl
    broadcast-position_bias (suc n) zero r h = absurd (omega arith)
    broadcast-position_bias zero (suc zero) r h = refl
    broadcast-position_bias (suc zero) (suc zero) r h = refl
    broadcast-position_bias (suc (suc n)) (suc zero) r h = absurd (omega arith)
    broadcast-position_bias n (suc (suc k)) r h =
        let test : nat_beq n n ≡ true = ground arith in
        rw (take-position_bias n (suc (suc k)) r h, length-position_bias n r, test) refl

    module _ (x : Num) (alpha : List Num) (y : Num) (sigma : List Num) where
      pbm_columns_lem :
          (r : ℕ) (columns : List (List (Meeting F))) (i : ℕ) (meetings : List (Meeting F))
          → AreMeetings F x alpha y sigma i columns meetings
          → (seen : List Seen) × (pbm_columns F
                (x ∷ alpha)
                (y ∷ sigma)
                (position_bias F power r (length columns))
                (map (column_of F) columns)
              ≡ ok seen)
            × (map (seen_by F x alpha y sigma i) seen ≡ read_page power x alpha y sigma r meetings)
      unfolding pbm_columns pbm_column
      pbm_columns_lem r [] i [] w = ([], refl, refl)
      pbm_columns_lem r [] i (m ∷ meetings) w = absurd w
      pbm_columns_lem r (ms ∷ columns) i [] w = absurd w
      pbm_columns_lem r (ms ∷ columns) i (m ∷ meetings) w =
          let (seen, e, session) = pbm_columns_lem (suc r) columns i meetings w.1 in
          let examined = map (λ u. less u (power r)) (map (λ n. n.first) ms) in
          let clicks =
            both examined
              (below F (map (λ n. n.second) ms) (map (λ n. rate F x alpha n.grade) ms)) in
          let satisfied =
            both clicks (below F (map (λ n. n.third) ms) (map (λ n. rate F y sigma n.grade) ms)) in
          (
            record { clicks = clicks; satisfied = satisfied; examined = examined } ∷ seen,
            rw (lookup_column-rate F x alpha ms, lookup_column-rate F y sigma ms, e) refl,
            ap₂ ◌∷◌
                (rw
                  (
                    bit-both-below (λ n. n.third) (λ n. rate F y sigma n.grade) clicks ms i m w.0,
                    bit-both-below (λ n. n.second) (λ n. rate F x alpha n.grade) examined ms i m
                        w.0,
                    bit-map (λ u. less u (power r)) (λ n. n.first) ms i m w.0,
                  )
                  refl)
                session,
          )

      -- The "pbm" model of a profile with known tables is made, and its `simulate` returns for
      -- pages of at most `k` ranks. In each session, a result is examined if the first draw is
      -- below the bias of its rank, whatever happens at the other ranks; it is clicked if it is
      -- examined and attracts, and satisfies if it is clicked and the third draw is below the
      -- grade's number.
      pub pbm_simulate_lem :
          (profile : Str) (k : ℕ) (gamma : Num) (n : ℕ) (columns : List (List (Meeting F))) (i : ℕ)
          (meetings : List (Meeting F))
          → dl_profile_arrays F profile dl_to_table ≡ ok (x ∷ alpha, y ∷ sigma)
          → length columns ≤ k
          → AreMeetings F x alpha y sigma i columns meetings
          → (seen : List Seen) × ((make_model F (codes "pbm") profile k power gamma >>= λ model.
                simulate F model n (map (column_of F) columns))
              ≡ ok seen)
            × (map (seen_by F x alpha y sigma i) seen ≡ read_page power x alpha y sigma 1 meetings)
      unfolding make_model simulate
      pbm_simulate_lem profile k gamma n columns i meetings tables h w =
          let (seen, e, session) = pbm_columns_lem 1 columns i meetings w in
          (
            seen,
            rw
                (
                  tables,
                  simulate,
                  length-map (column_of F) columns,
                  broadcast-position_bias (length columns) k 1 h,
                  e,
                )
                refl,
            session,
          )
