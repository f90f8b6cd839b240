-- ===== src/Clicks/Events/Reading.antt =====
-- One event after another for a page in `pages_from_events` of
-- py/hybridsearch/clicks/events.py.
use hybrid_search.Prelude.{
  ℕ, ◌≡◌, refl, true, false, List, [], ◌∷◌, ◌++◌, some, Result, ok, err, ◌>>=◌, contains,
  Bool-cases, inl, inr, arith, nat_eq, fun_ext, ◌∙◌, ap, ap₂, ==_refl,
}
use hybrid_search.Prelude.Text.{Str, str_eq}
use hybrid_search.Prelude.Dict.{put, put-put, get_or-put}
use hybrid_search.Clicks.Events.{Error, Event, is_set, value_or, event_types}
use hybrid_search.Clicks.Events.Pages.{
  Log, Page, enrol, mark_simulated, apply_event, apply_ranked, apply_unranked, wants_rank, read_for,
  apply_at, read_event, read_log,
}

-- The log `s` with `pg` as the page of the request.
abbrev pub at : Log → Str → Page → Log
at s rid pg = record s { pages = put s.pages rid pg }

pub enrol_again : (e : Event) (pg : Page) → pg.experiment_id ≡ e.experiment_id → enrol e pg ≡ pg
unfolding enrol
enrol_again e pg h = ground arith

pub mark_again :
    (e : Event) (pg : Page)
    → (is_set e.simulated ≡ true → e.simulated ≡ pg.simulated)
    → mark_simulated e pg ≡ pg
unfolding mark_simulated
mark_again e pg h = elim (Bool-cases (is_set e.simulated)) [
  | inl p ↦ rw p (λ i. record pg { simulated = h p i })
  | inr p ↦ rw p refl
]

-- An event of the page, which changes neither its experiment nor its mark.
pub record IsOf (t rid : Str) (e : Event) (pg : Page) : Type 0 where
  pub typed : e.type ≡ some t
  pub known : contains event_types t ≡ true
  pub requested : e.request_id ≡ some rid
  pub named : is_set (some rid) ≡ true
  pub enrolled : enrol e pg ≡ pg
  pub marked : mark_simulated e pg ≡ pg

-- An event of a known type with a request goes to the page of the request.
pub read_event_lem :
    (t rid : Str) (e : Event) (s : Log)
    → e.type ≡ some t
    → contains event_types t ≡ true
    → e.request_id ≡ some rid
    → is_set (some rid) ≡ true
    → read_event e s ≡ read_for t rid e s
unfolding read_event
read_event_lem t rid e s p q h k =
    let known : contains event_types (value_or [] e.type) ≡ true =
      ap (λ o. contains event_types (value_or [] o)) p ∙ q in
    let named : is_set e.request_id ≡ true = ap is_set h ∙ k in
    rw (known, named) (ap₂ (λ a b. read_for (value_or [] a) (value_or [] b) e s) p h)

module _ (t rid : Str) (e : Event) (pg : Page) (s : Log) (of : IsOf t rid e pg) where
  read_event-at : read_event e (at s rid pg) ≡ apply_event t rid e pg (at s rid pg)
  unfolding read_for
  read_event-at =
      read_event_lem t rid e (at s rid pg) of.typed of.known of.requested of.named
      ∙ ap (λ p. apply_event t rid e p (at s rid pg))
          (ap (λ p. mark_simulated e (enrol e p))
              (get_or-put s.pages rid rid pg _ ∙ rw (==_refl rid) refl)
            ∙ ap (mark_simulated e) of.enrolled
            ∙ of.marked)

  -- An event with a rank is applied to the page alone.
  pub read_ranked :
      (rank : ℕ) (pg' : Page)
      → wants_rank t ≡ true
      → e.rank ≡ some rank
      → apply_ranked t e rank pg ≡ ok pg'
      → read_event e (at s rid pg) ≡ ok (at s rid pg')
  unfolding apply_event apply_at
  read_ranked rank pg' h k applied =
      read_event-at
      ∙ rw h (
          ap (λ o. apply_at o t rid e pg (at s rid pg)) k
          ∙ rw applied (ap (λ d. ok (record s { pages = d })) (put-put s.pages rid pg pg')))

  pub read_unranked :
      wants_rank t ≡ false → read_event e (at s rid pg) ≡ ok (at s rid (apply_unranked t pg))
  unfolding apply_event
  read_unranked h =
      read_event-at
      ∙ rw h (ap (λ d. ok (record s { pages = d })) (put-put s.pages rid pg (apply_unranked t pg)))

pub >>=-assoc :
    {A B C : Type 0} (m : Result Error A) (f : A → Result Error B) (g : B → Result Error C)
    → (m >>= λ a. f a >>= g) ≡ ((m >>= f) >>= g)
>>=-assoc (err raised) f g = refl
>>=-assoc (ok a) f g = refl

-- Reading on after a part of the events.
pub read_log-append :
    (es es' : List Event) (s : Log) → read_log (es ++ es') s ≡ (read_log es s >>= read_log es')
unfolding read_log
read_log-append [] es' s = refl
read_log-append (e ∷ es) es' s =
    ap (λ f. read_event e s >>= f) (fun_ext (read_log-append es es'))
    ∙ >>=-assoc (read_event e s) (read_log es) (read_log es')
