-- ===== src/Rerank/Texts/Streams.antt =====
-- The streaming reader of rerank/text.py against `read_run` of data/io.py.
use hybrid_search.Prelude.{
  ◌≡◌, refl, false, ◌||◌, List, [], ◌∷◌, ◌++◌, Option, none, some, ok, >>=-eq-ok, ◌==◌, Bool-cases,
  inl, inr, ◌⊎◌, ◌∙◌, sym, ap, ==_eq, ==_refl, contains, arith, append_assoc, append-nil,
  contains-append, Option-cases,
}
use hybrid_search.Prelude.Text.{Str, str_eq}
use hybrid_search.Prelude.Dict.{keys, put, get_or, put_new, get_or_absent, keys-append}
use hybrid_search.Prelude.Float.{Float}
use hybrid_search.Data.Words.{split}
use hybrid_search.Data.Tables.{Table, put_entry}
use hybrid_search.Data.Files.{ScoreText, Run, read_hit, read_hits, read_run}
use hybrid_search.Rerank.Texts.{Group, keep_hit, take_hit, read_parts, groups_from, iter_run_groups}

module _ {ℓ} {V : Type ℓ} where
  put_last :
      (d : List (Str × V)) (k : Str) (w v : V)
      → contains (keys d) k ≡ false
      → put (d ++ (k, w) ∷ []) k v ≡ d ++ (k, v) ∷ []
  unfolding put
  put_last [] k w v h = rw (==_refl k) refl
  put_last ((j, u) ∷ d) k w v h = elim (Bool-cases (k == j)) [
    | inl e ↦ cc (rw e at h)
    | inr e ↦ rw e (ap (◌∷◌ (j, u)) (put_last d k w v (rw e at h)))
  ]

  get_or_last :
      (d : List (Str × V)) (k : Str) (w z : V)
      → contains (keys d) k ≡ false
      → get_or (d ++ (k, w) ∷ []) k z ≡ w
  unfolding get_or
  get_or_last [] k w z h = rw (==_refl k) refl
  get_or_last ((j, u) ∷ d) k w z h = ground (arith, get_or_last d k w z)

module _ {ℓ} {V : Type ℓ} where
  put_entry_last :
      (t : Table V) (q : Str) (hits : List (Str × V)) (d : Str) (v : V)
      → contains (keys t) q ≡ false
      → put_entry (t ++ (q, hits) ∷ []) q d v ≡ t ++ (q, put hits d v) ∷ []
  unfolding put_entry
  put_entry_last t q hits d v h =
      rw (get_or_last t q hits [] h) (put_last t q hits (put hits d v) h)

  put_entry_new :
      (t : Table V) (q d : Str) (v : V)
      → contains (keys t) q ≡ false
      → put_entry t q d v ≡ t ++ (q, put [] d v) ∷ []
  unfolding put_entry
  put_entry_new t q d v h = rw (get_or_absent t q [] h) (put_new t q (put [] d v) h)

module _ (F : Float) (T : ScoreText F) where
  open F use {Num}
  open T use {parse}

  -- A line that `read_run` reads holds a score, or nothing.
  read_hit-eq-ok :
      (line : Str) (parts : List Str) (run more : Run F T)
      → read_hit F T line parts run ≡ ok more
      → ((read_parts F T parts ≡ ok none) × (more ≡ run))
        ⊎ ((q : Str) × (d : Str) × (s : Num) × (read_parts F T parts ≡ ok (some (q, d, s)))
            × (more ≡ put_entry run q d s))
  unfolding read_hit
  read_hit-eq-ok line [] run more h = inl (refl, cc)
  read_hit-eq-ok line (q ∷ q0 ∷ d ∷ r ∷ s ∷ tag ∷ rest) run more h = elim (Option-cases (parse s)) [
    | inl e ↦ let h' = rw e at h in cc
    | inr (x, e) ↦ let h' = rw e at h in inr (q, d, x, rw (read_parts, e) refl, cc)
  ]
  read_hit-eq-ok line (a ∷ []) run more h = cc
  read_hit-eq-ok line (a ∷ b ∷ []) run more h = cc
  read_hit-eq-ok line (a ∷ b ∷ c ∷ []) run more h = cc
  read_hit-eq-ok line (a ∷ b ∷ c ∷ d ∷ []) run more h = cc
  read_hit-eq-ok line (a ∷ b ∷ c ∷ d ∷ e ∷ []) run more h = cc

  abbrev opened : Option (Group F T) → List (Group F T)
  opened none = []
  opened (some group) = group ∷ []

  -- The groups of `seen`: those that are complete, and the one that is being read.
  abbrev Reads : List Str → List (Group F T) → Option (Group F T) → Type 0
  Reads seen done none = (q : Str) → contains seen q ≡ contains (keys done) q
  Reads seen done (some group) =
      (contains (keys done) group.0 ≡ false)
      × ((q : Str) → contains seen q ≡ (q == group.0 || contains (keys done) q))

  abbrev Streams : List Str → List Str → List (Group F T) → Option (Group F T) → Type 0
  Streams lines seen done cur =
      (run : Run F T)
      → Reads seen done cur
      → read_hits F T lines (done ++ opened cur) ≡ ok run
      → (groups_from F T none lines seen cur).1 ≡ none
      → done ++ (groups_from F T none lines seen cur).0 ≡ run

  -- A line of the group that is being read.
  Reads-same :
      (seen : List Str) (done : List (Group F T)) (q p : Str) (hits more : List (Str × Num))
      → Reads seen done (some (q, hits))
      → Reads seen done (some (q, more))
  Reads-same seen done q p hits more r = r

  Reads-next :
      (seen : List Str) (done : List (Group F T)) (cur : Option (Group F T)) (p : Str)
      (hits : List (Str × Num))
      → Reads seen done cur
      → contains seen p ≡ false
      → Reads (p ∷ seen) (done ++ opened cur) (some (p, hits))
  Reads-next seen done none p hits r n =
      rw (append-nil done) (sym (r p) ∙ n, λ q. ap (λ b. q == p || b) (r q))
  Reads-next seen done (some (c, h)) p hits r n = rw (keys-append done ((c, h) ∷ [])) (
    contains-append (keys done) (c ∷ []) p ∙ ground (arith, r.1 p, n),
    λ q. ground (arith, r.1 q, contains-append (keys done) (c ∷ []) q),
  )

  Streams-new :
      (lines seen : List Str) (done : List (Group F T)) (cur : Option (Group F T)) (q d : Str)
      (s : Num) (run : Run F T)
      → ((seen : List Str) (done : List (Group F T)) (cur : Option (Group F T))
          → Streams lines seen done cur)
      → Reads seen done cur
      → contains (keys (done ++ opened cur)) q ≡ contains seen q
      → contains seen q ≡ false
      → read_hits F T lines (put_entry (done ++ opened cur) q d s) ≡ ok run
      → (groups_from F T none lines (q ∷ seen) (some (q, put [] d s))).1 ≡ none
      → (done ++ opened cur) ++ (groups_from F T none lines (q ∷ seen) (some (q, put [] d s))).0
        ≡ run
  Streams-new lines seen done cur q d s run ih r same n h y =
      ih (q ∷ seen) (done ++ opened cur) (some (q, put [] d s)) run
        (Reads-next seen done cur q (put [] d s) r n)
        (rw (put_entry_new (done ++ opened cur) q d s (same ∙ n)) at h) y

  Streams-take_hit :
      (lines seen : List Str) (done : List (Group F T)) (cur : Option (Group F T)) (q d : Str)
      (s : Num) (run : Run F T)
      → ((seen : List Str) (done : List (Group F T)) (cur : Option (Group F T))
          → Streams lines seen done cur)
      → Reads seen done cur
      → read_hits F T lines (put_entry (done ++ opened cur) q d s) ≡ ok run
      → (take_hit F T (groups_from F T none lines) none seen cur q d s).1 ≡ none
      → done ++ (take_hit F T (groups_from F T none lines) none seen cur q d s).0 ≡ run
  unfolding take_hit keep_hit
  Streams-take_hit lines seen done none q d s run ih r h y = elim (Bool-cases (contains seen q)) [
    | inl c ↦ let y' = rw c at y in cc
    | inr c ↦
        let tail = groups_from F T none lines (q ∷ seen) (some (q, put [] d s)) in
        rw c (
          ap (λ t. t ++ tail.0) (sym (append-nil done))
          ∙ Streams-new lines seen done none q d s run ih r (rw (append-nil done) (sym (r q))) c h
              (rw c at y))
  ]
  Streams-take_hit lines seen done (some (c, hits)) q d s run ih r h y =
      elim (Bool-cases (q == c)) [
        | inl e ↦
            let k = ==_eq q c e in
            rw (take_hit, k, ==_refl c)
              (ih seen done (some (c, put hits d s)) run r
                (rw (k, put_entry_last done c hits d s r.0) at h)
                (rw (take_hit, k, ==_refl c) at y))
        | inr e ↦ elim (Bool-cases (contains seen q)) [
          | inl c' ↦ let y' = rw (take_hit, e, c') at y in cc
          | inr c' ↦
              let tail = groups_from F T none lines (q ∷ seen) (some (q, put [] d s)) in
              rw (take_hit, e, c')
                (sym (append_assoc done ((c, hits) ∷ []) tail.0)
                  ∙ Streams-new lines seen done (some (c, hits)) q d s run ih r
                      (ground (
                        arith,
                        r.1 q,
                        keys-append done ((c, hits) ∷ []),
                        contains-append (keys done) (c ∷ []) q,
                      ))
                      c' h (rw (take_hit, e, c') at y))
        ]
      ]

  streams :
      (lines seen : List Str) (done : List (Group F T)) (cur : Option (Group F T))
      → Streams lines seen done cur
  unfolding groups_from read_hits
  streams [] seen done none run r h y = cc
  streams [] seen done (some group) run r h y = cc
  streams (line ∷ lines) seen done cur run r h y =
      let (more, first, rest) =
        >>=-eq-ok (read_hit F T line (split line) (done ++ opened cur)) (λ t. read_hits F T lines t)
          h in
      elim (read_hit-eq-ok line (split line) (done ++ opened cur) more first) [
        | inl (e, same) ↦
            rw (groups_from, e)
              (streams lines seen done cur run r (rw same at rest) (rw (groups_from, e) at y))
        | inr (q, d, s, e, same) ↦
            rw (groups_from, e)
              (Streams-take_hit lines seen done cur q d s run (streams lines) r (rw same at rest)
                (rw (groups_from, e) at y))
      ]

  -- A file that `read_run` reads, and that `iter_run_groups` reads without raising: the groups are
  -- the items of the dict, in its order.
  pub iter_run_groups-read_run :
      (lines : List Str) (run : Run F T)
      → read_run F T lines ≡ ok run
      → (iter_run_groups F T none lines).1 ≡ none
      → (iter_run_groups F T none lines).0 ≡ run
  unfolding iter_run_groups read_run
  iter_run_groups-read_run lines run h y = streams lines [] [] none run (λ q. refl) h y
