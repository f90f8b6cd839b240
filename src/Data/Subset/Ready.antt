-- ===== src/Data/Subset/Ready.antt =====
-- The file READY of py/hybridsearch/data/subset.py: it is there exactly when the subset is whole.
use hybrid_search.Prelude.{
  ℕ, ◌≡◌, refl, Bool, true, false, List, [], ◌∷◌, ◌++◌, Result, ok, err, All, All-append,
  Result-cases, inl, inr, if◌then◌else◌, Bool-cases,
}
use hybrid_search.Prelude.Text.{Str, str_eq}
use hybrid_search.Data.Files
use hybrid_search.Data.Subset.{
  Choice, draw_from, write_filtered, judged_queries, write_split, Sizes, Inputs, read_all,
  draw_subset, write_collection, write_samples, build, main,
}
use hybrid_search.Data.Effects.{
  make_dir, Error, FilePath, ready, collection_tmp, collection, docids, qrels_file, split_queries,
  split_qrels, manifest, FileEvent, unlink, write, write_ids, rename, Prog, continue, ◌>>=◌, give,
  reading_of, ids_of, relevant_pids,
}

abbrev is_ready : FilePath → Bool
is_ready ready = true
is_ready collection_tmp = false
is_ready collection = false
is_ready docids = false
is_ready (qrels_file name) = false
is_ready (split_queries name) = false
is_ready (split_qrels name) = false
is_ready manifest = false

abbrev touches : FileEvent → Bool
touches (make_dir d) = false
touches (unlink p) = is_ready p
touches (write p lines) = is_ready p
touches (write_ids p ids) = is_ready p
touches (rename p q) = if is_ready p then true else is_ready q

-- Whether READY is there after the events, if it was (or not) before.
abbrev pub has_ready : Bool → List FileEvent → Bool
has_ready there [] = there
has_ready there (make_dir d ∷ events) = has_ready there events
has_ready there (unlink p ∷ events) = has_ready (if is_ready p then false else there) events
has_ready there (write p lines ∷ events) = has_ready (if is_ready p then true else there) events
has_ready there (write_ids p ids ∷ events) = has_ready (if is_ready p then true else there) events
has_ready there (rename p q ∷ events) =
    has_ready (if is_ready q then true else if is_ready p then false else there) events

abbrev pub is_ok {ℓ} : {A : Type ℓ} → Result Error A → Bool
is_ok (err e) = false
is_ok (ok a) = true

-- No event is about READY.
record IsQuiet {ℓ} {A : Type ℓ} (m : Prog A) : Type 0 where
  pub quiet : All (λ e. touches e ≡ false) m.0

quiet_continue {ℓ κ} :
    {A : Type ℓ} {B : Type κ} (r : Result Error A) (next : A → Prog B)
    → ((a : A) → IsQuiet (next a))
    → All (λ e. touches e ≡ false) (continue r next).0
quiet_continue (err e) next h = tt
quiet_continue (ok a) next h = (h a).quiet

IsQuiet-then {ℓ κ} :
    {A : Type ℓ} {B : Type κ} {m : Prog A} {next : A → Prog B}
    → IsQuiet m
    → ((a : A) → IsQuiet (next a))
    → IsQuiet (m >>= next)
unfolding ◌>>=◌
IsQuiet-then {m = m} {next = next} h k = record {
  quiet =
      All-append (λ e. touches e ≡ false) m.0 (continue m.1 next).0 h.quiet
        (quiet_continue m.1 next k);
}

silent {ℓ} : {A : Type ℓ} {r : Result Error A} → IsQuiet (give r)
silent = record { quiet = tt }

has_ready-Quiet :
    (there : Bool) (events more : List FileEvent)
    → All (λ e. touches e ≡ false) events
    → has_ready there (events ++ more) ≡ has_ready there more
has_ready-Quiet there [] more h = refl
has_ready-Quiet there (make_dir d ∷ events) more h = has_ready-Quiet there events more h.1
has_ready-Quiet there (unlink p ∷ events) more h =
    let h' : is_ready p ≡ false = h.0 in rw (has_ready, h') (has_ready-Quiet there events more h.1)
has_ready-Quiet there (write p lines ∷ events) more h =
    let h' : is_ready p ≡ false = h.0 in rw (has_ready, h') (has_ready-Quiet there events more h.1)
has_ready-Quiet there (write_ids p ids ∷ events) more h =
    let h' : is_ready p ≡ false = h.0 in rw (has_ready, h') (has_ready-Quiet there events more h.1)
has_ready-Quiet there (rename p q ∷ events) more h = elim (Bool-cases (is_ready p)) [
  | inl b ↦ let h' = rw b at h.0 in cc
  | inr b ↦
      let h' : is_ready q ≡ false = rw b at h.0 in
      rw (has_ready, b, h') (has_ready-Quiet there events more h.1)
]

reading_of-IsQuiet {ℓ} : {A : Type ℓ} (r : Result Files.Error A) → IsQuiet (reading_of r)
reading_of-IsQuiet (err e) = silent
reading_of-IsQuiet (ok a) = silent

ids_of-IsQuiet : (xs : List Str) → IsQuiet (ids_of xs)
unfolding ids_of
ids_of-IsQuiet [] = silent
ids_of-IsQuiet (x ∷ xs) = IsQuiet-then silent (λ n. IsQuiet-then (ids_of-IsQuiet xs) (λ ns. silent))

relevant_pids-IsQuiet :
    (files : List (Str × Files.Qrels)) (out : List ℕ) → IsQuiet (relevant_pids files out)
unfolding relevant_pids
relevant_pids-IsQuiet [] out = silent
relevant_pids-IsQuiet ((name, qrels) ∷ files) out =
    IsQuiet-then (ids_of-IsQuiet _) (λ ns. relevant_pids-IsQuiet files _)

write_filtered-IsQuiet :
    (subset : List ℕ) (files : List (Str × Files.Qrels)) → IsQuiet (write_filtered subset files)
unfolding write_filtered
write_filtered-IsQuiet subset [] = silent
write_filtered-IsQuiet subset ((name, qrels) ∷ files) = IsQuiet-then (ids_of-IsQuiet _) (λ ns.
    IsQuiet-then (record { quiet = (refl, tt) })
      (λ _. IsQuiet-then silent (λ _. write_filtered-IsQuiet subset files)))

read_all-IsQuiet : (files : List (Str × List Str)) → IsQuiet (read_all files)
unfolding read_all
read_all-IsQuiet [] = silent
read_all-IsQuiet ((name, lines) ∷ files) =
    IsQuiet-then (reading_of-IsQuiet (Files.read_qrels lines))
      (λ qrels. IsQuiet-then (read_all-IsQuiet files) (λ rest. silent))

module _ (C : Choice) where
  draw_from-IsQuiet {ℓ} :
      {A : Type ℓ} (xs : List A) (k : ℕ) (rng : C.State) → IsQuiet (draw_from C xs k rng)
  unfolding draw_from
  draw_from-IsQuiet xs k rng = silent

  module _ (z : Sizes) (x : Inputs) where
    draw_subset-IsQuiet : (wanted pids : List ℕ) → IsQuiet (draw_subset C z x wanted pids)
    unfolding draw_subset
    draw_subset-IsQuiet wanted pids = IsQuiet-then silent (λ _.
        IsQuiet-then silent (λ _.
          IsQuiet-then (draw_from-IsQuiet _ _ _) (λ drawn. IsQuiet-then silent (λ _. silent))))

    write_collection-IsQuiet : (subset pids : List ℕ) → IsQuiet (write_collection C z x subset pids)
    unfolding write_collection
    write_collection-IsQuiet subset pids =
        IsQuiet-then (record { quiet = (refl, tt) })
          (λ _. IsQuiet-then silent (λ _. record { quiet = (refl, (refl, tt)) }))

    write_split-IsQuiet :
        (name : Str) (queries : List (Str × Str)) (qrels : Files.Qrels) (qs : List Str)
        → IsQuiet (write_split name queries qrels qs)
    unfolding write_split
    write_split-IsQuiet name queries qrels qs = record { quiet = (refl, (refl, (refl, tt))) }

    judged_queries-IsQuiet :
        (queries : List (Str × Str)) (qrels : Files.Qrels) → IsQuiet (judged_queries queries qrels)
    unfolding judged_queries
    judged_queries-IsQuiet queries qrels = IsQuiet-then (ids_of-IsQuiet _) (λ ns. silent)

    write_samples-IsQuiet :
        (subset : List ℕ) (rng : C.State) (a b : Str) → IsQuiet (write_samples C z x subset rng a b)
    unfolding write_samples
    write_samples-IsQuiet subset rng a b =
        IsQuiet-then (reading_of-IsQuiet (Files.read_queries x.train_queries)) (λ queries.
          IsQuiet-then (reading_of-IsQuiet (Files.read_qrels x.train_qrels)) (λ qrels.
            IsQuiet-then (judged_queries-IsQuiet queries qrels) (λ judged.
              IsQuiet-then (draw_from-IsQuiet _ _ _) (λ pick.
                IsQuiet-then (write_split-IsQuiet a queries qrels _) (λ _.
                  IsQuiet-then (draw_from-IsQuiet _ _ _) (λ pick2.
                    IsQuiet-then (write_split-IsQuiet b queries qrels _) (λ _. silent)))))))

    build-IsQuiet : (a b : Str) (text : List Str) → IsQuiet (build C z x a b text)
    unfolding build
    build-IsQuiet a b text = IsQuiet-then (read_all-IsQuiet x.qrels) (λ qrels.
        IsQuiet-then (relevant_pids-IsQuiet qrels []) (λ wanted.
          IsQuiet-then (ids_of-IsQuiet _) (λ pids.
            IsQuiet-then (draw_subset-IsQuiet wanted pids) (λ drawn.
              IsQuiet-then (write_collection-IsQuiet drawn.0 pids) (λ _.
                IsQuiet-then (write_filtered-IsQuiet drawn.0 qrels) (λ _.
                  IsQuiet-then (write_samples-IsQuiet drawn.0 drawn.1 a b)
                    (λ samples. IsQuiet-then (record { quiet = (refl, tt) }) (λ _. silent))))))))

    -- Where the disk has room, whether READY was there before or not: after `main` it is there if
    -- `main` returns, and it is not there if an exception stops it, wherever that is. Where the disk
    -- has no room, `main` raises and leaves READY as it was.
    pub main-ready :
        (a b : Str) (text : List Str) (there : Bool)
        → has_ready there (main C z x a b text).0
          ≡ (if x.has_room then is_ok (main C z x a b text).1 else there)
    unfolding main ◌>>=◌
    main-ready a b text there =
        let m = build C z x a b text in
        elim (Bool-cases x.has_room) [
          | inr full ↦ rw full refl
          | inl room ↦ elim (Result-cases m.1) [
            | inl (e, k) ↦
                rw (room, k) (has_ready-Quiet false m.0 [] (build-IsQuiet a b text).quiet)
            | inr (made, k) ↦
                rw (room, k) (has_ready-Quiet false m.0 _ (build-IsQuiet a b text).quiet)
          ]
        ]
