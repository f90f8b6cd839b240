-- ===== src/Rerank/Sampler/Draw.antt =====
-- `_ok` and `_draw` of py/hybridsearch/rerank/sampler.py.
use hybrid_search.Prelude.{
  ℕ, zero, suc, ◌≤◌, ◌<◌, ◌≡◌, refl, Bool, true, false, ◌&&◌, ◌||◌, not, List, [], ◌∷◌, ◌++◌,
  Option, none, some, ok, arith, ◌==◌, ==_eq, ==_refl, Bool-cases, ◌⊎◌, inl, inr, contains,
  Distinct, Distinct-snoc, contains-append, contains_left, All, length, length-append, nat_beq,
  nat_eq, append_assoc, append-nil, sym, ap, subst,
}
use hybrid_search.Prelude.Text.{Str, str_eq}
use hybrid_search.Prelude.Dict.{get?, get_or}
use hybrid_search.Prelude.Int.{pos}
use hybrid_search.Prelude.Sets.{All_at}
use hybrid_search.Rerank.Sampler.{
  TextOps, norm_text, MinedQuery, GroupSampler, text_ok, is_excluded, is_ok, item, draw_loop, draw,
  Generator,
}

-- What numpy documents of its generator.
pub record IsGenerator (G : Generator) : Type 0 where
  pub permutation_below : (n : ℕ) (rng : G.State) → All (λ j. j < n) (G.permutation n rng).0
  pub permutation_all :
      (n : ℕ) (rng : G.State) (j : ℕ) → j < n → contains (G.permutation n rng).0 j ≡ true
  pub permutation_length : (n : ℕ) (rng : G.State) → length (G.permutation n rng).0 ≡ n
  pub permutation_distinct : (n : ℕ) (rng : G.State) → Distinct (G.permutation n rng).0
  pub integers_below : (n : ℕ) (rng : G.State) → 0 < n → (G.integers n rng).0 < n

abbrev pub has_new_text : TextOps → List Str → Option Str → Bool
has_new_text ops texts none = false
has_new_text ops texts (some t) = not (contains texts (norm_text ops t))

module _ (ops : TextOps) (g : GroupSampler) (m : MinedQuery) (texts : List Str) where
  -- No positive and no judged passage of the query, with a text that is known and is none of
  -- `texts`.
  abbrev pub eligible : Str → Bool
  eligible p =
      not (contains m.positives p || contains (get_or g.judged m.qid []) p)
      && has_new_text ops texts (get? g.passages p)

  text_ok_lem : (o : Option Str) → text_ok ops (some texts) o ≡ ok (has_new_text ops texts o)
  text_ok_lem none = refl
  text_ok_lem (some t) = refl

  -- Every eligible passage at one of the places is among `taken`.
  abbrev pub AllTaken : List Str → List Str → List ℕ → Type 0
  AllTaken pool taken =
      All (λ j. (p : Str) → item pool j ≡ ok p → eligible p ≡ true → contains taken p ≡ true)

  module _ (known : get? g.pos_text m.qid ≡ some texts) where
    is_ok_lem :
        (p : Str) (taken : List Str)
        → is_ok ops g m p taken ≡ ok (not (contains taken p) && eligible p)
    unfolding is_ok is_excluded
    is_ok_lem p taken = rw (known, text_ok_lem (get? g.passages p)) (ground arith)

    -- Everything that the loop's result satisfies, for the places `order` still to be tried.
    pub record IsDrawn (pool : List Str) (n : ℕ) (order : List ℕ) (out taken negs : List Str)
        : Type 0 where
      pub result : draw_loop ops g m pool (pos n) order out taken ≡ ok (out ++ negs, taken ++ negs)
      pub distinct : Distinct (taken ++ negs)
      pub all_eligible : All (λ p. eligible p ≡ true) negs
      pub bounded : length (out ++ negs) ≤ n
      pub full : (length (out ++ negs) ≡ n) ⊎ AllTaken pool (taken ++ negs) order

    item_below : (pool : List Str) (j : ℕ) → j < length pool → (p : Str) × (item pool j ≡ ok p)
    item_below [] j h = absurd (omega arith)
    item_below (p ∷ pool) zero h = (p, refl)
    item_below (p ∷ pool) (suc j) h = item_below pool j (omega arith)

    module _ (pool : List Str) (n : ℕ) where
      stop_lem :
          (order : List ℕ) (out taken : List Str)
          → Distinct taken
          → length out ≡ n
          → IsDrawn pool n order out taken []
      unfolding draw_loop
      stop_lem [] out taken u h = record {
        result = rw (append-nil out, append-nil taken) refl;
        distinct = rw (append-nil taken) u;
        all_eligible = tt;
        bounded = rw (append-nil out) (omega arith);
        full = inl (rw (append-nil out) h);
      }
      stop_lem (j ∷ order) out taken u h =
          let here : nat_beq (length out) n ≡ true = ground arith in
          record {
            result = rw (append-nil out, append-nil taken, here) refl;
            distinct = rw (append-nil taken) u;
            all_eligible = tt;
            bounded = rw (append-nil out) (omega arith);
            full = inl (rw (append-nil out) h);
          }

      was_taken :
          (j : ℕ) (negs taken : List Str) (p q : Str)
          → item pool j ≡ ok p
          → item pool j ≡ ok q
          → (not (contains taken p) && eligible p) ≡ false
          → eligible q ≡ true
          → contains (taken ++ negs) q ≡ true
      was_taken j negs taken p q at_p at_q skipped e =
          let same : q ≡ p = cc in
          rw same (contains_left taken negs p (ground (arith, ap eligible same)))

      now_taken :
          (j : ℕ) (negs taken : List Str) (p q : Str)
          → item pool j ≡ ok p
          → item pool j ≡ ok q
          → contains (taken ++ p ∷ negs) q ≡ true
      now_taken j negs taken p q at_p at_q =
          let same : q ≡ p = cc in
          rw same (ground (arith, contains-append taken (p ∷ negs) p, ==_refl p))

      -- The place `j` is skipped, or its item is drawn.
      skip_lem :
          (j : ℕ) (order : List ℕ) (out taken negs : List Str) (p : Str)
          → item pool j ≡ ok p
          → nat_beq (length out) n ≡ false
          → (not (contains taken p) && eligible p) ≡ false
          → IsDrawn pool n order out taken negs
          → IsDrawn pool n (j ∷ order) out taken negs
      unfolding draw_loop
      skip_lem j order out taken negs p at_j more skipped d = record {
        result = rw (more, at_j, is_ok_lem p taken, skipped) d.result;
        distinct = d.distinct;
        all_eligible = d.all_eligible;
        bounded = d.bounded;
        full = elim (d.full) [
          | inl e ↦ inl e
          | inr a ↦ inr ((λ q at_q e. was_taken j negs taken p q at_j at_q skipped e), a)
        ];
      }

      take_lem :
          (j : ℕ) (order : List ℕ) (out taken negs : List Str) (p : Str)
          → item pool j ≡ ok p
          → nat_beq (length out) n ≡ false
          → (not (contains taken p) && eligible p) ≡ true
          → IsDrawn pool n order (out ++ p ∷ []) (taken ++ p ∷ []) negs
          → IsDrawn pool n (j ∷ order) out taken (p ∷ negs)
      unfolding draw_loop
      take_lem j order out taken negs p at_j more taken_now d =
          let o = append_assoc out (p ∷ []) negs in
          let t = append_assoc taken (p ∷ []) negs in
          record {
            result = rw (more, at_j, is_ok_lem p taken, taken_now, ← o, ← t) d.result;
            distinct = subst Distinct t d.distinct;
            all_eligible = (ground arith, d.all_eligible);
            bounded = subst (λ l. length l ≤ n) o d.bounded;
            full = elim (d.full) [
              | inl e ↦ inl (subst (λ l. length l ≡ n) o e)
              | inr a ↦ inr (
                (λ q at_q e. now_taken j negs taken p q at_j at_q),
                subst (λ l. AllTaken pool l order) t a,
              )
            ];
          }

      pub draw_loop_lem :
          (order : List ℕ) (out taken : List Str)
          → All (λ j. j < length pool) order
          → Distinct taken
          → length out ≤ n
          → (negs : List Str) × IsDrawn pool n order out taken negs
      unfolding draw_loop
      draw_loop_lem [] out taken h u b = (
        [],
        record {
          result = rw (append-nil out, append-nil taken) refl;
          distinct = rw (append-nil taken) u;
          all_eligible = tt;
          bounded = rw (append-nil out) b;
          full = inr tt;
        },
      )
      draw_loop_lem (j ∷ order) out taken h u b = elim (Bool-cases (nat_beq (length out) n)) [
        | inl e ↦ ([], stop_lem (j ∷ order) out taken u (ground arith))
        | inr e ↦
            let (p, at_j) = item_below pool j h.0 in
            elim (Bool-cases (not (contains taken p) && eligible p)) [
              | inl k ↦
                  let (negs, d) =
                    draw_loop_lem order (out ++ p ∷ []) (taken ++ p ∷ []) h.1
                      (Distinct-snoc taken p u (ground arith))
                      (ground (arith, length-append out (p ∷ []))) in
                  (p ∷ negs, take_lem j order out taken negs p at_j e k d)
              | inr k ↦
                  let (negs, d) = draw_loop_lem order out taken h.1 u b in
                  (negs, skip_lem j order out taken negs p at_j e k d)
            ]
      ]

  module _ (G : Generator) (law : IsGenerator G) (known : get? g.pos_text m.qid ≡ some texts) where
    -- What `_draw` returns: new eligible passages, without repetition and at most `n`. If they are
    -- fewer, then every eligible passage of the pool has been taken.
    pub record IsDraw (pool : List Str) (n : ℕ) (taken : List Str) (rng : G.State) : Type 0 where
      pub negs : List Str
      pub rng' : G.State
      pub result : draw G ops g m pool (pos n) taken rng ≡ ok (negs, taken ++ negs, rng')
      pub distinct : Distinct (taken ++ negs)
      pub all_eligible : All (λ p. eligible p ≡ true) negs
      pub bounded : length negs ≤ n
      pub full :
          (length negs ≡ n)
          ⊎ ((p : Str)
              → contains pool p ≡ true
              → eligible p ≡ true
              → contains (taken ++ negs) p ≡ true)

    place_of :
        (pool : List Str) (p : Str)
        → contains pool p ≡ true
        → (j : ℕ) × (j < length pool) × (item pool j ≡ ok p)
    place_of [] p h = absurd (cc)
    place_of (q ∷ pool) p h = elim (Bool-cases (p == q)) [
      | inl e ↦ (0, omega arith, ap ok (sym (==_eq p q e)))
      | inr e ↦ let (j, l, at_j) = place_of pool p (ground arith) in (suc j, omega arith, at_j)
    ]

    pub draw_lem :
        (pool : List Str) (n : ℕ) (taken : List Str) (rng : G.State)
        → Distinct taken
        → IsDraw pool n taken rng
    unfolding draw
    draw_lem pool n taken rng u =
        let order = G.permutation (length pool) rng in
        let (negs, d) =
          draw_loop_lem known pool n order.0 [] taken (law.permutation_below (length pool) rng) u
            (omega arith) in
        record {
          negs = negs;
          rng' = order.1;
          result = rw (d.result) refl;
          distinct = d.distinct;
          all_eligible = d.all_eligible;
          bounded = d.bounded;
          full = elim (d.full) [
            | inl e ↦ inl e
            | inr a ↦ inr (λ p h e.
                let (j, l, at_j) = place_of pool p h in
                All_at
                  (λ j.
                    (p : Str)
                    → item pool j ≡ ok p
                    → eligible p ≡ true
                    → contains (taken ++ negs) p ≡ true)
                  order.0 j a (law.permutation_all (length pool) rng j l) p at_j e)
          ];
        }
