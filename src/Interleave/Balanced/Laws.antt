-- ===== src/Interleave/Balanced/Laws.antt =====
-- The pages that `balanced` returns.
use hybrid_search.Prelude.{
  zero, suc, drop, ℕ, ◌+◌, ◌≤◌, ◌≡◌, ◌⊎◌, inl, inr, refl, ◌∙◌, Bool, true, false, ◌&&◌, ◌||◌, List,
  [], ◌∷◌, Eq, ltb, contains, if◌then◌else◌, length, arith, take, Distinct,
}
use hybrid_search.Interleave.TeamDraft.{is_empty}
use hybrid_search.Interleave.Balanced.{Merge, goes_on, merge_loop, start_merge, balanced}
use hybrid_search.Interleave.Balanced.Merged.{IsMerged}
use hybrid_search.Interleave.Balanced.Level.{IsLevel, loop_ends}

drop-nil_length {ℓ} : {A : Type ℓ} (n : ℕ) (l : List A) → drop n l ≡ [] → length l ≤ n
drop-nil_length zero [] h = omega arith
drop-nil_length zero (x ∷ l) h = cc
drop-nil_length (suc n) [] h = omega arith
drop-nil_length (suc n) (x ∷ l) h = let le = drop-nil_length n l h in omega arith

-- The page shows the first `ka` documents of one ranking and the first `kb` of the other and no
-- others, each once; the two depths differ by one at most unless a ranking has ended; and the page
-- has `k` documents unless both rankings have ended.
pub record IsInterleaving {ℓ} {A : Type ℓ} ⦃e : Eq A⦄ (a b : List A) (k : ℕ) (out : List A)
    : Type ℓ where
  pub ka : ℕ
  pub kb : ℕ
  pub shows : (x : A) → contains out x ≡ (contains (take ka a) x || contains (take kb b) x)
  pub distinct : Distinct out
  pub at_most : length out ≤ k
  pub level_a : (ka ≤ kb + 1) ⊎ (length b ≤ kb)
  pub level_b : (kb ≤ ka + 1) ⊎ (length a ≤ ka)
  pub full : (length out ≡ k) ⊎ (length a ≤ ka) × (length b ≤ kb)

module _ {ℓ} {A : Type ℓ} ⦃e : Eq A⦄ (a b : List A) (k : ℕ) (f : Bool) where
  IsInterleaving-of :
      (t : Merge A)
      → IsMerged a b t
      → IsLevel k f t
      → goes_on k t ≡ false
      → IsInterleaving a b k t.out
  unfolding goes_on
  IsInterleaving-of t v w done = record {
    ka = t.ka;
    kb = t.kb;
    shows = v.union;
    distinct = v.distinct;
    at_most = w.at_most;
    level_a = elim w.level_a [
      | inl le ↦ inl le
      | inr end ↦ inr (drop-nil_length t.kb b (v.rest_b ∙ end))
    ];
    level_b = elim w.level_b [
      | inl le ↦ inl le
      | inr end ↦ inr (drop-nil_length t.ka a (v.rest_a ∙ end))
    ];
    full = ended t.a t.b refl refl done;
  }
    where
      ended :
          (x y : List A)
          → t.a ≡ x
          → t.b ≡ y
          → (ltb (length t.out) k
              && (if is_empty x then (if is_empty y then false else true) else true))
            ≡ false
          → (length t.out ≡ k) ⊎ (length a ≤ t.ka) × (length b ≤ t.kb)
      ended [] [] p q h =
          inr (drop-nil_length t.ka a (v.rest_a ∙ p), drop-nil_length t.kb b (v.rest_b ∙ q))
      ended (u ∷ x) y p q h = inl (ground (arith, w.at_most))
      ended [] (u ∷ y) p q h = inl (ground (arith, w.at_most))

  -- `balanced` returns a balanced interleaving of its rankings, whichever of them goes first.
  pub balanced-IsInterleaving : IsInterleaving a b k (balanced a b k f)
  unfolding balanced
  balanced-IsInterleaving =
      let (v, w, done) =
        loop_ends k f a b (length a + length b) (start_merge a b) start_merged
          (record {
            at_most = omega arith;
            level_a = inl (omega arith);
            level_b = inl (omega arith);
          })
          (omega arith) in
      IsInterleaving-of (merge_loop (length a + length b) k f (start_merge a b)) v w done
    where
      start_merged : IsMerged a b (start_merge a b)
      start_merged = record {
        rest_a = refl;
        rest_b = refl;
        seen_out = λ x. refl;
        union = λ x. refl;
        distinct = tt;
      }
