-- ===== src/Rerank/Train/Saves.antt =====
-- The checkpoints of py/hybridsearch/rerank/train.py: what lies on the disk when a save is cut off.
use hybrid_search.Prelude.{ℕ, zero, suc, ◌≡◌, refl, ◌⊎◌, inl, inr, take, nat_eq}
use hybrid_search.Prelude.Float.{Float}
use hybrid_search.Rerank.Train.{Torch, Checkpoint, Disk, complete, save_effects, run_effects}

module _ (F : Float) (T : Torch F) where
  -- Wherever `save_last` is cut off between two of its effects, a complete checkpoint is on the
  -- disk: the old one in last, or the new one in last or in last.tmp.
  pub save_effects_cut :
      (old new : Checkpoint F T) (d : Disk F T) (n : ℕ)
      → d.last ≡ complete old
      → ((run_effects F T (take n (save_effects F T new)) d).last ≡ complete old)
        ⊎ ((run_effects F T (take n (save_effects F T new)) d).last ≡ complete new)
        ⊎ ((run_effects F T (take n (save_effects F T new)) d).last_tmp ≡ complete new)
  save_effects_cut old new d zero h = inl h
  save_effects_cut old new d (suc zero) h = inl h
  save_effects_cut old new d (suc (suc zero)) h = inl h
  save_effects_cut old new d (suc (suc (suc zero))) h = inl h
  save_effects_cut old new d (suc (suc (suc (suc zero)))) h = inr (inr refl)
  save_effects_cut old new d (suc (suc (suc (suc (suc zero))))) h = inr (inl refl)
  save_effects_cut old new d (suc (suc (suc (suc (suc (suc n)))))) h = inr (inl refl)
