-- ===== src/Fusion/Core/Order.antt =====
-- The order of fused rankings in py/hybridsearch/fusion/core.py.
use hybrid_search.Prelude.{◌≡◌, refl, true, false, arith}
use hybrid_search.Prelude.Text.{Str, str_leb_total, str_leb_trans, str_leb_antisymm}
use hybrid_search.Prelude.Order.{IsTotalPreorder}
use hybrid_search.Prelude.Float.{Float}
use hybrid_search.Fusion.Core.{DocidKey, decimal, text, key_leb, docid_key, fused_before}

pub key_leb_total : (a b : DocidKey) → key_leb a b ≡ false → key_leb b a ≡ true
key_leb_total (decimal m) (decimal n) h = ground arith
key_leb_total (decimal m) (text t) h = cc
key_leb_total (text s) (decimal n) h = refl
key_leb_total (text s) (text t) h = str_leb_total s t h

pub key_leb_trans :
    (a b c : DocidKey) → key_leb a b ≡ true → key_leb b c ≡ true → key_leb a c ≡ true
key_leb_trans (decimal m) (decimal n) (decimal o) h k = ground arith
key_leb_trans (decimal m) b (text t) h k = refl
key_leb_trans (decimal m) (text t) (decimal o) h k = cc
key_leb_trans (text s) (decimal n) c h k = cc
key_leb_trans (text s) (text t) (decimal o) h k = cc
key_leb_trans (text s) (text t) (text u) h k = str_leb_trans s t u h k

pub key_leb_antisymm : (a b : DocidKey) → key_leb a b ≡ true → key_leb b a ≡ true → a ≡ b
key_leb_antisymm (decimal m) (decimal n) h k = ground arith
key_leb_antisymm (decimal m) (text t) h k = cc
key_leb_antisymm (text s) (decimal n) h k = cc
key_leb_antisymm (text s) (text t) h k = ground (arith, str_leb_antisymm s t)

module _ (F : Float) where
  open F use {Num, less, less_asymm, less_cotrans}

  fused_before_total : (p q : Str × Num) → fused_before F p q ≡ false → fused_before F q p ≡ true
  unfolding fused_before
  fused_before_total (d, x) (e, y) h =
      ground (arith, less_asymm x y, less_asymm y x, key_leb_total (docid_key d) (docid_key e))

  fused_before_trans :
      (p q r : Str × Num)
      → fused_before F p q ≡ true
      → fused_before F q r ≡ true
      → fused_before F p r ≡ true
  unfolding fused_before
  fused_before_trans (d, x) (e, y) (f, z) h k = ground (
    arith,
    less_asymm x y,
    less_asymm y z,
    less_asymm x z,
    less_asymm y x,
    less_asymm z y,
    less_asymm z x,
    less_cotrans x y z,
    less_cotrans z y x,
    less_cotrans y z x,
    less_cotrans x z y,
    less_cotrans z x y,
    less_cotrans y x z,
    key_leb_trans (docid_key d) (docid_key e) (docid_key f),
  )

  pub fused_before-IsTotalPreorder : IsTotalPreorder (fused_before F)
  fused_before-IsTotalPreorder = record { total = fused_before_total; trans = fused_before_trans }

  -- Two documents that go both before and after each other have the same key.
  pub fused_before_tie :
      (d e : Str) (x y : Num)
      → fused_before F (d, x) (e, y) ≡ true
      → fused_before F (e, y) (d, x) ≡ true
      → docid_key d ≡ docid_key e
  unfolding fused_before
  fused_before_tie d e x y h k =
      ground (arith, less_asymm x y, less_asymm y x, key_leb_antisymm (docid_key d) (docid_key e))
