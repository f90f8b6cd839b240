-- ===== src/Data/Prepare/Verified.antt =====
-- What py/hybridsearch/data/prepare.py promises of the downloads that it lays out.
use hybrid_search.Prelude.{
  ◌≡◌, refl, ◌∙◌, ap, false, List, [], ◌∷◌, none, some, ok, err, Result-cases, Bool-cases, inl, inr,
  ◌⊎◌, ◌==◌, ==_eq, ==_refl, if◌then◌else◌, All, ℕ, not, select, arith,
}
use hybrid_search.Prelude.Text.{Str, str_eq, codes}
use hybrid_search.Prelude.Dict.{get?}
use hybrid_search.Data.Prepare.{
  make_dir, Manifest, tarball, Found, mismatch, digest_of, verify, Stop, main,
}

-- Every download has its published digest.
abbrev pub AreVerified : Found → Manifest → Type 0
AreVerified x manifest = All (λ row. digest_of x row.0 ≡ ok row.1) manifest

verify-cases :
    (x : Found) (rows : Manifest)
    → ((stop : Stop) × (verify x rows ≡ ([], err stop)))
      ⊎ ((verify x rows ≡ ([], ok rows)) × AreVerified x rows)
unfolding verify
verify-cases x [] = inr (refl, tt)
verify-cases x ((name, md5) ∷ rows) = elim (Result-cases (digest_of x name)) [
  | inl (stop, h) ↦ inl (stop, rw (h, verify) refl)
  | inr (got, h) ↦ elim (Bool-cases (got == md5)) [
    | inr e ↦ inl (mismatch name, rw (h, verify, e) refl)
    | inl e ↦
        let same : got ≡ md5 = ==_eq got md5 e in
        elim (verify-cases x rows) [
          | inl (stop, k) ↦ inl (stop, rw (h, verify, e, k) refl)
          | inr (k, all) ↦ inr (rw (h, verify, e, k, same) refl, (h ∙ ap ok same, all))
        ]
  ]
]

-- `main` changes no file unless every download has its published digest: either its effects are the
-- making of the two directories and no other, or all downloads are verified.
pub main-AreVerified :
    (x : Found) (manifest : Manifest) (expected tracks : List (Str × ℕ))
    → ((main x manifest expected tracks).0
        ≡ make_dir (codes "msmarco") ∷ make_dir (codes "trec-dl") ∷ [])
      ⊎ AreVerified x manifest
unfolding main
main-AreVerified x manifest expected tracks = elim (verify-cases x manifest) [
  | inl (stop, h) ↦ inl (rw h refl)
  | inr (h, all) ↦ inr all
]

-- The downloads when the tarball is gone, and its marker is there.
abbrev pub without_tarball : Found → Str → Found
without_tarball x md5 = record x {
  digests = select (λ d. not (d.0 == tarball)) x.digests;
  marker = some md5;
}

get?-select_gone :
    (d : List (Str × Str)) → get? (select (λ p. not (p.0 == tarball)) d) tarball ≡ none
unfolding get?
get?-select_gone [] = refl
get?-select_gone ((name, md5) ∷ d) = elim (Bool-cases (name == tarball)) [
  | inl e ↦ rw e (get?-select_gone d)
  | inr e ↦
      ground (arith, get?-select_gone d, str_eq.same_iff name tarball, str_eq.same_iff tarball name)
]

get?-select_other :
    (d : List (Str × Str)) (k : Str)
    → (k == tarball) ≡ false
    → get? (select (λ p. not (p.0 == tarball)) d) k ≡ get? d k
unfolding get?
get?-select_other [] k h = refl
get?-select_other ((name, md5) ∷ d) k h = elim (Bool-cases (name == tarball)) [
  | inl e ↦
      let same : name ≡ tarball = ==_eq name tarball e in rw (same, h) (get?-select_other d k h)
  | inr e ↦ rw (e, get?) (ap (λ r. if k == name then some md5 else r) (get?-select_other d k h))
]

digest_of_other :
    (x : Found) (md5 name : Str)
    → (name == tarball) ≡ false
    → digest_of (without_tarball x md5) name ≡ digest_of x name
unfolding digest_of
digest_of_other x md5 name h = rw (h, get?-select_other x.digests name h) refl

AreVerified-without :
    (x : Found) (md5 : Str) (rows : Manifest)
    → All (λ row. (row.0 == tarball) ≡ false) rows
    → AreVerified x rows
    → AreVerified (without_tarball x md5) rows
AreVerified-without x md5 [] apart all = tt
AreVerified-without x md5 ((name, d) ∷ rows) apart all =
    (digest_of_other x md5 name apart.0 ∙ all.0, AreVerified-without x md5 rows apart.1 all.1)

-- The tarball is the first download, and no other has its name. A run whose downloads are verified
-- leaves downloads that are verified again: without the tarball, and with the marker that it wrote.
pub without_tarball-AreVerified :
    (x : Found) (md5 : Str) (rows : Manifest)
    → All (λ row. (row.0 == tarball) ≡ false) rows
    → AreVerified x ((tarball, md5) ∷ rows)
    → AreVerified (without_tarball x md5) ((tarball, md5) ∷ rows)
unfolding digest_of
without_tarball-AreVerified x md5 rows apart all = (
  rw (==_refl tarball, get?-select_gone x.digests) refl,
  AreVerified-without x md5 rows apart all.1,
)
