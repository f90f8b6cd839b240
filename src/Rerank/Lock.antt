-- ===== src/Rerank/Lock.antt =====
-- `MPSLock` of py/hybridsearch/rerank/train.py: a directory that processes make and remove. Any
-- number of processes take their steps in any order; making and removing it are single steps.
use hybrid_search.Prelude.{
  ℕ, ◌≡◌, refl, sym, ◌∙◌, ap, Bool, true, false, Option, none, some, ◌==◌, ==_eq, ==_refl,
  if◌then◌else◌, Bool-cases, inl, inr, nat_eq,
}
use hybrid_search.Prelude.Text.{Str}

-- Where a process is: before `__enter__`, asleep in its loop, between `mkdir` and the writing of
-- the owner's file, in the body of the `with`, after `__exit__`, or gone, by its `SystemExit` or by
-- being killed.
pub data Phase : Type 0 where
  outside waiting made inside left gone : Phase

-- The directory, with its file, and the phases of the processes.
pub record World : Type 0 where
  pub lock : Bool
  pub owner : Option Str
  pub phase : ℕ → Phase

unfoldable pub move : ℕ → Phase → (ℕ → Phase) → ℕ → Phase
move i p phase j = if j == i then p else phase j

-- `LOCK.mkdir()` and the `except` branch.
unfoldable pub try_mkdir : Bool → ℕ → World → World
unfolding move
try_mkdir wait i w =
    if w.lock
    then record w { phase = move i (if wait then waiting else gone) w.phase }
    else record w { lock = true; phase = move i made w.phase }

-- `(LOCK / "owner").write_text(...)`
unfoldable pub write_owner : Str → ℕ → World → World
unfolding move
write_owner name i w = record w { owner = some name; phase = move i inside w.phase }

-- `__exit__`: `shutil.rmtree(LOCK, ignore_errors=True)`
unfoldable pub leave : ℕ → World → World
unfolding move
leave i w = record { lock = false; owner = none; phase = move i left w.phase }

-- The steps of processes for which the lock is active. A process that is killed leaves what it has.
pub data Step : World → World → Type 0 where
  tries : (w : World) (i : ℕ) (wait : Bool) → w.phase i ≡ outside → Step w (try_mkdir wait i w)
  retries : (w : World) (i : ℕ) → w.phase i ≡ waiting → Step w (try_mkdir true i w)
  writes : (w : World) (i : ℕ) (name : Str) → w.phase i ≡ made → Step w (write_owner name i w)
  leaves : (w : World) (i : ℕ) → w.phase i ≡ inside → Step w (leave i w)
  killed : (w : World) (i : ℕ) → Step w (record w { phase = move i gone w.phase })

pub data Reachable : World → Type 0 where
  starts : (w : World) → ((i : ℕ) → w.phase i ≡ outside) → Reachable w
  steps : (w v : World) → Reachable w → Step w v → Reachable v

-- Between `mkdir` and `rmtree`.
abbrev pub has_lock : Phase → Bool
has_lock outside = false
has_lock waiting = false
has_lock made = true
has_lock inside = true
has_lock left = false
has_lock gone = false

-- Who has the lock has it alone, and the directory is there.
abbrev pub IsExclusive : World → Type 0
IsExclusive w =
    ((i : ℕ) → has_lock (w.phase i) ≡ true → w.lock ≡ true)
    × ((i j : ℕ) → has_lock (w.phase i) ≡ true → has_lock (w.phase j) ≡ true → i ≡ j)

-- A step of `i` after which it has no lock, or had it before, while the directory stays.
keeps :
    (w : World) (i : ℕ) (p : Phase)
    → IsExclusive w
    → (has_lock p ≡ true → has_lock (w.phase i) ≡ true)
    → IsExclusive (record w { phase = move i p w.phase })
unfolding move
keeps w i p (safe, alone) old =
    let had : (j : ℕ)
        → has_lock (if j == i then p else w.phase j) ≡ true
        → has_lock (w.phase j) ≡ true =
      λ j h. elim (Bool-cases (j == i)) [
        | inl e ↦ rw (==_eq j i e) (old (rw e at h))
        | inr e ↦ rw e at h
      ] in
    (λ j h. safe j (had j h), λ j k h h'. alone j k (had j h) (had k h'))

no_lock : (wait : Bool) → has_lock (if wait then waiting else gone) ≡ true → ⊥
no_lock true h = cc
no_lock false h = cc

try_mkdir-IsExclusive :
    (wait : Bool) (i : ℕ) (w : World)
    → has_lock (w.phase i) ≡ false
    → IsExclusive w
    → IsExclusive (try_mkdir wait i w)
unfolding try_mkdir move
try_mkdir-IsExclusive wait i w out (safe, alone) = elim (Bool-cases w.lock) [
  | inl taken ↦
      rw (try_mkdir, taken)
        (keeps (record w { lock = true }) i (if wait then waiting else gone) (λ j h. refl, alone)
          (λ h. absurd (no_lock wait h)))
  | inr free ↦
      let only : (j : ℕ) → has_lock (if j == i then made else w.phase j) ≡ true → j ≡ i = λ j h.
        elim (Bool-cases (j == i)) [
          | inl e ↦ ==_eq j i e
          | inr e ↦ let t = safe j (rw e at h) in cc
        ] in
      rw (try_mkdir, free) (λ j h. refl, λ j k h h'. only j h ∙ sym (only k h'))
]

leave-IsExclusive :
    (i : ℕ) (w : World) → w.phase i ≡ inside → IsExclusive w → IsExclusive (leave i w)
unfolding leave move
leave-IsExclusive i w inner (safe, alone) =
    let none_left : (j : ℕ) → has_lock (if j == i then left else w.phase j) ≡ true → ⊥ = λ j h.
      elim (Bool-cases (j == i)) [
        | inl e ↦ let h' = rw e at h in cc
        | inr e ↦
            let same = alone j i (rw e at h) (ap has_lock inner) in
            let e' = rw (same, ==_refl i) at e in cc
      ] in
    (λ j h. absurd (none_left j h), λ j k h h'. absurd (none_left j h))

Step-IsExclusive : {w v : World} → Step w v → IsExclusive w → IsExclusive v
unfolding write_owner
Step-IsExclusive (tries w i wait h) ex = try_mkdir-IsExclusive wait i w (ap has_lock h) ex
Step-IsExclusive (retries w i h) ex = try_mkdir-IsExclusive true i w (ap has_lock h) ex
Step-IsExclusive (writes w i name h) ex = keeps w i inside ex (λ _. ap has_lock h)
Step-IsExclusive (leaves w i h) ex = leave-IsExclusive i w h ex
Step-IsExclusive (killed w i) ex = keeps w i gone ex (λ h. cc)

-- In every state that the processes reach, at most one has the lock, and while one has it the
-- directory is there, whatever the order of the steps and whoever is killed.
pub Reachable-IsExclusive : {w : World} → Reachable w → IsExclusive w
Reachable-IsExclusive (starts w h) =
    (λ i t. let t' = rw (h i) at t in cc, λ i j t t'. let t'' = rw (h i) at t in cc)
Reachable-IsExclusive (steps u v r s) = Step-IsExclusive s (Reachable-IsExclusive r)
