-- ===== src/Dense/Lock.antt =====
-- The lock of py/hybridsearch/dense/encode.py: a directory with the owner's file, which processes
-- make and remove, also that of an owner that is dead. A call of the system is one step.
pub mod Foreign
use hybrid_search.Prelude.{
  ℕ, ◌≡◌, Bool, true, false, List, [], ◌∷◌, ◌++◌, Option, none, some, ◌==◌, if◌then◌else◌, nat_eq,
}
use hybrid_search.Prelude.Text.{Str, codes}
use hybrid_search.Prelude.Decimal.{show_nat}
use hybrid_search.Prelude.Int.{ℤ}
use hybrid_search.Data.Words.{split, parse_int}

-- What follows a prefix.
unfoldable pub strip : Str → Str → Option Str
strip [] s = some s
strip (c ∷ cs) [] = none
strip (c ∷ cs) (d ∷ s) = let rest = strip cs s in if c == d then rest else none

-- What stands before the next "pid=".
unfoldable pub up_to_pid : Str → Str
unfolding strip
up_to_pid [] = []
up_to_pid (c ∷ cs) =
    let rest = c ∷ up_to_pid cs in
    elim (strip (codes "pid=") (c ∷ cs)) [ none ↦ rest | some s ↦ [] ]

-- What `_lock_owner_dead` says: false, true, or an exception.
pub data Verdict : Type 0 where
  held stale raises : Verdict

-- `os.kill(pid, 0)` raises `ProcessLookupError` exactly if the process is not there.
unfoldable pub judge_pid : (ℤ → Bool) → List Str → Verdict
judge_pid is_there [] = raises
judge_pid is_there (w ∷ ws) = elim (parse_int w) [
  | none ↦ raises
  | some pid ↦ if is_there pid then held else stale
]

unfoldable pub lock_owner_dead : (ℤ → Bool) → Option Str → Verdict
unfolding strip up_to_pid judge_pid
lock_owner_dead is_there none = held
lock_owner_dead is_there (some owner) = elim (strip (codes "dense-encode pid=") owner) [
  | none ↦ held
  | some rest ↦ judge_pid is_there (split (up_to_pid rest))
]

-- Where a process is: before `mkdir`, after its `FileExistsError`, with the verdict that the owner is
-- dead, before `unlink`, before `rmdir`, asleep, between `mkdir` and the writing of its name, with
-- the lock, between the two calls of `release_lock`, or at its end.
pub data Phase : Type 0 where
  trying blocked sure breaking emptied asleep made inside releasing done : Phase

pub record World : Type 0 where
  pub lock : Bool
  pub owner : Option Str
  pub is_there : ℤ → Bool
  pub phase : ℕ → Phase

abbrev pub move : ℕ → Phase → World → World
move i p w = record w { phase = λ j. if j == i then p else w.phase j }

-- `dense-encode pid=... started=...`, and the end of the line.
abbrev pub name_of : ℕ → Str → Str
name_of pid stamp =
    codes "dense-encode pid=" ++ show_nat pid ++ codes " started=" ++ stamp ++ 10 ∷ []

abbrev pub after_verdict : Verdict → Phase
after_verdict held = asleep
after_verdict stale = sure
after_verdict raises = done

-- `os.mkdir(LOCK)`
unfoldable pub try_mkdir : ℕ → World → World
try_mkdir i w = if w.lock then move i blocked w else move i made (record w { lock = true })

unfoldable pub look : ℕ → World → World
unfolding lock_owner_dead
look i w = move i (after_verdict (lock_owner_dead w.is_there w.owner)) w

abbrev pub is_some : Option Str → Bool
is_some none = false
is_some (some s) = true

-- The message reads the owner's file again, which raises if it is gone.
unfoldable pub report : ℕ → World → World
report i w = move i (if is_some w.owner then breaking else done) w

-- `unlink(missing_ok=True)`, on the way to a phase.
unfoldable pub unlink_owner : ℕ → Phase → World → World
unlink_owner i p w = move i p (record w { owner = none })

-- `os.rmdir(LOCK)`, which fails where the directory is gone or has a file.
unfoldable pub remove_dir : ℕ → Phase → World → World
remove_dir i p w = move i p (if is_some w.owner then w else record w { lock = false })

-- `write_text`, which raises where the directory is gone.
unfoldable pub write_owner : Str → ℕ → World → World
write_owner name i w =
    if w.lock then move i inside (record w { owner = some name }) else move i done w

-- The steps of the processes, in any order.
pub data Step : World → World → Type 0 where
  tries : (w : World) (i : ℕ) → w.phase i ≡ trying → Step w (try_mkdir i w)
  looks : (w : World) (i : ℕ) → w.phase i ≡ blocked → Step w (look i w)
  reports : (w : World) (i : ℕ) → w.phase i ≡ sure → Step w (report i w)
  unlinks : (w : World) (i : ℕ) → w.phase i ≡ breaking → Step w (unlink_owner i emptied w)
  removes : (w : World) (i : ℕ) → w.phase i ≡ emptied → Step w (remove_dir i trying w)
  wakes : (w : World) (i : ℕ) → w.phase i ≡ asleep → Step w (move i trying w)
  times_out : (w : World) (i : ℕ) → w.phase i ≡ asleep → Step w (move i done w)
  writes :
      (w : World) (i : ℕ) (stamp : Str)
      → w.phase i ≡ made
      → Step w (write_owner (name_of i stamp) i w)
  releases : (w : World) (i : ℕ) → w.phase i ≡ inside → Step w (unlink_owner i releasing w)
  leaves : (w : World) (i : ℕ) → w.phase i ≡ releasing → Step w (remove_dir i done w)
  dies :
      (w : World) (i : ℕ) (is_there : ℤ → Bool)
      → Step w (move i done (record w { is_there = is_there }))

pub data Steps (w : World) : World → Type 0 where
  here : Steps w w
  next : {u v : World} → Steps w u → Step u v → Steps w v
