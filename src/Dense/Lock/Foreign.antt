-- ===== src/Dense/Lock/Foreign.antt =====
-- The lock of another tool is not broken by acquire_lock of py/hybridsearch/dense/encode.py.
use hybrid_search.Prelude.{
  ℕ, ◌≡◌, refl, sym, ◌∙◌, ap, Bool, true, false, none, some, ◌==◌, nat_eq, Bool-cases, inl, inr,
}
use hybrid_search.Prelude.Text.{Str, codes}
use hybrid_search.Dense.Lock.{
  Phase, trying, blocked, sure, breaking, emptied, asleep, made, inside, releasing, done, World,
  strip, lock_owner_dead, move, try_mkdir, look, Step, tries, looks, reports, unlinks, removes,
  wakes, times_out, writes, releases, leaves, dies, Steps, here, next,
}

-- A process that neither has the lock nor is about to take one away.
abbrev pub waits : Phase → Bool
waits trying = true
waits blocked = true
waits asleep = true
waits done = true
waits sure = false
waits breaking = false
waits emptied = false
waits made = false
waits inside = false
waits releasing = false

-- Somebody else has the lock: the owner's file has this text, which is not of the encoder's form,
-- and all processes wait.
pub record IsForeign (owner : Str) (w : World) : Type 0 where
  pub lock : w.lock ≡ true
  pub text : w.owner ≡ some owner
  pub other : strip (codes "dense-encode pid=") owner ≡ none
  pub waiting : (i : ℕ) → waits (w.phase i) ≡ true

move-IsForeign :
    (owner : Str) (i : ℕ) (p : Phase) (w : World)
    → waits p ≡ true
    → IsForeign owner w
    → IsForeign owner (move i p w)
move-IsForeign owner i p w h v = record {
  lock = v.lock;
  text = v.text;
  other = v.other;
  waiting = λ j. elim (Bool-cases (j == i)) [ inl e ↦ rw e h | inr e ↦ rw e (v.waiting j) ];
}

not_waiting :
    {owner : Str} {w : World} {p : Phase} (i : ℕ)
    → IsForeign owner w
    → w.phase i ≡ p
    → waits p ≡ true
not_waiting i v h = sym (ap waits h) ∙ v.waiting i

pub Step-IsForeign : (owner : Str) {u v : World} → Step u v → IsForeign owner u → IsForeign owner v
unfolding try_mkdir look lock_owner_dead
Step-IsForeign owner (tries w i h) f =
    let g = move-IsForeign owner i blocked w refl f in
    rw f.lock (record { lock = refl; text = g.text; other = g.other; waiting = g.waiting })
Step-IsForeign owner (looks w i h) f =
    let g = move-IsForeign owner i asleep w refl f in
    rw (f.text, f.other)
      (record { lock = g.lock; text = refl; other = g.other; waiting = g.waiting })
Step-IsForeign owner (reports w i h) f = cc (not_waiting i f h)
Step-IsForeign owner (unlinks w i h) f = cc (not_waiting i f h)
Step-IsForeign owner (removes w i h) f = cc (not_waiting i f h)
Step-IsForeign owner (wakes w i h) f = move-IsForeign owner i trying w refl f
Step-IsForeign owner (times_out w i h) f = move-IsForeign owner i done w refl f
Step-IsForeign owner (writes w i stamp h) f = cc (not_waiting i f h)
Step-IsForeign owner (releases w i h) f = cc (not_waiting i f h)
Step-IsForeign owner (leaves w i h) f = cc (not_waiting i f h)
Step-IsForeign owner (dies w i is_there) f =
    move-IsForeign owner i done (record w { is_there = is_there }) refl
      (record { lock = f.lock; text = f.text; other = f.other; waiting = f.waiting })

-- The owner's file has a text that does not begin like an encoder's, and no encoder is past its test
-- of an earlier owner: each is before `mkdir`, before its look at the owner, asleep or done. Then no
-- order of the steps of any number of encoders takes away the directory or changes the file, and
-- none of them gets the lock, whichever processes are there. An encoder that had judged an earlier
-- owner dead could still break the lock.
pub Steps-IsForeign :
    (owner : Str) {u v : World} → Steps u v → IsForeign owner u → IsForeign owner v
Steps-IsForeign owner here f = f
Steps-IsForeign owner (next steps step) f =
    Step-IsForeign owner step (Steps-IsForeign owner steps f)
