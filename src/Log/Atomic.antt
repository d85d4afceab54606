-- ===== src/Log/Atomic.antt =====
-- log.c: a commit is atomic, whatever crashes interrupt it and the recoveries after it.
use ele.Common.{
  has, ℕ, ◌<◌, ◌≤◌, ◌≡◌, refl, sym, subst, true, List, [], ◌∷◌, length, take, take-nil, All, ◌⊎◌,
}
use ele.Log.{Cache, Write, head_words, recover, commit}
use ele.Log.Disk.{after}
use ele.Log.Traces.{IsHome, commit-trace}
use ele.Log.Crash.{Settled, Stage, before, commit_stage, recover_stage, recovered}

-- The disks that crashes can leave: a commit of `bs` from the cache `c0` onto the disk `d0` stops after some
-- of its writes, and then any number of recoveries each stop after some of theirs.
pub data Reached (start : ℕ) (bs : List ℕ) (d0 c0 : Cache) : Cache → Type 0 where
  stopped : (k : ℕ) → Reached start bs d0 c0 (after (take k (commit start bs c0).1) d0)
  again :
      (k : ℕ) (d : Cache)
      → Reached start bs d0 c0 d
      → Reached start bs d0 c0 (after (take k (recover start d).1) d)

-- A commit that stops, whether there is something to write or not.
first :
    (start room : ℕ) (bs : List ℕ) (d0 c0 : Cache) (at_home : All (IsHome start room) bs)
    (fits : length bs ≤ room) (clean : head_words (d0 start) ≡ [])
    (cached : (b : ℕ) → IsHome start room b → (has b bs ≡ true) ⊎ (d0 b ≡ c0 b))
    → length bs < length (c0 start)
    → (k : ℕ)
    → Stage start room bs d0 c0 at_home fits clean cached (after (take k (commit start bs c0).1) d0)
unfolding commit
first start room [] d0 c0 at_home fits clean cached block k =
    subst (λ w. Stage start room [] d0 c0 at_home fits clean cached (after w d0))
      (sym (take-nil Write k)) (before (record { head = clean; blocks = λ b home. refl }))
first start room (b ∷ bs) d0 c0 at_home fits clean cached block k =
    let (x, e) = commit-trace start room c0 b bs at_home fits in
    subst (λ w. Stage start room (b ∷ bs) d0 c0 at_home fits clean cached (after (take k w) d0))
      (sym e) (commit_stage start room (b ∷ bs) d0 c0 at_home fits clean cached x k block)

module _ (start room : ℕ) (bs : List ℕ) (d0 c0 : Cache) (at_home : All (IsHome start room) bs)
    (fits : length bs ≤ room) (clean : head_words (d0 start) ≡ [])
    (cached : (b : ℕ) → IsHome start room b → (has b bs ≡ true) ⊎ (d0 b ≡ c0 b))
    (block : length bs < length (c0 start)) where
  abbrev OnDisk : Cache → Type 0
  OnDisk = Stage start room bs d0 c0 at_home fits clean cached

  stage : (d : Cache) → Reached start bs d0 c0 d → OnDisk d
  stage d (stopped k) = first start room bs d0 c0 at_home fits clean cached block k
  stage d (again k e r) =
      recover_stage start room bs d0 c0 at_home fits clean cached k e (stage e r)

  -- A commit is atomic. Given are: a disk whose log is empty, blocks `bs` outside the log that fit in it
  -- and in the header's block, and a cache that differs from the disk, outside the log, in those
  -- blocks only. The commit may stop after any number of its disk writes, and any number of recoveries after it
  -- may stop likewise: the next whole recovery leaves an empty log, and outside it either every
  -- block as it was before the commit, or every block as in the cache.
  pub commit-Settled :
      (d : Cache)
      → Reached start bs d0 c0 d
      → Settled start room d0 (after (recover start d).1 d)
        ⊎ Settled start room c0 (after (recover start d).1 d)
  commit-Settled d r = recovered start room bs d0 c0 at_home fits clean cached d (stage d r)
