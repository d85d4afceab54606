-- ===== src/Log/Tests.antt =====
-- log.c on a disk with the log at block 2 and one block to write.
use ele.Common.{
  find_index, has, ℕ, zero, suc, ◌+◌, ◌<◌, length, Option, none, ◌==◌, ◌≡◌, refl, true,
  if◌then◌else◌, some, [], ◌∷◌, arith, inl, inr, ◌⊎◌, ℕ_discrete, take,
}
use ele.Log.{
  Cache, Log, logsize, put_block, commit, recover, begin_op, log_write, write_log, write_head,
  install_trans, put_words, read_head, absorb,
}
use ele.Log.Disk.{after}
use ele.Log.Traces.{IsHome}
use ele.Log.Crash.{Settled}
use ele.Log.Atomic.{stopped, commit-Settled}
use ele.Log.Space.{Runs, new, begins, fresh, sum, log_write-room}

abbrev disk : Cache
disk = λ a. if a == 2 then 0 ∷ 0 ∷ 0 ∷ 0 ∷ [] else (0 ∷ [])

abbrev changed : Cache
changed = put_block 40 (7 ∷ []) disk

-- The crash comes when the header has been written, and another in the recovery.
abbrev crashed : Cache
crashed = after (take 2 (commit 2 (40 ∷ []) changed).1) disk

recover_runs : after (recover 2 crashed).1 crashed 40 ≡ 7 ∷ []
unfolding commit recover write_log write_head install_trans put_words read_head
recover_runs = refl

commit_stops : after (take 1 (commit 2 (40 ∷ []) changed).1) disk 40 ≡ 0 ∷ []
unfolding commit write_log write_head install_trans put_words
commit_stops = refl

others : (b : ℕ) → IsHome 2 30 b → (has b (40 ∷ []) ≡ true) ⊎ (disk b ≡ changed b)
others b home = elim (ℕ_discrete 40 b) [ yes e ↦ inl (ground arith) | no off ↦ inr (ground arith) ]

commit-Settled_example :
    Settled 2 30 disk (after (recover 2 crashed).1 crashed)
    ⊎ Settled 2 30 changed (after (recover 2 crashed).1 crashed)
commit-Settled_example =
    commit-Settled 2 30 (40 ∷ []) disk changed (inr (omega arith), tt) (omega arith) refl others
      (omega arith) crashed (stopped 2)

abbrev open_log : Log
open_log = record (fresh 2 30) { outstanding = 1 }

begun : Runs 2 30 (10 ∷ []) open_log
unfolding begin_op
begun = begins [] (fresh 2 30) open_log new refl

log_write-room_example :
    ((length open_log.blocks + 1 < 30)
      × (log_write 7 open_log ≡ some (record open_log { blocks = absorb 7 [] })))
    ⊎ ((open_log.size ≡ logsize)
        × (length open_log.blocks + 1 ≡ logsize)
        × (sum (10 ∷ []) ≡ 1)
        × (log_write 7 open_log ≡ none))
log_write-room_example = log_write-room 2 30 [] [] 9 7 open_log (omega arith) begun

-- `n` writes, of the blocks from `b` on.
writes_from : ℕ → ℕ → Log → Option Log
writes_from zero b l = some l
writes_from (suc n) b l = elim (log_write b l) [ none ↦ none | some k ↦ writes_from n (b + 1) k ]

-- Three system calls have begun on a log of 30 blocks, which reserves 30 writes: the last one panics.
full_log_panics :
    (l : Log) × (writes_from 29 100 (record (fresh 2 30) { outstanding = 3 }) ≡ some l)
    × (log_write 129 l ≡ none)
unfolding writes_from log_write absorb find_index
full_log_panics = (_, refl, refl)
