-- ===== src/Lock/Tests.antt =====
-- The locks of spinlock.c and sleeplock.c on one processor.
use ele.Common.{◌≡◌, ◌≢◌, refl, true, false, none, some}
use ele.Lock.{
  Cpu, Spinlock, Sleeplock, initlock, acquire, got, release, pushcli, popcli, holding, acquiresleep,
  releasesleep, holdingsleep,
}
use ele.Lock.Nesting.{acquire-release}

abbrev cpu : Cpu
cpu = record { ncli = 0; intena = false; interrupts = true }

acquire-release_example :
    (l1 : Spinlock) × (c1 : Cpu) × (acquire 0 initlock cpu ≡ some (got l1 c1))
    × (c1.interrupts ≡ false)
    × ((l2 : Spinlock) × (c2 : Cpu) × (release 0 l1 c1 ≡ some (l2, c2))
        × (l2.locked ≡ false)
        × (c2.ncli ≡ 0)
        × (c2.interrupts ≡ true))
unfolding initlock
acquire-release_example = acquire-release 0 initlock cpu (λ d. absurd (no_way d)) refl
  where
    no_way : true ≢ false
    no_way e = cc

-- A processor that takes a lock twice panics.
acquire_twice : acquire 0 (record { locked = true; cpu = some 0 }) cpu ≡ none
unfolding acquire holding pushcli popcli
acquire_twice = refl

abbrev taken : Sleeplock
taken = record { locked = true; pid = 7 }

-- The lock is its holder's, and can be taken again once it is given back.
sleeplock_runs :
    (holdingsleep 8 taken ≡ false)
    × (acquiresleep 8 taken ≡ none)
    × (acquiresleep 8 (releasesleep taken) ≡ some (record { locked = true; pid = 8 }))
unfolding acquiresleep holdingsleep releasesleep
sleeplock_runs = (refl, refl, refl)
