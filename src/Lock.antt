-- ===== src/Lock.antt =====
-- spinlock.c and sleeplock.c, the same in both projects: who holds a lock, and when interrupts are
-- disabled. `none` is a panic. The debugging fields of a lock are left out.
pub mod Nesting
mod Tests
use ele.Common.{
  ℕ, zero, suc, ◌+◌, ◌-◌, ◌==◌, Bool, true, false, ◌&&◌, if◌then◌else◌, Option, none, some,
}

-- The fields of `struct cpu` for the nesting, with the interrupt flag of the processor.
pub record Cpu : Type 0 where
  pub ncli : ℕ
  pub intena : Bool
  pub interrupts : Bool

pub record Spinlock : Type 0 where
  pub locked : Bool
  pub cpu : Option ℕ

unfoldable pub initlock : Spinlock
initlock = record { locked = false; cpu = none }

unfoldable pub pushcli : Cpu → Cpu
pushcli c = record {
  ncli = c.ncli + 1;
  intena = if c.ncli == 0 then c.interrupts else c.intena;
  interrupts = false;
}

unfoldable pub popcli : Cpu → Option Cpu
popcli c =
    if c.interrupts
    then none
    else if c.ncli == 0
    then none
    else some (record c { ncli = c.ncli - 1; interrupts = (c.ncli == 1) && c.intena })

abbrev pub is_cpu : ℕ → Option ℕ → Bool
is_cpu me none = false
is_cpu me (some c) = c == me

-- `holding` on processor `me`: the answer, and the processor after its own pushcli and popcli.
unfoldable pub holding : ℕ → Spinlock → Cpu → Option (Bool × Cpu)
unfolding popcli pushcli
holding me l c = elim (popcli (pushcli c)) [
  | none ↦ none
  | some c' ↦ some (l.locked && is_cpu me l.cpu, c')
]

-- `acquire` takes the lock, or spins as another processor has it.
pub data Acquired : Type 0 where
  spins : Cpu → Acquired
  got : Spinlock → Cpu → Acquired

unfoldable pub acquire : ℕ → Spinlock → Cpu → Option Acquired
unfolding holding
acquire me l c = elim (holding me l (pushcli c)) [
  | none ↦ none
  | some (held, c') ↦
      if held
      then none
      else if l.locked
      then some (spins c')
      else some (got (record { locked = true; cpu = some me }) c')
]

unfoldable pub release : ℕ → Spinlock → Cpu → Option (Spinlock × Cpu)
unfolding holding
release me l c = elim (holding me l c) [
  | none ↦ none
  | some (held, c') ↦
      if held
      then elim (popcli c') [
        | none ↦ none
        | some c2 ↦ some (record { locked = false; cpu = none }, c2)
      ]
      else none
]

-- `struct sleeplock` with the process that holds it.
pub record Sleeplock : Type 0 where
  pub locked : Bool
  pub pid : ℕ

unfoldable pub initsleeplock : Sleeplock
initsleeplock = record { locked = false; pid = 0 }

-- A turn of the loop of `acquiresleep` by process `pid`; `none` as it sleeps on the lock.
unfoldable pub acquiresleep : ℕ → Sleeplock → Option Sleeplock
acquiresleep pid l = if l.locked then none else some (record { locked = true; pid = pid })

-- `releasesleep`, which wakes those who sleep on the lock.
unfoldable pub releasesleep : Sleeplock → Sleeplock
releasesleep l = record { locked = false; pid = 0 }

unfoldable pub holdingsleep : ℕ → Sleeplock → Bool
holdingsleep pid l = l.locked && (l.pid == pid)
