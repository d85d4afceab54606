-- ===== src/Proc.antt =====
-- project01/xv6-public/proc.h and proc.c: the process table of the kernel with the multi-level
-- feedback queue. A pointer to a process is its index in the table.
use ele.Common.{
  ℕ, ◌==◌, ltb, if◌then◌else◌, Bool, true, false, ◌&&◌, Option, none, some, List, ℤ, pos, negsuc,
  map, find_index, modify,
}

-- `enum procstate`
pub data ProcState : Type 0 where
  unused embryo sleeping runnable running zombie : ProcState

abbrev pub is_unused : ProcState → Bool
is_unused unused = true
is_unused _ = false

abbrev pub is_sleeping : ProcState → Bool
is_sleeping sleeping = true
is_sleeping _ = false

abbrev pub is_runnable : ProcState → Bool
is_runnable runnable = true
is_runnable _ = false

abbrev pub is_running : ProcState → Bool
is_running running = true
is_running _ = false

abbrev pub is_zombie : ProcState → Bool
is_zombie zombie = true
is_zombie _ = false

-- The address that a process sleeps on: none, that of `ptable.proc[i]`, that of a counter of the pipe
-- at an address, or another one.
pub data Chan : Type 0 where
  null : Chan
  proc_at : ℕ → Chan
  nread_of : ℕ → Chan
  nwrite_of : ℕ → Chan
  address : ℕ → Chan

unfoldable pub chan_eq : Chan → Chan → Bool
chan_eq null null = true
chan_eq (proc_at i) (proc_at j) = i == j
chan_eq (nread_of a) (nread_of b) = a == b
chan_eq (nwrite_of a) (nwrite_of b) = a == b
chan_eq (address a) (address b) = a == b
chan_eq _ _ = false

-- A process pointer as a channel.
abbrev pub chan_of : Option ℕ → Chan
chan_of none = null
chan_of (some i) = proc_at i

-- The trap frame: the register that carries a system call's result, and the other words.
pub record Trapframe : Type 0 where
  pub eax : ℕ
  pub rest : List ℕ

-- `struct proc`, without the saved kernel context, which only `swtch` reads, and the name, which only
-- messages show.
pub record Proc : Type 0 where
  pub priority : ℕ
  pub tq : ℕ
  pub q_lv : ℕ
  pub time : ℤ
  pub sz : ℕ
  pub pgdir : Option ℕ
  pub kstack : Option ℕ
  pub state : ProcState
  pub pid : ℕ
  pub parent : Option ℕ
  pub tf : Trapframe
  pub chan : Chan
  pub killed : Bool
  pub ofile : List (Option ℕ)
  pub cwd : Option ℕ

-- `ptable` with the file's other variables and the clock of trap.c.
pub record Ptable : Type 0 where
  pub procs : List Proc
  pub upper_bound : ℕ
  pub is_lock : Bool
  pub lock_process : Option ℕ
  pub nextpid : ℕ
  pub initproc : Option ℕ
  pub ticks : ℕ

abbrev pub nproc : ℕ
nproc = 64

-- No process has a negative id.
unfoldable pub has_pid : ℤ → Proc → Bool
has_pid (pos n) p = p.pid == n
has_pid (negsuc n) p = false

unfoldable pub sleeps_on : Chan → Proc → Bool
sleeps_on c p = is_sleeping p.state && chan_eq p.chan c

-- `wakeup1`; `wakeup` is the same under the lock.
unfoldable pub wakeup1 : Chan → List Proc → List Proc
wakeup1 c = map (λ p. if sleeps_on c p then record p { state = runnable } else p)

-- What `kill` does to its target.
abbrev pub kill_proc : Proc → Proc
kill_proc p = record p { killed = true; state = if is_sleeping p.state then runnable else p.state }

-- `kill` returns 0 or -1.
unfoldable pub kill : ℤ → List Proc → ℤ × List Proc
kill pid ps = elim (find_index (has_pid pid) ps) [
  | none ↦ (negsuc 0, ps)
  | some i ↦ (pos 0, modify ps i kill_proc)
]

-- The bounds that `setPriority` puts on its argument.
unfoldable pub clamp_priority : ℤ → ℕ
clamp_priority (negsuc n) = 0
clamp_priority (pos n) = if ltb 3 n then 3 else n

unfoldable pub set_priority : ℤ → ℤ → List Proc → List Proc
set_priority pid priority ps = elim (find_index (has_pid pid) ps) [
  | none ↦ ps
  | some i ↦ modify ps i (λ p. record p { priority = clamp_priority priority })
]
