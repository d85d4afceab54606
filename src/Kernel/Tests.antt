-- ===== src/Kernel/Tests.antt =====
-- The life of processes in project01/xv6-public/proc.c on a table of 64 entries: a process that runs
-- in slot 0, the rest free.
use mathlib.Core.Option.{some_inj}
use ele.Common.{
  ℕ, zero, suc, ◌<◌, ◌≡◌, refl, sym, subst, true, false, Option, none, some, List, [], ◌∷◌, arith,
  pos, All, length, get_elem?, set, replicate, modify,
}
use ele.Kalloc.{Kmem}
use ele.Proc.{
  Proc, unused, running, sleeping, is_unused, wakeup1, sleeps_on, chan_eq, null, proc_at,
}
use ele.File.{File, fd_inode}
use ele.File.Refs.{ref_at}
use ele.Pipe.{fresh_pipe}
use ele.Kernel.{Kernel, procs_of, fork}
use ele.Kernel.Exit.{is_child, leave, adopt, adopt_at}
use ele.Kernel.Open.{fdalloc, FdAllocated, fdalloc-argfd}
use ele.Kernel.Table.{IsTable, IsTable-new}
use ele.Kernel.Forked.{Result, IsClean, fork-Forked}
use ele.Kernel.Death.{leave-orphans}
use ele.Kernel.Handover.{IsHeard, leave-wait}

abbrev slot : Proc
slot = record {
  priority = 0;
  tq = 0;
  q_lv = 0;
  time = pos 0;
  sz = 0;
  pgdir = none;
  kstack = none;
  state = unused;
  pid = 0;
  parent = none;
  tf = record { eax = 0; rest = [] };
  chan = null;
  killed = false;
  ofile = none ∷ none ∷ [];
  cwd = none;
}

abbrev shell : Proc
shell = record slot {
  pid = 1;
  state = running;
  sz = 4096;
  pgdir = some 7;
  kstack = some 8;
  ofile = some 0 ∷ none ∷ [];
  cwd = some 3;
}

abbrev table : List Proc
table = set (replicate 64 slot) 0 shell

abbrev console : File
console = record {
  kind = fd_inode;
  ref = 1;
  readable = true;
  writable = true;
  pipe = 0;
  ip = 5;
  off = 0;
}

abbrev kernel : Kernel
kernel = record {
  table = record {
    procs = table;
    upper_bound = 0;
    is_lock = false;
    lock_process = none;
    nextpid = 2;
    initproc = some 0;
    ticks = 5;
  };
  mem = record { kernel_end = 0x8011_0000; freelist = 0x8011_2000 ∷ [] };
  files = console ∷ [];
  pipes = λ _. fresh_pipe [];
  calls = [];
}

-- A copy of memory that always succeeds, and one that never does.
abbrev copies : Option ℕ → ℕ → Kmem → Option ℕ × Kmem
copies d n m = (some 9, m)

replicate-IsTable : (n : ℕ) (i : ℕ) (q : Proc) → get_elem? (replicate n slot) i ≡ some q → slot ≡ q
replicate-IsTable zero i q e = cc
replicate-IsTable (suc n) zero q e = some_inj.0 e
replicate-IsTable (suc n) (suc i) q e = replicate-IsTable n i q e

replicate-below : (n : ℕ) → All (λ (p : Proc). p.pid < 1) (replicate n slot)
replicate-below zero = tt
replicate-below (suc n) = (omega arith, replicate-below n)

empty-IsTable : IsTable (replicate 64 slot) 1
empty-IsTable = record {
  size = refl;
  below = replicate-below 64;
  apart = λ i j p q at_i at_j use_p use_q same. absurd (
      ground (
        arith,
        subst (λ z. is_unused z.state ≡ false) (sym (replicate-IsTable 64 i p at_i)) use_p,
      ));
}

table-IsTable : IsTable table 2
table-IsTable = IsTable-new (replicate 64 slot) 1 0 shell empty-IsTable refl

some_live : 0 < ref_at (console ∷ []) 0
unfolding ref_at
some_live = omega arith

sizes : All (λ q. 2 ≡ length q.ofile) table
sizes = all_sizes 63
  where
    all_sizes : (n : ℕ) → All (λ q. 2 ≡ length q.ofile) (shell ∷ replicate n slot)
    all_sizes n = (refl, same n)
      where
        same : (n : ℕ) → All (λ q. 2 ≡ length q.ofile) (replicate n slot)
        same zero = tt
        same (suc n) = (refl, same n)

clean : All (λ q. IsClean (is_unused q.state) q.ofile) table
clean = (tt, all_clean 63)
  where
    all_clean : (n : ℕ) → All (λ q. IsClean (is_unused q.state) q.ofile) (replicate n slot)
    all_clean zero = tt
    all_clean (suc n) = ((refl, (refl, tt)), all_clean n)

fork-Forked_example : Result copies kernel 0 shell (fork copies 0 kernel)
fork-Forked_example =
    fork-Forked copies (λ d n m. refl) kernel 0 3 shell table-IsTable (omega arith) refl refl
      (some_live, (tt, tt)) sizes clean

-- The child in slot 1 of a shell that waits.
abbrev child : Proc
child = record slot {
  pid = 2;
  state = running;
  parent = some 0;
  kstack = some 9;
  pgdir = some 9;
  cwd = some 3;
}

abbrev waiting : Kernel
waiting = record kernel {
  table = record (kernel.table) {
    procs =
        set (set (replicate 64 slot) 0 (record shell { state = sleeping; chan = proc_at 0 })) 1
          child;
    nextpid = 3;
  };
}

leave-wait_example : IsHeard (λ d m. some m) waiting 1 0 (some 0)
leave-wait_example =
    leave-wait (λ d m. some m) waiting 1 0 (some 0) child
      (record shell { state = sleeping; chan = proc_at 0 }) (omega arith) (omega arith) refl refl
      refl refl refl

-- The child's child.
abbrev adopted : Proc
adopted = record child { parent = some 2 }

leave-orphans_example : is_child 0 adopted ≡ false
unfolding leave adopt adopt_at wakeup1 sleeps_on modify chan_eq
leave-orphans_example =
    leave-orphans 0 (some 2) none (procs_of waiting) 1 adopted (omega arith) refl refl

fdalloc-argfd_example :
    FdAllocated 7 (some 3 ∷ none ∷ none ∷ []) (fdalloc 7 (some 3 ∷ none ∷ none ∷ []))
fdalloc-argfd_example = fdalloc-argfd 7 (some 3 ∷ none ∷ none ∷ [])
