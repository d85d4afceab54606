-- ===== src/Tasks/Tests.antt =====
-- project02/xv6-public/proc.c on a process with two threads.
use ele.Common.{
  ℕ, ◌≡◌, refl, true, false, none, some, List, [], ◌∷◌, arith, pos, negsuc, has, get_elem?, modify,
  find_index, replicate,
}
use ele.Kalloc.{Kmem, can_free, kalloc, kfree}
use ele.Proc.{unused, runnable}
use ele.Thread.{Thread, cleared}
use ele.Tasks.{
  Process, limited, setmemorylimit, growproc, visit, is_ready, is_gone, dispatched, copy_process,
  copy_thread,
}
use ele.Tasks.Turns.{Waits, visit-serves}
use ele.Tasks.Limit.{setmemorylimit-growproc}
use ele.Tasks.Birth.{System, fork, kfree_opt, free_threads, freed_thread}
use ele.Tasks.Reap.{Freed, free_threads_lem}
use ele.Tasks.Panic.{fork_panics}

abbrev main_thread : Thread
main_thread = record {
  start = 0;
  tid = 0;
  kstack = some 0x8040_0000;
  state = runnable;
  tf = some (record { eax = 0; eip = 0; esp = 0; rest = [] });
  context = none;
  asleep_on = 0;
  retval = 0;
}

abbrev second : Thread
second = record main_thread { tid = 1; kstack = some 0x8040_1000 }

abbrev process : Process
process = record {
  task = record {
    sz = 0x6000;
    sz_limit = 0;
    pgdir = 7;
    state = runnable;
    ttable = main_thread ∷ second ∷ cleared second ∷ [];
    thread_pool = replicate 10 0;
    cur_thread = 0;
    base = 0x8011_4000;
  };
  pid = 1;
  parent = none;
  killed = false;
  kstack = some 0x8040_0000;
  tf = some 0;
  context = none;
  ofile = none ∷ [];
  cwd = some 1;
}

abbrev free_slot : Process
free_slot = record process {
  pid = 0;
  kstack = none;
  task = record (process.task) { state = unused };
}

-- Each thread only yields.
abbrev yields : ℕ → ℕ → List Process → List Process
yields i s ps = ps

second-Waits : Waits 0 1 (process ∷ [])
second-Waits = record {
  process = process;
  at_index = refl;
  alive = refl;
  thread = second;
  at_slot = refl;
  ready = refl;
}

visit_runs : (visit yields 10 1 0 0 (process ∷ [])).0 ≡ 1 ∷ 0 ∷ []
unfolding visit is_ready is_gone dispatched copy_process copy_thread modify
visit_runs = refl

visit-serves_example : has 1 (visit yields 10 1 0 0 (process ∷ [])).0 ≡ true
visit-serves_example =
    visit-serves yields 0 1 (λ s ps off w. w) 0 (process ∷ []) (omega arith) (omega arith)
      second-Waits

abbrev keeps : ℕ → ℕ → ℕ → Kmem → ℕ × Kmem
keeps d a b m = (b, m)

abbrev memory : Kmem
memory = record { kernel_end = 0x8011_0000; freelist = 0x8011_2000 ∷ [] }

-- Six pages and a limit of seven.
setmemorylimit-growproc_example :
    (setmemorylimit (pos 1) (pos 7) (process ∷ [])
      ≡ (pos 0, modify (process ∷ []) 0 (limited (pos 7))))
    × (get_elem? (modify (process ∷ []) 0 (limited (pos 7))) 0 ≡ some (limited (pos 7) process))
    × (growproc keeps keeps (pos 16) (limited (pos 7) process) memory ≡ record {
      result = negsuc 0;
      process = limited (pos 7) process;
      mem = memory;
      held = true;
    })
unfolding find_index
setmemorylimit-growproc_example =
    setmemorylimit-growproc keeps keeps memory (pos 1) 7 16 0 (process ∷ []) process refl refl
      (omega arith) (omega arith) (omega arith) (omega arith)

abbrev system : System
system = record {
  procs = process ∷ free_slot ∷ [];
  nextpid = 2;
  mem = memory;
  files = [];
  calls = [];
}

fork_panics_example : fork (λ d n m. (0, m)) 0 system ≡ none
unfolding find_index kalloc
fork_panics_example =
    fork_panics (λ d n m. (0, m)) system 0 1 0x8011_2000 process free_slot refl refl refl refl refl
      refl (omega arith)

-- The two threads in use of three.
free_threads_lem_example : Freed process.ttable memory (
  freed_thread main_thread ∷ freed_thread second ∷ cleared second ∷ [],
  record memory { freelist = 0x8040_0000 ∷ 0x8040_1000 ∷ 0x8011_2000 ∷ [] },
)
unfolding free_threads kfree_opt kfree can_free
free_threads_lem_example =
    free_threads_lem process.ttable memory
      (
        freed_thread main_thread ∷ freed_thread second ∷ cleared second ∷ [],
        record memory { freelist = 0x8040_0000 ∷ 0x8040_1000 ∷ 0x8011_2000 ∷ [] },
      )
      refl
