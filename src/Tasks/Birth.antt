-- ===== src/Tasks/Birth.antt =====
-- `allocproc`, `fork` and the reaping of `wait` of project02/xv6-public/proc.c.
use mathlib.Core.Option
use ele.Common.{
  ℕ, ◌+◌, ◌==◌, true, false, if◌then◌else◌, Option, none, some, List, [], ◌∷◌, ◌++◌, ℤ, pos, negsuc,
  get_elem?, modify, find_index, drop, replicate,
}
use ele.Kalloc.{Kmem, kalloc, kfree}
use ele.Proc.{unused, embryo, runnable, is_unused}
use ele.File.{File}
use ele.Kernel.{FsCall, idup, dup_fds}
use ele.Thread.{Frame, Thread}
use ele.Tasks.{Process, with_threads, with_state}

pub record System : Type 0 where
  pub procs : List Process
  pub nextpid : ℕ
  pub mem : Kmem
  pub files : List File
  pub calls : List FsCall

abbrev pub with_procs : System → List Process → System
with_procs k ps = record k { procs = ps }

-- A process as `allocproc` finds it free.
unfoldable pub taken : ℕ → Process → Process
taken pid p =
    record (with_threads p (modify p.ttable 0 (λ t. record t { state = embryo; tid = 0 }))) {
      pid = pid;
      task = record (p.task) {
        state = embryo;
        cur_thread = 0;
        sz_limit = 0;
        ttable = modify p.ttable 0 (λ t. record t { state = embryo; tid = 0 });
      };
    }

abbrev pub with_stack : Option ℕ → Thread → Thread
with_stack none t = record t { kstack = none; state = unused }
with_stack (some v) t = record t { kstack = some v; context = some (v + 3996) }

-- The main thread gets its kernel stack, or the process is given back.
abbrev pub stacked : Option ℕ → Process → Process
stacked none p = with_threads (with_state p unused) (modify p.ttable 0 (with_stack none))
stacked (some v) p = with_threads p (modify p.ttable 0 (with_stack (some v)))

-- `allocproc`; the trap frame in the new stack is written before it is read.
unfoldable pub alloc_with : ℕ → System → Option ℕ × Kmem → Option ℕ × System
alloc_with i k (none, m) = (none, record k { procs = modify k.procs i (stacked none); mem = m })
alloc_with i k (some v, m) =
    (some i, record k { procs = modify k.procs i (stacked (some v)); mem = m })

unfoldable pub allocproc : System → Option ℕ × System
unfolding taken alloc_with
allocproc k = elim (find_index (λ (p : Process). is_unused p.state) k.procs) [
  | none ↦ (none, k)
  | some i ↦
      alloc_with i
        (record k { procs = modify k.procs i (taken k.nextpid); nextpid = k.nextpid + 1 })
        (kalloc k.mem)
]

-- `kfree` of a pointer that may be null.
unfoldable pub kfree_opt : Kmem → Option ℕ → Option Kmem
kfree_opt m none = kfree m 0
kfree_opt m (some v) = kfree m v

abbrev pub main_kstack : Process → Option ℕ
main_kstack p = Option.bind (get_elem? p.ttable 0) (λ t. t.kstack)

-- The process whose memory could not be copied: `np->pgdir` is the 0 that `copyuvm` gave.
abbrev gone : Process → Process
gone p = let q = stacked none p in record q { kstack = none; task = record (q.task) { pgdir = 0 } }

-- The failure of `fork` as the memory cannot be copied: both the process's own kernel stack pointer and
-- that of its main thread are freed.
unfoldable pub undo_fork : ℕ → Process → System → Option (ℤ × System)
unfolding kfree_opt
undo_fork i np k = elim (kfree_opt k.mem np.kstack) [
  | none ↦ none
  | some m ↦ elim (kfree_opt m (main_kstack np)) [
    | none ↦ none
    | some m' ↦ some (negsuc 0, record k { procs = modify k.procs i gone; mem = m' })
  ]
]

-- The frame that the running process points to, with 0 as the result.
abbrev pub child_frame : Process → Option Frame
child_frame p =
    Option.map (λ (f : Frame). record f { eax = 0 })
      (Option.bind p.tf (λ s. Option.bind (get_elem? p.ttable s) (λ t. t.tf)))

abbrev pub child_of : ℕ → Process → ℕ → List (Option ℕ) → Process → Process
child_of cur p pgdir fds np = record np {
  parent = some cur;
  ofile = fds;
  cwd = p.cwd;
  task = record (np.task) {
    pgdir = pgdir;
    sz = p.sz;
    sz_limit = p.sz_limit;
    state = runnable;
    ttable = modify np.ttable 0 (λ t. record t { tf = child_frame p; state = runnable });
  };
}

unfoldable pub finish_fork : ℕ → Process → ℕ → Process → ℕ → System → Option (ℤ × System)
unfolding dup_fds
finish_fork cur p i np pgdir k = elim p.cwd [
  | none ↦ none
  | some dir ↦ elim (dup_fds p.ofile np.ofile k.files) [
    | none ↦ none
    | some (fds, fs) ↦ some (
      pos np.pid,
      record k {
        procs = modify k.procs i (child_of cur p pgdir fds);
        files = fs;
        calls = k.calls ++ (idup dir ∷ []);
      },
    )
  ]
]

-- `copyuvm` of vm.c, on the parent's directory and size: the new directory, 0 as it fails.
module _ (copyuvm : ℕ → ℕ → Kmem → ℕ × Kmem) where
  unfoldable pub fork_into : ℕ → Process → ℕ → System → Option (ℤ × System)
  unfolding finish_fork undo_fork
  fork_into cur p i k = elim (get_elem? k.procs i) [
    | none ↦ none
    | some np ↦
        let (pgdir, m) = copyuvm p.pgdir p.sz k.mem in
        if pgdir == 0
        then undo_fork i np (record k { mem = m })
        else finish_fork cur p i np pgdir (record k { mem = m })
  ]

  unfoldable pub fork_with : ℕ → Process → Option ℕ × System → Option (ℤ × System)
  unfolding fork_into
  fork_with cur p (none, k) = some (negsuc 0, k)
  fork_with cur p (some i, k) = fork_into cur p i k

  unfoldable pub fork : ℕ → System → Option (ℤ × System)
  unfolding allocproc fork_with
  fork cur k = elim (get_elem? k.procs cur) [ none ↦ none | some p ↦ fork_with cur p (allocproc k) ]

-- A thread of a process that has been waited for.
abbrev pub freed_thread : Thread → Thread
freed_thread t = record t {
  tid = 0;
  asleep_on = 0;
  tf = none;
  context = none;
  kstack = none;
  state = unused;
}

-- The loop of `wait` over the threads, from the last one down; `ts` are those before the ones done.
unfoldable pub free_threads : List Thread → Kmem → Option (List Thread × Kmem)
unfolding kfree_opt
free_threads [] m = some ([], m)
free_threads (t ∷ ts) m = elim (free_threads ts m) [
  | none ↦ none
  | some (us, m1) ↦ elim (is_unused t.state) [
    | true ↦ some (t ∷ us, m1)
    | false ↦ elim (kfree_opt m1 t.kstack) [
      | none ↦ none
      | some m2 ↦ some (freed_thread t ∷ us, m2)
    ]
  ]
]

-- The pool after `wait`: the loop stops before the last word.
abbrev pub emptied : List ℕ → List ℕ
emptied pool = replicate 9 0 ++ drop 9 pool

-- `freevm` of vm.c, `none` as it panics.
module _ (freevm : ℕ → Kmem → Option Kmem) where
  -- The reaping of the child in slot `i`, and its id.
  unfoldable pub reap : ℕ → Process → System → Option (ℕ × System)
  unfolding free_threads
  reap i p k = elim (free_threads p.ttable k.mem) [
    | none ↦ none
    | some (ts, m) ↦ elim (freevm p.pgdir m) [
      | none ↦ none
      | some m' ↦ some (
        p.pid,
        record k {
          procs = modify k.procs i (λ q. record q {
            pid = 0;
            kstack = none;
            parent = none;
            killed = false;
            task = record (q.task) {
              state = unused;
              ttable = ts;
              thread_pool = emptied q.thread_pool;
            };
          });
          mem = m';
        },
      )
    ]
  ]
