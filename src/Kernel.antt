-- ===== src/Kernel.antt =====
-- project01/xv6-public/proc.c, the life of a process: allocproc, fork, exit, wait and sleep, with
-- the parts of kalloc.c, file.c and pipe.c that they call. `none` is a panic or the use of a pointer
-- to nothing. A function runs up to the point where the process sleeps or leaves the processor.
pub mod Table
pub mod Birth
pub mod Descriptors
pub mod Fork
pub mod Forked
pub mod Exit
pub mod Adopt
pub mod Death
pub mod Handover
pub mod Open
mod Tests
use mathlib.Core.Option
use ele.Common.{
  ℕ, zero, suc, ◌+◌, ◌==◌, Bool, true, false, ◌&&◌, ◌||◌, not, if◌then◌else◌, Option, none, some,
  List, [], ◌∷◌, ◌++◌, map, ℤ, pos, negsuc, get_elem?, modify, find_index, int_of_uint,
}
use ele.Kalloc.{Kmem, kalloc, kfree}
use ele.Proc.{
  ProcState, unused, embryo, sleeping, runnable, zombie, is_unused, is_zombie, Chan, null, proc_at,
  nread_of, nwrite_of, chan_of, Proc, Ptable, wakeup1,
}
use ele.File.{File, filedup, fileclose, Left, shared, nothing, pipe_end, inode}
use ele.Pipe.{Pipe, close_end, is_dead}

-- The calls into the file system, which keeps its own state, in their order.
pub data FsCall : Type 0 where
  begin_op end_op : FsCall
  idup iput : ℕ → FsCall

pub record Kernel : Type 0 where
  pub table : Ptable
  pub mem : Kmem
  pub files : List File
  pub pipes : ℕ → Pipe
  pub calls : List FsCall

abbrev pub procs_of : Kernel → List Proc
procs_of k = k.table.procs

abbrev pub with_procs : Kernel → List Proc → Kernel
with_procs k ps = record k { table = record (k.table) { procs = ps } }

abbrev pub fs_calls : List FsCall → Kernel → Kernel
fs_calls cs k = record k { calls = k.calls ++ cs }

-- What `allocproc` sets when it has found its slot.
abbrev pub claimed : Ptable → Proc → Proc
claimed t p = record p {
  state = embryo;
  pid = t.nextpid;
  q_lv = 0;
  tq = 0;
  priority = 3;
  time = int_of_uint t.ticks;
}

-- `allocproc`: the index of the new process, if there is one. The trap frame and the context are
-- built in the new stack, and are written before they are read.
unfoldable pub allocproc : Kernel → Option ℕ × Kernel
allocproc k = elim (find_index (λ p. is_unused p.state) (procs_of k)) [
  | none ↦ (none, k)
  | some i ↦
      let t = record (k.table) {
        procs = modify (procs_of k) i (claimed k.table);
        nextpid = k.table.nextpid + 1;
      } in
      let (page, m) = kalloc k.mem in
      elim page [
        | none ↦ (
          none,
          record k {
            table = record t {
              procs = modify t.procs i (λ p. record p { kstack = none; state = unused });
            };
            mem = m;
          },
        )
        | some v ↦ (
          some i,
          record k {
            table = record t { procs = modify t.procs i (λ p. record p { kstack = some v }) };
            mem = m;
          },
        )
      ]
]

-- The loop of `fork` over the open files: the child's table and the files.
unfoldable pub dup_fds :
    List (Option ℕ) → List (Option ℕ) → List File → Option (List (Option ℕ) × List File)
dup_fds [] os fs = some (os, fs)
dup_fds (c ∷ cs) [] fs = none
dup_fds (none ∷ cs) (o ∷ os) fs = elim (dup_fds cs os fs) [
  | none ↦ none
  | some r ↦ some (o ∷ r.0, r.1)
]
dup_fds (some f ∷ cs) (o ∷ os) fs = elim (filedup f fs) [
  | none ↦ none
  | some fs' ↦ elim (dup_fds cs os fs') [ none ↦ none | some r ↦ some (some f ∷ r.0, r.1) ]
]

-- The child of `cur` in slot `i`, as `fork` leaves it.
abbrev pub child_of : ℕ → Proc → ℕ → ℤ → List (Option ℕ) → Proc → Proc
child_of cur parent pgdir now fds np = record np {
  pgdir = some pgdir;
  sz = parent.sz;
  parent = some cur;
  tf = record (parent.tf) { eax = 0 };
  tq = 0;
  q_lv = 0;
  time = now;
  priority = 3;
  ofile = fds;
  cwd = parent.cwd;
  state = runnable;
}

-- The end of `fork`, when the child's memory is there; `none` as its working directory is a fault.
unfoldable pub finish_fork : ℕ → Proc → ℕ → Proc → ℕ → Kernel → Option (ℤ × Kernel)
unfolding dup_fds
finish_fork cur p i np pgdir k = elim p.cwd [
  | none ↦ none
  | some dir ↦ elim (dup_fds p.ofile np.ofile k.files) [
    | none ↦ none
    | some (fds, fs) ↦
        let born = modify (procs_of k) i (child_of cur p pgdir (int_of_uint k.table.ticks) fds) in
        some (pos np.pid, fs_calls (idup dir ∷ []) (record (with_procs k born) { files = fs }))
  ]
]

-- The failure of `fork` after `allocproc`: the stack goes back.
unfoldable pub undo_fork : ℕ → Proc → Kernel → Option (ℤ × Kernel)
undo_fork i np k = elim np.kstack [
  | none ↦ none
  | some v ↦ elim (kfree k.mem v) [
    | none ↦ none
    | some m ↦ some (
      negsuc 0,
      record (with_procs k
          (modify (procs_of k) i (λ p. record p { pgdir = none; kstack = none; state = unused }))) {
            mem = m;
          },
    )
  ]
]

-- `copyuvm` of vm.c, on the parent's directory and size: the new directory, or `none`, and the memory.
module _ (copyuvm : Option ℕ → ℕ → Kmem → Option ℕ × Kmem) where
  -- `fork` by process `p` at `cur` from the copy of its memory on, for the new process in slot `i`.
  unfoldable pub fork_into : ℕ → Proc → ℕ → Kernel → Option (ℤ × Kernel)
  unfolding finish_fork undo_fork
  fork_into cur p i k = elim (get_elem? (procs_of k) i) [
    | none ↦ none
    | some np ↦
        let k' = record k { mem = (copyuvm p.pgdir p.sz k.mem).1 } in
        elim (copyuvm p.pgdir p.sz k.mem).0 [
          | none ↦ undo_fork i np k'
          | some d ↦ finish_fork cur p i np d k'
        ]
  ]

  unfoldable pub fork_with : ℕ → Proc → Option ℕ × Kernel → Option (ℤ × Kernel)
  unfolding fork_into
  fork_with cur p (none, k) = some (negsuc 0, k)
  fork_with cur p (some i, k) = fork_into cur p i k

  unfoldable pub fork : ℕ → Kernel → Option (ℤ × Kernel)
  unfolding allocproc fork_with
  fork cur k = elim (get_elem? (procs_of k) cur) [
    | none ↦ none
    | some p ↦ fork_with cur p (allocproc k)
  ]
