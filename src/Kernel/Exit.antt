-- ===== src/Kernel/Exit.antt =====
-- exit, wait and sleep of project01/xv6-public/proc.c, with what file.c and pipe.c do as the files of a
-- process are closed.
use mathlib.Core.Option
use ele.Common.{
  ℕ, zero, suc, ◌==◌, Bool, false, ◌&&◌, if◌then◌else◌, Option, none, some, List, [], ◌∷◌, map,
  get_elem?, modify, find_index,
}
use ele.Kalloc.{Kmem, kfree}
use ele.Proc.{
  unused, sleeping, zombie, is_zombie, Chan, null, proc_at, nread_of, nwrite_of, chan_of, Proc,
  wakeup1,
}
use ele.File.{fileclose, Left, shared, nothing, pipe_end, inode}
use ele.Pipe.{Pipe, close_end, is_dead}
use ele.Kernel.{Kernel, begin_op, end_op, iput, procs_of, with_procs, fs_calls}

unfoldable pub wakeup : Chan → Kernel → Kernel
wakeup c k = with_procs k (wakeup1 c (procs_of k))

unfoldable pub set_pipe : ℕ → Pipe → Kernel → Kernel
set_pipe a p k = record k { pipes = λ b. if a == b then p else k.pipes b }

-- `pipeclose`
unfoldable pub pipeclose : ℕ → Bool → Kernel → Option Kernel
unfolding wakeup set_pipe
pipeclose a writable k =
    let p = close_end writable (k.pipes a) in
    let k' = wakeup (if writable then nread_of a else nwrite_of a) (set_pipe a p k) in
    if is_dead p then Option.map (λ m. record k' { mem = m }) (kfree k'.mem a) else some k'

unfoldable pub close_left : Left → Kernel → Option Kernel
unfolding pipeclose
close_left shared k = some k
close_left nothing k = some k
close_left (pipe_end a w) k = pipeclose a w k
close_left (inode ip) k = some (fs_calls (begin_op ∷ iput ip ∷ end_op ∷ []) k)

-- `fileclose`, with what it does after it has updated the table.
unfoldable pub close_file : ℕ → Kernel → Option Kernel
unfolding close_left
close_file f k = elim (fileclose f k.files) [
  | none ↦ none
  | some (left, fs) ↦ close_left left (record k { files = fs })
]

-- The loop of `exit` over the open files.
unfoldable pub close_fds : List (Option ℕ) → Kernel → Option Kernel
close_fds [] k = some k
close_fds (none ∷ os) k = close_fds os k
close_fds (some f ∷ os) k = elim (close_file f k) [ none ↦ none | some k' ↦ close_fds os k' ]

abbrev pub opt_eq : Option ℕ → ℕ → Bool
opt_eq none i = false
opt_eq (some j) i = j == i

abbrev pub is_child : ℕ → Proc → Bool
is_child cur p = opt_eq p.parent cur

-- `exit` at the process in slot `i`: a child goes to init, which is woken if the child is a zombie.
unfoldable pub adopt_at : ℕ → Option ℕ → ℕ → List Proc → List Proc
adopt_at cur init i ps = elim (get_elem? ps i) [
  | none ↦ ps
  | some p ↦
      let qs = modify ps i (λ q. record q { parent = init }) in
      if is_child cur p then (if is_zombie p.state then wakeup1 (chan_of init) qs else qs) else ps
]

-- The loop over the table; `n` entries from `i` on are left.
unfoldable pub adopt : ℕ → Option ℕ → ℕ → ℕ → List Proc → List Proc
adopt cur init zero i ps = ps
adopt cur init (suc n) i ps = adopt cur init n (suc i) (adopt_at cur init i ps)

-- The part of `exit` under the table's lock, up to the entry into the scheduler.
unfoldable pub leave : ℕ → Option ℕ → Option ℕ → List Proc → List Proc
leave cur parent init ps =
    modify (adopt cur init 64 0 (wakeup1 (chan_of parent) ps)) cur
      (λ p. record p { state = zombie })

-- `exit`
unfoldable pub exit : ℕ → Kernel → Option Kernel
unfolding close_fds leave
exit cur k = elim (get_elem? (procs_of k) cur) [
  | none ↦ none
  | some p ↦ if opt_eq k.table.initproc cur then none else elim (close_fds p.ofile k) [
    | none ↦ none
    | some k1 ↦ elim p.cwd [
      | none ↦ none
      | some dir ↦
          let k2 = fs_calls (begin_op ∷ iput dir ∷ end_op ∷ []) k1 in
          let ps =
            modify (procs_of k2) cur
              (λ q. record q { ofile = map (λ _. none) q.ofile; cwd = none }) in
          some (with_procs k2 (leave cur p.parent k2.table.initproc ps))
    ]
  ]
]

-- How a scan of `wait` ends: with a child's id, with -1, or asleep.
pub data WaitEnd : Type 0 where
  reaped : ℕ → WaitEnd
  no_child : WaitEnd
  sleeps : WaitEnd

-- The slot of a child that has been waited for.
abbrev pub freed : Proc → Proc
freed p = record p { kstack = none; pid = 0; parent = none; killed = false; state = unused }

-- `sleep`, up to the entry into the scheduler, and what follows the wake-up.
unfoldable pub fall_asleep : ℕ → Chan → List Proc → List Proc
fall_asleep cur c ps = modify ps cur (λ p. record p { chan = c; state = sleeping })

unfoldable pub awake : ℕ → List Proc → List Proc
awake cur ps = modify ps cur (λ p. record p { chan = null })

abbrev pub is_dead_child : ℕ → Proc → Bool
is_dead_child cur p = is_child cur p && is_zombie p.state

-- `freevm` of vm.c: the memory after it, or `none` as it panics.
module _ (freevm : Option ℕ → Kmem → Option Kmem) where
  -- The reaping of the child in slot `i`.
  unfoldable pub reap : ℕ → Proc → Kernel → Option (WaitEnd × Kernel)
  reap i p k = elim p.kstack [
    | none ↦ none
    | some v ↦ elim (kfree k.mem v) [
      | none ↦ none
      | some m ↦ elim (freevm p.pgdir m) [
        | none ↦ none
        | some m' ↦
            some (reaped p.pid, record (with_procs k (modify (procs_of k) i freed)) { mem = m' })
      ]
    ]
  ]

  -- One turn of the loop of `wait`: the scan stops at the first child that is a zombie; otherwise it
  -- has seen whether there is a child at all.
  unfoldable pub wait : ℕ → Kernel → Option (WaitEnd × Kernel)
  unfolding reap fall_asleep
  wait cur k = elim (get_elem? (procs_of k) cur) [
    | none ↦ none
    | some me ↦ elim (find_index (is_dead_child cur) (procs_of k)) [
      | some i ↦ elim (get_elem? (procs_of k) i) [ none ↦ none | some p ↦ reap i p k ]
      | none ↦ elim (find_index (is_child cur) (procs_of k)) [
        | none ↦ some (no_child, k)
        | some j ↦
            if me.killed
            then some (no_child, k)
            else some (sleeps, with_procs k (fall_asleep cur (proc_at cur) (procs_of k)))
      ]
    ]
  ]
