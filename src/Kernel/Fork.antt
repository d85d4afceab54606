-- ===== src/Kernel/Fork.antt =====
-- `fork` of project01/xv6-public/proc.c.
use ele.Common.{
  ℕ, ◌+◌, ◌≡◌, ◌⊎◌, All, sym, ap, ◌∙◌, true, false, Option, none, some, List, [], ◌∷◌, arith, ℤ,
  pos, negsuc, get_elem?, get_elem?-set_ne, set, modify, modify-eq-set, int_of_uint, ℕ_discrete,
}
use mathlib.Core.Bool.{true≢false}
use mathlib.Core.Option.{some_inj}
use ele.Kalloc.{Kmem, kalloc, kfree}
use ele.Proc.{Proc, unused, runnable, is_unused}
use ele.File.{File}
use ele.File.Refs.{ref_at}
use ele.Kernel.{
  Kernel, procs_of, with_procs, fs_calls, idup, allocproc, fork, fork_with, fork_into, finish_fork,
  undo_fork, child_of, dup_fds,
}
use ele.Kernel.Descriptors.{count_fd}

-- Every process in use stands in the table as before.
abbrev pub SameUsed : List Proc → List Proc → Type 0
SameUsed ps qs =
    (j : ℕ) (q : Proc)
    → get_elem? ps j ≡ some q
    → is_unused q.state ≡ false
    → get_elem? qs j ≡ some q

-- A new child of the process `p` at `cur`: it is in L0, and arrives at the clock's present time.
pub record IsChild (k : Kernel) (cur : ℕ) (p q : Proc) : Type 0 where
  pub ready : q.state ≡ runnable
  pub id : q.pid ≡ k.table.nextpid
  pub parent : q.parent ≡ some cur
  pub returns_zero : q.tf.eax ≡ 0
  pub registers : q.tf.rest ≡ p.tf.rest
  pub size : q.sz ≡ p.sz
  pub directory : q.cwd ≡ p.cwd
  pub descriptors : q.ofile ≡ p.ofile
  pub queue : (q.q_lv ≡ 0) × (q.tq ≡ 0) × (q.priority ≡ 3)
  pub arrival : q.time ≡ int_of_uint k.table.ticks

-- Why `fork` fails: there is no free slot, no page for the stack, or no memory for the copy.
abbrev pub HasFailed : (Option ℕ → ℕ → Kmem → Option ℕ × Kmem) → Kernel → Proc → Type 0
HasFailed copyuvm k p =
    All (λ q. is_unused q.state ≡ false) (procs_of k)
    ⊎ (((kalloc k.mem).0 ≡ none) ⊎ ((copyuvm p.pgdir p.sz (kalloc k.mem).1).0 ≡ none))

-- The outcomes of `fork` by process `p` at `cur`.
pub data Forked (copyuvm : Option ℕ → ℕ → Kmem → Option ℕ × Kmem) (k : Kernel) (cur : ℕ) (p : Proc)
    (r : ℤ) (k' : Kernel) : Type 0 where
  failed :
      r ≡ negsuc 0
      → HasFailed copyuvm k p
      → SameUsed (procs_of k) (procs_of k')
      → k'.files ≡ k.files
      → Forked copyuvm k cur p r k'
  born :
      (i : ℕ) (old q : Proc)
      → r ≡ pos k.table.nextpid
      → get_elem? (procs_of k) i ≡ some old
      → is_unused old.state ≡ true
      → get_elem? (procs_of k') i ≡ some q
      → IsChild k cur p q
      → SameUsed (procs_of k) (procs_of k')
      → ((g : ℕ) → ref_at k'.files g ≡ ref_at k.files g + count_fd g p.ofile)
      → Forked copyuvm k cur p r k'

-- A write to a free slot leaves the processes in use.
pub SameUsed-set :
    (ps : List Proc) (i : ℕ) (old q : Proc)
    → get_elem? ps i ≡ some old
    → is_unused old.state ≡ true
    → SameUsed ps (set ps i q)
SameUsed-set ps i old q here free j r g used = elim (ℕ_discrete i j) [
  | yes same ↦ absurd (
      true≢false (
        sym free
        ∙ ap (λ (z : Proc). is_unused z.state) (some_inj.0 (sym (rw same at here) ∙ g))
        ∙ used))
  | no off ↦ get_elem?-set_ne ps q off ∙ g
]

-- The kernel after a fork, with the table `ps` and the files `fs`.
abbrev pub forked : Kernel → ℕ → List Proc → List File → Kernel
forked k dir ps fs = fs_calls (idup dir ∷ []) (record (with_procs k ps) { files = fs })

finish_fork_step :
    (cur : ℕ) (p np : Proc) (i d dir : ℕ) (k : Kernel) (fs : List File) (fds : List (Option ℕ))
    → p.cwd ≡ some dir
    → dup_fds p.ofile np.ofile k.files ≡ some (fds, fs)
    → finish_fork cur p i np d k
      ≡ some (
        pos np.pid,
        forked k dir (modify (procs_of k) i (child_of cur p d (int_of_uint k.table.ticks) fds)) fs,
      )
unfolding finish_fork
finish_fork_step cur p np i d dir k fs fds e f = ground arith

pub finish_fork_lem :
    (cur : ℕ) (p np : Proc) (i d dir : ℕ) (k : Kernel) (fs : List File) (fds : List (Option ℕ))
    → p.cwd ≡ some dir
    → dup_fds p.ofile np.ofile k.files ≡ some (fds, fs)
    → get_elem? (procs_of k) i ≡ some np
    → finish_fork cur p i np d k
      ≡ some (
        pos np.pid,
        forked k dir (set (procs_of k) i (child_of cur p d (int_of_uint k.table.ticks) fds np)) fs,
      )
finish_fork_lem cur p np i d dir k fs fds e f g =
    finish_fork_step cur p np i d dir k fs fds e f
    ∙ ap (λ ps. some (pos np.pid, forked k dir ps fs)) (modify-eq-set (procs_of k) i _ g)

pub undo_fork_lem :
    (i v : ℕ) (np : Proc) (k : Kernel) (m : Kmem)
    → np.kstack ≡ some v
    → kfree k.mem v ≡ some m
    → get_elem? (procs_of k) i ≡ some np
    → undo_fork i np k
      ≡ some (
        negsuc 0,
        record (with_procs k
            (set (procs_of k) i (record np { pgdir = none; kstack = none; state = unused }))) {
              mem = m;
            },
      )
unfolding undo_fork
undo_fork_lem i v np k m e f g =
    rw (e, undo_fork, f)
      (ap (λ ps. some (negsuc 0, record (with_procs k ps) { mem = m }))
        (modify-eq-set (procs_of k) i _ g))

module _ (copyuvm : Option ℕ → ℕ → Kmem → Option ℕ × Kmem) (cur : ℕ) (p : Proc) where
  pub fork_lem :
      (k : Kernel)
      → get_elem? (procs_of k) cur ≡ some p
      → fork copyuvm cur k ≡ fork_with copyuvm cur p (allocproc k)
  unfolding fork
  fork_lem k here = rw (here, fork)

  -- The memory after the copy.
  abbrev pub copied : Kernel → Kernel
  copied k = record k { mem = (copyuvm p.pgdir p.sz k.mem).1 }

  pub fork_into-failed :
      (i : ℕ) (np : Proc) (k : Kernel)
      → get_elem? (procs_of k) i ≡ some np
      → (copyuvm p.pgdir p.sz k.mem).0 ≡ none
      → fork_into copyuvm cur p i k ≡ undo_fork i np (copied k)
  unfolding fork_into
  fork_into-failed i np k f c = rw (f, fork_into, c)

  pub fork_into-copied :
      (i d : ℕ) (np : Proc) (k : Kernel)
      → get_elem? (procs_of k) i ≡ some np
      → (copyuvm p.pgdir p.sz k.mem).0 ≡ some d
      → fork_into copyuvm cur p i k ≡ finish_fork cur p i np d (copied k)
  unfolding fork_into
  fork_into-copied i d np k f c = rw (f, fork_into, c)
