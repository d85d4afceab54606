-- ===== src/Tasks/Panic.antt =====
-- `fork` of project02/xv6-public/proc.c as the memory runs out.
use ele.Common.{
  ℕ, ◌+◌, ◌<◌, ◌≡◌, ap, ◌∙◌, none, some, List, arith, get_elem?, get_elem?-modify, modify,
  find_index,
}
use ele.Kalloc.{Kmem, can_free, kalloc, kfree}
use ele.Proc.{is_unused}
use ele.Tasks.{Process}
use ele.Tasks.Birth.{
  System, taken, stacked, alloc_with, allocproc, kfree_opt, undo_fork, fork_into, fork_with, fork,
}

at_modified :
    (ps : List Process) (i : ℕ) (f : Process → Process) (p : Process)
    → get_elem? ps i ≡ some p
    → get_elem? (modify ps i f) i ≡ some (f p)
at_modified ps i f p e = get_elem?-modify ps i i f ∙ rw e (ground arith)

kfree_null : (m : Kmem) → 0 < m.kernel_end → kfree m 0 ≡ none
unfolding kfree can_free
kfree_null m h = ground arith

module _ (copyuvm : ℕ → ℕ → Kmem → ℕ × Kmem) (k : System) (cur i v : ℕ) (p old : Process)
    (here : get_elem? k.procs cur ≡ some p)
    (free : find_index (λ (q : Process). is_unused q.state) k.procs ≡ some i)
    (slot : get_elem? k.procs i ≡ some old) (page : (kalloc k.mem).0 ≡ some v) where
  abbrev np : Process
  np = stacked (some v) (taken k.nextpid old)

  abbrev k1 : System
  k1 = record k {
    procs = modify (modify k.procs i (taken k.nextpid)) i (stacked (some v));
    nextpid = k.nextpid + 1;
    mem = (kalloc k.mem).1;
  }

  allocproc-k1 : allocproc k ≡ (some i, k1)
  unfolding allocproc alloc_with
  allocproc-k1 =
      rw (allocproc, free)
        (ap
          (λ o.
            alloc_with i
              (record k { procs = modify k.procs i (taken k.nextpid); nextpid = k.nextpid + 1 })
              (o, (kalloc k.mem).1))
          page)

  slot_now : get_elem? k1.procs i ≡ some np
  slot_now =
      at_modified (modify k.procs i (taken k.nextpid)) i (stacked (some v)) (taken k.nextpid old)
        (at_modified k.procs i (taken k.nextpid) old slot)

  fork-into : fork copyuvm cur k ≡ fork_into copyuvm cur p i k1
  unfolding fork fork_with
  fork-into = rw (fork, here) (ap (fork_with copyuvm cur p) allocproc-k1)

  undo_none :
      (m : Kmem) → kfree_opt m np.kstack ≡ none → undo_fork i np (record k1 { mem = m }) ≡ none
  unfolding undo_fork
  undo_none m h = rw (undo_fork, h)

  -- `fork` panics as the parent's memory cannot be copied, where it means to return -1: given are a running process,
  -- a free slot whose kernel stack pointer is null, as `wait` leaves it, a page for the new kernel
  -- stack, and a failure of `copyuvm` with the end of the kernel above address 0.
  pub fork_panics :
      old.kstack ≡ none
      → (copyuvm p.pgdir p.sz (kalloc k.mem).1).0 ≡ 0
      → 0 < (copyuvm p.pgdir p.sz (kalloc k.mem).1).1.kernel_end
      → fork copyuvm cur k ≡ none
  unfolding fork_into taken
  fork_panics null fails end =
      let m = (copyuvm p.pgdir p.sz (kalloc k.mem).1).1 in
      let nothing : kfree_opt m np.kstack ≡ none = ap (kfree_opt m) null ∙ kfree_null m end in
      fork-into ∙ rw (fork_into, slot_now, fails) (undo_none m nothing)
