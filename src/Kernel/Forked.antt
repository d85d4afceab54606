-- ===== src/Kernel/Forked.antt =====
-- What `fork` of project01/xv6-public/proc.c comes to, on every path.
use ele.Common.{
  ℕ, ◌+◌, ◌<◌, ◌≤◌, ◌≡◌, refl, sym, subst, ◌∙◌, Bool, true, false, Option, none, some, List, ℤ,
  length, length-set, get_elem?, get_elem?-lt, get_elem?-set_self, set, set-set, Option-cases, inl,
  inr, All, All-get_elem?, IsFirst, Returns,
}
use ele.Kalloc.{Kmem, kern_base, kalloc, kfree}
use ele.Kalloc.Laws
use ele.Kalloc.Laws.{IsPage, kalloc-IsValid, kfree_page, kernel_end-kalloc}
use ele.Proc.{Proc, is_unused}
use ele.Kernel.{Kernel, procs_of, allocproc, fork, fork_with, fork_into}
use ele.Kernel.Table.{IsTable, IsTable-new}
use ele.Kernel.Birth.{
  Allocated, full, no_stack, made, allocproc-Allocated, newborn, stillborn, with_slot, mem_of,
  free_slot,
}
use ele.Kernel.Descriptors.{IsLive, overlay, overlay-closed, dup_fds_lem}
use ele.Kernel.Fork.{
  SameUsed, SameUsed-set, Forked, failed, born, finish_fork_lem, undo_fork_lem, copied, fork_lem,
  fork_into-failed, fork_into-copied,
}

-- What a call of `fork` by process `p` at `cur` in kernel `k` comes to.
abbrev pub Result :
    (Option ℕ → ℕ → Kmem → Option ℕ × Kmem) → Kernel → ℕ → Proc → Option (ℤ × Kernel) → Type 0
Result copyuvm k cur p o =
    Returns o (λ s. IsTable (procs_of s.1) s.1.table.nextpid × Forked copyuvm k cur p s.0 s.1)

-- A free slot has no open descriptors, as `exit` has closed them.
abbrev pub IsClean : Bool → List (Option ℕ) → Type 0
IsClean false os = Unit
IsClean true os = All (λ o. o ≡ none) os

module _ (copyuvm : Option ℕ → ℕ → Kmem → Option ℕ × Kmem)
    (keeps : (d : Option ℕ) (sz : ℕ) (m : Kmem) → (copyuvm d sz m).1.kernel_end ≡ m.kernel_end)
    (k : Kernel) (cur dir : ℕ) (p : Proc) (table : IsTable (procs_of k) k.table.nextpid)
    (mem : Laws.IsValid k.mem) (here : get_elem? (procs_of k) cur ≡ some p) (cwd : p.cwd ≡ some dir)
    (live : All (IsLive k.files) p.ofile)
    (sizes : All (λ q. length p.ofile ≡ length q.ofile) (procs_of k))
    (clean : All (λ q. IsClean (is_unused q.state) q.ofile) (procs_of k)) where
  module _ (i v : ℕ) (first : IsFirst free_slot (procs_of k) i)
      (page : (kalloc k.mem).0 ≡ some v) where
    abbrev old : Proc
    old = first.item

    abbrev np : Proc
    np = newborn k.table v old

    abbrev k1 : Kernel
    k1 = with_slot k i np (mem_of k)

    slot : get_elem? (procs_of k1) i ≡ some np
    slot = get_elem?-set_self (procs_of k) i np (get_elem?-lt (procs_of k) i old first.found)

    end_same : (copied copyuvm cur p k1).mem.kernel_end ≡ k.mem.kernel_end
    end_same = keeps p.pgdir p.sz (mem_of k) ∙ kernel_end-kalloc k.mem

    -- The page of the stack can be given back after the copy.
    stack_back : (m : Kmem) × (kfree (copied copyuvm cur p k1).mem v ≡ some m)
    stack_back =
        let got = kalloc-IsValid {m = k.mem} {m' = mem_of k} v mem (λ j. (page j, mem_of k)) in
        let e = sym end_same in
        (
          _,
          kfree_page (copied copyuvm cur p k1).mem v (subst (λ n. kern_base ≤ n) e mem.kernel)
              (subst (λ n. IsPage n v) e got.1),
        )

    -- Two writes to the slot leave the processes in use.
    same_used : (q : Proc) → SameUsed (procs_of k) (set (set (procs_of k) i np) i q)
    same_used q =
        subst (SameUsed (procs_of k)) (sym (set-set (procs_of k) i np q))
          (SameUsed-set (procs_of k) i old q first.found first.passes)

    IsTable-after :
        (q : Proc)
        → q.pid ≡ k.table.nextpid
        → IsTable (set (set (procs_of k) i np) i q) (k.table.nextpid + 1)
    IsTable-after q id =
        subst (λ ps. IsTable ps (k.table.nextpid + 1)) (sym (set-set (procs_of k) i np q))
          (IsTable-new (procs_of k) k.table.nextpid i q table id)

    undone :
        (copyuvm p.pgdir p.sz (mem_of k)).0 ≡ none
        → Result copyuvm k cur p (fork_into copyuvm cur p i k1)
    undone nothing =
        let (m, back) = stack_back in
        let e =
          fork_into-failed copyuvm cur p i np k1 slot nothing
          ∙ undo_fork_lem i v np (copied copyuvm cur p k1) m refl back slot in
        rw e (IsTable-after _ refl, failed refl (inr (inr nothing)) (same_used _) refl)

    made_child :
        (d : ℕ)
        → (copyuvm p.pgdir p.sz (mem_of k)).0 ≡ some d
        → Result copyuvm k cur p (fork_into copyuvm cur p i k1)
    made_child d copy =
        let fits =
          All-get_elem? (λ q. length p.ofile ≡ length q.ofile) (procs_of k) i sizes first.found in
        let closed : All (λ o. o ≡ none) old.ofile =
          subst (λ b. IsClean b old.ofile) first.passes
            (All-get_elem? (λ q. IsClean (is_unused q.state) q.ofile) (procs_of k) i clean
              first.found) in
        let (fs, dup, refs) = dup_fds_lem p.ofile old.ofile k.files fits live in
        let e =
          fork_into-copied copyuvm cur p i d np k1 slot copy
          ∙ finish_fork_lem cur p np i d dir (copied copyuvm cur p k1) fs
              (overlay p.ofile old.ofile) cwd dup slot in
        rw e (
          IsTable-after _ refl,
          born i old _ refl first.found first.passes
              (get_elem?-set_self (set (procs_of k) i np) i _ (
                subst (λ n. i < n) (sym (length-set (procs_of k) i np))
                  (get_elem?-lt (procs_of k) i old first.found)))
              (record {
                ready = refl;
                id = refl;
                parent = refl;
                returns_zero = refl;
                registers = refl;
                size = refl;
                directory = refl;
                descriptors = overlay-closed p.ofile old.ofile fits closed;
                arrival = refl;
                queue = (refl, refl, refl);
              })
              (same_used _) refs,
        )

  with-Forked :
      (r : Option ℕ × Kernel) → Allocated k r → Result copyuvm k cur p (fork_with copyuvm cur p r)
  unfolding fork_with
  with-Forked r (full none_free e) =
      rw e (table, failed refl (inl none_free) (λ j q g used. g) refl)
  with-Forked r (no_stack i first page e) = rw e (
    IsTable-new (procs_of k) k.table.nextpid i (stillborn k.table first.item) table refl,
    failed refl (inr (inl page)) (SameUsed-set (procs_of k) i first.item _ first.found first.passes)
        refl,
  )
  with-Forked r (made i v first page e) = elim (Option-cases (copyuvm p.pgdir p.sz (mem_of k)).0) [
    | inl nothing ↦ rw e (undone i v first page nothing)
    | inr (d, copy) ↦ rw e (made_child i v first page d copy)
  ]

  -- `fork` never faults, and comes to one of two ends, whichever of its three allocations fails. Given
  -- are: a table in order, a valid allocator, a parent with a working directory whose open
  -- descriptors refer to files with references, descriptor tables of one length that are closed in free
  -- slots, and a `copyuvm` that leaves the end of the kernel alone. Either it returns -1, and there was no free
  -- slot, no page for the stack or no memory for the copy; or it returns the id that was next, and a slot that
  -- was free holds a runnable child of the caller with that id, 0 as the result of its own call, the
  -- parent's registers, size, directory and descriptors, in L0 with a new quantum, priority number 3 and the
  -- clock's time as its arrival; and each file's reference count has grown by the number of
  -- descriptors that name it. In both cases every
  -- process that was in use is unchanged, and the table is in order.
  pub fork-Forked : Result copyuvm k cur p (fork copyuvm cur k)
  fork-Forked =
      rw (fork_lem copyuvm cur p k here) (with-Forked (allocproc k) (allocproc-Allocated k))
