-- ===== src/Kernel/Birth.antt =====
-- `allocproc` and `fork` of project01/xv6-public/proc.c.
use ele.Common.{
  ℕ, ◌+◌, ◌≡◌, ap, ◌∙◌, Bool, false, Option, none, some, List, get_elem?, set, modify,
  modify-eq-set, modify-set, find_index, find_index-some, find_index-none, IsFirst, Option-cases,
  inl, inr, All,
}
use ele.Kalloc.{Kmem, kalloc}
use ele.Proc.{Proc, Ptable, unused, is_unused}
use ele.Kernel.{Kernel, procs_of, claimed, allocproc}

abbrev pub free_slot : Proc → Bool
free_slot p = is_unused p.state

-- The process in its slot after `allocproc`, with a stack or without one.
abbrev pub newborn : Ptable → ℕ → Proc → Proc
newborn t v p = record (claimed t p) { kstack = some v }

abbrev pub stillborn : Ptable → Proc → Proc
stillborn t p = record (claimed t p) { kstack = none; state = unused }

abbrev pub with_slot : Kernel → ℕ → Proc → Kmem → Kernel
with_slot k i q m = record k {
  table = record (k.table) { procs = set (procs_of k) i q; nextpid = k.table.nextpid + 1 };
  mem = m;
}

-- The memory after the stack has been asked for.
abbrev pub mem_of : Kernel → Kmem
mem_of k = (kalloc k.mem).1

-- The outcomes of `allocproc`: no free slot, no page for the stack, or a new process.
pub data Allocated (k : Kernel) (r : Option ℕ × Kernel) : Type 0 where
  full : All (λ p. is_unused p.state ≡ false) (procs_of k) → r ≡ (none, k) → Allocated k r
  no_stack :
      (i : ℕ) (first : IsFirst free_slot (procs_of k) i)
      → (kalloc k.mem).0 ≡ none
      → r ≡ (none, with_slot k i (stillborn k.table first.item) (mem_of k))
      → Allocated k r
  made :
      (i v : ℕ) (first : IsFirst free_slot (procs_of k) i)
      → (kalloc k.mem).0 ≡ some v
      → r ≡ (some i, with_slot k i (newborn k.table v first.item) (mem_of k))
      → Allocated k r

allocproc-full : (k : Kernel) → find_index free_slot (procs_of k) ≡ none → allocproc k ≡ (none, k)
unfolding allocproc
allocproc-full k e = rw (e, allocproc)

modify-twice :
    (ps : List Proc) (i : ℕ) (f g : Proc → Proc) {p : Proc}
    → get_elem? ps i ≡ some p
    → modify (modify ps i f) i g ≡ set ps i (g (f p))
modify-twice ps i f g {p} e =
    ap (λ l. modify l i g) (modify-eq-set ps i f e) ∙ modify-set ps i (f p) g

-- The kernel with the table `ps`, the next id taken and the memory after `kalloc`.
abbrev taken : Kernel → List Proc → Kernel
taken k ps = record k {
  table = record (k.table) { procs = ps; nextpid = k.table.nextpid + 1 };
  mem = mem_of k;
}

module _ (k : Kernel) (i : ℕ) (first : IsFirst free_slot (procs_of k) i)
    (e : find_index free_slot (procs_of k) ≡ some i) where
  allocproc-no_stack :
      (kalloc k.mem).0 ≡ none
      → allocproc k ≡ (none, with_slot k i (stillborn k.table first.item) (mem_of k))
  unfolding allocproc
  allocproc-no_stack page =
      rw (e, allocproc, page)
        (ap (λ ps. (none, taken k ps)) (modify-twice (procs_of k) i _ _ first.found))

  allocproc-made :
      (v : ℕ)
      → (kalloc k.mem).0 ≡ some v
      → allocproc k ≡ (some i, with_slot k i (newborn k.table v first.item) (mem_of k))
  unfolding allocproc
  allocproc-made v page =
      rw (e, allocproc, page)
        (ap (λ ps. (some i, taken k ps)) (modify-twice (procs_of k) i _ _ first.found))

pub allocproc-Allocated : (k : Kernel) → Allocated k (allocproc k)
allocproc-Allocated k = elim (Option-cases (find_index free_slot (procs_of k))) [
  | inl e ↦ full (find_index-none free_slot (procs_of k) e) (allocproc-full k e)
  | inr (i, e) ↦
      let first = find_index-some free_slot (procs_of k) i e in
      elim (Option-cases (kalloc k.mem).0) [
        | inl empty ↦ no_stack i first empty (allocproc-no_stack k i first e empty)
        | inr (v, page) ↦ made i v first page (allocproc-made k i first e v page)
      ]
]
