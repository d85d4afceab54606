-- ===== src/Tasks/Reap.antt =====
-- `wait` of project02/xv6-public/proc.c gives back the kernel stack of each thread.
use mathlib.Core.Option.{some_inj, none-ne-some}
use ele.Common.{
  Bool, ℕ, ◌≡◌, refl, sym, ap, subst, ◌∙◌, true, false, Option, none, some, List, [], ◌∷◌, ◌++◌,
  arith, All, Option-cases, Bool-cases, inl, inr,
}
use ele.Kalloc.{Kmem, kfree}
use ele.Proc.{is_unused}
use ele.Thread.{Thread}
use ele.Tasks.Birth.{kfree_opt, freed_thread, free_threads}

-- The kernel stacks of the threads in use, a null pointer as address 0.
abbrev pub stack_of : Option ℕ → ℕ
stack_of none = 0
stack_of (some v) = v

abbrev pub listed : Bool → ℕ → List ℕ → List ℕ
listed true v vs = vs
listed false v vs = v ∷ vs

abbrev pub stacks : List Thread → List ℕ
stacks [] = []
stacks (t ∷ ts) = listed (is_unused t.state) (stack_of t.kstack) (stacks ts)

kfree-freelist : (m m' : Kmem) (v : ℕ) → kfree m v ≡ some m' → m'.freelist ≡ v ∷ m.freelist
unfolding kfree
kfree-freelist m m' v e = ground arith

kfree_opt-freelist :
    (m m' : Kmem) (o : Option ℕ) → kfree_opt m o ≡ some m' → m'.freelist ≡ stack_of o ∷ m.freelist
unfolding kfree_opt
kfree_opt-freelist m m' none e = kfree-freelist m m' 0 e
kfree_opt-freelist m m' (some v) e = kfree-freelist m m' v e

module _ (t : Thread) (ts : List Thread) (m : Kmem) where
  after_none : free_threads ts m ≡ none → free_threads (t ∷ ts) m ≡ none
  unfolding free_threads
  after_none h = rw (free_threads, h)

  after_unused :
      (vs : List Thread) (m1 : Kmem)
      → free_threads ts m ≡ some (vs, m1)
      → is_unused t.state ≡ true
      → free_threads (t ∷ ts) m ≡ some (t ∷ vs, m1)
  unfolding free_threads
  after_unused vs m1 h u = rw (free_threads, h, u)

  after_fault :
      (vs : List Thread) (m1 : Kmem)
      → free_threads ts m ≡ some (vs, m1)
      → is_unused t.state ≡ false
      → kfree_opt m1 t.kstack ≡ none
      → free_threads (t ∷ ts) m ≡ none
  unfolding free_threads
  after_fault vs m1 h u k = rw (free_threads, h, u, k)

  after_freed :
      (vs : List Thread) (m1 m2 : Kmem)
      → free_threads ts m ≡ some (vs, m1)
      → is_unused t.state ≡ false
      → kfree_opt m1 t.kstack ≡ some m2
      → free_threads (t ∷ ts) m ≡ some (freed_thread t ∷ vs, m2)
  unfolding free_threads
  after_freed vs m1 m2 h u k = rw (free_threads, h, u, k)

-- What has become of the threads and the free pages.
abbrev pub Freed : List Thread → Kmem → List Thread × Kmem → Type 0
Freed ts m r =
    All (λ (t : Thread). is_unused t.state ≡ true) r.0 × (r.1.freelist ≡ stacks ts ++ m.freelist)

-- When the loop of `wait` over the threads does not panic, no thread is in use afterwards, and the free pages are
-- those of before with the kernel stack of each thread that was in use put in front, the last
-- thread's first.
pub free_threads_lem :
    (ts : List Thread) (m : Kmem) (r : List Thread × Kmem)
    → free_threads ts m ≡ some r
    → Freed ts m r
unfolding free_threads
free_threads_lem [] m r e = subst (Freed [] m) (some_inj.0 e) (tt, refl)
free_threads_lem (t ∷ ts) m r e = elim (Option-cases (free_threads ts m)) [
  | inl h ↦ absurd (none-ne-some r (sym (after_none t ts m h) ∙ e))
  | inr ((vs, m1), h) ↦
      let (all, pages) = free_threads_lem ts m (vs, m1) h in
      elim (Bool-cases (is_unused t.state)) [
        | inl u ↦ subst (Freed (t ∷ ts) m) (some_inj.0 (sym (after_unused t ts m vs m1 h u) ∙ e)) (
          (u, all),
          pages ∙ ap (λ b. listed b (stack_of t.kstack) (stacks ts) ++ m.freelist) (sym u),
        )
        | inr u ↦ elim (Option-cases (kfree_opt m1 t.kstack)) [
          | inl k ↦ absurd (none-ne-some r (sym (after_fault t ts m vs m1 h u k) ∙ e))
          | inr (m2, k) ↦
              subst (Freed (t ∷ ts) m) (some_inj.0 (sym (after_freed t ts m vs m1 m2 h u k) ∙ e)) (
                (refl, all),
                kfree_opt-freelist m1 m2 t.kstack k
                    ∙ ap (λ l. stack_of t.kstack ∷ l) pages
                    ∙ used u,
              )
        ]
      ]
]
  where
    used :
        is_unused t.state ≡ false
        → (stack_of t.kstack ∷ (stacks ts ++ m.freelist)) ≡ stacks (t ∷ ts) ++ m.freelist
    used u = ap (λ b. listed b (stack_of t.kstack) (stacks ts) ++ m.freelist) (sym u)
