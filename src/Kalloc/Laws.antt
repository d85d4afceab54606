-- ===== src/Kalloc/Laws.antt =====
-- The allocator of kalloc.c: what its free list holds.
use ele.Common.{
  ℕ, zero, suc, ◌+◌, ◌-◌, ◌/◌, ◌%◌, ◌*◌, ◌≤◌, ◌<◌, ◌≡◌, refl, ◌≢◌, true, false, some, List, [], ◌∷◌,
  ◌++◌, ap, arith, leb, leb→le, Bool-cases, inl, inr, max, ◌∙◌, All, All-mono, Distinct,
}
use native.Mathlib.Numerals.{add-one}
use native.Mathlib.Nat.{le_refl}
use ele.Kalloc.{
  page_size, kern_base, phys_top, page_round_up, Kmem, can_free, kfree, kalloc, free_pages,
  freerange,
}

-- An address that is a whole page of memory for allocation.
pub record IsPage (kernel_end v : ℕ) : Type 0 where
  pub aligned : v % page_size ≡ 0
  pub above : kernel_end ≤ v
  pub below : v < kern_base + phys_top

pub record IsValid (m : Kmem) : Type 0 where
  pub kernel : kern_base ≤ m.kernel_end
  pub pages : All (IsPage m.kernel_end) m.freelist
  pub apart : Distinct m.freelist

can_free_of_page :
    (m : Kmem) (v : ℕ) → kern_base ≤ m.kernel_end → IsPage m.kernel_end v → can_free m v ≡ true
unfolding can_free
can_free_of_page m v k p = ground arith

IsPage-of_can_free :
    (m : Kmem) (v : ℕ)
    → kern_base ≤ m.kernel_end
    → v < 0x1_0000_0000
    → can_free m v ≡ true
    → IsPage m.kernel_end v
unfolding can_free
IsPage-of_can_free m v k w c = ground arith

kalloc-some :
    (m m' : Kmem) (v : ℕ)
    → kalloc m ≡ (some v, m')
    → (m.freelist ≡ v ∷ m'.freelist) × (m'.kernel_end ≡ m.kernel_end)
unfolding kalloc
kalloc-some m m' v e = ground arith

-- From a valid allocator, `kalloc` hands out a whole page, which is no longer on the free list, and
-- leaves a valid allocator whose list is the rest.
pub kalloc-IsValid :
    {m m' : Kmem} (v : ℕ)
    → IsValid m
    → kalloc m ≡ (some v, m')
    → IsValid m'
      × IsPage m.kernel_end v
      × All (λ w. v ≢ w) m'.freelist
      × (m.freelist ≡ v ∷ m'.freelist)
kalloc-IsValid {m} {m'} v h e =
    let (cut, end) = kalloc-some m m' v e in
    let pages : All (IsPage m.kernel_end) (v ∷ m'.freelist) = rw cut at h.pages in
    let apart : Distinct (v ∷ m'.freelist) = rw cut at h.apart in
    (
      record { kernel = rw end h.kernel; pages = rw end pages.1; apart = apart.1 },
      pages.0,
      apart.0,
      cut,
    )

-- `kfree` accepts every page, whatever the free list holds.
pub kfree_page :
    (m : Kmem) (v : ℕ)
    → kern_base ≤ m.kernel_end
    → IsPage m.kernel_end v
    → kfree m v ≡ some (record m { freelist = v ∷ m.freelist })
unfolding kfree
kfree_page m v k p = rw (can_free_of_page m v k p)

pub kernel_end-kalloc : (m : Kmem) → (kalloc m).1.kernel_end ≡ m.kernel_end
unfolding kalloc
kernel_end-kalloc m = ground arith

kfree-IsValid :
    {m : Kmem} (v : ℕ)
    → IsValid m
    → IsPage m.kernel_end v
    → All (λ w. v ≢ w) m.freelist
    → (kfree m v ≡ some (record m { freelist = v ∷ m.freelist }))
      × IsValid (record m { freelist = v ∷ m.freelist })
unfolding kfree
kfree-IsValid {m} v h p n = (
  rw (can_free_of_page m v h.kernel p),
  record { kernel = h.kernel; pages = (p, h.pages); apart = (n, h.apart) },
)

-- A page that is not on the free list is accepted by `kfree`, the allocator stays valid, and the
-- next `kalloc` returns that page and restores the allocator.
pub kfree-kalloc :
    {m : Kmem} (v : ℕ)
    → IsValid m
    → IsPage m.kernel_end v
    → All (λ w. v ≢ w) m.freelist
    → (m' : Kmem) × (kfree m v ≡ some m') × IsValid m' × (kalloc m' ≡ (some v, m))
unfolding kalloc
kfree-kalloc {m} v h p n =
    let (done, valid) = kfree-IsValid v h p n in
    (record m { freelist = v ∷ m.freelist }, done, valid, refl)

-- The `n` pages from `p` on, the highest first.
abbrev pub pages_from : ℕ → ℕ → List ℕ
pages_from zero p = []
pages_from (suc n) p = (p + n * page_size) ∷ pages_from n p

pages_from-first :
    (n p : ℕ) (vs : List ℕ) → pages_from n (p + page_size) ++ (p ∷ vs) ≡ pages_from (suc n) p ++ vs
pages_from-first zero p vs = ap (λ q. q ∷ vs) (start p)
  where
    start : (p : ℕ) → p ≡ p + 0 * page_size
    start p = omega arith
pages_from-first (suc n) p vs =
    ap (λ q. q ∷ (pages_from n (p + page_size) ++ (p ∷ vs))) (onward n p)
    ∙ ap (λ l. (p + suc n * page_size) ∷ l) (pages_from-first n p vs)
  where
    onward : (n p : ℕ) → p + page_size + n * page_size ≡ p + suc n * page_size
    onward n p = omega arith

-- What a run of `freerange` leaves: every page that fits in the range is on the list, in front of the
-- pages that were there.
pub record Freed (vstart vend : ℕ) (m m' : Kmem) : Type 0 where
  pub valid : IsValid m'
  pub kernel : m'.kernel_end ≡ m.kernel_end
  pub added : m'.freelist ≡ pages_from ((vend - vstart) / page_size) vstart ++ m.freelist
  pub below : All (λ w. w + page_size ≤ max vstart vend) m'.freelist

free_pages-stop :
    (f p vend : ℕ) (m : Kmem)
    → leb (p + page_size) vend ≡ false
    → free_pages (suc f) p vend m ≡ some m
unfolding free_pages
free_pages-stop f p vend m e = ground arith

free_pages-step :
    (f p vend : ℕ) (m m' : Kmem)
    → leb (p + page_size) vend ≡ true
    → kfree m p ≡ some m'
    → free_pages (suc f) p vend m ≡ free_pages f (p + page_size) vend m'
unfolding free_pages
free_pages-step f p vend m m' e k = ground arith

abbrev Above : ℕ → Kmem → Type 0
Above p m = All (λ w. w + page_size ≤ p) m.freelist

free_pages-done :
    (p vend : ℕ) (m : Kmem)
    → IsValid m
    → Above p m
    → leb (p + page_size) vend ≡ false
    → Freed p vend m m
free_pages-done p vend m h old e = record {
  valid = h;
  kernel = refl;
  added = ap (λ n. pages_from n p ++ m.freelist) (none_fits p vend e);
  below = All-mono (λ w q. omega arith) m.freelist old;
}
  where
    none_fits : (p vend : ℕ) → leb (p + page_size) vend ≡ false → 0 ≡ (vend - p) / page_size
    none_fits p vend e = ground arith

-- One more page below what the later rounds free.
Freed-step :
    (p vend : ℕ) (m m' : Kmem)
    → leb (p + page_size) vend ≡ true
    → Freed (p + page_size) vend (record m { freelist = p ∷ m.freelist }) m'
    → Freed p vend m m'
Freed-step p vend m m' more d = record {
  valid = d.valid;
  kernel = d.kernel;
  added =
      d.added
      ∙ pages_from-first ((vend - (p + page_size)) / page_size) p m.freelist
      ∙ ap (λ n. pages_from n p ++ m.freelist) (one_more p vend (leb→le _ _ more));
  below = All-mono (λ w q. omega (arith, leb→le _ _ more)) m'.freelist d.below;
}
  where
    one_more :
        (p vend : ℕ)
        → p + page_size ≤ vend
        → suc ((vend - (p + page_size)) / page_size) ≡ (vend - p) / page_size
    one_more p vend h = omega (arith, h)

free_pages-Freed :
    (f p vend : ℕ) (m : Kmem)
    → IsValid m
    → p % page_size ≡ 0
    → m.kernel_end ≤ p
    → vend ≤ kern_base + phys_top
    → vend < p + suc f * page_size
    → Above p m
    → (m' : Kmem) × (free_pages (suc f) p vend m ≡ some m') × Freed p vend m m'
free_pages-Freed zero p vend m h a k v b old = elim (Bool-cases (leb (p + page_size) vend)) [
  | inr stop ↦ (m, free_pages-stop zero p vend m stop, free_pages-done p vend m h old stop)
  | inl more ↦ absurd (omega (arith, leb→le _ _ more))
]
free_pages-Freed (suc g) p vend m h a k v b old = elim (Bool-cases (leb (p + page_size) vend)) [
  | inr stop ↦ (m, free_pages-stop (suc g) p vend m stop, free_pages-done p vend m h old stop)
  | inl more ↦
      let top = leb→le _ _ more in
      let page : IsPage m.kernel_end p = record { aligned = a; above = k; below = omega arith } in
      let new : All (λ w. p ≢ w) m.freelist = All-mono (λ w q. omega arith) m.freelist old in
      let (freed, valid) = kfree-IsValid p h page new in
      let (m', ran, d) =
        free_pages-Freed g (p + page_size) vend (record m { freelist = p ∷ m.freelist }) valid
          (omega arith) (omega arith) v (omega arith)
          (le_refl (p + page_size), All-mono (λ w q. omega arith) m.freelist old) in
      (m', free_pages-step (suc g) p vend m _ more freed ∙ ran, Freed-step p vend m m' more d)
]

-- From a valid allocator whose free pages all lie below the first page boundary from `vstart`,
-- `freerange` over memory that ends by the top of physical memory does not panic and does not run
-- out of fuel. It adds every whole page between that boundary and `vend`, the highest in front, keeps the
-- pages that were free behind them, and leaves a valid allocator in which no free page reaches past `vend`
-- (or past the boundary, if that is higher).
pub freerange-Freed :
    {m : Kmem} (vstart vend : ℕ)
    → IsValid m
    → m.kernel_end ≤ page_round_up vstart
    → vend ≤ kern_base + phys_top
    → All (λ w. w + page_size ≤ page_round_up vstart) m.freelist
    → (m' : Kmem) × (freerange vstart vend m ≡ some m') × Freed (page_round_up vstart) vend m m'
unfolding freerange
freerange-Freed {m} vstart vend h k v old = rw add-one (
    free_pages-Freed (vend / page_size) (page_round_up vstart) vend m h (omega arith) k v
      (omega arith) old)
