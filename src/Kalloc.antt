-- ===== src/Kalloc.antt =====
-- kalloc.c: the allocator of physical pages. The free list, linked through the pages themselves, is
-- the list of their addresses; `none` is a panic. Filling a freed page with junk touches only that
-- page's bytes, which no one may read, and the allocator's lock makes each call atomic.
pub mod Laws
mod Tests
use ele.Common.{
  ℕ, zero, suc, ◌+◌, ◌-◌, ◌/◌, ◌%◌, ◌*◌, Bool, true, false, ◌||◌, not, Option, none, some, List, [],
  ◌∷◌, ltb, leb, ◌==◌, if◌then◌else◌,
}

abbrev pub page_size : ℕ
page_size = 4096

-- memlayout.h: the kernel's addresses start at `kern_base`, physical memory ends at `phys_top`.
abbrev pub kern_base : ℕ
kern_base = 0x8000_0000

abbrev pub phys_top : ℕ
phys_top = 0xE00_0000

-- `V2P` on a `uint`: a subtraction that wraps.
abbrev pub v2p : ℕ → ℕ
v2p v = (v + 0x1_0000_0000 - kern_base) % 0x1_0000_0000

unfoldable pub page_round_up : ℕ → ℕ
page_round_up a = (a + page_size - 1) / page_size * page_size

pub record Kmem : Type 0 where
  pub kernel_end : ℕ  -- the linker's symbol `end`
  pub freelist : List ℕ

-- What `kfree` accepts.
unfoldable pub can_free : Kmem → ℕ → Bool
can_free m v = not (not (v % page_size == 0) || (ltb v m.kernel_end || leb phys_top (v2p v)))

unfoldable pub kfree : Kmem → ℕ → Option Kmem
unfolding can_free
kfree m v = if can_free m v then some (record m { freelist = v ∷ m.freelist }) else none

unfoldable pub kalloc : Kmem → Option ℕ × Kmem
kalloc m = elim m.freelist [ [] ↦ (none, m) | v ∷ rest ↦ (some v, record m { freelist = rest }) ]

-- The loop of `freerange`; `none` also stands for fuel that has run out.
unfoldable pub free_pages : ℕ → ℕ → ℕ → Kmem → Option Kmem
free_pages zero p vend m = none
free_pages (suc fuel) p vend m = elim (leb (p + page_size) vend) [
  | false ↦ some m
  | true ↦ elim (kfree m p) [ none ↦ none | some m' ↦ free_pages fuel (p + page_size) vend m' ]
]

-- Each round moves up by a page, so the pages below `vend` bound the rounds.
unfoldable pub freerange : ℕ → ℕ → Kmem → Option Kmem
unfolding free_pages page_round_up
freerange vstart vend m = free_pages (vend / page_size + 1) (page_round_up vstart) vend m
