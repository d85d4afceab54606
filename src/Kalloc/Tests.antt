-- ===== src/Kalloc/Tests.antt =====
-- The allocator of kalloc.c on small memories.
use ele.Common.{◌≡◌, refl, ◌≢◌, some, [], ◌∷◌, arith, All}
use ele.Kalloc.{Kmem, page_round_up, kfree, kalloc, freerange}
use ele.Kalloc.Laws.{IsPage, IsValid, Freed, kalloc-IsValid, kfree-kalloc, freerange-Freed}

abbrev empty : Kmem
empty = record { kernel_end = 0x8011_0000; freelist = [] }

abbrev one_page : Kmem
one_page = record { kernel_end = 0x8011_0000; freelist = 0x8011_2000 ∷ [] }

freerange_runs :
    freerange 0x8011_0001 0x8011_3fff empty
    ≡ some (record empty { freelist = 0x8011_2000 ∷ 0x8011_1000 ∷ [] })
unfolding freerange kfree
freerange_runs = refl

one_page-IsValid : IsValid one_page
one_page-IsValid = omega arith

kalloc-IsValid_example :
    IsValid empty
    × IsPage 0x8011_0000 0x8011_2000
    × All (λ w. 0x8011_2000 ≢ w) (empty.freelist)
    × (one_page.freelist ≡ 0x8011_2000 ∷ [])
unfolding kalloc
kalloc-IsValid_example =
    kalloc-IsValid {m = one_page} {m' = empty} 0x8011_2000 one_page-IsValid refl

kfree-kalloc_example :
    (m' : Kmem) × (kfree one_page 0x8011_1000 ≡ some m')
    × IsValid m'
    × (kalloc m' ≡ (some 0x8011_1000, one_page))
kfree-kalloc_example = kfree-kalloc 0x8011_1000 one_page-IsValid (omega arith) (omega arith)

freerange-Freed_example :
    (m' : Kmem) × (freerange 0x8011_3000 0x8011_6000 one_page ≡ some m')
    × Freed (page_round_up 0x8011_3000) 0x8011_6000 one_page m'
unfolding page_round_up
freerange-Freed_example =
    freerange-Freed 0x8011_3000 0x8011_6000 one_page-IsValid (omega arith) (omega arith)
      (omega arith)
