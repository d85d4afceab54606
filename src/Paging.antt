-- ===== src/Paging.antt =====
-- vm.c, the same in both projects: the page tables of a process. Memory is pages of bytes, by their address in
-- the kernel; the page directory and the page tables are pages of 1024 entries. `none` is a panic; 4096 is the
-- size of a page, and the physical addresses that get mapped are multiples of it.
pub mod Tree
pub mod Entries
pub mod Range
pub mod Rounds
pub mod Pages
pub mod Copy
mod Tests
use ele.Common.{
  ℕ, zero, suc, ◌+◌, ◌*◌, ◌/◌, ◌%◌, ◌-◌, ◌^◌, min, ◌==◌, ltb, leb, Bool, true, false, not, ◌&&◌,
  ◌||◌, if◌then◌else◌, Option, none, some, Store, word_at, put_word,
}
use ele.Kalloc.{Kmem, kern_base, v2p, page_round_up, kalloc, kfree}

pub record Machine : Type 0 where
  pub ram : Store
  pub kmem : Kmem

-- `P2V`, `PDX`, `PTX`, `PTE_ADDR`, `PTE_FLAGS`, and the flags `PTE_P` and `PTE_U`.
abbrev pub p2v : ℕ → ℕ
p2v pa = (pa + kern_base) % 2 ^ 32

abbrev pub pdx : ℕ → ℕ
pdx va = va / 2 ^ 22 % 1024

abbrev pub ptx : ℕ → ℕ
ptx va = va / 4096 % 1024

abbrev pub pte_addr : ℕ → ℕ
pte_addr pte = pte / 4096 * 4096

abbrev pub pte_flags : ℕ → ℕ
pte_flags pte = pte % 4096

abbrev pub is_present : ℕ → Bool
is_present pte = pte % 2 == 1

abbrev pub is_user : ℕ → Bool
is_user pte = pte / 4 % 2 == 1

abbrev pub zero_page : ℕ → Store → Store
zero_page pg ram = λ y p. if (pg == y) && ltb p 4096 then 0 else ram y p

-- A new page table, of only absent entries, with PTE_P, PTE_W and PTE_U in the directory.
abbrev pub add_table : ℕ → ℕ → ℕ → Store → Store
add_table pgdir i pg ram = put_word pgdir (i * 4) (v2p pg + 7) (zero_page pg ram)

-- The entry for an address: its page and its index there.
unfoldable pub walkpgdir : ℕ → ℕ → Bool → Machine → Option (ℕ × ℕ) × Machine
walkpgdir pgdir va alloc m =
    let pde = word_at pgdir (pdx va) m.ram in
    if is_present pde
    then (some (p2v (pte_addr pde), ptx va), m)
    else if not alloc
    then (none, m)
    else elim (kalloc m.kmem).0 [
      | none ↦ (none, record m { kmem = (kalloc m.kmem).1 })
      | some pg ↦ (
        some (pg, ptx va),
        record { ram = add_table pgdir (pdx va) pg m.ram; kmem = (kalloc m.kmem).1 },
      )
    ]

abbrev pub entry : ℕ × ℕ → Store → ℕ
entry e ram = word_at e.0 e.1 ram

abbrev pub set_entry : ℕ × ℕ → ℕ → Store → Store
set_entry e v ram = put_word e.0 (e.1 * 4) v ram

-- `pa | perm | PTE_P` as a sum: the bits of the two are apart, as every caller passes the address of a whole
-- page and flags below its 4096, which the theorem on `mappages` asks for.
abbrev pub made_entry : ℕ → ℕ → ℕ
made_entry pa perm = pa + (perm / 2 * 2 + 1)

-- `n` more rounds of the loop of `mappages`, whose last one is for `last`; false stands for -1.
unfoldable pub map_pages : ℕ → ℕ → ℕ → ℕ → ℕ → ℕ → Machine → Option (Bool × Machine)
map_pages zero pgdir a last pa perm m = none
map_pages (suc n) pgdir a last pa perm m =
    let w = walkpgdir pgdir a true m in
    elim w.0 [
      | none ↦ some (false, w.1)
      | some e ↦ elim (is_present (entry e w.1.ram)) [
        | true ↦ none
        | false ↦
            let next = record w.1 { ram = set_entry e (made_entry pa perm) w.1.ram } in
            elim (a == last) [
              | true ↦ some (true, next)
              | false ↦
                  map_pages n pgdir ((a + 4096) % 2 ^ 32) last ((pa + 4096) % 2 ^ 32) perm next
            ]
      ]
    ]

abbrev pub round_down : ℕ → ℕ
round_down a = a / 4096 * 4096

-- There are as many rounds as pages from the first to the last, around the end of the addresses if need be.
unfoldable pub mappages : ℕ → ℕ → ℕ → ℕ → ℕ → Machine → Option (Bool × Machine)
mappages pgdir va size pa perm m =
    let last = round_down ((va + size + (2 ^ 32 - 1)) % 2 ^ 32) in
    map_pages ((last + 2 ^ 32 - round_down va) % 2 ^ 32 / 4096 + 1) pgdir (round_down va) last pa
      perm m

-- The loop of `deallocuvm`; where there is no page table, it goes on behind what that would map.
unfoldable pub dealloc_pages : ℕ → ℕ → ℕ → ℕ → Machine → Option Machine
dealloc_pages zero pgdir a oldsz m = some m
dealloc_pages (suc n) pgdir a oldsz m = elim (ltb a oldsz) [
  | false ↦ some m
  | true ↦ elim (walkpgdir pgdir a false m).0 [
    | none ↦ dealloc_pages n pgdir ((pdx a + 1) * 2 ^ 22 % 2 ^ 32) oldsz m
    | some e ↦ elim (is_present (entry e m.ram)) [
      | false ↦ dealloc_pages n pgdir (a + 4096) oldsz m
      | true ↦
          if pte_addr (entry e m.ram) == 0
          then none
          else elim (kfree m.kmem (p2v (pte_addr (entry e m.ram)))) [
            | none ↦ none
            | some k ↦
                dealloc_pages n pgdir (a + 4096) oldsz
                  (record { ram = set_entry e 0 m.ram; kmem = k })
          ]
    ]
  ]
]

-- Each round goes up by a page at least.
unfoldable pub deallocuvm : ℕ → ℕ → ℕ → Machine → Option (ℕ × Machine)
deallocuvm pgdir oldsz newsz m =
    if leb oldsz newsz
    then some (oldsz, m)
    else elim (dealloc_pages (oldsz / 4096 + 1) pgdir (page_round_up newsz) oldsz m) [
      | none ↦ none
      | some m' ↦ some (newsz, m')
    ]

-- The end of `allocuvm` as memory runs out, with the page `mem` that is not mapped, if there is one.
unfoldable pub undo_alloc : ℕ → ℕ → ℕ → Option ℕ → Machine → Option (ℕ × Machine)
undo_alloc pgdir oldsz newsz mem m = elim (deallocuvm pgdir newsz oldsz m) [
  | none ↦ none
  | some (sz, m') ↦ elim mem [
    | none ↦ some (0, m')
    | some pg ↦ elim (kfree m'.kmem pg) [ none ↦ none | some k ↦ some (0, record m' { kmem = k }) ]
  ]
]

unfoldable pub alloc_pages : ℕ → ℕ → ℕ → ℕ → ℕ → Machine → Option (ℕ × Machine)
alloc_pages zero pgdir a oldsz newsz m = some (newsz, m)
alloc_pages (suc n) pgdir a oldsz newsz m = elim (ltb a newsz) [
  | false ↦ some (newsz, m)
  | true ↦ elim (kalloc m.kmem).0 [
    | none ↦ undo_alloc pgdir oldsz newsz none m
    | some pg ↦
        elim (mappages pgdir a 4096 (v2p pg) 6
          (record { ram = zero_page pg m.ram; kmem = (kalloc m.kmem).1 })) [
            | none ↦ none
            | some (done, m') ↦ elim done [
              | false ↦ undo_alloc pgdir oldsz newsz (some pg) m'
              | true ↦ alloc_pages n pgdir (a + 4096) oldsz newsz m'
            ]
          ]
  ]
]

unfoldable pub allocuvm : ℕ → ℕ → ℕ → Machine → Option (ℕ × Machine)
allocuvm pgdir oldsz newsz m =
    if leb kern_base newsz
    then some (0, m)
    else if ltb newsz oldsz
    then some (oldsz, m)
    else alloc_pages (newsz / 4096 + 1) pgdir (page_round_up oldsz) oldsz newsz m

unfoldable pub clearpteu : ℕ → ℕ → Machine → Option Machine
clearpteu pgdir uva m = elim (walkpgdir pgdir uva false m).0 [
  | none ↦ none
  | some e ↦
      let pte = entry e m.ram in some (record m { ram = set_entry e (pte / 8 * 8 + pte % 4) m.ram })
]

-- `none` is the use of a null pointer, for an address that no page table covers.
unfoldable pub uva2ka : ℕ → ℕ → Machine → Option ℕ
uva2ka pgdir uva m = elim (walkpgdir pgdir uva false m).0 [
  | none ↦ none
  | some e ↦
      if not (is_present (entry e m.ram)) || not (is_user (entry e m.ram))
      then some 0
      else some (p2v (pte_addr (entry e m.ram)))
]
