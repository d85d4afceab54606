-- ===== src/Paging/Copy.antt =====
-- `copyout`, `setupkvm`, `copyuvm` and `freevm` of vm.c.
use ele.Common.{
  ℕ, zero, suc, ◌+◌, ◌/◌, ◌%◌, ◌-◌, ◌^◌, min, ◌==◌, ltb, leb, Bool, true, false, ◌&&◌,
  if◌then◌else◌, Option, none, some, List, [], ◌∷◌, Store, word_at,
}
use ele.Kalloc.{kern_base, v2p, kalloc, kfree}
use ele.Paging.{
  Machine, p2v, pte_addr, pte_flags, is_present, zero_page, entry, walkpgdir, mappages, deallocuvm,
  uva2ka, round_down,
}

-- The bytes of a buffer of the kernel, by their offset in it.
abbrev pub Buffer : Type 0
Buffer = ℕ → ℕ

-- `memmove` of `n` bytes of `buf` from `s` on to the offset `o` of a page.
abbrev pub put_bytes : ℕ → ℕ → Buffer → ℕ → ℕ → Store → Store
put_bytes pg o buf s n ram =
    λ y p. if (pg == y) && (leb o p && ltb p (o + n)) then buf (s + (p - o)) else ram y p

-- Each round of the loop copies a byte at least, so that `len` rounds are enough; false stands for -1.
unfoldable pub copy_pages : ℕ → ℕ → ℕ → Buffer → ℕ → ℕ → Machine → Option (Bool × Machine)
copy_pages zero pgdir va buf s len m = some (true, m)
copy_pages (suc k) pgdir va buf s len m = elim (ltb 0 len) [
  | false ↦ some (true, m)
  | true ↦ elim (uva2ka pgdir (round_down va) m) [
    | none ↦ none
    | some pa0 ↦ elim (pa0 == 0) [
      | true ↦ some (false, m)
      | false ↦
          let n = min (4096 - va % 4096) len in
          copy_pages k pgdir ((round_down va + 4096) % 2 ^ 32) buf (s + n) (len - n)
            (record m { ram = put_bytes pa0 (va % 4096) buf s n m.ram })
    ]
  ]
]

unfoldable pub copyout : ℕ → ℕ → Buffer → ℕ → Machine → Option (Bool × Machine)
copyout pgdir va buf len m = copy_pages len pgdir va buf 0 len m

-- The loop of `freevm` over the entries of the directory from `i` on.
unfoldable pub free_tables : ℕ → ℕ → ℕ → Machine → Option Machine
free_tables zero i pgdir m = some m
free_tables (suc n) i pgdir m = elim (is_present (word_at pgdir i m.ram)) [
  | false ↦ free_tables n (i + 1) pgdir m
  | true ↦ elim (kfree m.kmem (p2v (pte_addr (word_at pgdir i m.ram)))) [
    | none ↦ none
    | some k ↦ free_tables n (i + 1) pgdir (record m { kmem = k })
  ]
]

unfoldable pub freevm : ℕ → Machine → Option Machine
freevm pgdir m = if pgdir == 0 then none else elim (deallocuvm pgdir kern_base 0 m) [
  | none ↦ none
  | some (sz, m1) ↦ elim (free_tables 1024 0 pgdir m1) [
    | none ↦ none
    | some m2 ↦ elim (kfree m2.kmem pgdir) [ none ↦ none | some k ↦ some (record m2 { kmem = k }) ]
  ]
]

-- An entry of `kmap`: the first address, the first physical address, the size and the flags.
abbrev pub Segment : Type 0
Segment = ℕ × (ℕ × (ℕ × ℕ))

-- `kmap`, where the linker's symbol `data` is the argument.
abbrev pub kmap : ℕ → List Segment
kmap data_start =
    (0x8000_0000, (0, (0x10_0000, 2)))
    ∷ (0x8010_0000, (0x10_0000, (v2p data_start - 0x10_0000, 0)))
    ∷ (data_start, (v2p data_start, (0xE00_0000 - v2p data_start, 2)))
    ∷ (0xFE00_0000, (0xFE00_0000, (0x200_0000, 2)))
    ∷ []

unfoldable pub map_segments : List Segment → ℕ → Machine → Option (ℕ × Machine)
map_segments [] pgdir m = some (pgdir, m)
map_segments ((virt, (phys, (size, perm))) ∷ ks) pgdir m =
    elim (mappages pgdir virt size phys perm m) [
      | none ↦ none
      | some (done, m') ↦ elim done [
        | true ↦ map_segments ks pgdir m'
        | false ↦ elim (freevm pgdir m') [ none ↦ none | some m'' ↦ some (0, m'') ]
      ]
    ]

-- A new directory with the kernel's pages, or 0.
unfoldable pub setupkvm : ℕ → Machine → Option (ℕ × Machine)
setupkvm data_start m = elim (kalloc m.kmem).0 [
  | none ↦ some (0, m)
  | some pg ↦
      map_segments (kmap data_start) pg
        (record { ram = zero_page pg m.ram; kmem = (kalloc m.kmem).1 })
]

abbrev pub copy_page : ℕ → ℕ → Store → Store
copy_page dst src ram = λ y p. if (dst == y) && ltb p 4096 then ram src p else ram y p

-- The end of `copyuvm` as memory runs out.
unfoldable pub give_up : ℕ → Machine → Option (ℕ × Machine)
give_up d m = elim (freevm d m) [ none ↦ none | some m' ↦ some (0, m') ]

unfoldable pub copy_user : ℕ → ℕ → ℕ → ℕ → ℕ → Machine → Option (ℕ × Machine)
copy_user zero pgdir d i sz m = some (d, m)
copy_user (suc n) pgdir d i sz m = elim (ltb i sz) [
  | false ↦ some (d, m)
  | true ↦ elim (walkpgdir pgdir i false m).0 [
    | none ↦ none
    | some e ↦ elim (is_present (entry e m.ram)) [
      | false ↦ none
      | true ↦ elim (kalloc m.kmem).0 [
        | none ↦ give_up d m
        | some pg ↦
            let m1 : Machine = record {
              ram = copy_page pg (p2v (pte_addr (entry e m.ram))) m.ram;
              kmem = (kalloc m.kmem).1;
            } in
            elim (mappages d i 4096 (v2p pg) (pte_flags (entry e m.ram)) m1) [
              | none ↦ none
              | some (done, m2) ↦ elim done [
                | true ↦ copy_user n pgdir d (i + 4096) sz m2
                | false ↦ elim (kfree m2.kmem pg) [
                  | none ↦ none
                  | some k ↦ give_up d (record m2 { kmem = k })
                ]
              ]
            ]
      ]
    ]
  ]
]

-- A copy of the first `sz` bytes for a child, page by page: the new directory, or 0.
unfoldable pub copyuvm : ℕ → ℕ → ℕ → Machine → Option (ℕ × Machine)
copyuvm data_start pgdir sz m = elim (setupkvm data_start m) [
  | none ↦ none
  | some (d, m1) ↦ if d == 0 then some (0, m1) else copy_user (sz / 4096 + 1) pgdir d 0 sz m1
]
