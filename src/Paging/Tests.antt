-- ===== src/Paging/Tests.antt =====
-- Page tables of vm.c on a machine with three free pages, where the theorems apply.
use ele.Common.{◌≡◌, arith, [], ◌∷◌, true, false}
use ele.Paging.{Machine, mappages, round_down}
use ele.Paging.Entries.{IsSound}
use ele.Paging.Pages.{page_count, Mapped, mappages-Ranged}

-- The directory stands at 0x8040_0000, and has no tables.
abbrev some_machine : Machine
some_machine = record {
  ram = λ y p. 0;
  kmem = record {
    kernel_end = 0x8020_0000;
    freelist = 0x8040_1000 ∷ 0x8040_2000 ∷ 0x8040_3000 ∷ [];
  };
}

some_machine-IsSound : IsSound 0x8040_0000 some_machine
some_machine-IsSound = record {
  pages = (
    ((omega arith), (omega arith, omega arith)),
    ((omega arith, (omega arith, omega arith)), ((omega arith, (omega arith, omega arith)), tt)),
  );
  distinct = (
    ((λ e. omega (arith, e)), ((λ e. omega (arith, e)), tt)),
    (((λ e. omega (arith, e)), tt), (tt, tt)),
  );
  root_apart = ((λ e. omega (arith, e)), ((λ e. omega (arith, e)), ((λ e. omega (arith, e)), tt)));
  tables_apart = λ i l h. absurd (no_table h);
  not_root = λ i l h. absurd (no_table h);
  apart = λ i j l u ne h. absurd (no_table h);
}
  where
    no_table : false ≡ true → ⊥
    no_table e = cc

-- Three pages, from the middle of one on, which need two page tables.
mappages-Ranged_example :
    Mapped 0x8040_0000
      (round_down 0x3F_F800)
      (page_count 0x3F_F800 5000)
      0x10_0000
      6
      some_machine
      (mappages 0x8040_0000 0x3F_F800 5000 0x10_0000 6 some_machine)
mappages-Ranged_example =
    mappages-Ranged 0x8040_0000 0x3F_F800 5000 0x10_0000 6 some_machine some_machine-IsSound
      (omega arith) (omega arith) (omega arith) (omega arith) (omega arith)
