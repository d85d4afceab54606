-- ===== src/Paging/Pages.antt =====
-- `mappages` of vm.c on a range of pages.
use ele.Common.{
  ℕ, suc, ◌+◌, ◌*◌, ◌/◌, ◌%◌, ◌-◌, ◌^◌, ◌<◌, ◌≤◌, ◌≡◌, sym, subst, arith, Bool, true, false, Option,
  none, some, [],
}
use ele.Paging.{Machine, is_present, made_entry, map_pages, mappages, round_down}
use ele.Paging.Tree.{pte_of}
use ele.Paging.Entries.{IsSound}
use ele.Paging.Range.{IsOutside, Ranged, all_mapped, out_of_memory, remapped}
use ele.Paging.Rounds.{map_pages-Ranged}

abbrev pub page_count : ℕ → ℕ → ℕ
page_count va size = suc ((va % 4096 + size - 1) / 4096)

mappages-made :
    (pgdir va size pa perm : ℕ) (m : Machine)
    → IsSound pgdir m
    → 0 < size
    → va + size ≤ 2 ^ 32
    → pa + page_count va size * 4096 ≤ 2 ^ 32
    → perm < 4096
    → Ranged pgdir (round_down va) (page_count va size) pa perm m (mappages pgdir va size pa perm m)
unfolding mappages
mappages-made pgdir va size pa perm m t some_size bound pa_bound flags =
    let n = (va % 4096 + size - 1) / 4096 in
    let last = round_down ((va + size + (2 ^ 32 - 1)) % 2 ^ 32) in
    subst
      (λ k.
        Ranged pgdir (round_down va) (suc n) pa perm m
          (map_pages k pgdir (round_down va) last pa perm m))
      (rounds va size some_size bound)
      (map_pages-Ranged n pgdir (round_down va) last pa perm m t (omega arith)
        (omega (arith, some_size, bound)) (ends va size some_size bound) pa_bound flags)
  where
    ends :
        (va size : ℕ)
        → 0 < size
        → va + size ≤ 2 ^ 32
        → round_down ((va + size + (2 ^ 32 - 1)) % 2 ^ 32)
          ≡ round_down va + (va % 4096 + size - 1) / 4096 * 4096
    ends va size h u = omega (arith, h, u)

    rounds :
        (va size : ℕ)
        → 0 < size
        → va + size ≤ 2 ^ 32
        → suc ((va % 4096 + size - 1) / 4096)
          ≡ (round_down ((va + size + (2 ^ 32 - 1)) % 2 ^ 32) + 2 ^ 32 - round_down va)
              % 2 ^ 32
              / 4096
            + 1
    rounds va size h u = omega (arith, h, u)

-- An entry for the physical page at `pa` with the flags of `perm`: it is present, its address is `pa`, and
-- its flags above the lowest one are those of `perm`.
pub record IsEntry (pa perm e : ℕ) : Type 0 where
  pub present : e % 2 ≡ 1
  pub page : e / 4096 * 4096 ≡ pa
  pub flags : e % 4096 / 2 ≡ perm / 2

-- The outcomes of a call: all pages are mapped in their order, memory has run out, or a page was mapped
-- before.
pub data Mapped (pgdir a n pa perm : ℕ) (m : Machine) : Option (Bool × Machine) → Type 0 where
  mapped :
      (m' : Machine)
      → IsSound pgdir m'
      → ((k : ℕ) → k < n → IsEntry (pa + k * 4096) perm (pte_of pgdir (a + k * 4096) m'.ram))
      → ((b : ℕ) → IsOutside a n b → pte_of pgdir b m'.ram ≡ pte_of pgdir b m.ram)
      → Mapped pgdir a n pa perm m (some (true, m'))
  no_page :
      (m' : Machine)
      → IsSound pgdir m'
      → m'.kmem.freelist ≡ []
      → ((b : ℕ) → IsOutside a n b → pte_of pgdir b m'.ram ≡ pte_of pgdir b m.ram)
      → Mapped pgdir a n pa perm m (some (false, m'))
  mapped_before :
      (k : ℕ) → k < n → pte_of pgdir (a + k * 4096) m.ram % 2 ≡ 1 → Mapped pgdir a n pa perm m none

made_entry-IsEntry :
    (pa perm : ℕ) → pa % 4096 ≡ 0 → perm < 4096 → IsEntry pa perm (made_entry pa perm)
made_entry-IsEntry pa perm a l = record {
  present = omega (arith, a);
  page = omega (arith, a, l);
  flags = omega (arith, a, l);
}

present_odd : (e : ℕ) → is_present e ≡ true → e % 2 ≡ 1
present_odd e h = ground (arith, h)

Ranged-Mapped :
    {pgdir a n pa perm : ℕ} {m : Machine} {o : Option (Bool × Machine)}
    → pa % 4096 ≡ 0
    → perm < 4096
    → Ranged pgdir a n pa perm m o
    → Mapped pgdir a n pa perm m o
Ranged-Mapped {pa} {perm} aligned flags (all_mapped m' t e out) =
    mapped m' t
      (λ k l.
        subst (IsEntry (pa + k * 4096) perm) (sym (e k l))
          (made_entry-IsEntry (pa + k * 4096) perm (omega (arith, aligned)) flags))
      out
Ranged-Mapped aligned flags (out_of_memory m' t f out) = no_page m' t f out
Ranged-Mapped aligned flags (remapped k l h) = mapped_before k l (present_odd _ h)

-- For a page directory whose tables are apart from each other and from the free pages, and a range that does
-- not go around the end of the addresses, mapped to whole physical pages, `mappages` comes to an end. If it returns 0, every page of the range
-- has an entry that is present, names its physical page and has the flags of `perm`; if -1, no page is free
-- any more. In both cases
-- all other addresses have the entries as before and the tables are still apart. It panics only if an entry
-- of the range was present.
pub mappages-Ranged :
    (pgdir va size pa perm : ℕ) (m : Machine)
    → IsSound pgdir m
    → 0 < size
    → va + size ≤ 2 ^ 32
    → pa + page_count va size * 4096 ≤ 2 ^ 32
    → pa % 4096 ≡ 0
    → perm < 4096
    → Mapped pgdir (round_down va) (page_count va size) pa perm m (mappages pgdir va size pa perm m)
mappages-Ranged pgdir va size pa perm m t some_size bound pa_bound aligned flags =
    Ranged-Mapped aligned flags
      (mappages-made pgdir va size pa perm m t some_size bound pa_bound flags)
