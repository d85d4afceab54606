-- ===== src/Args.antt =====
-- syscall.c, the same in both projects: the arguments of a system call, fetched from the memory of the process. `none`
-- is the return of -1, and `*(int*)` is a word of four bytes.
pub mod Checks
mod Tests
use ele.Common.{
  ℕ, zero, suc, ◌+◌, ◌*◌, ◌-◌, ◌%◌, ◌^◌, ◌==◌, ltb, leb, true, false, ◌||◌, if◌then◌else◌, Option,
  none, some, ℤ, pos, negsuc,
}

-- The process in the kernel: the size of its memory, its stack pointer, and its bytes.
pub record Caller : Type 0 where
  pub sz : ℕ
  pub esp : ℕ
  pub bytes : ℕ → ℕ

abbrev pub word_of : ℕ → Caller → ℕ
word_of a c =
    c.bytes a + c.bytes (a + 1) * 256 + c.bytes (a + 2) * 65536 + c.bytes (a + 3) * 16777216

unfoldable pub fetchint : ℕ → Caller → Option ℕ
fetchint addr c =
    if leb c.sz addr || ltb c.sz ((addr + 4) % 2 ^ 32) then none else some (word_of addr c)

-- The loop of `fetchstr`, with `n` bytes left before the end of the memory and `k` bytes passed.
unfoldable pub find_nul : ℕ → ℕ → ℕ → Caller → Option ℕ
find_nul zero k s c = none
find_nul (suc n) k s c =
    let rest = find_nul n (k + 1) (s + 1) c in if c.bytes s == 0 then some k else rest

unfoldable pub fetchstr : ℕ → Caller → Option ℕ
fetchstr addr c = if leb c.sz addr then none else find_nul (c.sz - addr) 0 addr c

-- Where the `n`-th argument stands.
abbrev pub arg_addr : ℕ → Caller → ℕ
arg_addr n c = (c.esp + 4 + 4 * n) % 2 ^ 32

unfoldable pub argint : ℕ → Caller → Option ℕ
argint n c = fetchint (arg_addr n c) c

-- The pointer, when the block of `size` bytes behind it lies in the memory of the process.
unfoldable pub argptr : ℕ → ℤ → Caller → Option ℕ
argptr n (negsuc size) c = none
argptr n (pos size) c = elim (argint n c) [
  | none ↦ none
  | some i ↦ if leb c.sz i || ltb c.sz ((i + size) % 2 ^ 32) then none else some i
]

-- The pointer and the length of the string behind it.
unfoldable pub argstr : ℕ → Caller → Option (ℕ × ℕ)
argstr n c = elim (argint n c) [
  | none ↦ none
  | some addr ↦ elim (fetchstr addr c) [ none ↦ none | some len ↦ some (addr, len) ]
]
