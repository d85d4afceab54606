-- ===== src/Str.antt =====
-- string.c, the same in both projects: blocks of bytes and strings in memory, which is a function of
-- the address. Addresses do not wrap around within a block.
pub mod Move
pub mod Compare
pub mod Copy
pub mod Name
mod Tests
use ele.Common.{
  ℕ, zero, suc, ◌+◌, ◌-◌, ◌==◌, ltb, Bool, true, false, not, ◌&&◌, ◌||◌, if◌then◌else◌, ℤ, pos,
  negsuc, sub_ℕ,
}

abbrev pub Memory : Type 0
Memory = ℕ → ℕ

abbrev pub store : ℕ → ℕ → Memory → Memory
store a v m = λ b. if a == b then v else m b

-- The loop of `memmove` from the lowest byte on, and the one from the highest byte down.
unfoldable pub copy_up : ℕ → ℕ → ℕ → Memory → Memory
copy_up zero d s m = m
copy_up (suc n) d s m = copy_up n (d + 1) (s + 1) (store d (m s) m)

unfoldable pub copy_down : ℕ → ℕ → ℕ → Memory → Memory
copy_down zero d s m = m
copy_down (suc n) d s m = copy_down n d s (store (d + n) (m (s + n)) m)

unfoldable pub memmove : ℕ → ℕ → ℕ → Memory → Memory
memmove dst src n m =
    if ltb src dst && ltb dst (src + n) then copy_down n dst src m else copy_up n dst src m

unfoldable pub memcmp : ℕ → ℕ → ℕ → Memory → ℤ
memcmp v1 v2 zero m = pos 0
memcmp v1 v2 (suc n) m =
    let rest = memcmp (v1 + 1) (v2 + 1) n m in
    if not (m v1 == m v2) then sub_ℕ (m v1) (m v2) else rest

unfoldable pub strncmp : ℕ → ℕ → ℕ → Memory → ℤ
strncmp p q zero m = pos 0
strncmp p q (suc n) m =
    let rest = strncmp (p + 1) (q + 1) n m in
    if not (m p == 0) && (m p == m q) then rest else sub_ℕ (m p) (m q)

-- `safestrcpy` for `n` at least 1: `k` is what `--n` gives in the loop's test.
unfoldable pub copy_string : ℕ → ℕ → ℕ → Memory → Memory
copy_string zero s t m = store s 0 m
copy_string (suc k) s t m =
    let rest = copy_string k (s + 1) (t + 1) (store s (m t) m) in
    if m t == 0 then store (s + 1) 0 (store s (m t) m) else rest

unfoldable pub safestrcpy : ℕ → ℕ → ℤ → Memory → Memory
unfolding copy_string
safestrcpy s t (negsuc n) m = m
safestrcpy s t (pos zero) m = m
safestrcpy s t (pos (suc k)) m = copy_string k s t m

unfoldable pub fill_zero : ℕ → ℕ → Memory → Memory
fill_zero s zero m = m
fill_zero s (suc n) m = fill_zero (s + 1) n (store s 0 m)

unfoldable pub strncpy : ℕ → ℕ → ℕ → Memory → Memory
unfolding fill_zero
strncpy s t zero m = m
strncpy s t (suc n) m =
    let rest = strncpy (s + 1) (t + 1) n (store s (m t) m) in
    if m t == 0 then fill_zero (s + 1) n (store s (m t) m) else rest
