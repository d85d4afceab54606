-- ===== src/Fs/Chunk.antt =====
-- The chunks in which `readi` and `writei` of fs.c move bytes: none reaches over the end of a block.
use ele.Common.{ℕ, suc, ◌+◌, ◌%◌, ◌-◌, ◌<◌, ◌≤◌, ◌≡◌, arith}
use ele.Fs.Content.{chunk}

pub chunk_less : (rest off n : ℕ) → 0 < rest → rest ≤ suc n → rest - chunk rest off ≤ n
chunk_less rest off n l h = omega (arith, l, h)

pub chunk_within :
    (rest off : ℕ) → off + rest ≤ 71680 → off + chunk rest off + (rest - chunk rest off) ≤ 71680
chunk_within rest off h = omega (arith, h)

pub chunk_fits : (rest off : ℕ) → off % 512 + chunk rest off ≤ 512
chunk_fits rest off = omega arith

pub chunk_rest : (rest off : ℕ) → chunk rest off + (rest - chunk rest off) ≡ rest
chunk_rest rest off = omega arith
