-- ===== src/Fs/Content.antt =====
-- The content of a file in fs.c: the block behind an offset, truncation, reading and writing. Memory is the
-- function of its addresses, and a user's buffer starts at an address in it.
use ele.Common.{
  word_at, put_word, ℕ, zero, suc, ◌+◌, ◌*◌, ◌/◌, ◌%◌, ◌^◌, ◌-◌, min, ◌==◌, ltb, leb, true, false,
  ◌&&◌, ◌||◌, if◌then◌else◌, Option, none, some, get_or, set, ℤ, pos, negsuc,
}
use ele.Fs.{Disk, Superblock, Inode, balloc, bfree, iupdate}

abbrev pub set_addr : ℕ → ℕ → Inode → Inode
set_addr i a ip = record ip { addrs = set ip.addrs i a }

-- The address at index `i` of the inode, a new block if there is none.
unfoldable pub own_addr : Superblock → ℕ → Inode → Disk → Option (ℕ × Inode × Disk)
own_addr sb i ip d =
    if get_or ip.addrs i 0 == 0
    then elim (balloc sb d) [ none ↦ none | some (a, e) ↦ some (a, set_addr i a ip, e) ]
    else some (get_or ip.addrs i 0, ip, d)

-- The same in the indirect block `x`.
unfoldable pub own_word : Superblock → ℕ → ℕ → Inode → Disk → Option (ℕ × Inode × Disk)
own_word sb x i ip d =
    if word_at x i d == 0
    then elim (balloc sb d) [ none ↦ none | some (a, e) ↦ some (a, ip, put_word x (i * 4) a e) ]
    else some (word_at x i d, ip, d)

unfoldable pub bmap : Superblock → ℕ → Inode → Disk → Option (ℕ × Inode × Disk)
bmap sb bn ip d =
    if ltb bn 12
    then own_addr sb bn ip d
    else if ltb (bn - 12) 128
    then elim (own_addr sb 12 ip d) [ none ↦ none | some (x, jp, e) ↦ own_word sb x (bn - 12) jp e ]
    else none

-- The first loop of `itrunc`: `n` addresses from index `i` on.
unfoldable pub free_addrs : ℕ → ℕ → Superblock → Inode → Disk → Option (Inode × Disk)
free_addrs zero i sb ip d = some (ip, d)
free_addrs (suc n) i sb ip d = elim (get_or ip.addrs i 0 == 0) [
  | true ↦ free_addrs n (i + 1) sb ip d
  | false ↦ elim (bfree sb (get_or ip.addrs i 0) d) [
    | none ↦ none
    | some e ↦ free_addrs n (i + 1) sb (set_addr i 0 ip) e
  ]
]

-- The second: `n` words of the indirect block `x`, from index `j` on.
unfoldable pub free_words : ℕ → ℕ → ℕ → Superblock → Disk → Option Disk
free_words zero j x sb d = some d
free_words (suc n) j x sb d = elim (word_at x j d == 0) [
  | true ↦ free_words n (j + 1) x sb d
  | false ↦ elim (bfree sb (word_at x j d) d) [ none ↦ none | some e ↦ free_words n (j + 1) x sb e ]
]

unfoldable pub free_indirect : Superblock → Inode → Disk → Option (Inode × Disk)
free_indirect sb ip d =
    if get_or ip.addrs 12 0 == 0
    then some (ip, d)
    else elim (free_words 128 0 (get_or ip.addrs 12 0) sb d) [
      | none ↦ none
      | some e ↦ elim (bfree sb (get_or ip.addrs 12 0) e) [
        | none ↦ none
        | some f ↦ some (set_addr 12 0 ip, f)
      ]
    ]

abbrev pub emptied : Inode → Inode
emptied ip = record ip { size = 0 }

unfoldable pub itrunc : Superblock → Inode → Disk → Option (Inode × Disk)
itrunc sb ip d = elim (free_addrs 12 0 sb ip d) [
  | none ↦ none
  | some (jp, e) ↦ elim (free_indirect sb jp e) [
    | none ↦ none
    | some (kp, f) ↦ some (emptied kp, iupdate sb (emptied kp) f)
  ]
]

abbrev pub Memory : Type 0
Memory = ℕ → ℕ

-- `memmove` of `m` bytes from byte `o` of block `x` to address `s`, and the way back.
abbrev pub copy_out : ℕ → ℕ → ℕ → ℕ → Disk → Memory → Memory
copy_out x o s m d mem = λ q. if leb s q && ltb q (s + m) then d x (o + (q - s)) else mem q

abbrev pub copy_in : ℕ → ℕ → ℕ → ℕ → Memory → Disk → Disk
copy_in x o s m mem d =
    λ y p. if (x == y) && (leb o p && ltb p (o + m)) then mem (s + (p - o)) else d y p

abbrev pub chunk : ℕ → ℕ → ℕ
chunk rest off = min rest (512 - off % 512)

-- The loops move a byte at least in each step, so that `rest` is enough fuel for `rest` bytes.
unfoldable pub read_loop :
    ℕ → Superblock → ℕ → ℕ → ℕ → Inode → Disk → Memory → Option (Memory × Inode × Disk)
read_loop zero sb dst off rest ip d mem = some (mem, ip, d)
read_loop (suc n) sb dst off rest ip d mem = elim (ltb 0 rest) [
  | false ↦ some (mem, ip, d)
  | true ↦ elim (bmap sb (off / 512) ip d) [
    | none ↦ none
    | some (x, jp, e) ↦
        let m = chunk rest off in
        read_loop n sb (dst + m) (off + m) (rest - m) jp e (copy_out x (off % 512) dst m e mem)
  ]
]

unfoldable pub write_loop :
    ℕ → Superblock → ℕ → ℕ → ℕ → Memory → Inode → Disk → Option (Inode × Disk)
write_loop zero sb src off rest mem ip d = some (ip, d)
write_loop (suc n) sb src off rest mem ip d = elim (ltb 0 rest) [
  | false ↦ some (ip, d)
  | true ↦ elim (bmap sb (off / 512) ip d) [
    | none ↦ none
    | some (x, jp, e) ↦
        let m = chunk rest off in
        write_loop n sb (src + m) (off + m) (rest - m) mem jp (copy_in x (off % 512) src m mem e)
  ]
]

-- A device's `read` or `write`, by its number; `none` where the table has none.
abbrev pub Device : Type 0
Device = ℕ → Option (ℕ → ℕ → Memory → ℤ × Memory)

-- `readi` of `n` bytes from `off` on to the address `dst`.
unfoldable pub readi :
    Device → Superblock → ℕ → ℕ → ℕ → Inode → Disk → Memory → Option (ℤ × Memory × Inode × Disk)
readi devsw sb dst off n ip d mem =
    if ip.kind == 3
    then if leb 10 ip.major then some (negsuc 0, mem, ip, d) else elim (devsw ip.major) [
      | none ↦ some (negsuc 0, mem, ip, d)
      | some read ↦ some ((read dst n mem).0, (read dst n mem).1, ip, d)
    ]
    else if ltb ip.size off || ltb ((off + n) % 2 ^ 32) off
    then some (negsuc 0, mem, ip, d)
    else let count = if ltb ip.size ((off + n) % 2 ^ 32) then ip.size - off else n in
      elim (read_loop count sb dst off count ip d mem) [
        | none ↦ none
        | some (mem', jp, e) ↦ some (pos count, mem', jp, e)
      ]

abbrev pub grown : ℕ → Inode → Inode
grown size ip = record ip { size = size }

-- `writei` of `n` bytes from the address `src` on to `off`; MAXFILE is 140.
unfoldable pub writei :
    Device → Superblock → ℕ → ℕ → ℕ → Memory → Inode → Disk → Option (ℤ × Memory × Inode × Disk)
writei devsw sb src off n mem ip d =
    if ip.kind == 3
    then if leb 10 ip.major then some (negsuc 0, mem, ip, d) else elim (devsw ip.major) [
      | none ↦ some (negsuc 0, mem, ip, d)
      | some write ↦ some ((write src n mem).0, (write src n mem).1, ip, d)
    ]
    else if ltb ip.size off || ltb ((off + n) % 2 ^ 32) off
    then some (negsuc 0, mem, ip, d)
    else if ltb (140 * 512) ((off + n) % 2 ^ 32)
    then some (negsuc 0, mem, ip, d)
    else elim (write_loop n sb src off n mem ip d) [
      | none ↦ none
      | some (jp, e) ↦
          if ltb 0 n && ltb jp.size (off + n)
          then some (pos n, mem, grown (off + n) jp, iupdate sb (grown (off + n) jp) e)
          else some (pos n, mem, jp, e)
    ]
