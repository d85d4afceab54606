-- ===== src/Fs.antt =====
-- fs.c, the same in both projects: the blocks of the disk, their bit map, and the blocks of an inode. A
-- block is the function of its bytes, read and written through the buffer cache; `none` is a panic.
-- Block numbers are below 2^31, so that no counter of these loops wraps around.
pub mod Bits
pub mod Map
pub mod Alloc
pub mod Content
pub mod Slots
pub mod Grow
pub mod Mapped
pub mod Bmap
pub mod Copied
pub mod Write
pub mod Chunk
pub mod Loops
pub mod Read
pub mod Update
pub mod Grown
pub mod Roundtrip
pub mod Freed
pub mod Clear
pub mod Truncate
pub mod Path
pub mod Elements
pub mod Names
pub mod Namex
pub mod Put
pub mod Dir
pub mod Lookup
pub mod Search
pub mod Entry
pub mod Link
mod Tests
use ele.Common.{
  Store, poke, word_at, put_word, ℕ, zero, suc, ◌+◌, ◌*◌, ◌/◌, ◌%◌, ◌-◌, ◌==◌, ltb, Bool, true,
  false, not, ◌&&◌, if◌then◌else◌, Option, none, some, List, get_or, set,
}

abbrev pub Disk : Type 0
Disk = Store

-- `struct superblock`.
pub record Superblock : Type 0 where
  pub size : ℕ
  pub nblocks : ℕ
  pub ninodes : ℕ
  pub nlog : ℕ
  pub logstart : ℕ
  pub inodestart : ℕ
  pub bmapstart : ℕ

-- The fields of `struct inode` that are on the disk, and the inode's number.
pub record Inode : Type 0 where
  pub inum : ℕ
  pub kind : ℕ
  pub major : ℕ
  pub minor : ℕ
  pub nlink : ℕ
  pub size : ℕ
  pub addrs : List ℕ

-- `v & (1 << k)` as 0 or 1, `v | (1 << k)` and `v & ~(1 << k)`.
unfoldable pub bit : ℕ → ℕ → ℕ
bit zero v = v % 2
bit (suc k) v = bit k (v / 2)

unfoldable pub or_bit : ℕ → ℕ → ℕ
or_bit zero v = v / 2 * 2 + 1
or_bit (suc k) v = or_bit k (v / 2) * 2 + v % 2

unfoldable pub clear_bit : ℕ → ℕ → ℕ
clear_bit zero v = v / 2 * 2
clear_bit (suc k) v = clear_bit k (v / 2) * 2 + v % 2

-- The bit `bi` of a block of the bit map, and the block that holds the bit of `b`.
abbrev pub map_bit : ℕ → ℕ → Disk → ℕ
map_bit blk bi d = bit (bi % 8) (d blk (bi / 8))

abbrev pub bitmap_block : Superblock → ℕ → ℕ
bitmap_block sb b = b / 4096 + sb.bmapstart

abbrev pub bzero : ℕ → Disk → Disk
bzero x d = λ y p. if (x == y) && ltb p 512 then 0 else d y p

-- The inner loop of `balloc`, at most `n` steps from `bi` on, and the outer one from `b` on.
unfoldable pub free_bit : ℕ → ℕ → ℕ → Superblock → Disk → Option ℕ
free_bit zero bi b sb d = none
free_bit (suc n) bi b sb d = elim (ltb (b + bi) sb.size) [
  | false ↦ none
  | true ↦ elim (map_bit (bitmap_block sb b) bi d == 0) [
    | true ↦ some bi
    | false ↦ free_bit n (bi + 1) b sb d
  ]
]

unfoldable pub find_free : ℕ → ℕ → Superblock → Disk → Option (ℕ × ℕ)
find_free zero b sb d = none
find_free (suc n) b sb d = elim (ltb b sb.size) [
  | false ↦ none
  | true ↦ elim (free_bit 4096 0 b sb d) [
    | some bi ↦ some (b, bi)
    | none ↦ find_free n (b + 4096) sb d
  ]
]

abbrev pub mark : ℕ → ℕ → Disk → Disk
mark blk bi d = poke blk (bi / 8) (or_bit (bi % 8) (d blk (bi / 8))) d

abbrev pub unmark : ℕ → ℕ → Disk → Disk
unmark blk bi d = poke blk (bi / 8) (clear_bit (bi % 8) (d blk (bi / 8))) d

-- The loop over the blocks of the bit map takes `size / 4096 + 1` steps at most.
unfoldable pub balloc : Superblock → Disk → Option (ℕ × Disk)
balloc sb d = elim (find_free (sb.size / 4096 + 1) 0 sb d) [
  | none ↦ none
  | some (b, bi) ↦ some (b + bi, bzero (b + bi) (mark (bitmap_block sb b) bi d))
]

unfoldable pub bfree : Superblock → ℕ → Disk → Option Disk
bfree sb b d =
    if map_bit (bitmap_block sb b) (b % 4096) d == 0
    then none
    else some (unmark (bitmap_block sb b) (b % 4096) d)

unfoldable pub put_short : ℕ → ℕ → ℕ → Disk → Disk
put_short x o v d = poke x o (v % 256) (poke x (o + 1) (v / 256 % 256) d)

-- The `memmove` of the addresses, `n` of them, from the `i`-th on.
unfoldable pub put_addrs : ℕ → ℕ → ℕ → ℕ → List ℕ → Disk → Disk
put_addrs zero i x o as_ d = d
put_addrs (suc n) i x o as_ d =
    put_addrs n (i + 1) x o as_ (put_word x (o + 12 + i * 4) (get_or as_ i 0) d)

abbrev pub inode_block : Superblock → ℕ → ℕ
inode_block sb inum = inum / 8 + sb.inodestart

-- `struct dinode` has 64 bytes: four `short`s, the size and 13 addresses.
unfoldable pub iupdate : Superblock → Inode → Disk → Disk
iupdate sb ip d =
    let x = inode_block sb ip.inum in
    let o = ip.inum % 8 * 64 in
    put_addrs 13 0 x o ip.addrs (
      put_word x (o + 8) ip.size (
        put_short x (o + 6) ip.nlink
          (put_short x (o + 4) ip.minor (put_short x (o + 2) ip.major (put_short x o ip.kind d)))))
